-- ===== src/Mutex/Progress.antt =====
-- What a call of `unlock` does to the object and to the table.
use mcma_libraries.Prelude.{ℕ, ◌≡◌, true, false, String, Option, some, [], ◌∷◌, eqb, arith}
use mcma_libraries.Mutex.{LockData, Store, idle, Holder, System, resume, unlock, run}

eqb_same : (i : ℕ) → eqb i i ≡ true
eqb_same i = ground arith

module _ {S : Type 0} (store : Store S) (lock_timeout : ℕ) (name : ℕ → String)
    (version : ℕ → ℕ → String) where
  abbrev pub at_rest : Option String → LockData → Holder
  at_rest v d = record { waiting = idle; has_lock = false; version_id = v; seen = d }

  abbrev pub locked_by : Option String → LockData → Holder
  locked_by v d = record { waiting = idle; has_lock = true; version_id = v; seen = d }

  -- An object that holds the lock calls `unlock`: it has the record with its version identifier
  -- deleted, and holds the lock no longer, whatever the removal answers.
  pub run_releases :
      (i : ℕ) (s : System S) (v : String) (d : LockData)
      → s.holders i ≡ locked_by (some v) d
      → ((run store lock_timeout name version (unlock i ∷ resume i ∷ []) s).holders i
          ≡ at_rest (some v) d)
        × ((run store lock_timeout name version (unlock i ∷ resume i ∷ []) s).table
            ≡ (store.delete_lock_data v s.table).1)
  unfolding run
  run_releases i s v d locked =
      (rw locked (rw (eqb_same i) (rw (eqb_same i))), rw locked (rw (eqb_same i)))
