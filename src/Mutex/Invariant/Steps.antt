-- ===== src/Mutex/Invariant/Steps.antt =====
-- Every event keeps the invariant of the mutex objects.
use mcma_libraries.Prelude.{
  ℕ, ◌+◌, ◌<◌, ◌≡◌, ◌≢◌, refl, sym, ◌∙◌, subst, true, false, String, Option, some, ◌⊎◌, inl, inr,
  arith,
}
use mcma_libraries.Mutex.{
  LockData, Store, putting, deleting, releasing, Holder, System, set_at, set_holder, on_start,
  new_data, on_unlock,
}
use mcma_libraries.Mutex.Invariant.{
  Laws, Shared, IsKnown, IsStaleAt, SharedInv, HolderInv, Later, HolderInv-later, IsFresh,
  set_at-cases, set_at_other, set_at_same,
}

module _ {S : Type 0} {store : Store S} {item : S → Option LockData} (laws : Laws store item)
    (lock_timeout : ℕ) (name : ℕ → String) (version : ℕ → ℕ → String)
    (fresh : IsFresh lock_timeout version) where
  abbrev pub shared : System S → Shared
  shared s = record {
    item = item s.table;
    now = s.now;
    writes = s.writes;
    written = s.written;
    writer = s.writer;
  }

  abbrev pub Objects : Shared → (ℕ → Holder) → Type 0
  Objects g holders = (k : ℕ) → HolderInv lock_timeout version g k (holders k)

  pub record Inv (s : System S) : Type 0 where
    pub table : SharedInv lock_timeout version (shared s)
    pub objects : Objects (shared s) s.holders

  -- One object changes, and the others keep their lock record or find it stale.
  pub Objects-set_at :
      {g g' : Shared} (i : ℕ) (h : Holder) (holders : ℕ → Holder)
      → Later lock_timeout version g g'
      → Objects g holders
      → HolderInv lock_timeout version g' i h
      → ((k : ℕ)
          → k ≢ i
          → (holders k).has_lock ≡ true
          → g.item ≡ some (holders k).seen
          → (g'.item ≡ some (holders k).seen) ⊎ IsStaleAt lock_timeout g'.now (holders k).seen)
      → Objects g' (set_at i h holders)
  Objects-set_at {g'} i h holders later all mine keeps k = elim (set_at-cases i k h holders) [
    | inl (same, e) ↦ rw e (subst (λ j. HolderInv lock_timeout version g' j h) (sym same) mine)
    | inr (other, e) ↦
        rw e (HolderInv-later lock_timeout version later k (holders k) (keeps k other) (all k))
  ]

  pub Later-refl : (g : Shared) → Later lock_timeout version g g
  Later-refl g = record {
    writes = omega arith;
    now = omega arith;
    written = λ _ _. refl;
    writer = λ _ _. refl;
  }

  -- An object without the lock that waits for nothing stale satisfies its invariant.
  pub HolderInv-unlocked :
      {g : Shared} (i : ℕ) (h h' : Holder)
      → HolderInv lock_timeout version g i h
      → h'.version_id ≡ h.version_id
      → h'.has_lock ≡ false
      → ((d : LockData) → h'.waiting ≡ deleting d → IsKnown g d × IsStaleAt lock_timeout g.now d)
      → HolderInv lock_timeout version g i h'
  HolderInv-unlocked i h h' inv same free removing = record {
    versions = λ v e. inv.versions v (sym same ∙ e);
    held = λ e. cc;
    live = λ e. cc;
    removing = removing;
    quiet = λ e. cc;
  }

  pub set_holder-Inv :
      (i : ℕ) (h : Holder) (s : System S)
      → Inv s
      → HolderInv lock_timeout version (shared s) i h
      → Inv (set_holder store lock_timeout name version i h s)
  set_holder-Inv i h s inv mine = record {
    table = inv.table;
    objects =
        Objects-set_at i h s.holders (Later-refl (shared s)) inv.objects mine (λ k _ _ e. inl e);
  }

  abbrev pub start_of : ℕ → System S → Holder → System S
  start_of = on_start store lock_timeout name version

  on_start-cases :
      (i : ℕ) (s : System S) (h : Holder)
      → (start_of i s h ≡ s)
        ⊎ ((h.has_lock ≡ false)
            × (start_of i s h
                ≡ set_holder store lock_timeout name version i
                    (record h { waiting = putting s.now })
                    s))
  unfolding on_start
  on_start-cases i s h = ground arith

  pub on_start-Inv : (i : ℕ) (s : System S) → Inv s → Inv (start_of i s (s.holders i))
  on_start-Inv i s inv = elim (on_start-cases i s (s.holders i)) [
    | inl same ↦ subst Inv (sym same) inv
    | inr (free, e) ↦
        let h = s.holders i in
        let h' : Holder = record h { waiting = putting s.now } in
        subst Inv (sym e) (
          set_holder-Inv i h' s inv
            (HolderInv-unlocked i h h' (inv.objects i) refl free (λ d w. cc)))
  ]

  abbrev pub unlock_of : ℕ → System S → Holder → System S
  unlock_of = on_unlock store lock_timeout name version

  on_unlock-cases :
      (i : ℕ) (s : System S) (h : Holder)
      → (unlock_of i s h ≡ s)
        ⊎ (unlock_of i s h
            ≡ set_holder store lock_timeout name version i (record h { waiting = releasing }) s)
  unfolding on_unlock
  on_unlock-cases i s h = ground arith

  pub on_unlock-Inv : (i : ℕ) (s : System S) → Inv s → Inv (unlock_of i s (s.holders i))
  on_unlock-Inv i s inv = elim (on_unlock-cases i s (s.holders i)) [
    | inl same ↦ subst Inv (sym same) inv
    | inr e ↦
        let mine = inv.objects i in
        subst Inv (sym e) (
          set_holder-Inv i (record (s.holders i) { waiting = releasing }) s inv
            (record {
              versions = mine.versions;
              held = mine.held;
              live = mine.live;
              removing = λ d w. cc;
              quiet = λ _. inr refl;
            }))
  ]

  -- The table after one more write, whose effect is `o`.
  abbrev pub written_shared : ℕ → LockData → Option LockData → System S → Shared
  written_shared i d o s = record {
    item = o;
    now = s.now;
    writes = s.writes + 1;
    written = set_at s.writes d s.written;
    writer = set_at s.writes i s.writer;
  }

  pub written-Later :
      (i : ℕ) (d : LockData) (o : Option LockData) (s : System S)
      → Later lock_timeout version (shared s) (written_shared i d o s)
  written-Later i d o s = record {
    writes = omega arith;
    now = omega arith;
    written = λ n below. set_at_other s.writes n d s.written (omega arith);
    writer = λ n below. set_at_other s.writes n i s.writer (omega arith);
  }

  pub written-stamped :
      (i t : ℕ) (s : System S)
      → SharedInv lock_timeout version (shared s)
      → (n : ℕ) → n < s.writes + 1
      → (set_at s.writes
          (new_data store lock_timeout name version i s.writes t)
          s.written
          n).version_id
        ≡ version (set_at s.writes i s.writer n) n
  written-stamped i t s inv n below =
      let d = new_data store lock_timeout name version i s.writes t in
      elim (set_at-cases s.writes n d s.written) [
        | inl (e, here) ↦
            rw e (rw (set_at_same s.writes d s.written, set_at_same s.writes i s.writer))
        | inr (other, there) ↦
            rw (there, set_at_other s.writes n i s.writer other) (inv.stamped n (omega arith))
      ]
