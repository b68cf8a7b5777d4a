-- ===== src/Mutex/Invariant/Exclusion.antt =====
-- Mutual exclusion: at most one object holds a lock that is not stale.
use mcma_libraries.Prelude.{
  ℕ, ◌+◌, ◌≡◌, ◌≢◌, refl, sym, ◌∙◌, ap, subst, true, false, String, Option, none, some, List, [],
  ◌∷◌, ◌⊎◌, inl, inr, arith,
}
use mcma_libraries.Mutex.{
  LockData, Store, Waiting, idle, putting, getting, recovering, deleting, releasing, System, Event,
  start, resume, unlock, tick, released, on_release, on_resume, step, run, initial,
}
use mcma_libraries.Mutex.Invariant.{
  Laws, Shared, IsStaleAt, HolderInv, Later, HolderInv-later, IsFresh, known_unique, version_unique,
}
use mcma_libraries.Mutex.Invariant.Steps.{
  HolderInv-unlocked, set_holder-Inv, on_start-Inv, on_unlock-Inv,
}
use mcma_libraries.Mutex.Invariant.Calls.{
  InvOf, shared_of, on_put-Inv, on_get-Inv, on_delete-Inv, after_get-HolderInv, recover-HolderInv,
  quiet_free,
}

module _ {S : Type 0} {store : Store S} {item : S → Option LockData} (laws : Laws store item)
    (lock_timeout : ℕ) (name : ℕ → String) (version : ℕ → ℕ → String)
    (fresh : IsFresh lock_timeout version) where
  abbrev IsGood : System S → Type 0
  IsGood = InvOf laws lock_timeout name version fresh

  abbrev view : System S → Shared
  view = shared_of laws lock_timeout name version fresh

  abbrev resumed : ℕ → System S → Waiting → System S
  resumed i s w = on_resume store lock_timeout name version i s (s.holders i) w

  released-HolderInv :
      (i : ℕ) (s : System S)
      → IsGood s
      → HolderInv lock_timeout version
          (view s)
          i
          (released store lock_timeout name version (s.holders i))
  released-HolderInv i s inv =
      HolderInv-unlocked laws lock_timeout name version fresh i (s.holders i)
        (record (s.holders i) { waiting = idle; has_lock = false }) (inv.objects i) refl refl
        (λ d w. cc)

  on_release-Inv :
      (i : ℕ) (s : System S) (v : Option String)
      → IsGood s
      → (s.holders i).version_id ≡ v
      → IsGood (on_release store lock_timeout name version i s (s.holders i) v)
  unfolding on_release
  on_release-Inv i s none inv e =
      set_holder-Inv laws lock_timeout name version fresh i
        (released store lock_timeout name version (s.holders i)) s inv (released-HolderInv i s inv)
  on_release-Inv i s (some v) inv e =
      on_delete-Inv laws lock_timeout name version fresh i v s
        (released store lock_timeout name version (s.holders i)) inv (released-HolderInv i s inv)
        refl
        (λ k d other locked seen there versioned.
          let owned : (s.holders k).version_id ≡ some v =
            (inv.objects k).held locked
            ∙ ap (λ (x : LockData). some x.version_id) seen
            ∙ ap some versioned in
          absurd (
            other (
              version_unique lock_timeout version fresh inv.table k i (s.holders k) (s.holders i) v
                (inv.objects k) (inv.objects i) owned e)))

  on_resume-Inv :
      (i : ℕ) (s : System S) (w : Waiting)
      → IsGood s
      → (s.holders i).waiting ≡ w
      → IsGood (resumed i s w)
  unfolding on_resume
  on_resume-Inv i s idle inv e = inv
  on_resume-Inv i s (putting t) inv e = on_put-Inv laws lock_timeout name version fresh i t s inv e
  on_resume-Inv i s getting inv e =
      let free =
        quiet_free laws lock_timeout name version fresh (view s) i (s.holders i) (inv.objects i)
          (λ e'. cc) (λ e'. cc) in
      on_get-Inv laws lock_timeout name version fresh i s _ inv (
        after_get-HolderInv laws lock_timeout name version fresh (view s) i (s.holders i) _
          (inv.objects i) free (laws.get_answer s.table))
  on_resume-Inv i s recovering inv e =
      let free =
        quiet_free laws lock_timeout name version fresh (view s) i (s.holders i) (inv.objects i)
          (λ e'. cc) (λ e'. cc) in
      on_get-Inv laws lock_timeout name version fresh i s _ inv (
        recover-HolderInv laws lock_timeout name version fresh (view s) i (s.holders i) _ inv.table
          (inv.objects i) free (laws.get_answer s.table))
  on_resume-Inv i s (deleting d) inv e =
      let free =
        quiet_free laws lock_timeout name version fresh (view s) i (s.holders i) (inv.objects i)
          (λ e'. cc) (λ e'. cc) in
      let (known, stale) = (inv.objects i).removing d e in
      on_delete-Inv laws lock_timeout name version fresh i d.version_id s
        (record (s.holders i) { waiting = idle }) inv
        (HolderInv-unlocked laws lock_timeout name version fresh i (s.holders i)
          (record (s.holders i) { waiting = idle }) (inv.objects i) refl free (λ d' w. cc))
        free
        (λ k d' _ _ _ there versioned.
          subst (IsStaleAt lock_timeout s.now)
            (known_unique lock_timeout version fresh inv.table d d' known
              (inv.table.stored d' there) (sym versioned))
            stale)
  on_resume-Inv i s releasing inv e = on_release-Inv i s (s.holders i).version_id inv refl

  tick-Inv : (n : ℕ) (s : System S) → IsGood s → IsGood (record s { now = s.now + n })
  tick-Inv n s inv =
      let later : Later lock_timeout version (view s) (view (record s { now = s.now + n })) =
        record {
          writes = omega arith;
          now = omega arith;
          written = λ _ _. refl;
          writer = λ _ _. refl;
        } in
      record {
        table = record { stamped = inv.table.stamped; stored = inv.table.stored };
        objects = λ k.
            HolderInv-later lock_timeout version later k (s.holders k) (λ _ e. inl e)
              (inv.objects k);
      }

  step-Inv :
      (e : Event) (s : System S) → IsGood s → IsGood (step store lock_timeout name version e s)
  unfolding step
  step-Inv (start i) s inv = on_start-Inv laws lock_timeout name version fresh i s inv
  step-Inv (resume i) s inv = on_resume-Inv i s (s.holders i).waiting inv refl
  step-Inv (unlock i) s inv = on_unlock-Inv laws lock_timeout name version fresh i s inv
  step-Inv (tick n) s inv = tick-Inv n s inv

  run-Inv :
      (es : List Event) (s : System S)
      → IsGood s
      → IsGood (run store lock_timeout name version es s)
  unfolding run
  run-Inv [] s inv = inv
  run-Inv (e ∷ es) s inv = run-Inv es (step store lock_timeout name version e s) (step-Inv e s inv)

  initial-Inv :
      (table : S) (now : ℕ)
      → item table ≡ none
      → IsGood (initial store lock_timeout name version table now)
  initial-Inv table now empty = record {
    table = record { stamped = λ n below. absurd (omega arith); stored = λ d e. cc };
    objects = λ k. record {
      versions = λ v e. cc;
      held = λ e. cc;
      live = λ e. cc;
      removing = λ d e. cc;
      quiet = λ e. cc;
    };
  }

  IsGood-exclusive :
      (s : System S) (i j : ℕ)
      → IsGood s
      → i ≢ j
      → (s.holders i).has_lock ≡ true
      → (s.holders j).has_lock ≡ true
      → IsStaleAt lock_timeout s.now (s.holders i).seen
        ⊎ IsStaleAt lock_timeout s.now (s.holders j).seen
  IsGood-exclusive s i j inv apart locked locked' = elim ((inv.objects i).live locked) [
    | inr stale ↦ inl stale
    | inl here ↦ elim ((inv.objects j).live locked') [
      | inr stale ↦ inr stale
      | inl there ↦
          let same : (s.holders j).seen ≡ (s.holders i).seen = cc in
          absurd (
            apart (
              version_unique lock_timeout version fresh inv.table i j (s.holders i) (s.holders j)
                (s.holders i).seen.version_id (inv.objects i) (inv.objects j)
                ((inv.objects i).held locked)
                ((inv.objects j).held locked' ∙ ap (λ (x : LockData). some x.version_id) same)))
    ]
  ]

-- The table meets its laws, distinct writes get distinct version identifiers, and the table holds
-- no lock record at the start. Then after any sequence of events, of any number of objects: of two
-- objects that hold the lock, one got it by a record whose timestamp lies more than the lock
-- timeout in the past.
pub run_exclusive :
    {S : Type 0} {store : Store S} {item : S → Option LockData} (laws : Laws store item)
    (lock_timeout : ℕ) (name : ℕ → String) (version : ℕ → ℕ → String)
    (fresh : IsFresh lock_timeout version) (table : S) (now : ℕ) (es : List Event) (i j : ℕ)
    (s : System S)
    → item table ≡ none
    → i ≢ j
    → run store lock_timeout name version es (initial store lock_timeout name version table now) ≡ s
    → (s.holders i).has_lock ≡ true
    → (s.holders j).has_lock ≡ true
    → IsStaleAt lock_timeout s.now (s.holders i).seen
      ⊎ IsStaleAt lock_timeout s.now (s.holders j).seen
run_exclusive laws lock_timeout name version fresh table now es i j s empty apart ran =
    IsGood-exclusive laws lock_timeout name version fresh s i j
      (subst (InvOf laws lock_timeout name version fresh) ran (
        run-Inv laws lock_timeout name version fresh es _
          (initial-Inv laws lock_timeout name version fresh table now empty)))
      apart

-- If the table meets its laws and version identifiers are not reused, then as long as the record by which an object got the lock is not stale,
-- that record is still the one in the table.
pub run_held :
    {S : Type 0} {store : Store S} {item : S → Option LockData} (laws : Laws store item)
    (lock_timeout : ℕ) (name : ℕ → String) (version : ℕ → ℕ → String)
    (fresh : IsFresh lock_timeout version) (table : S) (now : ℕ) (es : List Event) (i : ℕ)
    (s : System S)
    → item table ≡ none
    → run store lock_timeout name version es (initial store lock_timeout name version table now) ≡ s
    → (s.holders i).has_lock ≡ true
    → ¬ (IsStaleAt lock_timeout s.now (s.holders i).seen)
    → item s.table ≡ some (s.holders i).seen
run_held {item} laws lock_timeout name version fresh table now es i s empty ran locked young =
    let inv = subst (InvOf laws lock_timeout name version fresh) ran (
      run-Inv laws lock_timeout name version fresh es _
        (initial-Inv laws lock_timeout name version fresh table now empty)) in
    elim ((inv.objects i).live locked) [ inl here ↦ here | inr stale ↦ absurd (young stale) ]
