-- ===== src/Mutex/Invariant/Calls.antt =====
-- The calls of the table keep the invariant of the mutex objects.
use mcma_libraries.Prelude.{
  ℕ, ◌+◌, ◌≡◌, ◌≢◌, refl, sym, ◌∙◌, ap, subst, true, false, String, Option, none, some, Result, ok,
  err, eq_iff, ltb, if◌then◌else◌, inl, inr, arith, Bool-cases,
}
use mcma_libraries.Mutex.{
  LockData, Store, Waiting, idle, putting, recovering, deleting, releasing, Holder, System, owns,
  new_data, after_put, on_put, take, after_get, recover, on_get, on_delete,
}
use mcma_libraries.Mutex.Invariant.{
  Laws, Shared, IsKnown, IsStaleAt, SharedInv, HolderInv, Later, IsKnown-later, HolderInv-later,
  IsFresh, set_at_same,
}
use mcma_libraries.Mutex.Invariant.Steps.{
  shared, Inv, Objects-set_at, HolderInv-unlocked, written_shared, written-Later, written-stamped,
}

module _ {S : Type 0} {store : Store S} {item : S → Option LockData} (laws : Laws store item)
    (lock_timeout : ℕ) (name : ℕ → String) (version : ℕ → ℕ → String)
    (fresh : IsFresh lock_timeout version) where
  abbrev pub InvOf : System S → Type 0
  InvOf = Inv laws lock_timeout name version fresh

  abbrev pub shared_of : System S → Shared
  shared_of = shared laws lock_timeout name version fresh

  abbrev pub HolderInvAt : Shared → ℕ → Holder → Type 0
  HolderInvAt = HolderInv lock_timeout version

  -- An object that waits for an answer does not hold the lock.
  pub quiet_free :
      (g : Shared) (i : ℕ) (h : Holder)
      → HolderInvAt g i h
      → h.waiting ≢ idle
      → h.waiting ≢ releasing
      → h.has_lock ≡ false
  quiet_free g i h inv busy kept = elim (Bool-cases h.has_lock) [
    | inr free ↦ free
    | inl locked ↦ elim (inv.quiet locked) [ inl e ↦ absurd (busy e) | inr e ↦ absurd (kept e) ]
  ]

  abbrev pub put_data : ℕ → ℕ → System S → LockData
  put_data i t s = new_data store lock_timeout name version i s.writes t

  abbrev pub put_of : ℕ → ℕ → System S → Holder → System S
  put_of = on_put store lock_timeout name version

  after_put-HolderInv :
      (i t : ℕ) (s : System S) (h : Holder) (o : Option LockData) (answer : Result (Unit {0}))
      → HolderInvAt (shared_of s) i h
      → h.waiting ≡ putting t
      → HolderInvAt
          (written_shared laws lock_timeout name version fresh i (put_data i t s) o s)
          i
          (after_put store lock_timeout name version i s.writes h answer)
  unfolding after_put
  after_put-HolderInv i t s h o (ok x) inv e =
      let free = quiet_free (shared_of s) i h inv (λ e'. cc) (λ e'. cc) in
      record {
        versions = λ v e'. (s.writes, omega arith, set_at_same s.writes i s.writer, cc);
        held = λ locked. cc;
        live = λ locked. cc;
        removing = λ d w. cc;
        quiet = λ locked. cc;
      }
  after_put-HolderInv i t s h o (err x) inv e =
      let free = quiet_free (shared_of s) i h inv (λ e'. cc) (λ e'. cc) in
      let later = written-Later laws lock_timeout name version fresh i (put_data i t s) o s in
      HolderInv-unlocked laws lock_timeout name version fresh i h
        (record h { waiting = recovering })
        (HolderInv-later lock_timeout version later i h (λ locked _. cc) inv) refl free (λ d w. cc)

  put_effect-stored :
      (i t : ℕ) (s : System S)
      → SharedInv lock_timeout version (shared_of s)
      → (d : LockData) → item (store.put_lock_data (put_data i t s) s.table).1 ≡ some d
      → IsKnown (shared_of (put_of i t s (s.holders i))) d
  unfolding on_put
  put_effect-stored i t s inv d e = elim (laws.put_effect (put_data i t s) s.table) [
    | inl same ↦
        IsKnown-later lock_timeout version
          (written-Later laws lock_timeout name version fresh i (put_data i t s) (some d) s) d
          (inv.stored d (sym same ∙ e))
    | inr (_, new) ↦ (s.writes, omega arith, set_at_same s.writes (put_data i t s) s.written ∙ cc)
  ]

  pub on_put-Inv :
      (i t : ℕ) (s : System S)
      → InvOf s
      → (s.holders i).waiting ≡ putting t
      → InvOf (put_of i t s (s.holders i))
  unfolding on_put
  on_put-Inv i t s inv e =
      let d = put_data i t s in
      let o = item (store.put_lock_data d s.table).1 in
      let later = written-Later laws lock_timeout name version fresh i d o s in
      record {
        table = record {
          stamped = written-stamped laws lock_timeout name version fresh i t s inv.table;
          stored = put_effect-stored i t s inv.table;
        };
        objects =
            Objects-set_at laws lock_timeout name version fresh i
              (after_put store lock_timeout name version i s.writes (s.holders i)
                (store.put_lock_data d s.table).0)
              s.holders later inv.objects
              (after_put-HolderInv i t s (s.holders i) o (store.put_lock_data d s.table).0
                (inv.objects i) e)
              (λ k _ _ kept. elim (laws.put_effect d s.table) [
                | inl same ↦ inl (same ∙ kept)
                | inr (empty, _) ↦ cc
              ]);
      }

  -- A record that an object owns has the version identifier of the object.
  owns-version :
      (i : ℕ) (v : Option String) (d : LockData)
      → owns (name i) v (some d) ≡ true
      → v ≡ some d.version_id
  owns-version i none d e = cc
  owns-version i (some v) d e =
      ground (arith, eq_iff d.version_id v, eq_iff d.mutex_holder (name i))

  pub after_get-HolderInv :
      (g : Shared) (i : ℕ) (h : Holder) (answer : Result (Option LockData))
      → HolderInvAt g i h
      → h.has_lock ≡ false
      → ((found : Option LockData) → answer ≡ ok found → found ≡ g.item)
      → HolderInvAt g i (after_get store lock_timeout name version i h answer)
  unfolding after_get take
  after_get-HolderInv g i h (ok none) inv free read =
      HolderInv-unlocked laws lock_timeout name version fresh i h _ inv refl refl (λ d w. cc)
  after_get-HolderInv g i h (ok (some d)) inv free read = record {
    versions = inv.versions;
    held = owns-version i h.version_id d;
    live = λ _. inl (sym (read (some d) refl));
    removing = λ d' w. cc;
    quiet = λ _. inl refl;
  }
  after_get-HolderInv g i h (err x) inv free read =
      HolderInv-unlocked laws lock_timeout name version fresh i h _ inv refl free (λ d w. cc)

  deleting-IsStaleAt :
      (now : ℕ) (d d' : LockData)
      → (if ltb (d.timestamp + lock_timeout) now then deleting d else idle) ≡ deleting d'
      → (d ≡ d') × IsStaleAt lock_timeout now d
  deleting-IsStaleAt now d d' e = ground arith

  pub recover-HolderInv :
      (g : Shared) (i : ℕ) (h : Holder) (answer : Result (Option LockData))
      → SharedInv lock_timeout version g
      → HolderInvAt g i h
      → h.has_lock ≡ false
      → ((found : Option LockData) → answer ≡ ok found → found ≡ g.item)
      → HolderInvAt g i (recover store lock_timeout name version g.now h answer)
  unfolding recover
  recover-HolderInv g i h (ok none) table inv free read =
      HolderInv-unlocked laws lock_timeout name version fresh i h _ inv refl free (λ d w. cc)
  recover-HolderInv g i h (err x) table inv free read =
      HolderInv-unlocked laws lock_timeout name version fresh i h _ inv refl free (λ d w. cc)
  recover-HolderInv g i h (ok (some d)) table inv free read =
      let waiting : Waiting = if ltb (d.timestamp + lock_timeout) g.now then deleting d else idle in
      HolderInv-unlocked laws lock_timeout name version fresh i h (record h { waiting = waiting })
        inv refl free
        (λ d' w.
          let (same, stale) = deleting-IsStaleAt g.now d d' w in
          (
            table.stored d' (sym (read (some d) refl) ∙ ap some same),
            subst (IsStaleAt lock_timeout g.now) same stale,
          ))

  abbrev pub get_of : ℕ → System S → (Result (Option LockData) → Holder) → System S
  get_of = on_get store lock_timeout name version

  pub on_get-Inv :
      (i : ℕ) (s : System S) (next : Result (Option LockData) → Holder)
      → InvOf s
      → HolderInvAt (shared_of s) i (next (store.get_lock_data s.table).0)
      → InvOf (get_of i s next)
  unfolding on_get
  on_get-Inv i s next inv mine =
      let same = laws.get_effect s.table in
      let later : Later lock_timeout version (shared_of s) (shared_of (get_of i s next)) = record {
        writes = omega arith;
        now = omega arith;
        written = λ _ _. refl;
        writer = λ _ _. refl;
      } in
      record {
        table = record {
          stamped = inv.table.stamped;
          stored = λ d e. inv.table.stored d (sym same ∙ e);
        };
        objects =
            Objects-set_at laws lock_timeout name version fresh i
              (next (store.get_lock_data s.table).0) s.holders later inv.objects
              (HolderInv-later lock_timeout version later i (next (store.get_lock_data s.table).0)
                (λ _ e. inl (same ∙ e)) mine)
              (λ k _ _ kept. inl (same ∙ kept));
      }

  abbrev pub delete_of : ℕ → String → System S → Holder → System S
  delete_of = on_delete store lock_timeout name version

  -- A removal by version identifier is safe for the others if the record with that identifier is
  -- stale, or is that of the object that removes it.
  pub on_delete-Inv :
      (i : ℕ) (v : String) (s : System S) (next : Holder)
      → InvOf s
      → HolderInvAt (shared_of s) i next
      → next.has_lock ≡ false
      → ((k : ℕ) (d : LockData)
          → k ≢ i
          → (s.holders k).has_lock ≡ true
          → (s.holders k).seen ≡ d
          → item s.table ≡ some d
          → d.version_id ≡ v
          → IsStaleAt lock_timeout s.now d)
      → InvOf (delete_of i v s next)
  unfolding on_delete
  on_delete-Inv i v s next inv mine free safe =
      let later : Later lock_timeout version (shared_of s) (shared_of (delete_of i v s next)) =
        record {
          writes = omega arith;
          now = omega arith;
          written = λ _ _. refl;
          writer = λ _ _. refl;
        } in
      record {
        table = record {
          stamped = inv.table.stamped;
          stored = λ d e. elim (laws.delete_effect v s.table) [
            | inl same ↦ inv.table.stored d (sym same ∙ e)
            | inr (gone, _) ↦ cc
          ];
        };
        objects =
            Objects-set_at laws lock_timeout name version fresh i next s.holders later inv.objects
              (HolderInv-later lock_timeout version later i next (λ locked _. cc) mine)
              (λ k other locked kept. elim (laws.delete_effect v s.table) [
                | inl same ↦ inl (same ∙ kept)
                | inr (_, (d, there, versioned)) ↦
                    let seen : (s.holders k).seen ≡ d = cc in
                    inr (
                      subst (IsStaleAt lock_timeout s.now) (sym seen)
                        (safe k d other locked seen there versioned))
              ]);
      }
