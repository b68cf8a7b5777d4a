-- ===== src/Mutex/Invariant.antt =====
-- What holds of every mutex object at every time, whatever the order of the events.
pub mod Steps
pub mod Calls
pub mod Exclusion
use mcma_libraries.Prelude.{
  ℕ, zero, suc, ◌+◌, ◌≤◌, ◌<◌, ◌≡◌, ◌≢◌, refl, sym, ◌∙◌, ap, subst, Bool, true, false, ◌&&◌, String,
  Option, none, some, List, [], ◌∷◌, Result, ok, err, ◌==◌, eq_iff, ltb, eqb, if◌then◌else◌, ◌⊎◌,
  inl, inr, arith, Bool-cases,
}
use mcma_libraries.Mutex.{
  LockData, Store, Waiting, idle, putting, getting, recovering, deleting, releasing, Holder, System,
  set_at, owns,
}

-- What the proofs use of the table: the lock record in it, and what each call can do to that. A
-- call that throws may have been carried out all the same.
pub record Laws {S : Type 0} (store : Store S) (item : S → Option LockData) : Type 0 where
  pub put_effect :
      (d : LockData) (s : S)
      → (item (store.put_lock_data d s).1 ≡ item s)
        ⊎ ((item s ≡ none) × (item (store.put_lock_data d s).1 ≡ some d))
  pub get_effect : (s : S) → item (store.get_lock_data s).1 ≡ item s
  pub get_answer :
      (s : S) (found : Option LockData) → (store.get_lock_data s).0 ≡ ok found → found ≡ item s
  pub delete_effect :
      (v : String) (s : S)
      → (item (store.delete_lock_data v s).1 ≡ item s)
        ⊎ ((item (store.delete_lock_data v s).1 ≡ none)
            × ((d : LockData) × (item s ≡ some d) × (d.version_id ≡ v)))

-- What the objects share.
pub record Shared : Type 0 where
  pub item : Option LockData
  pub now : ℕ
  pub writes : ℕ
  pub written : ℕ → LockData
  pub writer : ℕ → ℕ

abbrev pub IsKnown : Shared → LockData → Type 0
IsKnown g d = (n : ℕ) × (n < g.writes) × (g.written n ≡ d)

module _ (lock_timeout : ℕ) where
  -- The holder has had the lock for longer than the timeout.
  abbrev pub IsStaleAt : ℕ → LockData → Type 0
  IsStaleAt now d = d.timestamp + lock_timeout < now

  module _ (version : ℕ → ℕ → String) where
    pub record SharedInv (g : Shared) : Type 0 where
      pub stamped : (n : ℕ) → n < g.writes → (g.written n).version_id ≡ version (g.writer n) n
      pub stored : (d : LockData) → g.item ≡ some d → IsKnown g d

    pub record HolderInv (g : Shared) (i : ℕ) (h : Holder) : Type 0 where
      pub versions :
          (v : String)
          → h.version_id ≡ some v
          → (n : ℕ) × (n < g.writes) × (g.writer n ≡ i) × (v ≡ version i n)
      pub held : h.has_lock ≡ true → h.version_id ≡ some h.seen.version_id
      pub live : h.has_lock ≡ true → (g.item ≡ some h.seen) ⊎ IsStaleAt g.now h.seen
      pub removing : (d : LockData) → h.waiting ≡ deleting d → IsKnown g d × IsStaleAt g.now d
      pub quiet : h.has_lock ≡ true → (h.waiting ≡ idle) ⊎ (h.waiting ≡ releasing)

    -- `g'` is later than `g`.
    pub record Later (g g' : Shared) : Type 0 where
      pub writes : g.writes ≤ g'.writes
      pub now : g.now ≤ g'.now
      pub written : (n : ℕ) → n < g.writes → g'.written n ≡ g.written n
      pub writer : (n : ℕ) → n < g.writes → g'.writer n ≡ g.writer n

    module _ {g g' : Shared} (later : Later g g') where
      pub IsKnown-later : (d : LockData) → IsKnown g d → IsKnown g' d
      IsKnown-later d (n, below, same) =
          (n, omega (arith, later.writes), later.written n below ∙ same)

      -- An object that does nothing keeps its invariant, if its lock record is left alone or stale.
      pub HolderInv-later :
          (i : ℕ) (h : Holder)
          → (h.has_lock ≡ true
              → g.item ≡ some h.seen
              → (g'.item ≡ some h.seen) ⊎ IsStaleAt g'.now h.seen)
          → HolderInv g i h
          → HolderInv g' i h
      HolderInv-later i h keeps inv = record {
        versions = λ v e.
            let (n, below, mine, same) = inv.versions v e in
            (n, omega (arith, later.writes), later.writer n below ∙ mine, same);
        held = inv.held;
        live = λ locked. elim (inv.live locked) [
          | inl e ↦ keeps locked e
          | inr stale ↦ inr (omega (arith, later.now))
        ];
        removing = λ d e.
            let (known, stale) = inv.removing d e in
            (IsKnown-later d known, omega (arith, later.now));
        quiet = inv.quiet;
      }

    -- Distinct writes have distinct version identifiers.
    abbrev pub IsFresh : Type 0
    IsFresh = (i j n m : ℕ) → version i n ≡ version j m → n ≡ m

    module _ (fresh : IsFresh) {g : Shared} (inv : SharedInv g) where
      pub known_unique :
          (d d' : LockData) → IsKnown g d → IsKnown g d' → d.version_id ≡ d'.version_id → d ≡ d'
      known_unique d d' (n, below, e) (m, below', e') same =
          let n_eq_m : n ≡ m = fresh (g.writer n) (g.writer m) n m (
            sym (inv.stamped n below)
            ∙ ap (λ (x : LockData). x.version_id) e
            ∙ same
            ∙ ap (λ (x : LockData). x.version_id) (sym e')
            ∙ inv.stamped m below') in
          sym e ∙ ap g.written n_eq_m ∙ e'

      -- Only the object that made a write has its version identifier.
      pub version_unique :
          (i j : ℕ) (h k : Holder) (v : String)
          → HolderInv g i h
          → HolderInv g j k
          → h.version_id ≡ some v
          → k.version_id ≡ some v
          → i ≡ j
      version_unique i j h k v hi hj e e' =
          let (n, _, mine, same) = hi.versions v e in
          let (m, _, yours, same') = hj.versions v e' in
          sym mine ∙ ap g.writer (fresh i j n m (sym same ∙ same')) ∙ yours

pub set_at-cases {ℓ} :
    {A : Type ℓ} (i k : ℕ) (a : A) (f : ℕ → A)
    → ((k ≡ i) × (set_at i a f k ≡ a)) ⊎ ((k ≢ i) × (set_at i a f k ≡ f k))
set_at-cases i k a f = elim (Bool-cases (eqb k i)) [
  | inl same ↦ inl (ground arith, rw same)
  | inr other ↦ inr (ground arith, rw other)
]

pub set_at_other {ℓ} : {A : Type ℓ} (i k : ℕ) (a : A) (f : ℕ → A) → k ≢ i → set_at i a f k ≡ f k
set_at_other i k a f h = elim (set_at-cases i k a f) [ inl (e, _) ↦ absurd (h e) | inr (_, e) ↦ e ]

pub set_at_same {ℓ} : {A : Type ℓ} (i : ℕ) (a : A) (f : ℕ → A) → set_at i a f i ≡ a
set_at_same i a f = elim (set_at-cases i i a f) [ inl (_, e) ↦ e | inr (h, _) ↦ absurd (h refl) ]
