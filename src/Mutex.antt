-- ===== src/Mutex.antt =====
-- base/data/lib/document-database/document-database-mutex.ts: the mutex that is kept as a record of
-- a document table, for any number of objects whose calls interleave at every `await`.
-- Each object runs one call of `lock`, `tryLock` or `unlock` at a time, and the loops of `lock` and
-- `tryLock` are calls of `start` that follow one another. Log output is left out.
pub mod Invariant
pub mod Progress
use mcma_libraries.Prelude.{
  ℕ, zero, suc, ◌+◌, ◌<◌, ◌≡◌, Bool, true, false, ◌&&◌, String, Option, none, some, List, [], ◌∷◌,
  Result, ok, err, ◌==◌, ltb, eqb, if◌then◌else◌, ◌⊎◌,
}

pub record LockData : Type 0 where
  pub mutex_holder : String
  pub timestamp : ℕ
  pub version_id : String

-- The abstract methods `putLockData`, `getLockData` and `deleteLockData` over a table `S`.
pub record Store (S : Type 0) : Type 0 where
  pub put_lock_data : LockData → S → Result (Unit {0}) × S
  pub get_lock_data : S → Result (Option LockData) × S
  pub delete_lock_data : String → S → Result (Unit {0}) × S

-- Where a call of an object waits: `putting t` for the answer to `putLockData` with the timestamp
-- `t`, `getting` for the `getLockData` behind it, `recovering` for the `getLockData` of the
-- handler, `deleting d` for the removal of the stale record `d`, `releasing` in `unlock`.
pub data Waiting : Type 0 where
  idle : Waiting
  putting : ℕ → Waiting
  getting : Waiting
  recovering : Waiting
  deleting : LockData → Waiting
  releasing : Waiting

-- One mutex object. `seen` is the record that made it set `hasLock`.
pub record Holder : Type 0 where
  pub waiting : Waiting
  pub has_lock : Bool
  pub version_id : Option String
  pub seen : LockData

-- The table, the clock, the objects, and all writes so far with the objects that made them.
pub record System (S : Type 0) : Type 0 where
  pub table : S
  pub now : ℕ
  pub writes : ℕ
  pub written : ℕ → LockData
  pub writer : ℕ → ℕ
  pub holders : ℕ → Holder

abbrev pub set_at {ℓ} : {A : Type ℓ} → ℕ → A → (ℕ → A) → ℕ → A
set_at i a f k = if eqb k i then a else f k

-- `lockData?.mutexHolder === this.mutexHolder && lockData?.versionId === this.versionId`
abbrev pub owns : String → Option String → Option LockData → Bool
owns name version none = false
owns name none (some d) = false
owns name (some version) (some d) = d.mutex_holder == name && d.version_id == version

pub data Event : Type 0 where
  start : ℕ → Event
  resume : ℕ → Event
  unlock : ℕ → Event
  tick : ℕ → Event

-- `lock_timeout` is `lockTimeout`; `name i` is the `mutexHolder` of object `i`, and `version i n`
-- the version identifier of its write when that is the `n`-th write of all.
module _ {S : Type 0} (store : Store S) (lock_timeout : ℕ) (name : ℕ → String)
    (version : ℕ → ℕ → String) where
  abbrev pub set_holder : ℕ → Holder → System S → System S
  set_holder i h s = record s { holders = set_at i h s.holders }

  -- A call of `lock` or `tryLock`, or one more round of their loops; they throw if the lock is held.
  pub on_start : ℕ → System S → Holder → System S
  on_start i s h = elim h.has_lock [
    | true ↦ s
    | false ↦ elim h.waiting [
      | idle ↦ set_holder i (record h { waiting = putting s.now }) s
      | other ↦ s
    ]
  ]

  -- The record that a write puts, as the `n`-th write.
  abbrev pub new_data : ℕ → ℕ → ℕ → LockData
  new_data i n t = record { mutex_holder = name i; timestamp = t; version_id = version i n }

  after_put : ℕ → ℕ → Holder → Result (Unit {0}) → Holder
  after_put i n h (ok _) = record h { waiting = getting; version_id = some (version i n) }
  after_put i n h (err _) = record h { waiting = recovering }

  pub on_put : ℕ → ℕ → System S → Holder → System S
  on_put i t s h =
      let d = new_data i s.writes t in
      let (answer, table) = store.put_lock_data d s.table in
      record s {
        table = table;
        writes = s.writes + 1;
        written = set_at s.writes d s.written;
        writer = set_at s.writes i s.writer;
        holders = set_at i (after_put i s.writes h answer) s.holders;
      }

  -- `this.hasLock = …`, with the record that was read.
  take : ℕ → Holder → Option LockData → Holder
  take i h none = record h { waiting = idle; has_lock = false }
  take i h (some d) = record h {
    waiting = idle;
    has_lock = owns (name i) h.version_id (some d);
    seen = d;
  }

  pub after_get : ℕ → Holder → Result (Option LockData) → Holder
  after_get i h (ok found) = take i h found
  after_get i h (err _) = record h { waiting = recovering }

  -- The handler: a stale record is to be deleted. What `getLockData` throws leaves the call.
  pub recover : ℕ → Holder → Result (Option LockData) → Holder
  recover now h (ok (some d)) = record h {
    waiting = if ltb (d.timestamp + lock_timeout) now then deleting d else idle;
  }
  recover now h (ok none) = record h { waiting = idle }
  recover now h (err _) = record h { waiting = idle }

  pub on_get : ℕ → System S → (Result (Option LockData) → Holder) → System S
  on_get i s next =
      let (answer, table) = store.get_lock_data s.table in
      record s { table = table; holders = set_at i (next answer) s.holders }

  -- What `deleteLockData` throws is caught.
  pub on_delete : ℕ → String → System S → Holder → System S
  on_delete i v s next =
      let (answer, table) = store.delete_lock_data v s.table in
      record s { table = table; holders = set_at i next s.holders }

  abbrev pub released : Holder → Holder
  released h = record h { waiting = idle; has_lock = false }

  -- An object without a version identifier has nothing to delete: the call throws, and is caught.
  on_release : ℕ → System S → Holder → Option String → System S
  on_release i s h none = set_holder i (released h) s
  on_release i s h (some v) = on_delete i v s (released h)

  -- The answer to what an object waits for, and the code up to its next `await`.
  pub on_resume : ℕ → System S → Holder → Waiting → System S
  on_resume i s h idle = s
  on_resume i s h (putting t) = on_put i t s h
  on_resume i s h getting = on_get i s (after_get i h)
  on_resume i s h recovering = on_get i s (recover s.now h)
  on_resume i s h (deleting d) = on_delete i d.version_id s (record h { waiting = idle })
  on_resume i s h releasing = on_release i s h h.version_id

  -- A call of `unlock`, which throws if the lock is not held.
  pub on_unlock : ℕ → System S → Holder → System S
  on_unlock i s h = elim h.has_lock [
    | false ↦ s
    | true ↦ elim h.waiting [ idle ↦ set_holder i (record h { waiting = releasing }) s | other ↦ s ]
  ]

  unfoldable pub step : Event → System S → System S
  unfolding on_start on_put after_put take after_get recover on_get on_delete on_release on_resume
      on_unlock
  step (start i) s = on_start i s (s.holders i)
  step (resume i) s = on_resume i s (s.holders i) (s.holders i).waiting
  step (unlock i) s = on_unlock i s (s.holders i)
  step (tick n) s = record s { now = s.now + n }

  unfoldable pub run : List Event → System S → System S
  unfolding step
  run [] s = s
  run (e ∷ es) s = run es (step e s)

  -- The objects as they are made.
  abbrev pub initial : S → ℕ → System S
  initial table now = record {
    table = table;
    now = now;
    writes = 0;
    written = λ _. new_data 0 0 0;
    writer = λ _. 0;
    holders =
        λ i. record { waiting = idle; has_lock = false; version_id = none; seen = new_data i 0 0 };
  }
