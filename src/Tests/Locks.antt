-- ===== src/Tests/Locks.antt =====
-- The mutex and its DynamoDB table, run on tables in memory.
use mcma_libraries.Prelude.{
  ℕ, zero, suc, ◌≡◌, refl, sym, ◌∙◌, ap, true, String, Option, none, some, List, [], ◌∷◌, Result,
  ok, err, ◌==◌, eq_iff, if◌then◌else◌, ◌⊎◌, inl, inr, arith, Bool-cases,
}
use Prim.Native.Char.{Char}
use mcma_libraries.Mutex.{LockData, Store, System, Event, start, resume, unlock, tick, run, initial}
use mcma_libraries.Mutex.Invariant.{Laws, IsStaleAt, IsFresh}
use mcma_libraries.Mutex.Invariant.Exclusion.{run_exclusive, run_held}
use mcma_libraries.Mutex.Progress.{run_releases, locked_by, at_rest}

-- A table in memory, whose condition and whose removal are carried out at once.
abbrev put_memory : LockData → Option LockData → Result (Unit {0}) × Option LockData
put_memory d none = (ok tt, some d)
put_memory d (some old) = (err "exists", some old)

abbrev delete_memory : String → Option LockData → Result (Unit {0}) × Option LockData
delete_memory v none = (err "missing", none)
delete_memory v (some d) = if d.version_id == v then (ok tt, none) else (err "changed", some d)

abbrev memory : Store (Option LockData)
memory = record {
  put_lock_data = put_memory;
  get_lock_data = λ s. (ok s, s);
  delete_lock_data = delete_memory;
}

put_memory_effect :
    (d : LockData) (s : Option LockData)
    → ((put_memory d s).1 ≡ s) ⊎ ((s ≡ none) × ((put_memory d s).1 ≡ some d))
put_memory_effect d none = inr (refl, refl)
put_memory_effect d (some old) = inl refl

delete_memory_effect :
    (v : String) (s : Option LockData)
    → ((delete_memory v s).1 ≡ s)
      ⊎ (((delete_memory v s).1 ≡ none) × ((d : LockData) × (s ≡ some d) × (d.version_id ≡ v)))
delete_memory_effect v none = inl refl
delete_memory_effect v (some d) = elim (Bool-cases (d.version_id == v)) [
  | inl same ↦ inr (rw same, (d, refl, (eq_iff d.version_id v).0 same))
  | inr other ↦ inl (rw other)
]

memory-Laws : Laws memory (λ s. s)
memory-Laws = record {
  put_effect = put_memory_effect;
  get_effect = λ s. refl;
  get_answer = λ s found e. cc;
  delete_effect = delete_memory_effect;
}

-- A text for each number.
abbrev mark : Char
mark = "x"

abbrev marks : ℕ → String
marks zero = ""
marks (suc n) = String.◌∷◌ mark (marks n)

abbrev size : String → ℕ
size String.[] = 0
size (String.◌∷◌ c s) = suc (size s)

size-marks : (n : ℕ) → size (marks n) ≡ n
size-marks zero = refl
size-marks (suc n) = ap suc (size-marks n)

-- A version identifier for each write, as a table gives it; and one for each object, as
-- `DynamoDbMutex` chooses it.
abbrev by_write : ℕ → ℕ → String
by_write i n = marks n

abbrev by_object : ℕ → ℕ → String
by_object i n = marks i

by_write-IsFresh : IsFresh 10 by_write
by_write-IsFresh i j n m e = sym (size-marks n) ∙ ap size e ∙ size-marks m

abbrev worker : ℕ → String
worker i = "worker"

-- The first object locks, its lock turns stale, and the second one takes over.
abbrev takeover : List Event
takeover =
    start 1
    ∷ resume 1
    ∷ resume 1
    ∷ tick 20
    ∷ start 2
    ∷ resume 2
    ∷ resume 2
    ∷ resume 2
    ∷ start 2
    ∷ resume 2
    ∷ resume 2
    ∷ []

abbrev after_takeover : System (Option LockData)
after_takeover = run memory 10 worker by_write takeover (initial memory 10 worker by_write none 100)

takeover_first : (after_takeover.holders 1).has_lock ≡ true
unfolding run
takeover_first = refl

takeover_second : (after_takeover.holders 2).has_lock ≡ true
unfolding run
takeover_second = refl

takeover_young : ¬ (IsStaleAt 10 after_takeover.now (after_takeover.holders 2).seen)
unfolding run
takeover_young = omega arith

run_exclusive_example :
    IsStaleAt 10 after_takeover.now (after_takeover.holders 1).seen
    ⊎ IsStaleAt 10 after_takeover.now (after_takeover.holders 2).seen
run_exclusive_example =
    run_exclusive memory-Laws 10 worker by_write by_write-IsFresh none 100 takeover 1 2
      after_takeover refl (omega arith) refl takeover_first takeover_second

run_held_example : after_takeover.table ≡ some (after_takeover.holders 2).seen
run_held_example =
    run_held memory-Laws 10 worker by_write by_write-IsFresh none 100 takeover 2 after_takeover refl
      refl takeover_second takeover_young

-- The record of another object, written at 100.
abbrev other_data : LockData
other_data = record { mutex_holder = "other"; timestamp = 100; version_id = "v" }

abbrev taken_at : ℕ → System (Option LockData)
taken_at now = initial memory 10 worker by_write (some other_data) now

abbrev holding : System (Option LockData)
holding = record (taken_at 105) {
  holders = λ i. locked_by memory 10 worker by_write (some "v") other_data;
}

run_releases_example :
    ((run memory 10 worker by_write (unlock 1 ∷ resume 1 ∷ []) holding).holders 1
      ≡ at_rest memory 10 worker by_write (some "v") other_data)
    × ((run memory 10 worker by_write (unlock 1 ∷ resume 1 ∷ []) holding).table
        ≡ (delete_memory "v" (some other_data)).1)
run_releases_example = run_releases memory 10 worker by_write 1 holding "v" other_data refl

-- With one version identifier for all writes of an object: the second object has read the stale
-- record of the first one, which unlocks and locks again before the second one deletes the record
-- with that identifier. The third object then gets the lock beside the first one, and no record
-- is stale.
abbrev reused : List Event
reused =
    start 1
    ∷ resume 1
    ∷ resume 1
    ∷ tick 20
    ∷ start 2
    ∷ resume 2
    ∷ resume 2
    ∷ unlock 1
    ∷ resume 1
    ∷ start 1
    ∷ resume 1
    ∷ resume 1
    ∷ resume 2
    ∷ start 3
    ∷ resume 3
    ∷ resume 3
    ∷ []

abbrev after_reused : System (Option LockData)
after_reused = run memory 10 worker by_object reused (initial memory 10 worker by_object none 100)

both_locked :
    ((after_reused.holders 1).has_lock ≡ true)
    × ((after_reused.holders 3).has_lock ≡ true)
    × ¬ (IsStaleAt 10 after_reused.now (after_reused.holders 1).seen)
    × ¬ (IsStaleAt 10 after_reused.now (after_reused.holders 3).seen)
unfolding run
both_locked = (refl, refl, omega arith, omega arith)
