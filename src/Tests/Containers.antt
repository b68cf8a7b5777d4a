-- ===== src/Tests/Containers.antt =====
-- A container of Cosmos DB in memory that meets what is assumed of the service, and retries.
use native.Mathlib.Decide.{ℕ_discrete}
use mcma_libraries.Prelude.{
  ℕ, suc, ◌+◌, ◌≡◌, ◌≢◌, ◌⊎◌, inl, inr, refl, Bool, true, false, Option, none, some, [], Result, ok,
  err, ltb, if◌then◌else◌,
}
use mathlib.Core.Logic.{ite, if_pos, if_neg}
use mcma_libraries.Core.Dates.{is_valid_date_string}
use mcma_libraries.Documents.{Fields, DateTexts, serialize}
use mcma_libraries.Documents.RoundTrip.{DateLaws, HasStorable}
use mcma_libraries.Documents.Map.{IsMap}
use mcma_libraries.CosmosDb.Retry.{
  retry_of, Failure, Called, thrown, promised, with_retry, retry_loop, pause, timeout_seconds,
}
use mcma_libraries.CosmosDb.Table.{
  ItemKey, Container, CosmosDbTable, retried, awaited, get, put, delete,
}
use mcma_libraries.CosmosDb.Table.Map.{ContainerLaws, document, cosmos_db_table-IsMap}

abbrev Time : Type 0
Time = Unit {0}

abbrev dates : DateTexts Time
dates = record { to_iso_string = λ t. "2020-01-01T00:00:00.000Z"; parse_date = λ s. some tt }

abbrev IsCommon : Time → Type 0
IsCommon t = Unit {0}

new_year : is_valid_date_string "2020-01-01T00:00:00.000Z" ≡ true
unfolding is_valid_date_string
new_year = refl

dates-DateLaws : DateLaws dates IsCommon
dates-DateLaws = record { iso_valid = λ t c. new_year; iso_parsed = λ t c. refl }

abbrev Items : Type 0
Items = ItemKey → Option (Fields ℕ Time)

is_key : (k l : ItemKey) → Dec (k ≡ l)
is_key = hlevel (ℕ_discrete)

abbrev set_item : ItemKey → Option (Fields ℕ Time) → Items → Items
set_item key d s k = ite (is_key k key) d (s k)

set_item_same : (key : ItemKey) (d : Option (Fields ℕ Time)) (s : Items) → set_item key d s key ≡ d
set_item_same key d s = if_pos (is_key key key) refl d (s key)

set_item_other :
    (key other : ItemKey) (d : Option (Fields ℕ Time)) (s : Items)
    → other ≢ key
    → set_item key d s other ≡ s other
set_item_other key other d s apart = if_neg (is_key other key) apart d (s other)

-- Every other call is refused, as the first part of the state tells.
abbrev States : Type 0
States = Bool × Items

abbrev item_read : ItemKey → States → Result (Option (Fields ℕ Time)) × States
item_read key (true, s) = (err "TooManyRequests", (false, s))
item_read key (false, s) = (ok (s key), (true, s))

abbrev upsert_item : ItemKey → Fields ℕ Time → States → Result (Fields ℕ Time) × States
upsert_item key d (true, s) = (err "TooManyRequests", (false, s))
upsert_item key d (false, s) =
    (ok (serialize dates d), (true, set_item key (some (serialize dates d)) s))

abbrev delete_answer : Option (Fields ℕ Time) → Result (Unit {0})
delete_answer none = err "NotFound"
delete_answer (some d) = ok tt

abbrev remove_item : ItemKey → States → Result (Unit {0}) × States
remove_item key (true, s) = (err "TooManyRequests", (false, s))
remove_item key (false, s) = (delete_answer (s key), (true, set_item key none s))

abbrev container : Container ℕ Time States
container = record {
  read = item_read;
  upsert = upsert_item;
  delete = remove_item;
  fetch_all = λ q token n s. (err "not in this container", s);
}

abbrev held : States → ItemKey → Option (Fields ℕ Time)
held s key = s.1 key

read_answer :
    (key : ItemKey) (s : States) (found : Option (Fields ℕ Time))
    → (item_read key s).0 ≡ ok found
    → found ≡ held s key
read_answer key (true, s) found e = cc
read_answer key (false, s) found e = cc

read_keeps : (key other : ItemKey) (s : States) → held (item_read key s).1 other ≡ held s other
read_keeps key other (true, s) = refl
read_keeps key other (false, s) = refl

upsert_answer :
    (key : ItemKey) (d answered : Fields ℕ Time) (s : States)
    → HasStorable IsCommon d
    → (upsert_item key d s).0 ≡ ok answered
    → (answered ≡ serialize dates d) × (held (upsert_item key d s).1 key ≡ some (serialize dates d))
upsert_answer key d answered (true, s) good e = cc
upsert_answer key d answered (false, s) good e =
    (cc, set_item_same key (some (serialize dates d)) s)

upsert_effect :
    (key : ItemKey) (d : Fields ℕ Time) (s : States)
    → (held (upsert_item key d s).1 key ≡ held s key)
      ⊎ (held (upsert_item key d s).1 key ≡ some (serialize dates d))
upsert_effect key d (true, s) = inl refl
upsert_effect key d (false, s) = inr (set_item_same key (some (serialize dates d)) s)

upsert_keeps :
    (key other : ItemKey) (d : Fields ℕ Time) (s : States)
    → other ≢ key
    → held (upsert_item key d s).1 other ≡ held s other
upsert_keeps key other d (true, s) apart = refl
upsert_keeps key other d (false, s) apart =
    set_item_other key other (some (serialize dates d)) s apart

remove_answer :
    (key : ItemKey) (s : States) (x : Unit {0})
    → (remove_item key s).0 ≡ ok x
    → held (remove_item key s).1 key ≡ none
remove_answer key (true, s) x e = cc
remove_answer key (false, s) x e = set_item_same key none s

remove_effect :
    (key : ItemKey) (s : States)
    → (held (remove_item key s).1 key ≡ held s key) ⊎ (held (remove_item key s).1 key ≡ none)
remove_effect key (true, s) = inl refl
remove_effect key (false, s) = inr (set_item_same key none s)

remove_keeps :
    (key other : ItemKey) (s : States)
    → other ≢ key
    → held (remove_item key s).1 other ≡ held s other
remove_keeps key other (true, s) apart = refl
remove_keeps key other (false, s) apart = set_item_other key other none s apart

container-ContainerLaws : ContainerLaws container dates IsCommon held
container-ContainerLaws = record {
  read_answer = read_answer;
  read_keeps = read_keeps;
  upsert_answer = upsert_answer;
  upsert_effect = λ key d s good. upsert_effect key d s;
  upsert_keeps = upsert_keeps;
  delete_answer = remove_answer;
  delete_effect = remove_effect;
  delete_keeps = remove_keeps;
}

abbrev table : CosmosDbTable ℕ Time States
table = record {
  container = container;
  partition_key_name = "pk";
  retry = retry_of none;
  sleep = λ jitter seconds s. s;
  dates = dates;
  digits = λ n. "1";
}

cosmos_db_table-IsMap_example :
    IsMap (HasStorable IsCommon) (document table held) (get table) (put table) (delete table)
cosmos_db_table-IsMap_example = cosmos_db_table-IsMap table container-ContainerLaws dates-DateLaws

-- The state counts the seconds waited; a call throws until ten have passed.
abbrev busy : Failure
busy = record { code = "TooManyRequests"; message = "busy" }

abbrev called_at : ℕ → Called ℕ
called_at n = if ltb n 10 then thrown busy else promised (ok n)

abbrev call : ℕ → Called ℕ × ℕ
call n = (called_at n, n)

abbrev wait : Bool → ℕ → ℕ → ℕ
wait jitter seconds n = n + seconds

two_waits : with_retry wait (retry_of none) call 0 ≡ (promised (ok 15), 15)
unfolding with_retry retry_loop pause timeout_seconds retry_of
two_waits = refl

-- A container that is busy once, which the state counts.
abbrev busy_container : Container ℕ Time ℕ
busy_container = record {
  read = λ key n. (err "TooManyRequests", suc n);
  upsert = λ key d n. (err "TooManyRequests", suc n);
  delete = λ key n. (err "TooManyRequests", suc n);
  fetch_all = λ q token max n. (err "TooManyRequests", suc n);
}

abbrev busy_table : CosmosDbTable ℕ Time ℕ
busy_table = record {
  container = busy_container;
  partition_key_name = "pk";
  retry = retry_of none;
  sleep = λ jitter seconds n. n;
  dates = dates;
  digits = λ n. "1";
}

-- The table asks once and passes the error on.
never_retried : get busy_table [] 0 ≡ (err "TooManyRequests", 1)
unfolding get retried awaited with_retry retry_loop retry_of
never_retried = refl
