-- ===== src/Tests/Tables.antt =====
-- Tables in memory that meet what is assumed of the cloud services.
use mcma_libraries.Prelude.{
  ◌≡◌, refl, Bool, true, false, String, Option, none, some, Result, ok, err, ◌==◌, if◌then◌else◌,
  ◌⊎◌, inl, inr, arith, Bool-cases, eq_iff,
}
use mcma_libraries.Mutex.Invariant.{Laws}
use mcma_libraries.DynamoDb.Mutex.{
  LockItem, TableDescription, Client, generate_table_key, lock_data_of, get_lock_data,
  dynamo_db_store,
}
use mcma_libraries.DynamoDb.Mutex.Laws.{ClientLaws, view, dynamo_db_store-Laws}

-- One key of a table of DynamoDB.
abbrev has_version : Option String → String → Bool
has_version none v = false
has_version (some w) v = w == v

abbrev delete_if : String → Option LockItem → Result (Unit {0}) × Option LockItem
delete_if v none = (err "ConditionalCheckFailed", none)
delete_if v (some item) =
    if has_version item.version_id v
    then (ok tt, none)
    else (err "ConditionalCheckFailed", some item)

abbrev put_if_absent : LockItem → Option LockItem → Result (Unit {0}) × Option LockItem
put_if_absent item none = (ok tt, some item)
put_if_absent item (some old) = (err "ConditionalCheckFailed", some old)

abbrev memory_client : Client (Option LockItem)
memory_client = record {
  get_item = λ key s. (ok s, s);
  delete_item = λ key s. (ok tt, none);
  delete_item_if = λ key v s. delete_if v s;
  put_item_if_absent = λ key item s. put_if_absent item s;
}

has_version-eq : (o : Option String) (v : String) → has_version o v ≡ true → o ≡ some v
has_version-eq none v e = cc
has_version-eq (some w) v e = ground (arith, eq_iff w v)

delete_if_effect :
    (v : String) (s : Option LockItem)
    → ((delete_if v s).1 ≡ s)
      ⊎ (((delete_if v s).1 ≡ none)
          × ((item : LockItem) × (s ≡ some item) × (item.version_id ≡ some v)))
delete_if_effect v none = inl refl
delete_if_effect v (some item) = elim (Bool-cases (has_version item.version_id v)) [
  | inl same ↦ inr (rw same, (item, refl, has_version-eq item.version_id v same))
  | inr other ↦ inl (rw other)
]

put_if_absent_effect :
    (item : LockItem) (s : Option LockItem)
    → ((put_if_absent item s).1 ≡ s) ⊎ ((s ≡ none) × ((put_if_absent item s).1 ≡ some item))
put_if_absent_effect item none = inr (refl, refl)
put_if_absent_effect item (some old) = inl refl

abbrev description : TableDescription
description = record { table_name = "table"; partition = "pk"; sort = some "sk" }

memory_client-Laws : ClientLaws memory_client (generate_table_key description "m") (λ s. s)
memory_client-Laws = record {
  get_effect = λ s. refl;
  get_answer = λ s found e. cc;
  delete_effect = λ s. inr refl;
  delete_if_effect = delete_if_effect;
  put_effect = put_if_absent_effect;
}

dynamo_db_store-Laws_example :
    Laws (dynamo_db_store memory_client (λ s. s) description "m") (λ s. view s)
dynamo_db_store-Laws_example = dynamo_db_store-Laws description "m" memory_client-Laws (λ s. refl)

-- An item without a holder is found, another object removes it and puts its record, and the removal
-- of the first object takes that record away.
abbrev unfit : LockItem
unfit = record { mutex_holder = none; version_id = some "v"; timestamp = some 1 }

abbrev fresh_lock : LockItem
fresh_lock = record { mutex_holder = some "other"; version_id = some "w"; timestamp = some 2 }

fresh_lock_lost :
    (get_lock_data memory_client (λ s. some fresh_lock) description "m" (some unfit)).1 ≡ none
unfolding get_lock_data lock_data_of
fresh_lock_lost = refl
