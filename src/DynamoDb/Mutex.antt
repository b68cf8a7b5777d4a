-- ===== src/DynamoDb/Mutex.antt =====
-- aws/dynamodb/lib/dynamo-db-mutex.ts: the methods that `DynamoDbMutex` gives to the mutex. The
-- document client of the AWS SDK is a parameter.
pub mod Laws
use mcma_libraries.Prelude.{
  ℕ, zero, suc, Bool, true, false, ◌&&◌, String, Option, none, some, List, [], ◌∷◌, Result, ok, err,
  is_empty,
}
use mcma_libraries.Mutex.{LockData, Store}
use Prim.Native.String.{◌++◌}

-- The item of a table as it may be found there. A text that is missing or empty, and a number that
-- is missing or zero, count as false.
pub record LockItem : Type 0 where
  pub mutex_holder : Option String
  pub version_id : Option String
  pub timestamp : Option ℕ

pub record TableDescription : Type 0 where
  pub table_name : String
  pub partition : String
  pub sort : Option String

abbrev pub Key : Type 0
Key = List (String × String)

-- `GetCommand` with `ConsistentRead`; `DeleteCommand` as it is, and with the condition that the
-- item has a given `versionId`; `PutCommand` with the condition that no item has the key.
pub record Client (S : Type 0) : Type 0 where
  pub get_item : Key → S → Result (Option LockItem) × S
  pub delete_item : Key → S → Result (Unit {0}) × S
  pub delete_item_if : Key → String → S → Result (Unit {0}) × S
  pub put_item_if_absent : Key → LockItem → S → Result (Unit {0}) × S

unfoldable pub generate_table_key : TableDescription → String → Key
generate_table_key table mutex_name = elim table.sort [
  | some sort ↦ (table.partition, "Mutex") ∷ (sort, mutex_name) ∷ []
  | none ↦ (table.partition, "Mutex-" ++ mutex_name) ∷ []
]

abbrev given : Option String → Option String
given none = none
given (some s) = elim (is_empty s) [ true ↦ none | false ↦ some s ]

abbrev given_number : Option ℕ → Option ℕ
given_number none = none
given_number (some zero) = none
given_number (some (suc n)) = some (suc n)

-- The lock record of an item with all its fields; `none` for an item that is not compatible.
abbrev complete : Option String → Option String → Option ℕ → Option LockData
complete (some holder) (some version) (some t) =
    some (record { mutex_holder = holder; timestamp = t; version_id = version })
complete _ _ _ = none

unfoldable pub lock_data_of : LockItem → Option LockData
lock_data_of item =
    complete (given item.mutex_holder) (given item.version_id) (given_number item.timestamp)

abbrev pub item_of : LockData → LockItem
item_of d = record {
  mutex_holder = some d.mutex_holder;
  version_id = some d.version_id;
  timestamp = some d.timestamp;
}

abbrev nothing_left : Result (Unit {0}) → Result (Option LockData)
nothing_left (ok _) = ok none
nothing_left (err e) = err e

-- `others` is what other clients do to the table between the GetCommand and the DeleteCommand of one
-- `getLockData`, which are two calls of the service.
module _ {S : Type 0} (client : Client S) (others : S → S) (table : TableDescription)
    (mutex_name : String) where
  -- What `getLockData` returns for an item; it deletes an item that is not compatible.
  check_item : Option LockData → S → Result (Option LockData) × S
  check_item (some d) s = (ok (some d), s)
  check_item none s =
      let (answer, s') = client.delete_item (generate_table_key table mutex_name) (others s) in
      (nothing_left answer, s')

  read_item : Result (Option LockItem) → S → Result (Option LockData) × S
  read_item (err e) s = (err e, s)
  read_item (ok none) s = (ok none, s)
  read_item (ok (some item)) s = check_item (lock_data_of item) s

  unfoldable pub get_lock_data : S → Result (Option LockData) × S
  unfolding check_item read_item
  get_lock_data s =
      let (answer, s') = client.get_item (generate_table_key table mutex_name) s in
      read_item answer s'

  pub put_lock_data : LockData → S → Result (Unit {0}) × S
  put_lock_data d s = client.put_item_if_absent (generate_table_key table mutex_name) (item_of d) s

  pub delete_lock_data : String → S → Result (Unit {0}) × S
  delete_lock_data version_id s =
      client.delete_item_if (generate_table_key table mutex_name) version_id s

  abbrev pub dynamo_db_store : Store S
  dynamo_db_store = record {
    put_lock_data = put_lock_data;
    get_lock_data = get_lock_data;
    delete_lock_data = delete_lock_data;
  }
