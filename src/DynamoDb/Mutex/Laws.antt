-- ===== src/DynamoDb/Mutex/Laws.antt =====
-- The methods of `DynamoDbMutex` meet what the mutex needs of its table.
use mcma_libraries.Prelude.{
  ◌≡◌, refl, sym, ◌∙◌, ap, ◌⊎◌, inl, inr, String, Option, none, some, Result, ok, err, arith,
  Option-cases,
}
use mcma_libraries.Mutex.{LockData}
use mcma_libraries.Mutex.Invariant.{Laws}
use mcma_libraries.DynamoDb.Mutex.{
  LockItem, TableDescription, Key, Client, generate_table_key, lock_data_of, item_of, check_item,
  read_item, get_lock_data, put_lock_data, delete_lock_data, dynamo_db_store,
}

-- What DynamoDB documents of the commands, for the item `stored` under one key. A command that
-- answers with an error may have been carried out.
pub record ClientLaws {S : Type 0} (client : Client S) (key : Key) (stored : S → Option LockItem)
    : Type 0 where
  pub get_effect : (s : S) → stored (client.get_item key s).1 ≡ stored s
  pub get_answer :
      (s : S) (found : Option LockItem) → (client.get_item key s).0 ≡ ok found → found ≡ stored s
  pub delete_effect :
      (s : S)
      → (stored (client.delete_item key s).1 ≡ stored s)
        ⊎ (stored (client.delete_item key s).1 ≡ none)
  pub delete_if_effect :
      (v : String) (s : S)
      → (stored (client.delete_item_if key v s).1 ≡ stored s)
        ⊎ ((stored (client.delete_item_if key v s).1 ≡ none)
            × ((item : LockItem) × (stored s ≡ some item) × (item.version_id ≡ some v)))
  pub put_effect :
      (item : LockItem) (s : S)
      → (stored (client.put_item_if_absent key item s).1 ≡ stored s)
        ⊎ ((stored s ≡ none) × (stored (client.put_item_if_absent key item s).1 ≡ some item))

-- The lock record in the table, if there is a compatible one.
unfoldable pub view : Option LockItem → Option LockData
view none = none
view (some item) = lock_data_of item

-- An item either has the lock record that its fields give, or none.
lock_data_of-item_of :
    (d : LockData) → (lock_data_of (item_of d) ≡ none) ⊎ (lock_data_of (item_of d) ≡ some d)
unfolding lock_data_of
lock_data_of-item_of d = ground arith

lock_data_of-version_id :
    (item : LockItem) (d : LockData)
    → lock_data_of item ≡ some d
    → item.version_id ≡ some d.version_id
unfolding lock_data_of
lock_data_of-version_id item d e = ground arith

lock_data_of-version :
    (item : LockItem) (v : String)
    → item.version_id ≡ some v
    → (lock_data_of item ≡ none)
      ⊎ ((d : LockData) × (lock_data_of item ≡ some d) × (d.version_id ≡ v))
lock_data_of-version item v e = elim (Option-cases (lock_data_of item)) [
  | inl nothing ↦ inl nothing
  | inr (d, e') ↦ inr (d, e', cc (lock_data_of-version_id item d e'))
]

-- No other client changes the item between the two commands of one `getLockData`.
abbrev pub IsQuiet : {S : Type 0} → (S → S) → (S → Option LockItem) → Type 0
IsQuiet {S} others stored = (s : S) → stored (others s) ≡ stored s

module _ {S : Type 0} {client : Client S} {stored : S → Option LockItem} {others : S → S}
    (table : TableDescription) (mutex_name : String)
    (laws : ClientLaws client (generate_table_key table mutex_name) stored)
    (quiet : IsQuiet others stored) where
  abbrev lock_data : S → Option LockData
  lock_data s = view (stored s)

  check_item-view :
      (item : LockItem) (s : S)
      → stored s ≡ some item
      → lock_data (check_item client others table mutex_name (lock_data_of item) s).1 ≡ lock_data s
  unfolding check_item view
  check_item-view item s e = elim (Option-cases (lock_data_of item)) [
    | inr (d, e') ↦ rw (e', check_item)
    | inl nothing ↦ elim (laws.delete_effect (others s)) [
      | inl same ↦ rw (nothing, check_item) (ap view (same ∙ quiet s))
      | inr gone ↦ rw (nothing, check_item) (ap view gone ∙ sym (ap view e ∙ nothing))
    ]
  ]

  check_item-answer :
      (d : Option LockData) (s : S) (found : Option LockData)
      → (check_item client others table mutex_name d s).0 ≡ ok found
      → found ≡ d
  unfolding check_item
  check_item-answer (some d) s found e = cc
  check_item-answer none s found e = ground arith

  read_item-view :
      (answer : Result (Option LockItem)) (s : S)
      → ((found : Option LockItem) → answer ≡ ok found → found ≡ stored s)
      → lock_data (read_item client others table mutex_name answer s).1 ≡ lock_data s
  unfolding read_item
  read_item-view (err e) s read = refl
  read_item-view (ok none) s read = refl
  read_item-view (ok (some item)) s read = check_item-view item s (sym (read (some item) refl))

  read_item-answer :
      (answer : Result (Option LockItem)) (s : S) (found : Option LockData)
      → ((found : Option LockItem) → answer ≡ ok found → found ≡ stored s)
      → (read_item client others table mutex_name answer s).0 ≡ ok found
      → found ≡ lock_data s
  unfolding read_item view
  read_item-answer (err x) s found read e = cc
  read_item-answer (ok none) s found read e =
      let empty : none ≡ found = cc in sym empty ∙ ap view (read none refl)
  read_item-answer (ok (some item)) s found read e =
      check_item-answer (lock_data_of item) s found e ∙ ap view (read (some item) refl)

  answer_after :
      (s : S) (found : Option LockItem)
      → (client.get_item (generate_table_key table mutex_name) s).0 ≡ ok found
      → found ≡ stored (client.get_item (generate_table_key table mutex_name) s).1
  answer_after s found e = laws.get_answer s found e ∙ sym (laws.get_effect s)

  get-lock_data :
      (s : S) → lock_data (get_lock_data client others table mutex_name s).1 ≡ lock_data s
  unfolding get_lock_data
  get-lock_data s =
      let (answer, s') = client.get_item (generate_table_key table mutex_name) s in
      read_item-view answer s' (answer_after s) ∙ ap view (laws.get_effect s)

  get-answer :
      (s : S) (found : Option LockData)
      → (get_lock_data client others table mutex_name s).0 ≡ ok found
      → found ≡ lock_data s
  unfolding get_lock_data
  get-answer s found e =
      let (answer, s') = client.get_item (generate_table_key table mutex_name) s in
      read_item-answer answer s' found (answer_after s) e ∙ ap view (laws.get_effect s)

  put-lock_data :
      (d : LockData) (s : S)
      → (lock_data (put_lock_data client others table mutex_name d s).1 ≡ lock_data s)
        ⊎ ((lock_data s ≡ none)
            × (lock_data (put_lock_data client others table mutex_name d s).1 ≡ some d))
  unfolding put_lock_data view
  put-lock_data d s = elim (laws.put_effect (item_of d) s) [
    | inl same ↦ inl (ap view same)
    | inr (empty, new) ↦ elim (lock_data_of-item_of d) [
      | inl nothing ↦ inl (ap view new ∙ nothing ∙ sym (ap view empty))
      | inr there ↦ inr (ap view empty, ap view new ∙ there)
    ]
  ]

  delete-lock_data :
      (v : String) (s : S)
      → (lock_data (delete_lock_data client others table mutex_name v s).1 ≡ lock_data s)
        ⊎ ((lock_data (delete_lock_data client others table mutex_name v s).1 ≡ none)
            × ((d : LockData) × (lock_data s ≡ some d) × (d.version_id ≡ v)))
  unfolding delete_lock_data view
  delete-lock_data v s = elim (laws.delete_if_effect v s) [
    | inl same ↦ inl (ap view same)
    | inr (gone, (item, there, versioned)) ↦ elim (lock_data_of-version item v versioned) [
      | inl nothing ↦ inl (ap view gone ∙ sym (ap view there ∙ nothing))
      | inr (d, e, same) ↦ inr (ap view gone, (d, ap view there ∙ e, same))
    ]
  ]

-- If the document client does what DynamoDB documents of the commands, and no other client changes
-- the item between the GetCommand and the DeleteCommand of one `getLockData`, then the three methods
-- of `DynamoDbMutex` do to the compatible lock record of the table what the mutex needs: a put has no
-- effect on a record that is there, a get reads the record, and a removal by version identifier
-- takes away only a record with that identifier, also where the call ends in an error.
pub dynamo_db_store-Laws :
    {S : Type 0} {client : Client S} {stored : S → Option LockItem} {others : S → S}
    (table : TableDescription) (mutex_name : String)
    → ClientLaws client (generate_table_key table mutex_name) stored
    → IsQuiet others stored
    → Laws (dynamo_db_store client others table mutex_name) (λ s. view (stored s))
dynamo_db_store-Laws table mutex_name laws quiet = record {
  put_effect = put-lock_data table mutex_name laws quiet;
  get_effect = get-lock_data table mutex_name laws quiet;
  get_answer = get-answer table mutex_name laws quiet;
  delete_effect = delete-lock_data table mutex_name laws quiet;
}
