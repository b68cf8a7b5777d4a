-- ===== src/DynamoDb/Table/Map.antt =====
-- A table is a map from identifiers to documents.
use mcma_libraries.Prelude.{
  ◌≡◌, ◌≢◌, ◌⊎◌, refl, sym, ap, ◌∙◌, true, String, Option, none, some, ◌∷◌, Result, ok, err, inl,
  inr,
}
use mcma_libraries.Documents.{Fields, deserialize}
use mcma_libraries.Documents.RoundTrip.{DateLaws, HasPlain, HasStorable, deserialize-serialize}
use mcma_libraries.Documents.Map.{IsMap}
use mcma_libraries.Documents.Ids.{Codes, slash}
use mcma_libraries.DynamoDb.Keys.{parse_partition_and_sort_keys-IsInjective}
use mcma_libraries.DynamoDb.Client.{
  TableDescription, TableKey, Item, DynamoDbTableOptions, DocClient, Texts,
}
use mcma_libraries.DynamoDb.Table.{
  table_key, resource_of, got, get, item_of, put_result, put, delete_result, delete,
}

-- `stored` is what the table has under a key after a put of `item`, with the resource of `item`.
abbrev pub IsStored : {N T : Type 0} → Item N T → Option (Item N T) → Type 0
IsStored {N} {T} item stored =
    (found : Item N T) × (stored ≡ some found) × (found.resource ≡ item.resource)

-- What DynamoDB documents of the commands, where `stored` is what the table has under a key. Any
-- command may throw, and is then carried out or not. A consistent read gives what is there, and of a
-- plain resource nothing is lost.
pub record ClientLaws {N T S : Type 0} (client : DocClient N T S) (table_name : String)
    (stored : S → TableKey → Option (Item N T)) : Type 0 where
  pub get_answer :
      (key : TableKey) (s : S) (found : Option (Item N T))
      → (client.get_item table_name key (some true) s).0 ≡ ok found
      → found ≡ stored s key
  pub get_keeps :
      (key other : TableKey) (s : S)
      → stored (client.get_item table_name key (some true) s).1 other ≡ stored s other
  pub put_answer :
      (item : Item N T) (s : S) (x : Unit {0})
      → HasPlain item.resource
      → (client.put_item table_name item s).0 ≡ ok x
      → IsStored item (stored (client.put_item table_name item s).1 item.keys)
  pub put_effect :
      (item : Item N T) (s : S)
      → HasPlain item.resource
      → (stored (client.put_item table_name item s).1 item.keys ≡ stored s item.keys)
        ⊎ IsStored item (stored (client.put_item table_name item s).1 item.keys)
  pub put_keeps :
      (item : Item N T) (other : TableKey) (s : S)
      → other ≢ item.keys
      → stored (client.put_item table_name item s).1 other ≡ stored s other
  pub delete_answer :
      (key : TableKey) (s : S) (x : Unit {0})
      → (client.delete_item table_name key s).0 ≡ ok x
      → stored (client.delete_item table_name key s).1 key ≡ none
  pub delete_effect :
      (key : TableKey) (s : S)
      → (stored (client.delete_item table_name key s).1 key ≡ stored s key)
        ⊎ (stored (client.delete_item table_name key s).1 key ≡ none)
  pub delete_keeps :
      (key other : TableKey) (s : S)
      → other ≢ key
      → stored (client.delete_item table_name key s).1 other ≡ stored s other

table_key-IsInjective :
    (table : TableDescription) (s t : Codes)
    → table_key table (slash ∷ s) ≡ table_key table (slash ∷ t)
    → ◌≡◌ {A = Codes} (slash ∷ s) (slash ∷ t)
unfolding table_key
table_key-IsInjective table s t e = parse_partition_and_sort_keys-IsInjective s t (cc)

-- The document that the table holds under an identifier.
module _ {N T S : Type 0} (texts : Texts N T) (client : DocClient N T S) (table : TableDescription)
    (options : DynamoDbTableOptions N T) (stored : S → TableKey → Option (Item N T)) where
  abbrev pub document : S → Codes → Option (Fields N T)
  document s id = resource_of texts client table options (stored s (table_key table id))

module _ {N T S : Type 0} (texts : Texts N T) {client : DocClient N T S} (table : TableDescription)
    (options : DynamoDbTableOptions N T) {stored : S → TableKey → Option (Item N T)}
    {IsCommon : T → Type 0} (laws : ClientLaws client table.table_name stored)
    (dates : DateLaws texts.dates IsCommon) (consistent : options.consistent_get ≡ some true) where
  abbrev held : S → Codes → Option (Fields N T)
  held = document texts client table options stored

  get-got :
      (id : Codes) (s : S)
      → get texts client table options id s
        ≡ got texts client table options
            (client.get_item table.table_name (table_key table id) (some true) s)
  unfolding get
  get-got id s = rw consistent refl

  got-ok :
      (out : Result (Option (Item N T)) × S) (found : Option (Fields N T))
      → (got texts client table options out).0 ≡ ok found
      → (item : Option (Item N T)) × (out.0 ≡ ok item)
        × (resource_of texts client table options item ≡ found)
  unfolding got
  got-ok (err e, s) found h = cc
  got-ok (ok item, s) found h = (item, refl, cc)

  got-state :
      (out : Result (Option (Item N T)) × S) → (got texts client table options out).1 ≡ out.1
  unfolding got
  got-state (err e, s) = refl
  got-state (ok item, s) = refl

  put_result-ok :
      (d answered : Fields N T) (out : Result (Unit {0}) × S)
      → (put_result texts client table options d out).0 ≡ ok answered
      → (x : Unit {0}) × (out.0 ≡ ok x) × (answered ≡ d)
  unfolding put_result
  put_result-ok d answered (err e, s) h = cc
  put_result-ok d answered (ok x, s) h = (x, refl, cc)

  put_result-state :
      (d : Fields N T) (out : Result (Unit {0}) × S)
      → (put_result texts client table options d out).1 ≡ out.1
  unfolding put_result
  put_result-state d (err e, s) = refl
  put_result-state d (ok x, s) = refl

  delete_result-ok :
      (x : Unit {0}) (out : Result (Unit {0}) × S)
      → (delete_result texts client table options out).0 ≡ ok x
      → (y : Unit {0}) × (out.0 ≡ ok y)
  unfolding delete_result
  delete_result-ok x (err e, s) h = cc
  delete_result-ok x (ok y, s) h = (y, refl)

  delete_result-state :
      (out : Result (Unit {0}) × S) → (delete_result texts client table options out).1 ≡ out.1
  unfolding delete_result
  delete_result-state (err e, s) = refl
  delete_result-state (ok x, s) = refl

  -- What is held after each call is what the table of the client has after its command.
  held-get :
      (id other : Codes) (s : S) → held (get texts client table options id s).1 other ≡ held s other
  held-get id other s =
      ap (λ out. held out.1 other) (get-got id s)
      ∙ ap (λ t. held t other) (got-state _)
      ∙ ap (resource_of texts client table options)
          (laws.get_keeps (table_key table id) (table_key table other) s)

  held-put :
      (id other : Codes) (d : Fields N T) (s : S)
      → held (put texts client table options id d s).1 other
        ≡ held
            (client.put_item table.table_name (item_of texts client table options id d) s).1
            other
  unfolding put
  held-put id other d s = ap (λ t. held t other) (put_result-state d _)

  held-delete :
      (id other : Codes) (s : S)
      → held (delete texts client table options id s).1 other
        ≡ held (client.delete_item table.table_name (table_key table id) s).1 other
  unfolding delete
  held-delete id other s = ap (λ t. held t other) (delete_result-state _)

  get-answer :
      (id : Codes) (s : S) (found : Option (Fields N T))
      → (get texts client table options id s).0 ≡ ok found
      → found ≡ held s id
  get-answer id s found h =
      let (item, answered, same) = got-ok _ found (sym (ap (λ out. out.0) (get-got id s)) ∙ h) in
      sym same
      ∙ ap (resource_of texts client table options)
          (laws.get_answer (table_key table id) s item answered)

  -- The document of an item that a put has stored.
  stored-document :
      (id : Codes) (d : Fields N T) (item : Option (Item N T))
      → HasStorable IsCommon d
      → IsStored (item_of texts client table options id d) item
      → resource_of texts client table options item ≡ some d
  unfolding item_of resource_of
  stored-document id d item good (found, there, same) =
      ap (resource_of texts client table options) there
      ∙ ap (λ r. some (deserialize texts.dates r)) same
      ∙ ap some (deserialize-serialize dates d good).0

  item_of-HasPlain :
      (id : Codes) (d : Fields N T)
      → HasStorable IsCommon d
      → HasPlain (item_of texts client table options id d).resource
  unfolding item_of
  item_of-HasPlain id d good = (deserialize-serialize dates d good).1

  item_of-keys :
      (id : Codes) (d : Fields N T)
      → (item_of texts client table options id d).keys ≡ table_key table id
  unfolding item_of
  item_of-keys id d = refl

  put-answer :
      (id : Codes) (d answered : Fields N T) (s : S)
      → HasStorable IsCommon d
      → (put texts client table options id d s).0 ≡ ok answered
      → (answered ≡ d) × (held (put texts client table options id d s).1 id ≡ some d)
  unfolding put item_of
  put-answer id d answered s good h =
      let (x, done, same) = put_result-ok d answered _ h in
      (
        same,
        held-put id id d s
            ∙ stored-document id d _ good (
                laws.put_answer (item_of texts client table options id d) s x
                  (item_of-HasPlain id d good) done),
      )

  put-effect :
      (id : Codes) (d : Fields N T) (s : S)
      → HasStorable IsCommon d
      → (held (put texts client table options id d s).1 id ≡ held s id)
        ⊎ (held (put texts client table options id d s).1 id ≡ some d)
  unfolding item_of
  put-effect id d s good =
      elim (laws.put_effect (item_of texts client table options id d) s
        (item_of-HasPlain id d good)) [
          | inl same ↦ inl (held-put id id d s ∙ ap (resource_of texts client table options) same)
          | inr there ↦ inr (held-put id id d s ∙ stored-document id d _ good there)
        ]

  put-keeps :
      (id other : Codes) (d : Fields N T) (s : S)
      → ◌≢◌ {A = Codes} (slash ∷ other) (slash ∷ id)
      → held (put texts client table options (slash ∷ id) d s).1 (slash ∷ other)
        ≡ held s (slash ∷ other)
  unfolding item_of
  put-keeps id other d s apart =
      held-put (slash ∷ id) (slash ∷ other) d s
      ∙ ap (resource_of texts client table options) (
          laws.put_keeps (item_of texts client table options (slash ∷ id) d)
            (table_key table (slash ∷ other)) s
            (λ e. apart (table_key-IsInjective table other id e)))

  delete-answer :
      (id : Codes) (s : S) (x : Unit {0})
      → (delete texts client table options id s).0 ≡ ok x
      → held (delete texts client table options id s).1 id ≡ none
  unfolding delete resource_of
  delete-answer id s x h =
      let (y, done) = delete_result-ok x _ h in
      held-delete id id s
      ∙ ap (resource_of texts client table options)
          (laws.delete_answer (table_key table id) s y done)

  delete-effect :
      (id : Codes) (s : S)
      → (held (delete texts client table options id s).1 id ≡ held s id)
        ⊎ (held (delete texts client table options id s).1 id ≡ none)
  unfolding resource_of
  delete-effect id s = elim (laws.delete_effect (table_key table id) s) [
    | inl same ↦ inl (held-delete id id s ∙ ap (resource_of texts client table options) same)
    | inr gone ↦ inr (held-delete id id s ∙ ap (resource_of texts client table options) gone)
  ]

  delete-keeps :
      (id other : Codes) (s : S)
      → ◌≢◌ {A = Codes} (slash ∷ other) (slash ∷ id)
      → held (delete texts client table options (slash ∷ id) s).1 (slash ∷ other)
        ≡ held s (slash ∷ other)
  delete-keeps id other s apart =
      held-delete (slash ∷ id) (slash ∷ other) s
      ∙ ap (resource_of texts client table options) (
          laws.delete_keeps (table_key table (slash ∷ id)) (table_key table (slash ∷ other)) s
            (λ e. apart (table_key-IsInjective table other id e)))

  -- With consistent reads, over a client that does what DynamoDB documents of its commands, any of
  -- which may throw, get, put and delete make of the table a map: a get answers what is held, a put
  -- holds a storable document and answers it, a delete lets it go, or the call throws, and then a put
  -- or delete has had its effect or none; each leaves the documents under other identifiers alone,
  -- where identifiers begin with a slash.
  pub table-IsMap :
      IsMap
        (HasStorable IsCommon)
        (document texts client table options stored)
        (get texts client table options)
        (put texts client table options)
        (delete texts client table options)
  table-IsMap = record {
    read_answer = get-answer;
    read_keeps = held-get;
    write_answer = put-answer;
    write_effect = put-effect;
    write_keeps = λ id other d s apart good. put-keeps id other d s apart;
    remove_answer = delete-answer;
    remove_effect = delete-effect;
    remove_keeps = delete-keeps;
  }
