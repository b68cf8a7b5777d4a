-- ===== src/CosmosDb/Table/Map.antt =====
-- A table of Cosmos DB is a map from identifiers to documents.
use mcma_libraries.Prelude.{
  ◌≡◌, ◌≢◌, ◌⊎◌, refl, sym, ap, ◌∙◌, Option, none, some, ◌∷◌, Result, ok, err, Action, inl, inr,
}
use mcma_libraries.Documents.{Fields, DateTexts, serialize, deserialize}
use mcma_libraries.Documents.RoundTrip.{DateLaws, HasStorable, deserialize-serialize}
use mcma_libraries.Documents.Ids.{Codes, slash}
use mcma_libraries.Documents.Map.{IsMap}
use mcma_libraries.CosmosDb.Keys.{
  parse_partition_key_and_guid, parse_partition_key_and_guid-IsInjective,
}
use mcma_libraries.CosmosDb.Retry.Bounds.{with_retry-promised}
use mcma_libraries.CosmosDb.Table.{
  ItemKey, Container, CosmosDbTable, async, awaited, retried, read_back, got, get, stored, put,
  delete,
}

-- What Cosmos DB documents of its calls, where `held` is the resource of the item under a key. Any
-- call may throw, as it does where there are too many requests, and is then carried out or not. An
-- upsert stores the resource as JSON, with texts for dates, and answers what it has stored.
pub record ContainerLaws {N T S : Type 0} (container : Container N T S) (dates : DateTexts T)
    (IsCommon : T → Type 0) (held : S → ItemKey → Option (Fields N T)) : Type 0 where
  pub read_answer :
      (key : ItemKey) (s : S) (found : Option (Fields N T))
      → (container.read key s).0 ≡ ok found
      → found ≡ held s key
  pub read_keeps :
      (key other : ItemKey) (s : S) → held (container.read key s).1 other ≡ held s other
  pub upsert_answer :
      (key : ItemKey) (d answered : Fields N T) (s : S)
      → HasStorable IsCommon d
      → (container.upsert key d s).0 ≡ ok answered
      → (answered ≡ serialize dates d)
        × (held (container.upsert key d s).1 key ≡ some (serialize dates d))
  pub upsert_effect :
      (key : ItemKey) (d : Fields N T) (s : S)
      → HasStorable IsCommon d
      → (held (container.upsert key d s).1 key ≡ held s key)
        ⊎ (held (container.upsert key d s).1 key ≡ some (serialize dates d))
  pub upsert_keeps :
      (key other : ItemKey) (d : Fields N T) (s : S)
      → other ≢ key
      → held (container.upsert key d s).1 other ≡ held s other
  pub delete_answer :
      (key : ItemKey) (s : S) (x : Unit {0})
      → (container.delete key s).0 ≡ ok x
      → held (container.delete key s).1 key ≡ none
  pub delete_effect :
      (key : ItemKey) (s : S)
      → (held (container.delete key s).1 key ≡ held s key)
        ⊎ (held (container.delete key s).1 key ≡ none)
  pub delete_keeps :
      (key other : ItemKey) (s : S)
      → other ≢ key
      → held (container.delete key s).1 other ≡ held s other

-- The document that the table holds under an identifier.
abbrev pub document :
    {N T S : Type 0}
    → CosmosDbTable N T S
    → (S → ItemKey → Option (Fields N T))
    → S
    → Codes
    → Option (Fields N T)
document table held s id = read_back table (held s (parse_partition_key_and_guid id))

-- An async function is called once, whatever comes of it: what it throws settles its promise.
retried-once :
    {N T S A : Type 0} (table : CosmosDbTable N T S) (f : Action S A) (s : S)
    → retried table f s ≡ f s
unfolding retried awaited
retried-once table f s =
    ap awaited (with_retry-promised table.sleep table.retry (async f) (f s).0 s (f s).1 refl)

key_apart :
    (id other : Codes)
    → ◌≢◌ {A = Codes} (slash ∷ other) (slash ∷ id)
    → parse_partition_key_and_guid (slash ∷ other) ≢ parse_partition_key_and_guid (slash ∷ id)
key_apart id other apart e = apart (parse_partition_key_and_guid-IsInjective other id e)

module _ {N T S : Type 0} (table : CosmosDbTable N T S) {held : S → ItemKey → Option (Fields N T)}
    {IsCommon : T → Type 0} (laws : ContainerLaws table.container table.dates IsCommon held)
    (dates : DateLaws table.dates IsCommon) where
  abbrev document_at : S → Codes → Option (Fields N T)
  document_at = document table held

  get-got :
      (id : Codes) (s : S)
      → get table id s ≡ got table (table.container.read (parse_partition_key_and_guid id) s)
  unfolding get
  get-got id s =
      retried-once table (λ t. got table (table.container.read (parse_partition_key_and_guid id) t))
        s

  put-stored :
      (id : Codes) (d : Fields N T) (s : S)
      → put table id d s
        ≡ stored table (table.container.upsert (parse_partition_key_and_guid id) d s)
  unfolding put
  put-stored id d s =
      retried-once table
        (λ t. stored table (table.container.upsert (parse_partition_key_and_guid id) d t)) s

  delete-once :
      (id : Codes) (s : S)
      → delete table id s ≡ table.container.delete (parse_partition_key_and_guid id) s
  unfolding delete
  delete-once id s = retried-once table (table.container.delete (parse_partition_key_and_guid id)) s

  got-ok :
      (out : Result (Option (Fields N T)) × S) (found : Option (Fields N T))
      → (got table out).0 ≡ ok found
      → (item : Option (Fields N T)) × (out.0 ≡ ok item) × (read_back table item ≡ found)
  unfolding got
  got-ok (err e, s) found h = cc
  got-ok (ok item, s) found h = (item, refl, cc)

  got-state : (out : Result (Option (Fields N T)) × S) → (got table out).1 ≡ out.1
  unfolding got
  got-state (err e, s) = refl
  got-state (ok item, s) = refl

  stored-ok :
      (out : Result (Fields N T) × S) (answered : Fields N T)
      → (stored table out).0 ≡ ok answered
      → (item : Fields N T) × (out.0 ≡ ok item) × (deserialize table.dates item ≡ answered)
  unfolding stored
  stored-ok (err e, s) answered h = cc
  stored-ok (ok item, s) answered h = (item, refl, cc)

  stored-state : (out : Result (Fields N T) × S) → (stored table out).1 ≡ out.1
  unfolding stored
  stored-state (err e, s) = refl
  stored-state (ok item, s) = refl

  -- What is held after each call is what the container has after its call.
  document-get :
      (id other : Codes) (s : S) → document_at (get table id s).1 other ≡ document_at s other
  document-get id other s =
      ap (λ out. document_at out.1 other) (get-got id s)
      ∙ ap (λ t. document_at t other) (got-state _)
      ∙ ap (read_back table)
          (laws.read_keeps (parse_partition_key_and_guid id) (parse_partition_key_and_guid other) s)

  document-put :
      (id other : Codes) (d : Fields N T) (s : S)
      → document_at (put table id d s).1 other
        ≡ document_at (table.container.upsert (parse_partition_key_and_guid id) d s).1 other
  document-put id other d s =
      ap (λ out. document_at out.1 other) (put-stored id d s)
      ∙ ap (λ t. document_at t other) (stored-state _)

  document-delete :
      (id other : Codes) (s : S)
      → document_at (delete table id s).1 other
        ≡ document_at (table.container.delete (parse_partition_key_and_guid id) s).1 other
  document-delete id other s = ap (λ out. document_at out.1 other) (delete-once id s)

  get-answer :
      (id : Codes) (s : S) (found : Option (Fields N T))
      → (get table id s).0 ≡ ok found
      → found ≡ document_at s id
  get-answer id s found h =
      let (item, answered, same) = got-ok _ found (sym (ap (λ out. out.0) (get-got id s)) ∙ h) in
      sym same
      ∙ ap (read_back table) (laws.read_answer (parse_partition_key_and_guid id) s item answered)

  -- The document of a resource that an upsert has stored.
  back :
      (d : Fields N T)
      → HasStorable IsCommon d
      → read_back table (some (serialize table.dates d)) ≡ some d
  back d good = ap some (deserialize-serialize dates d good).0

  put-answer :
      (id : Codes) (d answered : Fields N T) (s : S)
      → HasStorable IsCommon d
      → (put table id d s).0 ≡ ok answered
      → (answered ≡ d) × (document_at (put table id d s).1 id ≡ some d)
  put-answer id d answered s good h =
      let (item, upserted, same) =
        stored-ok _ answered (sym (ap (λ out. out.0) (put-stored id d s)) ∙ h) in
      let (serialized, there) =
        laws.upsert_answer (parse_partition_key_and_guid id) d item s good upserted in
      (
        sym same ∙ ap (deserialize table.dates) serialized ∙ (deserialize-serialize dates d good).0,
        document-put id id d s ∙ ap (read_back table) there ∙ back d good,
      )

  put-effect :
      (id : Codes) (d : Fields N T) (s : S)
      → HasStorable IsCommon d
      → (document_at (put table id d s).1 id ≡ document_at s id)
        ⊎ (document_at (put table id d s).1 id ≡ some d)
  put-effect id d s good = elim (laws.upsert_effect (parse_partition_key_and_guid id) d s good) [
    | inl same ↦ inl (document-put id id d s ∙ ap (read_back table) same)
    | inr there ↦ inr (document-put id id d s ∙ ap (read_back table) there ∙ back d good)
  ]

  delete-effect :
      (id : Codes) (s : S)
      → (document_at (delete table id s).1 id ≡ document_at s id)
        ⊎ (document_at (delete table id s).1 id ≡ none)
  delete-effect id s = elim (laws.delete_effect (parse_partition_key_and_guid id) s) [
    | inl same ↦ inl (document-delete id id s ∙ ap (read_back table) same)
    | inr gone ↦ inr (document-delete id id s ∙ ap (read_back table) gone)
  ]

  -- Over a container that does what Cosmos DB documents of its calls, any of which may throw, get, put
  -- and delete make of the table a map, for storable documents and identifiers that begin with a
  -- slash, as those of DynamoDB do: what does not throw has its effect, and what throws has left the
  -- document as it was or has had its effect.
  pub cosmos_db_table-IsMap :
      IsMap (HasStorable IsCommon) (document table held) (get table) (put table) (delete table)
  cosmos_db_table-IsMap = record {
    read_answer = get-answer;
    read_keeps = document-get;
    write_answer = put-answer;
    write_effect = put-effect;
    write_keeps = λ id other d s apart good.
        document-put (slash ∷ id) (slash ∷ other) d s
        ∙ ap (read_back table) (
            laws.upsert_keeps (parse_partition_key_and_guid (slash ∷ id))
              (parse_partition_key_and_guid (slash ∷ other)) d s (key_apart id other apart));
    remove_answer = λ id s x h.
        document-delete id id s
        ∙ ap (read_back table) (
            laws.delete_answer (parse_partition_key_and_guid id) s x
              (sym (ap (λ out. out.0) (delete-once id s)) ∙ h));
    remove_effect = delete-effect;
    remove_keeps = λ id other s apart.
        document-delete (slash ∷ id) (slash ∷ other) s
        ∙ ap (read_back table) (
            laws.delete_keeps (parse_partition_key_and_guid (slash ∷ id))
              (parse_partition_key_and_guid (slash ∷ other)) s (key_apart id other apart));
  }
