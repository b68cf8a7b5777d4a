-- ===== src/CosmosDb/Table.antt =====
-- azure/cosmos-db/lib/cosmos-db-table.ts: the operations of a table. The container of the SDK is a
-- parameter. Each operation is an async function that `withRetry` is given, so what it throws settles
-- its promise. Identifiers are lists of codes. `createMutex` calls a constructor and is left out.
pub mod Map
use mcma_libraries.Prelude.{
  ℕ, Bool, true, false, String, Option, none, some, List, [], ◌∷◌, Result, ok, err, find_key,
  Action, map,
}
use Prim.Native.String.{◌++◌}
use mcma_libraries.Queries.{Query, CustomQuery, QueryResults}
use mcma_libraries.Documents.{Value, text, Fields, DateTexts, deserialize}
use mcma_libraries.Documents.Ids.{Codes}
use mcma_libraries.CosmosDb.Keys.{parse_partition_key_and_guid}
use mcma_libraries.CosmosDb.Query.{SqlQuerySpec, build_query_definition}
use mcma_libraries.CosmosDb.Retry.{Retry, Called, thrown, promised, Failure, with_retry}

-- The partition key and the identifier of an item.
abbrev pub ItemKey : Type 0
ItemKey = Option Codes × Codes

pub record Feed (N T : Type 0) : Type 0 where
  pub resources : List (Fields N T)
  pub continuation_token : Option String

-- The calls of a container. A read gives the resource of an item, and none for the status 404; an
-- upsert gives that of the item it has stored.
pub record Container (N T S : Type 0) : Type 0 where
  pub read : ItemKey → S → Result (Option (Fields N T)) × S
  pub upsert : ItemKey → Fields N T → S → Result (Fields N T) × S
  pub delete : ItemKey → S → Result (Unit {0}) × S
  pub fetch_all : SqlQuerySpec (Value N T) → Option String → Option ℕ → S → Result (Feed N T) × S

-- The paths of the partition key of a container, with the first one without its first character.
abbrev pub without_first : String → String
without_first String.[] = ""
without_first (String.◌∷◌ c s) = s

unfoldable pub partition_key_name : String → List String → Result String
partition_key_name container_id [] = err "Cannot read properties of undefined (reading 'substring')"
partition_key_name container_id (path ∷ []) = ok (without_first path)
partition_key_name container_id (path ∷ other ∷ paths) = err (
    "Container " ++ container_id
    ++ " defines a partition key with multiple paths. MCMA only supports partition keys with a single path.")

module _ {A S : Type 0} where
  -- A call of an async function gives a promise, whatever it does.
  abbrev pub async : Action S A → S → Called A × S
  async f s = let (r, s') = f s in (promised r, s')

  -- `await`
  unfoldable pub awaited : Called A × S → Result A × S
  awaited (promised r, s) = (r, s)
  awaited (thrown failure, s) = (err failure.message, s)

-- What a table is made with.
pub record CosmosDbTable (N T S : Type 0) : Type 0 where
  pub container : Container N T S
  pub partition_key_name : String
  pub retry : Retry
  pub sleep : Bool → ℕ → S → S
  pub dates : DateTexts T
  pub digits : ℕ → String

module _ {N T S : Type 0} (table : CosmosDbTable N T S) where
  -- `this.withRetry(async () => ...)`
  unfoldable pub retried : {A : Type 0} → Action S A → Action S A
  retried f s = awaited (with_retry table.sleep table.retry (async f) s)

  abbrev pub read_back : Option (Fields N T) → Option (Fields N T)
  read_back none = none
  read_back (some resource) = some (deserialize table.dates resource)

  got : Result (Option (Fields N T)) × S → Result (Option (Fields N T)) × S
  got (err message, s) = (err message, s)
  got (ok found, s) = (ok (read_back found), s)

  unfoldable pub get : Codes → Action S (Option (Fields N T))
  unfolding got
  get id = retried (λ s. got (table.container.read (parse_partition_key_and_guid id) s))

  stored : Result (Fields N T) × S → Result (Fields N T) × S
  stored (err message, s) = (err message, s)
  stored (ok resource, s) = (ok (deserialize table.dates resource), s)

  unfoldable pub put : Codes → Fields N T → Action S (Fields N T)
  unfolding stored
  put id resource =
      retried (λ s. stored (table.container.upsert (parse_partition_key_and_guid id) resource s))

  unfoldable pub delete : Codes → Action S (Unit {0})
  delete id = retried (table.container.delete (parse_partition_key_and_guid id))

  fed : Result (Feed N T) × S → Result (QueryResults (Fields N T)) × S
  fed (err message, s) = (err message, s)
  fed (ok feed, s) = (
    ok (record {
      results = map (deserialize table.dates) feed.resources;
      next_page_start_token = feed.continuation_token;
    }),
    s,
  )

  unfoldable pub query : Query (Value N T) → Action S (QueryResults (Fields N T))
  unfolding fed
  query q = retried (λ s. fed (
      table.container.fetch_all
        (build_query_definition table.digits text q table.partition_key_name) q.page_start_token
        q.page_size s))

  custom :
      {P : Type 0}
      → CustomQuery P
      → Option (CustomQuery P → SqlQuerySpec (Value N T))
      → Action S (QueryResults (Fields N T))
  custom q none s = (err ("Custom query with name '" ++ q.name ++ "' has not been configured."), s)
  custom q (some f) s = fed (table.container.fetch_all (f q) q.page_start_token none s)

  unfoldable pub custom_query :
      {P : Type 0}
      → List (String × (CustomQuery P → SqlQuerySpec (Value N T)))
      → CustomQuery P
      → Action S (QueryResults (Fields N T))
  unfolding custom fed
  custom_query registry q = retried (custom q (find_key q.name registry))
