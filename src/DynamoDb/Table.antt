-- ===== src/DynamoDb/Table.antt =====
-- aws/dynamodb/lib/dynamo-db-table.ts: the operations of a table. The document client of the SDK is
-- a parameter, and so are JSON and base 64 for the keys of pages, which may throw, and the case of
-- letters. Identifiers are lists of codes. The names of mapped attributes are none of the others of
-- an item, and the resource that is put is an object. `createMutex` calls a constructor and is left
-- out.
pub mod Map
pub mod Pages
use mcma_libraries.Prelude.{
  Bool, true, false, String, Option, none, some, List, [], ◌∷◌, ◌++◌, Result, ok, err, ◌>>=◌, ◌==◌,
  is_empty, map, if◌then◌else◌, ℕ,
}
use Prim.Native.String.{◌++◌ as ◌<>◌}
use mcma_libraries.Queries.{
  FilterExpression, FilterList, criteria, group, nil, cons, Query, CustomQuery, QueryResults,
}
use mcma_libraries.Documents.{Value, text, Fields, DateTexts, serialize, deserialize}
use mcma_libraries.Documents.Ids.{Codes}
use mcma_libraries.DynamoDb.Client.{
  TableDescription, TableKey, Item, DynamoDbTableOptions, QueryInput, QueryOutput, DocClient, Texts,
}
use mcma_libraries.DynamoDb.Keys.{parse_partition_and_sort_keys}
use mcma_libraries.DynamoDb.Filter.{Attributes, build_filter_expression}

-- The name of a key; the language makes a text of undefined where there is none.
abbrev pub name_or_undefined : Option String → String
name_or_undefined none = "undefined"
name_or_undefined (some name) = name

unfoldable pub table_key : TableDescription → Codes → TableKey
table_key table id =
    let (partition_key, sort_key) = parse_partition_and_sort_keys id in
    (table.partition, partition_key) ∷ (name_or_undefined table.sort, sort_key) ∷ []

abbrev pub has_filter_criteria : {V : Type 0} → Option (FilterExpression V) → Bool
has_filter_criteria none = false
has_filter_criteria (some (criteria property operator v)) = true
has_filter_criteria (some (group operator nil)) = false
has_filter_criteria (some (group operator (cons e es))) = true

module _ {N T : Type 0} where
  abbrev mapped :
      Codes
      → Codes
      → Fields N T
      → List (String × (Codes → Codes → Fields N T → Value N T))
      → List (String × Value N T)
  mapped partition_key sort_key resource [] = []
  mapped partition_key sort_key resource ((name, f) ∷ mappings) =
      (name, f partition_key sort_key resource) ∷ mapped partition_key sort_key resource mappings

module _ {N T S : Type 0} (texts : Texts N T) (client : DocClient N T S) (table : TableDescription)
    (options : DynamoDbTableOptions N T) where
  unfoldable pub resource_of : Option (Item N T) → Option (Fields N T)
  resource_of none = none
  resource_of (some item) = some (deserialize texts.dates item.resource)

  got : Result (Option (Item N T)) × S → Result (Option (Fields N T)) × S
  got (err e, s) = (err e, s)
  got (ok found, s) = (ok (resource_of found), s)

  unfoldable pub get : Codes → S → Result (Option (Fields N T)) × S
  unfolding got
  get id s = got (client.get_item table.table_name (table_key table id) options.consistent_get s)

  unfoldable pub item_of : Codes → Fields N T → Item N T
  item_of id resource =
      let (partition_key, sort_key) = parse_partition_and_sort_keys id in
      record {
        keys = table_key table id;
        resource = serialize texts.dates resource;
        attributes = mapped partition_key sort_key resource options.top_level_attribute_mappings;
      }

  put_result : Fields N T → Result (Unit {0}) × S → Result (Fields N T) × S
  put_result resource (ok _, s) = (ok resource, s)
  put_result resource (err e, s) = (err "Failed to put resource in DynamoDB table", s)

  unfoldable pub put : Codes → Fields N T → S → Result (Fields N T) × S
  unfolding put_result
  put id resource s = put_result resource (client.put_item table.table_name (item_of id resource) s)

  delete_result : Result (Unit {0}) × S → Result (Unit {0}) × S
  delete_result (ok _, s) = (ok tt, s)
  delete_result (err e, s) = (err "Failed to delete resource in DynamoDB table", s)

  unfoldable pub delete : Codes → S → Result (Unit {0}) × S
  unfolding delete_result
  delete id s = delete_result (client.delete_item table.table_name (table_key table id) s)

  decoded : String → Option (Fields N T) → Result (Option (Fields N T))
  decoded token (some key) = ok (some key)
  decoded token none = err ("Invalid key '" <> token <> "'.")

  unfoldable pub key_from_base64_json : Option String → Result (Option (Fields N T))
  unfolding decoded
  key_from_base64_json none = ok none
  key_from_base64_json (some token) =
      if is_empty token then ok none else decoded token (texts.decode_key token)

  -- It throws where the text of the key has a character that base 64 cannot take.
  unfoldable pub base64_json_from_key : Option (Fields N T) → Result (Option String)
  base64_json_from_key none = ok none
  base64_json_from_key (some key) = texts.encode_key key >>= λ token. ok (some token)

  sorts_by : String → Option String → Bool
  sorts_by sort_by none = false
  sorts_by sort_by (some name) = texts.lower_case name == texts.lower_case sort_by

  find_index : String → List (String × Option String) → Option String
  find_index sort_by [] = none
  find_index sort_by ((name, key) ∷ indexes) =
      let later = find_index sort_by indexes in if sorts_by sort_by key then some name else later

  index_or_error : String → Option String → Result (Option String)
  index_or_error sort_by (some name) = ok (some name)
  index_or_error sort_by none =
      err ("No matching local secondary index found for sorting by '" <> sort_by <> "'")

  index_of : Option String → Result (Option String)
  index_of none = ok none
  index_of (some sort_by) =
      if is_empty sort_by
      then ok none
      else index_or_error sort_by (find_index sort_by table.local_secondary_indexes)

  abbrev filter_parts :
      Bool → Option (FilterExpression (Value N T)) → Option String × Attributes (Value N T)
  filter_parts true (some e) =
      let (expression, attributes) = build_filter_expression texts.inherited_text texts.digits e in
      (some expression, attributes)
  filter_parts true none = (none, record { names = []; values = [] })
  filter_parts false filter = (none, record { names = []; values = [] })

  is_ascending : Option String → Bool
  is_ascending none = false
  is_ascending (some order) = order == "asc"

  make_input : Query (Value N T) → Option String → Option (Fields N T) → QueryInput N T
  make_input query index_name start_key =
      let (expression, attributes) =
        filter_parts (has_filter_criteria query.filter_expression) query.filter_expression in
      record {
        table_name = table.table_name;
        key_condition_expression = "#partitionKey = :partitionKey";
        filter_expression = expression;
        expression_attribute_names = ("#partitionKey", table.partition) ∷ attributes.names;
        expression_attribute_values = (":partitionKey", text query.path) ∷ attributes.values;
        index_name = index_name;
        scan_index_forward = is_ascending query.sort_order;
        consistent_read = options.consistent_query;
        limit = query.page_size;
        exclusive_start_key = start_key;
      }

  -- The parameters of the command that `query` sends.
  unfoldable pub query_input : Query (Value N T) → Result (QueryInput N T)
  unfolding index_of index_or_error find_index sorts_by is_ascending make_input
  query_input query = index_of query.sort_by >>= λ index_name.
      key_from_base64_json query.page_start_token >>= λ start_key.
      ok (make_input query index_name start_key)

  results_of : Result (QueryOutput N T) × S → Result (QueryResults (Fields N T)) × S
  results_of (err e, s) = (err e, s)
  results_of (ok output, s) = (
    base64_json_from_key output.last_evaluated_key >>= λ token. ok (record {
      results = map (deserialize texts.dates) output.items;
      next_page_start_token = token;
    }),
    s,
  )

  send_query : Result (QueryInput N T) → S → Result (QueryResults (Fields N T)) × S
  send_query (err e) s = (err e, s)
  send_query (ok input) s = results_of (client.query_items input s)

  unfoldable pub query : Query (Value N T) → S → Result (QueryResults (Fields N T)) × S
  unfolding send_query results_of
  query q s = send_query (query_input q) s

  find_custom :
      {P : Type 0}
      → String
      → List (String × (CustomQuery P → QueryInput N T))
      → Option (CustomQuery P → QueryInput N T)
  find_custom name [] = none
  find_custom name ((k, f) ∷ fs) =
      let later = find_custom name fs in if k == name then some f else later

  custom_input :
      {P : Type 0}
      → CustomQuery P
      → Option (CustomQuery P → QueryInput N T)
      → Result (QueryInput N T)
  custom_input q none = err ("Custom query with name '" <> q.name <> "' has not been configured.")
  custom_input q (some f) = key_from_base64_json q.page_start_token >>= λ start_key.
      ok (record (f q) { table_name = table.table_name; exclusive_start_key = start_key })

  -- The custom queries are those of the options.
  unfoldable pub custom_query :
      {P : Type 0}
      → List (String × (CustomQuery P → QueryInput N T))
      → CustomQuery P
      → S
      → Result (QueryResults (Fields N T)) × S
  unfolding custom_input find_custom send_query results_of
  custom_query registry q s = send_query (custom_input q (find_custom q.name registry)) s
