-- ===== src/DynamoDb/Client.antt =====
-- aws/dynamodb/lib: what describes a table, what its options are, and the commands of the document
-- client. JSON and base 64 of the keys of pages are parameters.
use mcma_libraries.Prelude.{ℕ, Bool, String, Option, List, Result}
use mcma_libraries.Documents.{Value, Fields, DateTexts}
use mcma_libraries.Documents.Ids.{Codes}

-- aws/dynamodb/lib/dynamo-db-table-description.ts, with the local indexes as pairs of a name and the
-- name of the sort key.
pub record TableDescription : Type 0 where
  pub table_name : String
  pub partition : String
  pub sort : Option String
  pub local_secondary_indexes : List (String × Option String)

abbrev pub TableKey : Type 0
TableKey = List (String × Codes)

pub record Item (N T : Type 0) : Type 0 where
  pub keys : TableKey
  pub resource : Fields N T
  pub attributes : List (String × Value N T)

-- aws/dynamodb/lib/dynamo-db-table-options.ts
pub record DynamoDbTableOptions (N T : Type 0) : Type 0 where
  pub consistent_get : Option Bool
  pub consistent_query : Option Bool
  pub top_level_attribute_mappings : List (String × (Codes → Codes → Fields N T → Value N T))

pub record QueryInput (N T : Type 0) : Type 0 where
  pub table_name : String
  pub key_condition_expression : String
  pub filter_expression : Option String
  pub expression_attribute_names : List (String × String)
  pub expression_attribute_values : List (String × Value N T)
  pub index_name : Option String
  pub scan_index_forward : Bool
  pub consistent_read : Option Bool
  pub limit : Option ℕ
  pub exclusive_start_key : Option (Fields N T)

pub record QueryOutput (N T : Type 0) : Type 0 where
  pub items : List (Fields N T)
  pub last_evaluated_key : Option (Fields N T)

-- The commands over a table, `Consistent` telling of a read that it is consistent.
pub record DocClient (N T S : Type 0) : Type 0 where
  pub get_item : String → TableKey → Option Bool → S → Result (Option (Item N T)) × S
  pub put_item : String → Item N T → S → Result (Unit {0}) × S
  pub delete_item : String → TableKey → S → Result (Unit {0}) × S
  pub query_items : QueryInput N T → S → Result (QueryOutput N T) × S

pub record Texts (N T : Type 0) : Type 0 where
  pub dates : DateTexts T
  pub digits : ℕ → String
  pub lower_case : String → String
  pub inherited_text : String → Option String
  pub encode_key : Fields N T → Result String
  pub decode_key : String → Option (Fields N T)
