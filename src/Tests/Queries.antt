-- ===== src/Tests/Queries.antt =====
-- Query definitions for Cosmos DB.
use mcma_libraries.Prelude.{
  ℕ, zero, suc, ◌≡◌, refl, String, Option, none, some, List, [], ◌∷◌, ◌==◌, if◌then◌else◌,
}
use Prim.Native.String.{◌++◌ as ◌<>◌}
use mcma_libraries.Queries.{FilterExpression, criteria, group, nil, cons, all_of, Query}
use mcma_libraries.CosmosDb.Query.{where_text, order_text, build_query_definition, add_parameter}
use mcma_libraries.CosmosDb.Query.Parameters.{
  filter_text, path_text, build_query_definition-numbered,
}

abbrev digits : ℕ → String
digits zero = "0"
digits (suc zero) = "1"
digits (suc (suc n)) = "2"

abbrev as_value : String → String
as_value s = s

abbrev status_filter : FilterExpression String
status_filter =
    group all_of (cons (criteria "status" "=" "Failed") (cons (criteria "name" "=" "a") nil))

abbrev jobs : Query String
jobs = record {
  path = "/jobs";
  filter_expression = some status_filter;
  page_size = none;
  page_start_token = none;
  sort_by = none;
  sort_order = none;
}

build_query_definition-numbered_example :
    ((build_query_definition digits as_value jobs "pk").parameters
      ≡ (("@p0", "/jobs") ∷ ("@p1", "Failed") ∷ ("@p2", "a") ∷ []))
    × ((build_query_definition digits as_value jobs "pk").query
        ≡ "SELECT VALUE root FROM root"
          <> where_text (path_text digits "pk" "/jobs") (filter_text digits 1 (some status_filter))
          <> order_text none none)
build_query_definition-numbered_example = build_query_definition-numbered digits as_value jobs "pk"

-- A query with a filter and no path has null for a condition.
filter_alone :
    (build_query_definition digits as_value (record jobs { path = "" }) "pk").query
    ≡ "SELECT VALUE root FROM root WHERE null"
unfolding build_query_definition add_parameter where_text
filter_alone = refl

abbrev parse_size : String → Option ℕ
parse_size t = if t == "20" then some 20 else none

abbrev parameters : List (String × String)
parameters =
    ("pageSize", "20") ∷ ("status", "Running") ∷ ("sortBy", "") ∷ ("sortOrder", "desc") ∷ []
