-- ===== src/CosmosDb/Query.antt =====
-- azure/cosmos-db/lib/build-query-definition.ts. The text of a number is a parameter, as is the type of the
-- values. The list of parameters that `addParameter` changes is passed on from call to call.
pub mod Parameters
use mcma_libraries.Prelude.{
  ℕ, ◌+◌, Bool, true, false, String, Option, none, some, List, [], ◌∷◌, ◌++◌, length, ◌==◌,
  is_empty, if◌then◌else◌, not, ◌&&◌,
}
use Prim.Native.String.{◌++◌ as ◌<>◌}
use mcma_libraries.Queries.{
  FilterExpression, FilterList, criteria, group, nil, cons, Query, group_text,
}

pub record SqlQuerySpec (V : Type 0) : Type 0 where
  pub query : String
  pub parameters : List (String × V)

abbrev pub criteria_text : String → String → String → String
criteria_text name operator parameter =
    "root[\"resource\"][\"" <> name <> "\"] " <> operator <> " " <> parameter

abbrev pub parameter_name : (ℕ → String) → ℕ → String
parameter_name digits n = "@p" <> digits n

-- A clause that is null or empty is left out.
abbrev pub given : Option String → Option String
given none = none
given (some clause) = if is_empty clause then none else some clause

-- The text of a template that holds a clause or null.
abbrev or_null : Option String → String
or_null none = "null"
or_null (some clause) = clause

abbrev pub where_given : Option String → Option String → Option String → String
where_given (some p) (some f) clause = " WHERE (" <> p <> ") and (" <> f <> ")"
where_given (some p) none clause = " WHERE " <> p
where_given none (some f) clause = " WHERE " <> or_null clause
where_given none none clause = ""

-- The clauses for the partition key and for the filter.
unfoldable pub where_text : Option String → Option String → String
where_text partition filter = where_given (given partition) (given filter) partition

abbrev order_given : Option String → Option String → String
order_given none sort_order = ""
order_given (some by) none = " ORDER BY root[\"resource\"][\"" <> by <> "\"]"
order_given (some by) (some order) = " ORDER BY root[\"resource\"][\"" <> by <> "\"] " <> order

abbrev pub order_text : Option String → Option String → String
order_text sort_by sort_order = order_given (given sort_by) (given sort_order)

module _ {V : Type 0} (digits : ℕ → String) where
  -- `addParameter`
  unfoldable pub add_parameter : V → List V → String × List V
  add_parameter v parameters = (parameter_name digits (length parameters), parameters ++ (v ∷ []))

  mutual
    add_filter_expression : FilterExpression V → List V → String × List V
    add_filter_expression (criteria name operator v) parameters =
        let (parameter, parameters') = add_parameter v parameters in
        (criteria_text name operator parameter, parameters')
    add_filter_expression (group operator children) parameters =
        let (texts, parameters') = add_children children parameters in
        (group_text operator texts, parameters')

    add_children : FilterList V → List V → List String × List V
    add_children nil parameters = ([], parameters)
    add_children (cons e es) parameters =
        let (t, parameters') = add_filter_expression e parameters in
        let (ts, parameters'') = add_children es parameters' in (t ∷ ts, parameters'')

  -- A clause, or null, with the parameters as they are then.
  abbrev clause_of : String × List V → Option String × List V
  clause_of (text, parameters) = (some text, parameters)

  partition_clause : (String → V) → String → String → List V → Option String × List V
  partition_clause text_value partition_key_name path parameters =
      if is_empty path
      then (none, parameters)
      else (let (parameter, parameters') = add_parameter (text_value path) parameters in
          (some ("root[\"" <> partition_key_name <> "\"] = " <> parameter), parameters'))

  filter_clause : Option (FilterExpression V) → List V → Option String × List V
  filter_clause none parameters = (none, parameters)
  filter_clause (some filter) parameters = clause_of (add_filter_expression filter parameters)

  -- `sqlQuery.parameters.map`, from the index `i` on
  sql_parameters : ℕ → List V → List (String × V)
  sql_parameters i [] = []
  sql_parameters i (v ∷ vs) = ("@p" <> digits i, v) ∷ sql_parameters (i + 1) vs

  unfoldable pub build_query_definition : (String → V) → Query V → String → SqlQuerySpec V
  unfolding partition_clause filter_clause add_filter_expression add_children sql_parameters
  build_query_definition text_value query partition_key_name =
      let (partition, parameters) = partition_clause text_value partition_key_name query.path [] in
      let (filter, parameters') = filter_clause query.filter_expression parameters in
      record {
        query =
            "SELECT VALUE root FROM root"
            <> where_text partition filter
            <> order_text query.sort_by query.sort_order;
        parameters = sql_parameters 0 parameters';
      }
