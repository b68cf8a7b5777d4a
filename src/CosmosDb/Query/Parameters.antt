-- ===== src/CosmosDb/Query/Parameters.antt =====
-- The parameters of a query and their names in its text.
use mcma_libraries.Prelude.{
  ℕ, ◌+◌, ◌≡◌, refl, sym, ap, String, Option, none, some, List, [], ◌∷◌, ◌++◌, length,
  length-append, append_assoc, append-nil, if◌then◌else◌, is_empty, Bool-cases, inl, inr,
}
use Prim.Native.String.{◌++◌ as ◌<>◌}
use mcma_libraries.Queries.{
  FilterExpression, FilterList, criteria, group, nil, cons, Query, group_text, values, all_values,
}
use mcma_libraries.CosmosDb.Query.{
  where_text, order_text, criteria_text, parameter_name, add_parameter, add_filter_expression,
  add_children, partition_clause, filter_clause, sql_parameters, build_query_definition,
}

module _ {V : Type 0} where
  abbrev mutual
    -- The text of a filter whose values are numbered from `n`.
    pub text_from : (ℕ → String) → ℕ → FilterExpression V → String
    text_from digits n (criteria name operator v) =
        criteria_text name operator (parameter_name digits n)
    text_from digits n (group operator children) =
        group_text operator (texts_from digits n children)

    pub texts_from : (ℕ → String) → ℕ → FilterList V → List String
    texts_from digits n nil = []
    texts_from digits n (cons e es) =
        text_from digits n e ∷ texts_from digits (n + length (values e)) es

-- Values with the names of parameters that are numbered from `n`.
abbrev pub named_from : {V : Type 0} → (ℕ → String) → ℕ → List V → List (String × V)
named_from digits n [] = []
named_from digits n (v ∷ vs) = (parameter_name digits n, v) ∷ named_from digits (n + 1) vs

module _ {V : Type 0} (digits : ℕ → String) where
  sql_parameters-named_from :
      (n : ℕ) (vs : List V) → sql_parameters digits n vs ≡ named_from digits n vs
  unfolding sql_parameters
  sql_parameters-named_from n [] = refl
  sql_parameters-named_from n (v ∷ vs) =
      ap (λ ps. (parameter_name digits n, v) ∷ ps) (sql_parameters-named_from (n + 1) vs)

  mutual
    unfolding add_filter_expression add_children add_parameter

    add_filter_expression-numbered :
        (e : FilterExpression V) (parameters : List V)
        → add_filter_expression digits e parameters
          ≡ (text_from digits (length parameters) e, parameters ++ values e)
    add_filter_expression-numbered (criteria name operator v) parameters = refl
    add_filter_expression-numbered (group operator children) parameters =
        rw (add_children-numbered children parameters) refl

    add_children-numbered :
        (es : FilterList V) (parameters : List V)
        → add_children digits es parameters
          ≡ (texts_from digits (length parameters) es, parameters ++ all_values es)
    add_children-numbered nil parameters = ap (λ ps. ([], ps)) (sym (append-nil parameters))
    add_children-numbered (cons e es) parameters =
        rw
          (
            add_filter_expression-numbered e parameters,
            add_children-numbered es (parameters ++ values e),
            length-append parameters (values e),
            append_assoc parameters (values e) (all_values es),
          )
          refl

module _ {V : Type 0} where
  abbrev pub filter_values : Option (FilterExpression V) → List V
  filter_values none = []
  filter_values (some e) = values e

  abbrev pub filter_text : (ℕ → String) → ℕ → Option (FilterExpression V) → Option String
  filter_text digits n none = none
  filter_text digits n (some e) = some (text_from digits n e)

  abbrev pub path_values : (String → V) → String → List V
  path_values text_value path = if is_empty path then [] else text_value path ∷ []

abbrev pub path_text : (ℕ → String) → String → String → Option String
path_text digits partition_key_name path =
    if is_empty path
    then none
    else some ("root[\"" <> partition_key_name <> "\"] = " <> parameter_name digits 0)

module _ {V : Type 0} (digits : ℕ → String) (text_value : String → V) where
  filter_clause-numbered :
      (filter : Option (FilterExpression V)) (parameters : List V)
      → filter_clause digits filter parameters
        ≡ (filter_text digits (length parameters) filter, parameters ++ filter_values filter)
  unfolding filter_clause
  filter_clause-numbered none parameters = ap (λ ps. (none, ps)) (sym (append-nil parameters))
  filter_clause-numbered (some e) parameters =
      rw (add_filter_expression-numbered digits e parameters) refl

  partition_clause-numbered :
      (partition_key_name path : String)
      → partition_clause digits text_value partition_key_name path []
        ≡ (path_text digits partition_key_name path, path_values text_value path)
  unfolding partition_clause add_parameter
  partition_clause-numbered partition_key_name path = elim (Bool-cases (is_empty path)) [
    | inl empty ↦ rw empty refl
    | inr full ↦ rw full refl
  ]

  -- The parameters of a query definition have the names @p0, @p1 and so on, and their values are the
  -- path, if it is not empty, and then the values of the filter from left to right. In the text, the
  -- clause for the path and each criterion have the name of the parameter of their own value.
  pub build_query_definition-numbered :
      (query : Query V) (partition_key_name : String)
      → ((build_query_definition digits text_value query partition_key_name).parameters
          ≡ named_from digits 0
              (path_values text_value query.path ++ filter_values query.filter_expression))
        × ((build_query_definition digits text_value query partition_key_name).query
            ≡ "SELECT VALUE root FROM root"
              <> where_text (path_text digits partition_key_name query.path) (
                  filter_text digits
                    (length (path_values text_value query.path))
                    query.filter_expression)
              <> order_text query.sort_by query.sort_order)
  unfolding build_query_definition
  build_query_definition-numbered query partition_key_name =
      rw
        (
          partition_clause-numbered partition_key_name query.path,
          filter_clause-numbered query.filter_expression (path_values text_value query.path),
        )
        (sql_parameters-named_from digits 0 _, refl)
