-- ===== src/Firestore/Query.antt =====
-- google-cloud/firestore/lib/build-firestore-query.ts. The query objects of the SDK are a parameter.
pub mod Selection
use mcma_libraries.Prelude.{
  ℕ, zero, suc, Bool, true, false, String, Option, none, some, Result, ok, err, ◌>>=◌, ◌==◌,
  is_empty, if◌then◌else◌,
}
use mcma_libraries.Queries.{
  FilterExpression, FilterList, criteria, group, nil, cons, any_of, all_of, Query,
}

-- `where`, `limit` and `startAfter` of a query, over a type of values.
pub record FirestoreQuery (Q V : Type 0) : Type 0 where
  pub where_field : String → String → V → Q → Q
  pub limit : ℕ → Q → Q
  pub start_after : String → Q → Q

abbrev pub firestore_operator : String → String
firestore_operator operator = if operator == "=" then "==" else operator

module _ {Q V : Type 0} (sdk : FirestoreQuery Q V) where
  unfoldable pub add_filter_criteria_to_query : String → String → V → Q → Result Q
  add_filter_criteria_to_query name operator v q =
      if operator == "!="
      then err "Firestore does not currently support the not equals (!=) operator."
      else ok (sdk.where_field name (firestore_operator operator) v q)

  unfoldable mutual
    pub add_filter_to_query : FilterExpression V → Q → Result Q
    add_filter_to_query (criteria name operator v) q =
        add_filter_criteria_to_query name operator v q
    add_filter_to_query (group any_of children) q =
        err "Firestore does not currently support the logical or (||) operator."
    add_filter_to_query (group all_of children) q = add_filters_to_query children q

    pub add_filters_to_query : FilterList V → Q → Result Q
    add_filters_to_query nil q = ok q
    add_filters_to_query (cons e es) q =
        add_filter_to_query e q >>= λ q'. add_filters_to_query es q'

  filtered : Option (FilterExpression V) → Q → Result Q
  filtered none q = ok q
  filtered (some e) q = add_filter_to_query e q

  limited : Option ℕ → Q → Q
  limited none q = q
  limited (some zero) q = q
  limited (some (suc n)) q = sdk.limit (suc n) q

  started : Option String → Q → Q
  started none q = q
  started (some token) q = if is_empty token then q else sdk.start_after token q

  unfoldable pub build_firestore_query : Q → Query V → Result Q
  unfolding filtered limited started
  build_firestore_query q query = filtered query.filter_expression q >>= λ q'.
      ok (started query.page_start_token (limited query.page_size q'))
