-- ===== src/Tests/Filters.antt =====
-- Filter expressions for DynamoDB and queries for Firestore.
use mcma_libraries.Prelude.{
  ℕ, zero, suc, ◌≡◌, refl, Bool, true, false, ◌&&◌, String, Option, none, some, [], ◌∷◌, ◌==◌,
  if◌then◌else◌, eqb, ltb, not, ap, ok, err, ◌⊎◌, leb,
}
use mcma_libraries.Queries.{FilterExpression, criteria, group, nil, cons, all_of, values}
use mcma_libraries.DynamoDb.Filter.{
  name_key, value_key, build_filter_expression, add_filter_criteria, add_filter_expression,
}
use mcma_libraries.DynamoDb.Filter.Names.{
  properties, text_from, numbered, build_filter_expression-numbered,
}
use mcma_libraries.Firestore.Query.{FirestoreQuery, add_filter_to_query}
use mcma_libraries.Firestore.Query.Selection.{
  Comparison, equal, not_equal, less, less_or_equal, greater, greater_or_equal,
  firestore_meaning_of, Selects, satisfies, is_supported, add_filter_to_query-selects,
}

abbrev digits : ℕ → String
digits zero = "0"
digits (suc n) = "1"

abbrev inherited_text : String → Option String
inherited_text name = if name == "constructor" then some "function Object" else none

abbrev named_a : FilterExpression String
named_a = group all_of (cons (criteria "name" "=" "a") nil)

build_filter_expression-numbered_example : build_filter_expression inherited_text digits named_a ≡ (
  text_from digits 1 0 named_a,
  record {
    names = ("#r", "resource") ∷ numbered (name_key digits) 1 (properties named_a);
    values = numbered (value_key digits) 0 (values named_a);
  },
)
build_filter_expression-numbered_example =
    build_filter_expression-numbered inherited_text digits named_a ((refl, refl), tt)

-- A property that every object inherits gets no name, and its text goes into the expression.
inherited_name :
    build_filter_expression {V = String} inherited_text digits (criteria "constructor" "=" "a") ≡ (
      "#r.function Object = :a0",
      record { names = ("#r", "resource") ∷ []; values = (":a0", "a") ∷ [] },
    )
unfolding build_filter_expression add_filter_criteria add_filter_expression
inherited_name = refl

abbrev holds : String → Comparison → ℕ → ℕ → Bool
holds name equal v d = eqb d v
holds name not_equal v d = not (eqb d v)
holds name less v d = ltb d v
holds name less_or_equal v d = leb d v
holds name greater v d = ltb v d
holds name greater_or_equal v d = leb v d

abbrev fits : Option Comparison → String → ℕ → ℕ → Bool
fits none name v d = false
fits (some c) name v d = holds name c v d

-- A query is the condition that it puts on a number.
abbrev conditions : FirestoreQuery (ℕ → Bool) ℕ
conditions = record {
  where_field = λ name operator v q d. q d && fits (firestore_meaning_of operator) name v d;
  limit = λ n q. q;
  start_after = λ token q. q;
}

conditions-Selects : Selects conditions (λ q d. q d) holds
conditions-Selects = record {
  where_selects = λ name operator c v q d e. ap (λ m. q d && fits m name v d) e;
}

abbrev two_or_more : FilterExpression ℕ
two_or_more = group all_of (cons (criteria "size" ">=" 2) (cons (criteria "size" "=" 3) nil))

add_filter_to_query-selects_example :
    ((is_supported two_or_more ≡ false)
      × ((message : String) × (add_filter_to_query conditions two_or_more (λ d. true)
            ≡ err message)))
    ⊎ ((is_supported two_or_more ≡ true)
        × ((q' : ℕ → Bool) × (add_filter_to_query conditions two_or_more (λ d. true) ≡ ok q')
            × ((d : ℕ) → q' d ≡ (true && satisfies holds two_or_more d))))
add_filter_to_query-selects_example =
    add_filter_to_query-selects conditions-Selects two_or_more (λ d. true)
      ((greater_or_equal, refl), ((equal, refl), tt))
