-- ===== src/DynamoDb/Filter.antt =====
-- aws/dynamodb/lib/build-filter-expression.ts. The text of a number is a parameter, as is the type of
-- the values. The expression that the calls change is passed on from call to call.
pub mod Names
use mcma_libraries.Prelude.{
  ℕ, Bool, true, false, String, Option, none, some, List, [], ◌∷◌, ◌++◌, length, ◌==◌, is_empty,
  if◌then◌else◌,
}
use Prim.Native.String.{◌++◌ as ◌<>◌}
use mcma_libraries.Queries.{FilterExpression, FilterList, criteria, group, nil, cons, group_text}

-- The names and values that stand for those of the filter. Each key holds the number of entries
-- there are, so it is new.
pub record Attributes (V : Type 0) : Type 0 where
  pub names : List (String × String)
  pub values : List (String × V)

-- `expressionAttributeNames[propertyName]`, where an empty text counts as none. What is no entry of
-- the object may still be there: `inherited` gives the text of what every object inherits under a
-- name, such as the function under constructor.
abbrev pub find_name : (String → Option String) → String → List (String × String) → Option String
find_name inherited k [] = inherited k
find_name inherited k ((j, name) ∷ names) =
    let rest = find_name inherited k names in
    if j == k then (if is_empty name then none else some name) else rest

abbrev pub name_key : (ℕ → String) → ℕ → String
name_key digits n = "#a" <> digits n

abbrev pub value_key : (ℕ → String) → ℕ → String
value_key digits n = ":a" <> digits n

abbrev pub criteria_text : String → String → String → String
criteria_text name operator value = "#r." <> name <> " " <> operator <> " " <> value

named :
    (ℕ → String) → String → Option String → List (String × String) → String × List (String × String)
named digits property (some key) names = (key, names)
named digits property none names =
    let key = name_key digits (length names) in (key, names ++ ((key, property) ∷ []))

module _ {V : Type 0} (inherited : String → Option String) (digits : ℕ → String) where
  unfoldable pub add_filter_criteria : String → String → V → Attributes V → String × Attributes V
  unfolding named
  add_filter_criteria property operator v a =
      let (name, names) = named digits property (find_name inherited property a.names) a.names in
      let value = value_key digits (length a.values) in
      (
        criteria_text name operator value,
        record { names = names; values = a.values ++ ((value, v) ∷ []) },
      )

  unfoldable mutual
    pub add_filter_expression : FilterExpression V → Attributes V → String × Attributes V
    add_filter_expression (criteria property operator v) a =
        add_filter_criteria property operator v a
    add_filter_expression (group operator children) a =
        let (texts, a') = add_children children a in (group_text operator texts, a')

    pub add_children : FilterList V → Attributes V → List String × Attributes V
    add_children nil a = ([], a)
    add_children (cons e es) a =
        let (t, a') = add_filter_expression e a in
        let (ts, a'') = add_children es a' in (t ∷ ts, a'')

  unfoldable pub build_filter_expression : FilterExpression V → String × Attributes V
  build_filter_expression e =
      add_filter_expression e (record { names = ("#r", "resource") ∷ []; values = [] })
