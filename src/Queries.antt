-- ===== src/Queries.antt =====
-- base/data/lib/document-database/query: filters and queries, and texts that the tables of two clouds
-- make of a filter in the same way.
use mcma_libraries.Prelude.{ℕ, String, Option, List, [], ◌∷◌, ◌++◌}
use Prim.Native.String.{◌++◌ as ◌<>◌}

pub data LogicalOperator : Type 0 where
  any_of : LogicalOperator
  all_of : LogicalOperator

mutual
  -- base/data/lib/document-database/query/filter.ts
  pub data FilterExpression (V : Type 0) : Type 0 where
    criteria : (property_name operator : String) (property_value : V) → FilterExpression V
    group : (logical_operator : LogicalOperator) (children : FilterList V) → FilterExpression V

  pub data FilterList (V : Type 0) : Type 0 where
    nil : FilterList V
    cons : FilterExpression V → FilterList V → FilterList V

-- base/data/lib/document-database/query/query.ts
pub record Query (V : Type 0) : Type 0 where
  pub path : String
  pub filter_expression : Option (FilterExpression V)
  pub page_size : Option ℕ
  pub page_start_token : Option String
  pub sort_by : Option String
  pub sort_order : Option String

-- base/data/lib/document-database/query/custom-query.ts
pub record CustomQuery (P : Type 0) : Type 0 where
  pub name : String
  pub parameters : P
  pub page_start_token : Option String

-- base/data/lib/document-database/query/query-results.ts, over a type of documents.
pub record QueryResults (D : Type 0) : Type 0 where
  pub results : List D
  pub next_page_start_token : Option String

-- `join`
abbrev pub join_texts : String → List String → String
join_texts separator [] = ""
join_texts separator (t ∷ []) = t
join_texts separator (t ∷ u ∷ ts) = t <> separator <> join_texts separator (u ∷ ts)

abbrev pub operator_text : LogicalOperator → String
operator_text any_of = " or "
operator_text all_of = " and "

-- The text of a group of one or more children.
abbrev pub group_text : LogicalOperator → List String → String
group_text operator [] = ""
group_text operator (t ∷ ts) = "(" <> join_texts (operator_text operator) (t ∷ ts) <> ")"

module _ {V : Type 0} where
  abbrev mutual
    -- The values of a filter from left to right.
    pub values : FilterExpression V → List V
    values (criteria name operator v) = v ∷ []
    values (group operator children) = all_values children

    pub all_values : FilterList V → List V
    all_values nil = []
    all_values (cons e es) = values e ++ all_values es
