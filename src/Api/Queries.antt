-- ===== src/Api/Queries.antt =====
-- base/api/lib/routing/defaults/default-query-route.ts, with
-- base/data/lib/document-database/query/helpers.ts. Parsing of numbers, the case of letters, the
-- document table and the hooks are parameters. A page size is a natural number, and the name of a
-- custom query is not empty.
pub mod Parameters
use mcma_libraries.Prelude.{
  ℕ, Bool, true, false, String, Option, none, some, List, [], ◌∷◌, Result, ok, err, ◌==◌, is_empty,
  if◌then◌else◌, Action, follow,
}
use mcma_libraries.Queries.{
  FilterExpression, FilterList, criteria, group, nil, cons, all_of, Query, CustomQuery,
  QueryResults,
}
use mcma_libraries.Api.{Context, Handler, Entries, lookup, set_response_body}

-- `delete queryParams[name]`
abbrev pub delete_key : String → Entries → Entries
delete_key name [] = []
delete_key name ((k, v) ∷ entries) =
    let rest = delete_key name entries in if k == name then rest else (k, v) ∷ rest

-- A parameter that is there and not empty is taken out.
abbrev taken : String → Entries → Option String → Option String × Entries
taken name entries none = (none, entries)
taken name entries (some v) =
    if is_empty v then (none, entries) else (some v, delete_key name entries)

abbrev pub take_parameter : String → Entries → Option String × Entries
take_parameter name entries = taken name entries (lookup name entries)

abbrev pub criteria_of : Entries → FilterList String
criteria_of [] = nil
criteria_of ((k, v) ∷ entries) = cons (criteria k "=" v) (criteria_of entries)

-- `getFilterExpressionFromKeyValuePairs`
unfoldable pub filter_of : Entries → FilterExpression String
filter_of entries = group all_of (criteria_of entries)

module _ (parse_int : String → Option ℕ) (lower_case : String → String) where
  abbrev pub page_size_of : Option String → Option ℕ
  page_size_of none = none
  page_size_of (some t) = parse_int t

  abbrev pub sort_order_of : String → Option String → String
  sort_order_of default none = default
  sort_order_of default (some t) = if lower_case t == "desc" then "desc" else "asc"

  -- `buildStandardQuery`, with the parameters that it leaves in the request.
  unfoldable pub build_standard_query : String → String → Entries → Query String × Entries
  build_standard_query default path params =
      let (size, params₁) = take_parameter "pageSize" params in
      let (token, params₂) = take_parameter "pageStartToken" params₁ in
      let (by, params₃) = take_parameter "sortBy" params₂ in
      let (order, params₄) = take_parameter "sortOrder" params₃ in
      (
        record {
          path = path;
          filter_expression = some (filter_of params₄);
          page_size = page_size_of size;
          page_start_token = token;
          sort_by = by;
          sort_order = some (sort_order_of default order);
        },
        params₄,
      )

-- A custom query that a request may match.
pub record CustomQueryFactory (P V S : Type 0) : Type 0 where
  pub is_match : Context V S → Bool
  pub create : Context V S → CustomQuery P

-- The query of a request: a custom one or a standard one.
pub data AnyQuery (P : Type 0) : Type 0 where
  custom : CustomQuery P → AnyQuery P
  standard : Query String → AnyQuery P

pub record QueryTable (P D S : Type 0) : Type 0 where
  pub connect : S → Result (Unit {0}) × S
  pub query : Query String → S → Result (QueryResults D) × S
  pub custom_query : CustomQuery P → S → Result (QueryResults D) × S

-- The hooks; `onStarted` may answer undefined.
pub record QueryHooks (D S : Type 0) : Type 0 where
  pub on_started : Option (Action (Context (QueryResults D) S) (Option Bool))
  pub on_completed : Option (QueryResults D → Action (Context (QueryResults D) S) (Unit {0}))

module _ {P D S : Type 0} (parse_int : String → Option ℕ) (lower_case : String → String)
    (table : QueryTable P D S) (factories : List (CustomQueryFactory P (QueryResults D) S))
    (hooks : QueryHooks D S) where
  abbrev find_factory :
      Context (QueryResults D) S
      → List (CustomQueryFactory P (QueryResults D) S)
      → Option (CustomQueryFactory P (QueryResults D) S)
  find_factory c [] = none
  find_factory c (f ∷ fs) = let later = find_factory c fs in if f.is_match c then some f else later

  abbrev query_with :
      Option (CustomQueryFactory P (QueryResults D) S)
      → Context (QueryResults D) S
      → AnyQuery P × Context (QueryResults D) S
  query_with (some f) c = (custom (f.create c), c)
  query_with none c =
      let (q, params) =
        build_standard_query parse_int lower_case "asc" c.request.path
          c.request.query_string_parameters in
      (standard q, record c { request = record c.request { query_string_parameters = params } })

  -- `defaultBuildQuery`
  unfoldable pub default_build_query :
      Context (QueryResults D) S → AnyQuery P × Context (QueryResults D) S
  default_build_query c = query_with (find_factory c factories) c

  abbrev outside : {A : Type 0} → Action S A → Action (Context (QueryResults D) S) A
  outside call c = let (r, s) = call c.world in (r, record c { world = s })

  abbrev run_query : AnyQuery P → Action S (QueryResults D)
  run_query (custom q) = table.custom_query q
  run_query (standard q) = table.query q

  completed_with :
      Option (QueryResults D → Action (Context (QueryResults D) S) (Unit {0}))
      → QueryResults D
      → Action (Context (QueryResults D) S) (Unit {0})
  completed_with none results c = (ok tt, set_response_body results c)
  completed_with (some hook) results c =
      let (r, c') = hook results c in follow r (λ _ c''. (ok tt, set_response_body results c'')) c'

  answer_query : Action (Context (QueryResults D) S) (Unit {0})
  answer_query c =
      let (r, c') = outside table.connect c in
      follow r
        (λ _ c''.
          let (q, c₃) = default_build_query c'' in
          let (found, c₄) = outside (run_query q) c₃ in
          follow found (completed_with hooks.on_completed) c₄)
        c'

  go_on_with : Option Bool → Action (Context (QueryResults D) S) (Unit {0})
  go_on_with none c = answer_query c
  go_on_with (some true) c = answer_query c
  go_on_with (some false) c = (ok tt, c)

  started_with :
      Option (Action (Context (QueryResults D) S) (Option Bool))
      → Action (Context (QueryResults D) S) (Unit {0})
  started_with none c = answer_query c
  started_with (some hook) c = let (r, c') = hook c in follow r go_on_with c'

  -- `defaultHandleRequest`
  unfoldable pub query_handler : Handler (QueryResults D) S
  unfolding answer_query completed_with go_on_with started_with
  query_handler = started_with hooks.on_started
