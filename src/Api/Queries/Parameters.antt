-- ===== src/Api/Queries/Parameters.antt =====
-- What becomes of the parameters of a request.
use mcma_libraries.Prelude.{
  ◌≡◌, Bool, false, not, ◌||◌, String, Option, none, some, [], ◌∷◌, ◌==◌, is_empty, if◌then◌else◌,
  All,
}
use mcma_libraries.Api.{Entries, lookup}

-- The entries that a test holds for.
abbrev pub keep : (String × String → Bool) → Entries → Entries
keep test [] = []
keep test (e ∷ entries) = let rest = keep test entries in if test e then e ∷ rest else rest

abbrev IsNot : String → String × String → Type 0
IsNot name e = (e.0 == name) ≡ false

-- No key stands twice.
abbrev pub AreDistinct : Entries → Type 0
AreDistinct [] = Unit
AreDistinct (e ∷ entries) = All (λ f. (f.0 == e.0) ≡ false) entries × AreDistinct entries

-- All but a parameter of the name that is not empty.
abbrev left_by : String → String × String → Bool
left_by name (k, v) = not (k == name) || is_empty v

abbrev nonempty : Option String → Option String
nonempty none = none
nonempty (some t) = if is_empty t then none else some t

-- A parameter that is there and not empty.
abbrev pub parameter : String → Entries → Option String
parameter name entries = nonempty (lookup name entries)

-- The parameters of a filter: those without one of the four names, and those that are empty.
abbrev pub is_filter : String × String → Bool
is_filter (k, v) =
    not ((k == "pageSize") || (k == "pageStartToken") || (k == "sortBy") || (k == "sortOrder"))
    || is_empty v

module _ (params : Entries) (distinct : AreDistinct params) where
  abbrev without_size : Entries
  without_size = keep (left_by "pageSize") params

  abbrev without_token : Entries
  without_token = keep (left_by "pageStartToken") without_size

  abbrev without_sort_by : Entries
  without_sort_by = keep (left_by "sortBy") without_token
