-- ===== src/DynamoDb/Filter/Names.antt =====
-- The names and values in the text of a filter.
use mcma_libraries.Prelude.{
  ℕ, suc, ◌+◌, ◌≡◌, refl, sym, ap, ◌∙◌, true, false, String, Option, none, List, [], ◌∷◌, ◌++◌,
  length, length-append, append_assoc, append-nil, ◌==◌, eq_iff, All, All-append, arith, Bool-cases,
  inl, inr,
}
use Prim.Native.String.{◌++◌ as ◌<>◌}
use text.Mathlib.Text.{starts_with}
use text.Mathlib.TextPositions.{starts_with-append}
use text.Mathlib.TextLemmas.{append_assoc as text_append_assoc}
use mcma_libraries.Queries.{
  FilterExpression, FilterList, criteria, group, nil, cons, group_text, values, all_values,
}
use mcma_libraries.DynamoDb.Filter.{
  Attributes, find_name, name_key, value_key, criteria_text, named, add_filter_criteria,
  add_filter_expression, add_children, build_filter_expression,
}

module _ {V : Type 0} where
  abbrev mutual
    -- The properties of a filter from left to right.
    pub properties : FilterExpression V → List String
    properties (criteria property operator v) = property ∷ []
    properties (group operator children) = all_properties children

    pub all_properties : FilterList V → List String
    all_properties nil = []
    all_properties (cons e es) = properties e ++ all_properties es

  abbrev mutual
    -- The text of a filter whose names are numbered from `n` and whose values from `m`.
    pub text_from : (ℕ → String) → ℕ → ℕ → FilterExpression V → String
    text_from digits n m (criteria property operator v) =
        criteria_text (name_key digits n) operator (value_key digits m)
    text_from digits n m (group operator children) =
        group_text operator (texts_from digits n m children)

    pub texts_from : (ℕ → String) → ℕ → ℕ → FilterList V → List String
    texts_from digits n m nil = []
    texts_from digits n m (cons e es) =
        text_from digits n m e
        ∷ texts_from digits (n + length (properties e)) (m + length (values e)) es

-- The items of a list under keys that are numbered from `n`.
abbrev pub numbered {ℓ} : {A : Type ℓ} → (ℕ → String) → ℕ → List A → List (String × A)
numbered key n [] = []
numbered key n (x ∷ xs) = (key n, x) ∷ numbered key (n + 1) xs

numbered-append {ℓ} :
    {A : Type ℓ} (key : ℕ → String) (n : ℕ) (xs ys : List A)
    → numbered key n (xs ++ ys) ≡ numbered key n xs ++ numbered key (n + length xs) ys
numbered-append key n [] ys = ap (λ k. numbered key k ys) (omega arith)
numbered-append key n (x ∷ xs) ys =
    ap (λ r. (key n, x) ∷ r)
      (numbered-append key (n + 1) xs ys
        ∙ ap (λ k. numbered key (n + 1) xs ++ numbered key k ys) (omega arith))

length-numbered {ℓ} :
    {A : Type ℓ} (key : ℕ → String) (n : ℕ) (xs : List A) → length (numbered key n xs) ≡ length xs
length-numbered key n [] = refl
length-numbered key n (x ∷ xs) = ap suc (length-numbered key (n + 1) xs)

abbrev pub IsKey : String × String → Type 0
IsKey entry = starts_with entry.0 "#" ≡ true

-- A property that does not begin with "#" and that no object inherits.
abbrev pub IsPlainName : (String → Option String) → String → Type 0
IsPlainName inherited property = (starts_with property "#" ≡ false) × (inherited property ≡ none)

find_name-other :
    (inherited : String → Option String) (property : String) (names : List (String × String))
    → IsPlainName inherited property
    → All IsKey names
    → find_name inherited property names ≡ none
find_name-other inherited property [] plain keys = plain.1
find_name-other inherited property ((j, name) ∷ names) plain (key, keys) =
    elim (Bool-cases (j == property)) [
      | inl same ↦ cc (sym key ∙ ap (λ t. starts_with t "#") ((eq_iff j property).0 same) ∙ plain.0)
      | inr other ↦ rw other (find_name-other inherited property names plain keys)
    ]

numbered-IsKey :
    (digits : ℕ → String) (n : ℕ) (xs : List String) → All IsKey (numbered (name_key digits) n xs)
numbered-IsKey digits n [] = tt
numbered-IsKey digits n (x ∷ xs) = (
  ap (λ t. starts_with t "#") (text_append_assoc "#" "a" (digits n))
      ∙ starts_with-append "#" ("a" <> digits n),
  numbered-IsKey digits (n + 1) xs,
)

All-append_left :
    (P : String → Type 0) (xs ys : List String) → All P (xs ++ ys) → All P xs × All P ys
All-append_left P [] ys h = (tt, h)
All-append_left P (x ∷ xs) ys (p, h) =
    let (left, right) = All-append_left P xs ys h in ((p, left), right)

module _ {V : Type 0} (inherited : String → Option String) (digits : ℕ → String) where
  abbrev added : Attributes V → FilterExpression V → Attributes V
  added a e = record {
    names = a.names ++ numbered (name_key digits) (length a.names) (properties e);
    values = a.values ++ numbered (value_key digits) (length a.values) (values e);
  }

  abbrev all_added : Attributes V → FilterList V → Attributes V
  all_added a es = record {
    names = a.names ++ numbered (name_key digits) (length a.names) (all_properties es);
    values = a.values ++ numbered (value_key digits) (length a.values) (all_values es);
  }

  added-all_added :
      (a : Attributes V) (e : FilterExpression V) (es : FilterList V)
      → all_added (added a e) es ≡ all_added a (cons e es)
  added-all_added a e es =
      rw
        (
          length-append a.names (numbered (name_key digits) (length a.names) (properties e)),
          length-numbered (name_key digits) (length a.names) (properties e),
          length-append a.values (numbered (value_key digits) (length a.values) (values e)),
          length-numbered (value_key digits) (length a.values) (values e),
          numbered-append (name_key digits) (length a.names) (properties e) (all_properties es),
          numbered-append (value_key digits) (length a.values) (values e) (all_values es),
          append_assoc a.names (numbered (name_key digits) (length a.names) (properties e)) (
              numbered (name_key digits) (length a.names + length (properties e))
                (all_properties es)),
          append_assoc a.values (numbered (value_key digits) (length a.values) (values e))
              (numbered (value_key digits) (length a.values + length (values e)) (all_values es)),
        )
        refl

  mutual
    unfolding add_filter_expression add_filter_criteria named

    add_filter_expression-added :
        (e : FilterExpression V) (a : Attributes V)
        → All (IsPlainName inherited) (properties e)
        → All IsKey a.names
        → add_filter_expression inherited digits e a
          ≡ (text_from digits (length a.names) (length a.values) e, added a e)
    add_filter_expression-added (criteria property operator v) a (plain, _) keys =
        rw (find_name-other inherited property a.names plain keys) refl
    add_filter_expression-added (group operator children) a plain keys =
        rw (add_children-added children a plain keys) refl

    add_children-added :
        (es : FilterList V) (a : Attributes V)
        → All (IsPlainName inherited) (all_properties es)
        → All IsKey a.names
        → add_children inherited digits es a
          ≡ (texts_from digits (length a.names) (length a.values) es, all_added a es)
    add_children-added nil a plain keys = rw (append-nil a.names, append-nil a.values) refl
    add_children-added (cons e es) a plain keys =
        let (here, later) =
          All-append_left (IsPlainName inherited) (properties e) (all_properties es) plain in
        let keys' =
          All-append IsKey a.names (numbered (name_key digits) (length a.names) (properties e)) keys
            (numbered-IsKey digits (length a.names) (properties e)) in
        rw
          (
            add_filter_expression-added e a here keys,
            add_children-added es (added a e) later keys',
            added-all_added a e es,
            length-append a.names (numbered (name_key digits) (length a.names) (properties e)),
            length-numbered (name_key digits) (length a.names) (properties e),
            length-append a.values (numbered (value_key digits) (length a.values) (values e)),
            length-numbered (value_key digits) (length a.values) (values e),
          )
          refl

  -- Where no property of a filter begins with "#" or is one that every object inherits (such as
  -- constructor), the names of a filter expression are the resource
  -- and the properties from left to right, its values are those of the filter from left to right, and
  -- in its text each criterion has the name and the value at its own place.
  pub build_filter_expression-numbered :
      (e : FilterExpression V)
      → All (IsPlainName inherited) (properties e)
      → build_filter_expression inherited digits e ≡ (
        text_from digits 1 0 e,
        record {
          names = ("#r", "resource") ∷ numbered (name_key digits) 1 (properties e);
          values = numbered (value_key digits) 0 (values e);
        },
      )
  unfolding build_filter_expression
  build_filter_expression-numbered e plain =
      add_filter_expression-added e (record { names = ("#r", "resource") ∷ []; values = [] }) plain
        (refl, tt)
