-- ===== src/Firestore/Query/Selection.antt =====
-- Which documents a query of Firestore selects.
use mcma_libraries.Prelude.{
  ◌≡◌, refl, sym, ap, ◌∙◌, subst, eq_iff, Option, none, some, if◌then◌else◌, Bool, true, false,
  ◌&&◌, ◌||◌, String, Result, ok, err, ◌>>=◌, ◌==◌, ◌⊎◌, not, Bool-cases, inl, inr,
}
use mcma_libraries.Queries.{
  FilterExpression, FilterList, criteria, group, nil, cons, any_of, all_of,
}
use mcma_libraries.Firestore.Query.{
  FirestoreQuery, firestore_operator, add_filter_criteria_to_query, add_filter_to_query,
  add_filters_to_query,
}

pub data Comparison : Type 0 where
  equal : Comparison
  not_equal : Comparison
  less : Comparison
  less_or_equal : Comparison
  greater : Comparison
  greater_or_equal : Comparison

abbrev ordering_of : String → Option Comparison → Option Comparison
ordering_of operator other =
    if operator == "<"
    then some less
    else if operator == "<="
    then some less_or_equal
    else if operator == ">"
    then some greater
    else if operator == ">="
    then some greater_or_equal
    else other

-- What the operators of a filter stand for, which
-- base/data/lib/document-database/query/operator.ts lists.
abbrev pub meaning_of : String → Option Comparison
meaning_of operator =
    ordering_of operator
      (if operator == "=" then some equal else if operator == "!=" then some not_equal else none)

-- What Firestore documents of the operators of `where` that compare a field with a value.
abbrev pub firestore_meaning_of : String → Option Comparison
firestore_meaning_of operator =
    ordering_of operator
      (if operator == "==" then some equal else if operator == "!=" then some not_equal else none)

-- An operator of a filter and the one that Firestore gets for it stand for the same.
meaning-firestore_operator :
    (operator : String) (c : Comparison)
    → meaning_of operator ≡ some c
    → firestore_meaning_of (firestore_operator operator) ≡ some c
meaning-firestore_operator operator c e = elim (Bool-cases (operator == "=")) [
  | inl same ↦
      let s : operator ≡ "=" = (eq_iff operator "=").0 same in
      subst (λ t. meaning_of t ≡ some c → firestore_meaning_of (firestore_operator t) ≡ some c)
        (sym s) (λ h. h) e
  | inr other ↦ elim (Bool-cases (operator == "==")) [
    | inl twice ↦
        let s : operator ≡ "==" = (eq_iff operator "==").0 twice in
        let h : none ≡ some c = subst (λ t. meaning_of t ≡ some c) s e in cc
    | inr single ↦
        let h : meaning_of operator
            ≡ ordering_of operator (if operator == "!=" then some not_equal else none) =
          rw other refl in
        rw other (rw single (sym h ∙ e))
  ]
]

-- What Firestore documents of `where`: with an operator that stands for a comparison, it adds that
-- condition on a field to those that the query has.
pub record Selects {Q V D : Type 0} (sdk : FirestoreQuery Q V) (selects : Q → D → Bool)
    (holds : String → Comparison → V → D → Bool) : Type 0 where
  pub where_selects :
      (name operator : String) (c : Comparison) (v : V) (q : Q) (d : D)
      → firestore_meaning_of operator ≡ some c
      → selects (sdk.where_field name operator v q) d ≡ (selects q d && holds name c v d)

module _ {V D : Type 0} (holds : String → Comparison → V → D → Bool) where
  abbrev compares : Option Comparison → String → V → D → Bool
  compares none name v d = false
  compares (some c) name v d = holds name c v d

  -- What a filter says of a document.
  unfoldable mutual
    pub satisfies : FilterExpression V → D → Bool
    satisfies (criteria name operator v) d = compares (meaning_of operator) name v d
    satisfies (group any_of children) d = satisfies_any children d
    satisfies (group all_of children) d = satisfies_all children d

    pub satisfies_any : FilterList V → D → Bool
    satisfies_any nil d = false
    satisfies_any (cons e es) d = satisfies e d || satisfies_any es d

    pub satisfies_all : FilterList V → D → Bool
    satisfies_all nil d = true
    satisfies_all (cons e es) d = satisfies e d && satisfies_all es d

module _ {V : Type 0} where
  abbrev mutual
    -- The operators of a filter are those that a filter may have.
    pub HasOperators : FilterExpression V → Type 0
    HasOperators (criteria name operator v) = (c : Comparison) × (meaning_of operator ≡ some c)
    HasOperators (group operator children) = HaveOperators children

    pub HaveOperators : FilterList V → Type 0
    HaveOperators nil = Unit
    HaveOperators (cons e es) = HasOperators e × HaveOperators es

module _ {V : Type 0} where
  -- The filters that Firestore has: those without the operator "!=" and without alternatives.
  unfoldable mutual
    pub is_supported : FilterExpression V → Bool
    is_supported (criteria name operator v) = not (operator == "!=")
    is_supported (group any_of children) = false
    is_supported (group all_of children) = are_supported children

    pub are_supported : FilterList V → Bool
    are_supported nil = true
    are_supported (cons e es) = is_supported e && are_supported es

module _ {Q V D : Type 0} {sdk : FirestoreQuery Q V} {selects : Q → D → Bool}
    {holds : String → Comparison → V → D → Bool} (laws : Selects sdk selects holds) where
  -- The query that a filter becomes selects what the query before selects and the filter admits.
  abbrev Filtered : (D → Bool) → Q → Result Q → Bool → Type 0
  Filtered meaning q (ok q') supported =
      (supported ≡ true) × ((d : D) → selects q' d ≡ (selects q d && meaning d))
  Filtered meaning q (err message) supported = supported ≡ false

  and_assoc : (a b c : Bool) → ((a && b) && c) ≡ (a && (b && c))
  and_assoc true b c = refl
  and_assoc false b c = refl

  and_true : (a : Bool) → a ≡ (a && true)
  and_true true = refl
  and_true false = refl

  both-Filtered :
      (first second : D → Bool) (q q' : Q) (r : Result Q) (supported : Bool)
      → ((d : D) → selects q' d ≡ (selects q d && first d))
      → Filtered second q' r supported
      → Filtered (λ d. first d && second d) q r supported
  both-Filtered first second q q' (err message) supported e unsupported = unsupported
  both-Filtered first second q q' (ok q'') supported e (good, f) = (
    good,
    λ d. f d ∙ ap (λ b. b && second d) (e d) ∙ and_assoc (selects q d) (first d) (second d),
  )

  chain-Filtered :
      (first second : D → Bool) (q : Q) (r : Result Q) (rest : Q → Result Q) (s t : Bool)
      → Filtered first q r s
      → ((q' : Q) → Filtered second q' (rest q') t)
      → Filtered (λ d. first d && second d) q (r >>= rest) (s && t)
  chain-Filtered first second q (err message) rest s t unsupported later = rw unsupported refl
  chain-Filtered first second q (ok q') rest s t (good, e) later =
      rw good (both-Filtered first second q q' (rest q') t e (later q'))

  mutual
    unfolding add_filter_to_query add_filter_criteria_to_query satisfies is_supported

    add_filter_to_query-Filtered :
        (e : FilterExpression V) (q : Q)
        → HasOperators e
        → Filtered (satisfies holds e) q (add_filter_to_query sdk e q) (is_supported e)
    add_filter_to_query-Filtered (criteria name operator v) q (c, known) =
        elim (Bool-cases (operator == "!=")) [
          | inl differs ↦ rw (differs, Filtered) (refl)
          | inr other ↦
              rw (other, Filtered)
                (
                  refl,
                  λ d.
                      laws.where_selects name (firestore_operator operator) c v q d
                        (meaning-firestore_operator operator c known)
                      ∙ ap (λ m. selects q d && compares holds m name v d) (sym known),
                )
        ]
    add_filter_to_query-Filtered (group any_of children) q known = refl
    add_filter_to_query-Filtered (group all_of children) q known =
        add_filters_to_query-Filtered children q known

    add_filters_to_query-Filtered :
        (es : FilterList V) (q : Q)
        → HaveOperators es
        → Filtered (satisfies_all holds es) q (add_filters_to_query sdk es q) (are_supported es)
    add_filters_to_query-Filtered nil q known = (refl, λ d. and_true (selects q d))
    add_filters_to_query-Filtered (cons e es) q (here, later) =
        chain-Filtered (satisfies holds e) (satisfies_all holds es) q (add_filter_to_query sdk e q)
          (add_filters_to_query sdk es) (is_supported e) (are_supported es)
          (add_filter_to_query-Filtered e q here) (λ q'. add_filters_to_query-Filtered es q' later)

  -- For a filter with the operators =, !=, <, <=, > and >=, adding it to a query throws just where the filter has the operator "!=" or alternatives.
  -- Else the new query selects the documents that the query selects and that satisfy the filter.
  pub add_filter_to_query-selects :
      (e : FilterExpression V) (q : Q)
      → HasOperators e
      → ((is_supported e ≡ false)
          × ((message : String) × (add_filter_to_query sdk e q ≡ err message)))
        ⊎ ((is_supported e ≡ true)
            × ((q' : Q) × (add_filter_to_query sdk e q ≡ ok q')
                × ((d : D) → selects q' d ≡ (selects q d && satisfies holds e d))))
  add_filter_to_query-selects e q known =
      outcome (add_filter_to_query sdk e q) (add_filter_to_query-Filtered e q known) refl
    where
      outcome :
          (r : Result Q)
          → Filtered (satisfies holds e) q r (is_supported e)
          → add_filter_to_query sdk e q ≡ r
          → ((is_supported e ≡ false)
              × ((message : String) × (add_filter_to_query sdk e q ≡ err message)))
            ⊎ ((is_supported e ≡ true)
                × ((q' : Q) × (add_filter_to_query sdk e q ≡ ok q')
                    × ((d : D) → selects q' d ≡ (selects q d && satisfies holds e d))))
      outcome (err message) unsupported r = inl (unsupported, (message, r))
      outcome (ok q') (good, f) r = inr (good, (q', r, f))
