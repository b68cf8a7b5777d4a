-- ===== src/Client/Auth/Lookup.antt =====
-- What the provider of authenticators finds.
use mcma_libraries.Prelude.{
  ◌≡◌, refl, sym, ap, ◌∙◌, true, false, String, none, some, List, [], ◌∷◌, ok, err, ◌==◌, eq_iff,
  is_empty, Bool-cases, Option-cases, inl, inr, All, set_key, find_key-set_key,
}
use mcma_libraries.Client.Auth.{
  already, find_type, authenticator_at, get_authenticator, registered, add_registration,
  add_authenticator,
}

module _ (lower_case : String → String) where
  apart :
      (j k asked : String)
      → (lower_case j == lower_case k) ≡ false
      → (lower_case k == lower_case asked) ≡ true
      → ((j == k) ≡ false) × ((lower_case j == lower_case asked) ≡ false)
  apart j k asked other same =
      let e : lower_case k ≡ lower_case asked = (eq_iff _ _).0 same in
      (
        elim (Bool-cases (j == k)) [
          | inl alike ↦ cc ((eq_iff j k).0 alike, other)
          | inr differs ↦ differs
        ],
        ap (λ t. lower_case j == t) (sym e) ∙ other,
      )

module _ {A : Type 0} where
  -- No type is the empty one.
  abbrev pub AllNamed : List (String × A) → Type 0
  AllNamed = All (λ entry. is_empty entry.0 ≡ false)

  module _ (lower_case : String → String) where
    find_type-set_key :
        (k asked : String) (a : A) (types : List (String × A))
        → find_type lower_case k types ≡ none
        → (lower_case k == lower_case asked) ≡ true
        → find_type lower_case asked (set_key k a types) ≡ some k
    find_type-set_key k asked a [] absent same = rw same refl
    find_type-set_key k asked a ((j, b) ∷ types) absent same =
        elim (Bool-cases (lower_case j == lower_case k)) [
          | inl found ↦
              let e : find_type lower_case k ((j, b) ∷ types) ≡ some j = rw found refl in
              cc (e, absent)
          | inr other ↦
              let (differs, later) = apart lower_case j k asked other same in
              let e : find_type lower_case k ((j, b) ∷ types) ≡ find_type lower_case k types =
                rw other refl in
              rw (differs, later) (find_type-set_key k asked a types (sym e ∙ absent) same)
        ]

    find_type-named :
        (asked k : String) (types : List (String × A))
        → AllNamed types
        → find_type lower_case asked types ≡ some k
        → is_empty k ≡ false
    find_type-named asked k [] named h = cc
    find_type-named asked k ((j, b) ∷ types) (there, named) h =
        elim (Bool-cases (lower_case j == lower_case asked)) [
          | inl found ↦
              let e : find_type lower_case asked ((j, b) ∷ types) ≡ some j = rw found refl in
              let same : j ≡ k = cc (e, h) in ap is_empty (sym same) ∙ there
          | inr other ↦
              let e : find_type lower_case asked ((j, b) ∷ types)
                  ≡ find_type lower_case asked types =
                rw other refl in
              find_type-named asked k types named (sym e ∙ h)
        ]

    add_authenticator-absent :
        (k : String) (a : A) (types types' : List (String × A))
        → AllNamed types
        → add_authenticator lower_case k (some a) types ≡ ok types'
        → (find_type lower_case k types ≡ none) × (set_key k a types ≡ types')
    unfolding add_authenticator registered
    add_authenticator-absent k a types types' named h =
        elim (Option-cases (find_type lower_case k types)) [
          | inl absent ↦
              let e : add_authenticator lower_case k (some a) types ≡ ok (set_key k a types) =
                rw absent refl in
              (absent, cc (e, h))
          | inr (j, found) ↦
              let there = find_type-named k j types named found in
              let e : add_authenticator lower_case k (some a) types ≡ err (already k) =
                rw (found, there) refl in
              cc (e, h)
        ]

    -- `types'` is what `add` makes of `types`: with a registration, where no type is there that is
    -- the same but for the case of its letters; or with a type and an authenticator, where it does
    -- not throw and no type is the empty one.
    pub data Added (k : String) (a : A) (types types' : List (String × A)) : Type 0 where
      by_registration :
          find_type lower_case k types ≡ none
          → add_registration k a types ≡ types'
          → Added k a types types'
      by_type :
          AllNamed types
          → add_authenticator lower_case k (some a) types ≡ ok types'
          → Added k a types types'

    Added-absent :
        (k : String) (a : A) (types types' : List (String × A))
        → Added k a types types'
        → (find_type lower_case k types ≡ none) × (set_key k a types ≡ types')
    unfolding add_registration
    Added-absent k a types types' (by_registration absent made) = (absent, made)
    Added-absent k a types types' (by_type named h) =
        add_authenticator-absent k a types types' named h

    -- Where an authenticator is added for a type that is not the empty one, by a registration where no
    -- type is there that is the same but for the case of its letters, or by a call with the type that
    -- does not throw, the provider gives it to all who ask for the type, in capitals or small letters.
    pub get-add_authenticator :
        (k asked : String) (a : A) (types types' : List (String × A))
        → is_empty k ≡ false
        → Added k a types types'
        → (lower_case k == lower_case asked) ≡ true
        → get_authenticator lower_case asked types' ≡ some a
    unfolding get_authenticator authenticator_at
    get-add_authenticator k asked a types types' there h same =
        let (absent, made) = Added-absent k a types types' h in
        let found : find_type lower_case asked (set_key k a types) ≡ some k =
          find_type-set_key k asked a types absent same in
        ap (get_authenticator lower_case asked) (sym made)
        ∙ rw (found, there) (find_key-set_key k a types)
