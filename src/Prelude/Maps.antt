-- ===== src/Prelude/Maps.antt =====
-- Objects of the language with texts for keys, in the order in which the keys are added.
use Prim.Native.String.{String}
use mathlib.Core.Path.{◌≡◌, refl}
use mathlib.Core.Logic.{inl, inr}
use mathlib.Core.Bool.{false}
use mathlib.Core.Option.{Option, none, some}
use mathlib.Core.List.{List, [], ◌∷◌}
use text.Mathlib.TextEquality.{eq_iff}
use text.Mathlib.TextPositions.{eq_refl}
use mcma_libraries.Prelude.Tests.{if◌then◌else◌, Bool-cases}
use mcma_libraries.Prelude.Strings.{◌==◌}

module _ {ℓ} {A : Type ℓ} where
  -- `object[key] = value`
  abbrev pub set_key : String → A → List (String × A) → List (String × A)
  set_key key a [] = (key, a) ∷ []
  set_key key a ((k, b) ∷ entries) =
      let rest = set_key key a entries in if k == key then (key, a) ∷ entries else (k, b) ∷ rest

  -- `object[key]`, of what is its own.
  abbrev pub find_key : String → List (String × A) → Option A
  find_key key [] = none
  find_key key ((k, a) ∷ entries) =
      let rest = find_key key entries in if k == key then some a else rest

  pub find_key-set_key :
      (k : String) (a : A) (entries : List (String × A)) → find_key k (set_key k a entries) ≡ some a
  find_key-set_key k a [] = rw (eq_refl k) refl
  find_key-set_key k a ((j, b) ∷ entries) = elim (Bool-cases (j == k)) [
    | inl same ↦ rw (same, eq_refl k) refl
    | inr other ↦ rw (other, other) (find_key-set_key k a entries)
  ]

  pub find_key-set_key_other :
      (k other : String) (a : A) (entries : List (String × A))
      → (k == other) ≡ false
      → find_key other (set_key k a entries) ≡ find_key other entries
  find_key-set_key_other k other a [] apart = rw apart refl
  find_key-set_key_other k other a ((j, b) ∷ entries) apart = elim (Bool-cases (j == k)) [
    | inl same ↦ let e : j ≡ k = (eq_iff j k).0 same in rw (same, apart, e, apart) refl
    | inr differs ↦ elim (Bool-cases (j == other)) [
      | inl here ↦ rw (differs, here) refl
      | inr there ↦ rw (differs, there) (find_key-set_key_other k other a entries apart)
    ]
  ]
