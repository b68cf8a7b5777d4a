-- ===== src/Client/Auth.antt =====
-- base/client/lib/auth/auth-provider.ts: the authenticators by type, for any type of these. The case
-- of letters is a parameter. Object keys are in the order in which they are added, as they are for
-- names that are no numbers.
pub mod Lookup
use mcma_libraries.Prelude.{
  Bool, true, false, String, Option, none, some, List, [], ◌∷◌, Result, ok, err, ◌==◌, set_key,
  find_key, is_empty, if◌then◌else◌,
}
use Prim.Native.String.{◌++◌}

abbrev pub already : String → String
already auth_type = "Auth type '" ++ auth_type ++ "' has already been registered."

module _ {A : Type 0} where
  abbrev only_one : A → List (String × A) → Option A
  only_one a [] = some a
  only_one a (_ ∷ _) = none

  unfoldable pub get_default : List (String × A) → Option A
  get_default [] = none
  get_default ((k, a) ∷ rest) = only_one a rest

  abbrev added : String → Option A → List (String × A) → Result (List (String × A))
  added auth_type (some a) types = ok (set_key auth_type a types)
  added auth_type none types = err "authenticator must have a sign function."

  -- `add` with a registration.
  unfoldable pub add_registration : String → A → List (String × A) → List (String × A)
  add_registration auth_type a types = set_key auth_type a types

  module _ (lower_case : String → String) where
    -- The first key that is the same but for the case of its letters.
    abbrev pub find_type : String → List (String × A) → Option String
    find_type auth_type [] = none
    find_type auth_type ((k, a) ∷ types) =
        let rest = find_type auth_type types in
        if lower_case k == lower_case auth_type then some k else rest

    authenticator_at : List (String × A) → Option String → Option A
    authenticator_at types none = none
    authenticator_at types (some k) = if is_empty k then none else find_key k types

    -- `get`, where no type is the empty one.
    unfoldable pub get_authenticator : String → List (String × A) → Option A
    unfolding authenticator_at
    get_authenticator auth_type types = authenticator_at types (find_type auth_type types)

    -- The key that is found is one that counts as true where it is not empty.
    registered : String → Option A → List (String × A) → Option String → Result (List (String × A))
    registered auth_type a types (some k) =
        if is_empty k then added auth_type a types else err (already auth_type)
    registered auth_type a types none = added auth_type a types

    -- `add` with a type and an authenticator, which is `none` if it has no function to sign.
    unfoldable pub add_authenticator :
        String → Option A → List (String × A) → Result (List (String × A))
    unfolding registered
    add_authenticator auth_type a types = registered auth_type a types (find_type auth_type types)
