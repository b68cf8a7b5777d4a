-- ===== src/Prelude/Actions.antt =====
-- Code that changes a state and may throw. What it has changed stays changed when it throws.
use mcma_libraries.Prelude.Errors.{Result, ok, err}

abbrev pub Action : Type 0 → Type 0 → Type 0
Action S A = S → Result A × S

module _ {S A B : Type 0} where
  abbrev pub follow : Result A → (A → Action S B) → Action S B
  follow (ok a) next s = next a s
  follow (err e) next s = (err e, s)
