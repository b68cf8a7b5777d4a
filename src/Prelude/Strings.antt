-- ===== src/Prelude/Strings.antt =====
-- Tests on texts.
use Prim.Native.String.{String}
use mathlib.Core.Bool.{Bool, false, ◌||◌}
use mathlib.Core.List.{List, [], ◌∷◌}
use text.Mathlib.Text.{◌==◌ as str_eq}

infix 50 ◌==◌
abbrev pub ◌==◌ : String → String → Bool
a == b = str_eq a b

-- The empty text counts as false in a test of JavaScript.
abbrev pub is_empty : String → Bool
is_empty s = s == ""

abbrev pub any_equal : String → List String → Bool
any_equal s [] = false
any_equal s (t ∷ ts) = t == s || any_equal s ts
