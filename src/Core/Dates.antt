-- ===== src/Core/Dates.antt =====
-- base/core/lib/utils.ts: the texts that `isValidDateString` takes for dates. The regular expression
-- is run by hand, over the codes of the characters.
use mcma_libraries.Prelude.{
  ℕ, ◌≡◌, refl, Bool, true, false, ◌&&◌, ◌||◌, String, Option, none, some, List, [], ◌∷◌, leb,
  if◌then◌else◌,
}
use Prim.Native.Char.{code}

abbrev pub codes : String → List ℕ
codes String.[] = []
codes (String.◌∷◌ c s) = code c ∷ codes s

-- A class of characters, from the first to the last of them.
abbrev pub Class : Type 0
Class = ℕ × ℕ

abbrev pub is_in : Class → ℕ → Bool
is_in (low, high) c = leb low c && leb c high

abbrev pub only : ℕ → Class
only c = (c, c)

abbrev pub digit : Class
digit = (b'0', b'9')

-- `\d{4}-[01]\d-[0-3]\dT[0-2]\d:[0-5]\d`
abbrev pub to_minutes : List Class
to_minutes =
    digit
    ∷ digit
    ∷ digit
    ∷ digit
    ∷ only b'-'
    ∷ (b'0', b'1')
    ∷ digit
    ∷ only b'-'
    ∷ (b'0', b'3')
    ∷ digit
    ∷ only b'T'
    ∷ (b'0', b'2')
    ∷ digit
    ∷ only b':'
    ∷ (b'0', b'5')
    ∷ digit
    ∷ []

-- `:[0-5]\d`
abbrev pub seconds : List Class
seconds = only b':' ∷ (b'0', b'5') ∷ digit ∷ []

-- `[0-2]\d:[0-5]\d`
abbrev pub offset : List Class
offset = (b'0', b'2') ∷ digit ∷ only b':' ∷ (b'0', b'5') ∷ digit ∷ []

-- What follows the characters that fit the classes.
abbrev pub after_classes : List Class → List ℕ → Option (List ℕ)
after_classes [] s = some s
after_classes (k ∷ ks) [] = none
after_classes (k ∷ ks) (c ∷ s) = let rest = after_classes ks s in if is_in k c then rest else none

abbrev pub after_digits : List ℕ → List ℕ
after_digits [] = []
after_digits (c ∷ s) = let rest = after_digits s in if is_in digit c then rest else c ∷ s

abbrev pub is_end : Option (List ℕ) → Bool
is_end none = false
is_end (some []) = true
is_end (some (c ∷ s)) = false

-- `([+-][0-2]\d:[0-5]\d|Z)` and the end of the text.
abbrev pub is_zone : List ℕ → Bool
is_zone [] = false
is_zone (c ∷ s) =
    (is_in (only b'Z') c && is_end (some s))
    || ((is_in (only b'+') c || is_in (only b'-') c) && is_end (after_classes offset s))

-- `\.\d+` and the zone.
abbrev pub is_fraction : List ℕ → Bool
is_fraction (dot ∷ d ∷ s) = is_in (only b'.') dot && is_in digit d && is_zone (after_digits s)
is_fraction (dot ∷ []) = false
is_fraction [] = false

abbrev pub is_after_seconds : Option (List ℕ) → Bool
is_after_seconds none = false
is_after_seconds (some s) = is_fraction s || is_zone s

abbrev pub is_after_minutes : Option (List ℕ) → Bool
is_after_minutes none = false
is_after_minutes (some s) = is_after_seconds (after_classes seconds s) || is_zone s

-- `isValidDateString`
unfoldable pub is_valid_date_string : String → Bool
is_valid_date_string s = is_after_minutes (after_classes to_minutes (codes s))

common_date : is_valid_date_string "2020-01-01T00:00:00.000Z" ≡ true
unfolding is_valid_date_string
common_date = refl

a_day : is_valid_date_string "2020-01-01" ≡ false
unfolding is_valid_date_string
a_day = refl
