-- ===== src/Go/Strings.antt =====
-- Go's package strings, and the tests that the program's regular expressions come to.
use Prim.Native.Char.{Char, code}
use Prim.Native.String.{String, [], ◌∷◌, len, slice}
use mathlib.Core.List.{List, [] as []ᴸ, ◌∷◌ as ◌∷ᴸ◌}
use text.Mathlib.Text.{starts_with, find?}
use libretto.Base.{
  ℕ, Bool, true, false, Option, none, some, equal, ltb, ◌==◌, ◌-◌, ◌+◌, ◌*◌, ◌||◌, ◌&&◌, not,
  if◌then◌else◌,
}

unfoldable pub contains : String → String → Bool
contains s t = elim (find? s t) [ some at ↦ true | none ↦ false ]

unfoldable pub has_suffix : String → String → Bool
has_suffix s t = slice s (len s - len t) (len s) == t

unfoldable pub trim_prefix : String → String → String
trim_prefix s t = if starts_with s t then slice s (len t) (len s) else s

unfoldable pub trim_suffix : String → String → String
unfolding has_suffix
trim_suffix s t = if has_suffix s t then slice s 0 (len s - len t) else s

within : ℕ → ℕ → ℕ → Bool
within low high n = not (ltb n low) && not (ltb high n)

-- unicode.IsSpace.
unfoldable pub is_space : Char → Bool
unfolding within
is_space c =
    let n = code c in
    within 9 13 n
    || equal n 32
    || equal n 133
    || equal n 160
    || equal n 5760
    || within 8192 8202 n
    || equal n 8232
    || equal n 8233
    || equal n 8239
    || equal n 8287
    || equal n 12288

trim_left : String → String
unfolding is_space
trim_left [] = ""
trim_left (c ∷ s) = let rest = trim_left s in if is_space c then rest else c ∷ s

trim_right : String → String
unfolding is_space
trim_right [] = ""
trim_right (c ∷ s) = let rest = trim_right s in if is_space c && (rest == "") then "" else c ∷ rest

unfoldable pub trim_space : String → String
unfolding trim_left trim_right
trim_space s = trim_right (trim_left s)

-- A character in front of the first text.
unfoldable pub in_front : Char → List String → List String
in_front c []ᴸ = (c ∷ "") ∷ᴸ []ᴸ
in_front c (s ∷ᴸ rest) = (c ∷ s) ∷ᴸ rest

-- strings.Split at one character, which is given by its number.
unfoldable pub split : ℕ → String → List String
unfolding in_front
split sep [] = "" ∷ᴸ []ᴸ
split sep (c ∷ s) =
    let rest = split sep s in if equal (code c) sep then "" ∷ᴸ rest else in_front c rest

abbrev pub lines : String → List String
lines s = split 10 s

-- The texts in front of the first and of the last place of another text, which is not empty.
unfoldable pub before : String → String → Option String
before s t = elim (find? s t) [ some at ↦ some (slice s 0 at) | none ↦ none ]

unfoldable pub before_last : String → String → Option String
before_last [] t = none
before_last (c ∷ s) t = elim (before_last s t) [
  | some front ↦ some (c ∷ front)
  | none ↦ if starts_with (c ∷ s) t then some "" else none
]

-- The text behind the first place of another text.
unfoldable pub after : String → String → Option String
after s t = elim (find? s t) [ some at ↦ some (slice s (at + len t) (len s)) | none ↦ none ]

unfoldable pub is_digit : Char → Bool
unfolding within
is_digit c = within 48 57 (code c)

-- The digits that a text begins with.
unfoldable pub digits : String → String
unfolding is_digit
digits [] = ""
digits (c ∷ s) = let rest = digits s in if is_digit c then c ∷ rest else ""

-- strconv.Atoi of digits.
value : ℕ → String → Option ℕ
unfolding is_digit
value n [] = some n
value n (c ∷ s) = let rest = value (10 * n + (code c - 48)) s in if is_digit c then rest else none

unfoldable pub atoi : String → Option ℕ
unfolding value
atoi [] = none
atoi (c ∷ s) = value 0 (c ∷ s)
