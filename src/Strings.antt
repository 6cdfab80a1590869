-- ===== src/Strings.antt =====
-- The functions of Go's package strings that the program calls, on texts as lists of bytes. Space
-- is Unicode's White_Space in UTF-8.
pub mod Laws
use pawnlint.Base.{
  ℕ, zero, suc, ◌+◌, Bool, true, false, ◌&&◌, ◌||◌, not, Option, none, some, List, [], ◌∷◌, ◌++◌,
  Text, ◌==◌, leb, ltb, ◌/◌, ◌%◌, text_eq, length, take, drop, if◌then◌else◌,
}
use mathlib.Core.List.{reverse}

-- '\t', '\n', '\v', '\f', '\r' and ' '.
unfoldable pub is_space : ℕ → Bool
is_space c = leb 9 c && leb c 13 || c == 32

-- The bytes are a space of Unicode, and nothing else: ASCII, U+0085 and U+00A0, U+1680, U+2000 to
-- U+200A, U+2028, U+2029, U+202F, U+205F, U+3000.
unfoldable pub is_space_rune : Text → Bool
unfolding is_space
is_space_rune [] = false
is_space_rune (a ∷ []) = is_space a
is_space_rune (a ∷ b ∷ []) = a == 194 && (b == 133 || b == 160)
is_space_rune (a ∷ b ∷ c ∷ []) =
    a == 225 && b == 154 && c == 128
    || a == 226 && b == 128 && (leb 128 c && leb c 138 || c == 168 || c == 169 || c == 175)
    || a == 226 && b == 129 && c == 159
    || a == 227 && b == 128 && c == 128
is_space_rune (a ∷ b ∷ c ∷ d ∷ s) = false

-- How many bytes the space takes that a text begins with; 0 if there is none.
unfoldable pub space_at : Text → ℕ
unfolding is_space_rune
space_at s =
    if is_space_rune (take 1 s)
    then 1
    else if is_space_rune (take 2 s)
    then 2
    else if is_space_rune (take 3 s)
    then 3
    else 0

-- The text without the bytes that are still to be skipped, and without the spaces behind them.
unfoldable pub trim_from : ℕ → Text → Text
unfolding space_at
trim_from k [] = []
trim_from (suc k) (c ∷ s) = trim_from k s
trim_from zero (c ∷ s) = elim (space_at (c ∷ s)) [ zero ↦ c ∷ s | suc k ↦ trim_from k s ]

unfoldable pub trim_left : Text → Text
unfolding trim_from
trim_left s = trim_from 0 s

-- The text without the spaces at its end.
unfoldable pub trim_right : Text → Text
unfolding is_space_rune
trim_right [] = []
trim_right (c ∷ s) = let rest = c ∷ trim_right s in if is_space_rune rest then [] else rest

unfoldable pub trim_space : Text → Text
unfolding trim_left trim_right
trim_space s = trim_right (trim_left s)

unfoldable pub has_prefix : Text → Text → Bool
has_prefix s [] = true
has_prefix [] (p ∷ ps) = false
has_prefix (c ∷ s) (p ∷ ps) = c == p && has_prefix s ps

unfoldable pub has_suffix : Text → Text → Bool
unfolding has_prefix
has_suffix s p = has_prefix (reverse s) (reverse p)

unfoldable pub trim_prefix : Text → Text → Text
unfolding has_prefix
trim_prefix s p = if has_prefix s p then drop (length p) s else s

unfoldable pub trim_suffix : Text → Text → Text
unfolding has_suffix
trim_suffix s p = if has_suffix s p then reverse (drop (length p) (reverse s)) else s

-- The first position of a text in another; `none` is Go's -1.
unfoldable pub index : Text → Text → Option ℕ
unfolding has_prefix
index [] sub = if has_prefix [] sub then some 0 else none
index (c ∷ s) sub =
    let later = index s sub in
    if has_prefix (c ∷ s) sub then some 0 else elim later [ none ↦ none | some i ↦ some (suc i) ]

-- strings.Split by one byte: never empty.
abbrev pub on_head : ℕ → List Text → List Text
on_head c [] = (c ∷ []) ∷ []
on_head c (part ∷ parts) = (c ∷ part) ∷ parts

unfoldable pub split : ℕ → Text → List Text
split sep [] = [] ∷ []
split sep (c ∷ s) = let parts = split sep s in if c == sep then [] ∷ parts else on_head c parts

-- strings.Join with a separator of one byte.
unfoldable pub join : ℕ → List Text → Text
join sep [] = []
join sep (part ∷ []) = part
join sep (part ∷ next ∷ parts) = part ++ sep ∷ join sep (next ∷ parts)

-- The fields of a text, without the bytes of a space that are still to be skipped, and whether the
-- first of them begins where the text does.
unfoldable pub fields_from : ℕ → Text → List Text × Bool
unfolding space_at
fields_from k [] = ([], false)
fields_from (suc k) (c ∷ s) = ((fields_from k s).0, false)
fields_from zero (c ∷ s) = elim (space_at (c ∷ s)) [
  | zero ↦
      let rest = fields_from 0 s in (if rest.1 then on_head c rest.0 else (c ∷ []) ∷ rest.0, true)
  | suc k ↦ ((fields_from k s).0, false)
]

-- strings.Fields
unfoldable pub fields : Text → List Text
unfolding fields_from
fields s = (fields_from 0 s).0

-- strconv.Itoa of a count; a number has fewer digits than it has predecessors, and one more.
unfoldable pub decimal : ℕ → ℕ → Text
decimal zero n = []
decimal (suc fuel) n =
    let higher = decimal fuel (n / 10) in
    if ltb n 10 then (48 + n) ∷ [] else higher ++ (48 + n % 10) ∷ []

unfoldable pub itoa : ℕ → Text
unfolding decimal
itoa n = decimal (suc n) n
