-- ===== src/Eval/Literal.antt =====
-- `evalLiteral`: the integer literals of Pawn, read by strconv.ParseUint.
use pawnlint.Base.{
  ℕ, ◌+◌, ◌-◌, ◌*◌, ◌^◌, ◌≤◌, ◌<◌, ◌≡◌, ◌&&◌, ◌||◌, ℤ, pos, Option, none, some, Option-cases, inl,
  inr, [], ◌∷◌, Text, codes, ltb, leb, ◌==◌, arith, Bool-cases, ltb→lt, sym, drop, if◌then◌else◌,
}
use pawnlint.Strings.{has_prefix}
use pawnlint.Eval.Word.{signed, IsCell, signed-IsCell}

-- What the evaluator tells apart among the tokens of literals.
pub data Token : Type 0 where
  null : Token
  int : Text → Token
  other : Token

-- strings.ReplaceAll(text, "_", "")
unfoldable pub without_underscores : Text → Text
without_underscores [] = []
without_underscores (c ∷ s) = let rest = without_underscores s in if c == 95 then rest else c ∷ rest

-- The value of a digit of any base up to 36.
unfoldable pub digit : ℕ → Option ℕ
digit c =
    if leb 48 c && leb c 57
    then some (c - 48)
    else if leb 97 c && leb c 122
    then some (c - 87)
    else if leb 65 c && leb c 90
    then some (c - 55)
    else none

-- The digits of ParseUint: `none` for a digit that the base has not, or a value of 2^32 or more.
unfoldable pub parse_digits : ℕ → ℕ → Text → Option ℕ
parse_digits base n [] = some n
parse_digits base n (c ∷ s) = elim (digit c) [
  | none ↦ none
  | some d ↦
      let next = n * base + d in
      let rest = parse_digits base next s in if ltb d base && ltb next (2 ^ 32) then rest else none
]

-- strconv.ParseUint(text, base, 32) for a text that is not empty.
unfoldable pub parse_uint : ℕ → Text → Option ℕ
parse_uint base [] = none
parse_uint base (c ∷ s) = parse_digits base 0 (c ∷ s)

unfoldable pub parse_text : Text → Option ℕ
parse_text text =
    if has_prefix text (codes "0x") || has_prefix text (codes "0X")
    then parse_uint 16 (drop 2 text)
    else if has_prefix text (codes "0b") || has_prefix text (codes "0B")
    then parse_uint 2 (drop 2 text)
    else parse_uint 10 text

unfoldable pub eval_literal : Token → Option ℤ
eval_literal null = some (pos 0)
eval_literal (int text) = elim (parse_text (without_underscores text)) [
  | none ↦ none
  | some n ↦ some (signed 32 n)
]
eval_literal other = none

-- The number that digits spell behind `n`, however large.
abbrev pub horner : ℕ → ℕ → Text → Option ℕ
horner base n [] = some n
horner base n (c ∷ s) = elim (digit c) [
  | none ↦ none
  | some d ↦ if ltb d base then horner base (n * base + d) s else none
]

abbrev pub below_limit : Option ℕ → Option ℕ
below_limit none = none
below_limit (some n) = if ltb n (2 ^ 32) then some n else none

-- What has passed the limit stays beyond it.
horner_beyond :
    (base n : ℕ) (s : Text) → 0 < base → 2 ^ 32 ≤ n → below_limit (horner base n s) ≡ none
horner_beyond base n [] b h = ground arith
horner_beyond base n (c ∷ s) b h = elim (Option-cases (digit c)) [
  | inl bad ↦ rw (bad, horner, below_limit)
  | inr (d, good) ↦ elim (Bool-cases (ltb d base)) [
    | inl fits ↦
        rw (good, fits, horner, below_limit) (horner_beyond base (n * base + d) s b (grind arith))
    | inr past ↦ rw (good, past, horner, below_limit)
  ]
]

-- Checking the limit at each digit is checking the number that the whole text spells.
pub parse_digits-horner :
    (base n : ℕ) (s : Text)
    → 0 < base
    → n < 2 ^ 32
    → parse_digits base n s ≡ below_limit (horner base n s)
unfolding parse_digits
parse_digits-horner base n [] b h = ground arith
parse_digits-horner base n (c ∷ s) b h = elim (Option-cases (digit c)) [
  | inl bad ↦ rw (bad, parse_digits, horner, below_limit)
  | inr (d, good) ↦ elim (Bool-cases (ltb d base)) [
    | inr past ↦ rw (good, past, parse_digits, horner, below_limit)
    | inl fits ↦ elim (Bool-cases (ltb (n * base + d) (2 ^ 32))) [
      | inl small ↦
          rw (good, fits, small, parse_digits, horner, below_limit)
            (parse_digits-horner base (n * base + d) s b (ltb→lt _ _ small))
      | inr large ↦
          rw (good, fits, large, parse_digits, horner, below_limit)
            (sym (horner_beyond base (n * base + d) s b (ground (arith, large))))
    ]
  ]
]

parse_digits-lt :
    (base n : ℕ) (s : Text) (m : ℕ) → n < 2 ^ 32 → parse_digits base n s ≡ some m → m < 2 ^ 32
unfolding parse_digits
parse_digits-lt base n [] m h e = ground arith
parse_digits-lt base n (c ∷ s) m h e = elim (Option-cases (digit c)) [
  | inl bad ↦ absurd (ground (arith, bad))
  | inr (d, good) ↦ elim (Bool-cases (ltb d base && ltb (n * base + d) (2 ^ 32))) [
    | inl fits ↦
        parse_digits-lt base (n * base + d) s m (ground (arith, fits))
          (rw (good, fits, parse_digits) at e)
    | inr past ↦ absurd (ground (arith, good, past))
  ]
]

parse_uint-lt : (base : ℕ) (s : Text) (m : ℕ) → parse_uint base s ≡ some m → m < 2 ^ 32
unfolding parse_uint
parse_uint-lt base [] m e = cc
parse_uint-lt base (c ∷ s) m e = parse_digits-lt base 0 (c ∷ s) m (omega arith) e

parse_text-lt : (s : Text) (m : ℕ) → parse_text s ≡ some m → m < 2 ^ 32
unfolding parse_text
parse_text-lt s m e =
    ground
      (arith, parse_uint-lt 16 (drop 2 s) m, parse_uint-lt 2 (drop 2 s) m, parse_uint-lt 10 s m)

-- A literal has the value of a cell.
pub eval_literal-IsCell : (t : Token) (v : ℤ) → eval_literal t ≡ some v → IsCell v
unfolding eval_literal
eval_literal-IsCell null v e = let zero_v : v ≡ pos 0 = cc in rw zero_v (omega arith)
eval_literal-IsCell other v e = cc
eval_literal-IsCell (int text) v e = elim (Option-cases (parse_text (without_underscores text))) [
  | inl bad ↦ absurd (ground (arith, bad))
  | inr (n, good) ↦
      let value : v ≡ signed 32 n = ground (arith, good) in
      rw value (signed-IsCell n (parse_text-lt _ n good))
]
