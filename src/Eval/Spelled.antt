-- ===== src/Eval/Spelled.antt =====
-- `evalLiteral` against the notations of integer literals.
use pawnlint.Base.{
  ℕ, ◌-◌, ◌^◌, ◌≤◌, ◌<◌, ◌≡◌, ◌≢◌, ◌↔◌, refl, sym, ◌∙◌, ◌⊎◌, true, false, ℤ, pos, negsuc, ◌+ℤ◌,
  Option, none, some, Option-cases, inl, inr, [], ◌∷◌, ◌++◌, Text, codes, ltb, ◌==◌, arith,
  Bool-cases, drop, +ℤ_parts,
}
use pawnlint.Strings.{has_prefix}
use pawnlint.Eval.Word.{signed}
use pawnlint.Eval.Literal.{
  int, without_underscores, digit, parse_uint, parse_text, eval_literal, horner, below_limit,
  parse_digits-horner,
}

-- A text is a prefix and digits of a base: hexadecimal, binary, or decimal with no prefix.
abbrev pub Notation : Text → ℕ → Text → Type 0
Notation w base s =
    ((base ≡ 16) × (w ≡ codes "0x" ++ s))
    ⊎ ((base ≡ 16) × (w ≡ codes "0X" ++ s))
    ⊎ ((base ≡ 2) × (w ≡ codes "0b" ++ s))
    ⊎ ((base ≡ 2) × (w ≡ codes "0B" ++ s))
    ⊎ ((base ≡ 10) × (w ≡ s))

-- The cell with the bits of `n`: `n` itself, or `n` less 2^32.
abbrev pub IsWrapped : ℕ → ℤ → Type 0
IsWrapped n v = ((n < 2 ^ 31) × (v ≡ pos n)) ⊎ ((2 ^ 31 ≤ n) × (v +ℤ pos (2 ^ 32) ≡ pos n))

-- Without its underscores the text is some digits in a notation, which spell a number that 32
-- bits hold.
abbrev pub Spells : Text → ℕ → Type 0
Spells w n =
    (base : ℕ) × (s : Text) × Notation w base s
    × (s ≢ [])
    × (horner base 0 s ≡ some n)
    × (n < 2 ^ 32)

within : (o : Option ℕ) (n : ℕ) → (below_limit o ≡ some n) ↔ ((o ≡ some n) × (n < 2 ^ 32))
within none n = ((λ e. cc), (λ e. absurd (ground (arith, e.0))))
within (some m) n = (
  (λ e. (ground (arith, e), ground (arith, e))),
  (λ e. let same : m ≡ n = cc in ground (arith, same, e.1)),
)

parse_uint_iff :
    (base : ℕ) (s : Text) (n : ℕ)
    → 0 < base
    → (parse_uint base s ≡ some n) ↔ ((s ≢ []) × (horner base 0 s ≡ some n) × (n < 2 ^ 32))
unfolding parse_uint
parse_uint_iff base [] n b = ((λ e. absurd (cc)), (λ h. absurd (h.0 refl)))
parse_uint_iff base (c ∷ s) n b =
    let same = parse_digits-horner base 0 (c ∷ s) b (omega arith) in
    (
      (λ e.
          let (spelled, small) = (within (horner base 0 (c ∷ s)) n).0 (sym same ∙ e) in
          ((λ f. cc), spelled, small)),
      (λ (full, spelled, small). same ∙ (within (horner base 0 (c ∷ s)) n).1 (spelled, small)),
    )

prefix_split : (w : Text) (a b : ℕ) → has_prefix w (a ∷ b ∷ []) ≡ true → w ≡ a ∷ b ∷ drop 2 w
unfolding has_prefix
prefix_split [] a b h = cc
prefix_split (c ∷ []) a b h = absurd (ground (arith, h))
prefix_split (c ∷ d ∷ w) a b h =
    let first : c ≡ a = ground (arith, h) in let second : d ≡ b = ground (arith, h) in cc

-- A decimal number has no letter behind its first digit.
no_letter :
    (w : Text) (b d n : ℕ)
    → digit b ≡ some d
    → ltb d 10 ≡ false
    → horner 10 0 w ≡ some n
    → has_prefix w (48 ∷ b ∷ []) ≡ false
unfolding has_prefix
no_letter [] b d n h k e = refl
no_letter (x ∷ []) b d n h k e = ground arith
no_letter (x ∷ y ∷ w) b d n h k e = elim (Bool-cases (y == b)) [
  | inr apart ↦ ground (arith, apart)
  | inl same ↦
      let it : y ≡ b = ground (arith, same) in
      elim (Option-cases (digit x)) [
        | inl bad ↦ absurd (ground (arith, bad, e))
        | inr (g, good) ↦ absurd (ground (arith, good, e, rw (sym it) at h, k))
      ]
]

-- The branch that a notation takes.
parse_text-Notation :
    (w s : Text) (base n : ℕ)
    → Notation w base s
    → horner base 0 s ≡ some n
    → (0 < base) × (parse_text w ≡ parse_uint base s)
unfolding parse_text has_prefix digit
parse_text-Notation w s base n (inl (b, e)) h = (omega (arith, b), rw (b, e) refl)
parse_text-Notation w s base n (inr (inl (b, e))) h = (omega (arith, b), rw (b, e) refl)
parse_text-Notation w s base n (inr (inr (inl (b, e)))) h = (omega (arith, b), rw (b, e) refl)
parse_text-Notation w s base n (inr (inr (inr (inl (b, e))))) h = (omega (arith, b), rw (b, e) refl)
parse_text-Notation w s base n (inr (inr (inr (inr (b, e))))) h =
    let ten : horner 10 0 s ≡ some n = rw b at h in
    (
      omega (arith, b),
      rw (b, e)
          (ground (
            arith,
            no_letter s 120 33 n refl refl ten,
            no_letter s 88 33 n refl refl ten,
            no_letter s 98 11 n refl refl ten,
            no_letter s 66 11 n refl refl ten,
          )),
    )

Notation-parse_text :
    (w : Text)
    → (base : ℕ) × (s : Text) × Notation w base s × (0 < base) × (parse_text w ≡ parse_uint base s)
unfolding parse_text
Notation-parse_text w = elim (Bool-cases (has_prefix w (codes "0x"))) [
  | inl x ↦ (16, drop 2 w, inl (refl, prefix_split w 48 120 x), omega arith, ground (arith, x))
  | inr no_x ↦ elim (Bool-cases (has_prefix w (codes "0X"))) [
    | inl x ↦
        (16, drop 2 w, inr (inl (refl, prefix_split w 48 88 x)), omega arith, ground (arith, x))
    | inr no_X ↦ elim (Bool-cases (has_prefix w (codes "0b"))) [
      | inl b ↦ (
        2,
        drop 2 w,
        inr (inr (inl (refl, prefix_split w 48 98 b))),
        omega arith,
        ground (arith, no_x, no_X, b),
      )
      | inr no_b ↦ elim (Bool-cases (has_prefix w (codes "0B"))) [
        | inl b ↦ (
          2,
          drop 2 w,
          inr (inr (inr (inl (refl, prefix_split w 48 66 b)))),
          omega arith,
          ground (arith, no_x, no_X, b),
        )
        | inr no_B ↦ (
          10,
          w,
          inr (inr (inr (inr (refl, refl)))),
          omega arith,
          ground (arith, no_x, no_X, no_b, no_B),
        )
      ]
    ]
  ]
]

parse_text_iff : (w : Text) (n : ℕ) → (parse_text w ≡ some n) ↔ Spells w n
parse_text_iff w n = (
  (λ e.
      let (base, s, written, b, same) = Notation-parse_text w in
      let (full, spelled, small) = (parse_uint_iff base s n b).0 (sym same ∙ e) in
      (base, s, written, full, spelled, small)),
  (λ (base, s, written, full, spelled, small).
      let (b, same) = parse_text-Notation w s base n written spelled in
      same ∙ (parse_uint_iff base s n b).1 (full, spelled, small)),
)

signed-IsWrapped : (n : ℕ) (v : ℤ) → n < 2 ^ 32 → signed 32 n ≡ v → IsWrapped n v
unfolding signed ◌+ℤ◌
signed-IsWrapped n v h e = elim (Bool-cases (ltb n (2 ^ 31))) [
  | inl low ↦ inl (ground (arith, low), ground (arith, low, e))
  | inr high ↦
      let it : v ≡ negsuc (2 ^ 32 - 1 - n) = ground (arith, high, e) in
      inr (ground (arith, high), rw it (ground (arith, h)))
]

signed_iff : (n : ℕ) (v : ℤ) → n < 2 ^ 32 → (signed 32 n ≡ v) ↔ IsWrapped n v
unfolding signed ◌+ℤ◌
signed_iff n v h = (
  (λ e. signed-IsWrapped n v h e),
  (λ w. elim w [
    | inl (low, e) ↦ ground (arith, low, e)
    | inr (high, e) ↦ ground (arith, high, h, +ℤ_parts v (pos (2 ^ 32)), e)
  ]),
)

-- An integer literal has the value `v` exactly if, without its underscores, it is at least one
-- digit behind 0x or 0X of base 16, behind 0b or 0B of base 2, or else of base 10, the digits spell
-- a number below 2^32, and `v` is that number, less 2^32 if it is 2^31 or more.
pub eval_literal_iff :
    (text : Text) (v : ℤ)
    → (eval_literal (int text) ≡ some v)
      ↔ ((n : ℕ) × Spells (without_underscores text) n × IsWrapped n v)
unfolding eval_literal
eval_literal_iff text v = (
  (λ e. elim (Option-cases (parse_text (without_underscores text))) [
    | inl bad ↦ absurd (ground (arith, bad, e))
    | inr (n, good) ↦
        let spells = (parse_text_iff (without_underscores text) n).0 good in
        let wrapped : signed 32 n ≡ v = ground (arith, good, e) in
        (n, spells, (signed_iff n v (spells.5)).0 wrapped)
  ]),
  (λ (n, spells, wrapped).
      let good = (parse_text_iff (without_underscores text) n).1 spells in
      let value = (signed_iff n v (spells.5)).1 wrapped in ground (arith, good, value)),
)
