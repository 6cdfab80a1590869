-- ===== src/Complexity/Saturation/Product.antt =====
-- The two saturating operations against + and *.
use native.Mathlib.Nat.{div-add-mod, mod-lt, mul-le-mul_right, mul-lt-mul_of_pos_right, div-le_self}
use pawnlint.Base.{
  ℕ, ◌+◌, ◌-◌, ◌*◌, ◌/◌, ◌≤◌, ◌<◌, ◌≡◌, refl, sym, true, false, ◌⊎◌, inl, inr, Bool-cases, leb,
  arith,
}
use pawnlint.Complexity.{npath_complexity_limit, npath_add, npath_multiply}

-- Below the limit the measure is exact; at the limit the exact one is at least half of it.
abbrev pub Saturates : ℕ → ℕ → Type 0
Saturates measure exact =
    ((measure ≡ npath_complexity_limit) × (npath_complexity_limit ≤ 2 * exact))
    ⊎ ((measure ≡ exact) × (exact < npath_complexity_limit))

-- The same of paths, of which there is always one.
abbrev pub Counts : ℕ → ℕ → Type 0
Counts measure exact = (1 ≤ measure) × Saturates measure exact

pub npath_add-Saturates :
    (a b e f : ℕ) → Saturates a e → Saturates b f → Saturates (npath_add a b) (e + f)
unfolding npath_add
npath_add-Saturates a b e f (inl h) k = inl (ground arith, omega arith)
npath_add-Saturates a b e f (inr h) (inl k) = inl (ground arith, omega arith)
npath_add-Saturates a b e f (inr h) (inr k) =
    elim (Bool-cases (leb (npath_complexity_limit - b) a)) [
      | inl full ↦ rw full (inl (refl, ground (arith, full)))
      | inr fits ↦ rw fits (inr (omega arith, ground (arith, fits)))
    ]

pub npath_add-Counts : (a b e f : ℕ) → Counts a e → Saturates b f → Counts (npath_add a b) (e + f)
unfolding npath_add
npath_add-Counts a b e f h k = (ground (arith, h.0), npath_add-Saturates a b e f h.1 k)

le-mul : (x y : ℕ) → 1 ≤ y → x ≤ x * y
le-mul x y h = grind arith

le-mul_left : (x y : ℕ) → 1 ≤ x → y ≤ x * y
le-mul_left x y h = grind arith

-- What a product is, as the quotient by one factor tells.
product_beyond : (l a b : ℕ) → 1 ≤ a → 1 ≤ b → l / b ≤ a → l ≤ 2 * (a * b)
product_beyond l a b ha hb h =
    omega (arith, div-add-mod l b, mod-lt l hb, mul-le-mul_right b h, le-mul_left a b ha)

product_within : (l a b : ℕ) → 1 ≤ b → a < l / b → a * b < l
product_within l a b hb h =
    let below : a * b < (l / b) * b = mul-lt-mul_of_pos_right h hb in
    omega (arith, div-add-mod l b, below)

npath_multiply_full :
    (a b : ℕ)
    → 1 ≤ a
    → 1 ≤ b
    → leb (npath_complexity_limit / b) a ≡ true
    → npath_multiply a b ≡ npath_complexity_limit
unfolding npath_multiply
npath_multiply_full a b ha hb full = ground (arith, full)

npath_multiply_fits :
    (a b : ℕ)
    → 1 ≤ a
    → 1 ≤ b
    → leb (npath_complexity_limit / b) a ≡ false
    → npath_multiply a b ≡ a * b
unfolding npath_multiply
npath_multiply_fits a b ha hb fits = ground (arith, fits)

Saturates-half : (a e : ℕ) → 1 ≤ a → Saturates a e → (1 ≤ e) × (a ≤ 2 * e)
Saturates-half a e ha (inl h) = (omega arith, omega arith)
Saturates-half a e ha (inr h) = (omega arith, omega arith)

product_at_limit :
    (a b e f : ℕ)
    → Counts a e
    → Counts b f
    → npath_complexity_limit / b ≤ a
    → npath_complexity_limit ≤ 2 * (e * f)
product_at_limit a b e f (ha, inl h) (hb, k) le =
    omega (arith, le-mul e f (Saturates-half b f hb k).0)
product_at_limit a b e f (ha, inr h) (hb, inl k) le =
    omega (arith, le-mul_left e f (Saturates-half a e ha (inr h)).0)
product_at_limit a b e f (ha, inr h) (hb, inr k) le =
    let same_a : a ≡ e = h.0 in
    let same_b : b ≡ f = k.0 in
    rw (sym same_a, sym same_b) (product_beyond npath_complexity_limit a b ha hb le)

product_below :
    (a b e f : ℕ)
    → Counts a e
    → Counts b f
    → a < npath_complexity_limit / b
    → (a * b ≡ e * f) × (e * f < npath_complexity_limit)
product_below a b e f (ha, inl h) (hb, k) lt =
    absurd (omega (arith, div-le_self npath_complexity_limit b))
product_below a b e f (ha, inr h) (hb, inl k) lt =
    absurd (omega (arith, product_within npath_complexity_limit a b hb lt, le-mul_left a b ha))
product_below a b e f (ha, inr h) (hb, inr k) lt =
    let same_a : a ≡ e = h.0 in
    let same_b : b ≡ f = k.0 in
    rw (sym same_a, sym same_b) (refl, product_within npath_complexity_limit a b hb lt)

npath_multiply-Saturates :
    (a b e f : ℕ) → Counts a e → Counts b f → Saturates (npath_multiply a b) (e * f)
npath_multiply-Saturates a b e f h k =
    let he = Saturates-half a e h.0 h.1 in
    let hf = Saturates-half b f k.0 k.1 in
    elim (Bool-cases (leb (npath_complexity_limit / b) a)) [
      | inl full ↦
          rw (npath_multiply_full a b h.0 k.0 full)
            (inl (refl, product_at_limit a b e f h k (ground (arith, full))))
      | inr fits ↦
          rw (npath_multiply_fits a b h.0 k.0 fits)
            (inr (product_below a b e f h k (ground (arith, fits))))
    ]

npath_multiply_pos : (a b : ℕ) → 1 ≤ a → 1 ≤ b → 1 ≤ npath_multiply a b
npath_multiply_pos a b ha hb = elim (Bool-cases (leb (npath_complexity_limit / b) a)) [
  | inl full ↦ rw (npath_multiply_full a b ha hb full) (omega arith)
  | inr fits ↦ rw (npath_multiply_fits a b ha hb fits) (omega (arith, le-mul a b hb))
]

pub npath_multiply-Counts :
    (a b e f : ℕ) → Counts a e → Counts b f → Counts (npath_multiply a b) (e * f)
npath_multiply-Counts a b e f h k =
    (npath_multiply_pos a b h.0 k.0, npath_multiply-Saturates a b e f h k)
