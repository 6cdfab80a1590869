-- ===== src/Eval/Arithmetic.antt =====
-- The evaluator's arithmetic against exact arithmetic.
use native.Mathlib.Nat.{div-add-mod}
use pawnlint.Base.{
  ℕ, zero, suc, ◌+◌, ◌<◌, ◌≤ℤ◌, pos_part, neg_part, ◌≡◌, ◌≢◌, refl, ap, ◌∙◌, false, ℤ, pos, negsuc,
  ◌+ℤ◌, ◌-ℤ◌, ◌*ℤ◌, eqb_ℤ, eqb_ℤ_iff, some, none, arith,
}
use pawnlint.Eval.Word.{int64, cell, neg_ℤ, IsCell, cell_of_IsCell, cell-int64}
use pawnlint.Eval.Binary.{plus, minus, star, slash, percent, quot, rem, eval_binary}

exact : (v : ℤ) → IsCell v → some (cell (int64 v)) ≡ some v
exact v h = ap some (cell-int64 v ∙ cell_of_IsCell v h)

-- A sum, a difference or a product of any two values is what int32 makes of the exact result:
-- neither wrapping to 64 bits first nor the sizes of the operands make a difference.
pub eval_binary_exact :
    (a b : ℤ)
    → (eval_binary plus a b ≡ some (cell (a +ℤ b)))
      × (eval_binary minus a b ≡ some (cell (a -ℤ b)))
      × (eval_binary star a b ≡ some (cell (a *ℤ b)))
unfolding eval_binary
eval_binary_exact a b =
    (ap some (cell-int64 (a +ℤ b)), ap some (cell-int64 (a -ℤ b)), ap some (cell-int64 (a *ℤ b)))

quot-rem : (a b : ℤ) → b ≢ pos 0 → quot a b *ℤ b +ℤ rem a b ≡ a
unfolding quot rem neg_ℤ ◌*ℤ◌ ◌+ℤ◌
quot-rem (pos a) (pos b) h = ground (arith, div-add-mod a b)
quot-rem (pos a) (negsuc b) h = ground (arith, div-add-mod a (suc b))
quot-rem (negsuc a) (pos b) h = ground (arith, div-add-mod (suc a) b)
quot-rem (negsuc a) (negsuc b) h = ground (arith, div-add-mod (suc a) (suc b))

-- The one quotient of cells that is no cell is that of the least value by -1.
abbrev pub Overflows : ℤ → ℤ → Type 0
Overflows a b = (a ≡ negsuc 2147483647) × (b ≡ negsuc 0)

quot-IsCell : (a b : ℤ) → IsCell a → b ≢ pos 0 → ¬ (Overflows a b) → IsCell (quot a b)
unfolding quot neg_ℤ
quot-IsCell (pos a) (pos b) h z o = ground (arith, div-add-mod a b)
quot-IsCell (pos a) (negsuc b) h z o = ground (arith, div-add-mod a (suc b))
quot-IsCell (negsuc a) (pos b) h z o = ground (arith, div-add-mod (suc a) b)
quot-IsCell (negsuc a) (negsuc zero) h z o =
    let not_least : a ≢ 2147483647 = λ e. o (ap negsuc e, refl) in ground arith
quot-IsCell (negsuc a) (negsuc (suc b)) h z o = omega (arith, div-add-mod (suc a) (suc (suc b)))

rem-IsCell : (a b : ℤ) → IsCell a → b ≢ pos 0 → IsCell (rem a b)
unfolding rem neg_ℤ
rem-IsCell (pos a) (pos b) h z = ground (arith, div-add-mod a b)
rem-IsCell (pos a) (negsuc b) h z = ground (arith, div-add-mod a (suc b))
rem-IsCell (negsuc a) (pos b) h z = ground (arith, div-add-mod (suc a) b)
rem-IsCell (negsuc a) (negsuc b) h z = ground (arith, div-add-mod (suc a) (suc b))

abbrev pub magnitude : ℤ → ℕ
magnitude v = pos_part v + neg_part v

rem_bound : (a b : ℤ) → b ≢ pos 0 → magnitude (rem a b) < magnitude b
unfolding rem neg_ℤ
rem_bound (pos a) (pos b) h = ground (arith, div-add-mod a b)
rem_bound (pos a) (negsuc b) h = ground (arith, div-add-mod a (suc b))
rem_bound (negsuc a) (pos b) h = ground (arith, div-add-mod (suc a) b)
rem_bound (negsuc a) (negsuc b) h = ground (arith, div-add-mod (suc a) (suc b))

-- A remainder has no sign other than the dividend's.
abbrev pub Follows : ℤ → ℤ → Type 0
Follows a r = (pos 0 ≤ℤ a → pos 0 ≤ℤ r) × (a ≤ℤ pos 0 → r ≤ℤ pos 0)

rem-Follows : (a b : ℤ) → Follows a (rem a b)
unfolding rem neg_ℤ
rem-Follows (pos zero) (pos b) = ((λ h. ground arith), (λ h. ground arith))
rem-Follows (pos zero) (negsuc b) = ((λ h. ground arith), (λ h. ground arith))
rem-Follows (pos (suc a)) (pos b) = ((λ h. ground arith), (λ h. ground arith))
rem-Follows (pos (suc a)) (negsuc b) = ((λ h. ground arith), (λ h. ground arith))
rem-Follows (negsuc a) (pos b) = ((λ h. ground arith), (λ h. ground arith))
rem-Follows (negsuc a) (negsuc b) = ((λ h. ground arith), (λ h. ground arith))

not_zero : (b : ℤ) → b ≢ pos 0 → eqb_ℤ b (pos 0) ≡ false
not_zero b h = ground (arith, eqb_ℤ_iff b (pos 0))

-- Division of a cell by a value other than 0, but for the least value by -1: the quotient times
-- the divisor and the remainder make up the dividend, the remainder is smaller than the divisor
-- in magnitude, and it is not of the sign that the dividend is not.
pub eval_division :
    (a b : ℤ)
    → IsCell a
    → b ≢ pos 0
    → ¬ (Overflows a b)
    → (q : ℤ) × (r : ℤ) × (eval_binary slash a b ≡ some q)
      × (eval_binary percent a b ≡ some r)
      × (q *ℤ b +ℤ r ≡ a)
      × (magnitude r < magnitude b)
      × Follows a r
unfolding eval_binary
eval_division a b h z o = (
  quot a b,
  rem a b,
  rw (not_zero b z) (exact (quot a b) (quot-IsCell a b h z o)),
  rw (not_zero b z) (ap some (cell_of_IsCell (rem a b) (rem-IsCell a b h z))),
  quot-rem a b z,
  rem_bound a b z,
  rem-Follows a b,
)

-- Division by 0 has no value, whatever the dividend.
pub eval_division_by_zero :
    (a : ℤ) → (eval_binary slash a (pos 0) ≡ none) × (eval_binary percent a (pos 0) ≡ none)
unfolding eval_binary
eval_division_by_zero a = (refl, refl)
