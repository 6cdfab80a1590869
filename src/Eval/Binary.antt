-- ===== src/Eval/Binary.antt =====
-- `evalBinary`, on exact integers that stand for Go's int64.
use Prim.Native.Nat.{bit_and, bit_or, bit_xor}
use pawnlint.Base.{
  ℕ, suc, ◌*◌, ◌/◌, ◌%◌, ◌^◌, ◌<◌, ◌≡◌, Bool, true, false, ◌&&◌, ◌||◌, not, ℤ, pos, negsuc,
  pos_part, ◌+ℤ◌, ◌-ℤ◌, ◌*ℤ◌, ltb_ℤ, eqb_ℤ, Option, none, some, arith, if◌then◌else◌,
}
use pawnlint.Eval.Word.{word, signed, int64, cell, neg_ℤ, IsCell, cell-IsCell, signed-IsCell}

-- The operators that the evaluator tells apart; `+` and `-` are also unary.
pub data Operator : Type 0 where
  plus minus star slash percent shl shr ushr amp pipe caret and_and or_or : Operator
  eq not_eq lt gt lt_eq gt_eq bang tilde : Operator
  other_operator : Operator

unfoldable pub truth : Bool → ℤ
truth true = pos 1
truth false = pos 0

abbrev pub is_zero : ℤ → Bool
is_zero v = eqb_ℤ v (pos 0)

-- Division that rounds towards 0, and its remainder, for a divisor that is not 0.
unfoldable pub quot : ℤ → ℤ → ℤ
unfolding neg_ℤ
quot (pos a) (pos b) = pos (a / b)
quot (pos a) (negsuc b) = neg_ℤ (pos (a / suc b))
quot (negsuc a) (pos b) = neg_ℤ (pos (suc a / b))
quot (negsuc a) (negsuc b) = pos (suc a / suc b)

unfoldable pub rem : ℤ → ℤ → ℤ
unfolding neg_ℤ
rem (pos a) (pos b) = pos (a % b)
rem (pos a) (negsuc b) = pos (a % suc b)
rem (negsuc a) (pos b) = neg_ℤ (pos (suc a % b))
rem (negsuc a) (negsuc b) = neg_ℤ (pos (suc a % suc b))

-- A bitwise operation on two int64.
unfoldable pub bitwise : (ℕ → ℕ → ℕ) → ℤ → ℤ → ℤ
bitwise f a b = signed 64 (f (word 64 a) (word 64 b))

-- int32(left) >> right
unfoldable pub shift_right : ℤ → ℕ → ℤ
shift_right (pos n) k = pos (n / 2 ^ k)
shift_right (negsuc n) k = negsuc (n / 2 ^ k)

abbrev pub bad_count : ℤ → Bool
bad_count right = ltb_ℤ right (pos 0) || not (ltb_ℤ right (pos 32))

-- The values are int64, so sums, differences, products and quotients wrap to 64 bits.
unfoldable pub eval_binary : Operator → ℤ → ℤ → Option ℤ
eval_binary plus a b = some (cell (int64 (a +ℤ b)))
eval_binary minus a b = some (cell (int64 (a -ℤ b)))
eval_binary star a b = some (cell (int64 (a *ℤ b)))
eval_binary slash a b = if is_zero b then none else some (cell (int64 (quot a b)))
eval_binary percent a b = if is_zero b then none else some (cell (rem a b))
eval_binary shl a b =
    if bad_count b then none else some (signed 32 (word 32 a * 2 ^ pos_part b % 2 ^ 32))
eval_binary shr a b = if bad_count b then none else some (shift_right (cell a) (pos_part b))
eval_binary ushr a b = if bad_count b then none else some (signed 32 (word 32 a / 2 ^ pos_part b))
eval_binary amp a b = some (cell (bitwise bit_and a b))
eval_binary pipe a b = some (cell (bitwise bit_or a b))
eval_binary caret a b = some (cell (bitwise bit_xor a b))
eval_binary and_and a b = some (truth (not (is_zero a) && not (is_zero b)))
eval_binary or_or a b = some (truth (not (is_zero a) || not (is_zero b)))
eval_binary eq a b = some (truth (eqb_ℤ a b))
eval_binary not_eq a b = some (truth (not (eqb_ℤ a b)))
eval_binary lt a b = some (truth (ltb_ℤ a b))
eval_binary gt a b = some (truth (ltb_ℤ b a))
eval_binary lt_eq a b = some (truth (not (ltb_ℤ b a)))
eval_binary gt_eq a b = some (truth (not (ltb_ℤ a b)))
eval_binary bang a b = none
eval_binary tilde a b = none
eval_binary other_operator a b = none

shift_right-IsCell : (v : ℤ) (k : ℕ) → IsCell v → IsCell (shift_right v k)
unfolding shift_right
shift_right-IsCell (pos n) k h = omega arith
shift_right-IsCell (negsuc n) k h = omega arith

pub truth-IsCell : (b : Bool) → IsCell (truth b)
unfolding truth
truth-IsCell true = omega arith
truth-IsCell false = omega arith

word-lt : (v : ℤ) → word 32 v < 2 ^ 32
unfolding word
word-lt (pos n) = omega arith
word-lt (negsuc n) = omega arith

some-IsCell : (w v : ℤ) → IsCell w → some w ≡ some v → IsCell v
some-IsCell w v h e = let same : v ≡ w = cc in rw same h

guard-IsCell : (b : Bool) (w v : ℤ) → IsCell w → (if b then none else some w) ≡ some v → IsCell v
guard-IsCell true w v h e = cc
guard-IsCell false w v h e = some-IsCell w v h e

-- Whatever the operands, the result is the value of a cell.
pub eval_binary-IsCell : (op : Operator) (a b v : ℤ) → eval_binary op a b ≡ some v → IsCell v
unfolding eval_binary
eval_binary-IsCell plus a b v = some-IsCell _ v (cell-IsCell (int64 (a +ℤ b)))
eval_binary-IsCell minus a b v = some-IsCell _ v (cell-IsCell (int64 (a -ℤ b)))
eval_binary-IsCell star a b v = some-IsCell _ v (cell-IsCell (int64 (a *ℤ b)))
eval_binary-IsCell slash a b v =
    guard-IsCell (is_zero b) (cell (int64 (quot a b))) v (cell-IsCell (int64 (quot a b)))
eval_binary-IsCell percent a b v =
    guard-IsCell (is_zero b) (cell (rem a b)) v (cell-IsCell (rem a b))
eval_binary-IsCell shl a b v =
    guard-IsCell (bad_count b) _ v
      (signed-IsCell (word 32 a * 2 ^ pos_part b % 2 ^ 32) (omega arith))
eval_binary-IsCell shr a b v =
    guard-IsCell (bad_count b) _ v (shift_right-IsCell (cell a) (pos_part b) (cell-IsCell a))
eval_binary-IsCell ushr a b v =
    guard-IsCell (bad_count b) _ v
      (signed-IsCell (word 32 a / 2 ^ pos_part b) (omega (arith, word-lt a)))
eval_binary-IsCell amp a b v = some-IsCell _ v (cell-IsCell (bitwise bit_and a b))
eval_binary-IsCell pipe a b v = some-IsCell _ v (cell-IsCell (bitwise bit_or a b))
eval_binary-IsCell caret a b v = some-IsCell _ v (cell-IsCell (bitwise bit_xor a b))
eval_binary-IsCell and_and a b v =
    some-IsCell _ v (truth-IsCell (not (is_zero a) && not (is_zero b)))
eval_binary-IsCell or_or a b v = some-IsCell _ v (truth-IsCell (not (is_zero a) || not (is_zero b)))
eval_binary-IsCell eq a b v = some-IsCell _ v (truth-IsCell (eqb_ℤ a b))
eval_binary-IsCell not_eq a b v = some-IsCell _ v (truth-IsCell (not (eqb_ℤ a b)))
eval_binary-IsCell lt a b v = some-IsCell _ v (truth-IsCell (ltb_ℤ a b))
eval_binary-IsCell gt a b v = some-IsCell _ v (truth-IsCell (ltb_ℤ b a))
eval_binary-IsCell lt_eq a b v = some-IsCell _ v (truth-IsCell (not (ltb_ℤ b a)))
eval_binary-IsCell gt_eq a b v = some-IsCell _ v (truth-IsCell (not (ltb_ℤ a b)))
eval_binary-IsCell bang a b v = λ e. cc
eval_binary-IsCell tilde a b v = λ e. cc
eval_binary-IsCell other_operator a b v = λ e. cc
