-- ===== src/Eval/Word.antt =====
-- Go's int64, int32 and uint32 on exact integers.
use pawnlint.Base.{
  ℕ, zero, suc, ◌-◌, ◌%◌, ◌^◌, ◌<◌, ◌≡◌, ℤ, pos, negsuc, ◌≤ℤ◌, ltb, arith, if◌then◌else◌,
}

-- The bit pattern of an integer in `w` bits.
unfoldable pub word : ℕ → ℤ → ℕ
word w (pos n) = n % 2 ^ w
word w (negsuc n) = 2 ^ w - 1 - n % 2 ^ w

-- The integer that a bit pattern stands for in two's complement.
unfoldable pub signed : ℕ → ℕ → ℤ
signed w u = if ltb u (2 ^ (w - 1)) then pos u else negsuc (2 ^ w - 1 - u)

-- int64(x) of a result that may not fit.
unfoldable pub int64 : ℤ → ℤ
unfolding word signed
int64 v = signed 64 (word 64 v)

-- `cell`: int64(int32(value))
unfoldable pub cell : ℤ → ℤ
unfolding word signed
cell v = signed 32 (word 32 v)

unfoldable pub neg_ℤ : ℤ → ℤ
neg_ℤ (pos zero) = pos 0
neg_ℤ (pos (suc n)) = negsuc n
neg_ℤ (negsuc n) = pos (suc n)

-- ^value
unfoldable pub complement : ℤ → ℤ
complement (pos n) = negsuc n
complement (negsuc n) = pos n

-- The values of a Pawn cell.
abbrev pub IsCell : ℤ → Type 0
IsCell v = (negsuc 2147483647 ≤ℤ v) × (v ≤ℤ pos 2147483647)

pub cell-IsCell : (v : ℤ) → IsCell (cell v)
unfolding cell
cell-IsCell (pos n) = ground arith
cell-IsCell (negsuc n) = ground arith

pub cell_of_IsCell : (v : ℤ) → IsCell v → cell v ≡ v
unfolding cell
cell_of_IsCell (pos n) h = ground arith
cell_of_IsCell (negsuc n) h = ground arith

pub int64_of_IsCell : (v : ℤ) → IsCell v → int64 v ≡ v
unfolding int64
int64_of_IsCell (pos n) h = ground arith
int64_of_IsCell (negsuc n) h = ground arith

-- Wrapping to 64 bits first does not change the cell.
pub cell-int64 : (v : ℤ) → cell (int64 v) ≡ cell v
unfolding cell int64
cell-int64 (pos n) = ground arith
cell-int64 (negsuc n) = ground arith

pub signed-IsCell : (u : ℕ) → u < 2 ^ 32 → IsCell (signed 32 u)
unfolding signed
signed-IsCell u h = ground arith
