-- ===== src/Base/Fresh.antt =====
-- How many numbers below a bound fail a test: the measure of searches that mark what they visit.
use Prim.Native.Nat.{ℕ, zero, suc, ◌+◌, ◌≤◌, ◌<◌}
use mathlib.Core.Path.{◌≡◌, refl}
use mathlib.Core.Logic.{inl, inr}
use mathlib.Core.Bool.{Bool, false, ◌||◌}
use native.Mathlib.Omega.{arith}
use pawnlint.Base.Tests.{◌==◌, if◌then◌else◌, Bool-cases}

unfoldable pub fresh : ℕ → (ℕ → Bool) → ℕ
fresh zero p = 0
fresh (suc n) p = fresh n p + (if p n then 0 else 1)

abbrev pub mark : ℕ → (ℕ → Bool) → ℕ → Bool
mark s p = λ k. s == k || p k

fresh-mark_beyond : (n s : ℕ) (p : ℕ → Bool) → n ≤ s → fresh n (mark s p) ≡ fresh n p
unfolding fresh
fresh-mark_beyond zero s p h = refl
fresh-mark_beyond (suc n) s p h = ground (arith, fresh-mark_beyond n s p (omega arith))

pub fresh-mark : (n s : ℕ) (p : ℕ → Bool) → s < n → p s ≡ false → fresh n (mark s p) + 1 ≡ fresh n p
unfolding fresh
fresh-mark zero s p h v = absurd (omega arith)
fresh-mark (suc n) s p h v = elim (Bool-cases (s == n)) [
  | inl here ↦
      let same : s ≡ n = ground (arith, here) in
      ground (arith, here, same, fresh-mark_beyond n s p (omega arith), v)
  | inr further ↦ ground (arith, further, fresh-mark n s p (ground (arith, further)) v)
]

pub fresh-le : (n : ℕ) (p : ℕ → Bool) → fresh n p ≤ n
unfolding fresh
fresh-le zero p = omega arith
fresh-le (suc n) p = ground (arith, fresh-le n p)
