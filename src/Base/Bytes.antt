-- ===== src/Base/Bytes.antt =====
-- Go's strings as lists of bytes, with their equality and their order byte by byte.
use Prim.Native.Nat.{ℕ}
use Prim.Native.Char.{code}
use Prim.Native.String.{String}
use mathlib.Core.Path.{◌≡◌, refl}
use mathlib.Core.Logic.{◌↔◌}
use mathlib.Core.Bool.{Bool, true, false, ◌&&◌}
use mathlib.Core.List.{List, [], ◌∷◌}
use native.Mathlib.Omega.{arith}
use pawnlint.Base.Tests.{ltb, ◌==◌, if◌then◌else◌}

abbrev pub Text : Type 0
Text = List ℕ

-- The bytes of an ASCII literal.
abbrev pub codes : String → Text
codes String.[] = []
codes (String.◌∷◌ c s) = code c ∷ codes s

unfoldable pub text_eq : Text → Text → Bool
text_eq [] [] = true
text_eq [] (b ∷ t) = false
text_eq (a ∷ s) [] = false
text_eq (a ∷ s) (b ∷ t) = a == b && text_eq s t

unfoldable pub text_lt : Text → Text → Bool
text_lt [] [] = false
text_lt [] (b ∷ t) = true
text_lt (a ∷ s) [] = false
text_lt (a ∷ s) (b ∷ t) = if a == b then text_lt s t else ltb a b

pub text_eq_refl : (s : Text) → text_eq s s ≡ true
unfolding text_eq
text_eq_refl [] = refl
text_eq_refl (a ∷ s) = ground (arith, text_eq_refl s)

pub eq_of_text_eq : (s t : Text) → text_eq s t ≡ true → s ≡ t
unfolding text_eq
eq_of_text_eq [] [] h = refl
eq_of_text_eq [] (b ∷ t) h = cc
eq_of_text_eq (a ∷ s) [] h = cc
eq_of_text_eq (a ∷ s) (b ∷ t) h = ground (arith, eq_of_text_eq s t)

pub text_eq_iff : (s t : Text) → (text_eq s t ≡ true) ↔ (s ≡ t)
text_eq_iff s t = (eq_of_text_eq s t, λ e. rw e (text_eq_refl t))

pub text_lt_asymm : (s t : Text) → text_lt s t ≡ true → text_lt t s ≡ false
unfolding text_lt
text_lt_asymm [] [] h = refl
text_lt_asymm [] (b ∷ t) h = refl
text_lt_asymm (a ∷ s) [] h = cc
text_lt_asymm (a ∷ s) (b ∷ t) h = ground (arith, text_lt_asymm s t)

pub text_lt_trans : (s t u : Text) → text_lt s t ≡ true → text_lt t u ≡ true → text_lt s u ≡ true
unfolding text_lt
text_lt_trans [] [] u h k = cc
text_lt_trans [] (b ∷ t) [] h k = cc
text_lt_trans [] (b ∷ t) (c ∷ u) h k = refl
text_lt_trans (a ∷ s) [] u h k = cc
text_lt_trans (a ∷ s) (b ∷ t) [] h k = cc
text_lt_trans (a ∷ s) (b ∷ t) (c ∷ u) h k = ground (arith, text_lt_trans s t u)

pub text_lt_tri : (s t : Text) → text_lt s t ≡ false → text_lt t s ≡ false → s ≡ t
unfolding text_lt
text_lt_tri [] [] h k = refl
text_lt_tri [] (b ∷ t) h k = cc
text_lt_tri (a ∷ s) [] h k = cc
text_lt_tri (a ∷ s) (b ∷ t) h k = ground (arith, text_lt_tri s t)
