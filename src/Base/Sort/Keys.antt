-- ===== src/Base/Sort/Keys.antt =====
-- Comparisons: keys with a strict total order, and comparisons of records field by field.
use Prim.Native.Nat.{ℕ}
use mathlib.Core.Path.{◌≡◌}
use mathlib.Core.Logic.{◌↔◌, inl, inr}
use mathlib.Core.Bool.{Bool, true, false}
use native.Mathlib.Omega.{arith}
use pawnlint.Base.Tests.{ltb, ◌==◌, if◌then◌else◌, Bool-cases, ==_iff}
use pawnlint.Base.Int.{ℤ, ltb_ℤ, eqb_ℤ, eqb_ℤ_iff}
use pawnlint.Base.Bytes.{
  Text, text_eq, text_lt, text_eq_iff, text_lt_asymm, text_lt_trans, text_lt_tri,
}

-- A type whose values Go compares by `==` and `<`.
pub record Key {ℓ} (K : Type ℓ) : Type ℓ where
  pub eq : K → K → Bool
  pub lt : K → K → Bool
  pub eq_iff : (a b : K) → (eq a b ≡ true) ↔ (a ≡ b)
  pub lt_asymm : (a b : K) → lt a b ≡ true → lt b a ≡ false
  pub lt_trans : (a b c : K) → lt a b ≡ true → lt b c ≡ true → lt a c ≡ true
  pub lt_tri : (a b : K) → lt a b ≡ false → lt b a ≡ false → a ≡ b

pub ltb_asymm : (a b : ℕ) → ltb a b ≡ true → ltb b a ≡ false
ltb_asymm a b h = ground arith

pub ltb_trans : (a b c : ℕ) → ltb a b ≡ true → ltb b c ≡ true → ltb a c ≡ true
ltb_trans a b c h k = ground arith

pub ltb_tri : (a b : ℕ) → ltb a b ≡ false → ltb b a ≡ false → a ≡ b
ltb_tri a b h k = ground arith

pub ltb_ℤ_asymm : (a b : ℤ) → ltb_ℤ a b ≡ true → ltb_ℤ b a ≡ false
ltb_ℤ_asymm a b h = ground arith

pub ltb_ℤ_trans : (a b c : ℤ) → ltb_ℤ a b ≡ true → ltb_ℤ b c ≡ true → ltb_ℤ a c ≡ true
ltb_ℤ_trans a b c h k = ground arith

pub ltb_ℤ_tri : (a b : ℤ) → ltb_ℤ a b ≡ false → ltb_ℤ b a ≡ false → a ≡ b
ltb_ℤ_tri a b h k = ground arith

instance abbrev pub nat_key : Key ℕ
nat_key = record {
  eq = ◌==◌;
  lt = ltb;
  eq_iff = ==_iff;
  lt_asymm = ltb_asymm;
  lt_trans = ltb_trans;
  lt_tri = ltb_tri;
}

instance abbrev pub int_key : Key ℤ
int_key = record {
  eq = eqb_ℤ;
  lt = ltb_ℤ;
  eq_iff = eqb_ℤ_iff;
  lt_asymm = ltb_ℤ_asymm;
  lt_trans = ltb_ℤ_trans;
  lt_tri = ltb_ℤ_tri;
}

instance abbrev pub text_key : Key Text
text_key = record {
  eq = text_eq;
  lt = text_lt;
  eq_iff = text_eq_iff;
  lt_asymm = text_lt_asymm;
  lt_trans = text_lt_trans;
  lt_tri = text_lt_tri;
}

-- A comparison `less` for which "not after" is a total preorder.
pub record IsWeakOrder {ℓ} {A : Type ℓ} (less : A → A → Bool) : Type ℓ where
  pub asymm : (a b : A) → less a b ≡ true → less b a ≡ false
  pub cotrans : (a b c : A) → less a b ≡ false → less b c ≡ false → less a c ≡ false

-- One that tells any two values apart.
abbrev pub Separates {ℓ} : {A : Type ℓ} → (A → A → Bool) → Type ℓ
Separates {A} less = (a b : A) → less a b ≡ false → less b a ≡ false → a ≡ b

module _ {ℓ} {K : Type ℓ} ⦃k : Key K⦄ where
  pub lt_cotrans : (a b c : K) → k.lt a b ≡ false → k.lt b c ≡ false → k.lt a c ≡ false
  lt_cotrans a b c h g = elim (Bool-cases (k.lt a c)) [
    | inr e ↦ e
    | inl e ↦ elim (Bool-cases (k.lt b a)) [
      | inl p ↦ cc (k.lt_trans b a c p e)
      | inr p ↦ cc (k.lt_tri a b h p)
    ]
  ]

module _ {ℓ κ} {A : Type ℓ} {K : Type κ} ⦃k : Key K⦄ (f : A → K) where
  -- `return a.f < b.f`
  abbrev pub by_key : A → A → Bool
  by_key a b = k.lt (f a) (f b)

  -- `if a.f != b.f { return a.f < b.f }`, and the comparison that follows it.
  abbrev pub then_by : (A → A → Bool) → A → A → Bool
  then_by rest a b = if k.eq (f a) (f b) then rest a b else k.lt (f a) (f b)

  pub by_key-IsWeakOrder : IsWeakOrder by_key
  by_key-IsWeakOrder = record {
    asymm = λ a b. k.lt_asymm (f a) (f b);
    cotrans = λ a b c. lt_cotrans (f a) (f b) (f c);
  }

  pub then_by-IsWeakOrder : {rest : A → A → Bool} → IsWeakOrder rest → IsWeakOrder (then_by rest)
  then_by-IsWeakOrder {rest} r = record {
    asymm = λ a b h.
        ground
          (arith, k.eq_iff (f a) (f b), k.eq_iff (f b) (f a), k.lt_asymm (f a) (f b), r.asymm a b);
    cotrans = λ a b c h g. ground (
      arith,
      k.eq_iff (f a) (f b),
      k.eq_iff (f b) (f c),
      k.eq_iff (f a) (f c),
      lt_cotrans (f a) (f b) (f c),
      k.lt_tri (f a) (f b),
      r.cotrans a b c,
    );
  }

  -- The key in front tells apart what it does not leave to the rest.
  pub then_by_same_key :
      (rest : A → A → Bool) (a b : A)
      → then_by rest a b ≡ false
      → then_by rest b a ≡ false
      → (f a ≡ f b) × (rest a b ≡ false) × (rest b a ≡ false)
  then_by_same_key rest a b h g = (
    ground (arith, k.eq_iff (f a) (f b), k.eq_iff (f b) (f a), k.lt_tri (f a) (f b)),
    ground (arith, k.eq_iff (f a) (f b), k.eq_iff (f b) (f a), k.lt_tri (f a) (f b)),
    ground (arith, k.eq_iff (f a) (f b), k.eq_iff (f b) (f a), k.lt_tri (f a) (f b)),
  )

  -- What the key in front, or the rest where the key is the same, puts in front.
  pub then_by_less :
      (rest : A → A → Bool) (a b : A) → k.lt (f a) (f b) ≡ true → then_by rest a b ≡ true
  then_by_less rest a b h = elim (Bool-cases (k.eq (f a) (f b))) [
    | inl same ↦ absurd (ground (arith, h, k.lt_asymm (f a) (f b), (k.eq_iff (f a) (f b)).0 same))
    | inr differs ↦ rw differs h
  ]

  pub then_by_same :
      (rest : A → A → Bool) (a b : A) → f a ≡ f b → rest a b ≡ true → then_by rest a b ≡ true
  then_by_same rest a b e h = rw ((k.eq_iff (f a) (f b)).1 e) h
