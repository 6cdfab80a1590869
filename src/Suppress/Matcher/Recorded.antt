-- ===== src/Suppress/Matcher/Recorded.antt =====
-- The directives that `IsSuppressed` records as used.
use native.Mathlib.Nat.{zero-add}
use pawnlint.Base.{
  ℕ, zero, suc, ◌<◌, ◌≡◌, refl, ◌∙◌, Bool, true, false, ◌&&◌, ◌⊎◌, inl, inr, ℤ, Option-cases, none,
  some, List, [], ◌∷◌, Text, length, get_elem?, length-set, All, arith, Bool-cases, if◌then◌else◌,
}
use pawnlint.Suppress.{Directive}
use pawnlint.Suppress.Matcher.{
  Used, mark, mark_all, next_line, block_loop, none_active, is_empty, block_suppresses,
  is_suppressed,
}
use pawnlint.Suppress.Matcher.Used.{
  flag, Applies, get_or-set_self, flag-mark, flag-mark_all, flag-mark_kept, flag-mark_all_kept,
  AllApply-loop, next_line-Applies,
}

module _ (ds : List Directive) (rule_id : Text) (line : ℤ) where
  abbrev open_all : List ℕ
  open_all = (block_loop 0 ds line none_active).all

  abbrev open_rule : List ℕ
  open_rule = (block_loop 0 ds line none_active).ids rule_id

  -- The stacks at the end of `blockSuppresses`.
  open-Applies : All (Applies ds rule_id) open_all × All (Applies ds rule_id) open_rule
  open-Applies = AllApply-loop ds rule_id 0 ds line none_active (λ j. rw zero-add) (tt, tt)

  block_sound :
      (used : Used) (i : ℕ)
      → (flag (block_suppresses ds used rule_id line).0 i ≡ true
          → (flag used i ≡ true) ⊎ Applies ds rule_id i)
        × (flag used i ≡ true → flag (block_suppresses ds used rule_id line).0 i ≡ true)
  unfolding block_suppresses
  block_sound used i = elim (Bool-cases (is_empty open_all && is_empty open_rule)) [
    | inl idle ↦ rw idle (inl, λ h. h)
    | inr busy ↦ rw busy (
      (λ h.
          elim (flag-mark_all (Applies ds rule_id) (mark_all used open_all) open_rule i
            open-Applies.1 h) [
              | inl old ↦ flag-mark_all (Applies ds rule_id) used open_all i open-Applies.0 old
              | inr new ↦ inr new
            ]),
      λ h.
          flag-mark_all_kept (mark_all used open_all) open_rule i
            (flag-mark_all_kept used open_all i h),
    )
  ]

pub recorded_sound :
    (ds : List Directive) (used : Used) (rule_id : Text) (line : ℤ) (i : ℕ)
    → (flag (is_suppressed ds used rule_id line).0 i ≡ true
        → (flag used i ≡ true) ⊎ Applies ds rule_id i)
      × (flag used i ≡ true → flag (is_suppressed ds used rule_id line).0 i ≡ true)
unfolding is_suppressed
recorded_sound ds used rule_id line i = elim (Option-cases (next_line 0 ds rule_id line)) [
  | inl missing ↦ rw (missing, is_suppressed) (block_sound ds rule_id line used i)
  | inr (j, found) ↦
      rw (found, is_suppressed)
        (
          flag-mark (Applies ds rule_id) used j i
              (next_line-Applies ds rule_id 0 j ds line (λ k. rw zero-add) found),
          flag-mark_kept used j i,
        )
]

-- A slice with a place for each directive.
abbrev pub size : Used → ℕ
size none = 0
size (some u) = length u

pub size-mark : (used : Used) (i : ℕ) → size (mark used i) ≡ size used
unfolding mark
size-mark none i = refl
size-mark (some u) i = length-set u i true

pub size-mark_all : (used : Used) (is : List ℕ) → size (mark_all used is) ≡ size used
unfolding mark_all
size-mark_all used [] = refl
size-mark_all used (i ∷ is) = size-mark_all (mark used i) is ∙ size-mark used i

lt_of_get_elem? :
    (ds : List Directive) (i : ℕ) (d : Directive) → get_elem? ds i ≡ some d → i < length ds
lt_of_get_elem? [] i d h = cc
lt_of_get_elem? (e ∷ ds) zero d h = omega arith
lt_of_get_elem? (e ∷ ds) (suc i) d h = omega (arith, lt_of_get_elem? ds i d h)

flag-mark_self : (used : Used) (i : ℕ) → i < size used → flag (mark used i) i ≡ true
unfolding mark
flag-mark_self none i h = absurd (omega arith)
flag-mark_self (some u) i h = get_or-set_self u i h

flag-mark_all_head :
    (used : Used) (i : ℕ) (is : List ℕ) → i < size used → flag (mark_all used (i ∷ is)) i ≡ true
unfolding mark_all
flag-mark_all_head used i is h = flag-mark_all_kept (mark used i) is i (flag-mark_self used i h)

module _ (ds : List Directive) (rule_id : Text) (line : ℤ) (used : Used)
    (fits : size used ≡ length ds) where
  abbrev Records : Used × Bool → Type 0
  Records (after, suppressed) =
      (suppressed ≡ true → (i : ℕ) × Applies ds rule_id i × (flag after i ≡ true))
      × (suppressed ≡ false → after ≡ used)

  Applies-lt : (i : ℕ) → Applies ds rule_id i → i < size used
  Applies-lt i a = omega (arith, lt_of_get_elem? ds i a.0 a.1)

  marked_rule :
      (rule : List ℕ)
      → All (Applies ds rule_id) rule
      → Records (if is_empty rule then (used, false) else (mark_all used rule, true))
  marked_rule [] a = ((λ h. cc), λ h. refl)
  marked_rule (i ∷ is) a =
      ((λ h. (i, a.0, flag-mark_all_head used i is (Applies-lt i a.0))), λ h. cc)

  marked :
      (all rule : List ℕ)
      → All (Applies ds rule_id) all
      → All (Applies ds rule_id) rule
      → Records (
          if is_empty all && is_empty rule
          then (used, false)
          else (mark_all (mark_all used all) rule, true))
  unfolding mark_all
  marked [] rule a b = marked_rule rule b
  marked (i ∷ is) rule a b = (
    (λ h. (
      i,
      a.0,
      flag-mark_all_kept (mark_all used (i ∷ is)) rule i
          (flag-mark_all_head used i is (Applies-lt i a.0)),
    )),
    λ h. cc,
  )

  block_complete : Records (block_suppresses ds used rule_id line)
  unfolding block_suppresses
  block_complete =
      let (a, b) = open-Applies ds rule_id line in
      marked (open_all ds rule_id line) (open_rule ds rule_id line) a b

pub recorded_complete :
    (ds : List Directive) (used : Used) (rule_id : Text) (line : ℤ)
    → size used ≡ length ds
    → ((is_suppressed ds used rule_id line).1 ≡ true
        → (i : ℕ) × Applies ds rule_id i × (flag (is_suppressed ds used rule_id line).0 i ≡ true))
      × ((is_suppressed ds used rule_id line).1 ≡ false
          → (is_suppressed ds used rule_id line).0 ≡ used)
unfolding is_suppressed
recorded_complete ds used rule_id line fits = elim (Option-cases (next_line 0 ds rule_id line)) [
  | inl missing ↦ rw (missing, is_suppressed) (block_complete ds rule_id line used fits)
  | inr (j, found) ↦
      let applies = next_line-Applies ds rule_id 0 j ds line (λ k. rw zero-add) found in
      rw (found, is_suppressed)
        (
          (λ _. (
            j,
            applies,
            flag-mark_self used j (omega (arith, lt_of_get_elem? ds j applies.0 applies.1)),
          )),
          λ h. cc,
        )
]

-- A directive that is recorded as used after a diagnostic was looked up was recorded before, or
-- switches the rule of the diagnostic off.
pub used_sound :
    (ds : List Directive) (used : Used) (rule_id : Text) (line : ℤ) (i : ℕ)
    → flag (is_suppressed ds used rule_id line).0 i ≡ true
    → (flag used i ≡ true) ⊎ Applies ds rule_id i
used_sound ds used rule_id line i = (recorded_sound ds used rule_id line i).0

-- If `used` has a flag for each directive, then either the diagnostic is suppressed and some
-- directive that switches its rule off is recorded as used, or it is not and nothing is recorded.
pub used_complete :
    (ds : List Directive) (used : Used) (rule_id : Text) (line : ℤ)
    → size used ≡ length ds
    → (((is_suppressed ds used rule_id line).1 ≡ true)
        × (i : ℕ) × Applies ds rule_id i
        × (flag (is_suppressed ds used rule_id line).0 i ≡ true))
      ⊎ (((is_suppressed ds used rule_id line).1 ≡ false)
          × ((is_suppressed ds used rule_id line).0 ≡ used))
used_complete ds used rule_id line fits =
    let (found, absent) = recorded_complete ds used rule_id line fits in
    elim (Bool-cases (is_suppressed ds used rule_id line).1) [
      | inl suppressed ↦
          let (i, applies, flagged) = found suppressed in inl (suppressed, i, applies, flagged)
      | inr shown ↦ inr (shown, absent shown)
    ]
