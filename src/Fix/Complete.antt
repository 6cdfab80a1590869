-- ===== src/Fix/Complete.antt =====
-- `validateEdits` accepts every set of edits that can stand together.
use pawnlint.Base.{
  ℕ, ◌≡◌, refl, sym, ◌⊎◌, inl, inr, false, Option, none, some, List, [], ◌∷◌, Text, arith,
  Bool-cases, All, All-map,
}
use pawnlint.Base.Sort.{IsSorted, sort, sort-IsSorted, All-sort}
use pawnlint.Fix.{
  PlannedEdit, skip, take_it, ok, edit_less, edit_eq, out_of_range, clashes, judge, validate_sorted,
  validate_edits,
}
use pawnlint.Fix.Validate.{InRange, Before, edit_less-IsWeakOrder, edit_eq_iff}

-- Two edits that may stand in one file: they are the same edit, or one is before the other.
abbrev pub Agree : PlannedEdit → PlannedEdit → Type 0
Agree a b = (a ≡ b) ⊎ Before a b ⊎ Before b a

-- What sorting leaves of that, for each edit and those behind it.
abbrev InOrder : PlannedEdit → PlannedEdit → Type 0
InOrder a b = (a ≡ b) ⊎ Before a b

abbrev AllInOrder : List PlannedEdit → Type 0
AllInOrder [] = Unit
AllInOrder (e ∷ es) = All (InOrder e) es × AllInOrder es

InOrder-sorted : (a b : PlannedEdit) → Agree a b → edit_less b a ≡ false → InOrder a b
unfolding edit_less
InOrder-sorted a b (inl same) h = inl same
InOrder-sorted a b (inr (inl before)) h = inr before
InOrder-sorted a b (inr (inr after)) h = absurd (ground arith)

All-InOrder :
    (a : PlannedEdit) (es : List PlannedEdit)
    → All (Agree a) es
    → All (λ b. edit_less b a ≡ false) es
    → All (InOrder a) es
All-InOrder a [] h s = tt
All-InOrder a (e ∷ es) h s = (InOrder-sorted a e h.0 s.0, All-InOrder a es h.1 s.1)

AllInOrder-sorted :
    (es : List PlannedEdit) → All (λ a. All (Agree a) es) es → IsSorted edit_less es → AllInOrder es
AllInOrder-sorted es h s = go es es (λ a b. b) h s
  where
    go :
        (all es : List PlannedEdit)
        → ((a : PlannedEdit) → All (Agree a) all → All (Agree a) es)
        → All (λ a. All (Agree a) all) es
        → IsSorted edit_less es
        → AllInOrder es
    go all [] narrow h s = tt
    go all (e ∷ es) narrow h s =
        (All-InOrder e es (narrow e h.0).1 s.0, go all es (λ a k. (narrow a k).1) h.1 s.1)

-- An edit behind one that it agrees with is passed over or taken.
judge_fine :
    (path : Text) (size : ℕ) (previous : Option PlannedEdit) (e : PlannedEdit)
    → InRange size e
    → ((p : PlannedEdit) → previous ≡ some p → InOrder p e)
    → (judge path size previous e ≡ skip) ⊎ (judge path size previous e ≡ take_it)
unfolding judge out_of_range clashes
judge_fine path size none e fits order = inr (ground arith)
judge_fine path size (some p) e fits order = elim (order p refl) [
  | inl same ↦ inl (ground (arith, (edit_eq_iff e p).1 (sym same)))
  | inr before ↦ elim (Bool-cases (edit_eq e p)) [
    | inl equal ↦ inl (ground arith)
    | inr other ↦ inr (ground arith)
  ]
]

validate_sorted_total :
    (path : Text) (size : ℕ) (previous : Option PlannedEdit) (es : List PlannedEdit)
    → All (InRange size) es
    → AllInOrder es
    → ((p : PlannedEdit) → previous ≡ some p → All (InOrder p) es)
    → (r : List PlannedEdit) × (validate_sorted path size previous es ≡ ok r)
unfolding validate_sorted
validate_sorted_total path size previous [] fits order first = ([], refl)
validate_sorted_total path size previous (e ∷ es) fits order first =
    elim (judge_fine path size previous e fits.0 (λ p last. (first p last).0)) [
      | inl old ↦
          let (r, done) =
            validate_sorted_total path size previous es fits.1 order.1
              (λ p last. (first p last).1) in
          (r, rw (old, validate_sorted) done)
      | inr new ↦
          let (r, done) =
            validate_sorted_total path size (some e) es fits.1 order.1
              (λ p last. let same : e ≡ p = cc in rw (← same) order.0) in
          (e ∷ r, rw (new, validate_sorted) (rw done))
    ]

-- Edits that lie in the source and agree pairwise are accepted.
pub validate_edits_complete :
    (path : Text) (size : ℕ) (edits : List PlannedEdit)
    → All (InRange size) edits
    → All (λ a. All (Agree a) edits) edits
    → (r : List PlannedEdit) × (validate_edits path size edits ≡ ok r)
unfolding validate_edits
validate_edits_complete path size edits fits agree =
    let sorted = sort edit_less edits in
    let agree' =
      All-map (λ a. All (Agree a) edits) (λ a. All (Agree a) sorted) sorted
        (λ a. All-sort edit_less (Agree a) edits)
        (All-sort edit_less (λ a. All (Agree a) edits) edits agree) in
    validate_sorted_total path size none sorted (All-sort edit_less (InRange size) edits fits)
      (AllInOrder-sorted sorted agree' (sort-IsSorted edit_less edit_less-IsWeakOrder edits))
      (λ p last. cc)
