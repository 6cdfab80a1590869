-- ===== src/Fix.antt =====
-- internal/fix/fix.go: planning the edits of a run's fixes, and showing them as a diff.
pub mod Validate
pub mod Complete
pub mod Apply
pub mod Write
pub mod Diff
pub mod Build
mod Examples
use pawnlint.Base.{
  ℕ, ◌≡◌, refl, ◌⊎◌, inl, inr, Bool, true, false, ◌&&◌, ◌||◌, not, ℤ, pos, pos_part, ltb_ℤ, eqb_ℤ,
  Option, none, some, List, [], ◌∷◌, ◌++◌, map, Text, text_eq, length, take, drop, if◌then◌else◌,
}
use pawnlint.Base.Sort.{by_key, then_by, sort, text_key, int_key}
use pawnlint.Diagnostic.{Diagnostic, Edit, Fix}

pub record Change : Type 0 where
  pub path : Text
  pub before : Text
  pub after : Text

pub record Plan : Type 0 where
  pub changes : List Change

pub record PlannedEdit : Type 0 where
  pub start : ℤ
  pub end : ℤ
  pub text : Text

-- The messages of `fmt.Errorf`, by what they name.
pub data FixError : Type 0 where
  unavailable : Text → FixError
  invalid_range : ℤ → ℤ → Text → FixError
  overlapping : Text → ℤ → ℤ → FixError

-- `(x, err)`: a plan or its parts, or why there is none.
pub data Result {ℓ} (A : Type ℓ) : Type ℓ where
  err : FixError → Result A
  ok : A → Result A

pub Result-cases {ℓ} :
    {A : Type ℓ} (r : Result A) → ((a : A) × (r ≡ ok a)) ⊎ ((e : FixError) × (r ≡ err e))
Result-cases (err e) = inr (e, refl)
Result-cases (ok a) = inl (a, refl)

module _ {ℓ κ} {A : Type ℓ} {B : Type κ} where
  infixl 5 ◌>>=◌
  abbrev pub ◌>>=◌ : Result A → (A → Result B) → Result B
  r >>= next = elim r [ err why ↦ err why | ok value ↦ next value ]

  -- Both steps of a successful chain.
  pub bind-ok :
      (r : Result A) (next : A → Result B) {last : B}
      → (r >>= next) ≡ ok last
      → (value : A) × (r ≡ ok value) × (next value ≡ ok last)
  bind-ok (err why) next h = cc
  bind-ok (ok value) next h = (value, refl, h)

-- The comparison of `validateEdits`.
unfoldable pub edit_less : PlannedEdit → PlannedEdit → Bool
edit_less =
    then_by (λ (e : PlannedEdit). e.start)
      (then_by (λ (e : PlannedEdit). e.end) (by_key (λ (e : PlannedEdit). e.text)))

-- `edit == previous`
unfoldable pub edit_eq : PlannedEdit → PlannedEdit → Bool
edit_eq a b = eqb_ℤ a.start b.start && eqb_ℤ a.end b.end && text_eq a.text b.text

-- edit.start < 0 || edit.end < edit.start || edit.end > size
unfoldable pub out_of_range : ℕ → PlannedEdit → Bool
out_of_range size e = ltb_ℤ e.start (pos 0) || ltb_ℤ e.end e.start || ltb_ℤ (pos size) e.end

-- edit.start < previous.end || edit.start == previous.start
unfoldable pub clashes : PlannedEdit → PlannedEdit → Bool
clashes previous e = ltb_ℤ e.start previous.end || eqb_ℤ e.start previous.start

-- What the loop of `validateEdits` does with one edit, beside the last entry of `result`.
pub data Verdict : Type 0 where
  skip take_it : Verdict
  reject : FixError → Verdict

unfoldable pub judge : Text → ℕ → Option PlannedEdit → PlannedEdit → Verdict
unfolding edit_eq out_of_range clashes
judge path size previous e =
    if out_of_range size e then reject (invalid_range e.start e.end path) else elim previous [
      | none ↦ take_it
      | some p ↦
          if edit_eq e p
          then skip
          else if clashes p e
          then reject (overlapping path p.start e.start)
          else take_it
    ]

-- The loop of `validateEdits`: what it appends to `result`, whose last entry is `previous`.
unfoldable pub validate_sorted :
    Text → ℕ → Option PlannedEdit → List PlannedEdit → Result (List PlannedEdit)
unfolding judge
validate_sorted path size previous [] = ok []
validate_sorted path size previous (e ∷ rest) = elim (judge path size previous e) [
  | skip ↦ validate_sorted path size previous rest
  | take_it ↦ validate_sorted path size (some e) rest >>= λ r. ok (e ∷ r)
  | reject why ↦ err why
]

unfoldable pub validate_edits : Text → ℕ → List PlannedEdit → Result (List PlannedEdit)
validate_edits path size edits = validate_sorted path size none (sort edit_less edits)

-- updated[:edit.start] + edit.text + updated[edit.end:]
unfoldable pub splice : PlannedEdit → Text → Text
splice e updated = take (pos_part e.start) updated ++ (e.text ++ drop (pos_part e.end) updated)

-- The loop of `Build` over the edits, from the last to the first.
unfoldable pub apply_edits : List PlannedEdit → Text → Text
unfolding splice
apply_edits [] source = source
apply_edits (e ∷ rest) source = splice e (apply_edits rest source)
