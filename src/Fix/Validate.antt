-- ===== src/Fix/Validate.antt =====
-- `validateEdits`: which edits it accepts, and what it makes of them.
use mathlib.Core.List.{Perm}
use pawnlint.Base.{
  ℕ, ◌≡◌, refl, ap, ◌∙◌, ◌⊎◌, inl, inr, Bool, true, false, ◌||◌, pos, ◌≤ℤ◌, ◌<ℤ◌, Option,
  Option-cases, none, some, List, [], ◌∷◌, Text, text_eq_iff, arith, All,
}
use pawnlint.Base.Sort.{
  IsWeakOrder, Separates, by_key, then_by, by_key-IsWeakOrder, then_by-IsWeakOrder,
  then_by_same_key, sort, insert, sort-eq_of_perm, text_key, int_key,
}
use pawnlint.Fix.{
  PlannedEdit, Verdict, skip, take_it, reject, ok, Result-cases, edit_less, edit_eq, out_of_range,
  clashes, judge, validate_sorted, validate_edits,
}

pub edit_less-IsWeakOrder : IsWeakOrder edit_less
unfolding edit_less
edit_less-IsWeakOrder =
    then_by-IsWeakOrder (λ (e : PlannedEdit). e.start)
      (then_by-IsWeakOrder (λ (e : PlannedEdit). e.end)
        (by_key-IsWeakOrder (λ (e : PlannedEdit). e.text)))

abbrev by_text : PlannedEdit → PlannedEdit → Bool
by_text = by_key (λ (e : PlannedEdit). e.text)

abbrev by_end : PlannedEdit → PlannedEdit → Bool
by_end = then_by (λ (e : PlannedEdit). e.end) by_text

edit_less-Separates : Separates edit_less
unfolding edit_less
edit_less-Separates a b h k =
    let (same_start, h', k') = then_by_same_key (λ (e : PlannedEdit). e.start) by_end a b h k in
    let (same_end, h'', k'') = then_by_same_key (λ (e : PlannedEdit). e.end) by_text a b h' k' in
    ground (arith, text_key.lt_tri a.text b.text)

PlannedEdit-set : IsSet PlannedEdit
PlannedEdit-set = hlevel

PlannedEdits-set : IsSet (List PlannedEdit)
PlannedEdits-set = hlevel PlannedEdit-set

-- The order in which the edits of a file were collected does not matter, neither to what is
-- accepted nor to the error that is reported.
pub validate_edits-eq_of_perm :
    (path : Text) (size : ℕ) (edits edits' : List PlannedEdit)
    → Perm edits edits'
    → validate_edits path size edits ≡ validate_edits path size edits'
unfolding validate_edits
validate_edits-eq_of_perm path size edits edits' p =
    ap (validate_sorted path size none)
      (sort-eq_of_perm edit_less edit_less-IsWeakOrder edit_less-Separates PlannedEdits-set p)

pub edit_eq_iff : (a b : PlannedEdit) → (edit_eq a b ≡ true → a ≡ b) × (a ≡ b → edit_eq a b ≡ true)
unfolding edit_eq
edit_eq_iff a b =
    (λ h. ground (arith, text_eq_iff a.text b.text), λ h. ground (arith, text_eq_iff a.text b.text))

-- The edit's range lies in a source of `size` bytes.
abbrev pub InRange : ℕ → PlannedEdit → Type 0
InRange size e = (pos 0 ≤ℤ e.start) × (e.start ≤ℤ e.end) × (e.end ≤ℤ pos size)

-- The edit `a` ends at or before the start of `b`, and the two do not start together.
abbrev pub Before : PlannedEdit → PlannedEdit → Type 0
Before a b = (a.end ≤ℤ b.start) × (a.start <ℤ b.start)

-- The edits lie in range, in order, and apart.
abbrev pub IsLaidOut : ℕ → List PlannedEdit → Type 0
IsLaidOut size [] = Unit
IsLaidOut size (e ∷ es) = InRange size e × All (Before e) es × IsLaidOut size es

unfoldable pub has_edit : PlannedEdit → List PlannedEdit → Bool
has_edit x [] = false
has_edit x (e ∷ es) = edit_eq x e || has_edit x es

has_edit-insert :
    (x e : PlannedEdit) (es : List PlannedEdit)
    → has_edit x (insert edit_less e es) ≡ (edit_eq x e || has_edit x es)
unfolding has_edit insert
has_edit-insert x e [] = refl
has_edit-insert x e (f ∷ es) = ground (arith, has_edit-insert x e es)

has_edit-sort :
    (x : PlannedEdit) (es : List PlannedEdit) → has_edit x (sort edit_less es) ≡ has_edit x es
unfolding has_edit sort
has_edit-sort x [] = refl
has_edit-sort x (e ∷ es) =
    has_edit-insert x e (sort edit_less es) ∙ ap (λ b. edit_eq x e || b) (has_edit-sort x es)

-- How the loop's result begins, by the verdict on the first edit.
module _ (path : Text) (size : ℕ) (previous : Option PlannedEdit) (e : PlannedEdit) where
  judge_skip : judge path size previous e ≡ skip → previous ≡ some e
  unfolding judge
  judge_skip h = elim (Option-cases previous) [
    | inl start ↦ ground (arith, start)
    | inr (p, last) ↦ ground (arith, last, (edit_eq_iff e p).0)
  ]

  judge_take :
      judge path size previous e ≡ take_it
      → InRange size e × ((p : PlannedEdit) → previous ≡ some p → p.start ≤ℤ p.end → Before p e)
  unfolding judge out_of_range clashes
  judge_take h = (ground arith, λ p last w. ground (arith, last))

  validate_sorted-cons :
      (es r : List PlannedEdit)
      → validate_sorted path size previous (e ∷ es) ≡ ok r
      → ((previous ≡ some e) × (validate_sorted path size previous es ≡ ok r))
        ⊎ ((r' : List PlannedEdit) × (judge path size previous e ≡ take_it)
            × (r ≡ e ∷ r')
            × (validate_sorted path size (some e) es ≡ ok r'))
  unfolding validate_sorted
  validate_sorted-cons es r = go (judge path size previous e) refl
    where
      go :
          (v : Verdict)
          → judge path size previous e ≡ v
          → validate_sorted path size previous (e ∷ es) ≡ ok r
          → ((previous ≡ some e) × (validate_sorted path size previous es ≡ ok r))
            ⊎ ((r' : List PlannedEdit) × (judge path size previous e ≡ take_it)
                × (r ≡ e ∷ r')
                × (validate_sorted path size (some e) es ≡ ok r'))
      go skip v h = inl (judge_skip v, (rw (v, validate_sorted) at h))
      go take_it v h = elim (Result-cases (validate_sorted path size (some e) es)) [
        | inl (r', fine) ↦ inr (r', v, ground (arith, v, fine), fine)
        | inr (why, bad) ↦ absurd (ground (arith, v, bad))
      ]
      go (reject why) v h = absurd (ground (arith, v))

-- The members of what the loop appends, beside its last entry, are those of what it reads.
abbrev is_last : Option PlannedEdit → PlannedEdit → Bool
is_last none x = false
is_last (some p) x = edit_eq x p

has_edit-validate_sorted :
    (path : Text) (size : ℕ) (previous : Option PlannedEdit) (es r : List PlannedEdit)
    → (x : PlannedEdit) → validate_sorted path size previous es ≡ ok r
    → (is_last previous x || has_edit x r) ≡ (is_last previous x || has_edit x es)
unfolding validate_sorted has_edit
has_edit-validate_sorted path size previous [] r x h = ground arith
has_edit-validate_sorted path size previous (e ∷ es) r x h =
    elim (validate_sorted-cons path size previous e es r h) [
      | inl (last, more) ↦
          ground (arith, last, has_edit-validate_sorted path size previous es r x more)
      | inr (r', _, begin, more) ↦
          ground (arith, begin, has_edit-validate_sorted path size (some e) es r' x more)
    ]

All-Before-weaken :
    (p e : PlannedEdit) (es : List PlannedEdit)
    → p.end ≤ℤ e.start
    → p.start ≤ℤ p.end
    → e.start ≤ℤ e.end
    → All (Before e) es
    → All (Before p) es
All-Before-weaken p e [] h a b all = tt
All-Before-weaken p e (x ∷ es) h a b all =
    (omega (arith, all.0), All-Before-weaken p e es h a b all.1)

-- The entries appended are laid out, behind the last entry before them.
abbrev Follows : Option PlannedEdit → List PlannedEdit → Type 0
Follows none es = Unit
Follows (some p) es = p.start ≤ℤ p.end → All (Before p) es

Follows-nil : (previous : Option PlannedEdit) → Follows previous []
Follows-nil none = tt
Follows-nil (some p) = λ _. tt

Follows-cons :
    (previous : Option PlannedEdit) (e : PlannedEdit) (es : List PlannedEdit)
    → ((p : PlannedEdit) → previous ≡ some p → p.start ≤ℤ p.end → Before p e)
    → e.start ≤ℤ e.end
    → All (Before e) es
    → Follows previous (e ∷ es)
Follows-cons none e es after w all = tt
Follows-cons (some p) e es after w all =
    λ v. (after p refl v, All-Before-weaken p e es (after p refl v).0 v w all)

validate_sorted-IsLaidOut :
    (path : Text) (size : ℕ) (previous : Option PlannedEdit) (es r : List PlannedEdit)
    → validate_sorted path size previous es ≡ ok r
    → IsLaidOut size r × Follows previous r
unfolding validate_sorted
validate_sorted-IsLaidOut path size previous [] r h =
    let nothing : r ≡ [] = cc in rw nothing (tt, Follows-nil previous)
validate_sorted-IsLaidOut path size previous (e ∷ es) r h =
    elim (validate_sorted-cons path size previous e es r h) [
      | inl (last, more) ↦ validate_sorted-IsLaidOut path size previous es r more
      | inr (r', take, begin, more) ↦
          let (laid, follows) = validate_sorted-IsLaidOut path size (some e) es r' more in
          let (fits, after) = judge_take path size previous e take in
          rw begin
            ((fits, follows fits.1, laid), Follows-cons previous e r' after fits.1 (follows fits.1))
    ]

-- Accepted edits are laid out: each lies in the source, and each ends before the next begins.
-- They are the given ones, with repetitions dropped.
pub validate_edits_sound :
    (path : Text) (size : ℕ) (edits r : List PlannedEdit)
    → validate_edits path size edits ≡ ok r
    → IsLaidOut size r × ((x : PlannedEdit) → has_edit x r ≡ has_edit x edits)
unfolding validate_edits
validate_edits_sound path size edits r h = (
  (validate_sorted-IsLaidOut path size none (sort edit_less edits) r h).0,
  λ x. has_edit-validate_sorted path size none (sort edit_less edits) r x h ∙ has_edit-sort x edits,
)
