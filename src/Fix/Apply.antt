-- ===== src/Fix/Apply.antt =====
-- The edits of a file applied from the last to the first, against one pass from the front.
use pawnlint.Base.{
  ℕ, ◌+◌, ◌-◌, ◌≤◌, ◌≡◌, refl, sym, ap, ◌∙◌, ℤ, pos, negsuc, pos_part, neg_part, ◌≤ℤ◌, List, [],
  ◌∷◌, ◌++◌, Text, arith, All, length, take, drop, take-append, drop-append, take-append-drop,
  take-take, drop-drop, drop_all, take-split, length-take,
}
use mathlib.Core.Path.{◌≡⟨◌⟩◌, ◌∎}
use mathlib.Core.List.{append_assoc}
use pawnlint.Fix.{PlannedEdit, splice, apply_edits}
use pawnlint.Fix.Validate.{InRange, Before, IsLaidOut}

-- One pass: the text between the edits is copied, and each edit's text stands for its range.
-- `rest` is the source from byte `at` on.
abbrev pub weave : ℕ → List PlannedEdit → Text → Text
weave at [] rest = rest
weave at (e ∷ es) rest =
    take (pos_part e.start - at) rest
    ++ (e.text ++ weave (pos_part e.end) es (drop (pos_part e.end - at) rest))

neg_part_of_nonneg : (a : ℤ) → pos 0 ≤ℤ a → neg_part a ≡ 0
neg_part_of_nonneg (pos n) h = refl
neg_part_of_nonneg (negsuc n) h = absurd (omega arith)

-- The range of an accepted edit as numbers.
InRange-parts :
    (size : ℕ) (e : PlannedEdit)
    → InRange size e
    → (pos_part e.start ≤ pos_part e.end) × (pos_part e.end ≤ size)
InRange-parts size e h =
    let s = neg_part_of_nonneg e.start h.0 in
    let t = neg_part_of_nonneg e.end (omega (arith, h.0, h.1)) in (omega arith, omega arith)

Before-parts :
    (size : ℕ) (a b : PlannedEdit) → InRange size a → Before a b → pos_part a.end ≤ pos_part b.start
Before-parts size a b h k = omega (
  arith,
  neg_part_of_nonneg a.end (omega (arith, h.0, h.1)),
  neg_part_of_nonneg b.start (omega (arith, h.0, h.1, k.0)),
)

-- Every edit begins at byte `at` or behind it.
abbrev From : ℕ → List PlannedEdit → Type 0
From at es = All (λ e. at ≤ pos_part e.start) es

From-zero : (es : List PlannedEdit) → From 0 es
From-zero [] = tt
From-zero (e ∷ es) = (omega arith, From-zero es)

From-Before :
    (size : ℕ) (a : PlannedEdit) (es : List PlannedEdit)
    → InRange size a
    → All (Before a) es
    → From (pos_part a.end) es
From-Before size a [] h k = tt
From-Before size a (e ∷ es) h k = (Before-parts size a e h k.0, From-Before size a es h k.1)

-- One splice over what the later edits have made of the source.
take-spliced :
    (s t : ℕ) (source w : Text)
    → s ≤ t
    → t ≤ length source
    → take s (take t source ++ w) ≡ take s source
take-spliced s t source w h k =
    take-append s (take t source) w (omega (arith, length-take t source)) ∙ take-take s t source h

drop-spliced : (t : ℕ) (source w : Text) → t ≤ length source → drop t (take t source ++ w) ≡ w
drop-spliced t source w k =
    drop-append t (take t source) w (omega (arith, length-take t source))
    ∙ rw (drop_all t (take t source) (omega (arith, length-take t source)))

take-between :
    (at s : ℕ) (source : Text)
    → at ≤ s
    → take s source ≡ take at source ++ take (s - at) (drop at source)
take-between at s source h =
    let e : s ≡ at + (s - at) = omega arith in
    ap (λ n. take n source) e ∙ take-split at (s - at) source

drop-between : (at t : ℕ) (source : Text) → at ≤ t → drop (t - at) (drop at source) ≡ drop t source
drop-between at t source h =
    let e : at + (t - at) ≡ t = omega arith in
    drop-drop (t - at) at source ∙ ap (λ n. drop n source) e

apply_edits-weave :
    (at : ℕ) (es : List PlannedEdit) (source : Text)
    → IsLaidOut (length source) es
    → From at es
    → apply_edits es source ≡ take at source ++ weave at es (drop at source)
unfolding apply_edits splice
apply_edits-weave at [] source h f = sym (take-append-drop at source)
apply_edits-weave at (e ∷ es) source h f =
    let (le, fits) = InRange-parts (length source) e h.0 in
    let s = pos_part e.start in
    let t = pos_part e.end in
    let w = weave t es (drop t source) in
    let later = apply_edits-weave t es source h.2 (From-Before (length source) e es h.0 h.1) in
    splice e (apply_edits es source)
    ≡⟨ ap (splice e) later ⟩ splice e (take t source ++ w)
    ≡⟨ (rw (take-spliced s t source w le fits, drop-spliced t source w fits)) ⟩
      take s source ++ (e.text ++ w)
    ≡⟨ (rw (take-between at s source f.0, append_assoc)) ⟩
      take at source ++ (take (s - at) (drop at source) ++ (e.text ++ w))
    ≡⟨ (rw (drop-between at t source (omega (arith, f.0)))) ⟩
      take at source ++ weave at (e ∷ es) (drop at source) ∎

-- Applying accepted edits from the last to the first gives the text that one pass over the
-- source from its front would write: what lies between the edits is kept, and each edit's text
-- stands in the place of its range.
pub apply_edits-eq-weave :
    (es : List PlannedEdit) (source : Text)
    → IsLaidOut (length source) es
    → apply_edits es source ≡ weave 0 es source
apply_edits-eq-weave es source h = apply_edits-weave 0 es source h (From-zero es)
