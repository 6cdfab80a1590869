-- ===== src/Complexity/Saturation.antt =====
-- The saturating NPath measure against one that does not saturate.
pub mod Exact
mod Product
use native.Mathlib.Nat.{div-add-mod, mod-lt, mul-le-mul_right, mul-lt-mul_of_pos_right, div-le_self}
use pawnlint.Base.{
  ℕ, zero, suc, ◌+◌, ◌-◌, ◌*◌, ◌/◌, ◌%◌, ◌≤◌, ◌<◌, ◌≡◌, refl, sym, Bool, true, false, ◌&&◌, ◌||◌,
  not, ◌⊎◌, inl, inr, Bool-cases, Option, none, some, List, [], ◌∷◌, ltb, leb, ◌==◌, arith,
  if◌then◌else◌,
}
use pawnlint.Tree.{
  Kind, Tok, Label, Info, info, Node, Children, node, nil, child, field, skipped, same_label,
}
use pawnlint.Complexity.{
  npath_complexity_limit, npath_add, npath_multiply, branches, npath_decisions,
  npath_decisions_from, npath_expression_decisions, Part, paths_of, npath_sequence, is_case,
  is_default, npath_clauses, npath_switch, npath_kind, npath_node, npath_parts,
}
use pawnlint.Complexity.Saturation.Exact.{
  exact_decisions, exact_decisions_from, exact_of_field, exact_sequence, exact_clauses,
  exact_switch, exact_kind, exact_node, exact_parts,
}
use pawnlint.Complexity.Saturation.Product.{
  Saturates, Counts, npath_add-Saturates, npath_add-Counts, npath_multiply-Counts,
}

unit-Saturates : (b : Bool) → Saturates (if b then 1 else 0) (if b then 1 else 0)
unit-Saturates true = inr (refl, omega arith)
unit-Saturates false = inr (refl, omega arith)

mutual
  unfolding npath_decisions npath_decisions_from exact_decisions exact_decisions_from

  npath_decisions-Saturates : (n : Node) → Saturates (npath_decisions n) (exact_decisions n)
  npath_decisions-Saturates (node i cs) = elim (Bool-cases (skipped i)) [
    | inl out ↦ rw out (inr (refl, omega arith))
    | inr visible ↦
        rw visible (decisions_from-Saturates _ _ (unit-Saturates (branches i.kind i.tok)) cs)
  ]

  decisions_from-Saturates :
      (a e : ℕ)
      → Saturates a e
      → (cs : Children) → Saturates (npath_decisions_from a cs) (exact_decisions_from e cs)
  decisions_from-Saturates a e h nil = h
  decisions_from-Saturates a e h (child l n cs) =
      decisions_from-Saturates (npath_add a (npath_decisions n)) (e + exact_decisions n)
        (npath_add-Saturates a (npath_decisions n) e (exact_decisions n) h
          (npath_decisions-Saturates n))
        cs

expression-Saturates :
    (n : Option Node) → Saturates (npath_expression_decisions n) (exact_of_field n)
unfolding npath_expression_decisions exact_of_field
expression-Saturates none = inr (refl, omega arith)
expression-Saturates (some n) = npath_decisions-Saturates n

-- The parts of the two measures, side by side.
abbrev Agree : List Part → List Part → Type 0
Agree [] [] = Unit
Agree [] (q ∷ qs) = ⊥
Agree (p ∷ ps) [] = ⊥
Agree (p ∷ ps) (q ∷ qs) =
    (p.name ≡ q.name) × (p.info ≡ q.info) × Counts p.paths q.paths × Agree ps qs

paths_of-Counts :
    (name : Label) (ps qs : List Part) → Agree ps qs → Counts (paths_of name ps) (paths_of name qs)
unfolding paths_of
paths_of-Counts name [] [] h = (omega arith, inr (refl, omega arith))
paths_of-Counts name [] (q ∷ qs) h = absurd h
paths_of-Counts name (p ∷ ps) [] h = absurd h
paths_of-Counts name (p ∷ ps) (q ∷ qs) (same, _, counts, rest) =
    rw same (elim (Bool-cases (same_label q.name name)) [
      | inl here ↦ rw here counts
      | inr later ↦ rw later (paths_of-Counts name ps qs rest)
    ])

npath_sequence-Counts :
    (a e : ℕ) (ps qs : List Part)
    → Counts a e
    → Agree ps qs
    → Counts (npath_sequence a ps) (exact_sequence e qs)
unfolding npath_sequence exact_sequence
npath_sequence-Counts a e [] [] c h = c
npath_sequence-Counts a e [] (q ∷ qs) c h = absurd h
npath_sequence-Counts a e (p ∷ ps) [] c h = absurd h
npath_sequence-Counts a e (p ∷ ps) (q ∷ qs) c (_, _, counts, rest) =
    npath_sequence-Counts (npath_multiply a p.paths) (e * q.paths) ps qs
      (npath_multiply-Counts a p.paths e q.paths c counts) rest

npath_clauses-Saturates :
    (a e : ℕ) (default : Bool) (ps qs : List Part)
    → Saturates a e
    → Agree ps qs
    → Saturates (npath_clauses a default ps).0 (exact_clauses e default qs).0
      × ((npath_clauses a default ps).1 ≡ (exact_clauses e default qs).1)
unfolding npath_clauses exact_clauses
npath_clauses-Saturates a e default [] [] c h = (c, refl)
npath_clauses-Saturates a e default [] (q ∷ qs) c h = absurd h
npath_clauses-Saturates a e default (p ∷ ps) [] c h = absurd h
npath_clauses-Saturates a e default (p ∷ ps) (q ∷ qs) c (_, same, counts, rest) =
    rw same
      (elim (Bool-cases (not (skipped q.info) && (is_case q.info.kind || is_default q.info.kind))) [
        | inl takes ↦
            rw (takes, npath_clauses, exact_clauses)
              (npath_clauses-Saturates (npath_add a p.paths) (e + q.paths) _ ps qs
                (npath_add-Saturates a p.paths e q.paths c counts.1) rest)
        | inr passes ↦
            rw (passes, npath_clauses, exact_clauses) (npath_clauses-Saturates a e _ ps qs c rest)
      ])

one-Counts : Counts 1 1
one-Counts = (omega arith, inr (refl, omega arith))

-- `npathSwitch` makes 1 of 0.
or_one-Counts :
    (a e : ℕ) → Saturates a e → Counts (if a == 0 then 1 else a) (if e == 0 then 1 else e)
or_one-Counts a e (inl h) =
    let a_full : (a == 0) ≡ false = ground arith in
    let e_full : (e == 0) ≡ false = ground arith in rw (a_full, e_full) (omega arith, inl h)
or_one-Counts zero e (inr h) = let z : e ≡ 0 = omega arith in rw z one-Counts
or_one-Counts (suc a) e (inr h) =
    let a_full : (suc a == 0) ≡ false = ground arith in
    let e_full : (e == 0) ≡ false = ground arith in rw (a_full, e_full) (omega arith, inr h)

loop-Counts :
    (ps qs : List Part) (cs : Children)
    → Agree ps qs
    → Counts
        (npath_add
          (npath_add (paths_of Label.body ps) 1)
          (npath_expression_decisions (field Label.condition cs)))
        (paths_of Label.body qs + 1 + exact_of_field (field Label.condition cs))
loop-Counts ps qs cs h =
    npath_add-Counts _ _ _ _
      (npath_add-Counts _ _ _ _ (paths_of-Counts Label.body ps qs h) one-Counts.1)
      (expression-Saturates (field Label.condition cs))

npath_switch-Counts :
    (ps qs : List Part) (d e : ℕ)
    → Agree ps qs
    → Saturates d e
    → Counts (npath_switch ps d) (exact_switch qs e)
unfolding npath_switch exact_switch
npath_switch-Counts ps qs d e h k =
    let (paths, same) = npath_clauses-Saturates 0 0 false ps qs (inr (refl, omega arith)) h in
    let a = (npath_clauses 0 false ps).0 in
    let x = (exact_clauses 0 false qs).0 in
    rw same (elim (Bool-cases (exact_clauses 0 false qs).1) [
      | inl has ↦
          rw has (or_one-Counts (npath_add a d) (x + e) (npath_add-Saturates a d x e paths k))
      | inr has ↦ rw has (
          or_one-Counts (npath_add (npath_add a 1) d) (x + 1 + e) (
            npath_add-Saturates (npath_add a 1) d (x + 1) e
              (npath_add-Saturates a 1 x 1 paths (inr (refl, omega arith))) k))
    ])

npath_kind-Counts :
    (kind : Kind) (own exact : ℕ) (ps qs : List Part) (cs : Children)
    → Saturates own exact
    → Agree ps qs
    → Counts (npath_kind kind own ps cs) (exact_kind kind exact qs cs)
unfolding npath_kind exact_kind
npath_kind-Counts Kind.block own x ps qs cs o h = npath_sequence-Counts 1 1 ps qs one-Counts h
npath_kind-Counts Kind.conditional_region own x ps qs cs o h =
    npath_sequence-Counts 1 1 ps qs one-Counts h
npath_kind-Counts Kind.conditional_branch own x ps qs cs o h =
    npath_sequence-Counts 1 1 ps qs one-Counts h
npath_kind-Counts Kind.if_statement own x ps qs cs o h =
    npath_add-Counts _ _ _ _
      (npath_add-Counts _ _ _ _ (paths_of-Counts Label.consequence ps qs h)
        (paths_of-Counts Label.alternative ps qs h).1)
      (expression-Saturates (field Label.condition cs))
npath_kind-Counts Kind.while_statement own x ps qs cs o h = loop-Counts ps qs cs h
npath_kind-Counts Kind.do_while_statement own x ps qs cs o h = loop-Counts ps qs cs h
npath_kind-Counts Kind.for_statement own x ps qs cs o h =
    npath_add-Counts _ _ _ _
      (npath_add-Counts _ _ _ _
        (npath_add-Counts _ _ _ _
          (npath_add-Counts _ _ _ _ (paths_of-Counts Label.body ps qs h) one-Counts.1)
          (expression-Saturates (field Label.init cs)))
        (expression-Saturates (field Label.condition cs)))
      (expression-Saturates (field Label.increment cs))
npath_kind-Counts Kind.switch_statement own x ps qs cs o h =
    npath_switch-Counts ps qs _ _ h (expression-Saturates (field Label.condition cs))
npath_kind-Counts Kind.case_clause own x ps qs cs o h = paths_of-Counts Label.body ps qs h
npath_kind-Counts Kind.default_clause own x ps qs cs o h = paths_of-Counts Label.body ps qs h
npath_kind-Counts Kind.macro_invocation_block own x ps qs cs o h =
    paths_of-Counts Label.body ps qs h
npath_kind-Counts _ own x ps qs cs o h = npath_add-Counts 1 own 1 x one-Counts o

mutual
  unfolding npath_node npath_parts exact_node exact_parts

  npath_node-Counts : (n : Node) → Counts (npath_node n) (exact_node n)
  npath_node-Counts (node i cs) = elim (Bool-cases (skipped i)) [
    | inl out ↦ rw out one-Counts
    | inr visible ↦ rw visible (
        npath_kind-Counts i.kind (npath_decisions (node i cs)) (exact_decisions (node i cs))
          (npath_parts cs) (exact_parts cs) cs (npath_decisions-Saturates (node i cs))
          (npath_parts-Agree cs))
  ]

  npath_parts-Agree : (cs : Children) → Agree (npath_parts cs) (exact_parts cs)
  npath_parts-Agree nil = tt
  npath_parts-Agree (child l n cs) = (refl, refl, npath_node-Counts n, npath_parts-Agree cs)

-- The NPath measure of a node is at least 1. Below the limit of 1,000,000,000 it is the measure
-- that sums and multiplies without a limit; where it is the limit, that measure is at least half
-- of the limit.
pub npath_node_saturates :
    (n : Node)
    → (1 ≤ npath_node n)
      × (((npath_node n ≡ npath_complexity_limit) × (npath_complexity_limit ≤ 2 * exact_node n))
          ⊎ ((npath_node n ≡ exact_node n) × (exact_node n < npath_complexity_limit)))
npath_node_saturates n = npath_node-Counts n
