-- ===== src/Complexity.antt =====
-- pkg/rules/maintainability: the measures of the rules cyclomatic-complexity, npath-complexity
-- and maximum-nesting. What the rules report is left out; the measures are what they compare.
pub mod Saturation
pub mod Visible
pub mod Rules
mod Examples
use pawnlint.Base.{
  ℕ, zero, suc, ◌+◌, ◌-◌, ◌*◌, ◌/◌, Bool, true, false, ◌&&◌, ◌||◌, not, Option, none, some, List,
  [], ◌∷◌, ltb, leb, ◌==◌, if◌then◌else◌,
}
use pawnlint.Tree.{
  Kind, Tok, Label, Info, info, Node, Children, node, nil, child, field, skipped, same_label,
}

-- node.Tok.Kind == token.AndAnd || node.Tok.Kind == token.OrOr
unfoldable pub short_circuit : Tok → Bool
short_circuit Tok.and_and = true
short_circuit Tok.or_or = true
short_circuit _ = false

-- The switch of `cyclomaticDecisionCount`: whether the node itself counts.
unfoldable pub decides : Kind → Tok → Bool
unfolding short_circuit
decides Kind.if_statement t = true
decides Kind.while_statement t = true
decides Kind.do_while_statement t = true
decides Kind.for_statement t = true
decides Kind.case_clause t = true
decides Kind.ternary_expression t = true
decides Kind.binary_expression t = short_circuit t
decides _ t = false

unfoldable mutual
  pub cyclomatic_decision_count : Node → ℕ
  cyclomatic_decision_count (node i cs) =
      let own : ℕ = if decides i.kind i.tok then 1 else 0 in
      let all = cyclomatic_children own cs in if skipped i then 0 else all

  -- The loop over the children, from the count so far.
  pub cyclomatic_children : ℕ → Children → ℕ
  cyclomatic_children count nil = count
  cyclomatic_children count (child l n cs) =
      cyclomatic_children (count + cyclomatic_decision_count n) cs

-- The measure that `CyclomaticComplexity.Run` compares with the maximum.
unfoldable pub cyclomatic : Option Node → ℕ
cyclomatic none = 1
cyclomatic (some n) = 1 + cyclomatic_decision_count n

abbrev pub npath_complexity_limit : ℕ
npath_complexity_limit = 1000000000

-- The subtraction is exact, since no operand is beyond the limit.
unfoldable pub npath_add : ℕ → ℕ → ℕ
npath_add left right =
    if leb (npath_complexity_limit - right) left then npath_complexity_limit else left + right

unfoldable pub npath_multiply : ℕ → ℕ → ℕ
npath_multiply left right =
    if left == 0 || right == 0
    then 0
    else if leb (npath_complexity_limit / right) left
    then npath_complexity_limit
    else left * right

-- The test of `npathExpressionDecisions`.
unfoldable pub branches : Kind → Tok → Bool
unfolding short_circuit
branches Kind.ternary_expression t = true
branches Kind.binary_expression t = short_circuit t
branches _ t = false

unfoldable mutual
  pub npath_decisions : Node → ℕ
  npath_decisions (node i cs) =
      let all = npath_decisions_from (if branches i.kind i.tok then 1 else 0) cs in
      if skipped i then 0 else all

  pub npath_decisions_from : ℕ → Children → ℕ
  npath_decisions_from decisions nil = decisions
  npath_decisions_from decisions (child l n cs) =
      npath_decisions_from (npath_add decisions (npath_decisions n)) cs

-- `npathExpressionDecisions` of a field, which may be nil.
unfoldable pub npath_expression_decisions : Option Node → ℕ
npath_expression_decisions none = 0
npath_expression_decisions (some n) = npath_decisions n

-- A child with its paths.
pub record Part : Type 0 where
  pub name : Label
  pub info : Info
  pub paths : ℕ

-- `npathNode` of a field, which may be nil.
unfoldable pub paths_of : Label → List Part → ℕ
paths_of name [] = 1
paths_of name (p ∷ ps) =
    let rest = paths_of name ps in if same_label p.name name then p.paths else rest

-- The loop of `npathSequence`.
unfoldable pub npath_sequence : ℕ → List Part → ℕ
npath_sequence paths [] = paths
npath_sequence paths (p ∷ ps) = npath_sequence (npath_multiply paths p.paths) ps

abbrev pub is_case : Kind → Bool
is_case Kind.case_clause = true
is_case _ = false

abbrev pub is_default : Kind → Bool
is_default Kind.default_clause = true
is_default _ = false

-- The loop of `npathSwitch`: the paths, and whether a default clause was seen.
unfoldable pub npath_clauses : ℕ → Bool → List Part → ℕ × Bool
npath_clauses paths has_default [] = (paths, has_default)
npath_clauses paths has_default (p ∷ ps) =
    let takes_part = not (skipped p.info) && (is_case p.info.kind || is_default p.info.kind) in
    npath_clauses (if takes_part then npath_add paths p.paths else paths)
      (has_default || takes_part && is_default p.info.kind) ps

unfoldable pub npath_switch : List Part → ℕ → ℕ
npath_switch parts decisions =
    let (paths, has_default) = npath_clauses 0 false parts in
    let all = npath_add (if has_default then paths else npath_add paths 1) decisions in
    if all == 0 then 1 else all

-- The switch of `npathNode`, from the paths of the children.
unfoldable pub npath_kind : Kind → ℕ → List Part → Children → ℕ
unfolding npath_sequence npath_switch paths_of
npath_kind Kind.block own ps cs = npath_sequence 1 ps
npath_kind Kind.conditional_region own ps cs = npath_sequence 1 ps
npath_kind Kind.conditional_branch own ps cs = npath_sequence 1 ps
npath_kind Kind.if_statement own ps cs =
    npath_add (npath_add (paths_of Label.consequence ps) (paths_of Label.alternative ps))
      (npath_expression_decisions (field Label.condition cs))
npath_kind Kind.while_statement own ps cs =
    npath_add (npath_add (paths_of Label.body ps) 1)
      (npath_expression_decisions (field Label.condition cs))
npath_kind Kind.do_while_statement own ps cs =
    npath_add (npath_add (paths_of Label.body ps) 1)
      (npath_expression_decisions (field Label.condition cs))
npath_kind Kind.for_statement own ps cs =
    npath_add
      (npath_add
        (npath_add (npath_add (paths_of Label.body ps) 1)
          (npath_expression_decisions (field Label.init cs)))
        (npath_expression_decisions (field Label.condition cs)))
      (npath_expression_decisions (field Label.increment cs))
npath_kind Kind.switch_statement own ps cs =
    npath_switch ps (npath_expression_decisions (field Label.condition cs))
npath_kind Kind.case_clause own ps cs = paths_of Label.body ps
npath_kind Kind.default_clause own ps cs = paths_of Label.body ps
npath_kind Kind.macro_invocation_block own ps cs = paths_of Label.body ps
npath_kind _ own ps cs = npath_add 1 own

unfoldable mutual
  pub npath_node : Node → ℕ
  npath_node (node i cs) =
      let all = npath_kind i.kind (npath_decisions (node i cs)) (npath_parts cs) cs in
      if skipped i then 1 else all

  pub npath_parts : Children → List Part
  npath_parts nil = []
  npath_parts (child l n cs) =
      record { name = l; info = info n; paths = npath_node n } ∷ npath_parts cs

-- `visit` of `maximumNestingDepth`, and its loops over children: the maximum so far and the node
-- that reaches it.
pub record Deepest : Type 0 where
  pub maximum : ℕ
  pub deepest : Option ℕ

abbrev pub raise : ℕ → Info → Deepest → Deepest
raise depth i d = if ltb d.maximum depth then record { maximum = depth; deepest = some i.id } else d

abbrev pub is_if : Node → Bool
is_if (node i cs) = elim i.kind [ Kind.if_statement ↦ true | _ ↦ false ]

abbrev pub is_loop : Kind → Bool
is_loop Kind.while_statement = true
is_loop Kind.do_while_statement = true
is_loop Kind.for_statement = true
is_loop Kind.switch_statement = true
is_loop _ = false

-- The visits of the children, each with its name and whether it is an if statement.
pub record ChildVisit : Type 0 where
  pub name : Label
  pub branches_again : Bool
  pub visit : ℕ → Deepest → Deepest

unfoldable pub visit_field : Label → List ChildVisit → (Bool → ℕ) → Deepest → Deepest
visit_field name [] depth d = d
visit_field name (v ∷ vs) depth d =
    let rest = visit_field name vs depth d in
    if same_label v.name name then v.visit (depth v.branches_again) d else rest

unfoldable pub visit_all : List ChildVisit → ℕ → Deepest → Deepest
visit_all [] depth d = d
visit_all (v ∷ vs) depth d = visit_all vs depth (v.visit depth d)

-- The switch of `visit`.
unfoldable pub visit_kind : Info → List ChildVisit → ℕ → Deepest → Deepest
unfolding visit_field visit_all
visit_kind i vs depth d = elim i.kind [
  | Kind.if_statement ↦
      let next = depth + 1 in
      visit_field Label.alternative vs (λ again. if again then depth else next)
        (visit_field Label.consequence vs (λ _. next)
          (visit_field Label.condition vs (λ _. next) (raise next i d)))
  | other ↦
      if is_loop other
      then visit_all vs (depth + 1) (raise (depth + 1) i d)
      else visit_all vs depth d
]

unfoldable mutual
  pub visit : Node → ℕ → Deepest → Deepest
  visit (node i cs) depth d =
      let result = visit_kind i (visits cs) depth d in if skipped i then d else result

  pub visits : Children → List ChildVisit
  visits nil = []
  visits (child l n cs) = record { name = l; branches_again = is_if n; visit = visit n } ∷ visits cs

unfoldable pub maximum_nesting_depth : Option Node → Deepest
maximum_nesting_depth none = record { maximum = 0; deepest = none }
maximum_nesting_depth (some n) = visit n 0 (record { maximum = 0; deepest = none })
