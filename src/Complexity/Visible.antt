-- ===== src/Complexity/Visible.antt =====
-- Cyclomatic complexity against a count of the decisions, which is a relation.
use pawnlint.Base.{ℕ, ◌+◌, ◌≡◌, ◌↔◌, refl, Bool-cases, true, false, ◌||◌, inl, inr, some, arith}
use pawnlint.Tree.{Kind, Tok, Info, Node, Children, Label, node, nil, child}
use pawnlint.Complexity.{
  short_circuit, decides, cyclomatic_decision_count, cyclomatic_children, cyclomatic,
}

-- The kinds of nodes at which control flow branches: statements and clauses with a condition, the
-- conditional expression, and `&&` and `||`.
pub data IsDecision : Kind → Tok → Type 0 where
  if_decides : {t : Tok} → IsDecision Kind.if_statement t
  while_decides : {t : Tok} → IsDecision Kind.while_statement t
  do_while_decides : {t : Tok} → IsDecision Kind.do_while_statement t
  for_decides : {t : Tok} → IsDecision Kind.for_statement t
  case_decides : {t : Tok} → IsDecision Kind.case_clause t
  ternary_decides : {t : Tok} → IsDecision Kind.ternary_expression t
  and_decides : IsDecision Kind.binary_expression Tok.and_and
  or_decides : IsDecision Kind.binary_expression Tok.or_or

-- The decisions of a tree: none in a node that is inactive or uncertain, and else those of its
-- children, and one more where the node is a decision itself.
mutual
  pub data Decisions : Node → ℕ → Type 0 where
    hidden :
        {i : Info} {cs : Children} → (i.inactive || i.uncertain) ≡ true → Decisions (node i cs) 0
    counts :
        {i : Info} {cs : Children} {n : ℕ}
        → (i.inactive || i.uncertain) ≡ false
        → IsDecision i.kind i.tok
        → ChildDecisions cs n
        → Decisions (node i cs) (1 + n)
    passes :
        {i : Info} {cs : Children} {n : ℕ}
        → (i.inactive || i.uncertain) ≡ false
        → (IsDecision i.kind i.tok → ⊥)
        → ChildDecisions cs n
        → Decisions (node i cs) n

  pub data ChildDecisions : Children → ℕ → Type 0 where
    no_child : ChildDecisions nil 0
    one_more :
        {l : Label} {n : Node} {cs : Children} {m k : ℕ}
        → Decisions n m
        → ChildDecisions cs k
        → ChildDecisions (child l n cs) (m + k)

decides-of_IsDecision : (k : Kind) (t : Tok) → IsDecision k t → decides k t ≡ true
unfolding decides short_circuit
decides-of_IsDecision _ _ if_decides = refl
decides-of_IsDecision _ _ while_decides = refl
decides-of_IsDecision _ _ do_while_decides = refl
decides-of_IsDecision _ _ for_decides = refl
decides-of_IsDecision _ _ case_decides = refl
decides-of_IsDecision _ _ ternary_decides = refl
decides-of_IsDecision _ _ and_decides = refl
decides-of_IsDecision _ _ or_decides = refl

IsDecision-of_decides : (k : Kind) (t : Tok) → decides k t ≡ true → IsDecision k t
unfolding decides short_circuit
IsDecision-of_decides Kind.block t h = cc
IsDecision-of_decides Kind.conditional_region t h = cc
IsDecision-of_decides Kind.conditional_branch t h = cc
IsDecision-of_decides Kind.shared_conditional t h = cc
IsDecision-of_decides Kind.conditional_function t h = cc
IsDecision-of_decides Kind.conditional_splice t h = cc
IsDecision-of_decides Kind.macro_invocation_block t h = cc
IsDecision-of_decides Kind.if_statement t h = if_decides
IsDecision-of_decides Kind.while_statement t h = while_decides
IsDecision-of_decides Kind.do_while_statement t h = do_while_decides
IsDecision-of_decides Kind.for_statement t h = for_decides
IsDecision-of_decides Kind.switch_statement t h = cc
IsDecision-of_decides Kind.case_clause t h = case_decides
IsDecision-of_decides Kind.default_clause t h = cc
IsDecision-of_decides Kind.return_statement t h = cc
IsDecision-of_decides Kind.goto_statement t h = cc
IsDecision-of_decides Kind.label_statement t h = cc
IsDecision-of_decides Kind.break_statement t h = cc
IsDecision-of_decides Kind.continue_statement t h = cc
IsDecision-of_decides Kind.state_statement t h = cc
IsDecision-of_decides Kind.expression_statement t h = cc
IsDecision-of_decides Kind.empty_statement t h = cc
IsDecision-of_decides Kind.variable_declaration t h = cc
IsDecision-of_decides Kind.ternary_expression t h = ternary_decides
IsDecision-of_decides Kind.binary_expression Tok.and_and h = and_decides
IsDecision-of_decides Kind.binary_expression Tok.or_or h = or_decides
IsDecision-of_decides Kind.binary_expression Tok.bang h = cc
IsDecision-of_decides Kind.binary_expression Tok.other_tok h = cc
IsDecision-of_decides Kind.unary_expression t h = cc
IsDecision-of_decides Kind.parenthesized_expression t h = cc
IsDecision-of_decides Kind.tagged_expression t h = cc
IsDecision-of_decides Kind.identifier t h = cc
IsDecision-of_decides Kind.literal t h = cc
IsDecision-of_decides Kind.other_kind t h = cc

plus_zero : (k : ℕ) → 0 + k ≡ k
plus_zero k = omega arith

mutual
  unfolding cyclomatic_decision_count cyclomatic_children

  Decisions-count : (n : Node) → Decisions n (cyclomatic_decision_count n)
  Decisions-count (node i cs) = elim (Bool-cases (i.inactive || i.uncertain)) [
    | inl out ↦ rw out (hidden out)
    | inr in_sight ↦
        let (k, inner, total) = ChildDecisions-count cs in
        elim (Bool-cases (decides i.kind i.tok)) [
          | inl yea ↦
              rw (in_sight, yea, total 1)
                (counts in_sight (IsDecision-of_decides i.kind i.tok yea) inner)
          | inr nay ↦
              rw (in_sight, nay, total 0, plus_zero k)
                (passes in_sight
                  (λ d. absurd (ground (arith, nay, decides-of_IsDecision i.kind i.tok d))) inner)
        ]
  ]

  ChildDecisions-count :
      (cs : Children) → (k : ℕ) × ChildDecisions cs k × ((c : ℕ) → cyclomatic_children c cs ≡ c + k)
  ChildDecisions-count nil = (0, no_child, λ c. omega arith)
  ChildDecisions-count (child l n cs) =
      let (k, inner, total) = ChildDecisions-count cs in
      (
        cyclomatic_decision_count n + k,
        one_more (Decisions-count n) inner,
        λ c. omega (arith, total (c + cyclomatic_decision_count n)),
      )

mutual
  unfolding cyclomatic_decision_count cyclomatic_children

  Decisions-eq : (n : Node) (k : ℕ) → Decisions n k → k ≡ cyclomatic_decision_count n
  Decisions-eq (node i cs) _ (hidden out) = rw out
  Decisions-eq (node i cs) _ (counts {n = n} in_sight decision inner) =
      let yea = decides-of_IsDecision i.kind i.tok decision in
      rw (in_sight, yea) (omega (arith, ChildDecisions-eq cs n inner 1))
  Decisions-eq (node i cs) _ (passes {n = n} in_sight plain inner) =
      elim (Bool-cases (decides i.kind i.tok)) [
        | inl yea ↦ absurd (plain (IsDecision-of_decides i.kind i.tok yea))
        | inr nay ↦ rw (in_sight, nay) (omega (arith, ChildDecisions-eq cs n inner 0))
      ]

  ChildDecisions-eq :
      (cs : Children) (k : ℕ) → ChildDecisions cs k → (c : ℕ) → c + k ≡ cyclomatic_children c cs
  ChildDecisions-eq nil _ no_child c = omega arith
  ChildDecisions-eq (child l n cs) _ (one_more {m = m} {k = k} first inner) c = omega (
    arith,
    Decisions-eq n m first,
    ChildDecisions-eq cs k inner (c + cyclomatic_decision_count n),
  )

-- The cyclomatic complexity of a function's body is one more than `k` exactly if `k` is the number
-- of its decisions: the `if`, `while`, `do` and `for` statements, `case` clauses, conditional
-- expressions, `&&` and `||` that are reached without passing through an inactive or uncertain
-- node.
pub cyclomatic-Decisions : (n : Node) (k : ℕ) → (cyclomatic (some n) ≡ 1 + k) ↔ Decisions n k
unfolding cyclomatic
cyclomatic-Decisions n k = (
  (λ e.
      let same : cyclomatic_decision_count n ≡ k = omega (arith, e) in
      rw same at (Decisions-count n)),
  λ d. omega (arith, Decisions-eq n k d),
)
