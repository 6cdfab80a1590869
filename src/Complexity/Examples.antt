-- ===== src/Complexity/Examples.antt =====
-- The body of a small function: if (a && b) { while (c) { } } return;
use pawnlint.Base.{ℕ, ◌+◌, ◌*◌, ◌≤◌, ◌<◌, ◌≡◌, ◌↔◌, refl, ◌⊎◌, false, some, []}
use pawnlint.Tree.{Kind, Tok, Label, Node, Children, node, nil, child}
use pawnlint.Complexity.{cyclomatic, npath_node, npath_complexity_limit, maximum_nesting_depth}
use pawnlint.Complexity.Visible.{Decisions, cyclomatic-Decisions}
use pawnlint.Complexity.Saturation.{npath_node_saturates}
use pawnlint.Complexity.Saturation.Exact.{exact_node}

abbrev of_kind : ℕ → Kind → Tok → Children → Node
of_kind id kind tok cs =
    node
      (record {
        id = id;
        kind = kind;
        tok = tok;
        text = [];
        inactive = false;
        uncertain = false;
        has_error = false;
      })
      cs

abbrev loop : Node
loop = of_kind 4 Kind.while_statement Tok.other_tok (
    child Label.condition (of_kind 5 Kind.identifier Tok.other_tok nil)
      (child Label.body (of_kind 6 Kind.block Tok.other_tok nil) nil))

abbrev choice : Node
choice = of_kind 1 Kind.if_statement Tok.other_tok (
    child Label.condition (of_kind 2 Kind.binary_expression Tok.and_and nil) (
      child Label.consequence (of_kind 3 Kind.block Tok.other_tok (child Label.unnamed loop nil))
        nil))

abbrev body : Node
body = of_kind 0 Kind.block Tok.other_tok (
    child Label.unnamed choice
      (child Label.unnamed (of_kind 7 Kind.return_statement Tok.other_tok nil) nil))

cyclomatic_four : cyclomatic (some body) ≡ 4
unfolding cyclomatic pawnlint.Complexity.cyclomatic_decision_count pawnlint.Complexity.decides
cyclomatic_four = refl

npath_four : npath_node body ≡ 4
unfolding npath_node pawnlint.Complexity.npath_kind pawnlint.Complexity.npath_multiply
    pawnlint.Complexity.npath_add pawnlint.Complexity.npath_expression_decisions
    pawnlint.Complexity.npath_decisions pawnlint.Complexity.branches
npath_four = refl

nesting_two : (maximum_nesting_depth (some body)).maximum ≡ 2
unfolding maximum_nesting_depth pawnlint.Complexity.visit pawnlint.Complexity.visit_kind
nesting_two = refl

cyclomatic-Decisions_example : (cyclomatic (some body) ≡ 1 + 3) ↔ Decisions body 3
cyclomatic-Decisions_example = cyclomatic-Decisions body 3

npath_node_saturates_example :
    (1 ≤ npath_node body)
    × (((npath_node body ≡ npath_complexity_limit) × (npath_complexity_limit ≤ 2 * exact_node body))
        ⊎ ((npath_node body ≡ exact_node body) × (exact_node body < npath_complexity_limit)))
npath_node_saturates_example = npath_node_saturates body
