-- ===== src/Flow/Examples.antt =====
-- The body of a small function: while (c) { break; } return;
use pawnlint.Base.{ℕ, ◌≡◌, ◌↔◌, refl, Bool, true, false, some, none, []}
use pawnlint.Tree.{Kind, Tok, Label, Info, Node, node, nil, child}
use pawnlint.Flow.{Builder, Conditions, build, mark_reachable, can_fall_through}
use pawnlint.Flow.Connect.{IsBuilt, Below}
use pawnlint.Flow.Sound.{build-IsBuilt}
use pawnlint.Flow.Reach.{Reachable, mark_reachable_iff}

abbrev info_of : ℕ → Kind → Info
info_of id kind = record {
  id = id;
  kind = kind;
  tok = Tok.other_tok;
  text = [];
  inactive = false;
  uncertain = false;
  has_error = false;
}

abbrev jump_out : Node
jump_out =
    node (info_of 4 Kind.block)
      (child Label.unnamed (node (info_of 5 Kind.break_statement) nil) nil)

abbrev loop : Node
loop =
    node (info_of 2 Kind.while_statement)
      (child Label.condition (node (info_of 3 Kind.identifier) nil) (child Label.body jump_out nil))

abbrev body : Node
body = node (info_of 1 Kind.block) (
    child Label.unnamed loop (child Label.unnamed (node (info_of 6 Kind.return_statement) nil) nil))

abbrev unknown_conditions : Conditions
unknown_conditions = λ id. none

abbrev graph : Builder
graph = (build unknown_conditions (info_of 0 Kind.other_kind) (some body)).0

eight_blocks : graph.count ≡ 8
unfolding build pawnlint.Flow.build_kind
eight_blocks = refl

no_fall_through : (build unknown_conditions (info_of 0 Kind.other_kind) (some body)).1 ≡ []
unfolding build pawnlint.Flow.build_kind
no_fall_through = refl

build-IsBuilt_example :
    IsBuilt (build unknown_conditions (info_of 0 Kind.other_kind) (some body)).0
    × Below
        (build unknown_conditions (info_of 0 Kind.other_kind) (some body)).0.count
        (build unknown_conditions (info_of 0 Kind.other_kind) (some body)).1
build-IsBuilt_example = build-IsBuilt unknown_conditions (info_of 0 Kind.other_kind) (some body)

graph-IsBuilt : IsBuilt graph
graph-IsBuilt = (build-IsBuilt unknown_conditions (info_of 0 Kind.other_kind) (some body)).0

mark_reachable_iff_example :
    (r : ℕ → Bool) × (mark_reachable graph ≡ some r) × ((k : ℕ) → (r k ≡ true) ↔ Reachable graph k)
mark_reachable_iff_example = mark_reachable_iff graph graph-IsBuilt
