-- ===== src/Complexity/Saturation/Exact.antt =====
-- The NPath measure without a limit.
use pawnlint.Base.{
  ℕ, ◌+◌, ◌*◌, Bool, false, ◌&&◌, ◌||◌, not, Option, none, some, List, [], ◌∷◌, ◌==◌, if◌then◌else◌,
}
use pawnlint.Tree.{Kind, Label, info, Node, Children, node, nil, child, field, skipped}
use pawnlint.Complexity.{branches, Part, paths_of, is_case, is_default}

-- Alternatives add, sequences multiply, with no limit.
unfoldable mutual
  pub exact_decisions : Node → ℕ
  exact_decisions (node i cs) =
      let all = exact_decisions_from (if branches i.kind i.tok then 1 else 0) cs in
      if skipped i then 0 else all

  pub exact_decisions_from : ℕ → Children → ℕ
  exact_decisions_from decisions nil = decisions
  exact_decisions_from decisions (child l n cs) =
      exact_decisions_from (decisions + exact_decisions n) cs

unfoldable pub exact_of_field : Option Node → ℕ
exact_of_field none = 0
exact_of_field (some n) = exact_decisions n

unfoldable pub exact_sequence : ℕ → List Part → ℕ
exact_sequence paths [] = paths
exact_sequence paths (p ∷ ps) = exact_sequence (paths * p.paths) ps

unfoldable pub exact_clauses : ℕ → Bool → List Part → ℕ × Bool
exact_clauses paths has_default [] = (paths, has_default)
exact_clauses paths has_default (p ∷ ps) =
    let takes_part = not (skipped p.info) && (is_case p.info.kind || is_default p.info.kind) in
    exact_clauses (if takes_part then paths + p.paths else paths)
      (has_default || takes_part && is_default p.info.kind) ps

unfoldable pub exact_switch : List Part → ℕ → ℕ
exact_switch parts decisions =
    let (paths, has_default) = exact_clauses 0 false parts in
    let all = (if has_default then paths else paths + 1) + decisions in if all == 0 then 1 else all

unfoldable pub exact_kind : Kind → ℕ → List Part → Children → ℕ
unfolding exact_sequence exact_switch paths_of
exact_kind Kind.block own ps cs = exact_sequence 1 ps
exact_kind Kind.conditional_region own ps cs = exact_sequence 1 ps
exact_kind Kind.conditional_branch own ps cs = exact_sequence 1 ps
exact_kind Kind.if_statement own ps cs =
    paths_of Label.consequence ps
    + paths_of Label.alternative ps
    + exact_of_field (field Label.condition cs)
exact_kind Kind.while_statement own ps cs =
    paths_of Label.body ps + 1 + exact_of_field (field Label.condition cs)
exact_kind Kind.do_while_statement own ps cs =
    paths_of Label.body ps + 1 + exact_of_field (field Label.condition cs)
exact_kind Kind.for_statement own ps cs =
    paths_of Label.body ps
    + 1
    + exact_of_field (field Label.init cs)
    + exact_of_field (field Label.condition cs)
    + exact_of_field (field Label.increment cs)
exact_kind Kind.switch_statement own ps cs =
    exact_switch ps (exact_of_field (field Label.condition cs))
exact_kind Kind.case_clause own ps cs = paths_of Label.body ps
exact_kind Kind.default_clause own ps cs = paths_of Label.body ps
exact_kind Kind.macro_invocation_block own ps cs = paths_of Label.body ps
exact_kind _ own ps cs = 1 + own

unfoldable mutual
  pub exact_node : Node → ℕ
  exact_node (node i cs) =
      let all = exact_kind i.kind (exact_decisions (node i cs)) (exact_parts cs) cs in
      if skipped i then 1 else all

  pub exact_parts : Children → List Part
  exact_parts nil = []
  exact_parts (child l n cs) =
      record { name = l; info = info n; paths = exact_node n } ∷ exact_parts cs
