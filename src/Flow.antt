-- ===== src/Flow.antt =====
-- internal/controlflow/model.go: the control-flow graph of a function. The blocks are a store that
-- is indexed by their numbers, and a builder is passed along. What the evaluator knows of a
-- condition is a parameter.
mod Graph
mod Search
mod Statements
pub mod Connect
mod Leads
mod Loops
mod Shapes
pub mod Sound
pub mod Reach
mod Examples
unfoldable pub use Graph.*
unfoldable pub use Search.*
unfoldable pub use Statements.*
use pawnlint.Base.{
  ℕ, zero, suc, ◌+◌, Bool, true, false, ◌&&◌, ◌||◌, not, Option, none, some, List, [], ◌∷◌, ◌++◌,
  Text, text_eq, mark, ◌==◌, if◌then◌else◌,
}
use pawnlint.Tree.{
  Kind, Label, Info, Node, Children, node, nil, child, info, field, same_label, is_statement,
}

unfoldable mutual
  pub build_node : Conditions → Node → Step
  build_node known (node i cs) incoming target b =
      let result = build_kind known i (build_parts known cs) cs incoming target b in
      if i.inactive then (b, incoming) else result

  pub build_parts : Conditions → Children → List Part
  build_parts known nil = []
  build_parts known (child l n cs) =
      record { name = l; info = info n; build = build_node known n } ∷ build_parts known cs

-- The entry is block 0 and the exit is block 1.
unfoldable pub new_builder : Builder
unfolding new_block
new_builder = new_block none (
    new_block none (record {
      count = 0;
      block_at = λ k. record { of_node = none; successors = []; predecessors = [] };
      nodes = λ k. none;
      location_overrides = λ k. none;
      labels = [];
      gotos = [];
      uncertain = false;
    }))

-- The loop over the gotos.
unfoldable pub resolve_gotos : List (Text × ℕ) → List (ℕ × Text) → Builder → Builder
unfolding find_label connect give_up
resolve_gotos labels [] b = b
resolve_gotos labels ((from, name) ∷ rest) b =
    resolve_gotos labels rest
      (elim (find_label name labels) [ none ↦ give_up b | some to ↦ connect from to jump b ])

-- `build`: the function's graph, and its fall-through exits.
unfoldable pub build : Conditions → Info → Option Node → Builder × List ℕ
unfolding build_node new_builder connect_all resolve_gotos give_up
build known function none = (give_up new_builder, [])
build known function (some body) =
    let (b, exits) =
      build_node known body (0 ∷ []) (record { break_to = none; continue_to = none }) new_builder in
    let joined = connect_all exits exit_block fallthrough b in
    if function.has_error || function.uncertain
    then (give_up new_builder, [])
    else (resolve_gotos joined.labels joined.gotos joined, exits)
