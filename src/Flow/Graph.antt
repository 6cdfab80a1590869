-- ===== src/Flow/Graph.antt =====
-- internal/controlflow/model.go: blocks and edges, and the builder that holds them.
use pawnlint.Base.{
  ℕ, ◌+◌, Bool, true, false, ◌&&◌, ◌||◌, Option, none, some, List, [], ◌∷◌, ◌++◌, Text, ◌==◌,
  if◌then◌else◌,
}

pub data EdgeKind : Type 0 where
  normal branch jump return_edge fallthrough : EdgeKind

pub record Edge : Type 0 where
  pub to : ℕ
  pub kind : EdgeKind

pub record Block : Type 0 where
  pub of_node : Option ℕ
  pub successors : List Edge
  pub predecessors : List ℕ

-- `builder` with the fields of `Function` that it fills; block `i` is `block_at i` for i < count.
pub record Builder : Type 0 where
  pub count : ℕ
  pub block_at : ℕ → Block
  pub nodes : ℕ → Option ℕ
  pub location_overrides : ℕ → Option ℕ
  pub labels : List (Text × ℕ)
  pub gotos : List (ℕ × Text)
  pub uncertain : Bool

pub record Targets : Type 0 where
  pub break_to : Option ℕ
  pub continue_to : Option ℕ

abbrev pub same_kind : EdgeKind → EdgeKind → Bool
same_kind normal normal = true
same_kind branch branch = true
same_kind jump jump = true
same_kind return_edge return_edge = true
same_kind fallthrough fallthrough = true
same_kind _ _ = false

abbrev pub put {ℓ} : {A : Type ℓ} → ℕ → A → (ℕ → A) → ℕ → A
put i a f = λ k. if i == k then a else f k

-- `block`
unfoldable pub new_block : Option ℕ → Builder → Builder
new_block n b = record b {
  count = b.count + 1;
  block_at = put b.count (record { of_node = n; successors = []; predecessors = [] }) b.block_at;
  nodes = elim n [ none ↦ b.nodes | some id ↦ put id (some b.count) b.nodes ];
}

-- The loop of `connect`: whether the edge is there already.
unfoldable pub has_edge : ℕ → EdgeKind → List Edge → Bool
has_edge to kind [] = false
has_edge to kind (e ∷ es) = e.to == to && same_kind e.kind kind || has_edge to kind es

unfoldable pub connect : ℕ → ℕ → EdgeKind → Builder → Builder
unfolding has_edge
connect from to kind b = if has_edge to kind (b.block_at from).successors then b else record b {
  block_at = λ k. record {
    of_node = (b.block_at k).of_node;
    successors =
        if from == k
        then (b.block_at k).successors ++ record { to = to; kind = kind } ∷ []
        else (b.block_at k).successors;
    predecessors =
        if to == k then (b.block_at k).predecessors ++ from ∷ [] else (b.block_at k).predecessors;
  };
}

unfoldable pub connect_all : List ℕ → ℕ → EdgeKind → Builder → Builder
connect_all [] to kind b = b
connect_all (from ∷ rest) to kind b = connect_all rest to kind (connect from to kind b)

unfoldable pub give_up : Builder → Builder
give_up b = record b { uncertain = true }
