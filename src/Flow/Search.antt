-- ===== src/Flow/Search.antt =====
-- internal/controlflow/model.go: the search for reachable blocks, and the questions that the graph
-- of a function answers.
use pawnlint.Base.{
  ℕ, zero, suc, Bool, true, false, ◌||◌, Option, none, some, List, [], ◌∷◌, ◌++◌, mark,
  if◌then◌else◌,
}
use pawnlint.Flow.Graph.{Edge, Builder}

-- The inner loop of `markReachable`: what is reachable, and the queue.
unfoldable pub mark_edges : List Edge → (ℕ → Bool) → List ℕ → (ℕ → Bool) × List ℕ
mark_edges [] seen queue = (seen, queue)
mark_edges (e ∷ es) seen queue =
    mark_edges es (if seen e.to then seen else mark e.to seen)
      (if seen e.to then queue else queue ++ e.to ∷ [])

-- The outer loop; `none` means that more rounds were needed.
unfoldable pub mark_loop : ℕ → Builder → (ℕ → Bool) → List ℕ → Option (ℕ → Bool)
unfolding mark_edges
mark_loop fuel b seen [] = some seen
mark_loop zero b seen (block ∷ queue) = none
mark_loop (suc fuel) b seen (block ∷ queue) =
    let (seen', queue') = mark_edges (b.block_at block).successors seen queue in
    mark_loop fuel b seen' queue'

-- `markReachable`: a block is put into the queue at most once.
unfoldable pub mark_reachable : Builder → Option (ℕ → Bool)
unfolding mark_loop
mark_reachable b = mark_loop b.count b (mark 0 (λ _. false)) (0 ∷ [])

-- `CanFallThrough`
unfoldable pub can_fall_through : Builder → (ℕ → Bool) → List ℕ → Bool
can_fall_through b reachable [] = b.uncertain
can_fall_through b reachable (block ∷ exits) =
    b.uncertain || reachable block || can_fall_through b reachable exits

-- `Reachable` of a node, and `ReachableBlock`.
unfoldable pub reachable_node : Builder → (ℕ → Bool) → ℕ → Bool
reachable_node b reachable id =
    b.uncertain || elim (b.nodes id) [ none ↦ true | some block ↦ reachable block ]

unfoldable pub reachable_block : Builder → (ℕ → Bool) → Option ℕ → Bool
reachable_block b reachable none = b.uncertain
reachable_block b reachable (some block) = b.uncertain || reachable block

-- `Block` of a node, from the node and its ancestors on.
unfoldable pub block_of : Builder → List ℕ → Option ℕ
block_of b [] = none
block_of b (id ∷ ancestors) = elim (b.location_overrides id) [
  | some block ↦ some block
  | none ↦ elim (b.nodes id) [ some block ↦ some block | none ↦ block_of b ancestors ]
]
