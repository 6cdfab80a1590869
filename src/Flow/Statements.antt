-- ===== src/Flow/Statements.antt =====
-- internal/controlflow/model.go: what `buildNode` does with each kind of node, given what it does
-- with the children.
use pawnlint.Base.{
  ℕ, ◌+◌, Bool, true, false, ◌||◌, not, Option, none, some, List, [], ◌∷◌, ◌++◌, Text, text_eq,
  if◌then◌else◌,
}
use pawnlint.Tree.{Kind, Label, Info, Node, Children, node, field, same_label, is_statement}
use pawnlint.Flow.Graph.{
  EdgeKind, normal, branch, jump, return_edge, Builder, Targets, put, new_block, connect,
  connect_all, give_up,
}

-- What `buildNode` does with a node: from the blocks that lead in to those that lead out.
abbrev pub Step : Type 0
Step = List ℕ → Targets → Builder → Builder × List ℕ

pub record Part : Type 0 where
  pub name : Label
  pub info : Info
  pub build : Step

-- `buildNode` of a field, which may be nil.
unfoldable pub build_field : Label → List Part → Step
build_field name [] incoming target b = (b, incoming)
build_field name (p ∷ ps) incoming target b =
    let rest = build_field name ps incoming target b in
    if same_label p.name name then p.build incoming target b else rest

unfoldable pub build_sequence : List Part → Step
build_sequence [] incoming target b = (b, incoming)
build_sequence (p ∷ ps) incoming target b =
    let (b', exits) = p.build incoming target b in build_sequence ps exits target b'

-- What is known of a condition's value, by the node's number.
abbrev pub Conditions : Type 0
Conditions = ℕ → Option Bool

-- `condition`
abbrev pub condition : Conditions → Option Node → Option Bool
condition known none = none
condition known (some (node i cs)) = known i.id

-- `loopCondition`
abbrev pub loop_condition : Conditions → Kind → Option Node → Option Bool
loop_condition known Kind.for_statement none = some true
loop_condition known kind n = condition known n

-- !known || condition, and !known || !condition
abbrev pub may_hold : Option Bool → Bool
may_hold none = true
may_hold (some b) = b

abbrev pub may_fail : Option Bool → Bool
may_fail none = true
may_fail (some b) = not b

abbrev pub connect_if : Bool → ℕ → ℕ → EdgeKind → Builder → Builder
connect_if test from to kind b = if test then connect from to kind b else b

unfoldable pub build_loop : Option Bool → List Part → ℕ → Builder → Builder × List ℕ
unfolding new_block connect connect_all build_field
build_loop test parts block b =
    let after = b.count in
    let (b', exits) =
      build_field Label.body parts (if may_hold test then block ∷ [] else [])
        (record { break_to = some after; continue_to = some block }) (new_block none b) in
    (connect_if (may_fail test) block after branch (connect_all exits block jump b'), after ∷ [])

-- The edge from the condition back to the body, if the body has a block.
abbrev pub connect_body : Option ℕ → Bool → ℕ → Builder → Builder
connect_body none test from b = b
connect_body (some to) test from b = connect_if test from to branch b

abbrev pub node_block : Builder → Option Node → Option ℕ
node_block b none = none
node_block b (some (node i cs)) = b.nodes i.id

abbrev pub override : Option Node → ℕ → Builder → Builder
override none to b = b
override (some (node i cs)) to b = record b {
  location_overrides = put i.id (some to) b.location_overrides;
}

unfoldable pub build_do_while : Option Bool → List Part → Children → ℕ → Builder → Builder × List ℕ
unfolding new_block connect connect_all build_field
build_do_while test parts cs block b =
    let after = b.count in
    let at_condition = b.count + 1 in
    let (b', exits) =
      build_field Label.body parts (block ∷ [])
        (record { break_to = some after; continue_to = some at_condition })
        (new_block none (new_block none b)) in
    let looped =
      override (field Label.condition cs) at_condition (connect_all exits at_condition jump b') in
    (
      connect_if (may_fail test) at_condition after branch (
          connect_body (node_block looped (field Label.body cs)) (may_hold test) at_condition
            looped),
      after ∷ [],
    )

abbrev pub is_clause : Kind → Bool
is_clause Kind.case_clause = true
is_clause Kind.default_clause = true
is_clause _ = false

abbrev pub is_default : Kind → Bool
is_default Kind.default_clause = true
is_default _ = false

-- The loop of `buildSwitch`: whether a default clause was seen.
unfoldable pub build_clauses : List Part → ℕ → ℕ → Targets → Bool → Builder → Builder × Bool
unfolding connect_all
build_clauses [] block after target has_default b = (b, has_default)
build_clauses (p ∷ ps) block after target has_default b =
    let (b', exits) = p.build (block ∷ []) target b in
    let takes_part = is_clause p.info.kind in
    build_clauses ps block after target (has_default || is_default p.info.kind)
      (if takes_part then connect_all exits after branch b' else b)

-- A default clause is a clause, so `!hasClause || !hasDefault` is `!hasDefault`.
unfoldable pub build_switch : List Part → ℕ → Targets → Builder → Builder × List ℕ
unfolding new_block connect build_clauses
build_switch parts block outer b =
    let after = b.count in
    let (b', has_default) =
      build_clauses parts block after
        (record { break_to = some after; continue_to = outer.continue_to }) false
        (new_block none b) in
    (connect_if (not has_default) block after branch b', after ∷ [])

unfoldable pub build_if : List Part → Children → ℕ → Targets → Builder → Builder × List ℕ
unfolding build_field
build_if parts cs block target b =
    let (b', consequence) = build_field Label.consequence parts (block ∷ []) target b in
    let (b'', alternative) = build_field Label.alternative parts (block ∷ []) target b' in
    elim (field Label.alternative cs) [
      | none ↦ (b', consequence ++ block ∷ [])
      | some n ↦ (b'', consequence ++ alternative)
    ]

unfoldable pub find_label : Text → List (Text × ℕ) → Option ℕ
find_label name [] = none
find_label name ((l, to) ∷ ls) =
    let rest = find_label name ls in if text_eq l name then some to else rest

unfoldable pub build_goto : Option Node → ℕ → Builder → Builder × List ℕ
unfolding give_up
build_goto none block b = (give_up b, block ∷ [])
build_goto (some (node i cs)) block b = (record b { gotos = b.gotos ++ (block, i.text) ∷ [] }, [])

-- The text of a label that is nil is empty.
abbrev pub text_of : Option Node → Text
text_of none = []
text_of (some (node i cs)) = i.text

unfoldable pub build_label : Text → ℕ → Builder → Builder × List ℕ
unfolding give_up find_label text_eq
build_label name block b =
    let labelled = record b { labels = (name, block) ∷ b.labels } in
    (
      if text_eq name []
          then give_up b
          else elim (find_label name b.labels) [ none ↦ labelled | some other ↦ give_up b ],
      block ∷ [],
    )

-- break and continue
unfoldable pub build_jump : Option ℕ → ℕ → Builder → Builder × List ℕ
unfolding give_up connect
build_jump none block b = (give_up b, block ∷ [])
build_jump (some to) block b = (connect block to jump b, [])

abbrev pub exit_block : ℕ
exit_block = 1

-- The last switch of `buildNode`, for the statement's own block.
unfoldable pub build_statement :
    Conditions → Kind → List Part → Children → ℕ → Targets → Builder → Builder × List ℕ
unfolding build_sequence build_field build_if build_loop build_do_while build_switch build_goto
    build_label build_jump connect
build_statement known Kind.block ps cs block target b = build_sequence ps (block ∷ []) target b
build_statement known Kind.if_statement ps cs block target b = build_if ps cs block target b
build_statement known Kind.while_statement ps cs block target b =
    build_loop (loop_condition known Kind.while_statement (field Label.condition cs)) ps block b
build_statement known Kind.for_statement ps cs block target b =
    build_loop (loop_condition known Kind.for_statement (field Label.condition cs)) ps block b
build_statement known Kind.do_while_statement ps cs block target b =
    build_do_while (condition known (field Label.condition cs)) ps cs block b
build_statement known Kind.switch_statement ps cs block target b = build_switch ps block target b
build_statement known Kind.case_clause ps cs block target b =
    build_field Label.body ps (block ∷ []) target b
build_statement known Kind.default_clause ps cs block target b =
    build_field Label.body ps (block ∷ []) target b
build_statement known Kind.return_statement ps cs block target b =
    (connect block exit_block return_edge b, [])
build_statement known Kind.goto_statement ps cs block target b =
    build_goto (field Label.label cs) block b
build_statement known Kind.label_statement ps cs block target b =
    build_label (text_of (field Label.label cs)) block b
build_statement known Kind.break_statement ps cs block target b = build_jump target.break_to block b
build_statement known Kind.continue_statement ps cs block target b =
    build_jump target.continue_to block b
build_statement known _ ps cs block target b = (b, block ∷ [])

-- What comes before that switch.
abbrev pub in_place : Kind → Bool
in_place Kind.conditional_region = true
in_place Kind.conditional_branch = true
in_place _ = false

abbrev pub opaque : Kind → Bool
opaque Kind.shared_conditional = true
opaque Kind.conditional_function = true
opaque Kind.conditional_splice = true
opaque Kind.macro_invocation_block = true
opaque _ = false

unfoldable pub build_kind : Conditions → Info → List Part → Children → Step
unfolding give_up build_sequence is_statement new_block connect_all build_statement
build_kind known i ps cs incoming target b =
    let marked = if i.has_error || i.uncertain then give_up b else b in
    if in_place i.kind
    then build_sequence ps incoming target marked
    else if opaque i.kind
    then (give_up marked, incoming)
    else if not (is_statement i.kind)
    then (marked, incoming)
    else build_statement known i.kind ps cs marked.count target
        (connect_all incoming marked.count normal (new_block (some i.id) marked))
