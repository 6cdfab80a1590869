-- ===== src/Flow/Sound.antt =====
-- The graph that `build` returns.
use pawnlint.Base.{
  ℕ, ◌<◌, ◌≡◌, refl, ◌∙◌, Bool, true, false, ◌||◌, not, inl, inr, Bool-cases, Option-cases, Option,
  none, some, List, [], ◌∷◌, Text, text_eq, All, arith, if◌then◌else◌,
}
use pawnlint.Tree.{Kind, Label, Info, Node, Children, node, nil, child, field, is_statement}
use pawnlint.Flow.{
  normal, jump, return_edge, fallthrough, Builder, Targets, new_block, connect, connect_all,
  give_up, Part, Conditions, find_label, text_of, exit_block, build_statement, in_place, opaque,
  build_kind, build_node, build_parts, new_builder, resolve_gotos, build,
}
use pawnlint.Flow.Connect.{
  Below, Below-mono, IsBuilt, connect-IsBuilt, count-connect, connect_all-IsBuilt,
  count-connect_all, give_up-IsBuilt, new_block-IsBuilt,
}
use pawnlint.Flow.Leads.{
  Leads, TargetsIn, IsSound, AllSound, TargetsIn-mono, Leads-trans, if-Leads, build_field-IsSound,
  build_sequence-IsSound,
}
use pawnlint.Flow.Loops.{count-new_block, build_loop-Leads, build_do_while-Leads}
use pawnlint.Flow.Shapes.{
  build_switch-Leads, build_if-Leads, build_goto-Leads, build_label-Leads, build_jump-Leads,
}

build_statement-Leads :
    (known : Conditions) (kind : Kind) (ps : List Part) (cs : Children) (block : ℕ)
    (target : Targets) (b : Builder)
    → AllSound ps
    → IsBuilt b
    → block < b.count
    → TargetsIn b.count target
    → Leads b (build_statement known kind ps cs block target b)
unfolding build_statement
build_statement-Leads known Kind.block ps cs block target b h w hb t =
    build_sequence-IsSound ps h (block ∷ []) target b w (hb, tt) t
build_statement-Leads known Kind.if_statement ps cs block target b h w hb t =
    build_if-Leads ps cs block target b h w hb t
build_statement-Leads known Kind.while_statement ps cs block target b h w hb t =
    build_loop-Leads _ ps block b h w hb
build_statement-Leads known Kind.for_statement ps cs block target b h w hb t =
    build_loop-Leads _ ps block b h w hb
build_statement-Leads known Kind.do_while_statement ps cs block target b h w hb t =
    build_do_while-Leads _ ps cs block b h w hb
build_statement-Leads known Kind.switch_statement ps cs block target b h w hb t =
    build_switch-Leads ps block target b h w hb t
build_statement-Leads known Kind.case_clause ps cs block target b h w hb t =
    build_field-IsSound Label.body ps h (block ∷ []) target b w (hb, tt) t
build_statement-Leads known Kind.default_clause ps cs block target b h w hb t =
    build_field-IsSound Label.body ps h (block ∷ []) target b w (hb, tt) t
build_statement-Leads known Kind.return_statement ps cs block target b h w hb t =
    let same = count-connect block exit_block return_edge b in
    (connect-IsBuilt block exit_block return_edge b hb (omega (arith, w.two)) w, omega arith, tt)
build_statement-Leads known Kind.goto_statement ps cs block target b h w hb t =
    build_goto-Leads (field Label.label cs) block b w hb
build_statement-Leads known Kind.label_statement ps cs block target b h w hb t =
    build_label-Leads (text_of (field Label.label cs)) block b w hb
build_statement-Leads known Kind.break_statement ps cs block target b h w hb t =
    build_jump-Leads target.break_to block b w hb t.0
build_statement-Leads known Kind.continue_statement ps cs block target b h w hb t =
    build_jump-Leads target.continue_to block b w hb t.1
build_statement-Leads known _ ps cs block target b h w hb t = (w, omega arith, (hb, tt))

give_up-Leads :
    (b : Builder) (incoming : List ℕ)
    → IsBuilt b
    → Below b.count incoming
    → Leads b (give_up b, incoming)
unfolding give_up
give_up-Leads b incoming w e = (give_up-IsBuilt b w, omega arith, e)

marked-IsBuilt :
    (test : Bool) (b : Builder)
    → IsBuilt b
    → IsBuilt (if test then give_up b else b) × ((if test then give_up b else b).count ≡ b.count)
unfolding give_up
marked-IsBuilt true b w = (give_up-IsBuilt b w, refl)
marked-IsBuilt false b w = (w, refl)

placed-Leads :
    (known : Conditions) (i : Info) (ps : List Part) (cs : Children) (incoming : List ℕ)
    (target : Targets) (b : Builder)
    → AllSound ps
    → IsBuilt b
    → Below b.count incoming
    → TargetsIn b.count target
    → Leads b (
        build_statement known i.kind ps cs b.count target
          (connect_all incoming b.count normal (new_block (some i.id) b)))
placed-Leads known i ps cs incoming target b h w e t =
    let fresh = new_block (some i.id) b in
    let grown = count-new_block (some i.id) b in
    let start = connect_all incoming b.count normal fresh in
    let same = count-connect_all incoming b.count normal fresh in
    let w' =
      connect_all-IsBuilt incoming b.count normal fresh
        (Below-mono b.count fresh.count incoming (omega arith) e) (omega arith)
        (new_block-IsBuilt (some i.id) b w) in
    Leads-trans b start (build_statement known i.kind ps cs b.count target start) (omega arith) (
      build_statement-Leads known i.kind ps cs b.count target start h w' (omega arith)
        (TargetsIn-mono b.count start.count target (omega arith) t))

build_kind-IsSound :
    (known : Conditions) (i : Info) (ps : List Part) (cs : Children)
    → AllSound ps
    → IsSound (build_kind known i ps cs)
unfolding build_kind
build_kind-IsSound known i ps cs h incoming target b w e t =
    let marked = if i.has_error || i.uncertain then give_up b else b in
    let (w', same) = marked-IsBuilt (i.has_error || i.uncertain) b w in
    let e' = Below-mono b.count marked.count incoming (omega arith) e in
    let t' = TargetsIn-mono b.count marked.count target (omega arith) t in
    Leads-trans b marked (build_kind known i ps cs incoming target b) (omega arith) (
      if-Leads marked (in_place i.kind) _ _
        (build_sequence-IsSound ps h incoming target marked w' e' t')
        (if-Leads marked (opaque i.kind) _ _ (give_up-Leads marked incoming w' e') (
          if-Leads marked (not (is_statement i.kind)) _ _ (w', omega arith, e')
            (placed-Leads known i ps cs incoming target marked h w' e' t'))))

mutual
  unfolding build_node build_parts

  build_node-IsSound : (known : Conditions) (n : Node) → IsSound (build_node known n)
  build_node-IsSound known (node i cs) incoming target b w e t =
      if-Leads b i.inactive _ _ (w, omega arith, e)
        (build_kind-IsSound known i (build_parts known cs) cs (build_parts-AllSound known cs)
          incoming target b w e t)

  build_parts-AllSound : (known : Conditions) (cs : Children) → AllSound (build_parts known cs)
  build_parts-AllSound known nil = tt
  build_parts-AllSound known (child l n cs) =
      (build_node-IsSound known n, build_parts-AllSound known cs)

new_builder-IsBuilt : IsBuilt new_builder
unfolding new_builder
new_builder-IsBuilt = record {
  mirrored = λ j k. ground arith;
  bounded = λ j k e. ground arith;
  nodes_in = λ id k e. cc;
  labels_in = tt;
  gotos_in = tt;
  two = omega arith;
}

new_builder_pos : 0 < new_builder.count
unfolding new_builder
new_builder_pos = omega arith

find_label-lt :
    (name : Text) (n : ℕ) (ls : List (Text × ℕ)) (k : ℕ)
    → All (λ (l : Text × ℕ). l.1 < n) ls
    → find_label name ls ≡ some k
    → k < n
unfolding find_label
find_label-lt name n [] k h e = cc
find_label-lt name n ((l, to) ∷ ls) k h e = elim (Bool-cases (text_eq l name)) [
  | inl here ↦ ground (arith, here, h.0)
  | inr later ↦ find_label-lt name n ls k h.1 (rw (later, find_label) at e)
]

resolve_gotos-IsBuilt :
    (labels : List (Text × ℕ)) (gotos : List (ℕ × Text)) (b : Builder)
    → IsBuilt b
    → All (λ (l : Text × ℕ). l.1 < b.count) labels
    → All (λ (g : ℕ × Text). g.0 < b.count) gotos
    → IsBuilt (resolve_gotos labels gotos b) × ((resolve_gotos labels gotos b).count ≡ b.count)
unfolding resolve_gotos
resolve_gotos-IsBuilt labels [] b w hl hg = (w, refl)
resolve_gotos-IsBuilt labels ((from, name) ∷ rest) b w hl hg =
    elim (Option-cases (find_label name labels)) [
      | inl missing ↦
          rw (missing, resolve_gotos)
            (resolve_gotos-IsBuilt labels rest (give_up b) (give_up-IsBuilt b w) hl hg.1)
      | inr (to, found) ↦
          let same = count-connect from to jump b in
          let (x, same') =
            resolve_gotos-IsBuilt labels rest (connect from to jump b)
              (connect-IsBuilt from to jump b hg.0 (find_label-lt name b.count labels to hl found)
                w)
              (rw same hl) (rw same (hg.1)) in
          rw (found, resolve_gotos) (x, same' ∙ same)
    ]

exits_joined :
    (b : Builder) (exits : List ℕ)
    → IsBuilt b
    → Below b.count exits
    → IsBuilt (connect_all exits exit_block fallthrough b)
exits_joined b exits w e =
    connect_all-IsBuilt exits exit_block fallthrough b e (omega (arith, w.two)) w

-- Whatever the tree of a function is and whatever is known of its conditions: in its graph block
-- k is a successor of block j exactly if j is a predecessor of k, both are blocks of the graph,
-- and so are the blocks of nodes and labels, the entry 0, the exit 1 and the fall-through exits.
pub build-IsBuilt :
    (known : Conditions) (function : Info) (body : Option Node)
    → IsBuilt (build known function body).0
      × Below (build known function body).0.count (build known function body).1
unfolding build
build-IsBuilt known function none = (give_up-IsBuilt new_builder new_builder-IsBuilt, tt)
build-IsBuilt known function (some body) =
    let target : Targets = record { break_to = none; continue_to = none } in
    let r = build_node known body (0 ∷ []) target new_builder in
    let (w, le, out) =
      build_node-IsSound known body (0 ∷ []) target new_builder new_builder-IsBuilt
        (new_builder_pos, tt) (tt, tt) in
    let joined = connect_all r.1 exit_block fallthrough r.0 in
    let same = count-connect_all r.1 exit_block fallthrough r.0 in
    let w' = exits_joined r.0 r.1 w out in
    let (x, same') =
      resolve_gotos-IsBuilt joined.labels joined.gotos joined w' w'.labels_in w'.gotos_in in
    elim (Bool-cases (function.has_error || function.uncertain)) [
      | inl wrong ↦ rw (wrong, build) (give_up-IsBuilt new_builder new_builder-IsBuilt, tt)
      | inr right ↦ rw (right, build) (x, rw (same', same) out)
    ]
