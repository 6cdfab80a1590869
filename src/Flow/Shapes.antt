-- ===== src/Flow/Shapes.antt =====
-- Each shape of statement keeps the graph well-formed.
use pawnlint.Base.{
  ℕ, ◌≤◌, ◌<◌, Bool, false, ◌||◌, not, inl, inr, Bool-cases, Option-cases, Option, none, some, List,
  [], ◌∷◌, Text, text_eq, All-append, arith,
}
use pawnlint.Tree.{Label, Node, Children, node, field}
use pawnlint.Flow.{
  branch, jump, Builder, Targets, new_block, connect_all, Part, build_field, is_clause, is_default,
  build_clauses, build_switch, build_if, find_label, build_goto, build_label, build_jump,
}
use pawnlint.Flow.Connect.{
  Below-mono, IsBuilt, connect-IsBuilt, count-connect, connect_all-IsBuilt, count-connect_all,
  give_up-IsBuilt, new_block-IsBuilt,
}
use pawnlint.Flow.Leads.{
  Leads, TargetIn, TargetsIn, AllSound, TargetIn-mono, TargetsIn-mono, build_field-IsSound,
  connect_if-IsBuilt,
}
use pawnlint.Flow.Loops.{count-new_block}

-- The builder of the switch's loop.
pub build_clauses-IsBuilt :
    (ps : List Part) (block after : ℕ) (target : Targets) (has : Bool) (b : Builder)
    → AllSound ps
    → IsBuilt b
    → block < b.count
    → after < b.count
    → TargetsIn b.count target
    → IsBuilt (build_clauses ps block after target has b).0
      × (b.count ≤ (build_clauses ps block after target has b).0.count)
unfolding build_clauses
build_clauses-IsBuilt [] block after target has b h w hb ha t = (w, omega arith)
build_clauses-IsBuilt (p ∷ ps) block after target has b h w hb ha t =
    elim (Bool-cases (is_clause p.info.kind)) [
      | inr other ↦
          rw (other, build_clauses)
            (build_clauses-IsBuilt ps block after target (has || is_default p.info.kind) b h.1 w hb
              ha t)
      | inl clause ↦
          let r = p.build (block ∷ []) target b in
          let (w', le, out) = h.0 (block ∷ []) target b w (hb, tt) t in
          let joined = connect_all r.1 after branch r.0 in
          let same = count-connect_all r.1 after branch r.0 in
          let (x, le') =
            build_clauses-IsBuilt ps block after target (has || is_default p.info.kind) joined h.1
              (connect_all-IsBuilt r.1 after branch r.0 out (omega arith) w') (omega arith)
              (omega arith) (TargetsIn-mono b.count joined.count target (omega arith) t) in
          rw (clause, build_clauses) (x, omega arith)
    ]

pub build_switch-Leads :
    (ps : List Part) (block : ℕ) (outer : Targets) (b : Builder)
    → AllSound ps
    → IsBuilt b
    → block < b.count
    → TargetsIn b.count outer
    → Leads b (build_switch ps block outer b)
unfolding build_switch
build_switch-Leads ps block outer b h w hb t =
    let fresh = new_block none b in
    let grown = count-new_block none b in
    let target : Targets = record { break_to = some b.count; continue_to = outer.continue_to } in
    let r = build_clauses ps block b.count target false fresh in
    let (w', le) =
      build_clauses-IsBuilt ps block b.count target false fresh h (new_block-IsBuilt none b w)
        (omega arith) (omega arith)
        (omega arith, TargetIn-mono b.count fresh.count outer.continue_to (omega arith) t.1) in
    let (x, same) =
      connect_if-IsBuilt (not r.1) block b.count branch r.0 (omega arith) (omega arith) w' in
    (x, omega arith, (omega arith, tt))

pub build_if-Leads :
    (ps : List Part) (cs : Children) (block : ℕ) (target : Targets) (b : Builder)
    → AllSound ps
    → IsBuilt b
    → block < b.count
    → TargetsIn b.count target
    → Leads b (build_if ps cs block target b)
unfolding build_if
build_if-Leads ps cs block target b h w hb t =
    let r = build_field Label.consequence ps (block ∷ []) target b in
    let (w', le, out) =
      build_field-IsSound Label.consequence ps h (block ∷ []) target b w (hb, tt) t in
    let s = build_field Label.alternative ps (block ∷ []) target r.0 in
    let (w'', le', out') =
      build_field-IsSound Label.alternative ps h (block ∷ []) target r.0 w' (omega arith, tt)
        (TargetsIn-mono b.count r.0.count target le t) in
    elim (Option-cases (field Label.alternative cs)) [
      | inl absent ↦
          rw (absent, build_if)
            (w', le, All-append (λ x. x < r.0.count) r.1 (block ∷ []) out (omega arith, tt))
      | inr (n, present) ↦
          rw (present, build_if)
            (
              w'',
              omega arith,
              All-append (λ x. x < s.0.count) r.1 s.1 (Below-mono r.0.count s.0.count r.1 le' out)
                  out',
            )
    ]

pub build_goto-Leads :
    (n : Option Node) (block : ℕ) (b : Builder)
    → IsBuilt b
    → block < b.count
    → Leads b (build_goto n block b)
unfolding build_goto
build_goto-Leads none block b w hb = (give_up-IsBuilt b w, omega arith, (hb, tt))
build_goto-Leads (some (node i cs)) block b w hb = (
  record {
    mirrored = w.mirrored;
    bounded = w.bounded;
    nodes_in = w.nodes_in;
    labels_in = w.labels_in;
    gotos_in =
        All-append (λ (g : ℕ × Text). g.0 < b.count) b.gotos ((block, i.text) ∷ []) w.gotos_in
          (hb, tt);
    two = w.two;
  },
  omega arith,
  tt,
)

pub labelled-IsBuilt :
    (name : Text) (block : ℕ) (b : Builder)
    → IsBuilt b
    → block < b.count
    → IsBuilt (record b { labels = (name, block) ∷ b.labels })
labelled-IsBuilt name block b w hb = record {
  mirrored = w.mirrored;
  bounded = w.bounded;
  nodes_in = w.nodes_in;
  labels_in = (hb, w.labels_in);
  gotos_in = w.gotos_in;
  two = w.two;
}

pub build_label-Leads :
    (name : Text) (block : ℕ) (b : Builder)
    → IsBuilt b
    → block < b.count
    → Leads b (build_label name block b)
unfolding build_label
build_label-Leads name block b w hb = elim (Bool-cases (text_eq name [])) [
  | inl blank ↦ rw (blank, build_label) (give_up-IsBuilt b w, omega arith, (hb, tt))
  | inr named ↦ elim (Option-cases (find_label name b.labels)) [
    | inl new ↦
        rw (named, new, build_label) (labelled-IsBuilt name block b w hb, omega arith, (hb, tt))
    | inr (other, old) ↦ rw (named, old, build_label) (give_up-IsBuilt b w, omega arith, (hb, tt))
  ]
]

pub build_jump-Leads :
    (to : Option ℕ) (block : ℕ) (b : Builder)
    → IsBuilt b
    → block < b.count
    → TargetIn b.count to
    → Leads b (build_jump to block b)
unfolding build_jump
build_jump-Leads none block b w hb t = (give_up-IsBuilt b w, omega arith, (hb, tt))
build_jump-Leads (some to) block b w hb t =
    let same = count-connect block to jump b in
    (connect-IsBuilt block to jump b hb t w, omega arith, tt)
