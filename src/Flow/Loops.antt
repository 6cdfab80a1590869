-- ===== src/Flow/Loops.antt =====
-- Each loop keeps the graph well-formed.
use pawnlint.Base.{
  ℕ, ◌+◌, ◌<◌, ◌≡◌, refl, Bool, inl, inr, Option-cases, Option, none, some, List, [], ◌∷◌, arith,
  if◌then◌else◌,
}
use pawnlint.Tree.{Label, Node, Children, node, field}
use pawnlint.Flow.{
  branch, jump, Builder, Targets, new_block, connect_all, Part, build_field, may_hold, may_fail,
  build_loop, connect_body, node_block, override, build_do_while,
}
use pawnlint.Flow.Connect.{IsBuilt, connect_all-IsBuilt, count-connect_all, new_block-IsBuilt}
use pawnlint.Flow.Leads.{
  Leads, TargetIn, AllSound, build_field-IsSound, connect_if-IsBuilt, joined-Leads,
  incoming_if-Below,
}

pub count-new_block : (n : Option ℕ) (b : Builder) → (new_block n b).count ≡ b.count + 1
unfolding new_block
count-new_block n b = refl

pub build_loop-Leads :
    (test : Option Bool) (ps : List Part) (block : ℕ) (b : Builder)
    → AllSound ps
    → IsBuilt b
    → block < b.count
    → Leads b (build_loop test ps block b)
unfolding build_loop
build_loop-Leads test ps block b h w hb =
    let fresh = new_block none b in
    let grown = count-new_block none b in
    let target : Targets = record { break_to = some b.count; continue_to = some block } in
    let incoming = if may_hold test then block ∷ [] else [] in
    let r = build_field Label.body ps incoming target fresh in
    let (w', le, out) =
      build_field-IsSound Label.body ps h incoming target fresh (new_block-IsBuilt none b w)
        (incoming_if-Below (may_hold test) fresh.count block (omega arith))
        (omega arith, omega arith) in
    let (x, le', out') =
      joined-Leads (may_fail test) r.1 block b.count jump branch r.0 w' out (omega arith)
        (omega arith) in
    (x, omega arith, out')

pub override-IsBuilt :
    (n : Option Node) (k : ℕ) (b : Builder) → IsBuilt b → IsBuilt (override n k b)
override-IsBuilt none k b w = w
override-IsBuilt (some (node i cs)) k b w = record {
  mirrored = w.mirrored;
  bounded = w.bounded;
  nodes_in = w.nodes_in;
  labels_in = w.labels_in;
  gotos_in = w.gotos_in;
  two = w.two;
}

pub count-override : (n : Option Node) (k : ℕ) (b : Builder) → (override n k b).count ≡ b.count
count-override none k b = refl
count-override (some (node i cs)) k b = refl

pub node_block-TargetIn :
    (b : Builder) (n : Option Node) → IsBuilt b → TargetIn b.count (node_block b n)
node_block-TargetIn b none w = tt
node_block-TargetIn b (some (node i cs)) w = elim (Option-cases (b.nodes i.id)) [
  | inl e ↦ rw e tt
  | inr (k, e) ↦ rw e (w.nodes_in i.id k e)
]

pub connect_body-IsBuilt :
    (to : Option ℕ) (test : Bool) (from : ℕ) (b : Builder)
    → TargetIn b.count to
    → from < b.count
    → IsBuilt b
    → IsBuilt (connect_body to test from b) × ((connect_body to test from b).count ≡ b.count)
connect_body-IsBuilt none test from b t h w = (w, refl)
connect_body-IsBuilt (some to) test from b t h w = connect_if-IsBuilt test from to branch b h t w

pub build_do_while-Leads :
    (test : Option Bool) (ps : List Part) (cs : Children) (block : ℕ) (b : Builder)
    → AllSound ps
    → IsBuilt b
    → block < b.count
    → Leads b (build_do_while test ps cs block b)
unfolding build_do_while
build_do_while-Leads test ps cs block b h w hb =
    let one = new_block none b in
    let fresh = new_block none one in
    let grown = count-new_block none b in
    let grown' = count-new_block none one in
    let at = b.count + 1 in
    let target : Targets = record { break_to = some b.count; continue_to = some at } in
    let r = build_field Label.body ps (block ∷ []) target fresh in
    let (w', le, out) =
      build_field-IsSound Label.body ps h (block ∷ []) target fresh
        (new_block-IsBuilt none one (new_block-IsBuilt none b w)) (omega arith, tt)
        (omega arith, omega arith) in
    let joined = connect_all r.1 at jump r.0 in
    let same = count-connect_all r.1 at jump r.0 in
    let looped = override (field Label.condition cs) at joined in
    let same' = count-override (field Label.condition cs) at joined in
    let w'' =
      override-IsBuilt (field Label.condition cs) at joined
        (connect_all-IsBuilt r.1 at jump r.0 out (omega arith) w') in
    let back = node_block looped (field Label.body cs) in
    let (x, same_x) =
      connect_body-IsBuilt back (may_hold test) at looped
        (node_block-TargetIn looped (field Label.body cs) w'') (omega arith) w'' in
    let bodied = connect_body back (may_hold test) at looped in
    let (y, same_y) =
      connect_if-IsBuilt (may_fail test) at b.count branch bodied (omega arith) (omega arith) x in
    (y, omega arith, (omega arith, tt))
