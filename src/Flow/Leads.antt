-- ===== src/Flow/Leads.antt =====
-- Steps that keep the graph well-formed, and how they compose.
use pawnlint.Base.{
  ℕ, ◌≤◌, ◌<◌, ◌≡◌, refl, Bool, true, false, Option, none, some, List, [], ◌∷◌, arith,
  if◌then◌else◌,
}
use pawnlint.Tree.{Label, same_label}
use pawnlint.Flow.{
  EdgeKind, Builder, Targets, new_block, connect_all, Step, Part, build_field, build_sequence,
  connect_if,
}
use pawnlint.Flow.Connect.{
  Below, IsBuilt, connect-IsBuilt, count-connect, connect_all-IsBuilt, count-connect_all,
  new_block-IsBuilt,
}

-- A step keeps the graph well-formed and only adds blocks, and the blocks that lead out exist.
abbrev pub Leads : Builder → Builder × List ℕ → Type 0
Leads b r = IsBuilt r.0 × (b.count ≤ r.0.count) × Below r.0.count r.1

abbrev pub TargetIn : ℕ → Option ℕ → Type 0
TargetIn n none = Unit
TargetIn n (some k) = k < n

abbrev pub TargetsIn : ℕ → Targets → Type 0
TargetsIn n t = TargetIn n t.break_to × TargetIn n t.continue_to

abbrev pub IsSound : Step → Type 0
IsSound step =
    (incoming : List ℕ) (target : Targets) (b : Builder)
    → IsBuilt b
    → Below b.count incoming
    → TargetsIn b.count target
    → Leads b (step incoming target b)

abbrev pub AllSound : List Part → Type 0
AllSound [] = Unit
AllSound (p ∷ ps) = IsSound p.build × AllSound ps

pub TargetIn-mono : (n m : ℕ) (t : Option ℕ) → n ≤ m → TargetIn n t → TargetIn m t
TargetIn-mono n m none h k = tt
TargetIn-mono n m (some x) h k = omega arith

pub TargetsIn-mono : (n m : ℕ) (t : Targets) → n ≤ m → TargetsIn n t → TargetsIn m t
TargetsIn-mono n m t h k =
    (TargetIn-mono n m t.break_to h k.0, TargetIn-mono n m t.continue_to h k.1)

pub Leads-trans :
    (b : Builder) (r : Builder) (s : Builder × List ℕ) → b.count ≤ r.count → Leads r s → Leads b s
Leads-trans b r s h (w, le, e) = (w, omega arith, e)

pub if-Leads :
    (b : Builder) (test : Bool) (x y : Builder × List ℕ)
    → Leads b x
    → Leads b y
    → Leads b (if test then x else y)
if-Leads b true x y h k = h
if-Leads b false x y h k = k

pub build_field-IsSound :
    (name : Label) (ps : List Part) → AllSound ps → IsSound (build_field name ps)
unfolding build_field
build_field-IsSound name [] h incoming target b w i t = (w, omega arith, i)
build_field-IsSound name (p ∷ ps) h incoming target b w i t =
    if-Leads b (same_label p.name name) _ _ (h.0 incoming target b w i t)
      (build_field-IsSound name ps h.1 incoming target b w i t)

pub build_sequence-IsSound : (ps : List Part) → AllSound ps → IsSound (build_sequence ps)
unfolding build_sequence
build_sequence-IsSound [] h incoming target b w i t = (w, omega arith, i)
build_sequence-IsSound (p ∷ ps) h incoming target b w i t =
    let r = p.build incoming target b in
    let (w', le, out) = h.0 incoming target b w i t in
    Leads-trans b r.0 (build_sequence ps r.1 target r.0) le (
      build_sequence-IsSound ps h.1 r.1 target r.0 w' out
        (TargetsIn-mono b.count r.0.count target le t))

-- Connecting adds no block.
pub connect_if-IsBuilt :
    (test : Bool) (from to : ℕ) (kind : EdgeKind) (b : Builder)
    → from < b.count
    → to < b.count
    → IsBuilt b
    → IsBuilt (connect_if test from to kind b) × ((connect_if test from to kind b).count ≡ b.count)
connect_if-IsBuilt true from to kind b hf ht w =
    (connect-IsBuilt from to kind b hf ht w, count-connect from to kind b)
connect_if-IsBuilt false from to kind b hf ht w = (w, refl)

-- The last steps of a loop: exits are joined to a block, and it to another.
pub joined-Leads :
    (test : Bool) (exits : List ℕ) (at after : ℕ) (first second : EdgeKind) (b : Builder)
    → IsBuilt b
    → Below b.count exits
    → at < b.count
    → after < b.count
    → Leads b (connect_if test at after second (connect_all exits at first b), after ∷ [])
joined-Leads test exits at after first second b w e ha hb =
    let same = count-connect_all exits at first b in
    let (w', same') =
      connect_if-IsBuilt test at after second (connect_all exits at first b) (rw same ha)
        (rw same hb) (connect_all-IsBuilt exits at first b e ha w) in
    (w', omega arith, (omega arith, tt))

pub incoming_if-Below : (test : Bool) (n k : ℕ) → k < n → Below n (if test then k ∷ [] else [])
incoming_if-Below true n k h = (h, tt)
incoming_if-Below false n k h = tt

pub new-Leads : (n : Option ℕ) (b : Builder) → IsBuilt b → Leads b (new_block n b, b.count ∷ [])
unfolding new_block
new-Leads n b w = (new_block-IsBuilt n b w, omega arith, (omega arith, tt))
