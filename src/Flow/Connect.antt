-- ===== src/Flow/Connect.antt =====
-- What a builder's graph keeps: edges and predecessors mirror one another, and all that is
-- referred to by number exists.
use pawnlint.Base.{
  ℕ, ◌+◌, ◌≤◌, ◌<◌, ◌≡◌, refl, ◌∙◌, Bool, true, false, ◌||◌, inl, inr, Bool-cases, Option, none,
  some, List, [], ◌∷◌, ◌++◌, Text, All, All-map, ◌==◌, arith, if◌then◌else◌,
}
use pawnlint.Flow.{EdgeKind, Edge, Builder, new_block, has_edge, connect, connect_all, give_up}

abbrev pub edge_to : ℕ → List Edge → Bool
edge_to k [] = false
edge_to k (e ∷ es) = e.to == k || edge_to k es

abbrev pub listed : ℕ → List ℕ → Bool
listed k [] = false
listed k (j ∷ js) = j == k || listed k js

abbrev pub Below : ℕ → List ℕ → Type 0
Below n = All (λ x. x < n)

pub record IsBuilt (b : Builder) : Type 0 where
  pub mirrored :
      (j k : ℕ) → edge_to k (b.block_at j).successors ≡ listed j (b.block_at k).predecessors
  pub bounded :
      (j k : ℕ) → edge_to k (b.block_at j).successors ≡ true → (j < b.count) × (k < b.count)
  pub nodes_in : (id k : ℕ) → b.nodes id ≡ some k → k < b.count
  pub labels_in : All (λ (l : Text × ℕ). l.1 < b.count) b.labels
  pub gotos_in : All (λ (g : ℕ × Text). g.0 < b.count) b.gotos
  pub two : 2 ≤ b.count

edge_to-append : (k : ℕ) (es fs : List Edge) → edge_to k (es ++ fs) ≡ edge_to k es || edge_to k fs
edge_to-append k [] fs = refl
edge_to-append k (e ∷ es) fs = ground (arith, edge_to-append k es fs)

listed-append : (k : ℕ) (js ls : List ℕ) → listed k (js ++ ls) ≡ listed k js || listed k ls
listed-append k [] ls = refl
listed-append k (j ∷ js) ls = ground (arith, listed-append k js ls)

edge_to-has_edge :
    (k : ℕ) (kind : EdgeKind) (es : List Edge) → has_edge k kind es ≡ true → edge_to k es ≡ true
unfolding has_edge
edge_to-has_edge k kind [] h = cc
edge_to-has_edge k kind (e ∷ es) h = ground (arith, edge_to-has_edge k kind es)

connect_mirrored :
    (from to : ℕ) (kind : EdgeKind) (b : Builder) (j k : ℕ)
    → edge_to k (b.block_at j).successors ≡ listed j (b.block_at k).predecessors
    → edge_to k (
        if from == j
        then (b.block_at j).successors ++ record { to = to; kind = kind } ∷ []
        else (b.block_at j).successors)
      ≡ listed j (
          if to == k then (b.block_at k).predecessors ++ from ∷ [] else (b.block_at k).predecessors)
connect_mirrored from to kind b j k h = ground (
  arith,
  edge_to-append k (b.block_at j).successors (record { to = to; kind = kind } ∷ []),
  listed-append j (b.block_at k).predecessors (from ∷ []),
)

pub connect-IsBuilt :
    (from to : ℕ) (kind : EdgeKind) (b : Builder)
    → from < b.count
    → to < b.count
    → IsBuilt b
    → IsBuilt (connect from to kind b)
unfolding connect
connect-IsBuilt from to kind b hf ht w =
    elim (Bool-cases (has_edge to kind (b.block_at from).successors)) [
      | inl old ↦ rw old w
      | inr new ↦ rw new (record {
        mirrored = λ j k. connect_mirrored from to kind b j k (w.mirrored j k);
        bounded = λ j k e. ground (
          arith,
          edge_to-append k (b.block_at j).successors (record { to = to; kind = kind } ∷ []),
          w.bounded j k,
        );
        nodes_in = w.nodes_in;
        labels_in = w.labels_in;
        gotos_in = w.gotos_in;
        two = w.two;
      })
    ]

pub count-connect :
    (from to : ℕ) (kind : EdgeKind) (b : Builder) → (connect from to kind b).count ≡ b.count
unfolding connect
count-connect from to kind b = ground arith

pub count-connect_all :
    (from : List ℕ) (to : ℕ) (kind : EdgeKind) (b : Builder)
    → (connect_all from to kind b).count ≡ b.count
unfolding connect_all
count-connect_all [] to kind b = refl
count-connect_all (f ∷ fs) to kind b =
    count-connect_all fs to kind (connect f to kind b) ∙ count-connect f to kind b

pub connect_all-IsBuilt :
    (from : List ℕ) (to : ℕ) (kind : EdgeKind) (b : Builder)
    → Below b.count from
    → to < b.count
    → IsBuilt b
    → IsBuilt (connect_all from to kind b)
unfolding connect_all
connect_all-IsBuilt [] to kind b hf ht w = w
connect_all-IsBuilt (f ∷ fs) to kind b hf ht w =
    let same = count-connect f to kind b in
    connect_all-IsBuilt fs to kind (connect f to kind b) (rw same (hf.1)) (rw same ht)
      (connect-IsBuilt f to kind b hf.0 ht w)

pub Below-mono : (n m : ℕ) (xs : List ℕ) → n ≤ m → Below n xs → Below m xs
Below-mono n m [] h b = tt
Below-mono n m (x ∷ xs) h b = (omega arith, Below-mono n m xs h b.1)

pub give_up-IsBuilt : (b : Builder) → IsBuilt b → IsBuilt (give_up b)
unfolding give_up
give_up-IsBuilt b w = record {
  mirrored = w.mirrored;
  bounded = w.bounded;
  nodes_in = w.nodes_in;
  labels_in = w.labels_in;
  gotos_in = w.gotos_in;
  two = w.two;
}

new_block_mirrored :
    (b : Builder) (n : Option ℕ) (j k : ℕ)
    → ((j k : ℕ) → edge_to k (b.block_at j).successors ≡ listed j (b.block_at k).predecessors)
    → ((j k : ℕ) → edge_to k (b.block_at j).successors ≡ true → (j < b.count) × (k < b.count))
    → edge_to k ((new_block n b).block_at j).successors
      ≡ listed j ((new_block n b).block_at k).predecessors
unfolding new_block
new_block_mirrored b n j k m h = ground (arith, m j k, h j k)

new_block_nodes :
    (n : Option ℕ) (b : Builder)
    → ((id k : ℕ) → b.nodes id ≡ some k → k < b.count)
    → (id k : ℕ) → (new_block n b).nodes id ≡ some k
    → k < (new_block n b).count
unfolding new_block
new_block_nodes none b h id k e = omega (arith, h id k e)
new_block_nodes (some own) b h id k e = ground (arith, h id k)

pub new_block-IsBuilt : (n : Option ℕ) (b : Builder) → IsBuilt b → IsBuilt (new_block n b)
unfolding new_block
new_block-IsBuilt n b w = record {
  mirrored = λ j k. new_block_mirrored b n j k w.mirrored w.bounded;
  bounded = λ j k e. ground (arith, w.bounded j k);
  nodes_in = new_block_nodes n b w.nodes_in;
  labels_in =
      All-map (λ (l : Text × ℕ). l.1 < b.count) (λ (l : Text × ℕ). l.1 < b.count + 1) b.labels
        (λ l h. omega arith) w.labels_in;
  gotos_in =
      All-map (λ (g : ℕ × Text). g.0 < b.count) (λ (g : ℕ × Text). g.0 < b.count + 1) b.gotos
        (λ l h. omega arith) w.gotos_in;
  two = omega (arith, w.two);
}
