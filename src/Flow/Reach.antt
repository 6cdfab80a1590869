-- ===== src/Flow/Reach.antt =====
-- `markReachable` against reachability along the edges.
use pawnlint.Base.{
  ℕ, zero, suc, ◌+◌, ◌≤◌, ◌<◌, ◌≡◌, ◌↔◌, refl, Bool, true, false, ◌||◌, inl, inr, ◌⊎◌, Bool-cases,
  some, List, [], ◌∷◌, ◌++◌, length, length-append, mark, fresh, fresh-mark, fresh-le, ◌==◌, ==_iff,
  arith,
}
use pawnlint.Flow.{Edge, Builder, mark_edges, mark_loop, mark_reachable}
use pawnlint.Flow.Connect.{edge_to, listed, IsBuilt}

pub data Reachable (b : Builder) : ℕ → Type 0 where
  entry : Reachable b 0
  along :
      {j : ℕ} (k : ℕ) → Reachable b j → edge_to k (b.block_at j).successors ≡ true → Reachable b k

listed-append : (k : ℕ) (js ls : List ℕ) → listed k (js ++ ls) ≡ listed k js || listed k ls
listed-append k [] ls = refl
listed-append k (j ∷ js) ls = ground (arith, listed-append k js ls)

-- What the inner loop does to what is marked and to the queue.
record Marks (es : List Edge) (seen : ℕ → Bool) (queue : List ℕ) (r : (ℕ → Bool) × List ℕ)
    : Type 0 where
  sound : (k : ℕ) → r.0 k ≡ true → (seen k ≡ true) ⊎ (edge_to k es ≡ true)
  grows : (k : ℕ) → seen k ≡ true → r.0 k ≡ true
  covers : (k : ℕ) → edge_to k es ≡ true → r.0 k ≡ true
  queued : (k : ℕ) → r.0 k ≡ true → (seen k ≡ true) ⊎ (listed k r.1 ≡ true)
  kept : (k : ℕ) → listed k queue ≡ true → listed k r.1 ≡ true
  marked : (k : ℕ) → listed k r.1 ≡ true → (listed k queue ≡ true) ⊎ (r.0 k ≡ true)

mark_edges-Marks :
    (es : List Edge) (seen : ℕ → Bool) (queue : List ℕ)
    → Marks es seen queue (mark_edges es seen queue)
unfolding mark_edges
mark_edges-Marks [] seen queue = record {
  sound = λ k h. inl h;
  grows = λ k h. h;
  covers = λ k h. cc;
  queued = λ k h. inl h;
  kept = λ k h. h;
  marked = λ k h. inl h;
}
mark_edges-Marks (e ∷ es) seen queue = elim (Bool-cases (seen e.to)) [
  | inl old ↦
      let m = mark_edges-Marks es seen queue in
      rw old (record {
        sound = λ k h. elim (m.sound k h) [ inl x ↦ inl x | inr x ↦ inr (ground (arith, x)) ];
        grows = m.grows;
        covers = λ k h. elim (Bool-cases (e.to == k)) [
          | inl here ↦ m.grows k (ground (arith, here, old))
          | inr other ↦ m.covers k (ground (arith, other, h))
        ];
        queued = m.queued;
        kept = m.kept;
        marked = m.marked;
      })
  | inr new ↦
      let m = mark_edges-Marks es (mark e.to seen) (queue ++ e.to ∷ []) in
      rw new (record {
        sound = λ k h. elim (m.sound k h) [
          | inl x ↦ elim (Bool-cases (e.to == k)) [
            | inl here ↦ inr (ground (arith, here))
            | inr other ↦ inl (ground (arith, other, x))
          ]
          | inr x ↦ inr (ground (arith, x))
        ];
        grows = λ k h. m.grows k (ground (arith, h));
        covers = λ k h. elim (Bool-cases (e.to == k)) [
          | inl here ↦ m.grows k (ground (arith, here))
          | inr other ↦ m.covers k (ground (arith, other, h))
        ];
        queued = λ k h. elim (m.queued k h) [
          | inl x ↦ elim (Bool-cases (e.to == k)) [
            | inl here ↦ inr (m.kept k (ground (arith, here, listed-append k queue (e.to ∷ []))))
            | inr other ↦ inl (ground (arith, other, x))
          ]
          | inr x ↦ inr x
        ];
        kept = λ k h. m.kept k (ground (arith, h, listed-append k queue (e.to ∷ [])));
        marked = λ k h. elim (m.marked k h) [
          | inl x ↦ elim (Bool-cases (e.to == k)) [
            | inl here ↦ inr (m.grows k (ground (arith, here)))
            | inr other ↦ inl (ground (arith, other, x, listed-append k queue (e.to ∷ [])))
          ]
          | inr x ↦ inr x
        ];
      })
]

-- Every block that is marked goes into the queue, so that their sum stays.
mark_edges-fresh :
    (n : ℕ) (es : List Edge) (seen : ℕ → Bool) (queue : List ℕ)
    → ((k : ℕ) → edge_to k es ≡ true → k < n)
    → fresh n (mark_edges es seen queue).0 + length (mark_edges es seen queue).1
      ≡ fresh n seen + length queue
unfolding mark_edges
mark_edges-fresh n [] seen queue h = refl
mark_edges-fresh n (e ∷ es) seen queue h = elim (Bool-cases (seen e.to)) [
  | inl old ↦
      rw (old, mark_edges, length)
        (mark_edges-fresh n es seen queue (λ k x. h k (ground (arith, x))))
  | inr new ↦
      rw (new, mark_edges, length)
        (omega (
          arith,
          mark_edges-fresh n es (mark e.to seen) (queue ++ e.to ∷ [])
              (λ k x. h k (ground (arith, x))),
          fresh-mark n e.to seen (h e.to (ground arith)) new,
          length-append {0} queue (e.to ∷ []),
        ))
]

module _ (b : Builder) (w : IsBuilt b) where
  -- What is marked can be reached, and what is not in the queue any more has been followed.
  record Inv (seen : ℕ → Bool) (queue : List ℕ) : Type 0 where
    entered : seen 0 ≡ true
    sound : (k : ℕ) → seen k ≡ true → Reachable b k
    in_queue : (k : ℕ) → listed k queue ≡ true → seen k ≡ true
    followed :
        (j : ℕ)
        → seen j ≡ true
        → (listed j queue ≡ true)
          ⊎ ((k : ℕ) → edge_to k (b.block_at j).successors ≡ true → seen k ≡ true)

  followed_step :
      (block : ℕ) (queue : List ℕ) (seen : ℕ → Bool) (r : (ℕ → Bool) × List ℕ) (j : ℕ)
      → Marks (b.block_at block).successors seen queue r
      → (listed j (block ∷ queue) ≡ true)
        ⊎ ((k : ℕ) → edge_to k (b.block_at j).successors ≡ true → seen k ≡ true)
      → (listed j r.1 ≡ true)
        ⊎ ((k : ℕ) → edge_to k (b.block_at j).successors ≡ true → r.0 k ≡ true)
  followed_step block queue seen r j m (inr all) = inr (λ k e. m.grows k (all k e))
  followed_step block queue seen r j m (inl waits) = elim (Bool-cases (block == j)) [
    | inr other ↦ inl (m.kept j (ground (arith, other, waits)))
    | inl here ↦
        let same : block ≡ j = (==_iff block j).0 here in inr (λ k e. m.covers k (rw same e))
  ]

  Inv-step :
      (block : ℕ) (queue : List ℕ) (seen : ℕ → Bool) (r : (ℕ → Bool) × List ℕ)
      → Marks (b.block_at block).successors seen queue r
      → Inv seen (block ∷ queue)
      → Inv r.0 r.1
  Inv-step block queue seen r m i =
      let here : seen block ≡ true = i.in_queue block (ground arith) in
      record {
        entered = m.grows 0 i.entered;
        sound = λ k h. elim (m.sound k h) [
          | inl old ↦ i.sound k old
          | inr new ↦ along k (i.sound block here) new
        ];
        in_queue = λ k h. elim (m.marked k h) [
          | inl old ↦ m.grows k (i.in_queue k (ground (arith, old)))
          | inr new ↦ new
        ];
        followed = λ j h. elim (m.queued j h) [
          | inl old ↦ followed_step block queue seen r j m (i.followed j old)
          | inr new ↦ inl new
        ];
      }

  complete : (seen : ℕ → Bool) → Inv seen [] → (k : ℕ) → Reachable b k → seen k ≡ true
  complete seen i k entry = i.entered
  complete seen i k (along {j} k' r e) = elim (i.followed j (complete seen i j r)) [
    | inl waits ↦ cc
    | inr all ↦ all k' e
  ]

  mark_loop-Reachable :
      (fuel : ℕ) (seen : ℕ → Bool) (queue : List ℕ)
      → Inv seen queue
      → fresh b.count seen + length queue ≤ fuel
      → (r : ℕ → Bool) × (mark_loop fuel b seen queue ≡ some r)
        × ((k : ℕ) → (r k ≡ true) ↔ Reachable b k)
  unfolding mark_loop
  mark_loop-Reachable zero seen [] i h = (seen, refl, λ k. (i.sound k, complete seen i k))
  mark_loop-Reachable (suc fuel) seen [] i h = (seen, refl, λ k. (i.sound k, complete seen i k))
  mark_loop-Reachable zero seen (block ∷ queue) i h = absurd (omega arith)
  mark_loop-Reachable (suc fuel) seen (block ∷ queue) i h =
      let es = (b.block_at block).successors in
      let r = mark_edges es seen queue in
      mark_loop-Reachable fuel r.0 r.1
        (Inv-step block queue seen r (mark_edges-Marks es seen queue) i)
        (omega (arith, mark_edges-fresh b.count es seen queue (λ k e. (w.bounded block k e).1)))

  start : Inv (mark 0 (λ _. false)) (0 ∷ [])
  start = record {
    entered = ground arith;
    sound = λ k h. let zero_k : 0 ≡ k = ground (arith, h) in rw (← zero_k) entry;
    in_queue = λ k h. ground (arith, h);
    followed = λ j h. inl (ground (arith, h));
  }

-- On a well-formed graph the search ends within as many rounds as there are blocks, and marks
-- exactly the blocks that the edges lead to from the entry.
pub mark_reachable_iff :
    (b : Builder)
    → IsBuilt b
    → (r : ℕ → Bool) × (mark_reachable b ≡ some r) × ((k : ℕ) → (r k ≡ true) ↔ Reachable b k)
unfolding mark_reachable
mark_reachable_iff b w =
    mark_loop-Reachable b w b.count (mark 0 (λ _. false)) (0 ∷ []) (start b w) (
      omega (
        arith,
        fresh-mark b.count 0 (λ _. false) (omega (arith, w.two)) refl,
        fresh-le b.count (λ _. false),
      ))
