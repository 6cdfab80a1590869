-- ===== src/LineTable/Search.antt =====
-- The binary search of `searchLine` finds the last entry of an ascending table that is not above
-- the offset.
use pawnlint.Base.{
  ℕ, zero, suc, ◌+◌, ◌-◌, ◌/◌, ◌≤◌, ◌<◌, ◌≡◌, refl, inl, inr, List, [], ◌∷◌, arith, ltb, leb,
  Bool-cases, length, get_or,
}
use pawnlint.LineTable.{search_loop, search_line}

-- The reads of the search never leave the table.
abbrev pub at : List ℕ → ℕ → ℕ
at ls i = get_or ls i 0

abbrev pub Ascending : ℕ → List ℕ → Type 0
Ascending p [] = Unit
Ascending p (x ∷ xs) = (p ≤ x) × Ascending x xs

pub at_mono :
    (p : ℕ) (ls : List ℕ) (i j : ℕ)
    → Ascending p ls
    → i ≤ j
    → j < suc (length ls)
    → at (p ∷ ls) i ≤ at (p ∷ ls) j
at_mono p ls zero zero a h k = omega arith
at_mono p [] zero (suc j) a h k = absurd (omega arith)
at_mono p [] (suc i) zero a h k = absurd (omega arith)
at_mono p [] (suc i) (suc j) a h k = absurd (omega arith)
at_mono p (x ∷ ls) zero (suc j) a h k =
    omega (arith, a.0, at_mono x ls zero j a.1 (omega arith) (omega arith))
at_mono p (x ∷ ls) (suc i) zero a h k = absurd (omega arith)
at_mono p (x ∷ ls) (suc i) (suc j) a h k = at_mono x ls i j a.1 (omega arith) (omega arith)

module _ (ls : List ℕ) (o : ℕ) (mono : (i j : ℕ) → i ≤ j → j < length ls → at ls i ≤ at ls j) where
  -- What the loop keeps: everything below `lo` is at or below the offset, and `hi` is above it
  -- or the last entry.
  abbrev Bounds : ℕ → ℕ → Type 0
  Bounds lo hi =
      (lo ≤ hi)
      × (hi < length ls)
      × ((i : ℕ) → i < lo → at ls i ≤ o)
      × ((suc hi < length ls) → o < at ls hi)

  search_loop-Bounds :
      (fuel lo hi : ℕ)
      → hi - lo ≤ fuel
      → Bounds lo hi
      → (r : ℕ) × (search_loop fuel ls o lo hi ≡ r) × Bounds r r
  unfolding search_loop
  search_loop-Bounds zero lo hi f b = (
    lo,
    refl,
    (omega arith, omega arith, b.2, λ h. let e : lo ≡ hi = omega arith in rw e (b.3 (omega arith))),
  )
  search_loop-Bounds (suc fuel) lo hi f b = elim (Bool-cases (ltb lo hi)) [
    | inr same ↦ rw same (
      lo,
      refl,
      (
        ground arith,
        ground arith,
        b.2,
        λ h. let e : lo ≡ hi = ground arith in rw e (b.3 (ground arith)),
      ),
    )
    | inl more ↦ elim (Bool-cases (leb (at ls ((lo + hi) / 2)) o)) [
      | inl right ↦
          rw (more, right)
            (search_loop-Bounds fuel ((lo + hi) / 2 + 1) hi (ground arith)
              (ground arith, b.1, (λ i h. ground (arith, mono i ((lo + hi) / 2))), b.3))
      | inr left ↦
          rw (more, left)
            (search_loop-Bounds fuel lo ((lo + hi) / 2) (ground arith)
              (ground arith, ground arith, b.2, λ h. ground arith))
    ]
  ]

  -- The step back behind the loop.
  search_line_end :
      (r : ℕ)
      → search_loop (length ls) ls o 0 (length ls - 1) ≡ r
      → Bounds r r
      → at ls 0 ≤ o
      → (q : ℕ) × (search_line ls o ≡ q)
        × (q < length ls)
        × (at ls q ≤ o)
        × ((suc q < length ls) → o < at ls (suc q))
  unfolding search_line
  search_line_end zero found b z = rw found (0, ground arith, ground arith, z, λ k. ground arith)
  search_line_end (suc r) found b z = rw found (elim (Bool-cases (ltb o (at ls (suc r)))) [
    | inl past ↦ (r, ground arith, ground arith, b.2 r (omega arith), λ k. ground arith)
    | inr here ↦ (suc r, ground arith, ground arith, ground arith, λ k. ground arith)
  ])

  -- The index found is that of the last entry which is not above the offset.
  pub search_line_lem :
      0 < length ls
      → at ls 0 ≤ o
      → (q : ℕ) × (search_line ls o ≡ q)
        × (q < length ls)
        × (at ls q ≤ o)
        × ((suc q < length ls) → o < at ls (suc q))
  search_line_lem h z =
      let (r, found, b) =
        search_loop-Bounds (length ls) 0 (length ls - 1) (omega arith)
          (omega arith, omega arith, (λ i k. absurd (omega arith)), λ k. absurd (omega arith)) in
      search_line_end r found b z

-- An entry that is not above the offset does not stand behind one whose successor is.
last_not_before :
    (p : ℕ) (ls : List ℕ) (o i j : ℕ)
    → Ascending p ls
    → ((suc i < suc (length ls)) → o < at (p ∷ ls) (suc i))
    → at (p ∷ ls) j ≤ o
    → j < suc (length ls)
    → ¬ (i < j)
last_not_before p ls o i j a high low lt before =
    absurd (omega (arith, at_mono p ls (suc i) j a before lt, high (omega arith)))

-- No other index has the two bounds.
pub search_line-eq :
    (p : ℕ) (ls : List ℕ) (o k : ℕ)
    → Ascending p ls
    → p ≤ o
    → k < suc (length ls)
    → at (p ∷ ls) k ≤ o
    → ((suc k < suc (length ls)) → o < at (p ∷ ls) (suc k))
    → search_line (p ∷ ls) o ≡ k
search_line-eq p ls o k a z lt low high =
    let (q, found, q_lt, q_low, q_high) =
      search_line_lem (p ∷ ls) o (λ i j. at_mono p ls i j a) (omega arith) z in
    rw found (
      omega (
        arith,
        last_not_before p ls o q k a q_high low lt,
        last_not_before p ls o k q a high q_low q_lt,
      ))
