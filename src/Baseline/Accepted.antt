-- ===== src/Baseline/Accepted.antt =====
-- A baseline that is applied to the diagnostics that it was generated from.
use pawnlint.Base.{
  ℕ, zero, suc, ◌+◌, ◌≡◌, refl, sym, ap, true, false, ◌||◌, not, ◌⊎◌, inl, inr, Bool-cases, Option,
  some, List, [], ◌∷◌, Text, text_eq, text_eq_refl, get_elem?, get_or, keep, All, All-at, ◌==◌,
  ==_iff, arith, if◌then◌else◌,
}
use pawnlint.Base.Sort.{sort, All-sort, All-of_sort}
use pawnlint.Diagnostic.{Diagnostic}
use pawnlint.Baseline.{
  Entry, Outside, Project, Item, items_from, item_less, no_entry, eligible, entry_of, entries_of,
  index_items, fingerprint_diagnostics, sort_entries, with_fingerprint, generate, fingerprints,
  listed, apply_loop, apply,
}

-- The position of an index is that of an item with it, if there is one.
index_items-cases :
    (p : ℕ) (items : List Item) (indexed : ℕ → ℕ) (k : ℕ)
    → ((j : ℕ) × (it : Item) × (index_items p items indexed k ≡ p + j)
        × (get_elem? items j ≡ some it)
        × (it.index ≡ k))
      ⊎ (All (λ (it : Item). (it.index == k) ≡ false) items
          × (index_items p items indexed k ≡ indexed k))
unfolding index_items
index_items-cases p [] indexed k = inr (tt, refl)
index_items-cases p (item ∷ items) indexed k =
    elim (index_items-cases (p + 1) items (λ i. if item.index == i then p else indexed i) k) [
      | inl (j, it, here, found, same) ↦ inl (suc j, it, omega (arith, here), found, same)
      | inr (absent, rest) ↦ elim (Bool-cases (item.index == k)) [
        | inl e ↦ inl (0, item, ground (arith, rest, e), refl, (==_iff item.index k).0 e)
        | inr e ↦ inr ((e, absent), ground (arith, rest, e))
      ]
    ]

-- Each item holds the diagnostic of its index.
items_from-All :
    (at : ℕ → Option Diagnostic) (i : ℕ) (ds : List Diagnostic)
    → ((j : ℕ) (d : Diagnostic) → get_elem? ds j ≡ some d → at (i + j) ≡ some d)
    → All (λ (it : Item). at it.index ≡ some it.diag) (items_from i ds)
items_from-All at i [] h = tt
items_from-All at i (d ∷ ds) h = (
  let e : i + 0 ≡ i = omega arith in rw e at (h 0 d refl),
  items_from-All at (i + 1) ds
      (λ j x q. let e : i + suc j ≡ i + 1 + j = omega arith in rw e at (h (suc j) x q)),
)

items_from_indexed :
    (i : ℕ) (ds : List Diagnostic) (j k : ℕ) (d : Diagnostic)
    → k ≡ i + j
    → get_elem? ds j ≡ some d
    → All (λ (it : Item). (it.index == k) ≡ false) (items_from i ds)
    → ⊥
items_from_indexed i [] j k d at e h = cc
items_from_indexed i (x ∷ ds) zero k d at e h =
    let same : i ≡ k = omega (arith, at) in ground (arith, h.0, (==_iff i k).1 same)
items_from_indexed i (x ∷ ds) (suc j) k d at e h =
    items_from_indexed (i + 1) ds j k d (omega (arith, at)) e h.1

module _ (o : Outside) (hashed : (t : Text) → text_eq (o.hash t) [] ≡ false)
    (project : Project) where
  entries_of-eligible :
      (items : List Item) (occurrences : Text → ℕ) (j : ℕ) (it : Item)
      → get_elem? items j ≡ some it
      → text_eq (get_or (entries_of o project occurrences items) j no_entry).fingerprint []
        ≡ not (eligible it.diag)
  unfolding entries_of entry_of text_eq
  entries_of-eligible [] occurrences j it e = cc
  entries_of-eligible (x ∷ items) occurrences zero it e =
      let same : x ≡ it = cc in
      elim (Bool-cases (eligible x.diag)) [
        | inl fits ↦ rw (sym same, fits) (hashed _)
        | inr bad ↦ rw (sym same, bad)
      ]
  entries_of-eligible (x ∷ items) occurrences (suc j) it e = entries_of-eligible items _ j it e

listed-All :
    (f : Text) (es : List Entry)
    → listed f (fingerprints es) ≡ false
    → All (λ (e : Entry). text_eq e.fingerprint f ≡ false) es
unfolding listed
listed-All f [] h = tt
listed-All f (e ∷ es) h = elim (Bool-cases (text_eq e.fingerprint f)) [
  | inl same ↦ absurd (ground (arith, same))
  | inr differs ↦ (differs, listed-All f es (rw (differs, listed) at h))
]

with_fingerprint-at {κ} :
    (P : Entry → Type κ) (es : List Entry) (j : ℕ)
    → All P (with_fingerprint es)
    → text_eq (get_or es j no_entry).fingerprint [] ≡ false
    → P (get_or es j no_entry)
unfolding text_eq
with_fingerprint-at P [] j h e = cc
with_fingerprint-at P (x ∷ es) zero h e = let full = rw e at h in full.0
with_fingerprint-at P (x ∷ es) (suc j) h e = elim (Bool-cases (text_eq x.fingerprint [])) [
  | inl empty ↦ with_fingerprint-at P es j (rw empty at h) e
  | inr full ↦ let both = rw full at h in with_fingerprint-at P es j (both.1) e
]

-- Every entry with a fingerprint is found in the baseline that holds all of them.
listed-sort_entries :
    (es : List Entry) (j : ℕ)
    → text_eq (get_or es j no_entry).fingerprint [] ≡ false
    → listed (get_or es j no_entry).fingerprint (fingerprints (sort_entries (with_fingerprint es)))
      ≡ true
unfolding sort_entries
listed-sort_entries es j full =
    let e = get_or es j no_entry in
    elim (Bool-cases (listed e.fingerprint (fingerprints (sort_entries (with_fingerprint es))))) [
      | inl found ↦ found
      | inr missing ↦
          let differs =
            with_fingerprint-at (λ (x : Entry). text_eq x.fingerprint e.fingerprint ≡ false) es j
              (All-of_sort _ (λ (x : Entry). text_eq x.fingerprint e.fingerprint ≡ false)
                (with_fingerprint es) (listed-All e.fingerprint _ missing))
              full in
          absurd (ground (arith, differs, text_eq_refl e.fingerprint))
    ]

apply_loop-keep :
    (existing : List Text) (entry : ℕ → Entry) (index : ℕ) (ds : List Diagnostic) (m : List Entry)
    → ((j : ℕ) (d : Diagnostic)
        → get_elem? ds j ≡ some d
        → (text_eq (entry (index + j)).fingerprint []
            || not (listed (entry (index + j)).fingerprint existing))
          ≡ not (eligible d))
    → (apply_loop existing entry index ds m).0 ≡ keep (λ d. not (eligible d)) ds
unfolding apply_loop
apply_loop-keep existing entry index [] m h = refl
apply_loop-keep existing entry index (d ∷ ds) m h =
    let here : index + 0 ≡ index = omega arith in
    let first = rw here at (h 0 d refl) in
    let rest = λ (m' : List Entry). apply_loop-keep existing entry (index + 1) ds m' (λ j x q.
      let shift : index + suc j ≡ index + 1 + j = omega arith in rw shift at (h (suc j) x q)) in
    elim (Bool-cases (eligible d)) [
      | inl fits ↦ rw (first, fits) (rest _)
      | inr bad ↦ rw (first, bad) (ap (λ l. d ∷ l) (rest _))
    ]

-- The entry that an index leads to has a fingerprint exactly if the diagnostic there is eligible.
indexed-eligible :
    (o : Outside) (project : Project) (ds : List Diagnostic) (j : ℕ) (d : Diagnostic)
    → ((t : Text) → text_eq (o.hash t) [] ≡ false)
    → get_elem? ds j ≡ some d
    → text_eq
        (get_or
          (fingerprint_diagnostics o project ds).0
          ((fingerprint_diagnostics o project ds).1 j)
          no_entry).fingerprint
        []
      ≡ not (eligible d)
unfolding fingerprint_diagnostics
indexed-eligible o project ds j d hashed e =
    let items = sort item_less (items_from 0 ds) in
    elim (index_items-cases 0 items (λ _. 0) j) [
      | inr (absent, _) ↦ absurd (
          items_from_indexed 0 ds j j d (omega arith) e (
            All-of_sort item_less (λ (it : Item). (it.index == j) ≡ false) (items_from 0 ds)
              absent))
      | inl (p, it, here, found, same) ↦
          let stands : get_elem? ds it.index ≡ some it.diag =
            All-at (λ (x : Item). get_elem? ds x.index ≡ some x.diag) items p it
              (All-sort item_less (λ (x : Item). get_elem? ds x.index ≡ some x.diag)
                (items_from 0 ds)
                (items_from-All (get_elem? ds) 0 ds
                  (λ i x q. let shift : 0 + i ≡ i = omega arith in rw shift q)))
              found in
          let diag : it.diag ≡ d = cc (stands, same, e) in
          let position : index_items 0 items (λ _. 0) j ≡ p = omega (arith, here) in
          rw (position, sym diag) (entries_of-eligible o hashed project items (λ _. 0) p it found)
    ]

-- If no hash is empty, then a baseline that is applied to the diagnostics it was generated from
-- leaves those that no baseline takes up, in their order, and no other.
pub apply-generate :
    (o : Outside) (project : Project) (ds : List Diagnostic)
    → ((t : Text) → text_eq (o.hash t) [] ≡ false)
    → (apply o project (generate o project ds) ds).remaining ≡ keep (λ d. not (eligible d)) ds
unfolding apply generate
apply-generate o project ds hashed =
    let (es, indexed) = fingerprint_diagnostics o project ds in
    apply_loop-keep (fingerprints (sort_entries (with_fingerprint es)))
      (λ i. get_or es (indexed i) no_entry) 0 ds []
      (λ j d e.
        let shift : 0 + j ≡ j = omega arith in
        let stays = indexed-eligible o project ds j d hashed e in
        rw shift (elim (Bool-cases (eligible d)) [
          | inl fits ↦
              let full = rw fits at stays in
              rw (full, fits, listed-sort_entries es (indexed j) full)
          | inr bad ↦ let empty = rw bad at stays in rw (empty, bad)
        ]))
