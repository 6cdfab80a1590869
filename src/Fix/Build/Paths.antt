-- ===== src/Fix/Build/Paths.antt =====
-- The files of a plan come in ascending order, each once.
use pawnlint.Base.{
  ◌≡◌, refl, ◌⊎◌, inl, inr, true, false, List, [], ◌∷◌, ◌++◌, Text, text_eq, text_lt, text_eq_iff,
  text_lt_tri, arith, All, Bool-cases,
}
use pawnlint.Base.Sort.{
  IsSorted, sort, insert, sort-IsSorted, All-insert, All-sort, by_key-IsWeakOrder, text_key,
}
use pawnlint.Diagnostic.{Diagnostic}
use pawnlint.Fix.{Change, Plan, PlannedEdit, ok, apply_edits}
use pawnlint.Fix.Build.{Sources, ByPath, source_of, change_of, plan_paths, keys, build}
use pawnlint.Fix.Build.Collect.{Distinct, collect_lem}
use pawnlint.Fix.Build.Sound.{plan_paths-cons, build-ok}

-- Strictly ascending, hence with no path twice.
abbrev pub Ascends : List Text → Type 0
Ascends [] = Unit
Ascends (p ∷ ps) = All (λ q. text_lt p q ≡ true) ps × Ascends ps

text_eq_comm : (p q : Text) → text_eq p q ≡ false → text_eq q p ≡ false
text_eq_comm p q h = ground (arith, text_eq_iff p q, text_eq_iff q p)

Distinct-insert :
    (p : Text) (l : List Text)
    → All (λ q. text_eq p q ≡ false) l
    → Distinct l
    → Distinct (insert text_lt p l)
unfolding insert
Distinct-insert p [] h d = (tt, tt)
Distinct-insert p (y ∷ ys) h d = elim (Bool-cases (text_lt y p)) [
  | inl e ↦ rw e (
    All-insert text_lt (λ q. text_eq y q ≡ false) p ys (text_eq_comm p y h.0) d.0,
    Distinct-insert p ys h.1 d.1,
  )
  | inr e ↦ rw e (h, d)
]

Distinct-sort : (l : List Text) → Distinct l → Distinct (sort text_lt l)
unfolding sort
Distinct-sort [] d = tt
Distinct-sort (p ∷ ps) d =
    Distinct-insert p (sort text_lt ps) (All-sort text_lt (λ q. text_eq p q ≡ false) ps d.0)
      (Distinct-sort ps d.1)

All-ascends :
    (p : Text) (l : List Text)
    → All (λ q. text_lt q p ≡ false) l
    → All (λ q. text_eq p q ≡ false) l
    → All (λ q. text_lt p q ≡ true) l
All-ascends p [] s d = tt
All-ascends p (q ∷ l) s d =
    (ground (arith, s.0, d.0, text_lt_tri p q, text_eq_iff p q), All-ascends p l s.1 d.1)

Ascends-of : (l : List Text) → IsSorted text_lt l → Distinct l → Ascends l
Ascends-of [] s d = tt
Ascends-of (p ∷ l) s d = (All-ascends p l s.0 d.0, Ascends-of l s.1 d.1)

pub Ascends-sort : (l : List Text) → Distinct l → Ascends (sort text_lt l)
Ascends-sort l d =
    Ascends-of (sort text_lt l) (sort-IsSorted text_lt (by_key-IsWeakOrder (λ (t : Text). t)) l)
      (Distinct-sort l d)

abbrev pub paths : List Change → List Text
paths [] = []
paths (c ∷ cs) = c.path ∷ paths cs

-- A file gives one change or none.
paths-change_of :
    (p source : Text) (es : List PlannedEdit) (later : List Change)
    → (paths (change_of p source es ++ later) ≡ paths later)
      ⊎ (paths (change_of p source es ++ later) ≡ p ∷ paths later)
unfolding change_of
paths-change_of p source [] later = inl refl
paths-change_of p source (e ∷ es) later =
    elim (Bool-cases (text_eq source (apply_edits (e ∷ es) source))) [
      | inl same ↦ inl (rw same)
      | inr other ↦ inr (rw other)
    ]

module _ (sources : Sources) (m : ByPath) where
  All-paths {ℓ} :
      (P : Text → Type ℓ) (ps : List Text) (changes : List Change)
      → plan_paths sources m ps ≡ ok changes
      → All P ps
      → All P (paths changes)
  All-paths P [] changes h all = let e : changes ≡ [] = unfold plan_paths in cc in rw e tt
  All-paths P (p ∷ ps) changes h all =
      let (es, later, accepted, planned, result) = plan_paths-cons sources m p ps changes h in
      rw result (elim (paths-change_of p (source_of sources p) es later) [
        | inl none_new ↦ rw none_new (All-paths P ps later planned all.1)
        | inr new ↦ rw new (all.0, All-paths P ps later planned all.1)
      ])

  pub Ascends-paths :
      (ps : List Text) (changes : List Change)
      → plan_paths sources m ps ≡ ok changes
      → Ascends ps
      → Ascends (paths changes)
  Ascends-paths [] changes h a = let e : changes ≡ [] = unfold plan_paths in cc in rw e tt
  Ascends-paths (p ∷ ps) changes h a =
      let (es, later, accepted, planned, result) = plan_paths-cons sources m p ps changes h in
      rw result (elim (paths-change_of p (source_of sources p) es later) [
        | inl none_new ↦ rw none_new (Ascends-paths ps later planned a.1)
        | inr new ↦ rw new (
          All-paths (λ q. text_lt p q ≡ true) ps later planned a.0,
          Ascends-paths ps later planned a.1,
        )
      ])

-- The files of a plan are named in strictly ascending order, so none is named twice.
pub build-Ascends :
    (sources : Sources) (ds : List Diagnostic) (plan : Plan)
    → build sources ds ≡ ok plan
    → Ascends (paths plan.changes)
build-Ascends sources ds plan h =
    let (m, changes, collected, planned, result) = build-ok sources ds plan h in
    let c = collect_lem sources ds [] m collected tt tt in
    rw result (
      Ascends-paths sources m (sort text_lt (keys m)) changes planned
        (Ascends-sort (keys m) c.distinct))
