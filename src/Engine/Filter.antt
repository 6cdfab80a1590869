-- ===== src/Engine/Filter.antt =====
-- pkg/lint/engine.go: the loop over the diagnostics keeps those that no directive suppresses, and
-- records the directives that suppressed one.
use pawnlint.Base.{
  ℕ, zero, suc, ◌≡◌, refl, ap, ◌∙◌, true, false, ◌⊎◌, inl, inr, Bool-cases, none, some, List, [],
  ◌∷◌, Text, keep, length, replicate, All, arith,
}
use pawnlint.LineTable.{LineTable}
use pawnlint.Diagnostic.{Diagnostic}
use pawnlint.Suppress.{Directive}
use pawnlint.Suppress.Matcher.{Used}
use pawnlint.Suppress.Matcher.Used.{flag, Applies}
use pawnlint.Suppress.Matcher.Recorded.{size}
use pawnlint.Engine.Hidden.{IsOwn, Hidden, Remaining, judge-Hidden}
use pawnlint.Engine.{ProjectFiles, judge, filter_diagnostics}
use pawnlint.Engine.Judged.{
  is_shown, Needs, judge_verdict, size-judge, judge_records, judge_keeps, judge_complete,
}

module _ (project : ProjectFiles) (path : Text) (lt : LineTable) (supps : List Directive) where
  abbrev pub filtered : Used → List Diagnostic → List Diagnostic × Used
  filtered used raw = filter_diagnostics project path lt supps used raw

  filtered-keep :
      (used : Used) (raw : List Diagnostic)
      → (filtered used raw).0 ≡ keep (is_shown project path lt supps) raw
  unfolding filter_diagnostics
  filtered-keep used [] = refl
  filtered-keep used (d ∷ ds) =
      let rest = filtered-keep (judge project path lt supps used d).0 ds in
      elim (Bool-cases (judge project path lt supps none d).1) [
        | inl suppressed ↦
            ground (arith, suppressed, judge_verdict project path lt supps used d, rest)
        | inr shown ↦
            ground (arith, shown, judge_verdict project path lt supps used d, ap (◌∷◌ d) rest)
      ]

  keep-Remaining :
      (raw : List Diagnostic)
      → Remaining project path lt supps raw (keep (is_shown project path lt supps) raw)
  keep-Remaining [] = refl
  keep-Remaining (d ∷ ds) = elim (judge-Hidden project path lt supps d) [
    | inl (suppressed, hidden) ↦ rw suppressed (inl (hidden, keep-Remaining ds))
    | inr (shown, visible) ↦
        rw shown (inr (visible, keep (is_shown project path lt supps) ds, refl, keep-Remaining ds))
  ]

  filtered_keeps :
      (used : Used) (raw : List Diagnostic) (i : ℕ)
      → flag used i ≡ true
      → flag (filtered used raw).1 i ≡ true
  unfolding filter_diagnostics
  filtered_keeps used [] i h = h
  filtered_keeps used (d ∷ ds) i h =
      filtered_keeps (judge project path lt supps used d).0 ds i
        (judge_keeps project path lt supps used d i h)

  -- One of the diagnostics needs directive `i`.
  abbrev pub Needed : ℕ → List Diagnostic → Type 0
  Needed i [] = ⊥
  Needed i (d ∷ ds) = Needs project path lt supps i d ⊎ Needed i ds

  filtered_records :
      (used : Used) (raw : List Diagnostic) (i : ℕ)
      → size used ≡ length supps
      → flag (filtered used raw).1 i ≡ true
      → (flag used i ≡ true) ⊎ Needed i raw
  unfolding filter_diagnostics
  filtered_records used [] i fits h = inl h
  filtered_records used (d ∷ ds) i fits h =
      elim (filtered_records (judge project path lt supps used d).0 ds i
        (size-judge project path lt supps used d ∙ fits) h) [
          | inr later ↦ inr (inr later)
          | inl before ↦ elim (judge_records project path lt supps used d i fits before) [
            | inl old ↦ inl old
            | inr here ↦ inr (inl here)
          ]
        ]

  -- If the diagnostic is one of the linted file and hidden, then a directive that switches its rule
  -- off is recorded as used.
  abbrev pub Credited : Used → Diagnostic → Type 0
  Credited used d =
      IsOwn project path lt supps d
      → Hidden project path lt supps d
      → (i : ℕ) × Applies supps d.rule_id i × (flag used i ≡ true)

  filtered_complete :
      (used : Used) (raw : List Diagnostic)
      → size used ≡ length supps
      → All (Credited (filtered used raw).1) raw
  unfolding filter_diagnostics
  filtered_complete used [] fits = tt
  filtered_complete used (d ∷ ds) fits =
      let after = (judge project path lt supps used d).0 in
      (
        (λ own h.
            let (i, applies, recorded) = judge_complete project path lt supps used d fits own h in
            (i, applies, filtered_keeps after ds i recorded)),
        filtered_complete after ds (size-judge project path lt supps used d ∙ fits),
      )

  flag-replicate : (n i : ℕ) → flag (some (replicate n false)) i ≡ false
  flag-replicate zero i = refl
  flag-replicate (suc n) zero = refl
  flag-replicate (suc n) (suc i) = flag-replicate n i

  length-replicate : (n : ℕ) → length (replicate n false) ≡ n
  length-replicate zero = refl
  length-replicate (suc n) = ap suc (length-replicate n)

  -- From flags that are all down, whatever the project's other files are: the diagnostics that are
  -- kept are those that no directive of their file suppresses, in their order, where a diagnostic
  -- in another file of the project is judged by that file's directives at its line there, and any
  -- other by those of the linted file. A directive is recorded as used only if a diagnostic of the
  -- linted file is suppressed whose rule it switches off, and for each suppressed diagnostic of the
  -- linted file such a directive is recorded.
  pub filter_diagnostics_sound :
      (raw : List Diagnostic)
      → Remaining project path lt supps raw (filtered (some (replicate (length supps) false)) raw).0
        × ((i : ℕ)
            → flag (filtered (some (replicate (length supps) false)) raw).1 i ≡ true
            → Needed i raw)
        × All (Credited (filtered (some (replicate (length supps) false)) raw).1) raw
  filter_diagnostics_sound raw =
      let down = some (replicate (length supps) false) in
      let fits : size down ≡ length supps = length-replicate (length supps) in
      (
        rw (filtered-keep down raw) (keep-Remaining raw),
        λ i h. elim (filtered_records down raw i fits h) [
          | inl never ↦ absurd (ground (arith, flag-replicate (length supps) i, never))
          | inr needed ↦ needed
        ],
        filtered_complete down raw fits,
      )
