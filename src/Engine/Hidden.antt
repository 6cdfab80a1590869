-- ===== src/Engine/Hidden.antt =====
-- pkg/lint/engine.go: which diagnostics a directive hides, apart from the loop, the matchers and
-- what they record.
use pawnlint.Base.{
  ◌≡◌, ◌≢◌, sym, ap, ◌∙◌, true, false, ◌⊎◌, inl, inr, ℤ, pos, eqb_ℤ, eqb_ℤ_iff, Option,
  Option-cases, Bool-cases, none, some, List, [], ◌∷◌, Text, text_eq, text_eq_iff, arith,
}
use pawnlint.LineTable.{LineTable, lookup}
use pawnlint.Diagnostic.{Diagnostic}
use pawnlint.Suppress.{Directive}
use pawnlint.Suppress.Matcher.Depth.{covered, is_suppressed_iff}
use pawnlint.Engine.{Other, ProjectFiles, line_of, other_file, judge}

-- The line that a diagnostic counts for: the one it says, and where it says 0, the one of its start
-- offset, if the file has a table of lines.
abbrev pub AtLine : Option LineTable → Diagnostic → ℤ → Type 0
AtLine lines d line =
    ((d.range.start.line ≢ pos 0) × (line ≡ d.range.start.line))
    ⊎ ((d.range.start.line ≡ pos 0) × (lines ≡ none) × (line ≡ pos 0))
    ⊎ ((d.range.start.line ≡ pos 0)
        × (lt : LineTable) × (lines ≡ some lt)
        × (line ≡ (lookup lt d.range.start.offset).line))

AtLine-line_of : (lines : Option LineTable) (d : Diagnostic) → AtLine lines d (line_of lines d)
unfolding line_of
AtLine-line_of lines d = elim (Bool-cases (eqb_ℤ d.range.start.line (pos 0))) [
  | inr set ↦ elim (Option-cases lines) [
    | inl e ↦ inl (ground (arith, set, eqb_ℤ_iff d.range.start.line (pos 0)), rw (e, line_of))
    | inr (lt, e) ↦
        inl (ground (arith, set, eqb_ℤ_iff d.range.start.line (pos 0)), rw (e, set, line_of))
  ]
  | inl unset ↦
      let zero_line = (eqb_ℤ_iff d.range.start.line (pos 0)).0 unset in
      elim (Option-cases lines) [
        | inl e ↦ inr (inl (zero_line, e, rw (e, line_of) zero_line))
        | inr (lt, e) ↦ inr (inr (zero_line, lt, e, rw (e, unset, line_of)))
      ]
]

AtLine-unique :
    (lines : Option LineTable) (d : Diagnostic) (a b : ℤ)
    → AtLine lines d a
    → AtLine lines d b
    → a ≡ b
AtLine-unique lines d a b (inl (_, e)) (inl (_, f)) = cc
AtLine-unique lines d a b (inl (n, _)) (inr (inl (z, _, _))) = absurd (n z)
AtLine-unique lines d a b (inl (n, _)) (inr (inr (z, _, _, _))) = absurd (n z)
AtLine-unique lines d a b (inr (inl (z, _, _))) (inl (n, _)) = absurd (n z)
AtLine-unique lines d a b (inr (inr (z, _, _, _))) (inl (n, _)) = absurd (n z)
AtLine-unique lines d a b (inr (inl (_, _, e))) (inr (inl (_, _, f))) = cc
AtLine-unique lines d a b (inr (inl (_, k, _))) (inr (inr (_, lt, e, _))) = cc
AtLine-unique lines d a b (inr (inr (_, lt, e, _))) (inr (inl (_, k, _))) = cc
AtLine-unique lines d a b (inr (inr (_, lt, e, f))) (inr (inr (_, mt, g, h))) =
    let same : lt ≡ mt = cc in
    f ∙ ap (λ (t : LineTable). (lookup t d.range.start.offset).line) same ∙ sym h

module _ (project : ProjectFiles) (path : Text) (lt : LineTable) (supps : List Directive) where
  -- The diagnostic is in the linted file, or in none of the project's.
  abbrev pub IsOwn : Diagnostic → Type 0
  IsOwn d = (d.filename ≡ path) ⊎ (project d.filename ≡ none)

  abbrev pub IsIn : Other → Diagnostic → Type 0
  IsIn file d = (d.filename ≢ path) × (project d.filename ≡ some file)

  -- A directive of the diagnostic's file suppresses it, at its line in that file.
  abbrev pub Hidden : Diagnostic → Type 0
  Hidden d =
      (IsOwn d × (line : ℤ) × AtLine (some lt) d line × (covered supps d.rule_id line ≡ true))
      ⊎ ((file : Other) × IsIn file d
          × (line : ℤ) × AtLine file.lines d line
          × (covered file.directives d.rule_id line ≡ true))

  -- What is left of a list without the diagnostics that are hidden, in the same order.
  abbrev pub Remaining : List Diagnostic → List Diagnostic → Type 0
  Remaining [] out = out ≡ []
  Remaining (d ∷ ds) out =
      (Hidden d × Remaining ds out)
      ⊎ ((Hidden d → ⊥) × (rest : List Diagnostic) × (out ≡ d ∷ rest) × Remaining ds rest)

  other_file-cases :
      (d : Diagnostic)
      → ((other_file project path d ≡ none) × IsOwn d)
        ⊎ ((file : Other) × (other_file project path d ≡ some file) × IsIn file d)
  unfolding other_file
  other_file-cases d = elim (Bool-cases (text_eq d.filename path)) [
    | inl own ↦ inl (rw (own, other_file), inl ((text_eq_iff d.filename path).0 own))
    | inr away ↦
        let differs : d.filename ≢ path =
          λ e. absurd (ground (arith, away, (text_eq_iff d.filename path).1 e)) in
        elim (Option-cases (project d.filename)) [
          | inl missing ↦ inl (rw (away, other_file) missing, inr missing)
          | inr (file, found) ↦ inr (file, rw (away, other_file) found, (differs, found))
        ]
  ]

  IsOwn-IsIn : (d : Diagnostic) (file : Other) → IsOwn d → IsIn file d → ⊥
  IsOwn-IsIn d file (inl same) (differs, found) = differs same
  IsOwn-IsIn d file (inr missing) (differs, found) = absurd (cc)

  pub IsOwn-other_file : (d : Diagnostic) → IsOwn d → other_file project path d ≡ none
  IsOwn-other_file d own = elim (other_file-cases d) [
    | inl (none_there, _) ↦ none_there
    | inr (file, _, there) ↦ absurd (IsOwn-IsIn d file own there)
  ]

  pub other_file-IsOwn : (d : Diagnostic) → other_file project path d ≡ none → IsOwn d
  other_file-IsOwn d e = elim (other_file-cases d) [
    | inl (_, own) ↦ own
    | inr (file, found, _) ↦ absurd (cc)
  ]

  -- A diagnostic of a file is hidden exactly if it is at the line it counts for.
  own-Hidden :
      (d : Diagnostic) → IsOwn d → Hidden d → covered supps d.rule_id (line_of (some lt) d) ≡ true
  own-Hidden d own (inl (_, line, at, hides)) =
      ap (covered supps d.rule_id)
        (AtLine-unique (some lt) d (line_of (some lt) d) line (AtLine-line_of (some lt) d) at)
      ∙ hides
  own-Hidden d own (inr (file, there, _, _, _)) = absurd (IsOwn-IsIn d file own there)

  other-Hidden :
      (d : Diagnostic) (file : Other)
      → IsIn file d
      → Hidden d
      → covered file.directives d.rule_id (line_of file.lines d) ≡ true
  other-Hidden d file there (inl (own, _, _, _)) = absurd (IsOwn-IsIn d file own there)
  other-Hidden d file there (inr (given, (_, found), line, at, hides)) =
      let same : given ≡ file = cc in
      let here : covered file.directives d.rule_id line ≡ true = rw same at hides in
      let at_file : AtLine file.lines d line = rw same at at in
      ap (covered file.directives d.rule_id) (
        AtLine-unique file.lines d (line_of file.lines d) line (AtLine-line_of file.lines d)
          at_file)
      ∙ here

  -- The verdict of `judge`.
  pub judge-Hidden :
      (d : Diagnostic)
      → (((judge project path lt supps none d).1 ≡ true) × Hidden d)
        ⊎ (((judge project path lt supps none d).1 ≡ false) × (Hidden d → ⊥))
  unfolding judge
  judge-Hidden d = elim (other_file-cases d) [
    | inl (e, own) ↦
        let line = line_of (some lt) d in
        let verdict = is_suppressed_iff supps none d.rule_id line in
        elim (Bool-cases (covered supps d.rule_id line)) [
          | inl hides ↦
              inl (
                rw (e, judge) (verdict ∙ hides),
                inl (own, line, AtLine-line_of (some lt) d, hides),
              )
          | inr shows ↦ inr (
            rw (e, judge) (verdict ∙ shows),
            λ h. absurd (ground (arith, shows, own-Hidden d own h)),
          )
        ]
    | inr (file, e, there) ↦
        let line = line_of file.lines d in
        let verdict = is_suppressed_iff file.directives none d.rule_id line in
        elim (Bool-cases (covered file.directives d.rule_id line)) [
          | inl hides ↦ inl (
            rw (e, judge) (verdict ∙ hides),
            inr (file, there, line, AtLine-line_of file.lines d, hides),
          )
          | inr shows ↦ inr (
            rw (e, judge) (verdict ∙ shows),
            λ h. absurd (ground (arith, shows, other-Hidden d file there h)),
          )
        ]
  ]
