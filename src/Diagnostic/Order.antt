-- ===== src/Diagnostic/Order.antt =====
-- The order of diagnostics, and the names of severities.
use mathlib.Core.List.{Perm}
use pawnlint.Base.{◌≡◌, refl, true, List, ◌⊎◌, inl, inr, text_lt, ◌<ℤ◌, arith}
use pawnlint.Base.Sort.{
  IsWeakOrder, by_key-IsWeakOrder, then_by-IsWeakOrder, sort, sort-IsSorted, sort-perm, Ordered,
  sort-Ordered, then_by, by_key, then_by_less, then_by_same, sort_of_IsSorted, text_key, int_key,
}
use pawnlint.Diagnostic.{
  Severity, off, error, warning, info, hint, severity_string, parse_severity, Diagnostic,
  diagnostic_less, sort_diagnostics,
}

pub diagnostic_less-IsWeakOrder : IsWeakOrder diagnostic_less
unfolding diagnostic_less
diagnostic_less-IsWeakOrder =
    then_by-IsWeakOrder (λ (d : Diagnostic). d.filename)
      (then_by-IsWeakOrder (λ (d : Diagnostic). d.range.start.offset)
        (then_by-IsWeakOrder (λ (d : Diagnostic). d.rule_id)
          (by_key-IsWeakOrder (λ (d : Diagnostic). d.message))))

-- The order that a listing of findings has: by file, then by where they start, then by rule, then
-- by message. `a` stands in front of `b`.
abbrev pub Before : Diagnostic → Diagnostic → Type 0
Before a b =
    (text_lt a.filename b.filename ≡ true)
    ⊎ ((a.filename ≡ b.filename)
        × ((a.range.start.offset <ℤ b.range.start.offset)
            ⊎ ((a.range.start.offset ≡ b.range.start.offset)
                × ((text_lt a.rule_id b.rule_id ≡ true)
                    ⊎ ((a.rule_id ≡ b.rule_id) × (text_lt a.message b.message ≡ true))))))

diagnostic_less-Before : (a b : Diagnostic) → Before a b → diagnostic_less a b ≡ true
unfolding diagnostic_less
diagnostic_less-Before a b h =
    let message = by_key (λ (d : Diagnostic). d.message) in
    let rule = then_by (λ (d : Diagnostic). d.rule_id) message in
    let offset = then_by (λ (d : Diagnostic). d.range.start.offset) rule in
    let at_file = λ (e : a.filename ≡ b.filename) (k : offset a b ≡ true).
      then_by_same (λ (d : Diagnostic). d.filename) offset a b e k in
    elim h [
      | inl file ↦ then_by_less (λ (d : Diagnostic). d.filename) offset a b file
      | inr (e, inl start) ↦
          at_file e (
            then_by_less (λ (d : Diagnostic). d.range.start.offset) rule a b
              (ground (arith, start)))
      | inr (e, inr (f, rest)) ↦ at_file e (
          then_by_same (λ (d : Diagnostic). d.range.start.offset) rule a b f
            (elim rest [
              | inl id ↦ then_by_less (λ (d : Diagnostic). d.rule_id) message a b id
              | inr (g, text) ↦ then_by_same (λ (d : Diagnostic). d.rule_id) message a b g text
            ]))
    ]

-- Sorting diagnostics loses and invents none; none stands behind one that it comes before, by file
-- name, then start offset, then rule, then message; and sorting again changes nothing.
pub sort_diagnostics_lem :
    (ds : List Diagnostic)
    → Perm (sort_diagnostics ds) ds
      × Ordered Before (sort_diagnostics ds)
      × (sort_diagnostics (sort_diagnostics ds) ≡ sort_diagnostics ds)
unfolding sort_diagnostics
sort_diagnostics_lem ds = (
  sort-perm diagnostic_less ds,
  sort-Ordered Before diagnostic_less ds diagnostic_less-IsWeakOrder diagnostic_less-Before,
  sort_of_IsSorted diagnostic_less diagnostic_less-IsWeakOrder (sort diagnostic_less ds)
      (sort-IsSorted diagnostic_less diagnostic_less-IsWeakOrder ds),
)

-- The name of a severity is parsed back to it.
pub parse_severity-severity_string : (s : Severity) → parse_severity (severity_string s) ≡ (s, true)
unfolding parse_severity severity_string
parse_severity-severity_string off = refl
parse_severity-severity_string error = refl
parse_severity-severity_string warning = refl
parse_severity-severity_string info = refl
parse_severity-severity_string hint = refl
