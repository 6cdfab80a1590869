-- ===== src/Diagnostic.antt =====
-- pkg/diagnostic/diagnostic.go: diagnostics, their severities and their order.
pub mod Order
mod Examples
use pawnlint.Base.{Bool, true, false, Option, List, Text, codes, text_eq, if◌then◌else◌}
use pawnlint.Base.Sort.{by_key, then_by, sort, text_key, int_key}
use pawnlint.Source.{Range}

pub data Severity : Type 0 where
  off error warning info hint : Severity

-- `Severity.String`, over the declared constants.
unfoldable pub severity_string : Severity → Text
severity_string off = codes "off"
severity_string error = codes "error"
severity_string warning = codes "warning"
severity_string info = codes "info"
severity_string hint = codes "hint"

-- `ParseSeverity`: the severity, and whether the text names one.
unfoldable pub parse_severity : Text → Severity × Bool
unfolding text_eq
parse_severity s =
    if text_eq s (codes "off")
    then (off, true)
    else if text_eq s (codes "error")
    then (error, true)
    else if text_eq s (codes "warning")
    then (warning, true)
    else if text_eq s (codes "info")
    then (info, true)
    else if text_eq s (codes "hint")
    then (hint, true)
    else (off, false)

pub data Category : Type 0 where
  correctness suspicious performance maintainability openmp style security : Category
  portability restriction : Category

-- `Category.String`, over the declared constants.
unfoldable pub category_string : Category → Text
category_string correctness = codes "correctness"
category_string suspicious = codes "suspicious"
category_string performance = codes "performance"
category_string maintainability = codes "maintainability"
category_string openmp = codes "openmp"
category_string style = codes "style"
category_string security = codes "security"
category_string portability = codes "portability"
category_string restriction = codes "restriction"

pub record RelatedLocation : Type 0 where
  pub range : Range
  pub message : Text

pub record Edit : Type 0 where
  pub range : Range
  pub new_text : Text

pub record Suggestion : Type 0 where
  pub description : Text
  pub edits : List Edit

pub record Fix : Type 0 where
  pub description : Text
  pub edits : List Edit

pub record Diagnostic : Type 0 where
  pub rule_id : Text
  pub code : Text
  pub severity : Severity
  pub category : Category
  pub message : Text
  pub filename : Text
  pub range : Range
  pub notes : List RelatedLocation
  pub suggestions : List Suggestion
  pub fix : Option Fix

-- The comparison of `Sort`, and of the ordering in `fingerprintDiagnostics`.
unfoldable pub diagnostic_less : Diagnostic → Diagnostic → Bool
diagnostic_less =
    then_by (λ (d : Diagnostic). d.filename)
      (then_by (λ (d : Diagnostic). d.range.start.offset)
        (then_by (λ (d : Diagnostic). d.rule_id) (by_key (λ (d : Diagnostic). d.message))))

-- `Sort`
unfoldable pub sort_diagnostics : List Diagnostic → List Diagnostic
unfolding diagnostic_less
sort_diagnostics = sort diagnostic_less
