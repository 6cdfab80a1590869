-- ===== src/Engine.antt =====
-- pkg/lint: engine.go, suppression.go and aliases.go: what becomes of the diagnostics that the rules
-- report: their defaults, the directives that suppress them, the directives that suppress none,
-- and the list that is returned. Cancellation, timing and the panics of a rule are left out.
pub mod Filter
pub mod Hidden
pub mod Judged
mod Examples
use pawnlint.Base.{
  ℕ, suc, Bool, true, false, ◌&&◌, ◌||◌, not, ℤ, pos, eqb_ℤ, Option, none, some, List, [], ◌∷◌,
  ◌++◌, Text, text_eq, get_or, length, map, codes, replicate, if◌then◌else◌,
}
use pawnlint.Source.{Range}
use pawnlint.LineTable.{LineTable, lookup, range}
use pawnlint.Diagnostic.{
  Severity, off, warning, hint, Category, correctness, maintainability, Diagnostic,
  sort_diagnostics,
}
use pawnlint.Suppress.{Kind, disable_next_line, disable, enable, Directive}
use pawnlint.Registry.{Registrar, resolve_id}
use pawnlint.Suppress.Matcher.{Used, is_suppressed}

-- What `ctx.Report` fills in: the zero values are Off and Correctness.
abbrev pub or_severity : Severity → Severity → Severity
or_severity off s = s
or_severity given s = given

abbrev pub or_category : Category → Category → Category
or_category correctness c = c
or_category given c = given

unfoldable pub reported : Text → Severity → Category → Text → LineTable → Diagnostic → Diagnostic
unfolding text_eq range
reported id severity category path lt d = record d {
  rule_id = if text_eq d.rule_id [] then id else d.rule_id;
  severity = or_severity d.severity severity;
  category = or_category d.category category;
  filename = if text_eq d.filename [] then path else d.filename;
  range =
      if eqb_ℤ d.range.start.offset d.range.end.offset && eqb_ℤ d.range.start.offset (pos 0)
      then range lt (pos 0) (pos 0)
      else d.range;
}

-- The loop over what a rule has collected: the rule's ID replaces any other.
unfoldable pub collected : Text → List Diagnostic → List Diagnostic
unfolding text_eq
collected id [] = []
collected id (d ∷ ds) =
    record d {
      rule_id = if not (text_eq d.rule_id id) && not (text_eq d.rule_id []) then id else d.rule_id;
    }
    ∷ collected id ds

-- %q of a text without quotes, backslashes and control characters, such as an ID.
abbrev pub quoted : Text → Text
quoted t = 34 ∷ t ++ 34 ∷ []

abbrev pub is_listed : Text → List Text → Bool
is_listed id [] = false
is_listed id (x ∷ xs) = text_eq x id || is_listed id xs

-- The ID that a directive's ID stands for: itself where the registry does not know it.
unfoldable pub canonical_id : Registrar → Text → Text
unfolding resolve_id
canonical_id reg configured = elim (resolve_id reg configured) [
  | none ↦ configured
  | some (id, deprecated) ↦ id
]

-- The IDs of a directive, each once.
unfoldable pub canonical_ids : Registrar → List Text → List Text → List Text
unfolding canonical_id
canonical_ids reg seen [] = []
canonical_ids reg seen (configured ∷ rest) =
    let id = canonical_id reg configured in
    if is_listed id seen
    then canonical_ids reg seen rest
    else id ∷ canonical_ids reg (id ∷ seen) rest

unfoldable pub migration : LineTable → Directive → Text → Text → Diagnostic
unfolding range
migration lt d configured id = record {
  rule_id = codes "deprecated-rule-id";
  code = [];
  severity = warning;
  category = maintainability;
  message =
      codes "suppression rule ID "
      ++ quoted configured
      ++ codes " is deprecated; use "
      ++ quoted id;
  filename = d.file;
  range = range lt d.offset d.end;
  notes = [];
  suggestions = [];
  fix = none;
}

unfoldable pub migrations_of : Registrar → LineTable → Directive → List Text → List Diagnostic
unfolding resolve_id migration
migrations_of reg lt d [] = []
migrations_of reg lt d (configured ∷ rest) =
    let later = migrations_of reg lt d rest in
    elim (resolve_id reg configured) [
      | none ↦ later
      | some (id, deprecated) ↦ if deprecated then migration lt d configured id ∷ later else later
    ]

unfoldable pub normalize_all :
    Registrar → LineTable → List Directive → List Directive × List Diagnostic
unfolding canonical_ids migrations_of
normalize_all reg lt [] = ([], [])
normalize_all reg lt (d ∷ ds) =
    let rest = normalize_all reg lt ds in
    (record d { ids = canonical_ids reg [] d.ids } ∷ rest.0, migrations_of reg lt d d.ids ++ rest.1)

-- `normalizeSuppressionAliases`; `none` is a nil registry.
unfoldable pub normalize_suppression_aliases :
    Option Registrar → List Directive → LineTable → List Directive × List Diagnostic
unfolding normalize_all
normalize_suppression_aliases none ds lt = (ds, [])
normalize_suppression_aliases (some reg) ds lt = elim reg.aliases [
  | [] ↦ (ds, [])
  | a ∷ more ↦ normalize_all reg lt ds
]

-- A file of the project, other than the one that is linted, with its directives.
pub record Other : Type 0 where
  pub directives : List Directive
  pub lines : Option LineTable

-- `e.Project.File`, `none` for nil; without a project it finds nothing.
abbrev pub ProjectFiles : Type 0
ProjectFiles = Text → Option Other

-- The line of a diagnostic, looked up where it is not set.
unfoldable pub line_of : Option LineTable → Diagnostic → ℤ
unfolding lookup
line_of none d = d.range.start.line
line_of (some lt) d =
    if eqb_ℤ d.range.start.line (pos 0)
    then (lookup lt d.range.start.offset).line
    else d.range.start.line

-- The other file of the project that a diagnostic is in.
unfoldable pub other_file : ProjectFiles → Text → Diagnostic → Option Other
unfolding text_eq
other_file project path d = if text_eq d.filename path then none else project d.filename

-- `used` after a diagnostic was looked up, and whether it is suppressed.
unfoldable pub judge :
    ProjectFiles → Text → LineTable → List Directive → Used → Diagnostic → Used × Bool
unfolding other_file line_of is_suppressed
judge project path lt supps used d = elim (other_file project path d) [
  | some file ↦ (used, (is_suppressed file.directives none d.rule_id (line_of file.lines d)).1)
  | none ↦ is_suppressed supps used d.rule_id (line_of (some lt) d)
]

-- The loop over the diagnostics: those that are kept, and `used` at the end.
unfoldable pub filter_diagnostics :
    ProjectFiles
    → Text
    → LineTable
    → List Directive
    → Used
    → List Diagnostic
    → List Diagnostic × Used
unfolding judge
filter_diagnostics project path lt supps used [] = ([], used)
filter_diagnostics project path lt supps used (d ∷ ds) =
    let here = judge project path lt supps used d in
    let rest = filter_diagnostics project path lt supps here.0 ds in
    (if here.1 then rest.0 else d ∷ rest.0, rest.1)

abbrev pub suppression_id : Text
suppression_id = codes "unknown-suppression"

abbrev pub used_at : List Bool → ℕ → Bool
used_at used i = get_or used i false

abbrev pub is_enable : Kind → Bool
is_enable enable = true
is_enable _ = false

-- The tests of the loop of `unusedSuppressionDiagnostics` on directive `i`.
unfoldable pub is_unused : List Bool → ℕ → Directive → Bool
is_unused used i d = not (is_enable d.kind) && not d.malformed && not (used_at used i)

unfoldable pub unused_diagnostic : Text → LineTable → Directive → Diagnostic
unfolding range
unused_diagnostic path lt d = record {
  rule_id = suppression_id;
  code = [];
  severity = hint;
  category = maintainability;
  message = codes "unused pawnlint suppression directive";
  filename = path;
  range = range lt d.offset d.end;
  notes = [];
  suggestions = [];
  fix = none;
}

-- `unusedSuppressionDiagnostics`, from index `i` on.
unfoldable pub unused_from : Text → LineTable → List Bool → ℕ → List Directive → List Diagnostic
unfolding is_unused unused_diagnostic
unused_from path lt used i [] = []
unused_from path lt used i (d ∷ ds) =
    let rest = unused_from path lt used (suc i) ds in
    if is_unused used i d then unused_diagnostic path lt d ∷ rest else rest

unfoldable pub unused_suppression_diagnostics :
    Text → List Directive → List Bool → LineTable → List Diagnostic
unfolding unused_from
unused_suppression_diagnostics path ds used lt = unused_from path lt used 0 ds

abbrev pub flags : Used → List Bool
flags none = []
flags (some used) = used

-- The end of `Engine.Lint`, from the diagnostics of the rules on: the flag says whether the rule
-- for unused directives is enabled, and `others` are the parse errors, the internal errors and the
-- deprecated IDs, in this order.
unfoldable pub finish :
    ProjectFiles
    → Text
    → LineTable
    → List Directive
    → Bool
    → List Diagnostic
    → List Diagnostic
    → List Diagnostic
unfolding filter_diagnostics unused_suppression_diagnostics sort_diagnostics
finish project path lt supps reports_unused raw others =
    let (kept, used) =
      filter_diagnostics project path lt supps (some (replicate (length supps) false)) raw in
    let unused =
      if reports_unused then unused_suppression_diagnostics path supps (flags used) lt else [] in
    sort_diagnostics (kept ++ unused ++ others)
