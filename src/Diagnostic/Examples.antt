-- ===== src/Diagnostic/Examples.antt =====
-- Two diagnostics, sorted.
use mathlib.Core.List.{Perm}
use pawnlint.Base.{◌≡◌, true, none, List, [], ◌∷◌, Text, codes, pos}
use pawnlint.Base.Sort.{Ordered}
use pawnlint.Diagnostic.{
  Diagnostic, warning, correctness, severity_string, parse_severity, sort_diagnostics,
}
use pawnlint.Diagnostic.Order.{Before, sort_diagnostics_lem, parse_severity-severity_string}

abbrev at_file : Text → Diagnostic
at_file name = record {
  rule_id = codes "dead-write";
  code = [];
  severity = warning;
  category = correctness;
  message = codes "never read";
  filename = name;
  range = record {
    start = record { offset = pos 0; line = pos 1; col = pos 1 };
    end = record { offset = pos 1; line = pos 1; col = pos 2 };
  };
  notes = [];
  suggestions = [];
  fix = none;
}

abbrev two : List Diagnostic
two = at_file (codes "b.pwn") ∷ at_file (codes "a.pwn") ∷ []

sort_diagnostics_lem_example :
    Perm (sort_diagnostics two) two
    × Ordered Before (sort_diagnostics two)
    × (sort_diagnostics (sort_diagnostics two) ≡ sort_diagnostics two)
sort_diagnostics_lem_example = sort_diagnostics_lem two

parse_severity-severity_string_example : parse_severity (severity_string warning) ≡ (warning, true)
parse_severity-severity_string_example = parse_severity-severity_string warning
