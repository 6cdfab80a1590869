-- ===== src/Engine/Examples.antt =====
-- A file with three directives and two diagnostics: runs of pkg/lint/engine.go.
use pawnlint.Base.{
  ℕ, ◌≡◌, refl, true, false, none, some, List, [], ◌∷◌, Text, codes, pos, keep, length, replicate,
  All,
}
use pawnlint.Source.{Range}
use pawnlint.LineTable.{LineTable}
use pawnlint.Diagnostic.{off, hint, warning, correctness, style, Diagnostic}
use pawnlint.Suppress.{Kind, disable_next_line, enable, Directive}
use pawnlint.Suppress.Matcher.{Used}
use pawnlint.Suppress.Matcher.Used.{flag}
use pawnlint.Engine.{
  reported, collected, ProjectFiles, filter_diagnostics, suppression_id,
  unused_suppression_diagnostics, flags, finish,
}
use pawnlint.Engine.Hidden.{Remaining}
use pawnlint.Engine.Filter.{Needed, Credited, filter_diagnostics_sound}

abbrev lines : LineTable
lines = record { source = []; line_start = 0 ∷ [] }

abbrev at_line : ℕ → Range
at_line n = record {
  start = record { offset = pos 9; line = pos n; col = pos 1 };
  end = record { offset = pos 9; line = pos n; col = pos 1 };
}

abbrev found : Text → ℕ → Diagnostic
found id line = record {
  rule_id = id;
  code = [];
  severity = warning;
  category = style;
  message = codes "m";
  filename = codes "a.pwn";
  range = at_line line;
  notes = [];
  suggestions = [];
  fix = none;
}

abbrev directive : Kind → Text → ℕ → Directive
directive kind id line = record {
  file = codes "a.pwn";
  line = pos line;
  offset = pos 0;
  end = pos 0;
  kind = kind;
  ids = id ∷ [];
  all = false;
  reason = [];
  malformed = false;
}

abbrev directives : List Directive
directives =
    directive disable_next_line (codes "x") 1
    ∷ directive disable_next_line (codes "x") 5
    ∷ directive enable (codes "x") 6
    ∷ []

abbrev raw : List Diagnostic
raw = found (codes "x") 2 ∷ found (codes "y") 2 ∷ []

abbrev map_ids : List Diagnostic → List Text
map_ids [] = []
map_ids (d ∷ ds) = d.rule_id ∷ map_ids ds

abbrev alone : ProjectFiles
alone name = none

abbrev result : List Diagnostic × Used
result =
    filter_diagnostics alone (codes "a.pwn") lines directives
      (some (replicate (length directives) false)) raw

first_is_used : result ≡ (found (codes "y") 2 ∷ [], some (true ∷ false ∷ false ∷ []))
unfolding filter_diagnostics pawnlint.Base.◌+ℤ◌
first_is_used = refl

second_is_reported :
    length (unused_suppression_diagnostics (codes "a.pwn") directives (flags result.1) lines) ≡ 1
unfolding unused_suppression_diagnostics filter_diagnostics pawnlint.Base.◌+ℤ◌
second_is_reported = refl

finished_in_order :
    map_ids (finish alone (codes "a.pwn") lines directives true raw [])
    ≡ suppression_id ∷ codes "y" ∷ []
unfolding finish pawnlint.Base.Sort.sort pawnlint.Base.◌+ℤ◌ pawnlint.Base.Sort.insert
finished_in_order = refl

defaults_filled :
    (reported
      (codes "z")
      hint
      correctness
      (codes "b.pwn")
      lines
      (record (found [] 2) { severity = off; filename = [] })).filename
    ≡ codes "b.pwn"
unfolding reported
defaults_filled = refl

id_replaced : map_ids (collected (codes "z") raw) ≡ codes "z" ∷ codes "z" ∷ []
unfolding collected
id_replaced = refl

filter_diagnostics_sound_example :
    Remaining alone (codes "a.pwn") lines directives raw result.0
    × ((i : ℕ) → flag result.1 i ≡ true → Needed alone (codes "a.pwn") lines directives i raw)
    × All (Credited alone (codes "a.pwn") lines directives result.1) raw
filter_diagnostics_sound_example =
    filter_diagnostics_sound alone (codes "a.pwn") lines directives raw
