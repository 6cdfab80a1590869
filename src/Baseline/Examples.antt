-- ===== src/Baseline/Examples.antt =====
-- A baseline of two findings, one of which no baseline takes up.
use pawnlint.Base.{
  ◌≡◌, ◌↔◌, refl, false, not, none, some, List, [], ◌∷◌, Text, codes, text_eq, keep, All, pos,
}
use pawnlint.Diagnostic.{Diagnostic, warning, correctness}
use pawnlint.Strings.{fields, fields_from, space_at, is_space_rune, is_space}
use pawnlint.Baseline.{
  Outside, Project, File, Entry, eligible, generate, apply, validate, version, fingerprints,
  diagnostic_excerpt,
}
use pawnlint.Baseline.Accepted.{apply-generate}
use pawnlint.Baseline.Checked.{IsWellFormed, IsDistinct, validate_iff}

abbrev outside : Outside
outside = record {
  hash = λ t. 49 ∷ t;
  clean = λ p. p;
  to_slash = λ p. p;
  is_abs = λ p. false;
  join_path = λ d p. p;
  rel = λ d p. some p;
}

abbrev project : Project
project = record { dir = codes "/p"; sources = (codes "a.pwn", codes "new  a;") ∷ [] }

abbrev finding : Text → Diagnostic
finding rule = record {
  rule_id = rule;
  code = [];
  severity = warning;
  category = correctness;
  message = codes "never read";
  filename = codes "a.pwn";
  range = record {
    start = record { offset = pos 0; line = pos 1; col = pos 1 };
    end = record { offset = pos 6; line = pos 1; col = pos 7 };
  };
  notes = [];
  suggestions = [];
  fix = none;
}

excerpt_sample : diagnostic_excerpt (codes "new  a;") (finding []) ≡ codes "new a"
unfolding diagnostic_excerpt
excerpt_sample = refl

abbrev findings : List Diagnostic
findings = finding (codes "dead-write") ∷ finding (codes "parse-error") ∷ []

hashed : (t : Text) → text_eq (outside.hash t) [] ≡ false
unfolding text_eq
hashed t = refl

apply-generate_example :
    (apply outside project (generate outside project findings) findings).remaining
    ≡ keep (λ d. not (eligible d)) findings
apply-generate_example = apply-generate outside project findings hashed

abbrev repeated : Entry
repeated = record {
  fingerprint = codes "0123456789abcdef0123456789abcdef0123456789abcdef0123456789abcdef";
  rule_id = codes "dead-write";
  path = codes "a.pwn";
  message = codes "never read";
  line = pos 1;
}

abbrev twice : File
twice = record { version = version; entries = repeated ∷ repeated ∷ [] }

validate_iff_example : (validate outside twice ≡ none) ↔ (
    (twice.version ≡ pos 1)
    × All (IsWellFormed outside) twice.entries
    × IsDistinct (fingerprints twice.entries))
validate_iff_example = validate_iff outside twice

-- Words between spaces of one byte, two and three.
words_of_unicode :
    fields (194 ∷ 160 ∷ 97 ∷ 98 ∷ 32 ∷ 227 ∷ 128 ∷ 128 ∷ 99 ∷ []) ≡ codes "ab" ∷ codes "c" ∷ []
unfolding fields fields_from space_at is_space_rune is_space
words_of_unicode = refl
