-- ===== src/Fix/Examples.antt =====
-- One file with two fixes.
use mathlib.Core.List.Perm
use pawnlint.Base.{
  ℕ, ◌≡◌, refl, inl, inr, ◌⊎◌, false, Option-cases, none, some, List, [], ◌∷◌, Text, codes, pos, ℤ,
  text_eq, text_lt, All, if◌then◌else◌, arith,
}
use pawnlint.Base.Sort.{sort, insert}
use pawnlint.Source.{Position}
use pawnlint.Diagnostic.{Diagnostic, warning, correctness}
use pawnlint.Fix.{
  PlannedEdit, Change, Plan, ok, err, overlapping, edit_less, validate_sorted, validate_edits,
  apply_edits,
}
use pawnlint.Fix.Validate.{IsLaidOut, has_edit, validate_edits-eq_of_perm, validate_edits_sound}
use pawnlint.Fix.Complete.{Agree, validate_edits_complete}
use pawnlint.Fix.Apply.{weave, apply_edits-eq-weave}
use pawnlint.Fix.Build.{Sources, build}
use pawnlint.Fix.Build.Sound.{IsSoundChange, build_sound}
use pawnlint.Fix.Build.Paths.{Ascends, paths, build-Ascends}
use pawnlint.Fix.Write.{Disk, System, write, perm}
use pawnlint.Strings.Laws.{Free}
use pawnlint.Fix.Diff.{DiffLine, split_lines}
use pawnlint.Fix.Diff.Lines.{unlines, IsClosed, split_lines_lem}
use pawnlint.Fix.Write.Rename.{IsFresh, IsLeft}
use pawnlint.Fix.Write.Atomic.{IsReplaced, write_atomic, write_complete}

abbrev first : PlannedEdit
first = record { start = pos 0; end = pos 3; text = codes "const" }

abbrev second : PlannedEdit
second = record { start = pos 4; end = pos 5; text = codes "y" }

abbrev edits : List PlannedEdit
edits = second ∷ first ∷ second ∷ []

abbrev file : Text
file = codes "a.pwn"

abbrev text : Text
text = codes "new x"

accepted : validate_edits file 5 edits ≡ ok (first ∷ second ∷ [])
unfolding validate_edits validate_sorted sort insert edit_less text_lt text_eq
accepted = refl

-- A zero-width edit at the start of another edit is refused, one at its end is not.
overlap :
    validate_edits file 5 (first ∷ record first { end = pos 0 } ∷ [])
    ≡ err (overlapping file (pos 0) (pos 0))
unfolding validate_edits validate_sorted sort insert edit_less text_lt text_eq
overlap = refl

applied : apply_edits (first ∷ second ∷ []) text ≡ codes "const y"
unfolding apply_edits
applied = refl

validate_edits-eq_of_perm_example :
    validate_edits file 5 (first ∷ second ∷ []) ≡ validate_edits file 5 (second ∷ first ∷ [])
validate_edits-eq_of_perm_example =
    validate_edits-eq_of_perm file 5 (first ∷ second ∷ []) (second ∷ first ∷ [])
      (Perm.swap second first [])

validate_edits_sound_example :
    IsLaidOut 5 (first ∷ second ∷ [])
    × ((x : PlannedEdit) → has_edit x (first ∷ second ∷ []) ≡ has_edit x edits)
validate_edits_sound_example = validate_edits_sound file 5 edits (first ∷ second ∷ []) accepted

agree : All (λ a. All (Agree a) (second ∷ first ∷ [])) (second ∷ first ∷ [])
agree = ((inl refl, (inr (inr (omega arith)), tt)), ((inr (inl (omega arith)), (inl refl, tt)), tt))

validate_edits_complete_example :
    (r : List PlannedEdit) × (validate_edits file 5 (second ∷ first ∷ []) ≡ ok r)
validate_edits_complete_example =
    validate_edits_complete file 5 (second ∷ first ∷ []) (omega arith) agree

apply_edits-eq-weave_example :
    apply_edits (first ∷ second ∷ []) text ≡ weave 0 (first ∷ second ∷ []) text
apply_edits-eq-weave_example = apply_edits-eq-weave (first ∷ second ∷ []) text (omega arith)

abbrev sources : Sources
sources path = if text_eq path file then some text else none

abbrev place : ℤ → Position
place o = record { offset = o; line = pos 1; col = pos 1 }

abbrev finding : PlannedEdit → Diagnostic
finding e = record {
  rule_id = codes "prefer-const";
  code = [];
  severity = warning;
  category = correctness;
  message = codes "never written";
  filename = file;
  range = record { start = place e.start; end = place e.end };
  notes = [];
  suggestions = [];
  fix = some (record {
    description = [];
    edits =
        record { range = record { start = place e.start; end = place e.end }; new_text = e.text }
        ∷ [];
  });
}

abbrev findings : List Diagnostic
findings = finding second ∷ finding first ∷ []

abbrev plan : Plan
plan = record { changes = record { path = file; before = text; after = codes "const y" } ∷ [] }

built : build sources findings ≡ ok plan
unfolding build validate_edits validate_sorted apply_edits sort insert edit_less text_lt text_eq
built = refl

build_sound_example : All (IsSoundChange sources findings) plan.changes
build_sound_example = build_sound sources findings plan built

build-Ascends_example : Ascends (paths plan.changes)
build-Ascends_example = build-Ascends sources findings plan built

-- Renaming fails for one path, and so does removing; a temporary file has one name, if that is free.
abbrev system : Text → System
system unlucky = record {
  read_fails = λ p. false;
  stat_fails = λ p. false;
  chmod_fails = λ p. false;
  write_fails = λ p. false;
  sync_fails = λ p. false;
  close_fails = λ p. false;
  rename_fails = text_eq unlucky;
  remove_fails = text_eq unlucky;
  partial = λ p. [];
  temporary = λ disk p. elim (disk (codes "tmp")) [ none ↦ some (codes "tmp") | some f ↦ none ];
}

system-IsFresh : (unlucky : Text) → IsFresh (system unlucky)
system-IsFresh unlucky disk path name made = elim (Option-cases (disk (codes "tmp"))) [
  | inl free ↦ let same : codes "tmp" ≡ name = ground (arith, free) in rw same at free
  | inr (f, held) ↦ absurd (ground (arith, held))
]

abbrev disk : Disk
disk = λ path. if text_eq path file then some (record { content = text; mode = 420 }) else none

write_atomic_example :
    ((write (system file) disk plan).0 file ≡ disk file)
    ⊎ IsReplaced plan.changes disk (write (system file) disk plan).0 file
    ⊎ IsLeft (system file) plan.changes disk (write (system file) disk plan).1 file
write_atomic_example = write_atomic (system file) disk plan file (system-IsFresh file)

-- The temporary file that stays, with the new text in it.
left_behind :
    (write (system file) disk plan).0 (codes "tmp")
    ≡ some (record { content = codes "const y"; mode = 420 })
unfolding write text_eq
left_behind = refl

written : (write (system []) disk plan).1 ≡ none
unfolding write text_eq
written = refl

write_complete_example :
    All
      (λ (c : Change).
        (mode : ℕ) × (disk c.path ≡ some (record { content = c.before; mode = mode }))
        × ((write (system []) disk plan).0 c.path
            ≡ some (record { content = c.after; mode = perm mode })))
      plan.changes
write_complete_example = write_complete (system []) disk plan (system-IsFresh []) written

abbrev two_lines : Text
two_lines = 97 ∷ 10 ∷ 98 ∷ []

split_lines_lem_example :
    (unlines (split_lines two_lines) ≡ two_lines)
    × All (λ (l : DiffLine). Free 10 l.text) (split_lines two_lines)
    × IsClosed (split_lines two_lines)
split_lines_lem_example = split_lines_lem two_lines
