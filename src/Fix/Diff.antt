-- ===== src/Fix/Diff.antt =====
-- internal/fix/fix.go: Diff, which shows each change as one hunk of all old and all new lines.
pub mod Lines
use pawnlint.Base.{
  ℕ, Bool, true, false, ℤ, pos, Option, none, some, List, [], ◌∷◌, ◌++◌, Text, codes, length,
  text_eq, ◌==◌, if◌then◌else◌,
}
use pawnlint.Strings.{itoa, on_head}
use pawnlint.Fix.{Change, Plan}

pub record DiffLine : Type 0 where
  pub text : Text
  pub terminated : Bool

-- strings.SplitAfter by one byte: never empty.
unfoldable pub split_after : ℕ → Text → List Text
split_after sep [] = [] ∷ []
split_after sep (c ∷ s) =
    let parts = split_after sep s in if c == sep then (c ∷ []) ∷ parts else on_head c parts

-- A part with its terminator told apart: strings.HasSuffix and strings.TrimSuffix by a line feed.
unfoldable pub diff_line : Text → DiffLine
diff_line [] = record { text = []; terminated = false }
diff_line (c ∷ s) =
    let rest = diff_line s in
    elim s [
      | [] ↦
          if c == 10
          then record { text = []; terminated = true }
          else record { text = c ∷ []; terminated = false }
      | d ∷ t ↦ record { text = c ∷ rest.text; terminated = rest.terminated }
    ]

-- The loop of `splitLines`.
unfoldable pub lines_of : List Text → List DiffLine
unfolding diff_line
lines_of [] = []
lines_of (part ∷ parts) =
    let rest = lines_of parts in if text_eq part [] then rest else diff_line part ∷ rest

unfoldable pub split_lines : Text → List DiffLine
unfolding split_after lines_of
split_lines [] = []
split_lines (c ∷ s) = lines_of (split_after 10 (c ∷ s))

unfoldable pub diff_start : List DiffLine → ℕ
diff_start [] = 0
diff_start (l ∷ ls) = 1

unfoldable pub write_diff_line : ℕ → DiffLine → Text
write_diff_line prefix line =
    prefix ∷ line.text
    ++ 10 ∷ (if line.terminated then [] else codes "\\ No newline at end of file" ++ 10 ∷ [])

unfoldable pub write_diff_lines : ℕ → List DiffLine → Text
unfolding write_diff_line
write_diff_lines prefix [] = []
write_diff_lines prefix (l ∷ ls) = write_diff_line prefix l ++ write_diff_lines prefix ls

-- One round of the loop of `Diff`.
unfoldable pub diff_change : Change → Text
unfolding split_lines diff_start write_diff_lines
diff_change c =
    let before = split_lines c.before in
    let after = split_lines c.after in
    (codes "--- " ++ c.path)
    ++ (10 ∷ codes "+++ " ++ c.path)
    ++ (10 ∷ codes "@@ -" ++ itoa (diff_start before))
    ++ (44 ∷ itoa (length before))
    ++ (codes " +" ++ itoa (diff_start after))
    ++ (44 ∷ itoa (length after))
    ++ codes " @@"
    ++ 10 ∷ write_diff_lines 45 before
    ++ write_diff_lines 43 after

abbrev pub diff_changes : List Change → Text
diff_changes [] = []
diff_changes (c ∷ cs) = diff_change c ++ diff_changes cs

-- `Diff`
unfoldable pub diff : Plan → Text
unfolding diff_change
diff plan = diff_changes plan.changes
