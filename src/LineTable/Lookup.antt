-- ===== src/LineTable/Lookup.antt =====
-- `Lookup` and `Range` of a table that `NewLineTable` made.
use pawnlint.Base.{
  ℕ, ◌+◌, ◌≤◌, ◌≡◌, ◌∷◌, ap, arith, length, take, Text, ℤ, pos, ◌+ℤ◌, ◌-ℤ◌, ◌≤ℤ◌, int_laws,
}
use pawnlint.Source.{Position}
use pawnlint.LineTable.{
  LineTable, line_starts, new_line_table, search_line, clamp_offset, lookup, range,
}
use pawnlint.LineTable.Search.{at, search_line-eq}
use pawnlint.LineTable.Scan.{scan, scan_lem, line_starts-Ascending}

clamp_offset-le : (size : ℕ) (given : ℤ) → clamp_offset size given ≤ size
unfolding clamp_offset
clamp_offset-le size given = ground arith

-- The line and column behind the first `n` bytes.
abbrev pub position_of : Text → ℕ → Position
position_of src n = record {
  offset = pos n;
  line = pos (scan 1 1 (take n src)).0;
  col = pos (scan 1 1 (take n src)).1;
}

column : (a c n : ℕ) → a + c ≡ n + 1 → (pos n -ℤ pos a +ℤ pos 1) ≡ pos c
column a c n h = omega int_laws

-- Looking up an offset, clamped into the source, gives the line and the column that a reader who
-- counts line feeds and bytes from the start of the source arrives at.
pub lookup-eq-position_of :
    (src : Text) (given : ℤ)
    → lookup (new_line_table src) given ≡ position_of src (clamp_offset (length src) given)
unfolding lookup new_line_table
lookup-eq-position_of src given =
    let n = clamp_offset (length src) given in
    let (k, line, lt, col, col_pos, next) =
      scan_lem 0 0 1 1 n src (omega arith) (clamp_offset-le (length src) given) in
    let col_pos' = col_pos (omega arith) in
    let found : search_line (0 ∷ line_starts 0 src) n ≡ k =
      search_line-eq 0 (line_starts 0 src) n k (line_starts-Ascending 0 0 src (omega arith))
        (omega arith) lt (omega arith) (λ h. omega (arith, next h)) in
    let line_eq : pos (k + 1) ≡ pos (scan 1 1 (take n src)).0 = ap pos (omega arith) in
    let col_eq = column (at (0 ∷ line_starts 0 src) k) (scan 1 1 (take n src)).1 n (omega arith) in
    rw found (λ i. record { offset = pos n; line = line_eq i; col = col_eq i })

-- Every offset of a range lies in the source, and its start is not behind its end, whatever
-- offsets it is made of.
pub range_bounds :
    (lt : LineTable) (start end : ℤ)
    → (pos 0 ≤ℤ (range lt start end).start.offset)
      × ((range lt start end).start.offset ≤ℤ (range lt start end).end.offset)
      × ((range lt start end).end.offset ≤ℤ pos (length lt.source))
unfolding range lookup
range_bounds lt start end = (ground arith, ground arith, ground arith)

-- A range whose two ends are in order and in the source keeps them.
pub range_exact :
    (lt : LineTable) (start end : ℕ)
    → start ≤ end
    → end ≤ length lt.source
    → ((range lt (pos start) (pos end)).start.offset ≡ pos start)
      × ((range lt (pos start) (pos end)).end.offset ≡ pos end)
unfolding range lookup
range_exact lt start end h k = (ground arith, ground arith)
