-- ===== src/LineTable.antt =====
-- internal/source/linetable.go: the offsets at which lines begin, and the lookups over them.
-- The table is made by `new_line_table` alone, which puts 0 first, so `line_start` is never empty
-- and the lengths less one below are not cut off at 0.
mod Search
pub mod Scan
pub mod Lookup
mod Examples
use pawnlint.Base.{
  ℕ, zero, suc, ◌+◌, ◌-◌, ◌/◌, Bool, ◌&&◌, ◌||◌, not, List, [], ◌∷◌, ltb, leb, ◌==◌, if◌then◌else◌,
  length, get_or, take, drop, Text, ℤ, pos, pos_part, ◌+ℤ◌, ◌-ℤ◌, ltb_ℤ,
}
use pawnlint.Source.{Position, Range}

pub record LineTable : Type 0 where
  pub source : Text
  pub line_start : List ℕ

-- The loop of `NewLineTable` from index `i` on: what it appends.
unfoldable pub line_starts : ℕ → Text → List ℕ
line_starts i [] = []
line_starts i (b ∷ rest) =
    if b == 10 then (i + 1) ∷ line_starts (i + 1) rest else line_starts (i + 1) rest

unfoldable pub new_line_table : Text → LineTable
unfolding line_starts
new_line_table source = record { source = source; line_start = 0 ∷ line_starts 0 source }

unfoldable pub line_count : LineTable → ℕ
line_count lt = length lt.line_start

-- The loop of `searchLine`; the two bounds meet within as many rounds as the table has lines.
unfoldable pub search_loop : ℕ → List ℕ → ℕ → ℕ → ℕ → ℕ
search_loop zero line_start offset lo hi = lo
search_loop (suc fuel) line_start offset lo hi =
    let mid = (lo + hi) / 2 in
    let right = search_loop fuel line_start offset (mid + 1) hi in
    let left = search_loop fuel line_start offset lo mid in
    if ltb lo hi then (if leb (get_or line_start mid 0) offset then right else left) else lo

-- `clamp`
unfoldable pub clamp : ℕ → ℕ → ℕ → ℕ
clamp v lo hi = if ltb v lo then lo else if ltb hi v then hi else v

unfoldable pub search_line : List ℕ → ℕ → ℕ
unfolding search_loop clamp
search_line line_start offset =
    let lo = search_loop (length line_start) line_start offset 0 (length line_start - 1) in
    let lo' = if ltb 0 lo && ltb offset (get_or line_start lo 0) then lo - 1 else lo in
    clamp lo' 0 (length line_start - 1)

-- The offset that `Lookup` goes on with, in the source.
unfoldable pub clamp_offset : ℕ → ℤ → ℕ
clamp_offset size offset =
    if ltb_ℤ offset (pos 0) then 0 else if ltb_ℤ (pos size) offset then size else pos_part offset

unfoldable pub lookup : LineTable → ℤ → Position
unfolding clamp_offset
lookup lt given =
    let offset = clamp_offset (length lt.source) given in
    let line = search_line lt.line_start offset in
    let line_start = get_or lt.line_start line 0 in
    record {
      offset = pos offset;
      line = pos (line + 1);
      col = pos offset -ℤ pos line_start +ℤ pos 1;
    }

-- `Range`
unfoldable pub range : LineTable → ℤ → ℤ → Range
range lt start end =
    let start = if ltb_ℤ start (pos 0) then pos 0 else start in
    let end = if ltb_ℤ (pos (length lt.source)) end then pos (length lt.source) else end in
    let end = if ltb_ℤ end start then start else end in
    record { start = lookup lt start; end = lookup lt end }

-- `LineText`: the bytes of line `line_idx`, counted from 1, without its line ending.
unfoldable pub line_text : LineTable → ℤ → Text
line_text lt line_idx =
    if ltb_ℤ line_idx (pos 1) || ltb_ℤ (pos (length lt.line_start)) line_idx
    then []
    else let k = pos_part line_idx in
      let start = get_or lt.line_start (k - 1) 0 in
      let last = get_or lt.line_start k 0 - 1 in
      let end =
        if ltb k (length lt.line_start)
        then if ltb 0 last && get_or lt.source (last - 1) 0 == 13 then last - 1 else last
        else length lt.source in
      drop start (take end lt.source)

-- `DisplayWidth`: the part of a range that lies on the line where the range begins.
unfoldable pub display_width : LineTable → ℤ → ℤ → ℤ
unfolding lookup
display_width lt start end =
    let start = if ltb_ℤ start (pos 0) then pos 0 else start in
    if ltb_ℤ end start
    then pos 0
    else let line = pos_part (lookup lt start).line in
      let line_start = get_or lt.line_start (line - 1) 0 in
      let line_end =
        if ltb line (length lt.line_start)
        then pos (get_or lt.line_start line 0) -ℤ pos 1
        else pos (length lt.source) in
      let end = if ltb_ℤ line_end end then line_end else end in
      if not (ltb_ℤ (pos line_start) end) then pos 0 else end -ℤ start
