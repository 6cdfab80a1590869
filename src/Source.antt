-- ===== src/Source.antt =====
-- internal/source/source.go: positions and ranges of a source text.
use pawnlint.Base.{Bool, ◌&&◌, not, ℤ, ltb_ℤ}

pub record Position : Type 0 where
  pub offset : ℤ
  pub line : ℤ
  pub col : ℤ

pub record Range : Type 0 where
  pub start : Position
  pub end : Position

-- `a >= b` is the failure of `a < b`.
unfoldable pub is_empty : Range → Bool
is_empty r = not (ltb_ℤ r.start.offset r.end.offset)

unfoldable pub contains : Range → ℤ → Bool
contains r offset = not (ltb_ℤ offset r.start.offset) && ltb_ℤ offset r.end.offset
