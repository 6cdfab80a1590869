-- ===== src/LineTable/Scan.antt =====
-- Positions by reading the source from its start.
use pawnlint.Base.{
  ℕ, zero, suc, ◌+◌, ◌≤◌, ◌<◌, ◌≡◌, inl, inr, [], ◌∷◌, arith, ◌==◌, if◌then◌else◌, Bool-cases,
  length, take, Text,
}
use pawnlint.LineTable.{line_starts}
use pawnlint.LineTable.Search.{at, Ascending}

-- Line and column, counted from 1, behind the bytes read.
abbrev pub scan : ℕ → ℕ → Text → ℕ × ℕ
scan line col [] = (line, col)
scan line col (b ∷ rest) =
    let next = scan (line + 1) 1 rest in
    let same = scan line (col + 1) rest in if b == 10 then next else same

pub line_starts-Ascending : (p i : ℕ) (src : Text) → p ≤ i → Ascending p (line_starts i src)
unfolding line_starts
line_starts-Ascending p i [] h = tt
line_starts-Ascending p i (b ∷ rest) h = elim (Bool-cases (b == 10)) [
  | inl e ↦ rw e (omega arith, line_starts-Ascending (i + 1) (i + 1) rest (omega arith))
  | inr e ↦ rw e (line_starts-Ascending p (i + 1) rest (omega arith))
]

-- The next line begins behind the byte that is read.
line_starts-head :
    (i : ℕ) (src : Text) → 0 < length (line_starts i src) → i < at (line_starts i src) 0
unfolding line_starts
line_starts-head i [] h = absurd (omega arith)
line_starts-head i (b ∷ rest) h = ground (arith, line_starts-head (i + 1) rest)

-- The line reached by reading `n` bytes on, from byte `i` on a line that began at `p`: its index
-- in the table, counted from the line of `p`, is in range, the line begins `col - 1` bytes before
-- the offset, and the next line begins behind it.
pub scan_lem :
    (p i l c n : ℕ) (src : Text)
    → p + c ≡ i + 1
    → n ≤ length src
    → (k : ℕ) × ((scan l c (take n src)).0 ≡ l + k)
      × (k < suc (length (line_starts i src)))
      × (at (p ∷ line_starts i src) k + (scan l c (take n src)).1 ≡ i + n + 1)
      × (0 < c → 0 < (scan l c (take n src)).1)
      × ((suc k < suc (length (line_starts i src))) → i + n < at (p ∷ line_starts i src) (suc k))
unfolding line_starts
scan_lem p i l c zero src e h =
    (0, omega arith, omega arith, omega arith, (λ k. k), λ k. omega (arith, line_starts-head i src))
scan_lem p i l c (suc n) [] e h = absurd (omega arith)
scan_lem p i l c (suc n) (b ∷ rest) e h = elim (Bool-cases (b == 10)) [
  | inl new ↦
      let (k, line, lt, col, pos_col, next) =
        scan_lem (i + 1) (i + 1) (l + 1) 1 n rest (omega arith) (omega arith) in
      rw (new) (
        suc k,
        omega arith,
        omega arith,
        omega arith,
        (λ _. pos_col (omega arith)),
        λ j. omega (arith, next (omega arith)),
      )
  | inr same ↦
      let (k, line, lt, col, pos_col, next) =
        scan_lem p (i + 1) l (c + 1) n rest (omega arith) (omega arith) in
      rw same (k, line, lt, omega arith, (λ _. pos_col (omega arith)), λ j. omega (arith, next j))
]
