-- ===== src/Fix/Diff/Lines.antt =====
-- The lines that a diff shows are those of the text.
use pawnlint.Base.{
  ℕ, ◌≡◌, refl, ap, ◌∙◌, true, false, Bool-cases, inl, inr, List, [], ◌∷◌, ◌++◌, Text, text_eq,
  ◌==◌, ==_iff, All, if◌then◌else◌,
}
use pawnlint.Strings.{on_head}
use pawnlint.Strings.Laws.{Free}
use pawnlint.Fix.Diff.{DiffLine, split_after, diff_line, lines_of, split_lines}

-- A line as it stands in the text.
abbrev pub shown : DiffLine → Text
shown l = l.text ++ (if l.terminated then 10 ∷ [] else [])

abbrev pub unlines : List DiffLine → Text
unlines [] = []
unlines (l ∷ ls) = shown l ++ unlines ls

abbrev concat : List Text → Text
concat [] = []
concat (p ∷ ps) = p ++ concat ps

-- Every line but the last has a line feed.
abbrev pub IsClosed : List DiffLine → Type 0
IsClosed [] = Unit
IsClosed (l ∷ []) = Unit
IsClosed (l ∷ m ∷ ls) = (l.terminated ≡ true) × IsClosed (m ∷ ls)

shown-diff_line : (p : Text) → shown (diff_line p) ≡ p
unfolding diff_line
shown-diff_line [] = refl
shown-diff_line (c ∷ []) = elim (Bool-cases (c == 10)) [
  | inl e ↦ let same : c ≡ 10 = (==_iff c 10).0 e in rw (e, same)
  | inr e ↦ rw e
]
shown-diff_line (c ∷ d ∷ p) = ap (λ t. c ∷ t) (shown-diff_line (d ∷ p))

unlines-lines_of : (ps : List Text) → unlines (lines_of ps) ≡ concat ps
unfolding lines_of text_eq
unlines-lines_of [] = refl
unlines-lines_of ([] ∷ ps) = unlines-lines_of ps
unlines-lines_of ((c ∷ p) ∷ ps) = cc (shown-diff_line (c ∷ p), unlines-lines_of ps)

concat-on_head : (c : ℕ) (ps : List Text) → concat (on_head c ps) ≡ c ∷ concat ps
concat-on_head c [] = refl
concat-on_head c (p ∷ ps) = refl

concat-split_after : (sep : ℕ) (s : Text) → concat (split_after sep s) ≡ s
unfolding split_after
concat-split_after sep [] = refl
concat-split_after sep (c ∷ s) = elim (Bool-cases (c == sep)) [
  | inl e ↦ rw e (ap (λ t. c ∷ t) (concat-split_after sep s))
  | inr e ↦ rw e (concat-on_head c (split_after sep s) ∙ ap (λ t. c ∷ t) (concat-split_after sep s))
]

-- A line feed stands in a part at its end only.
abbrev IsPart : Text → Type 0
IsPart [] = Unit
IsPart (c ∷ []) = Unit
IsPart (c ∷ d ∷ p) = ((c == 10) ≡ false) × IsPart (d ∷ p)

on_head-IsPart :
    (c : ℕ) (ps : List Text) → (c == 10) ≡ false → All IsPart ps → All IsPart (on_head c ps)
on_head-IsPart c [] e h = (tt, tt)
on_head-IsPart c ([] ∷ ps) e h = (tt, h.1)
on_head-IsPart c ((d ∷ p) ∷ ps) e h = ((e, h.0), h.1)

split_after-IsPart : (s : Text) → All IsPart (split_after 10 s)
unfolding split_after
split_after-IsPart [] = (tt, tt)
split_after-IsPart (c ∷ s) = elim (Bool-cases (c == 10)) [
  | inl e ↦ rw e (tt, split_after-IsPart s)
  | inr e ↦ rw e (on_head-IsPart c (split_after 10 s) e (split_after-IsPart s))
]

diff_line-Free : (p : Text) → IsPart p → Free 10 (diff_line p).text
unfolding diff_line
diff_line-Free [] h = tt
diff_line-Free (c ∷ []) h = elim (Bool-cases (c == 10)) [ inl e ↦ rw e tt | inr e ↦ rw e (e, tt) ]
diff_line-Free (c ∷ d ∷ p) h = (h.0, diff_line-Free (d ∷ p) h.1)

lines_of-Free :
    (ps : List Text) → All IsPart ps → All (λ (l : DiffLine). Free 10 l.text) (lines_of ps)
unfolding lines_of text_eq
lines_of-Free [] h = tt
lines_of-Free ([] ∷ ps) h = lines_of-Free ps h.1
lines_of-Free ((c ∷ p) ∷ ps) h = (diff_line-Free (c ∷ p) h.0, lines_of-Free ps h.1)

IsClosed-cons :
    (l : DiffLine) (ls : List DiffLine) → l.terminated ≡ true → IsClosed ls → IsClosed (l ∷ ls)
IsClosed-cons l [] e h = tt
IsClosed-cons l (m ∷ ls) e h = (e, h)

IsClosed-head :
    (l m : DiffLine) (ls : List DiffLine)
    → l.terminated ≡ m.terminated
    → IsClosed (l ∷ ls)
    → IsClosed (m ∷ ls)
IsClosed-head l m [] e h = tt
IsClosed-head l m (k ∷ ls) e h = (cc (e, h.0), h.1)

-- What one more byte makes of the first part, which is not empty.
on_head-IsClosed :
    (c d : ℕ) (p : Text) (ps : List Text)
    → IsClosed (lines_of ((d ∷ p) ∷ ps))
    → IsClosed (lines_of ((c ∷ d ∷ p) ∷ ps))
unfolding lines_of diff_line text_eq
on_head-IsClosed c d p ps h =
    IsClosed-head (diff_line (d ∷ p)) (diff_line (c ∷ d ∷ p)) (lines_of ps) refl h

on_head_split-IsClosed :
    (c d : ℕ) (s : Text)
    → IsClosed (lines_of (split_after 10 (d ∷ s)))
    → IsClosed (lines_of (on_head c (split_after 10 (d ∷ s))))
unfolding split_after
on_head_split-IsClosed c d s h = elim (Bool-cases (d == 10)) [
  | inl e ↦ rw e (on_head-IsClosed c d [] (split_after 10 s) (rw e at h))
  | inr e ↦ rw e (
      elim (split_after 10 s)
          as (λ ps.
            IsClosed (lines_of (on_head d ps)) → IsClosed (lines_of (on_head c (on_head d ps)))) [
              | [] ↦ λ k. on_head-IsClosed c d [] [] k
              | p ∷ ps ↦ λ k. on_head-IsClosed c d p ps k
            ]
        (rw e at h))
]

line_feed-IsClosed :
    (c : ℕ) (ps : List Text)
    → (c == 10) ≡ true
    → IsClosed (lines_of ps)
    → IsClosed (lines_of ((c ∷ []) ∷ ps))
unfolding lines_of diff_line text_eq
line_feed-IsClosed c ps e h = IsClosed-cons (diff_line (c ∷ [])) (lines_of ps) (rw e refl) h

single-IsClosed : (c : ℕ) → IsClosed (lines_of ((c ∷ []) ∷ []))
unfolding lines_of text_eq
single-IsClosed c = tt

split_after-IsClosed : (s : Text) → IsClosed (lines_of (split_after 10 s))
unfolding split_after lines_of text_eq
split_after-IsClosed [] = tt
split_after-IsClosed (c ∷ []) = elim (Bool-cases (c == 10)) [
  | inl e ↦ rw e (line_feed-IsClosed c ([] ∷ []) e tt)
  | inr e ↦ rw e (single-IsClosed c)
]
split_after-IsClosed (c ∷ d ∷ s) = elim (Bool-cases (c == 10)) [
  | inl e ↦ rw e (line_feed-IsClosed c (split_after 10 (d ∷ s)) e (split_after-IsClosed (d ∷ s)))
  | inr e ↦ rw e (on_head_split-IsClosed c d s (split_after-IsClosed (d ∷ s)))
]

-- The lines of a text, shown one behind the other, are the text; no line has a line feed in it,
-- and every line but the last is terminated.
pub split_lines_lem :
    (s : Text)
    → (unlines (split_lines s) ≡ s)
      × All (λ (l : DiffLine). Free 10 l.text) (split_lines s)
      × IsClosed (split_lines s)
unfolding split_lines
split_lines_lem [] = (refl, tt, tt)
split_lines_lem (c ∷ s) = (
  unlines-lines_of (split_after 10 (c ∷ s)) ∙ concat-split_after 10 (c ∷ s),
  lines_of-Free (split_after 10 (c ∷ s)) (split_after-IsPart (c ∷ s)),
  split_after-IsClosed (c ∷ s),
)
