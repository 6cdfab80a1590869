-- ===== src/Strings/Laws.antt =====
-- Laws of trimming, splitting and searching that the parser's round trip rests on.
use mathlib.Core.List.{append_assoc}
use pawnlint.Base.{
  ℕ, ◌≡◌, ◌≢◌, refl, ltb, ap, ◌∙◌, true, false, some, List, [], ◌∷◌, ◌++◌, Text, ◌==◌, length, All,
  arith,
}
use pawnlint.Strings.{
  is_space, is_space_rune, space_at, trim_from, trim_left, trim_right, trim_space, has_prefix,
  index, split, join,
}

-- No spaces at either end.
abbrev pub IsTrimmed : Text → Type 0
IsTrimmed s = (trim_left s ≡ s) × (trim_right s ≡ s)

pub trim_space_of_IsTrimmed : (s : Text) → IsTrimmed s → trim_space s ≡ s
unfolding trim_space
trim_space_of_IsTrimmed s h = ap trim_right h.0 ∙ h.1

abbrev pub NoSpace : Text → Type 0
NoSpace = All (λ c. is_space c ≡ false)

abbrev pub IsAscii : Text → Type 0
IsAscii = All (λ c. ltb c 128 ≡ true)

-- A byte of ASCII does not begin a space of several bytes.
rune_ascii : (c : ℕ) (s : Text) → ltb c 128 ≡ true → s ≢ [] → is_space_rune (c ∷ s) ≡ false
unfolding is_space_rune
rune_ascii c [] h full = absurd (full refl)
rune_ascii c (a ∷ []) h full = ground arith
rune_ascii c (a ∷ b ∷ []) h full = ground arith
rune_ascii c (a ∷ b ∷ d ∷ s) h full = refl

space_at_ascii : (c : ℕ) (s : Text) → ltb c 128 ≡ true → is_space c ≡ false → space_at (c ∷ s) ≡ 0
unfolding space_at is_space_rune
space_at_ascii c [] h n = rw (n, space_at)
space_at_ascii c (a ∷ []) h n = rw (n, rune_ascii c (a ∷ []) h (λ e. cc), space_at)
space_at_ascii c (a ∷ b ∷ s) h n =
    rw (n, rune_ascii c (a ∷ []) h (λ e. cc), rune_ascii c (a ∷ b ∷ []) h (λ e. cc), space_at)

pub trim_left_ascii :
    (c : ℕ) (s : Text) → ltb c 128 ≡ true → is_space c ≡ false → trim_left (c ∷ s) ≡ c ∷ s
unfolding trim_left trim_from
trim_left_ascii c s h n = rw (space_at_ascii c s h n, trim_from)

pub trim_left_space : (s : Text) → trim_left (32 ∷ s) ≡ trim_left s
unfolding trim_left trim_from space_at is_space_rune is_space
trim_left_space s = refl

pub append-ne-nil : (s t : Text) → t ≢ [] → s ++ t ≢ []
append-ne-nil [] t h = h
append-ne-nil (c ∷ s) t h = λ e. cc

pub trim_right-append :
    (s t : Text) → IsAscii s → t ≢ [] → trim_right t ≡ t → trim_right (s ++ t) ≡ s ++ t
unfolding trim_right
trim_right-append [] t a full h = h
trim_right-append (d ∷ s) t a full h = rw (
  trim_right-append s t a.1 full h,
  rune_ascii d (s ++ t) a.0 (append-ne-nil s t full),
  trim_right,
)

pub trim_right-NoSpace : (s : Text) → IsAscii s → NoSpace s → trim_right s ≡ s
unfolding trim_right is_space_rune
trim_right-NoSpace [] a h = refl
trim_right-NoSpace (c ∷ []) a h = rw (h.0)
trim_right-NoSpace (c ∷ d ∷ s) a h =
    trim_right-append (c ∷ []) (d ∷ s) (a.0, tt) (λ e. cc) (trim_right-NoSpace (d ∷ s) a.1 h.1)

-- No place in the text is one where `sub` begins, if the text goes on as `t`.
abbrev pub Clear : Text → Text → Text → Type 0
Clear sub [] t = Unit
Clear sub (c ∷ s) t = (has_prefix (c ∷ s ++ t) sub ≡ false) × Clear sub s t

pub index-Clear :
    (sub s t : Text)
    → Clear sub s t
    → has_prefix t sub ≡ true
    → index (s ++ t) sub ≡ some (length s)
unfolding index
index-Clear sub [] [] h begins = rw begins
index-Clear sub [] (c ∷ t) h begins = rw begins
index-Clear sub (c ∷ s) t h begins = rw (h.0, index-Clear sub s t h.1 begins, index)

pub Clear-append : (sub s u t : Text) → Clear sub s (u ++ t) → Clear sub u t → Clear sub (s ++ u) t
Clear-append sub [] u t h k = k
Clear-append sub (c ∷ s) u t h k = (rw (append_assoc) (h.0), Clear-append sub s u t h.1 k)

-- Parts without the separator are split apart again.
abbrev pub Free : ℕ → Text → Type 0
Free sep = All (λ c. (c == sep) ≡ false)

split-Free : (sep : ℕ) (s : Text) → Free sep s → split sep s ≡ s ∷ []
unfolding split
split-Free sep [] h = refl
split-Free sep (c ∷ s) h = rw (h.0, split-Free sep s h.1, split)

split-append : (sep : ℕ) (s t : Text) → Free sep s → split sep (s ++ sep ∷ t) ≡ s ∷ split sep t
unfolding split
split-append sep [] t h = ground arith
split-append sep (c ∷ s) t h = rw (h.0, split-append sep s t h.1, split)

pub split-join :
    (sep : ℕ) (part : Text) (parts : List Text)
    → All (Free sep) (part ∷ parts)
    → split sep (join sep (part ∷ parts)) ≡ part ∷ parts
unfolding join
split-join sep part [] h = split-Free sep part h.0
split-join sep part (next ∷ parts) h =
    split-append sep part (join sep (next ∷ parts)) h.0
    ∙ ap (λ ps. part ∷ ps) (split-join sep next parts h.1)
