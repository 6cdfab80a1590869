-- ===== src/Suppress/Parser/Written.antt =====
-- How the ids and the reason of a directive are written, and what trimming and searching make of it.
use mathlib.Core.List.{append_assoc}
use pawnlint.Base.{
  ℕ, zero, suc, ◌≡◌, ◌≢◌, refl, ap, ◌∙◌, true, false, List, [], ◌∷◌, ◌++◌, Text, codes, text_eq,
  text_eq_iff, All, All-append, arith, map, replicate, ◌==◌, ltb,
}
use pawnlint.Strings.{is_space, trim_left, trim_right, trim_space, has_prefix, join}
use pawnlint.Strings.Laws.{
  NoSpace, IsAscii, Free, Clear, trim_left_ascii, trim_left_space, append-ne-nil, trim_right-append,
  trim_right-NoSpace, Clear-append,
}
use pawnlint.Suppress.Parser.{collect_ids}

-- An id as it is written: ASCII, not empty, neither `all` nor `--`, and with no space or comma.
pub record IsId (id : Text) : Type 0 where
  pub full : id ≢ []
  pub not_all : text_eq id (codes "all") ≡ false
  pub not_dashes : text_eq id (codes "--") ≡ false
  pub ascii : IsAscii id
  pub no_space : NoSpace id
  pub no_comma : Free 44 id

abbrev pub pad : ℕ → Text → Text
pad gap id = replicate gap 32 ++ id

abbrev pub listed : ℕ → ℕ → Text → List Text → Text
listed first gap id ids = join 44 (pad first id ∷ map (pad gap) ids)

-- id, id -- reason: with as many spaces behind each comma as the gap says.
abbrev pub written : ℕ → Text → List Text → Text → Text
written gap id ids reason = listed 0 gap id ids ++ (codes " -- " ++ reason)

pub spaces-IsAscii : (gap : ℕ) → IsAscii (replicate gap 32)
spaces-IsAscii zero = tt
spaces-IsAscii (suc gap) = (refl, spaces-IsAscii gap)

pub pad-IsAscii : (gap : ℕ) (id : Text) → IsAscii id → IsAscii (pad gap id)
pad-IsAscii zero id h = h
pad-IsAscii (suc gap) id h = (refl, pad-IsAscii gap id h)

pub pad-Free : (gap : ℕ) (id : Text) → Free 44 id → Free 44 (pad gap id)
pad-Free zero id h = h
pad-Free (suc gap) id h = (refl, pad-Free gap id h)

pub parts-Free : (gap : ℕ) (ids : List Text) → All IsId ids → All (Free 44) (map (pad gap) ids)
parts-Free gap [] h = tt
parts-Free gap (id ∷ ids) h = (pad-Free gap id h.0.no_comma, parts-Free gap ids h.1)

pub pad-ne-nil : (gap : ℕ) (id : Text) → IsId id → pad gap id ≢ []
pad-ne-nil gap id h = append-ne-nil (replicate gap 32) id h.full

pub trim_left-pad : (gap : ℕ) (id : Text) → IsId id → trim_left (pad gap id) ≡ id
trim_left-pad zero [] h = absurd (h.full refl)
trim_left-pad zero (c ∷ id) h = trim_left_ascii c id h.ascii.0 h.no_space.0
trim_left-pad (suc gap) id h = trim_left_space (pad gap id) ∙ trim_left-pad gap id h

pub trim_space-pad : (gap : ℕ) (id : Text) → IsId id → trim_space (pad gap id) ≡ id
unfolding trim_space
trim_space-pad gap id h =
    ap trim_right (trim_left-pad gap id h) ∙ trim_right-NoSpace id h.ascii h.no_space

pub trim_right-pad : (gap : ℕ) (id : Text) → IsId id → trim_right (pad gap id) ≡ pad gap id
trim_right-pad gap id h =
    trim_right-append (replicate gap 32) id (spaces-IsAscii gap) h.full
      (trim_right-NoSpace id h.ascii h.no_space)

pub listed-ne-nil :
    (first gap : ℕ) (id : Text) (ids : List Text) → IsId id → listed first gap id ids ≢ []
unfolding join
listed-ne-nil first gap id [] h = pad-ne-nil first id h
listed-ne-nil first gap id (next ∷ ids) h = append-ne-nil (pad first id) _ (λ e. cc)

pub trim_right-listed :
    (first gap : ℕ) (id : Text) (ids : List Text)
    → All IsId (id ∷ ids)
    → trim_right (listed first gap id ids) ≡ listed first gap id ids
unfolding join
trim_right-listed first gap id [] h = trim_right-pad first id h.0
trim_right-listed first gap id (next ∷ ids) h =
    let later = listed gap gap next ids in
    trim_right-append (pad first id) (44 ∷ later) (pad-IsAscii first id h.0.ascii) (λ e. cc)
      (trim_right-append (44 ∷ []) later (refl, tt) (listed-ne-nil gap gap next ids h.1.0)
        (trim_right-listed gap gap next ids h.1))

pub listed-IsAscii :
    (first gap : ℕ) (id : Text) (ids : List Text)
    → All IsId (id ∷ ids)
    → IsAscii (listed first gap id ids)
unfolding join
listed-IsAscii first gap id [] h = pad-IsAscii first id h.0.ascii
listed-IsAscii first gap id (next ∷ ids) h =
    All-append (λ c. ltb c 128 ≡ true) (pad first id) (44 ∷ listed gap gap next ids)
      (pad-IsAscii first id h.0.ascii) (refl, listed-IsAscii gap gap next ids h.1)

-- What begins with the first id is not trimmed in front.
pub trim_left-listed :
    (gap : ℕ) (id : Text) (ids : List Text) (rest : Text)
    → IsId id
    → trim_left (listed 0 gap id ids ++ rest) ≡ listed 0 gap id ids ++ rest
unfolding join
trim_left-listed gap [] ids rest h = absurd (h.full refl)
trim_left-listed gap (c ∷ id) [] rest h = trim_left_ascii c _ h.ascii.0 h.no_space.0
trim_left-listed gap (c ∷ id) (next ∷ ids) rest h = trim_left_ascii c _ h.ascii.0 h.no_space.0

-- An id does not look like the start of a reason, whatever follows it.
pub not_a_reason :
    (id t : Text) (c : ℕ)
    → IsId id
    → (c == 45) ≡ false
    → (text_eq (id ++ c ∷ t) (codes "--") ≡ false)
      × (has_prefix (id ++ c ∷ t) (codes "-- ") ≡ false)
unfolding has_prefix is_space text_eq
not_a_reason [] t c h e = absurd (h.full refl)
not_a_reason (a ∷ []) t c h e = (ground (arith, e), ground (arith, e))
not_a_reason (a ∷ b ∷ []) t c h e = (ground arith, ground (arith, h.not_dashes))
not_a_reason (a ∷ b ∷ d ∷ s) t c h e = (ground arith, ground (arith, h.no_space.1.1.0))

pub Clear-NoSpace : (s t : Text) → NoSpace s → Clear (codes " -- ") s t
unfolding has_prefix is_space
Clear-NoSpace [] t h = tt
Clear-NoSpace (c ∷ s) t h = (ground (arith, h.0), Clear-NoSpace s t h.1)

pub Clear-pad :
    (gap : ℕ) (id t : Text) (c : ℕ)
    → IsId id
    → (c == 45) ≡ false
    → Clear (codes " -- ") (pad gap id) (c ∷ t)
unfolding has_prefix
Clear-pad zero id t c h e = Clear-NoSpace id (c ∷ t) h.no_space
Clear-pad (suc zero) id t c h e = ((not_a_reason id t c h e).1, Clear-pad zero id t c h e)
Clear-pad (suc (suc gap)) id t c h e = (refl, Clear-pad (suc gap) id t c h e)

pub Clear-listed :
    (first gap : ℕ) (id : Text) (ids : List Text) (t : Text)
    → All IsId (id ∷ ids)
    → Clear (codes " -- ") (listed first gap id ids) (32 ∷ t)
unfolding join
Clear-listed first gap id [] t h = Clear-pad first id t 32 h.0 refl
Clear-listed first gap id (next ∷ ids) t h =
    let later = listed gap gap next ids in
    Clear-append (codes " -- ") (pad first id) (44 ∷ later) (32 ∷ t)
      (Clear-pad first id (later ++ 32 ∷ t) 44 h.0 refl)
      (unfold has_prefix in refl, Clear-listed gap gap next ids t h.1)

pub listed_not_a_reason :
    (gap : ℕ) (id : Text) (ids : List Text) (t : Text)
    → IsId id
    → (text_eq (listed 0 gap id ids ++ 32 ∷ t) (codes "--") ≡ false)
      × (has_prefix (listed 0 gap id ids ++ 32 ∷ t) (codes "-- ") ≡ false)
unfolding join
listed_not_a_reason gap id [] t h = not_a_reason id t 32 h refl
listed_not_a_reason gap id (next ∷ ids) t h =
    rw (append_assoc id (44 ∷ listed gap gap next ids) (32 ∷ t))
      (not_a_reason id (listed gap gap next ids ++ 32 ∷ t) 44 h refl)

pub collect_ids-map :
    (gap : ℕ) (ids : List Text) → All IsId ids → collect_ids (map (pad gap) ids) ≡ (ids, false)
unfolding collect_ids
collect_ids-map gap [] h = refl
collect_ids-map gap (id ∷ ids) h =
    rw (trim_space-pad gap id h.0, collect_ids)
      (ground (arith, h.0.full, h.0.not_all, text_eq_iff id [], collect_ids-map gap ids h.1))

pub collect_ids-parts :
    (gap : ℕ) (id : Text) (ids : List Text)
    → All IsId (id ∷ ids)
    → collect_ids (id ∷ map (pad gap) ids) ≡ (id ∷ ids, false)
unfolding collect_ids
collect_ids-parts gap id ids h =
    rw (trim_space-pad 0 id h.0, collect_ids)
      (ground (arith, h.0.full, h.0.not_all, text_eq_iff id [], collect_ids-map gap ids h.1))
