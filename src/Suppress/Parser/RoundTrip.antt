-- ===== src/Suppress/Parser/RoundTrip.antt =====
-- `parseIDs` reads back the ids and the reason of a directive that is written the usual way.
use mathlib.Core.List.{append-nil}
use pawnlint.Base.{
  ℕ, ◌+◌, ◌≡◌, ◌≢◌, refl, sym, ap, ◌∙◌, false, List, [], ◌∷◌, ◌++◌, Text, codes, text_eq, length,
  take, drop, take-append, take_all, drop-append, drop-drop, drop_all, All, arith, map,
}
use pawnlint.Strings.{trim_left, trim_space, has_prefix}
use pawnlint.Strings.Laws.{
  IsTrimmed, trim_space_of_IsTrimmed, append-ne-nil, trim_right-append, index-Clear, split-join,
}
use pawnlint.Suppress.Parser.{split_reason, parse_body, parse_ids}
use pawnlint.Suppress.Parser.Written.{
  IsId, listed, written, pad, parts-Free, listed-ne-nil, trim_right-listed, listed-IsAscii,
  trim_left-listed, Clear-listed, listed_not_a_reason, collect_ids-parts,
}

take-length : (s t : Text) → take (length s) (s ++ t) ≡ s
take-length s t = take-append (length s) s t (omega arith) ∙ take_all (length s) s (omega arith)

drop-length : (s : Text) (n : ℕ) (t : Text) → drop (length s + n) (s ++ t) ≡ drop n t
drop-length s n t =
    sym (drop-drop n (length s) (s ++ t))
    ∙ ap (drop n)
        (drop-append (length s) s t (omega arith) ∙ rw (drop_all (length s) s (omega arith)))

not_empty : (s : Text) → s ≢ [] → text_eq s [] ≡ false
unfolding text_eq
not_empty [] h = absurd (h refl)
not_empty (c ∷ s) h = refl

module _ (gap : ℕ) (id : Text) (ids : List Text) (h : All IsId (id ∷ ids)) (reason : Text)
    (trimmed : IsTrimmed reason) (full : reason ≢ []) where
  abbrev s : Text
  s = listed 0 gap id ids

  abbrev body : Text
  body = written gap id ids reason

  trim_space-s : trim_space s ≡ s
  trim_space-s =
      let front : trim_left s ≡ s = rw (append-nil) at (trim_left-listed gap id ids [] h.0) in
      trim_space_of_IsTrimmed s (front, trim_right-listed 0 gap id ids h)

  trim_space-body : trim_space body ≡ body
  trim_space-body =
      let dashes =
        trim_right-append (codes " -- ") reason (refl, (refl, (refl, (refl, tt)))) full trimmed.1 in
      trim_space_of_IsTrimmed body (
        trim_left-listed gap id ids (codes " -- " ++ reason) h.0,
        trim_right-append s (codes " -- " ++ reason) (listed-IsAscii 0 gap id ids h) (λ e. cc)
            dashes,
      )

  split_body : split_reason body ≡ (s, reason)
  unfolding split_reason
  split_body =
      let (not_equal, not_prefix) = listed_not_a_reason gap id ids (codes "-- " ++ reason) h.0 in
      let at =
        index-Clear (codes " -- ") s (codes " -- " ++ reason)
          (Clear-listed 0 gap id ids (codes "-- " ++ reason) h) (unfold has_prefix in refl) in
      rw (not_equal, not_prefix, at, split_reason)
        (rw (
          take-length s (codes " -- " ++ reason),
          drop-length s 4 (codes " -- " ++ reason),
          trim_space-s,
          trim_space_of_IsTrimmed reason trimmed,
        ))

  parsed :
      parse_body s reason
      ≡ record { ids = id ∷ ids; all = false; reason = reason; malformed = false }
  unfolding parse_body
  parsed =
      let nonempty = not_empty s (listed-ne-nil 0 gap id ids h.0) in
      rw (
        nonempty,
        split-join 44 id (map (pad gap) ids) (h.0.no_comma, parts-Free gap ids h.1),
        collect_ids-parts gap id ids h,
        parse_body,
      )

  -- What is written as ids, a comma and any number of spaces between them, then ` -- ` and a
  -- reason, is read back, if each id is of ASCII, not empty, neither `all` nor `--` and without
  -- spaces and commas, and the reason is not empty and has no space at its ends.
  pub parse_ids-written :
      parse_ids body ≡ record { ids = id ∷ ids; all = false; reason = reason; malformed = false }
  unfolding parse_ids
  parse_ids-written =
      let nonempty = not_empty body (append-ne-nil s (codes " -- " ++ reason) (λ e. cc)) in
      rw (trim_space-body, nonempty, split_body, parse_ids) parsed
