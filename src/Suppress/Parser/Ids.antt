-- ===== src/Suppress/Parser/Ids.antt =====
-- `parseIDs`: when a directive is malformed, and that what it prints as is read back.
use pawnlint.Base.{
  ◌≡◌, refl, sym, false, ◌&&◌, not, inl, inr, List, [], ◌∷◌, Text, codes, text_eq, All, Bool-cases,
}
use pawnlint.Strings.{trim_space, split}
use pawnlint.Suppress.Parser.{ParsedIds, split_reason, collect_ids, is_none, parse_body, parse_ids}

-- An id as the loop of `parseIDs` keeps it.
abbrev pub IsKept : Text → Type 0
IsKept id = (text_eq id [] ≡ false) × (text_eq id (codes "all") ≡ false)

All-collect_ids : (parts : List Text) → All IsKept (collect_ids parts).0
unfolding collect_ids
All-collect_ids [] = tt
All-collect_ids (part ∷ parts) = elim (Bool-cases (text_eq (trim_space part) [])) [
  | inl empty ↦ rw (empty, collect_ids) (All-collect_ids parts)
  | inr full ↦ elim (Bool-cases (text_eq (trim_space part) (codes "all"))) [
    | inl all ↦ rw (full, all, collect_ids) (All-collect_ids parts)
    | inr other ↦ rw (full, other, collect_ids) ((full, other), All-collect_ids parts)
  ]
]

abbrev Sound : ParsedIds → Type 0
Sound p = (p.malformed ≡ (not p.all && is_none p.ids)) × All IsKept p.ids

parse_body-Sound : (body reason : Text) → Sound (parse_body body reason)
unfolding parse_body
parse_body-Sound body reason = elim (Bool-cases (text_eq body [])) [
  | inl empty ↦ rw (empty, parse_body) (refl, tt)
  | inr full ↦
      let (ids, all) = collect_ids (split 44 body) in
      elim (Bool-cases (not all && is_none ids)) [
        | inl bare ↦ rw (full, bare, parse_body) (refl, tt)
        | inr named ↦ rw (full, named, parse_body) (sym named, All-collect_ids (split 44 body))
      ]
]

-- A directive is malformed exactly if it names no rule and not `all`, whatever its text; and its
-- ids are never empty and never `all`.
pub parse_ids_sound :
    (rest : Text)
    → ((parse_ids rest).malformed ≡ (not (parse_ids rest).all && is_none (parse_ids rest).ids))
      × All IsKept (parse_ids rest).ids
unfolding parse_ids is_none
parse_ids_sound rest = elim (Bool-cases (text_eq (trim_space rest) [])) [
  | inl empty ↦ rw (empty, parse_ids) (refl, tt)
  | inr full ↦
      let (body, reason) = split_reason (trim_space rest) in
      rw (full, parse_ids) (parse_body-Sound body reason)
]
