-- ===== src/Suppress/Examples.antt =====
-- Directives of a small file.

use mathlib.Core.List.{Perm}
use pawnlint.Base.{
  ℕ, ◌≡◌, refl, true, false, ◌&&◌, not, ◌⊎◌, pos, none, some, List, [], ◌∷◌, ◌++◌, Text, codes,
  text_eq, ltb, All, arith,
}
use pawnlint.Base.Sort.{Ordered}
use pawnlint.Strings.{
  is_space, is_space_rune, space_at, trim_from, trim_left, trim_right, trim_space, join,
}
use pawnlint.Strings.Laws.{IsTrimmed}
use pawnlint.Suppress.{Directive, disable, enable}
use pawnlint.Suppress.Matcher.{Used, is_suppressed}
use pawnlint.Suppress.Matcher.Depth.{covered, is_suppressed_iff}
use pawnlint.Suppress.Matcher.Used.{flag, Applies}
use pawnlint.Suppress.Matcher.Recorded.{used_sound, used_complete}
use pawnlint.Suppress.Parser.{
  Trivia, File, is_none, split_reason, parse_body, parse_ids, parse_trivia, from_compact, from_file,
}
use pawnlint.Suppress.Parser.Ids.{IsKept, parse_ids_sound}
use pawnlint.Suppress.Parser.Written.{IsId, written}
use pawnlint.Suppress.Parser.RoundTrip.{parse_ids-written}
use pawnlint.Suppress.Parser.Files.{
  Before, directives_of, InSource, first_comments, trivia_of, root_trivia, from_file-from_compact,
  from_compact_lem,
}

abbrev rule : Text
rule = codes "dead-write"

abbrev source : Text
source = codes "// pawnlint-disable dead-write -- generated"

abbrev comment : Trivia
comment = record {
  is_comment = true;
  start_offset = pos 0;
  start_line = pos 1;
  end_offset = pos 43;
}

abbrev block : Directive
block = record {
  file = codes "a.pwn";
  line = pos 1;
  offset = pos 0;
  end = pos 43;
  kind = disable;
  ids = rule ∷ [];
  all = false;
  reason = codes "generated";
  malformed = false;
}

parse_trivia_sample : parse_trivia (codes "a.pwn") source comment ≡ block ∷ []
unfolding parse_trivia parse_ids split_reason parse_body text_eq
parse_trivia_sample = refl

abbrev until_three : List Directive
until_three = block ∷ record block { line = pos 3; kind = enable } ∷ []

suppressed_at_two :
    is_suppressed until_three (some (false ∷ false ∷ [])) rule (pos 2)
    ≡ (some (true ∷ false ∷ []), true)
unfolding is_suppressed text_eq
suppressed_at_two = refl

not_suppressed_at_three : is_suppressed until_three none rule (pos 3) ≡ (none, false)
unfolding is_suppressed text_eq
not_suppressed_at_three = refl

is_suppressed_iff_example :
    (is_suppressed until_three none rule (pos 2)).1 ≡ covered until_three rule (pos 2)
is_suppressed_iff_example = is_suppressed_iff until_three none rule (pos 2)

marked : flag (is_suppressed until_three (some (false ∷ false ∷ [])) rule (pos 2)).0 0 ≡ true
unfolding is_suppressed text_eq
marked = refl

used_sound_example : (flag (some (false ∷ false ∷ [])) 0 ≡ true) ⊎ Applies until_three rule 0
used_sound_example = used_sound until_three (some (false ∷ false ∷ [])) rule (pos 2) 0 marked

abbrev unused : Used
unused = some (false ∷ false ∷ [])

used_complete_example :
    (((is_suppressed until_three unused rule (pos 2)).1 ≡ true)
      × (i : ℕ) × Applies until_three rule i
      × (flag (is_suppressed until_three unused rule (pos 2)).0 i ≡ true))
    ⊎ (((is_suppressed until_three unused rule (pos 2)).1 ≡ false)
        × ((is_suppressed until_three unused rule (pos 2)).0 ≡ unused))
used_complete_example = used_complete until_three unused rule (pos 2) (omega arith)

parse_ids_sound_example :
    ((parse_ids (codes "all, x")).malformed
      ≡ (not (parse_ids (codes "all, x")).all && is_none (parse_ids (codes "all, x")).ids))
    × All IsKept (parse_ids (codes "all, x")).ids
parse_ids_sound_example = parse_ids_sound (codes "all, x")

abbrev ids : List Text
ids = codes "a" ∷ codes "b" ∷ []

ids-IsId : All IsId ids
unfolding is_space text_eq
ids-IsId =
    let id : (c : ℕ) → ltb c 97 ≡ false → ltb c 99 ≡ true → IsId (c ∷ []) = λ c low high. record {
      full = λ e. cc;
      not_all = ground arith;
      not_dashes = ground arith;
      ascii = (ground arith, tt);
      no_space = (ground arith, tt);
      no_comma = (ground arith, tt);
    } in
    (id 97 refl refl, (id 98 refl refl, tt))

trimmed : IsTrimmed (codes "why")
unfolding trim_left trim_from space_at trim_right is_space_rune is_space
trimmed = (refl, refl)

-- "a, b -- why"
parse_ids-written_example :
    parse_ids (written 1 (codes "a") (codes "b" ∷ []) (codes "why"))
    ≡ record { ids = ids; all = false; reason = codes "why"; malformed = false }
parse_ids-written_example =
    parse_ids-written 1 (codes "a") (codes "b" ∷ []) ids-IsId (codes "why") trimmed (λ e. cc)

written_with_space : written 1 (codes "a") (codes "b" ∷ []) (codes "why") ≡ codes "a, b -- why"
unfolding join
written_with_space = refl

-- U+00A0 and U+3000 are trimmed like spaces, and a byte of U+00E0 that looks like one is not.
unicode_trimmed : trim_space (194 ∷ 160 ∷ 32 ∷ 195 ∷ 160 ∷ 227 ∷ 128 ∷ 128 ∷ []) ≡ 195 ∷ 160 ∷ []
unfolding trim_space trim_left trim_from space_at trim_right is_space_rune is_space
unicode_trimmed = refl

abbrev file : File
file = record {
  tokens = record { leading = comment ∷ []; trailing = [] } ∷ [];
  root = some (record { leading = comment ∷ []; trailing = [] });
}

from_file-from_compact_example :
    from_file (codes "a.pwn") source file
    ≡ from_compact
        (codes "a.pwn")
        source
        (first_comments [] (trivia_of file.tokens ++ root_trivia file.root))
from_file-from_compact_example = from_file-from_compact (codes "a.pwn") source file

from_compact_lem_example :
    Perm
      (from_compact (codes "a.pwn") source (comment ∷ []))
      (directives_of (codes "a.pwn") source (comment ∷ []))
    × Ordered Before (from_compact (codes "a.pwn") source (comment ∷ []))
    × All (InSource source) (from_compact (codes "a.pwn") source (comment ∷ []))
from_compact_lem_example = from_compact_lem (codes "a.pwn") source (comment ∷ [])
