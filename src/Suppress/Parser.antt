-- ===== src/Suppress/Parser.antt =====
-- pkg/lint/suppress/parser.go: directives in the text of comments. `Trivia` is what the code reads
-- of the parser's tokens and trivia; a file is the trivia before and behind each of its tokens,
-- and those of its root.
pub mod Ids
pub mod Written
pub mod RoundTrip
pub mod Files
use pawnlint.Base.{
  ℕ, ◌+◌, ◌-◌, Bool, true, false, ◌&&◌, ◌||◌, not, ℤ, pos, pos_part, ltb_ℤ, eqb_ℤ, Option, none,
  some, List, [], ◌∷◌, ◌++◌, Text, codes, text_eq, length, take, drop, if◌then◌else◌,
}
use pawnlint.Strings.{trim_space, has_prefix, trim_prefix, trim_suffix, index, split}
use pawnlint.Suppress.{Kind, disable_next_line, disable, enable, Directive, sort_directives}

pub record Trivia : Type 0 where
  pub is_comment : Bool
  pub start_offset : ℤ
  pub start_line : ℤ
  pub end_offset : ℤ

abbrev pub marker : Text
marker = codes "pawnlint-"

pub record Match : Type 0 where
  pub action : Text
  pub ids_part : Text

unfoldable pub strip_comment_syntax : Text → Text
unfolding trim_space trim_prefix trim_suffix
strip_comment_syntax line =
    let s = trim_space line in
    let s = trim_prefix s (codes "//") in
    let s = trim_prefix s (codes "/*") in let s = trim_suffix s (codes "*/") in trim_space s

-- The action and the rest of what follows the marker, split at the first space.
unfoldable pub split_action : Text → Match
unfolding index trim_space
split_action rest = elim (index rest (codes " ")) [
  | none ↦ record { action = trim_space rest; ids_part = [] }
  | some i ↦ record { action = trim_space (take i rest); ids_part = drop (i + 1) rest }
]

-- One round of the loop of `extractFromComment`.
unfoldable pub extract_line : Text → List Match
unfolding strip_comment_syntax split_action has_prefix
extract_line line =
    let body = strip_comment_syntax line in
    elim (index body marker) [
      | none ↦ []
      | some idx ↦
          let m = split_action (drop (idx + length marker) body) in
          if not (has_prefix m.action (codes "disable"))
            && not (has_prefix m.action (codes "enable"))
          then []
          else m ∷ []
    ]

unfoldable pub extract_lines : List Text → List Match
unfolding extract_line
extract_lines [] = []
extract_lines (line ∷ lines) = extract_line line ++ extract_lines lines

unfoldable pub extract_from_comment : Text → List Match
unfolding split extract_lines
extract_from_comment comment = extract_lines (split 10 comment)

-- The results of `parseIDs`.
pub record ParsedIds : Type 0 where
  pub ids : List Text
  pub all : Bool
  pub reason : Text
  pub malformed : Bool

-- The body without its reason, and the reason.
unfoldable pub split_reason : Text → Text × Text
unfolding has_prefix index trim_space
split_reason body =
    if text_eq body (codes "--")
    then ([], [])
    else if has_prefix body (codes "-- ")
    then ([], trim_space (drop 3 body))
    else elim (index body (codes " -- ")) [
      | none ↦ (body, [])
      | some i ↦ (trim_space (take i body), trim_space (drop (i + 4) body))
    ]

-- The loop of `parseIDs`: the ids, and whether "all" is among the parts.
unfoldable pub collect_ids : List Text → List Text × Bool
unfolding trim_space
collect_ids [] = ([], false)
collect_ids (part ∷ parts) =
    let id = trim_space part in
    let (ids, all) = collect_ids parts in
    if text_eq id []
    then (ids, all)
    else if text_eq id (codes "all")
    then (ids, true)
    else (id ∷ ids, all)

unfoldable pub is_none : List Text → Bool
is_none [] = true
is_none (id ∷ ids) = false

abbrev pub malformed_ids : Text → ParsedIds
malformed_ids reason = record { ids = []; all = false; reason = reason; malformed = true }

-- `parseIDs` behind the reason.
unfoldable pub parse_body : Text → Text → ParsedIds
unfolding split collect_ids is_none
parse_body body reason =
    if text_eq body []
    then malformed_ids reason
    else let (ids, all) = collect_ids (split 44 body) in
      if not all && is_none ids
      then malformed_ids reason
      else record { ids = ids; all = all; reason = reason; malformed = false }

unfoldable pub parse_ids : Text → ParsedIds
parse_ids rest =
    let body = trim_space rest in
    if text_eq body []
    then malformed_ids []
    else let (body', reason) = split_reason body in parse_body body' reason

unfoldable pub kind_of : Text → Option Kind
kind_of action =
    if text_eq action (codes "disable-next-line")
    then some disable_next_line
    else if text_eq action (codes "disable")
    then some disable
    else if text_eq action (codes "enable")
    then some enable
    else none

-- `buildDirective`; `none` where the action is no directive.
unfoldable pub build_directive : Text → ℤ → ℤ → ℤ → Match → Option Directive
unfolding kind_of parse_ids
build_directive path line start_off end_off m = elim (kind_of m.action) [
  | none ↦ none
  | some kind ↦
      let p = parse_ids m.ids_part in
      some (record {
        file = path;
        line = line;
        offset = start_off;
        end = end_off;
        kind = kind;
        ids = p.ids;
        all = p.all;
        reason = p.reason;
        malformed = p.malformed;
      })
]

unfoldable pub build_all : Text → ℤ → ℤ → ℤ → List Match → List Directive
unfolding build_directive
build_all path line start_off end_off [] = []
build_all path line start_off end_off (m ∷ ms) =
    let rest = build_all path line start_off end_off ms in
    elim (build_directive path line start_off end_off m) [ none ↦ rest | some d ↦ d ∷ rest ]

-- `parseTrivia`. A comment does not end before it starts, so the slice is within bounds.
unfoldable pub parse_trivia : Text → Text → Trivia → List Directive
unfolding extract_from_comment build_all
parse_trivia path src tr =
    if not tr.is_comment
    then []
    else let offs = tr.start_offset in
      if ltb_ℤ offs (pos 0) || not (ltb_ℤ offs (pos (length src)))
      then []
      else let end =
          if ltb_ℤ (pos (length src)) tr.end_offset then pos (length src) else tr.end_offset in
        let raw = drop (pos_part offs) (take (pos_part end) src) in
        build_all path tr.start_line offs end (extract_from_comment raw)

unfoldable pub parse_trivias : Text → Text → List Trivia → List Directive
parse_trivias path src [] = []
parse_trivias path src (tr ∷ trs) =
    if tr.is_comment
    then parse_trivia path src tr ++ parse_trivias path src trs
    else parse_trivias path src trs

-- `FromCompact` of a file that is not nil.
unfoldable pub from_compact : Text → Text → List Trivia → List Directive
from_compact path src trivia = sort_directives (parse_trivias path src trivia)

pub record Token : Type 0 where
  pub leading : List Trivia
  pub trailing : List Trivia

pub record File : Type 0 where
  pub tokens : List Token
  pub root : Option Token

-- The map `seen`, by its keys, and `out`.
pub record Visit : Type 0 where
  pub seen : List ℤ
  pub out : List Directive

unfoldable pub was_seen : ℤ → List ℤ → Bool
was_seen offset [] = false
was_seen offset (o ∷ os) = eqb_ℤ o offset || was_seen offset os

-- The body of each of the four loops of `FromFile`, over a list of trivia.
unfoldable pub visit_trivia : Text → Text → List Trivia → Visit → Visit
unfolding was_seen
visit_trivia path src [] v = v
visit_trivia path src (tr ∷ trs) v = visit_trivia path src trs (
    if not tr.is_comment || was_seen tr.start_offset v.seen
    then v
    else record { seen = tr.start_offset ∷ v.seen; out = v.out ++ parse_trivia path src tr })

-- `visit`, and the two loops over the root.
unfoldable pub visit : Text → Text → Token → Visit → Visit
unfolding visit_trivia
visit path src tok v = visit_trivia path src tok.trailing (visit_trivia path src tok.leading v)

unfoldable pub visit_all : Text → Text → List Token → Visit → Visit
unfolding visit
visit_all path src [] v = v
visit_all path src (tok ∷ toks) v = visit_all path src toks (visit path src tok v)

-- `FromFile` of a file that is not nil.
unfoldable pub from_file : Text → Text → File → List Directive
unfolding visit_all
from_file path src f =
    let v = visit_all path src f.tokens (record { seen = []; out = [] }) in
    elim f.root [
      | none ↦ sort_directives v.out
      | some root ↦ sort_directives (visit path src root v).out
    ]
