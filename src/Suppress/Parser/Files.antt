-- ===== src/Suppress/Parser/Files.antt =====
-- The directives of a whole file.
use mathlib.Core.List.{Perm, append_assoc, append-nil}
use pawnlint.Base.{
  ◌≡◌, refl, sym, ap, ◌∙◌, true, false, ◌||◌, not, ◌⊎◌, inl, inr, ℤ, ltb_ℤ, pos, ◌≤ℤ◌, ◌<ℤ◌, Option,
  Option-cases, none, some, List, [], ◌∷◌, ◌++◌, Text, length, All, All-append, arith, Bool-cases,
  if◌then◌else◌,
}
use pawnlint.Base.Sort.{
  IsWeakOrder, by_key-IsWeakOrder, then_by-IsWeakOrder, All-sort, sort-perm, int_key, Ordered,
  sort-Ordered, by_key, then_by_less, then_by_same,
}
use pawnlint.Suppress.{Directive, directive_less, sort_directives}
use pawnlint.Suppress.Parser.{
  Trivia, Match, kind_of, Token, File, Visit, build_directive, build_all, parse_trivia,
  parse_trivias, from_compact, was_seen, visit_trivia, visit, visit_all, from_file,
}

-- The comments of a list of trivia, each start offset once.
abbrev pub first_comments : List ℤ → List Trivia → List Trivia
first_comments seen [] = []
first_comments seen (tr ∷ trs) =
    let again = first_comments seen trs in
    let first = tr ∷ first_comments (tr.start_offset ∷ seen) trs in
    if not tr.is_comment || was_seen tr.start_offset seen then again else first

abbrev pub trivia_of : List Token → List Trivia
trivia_of [] = []
trivia_of (tok ∷ toks) = tok.leading ++ (tok.trailing ++ trivia_of toks)

abbrev pub root_trivia : Option Token → List Trivia
root_trivia none = []
root_trivia (some tok) = tok.leading ++ tok.trailing

visit_trivia-append :
    (path src : Text) (xs ys : List Trivia) (v : Visit)
    → visit_trivia path src (xs ++ ys) v ≡ visit_trivia path src ys (visit_trivia path src xs v)
unfolding visit_trivia
visit_trivia-append path src [] ys v = refl
visit_trivia-append path src (x ∷ xs) ys v = visit_trivia-append path src xs ys _

visit_all-visit_trivia :
    (path src : Text) (toks : List Token) (v : Visit)
    → visit_all path src toks v ≡ visit_trivia path src (trivia_of toks) v
unfolding visit_all visit
visit_all-visit_trivia path src [] v = unfold visit_trivia in refl
visit_all-visit_trivia path src (tok ∷ toks) v =
    visit_all-visit_trivia path src toks (visit path src tok v)
    ∙ sym (
        visit_trivia-append path src tok.leading (tok.trailing ++ trivia_of toks) v
        ∙ visit_trivia-append path src tok.trailing (trivia_of toks)
            (visit_trivia path src tok.leading v))

parse_trivias-comment :
    (path src : Text) (tr : Trivia) (trs : List Trivia)
    → tr.is_comment ≡ true
    → parse_trivias path src (tr ∷ trs) ≡ parse_trivia path src tr ++ parse_trivias path src trs
unfolding parse_trivias
parse_trivias-comment path src tr trs h = ground (arith, h)

parse_trivias-other :
    (path src : Text) (tr : Trivia) (trs : List Trivia)
    → tr.is_comment ≡ false
    → parse_trivias path src (tr ∷ trs) ≡ parse_trivias path src trs
unfolding parse_trivias
parse_trivias-other path src tr trs h = ground (arith, h)

visit_trivia-out :
    (path src : Text) (trs : List Trivia) (v : Visit)
    → (visit_trivia path src trs v).out
      ≡ v.out ++ parse_trivias path src (first_comments v.seen trs)
unfolding visit_trivia parse_trivias
visit_trivia-out path src [] v = sym (append-nil v.out)
visit_trivia-out path src (tr ∷ trs) v =
    elim (Bool-cases (not tr.is_comment || was_seen tr.start_offset v.seen)) [
      | inl skipped ↦ rw (skipped, visit_trivia) (visit_trivia-out path src trs v)
      | inr new ↦
          let comment : tr.is_comment ≡ true = ground arith in
          let after : Visit = record {
            seen = tr.start_offset ∷ v.seen;
            out = v.out ++ parse_trivia path src tr;
          } in
          rw (new, visit_trivia, parse_trivias)
            (visit_trivia-out path src trs after
              ∙ append_assoc v.out (parse_trivia path src tr) _
              ∙ ap (λ l. v.out ++ l)
                  (sym (
                    parse_trivias-comment path src tr
                      (first_comments (tr.start_offset ∷ v.seen) trs) comment)))
    ]

no_visit : Visit
no_visit = record { seen = []; out = [] }

-- The directives of a file are those of its comments, each taken once, whether they come from
-- the trivia of tokens or of the root.
pub from_file-from_compact :
    (path src : Text) (f : File)
    → from_file path src f
      ≡ from_compact path src (first_comments [] (trivia_of f.tokens ++ root_trivia f.root))
unfolding from_file from_compact no_visit
from_file-from_compact path src f = elim (Option-cases f.root) [
  | inl rootless ↦
      rw (rootless, from_file, append-nil)
        (ap sort_directives (
          ap (λ (v : Visit). v.out) (visit_all-visit_trivia path src f.tokens no_visit)
          ∙ visit_trivia-out path src (trivia_of f.tokens) no_visit))
  | inr (root, rooted) ↦
      rw (rooted, from_file)
        (ap sort_directives (
          ap (λ (v : Visit). (visit path src root v).out)
            (visit_all-visit_trivia path src f.tokens no_visit)
          ∙ ap (λ (v : Visit). v.out)
              (sym (
                visit_trivia-append path src (trivia_of f.tokens) (root.leading ++ root.trailing)
                  no_visit
                ∙ visit_trivia-append path src root.leading root.trailing _))
          ∙ visit_trivia-out path src (trivia_of f.tokens ++ (root.leading ++ root.trailing))
              no_visit))
]

-- A directive of a file: it begins in the source, and does not end behind it.
abbrev pub InSource : Text → Directive → Type 0
InSource src d = (pos 0 ≤ℤ d.offset) × (d.offset <ℤ pos (length src)) × (d.end ≤ℤ pos (length src))

module _ (path src : Text) where
  All-build_all :
      (line start_off end_off : ℤ) (ms : List Match)
      → pos 0 ≤ℤ start_off
      → start_off <ℤ pos (length src)
      → end_off ≤ℤ pos (length src)
      → All (InSource src) (build_all path line start_off end_off ms)
  unfolding build_all build_directive
  All-build_all line s e [] a b c = tt
  All-build_all line s e (m ∷ ms) a b c = elim (Option-cases (kind_of m.action)) [
    | inl unknown ↦ rw (unknown, build_all) (All-build_all line s e ms a b c)
    | inr (kind, known) ↦ rw (known, build_all) ((a, b, c), All-build_all line s e ms a b c)
  ]

  All-parse_trivia : (tr : Trivia) → All (InSource src) (parse_trivia path src tr)
  unfolding parse_trivia
  All-parse_trivia tr = elim (Bool-cases tr.is_comment) [
    | inr other ↦ rw (other, parse_trivia) tt
    | inl comment ↦
        elim (Bool-cases
          (ltb_ℤ tr.start_offset (pos 0) || not (ltb_ℤ tr.start_offset (pos (length src))))) [
            | inl outside ↦ rw (comment, outside, parse_trivia) tt
            | inr inside ↦
                rw (comment, inside, parse_trivia)
                  (All-build_all tr.start_line tr.start_offset _ _ (ground arith) (ground arith)
                    (ground arith))
          ]
  ]

  All-parse_trivias : (trs : List Trivia) → All (InSource src) (parse_trivias path src trs)
  All-parse_trivias [] = unfold parse_trivias in tt
  All-parse_trivias (tr ∷ trs) = elim (Bool-cases tr.is_comment) [
    | inr other ↦ rw (parse_trivias-other path src tr trs other) (All-parse_trivias trs)
    | inl comment ↦ rw (parse_trivias-comment path src tr trs comment) (
        All-append (InSource src) (parse_trivia path src tr) (parse_trivias path src trs)
          (All-parse_trivia tr) (All-parse_trivias trs))
  ]

directive_less-IsWeakOrder : IsWeakOrder directive_less
unfolding directive_less
directive_less-IsWeakOrder =
    then_by-IsWeakOrder (λ (d : Directive). d.line)
      (by_key-IsWeakOrder (λ (d : Directive). d.offset))

-- By line, then by start offset: `a` stands in front of `b`.
abbrev pub Before : Directive → Directive → Type 0
Before a b = (a.line <ℤ b.line) ⊎ ((a.line ≡ b.line) × (a.offset <ℤ b.offset))

directive_less-Before : (a b : Directive) → Before a b → directive_less a b ≡ true
unfolding directive_less
directive_less-Before a b h =
    let offset = by_key (λ (d : Directive). d.offset) in
    elim h [
      | inl line ↦ then_by_less (λ (d : Directive). d.line) offset a b (ground (arith, line))
      | inr (same, start) ↦
          then_by_same (λ (d : Directive). d.line) offset a b same (ground (arith, start))
    ]

-- The directives of the pieces of trivia, one piece after the other.
abbrev pub directives_of : Text → Text → List Trivia → List Directive
directives_of path src [] = []
directives_of path src (tr ∷ trs) = parse_trivia path src tr ++ directives_of path src trs

parse_trivias-directives_of :
    (path src : Text) (trs : List Trivia) → parse_trivias path src trs ≡ directives_of path src trs
parse_trivias-directives_of path src [] = unfold parse_trivias in refl
parse_trivias-directives_of path src (tr ∷ trs) = elim (Bool-cases tr.is_comment) [
  | inl comment ↦
      parse_trivias-comment path src tr trs comment
      ∙ ap (λ l. parse_trivia path src tr ++ l) (parse_trivias-directives_of path src trs)
  | inr other ↦
      let nothing : parse_trivia path src tr ≡ [] = unfold parse_trivia in rw other in
      parse_trivias-other path src tr trs other
      ∙ (parse_trivias-directives_of path src trs ∙ rw nothing)
]

-- The directives of a file are those that its pieces of trivia hold, none lost and none added; none
-- stands behind one of a later line, or of a later offset on the same line, which is the order
-- that `blockSuppresses` relies on; and each begins in the source, and does not end behind it.
pub from_compact_lem :
    (path src : Text) (trivia : List Trivia)
    → Perm (from_compact path src trivia) (directives_of path src trivia)
      × Ordered Before (from_compact path src trivia)
      × All (InSource src) (from_compact path src trivia)
unfolding from_compact sort_directives
from_compact_lem path src trivia =
    let parsed = parse_trivias path src trivia in
    (
      rw (sym (parse_trivias-directives_of path src trivia)) (sort-perm directive_less parsed),
      sort-Ordered Before directive_less parsed directive_less-IsWeakOrder directive_less-Before,
      All-sort directive_less (InSource src) parsed (All-parse_trivias path src trivia),
    )
