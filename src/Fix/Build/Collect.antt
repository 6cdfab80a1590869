-- ===== src/Fix/Build/Collect.antt =====
-- What the first loop of `Build` collects.
use mathlib.Core.List.{append_assoc, append-nil}
use pawnlint.Base.{
  ◌≡◌, refl, sym, ◌∙◌, ◌⊎◌, false, Option, none, some, Option-cases, List, [], ◌∷◌, ◌++◌, map, Text,
  text_eq, text_eq_iff, arith, All, Bool-cases, inl, inr, if◌then◌else◌,
}
use pawnlint.Diagnostic.{Diagnostic, Edit, Fix}
use pawnlint.Fix.{PlannedEdit, ok}
use pawnlint.Fix.Build.{Sources, ByPath, planned, edits_of, add_edit, add_edits, collect, keys}

-- The edits of all fixes for one file, in the order of the diagnostics.
abbrev pub fix_edits : Option Fix → List PlannedEdit
fix_edits none = []
fix_edits (some f) = map planned f.edits

abbrev pub edits_for : Text → List Diagnostic → List PlannedEdit
edits_for path [] = []
edits_for path (d ∷ ds) =
    if text_eq d.filename path then fix_edits d.fix ++ edits_for path ds else edits_for path ds

edits_of-add_edit :
    (path p : Text) (e : PlannedEdit) (m : ByPath)
    → edits_of path (add_edit p e m)
      ≡ (if text_eq p path then edits_of path m ++ e ∷ [] else edits_of path m)
unfolding edits_of add_edit
edits_of-add_edit path p e [] = refl
edits_of-add_edit path p e ((q, es) ∷ m) =
    ground
      (arith, text_eq_iff q p, text_eq_iff q path, text_eq_iff p path, edits_of-add_edit path p e m)

edits_of-add_edits :
    (path p : Text) (es : List Edit) (m : ByPath)
    → edits_of path (add_edits p es m)
      ≡ (if text_eq p path then edits_of path m ++ map planned es else edits_of path m)
unfolding add_edits
edits_of-add_edits path p [] m = ground (arith, append-nil (edits_of path m))
edits_of-add_edits path p (e ∷ es) m =
    edits_of-add_edits path p es (add_edit p (planned e) m)
    ∙ ground (
      arith,
      edits_of-add_edit path p (planned e) m,
      append_assoc (edits_of path m) (planned e ∷ []) (map planned es),
    )

-- A file whose edits are collected has a source.
abbrev pub HasSource : Sources → Text → Type 0
HasSource sources p = (s : Text) × (sources p ≡ some s)

-- The keys of the map differ from one another.
abbrev pub Distinct : List Text → Type 0
Distinct [] = Unit
Distinct (p ∷ ps) = All (λ q. text_eq p q ≡ false) ps × Distinct ps

module _ {ℓ} (P : Text → Type ℓ) (p : Text) (mine : P p) where
  All-add_edit : (e : PlannedEdit) (m : ByPath) → All P (keys m) → All P (keys (add_edit p e m))
  unfolding add_edit
  All-add_edit e [] h = (mine, tt)
  All-add_edit e ((q, es) ∷ m) h = elim (Bool-cases (text_eq q p)) [
    | inl same ↦ rw same h
    | inr other ↦ rw other (h.0, All-add_edit e m h.1)
  ]

  All-add_edits : (es : List Edit) (m : ByPath) → All P (keys m) → All P (keys (add_edits p es m))
  unfolding add_edits
  All-add_edits [] m h = h
  All-add_edits (e ∷ es) m h =
      All-add_edits es (add_edit p (planned e) m) (All-add_edit (planned e) m h)

Distinct-add_edit :
    (p : Text) (e : PlannedEdit) (m : ByPath) → Distinct (keys m) → Distinct (keys (add_edit p e m))
unfolding add_edit
Distinct-add_edit p e [] h = (tt, tt)
Distinct-add_edit p e ((q, es) ∷ m) h = elim (Bool-cases (text_eq q p)) [
  | inl same ↦ rw same h
  | inr other ↦
      rw other
        (All-add_edit (λ r. text_eq q r ≡ false) p other e m h.0, Distinct-add_edit p e m h.1)
]

Distinct-add_edits :
    (p : Text) (es : List Edit) (m : ByPath)
    → Distinct (keys m)
    → Distinct (keys (add_edits p es m))
unfolding add_edits
Distinct-add_edits p [] m h = h
Distinct-add_edits p (e ∷ es) m h =
    Distinct-add_edits p es (add_edit p (planned e) m) (Distinct-add_edit p (planned e) m h)

-- One diagnostic of the loop: the entry's edits go on in each of its two branches.
collect-cons :
    (sources : Sources) (d : Diagnostic) (ds : List Diagnostic) (m m' : ByPath)
    → collect sources (d ∷ ds) m ≡ ok m'
    → ((d.fix ≡ none) × (collect sources ds m ≡ ok m'))
      ⊎ ((f : Fix) × (d.fix ≡ some f)
          × HasSource sources d.filename
          × (collect sources ds (add_edits d.filename f.edits m) ≡ ok m'))
unfolding collect
collect-cons sources d ds m m' h = elim (Option-cases d.fix) [
  | inl none_here ↦ inl (none_here, rw (none_here, collect) at h)
  | inr (f, fix_here) ↦ elim (Option-cases (sources d.filename)) [
    | inl missing ↦ absurd (ground (arith, fix_here, missing))
    | inr (s, found) ↦ inr (f, fix_here, (s, found), rw (fix_here, found, collect) at h)
  ]
]

-- The map that the loop ends with: its edits, and two facts about its keys.
pub record Collected (sources : Sources) (ds : List Diagnostic) (m m' : ByPath) : Type 0 where
  pub edits : (path : Text) → edits_of path m' ≡ edits_of path m ++ edits_for path ds
  pub sourced : All (HasSource sources) (keys m')
  pub distinct : Distinct (keys m')

pub collect_lem :
    (sources : Sources) (ds : List Diagnostic) (m m' : ByPath)
    → collect sources ds m ≡ ok m'
    → All (HasSource sources) (keys m)
    → Distinct (keys m)
    → Collected sources ds m m'
unfolding collect
collect_lem sources [] m m' h a d =
    let e : m' ≡ m = cc in
    rw e (record { edits = λ path. sym (append-nil _); sourced = a; distinct = d })
collect_lem sources (d ∷ ds) m m' h a u = elim (collect-cons sources d ds m m' h) [
  | inl (no_fix, rest) ↦
      let c = collect_lem sources ds m m' rest a u in
      record {
        edits = λ path. rw no_fix (ground (arith, c.edits path));
        sourced = c.sourced;
        distinct = c.distinct;
      }
  | inr (f, fix, found, rest) ↦
      let name = d.filename in
      let c =
        collect_lem sources ds (add_edits name f.edits m) m' rest
          (All-add_edits (HasSource sources) name found f.edits m a)
          (Distinct-add_edits name f.edits m u) in
      record {
        edits = λ path. rw fix (
            c.edits path
            ∙ ground (
              arith,
              edits_of-add_edits path name f.edits m,
              append_assoc (edits_of path m) (map planned f.edits) (edits_for path ds),
            ));
        sourced = c.sourced;
        distinct = c.distinct;
      }
]
