-- ===== src/Fix/Build.antt =====
-- `Build` of internal/fix/fix.go: the edits of all fixes, file by file, as one plan. The map
-- `byPath` is a list of its entries in the order in which the keys were added; the loops that
-- leave that order to the runtime sort the keys first.
pub mod Collect
pub mod Sound
pub mod Paths
use pawnlint.Base.{
  ℕ, Bool, true, false, Option, none, some, List, [], ◌∷◌, ◌++◌, map, Text, text_eq, text_lt,
  length, if◌then◌else◌,
}
use pawnlint.Base.Sort.{sort}
use pawnlint.Diagnostic.{Diagnostic, Edit, Fix}
use pawnlint.Fix.{
  Change, Plan, PlannedEdit, FixError, unavailable, Result, ok, err, ◌>>=◌, validate_edits,
  apply_edits,
}

-- map[string][]byte
abbrev pub Sources : Type 0
Sources = Text → Option Text

-- map[string][]plannedEdit
abbrev pub ByPath : Type 0
ByPath = List (Text × List PlannedEdit)

unfoldable pub planned : Edit → PlannedEdit
planned e = record { start = e.range.start.offset; end = e.range.end.offset; text = e.new_text }

-- byPath[path], which is empty where the key is missing.
unfoldable pub edits_of : Text → ByPath → List PlannedEdit
edits_of path [] = []
edits_of path ((p, es) ∷ m) = if text_eq p path then es else edits_of path m

-- byPath[path] = append(byPath[path], e)
unfoldable pub add_edit : Text → PlannedEdit → ByPath → ByPath
add_edit path e [] = (path, e ∷ []) ∷ []
add_edit path e ((p, es) ∷ m) =
    if text_eq p path then (p, es ++ e ∷ []) ∷ m else (p, es) ∷ add_edit path e m

unfoldable pub add_edits : Text → List Edit → ByPath → ByPath
unfolding add_edit planned
add_edits path [] m = m
add_edits path (e ∷ es) m = add_edits path es (add_edit path (planned e) m)

-- The first loop of `Build`.
unfoldable pub collect : Sources → List Diagnostic → ByPath → Result ByPath
unfolding add_edits
collect sources [] m = ok m
collect sources (d ∷ ds) m = elim d.fix [
  | none ↦ collect sources ds m
  | some f ↦ elim (sources d.filename) [
    | none ↦ err (unavailable d.filename)
    | some _ ↦ collect sources ds (add_edits d.filename f.edits m)
  ]
]

unfoldable pub source_of : Sources → Text → Text
source_of sources path = elim (sources path) [ none ↦ [] | some s ↦ s ]

-- What one round of the second loop appends to the plan.
unfoldable pub change_of : Text → Text → List PlannedEdit → List Change
change_of path source [] = []
change_of path source (e ∷ es) =
    let updated = apply_edits (e ∷ es) source in
    if text_eq source updated
    then []
    else record { path = path; before = source; after = updated } ∷ []

-- The second loop of `Build`.
unfoldable pub plan_paths : Sources → ByPath → List Text → Result (List Change)
unfolding edits_of source_of change_of
plan_paths sources m [] = ok []
plan_paths sources m (path ∷ rest) =
    let source = source_of sources path in
    validate_edits path (length source) (edits_of path m) >>= λ edits.
    plan_paths sources m rest >>= λ later. ok (change_of path source edits ++ later)

abbrev pub keys : ByPath → List Text
keys [] = []
keys ((p, es) ∷ m) = p ∷ keys m

unfoldable pub build : Sources → List Diagnostic → Result Plan
unfolding collect plan_paths
build sources ds = collect sources ds [] >>= λ m.
    plan_paths sources m (sort text_lt (keys m)) >>= λ changes. ok (record { changes = changes })
