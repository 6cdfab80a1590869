-- ===== src/Fix/Build/Sound.antt =====
-- The plan that `Build` returns.
use pawnlint.Base.{
  ◌≡◌, ◌≢◌, inl, inr, some, List, [], ◌∷◌, ◌++◌, Text, text_eq, text_lt, text_eq_iff, All,
  All-append, Bool-cases, length,
}
use pawnlint.Base.Sort.{sort, All-sort, text_key}
use pawnlint.Diagnostic.{Diagnostic}
use pawnlint.Fix.{Change, Plan, PlannedEdit, ok, ◌>>=◌, bind-ok, validate_edits, apply_edits}
use pawnlint.Fix.Validate.{validate_edits_sound}
use pawnlint.Fix.Apply.{weave, apply_edits-eq-weave}
use pawnlint.Fix.Build.{
  Sources, ByPath, edits_of, source_of, change_of, plan_paths, keys, collect, build,
}
use pawnlint.Fix.Build.Collect.{edits_for, HasSource, collect_lem}

-- What the plan says of one file: its source, that it changes, and that the new text is the
-- source with the file's accepted edits in place.
pub record IsSoundChange (sources : Sources) (ds : List Diagnostic) (c : Change) : Type 0 where
  pub source : sources c.path ≡ some c.before
  pub changed : c.before ≢ c.after
  pub edits : List PlannedEdit
  pub accepted : validate_edits c.path (length c.before) (edits_for c.path ds) ≡ ok edits
  pub applied : c.after ≡ weave 0 edits c.before

pub plan_paths-cons :
    (sources : Sources) (m : ByPath) (path : Text) (rest : List Text) (changes : List Change)
    → plan_paths sources m (path ∷ rest) ≡ ok changes
    → (es : List PlannedEdit) × (later : List Change) × (validate_edits path
          (length (source_of sources path))
          (edits_of path m)
        ≡ ok es)
      × (plan_paths sources m rest ≡ ok later)
      × (changes ≡ change_of path (source_of sources path) es ++ later)
unfolding plan_paths
plan_paths-cons sources m path rest changes h =
    let (es, accepted, h') =
      bind-ok (validate_edits path (length (source_of sources path)) (edits_of path m))
        (λ es. plan_paths sources m rest >>= λ later.
          ok (change_of path (source_of sources path) es ++ later))
        h in
    let (later, planned, h'') =
      bind-ok (plan_paths sources m rest)
        (λ later. ok (change_of path (source_of sources path) es ++ later)) h' in
    (es, later, accepted, planned, cc h'')

module _ (sources : Sources) (ds : List Diagnostic) (m : ByPath)
    (edits : (path : Text) → edits_of path m ≡ edits_for path ds) where
  change_of_sound :
      (path source : Text) (es : List PlannedEdit)
      → sources path ≡ some source
      → validate_edits path (length source) (edits_of path m) ≡ ok es
      → All (IsSoundChange sources ds) (change_of path source es)
  unfolding change_of
  change_of_sound path source [] found accepted = tt
  change_of_sound path source (e ∷ es) found accepted =
      elim (Bool-cases (text_eq source (apply_edits (e ∷ es) source))) [
        | inl same ↦ rw same tt
        | inr differs ↦ rw differs (
          record {
            source = found;
            changed =
                λ same. cc (differs, (text_eq_iff source (apply_edits (e ∷ es) source)).1 same);
            edits = e ∷ es;
            accepted = rw (edits path) at accepted;
            applied =
                apply_edits-eq-weave (e ∷ es) source
                  (validate_edits_sound path (length source) (edits_of path m) (e ∷ es) accepted).0;
          },
          tt,
        )
      ]

  plan_paths_sound :
      (paths : List Text) (changes : List Change)
      → All (HasSource sources) paths
      → plan_paths sources m paths ≡ ok changes
      → All (IsSoundChange sources ds) changes
  unfolding source_of
  plan_paths_sound [] changes has h = let e : changes ≡ [] = unfold plan_paths in cc in rw e tt
  plan_paths_sound (path ∷ rest) changes has h =
      let (source, found) = has.0 in
      let (es, later, accepted, planned, result) = plan_paths-cons sources m path rest changes h in
      rw result (
        All-append (IsSoundChange sources ds) (change_of path (source_of sources path) es) later
          (rw (found, source_of)
            (change_of_sound path source es found (rw (found, source_of) at accepted)))
          (plan_paths_sound rest later has.1 planned))

-- The two loops of a successful run.
pub build-ok :
    (sources : Sources) (ds : List Diagnostic) (plan : Plan)
    → build sources ds ≡ ok plan
    → (m : ByPath) × (changes : List Change) × (collect sources ds [] ≡ ok m)
      × (plan_paths sources m (sort text_lt (keys m)) ≡ ok changes)
      × (plan.changes ≡ changes)
unfolding build
build-ok sources ds plan h =
    let (m, collected, h') =
      bind-ok (collect sources ds [])
        (λ m. plan_paths sources m (sort text_lt (keys m)) >>= λ changes.
          ok (record { changes = changes }))
        h in
    let (changes, planned, h'') =
      bind-ok (plan_paths sources m (sort text_lt (keys m)))
        (λ changes. ok (record { changes = changes })) h' in
    (m, changes, collected, planned, cc h'')

-- Every file of a plan is changed, from the source that was given, and holds the source with
-- the accepted edits of all that file's fixes in place.
pub build_sound :
    (sources : Sources) (ds : List Diagnostic) (plan : Plan)
    → build sources ds ≡ ok plan
    → All (IsSoundChange sources ds) plan.changes
unfolding build
build_sound sources ds plan h =
    let (m, changes, collected, planned, result) = build-ok sources ds plan h in
    let c = collect_lem sources ds [] m collected tt tt in
    rw result (
      plan_paths_sound sources ds m c.edits (sort text_lt (keys m)) changes
        (All-sort text_lt (HasSource sources) (keys m) c.sourced) planned)
