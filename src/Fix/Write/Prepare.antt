-- ===== src/Fix/Write/Prepare.antt =====
-- What the first loop of `Write` makes sure of.
use pawnlint.Base.{
  ℕ, ◌≡◌, refl, ap, ◌∙◌, ◌⊎◌, inl, inr, false, ◌||◌, Bool-cases, Option-cases, some, List, [], ◌∷◌,
  map, Text, text_eq, eq_of_text_eq, All, All-map, arith,
}
use pawnlint.Fix.{Change, Plan}
use pawnlint.Fix.Write.{
  perm, Stored, Disk, System, WriteError, Prepared, was_seen, Preparation, ready, refused,
  add_prepared, prepare_one, prepare,
}

-- What the first loop read of the file of a change.
abbrev pub Stands : Disk → Prepared → Type 0
Stands disk it =
    (mode : ℕ) × (disk it.change.path ≡ some (record { content = it.change.before; mode = mode }))
    × (it.mode ≡ perm mode)

-- No two changes are for one path, nor is any for a path of `seen`.
abbrev pub IsApart : List Text → List Prepared → Type 0
IsApart seen [] = Unit
IsApart seen (it ∷ its) =
    (was_seen it.change.path seen ≡ false) × IsApart (it.change.path ∷ seen) its

pub add_prepared_ready :
    (p : Prepared) (rest : Preparation) (items : List Prepared)
    → add_prepared p rest ≡ ready items
    → (its : List Prepared) × (items ≡ p ∷ its) × (rest ≡ ready its)
add_prepared_ready p (ready its) items e = (its, cc, refl)
add_prepared_ready p (refused bad) items e = cc

pub prepare_one_ready :
    (sys : System) (disk : Disk) (c : Change) (file : Stored) (rest : Preparation)
    (items : List Prepared)
    → prepare_one sys disk c (some file) rest ≡ ready items
    → (file.content ≡ c.before)
      × (its : List Prepared) × (items ≡ record { change = c; mode = perm file.mode } ∷ its)
      × (rest ≡ ready its)
unfolding prepare_one
prepare_one_ready sys disk c file rest items e = elim (Bool-cases (text_eq file.content c.before)) [
  | inr differs ↦ absurd (ground (arith, differs))
  | inl same ↦ elim (Bool-cases (sys.read_fails c.path || sys.stat_fails c.path)) [
    | inl fails ↦ absurd (ground (arith, same, fails))
    | inr works ↦
        let (its, split, later) =
          add_prepared_ready (record { change = c; mode = perm file.mode }) rest items
            (ground (arith, same, works)) in
        (eq_of_text_eq file.content c.before same, its, split, later)
  ]
]

pub prepare_ready :
    (sys : System) (disk : Disk) (seen : List Text) (cs : List Change) (items : List Prepared)
    → prepare sys disk seen cs ≡ ready items
    → (map (λ (it : Prepared). it.change) items ≡ cs) × All (Stands disk) items × IsApart seen items
unfolding prepare was_seen
prepare_ready sys disk seen [] [] e = (refl, tt, tt)
prepare_ready sys disk seen [] (it ∷ items) e = cc
prepare_ready sys disk seen (c ∷ cs) items e = elim (Bool-cases (was_seen c.path seen)) [
  | inl twice ↦ absurd (ground (arith, twice))
  | inr new ↦ elim (Option-cases (disk c.path)) [
    | inl missing ↦ absurd (ground (arith, new, missing))
    | inr (file, there) ↦
        let (same, its, split, rest) =
          prepare_one_ready sys disk c file (prepare sys disk (c.path ∷ seen) cs) items
            (rw (new, prepare, there) at e) in
        let (changes, all, apart) = prepare_ready sys disk (c.path ∷ seen) cs its rest in
        rw (split, changes, new)
          (
            refl,
            (
              (
                file.mode,
                there ∙ ap (λ t. some (record { content = t; mode = file.mode })) same,
                refl,
              ),
              all,
            ),
            (refl, apart),
          )
  ]
]

pub IsApart-All :
    (seen : List Text) (items : List Prepared)
    → IsApart seen items
    → All (λ (it : Prepared). was_seen it.change.path seen ≡ false) items
unfolding was_seen
IsApart-All seen [] h = tt
IsApart-All seen (it ∷ items) h = (
  h.0,
  All-map (λ (x : Prepared). was_seen x.change.path (it.change.path ∷ seen) ≡ false)
      (λ (x : Prepared). was_seen x.change.path seen ≡ false) items (λ x new. ground (arith, new))
      (IsApart-All (it.change.path ∷ seen) items h.1),
)

pub prepare-cases :
    (sys : System) (disk : Disk) (plan : Plan)
    → ((e : WriteError) × (prepare sys disk [] plan.changes ≡ refused e))
      ⊎ ((items : List Prepared) × (prepare sys disk [] plan.changes ≡ ready items))
prepare-cases sys disk plan =
    elim (prepare sys disk [] plan.changes)
      as (λ p.
        ((e : WriteError) × (p ≡ refused e)) ⊎ ((items : List Prepared) × (p ≡ ready items))) [
          | refused e ↦ inl (e, refl)
          | ready items ↦ inr (items, refl)
        ]
