-- ===== src/Fix/Write/Atomic.antt =====
-- What `Write` leaves of each file, with an error and without.
use pawnlint.Base.{
  Option, ℕ, zero, suc, ◌≡◌, ◌≢◌, refl, sym, ap, ◌∙◌, ◌⊎◌, inl, inr, false, none, some, List, [],
  ◌∷◌, map, Text, text_eq_refl, get_elem?, All, All-at, All-map, arith,
}
use pawnlint.Fix.{Change, Plan}
use pawnlint.Fix.Write.{
  Disk, System, WriteError, Prepared, was_seen, write_item, write_items, write, perm,
}
use pawnlint.Fix.Write.Rename.{IsFresh, after_of, IsLeft, write_item-Ends, Holds, write_items-Holds}
use pawnlint.Fix.Write.Prepare.{Stands, IsApart, IsApart-All, prepare_ready, prepare-cases}

-- What a later change does not touch stays.
untouched :
    (sys : System) (seen : List Text) (items : List Prepared) (now : Disk)
    (r : Disk × Option WriteError) (path : Text)
    → IsApart (path ∷ seen) items
    → r.1 ≡ none
    → Holds sys items now r path
    → r.0 path ≡ now path
unfolding was_seen
untouched sys seen items now r path apart e (inl kept) = kept
untouched sys seen items now r path apart e (inr (inr left)) = absurd (ground (arith, e, left.1.1))
untouched sys seen items now r path apart e (inr (inl (i, it, at, same, holds))) =
    let new =
      All-at (λ (x : Prepared). was_seen x.change.path (path ∷ seen) ≡ false) items i it
        (IsApart-All (path ∷ seen) items apart) at in
    absurd (ground (arith, rw same at new, text_eq_refl path))

write_items_step :
    (sys : System) (disk : Disk) (item : Prepared) (items : List Prepared)
    → (write_item sys disk item).1 ≡ none
    → write_items sys disk (item ∷ items) ≡ write_items sys (write_item sys disk item).0 items
unfolding write_items
write_items_step sys disk item items done = rw (done, write_items)

write_items_failed :
    (sys : System) (disk : Disk) (item : Prepared) (items : List Prepared) (e : WriteError)
    → (write_item sys disk item).1 ≡ some e
    → (write_items sys disk (item ∷ items)).1 ≢ none
unfolding write_items
write_items_failed sys disk item items e failed h = ground (arith, failed)

write_items_complete :
    (sys : System) (disk : Disk) (seen : List Text) (items : List Prepared)
    → IsFresh sys
    → IsApart seen items
    → (write_items sys disk items).1 ≡ none
    → All
        (λ (it : Prepared). (write_items sys disk items).0 it.change.path ≡ some (after_of it))
        items
write_items_complete sys disk seen [] fresh apart e = tt
write_items_complete sys disk seen (item ∷ items) fresh apart e =
    elim (write_item-Ends sys disk item fresh) [
      | inr (bad, failed, same) ↦ absurd (write_items_failed sys disk item items bad failed e)
      | inl (done, first) ↦
          let now = (write_item sys disk item).0 in
          let path = item.change.path in
          let step = write_items_step sys disk item items done in
          let final = (write_items sys now items).0 in
          (
            rw step (
                untouched sys seen items now (write_items sys now items) path apart.1 (rw step at e)
                  (write_items-Holds sys now items fresh path)
                ∙ (first path ∙ rw (text_eq_refl path))),
            All-map (λ (it : Prepared). final it.change.path ≡ some (after_of it))
                (λ (it : Prepared).
                  (write_items sys disk (item ∷ items)).0 it.change.path ≡ some (after_of it))
                items (λ it holds. rw step holds)
                (write_items_complete sys now (path ∷ seen) items fresh apart.1 (rw step at e)),
          )
    ]

get_elem?-map :
    (items : List Prepared) (i : ℕ) (it : Prepared)
    → get_elem? items i ≡ some it
    → get_elem? (map (λ (x : Prepared). x.change) items) i ≡ some it.change
get_elem?-map [] i it e = cc
get_elem?-map (x ∷ items) zero it e =
    let same : x ≡ it = cc in ap (λ (p : Prepared). some p.change) same
get_elem?-map (x ∷ items) (suc i) it e = get_elem?-map items i it e

changes-All :
    (disk now : Disk) (items : List Prepared)
    → All (Stands disk) items
    → All (λ (it : Prepared). now it.change.path ≡ some (after_of it)) items
    → All
        (λ (c : Change).
          (mode : ℕ) × (disk c.path ≡ some (record { content = c.before; mode = mode }))
          × (now c.path ≡ some (record { content = c.after; mode = perm mode })))
        (map (λ (it : Prepared). it.change) items)
changes-All disk now [] h k = tt
changes-All disk now (it ∷ items) h k =
    let (mode, stood, kept) = h.0 in
    ((mode, stood, rw kept at k.0), changes-All disk now items h.1 k.1)

-- A change of the plan for the path has been made: it held what the change starts from, and holds
-- what the change has for it, with the permission bits of its mode.
abbrev pub IsReplaced : List Change → Disk → Disk → Text → Type 0
IsReplaced cs disk now q =
    (i : ℕ) × (c : Change) × (mode : ℕ) × (get_elem? cs i ≡ some c)
    × (c.path ≡ q)
    × (disk q ≡ some (record { content = c.before; mode = mode }))
    × (now q ≡ some (record { content = c.after; mode = perm mode }))

-- If no temporary file is given the name of a file that is there, then whatever fails, each path
-- holds what it held before; or what some change of the plan has for it, with the permission bits
-- of its mode kept, and that only if it held what the change starts from; or it held nothing, and is
-- the name of a temporary file of a change for which removing that file fails, and an error is
-- returned.
pub write_atomic :
    (sys : System) (disk : Disk) (plan : Plan) (q : Text)
    → IsFresh sys
    → ((write sys disk plan).0 q ≡ disk q)
      ⊎ IsReplaced plan.changes disk (write sys disk plan).0 q
      ⊎ IsLeft sys plan.changes disk (write sys disk plan).1 q
unfolding write
write_atomic sys disk plan q fresh = elim (prepare-cases sys disk plan) [
  | inl (bad, refusal) ↦ rw (refusal, write) (inl refl)
  | inr (items, prepared) ↦
      let (changes, stand, apart) = prepare_ready sys disk [] plan.changes items prepared in
      rw (prepared, write)
        (elim (write_items-Holds sys disk items fresh q) [
          | inl kept ↦ inl kept
          | inr (inl (i, it, at, same, holds)) ↦
              let (mode, stood, kept) = All-at (Stands disk) items i it stand at in
              inr (
                inl (
                  i,
                  it.change,
                  mode,
                  rw changes at (get_elem?-map items i it at),
                  same,
                  ap disk (sym same) ∙ stood,
                  holds ∙ ap (λ m. some (record { content = it.change.after; mode = m })) kept,
                ))
          | inr (inr left) ↦ inr (inr (rw changes at left))
        ])
]

-- If no temporary file is given the name of a file that is there, and no error is returned, then
-- every file of the plan held what its change starts from, and holds what the change has for it,
-- with the permission bits of its mode kept.
pub write_complete :
    (sys : System) (disk : Disk) (plan : Plan)
    → IsFresh sys
    → (write sys disk plan).1 ≡ none
    → All
        (λ (c : Change).
          (mode : ℕ) × (disk c.path ≡ some (record { content = c.before; mode = mode }))
          × ((write sys disk plan).0 c.path
              ≡ some (record { content = c.after; mode = perm mode })))
        plan.changes
unfolding write
write_complete sys disk plan fresh e = elim (prepare-cases sys disk plan) [
  | inl (bad, refusal) ↦ absurd (ground (arith, refusal))
  | inr (items, prepared) ↦
      let (changes, stand, apart) = prepare_ready sys disk [] plan.changes items prepared in
      let done = write_items_complete sys disk [] items fresh apart (rw (prepared, write) at e) in
      rw (prepared, write, sym changes)
        (changes-All disk (write_items sys disk items).0 items stand done)
]
