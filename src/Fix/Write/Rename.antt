-- ===== src/Fix/Write/Rename.antt =====
-- One file: put under a new name, then renamed, or, where a step fails, removed if it can be; and
-- the second loop.
use pawnlint.Base.{
  ℕ, suc, ◌≡◌, refl, sym, ap, ◌∙◌, ◌⊎◌, inl, inr, Bool, true, false, Bool-cases, Option,
  Option-cases, none, some, List, [], ◌∷◌, Text, text_eq, text_eq_refl, eq_of_text_eq, get_elem?,
  if◌then◌else◌, arith, map,
}
use pawnlint.Fix.{Change}
use pawnlint.Fix.Write.{
  remove_temporary, Stored, Disk, put, remove, rename, System, WriteError, Prepared,
  write_temporary, write_item, write_items,
}

-- os.CreateTemp makes up the name of no file that is there, if it does not fail.
abbrev pub IsFresh : System → Type 0
IsFresh sys =
    (disk : Disk) (path name : Text) → sys.temporary disk path ≡ some name → disk name ≡ none

-- The file that a change leaves.
abbrev pub after_of : Prepared → Stored
after_of item = record { content = item.change.after; mode = item.mode }

-- The temporary file of a change has stayed under a name that was free, since removing it failed.
abbrev pub Stays : System → Disk → Text → Text → Type 0
Stays sys disk path q =
    (disk q ≡ none) × (sys.temporary disk path ≡ some q) × (sys.remove_fails path ≡ true)

abbrev pub Ends : System → Disk → Prepared → Disk × Option WriteError → Type 0
Ends sys disk item r =
    ((r.1 ≡ none) × ((q : Text) → r.0 q ≡ put item.change.path (after_of item) disk q))
    ⊎ ((e : WriteError) × (r.1 ≡ some e)
        × ((q : Text) → (r.0 q ≡ disk q) ⊎ Stays sys disk item.change.path q))

pub if-Ends :
    (sys : System) (disk : Disk) (item : Prepared) (b : Bool) (x y : Disk × Option WriteError)
    → Ends sys disk item x
    → Ends sys disk item y
    → Ends sys disk item (if b then x else y)
if-Ends sys disk item true x y h k = h
if-Ends sys disk item false x y h k = k

-- Removing a file that was put under a new name leaves the disk as it was.
pub remove_new :
    (disk now : Disk) (name : Text)
    → disk name ≡ none
    → ((q : Text) → text_eq name q ≡ false → now q ≡ disk q)
    → (q : Text) → remove name now q ≡ disk q
remove_new disk now name new others q = elim (Bool-cases (text_eq name q)) [
  | inl here ↦ rw here (sym new ∙ ap disk (eq_of_text_eq name q here))
  | inr away ↦ rw away (others q away)
]

remove_temporary_new :
    (sys : System) (disk now : Disk) (path name : Text)
    → disk name ≡ none
    → sys.temporary disk path ≡ some name
    → ((q : Text) → text_eq name q ≡ false → now q ≡ disk q)
    → (q : Text) → (remove_temporary sys path name now q ≡ disk q) ⊎ Stays sys disk path q
remove_temporary_new sys disk now path name new made others q =
    elim (Bool-cases (sys.remove_fails path)) [
      | inr works ↦ inl (rw works (remove_new disk now name new others q))
      | inl fails ↦ elim (Bool-cases (text_eq name q)) [
        | inr away ↦ inl (rw fails (others q away))
        | inl here ↦
            let same = eq_of_text_eq name q here in
            inr (ap disk (sym same) ∙ new, made ∙ ap some same, fails)
      ]
    ]

pub rename_new :
    (disk now : Disk) (name path : Text) (file : Stored)
    → disk name ≡ none
    → now name ≡ some file
    → ((q : Text) → text_eq name q ≡ false → now q ≡ disk q)
    → (q : Text) → rename name path now q ≡ put path file disk q
rename_new disk now name path file new put_there others q = elim (Bool-cases (text_eq path q)) [
  | inl target ↦ rw target put_there
  | inr other ↦ rw other (remove_new disk now name new others q)
]

pub write_temporary-Ends :
    (sys : System) (disk : Disk) (item : Prepared) (name : Text)
    → disk name ≡ none
    → sys.temporary disk item.change.path ≡ some name
    → Ends sys disk item (write_temporary sys disk item name)
unfolding write_temporary
write_temporary-Ends sys disk item name new made =
    let path = item.change.path in
    let created = put name (record { content = []; mode = 384 }) disk in
    let changed = put name (record { content = []; mode = item.mode }) created in
    let broken = put name (record { content = sys.partial path; mode = item.mode }) changed in
    let written = put name (record { content = item.change.after; mode = item.mode }) changed in
    let kept = remove_temporary_new sys disk written path name new made (λ q away. rw away) in
    if-Ends sys disk item (sys.chmod_fails path) _ _
      (inr (_, refl, remove_temporary_new sys disk created path name new made (λ q away. rw away)))
      (if-Ends sys disk item (sys.write_fails path) _ _
        (inr (_, refl, remove_temporary_new sys disk broken path name new made (λ q away. rw away)))
        (if-Ends sys disk item (sys.sync_fails path) _ _ (inr (_, refl, kept)) (
          if-Ends sys disk item (sys.close_fails path) _ _ (inr (_, refl, kept)) (
            if-Ends sys disk item (sys.rename_fails path) _ _ (inr (_, refl, kept)) (
              inl (
                refl,
                rename_new disk written name path (after_of item) new (rw (text_eq_refl name))
                    (λ q away. rw away),
              ))))))

pub write_item-Ends :
    (sys : System) (disk : Disk) (item : Prepared)
    → IsFresh sys
    → Ends sys disk item (write_item sys disk item)
unfolding write_item
write_item-Ends sys disk item fresh = elim (Option-cases (sys.temporary disk item.change.path)) [
  | inl absent ↦ rw (absent, write_item) (inr (_, refl, λ q. inl refl))
  | inr (name, made) ↦
      let same : write_item sys disk item ≡ write_temporary sys disk item name =
        rw (made, write_item) in
      rw same (write_temporary-Ends sys disk item name (fresh disk item.change.path name made) made)
]

-- The temporary file of a change stays under a name that was free, and an error is returned.
abbrev pub IsLeft : System → List Change → Disk → Option WriteError → Text → Type 0
IsLeft sys cs disk result q =
    (disk q ≡ none)
    × ((e : WriteError) × (result ≡ some e))
    × (i : ℕ) × (c : Change) × (get_elem? cs i ≡ some c)
    × ((at : Disk) × (sys.temporary at c.path ≡ some q))
    × (sys.remove_fails c.path ≡ true)

abbrev pub changes_of : List Prepared → List Change
changes_of items = map (λ (it : Prepared). it.change) items

-- What a path holds after the second loop.
abbrev pub Holds : System → List Prepared → Disk → Disk × Option WriteError → Text → Type 0
Holds sys items disk r q =
    (r.0 q ≡ disk q)
    ⊎ ((i : ℕ) × (it : Prepared) × (get_elem? items i ≡ some it)
        × (it.change.path ≡ q)
        × (r.0 q ≡ some (after_of it)))
    ⊎ IsLeft sys (changes_of items) disk r.1 q

pub put-Holds :
    (sys : System) (item : Prepared) (items : List Prepared) (disk now : Disk)
    (r : Disk × Option WriteError) (q : Text)
    → now q ≡ put item.change.path (after_of item) disk q
    → Holds sys items now r q
    → Holds sys (item ∷ items) disk r q
put-Holds sys item items disk now r q first (inr (inl (i, it, at, same, holds))) =
    inr (inl (suc i, it, at, same, holds))
put-Holds sys item items disk now r q first (inl kept) =
    elim (Bool-cases (text_eq item.change.path q)) [
      | inl here ↦ inr (inl (0, item, refl, eq_of_text_eq _ q here, kept ∙ rw here at first))
      | inr away ↦ inl (kept ∙ rw away at first)
    ]
put-Holds sys item items disk now r q first (inr (inr (free, failed, i, c, at, named, stays))) =
    elim (Bool-cases (text_eq item.change.path q)) [
      | inl here ↦ absurd (ground (arith, free, rw here at first))
      | inr away ↦ inr (inr (sym (rw away at first) ∙ free, failed, suc i, c, at, named, stays))
    ]

pub write_items-Holds :
    (sys : System) (disk : Disk) (items : List Prepared)
    → IsFresh sys
    → (q : Text) → Holds sys items disk (write_items sys disk items) q
unfolding write_items
write_items-Holds sys disk [] fresh q = inl refl
write_items-Holds sys disk (item ∷ items) fresh q = elim (write_item-Ends sys disk item fresh) [
  | inr (e, failed, after) ↦
      rw (failed, write_items)
        (elim (after q) [
          | inl same ↦ inl same
          | inr (free, named, stays) ↦
              inr (inr (free, (e, refl), 0, item.change, refl, (disk, named), stays))
        ])
  | inl (done, first) ↦
      let now = (write_item sys disk item).0 in
      rw (done, write_items)
        (put-Holds sys item items disk now (write_items sys now items) q (first q)
          (write_items-Holds sys now items fresh q))
]
