-- ===== src/Fix/Write.antt =====
-- internal/fix/fix.go: Write, on a disk that maps paths to files. A step of the system can fail,
-- and a failed write to the temporary file leaves any bytes in it. The deferred os.Remove, whose
-- error is dropped, can fail too, and then the temporary file stays.
pub mod Rename
pub mod Prepare
pub mod Atomic
use pawnlint.Base.{
  ℕ, ◌%◌, Bool, true, false, ◌||◌, not, Option, none, some, List, [], ◌∷◌, Text, text_eq,
  if◌then◌else◌,
}
use pawnlint.Fix.{Change, Plan}

pub record Stored : Type 0 where
  pub content : Text
  pub mode : ℕ

-- fs.FileMode.Perm: the nine bits of permission.
abbrev pub perm : ℕ → ℕ
perm mode = mode % 512

abbrev pub Disk : Type 0
Disk = Text → Option Stored

abbrev pub put : Text → Stored → Disk → Disk
put name file disk = λ path. if text_eq name path then some file else disk path

abbrev pub remove : Text → Disk → Disk
remove name disk = λ path. if text_eq name path then none else disk path

abbrev pub rename : Text → Text → Disk → Disk
rename name to disk =
    λ path. if text_eq to path then disk name else if text_eq name path then none else disk path

-- Which steps fail for the change of a path, what a failed write leaves, and the name that
-- os.CreateTemp makes up, if it does not fail.
pub record System : Type 0 where
  pub read_fails : Text → Bool
  pub stat_fails : Text → Bool
  pub chmod_fails : Text → Bool
  pub write_fails : Text → Bool
  pub sync_fails : Text → Bool
  pub close_fails : Text → Bool
  pub rename_fails : Text → Bool
  pub remove_fails : Text → Bool
  pub partial : Text → Text
  pub temporary : Disk → Text → Option Text

pub data WriteError : Type 0 where
  duplicate changed_before : Text → WriteError
  failed_read failed_stat failed_create failed_chmod : Text → WriteError
  failed_write failed_sync failed_close failed_rename : Text → WriteError

pub record Prepared : Type 0 where
  pub change : Change
  pub mode : ℕ

unfoldable pub was_seen : Text → List Text → Bool
was_seen path [] = false
was_seen path (p ∷ ps) = text_eq p path || was_seen path ps

pub data Preparation : Type 0 where
  ready : List Prepared → Preparation
  refused : WriteError → Preparation

abbrev pub add_prepared : Prepared → Preparation → Preparation
add_prepared p (ready ps) = ready (p ∷ ps)
add_prepared p (refused e) = refused e

-- What one round of the first loop does with a change that is not a duplicate.
unfoldable pub prepare_one : System → Disk → Change → Option Stored → Preparation → Preparation
prepare_one sys disk c none rest = refused (failed_read c.path)
prepare_one sys disk c (some file) rest =
    if sys.read_fails c.path
    then refused (failed_read c.path)
    else if not (text_eq file.content c.before)
    then refused (changed_before c.path)
    else if sys.stat_fails c.path
    then refused (failed_stat c.path)
    else add_prepared (record { change = c; mode = perm file.mode }) rest

-- The first loop of `Write`.
unfoldable pub prepare : System → Disk → List Text → List Change → Preparation
unfolding was_seen prepare_one
prepare sys disk seen [] = ready []
prepare sys disk seen (c ∷ cs) =
    let rest = prepare sys disk (c.path ∷ seen) cs in
    if was_seen c.path seen
    then refused (duplicate c.path)
    else prepare_one sys disk c (disk c.path) rest

-- The deferred `os.Remove(tmpName)`, for the change of a path.
abbrev pub remove_temporary : System → Text → Text → Disk → Disk
remove_temporary sys path name disk = if sys.remove_fails path then disk else remove name disk

-- One round of the second loop, with a temporary file. Where a step fails, the deferred call comes
-- next; behind the renaming it finds nothing.
unfoldable pub write_temporary : System → Disk → Prepared → Text → Disk × Option WriteError
write_temporary sys disk item name =
    let path = item.change.path in
    let created = put name (record { content = []; mode = 384 }) disk in
    let changed = put name (record { content = []; mode = item.mode }) created in
    let broken = put name (record { content = sys.partial path; mode = item.mode }) changed in
    let written = put name (record { content = item.change.after; mode = item.mode }) changed in
    if sys.chmod_fails path
    then (remove_temporary sys path name created, some (failed_chmod path))
    else if sys.write_fails path
    then (remove_temporary sys path name broken, some (failed_write path))
    else if sys.sync_fails path
    then (remove_temporary sys path name written, some (failed_sync path))
    else if sys.close_fails path
    then (remove_temporary sys path name written, some (failed_close path))
    else if sys.rename_fails path
    then (remove_temporary sys path name written, some (failed_rename path))
    else (rename name path written, none)

unfoldable pub write_item : System → Disk → Prepared → Disk × Option WriteError
unfolding write_temporary
write_item sys disk item = elim (sys.temporary disk item.change.path) [
  | none ↦ (disk, some (failed_create item.change.path))
  | some name ↦ write_temporary sys disk item name
]

-- The second loop.
unfoldable pub write_items : System → Disk → List Prepared → Disk × Option WriteError
unfolding write_item
write_items sys disk [] = (disk, none)
write_items sys disk (item ∷ items) =
    let (now, result) = write_item sys disk item in
    let rest = write_items sys now items in elim result [ some e ↦ (now, some e) | none ↦ rest ]

-- `Write`: the disk afterwards, and the error.
unfoldable pub write : System → Disk → Plan → Disk × Option WriteError
unfolding prepare write_items
write sys disk plan = elim (prepare sys disk [] plan.changes) [
  | refused e ↦ (disk, some e)
  | ready items ↦ write_items sys disk items
]
