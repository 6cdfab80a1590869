-- ===== src/Baseline.antt =====
-- internal/baseline/baseline.go: findings that are known and accepted. Load and Write are left
-- out, beside their call of Validate.
mod Accepted
mod Checked
mod Examples
use pawnlint.Base.{
  ℕ, zero, suc, ◌+◌, ◌-◌, Bool, true, false, ◌&&◌, ◌||◌, not, ℤ, pos, pos_part, ltb_ℤ, eqb_ℤ, ◌-ℤ◌,
  Option, none, some, List, [], ◌∷◌, ◌++◌, Text, codes, text_eq, length, take, drop, get_or, leb,
  ◌==◌, if◌then◌else◌,
}
use pawnlint.Base.Sort.{sort, by_key, then_by, text_key}
use pawnlint.Strings.{trim_space, fields, join, itoa}
use pawnlint.Diagnostic.{Diagnostic, diagnostic_less}

pub record Entry : Type 0 where
  pub fingerprint : Text
  pub rule_id : Text
  pub path : Text
  pub message : Text
  pub line : ℤ

pub record File : Type 0 where
  pub version : ℤ
  pub entries : List Entry

pub record Match : Type 0 where
  pub remaining : List Diagnostic
  pub current : File
  pub stale : ℤ

-- SHA-256 in hexadecimal, and the functions of path/filepath.
pub record Outside : Type 0 where
  pub hash : Text → Text
  pub clean : Text → Text
  pub to_slash : Text → Text
  pub is_abs : Text → Bool
  pub join_path : Text → Text → Text
  pub rel : Text → Text → Option Text

-- What the caller hands in; `sources` is a map.
pub record Project : Type 0 where
  pub dir : Text
  pub sources : List (Text × Text)

abbrev pub version : ℤ
version = pos 1

abbrev pub is_hex : ℕ → Bool
is_hex c = leb 48 c && leb c 57 || leb 97 c && leb c 102 || leb 65 c && leb c 70

abbrev pub all_hex : Text → Bool
all_hex [] = true
all_hex (c ∷ s) = is_hex c && all_hex s

-- strings.ToLower of a text of hexadecimal digits.
abbrev pub to_lower : Text → Text
to_lower [] = []
to_lower (c ∷ s) = (if leb 65 c && leb c 90 then c + 32 else c) ∷ to_lower s

unfoldable pub valid_fingerprint : Text → Bool
valid_fingerprint value = (length value == 64) && all_hex value && text_eq (to_lower value) value

pub data BaselineError : Type 0 where
  unsupported_version : ℤ → BaselineError
  invalid_fingerprint : ℕ → BaselineError
  repeats_fingerprint : ℕ → Text → BaselineError
  empty_rule_id invalid_path empty_message invalid_line : ℕ → BaselineError

unfoldable pub listed : Text → List Text → Bool
listed f [] = false
listed f (g ∷ gs) = text_eq g f || listed f gs

-- entry.Path is not empty, not absolute, and clean.
unfoldable pub valid_path : Outside → Text → Bool
valid_path o path =
    not (text_eq path []) && not (o.is_abs path) && text_eq (o.to_slash (o.clean path)) path

-- One round of the loop of `Validate`.
unfoldable pub check_entry : Outside → ℕ → List Text → Entry → Option BaselineError
unfolding valid_fingerprint listed valid_path
check_entry o position seen e =
    if not (valid_fingerprint e.fingerprint)
    then some (invalid_fingerprint position)
    else if listed e.fingerprint seen
    then some (repeats_fingerprint position e.fingerprint)
    else if text_eq (trim_space e.rule_id) []
    then some (empty_rule_id position)
    else if not (valid_path o e.path)
    then some (invalid_path position)
    else if text_eq (trim_space e.message) []
    then some (empty_message position)
    else if ltb_ℤ e.line (pos 1)
    then some (invalid_line position)
    else none

unfoldable pub check_entries : Outside → ℕ → List Text → List Entry → Option BaselineError
unfolding check_entry
check_entries o position seen [] = none
check_entries o position seen (e ∷ es) =
    let rest = check_entries o (position + 1) (e.fingerprint ∷ seen) es in
    elim (check_entry o position seen e) [ some bad ↦ some bad | none ↦ rest ]

-- `Validate`; `none` is nil.
unfoldable pub validate : Outside → File → Option BaselineError
unfolding check_entries
validate o file =
    if eqb_ℤ file.version version
    then check_entries o 1 [] file.entries
    else some (unsupported_version file.version)

unfoldable pub eligible : Diagnostic → Bool
eligible d =
    not (text_eq d.rule_id [])
    && not (text_eq d.rule_id (codes "parse-error"))
    && not (text_eq d.rule_id (codes "internal-error"))
    && not (text_eq d.rule_id (codes "deprecated-rule-id"))
    && not (text_eq d.message [])

unfoldable pub relative_path : Outside → Text → Text → Text
relative_path o dir given =
    let path = if o.is_abs given then given else o.join_path dir given in
    elim (o.rel dir path) [
      | none ↦ o.to_slash (o.clean path)
      | some relative ↦ o.to_slash (o.clean relative)
    ]

abbrev pub find_source : (Text → Bool) → List (Text × Text) → Option Text
find_source is_it [] = none
find_source is_it ((path, source) ∷ rest) =
    let later = find_source is_it rest in if is_it path then some source else later

-- `sourceFor`; where several clean paths agree, Go's map has no order, and the first is taken.
unfoldable pub source_for : Outside → List (Text × Text) → Text → Text
source_for o sources path = elim (find_source (λ p. text_eq p path) sources) [
  | some source ↦ source
  | none ↦ elim (find_source (λ p. text_eq (o.clean p) (o.clean path)) sources) [
    | some source ↦ source
    | none ↦ []
  ]
]

unfoldable pub diagnostic_excerpt : Text → Diagnostic → Text
unfolding fields join
diagnostic_excerpt source d =
    let start = d.range.start.offset in
    let end = d.range.end.offset in
    if ltb_ℤ start (pos 0) || ltb_ℤ end start || ltb_ℤ (pos (length source)) end
    then []
    else join 32 (fields (take (pos_part end - pos_part start) (drop (pos_part start) source)))

pub record Item : Type 0 where
  pub index : ℕ
  pub diag : Diagnostic

abbrev pub items_from : ℕ → List Diagnostic → List Item
items_from i [] = []
items_from i (d ∷ ds) = record { index = i; diag = d } ∷ items_from (i + 1) ds

abbrev pub item_less : Item → Item → Bool
item_less left right = diagnostic_less left.diag right.diag

-- An entry that was not set.
abbrev pub no_entry : Entry
no_entry = record { fingerprint = []; rule_id = []; path = []; message = []; line = pos 0 }

-- The text that is hashed, less the count of its occurrences.
unfoldable pub base_of : Outside → Project → Diagnostic → Text
unfolding relative_path source_for diagnostic_excerpt
base_of o project d = join 0 (
    relative_path o project.dir d.filename
    ∷ d.rule_id
    ∷ d.code
    ∷ d.message
    ∷ diagnostic_excerpt (source_for o project.sources d.filename) d
    ∷ [])

-- The entry of an eligible diagnostic, of which `occurrence` like it came before.
unfoldable pub entry_of : Outside → Project → Diagnostic → ℕ → Entry
unfolding base_of itoa
entry_of o project d occurrence = record {
  fingerprint = o.hash (base_of o project d ++ 0 ∷ itoa occurrence);
  rule_id = d.rule_id;
  path = relative_path o project.dir d.filename;
  message = d.message;
  line = if ltb_ℤ d.range.start.line (pos 1) then pos 1 else d.range.start.line;
}

-- The loop of `fingerprintDiagnostics`: its entries, by position.
unfoldable pub entries_of : Outside → Project → (Text → ℕ) → List Item → List Entry
unfolding eligible entry_of
entries_of o project occurrences [] = []
entries_of o project occurrences (item ∷ items) =
    let takes_part = eligible item.diag in
    let base = base_of o project item.diag in
    let counted =
      λ (k : Text). if takes_part && text_eq base k then occurrences k + 1 else occurrences k in
    (if takes_part then entry_of o project item.diag (occurrences base) else no_entry)
    ∷ entries_of o project counted items

-- The loop of `fingerprintDiagnostics`: the position of each index.
unfoldable pub index_items : ℕ → List Item → (ℕ → ℕ) → ℕ → ℕ
index_items position [] indexed = indexed
index_items position (item ∷ items) indexed =
    index_items (position + 1) items (λ k. if item.index == k then position else indexed k)

unfoldable pub fingerprint_diagnostics : Outside → Project → List Diagnostic → List Entry × (ℕ → ℕ)
unfolding entries_of index_items
fingerprint_diagnostics o project ds =
    let items = sort item_less (items_from 0 ds) in
    (entries_of o project (λ _. 0) items, index_items 0 items (λ _. 0))

unfoldable pub sort_entries : List Entry → List Entry
sort_entries = sort (
    then_by (λ (e : Entry). e.path)
      (then_by (λ (e : Entry). e.rule_id) (by_key (λ (e : Entry). e.fingerprint))))

abbrev pub with_fingerprint : List Entry → List Entry
with_fingerprint [] = []
with_fingerprint (e ∷ es) =
    let rest = with_fingerprint es in if text_eq e.fingerprint [] then rest else e ∷ rest

-- `Generate`
unfoldable pub generate : Outside → Project → List Diagnostic → File
unfolding fingerprint_diagnostics sort_entries
generate o project ds = record {
  version = version;
  entries = sort_entries (with_fingerprint (fingerprint_diagnostics o project ds).0);
}

abbrev pub fingerprints : List Entry → List Text
fingerprints [] = []
fingerprints (e ∷ es) = e.fingerprint ∷ fingerprints es

-- matched[entry.Fingerprint] = entry
abbrev pub set_entry : Entry → List Entry → List Entry
set_entry e [] = e ∷ []
set_entry e (m ∷ ms) =
    let rest = set_entry e ms in if text_eq m.fingerprint e.fingerprint then e ∷ ms else m ∷ rest

-- The loop of `Apply`: what remains, and what is matched.
unfoldable pub apply_loop :
    List Text → (ℕ → Entry) → ℕ → List Diagnostic → List Entry → List Diagnostic × List Entry
unfolding listed
apply_loop existing entry index [] matched = ([], matched)
apply_loop existing entry index (d ∷ ds) matched =
    let e = entry index in
    let stays = text_eq e.fingerprint [] || not (listed e.fingerprint existing) in
    let rest =
      apply_loop existing entry (index + 1) ds (if stays then matched else set_entry e matched) in
    ((if stays then d ∷ rest.0 else rest.0), rest.1)

-- `Apply`
unfoldable pub apply : Outside → Project → File → List Diagnostic → Match
unfolding fingerprint_diagnostics apply_loop sort_entries
apply o project file ds =
    let (entries, indexed) = fingerprint_diagnostics o project ds in
    let (remaining, matched) =
      apply_loop (fingerprints file.entries) (λ i. get_or entries (indexed i) no_entry) 0 ds [] in
    let current = sort_entries matched in
    record {
      remaining = remaining;
      current = record { version = version; entries = current };
      stale = pos (length file.entries) -ℤ pos (length current);
    }
