-- ===== src/Options.antt =====
-- pkg/lint/options.go: the options that a rule declares, and the check of a configured value. A
-- value of Go's type `any` is known by its dynamic type; a map is the list of its entries in the
-- order of their keys, the order in which the code reads them.
mod Values
pub mod Fits
pub mod ReadObjects
pub mod Conforms
pub mod Validate
pub mod Declared
mod Examples
unfoldable pub use Values.*
use pawnlint.Base.{
  ℕ, ◌+◌, ◌*◌, ◌-◌, ◌^◌, Bool, true, false, ◌&&◌, ◌||◌, not, Option, none, some, List, [], ◌∷◌,
  Text, text_lt, ◌⊎◌, inl, inr, ℤ, pos, ltb_ℤ, leb, length, text_eq, codes, if◌then◌else◌,
}
use pawnlint.Base.{map, ◌++◌}

abbrev pub max_int64 : ℕ
max_int64 = 2 ^ 63 - 1

-- `integerOption`
unfoldable pub integer_option : Value → Option ℤ
integer_option (int_value i) = some i
integer_option (uint_value n) = if leb n max_int64 then some (pos n) else none
integer_option (float_value i whole) = if whole then some i else none
integer_option _ = none

abbrev pub text_of : Value → Option Text
text_of (string_value t) = some t
text_of _ = none

abbrev pub texts_of : Items → Option (List Text)
texts_of no_items = some []
texts_of (item v vs) =
    let rest = texts_of vs in
    elim (text_of v) [ none ↦ none | some t ↦ elim rest [ none ↦ none | some ts ↦ some (t ∷ ts) ] ]

-- `stringListOption`
unfoldable pub string_list_option : Value → Option (List Text)
string_list_option (strings_value ts) = some ts
string_list_option (list_value vs) = texts_of vs
string_list_option _ = none

-- `containsOptionChoice`
unfoldable pub contains_choice : List Text → Text → Bool
contains_choice [] value = false
contains_choice (c ∷ cs) value = text_eq c value || contains_choice cs value

abbrev pub all_chosen : List Text → List Text → Bool
all_chosen choices [] = true
all_chosen choices (t ∷ ts) = contains_choice choices t && all_chosen choices ts

abbrev pub is_empty {ℓ} : {A : Type ℓ} → List A → Bool
is_empty [] = true
is_empty (x ∷ xs) = false

abbrev pub normalize_integer : Spec → Option ℤ → ValueError ⊎ Value
normalize_integer s none = inl must_be_integer
normalize_integer s (some i) =
    if s.has_minimum && ltb_ℤ i s.minimum
    then inl (at_least s.minimum)
    else if s.has_maximum && ltb_ℤ s.maximum i
    then inl (at_most s.maximum)
    else inr (int_value i)

abbrev pub normalize_string : Spec → Option Text → ValueError ⊎ Value
normalize_string s none = inl must_be_string
normalize_string s (some t) =
    if not (is_empty s.choices) && not (contains_choice s.choices t)
    then inl (one_of s.choices)
    else inr (string_value t)

abbrev pub normalize_strings : Spec → Option (List Text) → ValueError ⊎ Value
normalize_strings s none = inl must_be_strings
normalize_strings s (some ts) =
    if not (is_empty s.choices) && not (all_chosen s.choices ts)
    then inl (entries_one_of s.choices)
    else inr (strings_value ts)

-- The items of a list, each an object or not.
abbrev pub items_of : Items → List (Option Entries)
items_of no_items = []
items_of (item (object_value es) vs) = some es ∷ items_of vs
items_of (item v vs) = none ∷ items_of vs

abbrev pub objects_of : Objects → List (Option Entries)
objects_of no_objects = []
objects_of (object es os) = some es ∷ objects_of os

-- The first type test of `objectListOption`.
unfoldable pub object_items : Value → Option (List (Option Entries))
object_items (list_value vs) = some (items_of vs)
object_items (objects_value os) = some (objects_of os)
object_items _ = none

abbrev pub has_key : Text → Entries → Bool
has_key k no_entries = false
has_key k (entry n v es) = text_eq n k || has_key k es

-- `m[k] = v`
unfoldable pub put : Text → Value → Entries → Entries
put k v no_entries = entry k v no_entries
put k v (entry n w es) =
    let rest = put k v es in
    if text_eq n k
    then entry k v es
    else if text_lt k n
    then entry k v (entry n w es)
    else entry n w rest

-- A field of an object list, with `NormalizeOption` for it.
pub record Reader : Type 0 where
  pub spec : Spec
  pub normalize : Value → ValueError ⊎ Value

-- `fields[name]`: of two fields with one name, the map keeps the later.
unfoldable pub find_reader : Text → List Reader → Option Reader
find_reader k [] = none
find_reader k (r ∷ rs) = elim (find_reader k rs) [
  | some later ↦ some later
  | none ↦ if text_eq r.spec.name k then some r else none
]

-- The loop over the names of an object; the position counts from 1.
unfoldable pub read_given : List Reader → ℕ → Entries → Entries → ValueError ⊎ Entries
unfolding find_reader put
read_given rs i no_entries normalized = inr normalized
read_given rs i (entry n v es) normalized = elim (find_reader n rs) [
  | none ↦ inl (unknown_field i n)
  | some r ↦ elim (r.normalize v) [
    | inl e ↦ inl (entry_field i n e)
    | inr w ↦ read_given rs i es (put n w normalized)
  ]
]

-- The loop over the fields that the object does not set.
unfoldable pub fill_missing : ℕ → List Reader → Entries → ValueError ⊎ Entries
unfolding put
fill_missing i [] normalized = inr normalized
fill_missing i (r ∷ rs) normalized = elim (has_key r.spec.name normalized) [
  | true ↦ fill_missing i rs normalized
  | false ↦ elim r.spec.required [
    | true ↦ inl (requires_field i r.spec.name)
    | false ↦ elim r.spec.default [
      | none ↦ fill_missing i rs normalized
      | some d ↦ elim (r.normalize d) [
        | inl e ↦ inl (entry_default i r.spec.name e)
        | inr w ↦ fill_missing i rs (put r.spec.name w normalized)
      ]
    ]
  ]
]

unfoldable pub read_object : List Reader → ℕ → Entries → ValueError ⊎ Entries
unfolding read_given fill_missing
read_object rs i es = elim (read_given rs i es no_entries) [
  | inl e ↦ inl e
  | inr normalized ↦ fill_missing i rs normalized
]

unfoldable pub read_objects : List Reader → ℕ → List (Option Entries) → ValueError ⊎ Objects
unfolding read_object
read_objects rs i [] = inr no_objects
read_objects rs i (none ∷ items) = inl (entry_must_be_object i)
read_objects rs i (some es ∷ items) = elim (read_object rs i es) [
  | inl e ↦ inl e
  | inr normalized ↦ elim (read_objects rs (i + 1) items) [
    | inl e ↦ inl e
    | inr rest ↦ inr (object normalized rest)
  ]
]

-- `objectListOption`
unfoldable pub object_list_option : List Reader → Value → ValueError ⊎ Value
unfolding read_objects object_items
object_list_option rs v = elim (object_items v) [
  | none ↦ inl must_be_objects
  | some items ↦ elim (read_objects rs 1 items) [
    | inl e ↦ inl e
    | inr objects ↦ inr (objects_value objects)
  ]
]

abbrev pub normalize_boolean : Value → ValueError ⊎ Value
normalize_boolean (bool_value b) = inr (bool_value b)
normalize_boolean _ = inl must_be_boolean

-- The switch of `normalizeOptionValue`, by the option's type.
unfoldable pub normalize_as : OptionType → Spec → List Reader → Value → ValueError ⊎ Value
unfolding integer_option string_list_option object_list_option contains_choice
normalize_as boolean s rs v = normalize_boolean v
normalize_as integer s rs v = normalize_integer s (integer_option v)
normalize_as string s rs v = normalize_string s (text_of v)
normalize_as string_list s rs v = normalize_strings s (string_list_option v)
normalize_as object_list s rs v = object_list_option rs v
normalize_as invalid_type s rs v = inl has_invalid_type

-- `normalizeOptionValue`
unfoldable pub normalize_option_value : Spec → List Reader → Value → ValueError ⊎ Value
unfolding normalize_as
normalize_option_value s rs v = normalize_as s.kind s rs v

-- The rule's own check of a normalized value.
abbrev pub checked : Option (Value → Option Text) → Value → ValueError ⊎ Value
checked none v = inr v
checked (some validate) v = elim (validate v) [ none ↦ inr v | some e ↦ inl (rejected e) ]

unfoldable mutual
  unfolding normalize_option_value

  -- `NormalizeOption`
  pub normalize_option : RuleOption → Value → ValueError ⊎ Value
  normalize_option (option s fs) v = elim (normalize_option_value s (readers fs) v) [
    | inl e ↦ inl e
    | inr w ↦ checked s.validate w
  ]

  pub readers : Fields → List Reader
  readers no_fields = []
  readers (field_of (option s gs) fs) =
      record { spec = s; normalize = normalize_option (option s gs) } ∷ readers fs
