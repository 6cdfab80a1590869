-- ===== src/Options/Validate.antt =====
-- pkg/lint/options.go: the checks of the options that a rule declares, made when it is registered.
use pawnlint.Base.{
  Bool, true, false, ◌&&◌, ◌||◌, not, Option, none, some, List, [], ◌∷◌, Text, inl, inr, ltb_ℤ,
  text_eq, codes, if◌then◌else◌,
}
use pawnlint.Options.{
  OptionType, integer, string, string_list, object_list, invalid_type, ValueError, Spec, RuleOption,
  Fields, no_fields, field_of, spec, fields_of, is_empty, normalize_option,
}

-- What is wrong with an option, or with a field of one.
pub data Fault : Type 0 where
  invalid_name duplicate invalid_kind invalid_range numeric_constraints : Fault
  has_choices has_fields : Fault
  invalid_default : ValueError → Fault

-- The errors of `validateOptions` and `validateObjectFields`, by the names they print.
pub data OptionError : Type 0 where
  option_error : Text → Text → Fault → OptionError
  field_error : Text → Text → Text → Fault → OptionError

abbrev pub is_integer : OptionType → Bool
is_integer integer = true
is_integer _ = false

abbrev pub is_textual : OptionType → Bool
is_textual string = true
is_textual string_list = true
is_textual _ = false

abbrev pub is_object_list : OptionType → Bool
is_object_list object_list = true
is_object_list _ = false

abbrev pub is_invalid : OptionType → Bool
is_invalid invalid_type = true
is_invalid _ = false

abbrev pub has_any : Fields → Bool
has_any no_fields = false
has_any (field_of o fs) = true

abbrev pub seen_name : Text → List Text → Bool
seen_name n [] = false
seen_name n (m ∷ ms) = text_eq m n || seen_name n ms

-- The name of an option, or of a field: not empty, not that of the severity, not one seen before.
unfoldable pub name_fault : List Text → Text → Option Fault
name_fault seen name =
    if text_eq name [] || text_eq name (codes "severity")
    then some invalid_name
    else if seen_name name seen
    then some duplicate
    else none

unfoldable pub constraint_fault : Spec → Option Fault
constraint_fault s =
    if s.has_minimum && s.has_maximum && ltb_ℤ s.maximum s.minimum
    then some invalid_range
    else if not (is_integer s.kind) && (s.has_minimum || s.has_maximum)
    then some numeric_constraints
    else if not (is_textual s.kind) && not (is_empty s.choices)
    then some has_choices
    else none

unfoldable pub default_fault : RuleOption → Option Fault
unfolding normalize_option
default_fault o = elim (spec o).default [
  | none ↦ none
  | some d ↦ elim (normalize_option o d) [ inl e ↦ some (invalid_default e) | inr v ↦ none ]
]

-- The first of two faults.
abbrev pub or_else {ℓ} : {A : Type ℓ} → Option A → Option A → Option A
or_else none b = b
or_else (some a) b = some a

-- One round of the loop of `validateObjectFields`.
unfoldable pub field_fault : List Text → RuleOption → Option Fault
unfolding name_fault constraint_fault default_fault
field_fault seen o =
    let s = spec o in
    or_else (name_fault seen s.name) (
      if is_object_list s.kind || is_invalid s.kind || has_any (fields_of o)
      then some invalid_kind
      else or_else (constraint_fault s) (default_fault o))

-- `validateObjectFields`; `none` is nil.
unfoldable pub validate_object_fields : Text → Text → List Text → Fields → Option OptionError
unfolding field_fault
validate_object_fields rule owner seen no_fields = none
validate_object_fields rule owner seen (field_of o fs) =
    let rest = validate_object_fields rule owner ((spec o).name ∷ seen) fs in
    elim (field_fault seen o) [
      | some bad ↦ some (field_error rule owner (spec o).name bad)
      | none ↦ rest
    ]

abbrev pub as_option_error : Text → Text → Option Fault → Option OptionError
as_option_error rule name none = none
as_option_error rule name (some bad) = some (option_error rule name bad)

-- What comes before the fields of an option are checked.
unfoldable pub shape_fault : List Text → RuleOption → Option Fault
unfolding name_fault constraint_fault
shape_fault seen o =
    let s = spec o in
    or_else (name_fault seen s.name) (
      if is_invalid s.kind
      then some invalid_kind
      else or_else (constraint_fault s)
          (if not (is_object_list s.kind) && has_any (fields_of o) then some has_fields else none))

-- What the fields of an option are checked for, where it is an object list.
unfoldable pub fields_error : Text → RuleOption → Option OptionError
unfolding validate_object_fields
fields_error rule o =
    if is_object_list (spec o).kind
    then validate_object_fields rule (spec o).name [] (fields_of o)
    else none

-- One round of the loop of `validateOptions`.
unfoldable pub check_option : Text → List Text → RuleOption → Option OptionError
unfolding shape_fault fields_error default_fault
check_option rule seen o =
    let s = spec o in
    or_else (as_option_error rule s.name (shape_fault seen o))
      (or_else (fields_error rule o) (as_option_error rule s.name (default_fault o)))

unfoldable pub check_options : Text → List Text → List RuleOption → Option OptionError
unfolding check_option
check_options rule seen [] = none
check_options rule seen (o ∷ os) =
    let rest = check_options rule ((spec o).name ∷ seen) os in
    or_else (check_option rule seen o) rest

-- `validateOptions`; `none` is nil.
unfoldable pub validate_options : Text → List RuleOption → Option OptionError
unfolding check_options
validate_options rule options = check_options rule [] options
