-- ===== src/Options/Examples.antt =====
-- Options of a rule that takes a list of limits, and runs of pkg/lint/options.go on them.
use pawnlint.Base.{◌≡◌, refl, true, false, none, some, [], ◌∷◌, Text, codes, pos, inl, inr}
use pawnlint.Options.Fits.{Conforms}
use pawnlint.Options.Conforms.{normalize_option-Conforms}
use pawnlint.Options.Validate.{duplicate, option_error, validate_options}
use pawnlint.Options.Declared.{AllWellDeclared, validate_options_sound}
use pawnlint.Options.{
  OptionType, integer, string, object_list, Value, bool_value, int_value, float_value, string_value,
  list_value, object_value, objects_value, no_items, item, Entries, no_entries, entry, no_objects,
  object, at_least, unknown_field, requires_field, entry_field, Spec, RuleOption, option, no_fields,
  field_of, normalize_option,
}

abbrev plain : Text → OptionType → Spec
plain n k = record {
  name = n;
  summary = [];
  kind = k;
  default = none;
  minimum = pos 0;
  maximum = pos 0;
  has_minimum = false;
  has_maximum = false;
  choices = [];
  required = false;
  validate = none;
}

abbrev name_field : RuleOption
name_field = option (record (plain (codes "name") string) { required = true }) no_fields

abbrev limit_field : RuleOption
limit_field =
    option
      (record (plain (codes "limit") integer) {
        minimum = pos 1;
        has_minimum = true;
        default = some (int_value (pos 3));
      })
      no_fields

abbrev limits : RuleOption
limits =
    option (plain (codes "limits") object_list)
      (field_of name_field (field_of limit_field no_fields))

abbrev one_object : Entries → Value
one_object es = list_value (item (object_value es) no_items)

abbrev given : Value
given = one_object (entry (codes "name") (string_value (codes "printf")) no_entries)

abbrev normalized : Value
normalized = objects_value (
    object
      (entry (codes "limit") (int_value (pos 3))
        (entry (codes "name") (string_value (codes "printf")) no_entries))
      no_objects)

fills_default : normalize_option limits given ≡ inr normalized
unfolding normalize_option pawnlint.Base.text_eq pawnlint.Base.text_lt
fills_default = refl

normalizes_again : normalize_option limits normalized ≡ inr normalized
unfolding normalize_option pawnlint.Base.text_eq pawnlint.Base.text_lt
normalizes_again = refl

needs_name : normalize_option limits (one_object no_entries) ≡ inl (requires_field 1 (codes "name"))
unfolding normalize_option
needs_name = refl

limit_too_low :
    normalize_option limits (
      one_object (
        entry
          (codes "limit")
          (float_value (pos 0) true)
          (entry (codes "name") (string_value []) no_entries)))
    ≡ inl (entry_field 1 (codes "limit") (at_least (pos 1)))
unfolding normalize_option pawnlint.Base.text_eq
limit_too_low = refl

unknown_name :
    normalize_option limits (one_object (entry (codes "max") (bool_value true) no_entries))
    ≡ inl (unknown_field 1 (codes "max"))
unfolding normalize_option pawnlint.Base.text_eq
unknown_name = refl

duplicate_options :
    validate_options (codes "r") (limits ∷ limits ∷ [])
    ≡ some (option_error (codes "r") (codes "limits") duplicate)
unfolding validate_options pawnlint.Base.text_eq
duplicate_options = refl

normalize_option-Conforms_example : Conforms limits normalized
unfolding normalize_option pawnlint.Base.text_eq pawnlint.Base.text_lt
normalize_option-Conforms_example = normalize_option-Conforms limits given normalized refl

validate_options_sound_example : AllWellDeclared (limits ∷ limit_field ∷ [])
unfolding validate_options pawnlint.Base.text_eq
validate_options_sound_example = validate_options_sound (codes "r") (limits ∷ limit_field ∷ []) refl
