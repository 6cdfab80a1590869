-- ===== src/Options/Values.antt =====
-- pkg/lint/options.go: values by their dynamic type, and the options that a rule declares.
use pawnlint.Base.{ℕ, Bool, Option, List, [], ◌∷◌, Text, ℤ}

-- The last is any other number.
pub data OptionType : Type 0 where
  boolean integer string string_list object_list invalid_type : OptionType

mutual
  pub data Value : Type 0 where
    bool_value : Bool → Value
    -- int, int8, int16, int32 and int64, then uint, uint8, uint16, uint32 and uint64.
    int_value : ℤ → Value
    uint_value : ℕ → Value
    -- A float64 by the int64 it converts to, and whether that is equal to it.
    float_value : ℤ → Bool → Value
    string_value : Text → Value
    -- []string, []any, map[string]any and []map[string]any.
    strings_value : List Text → Value
    list_value : Items → Value
    object_value : Entries → Value
    objects_value : Objects → Value
    other_value : Value

  pub data Items : Type 0 where
    no_items : Items
    item : Value → Items → Items

  pub data Entries : Type 0 where
    no_entries : Entries
    entry : Text → Value → Entries → Entries

  pub data Objects : Type 0 where
    no_objects : Objects
    object : Entries → Objects → Objects

-- The errors of `normalizeOptionValue`, and `rejected` for those of a rule's own `Validate`.
pub data ValueError : Type 0 where
  must_be_boolean must_be_integer must_be_string must_be_strings must_be_objects : ValueError
  has_invalid_type : ValueError
  at_least at_most : ℤ → ValueError
  one_of entries_one_of : List Text → ValueError
  entry_must_be_object : ℕ → ValueError
  unknown_field requires_field : ℕ → Text → ValueError
  entry_field entry_default : ℕ → Text → ValueError → ValueError
  rejected : Text → ValueError

-- `Option`, less its fields; `validate` is `none` for nil.
pub record Spec : Type 0 where
  pub name : Text
  pub summary : Text
  pub kind : OptionType
  pub default : Option Value
  pub minimum : ℤ
  pub maximum : ℤ
  pub has_minimum : Bool
  pub has_maximum : Bool
  pub choices : List Text
  pub required : Bool
  pub validate : Option (Value → Option Text)

mutual
  pub data RuleOption : Type 0 where
    option : Spec → Fields → RuleOption

  pub data Fields : Type 0 where
    no_fields : Fields
    field_of : RuleOption → Fields → Fields

abbrev pub spec : RuleOption → Spec
spec (option s fs) = s

abbrev pub fields_of : RuleOption → Fields
fields_of (option s fs) = fs

abbrev pub field_list : Fields → List RuleOption
field_list no_fields = []
field_list (field_of o fs) = o ∷ field_list fs
