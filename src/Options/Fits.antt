-- ===== src/Options/Fits.antt =====
-- pkg/lint/options.go: what a normalized value is to satisfy, described by recursion on the option.
use pawnlint.Base.{◌≡◌, Bool, true, ◌⊎◌, Option, none, some, List, [], ◌∷◌, Text, ℤ, ◌≤ℤ◌, All}
use pawnlint.Options.{
  OptionType, boolean, integer, string, string_list, object_list, invalid_type, Value, bool_value,
  int_value, string_value, strings_value, objects_value, Entries, no_entries, entry, Objects,
  no_objects, object, Spec, RuleOption, option, Fields, no_fields, field_of, spec, field_list,
  has_key,
}

abbrev pub Among : Text → List Text → Type 0
Among t [] = ⊥
Among t (c ∷ cs) = (t ≡ c) ⊎ Among t cs

-- Where an option lists choices, the text is one of them.
abbrev pub Chosen : List Text → Text → Type 0
Chosen choices t = (choices ≡ []) ⊎ Among t choices

abbrev pub InRange : Spec → ℤ → Type 0
InRange s i = (s.has_minimum ≡ true → s.minimum ≤ℤ i) × (s.has_maximum ≡ true → i ≤ℤ s.maximum)

abbrev pub AllEntries : (Text → Value → Type 0) → Entries → Type 0
AllEntries P no_entries = Unit
AllEntries P (entry n v es) = P n v × AllEntries P es

-- A field that is required, or has a default, is there.
abbrev pub Present : Entries → Spec → Type 0
Present es s =
    ((s.required ≡ true) ⊎ ((d : Value) × (s.default ≡ some d))) → has_key s.name es ≡ true

abbrev pub AllPresent : Entries → Fields → Type 0
AllPresent es fs = All (λ o. Present es (spec o)) (field_list fs)

abbrev pub AllObjects : (Entries → Type 0) → Objects → Type 0
AllObjects P no_objects = Unit
AllObjects P (object es os) = P es × AllObjects P os

abbrev pub Accepts : Option (Value → Option Text) → Value → Type 0
Accepts none v = Unit
Accepts (some validate) v = validate v ≡ none

-- A value of the option's type that keeps the option's constraints. `P` is what is asked of the
-- entry of an object.
abbrev pub Fits : OptionType → Spec → Fields → (Text → Value → Type 0) → Value → Type 0
Fits boolean s fs P v = (b : Bool) × (v ≡ bool_value b)
Fits integer s fs P v = (i : ℤ) × (v ≡ int_value i) × InRange s i
Fits string s fs P v = (t : Text) × (v ≡ string_value t) × Chosen s.choices t
Fits string_list s fs P v = (ts : List Text) × (v ≡ strings_value ts) × All (Chosen s.choices) ts
Fits object_list s fs P v =
    (os : Objects) × (v ≡ objects_value os)
    × AllObjects (λ es. AllEntries P es × AllPresent es fs) os
Fits invalid_type s fs P v = ⊥

unfoldable mutual
  pub Conforms : RuleOption → Value → Type 0
  Conforms (option s fs) v = Fits s.kind s fs (FieldConforms fs) v × Accepts s.validate v

  -- The name is that of a field, and the value conforms to it.
  pub FieldConforms : Fields → Text → Value → Type 0
  FieldConforms no_fields n v = ⊥
  FieldConforms (field_of (option s gs) fs) n v =
      ((s.name ≡ n) × Conforms (option s gs) v) ⊎ FieldConforms fs n v
