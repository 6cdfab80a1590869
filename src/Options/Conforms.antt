-- ===== src/Options/Conforms.antt =====
-- pkg/lint/options.go: what `NormalizeOption` promises of a value that it accepts, described by
-- recursion on the option and without the code's loops.
use pawnlint.Base.{
  ◌≡◌, refl, Bool, true, false, ◌&&◌, not, inl, inr, Bool-cases, Result-cases, Option, none, some,
  List, [], ◌∷◌, Text, ℤ, ltb_ℤ, arith, All, text_eq, text_eq_iff, sym, All-map, Option-cases,
}
use pawnlint.Options.{
  OptionType, boolean, integer, string, string_list, object_list, invalid_type, Value, bool_value,
  int_value, uint_value, float_value, string_value, strings_value, list_value, object_value,
  objects_value, other_value, Objects, Spec, RuleOption, option, Fields, no_fields, field_of,
  integer_option, text_of, string_list_option, contains_choice, all_chosen, is_empty,
  normalize_integer, normalize_string, normalize_strings, object_items, read_objects,
  object_list_option, normalize_boolean, normalize_as, normalize_option_value, checked,
  normalize_option, readers,
}
use pawnlint.Options.Fits.{
  Among, Chosen, InRange, AllEntries, AllPresent, AllObjects, Accepts, Fits, Conforms,
  FieldConforms,
}
use pawnlint.Options.ReadObjects.{Reads, read_objects-Fits}

contains_choice-Among :
    (choices : List Text) (t : Text) → contains_choice choices t ≡ true → Among t choices
unfolding contains_choice
contains_choice-Among [] t h = cc
contains_choice-Among (c ∷ cs) t h = elim (Bool-cases (text_eq c t)) [
  | inl same ↦ inl (sym ((text_eq_iff c t).0 same))
  | inr other ↦ inr (contains_choice-Among cs t (ground (arith, other, h)))
]

choice-Chosen :
    (choices : List Text) (t : Text)
    → (not (is_empty choices) && not (contains_choice choices t)) ≡ false
    → Chosen choices t
choice-Chosen [] t h = inl refl
choice-Chosen (c ∷ cs) t h = inr (contains_choice-Among (c ∷ cs) t (ground (arith, h)))

choices-Chosen :
    (choices ts : List Text)
    → (not (is_empty choices) && not (all_chosen choices ts)) ≡ false
    → All (Chosen choices) ts
choices-Chosen choices [] h = tt
choices-Chosen choices (t ∷ ts) h =
    (choice-Chosen choices t (ground (arith, h)), choices-Chosen choices ts (ground (arith, h)))

normalize_integer-Fits :
    (s : Spec) (o : Option ℤ) (w : Value)
    → normalize_integer s o ≡ inr w
    → (i : ℤ) × (w ≡ int_value i) × InRange s i
normalize_integer-Fits s none w e = absurd (cc)
normalize_integer-Fits s (some i) w e = elim (Bool-cases (s.has_minimum && ltb_ℤ i s.minimum)) [
  | inl low ↦ absurd (ground (arith, low, e))
  | inr above ↦ elim (Bool-cases (s.has_maximum && ltb_ℤ s.maximum i)) [
    | inl high ↦ absurd (ground (arith, above, high, e))
    | inr below ↦ (
      i,
      ground (arith, above, below, e),
      (λ m. ground (arith, above, m), λ m. ground (arith, below, m)),
    )
  ]
]

normalize_string-Fits :
    (s : Spec) (o : Option Text) (w : Value)
    → normalize_string s o ≡ inr w
    → (t : Text) × (w ≡ string_value t) × Chosen s.choices t
normalize_string-Fits s none w e = absurd (cc)
normalize_string-Fits s (some t) w e =
    elim (Bool-cases (not (is_empty s.choices) && not (contains_choice s.choices t))) [
      | inl bad ↦ absurd (ground (arith, bad, e))
      | inr good ↦ (t, ground (arith, good, e), choice-Chosen s.choices t good)
    ]

normalize_strings-Fits :
    (s : Spec) (o : Option (List Text)) (w : Value)
    → normalize_strings s o ≡ inr w
    → (ts : List Text) × (w ≡ strings_value ts) × All (Chosen s.choices) ts
normalize_strings-Fits s none w e = absurd (cc)
normalize_strings-Fits s (some ts) w e =
    elim (Bool-cases (not (is_empty s.choices) && not (all_chosen s.choices ts))) [
      | inl bad ↦ absurd (ground (arith, bad, e))
      | inr good ↦ (ts, ground (arith, good, e), choices-Chosen s.choices ts good)
    ]

normalize_boolean-Fits :
    (v w : Value) → normalize_boolean v ≡ inr w → (b : Bool) × (w ≡ bool_value b)
normalize_boolean-Fits (bool_value b) w e = (b, cc)
normalize_boolean-Fits (int_value i) w e = absurd (cc)
normalize_boolean-Fits (uint_value n) w e = absurd (cc)
normalize_boolean-Fits (float_value i f) w e = absurd (cc)
normalize_boolean-Fits (string_value t) w e = absurd (cc)
normalize_boolean-Fits (strings_value ts) w e = absurd (cc)
normalize_boolean-Fits (list_value vs) w e = absurd (cc)
normalize_boolean-Fits (object_value es) w e = absurd (cc)
normalize_boolean-Fits (objects_value os) w e = absurd (cc)
normalize_boolean-Fits other_value w e = absurd (cc)

module _ (P : Text → Value → Type 0) (fs : Fields) (h : All (Reads P) (readers fs)) where
  object_list_option-Fits :
      (v w : Value)
      → object_list_option (readers fs) v ≡ inr w
      → (os : Objects) × (w ≡ objects_value os)
        × AllObjects (λ es. AllEntries P es × AllPresent es fs) os
  unfolding object_list_option
  object_list_option-Fits v w e = elim (Option-cases (object_items v)) [
    | inl nothing ↦ absurd (ground (arith, nothing, e))
    | inr (items, found) ↦ elim (Result-cases (read_objects (readers fs) 1 items)) [
      | inl (bad, failed) ↦ absurd (ground (arith, found, failed, e))
      | inr (os, ok) ↦ (os, ground (arith, found, ok, e), read_objects-Fits P fs h 1 items os ok)
    ]
  ]

  normalize_as-Fits :
      (k : OptionType) (s : Spec) (v w : Value)
      → normalize_as k s (readers fs) v ≡ inr w
      → Fits k s fs P w
  unfolding normalize_as
  normalize_as-Fits boolean s v w e = normalize_boolean-Fits v w e
  normalize_as-Fits integer s v w e = normalize_integer-Fits s (integer_option v) w e
  normalize_as-Fits string s v w e = normalize_string-Fits s (text_of v) w e
  normalize_as-Fits string_list s v w e = normalize_strings-Fits s (string_list_option v) w e
  normalize_as-Fits object_list s v w e = object_list_option-Fits v w e
  normalize_as-Fits invalid_type s v w e = absurd (cc)

checked-Accepts :
    (validate : Option (Value → Option Text)) (v w : Value)
    → checked validate v ≡ inr w
    → (v ≡ w) × Accepts validate w
checked-Accepts none v w e = (cc, tt)
checked-Accepts (some validate) v w e = elim (Option-cases (validate v)) [
  | inl fine ↦ let same : v ≡ w = ground (arith, fine, e) in (same, rw same at fine)
  | inr (bad, refused) ↦ absurd (ground (arith, refused, e))
]

mutual
  unfolding normalize_option Conforms

  option-Conforms : (o : RuleOption) (v w : Value) → normalize_option o v ≡ inr w → Conforms o w
  option-Conforms (option s fs) v w e =
      elim (Result-cases (normalize_option_value s (readers fs) v)) [
        | inl (bad, failed) ↦ absurd (ground (arith, failed, e))
        | inr (u, ok) ↦
            let (same, accepted) = checked-Accepts s.validate u w (ground (arith, ok, e)) in
            let fits = normalize_as-Fits (FieldConforms fs) fs (readers-Reads fs) s.kind s v u ok in
            (rw same at fits, accepted)
      ]

  readers-Reads : (fs : Fields) → All (Reads (FieldConforms fs)) (readers fs)
  readers-Reads no_fields = tt
  readers-Reads (field_of (option s gs) fs) = (
    λ v w n. inl (refl, option-Conforms (option s gs) v w n),
    All-map (Reads (FieldConforms fs)) (Reads (FieldConforms (field_of (option s gs) fs)))
        (readers fs) (λ r read v w n. inr (read v w n)) (readers-Reads fs),
  )

-- A value that NormalizeOption returns conforms to the option: it has the option's type, keeps its
-- range and its choices, each entry of an object conforms to a field of that name, fields that are
-- required or have a default are there, and the option's own check accepts it.
pub normalize_option-Conforms :
    (o : RuleOption) (v w : Value) → normalize_option o v ≡ inr w → Conforms o w
normalize_option-Conforms = option-Conforms
