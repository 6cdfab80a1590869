-- ===== src/Options/Declared.antt =====
-- pkg/lint/options.go: the checks of the options that a rule declares, made when it is registered.
use pawnlint.Base.{
  true, false, ◌&&◌, ◌||◌, not, Option, none, some, List, [], Option-cases, Result-cases,
  Bool-cases, ◌∷◌, Text, inl, inr, codes, All, ◌≡◌, ◌≢◌, refl, ◌≤ℤ◌, map, arith, text_eq_iff,
  if◌then◌else◌,
}
use pawnlint.Options.Fits.{Conforms}
use pawnlint.Options.Conforms.{normalize_option-Conforms}
use pawnlint.Options.Validate.{
  Fault, has_fields, is_object_list, is_invalid, has_any, seen_name, name_fault, constraint_fault,
  default_fault, or_else, field_fault, validate_object_fields, as_option_error, shape_fault,
  fields_error, check_option, check_options, validate_options,
}
use pawnlint.Options.{
  invalid_type, Value, Spec, RuleOption, option, Fields, no_fields, field_of, spec, fields_of,
  field_list, normalize_option,
}

abbrev pub Distinct : List Text → Type 0
Distinct [] = Unit
Distinct (n ∷ ns) = All (λ m. n ≢ m) ns × Distinct ns

-- What holds of an option and of a field alike.
abbrev pub WellDeclared : RuleOption → Type 0
WellDeclared o =
    ((spec o).name ≢ [])
    × ((spec o).name ≢ codes "severity")
    × ((spec o).kind ≢ invalid_type)
    × ((spec o).has_minimum ≡ true
        → (spec o).has_maximum ≡ true
        → (spec o).minimum ≤ℤ (spec o).maximum)
    × ((d : Value)
        → (spec o).default ≡ some d
        → (w : Value) × (normalize_option o d ≡ inr w) × Conforms o w)

abbrev pub names : List RuleOption → List Text
names = map (λ o. (spec o).name)

abbrev pub FieldsWellDeclared : RuleOption → Type 0
FieldsWellDeclared o =
    Distinct (names (field_list (fields_of o)))
    × All (λ f. WellDeclared f × (has_any (fields_of f) ≡ false)) (field_list (fields_of o))

abbrev pub AllWellDeclared : List RuleOption → Type 0
AllWellDeclared os = Distinct (names os) × All WellDeclared os × All FieldsWellDeclared os

or_else-none {ℓ} : {A : Type ℓ} (a b : Option A) → or_else a b ≡ none → (a ≡ none) × (b ≡ none)
or_else-none none b h = (refl, h)
or_else-none (some a) b h = absurd (cc)

as_option_error-none :
    (rule name : Text) (f : Option Fault) → as_option_error rule name f ≡ none → f ≡ none
as_option_error-none rule name none h = refl
as_option_error-none rule name (some f) h = absurd (cc)

-- A name that passes is a name to be used.
name_fault-none :
    (seen : List Text) (n : Text)
    → name_fault seen n ≡ none
    → (n ≢ []) × (n ≢ codes "severity") × (seen_name n seen ≡ false)
unfolding name_fault
name_fault-none seen n h = (
  λ e. ground (arith, h, e, text_eq_iff n []),
  λ e. ground (arith, h, e, text_eq_iff n (codes "severity")),
  ground (arith, h),
)

constraint_fault-none :
    (s : Spec)
    → constraint_fault s ≡ none
    → s.has_minimum ≡ true
    → s.has_maximum ≡ true
    → s.minimum ≤ℤ s.maximum
unfolding constraint_fault
constraint_fault-none s h m n = ground (arith, h, m, n)

default_fault-none :
    (o : RuleOption)
    → default_fault o ≡ none
    → (d : Value) → (spec o).default ≡ some d
    → (w : Value) × (normalize_option o d ≡ inr w) × Conforms o w
unfolding default_fault
default_fault-none o h d e = elim (Result-cases (normalize_option o d)) [
  | inl (bad, failed) ↦ absurd (ground (arith, h, e, failed))
  | inr (w, ok) ↦ (w, ok, normalize_option-Conforms o d w ok)
]

-- What a name's test, and then the tests of the shape and the default, leave.
WellDeclared-intro :
    (seen : List Text) (o : RuleOption)
    → name_fault seen (spec o).name ≡ none
    → is_invalid (spec o).kind ≡ false
    → constraint_fault (spec o) ≡ none
    → default_fault o ≡ none
    → WellDeclared o
WellDeclared-intro seen o n k c d =
    let (some_name, other_name, unseen) = name_fault-none seen (spec o).name n in
    (
      some_name,
      other_name,
      (λ e. ground (arith, k, e)),
      constraint_fault-none (spec o) c,
      default_fault-none o d,
    )

field_fault-none :
    (seen : List Text) (o : RuleOption)
    → field_fault seen o ≡ none
    → WellDeclared o × (has_any (fields_of o) ≡ false) × (seen_name (spec o).name seen ≡ false)
unfolding field_fault
field_fault-none seen o h =
    let (n, rest) = or_else-none (name_fault seen (spec o).name) _ h in
    elim (Bool-cases
      (is_object_list (spec o).kind || is_invalid (spec o).kind || has_any (fields_of o))) [
        | inl bad ↦ absurd (ground (arith, bad, rest))
        | inr good ↦
            let both : or_else (constraint_fault (spec o)) (default_fault o) ≡ none =
              ground (arith, good, rest) in
            let (c, d) = or_else-none (constraint_fault (spec o)) (default_fault o) both in
            (
              WellDeclared-intro seen o n (ground (arith, good)) c d,
              ground (arith, good),
              (name_fault-none seen (spec o).name n).2,
            )
      ]

-- Names that are new to a list which ends in `n` differ from `n`, and are new to the rest.
unseen-cons :
    (n : Text) (seen : List Text) (ms : List Text)
    → All (λ m. seen_name m (n ∷ seen) ≡ false) ms
    → All (λ m. n ≢ m) ms × All (λ m. seen_name m seen ≡ false) ms
unseen-cons n seen [] h = (tt, tt)
unseen-cons n seen (m ∷ ms) h =
    let (others, new) = unseen-cons n seen ms h.1 in
    (((λ e. ground (arith, h.0, e, text_eq_iff n m)), others), (ground (arith, h.0), new))

validate_object_fields-none :
    (rule owner : Text) (seen : List Text) (fs : Fields)
    → validate_object_fields rule owner seen fs ≡ none
    → All (λ m. seen_name m seen ≡ false) (names (field_list fs))
      × Distinct (names (field_list fs))
      × All (λ f. WellDeclared f × (has_any (fields_of f) ≡ false)) (field_list fs)
unfolding validate_object_fields
validate_object_fields-none rule owner seen no_fields h = (tt, tt, tt)
validate_object_fields-none rule owner seen (field_of o fs) h =
    elim (Option-cases (field_fault seen o)) [
      | inr (bad, wrong) ↦ absurd (ground (arith, wrong, h))
      | inl fine ↦
          let (well, flat, unseen) = field_fault-none seen o fine in
          let (fresh_names, distinct, rest) =
            validate_object_fields-none rule owner ((spec o).name ∷ seen) fs
              (ground (arith, fine, h)) in
          let (others, new) = unseen-cons (spec o).name seen (names (field_list fs)) fresh_names in
          ((unseen, new), (others, distinct), ((well, flat), rest))
    ]

no_fields-FieldsWellDeclared :
    (o : RuleOption) → has_any (fields_of o) ≡ false → FieldsWellDeclared o
no_fields-FieldsWellDeclared (option s no_fields) h = (tt, tt)
no_fields-FieldsWellDeclared (option s (field_of f fs)) h = absurd (cc)

shape_fault-none :
    (seen : List Text) (o : RuleOption)
    → shape_fault seen o ≡ none
    → (name_fault seen (spec o).name ≡ none)
      × (is_invalid (spec o).kind ≡ false)
      × (constraint_fault (spec o) ≡ none)
      × (is_object_list (spec o).kind ≡ false → has_any (fields_of o) ≡ false)
unfolding shape_fault
shape_fault-none seen o h =
    let (n, rest) = or_else-none (name_fault seen (spec o).name) _ h in
    elim (Bool-cases (is_invalid (spec o).kind)) [
      | inl bad ↦ absurd (ground (arith, bad, rest))
      | inr good ↦
          let after : Option Fault =
            if not (is_object_list (spec o).kind) && has_any (fields_of o)
            then some has_fields
            else none in
          let (c, fields) =
            or_else-none (constraint_fault (spec o)) after (ground (arith, good, rest)) in
          (n, good, c, λ k. ground (arith, k, fields))
    ]

check_option-none :
    (rule : Text) (seen : List Text) (o : RuleOption)
    → check_option rule seen o ≡ none
    → WellDeclared o × FieldsWellDeclared o × (seen_name (spec o).name seen ≡ false)
unfolding check_option fields_error
check_option-none rule seen o h =
    let (shape, rest) =
      or_else-none (as_option_error rule (spec o).name (shape_fault seen o)) _ h in
    let (fields, default) =
      or_else-none (fields_error rule o) (as_option_error rule (spec o).name (default_fault o))
        rest in
    let (n, k, c, flat) =
      shape_fault-none seen o
        (as_option_error-none rule (spec o).name (shape_fault seen o) shape) in
    (
      WellDeclared-intro seen o n k c
          (as_option_error-none rule (spec o).name (default_fault o) default),
      elim (Bool-cases (is_object_list (spec o).kind)) [
        | inr other ↦ no_fields-FieldsWellDeclared o (flat other)
        | inl objects ↦
            let (unseen, distinct, well) =
              validate_object_fields-none rule (spec o).name [] (fields_of o)
                (ground (arith, objects, fields)) in
            (distinct, well)
      ],
      (name_fault-none seen (spec o).name n).2,
    )

check_options-none :
    (rule : Text) (seen : List Text) (os : List RuleOption)
    → check_options rule seen os ≡ none
    → All (λ m. seen_name m seen ≡ false) (names os)
      × Distinct (names os)
      × All WellDeclared os
      × All FieldsWellDeclared os
unfolding check_options
check_options-none rule seen [] h = (tt, tt, tt, tt)
check_options-none rule seen (o ∷ os) h =
    let (here, later) = or_else-none (check_option rule seen o) _ h in
    let (well, fields, unseen) = check_option-none rule seen o here in
    let (new_names, distinct, rest, rest_fields) =
      check_options-none rule ((spec o).name ∷ seen) os later in
    let (others, new) = unseen-cons (spec o).name seen (names os) new_names in
    ((unseen, new), (others, distinct), (well, rest), (fields, rest_fields))

-- If a rule's options pass, then their names are distinct and may be used, types are valid, ranges
-- are not empty, and a default normalizes, to a value that conforms to its option. The same holds
-- of the fields of each option, none of which has fields of its own.
pub validate_options_sound :
    (rule : Text) (os : List RuleOption) → validate_options rule os ≡ none → AllWellDeclared os
unfolding validate_options
validate_options_sound rule os h =
    let (unseen, distinct, well, fields) = check_options-none rule [] os h in
    (distinct, well, fields)
