-- ===== src/Registry/Profiles.antt =====
-- pkg/lint/registry.go: the profiles, and the rules that each enables.
use pawnlint.Base.{
  ◌==◌, Bool, true, false, ◌||◌, Option, none, some, List, [], ◌∷◌, Text, codes, text_eq, ◌&&◌,
  if◌then◌else◌,
}
use pawnlint.Diagnostic.{Severity}
use pawnlint.Registry.{Metadata, stability_preview, Entry, Registrar}

abbrev pub profile_recommended : Text
profile_recommended = codes "recommended"

abbrev pub profile_strict : Text
profile_strict = codes "strict"

abbrev pub profile_all : Text
profile_all = codes "all"

-- `AllProfiles`
abbrev pub all_profiles : List Text
all_profiles = profile_recommended ∷ profile_strict ∷ profile_all ∷ []

-- `AllowedProfile`
unfoldable pub allowed_profile : Text → Bool
unfolding text_eq
allowed_profile p =
    text_eq p profile_recommended || text_eq p profile_strict || text_eq p profile_all

-- `curate`: the rules added to a profile, `none` for a profile that has no list.
abbrev pub Curated : Type 0
Curated = Text → Option (List Text)

abbrev pub strict_rules : List Text
strict_rules =
    codes "unused-local"
    ∷ codes "unused-parameter"
    ∷ codes "unused-function"
    ∷ codes "unused-global"
    ∷ codes "shadowed-variable"
    ∷ codes "unused-label"
    ∷ codes "constant-condition"
    ∷ codes "duplicate-condition"
    ∷ codes "redundant-boolean-comparison"
    ∷ codes "identical-branches"
    ∷ codes "dead-write"
    ∷ codes "redundant-initialization"
    ∷ codes "possibly-uninitialized"
    ∷ codes "discarded-resource-handle"
    ∷ codes "mismatched-resource-handle"
    ∷ codes "unreleased-resource-handle"
    ∷ codes "overwritten-resource-handle"
    ∷ codes "recursive-call"
    ∷ codes "large-local-array"
    ∷ codes "repeated-strlen-in-loop"
    ∷ codes "callback-signature"
    ∷ codes "misspelled-callback"
    ∷ codes "unimplemented-function"
    ∷ codes "deprecated-function"
    ∷ codes "legacy-include"
    ∷ codes "native-argument-count"
    ∷ codes "deprecated-native"
    ∷ codes "format-argument-count"
    ∷ codes "buffer-size"
    ∷ codes "target-native-availability"
    ∷ codes "target-constant-availability"
    ∷ codes "float-equality"
    ∷ codes "non-public-callback"
    ∷ codes "invalid-sentinel-comparison"
    ∷ codes "unescaped-sql-format"
    ∷ codes "discarded-repeating-timer"
    ∷ codes "raw-tick-subtraction"
    ∷ codes "sscanf-format-argument-count"
    ∷ codes "settimerex-format-argument-count"
    ∷ codes "confusable-identifier"
    ∷ codes "inconsistent-enum-prefix"
    ∷ codes "cyclomatic-complexity"
    ∷ codes "boolean-complexity"
    ∷ codes "maximum-nesting"
    ∷ codes "too-many-parameters"
    ∷ codes "prefer-const"
    ∷ codes "redundant-forward"
    ∷ codes "redundant-tag"
    ∷ codes "redundant-else"
    ∷ codes "incomplete-enum-switch"
    ∷ codes "narrowing-conversion"
    ∷ codes "signedness-mismatch"
    ∷ codes "macro-repeated-parameter"
    ∷ codes "statement-macro-hazard"
    ∷ codes "loop-invariant-call"
    ∷ codes "overwritten-copy"
    ∷ codes "repeated-format-work"
    ∷ codes "string-concatenation-loop"
    ∷ []

-- Its initial value.
unfoldable pub curated : Curated
unfolding text_eq
curated p = if text_eq p profile_strict then some strict_rules else none

abbrev pub in_list : Text → List Text → Bool
in_list id [] = false
in_list id (x ∷ xs) = text_eq x id || in_list id xs

-- `EnableUnderProfile`
unfoldable pub enable_under_profile : Curated → Text → Text → Curated
enable_under_profile c p id = elim (c p) [
  | none ↦ c
  | some rules ↦ λ q. if text_eq p q then some (id ∷ rules) else c q
]

abbrev pub lists : Curated → Text → Text → Bool
lists c p id = elim (c p) [ none ↦ false | some rules ↦ in_list id rules ]

-- `profileEnables`; under `strict` it calls itself for `recommended`.
unfoldable pub enables_by_default : Metadata → Bool
enables_by_default m = if m.stability == stability_preview then false else m.default_enabled

unfoldable pub profile_enables : Curated → Text → Text → Metadata → Bool
unfolding enables_by_default text_eq
profile_enables c p id m =
    if m.stability == stability_preview
    then false
    else if text_eq p profile_all
    then true
    else if text_eq p profile_strict
    then lists c profile_strict id || enables_by_default m
    else m.default_enabled

-- A round of the loop of `EnabledForProfile`, on the map so far, and the loop over the entries.
unfoldable pub enable_entry :
    Curated → Text → Entry → (Text → Option Severity) → Text → Option Severity
unfolding profile_enables text_eq
enable_entry c p e enabled id =
    if profile_enables c p e.meta.id e.meta && text_eq e.meta.id id
    then some e.meta.default_severity
    else enabled id

unfoldable pub enable_entries :
    Curated → Text → List Entry → (Text → Option Severity) → Text → Option Severity
unfolding enable_entry
enable_entries c p [] enabled = enabled
enable_entries c p (e ∷ es) enabled = enable_entries c p es (enable_entry c p e enabled)

-- `EnabledForProfile`
unfoldable pub enabled_for_profile : Curated → Registrar → Text → Text → Option Severity
unfolding enable_entries
enabled_for_profile c reg p = enable_entries c p reg.entries (λ id. none)
