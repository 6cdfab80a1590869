-- ===== src/Registry/Examples.antt =====
-- A registry with a rule, an alias and refused calls: runs of pkg/lint/registry.go.
use pawnlint.Base.{◌≡◌, ◌↔◌, refl, true, false, none, some, List, [], ◌∷◌, Text, codes, ◌⊎◌}
use pawnlint.Diagnostic.{warning, correctness}
use pawnlint.Registry.{
  Metadata, Rule, Entry, nil_rule, duplicate_rule, conflicts_with_alias, unknown_target, completed,
  register, resolve_id, entry_at, find_entry, lookup, ids,
}
use pawnlint.Registry.Book.{book_resolve, book_find, Call, registering, aliasing, make_all}
use pawnlint.Registry.Specified.{built, book_built, registry_refines}
use pawnlint.Registry.Profiles.{
  profile_recommended, profile_strict, curated, enable_under_profile, enabled_for_profile,
}
use pawnlint.Registry.Indexed.{Enables, enabled_for_profile_iff}
use pawnlint.Registry.Canonical.{Accepted, Refused, register_effect, resolve_id_canonical}

abbrev rule_named : Text → Rule
rule_named id = record {
  number = 7;
  metadata = record {
    id = id;
    name = [];
    summary = [];
    explanation = [];
    category = correctness;
    default_severity = warning;
    analysis_level = 1;
    requirements = 0;
    scope = 0;
    stability = 0;
    default_enabled = false;
    fixable = false;
    unsafe_fix = false;
    tags = [];
    options = [];
    config_example = [];
  };
}

abbrev const : Rule
const = rule_named (codes "prefer-const")

abbrev calls : List Call
calls =
    registering (some const)
    ∷ aliasing (codes "use-const") (codes "prefer-const")
    ∷ registering (some const)
    ∷ registering (some (rule_named (codes "use-const")))
    ∷ aliasing (codes "const") (codes "use-const")
    ∷ registering none
    ∷ []

results :
    (built calls).1
    ≡ none
      ∷ none
      ∷ some (duplicate_rule (codes "prefer-const"))
      ∷ some (conflicts_with_alias (codes "use-const"))
      ∷ some (unknown_target (codes "const") (codes "use-const"))
      ∷ some nil_rule
      ∷ []
unfolding pawnlint.Registry.Book.make_all pawnlint.Base.text_eq pawnlint.Registry.new_registrar
results = refl

abbrev entry_of_const : Entry
entry_of_const = record { rule = const; meta = completed const.metadata }

level_completed : (completed const.metadata).requirements ≡ 29
unfolding completed
level_completed = refl

const_is_listed : ids (built calls).0 ≡ codes "prefer-const" ∷ []
unfolding ids pawnlint.Registry.Book.make_all pawnlint.Base.text_eq pawnlint.Registry.new_registrar
const_is_listed = refl

strict_enables :
    enabled_for_profile curated (built calls).0 profile_strict (codes "prefer-const") ≡ some warning
unfolding enabled_for_profile pawnlint.Registry.Book.make_all pawnlint.Registry.new_registrar
    curated
strict_enables = refl

recommended_does_not :
    enabled_for_profile curated (built calls).0 profile_recommended (codes "prefer-const") ≡ none
unfolding enabled_for_profile pawnlint.Registry.Book.make_all pawnlint.Registry.new_registrar
recommended_does_not = refl

enabled_later :
    enabled_for_profile
      (enable_under_profile curated profile_strict (codes "mine"))
      (built (registering (some (rule_named (codes "mine"))) ∷ [])).0
      profile_strict
      (codes "mine")
    ≡ some warning
unfolding enabled_for_profile pawnlint.Registry.Book.make_all pawnlint.Registry.new_registrar
    enable_under_profile curated
enabled_later = refl

registry_refines_example :
    ((built calls).1 ≡ (book_built calls).1)
    × (resolve_id (built calls).0 (codes "use-const")
        ≡ book_resolve (book_built calls).0 (codes "use-const"))
    × (find_entry (built calls).0 (codes "use-const")
        ≡ book_find (book_built calls).0 (codes "use-const"))
registry_refines_example = registry_refines calls (codes "use-const")

resolve_id_canonical_example :
    (m : Metadata) × (lookup (built calls).0 (codes "use-const") ≡ some m)
    × (m.id ≡ codes "prefer-const")
    × (resolve_id (built calls).0 (codes "prefer-const") ≡ some (codes "prefer-const", false))
unfolding resolve_id pawnlint.Registry.Book.make_all pawnlint.Base.text_eq
    pawnlint.Registry.new_registrar
resolve_id_canonical_example =
    resolve_id_canonical calls (codes "use-const") (codes "prefer-const") true refl

register_effect_example :
    Accepted
      (built calls).0
      (rule_named (codes "new"))
      (register (built calls).0 (some (rule_named (codes "new"))))
    ⊎ Refused
        (built calls).0
        (rule_named (codes "new"))
        (register (built calls).0 (some (rule_named (codes "new"))))
register_effect_example = register_effect calls (rule_named (codes "new"))

enabled_for_profile_iff_example :
    (enabled_for_profile curated (built calls).0 profile_strict (codes "prefer-const")
      ≡ some warning)
    ↔ ((e : Entry) × (entry_at (built calls).0 (codes "prefer-const") ≡ some e)
        × Enables curated profile_strict warning e)
enabled_for_profile_iff_example =
    enabled_for_profile_iff curated calls profile_strict (codes "prefer-const") warning
