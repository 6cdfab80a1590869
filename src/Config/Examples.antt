-- ===== src/Config/Examples.antt =====
-- A table of rules over a registry with one rule and one alias: runs of internal/config/resolve.go.
use pawnlint.Base.{◌≡◌, refl, true, false, none, some, [], ◌∷◌, codes, pos}
use pawnlint.Diagnostic.{error, hint, maintainability}
use pawnlint.Options.{
  integer, bool_value, int_value, float_value, string_value, object_value, Entries, no_entries,
  entry, RuleOption, option, no_fields,
}
use pawnlint.Options.Fits.{AllEntries}
use pawnlint.Registry.{Rule, Registrar}
use pawnlint.Registry.Book.{registering, aliasing}
use pawnlint.Registry.Specified.{built}
use pawnlint.Config.{
  unknown_rule, configured_twice, invalid_severity, parse_rule_table, append_rule_migrations,
  merge_enabled,
}
use pawnlint.Config.Meaning.{RuleEffect}
use pawnlint.Config.Table.{parse_rule_table_takes_effect}

abbrev maximum_option : RuleOption
maximum_option =
    option
      (record {
        name = codes "maximum";
        summary = [];
        kind = integer;
        default = some (int_value (pos 10));
        minimum = pos 1;
        maximum = pos 0;
        has_minimum = true;
        has_maximum = false;
        choices = [];
        required = false;
        validate = none;
      })
      no_fields

abbrev complexity : Rule
complexity = record {
  number = 1;
  metadata = record {
    id = codes "complexity";
    name = [];
    summary = [];
    explanation = [];
    category = maintainability;
    default_severity = hint;
    analysis_level = 0;
    requirements = 0;
    scope = 0;
    stability = 0;
    default_enabled = true;
    fixable = false;
    unsafe_fix = false;
    tags = [];
    options = maximum_option ∷ [];
    config_example = [];
  };
}

abbrev registry : Registrar
registry =
    (built (registering (some complexity) ∷ aliasing (codes "cc") (codes "complexity") ∷ [])).0

abbrev table : Entries
table =
    entry (codes "cc")
      (object_value (
        entry (codes "maximum") (float_value (pos 7) true)
          (entry (codes "severity") (string_value (codes "error")) no_entries)))
      no_entries

no_errors : (parse_rule_table registry table).errs ≡ []
unfolding parse_rule_table pawnlint.Registry.Book.make_all pawnlint.Registry.new_registrar
no_errors = refl

alias_is_reported :
    (parse_rule_table registry table).migrations
    ≡ record { deprecated = codes "cc"; replacement = codes "complexity" } ∷ []
unfolding parse_rule_table pawnlint.Registry.Book.make_all pawnlint.Registry.new_registrar
alias_is_reported = refl

enabled_by_table :
    merge_enabled (λ id. none) (parse_rule_table registry table) (codes "complexity") ≡ some error
unfolding merge_enabled parse_rule_table pawnlint.Registry.Book.make_all
    pawnlint.Registry.new_registrar
enabled_by_table = refl

value_normalized :
    (parse_rule_table registry table).rule_config (codes "complexity")
    ≡ some (entry (codes "maximum") (int_value (pos 7)) no_entries)
unfolding parse_rule_table pawnlint.Registry.Book.make_all pawnlint.Registry.new_registrar
value_normalized = refl

same_rule_twice :
    (parse_rule_table registry (
      entry
        (codes "cc")
        (string_value (codes "off"))
        (entry (codes "complexity") (string_value (codes "hint")) no_entries))).errs
    ≡ configured_twice (codes "complexity") (codes "cc") (codes "complexity") ∷ []
unfolding parse_rule_table pawnlint.Registry.Book.make_all pawnlint.Registry.new_registrar
same_rule_twice = refl

errors_are_collected :
    (parse_rule_table registry (
      entry (codes "a") (bool_value true) (
        entry
          (codes "complexity")
          (object_value (entry (codes "severity") (bool_value true) no_entries))
          no_entries))).errs
    ≡ unknown_rule (codes "a") ∷ invalid_severity (codes "complexity") [] ∷ []
unfolding parse_rule_table pawnlint.Registry.Book.make_all pawnlint.Registry.new_registrar
errors_are_collected = refl

first_migration_kept :
    append_rule_migrations (record { deprecated = codes "b"; replacement = codes "x" } ∷ []) (
      record { deprecated = codes "b"; replacement = codes "y" }
      ∷ record { deprecated = codes "a"; replacement = codes "z" }
      ∷ [])
    ≡ record { deprecated = codes "a"; replacement = codes "z" }
      ∷ record { deprecated = codes "b"; replacement = codes "x" }
      ∷ []
unfolding append_rule_migrations pawnlint.Base.Sort.sort pawnlint.Base.text_eq
    pawnlint.Base.Sort.insert pawnlint.Base.text_lt
first_migration_kept = refl

parse_rule_table_takes_effect_example :
    AllEntries
      (λ configured v. RuleEffect registry configured v (parse_rule_table registry table))
      table
unfolding parse_rule_table pawnlint.Registry.Book.make_all pawnlint.Registry.new_registrar
parse_rule_table_takes_effect_example = parse_rule_table_takes_effect registry table refl
