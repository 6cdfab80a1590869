-- ===== src/Config.antt =====
-- internal/config/resolve.go: how a table of rules in a configuration is read. A Go map that is
-- only looked up is a function; one that is iterated is the list of its entries in the order of
-- their keys, which is the order of the code except in `validateRuleOptions`, where it has none.
pub mod Keeps
pub mod Meaning
pub mod Errors
pub mod Effect
pub mod Table
mod Examples
use pawnlint.Base.{
  Bool, true, false, Option, none, some, List, [], ◌∷◌, ◌++◌, Text, inl, inr, text_eq, codes,
  if◌then◌else◌,
}
use pawnlint.Base.Sort.{by_key, sort, text_key}
use pawnlint.Diagnostic.{Severity, off, parse_severity}
use pawnlint.Options.{
  Value, string_value, object_value, Entries, no_entries, entry, ValueError, RuleOption, spec,
  normalize_option,
}
use pawnlint.Registry.{Registrar, resolve_id, lookup}

-- The errors, by the names they print.
pub data ConfigError : Type 0 where
  unknown_rule bad_rule_value : Text → ConfigError
  configured_twice : Text → Text → Text → ConfigError
  invalid_severity unknown_option : Text → Text → ConfigError
  bad_option : Text → Text → ValueError → ConfigError

pub record RuleMigration : Type 0 where
  pub deprecated : Text
  pub replacement : Text

-- What `parseRuleTable` has collected.
pub record Parsed : Type 0 where
  pub enabled : Text → Option Severity
  pub disabled : Text → Bool
  pub rule_config : Text → Option Entries
  pub migrations : List RuleMigration
  pub errs : List ConfigError
  pub seen : Text → Option Text

unfoldable pub nothing_parsed : Parsed
nothing_parsed = record {
  enabled = λ id. none;
  disabled = λ id. false;
  rule_config = λ id. none;
  migrations = [];
  errs = [];
  seen = λ id. none;
}

-- `known[name]`: of two options with one name, the map keeps the later.
unfoldable pub find_option : Text → List RuleOption → Option RuleOption
find_option name [] = none
find_option name (o ∷ os) = elim (find_option name os) [
  | some later ↦ some later
  | none ↦ if text_eq (spec o).name name then some o else none
]

-- A round of the loop of `validateRuleOptions`: the value that is kept, and the error.
unfoldable pub validate_rule_option :
    Text → List RuleOption → Text → Value → Value × List ConfigError
unfolding find_option normalize_option
validate_rule_option rule options name value = elim (find_option name options) [
  | none ↦ (value, unknown_option rule name ∷ [])
  | some o ↦ elim (normalize_option o value) [
    | inl e ↦ (value, bad_option rule name e ∷ [])
    | inr normalized ↦ (normalized, [])
  ]
]

-- `validateRuleOptions`: the values afterwards, and the errors.
unfoldable pub validate_rule_options : Text → List RuleOption → Entries → Entries × List ConfigError
unfolding validate_rule_option
validate_rule_options rule options no_entries = (no_entries, [])
validate_rule_options rule options (entry n v es) =
    let rest = validate_rule_options rule options es in
    let here = validate_rule_option rule options n v in (entry n here.0 rest.0, here.1 ++ rest.1)

abbrev pub find_value : Text → Entries → Option Value
find_value k no_entries = none
find_value k (entry n v es) = elim (text_eq n k) [ true ↦ some v | false ↦ find_value k es ]

-- `delete(cfg, k)`
abbrev pub without : Text → Entries → Entries
without k no_entries = no_entries
without k (entry n v es) = let rest = without k es in if text_eq n k then rest else entry n v rest

unfoldable pub fail : ConfigError → Parsed → Parsed
fail e p = record p { errs = p.errs ++ e ∷ [] }

unfoldable pub disable : Text → Parsed → Parsed
disable id p = record p { disabled = λ k. if text_eq id k then true else p.disabled k }

unfoldable pub enable : Text → Severity → Parsed → Parsed
enable id severity p = record p {
  enabled = λ k. if text_eq id k then some severity else p.enabled k;
}

-- A severity other than off enables the rule, off disables it.
unfoldable pub accept_severity : Text → Severity → Parsed → Parsed
unfolding disable enable
accept_severity id off p = disable id p
accept_severity id severity p = enable id severity p

-- A severity by its name, for the rule that was configured by another name.
unfoldable pub set_severity : Text → Text → Text → Parsed → Parsed
unfolding fail accept_severity parse_severity
set_severity id configured text p =
    let (severity, ok) = parse_severity text in
    if ok then accept_severity id severity p else fail (invalid_severity configured text) p

-- The text of a value that should be one: the empty text for any other.
abbrev pub string_of : Value → Text
string_of (string_value t) = t
string_of _ = []

-- The severity that a table sets, if it sets one.
unfoldable pub raw_severity : Text → Text → Option Value → Parsed → Parsed
unfolding set_severity
raw_severity id configured none p = p
raw_severity id configured (some raw) p = set_severity id configured (string_of raw) p

-- The options of a rule; those of the zero metadata where there is none.
unfoldable pub options_of : Registrar → Text → List RuleOption
unfolding lookup
options_of reg id = elim (lookup reg id) [ none ↦ [] | some m ↦ m.options ]

unfoldable pub set_options : Registrar → Text → Text → Entries → Parsed → Parsed
unfolding validate_rule_options options_of
set_options reg id configured es p =
    let checked_values =
      validate_rule_options configured (options_of reg id) (without (codes "severity") es) in
    record p {
      errs = p.errs ++ checked_values.1;
      rule_config = λ k. if text_eq id k then some checked_values.0 else p.rule_config k;
    }

-- The switch on the type of a rule's value.
unfoldable pub set_rule : Registrar → Text → Text → Value → Parsed → Parsed
unfolding set_severity raw_severity set_options fail
set_rule reg id configured (string_value t) p = set_severity id configured t p
set_rule reg id configured (object_value es) p =
    set_options reg id configured es
      (raw_severity id configured (find_value (codes "severity") es) p)
set_rule reg id configured _ p = fail (bad_rule_value configured) p

unfoldable pub see : Text → Text → Bool → Parsed → Parsed
see id configured deprecated p = record p {
  seen = λ k. if text_eq id k then some configured else p.seen k;
  migrations =
      if deprecated
      then p.migrations ++ record { deprecated = configured; replacement = id } ∷ []
      else p.migrations;
}

-- The rule that a name stands for is configured, unless another name did so before.
unfoldable pub configure : Registrar → Text → Text → Bool → Value → Option Text → Parsed → Parsed
unfolding see set_rule fail
configure reg id configured deprecated v (some previous) p =
    fail (configured_twice id previous configured) p
configure reg id configured deprecated v none p =
    set_rule reg id configured v (see id configured deprecated p)

unfoldable pub configure_resolved :
    Registrar → Text → Value → Option (Text × Bool) → Parsed → Parsed
unfolding configure fail
configure_resolved reg configured v none p = fail (unknown_rule configured) p
configure_resolved reg configured v (some (id, deprecated)) p =
    configure reg id configured deprecated v (p.seen id) p

-- A round of the loop of `parseRuleTable`.
unfoldable pub parse_rule : Registrar → Text → Value → Parsed → Parsed
unfolding resolve_id configure_resolved
parse_rule reg configured v p = configure_resolved reg configured v (resolve_id reg configured) p

unfoldable pub parse_rules : Registrar → Entries → Parsed → Parsed
unfolding parse_rule
parse_rules reg no_entries p = p
parse_rules reg (entry configured v es) p = parse_rules reg es (parse_rule reg configured v p)

-- `parseRuleTable`
unfoldable pub parse_rule_table : Registrar → Entries → Parsed
unfolding parse_rules nothing_parsed
parse_rule_table reg table = parse_rules reg table nothing_parsed

abbrev pub migrated : Text → List RuleMigration → Bool
migrated d [] = false
migrated d (m ∷ ms) = elim (text_eq m.deprecated d) [ true ↦ true | false ↦ migrated d ms ]

unfoldable pub add_migrations : List RuleMigration → List RuleMigration → List RuleMigration
add_migrations existing [] = existing
add_migrations existing (m ∷ ms) =
    if migrated m.deprecated existing
    then add_migrations existing ms
    else add_migrations (existing ++ m ∷ []) ms

-- `appendRuleMigrations`
unfoldable pub append_rule_migrations : List RuleMigration → List RuleMigration → List RuleMigration
unfolding add_migrations
append_rule_migrations existing additions =
    sort (by_key (λ (m : RuleMigration). m.deprecated)) (add_migrations existing additions)

-- What `Resolve` makes of the profile's rules: the table's severities replace the profile's, and
-- what the table switches off is deleted.
unfoldable pub merge_enabled : (Text → Option Severity) → Parsed → Text → Option Severity
merge_enabled profile p id =
    if p.disabled id
    then none
    else elim (p.enabled id) [ some severity ↦ some severity | none ↦ profile id ]
