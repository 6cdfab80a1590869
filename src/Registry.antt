-- ===== src/Registry.antt =====
-- pkg/lint/registry.go: the registry of rules, the aliases of their IDs, and the profiles. A rule
-- is a number that tells it apart and its metadata: the registry does not run it.
pub mod Book
pub mod Specified
pub mod OwnIds
pub mod Canonical
pub mod Profiles
pub mod Indexed
mod Examples
use pawnlint.Base.{
  ℕ, ◌+◌, ◌==◌, leb, Bool, true, false, ◌||◌, ◌&&◌, not, Option, none, some, List, [], ◌∷◌, ◌++◌,
  Text, length, map, get_elem?, text_eq, codes, inl, inr, if◌then◌else◌,
}
use pawnlint.Base.Sort.{by_key, sort, text_key}
use pawnlint.Diagnostic.{Severity, Category}
use pawnlint.Options.{RuleOption}
use pawnlint.Options.Validate.{OptionError, validate_options}

-- Levels, requirements, scopes and stability by their numbers.
pub record Metadata : Type 0 where
  pub id : Text
  pub name : Text
  pub summary : Text
  pub explanation : Text
  pub category : Category
  pub default_severity : Severity
  pub analysis_level : ℕ
  pub requirements : ℕ
  pub scope : ℕ
  pub stability : ℕ
  pub default_enabled : Bool
  pub fixable : Bool
  pub unsafe_fix : Bool
  pub tags : List Text
  pub options : List RuleOption
  pub config_example : Text

abbrev pub semantic_analysis : ℕ
semantic_analysis = 1

abbrev pub control_flow_analysis : ℕ
control_flow_analysis = 2

abbrev pub project_analysis : ℕ
project_analysis = 3

abbrev pub need_syntax : ℕ
need_syntax = 1

abbrev pub need_preprocessor : ℕ
need_preprocessor = 2

abbrev pub need_local_symbols : ℕ
need_local_symbols = 4

abbrev pub need_names : ℕ
need_names = 8

abbrev pub need_tags : ℕ
need_tags = 16

abbrev pub need_constants : ℕ
need_constants = 32

abbrev pub need_control_flow : ℕ
need_control_flow = 64

abbrev pub need_workspace : ℕ
need_workspace = 256

abbrev pub scope_file : ℕ
scope_file = 5

abbrev pub scope_workspace : ℕ
scope_workspace = 6

abbrev pub stability_stable : ℕ
stability_stable = 0

abbrev pub stability_preview : ℕ
stability_preview = 1

-- `requirementsForLevel`: the bits that are set are distinct, so a sum is their union.
unfoldable pub requirements_for_level : ℕ → ℕ
requirements_for_level level =
    need_syntax
    + (if leb semantic_analysis level then need_local_symbols + need_names + need_tags else 0)
    + (if leb control_flow_analysis level then need_constants + need_control_flow else 0)
    + (if leb project_analysis level then need_preprocessor + need_workspace else 0)

-- `scopeForLevel`
unfoldable pub scope_for_level : ℕ → ℕ
scope_for_level level = if leb project_analysis level then scope_workspace else scope_file

pub record Rule : Type 0 where
  pub number : ℕ
  pub metadata : Metadata

pub record Entry : Type 0 where
  pub rule : Rule
  pub meta : Metadata

-- An alias with the ID it stands for.
pub record RuleAlias : Type 0 where
  pub deprecated : Text
  pub replacement : Text

-- `aliases` holds each alias once.
pub record Registrar : Type 0 where
  pub entries : List Entry
  pub by_id : Text → Option ℕ
  pub aliases : List RuleAlias

unfoldable pub new_registrar : Registrar
new_registrar = record { entries = []; by_id = λ id. none; aliases = [] }

unfoldable pub find_alias : Text → List RuleAlias → Option Text
find_alias id [] = none
find_alias id (a ∷ rest) =
    let later = find_alias id rest in if text_eq a.deprecated id then some a.replacement else later

-- The errors of `Register` and `RegisterAlias`.
pub data RegistryError : Type 0 where
  nil_rule missing_id : RegistryError
  invalid_stability duplicate_rule conflicts_with_alias : Text → RegistryError
  invalid_option : OptionError → RegistryError
  invalid_alias unknown_target : Text → Text → RegistryError
  conflicts_with_rule duplicate_alias : Text → RegistryError

abbrev pub is_some {ℓ} : {A : Type ℓ} → Option A → Bool
is_some none = false
is_some (some a) = true

-- `meta` with the requirements and the scope of its level, where it sets none.
unfoldable pub completed : Metadata → Metadata
unfolding requirements_for_level scope_for_level
completed m = record m {
  requirements =
      if m.requirements == 0 then requirements_for_level m.analysis_level else m.requirements;
  scope = if m.scope == 0 then scope_for_level m.analysis_level else m.scope;
}

-- The tests of `Register` that read the rule alone.
unfoldable pub rule_error : Metadata → Option RegistryError
unfolding validate_options
rule_error m =
    if text_eq m.id []
    then some missing_id
    else if not (m.stability == stability_stable) && not (m.stability == stability_preview)
    then some (invalid_stability m.id)
    else elim (validate_options m.id m.options) [ some e ↦ some (invalid_option e) | none ↦ none ]

-- The tests of `Register` that read the registry.
unfoldable pub id_error : Registrar → Text → Option RegistryError
unfolding find_alias
id_error reg id =
    if is_some (reg.by_id id)
    then some (duplicate_rule id)
    else if is_some (find_alias id reg.aliases)
    then some (conflicts_with_alias id)
    else none

unfoldable pub add_rule : Registrar → Rule → Registrar
unfolding completed
add_rule reg r = record reg {
  by_id = λ id. if text_eq r.metadata.id id then some (length reg.entries) else reg.by_id id;
  entries = reg.entries ++ record { rule = r; meta = completed r.metadata } ∷ [];
}

-- `Register`: the registry afterwards, and the error, `none` for nil.
unfoldable pub register : Registrar → Option Rule → Registrar × Option RegistryError
unfolding rule_error id_error add_rule
register reg none = (reg, some nil_rule)
register reg (some r) = elim (rule_error r.metadata) [
  | some bad ↦ (reg, some bad)
  | none ↦ elim (id_error reg r.metadata.id) [
    | some bad ↦ (reg, some bad)
    | none ↦ (add_rule reg r, none)
  ]
]

unfoldable pub alias_error : Registrar → Text → Text → Option RegistryError
unfolding find_alias
alias_error reg deprecated replacement =
    if text_eq deprecated [] || text_eq replacement [] || text_eq deprecated replacement
    then some (invalid_alias deprecated replacement)
    else if is_some (reg.by_id deprecated)
    then some (conflicts_with_rule deprecated)
    else if is_some (find_alias deprecated reg.aliases)
    then some (duplicate_alias deprecated)
    else if is_some (reg.by_id replacement)
    then none
    else some (unknown_target deprecated replacement)

-- `RegisterAlias`
unfoldable pub register_alias : Registrar → Text → Text → Registrar × Option RegistryError
unfolding alias_error
register_alias reg deprecated replacement = elim (alias_error reg deprecated replacement) [
  | some bad ↦ (reg, some bad)
  | none ↦ (
    record reg {
      aliases = reg.aliases ++ record { deprecated = deprecated; replacement = replacement } ∷ [];
    },
    none,
  )
]

-- `ResolveID`: the rule's ID and whether an alias was resolved; `none` where the ID is not known.
unfoldable pub resolve_id : Registrar → Text → Option (Text × Bool)
unfolding find_alias
resolve_id reg id = elim (reg.by_id id) [
  | some i ↦ some (id, false)
  | none ↦ elim (find_alias id reg.aliases) [
    | none ↦ none
    | some replacement ↦ some (replacement, true)
  ]
]

-- The entry that `Lookup` and `Rule` find.
unfoldable pub entry_at : Registrar → Text → Option Entry
entry_at reg id = elim (reg.by_id id) [ none ↦ none | some i ↦ get_elem? reg.entries i ]

unfoldable pub find_entry : Registrar → Text → Option Entry
unfolding resolve_id entry_at
find_entry reg id = elim (resolve_id reg id) [
  | none ↦ none
  | some (resolved, deprecated) ↦ entry_at reg resolved
]

-- `Lookup`
unfoldable pub lookup : Registrar → Text → Option Metadata
unfolding find_entry
lookup reg id = elim (find_entry reg id) [ none ↦ none | some e ↦ some e.meta ]

-- `Registrar.Rule`
unfoldable pub rule_of : Registrar → Text → Option Rule
unfolding find_entry
rule_of reg id = elim (find_entry reg id) [ none ↦ none | some e ↦ some e.rule ]

-- `IDs`
unfoldable pub ids : Registrar → List Text
ids reg = map (λ (e : Entry). e.meta.id) reg.entries

-- `All`
unfoldable pub all_metadata : Registrar → List Metadata
all_metadata reg = map (λ (e : Entry). e.meta) reg.entries

-- `Sorted`
unfoldable pub sorted : Registrar → List Metadata
unfolding all_metadata
sorted reg = sort (by_key (λ (m : Metadata). m.id)) (all_metadata reg)

-- `Aliases`
unfoldable pub sorted_aliases : Registrar → List RuleAlias
sorted_aliases reg = sort (by_key (λ (a : RuleAlias). a.deprecated)) reg.aliases
