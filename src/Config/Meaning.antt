-- ===== src/Config/Meaning.antt =====
-- internal/config/resolve.go: what it means that a rule is configured as a table says.
use pawnlint.Base.{◌≡◌, Bool, true, Option, none, some, Text, codes}
use pawnlint.Diagnostic.{Severity, off, parse_severity}
use pawnlint.Options.{Value, string_value, object_value, Entries, RuleOption}
use pawnlint.Options.Fits.{AllEntries, Conforms}
use pawnlint.Registry.{Registrar, resolve_id}
use pawnlint.Config.{Parsed, find_option, find_value, string_of, options_of, merge_enabled}

abbrev pub effective : Severity → Option Severity
effective off = none
effective s = some s

-- Over any profile, the rule is off or has the severity.
abbrev pub SeverityEffect : Text → Text → Parsed → Type 0
SeverityEffect id text p =
    (s : Severity) × (parse_severity text ≡ (s, true))
    × ((profile : Text → Option Severity) → merge_enabled profile p id ≡ effective s)

abbrev pub TableSeverityEffect : Text → Option Value → Parsed → Type 0
TableSeverityEffect id none p = Unit
TableSeverityEffect id (some raw) p = SeverityEffect id (string_of raw) p

-- The value is one of an option of the rule, and conforms to it.
abbrev pub OptionEffect : Registrar → Text → Text → Value → Type 0
OptionEffect reg id name w =
    (o : RuleOption) × (find_option name (options_of reg id) ≡ some o) × Conforms o w

abbrev pub OptionsEffect : Registrar → Text → Parsed → Type 0
OptionsEffect reg id p =
    (cfg : Entries) × (p.rule_config id ≡ some cfg) × AllEntries (OptionEffect reg id) cfg

abbrev pub ValueEffect : Registrar → Text → Value → Parsed → Type 0
ValueEffect reg id (string_value t) p = SeverityEffect id t p
ValueEffect reg id (object_value es) p =
    TableSeverityEffect id (find_value (codes "severity") es) p × OptionsEffect reg id p
ValueEffect reg id _ p = ⊥

-- The name stands for a rule that no other name of the table configures.
abbrev pub RuleEffect : Registrar → Text → Value → Parsed → Type 0
RuleEffect reg configured v p =
    (id : Text) × (deprecated : Bool) × (resolve_id reg configured ≡ some (id, deprecated))
    × (p.seen id ≡ some configured)
    × ValueEffect reg id v p
