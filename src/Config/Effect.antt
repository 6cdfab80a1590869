-- ===== src/Config/Effect.antt =====
-- internal/config/resolve.go: what is configured in a table without errors takes effect.
use mathlib.Core.Path.{subst}
use pawnlint.Base.{
  ◌≡◌, ap, ◌∙◌, false, Bool-cases, Option-cases, Result-cases, Option, none, some, [], Text, inl,
  inr, text_eq_refl, codes, arith,
}
use pawnlint.Diagnostic.{Severity, off, error, warning, info, hint, parse_severity}
use pawnlint.Options.{
  Value, bool_value, int_value, uint_value, float_value, string_value, strings_value, list_value,
  object_value, objects_value, other_value, Entries, no_entries, entry, normalize_option,
}
use pawnlint.Options.Fits.{AllEntries, Conforms}
use pawnlint.Options.Conforms.{normalize_option-Conforms}
use pawnlint.Registry.{Registrar}
use pawnlint.Config.{
  bad_rule_value, invalid_severity, Parsed, find_option, validate_rule_option,
  validate_rule_options, find_value, without, disable, enable, accept_severity, set_severity,
  string_of, raw_severity, options_of, set_options, set_rule, merge_enabled,
}
use pawnlint.Config.Keeps.{Same}
use pawnlint.Config.Meaning.{
  effective, SeverityEffect, TableSeverityEffect, OptionEffect, OptionsEffect, ValueEffect,
}
use pawnlint.Config.Errors.{append-[], fail-errs, set_options-errs}

-- A rule that was not configured yet is neither enabled nor disabled.
abbrev Untouched : Text → Parsed → Type 0
Untouched id p = (p.disabled id ≡ false) × (p.enabled id ≡ none)

disable-Effect :
    (id : Text) (p : Parsed) (profile : Text → Option Severity)
    → merge_enabled profile (disable id p) id ≡ none
unfolding disable merge_enabled
disable-Effect id p profile = ground (arith, text_eq_refl id)

enable-Effect :
    (id : Text) (s : Severity) (p : Parsed) (profile : Text → Option Severity)
    → p.disabled id ≡ false
    → merge_enabled profile (enable id s p) id ≡ some s
unfolding enable merge_enabled
enable-Effect id s p profile h = ground (arith, h, text_eq_refl id)

accept_severity-Effect :
    (id : Text) (s : Severity) (p : Parsed) (profile : Text → Option Severity)
    → p.disabled id ≡ false
    → merge_enabled profile (accept_severity id s p) id ≡ effective s
unfolding accept_severity
accept_severity-Effect id off p profile h = disable-Effect id p profile
accept_severity-Effect id error p profile h = enable-Effect id error p profile h
accept_severity-Effect id warning p profile h = enable-Effect id warning p profile h
accept_severity-Effect id info p profile h = enable-Effect id info p profile h
accept_severity-Effect id hint p profile h = enable-Effect id hint p profile h

set_severity-Effect :
    (id configured text : Text) (p : Parsed)
    → p.disabled id ≡ false
    → (set_severity id configured text p).errs ≡ []
    → SeverityEffect id text (set_severity id configured text p)
unfolding set_severity
set_severity-Effect id configured text p fresh h = elim (Bool-cases (parse_severity text).1) [
  | inr bad ↦ absurd (fail-errs (invalid_severity configured text) p (rw bad at h))
  | inl ok ↦ rw ok (
    (parse_severity text).0,
    ap (λ b. ((parse_severity text).0, b)) ok,
    λ profile. accept_severity-Effect id (parse_severity text).0 p profile fresh,
  )
]

raw_severity-Effect :
    (id configured : Text) (o : Option Value) (p : Parsed)
    → p.disabled id ≡ false
    → (raw_severity id configured o p).errs ≡ []
    → TableSeverityEffect id o (raw_severity id configured o p)
unfolding raw_severity
raw_severity-Effect id configured none p fresh h = tt
raw_severity-Effect id configured (some raw) p fresh h =
    set_severity-Effect id configured (string_of raw) p fresh h

-- Options without errors conform.
validate_rule_option-Effect :
    (reg : Registrar) (id configured name : Text) (v : Value)
    → (validate_rule_option configured (options_of reg id) name v).1 ≡ []
    → OptionEffect reg id name (validate_rule_option configured (options_of reg id) name v).0
unfolding validate_rule_option
validate_rule_option-Effect reg id configured name v h =
    elim (Option-cases (find_option name (options_of reg id))) [
      | inl unknown ↦ absurd (ground (arith, unknown, h))
      | inr (o, found) ↦ elim (Result-cases (normalize_option o v)) [
        | inl (bad, failed) ↦ absurd (ground (arith, found, failed, h))
        | inr (w, ok) ↦
            let kept : w ≡ (validate_rule_option configured (options_of reg id) name v).0 =
              ground (arith, found, ok) in
            (o, found, subst (Conforms o) kept (normalize_option-Conforms o v w ok))
      ]
    ]

validate_rule_options-Effect :
    (reg : Registrar) (id configured : Text) (es : Entries)
    → (validate_rule_options configured (options_of reg id) es).1 ≡ []
    → AllEntries (OptionEffect reg id) (validate_rule_options configured (options_of reg id) es).0
unfolding validate_rule_options
validate_rule_options-Effect reg id configured no_entries h = tt
validate_rule_options-Effect reg id configured (entry n v es) h =
    let (here, later) = append-[] (validate_rule_option configured (options_of reg id) n v).1 _ h in
    (
      validate_rule_option-Effect reg id configured n v here,
      validate_rule_options-Effect reg id configured es later,
    )

set_options-Effect :
    (reg : Registrar) (id configured : Text) (es : Entries) (p : Parsed)
    → (set_options reg id configured es p).errs ≡ []
    → OptionsEffect reg id (set_options reg id configured es p)
unfolding set_options
set_options-Effect reg id configured es p h =
    let values = without (codes "severity") es in
    let (before, here) =
      append-[] p.errs (validate_rule_options configured (options_of reg id) values).1 h in
    (
      (validate_rule_options configured (options_of reg id) values).0,
      ground (arith, text_eq_refl id),
      validate_rule_options-Effect reg id configured values here,
    )

table_severity-kept :
    (reg : Registrar) (id configured : Text) (es : Entries) (o : Option Value) (p : Parsed)
    → TableSeverityEffect id o p
    → TableSeverityEffect id o (set_options reg id configured es p)
unfolding set_options merge_enabled
table_severity-kept reg id configured es none p h = tt
table_severity-kept reg id configured es (some raw) p h = h

pub set_rule-Effect :
    (reg : Registrar) (id configured : Text) (v : Value) (p : Parsed)
    → p.disabled id ≡ false
    → (set_rule reg id configured v p).errs ≡ []
    → ValueEffect reg id v (set_rule reg id configured v p)
unfolding set_rule
set_rule-Effect reg id configured (string_value t) p fresh h =
    set_severity-Effect id configured t p fresh h
set_rule-Effect reg id configured (object_value es) p fresh h =
    let raw = find_value (codes "severity") es in
    let middle = raw_severity id configured raw p in
    (
      table_severity-kept reg id configured es raw middle (
          raw_severity-Effect id configured raw p fresh
            (set_options-errs reg id configured es middle h)),
      set_options-Effect reg id configured es middle h,
    )
set_rule-Effect reg id configured (bool_value b) p fresh h =
    absurd (fail-errs (bad_rule_value configured) p h)
set_rule-Effect reg id configured (int_value n) p fresh h =
    absurd (fail-errs (bad_rule_value configured) p h)
set_rule-Effect reg id configured (uint_value n) p fresh h =
    absurd (fail-errs (bad_rule_value configured) p h)
set_rule-Effect reg id configured (float_value n w) p fresh h =
    absurd (fail-errs (bad_rule_value configured) p h)
set_rule-Effect reg id configured (strings_value ts) p fresh h =
    absurd (fail-errs (bad_rule_value configured) p h)
set_rule-Effect reg id configured (list_value vs) p fresh h =
    absurd (fail-errs (bad_rule_value configured) p h)
set_rule-Effect reg id configured (objects_value os) p fresh h =
    absurd (fail-errs (bad_rule_value configured) p h)
set_rule-Effect reg id configured other_value p fresh h =
    absurd (fail-errs (bad_rule_value configured) p h)

-- What has taken effect on a rule holds of every state that agrees on it.
module _ (id : Text) (p q : Parsed) (same : Same id p q) where
  SeverityEffect-Same : (text : Text) → SeverityEffect id text p → SeverityEffect id text q
  unfolding merge_enabled
  SeverityEffect-Same text (s, parsed, h) =
      (s, parsed, λ profile. ground (arith, same.enabled_same, same.disabled_same, h profile))

  TableSeverityEffect-Same :
      (o : Option Value) → TableSeverityEffect id o p → TableSeverityEffect id o q
  TableSeverityEffect-Same none h = tt
  TableSeverityEffect-Same (some raw) h = SeverityEffect-Same (string_of raw) h

  pub ValueEffect-Same :
      (reg : Registrar) (v : Value) → ValueEffect reg id v p → ValueEffect reg id v q
  ValueEffect-Same reg (string_value t) h = SeverityEffect-Same t h
  ValueEffect-Same reg (object_value es) (severity, (cfg, found, conforms)) = (
    TableSeverityEffect-Same (find_value (codes "severity") es) severity,
    (cfg, same.config_same ∙ found, conforms),
  )
  ValueEffect-Same reg (bool_value b) h = absurd h
  ValueEffect-Same reg (int_value n) h = absurd h
  ValueEffect-Same reg (uint_value n) h = absurd h
  ValueEffect-Same reg (float_value n w) h = absurd h
  ValueEffect-Same reg (strings_value ts) h = absurd h
  ValueEffect-Same reg (list_value vs) h = absurd h
  ValueEffect-Same reg (objects_value os) h = absurd h
  ValueEffect-Same reg other_value h = absurd h
