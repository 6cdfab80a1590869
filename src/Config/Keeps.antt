-- ===== src/Config/Keeps.antt =====
-- internal/config/resolve.go: a round of the loop leaves what is known of rules that were configured
-- before it.
use mathlib.Core.Path.{subst}
use pawnlint.Base.{
  ◌≡◌, refl, ◌∙◌, Bool, false, Bool-cases, Option-cases, Option, none, some, Text, inl, inr,
  text_eq, text_eq_iff, codes, arith,
}
use pawnlint.Diagnostic.{Severity, off, error, warning, info, hint, parse_severity}
use pawnlint.Options.{
  Value, bool_value, int_value, uint_value, float_value, string_value, strings_value, list_value,
  object_value, objects_value, other_value, Entries, no_entries, entry,
}
use pawnlint.Registry.{Registrar, resolve_id}
use pawnlint.Config.{
  ConfigError, unknown_rule, bad_rule_value, configured_twice, invalid_severity, Parsed, find_value,
  fail, disable, enable, accept_severity, set_severity, string_of, raw_severity, set_options,
  set_rule, see, configure, configure_resolved, parse_rule, parse_rules,
}

-- Two states that agree on a rule.
pub record Same (id : Text) (p q : Parsed) : Type 0 where
  pub enabled_same : q.enabled id ≡ p.enabled id
  pub disabled_same : q.disabled id ≡ p.disabled id
  pub config_same : q.rule_config id ≡ p.rule_config id
  pub seen_same : q.seen id ≡ p.seen id

pub Same-refl : (id : Text) (p : Parsed) → Same id p p
Same-refl id p = record {
  enabled_same = refl;
  disabled_same = refl;
  config_same = refl;
  seen_same = refl;
}

pub Same-trans : (id : Text) (p q r : Parsed) → Same id p q → Same id q r → Same id p r
Same-trans id p q r h k = record {
  enabled_same = k.enabled_same ∙ h.enabled_same;
  disabled_same = k.disabled_same ∙ h.disabled_same;
  config_same = k.config_same ∙ h.config_same;
  seen_same = k.seen_same ∙ h.seen_same;
}

pub fail-Same : (id : Text) (e : ConfigError) (p : Parsed) → Same id p (fail e p)
unfolding fail
fail-Same id e p = record {
  enabled_same = refl;
  disabled_same = refl;
  config_same = refl;
  seen_same = refl;
}

module _ (i id : Text) (other : text_eq i id ≡ false) where
  enable-Same : (s : Severity) (p : Parsed) → Same id p (enable i s p)
  unfolding enable
  enable-Same s p = record {
    enabled_same = ground (arith, other);
    disabled_same = refl;
    config_same = refl;
    seen_same = refl;
  }

  accept_severity-Same : (s : Severity) (p : Parsed) → Same id p (accept_severity i s p)
  unfolding accept_severity disable
  accept_severity-Same off p = record {
    enabled_same = refl;
    disabled_same = ground (arith, other);
    config_same = refl;
    seen_same = refl;
  }
  accept_severity-Same error p = enable-Same error p
  accept_severity-Same warning p = enable-Same warning p
  accept_severity-Same info p = enable-Same info p
  accept_severity-Same hint p = enable-Same hint p

  set_severity-Same :
      (configured text : Text) (p : Parsed) → Same id p (set_severity i configured text p)
  unfolding set_severity
  set_severity-Same configured text p = elim (Bool-cases (parse_severity text).1) [
    | inl ok ↦ rw ok (accept_severity-Same (parse_severity text).0 p)
    | inr bad ↦ rw bad (fail-Same id (invalid_severity configured text) p)
  ]

  raw_severity-Same :
      (configured : Text) (o : Option Value) (p : Parsed)
      → Same id p (raw_severity i configured o p)
  unfolding raw_severity
  raw_severity-Same configured none p = Same-refl id p
  raw_severity-Same configured (some raw) p = set_severity-Same configured (string_of raw) p

  set_options-Same :
      (reg : Registrar) (configured : Text) (es : Entries) (p : Parsed)
      → Same id p (set_options reg i configured es p)
  unfolding set_options
  set_options-Same reg configured es p = record {
    enabled_same = refl;
    disabled_same = refl;
    config_same = ground (arith, other);
    seen_same = refl;
  }

  pub set_rule-Same :
      (reg : Registrar) (configured : Text) (v : Value) (p : Parsed)
      → Same id p (set_rule reg i configured v p)
  unfolding set_rule
  set_rule-Same reg configured (string_value t) p = set_severity-Same configured t p
  set_rule-Same reg configured (object_value es) p =
      Same-trans id p _ _ (raw_severity-Same configured (find_value (codes "severity") es) p) (
        set_options-Same reg configured es
          (raw_severity i configured (find_value (codes "severity") es) p))
  set_rule-Same reg configured (bool_value b) p = fail-Same id (bad_rule_value configured) p
  set_rule-Same reg configured (int_value n) p = fail-Same id (bad_rule_value configured) p
  set_rule-Same reg configured (uint_value n) p = fail-Same id (bad_rule_value configured) p
  set_rule-Same reg configured (float_value n w) p = fail-Same id (bad_rule_value configured) p
  set_rule-Same reg configured (strings_value ts) p = fail-Same id (bad_rule_value configured) p
  set_rule-Same reg configured (list_value vs) p = fail-Same id (bad_rule_value configured) p
  set_rule-Same reg configured (objects_value os) p = fail-Same id (bad_rule_value configured) p
  set_rule-Same reg configured other_value p = fail-Same id (bad_rule_value configured) p

  pub see-Same :
      (configured : Text) (deprecated : Bool) (p : Parsed)
      → Same id p (see i configured deprecated p)
  unfolding see
  see-Same configured deprecated p = record {
    enabled_same = refl;
    disabled_same = refl;
    config_same = refl;
    seen_same = ground (arith, other);
  }

-- A round leaves what is known of a rule that was configured before.
configure-Same :
    (reg : Registrar) (i configured : Text) (deprecated : Bool) (v : Value) (o : Option Text)
    (p : Parsed) (id c : Text)
    → p.seen i ≡ o
    → p.seen id ≡ some c
    → Same id p (configure reg i configured deprecated v o p)
unfolding configure
configure-Same reg i configured deprecated v (some previous) p id c e h =
    fail-Same id (configured_twice i previous configured) p
configure-Same reg i configured deprecated v none p id c e h = elim (Bool-cases (text_eq i id)) [
  | inl same ↦
      let it : i ≡ id = (text_eq_iff i id).0 same in
      absurd (ground (arith, h, subst (λ x. p.seen x ≡ none) it e))
  | inr other ↦
      Same-trans id p (see i configured deprecated p) _
        (see-Same i id other configured deprecated p)
        (set_rule-Same i id other reg configured v (see i configured deprecated p))
]

pub configure_resolved-Same :
    (reg : Registrar) (configured : Text) (v : Value) (o : Option (Text × Bool)) (p : Parsed)
    (id c : Text)
    → p.seen id ≡ some c
    → Same id p (configure_resolved reg configured v o p)
unfolding configure_resolved
configure_resolved-Same reg configured v none p id c h = fail-Same id (unknown_rule configured) p
configure_resolved-Same reg configured v (some (i, deprecated)) p id c h =
    configure-Same reg i configured deprecated v (p.seen i) p id c refl h

pub parse_rules-Same :
    (reg : Registrar) (es : Entries) (p : Parsed) (id c : Text)
    → p.seen id ≡ some c
    → Same id p (parse_rules reg es p)
unfolding parse_rules parse_rule
parse_rules-Same reg no_entries p id c h = Same-refl id p
parse_rules-Same reg (entry configured v es) p id c h =
    let first = configure_resolved-Same reg configured v (resolve_id reg configured) p id c h in
    Same-trans id p (parse_rule reg configured v p) _ first
      (parse_rules-Same reg es (parse_rule reg configured v p) id c (first.seen_same ∙ h))

accept_severity-seen :
    (i : Text) (s : Severity) (p : Parsed) → (accept_severity i s p).seen ≡ p.seen
unfolding accept_severity disable enable
accept_severity-seen i off p = refl
accept_severity-seen i error p = refl
accept_severity-seen i warning p = refl
accept_severity-seen i info p = refl
accept_severity-seen i hint p = refl

set_severity-seen :
    (i configured text : Text) (p : Parsed) → (set_severity i configured text p).seen ≡ p.seen
unfolding set_severity fail
set_severity-seen i configured text p = elim (Bool-cases (parse_severity text).1) [
  | inl ok ↦ rw ok (accept_severity-seen i (parse_severity text).0 p)
  | inr bad ↦ rw bad refl
]

-- The loop over names is the only one that records them.
pub set_rule-seen :
    (reg : Registrar) (i configured : Text) (v : Value) (p : Parsed)
    → (set_rule reg i configured v p).seen ≡ p.seen
unfolding set_rule set_options raw_severity fail
set_rule-seen reg i configured (string_value t) p = set_severity-seen i configured t p
set_rule-seen reg i configured (object_value es) p =
    elim (Option-cases (find_value (codes "severity") es)) [
      | inl absent ↦ ground (arith, absent)
      | inr (raw, there) ↦ ground (arith, there, set_severity-seen i configured (string_of raw) p)
    ]
set_rule-seen reg i configured (bool_value b) p = refl
set_rule-seen reg i configured (int_value n) p = refl
set_rule-seen reg i configured (uint_value n) p = refl
set_rule-seen reg i configured (float_value n w) p = refl
set_rule-seen reg i configured (strings_value ts) p = refl
set_rule-seen reg i configured (list_value vs) p = refl
set_rule-seen reg i configured (objects_value os) p = refl
set_rule-seen reg i configured other_value p = refl
