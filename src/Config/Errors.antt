-- ===== src/Config/Errors.antt =====
-- internal/config/resolve.go: the errors of a state are kept by what follows.
use pawnlint.Base.{
  ◌≡◌, refl, sym, ◌∙◌, Bool-cases, Option, none, some, List, [], ◌∷◌, ◌++◌, Text, inl, inr, codes,
}
use pawnlint.Diagnostic.{Severity, off, error, warning, info, hint, parse_severity}
use pawnlint.Options.{
  Value, bool_value, int_value, uint_value, float_value, string_value, strings_value, list_value,
  object_value, objects_value, other_value, Entries,
}
use pawnlint.Registry.{Registrar}
use pawnlint.Config.{
  ConfigError, bad_rule_value, invalid_severity, Parsed, find_value, fail, disable, enable,
  accept_severity, set_severity, string_of, raw_severity, set_options, set_rule,
}

-- Rounds only add errors.
pub append-[] {ℓ} : {A : Type ℓ} (xs ys : List A) → xs ++ ys ≡ [] → (xs ≡ []) × (ys ≡ [])
append-[] [] ys h = (refl, h)
append-[] (x ∷ xs) ys h = absurd (cc)

pub accept_severity-errs :
    (i : Text) (s : Severity) (p : Parsed) → (accept_severity i s p).errs ≡ p.errs
unfolding accept_severity disable enable
accept_severity-errs i off p = refl
accept_severity-errs i error p = refl
accept_severity-errs i warning p = refl
accept_severity-errs i info p = refl
accept_severity-errs i hint p = refl

pub fail-errs : (e : ConfigError) (p : Parsed) → (fail e p).errs ≡ [] → ⊥
unfolding fail
fail-errs e p h = let (x, y) = append-[] p.errs (e ∷ []) h in cc

pub set_severity-errs :
    (i configured text : Text) (p : Parsed)
    → (set_severity i configured text p).errs ≡ []
    → p.errs ≡ []
unfolding set_severity
set_severity-errs i configured text p h = elim (Bool-cases (parse_severity text).1) [
  | inr bad ↦ absurd (fail-errs (invalid_severity configured text) p (rw bad at h))
  | inl ok ↦ sym (accept_severity-errs i (parse_severity text).0 p) ∙ rw ok at h
]

pub raw_severity-errs :
    (i configured : Text) (o : Option Value) (p : Parsed)
    → (raw_severity i configured o p).errs ≡ []
    → p.errs ≡ []
unfolding raw_severity
raw_severity-errs i configured none p h = h
raw_severity-errs i configured (some raw) p h = set_severity-errs i configured (string_of raw) p h

pub set_options-errs :
    (reg : Registrar) (i configured : Text) (es : Entries) (p : Parsed)
    → (set_options reg i configured es p).errs ≡ []
    → p.errs ≡ []
unfolding set_options
set_options-errs reg i configured es p h = (append-[] p.errs _ h).0

pub set_rule-errs :
    (reg : Registrar) (i configured : Text) (v : Value) (p : Parsed)
    → (set_rule reg i configured v p).errs ≡ []
    → p.errs ≡ []
unfolding set_rule
set_rule-errs reg i configured (string_value t) p h = set_severity-errs i configured t p h
set_rule-errs reg i configured (object_value es) p h =
    raw_severity-errs i configured (find_value (codes "severity") es) p (
      set_options-errs reg i configured es
        (raw_severity i configured (find_value (codes "severity") es) p) h)
set_rule-errs reg i configured (bool_value b) p h =
    absurd (fail-errs (bad_rule_value configured) p h)
set_rule-errs reg i configured (int_value n) p h =
    absurd (fail-errs (bad_rule_value configured) p h)
set_rule-errs reg i configured (uint_value n) p h =
    absurd (fail-errs (bad_rule_value configured) p h)
set_rule-errs reg i configured (float_value n w) p h =
    absurd (fail-errs (bad_rule_value configured) p h)
set_rule-errs reg i configured (strings_value ts) p h =
    absurd (fail-errs (bad_rule_value configured) p h)
set_rule-errs reg i configured (list_value vs) p h =
    absurd (fail-errs (bad_rule_value configured) p h)
set_rule-errs reg i configured (objects_value os) p h =
    absurd (fail-errs (bad_rule_value configured) p h)
set_rule-errs reg i configured other_value p h = absurd (fail-errs (bad_rule_value configured) p h)
