-- ===== src/Config/Table.antt =====
-- internal/config/resolve.go: the table of rules as a whole.
use mathlib.Core.Path.{subst}
use pawnlint.Base.{
  ◌≡◌, refl, ap, sym, ◌∙◌, Bool, false, Bool-cases, Option, none, some, [], Text, inl, inr, text_eq,
  text_eq_refl, text_eq_iff, arith,
}
use pawnlint.Options.{Value, Entries, no_entries, entry}
use pawnlint.Options.Fits.{AllEntries}
use pawnlint.Registry.{Registrar, resolve_id}
use pawnlint.Config.{
  unknown_rule, configured_twice, Parsed, nothing_parsed, fail, set_rule, see, configure,
  configure_resolved, parse_rule, parse_rules, parse_rule_table,
}
use pawnlint.Config.Keeps.{Same-trans, set_rule-Same, see-Same, parse_rules-Same, set_rule-seen}
use pawnlint.Config.Meaning.{ValueEffect, RuleEffect}
use pawnlint.Config.Errors.{fail-errs, set_rule-errs}
use pawnlint.Config.Effect.{set_rule-Effect, ValueEffect-Same}

-- What is not configured yet is not switched off.
abbrev Fresh : Parsed → Type 0
Fresh p = (id : Text) → p.seen id ≡ none → p.disabled id ≡ false

set_rule-seen_own :
    (reg : Registrar) (id configured : Text) (deprecated : Bool) (v : Value) (p : Parsed)
    → (set_rule reg id configured v (see id configured deprecated p)).seen id ≡ some configured
unfolding see
set_rule-seen_own reg id configured deprecated v p =
    ap (λ (seen : Text → Option Text). seen id)
      (set_rule-seen reg id configured v (see id configured deprecated p))
    ∙ ground (arith, text_eq_refl id)

configure-Fresh :
    (reg : Registrar) (i configured : Text) (deprecated : Bool) (v : Value) (o : Option Text)
    (p : Parsed)
    → Fresh p
    → Fresh (configure reg i configured deprecated v o p)
unfolding configure fail
configure-Fresh reg i configured deprecated v (some previous) p h = h
configure-Fresh reg i configured deprecated v none p h = λ id unseen.
    elim (Bool-cases (text_eq i id)) [
      | inl same ↦
          let it : i ≡ id = (text_eq_iff i id).0 same in
          let own = set_rule-seen_own reg i configured deprecated v p in
          absurd (
            ground (
              arith,
              subst
                  (λ x.
                    (set_rule reg i configured v (see i configured deprecated p)).seen x
                    ≡ some configured)
                  it own,
              unseen,
            ))
      | inr other ↦
          let kept =
            Same-trans id p (see i configured deprecated p)
              (set_rule reg i configured v (see i configured deprecated p))
              (see-Same i id other configured deprecated p)
              (set_rule-Same i id other reg configured v (see i configured deprecated p)) in
          kept.disabled_same ∙ h id (sym kept.seen_same ∙ unseen)
    ]

configure_resolved-Fresh :
    (reg : Registrar) (configured : Text) (v : Value) (o : Option (Text × Bool)) (p : Parsed)
    → Fresh p
    → Fresh (configure_resolved reg configured v o p)
unfolding configure_resolved fail
configure_resolved-Fresh reg configured v none p h = h
configure_resolved-Fresh reg configured v (some (i, deprecated)) p h =
    configure-Fresh reg i configured deprecated v (p.seen i) p h

configure-errs :
    (reg : Registrar) (i configured : Text) (deprecated : Bool) (v : Value) (o : Option Text)
    (p : Parsed)
    → (configure reg i configured deprecated v o p).errs ≡ []
    → p.errs ≡ []
unfolding configure see
configure-errs reg i configured deprecated v (some previous) p h =
    absurd (fail-errs (configured_twice i previous configured) p h)
configure-errs reg i configured deprecated v none p h =
    set_rule-errs reg i configured v (see i configured deprecated p) h

configure_resolved-errs :
    (reg : Registrar) (configured : Text) (v : Value) (o : Option (Text × Bool)) (p : Parsed)
    → (configure_resolved reg configured v o p).errs ≡ []
    → p.errs ≡ []
unfolding configure_resolved
configure_resolved-errs reg configured v none p h = absurd (fail-errs (unknown_rule configured) p h)
configure_resolved-errs reg configured v (some (i, deprecated)) p h =
    configure-errs reg i configured deprecated v (p.seen i) p h

configure-Effect :
    (reg : Registrar) (id configured : Text) (deprecated : Bool) (v : Value) (o : Option Text)
    (p : Parsed)
    → p.seen id ≡ o
    → Fresh p
    → (configure reg id configured deprecated v o p).errs ≡ []
    → ((configure reg id configured deprecated v o p).seen id ≡ some configured)
      × ValueEffect reg id v (configure reg id configured deprecated v o p)
unfolding configure see
configure-Effect reg id configured deprecated v (some previous) p e fresh h =
    absurd (fail-errs (configured_twice id previous configured) p h)
configure-Effect reg id configured deprecated v none p e fresh h = (
  set_rule-seen_own reg id configured deprecated v p,
  set_rule-Effect reg id configured v (see id configured deprecated p) (fresh id e) h,
)

configure_resolved-Effect :
    (reg : Registrar) (configured : Text) (v : Value) (o : Option (Text × Bool)) (p : Parsed)
    → resolve_id reg configured ≡ o
    → Fresh p
    → (configure_resolved reg configured v o p).errs ≡ []
    → RuleEffect reg configured v (configure_resolved reg configured v o p)
unfolding configure_resolved
configure_resolved-Effect reg configured v none p e fresh h =
    absurd (fail-errs (unknown_rule configured) p h)
configure_resolved-Effect reg configured v (some (id, deprecated)) p e fresh h =
    let (seen, effect) =
      configure-Effect reg id configured deprecated v (p.seen id) p refl fresh h in
    (id, deprecated, e, seen, effect)

parse_rules-errs :
    (reg : Registrar) (es : Entries) (p : Parsed) → (parse_rules reg es p).errs ≡ [] → p.errs ≡ []
unfolding parse_rules parse_rule
parse_rules-errs reg no_entries p h = h
parse_rules-errs reg (entry configured v es) p h =
    configure_resolved-errs reg configured v (resolve_id reg configured) p
      (parse_rules-errs reg es (parse_rule reg configured v p) h)

RuleEffect-later :
    (reg : Registrar) (configured : Text) (v : Value) (es : Entries) (p : Parsed)
    → RuleEffect reg configured v p
    → RuleEffect reg configured v (parse_rules reg es p)
RuleEffect-later reg configured v es p (id, deprecated, resolved, seen, effect) =
    let same = parse_rules-Same reg es p id configured seen in
    (
      id,
      deprecated,
      resolved,
      same.seen_same ∙ seen,
      ValueEffect-Same id p (parse_rules reg es p) same reg v effect,
    )

parse_rules-Effect :
    (reg : Registrar) (es : Entries) (p : Parsed)
    → Fresh p
    → (parse_rules reg es p).errs ≡ []
    → AllEntries (λ configured v. RuleEffect reg configured v (parse_rules reg es p)) es
unfolding parse_rules parse_rule
parse_rules-Effect reg no_entries p fresh h = tt
parse_rules-Effect reg (entry configured v es) p fresh h =
    let after = parse_rule reg configured v p in
    let fine = parse_rules-errs reg es after h in
    (
      RuleEffect-later reg configured v es after (
          configure_resolved-Effect reg configured v (resolve_id reg configured) p refl fresh fine),
      parse_rules-Effect reg es after
          (configure_resolved-Fresh reg configured v (resolve_id reg configured) p fresh) h,
    )

-- If parseRuleTable finds no error, then every name of the table stands for a rule that no other
-- name of it configures. If its value is a severity, or a table with one, then over any profile the
-- rule is switched off by "off" and has the severity otherwise. If its value is a table, then the
-- rule's configuration holds options of the rule only, whose values conform to them.
pub parse_rule_table_takes_effect :
    (reg : Registrar) (table : Entries)
    → (parse_rule_table reg table).errs ≡ []
    → AllEntries (λ configured v. RuleEffect reg configured v (parse_rule_table reg table)) table
unfolding parse_rule_table nothing_parsed
parse_rule_table_takes_effect reg table h =
    parse_rules-Effect reg table nothing_parsed (λ id unseen. refl) h
