-- ===== src/Suppress.antt =====
-- pkg/lint/suppress: suppression directives in comments, and which diagnostics they suppress.
pub mod Matcher
pub mod Parser
mod Examples
use pawnlint.Base.{ℕ, Bool, ◌||◌, false, ℤ, ltb_ℤ, eqb_ℤ, List, [], ◌∷◌, Text, text_eq}
use pawnlint.Base.Sort.{by_key, then_by, sort, int_key}

pub data Kind : Type 0 where
  disable_next_line disable enable : Kind

pub record Directive : Type 0 where
  pub file : Text
  pub line : ℤ
  pub offset : ℤ
  pub end : ℤ
  pub kind : Kind
  pub ids : List Text
  pub all : Bool
  pub reason : Text
  pub malformed : Bool

unfoldable pub names : List Text → Text → Bool
names [] rule_id = false
names (id ∷ ids) rule_id = text_eq id rule_id || names ids rule_id

-- `Directive.MatchesRule`
unfoldable pub matches_rule : Directive → Text → Bool
unfolding names
matches_rule d rule_id = d.all || names d.ids rule_id

-- The comparison of `SortDirectives`.
unfoldable pub directive_less : Directive → Directive → Bool
directive_less = then_by (λ (d : Directive). d.line) (by_key (λ (d : Directive). d.offset))

unfoldable pub sort_directives : List Directive → List Directive
unfolding directive_less
sort_directives = sort directive_less
