-- ===== src/Suppress/Matcher.antt =====
-- pkg/lint/suppress/matcher.go: `IsSuppressed`. The slice `used` is `none` where it is nil.
-- A stack is a list with its top in front, and the map `activeIDs` a function of its keys.
pub mod Depth
pub mod Used
pub mod Recorded
use pawnlint.Base.{
  ℕ, suc, ◌+◌, Bool, true, false, ◌&&◌, ◌||◌, not, ℤ, pos, ◌+ℤ◌, ltb_ℤ, eqb_ℤ, Option, none, some,
  List, [], ◌∷◌, ◌++◌, Text, text_eq, set, if◌then◌else◌,
}
use mathlib.Core.Option
use pawnlint.Suppress.{Kind, disable_next_line, disable, enable, Directive, matches_rule}

abbrev pub Used : Type 0
Used = Option (List Bool)

-- if used != nil { used[i] = true }
unfoldable pub mark : Used → ℕ → Used
mark none i = none
mark (some used) i = some (set used i true)

unfoldable pub mark_all : Used → List ℕ → Used
unfolding mark
mark_all used [] = used
mark_all used (i ∷ is) = mark_all (mark used i) is

-- The tests of the loop of `IsSuppressed` on one directive.
unfoldable pub hits : Directive → Text → ℤ → Bool
unfolding matches_rule
hits d rule_id diag_line = elim d.kind [
  | disable_next_line ↦ matches_rule d rule_id && eqb_ℤ (d.line +ℤ pos 1) diag_line
  | _ ↦ false
]

-- That loop: the first next-line directive for the rule and the line.
unfoldable pub next_line : ℕ → List Directive → Text → ℤ → Option ℕ
unfolding hits
next_line i [] rule_id diag_line = none
next_line i (d ∷ ds) rule_id diag_line =
    if hits d rule_id diag_line then some i else next_line (i + 1) ds rule_id diag_line

pub record Active : Type 0 where
  pub all : List ℕ
  pub ids : Text → List ℕ

unfoldable pub push_ids : ℕ → List Text → (Text → List ℕ) → Text → List ℕ
push_ids i [] m = m
push_ids i (id ∷ ids) m = push_ids i ids (λ k. if text_eq id k then i ∷ m k else m k)

-- stack[:len(stack)-1], where the stack is not empty.
abbrev pub pop : List ℕ → List ℕ
pop [] = []
pop (i ∷ is) = is

unfoldable pub pop_ids : List Text → (Text → List ℕ) → Text → List ℕ
pop_ids [] m = m
pop_ids (id ∷ ids) m = pop_ids ids (λ k. if text_eq id k then pop (m k) else m k)

-- The switch of `blockSuppresses`.
unfoldable pub block_switch : Kind → ℕ → Directive → Active → Active
unfolding push_ids pop_ids
block_switch disable i d a = record {
  all = if d.all then i ∷ a.all else a.all;
  ids = push_ids i d.ids a.ids;
}
block_switch enable i d a = record {
  all = if d.all then pop a.all else a.all;
  ids = pop_ids d.ids a.ids;
}
block_switch disable_next_line i d a = a

-- One round of the loop of `blockSuppresses`.
unfoldable pub block_step : ℕ → Directive → Active → Active
unfolding block_switch
block_step i d a = block_switch d.kind i d a

unfoldable pub block_loop : ℕ → List Directive → ℤ → Active → Active
unfolding block_step
block_loop i [] diag_line a = a
block_loop i (d ∷ ds) diag_line a =
    let rest = block_loop (i + 1) ds diag_line (block_step i d a) in
    if ltb_ℤ diag_line d.line then a else rest

abbrev pub none_active : Active
none_active = record { all = []; ids = λ _. [] }

abbrev pub is_empty : List ℕ → Bool
is_empty [] = true
is_empty (i ∷ is) = false

-- `blockSuppresses`: the slice `used` afterwards, and whether the diagnostic is suppressed.
unfoldable pub block_suppresses : List Directive → Used → Text → ℤ → Used × Bool
unfolding block_loop mark_all
block_suppresses ds used rule_id diag_line =
    let a = block_loop 0 ds diag_line none_active in
    if is_empty a.all && is_empty (a.ids rule_id)
    then (used, false)
    else (mark_all (mark_all used a.all) (a.ids rule_id), true)

-- `IsSuppressed`
unfoldable pub is_suppressed : List Directive → Used → Text → ℤ → Used × Bool
unfolding next_line mark block_suppresses
is_suppressed ds used rule_id diag_line = elim (next_line 0 ds rule_id diag_line) [
  | some i ↦ (mark used i, true)
  | none ↦ block_suppresses ds used rule_id diag_line
]
