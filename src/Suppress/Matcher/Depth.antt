-- ===== src/Suppress/Matcher/Depth.antt =====
-- Whether a diagnostic is suppressed, by counting.
use pawnlint.Base.{
  ℕ, suc, ◌+◌, ◌-◌, ◌≡◌, refl, pos, ◌+ℤ◌, ◌-ℤ◌, eqb_ℤ, +ℤ_parts, -ℤ_parts, ◌&&◌, Bool, true, false,
  ◌||◌, not, ◌⊎◌, inl, inr, ℤ, ltb_ℤ, none, some, List, [], ◌∷◌, Text, text_eq, length, ltb, arith,
  Bool-cases, if◌then◌else◌,
}
use pawnlint.Suppress.{Kind, disable_next_line, disable, enable, Directive, names, matches_rule}
use pawnlint.Suppress.Matcher.{
  Used, hits, next_line, Active, push_ids, pop, pop_ids, block_step, block_loop, none_active,
  is_empty, block_suppresses, is_suppressed,
}

-- How many `disable`s are open behind a directive, where an `enable` with none open counts for
-- nothing. `weight` is how often the directive counts.
unfoldable pub depth_step : (Directive → ℕ) → ℕ → Directive → ℕ
depth_step weight n d = elim d.kind [
  | disable ↦ n + weight d
  | enable ↦ n - weight d
  | disable_next_line ↦ n
]

-- The same over the directives up to a line.
unfoldable pub depth : (Directive → ℕ) → ℕ → List Directive → ℤ → ℕ
depth weight n [] line = n
depth weight n (d ∷ ds) line =
    let rest = depth weight (depth_step weight n d) ds line in if ltb_ℤ line d.line then n else rest

-- `all` counts once, and a rule as often as the directive names it.
abbrev pub all_weight : Directive → ℕ
all_weight d = if d.all then 1 else 0

abbrev pub count : Text → List Text → ℕ
count id [] = 0
count id (other ∷ ids) = if text_eq other id then suc (count id ids) else count id ids

abbrev pub rule_weight : Text → Directive → ℕ
rule_weight id d = count id d.ids

abbrev pub is_next_line : Kind → Bool
is_next_line disable_next_line = true
is_next_line disable = false
is_next_line enable = false

-- A next-line directive for all rules, or one that names the rule, on the line above.
abbrev pub is_above : Directive → Text → ℤ → Bool
is_above d rule_id line =
    is_next_line d.kind && (d.all || ltb 0 (count rule_id d.ids)) && eqb_ℤ d.line (line -ℤ pos 1)

unfoldable pub line_above : List Directive → Text → ℤ → Bool
line_above [] rule_id line = false
line_above (d ∷ ds) rule_id line = is_above d rule_id line || line_above ds rule_id line

-- What suppresses a diagnostic of a rule at a line, apart from the loops and the stacks.
abbrev pub covered : List Directive → Text → ℤ → Bool
covered ds rule_id line =
    line_above ds rule_id line
    || ltb 0 (depth all_weight 0 ds line)
    || ltb 0 (depth (rule_weight rule_id) 0 ds line)

names-count : (ids : List Text) (rule_id : Text) → names ids rule_id ≡ ltb 0 (count rule_id ids)
unfolding names
names-count [] rule_id = refl
names-count (id ∷ ids) rule_id = elim (Bool-cases (text_eq id rule_id)) [
  | inl here ↦ rw here (ground arith)
  | inr other ↦ rw other (names-count ids rule_id)
]

pub Kind-cases : (k : Kind) → (k ≡ disable_next_line) ⊎ (k ≡ disable) ⊎ (k ≡ enable)
Kind-cases disable_next_line = inl refl
Kind-cases disable = inr (inl refl)
Kind-cases enable = inr (inr refl)

next_line_eq : (a b : ℤ) → eqb_ℤ (a +ℤ pos 1) b ≡ eqb_ℤ a (b -ℤ pos 1)
next_line_eq a b = ground (arith, +ℤ_parts a (pos 1), -ℤ_parts b (pos 1))

hits-is_above :
    (d : Directive) (rule_id : Text) (line : ℤ) → hits d rule_id line ≡ is_above d rule_id line
unfolding hits matches_rule
hits-is_above d rule_id line = elim (Kind-cases d.kind) [
  | inl next ↦ rw (next, names-count d.ids rule_id, next_line_eq d.line line)
  | inr (inl off) ↦ rw off
  | inr (inr on) ↦ rw on
]

length-push_ids :
    (i : ℕ) (ids : List Text) (m : Text → List ℕ) (k : Text)
    → length (push_ids i ids m k) ≡ length (m k) + count k ids
unfolding push_ids
length-push_ids i [] m k = omega arith
length-push_ids i (id ∷ ids) m k =
    ground (arith, length-push_ids i ids (λ j. if text_eq id j then i ∷ m j else m j) k)

length-pop : (l : List ℕ) → length (pop l) ≡ length l - 1
length-pop [] = omega arith
length-pop (i ∷ l) = omega arith

length-pop_ids :
    (ids : List Text) (m : Text → List ℕ) (k : Text)
    → length (pop_ids ids m k) ≡ length (m k) - count k ids
unfolding pop_ids
length-pop_ids [] m k = omega arith
length-pop_ids (id ∷ ids) m k =
    ground
      (arith, length-pop (m k), length-pop_ids ids (λ j. if text_eq id j then pop (m j) else m j) k)

length-block_step :
    (i : ℕ) (d : Directive) (a : Active) (k : Text)
    → (length (block_step i d a).all ≡ depth_step all_weight (length a.all) d)
      × (length ((block_step i d a).ids k) ≡ depth_step (rule_weight k) (length (a.ids k)) d)
unfolding block_step depth_step
length-block_step i d a k = elim (Kind-cases d.kind) [
  | inl next ↦ rw next (refl, refl)
  | inr (inl off) ↦ rw off (ground arith, length-push_ids i d.ids a.ids k)
  | inr (inr on) ↦ rw on (ground (arith, length-pop a.all), length-pop_ids d.ids a.ids k)
]

length-block_loop :
    (i : ℕ) (ds : List Directive) (line : ℤ) (a : Active) (k : Text)
    → (length (block_loop i ds line a).all ≡ depth all_weight (length a.all) ds line)
      × (length ((block_loop i ds line a).ids k) ≡ depth (rule_weight k) (length (a.ids k)) ds line)
unfolding block_loop depth
length-block_loop i [] line a k = (refl, refl)
length-block_loop i (d ∷ ds) line a k = elim (Bool-cases (ltb_ℤ line d.line)) [
  | inl past ↦ rw past (refl, refl)
  | inr here ↦
      let (all, ids) = length-block_step i d a k in
      rw (here, ← all, ← ids) (length-block_loop (i + 1) ds line (block_step i d a) k)
]

is_empty_lem : (l : List ℕ) → is_empty l ≡ not (ltb 0 (length l))
is_empty_lem [] = refl
is_empty_lem (i ∷ l) = ground arith

suppresses-depths :
    (ds : List Directive) (used : Used) (rule_id : Text) (line : ℤ)
    → (block_suppresses ds used rule_id line).1
      ≡ (ltb 0 (depth all_weight 0 ds line) || ltb 0 (depth (rule_weight rule_id) 0 ds line))
unfolding block_suppresses
suppresses-depths ds used rule_id line =
    let a = block_loop 0 ds line none_active in
    let (all, ids) = length-block_loop 0 ds line none_active rule_id in
    ground (arith, all, ids, is_empty_lem a.all, is_empty_lem (a.ids rule_id))

next_line-line_above :
    (i : ℕ) (ds : List Directive) (rule_id : Text) (line : ℤ)
    → ((j : ℕ) × (next_line i ds rule_id line ≡ some j) × (line_above ds rule_id line ≡ true))
      ⊎ ((next_line i ds rule_id line ≡ none) × (line_above ds rule_id line ≡ false))
unfolding next_line line_above
next_line-line_above i [] rule_id line = inr (refl, refl)
next_line-line_above i (d ∷ ds) rule_id line = elim (Bool-cases (is_above d rule_id line)) [
  | inl here ↦ inl (i, rw (hits-is_above d rule_id line) (rw here), rw here)
  | inr other ↦
      rw (hits-is_above d rule_id line) (rw other (next_line-line_above (i + 1) ds rule_id line))
]

-- A diagnostic is suppressed exactly if a next-line directive for all rules or for its rule stands
-- on the line above it, or if a `disable all` or a `disable` of its rule is open at its line. What is
-- recorded in `used` makes no difference.
pub is_suppressed_iff :
    (ds : List Directive) (used : Used) (rule_id : Text) (line : ℤ)
    → (is_suppressed ds used rule_id line).1 ≡ covered ds rule_id line
unfolding is_suppressed
is_suppressed_iff ds used rule_id line = elim (next_line-line_above 0 ds rule_id line) [
  | inl (j, found, above) ↦ rw (found, above, is_suppressed)
  | inr (missing, below) ↦
      rw (missing, below, is_suppressed) (suppresses-depths ds used rule_id line)
]
