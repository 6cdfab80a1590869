-- ===== src/Suppress/Matcher/Used.antt =====
-- What `IsSuppressed` records in `used`.
use pawnlint.Base.{
  ℕ, zero, suc, ◌+◌, ◌<◌, ◌≡◌, ◌≢◌, refl, ap, ◌∙◌, Bool, true, false, ◌⊎◌, inl, inr, ℤ, ltb_ℤ, none,
  some, List, [], ◌∷◌, Text, text_eq, length, get_elem?, get_or, set, All, arith, Bool-cases,
  if◌then◌else◌,
}
use native.Mathlib.Nat.{add-zero}
use pawnlint.Suppress.{Kind, disable_next_line, disable, enable, Directive, names, matches_rule}
use pawnlint.Suppress.Matcher.{
  Used, mark, mark_all, hits, next_line, Active, push_ids, pop, pop_ids, block_switch, block_step,
  block_loop,
}

abbrev pub flag : Used → ℕ → Bool
flag none i = false
flag (some used) i = get_or used i false

-- Directive `i` is there, switches something off, and names the rule or all rules.
abbrev pub Applies : List Directive → Text → ℕ → Type 0
Applies ds rule_id i =
    (d : Directive) × (get_elem? ds i ≡ some d)
    × (matches_rule d rule_id ≡ true)
    × (d.kind ≢ enable)

get_or-set :
    (u : List Bool) (j i : ℕ)
    → get_or (set u j true) i false ≡ true
    → (get_or u i false ≡ true) ⊎ (i ≡ j)
get_or-set [] j i h = inl h
get_or-set (b ∷ u) zero zero h = inr refl
get_or-set (b ∷ u) zero (suc i) h = inl h
get_or-set (b ∷ u) (suc j) zero h = inl h
get_or-set (b ∷ u) (suc j) (suc i) h = elim (get_or-set u j i h) [
  | inl old ↦ inl old
  | inr new ↦ inr (ap suc new)
]

get_or-set_kept :
    (u : List Bool) (j i : ℕ) → get_or u i false ≡ true → get_or (set u j true) i false ≡ true
get_or-set_kept [] j i h = h
get_or-set_kept (b ∷ u) zero zero h = refl
get_or-set_kept (b ∷ u) zero (suc i) h = h
get_or-set_kept (b ∷ u) (suc j) zero h = h
get_or-set_kept (b ∷ u) (suc j) (suc i) h = get_or-set_kept u j i h

pub get_or-set_self : (u : List Bool) (i : ℕ) → i < length u → get_or (set u i true) i false ≡ true
get_or-set_self [] i h = absurd (omega arith)
get_or-set_self (b ∷ u) zero h = refl
get_or-set_self (b ∷ u) (suc i) h = get_or-set_self u i (omega arith)

module _ {ℓ} (P : ℕ → Type ℓ) where
  pub flag-mark :
      (used : Used) (j i : ℕ) → P j → flag (mark used j) i ≡ true → (flag used i ≡ true) ⊎ P i
  unfolding mark
  flag-mark none j i p h = inl h
  flag-mark (some u) j i p h = elim (get_or-set u j i h) [
    | inl old ↦ inl old
    | inr new ↦ inr (rw new p)
  ]

  pub flag-mark_all :
      (used : Used) (is : List ℕ) (i : ℕ)
      → All P is
      → flag (mark_all used is) i ≡ true
      → (flag used i ≡ true) ⊎ P i
  unfolding mark_all
  flag-mark_all used [] i a h = inl h
  flag-mark_all used (j ∷ is) i a h = elim (flag-mark_all (mark used j) is i a.1 h) [
    | inl old ↦ flag-mark used j i a.0 old
    | inr p ↦ inr p
  ]

  All-pop : (l : List ℕ) → All P l → All P (pop l)
  All-pop [] a = tt
  All-pop (i ∷ l) a = a.1

  All-push_ids :
      (i : ℕ) (ids : List Text) (m : Text → List ℕ) (k : Text)
      → (names ids k ≡ true → P i)
      → All P (m k)
      → All P (push_ids i ids m k)
  unfolding push_ids names
  All-push_ids i [] m k p a = a
  All-push_ids i (id ∷ ids) m k p a = elim (Bool-cases (text_eq id k)) [
    | inl e ↦
        All-push_ids i ids (λ j. if text_eq id j then i ∷ m j else m j) k
          (λ h. p (ground (arith, e))) (rw e (p (ground (arith, e)), a))
    | inr e ↦
        All-push_ids i ids (λ j. if text_eq id j then i ∷ m j else m j) k
          (λ h. p (ground (arith, e, h))) (rw e a)
  ]

  All-pop_ids :
      (ids : List Text) (m : Text → List ℕ) (k : Text) → All P (m k) → All P (pop_ids ids m k)
  unfolding pop_ids
  All-pop_ids [] m k a = a
  All-pop_ids (id ∷ ids) m k a = elim (Bool-cases (text_eq id k)) [
    | inl e ↦
        All-pop_ids ids (λ j. if text_eq id j then pop (m j) else m j) k (rw e (All-pop (m k) a))
    | inr e ↦ All-pop_ids ids (λ j. if text_eq id j then pop (m j) else m j) k (rw e a)
  ]

-- The entries of both stacks apply to the rule.
module _ (whole : List Directive) (rule_id : Text) where
  abbrev AllApply : Active → Type 0
  AllApply a = All (Applies whole rule_id) a.all × All (Applies whole rule_id) (a.ids rule_id)

  All-opened :
      (b : Bool) (i : ℕ) (l : List ℕ)
      → (b ≡ true → Applies whole rule_id i)
      → All (Applies whole rule_id) l
      → All (Applies whole rule_id) (if b then i ∷ l else l)
  All-opened true i l p a = (p refl, a)
  All-opened false i l p a = a

  All-closed :
      (b : Bool) (l : List ℕ)
      → All (Applies whole rule_id) l
      → All (Applies whole rule_id) (if b then pop l else l)
  All-closed true l a = All-pop (Applies whole rule_id) l a
  All-closed false l a = a

  AllApply-switch :
      (k : Kind) (i : ℕ) (d : Directive) (a : Active)
      → d.kind ≡ k
      → get_elem? whole i ≡ some d
      → AllApply a
      → AllApply (block_switch k i d a)
  unfolding block_switch matches_rule
  AllApply-switch disable_next_line i d a e at h = h
  AllApply-switch disable i d a e at h = (
    All-opened d.all i a.all (λ all. (d, at, ground (arith, all), λ on. cc)) h.0,
    All-push_ids (Applies whole rule_id) i d.ids a.ids rule_id
        (λ named. (d, at, ground (arith, named), λ on. cc)) h.1,
  )
  AllApply-switch enable i d a e at h =
      (All-closed d.all a.all h.0, All-pop_ids (Applies whole rule_id) d.ids a.ids rule_id h.1)

  -- Where the rest of the list stands in the whole list.
  abbrev StandsAt : ℕ → List Directive → Type 0
  StandsAt i ds = (j : ℕ) → get_elem? whole (i + j) ≡ get_elem? ds j

  StandsAt-head :
      (i : ℕ) (d : Directive) (ds : List Directive)
      → StandsAt i (d ∷ ds)
      → get_elem? whole i ≡ some d
  StandsAt-head i d ds at = rw add-zero at (at 0)

  StandsAt-tail :
      (i : ℕ) (d : Directive) (ds : List Directive) → StandsAt i (d ∷ ds) → StandsAt (i + 1) ds
  StandsAt-tail i d ds at j =
      let e : i + 1 + j ≡ i + suc j = omega arith in ap (get_elem? whole) e ∙ at (suc j)

  pub AllApply-loop :
      (i : ℕ) (ds : List Directive) (line : ℤ) (a : Active)
      → StandsAt i ds
      → AllApply a
      → AllApply (block_loop i ds line a)
  unfolding block_loop
  AllApply-loop i [] line a at h = h
  AllApply-loop i (d ∷ ds) line a at h = elim (Bool-cases (ltb_ℤ line d.line)) [
    | inl past ↦ rw past h
    | inr here ↦ rw here (
        AllApply-loop (i + 1) ds line (block_step i d a) (StandsAt-tail i d ds at)
          (AllApply-switch d.kind i d a refl (StandsAt-head i d ds at) h))
  ]

  hits-Applies :
      (i : ℕ) (d : Directive) (line : ℤ)
      → get_elem? whole i ≡ some d
      → hits d rule_id line ≡ true
      → Applies whole rule_id i
  unfolding hits
  hits-Applies i d line at h = (d, at, ground arith, λ on. ground arith)

  pub next_line-Applies :
      (i j : ℕ) (ds : List Directive) (line : ℤ)
      → StandsAt i ds
      → next_line i ds rule_id line ≡ some j
      → Applies whole rule_id j
  unfolding next_line
  next_line-Applies i j [] line at h = cc
  next_line-Applies i j (d ∷ ds) line at h = elim (Bool-cases (hits d rule_id line)) [
    | inl hit ↦
        let e : j ≡ i = ground (arith, hit) in
        rw e (hits-Applies i d line (StandsAt-head i d ds at) hit)
    | inr other ↦
        next_line-Applies (i + 1) j ds line (StandsAt-tail i d ds at) (rw (other, next_line) at h)
  ]

pub flag-mark_kept : (used : Used) (j i : ℕ) → flag used i ≡ true → flag (mark used j) i ≡ true
unfolding mark
flag-mark_kept none j i h = h
flag-mark_kept (some u) j i h = get_or-set_kept u j i h

pub flag-mark_all_kept :
    (used : Used) (is : List ℕ) (i : ℕ) → flag used i ≡ true → flag (mark_all used is) i ≡ true
unfolding mark_all
flag-mark_all_kept used [] i h = h
flag-mark_all_kept used (j ∷ is) i h =
    flag-mark_all_kept (mark used j) is i (flag-mark_kept used j i h)
