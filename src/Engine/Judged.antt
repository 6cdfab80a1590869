-- ===== src/Engine/Judged.antt =====
-- pkg/lint/engine.go: what looking up one diagnostic gives and records.
use pawnlint.Base.{
  ℕ, ◌≡◌, ap, sym, ◌∙◌, Bool, true, ◌&&◌, ◌⊎◌, inl, inr, ℤ, Option-cases, Bool-cases, none, some,
  List, Text, not, length, arith,
}
use pawnlint.LineTable.{LineTable}
use pawnlint.Diagnostic.{Diagnostic}
use pawnlint.Suppress.{Directive}
use pawnlint.Suppress.Matcher.{
  Used, mark_all, next_line, block_loop, none_active, is_empty, block_suppresses, is_suppressed,
}
use pawnlint.Suppress.Matcher.Used.{flag, Applies}
use pawnlint.Suppress.Matcher.Recorded.{
  recorded_sound, size, size-mark, size-mark_all, used_sound, used_complete,
}
use pawnlint.Engine.Hidden.{IsOwn, Hidden, IsOwn-other_file, other_file-IsOwn, judge-Hidden}
use pawnlint.Engine.{ProjectFiles, line_of, other_file, judge}

is_suppressed_verdict :
    (ds : List Directive) (used : Used) (rule_id : Text) (line : ℤ)
    → (is_suppressed ds used rule_id line).1 ≡ (is_suppressed ds none rule_id line).1
unfolding is_suppressed block_suppresses
is_suppressed_verdict ds used rule_id line = elim (Option-cases (next_line 0 ds rule_id line)) [
  | inr (i, found) ↦ ground (arith, found)
  | inl missing ↦
      elim (Bool-cases (
        is_empty (block_loop 0 ds line none_active).all
        && is_empty ((block_loop 0 ds line none_active).ids rule_id))) [
          | inl idle ↦ ground (arith, missing, idle)
          | inr busy ↦ ground (arith, missing, busy)
        ]
]

size-is_suppressed :
    (ds : List Directive) (used : Used) (rule_id : Text) (line : ℤ)
    → size (is_suppressed ds used rule_id line).0 ≡ size used
unfolding is_suppressed block_suppresses
size-is_suppressed ds used rule_id line = elim (Option-cases (next_line 0 ds rule_id line)) [
  | inr (i, found) ↦ ground (arith, found, size-mark used i)
  | inl missing ↦
      let a = block_loop 0 ds line none_active in
      elim (Bool-cases (is_empty a.all && is_empty (a.ids rule_id))) [
        | inl idle ↦ ground (arith, missing, idle)
        | inr busy ↦ ground (
          arith,
          missing,
          busy,
          size-mark_all (mark_all used a.all) (a.ids rule_id),
          size-mark_all used a.all,
        )
      ]
]

module _ (project : ProjectFiles) (path : Text) (lt : LineTable) (supps : List Directive) where
  abbrev pub is_shown : Diagnostic → Bool
  is_shown d = not (judge project path lt supps none d).1

  suppressed-Hidden :
      (d : Diagnostic)
      → (judge project path lt supps none d).1 ≡ true
      → Hidden project path lt supps d
  suppressed-Hidden d e = elim (judge-Hidden project path lt supps d) [
    | inl (_, hidden) ↦ hidden
    | inr (shown, _) ↦ absurd (cc)
  ]

  Hidden-suppressed :
      (d : Diagnostic)
      → Hidden project path lt supps d
      → (judge project path lt supps none d).1 ≡ true
  Hidden-suppressed d h = elim (judge-Hidden project path lt supps d) [
    | inl (suppressed, _) ↦ suppressed
    | inr (_, visible) ↦ absurd (visible h)
  ]

  -- The diagnostic is one of the linted file, hidden, and directive `i` switches its rule off.
  abbrev pub Needs : ℕ → Diagnostic → Type 0
  Needs i d =
      IsOwn project path lt supps d × Hidden project path lt supps d × Applies supps d.rule_id i

  pub judge_verdict :
      (used : Used) (d : Diagnostic)
      → (judge project path lt supps used d).1 ≡ (judge project path lt supps none d).1
  unfolding judge
  judge_verdict used d = elim (Option-cases (other_file project path d)) [
    | inr (file, found) ↦ ground (arith, found)
    | inl own ↦
        ground (arith, own, is_suppressed_verdict supps used d.rule_id (line_of (some lt) d))
  ]

  pub size-judge :
      (used : Used) (d : Diagnostic) → size (judge project path lt supps used d).0 ≡ size used
  unfolding judge
  size-judge used d = elim (Option-cases (other_file project path d)) [
    | inr (file, found) ↦ ground (arith, found)
    | inl own ↦ ground (arith, own, size-is_suppressed supps used d.rule_id (line_of (some lt) d))
  ]

  -- What a diagnostic adds to the flags.
  pub judge_records :
      (used : Used) (d : Diagnostic) (i : ℕ)
      → size used ≡ length supps
      → flag (judge project path lt supps used d).0 i ≡ true
      → (flag used i ≡ true) ⊎ Needs i d
  unfolding judge
  judge_records used d i fits h = elim (Option-cases (other_file project path d)) [
    | inr (file, found) ↦ inl (ground (arith, found, h))
    | inl own ↦
        let line = line_of (some lt) d in
        let before : flag (is_suppressed supps used d.rule_id line).0 i ≡ true =
          ground (arith, own, h) in
        elim (used_complete supps used d.rule_id line fits) [
          | inr (shown, same) ↦ inl (ap (λ u. flag u i) (sym same) ∙ before)
          | inl (suppressed, j, at, recorded) ↦
              elim (used_sound supps used d.rule_id line i before) [
                | inl old ↦ inl old
                | inr applies ↦ inr (
                  other_file-IsOwn project path lt supps d own,
                  suppressed-Hidden d (
                      ground
                        (arith, own, is_suppressed_verdict supps used d.rule_id line, suppressed)),
                  applies,
                )
              ]
        ]
  ]

  pub judge_keeps :
      (used : Used) (d : Diagnostic) (i : ℕ)
      → flag used i ≡ true
      → flag (judge project path lt supps used d).0 i ≡ true
  unfolding judge
  judge_keeps used d i h = elim (Option-cases (other_file project path d)) [
    | inr (file, found) ↦ ground (arith, found, h)
    | inl own ↦
        ground (arith, own, (recorded_sound supps used d.rule_id (line_of (some lt) d) i).1 h)
  ]

  -- A suppressed diagnostic of the file leaves a flag.
  pub judge_complete :
      (used : Used) (d : Diagnostic)
      → size used ≡ length supps
      → IsOwn project path lt supps d
      → Hidden project path lt supps d
      → (i : ℕ) × Applies supps d.rule_id i × (flag (judge project path lt supps used d).0 i ≡ true)
  unfolding judge
  judge_complete used d fits is_own hidden =
      let own = IsOwn-other_file project path lt supps d is_own in
      let h = Hidden-suppressed d hidden in
      let line = line_of (some lt) d in
      let verdict : (is_suppressed supps used d.rule_id line).1 ≡ true =
        ground (arith, own, h, is_suppressed_verdict supps used d.rule_id line) in
      elim (used_complete supps used d.rule_id line fits) [
        | inl (suppressed, i, applies, recorded) ↦ (i, applies, ground (arith, own, recorded))
        | inr (shown, same) ↦ absurd (cc)
      ]
