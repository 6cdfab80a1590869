-- ===== src/Baseline/Checked.antt =====
-- What `Validate` promises of a baseline that it lets pass.
use pawnlint.Base.{
  ℕ, ◌+◌, ◌≡◌, ◌↔◌, refl, true, false, inl, inr, Bool-cases, Option-cases, pos, ltb_ℤ, eqb_ℤ,
  eqb_ℤ_iff, none, List, [], ◌∷◌, Text, text_eq, text_eq_iff, sym, All, All-map, arith,
}
use pawnlint.Strings.{trim_space}
use pawnlint.Baseline.{
  Entry, File, Outside, version, valid_fingerprint, valid_path, listed, check_entry, check_entries,
  validate, fingerprints,
}

-- What one entry has to be.
abbrev pub IsWellFormed : Outside → Entry → Type 0
IsWellFormed o e =
    (valid_fingerprint e.fingerprint ≡ true)
    × (text_eq (trim_space e.rule_id) [] ≡ false)
    × (valid_path o e.path ≡ true)
    × (text_eq (trim_space e.message) [] ≡ false)
    × (ltb_ℤ e.line (pos 1) ≡ false)

abbrev pub IsDistinct : List Text → Type 0
IsDistinct [] = Unit
IsDistinct (f ∷ fs) = (listed f fs ≡ false) × IsDistinct fs

abbrev New : List Text → Entry → Type 0
New seen e = listed e.fingerprint seen ≡ false

check_entry_iff :
    (o : Outside) (position : ℕ) (seen : List Text) (e : Entry)
    → (check_entry o position seen e ≡ none) ↔ (IsWellFormed o e × New seen e)
unfolding check_entry
check_entry_iff o position seen e = ground arith

text_eq_comm : (s t : Text) → text_eq s t ≡ false → text_eq t s ≡ false
text_eq_comm s t h = elim (Bool-cases (text_eq t s)) [
  | inr differs ↦ differs
  | inl same ↦
      let e : s ≡ t = sym ((text_eq_iff t s).0 same) in
      absurd (ground (arith, (text_eq_iff s t).1 e, h))
]

-- Being new beside one more fingerprint is being new, and differing from it.
New-split :
    (f : Text) (seen : List Text) (es : List Entry)
    → All (New (f ∷ seen)) es ↔ ((listed f (fingerprints es) ≡ false) × All (New seen) es)
unfolding listed
New-split f seen [] = (λ h. (refl, tt), λ h. tt)
New-split f seen (e ∷ es) =
    let (to, back) = New-split f seen es in
    (
      λ h.
          let (a, b) = to (h.1) in
          (ground (arith, h.0, a, text_eq_comm f e.fingerprint), (ground (arith, h.0), b)),
      λ h. (
        ground (arith, h.0, h.1.0, text_eq_comm e.fingerprint f),
        back (ground (arith, h.0), h.1.1),
      ),
    )

check_entries_iff :
    (o : Outside) (position : ℕ) (seen : List Text) (es : List Entry)
    → (check_entries o position seen es ≡ none)
      ↔ (All (IsWellFormed o) es × IsDistinct (fingerprints es) × All (New seen) es)
unfolding check_entries
check_entries_iff o position seen [] = (λ h. (tt, tt, tt), λ h. refl)
check_entries_iff o position seen (e ∷ es) =
    let (to, back) = check_entries_iff o (position + 1) (e.fingerprint ∷ seen) es in
    let (split, unite) = New-split e.fingerprint seen es in
    let (one, other) = check_entry_iff o position seen e in
    (
      λ h. elim (Option-cases (check_entry o position seen e)) [
        | inl passes ↦
            let (well, distinct, new) = to (rw (passes, check_entries) at h) in
            let (differs, new') = split new in
            let (here, unseen) = one passes in ((here, well), (differs, distinct), (unseen, new'))
        | inr (bad, fails) ↦ absurd (ground (arith, fails))
      ],
      λ h. rw (other (h.0.0, h.2.0), check_entries) (back (h.0.1, h.1.1, unite (h.1.0, h.2.1))),
    )

-- `Validate` accepts exactly the baselines of version 1 whose entries are well-formed and whose
-- fingerprints are distinct.
pub validate_iff :
    (o : Outside) (file : File)
    → (validate o file ≡ none) ↔ (
        (file.version ≡ pos 1)
        × All (IsWellFormed o) file.entries
        × IsDistinct (fingerprints file.entries))
unfolding validate listed
validate_iff o file =
    let (to, back) = check_entries_iff o 1 [] file.entries in
    let (read, write) = eqb_ℤ_iff file.version version in
    (
      λ h. elim (Bool-cases (eqb_ℤ file.version version)) [
        | inl known ↦
            let (well, distinct, _) = to (rw (known, validate) at h) in (read known, well, distinct)
        | inr unknown ↦ absurd (ground (arith, unknown))
      ],
      λ h.
          rw (write (h.0), validate)
            (back (h.1, h.2, All-map (IsWellFormed o) (New []) file.entries (λ e _. refl) h.1)),
    )
