-- ===== src/Options/ReadObjects.antt =====
-- pkg/lint/options.go: the objects that `objectListOption` returns hold what its readers return,
-- and every required field.
use mathlib.Core.Path.{subst}
use pawnlint.Base.{
  ℕ, ◌+◌, ◌≡◌, true, false, inl, inr, ◌⊎◌, Bool-cases, Result-cases, Option, none, some, List, [],
  ◌∷◌, Text, arith, All, text_eq, text_eq_iff, text_eq_refl, Option-cases,
}
use pawnlint.Options.{
  Value, Entries, no_entries, entry, Objects, no_objects, object, option, Fields, no_fields,
  field_of, has_key, put, Reader, find_reader, read_given, fill_missing, read_object, read_objects,
  readers,
}
use pawnlint.Options.Fits.{AllEntries, Present, AllPresent, AllObjects}

-- Readers whose results satisfy what is asked of an entry.
abbrev pub Reads : (Text → Value → Type 0) → Reader → Type 0
Reads P r = (v w : Value) → r.normalize v ≡ inr w → P r.spec.name w

-- A round of `fillMissing` that succeeds passes the field over, or adds what its default reads as.
pub fill_missing-step :
    (i : ℕ) (r : Reader) (rs : List Reader) (done result : Entries)
    → fill_missing i (r ∷ rs) done ≡ inr result
    → (((has_key r.spec.name done ≡ true) ⊎ ((r.spec.required ≡ false) × (r.spec.default ≡ none)))
        × (fill_missing i rs done ≡ inr result))
      ⊎ ((v : Value) × (w : Value) × (r.normalize v ≡ inr w)
          × (fill_missing i rs (put r.spec.name w done) ≡ inr result))
unfolding fill_missing
fill_missing-step i r rs done result e = elim (Bool-cases (has_key r.spec.name done)) [
  | inl there ↦ inl (inl there, ground (arith, there, e))
  | inr missing ↦ elim (Bool-cases r.spec.required) [
    | inl needed ↦ absurd (ground (arith, missing, needed, e))
    | inr free ↦ elim (Option-cases r.spec.default) [
      | inl nothing ↦ inl (inr (free, nothing), ground (arith, missing, free, nothing, e))
      | inr (d, given) ↦ elim (Result-cases (r.normalize d)) [
        | inl (bad, failed) ↦ absurd (ground (arith, missing, free, given, failed, e))
        | inr (w, ok) ↦ inr (d, w, ok, ground (arith, missing, free, given, ok, e))
      ]
    ]
  ]
]

module _ (P : Text → Value → Type 0) where
  pub put-AllEntries :
      (k : Text) (w : Value) (es : Entries) → P k w → AllEntries P es → AllEntries P (put k w es)
  unfolding put
  put-AllEntries k w no_entries p h = (p, tt)
  put-AllEntries k w (entry n v es) p h = ground (arith, put-AllEntries k w es p h.1)

  pub find_reader-Reads :
      (k : Text) (rs : List Reader) (r : Reader)
      → All (Reads P) rs
      → find_reader k rs ≡ some r
      → (v w : Value) → r.normalize v ≡ inr w
      → P k w
  unfolding find_reader
  find_reader-Reads k [] r h e v w n = cc
  find_reader-Reads k (q ∷ qs) r h e v w n = elim (Option-cases (find_reader k qs)) [
    | inr (l, later) ↦ find_reader-Reads k qs r h.1 (ground (arith, later, e)) v w n
    | inl nothing ↦ elim (Bool-cases (text_eq q.spec.name k)) [
      | inl same ↦
          let found : q ≡ r = ground (arith, nothing, same, e) in
          let named : q.spec.name ≡ k = ground (arith, text_eq_iff q.spec.name k) in
          let read : P q.spec.name w = h.0 v w (rw found n) in rw named at read
      | inr other ↦ absurd (ground (arith, nothing, other, e))
    ]
  ]

  pub read_given-AllEntries :
      (rs : List Reader) (i : ℕ) (es done result : Entries)
      → All (Reads P) rs
      → AllEntries P done
      → read_given rs i es done ≡ inr result
      → AllEntries P result
  unfolding read_given
  read_given-AllEntries rs i no_entries done result h d e =
      let same : done ≡ result = cc in rw same at d
  read_given-AllEntries rs i (entry n v es) done result h d e =
      elim (Option-cases (find_reader n rs)) [
        | inl nothing ↦ absurd (ground (arith, nothing, e))
        | inr (r, found) ↦ elim (Result-cases (r.normalize v)) [
          | inl (bad, failed) ↦ absurd (ground (arith, found, failed, e))
          | inr (w, ok) ↦
              read_given-AllEntries rs i es (put n w done) result h
                (put-AllEntries n w done (find_reader-Reads n rs r h found v w ok) d)
                (ground (arith, found, ok, e))
        ]
      ]

  pub fill_missing-AllEntries :
      (i : ℕ) (rs : List Reader) (done result : Entries)
      → All (Reads P) rs
      → AllEntries P done
      → fill_missing i rs done ≡ inr result
      → AllEntries P result
  unfolding fill_missing
  fill_missing-AllEntries i [] done result h d e = let same : done ≡ result = cc in rw same at d
  fill_missing-AllEntries i (r ∷ rs) done result h d e =
      elim (fill_missing-step i r rs done result e) [
        | inl skip ↦ fill_missing-AllEntries i rs done result h.1 d skip.1
        | inr (v, w, ok, rest) ↦
            fill_missing-AllEntries i rs (put r.spec.name w done) result h.1
              (put-AllEntries r.spec.name w done (h.0 v w ok) d) rest
      ]

pub put-has_key : (k : Text) (w : Value) (es : Entries) → has_key k (put k w es) ≡ true
unfolding put
put-has_key k w no_entries = ground (arith, text_eq_refl k)
put-has_key k w (entry n v es) = ground (arith, text_eq_refl k, put-has_key k w es)

pub put_keeps :
    (j k : Text) (w : Value) (es : Entries) → has_key j es ≡ true → has_key j (put k w es) ≡ true
unfolding put
put_keeps j k w no_entries h = cc
put_keeps j k w (entry n v es) h = ground (arith, put_keeps j k w es, text_eq_iff n k)

pub fill_missing_keeps :
    (j : Text) (i : ℕ) (rs : List Reader) (done result : Entries)
    → has_key j done ≡ true
    → fill_missing i rs done ≡ inr result
    → has_key j result ≡ true
unfolding fill_missing
fill_missing_keeps j i [] done result h e = let same : done ≡ result = cc in rw same at h
fill_missing_keeps j i (r ∷ rs) done result h e = elim (fill_missing-step i r rs done result e) [
  | inl skip ↦ fill_missing_keeps j i rs done result h skip.1
  | inr (v, w, ok, rest) ↦
      fill_missing_keeps j i rs (put r.spec.name w done) result (put_keeps j r.spec.name w done h)
        rest
]

pub fill_missing-Present :
    (i : ℕ) (rs : List Reader) (done result : Entries)
    → fill_missing i rs done ≡ inr result
    → All (λ r. Present result r.spec) rs
fill_missing-Present i [] done result e = tt
fill_missing-Present i (r ∷ rs) done result e = elim (fill_missing-step i r rs done result e) [
  | inl (inl there, rest) ↦ (
    λ need. fill_missing_keeps r.spec.name i rs done result there rest,
    fill_missing-Present i rs done result rest,
  )
  | inl (inr (free, nothing), rest) ↦ (
    λ need. absurd (elim need [ inl required ↦ cc | inr (d, given) ↦ cc ]),
    fill_missing-Present i rs done result rest,
  )
  | inr (v, w, ok, rest) ↦ (
    λ need.
        fill_missing_keeps r.spec.name i rs (put r.spec.name w done) result
          (put-has_key r.spec.name w done) rest,
    fill_missing-Present i rs (put r.spec.name w done) result rest,
  )
]

pub readers-AllPresent :
    (es : Entries) (fs : Fields) → All (λ r. Present es r.spec) (readers fs) → AllPresent es fs
unfolding readers
readers-AllPresent es no_fields h = tt
readers-AllPresent es (field_of (option s gs) fs) h = (h.0, readers-AllPresent es fs h.1)

module _ (P : Text → Value → Type 0) (fs : Fields) (h : All (Reads P) (readers fs)) where
  pub read_object-Fits :
      (i : ℕ) (es result : Entries)
      → read_object (readers fs) i es ≡ inr result
      → AllEntries P result × AllPresent result fs
  unfolding read_object
  read_object-Fits i es result e = elim (Result-cases (read_given (readers fs) i es no_entries)) [
    | inl (bad, failed) ↦ absurd (ground (arith, failed, e))
    | inr (done, ok) ↦
        let filled : fill_missing i (readers fs) done ≡ inr result = ground (arith, ok, e) in
        (
          fill_missing-AllEntries P i (readers fs) done result h
              (read_given-AllEntries P (readers fs) i es no_entries done h tt ok) filled,
          readers-AllPresent result fs (fill_missing-Present i (readers fs) done result filled),
        )
  ]

  pub read_objects-Fits :
      (i : ℕ) (items : List (Option Entries)) (result : Objects)
      → read_objects (readers fs) i items ≡ inr result
      → AllObjects (λ es. AllEntries P es × AllPresent es fs) result
  unfolding read_objects
  read_objects-Fits i [] result e =
      let same : no_objects ≡ result = cc in
      subst (λ os. AllObjects (λ es. AllEntries P es × AllPresent es fs) os) same tt
  read_objects-Fits i (none ∷ items) result e = absurd (cc)
  read_objects-Fits i (some es ∷ items) result e =
      elim (Result-cases (read_object (readers fs) i es)) [
        | inl (bad, failed) ↦ absurd (ground (arith, failed, e))
        | inr (done, ok) ↦ elim (Result-cases (read_objects (readers fs) (i + 1) items)) [
          | inl (bad, failed) ↦ absurd (ground (arith, ok, failed, e))
          | inr (rest, more) ↦
              let same : object done rest ≡ result = ground (arith, ok, more, e) in
              subst (λ os. AllObjects (λ es. AllEntries P es × AllPresent es fs) os) same
                (read_object-Fits i es done ok, read_objects-Fits (i + 1) items rest more)
        ]
      ]
