-- ===== src/Registry/Indexed.antt =====
-- pkg/lint/registry.go: the index of a registry is that of its entries, and what
-- `EnabledForProfile` gives.
use pawnlint.Base.{
  ℕ, zero, suc, ◌≡◌, ◌↔◌, refl, sym, ◌∙◌, true, inl, inr, ◌⊎◌, Bool-cases, Option-cases, Option,
  text_eq_refl, ◌&&◌, ap, none, some, List, [], ◌∷◌, ◌++◌, Text, All, get_elem?, length, text_eq,
  text_eq_iff, arith, if◌then◌else◌,
}
use mathlib.Core.Path.{subst}
use pawnlint.Diagnostic.{Severity}
use pawnlint.Registry.{
  Rule, Entry, Registrar, new_registrar, RegistryError, completed, rule_error, id_error, add_rule,
  register, alias_error, register_alias, entry_at,
}
use pawnlint.Registry.Book.{empty_book, Call, registering, aliasing, make, make_all}
use pawnlint.Registry.Specified.{entry_at-Refines, empty-Refines, make_all-Agree, built, book_built}
use pawnlint.Registry.Profiles.{
  Curated, profile_enables, enable_entry, enable_entries, enabled_for_profile,
}
use pawnlint.Registry.OwnIds.{book_built-IsBook}

-- The entries with an ID are all `e`.
abbrev Only : Text → Entry → List Entry → Type 0
Only id e es = All (λ x. text_eq x.meta.id id ≡ true → x ≡ e) es

-- The entry is enabled, with the severity.
abbrev pub Enables : Curated → Text → Severity → Entry → Type 0
Enables c p severity e =
    (profile_enables c p e.meta.id e.meta ≡ true) × (e.meta.default_severity ≡ severity)

enable_entries_sound :
    (c : Curated) (p : Text) (es : List Entry) (m : Text → Option Severity) (id : Text)
    (s : Severity)
    → enable_entries c p es m id ≡ some s
    → (m id ≡ some s)
      ⊎ ((j : ℕ) × (e : Entry) × (get_elem? es j ≡ some e) × (e.meta.id ≡ id) × Enables c p s e)
unfolding enable_entries
enable_entries_sound c p [] m id s h = inl h
enable_entries_sound c p (e ∷ es) m id s h =
    elim (enable_entries_sound c p es (enable_entry c p e m) id s h) [
      | inr (j, x, at, named, on) ↦ inr (suc j, x, at, named, on)
      | inl here ↦
          elim (Bool-cases (profile_enables c p e.meta.id e.meta && text_eq e.meta.id id)) [
            | inr other ↦ inl (ground (arith, other, here))
            | inl same ↦ inr (
              0,
              e,
              refl,
              (text_eq_iff e.meta.id id).0 (ground (arith, same)),
              (ground (arith, same), ground (arith, same, here)),
            )
          ]
    ]

-- What is enabled stays so, if the entries that follow with the same ID are no others.
enable_entries_keep :
    (c : Curated) (p : Text) (es : List Entry) (m : Text → Option Severity) (e : Entry)
    → Only e.meta.id e es
    → m e.meta.id ≡ some e.meta.default_severity
    → enable_entries c p es m e.meta.id ≡ some e.meta.default_severity
unfolding enable_entries
enable_entries_keep c p [] m e o h = h
enable_entries_keep c p (x ∷ xs) m e o h =
    enable_entries_keep c p xs (enable_entry c p x m) e o.1
      (elim (Bool-cases (text_eq x.meta.id e.meta.id)) [
        | inr other ↦ ground (arith, other, h)
        | inl same ↦
            let it : x.meta.default_severity ≡ e.meta.default_severity =
              ap (λ (y : Entry). y.meta.default_severity) (o.0 same) in
            ground (arith, same, h, it, Bool-cases (profile_enables c p x.meta.id x.meta))
      ])

enable_entries_complete :
    (c : Curated) (p : Text) (es : List Entry) (m : Text → Option Severity) (j : ℕ) (e : Entry)
    → Only e.meta.id e es
    → get_elem? es j ≡ some e
    → profile_enables c p e.meta.id e.meta ≡ true
    → enable_entries c p es m e.meta.id ≡ some e.meta.default_severity
unfolding enable_entries enable_entry
enable_entries_complete c p [] m j e o at on = cc
enable_entries_complete c p (x ∷ xs) m zero e o at on =
    let this : x ≡ e = cc in
    enable_entries_keep c p xs (enable_entry c p x m) e o.1 (
      subst (λ (y : Entry). enable_entry c p y m e.meta.id ≡ some e.meta.default_severity)
        (sym this) (ground (arith, on, text_eq_refl e.meta.id)))
enable_entries_complete c p (x ∷ xs) m (suc j) e o at on =
    enable_entries_complete c p xs (enable_entry c p x m) j e o.1 at on

-- Every entry is the one that the index finds under its ID.
pub record IsIndexed (reg : Registrar) : Type 0 where
  pub at_own : (j : ℕ) (e : Entry) → get_elem? reg.entries j ≡ some e → reg.by_id e.meta.id ≡ some j

get_elem?-append-cases {ℓ} :
    {A : Type ℓ} (xs : List A) (a x : A) (j : ℕ)
    → get_elem? (xs ++ a ∷ []) j ≡ some x
    → (get_elem? xs j ≡ some x) ⊎ ((j ≡ length xs) × (a ≡ x))
get_elem?-append-cases [] a x zero h = inr (refl, cc)
get_elem?-append-cases [] a x (suc j) h = absurd (cc)
get_elem?-append-cases (y ∷ ys) a x zero h = inl h
get_elem?-append-cases (y ∷ ys) a x (suc j) h = elim (get_elem?-append-cases ys a x j h) [
  | inl before ↦ inl before
  | inr (last, same) ↦ inr (ap suc last, same)
]

add_rule-IsIndexed :
    (reg : Registrar) (r : Rule)
    → IsIndexed reg
    → id_error reg r.metadata.id ≡ none
    → IsIndexed (add_rule reg r)
unfolding add_rule id_error completed
add_rule-IsIndexed reg r h new = record {
  at_own = λ j e found.
      elim (get_elem?-append-cases reg.entries (record { rule = r; meta = completed r.metadata }) e
        j found) [
          | inl before ↦
              let old = h.at_own j e before in
              elim (Bool-cases (text_eq r.metadata.id e.meta.id)) [
                | inl same ↦
                    let id : r.metadata.id ≡ e.meta.id =
                      (text_eq_iff r.metadata.id e.meta.id).0 same in
                    absurd (ground (arith, new, subst (λ x. reg.by_id x ≡ some j) (sym id) old))
                | inr other ↦ ground (arith, other, old)
              ]
          | inr (last, this) ↦
              subst
                (λ (x : Entry).
                  (if text_eq r.metadata.id x.meta.id
                    then some (length reg.entries)
                    else reg.by_id x.meta.id)
                  ≡ some j)
                this (ground (arith, text_eq_refl r.metadata.id, last))
        ];
}

-- A call ends with the registry `after` and the result `e`.
ended-IsIndexed :
    (x : Registrar × Option RegistryError) (after : Registrar) (e : Option RegistryError)
    → x ≡ (after, e)
    → IsIndexed after
    → IsIndexed x.0
ended-IsIndexed x after e p h = subst (λ z. IsIndexed z.0) (sym p) h

make-IsIndexed : (reg : Registrar) (c : Call) → IsIndexed reg → IsIndexed (make reg c).0
unfolding make register register_alias
make-IsIndexed reg (registering none) h = h
make-IsIndexed reg (registering (some r)) h = elim (Option-cases (rule_error r.metadata)) [
  | inr (bad, refused) ↦
      ended-IsIndexed (register reg (some r)) reg (some bad) (ground (arith, refused)) h
  | inl fine ↦ elim (Option-cases (id_error reg r.metadata.id)) [
    | inr (bad, refused) ↦
        ended-IsIndexed (register reg (some r)) reg (some bad) (ground (arith, fine, refused)) h
    | inl new ↦
        ended-IsIndexed (register reg (some r)) (add_rule reg r) none (ground (arith, fine, new))
          (add_rule-IsIndexed reg r h new)
  ]
]
make-IsIndexed reg (aliasing deprecated replacement) h =
    elim (Option-cases (alias_error reg deprecated replacement)) [
      | inr (bad, refused) ↦
          ended-IsIndexed (register_alias reg deprecated replacement) reg (some bad)
            (ground (arith, refused)) h
      | inl fine ↦
          ended-IsIndexed (register_alias reg deprecated replacement)
            (record reg {
              aliases =
                  reg.aliases ++ record { deprecated = deprecated; replacement = replacement } ∷ [];
            })
            none (ground (arith, fine)) (record { at_own = h.at_own })
    ]

make_all-IsIndexed :
    (reg : Registrar) (cs : List Call) → IsIndexed reg → IsIndexed (make_all reg cs).0
unfolding make_all
make_all-IsIndexed reg [] h = h
make_all-IsIndexed reg (c ∷ cs) h = make_all-IsIndexed (make reg c).0 cs (make-IsIndexed reg c h)

new_registrar-IsIndexed : IsIndexed new_registrar
unfolding new_registrar
new_registrar-IsIndexed = record { at_own = λ j e found. absurd (cc) }

All-of-at {ℓ κ} :
    {A : Type ℓ} (P : A → Type κ) (xs : List A)
    → ((j : ℕ) (x : A) → get_elem? xs j ≡ some x → P x)
    → All P xs
All-of-at P [] h = tt
All-of-at P (x ∷ xs) h = (h 0 x refl, All-of-at P xs (λ j. h (suc j)))

IsIndexed-Only :
    (reg : Registrar) (i : ℕ) (e : Entry)
    → IsIndexed reg
    → get_elem? reg.entries i ≡ some e
    → Only e.meta.id e reg.entries
IsIndexed-Only reg i e h at = All-of-at _ reg.entries (λ k x there same.
    let named : x.meta.id ≡ e.meta.id = (text_eq_iff x.meta.id e.meta.id).0 same in
    let index : reg.by_id e.meta.id ≡ some k =
      subst (λ y. reg.by_id y ≡ some k) named (h.at_own k x there) in
    let own = h.at_own i e at in
    let position : k ≡ i = cc in
    let found : get_elem? reg.entries i ≡ some x =
      subst (λ y. get_elem? reg.entries y ≡ some x) position there in
    cc)

entry_at-position :
    (reg : Registrar) (id : Text) (e : Entry)
    → entry_at reg id ≡ some e
    → (i : ℕ) × (get_elem? reg.entries i ≡ some e)
unfolding entry_at
entry_at-position reg id e found = elim (Option-cases (reg.by_id id)) [
  | inl nothing ↦ absurd (ground (arith, nothing, found))
  | inr (i, at) ↦ (i, ground (arith, at, found))
]

-- After any sequence of calls of Register and RegisterAlias, whatever was added to the profiles:
-- EnabledForProfile gives an ID a severity exactly if a rule is registered under that ID, the
-- profile enables it, and the severity is the rule's default.
pub enabled_for_profile_iff :
    (c : Curated) (cs : List Call) (p id : Text) (severity : Severity)
    → (enabled_for_profile c (built cs).0 p id ≡ some severity)
      ↔ ((e : Entry) × (entry_at (built cs).0 id ≡ some e) × Enables c p severity e)
unfolding enabled_for_profile entry_at
enabled_for_profile_iff c cs p id severity =
    let reg = (built cs).0 in
    let h = make_all-IsIndexed new_registrar cs new_registrar-IsIndexed in
    let refines = (make_all-Agree new_registrar empty_book cs empty-Refines).0 in
    (
      λ enabled. elim (enable_entries_sound c p reg.entries (λ x. none) id severity enabled) [
        | inl never ↦ absurd (cc)
        | inr (j, e, at, named, on) ↦
            (e, ground (arith, subst (λ x. reg.by_id x ≡ some j) named (h.at_own j e at), at), on)
      ],
      λ (e, found, on).
          let named : e.meta.id ≡ id =
            (book_built-IsBook cs).own_id id e
              (sym (entry_at-Refines reg (book_built cs).0 refines id) ∙ found) in
          let (i, at) = entry_at-position reg id e found in
          subst (λ x. enable_entries c p reg.entries (λ y. none) x ≡ some severity) named
            (enable_entries_complete c p reg.entries (λ y. none) i e (IsIndexed-Only reg i e h at)
                at on.0
              ∙ ap some on.1),
    )
