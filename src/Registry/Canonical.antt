-- ===== src/Registry/Canonical.antt =====
-- pkg/lint/registry.go: the IDs that `ResolveID` returns. They are those of rules, and no alias
-- leads to an alias.
use pawnlint.Base.{
  ◌≡◌, ◌≢◌, ◌↔◌, text_eq_refl, refl, sym, ◌∙◌, Bool, false, inl, inr, ◌⊎◌, Bool-cases, Option-cases,
  Option, none, some, List, Text, text_eq, text_eq_iff, arith,
}
use mathlib.Core.Path.{subst}
use pawnlint.Registry.{
  Metadata, Rule, Entry, Registrar, new_registrar, RegistryError, completed, rule_error, add_rule,
  register, resolve_id, find_entry, lookup,
}
use pawnlint.Registry.Book.{
  Book, empty_book, book_id_error, with_rule, book_resolve, book_find, Call,
}
use pawnlint.Registry.Specified.{
  Refines, resolve_id-Refines, find_entry-Refines, empty-Refines, id_error-Refines,
  add_rule-Refines, make_all-Agree, built, book_built, registry_refines,
}
use pawnlint.Registry.OwnIds.{IsBook, book_built-IsBook}

book_canonical :
    (b : Book) (id resolved : Text) (deprecated : Bool)
    → IsBook b
    → book_resolve b id ≡ some (resolved, deprecated)
    → (e : Entry) × (book_find b id ≡ some e)
      × (e.meta.id ≡ resolved)
      × (book_resolve b resolved ≡ some (resolved, false))
unfolding book_resolve book_find
book_canonical b id resolved deprecated h found = elim (Option-cases (b.rules id)) [
  | inr (e, here) ↦
      let same : id ≡ resolved = ground (arith, here, found) in
      (
        e,
        ground (arith, here),
        subst (λ x. e.meta.id ≡ x) same (h.own_id id e here),
        subst (λ x. book_resolve b x ≡ some (x, false)) same (ground (arith, here)),
      )
  | inl absent ↦ elim (Option-cases (b.targets id)) [
    | inl nothing ↦ absurd (ground (arith, absent, nothing, found))
    | inr (target, alias) ↦
        let same : target ≡ resolved = ground (arith, absent, alias, found) in
        let (free, (e, there)) = h.stands_for id target alias in
        (
          e,
          ground (arith, absent, alias, there),
          subst (λ x. e.meta.id ≡ x) same (h.own_id target e there),
          subst (λ x. book_resolve b x ≡ some (x, false)) same (ground (arith, there)),
        )
  ]
]

-- Another rule does not change what an ID is found as.
with_rule_keeps :
    (b : Book) (r : Rule) (id : Text)
    → IsBook b
    → book_id_error b r.metadata.id ≡ none
    → text_eq r.metadata.id id ≡ false
    → book_find (with_rule b r) id ≡ book_find b id
unfolding book_find book_resolve with_rule book_id_error
with_rule_keeps b r id h new other = elim (Option-cases (b.rules id)) [
  | inr (e, here) ↦ ground (arith, other, here)
  | inl absent ↦ elim (Option-cases (b.targets id)) [
    | inl nothing ↦ ground (arith, other, absent, nothing)
    | inr (target, alias) ↦
        let (free, (e, there)) = h.stands_for id target alias in
        elim (Bool-cases (text_eq r.metadata.id target)) [
          | inl same ↦ absurd (ground (arith, new, there, same, text_eq_iff r.metadata.id target))
          | inr apart ↦ ground (arith, other, absent, alias, there, apart)
        ]
  ]
]

-- A registry in which a rule was registered, and one in which it was refused.
abbrev pub Accepted : Registrar → Rule → Registrar × Option RegistryError → Type 0
Accepted reg r after =
    (after.1 ≡ none)
    × (rule_error r.metadata ≡ none)
    × (resolve_id reg r.metadata.id ≡ none)
    × (find_entry after.0 r.metadata.id ≡ some (record { rule = r; meta = completed r.metadata }))
    × ((id : Text) → text_eq r.metadata.id id ≡ false → find_entry after.0 id ≡ find_entry reg id)

abbrev pub Refused : Registrar → Rule → Registrar × Option RegistryError → Type 0
Refused reg r after =
    (after.0 ≡ reg)
    × ((e : RegistryError) × (after.1 ≡ some e))
    × ((rule_error r.metadata ≢ none) ⊎ (resolve_id reg r.metadata.id ≢ none))

book_id_error-none :
    (b : Book) (id : Text) → (book_id_error b id ≡ none) ↔ (book_resolve b id ≡ none)
unfolding book_id_error book_resolve
book_id_error-none b id = elim (Option-cases (b.rules id)) [
  | inr (e, here) ↦
      ((λ p. absurd (ground (arith, here, p))), (λ p. absurd (ground (arith, here, p))))
  | inl absent ↦ elim (Option-cases (b.targets id)) [
    | inl nothing ↦ ((λ p. ground (arith, absent, nothing)), (λ p. ground (arith, absent, nothing)))
    | inr (t, alias) ↦ (
      (λ p. absurd (ground (arith, absent, alias, p))),
      (λ p. absurd (ground (arith, absent, alias, p))),
    )
  ]
]

with_rule-finds :
    (b : Book) (r : Rule)
    → book_find (with_rule b r) r.metadata.id
      ≡ some (record { rule = r; meta = completed r.metadata })
unfolding book_find book_resolve with_rule
with_rule-finds b r = ground (arith, text_eq_refl r.metadata.id)

module _ (reg : Registrar) (b : Book) (h : Refines reg b) (i : IsBook b) (r : Rule) where
  register-Accepted :
      rule_error r.metadata ≡ none
      → book_id_error b r.metadata.id ≡ none
      → Accepted reg r (register reg (some r))
  unfolding register
  register-Accepted fine new =
      let done : register reg (some r) ≡ (add_rule reg r, none) =
        ground (arith, fine, new, id_error-Refines reg b h r.metadata.id) in
      let after = add_rule-Refines reg b h r in
      subst (Accepted reg r) (sym done) (
        refl,
        fine,
        resolve_id-Refines reg b h r.metadata.id ∙ (book_id_error-none b r.metadata.id).0 new,
        find_entry-Refines (add_rule reg r) (with_rule b r) after r.metadata.id
            ∙ with_rule-finds b r,
        λ id other.
            find_entry-Refines (add_rule reg r) (with_rule b r) after id
            ∙ with_rule_keeps b r id i new other
            ∙ sym (find_entry-Refines reg b h id),
      )

  register-Refused :
      (bad : RegistryError)
      → register reg (some r) ≡ (reg, some bad)
      → (rule_error r.metadata ≢ none) ⊎ (book_id_error b r.metadata.id ≢ none)
      → Refused reg r (register reg (some r))
  register-Refused bad done why = subst (Refused reg r) (sym done) (
    refl,
    (bad, refl),
    elim why [
      | inl invalid ↦ inl invalid
      | inr known ↦ inr (λ e. known (
          (book_id_error-none b r.metadata.id).1
            (sym (resolve_id-Refines reg b h r.metadata.id) ∙ e)))
    ],
  )

  register_cases : Accepted reg r (register reg (some r)) ⊎ Refused reg r (register reg (some r))
  unfolding register
  register_cases = elim (Option-cases (rule_error r.metadata)) [
    | inr (bad, refused) ↦
        inr (register-Refused bad (ground (arith, refused)) (inl (λ e. ground (arith, refused, e))))
    | inl fine ↦ elim (Option-cases (book_id_error b r.metadata.id)) [
      | inl new ↦ inl (register-Accepted fine new)
      | inr (bad, refused) ↦ inr (
          register-Refused bad
            (ground (arith, fine, refused, id_error-Refines reg b h r.metadata.id))
            (inr (λ e. ground (arith, refused, e))))
    ]
  ]

-- After any sequence of calls of Register and RegisterAlias, Register of a rule either returns no
-- error, and then the rule is valid, its ID was neither that of a rule nor an alias, Lookup finds it
-- afterwards with its completed metadata, and finds every other ID as before. Or it returns an
-- error and leaves the registry as it was, and then the rule is not valid or its ID was known.
pub register_effect :
    (cs : List Call) (r : Rule)
    → Accepted (built cs).0 r (register (built cs).0 (some r))
      ⊎ Refused (built cs).0 r (register (built cs).0 (some r))
register_effect cs r =
    register_cases (built cs).0 (book_built cs).0
      (make_all-Agree new_registrar empty_book cs empty-Refines).0 (book_built-IsBook cs) r

-- After any sequence of calls of Register and RegisterAlias: an ID that ResolveID knows is found,
-- the ID in the metadata is the one that ResolveID returns, and that one is no alias but resolves
-- to itself.
pub resolve_id_canonical :
    (cs : List Call) (id resolved : Text) (deprecated : Bool)
    → resolve_id (built cs).0 id ≡ some (resolved, deprecated)
    → (m : Metadata) × (lookup (built cs).0 id ≡ some m)
      × (m.id ≡ resolved)
      × (resolve_id (built cs).0 resolved ≡ some (resolved, false))
unfolding lookup
resolve_id_canonical cs id resolved deprecated found =
    let (results, resolves, finds) = registry_refines cs id in
    let (same_results, resolves_again, finds_again) = registry_refines cs resolved in
    let (e, entry, named, itself) =
      book_canonical (book_built cs).0 id resolved deprecated (book_built-IsBook cs)
        (sym resolves ∙ found) in
    (e.meta, ground (arith, finds, entry), named, resolves_again ∙ itself)
