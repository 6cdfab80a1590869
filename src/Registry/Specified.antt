-- ===== src/Registry/Specified.antt =====
-- pkg/lint/registry.go: the registry keeps to the two maps of Book.
use mathlib.Core.Path.{subst, ap₂}
use pawnlint.Base.{
  ℕ, zero, suc, ◌≡◌, refl, sym, inl, inr, ◌⊎◌, Bool-cases, Option-cases, Option, none, some, List,
  [], ◌∷◌, ◌++◌, Text, length, get_elem?, text_eq, text_eq_iff, arith, if◌then◌else◌,
}
use pawnlint.Registry.{
  Rule, Entry, RuleAlias, Registrar, new_registrar, find_alias, RegistryError, is_some, completed,
  rule_error, id_error, add_rule, register, alias_error, register_alias, resolve_id, entry_at,
  find_entry,
}
use pawnlint.Registry.Book.{
  Book, empty_book, book_id_error, book_alias_error, with_rule, with_alias, book_register,
  book_alias, book_resolve, book_find, Call, registering, aliasing, make, book_make, make_all,
  book_make_all,
}

abbrev EntryAt : Registrar → Book → Text → Type 0
EntryAt reg b id =
    ((reg.by_id id ≡ none) × (b.rules id ≡ none))
    ⊎ ((i : ℕ) × (e : Entry) × (reg.by_id id ≡ some i)
        × (get_elem? reg.entries i ≡ some e)
        × (b.rules id ≡ some e))

pub record Refines (reg : Registrar) (b : Book) : Type 0 where
  pub rule_at : (id : Text) → EntryAt reg b id
  pub target_at : (id : Text) → find_alias id reg.aliases ≡ b.targets id

module _ (reg : Registrar) (b : Book) (h : Refines reg b) where
  pub entry_at-Refines : (id : Text) → entry_at reg id ≡ b.rules id
  unfolding entry_at
  entry_at-Refines id = elim (h.rule_at id) [
    | inl (x, y) ↦ ground (arith, x, y)
    | inr (i, e, x, y, z) ↦ ground (arith, x, y, z)
  ]

  known-Refines : (id : Text) → is_some (reg.by_id id) ≡ is_some (b.rules id)
  known-Refines id = elim (h.rule_at id) [
    | inl (x, y) ↦ ground (arith, x, y)
    | inr (i, e, x, y, z) ↦ ground (arith, x, z)
  ]

  pub resolve_id-Refines : (id : Text) → resolve_id reg id ≡ book_resolve b id
  unfolding resolve_id book_resolve
  resolve_id-Refines id = elim (h.rule_at id) [
    | inl (x, y) ↦ ground (arith, x, y, h.target_at id)
    | inr (i, e, x, y, z) ↦ ground (arith, x, z)
  ]

  pub find_entry-Refines : (id : Text) → find_entry reg id ≡ book_find b id
  unfolding find_entry book_find
  find_entry-Refines id = elim (Option-cases (book_resolve b id)) [
    | inl unknown ↦ ground (arith, resolve_id-Refines id, unknown)
    | inr ((resolved, deprecated), found) ↦
        ground (arith, resolve_id-Refines id, found, entry_at-Refines resolved)
  ]

get_elem?-append {ℓ} :
    {A : Type ℓ} (xs ys : List A) (i : ℕ) (a : A)
    → get_elem? xs i ≡ some a
    → get_elem? (xs ++ ys) i ≡ some a
get_elem?-append [] ys i a h = cc
get_elem?-append (x ∷ xs) ys zero a h = h
get_elem?-append (x ∷ xs) ys (suc i) a h = get_elem?-append xs ys i a h

get_elem?_last {ℓ} :
    {A : Type ℓ} (xs : List A) (a : A) → get_elem? (xs ++ a ∷ []) (length xs) ≡ some a
get_elem?_last [] a = refl
get_elem?_last (x ∷ xs) a = get_elem?_last xs a

find_alias_last :
    (id : Text) (aliases : List RuleAlias) (a : RuleAlias)
    → find_alias a.deprecated aliases ≡ none
    → find_alias id (aliases ++ a ∷ [])
      ≡ (if text_eq a.deprecated id then some a.replacement else find_alias id aliases)
unfolding find_alias
find_alias_last id [] a h = refl
find_alias_last id (b ∷ bs) a h = ground (
  arith,
  find_alias_last id bs a,
  text_eq_iff b.deprecated id,
  text_eq_iff a.deprecated id,
  text_eq_iff b.deprecated a.deprecated,
)

pub empty-Refines : Refines new_registrar empty_book
unfolding new_registrar empty_book find_alias
empty-Refines = record { rule_at = λ id. inl (refl, refl); target_at = λ id. refl }

-- What a call leaves refines what the specification leaves, with the same result.
abbrev Agree : Registrar × Option RegistryError → Book × Option RegistryError → Type 0
Agree x y = Refines x.0 y.0 × (x.1 ≡ y.1)

agree :
    (x : Registrar × Option RegistryError) (y : Book × Option RegistryError) (reg : Registrar)
    (b : Book) (e : Option RegistryError)
    → x ≡ (reg, e)
    → y ≡ (b, e)
    → Refines reg b
    → Agree x y
agree x y reg b e p q h =
    subst (λ z. Agree z y) (sym p) (subst (λ z. Agree (reg, e) z) (sym q) (h, refl))

module _ (reg : Registrar) (b : Book) (h : Refines reg b) where
  pub id_error-Refines : (id : Text) → id_error reg id ≡ book_id_error b id
  unfolding id_error book_id_error
  id_error-Refines id = ground (arith, known-Refines reg b h id, h.target_at id)

  alias_error-Refines :
      (deprecated replacement : Text)
      → alias_error reg deprecated replacement ≡ book_alias_error b deprecated replacement
  unfolding alias_error book_alias_error
  alias_error-Refines deprecated replacement = ground (
    arith,
    known-Refines reg b h deprecated,
    known-Refines reg b h replacement,
    h.target_at deprecated,
  )

  no_alias :
      (deprecated replacement : Text)
      → book_alias_error b deprecated replacement ≡ none
      → find_alias deprecated reg.aliases ≡ none
  unfolding book_alias_error
  no_alias deprecated replacement e =
      ground (arith, e, h.target_at deprecated, Option-cases (b.targets deprecated))

  pub add_rule-Refines : (r : Rule) → Refines (add_rule reg r) (with_rule b r)
  unfolding add_rule with_rule
  add_rule-Refines r = record {
    target_at = h.target_at;
    rule_at = λ id. elim (Bool-cases (text_eq r.metadata.id id)) [
      | inl same ↦ inr (
        length reg.entries,
        record { rule = r; meta = completed r.metadata },
        ground (arith, same),
        get_elem?_last reg.entries (record { rule = r; meta = completed r.metadata }),
        ground (arith, same),
      )
      | inr other ↦ elim (h.rule_at id) [
        | inl (x, y) ↦ inl (ground (arith, other, x), ground (arith, other, y))
        | inr (i, e, x, y, z) ↦ inr (
          i,
          e,
          ground (arith, other, x),
          get_elem?-append reg.entries _ i e y,
          ground (arith, other, z),
        )
      ]
    ];
  }

  register-Agree : (r : Option Rule) → Agree (register reg r) (book_register b r)
  unfolding register book_register
  register-Agree none = (h, refl)
  register-Agree (some r) = elim (Option-cases (rule_error r.metadata)) [
    | inr (bad, refused) ↦
        agree (register reg (some r)) (book_register b (some r)) reg b (some bad)
          (ground (arith, refused)) (ground (arith, refused)) h
    | inl fine ↦ elim (Option-cases (book_id_error b r.metadata.id)) [
      | inr (bad, refused) ↦
          agree (register reg (some r)) (book_register b (some r)) reg b (some bad)
            (ground (arith, fine, refused, id_error-Refines r.metadata.id))
            (ground (arith, fine, refused)) h
      | inl new ↦
          agree (register reg (some r)) (book_register b (some r)) (add_rule reg r) (with_rule b r)
            none (ground (arith, fine, new, id_error-Refines r.metadata.id))
            (ground (arith, fine, new)) (add_rule-Refines r)
    ]
  ]

  add_alias-Refines :
      (a : RuleAlias)
      → find_alias a.deprecated reg.aliases ≡ none
      → Refines
          (record reg { aliases = reg.aliases ++ a ∷ [] })
          (with_alias b a.deprecated a.replacement)
  unfolding with_alias
  add_alias-Refines a new = record {
    rule_at = h.rule_at;
    target_at = λ id. ground (arith, find_alias_last id reg.aliases a new, h.target_at id);
  }

  register_alias-Agree :
      (deprecated replacement : Text)
      → Agree (register_alias reg deprecated replacement) (book_alias b deprecated replacement)
  unfolding register_alias book_alias
  register_alias-Agree deprecated replacement =
      let same = alias_error-Refines deprecated replacement in
      elim (Option-cases (book_alias_error b deprecated replacement)) [
        | inr (bad, refused) ↦
            agree (register_alias reg deprecated replacement) (book_alias b deprecated replacement)
              reg b (some bad) (ground (arith, refused, same)) (ground (arith, refused)) h
        | inl fine ↦
            agree (register_alias reg deprecated replacement) (book_alias b deprecated replacement)
              (record reg {
                aliases =
                    reg.aliases
                    ++ record { deprecated = deprecated; replacement = replacement } ∷ [];
              })
              (with_alias b deprecated replacement) none (ground (arith, fine, same))
              (ground (arith, fine))
              (add_alias-Refines (record { deprecated = deprecated; replacement = replacement })
                (no_alias deprecated replacement fine))
      ]

make-Agree :
    (reg : Registrar) (b : Book) (c : Call) → Refines reg b → Agree (make reg c) (book_make b c)
unfolding make book_make
make-Agree reg b (registering r) h = register-Agree reg b h r
make-Agree reg b (aliasing deprecated replacement) h =
    register_alias-Agree reg b h deprecated replacement

pub make_all-Agree :
    (reg : Registrar) (b : Book) (cs : List Call)
    → Refines reg b
    → Refines (make_all reg cs).0 (book_make_all b cs).0
      × ((make_all reg cs).1 ≡ (book_make_all b cs).1)
unfolding make_all book_make_all
make_all-Agree reg b [] h = (h, refl)
make_all-Agree reg b (c ∷ cs) h =
    let (after, result) = make-Agree reg b c h in
    let (end, results) = make_all-Agree (make reg c).0 (book_make b c).0 cs after in
    (end, ap₂ ◌∷◌ result results)

-- The registry after a sequence of calls from the start, and the results of the calls.
abbrev pub built : List Call → Registrar × List (Option RegistryError)
built cs = make_all new_registrar cs

abbrev pub book_built : List Call → Book × List (Option RegistryError)
book_built cs = book_make_all empty_book cs

-- After any sequence of calls of Register and RegisterAlias, the calls have returned what they
-- return on the two maps, and ResolveID and the search of Lookup and Rule give every ID what the
-- two maps give it.
pub registry_refines :
    (cs : List Call) (id : Text)
    → ((built cs).1 ≡ (book_built cs).1)
      × (resolve_id (built cs).0 id ≡ book_resolve (book_built cs).0 id)
      × (find_entry (built cs).0 id ≡ book_find (book_built cs).0 id)
registry_refines cs id =
    let (h, results) = make_all-Agree new_registrar empty_book cs empty-Refines in
    (
      results,
      resolve_id-Refines (built cs).0 (book_built cs).0 h id,
      find_entry-Refines (built cs).0 (book_built cs).0 h id,
    )
