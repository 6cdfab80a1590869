-- ===== src/Registry/OwnIds.antt =====
-- pkg/lint/registry.go: a rule is found under its own ID, and an alias stands for a rule.
use pawnlint.Base.{
  ◌≡◌, sym, inl, inr, Bool-cases, Option-cases, Option, none, some, List, [], ◌∷◌, Text, text_eq,
  text_eq_iff, arith,
}
use mathlib.Core.Path.{subst}
use pawnlint.Registry.{Rule, Entry, RegistryError, completed, rule_error}
use pawnlint.Registry.Book.{
  Book, empty_book, book_id_error, book_alias_error, with_rule, with_alias, book_register,
  book_alias, Call, registering, aliasing, book_make, book_make_all,
}
use pawnlint.Registry.Specified.{book_built}

-- A rule is found under its own ID; an alias is no rule's ID, and stands for a rule.
pub record IsBook (b : Book) : Type 0 where
  pub own_id : (id : Text) (e : Entry) → b.rules id ≡ some e → e.meta.id ≡ id
  pub stands_for :
      (a id : Text)
      → b.targets a ≡ some id
      → (b.rules a ≡ none) × ((e : Entry) × (b.rules id ≡ some e))

pub empty-IsBook : IsBook empty_book
unfolding empty_book
empty-IsBook = record { own_id = λ id e h. absurd (cc); stands_for = λ a id h. absurd (cc) }

module _ (b : Book) (h : IsBook b) where
  pub with_rule-IsBook : (r : Rule) → book_id_error b r.metadata.id ≡ none → IsBook (with_rule b r)
  unfolding with_rule book_id_error completed
  with_rule-IsBook r new = record {
    own_id = λ id e found. elim (Bool-cases (text_eq r.metadata.id id)) [
      | inl same ↦
          let this : record { rule = r; meta = completed r.metadata } ≡ e =
            ground (arith, same, found) in
          let named : r.metadata.id ≡ id = ground (arith, same, text_eq_iff r.metadata.id id) in
          subst (λ (x : Entry). x.meta.id ≡ id) this named
      | inr other ↦ h.own_id id e (ground (arith, other, found))
    ];
    stands_for = λ a id found.
        let (free, (e, there)) = h.stands_for a id found in
        (
          elim (Bool-cases (text_eq r.metadata.id a)) [
            | inl same ↦ absurd (ground (arith, new, found, same, text_eq_iff r.metadata.id a))
            | inr other ↦ ground (arith, other, free)
          ],
          elim (Bool-cases (text_eq r.metadata.id id)) [
            | inl same ↦ (record { rule = r; meta = completed r.metadata }, ground (arith, same))
            | inr other ↦ (e, ground (arith, other, there))
          ],
        );
  }

  pub with_alias-IsBook :
      (deprecated replacement : Text)
      → book_alias_error b deprecated replacement ≡ none
      → IsBook (with_alias b deprecated replacement)
  unfolding with_alias book_alias_error
  with_alias-IsBook deprecated replacement new = record {
    own_id = h.own_id;
    stands_for = λ a id found. elim (Bool-cases (text_eq deprecated a)) [
      | inr other ↦ h.stands_for a id (ground (arith, other, found))
      | inl same ↦
          let target : replacement ≡ id = ground (arith, same, found) in
          let alias : deprecated ≡ a = ground (arith, same, text_eq_iff deprecated a) in
          (
            elim (Option-cases (b.rules deprecated)) [
              | inl free ↦ subst (λ x. b.rules x ≡ none) alias free
              | inr (e, taken) ↦ absurd (ground (arith, new, taken))
            ],
            elim (Option-cases (b.rules replacement)) [
              | inl unknown ↦ absurd (ground (arith, new, unknown))
              | inr known ↦ subst (λ x. (e : Entry) × (b.rules x ≡ some e)) target known
            ],
          )
    ];
  }

-- A call ends with `b` and the result `e`.
pub ended-IsBook :
    (x : Book × Option RegistryError) (b : Book) (e : Option RegistryError)
    → x ≡ (b, e)
    → IsBook b
    → IsBook x.0
ended-IsBook x b e p h = subst (λ z. IsBook z.0) (sym p) h

pub book_make-IsBook : (b : Book) (c : Call) → IsBook b → IsBook (book_make b c).0
unfolding book_make book_register book_alias
book_make-IsBook b (registering none) h = h
book_make-IsBook b (registering (some r)) h = elim (Option-cases (rule_error r.metadata)) [
  | inr (bad, refused) ↦
      ended-IsBook (book_register b (some r)) b (some bad) (ground (arith, refused)) h
  | inl fine ↦ elim (Option-cases (book_id_error b r.metadata.id)) [
    | inr (bad, refused) ↦
        ended-IsBook (book_register b (some r)) b (some bad) (ground (arith, fine, refused)) h
    | inl new ↦
        ended-IsBook (book_register b (some r)) (with_rule b r) none (ground (arith, fine, new))
          (with_rule-IsBook b h r new)
  ]
]
book_make-IsBook b (aliasing deprecated replacement) h =
    elim (Option-cases (book_alias_error b deprecated replacement)) [
      | inr (bad, refused) ↦
          ended-IsBook (book_alias b deprecated replacement) b (some bad) (ground (arith, refused))
            h
      | inl fine ↦
          ended-IsBook (book_alias b deprecated replacement) (with_alias b deprecated replacement)
            none (ground (arith, fine)) (with_alias-IsBook b h deprecated replacement fine)
    ]

pub book_make_all-IsBook : (b : Book) (cs : List Call) → IsBook b → IsBook (book_make_all b cs).0
unfolding book_make_all
book_make_all-IsBook b [] h = h
book_make_all-IsBook b (c ∷ cs) h =
    book_make_all-IsBook (book_make b c).0 cs (book_make-IsBook b c h)

pub book_built-IsBook : (cs : List Call) → IsBook (book_built cs).0
book_built-IsBook cs = book_make_all-IsBook empty_book cs empty-IsBook
