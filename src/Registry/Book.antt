-- ===== src/Registry/Book.antt =====
-- pkg/lint/registry.go: what a registry promises, as two maps from IDs without the list of entries
-- and its index.
use pawnlint.Base.{
  Bool, true, false, ◌||◌, Option, none, some, List, [], ◌∷◌, Text, text_eq, if◌then◌else◌,
}
use pawnlint.Registry.{
  Rule, Entry, Registrar, RegistryError, nil_rule, duplicate_rule, conflicts_with_alias,
  invalid_alias, unknown_target, conflicts_with_rule, duplicate_alias, is_some, completed,
  rule_error, register, register_alias,
}

pub record Book : Type 0 where
  pub rules : Text → Option Entry
  pub targets : Text → Option Text

unfoldable pub empty_book : Book
empty_book = record { rules = λ id. none; targets = λ id. none }

-- Why an ID cannot be registered, and why an alias cannot.
unfoldable pub book_id_error : Book → Text → Option RegistryError
book_id_error b id =
    if is_some (b.rules id)
    then some (duplicate_rule id)
    else if is_some (b.targets id)
    then some (conflicts_with_alias id)
    else none

unfoldable pub book_alias_error : Book → Text → Text → Option RegistryError
book_alias_error b deprecated replacement =
    if text_eq deprecated [] || text_eq replacement [] || text_eq deprecated replacement
    then some (invalid_alias deprecated replacement)
    else if is_some (b.rules deprecated)
    then some (conflicts_with_rule deprecated)
    else if is_some (b.targets deprecated)
    then some (duplicate_alias deprecated)
    else if is_some (b.rules replacement)
    then none
    else some (unknown_target deprecated replacement)

unfoldable pub with_rule : Book → Rule → Book
unfolding completed
with_rule b r = record b {
  rules = λ id.
      if text_eq r.metadata.id id
      then some (record { rule = r; meta = completed r.metadata })
      else b.rules id;
}

unfoldable pub with_alias : Book → Text → Text → Book
with_alias b deprecated replacement = record b {
  targets = λ id. if text_eq deprecated id then some replacement else b.targets id;
}

unfoldable pub book_register : Book → Option Rule → Book × Option RegistryError
unfolding rule_error book_id_error with_rule
book_register b none = (b, some nil_rule)
book_register b (some r) = elim (rule_error r.metadata) [
  | some bad ↦ (b, some bad)
  | none ↦ elim (book_id_error b r.metadata.id) [
    | some bad ↦ (b, some bad)
    | none ↦ (with_rule b r, none)
  ]
]

unfoldable pub book_alias : Book → Text → Text → Book × Option RegistryError
unfolding book_alias_error with_alias
book_alias b deprecated replacement = elim (book_alias_error b deprecated replacement) [
  | some bad ↦ (b, some bad)
  | none ↦ (with_alias b deprecated replacement, none)
]

-- The ID that a name stands for.
unfoldable pub book_resolve : Book → Text → Option (Text × Bool)
book_resolve b id = elim (b.rules id) [
  | some e ↦ some (id, false)
  | none ↦ elim (b.targets id) [ none ↦ none | some replacement ↦ some (replacement, true) ]
]

unfoldable pub book_find : Book → Text → Option Entry
unfolding book_resolve
book_find b id = elim (book_resolve b id) [
  | none ↦ none
  | some (resolved, deprecated) ↦ b.rules resolved
]

-- The calls that change a registry.
pub data Call : Type 0 where
  registering : Option Rule → Call
  aliasing : Text → Text → Call

unfoldable pub make : Registrar → Call → Registrar × Option RegistryError
unfolding register register_alias
make reg (registering r) = register reg r
make reg (aliasing deprecated replacement) = register_alias reg deprecated replacement

unfoldable pub book_make : Book → Call → Book × Option RegistryError
unfolding book_register book_alias
book_make b (registering r) = book_register b r
book_make b (aliasing deprecated replacement) = book_alias b deprecated replacement

-- A sequence of calls: what is left, and the result of each call.
unfoldable pub make_all : Registrar → List Call → Registrar × List (Option RegistryError)
unfolding make
make_all reg [] = (reg, [])
make_all reg (c ∷ cs) = let rest = make_all (make reg c).0 cs in (rest.0, (make reg c).1 ∷ rest.1)

unfoldable pub book_make_all : Book → List Call → Book × List (Option RegistryError)
unfolding book_make
book_make_all b [] = (b, [])
book_make_all b (c ∷ cs) =
    let rest = book_make_all (book_make b c).0 cs in (rest.0, (book_make b c).1 ∷ rest.1)
