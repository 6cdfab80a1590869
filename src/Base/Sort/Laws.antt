-- ===== src/Base/Sort/Laws.antt =====
-- The sort, and that its result is sorted, stable in content and independent of the input's order.
use mathlib.Core.Path.{◌≡◌, refl, ap, ◌∙◌}
use mathlib.Core.Logic.{inl, inr, ∥∥₁_elim}
use mathlib.Core.Bool.{Bool, true, false}
use mathlib.Core.List.{List, [], ◌∷◌, Perm, Permᴰ}
use mathlib.Core.List.Permᴰ
use native.Mathlib.Omega.{arith}
use pawnlint.Base.Tests.{if◌then◌else◌, Bool-cases}
use pawnlint.Base.Lists.{All, All-map}
use pawnlint.Base.Sort.Keys.{IsWeakOrder, Separates}

module _ {ℓ} {A : Type ℓ} (less : A → A → Bool) where
  -- `x` stood in front of the items of the list, so it stays in front of its equals.
  unfoldable pub insert : A → List A → List A
  insert x [] = x ∷ []
  insert x (y ∷ ys) = let rest = insert x ys in if less y x then y ∷ rest else x ∷ y ∷ ys

  unfoldable pub sort : List A → List A
  sort [] = []
  sort (x ∷ xs) = insert x (sort xs)

  -- No item stands behind one that it is less than.
  abbrev pub IsSorted : List A → Type ℓ
  IsSorted [] = Unit
  IsSorted (x ∷ xs) = All (λ y. less y x ≡ false) xs × IsSorted xs

  insert-perm : (x : A) (l : List A) → Permᴰ (insert x l) (x ∷ l)
  unfolding insert
  insert-perm x [] = Permᴰ.refl (x ∷ [])
  insert-perm x (y ∷ ys) = elim (Bool-cases (less y x)) [
    | inl e ↦ rw e (Permᴰ.trans (Permᴰ.cons refl (insert-perm x ys)) (Permᴰ.swap refl refl))
    | inr e ↦ rw e (Permᴰ.refl (x ∷ y ∷ ys))
  ]

  sort-permᴰ : (l : List A) → Permᴰ (sort l) l
  unfolding sort
  sort-permᴰ [] = Permᴰ.nil
  sort-permᴰ (x ∷ xs) = Permᴰ.trans (insert-perm x (sort xs)) (Permᴰ.cons refl (sort-permᴰ xs))

  pub sort-perm : (l : List A) → Perm (sort l) l
  sort-perm l = ∣ sort-permᴰ l ∣₁

  pub All-insert {κ} : (P : A → Type κ) (x : A) (l : List A) → P x → All P l → All P (insert x l)
  unfolding insert
  All-insert P x [] p h = (p, tt)
  All-insert P x (y ∷ ys) p h = elim (Bool-cases (less y x)) [
    | inl e ↦ rw e (h.0, All-insert P x ys p h.1)
    | inr e ↦ rw e (p, h)
  ]

  pub All-sort {κ} : (P : A → Type κ) (l : List A) → All P l → All P (sort l)
  unfolding sort
  All-sort P [] h = tt
  All-sort P (x ∷ xs) h = All-insert P x (sort xs) h.0 (All-sort P xs h.1)

  All-of_insert {κ} : (P : A → Type κ) (x : A) (l : List A) → All P (insert x l) → P x × All P l
  unfolding insert
  All-of_insert P x [] h = h
  All-of_insert P x (y ∷ ys) h = elim (Bool-cases (less y x)) [
    | inl e ↦
        let (p, rest) = rw e at h in let (q, others) = All-of_insert P x ys rest in (q, (p, others))
    | inr e ↦ rw e at h
  ]

  pub All-of_sort {κ} : (P : A → Type κ) (l : List A) → All P (sort l) → All P l
  unfolding sort
  All-of_sort P [] h = tt
  All-of_sort P (x ∷ xs) h =
      let (p, rest) = All-of_insert P x (sort xs) h in (p, All-of_sort P xs rest)

  module _ (w : IsWeakOrder less) where
    All-not-less :
        (x y : A) (l : List A)
        → less y x ≡ false
        → All (λ z. less z y ≡ false) l
        → All (λ z. less z x ≡ false) l
    All-not-less x y [] h a = tt
    All-not-less x y (z ∷ l) h a = (w.cotrans z y x a.0 h, All-not-less x y l h a.1)

    insert-IsSorted : (x : A) (l : List A) → IsSorted l → IsSorted (insert x l)
    unfolding insert
    insert-IsSorted x [] h = (tt, tt)
    insert-IsSorted x (y ∷ ys) h = elim (Bool-cases (less y x)) [
      | inl e ↦
          rw e
            (All-insert (λ z. less z y ≡ false) x ys (w.asymm y x e) h.0, insert-IsSorted x ys h.1)
      | inr e ↦ rw e ((e, All-not-less x y ys e h.0), h)
    ]

    pub sort-IsSorted : (l : List A) → IsSorted (sort l)
    unfolding sort
    sort-IsSorted [] = tt
    sort-IsSorted (x ∷ xs) = insert-IsSorted x (sort xs) (sort-IsSorted xs)

    -- Sorting a sorted list changes nothing.
    insert_front : (x : A) (l : List A) → All (λ y. less y x ≡ false) l → insert x l ≡ x ∷ l
    unfolding insert
    insert_front x [] h = refl
    insert_front x (y ∷ ys) h = rw (h.0)

    pub sort_of_IsSorted : (l : List A) → IsSorted l → sort l ≡ l
    unfolding sort
    sort_of_IsSorted [] h = refl
    sort_of_IsSorted (x ∷ xs) h = ap (insert x) (sort_of_IsSorted xs h.1) ∙ insert_front x xs h.0

    -- Where the comparison tells all values apart, the order of the input does not matter.
    module _ (s : Separates less) where
      insert-insert : (x y : A) (l : List A) → insert x (insert y l) ≡ insert y (insert x l)
      unfolding insert
      insert-insert x y [] = ground (arith, w.asymm x y, w.asymm y x, s x y)
      insert-insert x y (z ∷ l) = ground (
        arith,
        w.asymm x y,
        w.asymm y x,
        s x y,
        w.cotrans z x y,
        w.cotrans z y x,
        w.asymm z x,
        w.asymm z y,
        insert-insert x y l,
      )

      sort-eq_of_permᴰ : {l m : List A} → Permᴰ l m → sort l ≡ sort m
      unfolding sort
      sort-eq_of_permᴰ Permᴰ.nil = refl
      sort-eq_of_permᴰ (Permᴰ.cons e p) = cc (e, sort-eq_of_permᴰ p)
      sort-eq_of_permᴰ (Permᴰ.swap {a} {b} {l = l} e f) = cc (e, f, insert-insert a b (sort l))
      sort-eq_of_permᴰ (Permᴰ.trans p q) = sort-eq_of_permᴰ p ∙ sort-eq_of_permᴰ q

      pub sort-eq_of_perm : IsSet (List A) → {l m : List A} → Perm l m → sort l ≡ sort m
      sort-eq_of_perm is_set {l} {m} p = ∥∥₁_elim p (is_set (sort l) (sort m)) sort-eq_of_permᴰ

-- No item stands behind one that it is in front of, by an order that the comparison follows.
module _ {ℓ κ} {A : Type ℓ} (Before : A → A → Type κ) where
  abbrev pub Ordered : List A → Type (ℓ ⊔ κ)
  Ordered [] = Unit
  Ordered (x ∷ xs) = All (λ y. Before y x → ⊥) xs × Ordered xs

  Ordered-of_IsSorted :
      (less : A → A → Bool) (l : List A)
      → ((y x : A) → Before y x → less y x ≡ true)
      → IsSorted less l
      → Ordered l
  Ordered-of_IsSorted less [] follows h = tt
  Ordered-of_IsSorted less (x ∷ xs) follows h = (
    All-map (λ y. less y x ≡ false) (λ y. Before y x → ⊥) xs
        (λ y e b. absurd (ground (arith, follows y x b, e))) h.0,
    Ordered-of_IsSorted less xs follows h.1,
  )

  pub sort-Ordered :
      (less : A → A → Bool) (l : List A)
      → IsWeakOrder less
      → ((y x : A) → Before y x → less y x ≡ true)
      → Ordered (sort less l)
  sort-Ordered less l w follows =
      Ordered-of_IsSorted less (sort less l) follows (sort-IsSorted less w l)
