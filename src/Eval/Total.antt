-- ===== src/Eval/Total.antt =====
-- The evaluator ends: constants that refer to one another in a circle are not entered again.
use pawnlint.Base.{
  ℕ, zero, suc, ◌+◌, ◌≤◌, ◌<◌, ◌≡◌, ◌≢◌, refl, true, false, inl, inr, ℤ, pos, eqb_ℤ, Option,
  Option-cases, none, some, List, ◌∷◌, Text, ◌==◌, Bool-cases, arith, if◌then◌else◌,
}
use pawnlint.Eval.{
  Node, missing, node, Shape, literal, parenthesized, unary, binary, ternary, identifier, other,
  Env, Outcome, value, unknown, too_deep, of_option, builtin_value, eval_unary, eval_operands,
  visited, enter_value, eval_symbol, eval_identifier, eval_node, eval_shape, eval,
}
use pawnlint.Eval.Binary.{Operator, plus, eval_binary}
use pawnlint.Eval.Literal.{eval_literal}

-- How many of the first `n` symbols are not marked in `visiting`.
unfoldable pub fresh : ℕ → List ℕ → ℕ
fresh zero visiting = 0
fresh (suc n) visiting = fresh n visiting + (if visited n visiting then 0 else 1)

fresh-cons_beyond :
    (n s : ℕ) (visiting : List ℕ) → n ≤ s → fresh n (s ∷ visiting) ≡ fresh n visiting
unfolding fresh visited
fresh-cons_beyond zero s visiting h = refl
fresh-cons_beyond (suc n) s visiting h =
    ground (arith, fresh-cons_beyond n s visiting (omega arith))

fresh-cons :
    (n s : ℕ) (visiting : List ℕ)
    → s < n
    → visited s visiting ≡ false
    → fresh n (s ∷ visiting) + 1 ≡ fresh n visiting
unfolding fresh visited
fresh-cons zero s visiting h v = absurd (omega arith)
fresh-cons (suc n) s visiting h v = elim (Bool-cases (s == n)) [
  | inl here ↦
      let same : s ≡ n = ground arith in
      ground (arith, here, same, fresh-cons_beyond n s visiting (omega arith), v)
  | inr further ↦ ground (arith, further, fresh-cons n s visiting (ground (arith, further)) v)
]

-- The result is the evaluator's own, not the model's lack of depth.
abbrev pub Ends : Outcome → Type 0
Ends (value v) = Unit
Ends unknown = Unit
Ends too_deep = ⊥

of_option-Ends : (o : Option ℤ) → Ends (of_option o)
unfolding of_option
of_option-Ends none = tt
of_option-Ends (some v) = tt

eval_unary-Ends : (op : Operator) (r : Outcome) → Ends r → Ends (eval_unary op r)
unfolding eval_unary
eval_unary-Ends op unknown h = tt
eval_unary-Ends op too_deep h = h
eval_unary-Ends plus (value v) h = tt
eval_unary-Ends op (value v) h = tt

eval_operands-Ends : (op : Operator) (l r : Outcome) → Ends l → Ends r → Ends (eval_operands op l r)
unfolding eval_operands
eval_operands-Ends op too_deep r h k = h
eval_operands-Ends op unknown unknown h k = tt
eval_operands-Ends op unknown (value b) h k = tt
eval_operands-Ends op unknown too_deep h k = k
eval_operands-Ends op (value a) unknown h k = tt
eval_operands-Ends op (value a) too_deep h k = k
eval_operands-Ends op (value a) (value b) h k = of_option-Ends (eval_binary op a b)

branch-Ends :
    (c t e : Outcome)
    → Ends c
    → Ends t
    → Ends e
    → Ends (elim c [
      | value v ↦ if eqb_ℤ v (pos 0) then e else t
      | unknown ↦ unknown
      | too_deep ↦ too_deep
    ])
branch-Ends (value v) t e hc ht he = elim (Bool-cases (eqb_ℤ v (pos 0))) [
  | inl z ↦ rw z he
  | inr nz ↦ rw nz ht
]
branch-Ends unknown t e hc ht he = tt
branch-Ends too_deep t e hc ht he = hc

module _ (env : Env) (n : ℕ) (constants : (s : ℕ) → (env.symbols s).constant ≡ true → s < n) where
  -- Entering a symbol that is not marked yet ends.
  abbrev Enters : (Node → List ℕ → Outcome) → List ℕ → Type 0
  Enters enter visiting =
      (s : ℕ) → s < n → visited s visiting ≡ false → (m : Node) → Ends (enter m (s ∷ visiting))

  module _ (enter : Node → List ℕ → Outcome) (visiting : List ℕ)
      (enters : Enters enter visiting) where
    enter_value-Ends :
        (m : Node) (symbol : ℕ) → symbol < n → Ends (enter_value enter m symbol visiting)
    unfolding enter_value
    enter_value-Ends missing symbol lt = tt
    enter_value-Ends (node bad shape) symbol lt = elim (Bool-cases (visited symbol visiting)) [
      | inl marked ↦ rw marked tt
      | inr new ↦ rw new (enters symbol lt new (node bad shape))
    ]

    eval_symbol-Ends : (symbol : ℕ) → Ends (eval_symbol env enter symbol visiting)
    unfolding eval_symbol
    eval_symbol-Ends symbol = elim (Option-cases (env.values symbol)) [
      | inr (v, given) ↦ rw (given, eval_symbol) tt
      | inl absent ↦ elim (Bool-cases (env.symbols symbol).constant) [
        | inr varies ↦ rw (absent, varies, eval_symbol) tt
        | inl fixed ↦ elim (Option-cases (env.constant_values symbol)) [
          | inr (v, known) ↦ rw (absent, fixed, known, eval_symbol) tt
          | inl unlisted ↦
              rw (absent, fixed, unlisted, eval_symbol)
                (enter_value-Ends (env.symbols symbol).value symbol (constants symbol fixed))
        ]
      ]
    ]

    eval_identifier-Ends :
        (id : ℕ) (name : Text) (symbol : Option ℕ)
        → Ends (eval_identifier env enter id name symbol visiting)
    unfolding eval_identifier
    eval_identifier-Ends id name (some symbol) = eval_symbol-Ends symbol
    eval_identifier-Ends id name none = elim (Option-cases (builtin_value name)) [
      | inr (v, known) ↦ rw (known, eval_identifier) tt
      | inl unlisted ↦ elim (Option-cases env.resolver) [
        | inl absent ↦ rw (unlisted, absent, eval_identifier) tt
        | inr (resolve, given) ↦ rw (unlisted, given, eval_identifier) (of_option-Ends (resolve id))
      ]
    ]

    mutual
      unfolding eval_node eval_shape

      eval_node-Ends : (m : Node) → Ends (eval_node env enter m visiting)
      eval_node-Ends missing = tt
      eval_node-Ends (node true shape) = tt
      eval_node-Ends (node false shape) = eval_shape-Ends shape

      eval_shape-Ends : (shape : Shape) → Ends (eval_shape env enter shape visiting)
      eval_shape-Ends (literal token) = of_option-Ends (eval_literal token)
      eval_shape-Ends (parenthesized e) = eval_node-Ends e
      eval_shape-Ends (unary op e) = eval_unary-Ends op _ (eval_node-Ends e)
      eval_shape-Ends (binary op l r) =
          eval_operands-Ends op _ _ (eval_node-Ends l) (eval_node-Ends r)
      eval_shape-Ends (ternary c t e) =
          branch-Ends _ _ _ (eval_node-Ends c) (eval_node-Ends t) (eval_node-Ends e)
      eval_shape-Ends (identifier id name symbol) = eval_identifier-Ends id name symbol
      eval_shape-Ends other = tt

  eval-Ends :
      (depth : ℕ) (m : Node) (visiting : List ℕ)
      → fresh n visiting ≤ depth
      → Ends (eval depth env m visiting)
  unfolding eval
  eval-Ends zero m visiting h =
      eval_node-Ends (λ _ _. too_deep) visiting
        (λ s lt new k. absurd (omega (arith, fresh-cons n s visiting lt new))) m
  eval-Ends (suc depth) m visiting h =
      eval_node-Ends (eval depth env) visiting
        (λ s lt new k.
          eval-Ends depth k (s ∷ visiting) (omega (arith, fresh-cons n s visiting lt new)))
        m

fresh-le : (n : ℕ) (visiting : List ℕ) → fresh n visiting ≤ n
unfolding fresh
fresh-le zero visiting = omega arith
fresh-le (suc n) visiting = ground (arith, fresh-le n visiting)

-- If the constants are among the first `n` symbols, then entering `n` symbols inside one another
-- is enough: the evaluator returns, whatever circles the constants form.
pub eval_total :
    (env : Env) (n : ℕ) (m : Node) (visiting : List ℕ)
    → ((s : ℕ) → (env.symbols s).constant ≡ true → s < n)
    → eval n env m visiting ≢ too_deep
eval_total env n m visiting constants e =
    rw e at (eval-Ends env n constants n m visiting (fresh-le n visiting))
