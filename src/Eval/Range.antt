-- ===== src/Eval/Range.antt =====
-- Every value that the evaluator returns fits a Pawn cell.
use pawnlint.Base.{
  ℕ, zero, suc, ◌≡◌, refl, true, false, inl, inr, ℤ, pos, eqb_ℤ, Option, Option-cases, none, some,
  List, ◌∷◌, Text, Bool-cases, arith, if◌then◌else◌,
}
use pawnlint.Eval.{
  Node, missing, node, Shape, literal, parenthesized, unary, binary, ternary, identifier, other,
  Env, Outcome, value, unknown, too_deep, of_option, builtin_value, eval_unary, eval_operands,
  visited, enter_value, eval_symbol, eval_identifier, eval_node, eval_shape, eval,
}
use pawnlint.Eval.Word.{IsCell, neg_ℤ, complement, cell-IsCell}
use pawnlint.Eval.Binary.{
  Operator, plus, minus, bang, tilde, eval_binary, truth-IsCell, eval_binary-IsCell,
}
use pawnlint.Eval.Literal.{eval_literal, eval_literal-IsCell}

-- The tables and the resolver hold values of cells.
pub record IsCellEnv (env : Env) : Type 0 where
  pub constants : (s : ℕ) (v : ℤ) → env.constant_values s ≡ some v → IsCell v
  pub values : (s : ℕ) (v : ℤ) → env.values s ≡ some v → IsCell v
  pub resolver :
      (resolve : ℕ → Option ℤ) (id : ℕ) (v : ℤ)
      → env.resolver ≡ some resolve
      → resolve id ≡ some v
      → IsCell v

abbrev pub Fits : Outcome → Type 0
Fits (value v) = IsCell v
Fits unknown = Unit
Fits too_deep = Unit

of_option-Fits : (o : Option ℤ) → ((v : ℤ) → o ≡ some v → IsCell v) → Fits (of_option o)
unfolding of_option
of_option-Fits none h = tt
of_option-Fits (some v) h = h v refl

-- The values of the names that the language defines.
builtin-IsCell : (name : Text) (v : ℤ) → builtin_value name ≡ some v → IsCell v
unfolding builtin_value
builtin-IsCell name v h = ground arith

eval_unary-Fits : (op : Operator) (r : Outcome) → Fits r → Fits (eval_unary op r)
unfolding eval_unary
eval_unary-Fits op unknown h = tt
eval_unary-Fits op too_deep h = tt
eval_unary-Fits plus (value v) h = h
eval_unary-Fits minus (value v) h = cell-IsCell (neg_ℤ v)
eval_unary-Fits bang (value v) h = truth-IsCell (eqb_ℤ v (pos 0))
eval_unary-Fits tilde (value v) h = cell-IsCell (complement v)
eval_unary-Fits op (value v) h = tt

eval_operands-Fits : (op : Operator) (l r : Outcome) → Fits (eval_operands op l r)
unfolding eval_operands
eval_operands-Fits op too_deep r = tt
eval_operands-Fits op unknown unknown = tt
eval_operands-Fits op unknown (value b) = tt
eval_operands-Fits op unknown too_deep = tt
eval_operands-Fits op (value a) unknown = tt
eval_operands-Fits op (value a) too_deep = tt
eval_operands-Fits op (value a) (value b) =
    of_option-Fits (eval_binary op a b) (eval_binary-IsCell op a b)

branch-Fits :
    (c t e : Outcome)
    → Fits t
    → Fits e
    → Fits (elim c [
      | value v ↦ if eqb_ℤ v (pos 0) then e else t
      | unknown ↦ unknown
      | too_deep ↦ too_deep
    ])
branch-Fits (value v) t e ht he = elim (Bool-cases (eqb_ℤ v (pos 0))) [
  | inl z ↦ rw z he
  | inr nz ↦ rw nz ht
]
branch-Fits unknown t e ht he = tt
branch-Fits too_deep t e ht he = tt

module _ (env : Env) (cells : IsCellEnv env) where
  module _ (enter : Node → List ℕ → Outcome) (enters : (m : Node) (v : List ℕ) → Fits (enter m v))
      (visiting : List ℕ) where
    enter_value-Fits : (m : Node) (symbol : ℕ) → Fits (enter_value enter m symbol visiting)
    unfolding enter_value
    enter_value-Fits missing symbol = tt
    enter_value-Fits (node bad shape) symbol = elim (Bool-cases (visited symbol visiting)) [
      | inl marked ↦ rw marked tt
      | inr new ↦ rw new (enters (node bad shape) (symbol ∷ visiting))
    ]

    eval_symbol-Fits : (symbol : ℕ) → Fits (eval_symbol env enter symbol visiting)
    unfolding eval_symbol
    eval_symbol-Fits symbol = elim (Option-cases (env.values symbol)) [
      | inr (v, given) ↦ rw (given, eval_symbol) (cells.values symbol v given)
      | inl absent ↦ elim (Bool-cases (env.symbols symbol).constant) [
        | inr varies ↦ rw (absent, varies, eval_symbol) tt
        | inl fixed ↦ elim (Option-cases (env.constant_values symbol)) [
          | inr (v, known) ↦ rw (absent, fixed, known, eval_symbol) (cells.constants symbol v known)
          | inl unlisted ↦
              rw (absent, fixed, unlisted, eval_symbol)
                (enter_value-Fits (env.symbols symbol).value symbol)
        ]
      ]
    ]

    eval_identifier-Fits :
        (id : ℕ) (name : Text) (symbol : Option ℕ)
        → Fits (eval_identifier env enter id name symbol visiting)
    unfolding eval_identifier
    eval_identifier-Fits id name (some symbol) = eval_symbol-Fits symbol
    eval_identifier-Fits id name none = elim (Option-cases (builtin_value name)) [
      | inr (v, known) ↦ rw (known, eval_identifier) (builtin-IsCell name v known)
      | inl unlisted ↦ elim (Option-cases env.resolver) [
        | inl absent ↦ rw (unlisted, absent, eval_identifier) tt
        | inr (resolve, given) ↦
            rw (unlisted, given, eval_identifier)
              (of_option-Fits (resolve id) (λ v. cells.resolver resolve id v given))
      ]
    ]

    mutual
      unfolding eval_node eval_shape

      eval_node-Fits : (m : Node) → Fits (eval_node env enter m visiting)
      eval_node-Fits missing = tt
      eval_node-Fits (node true shape) = tt
      eval_node-Fits (node false shape) = eval_shape-Fits shape

      eval_shape-Fits : (shape : Shape) → Fits (eval_shape env enter shape visiting)
      eval_shape-Fits (literal token) =
          of_option-Fits (eval_literal token) (eval_literal-IsCell token)
      eval_shape-Fits (parenthesized e) = eval_node-Fits e
      eval_shape-Fits (unary op e) = eval_unary-Fits op _ (eval_node-Fits e)
      eval_shape-Fits (binary op l r) = eval_operands-Fits op _ _
      eval_shape-Fits (ternary c t e) =
          branch-Fits (eval_node env enter c visiting) _ _ (eval_node-Fits t) (eval_node-Fits e)
      eval_shape-Fits (identifier id name symbol) = eval_identifier-Fits id name symbol
      eval_shape-Fits other = tt

  eval-Fits : (depth : ℕ) (m : Node) (visiting : List ℕ) → Fits (eval depth env m visiting)
  unfolding eval
  eval-Fits zero m visiting = eval_node-Fits (λ _ _. too_deep) (λ k v. tt) visiting m
  eval-Fits (suc depth) m visiting = eval_node-Fits (eval depth env) (eval-Fits depth) visiting m

-- Where the tables and the resolver hold values of cells, so is every value that is returned.
pub eval-IsCell :
    (env : Env) (depth : ℕ) (m : Node) (visiting : List ℕ) (v : ℤ)
    → IsCellEnv env
    → eval depth env m visiting ≡ value v
    → IsCell v
eval-IsCell env depth m visiting v cells e = rw e at (eval-Fits env cells depth m visiting)
