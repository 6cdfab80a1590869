-- ===== src/Eval.antt =====
-- internal/semantic/eval.go: the constant evaluator. `Node` is what it reads of the parser's
-- nodes: `bad` says that a node has an error or is uncertain, and an identifier holds the number
-- that tells its node apart, its text, and the symbol that the model resolves it to, by its number.
pub mod Word
pub mod Literal
pub mod Spelled
pub mod Binary
pub mod Total
pub mod Range
pub mod Arithmetic
mod Examples
use pawnlint.Base.{
  ℕ, zero, suc, Bool, true, false, ◌&&◌, ◌||◌, not, ℤ, pos, negsuc, eqb_ℤ, Option, none, some, List,
  [], ◌∷◌, Text, codes, text_eq, get_elem?, ◌==◌, if◌then◌else◌,
}
use Binary.{Operator, plus, minus, bang, tilde, eval_binary, truth}
use Literal.{Token, eval_literal}
use Word.{cell, neg_ℤ, complement}

mutual
  pub data Node : Type 0 where
    missing : Node
    node : Bool → Shape → Node

  pub data Shape : Type 0 where
    literal : Token → Shape
    parenthesized : Node → Shape
    unary : Operator → Node → Shape
    binary : Operator → Node → Node → Shape
    ternary : Node → Node → Node → Shape
    identifier : ℕ → Text → Option ℕ → Shape
    other : Shape

-- What the evaluator reads of a symbol; a `value` of `missing` is nil.
pub record Symbol : Type 0 where
  pub constant : Bool
  pub ambiguous : Bool
  pub value : Node

-- The model's tables, the caller's values, and the caller's resolver of nodes, if there is one.
pub record Env : Type 0 where
  pub symbols : ℕ → Symbol
  pub constant_values : ℕ → Option ℤ
  pub values : ℕ → Option ℤ
  pub resolver : Option (ℕ → Option ℤ)

-- `too_deep` is the model's own: more symbols were entered than the depth allows.
pub data Outcome : Type 0 where
  value : ℤ → Outcome
  unknown too_deep : Outcome

unfoldable pub of_option : Option ℤ → Outcome
of_option none = unknown
of_option (some v) = value v

unfoldable pub builtin_value : Text → Option ℤ
builtin_value name =
    if text_eq name (codes "false") || text_eq name (codes "EOS") || text_eq name (codes "charmin")
    then some (pos 0)
    else if text_eq name (codes "true")
    then some (pos 1)
    else if text_eq name (codes "cellbits")
    then some (pos 32)
    else if text_eq name (codes "cellmax")
    then some (pos 2147483647)
    else if text_eq name (codes "cellmin")
    then some (negsuc 2147483647)
    else if text_eq name (codes "charbits")
    then some (pos 8)
    else if text_eq name (codes "charmax")
    then some (pos 255)
    else if text_eq name (codes "ucharmax")
    then some (pos 16777215)
    else none

unfoldable pub eval_unary : Operator → Outcome → Outcome
eval_unary op unknown = unknown
eval_unary op too_deep = too_deep
eval_unary plus (value v) = value v
eval_unary minus (value v) = value (cell (neg_ℤ v))
eval_unary bang (value v) = value (truth (eqb_ℤ v (pos 0)))
eval_unary tilde (value v) = value (cell (complement v))
eval_unary op (value v) = unknown

-- Both operands are evaluated before the test on their results.
unfoldable pub eval_operands : Operator → Outcome → Outcome → Outcome
eval_operands op too_deep r = too_deep
eval_operands op l too_deep = too_deep
eval_operands op unknown r = unknown
eval_operands op (value a) unknown = unknown
eval_operands op (value a) (value b) = of_option (eval_binary op a b)

unfoldable pub visited : ℕ → List ℕ → Bool
visited symbol [] = false
visited symbol (s ∷ ss) = s == symbol || visited symbol ss

-- The evaluation of a symbol's value, under one more mark in `visiting`.
unfoldable pub enter_value : (Node → List ℕ → Outcome) → Node → ℕ → List ℕ → Outcome
enter_value enter missing symbol visiting = unknown
enter_value enter (node bad shape) symbol visiting =
    if visited symbol visiting then unknown else enter (node bad shape) (symbol ∷ visiting)

-- The case of an identifier that is resolved to a symbol.
unfoldable pub eval_symbol : Env → (Node → List ℕ → Outcome) → ℕ → List ℕ → Outcome
eval_symbol env enter symbol visiting = elim (env.values symbol) [
  | some v ↦ value v
  | none ↦
      let s = env.symbols symbol in
      if not s.constant then unknown else elim (env.constant_values symbol) [
        | some v ↦ value v
        | none ↦ enter_value enter s.value symbol visiting
      ]
]

-- The case of an identifier.
unfoldable pub eval_identifier :
    Env → (Node → List ℕ → Outcome) → ℕ → Text → Option ℕ → List ℕ → Outcome
eval_identifier env enter id name (some symbol) visiting = eval_symbol env enter symbol visiting
eval_identifier env enter id name none visiting = elim (builtin_value name) [
  | some v ↦ value v
  | none ↦ elim env.resolver [ none ↦ unknown | some resolve ↦ of_option (resolve id) ]
]

-- The switch of `eval`. The evaluation of a symbol's value is handed in.
unfoldable mutual
  pub eval_node : Env → (Node → List ℕ → Outcome) → Node → List ℕ → Outcome
  eval_node env enter missing visiting = unknown
  eval_node env enter (node bad shape) visiting =
      let result = eval_shape env enter shape visiting in if bad then unknown else result

  pub eval_shape : Env → (Node → List ℕ → Outcome) → Shape → List ℕ → Outcome
  eval_shape env enter (literal token) visiting = of_option (eval_literal token)
  eval_shape env enter (parenthesized e) visiting = eval_node env enter e visiting
  eval_shape env enter (unary op e) visiting = eval_unary op (eval_node env enter e visiting)
  eval_shape env enter (binary op l r) visiting =
      eval_operands op (eval_node env enter l visiting) (eval_node env enter r visiting)
  eval_shape env enter (ternary c t e) visiting =
      let then_value = eval_node env enter t visiting in
      let else_value = eval_node env enter e visiting in
      elim (eval_node env enter c visiting) [
        | value v ↦ if eqb_ℤ v (pos 0) then else_value else then_value
        | unknown ↦ unknown
        | too_deep ↦ too_deep
      ]
  eval_shape env enter (identifier id name symbol) visiting =
      eval_identifier env enter id name symbol visiting
  eval_shape env enter other visiting = unknown

-- `eval`, entering at most `depth` symbols inside one another.
unfoldable pub eval : ℕ → Env → Node → List ℕ → Outcome
eval zero env n visiting = eval_node env (λ _ _. too_deep) n visiting
eval (suc depth) env n visiting = eval_node env (eval depth env) n visiting

-- `ConstantValue` of a symbol of the model.
unfoldable pub constant_value : ℕ → Env → ℕ → Outcome
constant_value depth env symbol =
    let s = env.symbols symbol in
    if not s.constant || s.ambiguous
    then unknown
    else elim (env.constant_values symbol) [ some v ↦ value v | none ↦ eval depth env s.value [] ]
