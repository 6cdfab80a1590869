-- ===== src/Eval/Examples.antt =====
-- The constant evaluator, run: literals, wrapping, division, and constants that refer to others.
use pawnlint.Base.{
  ℕ, ◌<◌, ◌≡◌, ◌≢◌, ◌↔◌, refl, true, false, ℤ, pos, negsuc, ◌+ℤ◌, ◌-ℤ◌, ◌*ℤ◌, none, some, [], codes,
  ◌==◌, arith, if◌then◌else◌,
}
use pawnlint.Eval.{
  Node, missing, node, literal, unary, binary, ternary, identifier, Symbol, Env, value, unknown,
  too_deep, eval, constant_value,
}
use pawnlint.Eval.Binary.{
  plus, minus, star, slash, percent, shl, ushr, eval_binary, eval_binary-IsCell,
}
use pawnlint.Eval.Word.{IsCell, cell}
use pawnlint.Eval.Literal.{
  Token, int, parse_digits, without_underscores, eval_literal, eval_literal-IsCell,
}
use pawnlint.Eval.Total.{eval_total}
use pawnlint.Eval.Range.{IsCellEnv, eval-IsCell}
use pawnlint.Eval.Spelled.{Spells, IsWrapped, eval_literal_iff}
use pawnlint.Eval.Arithmetic.{
  magnitude, Follows, eval_binary_exact, eval_division, eval_division_by_zero,
}

abbrev two_plus : ℕ → Node
two_plus symbol = node false (
    binary plus (node false (literal (int (codes "2"))))
      (node false (identifier 0 (codes "n") (some symbol))))

-- Symbol 0 is 2 + symbol 1, symbol 1 is 0x10, symbols 2 and 3 refer to one another.
abbrev symbol_of : ℕ → Symbol
symbol_of s =
    if s == 0
    then record { constant = true; ambiguous = false; value = two_plus 1 }
    else if s == 1
    then record {
      constant = true;
      ambiguous = false;
      value = node false (literal (int (codes "0x1_0")));
    }
    else if s == 2
    then record { constant = true; ambiguous = false; value = two_plus 3 }
    else if s == 3
    then record { constant = true; ambiguous = false; value = two_plus 2 }
    else record { constant = false; ambiguous = false; value = missing }

abbrev env : Env
env = record {
  symbols = symbol_of;
  constant_values = λ s. none;
  values = λ s. none;
  resolver = none;
}

chained_value : constant_value 4 env 0 ≡ value (pos 18)
unfolding constant_value eval pawnlint.Eval.eval_node pawnlint.Eval.eval_operands
    pawnlint.Eval.of_option pawnlint.Eval.eval_identifier pawnlint.Eval.eval_symbol
    pawnlint.Eval.enter_value pawnlint.Eval.visited eval_literal pawnlint.Eval.Literal.parse_text
    pawnlint.Eval.Literal.without_underscores pawnlint.Eval.Literal.parse_uint
    pawnlint.Eval.Literal.digit pawnlint.Strings.has_prefix parse_digits eval_binary cell
    pawnlint.Eval.Word.int64 pawnlint.Eval.Word.signed pawnlint.Eval.Word.word ◌+ℤ◌
chained_value = refl

circle_unknown : constant_value 4 env 2 ≡ unknown
unfolding constant_value eval pawnlint.Eval.eval_node pawnlint.Eval.eval_operands
    pawnlint.Eval.of_option pawnlint.Eval.eval_identifier pawnlint.Eval.eval_symbol
    pawnlint.Eval.enter_value pawnlint.Eval.visited eval_literal pawnlint.Eval.Literal.parse_text
    pawnlint.Eval.Literal.without_underscores pawnlint.Eval.Literal.parse_uint
    pawnlint.Eval.Literal.digit pawnlint.Strings.has_prefix parse_digits
circle_unknown = refl

left_shift_wraps : eval_binary shl (pos 1) (pos 31) ≡ some (negsuc 2147483647)
unfolding eval_binary cell pawnlint.Eval.Word.int64 pawnlint.Eval.Word.signed
    pawnlint.Eval.Word.word pawnlint.Eval.Word.neg_ℤ pawnlint.Eval.Binary.quot
left_shift_wraps = refl

unsigned_shift : eval_binary ushr (negsuc 0) (pos 28) ≡ some (pos 15)
unfolding eval_binary cell pawnlint.Eval.Word.int64 pawnlint.Eval.Word.signed
    pawnlint.Eval.Word.word pawnlint.Eval.Word.neg_ℤ pawnlint.Eval.Binary.quot
unsigned_shift = refl

quotient_towards_zero : eval_binary slash (negsuc 6) (pos 2) ≡ some (negsuc 2)
unfolding eval_binary cell pawnlint.Eval.Word.int64 pawnlint.Eval.Word.signed
    pawnlint.Eval.Word.word pawnlint.Eval.Word.neg_ℤ pawnlint.Eval.Binary.quot
quotient_towards_zero = refl

constants_below : (s : ℕ) → (symbol_of s).constant ≡ true → s < 4
constants_below s h = ground arith

eval_total_example : eval 4 env (two_plus 2) [] ≢ too_deep
eval_total_example = eval_total env 4 (two_plus 2) [] constants_below

env-IsCellEnv : IsCellEnv env
env-IsCellEnv = record {
  constants = λ s v e. cc;
  values = λ s v e. cc;
  resolver = λ resolve id v e k. cc;
}

sum : eval 4 env (two_plus 1) [] ≡ value (pos 18)
unfolding eval pawnlint.Eval.eval_node pawnlint.Eval.eval_operands pawnlint.Eval.of_option
    pawnlint.Eval.eval_identifier pawnlint.Eval.eval_symbol pawnlint.Eval.enter_value
    pawnlint.Eval.visited eval_literal pawnlint.Eval.Literal.parse_text
    pawnlint.Eval.Literal.without_underscores pawnlint.Eval.Literal.parse_uint
    pawnlint.Eval.Literal.digit pawnlint.Strings.has_prefix parse_digits eval_binary cell
    pawnlint.Eval.Word.int64 pawnlint.Eval.Word.signed pawnlint.Eval.Word.word ◌+ℤ◌
sum = refl

eval-IsCell_example : IsCell (pos 18)
eval-IsCell_example = eval-IsCell env 4 (two_plus 1) [] (pos 18) env-IsCellEnv sum

eval_binary_exact_example :
    (eval_binary plus (pos 2147483647) (pos 1) ≡ some (cell (pos 2147483647 +ℤ pos 1)))
    × (eval_binary minus (pos 2147483647) (pos 1) ≡ some (cell (pos 2147483647 -ℤ pos 1)))
    × (eval_binary star (pos 2147483647) (pos 1) ≡ some (cell (pos 2147483647 *ℤ pos 1)))
eval_binary_exact_example = eval_binary_exact (pos 2147483647) (pos 1)

eval_division_example :
    (q : ℤ) × (r : ℤ) × (eval_binary slash (negsuc 6) (pos 2) ≡ some q)
    × (eval_binary percent (negsuc 6) (pos 2) ≡ some r)
    × (q *ℤ pos 2 +ℤ r ≡ negsuc 6)
    × (magnitude r < magnitude (pos 2))
    × Follows (negsuc 6) r
eval_division_example =
    eval_division (negsuc 6) (pos 2) (omega arith) (λ e. cc) (λ o. absurd (ground (arith, o.1)))

eval_division_by_zero_example :
    (eval_binary slash (pos 7) (pos 0) ≡ none) × (eval_binary percent (pos 7) (pos 0) ≡ none)
eval_division_by_zero_example = eval_division_by_zero (pos 7)

eval_literal_iff_example :
    (eval_literal (int (codes "0xFFFF_FFFE")) ≡ some (negsuc 1))
    ↔ ((n : ℕ) × Spells (without_underscores (codes "0xFFFF_FFFE")) n × IsWrapped n (negsuc 1))
eval_literal_iff_example = eval_literal_iff (codes "0xFFFF_FFFE") (negsuc 1)

high_bit : eval_literal (int (codes "0xFFFFFFFF")) ≡ some (negsuc 0)
unfolding eval_literal pawnlint.Eval.Literal.parse_text pawnlint.Eval.Literal.without_underscores
    pawnlint.Eval.Literal.parse_uint pawnlint.Eval.Literal.digit pawnlint.Strings.has_prefix
    parse_digits pawnlint.Eval.Word.signed
high_bit = refl

eval_literal-IsCell_example : IsCell (negsuc 0)
eval_literal-IsCell_example = eval_literal-IsCell (int (codes "0xFFFFFFFF")) (negsuc 0) high_bit
