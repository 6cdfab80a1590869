-- ===== src/Tree.antt =====
-- The trees of the parser, as far as the modelled rules read them: a node's children carry the
-- names by which Field finds them, and internal/source/walk has marked nodes as inactive or
-- uncertain. The parser is a library; its kinds and names are those that the code asks for.
use pawnlint.Base.{ℕ, Bool, true, false, ◌||◌, Option, none, some, Text}

pub data Kind : Type 0 where
  block conditional_region conditional_branch shared_conditional conditional_function : Kind
  conditional_splice macro_invocation_block if_statement while_statement : Kind
  do_while_statement for_statement switch_statement case_clause default_clause : Kind
  return_statement goto_statement label_statement break_statement continue_statement : Kind
  state_statement expression_statement empty_statement variable_declaration : Kind
  ternary_expression binary_expression unary_expression parenthesized_expression : Kind
  tagged_expression identifier literal other_kind : Kind

-- The kind of a node's token.
pub data Tok : Type 0 where
  and_and or_or bang other_tok : Tok

pub data Label : Type 0 where
  body consequence alternative condition init increment left right expression : Label
  label unnamed : Label

-- What the code reads of one node; `id` tells nodes apart.
pub record Info : Type 0 where
  pub id : ℕ
  pub kind : Kind
  pub tok : Tok
  pub text : Text
  pub inactive : Bool
  pub uncertain : Bool
  pub has_error : Bool

mutual
  pub data Node : Type 0 where
    node : Info → Children → Node

  pub data Children : Type 0 where
    nil : Children
    child : Label → Node → Children → Children

abbrev pub info : Node → Info
info (node i cs) = i

abbrev pub children : Node → Children
children (node i cs) = cs

abbrev pub same_label : Label → Label → Bool
same_label body body = true
same_label consequence consequence = true
same_label alternative alternative = true
same_label condition condition = true
same_label init init = true
same_label increment increment = true
same_label left left = true
same_label right right = true
same_label expression expression = true
same_label label label = true
same_label _ _ = false

-- `node.Field(name)`, by the children; `none` is nil.
abbrev pub field : Label → Children → Option Node
field name nil = none
field name (child l n cs) = elim (same_label l name) [ true ↦ some n | false ↦ field name cs ]

-- `ctx.Walk.Inactive(node) || ctx.Walk.Uncertain(node)`
abbrev pub skipped : Info → Bool
skipped i = i.inactive || i.uncertain

-- `IsStatement` of internal/source/walk/predicates.go.
unfoldable pub is_statement : Kind → Bool
is_statement block = true
is_statement if_statement = true
is_statement while_statement = true
is_statement do_while_statement = true
is_statement for_statement = true
is_statement switch_statement = true
is_statement case_clause = true
is_statement default_clause = true
is_statement goto_statement = true
is_statement label_statement = true
is_statement return_statement = true
is_statement break_statement = true
is_statement continue_statement = true
is_statement state_statement = true
is_statement expression_statement = true
is_statement empty_statement = true
is_statement variable_declaration = true
is_statement macro_invocation_block = true
is_statement _ = false
