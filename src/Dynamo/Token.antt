-- ===== src/Dynamo/Token.antt =====
-- The tokens of internal/dynamodb/expression.go, and the errors of the expression language.
use kumolo.Prelude.{ℕ, ◌≡◌, Bool, true, arith, ◌==◌}
use kumolo.Prelude.Bytes.{Bytes}

-- tokenKind
pub data Kind : Type 0 where
  tok_eof tok_ident tok_name_ref tok_val_ref tok_lparen tok_rparen tok_comma : Kind
  tok_eq tok_neq tok_lt tok_lte tok_gt tok_gte tok_dot tok_list_idx : Kind

-- exprToken
pub record Token : Type 0 where
  pub kind : Kind
  pub val : Bytes

abbrev pub token : Kind → Bytes → Token
token k v = record { kind = k; val = v }

-- The constants that iota gives.
abbrev pub kind_code : Kind → ℕ
kind_code tok_eof = 0
kind_code tok_ident = 1
kind_code tok_name_ref = 2
kind_code tok_val_ref = 3
kind_code tok_lparen = 4
kind_code tok_rparen = 5
kind_code tok_comma = 6
kind_code tok_eq = 7
kind_code tok_neq = 8
kind_code tok_lt = 9
kind_code tok_lte = 10
kind_code tok_gt = 11
kind_code tok_gte = 12
kind_code tok_dot = 13
kind_code tok_list_idx = 14

-- `==` on token kinds
unfoldable pub kind_eq : Kind → Kind → Bool
kind_eq a b = kind_code a == kind_code b

pub kind_eq→≡ : (a b : Kind) → kind_eq a b ≡ true → a ≡ b
unfolding kind_eq
kind_eq→≡ a b h = ground arith

-- One constructor for each fmt.Errorf of the file, with what its message quotes.
pub data ExprError : Type 0 where
  bad_name_placeholder bad_value_placeholder bad_list_index : ℕ → ExprError
  unexpected_character : ℕ → ℕ → ExprError
  name_missing value_missing : Bytes → ExprError
  size_unsupported : ExprError
  invalid_typed_value expected_s expected_n : ExprError
  unknown_operator : Bytes → ExprError
  expected_kind : Kind → Bytes → ExprError
  expected_path expected_attr_name expected_operand expected_operator : Bytes → ExprError
  expected_and unexpected_token : Bytes → ExprError
  nesting_too_deep : ExprError
  too_many_in_values : ℕ → ExprError
  names_without_expr values_without_expr : ExprError
  name_unused value_unused : Bytes → ExprError
  invalid_path attribute_expected missing_bracket : Bytes → ExprError
  unexpected_rest bad_path_index : Bytes → Bytes → ExprError
