-- ===== src/Dynamo/Parser.antt =====
-- exprParser of internal/dynamodb/expression.go: recursive descent to a condition node.
pub mod Stream
pub mod Path
pub mod Covers
use kumolo.Prelude.{
  ℕ, zero, suc, ◌+◌, ◌≡◌, refl, Bool, true, false, ◌&&◌, Option, none, some, List, [], ◌∷◌, length,
  ltb, if◌then◌else◌, Result, ok, err, panic, exhausted, ◌>>=◌,
}
use kumolo.Prelude.Bytes.{Bytes, codes, bytes_eq, has_prefix, to_upper, to_lower}
use kumolo.Dynamo.Token.{
  Kind, kind_eq, Token, tok_eof, tok_ident, tok_lparen, tok_rparen, tok_comma, tok_eq, tok_neq,
  tok_lt, tok_lte, tok_gt, tok_gte, expected_operator, expected_and, unexpected_token,
  too_many_in_values,
}
use kumolo.Dynamo.Lexer.{tokenize_expr}
use kumolo.Dynamo.Operand.{Operand, Eval}
use kumolo.Dynamo.Cond.{
  Cond, and_cond, or_cond, not_cond, cmp_cond, attr_exists, begins_with_cond, contains_cond,
  between_cond, in_cond,
}
use Stream.{Parser, peek, consume, expect_kind, is_keyword_token, is_keyword, is_name}
use Path.{atoi, path_loop, path_operand, parse_attr_path, parse_size_func, parse_operand}

pub parse_attr_exists_func : Bool → Parser Cond
parse_attr_exists_func negate toks = do
  (_, toks1) ← consume toks
  (_, toks2) ← expect_kind tok_lparen toks1
  (o, toks3) ← parse_attr_path toks2
  (_, rest) ← expect_kind tok_rparen toks3
  ok (attr_exists o negate, rest)

-- parseBeginsWithFunc and parseContainsFunc, which differ in the node that they build
pub parse_two_arg_func : (Operand → Operand → Cond) → Parser Cond
parse_two_arg_func node toks = do
  (_, toks1) ← consume toks
  (_, toks2) ← expect_kind tok_lparen toks1
  (p, toks3) ← parse_attr_path toks2
  (_, toks4) ← expect_kind tok_comma toks3
  (o, toks5) ← parse_operand toks4
  (_, rest) ← expect_kind tok_rparen toks5
  ok (node p o, rest)

pub parse_begins_with_func : Parser Cond
parse_begins_with_func = parse_two_arg_func begins_with_cond

pub parse_contains_func : Parser Cond
parse_contains_func = parse_two_arg_func contains_cond

-- The left side of a comparison.
pub parse_left : Parser Operand
parse_left toks = do
  sized ← is_keyword (codes "SIZE") toks
  (if sized then parse_size_func toks else parse_attr_path toks)

-- BETWEEN, behind its lower bound
between_high : Operand → Operand → Parser Cond
between_high left lo toks = do
  t ← peek toks
  (if is_keyword_token (codes "AND") t
      then (do
        (_, toks1) ← consume toks
        (hi, rest) ← parse_operand toks1
        ok (between_cond left lo hi, rest))
      else err (expected_and t.val))

pub parse_between : Operand → Parser Cond
parse_between left toks = do
  (_, toks1) ← consume toks
  (lo, toks2) ← parse_operand toks1
  between_high left lo toks2

-- The loop behind the first value of IN, with the number of values so far; on fuel.
in_loop : ℕ → ℕ → Parser (List Operand)
in_loop zero n toks = exhausted
in_loop (suc f) n toks = do
  t ← peek toks
  (if kind_eq t.kind tok_comma
      then (do
        (_, toks1) ← consume toks
        (o, toks2) ← parse_operand toks1
        (if ltb 100 (n + 1)
            then err (too_many_in_values (n + 1))
            else (do (os, rest) ← in_loop f (n + 1) toks2; ok (o ∷ os, rest))))
      else ok ([], toks))

pub parse_in : Operand → Parser Cond
parse_in left toks = do
  (_, toks1) ← consume toks
  (_, toks2) ← expect_kind tok_lparen toks1
  (first, toks3) ← parse_operand toks2
  (os, toks4) ← in_loop (length toks3) 1 toks3
  (_, rest) ← expect_kind tok_rparen toks4
  ok (in_cond left (first ∷ os), rest)

unfoldable pub comparison_op : Kind → Option Bytes
comparison_op tok_eq = some (codes "=")
comparison_op tok_neq = some (codes "<>")
comparison_op tok_lt = some (codes "<")
comparison_op tok_lte = some (codes "<=")
comparison_op tok_gt = some (codes ">")
comparison_op tok_gte = some (codes ">=")
comparison_op _ = none

pub parse_cmp : Operand → Parser Cond
parse_cmp left toks = do
  t ← peek toks
  elim (comparison_op t.kind) [
    | none ↦ err (expected_operator t.val)
    | some op ↦ do
      (_, toks1) ← consume toks
      (right, rest) ← parse_operand toks1
      ok (cmp_cond left op right, rest)
  ]

-- parseComparison, behind its left side
comparison_rest : Operand → Parser Cond
comparison_rest left toks = do
  t ← peek toks
  (if is_keyword_token (codes "BETWEEN") t
      then parse_between left toks
      else if is_keyword_token (codes "IN") t
      then parse_in left toks
      else parse_cmp left toks)

pub parse_comparison : Parser Cond
parse_comparison toks = do (left, rest) ← parse_left toks; comparison_rest left rest

-- parsePrimary, with `inner` for its call of parseOr
pub parse_primary : Parser Cond → Parser Cond
parse_primary inner toks = do
  t ← peek toks
  (if kind_eq t.kind tok_lparen
      then (do
        (_, toks1) ← consume toks
        (node, toks2) ← inner toks1
        (_, rest) ← expect_kind tok_rparen toks2
        ok (node, rest))
      else if kind_eq t.kind tok_ident && bytes_eq (to_lower t.val) (codes "attribute_exists")
      then parse_attr_exists_func false toks
      else if kind_eq t.kind tok_ident && bytes_eq (to_lower t.val) (codes "attribute_not_exists")
      then parse_attr_exists_func true toks
      else if kind_eq t.kind tok_ident && bytes_eq (to_lower t.val) (codes "begins_with")
      then parse_begins_with_func toks
      else if kind_eq t.kind tok_ident && bytes_eq (to_lower t.val) (codes "contains")
      then parse_contains_func toks
      else parse_comparison toks)

pub parse_not : Parser Cond → Parser Cond
parse_not inner toks = do
  negated ← is_keyword (codes "NOT") toks
  (if negated
      then (do
        (_, toks1) ← consume toks
        (c, rest) ← parse_primary inner toks1
        ok (not_cond c, rest))
      else parse_primary inner toks)

-- `for p.isKeyword(kw) { … left = node{left, right} }`, on fuel
pub chain : Bytes → (Cond → Cond → Cond) → Parser Cond → ℕ → Cond → Parser Cond
chain kw node item zero left toks = exhausted
chain kw node item (suc f) left toks = do
  more ← is_keyword kw toks
  (if more
      then (do
        (_, toks1) ← consume toks
        (right, toks2) ← item toks1
        chain kw node item f (node left right) toks2)
      else ok (left, toks))

pub parse_chain : Bytes → (Cond → Cond → Cond) → Parser Cond → Parser Cond
parse_chain kw node item toks = do
  (left, rest) ← item toks
  chain kw node item (length rest) left rest

pub parse_and : Parser Cond → Parser Cond
parse_and inner = parse_chain (codes "AND") and_cond (parse_not inner)

-- parseOr calls itself, through parsePrimary, behind a parenthesis; `zero` is never reached.
pub parse_or : ℕ → Parser Cond
parse_or zero toks = exhausted
parse_or (suc f) toks = parse_chain (codes "OR") or_cond (parse_and (parse_or f)) toks

-- parseFilterExpr, behind parseOr
filter_end : Cond → List Token → Eval Cond
filter_end node toks = do
  t ← peek toks
  (if kind_eq t.kind tok_eof then ok node else err (unexpected_token t.val))

unfoldable pub parse_filter_expr : Bytes → Eval Cond
unfolding peek consume expect_kind kind_eq is_keyword_token is_keyword is_name atoi path_loop
    path_operand parse_attr_path parse_size_func parse_operand parse_attr_exists_func
    parse_two_arg_func parse_begins_with_func parse_contains_func parse_left between_high
    parse_between in_loop parse_in comparison_op parse_cmp comparison_rest parse_comparison
    parse_primary parse_not chain parse_chain parse_and parse_or filter_end tokenize_expr bytes_eq
    to_upper to_lower has_prefix
parse_filter_expr expr = do
  toks ← tokenize_expr expr
  (node, rest) ← parse_or (length toks) toks
  filter_end node rest
