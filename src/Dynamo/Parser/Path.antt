-- ===== src/Dynamo/Parser/Path.antt =====
-- parseAttrPath, parseSizeFunc and parseOperand of internal/dynamodb/expression.go.
use kumolo.Prelude.{
  ℕ, ◌+◌, ◌*◌, ◌-◌, ◌^◌, ◌||◌, List, [], ◌∷◌, length, ltb, leb, if◌then◌else◌, ok, err, panic,
  ◌>>=◌,
}
use kumolo.Prelude.Bytes.{Bytes, codes, has_prefix}
use kumolo.Dynamo.Token.{
  kind_eq, tok_val_ref, tok_lparen, tok_rparen, tok_dot, tok_list_idx, expected_path,
  expected_attr_name, expected_operand, nesting_too_deep,
}
use kumolo.Dynamo.Operand.{
  ProjSegment, attr_step, index_step, Operand, name_ref, val_ref, plain, size, path, Eval,
}
use kumolo.Dynamo.Parser.Stream.{Parser, peek, consume, expect_kind, is_keyword, is_name}

-- strconv.Atoi on decimal digits: beyond the range of int it returns the greatest int (and an
-- error, which the caller drops).
abbrev pub max_int : ℕ
max_int = 2 ^ 63 - 1

unfoldable pub digits_value : ℕ → Bytes → ℕ
digits_value n [] = n
digits_value n (c ∷ s) = digits_value (n * 10 + (c - b'0')) s

unfoldable pub atoi : Bytes → ℕ
unfolding digits_value
atoi s = let n = digits_value 0 s in if leb n max_int then n else max_int

-- The loop of parseAttrPath: the segments behind the first.
unfoldable pub path_loop : Parser (List ProjSegment)
path_loop [] = panic
path_loop (t ∷ []) =
    if kind_eq t.kind tok_dot || kind_eq t.kind tok_list_idx then panic else ok ([], t ∷ [])
path_loop (t ∷ next ∷ toks) =
    let after_dot = path_loop toks in
    let after_index = path_loop (next ∷ toks) in
    if kind_eq t.kind tok_dot
    then (if is_name next.kind
        then (do (segs, rest) ← after_dot; ok (attr_step next.val ∷ segs, rest))
        else err (expected_attr_name next.val))
    else if kind_eq t.kind tok_list_idx
    then (do (segs, rest) ← after_index; ok (index_step (atoi t.val) ∷ segs, rest))
    else ok ([], t ∷ next ∷ toks)

-- The end of parseAttrPath: `first` is the first segment's name, `segs` the segments behind it.
unfoldable pub path_operand : Bytes → List ProjSegment → Eval Operand
path_operand first [] = ok (if has_prefix first (codes "#") then name_ref first else plain first)
path_operand first (seg ∷ segs) =
    if ltb 32 (length (seg ∷ segs))
    then err nesting_too_deep
    else ok (path (attr_step first ∷ seg ∷ segs))

unfoldable pub parse_attr_path : Parser Operand
parse_attr_path toks = do
  t ← peek toks
  (if is_name t.kind
      then (do
        (first, toks1) ← consume toks
        (segs, rest) ← path_loop toks1
        o ← path_operand first.val segs
        ok (o, rest))
      else err (expected_path t.val))

unfoldable pub parse_size_func : Parser Operand
parse_size_func toks = do
  (_, toks1) ← consume toks
  (_, toks2) ← expect_kind tok_lparen toks1
  (o, toks3) ← parse_attr_path toks2
  (_, rest) ← expect_kind tok_rparen toks3
  ok (size o, rest)

unfoldable pub parse_operand : Parser Operand
parse_operand toks = do
  sized ← is_keyword (codes "SIZE") toks
  t ← peek toks
  (if sized
      then parse_size_func toks
      else if kind_eq t.kind tok_val_ref
      then (do (_, rest) ← consume toks; ok (val_ref t.val, rest))
      else if is_name t.kind
      then parse_attr_path toks
      else err (expected_operand t.val))
