-- ===== src/Dynamo/Lexer.antt =====
-- tokenizeExpr of internal/dynamodb/expression.go, over the bytes of the expression.
pub mod Words
pub mod Spelling
pub mod Total
pub mod RoundTrip
use kumolo.Prelude.{
  ℕ, zero, suc, ◌-◌, ◌≡◌, refl, Bool, true, false, ◌&&◌, ◌||◌, Option, none, some, List, [], ◌∷◌,
  ◌++◌, length, leb, ◌==◌, if◌then◌else◌, Result, ok, err, panic, exhausted, ◌>>=◌,
}
use kumolo.Prelude.Bytes.{Bytes, codes}
use kumolo.Dynamo.Token.{
  Kind, Token, token, ExprError, tok_eof, tok_ident, tok_name_ref, tok_val_ref, tok_lparen,
  tok_rparen, tok_comma, tok_eq, tok_neq, tok_lt, tok_lte, tok_gt, tok_gte, tok_dot, tok_list_idx,
  bad_name_placeholder, bad_value_placeholder, bad_list_index, unexpected_character,
}

unfoldable pub is_expr_letter : ℕ → Bool
is_expr_letter c = (leb b'a' c && leb c b'z') || (leb b'A' c && leb c b'Z') || c == b'_'

unfoldable pub is_expr_digit : ℕ → Bool
is_expr_digit c = leb b'0' c && leb c b'9'

unfoldable pub is_word_byte : ℕ → Bool
unfolding is_expr_letter is_expr_digit
is_word_byte c = is_expr_letter c || is_expr_digit c

-- `for j < len(expr) && p(expr[j]) { j++ }`: the bytes that the loop passes, and those it leaves.
module _ (p : ℕ → Bool) where
  unfoldable pub take_while : Bytes → Bytes
  take_while [] = []
  take_while (c ∷ s) = let rest = take_while s in if p c then c ∷ rest else []

  unfoldable pub drop_while : Bytes → Bytes
  drop_while [] = []
  drop_while (c ∷ s) = let rest = drop_while s in if p c then rest else c ∷ s

unfoldable pub is_space : ℕ → Bool
is_space c = c == b' ' || c == 9 || c == 10 || c == 13

abbrev pub Lexed : Type 0
Lexed = Result ExprError (Option Token × Bytes)

-- the cases '<' and '>'
unfoldable pub lex_less : Bytes → Token × Bytes
lex_less [] = (token tok_lt (codes "<"), [])
lex_less (d ∷ s) =
    if d == b'>'
    then (token tok_neq (codes "<>"), s)
    else if d == b'='
    then (token tok_lte (codes "<="), s)
    else (token tok_lt (codes "<"), d ∷ s)

unfoldable pub lex_greater : Bytes → Token × Bytes
lex_greater [] = (token tok_gt (codes ">"), [])
lex_greater (d ∷ s) =
    if d == b'=' then (token tok_gte (codes ">="), s) else (token tok_gt (codes ">"), d ∷ s)

-- the cases '#' and ':', and their error for an empty name
unfoldable pub lex_ref : Kind → ExprError → ℕ → Bytes → Bytes → Lexed
lex_ref k e c [] rest = err e
lex_ref k e c (d ∷ w) rest = ok (some (token k (c ∷ d ∷ w)), rest)

-- the case '[': the digits, and what follows them
unfoldable pub lex_index : ExprError → Bytes → Bytes → Lexed
lex_index e [] rest = err e
lex_index e (d ∷ w) [] = err e
lex_index e (d ∷ w) (c ∷ rest) =
    if c == b']' then ok (some (token tok_list_idx (d ∷ w)), rest) else err e

abbrev pub emit_one : Token × Bytes → Lexed
emit_one (t, rest) = ok (some t, rest)

-- One round of the loop: the `switch` at byte `c` of position `i`, before the bytes `s`.
unfoldable pub lex_step : ℕ → ℕ → Bytes → Lexed
lex_step i c s =
    if is_space c
    then ok (none, s)
    else if c == b'('
    then ok (some (token tok_lparen (codes "(")), s)
    else if c == b')'
    then ok (some (token tok_rparen (codes ")")), s)
    else if c == b','
    then ok (some (token tok_comma (codes ",")), s)
    else if c == b'='
    then ok (some (token tok_eq (codes "=")), s)
    else if c == b'<'
    then emit_one (lex_less s)
    else if c == b'>'
    then emit_one (lex_greater s)
    else if c == b'#'
    then lex_ref tok_name_ref (bad_name_placeholder i) c (take_while is_word_byte s)
        (drop_while is_word_byte s)
    else if c == b':'
    then lex_ref tok_val_ref (bad_value_placeholder i) c (take_while is_word_byte s)
        (drop_while is_word_byte s)
    else if c == b'.'
    then ok (some (token tok_dot (codes ".")), s)
    else if c == b'['
    then lex_index (bad_list_index i) (take_while is_expr_digit s) (drop_while is_expr_digit s)
    else if is_expr_letter c
    then ok (some (token tok_ident (c ∷ take_while is_word_byte s)), drop_while is_word_byte s)
    else err (unexpected_character c i)

abbrev pub emit : Option Token → List Token → List Token
emit none toks = toks
emit (some t) toks = t ∷ toks

abbrev pub eof : Token
eof = token tok_eof []

-- The loop over what is left of an expression of `n` bytes; the position is what is gone.
unfoldable pub lex_loop : ℕ → ℕ → Bytes → Result ExprError (List Token)
lex_loop n f [] = ok (eof ∷ [])
lex_loop n zero (c ∷ s) = exhausted
lex_loop n (suc f) (c ∷ s) = do
  (t, rest) ← lex_step (n - length (c ∷ s)) c s
  toks ← lex_loop n f rest
  ok (emit t toks)

unfoldable pub tokenize_expr : Bytes → Result ExprError (List Token)
unfolding lex_loop lex_step is_space lex_less lex_greater lex_ref lex_index is_word_byte take_while
    drop_while
tokenize_expr s = lex_loop (length s) (length s) s
