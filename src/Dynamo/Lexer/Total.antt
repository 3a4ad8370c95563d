-- ===== src/Dynamo/Lexer/Total.antt =====
-- The end of tokenizeExpr, internal/dynamodb/expression.go, and the spelling of its tokens.
use kumolo.Prelude.{
  ℕ, zero, suc, ◌≤◌, refl, Option, none, some, List, [], ◌∷◌, length, arith, Returns, Returns-bind,
}
use kumolo.Prelude.Bytes.{Bytes}
use kumolo.Dynamo.Token.{
  Token, ExprError, tok_name_ref, tok_val_ref, bad_name_placeholder, bad_value_placeholder,
  bad_list_index,
}
use kumolo.Dynamo.Lexer.{
  is_expr_digit, is_word_byte, take_while, drop_while, lex_less, lex_greater, lex_ref, lex_index,
  lex_step, emit, lex_loop, tokenize_expr,
}
use kumolo.Dynamo.Lexer.Words.{length-drop_while, All-take_while}
use kumolo.Dynamo.Lexer.Spelling.{IsWord, IsDigits, IsSpelled, IsTokenList}

abbrev IsStep : ℕ → Option Token × Bytes → Type 0
IsStep n (none, rest) = length rest ≤ n
IsStep n (some t, rest) = (length rest ≤ n) × IsSpelled t.kind t.val

abbrev pub AnyError : ExprError → Type 0
AnyError _ = Unit

lex_name_ref-IsStep :
    (e : ExprError) (n : ℕ) (w rest : Bytes)
    → IsWord w
    → length rest ≤ n
    → Returns (IsStep n) AnyError (lex_ref tok_name_ref e b'#' w rest)
unfolding lex_ref
lex_name_ref-IsStep e n [] rest h l = tt
lex_name_ref-IsStep e n (d ∷ w) rest h l = (l, (refl, h))

lex_val_ref-IsStep :
    (e : ExprError) (n : ℕ) (w rest : Bytes)
    → IsWord w
    → length rest ≤ n
    → Returns (IsStep n) AnyError (lex_ref tok_val_ref e b':' w rest)
unfolding lex_ref
lex_val_ref-IsStep e n [] rest h l = tt
lex_val_ref-IsStep e n (d ∷ w) rest h l = (l, (refl, h))

lex_index-IsStep :
    (e : ExprError) (n : ℕ) (w rest : Bytes)
    → IsDigits w
    → length rest ≤ n
    → Returns (IsStep n) AnyError (lex_index e w rest)
unfolding lex_index
lex_index-IsStep e n w rest h l = ground arith

lex_less-IsStep :
    (s : Bytes)
    → (length (lex_less s).1 ≤ length s) × IsSpelled (lex_less s).0.kind (lex_less s).0.val
unfolding lex_less
lex_less-IsStep s = ground arith

lex_greater-IsStep :
    (s : Bytes)
    → (length (lex_greater s).1 ≤ length s) × IsSpelled (lex_greater s).0.kind (lex_greater s).0.val
unfolding lex_greater
lex_greater-IsStep s = ground arith

lex_step-IsStep : (i c : ℕ) (s : Bytes) → Returns (IsStep (length s)) AnyError (lex_step i c s)
unfolding lex_step
lex_step-IsStep i c s = ground (
  arith,
  lex_less-IsStep s,
  lex_greater-IsStep s,
  lex_name_ref-IsStep (bad_name_placeholder i) (length s) (take_while is_word_byte s)
      (drop_while is_word_byte s) (All-take_while is_word_byte s)
      (length-drop_while is_word_byte s),
  lex_val_ref-IsStep (bad_value_placeholder i) (length s) (take_while is_word_byte s)
      (drop_while is_word_byte s) (All-take_while is_word_byte s)
      (length-drop_while is_word_byte s),
  lex_index-IsStep (bad_list_index i) (length s) (take_while is_expr_digit s)
      (drop_while is_expr_digit s) (All-take_while is_expr_digit s)
      (length-drop_while is_expr_digit s),
  length-drop_while is_word_byte s,
  All-take_while is_word_byte s,
)

emit-IsTokenList :
    (n : ℕ) (step : Option Token × Bytes) (toks : List Token)
    → IsStep n step
    → IsTokenList toks
    → IsTokenList (emit step.0 toks)
emit-IsTokenList n (none, rest) toks s h = h
emit-IsTokenList n (some t, rest) [] s h = absurd h
emit-IsTokenList n (some t, rest) (u ∷ toks) s h = (s.1, h)

length-step : (n : ℕ) (step : Option Token × Bytes) → IsStep n step → length step.1 ≤ n
length-step n (none, rest) s = s
length-step n (some t, rest) s = s.0

lex_loop-IsTokenList :
    (n f : ℕ) (s : Bytes) → length s ≤ f → Returns IsTokenList AnyError (lex_loop n f s)
unfolding lex_loop
lex_loop-IsTokenList n f [] h = refl
lex_loop-IsTokenList n zero (c ∷ s) h = omega arith
lex_loop-IsTokenList n (suc f) (c ∷ s) h =
    Returns-bind (IsStep (length s)) IsTokenList AnyError _ _ (lex_step-IsStep _ c s) λ step fits.
      Returns-bind IsTokenList IsTokenList AnyError _ _
        (lex_loop-IsTokenList n f step.1 (omega (arith, length-step (length s) step fits)))
        λ toks h'. emit-IsTokenList (length s) step toks fits h'

-- On every expression tokenizeExpr returns an error or a list of tokens; it does not panic and its
-- loop ends. The tokens are spelled as their kinds demand, and one tokEOF stands at the end.
pub tokenize_expr-IsTokenList : (s : Bytes) → Returns IsTokenList AnyError (tokenize_expr s)
unfolding tokenize_expr
tokenize_expr-IsTokenList s = lex_loop-IsTokenList (length s) (length s) s (omega arith)
