-- ===== src/Dynamo/Refs/Tokens.antt =====
-- The placeholders of refsInExpr beside those of tokenizeExpr, internal/dynamodb/expression.go.
use kumolo.Prelude.{
  ℕ, zero, suc, ◌-◌, ◌≡◌, refl, sym, ◌∙◌, ap, Option, none, some, List, [], ◌∷◌, length, arith,
  Result, ok, bind-eq-ok,
}
use mathlib.Core.Path.{subst}
use kumolo.Prelude.Bytes.{Bytes}
use kumolo.Dynamo.Token.{
  Kind, Token, ExprError, tok_name_ref, tok_val_ref, bad_name_placeholder, bad_value_placeholder,
  bad_list_index,
}
use kumolo.Dynamo.Lexer.{
  is_expr_letter, is_expr_digit, is_word_byte, is_space, take_while, drop_while, lex_less,
  lex_greater, lex_ref, lex_index, lex_step, emit, eof, lex_loop, tokenize_expr,
}
use kumolo.Dynamo.Refs.{Refs, no_refs, add_name, add_val, found_name, found_val, refs_in_expr}
use kumolo.Dynamo.Refs.Scan.{
  refs_in_expr-cons, refs_in_expr-skip, refs_in_expr-word, refs_in_expr-digits,
}

abbrev add_kind : Kind → Bytes → Refs → Refs
add_kind tok_name_ref v r = add_name v r
add_kind tok_val_ref v r = add_val v r
add_kind _ v r = r

-- The placeholders among tokens, in their order.
pub refs_of : List Token → Refs
refs_of [] = no_refs
refs_of (t ∷ toks) = add_kind t.kind t.val (refs_of toks)

abbrev add_emitted : Option Token → Refs → Refs
add_emitted none r = r
add_emitted (some t) r = add_kind t.kind t.val r

-- What a round of tokenizeExpr reads, refsInExpr reads too.
abbrev Agrees : ℕ → Bytes → Result ExprError (Option Token × Bytes) → Type 0
Agrees c s (ok (t, rest)) = refs_in_expr (c ∷ s) ≡ add_emitted t (refs_in_expr rest)
Agrees c s _ = Unit

lex_less-Agrees :
    (s : Bytes) → refs_in_expr s ≡ add_emitted (some (lex_less s).0) (refs_in_expr (lex_less s).1)
unfolding lex_less
lex_less-Agrees [] = refl
lex_less-Agrees (d ∷ s) = ground (arith, refs_in_expr-skip d s)

lex_greater-Agrees :
    (s : Bytes)
    → refs_in_expr s ≡ add_emitted (some (lex_greater s).0) (refs_in_expr (lex_greater s).1)
unfolding lex_greater
lex_greater-Agrees [] = refl
lex_greater-Agrees (d ∷ s) = ground (arith, refs_in_expr-skip d s)

lex_index-Agrees :
    (c : ℕ) (s w rest : Bytes) (e : ExprError)
    → refs_in_expr (c ∷ s) ≡ refs_in_expr rest
    → Agrees c s (lex_index e w rest)
unfolding lex_index
lex_index-Agrees c s [] rest e h = tt
lex_index-Agrees c s (d ∷ w) [] e h = tt
lex_index-Agrees c s (d ∷ w) (b ∷ rest) e h = ground (arith, refs_in_expr-skip b rest)

lex_ref-Agrees :
    (s : Bytes) (e : ExprError)
    → Agrees b'#' s
        (lex_ref tok_name_ref e b'#' (take_while is_word_byte s) (drop_while is_word_byte s))
      × Agrees b':' s
          (lex_ref tok_val_ref e b':' (take_while is_word_byte s) (drop_while is_word_byte s))
unfolding lex_ref found_name found_val
lex_ref-Agrees s e = ground (arith, refs_in_expr-cons b'#' s, refs_in_expr-cons b':' s)

lex_step-Agrees : (i c : ℕ) (s : Bytes) → Agrees c s (lex_step i c s)
unfolding lex_step is_space is_expr_letter
lex_step-Agrees i c s = ground (
  arith,
  refs_in_expr-skip c s,
  lex_less-Agrees s,
  lex_greater-Agrees s,
  refs_in_expr-digits s,
  refs_in_expr-word s,
  lex_index-Agrees c s (take_while is_expr_digit s) (drop_while is_expr_digit s) (bad_list_index i),
  (lex_ref-Agrees s (bad_name_placeholder i)).0,
  (lex_ref-Agrees s (bad_value_placeholder i)).1,
)

refs_of-emit :
    (t : Option Token) (toks : List Token) → refs_of (emit t toks) ≡ add_emitted t (refs_of toks)
unfolding refs_of
refs_of-emit none toks = refl
refs_of-emit (some t) toks = refl

refs_in_expr-nil : refs_in_expr [] ≡ no_refs
unfolding refs_in_expr
refs_in_expr-nil = refl

ok-injective : (a b : List Token) → ◌≡◌ {A = Result ExprError (List Token)} (ok a) (ok b) → a ≡ b
ok-injective a b h = cc

lex_loop-refs :
    (n f : ℕ) (s : Bytes) (toks : List Token)
    → lex_loop n f s ≡ ok toks
    → refs_in_expr s ≡ refs_of toks
unfolding lex_loop refs_of
lex_loop-refs n f [] toks h = refs_in_expr-nil ∙ ap refs_of (ok-injective (eof ∷ []) toks h)
lex_loop-refs n zero (c ∷ s) toks h = cc
lex_loop-refs n (suc f) (c ∷ s) toks h =
    let (step, p, rest_ok) = bind-eq-ok (lex_step (n - length (c ∷ s)) c s) _ h in
    let (toks', q, e) = bind-eq-ok (lex_loop n f step.1) _ rest_ok in
    subst (Agrees c s) p (lex_step-Agrees (n - length (c ∷ s)) c s)
    ∙ ap (add_emitted step.0) (lex_loop-refs n f step.1 toks' q)
    ∙ sym (refs_of-emit step.0 toks')
    ∙ ap refs_of (ok-injective (emit step.0 toks') toks e)

-- On an expression that tokenizes, refsInExpr returns the name placeholders and the value
-- placeholders among its tokens, each in their order.
pub refs_in_expr-tokenize_expr :
    (s : Bytes) (toks : List Token) → tokenize_expr s ≡ ok toks → refs_in_expr s ≡ refs_of toks
unfolding tokenize_expr
refs_in_expr-tokenize_expr s toks h = lex_loop-refs (length s) (length s) s toks h
