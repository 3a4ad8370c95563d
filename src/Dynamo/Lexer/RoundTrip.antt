-- ===== src/Dynamo/Lexer/RoundTrip.antt =====
-- tokenizeExpr of internal/dynamodb/expression.go on the spelling of a list of tokens.
use kumolo.Prelude.{
  ℕ, zero, suc, ◌+◌, ◌≤◌, ◌≡◌, ◌≢◌, ◌<◌, refl, true, false, some, List, [], ◌∷◌, ◌++◌, length, All,
  arith, length-append, Result, ok, err, panic, exhausted, ◌>>=◌,
}
use mathlib.Core.List.{append_assoc}
use kumolo.Prelude.Bytes.{Bytes, codes}
use kumolo.Dynamo.Token.{
  Kind, Token, token, ExprError, tok_eof, tok_ident, tok_name_ref, tok_val_ref, tok_list_idx,
}
use kumolo.Dynamo.Lexer.{
  is_expr_letter, is_expr_digit, is_word_byte, is_space, lex_less, lex_greater, lex_ref, lex_index,
  lex_step, lex_loop, tokenize_expr, eof,
}
use kumolo.Dynamo.Lexer.Words.{take_while-word, drop_while-word}
use kumolo.Dynamo.Lexer.Spelling.{IsWord, IsDigits, IsSpelled}

abbrev pub spell_kind : Kind → Bytes → Bytes
spell_kind tok_list_idx v = codes "[" ++ v ++ codes "]"
spell_kind _ v = v

-- The bytes of a token in an expression: a list index has its brackets back.
blank : is_word_byte b' ' ≡ false
unfolding is_word_byte
blank = refl

abbrev pub spell : Token → Bytes
spell t = spell_kind t.kind t.val

-- An expression with one blank behind each token.
pub spell_all : List Token → Bytes
spell_all [] = []
spell_all (t ∷ toks) = spell t ++ b' ' ∷ spell_all toks

-- Where the loop goes on after a token that it has read.
abbrev continue : ℕ → ℕ → Token → Bytes → Result ExprError (List Token)
continue n f t s = do toks ← lex_loop n f s; ok (t ∷ toks)

lex_step-ident :
    (i c : ℕ) (w s : Bytes)
    → is_expr_letter c ≡ true
    → IsWord w
    → lex_step i c (w ++ b' ' ∷ s) ≡ ok (some (token tok_ident (c ∷ w)), b' ' ∷ s)
unfolding lex_step is_space is_expr_letter
lex_step-ident i c w s h hw = ground (
  arith,
  take_while-word is_word_byte w b' ' s hw blank,
  drop_while-word is_word_byte w b' ' s hw blank,
)

lex_loop-fixed :
    (n f : ℕ) (k : Kind) (v s : Bytes)
    → k ≢ tok_ident
    → k ≢ tok_name_ref
    → k ≢ tok_val_ref
    → k ≢ tok_list_idx
    → IsSpelled k v
    → lex_loop n (suc f) (spell_kind k v ++ b' ' ∷ s) ≡ continue n f (token k v) (b' ' ∷ s)
unfolding lex_loop lex_step is_space lex_less lex_greater
lex_loop-fixed n f tok_eof v s _ _ _ _ h = absurd h
lex_loop-fixed n f tok_ident v s a _ _ _ h = absurd (a refl)
lex_loop-fixed n f tok_name_ref v s _ a _ _ h = absurd (a refl)
lex_loop-fixed n f tok_val_ref v s _ _ a _ h = absurd (a refl)
lex_loop-fixed n f tok_list_idx v s _ _ _ a h = absurd (a refl)
lex_loop-fixed n f _ v s _ _ _ _ h = rw h

lex_loop-ident :
    (n f c : ℕ) (w s : Bytes)
    → is_expr_letter c ≡ true
    → IsWord w
    → lex_loop n (suc f) (c ∷ w ++ b' ' ∷ s) ≡ continue n f (token tok_ident (c ∷ w)) (b' ' ∷ s)
unfolding lex_loop
lex_loop-ident n f c w s h hw = rw (lex_step-ident _ c w s h hw)

digit_stop : is_expr_digit b']' ≡ false
unfolding is_expr_digit
digit_stop = refl

lex_loop-index :
    (n f c : ℕ) (w s : Bytes)
    → IsDigits (c ∷ w)
    → lex_loop n (suc f) (b'[' ∷ c ∷ w ++ b']' ∷ b' ' ∷ s)
      ≡ continue n f (token tok_list_idx (c ∷ w)) (b' ' ∷ s)
unfolding lex_loop lex_step is_space lex_index
lex_loop-index n f c w s h = rw (
  take_while-word is_expr_digit (c ∷ w) b']' (b' ' ∷ s) h digit_stop,
  drop_while-word is_expr_digit (c ∷ w) b']' (b' ' ∷ s) h digit_stop,
)

lex_loop-spell :
    (n f : ℕ) (k : Kind) (v s : Bytes)
    → IsSpelled k v
    → lex_loop n (suc f) (spell_kind k v ++ b' ' ∷ s) ≡ continue n f (token k v) (b' ' ∷ s)
unfolding lex_loop lex_step is_space lex_ref lex_index
lex_loop-spell n f tok_ident [] s h = absurd h
lex_loop-spell n f tok_ident (c ∷ w) s h = lex_loop-ident n f c w s h.0 h.1
lex_loop-spell n f tok_name_ref [] s h = absurd h
lex_loop-spell n f tok_name_ref (c ∷ []) s h = absurd h
lex_loop-spell n f tok_name_ref (c ∷ d ∷ w) s h = rw (
  h.0,
  take_while-word is_word_byte (d ∷ w) b' ' s h.1 blank,
  drop_while-word is_word_byte (d ∷ w) b' ' s h.1 blank,
)
lex_loop-spell n f tok_val_ref [] s h = absurd h
lex_loop-spell n f tok_val_ref (c ∷ []) s h = absurd h
lex_loop-spell n f tok_val_ref (c ∷ d ∷ w) s h = rw (
  h.0,
  take_while-word is_word_byte (d ∷ w) b' ' s h.1 blank,
  drop_while-word is_word_byte (d ∷ w) b' ' s h.1 blank,
)
lex_loop-spell n f tok_list_idx [] s h = absurd h
lex_loop-spell n f tok_list_idx (c ∷ w) s h = rw append_assoc (lex_loop-index n f c w s h)
lex_loop-spell n f k v s h = lex_loop-fixed n f k v s (λ e. cc) (λ e. cc) (λ e. cc) (λ e. cc) h

bind-ok : (m : Result ExprError (List Token)) → (m >>= λ toks. ok toks) ≡ m
bind-ok (ok a) = refl
bind-ok (err e) = refl
bind-ok panic = refl
bind-ok exhausted = refl

lex_loop-blank : (n f : ℕ) (s : Bytes) → lex_loop n (suc f) (b' ' ∷ s) ≡ lex_loop n f s
unfolding lex_loop lex_step is_space
lex_loop-blank n f s = bind-ok (lex_loop n f s)

spell-pos : (k : Kind) (v : Bytes) → IsSpelled k v → 0 < length (spell_kind k v)
spell-pos tok_eof v h = absurd h
spell-pos tok_list_idx v h = omega arith
spell-pos tok_ident [] h = absurd h
spell-pos tok_name_ref [] h = absurd h
spell-pos tok_val_ref [] h = absurd h
spell-pos k [] h = cc
spell-pos k (c ∷ v) h = omega arith

lex_loop-spell_all :
    (n f : ℕ) (toks : List Token)
    → All (λ t. IsSpelled t.kind t.val) toks
    → length (spell_all toks) ≤ f
    → lex_loop n f (spell_all toks) ≡ ok (toks ++ eof ∷ [])
unfolding spell_all
lex_loop-spell_all n f [] h l = unfold lex_loop in refl
lex_loop-spell_all n f (t ∷ toks) h l =
    spend f (λ g. lex_loop-spell_all n g toks h.1)
      (omega (arith, spell-pos t.kind t.val h.0, length-append (spell t) (b' ' ∷ spell_all toks)))
  where
    spend :
        (f : ℕ)
        → ((g : ℕ)
            → length (spell_all toks) ≤ g
            → lex_loop n g (spell_all toks) ≡ ok (toks ++ eof ∷ []))
        → length (spell_all toks) + 2 ≤ f
        → lex_loop n f (spell t ++ b' ' ∷ spell_all toks) ≡ ok (t ∷ (toks ++ eof ∷ []))
    spend zero ih l' = absurd (omega arith)
    spend (suc zero) ih l' = absurd (omega arith)
    spend (suc (suc g)) ih l' =
        rw (lex_loop-spell n (suc g) t.kind t.val (spell_all toks) h.0)
          (rw (lex_loop-blank n g (spell_all toks)) (rw (ih g (omega arith))))

-- tokenizeExpr reads an expression that spells well-spelled tokens, a blank behind each, back as
-- those tokens and a tokEOF.
pub tokenize_expr-spell_all :
    (toks : List Token)
    → All (λ t. IsSpelled t.kind t.val) toks
    → tokenize_expr (spell_all toks) ≡ ok (toks ++ eof ∷ [])
unfolding tokenize_expr
tokenize_expr-spell_all toks h =
    lex_loop-spell_all (length (spell_all toks)) (length (spell_all toks)) toks h (omega arith)
