-- ===== src/Dynamo/Parser/Covers/Nodes.antt =====
-- parsePrimary, parseNot, parseAnd, parseOr and parseFilterExpr of internal/dynamodb/expression.go:
-- the recursion, and the tokens that a node comes from.
use kumolo.Prelude.{
  ℕ, zero, suc, ◌≤◌, ◌<◌, ◌≡◌, refl, Bool, true, false, ◌&&◌, List, [], ◌∷◌, length, arith,
  and_parts, inl, inr, Any, ok, err, panic, exhausted, ◌>>=◌, Returns, Returns-bind, Returns-if,
}
use kumolo.Prelude.Bytes.{Bytes, codes, bytes_eq, to_lower}
use kumolo.Dynamo.Token.{tok_lparen, kind_eq, Token, tok_eof, tok_ident}
use kumolo.Dynamo.Lexer.{tokenize_expr}
use kumolo.Dynamo.Lexer.Spelling.{IsSpelled, IsTokenList, Terminated}
use kumolo.Dynamo.Lexer.Total.{AnyError, tokenize_expr-IsTokenList}
use kumolo.Dynamo.Operand.{Eval}
use kumolo.Dynamo.Cond.{Cond, and_cond, or_cond, begins_with_cond, contains_cond}
use kumolo.Dynamo.Parser.Stream.{Parser, peek, consume, is_keyword_token, is_keyword}
use kumolo.Dynamo.Parser.{
  parse_begins_with_func, parse_contains_func, parse_primary, parse_not, chain, parse_chain,
  parse_and, parse_or, filter_end, parse_filter_expr,
}
use kumolo.Dynamo.Parser.Covers.{
  kind_eq-ne-eof, keyword-ne-eof, consume-Parsed, Gives-bind, Gives-if, Gives-weaken, Gives, Parsed,
}
use kumolo.Dynamo.Parser.Covers.Conds.{
  CondCovered, closed, parse_attr_exists_func-Parsed, parse_two_arg_func-Parsed,
  parse_comparison-Parsed,
}

module _ (K : Token → Type 0) where
  -- A parser of conditions that is right on fewer than `n` tokens.
  abbrev GivesBelow : ℕ → Parser Cond → Type 0
  GivesBelow n parser =
      (toks : List Token)
      → Terminated K toks
      → length toks < n
      → Gives K (CondCovered K) (length toks) (parser toks)

  -- A function's call, where the token is the function's name.
  call-Parsed :
      (name : Bytes) (t : Token) (toks : List Token) (r : Eval (Cond × List Token))
      → Terminated K (t ∷ toks)
      → (Terminated K toks → Gives K (CondCovered K) (length toks) r)
      → (kind_eq t.kind tok_ident && bytes_eq (to_lower t.val) name) ≡ true
      → Gives K (CondCovered K) (suc (length toks)) r
  call-Parsed name t toks r h k e =
      Gives-weaken K (CondCovered K) (length toks) (suc (length toks)) r (omega arith) (
        k
          (consume-Parsed K t toks h (
            kind_eq-ne-eof t.kind tok_ident (and_parts (kind_eq t.kind tok_ident) _ e).0
              (λ p. cc))).1)

  parse_primary-Parsed :
      (inner : Parser Cond) (t : Token) (toks : List Token)
      → GivesBelow (suc (length toks)) inner
      → Terminated K (t ∷ toks)
      → Gives K (CondCovered K) (suc (length toks)) (parse_primary inner (t ∷ toks))
  unfolding parse_primary peek consume parse_begins_with_func parse_contains_func
  parse_primary-Parsed inner t toks ih h =
      Gives-if K C n (kind_eq t.kind tok_lparen) _ _
        (λ e.
          Gives-bind K C C (length toks) n _ _
            (ih toks (consume-Parsed K t toks h (kind_eq-ne-eof t.kind tok_lparen e (λ p. cc))).1
              (omega arith))
            λ node toks2 c h2 l2. closed K C n node toks2 c h2 (omega arith))
        λ _.
          Gives-if K C n (is_call (codes "attribute_exists")) _ _
            (call-Parsed (codes "attribute_exists") t toks _ h
              (parse_attr_exists_func-Parsed K false t toks))
            λ _.
              Gives-if K C n (is_call (codes "attribute_not_exists")) _ _
                (call-Parsed (codes "attribute_not_exists") t toks _ h
                  (parse_attr_exists_func-Parsed K true t toks))
                λ _.
                  Gives-if K C n (is_call (codes "begins_with")) _ _
                    (call-Parsed (codes "begins_with") t toks _ h
                      (parse_two_arg_func-Parsed K begins_with_cond (λ p o c d. (c, d)) t toks))
                    λ _.
                      Gives-if K C n (is_call (codes "contains")) _ _
                        (call-Parsed (codes "contains") t toks _ h
                          (parse_two_arg_func-Parsed K contains_cond (λ p o c d. (c, d)) t toks))
                        λ _. parse_comparison-Parsed K (t ∷ toks) h
    where
      C : Cond → Type 0
      C = CondCovered K

      n : ℕ
      n = suc (length toks)

      is_call : Bytes → Bool
      is_call name = kind_eq t.kind tok_ident && bytes_eq (to_lower t.val) name

  parse_primary-Gives :
      (inner : Parser Cond) (toks : List Token)
      → GivesBelow (length toks) inner
      → Terminated K toks
      → Gives K (CondCovered K) (length toks) (parse_primary inner toks)
  parse_primary-Gives inner [] ih h = absurd h
  parse_primary-Gives inner (t ∷ toks) ih h = parse_primary-Parsed inner t toks ih h

  parse_not-Parsed :
      (inner : Parser Cond) (toks : List Token)
      → GivesBelow (length toks) inner
      → Terminated K toks
      → Gives K (CondCovered K) (length toks) (parse_not inner toks)
  unfolding parse_not is_keyword peek consume
  parse_not-Parsed inner [] ih h = h
  parse_not-Parsed inner (t ∷ toks) ih h =
      Gives-if K (CondCovered K) (suc (length toks)) (is_keyword_token (codes "NOT") t) _ _
        (λ kw.
          Gives-bind K (CondCovered K) (CondCovered K) (length toks) (suc (length toks)) _ _
            (parse_primary-Gives inner toks (λ t e s. ih t e (omega arith))
              (consume-Parsed K t toks h (keyword-ne-eof (codes "NOT") t kw)).1)
            λ node rest c h2 l2. (c, h2, omega arith))
        λ _. parse_primary-Parsed inner t toks ih h

  chain-Parsed :
      (kw : Bytes) (node : Cond → Cond → Cond) (item : Parser Cond) (m f : ℕ) (left : Cond)
      (toks : List Token)
      → ((l r : Cond) → CondCovered K l → CondCovered K r → CondCovered K (node l r))
      → GivesBelow m item
      → CondCovered K left
      → Terminated K toks
      → length toks ≤ f
      → length toks ≤ m
      → Gives K (CondCovered K) (suc (length toks)) (chain kw node item f left toks)
  unfolding chain is_keyword peek consume
  chain-Parsed kw node item m f left [] covers ih c h l lm = absurd h
  chain-Parsed kw node item m zero left (t ∷ toks) covers ih c h l lm = omega arith
  chain-Parsed kw node item m (suc f) left (t ∷ toks) covers ih c h l lm =
      Gives-if K (CondCovered K) (suc (suc (length toks))) (is_keyword_token kw t) _ _
        (λ e.
          Gives-bind K (CondCovered K) (CondCovered K) (length toks) (suc (suc (length toks))) _ _
            (ih toks (consume-Parsed K t toks h (keyword-ne-eof kw t e)).1 (omega arith))
            λ right toks2 d h2 l2.
              Gives-weaken K (CondCovered K) (suc (length toks2)) (suc (suc (length toks))) _
                (omega arith)
                (chain-Parsed kw node item m f (node left right) toks2 covers ih
                  (covers left right c d) h2 (omega arith) (omega arith)))
        λ _. (c, h, omega arith)

  parse_chain-Parsed :
      (kw : Bytes) (node : Cond → Cond → Cond) (item : Parser Cond) (m : ℕ)
      → ((l r : Cond) → CondCovered K l → CondCovered K r → CondCovered K (node l r))
      → GivesBelow m item
      → GivesBelow m (parse_chain kw node item)
  unfolding parse_chain
  parse_chain-Parsed kw node item m covers ih toks h l =
      Gives-bind K (CondCovered K) (CondCovered K) (length toks) (length toks) _ _ (ih toks h l)
        λ left rest c h2 l2.
          Gives-weaken K (CondCovered K) (suc (length rest)) (length toks) _ (omega arith) (
            chain-Parsed kw node item m (length rest) left rest covers ih c h2 (omega arith)
              (omega arith))

  parse_or-Parsed : (f : ℕ) → GivesBelow (suc f) (parse_or f)
  unfolding parse_or parse_and
  parse_or-Parsed zero [] h l = h
  parse_or-Parsed zero (t ∷ toks) h l = omega arith
  parse_or-Parsed (suc f) toks h l =
      parse_chain-Parsed (codes "OR") or_cond _ (suc (suc f)) (λ a b c d. (c, d))
        (parse_chain-Parsed (codes "AND") and_cond _ (suc (suc f)) (λ a b c d. (c, d))
          λ toks' h' l'.
            parse_not-Parsed (parse_or f) toks' (λ t e s. parse_or-Parsed f t e (omega arith)) h')
        toks h l

-- `t` is one of the tokens.
abbrev pub Occurs : Token → List Token → Type 0
Occurs t toks = Any (λ u. u ≡ t) toks

-- What a node names stands in the expression: its names and placeholders are tokens of it, and
-- spelled as such.
abbrev pub ComesFrom : List Token → Cond → Type 0
ComesFrom toks c = CondCovered (λ t. IsSpelled t.kind t.val × Occurs t toks) c

Terminated-with :
    (A B : Token → Type 0) (toks : List Token)
    → ((t : Token) → Occurs t toks → B t)
    → Terminated A toks
    → Terminated (λ t. A t × B t) toks
Terminated-with A B [] b h = h
Terminated-with A B (t ∷ []) b h = h
Terminated-with A B (t ∷ u ∷ toks) b h =
    ((h.0, b t (inl refl)), Terminated-with A B (u ∷ toks) (λ s o. b s (inr o)) h.1)

filter_end-Returns :
    (K : Token → Type 0) (P : Cond → Type 0) (node : Cond) (toks : List Token)
    → P node
    → Terminated K toks
    → Returns P AnyError (filter_end node toks)
unfolding filter_end peek
filter_end-Returns K P node [] p h = h
filter_end-Returns K P node (t ∷ toks) p h =
    Returns-if P AnyError (kind_eq t.kind tok_eof) _ _ (λ _. p) (λ _. tt)

-- On every expression parseFilterExpr returns a node or an error: the parser ends and never reads
-- past the last token. The tokenizer has succeeded, and every name and placeholder of the node is
-- a token that it found.
pub parse_filter_expr-ComesFrom :
    (expr : Bytes)
    → Returns
        (λ c. (toks : List Token) × (tokenize_expr expr ≡ ok toks) × ComesFrom toks c)
        AnyError
        (parse_filter_expr expr)
unfolding parse_filter_expr
parse_filter_expr-ComesFrom expr =
    at_tokens (tokenize_expr expr) refl (tokenize_expr-IsTokenList expr)
  where
    at_tokens :
        (r : Eval (List Token))
        → tokenize_expr expr ≡ r
        → Returns IsTokenList AnyError r
        → Returns
            (λ c. (toks : List Token) × (tokenize_expr expr ≡ ok toks) × ComesFrom toks c)
            AnyError
            (do toks ← r; (node, rest) ← parse_or (length toks) toks; filter_end node rest)
    at_tokens (err e) q h = tt
    at_tokens panic q h = h
    at_tokens exhausted q h = h
    at_tokens (ok toks) q h =
        Returns-bind (Parsed K (CondCovered K) (length toks)) _ AnyError
          (parse_or (length toks) toks) (λ (node, rest). filter_end node rest)
          (parse_or-Parsed K (length toks) toks
            (Terminated-with Spelled (λ t. Occurs t toks) toks (λ t o. o) h) (omega arith))
          λ (node, rest) (c, e, l). filter_end-Returns K _ node rest (toks, q, c) e
      where
        Spelled : Token → Type 0
        Spelled t = IsSpelled t.kind t.val

        K : Token → Type 0
        K t = Spelled t × Occurs t toks
