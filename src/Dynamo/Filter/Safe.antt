-- ===== src/Dynamo/Filter/Safe.antt =====
-- Evaluation of an expression behind parseFilterExpr and validateExprRefs.
use mathlib.Core.Path.{subst}
use kumolo.Prelude.{
  Returns-err, ◌⊎◌, ◌≡◌, refl, inl, inr, List, [], ◌∷◌, arith, ok, err, panic, exhausted, ◌>>=◌,
  ◌>>◌, Returns,
}
use kumolo.Prelude.Bytes.{Bytes}
use kumolo.Dynamo.Token.{ExprError, Token, kind_eq}
use kumolo.Dynamo.Lexer.{tokenize_expr}
use kumolo.Dynamo.Lexer.Spelling.{IsSpelled}
use kumolo.Dynamo.Lexer.Total.{AnyError}
use kumolo.Dynamo.Value.{Fields, Platform, Names}
use kumolo.Dynamo.Typed.{AllTyped}
use kumolo.Dynamo.Operand.{Eval}
use kumolo.Dynamo.Operand.Safe.{OnlySize, Anything, Sound, Known}
use kumolo.Dynamo.Cond.{Cond, eval}
use kumolo.Dynamo.Cond.Safe.{eval-Returns}
use kumolo.Dynamo.Parser.{parse_filter_expr}
use kumolo.Dynamo.Parser.Covers.Maps.{CondCovered-map}
use kumolo.Dynamo.Parser.Covers.Nodes.{Occurs, ComesFrom, parse_filter_expr-ComesFrom}
use kumolo.Dynamo.Refs.{check_token, check_tokens, validate_expr_refs}
use kumolo.Dynamo.Filter.{eval_filter_expr}

check_token-Known :
    (t : Token) (names : Names) (values : Fields)
    → check_token t names values ≡ ok tt
    → Known names t
unfolding check_token kind_eq
check_token-Known t names values h e = λ absent. ground arith

check_tokens-Known :
    (toks : List Token) (names : Names) (values : Fields)
    → check_tokens toks names values ≡ ok tt
    → (t : Token) → Occurs t toks
    → Known names t
unfolding check_tokens
check_tokens-Known [] names values h t o = absurd o
check_tokens-Known (u ∷ toks) names values h t (inl e) =
    subst (Known names) e (check_token-Known u names values (ground arith))
check_tokens-Known (u ∷ toks) names values h t (inr o) =
    check_tokens-Known toks names values (ground arith) t o

module _ (P : Platform) (names : Names) (item : Fields) (typed : AllTyped item)
    (values : Fields) where
  eval_checked-Returns :
      (expr : Bytes) (node : Cond) (toks : List Token)
      → tokenize_expr expr ≡ ok toks
      → ComesFrom toks node
      → validate_expr_refs expr names values ≡ ok tt
      → Returns Anything OnlySize (eval P node item names values)
  unfolding validate_expr_refs
  eval_checked-Returns expr node toks q c h = eval-Returns P names item typed values node (
      CondCovered-map (λ t. IsSpelled t.kind t.val × Occurs t toks) (Sound names)
        (λ t (s, o). (s, check_tokens-Known toks names values (rw q at h) t o)) node c)

  -- On an item of typed values, and behind a successful validateExprRefs, evalFilterExpr never
  -- panics; its errors are those of parseFilterExpr, and size() of a value that has no size. A
  -- placeholder that is missing is never met while the condition is evaluated.
  pub eval_filter_expr-Returns :
      (expr : Bytes)
      → validate_expr_refs expr names values ≡ ok tt
      → Returns Anything
          (λ e. OnlySize e ⊎ (parse_filter_expr expr ≡ err e))
          (eval_filter_expr P expr item names values)
  unfolding eval_filter_expr
  eval_filter_expr-Returns expr h =
      at_node (parse_filter_expr expr) refl (parse_filter_expr-ComesFrom expr)
    where
      Fails : ExprError → Type 0
      Fails e = OnlySize e ⊎ (parse_filter_expr expr ≡ err e)

      at_node :
          (r : Eval Cond)
          → parse_filter_expr expr ≡ r
          → Returns
              (λ c. (toks : List Token) × (tokenize_expr expr ≡ ok toks) × ComesFrom toks c)
              AnyError
              r
          → Returns Anything Fails
              (do node ← r; validate_expr_refs expr names values; eval P node item names values)
      at_node (err e) q c = inr q
      at_node panic q c = c
      at_node exhausted q c = c
      at_node (ok node) q (toks, p, c) = rw h (
          Returns-err Anything OnlySize Fails (eval P node item names values) (λ e s. inl s)
            (eval_checked-Returns expr node toks p c h))
