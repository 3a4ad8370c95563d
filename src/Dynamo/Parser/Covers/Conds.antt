-- ===== src/Dynamo/Parser/Covers/Conds.antt =====
-- The methods of exprParser for condition nodes, internal/dynamodb/expression.go, and their tokens.
use kumolo.Prelude.{
  ℕ, zero, suc, ◌+◌, ◌≤◌, ◌≡◌, ◌≢◌, refl, Bool, Option, none, some, List, [], ◌∷◌, length, All,
  arith, ok, err, ◌>>=◌, ltb,
}
use kumolo.Prelude.Bytes.{Bytes, codes}
use kumolo.Dynamo.Token.{
  tok_lparen, tok_rparen, tok_comma, Kind, kind_eq, Token, tok_eof, expected_operator,
}
use kumolo.Dynamo.Lexer.Spelling.{Terminated}
use kumolo.Dynamo.Operand.{Operand}
use kumolo.Dynamo.Cond.{
  Cond, and_cond, or_cond, not_cond, cmp_cond, attr_exists, begins_with_cond, contains_cond,
  between_cond, in_cond,
}
use kumolo.Dynamo.Parser.Stream.{peek, consume, expect_kind, is_keyword_token, is_keyword}
use kumolo.Dynamo.Parser.Path.{parse_operand}
use kumolo.Dynamo.Parser.{
  parse_attr_exists_func, parse_two_arg_func, parse_left, between_high, parse_between, in_loop,
  parse_in, comparison_op, parse_cmp, comparison_rest, parse_comparison,
}
use kumolo.Dynamo.Parser.Covers.{
  kind_eq-ne-eof, keyword-ne-eof, consume-Parsed, expect_kind-Parsed, Gives-bind, Gives-if,
  Gives-weaken, OperandCovered, Gives, AnyToken,
}
use kumolo.Dynamo.Parser.Covers.Paths.{
  parse_attr_path-Parsed, parse_size_func-Parsed, parse_operand-Parsed,
}

-- One of the six comparison operators.
abbrev pub IsOp : Bytes → Type 0
IsOp op = (k : Kind) × (comparison_op k ≡ some op)

module _ (K : Token → Type 0) where
  abbrev pub CondCovered : Cond → Type 0
  CondCovered (and_cond l r) = CondCovered l × CondCovered r
  CondCovered (or_cond l r) = CondCovered l × CondCovered r
  CondCovered (not_cond c) = CondCovered c
  CondCovered (cmp_cond l op r) = OperandCovered K l × OperandCovered K r × IsOp op
  CondCovered (attr_exists o negate) = OperandCovered K o
  CondCovered (begins_with_cond p o) = OperandCovered K p × OperandCovered K o
  CondCovered (contains_cond p o) = OperandCovered K p × OperandCovered K o
  CondCovered (between_cond o lo hi) =
      OperandCovered K o × OperandCovered K lo × OperandCovered K hi
  CondCovered (in_cond o os) = OperandCovered K o × All (OperandCovered K) os

  pub closed :
      {A : Type 0} (D : A → Type 0) (n : ℕ) (a : A) (toks : List Token)
      → D a
      → Terminated K toks
      → length toks ≤ n
      → Gives K D n (do (_, rest) ← expect_kind tok_rparen toks; ok (a, rest))
  closed D n a toks d h l =
      Gives-bind K AnyToken D (length toks) n _ _ (expect_kind-Parsed K tok_rparen toks (λ e. cc) h)
        λ _ rest _ h' l'. (d, h', omega arith)

  pub parse_attr_exists_func-Parsed :
      (negate : Bool) (t : Token) (toks : List Token)
      → Terminated K toks
      → Gives K CondCovered (length toks) (parse_attr_exists_func negate (t ∷ toks))
  unfolding parse_attr_exists_func consume
  parse_attr_exists_func-Parsed negate t toks h =
      Gives-bind K AnyToken CondCovered (length toks) (length toks) _ _
        (expect_kind-Parsed K tok_lparen toks (λ e. cc) h)
        λ _ toks2 _ h2 l2.
          Gives-bind K (OperandCovered K) CondCovered (length toks2) (length toks) _ _
            (parse_attr_path-Parsed K toks2 h2)
            λ o toks3 c h3 l3.
              closed CondCovered (length toks) (attr_exists o negate) toks3 c h3 (omega arith)

  pub parse_two_arg_func-Parsed :
      (node : Operand → Operand → Cond)
      → ((p o : Operand) → OperandCovered K p → OperandCovered K o → CondCovered (node p o))
      → (t : Token) (toks : List Token) → Terminated K toks
      → Gives K CondCovered (length toks) (parse_two_arg_func node (t ∷ toks))
  unfolding parse_two_arg_func consume
  parse_two_arg_func-Parsed node covers t toks h =
      Gives-bind K AnyToken CondCovered (length toks) (length toks) _ _
        (expect_kind-Parsed K tok_lparen toks (λ e. cc) h)
        λ _ toks2 _ h2 l2.
          Gives-bind K (OperandCovered K) CondCovered (length toks2) (length toks) _ _
            (parse_attr_path-Parsed K toks2 h2)
            λ p toks3 c h3 l3.
              Gives-bind K AnyToken CondCovered (length toks3) (length toks) _ _
                (expect_kind-Parsed K tok_comma toks3 (λ e. cc) h3)
                λ _ toks4 _ h4 l4.
                  Gives-bind K (OperandCovered K) CondCovered (length toks4) (length toks) _ _
                    (parse_operand-Parsed K toks4 h4)
                    λ o toks5 d h5 l5.
                      closed CondCovered (length toks) (node p o) toks5 (covers p o c d) h5
                        (omega arith)

  parse_left-Parsed :
      (toks : List Token)
      → Terminated K toks
      → Gives K (OperandCovered K) (length toks) (parse_left toks)
  unfolding parse_left is_keyword peek
  parse_left-Parsed [] h = h
  parse_left-Parsed (t ∷ toks) h =
      Gives-if K (OperandCovered K) (suc (length toks)) (is_keyword_token (codes "SIZE") t) _ _
        (λ sized.
          Gives-weaken K (OperandCovered K) (length toks) (suc (length toks)) _ (omega arith) (
            parse_size_func-Parsed K t toks
              (consume-Parsed K t toks h (keyword-ne-eof (codes "SIZE") t sized)).1))
        λ _. parse_attr_path-Parsed K (t ∷ toks) h

  between_high-Parsed :
      (left lo : Operand) (toks : List Token)
      → OperandCovered K left
      → OperandCovered K lo
      → Terminated K toks
      → Gives K CondCovered (length toks) (between_high left lo toks)
  unfolding between_high peek consume
  between_high-Parsed left lo [] c d h = h
  between_high-Parsed left lo (t ∷ toks) c d h =
      Gives-if K CondCovered (suc (length toks)) (is_keyword_token (codes "AND") t) _ _
        (λ kw.
          Gives-bind K (OperandCovered K) CondCovered (length toks) (suc (length toks)) _ _
            (parse_operand-Parsed K toks
              (consume-Parsed K t toks h (keyword-ne-eof (codes "AND") t kw)).1)
            λ hi rest e h' l. ((c, d, e), h', omega arith))
        λ _. tt

  parse_between-Parsed :
      (left : Operand) (t : Token) (toks : List Token)
      → OperandCovered K left
      → Terminated K toks
      → Gives K CondCovered (length toks) (parse_between left (t ∷ toks))
  unfolding parse_between consume
  parse_between-Parsed left t toks c h =
      Gives-bind K (OperandCovered K) CondCovered (length toks) (length toks) _ _
        (parse_operand-Parsed K toks h)
        λ lo toks2 d h2 l2.
          Gives-weaken K CondCovered (length toks2) (length toks) _ (omega arith)
            (between_high-Parsed left lo toks2 c d h2)

  in_loop-Parsed :
      (f n : ℕ) (toks : List Token)
      → Terminated K toks
      → length toks ≤ f
      → Gives K (All (OperandCovered K)) (suc (length toks)) (in_loop f n toks)
  unfolding in_loop peek consume
  in_loop-Parsed f n [] h l = absurd h
  in_loop-Parsed zero n (t ∷ toks) h l = omega arith
  in_loop-Parsed (suc f) n (t ∷ toks) h l =
      Gives-if K (All (OperandCovered K)) (suc (suc (length toks))) (kind_eq t.kind tok_comma) _ _
        (λ comma.
          Gives-bind K (OperandCovered K) (All (OperandCovered K)) (length toks)
            (suc (suc (length toks))) _ _
            (parse_operand-Parsed K toks
              (consume-Parsed K t toks h (kind_eq-ne-eof t.kind tok_comma comma (λ e. cc))).1)
            λ o toks2 c h2 l2.
              Gives-if K (All (OperandCovered K)) (suc (suc (length toks))) (ltb 100 (n + 1)) _ _
                (λ _. tt)
                λ _.
                  Gives-bind K (All (OperandCovered K)) (All (OperandCovered K))
                    (suc (length toks2)) (suc (suc (length toks))) _ _
                    (in_loop-Parsed f (n + 1) toks2 h2 (omega arith))
                    λ os rest cs h3 l3. ((c, cs), h3, omega arith))
        λ _. (tt, h, omega arith)

  parse_in-Parsed :
      (left : Operand) (t : Token) (toks : List Token)
      → OperandCovered K left
      → Terminated K toks
      → Gives K CondCovered (length toks) (parse_in left (t ∷ toks))
  unfolding parse_in consume
  parse_in-Parsed left t toks c h =
      Gives-bind K AnyToken CondCovered (length toks) (length toks) _ _
        (expect_kind-Parsed K tok_lparen toks (λ e. cc) h)
        λ _ toks2 _ h2 l2.
          Gives-bind K (OperandCovered K) CondCovered (length toks2) (length toks) _ _
            (parse_operand-Parsed K toks2 h2)
            λ first toks3 d h3 l3.
              Gives-bind K (All (OperandCovered K)) CondCovered (suc (length toks3)) (length toks) _
                _ (in_loop-Parsed (length toks3) 1 toks3 h3 (omega arith))
                λ os toks4 ds h4 l4.
                  closed CondCovered (length toks) (in_cond left (first ∷ os)) toks4 (c, (d, ds)) h4
                    (omega arith)

  comparison_op-ne-eof : (k : Kind) (op : Bytes) → comparison_op k ≡ some op → k ≢ tok_eof
  unfolding comparison_op
  comparison_op-ne-eof k op h = ground arith

  cmp_behind :
      (left : Operand) (t : Token) (toks : List Token) (o : Option Bytes)
      → OperandCovered K left
      → Terminated K (t ∷ toks)
      → comparison_op t.kind ≡ o
      → Gives K CondCovered (suc (length toks)) (elim o [
        | none ↦ err (expected_operator t.val)
        | some op ↦ do
          (_, toks1) ← consume (t ∷ toks)
          (right, rest) ← parse_operand toks1
          ok (cmp_cond left op right, rest)
      ])
  unfolding consume
  cmp_behind left t toks none c h e = tt
  cmp_behind left t toks (some op) c h e =
      Gives-bind K (OperandCovered K) CondCovered (length toks) (suc (length toks)) _ _
        (parse_operand-Parsed K toks
          (consume-Parsed K t toks h (comparison_op-ne-eof t.kind op e)).1)
        λ right rest d h' l. ((c, d, (t.kind, e)), h', omega arith)

  parse_cmp-Parsed :
      (left : Operand) (toks : List Token)
      → OperandCovered K left
      → Terminated K toks
      → Gives K CondCovered (length toks) (parse_cmp left toks)
  unfolding parse_cmp peek
  parse_cmp-Parsed left [] c h = h
  parse_cmp-Parsed left (t ∷ toks) c h = cmp_behind left t toks (comparison_op t.kind) c h refl

  comparison_rest-Parsed :
      (left : Operand) (toks : List Token)
      → OperandCovered K left
      → Terminated K toks
      → Gives K CondCovered (length toks) (comparison_rest left toks)
  unfolding comparison_rest peek
  comparison_rest-Parsed left [] c h = h
  comparison_rest-Parsed left (t ∷ toks) c h =
      Gives-if K CondCovered (suc (length toks)) (is_keyword_token (codes "BETWEEN") t) _ _
        (λ kw. Gives-weaken K CondCovered (length toks) (suc (length toks)) _ (omega arith) (
          parse_between-Parsed left t toks c
            (consume-Parsed K t toks h (keyword-ne-eof (codes "BETWEEN") t kw)).1))
        λ _.
          Gives-if K CondCovered (suc (length toks)) (is_keyword_token (codes "IN") t) _ _
            (λ kw. Gives-weaken K CondCovered (length toks) (suc (length toks)) _ (omega arith) (
              parse_in-Parsed left t toks c
                (consume-Parsed K t toks h (keyword-ne-eof (codes "IN") t kw)).1))
            λ _. parse_cmp-Parsed left (t ∷ toks) c h

  pub parse_comparison-Parsed :
      (toks : List Token)
      → Terminated K toks
      → Gives K CondCovered (length toks) (parse_comparison toks)
  unfolding parse_comparison
  parse_comparison-Parsed toks h =
      Gives-bind K (OperandCovered K) CondCovered (length toks) (length toks) _ _
        (parse_left-Parsed toks h)
        λ left rest c h' l.
          Gives-weaken K CondCovered (length rest) (length toks) _ (omega arith)
            (comparison_rest-Parsed left rest c h')
