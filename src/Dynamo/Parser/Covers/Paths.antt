-- ===== src/Dynamo/Parser/Covers/Paths.antt =====
-- parseAttrPath, parseSizeFunc and parseOperand of internal/dynamodb/expression.go: their operands
-- and the tokens.
use kumolo.Prelude.{
  suc, refl, inl, inr, List, [], ◌∷◌, length, All, arith, Bool-cases, ok, Returns, Returns-bind,
}
use kumolo.Prelude.Bytes.{Bytes, codes}
use kumolo.Dynamo.Token.{tok_dot, tok_list_idx, tok_lparen, tok_rparen, kind_eq, Token, tok_val_ref}
use kumolo.Dynamo.Lexer.Spelling.{Terminated}
use kumolo.Dynamo.Lexer.Total.{AnyError}
use kumolo.Dynamo.Operand.{ProjSegment}
use kumolo.Dynamo.Parser.Stream.{peek, consume, is_keyword_token, is_keyword, is_name}
use kumolo.Dynamo.Parser.Path.{
  path_loop, path_operand, parse_attr_path, parse_size_func, parse_operand,
}
use kumolo.Dynamo.Parser.Covers.{
  dot_not_last, is_name-ne-eof, kind_eq-ne-eof, keyword-ne-eof, consume-Parsed, expect_kind-Parsed,
  NameCovered-of_kind, kind_eq-val_ref, Gives-bind, Gives-if, Gives-weaken, NameCovered, SegCovered,
  OperandCovered, Parsed, Gives, AnyToken,
}

module _ (K : Token → Type 0) where
  pub path_loop-Parsed :
      (toks : List Token)
      → Terminated K toks
      → Returns (Parsed K (All (SegCovered K)) (suc (length toks))) AnyError (path_loop toks)
  unfolding path_loop
  path_loop-Parsed [] h = h
  path_loop-Parsed (t ∷ []) h = rw (dot_not_last t h) (tt, h, omega arith)
  path_loop-Parsed (t ∷ next ∷ toks) h = elim (Bool-cases (kind_eq t.kind tok_dot)) [
    | inl dot ↦ rw dot (elim (Bool-cases (is_name next.kind)) [
      | inl name ↦
          let (k, left) = consume-Parsed K next toks h.1 (is_name-ne-eof next.kind name) in
          rw name (
            Returns-bind (Parsed K (All (SegCovered K)) (suc (length toks))) _ AnyError _ _
              (path_loop-Parsed toks left)
              λ (segs, rest) (covered, ends, shorter). (
                (inr (NameCovered-of_kind K next.kind next.val k name), covered),
                ends,
                omega arith,
              ))
      | inr other ↦ rw other tt
    ])
    | inr no_dot ↦ rw no_dot (elim (Bool-cases (kind_eq t.kind tok_list_idx)) [
      | inl idx ↦ rw idx (
          Returns-bind (Parsed K (All (SegCovered K)) (suc (suc (length toks)))) _ AnyError _ _
            (path_loop-Parsed (next ∷ toks) h.1)
            λ (segs, rest) (covered, ends, shorter). ((inl refl, covered), ends, omega arith))
      | inr other ↦ rw other (tt, h, omega arith)
    ])
  ]

  pub path_operand-Covered :
      (first : Bytes) (segs : List ProjSegment)
      → NameCovered K first
      → All (SegCovered K) segs
      → Returns (OperandCovered K) AnyError (path_operand first segs)
  unfolding path_operand
  path_operand-Covered first [] h hs = ground arith
  path_operand-Covered first (seg ∷ segs) h hs = ground arith

  pub parse_attr_path-Parsed :
      (toks : List Token)
      → Terminated K toks
      → Gives K (OperandCovered K) (length toks) (parse_attr_path toks)
  unfolding parse_attr_path peek consume
  parse_attr_path-Parsed [] h = h
  parse_attr_path-Parsed (t ∷ toks) h =
      Gives-if K (OperandCovered K) (suc (length toks)) (is_name t.kind) _ _
        (λ name.
          let (k, left) = consume-Parsed K t toks h (is_name-ne-eof t.kind name) in
          Gives-bind K (All (SegCovered K)) (OperandCovered K) (suc (length toks))
            (suc (length toks)) _ _ (path_loop-Parsed toks left)
            λ segs rest covered ends shorter.
              Returns-bind (OperandCovered K) (Parsed K (OperandCovered K) (suc (length toks)))
                AnyError (path_operand t.val segs) (λ o. ok (o, rest))
                (path_operand-Covered t.val segs (NameCovered-of_kind K t.kind t.val k name)
                  covered)
                λ o c. (c, ends, shorter))
        λ _. tt

  pub parse_size_func-Parsed :
      (t : Token) (toks : List Token)
      → Terminated K toks
      → Gives K (OperandCovered K) (length toks) (parse_size_func (t ∷ toks))
  unfolding parse_size_func consume
  parse_size_func-Parsed t toks h =
      Gives-bind K AnyToken (OperandCovered K) (length toks) (length toks) _ _
        (expect_kind-Parsed K tok_lparen toks (λ e. cc) h)
        λ _ toks2 _ h2 l2.
          Gives-bind K (OperandCovered K) (OperandCovered K) (length toks2) (length toks) _ _
            (parse_attr_path-Parsed toks2 h2)
            λ o toks3 c h3 l3.
              Gives-bind K AnyToken (OperandCovered K) (length toks3) (length toks) _ _
                (expect_kind-Parsed K tok_rparen toks3 (λ e. cc) h3)
                λ _ rest _ h4 l4. (c, h4, omega arith)

  pub parse_operand-Parsed :
      (toks : List Token)
      → Terminated K toks
      → Gives K (OperandCovered K) (length toks) (parse_operand toks)
  unfolding parse_operand is_keyword peek consume
  parse_operand-Parsed [] h = h
  parse_operand-Parsed (t ∷ toks) h =
      Gives-if K (OperandCovered K) (suc (length toks)) (is_keyword_token (codes "SIZE") t) _ _
        (λ sized.
          Gives-weaken K (OperandCovered K) (length toks) (suc (length toks)) _ (omega arith) (
            parse_size_func-Parsed t toks
              (consume-Parsed K t toks h (keyword-ne-eof (codes "SIZE") t sized)).1))
        λ _.
          Gives-if K (OperandCovered K) (suc (length toks)) (kind_eq t.kind tok_val_ref) _ _
            (λ e.
              let (k, left) =
                consume-Parsed K t toks h (kind_eq-ne-eof t.kind tok_val_ref e (λ e'. cc)) in
              (kind_eq-val_ref K t e k, left, omega arith))
            λ _.
              Gives-if K (OperandCovered K) (suc (length toks)) (is_name t.kind) _ _
                (λ _. parse_attr_path-Parsed (t ∷ toks) h) λ _. tt
