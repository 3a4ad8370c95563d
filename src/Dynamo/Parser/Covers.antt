-- ===== src/Dynamo/Parser/Covers.antt =====
-- The parser of internal/dynamodb/expression.go beside its tokens: the parts of a parser, on tokens of
-- which `K` holds and that end in tokEOF.
pub mod Paths
pub mod Conds
pub mod Nodes
pub mod Maps
use mathlib.Core.Path.{subst}
use kumolo.Prelude.{
  ℕ, zero, suc, ◌≤◌, ◌<◌, ◌≡◌, ◌≢◌, refl, sym, ◌∙◌, ◌⊎◌, inl, inr, Bool, true, false, ◌||◌, Option,
  none, some, List, [], ◌∷◌, length, All, if◌then◌else◌, arith, Bool-cases, Result, ok, err, panic,
  exhausted, ◌>>=◌, Returns, Returns-bind, Returns-if,
}
use kumolo.Prelude.Bytes.{Bytes, codes, has_prefix}
use kumolo.Dynamo.Token.{
  tok_dot, tok_list_idx, tok_lparen, tok_rparen, Kind, kind_eq, kind_eq→≡, Token, token, ExprError,
  tok_eof, tok_ident, tok_name_ref, tok_val_ref,
}
use kumolo.Dynamo.Lexer.{eof}
use kumolo.Dynamo.Lexer.Spelling.{Terminated}
use kumolo.Dynamo.Lexer.Total.{AnyError}
use kumolo.Dynamo.Operand.{ProjSegment, Operand, name_ref, val_ref, plain, size, path, Eval}
use kumolo.Dynamo.Parser.Stream.{
  Parser, peek, consume, expect_kind, is_keyword_token, is_keyword, is_name,
}
use kumolo.Dynamo.Parser.Path.{
  path_loop, path_operand, parse_attr_path, parse_size_func, parse_operand,
}

pub dot_not_last :
    (t : Token) → t ≡ eof → (kind_eq t.kind tok_dot || kind_eq t.kind tok_list_idx) ≡ false
unfolding kind_eq
dot_not_last t h = rw h

pub is_name-ne-eof : (k : Kind) → is_name k ≡ true → k ≢ tok_eof
unfolding is_name kind_eq
is_name-ne-eof k h = ground arith

pub kind_eq-ne-eof : (k j : Kind) → kind_eq k j ≡ true → j ≢ tok_eof → k ≢ tok_eof
kind_eq-ne-eof k j h ne e = ne (sym (kind_eq→≡ k j h) ∙ e)

pub keyword-ne-eof : (kw : Bytes) (t : Token) → is_keyword_token kw t ≡ true → t.kind ≢ tok_eof
unfolding is_keyword_token kind_eq
keyword-ne-eof kw t h e = ground arith

abbrev pub AnyToken : Token → Type 0
AnyToken t = Unit

module _ (K : Token → Type 0) where
  -- A path's first segment, or an attribute step of it.
  abbrev pub NameCovered : Bytes → Type 0
  NameCovered a = K (token tok_name_ref a) ⊎ K (token tok_ident a)

  abbrev pub SegCovered : ProjSegment → Type 0
  SegCovered seg = (seg.attr ≡ []) ⊎ NameCovered seg.attr

  abbrev pub OperandCovered : Operand → Type 0
  OperandCovered (name_ref a) = NameCovered a × (has_prefix a (codes "#") ≡ true)
  OperandCovered (val_ref a) = K (token tok_val_ref a)
  OperandCovered (plain a) = NameCovered a
  OperandCovered (size o) = OperandCovered o
  OperandCovered (path []) = ⊥
  OperandCovered (path (seg ∷ segs)) = SegCovered seg × All SegCovered segs

  -- What a parser leaves: a value that is covered, and fewer tokens, which still end in tokEOF.
  abbrev pub Parsed : {A : Type 0} → (A → Type 0) → ℕ → A × List Token → Type 0
  Parsed C n (a, rest) = C a × Terminated K rest × (length rest < n)

  pub peek-Returns :
      (toks : List Token) → Terminated K toks → Returns (λ t. Unit {0}) AnyError (peek toks)
  unfolding peek
  peek-Returns [] h = h
  peek-Returns (t ∷ toks) h = tt

  -- A token that is no tokEOF is one of those before it.
  pub consume-Parsed :
      (t : Token) (toks : List Token)
      → Terminated K (t ∷ toks)
      → t.kind ≢ tok_eof
      → K t × Terminated K toks
  consume-Parsed t [] h ne = absurd (ne (rw h))
  consume-Parsed t (u ∷ toks) h ne = h

  pub expect_kind-Parsed :
      (k : Kind) (toks : List Token)
      → k ≢ tok_eof
      → Terminated K toks
      → Returns (Parsed (λ t. Unit {0}) (length toks)) AnyError (expect_kind k toks)
  unfolding expect_kind consume
  expect_kind-Parsed k [] ne h = h
  expect_kind-Parsed k (t ∷ toks) ne h = ground (arith, consume-Parsed t toks h, kind_eq→≡ t.kind k)

  pub NameCovered-of_kind :
      (k : Kind) (v : Bytes) → K (token k v) → is_name k ≡ true → NameCovered v
  unfolding is_name kind_eq
  NameCovered-of_kind tok_name_ref v h n = inl h
  NameCovered-of_kind tok_ident v h n = inr h
  NameCovered-of_kind _ v h n = cc

  pub kind_eq-val_ref :
      (t : Token) → kind_eq t.kind tok_val_ref ≡ true → K t → K (token tok_val_ref t.val)
  kind_eq-val_ref t e k = subst (λ j. K (token j t.val)) (kind_eq→≡ t.kind tok_val_ref e) k

  -- A parser's result that returns, or is one of the errors.
  abbrev pub Gives : {A : Type 0} → (A → Type 0) → ℕ → Eval (A × List Token) → Type 0
  Gives C n r = Returns (Parsed C n) AnyError r

  pub Gives-bind :
      {A B : Type 0} (C : A → Type 0) (D : B → Type 0) (m n : ℕ) (r : Eval (A × List Token))
      (f : A × List Token → Eval (B × List Token))
      → Gives C m r
      → ((a : A) (rest : List Token)
          → C a
          → Terminated K rest
          → length rest < m
          → Gives D n (f (a, rest)))
      → Gives D n (r >>= f)
  Gives-bind C D m n r f h k =
      Returns-bind (Parsed C m) (Parsed D n) AnyError r f h λ (a, rest) (c, e, l). k a rest c e l

  pub Gives-if :
      {A : Type 0} (C : A → Type 0) (n : ℕ) (b : Bool) (x y : Eval (A × List Token))
      → (b ≡ true → Gives C n x)
      → (b ≡ false → Gives C n y)
      → Gives C n (if b then x else y)
  Gives-if C n b x y = Returns-if (Parsed C n) AnyError b x y

  pub Gives-weaken :
      {A : Type 0} (C : A → Type 0) (m n : ℕ) (r : Eval (A × List Token))
      → m ≤ n
      → Gives C m r
      → Gives C n r
  Gives-weaken C m n (ok (a, rest)) l (c, e, s) = (c, e, omega arith)
  Gives-weaken C m n (err e) l h = tt
  Gives-weaken C m n panic l h = h
  Gives-weaken C m n exhausted l h = h
