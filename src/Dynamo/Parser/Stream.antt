-- ===== src/Dynamo/Parser/Stream.antt =====
-- peek, consume, expectKind and isKeyword of exprParser, internal/dynamodb/expression.go, over the
-- tokens that are left. `p.toks[p.pos]` past the end is a panic.
use kumolo.Prelude.{Bool, ◌&&◌, ◌||◌, List, [], ◌∷◌, if◌then◌else◌, ok, err, panic, ◌>>=◌}
use kumolo.Prelude.Bytes.{Bytes, bytes_eq, to_upper}
use kumolo.Dynamo.Token.{Kind, kind_eq, Token, tok_ident, tok_name_ref, expected_kind}
use kumolo.Dynamo.Operand.{Eval}

-- A parser's method: the tokens that are left before and after it.
abbrev pub Parser : Type 0 → Type 0
Parser A = List Token → Eval (A × List Token)

unfoldable pub peek : List Token → Eval Token
peek [] = panic
peek (t ∷ toks) = ok t

unfoldable pub consume : Parser Token
consume [] = panic
consume (t ∷ toks) = ok (t, toks)

unfoldable pub expect_kind : Kind → Parser Token
expect_kind k toks = do
  (t, rest) ← consume toks
  if kind_eq t.kind k then ok (t, rest) else err (expected_kind k t.val)

unfoldable pub is_keyword_token : Bytes → Token → Bool
is_keyword_token kw t = kind_eq t.kind tok_ident && bytes_eq (to_upper t.val) kw

unfoldable pub is_keyword : Bytes → List Token → Eval Bool
is_keyword kw toks = do t ← peek toks; ok (is_keyword_token kw t)

unfoldable pub is_name : Kind → Bool
is_name k = kind_eq k tok_name_ref || kind_eq k tok_ident
