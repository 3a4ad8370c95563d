-- ===== src/Dynamo/Lexer/Spelling.antt =====
-- Which bytes each kind of token of internal/dynamodb/expression.go may carry.
use kumolo.Prelude.{ℕ, ◌≡◌, true, List, [], ◌∷◌, All}
use kumolo.Prelude.Bytes.{Bytes, codes}
use kumolo.Dynamo.Token.{
  Kind, Token, tok_eof, tok_ident, tok_name_ref, tok_val_ref, tok_lparen, tok_rparen, tok_comma,
  tok_eq, tok_neq, tok_lt, tok_lte, tok_gt, tok_gte, tok_dot, tok_list_idx,
}
use kumolo.Dynamo.Lexer.{is_expr_letter, is_expr_digit, is_word_byte, eof}

abbrev pub IsWord : Bytes → Type 0
IsWord w = All (λ c. is_word_byte c ≡ true) w

abbrev pub IsDigits : Bytes → Type 0
IsDigits w = All (λ c. is_expr_digit c ≡ true) w

-- A placeholder: its mark, and at least one byte of a name.
abbrev pub IsRef : ℕ → Bytes → Type 0
IsRef mark [] = ⊥
IsRef mark (c ∷ []) = ⊥
IsRef mark (c ∷ d ∷ w) = (c ≡ mark) × IsWord (d ∷ w)

abbrev pub IsName : Bytes → Type 0
IsName [] = ⊥
IsName (c ∷ w) = (is_expr_letter c ≡ true) × IsWord w

abbrev pub IsIndex : Bytes → Type 0
IsIndex [] = ⊥
IsIndex (c ∷ w) = IsDigits (c ∷ w)

abbrev pub IsSpelled : Kind → Bytes → Type 0
IsSpelled tok_eof v = ⊥
IsSpelled tok_ident v = IsName v
IsSpelled tok_name_ref v = IsRef b'#' v
IsSpelled tok_val_ref v = IsRef b':' v
IsSpelled tok_lparen v = v ≡ codes "("
IsSpelled tok_rparen v = v ≡ codes ")"
IsSpelled tok_comma v = v ≡ codes ","
IsSpelled tok_eq v = v ≡ codes "="
IsSpelled tok_neq v = v ≡ codes "<>"
IsSpelled tok_lt v = v ≡ codes "<"
IsSpelled tok_lte v = v ≡ codes "<="
IsSpelled tok_gt v = v ≡ codes ">"
IsSpelled tok_gte v = v ≡ codes ">="
IsSpelled tok_dot v = v ≡ codes "."
IsSpelled tok_list_idx v = IsIndex v

-- Tokens of which `K` holds, and then one tokEOF.
abbrev pub Terminated : (Token → Type 0) → List Token → Type 0
Terminated K [] = ⊥
Terminated K (t ∷ []) = t ≡ eof
Terminated K (t ∷ u ∷ toks) = K t × Terminated K (u ∷ toks)

-- Tokens that are spelled right, and then one tokEOF.
abbrev pub IsTokenList : List Token → Type 0
IsTokenList toks = Terminated (λ t. IsSpelled t.kind t.val) toks
