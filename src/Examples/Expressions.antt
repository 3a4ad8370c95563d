-- ===== src/Examples/Expressions.antt =====
-- The tokenizer, the parser and the placeholder checks on concrete expressions.
use kumolo.Prelude.{◌≡◌, ◌↔◌, refl, List, [], ◌∷◌, ◌++◌, ok, Returns}
use kumolo.Prelude.Bytes.{codes}
use kumolo.Dynamo.Token.{Token, token, tok_ident, tok_name_ref, tok_val_ref, tok_gt, tok_gte}
use kumolo.Dynamo.Lexer.{is_word_byte, tokenize_expr, eof}
use kumolo.Dynamo.Lexer.Spelling.{IsTokenList}
use kumolo.Dynamo.Lexer.Total.{AnyError, tokenize_expr-IsTokenList}
use kumolo.Dynamo.Lexer.RoundTrip.{spell_all, tokenize_expr-spell_all}
use kumolo.Dynamo.Operand.{name_ref, val_ref}
use kumolo.Dynamo.Cond.{cmp_cond}
use kumolo.Dynamo.Parser.{parse_filter_expr}
use kumolo.Dynamo.Parser.Covers.Nodes.{ComesFrom, parse_filter_expr-ComesFrom}
use kumolo.Dynamo.Refs.{refs_in_expr, validate_unused_expr_refs}
use kumolo.Dynamo.Refs.Tokens.{refs_of, refs_in_expr-tokenize_expr}
use kumolo.Dynamo.Refs.Unused.{Accepted, validate_unused_expr_refs_iff}
use kumolo.Examples.Data.{names, values, expr}

abbrev tokens : List Token
tokens =
    token tok_name_ref (codes "#a") ∷ token tok_gt (codes ">") ∷ token tok_val_ref (codes ":n") ∷ []

tokenizes : tokenize_expr expr ≡ ok (tokens ++ eof ∷ [])
unfolding tokenize_expr
tokenizes = refl

-- `>` with `=` behind it is one token.
tokenizes_gte :
    tokenize_expr (codes "a>=b")
    ≡ ok (
        token tok_ident (codes "a")
        ∷ token tok_gte (codes ">=")
        ∷ token tok_ident (codes "b")
        ∷ eof
        ∷ [])
unfolding tokenize_expr
tokenizes_gte = refl

parses :
    parse_filter_expr expr
    ≡ ok (cmp_cond (name_ref (codes "#a")) (codes ">") (val_ref (codes ":n")))
unfolding parse_filter_expr
parses = refl

parse_filter_expr-ComesFrom_example :
    Returns
      (λ c. (toks : List Token) × (tokenize_expr expr ≡ ok toks) × ComesFrom toks c)
      AnyError
      (parse_filter_expr expr)
parse_filter_expr-ComesFrom_example = parse_filter_expr-ComesFrom expr

tokenize_expr-IsTokenList_example : Returns IsTokenList AnyError (tokenize_expr expr)
tokenize_expr-IsTokenList_example = tokenize_expr-IsTokenList expr

tokenize_expr-spell_all_example : tokenize_expr (spell_all tokens) ≡ ok (tokens ++ eof ∷ [])
unfolding is_word_byte
tokenize_expr-spell_all_example =
    tokenize_expr-spell_all tokens ((refl, (refl, tt)), (refl, ((refl, (refl, tt)), tt)))

refs_in_expr-tokenize_expr_example : refs_in_expr expr ≡ refs_of (tokens ++ eof ∷ [])
refs_in_expr-tokenize_expr_example = refs_in_expr-tokenize_expr expr (tokens ++ eof ∷ []) tokenizes

validate_unused_expr_refs_iff_example :
    (validate_unused_expr_refs names values (expr ∷ []) ≡ ok tt) ↔ Accepted names values (expr ∷ [])
validate_unused_expr_refs_iff_example = validate_unused_expr_refs_iff names values (expr ∷ [])
