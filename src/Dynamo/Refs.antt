-- ===== src/Dynamo/Refs.antt =====
-- validateExprRefs, refsInExpr and validateUnusedExprRefs of internal/dynamodb/expression.go.
pub mod Scan
pub mod Tokens
pub mod Unused
use kumolo.Prelude.{
  ℕ, zero, suc, ◌≡◌, refl, Bool, true, false, ◌&&◌, ◌||◌, Option, none, some, List, [], ◌∷◌, ◌++◌,
  length, ◌==◌, if◌then◌else◌, Result, ok, err, panic, exhausted, ◌>>=◌, ◌>>◌,
}
use kumolo.Prelude.Bytes.{Bytes, codes, bytes_eq}
use kumolo.Dynamo.Token.{
  Kind, kind_eq, Token, tok_name_ref, tok_val_ref, ExprError, name_missing, value_missing,
  names_without_expr, values_without_expr, name_unused, value_unused,
}
use kumolo.Dynamo.Lexer.{is_word_byte, take_while, drop_while, tokenize_expr}
use kumolo.Dynamo.Value.{Fields, end, field, get, Names, lookup}
use kumolo.Dynamo.Operand.{Eval}

-- The `switch` on one token of validateExprRefs.
unfoldable pub check_token : Token → Names → Fields → Eval (Unit {0})
check_token t names values =
    if kind_eq t.kind tok_val_ref
    then elim (get t.val values) [ none ↦ err (value_missing t.val) | some v ↦ ok tt ]
    else if kind_eq t.kind tok_name_ref
    then elim (lookup t.val names) [ none ↦ err (name_missing t.val) | some a ↦ ok tt ]
    else ok tt

unfoldable pub check_tokens : List Token → Names → Fields → Eval (Unit {0})
check_tokens [] names values = ok tt
check_tokens (t ∷ toks) names values = do check_token t names values; check_tokens toks names values

-- `toks, _ := tokenizeExpr(expr)`: beside an error the tokens are nil
abbrev pub tokens_or_nil : Eval (List Token) → List Token
tokens_or_nil (ok toks) = toks
tokens_or_nil _ = []

unfoldable pub validate_expr_refs : Bytes → Names → Fields → Eval (Unit {0})
unfolding check_tokens check_token
validate_expr_refs expr names values =
    check_tokens (tokens_or_nil (tokenize_expr expr)) names values

-- The name and the value placeholders that refsInExpr has found.
pub record Refs : Type 0 where
  pub name_refs : List Bytes
  pub val_refs : List Bytes

abbrev pub no_refs : Refs
no_refs = record { name_refs = []; val_refs = [] }

abbrev pub add_name : Bytes → Refs → Refs
add_name w r = record r { name_refs = w ∷ r.name_refs }

abbrev pub add_val : Bytes → Refs → Refs
add_val w r = record r { val_refs = w ∷ r.val_refs }

-- the cases '#' and ':', with the word behind the mark
pub found_name : ℕ → Bytes → Refs → Refs
found_name c [] r = r
found_name c (d ∷ w) r = add_name (c ∷ d ∷ w) r

pub found_val : ℕ → Bytes → Refs → Refs
found_val c [] r = r
found_val c (d ∷ w) r = add_val (c ∷ d ∷ w) r

-- The loop of refsInExpr, on fuel.
scan_refs : ℕ → Bytes → Refs
scan_refs f [] = no_refs
scan_refs zero (c ∷ s) = no_refs
scan_refs (suc f) (c ∷ s) =
    let behind = scan_refs f (drop_while is_word_byte s) in
    let next = scan_refs f s in
    if c == b'#'
    then found_name c (take_while is_word_byte s) behind
    else if c == b':'
    then found_val c (take_while is_word_byte s) behind
    else next

unfoldable pub refs_in_expr : Bytes → Refs
unfolding scan_refs found_name found_val
refs_in_expr s = scan_refs (length s) s

-- `for _, expr := range exprs`
all_refs : List Bytes → Refs
all_refs [] = no_refs
all_refs (e ∷ es) =
    let r = refs_in_expr e in
    let rest = all_refs es in
    record { name_refs = r.name_refs ++ rest.name_refs; val_refs = r.val_refs ++ rest.val_refs }

-- The key is in the set.
is_used : Bytes → List Bytes → Bool
is_used k [] = false
is_used k (w ∷ ws) = bytes_eq w k || is_used k ws

-- Go visits a map in no fixed order: which of several unused keys is reported is left open there,
-- and is the first entry here.
check_names_used : Names → List Bytes → Eval (Unit {0})
check_names_used [] used = ok tt
check_names_used ((k, v) ∷ names) used =
    let rest = check_names_used names used in if is_used k used then rest else err (name_unused k)

check_values_used : Fields → List Bytes → Eval (Unit {0})
check_values_used end used = ok tt
check_values_used (field k v values) used =
    let rest = check_values_used values used in
    if is_used k used then rest else err (value_unused k)

-- some expression is not empty
unfoldable pub has_expr : List Bytes → Bool
has_expr [] = false
has_expr ([] ∷ es) = has_expr es
has_expr ((c ∷ s) ∷ es) = true

without_expr : Names → Fields → Eval (Unit {0})
without_expr (k ∷ names) values = err names_without_expr
without_expr [] (field k v values) = err values_without_expr
without_expr [] end = ok tt

unfoldable pub validate_unused_expr_refs : Names → Fields → List Bytes → Eval (Unit {0})
unfolding all_refs refs_in_expr is_used check_names_used check_values_used without_expr
validate_unused_expr_refs names values exprs =
    let used = all_refs exprs in
    if has_expr exprs
    then (do check_names_used names used.name_refs; check_values_used values used.val_refs)
    else without_expr names values
