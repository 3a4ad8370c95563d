-- ===== src/Dynamo/DocPath.antt =====
-- The document paths that are written in a projection or an update: parseProjPath of
-- internal/dynamodb/expression.go, resolveAttrName and parseUpdatePath of
-- internal/dynamodb/handler_helpers.go, and the functions of package strings that they call, on
-- ASCII text. The two parsers differ in their messages only, and in the depth that the second
-- limits; one set of errors stands for both.
pub mod Total
use kumolo.Prelude.{
  ℕ, zero, suc, Bool, true, false, not, ◌&&◌, ◌||◌, Option, none, some, List, [], ◌∷◌, ◌++◌, length,
  ltb, leb, ◌==◌, if◌then◌else◌, Result, ok, err, panic, exhausted, ◌>>=◌,
}
use kumolo.Prelude.Bytes.{Bytes, codes, has_prefix}
use kumolo.Dynamo.Token.{
  ExprError, name_missing, nesting_too_deep, invalid_path, attribute_expected, missing_bracket,
  unexpected_rest, bad_path_index,
}
use kumolo.Dynamo.Lexer.{is_expr_digit, take_while, drop_while}
use kumolo.Dynamo.Value.{Names, lookup}
use kumolo.Dynamo.Operand.{ProjSegment, attr_step, index_step, is_empty, Eval}
use kumolo.Dynamo.Parser.Path.{max_int, digits_value}

-- strings.Split by one byte
push_byte : ℕ → List Bytes → List Bytes
push_byte c [] = (c ∷ []) ∷ []
push_byte c (p ∷ ps) = (c ∷ p) ∷ ps

unfoldable pub split : ℕ → Bytes → List Bytes
unfolding push_byte
split sep [] = [] ∷ []
split sep (c ∷ s) = let rest = split sep s in if c == sep then [] ∷ rest else push_byte c rest

-- strings.TrimSpace
is_white : ℕ → Bool
is_white c = c == 32 || (leb 9 c && leb c 13)

trim_right : Bytes → Bytes
trim_right [] = []
trim_right (c ∷ s) = let rest = trim_right s in if is_white c && is_empty rest then [] else c ∷ rest

unfoldable pub trim_space : Bytes → Bytes
unfolding trim_right is_white drop_while
trim_space s = trim_right (drop_while is_white s)

pub resolve_attr_name : Bytes → Names → Eval Bytes
resolve_attr_name ref names =
    if has_prefix ref (codes "#")
    then elim (lookup ref names) [ none ↦ err (name_missing ref) | some actual ↦ ok actual ]
    else ok ref

-- strconv.Atoi, with its errors and the negative numbers left out: digits behind a sign or none.
all_digits : Bytes → Bool
all_digits [] = true
all_digits (c ∷ s) = is_expr_digit c && all_digits s

unsigned : Bytes → Option ℕ
unsigned s =
    if not (is_empty s) && all_digits s && leb (digits_value 0 s) max_int
    then some (digits_value 0 s)
    else none

minus : Option ℕ → Option ℕ
minus (some zero) = some zero
minus _ = none

read_index : Bytes → Option ℕ
read_index [] = none
read_index (c ∷ s) =
    if c == b'+' then unsigned s else if c == b'-' then minus (unsigned s) else unsigned (c ∷ s)

not_byte : ℕ → ℕ → Bool
not_byte b c = not (c == b)

-- The loop over `[n]` steps, at what is left of a part, on fuel; `token` is what a message quotes.
index_steps : ℕ → Bytes → Bytes → Eval (List ProjSegment)
index_steps f token [] = ok []
index_steps zero token (c ∷ s) = exhausted
index_steps (suc f) token (c ∷ s) =
    if c == b'['
    then elim (drop_while (not_byte b']') s) [
      | [] ↦ err (missing_bracket token)
      | b ∷ rest ↦ elim (read_index (take_while (not_byte b']') s)) [
        | none ↦ err (bad_path_index (take_while (not_byte b']') s) token)
        | some n ↦ do more ← index_steps f token rest; ok (index_step n ∷ more)
      ]
    ]
    else err (unexpected_rest token (c ∷ s))

-- One part between dots: an attribute name, and list indexes.
named_part : Bytes → Names → Bytes → Eval (List ProjSegment)
unfolding index_steps
named_part token names part =
    let name = take_while (not_byte b'[') part in
    let rest = drop_while (not_byte b'[') part in
    if is_empty name then err (attribute_expected token) else do
      actual ← resolve_attr_name name names
      more ← index_steps (length rest) token rest
      ok (attr_step actual ∷ more)

path_part : Bytes → Names → Bytes → Eval (List ProjSegment)
unfolding named_part
path_part token names part =
    if is_empty part then err (invalid_path token) else named_part token names part

path_parts : Bytes → Names → List Bytes → Eval (List ProjSegment)
unfolding path_part
path_parts token names [] = ok []
path_parts token names (part ∷ parts) = do
  segs ← path_part token names (trim_space part)
  more ← path_parts token names parts
  ok (segs ++ more)

unfoldable pub parse_proj_path : Bytes → Names → Eval (List ProjSegment)
unfolding path_parts path_part named_part index_steps split push_byte trim_space trim_right is_white
    resolve_attr_name not_byte read_index unsigned minus all_digits take_while drop_while
parse_proj_path token names = path_parts token names (split b'.' token)

pub parse_update_path : Bytes → Names → Eval (List ProjSegment)
parse_update_path token names = do
  segs ← parse_proj_path token names
  (if ltb 33 (length segs) then err nesting_too_deep else ok segs)
