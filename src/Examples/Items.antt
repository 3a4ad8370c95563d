-- ===== src/Examples/Items.antt =====
-- Conditions, filters and comparisons on concrete items.
use kumolo.Dynamo.Parser.Path.{atoi}
use kumolo.Prelude.{
  ℕ, ltb, arith, ◌≡◌, ◌⊎◌, ◌↔◌, refl, inl, true, false, List, [], ◌∷◌, All, filter, ok, err,
  Returns,
}
use kumolo.Prelude.Bytes.{less, codes, bytes_eq}
use kumolo.Dynamo.Value.{str, obj, Fields, end, field, get, get_str, index, lookup}
use kumolo.Dynamo.Token.{kind_eq}
use kumolo.Dynamo.Lexer.{tokenize_expr}
use kumolo.Dynamo.Operand.{name_ref, val_ref, plain, resolve}
use kumolo.Dynamo.Operand.Safe.{OnlySize, Anything}
use kumolo.Dynamo.Compare.{dynamo_value_cmp}
use kumolo.Dynamo.Compare.Less.{Precedes, dynamo_value_cmp-less_iff}
use kumolo.Dynamo.Compare.Laws.{flipped, dynamo_value_cmp-flip}
use kumolo.Dynamo.Cond.{
  Cond, cmp_cond, between_cond, in_cond, and_cond, or_cond, not_cond, eval, resolve_all,
}
use kumolo.Dynamo.Compare.{op_between, matches_sort_key}
use kumolo.Dynamo.Cond.SortKey.{as_condition, eval-matches_sort_key}
use kumolo.Dynamo.Cond.Laws.{eval-de_morgan, eval-between, eval-in}
use kumolo.Dynamo.Parser.{parse_filter_expr}
use kumolo.Dynamo.Refs.{validate_expr_refs, check_tokens, check_token}
use kumolo.Dynamo.Filter.{eval_filter_expr, apply_filter_expression}
use kumolo.Dynamo.Filter.Safe.{eval_filter_expr-Returns}
use kumolo.Dynamo.Filter.Keeps.{answer_for, Answered, apply_filter_expression_iff}
use kumolo.Examples.Data.{sample, number, row, names, values, expr}

abbrev node : Cond
node = cmp_cond (name_ref (codes "#a")) (codes ">") (val_ref (codes ":n"))

parses : parse_filter_expr expr ≡ ok node
unfolding parse_filter_expr
parses = refl

validates : validate_expr_refs expr names values ≡ ok tt
unfolding validate_expr_refs check_tokens check_token tokenize_expr kind_eq lookup bytes_eq get
validates = refl

abbrev rows : List Fields
rows = row (codes "1") ∷ row (codes "3") ∷ []

eval_filter_expr-Returns_example :
    Returns Anything
      (λ e. OnlySize e ⊎ (parse_filter_expr expr ≡ err e))
      (eval_filter_expr sample expr (row (codes "3")) names values)
unfolding bytes_eq
eval_filter_expr-Returns_example =
    eval_filter_expr-Returns sample names (row (codes "3")) ((tt, tt, tt), ((tt, tt, tt), tt))
      values expr validates

apply_filter_expression_iff_example :
    (apply_filter_expression sample rows expr names values ≡ ok (row (codes "3") ∷ [])) ↔ (
      All (Answered sample names values node) rows
      × (row (codes "3") ∷ [] ≡ filter (answer_for sample names values node) rows))
apply_filter_expression_iff_example =
    apply_filter_expression_iff sample rows (row (codes "3") ∷ []) b'#' (codes "a > :n") names
      values node parses validates

-- The row whose number is greater is kept, and the other is not.
filters : apply_filter_expression sample rows expr names values ≡ ok (row (codes "3") ∷ [])
unfolding eval bytes_eq dynamo_value_cmp index get_str atoi
filters =
    (apply_filter_expression_iff sample rows (row (codes "3") ∷ []) b'#' (codes "a > :n") names
        values node parses validates).1
      ((refl, (refl, tt)), refl)

eval-de_morgan_example :
    (eval sample (not_cond (and_cond node node)) (row (codes "1")) names values
      ≡ eval sample (or_cond (not_cond node) (not_cond node)) (row (codes "1")) names values)
    × (eval sample (not_cond (or_cond node node)) (row (codes "1")) names values
        ≡ eval sample (and_cond (not_cond node) (not_cond node)) (row (codes "1")) names values)
eval-de_morgan_example = eval-de_morgan sample (row (codes "1")) names values node node

low : resolve sample (val_ref (codes ":n")) (row (codes "3")) names values ≡ ok (number (codes "2"))
unfolding resolve get index bytes_eq
low = refl

eval-between_example :
    eval sample
      (between_cond (name_ref (codes "#a")) (val_ref (codes ":n")) (val_ref (codes ":n")))
      (row (codes "3"))
      names
      values
    ≡ eval sample
        (and_cond
          (cmp_cond (name_ref (codes "#a")) (codes ">=") (val_ref (codes ":n")))
          (cmp_cond (name_ref (codes "#a")) (codes "<=") (val_ref (codes ":n"))))
        (row (codes "3"))
        names
        values
eval-between_example =
    eval-between sample (row (codes "3")) names values (name_ref (codes "#a"))
      (val_ref (codes ":n")) (val_ref (codes ":n")) (number (codes "2")) low

resolve-row :
    resolve sample (name_ref (codes "#a")) (row (codes "3")) names values ≡ ok (number (codes "3"))
unfolding resolve get bytes_eq index
resolve-row = refl

eval-matches_sort_key_example :
    eval sample
      (as_condition op_between
        (name_ref (codes "#a"))
        (val_ref (codes ":n"))
        (val_ref (codes ":n")))
      (row (codes "3"))
      names
      values
    ≡ ok (
        matches_sort_key sample (number (codes "3")) (record {
          name = codes "a";
          operator = op_between;
          value = number (codes "2");
          value2 = number (codes "2");
        }))
eval-matches_sort_key_example =
    eval-matches_sort_key sample (row (codes "3")) names values op_between (name_ref (codes "#a"))
      (val_ref (codes ":n")) (val_ref (codes ":n")) (number (codes "3")) (number (codes "2"))
      (number (codes "2")) (codes "a") tt resolve-row low low

all_resolve :
    resolve_all sample (val_ref (codes ":n") ∷ []) (row (codes "3")) names values
    ≡ ok (number (codes "2") ∷ [])
unfolding resolve_all resolve get index bytes_eq
all_resolve = refl

eval-in_example :
    eval sample
      (in_cond (plain (codes "a")) (plain (codes "t") ∷ val_ref (codes ":n") ∷ []))
      (row (codes "3"))
      names
      values
    ≡ eval sample
        (or_cond
          (cmp_cond (plain (codes "a")) (codes "=") (plain (codes "t")))
          (in_cond (plain (codes "a")) (val_ref (codes ":n") ∷ [])))
        (row (codes "3"))
        names
        values
eval-in_example =
    eval-in sample (row (codes "3")) names values (plain (codes "a")) (plain (codes "t"))
      (val_ref (codes ":n") ∷ []) (number (codes "2") ∷ []) all_resolve

-- {"S": "x"}, {"S": "y"} and {"S": "z"}
abbrev x_map : Fields
x_map = field (codes "S") (str (codes "x")) end

abbrev y_map : Fields
y_map = field (codes "S") (str (codes "y")) end

abbrev z_map : Fields
z_map = field (codes "S") (str (codes "z")) end

ltb-asymmetric : (x y : ℕ) → ltb x y ≡ true → ltb y x ≡ false
ltb-asymmetric x y h = ground arith

dynamo_value_cmp-flip_example :
    dynamo_value_cmp sample (obj y_map) (obj x_map)
    ≡ flipped (dynamo_value_cmp sample (obj x_map) (obj y_map))
unfolding get get_str bytes_eq
dynamo_value_cmp-flip_example =
    dynamo_value_cmp-flip sample ltb-asymmetric x_map y_map
      (inl ((codes "x", refl), (codes "y", refl)))

dynamo_value_cmp-less_iff_example :
    (dynamo_value_cmp sample (obj x_map) (obj y_map) ≡ ok less) ↔ Precedes (codes "x") (codes "y")
unfolding get get_str bytes_eq
dynamo_value_cmp-less_iff_example =
    dynamo_value_cmp-less_iff sample x_map y_map (inl ((codes "x", refl), (codes "y", refl)))
