-- ===== src/Dynamo/Filter.antt =====
-- evalFilterExpr and applyFilterExpression of internal/dynamodb/expression.go.
pub mod Safe
pub mod Keeps
use kumolo.Prelude.{
  Bool, true, false, List, [], ◌∷◌, if◌then◌else◌, Result, ok, err, panic, exhausted, ◌>>=◌, ◌>>◌,
}
use kumolo.Prelude.Bytes.{Bytes}
use kumolo.Dynamo.Value.{Fields, Platform, Names}
use kumolo.Dynamo.Operand.{Eval}
use kumolo.Dynamo.Cond.{Cond, eval}
use kumolo.Dynamo.Parser.{parse_filter_expr}
use kumolo.Dynamo.Refs.{validate_expr_refs}

module _ (P : Platform) where
  unfoldable pub eval_filter_expr : Bytes → Fields → Names → Fields → Eval Bool
  eval_filter_expr expr item names values = do
    node ← parse_filter_expr expr
    validate_expr_refs expr names values
    eval P node item names values

  -- the loop over the items
  filter_items : Cond → List Fields → Names → Fields → Eval (List Fields)
  filter_items node [] names values = ok []
  filter_items node (item ∷ items) names values = do
    keep ← eval P node item names values
    rest ← filter_items node items names values
    ok (if keep then item ∷ rest else rest)

  filter_parsed : Bytes → List Fields → Names → Fields → Eval (List Fields)
  filter_parsed expr items names values = do
    node ← parse_filter_expr expr
    validate_expr_refs expr names values
    filter_items node items names values

  unfoldable pub apply_filter_expression : List Fields → Bytes → Names → Fields → Eval (List Fields)
  unfolding filter_parsed filter_items
  apply_filter_expression items [] names values = ok items
  apply_filter_expression items (c ∷ s) names values = filter_parsed (c ∷ s) items names values
