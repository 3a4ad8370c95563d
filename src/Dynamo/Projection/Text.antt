-- ===== src/Dynamo/Projection/Text.antt =====
-- Projections from their text: parseProjectionExpression, applyProjection and
-- applyProjectionToItems of internal/dynamodb/expression.go.
pub mod Paths
use kumolo.Prelude.{
  Bool, true, false, List, [], ◌∷◌, map, if◌then◌else◌, Result, ok, err, panic, exhausted, ◌>>=◌,
}
use kumolo.Prelude.Bytes.{Bytes}
use kumolo.Dynamo.Value.{Fields, Names}
use kumolo.Dynamo.Operand.{Eval, is_empty}
use kumolo.Dynamo.DocPath.{split, trim_space, parse_proj_path}
use kumolo.Dynamo.Projection.{ProjNode, empty_node, add_path, apply}

-- `for _, tok := range …`, with the tree that there is so far
proj_loop : Names → List Bytes → ProjNode → Eval ProjNode
proj_loop names [] root = ok root
proj_loop names (tok ∷ toks) root =
    if is_empty (trim_space tok)
    then proj_loop names toks root
    else do segs ← parse_proj_path (trim_space tok) names; proj_loop names toks (add_path segs root)

pub parse_projection_expression : Bytes → Names → Eval ProjNode
unfolding proj_loop
parse_projection_expression expr names = proj_loop names (split b',' expr) empty_node

unfoldable pub apply_projection : Fields → Bytes → Names → Eval Fields
unfolding parse_projection_expression
apply_projection item [] names = ok item
apply_projection item (c ∷ s) names = do
  root ← parse_projection_expression (c ∷ s) names
  ok (apply root item)

unfoldable pub apply_projection_to_items : List Fields → Bytes → Names → Eval (List Fields)
unfolding parse_projection_expression proj_loop split trim_space
apply_projection_to_items items [] names = ok items
apply_projection_to_items items (c ∷ s) names = do
  root ← parse_projection_expression (c ∷ s) names
  ok (map (apply root) items)
