-- ===== src/Examples/Paths.antt =====
-- Document paths and projections from their text, on concrete texts.
use kumolo.Prelude.{◌≡◌, ◌≤◌, refl, List, [], ◌∷◌, length, ok, Returns}
use kumolo.Prelude.Bytes.{codes, bytes_eq, has_prefix}
use kumolo.Dynamo.Value.{Fields, end, field, get, lookup}
use kumolo.Dynamo.Lexer.{is_expr_digit}
use kumolo.Dynamo.Parser.Path.{digits_value}
use kumolo.Dynamo.Lexer.Total.{AnyError}
use kumolo.Dynamo.Operand.{attr_step, index_step}
use kumolo.Dynamo.DocPath.{parse_proj_path, parse_update_path}
use kumolo.Dynamo.DocPath.Total.{HasStep, parse_update_path-HasStep}
use kumolo.Dynamo.Projection.{empty_node, add_path, apply}
use kumolo.Dynamo.Projection.Text.{
  parse_projection_expression, apply_projection, apply_projection_to_items,
}
use kumolo.Dynamo.Projection.Text.Paths.{Grown, parse_projection_expression-Grown}
use kumolo.Examples.Data.{number, row, names}

reads_path :
    parse_proj_path (codes "#a[12].b") names
    ≡ ok (attr_step (codes "a") ∷ index_step 12 ∷ attr_step (codes "b") ∷ [])
unfolding parse_proj_path has_prefix lookup bytes_eq is_expr_digit digits_value
reads_path = refl

parse_update_path-HasStep_example :
    Returns
      (λ segs. HasStep segs × (length segs ≤ 33))
      AnyError
      (parse_update_path (codes "#a[12].b") names)
parse_update_path-HasStep_example = parse_update_path-HasStep (codes "#a[12].b") names

parse_projection_expression-Grown_example :
    Returns (Grown empty_node) AnyError (parse_projection_expression (codes "#a, t") names)
parse_projection_expression-Grown_example = parse_projection_expression-Grown (codes "#a, t") names

abbrev rows : List Fields
rows = row (codes "1") ∷ row (codes "3") ∷ []

abbrev numbers : List Fields
numbers =
    field (codes "a") (number (codes "1")) end ∷ field (codes "a") (number (codes "3")) end ∷ []

projects_rows : apply_projection_to_items rows (codes "#a") names ≡ ok numbers
unfolding apply_projection_to_items parse_proj_path has_prefix lookup bytes_eq apply add_path get
projects_rows = refl

projects_row :
    apply_projection (row (codes "1")) (codes "#a") names
    ≡ ok (field (codes "a") (number (codes "1")) end)
unfolding apply_projection parse_proj_path has_prefix lookup bytes_eq apply add_path get
projects_row = refl
