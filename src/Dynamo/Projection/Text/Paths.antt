-- ===== src/Dynamo/Projection/Text/Paths.antt =====
-- The text of a projection, its paths and their tree: internal/dynamodb/expression.go.
use kumolo.Prelude.{
  ◌≡◌, refl, inl, inr, Bool-cases, List, [], ◌∷◌, All, Result, ok, err, panic, exhausted, Returns,
  Returns-bind,
}
use kumolo.Prelude.Bytes.{Bytes}
use kumolo.Dynamo.Token.{ExprError}
use kumolo.Dynamo.Lexer.Total.{AnyError}
use kumolo.Dynamo.Value.{Names}
use kumolo.Dynamo.Operand.{ProjSegment, is_empty}
use kumolo.Dynamo.DocPath.{split, trim_space}
use kumolo.Dynamo.DocPath.Total.{HasStep, parse_proj_path-HasStep}
use kumolo.Dynamo.Projection.{ProjNode, empty_node, add_path, add_paths}
use kumolo.Dynamo.Projection.Text.{proj_loop, parse_projection_expression}

-- The tree `n` with paths of at least one step added.
abbrev pub Grown : ProjNode → ProjNode → Type 0
Grown n root = (paths : List (List ProjSegment)) × All HasStep paths × (root ≡ add_paths paths n)

proj_loop-Grown :
    (names : Names) (toks : List Bytes) (n : ProjNode)
    → Returns (Grown n) AnyError (proj_loop names toks n)
unfolding proj_loop add_paths
proj_loop-Grown names [] n = ([], tt, refl)
proj_loop-Grown names (tok ∷ toks) n = elim (Bool-cases (is_empty (trim_space tok))) [
  | inl e ↦ rw e (proj_loop-Grown names toks n)
  | inr e ↦ rw e (
      Returns-bind HasStep (Grown n) AnyError _ _ (parse_proj_path-HasStep (trim_space tok) names)
        (λ segs ne.
          behind segs ne (proj_loop names toks (add_path segs n))
            (proj_loop-Grown names toks (add_path segs n))))
]
  where
    behind :
        (segs : List ProjSegment)
        → HasStep segs
        → (r : Result ExprError ProjNode) → Returns (Grown (add_path segs n)) AnyError r
        → Returns (Grown n) AnyError r
    behind segs ne (ok root) (paths, full, e) = (segs ∷ paths, (ne, full), e)
    behind segs ne (err x) h = tt
    behind segs ne panic h = h
    behind segs ne exhausted h = h

-- On every text parseProjectionExpression returns an error, or the tree of some paths, each with at
-- least one step.
pub parse_projection_expression-Grown :
    (expr : Bytes) (names : Names)
    → Returns (Grown empty_node) AnyError (parse_projection_expression expr names)
unfolding parse_projection_expression
parse_projection_expression-Grown expr names = proj_loop-Grown names (split b',' expr) empty_node
