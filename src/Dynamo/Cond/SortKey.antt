-- ===== src/Dynamo/Cond/SortKey.antt =====
-- A sort key condition of a Query against the same condition in a filter.
use kumolo.Prelude.{◌≡◌, refl, arith, ok}
use kumolo.Prelude.Bytes.{Bytes, codes, bytes_eq}
use kumolo.Dynamo.Value.{Json, Fields, Platform, Names}
use kumolo.Dynamo.Operand.{Operand, resolve}
use kumolo.Dynamo.Compare.{
  SortOp, op_eq, op_lt, op_lte, op_gt, op_gte, op_between, op_begins_with, op_other,
  matches_sort_key,
}
use kumolo.Dynamo.Cond.{
  Cond, cmp_cond, between_cond, begins_with_cond, order_test, order_result, cmp_values,
  between_values, eval,
}
use kumolo.Dynamo.Cond.Safe.{dynamo_value_cmp-Returns}

-- The operator is one of the Op* constants.
abbrev pub IsKnown : SortOp → Type 0
IsKnown (op_other op) = ⊥
IsKnown _ = Unit

-- The condition of a filter that the operator stands for.
abbrev pub as_condition : SortOp → Operand → Operand → Operand → Cond
as_condition op_eq o a b = cmp_cond o (codes "=") a
as_condition op_lt o a b = cmp_cond o (codes "<") a
as_condition op_lte o a b = cmp_cond o (codes "<=") a
as_condition op_gt o a b = cmp_cond o (codes ">") a
as_condition op_gte o a b = cmp_cond o (codes ">=") a
as_condition op_between o a b = between_cond o a b
as_condition op_begins_with o a b = begins_with_cond o a
as_condition (op_other op) o a b = cmp_cond o op a

module _ (P : Platform) (item : Fields) (names : Names) (values : Fields) where
  -- Where its operands resolve, a comparison, a BETWEEN and a begins_with of a filter answer as
  -- matchesSortKey answers on the same values, for every operator that a sort key condition has.
  pub eval-matches_sort_key :
      (op : SortOp) (o l h : Operand) (v a b : Json) (n : Bytes)
      → IsKnown op
      → resolve P o item names values ≡ ok v
      → resolve P l item names values ≡ ok a
      → resolve P h item names values ≡ ok b
      → eval P (as_condition op o l h) item names values
        ≡ ok (matches_sort_key P v (record { name = n; operator = op; value = a; value2 = b }))
  unfolding eval matches_sort_key cmp_values order_result order_test bytes_eq between_values
  eval-matches_sort_key op_eq o l h v a b n k p q r = rw (p, q) refl
  eval-matches_sort_key op_lt o l h v a b n k p q r =
      rw (p, q) (ground (arith, dynamo_value_cmp-Returns P v a))
  eval-matches_sort_key op_lte o l h v a b n k p q r =
      rw (p, q) (ground (arith, dynamo_value_cmp-Returns P v a))
  eval-matches_sort_key op_gt o l h v a b n k p q r =
      rw (p, q) (ground (arith, dynamo_value_cmp-Returns P v a))
  eval-matches_sort_key op_gte o l h v a b n k p q r =
      rw (p, q) (ground (arith, dynamo_value_cmp-Returns P v a))
  eval-matches_sort_key op_between o l h v a b n k p q r = rw (p, q, r) (ground arith)
  eval-matches_sort_key op_begins_with o l h v a b n k p q r = rw (p, q) refl
  eval-matches_sort_key (op_other op) o l h v a b n k p q r = absurd k
