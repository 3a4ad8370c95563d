-- ===== src/Dynamo/Filter/Keeps.antt =====
-- applyFilterExpression against its specification: a filter by the condition's answer.
use kumolo.Prelude.{
  ℕ, ◌≡◌, ◌↔◌, refl, Bool, false, List, [], ◌∷◌, All, arith, filter, if◌then◌else◌, ok, ◌>>=◌,
}
use kumolo.Prelude.Bytes.{Bytes}
use kumolo.Dynamo.Value.{Fields, Platform, Names}
use kumolo.Dynamo.Operand.{Eval}
use kumolo.Dynamo.Cond.{Cond, eval}
use kumolo.Dynamo.Parser.{parse_filter_expr}
use kumolo.Dynamo.Refs.{validate_expr_refs}
use kumolo.Dynamo.Filter.{filter_items, apply_filter_expression}

-- The answer, where there is one.
abbrev pub answer : Eval Bool → Bool
answer (ok b) = b
answer _ = false

module _ (P : Platform) (names : Names) (values : Fields) (node : Cond) where
  abbrev pub answer_for : Fields → Bool
  answer_for item = answer (eval P node item names values)

  abbrev pub Answered : Fields → Type 0
  Answered item = eval P node item names values ≡ ok (answer_for item)

  filter_items→ :
      (items kept : List Fields)
      → filter_items P node items names values ≡ ok kept
      → All Answered items × (kept ≡ filter answer_for items)
  unfolding filter_items
  filter_items→ [] kept h = (tt, cc)
  filter_items→ (item ∷ items) kept h =
      step (eval P node item names values) (filter_items P node items names values) refl
        (filter_items→ items) h
    where
      step :
          (r : Eval Bool) (rest : Eval (List Fields))
          → eval P node item names values ≡ r
          → ((kept : List Fields)
              → rest ≡ ok kept
              → All Answered items × (kept ≡ filter answer_for items))
          → (do keep ← r; xs ← rest; ok (if keep then item ∷ xs else xs)) ≡ ok kept
          → All Answered (item ∷ items)
            × (kept ≡ (
                if answer_for item
                then item ∷ filter answer_for items
                else filter answer_for items))
      step (ok b) (ok xs) e ih k = let (a, q) = ih xs refl in ground arith
      step _ _ e ih k = cc

  →filter_items :
      (items : List Fields)
      → All Answered items
      → filter_items P node items names values ≡ ok (filter answer_for items)
  unfolding filter_items
  →filter_items [] h = refl
  →filter_items (item ∷ items) h = rw h.0 (rw (→filter_items items h.1) refl)

-- For an expression that parses and whose placeholders are there: applyFilterExpression returns a
-- list exactly when the condition has an answer for every item, and the list is then that of the
-- items whose answer is true, in their order.
pub apply_filter_expression_iff :
    (P : Platform) (items kept : List Fields) (c : ℕ) (s : Bytes) (names : Names) (values : Fields)
    (node : Cond)
    → parse_filter_expr (c ∷ s) ≡ ok node
    → validate_expr_refs (c ∷ s) names values ≡ ok tt
    → (apply_filter_expression P items (c ∷ s) names values ≡ ok kept) ↔ (
        All (Answered P names values node) items
        × (kept ≡ filter (answer_for P names values node) items))
unfolding apply_filter_expression
apply_filter_expression_iff P items kept c s names values node p v = (
  λ h. filter_items→ P names values node items kept (rw (p, v) at h),
  λ (h, e). rw (p, v) (rw (→filter_items P names values node items h, e)),
)
