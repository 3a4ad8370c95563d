-- ===== src/Dynamo/Cond.antt =====
-- The condition nodes of internal/dynamodb/expression.go, and their eval methods.
pub mod Safe
pub mod Laws
pub mod SortKey
use kumolo.Prelude.{
  Bool, true, false, not, ◌||◌, Option, none, some, List, [], ◌∷◌, if◌then◌else◌, Result, ok, err,
  panic, exhausted, ◌>>=◌,
}
use kumolo.Prelude.Bytes.{Bytes, codes, bytes_eq, contains, Order}
use kumolo.Dynamo.Token.{ExprError, unknown_operator}
use kumolo.Dynamo.Value.{
  Json, Items, Fields, Platform, elems, as_obj, is_nil, get_str, get_arr, Names,
}
use kumolo.Dynamo.Operand.{Operand, Eval, resolve}
use kumolo.Dynamo.Compare.{
  is_lt, is_le, is_gt, is_ge, holds, same_json, dynamo_value_cmp, begins_with,
}

-- The implementations of condNode.
pub data Cond : Type 0 where
  and_cond or_cond : Cond → Cond → Cond
  not_cond : Cond → Cond
  cmp_cond : Operand → Bytes → Operand → Cond
  attr_exists : Operand → Bool → Cond
  begins_with_cond contains_cond : Operand → Operand → Cond
  between_cond : Operand → Operand → Operand → Cond
  in_cond : Operand → List Operand → Cond

module _ (P : Platform) where
  -- cmpCondNode.eval, after its operands have resolved
  order_test : Bytes → Order → Eval Bool
  order_test op c =
      if bytes_eq op (codes "<")
      then ok (is_lt c)
      else if bytes_eq op (codes "<=")
      then ok (is_le c)
      else if bytes_eq op (codes ">")
      then ok (is_gt c)
      else if bytes_eq op (codes ">=")
      then ok (is_ge c)
      else err (unknown_operator op)

  -- a comparison that fails is no match, and no error
  order_result : Bytes → Eval Order → Eval Bool
  unfolding order_test
  order_result op (ok c) = order_test op c
  order_result op (err e) = ok false
  order_result op panic = panic
  order_result op exhausted = exhausted

  cmp_values : Bytes → Json → Json → Eval Bool
  unfolding order_result
  cmp_values op l r =
      if bytes_eq op (codes "=")
      then ok (same_json P l r)
      else if bytes_eq op (codes "<>")
      then ok (not (same_json P l r))
      else order_result op (dynamo_value_cmp P l r)

  -- `for _, elem := range al`, with the test that the texts are the same
  any_same : Json → List Json → Bool
  any_same v [] = false
  any_same v (x ∷ xs) = same_json P x v || any_same v xs

  abbrev contains_text : Bytes → Option Bytes → Bool
  contains_text s none = false
  contains_text s (some t) = contains s t

  contains_maps : Json → Fields → Fields → Bool
  unfolding any_same
  contains_maps v pm sm = elim (get_str (codes "S") pm) [
    | some s ↦ contains_text s (get_str (codes "S") sm)
    | none ↦ elim (get_arr (codes "L") pm) [ some xs ↦ any_same v (elems xs) | none ↦ false ]
  ]

  abbrev contains_objs : Json → Option Fields → Option Fields → Bool
  contains_objs v (some pm) (some sm) = contains_maps v pm sm
  contains_objs v _ _ = false

  contains_values : Json → Json → Bool
  unfolding contains_maps
  contains_values p v = contains_objs v (as_obj p) (as_obj v)

  between_values : Json → Json → Json → Bool
  between_values v lo hi =
      let low = holds is_ge (dynamo_value_cmp P v lo) in
      let high = holds is_le (dynamo_value_cmp P v hi) in if low then high else false

  -- `for i, v := range n.values`: every value is resolved before any is compared
  unfoldable pub resolve_all : List Operand → Fields → Names → Fields → Eval (List Json)
  resolve_all [] item names values = ok []
  resolve_all (o ∷ os) item names values = do
    v ← resolve P o item names values
    vs ← resolve_all os item names values
    ok (v ∷ vs)

  -- the second loop of inCondNode.eval
  in_values : Json → List Json → Bool
  in_values v [] = false
  in_values v (x ∷ xs) = same_json P v x || in_values v xs

  unfoldable pub eval : Cond → Fields → Names → Fields → Eval Bool
  unfolding resolve cmp_values contains_values between_values resolve_all in_values
  eval (and_cond l r) item names values =
      let right = eval r item names values in
      do b ← eval l item names values; if b then right else ok false
  eval (or_cond l r) item names values =
      let right = eval r item names values in
      do b ← eval l item names values; if b then ok true else right
  eval (not_cond c) item names values = do b ← eval c item names values; ok (not b)
  eval (cmp_cond l op r) item names values = do
    lv ← resolve P l item names values
    rv ← resolve P r item names values
    cmp_values op lv rv
  eval (attr_exists o negate) item names values = do
    v ← resolve P o item names values
    ok (if negate then is_nil v else not (is_nil v))
  eval (begins_with_cond p o) item names values = do
    v ← resolve P p item names values
    w ← resolve P o item names values
    ok (begins_with P v w)
  eval (contains_cond p o) item names values = do
    v ← resolve P p item names values
    w ← resolve P o item names values
    ok (contains_values v w)
  eval (between_cond o lo hi) item names values = do
    v ← resolve P o item names values
    l ← resolve P lo item names values
    h ← resolve P hi item names values
    ok (between_values v l h)
  eval (in_cond o os) item names values = do
    v ← resolve P o item names values
    vs ← resolve_all os item names values
    ok (in_values v vs)
