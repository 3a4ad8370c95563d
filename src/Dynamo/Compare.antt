-- ===== src/Dynamo/Compare.antt =====
-- dynamoValueCmp and matchesSortKey of internal/dynamodb/storage_query.go.
pub mod Laws
pub mod Less
use kumolo.Prelude.{
  Bool, true, false, ◌&&◌, Option, none, some, if◌then◌else◌, Result, ok, err, panic, exhausted,
}
use kumolo.Prelude.Bytes.{
  Bytes, codes, bytes_eq, has_prefix, Order, less, same, more, compare_bytes,
}
use kumolo.Dynamo.Token.{invalid_typed_value, expected_s, expected_n}
use kumolo.Dynamo.Value.{Json, Fields, Platform, as_obj, get_str}
use kumolo.Dynamo.Operand.{Eval}

-- SortKeyCondition.Operator: the Op* constants, and any other text
pub data SortOp : Type 0 where
  op_eq op_lt op_lte op_gt op_gte op_between op_begins_with : SortOp
  op_other : Bytes → SortOp

-- SortKeyCondition
pub record SortKeyCondition : Type 0 where
  pub name : Bytes
  pub operator : SortOp
  pub value : Json
  pub value2 : Json

-- The tests `c < 0`, `c <= 0`, `c > 0` and `c >= 0` of a comparison's result.
abbrev pub is_lt : Order → Bool
is_lt less = true
is_lt _ = false

abbrev pub is_le : Order → Bool
is_le more = false
is_le _ = true

abbrev pub is_gt : Order → Bool
is_gt more = true
is_gt _ = false

abbrev pub is_ge : Order → Bool
is_ge less = false
is_ge _ = true

-- `err == nil && test(c)`
abbrev pub holds : (Order → Bool) → Eval Order → Bool
holds test (ok c) = test c
holds test _ = false

module _ (P : Platform) where
  -- json.Marshal of both sides, and the test that the texts are the same
  unfoldable pub same_json : Json → Json → Bool
  same_json a b = bytes_eq (P.marshal a) (P.marshal b)

  compare_floats : Bytes → Bytes → Order
  compare_floats an bn =
      let af = (P.parse_float an).0 in
      let bf = (P.parse_float bn).0 in
      if P.float_lt af bf then less else if P.float_lt bf af then more else same

  compare_s : Bytes → Option Bytes → Eval Order
  compare_s s none = err expected_s
  compare_s s (some t) = ok (compare_bytes s t)

  compare_n : Bytes → Option Bytes → Eval Order
  unfolding compare_floats
  compare_n s none = err expected_n
  compare_n s (some t) = ok (compare_floats s t)

  compare_maps : Json → Json → Fields → Fields → Eval Order
  unfolding compare_s compare_n
  compare_maps a b am bm = elim (get_str (codes "S") am) [
    | some s ↦ compare_s s (get_str (codes "S") bm)
    | none ↦ elim (get_str (codes "N") am) [
      | some n ↦ compare_n n (get_str (codes "N") bm)
      | none ↦ ok (compare_bytes (P.marshal a) (P.marshal b))
    ]
  ]

  compare_objs : Json → Json → Option Fields → Option Fields → Eval Order
  unfolding compare_maps
  compare_objs a b (some am) (some bm) = compare_maps a b am bm
  compare_objs a b _ _ = err invalid_typed_value

  unfoldable pub dynamo_value_cmp : Json → Json → Eval Order
  unfolding compare_objs
  dynamo_value_cmp a b = compare_objs a b (as_obj a) (as_obj b)

  abbrev str_prefix : Option Bytes → Option Bytes → Bool
  str_prefix (some s) (some t) = has_prefix s t
  str_prefix _ _ = false

  abbrev map_prefix : Option Fields → Option Fields → Bool
  map_prefix (some am) (some bm) = str_prefix (get_str (codes "S") am) (get_str (codes "S") bm)
  map_prefix _ _ = false

  -- begins_with on two values: the strings under "S", if both have one
  unfoldable pub begins_with : Json → Json → Bool
  begins_with a b = map_prefix (as_obj a) (as_obj b)

  match_op : SortOp → Json → Json → Json → Bool
  unfolding same_json dynamo_value_cmp begins_with
  match_op op_eq v a b = same_json v a
  match_op op_lt v a b = holds is_lt (dynamo_value_cmp v a)
  match_op op_lte v a b = holds is_le (dynamo_value_cmp v a)
  match_op op_gt v a b = holds is_gt (dynamo_value_cmp v a)
  match_op op_gte v a b = holds is_ge (dynamo_value_cmp v a)
  match_op op_between v a b =
      holds is_ge (dynamo_value_cmp v a) && holds is_le (dynamo_value_cmp v b)
  match_op op_begins_with v a b = begins_with v a
  match_op (op_other op) v a b = false

  unfoldable pub matches_sort_key : Json → SortKeyCondition → Bool
  unfolding match_op
  matches_sort_key v cond = match_op cond.operator v cond.value cond.value2
