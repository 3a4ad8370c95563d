-- ===== src/Dynamo/Operand.antt =====
-- The operands of internal/dynamodb/expression.go, and how they resolve against an item.
pub mod Safe
use kumolo.Prelude.{
  ℕ, Bool, true, false, Option, none, some, List, [], ◌∷◌, length, get_elem?, if◌then◌else◌, Result,
  ok, err, panic, exhausted, ◌>>=◌,
}
use kumolo.Prelude.Bytes.{Bytes, codes, has_prefix}
use kumolo.Dynamo.Token.{ExprError, name_missing, size_unsupported}
use kumolo.Prelude.Decimal.{decimal}
use kumolo.Dynamo.Value.{
  Json, null, str, obj, Items, Fields, end, field, Platform, elems, get, index, count, as_obj,
  as_arr, is_nil, get_str, get_arr, Names, lookup,
}

-- projSegment: an attribute step where `attr` is not empty, a list-index step where it is.
pub record ProjSegment : Type 0 where
  pub attr : Bytes
  pub index : ℕ

abbrev pub attr_step : Bytes → ProjSegment
attr_step a = record { attr = a; index = 0 }

abbrev pub index_step : ℕ → ProjSegment
index_step n = record { attr = []; index = n }

-- The implementations of exprOperand.
pub data Operand : Type 0 where
  name_ref val_ref plain : Bytes → Operand
  size : Operand → Operand
  path : List ProjSegment → Operand

abbrev pub Eval {ℓ} : Type ℓ → Type ℓ
Eval A = Result ExprError A

-- `actual, ok := names[ref]`, with the error where it is not ok
unfoldable pub find_name : Names → Bytes → Eval Bytes
unfolding lookup
find_name names ref = elim (lookup ref names) [ none ↦ err (name_missing ref) | some a ↦ ok a ]

-- A segment's attribute name: a `#` placeholder is looked up.
unfoldable pub segment_name : Names → Bytes → Eval Bytes
segment_name names a = if has_prefix a (codes "#") then find_name names a else ok a

-- Type assertions with one result panic where they do not hold.
abbrev must_obj : Json → Eval Fields
must_obj v = elim (as_obj v) [ none ↦ panic | some m ↦ ok m ]

abbrev must_arr : Json → Eval Items
must_arr v = elim (as_arr v) [ none ↦ panic | some xs ↦ ok xs ]

-- The step to the attribute `a` of a value's "M"; `none` is `return nil, nil` in mid-path.
attr_round : Names → Bytes → Option Json → Eval (Option Json)
unfolding segment_name
attr_round names a none = ok none
attr_round names a (some raw) = do m ← must_obj raw; name ← segment_name names a; ok (get name m)

-- The step to the element `i` of a value's "L".
index_round : ℕ → Option Json → Eval (Option Json)
index_round i none = ok none
index_round i (some raw) = do xs ← must_arr raw; ok (get_elem? (elems xs) i)

abbrev pub is_empty : Bytes → Bool
is_empty [] = true
is_empty _ = false

-- One round of the loop of pathOperand.resolve, at the value `v`.
path_round : Names → ProjSegment → Json → Eval (Option Json)
unfolding attr_round index_round
path_round names seg v = do
  m ← must_obj v
  (if is_empty seg.attr
      then index_round seg.index (get (codes "L") m)
      else attr_round names seg.attr (get (codes "M") m))

-- The loop: a value that is absent at any step makes the whole nil.
walk : Names → List ProjSegment → Option Json → Eval Json
walk names segs none = ok null
walk names [] (some v) = ok v
walk names (seg ∷ segs) (some v) = do found ← path_round names seg v; walk names segs found

resolve_path : Fields → Names → List ProjSegment → Eval Json
unfolding walk path_round
resolve_path item names [] = panic
resolve_path item names (seg ∷ segs) = do
  name ← segment_name names seg.attr
  walk names segs (get name item)

module _ (P : Platform) where
  decoded_size : Option Bytes → ℕ
  decoded_size none = 0
  decoded_size (some b) = length b

  size_of_map : Fields → Eval ℕ
  size_of_map m = elim (get_arr (codes "L") m) [
    | some xs ↦ ok (length (elems xs))
    | none ↦ elim (as_obj (index (codes "M") m)) [
      | some entries ↦ ok (count entries)
      | none ↦ err size_unsupported
    ]
  ]

  -- `for _, setKey := range …`, and what follows the loop
  size_of_set : List Bytes → Fields → Eval ℕ
  unfolding size_of_map
  size_of_set [] m = size_of_map m
  size_of_set (k ∷ ks) m =
      let rest = size_of_set ks m in
      elim (get_arr k m) [ some xs ↦ ok (length (elems xs)) | none ↦ rest ]

  abbrev set_keys : List Bytes
  set_keys = codes "SS" ∷ codes "NS" ∷ codes "BS" ∷ []

  size_of_scalar : Fields → Eval ℕ
  unfolding size_of_set decoded_size
  size_of_scalar m = elim (get_str (codes "S") m) [
    | some s ↦ ok (length s)
    | none ↦ elim (get_str (codes "N") m) [
      | some n ↦ ok (length n)
      | none ↦ elim (get_str (codes "B") m) [
        | some b ↦ ok (decoded_size (P.decode_base64 b))
        | none ↦ size_of_set set_keys m
      ]
    ]
  ]

  unfoldable pub dynamo_attr_size : Json → Eval ℕ
  unfolding size_of_scalar
  dynamo_attr_size v = elim (as_obj v) [ none ↦ ok 0 | some m ↦ size_of_scalar m ]

  -- sizeOperand.resolve, after its path has resolved
  size_result : Json → Eval Json
  unfolding dynamo_attr_size
  size_result v =
      if is_nil v
      then ok null
      else do n ← dynamo_attr_size v; ok (obj (field (codes "N") (str (decimal n)) end))

  -- The resolve methods.
  unfoldable pub resolve : Operand → Fields → Names → Fields → Eval Json
  unfolding find_name resolve_path size_result
  resolve (name_ref ref) item names values = do actual ← find_name names ref; ok (index actual item)
  resolve (val_ref ref) item names values = ok (index ref values)
  resolve (plain name) item names values = ok (index name item)
  resolve (size o) item names values = do v ← resolve o item names values; size_result v
  resolve (path segs) item names values = resolve_path item names segs
