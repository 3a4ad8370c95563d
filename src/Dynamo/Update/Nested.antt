-- ===== src/Dynamo/Update/Nested.antt =====
-- The document paths of an update: applyNestedSet and applyNestedRemove of
-- internal/dynamodb/storage_item.go, resolveUpdatePath and the SET operands of
-- internal/dynamodb/handler_helpers.go. A value is changed in place there; here the changed value
-- is the result.
pub mod Places
pub mod Removed
pub mod Rounds
use kumolo.Prelude.{
  ℕ, zero, suc, Bool, true, false, Option, none, some, List, [], ◌∷◌, ◌++◌, get_elem?,
  if◌then◌else◌, Result, ok, err, panic, exhausted, ◌>>=◌,
}
use kumolo.Prelude.Bytes.{Bytes, codes}
use kumolo.Dynamo.Value.{
  Json, null, arr, obj, Fields, Items, elems, to_items, get, put, delete, as_obj, as_arr, is_nil,
  get_arr,
}
use kumolo.Dynamo.Operand.{ProjSegment, is_empty}
use kumolo.Dynamo.Update.{UpdateError, Updated, invalid_path, not_a_list, not_typed, typed_value}

-- Type assertions with one result panic where they do not hold.
abbrev pub must_map : Json → Updated Fields
must_map v = elim (as_obj v) [ none ↦ panic | some m ↦ ok m ]

abbrev must_list : Json → Updated Items
must_list v = elim (as_arr v) [ none ↦ panic | some xs ↦ ok xs ]

-- `lSlice[i] = val`, and `append(lSlice[:i], lSlice[i+1:]...)`
replace_at : ℕ → Json → List Json → List Json
replace_at i v [] = []
replace_at zero v (x ∷ xs) = v ∷ xs
replace_at (suc i) v (x ∷ xs) = x ∷ replace_at i v xs

drop_at : ℕ → List Json → List Json
drop_at i [] = []
drop_at zero (x ∷ xs) = xs
drop_at (suc i) (x ∷ xs) = x ∷ drop_at i xs

-- The change of an attribute under "M": `change` gets what is there, and gives what is written.
set_in_map : Bytes → (Option Json → Updated Json) → Fields → Updated Json
set_in_map a change m = elim (get (codes "M") m) [
  | none ↦ err invalid_path
  | some raw ↦ do
    inner ← must_map raw
    new ← change (get a inner)
    ok (obj (put (codes "M") (obj (put a new inner)) m))
]

-- The change of an element under "L"; beyond the end the new one is appended.
set_in_list : ℕ → (Option Json → Updated Json) → Fields → Updated Json
unfolding replace_at
set_in_list i change m = elim (get (codes "L") m) [
  | none ↦ err invalid_path
  | some raw ↦ do
    xs ← must_list raw
    elim (get_elem? (elems xs) i) [
      | none ↦ do
        new ← change none
        ok (obj (put (codes "L") (arr (to_items (elems xs ++ (new ∷ [])))) m))
      | some old ↦ do
        new ← change (some old)
        ok (obj (put (codes "L") (arr (to_items (replace_at i new (elems xs)))) m))
    ]
]

-- setAtDynamoValue at the value that is there, if one is: after the last segment it is replaced,
-- and before it a missing one is the error.
set_at : List ProjSegment → Json → Option Json → Updated Json
unfolding set_in_map set_in_list
set_at [] new old = ok new
set_at (seg ∷ rest) new none = err invalid_path
set_at (seg ∷ rest) new (some v) = do
  m ← must_map v
  (if is_empty seg.attr
      then set_in_list seg.index (set_at rest new) m
      else set_in_map seg.attr (set_at rest new) m)

-- With one segment only, setAtDynamoValue reads segs[0] of an empty slice.
unfoldable pub apply_nested_set : Fields → List ProjSegment → Json → Updated Fields
unfolding set_at
apply_nested_set item [] new = panic
apply_nested_set item (seg ∷ []) new = elim (get seg.attr item) [
  | none ↦ err invalid_path
  | some parent ↦ panic
]
apply_nested_set item (seg ∷ next ∷ rest) new = elim (get seg.attr item) [
  | none ↦ err invalid_path
  | some parent ↦ do
    changed ← set_at (next ∷ rest) new (some parent)
    ok (put seg.attr changed item)
]

-- What is left of an attribute: nothing, or a changed value.
pub put_or_delete : Bytes → Option Json → Fields → Fields
put_or_delete a none m = delete a m
put_or_delete a (some v) m = put a v m

replace_or_drop : ℕ → Option Json → List Json → List Json
unfolding replace_at drop_at
replace_or_drop i none xs = drop_at i xs
replace_or_drop i (some v) xs = replace_at i v xs

remove_in_map : Bytes → (Json → Updated (Option Json)) → Fields → Updated (Option Json)
unfolding put_or_delete
remove_in_map a change m = elim (get (codes "M") m) [
  | none ↦ ok (some (obj m))
  | some raw ↦ do
    inner ← must_map raw
    elim (get a inner) [
      | none ↦ ok (some (obj m))
      | some old ↦ do
        left ← change old
        ok (some (obj (put (codes "M") (obj (put_or_delete a left inner)) m)))
    ]
]

remove_in_list : ℕ → (Json → Updated (Option Json)) → Fields → Updated (Option Json)
unfolding replace_or_drop
remove_in_list i change m = elim (get (codes "L") m) [
  | none ↦ ok (some (obj m))
  | some raw ↦ do
    xs ← must_list raw
    elim (get_elem? (elems xs) i) [
      | none ↦ ok (some (obj m))
      | some old ↦ do
        left ← change old
        ok (some (obj (put (codes "L") (arr (to_items (replace_or_drop i left (elems xs)))) m)))
    ]
]

-- removeAtDynamoValue: after the last segment nothing is left of the value.
remove_at : List ProjSegment → Json → Updated (Option Json)
unfolding remove_in_map remove_in_list
remove_at [] v = ok none
remove_at (seg ∷ rest) v = do
  m ← must_map v
  (if is_empty seg.attr
      then remove_in_list seg.index (remove_at rest) m
      else remove_in_map seg.attr (remove_at rest) m)

unfoldable pub apply_nested_remove : Fields → List ProjSegment → Updated Fields
unfolding remove_at
apply_nested_remove item [] = panic
apply_nested_remove item (seg ∷ []) = elim (get seg.attr item) [
  | none ↦ ok item
  | some parent ↦ panic
]
apply_nested_remove item (seg ∷ next ∷ rest) = elim (get seg.attr item) [
  | none ↦ ok item
  | some parent ↦ do left ← remove_at (next ∷ rest) parent; ok (put_or_delete seg.attr left item)
]

-- One round of the loop of resolveUpdatePath, at the value `v`.
pub update_round : ProjSegment → Json → Updated (Option Json)
update_round seg v = do
  m ← must_map v
  (if is_empty seg.attr
      then elim (get (codes "L") m) [
        | none ↦ ok none
        | some raw ↦ do xs ← must_list raw; ok (get_elem? (elems xs) seg.index)
      ]
      else elim (get (codes "M") m) [
        | none ↦ ok none
        | some raw ↦ do inner ← must_map raw; ok (get seg.attr inner)
      ])

pub update_walk : List ProjSegment → Option Json → Updated Json
unfolding update_round
update_walk segs none = ok null
update_walk [] (some v) = ok v
update_walk (seg ∷ segs) (some v) = do found ← update_round seg v; update_walk segs found

unfoldable pub resolve_update_path : Fields → List ProjSegment → Updated Json
unfolding update_walk
resolve_update_path item [] = ok null
resolve_update_path item (seg ∷ segs) = update_walk segs (get seg.attr item)

-- The implementations of setOperand.
pub data SetOperand : Type 0 where
  literal : Json → SetOperand
  attr_ref : List ProjSegment → SetOperand
  if_not_exists : List ProjSegment → SetOperand → SetOperand

unfoldable pub resolve_set : SetOperand → Fields → Updated Json
unfolding resolve_update_path
resolve_set (literal v) item = ok v
resolve_set (attr_ref segs) item = resolve_update_path item segs
resolve_set (if_not_exists segs operand) item =
    let other = resolve_set operand item in
    do v ← resolve_update_path item segs; (if is_nil v then other else ok v)

-- A null is the `v == nil` of the source.
to_list_attr : Json → Updated (List Json)
to_list_attr null = err not_a_list
to_list_attr v = elim (as_obj v) [
  | none ↦ err not_typed
  | some m ↦ elim (get_arr (codes "L") m) [ none ↦ err not_a_list | some xs ↦ ok (elems xs) ]
]

unfoldable pub apply_list_append : Fields → SetOperand → SetOperand → Updated Json
unfolding resolve_set to_list_attr
apply_list_append item left right = do
  l ← resolve_set left item
  ls ← to_list_attr l
  r ← resolve_set right item
  rs ← to_list_attr r
  ok (typed_value (codes "L") (arr (to_items (ls ++ rs))))
