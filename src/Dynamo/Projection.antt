-- ===== src/Dynamo/Projection.antt =====
-- The projection tree of internal/dynamodb/expression.go, and what it keeps of an item.
pub mod Tree
pub mod Keeps
pub mod Only
pub mod Text
use kumolo.Prelude.{
  ℕ, zero, suc, Bool, true, false, Option, none, some, List, [], ◌∷◌, ◌++◌, map, get_elem?, ltb,
  ◌==◌, if◌then◌else◌, Result, ok, err, panic, exhausted, ◌>>=◌,
}
use kumolo.Prelude.Bytes.{Bytes, codes, bytes_eq}
use kumolo.Dynamo.Value.{
  Json, arr, obj, Fields, end, field, Items, elems, to_items, get, as_obj, as_arr,
}
use kumolo.Dynamo.Operand.{ProjSegment, is_empty}

-- projNode: isLeaf, the children by attribute name and those by list index. A nil map and an empty
-- one are alike to the code.
mutual
  pub data ProjNode : Type 0 where
    node : Bool → Children → Indices → ProjNode

  pub data Children : Type 0 where
    no_child : Children
    child : Bytes → ProjNode → Children → Children

  pub data Indices : Type 0 where
    no_index : Indices
    at_index : ℕ → ProjNode → Indices → Indices

abbrev pub empty_node : ProjNode
empty_node = node false no_child no_index

-- `child, ok := m[k]`, a new node where it is not ok, and the change of the child in place
pub update_child : Bytes → (ProjNode → ProjNode) → Children → Children
update_child k f no_child = child k (f empty_node) no_child
update_child k f (child j n c) =
    let rest = update_child k f c in if bytes_eq j k then child j (f n) c else child j n rest

update_index : ℕ → (ProjNode → ProjNode) → Indices → Indices
update_index k f no_index = at_index k (f empty_node) no_index
update_index k f (at_index j n x) =
    let rest = update_index k f x in if j == k then at_index j (f n) x else at_index j n rest

unfoldable pub add_path : List ProjSegment → ProjNode → ProjNode
unfolding update_child update_index
add_path segs (node true c x) = node true c x
add_path [] (node false c x) = node true no_child no_index
add_path (seg ∷ rest) (node false c x) =
    if is_empty seg.attr
    then node false c (update_index seg.index (add_path rest) x)
    else node false (update_child seg.attr (add_path rest) c) x

-- sort.Ints on the indices, with the projected element of each
insert_index : ℕ × Json → List (ℕ × Json) → List (ℕ × Json)
insert_index p [] = p ∷ []
insert_index p (q ∷ qs) =
    let rest = insert_index p qs in if ltb p.0 q.0 then p ∷ q ∷ qs else q ∷ rest

sort_indices : List (ℕ × Json) → List (ℕ × Json)
unfolding insert_index
sort_indices [] = []
sort_indices (p ∷ ps) = insert_index p (sort_indices ps)

abbrev pub has_child : Children → Bool
has_child no_child = false
has_child (child k n c) = true

abbrev has_index : Indices → Bool
has_index no_index = false
has_index (at_index k n x) = true

-- projectValue's assertions: the map under "M", the list under "L", where the value has one.
abbrev pub map_of : Json → Option Fields
map_of v = elim (as_obj v) [
  | none ↦ none
  | some m ↦ elim (get (codes "M") m) [ none ↦ none | some raw ↦ as_obj raw ]
]

abbrev pub list_of : Json → Option Items
list_of v = elim (as_obj v) [
  | none ↦ none
  | some m ↦ elim (get (codes "L") m) [ none ↦ none | some raw ↦ as_arr raw ]
]

unfoldable mutual
  unfolding sort_indices

  pub project_value : ProjNode → Json → Json
  project_value (node leaf c x) v =
      if has_child c
      then elim (map_of v) [
        | none ↦ v
        | some m ↦ obj (field (codes "M") (obj (project_children c m)) end)
      ]
      else if has_index x
      then elim (list_of v) [
        | none ↦ v
        | some xs ↦ obj (
            field (codes "L")
              (arr (to_items (map (λ p. p.1) (sort_indices (project_indices x xs))))) end)
      ]
      else v

  -- `for attrName, child := range n.children`
  pub project_children : Children → Fields → Fields
  project_children no_child m = end
  project_children (child k n c) m =
      let rest = project_children c m in
      elim (get k m) [ none ↦ rest | some v ↦ field k (project_value n v) rest ]

  -- the indices that are in range, with what is projected of their elements
  pub project_indices : Indices → Items → List (ℕ × Json)
  project_indices no_index xs = []
  project_indices (at_index i n x) xs =
      let rest = project_indices x xs in
      elim (get_elem? (elems xs) i) [ none ↦ rest | some v ↦ (i, project_value n v) ∷ rest ]

-- parsedProjection.apply
unfoldable pub apply : ProjNode → Fields → Fields
unfolding project_value
apply (node leaf c x) item = project_children c item

-- The loop of parseProjectionExpression over the paths that it has parsed.
unfoldable pub add_paths : List (List ProjSegment) → ProjNode → ProjNode
add_paths [] root = root
add_paths (segs ∷ paths) root = add_paths paths (add_path segs root)
