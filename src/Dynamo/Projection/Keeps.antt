-- ===== src/Dynamo/Projection/Keeps.antt =====
-- apply of internal/dynamodb/expression.go: what a projection has of an item.
use kumolo.Prelude.{
  ◌≡◌, ◌≢◌, ◌∙◌, refl, Bool, true, false, Option, none, some, List, [], ◌∷◌, map, All, Any, arith,
}
use kumolo.Prelude.Bytes.{Bytes, codes, bytes_eq, bytes_eq_iff}
use kumolo.Dynamo.Value.{Json, obj, Fields, end, field, get}
use kumolo.Dynamo.Operand.{ProjSegment, attr_step, is_empty}
use kumolo.Dynamo.Projection.{
  ProjNode, node, Children, no_child, child, Indices, empty_node, add_path, add_paths, map_of,
  project_value, project_children, apply, has_child,
}
use kumolo.Dynamo.Projection.Tree.{find_child, Selects, add_paths-Selects}

-- The value behind an attribute of a typed value, and behind a path of them.
abbrev attr_of : Bytes → Json → Option Json
attr_of k v = elim (map_of v) [ none ↦ none | some m ↦ get k m ]

abbrev pub get_path : List Bytes → Json → Option Json
get_path [] v = some v
get_path (k ∷ ks) v = elim (map_of v) [
  | none ↦ none
  | some m ↦ elim (get k m) [ none ↦ none | some w ↦ get_path ks w ]
]

abbrev pub then_path : List Bytes → Option Json → Option Json
then_path ks none = none
then_path ks (some w) = get_path ks w

-- The same from an item, whose attributes are the first step.
abbrev pub get_item_path : Bytes → List Bytes → Fields → Option Json
get_item_path k ks item = then_path ks (get k item)

abbrev pub projected : Option ProjNode → Option Json → Option Json
projected none o = none
projected (some n) none = none
projected (some n) (some v) = some (project_value n v)

-- An attribute of a projected map: the projection of the attribute, where the tree has a child.
pub get-project_children :
    (k : Bytes) (c : Children) (m : Fields)
    → get k (project_children c m) ≡ projected (find_child k c) (get k m)
unfolding get project_children find_child
get-project_children k no_child m = refl
get-project_children k (child j n c) m =
    ground (arith, get-project_children k c m, bytes_eq_iff j k)

get_path-inv :
    (k : Bytes) (ks : List Bytes) (v w : Json)
    → get_path (k ∷ ks) v ≡ some w
    → (m : Fields) × (u : Json) × (map_of v ≡ some m)
      × (get k m ≡ some u)
      × (get_path ks u ≡ some w)
get_path-inv k ks v w h = by_map (map_of v) refl h
  where
    by_value :
        (m : Fields) (o : Option Json)
        → map_of v ≡ some m
        → get k m ≡ o
        → elim o [ none ↦ none | some u ↦ get_path ks u ] ≡ some w
        → (m : Fields) × (u : Json) × (map_of v ≡ some m)
          × (get k m ≡ some u)
          × (get_path ks u ≡ some w)
    by_value m none p q h' = cc
    by_value m (some u) p q h' = (m, u, p, q, h')

    by_map :
        (o : Option Fields)
        → map_of v ≡ o
        → elim o [ none ↦ none | some m ↦ elim (get k m) [ none ↦ none | some u ↦ get_path ks u ] ]
          ≡ some w
        → (m : Fields) × (u : Json) × (map_of v ≡ some m)
          × (get k m ≡ some u)
          × (get_path ks u ≡ some w)
    by_map none p h' = cc
    by_map (some m) p h' = by_value m (get k m) p refl h'

project_value-map :
    (leaf : Bool) (c : Children) (x : Indices) (v : Json) (m : Fields)
    → has_child c ≡ true
    → map_of v ≡ some m
    → project_value (node leaf c x) v ≡ obj (field (codes "M") (obj (project_children c m)) end)
unfolding project_value
project_value-map leaf c x v m h e = rw (h, e)

has_child_of_find :
    (k : Bytes) (c : Children) (n : ProjNode) → find_child k c ≡ some n → has_child c ≡ true
unfolding find_child
has_child_of_find k no_child n h = cc
has_child_of_find k (child j m c) n h = refl

get_path-wrapped :
    (k : Bytes) (ks : List Bytes) (m : Fields)
    → get_path (k ∷ ks) (obj (field (codes "M") (obj m) end))
      ≡ elim (get k m) [ none ↦ none | some u ↦ get_path ks u ]
unfolding get bytes_eq
get_path-wrapped k ks m = refl

-- A selected path that leads to a value leads to the same value after the projection.
project_value-get_path :
    (ks : List Bytes) (n : ProjNode) (v w : Json)
    → Selects ks n
    → get_path ks v ≡ some w
    → get_path ks (project_value n v) ≡ some w
project_value-get_path ks (node true c x) v w (p, q) h = rw (p, q) (unfold project_value in h)
project_value-get_path [] (node false c x) v w s h = absurd s
project_value-get_path (k ∷ ks) (node false c x) v w (n, e, s) h =
    let (m, u, p, q, r) = get_path-inv k ks v w h in
    rw (project_value-map false c x v m (has_child_of_find k c n e) p) (
      get_path-wrapped k ks (project_children c m)
      ∙ rw (get-project_children k c m, e, q) (project_value-get_path ks n u w s r))

-- The root is no leaf, since no parsed path is empty.
abbrev IsInner : ProjNode → Type 0
IsInner (node leaf c x) = leaf ≡ false

add_path-IsInner :
    (segs : List ProjSegment) (n : ProjNode) → segs ≢ [] → IsInner n → IsInner (add_path segs n)
unfolding add_path
add_path-IsInner [] n ne h = absurd (ne refl)
add_path-IsInner (seg ∷ segs) (node true c x) ne h = h
add_path-IsInner (seg ∷ segs) (node false c x) ne h = ground arith

add_paths-IsInner :
    (paths : List (List ProjSegment)) (n : ProjNode)
    → All (λ p. p ≢ []) paths
    → IsInner n
    → IsInner (add_paths paths n)
unfolding add_paths
add_paths-IsInner [] n ne h = h
add_paths-IsInner (segs ∷ paths) n ne h =
    add_paths-IsInner paths (add_path segs n) ne.1 (add_path-IsInner segs n ne.0 h)

get_item_path-inv :
    (k : Bytes) (ks : List Bytes) (item : Fields) (w : Json)
    → get_item_path k ks item ≡ some w
    → (u : Json) × (get k item ≡ some u) × (get_path ks u ≡ some w)
get_item_path-inv k ks item w h = by_value (get k item) refl h
  where
    by_value :
        (o : Option Json)
        → get k item ≡ o
        → then_path ks o ≡ some w
        → (u : Json) × (get k item ≡ some u) × (get_path ks u ≡ some w)
    by_value none p h' = cc
    by_value (some u) p h' = (u, p, h')

pub apply-children :
    (leaf : Bool) (c : Children) (x : Indices) (item : Fields)
    → apply (node leaf c x) item ≡ project_children c item
unfolding apply
apply-children leaf c x item = refl

apply-selected :
    (k : Bytes) (ks : List Bytes) (n : ProjNode) (item : Fields) (w : Json)
    → IsInner n
    → Selects (k ∷ ks) n
    → get_item_path k ks item ≡ some w
    → get_item_path k ks (apply n item) ≡ some w
apply-selected k ks (node true c x) item w i s h = cc
apply-selected k ks (node false c x) item w i (n, e, s) h =
    let (u, q, r) = get_item_path-inv k ks item w h in
    rw (apply-children false c x item)
      (rw (get-project_children k c item, e, q) (project_value-get_path ks n u w s r))

-- A projection by paths of which one is the attribute path `k, ks` keeps the value that the item
-- has at it, whatever the other paths are and in whatever order. (A parsed path has a segment.)
pub apply-get_item_path :
    (k : Bytes) (ks : List Bytes) (paths : List (List ProjSegment)) (item : Fields) (w : Json)
    → All (λ j. is_empty j ≡ false) (k ∷ ks)
    → All (λ p. p ≢ []) paths
    → Any (λ p. p ≡ map attr_step (k ∷ ks)) paths
    → get_item_path k ks item ≡ some w
    → get_item_path k ks (apply (add_paths paths empty_node) item) ≡ some w
apply-get_item_path k ks paths item w ne full p h =
    apply-selected k ks (add_paths paths empty_node) item w
      (add_paths-IsInner paths empty_node full refl)
      (add_paths-Selects (k ∷ ks) paths empty_node ne tt p) h
