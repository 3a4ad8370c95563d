-- ===== src/Dynamo/Projection/Only.antt =====
-- apply of internal/dynamodb/expression.go: where the attributes of a projection come from.
use kumolo.Prelude.{
  ◌≡◌, ◌⊎◌, refl, inl, inr, true, false, Option, none, some, List, [], ◌∷◌, Any, Bool-cases,
}
use kumolo.Prelude.Bytes.{Bytes, bytes_eq, bytes_eq_iff}
use kumolo.Dynamo.Value.{Json, Fields, get}
use kumolo.Dynamo.Operand.{ProjSegment, is_empty}
use kumolo.Dynamo.Projection.{
  ProjNode, node, Children, no_child, empty_node, add_path, add_paths, apply,
}
use kumolo.Dynamo.Projection.Tree.{find_child, find_child-update_child}
use kumolo.Dynamo.Projection.Keeps.{projected, get-project_children, apply-children}

-- The path begins with the attribute.
abbrev pub Begins : Bytes → List ProjSegment → Type 0
Begins k [] = ⊥
Begins k (seg ∷ segs) = seg.attr ≡ k

abbrev children_of : ProjNode → Children
children_of (node leaf c x) = c

-- A child comes from the tree before, or from the path.
add_path-child :
    (k : Bytes) (segs : List ProjSegment) (n m : ProjNode)
    → find_child k (children_of (add_path segs n)) ≡ some m
    → ((l : ProjNode) × (find_child k (children_of n) ≡ some l)) ⊎ Begins k segs
unfolding add_path
add_path-child k [] (node true c x) m h = inl (m, h)
add_path-child k [] (node false c x) m h = unfold find_child in cc
add_path-child k (seg ∷ segs) (node true c x) m h = inl (m, h)
add_path-child k (seg ∷ segs) (node false c x) m h = elim (Bool-cases (is_empty seg.attr)) [
  | inl i ↦ inl (m, rw i at h)
  | inr a ↦ elim (Bool-cases (bytes_eq seg.attr k)) [
    | inl same ↦ inr ((bytes_eq_iff seg.attr k).0 same)
    | inr other ↦
        inl (m, rw (find_child-update_child k seg.attr (add_path segs) c, other) at (rw a at h))
  ]
]

add_paths-child :
    (k : Bytes) (paths : List (List ProjSegment)) (n m : ProjNode)
    → find_child k (children_of (add_paths paths n)) ≡ some m
    → ((l : ProjNode) × (find_child k (children_of n) ≡ some l)) ⊎ Any (Begins k) paths
unfolding add_paths
add_paths-child k [] n m h = inl (m, h)
add_paths-child k (segs ∷ paths) n m h = elim (add_paths-child k paths (add_path segs n) m h) [
  | inr later ↦ inr (inr later)
  | inl (l, e) ↦ elim (add_path-child k segs n l e) [
    | inl before ↦ inl before
    | inr begins ↦ inr (inl begins)
  ]
]

get-apply :
    (k : Bytes) (n : ProjNode) (item : Fields)
    → get k (apply n item) ≡ projected (find_child k (children_of n)) (get k item)
get-apply k (node leaf c x) item = rw (apply-children leaf c x item) (get-project_children k c item)

-- A projection has an attribute only if the item has it and one of the paths begins with it.
pub apply-only :
    (k : Bytes) (paths : List (List ProjSegment)) (item : Fields) (w : Json)
    → get k (apply (add_paths paths empty_node) item) ≡ some w
    → ((v : Json) × (get k item ≡ some v)) × Any (Begins k) paths
apply-only k paths item w h =
    by_parts (find_child k (children_of (add_paths paths empty_node))) (get k item) refl refl
      (rw (get-apply k (add_paths paths empty_node) item) at h)
  where
    from_path :
        ((l : ProjNode) × (find_child k no_child ≡ some l)) ⊎ Any (Begins k) paths
        → Any (Begins k) paths
    from_path (inl (l, e)) = unfold find_child in cc
    from_path (inr p) = p

    by_parts :
        (o : Option ProjNode) (v : Option Json)
        → find_child k (children_of (add_paths paths empty_node)) ≡ o
        → get k item ≡ v
        → projected o v ≡ some w
        → ((v : Json) × (get k item ≡ some v)) × Any (Begins k) paths
    by_parts none v e q p = cc
    by_parts (some n) none e q p = cc
    by_parts (some n) (some v) e q p = ((v, q), from_path (add_paths-child k paths empty_node n e))
