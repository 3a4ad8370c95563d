-- ===== src/Dynamo/Projection/Tree.antt =====
-- The projection tree of internal/dynamodb/expression.go, and the paths that were added to it.
use kumolo.Prelude.{
  ◌≡◌, ◌∙◌, All, Any, refl, inl, inr, true, false, Option, none, some, List, [], ◌∷◌, map, arith,
  Bool-cases, if◌then◌else◌,
}
use kumolo.Prelude.Bytes.{Bytes, bytes_eq, bytes_eq_refl, bytes_eq_iff}
use kumolo.Dynamo.Operand.{ProjSegment, attr_step, is_empty}
use kumolo.Dynamo.Projection.{
  ProjNode, node, Children, no_child, child, no_index, empty_node, update_child, add_path,
  add_paths,
}

unfoldable pub find_child : Bytes → Children → Option ProjNode
find_child k no_child = none
find_child k (child j n c) = if bytes_eq j k then some n else find_child k c

-- The tree takes the value at the attribute path `ks` whole.
abbrev pub Selects : List Bytes → ProjNode → Type 0
Selects ks (node true c x) = (c ≡ no_child) × (x ≡ no_index)
Selects [] (node false c x) = ⊥
Selects (k ∷ ks) (node false c x) = (n : ProjNode) × (find_child k c ≡ some n) × Selects ks n

pub find_child-update_child :
    (k j : Bytes) (f : ProjNode → ProjNode) (c : Children)
    → find_child k (update_child j f c) ≡ (
        if bytes_eq j k
        then some (f (elim (find_child k c) [ none ↦ empty_node | some n ↦ n ]))
        else find_child k c)
unfolding find_child update_child
find_child-update_child k j f no_child = ground arith
find_child-update_child k j f (child i n c) =
    ground
      (arith, find_child-update_child k j f c, bytes_eq_iff j k, bytes_eq_iff i j, bytes_eq_iff i k)

-- Leaves have no children: every tree that paths were added to is so.
abbrev mutual
  pub IsTree : ProjNode → Type 0
  IsTree (node true c x) = (c ≡ no_child) × (x ≡ no_index)
  IsTree (node false c x) = AreTrees c

  pub AreTrees : Children → Type 0
  AreTrees no_child = Unit
  AreTrees (child k n c) = IsTree n × AreTrees c

-- A child, or the new node in its place.
abbrev child_or_new : Option ProjNode → ProjNode
child_or_new o = elim o [ none ↦ empty_node | some n ↦ n ]

find_child-IsTree : (k : Bytes) (c : Children) → AreTrees c → IsTree (child_or_new (find_child k c))
unfolding find_child
find_child-IsTree k no_child h = tt
find_child-IsTree k (child j n c) h = elim (Bool-cases (bytes_eq j k)) [
  | inl e ↦ rw e h.0
  | inr e ↦ rw e (find_child-IsTree k c h.1)
]

update_child-AreTrees :
    (k : Bytes) (f : ProjNode → ProjNode) (c : Children)
    → ((n : ProjNode) → IsTree n → IsTree (f n))
    → AreTrees c
    → AreTrees (update_child k f c)
unfolding update_child
update_child-AreTrees k f no_child g h = (g empty_node tt, tt)
update_child-AreTrees k f (child j n c) g h = elim (Bool-cases (bytes_eq j k)) [
  | inl e ↦ rw e (g n h.0, h.1)
  | inr e ↦ rw e (h.0, update_child-AreTrees k f c g h.1)
]

add_path-IsTree : (segs : List ProjSegment) (n : ProjNode) → IsTree n → IsTree (add_path segs n)
unfolding add_path
add_path-IsTree [] (node true c x) h = h
add_path-IsTree [] (node false c x) h = (refl, refl)
add_path-IsTree (seg ∷ segs) (node true c x) h = h
add_path-IsTree (seg ∷ segs) (node false c x) h = elim (Bool-cases (is_empty seg.attr)) [
  | inl e ↦ rw e h
  | inr e ↦ rw e (update_child-AreTrees seg.attr (add_path segs) c (add_path-IsTree segs) h)
]

-- A path that is added is selected.
add_path-Selects :
    (ks : List Bytes) (n : ProjNode)
    → All (λ k. is_empty k ≡ false) ks
    → IsTree n
    → Selects ks (add_path (map attr_step ks) n)
unfolding add_path
add_path-Selects [] (node true c x) ne h = h
add_path-Selects [] (node false c x) ne h = (refl, refl)
add_path-Selects (k ∷ ks) (node true c x) ne h = h
add_path-Selects (k ∷ ks) (node false c x) ne h = rw ne.0 (
  add_path (map attr_step ks) (child_or_new (find_child k c)),
  find_child-update_child k k (add_path (map attr_step ks)) c ∙ rw (bytes_eq_refl k) refl,
  add_path-Selects ks (child_or_new (find_child k c)) ne.1 (find_child-IsTree k c h),
)

-- A path that is selected stays so, whatever is added.
add_path-keeps :
    (ks : List Bytes) (segs : List ProjSegment) (n : ProjNode)
    → Selects ks n
    → Selects ks (add_path segs n)
unfolding add_path
add_path-keeps ks segs (node true c x) h = h
add_path-keeps [] segs (node false c x) h = absurd h
add_path-keeps (k ∷ ks) [] (node false c x) h = (refl, refl)
add_path-keeps (k ∷ ks) (seg ∷ segs) (node false c x) (n, e, s) =
    elim (Bool-cases (is_empty seg.attr)) [
      | inl i ↦ rw i (n, e, s)
      | inr a ↦ rw a (elim (Bool-cases (bytes_eq seg.attr k)) [
        | inl same ↦ (
          add_path segs n,
          find_child-update_child k seg.attr (add_path segs) c ∙ rw (same, e),
          add_path-keeps ks segs n s,
        )
        | inr other ↦ (n, find_child-update_child k seg.attr (add_path segs) c ∙ rw other e, s)
      ])
    ]

add_paths-keeps :
    (ks : List Bytes) (paths : List (List ProjSegment)) (n : ProjNode)
    → Selects ks n
    → Selects ks (add_paths paths n)
unfolding add_paths
add_paths-keeps ks [] n h = h
add_paths-keeps ks (segs ∷ paths) n h =
    add_paths-keeps ks paths (add_path segs n) (add_path-keeps ks segs n h)

-- Every attribute path among those that are added is selected, in whatever order they come.
pub add_paths-Selects :
    (ks : List Bytes) (paths : List (List ProjSegment)) (n : ProjNode)
    → All (λ k. is_empty k ≡ false) ks
    → IsTree n
    → Any (λ p. p ≡ map attr_step ks) paths
    → Selects ks (add_paths paths n)
unfolding add_paths
add_paths-Selects ks [] n ne t h = absurd h
add_paths-Selects ks (segs ∷ paths) n ne t (inl e) =
    add_paths-keeps ks paths (add_path segs n) (rw e (add_path-Selects ks n ne t))
add_paths-Selects ks (segs ∷ paths) n ne t (inr h) =
    add_paths-Selects ks paths (add_path segs n) ne (add_path-IsTree segs n t) h
