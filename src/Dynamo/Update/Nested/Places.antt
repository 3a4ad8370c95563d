-- ===== src/Dynamo/Update/Nested/Places.antt =====
-- What a nested SET changes of an item: the place that the path leads to.
use kumolo.Prelude.{
  ◌≡◌, ◌∙◌, ap, refl, inl, inr, false, Option, none, some, List, [], ◌∷◌, ok, err, panic, ◌>>=◌,
  bind-eq-ok,
}
use kumolo.Prelude.Bytes.{Bytes, codes, bytes_eq}
use kumolo.Dynamo.Value.{Json, obj, Fields, get, put}
use kumolo.Dynamo.Operand.{ProjSegment, is_empty}
use kumolo.Dynamo.Update.{Updated, invalid_path}
use kumolo.Dynamo.Update.Nested.{
  must_map, set_in_map, set_at, apply_nested_set, put_or_delete, update_walk, resolve_update_path,
}
use kumolo.Dynamo.Update.Nested.Rounds.{
  IsAttrPath, Diverges, written, must_map-ok, update_walk-written, update_round-written,
  resolve_update_path-written, put_or_delete-place,
}

-- The value `v` is the map `m` with what the change gives as the entry `a`.
abbrev SetIn : Bytes → (Option Json → Updated Json) → Fields → Json → Type 0
SetIn a change m v =
    (new : Json) × (inner : Fields) × (change (get a inner) ≡ ok new)
    × (get (codes "M") m ≡ some (obj inner))
    × (v ≡ written a (some new) inner m)

set_in_map-SetIn :
    (a : Bytes) (change : Option Json → Updated Json) (m : Fields) (v : Json)
    → set_in_map a change m ≡ ok v
    → SetIn a change m v
unfolding set_in_map put_or_delete
set_in_map-SetIn a change m v h = by_raw (get (codes "M") m) refl h
  where
    by_raw :
        (o : Option Json)
        → get (codes "M") m ≡ o
        → elim o [
          | none ↦ err invalid_path
          | some raw ↦ do
            inner ← must_map raw
            new ← change (get a inner)
            ok (obj (put (codes "M") (obj (put a new inner)) m))
        ]
          ≡ ok v
        → SetIn a change m v
    by_raw none g e = cc
    by_raw (some raw) g e =
        let (inner, i, e1) = bind-eq-ok (must_map raw) _ e in
        let (new, c, e2) = bind-eq-ok (change (get a inner)) _ e1 in
        (new, inner, c, g ∙ ap some (must_map-ok raw inner i), cc)

-- A SET below a map writes the entry of its first step.
set_at-SetIn :
    (seg : ProjSegment) (rest : List ProjSegment) (new w v : Json)
    → is_empty seg.attr ≡ false
    → set_at (seg ∷ rest) new (some w) ≡ ok v
    → (m : Fields) × (w ≡ obj m) × SetIn seg.attr (set_at rest new) m v
unfolding set_at
set_at-SetIn seg rest new w v a h =
    let (m, i, e) = bind-eq-ok (must_map w) _ h in
    (m, must_map-ok w m i, set_in_map-SetIn seg.attr (set_at rest new) m v (rw a at e))

set_at-update_walk :
    (segs : List ProjSegment) (new : Json) (old : Option Json) (v : Json)
    → IsAttrPath segs
    → set_at segs new old ≡ ok v
    → update_walk segs (some v) ≡ ok new
unfolding set_at update_walk
set_at-update_walk [] new old v a h = cc
set_at-update_walk (seg ∷ rest) new none v a h = cc
set_at-update_walk (seg ∷ rest) new (some w) v a h =
    let (m, _, (child, inner, c, _, q)) = set_at-SetIn seg rest new w v a.0 h in
    rw (q, update_round-written seg seg.attr (some child) inner m a.0 refl)
      (set_at-update_walk rest new (get seg.attr inner) child a.1 c)

-- A path that diverges leads where it led before.
set_at-Diverges :
    (segs qs : List ProjSegment) (new : Json) (old : Option Json) (v : Json)
    → IsAttrPath segs
    → Diverges segs qs
    → set_at segs new old ≡ ok v
    → update_walk qs (some v) ≡ update_walk qs old
unfolding set_at update_walk
set_at-Diverges [] qs new old v a d h = absurd d
set_at-Diverges (seg ∷ rest) [] new old v a d h = absurd d
set_at-Diverges (seg ∷ rest) (q ∷ qs) new none v a d h = cc
set_at-Diverges (seg ∷ rest) (q ∷ qs) new (some w) v a d h =
    let (m, e, (child, inner, c, g, r)) = set_at-SetIn seg rest new w v a.0 h in
    rw (r, e)
      (update_walk-written seg q qs (some child) inner m a.0 g (elim d [
        | inl apart ↦ inl apart
        | inr (same, below) ↦
            inr (same, set_at-Diverges rest qs new (get seg.attr inner) child a.1 below c)
      ]))

-- What a nested SET writes, the item having the first attribute.
apply_nested_set-set_at :
    (item changed : Fields) (seg : ProjSegment) (segs : List ProjSegment) (new : Json)
    → apply_nested_set item (seg ∷ segs) new ≡ ok changed
    → (v : Json) × (set_at segs new (get seg.attr item) ≡ ok v)
      × (changed ≡ put_or_delete seg.attr (some v) item)
unfolding apply_nested_set put_or_delete
apply_nested_set-set_at item changed seg [] new h = absurd (refused (get seg.attr item) h)
  where
    refused :
        (o : Option Json)
        → elim o as (λ _. Updated Fields) [ none ↦ err invalid_path | some parent ↦ panic ]
          ≡ ok changed
        → ⊥
    refused none e = cc
    refused (some parent) e = cc
apply_nested_set-set_at item changed seg (next ∷ rest) new h = by_parent (get seg.attr item) refl h
  where
    by_parent :
        (o : Option Json)
        → get seg.attr item ≡ o
        → elim o [
          | none ↦ err invalid_path
          | some parent ↦ do v ← set_at (next ∷ rest) new (some parent); ok (put seg.attr v item)
        ]
          ≡ ok changed
        → (v : Json) × (set_at (next ∷ rest) new (get seg.attr item) ≡ ok v)
          × (changed ≡ put seg.attr v item)
    by_parent none q e = cc
    by_parent (some parent) q e =
        let (v, s, p) = bind-eq-ok (set_at (next ∷ rest) new (some parent)) _ e in (v, rw q s, cc)

-- A nested SET that succeeds, along attribute steps, makes the path lead to the new value, changes
-- no other attribute of the item, and leaves every path that diverges from it, at the item or inside
-- a nested map, leading to what it led to before.
pub apply_nested_set-resolve_update_path :
    (item changed : Fields) (seg : ProjSegment) (segs : List ProjSegment) (new : Json)
    → IsAttrPath segs
    → apply_nested_set item (seg ∷ segs) new ≡ ok changed
    → (resolve_update_path changed (seg ∷ segs) ≡ ok new)
      × ((j : Bytes) → bytes_eq seg.attr j ≡ false → get j changed ≡ get j item)
      × ((other : List ProjSegment)
          → Diverges (seg ∷ segs) other
          → resolve_update_path changed other ≡ resolve_update_path item other)
unfolding resolve_update_path
apply_nested_set-resolve_update_path item changed seg segs new a h =
    let (v, s, w) = apply_nested_set-set_at item changed seg segs new h in
    let (at, others) = put_or_delete-place seg.attr (some v) item changed w in
    (
      rw at (set_at-update_walk segs new (get seg.attr item) v a s),
      others,
      resolve_update_path-written item changed seg segs (some v) w
          λ qs d. set_at-Diverges segs qs new (get seg.attr item) v a d s,
    )
