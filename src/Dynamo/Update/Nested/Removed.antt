-- ===== src/Dynamo/Update/Nested/Removed.antt =====
-- What a nested REMOVE changes of an item: the place that the path leads to.
use kumolo.Prelude.{
  ◌≡◌, ◌⊎◌, ◌∙◌, ap, refl, inl, inr, false, Option, none, some, List, [], ◌∷◌, ok, panic, ◌>>=◌,
  bind-eq-ok,
}
use kumolo.Prelude.Bytes.{Bytes, codes, bytes_eq}
use kumolo.Dynamo.Value.{Json, null, obj, Fields, get, put}
use kumolo.Dynamo.Operand.{ProjSegment, is_empty}
use kumolo.Dynamo.Update.{Updated}
use kumolo.Dynamo.Update.Nested.{
  must_map, put_or_delete, remove_in_map, remove_at, apply_nested_remove, update_round, update_walk,
  resolve_update_path,
}
use kumolo.Dynamo.Update.Nested.Rounds.{
  IsAttrPath, Diverges, written, must_map-ok, update_round-map, update_round-written,
  update_walk-written, resolve_update_path-written, put_or_delete-place,
}

-- The change finds nothing to remove in the map `m`, and is not made.
abbrev Missed : ProjSegment → Fields → Option Json → Type 0
Missed seg m r = (update_round seg (obj m) ≡ ok none) × (r ≡ some (obj m))

-- The map `m` with what the change leaves of its entry.
abbrev Left : ProjSegment → (Json → Updated (Option Json)) → Fields → Option Json → Type 0
Left seg change m r =
    (old : Json) × (left : Option Json) × (inner : Fields) × (change old ≡ ok left)
    × (get (codes "M") m ≡ some (obj inner))
    × (get seg.attr inner ≡ some old)
    × (r ≡ some (written seg.attr left inner m))

remove_in_map-Left :
    (seg : ProjSegment) (change : Json → Updated (Option Json)) (m : Fields) (r : Option Json)
    → is_empty seg.attr ≡ false
    → remove_in_map seg.attr change m ≡ ok r
    → Missed seg m r ⊎ Left seg change m r
unfolding remove_in_map update_round
remove_in_map-Left seg change m r n h = by_raw (get (codes "M") m) refl h
  where
    by_inner :
        (inner : Fields) (o : Option Json)
        → get (codes "M") m ≡ some (obj inner)
        → get seg.attr inner ≡ o
        → elim o [
          | none ↦ ok (some (obj m))
          | some old ↦ do
            left ← change old
            ok (some (obj (put (codes "M") (obj (put_or_delete seg.attr left inner)) m)))
        ]
          ≡ ok r
        → Missed seg m r ⊎ Left seg change m r
    by_inner inner none g q e = inl (update_round-map seg inner m n g ∙ ap ok q, cc)
    by_inner inner (some old) g q e =
        let (left, c, p) = bind-eq-ok (change old) _ e in inr (old, left, inner, c, g, q, cc)

    by_raw :
        (o : Option Json)
        → get (codes "M") m ≡ o
        → elim o [
          | none ↦ ok (some (obj m))
          | some raw ↦ do
            inner ← must_map raw
            elim (get seg.attr inner) [
              | none ↦ ok (some (obj m))
              | some old ↦ do
                left ← change old
                ok (some (obj (put (codes "M") (obj (put_or_delete seg.attr left inner)) m)))
            ]
        ]
          ≡ ok r
        → Missed seg m r ⊎ Left seg change m r
    by_raw none q e = inl (rw (n, q) refl, cc)
    by_raw (some raw) q e =
        let (inner, i, e1) = bind-eq-ok (must_map raw) _ e in
        by_inner inner (get seg.attr inner) (q ∙ ap some (must_map-ok raw inner i)) refl e1

-- A REMOVE below a map changes the entry of its first step, or nothing.
remove_at-Left :
    (seg : ProjSegment) (rest : List ProjSegment) (v : Json) (r : Option Json)
    → is_empty seg.attr ≡ false
    → remove_at (seg ∷ rest) v ≡ ok r
    → (m : Fields) × (v ≡ obj m) × (Missed seg m r ⊎ Left seg (remove_at rest) m r)
unfolding remove_at
remove_at-Left seg rest v r n h =
    let (m, i, e) = bind-eq-ok (must_map v) _ h in
    (m, must_map-ok v m i, remove_in_map-Left seg (remove_at rest) m r n (rw n at e))

remove_at-update_walk :
    (segs : List ProjSegment) (v : Json) (r : Option Json)
    → IsAttrPath segs
    → remove_at segs v ≡ ok r
    → update_walk segs r ≡ ok null
unfolding remove_at update_walk
remove_at-update_walk [] v none a h = refl
remove_at-update_walk [] v (some w) a h = cc
remove_at-update_walk (seg ∷ rest) v r a h =
    let (m, _, change) = remove_at-Left seg rest v r a.0 h in
    elim change [
      | inl (u, q) ↦ rw (q, u) refl
      | inr (old, left, inner, c, _, _, q) ↦
          rw (q, update_round-written seg seg.attr left inner m a.0 refl)
            (remove_at-update_walk rest old left a.1 c)
    ]

-- A path that diverges leads where it led before.
remove_at-Diverges :
    (segs qs : List ProjSegment) (v : Json) (r : Option Json)
    → IsAttrPath segs
    → Diverges segs qs
    → remove_at segs v ≡ ok r
    → update_walk qs r ≡ update_walk qs (some v)
unfolding remove_at update_walk
remove_at-Diverges [] qs v r a d h = absurd d
remove_at-Diverges (seg ∷ rest) [] v r a d h = absurd d
remove_at-Diverges (seg ∷ rest) (q ∷ qs) v r a d h =
    let (m, e, change) = remove_at-Left seg rest v r a.0 h in
    elim change [
      | inl (_, same) ↦ rw (same, e) refl
      | inr (old, left, inner, c, g, p, w) ↦
          rw (w, e)
            (update_walk-written seg q qs left inner m a.0 g (elim d [
              | inl apart ↦ inl apart
              | inr (same, below) ↦
                  inr (same, rw p (remove_at-Diverges rest qs old left a.1 below c))
            ]))
    ]

-- What a nested REMOVE does to the item: nothing where the first attribute is missing.
apply_nested_remove-remove_at :
    (item changed : Fields) (seg : ProjSegment) (segs : List ProjSegment)
    → apply_nested_remove item (seg ∷ segs) ≡ ok changed
    → ((get seg.attr item ≡ none) × (changed ≡ item))
      ⊎ ((parent : Json) × (left : Option Json) × (get seg.attr item ≡ some parent)
          × (remove_at segs parent ≡ ok left)
          × (changed ≡ put_or_delete seg.attr left item))
unfolding apply_nested_remove
apply_nested_remove-remove_at item changed seg [] h = by_parent (get seg.attr item) refl h
  where
    by_parent :
        (o : Option Json)
        → get seg.attr item ≡ o
        → elim o as (λ _. Updated Fields) [ none ↦ ok item | some parent ↦ panic ] ≡ ok changed
        → ((get seg.attr item ≡ none) × (changed ≡ item))
          ⊎ ((parent : Json) × (left : Option Json) × (get seg.attr item ≡ some parent)
              × (remove_at [] parent ≡ ok left)
              × (changed ≡ put_or_delete seg.attr left item))
    by_parent none q e = inl (q, cc)
    by_parent (some parent) q e = cc
apply_nested_remove-remove_at item changed seg (next ∷ rest) h =
    by_parent (get seg.attr item) refl h
  where
    by_parent :
        (o : Option Json)
        → get seg.attr item ≡ o
        → elim o [
          | none ↦ ok item
          | some parent ↦ do
            left ← remove_at (next ∷ rest) parent
            ok (put_or_delete seg.attr left item)
        ]
          ≡ ok changed
        → ((get seg.attr item ≡ none) × (changed ≡ item))
          ⊎ ((parent : Json) × (left : Option Json) × (get seg.attr item ≡ some parent)
              × (remove_at (next ∷ rest) parent ≡ ok left)
              × (changed ≡ put_or_delete seg.attr left item))
    by_parent none q e = inl (q, cc)
    by_parent (some parent) q e =
        let (left, s, p) = bind-eq-ok (remove_at (next ∷ rest) parent) _ e in
        inr (parent, left, q, s, cc)

-- A nested REMOVE that succeeds, along attribute steps, makes the path lead to nothing, changes no
-- other attribute of the item, and leaves every path that diverges from it, at the item or inside a
-- nested map, leading to what it led to before.
pub apply_nested_remove-resolve_update_path :
    (item changed : Fields) (seg : ProjSegment) (segs : List ProjSegment)
    → IsAttrPath segs
    → apply_nested_remove item (seg ∷ segs) ≡ ok changed
    → (resolve_update_path changed (seg ∷ segs) ≡ ok null)
      × ((j : Bytes) → bytes_eq seg.attr j ≡ false → get j changed ≡ get j item)
      × ((other : List ProjSegment)
          → Diverges (seg ∷ segs) other
          → resolve_update_path changed other ≡ resolve_update_path item other)
unfolding resolve_update_path update_walk
apply_nested_remove-resolve_update_path item changed seg segs a h =
    elim (apply_nested_remove-remove_at item changed seg segs h) [
      | inl (missing, same) ↦ (rw (same, missing) refl, (λ j d. rw same refl), λ o d. rw same refl)
      | inr (parent, left, q, s, w) ↦ (
        rw (put_or_delete-place seg.attr left item changed w).0
            (remove_at-update_walk segs parent left a s),
        (put_or_delete-place seg.attr left item changed w).1,
        resolve_update_path-written item changed seg segs left w
            λ qs d. rw q (remove_at-Diverges segs qs parent left a d s),
      )
    ]
