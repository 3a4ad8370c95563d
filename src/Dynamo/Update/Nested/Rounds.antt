-- ===== src/Dynamo/Update/Nested/Rounds.antt =====
-- One round of a document path at a map whose attribute was written: the loop of resolveUpdatePath
-- after a step of setAtDynamoValue or removeAtDynamoValue.
use kumolo.Prelude.{
  ◌≡◌, ◌⊎◌, ◌∙◌, sym, ap, refl, inl, inr, false, Bool-cases, Option, none, some, List, [], ◌∷◌, All,
  ok,
}
use kumolo.Prelude.Bytes.{Bytes, codes, bytes_eq, bytes_eq_refl}
use kumolo.Dynamo.Value.{
  Json, null, bool, num, str, arr, obj, Fields, get, put, get-put, get-delete,
}
use kumolo.Dynamo.Operand.{ProjSegment, is_empty}
use kumolo.Dynamo.Update.Nested.{
  must_map, put_or_delete, update_round, update_walk, resolve_update_path,
}

get-put_same : (k : Bytes) (v : Json) (m : Fields) → get k (put k v m) ≡ some v
get-put_same k v m = rw (get-put k k v m, bytes_eq_refl k) refl

get-put_other :
    (k j : Bytes) (v : Json) (m : Fields) → bytes_eq k j ≡ false → get j (put k v m) ≡ get j m
get-put_other k j v m h = rw (get-put k j v m, h) refl

get-put_or_delete : (k : Bytes) (o : Option Json) (m : Fields) → get k (put_or_delete k o m) ≡ o
unfolding put_or_delete
get-put_or_delete k none m = rw (get-delete k k m, bytes_eq_refl k) refl
get-put_or_delete k (some v) m = get-put_same k v m

get-put_or_delete_other :
    (k j : Bytes) (o : Option Json) (m : Fields)
    → bytes_eq k j ≡ false
    → get j (put_or_delete k o m) ≡ get j m
unfolding put_or_delete
get-put_or_delete_other k j none m h = rw (get-delete k j m, h) refl
get-put_or_delete_other k j (some v) m h = get-put_other k j v m h

pub put_or_delete-place :
    (k : Bytes) (o : Option Json) (item changed : Fields)
    → changed ≡ put_or_delete k o item
    → (get k changed ≡ o) × ((j : Bytes) → bytes_eq k j ≡ false → get j changed ≡ get j item)
put_or_delete-place k o item changed q =
    (rw q (get-put_or_delete k o item), λ j d. rw q (get-put_or_delete_other k j o item d))

-- Each segment is an attribute step.
abbrev pub IsAttrPath : List ProjSegment → Type 0
IsAttrPath = All (λ s. is_empty s.attr ≡ false)

-- The second path leaves the attribute path at some step: for another attribute, or for an element
-- of a list.
abbrev pub Diverges : List ProjSegment → List ProjSegment → Type 0
Diverges (p ∷ ps) (q ∷ qs) = (bytes_eq p.attr q.attr ≡ false) ⊎ ((p.attr ≡ q.attr) × Diverges ps qs)
Diverges _ _ = ⊥

pub must_map-ok : (v : Json) (m : Fields) → must_map v ≡ ok m → v ≡ obj m
must_map-ok (obj fields) m h = ap obj cc
must_map-ok null m h = cc
must_map-ok (bool b) m h = cc
must_map-ok (num n) m h = cc
must_map-ok (str s) m h = cc
must_map-ok (arr xs) m h = cc

-- The typed map `m`, whose entries are `inner`, with `o` as the entry `a`.
abbrev pub written : Bytes → Option Json → Fields → Fields → Json
written a o inner m = obj (put (codes "M") (obj (put_or_delete a o inner)) m)

pub update_round-map :
    (q : ProjSegment) (inner m : Fields)
    → is_empty q.attr ≡ false
    → get (codes "M") m ≡ some (obj inner)
    → update_round q (obj m) ≡ ok (get q.attr inner)
unfolding update_round
update_round-map q inner m h g = rw (h, g) refl

-- A round for the written entry finds what was written.
pub update_round-written :
    (q : ProjSegment) (a : Bytes) (o : Option Json) (inner m : Fields)
    → is_empty q.attr ≡ false
    → a ≡ q.attr
    → update_round q (written a o inner m) ≡ ok o
update_round-written q a o inner m h e =
    update_round-map q (put_or_delete a o inner) _ h (get-put_same (codes "M") _ m)
    ∙ ap ok (ap (λ k. get k (put_or_delete a o inner)) (sym e) ∙ get-put_or_delete a o inner)

-- A round for another entry, or for an element of a list, finds what it found before.
pub update_round-other :
    (q : ProjSegment) (a : Bytes) (o : Option Json) (inner m : Fields)
    → get (codes "M") m ≡ some (obj inner)
    → bytes_eq a q.attr ≡ false
    → update_round q (written a o inner m) ≡ update_round q (obj m)
unfolding update_round bytes_eq
update_round-other q a o inner m g d = elim (Bool-cases (is_empty q.attr)) [
  | inl e ↦
      rw (e, get-put_other (codes "M") (codes "L") (obj (put_or_delete a o inner)) m refl) refl
  | inr e ↦
      update_round-map q (put_or_delete a o inner) _ e (get-put_same (codes "M") _ m)
      ∙ ap ok (get-put_or_delete_other a q.attr o inner d)
      ∙ sym (update_round-map q inner m e g)
]

-- A path that diverges at the written entry, or below it where the walk there is as before, leads
-- where it led before.
pub update_walk-written :
    (p q : ProjSegment) (qs : List ProjSegment) (o : Option Json) (inner m : Fields)
    → is_empty p.attr ≡ false
    → get (codes "M") m ≡ some (obj inner)
    → (bytes_eq p.attr q.attr ≡ false)
      ⊎ ((p.attr ≡ q.attr) × (update_walk qs o ≡ update_walk qs (get p.attr inner)))
    → update_walk (q ∷ qs) (some (written p.attr o inner m)) ≡ update_walk (q ∷ qs) (some (obj m))
unfolding update_walk
update_walk-written p q qs o inner m h g (inl d) =
    rw (update_round-other q p.attr o inner m g d) refl
update_walk-written p q qs o inner m h g (inr (e, w)) =
    let n : is_empty q.attr ≡ false = ap is_empty (sym e) ∙ h in
    rw (update_round-written q p.attr o inner m n e, update_round-map q inner m n g, sym e) w

-- An item whose attribute was written, and where the walks below it are as before.
pub resolve_update_path-written :
    (item changed : Fields) (seg : ProjSegment) (segs : List ProjSegment) (o : Option Json)
    → changed ≡ put_or_delete seg.attr o item
    → ((qs : List ProjSegment)
        → Diverges segs qs
        → update_walk qs o ≡ update_walk qs (get seg.attr item))
    → (other : List ProjSegment) → Diverges (seg ∷ segs) other
    → resolve_update_path changed other ≡ resolve_update_path item other
unfolding resolve_update_path
resolve_update_path-written item changed seg segs o e below [] d = absurd d
resolve_update_path-written item changed seg segs o e below (q ∷ qs) (inl d) =
    ap (update_walk qs) ((put_or_delete-place seg.attr o item changed e).1 q.attr d)
resolve_update_path-written item changed seg segs o e below (q ∷ qs) (inr (s, d)) =
    ap (λ k. update_walk qs (get k changed)) (sym s)
    ∙ ap (update_walk qs) (put_or_delete-place seg.attr o item changed e).0
    ∙ below qs d
    ∙ ap (λ k. update_walk qs (get k item)) s
