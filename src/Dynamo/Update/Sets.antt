-- ===== src/Dynamo/Update/Sets.antt =====
-- setUnion and setDifference as sets of the texts that json.Marshal gives their elements.
use kumolo.Prelude.{
  ◌≡◌, refl, ap, inl, inr, Bool, true, false, not, ◌&&◌, ◌||◌, List, [], ◌∷◌, ◌++◌, arith,
  Bool-cases,
}
use kumolo.Prelude.Bytes.{Bytes, bytes_eq, bytes_eq→≡, bytes_eq_refl}
use kumolo.Dynamo.Value.{Json, Platform}
use kumolo.Dynamo.Update.{
  is_seen, append_unseen, set_union, removed_keys, keep_others, set_difference,
}

is_seen-same : (a k : Bytes) (ws : List Bytes) → bytes_eq a k ≡ true → is_seen a ws ≡ is_seen k ws
is_seen-same a k ws h = ap (λ z. is_seen z ws) (bytes_eq→≡ a k h)

module _ (P : Platform) where
  -- An element of the list has the text `k`.
  abbrev pub has_text : Bytes → List Json → Bool
  has_text k [] = false
  has_text k (v ∷ vs) = bytes_eq (P.marshal v) k || has_text k vs

  -- No two elements have one text.
  abbrev pub distinct : List Json → Bool
  distinct [] = true
  distinct (v ∷ vs) = not (has_text (P.marshal v) vs) && distinct vs

  is_seen-removed_keys :
      (k : Bytes) (vs : List Json) → is_seen k (removed_keys P vs) ≡ has_text k vs
  unfolding is_seen removed_keys
  is_seen-removed_keys k [] = refl
  is_seen-removed_keys k (v ∷ vs) =
      ap (λ z. bytes_eq (P.marshal v) k || z) (is_seen-removed_keys k vs)

  has_text-keep_others :
      (k : Bytes) (r : List Bytes) (vs : List Json)
      → has_text k (keep_others P r vs) ≡ (has_text k vs && not (is_seen k r))
  unfolding keep_others
  has_text-keep_others k r [] = refl
  has_text-keep_others k r (v ∷ vs) =
      let ih = has_text-keep_others k r vs in
      let same = is_seen-same (P.marshal v) k r in ground (arith, ih, same)

  -- setDifference(a, b) holds exactly the texts that a has and b has not.
  pub has_text-set_difference :
      (k : Bytes) (a b : List Json)
      → has_text k (set_difference P a b) ≡ (has_text k a && not (has_text k b))
  unfolding set_difference
  has_text-set_difference k a b =
      rw (has_text-keep_others k (removed_keys P b) a) (rw (is_seen-removed_keys k b) refl)

  has_text-append :
      (k : Bytes) (a b : List Json) → has_text k (a ++ b) ≡ (has_text k a || has_text k b)
  has_text-append k [] b = refl
  has_text-append k (v ∷ vs) b = let ih = has_text-append k vs b in ground (arith, ih)

  -- What a loop of setUnion has seen after it, and what it appended.
  seen-append_unseen :
      (k : Bytes) (seen : List Bytes) (vs : List Json)
      → is_seen k (append_unseen P seen vs).0 ≡ (is_seen k seen || has_text k vs)
  unfolding append_unseen is_seen
  seen-append_unseen k seen [] = ground (arith)
  seen-append_unseen k seen (v ∷ vs) =
      let same = is_seen-same (P.marshal v) k seen in
      elim (Bool-cases (is_seen (P.marshal v) seen)) [
        | inl s ↦ rw s (let ih = seen-append_unseen k seen vs in ground (arith, ih, same))
        | inr n ↦ rw n (let ih = seen-append_unseen k (P.marshal v ∷ seen) vs in ground (arith, ih))
      ]

  has_text-append_unseen :
      (k : Bytes) (seen : List Bytes) (vs : List Json)
      → has_text k (append_unseen P seen vs).1 ≡ (has_text k vs && not (is_seen k seen))
  unfolding append_unseen is_seen
  has_text-append_unseen k seen [] = refl
  has_text-append_unseen k seen (v ∷ vs) =
      let same = is_seen-same (P.marshal v) k seen in
      elim (Bool-cases (is_seen (P.marshal v) seen)) [
        | inl s ↦ rw s (let ih = has_text-append_unseen k seen vs in ground (arith, ih, same))
        | inr n ↦
            rw n (
              let ih = has_text-append_unseen k (P.marshal v ∷ seen) vs in ground (arith, ih, same))
      ]

  -- setUnion(a, b) holds exactly the texts that a or b has.
  pub has_text-set_union :
      (k : Bytes) (a b : List Json) → has_text k (set_union P a b) ≡ (has_text k a || has_text k b)
  unfolding set_union is_seen
  has_text-set_union k a b =
      let seen = (append_unseen P [] a).0 in
      let first = (append_unseen P [] a).1 in
      let second = (append_unseen P seen b).1 in
      let in_both = has_text-append k first second in
      let in_first = has_text-append_unseen k [] a in
      let in_second = has_text-append_unseen k seen b in
      let in_seen = seen-append_unseen k [] a in
      ground (arith, in_both, in_first, in_second, in_seen)

  distinct-append_unseen :
      (seen : List Bytes) (vs : List Json) → distinct (append_unseen P seen vs).1 ≡ true
  unfolding append_unseen is_seen
  distinct-append_unseen seen [] = refl
  distinct-append_unseen seen (v ∷ vs) = elim (Bool-cases (is_seen (P.marshal v) seen)) [
    | inl s ↦ rw s (distinct-append_unseen seen vs)
    | inr n ↦ rw n (
        let ih = distinct-append_unseen (P.marshal v ∷ seen) vs in
        let absent = has_text-append_unseen (P.marshal v) (P.marshal v ∷ seen) vs in
        let same = bytes_eq_refl (P.marshal v) in ground (arith, ih, absent, same))
  ]

  disjoint : List Json → List Json → Bool
  disjoint [] b = true
  disjoint (v ∷ vs) b = not (has_text (P.marshal v) b) && disjoint vs b

  distinct-append :
      (a b : List Json)
      → distinct a ≡ true
      → distinct b ≡ true
      → disjoint a b ≡ true
      → distinct (a ++ b) ≡ true
  unfolding disjoint
  distinct-append [] b da db d = db
  distinct-append (v ∷ vs) b da db d =
      let ih = distinct-append vs b in
      let here = has_text-append (P.marshal v) vs b in ground (arith, ih, here)

  disjoint-append_unseen :
      (a b : List Json) (seen : List Bytes)
      → ((k : Bytes) → has_text k a ≡ true → is_seen k seen ≡ true)
      → disjoint a (append_unseen P seen b).1 ≡ true
  unfolding disjoint
  disjoint-append_unseen [] b seen h = refl
  disjoint-append_unseen (v ∷ vs) b seen h =
      let ih = disjoint-append_unseen vs b seen (λ k e. h k (ground (arith, e))) in
      let listed =
        h (P.marshal v) (ap (λ z. z || has_text (P.marshal v) vs) (bytes_eq_refl (P.marshal v))) in
      let absent = has_text-append_unseen (P.marshal v) seen b in ground (arith, ih, listed, absent)

  -- setUnion(a, b) has no text twice, whatever a and b repeat.
  pub distinct-set_union : (a b : List Json) → distinct (set_union P a b) ≡ true
  unfolding set_union is_seen
  distinct-set_union a b =
      let seen = (append_unseen P [] a).0 in
      distinct-append (append_unseen P [] a).1 (append_unseen P seen b).1
        (distinct-append_unseen [] a) (distinct-append_unseen seen b)
        (disjoint-append_unseen (append_unseen P [] a).1 b seen (λ k e.
          let in_first = has_text-append_unseen k [] a in
          let in_seen = seen-append_unseen k [] a in ground (arith, in_first, in_seen)))

  -- setUnion(a, b) holds a text exactly when a or b does, and no text twice; setDifference(a, b)
  -- holds a text exactly when a does and b does not.
  pub set_union-set_difference :
      (k : Bytes) (a b : List Json)
      → (has_text k (set_union P a b) ≡ (has_text k a || has_text k b))
        × (distinct (set_union P a b) ≡ true)
        × (has_text k (set_difference P a b) ≡ (has_text k a && not (has_text k b)))
  set_union-set_difference k a b =
      (has_text-set_union k a b, distinct-set_union a b, has_text-set_difference k a b)
