-- ===== src/Dynamo/Update/Operations.antt =====
-- applyAddOp and applyDeleteOp of internal/dynamodb/handler_helpers.go, one after the other on a set.
use kumolo.Prelude.{◌≡◌, refl, ap, sym, inl, inr, not, ◌&&◌, Any, List, [], ◌∷◌, arith, ok, ◌>>=◌}
use kumolo.Prelude.Bytes.{Bytes, bytes_eq}
use kumolo.Dynamo.Value.{Json, arr, Platform, elems, to_items, get, get_str, get_arr, index}
use kumolo.Dynamo.Update.{
  typed_value, set_types, set_union, set_difference, set_or_nil, apply_add_op, apply_delete_op,
  add_typed, add_set, current_set, delete_set, delete_from,
}
use kumolo.Dynamo.Update.Sets.{has_text, has_text-set_union, has_text-set_difference}

elems-to_items : (xs : List Json) → elems (to_items xs) ≡ xs
elems-to_items [] = refl
elems-to_items (x ∷ xs) = ap (λ z. x ∷ z) (elems-to_items xs)

module _ (P : Platform) where
  abbrev pub set_value : Bytes → List Json → Json
  set_value k xs = typed_value k (arr (to_items xs))

  add_op-set :
      (k : Bytes) (a b : List Json)
      → Any (λ s. s ≡ k) (set_types P)
      → apply_add_op P (set_value k a) (set_value k b) ≡ ok (set_value k (set_union P a b))
  unfolding apply_add_op add_typed add_set current_set get get_str get_arr index bytes_eq
  add_op-set k a b (inl e) = rw (sym e) (rw (elems-to_items a, elems-to_items b) refl)
  add_op-set k a b (inr (inl e)) = rw (sym e) (rw (elems-to_items a, elems-to_items b) refl)
  add_op-set k a b (inr (inr (inl e))) = rw (sym e) (rw (elems-to_items a, elems-to_items b) refl)
  add_op-set k a b (inr (inr (inr e))) = absurd e

  delete_op-set :
      (k : Bytes) (a b : List Json)
      → Any (λ s. s ≡ k) (set_types P)
      → apply_delete_op P (set_value k a) (set_value k b)
        ≡ ok (set_or_nil P k (set_difference P a b))
  unfolding apply_delete_op delete_set delete_from get get_arr index bytes_eq
  delete_op-set k a b (inl e) = rw (sym e) (rw (elems-to_items a, elems-to_items b) refl)
  delete_op-set k a b (inr (inl e)) = rw (sym e) (rw (elems-to_items a, elems-to_items b) refl)
  delete_op-set k a b (inr (inr (inl e))) =
      rw (sym e) (rw (elems-to_items a, elems-to_items b) refl)
  delete_op-set k a b (inr (inr (inr e))) = absurd e

  -- On sets of one type, ADD of `b` and then DELETE of `b` both succeed; what is left has exactly the
  -- texts that were there and are not in `b`, and is no attribute at all where there is no such text.
  pub apply_delete_op-apply_add_op :
      (k : Bytes) (a b : List Json)
      → Any (λ s. s ≡ k) (set_types P)
      → (c : List Json) × ((apply_add_op P (set_value k a) (set_value k b) >>= λ v.
            apply_delete_op P v (set_value k b))
          ≡ ok (set_or_nil P k c))
        × ((t : Bytes) → has_text P t c ≡ (has_text P t a && not (has_text P t b)))
  apply_delete_op-apply_add_op k a b h = (
    set_difference P (set_union P a b) b,
    rw (add_op-set k a b h) (delete_op-set k (set_union P a b) b h),
    λ t.
        let both = has_text-set_union P t a b in
        let left = has_text-set_difference P t (set_union P a b) b in ground (arith, both, left),
  )
