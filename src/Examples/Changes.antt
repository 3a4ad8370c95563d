-- ===== src/Examples/Changes.antt =====
-- Projections and updates of concrete items.
use kumolo.Prelude.{
  ◌>>=◌, inl, ◌≡◌, refl, inr, true, false, not, ◌||◌, ◌&&◌, some, List, [], ◌∷◌, Any, ok,
}
use kumolo.Prelude.Bytes.{Bytes, codes, bytes_eq}
use kumolo.Dynamo.Value.{Json, null, str, Fields, end, field, get, put, delete}
use kumolo.Dynamo.Operand.{ProjSegment, attr_step}
use kumolo.Dynamo.Projection.{empty_node, add_path, add_paths, apply}
use kumolo.Dynamo.Projection.Keeps.{get_item_path, apply-get_item_path}
use kumolo.Dynamo.Projection.Only.{Begins, apply-only}
use kumolo.Dynamo.Update.{set_union, set_difference, set_or_nil, apply_add_op, apply_delete_op}
use kumolo.Dynamo.Update.Operations.{set_value, apply_delete_op-apply_add_op}
use kumolo.Dynamo.Update.Sets.{has_text, distinct, set_union-set_difference}
use kumolo.Dynamo.Update.Nested.{apply_nested_set, apply_nested_remove, resolve_update_path}
use kumolo.Dynamo.Update.Nested.Places.{apply_nested_set-resolve_update_path}
use kumolo.Dynamo.Update.Nested.Rounds.{Diverges}
use kumolo.Dynamo.Update.Nested.Removed.{apply_nested_remove-resolve_update_path}
use kumolo.Examples.Data.{sample, number, string, entries, nested}

abbrev paths : List (List ProjSegment)
paths = (attr_step (codes "t") ∷ []) ∷ (attr_step (codes "m") ∷ attr_step (codes "k") ∷ []) ∷ []

apply-get_item_path_example :
    get_item_path (codes "m") (codes "k" ∷ []) (apply (add_paths paths empty_node) nested)
    ≡ some (number (codes "1"))
unfolding get bytes_eq
apply-get_item_path_example =
    apply-get_item_path (codes "m") (codes "k" ∷ []) paths nested (number (codes "1"))
      (refl, (refl, tt)) ((λ e. cc), ((λ e. cc), tt)) (inr (inl refl)) refl

projects : get (codes "t") (apply (add_paths paths empty_node) nested) ≡ some (string (codes "x"))
unfolding get apply add_paths add_path bytes_eq
projects = refl

apply-only_example :
    ((v : Json) × (get (codes "t") nested ≡ some v)) × Any (Begins (codes "t")) paths
apply-only_example = apply-only (codes "t") paths nested (string (codes "x")) projects

set_union-set_difference_example :
    (has_text sample
        (codes "q")
        (set_union sample (str (codes "p") ∷ []) (str (codes "q") ∷ str (codes "q") ∷ []))
      ≡ (has_text sample (codes "q") (str (codes "p") ∷ [])
          || has_text sample (codes "q") (str (codes "q") ∷ str (codes "q") ∷ [])))
    × (distinct sample
          (set_union sample (str (codes "p") ∷ []) (str (codes "q") ∷ str (codes "q") ∷ []))
        ≡ true)
    × (has_text sample
          (codes "q")
          (set_difference sample (str (codes "p") ∷ []) (str (codes "q") ∷ str (codes "q") ∷ []))
        ≡ (has_text sample (codes "q") (str (codes "p") ∷ [])
            && not (has_text sample (codes "q") (str (codes "q") ∷ str (codes "q") ∷ []))))
set_union-set_difference_example =
    set_union-set_difference sample (codes "q") (str (codes "p") ∷ [])
      (str (codes "q") ∷ str (codes "q") ∷ [])

abbrev with_count : Bytes → Fields
with_count n = field (codes "t") (string (codes "x")) (
    field (codes "m")
      (entries (field (codes "k") (number n) (field (codes "l") (string (codes "y")) end))) end)

sets :
    apply_nested_set nested
      (attr_step (codes "m") ∷ attr_step (codes "k") ∷ [])
      (number (codes "5"))
    ≡ ok (with_count (codes "5"))
unfolding apply_nested_set get put bytes_eq
sets = refl

apply_nested_set-resolve_update_path_example :
    (resolve_update_path
        (with_count (codes "5"))
        (attr_step (codes "m") ∷ attr_step (codes "k") ∷ [])
      ≡ ok (number (codes "5")))
    × ((j : Bytes) → bytes_eq (codes "m") j ≡ false → get j (with_count (codes "5")) ≡ get j nested)
    × ((other : List ProjSegment)
        → Diverges (attr_step (codes "m") ∷ attr_step (codes "k") ∷ []) other
        → resolve_update_path (with_count (codes "5")) other ≡ resolve_update_path nested other)
apply_nested_set-resolve_update_path_example =
    apply_nested_set-resolve_update_path nested (with_count (codes "5")) (attr_step (codes "m"))
      (attr_step (codes "k") ∷ []) (number (codes "5")) (refl, tt) sets

abbrev without_count : Fields
without_count =
    field (codes "t") (string (codes "x"))
      (field (codes "m") (entries (field (codes "l") (string (codes "y")) end)) end)

removes :
    apply_nested_remove nested (attr_step (codes "m") ∷ attr_step (codes "k") ∷ [])
    ≡ ok without_count
unfolding apply_nested_remove get put delete bytes_eq
removes = refl

apply_nested_remove-resolve_update_path_example :
    (resolve_update_path without_count (attr_step (codes "m") ∷ attr_step (codes "k") ∷ [])
      ≡ ok null)
    × ((j : Bytes) → bytes_eq (codes "m") j ≡ false → get j without_count ≡ get j nested)
    × ((other : List ProjSegment)
        → Diverges (attr_step (codes "m") ∷ attr_step (codes "k") ∷ []) other
        → resolve_update_path without_count other ≡ resolve_update_path nested other)
apply_nested_remove-resolve_update_path_example =
    apply_nested_remove-resolve_update_path nested without_count (attr_step (codes "m"))
      (attr_step (codes "k") ∷ []) (refl, tt) removes

apply_delete_op-apply_add_op_example :
    (c : List Json) × ((apply_add_op sample
          (set_value sample (codes "SS") (str (codes "p") ∷ []))
          (set_value sample (codes "SS") (str (codes "q") ∷ []))
        >>= λ v. apply_delete_op sample v (set_value sample (codes "SS") (str (codes "q") ∷ [])))
      ≡ ok (set_or_nil sample (codes "SS") c))
    × ((t : Bytes)
        → has_text sample t c ≡ (
            has_text sample t (str (codes "p") ∷ [])
            && not (has_text sample t (str (codes "q") ∷ []))))
apply_delete_op-apply_add_op_example =
    apply_delete_op-apply_add_op sample (codes "SS") (str (codes "p") ∷ []) (str (codes "q") ∷ [])
      (inl refl)
