-- ===== src/Dynamo/Update.antt =====
-- The update operations of internal/dynamodb: applyAddOp and applyDeleteOp of handler_helpers.go.
pub mod Sets
pub mod Operations
pub mod Nested
use kumolo.Prelude.{
  ℕ, Bool, true, false, not, ◌||◌, Option, none, some, List, [], ◌∷◌, ◌++◌, get_elem?,
  if◌then◌else◌, Result, ok, err, panic, exhausted, ◌>>=◌,
}
use kumolo.Prelude.Bytes.{Bytes, codes, bytes_eq}
use kumolo.Dynamo.Value.{
  Json, null, str, arr, obj, Fields, end, field, Items, Platform, elems, to_items, get, index,
  as_obj, as_arr, is_nil, get_str, get_arr,
}
use kumolo.Dynamo.Operand.{ProjSegment, is_empty}

-- One constructor for each fmt.Errorf, with what its message quotes.
pub data UpdateError : Type 0 where
  add_not_typed add_current_not_typed add_current_not_number add_unsupported : UpdateError
  add_bad_number add_bad_current add_type_mismatch : Bytes → UpdateError
  delete_not_typed delete_current_not_typed delete_unsupported : UpdateError
  delete_type_mismatch : Bytes → UpdateError
  not_a_list not_typed : UpdateError
  invalid_path : UpdateError

abbrev pub Updated : Type 0 → Type 0
Updated A = Result UpdateError A

-- A set as the code keeps it: the texts that json.Marshal gives, `seen[s]`.
pub is_seen : Bytes → List Bytes → Bool
is_seen k [] = false
is_seen k (w ∷ ws) = bytes_eq w k || is_seen k ws

abbrev typed_value : Bytes → Json → Json
typed_value k v = obj (field k v end)

abbrev elems_or_nil : Option Items → List Json
elems_or_nil none = []
elems_or_nil (some xs) = elems xs

module _ (P : Platform) where
  -- A loop of setUnion: what is seen after it, and what it appends.
  append_unseen : List Bytes → List Json → List Bytes × List Json
  append_unseen seen [] = (seen, [])
  append_unseen seen (v ∷ vs) =
      let skip = append_unseen seen vs in
      let keep = append_unseen (P.marshal v ∷ seen) vs in
      if is_seen (P.marshal v) seen then skip else (keep.0, v ∷ keep.1)

  unfoldable pub set_union : List Json → List Json → List Json
  unfolding append_unseen is_seen
  set_union a b = let (seen, result) = append_unseen [] a in result ++ (append_unseen seen b).1

  -- the keys of the map `remove`
  removed_keys : List Json → List Bytes
  removed_keys [] = []
  removed_keys (v ∷ vs) = P.marshal v ∷ removed_keys vs

  -- the second loop of setDifference
  keep_others : List Bytes → List Json → List Json
  keep_others remove [] = []
  keep_others remove (v ∷ vs) =
      let rest = keep_others remove vs in if is_seen (P.marshal v) remove then rest else v ∷ rest

  unfoldable pub set_difference : List Json → List Json → List Json
  unfolding removed_keys keep_others is_seen
  set_difference a b = keep_others (removed_keys b) a

  -- strconv.ParseFloat, with an error of the caller's
  parse_number : UpdateError → Bytes → Updated ℕ
  parse_number e s = if (P.parse_float s).1 then ok (P.parse_float s).0 else err e

  -- The number that is there; the zero of `var cv float64`, whose bits are 0, where no attribute is.
  current_number : Json → Updated ℕ
  unfolding parse_number
  current_number null = ok 0
  current_number v = elim (as_obj v) [
    | none ↦ err add_current_not_typed
    | some cm ↦ elim (get_str (codes "N") cm) [
      | none ↦ err add_current_not_number
      | some cn ↦ parse_number (add_bad_current cn) cn
    ]
  ]

  current_set : Bytes → Json → Updated (List Json)
  current_set k null = ok []
  current_set k v = elim (as_obj v) [
    | none ↦ err add_current_not_typed
    | some cm ↦ elim (get_arr k cm) [ none ↦ err (add_type_mismatch k) | some ce ↦ ok (elems ce) ]
  ]

  -- `for _, setKey := range …` of applyAddOp
  add_set : List Bytes → Json → Fields → Updated Json
  unfolding set_union current_set
  add_set [] current dm = err add_unsupported
  add_set (k ∷ ks) current dm =
      let rest = add_set ks current dm in
      elim (get k dm) [
        | none ↦ rest
        | some delta ↦ do
          ce ← current_set k current
          ok (typed_value k (arr (to_items (set_union ce (elems_or_nil (as_arr delta))))))
      ]

  abbrev pub set_types : List Bytes
  set_types = codes "SS" ∷ codes "NS" ∷ codes "BS" ∷ []

  add_typed : Json → Fields → Updated Json
  unfolding add_set current_number
  add_typed current dm = elim (get_str (codes "N") dm) [
    | none ↦ add_set set_types current dm
    | some dn ↦ do
      dv ← parse_number (add_bad_number dn) dn
      cv ← current_number current
      ok (typed_value (codes "N") (str (P.format_float (P.float_add cv dv))))
  ]

  unfoldable pub apply_add_op : Json → Json → Updated Json
  unfolding add_typed
  apply_add_op current delta = elim (as_obj delta) [
    | none ↦ err add_not_typed
    | some dm ↦ add_typed current dm
  ]

  -- An empty set removes the attribute: nil.
  pub set_or_nil : Bytes → List Json → Json
  set_or_nil k [] = null
  set_or_nil k (v ∷ vs) = typed_value k (arr (to_items (v ∷ vs)))

  delete_from : Bytes → Json → Json → Updated Json
  unfolding set_difference set_or_nil
  delete_from k current delta = elim (as_obj current) [
    | none ↦ err delete_current_not_typed
    | some cm ↦ elim (get_arr k cm) [
      | none ↦ err (delete_type_mismatch k)
      | some ce ↦ ok (set_or_nil k (set_difference (elems ce) (elems_or_nil (as_arr delta))))
    ]
  ]

  -- `for _, setKey := range …` of applyDeleteOp
  delete_set : List Bytes → Json → Fields → Updated Json
  unfolding delete_from
  delete_set [] current dm = err delete_unsupported
  delete_set (k ∷ ks) current dm =
      let rest = delete_set ks current dm in
      elim (get k dm) [ none ↦ rest | some delta ↦ delete_from k current delta ]

  unfoldable pub apply_delete_op : Json → Json → Updated Json
  unfolding delete_set
  apply_delete_op current delta = if is_nil current then ok null else elim (as_obj delta) [
    | none ↦ err delete_not_typed
    | some dm ↦ delete_set set_types current dm
  ]
