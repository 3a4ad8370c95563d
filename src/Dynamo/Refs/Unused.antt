-- ===== src/Dynamo/Refs/Unused.antt =====
-- validateUnusedExprRefs of internal/dynamodb/expression.go, and which attribute maps it accepts.
use kumolo.Prelude.{
  ◌≡◌, ◌≢◌, ◌↔◌, ◌⊎◌, refl, inl, inr, true, false, List, [], ◌∷◌, ◌++◌, All, Any, arith, Bool-cases,
  or_parts, ok, ◌>>◌, bind-eq-ok,
}
use kumolo.Prelude.Bytes.{Bytes, bytes_eq, bytes_eq→≡, bytes_eq_refl}
use kumolo.Dynamo.Value.{Fields, end, field, Names}
use kumolo.Dynamo.Refs.{
  refs_in_expr, all_refs, is_used, check_names_used, check_values_used, has_expr, without_expr,
  validate_unused_expr_refs,
}

-- The key is one of the placeholders.
abbrev pub Uses : Bytes → List Bytes → Type 0
Uses k ws = Any (λ w. w ≡ k) ws

is_used→Uses : (k : Bytes) (ws : List Bytes) → is_used k ws ≡ true → Uses k ws
unfolding is_used
is_used→Uses k [] h = cc
is_used→Uses k (w ∷ ws) h = elim (or_parts (bytes_eq w k) (is_used k ws) h) [
  | inl e ↦ inl (bytes_eq→≡ w k e)
  | inr e ↦ inr (is_used→Uses k ws e)
]

Uses→is_used : (k : Bytes) (ws : List Bytes) → Uses k ws → is_used k ws ≡ true
unfolding is_used
Uses→is_used k [] h = absurd h
Uses→is_used k (w ∷ ws) (inl e) = rw e (rw (bytes_eq_refl k))
Uses→is_used k (w ∷ ws) (inr h) = ground (arith, Uses→is_used k ws h)

-- Some expression names the key by `#` (by `:` for a value).
abbrev pub NamedIn : Bytes → List Bytes → Type 0
NamedIn k exprs = Any (λ e. Uses k (refs_in_expr e).name_refs) exprs

abbrev pub ValuedIn : Bytes → List Bytes → Type 0
ValuedIn k exprs = Any (λ e. Uses k (refs_in_expr e).val_refs) exprs

Any-append→ : (P : Bytes → Type 0) (xs ys : List Bytes) → Any P (xs ++ ys) → Any P xs ⊎ Any P ys
Any-append→ P [] ys h = inr h
Any-append→ P (x ∷ xs) ys (inl h) = inl (inl h)
Any-append→ P (x ∷ xs) ys (inr h) = elim (Any-append→ P xs ys h) [
  | inl a ↦ inl (inr a)
  | inr b ↦ inr b
]

→Any-append : (P : Bytes → Type 0) (xs ys : List Bytes) → Any P xs ⊎ Any P ys → Any P (xs ++ ys)
→Any-append P [] ys (inl h) = absurd h
→Any-append P [] ys (inr h) = h
→Any-append P (x ∷ xs) ys (inl (inl h)) = inl h
→Any-append P (x ∷ xs) ys (inl (inr h)) = inr (→Any-append P xs ys (inl h))
→Any-append P (x ∷ xs) ys (inr h) = inr (→Any-append P xs ys (inr h))

all_refs-names :
    (k : Bytes) (exprs : List Bytes) → Uses k (all_refs exprs).name_refs ↔ NamedIn k exprs
unfolding all_refs
all_refs-names k [] = (λ h. h, λ h. h)
all_refs-names k (e ∷ es) = (
  λ h. elim (Any-append→ (λ w. w ≡ k) (refs_in_expr e).name_refs _ h) [
    | inl a ↦ inl a
    | inr b ↦ inr ((all_refs-names k es).0 b)
  ],
  λ h.
      →Any-append (λ w. w ≡ k) (refs_in_expr e).name_refs (all_refs es).name_refs
        (elim h [ inl a ↦ inl a | inr b ↦ inr ((all_refs-names k es).1 b) ]),
)

all_refs-values :
    (k : Bytes) (exprs : List Bytes) → Uses k (all_refs exprs).val_refs ↔ ValuedIn k exprs
unfolding all_refs
all_refs-values k [] = (λ h. h, λ h. h)
all_refs-values k (e ∷ es) = (
  λ h. elim (Any-append→ (λ w. w ≡ k) (refs_in_expr e).val_refs _ h) [
    | inl a ↦ inl a
    | inr b ↦ inr ((all_refs-values k es).0 b)
  ],
  λ h.
      →Any-append (λ w. w ≡ k) (refs_in_expr e).val_refs (all_refs es).val_refs
        (elim h [ inl a ↦ inl a | inr b ↦ inr ((all_refs-values k es).1 b) ]),
)

abbrev pub AllKeys : (Bytes → Type 0) → Fields → Type 0
AllKeys P end = Unit
AllKeys P (field k v m) = P k × AllKeys P m

check_names_used_iff :
    (names : Names) (exprs : List Bytes)
    → (check_names_used names (all_refs exprs).name_refs ≡ ok tt)
      ↔ All (λ entry. NamedIn entry.0 exprs) names
unfolding check_names_used
check_names_used_iff [] exprs = (λ h. tt, λ h. refl)
check_names_used_iff ((k, v) ∷ names) exprs = (
  λ h. elim (Bool-cases (is_used k (all_refs exprs).name_refs)) [
    | inl e ↦ (
      (all_refs-names k exprs).0 (is_used→Uses k _ e),
      (check_names_used_iff names exprs).0 (rw e at h),
    )
    | inr e ↦ cc
  ],
  λ h.
      rw (Uses→is_used k _ ((all_refs-names k exprs).1 h.0))
        ((check_names_used_iff names exprs).1 h.1),
)

check_values_used_iff :
    (values : Fields) (exprs : List Bytes)
    → (check_values_used values (all_refs exprs).val_refs ≡ ok tt)
      ↔ AllKeys (λ k. ValuedIn k exprs) values
unfolding check_values_used
check_values_used_iff end exprs = (λ h. tt, λ h. refl)
check_values_used_iff (field k v values) exprs = (
  λ h. elim (Bool-cases (is_used k (all_refs exprs).val_refs)) [
    | inl e ↦ (
      (all_refs-values k exprs).0 (is_used→Uses k _ e),
      (check_values_used_iff values exprs).0 (rw e at h),
    )
    | inr e ↦ cc
  ],
  λ h.
      rw (Uses→is_used k _ ((all_refs-values k exprs).1 h.0))
        ((check_values_used_iff values exprs).1 h.1),
)

-- Every key of the two maps is named by an expression.
abbrev pub AllUsed : Names → Fields → List Bytes → Type 0
AllUsed names values exprs =
    All (λ entry. NamedIn entry.0 exprs) names × AllKeys (λ k. ValuedIn k exprs) values

-- What the maps must be: some expression is not empty and every key is used, or every expression is
-- empty and so are the maps.
abbrev pub Accepted : Names → Fields → List Bytes → Type 0
Accepted names values exprs =
    (Any (λ e. e ≢ []) exprs × AllUsed names values exprs)
    ⊎ (All (λ e. e ≡ []) exprs × (names ≡ []) × (values ≡ end))

has_expr-cases :
    (exprs : List Bytes)
    → ((has_expr exprs ≡ true) × Any (λ e. e ≢ []) exprs)
      ⊎ ((has_expr exprs ≡ false) × All (λ e. e ≡ []) exprs)
unfolding has_expr
has_expr-cases [] = inr (refl, tt)
has_expr-cases ([] ∷ exprs) = elim (has_expr-cases exprs) [
  | inl (e, some_full) ↦ inl (e, inr some_full)
  | inr (e, all_empty) ↦ inr (e, (refl, all_empty))
]
has_expr-cases ((c ∷ s) ∷ exprs) = inl (refl, inl (λ e. cc))

-- The two cases of the expressions exclude each other.
not_both : (exprs : List Bytes) → Any (λ e. e ≢ []) exprs → All (λ e. e ≡ []) exprs → ⊥
not_both [] some_full all_empty = some_full
not_both (e ∷ exprs) (inl full) all_empty = full all_empty.0
not_both (e ∷ exprs) (inr some_full) all_empty = not_both exprs some_full all_empty.1

without_expr_iff :
    (names : Names) (values : Fields)
    → (without_expr names values ≡ ok tt) ↔ ((names ≡ []) × (values ≡ end))
unfolding without_expr
without_expr_iff [] end = (λ h. (refl, refl), λ h. refl)
without_expr_iff [] (field k v values) = (λ h. cc, λ h. cc)
without_expr_iff (entry ∷ names) values = (λ h. cc, λ h. cc)

both_used_iff :
    (names : Names) (values : Fields) (exprs : List Bytes)
    → ((check_names_used names (all_refs exprs).name_refs
          >> check_values_used values (all_refs exprs).val_refs)
        ≡ ok tt)
      ↔ AllUsed names values exprs
both_used_iff names values exprs =
    let n = check_names_used_iff names exprs in
    let v = check_values_used_iff values exprs in
    (
      λ h.
          let (_, p, q) = bind-eq-ok (check_names_used names (all_refs exprs).name_refs) _ h in
          (n.0 p, v.0 q),
      λ (p, q). rw (n.1 p) (v.1 q),
    )

-- validateUnusedExprRefs accepts the two maps exactly when some expression is not empty and every
-- key of either map is named by an expression, or when every expression is empty and so are both
-- maps.
pub validate_unused_expr_refs_iff :
    (names : Names) (values : Fields) (exprs : List Bytes)
    → (validate_unused_expr_refs names values exprs ≡ ok tt) ↔ Accepted names values exprs
unfolding validate_unused_expr_refs
validate_unused_expr_refs_iff names values exprs = elim (has_expr-cases exprs) [
  | inl (e, full) ↦ rw e (
    λ h. inl (full, (both_used_iff names values exprs).0 h),
    λ h. elim h [
      | inl (_, used) ↦ (both_used_iff names values exprs).1 used
      | inr (empty, _, _) ↦ absurd (not_both exprs full empty)
    ],
  )
  | inr (e, empty) ↦ rw e (
    λ h.
        let (no_names, no_values) = (without_expr_iff names values).0 h in
        inr (empty, no_names, no_values),
    λ h. elim h [
      | inl (full, _) ↦ absurd (not_both exprs full empty)
      | inr (_, no_names, no_values) ↦ (without_expr_iff names values).1 (no_names, no_values)
    ],
  )
]
