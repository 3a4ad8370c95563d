-- ===== src/Dynamo/Typed.antt =====
-- DynamoDB typed values: what internal/dynamodb/expression.go takes every stored value to be.
use kumolo.Prelude.{
  ℕ, zero, suc, Option, none, some, get_elem?, inl, inr, Bool-cases, if◌then◌else◌,
}
use kumolo.Prelude.Bytes.{Bytes, codes, bytes_eq}
use kumolo.Dynamo.Value.{
  Json, null, bool, num, str, arr, obj, Items, nil, cons, Fields, end, field, get, elems,
}

-- A map whose "M", where it has one, is a map of typed values, and whose "L" a list of them.
abbrev mutual
  pub IsTyped : Json → Type 0
  IsTyped (obj m) = HasTypedParts m
  IsTyped null = ⊥
  IsTyped (bool b) = ⊥
  IsTyped (num n) = ⊥
  IsTyped (str s) = ⊥
  IsTyped (arr xs) = ⊥

  pub IsTypedMap : Json → Type 0
  IsTypedMap (obj m) = AllTyped m
  IsTypedMap null = ⊥
  IsTypedMap (bool b) = ⊥
  IsTypedMap (num n) = ⊥
  IsTypedMap (str s) = ⊥
  IsTypedMap (arr xs) = ⊥

  pub IsTypedList : Json → Type 0
  IsTypedList (arr xs) = EachTyped xs
  IsTypedList null = ⊥
  IsTypedList (bool b) = ⊥
  IsTypedList (num n) = ⊥
  IsTypedList (str s) = ⊥
  IsTypedList (obj m) = ⊥

  pub HasTypedParts : Fields → Type 0
  HasTypedParts end = Unit
  HasTypedParts (field k v m) =
      (if bytes_eq k (codes "M") then IsTypedMap v else Unit)
      × (if bytes_eq k (codes "L") then IsTypedList v else Unit)
      × HasTypedParts m

  pub AllTyped : Fields → Type 0
  AllTyped end = Unit
  AllTyped (field k v m) = IsTyped v × AllTyped m

  pub EachTyped : Items → Type 0
  EachTyped nil = Unit
  EachTyped (cons v xs) = IsTyped v × EachTyped xs

-- `P` holds of the value, if there is one.
abbrev pub IfSome {ℓ} : {A : Type ℓ} → (A → Type 0) → Option A → Type 0
IfSome P none = Unit
IfSome P (some a) = P a

pub get-AllTyped : (k : Bytes) (m : Fields) → AllTyped m → IfSome IsTyped (get k m)
unfolding get
get-AllTyped k end h = tt
get-AllTyped k (field j v m) h = elim (Bool-cases (bytes_eq j k)) [
  | inl e ↦ rw e h.0
  | inr e ↦ rw e (get-AllTyped k m h.1)
]

pub get-IsTypedMap : (m : Fields) → HasTypedParts m → IfSome IsTypedMap (get (codes "M") m)
unfolding get
get-IsTypedMap end h = tt
get-IsTypedMap (field j v m) h = elim (Bool-cases (bytes_eq j (codes "M"))) [
  | inl e ↦ rw e (rw e at (h.0))
  | inr e ↦ rw e (get-IsTypedMap m h.2)
]

pub get-IsTypedList : (m : Fields) → HasTypedParts m → IfSome IsTypedList (get (codes "L") m)
unfolding get
get-IsTypedList end h = tt
get-IsTypedList (field j v m) h = elim (Bool-cases (bytes_eq j (codes "L"))) [
  | inl e ↦ rw e (rw e at (h.1))
  | inr e ↦ rw e (get-IsTypedList m h.2)
]

pub get_elem?-EachTyped :
    (xs : Items) (i : ℕ) → EachTyped xs → IfSome IsTyped (get_elem? (elems xs) i)
get_elem?-EachTyped nil i h = tt
get_elem?-EachTyped (cons v xs) zero h = h.0
get_elem?-EachTyped (cons v xs) (suc i) h = get_elem?-EachTyped xs i h.1
