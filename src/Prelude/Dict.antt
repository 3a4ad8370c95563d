-- ===== src/Prelude/Dict.antt =====
-- A Go map with string keys, or a directory by its names: the entries, of which a read finds the
-- first.
use mathlib.Core.Path.{◌≡◌, refl, subst}
use mathlib.Core.Logic.{◌⊎◌, inl, inr}
use mathlib.Core.Bool.{true, false}
use mathlib.Core.List.{List, [], ◌∷◌}
use mathlib.Core.Option.{Option, none, some}
use native.Mathlib.Omega.{arith}
use kumolo.Prelude.Tests.{if◌then◌else◌, Bool-cases}
use kumolo.Prelude.Bytes.{Bytes, bytes_eq, bytes_eq_iff, bytes_eq_refl, bytes_eq→≡}

abbrev pub Dict {ℓ} : Type ℓ → Type ℓ
Dict V = List (Bytes × V)

module _ {ℓ} {V : Type ℓ} where
  unfoldable pub find : Bytes → Dict V → Option V
  find k [] = none
  find k ((j, v) ∷ d) = if bytes_eq j k then some v else find k d

  unfoldable pub insert : Bytes → V → Dict V → Dict V
  insert k v [] = (k, v) ∷ []
  insert k v ((j, w) ∷ d) =
      let rest = insert k v d in if bytes_eq j k then (j, v) ∷ d else (j, w) ∷ rest

  unfoldable pub remove : Bytes → Dict V → Dict V
  remove k [] = []
  remove k ((j, v) ∷ d) = let rest = remove k d in if bytes_eq j k then rest else (j, v) ∷ rest

  pub find-insert :
      (k j : Bytes) (v : V) (d : Dict V)
      → find j (insert k v d) ≡ (if bytes_eq k j then some v else find j d)
  unfolding find insert
  find-insert k j v [] = refl
  find-insert k j v ((i, w) ∷ d) =
      ground (arith, bytes_eq_iff k j, bytes_eq_iff i k, bytes_eq_iff i j, find-insert k j v d)

  pub find-remove :
      (k j : Bytes) (d : Dict V) → find j (remove k d) ≡ (if bytes_eq k j then none else find j d)
  unfolding find remove
  find-remove k j [] = ground arith
  find-remove k j ((i, v) ∷ d) =
      ground (arith, bytes_eq_iff k j, bytes_eq_iff i k, bytes_eq_iff i j, find-remove k j d)

  pub find-insert_same : (k : Bytes) (v : V) (d : Dict V) → find k (insert k v d) ≡ some v
  find-insert_same k v d = rw (find-insert k k v d, bytes_eq_refl k) refl

  pub find-insert_other :
      (k j : Bytes) (v : V) (d : Dict V) → bytes_eq k j ≡ false → find j (insert k v d) ≡ find j d
  find-insert_other k j v d h = rw (find-insert k j v d, h) refl

module _ {ℓ} {V : Type ℓ} where
  pub find-remove_other :
      (k j : Bytes) (d : Dict V) → bytes_eq k j ≡ false → find j (remove k d) ≡ find j d
  find-remove_other k j d h = rw (find-remove k j d, h) refl

-- `P` holds of every value that a key leads to.
abbrev pub Each : {V : Type 0} → (Bytes → V → Type 0) → Dict V → Type 0
Each {V = V} P d = (k : Bytes) (v : V) → find k d ≡ some v → P k v

none≢some : {V : Type 0} (v : V) → ¬ (none ≡ some v)
none≢some v e = cc

pub Each-insert :
    {V : Type 0} (P : Bytes → V → Type 0) (k : Bytes) (v : V) (d : Dict V)
    → Each P d
    → P k v
    → Each P (insert k v d)
Each-insert {V = V} P k v d h p j w e = by_key (Bool-cases (bytes_eq k j))
  where
    by_key : (bytes_eq k j ≡ true) ⊎ (bytes_eq k j ≡ false) → P j w
    by_key (inl s) =
        let found : some v ≡ some w = rw (find-insert k j v d, s) at e in
        let same : v ≡ w = cc in subst (λ z. P j z) same (subst (λ z. P z v) (bytes_eq→≡ k j s) p)
    by_key (inr s) = h j w (rw (find-insert k j v d, s) at e)

pub Each-remove :
    {V : Type 0} (P : Bytes → V → Type 0) (k : Bytes) (d : Dict V) → Each P d → Each P (remove k d)
Each-remove {V = V} P k d h j w e = by_key (Bool-cases (bytes_eq k j))
  where
    by_key : (bytes_eq k j ≡ true) ⊎ (bytes_eq k j ≡ false) → P j w
    by_key (inl s) = absurd (none≢some w (rw (find-remove k j d, s) at e))
    by_key (inr s) = h j w (rw (find-remove k j d, s) at e)
