-- ===== src/Prelude/Sort.antt =====
-- sort.Slice by a key that is a string: an insertion sort. Go leaves the order of equal keys open.
use mathlib.Core.Bool.{Bool, true, false}
use mathlib.Core.List.{List, [], ◌∷◌}
use kumolo.Prelude.Tests.{if◌then◌else◌}
use kumolo.Prelude.Bytes.{Bytes, Order, less, compare_bytes}

-- `<` on strings
abbrev pub comes_first : Order → Bool
comes_first less = true
comes_first _ = false

pub less_than : Bytes → Bytes → Bool
less_than s t = comes_first (compare_bytes s t)

module _ {A : Type 0} (key : A → Bytes) where
  insert_sorted : A → List A → List A
  insert_sorted a [] = a ∷ []
  insert_sorted a (b ∷ bs) =
      let rest = insert_sorted a bs in if less_than (key b) (key a) then b ∷ rest else a ∷ b ∷ bs

  pub sort_by : List A → List A
  sort_by [] = []
  sort_by (a ∷ xs) = insert_sorted a (sort_by xs)
