-- ===== src/Dynamo/Compare/Laws.antt =====
-- dynamoValueCmp as an order.
use kumolo.Prelude.{ℕ, ◌≡◌, ◌⊎◌, inl, inr, true, false, none, some, arith, ok, ◌>>=◌}
use kumolo.Prelude.Bytes.{Bytes, codes, Order, flip, compare_bytes-flip}
use kumolo.Dynamo.Value.{obj, Fields, Platform, get_str}
use kumolo.Dynamo.Operand.{Eval}
use kumolo.Dynamo.Compare.{dynamo_value_cmp}

abbrev pub HasTag : Bytes → Fields → Type 0
HasTag k m = (s : Bytes) × (get_str k m ≡ some s)

abbrev pub LacksTag : Bytes → Fields → Type 0
LacksTag k m = get_str k m ≡ none

-- Both maps hold a string under "S", or both no string there and one under "N", or neither.
abbrev pub SameTag : Fields → Fields → Type 0
SameTag a b =
    (HasTag (codes "S") a × HasTag (codes "S") b)
    ⊎ (LacksTag (codes "S") a
        × LacksTag (codes "S") b
        × HasTag (codes "N") a
        × HasTag (codes "N") b)
    ⊎ (LacksTag (codes "S") a
        × LacksTag (codes "S") b
        × LacksTag (codes "N") a
        × LacksTag (codes "N") b)

-- Comparing the other way round turns the answer over.
abbrev pub flipped : Eval Order → Eval Order
flipped r = do c ← r; ok (flip c)

module _ (P : Platform) where
  -- `<` on float64 does not hold both ways.
  abbrev pub FloatLtAsymmetric : Type 0
  FloatLtAsymmetric = (x y : ℕ) → P.float_lt x y ≡ true → P.float_lt y x ≡ false

  -- On two values of one type dynamoValueCmp turned round gives the answer turned over.
  pub dynamo_value_cmp-flip :
      FloatLtAsymmetric
      → (a b : Fields) → SameTag a b
      → dynamo_value_cmp P (obj b) (obj a) ≡ flipped (dynamo_value_cmp P (obj a) (obj b))
  unfolding dynamo_value_cmp
  dynamo_value_cmp-flip lt a b (inl ((s, p), (t, q))) = ground (arith, compare_bytes-flip s t)
  dynamo_value_cmp-flip lt a b (inr (inl (p, q, (m, h), (n, k)))) = ground (
    arith,
    lt (P.parse_float m).0 (P.parse_float n).0,
    lt (P.parse_float n).0 (P.parse_float m).0,
  )
  dynamo_value_cmp-flip lt a b (inr (inr (p, q, h, k))) =
      ground (arith, compare_bytes-flip (P.marshal (obj a)) (P.marshal (obj b)))

  -- `<` on float64 is transitive.
  abbrev pub FloatLtTransitive : Type 0
  FloatLtTransitive =
      (x y z : ℕ) → P.float_lt x y ≡ true → P.float_lt y z ≡ true → P.float_lt x z ≡ true
