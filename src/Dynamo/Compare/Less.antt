-- ===== src/Dynamo/Compare/Less.antt =====
-- What dynamoValueCmp finds less: strings and JSON texts by their bytes, numbers by their floats.
use kumolo.Prelude.{
  ℕ, ◌≡◌, ◌↔◌, ◌⊎◌, ◌∙◌, ap, refl, inl, inr, true, false, Bool-cases, [], ◌∷◌, ◌++◌, arith, ok, ltb,
  subst,
}
use kumolo.Prelude.Bytes.{Bytes, Order, less, compare_bytes}
use kumolo.Dynamo.Value.{obj, Fields, Platform}
use kumolo.Dynamo.Operand.{Eval}
use kumolo.Dynamo.Compare.{dynamo_value_cmp}
use kumolo.Dynamo.Compare.Laws.{SameTag}

-- `s` is a proper beginning of `t`, or has the smaller byte where the two first differ.
abbrev pub Precedes : Bytes → Bytes → Type 0
Precedes s t =
    ((c : ℕ) × (behind : Bytes) × (t ≡ s ++ (c ∷ behind)))
    ⊎ ((shared : Bytes) × (a : ℕ) × (u : Bytes) × (b : ℕ) × (v : Bytes) × (s ≡ shared ++ (a ∷ u))
        × (t ≡ shared ++ (b ∷ v))
        × (ltb a b ≡ true))

compare_bytes-shared : (p s t : Bytes) → compare_bytes (p ++ s) (p ++ t) ≡ compare_bytes s t
unfolding compare_bytes
compare_bytes-shared [] s t = refl
compare_bytes-shared (c ∷ p) s t = ground (arith, compare_bytes-shared p s t)

compare_bytes-beginning : (s : Bytes) (c : ℕ) (u : Bytes) → compare_bytes s (s ++ (c ∷ u)) ≡ less
unfolding compare_bytes
compare_bytes-beginning [] c u = refl
compare_bytes-beginning (a ∷ s) c u = ground (arith, compare_bytes-beginning s c u)

first_byte :
    (a b : ℕ) (s t : Bytes)
    → compare_bytes (a ∷ s) (b ∷ t) ≡ less
    → ltb a b ≡ false
    → (a ≡ b) × (compare_bytes s t ≡ less)
unfolding compare_bytes
first_byte a b s t h e = (ground arith, ground arith)

behind_byte : (a : ℕ) (s t : Bytes) → Precedes s t → Precedes (a ∷ s) (a ∷ t)
behind_byte a s t (inl (c, u, e)) = inl (c, u, ap (λ x. a ∷ x) e)
behind_byte a s t (inr (p, x, u, y, v, e, f, l)) =
    inr (a ∷ p, x, u, y, v, ap (λ z. a ∷ z) e, ap (λ z. a ∷ z) f, l)

compare_bytes→Precedes : (s t : Bytes) → compare_bytes s t ≡ less → Precedes s t
unfolding compare_bytes
compare_bytes→Precedes [] [] h = cc
compare_bytes→Precedes [] (b ∷ t) h = inl (b, t, refl)
compare_bytes→Precedes (a ∷ s) [] h = cc
compare_bytes→Precedes (a ∷ s) (b ∷ t) h = elim (Bool-cases (ltb a b)) [
  | inl l ↦ inr ([], a, s, b, t, refl, refl, l)
  | inr l ↦
      let (e, k) = first_byte a b s t h l in
      subst (λ x. Precedes (a ∷ s) (x ∷ t)) e (behind_byte a s t (compare_bytes→Precedes s t k))
]

smaller_byte : (a b : ℕ) (u v : Bytes) → ltb a b ≡ true → compare_bytes (a ∷ u) (b ∷ v) ≡ less
unfolding compare_bytes
smaller_byte a b u v l = rw l refl

Precedes→compare_bytes : (s t : Bytes) → Precedes s t → compare_bytes s t ≡ less
Precedes→compare_bytes s t (inl (c, u, e)) = rw e (compare_bytes-beginning s c u)
Precedes→compare_bytes s t (inr (p, a, u, b, v, e, f, l)) =
    rw (e, f) (compare_bytes-shared p (a ∷ u) (b ∷ v) ∙ smaller_byte a b u v l)

compare_bytes-Precedes :
    (s t : Bytes) (r : Eval Order) → r ≡ ok (compare_bytes s t) → (r ≡ ok less) ↔ Precedes s t
compare_bytes-Precedes s t r e =
    (λ h. compare_bytes→Precedes s t cc, λ h. e ∙ ap ok (Precedes→compare_bytes s t h))

module _ (P : Platform) where
  -- For strings the bytes of the two, for numbers `<` on the floats that strconv.ParseFloat gives,
  -- and for other values the bytes of their JSON texts.
  abbrev pub Less : (a b : Fields) → SameTag a b → Type 0
  Less a b (inl ((s, _), (t, _))) = Precedes s t
  Less a b (inr (inl (_, _, (m, _), (n, _)))) =
      P.float_lt (P.parse_float m).0 (P.parse_float n).0 ≡ true
  Less a b (inr (inr _)) = Precedes (P.marshal (obj a)) (P.marshal (obj b))

  -- On two values of one type dynamoValueCmp finds the first less exactly when, for strings, it is
  -- a proper beginning of the second or has the smaller byte where they first differ, for numbers,
  -- its float is less, and for other values, its JSON text is less in the way of strings.
  pub dynamo_value_cmp-less_iff :
      (a b : Fields) (tags : SameTag a b)
      → (dynamo_value_cmp P (obj a) (obj b) ≡ ok less) ↔ Less a b tags
  unfolding dynamo_value_cmp
  dynamo_value_cmp-less_iff a b (inl ((s, p), (t, q))) =
      compare_bytes-Precedes s t (dynamo_value_cmp P (obj a) (obj b)) (ground arith)
  dynamo_value_cmp-less_iff a b (inr (inl (p, q, (m, f), (n, g)))) =
      (λ h. ground arith, λ h. ground arith)
  dynamo_value_cmp-less_iff a b (inr (inr (p, q, f, g))) =
      compare_bytes-Precedes (P.marshal (obj a)) (P.marshal (obj b))
        (dynamo_value_cmp P (obj a) (obj b)) (ground arith)
