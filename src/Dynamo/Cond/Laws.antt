-- ===== src/Dynamo/Cond/Laws.antt =====
-- Laws of the condition language: what AND, OR, NOT, BETWEEN and IN mean to one another.
use kumolo.Prelude.{
  ◌≡◌, refl, Bool, false, List, ◌∷◌, arith, if◌then◌else◌, ok, err, panic, exhausted, ◌>>=◌,
}
use kumolo.Prelude.Bytes.{codes, bytes_eq}
use kumolo.Dynamo.Value.{Json, Fields, Platform, Names}
use kumolo.Dynamo.Operand.{Operand, Eval, resolve}
use kumolo.Dynamo.Cond.{
  Cond, and_cond, or_cond, not_cond, cmp_cond, between_cond, in_cond, order_test, order_result,
  cmp_values, between_values, resolve_all, in_values, eval,
}
use kumolo.Dynamo.Cond.Safe.{dynamo_value_cmp-Returns}

module _ (P : Platform) (item : Fields) (names : Names) (values : Fields) where
  abbrev run : Cond → Eval Bool
  run c = eval P c item names values

  -- De Morgan's laws hold of the evaluator, errors and short circuits included.
  pub eval-de_morgan :
      (l r : Cond)
      → (eval P (not_cond (and_cond l r)) item names values
          ≡ eval P (or_cond (not_cond l) (not_cond r)) item names values)
        × (eval P (not_cond (or_cond l r)) item names values
            ≡ eval P (and_cond (not_cond l) (not_cond r)) item names values)
  unfolding eval
  eval-de_morgan l r = (ground arith, ground arith)

  between_step :
      (v l h : Json)
      → ok (between_values P v l h) ≡ (do
        b ← cmp_values P (codes ">=") v l
        if b then cmp_values P (codes "<=") v h else ok false)
  unfolding cmp_values bytes_eq between_values order_result order_test
  between_step v l h =
      ground (arith, dynamo_value_cmp-Returns P v l, dynamo_value_cmp-Returns P v h)

  -- Where its upper bound resolves, `o BETWEEN lo AND hi` is `o >= lo AND o <= hi`.
  pub eval-between :
      (o lo hi : Operand) (h : Json)
      → resolve P hi item names values ≡ ok h
      → eval P (between_cond o lo hi) item names values
        ≡ eval P
            (and_cond (cmp_cond o (codes ">=") lo) (cmp_cond o (codes "<=") hi))
            item
            names
            values
  unfolding eval
  eval-between o lo hi h e =
      rw e (with_values (resolve P o item names values) (resolve P lo item names values))
    where
      with_values :
          (r s : Eval Json)
          → (do v ← r; l ← s; ok (between_values P v l h)) ≡ (do
            b ← (do v ← r; l ← s; cmp_values P (codes ">=") v l)
            (if b then (do v ← r; cmp_values P (codes "<=") v h) else ok false))
      with_values (ok v) (ok l) = between_step v l h
      with_values (ok v) (err x) = refl
      with_values (ok v) panic = refl
      with_values (ok v) exhausted = refl
      with_values (err x) s = refl
      with_values panic s = refl
      with_values exhausted s = refl

  -- Where the further values resolve, `o IN (x, xs)` is `o = x OR o IN (xs)`.
  pub eval-in :
      (o x : Operand) (xs : List Operand) (vs : List Json)
      → resolve_all P xs item names values ≡ ok vs
      → eval P (in_cond o (x ∷ xs)) item names values
        ≡ eval P (or_cond (cmp_cond o (codes "=") x) (in_cond o xs)) item names values
  unfolding eval resolve_all in_values cmp_values bytes_eq
  eval-in o x xs vs e = ground (arith, e)
