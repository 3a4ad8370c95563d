-- ===== src/Dynamo/Cond/Safe.antt =====
-- The eval methods of internal/dynamodb/expression.go on items of typed values.
use kumolo.Prelude.{
  ◌≡◌, Bool, false, List, [], ◌∷◌, All, arith, ok, err, panic, exhausted, ◌>>=◌, Returns,
  Returns-bind, Returns-if,
}
use kumolo.Prelude.Bytes.{Bytes, codes, bytes_eq, Order}
use kumolo.Dynamo.Value.{Json, Fields, Platform, Names}
use kumolo.Dynamo.Typed.{AllTyped}
use kumolo.Dynamo.Operand.{Operand, Eval, resolve}
use kumolo.Dynamo.Operand.Safe.{OnlySize, Anything, Sound, resolve-Returns}
use kumolo.Dynamo.Compare.{dynamo_value_cmp}
use kumolo.Dynamo.Cond.{
  Cond, and_cond, or_cond, not_cond, cmp_cond, attr_exists, begins_with_cond, contains_cond,
  between_cond, in_cond, order_test, order_result, cmp_values, resolve_all, eval,
}
use kumolo.Dynamo.Parser.{comparison_op}
use kumolo.Dynamo.Parser.Covers.{OperandCovered}
use kumolo.Dynamo.Parser.Covers.Conds.{CondCovered, IsOp}

module _ (P : Platform) where
  order_test-Returns :
      (op : Bytes) (c : Order)
      → IsOp op
      → bytes_eq op (codes "=") ≡ false
      → bytes_eq op (codes "<>") ≡ false
      → Returns Anything OnlySize (order_test P op c)
  unfolding order_test comparison_op bytes_eq
  order_test-Returns op c (k, e) h h' = ground arith

  order_result-Returns :
      (op : Bytes) (r : Eval Order)
      → IsOp op
      → bytes_eq op (codes "=") ≡ false
      → bytes_eq op (codes "<>") ≡ false
      → Returns Anything (λ e. Unit {0}) r
      → Returns Anything OnlySize (order_result P op r)
  unfolding order_result
  order_result-Returns op (ok c) k h h' t = order_test-Returns op c k h h'
  order_result-Returns op (err e) k h h' t = tt
  order_result-Returns op panic k h h' t = t
  order_result-Returns op exhausted k h h' t = t

  pub dynamo_value_cmp-Returns :
      (a b : Json) → Returns Anything (λ e. Unit {0}) (dynamo_value_cmp P a b)
  unfolding dynamo_value_cmp
  dynamo_value_cmp-Returns a b = ground arith

  cmp_values-Returns :
      (op : Bytes) (l r : Json) → IsOp op → Returns Anything OnlySize (cmp_values P op l r)
  unfolding cmp_values
  cmp_values-Returns op l r k =
      Returns-if Anything OnlySize (bytes_eq op (codes "=")) _ _ (λ _. tt)
        λ h.
          Returns-if Anything OnlySize (bytes_eq op (codes "<>")) _ _ (λ _. tt)
            λ h'.
              order_result-Returns op (dynamo_value_cmp P l r) k h h' (dynamo_value_cmp-Returns l r)

  module _ (names : Names) (item : Fields) (typed : AllTyped item) (values : Fields) where
    resolved :
        (o : Operand)
        → OperandCovered (Sound names) o
        → Returns Anything OnlySize (resolve P o item names values)
    resolved o c = resolve-Returns names P item typed values o c

    resolve_all-Returns :
        (os : List Operand)
        → All (OperandCovered (Sound names)) os
        → Returns Anything OnlySize (resolve_all P os item names values)
    unfolding resolve_all
    resolve_all-Returns [] c = tt
    resolve_all-Returns (o ∷ os) c =
        Returns-bind Anything Anything OnlySize (resolve P o item names values) _ (resolved o c.0)
          λ v _.
            Returns-bind Anything Anything OnlySize (resolve_all P os item names values) _
              (resolve_all-Returns os c.1) λ vs _. tt

    -- Two operands, and what follows from their values.
    two :
        (p o : Operand) (f : Json → Json → Eval Bool)
        → OperandCovered (Sound names) p
        → OperandCovered (Sound names) o
        → ((v w : Json) → Returns Anything OnlySize (f v w))
        → Returns Anything OnlySize
            (do v ← resolve P p item names values; w ← resolve P o item names values; f v w)
    two p o f c d k =
        Returns-bind Anything Anything OnlySize (resolve P p item names values) _ (resolved p c)
          λ v _.
            Returns-bind Anything Anything OnlySize (resolve P o item names values) _ (resolved o d)
              λ w _. k v w

    pub eval-Returns :
        (n : Cond)
        → CondCovered (Sound names) n
        → Returns Anything OnlySize (eval P n item names values)
    unfolding eval
    eval-Returns (and_cond l r) c =
        Returns-bind Anything Anything OnlySize (eval P l item names values) _ (eval-Returns l c.0)
          λ b _. Returns-if Anything OnlySize b _ _ (λ _. eval-Returns r c.1) (λ _. tt)
    eval-Returns (or_cond l r) c =
        Returns-bind Anything Anything OnlySize (eval P l item names values) _ (eval-Returns l c.0)
          λ b _. Returns-if Anything OnlySize b _ _ (λ _. tt) (λ _. eval-Returns r c.1)
    eval-Returns (not_cond n) c =
        Returns-bind Anything Anything OnlySize (eval P n item names values) _ (eval-Returns n c)
          λ b _. tt
    eval-Returns (cmp_cond l op r) c =
        two l r (cmp_values P op) c.0 c.1 λ v w. cmp_values-Returns op v w c.2
    eval-Returns (attr_exists o negate) c =
        Returns-bind Anything Anything OnlySize (resolve P o item names values) _ (resolved o c)
          λ v _. tt
    eval-Returns (begins_with_cond p o) c = two p o _ c.0 c.1 λ v w. tt
    eval-Returns (contains_cond p o) c = two p o _ c.0 c.1 λ v w. tt
    eval-Returns (between_cond o lo hi) c =
        Returns-bind Anything Anything OnlySize (resolve P o item names values) _ (resolved o c.0)
          λ v _. two lo hi _ c.1 c.2 λ l h. tt
    eval-Returns (in_cond o os) c =
        Returns-bind Anything Anything OnlySize (resolve P o item names values) _ (resolved o c.0)
          λ v _.
            Returns-bind Anything Anything OnlySize (resolve_all P os item names values) _
              (resolve_all-Returns os c.1) λ vs _. tt
