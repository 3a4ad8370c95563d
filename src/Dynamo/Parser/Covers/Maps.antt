-- ===== src/Dynamo/Parser/Covers/Maps.antt =====
-- Operands and conditions that are covered by some tokens, for two sets of tokens.
use kumolo.Prelude.{inl, inr, List, [], ◌∷◌, All}
use kumolo.Prelude.Bytes.{Bytes}
use kumolo.Dynamo.Token.{Token, token, tok_name_ref, tok_ident, tok_val_ref}
use kumolo.Dynamo.Operand.{ProjSegment, Operand, name_ref, val_ref, plain, size, path}
use kumolo.Dynamo.Cond.{
  Cond, and_cond, or_cond, not_cond, cmp_cond, attr_exists, begins_with_cond, contains_cond,
  between_cond, in_cond,
}
use kumolo.Dynamo.Parser.Covers.{NameCovered, SegCovered, OperandCovered}
use kumolo.Dynamo.Parser.Covers.Conds.{CondCovered}

module _ (K L : Token → Type 0) (into : (t : Token) → K t → L t) where
  NameCovered-map : (a : Bytes) → NameCovered K a → NameCovered L a
  NameCovered-map a (inl h) = inl (into (token tok_name_ref a) h)
  NameCovered-map a (inr h) = inr (into (token tok_ident a) h)

  SegCovered-map : (seg : ProjSegment) → SegCovered K seg → SegCovered L seg
  SegCovered-map seg (inl h) = inl h
  SegCovered-map seg (inr h) = inr (NameCovered-map seg.attr h)

  segs-map : (segs : List ProjSegment) → All (SegCovered K) segs → All (SegCovered L) segs
  segs-map [] h = tt
  segs-map (seg ∷ segs) h = (SegCovered-map seg h.0, segs-map segs h.1)

  OperandCovered-map : (o : Operand) → OperandCovered K o → OperandCovered L o
  OperandCovered-map (name_ref a) h = (NameCovered-map a h.0, h.1)
  OperandCovered-map (val_ref a) h = into (token tok_val_ref a) h
  OperandCovered-map (plain a) h = NameCovered-map a h
  OperandCovered-map (size o) h = OperandCovered-map o h
  OperandCovered-map (path []) h = h
  OperandCovered-map (path (seg ∷ segs)) h = (SegCovered-map seg h.0, segs-map segs h.1)

  operands-map : (os : List Operand) → All (OperandCovered K) os → All (OperandCovered L) os
  operands-map [] h = tt
  operands-map (o ∷ os) h = (OperandCovered-map o h.0, operands-map os h.1)

  pub CondCovered-map : (c : Cond) → CondCovered K c → CondCovered L c
  CondCovered-map (and_cond l r) h = (CondCovered-map l h.0, CondCovered-map r h.1)
  CondCovered-map (or_cond l r) h = (CondCovered-map l h.0, CondCovered-map r h.1)
  CondCovered-map (not_cond c) h = CondCovered-map c h
  CondCovered-map (cmp_cond l op r) h = (OperandCovered-map l h.0, OperandCovered-map r h.1, h.2)
  CondCovered-map (attr_exists o negate) h = OperandCovered-map o h
  CondCovered-map (begins_with_cond p o) h = (OperandCovered-map p h.0, OperandCovered-map o h.1)
  CondCovered-map (contains_cond p o) h = (OperandCovered-map p h.0, OperandCovered-map o h.1)
  CondCovered-map (between_cond o lo hi) h =
      (OperandCovered-map o h.0, OperandCovered-map lo h.1, OperandCovered-map hi h.2)
  CondCovered-map (in_cond o os) h = (OperandCovered-map o h.0, operands-map os h.1)
