-- ===== src/Dynamo/Operand/Safe.antt =====
-- The resolve methods of internal/dynamodb/expression.go on items of typed values.
use kumolo.Prelude.{
  ℕ, ◌≡◌, ◌≢◌, refl, inl, inr, true, false, Option, none, some, List, [], ◌∷◌, All, arith, Returns,
  Returns-bind, Returns-if,
}
use kumolo.Prelude.Bytes.{Bytes, codes, has_prefix}
use kumolo.Dynamo.Token.{ExprError, Token, tok_name_ref, size_unsupported}
use kumolo.Dynamo.Lexer.{is_expr_letter}
use kumolo.Dynamo.Lexer.Spelling.{IsSpelled, IsName}
use kumolo.Dynamo.Value.{Json, obj, arr, Fields, Platform, get, is_nil, Names, lookup}
use kumolo.Dynamo.Typed.{
  IsTyped, IsTypedMap, IsTypedList, AllTyped, IfSome, get-AllTyped, get-IsTypedMap, get-IsTypedList,
  get_elem?-EachTyped,
}
use kumolo.Dynamo.Operand.{
  ProjSegment, Operand, name_ref, val_ref, plain, size, path, find_name, segment_name, attr_round,
  index_round, path_round, is_empty, walk, resolve_path, set_keys, size_of_map, size_of_set,
  size_of_scalar, dynamo_attr_size, size_result, resolve,
}
use kumolo.Dynamo.Parser.Covers.{NameCovered, SegCovered, OperandCovered}

-- The one error that is left: size() of a value that has no size.
abbrev pub OnlySize : ExprError → Type 0
OnlySize e = e ≡ size_unsupported

abbrev pub Anything : {A : Type 0} → A → Type 0
Anything a = Unit

module _ (P : Platform) where
  size_of_map-Returns : (m : Fields) → Returns Anything OnlySize (size_of_map P m)
  unfolding size_of_map
  size_of_map-Returns m = ground arith

  size_of_set-Returns :
      (ks : List Bytes) (m : Fields) → Returns Anything OnlySize (size_of_set P ks m)
  unfolding size_of_set
  size_of_set-Returns [] m = size_of_map-Returns m
  size_of_set-Returns (k ∷ ks) m = ground (arith, size_of_set-Returns ks m)

  size_of_scalar-Returns : (m : Fields) → Returns Anything OnlySize (size_of_scalar P m)
  unfolding size_of_scalar
  size_of_scalar-Returns m = ground (arith, size_of_set-Returns (set_keys P) m)

  dynamo_attr_size-Returns : (v : Json) → Returns Anything OnlySize (dynamo_attr_size P v)
  unfolding dynamo_attr_size
  dynamo_attr_size-Returns (obj m) = size_of_scalar-Returns m
  dynamo_attr_size-Returns v = tt

  size_result-Returns : (v : Json) → Returns Anything OnlySize (size_result P v)
  unfolding size_result
  size_result-Returns v =
      Returns-if Anything OnlySize (is_nil v) _ _ (λ _. tt)
        λ _.
          Returns-bind Anything Anything OnlySize (dynamo_attr_size P v) _
            (dynamo_attr_size-Returns v) λ _ _. tt

not_empty : (a : Bytes) → is_empty a ≡ false → a ≢ []
not_empty [] h e = cc
not_empty (c ∷ a) h e = cc

module _ (names : Names) where
  -- A name placeholder has an entry in ExpressionAttributeNames.
  abbrev pub Known : Token → Type 0
  Known t = t.kind ≡ tok_name_ref → lookup t.val names ≢ none

  abbrev pub Sound : Token → Type 0
  Sound t = IsSpelled t.kind t.val × Known t

  find_name-Returns :
      (a : Bytes) → lookup a names ≢ none → Returns Anything OnlySize (find_name names a)
  unfolding find_name
  find_name-Returns a h = ground arith

  ident_no_hash : (a : Bytes) → IsName a → has_prefix a (codes "#") ≡ false
  unfolding has_prefix is_expr_letter
  ident_no_hash [] h = absurd h
  ident_no_hash (c ∷ w) h = ground arith

  segment_name-Returns :
      (a : Bytes) → NameCovered Sound a → Returns Anything OnlySize (segment_name names a)
  unfolding segment_name
  segment_name-Returns a (inl s) =
      Returns-if Anything OnlySize (has_prefix a (codes "#")) _ _
        (λ _. find_name-Returns a (s.1 refl)) λ _. tt
  segment_name-Returns a (inr s) = rw (ident_no_hash a s.0) tt

  -- A step of the walk: nothing, or a typed value.
  abbrev Walked : Option Json → Type 0
  Walked o = IfSome IsTyped o

  attr_round-Returns :
      (a : Bytes) (o : Option Json)
      → NameCovered Sound a
      → IfSome IsTypedMap o
      → Returns Walked OnlySize (attr_round names a o)
  unfolding attr_round
  attr_round-Returns a none c h = tt
  attr_round-Returns a (some (obj m)) c h =
      Returns-bind Anything Walked OnlySize (segment_name names a) _ (segment_name-Returns a c)
        λ name _. get-AllTyped name m h
  attr_round-Returns a (some v) c h = h

  index_round-Returns :
      (i : ℕ) (o : Option Json) → IfSome IsTypedList o → Returns Walked OnlySize (index_round i o)
  unfolding index_round
  index_round-Returns i none h = tt
  index_round-Returns i (some (arr xs)) h = get_elem?-EachTyped xs i h
  index_round-Returns i (some v) h = h

  path_round-Returns :
      (seg : ProjSegment) (v : Json)
      → SegCovered Sound seg
      → IsTyped v
      → Returns Walked OnlySize (path_round names seg v)
  unfolding path_round
  path_round-Returns seg (obj m) c h =
      Returns-if Walked OnlySize (is_empty seg.attr) _ _
        (λ _. index_round-Returns seg.index (get (codes "L") m) (get-IsTypedList m h))
        λ e. elim c [
          | inl empty ↦ absurd (not_empty seg.attr e empty)
          | inr name ↦ attr_round-Returns seg.attr (get (codes "M") m) name (get-IsTypedMap m h)
        ]
  path_round-Returns seg v c h = h

  walk-Returns :
      (segs : List ProjSegment) (o : Option Json)
      → All (SegCovered Sound) segs
      → Walked o
      → Returns Anything OnlySize (walk names segs o)
  unfolding walk
  walk-Returns [] none c h = tt
  walk-Returns [] (some v) c h = tt
  walk-Returns (seg ∷ segs) none c h = tt
  walk-Returns (seg ∷ segs) (some v) c h =
      Returns-bind Walked Anything OnlySize (path_round names seg v) _
        (path_round-Returns seg v c.0 h) λ found h'. walk-Returns segs found c.1 h'

  first_name-Returns :
      (seg : ProjSegment)
      → SegCovered Sound seg
      → Returns Anything OnlySize (segment_name names seg.attr)
  first_name-Returns seg (inl e) = rw e (unfold segment_name has_prefix in tt)
  first_name-Returns seg (inr c) = segment_name-Returns seg.attr c

  module _ (P : Platform) (item : Fields) (typed : AllTyped item) (values : Fields) where
    resolve_path-Returns :
        (segs : List ProjSegment)
        → OperandCovered Sound (path segs)
        → Returns Anything OnlySize (resolve_path item names segs)
    unfolding resolve_path
    resolve_path-Returns [] c = absurd c
    resolve_path-Returns (seg ∷ segs) c =
        Returns-bind Anything Anything OnlySize (segment_name names seg.attr) _
          (first_name-Returns seg c.0)
          λ name _. walk-Returns segs (get name item) c.1 (get-AllTyped name item typed)

    name_ref-Returns :
        (a : Bytes)
        → NameCovered Sound a
        → has_prefix a (codes "#") ≡ true
        → Returns Anything OnlySize (find_name names a)
    name_ref-Returns a (inl s) h = find_name-Returns a (s.1 refl)
    name_ref-Returns a (inr s) h = cc (ident_no_hash a s.0)

    pub resolve-Returns :
        (o : Operand)
        → OperandCovered Sound o
        → Returns Anything OnlySize (resolve P o item names values)
    unfolding resolve
    resolve-Returns (name_ref a) c =
        Returns-bind Anything Anything OnlySize (find_name names a) _ (name_ref-Returns a c.0 c.1)
          λ _ _. tt
    resolve-Returns (val_ref a) c = tt
    resolve-Returns (plain a) c = tt
    resolve-Returns (size o) c =
        Returns-bind Anything Anything OnlySize (resolve P o item names values) _
          (resolve-Returns o c) λ v _. size_result-Returns P v
    resolve-Returns (path segs) c = resolve_path-Returns segs c
