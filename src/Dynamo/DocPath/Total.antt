-- ===== src/Dynamo/DocPath/Total.antt =====
-- The ends of parseProjPath and parseUpdatePath.
use kumolo.Prelude.{
  ◌==◌, ◌⊎◌, refl, inl, inr, Option-cases, Bool-cases, ℕ, zero, suc, ◌≤◌, ◌≢◌, ◌≡◌, List, [], ◌∷◌,
  ◌++◌, length, ltb, arith, Returns, Returns-bind, Returns-if,
}
use kumolo.Prelude.Bytes.{Bytes}
use kumolo.Dynamo.Lexer.{take_while, drop_while}
use kumolo.Dynamo.Lexer.Words.{length-drop_while}
use kumolo.Dynamo.Lexer.Total.{AnyError}
use kumolo.Dynamo.Value.{Names}
use kumolo.Dynamo.Operand.{ProjSegment, is_empty}
use kumolo.Dynamo.DocPath.{
  push_byte, split, trim_space, resolve_attr_name, read_index, not_byte, index_steps, named_part,
  path_part, path_parts, parse_proj_path, parse_update_path,
}

abbrev Anything : List ProjSegment → Type 0
Anything segs = Unit

abbrev pub HasStep : List ProjSegment → Type 0
HasStep segs = segs ≢ []

rest_cases : (s : Bytes) → (s ≡ []) ⊎ ((b : ℕ) × (rest : Bytes) × (s ≡ b ∷ rest))
rest_cases [] = inl refl
rest_cases (b ∷ rest) = inr (b, rest, refl)

index_steps-Returns :
    (f : ℕ) (token s : Bytes) → length s ≤ f → Returns Anything AnyError (index_steps f token s)
unfolding index_steps
index_steps-Returns f token [] h = tt
index_steps-Returns zero token (c ∷ s) h = absurd (omega arith)
index_steps-Returns (suc f) token (c ∷ s) h =
    Returns-if Anything AnyError (c == b'[') _ _
      (λ _. elim (rest_cases (drop_while (not_byte b']') s)) [
        | inl e ↦ rw e tt
        | inr (b, rest, e) ↦ rw e (elim (Option-cases (read_index (take_while (not_byte b']') s))) [
          | inl n ↦ rw n tt
          | inr (n, q) ↦ rw q (
              Returns-bind Anything Anything AnyError _ _
                (index_steps-Returns f token rest (
                  let shorter = length-drop_while (not_byte b']') s in
                  let same : length (drop_while (not_byte b']') s) ≡ suc (length rest) =
                    rw e refl in
                  omega (arith, shorter, same)))
                (λ _ _. tt))
        ])
      ])
      (λ _. tt)

resolve_attr_name-Returns :
    (ref : Bytes) (names : Names) → Returns (λ _. Unit) AnyError (resolve_attr_name ref names)
unfolding resolve_attr_name
resolve_attr_name-Returns ref names = ground arith

named_part-Returns :
    (token : Bytes) (names : Names) (part : Bytes)
    → Returns HasStep AnyError (named_part token names part)
unfolding named_part
named_part-Returns token names part =
    Returns-if HasStep AnyError (is_empty (take_while (not_byte b'[') part)) _ _ (λ _. tt)
      (λ _.
        Returns-bind (λ _. Unit) HasStep AnyError _ _ (resolve_attr_name-Returns _ names)
          (λ actual _.
            Returns-bind Anything HasStep AnyError _ _
              (index_steps-Returns _ token (drop_while (not_byte b'[') part) (omega arith))
              (λ more _. λ e. cc)))

path_part-Returns :
    (token : Bytes) (names : Names) (part : Bytes)
    → Returns HasStep AnyError (path_part token names part)
unfolding path_part
path_part-Returns token names part =
    Returns-if HasStep AnyError (is_empty part) _ _ (λ _. tt)
      (λ _. named_part-Returns token names part)

path_parts-Returns :
    (token : Bytes) (names : Names) (parts : List Bytes)
    → Returns Anything AnyError (path_parts token names parts)
unfolding path_parts
path_parts-Returns token names [] = tt
path_parts-Returns token names (part ∷ parts) =
    Returns-bind HasStep Anything AnyError _ _ (path_part-Returns token names (trim_space part))
      (λ segs _.
        Returns-bind Anything Anything AnyError _ _ (path_parts-Returns token names parts)
          (λ _ _. tt))

first_part-Returns :
    (token : Bytes) (names : Names) (parts : List Bytes)
    → parts ≢ []
    → Returns HasStep AnyError (path_parts token names parts)
unfolding path_parts
first_part-Returns token names [] h = absurd (h refl)
first_part-Returns token names (part ∷ parts) h =
    Returns-bind HasStep HasStep AnyError _ _ (path_part-Returns token names (trim_space part))
      (λ segs ne.
        Returns-bind Anything HasStep AnyError _ _ (path_parts-Returns token names parts)
          (λ more _. append-HasStep segs more ne))
  where
    append-HasStep : (segs more : List ProjSegment) → HasStep segs → HasStep (segs ++ more)
    append-HasStep [] more ne = absurd (ne refl)
    append-HasStep (s ∷ segs) more ne = λ e. cc

split-parts : (sep : ℕ) (s : Bytes) → split sep s ≢ []
unfolding split push_byte
split-parts sep [] = λ e. cc
split-parts sep (c ∷ s) = elim (Bool-cases (c == sep)) [
  | inl e ↦ rw e (λ q. cc)
  | inr e ↦ rw e (pushed (split sep s))
]
  where
    pushed : (ps : List Bytes) → push_byte c ps ≢ []
    pushed [] = λ q. cc
    pushed (p ∷ ps) = λ q. cc

pub parse_proj_path-HasStep :
    (token : Bytes) (names : Names) → Returns HasStep AnyError (parse_proj_path token names)
unfolding parse_proj_path
parse_proj_path-HasStep token names =
    first_part-Returns token names (split b'.' token) (split-parts b'.' token)

-- On every text parseUpdatePath returns an error or a path of one to 33 steps.
pub parse_update_path-HasStep :
    (token : Bytes) (names : Names)
    → Returns (λ segs. HasStep segs × (length segs ≤ 33)) AnyError (parse_update_path token names)
unfolding parse_update_path
parse_update_path-HasStep token names =
    Returns-bind HasStep (λ segs. HasStep segs × (length segs ≤ 33)) AnyError _ _
      (parse_proj_path-HasStep token names)
      (λ segs ne.
        Returns-if (λ segs. HasStep segs × (length segs ≤ 33)) AnyError (ltb 33 (length segs)) _ _
          (λ _. tt) (λ e. (ne, ground (arith, e))))
