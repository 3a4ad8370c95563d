-- ===== src/Kms/Specs/Algorithms.antt =====
-- The usages and algorithms of the key specs of internal/kms/storage_types.go.
use kumolo.Prelude.{
  ℕ, ◌+◌, Bool, true, false, ◌==◌, ◌≡◌, refl, Option, none, some, List, [], ◌∷◌, arith,
  if◌then◌else◌, Bool-cases, inl, inr, subst,
}
use kumolo.Prelude.Bytes.{Bytes, bytes_eq, bytes_eq→≡}
use kumolo.Prelude.Dict.{Dict, find}
use kumolo.Kms.Specs.{
  is_one_of, switch, or_else, valid_key_specs, default_key_usage, valid_key_usages,
  is_valid_key_usage_for_spec, encryption_algorithms_for_key, signing_algorithms_for_key,
  key_agreement_algorithms_for_key, mac_algorithms_for_key,
}

every : {A : Type 0} → (A → Bool) → List A → Bool
every P [] = true
every P (a ∷ more) = let rest = every P more in if P a then rest else false

every-is_one_of :
    (P : Bytes → Bool) (k : Bytes) (ws : List Bytes)
    → every P ws ≡ true
    → is_one_of k ws ≡ true
    → P k ≡ true
unfolding every is_one_of
every-is_one_of P k [] h e = cc
every-is_one_of P k (w ∷ ws) h e = elim (Bool-cases (bytes_eq w k)) [
  | inl s ↦
      let same : w ≡ k = bytes_eq→≡ w k s in
      let first : P w ≡ true = ground arith in subst (λ x. P x ≡ true) same first
  | inr s ↦ every-is_one_of P k ws (ground arith) (rw s at e)
]

every-find :
    {V : Type 0} (P : Bytes × V → Bool) (k : Bytes) (v : V) (d : Dict V)
    → every P d ≡ true
    → find k d ≡ some v
    → P (k, v) ≡ true
unfolding every find
every-find P k v [] h e = cc
every-find P k v ((j, u) ∷ d) h e = elim (Bool-cases (bytes_eq j k)) [
  | inl s ↦
      let same : j ≡ k = bytes_eq→≡ j k s in
      let found : some u ≡ some v = rw s at e in
      let value : u ≡ v = cc in
      let first : P (j, u) ≡ true = ground arith in
      subst (λ x. P (k, x) ≡ true) value (subst (λ x. P (x, u) ≡ true) same first)
  | inr s ↦ every-find P k v d (ground arith) (rw s at e)
]

abbrev pub is_any : List Bytes → ℕ
is_any [] = 0
is_any (a ∷ more) = 1

-- How many of the four kinds of algorithm a key has.
abbrev pub kinds : Bytes → Bytes → ℕ
kinds spec usage =
    is_any (encryption_algorithms_for_key spec usage)
    + is_any (signing_algorithms_for_key spec usage)
    + is_any (key_agreement_algorithms_for_key spec usage)
    + is_any (mac_algorithms_for_key spec)

abbrev one_kind : Bytes → Bytes → Bool
one_kind spec usage = kinds spec usage == 1

table_has_one_kind : every (λ e. every (one_kind e.0) e.1) valid_key_usages ≡ true
unfolding every switch is_one_of encryption_algorithms_for_key signing_algorithms_for_key
    key_agreement_algorithms_for_key mac_algorithms_for_key bytes_eq
table_has_one_kind = refl

table_has_defaults :
    every
      (λ spec. is_valid_key_usage_for_spec spec (or_else [] (find spec default_key_usage)))
      valid_key_specs
    ≡ true
unfolding every find is_one_of is_valid_key_usage_for_spec bytes_eq
table_has_defaults = refl

eq-1 : (n : ℕ) → (n == 1) ≡ true → n ≡ 1
eq-1 n e = ground arith

-- A key whose usage is valid for its spec has algorithms of exactly one kind: for encryption, for
-- signing, for key agreement or for MACs.
pub kinds_one :
    (spec usage : Bytes) → is_valid_key_usage_for_spec spec usage ≡ true → kinds spec usage ≡ 1
unfolding is_valid_key_usage_for_spec is_one_of
kinds_one spec usage h = by_entry (find spec valid_key_usages) refl h
  where
    by_entry :
        (o : Option (List Bytes))
        → find spec valid_key_usages ≡ o
        → is_one_of usage (or_else [] o) ≡ true
        → kinds spec usage ≡ 1
    by_entry none e h' = cc
    by_entry (some usages) e h' = eq-1 _ (
        every-is_one_of (one_kind spec) usage usages
          (every-find (λ e. every (one_kind e.0) e.1) spec usages valid_key_usages
            table_has_one_kind e)
          h')

-- Each spec that is valid has a default usage, and it is valid for the spec.
pub is_valid_key_usage_for_spec-default_key_usage :
    (spec : Bytes)
    → is_one_of spec valid_key_specs ≡ true
    → is_valid_key_usage_for_spec spec (or_else [] (find spec default_key_usage)) ≡ true
is_valid_key_usage_for_spec-default_key_usage spec h =
    every-is_one_of (λ s. is_valid_key_usage_for_spec s (or_else [] (find s default_key_usage)))
      spec valid_key_specs table_has_defaults h
