-- ===== src/Kms/References.antt =====
-- The references to keys and aliases of internal/kms/storage_types.go.
use kumolo.Prelude.{ℕ, ◌≡◌, refl, some, ◌∷◌, ◌++◌, true}
use kumolo.Prelude.Bytes.{Bytes, codes, has_prefix, contains}
use kumolo.Kms.Types.{
  key_arn, alias_arn_of, cut_behind, resolve_key_id, normalize_alias_ref, is_alias_ref,
}

-- The ARN of a key gives back its ID, and the ARN of an alias its name, where what comes behind the
-- prefix of the ID or name is not empty; the ARN of an alias counts as a reference to one.
pub resolve_key_id-key_arn :
    (c : ℕ) (s : Bytes)
    → (resolve_key_id (key_arn (c ∷ s)) ≡ some (c ∷ s))
      × ((normalize_alias_ref (alias_arn_of (codes "alias/" ++ (c ∷ s)))
            ≡ some (codes "alias/" ++ (c ∷ s)))
          × (is_alias_ref (alias_arn_of (codes "alias/" ++ (c ∷ s))) ≡ true))
unfolding resolve_key_id normalize_alias_ref is_alias_ref cut_behind has_prefix contains
resolve_key_id-key_arn c s = (refl, (refl, refl))
