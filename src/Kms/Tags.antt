-- ===== src/Kms/Tags.antt =====
-- The tags of a key in internal/kms/storage.go.
use kumolo.Prelude.{ℕ, List, [], ◌∷◌, length, ltb}
use kumolo.Prelude.Bytes.{Bytes}
use kumolo.Prelude.Dict.{Dict, insert, remove}
use kumolo.Prelude.Sort.{sort_by}
use kumolo.Kms.Types.{is_pending}
use kumolo.Kms.Disk.{file_at, tags_json}
use kumolo.Kms.Io.{
  invalid_key_state, tag_limit_exceeded, Env, Act, pure, ◌>>=◌, ◌>>◌, attempt, fail_if, read_json,
  write_json, write_at,
}
use kumolo.Kms.Keys.{key_exists, read_key_meta}
use kumolo.Kms.Rotation.{or_missing, lift}

abbrev pub max_tags_per_key : ℕ
max_tags_per_key = 50

-- `for _, t := range tags { existing[t.TagKey] = t.TagValue }`
pub add_tags : List (Bytes × Bytes) → Dict Bytes → Dict Bytes
add_tags [] d = d
add_tags ((k, v) ∷ ts) d = add_tags ts (insert k v d)

unfoldable pub drop_tags : List Bytes → Dict Bytes → Dict Bytes
drop_tags [] d = d
drop_tags (k ∷ ks) d = drop_tags ks (remove k d)

module _ (E : Env) where
  unfoldable pub existing_tags : Bytes → Act (Dict Bytes)
  existing_tags k = do r ← attempt (read_json E (file_at tags_json k)); lift (or_missing [] r)

  unfoldable pub get_tags : Bytes → Act (List (Bytes × Bytes))
  unfolding existing_tags
  get_tags k = do key_exists E k; d ← existing_tags k; pure (sort_by (λ t. t.0) d)

  unfoldable pub tag_resource : Bytes → List (Bytes × Bytes) → Act (Unit {0})
  unfolding existing_tags
  tag_resource k tags = do
    meta ← read_key_meta E k
    fail_if (is_pending meta.key_state) invalid_key_state
    d ← existing_tags k
    fail_if (ltb max_tags_per_key (length (add_tags tags d))) tag_limit_exceeded
    write_json E (write_at tags_json k) (add_tags tags d)

  unfoldable pub untag_resource : Bytes → List Bytes → Act (Unit {0})
  unfolding existing_tags
  untag_resource k names = do
    meta ← read_key_meta E k
    fail_if (is_pending meta.key_state) invalid_key_state
    d ← existing_tags k
    write_json E (write_at tags_json k) (drop_tags names d)
