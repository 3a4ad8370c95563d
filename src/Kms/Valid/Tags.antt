-- ===== src/Kms/Valid/Tags.antt =====
-- TagResource and UntagResource of internal/kms/storage.go, and the validity of the disk.
use kumolo.Prelude.{ℕ, ◌≡◌, ◌≤◌, refl, false, List, [], ◌∷◌, length, ltb, arith}
use kumolo.Prelude.Bytes.{Bytes}
use kumolo.Prelude.Dict.{Dict, remove}
use kumolo.Kms.Disk.{file_at, tags_json}
use kumolo.Kms.Io.{Env, write_json, write_at}
use kumolo.Kms.Io.Triple.{Any, Yields, Keeps, Yields-bind, Yields-guard}
use kumolo.Kms.Tags.{
  max_tags_per_key, add_tags, drop_tags, existing_tags, tag_resource, untag_resource,
}
use kumolo.Kms.Valid.Invariant.{Invariant}
use kumolo.Kms.Valid.Changes.{file_at-Readable}
use kumolo.Kms.Valid.Files.{Known, Yields-read_key_meta, Keeps-write_at, Yields-or_missing}

abbrev FewTags : Dict Bytes → Type 0
FewTags d = length d ≤ max_tags_per_key

length-remove : (k : Bytes) (d : Dict Bytes) → length (remove k d) ≤ length d
unfolding remove
length-remove k [] = omega arith
length-remove k ((j, v) ∷ d) = ground (arith, length-remove k d)

length-drop_tags : (ks : List Bytes) (d : Dict Bytes) → length (drop_tags ks d) ≤ length d
unfolding drop_tags
length-drop_tags [] d = omega arith
length-drop_tags (k ∷ ks) d = omega (arith, length-drop_tags ks (remove k d), length-remove k d)

module _ (E : Env) (I : Invariant) where
  Yields-existing_tags : (k : Bytes) → Yields I.Holds FewTags (existing_tags E k)
  unfolding existing_tags
  Yields-existing_tags k =
      Yields-or_missing E I FewTags [] (file_at tags_json k) (omega arith)
        (λ d v t e. file_at-Readable tags_json FewTags k d (λ dir h. h.few_tags) v t e)

  Keeps-write_tags :
      (k : Bytes) (t : Dict Bytes)
      → FewTags t
      → Keeps I.Holds (write_json E (write_at tags_json k) t)
  Keeps-write_tags k t h =
      Keeps-write_at E I tags_json k t
        (λ dir q. record {
          meta_valid = q.meta_valid;
          few_tags = h;
          few_rotations = q.few_rotations;
        })
        (λ dir q. record {
          meta_valid = q.meta_valid;
          few_tags = tt;
          few_rotations = q.few_rotations;
        })
        (λ f dir. refl)

  ltb-≤ : (m n : ℕ) → ltb m n ≡ false → n ≤ m
  ltb-≤ m n e = ground arith

  pub Keeps-tag_resource :
      (k : Bytes) (tags : List (Bytes × Bytes)) → Keeps I.Holds (tag_resource E k tags)
  unfolding tag_resource
  Keeps-tag_resource k tags =
      Yields-bind I.Holds (Known E I k) Any _ _ (Yields-read_key_meta E I k) λ meta _.
        Yields-guard I.Holds Any _ _ _ λ _.
          Yields-bind I.Holds FewTags Any _ _ (Yields-existing_tags k) λ t _.
            Yields-guard I.Holds Any _ _ _
              λ few. Keeps-write_tags k (add_tags tags t) (ltb-≤ _ _ few)

  pub Keeps-untag_resource :
      (k : Bytes) (names : List Bytes) → Keeps I.Holds (untag_resource E k names)
  unfolding untag_resource
  Keeps-untag_resource k names =
      Yields-bind I.Holds (Known E I k) Any _ _ (Yields-read_key_meta E I k) λ meta _.
        Yields-guard I.Holds Any _ _ _ λ _.
          Yields-bind I.Holds FewTags Any _ _ (Yields-existing_tags k) λ t few.
            Keeps-write_tags k (drop_tags names t) (omega (arith, few, length-drop_tags names t))
