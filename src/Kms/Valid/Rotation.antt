-- ===== src/Kms/Valid/Rotation.antt =====
-- Rotation in internal/kms/storage.go, and the validity of the disk.
use kumolo.Prelude.{ℕ, suc, ◌≡◌, ◌≤◌, refl, false, some, List, [], ◌∷◌, ◌++◌, leb, arith}
use kumolo.Prelude.Bytes.{Bytes}
use kumolo.Prelude.Dict.{Dict, insert}
use kumolo.Kms.Types.{KeyMetadata, KeyMaterial, RotationRecord, RotationType, automatic, on_demand}
use kumolo.Kms.Disk.{
  File, torn, holds, KeyDir, Disk, file_at, material_json, rotation_json, rotation_history_json,
}
use kumolo.Kms.Io.{Env, fail_if, write_json, write_at}
use kumolo.Kms.Io.Triple.{
  Any, OnDone-Any, Yields, Keeps, Yields-bind, Yields-then, Yields-guard, Yields-pure,
  Yields-read_json, Keeps-now_unix, Keeps-rand_read, Keeps-write_json,
}
use kumolo.Kms.Rotation.{
  count_on_demand, max_on_demand_rotations, make_materials_dir, write_old_material,
  require_symmetric, require_enabled, enable_key_rotation, disable_key_rotation,
  read_rotation_history, renew_material, rotate_key_on_demand,
}
use kumolo.Kms.Valid.{DirValid, IsValid}
use kumolo.Kms.Valid.Invariant.{Invariant}
use kumolo.Kms.Valid.Changes.{IsCalm, file_at-Readable}
use kumolo.Kms.Valid.Changes.KeyDirs.{make_part-IsCalm, write_part-IsCalm}
use kumolo.Kms.Valid.Create.{material_json-IsHarmless}
use kumolo.Kms.Valid.Files.{
  Known, IsHarmless, Yields-read_key_meta, Keeps-write_at, Keeps-write_harmless, Yields-or_missing,
  Keeps-may_exist,
}

abbrev FewRotations : List RotationRecord → Type 0
FewRotations h = count_on_demand h ≤ max_on_demand_rotations

count_on_demand-append :
    (h : List RotationRecord) (r : RotationRecord)
    → count_on_demand (h ++ (r ∷ [])) ≤ suc (count_on_demand h)
count_on_demand-append [] r = by_type r.rotation_type
  where
    by_type : (t : RotationType) → elim t as (λ _. ℕ) [ on_demand ↦ 1 | automatic ↦ 0 ] ≤ 1
    by_type on_demand = omega arith
    by_type automatic = omega arith
count_on_demand-append (x ∷ h) r = by_type x.rotation_type (count_on_demand-append h r)
  where
    by_type :
        (t : RotationType)
        → count_on_demand (h ++ (r ∷ [])) ≤ suc (count_on_demand h)
        → elim t as (λ _. ℕ) [
          | on_demand ↦ suc (count_on_demand (h ++ (r ∷ [])))
          | automatic ↦ count_on_demand (h ++ (r ∷ []))
        ]
          ≤ suc (elim t as (λ _. ℕ) [
            | on_demand ↦ suc (count_on_demand h)
            | automatic ↦ count_on_demand h
          ])
    by_type on_demand rest = omega (arith, rest)
    by_type automatic rest = omega (arith, rest)

rotation_json-IsHarmless : IsHarmless rotation_json
rotation_json-IsHarmless = (
  λ k f dir h. record {
    meta_valid = h.meta_valid;
    few_tags = h.few_tags;
    few_rotations = h.few_rotations;
  },
  λ f dir. refl,
)

module _ (E : Env) (I : Invariant) where
  Keeps-require_symmetric : (meta : KeyMetadata) → Keeps I.Holds (require_symmetric E meta)
  unfolding require_symmetric fail_if
  Keeps-require_symmetric meta w v = (v, OnDone-Any _)

  Keeps-require_enabled : (meta : KeyMetadata) → Keeps I.Holds (require_enabled E meta)
  unfolding require_enabled
  Keeps-require_enabled meta =
      Yields-guard I.Holds Any _ _ _
        λ _. Yields-guard I.Holds Any _ _ _ λ _. Keeps-require_symmetric meta

  pub Keeps-enable_key_rotation :
      (k : Bytes) (days : ℕ) → Keeps I.Holds (enable_key_rotation E k days)
  unfolding enable_key_rotation
  Keeps-enable_key_rotation k days =
      Yields-bind I.Holds (Known E I k) Any _ _ (Yields-read_key_meta E I k) λ meta _.
        Yields-then I.Holds Any Any _ _ (Keeps-require_enabled meta) (
          Yields-bind I.Holds Any Any _ _ (Keeps-now_unix I.Holds E)
            λ now _. Keeps-write_harmless E I rotation_json k _ rotation_json-IsHarmless)

  pub Keeps-disable_key_rotation : (k : Bytes) → Keeps I.Holds (disable_key_rotation E k)
  unfolding disable_key_rotation
  Keeps-disable_key_rotation k =
      Yields-bind I.Holds (Known E I k) Any _ _ (Yields-read_key_meta E I k) λ meta _.
        Yields-then I.Holds Any Any _ _ (Keeps-require_enabled meta)
          (Keeps-write_harmless E I rotation_json k _ rotation_json-IsHarmless)

  Yields-read_rotation_history :
      (k : Bytes) → Yields I.Holds FewRotations (read_rotation_history E k)
  unfolding read_rotation_history
  Yields-read_rotation_history k =
      Yields-or_missing E I FewRotations [] (file_at rotation_history_json k) (omega arith)
        (λ d v h e.
          file_at-Readable rotation_history_json FewRotations k d (λ dir q. q.few_rotations) v h e)

  -- The materials are no matter of the validity of a directory.
  with_materials-DirValid :
      (k : Bytes) (m : Dict (File KeyMaterial)) (dir : KeyDir)
      → DirValid k dir
      → DirValid k (record dir { materials = some m })
  with_materials-DirValid k m dir h = record {
    meta_valid = h.meta_valid;
    few_tags = h.few_tags;
    few_rotations = h.few_rotations;
  }

  Keeps-write_old_material :
      (k id : Bytes) (m : KeyMaterial) → Keeps I.Holds (write_json E (write_old_material k id) m)
  Keeps-write_old_material k id m =
      Keeps-write_json I.Holds E (write_old_material k id) m
        (λ d d' v e. I.calm d d' v (stays (holds m) d d' (I.valid d v) e))
        (λ d d' v e. I.calm d d' v (stays torn d d' (I.valid d v) e))
    where
      stays :
          (f : File KeyMaterial) (d d' : Disk)
          → IsValid d
          → write_old_material k id f d ≡ some d'
          → IsCalm d d'
      stays f d d' v e =
          write_part-IsCalm (λ dir. dir.materials)
            (λ dir m. record dir { materials = some (insert id f m) }) k d d'
            (λ dir m h. with_materials-DirValid k _ dir h) (λ dir m. refl) v e

  Keeps-write_history :
      (k : Bytes) (h : List RotationRecord)
      → FewRotations h
      → Keeps I.Holds (write_json E (write_at rotation_history_json k) h)
  Keeps-write_history k h few =
      Keeps-write_at E I rotation_history_json k h
        (λ dir q. record { meta_valid = q.meta_valid; few_tags = q.few_tags; few_rotations = few })
        (λ dir q. record { meta_valid = q.meta_valid; few_tags = q.few_tags; few_rotations = tt })
        (λ f dir. refl)

  -- One more on-demand rotation is within the limit where the guard lets it pass.
  FewRotations-append :
      (h : List RotationRecord) (r : RotationRecord)
      → leb max_on_demand_rotations (count_on_demand h) ≡ false
      → FewRotations (h ++ (r ∷ []))
  FewRotations-append h r e =
      let less : suc (count_on_demand h) ≤ max_on_demand_rotations = ground arith in
      omega (arith, less, count_on_demand-append h r)

  -- What follows the guards: the old material is kept beside the new one.
  Keeps-new_material :
      (k : Bytes) (meta : KeyMetadata) (history : List RotationRecord)
      → leb max_on_demand_rotations (count_on_demand history) ≡ false
      → Keeps I.Holds (renew_material E k meta history)
  unfolding renew_material
  Keeps-new_material k meta history few =
      Yields-bind I.Holds Any Any _ _
        (Yields-read_json I.Holds E Any (file_at material_json k) (λ _ _ _ _. tt))
        λ current _.
          Yields-then I.Holds Any Any _ _
            (Keeps-may_exist E I (make_materials_dir k) λ d d' v e.
              make_part-IsCalm (λ dir. dir.materials) (λ dir. record dir { materials = some [] }) k
                d d' (λ dir h. with_materials-DirValid k [] dir h) (λ dir. refl) v e)
            (Yields-then I.Holds Any Any _ _ (Keeps-write_old_material k _ current) (
              Yields-bind I.Holds Any Any _ _ (Keeps-rand_read I.Holds E 32) λ key _.
                Yields-bind I.Holds Any Any _ _ (Keeps-rand_read I.Holds E 32) λ id _.
                  Yields-then I.Holds Any Any _ _
                    (Keeps-write_harmless E I material_json k _ material_json-IsHarmless)
                    (Yields-bind I.Holds Any Any _ _ (Keeps-now_unix I.Holds E)
                      λ now _. Keeps-write_history k _ (FewRotations-append history _ few))))

  pub Keeps-rotate_key_on_demand : (k : Bytes) → Keeps I.Holds (rotate_key_on_demand E k)
  unfolding rotate_key_on_demand
  Keeps-rotate_key_on_demand k =
      Yields-bind I.Holds (Known E I k) Any _ _ (Yields-read_key_meta E I k) λ meta _.
        Yields-then I.Holds Any Any _ _ (Keeps-require_enabled meta) (
          Yields-bind I.Holds FewRotations Any _ _ (Yields-read_rotation_history k) λ history _.
            Yields-guard I.Holds Any _ _ _ λ few.
              Yields-then I.Holds Any Any _ _ (Keeps-new_material k meta history few)
                (Yields-pure I.Holds Any _ tt))
