-- ===== src/Kms/Valid/Grants.antt =====
-- CreateGrant, RevokeGrant and the two RetireGrant calls of internal/kms/storage.go, and the
-- validity of the disk.
use kumolo.Prelude.{◌≡◌, refl, Option, none, some, List, [], ◌∷◌}
use kumolo.Prelude.Bytes.{Bytes}
use kumolo.Prelude.Dict.{Dict, insert, remove}
use kumolo.Kms.Types.{CreateGrantInput, Grant}
use kumolo.Kms.Disk.{File, torn, holds, KeyDir, Disk}
use kumolo.Kms.Io.{Env, Act, write_json, remove_file}
use kumolo.Kms.Io.Triple.{
  Any, Keeps, Yields-bind, Yields-then, Yields-guard, Yields-pure, Yields-fail, Yields-attempt,
  Keeps-stat, Keeps-now_unix, Keeps-list_dir, Keeps-write_json, Keeps-remove_file,
}
use kumolo.Kms.Grants.{
  make_grants_dir, grant_names, grant_at, map_grants, write_grant, clear_grant, create_grant,
  revoke_grant, retire_grant_by_id, retire_found, with_token, retire_loop, retire_grant_by_token,
}
use kumolo.Kms.Valid.{DirValid, IsValid}
use kumolo.Kms.Valid.Invariant.{Invariant}
use kumolo.Kms.Valid.Files.{Known, Yields-read_key_meta, Keeps-may_exist, Yields-missing_is}
use kumolo.Kms.Reading.{Keeps-list_grants_for_key, Keeps-list_key_ids_locked}
use kumolo.Kms.Valid.Create.{Keeps-new_key_id}
use kumolo.Kms.Valid.Changes.{IsCalm, IsCalm-same}
use kumolo.Kms.Valid.Changes.KeyDirs.{make_part-IsCalm, write_part-IsCalm}

-- The grants are no matter of the validity of a directory.
with_grants-DirValid :
    (k : Bytes) (m : Dict (File Grant)) (dir : KeyDir)
    → DirValid k dir
    → DirValid k (record dir { grants = some m })
with_grants-DirValid k m dir h = record {
  meta_valid = h.meta_valid;
  few_tags = h.few_tags;
  few_rotations = h.few_rotations;
}

map_grants-IsCalm :
    (f : Dict (File Grant) → Dict (File Grant)) (k : Bytes) (d d' : Disk)
    → IsValid d
    → map_grants f k d ≡ some d'
    → IsCalm d d'
map_grants-IsCalm f k d d' v e =
    write_part-IsCalm (λ dir. dir.grants) (λ dir m. record dir { grants = some (f m) }) k d d'
      (λ dir m h. with_grants-DirValid k (f m) dir h) (λ dir m. refl) v e

clear_grant-IsCalm : (k id : Bytes) (d : Disk) → IsValid d → IsCalm d (clear_grant k id d)
clear_grant-IsCalm k id d v = by_disk (map_grants (remove id) k d) refl
  where
    by_disk :
        (o : Option Disk)
        → map_grants (remove id) k d ≡ o
        → IsCalm d (elim o as (λ _. Disk) [ none ↦ d | some d' ↦ d' ])
    by_disk none e = IsCalm-same d v
    by_disk (some d') e = map_grants-IsCalm (remove id) k d d' v e

module _ (E : Env) (I : Invariant) where
  Keeps-write_grant : (k id : Bytes) (g : Grant) → Keeps I.Holds (write_json E (write_grant k id) g)
  Keeps-write_grant k id g =
      Keeps-write_json I.Holds E (write_grant k id) g
        (λ d d' v e. I.calm d d' v (map_grants-IsCalm (insert id (holds g)) k d d' (I.valid d v) e))
        (λ d d' v e. I.calm d d' v (map_grants-IsCalm (insert id torn) k d d' (I.valid d v) e))

  Keeps-remove_grant :
      (k id : Bytes) → Keeps I.Holds (remove_file E (grant_at k id) (clear_grant k id))
  Keeps-remove_grant k id =
      Keeps-remove_file I.Holds E (grant_at k id) (clear_grant k id)
        λ d v. I.calm d _ v (clear_grant-IsCalm k id d (I.valid d v))

  pub Keeps-create_grant :
      (k : Bytes) (input : CreateGrantInput) → Keeps I.Holds (create_grant E k input)
  unfolding create_grant
  Keeps-create_grant k input =
      Yields-bind I.Holds (Known E I k) Any _ _ (Yields-read_key_meta E I k) λ meta _.
        Yields-guard I.Holds Any _ _ _ λ _. Yields-guard I.Holds Any _ _ _ λ _.
          Yields-then I.Holds Any Any _ _
            (Keeps-may_exist E I (make_grants_dir k) λ d d' v e.
              make_part-IsCalm (λ dir. dir.grants) (λ dir. record dir { grants = some [] }) k d d'
                (λ dir h. with_grants-DirValid k [] dir h) (λ dir. refl) v e)
            (Yields-bind I.Holds Any Any _ _ (Keeps-list_dir I.Holds E (grant_names k)) λ names _.
              Yields-guard I.Holds Any _ _ _ λ _.
                Yields-bind I.Holds Any Any _ _ (Keeps-new_key_id E I) λ id _.
                  Yields-bind I.Holds Any Any _ _ (Keeps-new_key_id E I) λ token _.
                    Yields-bind I.Holds Any Any _ _ (Keeps-now_unix I.Holds E) λ now _.
                      Yields-then I.Holds Any Any _ _ (Keeps-write_grant k id _)
                        (Yields-pure I.Holds Any _ tt))

  pub Keeps-revoke_grant : (k id : Bytes) → Keeps I.Holds (revoke_grant E k id)
  unfolding revoke_grant
  Keeps-revoke_grant k id =
      Yields-bind I.Holds (Known E I k) Any _ _ (Yields-read_key_meta E I k) λ meta _.
        Yields-guard I.Holds Any _ _ _ λ _.
          Yields-bind I.Holds _ Any _ _
            (Yields-attempt I.Holds Any _ (Keeps-stat I.Holds E (grant_at k id)))
            λ there _.
              Yields-guard I.Holds Any _ _ _
                λ _. Yields-missing_is E I Any _ _ (Keeps-remove_grant k id)

  pub Keeps-retire_grant_by_id : (k id : Bytes) → Keeps I.Holds (retire_grant_by_id E k id)
  unfolding retire_grant_by_id
  Keeps-retire_grant_by_id k id = Keeps-revoke_grant k id

  Keeps-retire_found :
      (k : Bytes) (rest : Act (Unit {0})) (o : Option Grant)
      → Keeps I.Holds rest
      → Keeps I.Holds (retire_found E k rest o)
  unfolding retire_found
  Keeps-retire_found k rest none h = h
  Keeps-retire_found k rest (some g) h = Keeps-remove_grant k g.grant_id

  Keeps-retire_loop : (token : Bytes) (ks : List Bytes) → Keeps I.Holds (retire_loop E token ks)
  unfolding retire_loop
  Keeps-retire_loop token [] = Yields-fail I.Holds Any _
  Keeps-retire_loop token (k ∷ ks) =
      Yields-bind I.Holds Any Any _ _ (Keeps-list_grants_for_key E I.Holds k) λ grants _.
        Keeps-retire_found k (retire_loop E token ks) (with_token E token grants)
          (Keeps-retire_loop token ks)

  pub Keeps-retire_grant_by_token : (token : Bytes) → Keeps I.Holds (retire_grant_by_token E token)
  unfolding retire_grant_by_token
  Keeps-retire_grant_by_token token =
      Yields-bind I.Holds Any Any _ _ (Keeps-list_key_ids_locked E I.Holds)
        λ ids _. Keeps-retire_loop token ids
