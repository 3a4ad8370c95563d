-- ===== src/Kms/Reading.antt =====
-- The calls of internal/kms/storage.go that only read, and any property of the disk.
use kumolo.Prelude.{ℕ, Bool, List, [], ◌∷◌}
use kumolo.Prelude.Bytes.{Bytes}
use kumolo.Kms.Disk.{Disk, File, file_at, alias_at, meta_json, policy_json, material_json}
use kumolo.Kms.Io.{
  Env, Outcome, done, failed, Act, KmsError, is_not_exist, pure, ◌>>=◌, attempt, fail_if, read_json,
}
use kumolo.Kms.Io.Triple.{
  Any, OnDone-Any, Keeps, Yields-bind, Yields-then, Yields-caught, Yields-guard, Yields-if,
  Yields-pure, Yields-fail, Yields-attempt, Yields-read_json, Keeps-stat, Keeps-list_dir,
}
use kumolo.Kms.Keys.{missing_is, key_exists, read_key_meta, get_key_policy, get_key_material}
use kumolo.Kms.Aliases.{alias_names, read_alias, read_entries, list_aliases, resolve_alias}
use kumolo.Kms.Rotation.{
  lift, or_missing, require_symmetric, get_key_rotation_status, read_rotation_history,
  list_key_rotations, old_material_names, old_material_at, read_materials,
  get_previous_key_materials,
}
use kumolo.Kms.Tags.{existing_tags, get_tags}
use kumolo.Kms.Grants.{
  has_id, grant_names, grant_at, read_grants, list_grants_for_key, list_grants, key_names, has_meta,
  key_loop, list_key_ids_locked, list_key_ids, retirable_loop, list_retirable_grants,
}

module _ (E : Env) (I : Disk → Type 0) where
  Keeps-read : {A : Type 0} (file : Disk → File A) → Keeps I (read_json E file)
  Keeps-read file = Yields-read_json I E Any file λ _ _ _ _. tt

  Keeps-missing_is :
      {A : Type 0} (e : KmsError) (m : Act A) → Keeps I m → Keeps I (missing_is E e m)
  Keeps-missing_is e m h =
      Yields-caught I Any Any _ _ h (λ a q. Yields-pure I Any a tt) (λ x. Yields-fail I Any _)

  Keeps-lift : {A : Type 0} (r : Outcome A) → Keeps I (lift r)
  unfolding lift
  Keeps-lift r w v = (v, OnDone-Any r)

  -- A call of which the rest looks at the error.
  Keeps-tried :
      {A B : Type 0} (m : Act A) (f : Outcome A → Act B)
      → Keeps I m
      → ((r : Outcome A) → Keeps I (f r))
      → Keeps I (attempt m >>= f)
  Keeps-tried m f h k = Yields-bind I _ Any _ _ (Yields-attempt I Any m h) λ r _. k r

  pub Keeps-next :
      {A B : Type 0} (m : Act A) (f : A → Act B)
      → Keeps I m
      → ((a : A) → Keeps I (f a))
      → Keeps I (m >>= f)
  Keeps-next m f h k = Yields-bind I Any Any m f h λ a _. k a

  pub Keeps-done : {A : Type 0} (a : A) → Keeps I (pure a)
  Keeps-done a = Yields-pure I Any a tt

  Keeps-exists : (k : Bytes) → Keeps I (key_exists E k)
  unfolding key_exists
  Keeps-exists k = Keeps-missing_is _ _ (Keeps-stat I E (file_at meta_json k))

  pub Keeps-meta : (k : Bytes) → Keeps I (read_key_meta E k)
  unfolding read_key_meta
  Keeps-meta k = Keeps-missing_is _ _ (Keeps-read (file_at meta_json k))

  pub Keeps-get_key_policy : (k : Bytes) → Keeps I (get_key_policy E k)
  unfolding get_key_policy
  Keeps-get_key_policy k =
      Yields-then I Any Any _ _ (Keeps-exists k) (Keeps-read (file_at policy_json k))

  pub Keeps-get_key_material : (k : Bytes) → Keeps I (get_key_material E k)
  unfolding get_key_material
  Keeps-get_key_material k = Yields-then I Any Any _ _ (Keeps-exists k) (
      Keeps-next _ _ (Keeps-missing_is _ _ (Keeps-read (file_at material_json k)))
        λ mat. Keeps-next _ _ (Keeps-meta k) λ meta. Yields-guard I Any _ _ _ λ _. Keeps-done mat)

  Keeps-guarded : (b : Bool) (e : KmsError) → Keeps I (fail_if b e)
  unfolding fail_if
  Keeps-guarded b e w v = (v, OnDone-Any _)

  pub Keeps-get_key_rotation_status : (k : Bytes) → Keeps I (get_key_rotation_status E k)
  unfolding get_key_rotation_status require_symmetric
  Keeps-get_key_rotation_status k = Keeps-next _ _ (Keeps-meta k) λ meta.
      Yields-guard I Any _ _ _ λ _. Yields-guard I Any _ _ _ λ _.
        Keeps-tried _ _ (Keeps-read _)
          λ r. Keeps-next _ _ (Keeps-lift (or_missing _ r)) λ cfg. Keeps-done _

  pub Keeps-list_key_rotations :
      (k : Bytes) (limit : ℕ) (marker : Bytes) → Keeps I (list_key_rotations E k limit marker)
  unfolding list_key_rotations require_symmetric read_rotation_history
  Keeps-list_key_rotations k limit marker = Keeps-next _ _ (Keeps-meta k) λ meta.
      Yields-guard I Any _ _ _ λ _. Yields-guard I Any _ _ _ λ _.
        Keeps-next _ _ (Keeps-tried _ _ (Keeps-read _) λ r. Keeps-lift (or_missing [] r))
          λ history. Keeps-lift _

  Keeps-read_materials : (k : Bytes) (names : List Bytes) → Keeps I (read_materials E k names)
  unfolding read_materials
  Keeps-read_materials k [] = Keeps-done []
  Keeps-read_materials k (n ∷ names) =
      Keeps-tried _ _ (Keeps-read (old_material_at k n))
        λ r. Keeps-next _ _ (Keeps-read_materials k names) λ rest. Keeps-done _

  pub Keeps-get_previous_key_materials : (k : Bytes) → Keeps I (get_previous_key_materials E k)
  unfolding get_previous_key_materials
  Keeps-get_previous_key_materials k = Yields-then I Any Any _ _ (Keeps-exists k) (
      Keeps-tried _ _ (Keeps-list_dir I E (old_material_names k))
        λ r. Keeps-next _ _ (Keeps-lift (or_missing [] r)) λ names. Keeps-read_materials k names)

  pub Keeps-get_tags : (k : Bytes) → Keeps I (get_tags E k)
  unfolding get_tags existing_tags
  Keeps-get_tags k = Yields-then I Any Any _ _ (Keeps-exists k) (
      Keeps-next _ _ (Keeps-tried _ _ (Keeps-read _) λ r. Keeps-lift (or_missing [] r))
        λ d. Keeps-done _)

  Keeps-read_alias : (a : Bytes) → Keeps I (read_alias E a)
  unfolding read_alias
  Keeps-read_alias a = Keeps-read (alias_at a)

  pub Keeps-resolve_alias : (a : Bytes) → Keeps I (resolve_alias E a)
  unfolding resolve_alias
  Keeps-resolve_alias a =
      Keeps-next _ _ (Keeps-missing_is _ _ (Keeps-read_alias a)) λ entry. Keeps-done _

  Keeps-read_entries : (names : List Bytes) → Keeps I (read_entries E names)
  unfolding read_entries
  Keeps-read_entries [] = Keeps-done []
  Keeps-read_entries (a ∷ names) =
      Keeps-tried _ _ (Keeps-read_alias a)
        λ r. Keeps-next _ _ (Keeps-read_entries names) λ rest. Keeps-done _

  pub Keeps-list_aliases : (target : Bytes) → Keeps I (list_aliases E target)
  unfolding list_aliases
  Keeps-list_aliases target =
      Keeps-next _ _ (Keeps-list_dir I E alias_names)
        λ names. Keeps-next _ _ (Keeps-read_entries names) λ entries. Keeps-done _

  Keeps-read_grants : (k : Bytes) (ids : List Bytes) → Keeps I (read_grants E k ids)
  unfolding read_grants
  Keeps-read_grants k [] = Keeps-done []
  Keeps-read_grants k (id ∷ ids) =
      Yields-if I Any (has_id id) _ _
        (λ _.
          Keeps-tried _ _ (Keeps-read (grant_at k id))
            λ r. Keeps-next _ _ (Keeps-read_grants k ids) λ rest. Keeps-done _)
        (λ _. Keeps-read_grants k ids)

  pub Keeps-list_grants_for_key : (k : Bytes) → Keeps I (list_grants_for_key E k)
  unfolding list_grants_for_key
  Keeps-list_grants_for_key k = Keeps-tried _ _ (Keeps-list_dir I E (grant_names k)) λ r.
      Keeps-next _ _ (Keeps-lift (or_missing [] r))
        λ names. Keeps-next _ _ (Keeps-read_grants k names) λ grants. Keeps-done _

  pub Keeps-list_grants :
      (k id grantee : Bytes) (limit : ℕ) (marker : Bytes)
      → Keeps I (list_grants E k id grantee limit marker)
  unfolding list_grants
  Keeps-list_grants k id grantee limit marker = Keeps-next _ _ (Keeps-meta k) λ meta.
      Yields-guard I Any _ _ _
        λ _. Keeps-next _ _ (Keeps-list_grants_for_key k) λ grants. Keeps-done _

  Keeps-has_meta : (r : Outcome (Unit {0})) → Keeps I (has_meta E r)
  unfolding has_meta
  Keeps-has_meta (done u) = Keeps-done _
  Keeps-has_meta (failed e) =
      Yields-if I Any (is_not_exist e) _ _ (λ _. Keeps-done _) (λ _. Yields-fail I Any _)

  Keeps-key_loop : (ks : List Bytes) → Keeps I (key_loop E ks)
  unfolding key_loop
  Keeps-key_loop [] = Keeps-done []
  Keeps-key_loop (k ∷ ks) = Keeps-tried _ _ (Keeps-stat I E (file_at meta_json k)) λ r.
      Keeps-next _ _ (Keeps-has_meta r)
        λ there. Keeps-next _ _ (Keeps-key_loop ks) λ rest. Keeps-done _

  pub Keeps-list_key_ids_locked : Keeps I (list_key_ids_locked E)
  unfolding list_key_ids_locked
  Keeps-list_key_ids_locked =
      Keeps-next _ _ (Keeps-list_dir I E (key_names E)) λ names. Keeps-key_loop names

  pub Keeps-list_key_ids : Keeps I (list_key_ids E)
  unfolding list_key_ids
  Keeps-list_key_ids = Keeps-next _ _ Keeps-list_key_ids_locked λ ids. Keeps-done _

  Keeps-retirable_loop :
      (principal : Bytes) (ks : List Bytes) → Keeps I (retirable_loop E principal ks)
  unfolding retirable_loop
  Keeps-retirable_loop principal [] = Keeps-done []
  Keeps-retirable_loop principal (k ∷ ks) =
      Keeps-next _ _ (Keeps-list_grants_for_key k)
        λ grants. Keeps-next _ _ (Keeps-retirable_loop principal ks) λ rest. Keeps-done _

  pub Keeps-list_retirable_grants :
      (principal : Bytes) (limit : ℕ) (marker : Bytes)
      → Keeps I (list_retirable_grants E principal limit marker)
  unfolding list_retirable_grants
  Keeps-list_retirable_grants principal limit marker =
      Keeps-next _ _ Keeps-list_key_ids_locked
        λ ids. Keeps-next _ _ (Keeps-retirable_loop principal ids) λ grants. Keeps-done _
