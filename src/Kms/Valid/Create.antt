-- ===== src/Kms/Valid/Create.antt =====
-- CreateKey and PutKeyPolicy of internal/kms/storage.go, and the validity of the disk.
use kumolo.Prelude.{refl, Option, none, some, [], ◌||◌}
use kumolo.Prelude.Bytes.{Bytes, bytes_eq}
use kumolo.Kms.Specs.{symmetric_default, is_hmac_spec}
use kumolo.Kms.Disk.{meta_json, material_json, policy_json, absent}
use kumolo.Kms.Io.{pure, ◌>>◌, change_dir, Act, Env, make_key_dir}
use kumolo.Kms.Io.Triple.{
  Any, Yields, Keeps, Yields-change_dir, Yields-bind, Yields-then, Yields-pure, Yields-if,
  Keeps-now_unix, Keeps-rand_read, Keeps-change_dir, Keeps-generate_key_pair,
}
use kumolo.Kms.Keys.{
  CreateKeyInput, new_key_id, remove_from, remove_dir, drop_meta, drop_material, save_material,
  make_material, create_key, put_key_policy,
}
use kumolo.Kms.Valid.Invariant.{Invariant}
use kumolo.Kms.Valid.Files.{
  IsHarmless, Keeps-write_harmless, Keeps-write_meta_at, Keeps-remove_from, Keeps-discard,
  Yields-on_failure, Keeps-key_exists,
}
use kumolo.Kms.Valid.Changes.KeyDirs.{
  make_key_dir-IsCalm, make_key_dir-find, remove_key_dir-IsCalmBut,
}

pub material_json-IsHarmless : IsHarmless material_json
material_json-IsHarmless = (
  λ k f dir h. record {
    meta_valid = h.meta_valid;
    few_tags = h.few_tags;
    few_rotations = h.few_rotations;
  },
  λ f dir. refl,
)

policy_json-IsHarmless : IsHarmless policy_json
policy_json-IsHarmless = (
  λ k f dir h. record {
    meta_valid = h.meta_valid;
    few_tags = h.few_tags;
    few_rotations = h.few_rotations;
  },
  λ f dir. refl,
)

module _ (E : Env) (I : Invariant) where
  pub Keeps-new_key_id : Keeps I.Holds (new_key_id E)
  unfolding new_key_id
  Keeps-new_key_id =
      Yields-bind I.Holds Any Any _ _ (Keeps-rand_read I.Holds E 16)
        λ b _. Yields-pure I.Holds Any _ tt

  Keeps-remove_meta : (k : Bytes) → I.Free k → Keeps I.Holds (remove_from E meta_json k)
  unfolding remove_from
  Keeps-remove_meta k f =
      Keeps-remove_from E I meta_json k f
        λ dir h. record { meta_valid = tt; few_tags = h.few_tags; few_rotations = h.few_rotations }

  Keeps-remove_material : (k : Bytes) → I.Free k → Keeps I.Holds (remove_from E material_json k)
  unfolding remove_from
  Keeps-remove_material k f =
      Keeps-remove_from E I material_json k f λ dir h. material_json-IsHarmless.0 k absent dir h

  Keeps-remove_dir : (k : Bytes) → I.Free k → Keeps I.Holds (remove_dir E k)
  unfolding remove_dir
  Keeps-remove_dir k f =
      Keeps-change_dir I.Holds E _
        λ d d' v e. I.calm_but k d d' f v (remove_key_dir-IsCalmBut k d d' (I.valid d v) e)

  -- The directory of a new key; that it was not there makes the key free.
  Yields-make_key_dir : (k : Bytes) → Yields I.Holds (λ _. I.Free k) (change_dir E (make_key_dir k))
  Yields-make_key_dir k =
      Yields-change_dir I.Holds E (λ _. I.Free k) _
        (λ d d' v e. I.calm d d' v (make_key_dir-IsCalm k d d' (I.valid d v) e))
        (λ d d' v e. I.fresh k d v (make_key_dir-find k d d' e))

  Keeps-drop_meta : (k : Bytes) → I.Free k → Keeps I.Holds (drop_meta E k)
  unfolding drop_meta
  Keeps-drop_meta k f =
      Yields-then I.Holds Any Any _ _ (Keeps-discard E I _ (Keeps-remove_meta k f))
        (Keeps-discard E I _ (Keeps-remove_dir k f))

  Keeps-drop_material : (k : Bytes) → I.Free k → Keeps I.Holds (drop_material E k)
  unfolding drop_material
  Keeps-drop_material k f =
      Yields-then I.Holds Any Any _ _
        (Yields-then I.Holds Any Any _ _ (Keeps-discard E I _ (Keeps-remove_meta k f))
          (Keeps-discard E I _ (Keeps-remove_material k f)))
        (Keeps-discard E I _ (Keeps-remove_dir k f))

  Keeps-save_material : (k key der : Bytes) → I.Free k → Keeps I.Holds (save_material E k key der)
  unfolding save_material
  Keeps-save_material k key der f =
      Yields-bind I.Holds Any Any _ _
        (Yields-on_failure E I Any _ _ (Keeps-drop_meta k f) (Keeps-rand_read I.Holds E 32))
        λ id _.
          Yields-on_failure E I Any _ _ (Keeps-drop_material k f)
            (Keeps-write_harmless E I material_json k _ material_json-IsHarmless)

  Keeps-make_material : (k spec : Bytes) → I.Free k → Keeps I.Holds (make_material E k spec)
  unfolding make_material
  Keeps-make_material k spec f =
      Yields-if I.Holds Any (bytes_eq spec symmetric_default || is_hmac_spec spec) _ _
        (λ _.
          Yields-bind I.Holds Any Any _ _
            (Yields-on_failure E I Any _ _ (Keeps-drop_meta k f) (Keeps-rand_read I.Holds E _))
            λ key _. Keeps-save_material k key [] f)
        (λ _.
          Yields-bind I.Holds Any Any _ _
            (Yields-on_failure E I Any _ _ (Keeps-drop_meta k f)
              (Keeps-generate_key_pair I.Holds E spec))
            by_pair)
    where
      by_pair :
          (pair : Option Bytes)
          → Any pair
          → Keeps I.Holds (elim pair as (λ _. Act (Unit {0})) [
            | none ↦ pure tt
            | some der ↦ save_material E k [] der
          ])
      by_pair none _ = Yields-pure I.Holds Any tt tt
      by_pair (some der) _ = Keeps-save_material k [] der f

  pub Keeps-create_key : (input : CreateKeyInput) → Keeps I.Holds (create_key E input)
  unfolding create_key ◌>>◌
  Keeps-create_key input = Yields-bind I.Holds Any Any _ _ Keeps-new_key_id λ k _.
      Yields-bind I.Holds Any Any _ _ (Keeps-now_unix I.Holds E) λ now _.
        Yields-bind I.Holds (λ _. I.Free k) Any _ _ (Yields-make_key_dir k)
          λ _ f.
            Yields-then I.Holds Any Any _ _
              (Yields-on_failure E I Any _ _ (Keeps-drop_meta k f) (
                Keeps-write_meta_at E I k _ f (record {
                  own_id = refl;
                  own_arn = refl;
                  usable_if_enabled = refl;
                  dated_if_pending = refl;
                })))
              (Yields-then I.Holds Any Any _ _ (Keeps-make_material k input.for_spec f) (
                Yields-then I.Holds Any Any _ _
                  (Yields-on_failure E I Any _ _ (Keeps-drop_material k f)
                    (Keeps-write_harmless E I policy_json k _ policy_json-IsHarmless))
                  (Yields-pure I.Holds Any _ tt)))

  pub Keeps-put_key_policy : (k policy : Bytes) → Keeps I.Holds (put_key_policy E k policy)
  unfolding put_key_policy
  Keeps-put_key_policy k policy =
      Yields-then I.Holds Any Any _ _ (Keeps-key_exists E I k)
        (Keeps-write_harmless E I policy_json k policy policy_json-IsHarmless)
