-- ===== src/Kms/Valid/Encryption.antt =====
-- EnsureAwsS3Key and ResolveKeyForEncryption of internal/kms/storage.go, and the validity of the
-- disk.
use kumolo.Prelude.{Bool, true, false, ◌||◌, Option, none, some}
use kumolo.Prelude.Bytes.{Bytes, bytes_eq}
use kumolo.Kms.Types.{
  KeyState, enabled, disabled, pending_deletion, normalize_alias_ref, resolve_key_id, is_alias_ref,
}
use kumolo.Kms.Io.{alias_not_found, alias_already_exists, Env, Outcome, done, failed, fail}
use kumolo.Kms.Io.Triple.{
  Any, Yields, Keeps, Yields-bind, Yields-then, Yields-if, Yields-pure, Yields-fail, Yields-attempt,
}
use kumolo.Kms.Keys.{get_key_metadata}
use kumolo.Kms.Aliases.{is_blank}
use kumolo.Kms.Encryption.{
  aws_s3_alias, aws_s3_input, arn_of_key, alias_made, create_aws_s3_key, alias_found,
  ensure_aws_s3_key, ensure_managed, or_no_key, named_key, given_key, referred_key, usable_arn,
  from_reference, resolve_key_for_encryption,
}
use kumolo.Kms.Valid.Invariant.{Invariant}
use kumolo.Kms.Valid.Files.{Known, Yields-read_key_meta}
use kumolo.Kms.Valid.Create.{Keeps-create_key}
use kumolo.Kms.Valid.Aliases.{Keeps-create_alias, Keeps-resolve_alias}

module _ (E : Env) (I : Invariant) where
  Yields-get_key_metadata : (k : Bytes) → Yields I.Holds (Known E I k) (get_key_metadata E k)
  unfolding get_key_metadata
  Yields-get_key_metadata k = Yields-read_key_meta E I k

  Keeps-arn_of_key : (k : Bytes) → Keeps I.Holds (arn_of_key E k)
  unfolding arn_of_key
  Keeps-arn_of_key k =
      Yields-bind I.Holds (Known E I k) Any _ _ (Yields-get_key_metadata k)
        λ meta _. Yields-pure I.Holds Any _ tt

  Keeps-alias_made : (arn : Bytes) (r : Outcome (Unit {0})) → Keeps I.Holds (alias_made E arn r)
  unfolding alias_made fail
  Keeps-alias_made arn (done u) = Yields-pure I.Holds Any _ tt
  Keeps-alias_made arn (failed alias_already_exists) =
      Yields-bind I.Holds Any Any _ _ (Keeps-resolve_alias E I aws_s3_alias)
        λ k _. Keeps-arn_of_key k
  Keeps-alias_made arn (failed other) = λ w v. (v, tt)

  Keeps-create_aws_s3_key : Keeps I.Holds (create_aws_s3_key E)
  unfolding create_aws_s3_key
  Keeps-create_aws_s3_key =
      Yields-bind I.Holds Any Any _ _ (Keeps-create_key E I aws_s3_input) λ meta _.
        Yields-bind I.Holds _ Any _ _
          (Yields-attempt I.Holds Any _ (Keeps-create_alias E I aws_s3_alias meta.key_id))
          λ made _. Keeps-alias_made meta.arn made

  Keeps-alias_found : (r : Outcome Bytes) → Keeps I.Holds (alias_found E r)
  unfolding alias_found fail
  Keeps-alias_found (done k) = Keeps-arn_of_key k
  Keeps-alias_found (failed alias_not_found) = Keeps-create_aws_s3_key
  Keeps-alias_found (failed other) = λ w v. (v, tt)

  pub Keeps-ensure_aws_s3_key : Keeps I.Holds (ensure_aws_s3_key E)
  unfolding ensure_aws_s3_key
  Keeps-ensure_aws_s3_key =
      Yields-bind I.Holds _ Any _ _
        (Yields-attempt I.Holds Any _ (Keeps-resolve_alias E I aws_s3_alias))
        λ r _. Keeps-alias_found r

  Keeps-ensure_managed : (b : Bool) → Keeps I.Holds (ensure_managed E b)
  unfolding ensure_managed
  Keeps-ensure_managed true =
      Yields-bind I.Holds Any Any _ _ Keeps-ensure_aws_s3_key λ _ _. Yields-pure I.Holds Any _ tt
  Keeps-ensure_managed false = Yields-pure I.Holds Any _ tt

  Keeps-or_no_key : (r : Outcome Bytes) → Keeps I.Holds (or_no_key E r)
  unfolding or_no_key fail
  Keeps-or_no_key (done k) = Yields-pure I.Holds Any _ tt
  Keeps-or_no_key (failed alias_not_found) = λ w v. (v, tt)
  Keeps-or_no_key (failed other) = λ w v. (v, tt)

  Keeps-named_key : (name : Option Bytes) → Keeps I.Holds (named_key E name)
  unfolding named_key
  Keeps-named_key none = Yields-fail I.Holds Any _
  Keeps-named_key (some name) =
      Yields-then I.Holds Any Any _ _ (Keeps-ensure_managed (bytes_eq name aws_s3_alias)) (
        Yields-bind I.Holds _ Any _ _ (Yields-attempt I.Holds Any _ (Keeps-resolve_alias E I name))
          λ r _. Keeps-or_no_key r)

  Keeps-given_key : (k : Option Bytes) → Keeps I.Holds (given_key E k)
  unfolding given_key
  Keeps-given_key none = Yields-fail I.Holds Any _
  Keeps-given_key (some k) = Yields-pure I.Holds Any _ tt

  Keeps-referred_key : (ref : Bytes) → Keeps I.Holds (referred_key E ref)
  unfolding referred_key
  Keeps-referred_key ref =
      Yields-if I.Holds Any (is_alias_ref ref) _ _ (λ _. Keeps-named_key (normalize_alias_ref ref))
        (λ _. Keeps-given_key (resolve_key_id ref))

  Keeps-usable_arn : (arn : Bytes) (s : KeyState) → Keeps I.Holds (usable_arn E arn s)
  unfolding usable_arn fail
  Keeps-usable_arn arn enabled = Yields-pure I.Holds Any _ tt
  Keeps-usable_arn arn disabled = λ w v. (v, tt)
  Keeps-usable_arn arn pending_deletion = λ w v. (v, tt)

  Keeps-from_reference : (ref : Bytes) → Keeps I.Holds (from_reference E ref)
  unfolding from_reference
  Keeps-from_reference ref = Yields-bind I.Holds Any Any _ _ (Keeps-referred_key ref) λ k _.
      Yields-bind I.Holds (Known E I k) Any _ _ (Yields-get_key_metadata k)
        λ meta _. Keeps-usable_arn meta.arn meta.key_state

  pub Keeps-resolve_key_for_encryption :
      (ref : Bytes) → Keeps I.Holds (resolve_key_for_encryption E ref)
  unfolding resolve_key_for_encryption
  Keeps-resolve_key_for_encryption ref =
      Yields-if I.Holds Any (is_blank ref || bytes_eq ref aws_s3_alias) _ _
        (λ _.
          Yields-bind I.Holds Any Any _ _ Keeps-ensure_aws_s3_key
            λ _ _. Keeps-from_reference aws_s3_alias)
        (λ _. Keeps-from_reference ref)
