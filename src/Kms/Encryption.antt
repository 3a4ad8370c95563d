-- ===== src/Kms/Encryption.antt =====
-- EnsureAwsS3Key and ResolveKeyForEncryption of internal/kms/storage.go. Each storage call in them
-- takes the lock of its own.
use kumolo.Prelude.{Bool, true, false, ◌||◌, Option, none, some, [], if◌then◌else◌}
use kumolo.Prelude.Bytes.{Bytes, codes, bytes_eq}
use kumolo.Kms.Types.{
  KeyState, enabled, disabled, pending_deletion, normalize_alias_ref, resolve_key_id, is_alias_ref,
}
use kumolo.Kms.Specs.{symmetric_default, encrypt_decrypt}
use kumolo.Kms.Io.{
  key_not_found, alias_not_found, alias_already_exists, key_disabled, key_pending_deletion, Env,
  Outcome, done, failed, Act, pure, fail, ◌>>=◌, ◌>>◌, attempt,
}
use kumolo.Kms.Keys.{CreateKeyInput, create_key, get_key_metadata}
use kumolo.Kms.Aliases.{create_alias, resolve_alias, is_blank}

abbrev pub aws_s3_alias : Bytes
aws_s3_alias = codes "alias/aws/s3"

abbrev pub aws_s3_input : CreateKeyInput
aws_s3_input = record {
  for_description = codes "Default KMS key used by Amazon S3";
  for_spec = symmetric_default;
  for_usage = encrypt_decrypt;
  for_multi_region = false;
  for_origin = codes "AWS_KMS";
  for_policy = [];
  for_manager = codes "AWS";
}

module _ (E : Env) where
  unfoldable pub arn_of_key : Bytes → Act Bytes
  arn_of_key k = do meta ← get_key_metadata E k; pure meta.arn

  -- Where another call has made the alias by now, the key that it has is the one.
  unfoldable pub alias_made : Bytes → Outcome (Unit {0}) → Act Bytes
  unfolding arn_of_key
  alias_made arn (done u) = pure arn
  alias_made arn (failed alias_already_exists) = do k ← resolve_alias E aws_s3_alias; arn_of_key k
  alias_made arn (failed other) = fail other

  unfoldable pub create_aws_s3_key : Act Bytes
  unfolding alias_made
  create_aws_s3_key = do
    meta ← create_key E aws_s3_input
    made ← attempt (create_alias E aws_s3_alias meta.key_id)
    alias_made meta.arn made

  unfoldable pub alias_found : Outcome Bytes → Act Bytes
  unfolding arn_of_key create_aws_s3_key
  alias_found (done k) = arn_of_key k
  alias_found (failed alias_not_found) = create_aws_s3_key
  alias_found (failed other) = fail other

  unfoldable pub ensure_aws_s3_key : Act Bytes
  unfolding alias_found
  ensure_aws_s3_key = do found ← attempt (resolve_alias E aws_s3_alias); alias_found found

  unfoldable pub ensure_managed : Bool → Act (Unit {0})
  ensure_managed true = do _ ← ensure_aws_s3_key; pure tt
  ensure_managed false = pure tt

  -- ErrAliasNotFound is ErrKeyNotFound.
  unfoldable pub or_no_key : Outcome Bytes → Act Bytes
  or_no_key (done k) = pure k
  or_no_key (failed alias_not_found) = fail key_not_found
  or_no_key (failed other) = fail other

  -- The key that an alias names, with the managed key made where the alias is its own.
  unfoldable pub named_key : Option Bytes → Act Bytes
  unfolding ensure_managed or_no_key
  named_key none = fail key_not_found
  named_key (some name) = do
    ensure_managed (bytes_eq name aws_s3_alias)
    found ← attempt (resolve_alias E name)
    or_no_key found

  unfoldable pub given_key : Option Bytes → Act Bytes
  given_key none = fail key_not_found
  given_key (some k) = pure k

  unfoldable pub referred_key : Bytes → Act Bytes
  unfolding named_key given_key
  referred_key ref =
      if is_alias_ref ref
      then named_key (normalize_alias_ref ref)
      else given_key (resolve_key_id ref)

  -- The switch on the state of the key.
  unfoldable pub usable_arn : Bytes → KeyState → Act Bytes
  usable_arn arn disabled = fail key_disabled
  usable_arn arn pending_deletion = fail key_pending_deletion
  usable_arn arn enabled = pure arn

  unfoldable pub from_reference : Bytes → Act Bytes
  unfolding referred_key usable_arn
  from_reference ref = do
    k ← referred_key ref
    meta ← get_key_metadata E k
    usable_arn meta.arn meta.key_state

  unfoldable pub resolve_key_for_encryption : Bytes → Act Bytes
  unfolding from_reference
  resolve_key_for_encryption ref =
      if is_blank ref || bytes_eq ref aws_s3_alias
      then (do _ ← ensure_aws_s3_key; from_reference aws_s3_alias)
      else from_reference ref
