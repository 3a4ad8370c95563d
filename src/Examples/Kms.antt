-- ===== src/Examples/Kms.antt =====
-- The storage of internal/kms/storage.go on sample disks.
use kumolo.Prelude.{ℕ, zero, suc, ◌+◌, ◌≡◌, refl, true, false, Option, none, some, [], ◌∷◌}
use kumolo.Prelude.Bytes.{Bytes, codes, bytes_eq, contains, has_prefix}
use kumolo.Prelude.Dict.{find, insert}
use kumolo.Kms.Types.{
  KeyState, KeyMetadata, enabled, pending_deletion, is_enabled, key_arn, alias_arn_of,
  resolve_key_id, normalize_alias_ref, is_alias_ref, fixed_account, cut_behind,
}
use kumolo.Kms.Specs.{
  symmetric_default, encrypt_decrypt, is_valid_key_usage_for_spec, or_else, default_key_usage,
  is_one_of,
}
use kumolo.Kms.Specs.Algorithms.{kinds, kinds_one, is_valid_key_usage_for_spec-default_key_usage}
use kumolo.Kms.References.{resolve_key_id-key_arn}
use kumolo.Kms.Disk.{holds, Disk, empty_dir, put_dir, file_at, meta_json, names_of}
use kumolo.Kms.Io.{
  Env, fine, World, done, next, attempt, fail_if, list_dir, now_unix, pure, read_json, stat,
  write_json, ◌>>=◌, ◌>>◌,
}
use kumolo.Kms.Keys.{CreateKeyInput, get_key_metadata, key_exists, read_key_meta}
use kumolo.Kms.Aliases.{create_alias, resolve_alias}
use kumolo.Kms.Encryption.{resolve_key_for_encryption}
use kumolo.Kms.Calls.{creates_key, schedules_deletion, run_call, here, called, opened}
use kumolo.Kms.Calls.Valid.{opened-IsValid, run_call-IsValid, reached-IsValid}
use kumolo.Kms.Calls.States.{Moved, schedule}
use kumolo.Kms.Calls.States.Follows.{run_call-Moved}
use kumolo.Kms.Calls.{creates_alias}
use kumolo.Kms.Io.{key_pending_deletion}
use kumolo.Kms.Calls.Refused.{Refuses, checked_key-Refuses}
use kumolo.Kms.Calls.Results.{resolve_key_for_encryption-done, resolve_alias-create_alias}
use kumolo.Kms.Valid.{MetaValid, IsValid}
use kumolo.Kms.Valid.Changes.{put_dir-IsValid}

abbrev fill : ℕ → ℕ → Bytes
fill zero c = []
fill (suc n) c = c ∷ fill n c

-- Nothing fails.
abbrev calm_env : Env
calm_env = record {
  fault = λ t. fine;
  random = λ t n. fill n t;
  now = λ t. 1000 + t;
  key_pair = λ t spec. some none;
}

abbrev sample_id : Bytes
sample_id = codes "k1"

abbrev sample_meta : KeyState → Option ℕ → KeyMetadata
sample_meta s date = record {
  key_id = sample_id;
  arn = key_arn sample_id;
  aws_account_id = fixed_account;
  description = [];
  key_spec = symmetric_default;
  customer_master_key_spec = symmetric_default;
  key_usage = encrypt_decrypt;
  key_state = s;
  is_usable = is_enabled s;
  key_manager = codes "CUSTOMER";
  origin = codes "AWS_KMS";
  multi_region = false;
  creation_date = 900;
  deletion_date = date;
  encryption_algorithms = symmetric_default ∷ [];
  signing_algorithms = [];
  key_agreement_algorithms = [];
  mac_algorithms = [];
}

abbrev sample_disk : KeyState → Option ℕ → Disk
sample_disk s date =
    put_dir sample_id (record empty_dir { meta = holds (sample_meta s date) }) opened

abbrev sample_world : KeyState → Option ℕ → World
sample_world s date = record { disk = sample_disk s date; tick = 0 }

abbrev enabled_world : World
enabled_world = sample_world enabled none

abbrev pending_world : World
pending_world = sample_world pending_deletion (some 5000)

abbrev start : World
start = record { disk = opened; tick = 0 }

abbrev sample_input : CreateKeyInput
sample_input = record {
  for_description = codes "orders";
  for_spec = symmetric_default;
  for_usage = encrypt_decrypt;
  for_multi_region = false;
  for_origin = codes "AWS_KMS";
  for_policy = [];
  for_manager = [];
}

enabled_meta-MetaValid : MetaValid sample_id (sample_meta enabled none)
enabled_meta-MetaValid = record {
  own_id = refl;
  own_arn = refl;
  usable_if_enabled = refl;
  dated_if_pending = refl;
}

enabled_disk-IsValid : IsValid (sample_disk enabled none)
enabled_disk-IsValid =
    put_dir-IsValid sample_id (record empty_dir { meta = holds (sample_meta enabled none) }) opened
      opened-IsValid
      (record { meta_valid = enabled_meta-MetaValid; few_tags = tt; few_rotations = tt })

enabled_meta_there :
    file_at meta_json sample_id (sample_disk enabled none) ≡ holds (sample_meta enabled none)
unfolding find insert bytes_eq
enabled_meta_there = refl

pending_meta_there :
    file_at meta_json sample_id (sample_disk pending_deletion (some 5000))
    ≡ holds (sample_meta pending_deletion (some 5000))
unfolding find insert bytes_eq
pending_meta_there = refl

run_call-IsValid_example :
    IsValid (run_call calm_env (schedules_deletion sample_id 7) enabled_world).1.disk
run_call-IsValid_example =
    run_call-IsValid calm_env (schedules_deletion sample_id 7) enabled_world enabled_disk-IsValid

reached-IsValid_example : IsValid (run_call calm_env (creates_key sample_input) start).1.disk
reached-IsValid_example =
    reached-IsValid calm_env start (run_call calm_env (creates_key sample_input) start).1 refl
      (called (creates_key sample_input) tt here)

run_call-Moved_example :
    Moved sample_id
      (sample_meta enabled none)
      (some (1001 + 604800))
      enabled_world
      (some pending_deletion)
      (run_call calm_env (schedules_deletion sample_id 7) enabled_world)
run_call-Moved_example =
    run_call-Moved calm_env sample_id (sample_meta enabled none) enabled_world (schedule 7)
      (λ t. refl) enabled_meta_there enabled_meta-MetaValid

resolved_sample :
    resolve_key_for_encryption calm_env sample_id enabled_world
    ≡ (done (key_arn sample_id), next enabled_world)
unfolding resolve_key_for_encryption bytes_eq ◌>>=◌ is_alias_ref has_prefix resolve_key_id pure
    get_key_metadata read_key_meta attempt read_json find insert
resolved_sample = refl

resolve_key_for_encryption-done_example :
    (k : Bytes) × ((m : KeyMetadata) × ((file_at meta_json k enabled_world.disk ≡ holds m)
        × ((m.key_state ≡ enabled) × (m.arn ≡ key_arn sample_id))))
resolve_key_for_encryption-done_example =
    resolve_key_for_encryption-done calm_env sample_id (key_arn sample_id) enabled_world
      (next enabled_world) resolved_sample

created_alias :
    create_alias calm_env (codes "alias/orders") sample_id enabled_world
    ≡ (done tt, (create_alias calm_env (codes "alias/orders") sample_id enabled_world).1)
unfolding create_alias ◌>>◌ key_exists attempt stat find insert bytes_eq pure read_key_meta
    read_json fail_if list_dir names_of now_unix write_json
created_alias = refl

resolve_alias-create_alias_example :
    (resolve_alias calm_env
      (codes "alias/orders")
      (create_alias calm_env (codes "alias/orders") sample_id enabled_world).1).0
    ≡ done sample_id
resolve_alias-create_alias_example =
    resolve_alias-create_alias calm_env (codes "alias/orders") sample_id enabled_world
      (create_alias calm_env (codes "alias/orders") sample_id enabled_world).1 created_alias refl

resolve_key_id-key_arn_example :
    (resolve_key_id (key_arn (codes "k1")) ≡ some (codes "k1"))
    × ((normalize_alias_ref (alias_arn_of (codes "alias/k1")) ≡ some (codes "alias/k1"))
        × (is_alias_ref (alias_arn_of (codes "alias/k1")) ≡ true))
resolve_key_id-key_arn_example = resolve_key_id-key_arn 107 (codes "1")

valid_sm2_usage : is_valid_key_usage_for_spec (codes "SM2") (codes "KEY_AGREEMENT") ≡ true
unfolding is_valid_key_usage_for_spec bytes_eq
valid_sm2_usage = refl

kinds_one_example : kinds (codes "SM2") (codes "KEY_AGREEMENT") ≡ 1
kinds_one_example = kinds_one (codes "SM2") (codes "KEY_AGREEMENT") valid_sm2_usage

is_valid_key_usage_for_spec-default_key_usage_example :
    is_valid_key_usage_for_spec (codes "SM2") (or_else [] (find (codes "SM2") default_key_usage))
    ≡ true
unfolding is_one_of bytes_eq
is_valid_key_usage_for_spec-default_key_usage_example =
    is_valid_key_usage_for_spec-default_key_usage (codes "SM2") refl

-- isAliasRef takes the ARN of an alias without a name for a reference, which has no name in it.
alias_without_name :
    (normalize_alias_ref (codes "arn:aws:kms:us-east-1:000000000000:alias/") ≡ none)
    × (is_alias_ref (codes "arn:aws:kms:us-east-1:000000000000:alias/") ≡ true)
unfolding normalize_alias_ref has_prefix cut_behind is_alias_ref contains
alias_without_name = (refl, refl)

checked_key-Refuses_example :
    Refuses
      (run_call calm_env (creates_alias (codes "alias/orders") sample_id))
      key_pending_deletion
      pending_world
checked_key-Refuses_example =
    checked_key-Refuses calm_env (creates_alias (codes "alias/orders") sample_id) sample_id
      key_pending_deletion (sample_meta pending_deletion (some 5000)) pending_world (λ t. refl) refl
      pending_meta_there refl
