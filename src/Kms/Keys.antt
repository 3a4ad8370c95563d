-- ===== src/Kms/Keys.antt =====
-- Keys of internal/kms/storage.go: CreateKey, and reading and writing what a key has.
use kumolo.Prelude.{
  ℕ, zero, suc, ◌+◌, ◌-◌, ◌/◌, ◌%◌, Bool, true, not, ◌&&◌, ◌||◌, none, some, [], ◌∷◌, ◌++◌, length,
  ltb, ◌==◌, if◌then◌else◌,
}
use kumolo.Prelude.Bytes.{Bytes, codes, bytes_eq}
use kumolo.Kms.Types.{KeyMetadata, KeyMaterial, enabled, fixed_account, key_arn}
use kumolo.Kms.Specs.{
  symmetric_default, encryption_algorithms_for_key, signing_algorithms_for_key,
  key_agreement_algorithms_for_key, mac_algorithms_for_key, hmac_key_size, is_hmac_spec,
}
use kumolo.Kms.Disk.{Place, file_at, meta_json, material_json, policy_json}
use kumolo.Kms.Io.{
  KmsError, key_not_found, key_material_not_found, key_material_corrupted, Env, done, failed, Act,
  pure, fail, ◌>>=◌, ◌>>◌, attempt, fail_if, is_not_exist, read_json, stat, write_json, remove_file,
  change_dir, rand_read, now_unix, generate_key_pair, write_at, clear_at, make_key_dir,
  remove_key_dir,
}

pub record CreateKeyInput : Type 0 where
  pub for_description : Bytes
  pub for_spec : Bytes
  pub for_usage : Bytes
  pub for_multi_region : Bool
  pub for_origin : Bytes
  pub for_policy : Bytes
  pub for_manager : Bytes

-- fmt.Sprintf("%x") of bytes
hex_digit : ℕ → ℕ
hex_digit n = if ltb n 10 then b'0' + n else b'a' + (n % 16) - 10

pub hex : Bytes → Bytes
unfolding hex_digit
hex [] = []
hex (c ∷ s) = hex_digit (c / 16) ∷ hex_digit (c % 16) ∷ hex s

-- The byte at `i`, and the bytes from `i` on, at most `n` of them.
byte_at : ℕ → Bytes → ℕ
byte_at i [] = 0
byte_at zero (c ∷ s) = c
byte_at (suc i) (c ∷ s) = byte_at i s

slice : ℕ → ℕ → Bytes → Bytes
slice i n [] = []
slice (suc i) n (c ∷ s) = slice i n s
slice zero zero (c ∷ s) = []
slice zero (suc n) (c ∷ s) = c ∷ slice zero n s

-- A UUID of version 4 from sixteen bytes.
pub uuid : Bytes → Bytes
unfolding hex slice byte_at
uuid b =
    hex (slice 0 4 b)
    ++ codes "-"
    ++ hex (slice 4 2 b)
    ++ codes "-"
    ++ hex ((byte_at 6 b % 16 + 64) ∷ slice 7 1 b)
    ++ codes "-"
    ++ hex ((byte_at 8 b % 64 + 128) ∷ slice 9 1 b)
    ++ codes "-"
    ++ hex (slice 10 6 b)

abbrev pub default_policy : Bytes
default_policy =
    codes
      "{\"Version\":\"2012-10-17\",\"Id\":\"key-default-1\",\"Statement\":[{\"Sid\":\"Enable IAM User Permissions\",\"Effect\":\"Allow\",\"Principal\":{\"AWS\":\"arn:aws:iam::000000000000:root\"},\"Action\":\"kms:*\",\"Resource\":\"*\"}]}"

abbrev pub or_default : Bytes → Bytes → Bytes
or_default d [] = d
or_default d (c ∷ s) = c ∷ s

abbrev pub new_metadata : CreateKeyInput → Bytes → ℕ → KeyMetadata
new_metadata input k now = record {
  key_id = k;
  arn = key_arn k;
  aws_account_id = fixed_account;
  description = input.for_description;
  key_spec = input.for_spec;
  customer_master_key_spec = input.for_spec;
  key_usage = input.for_usage;
  key_state = enabled;
  is_usable = true;
  key_manager = or_default (codes "CUSTOMER") input.for_manager;
  origin = input.for_origin;
  multi_region = input.for_multi_region;
  creation_date = now;
  deletion_date = none;
  encryption_algorithms = encryption_algorithms_for_key input.for_spec input.for_usage;
  signing_algorithms = signing_algorithms_for_key input.for_spec input.for_usage;
  key_agreement_algorithms = key_agreement_algorithms_for_key input.for_spec input.for_usage;
  mac_algorithms = mac_algorithms_for_key input.for_spec;
}

-- 32 bytes for AES-256, or what an HMAC spec needs
abbrev pub material_size : Bytes → ℕ
material_size spec = if ltb 0 (hmac_key_size spec) then hmac_key_size spec else 32

module _ (E : Env) where
  unfoldable pub new_key_id : Act Bytes
  new_key_id = do b ← rand_read E 16; pure (uuid b)

  -- The warning that a failed cleanup logs: the error goes no further.
  abbrev pub discard : Act (Unit {0}) → Act (Unit {0})
  discard m = attempt m >>= λ _. pure tt

  -- `if err := m; err != nil { cleanup; return err }`
  abbrev pub on_failure {ℓ} : {A : Type ℓ} → Act (Unit {0}) → Act A → Act A
  on_failure cleanup m =
      attempt m >>= λ r. elim r [ done a ↦ pure a | failed e ↦ cleanup >> fail e ]

  unfoldable pub remove_from : {A : Type 0} → Place A → Bytes → Act (Unit {0})
  remove_from p k = remove_file E (file_at p k) (clear_at p k)

  unfoldable pub remove_dir : Bytes → Act (Unit {0})
  remove_dir k = change_dir E (remove_key_dir k)

  unfoldable pub drop_meta : Bytes → Act (Unit {0})
  unfolding remove_from remove_dir
  drop_meta k = discard (remove_from meta_json k) >> discard (remove_dir k)

  unfoldable pub drop_material : Bytes → Act (Unit {0})
  unfolding remove_from remove_dir
  drop_material k =
      discard (remove_from meta_json k)
      >> discard (remove_from material_json k)
      >> discard (remove_dir k)

  unfoldable pub save_material : Bytes → Bytes → Bytes → Act (Unit {0})
  unfolding drop_meta drop_material
  save_material k key der = do
    id ← on_failure (drop_meta k) (rand_read E 32)
    on_failure (drop_material k) (
        write_json E (write_at material_json k)
          (record { key_bytes = key; private_key_der = der; key_material_id = hex id }))

  -- The key material that the spec asks for.
  unfoldable pub make_material : Bytes → Bytes → Act (Unit {0})
  unfolding save_material
  make_material k spec =
      if bytes_eq spec symmetric_default || is_hmac_spec spec
      then (do
        key ← on_failure (drop_meta k) (rand_read E (material_size spec))
        save_material k key [])
      else (do
        pair ← on_failure (drop_meta k) (generate_key_pair E spec)
        elim pair [ none ↦ pure tt | some der ↦ save_material k [] der ])

  unfoldable pub create_key : CreateKeyInput → Act KeyMetadata
  unfolding new_key_id make_material
  create_key input = do
    k ← new_key_id
    now ← now_unix E
    change_dir E (make_key_dir k)
    on_failure (drop_meta k) (write_json E (write_at meta_json k) (new_metadata input k now))
    make_material k input.for_spec
    on_failure (drop_material k)
        (write_json E (write_at policy_json k) (or_default default_policy input.for_policy))
    pure (new_metadata input k now)

  -- keyExistsLocked and readKeyMeta: os.ErrNotExist is ErrKeyNotFound.
  abbrev pub missing_is {ℓ} : {A : Type ℓ} → KmsError → Act A → Act A
  missing_is e m = attempt m >>= λ r. elim r [
    | done a ↦ pure a
    | failed e' ↦ fail (if is_not_exist e' then e else e')
  ]

  unfoldable pub key_exists : Bytes → Act (Unit {0})
  key_exists k = missing_is key_not_found (stat E (file_at meta_json k))

  unfoldable pub read_key_meta : Bytes → Act KeyMetadata
  read_key_meta k = missing_is key_not_found (read_json E (file_at meta_json k))

  unfoldable pub get_key_metadata : Bytes → Act KeyMetadata
  get_key_metadata k = read_key_meta k

  unfoldable pub get_key_policy : Bytes → Act Bytes
  get_key_policy k = do key_exists k; read_json E (file_at policy_json k)

  unfoldable pub put_key_policy : Bytes → Bytes → Act (Unit {0})
  put_key_policy k policy = do key_exists k; write_json E (write_at policy_json k) policy

  unfoldable pub get_key_material : Bytes → Act KeyMaterial
  get_key_material k = do
    key_exists k
    mat ← missing_is key_material_not_found (read_json E (file_at material_json k))
    meta ← read_key_meta k
    fail_if
        (ltb 0 (hmac_key_size meta.key_spec)
          && not (length mat.key_bytes == hmac_key_size meta.key_spec))
        key_material_corrupted
    pure mat
