-- ===== src/Kms/Valid.antt =====
-- What it is for the disk of the storage of internal/kms/storage.go to be valid.
pub mod Changes
pub mod Invariant
pub mod Files
pub mod Lifecycle
pub mod Create
pub mod Aliases
pub mod Rotation
pub mod Tags
pub mod Grants
pub mod Encryption
use kumolo.Prelude.{
  ℕ, suc, ◌≤◌, ◌+◌, ◌≡◌, refl, Bool, true, false, Option, none, some, List, [], ◌∷◌, ◌++◌, length,
  arith, Bool-cases, inl, inr, if◌then◌else◌,
}
use kumolo.Prelude.Bytes.{Bytes, bytes_eq, bytes_eq→≡}
use kumolo.Prelude.Dict.{Dict, Each, find, insert, remove, find-insert, find-remove}
use kumolo.Kms.Types.{
  KeyMetadata, AliasEntry, RotationRecord, key_arn, alias_arn_of, is_enabled, is_pending,
}
use kumolo.Kms.Disk.{
  File, absent, torn, holds, KeyDir, Disk, Place, file_at, alias_at, put_dir, put_alias, meta_json,
  tags_json, rotation_history_json,
}
use kumolo.Kms.Io.{Env, Act, write_json, write_at, clear_at}
use kumolo.Kms.Io.Triple.{Yields, Keeps, Keeps-write_json}
use kumolo.Kms.Rotation.{count_on_demand, max_on_demand_rotations}
use kumolo.Kms.Tags.{max_tags_per_key}

abbrev pub is_some : {A : Type 0} → Option A → Bool
is_some none = false
is_some (some a) = true

-- The metadata of the key `k`: its ID and ARN are its own, it is usable exactly when its state is
-- Enabled, and it has a deletion date exactly when it is pending deletion.
pub record MetaValid (k : Bytes) (m : KeyMetadata) : Type 0 where
  pub own_id : m.key_id ≡ k
  pub own_arn : m.arn ≡ key_arn k
  pub usable_if_enabled : m.is_usable ≡ is_enabled m.key_state
  pub dated_if_pending : is_some m.deletion_date ≡ is_pending m.key_state

-- `Q` holds of what the file holds, if it can be read.
abbrev pub Readable : {A : Type 0} → (A → Type 0) → File A → Type 0
Readable Q absent = Unit
Readable Q torn = Unit
Readable Q (holds a) = Q a

pub record DirValid (k : Bytes) (d : KeyDir) : Type 0 where
  pub meta_valid : Readable (MetaValid k) d.meta
  pub few_tags : Readable (λ t. length t ≤ max_tags_per_key) d.tags
  pub few_rotations : Readable (λ h. count_on_demand h ≤ max_on_demand_rotations) d.history

pub record AliasValid (a : Bytes) (e : AliasEntry) : Type 0 where
  pub own_name : e.alias_name ≡ a
  pub own_alias_arn : e.alias_arn ≡ alias_arn_of a

pub record IsValid (d : Disk) : Type 0 where
  pub keys_valid : Each DirValid d.keys
  pub aliases_valid : Each (λ a f. Readable (AliasValid a) f) d.aliases
