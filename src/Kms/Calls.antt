-- ===== src/Kms/Calls.antt =====
-- The calls of internal/kms/storage.go that write, as the clients of the storage see them: one
-- after the other, in any order, on the disk that the calls before have left.
pub mod Valid
pub mod Metadata
pub mod States
pub mod Results
pub mod Refused
pub mod Queries
use kumolo.Prelude.{ℕ, Bool, true, false, ◌≡◌, List, [], ◌∷◌}
use kumolo.Prelude.Bytes.{Bytes, bytes_eq}
use kumolo.Kms.Types.{CreateGrantInput}
use kumolo.Kms.Disk.{Disk}
use kumolo.Kms.Io.{Env, World, Outcome, done, failed, Act, pure, ◌>>=◌}
use kumolo.Kms.Keys.{CreateKeyInput, create_key, put_key_policy}
use kumolo.Kms.Aliases.{create_alias, delete_alias, update_alias}
use kumolo.Kms.Lifecycle.{enable_key, disable_key, schedule_key_deletion, cancel_key_deletion}
use kumolo.Kms.Rotation.{enable_key_rotation, disable_key_rotation, rotate_key_on_demand}
use kumolo.Kms.Tags.{tag_resource, untag_resource}
use kumolo.Kms.Grants.{create_grant, revoke_grant, retire_grant_by_id, retire_grant_by_token}
use kumolo.Kms.Encryption.{ensure_aws_s3_key, resolve_key_for_encryption}

pub data Call : Type 0 where
  creates_key : CreateKeyInput → Call
  puts_policy : Bytes → Bytes → Call
  enables disables cancels_deletion : Bytes → Call
  schedules_deletion : Bytes → ℕ → Call
  creates_alias updates_alias : Bytes → Bytes → Call
  deletes_alias : Bytes → Call
  enables_rotation : Bytes → ℕ → Call
  disables_rotation rotates_now : Bytes → Call
  tags_key : Bytes → List (Bytes × Bytes) → Call
  untags_key : Bytes → List Bytes → Call
  creates_grant : Bytes → CreateGrantInput → Call
  revokes_grant retires_by_id : Bytes → Bytes → Call
  retires_by_token : Bytes → Call
  ensures_s3_key : Call
  resolves_key : Bytes → Call

-- The call for what it does to the disk.
pub quietly : {A : Type 0} → Act A → Act (Unit {0})
quietly m = m >>= λ _. pure tt

module _ (E : Env) where
  pub run_call : Call → Act (Unit {0})
  unfolding quietly
  run_call (creates_key input) = quietly (create_key E input)
  run_call (puts_policy k policy) = put_key_policy E k policy
  run_call (enables k) = enable_key E k
  run_call (disables k) = disable_key E k
  run_call (cancels_deletion k) = quietly (cancel_key_deletion E k)
  run_call (schedules_deletion k days) = quietly (schedule_key_deletion E k days)
  run_call (creates_alias a target) = create_alias E a target
  run_call (updates_alias a target) = update_alias E a target
  run_call (deletes_alias a) = delete_alias E a
  run_call (enables_rotation k days) = enable_key_rotation E k days
  run_call (disables_rotation k) = disable_key_rotation E k
  run_call (rotates_now k) = quietly (rotate_key_on_demand E k)
  run_call (tags_key k tags) = tag_resource E k tags
  run_call (untags_key k names) = untag_resource E k names
  run_call (creates_grant k input) = quietly (create_grant E k input)
  run_call (revokes_grant k id) = revoke_grant E k id
  run_call (retires_by_id k id) = retire_grant_by_id E k id
  run_call (retires_by_token token) = retire_grant_by_token E token
  run_call ensures_s3_key = quietly (ensure_aws_s3_key E)
  run_call (resolves_key ref) = quietly (resolve_key_for_encryption E ref)

  -- The worlds that calls of a kind lead to, whether they succeed or fail.
  pub data Reach (P : Call → Type 0) : World → World → Type 0 where
    here : {w : World} → Reach P w w
    called : {w w' : World} (c : Call) → P c → Reach P w w' → Reach P w (run_call c w').1

abbrev pub opened : Disk
opened = record { keys = []; aliases = [] }

-- A call of the lifecycle of the key `j`.
abbrev pub moves_key : Bytes → Call → Bool
moves_key j (enables k) = bytes_eq k j
moves_key j (disables k) = bytes_eq k j
moves_key j (schedules_deletion k days) = bytes_eq k j
moves_key j (cancels_deletion k) = bytes_eq k j
moves_key j c = false

abbrev pub cancels_key : Bytes → Call → Bool
cancels_key j (cancels_deletion k) = bytes_eq k j
cancels_key j c = false
