-- ===== src/Kms/Lifecycle.antt =====
-- The states of a key in internal/kms/storage.go: EnableKey, DisableKey, ScheduleKeyDeletion and
-- CancelKeyDeletion.
use kumolo.Prelude.{ℕ, ◌+◌, ◌*◌, true, false, not, none, some, if◌then◌else◌}
use kumolo.Prelude.Bytes.{Bytes}
use kumolo.Kms.Types.{
  KeyMetadata, enabled, disabled, pending_deletion, is_pending, is_enabled, is_disabled,
}
use kumolo.Kms.Disk.{meta_json}
use kumolo.Kms.Io.{
  invalid_key_state, Env, Act, pure, ◌>>=◌, ◌>>◌, fail_if, write_json, now_unix, write_at,
}
use kumolo.Kms.Keys.{read_key_meta}

abbrev pub seconds_per_day : ℕ
seconds_per_day = 86400

module _ (E : Env) where
  unfoldable pub write_meta : Bytes → KeyMetadata → Act (Unit {0})
  write_meta k meta = write_json E (write_at meta_json k) meta

  unfoldable pub enable_key : Bytes → Act (Unit {0})
  unfolding write_meta
  enable_key k = do
    meta ← read_key_meta E k
    fail_if (is_pending meta.key_state) invalid_key_state
    (if is_enabled meta.key_state
        then pure tt
        else write_meta k (record meta { key_state = enabled; is_usable = true }))

  unfoldable pub disable_key : Bytes → Act (Unit {0})
  unfolding write_meta
  disable_key k = do
    meta ← read_key_meta E k
    fail_if (is_pending meta.key_state) invalid_key_state
    (if is_disabled meta.key_state
        then pure tt
        else write_meta k (record meta { key_state = disabled; is_usable = false }))

  abbrev pub scheduled : ℕ → KeyMetadata → KeyMetadata
  scheduled date meta = record meta {
    key_state = pending_deletion;
    is_usable = false;
    deletion_date = some date;
  }

  unfoldable pub schedule_key_deletion : Bytes → ℕ → Act KeyMetadata
  unfolding write_meta
  schedule_key_deletion k days = do
    meta ← read_key_meta E k
    fail_if (is_pending meta.key_state) invalid_key_state
    now ← now_unix E
    write_meta k (scheduled (now + days * seconds_per_day) meta)
    pure (scheduled (now + days * seconds_per_day) meta)

  abbrev pub cancelled : KeyMetadata → KeyMetadata
  cancelled meta = record meta { key_state = disabled; is_usable = false; deletion_date = none }

  unfoldable pub cancel_key_deletion : Bytes → Act KeyMetadata
  unfolding write_meta
  cancel_key_deletion k = do
    meta ← read_key_meta E k
    fail_if (not (is_pending meta.key_state)) invalid_key_state
    write_meta k (cancelled meta)
    pure (cancelled meta)
