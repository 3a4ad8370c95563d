-- ===== src/Kms/Calls/States.antt =====
-- The state machine of a key: what EnableKey, DisableKey, ScheduleKeyDeletion and CancelKeyDeletion
-- of internal/kms/storage.go do where no file operation fails.
pub mod Follows
use kumolo.Prelude.{ℕ, suc, ◌+◌, ◌*◌, false, not, ◌≡◌, ◌∙◌, ap, subst, refl, Option, none, some}
use kumolo.Prelude.Bytes.{Bytes}
use kumolo.Prelude.Dict.{find, find-insert_same}
use kumolo.Kms.Types.{
  KeyState, KeyMetadata, enabled, disabled, pending_deletion, is_enabled, is_disabled, is_pending,
}
use kumolo.Kms.Disk.{File, absent, holds, KeyDir, Disk, file_at, put_dir, meta_json}
use kumolo.Kms.Io.{
  Env, World, Outcome, done, failed, fine, invalid_key_state, Act, pure, ◌>>=◌, write_json, attempt,
  next, with_disk, now_unix, write_at,
}
use kumolo.Kms.Io.Runs.{
  run-if_true, run-if_false, run-bind_done, run-bind_failed, run-then_done, run-pass, run-stop,
  run-read_json, run-write_json,
}
use kumolo.Kms.Keys.{read_key_meta}
use kumolo.Kms.Lifecycle.{
  write_meta, seconds_per_day, enable_key, disable_key, schedule_key_deletion, cancel_key_deletion,
  scheduled, cancelled,
}
use kumolo.Kms.Calls.{
  Call, enables, disables, cancels_deletion, schedules_deletion, quietly, run_call,
}
use kumolo.Kms.Valid.{is_some, MetaValid}

-- The four calls, and the state that a key goes to from each, if it may.
pub data Move : Type 0 where
  enable disable cancel : Move
  schedule : ℕ → Move

abbrev pub call_of : Bytes → Move → Call
call_of k enable = enables k
call_of k disable = disables k
call_of k cancel = cancels_deletion k
call_of k (schedule days) = schedules_deletion k days

abbrev pub next_state : Move → KeyState → Option KeyState
next_state cancel pending_deletion = some disabled
next_state cancel enabled = none
next_state cancel disabled = none
next_state enable pending_deletion = none
next_state enable _ = some enabled
next_state disable pending_deletion = none
next_state disable _ = some disabled
next_state (schedule days) pending_deletion = none
next_state (schedule days) _ = some pending_deletion

-- The metadata in a state that a key has come to at a time: all else is as before.
abbrev pub date_after : Move → ℕ → Option ℕ
date_after (schedule days) now = some (now + days * seconds_per_day)
date_after _ now = none

abbrev pub come_to : KeyState → Option ℕ → KeyMetadata → KeyMetadata
come_to s date m = record m { key_state = s; is_usable = is_enabled s; deletion_date = date }

-- Refused and the disk as before, or done and the key in its next state.
abbrev pub Moved :
    Bytes → KeyMetadata → Option ℕ → World → Option KeyState → Outcome (Unit {0}) × World → Type 0
Moved k m date w none (r, w') = (r ≡ failed invalid_key_state) × (w'.disk ≡ w.disk)
Moved k m date w (some s) (r, w') =
    (r ≡ done tt) × (file_at meta_json k w'.disk ≡ holds (come_to s date m))

module _ (E : Env) (fine_always : (t : ℕ) → E.fault t ≡ fine) where
  pub run-read_key_meta :
      (k : Bytes) (m : KeyMetadata) (w : World)
      → file_at meta_json k w.disk ≡ holds m
      → read_key_meta E k w ≡ (done m, next w)
  unfolding read_key_meta pure attempt ◌>>=◌
  run-read_key_meta k m w h =
      rw (run-read_json E (file_at meta_json k) m w (fine_always w.tick) h) refl

  -- A file that is written is there.
  run-write_meta :
      (k : Bytes) (m n : KeyMetadata) (w : World)
      → file_at meta_json k w.disk ≡ holds m
      → (d : Disk) × ((write_meta E k n w ≡ (done tt, with_disk d (next w)))
          × (file_at meta_json k d ≡ holds n))
  unfolding write_meta
  run-write_meta k m n w h = by_dir (find k w.disk.keys) refl h
    where
      by_dir :
          (o : Option KeyDir)
          → find k w.disk.keys ≡ o
          → elim o as (λ _. File KeyMetadata) [ none ↦ absent | some dir ↦ dir.meta ] ≡ holds m
          → (d : Disk) × ((write_json E (write_at meta_json k) n w
                ≡ (done tt, with_disk d (next w)))
              × (file_at meta_json k d ≡ holds n))
      by_dir none q e = cc
      by_dir (some dir) q e = (
        put_dir k (record dir { meta = holds n }) w.disk,
        (
          run-write_json E (write_at meta_json k) n w _ (fine_always w.tick) (
              ap
                (λ o. elim o as (λ _. Option Disk) [
                  | none ↦ none
                  | some dir' ↦ some (put_dir k (record dir' { meta = holds n }) w.disk)
                ])
                q),
          ap (λ o. elim o as (λ _. File KeyMetadata) [ none ↦ absent | some dir' ↦ dir'.meta ])
              (find-insert_same k (record dir { meta = holds n }) w.disk.keys),
        ),
      )

  pub by_refusal :
      (k : Bytes) (m : KeyMetadata) (date : Option ℕ) (w : World) (c : Act (Unit {0}))
      → c w ≡ (failed invalid_key_state, next w)
      → Moved k m date w none (c w)
  by_refusal k m date w c e = rw e (refl, refl)

  -- A call that writes the metadata of the next state, at a later tick.
  pub by_writing :
      (k : Bytes) (m : KeyMetadata) (date : Option ℕ) (s : KeyState) (w v : World)
      (c : Act (Unit {0}))
      → file_at meta_json k v.disk ≡ holds m
      → ((u : World) → write_meta E k (come_to s date m) v ≡ (done tt, u) → c w ≡ (done tt, u))
      → Moved k m date w (some s) (c w)
  by_writing k m date s w v c h e =
      let (d, found) = run-write_meta k m (come_to s date m) v h in rw (e _ found.0) (refl, found.1)

  pub no_date : (o : Option ℕ) → is_some o ≡ false → o ≡ none
  no_date none e = refl
  no_date (some n) e = cc

  -- Metadata that is already in the state.
  pub come_to-same :
      (k : Bytes) (m : KeyMetadata) (s : KeyState)
      → MetaValid k m
      → m.key_state ≡ s
      → is_pending s ≡ false
      → m ≡ come_to s none m
  come_to-same k m s q e p =
      let usable : m.is_usable ≡ is_enabled s = q.usable_if_enabled ∙ ap is_enabled e in
      let date : m.deletion_date ≡ none =
        no_date m.deletion_date (q.dated_if_pending ∙ (ap is_pending e ∙ p)) in
      ap (λ t. record m { key_state = t; is_usable = m.is_usable; deletion_date = m.deletion_date })
        e
      ∙ (ap (λ t. record m { key_state = s; is_usable = t; deletion_date = m.deletion_date }) usable
          ∙ ap (λ t. record m { key_state = s; is_usable = is_enabled s; deletion_date = t }) date)
