-- ===== src/Kms/Calls/Refused.antt =====
-- The calls of internal/kms/storage.go that refuse a key that is pending deletion.
use kumolo.Prelude.{ℕ, ◌≡◌, ◌∙◌, ap, subst, refl, Option, none, some, List}
use kumolo.Prelude.Bytes.{Bytes}
use kumolo.Kms.Types.{CreateGrantInput, KeyMetadata, pending_deletion, is_pending, is_disabled}
use kumolo.Kms.Disk.{holds, file_at, meta_json}
use kumolo.Kms.Io.{
  KmsError, invalid_key_state, key_pending_deletion, Env, fine, World, done, failed, Act, pure,
  ◌>>=◌, ◌>>◌, attempt, fail_if, next,
}
use kumolo.Kms.Io.Runs.{
  run-bind_done, run-bind_failed, run-then_done, run-then_failed, run-pass, run-stop, run-stat,
}
use kumolo.Kms.Keys.{read_key_meta, key_exists}
use kumolo.Kms.Aliases.{create_alias}
use kumolo.Kms.Lifecycle.{enable_key, disable_key, schedule_key_deletion}
use kumolo.Kms.Rotation.{
  require_enabled, enable_key_rotation, disable_key_rotation, rotate_key_on_demand,
}
use kumolo.Kms.Tags.{tag_resource, untag_resource}
use kumolo.Kms.Grants.{create_grant, revoke_grant, retire_grant_by_id}
use kumolo.Kms.Calls.{
  Call, creates_key, puts_policy, enables, disables, cancels_deletion, schedules_deletion,
  creates_alias, updates_alias, deletes_alias, enables_rotation, disables_rotation, rotates_now,
  tags_key, untags_key, creates_grant, revokes_grant, retires_by_id, retires_by_token,
  ensures_s3_key, resolves_key, quietly, run_call,
}
use kumolo.Kms.Calls.States.{run-read_key_meta}

-- The key whose metadata a call reads and checks first, and the error if it is pending deletion; the
-- calls that do not start so, such as RetireGrantByToken, are not in the table.
abbrev pub checked_key : Call → Option (Bytes × KmsError)
checked_key (enables k) = some (k, invalid_key_state)
checked_key (disables k) = some (k, invalid_key_state)
checked_key (schedules_deletion k days) = some (k, invalid_key_state)
checked_key (enables_rotation k days) = some (k, invalid_key_state)
checked_key (disables_rotation k) = some (k, invalid_key_state)
checked_key (rotates_now k) = some (k, invalid_key_state)
checked_key (tags_key k tags) = some (k, invalid_key_state)
checked_key (untags_key k names) = some (k, invalid_key_state)
checked_key (creates_grant k input) = some (k, invalid_key_state)
checked_key (revokes_grant k id) = some (k, invalid_key_state)
checked_key (retires_by_id k id) = some (k, invalid_key_state)
checked_key (creates_alias a target) = some (target, key_pending_deletion)
checked_key c = none

-- The call fails with the error, and the disk is as it was.
abbrev pub Refuses : Act (Unit {0}) → KmsError → World → Type 0
Refuses m e w = ((m w).0 ≡ failed e) × ((m w).1.disk ≡ w.disk)

module _ (E : Env) (fine_always : (t : ℕ) → E.fault t ≡ fine) (k : Bytes) (m : KeyMetadata)
    (w : World) (h : file_at meta_json k w.disk ≡ holds m)
    (p : m.key_state ≡ pending_deletion) where
  -- A call that reads the metadata and then checks that the key is not pending deletion.
  run-checked :
      {A : Type 0} (rest : KeyMetadata → Act A)
      → (read_key_meta E k >>= λ meta.
            fail_if (is_pending meta.key_state) invalid_key_state >> rest meta)
          w
        ≡ (failed invalid_key_state, next w)
  run-checked rest =
      run-bind_done (read_key_meta E k) _ m w (next w) (run-read_key_meta E fine_always k m w h)
      ∙ run-stop _ _ (rest m) (next w) (ap is_pending p)

  Refuses-run :
      (c : Act (Unit {0})) (e : KmsError) (v : World)
      → c w ≡ (failed e, v)
      → v.disk ≡ w.disk
      → Refuses c e w
  Refuses-run c e v r d = rw r (refl, d)

  Refuses-enable_key : Refuses (enable_key E k) invalid_key_state w
  unfolding enable_key
  Refuses-enable_key = Refuses-run (enable_key E k) _ (next w) (run-checked _) refl

  Refuses-disable_key : Refuses (disable_key E k) invalid_key_state w
  unfolding disable_key
  Refuses-disable_key = Refuses-run (disable_key E k) _ (next w) (run-checked _) refl

  Refuses-quietly :
      {A : Type 0} (c : Act A)
      → c w ≡ (failed invalid_key_state, next w)
      → Refuses (quietly c) invalid_key_state w
  unfolding quietly
  Refuses-quietly c r = Refuses-run (quietly c) _ (next w) (run-bind_failed c _ _ w (next w) r) refl

  Refuses-schedule :
      (days : ℕ) → Refuses (quietly (schedule_key_deletion E k days)) invalid_key_state w
  unfolding schedule_key_deletion
  Refuses-schedule days = Refuses-quietly (schedule_key_deletion E k days) (run-checked _)

  Refuses-tag_resource :
      (tags : List (Bytes × Bytes)) → Refuses (tag_resource E k tags) invalid_key_state w
  unfolding tag_resource
  Refuses-tag_resource tags = Refuses-run (tag_resource E k tags) _ (next w) (run-checked _) refl

  Refuses-untag_resource :
      (names : List Bytes) → Refuses (untag_resource E k names) invalid_key_state w
  unfolding untag_resource
  Refuses-untag_resource names =
      Refuses-run (untag_resource E k names) _ (next w) (run-checked _) refl

  Refuses-revoke_grant : (id : Bytes) → Refuses (revoke_grant E k id) invalid_key_state w
  unfolding revoke_grant
  Refuses-revoke_grant id = Refuses-run (revoke_grant E k id) _ (next w) (run-checked _) refl

  run-require_enabled : require_enabled E m (next w) ≡ (failed invalid_key_state, next w)
  unfolding require_enabled
  run-require_enabled = run-stop _ _ _ (next w) (ap is_pending p)

  -- The calls of rotation.
  run-rotation :
      {A : Type 0} (rest : KeyMetadata → Act A)
      → (read_key_meta E k >>= λ meta. require_enabled E meta >> rest meta) w
        ≡ (failed invalid_key_state, next w)
  run-rotation rest =
      run-bind_done (read_key_meta E k) _ m w (next w) (run-read_key_meta E fine_always k m w h)
      ∙ run-then_failed (require_enabled E m) (rest m) _ (next w) (next w) run-require_enabled

  Refuses-enable_key_rotation :
      (days : ℕ) → Refuses (enable_key_rotation E k days) invalid_key_state w
  unfolding enable_key_rotation
  Refuses-enable_key_rotation days =
      Refuses-run (enable_key_rotation E k days) _ (next w) (run-rotation _) refl

  Refuses-disable_key_rotation : Refuses (disable_key_rotation E k) invalid_key_state w
  unfolding disable_key_rotation
  Refuses-disable_key_rotation =
      Refuses-run (disable_key_rotation E k) _ (next w) (run-rotation _) refl

  Refuses-rotate : Refuses (quietly (rotate_key_on_demand E k)) invalid_key_state w
  unfolding rotate_key_on_demand
  Refuses-rotate = Refuses-quietly (rotate_key_on_demand E k) (run-rotation _)

  Refuses-create_grant :
      (input : CreateGrantInput) → Refuses (quietly (create_grant E k input)) invalid_key_state w
  unfolding create_grant
  Refuses-create_grant input = Refuses-quietly (create_grant E k input) (
      run-bind_done (read_key_meta E k) _ m w (next w) (run-read_key_meta E fine_always k m w h)
      ∙ (run-pass _ _ _ (next w) (ap is_disabled p) ∙ run-stop _ _ _ (next w) (ap is_pending p)))

  run-key_exists : key_exists E k w ≡ (done tt, next w)
  unfolding key_exists attempt pure ◌>>=◌
  run-key_exists = rw (run-stat E (file_at meta_json k) m w (fine_always w.tick) h) refl

  Refuses-create_alias : (a : Bytes) → Refuses (create_alias E a k) key_pending_deletion w
  unfolding create_alias
  Refuses-create_alias a =
      Refuses-run (create_alias E a k) _ (next (next w))
        (run-then_done (key_exists E k) _ w (next w) run-key_exists
          ∙ (run-bind_done (read_key_meta E k) _ m (next w) (next (next w))
                (run-read_key_meta E fine_always k m (next w) h)
              ∙ run-stop _ _ _ (next (next w)) (ap is_pending p)))
        refl

-- The key and the error of the table.
by_table :
    (c : Act (Unit {0})) (j k : Bytes) (x e : KmsError) (m : KeyMetadata) (w : World)
    → ◌≡◌ {A = Option (Bytes × KmsError)} (some (j, x)) (some (k, e))
    → file_at meta_json k w.disk ≡ holds m
    → (file_at meta_json j w.disk ≡ holds m → Refuses c x w)
    → Refuses c e w
by_table c j k x e m w s h r =
    let pair : ◌≡◌ {A = Bytes × KmsError} (j, x) (k, e) = cc in
    let key : j ≡ k = ap (λ q. q.0) pair in
    subst (λ y. Refuses c y w) (ap (λ q. q.1) pair)
      (r (ap (λ i. file_at meta_json i w.disk) key ∙ h))

-- A key that is pending deletion is refused, where no file operation fails, with ErrInvalidKeyState
-- by EnableKey, DisableKey, ScheduleKeyDeletion, EnableKeyRotation, DisableKeyRotation,
-- RotateKeyOnDemand, TagResource, UntagResource, CreateGrant, RevokeGrant and RetireGrantByID, and
-- with ErrKeyPendingDeletion by CreateAlias, whose target it is; and the disk stays as it is.
pub checked_key-Refuses :
    (E : Env) (c : Call) (k : Bytes) (e : KmsError) (m : KeyMetadata) (w : World)
    → ((t : ℕ) → E.fault t ≡ fine)
    → checked_key c ≡ some (k, e)
    → file_at meta_json k w.disk ≡ holds m
    → m.key_state ≡ pending_deletion
    → Refuses (run_call E c) e w
unfolding run_call retire_grant_by_id
checked_key-Refuses E (enables j) k e m w f s h p =
    by_table (enable_key E j) j k _ e m w s h λ g. Refuses-enable_key E f j m w g p
checked_key-Refuses E (disables j) k e m w f s h p =
    by_table (disable_key E j) j k _ e m w s h λ g. Refuses-disable_key E f j m w g p
checked_key-Refuses E (schedules_deletion j days) k e m w f s h p =
    by_table (quietly (schedule_key_deletion E j days)) j k _ e m w s h
      λ g. Refuses-schedule E f j m w g p days
checked_key-Refuses E (enables_rotation j days) k e m w f s h p =
    by_table (enable_key_rotation E j days) j k _ e m w s h
      λ g. Refuses-enable_key_rotation E f j m w g p days
checked_key-Refuses E (disables_rotation j) k e m w f s h p =
    by_table (disable_key_rotation E j) j k _ e m w s h
      λ g. Refuses-disable_key_rotation E f j m w g p
checked_key-Refuses E (rotates_now j) k e m w f s h p =
    by_table (quietly (rotate_key_on_demand E j)) j k _ e m w s h λ g. Refuses-rotate E f j m w g p
checked_key-Refuses E (tags_key j tags) k e m w f s h p =
    by_table (tag_resource E j tags) j k _ e m w s h λ g. Refuses-tag_resource E f j m w g p tags
checked_key-Refuses E (untags_key j names) k e m w f s h p =
    by_table (untag_resource E j names) j k _ e m w s h
      λ g. Refuses-untag_resource E f j m w g p names
checked_key-Refuses E (creates_grant j input) k e m w f s h p =
    by_table (quietly (create_grant E j input)) j k _ e m w s h
      λ g. Refuses-create_grant E f j m w g p input
checked_key-Refuses E (revokes_grant j id) k e m w f s h p =
    by_table (revoke_grant E j id) j k _ e m w s h λ g. Refuses-revoke_grant E f j m w g p id
checked_key-Refuses E (retires_by_id j id) k e m w f s h p =
    by_table (revoke_grant E j id) j k _ e m w s h λ g. Refuses-revoke_grant E f j m w g p id
checked_key-Refuses E (creates_alias a j) k e m w f s h p =
    by_table (create_alias E a j) j k _ e m w s h λ g. Refuses-create_alias E f j m w g p a
checked_key-Refuses E (creates_key input) k e m w f s h p = cc
checked_key-Refuses E (puts_policy j policy) k e m w f s h p = cc
checked_key-Refuses E (cancels_deletion j) k e m w f s h p = cc
checked_key-Refuses E (updates_alias a j) k e m w f s h p = cc
checked_key-Refuses E (deletes_alias a) k e m w f s h p = cc
checked_key-Refuses E (retires_by_token token) k e m w f s h p = cc
checked_key-Refuses E ensures_s3_key k e m w f s h p = cc
checked_key-Refuses E (resolves_key ref) k e m w f s h p = cc
