-- ===== src/Kms/Calls/Valid.antt =====
-- The validity of the disk along the calls of internal/kms/storage.go, however the calls to the
-- operating system go.
use kumolo.Prelude.{◌≡◌}
use kumolo.Prelude.Dict.{find}
use kumolo.Kms.Disk.{Disk}
use kumolo.Kms.Io.{Env, World, Act}
use kumolo.Kms.Io.Triple.{Any, Keeps, Yields-bind, Yields-pure}
use kumolo.Kms.Calls.{
  Call, creates_key, puts_policy, enables, disables, cancels_deletion, schedules_deletion,
  creates_alias, updates_alias, deletes_alias, enables_rotation, disables_rotation, rotates_now,
  tags_key, untags_key, creates_grant, revokes_grant, retires_by_id, retires_by_token,
  ensures_s3_key, resolves_key, quietly, run_call, Reach, here, called, opened,
}
use kumolo.Kms.Valid.{IsValid}
use kumolo.Kms.Valid.Invariant.{Invariant, validity}
use kumolo.Kms.Valid.Create.{Keeps-create_key, Keeps-put_key_policy}
use kumolo.Kms.Valid.Lifecycle.{
  FreeIf, Keeps-enable_key, Keeps-disable_key, Keeps-schedule_key_deletion,
  Keeps-cancel_key_deletion,
}
use kumolo.Kms.Valid.Aliases.{Keeps-create_alias, Keeps-delete_alias, Keeps-update_alias}
use kumolo.Kms.Valid.Rotation.{
  Keeps-enable_key_rotation, Keeps-disable_key_rotation, Keeps-rotate_key_on_demand,
}
use kumolo.Kms.Valid.Tags.{Keeps-tag_resource, Keeps-untag_resource}
use kumolo.Kms.Valid.Grants.{
  Keeps-create_grant, Keeps-revoke_grant, Keeps-retire_grant_by_id, Keeps-retire_grant_by_token,
}
use kumolo.Kms.Valid.Encryption.{Keeps-ensure_aws_s3_key, Keeps-resolve_key_for_encryption}

Keeps-quietly : (I : Disk → Type 0) {A : Type 0} (m : Act A) → Keeps I m → Keeps I (quietly m)
unfolding quietly
Keeps-quietly I m h = Yields-bind I Any Any m _ h λ _ _. Yields-pure I Any tt tt

-- What an invariant asks of a call: that the key is free whose metadata it moves.
abbrev pub Allows : Env → Invariant → Call → Type 0
Allows E I (enables k) = FreeIf E I k
Allows E I (disables k) = FreeIf E I k
Allows E I (schedules_deletion k days) = FreeIf E I k
Allows E I (cancels_deletion k) = I.Free k
Allows E I c = Unit

pub Keeps-run_call :
    (E : Env) (I : Invariant) (c : Call) → Allows E I c → Keeps I.Holds (run_call E c)
unfolding run_call
Keeps-run_call E I (creates_key input) f = Keeps-quietly I.Holds _ (Keeps-create_key E I input)
Keeps-run_call E I (puts_policy k policy) f = Keeps-put_key_policy E I k policy
Keeps-run_call E I (enables k) f = Keeps-enable_key E I k f
Keeps-run_call E I (disables k) f = Keeps-disable_key E I k f
Keeps-run_call E I (cancels_deletion k) f =
    Keeps-quietly I.Holds _ (Keeps-cancel_key_deletion E I k f)
Keeps-run_call E I (schedules_deletion k days) f =
    Keeps-quietly I.Holds _ (Keeps-schedule_key_deletion E I k days f)
Keeps-run_call E I (creates_alias a target) f = Keeps-create_alias E I a target
Keeps-run_call E I (updates_alias a target) f = Keeps-update_alias E I a target
Keeps-run_call E I (deletes_alias a) f = Keeps-delete_alias E I a
Keeps-run_call E I (enables_rotation k days) f = Keeps-enable_key_rotation E I k days
Keeps-run_call E I (disables_rotation k) f = Keeps-disable_key_rotation E I k
Keeps-run_call E I (rotates_now k) f = Keeps-quietly I.Holds _ (Keeps-rotate_key_on_demand E I k)
Keeps-run_call E I (tags_key k tags) f = Keeps-tag_resource E I k tags
Keeps-run_call E I (untags_key k names) f = Keeps-untag_resource E I k names
Keeps-run_call E I (creates_grant k input) f =
    Keeps-quietly I.Holds _ (Keeps-create_grant E I k input)
Keeps-run_call E I (revokes_grant k id) f = Keeps-revoke_grant E I k id
Keeps-run_call E I (retires_by_id k id) f = Keeps-retire_grant_by_id E I k id
Keeps-run_call E I (retires_by_token token) f = Keeps-retire_grant_by_token E I token
Keeps-run_call E I ensures_s3_key f = Keeps-quietly I.Holds _ (Keeps-ensure_aws_s3_key E I)
Keeps-run_call E I (resolves_key ref) f =
    Keeps-quietly I.Holds _ (Keeps-resolve_key_for_encryption E I ref)

-- An invariant that the calls of a kind keep holds along them.
pub Reach-keeps :
    (E : Env) (I : Invariant) (P : Call → Type 0)
    → ((c : Call) → P c → Allows E I c)
    → (w w' : World) → Reach E P w w'
    → I.Holds w.disk
    → I.Holds w'.disk
Reach-keeps E I P h w _ here i = i
Reach-keeps E I P h w _ (called {w' = v} c p r) i =
    (Keeps-run_call E I c (h c p) v (Reach-keeps E I P h w v r i)).0

Allows-validity : (E : Env) (c : Call) → Allows E validity c
Allows-validity E (creates_key input) = tt
Allows-validity E (puts_policy k policy) = tt
Allows-validity E (enables k) = λ _ _ _. tt
Allows-validity E (disables k) = λ _ _ _. tt
Allows-validity E (cancels_deletion k) = tt
Allows-validity E (schedules_deletion k days) = λ _ _ _. tt
Allows-validity E (creates_alias a target) = tt
Allows-validity E (updates_alias a target) = tt
Allows-validity E (deletes_alias a) = tt
Allows-validity E (enables_rotation k days) = tt
Allows-validity E (disables_rotation k) = tt
Allows-validity E (rotates_now k) = tt
Allows-validity E (tags_key k tags) = tt
Allows-validity E (untags_key k names) = tt
Allows-validity E (creates_grant k input) = tt
Allows-validity E (revokes_grant k id) = tt
Allows-validity E (retires_by_id k id) = tt
Allows-validity E (retires_by_token token) = tt
Allows-validity E ensures_s3_key = tt
Allows-validity E (resolves_key ref) = tt

-- No call takes a valid disk to one that is not valid, whatever the environment does: every file
-- operation may fail, and a write that fails may leave a file that does not parse. On a valid disk
-- the metadata of a key that can be read is its own (ID and ARN), it is usable exactly in the state
-- Enabled, it has a deletion date exactly in the state PendingDeletion, and the key has at most 50
-- tags and 25 on-demand rotations; each alias that can be read has its own name and ARN.
pub run_call-IsValid :
    (E : Env) (c : Call) (w : World) → IsValid w.disk → IsValid (run_call E c w).1.disk
run_call-IsValid E c w v = (Keeps-run_call E validity c (Allows-validity E c) w v).0

pub opened-IsValid : IsValid opened
unfolding find
opened-IsValid = record { keys_valid = λ k dir e. cc; aliases_valid = λ a f e. cc }

-- A disk is valid that calls of any kind have made of the empty one, whichever of them failed.
pub reached-IsValid :
    (E : Env) (w w' : World) → w.disk ≡ opened → Reach E (λ c. Unit) w w' → IsValid w'.disk
reached-IsValid E w w' e r =
    Reach-keeps E validity (λ _. Unit) (λ c _. Allows-validity E c) w w' r (rw e opened-IsValid)
