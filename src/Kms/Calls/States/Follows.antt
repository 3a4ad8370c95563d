-- ===== src/Kms/Calls/States/Follows.antt =====
-- EnableKey, DisableKey, ScheduleKeyDeletion and CancelKeyDeletion of internal/kms/storage.go, state
-- by state.
use kumolo.Prelude.{ℕ, suc, ◌+◌, ◌*◌, false, not, ◌≡◌, ◌∙◌, ap, subst, refl, none, some}
use kumolo.Prelude.Bytes.{Bytes}
use kumolo.Kms.Types.{
  KeyState, KeyMetadata, enabled, disabled, pending_deletion, is_enabled, is_disabled, is_pending,
}
use kumolo.Kms.Disk.{holds, file_at, meta_json}
use kumolo.Kms.Io.{
  Env, World, done, failed, fine, invalid_key_state, Act, pure, ◌>>=◌, next, now_unix,
}
use kumolo.Kms.Io.Runs.{
  run-if_true, run-if_false, run-bind_done, run-bind_failed, run-then_done, run-pass, run-stop,
}
use kumolo.Kms.Keys.{read_key_meta}
use kumolo.Kms.Lifecycle.{
  write_meta, seconds_per_day, enable_key, disable_key, schedule_key_deletion, cancel_key_deletion,
  scheduled, cancelled,
}
use kumolo.Kms.Calls.{quietly, run_call}
use kumolo.Kms.Valid.{MetaValid}
use kumolo.Kms.Calls.States.{
  Move, enable, disable, cancel, schedule, call_of, next_state, date_after, come_to, Moved,
  run-read_key_meta, by_refusal, by_writing, no_date, come_to-same,
}

module _ (E : Env) (fine_always : (t : ℕ) → E.fault t ≡ fine) where
  module _ (k : Bytes) (m : KeyMetadata) (w : World)
      (h : file_at meta_json k w.disk ≡ holds m) where
    run-read : {B : Type 0} (f : KeyMetadata → Act B) → (read_key_meta E k >>= f) w ≡ f m (next w)
    run-read f =
        run-bind_done (read_key_meta E k) f m w (next w) (run-read_key_meta E fine_always k m w h)

    -- A call that has nothing to do.
    by_staying :
        (s : KeyState) (c : Act (Unit {0}))
        → MetaValid k m
        → m.key_state ≡ s
        → is_pending s ≡ false
        → c w ≡ (done tt, next w)
        → Moved k m none w (some s) (c w)
    by_staying s c q e p r = rw r (refl, h ∙ ap holds (come_to-same E fine_always k m s q e p))

    undated :
        MetaValid k m
        → (s : KeyState) → m.key_state ≡ s
        → is_pending s ≡ false
        → m.deletion_date ≡ none
    undated q s e p =
        no_date E fine_always m.deletion_date (q.dated_if_pending ∙ (ap is_pending e ∙ p))

    -- EnableKey and DisableKey leave the deletion date, which there is none.
    writing_undated :
        (s t : KeyState) (c : Act (Unit {0}))
        → MetaValid k m
        → m.key_state ≡ t
        → is_pending t ≡ false
        → ((u : World)
            → write_meta E k (come_to s m.deletion_date m) (next w) ≡ (done tt, u)
            → c w ≡ (done tt, u))
        → Moved k m none w (some s) (c w)
    writing_undated s t c q e p r =
        subst (λ date. Moved k m date w (some s) (c w)) (undated q t e p)
          (by_writing E fine_always k m m.deletion_date s w (next w) c h r)

    enable_key-Moved :
        MetaValid k m
        → (s : KeyState) → m.key_state ≡ s
        → Moved k m none w (next_state enable s) (enable_key E k w)
    unfolding enable_key pure
    enable_key-Moved q enabled e = by_staying enabled (enable_key E k) q e refl (
        run-read _
        ∙ (run-pass _ _ _ (next w) (ap is_pending e)
            ∙ run-if_true _ _ _ (next w) (ap is_enabled e)))
    enable_key-Moved q disabled e =
        writing_undated enabled disabled (enable_key E k) q e refl λ u p.
          run-read _
          ∙ (run-pass _ _ _ (next w) (ap is_pending e)
              ∙ (run-if_false _ _ _ (next w) (ap is_enabled e) ∙ p))
    enable_key-Moved q pending_deletion e =
        by_refusal E fine_always k m none w (enable_key E k)
          (run-read _ ∙ run-stop _ _ _ (next w) (ap is_pending e))

    disable_key-Moved :
        MetaValid k m
        → (s : KeyState) → m.key_state ≡ s
        → Moved k m none w (next_state disable s) (disable_key E k w)
    unfolding disable_key pure
    disable_key-Moved q enabled e =
        writing_undated disabled enabled (disable_key E k) q e refl λ u p.
          run-read _
          ∙ (run-pass _ _ _ (next w) (ap is_pending e)
              ∙ (run-if_false _ _ _ (next w) (ap is_disabled e) ∙ p))
    disable_key-Moved q disabled e = by_staying disabled (disable_key E k) q e refl (
        run-read _
        ∙ (run-pass _ _ _ (next w) (ap is_pending e)
            ∙ run-if_true _ _ _ (next w) (ap is_disabled e)))
    disable_key-Moved q pending_deletion e =
        by_refusal E fine_always k m none w (disable_key E k)
          (run-read _ ∙ run-stop _ _ _ (next w) (ap is_pending e))

    -- A call whose value is not looked at.
    quietly_done :
        {A : Type 0} (c : Act A) (a : A) (u : World)
        → c w ≡ (done a, u)
        → quietly c w ≡ (done tt, u)
    unfolding quietly pure
    quietly_done c a u e = run-bind_done c _ a w u e

    quietly_failed :
        {A : Type 0} (c : Act A) (u : World)
        → c w ≡ (failed invalid_key_state, u)
        → quietly c w ≡ (failed invalid_key_state, u)
    unfolding quietly
    quietly_failed c u e = run-bind_failed c _ invalid_key_state w u e

    cancel_key_deletion-Moved :
        (s : KeyState)
        → m.key_state ≡ s
        → Moved k m none w (next_state cancel s) (quietly (cancel_key_deletion E k) w)
    unfolding cancel_key_deletion pure
    cancel_key_deletion-Moved enabled e =
        by_refusal E fine_always k m none w (quietly (cancel_key_deletion E k)) (
          quietly_failed _ _
            (run-read _ ∙ run-stop _ _ _ (next w) (ap (λ s. not (is_pending s)) e)))
    cancel_key_deletion-Moved disabled e =
        by_refusal E fine_always k m none w (quietly (cancel_key_deletion E k)) (
          quietly_failed _ _
            (run-read _ ∙ run-stop _ _ _ (next w) (ap (λ s. not (is_pending s)) e)))
    cancel_key_deletion-Moved pending_deletion e =
        by_writing E fine_always k m none disabled w (next w) (quietly (cancel_key_deletion E k)) h
          λ u p. quietly_done _ (cancelled E m) u (
            run-read _
            ∙ (run-pass _ _ _ (next w) (ap (λ s. not (is_pending s)) e)
                ∙ run-then_done _ _ (next w) u p))

    abbrev date_from : ℕ → ℕ
    date_from days = E.now (next w).tick + days * seconds_per_day

    scheduled_from :
        (days : ℕ)
        → is_pending m.key_state ≡ false
        → Moved k m
            (some (date_from days))
            w
            (some pending_deletion)
            (quietly (schedule_key_deletion E k days) w)
    unfolding schedule_key_deletion pure now_unix
    scheduled_from days e =
        by_writing E fine_always k m _ pending_deletion w (next (next w))
          (quietly (schedule_key_deletion E k days)) h
          λ u p. quietly_done _ (scheduled E (date_from days) m) u (
            run-read _
            ∙ (run-pass _ _ _ (next w) e
                ∙ (run-bind_done (now_unix E) _ (E.now (next w).tick) (next w) (next (next w)) refl
                    ∙ run-then_done _ _ (next (next w)) u p)))

    schedule_key_deletion-Moved :
        (days : ℕ) (s : KeyState)
        → m.key_state ≡ s
        → Moved k m
            (some (date_from days))
            w
            (next_state (schedule days) s)
            (quietly (schedule_key_deletion E k days) w)
    unfolding schedule_key_deletion pure
    schedule_key_deletion-Moved days enabled e = scheduled_from days (ap is_pending e)
    schedule_key_deletion-Moved days disabled e = scheduled_from days (ap is_pending e)
    schedule_key_deletion-Moved days pending_deletion e =
        by_refusal E fine_always k m (some (date_from days)) w
          (quietly (schedule_key_deletion E k days))
          (quietly_failed _ _ (run-read _ ∙ run-stop _ _ _ (next w) (ap is_pending e)))

-- EnableKey, DisableKey, CancelKeyDeletion and ScheduleKeyDeletion follow the table `next_state`,
-- where no file operation fails, the metadata `m` of the key `k` can be read and it is valid: a
-- move that the table has no state for is refused with ErrInvalidKeyState, and the disk stays as it
-- is; any other ends well, and leaves metadata that are `m` but for the new state, usable exactly
-- if that is Enabled, with the deletion date `days` days from now if it is PendingDeletion and with
-- none otherwise.
pub run_call-Moved :
    (E : Env) (k : Bytes) (m : KeyMetadata) (w : World) (mv : Move)
    → ((t : ℕ) → E.fault t ≡ fine)
    → file_at meta_json k w.disk ≡ holds m
    → MetaValid k m
    → Moved k m
        (date_after mv (E.now (suc w.tick)))
        w
        (next_state mv m.key_state)
        (run_call E (call_of k mv) w)
unfolding run_call
run_call-Moved E k m w enable f h q = enable_key-Moved E f k m w h q m.key_state refl
run_call-Moved E k m w disable f h q = disable_key-Moved E f k m w h q m.key_state refl
run_call-Moved E k m w cancel f h q = cancel_key_deletion-Moved E f k m w h m.key_state refl
run_call-Moved E k m w (schedule days) f h q =
    schedule_key_deletion-Moved E f k m w h days m.key_state refl
