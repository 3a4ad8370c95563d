-- ===== src/Kms/Valid/Lifecycle.antt =====
-- EnableKey, DisableKey, ScheduleKeyDeletion and CancelKeyDeletion, and the validity of the disk.
use kumolo.Prelude.{◌≡◌, ◌∙◌, refl, ℕ, false, Option, none, some}
use kumolo.Prelude.Bytes.{Bytes}
use kumolo.Kms.Types.{
  KeyState, KeyMetadata, enabled, disabled, pending_deletion, is_pending, is_enabled, is_disabled,
}
use kumolo.Kms.Io.{Env}
use kumolo.Kms.Io.Triple.{
  Any, Keeps, Yields-bind, Yields-then, Yields-guard, Yields-pure, Yields-if, Keeps-now_unix,
}
use kumolo.Kms.Lifecycle.{enable_key, disable_key, schedule_key_deletion, cancel_key_deletion}
use kumolo.Kms.Valid.{is_some, MetaValid}
use kumolo.Kms.Valid.Invariant.{Invariant}
use kumolo.Kms.Valid.Files.{Known, Yields-read_key_meta, Keeps-write_meta}

MetaValid-moved :
    (k : Bytes) (m : KeyMetadata) (s : KeyState) (d : Option ℕ)
    → MetaValid k m
    → is_some d ≡ is_pending s
    → MetaValid k (record m { key_state = s; is_usable = is_enabled s; deletion_date = d })
MetaValid-moved k m s d q h = record {
  own_id = q.own_id;
  own_arn = q.own_arn;
  usable_if_enabled = refl;
  dated_if_pending = h;
}

module _ (E : Env) (I : Invariant) where
  -- The key is free, if the guard lets the call go on that refuses keys pending deletion.
  abbrev pub FreeIf : Bytes → Type 0
  FreeIf k = (m : KeyMetadata) → I.Seen k m → is_pending m.key_state ≡ false → I.Free k

  pub Keeps-enable_key : (k : Bytes) → FreeIf k → Keeps I.Holds (enable_key E k)
  unfolding enable_key
  Keeps-enable_key k f =
      Yields-bind I.Holds (Known E I k) Any _ _ (Yields-read_key_meta E I k) λ m q.
        Yields-guard I.Holds Any _ _ _ λ p.
          Yields-if I.Holds Any (is_enabled m.key_state) _ _ (λ _. Yields-pure I.Holds Any _ tt)
            (λ _.
              Keeps-write_meta E I k _ (f m q.1 p)
                (MetaValid-moved k m enabled m.deletion_date q.0 (q.0.dated_if_pending ∙ p)))

  pub Keeps-disable_key : (k : Bytes) → FreeIf k → Keeps I.Holds (disable_key E k)
  unfolding disable_key
  Keeps-disable_key k f =
      Yields-bind I.Holds (Known E I k) Any _ _ (Yields-read_key_meta E I k) λ m q.
        Yields-guard I.Holds Any _ _ _ λ p.
          Yields-if I.Holds Any (is_disabled m.key_state) _ _ (λ _. Yields-pure I.Holds Any _ tt)
            (λ _.
              Keeps-write_meta E I k _ (f m q.1 p)
                (MetaValid-moved k m disabled m.deletion_date q.0 (q.0.dated_if_pending ∙ p)))

  pub Keeps-schedule_key_deletion :
      (k : Bytes) (days : ℕ) → FreeIf k → Keeps I.Holds (schedule_key_deletion E k days)
  unfolding schedule_key_deletion
  Keeps-schedule_key_deletion k days f =
      Yields-bind I.Holds (Known E I k) Any _ _ (Yields-read_key_meta E I k) λ m q.
        Yields-guard I.Holds Any _ _ _ λ p.
          Yields-bind I.Holds Any Any _ _ (Keeps-now_unix I.Holds E) λ now _.
            Yields-then I.Holds Any Any _ _
              (Keeps-write_meta E I k _ (f m q.1 p)
                (MetaValid-moved k m pending_deletion (some _) q.0 refl))
              (Yields-pure I.Holds Any _ tt)

  pub Keeps-cancel_key_deletion : (k : Bytes) → I.Free k → Keeps I.Holds (cancel_key_deletion E k)
  unfolding cancel_key_deletion
  Keeps-cancel_key_deletion k f =
      Yields-bind I.Holds (Known E I k) Any _ _ (Yields-read_key_meta E I k) λ m q.
        Yields-guard I.Holds Any _ _ _ λ p.
          Yields-then I.Holds Any Any _ _
            (Keeps-write_meta E I k _ f (MetaValid-moved k m disabled none q.0 refl))
            (Yields-pure I.Holds Any _ tt)
