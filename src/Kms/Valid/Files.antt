-- ===== src/Kms/Valid/Files.antt =====
-- The calls that internal/kms/storage.go makes to read and write the files of a key, and an
-- invariant of the disk.
use kumolo.Prelude.{◌≡◌, Bool, true, false, if◌then◌else◌}
use kumolo.Prelude.Bytes.{Bytes}
use kumolo.Kms.Types.{KeyMetadata}
use kumolo.Kms.Disk.{File, absent, torn, holds, KeyDir, Disk, Place, file_at, meta_json}
use kumolo.Kms.Io.{
  Env, Act, Outcome, done, failed, KmsError, write_json, write_at, clear_at, ◌>>=◌, attempt,
  change_dir, is_not_exist, read_json, remove_file,
}
use kumolo.Kms.Io.Triple.{
  Any, OnDone, OnDone-Any, Yields, Keeps, Yields-bind, Yields-then, Yields-caught, Yields-pure,
  Yields-fail, Yields-read_json, Yields-attempt, Keeps-stat, Keeps-write_json, Keeps-remove_file,
  Keeps-change_dir,
}
use kumolo.Kms.Keys.{key_exists, read_key_meta, discard, on_failure, missing_is}
use kumolo.Kms.Rotation.{or_missing, lift, may_exist}
use kumolo.Kms.Lifecycle.{write_meta}
use kumolo.Kms.Valid.{MetaValid, DirValid, IsValid}
use kumolo.Kms.Valid.Changes.{
  IsCalm, write_at-IsCalm, write_at-IsCalmBut, clear_at-IsCalmBut, file_at-Readable,
}
use kumolo.Kms.Valid.Invariant.{Invariant}

-- A place of which the validity of a directory does not speak.
abbrev pub IsHarmless : {A : Type 0} → Place A → Type 0
IsHarmless {A = A} p =
    ((k : Bytes) (f : File A) (dir : KeyDir) → DirValid k dir → DirValid k (p.write f dir))
    × ((f : File A) (dir : KeyDir) → dir.meta ≡ (p.write f dir).meta)

module _ (E : Env) (I : Invariant) where
  -- A file other than meta.json.
  pub Keeps-write_at :
      {A : Type 0} (p : Place A) (k : Bytes) (a : A)
      → ((dir : KeyDir) → DirValid k dir → DirValid k (p.write (holds a) dir))
      → ((dir : KeyDir) → DirValid k dir → DirValid k (p.write torn dir))
      → ((f : File A) (dir : KeyDir) → dir.meta ≡ (p.write f dir).meta)
      → Keeps I.Holds (write_json E (write_at p k) a)
  Keeps-write_at p k a h t s =
      Keeps-write_json I.Holds E (write_at p k) a
        (λ d d' v e.
          I.calm d d' v (write_at-IsCalm p k (holds a) d d' h (s (holds a)) (I.valid d v) e))
        (λ d d' v e. I.calm d d' v (write_at-IsCalm p k torn d d' t (s torn) (I.valid d v) e))

  pub Keeps-write_harmless :
      {A : Type 0} (p : Place A) (k : Bytes) (a : A)
      → IsHarmless p
      → Keeps I.Holds (write_json E (write_at p k) a)
  Keeps-write_harmless p k a h = Keeps-write_at p k a (h.0 k _) (h.0 k _) h.1

  pub Keeps-write_meta_at :
      (k : Bytes) (m : KeyMetadata)
      → I.Free k
      → MetaValid k m
      → Keeps I.Holds (write_json E (write_at meta_json k) m)
  Keeps-write_meta_at k m f q =
      Keeps-write_json I.Holds E (write_at meta_json k) m
        (λ d d' v e. I.calm_but k d d' f v (
          write_at-IsCalmBut meta_json k (holds m) d d'
            (λ dir h. record {
              meta_valid = q;
              few_tags = h.few_tags;
              few_rotations = h.few_rotations;
            })
            (I.valid d v) e))
        (λ d d' v e. I.calm_but k d d' f v (
          write_at-IsCalmBut meta_json k torn d d'
            (λ dir h. record {
              meta_valid = tt;
              few_tags = h.few_tags;
              few_rotations = h.few_rotations;
            })
            (I.valid d v) e))

  pub Keeps-write_meta :
      (k : Bytes) (m : KeyMetadata) → I.Free k → MetaValid k m → Keeps I.Holds (write_meta E k m)
  unfolding write_meta
  Keeps-write_meta k m f q = Keeps-write_meta_at k m f q

  pub Keeps-remove_from :
      {A : Type 0} (p : Place A) (k : Bytes)
      → I.Free k
      → ((dir : KeyDir) → DirValid k dir → DirValid k (p.write absent dir))
      → Keeps I.Holds (remove_file E (file_at p k) (clear_at p k))
  Keeps-remove_from p k f h =
      Keeps-remove_file I.Holds E (file_at p k) (clear_at p k)
        λ d v. I.calm_but k d _ f v (clear_at-IsCalmBut p k d h (I.valid d v))

  -- What a caller knows of the metadata that it reads.
  abbrev pub Known : Bytes → KeyMetadata → Type 0
  Known k m = MetaValid k m × I.Seen k m

  pub Yields-read_key_meta : (k : Bytes) → Yields I.Holds (Known k) (read_key_meta E k)
  unfolding read_key_meta
  Yields-read_key_meta k =
      Yields-caught I.Holds (Known k) (Known k) _ _
        (Yields-read_json I.Holds E (Known k) (file_at meta_json k) (λ d v m e. (
          file_at-Readable meta_json (MetaValid k) k d (λ dir h. h.meta_valid) (I.valid d v) m e,
          I.seen k m d v e,
        )))
        (λ m q. Yields-pure I.Holds _ m q) (λ e. Yields-fail I.Holds _ _)

  pub Keeps-key_exists : (k : Bytes) → Keeps I.Holds (key_exists E k)
  unfolding key_exists
  Keeps-key_exists k =
      Yields-caught I.Holds Any Any _ _ (Keeps-stat I.Holds E (file_at meta_json k))
        (λ m q. Yields-pure I.Holds _ _ tt) (λ e. Yields-fail I.Holds _ _)

  pub Keeps-discard : (m : Act (Unit {0})) → Keeps I.Holds m → Keeps I.Holds (discard E m)
  Keeps-discard m h =
      Yields-caught I.Holds Any Any _ _ h (λ _ _. Yields-pure I.Holds Any tt tt)
        (λ _. Yields-pure I.Holds Any tt tt)

  pub Yields-on_failure :
      {A : Type 0} (Q : A → Type 0) (cleanup : Act (Unit {0})) (m : Act A)
      → Keeps I.Holds cleanup
      → Yields I.Holds Q m
      → Yields I.Holds Q (on_failure E cleanup m)
  Yields-on_failure Q cleanup m hc hm =
      Yields-caught I.Holds Q Q _ _ hm (λ a q. Yields-pure I.Holds Q a q)
        (λ e. Yields-then I.Holds Any Q _ _ hc (Yields-fail I.Holds Q e))

  -- A call whose missing file has another error.
  pub Yields-missing_is :
      {A : Type 0} (Q : A → Type 0) (e : KmsError) (m : Act A)
      → Yields I.Holds Q m
      → Yields I.Holds Q (missing_is E e m)
  Yields-missing_is Q e m h =
      Yields-caught I.Holds Q Q _ _ h (λ a q. Yields-pure I.Holds Q a q)
        (λ x. Yields-fail I.Holds Q _)

  or_missing_lifted :
      {A : Type 0} (Q : A → Type 0) (a : A) (r : Outcome A)
      → Q a
      → OnDone Q r
      → Yields I.Holds Q (lift (or_missing a r))
  unfolding lift
  or_missing_lifted Q a (done b) q h w v = (v, h)
  or_missing_lifted Q a (failed e) q h w v = by_error (is_not_exist e)
    where
      by_error : (b : Bool) → I.Holds w.disk × OnDone Q (if b then done a else failed e)
      by_error true = (v, q)
      by_error false = (v, tt)

  Keeps-lift : {A : Type 0} (r : Outcome A) → Keeps I.Holds (lift r)
  unfolding lift
  Keeps-lift r w v = (v, OnDone-Any r)

  -- A file that may be missing, with the value that stands for it.
  pub Yields-or_missing :
      {A : Type 0} (Q : A → Type 0) (a : A) (file : Disk → File A)
      → Q a
      → ((d : Disk) → IsValid d → (b : A) → file d ≡ holds b → Q b)
      → Yields I.Holds Q (attempt (read_json E file) >>= λ r. lift (or_missing a r))
  Yields-or_missing Q a file q h =
      Yields-bind I.Holds (OnDone Q) Q _ _
        (Yields-attempt I.Holds Q _ (Yields-read_json I.Holds E Q file λ d v. h d (I.valid d v)))
        λ r p. or_missing_lifted Q a r q p

  -- The directory may be there already.
  pub Keeps-may_exist :
      (f : Disk → Outcome Disk)
      → ((d d' : Disk) → IsValid d → f d ≡ done d' → IsCalm d d')
      → Keeps I.Holds (attempt (change_dir E f) >>= λ made. lift (may_exist made))
  Keeps-may_exist f h =
      Yields-bind I.Holds _ Any _ _
        (Yields-attempt I.Holds Any _
          (Keeps-change_dir I.Holds E f λ d d' v e. I.calm d d' v (h d d' (I.valid d v) e)))
        λ made _. Keeps-lift (may_exist made)
