-- ===== src/Kms/Calls/Results.antt =====
-- What is true of the disk when ResolveKeyForEncryption and CreateAlias of internal/kms/storage.go
-- have succeeded.
use kumolo.Prelude.{◌≡◌, ◌∙◌, ap, subst, refl, Bool, true, false, ◌||◌, none, some, if◌then◌else◌}
use kumolo.Prelude.Bytes.{Bytes, bytes_eq}
use kumolo.Prelude.Dict.{find-insert_same}
use kumolo.Kms.Types.{KeyState, enabled, disabled, pending_deletion, KeyMetadata, AliasEntry}
use kumolo.Kms.Disk.{File, absent, torn, holds, Disk, file_at, alias_at, put_alias, meta_json}
use kumolo.Kms.Io.{
  Env, World, Fault, fine, refused, half_done, unclosed, Outcome, done, failed, Act, pure, fail,
  ◌>>=◌, ◌>>◌, attempt, continue, answer, contents, written, read_json, write_json, write_alias,
  with_disk, next, is_not_exist, key_not_found,
}
use kumolo.Kms.Io.Runs.{run-read_json}
use kumolo.Kms.Keys.{read_key_meta, get_key_metadata}
use kumolo.Kms.Aliases.{is_blank, read_alias, create_alias, resolve_alias}
use kumolo.Kms.Encryption.{aws_s3_alias, usable_arn, from_reference, resolve_key_for_encryption}

-- Where the call succeeds, what it returns and the disk that it leaves are in the relation.
abbrev Ends {ℓ} : {A : Type ℓ} → (A → Disk → Type 0) → Act A → Type ℓ
Ends {A = A} R m = (w w' : World) (a : A) → m w ≡ (done a, w') → R a w'.disk

Ends-bind {ℓ κ} :
    {A : Type ℓ} {B : Type κ} (R : B → Disk → Type 0) (m : Act A) (f : A → Act B)
    → ((a : A) → Ends R (f a))
    → Ends R (m >>= f)
unfolding ◌>>=◌
Ends-bind {A = A} {B = B} R m f h w w' b e = by_outcome (m w).0 e
  where
    by_outcome : (r : Outcome A) → continue f r (m w).1 ≡ (done b, w') → R b w'.disk
    by_outcome (done a) e' = h a (m w).1 w' b e'
    by_outcome (failed x) e' = let no : failed x ≡ done b = ap (λ p. p.0) e' in cc

Ends-then {ℓ} :
    {B : Type ℓ} (R : B → Disk → Type 0) (m : Act (Unit {0})) (f : Act B)
    → Ends R f
    → Ends R (m >> f)
unfolding ◌>>◌
Ends-then R m f h = Ends-bind R m (λ _. f) (λ _. h)

Ends-if {ℓ} :
    {A : Type ℓ} (R : A → Disk → Type 0) (b : Bool) (f g : Act A)
    → Ends R f
    → Ends R g
    → Ends R (if b then f else g)
Ends-if R true f g hf hg = hf
Ends-if R false f g hf hg = hg

module _ (E : Env) where
  -- The ARN is that of a key that is enabled on the disk.
  abbrev pub IsUsableArn : Bytes → Disk → Type 0
  IsUsableArn arn d =
      (k : Bytes) × ((m : KeyMetadata) × ((file_at meta_json k d ≡ holds m)
          × ((m.key_state ≡ enabled) × (m.arn ≡ arn))))

  Ends-usable_arn :
      (k : Bytes) (m : KeyMetadata) (w w' : World) (arn : Bytes)
      → file_at meta_json k w.disk ≡ holds m
      → (s : KeyState) → m.key_state ≡ s
      → usable_arn E m.arn s w ≡ (done arn, w')
      → IsUsableArn arn w'.disk
  unfolding usable_arn pure fail
  Ends-usable_arn k m w w' arn h enabled e p =
      let value : done m.arn ≡ done arn = ap (λ q. q.0) p in
      let disk : w.disk ≡ w'.disk = ap (λ q. q.1.disk) p in
      (k, (m, (subst (λ d. file_at meta_json k d ≡ holds m) disk h, (e, cc))))
  Ends-usable_arn k m w w' arn h disabled e p = let no : failed _ ≡ done arn = ap (λ q. q.0) p in cc
  Ends-usable_arn k m w w' arn h pending_deletion e p =
      let no : failed _ ≡ done arn = ap (λ q. q.0) p in cc

  -- Metadata that has been read is what the disk holds.
  get_key_metadata-done :
      (k : Bytes) (m : KeyMetadata) (w w' : World)
      → get_key_metadata E k w ≡ (done m, w')
      → file_at meta_json k w'.disk ≡ holds m
  unfolding get_key_metadata read_key_meta read_json attempt ◌>>=◌ pure fail
  get_key_metadata-done k m w w' e = by_fault (E.fault w.tick) (file_at meta_json k w.disk) refl e
    where
      back : Outcome KeyMetadata → Outcome KeyMetadata × World
      back r =
          continue
            (λ q. elim q as (λ _. Act KeyMetadata) [
              | done a ↦ λ v. (done a, v)
              | failed x ↦ λ v. (failed (if is_not_exist x then key_not_found else x), v)
            ])
            (done r) (next w)

      by_fault :
          (t : Fault) (f : File KeyMetadata)
          → file_at meta_json k w.disk ≡ f
          → back (answer t (contents f)) ≡ (done m, w')
          → file_at meta_json k w'.disk ≡ holds m
      by_fault fine (holds a) h p =
          let value : done a ≡ done m = ap (λ q. q.0) p in
          let same : a ≡ m = cc in
          let disk : w.disk ≡ w'.disk = ap (λ q. q.1.disk) p in
          subst (λ d. file_at meta_json k d ≡ holds m) disk (h ∙ ap holds same)
      by_fault fine absent h p = let no : failed _ ≡ done m = ap (λ q. q.0) p in cc
      by_fault fine torn h p = let no : failed _ ≡ done m = ap (λ q. q.0) p in cc
      by_fault refused f h p = let no : failed _ ≡ done m = ap (λ q. q.0) p in cc
      by_fault half_done f h p = let no : failed _ ≡ done m = ap (λ q. q.0) p in cc
      by_fault unclosed f h p = let no : failed _ ≡ done m = ap (λ q. q.0) p in cc

  Ends-arn :
      (k : Bytes)
      → Ends IsUsableArn (get_key_metadata E k >>= λ meta. usable_arn E meta.arn meta.key_state)
  unfolding ◌>>=◌
  Ends-arn k w w' arn e = by_outcome (get_key_metadata E k w).0 (get_key_metadata E k w).1 refl e
    where
      by_outcome :
          (r : Outcome KeyMetadata) (v : World)
          → get_key_metadata E k w ≡ (r, v)
          → continue (λ meta. usable_arn E meta.arn meta.key_state) r v ≡ (done arn, w')
          → IsUsableArn arn w'.disk
      by_outcome (done m) v q p =
          Ends-usable_arn k m v w' arn (get_key_metadata-done k m w v q) m.key_state refl p
      by_outcome (failed x) v q p = let no : failed x ≡ done arn = ap (λ z. z.0) p in cc

  Ends-from_reference : (ref : Bytes) → Ends IsUsableArn (from_reference E ref)
  unfolding from_reference
  Ends-from_reference ref = Ends-bind IsUsableArn _ _ λ k. Ends-arn k

-- What ResolveKeyForEncryption returns is the ARN in the metadata of a key whose state is Enabled,
-- on the disk that the call leaves; the key may be one that the call has made.
pub resolve_key_for_encryption-done :
    (E : Env) (ref arn : Bytes) (w w' : World)
    → resolve_key_for_encryption E ref w ≡ (done arn, w')
    → (k : Bytes) × ((m : KeyMetadata) × ((file_at meta_json k w'.disk ≡ holds m)
          × ((m.key_state ≡ enabled) × (m.arn ≡ arn))))
unfolding resolve_key_for_encryption
resolve_key_for_encryption-done E ref arn w w' e =
    Ends-if (IsUsableArn E) (is_blank ref || bytes_eq ref aws_s3_alias) _ _
      (Ends-bind (IsUsableArn E) _ _ λ _. Ends-from_reference E aws_s3_alias)
      (Ends-from_reference E ref) w w' arn e

module _ (E : Env) (a : Bytes) where
  abbrev LeadsTo : Bytes → Unit {0} → Disk → Type 0
  LeadsTo target u d = (x : AliasEntry) × ((alias_at a d ≡ holds x) × (x.target_key_id ≡ target))

  Ends-write_alias :
      (x : AliasEntry) → Ends (LeadsTo x.target_key_id) (write_json E (write_alias a) x)
  unfolding write_json
  Ends-write_alias x w w' u e = by_fault (E.fault w.tick) e
    where
      ran : Outcome (Unit {0}) × Disk → Outcome (Unit {0}) × World
      ran p = (p.0, with_disk p.1 (next w))

      by_fault :
          (t : Fault)
          → ran (written (write_alias a) x t w.disk) ≡ (done u, w')
          → LeadsTo x.target_key_id u w'.disk
      by_fault fine p =
          let disk : put_alias a (holds x) w.disk ≡ w'.disk = ap (λ q. q.1.disk) p in
          let there : alias_at a (put_alias a (holds x) w.disk) ≡ holds x =
            ap (λ o. elim o as (λ _. File AliasEntry) [ none ↦ absent | some f ↦ f ])
              (find-insert_same a (holds x) w.disk.aliases) in
          (x, (subst (λ d. alias_at a d ≡ holds x) disk there, refl))
      by_fault refused p = let no : failed _ ≡ done u = ap (λ q. q.0) p in cc
      by_fault half_done p = let no : failed _ ≡ done u = ap (λ q. q.0) p in cc
      by_fault unclosed p = let no : failed _ ≡ done u = ap (λ q. q.0) p in cc

  Ends-create_alias : (target : Bytes) → Ends (LeadsTo target) (create_alias E a target)
  unfolding create_alias
  Ends-create_alias target = Ends-then _ _ _ (
      Ends-bind _ _ _ λ meta. Ends-then _ _ _ (
        Ends-bind _ _ _ λ count.
          Ends-then _ _ _
            (Ends-bind _ _ _ λ there. Ends-then _ _ _ (Ends-bind _ _ _ λ now. Ends-write_alias _))))

  run-resolve_alias :
      (x : AliasEntry) (w : World)
      → E.fault w.tick ≡ fine
      → alias_at a w.disk ≡ holds x
      → resolve_alias E a w ≡ (done x.target_key_id, next w)
  unfolding resolve_alias read_alias pure attempt ◌>>=◌
  run-resolve_alias x w f h = rw (run-read_json E (alias_at a) x w f h) refl

-- A new alias leads to its key: where CreateAlias has succeeded, ResolveAlias gives the target, if
-- reading the alias does not fail.
pub resolve_alias-create_alias :
    (E : Env) (a target : Bytes) (w w' : World)
    → create_alias E a target w ≡ (done tt, w')
    → E.fault w'.tick ≡ fine
    → (resolve_alias E a w').0 ≡ done target
resolve_alias-create_alias E a target w w' e f =
    let (x, found) = Ends-create_alias E a target w w' tt e in
    ap (λ p. p.0) (run-resolve_alias E a x w' f found.0) ∙ ap done found.1
