-- ===== src/Kms/Io.antt =====
-- The operating system under internal/kms/storage.go: file operations, random bytes and the clock.
-- Any of them may fail: the environment tells, for each call in turn, how it goes.
pub mod Triple
pub mod Runs
use kumolo.Prelude.{
  ℕ, suc, Bool, true, false, not, ◌&&◌, Option, none, some, List, [], ◌∷◌, if◌then◌else◌,
}
use kumolo.Prelude.Bytes.{Bytes}
use kumolo.Prelude.Dict.{Dict, find, insert, remove}
use kumolo.Kms.Disk.{
  File, absent, torn, holds, KeyDir, Disk, Place, empty_dir, file_at, alias_at, put_dir, put_alias,
  entry_of,
}
use kumolo.Kms.Types.{AliasEntry}

-- The Err* values of internal/kms/errors.go, which wrapping by %w keeps; os.ErrNotExist and
-- os.ErrExist; a failure of the operating system; text that json.Unmarshal refuses.
pub data KmsError : Type 0 where
  key_not_found key_material_not_found key_material_corrupted : KmsError
  alias_not_found alias_already_exists alias_limit_exceeded : KmsError
  key_disabled key_pending_deletion invalid_key_state unsupported_op : KmsError
  tag_limit_exceeded on_demand_rotation_limit invalid_marker : KmsError
  grant_not_found grant_limit_exceeded : KmsError
  not_exist already_exists io_error bad_json : KmsError

-- errors.Is(err, os.ErrNotExist)
abbrev pub is_not_exist : KmsError → Bool
is_not_exist not_exist = true
is_not_exist _ = false

-- How a call goes: as it should; not at all; or, for a write, the file is opened and emptied and the
-- write fails, or the file is written and closing it fails.
pub data Fault : Type 0 where
  fine refused half_done unclosed : Fault

-- What the environment answers at each tick: whether a call fails, what crypto/rand reads (by the
-- number of bytes), the Unix time, and the private key that generateKeyPair makes, which is nil for
-- some specs.
pub record Env : Type 0 where
  pub fault : ℕ → Fault
  pub random : ℕ → ℕ → Bytes
  pub now : ℕ → ℕ
  pub key_pair : ℕ → Bytes → Option (Option Bytes)

pub record World : Type 0 where
  pub disk : Disk
  pub tick : ℕ

pub data Outcome {ℓ} (A : Type ℓ) : Type ℓ where
  done : A → Outcome A
  failed : KmsError → Outcome A

-- A call of the storage: what was written stays written when it fails.
abbrev pub Act {ℓ} : Type ℓ → Type ℓ
Act A = World → Outcome A × World

unfoldable pub pure {ℓ} : {A : Type ℓ} → A → Act A
pure a w = (done a, w)

unfoldable pub fail {ℓ} : {A : Type ℓ} → KmsError → Act A
fail e w = (failed e, w)

-- What follows a call.
abbrev pub continue {ℓ κ} : {A : Type ℓ} {B : Type κ} → (A → Act B) → Outcome A → Act B
continue f (done a) w = f a w
continue f (failed e) w = (failed e, w)

infixl 5 ◌>>=◌ ◌>>◌
unfoldable pub ◌>>=◌ {ℓ κ} : {A : Type ℓ} {B : Type κ} → Act A → (A → Act B) → Act B
◌>>=◌ m f w = let (r, w') = m w in continue f r w'

unfoldable pub ◌>>◌ {ℓ} : {B : Type ℓ} → Act (Unit {0}) → Act B → Act B
unfolding ◌>>=◌
m >> k = m >>= λ _. k

-- A call whose error the caller looks at.
unfoldable pub attempt {ℓ} : {A : Type ℓ} → Act A → Act (Outcome A)
attempt m w = let (r, w') = m w in (done r, w')

unfoldable pub fail_if : Bool → KmsError → Act (Unit {0})
fail_if b e w = (if b then failed e else done tt, w)

abbrev pub next : World → World
next w = record w { tick = suc w.tick }

abbrev pub with_disk : Disk → World → World
with_disk d w = record w { disk = d }

-- What a call answers that changes nothing.
abbrev pub answer {ℓ} : {A : Type ℓ} → Fault → Outcome A → Outcome A
answer fine r = r
answer refused r = failed io_error
answer half_done r = failed io_error
answer unclosed r = failed io_error

abbrev pub contents : {A : Type 0} → File A → Outcome A
contents absent = failed not_exist
contents torn = failed bad_json
contents (holds a) = done a

abbrev pub existence : {A : Type 0} → File A → Outcome (Unit {0})
existence absent = failed not_exist
existence _ = done tt

-- writeJSON: `write` puts a file where its directory is there.
abbrev pub written :
    {A : Type 0} → (File A → Disk → Option Disk) → A → Fault → Disk → Outcome (Unit {0}) × Disk
written write a fine d = elim (write (holds a) d) [
  | none ↦ (failed not_exist, d)
  | some d' ↦ (done tt, d')
]
written write a refused d = (failed io_error, d)
written write a half_done d = elim (write torn d) [
  | none ↦ (failed not_exist, d)
  | some d' ↦ (failed io_error, d')
]
written write a unclosed d = elim (write (holds a) d) [
  | none ↦ (failed not_exist, d)
  | some d' ↦ (failed io_error, d')
]

-- s.removeFile, of a file: `clear` is the disk without it
abbrev pub removed :
    {A : Type 0} → (Disk → File A) → (Disk → Disk) → Fault → Disk → Outcome (Unit {0}) × Disk
removed file clear fine d = elim (file d) [
  | absent ↦ (failed not_exist, d)
  | _ ↦ (done tt, clear d)
]
removed file clear _ d = (failed io_error, d)

-- A directory operation that gives the new disk, or an error.
abbrev pub changed : (Disk → Outcome Disk) → Fault → Disk → Outcome (Unit {0}) × Disk
changed f fine d = elim (f d) [ done d' ↦ (done tt, d') | failed e ↦ (failed e, d) ]
changed f _ d = (failed io_error, d)

module _ (E : Env) where
  -- readJSON
  unfoldable pub read_json : {A : Type 0} → (Disk → File A) → Act A
  read_json file w = (answer (E.fault w.tick) (contents (file w.disk)), next w)

  -- s.statFn
  unfoldable pub stat : {A : Type 0} → (Disk → File A) → Act (Unit {0})
  stat file w = (answer (E.fault w.tick) (existence (file w.disk)), next w)

  unfoldable pub write_json : {A : Type 0} → (File A → Disk → Option Disk) → A → Act (Unit {0})
  write_json write a w =
      let (r, d) = written write a (E.fault w.tick) w.disk in (r, with_disk d (next w))

  pub remove_file : {A : Type 0} → (Disk → File A) → (Disk → Disk) → Act (Unit {0})
  remove_file file clear w =
      let (r, d) = removed file clear (E.fault w.tick) w.disk in (r, with_disk d (next w))

  pub change_dir : (Disk → Outcome Disk) → Act (Unit {0})
  change_dir f w = let (r, d) = changed f (E.fault w.tick) w.disk in (r, with_disk d (next w))

  -- s.listDirFn
  unfoldable pub list_dir {ℓ} : {A : Type ℓ} → (Disk → Outcome A) → Act A
  list_dir dir w = (answer (E.fault w.tick) (dir w.disk), next w)

  -- s.randRead
  pub rand_read : ℕ → Act Bytes
  rand_read n w = (answer (E.fault w.tick) (done (E.random w.tick n)), next w)

  -- nowUnix
  unfoldable pub now_unix : Act ℕ
  now_unix w = (done (E.now w.tick), next w)

  -- s.generateKeyPairFn
  pub generate_key_pair : Bytes → Act (Option Bytes)
  generate_key_pair spec w =
      (elim (E.key_pair w.tick spec) [ none ↦ failed io_error | some key ↦ done key ], next w)

-- Paths under keys/{id}.
abbrev pub write_at : {A : Type 0} → Place A → Bytes → File A → Disk → Option Disk
write_at p k f d = elim (find k d.keys) [
  | none ↦ none
  | some dir ↦ some (put_dir k (p.write f dir) d)
]

abbrev pub clear_at : {A : Type 0} → Place A → Bytes → Disk → Disk
clear_at p k d = elim (write_at p k absent d) [ none ↦ d | some d' ↦ d' ]

abbrev pub is_absent : {A : Type 0} → File A → Bool
is_absent absent = true
is_absent _ = false

abbrev no_entries : {A : Type 0} → Option (Dict A) → Bool
no_entries none = true
no_entries (some d) = false

-- The directory has nothing in it; a directory that was made in it counts.
abbrev pub is_bare : KeyDir → Bool
is_bare dir =
    is_absent dir.meta
    && is_absent dir.material
    && is_absent dir.policy
    && is_absent dir.rotation
    && is_absent dir.tags
    && is_absent dir.history
    && no_entries dir.materials
    && no_entries dir.grants

-- mkdir and rmdir of keys/{id}
abbrev pub make_key_dir : Bytes → Disk → Outcome Disk
make_key_dir k d = elim (find k d.keys) [
  | none ↦ done (put_dir k empty_dir d)
  | some dir ↦ failed already_exists
]

abbrev pub remove_key_dir : Bytes → Disk → Outcome Disk
remove_key_dir k d = elim (find k d.keys) [
  | none ↦ failed not_exist
  | some dir ↦ if is_bare dir then done (record d { keys = remove k d.keys }) else failed io_error
]

-- aliases/{name}.json; the directory is made when the storage is opened.
abbrev pub write_alias : Bytes → File AliasEntry → Disk → Option Disk
write_alias a f d = some (put_alias a f d)

abbrev pub clear_alias : Bytes → Disk → Disk
clear_alias a d = record d { aliases = remove a d.aliases }
