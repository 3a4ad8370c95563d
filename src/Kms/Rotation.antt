-- ===== src/Kms/Rotation.antt =====
-- The rotation of key material in internal/kms/storage.go.
pub mod Pages
use kumolo.Prelude.Decimal.{decimal, digits_from}
use kumolo.Prelude.{zero, ltb, take, drop, ◌-◌, ◌==◌, length}
use kumolo.Kms.Io.{invalid_marker}
use kumolo.Prelude.Bytes.{codes}
use kumolo.Prelude.{
  ℕ, suc, ◌+◌, ◌*◌, true, false, not, Option, none, some, List, [], ◌∷◌, ◌++◌, leb, if◌then◌else◌,
}
use kumolo.Prelude.Bytes.{Bytes, bytes_eq}
use kumolo.Prelude.Dict.{find, insert}
use kumolo.Kms.Types.{
  KeyMetadata, KeyMaterial, KeyRotationConfig, RotationRecord, automatic, on_demand, is_pending,
  is_enabled,
}
use kumolo.Kms.Specs.{symmetric_default}
use kumolo.Kms.Disk.{
  names_of, File, Disk, file_at, entry_of, put_dir, material_json, rotation_json,
  rotation_history_json,
}
use kumolo.Kms.Io.{
  invalid_key_state, key_disabled, unsupported_op, on_demand_rotation_limit, not_exist,
  already_exists, Env, Outcome, done, failed, Act, pure, ◌>>=◌, ◌>>◌, attempt, fail_if,
  is_not_exist, read_json, write_json, change_dir, list_dir, rand_read, now_unix, write_at,
}
use kumolo.Kms.Keys.{hex, key_exists, read_key_meta}
use kumolo.Kms.Lifecycle.{seconds_per_day}

-- A file that may be missing.
abbrev pub or_missing : {A : Type 0} → A → Outcome A → Outcome A
or_missing a (done b) = done b
or_missing a (failed e) = if is_not_exist e then done a else failed e

unfoldable pub lift {ℓ} : {A : Type ℓ} → Outcome A → Act A
lift r w = (r, w)

abbrev pub count_on_demand : List RotationRecord → ℕ
count_on_demand [] = 0
count_on_demand (r ∷ rs) =
    let rest = count_on_demand rs in
    elim r.rotation_type [ on_demand ↦ suc rest | automatic ↦ rest ]

abbrev pub max_on_demand_rotations : ℕ
max_on_demand_rotations = 25

-- keys/{id}/materials
abbrev pub make_materials_dir : Bytes → Disk → Outcome Disk
make_materials_dir k d = elim (find k d.keys) [
  | none ↦ failed not_exist
  | some dir ↦ elim dir.materials [
    | none ↦ done (put_dir k (record dir { materials = some [] }) d)
    | some m ↦ failed already_exists
  ]
]

abbrev pub write_old_material : Bytes → Bytes → File KeyMaterial → Disk → Option Disk
write_old_material k id f d = elim (find k d.keys) [
  | none ↦ none
  | some dir ↦ elim dir.materials [
    | none ↦ none
    | some m ↦ some (put_dir k (record dir { materials = some (insert id f m) }) d)
  ]
]

abbrev pub old_material_names : Bytes → Disk → Outcome (List Bytes)
old_material_names k d = elim (find k d.keys) [
  | none ↦ failed not_exist
  | some dir ↦ elim dir.materials [ none ↦ failed not_exist | some m ↦ done (names_of m) ]
]

abbrev pub old_material_at : Bytes → Bytes → Disk → File KeyMaterial
old_material_at k id d = elim (find k d.keys) [
  | none ↦ entry_of id none
  | some dir ↦ entry_of id dir.materials
]

-- `mkErr != nil && !errors.Is(mkErr, os.ErrExist)`
abbrev pub may_exist : Outcome (Unit {0}) → Outcome (Unit {0})
may_exist (done u) = done u
may_exist (failed already_exists) = done tt
may_exist (failed e) = failed e

-- strconv.Atoi, with an error for a negative number; a number beyond the range of int is beyond any
-- history, which is an error too.
abbrev minus_zero : Option ℕ → Option ℕ
minus_zero (some zero) = some 0
minus_zero _ = none

pub natural_value : Bytes → Option ℕ
natural_value [] = none
natural_value (c ∷ s) = digits_from 0 (c ∷ s)

pub marker_index : Bytes → Option ℕ
unfolding natural_value
marker_index [] = none
marker_index (c ∷ s) =
    if c == b'+'
    then natural_value s
    else if c == b'-'
    then minus_zero (natural_value s)
    else natural_value (c ∷ s)

-- `startIdx`
abbrev pub within : ℕ → Option ℕ → Outcome ℕ
within n none = failed invalid_marker
within n (some i) = if ltb i n then done (suc i) else failed invalid_marker

pub marker_start : List RotationRecord → Bytes → Outcome ℕ
unfolding marker_index
marker_start history [] = done 0
marker_start history (c ∷ s) = within (length history) (marker_index (c ∷ s))

-- `strconv.Itoa(startIdx + len(history) - 1)`
pub decimal_before : ℕ → Bytes
unfolding decimal
decimal_before zero = codes "-1"
decimal_before (suc n) = decimal n

abbrev pub rotations_from : List RotationRecord → ℕ → ℕ → List RotationRecord × Bytes
rotations_from history limit start =
    let rest = drop start history in
    if ltb limit (length rest)
    then (take limit rest, decimal_before (start + limit))
    else (rest, [])

unfoldable pub rotation_page :
    List RotationRecord → ℕ → Bytes → Outcome (List RotationRecord × Bytes)
unfolding marker_start decimal_before
rotation_page history limit marker = elim (marker_start history marker) [
  | failed e ↦ failed e
  | done start ↦ done (rotations_from history limit start)
]

module _ (E : Env) where
  -- The guards that the rotation calls share.
  unfoldable pub require_symmetric : KeyMetadata → Act (Unit {0})
  require_symmetric meta = fail_if (not (bytes_eq meta.key_spec symmetric_default)) unsupported_op

  unfoldable pub require_enabled : KeyMetadata → Act (Unit {0})
  unfolding require_symmetric
  require_enabled meta = do
    fail_if (is_pending meta.key_state) invalid_key_state
    fail_if (not (is_enabled meta.key_state)) key_disabled
    require_symmetric meta

  unfoldable pub enable_key_rotation : Bytes → ℕ → Act (Unit {0})
  unfolding require_enabled
  enable_key_rotation k days = do
    meta ← read_key_meta E k
    require_enabled meta
    now ← now_unix E
    write_json E (write_at rotation_json k) (record {
      rotates = true;
      rotation_period_in_days = days;
      next_rotation_date = now + days * seconds_per_day;
    })

  abbrev no_rotation : KeyRotationConfig
  no_rotation = record { rotates = false; rotation_period_in_days = 0; next_rotation_date = 0 }

  unfoldable pub disable_key_rotation : Bytes → Act (Unit {0})
  unfolding require_enabled
  disable_key_rotation k = do
    meta ← read_key_meta E k
    require_enabled meta
    write_json E (write_at rotation_json k) no_rotation

  unfoldable pub get_key_rotation_status : Bytes → Act (KeyMetadata × KeyRotationConfig)
  unfolding require_symmetric
  get_key_rotation_status k = do
    meta ← read_key_meta E k
    fail_if (is_pending meta.key_state) invalid_key_state
    require_symmetric meta
    r ← attempt (read_json E (file_at rotation_json k))
    cfg ← lift (or_missing no_rotation r)
    pure (meta, cfg)

  unfoldable pub read_rotation_history : Bytes → Act (List RotationRecord)
  read_rotation_history k = do
    r ← attempt (read_json E (file_at rotation_history_json k))
    lift (or_missing [] r)

  -- The second half of RotateKeyOnDemand: the material that the key has is kept beside the new one.
  unfoldable pub renew_material : Bytes → KeyMetadata → List RotationRecord → Act (Unit {0})
  renew_material k meta history = do
    current ← read_json E (file_at material_json k)
    attempt (change_dir E (make_materials_dir k)) >>= λ made. lift (may_exist made)
    write_json E (write_old_material k current.key_material_id) current
    key ← rand_read E 32
    id ← rand_read E 32
    write_json E (write_at material_json k)
        (record { key_bytes = key; private_key_der = []; key_material_id = hex id })
    now ← now_unix E
    write_json E (write_at rotation_history_json k) (
        history
        ++ (record { rotated_key = meta.arn; rotation_date = now; rotation_type = on_demand } ∷ []))

  unfoldable pub rotate_key_on_demand : Bytes → Act KeyMetadata
  unfolding require_enabled read_rotation_history renew_material
  rotate_key_on_demand k = do
    meta ← read_key_meta E k
    require_enabled meta
    history ← read_rotation_history k
    fail_if (leb max_on_demand_rotations (count_on_demand history)) on_demand_rotation_limit
    renew_material k meta history
    pure meta

  unfoldable pub list_key_rotations : Bytes → ℕ → Bytes → Act (List RotationRecord × Bytes)
  unfolding require_symmetric read_rotation_history rotation_page
  list_key_rotations k limit marker = do
    meta ← read_key_meta E k
    fail_if (is_pending meta.key_state) invalid_key_state
    require_symmetric meta
    history ← read_rotation_history k
    lift (rotation_page history limit marker)

  -- the loop of GetPreviousKeyMaterials: a file that cannot be read is skipped
  unfoldable pub read_materials : Bytes → List Bytes → Act (List KeyMaterial)
  read_materials k [] = pure []
  read_materials k (n ∷ names) = do
    r ← attempt (read_json E (old_material_at k n))
    rest ← read_materials k names
    pure (elim r [ done mat ↦ mat ∷ rest | failed e ↦ rest ])

  unfoldable pub get_previous_key_materials : Bytes → Act (List KeyMaterial)
  unfolding read_materials
  get_previous_key_materials k = do
    key_exists E k
    r ← attempt (list_dir E (old_material_names k))
    names ← lift (or_missing [] r)
    read_materials k names
