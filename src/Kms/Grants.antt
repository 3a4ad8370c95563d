-- ===== src/Kms/Grants.antt =====
-- The grants of internal/kms/storage.go.
pub mod Pages
use kumolo.Prelude.{
  ℕ, zero, suc, Bool, true, false, not, ◌&&◌, Option, none, some, List, [], ◌∷◌, ◌++◌, length, take,
  ltb, leb, filter, if◌then◌else◌,
}
use kumolo.Prelude.Bytes.{Bytes, bytes_eq}
use kumolo.Prelude.Dict.{Dict, find, insert, remove}
use kumolo.Prelude.Sort.{less_than, sort_by}
use kumolo.Kms.Types.{KeyMetadata, Grant, CreateGrantInput, is_pending, is_disabled, fixed_account}
use kumolo.Kms.Disk.{File, absent, Disk, entry_of, file_at, put_dir, meta_json, names_of}
use kumolo.Kms.Io.{
  key_disabled, invalid_key_state, grant_not_found, grant_limit_exceeded, not_exist, already_exists,
  Env, Outcome, done, failed, Act, pure, fail, ◌>>=◌, ◌>>◌, attempt, fail_if, is_not_exist,
  read_json, stat, write_json, remove_file, change_dir, list_dir, now_unix,
}
use kumolo.Kms.Keys.{read_key_meta, new_key_id, missing_is}
use kumolo.Kms.Aliases.{is_blank}
use kumolo.Kms.Rotation.{or_missing, lift, may_exist}

-- keys/{id}/grants
abbrev pub make_grants_dir : Bytes → Disk → Outcome Disk
make_grants_dir k d = elim (find k d.keys) [
  | none ↦ failed not_exist
  | some dir ↦ elim dir.grants [
    | none ↦ done (put_dir k (record dir { grants = some [] }) d)
    | some m ↦ failed already_exists
  ]
]

abbrev pub grant_names : Bytes → Disk → Outcome (List Bytes)
grant_names k d = elim (find k d.keys) [
  | none ↦ failed not_exist
  | some dir ↦ elim dir.grants [ none ↦ failed not_exist | some m ↦ done (names_of m) ]
]

abbrev pub grant_at : Bytes → Bytes → Disk → File Grant
grant_at k id d = elim (find k d.keys) [ none ↦ absent | some dir ↦ entry_of id dir.grants ]

-- The change of the grants of a key that has a directory for them.
abbrev pub map_grants : (Dict (File Grant) → Dict (File Grant)) → Bytes → Disk → Option Disk
map_grants f k d = elim (find k d.keys) [
  | none ↦ none
  | some dir ↦ elim dir.grants [
    | none ↦ none
    | some m ↦ some (put_dir k (record dir { grants = some (f m) }) d)
  ]
]

abbrev pub write_grant : Bytes → Bytes → File Grant → Disk → Option Disk
write_grant k id f = map_grants (insert id f) k

abbrev pub clear_grant : Bytes → Bytes → Disk → Disk
clear_grant k id d = elim (map_grants (remove id) k d) [ none ↦ d | some d' ↦ d' ]

abbrev pub max_grants_per_key : ℕ
max_grants_per_key = 50000

-- `e.Name()` is longer than ".json": the grant's ID is not empty.
abbrev pub has_id : Bytes → Bool
has_id id = not (is_blank id)

module _ (E : Env) where
  abbrev new_grant : KeyMetadata → CreateGrantInput → Bytes → Bytes → ℕ → Grant
  new_grant meta input id token now = record {
    grant_id = id;
    grant_token = token;
    granted_key = meta.arn;
    grantee_principal = input.for_grantee;
    retiring_principal = input.for_retiring;
    operations = input.for_operations;
    constraints = input.under_constraints;
    grant_name = input.named;
    issuing_account = fixed_account;
    granted_at = now;
  }

  unfoldable pub create_grant : Bytes → CreateGrantInput → Act Grant
  create_grant k input = do
    meta ← read_key_meta E k
    fail_if (is_disabled meta.key_state) key_disabled
    fail_if (is_pending meta.key_state) invalid_key_state
    attempt (change_dir E (make_grants_dir k)) >>= λ made. lift (may_exist made)
    existing ← list_dir E (grant_names k)
    fail_if (leb max_grants_per_key (length (filter has_id existing))) grant_limit_exceeded
    id ← new_key_id E
    token ← new_key_id E
    now ← now_unix E
    write_json E (write_grant k id) (new_grant meta input id token now)
    pure (new_grant meta input id token now)

  -- the loop of listGrantsForKeyLocked: a file that cannot be read is skipped
  unfoldable pub read_grants : Bytes → List Bytes → Act (List Grant)
  read_grants k [] = pure []
  read_grants k (id ∷ ids) =
      if has_id id
      then (do
        r ← attempt (read_json E (grant_at k id))
        rest ← read_grants k ids
        pure (elim r [ done g ↦ g ∷ rest | failed e ↦ rest ]))
      else read_grants k ids

  unfoldable pub list_grants_for_key : Bytes → Act (List Grant)
  unfolding read_grants
  list_grants_for_key k = do
    r ← attempt (list_dir E (grant_names k))
    names ← lift (or_missing [] r)
    grants ← read_grants k names
    pure (sort_by (λ g. g.grant_id) grants)

-- `g.GrantId == marker`: what is behind the first such grant
unfoldable pub behind_marker : Bytes → List Grant → Option (List Grant)
behind_marker marker [] = none
behind_marker marker (g ∷ gs) =
    let rest = behind_marker marker gs in if bytes_eq g.grant_id marker then some gs else rest

-- sort.Search on grants in order: what is left from the first that does not come before the marker
pub from_marker : Bytes → List Grant → List Grant
from_marker marker [] = []
from_marker marker (g ∷ gs) =
    let rest = from_marker marker gs in if less_than g.grant_id marker then rest else g ∷ gs

pub start_at : Bytes → List Grant → List Grant
unfolding behind_marker from_marker
start_at [] gs = gs
start_at (c ∷ s) gs = elim (behind_marker (c ∷ s) gs) [
  | none ↦ from_marker (c ∷ s) gs
  | some rest ↦ rest
]

abbrev pub last_id : List Grant → Bytes
last_id [] = []
last_id (g ∷ []) = g.grant_id
last_id (g ∷ h ∷ gs) = last_id (h ∷ gs)

unfoldable pub apply_grant_pagination : List Grant → ℕ → Bytes → List Grant × Bytes
unfolding start_at
apply_grant_pagination grants limit marker =
    let rest = start_at marker grants in
    if ltb limit (length rest) then (take limit rest, last_id (take limit rest)) else (rest, [])

module _ (E : Env) where
  abbrev fits : Bytes → Bytes → Grant → Bool
  fits id grantee g =
      (if is_blank id then true else bytes_eq g.grant_id id)
      && (if is_blank grantee then true else bytes_eq g.grantee_principal grantee)

  unfoldable pub list_grants : Bytes → Bytes → Bytes → ℕ → Bytes → Act (List Grant × Bytes)
  unfolding apply_grant_pagination
  list_grants k id grantee limit marker = do
    meta ← read_key_meta E k
    fail_if (is_pending meta.key_state) invalid_key_state
    grants ← list_grants_for_key E k
    pure (apply_grant_pagination (filter (fits id grantee) grants) limit marker)

  abbrev pub stops_revoke : Outcome (Unit {0}) → Bool
  stops_revoke (done u) = false
  stops_revoke (failed e) = is_not_exist e

  unfoldable pub revoke_grant : Bytes → Bytes → Act (Unit {0})
  revoke_grant k id = do
    meta ← read_key_meta E k
    fail_if (is_pending meta.key_state) invalid_key_state
    there ← attempt (stat E (grant_at k id))
    fail_if (stops_revoke there) grant_not_found
    missing_is E grant_not_found (remove_file E (grant_at k id) (clear_grant k id))

  unfoldable pub retire_grant_by_id : Bytes → Bytes → Act (Unit {0})
  unfolding revoke_grant
  retire_grant_by_id k id = revoke_grant k id

  -- The keys whose directory has a meta.json.
  abbrev pub key_names : Disk → Outcome (List Bytes)
  key_names d = done (names_of d.keys)

  unfoldable pub has_meta : Outcome (Unit {0}) → Act Bool
  has_meta (done u) = pure true
  has_meta (failed e) = if is_not_exist e then pure false else fail e

  unfoldable pub key_loop : List Bytes → Act (List Bytes)
  unfolding has_meta
  key_loop [] = pure []
  key_loop (k ∷ ks) = do
    r ← attempt (stat E (file_at meta_json k))
    there ← has_meta r
    rest ← key_loop ks
    pure (if there then k ∷ rest else rest)

  unfoldable pub list_key_ids_locked : Act (List Bytes)
  unfolding key_loop
  list_key_ids_locked = do names ← list_dir E key_names; key_loop names

  unfoldable pub list_key_ids : Act (List Bytes)
  list_key_ids = do ids ← list_key_ids_locked; pure (sort_by (λ k. k) ids)

  -- the two loops of RetireGrantByToken
  abbrev pub with_token : Bytes → List Grant → Option Grant
  with_token token [] = none
  with_token token (g ∷ gs) = if bytes_eq g.grant_token token then some g else with_token token gs

  unfoldable pub retire_found : Bytes → Act (Unit {0}) → Option Grant → Act (Unit {0})
  retire_found k rest none = rest
  retire_found k rest (some g) = remove_file E (grant_at k g.grant_id) (clear_grant k g.grant_id)

  unfoldable pub retire_loop : Bytes → List Bytes → Act (Unit {0})
  unfolding retire_found
  retire_loop token [] = fail grant_not_found
  retire_loop token (k ∷ ks) = do
    grants ← list_grants_for_key E k
    retire_found k (retire_loop token ks) (with_token token grants)

  unfoldable pub retire_grant_by_token : Bytes → Act (Unit {0})
  unfolding retire_loop
  retire_grant_by_token token = do ids ← list_key_ids_locked; retire_loop token ids

  unfoldable pub retirable_loop : Bytes → List Bytes → Act (List Grant)
  retirable_loop principal [] = pure []
  retirable_loop principal (k ∷ ks) = do
    grants ← list_grants_for_key E k
    rest ← retirable_loop principal ks
    pure (filter (λ g. bytes_eq g.retiring_principal principal) grants ++ rest)

  unfoldable pub list_retirable_grants : Bytes → ℕ → Bytes → Act (List Grant × Bytes)
  unfolding retirable_loop apply_grant_pagination
  list_retirable_grants principal limit marker = do
    ids ← list_key_ids_locked
    grants ← retirable_loop principal ids
    pure (apply_grant_pagination (sort_by (λ g. g.grant_id) grants) limit marker)
