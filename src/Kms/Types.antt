-- ===== src/Kms/Types.antt =====
-- The data of internal/kms/storage_types.go: keys, aliases, grants, and the references to them.
use kumolo.Prelude.{
  ℕ, Bool, true, false, ◌&&◌, ◌||◌, Option, none, some, List, [], ◌∷◌, ◌++◌, if◌then◌else◌,
}
use kumolo.Prelude.Bytes.{Bytes, codes, has_prefix, contains}
use kumolo.Prelude.Dict.{Dict}

-- KeyMetadata.KeyState, one of the keyState* constants.
pub data KeyState : Type 0 where
  enabled disabled pending_deletion : KeyState

abbrev pub is_pending : KeyState → Bool
is_pending pending_deletion = true
is_pending _ = false

abbrev pub is_enabled : KeyState → Bool
is_enabled enabled = true
is_enabled _ = false

abbrev pub is_disabled : KeyState → Bool
is_disabled disabled = true
is_disabled _ = false

-- KeyMetadata. Times are whole Unix seconds, since they come from time.Now().Unix().
pub record KeyMetadata : Type 0 where
  pub key_id : Bytes
  pub arn : Bytes
  pub aws_account_id : Bytes
  pub description : Bytes
  pub key_spec : Bytes
  pub customer_master_key_spec : Bytes
  pub key_usage : Bytes
  pub key_state : KeyState
  pub is_usable : Bool
  pub key_manager : Bytes
  pub origin : Bytes
  pub multi_region : Bool
  pub creation_date : ℕ
  pub deletion_date : Option ℕ
  pub encryption_algorithms : List Bytes
  pub signing_algorithms : List Bytes
  pub key_agreement_algorithms : List Bytes
  pub mac_algorithms : List Bytes

pub record KeyRotationConfig : Type 0 where
  pub rotates : Bool
  pub rotation_period_in_days : ℕ
  pub next_rotation_date : ℕ

pub record AliasEntry : Type 0 where
  pub alias_name : Bytes
  pub alias_arn : Bytes
  pub target_key_id : Bytes
  pub created : ℕ
  pub last_updated_date : ℕ

-- GrantConstraints, whose two maps the storage passes on.
pub record GrantConstraints : Type 0 where
  pub encryption_context_equals : Dict Bytes
  pub encryption_context_subset : Dict Bytes

pub record CreateGrantInput : Type 0 where
  pub for_grantee : Bytes
  pub for_operations : List Bytes
  pub for_retiring : Bytes
  pub under_constraints : Option GrantConstraints
  pub named : Bytes

pub record Grant : Type 0 where
  pub grant_id : Bytes
  pub grant_token : Bytes
  pub granted_key : Bytes
  pub grantee_principal : Bytes
  pub retiring_principal : Bytes
  pub operations : List Bytes
  pub constraints : Option GrantConstraints
  pub grant_name : Bytes
  pub issuing_account : Bytes
  pub granted_at : ℕ

-- RotationRecord, whose type is one of two texts.
pub data RotationType : Type 0 where
  automatic on_demand : RotationType

pub record RotationRecord : Type 0 where
  pub rotated_key : Bytes
  pub rotation_date : ℕ
  pub rotation_type : RotationType

pub record KeyMaterial : Type 0 where
  pub key_bytes : Bytes
  pub private_key_der : Bytes
  pub key_material_id : Bytes

abbrev pub fixed_account : Bytes
fixed_account = codes "000000000000"

abbrev pub key_arn : Bytes → Bytes
key_arn k = codes "arn:aws:kms:us-east-1:000000000000:key/" ++ k

abbrev pub alias_arn_of : Bytes → Bytes
alias_arn_of a = codes "arn:aws:kms:us-east-1:000000000000:" ++ a

-- strings.SplitN(s, sep, 2), where `sep` occurs: what is before it and what is behind it.
abbrev drop_bytes : Bytes → Bytes → Bytes
drop_bytes [] s = s
drop_bytes (c ∷ sep) [] = []
drop_bytes (c ∷ sep) (d ∷ s) = drop_bytes sep s

unfoldable pub cut_behind : Bytes → Bytes → Option Bytes
cut_behind sep [] = none
cut_behind sep (c ∷ s) =
    let rest = cut_behind sep s in
    if has_prefix (c ∷ s) sep then some (drop_bytes sep (c ∷ s)) else rest

-- `len(parts) == 2 && parts[1] != ""`
abbrev non_empty_part : Option Bytes → Option Bytes
non_empty_part none = none
non_empty_part (some []) = none
non_empty_part (some (c ∷ s)) = some (c ∷ s)

unfoldable pub normalize_alias_ref : Bytes → Option Bytes
normalize_alias_ref ref =
    if has_prefix ref (codes "alias/")
    then some ref
    else if has_prefix ref (codes "arn:")
    then elim (non_empty_part (cut_behind (codes ":alias/") ref)) [
      | none ↦ none
      | some name ↦ some (codes "alias/" ++ name)
    ]
    else none

unfoldable pub resolve_key_id : Bytes → Option Bytes
resolve_key_id key_id =
    if has_prefix key_id (codes "arn:")
    then non_empty_part (cut_behind (codes ":key/") key_id)
    else if has_prefix key_id (codes "alias/")
    then none
    else some key_id

unfoldable pub is_alias_ref : Bytes → Bool
is_alias_ref key_id =
    has_prefix key_id (codes "alias/")
    || (has_prefix key_id (codes "arn:") && contains key_id (codes ":alias/"))
