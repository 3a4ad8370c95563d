-- ===== src/Kms/Calls/Queries.antt =====
-- The calls of internal/kms/storage.go that only read.
use kumolo.Prelude.{ℕ, ◌≡◌, refl}
use kumolo.Prelude.Bytes.{Bytes}
use kumolo.Kms.Disk.{Disk}
use kumolo.Kms.Io.{Env, World, Act}
use kumolo.Kms.Io.Triple.{Keeps}
use kumolo.Kms.Keys.{get_key_metadata, get_key_policy, get_key_material}
use kumolo.Kms.Aliases.{list_aliases, resolve_alias}
use kumolo.Kms.Rotation.{get_key_rotation_status, list_key_rotations, get_previous_key_materials}
use kumolo.Kms.Tags.{get_tags}
use kumolo.Kms.Grants.{list_grants, list_key_ids, list_retirable_grants}
use kumolo.Kms.Calls.{quietly}
use kumolo.Kms.Reading.{
  Keeps-done, Keeps-get_key_material, Keeps-get_key_policy, Keeps-get_key_rotation_status,
  Keeps-get_previous_key_materials, Keeps-get_tags, Keeps-list_aliases, Keeps-list_grants,
  Keeps-list_key_ids, Keeps-list_key_rotations, Keeps-list_retirable_grants, Keeps-meta, Keeps-next,
  Keeps-resolve_alias,
}

pub data Query : Type 0 where
  gets_metadata gets_policy gets_material gets_rotation gets_old_materials gets_tags : Bytes → Query
  lists_keys : Query
  resolves_alias lists_aliases : Bytes → Query
  lists_rotations : Bytes → ℕ → Bytes → Query
  lists_grants : Bytes → Bytes → Bytes → ℕ → Bytes → Query
  lists_retirable : Bytes → ℕ → Bytes → Query

pub run_query : Env → Query → Act (Unit {0})
unfolding quietly
run_query E (gets_metadata k) = quietly (get_key_metadata E k)
run_query E (gets_policy k) = quietly (get_key_policy E k)
run_query E (gets_material k) = quietly (get_key_material E k)
run_query E (gets_rotation k) = quietly (get_key_rotation_status E k)
run_query E (gets_old_materials k) = quietly (get_previous_key_materials E k)
run_query E (gets_tags k) = quietly (get_tags E k)
run_query E lists_keys = quietly (list_key_ids E)
run_query E (resolves_alias a) = quietly (resolve_alias E a)
run_query E (lists_aliases target) = quietly (list_aliases E target)
run_query E (lists_rotations k limit marker) = quietly (list_key_rotations E k limit marker)
run_query E (lists_grants k id grantee limit marker) =
    quietly (list_grants E k id grantee limit marker)
run_query E (lists_retirable principal limit marker) =
    quietly (list_retirable_grants E principal limit marker)

module _ (E : Env) (I : Disk → Type 0) where
  Keeps-quiet : {A : Type 0} (m : Act A) → Keeps I m → Keeps I (quietly m)
  unfolding quietly
  Keeps-quiet m h = Keeps-next E I m _ h λ _. Keeps-done E I tt

  Keeps-run_query : (q : Query) → Keeps I (run_query E q)
  unfolding run_query get_key_metadata
  Keeps-run_query (gets_metadata k) = Keeps-quiet _ (Keeps-meta E I k)
  Keeps-run_query (gets_policy k) = Keeps-quiet _ (Keeps-get_key_policy E I k)
  Keeps-run_query (gets_material k) = Keeps-quiet _ (Keeps-get_key_material E I k)
  Keeps-run_query (gets_rotation k) = Keeps-quiet _ (Keeps-get_key_rotation_status E I k)
  Keeps-run_query (gets_old_materials k) = Keeps-quiet _ (Keeps-get_previous_key_materials E I k)
  Keeps-run_query (gets_tags k) = Keeps-quiet _ (Keeps-get_tags E I k)
  Keeps-run_query lists_keys = Keeps-quiet _ (Keeps-list_key_ids E I)
  Keeps-run_query (resolves_alias a) = Keeps-quiet _ (Keeps-resolve_alias E I a)
  Keeps-run_query (lists_aliases target) = Keeps-quiet _ (Keeps-list_aliases E I target)
  Keeps-run_query (lists_rotations k limit marker) =
      Keeps-quiet _ (Keeps-list_key_rotations E I k limit marker)
  Keeps-run_query (lists_grants k id grantee limit marker) =
      Keeps-quiet _ (Keeps-list_grants E I k id grantee limit marker)
  Keeps-run_query (lists_retirable principal limit marker) =
      Keeps-quiet _ (Keeps-list_retirable_grants E I principal limit marker)

-- The calls that read leave the disk as it is, whether they succeed or fail: whatever a reading
-- call tells, the calls that write are the only ones that change what the next call finds.
pub run_query-disk : (E : Env) (q : Query) (w : World) → (run_query E q w).1.disk ≡ w.disk
run_query-disk E q w = (Keeps-run_query E (λ d. d ≡ w.disk) q w refl).0
