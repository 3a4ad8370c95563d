-- ===== src/Kms/Aliases.antt =====
-- The aliases of internal/kms/storage.go.
use kumolo.Prelude.{ℕ, suc, Bool, true, false, List, [], ◌∷◌, leb, filter, if◌then◌else◌}
use kumolo.Prelude.Bytes.{Bytes, bytes_eq}
use kumolo.Prelude.Sort.{sort_by}
use kumolo.Kms.Types.{AliasEntry, alias_arn_of, is_pending}
use kumolo.Kms.Disk.{Disk, alias_at, names_of}
use kumolo.Kms.Io.{
  alias_not_found, alias_already_exists, alias_limit_exceeded, key_pending_deletion, Env, Outcome,
  done, failed, Act, pure, ◌>>=◌, ◌>>◌, attempt, fail_if, is_not_exist, read_json, stat, write_json,
  remove_file, list_dir, now_unix, write_alias, clear_alias,
}
use kumolo.Kms.Keys.{key_exists, read_key_meta, missing_is}

abbrev pub alias_names : Disk → Outcome (List Bytes)
alias_names d = done (names_of d.aliases)

abbrev pub is_set {ℓ} : {A : Type ℓ} → Outcome A → Bool
is_set (done a) = true
is_set (failed e) = false

abbrev pub is_blank : Bytes → Bool
is_blank [] = true
is_blank _ = false

module _ (E : Env) where
  unfoldable pub read_alias : Bytes → Act AliasEntry
  read_alias a = read_json E (alias_at a)

  -- the loop of countAliasesForKeyLocked
  unfoldable pub count_loop : Bytes → List Bytes → Act ℕ
  unfolding read_alias
  count_loop target [] = pure 0
  count_loop target (a ∷ more) = do
    entry ← read_alias a
    n ← count_loop target more
    pure (if bytes_eq entry.target_key_id target then suc n else n)

  unfoldable pub count_aliases : Bytes → Act ℕ
  unfolding count_loop
  count_aliases target = do names ← list_dir E alias_names; count_loop target names

  -- aliasLimitPerKey
  abbrev pub max_aliases_per_key : ℕ
  max_aliases_per_key = 256

  abbrev pub new_entry : Bytes → Bytes → ℕ → AliasEntry
  new_entry a target now = record {
    alias_name = a;
    alias_arn = alias_arn_of a;
    target_key_id = target;
    created = now;
    last_updated_date = now;
  }

  unfoldable pub create_alias : Bytes → Bytes → Act (Unit {0})
  unfolding count_aliases
  create_alias a target = do
    key_exists E target
    meta ← read_key_meta E target
    fail_if (is_pending meta.key_state) key_pending_deletion
    count ← count_aliases target
    fail_if (leb max_aliases_per_key count) alias_limit_exceeded
    there ← attempt (stat E (alias_at a))
    fail_if (is_set there) alias_already_exists
    now ← now_unix E
    write_json E (write_alias a) (new_entry a target now)

  -- Only os.ErrNotExist ends the call after the first stat.
  abbrev pub stops_delete : Outcome (Unit {0}) → Bool
  stops_delete (done u) = false
  stops_delete (failed e) = is_not_exist e

  unfoldable pub delete_alias : Bytes → Act (Unit {0})
  delete_alias a = do
    there ← attempt (stat E (alias_at a))
    fail_if (stops_delete there) alias_not_found
    missing_is E alias_not_found (remove_file E (alias_at a) (clear_alias a))

  unfoldable pub update_alias : Bytes → Bytes → Act (Unit {0})
  unfolding read_alias
  update_alias a target = do
    existing ← missing_is E alias_not_found (read_alias a)
    key_exists E target
    meta ← read_key_meta E target
    fail_if (is_pending meta.key_state) key_pending_deletion
    now ← now_unix E
    write_json E (write_alias a)
        (record existing { target_key_id = target; last_updated_date = now })

  -- the loop of ListAliases: a file that cannot be read is skipped
  unfoldable pub read_entries : List Bytes → Act (List AliasEntry)
  unfolding read_alias
  read_entries [] = pure []
  read_entries (a ∷ more) = do
    r ← attempt (read_alias a)
    rest ← read_entries more
    pure (elim r [ done entry ↦ entry ∷ rest | failed e ↦ rest ])

  unfoldable pub list_aliases : Bytes → Act (List AliasEntry)
  unfolding read_entries
  list_aliases filter_key = do
    names ← list_dir E alias_names
    entries ← read_entries names
    pure (
        sort_by (λ x. x.alias_name)
          (filter (λ x. if is_blank filter_key then true else bytes_eq x.target_key_id filter_key)
            entries))

  unfoldable pub resolve_alias : Bytes → Act Bytes
  unfolding read_alias
  resolve_alias a = do entry ← missing_is E alias_not_found (read_alias a); pure entry.target_key_id
