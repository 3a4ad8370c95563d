-- ===== src/Kms/Valid/Aliases.antt =====
-- CreateAlias, DeleteAlias and UpdateAlias of internal/kms/storage.go, and the validity of the disk.
use kumolo.Prelude.{◌≡◌, refl, Option, none, some, List, [], ◌∷◌}
use kumolo.Prelude.Bytes.{Bytes}
use kumolo.Prelude.Dict.{find}
use kumolo.Kms.Types.{AliasEntry}
use kumolo.Kms.Disk.{File, absent, torn, holds, Disk, alias_at}
use kumolo.Kms.Io.{Env, write_json, write_alias, clear_alias}
use kumolo.Kms.Io.Triple.{
  Any, Yields, Keeps, Yields-bind, Yields-then, Yields-pure, Yields-guard, Yields-attempt,
  Yields-read_json, Keeps-stat, Keeps-write_json, Keeps-remove_file, Keeps-list_dir, Keeps-now_unix,
}
use kumolo.Kms.Aliases.{
  alias_names, read_alias, count_loop, count_aliases, create_alias, delete_alias, update_alias,
  resolve_alias,
}
use kumolo.Kms.Valid.{AliasValid, IsValid}
use kumolo.Kms.Valid.Invariant.{Invariant}
use kumolo.Kms.Valid.Files.{Known, Yields-read_key_meta, Keeps-key_exists, Yields-missing_is}
use kumolo.Kms.Valid.Changes.{write_alias-IsCalm, clear_alias-IsCalm}

alias_at-AliasValid :
    (a : Bytes) (d : Disk) → IsValid d → (e : AliasEntry) → alias_at a d ≡ holds e → AliasValid a e
alias_at-AliasValid a d v x e = by_file (find a d.aliases) refl e
  where
    by_file :
        (o : Option (File AliasEntry))
        → find a d.aliases ≡ o
        → elim o as (λ _. File AliasEntry) [ none ↦ absent | some f ↦ f ] ≡ holds x
        → AliasValid a x
    by_file none q e' = cc
    by_file (some f) q e' = rw e' at (v.aliases_valid a f q)

module _ (E : Env) (I : Invariant) where
  Yields-read_alias : (a : Bytes) → Yields I.Holds (AliasValid a) (read_alias E a)
  unfolding read_alias
  Yields-read_alias a =
      Yields-read_json I.Holds E (AliasValid a) (alias_at a)
        λ d v. alias_at-AliasValid a d (I.valid d v)

  Keeps-count_loop :
      (target : Bytes) (names : List Bytes) → Keeps I.Holds (count_loop E target names)
  unfolding count_loop
  Keeps-count_loop target [] = Yields-pure I.Holds Any _ tt
  Keeps-count_loop target (a ∷ names) =
      Yields-bind I.Holds (AliasValid a) Any _ _ (Yields-read_alias a) λ entry _.
        Yields-bind I.Holds Any Any _ _ (Keeps-count_loop target names)
          λ n _. Yields-pure I.Holds Any _ tt

  Keeps-count_aliases : (target : Bytes) → Keeps I.Holds (count_aliases E target)
  unfolding count_aliases
  Keeps-count_aliases target =
      Yields-bind I.Holds Any Any _ _ (Keeps-list_dir I.Holds E alias_names)
        λ names _. Keeps-count_loop target names

  Keeps-write_alias :
      (a : Bytes) (x : AliasEntry) → AliasValid a x → Keeps I.Holds (write_json E (write_alias a) x)
  Keeps-write_alias a x h =
      Keeps-write_json I.Holds E (write_alias a) x
        (λ d d' v e. I.calm d d' v (write_alias-IsCalm a (holds x) d d' h (I.valid d v) e))
        (λ d d' v e. I.calm d d' v (write_alias-IsCalm a torn d d' tt (I.valid d v) e))

  pub Keeps-create_alias : (a target : Bytes) → Keeps I.Holds (create_alias E a target)
  unfolding create_alias
  Keeps-create_alias a target = Yields-then I.Holds Any Any _ _ (Keeps-key_exists E I target) (
      Yields-bind I.Holds (Known E I target) Any _ _ (Yields-read_key_meta E I target) λ meta _.
        Yields-guard I.Holds Any _ _ _ λ _.
          Yields-bind I.Holds Any Any _ _ (Keeps-count_aliases target) λ n _.
            Yields-guard I.Holds Any _ _ _ λ _.
              Yields-bind I.Holds _ Any _ _
                (Yields-attempt I.Holds Any _ (Keeps-stat I.Holds E (alias_at a)))
                λ there _. Yields-guard I.Holds Any _ _ _ λ _.
                  Yields-bind I.Holds Any Any _ _ (Keeps-now_unix I.Holds E) λ now _.
                    Keeps-write_alias a _ (record { own_name = refl; own_alias_arn = refl }))

  pub Keeps-delete_alias : (a : Bytes) → Keeps I.Holds (delete_alias E a)
  unfolding delete_alias
  Keeps-delete_alias a =
      Yields-bind I.Holds _ Any _ _
        (Yields-attempt I.Holds Any _ (Keeps-stat I.Holds E (alias_at a)))
        λ there _. Yields-guard I.Holds Any _ _ _ λ _. Yields-missing_is E I Any _ _ (
          Keeps-remove_file I.Holds E (alias_at a) (clear_alias a)
            λ d v. I.calm d _ v (clear_alias-IsCalm a d (I.valid d v)))

  pub Keeps-update_alias : (a target : Bytes) → Keeps I.Holds (update_alias E a target)
  unfolding update_alias
  Keeps-update_alias a target =
      Yields-bind I.Holds (AliasValid a) Any _ _
        (Yields-missing_is E I (AliasValid a) _ _ (Yields-read_alias a))
        λ x q. Yields-then I.Holds Any Any _ _ (Keeps-key_exists E I target) (
          Yields-bind I.Holds (Known E I target) Any _ _ (Yields-read_key_meta E I target) λ meta _.
            Yields-guard I.Holds Any _ _ _ λ _.
              Yields-bind I.Holds Any Any _ _ (Keeps-now_unix I.Holds E) λ now _.
                Keeps-write_alias a _
                  (record { own_name = q.own_name; own_alias_arn = q.own_alias_arn }))

  pub Keeps-resolve_alias : (a : Bytes) → Keeps I.Holds (resolve_alias E a)
  unfolding resolve_alias
  Keeps-resolve_alias a =
      Yields-bind I.Holds (AliasValid a) Any _ _
        (Yields-missing_is E I (AliasValid a) _ _ (Yields-read_alias a))
        λ x _. Yields-pure I.Holds Any _ tt
