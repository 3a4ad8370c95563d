-- ===== src/Kms/Valid/Changes.antt =====
-- The changes that the storage of internal/kms/storage.go makes to its disk, one file or directory
-- at a time, with the validity of the disk and the metadata of keys.
pub mod KeyDirs
use kumolo.Prelude.{
  ◌≡◌, ◌∙◌, ap, sym, subst, refl, Bool, true, false, Option, none, some, inl, inr, if◌then◌else◌,
  Bool-cases,
}
use kumolo.Prelude.Bytes.{Bytes, bytes_eq, bytes_eq→≡}
use kumolo.Prelude.Dict.{
  find, insert, remove, find-remove_other, find-insert_same, find-insert_other, Each-insert,
  Each-remove,
}
use kumolo.Kms.Types.{KeyMetadata, AliasEntry}
use kumolo.Kms.Disk.{
  File, absent, holds, KeyDir, Disk, Place, empty_dir, file_at, put_dir, put_alias, meta_json,
}
use kumolo.Kms.Io.{
  Outcome, done, failed, not_exist, already_exists, io_error, write_at, clear_at, write_alias,
  clear_alias, is_bare, make_key_dir, remove_key_dir,
}
use kumolo.Kms.Valid.{Readable, DirValid, AliasValid, IsValid}

-- The change from `d` to `d'` leaves a valid disk, and the metadata of every key; or of every key
-- but `k`.
pub record IsCalm (d d' : Disk) : Type 0 where
  pub calm_valid : IsValid d'
  pub same_meta : (j : Bytes) → file_at meta_json j d' ≡ file_at meta_json j d

pub record IsCalmBut (k : Bytes) (d d' : Disk) : Type 0 where
  pub but_valid : IsValid d'
  pub other_meta :
      (j : Bytes) → bytes_eq k j ≡ false → file_at meta_json j d' ≡ file_at meta_json j d

pub IsCalm-same : (d : Disk) → IsValid d → IsCalm d d
IsCalm-same d v = record { calm_valid = v; same_meta = λ j. refl }

pub put_dir-IsValid :
    (k : Bytes) (dir : KeyDir) (d : Disk) → IsValid d → DirValid k dir → IsValid (put_dir k dir d)
put_dir-IsValid k dir d v h = record {
  keys_valid = Each-insert DirValid k dir d.keys v.keys_valid h;
  aliases_valid = v.aliases_valid;
}

abbrev pub meta_in : Option KeyDir → File KeyMetadata
meta_in o = elim o [ none ↦ absent | some dir ↦ dir.meta ]

pub put_dir-IsCalm :
    (k : Bytes) (dir : KeyDir) (d : Disk)
    → meta_in (find k d.keys) ≡ dir.meta
    → IsValid d
    → DirValid k dir
    → IsCalm d (put_dir k dir d)
put_dir-IsCalm k dir d s v h = record {
  calm_valid = put_dir-IsValid k dir d v h;
  same_meta = by_key;
}
  where
    by_key : (j : Bytes) → meta_in (find j (insert k dir d.keys)) ≡ meta_in (find j d.keys)
    by_key j = elim (Bool-cases (bytes_eq k j)) [
      | inl e ↦
          subst (λ i. meta_in (find i (insert k dir d.keys)) ≡ meta_in (find i d.keys))
            (bytes_eq→≡ k j e) (ap meta_in (find-insert_same k dir d.keys) ∙ sym s)
      | inr e ↦ ap meta_in (find-insert_other k j dir d.keys e)
    ]

put_dir-IsCalmBut :
    (k : Bytes) (dir : KeyDir) (d : Disk)
    → IsValid d
    → DirValid k dir
    → IsCalmBut k d (put_dir k dir d)
put_dir-IsCalmBut k dir d v h = record {
  but_valid = put_dir-IsValid k dir d v h;
  other_meta = λ j e. ap meta_in (find-insert_other k j dir d.keys e);
}

-- A file of a key's directory is written.
pub write_at-IsCalm :
    {A : Type 0} (p : Place A) (k : Bytes) (f : File A) (d d' : Disk)
    → ((dir : KeyDir) → DirValid k dir → DirValid k (p.write f dir))
    → ((dir : KeyDir) → dir.meta ≡ (p.write f dir).meta)
    → IsValid d
    → write_at p k f d ≡ some d'
    → IsCalm d d'
write_at-IsCalm {A = A} p k f d d' h s v e = by_dir (find k d.keys) refl e
  where
    by_dir :
        (o : Option KeyDir)
        → find k d.keys ≡ o
        → elim o as (λ _. Option Disk) [
          | none ↦ none
          | some dir ↦ some (put_dir k (p.write f dir) d)
        ]
          ≡ some d'
        → IsCalm d d'
    by_dir none q e' = cc
    by_dir (some dir) q e' =
        let same : d' ≡ put_dir k (p.write f dir) d = cc in
        rw same (
          put_dir-IsCalm k (p.write f dir) d (ap meta_in q ∙ s dir) v
            (h dir (v.keys_valid k dir q)))

pub write_at-IsCalmBut :
    {A : Type 0} (p : Place A) (k : Bytes) (f : File A) (d d' : Disk)
    → ((dir : KeyDir) → DirValid k dir → DirValid k (p.write f dir))
    → IsValid d
    → write_at p k f d ≡ some d'
    → IsCalmBut k d d'
write_at-IsCalmBut {A = A} p k f d d' h v e = by_dir (find k d.keys) refl e
  where
    by_dir :
        (o : Option KeyDir)
        → find k d.keys ≡ o
        → elim o as (λ _. Option Disk) [
          | none ↦ none
          | some dir ↦ some (put_dir k (p.write f dir) d)
        ]
          ≡ some d'
        → IsCalmBut k d d'
    by_dir none q e' = cc
    by_dir (some dir) q e' =
        let same : d' ≡ put_dir k (p.write f dir) d = cc in
        rw same (put_dir-IsCalmBut k (p.write f dir) d v (h dir (v.keys_valid k dir q)))

pub clear_at-IsCalmBut :
    {A : Type 0} (p : Place A) (k : Bytes) (d : Disk)
    → ((dir : KeyDir) → DirValid k dir → DirValid k (p.write absent dir))
    → IsValid d
    → IsCalmBut k d (clear_at p k d)
clear_at-IsCalmBut {A = A} p k d h v = by_disk (write_at p k absent d) refl
  where
    by_disk :
        (o : Option Disk)
        → write_at p k absent d ≡ o
        → IsCalmBut k d (elim o as (λ _. Disk) [ none ↦ d | some d' ↦ d' ])
    by_disk none e = record { but_valid = v; other_meta = λ j _. refl }
    by_disk (some d') e = write_at-IsCalmBut p k absent d d' h v e

-- What a key's file holds, where the validity of its directory speaks of it.
pub file_at-Readable :
    {A : Type 0} (p : Place A) (Q : A → Type 0) (k : Bytes) (d : Disk)
    → ((dir : KeyDir) → DirValid k dir → Readable Q (p.read dir))
    → IsValid d
    → (a : A) → file_at p k d ≡ holds a
    → Q a
file_at-Readable {A = A} p Q k d h v a e = by_dir (find k d.keys) refl e
  where
    by_dir :
        (o : Option KeyDir)
        → find k d.keys ≡ o
        → elim o as (λ _. File A) [ none ↦ absent | some dir ↦ p.read dir ] ≡ holds a
        → Q a
    by_dir none q e' = cc
    by_dir (some dir) q e' = rw e' at (h dir (v.keys_valid k dir q))

-- An alias is written, or removed.
pub write_alias-IsCalm :
    (a : Bytes) (f : File AliasEntry) (d d' : Disk)
    → Readable (AliasValid a) f
    → IsValid d
    → write_alias a f d ≡ some d'
    → IsCalm d d'
write_alias-IsCalm a f d d' h v e =
    let same : d' ≡ put_alias a f d = cc in
    rw same (record {
      calm_valid = record {
        keys_valid = v.keys_valid;
        aliases_valid =
            Each-insert (λ b g. Readable (AliasValid b) g) a f d.aliases v.aliases_valid h;
      };
      same_meta = λ j. refl;
    })

pub clear_alias-IsCalm : (a : Bytes) (d : Disk) → IsValid d → IsCalm d (clear_alias a d)
clear_alias-IsCalm a d v = record {
  calm_valid = record {
    keys_valid = v.keys_valid;
    aliases_valid = Each-remove (λ b g. Readable (AliasValid b) g) a d.aliases v.aliases_valid;
  };
  same_meta = λ j. refl;
}
