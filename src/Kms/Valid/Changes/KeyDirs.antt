-- ===== src/Kms/Valid/Changes/KeyDirs.antt =====
-- Making and removing the directory of a key, and files in the directories within it, as
-- internal/kms/storage.go does.
use kumolo.Prelude.{◌≡◌, ◌∙◌, ap, refl, Bool, true, false, Option, none, some, if◌then◌else◌}
use kumolo.Prelude.Bytes.{Bytes}
use kumolo.Prelude.Dict.{find, remove, find-remove_other, Each-remove}
use kumolo.Kms.Disk.{KeyDir, Disk, empty_dir, put_dir}
use kumolo.Kms.Io.{
  Outcome, done, failed, not_exist, already_exists, io_error, is_bare, make_key_dir, remove_key_dir,
}
use kumolo.Kms.Valid.{DirValid, IsValid}
use kumolo.Kms.Valid.Changes.{IsCalm, IsCalmBut, meta_in, put_dir-IsCalm}

-- A key's directory is made, or removed.
pub make_key_dir-IsCalm :
    (k : Bytes) (d d' : Disk) → IsValid d → make_key_dir k d ≡ done d' → IsCalm d d'
make_key_dir-IsCalm k d d' v e = by_dir (find k d.keys) refl e
  where
    by_dir :
        (o : Option KeyDir)
        → find k d.keys ≡ o
        → elim o as (λ _. Outcome Disk) [
          | none ↦ done (put_dir k empty_dir d)
          | some dir ↦ failed already_exists
        ]
          ≡ done d'
        → IsCalm d d'
    by_dir none q e' =
        let same : d' ≡ put_dir k empty_dir d = cc in
        rw same (
          put_dir-IsCalm k empty_dir d (ap meta_in q) v
            (record { meta_valid = tt; few_tags = tt; few_rotations = tt }))
    by_dir (some dir) q e' = cc

-- It was not there before.
pub make_key_dir-find :
    (k : Bytes) (d d' : Disk) → make_key_dir k d ≡ done d' → find k d.keys ≡ none
make_key_dir-find k d d' e = by_dir (find k d.keys) refl e
  where
    by_dir :
        (o : Option KeyDir)
        → find k d.keys ≡ o
        → elim o as (λ _. Outcome Disk) [
          | none ↦ done (put_dir k empty_dir d)
          | some dir ↦ failed already_exists
        ]
          ≡ done d'
        → find k d.keys ≡ none
    by_dir none q e' = q
    by_dir (some dir) q e' = cc

pub remove_key_dir-IsCalmBut :
    (k : Bytes) (d d' : Disk) → IsValid d → remove_key_dir k d ≡ done d' → IsCalmBut k d d'
remove_key_dir-IsCalmBut k d d' v e = by_dir (find k d.keys) e
  where
    without : IsCalmBut k d (record d { keys = remove k d.keys })
    without = record {
      but_valid = record {
        keys_valid = Each-remove DirValid k d.keys v.keys_valid;
        aliases_valid = v.aliases_valid;
      };
      other_meta = λ j e. ap meta_in (find-remove_other k j d.keys e);
    }

    by_test :
        (b : Bool)
        → (if b then done (record d { keys = remove k d.keys }) else failed io_error) ≡ done d'
        → IsCalmBut k d d'
    by_test true e' = let same : d' ≡ record d { keys = remove k d.keys } = cc in rw same without
    by_test false e' = cc

    by_dir :
        (o : Option KeyDir)
        → elim o as (λ _. Outcome Disk) [
          | none ↦ failed not_exist
          | some dir ↦
              if is_bare dir then done (record d { keys = remove k d.keys }) else failed io_error
        ]
          ≡ done d'
        → IsCalmBut k d d'
    by_dir none e' = cc
    by_dir (some dir) e' = by_test (is_bare dir) e'

-- A directory within the directory of a key: it is made, or one of its files is written.
pub make_part-IsCalm :
    {A : Type 0} (part : KeyDir → Option A) (f : KeyDir → KeyDir) (k : Bytes) (d d' : Disk)
    → ((dir : KeyDir) → DirValid k dir → DirValid k (f dir))
    → ((dir : KeyDir) → dir.meta ≡ (f dir).meta)
    → IsValid d
    → elim (find k d.keys) as (λ _. Outcome Disk) [
      | none ↦ failed not_exist
      | some dir ↦ elim (part dir) as (λ _. Outcome Disk) [
        | none ↦ done (put_dir k (f dir) d)
        | some m ↦ failed already_exists
      ]
    ]
      ≡ done d'
    → IsCalm d d'
make_part-IsCalm {A = A} part f k d d' h s v e = by_dir (find k d.keys) refl e
  where
    by_part :
        (dir : KeyDir) (o : Option A)
        → find k d.keys ≡ some dir
        → elim o as (λ _. Outcome Disk) [
          | none ↦ done (put_dir k (f dir) d)
          | some m ↦ failed already_exists
        ]
          ≡ done d'
        → IsCalm d d'
    by_part dir none q e' =
        let same : d' ≡ put_dir k (f dir) d = cc in
        rw same (put_dir-IsCalm k (f dir) d (ap meta_in q ∙ s dir) v (h dir (v.keys_valid k dir q)))
    by_part dir (some m) q e' = cc

    by_dir :
        (o : Option KeyDir)
        → find k d.keys ≡ o
        → elim o as (λ _. Outcome Disk) [
          | none ↦ failed not_exist
          | some dir ↦ elim (part dir) as (λ _. Outcome Disk) [
            | none ↦ done (put_dir k (f dir) d)
            | some m ↦ failed already_exists
          ]
        ]
          ≡ done d'
        → IsCalm d d'
    by_dir none q e' = cc
    by_dir (some dir) q e' = by_part dir (part dir) q e'

pub write_part-IsCalm :
    {A : Type 0} (part : KeyDir → Option A) (f : KeyDir → A → KeyDir) (k : Bytes) (d d' : Disk)
    → ((dir : KeyDir) (m : A) → DirValid k dir → DirValid k (f dir m))
    → ((dir : KeyDir) (m : A) → dir.meta ≡ (f dir m).meta)
    → IsValid d
    → elim (find k d.keys) as (λ _. Option Disk) [
      | none ↦ none
      | some dir ↦ elim (part dir) as (λ _. Option Disk) [
        | none ↦ none
        | some m ↦ some (put_dir k (f dir m) d)
      ]
    ]
      ≡ some d'
    → IsCalm d d'
write_part-IsCalm {A = A} part f k d d' h s v e = by_dir (find k d.keys) refl e
  where
    by_part :
        (dir : KeyDir) (o : Option A)
        → find k d.keys ≡ some dir
        → elim o as (λ _. Option Disk) [ none ↦ none | some m ↦ some (put_dir k (f dir m) d) ]
          ≡ some d'
        → IsCalm d d'
    by_part dir none q e' = cc
    by_part dir (some m) q e' =
        let same : d' ≡ put_dir k (f dir m) d = cc in
        rw same
          (put_dir-IsCalm k (f dir m) d (ap meta_in q ∙ s dir m) v (h dir m (v.keys_valid k dir q)))

    by_dir :
        (o : Option KeyDir)
        → find k d.keys ≡ o
        → elim o as (λ _. Option Disk) [
          | none ↦ none
          | some dir ↦ elim (part dir) as (λ _. Option Disk) [
            | none ↦ none
            | some m ↦ some (put_dir k (f dir m) d)
          ]
        ]
          ≡ some d'
        → IsCalm d d'
    by_dir none q e' = cc
    by_dir (some dir) q e' = by_part dir (part dir) q e'
