-- ===== src/Kms/Calls/Metadata.antt =====
-- Which calls of internal/kms/storage.go change the metadata of a key.
use kumolo.Prelude.{true, false, ◌≡◌, ◌∙◌, sym, ap, Option, none, some, Bool-cases, inl, inr}
use kumolo.Prelude.Bytes.{Bytes, bytes_eq, bytes_eq→≡}
use kumolo.Prelude.Dict.{find}
use kumolo.Kms.Types.{KeyMetadata}
use kumolo.Kms.Disk.{File, absent, holds, KeyDir, Disk, file_at, meta_json}
use kumolo.Kms.Valid.{IsValid}
use kumolo.Kms.Valid.Invariant.{Invariant}

-- The disk is valid, and the metadata of the key `j` is `m`.
record HasMeta (j : Bytes) (m : KeyMetadata) (d : Disk) : Type 0 where
  meta_disk_valid : IsValid d
  meta_is : file_at meta_json j d ≡ holds m

other_key :
    (k j : Bytes) (d : Disk) (m : KeyMetadata)
    → find k d.keys ≡ none
    → file_at meta_json j d ≡ holds m
    → bytes_eq k j ≡ false
other_key k j d m e h = elim (Bool-cases (bytes_eq k j)) [
  | inl s ↦ let same : k ≡ j = bytes_eq→≡ k j s in by_dir (find j d.keys) h (rw same at e)
  | inr s ↦ s
]
  where
    by_dir :
        (o : Option KeyDir)
        → elim o as (λ _. File KeyMetadata) [ none ↦ absent | some dir ↦ dir.meta ] ≡ holds m
        → o ≡ none
        → bytes_eq k j ≡ false
    by_dir none e' n = cc
    by_dir (some dir) e' n = cc

same_file :
    (k j : Bytes) (d : Disk) (n m : KeyMetadata)
    → bytes_eq k j ≡ true
    → file_at meta_json k d ≡ holds n
    → file_at meta_json j d ≡ holds m
    → n ≡ m
same_file k j d n m s e h =
    let same : k ≡ j = bytes_eq→≡ k j s in
    let files : holds n ≡ holds m = sym e ∙ (ap (λ i. file_at meta_json i d) same ∙ h) in cc

-- Every key but `j` is free, and what is read for `j` is `m`.
abbrev fixed_meta : Bytes → KeyMetadata → Invariant
fixed_meta j m = record {
  Holds = HasMeta j m;
  Free = λ k. bytes_eq k j ≡ false;
  Seen = λ k n. bytes_eq k j ≡ true → n ≡ m;
  valid = λ d h. h.meta_disk_valid;
  calm = λ d d' h c. record { meta_disk_valid = c.calm_valid; meta_is = c.same_meta j ∙ h.meta_is };
  calm_but = λ k d d' f h c. record {
    meta_disk_valid = c.but_valid;
    meta_is = c.other_meta j f ∙ h.meta_is;
  };
  fresh = λ k d h e. other_key k j d m e h.meta_is;
  seen = λ k n d h e s. same_file k j d n m s e h.meta_is;
}
