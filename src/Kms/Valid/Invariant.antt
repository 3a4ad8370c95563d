-- ===== src/Kms/Valid/Invariant.antt =====
-- What the calls of internal/kms/storage.go need of a property of the disk to keep it: each call is
-- examined once, for every such property.
use kumolo.Prelude.{◌≡◌, none}
use kumolo.Prelude.Bytes.{Bytes}
use kumolo.Prelude.Dict.{find}
use kumolo.Kms.Types.{KeyMetadata}
use kumolo.Kms.Disk.{holds, Disk, file_at, meta_json}
use kumolo.Kms.Valid.{IsValid}
use kumolo.Kms.Valid.Changes.{IsCalm, IsCalmBut}

-- `Free k`: the metadata of the key `k` may change. `Seen k m`: what is known of metadata `m` that
-- is read for `k`. A key that has no directory is free.
pub record Invariant : Type 1 where
  pub Holds : Disk → Type 0
  pub Free : Bytes → Type 0
  pub Seen : Bytes → KeyMetadata → Type 0
  pub valid : (d : Disk) → Holds d → IsValid d
  pub calm : (d d' : Disk) → Holds d → IsCalm d d' → Holds d'
  pub calm_but : (k : Bytes) (d d' : Disk) → Free k → Holds d → IsCalmBut k d d' → Holds d'
  pub fresh : (k : Bytes) (d : Disk) → Holds d → find k d.keys ≡ none → Free k
  pub seen :
      (k : Bytes) (m : KeyMetadata) (d : Disk)
      → Holds d
      → file_at meta_json k d ≡ holds m
      → Seen k m

-- Validity itself: every key is free.
abbrev pub validity : Invariant
validity = record {
  Holds = IsValid;
  Free = λ k. Unit;
  Seen = λ k m. Unit;
  valid = λ d v. v;
  calm = λ d d' v c. c.calm_valid;
  calm_but = λ k d d' f v c. c.but_valid;
  fresh = λ k d v e. tt;
  seen = λ k m d v e. tt;
}
