-- ===== src/Examples/Pages.antt =====
-- Pages of grants and of rotations, and a call that reads, of internal/kms/storage.go.
use kumolo.Prelude.Decimal.{digits_from}
use kumolo.Prelude.{◌≡◌, refl, none, List, [], ◌∷◌}
use kumolo.Prelude.Bytes.{Bytes, codes, bytes_eq}
use kumolo.Kms.Types.{Grant, RotationRecord, on_demand, automatic, fixed_account, key_arn}
use kumolo.Kms.Grants.{apply_grant_pagination, behind_marker}
use kumolo.Kms.Grants.Pages.{walk, walk-length}
use kumolo.Kms.Rotation.{rotation_page}
use kumolo.Kms.Rotation.Pages.{gather, gather-length}
use kumolo.Kms.Calls.Queries.{lists_rotations, run_query, run_query-disk}
use kumolo.Kms.Calls.{opened}
use kumolo.Kms.Io.{Env, refused, done}

abbrev sample_grant : Bytes → Grant
sample_grant id = record {
  grant_id = id;
  grant_token = codes "t";
  granted_key = key_arn (codes "k1");
  grantee_principal = codes "arn:aws:iam::000000000000:user/a";
  retiring_principal = [];
  operations = codes "Decrypt" ∷ [];
  constraints = none;
  grant_name = [];
  issuing_account = fixed_account;
  granted_at = 7;
}

abbrev three_grants : List Grant
three_grants = sample_grant (codes "a") ∷ sample_grant (codes "b") ∷ sample_grant (codes "c") ∷ []

first_page :
    apply_grant_pagination three_grants 2 []
    ≡ (sample_grant (codes "a") ∷ sample_grant (codes "b") ∷ [], codes "b")
unfolding apply_grant_pagination
first_page = refl

walk-length_example : walk 3 three_grants 2 [] ≡ three_grants
unfolding behind_marker bytes_eq
walk-length_example = walk-length three_grants 1 ((refl, refl), ((refl, refl), ((refl, refl), tt)))

abbrev two_records : List RotationRecord
two_records =
    record { rotated_key = key_arn (codes "k1"); rotation_date = 5; rotation_type = on_demand }
    ∷ record { rotated_key = key_arn (codes "k1"); rotation_date = 9; rotation_type = automatic }
    ∷ []

second_page :
    rotation_page two_records 1 (codes "0")
    ≡ done (
      record { rotated_key = key_arn (codes "k1"); rotation_date = 9; rotation_type = automatic }
          ∷ [],
      [],
    )
unfolding rotation_page digits_from
second_page = refl

gather-length_example : gather 2 two_records 1 [] ≡ two_records
gather-length_example = gather-length two_records 0

-- The first call of the operating system fails.
abbrev failing_env : Env
failing_env = record {
  fault = λ t. refused;
  random = λ t n. [];
  now = λ t. t;
  key_pair = λ t spec. none;
}

run_query-disk_example :
    (run_query failing_env
      (lists_rotations (codes "k1") 10 [])
      (record { disk = opened; tick = 0 })).1.disk
    ≡ opened
run_query-disk_example =
    run_query-disk failing_env (lists_rotations (codes "k1") 10 [])
      (record { disk = opened; tick = 0 })
