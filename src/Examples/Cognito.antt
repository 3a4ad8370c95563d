-- ===== src/Examples/Cognito.antt =====
-- The password policy and the one-time codes of internal/cognito on samples.
use kumolo.Prelude.Decimal.{decimal}
use kumolo.Prelude.{◌≡◌, ◌↔◌, refl, true, false, length, none, some, [], ◌∷◌, leb, ◌&&◌, ◌==◌, ◌||◌}
use kumolo.Prelude.Bytes.{Bytes, codes}
use kumolo.Prelude.{ok}
use kumolo.Cognito.Totp.{Crypto, verify_totp, totp_code_at}
use kumolo.Cognito.Totp.Window.{IsInWindow, verify_totp_iff}
use kumolo.Cognito.Password.{
  negsuc, PasswordPolicyOverlay, Unicode, is_positive, default_password_policy,
  password_policy_from_pool, validate_password, no_symbol,
}
use kumolo.Cognito.Password.Policy.{
  Conforms, validate_password_iff, validate_password-password_policy_from_pool,
}

-- The classes of ASCII.
abbrev ascii : Unicode
ascii = record {
  is_upper = λ r. leb 65 r && leb r 90;
  is_lower = λ r. leb 97 r && leb r 122;
  is_number = λ r. leb 48 r && leb r 57;
  is_letter = λ r. (leb 65 r && leb r 90) || (leb 97 r && leb r 122);
  is_space = λ r. r == 32;
}

accepted : validate_password ascii default_password_policy (codes "Passw0rd!") ≡ none
unfolding validate_password
accepted = refl

without_symbol :
    validate_password ascii default_password_policy (codes "Passw0rds") ≡ some no_symbol
unfolding validate_password
without_symbol = refl

validate_password_iff_example :
    (validate_password ascii default_password_policy (codes "Passw0rd!") ≡ none)
    ↔ Conforms ascii default_password_policy (codes "Passw0rd!")
validate_password_iff_example =
    validate_password_iff ascii default_password_policy (codes "Passw0rd!")

abbrev negative_minimum : PasswordPolicyOverlay
negative_minimum = record {
  given_minimum_length = some (negsuc 4);
  given_require_uppercase = some false;
  given_require_lowercase = some false;
  given_require_numbers = some false;
  given_require_symbols = some false;
  given_temporary_password_validity_days = none;
}

validate_password-password_policy_from_pool_example :
    (is_positive (password_policy_from_pool (some negative_minimum)).minimum_length ≡ true)
    × ¬ (validate_password ascii (password_policy_from_pool (some negative_minimum)) [] ≡ none)
validate_password-password_policy_from_pool_example =
    validate_password-password_policy_from_pool ascii (some negative_minimum)

-- A MAC that is its message, filled up with fives.
abbrev fives : Bytes
fives = 5 ∷ 5 ∷ 5 ∷ 5 ∷ 5 ∷ 5 ∷ 5 ∷ 5 ∷ 5 ∷ 5 ∷ 5 ∷ 5 ∷ 5 ∷ 5 ∷ 5 ∷ 5 ∷ 5 ∷ 5 ∷ 5 ∷ []

abbrev sample_crypto : Crypto
sample_crypto = record { decode_base32 = λ s. some s; hmac_sha1 = λ k m. length m ∷ fives }

sample_code : totp_code_at sample_crypto (codes "KEY") 3 ≡ ok (codes "215045")
unfolding totp_code_at decimal
sample_code = refl

verify_totp_iff_example :
    (verify_totp sample_crypto (codes "KEY") (codes "215045") 120 ≡ ok true)
    ↔ IsInWindow sample_crypto (codes "KEY") (codes "215045") 4
verify_totp_iff_example =
    verify_totp_iff sample_crypto (codes "KEY") (codes "KEY") refl (λ k m. refl) (codes "215045")
      120
