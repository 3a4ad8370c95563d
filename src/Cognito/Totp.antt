-- ===== src/Cognito/Totp.antt =====
-- One-time codes, internal/cognito/totp.go.
pub mod Window
use kumolo.Prelude.{
  ℕ, zero, suc, ◌+◌, ◌-◌, ◌*◌, ◌/◌, ◌%◌, ◌^◌, Bool, true, false, not, Option, none, some, List, [],
  ◌∷◌, ◌++◌, length, ltb, if◌then◌else◌, Result, ok, err, panic, exhausted, ◌>>=◌,
}
use kumolo.Prelude.Bytes.{Bytes, bytes_eq}
use kumolo.Prelude.Decimal.{decimal}

-- The packages encoding/base32 (without padding) and crypto/hmac with sha1.
pub record Crypto : Type 0 where
  pub decode_base32 : Bytes → Option Bytes
  pub hmac_sha1 : Bytes → Bytes → Bytes

pub data TotpError : Type 0 where
  bad_secret : TotpError

-- binary.BigEndian.PutUint64
pub big_endian : ℕ → ℕ → Bytes → Bytes
big_endian zero n tail = tail
big_endian (suc k) n tail = big_endian k (n / 256) ((n % 256) ∷ tail)

-- `sum[i]`
pub byte : ℕ → Bytes → Result TotpError ℕ
byte i [] = panic
byte zero (b ∷ s) = ok b
byte (suc i) (b ∷ s) = byte i s

-- `sum[len(sum)-1]`
pub last_byte : Bytes → Result TotpError ℕ
last_byte [] = panic
last_byte (b ∷ []) = ok b
last_byte (b ∷ c ∷ s) = last_byte (c ∷ s)

-- The `%0*d` of fmt: zeros before a number of fewer digits.
zeros : ℕ → Bytes
zeros zero = []
zeros (suc n) = b'0' ∷ zeros n

pub padded : ℕ → Bytes → Bytes
unfolding zeros
padded n s = zeros (n - length s) ++ s

abbrev pub totp_digits : ℕ
totp_digits = 6

abbrev pub totp_step_seconds : ℕ
totp_step_seconds = 30

-- The truncated value of a MAC; the shifts set bits that are apart, so that `|` is their sum.
pub truncated : Bytes → Result TotpError ℕ
unfolding byte last_byte
truncated sum = do
  last ← last_byte sum
  b0 ← byte (last % 16) sum
  b1 ← byte (last % 16 + 1) sum
  b2 ← byte (last % 16 + 2) sum
  b3 ← byte (last % 16 + 3) sum
  ok ((b0 % 128) * 16777216 + b1 * 65536 + b2 * 256 + b3)

module _ (C : Crypto) where
  unfoldable pub totp_code_at : Bytes → ℕ → Result TotpError Bytes
  unfolding big_endian truncated padded
  totp_code_at secret counter = elim (C.decode_base32 secret) [
    | none ↦ err bad_secret
    | some key ↦ do
      code ← truncated (C.hmac_sha1 key (big_endian 8 counter []))
      ok (padded totp_digits (decimal (code % 10 ^ totp_digits)))
  ]

  abbrev pub totp_step : ℕ → ℕ
  totp_step unix_time = unix_time / totp_step_seconds

  -- The counters of the deltas -1, 0 and 1; the first is passed over where the step is 0.
  pub counters : ℕ → List ℕ
  counters zero = 0 ∷ 1 ∷ []
  counters (suc n) = n ∷ suc n ∷ suc (suc n) ∷ []

  -- What a round of the loop makes of the code for its counter.
  abbrev try_code : Bytes → Result TotpError Bool → Result TotpError Bytes → Result TotpError Bool
  try_code user rest (ok code) = if bytes_eq code user then ok true else rest
  try_code user rest (err e) = ok false
  try_code user rest panic = panic
  try_code user rest exhausted = exhausted

  pub verify_loop : Bytes → Bytes → List ℕ → Result TotpError Bool
  verify_loop secret user [] = ok false
  verify_loop secret user (c ∷ more) =
      try_code user (verify_loop secret user more) (totp_code_at secret c)

  pub verify_totp : Bytes → Bytes → ℕ → Result TotpError Bool
  unfolding verify_loop counters
  verify_totp secret user unix_time = verify_loop secret user (counters (totp_step unix_time))
