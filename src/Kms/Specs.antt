-- ===== src/Kms/Specs.antt =====
-- The key specs of internal/kms/storage_types.go, with their usages and algorithms.
pub mod Algorithms
use kumolo.Prelude.{ℕ, Bool, true, false, ◌||◌, Option, none, some, List, [], ◌∷◌, if◌then◌else◌}
use kumolo.Prelude.Bytes.{Bytes, codes, bytes_eq}
use kumolo.Prelude.Dict.{Dict, find}

unfoldable pub is_one_of : Bytes → List Bytes → Bool
is_one_of k [] = false
is_one_of k (w ∷ ws) = bytes_eq w k || is_one_of k ws

-- `switch spec { case …: return … }`, as the cases in their order; `none` where no case fits
abbrev pub Cases : Type 0 → Type 0
Cases A = List (List Bytes × A)

pub switch : {A : Type 0} → Bytes → Cases A → Option A
unfolding is_one_of
switch k [] = none
switch k ((ws, a) ∷ cases) = let rest = switch k cases in if is_one_of k ws then some a else rest

abbrev pub or_else : {A : Type 0} → A → Option A → A
or_else a none = a
or_else a (some b) = b

abbrev pub encrypt_decrypt : Bytes
encrypt_decrypt = codes "ENCRYPT_DECRYPT"

abbrev pub sign_verify : Bytes
sign_verify = codes "SIGN_VERIFY"

abbrev pub key_agreement : Bytes
key_agreement = codes "KEY_AGREEMENT"

abbrev pub generate_verify_mac : Bytes
generate_verify_mac = codes "GENERATE_VERIFY_MAC"

abbrev pub symmetric_default : Bytes
symmetric_default = codes "SYMMETRIC_DEFAULT"

abbrev pub rsa_specs : List Bytes
rsa_specs = codes "RSA_2048" ∷ codes "RSA_3072" ∷ codes "RSA_4096" ∷ []

abbrev pub hmac_specs : List Bytes
hmac_specs = codes "HMAC_224" ∷ codes "HMAC_256" ∷ codes "HMAC_384" ∷ codes "HMAC_512" ∷ []

-- The keys of validKeySpecs.
abbrev pub valid_key_specs : List Bytes
valid_key_specs =
    symmetric_default
    ∷ codes "RSA_2048"
    ∷ codes "RSA_3072"
    ∷ codes "RSA_4096"
    ∷ codes "ECC_NIST_P256"
    ∷ codes "ECC_NIST_P384"
    ∷ codes "ECC_NIST_P521"
    ∷ codes "ECC_SECG_P256K1"
    ∷ codes "ECC_NIST_EDWARDS25519"
    ∷ codes "ML_DSA_44"
    ∷ codes "ML_DSA_65"
    ∷ codes "ML_DSA_87"
    ∷ codes "HMAC_224"
    ∷ codes "HMAC_256"
    ∷ codes "HMAC_384"
    ∷ codes "HMAC_512"
    ∷ codes "SM2"
    ∷ []

abbrev pub default_key_usage : Dict Bytes
default_key_usage =
    (symmetric_default, encrypt_decrypt)
    ∷ (codes "RSA_2048", encrypt_decrypt)
    ∷ (codes "RSA_3072", encrypt_decrypt)
    ∷ (codes "RSA_4096", encrypt_decrypt)
    ∷ (codes "ECC_NIST_P256", sign_verify)
    ∷ (codes "ECC_NIST_P384", sign_verify)
    ∷ (codes "ECC_NIST_P521", sign_verify)
    ∷ (codes "ECC_SECG_P256K1", sign_verify)
    ∷ (codes "ECC_NIST_EDWARDS25519", sign_verify)
    ∷ (codes "ML_DSA_44", sign_verify)
    ∷ (codes "ML_DSA_65", sign_verify)
    ∷ (codes "ML_DSA_87", sign_verify)
    ∷ (codes "HMAC_224", generate_verify_mac)
    ∷ (codes "HMAC_256", generate_verify_mac)
    ∷ (codes "HMAC_384", generate_verify_mac)
    ∷ (codes "HMAC_512", generate_verify_mac)
    ∷ (codes "SM2", encrypt_decrypt)
    ∷ []

abbrev pub valid_key_usages : Dict (List Bytes)
valid_key_usages =
    (symmetric_default, encrypt_decrypt ∷ [])
    ∷ (codes "RSA_2048", encrypt_decrypt ∷ sign_verify ∷ [])
    ∷ (codes "RSA_3072", encrypt_decrypt ∷ sign_verify ∷ [])
    ∷ (codes "RSA_4096", encrypt_decrypt ∷ sign_verify ∷ [])
    ∷ (codes "ECC_NIST_P256", sign_verify ∷ key_agreement ∷ [])
    ∷ (codes "ECC_NIST_P384", sign_verify ∷ key_agreement ∷ [])
    ∷ (codes "ECC_NIST_P521", sign_verify ∷ key_agreement ∷ [])
    ∷ (codes "ECC_SECG_P256K1", sign_verify ∷ [])
    ∷ (codes "ECC_NIST_EDWARDS25519", sign_verify ∷ [])
    ∷ (codes "ML_DSA_44", sign_verify ∷ [])
    ∷ (codes "ML_DSA_65", sign_verify ∷ [])
    ∷ (codes "ML_DSA_87", sign_verify ∷ [])
    ∷ (codes "HMAC_224", generate_verify_mac ∷ [])
    ∷ (codes "HMAC_256", generate_verify_mac ∷ [])
    ∷ (codes "HMAC_384", generate_verify_mac ∷ [])
    ∷ (codes "HMAC_512", generate_verify_mac ∷ [])
    ∷ (codes "SM2", encrypt_decrypt ∷ sign_verify ∷ key_agreement ∷ [])
    ∷ []

unfoldable pub is_valid_key_usage_for_spec : Bytes → Bytes → Bool
unfolding is_one_of find
is_valid_key_usage_for_spec spec usage = is_one_of usage (or_else [] (find spec valid_key_usages))

pub encryption_algorithms_for_key : Bytes → Bytes → List Bytes
unfolding switch
encryption_algorithms_for_key spec usage =
    if bytes_eq usage encrypt_decrypt
    then or_else [] (
        switch spec (
          (symmetric_default ∷ [], symmetric_default ∷ [])
          ∷ (rsa_specs, codes "RSAES_OAEP_SHA_1" ∷ codes "RSAES_OAEP_SHA_256" ∷ [])
          ∷ (codes "SM2" ∷ [], codes "SM2PKE" ∷ [])
          ∷ []))
    else []

pub signing_algorithms_for_key : Bytes → Bytes → List Bytes
unfolding switch
signing_algorithms_for_key spec usage =
    if bytes_eq usage sign_verify
    then or_else [] (
        switch spec (
          (
            rsa_specs,
            codes "RSASSA_PKCS1_V1_5_SHA_256"
                ∷ codes "RSASSA_PKCS1_V1_5_SHA_384"
                ∷ codes "RSASSA_PKCS1_V1_5_SHA_512"
                ∷ codes "RSASSA_PSS_SHA_256"
                ∷ codes "RSASSA_PSS_SHA_384"
                ∷ codes "RSASSA_PSS_SHA_512"
                ∷ [],
          )
          ∷ (codes "ECC_NIST_P256" ∷ codes "ECC_SECG_P256K1" ∷ [], codes "ECDSA_SHA_256" ∷ [])
          ∷ (codes "ECC_NIST_P384" ∷ [], codes "ECDSA_SHA_384" ∷ [])
          ∷ (codes "ECC_NIST_P521" ∷ [], codes "ECDSA_SHA_512" ∷ [])
          ∷ (
            codes "ECC_NIST_EDWARDS25519" ∷ [],
            codes "ED25519_SHA_512" ∷ codes "ED25519_PH_SHA_512" ∷ [],
          )
          ∷ (codes "ML_DSA_44" ∷ [], codes "ML_DSA_44" ∷ [])
          ∷ (codes "ML_DSA_65" ∷ [], codes "ML_DSA_65" ∷ [])
          ∷ (codes "ML_DSA_87" ∷ [], codes "ML_DSA_87" ∷ [])
          ∷ (codes "SM2" ∷ [], codes "SM2DSA" ∷ [])
          ∷ []))
    else []

pub key_agreement_algorithms_for_key : Bytes → Bytes → List Bytes
unfolding switch
key_agreement_algorithms_for_key spec usage =
    if bytes_eq usage key_agreement
    then or_else [] (
        switch spec (
          (
            codes "ECC_NIST_P256"
                ∷ codes "ECC_NIST_P384"
                ∷ codes "ECC_NIST_P521"
                ∷ codes "ECC_NIST_EDWARDS25519"
                ∷ [],
            codes "ECDH" ∷ [],
          )
          ∷ (codes "SM2" ∷ [], codes "SM2KE" ∷ [])
          ∷ []))
    else []

pub hmac_key_size : Bytes → ℕ
unfolding switch
hmac_key_size spec = or_else 0 (
    switch spec (
      (codes "HMAC_224" ∷ [], 28)
      ∷ (codes "HMAC_256" ∷ [], 32)
      ∷ (codes "HMAC_384" ∷ [], 48)
      ∷ (codes "HMAC_512" ∷ [], 64)
      ∷ []))

pub mac_algorithms_for_key : Bytes → List Bytes
unfolding switch
mac_algorithms_for_key spec = or_else [] (
    switch spec (
      (codes "HMAC_224" ∷ [], codes "HMAC_SHA_224" ∷ [])
      ∷ (codes "HMAC_256" ∷ [], codes "HMAC_SHA_256" ∷ [])
      ∷ (codes "HMAC_384" ∷ [], codes "HMAC_SHA_384" ∷ [])
      ∷ (codes "HMAC_512" ∷ [], codes "HMAC_SHA_512" ∷ [])
      ∷ []))

-- isHMACSpec of internal/kms/handler_asymmetric.go
pub is_hmac_spec : Bytes → Bool
unfolding is_one_of
is_hmac_spec spec = is_one_of spec hmac_specs
