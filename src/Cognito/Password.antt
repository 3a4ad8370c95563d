-- ===== src/Cognito/Password.antt =====
-- The password policy of a user pool, internal/cognito/password_policy.go.
pub mod Policy
use kumolo.Prelude.{
  ℕ, zero, suc, Bool, true, false, not, ◌&&◌, Option, none, some, List, [], ◌∷◌, length, ltb,
  if◌then◌else◌,
}

-- An int of Go, which the stored policy may give as any number.
pub data ℤ : Type 0 where
  pos negsuc : ℕ → ℤ

-- `n > 0`
abbrev pub is_positive : ℤ → Bool
is_positive (pos zero) = false
is_positive (pos (suc n)) = true
is_positive (negsuc n) = false

-- `m < n` of a length and an int
abbrev pub shorter : ℕ → ℤ → Bool
shorter m (pos n) = ltb m n
shorter m (negsuc n) = false

pub record PasswordPolicy : Type 0 where
  pub minimum_length : ℤ
  pub require_uppercase : Bool
  pub require_lowercase : Bool
  pub require_numbers : Bool
  pub require_symbols : Bool
  pub temporary_password_validity_days : ℤ

-- The fields that a stored policy gives.
pub record PasswordPolicyOverlay : Type 0 where
  pub given_minimum_length : Option ℤ
  pub given_require_uppercase : Option Bool
  pub given_require_lowercase : Option Bool
  pub given_require_numbers : Option Bool
  pub given_require_symbols : Option Bool
  pub given_temporary_password_validity_days : Option ℤ

-- minPasswordLen, of internal/cognito/handler_auth.go, and maxPasswordLen
abbrev pub min_password_len : ℤ
min_password_len = pos 8

abbrev pub max_password_len : ℕ
max_password_len = 256

abbrev pub default_password_policy : PasswordPolicy
default_password_policy = record {
  minimum_length = min_password_len;
  require_uppercase = true;
  require_lowercase = true;
  require_numbers = true;
  require_symbols = true;
  temporary_password_validity_days = pos 7;
}

abbrev pub inherit : {A : Type 0} → A → Option A → A
inherit a none = a
inherit a (some b) = b

-- A minimum that is not positive is not taken.
abbrev pub inherit_length : ℤ → Option ℤ → ℤ
inherit_length n none = n
inherit_length n (some m) = if is_positive m then m else n

-- The pool's policies: none where the pool has none or json.Unmarshal refuses them.
pub password_policy_from_pool : Option PasswordPolicyOverlay → PasswordPolicy
password_policy_from_pool none = default_password_policy
password_policy_from_pool (some overlay) = record {
  minimum_length =
      inherit_length default_password_policy.minimum_length overlay.given_minimum_length;
  require_uppercase =
      inherit default_password_policy.require_uppercase overlay.given_require_uppercase;
  require_lowercase =
      inherit default_password_policy.require_lowercase overlay.given_require_lowercase;
  require_numbers = inherit default_password_policy.require_numbers overlay.given_require_numbers;
  require_symbols = inherit default_password_policy.require_symbols overlay.given_require_symbols;
  temporary_password_validity_days =
      inherit default_password_policy.temporary_password_validity_days
        overlay.given_temporary_password_validity_days;
}

-- The classes of the package unicode.
pub record Unicode : Type 0 where
  pub is_upper : ℕ → Bool
  pub is_lower : ℕ → Bool
  pub is_number : ℕ → Bool
  pub is_letter : ℕ → Bool
  pub is_space : ℕ → Bool

pub data PasswordError : Type 0 where
  too_short too_long no_uppercase no_lowercase no_number no_symbol : PasswordError

-- A password is the runes that a loop over it visits, which utf8.RuneCountInString counts.
pub contains_rune : List ℕ → (ℕ → Bool) → Bool
contains_rune [] pred = false
contains_rune (r ∷ s) pred = let rest = contains_rune s pred in if pred r then true else rest

module _ (U : Unicode) where
  abbrev pub is_symbol_rune : ℕ → Bool
  is_symbol_rune r = not (U.is_letter r) && not (U.is_number r) && not (U.is_space r)

  abbrev pub minimum_of : PasswordPolicy → ℤ
  minimum_of policy =
      if is_positive policy.minimum_length then policy.minimum_length else min_password_len

  -- The first rule that is violated.
  unfoldable pub validate_password : PasswordPolicy → List ℕ → Option PasswordError
  unfolding contains_rune
  validate_password policy password =
      if shorter (length password) (minimum_of policy)
      then some too_short
      else if ltb max_password_len (length password)
      then some too_long
      else if policy.require_uppercase && not (contains_rune password U.is_upper)
      then some no_uppercase
      else if policy.require_lowercase && not (contains_rune password U.is_lower)
      then some no_lowercase
      else if policy.require_numbers && not (contains_rune password U.is_number)
      then some no_number
      else if policy.require_symbols && not (contains_rune password is_symbol_rune)
      then some no_symbol
      else none
