-- ===== src/Cognito/Password/Policy.antt =====
-- Which passwords the policy of internal/cognito/password_policy.go accepts.
use kumolo.Prelude.{
  ℕ, zero, suc, ◌≤◌, ◌≡◌, ◌↔◌, refl, Bool, true, false, not, ◌&&◌, Option, none, some, List, [],
  ◌∷◌, length, ltb, if◌then◌else◌, arith, inl, inr, Any, Bool-cases,
}
use kumolo.Cognito.Password.{
  ℤ, pos, negsuc, is_positive, shorter, PasswordPolicy, PasswordPolicyOverlay, PasswordError,
  Unicode, min_password_len, max_password_len, inherit_length, password_policy_from_pool,
  contains_rune, is_symbol_rune, minimum_of, validate_password,
}

-- A minimum that a length may have.
abbrev pub IsAtLeast : ℤ → ℕ → Type 0
IsAtLeast (pos n) m = n ≤ m
IsAtLeast (negsuc n) m = Unit

-- Where a class is required, some rune is of it.
abbrev pub Has : Bool → (ℕ → Bool) → List ℕ → Type 0
Has required pred s = required ≡ true → Any (λ r. pred r ≡ true) s

pub record Conforms (U : Unicode) (p : PasswordPolicy) (s : List ℕ) : Type 0 where
  pub long_enough : IsAtLeast (minimum_of U p) (length s)
  pub not_too_long : length s ≤ max_password_len
  pub has_upper : Has p.require_uppercase U.is_upper s
  pub has_lower : Has p.require_lowercase U.is_lower s
  pub has_number : Has p.require_numbers U.is_number s
  pub has_symbol : Has p.require_symbols (is_symbol_rune U) s

contains_rune→ :
    (s : List ℕ) (pred : ℕ → Bool) → contains_rune s pred ≡ true → Any (λ r. pred r ≡ true) s
unfolding contains_rune
contains_rune→ [] pred e = cc
contains_rune→ (r ∷ s) pred e = elim (Bool-cases (pred r)) [
  | inl y ↦ inl y
  | inr n ↦ inr (contains_rune→ s pred (rw n at e))
]

contains_rune← :
    (s : List ℕ) (pred : ℕ → Bool) → Any (λ r. pred r ≡ true) s → contains_rune s pred ≡ true
unfolding contains_rune
contains_rune← [] pred h = elim h [ ]
contains_rune← (r ∷ s) pred (inl y) = rw y refl
contains_rune← (r ∷ s) pred (inr h) = elim (Bool-cases (pred r)) [
  | inl y ↦ rw y refl
  | inr n ↦ rw n (contains_rune← s pred h)
]

-- One rule of the switch is not violated.
rule-Has :
    (required : Bool) (pred : ℕ → Bool) (s : List ℕ)
    → (required && not (contains_rune s pred) ≡ false) ↔ Has required pred s
rule-Has true pred s = (
  λ e _. contains_rune→ s pred (ground arith),
  λ h. let there : contains_rune s pred ≡ true = contains_rune← s pred (h refl) in rw there refl,
)
rule-Has false pred s = (λ e f. cc, λ h. refl)

rule-IsAtLeast : (n : ℤ) (m : ℕ) → (shorter m n ≡ false) ↔ IsAtLeast n m
rule-IsAtLeast (pos n) m = (λ e. ground arith, λ h. ground arith)
rule-IsAtLeast (negsuc n) m = (λ e. tt, λ h. refl)

rule-longest : (m : ℕ) → (ltb max_password_len m ≡ false) ↔ (m ≤ max_password_len)
rule-longest m = (λ e. ground arith, λ h. ground arith)

-- A rule of the switch, and the rules behind it.
if-none→ :
    (b : Bool) (e : PasswordError) (o : Option PasswordError)
    → (if b then some e else o) ≡ none
    → (b ≡ false) × (o ≡ none)
if-none→ true e o h = cc
if-none→ false e o h = (refl, h)

if-none← :
    (b : Bool) (e : PasswordError) (o : Option PasswordError)
    → b ≡ false
    → o ≡ none
    → (if b then some e else o) ≡ none
if-none← b e o h k = rw h k

-- validatePassword accepts a password exactly if it has at least the minimum of runes (of the
-- policy, or 8 where that is not positive) and at most 256, and has a rune of each class that the
-- policy requires: upper case, lower case, numbers, and symbols, which are neither letters nor
-- numbers nor blanks.
pub validate_password_iff :
    (U : Unicode) (p : PasswordPolicy) (s : List ℕ)
    → (validate_password U p s ≡ none) ↔ Conforms U p s
unfolding validate_password
validate_password_iff U p s = (accepted, conforming)
  where
    accepted : validate_password U p s ≡ none → Conforms U p s
    accepted h =
        let (a, h1) = if-none→ _ _ _ h in
        let (b, h2) = if-none→ _ _ _ h1 in
        let (c, h3) = if-none→ _ _ _ h2 in
        let (d, h4) = if-none→ _ _ _ h3 in
        let (e, h5) = if-none→ _ _ _ h4 in
        let (f, h6) = if-none→ _ _ _ h5 in
        record {
          long_enough = (rule-IsAtLeast (minimum_of U p) (length s)).0 a;
          not_too_long = (rule-longest (length s)).0 b;
          has_upper = (rule-Has p.require_uppercase U.is_upper s).0 c;
          has_lower = (rule-Has p.require_lowercase U.is_lower s).0 d;
          has_number = (rule-Has p.require_numbers U.is_number s).0 e;
          has_symbol = (rule-Has p.require_symbols (is_symbol_rune U) s).0 f;
        }

    conforming : Conforms U p s → validate_password U p s ≡ none
    conforming h = if-none← _ _ _ ((rule-IsAtLeast (minimum_of U p) (length s)).1 h.long_enough) (
        if-none← _ _ _ ((rule-longest (length s)).1 h.not_too_long) (
          if-none← _ _ _ ((rule-Has p.require_uppercase U.is_upper s).1 h.has_upper) (
            if-none← _ _ _ ((rule-Has p.require_lowercase U.is_lower s).1 h.has_lower) (
              if-none← _ _ _ ((rule-Has p.require_numbers U.is_number s).1 h.has_number) (
                if-none← _ _ _ ((rule-Has p.require_symbols (is_symbol_rune U) s).1 h.has_symbol)
                  refl)))))

inherit_length-positive : (o : Option ℤ) → is_positive (inherit_length min_password_len o) ≡ true
inherit_length-positive none = refl
inherit_length-positive (some m) = elim (Bool-cases (is_positive m)) [
  | inl e ↦ rw e e
  | inr e ↦ rw e refl
]

not_of_zero :
    (n : ℤ) → is_positive n ≡ true → ¬ IsAtLeast (if is_positive n then n else min_password_len) 0
not_of_zero (pos zero) e h = cc
not_of_zero (pos (suc n)) e h = omega (arith, h)
not_of_zero (negsuc n) e h = cc

minimum_length-positive :
    (stored : Option PasswordPolicyOverlay)
    → is_positive (password_policy_from_pool stored).minimum_length ≡ true
unfolding password_policy_from_pool
minimum_length-positive none = refl
minimum_length-positive (some overlay) = inherit_length-positive overlay.given_minimum_length

-- Whatever a pool stores, the policy that it gives has a positive minimum length, and does not
-- accept the empty password.
pub validate_password-password_policy_from_pool :
    (U : Unicode) (stored : Option PasswordPolicyOverlay)
    → (is_positive (password_policy_from_pool stored).minimum_length ≡ true)
      × ¬ (validate_password U (password_policy_from_pool stored) [] ≡ none)
validate_password-password_policy_from_pool U stored = (
  minimum_length-positive stored,
  λ h.
      not_of_zero (password_policy_from_pool stored).minimum_length (minimum_length-positive stored)
        ((validate_password_iff U (password_policy_from_pool stored) []).0 h).long_enough,
)
