-- ===== src/Cognito/Totp/Window.antt =====
-- Which codes verifyTOTP of internal/cognito/totp.go accepts.
use kumolo.Prelude.{
  ℕ, zero, suc, ◌+◌, ◌==◌, ◌≤◌, ◌/◌, subst, ◌*◌, ◌^◌, ◌%◌, ◌<◌, length, ◌≡◌, ◌↔◌, refl, true, false,
  none, some, List, [], ◌∷◌, if◌then◌else◌, arith, ◌⊎◌, inl, inr, Any, Bool-cases, Result, ◌>>=◌,
  ok, err, ◌∙◌, ap, sym,
}
use kumolo.Prelude.Bytes.{Bytes, bytes_eq, bytes_eq→≡, bytes_eq_refl}
use kumolo.Prelude.Decimal.{decimal}
use kumolo.Cognito.Totp.{
  Crypto, TotpError, bad_secret, padded, totp_digits, byte, last_byte, truncated, big_endian,
  totp_code_at, totp_step, counters, try_code, verify_loop, verify_totp,
}

byte-ok : (i : ℕ) (s : Bytes) → i < length s → (b : ℕ) × (byte i s ≡ ok b)
unfolding byte
byte-ok i [] h = absurd (omega (arith, h))
byte-ok zero (b ∷ s) h = (b, refl)
byte-ok (suc i) (b ∷ s) h = byte-ok i s (omega (arith, h))

last_byte-ok : (s : Bytes) → 0 < length s → (b : ℕ) × (last_byte s ≡ ok b)
unfolding last_byte
last_byte-ok [] h = absurd (omega (arith, h))
last_byte-ok (b ∷ []) h = (b, refl)
last_byte-ok (b ∷ c ∷ s) h = last_byte-ok (c ∷ s) (omega arith)

-- A MAC of twenty bytes has the four bytes behind each offset.
truncated-ok : (s : Bytes) → length s ≡ 20 → (v : ℕ) × (truncated s ≡ ok v)
unfolding truncated
truncated-ok s h =
    let (last, e) = last_byte-ok s (omega (arith, h)) in
    let (b0, e0) = byte-ok (last % 16) s (omega (arith, h)) in
    let (b1, e1) = byte-ok (last % 16 + 1) s (omega (arith, h)) in
    let (b2, e2) = byte-ok (last % 16 + 2) s (omega (arith, h)) in
    let (b3, e3) = byte-ok (last % 16 + 3) s (omega (arith, h)) in
    ((b0 % 128) * 16777216 + b1 * 65536 + b2 * 256 + b3, rw (e, e0, e1, e2, e3) refl)

-- The code belongs to a step that is at most one away from `step`.
abbrev pub IsInWindow : Crypto → Bytes → Bytes → ℕ → Type 0
IsInWindow C secret user step =
    (c : ℕ) × (((c ≤ suc step) × (step ≤ suc c)) × (totp_code_at C secret c ≡ ok user))

three : (n c : ℕ) → c ≤ suc (suc n) → suc n ≤ suc c → (c ≡ n) ⊎ ((c ≡ suc n) ⊎ (c ≡ suc (suc n)))
three n c h k = elim (Bool-cases (c == n)) [
  | inl e ↦ inl (ground arith)
  | inr e ↦ elim (Bool-cases (c == suc n)) [
    | inl f ↦ inr (inl (ground arith))
    | inr f ↦ inr (inr (ground arith))
  ]
]

module _ (C : Crypto) (secret key : Bytes) (decodes : C.decode_base32 secret ≡ some key)
    (twenty : (k m : Bytes) → length (C.hmac_sha1 k m) ≡ 20) where
  totp_code_at-ok : (c : ℕ) → (code : Bytes) × (totp_code_at C secret c ≡ ok code)
  unfolding totp_code_at
  totp_code_at-ok c =
      let (v, e) =
        truncated-ok (C.hmac_sha1 key (big_endian 8 c [])) (twenty key (big_endian 8 c [])) in
      (
        padded totp_digits (decimal (v % 10 ^ totp_digits)),
        ap
              (λ o. elim o as (λ _. Result TotpError Bytes) [
                | none ↦ err bad_secret
                | some k ↦ truncated (C.hmac_sha1 k (big_endian 8 c [])) >>= λ code.
                    ok (padded totp_digits (decimal (code % 10 ^ totp_digits)))
              ])
              decodes
            ∙ ap (λ r. r >>= λ code. ok (padded totp_digits (decimal (code % 10 ^ totp_digits)))) e,
      )

  -- A round of the loop.
  round_true :
      (user : Bytes) (c : ℕ) (cs : List ℕ) (code : Bytes)
      → totp_code_at C secret c ≡ ok code
      → bytes_eq code user ≡ true
      → verify_loop C secret user (c ∷ cs) ≡ ok true
  unfolding verify_loop
  round_true user c cs code e s =
      ap (try_code C user (verify_loop C secret user cs)) e
      ∙ ap (λ b. if b then ok true else verify_loop C secret user cs) s

  round_false :
      (user : Bytes) (c : ℕ) (cs : List ℕ) (code : Bytes)
      → totp_code_at C secret c ≡ ok code
      → bytes_eq code user ≡ false
      → verify_loop C secret user (c ∷ cs) ≡ verify_loop C secret user cs
  unfolding verify_loop
  round_false user c cs code e s =
      ap (try_code C user (verify_loop C secret user cs)) e
      ∙ ap (λ b. if b then ok true else verify_loop C secret user cs) s

  verify_loop-Any :
      (user : Bytes) (cs : List ℕ)
      → (verify_loop C secret user cs ≡ ok true) ↔ Any (λ c. totp_code_at C secret c ≡ ok user) cs
  unfolding verify_loop
  verify_loop-Any user [] = (λ e. cc, λ h. elim h [ ])
  verify_loop-Any user (c ∷ cs) =
      let (code, e) = totp_code_at-ok c in
      elim (Bool-cases (bytes_eq code user)) [
        | inl s ↦
            let same : code ≡ user = bytes_eq→≡ code user s in
            (λ _. inl (e ∙ ap ok same), λ _. round_true user c cs code e s)
        | inr s ↦ (
          λ h. inr ((verify_loop-Any user cs).0 (sym (round_false user c cs code e s) ∙ h)),
          λ h. round_false user c cs code e s ∙ elim h [
            | inl q ↦
                let codes : ok code ≡ ok user = sym e ∙ q in
                let same : code ≡ user = cc in
                let no : true ≡ false =
                  sym (bytes_eq_refl user) ∙ (ap (λ t. bytes_eq t user) (sym same) ∙ s) in
                cc
            | inr more ↦ (verify_loop-Any user cs).1 more
          ],
        )
      ]

  -- The counters of the loop are those in the window.
  counters→ :
      (user : Bytes) (step : ℕ)
      → Any (λ c. totp_code_at C secret c ≡ ok user) (counters C step)
      → IsInWindow C secret user step
  unfolding counters
  counters→ user zero (inl e) = (0, ((omega arith, omega arith), e))
  counters→ user zero (inr (inl e)) = (1, ((omega arith, omega arith), e))
  counters→ user zero (inr (inr x)) = elim x [ ]
  counters→ user (suc n) (inl e) = (n, ((omega arith, omega arith), e))
  counters→ user (suc n) (inr (inl e)) = (suc n, ((omega arith, omega arith), e))
  counters→ user (suc n) (inr (inr (inl e))) = (suc (suc n), ((omega arith, omega arith), e))
  counters→ user (suc n) (inr (inr (inr x))) = elim x [ ]

  counters← :
      (user : Bytes) (step : ℕ)
      → IsInWindow C secret user step
      → Any (λ c. totp_code_at C secret c ≡ ok user) (counters C step)
  unfolding counters
  counters← user zero (zero, (near, e)) = inl e
  counters← user zero (suc c, (near, e)) =
      let same : suc c ≡ 1 = omega (arith, near.0) in
      inr (inl (subst (λ i. totp_code_at C secret i ≡ ok user) same e))
  counters← user (suc n) (c, (near, e)) = elim (three n c near.0 near.1) [
    | inl same ↦ inl (subst (λ i. totp_code_at C secret i ≡ ok user) same e)
    | inr (inl same) ↦ inr (inl (subst (λ i. totp_code_at C secret i ≡ ok user) same e))
    | inr (inr same) ↦ inr (inr (inl (subst (λ i. totp_code_at C secret i ≡ ok user) same e)))
  ]

  -- verifyTOTP accepts a code exactly if it is the code of a step that is at most one away from the
  -- step of the time. The secret is one that base32 decodes, and HMAC-SHA1 gives twenty bytes.
  pub verify_totp_iff :
      (user : Bytes) (unix_time : ℕ)
      → (verify_totp C secret user unix_time ≡ ok true) ↔ IsInWindow C secret user (unix_time / 30)
  unfolding verify_totp
  verify_totp_iff user unix_time =
      let (accepts, accepted) = verify_loop-Any user (counters C (totp_step C unix_time)) in
      (
        λ e. counters→ user (totp_step C unix_time) (accepts e),
        λ h. accepted (counters← user (totp_step C unix_time) h),
      )
