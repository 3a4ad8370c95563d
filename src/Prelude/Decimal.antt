-- ===== src/Prelude/Decimal.antt =====
-- Numbers in decimal, as fmt.Sprintf("%d", n) and strconv.Itoa write them and strconv.Atoi reads them.
use Prim.Native.Nat.{ℕ, zero, suc, ◌+◌, ◌-◌, ◌*◌, ◌/◌, ◌%◌, ◌<◌, ◌≤◌}
use mathlib.Core.Path.{◌≡◌, refl, ◌∙◌, ap}
use mathlib.Core.Logic.{inl, inr}
use mathlib.Core.Bool.{Bool, ◌&&◌}
use mathlib.Core.List.{[], ◌∷◌, ◌++◌}
use mathlib.Core.Option.{Option, none, some}
use native.Mathlib.Omega.{arith}
use kumolo.Prelude.Tests.{ltb, leb, if◌then◌else◌, Bool-cases}
use kumolo.Prelude.Bytes.{Bytes}

-- The decimal digits of a number, on fuel that no number uses up.
unfoldable pub decimal_loop : ℕ → ℕ → Bytes
decimal_loop zero n = []
decimal_loop (suc f) n =
    let more = decimal_loop f (n / 10) in
    if ltb n 10 then (b'0' + n) ∷ [] else more ++ (b'0' + n % 10) ∷ []

unfoldable pub decimal : ℕ → Bytes
unfolding decimal_loop
decimal n = decimal_loop (suc n) n

abbrev pub is_decimal_digit : ℕ → Bool
is_decimal_digit c = leb b'0' c && leb c b'9'

-- The number that digits write, behind those that write `n`.
unfoldable pub digits_from : ℕ → Bytes → Option ℕ
digits_from n [] = some n
digits_from n (c ∷ s) =
    let more = digits_from (n * 10 + (c - b'0')) s in if is_decimal_digit c then more else none

abbrev one_more : ℕ → Option ℕ → Option ℕ
one_more d none = none
one_more d (some n) = some (n * 10 + d)

digits_from-append :
    (n d : ℕ) (s : Bytes)
    → d < 10
    → digits_from n (s ++ ((b'0' + d) ∷ [])) ≡ one_more d (digits_from n s)
unfolding digits_from
digits_from-append n d [] h = ground arith
digits_from-append n d (c ∷ s) h = elim (Bool-cases (is_decimal_digit c)) [
  | inl e ↦ rw e (digits_from-append (n * 10 + (c - b'0')) d s h)
  | inr e ↦ rw e refl
]

digits_from-decimal_loop : (f n : ℕ) → n < f → digits_from 0 (decimal_loop f n) ≡ some n
unfolding decimal_loop digits_from
digits_from-decimal_loop zero n h = absurd (omega (arith, h))
digits_from-decimal_loop (suc f) n h = elim (Bool-cases (ltb n 10)) [
  | inl e ↦ rw e (ground arith)
  | inr e ↦
      let big : 10 ≤ n = ground arith in
      let before : digits_from 0 (decimal_loop f (n / 10)) ≡ some (n / 10) =
        digits_from-decimal_loop f (n / 10) (omega (arith, h, big)) in
      let whole : n / 10 * 10 + n % 10 ≡ n = omega arith in
      rw e (
        digits_from-append 0 (n % 10) (decimal_loop f (n / 10)) (omega arith)
        ∙ (ap (one_more (n % 10)) before ∙ ap some whole))
]

pub digits_from-decimal : (n : ℕ) → digits_from 0 (decimal n) ≡ some n
unfolding decimal
digits_from-decimal n = digits_from-decimal_loop (suc n) n (omega arith)
