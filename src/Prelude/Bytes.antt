-- ===== src/Prelude/Bytes.antt =====
-- A Go string is a list of bytes: the tests and cuts of it that the code makes.
use Prim.Native.Nat.{ℕ, ◌+◌, ◌-◌}
use Prim.Native.Char.{code}
use Prim.Native.String.{String}
use mathlib.Core.Path.{◌≡◌, refl}
use mathlib.Core.Logic.{◌↔◌}
use mathlib.Core.Bool.{Bool, true, false, ◌&&◌, ◌||◌}
use mathlib.Core.List.{List, [], ◌∷◌, ◌++◌}
use native.Mathlib.Omega.{arith}
use kumolo.Prelude.Tests.{◌==◌, ltb, leb, if◌then◌else◌, and_parts}

abbrev pub Bytes : Type 0
Bytes = List ℕ

-- The bytes of an ASCII text.
abbrev pub codes : String → Bytes
codes String.[] = []
codes (String.◌∷◌ c s) = code c ∷ codes s

unfoldable pub bytes_eq : Bytes → Bytes → Bool
bytes_eq [] [] = true
bytes_eq (a ∷ s) (b ∷ t) = (a == b) && bytes_eq s t
bytes_eq _ _ = false

pub bytes_eq→≡ : (s t : Bytes) → bytes_eq s t ≡ true → s ≡ t
unfolding bytes_eq
bytes_eq→≡ [] [] h = refl
bytes_eq→≡ [] (b ∷ t) h = ground arith
bytes_eq→≡ (a ∷ s) [] h = ground arith
bytes_eq→≡ (a ∷ s) (b ∷ t) h = ground (arith, bytes_eq→≡ s t)

pub bytes_eq_refl : (s : Bytes) → bytes_eq s s ≡ true
unfolding bytes_eq
bytes_eq_refl [] = refl
bytes_eq_refl (a ∷ s) = ground (arith, bytes_eq_refl s)

pub bytes_eq_iff : (s t : Bytes) → (bytes_eq s t ≡ true) ↔ (s ≡ t)
bytes_eq_iff s t = (bytes_eq→≡ s t, λ p. rw p (bytes_eq_refl t))

-- strings.HasPrefix(s, prefix)
unfoldable pub has_prefix : Bytes → Bytes → Bool
has_prefix s [] = true
has_prefix [] (b ∷ t) = false
has_prefix (a ∷ s) (b ∷ t) = (a == b) && has_prefix s t

has_prefix→append : (s t : Bytes) → has_prefix s t ≡ true → (r : Bytes) × (s ≡ t ++ r)
unfolding has_prefix
has_prefix→append s [] h = (s, refl)
has_prefix→append [] (b ∷ t) h = ground arith
has_prefix→append (a ∷ s) (b ∷ t) h =
    let (r, e) = has_prefix→append s t (and_parts (a == b) _ h).1 in
    (r, ground (arith, and_parts (a == b) (has_prefix s t)))

has_prefix-append : (t r : Bytes) → has_prefix (t ++ r) t ≡ true
unfolding has_prefix
has_prefix-append [] r = refl
has_prefix-append (b ∷ t) r = ground (arith, has_prefix-append t r)

pub has_prefix_iff : (s t : Bytes) → (has_prefix s t ≡ true) ↔ ((r : Bytes) × (s ≡ t ++ r))
has_prefix_iff s t = (has_prefix→append s t, λ (r, e). rw e (has_prefix-append t r))

-- strings.Contains(s, t)
unfoldable pub contains : Bytes → Bytes → Bool
unfolding has_prefix
contains [] t = has_prefix [] t
contains (a ∷ s) t = has_prefix (a ∷ s) t || contains s t

-- What strings.Compare tells of two strings: the order of their bytes, then of their lengths.
pub data Order : Type 0 where
  less same more : Order

abbrev pub flip : Order → Order
flip less = more
flip same = same
flip more = less

unfoldable pub compare_bytes : Bytes → Bytes → Order
compare_bytes [] [] = same
compare_bytes [] (b ∷ t) = less
compare_bytes (a ∷ s) [] = more
compare_bytes (a ∷ s) (b ∷ t) =
    let rest = compare_bytes s t in if ltb a b then less else if ltb b a then more else rest

pub compare_bytes-flip : (s t : Bytes) → compare_bytes t s ≡ flip (compare_bytes s t)
unfolding compare_bytes
compare_bytes-flip [] [] = refl
compare_bytes-flip [] (b ∷ t) = refl
compare_bytes-flip (a ∷ s) [] = refl
compare_bytes-flip (a ∷ s) (b ∷ t) = ground (arith, compare_bytes-flip s t)

pub compare_bytes-same : (s t : Bytes) → compare_bytes s t ≡ same → s ≡ t
unfolding compare_bytes
compare_bytes-same [] [] h = refl
compare_bytes-same [] (b ∷ t) h = ground arith
compare_bytes-same (a ∷ s) [] h = ground arith
compare_bytes-same (a ∷ s) (b ∷ t) h = ground (arith, compare_bytes-same s t)

pub compare_bytes-less_trans :
    (s t u : Bytes) → compare_bytes s t ≡ less → compare_bytes t u ≡ less → compare_bytes s u ≡ less
unfolding compare_bytes
compare_bytes-less_trans [] [] u h k = cc
compare_bytes-less_trans [] (b ∷ t) [] h k = cc
compare_bytes-less_trans [] (b ∷ t) (c ∷ u) h k = refl
compare_bytes-less_trans (a ∷ s) [] u h k = cc
compare_bytes-less_trans (a ∷ s) (b ∷ t) [] h k = cc
compare_bytes-less_trans (a ∷ s) (b ∷ t) (c ∷ u) h k =
    ground (arith, compare_bytes-less_trans s t u)

-- strings.ToUpper and strings.ToLower, on ASCII.
unfoldable pub upper_byte : ℕ → ℕ
upper_byte c = if leb b'a' c && leb c b'z' then c - 32 else c

unfoldable pub lower_byte : ℕ → ℕ
lower_byte c = if leb b'A' c && leb c b'Z' then c + 32 else c

unfoldable pub to_upper : Bytes → Bytes
unfolding upper_byte
to_upper [] = []
to_upper (c ∷ s) = upper_byte c ∷ to_upper s

unfoldable pub to_lower : Bytes → Bytes
unfolding lower_byte
to_lower [] = []
to_lower (c ∷ s) = lower_byte c ∷ to_lower s
