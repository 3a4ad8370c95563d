-- ===== src/Dynamo/Refs/Scan.antt =====
-- refsInExpr of internal/dynamodb/expression.go byte by byte, with its fuel gone.
use kumolo.Prelude.{
  ℕ, zero, suc, ◌≤◌, ◌≡◌, ◌≢◌, refl, ◌∙◌, ap, Bool, true, [], ◌∷◌, ◌++◌, length, All, ◌==◌, arith,
  if◌then◌else◌,
}
use kumolo.Prelude.Bytes.{Bytes}
use kumolo.Dynamo.Lexer.{is_expr_digit, is_word_byte, take_while, drop_while}
use kumolo.Dynamo.Lexer.Words.{length-drop_while, All-take_while}
use kumolo.Dynamo.Refs.{Refs, found_name, found_val, scan_refs, refs_in_expr}

-- One round of the loop, with the rest of the scan as a function.
abbrev pub scan_round : (Bytes → Refs) → ℕ → Bytes → Refs
scan_round scan c s =
    if c == b'#'
    then found_name c (take_while is_word_byte s) (scan (drop_while is_word_byte s))
    else if c == b':'
    then found_val c (take_while is_word_byte s) (scan (drop_while is_word_byte s))
    else scan s

scan_refs-enough :
    (f g : ℕ) (s : Bytes) → length s ≤ f → length s ≤ g → scan_refs f s ≡ scan_refs g s
unfolding scan_refs
scan_refs-enough zero zero s h k = refl
scan_refs-enough zero (suc g) [] h k = refl
scan_refs-enough zero (suc g) (c ∷ s) h k = absurd (omega arith)
scan_refs-enough (suc f) zero [] h k = refl
scan_refs-enough (suc f) zero (c ∷ s) h k = absurd (omega arith)
scan_refs-enough (suc f) (suc g) [] h k = refl
scan_refs-enough (suc f) (suc g) (c ∷ s) h k = rw (
  scan_refs-enough f g s (omega arith) (omega arith),
  scan_refs-enough f g (drop_while is_word_byte s) (omega (arith, length-drop_while is_word_byte s))
      (omega (arith, length-drop_while is_word_byte s)),
)

pub refs_in_expr-cons : (c : ℕ) (s : Bytes) → refs_in_expr (c ∷ s) ≡ scan_round refs_in_expr c s
unfolding scan_refs refs_in_expr
refs_in_expr-cons c s = rw (
    scan_refs-enough (length s) (length (drop_while is_word_byte s)) (drop_while is_word_byte s)
      (length-drop_while is_word_byte s) (omega arith))

-- Bytes that are no marks are passed over.
abbrev pub NoMark : ℕ → Type 0
NoMark c = (c ≢ b'#') × (c ≢ b':')

pub refs_in_expr-skip : (c : ℕ) (s : Bytes) → NoMark c → refs_in_expr (c ∷ s) ≡ refs_in_expr s
refs_in_expr-skip c s h = refs_in_expr-cons c s ∙ ground arith

refs_in_expr-append : (w s : Bytes) → All NoMark w → refs_in_expr (w ++ s) ≡ refs_in_expr s
refs_in_expr-append [] s h = refl
refs_in_expr-append (c ∷ w) s h = refs_in_expr-skip c (w ++ s) h.0 ∙ refs_in_expr-append w s h.1

module _ (p : ℕ → Bool) where
  take_while-drop_while : (s : Bytes) → s ≡ take_while p s ++ drop_while p s
  unfolding take_while drop_while
  take_while-drop_while [] = refl
  take_while-drop_while (c ∷ s) = ground (arith, take_while-drop_while s)

  All-NoMark :
      (w : Bytes) → ((c : ℕ) → p c ≡ true → NoMark c) → All (λ c. p c ≡ true) w → All NoMark w
  All-NoMark [] f h = tt
  All-NoMark (c ∷ w) f h = (f c h.0, All-NoMark w f h.1)

  refs_in_expr-drop_while :
      (s : Bytes)
      → ((c : ℕ) → p c ≡ true → NoMark c)
      → refs_in_expr s ≡ refs_in_expr (drop_while p s)
  refs_in_expr-drop_while s f =
      ap refs_in_expr (take_while-drop_while s)
      ∙ refs_in_expr-append (take_while p s) (drop_while p s)
          (All-NoMark (take_while p s) f (All-take_while p s))

pub word-NoMark : (c : ℕ) → is_word_byte c ≡ true → NoMark c
unfolding is_word_byte
word-NoMark c h = ground arith

pub digit-NoMark : (c : ℕ) → is_expr_digit c ≡ true → NoMark c
unfolding is_expr_digit
digit-NoMark c h = ground arith

pub refs_in_expr-word : (s : Bytes) → refs_in_expr s ≡ refs_in_expr (drop_while is_word_byte s)
refs_in_expr-word s = refs_in_expr-drop_while is_word_byte s word-NoMark

pub refs_in_expr-digits : (s : Bytes) → refs_in_expr s ≡ refs_in_expr (drop_while is_expr_digit s)
refs_in_expr-digits s = refs_in_expr-drop_while is_expr_digit s digit-NoMark
