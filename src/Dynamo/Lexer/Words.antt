-- ===== src/Dynamo/Lexer/Words.antt =====
-- What the inner loops of tokenizeExpr pass and leave.
use kumolo.Prelude.{ℕ, ◌≤◌, ◌≡◌, ap, Bool, true, false, [], ◌∷◌, ◌++◌, length, arith, All}
use kumolo.Prelude.Bytes.{Bytes}
use kumolo.Dynamo.Lexer.{take_while, drop_while}

module _ (p : ℕ → Bool) where
  pub length-drop_while : (s : Bytes) → length (drop_while p s) ≤ length s
  unfolding drop_while
  length-drop_while [] = omega arith
  length-drop_while (c ∷ s) = ground (arith, length-drop_while s)

  -- Every byte that the loop passes is one that it may pass.
  pub All-take_while : (s : Bytes) → All (λ c. p c ≡ true) (take_while p s)
  unfolding take_while
  All-take_while [] = tt
  All-take_while (c ∷ s) = ground (arith, All-take_while s)

  -- Before a byte that stops it, the loop passes a word whole.
  pub take_while-word :
      (w : Bytes) (c : ℕ) (s : Bytes)
      → All (λ c. p c ≡ true) w
      → p c ≡ false
      → take_while p (w ++ c ∷ s) ≡ w
  unfolding take_while
  take_while-word [] c s h stop = rw stop
  take_while-word (d ∷ w) c s h stop = rw h.0 (ap (λ w'. d ∷ w') (take_while-word w c s h.1 stop))

  pub drop_while-word :
      (w : Bytes) (c : ℕ) (s : Bytes)
      → All (λ c. p c ≡ true) w
      → p c ≡ false
      → drop_while p (w ++ c ∷ s) ≡ c ∷ s
  unfolding drop_while
  drop_while-word [] c s h stop = rw stop
  drop_while-word (d ∷ w) c s h stop = rw h.0 (drop_while-word w c s h.1 stop)
