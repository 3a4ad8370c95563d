-- ===== src/Kms/Io/Triple.antt =====
-- Reasoning about calls of the storage: an invariant of the disk that a call keeps, however its
-- operating system calls go, and what holds of the value that it returns.
use kumolo.Prelude.{
  ℕ, ◌≡◌, refl, Option-cases, Bool, true, false, Option, some, inl, inr, if◌then◌else◌,
}
use kumolo.Prelude.Bytes.{Bytes}
use kumolo.Kms.Disk.{File, absent, torn, holds, Disk}
use kumolo.Kms.Io.{
  KmsError, Env, Fault, fine, refused, half_done, unclosed, World, Outcome, done, failed, Act, pure,
  fail, ◌>>=◌, ◌>>◌, attempt, fail_if, continue, answer, contents, written, removed, changed,
  read_json, stat, write_json, remove_file, change_dir, list_dir, rand_read, now_unix,
  generate_key_pair,
}

abbrev pub OnDone {ℓ} : {A : Type ℓ} → (A → Type 0) → Outcome A → Type 0
OnDone Q (done a) = Q a
OnDone Q (failed e) = Unit

-- From every world whose disk is an `I`, the call leaves an `I`, and what it returns is a `Q`.
abbrev pub Yields {ℓ} : {A : Type ℓ} → (Disk → Type 0) → (A → Type 0) → Act A → Type 0
Yields I Q m = (w : World) → I w.disk → I (m w).1.disk × OnDone Q (m w).0

abbrev pub Any {ℓ} : {A : Type ℓ} → A → Type 0
Any a = Unit

pub OnDone-Any {ℓ} : {A : Type ℓ} (r : Outcome A) → OnDone Any r
OnDone-Any (done a) = tt
OnDone-Any (failed e) = tt

abbrev pub Keeps {ℓ} : {A : Type ℓ} → (Disk → Type 0) → Act A → Type 0
Keeps I m = Yields I Any m

module _ (I : Disk → Type 0) where
  pub Yields-pure {ℓ} : {A : Type ℓ} (Q : A → Type 0) (a : A) → Q a → Yields I Q (pure a)
  unfolding pure
  Yields-pure Q a q w h = (h, q)

  pub Yields-fail {ℓ} : {A : Type ℓ} (Q : A → Type 0) (e : KmsError) → Yields I Q (fail e)
  unfolding fail
  Yields-fail Q e w h = (h, tt)

  pub Yields-bind {ℓ κ} :
      {A : Type ℓ} {B : Type κ} (Q : A → Type 0) (S : B → Type 0) (m : Act A) (f : A → Act B)
      → Yields I Q m
      → ((a : A) → Q a → Yields I S (f a))
      → Yields I S (m >>= f)
  unfolding ◌>>=◌
  Yields-bind {A = A} Q S m f hm hf w h = step (m w).0 (hm w h).0 (hm w h).1
    where
      step :
          (r : Outcome A)
          → I (m w).1.disk
          → OnDone Q r
          → I (continue f r (m w).1).1.disk × OnDone S (continue f r (m w).1).0
      step (done a) i q = hf a q (m w).1 i
      step (failed e) i q = (i, tt)

  pub Yields-then {ℓ} :
      {B : Type ℓ} (Q : Unit {0} → Type 0) (S : B → Type 0) (m : Act (Unit {0})) (f : Act B)
      → Yields I Q m
      → Yields I S f
      → Yields I S (m >> f)
  unfolding ◌>>◌ ◌>>=◌
  Yields-then Q S m f hm hf = Yields-bind Q S m (λ _. f) hm (λ _ _. hf)

  pub Yields-attempt {ℓ} :
      {A : Type ℓ} (Q : A → Type 0) (m : Act A) → Yields I Q m → Yields I (OnDone Q) (attempt m)
  unfolding attempt
  Yields-attempt Q m h w i = h w i

  -- A call whose error is answered by another call.
  pub Yields-caught {ℓ κ} :
      {A : Type ℓ} {B : Type κ} (Q : A → Type 0) (S : B → Type 0) (m : Act A)
      (f : Outcome A → Act B)
      → Yields I Q m
      → ((a : A) → Q a → Yields I S (f (done a)))
      → ((e : KmsError) → Yields I S (f (failed e)))
      → Yields I S (attempt m >>= f)
  Yields-caught {A = A} Q S m f hm hd hf =
      Yields-bind (OnDone Q) S (attempt m) f (Yields-attempt Q m hm) by_outcome
    where
      by_outcome : (r : Outcome A) → OnDone Q r → Yields I S (f r)
      by_outcome (done a) q = hd a q
      by_outcome (failed e) q = hf e

  pub Yields-if {ℓ} :
      {A : Type ℓ} (Q : A → Type 0) (b : Bool) (m n : Act A)
      → (b ≡ true → Yields I Q m)
      → (b ≡ false → Yields I Q n)
      → Yields I Q (if b then m else n)
  Yields-if Q true m n hm hn = hm refl
  Yields-if Q false m n hm hn = hn refl

  -- A guard that lets the call go on tells that its test is false.
  Yields-fail_if : (b : Bool) (e : KmsError) → Yields I (λ _. b ≡ false) (fail_if b e)
  unfolding fail_if
  Yields-fail_if true e w h = (h, tt)
  Yields-fail_if false e w h = (h, refl)

  pub Yields-guard {ℓ} :
      {B : Type ℓ} (S : B → Type 0) (b : Bool) (e : KmsError) (f : Act B)
      → (b ≡ false → Yields I S f)
      → Yields I S (fail_if b e >> f)
  unfolding ◌>>◌
  Yields-guard S b e f h =
      Yields-bind (λ _. b ≡ false) S (fail_if b e) (λ _. f) (Yields-fail_if b e) (λ _ p. h p)

  module _ (E : Env) where
    pub Yields-read_json :
        {A : Type 0} (Q : A → Type 0) (file : Disk → File A)
        → ((d : Disk) → I d → (a : A) → file d ≡ holds a → Q a)
        → Yields I Q (read_json E file)
    unfolding read_json
    Yields-read_json {A = A} Q file h w i = (i, by_fault (E.fault w.tick) (file w.disk) refl)
      where
        by_fault : (t : Fault) (f : File A) → file w.disk ≡ f → OnDone Q (answer t (contents f))
        by_fault fine absent e = tt
        by_fault fine torn e = tt
        by_fault fine (holds a) e = h w.disk i a e
        by_fault refused f e = tt
        by_fault half_done f e = tt
        by_fault unclosed f e = tt

    pub Keeps-stat : {A : Type 0} (file : Disk → File A) → Keeps I (stat E file)
    unfolding stat
    Keeps-stat file w i = (i, OnDone-Any _)

    pub Keeps-write_json :
        {A : Type 0} (write : File A → Disk → Option Disk) (a : A)
        → ((d d' : Disk) → I d → write (holds a) d ≡ some d' → I d')
        → ((d d' : Disk) → I d → write torn d ≡ some d' → I d')
        → Keeps I (write_json E write a)
    unfolding write_json
    Keeps-write_json write a hw ht w i = (by_fault (E.fault w.tick), OnDone-Any _)
      where
        by_fault : (t : Fault) → I (written write a t w.disk).1
        by_fault fine = elim (Option-cases (write (holds a) w.disk)) [
          | inl e ↦ rw (written, e) i
          | inr (d, e) ↦ rw (written, e) (hw w.disk d i e)
        ]
        by_fault refused = i
        by_fault unclosed = elim (Option-cases (write (holds a) w.disk)) [
          | inl e ↦ rw (written, e) i
          | inr (d, e) ↦ rw (written, e) (hw w.disk d i e)
        ]
        by_fault half_done = elim (Option-cases (write torn w.disk)) [
          | inl e ↦ rw (written, e) i
          | inr (d, e) ↦ rw (written, e) (ht w.disk d i e)
        ]

    pub Keeps-remove_file :
        {A : Type 0} (file : Disk → File A) (clear : Disk → Disk)
        → ((d : Disk) → I d → I (clear d))
        → Keeps I (remove_file E file clear)
    unfolding remove_file
    Keeps-remove_file {A = A} file clear h w i =
        (by_fault (E.fault w.tick) (file w.disk) refl, OnDone-Any _)
      where
        by_fault : (t : Fault) (f : File A) → file w.disk ≡ f → I (removed file clear t w.disk).1
        by_fault fine absent e = rw (removed, e) i
        by_fault fine torn e = rw (removed, e) (h w.disk i)
        by_fault fine (holds a) e = rw (removed, e) (h w.disk i)
        by_fault refused f e = i
        by_fault half_done f e = i
        by_fault unclosed f e = i

    pub Keeps-change_dir :
        (f : Disk → Outcome Disk)
        → ((d d' : Disk) → I d → f d ≡ done d' → I d')
        → Keeps I (change_dir E f)
    unfolding change_dir
    Keeps-change_dir f h w i = (by_fault (E.fault w.tick) (f w.disk) refl, OnDone-Any _)
      where
        by_fault : (t : Fault) (r : Outcome Disk) → f w.disk ≡ r → I (changed f t w.disk).1
        by_fault fine (done d) e = rw (changed, e) (h w.disk d i e)
        by_fault fine (failed x) e = rw (changed, e) i
        by_fault refused r e = i
        by_fault half_done r e = i
        by_fault unclosed r e = i

    -- What holds of the disk before a directory is changed.
    pub Yields-change_dir :
        (Q : Unit {0} → Type 0) (f : Disk → Outcome Disk)
        → ((d d' : Disk) → I d → f d ≡ done d' → I d')
        → ((d d' : Disk) → I d → f d ≡ done d' → Q tt)
        → Yields I Q (change_dir E f)
    unfolding change_dir
    Yields-change_dir Q f h q w i = by_fault (E.fault w.tick) (f w.disk) refl
      where
        by_fault :
            (t : Fault) (r : Outcome Disk)
            → f w.disk ≡ r
            → I (changed f t w.disk).1 × OnDone Q (changed f t w.disk).0
        by_fault fine (done d) e = rw (changed, e) (h w.disk d i e, q w.disk d i e)
        by_fault fine (failed x) e = rw (changed, e) (i, tt)
        by_fault refused r e = (i, tt)
        by_fault half_done r e = (i, tt)
        by_fault unclosed r e = (i, tt)

    pub Keeps-list_dir {ℓ} : {A : Type ℓ} (dir : Disk → Outcome A) → Keeps I (list_dir E dir)
    unfolding list_dir
    Keeps-list_dir dir w i = (i, OnDone-Any _)

    pub Keeps-rand_read : (n : ℕ) → Keeps I (rand_read E n)
    unfolding rand_read
    Keeps-rand_read n w i = (i, OnDone-Any _)

    pub Keeps-now_unix : Keeps I (now_unix E)
    unfolding now_unix
    Keeps-now_unix w i = (i, tt)

    pub Keeps-generate_key_pair : (spec : Bytes) → Keeps I (generate_key_pair E spec)
    unfolding generate_key_pair
    Keeps-generate_key_pair spec w i = (i, OnDone-Any _)
