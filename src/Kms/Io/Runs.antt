-- ===== src/Kms/Io/Runs.antt =====
-- Runs of calls of the storage, step by step.
use kumolo.Prelude.{◌≡◌, ◌∙◌, ap, refl, Bool, true, false, Option, none, some, if◌then◌else◌}
use kumolo.Kms.Disk.{File, holds, Disk}
use kumolo.Kms.Io.{
  KmsError, not_exist, Env, fine, World, Outcome, done, failed, Act, ◌>>=◌, ◌>>◌, fail_if, continue,
  next, with_disk, written, read_json, stat, write_json,
}

run-bind {ℓ κ} :
    {A : Type ℓ} {B : Type κ} (m : Act A) (f : A → Act B) (r : Outcome A) (w w' : World)
    → m w ≡ (r, w')
    → (m >>= f) w ≡ continue f r w'
unfolding ◌>>=◌
run-bind m f r w w' e = ap (λ p. continue f p.0 p.1) e

pub run-bind_done {ℓ κ} :
    {A : Type ℓ} {B : Type κ} (m : Act A) (f : A → Act B) (a : A) (w w' : World)
    → m w ≡ (done a, w')
    → (m >>= f) w ≡ f a w'
run-bind_done m f a w w' e = run-bind m f (done a) w w' e

pub run-bind_failed {ℓ κ} :
    {A : Type ℓ} {B : Type κ} (m : Act A) (f : A → Act B) (x : KmsError) (w w' : World)
    → m w ≡ (failed x, w')
    → (m >>= f) w ≡ (failed x, w')
run-bind_failed m f x w w' e = run-bind m f (failed x) w w' e

pub run-then_done {ℓ} :
    {B : Type ℓ} (m : Act (Unit {0})) (f : Act B) (w w' : World)
    → m w ≡ (done tt, w')
    → (m >> f) w ≡ f w'
unfolding ◌>>◌
run-then_done m f w w' e = run-bind_done m (λ _. f) tt w w' e

pub run-then_failed {ℓ} :
    {B : Type ℓ} (m : Act (Unit {0})) (f : Act B) (x : KmsError) (w w' : World)
    → m w ≡ (failed x, w')
    → (m >> f) w ≡ (failed x, w')
unfolding ◌>>◌
run-then_failed m f x w w' e = run-bind_failed m (λ _. f) x w w' e

-- A guard that lets the call go on, and one that ends it.
pub run-pass {ℓ} :
    {B : Type ℓ} (b : Bool) (x : KmsError) (f : Act B) (w : World)
    → b ≡ false
    → (fail_if b x >> f) w ≡ f w
unfolding ◌>>◌ ◌>>=◌ fail_if
run-pass b x f w e = rw e refl

pub run-stop {ℓ} :
    {B : Type ℓ} (b : Bool) (x : KmsError) (f : Act B) (w : World)
    → b ≡ true
    → (fail_if b x >> f) w ≡ (failed x, w)
unfolding ◌>>◌ ◌>>=◌ fail_if
run-stop b x f w e = rw e refl

pub run-if_true {ℓ} :
    {B : Type ℓ} (b : Bool) (f g : Act B) (w : World) → b ≡ true → (if b then f else g) w ≡ f w
run-if_true b f g w e = rw e refl

pub run-if_false {ℓ} :
    {B : Type ℓ} (b : Bool) (f g : Act B) (w : World) → b ≡ false → (if b then f else g) w ≡ g w
run-if_false b f g w e = rw e refl

module _ (E : Env) where
  pub run-read_json :
      {A : Type 0} (file : Disk → File A) (a : A) (w : World)
      → E.fault w.tick ≡ fine
      → file w.disk ≡ holds a
      → read_json E file w ≡ (done a, next w)
  unfolding read_json
  run-read_json file a w f e = rw (f, e) refl

  pub run-stat :
      {A : Type 0} (file : Disk → File A) (a : A) (w : World)
      → E.fault w.tick ≡ fine
      → file w.disk ≡ holds a
      → stat E file w ≡ (done tt, next w)
  unfolding stat
  run-stat file a w f e = rw (f, e) refl

  pub run-write_json :
      {A : Type 0} (write : File A → Disk → Option Disk) (a : A) (w : World) (d : Disk)
      → E.fault w.tick ≡ fine
      → write (holds a) w.disk ≡ some d
      → write_json E write a w ≡ (done tt, with_disk d (next w))
  unfolding write_json
  run-write_json write a w d f e =
      ap (λ p. (p.0, with_disk p.1 (next w)))
        (ap (λ t. written write a t w.disk) f
          ∙ ap
              (λ o. elim o as (λ _. Outcome (Unit {0}) × Disk) [
                | none ↦ (failed not_exist, w.disk)
                | some d' ↦ (done tt, d')
              ])
              e)
