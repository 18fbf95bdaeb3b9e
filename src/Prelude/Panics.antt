-- ===== src/Prelude/Panics.antt =====
-- Go code that may panic: it returns a value, or the run-time stops it.
use mathlib.Core.Path.{◌≡◌, refl}

pub data Run {ℓ} (A : Type ℓ) : Type ℓ where
  done : A → Run A
  panic : Run A

infixl 5 ◌>>=◌
abbrev pub ◌>>=◌ {ℓ κ} : {A : Type ℓ} {B : Type κ} → Run A → (A → Run B) → Run B
done a >>= f = f a
panic >>= f = panic

abbrev pub panics {ℓ κ} : {A : Type ℓ} {B : Type κ} → A → Run B
panics a = panic

pub >>=-panic {ℓ κ} : {A : Type ℓ} {B : Type κ} (m : Run A) → (m >>= panics {B = B}) ≡ panic
>>=-panic (done a) = refl
>>=-panic panic = refl

pub >>=-eq-done {ℓ κ} :
    {A : Type ℓ} {B : Type κ} (m : Run A) (f : A → Run B) {b : B}
    → (m >>= f) ≡ done b
    → (a : A) × (m ≡ done a) × (f a ≡ done b)
>>=-eq-done (done a) f h = (a, refl, h)
>>=-eq-done panic f h = cc
