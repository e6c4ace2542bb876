-- ===== src/Run.antt =====
-- What running a piece of the code can come to: a result, an access outside the buffer, or a loop
-- that does not end.
use micro_posix.Prelude.{refl, Bool, true, false, ◌≡◌, if◌then◌else◌}

pub data Run {ℓ} (A : Type ℓ) : Type ℓ where
  ret : A → Run A
  fault : Run A
  hang : Run A

infixl 5 ◌>>=◌
abbrev pub ◌>>=◌ {ℓ κ} : {A : Type ℓ} {B : Type κ} → Run A → (A → Run B) → Run B
ret a >>= f = f a
fault >>= f = fault
hang >>= f = hang

-- The run gives a result, and `P` holds of it.
pub data Returns {ℓ κ} {A : Type ℓ} (P : A → Type κ) : Run A → Type (ℓ ⊔ κ) where
  returns : {a : A} → P a → Returns P (ret a)

module _ {ℓ κ ℓ' κ'} {A : Type ℓ} {P : A → Type κ} {B : Type ℓ'} {Q : B → Type κ'} where
  pub Returns-bind :
      {m : Run A} {f : A → Run B}
      → Returns P m
      → ((a : A) → P a → Returns Q (f a))
      → Returns Q (m >>= f)
  Returns-bind (returns {a} h) k = k a h

module _ {ℓ κ} {A : Type ℓ} {P Q : A → Type κ} where
  pub Returns-map : {m : Run A} → ((a : A) → P a → Q a) → Returns P m → Returns Q m
  Returns-map f (returns {a} h) = returns (f a h)

module _ {ℓ κ} {A : Type ℓ} {P : A → Type κ} where
  pub Returns-if :
      (b : Bool) {x y : Run A}
      → (b ≡ true → Returns P x)
      → (b ≡ false → Returns P y)
      → Returns P (if b then x else y)
  Returns-if true hx hy = hx refl
  Returns-if false hx hy = hy refl

  pub Returns-ret : {m : Run A} → Returns P m → (a : A) × (m ≡ ret a) × P a
  Returns-ret (returns {a} h) = (a, refl, h)
