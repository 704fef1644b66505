-- ===== src/Outcome.antt =====
-- What a kernel function comes to: a value, a call of `panic_with_info`, which does not return, or
-- a loop that has not ended within the fuel of the model.
use craybond_os.Base.{ℕ}

-- The message of the panic.
pub data Panic : Type 0 where
  temp_overflow perm_overflow failed_to_load : Panic

pub data Outcome {ℓ} (A : Type ℓ) : Type ℓ where
  done : A → Outcome A
  panic : Panic → ℕ → Outcome A
  out_of_fuel : Outcome A

infixl 5 ◌>>=◌
abbrev pub ◌>>=◌ {ℓ κ} : {A : Type ℓ} {B : Type κ} → Outcome A → (A → Outcome B) → Outcome B
done a >>= f = f a
panic m i >>= f = panic m i
out_of_fuel >>= f = out_of_fuel

-- The run ends: in a panic, or with a value that has the property.
pub data Ensures {ℓ κ} {A : Type ℓ} (P : A → Type κ) : Outcome A → Type (ℓ ⊔ κ) where
  returns : {a : A} → P a → Ensures P (done a)
  panics : {m : Panic} {i : ℕ} → Ensures P (panic m i)

module _ {ℓ κ} {A : Type ℓ} {P : A → Type κ} where
  pub Ensures-bind {ι λ'} :
      {B : Type ι} {Q : B → Type λ'} {m : Outcome A} {f : A → Outcome B}
      → Ensures P m
      → ((a : A) → P a → Ensures Q (f a))
      → Ensures Q (m >>= f)
  Ensures-bind (returns p) k = k _ p
  Ensures-bind panics k = panics

  pub Ensures-map {ι} :
      {Q : A → Type ι} {m : Outcome A} → Ensures P m → ((a : A) → P a → Q a) → Ensures Q m
  Ensures-map (returns p) f = returns (f _ p)
  Ensures-map panics f = panics
