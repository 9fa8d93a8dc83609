-- ===== src/Prelude/Panics.antt =====
-- The result of Go code that may panic (a nil dereference, an index out of range). Errors that the
-- code returns as values are values of `A`.
use mathlib.Core.Path.{◌≡◌, ap}

pub data Outcome {ℓ} (A : Type ℓ) : Type ℓ where
  panic : Outcome A
  ok : A → Outcome A

infixl 5 ◌>>=◌
abbrev pub ◌>>=◌ {ℓ κ} : {A : Type ℓ} {B : Type κ} → Outcome A → (A → Outcome B) → Outcome B
panic >>= f = panic
ok a >>= f = f a

pub ok-injective {ℓ} : {A : Type ℓ} {a b : A} → ok a ≡ ok b → a ≡ b
ok-injective e = cc

pub bind_ok {ℓ κ} :
    {A : Type ℓ} {B : Type κ} {m : Outcome A} {a : A} (f : A → Outcome B)
    → m ≡ ok a
    → (m >>= f) ≡ f a
bind_ok f e = ap (λ x. x >>= f) e
