-- ===== src/Base/Outcome.antt =====
-- What a Go function ends with: a value, an error value or a panic; and calls that change a state.
use mathlib.Core.Path.{◌≡◌, ap}

pub data Result {ℓ} (E : Type 0) (A : Type ℓ) : Type ℓ where
  ok : A → Result E A
  err : E → Result E A
  panic : Result E A

infixl 5 ◌>>=◌ ◌>>◌
abbrev pub ◌>>=◌ : {E : Type 0} {A B : Type 0} → Result E A → (A → Result E B) → Result E B
ok a >>= f = f a
err e >>= f = err e
panic >>= f = panic

abbrev pub ◌>>◌ : {E : Type 0} {B : Type 0} → Result E (Unit {0}) → Result E B → Result E B
m >> k = m >>= λ _. k

pub ok-injective : {E : Type 0} {A : Type 0} {a b : A} → ◌≡◌ {A = Result E A} (ok a) (ok b) → a ≡ b
ok-injective {E} {A} {a} {b} p =
    ap (λ (r : Result E A). elim r [ ok x ↦ x | err _ ↦ a | panic ↦ a ]) p
