-- ===== src/Base/Exec.antt =====
-- Methods that change an object and may fail. What was written before a failure stays written, so
-- the object comes back beside the error too.
use nyquist.Base.{panic, err, ok, refl}
use mathlib.Core.Path.{◌≡◌, refl, ap}
use nyquist.Base.Outcome.{Result, ok, err, panic}

abbrev pub Exec : Type 0 → Type 0 → Type 0 → Type 0
Exec E S A = S → Result E A × S

module _ {E S A : Type 0} where
  abbrev pub pure : A → Exec E S A
  pure a s = (ok a, s)

  abbrev pub crash : Exec E S A
  crash s = (panic, s)

infixl 5 ◌>>=◌ ◌>>◌
abbrev pub ◌>>=◌ : {E S A B : Type 0} → Exec E S A → (A → Exec E S B) → Exec E S B
◌>>=◌ m f s =
    let (r, s') = m s in elim r [ ok a ↦ f a s' | err e ↦ (err e, s') | panic ↦ (panic, s') ]

abbrev pub ◌>>◌ : {E S A B : Type 0} → Exec E S A → Exec E S B → Exec E S B
m >> k = m >>= λ _. k

module _ {E S A B : Type 0} where
  -- A bind that succeeded, taken apart.
  pub bind_ok :
      (m : Exec E S A) (f : A → Exec E S B) (s s'' : S) (b : B)
      → (m >>= f) s ≡ (ok b, s'')
      → (a : A) × (s' : S) × (m s ≡ (ok a, s')) × (f a s' ≡ (ok b, s''))
  bind_ok m f s s'' b h = go (m s) refl h
    where
      go :
          (t : Result E A × S)
          → m s ≡ t
          → ◌≡◌ {A = Result E B × S}
              (elim t.0 [ ok a ↦ f a t.1 | err e ↦ (err e, t.1) | panic ↦ (panic, t.1) ])
              (ok b, s'')
          → (a : A) × (s' : S) × (m s ≡ (ok a, s')) × (f a s' ≡ (ok b, s''))
      go (ok a, s') p h = (a, s', p, h)
      go (err e, s') p h = cc
      go (panic, s') p h = cc

  -- A bind whose first part succeeds goes on with the second.
  pub bind_same :
      (m : Exec E S A) (f : A → Exec E S B) (s s' : S) (a : A)
      → m s ≡ (ok a, s')
      → (m >>= f) s ≡ f a s'
  bind_same m f s s' a p =
      ap {B = Result E B × S}
        (λ (t : Result E A × S). elim t.0 [
          | ok a ↦ f a t.1
          | err e ↦ (err e, t.1)
          | panic ↦ (panic, t.1)
        ])
        p
