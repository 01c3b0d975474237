-- ===== src/Pattern/Registry/Lookup.antt =====
-- pattern/pattern.go: what FromString finds after Register.
use nyquist.Base.{
  ◌≡◌, ◌≢◌, some, ◌∷◌, Bytes, bytes_eq, bytes_eq_refl, bytes_eq→eq, Result, ok, err, panic, ◌>>◌,
  refl, subst, Bool-cases, inl, inr, ok-injective,
}
use nyquist.Pattern.{Pattern, PatternError}
use nyquist.Pattern.Validity.{is_valid}
use nyquist.Pattern.Registry.{Registry, from_string, register}

registered :
    (pa : Pattern) (reg reg' : Registry) → register pa reg ≡ ok reg' → (pa.name, pa) ∷ reg ≡ reg'
unfolding register
registered pa reg reg' p = go (is_valid pa) p
  where
    go :
        (r : Result PatternError (Unit {0}))
        → (do r; ok ((pa.name, pa) ∷ reg)) ≡ ok reg'
        → (pa.name, pa) ∷ reg ≡ reg'
    go (ok tt) q = ok-injective q
    go (err e) q = cc
    go panic q = cc

-- After Register of a pattern returned no error, FromString of its name returns it, whatever was there
-- before, and FromString of any other name returns what it did.
pub from_string-register :
    (pa : Pattern) (s : Bytes) (reg reg' : Registry)
    → s ≢ pa.name
    → register pa reg ≡ ok reg'
    → (from_string pa.name reg' ≡ some pa) × (from_string s reg' ≡ from_string s reg)
from_string-register pa s reg reg' another p =
    subst (λ t. (from_string pa.name t ≡ some pa) × (from_string s t ≡ from_string s reg))
      (registered pa reg reg' p)
      (
        rw (bytes_eq_refl pa.name) refl,
        elim (Bool-cases (bytes_eq s pa.name)) [
          | inl q ↦ absurd (another (bytes_eq→eq s pa.name q))
          | inr q ↦ rw q refl
        ],
      )
