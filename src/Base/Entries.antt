-- ===== src/Base/Entries.antt =====
-- A Go map from names: an association list, the latest entry first.
use mathlib.Core.Path.{◌≡◌, refl, sym, ap, ◌∙◌, subst}
use mathlib.Core.Logic.{inl, inr}
use mathlib.Core.Bool.{true}
use mathlib.Core.Option.{Option, none, some}
use mathlib.Core.List.{List, [], ◌∷◌}
use native.Mathlib.Omega.{arith}
use nyquist.Base.Tests.{◌==◌, if◌then◌else◌, Bool-cases, ==_iff}
use nyquist.Base.Lists.{Bytes, bytes_eq}

abbrev pub Dict {ℓ} : Type ℓ → Type ℓ
Dict A = List (Bytes × A)

pub bytes_eq_refl : (b : Bytes) → bytes_eq b b ≡ true
bytes_eq_refl [] = refl
bytes_eq_refl (x ∷ b) = ground (arith, bytes_eq_refl b)

pub bytes_eq→eq : (a b : Bytes) → bytes_eq a b ≡ true → a ≡ b
bytes_eq→eq [] [] p = refl
bytes_eq→eq [] (y ∷ b) p = cc
bytes_eq→eq (x ∷ a) [] p = cc
bytes_eq→eq (x ∷ a) (y ∷ b) p = elim (Bool-cases (x == y)) [
  | inl q ↦
      let tails : bytes_eq a b ≡ true = ground (arith, p) in
      let heads : x ≡ y = (==_iff x y).0 q in
      ap (λ n. n ∷ a) heads ∙ ap (λ l. y ∷ l) (bytes_eq→eq a b tails)
  | inr q ↦ absurd (ground (arith, p))
]

module _ {ℓ} {A : Type ℓ} where
  -- `m[s]`, `none` being the zero value of a missing key.
  abbrev pub lookup : Bytes → Dict A → Option A
  lookup s [] = none
  lookup s ((name, a) ∷ dict) = if bytes_eq s name then some a else lookup s dict

  -- Every entry stands under the name that it has itself, and has the property `P`.
  abbrev pub Named : (A → Bytes) → (A → Type 0) → Dict A → Type 0
  Named name_of P [] = Unit
  Named name_of P ((name, a) ∷ dict) = (name_of a ≡ name) × P a × Named name_of P dict

  pub lookup-Named :
      (name_of : A → Bytes) (P : A → Type 0) (dict : Dict A) (s : Bytes) (a : A)
      → Named name_of P dict
      → lookup s dict ≡ some a
      → (name_of a ≡ s) × P a
  lookup-Named name_of P [] s a named p = cc
  lookup-Named name_of P ((name, b) ∷ dict) s a named p = elim (Bool-cases (bytes_eq s name)) [
    | inl q ↦
        let same : b ≡ a = ground (arith, p) in
        (ap name_of (sym same) ∙ named.0 ∙ sym (bytes_eq→eq s name q), subst P same named.1)
    | inr q ↦
        let rest : lookup s dict ≡ some a = ground (arith, p) in
        lookup-Named name_of P dict s a named.2 rest
  ]
