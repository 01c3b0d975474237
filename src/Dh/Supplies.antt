-- ===== src/Dh/Supplies.antt =====
-- dh/dh.go: GenerateKeypair with a source of entropy that does not fail, and DH of the keypairs that
-- the package makes.
use nyquist.Base.{
  ◌⊎◌, arith, ◌≡◌, ◌≢◌, ℕ, some, Bytes, ok, err, refl, ap, sym, subst, Bool-cases, inl, inr, true,
  false,
}
use nyquist.Crypto.{DhSupplies, Made, mismatched_public_key}
use nyquist.Dh.X448.{generate_448, parse_private_448, parse_public_448, x448}
use nyquist.Dh.{
  Kind, curve25519, curve448, Curve, ReadFull, Keypair, kind_eq, size, generate, read_key, public,
  agree, functions, x25519,
}
use nyquist.Dh.Laws.{Fills, IsKeypair, agree_same, Made-IsKeypair}

-- `io.ReadFull` of a source that never fails.
abbrev pub NeverFails : {Rng : Type 0} → ReadFull Rng → Type 0
NeverFails {Rng} read_full =
    (n : ℕ) (rng : Rng) → (b : Bytes) × (rng' : Rng) × (read_full n rng ≡ (ok b, rng'))

module _ {Rng : Type 0} (curves : Kind → Curve) (read_full : ReadFull Rng) (fills : Fills read_full)
    (never : NeverFails read_full) where
  functions-DhSupplies : (kind : Kind) → DhSupplies (functions curves read_full kind)
  unfolding functions generate public
  functions-DhSupplies kind = record {
    generates = λ rng.
        let (b, rng', filled) = never (size kind) rng in
        (
          record {
            kind = kind;
            raw_private_key = b;
            raw_public_key = (curves kind).scalar_base_mult b;
          },
          rng',
          ap (read_key curves read_full kind) filled,
        );
    agrees = λ a b ma mb. (
      (curves kind).scalar_mult a.raw_private_key
          ((curves kind).scalar_base_mult b.raw_private_key),
      agree_same curves kind a b (Made-IsKeypair curves read_full fills kind a ma)
          (Made-IsKeypair curves read_full fills kind b mb),
    );
  }

  -- If `io.ReadFull` fills its buffer and the source of entropy never fails, then X25519 and X448 make
  -- a keypair whenever they are asked for one, and DH of any two keypairs that GenerateKeypair or
  -- ParsePrivateKey returned gives a shared secret.
  pub x25519_and_x448-DhSupplies :
      DhSupplies (x25519 curves read_full) × DhSupplies (x448 curves read_full)
  unfolding x25519 x448 generate_448 parse_private_448 parse_public_448 functions
  x25519_and_x448-DhSupplies = (functions-DhSupplies curve25519, functions-DhSupplies curve448)

kind_eq_sound : (j k : Kind) → kind_eq j k ≡ true → j ≡ k
kind_eq_sound curve25519 curve25519 p = refl
kind_eq_sound curve448 curve448 p = refl
kind_eq_sound curve25519 curve448 p = cc
kind_eq_sound curve448 curve25519 p = cc

module _ {Rng : Type 0} (curves : Kind → Curve) (read_full : ReadFull Rng)
    (fills : Fills read_full) where
  -- The type assertion of DH.
  asserted :
      (j k : Kind) (a b : Keypair)
      → IsKeypair curves j a
      → IsKeypair curves k b
      → kind_eq j k ≡ false
      → agree curves a (some (public b)) ≡ err mismatched_public_key
  unfolding agree public
  asserted j k a b ia ib apart = ground (arith, ia.kind_of, ib.kind_of)

  -- Let two keypairs be made by the DH functions of the kinds `j` and `k`, `io.ReadFull` filling its
  -- buffer. Either the kinds are the same and DH of the first one and the public key of the second one
  -- returns a secret; or they differ and it returns the error for a mismatched public key.
  pub agree_kinds :
      (j k : Kind) (a b : Keypair)
      → Made (functions curves read_full j) a
      → Made (functions curves read_full k) b
      → ((j ≡ k) × (secret : Bytes) × (agree curves a (some (public b)) ≡ ok secret))
        ⊎ ((j ≢ k) × (agree curves a (some (public b)) ≡ err mismatched_public_key))
  agree_kinds j k a b ma mb = elim (Bool-cases (kind_eq j k)) [
    | inl p ↦
        let same = kind_eq_sound j k p in
        inl (
          same,
          (curves j).scalar_mult a.raw_private_key ((curves j).scalar_base_mult b.raw_private_key),
          agree_same curves j a b ia (subst (λ t. IsKeypair curves t b) (sym same) ib),
        )
    | inr p ↦ inr (apart_kinds j k p, asserted j k a b ia ib p)
  ]
    where
      ia : IsKeypair curves j a
      ia = Made-IsKeypair curves read_full fills j a ma

      ib : IsKeypair curves k b
      ib = Made-IsKeypair curves read_full fills k b mb

      apart_kinds : (j k : Kind) → kind_eq j k ≡ false → j ≢ k
      apart_kinds curve25519 curve25519 p q = cc
      apart_kinds curve448 curve448 p q = cc
      apart_kinds curve25519 curve448 p q = cc
      apart_kinds curve448 curve25519 p q = cc
