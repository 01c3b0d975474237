-- ===== src/Dh/Registry.antt =====
-- dh/dh.go: the registry of DH functions.
use nyquist.Base.{Option, [], ◌∷◌, Bytes, codes, Dict, lookup}
use nyquist.Crypto.{Dh}
use nyquist.Dh.{Kind, Curve, ReadFull, PublicKey, Keypair, x25519}
use nyquist.Dh.X448.{x448}

-- `supportedDHs`
unfoldable pub supported_dhs :
    {Rng : Type 0} → (Kind → Curve) → ReadFull Rng → Dict (Dh Keypair PublicKey Rng)
unfolding x25519 x448
supported_dhs curves read_full =
    (codes "25519", x25519 curves read_full) ∷ (codes "448", x448 curves read_full) ∷ []

module _ {Keypair PublicKey Rng : Type 0} where
  -- `FromString`
  abbrev pub from_string :
      Bytes → Dict (Dh Keypair PublicKey Rng) → Option (Dh Keypair PublicKey Rng)
  from_string s dict = lookup s dict

  -- `Register`
  abbrev pub register :
      Dh Keypair PublicKey Rng → Dict (Dh Keypair PublicKey Rng) → Dict (Dh Keypair PublicKey Rng)
  register dh dict = (dh.name, dh) ∷ dict
