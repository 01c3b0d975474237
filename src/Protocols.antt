-- ===== src/Protocols.antt =====
-- handshakestate.go: NewProtocol, which finds the parts of a protocol by the parts of its name.
pub mod Names
pub mod Registration
pub mod Standard
pub mod Complete
use nyquist.Base.{
  Option, some, List, [], ◌∷◌, Bytes, codes, bytes_eq, Result, ok, err, split, if◌then◌else◌, Dict,
}
use nyquist.Pattern.{Pattern}
use nyquist.Pattern.Registry
use nyquist.Crypto.{Error, Cipher, Hash, Dh, protocol_not_supported}
use nyquist.Dh.Registry as Dhs
use nyquist.Ciphers
use nyquist.Hashes
use nyquist.HandshakeState.{Protocol}

module _ (Aead Keypair PublicKey Rng : Type 0) where
  -- The registries of the four packages.
  pub record Registries : Type 0 where
    pub patterns : Registry.Registry
    pub dhs : Dict (Dh Keypair PublicKey Rng)
    pub ciphers : Dict (Cipher Aead)
    pub hashes : Dict Hash

module _ {Aead Keypair PublicKey Rng : Type 0} where
  -- `pr` if no member of it is nil
  abbrev pub assembled :
      Option Pattern
      → Option (Dh Keypair PublicKey Rng)
      → Option (Cipher Aead)
      → Option Hash
      → Result Error (Protocol Aead Keypair PublicKey Rng)
  assembled (some pa) (some dh) (some cipher) (some hash) =
      ok (record { pattern_of = pa; dh = dh; cipher = cipher; hash = hash })
  assembled _ _ _ _ = err protocol_not_supported

  abbrev pub from_parts :
      Registries Aead Keypair PublicKey Rng
      → List Bytes
      → Result Error (Protocol Aead Keypair PublicKey Rng)
  from_parts regs (prefix ∷ pa ∷ dh ∷ cipher ∷ hash ∷ []) =
      if bytes_eq prefix (codes "Noise")
      then assembled (Registry.from_string pa regs.patterns) (Dhs.from_string dh regs.dhs)
          (Ciphers.from_string cipher regs.ciphers) (Hashes.from_string hash regs.hashes)
      else err protocol_not_supported
  from_parts regs _ = err protocol_not_supported

  -- `NewProtocol`
  unfoldable pub new_protocol :
      Registries Aead Keypair PublicKey Rng
      → Bytes
      → Result Error (Protocol Aead Keypair PublicKey Rng)
  new_protocol regs s = from_parts regs (split b'_' s)
