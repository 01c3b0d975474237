-- ===== src/Hashes.antt =====
-- hash/hash.go: the four hash functions, which are third-party code, and the registry.
pub mod Laws
use nyquist.Base.{ℕ, Option, [], ◌∷◌, Bytes, codes, Dict, lookup}
use nyquist.Crypto.{Hash}

-- What the packages crypto/sha256, crypto/sha512, blake2s and blake2b export, `Size` and a `New` hash
-- that is written to and summed, and golang.org/x/crypto/hkdf over such a hash.
pub record Digest : Type 0 where
  pub size : ℕ
  pub sum : Bytes → Bytes

pub record Digests : Type 0 where
  pub sha256 : Digest
  pub sha512 : Digest
  pub blake2s : Digest
  pub blake2b : Digest
  pub hkdf : Digest → Bytes → Bytes → ℕ → Bytes

module _ (digests : Digests) where
  -- `SHA256`
  unfoldable pub sha256 : Hash
  sha256 = record {
    name = codes "SHA256";
    size = digests.sha256.size;
    digest = digests.sha256.sum;
    expand = digests.hkdf digests.sha256;
  }

  -- `SHA512`
  unfoldable pub sha512 : Hash
  sha512 = record {
    name = codes "SHA512";
    size = digests.sha512.size;
    digest = digests.sha512.sum;
    expand = digests.hkdf digests.sha512;
  }

  -- `BLAKE2s`
  unfoldable pub blake2s : Hash
  blake2s = record {
    name = codes "BLAKE2s";
    size = digests.blake2s.size;
    digest = digests.blake2s.sum;
    expand = digests.hkdf digests.blake2s;
  }

  -- `BLAKE2b`
  unfoldable pub blake2b : Hash
  blake2b = record {
    name = codes "BLAKE2b";
    size = digests.blake2b.size;
    digest = digests.blake2b.sum;
    expand = digests.hkdf digests.blake2b;
  }

  -- `supportedHashes`
  unfoldable pub supported_hashes : Dict Hash
  unfolding sha256 sha512 blake2s blake2b
  supported_hashes =
      (codes "SHA256", sha256)
      ∷ (codes "SHA512", sha512)
      ∷ (codes "BLAKE2s", blake2s)
      ∷ (codes "BLAKE2b", blake2b)
      ∷ []

-- `FromString`
abbrev pub from_string : Bytes → Dict Hash → Option Hash
from_string s dict = lookup s dict

-- `Register`
abbrev pub register : Hash → Dict Hash → Dict Hash
register hash dict = (hash.name, hash) ∷ dict
