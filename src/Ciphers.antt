-- ===== src/Ciphers.antt =====
-- cipher/cipher.go: the three ciphers, whose AEADs are third-party code, and the registry.
pub mod Nonces
pub mod Laws
use nyquist.Base.{
  ℕ, zero, suc, ◌/◌, ◌%◌, Option, none, [], ◌∷◌, ◌++◌, Bytes, codes, Result, ok, err, panic, ◌>>=◌,
  replicate, Dict, lookup,
}
use nyquist.Crypto.{Error, Cipher}

-- What the packages chacha20poly1305, bsaes, crypto/cipher and deoxysii export, and the methods of
-- the AEADs that they make.
pub record Aeads (Block Aead : Type 0) : Type 0 where
  pub chacha20poly1305 : Bytes → Result Error Aead
  pub aes_block : Bytes → Result Error Block
  pub gcm : Block → Result Error Aead
  pub deoxysii : Bytes → Result Error Aead
  pub overhead : Aead → ℕ
  pub seal : Aead → Bytes → Bytes → Bytes → Bytes
  pub unseal : Aead → Bytes → Bytes → Bytes → Option Bytes

-- The last so many bytes of a number, and `PutUint64` of encoding/binary's `LittleEndian` and
-- `BigEndian`.
abbrev pub le_bytes : ℕ → ℕ → Bytes
le_bytes zero n = []
le_bytes (suc k) n = (n % 256) ∷ le_bytes k (n / 256)

abbrev pub be_bytes : ℕ → ℕ → Bytes
be_bytes zero n = []
be_bytes (suc k) n = be_bytes k (n / 256) ++ ((n % 256) ∷ [])

abbrev pub put_uint64_le : ℕ → Bytes
put_uint64_le n = le_bytes 8 n

abbrev pub put_uint64_be : ℕ → Bytes
put_uint64_be n = be_bytes 8 n

-- `EncodeNonce` of each cipher, into the end of an array of zeroes.
unfoldable pub encode_chacha_poly : ℕ → Bytes
encode_chacha_poly nonce = replicate 4 0 ++ put_uint64_le nonce

unfoldable pub encode_aes_gcm : ℕ → Bytes
encode_aes_gcm nonce = replicate 4 0 ++ put_uint64_be nonce

unfoldable pub encode_deoxys_ii : ℕ → Bytes
encode_deoxys_ii nonce = replicate 7 0 ++ put_uint64_be nonce

module _ {Block Aead : Type 0} (aeads : Aeads Block Aead) where
  -- `ChaChaPoly`. None of the three is `Rekeyable`.
  unfoldable pub chacha_poly : Cipher Aead
  unfolding encode_chacha_poly
  chacha_poly = record {
    name = codes "ChaChaPoly";
    new = aeads.chacha20poly1305;
    encode_nonce = encode_chacha_poly;
    rekey = none;
    overhead = aeads.overhead;
    seal = aeads.seal;
    unseal = aeads.unseal;
  }

  -- `AESGCM`
  unfoldable pub aes_gcm : Cipher Aead
  unfolding encode_aes_gcm
  aes_gcm = record {
    name = codes "AESGCM";
    new = λ key. aeads.aes_block key >>= aeads.gcm;
    encode_nonce = encode_aes_gcm;
    rekey = none;
    overhead = aeads.overhead;
    seal = aeads.seal;
    unseal = aeads.unseal;
  }

  -- `DeoxysII`
  unfoldable pub deoxys_ii : Cipher Aead
  unfolding encode_deoxys_ii
  deoxys_ii = record {
    name = codes "DeoxysII";
    new = aeads.deoxysii;
    encode_nonce = encode_deoxys_ii;
    rekey = none;
    overhead = aeads.overhead;
    seal = aeads.seal;
    unseal = aeads.unseal;
  }

  -- `supportedCiphers`
  unfoldable pub supported_ciphers : Dict (Cipher Aead)
  unfolding chacha_poly aes_gcm deoxys_ii
  supported_ciphers =
      (codes "ChaChaPoly", chacha_poly)
      ∷ (codes "AESGCM", aes_gcm)
      ∷ (codes "DeoxysII", deoxys_ii)
      ∷ []

module _ {Aead : Type 0} where
  -- `FromString`
  abbrev pub from_string : Bytes → Dict (Cipher Aead) → Option (Cipher Aead)
  from_string s dict = lookup s dict

  -- `Register`
  abbrev pub register : Cipher Aead → Dict (Cipher Aead) → Dict (Cipher Aead)
  register cipher dict = (cipher.name, cipher) ∷ dict
