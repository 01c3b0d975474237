-- ===== src/Crypto.antt =====
-- common.go, and the interfaces of cipher/cipher.go, hash/hash.go and dh/dh.go, as records of the
-- methods that the handshake calls. Implementations call third-party code and are parameters.
use nyquist.Base.{
  ◌*◌, err, none, length-take, inr, leb→le, arith, inl, Bool-cases, ◌≤◌, ℕ, ◌+◌, ◌≡◌, Option, some,
  Bytes, Result, ok, take, length, leb, if◌then◌else◌,
}
use nyquist.Pattern.{Token, Side}

-- The errors of the package and of dh/dh.go, and `external` for those that an interface's implementation returns.
pub data Error : Type 0 where
  nonce_exhausted message_size open_failed invalid_config out_of_order done : Error
  protocol_not_supported invalid_key_size no_existing_key : Error
  truncated_e truncated_s missing_s missing_psk bad_psk : Error
  invalid_token invalid_pre_message_token : Token → Error
  key_not_set : Side → Token → Error
  malformed_private_key malformed_public_key mismatched_public_key : Error
  external : ℕ → Error

-- `cipher.Cipher` with the methods of the `cipher.AEAD` that its `New` returns. `rekey` is `none`
-- where the implementation is not `Rekeyable`. `seal` and `open` are given without `dst`.
pub record Cipher (Aead : Type 0) : Type 0 where
  pub name : Bytes  -- `String`
  pub new : Bytes → Result Error Aead
  pub encode_nonce : ℕ → Bytes
  pub rekey : Option (Bytes → Bytes)
  pub overhead : Aead → ℕ
  pub seal : Aead → Bytes → Bytes → Bytes → Bytes
  pub unseal : Aead → Bytes → Bytes → Bytes → Option Bytes

-- What crypto/cipher documents of an AEAD that `New` made, under a nonce as the cipher encodes it:
-- opening what was sealed under the same nonce and additional data gives the plaintext, and sealing
-- adds `Overhead` bytes. A key of 32 bytes is one.
pub record CipherLaws {Aead : Type 0} (c : Cipher Aead) : Type 0 where
  pub unseal-seal :
      (key : Bytes) (a : Aead) (n : ℕ) (plaintext ad : Bytes)
      → c.new key ≡ ok a
      → c.unseal a (c.encode_nonce n) (c.seal a (c.encode_nonce n) plaintext ad) ad ≡ some plaintext
  pub length-seal :
      (key : Bytes) (a : Aead) (n : ℕ) (plaintext ad : Bytes)
      → c.new key ≡ ok a
      → length (c.seal a (c.encode_nonce n) plaintext ad) ≡ length plaintext + c.overhead a
  pub new_total : (key : Bytes) → length key ≡ 32 → (a : Aead) × (c.new key ≡ ok a)

-- `hash.Hash`: `digest` is `New`, `Write` and `Sum`, and `expand` is what `hkdf.New` reads out, with
-- this hash, from a secret and a salt: the first so many bytes.
pub record Hash : Type 0 where
  pub name : Bytes  -- `String`
  pub size : ℕ
  pub digest : Bytes → Bytes
  pub expand : Bytes → Bytes → ℕ → Bytes

-- A digest has the hash's size, and HKDF gives up to 255 times as many bytes.
pub record HashLaws (h : Hash) : Type 0 where
  pub length-digest : (b : Bytes) → length (h.digest b) ≡ h.size
  pub length-expand :
      (secret salt : Bytes) (n : ℕ) → n ≤ 255 * h.size → length (h.expand secret salt n) ≡ n

-- `dh.DH`, `dh.Keypair` and `dh.PublicKey`. `generate` takes the entropy source and returns it as the
-- call leaves it. A nil public key is `none`.
pub record Dh (Keypair PublicKey Rng : Type 0) : Type 0 where
  pub name : Bytes  -- `String`
  pub size : ℕ
  pub generate : Rng → Result Error Keypair × Rng
  pub parse_private : Bytes → Result Error Keypair
  pub parse_public : Bytes → Result Error PublicKey
  pub to_bytes : PublicKey → Bytes
  pub public : Keypair → PublicKey
  pub agree : Keypair → Option PublicKey → Result Error Bytes
  pub drop_private : Keypair → Keypair

-- A keypair as `GenerateKeypair` or `ParsePrivateKey` returned it. `DropPrivate` makes another one of
-- it, whose public key no longer belongs to its private key.
pub data Made {Keypair PublicKey Rng : Type 0} (d : Dh Keypair PublicKey Rng) (kp : Keypair)
    : Type 0 where
  generated : (rng rng' : Rng) → d.generate rng ≡ (ok kp, rng') → Made d kp
  parsed : (b : Bytes) → d.parse_private b ≡ ok kp → Made d kp

-- What the interface documents: public keys are `Size` bytes and survive serialization, and both
-- parties calculate one shared secret; the calculation with a nil public key is an error.
pub record DhLaws {Keypair PublicKey Rng : Type 0} (d : Dh Keypair PublicKey Rng) : Type 0 where
  pub length-to_bytes : (kp : Keypair) → Made d kp → length (d.to_bytes (d.public kp)) ≡ d.size
  pub parse-to_bytes :
      (kp : Keypair) → Made d kp → d.parse_public (d.to_bytes (d.public kp)) ≡ ok (d.public kp)
  pub agree_comm :
      (a b : Keypair)
      → Made d a
      → Made d b
      → d.agree a (some (d.public b)) ≡ d.agree b (some (d.public a))
  pub agree_nil : (a : Keypair) → (e : Error) × (d.agree a none ≡ err e)

-- The DH function makes a keypair of any entropy source, and calculates a shared secret of any two
-- keypairs that it has made.
pub record DhSupplies {Keypair PublicKey Rng : Type 0} (d : Dh Keypair PublicKey Rng) : Type 0 where
  pub generates : (rng : Rng) → (kp : Keypair) × (rng' : Rng) × (d.generate rng ≡ (ok kp, rng'))
  pub agrees :
      (a b : Keypair)
      → Made d a
      → Made d b
      → (secret : Bytes) × (d.agree a (some (d.public b)) ≡ ok secret)

-- `truncateTo32BytesMax`
unfoldable pub truncate_to_32_bytes_max : Bytes → Bytes
truncate_to_32_bytes_max b = if leb (length b) 32 then b else take 32 b

pub length-truncate : (b : Bytes) → 32 ≤ length b → length (truncate_to_32_bytes_max b) ≡ 32
unfolding truncate_to_32_bytes_max
length-truncate b h = elim (Bool-cases (leb (length b) 32)) [
  | inl p ↦ rw p (omega (arith, leb→le (length b) 32 p))
  | inr p ↦ rw p (length-take 32 b h)
]
