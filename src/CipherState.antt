-- ===== src/CipherState.antt =====
-- cipherstate.go. The immutable field `cipher` is the section's parameter; a call that changes the
-- object returns the new one, beside its error if it has one.
pub mod Invariant
pub mod RoundTrip
pub mod Nonces
pub mod Rekeying
use nyquist.Base.{
  zero, ℕ, ◌+◌, ◌-◌, ◌^◌, ◌%◌, Bool, true, false, ◌&&◌, not, Option, none, some, [], ◌++◌, Bytes,
  Result, ok, err, panic, length, replicate, is_some, ltb, ◌==◌, if◌then◌else◌,
}
use nyquist.Crypto.{
  Error, nonce_exhausted, message_size, open_failed, invalid_key_size, no_existing_key, Cipher,
  truncate_to_32_bytes_max,
}

-- `SymmetricKeySize`
abbrev pub symmetric_key_size : ℕ
symmetric_key_size = 32

-- `math.MaxUint64`
abbrev pub maxnonce : ℕ
maxnonce = 2 ^ 64 - 1

abbrev pub zeroes : Bytes
zeroes = replicate 32 0

-- `CipherState`. The size limit is never negative where the package sets it; 0 is no limit.
pub record CipherState (Aead : Type 0) : Type 0 where
  pub aead : Option Aead
  pub k : Option Bytes
  pub n : ℕ  -- uint64
  pub max_message_size : ℕ
  pub aead_overhead : ℕ

module _ {Aead : Type 0} where
  -- `newCipherState`
  unfoldable pub new_cipher_state : ℕ → CipherState Aead
  new_cipher_state max_message_size = record {
    aead = none;
    k = none;
    n = 0;
    max_message_size = max_message_size;
    aead_overhead = 0;
  }

  -- `HasKey`
  abbrev pub has_key : CipherState Aead → Bool
  has_key cs = is_some cs.aead

  -- `SetNonce`
  unfoldable pub set_nonce : ℕ → CipherState Aead → CipherState Aead
  set_nonce nonce cs = record cs { n = nonce }

  -- `Reset`
  unfoldable pub reset : CipherState Aead → CipherState Aead
  reset cs = elim cs.aead [
    | none ↦ record cs { k = none }
    | some _ ↦ record cs { k = none; aead = none; aead_overhead = 0 }
  ]

module _ {Aead : Type 0} (cipher : Cipher Aead) where
  -- `aead.Overhead()`, and 0 for an unkeyed state.
  abbrev pub overhead_of : Option Aead → ℕ
  overhead_of none = 0
  overhead_of (some a) = cipher.overhead a

  -- The assignments behind `cipher.New(key)`.
  abbrev keyed :
      Bytes → Result Error Aead → CipherState Aead → Result Error (Unit {0}) × CipherState Aead
  keyed key (ok aead) cs =
      (ok tt, record cs { aead = some aead; aead_overhead = cipher.overhead aead; k = some key })
  keyed key (err e) cs = (err e, record cs { aead = none })
  keyed key panic cs = (panic, cs)

  -- `setKey`
  unfoldable pub set_key : Bytes → CipherState Aead → Result Error (Unit {0}) × CipherState Aead
  unfolding reset
  set_key key cs =
      if length key == 0
      then (ok tt, reset cs)
      else if length key == symmetric_key_size
      then keyed key (cipher.new key) (reset cs)
      else (err invalid_key_size, reset cs)

  abbrev pub initialized :
      Result Error (Unit {0}) × CipherState Aead → Result Error (CipherState Aead)
  initialized (ok _, cs) = ok (record cs { n = 0 })
  initialized (err e, cs) = panic
  initialized (panic, cs) = panic

  -- `InitializeKey`
  unfoldable pub initialize_key : Bytes → CipherState Aead → Result Error (CipherState Aead)
  unfolding set_key
  initialize_key key cs = initialized (set_key key cs)

  abbrev encrypt_keyed :
      Option Aead → Bytes → Bytes → Bytes → CipherState Aead → Result Error Bytes × CipherState Aead
  encrypt_keyed none dst ad plaintext cs = (ok (dst ++ plaintext), cs)
  encrypt_keyed (some aead) dst ad plaintext cs =
      if cs.n == maxnonce
      then (err nonce_exhausted, cs)
      else if ltb 0 cs.max_message_size
          && ltb cs.max_message_size (length plaintext + cs.aead_overhead)
      then (err message_size, cs)
      else (
        ok (dst ++ cipher.seal aead (cipher.encode_nonce cs.n) plaintext ad),
        record cs { n = (cs.n + 1) % 2 ^ 64 },
      )

  -- `EncryptWithAd`
  unfoldable pub encrypt_with_ad :
      Bytes → Bytes → Bytes → CipherState Aead → Result Error Bytes × CipherState Aead
  encrypt_with_ad dst ad plaintext cs = encrypt_keyed cs.aead dst ad plaintext cs

  abbrev opened : Option Bytes → Bytes → CipherState Aead → Result Error Bytes × CipherState Aead
  opened none dst cs = (err open_failed, cs)
  opened (some plaintext) dst cs = (ok (dst ++ plaintext), record cs { n = (cs.n + 1) % 2 ^ 64 })

  abbrev decrypt_keyed :
      Option Aead → Bytes → Bytes → Bytes → CipherState Aead → Result Error Bytes × CipherState Aead
  decrypt_keyed none dst ad ciphertext cs = (ok (dst ++ ciphertext), cs)
  decrypt_keyed (some aead) dst ad ciphertext cs =
      if cs.n == maxnonce
      then (err nonce_exhausted, cs)
      else if ltb 0 cs.max_message_size && ltb cs.max_message_size (length ciphertext)
      then (err message_size, cs)
      else opened (cipher.unseal aead (cipher.encode_nonce cs.n) ciphertext ad) dst cs

  -- `DecryptWithAd`
  unfoldable pub decrypt_with_ad :
      Bytes → Bytes → Bytes → CipherState Aead → Result Error Bytes × CipherState Aead
  decrypt_with_ad dst ad ciphertext cs = decrypt_keyed cs.aead dst ad ciphertext cs

  abbrev bytes_of : Option Bytes → Bytes
  bytes_of none = []
  bytes_of (some k) = k

  -- The new key of `Rekey`: the cipher's own function, or the generic one.
  abbrev new_key : Option (Bytes → Bytes) → Aead → CipherState Aead → Bytes
  new_key (some rekey) aead cs = rekey (bytes_of cs.k)
  new_key none aead cs =
      truncate_to_32_bytes_max (cipher.seal aead (cipher.encode_nonce maxnonce) zeroes [])

  abbrev rekey_keyed : Option Aead → CipherState Aead → Result Error (Unit {0}) × CipherState Aead
  unfolding set_key
  rekey_keyed none cs = (err no_existing_key, cs)
  rekey_keyed (some aead) cs = set_key (new_key cipher.rekey aead cs) cs

  -- `Rekey`
  unfoldable pub rekey : CipherState Aead → Result Error (Unit {0}) × CipherState Aead
  unfolding set_key truncate_to_32_bytes_max
  rekey cs = rekey_keyed cs.aead cs
