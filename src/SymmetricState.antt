-- ===== src/SymmetricState.antt =====
-- symmetricstate.go. The fields `cipher`, `hash` and `hashLen` never change and are the section's
-- parameters (`hashLen` is `hash.size`); `cs` is `none` after `Reset`.
pub mod Invariant
pub mod RoundTrip
pub mod Errorless
pub mod Panics
pub mod Progress
use nyquist.Base.{
  ℕ, zero, suc, ◌+◌, ◌-◌, Option, none, some, List, [], ◌∷◌, ◌++◌, Bytes, Result, ok, err, panic,
  ◌>>=◌, take, drop, length, leb, replicate, ◌==◌, if◌then◌else◌,
}
use nyquist.Crypto.{Error, Cipher, Hash, truncate_to_32_bytes_max}
use nyquist.CipherState.{
  CipherState, new_cipher_state, initialize_key, encrypt_with_ad, decrypt_with_ad,
}
use nyquist.CipherState

pub record SymmetricState (Aead : Type 0) : Type 0 where
  pub cs : Option (CipherState Aead)
  pub ck : Bytes
  pub h : Bytes

module _ {Aead : Type 0} where
  -- `newSymmetricState`
  unfoldable pub new_symmetric_state : ℕ → SymmetricState Aead
  new_symmetric_state max_message_size = record {
    cs = some (new_cipher_state max_message_size);
    ck = [];
    h = [];
  }

  -- `GetHandshakeHash`
  abbrev pub get_handshake_hash : SymmetricState Aead → Bytes
  get_handshake_hash ss = ss.h

  -- `CipherState`
  abbrev pub cipher_state : SymmetricState Aead → Option (CipherState Aead)
  cipher_state ss = ss.cs

  -- `Reset`: the transcript hash stays.
  unfoldable pub reset : SymmetricState Aead → SymmetricState Aead
  reset ss = record ss { cs = none; ck = [] }

module _ (hash : Hash) where
  -- The loop of `hkdfHash` over its outputs, of which it is given the lengths: each output is the
  -- next so many bytes of the HKDF reader.
  abbrev pub read_outputs : Bytes → Bytes → ℕ → List ℕ → Result Error (List Bytes)
  read_outputs secret salt offset [] = ok []
  read_outputs secret salt offset (n ∷ ns) =
      let rest = read_outputs secret salt (offset + n) ns in
      if n == hash.size
      then (do
        outputs ← rest
        ok (take n (drop offset (hash.expand secret salt (offset + n))) ∷ outputs))
      else panic

  -- `hkdfHash`
  abbrev pub hkdf_hash : Bytes → Bytes → List ℕ → Result Error (List Bytes)
  hkdf_hash secret salt lengths = read_outputs secret salt 0 lengths

  -- `make([]byte, hashLen)` with the name copied over it, or the digest of a longer name.
  abbrev pub initial_hash : Bytes → Bytes
  initial_hash name =
      if leb (length name) hash.size
      then name ++ replicate (hash.size - length name) 0
      else hash.digest name

  -- `MixHash`
  abbrev pub mix_hash : {Aead : Type 0} → Bytes → SymmetricState Aead → SymmetricState Aead
  mix_hash input ss = record ss { h = hash.digest (ss.h ++ input) }

module _ {Aead : Type 0} (cipher : Cipher Aead) (hash : Hash) where
  -- A method call on `ss.cs`, which panics if that is nil.
  abbrev pub initialize_cs :
      Bytes → Option (CipherState Aead) → SymmetricState Aead → Result Error (SymmetricState Aead)
  initialize_cs key none ss = panic
  initialize_cs key (some cs) ss = do
    cs' ← initialize_key cipher key cs
    ok (record ss { cs = some cs' })

  -- `InitializeSymmetric`
  unfoldable pub initialize_symmetric :
      Bytes → SymmetricState Aead → Result Error (SymmetricState Aead)
  initialize_symmetric name ss =
      initialize_cs [] ss.cs (record ss { h = initial_hash hash name; ck = initial_hash hash name })

  abbrev pub keyed_by : List Bytes → SymmetricState Aead → Result Error (SymmetricState Aead)
  keyed_by (ck ∷ temp_k ∷ []) ss =
      initialize_cs (truncate_to_32_bytes_max temp_k) ss.cs (record ss { ck = ck })
  keyed_by _ ss = panic

  -- `MixKey`
  unfoldable pub mix_key : Bytes → SymmetricState Aead → Result Error (SymmetricState Aead)
  mix_key input ss = do
    outputs ← hkdf_hash hash input ss.ck (length ss.ck ∷ hash.size ∷ [])
    keyed_by outputs ss

  abbrev pub keyed_and_hashed :
      List Bytes → SymmetricState Aead → Result Error (SymmetricState Aead)
  keyed_and_hashed (ck ∷ temp_h ∷ temp_k ∷ []) ss =
      initialize_cs (truncate_to_32_bytes_max temp_k) ss.cs
        (mix_hash hash temp_h (record ss { ck = ck }))
  keyed_and_hashed _ ss = panic

  -- `MixKeyAndHash`
  unfoldable pub mix_key_and_hash : Bytes → SymmetricState Aead → Result Error (SymmetricState Aead)
  mix_key_and_hash input ss = do
    outputs ← hkdf_hash hash input ss.ck (length ss.ck ∷ hash.size ∷ hash.size ∷ [])
    keyed_and_hashed outputs ss

  -- The error of `EncryptWithAd` is a panic; what it appended is mixed into the hash.
  abbrev pub hash_sealed :
      Result Error Bytes × CipherState Aead
      → Bytes
      → SymmetricState Aead
      → Result Error (Bytes × SymmetricState Aead)
  hash_sealed (ok out, cs') dst ss =
      ok (out, mix_hash hash (drop (length dst) out) (record ss { cs = some cs' }))
  hash_sealed (err e, cs') dst ss = panic
  hash_sealed (panic, cs') dst ss = panic

  abbrev pub encrypt_with :
      Option (CipherState Aead)
      → Bytes
      → Bytes
      → SymmetricState Aead
      → Result Error (Bytes × SymmetricState Aead)
  encrypt_with none dst plaintext ss = panic
  encrypt_with (some cs) dst plaintext ss =
      hash_sealed (encrypt_with_ad cipher dst ss.h plaintext cs) dst ss

  -- `EncryptAndHash`
  unfoldable pub encrypt_and_hash :
      Bytes → Bytes → SymmetricState Aead → Result Error (Bytes × SymmetricState Aead)
  encrypt_and_hash dst plaintext ss = encrypt_with ss.cs dst plaintext ss

  abbrev pub decrypt_with :
      Option (CipherState Aead)
      → Bytes
      → Bytes
      → Bytes
      → SymmetricState Aead
      → Result Error Bytes × SymmetricState Aead
  decrypt_with none h_prev dst ciphertext ss = (panic, ss)
  decrypt_with (some cs) h_prev dst ciphertext ss =
      let (r, cs') = decrypt_with_ad cipher dst h_prev ciphertext cs in
      (r, record ss { cs = some cs' })

  -- `DecryptAndHash`: the hash is mixed first, and the old one authenticates.
  unfoldable pub decrypt_and_hash :
      Bytes → Bytes → SymmetricState Aead → Result Error Bytes × SymmetricState Aead
  decrypt_and_hash dst ciphertext ss =
      decrypt_with ss.cs ss.h dst ciphertext (mix_hash hash ciphertext ss)

  abbrev pub split_keys : List Bytes → ℕ → Result Error (CipherState Aead × CipherState Aead)
  split_keys (temp_k1 ∷ temp_k2 ∷ []) max = do
    c1 ← initialize_key cipher (truncate_to_32_bytes_max temp_k1) (new_cipher_state max)
    c2 ← initialize_key cipher (truncate_to_32_bytes_max temp_k2) (new_cipher_state max)
    ok (c1, c2)
  split_keys _ max = panic

  abbrev pub split_with :
      Option (CipherState Aead) → Bytes → Result Error (CipherState Aead × CipherState Aead)
  split_with none ck = panic
  split_with (some cs) ck = do
    outputs ← hkdf_hash hash [] ck (hash.size ∷ hash.size ∷ [])
    split_keys outputs cs.max_message_size

  -- `Split`
  unfoldable pub split : SymmetricState Aead → Result Error (CipherState Aead × CipherState Aead)
  split ss = split_with ss.cs ss.ck
