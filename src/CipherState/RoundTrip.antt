-- ===== src/CipherState/RoundTrip.antt =====
-- EncryptWithAd and DecryptWithAd between two parties that hold the same CipherState.
use nyquist.Base.{
  Result, ap, ◌∷◌, List, ◌+◌, length, ◌&&◌, ltb, ◌==◌, Bool-cases, inr, arith, inl, err,
  Option-cases, ◌⊎◌, ◌++◌, ok, [], ◌≡◌, Bytes,
}
use mathlib.Core.Path.{subst}
use nyquist.Crypto.{nonce_exhausted, message_size, Error, Cipher, CipherLaws}
use nyquist.CipherState.{overhead_of, CipherState, encrypt_with_ad, decrypt_with_ad, maxnonce}
use nyquist.CipherState.Invariant.{aead_made, IsWf, encrypt-IsWf}

module _ {Aead : Type 0} (cipher : Cipher Aead) where
  -- `dst` is only a prefix: what is appended to it does not depend on it.
  pub encrypt_appends :
      (dst ad p out : Bytes) (cs cs' : CipherState Aead)
      → encrypt_with_ad cipher dst ad p cs ≡ (ok out, cs')
      → (c : Bytes) × (out ≡ dst ++ c) × (encrypt_with_ad cipher [] ad p cs ≡ (ok c, cs'))
  unfolding encrypt_with_ad
  encrypt_appends dst ad p out cs cs' h = elim (Option-cases cs.aead) [
    | inl q ↦ (p, ground arith, ground arith)
    | inr (a, q) ↦ (cipher.seal a (cipher.encode_nonce cs.n) p ad, ground arith, ground arith)
  ]

  -- A call that fails leaves the CipherState as it was, and no call panics.
  pub encrypt_outcomes :
      (dst ad p : Bytes) (cs : CipherState Aead)
      → ((out : Bytes) × ((encrypt_with_ad cipher dst ad p cs).0 ≡ ok (dst ++ out)))
        ⊎ ((e : Error) × (encrypt_with_ad cipher dst ad p cs ≡ (err e, cs)))
  unfolding encrypt_with_ad
  encrypt_outcomes dst ad p cs = elim (Option-cases cs.aead) [
    | inl q ↦ inl (p, ground arith)
    | inr (a, q) ↦ elim (Bool-cases (cs.n == maxnonce)) [
      | inl full ↦ inr (nonce_exhausted, ground arith)
      | inr room ↦
          elim (Bool-cases
            (ltb 0 cs.max_message_size && ltb cs.max_message_size (length p + cs.aead_overhead))) [
              | inl big ↦ inr (message_size, ground arith)
              | inr small ↦ inl (cipher.seal a (cipher.encode_nonce cs.n) p ad, ground arith)
            ]
    ]
  ]

module _ {Aead : Type 0} (cipher : Cipher Aead) (laws : CipherLaws cipher) where
  -- What one party encrypts, another one with the same CipherState decrypts to the same plaintext,
  -- under the same additional data, and both end with the same CipherState.
  pub decrypt-encrypt :
      (dst ad p c : Bytes) (cs cs' : CipherState Aead)
      → IsWf cipher cs
      → encrypt_with_ad cipher [] ad p cs ≡ (ok c, cs')
      → decrypt_with_ad cipher dst ad c cs ≡ (ok (dst ++ p), cs')
  unfolding encrypt_with_ad decrypt_with_ad
  decrypt-encrypt dst ad p c cs cs' wf h = elim (Option-cases cs.aead) [
    | inl q ↦ ground arith
    | inr (a, q) ↦
        let (key, made) = aead_made cipher cs a wf q in
        ground (arith, laws.unseal-seal key a cs.n p ad made, laws.length-seal key a cs.n p ad made)
  ]

module _ {Aead : Type 0} (cipher : Cipher Aead) (laws : CipherLaws cipher) where
  -- What an encryption adds to the length.
  pub length-encrypt :
      (ad p c : Bytes) (cs cs' : CipherState Aead)
      → IsWf cipher cs
      → encrypt_with_ad cipher [] ad p cs ≡ (ok c, cs')
      → length c ≡ length p + overhead_of cipher cs.aead
  unfolding encrypt_with_ad
  length-encrypt ad p c cs cs' wf h = elim (Option-cases cs.aead) [
    | inl q ↦ ground arith
    | inr (a, q) ↦
        let (key, made) = aead_made cipher cs a wf q in
        ground (arith, laws.length-seal key a cs.n p ad made)
  ]

-- Messages sent one after another, each with its additional data, plaintext and ciphertext.
pub data Sends {Aead : Type 0} (cipher : Cipher Aead)
    : CipherState Aead → List (Bytes × Bytes × Bytes) → CipherState Aead → Type 0 where
  finished : (cs : CipherState Aead) → Sends cipher cs [] cs
  send :
      {cs cs' cs'' : CipherState Aead} {msgs : List (Bytes × Bytes × Bytes)} (ad p c : Bytes)
      → encrypt_with_ad cipher [] ad p cs ≡ (ok c, cs')
      → Sends cipher cs' msgs cs''
      → Sends cipher cs ((ad, p, c) ∷ msgs) cs''

-- The same messages, received in their order.
pub data Receives {Aead : Type 0} (cipher : Cipher Aead)
    : CipherState Aead → List (Bytes × Bytes × Bytes) → CipherState Aead → Type 0 where
  finished : (cs : CipherState Aead) → Receives cipher cs [] cs
  receive :
      {cs cs' cs'' : CipherState Aead} {msgs : List (Bytes × Bytes × Bytes)} (ad p c : Bytes)
      → decrypt_with_ad cipher [] ad c cs ≡ (ok p, cs')
      → Receives cipher cs' msgs cs''
      → Receives cipher cs ((ad, p, c) ∷ msgs) cs''

module _ {Aead : Type 0} (cipher : Cipher Aead) (laws : CipherLaws cipher) where
  -- Any number of messages that one party encrypts in a row, the other decrypts in the same order to
  -- the same plaintexts, and both end with the same CipherState.
  pub Sends-Receives :
      {cs cs' : CipherState Aead} {msgs : List (Bytes × Bytes × Bytes)}
      → IsWf cipher cs
      → Sends cipher cs msgs cs'
      → Receives cipher cs msgs cs'
  Sends-Receives wf (Sends.finished cs) = Receives.finished cs
  Sends-Receives {cs} wf (send {cs' = next} ad p c h rest) =
      receive ad p c (decrypt-encrypt cipher laws [] ad p c cs next wf h) (
        Sends-Receives
          (subst (IsWf cipher) (ap (λ (r : Result Error Bytes × CipherState Aead). r.1) h)
            (encrypt-IsWf cipher [] ad p cs wf))
          rest)
