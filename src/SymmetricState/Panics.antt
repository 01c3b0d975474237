-- ===== src/SymmetricState/Panics.antt =====
-- When EncryptAndHash panics.
use nyquist.Base.{
  ◌+◌, ◌<◌, ◌≡◌, ◌↔◌, ◌⊎◌, inl, inr, some, Bytes, err, panic, ap, ◌∙◌, arith, length, ◌==◌,
  Bool-cases, Option-cases,
}
use nyquist.Crypto.{Error, Cipher, Hash, nonce_exhausted, message_size}
use nyquist.CipherState.{CipherState, encrypt_with_ad, maxnonce}
use nyquist.CipherState.RoundTrip.{encrypt_outcomes}
use nyquist.SymmetricState.{SymmetricState, encrypt_and_hash, encrypt_with, hash_sealed}

module _ {Aead : Type 0} where
  -- A keyed CipherState that has no nonce left, or whose size limit is below the ciphertext.
  abbrev pub Refuses : CipherState Aead → Bytes → Type 0
  Refuses cs p =
      (a : Aead) × (cs.aead ≡ some a)
      × ((cs.n ≡ maxnonce)
          ⊎ ((0 < cs.max_message_size) × (cs.max_message_size < length p + cs.aead_overhead)))

module _ {Aead : Type 0} (cipher : Cipher Aead) where
  Refuses-error :
      (dst ad p : Bytes) (cs : CipherState Aead)
      → Refuses cs p
      → (e : Error) × (encrypt_with_ad cipher dst ad p cs ≡ (err e, cs))
  unfolding encrypt_with_ad
  Refuses-error dst ad p cs (a, key, why) = elim (Bool-cases (cs.n == maxnonce)) [
    | inl full ↦ (nonce_exhausted, ground arith)
    | inr room ↦ elim why [
      | inl full ↦ absurd (ground arith)
      | inr (limited, big) ↦ (message_size, ground arith)
    ]
  ]

  error-Refuses :
      (dst ad p : Bytes) (cs : CipherState Aead) (e : Error)
      → encrypt_with_ad cipher dst ad p cs ≡ (err e, cs)
      → Refuses cs p
  unfolding encrypt_with_ad
  error-Refuses dst ad p cs e h = elim (Option-cases cs.aead) [
    | inl q ↦ absurd (ground arith)
    | inr (a, q) ↦ elim (Bool-cases (cs.n == maxnonce)) [
      | inl full ↦ (a, q, inl (ground arith))
      | inr room ↦ (a, q, inr (ground arith, ground arith))
    ]
  ]

module _ {Aead : Type 0} (cipher : Cipher Aead) (hash : Hash) where
  -- EncryptAndHash with a CipherState panics exactly if that is keyed and either has no nonce left or
  -- has a size limit below the length of the plaintext and the overhead.
  pub encrypt_and_hash-Refuses :
      (dst p : Bytes) (ss : SymmetricState Aead) (cs : CipherState Aead)
      → ss.cs ≡ some cs
      → (encrypt_and_hash cipher hash dst p ss ≡ panic) ↔ Refuses cs p
  unfolding encrypt_and_hash
  encrypt_and_hash-Refuses dst p ss cs held = (
    λ h. elim (encrypt_outcomes cipher dst ss.h p cs) [
      | inl (out, sealed) ↦ absurd (ground arith)
      | inr (e, q) ↦ error-Refuses cipher dst ss.h p cs e q
    ],
    λ why.
        let (e, q) = Refuses-error cipher dst ss.h p cs why in
        ap (λ o. encrypt_with cipher hash o dst p ss) held
        ∙ ap (λ t. hash_sealed cipher hash t dst ss) q,
  )
