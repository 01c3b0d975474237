-- ===== src/Ciphers/Laws.antt =====
-- What the packages of the AEADs document, and the interface's laws for cipher/cipher.go's ciphers.
use nyquist.Base.{subst, sym, ◌>>=◌, Result, ℕ, ◌+◌, ◌≡◌, some, Bytes, ok, refl, ap, ◌∙◌, length}
use nyquist.Crypto.{Cipher, CipherLaws}
use nyquist.Ciphers.{
  Error, Aeads, encode_chacha_poly, encode_aes_gcm, encode_deoxys_ii, chacha_poly, aes_gcm,
  deoxys_ii,
}
use nyquist.Ciphers.Nonces.{Standard}

module _ {Block Aead : Type 0} (aeads : Aeads Block Aead) where
  -- What crypto/cipher documents of an AEAD that takes nonces of so many bytes: opening what was
  -- sealed under the same nonce and additional data gives the plaintext, and sealing adds `Overhead`
  -- bytes.
  pub record AeadLaws (nonce_size : ℕ) (a : Aead) : Type 0 where
    pub unseal-seal :
        (nonce plaintext ad : Bytes)
        → length nonce ≡ nonce_size
        → aeads.unseal a nonce (aeads.seal a nonce plaintext ad) ad ≡ some plaintext
    pub length-seal :
        (nonce plaintext ad : Bytes)
        → length nonce ≡ nonce_size
        → length (aeads.seal a nonce plaintext ad) ≡ length plaintext + aeads.overhead a

  -- What the packages document of a constructor: it takes a key of 32 bytes, and what it makes is an
  -- AEAD with nonces of so many bytes.
  pub record NewLaws (nonce_size : ℕ) (new : Bytes → Result Error Aead) : Type 0 where
    pub total : (key : Bytes) → length key ≡ 32 → (a : Aead) × (new key ≡ ok a)
    pub made : (key : Bytes) (a : Aead) → new key ≡ ok a → AeadLaws nonce_size a

  pub record AeadsLaws : Type 0 where
    pub chacha : NewLaws 12 aeads.chacha20poly1305
    pub aes : NewLaws 12 (λ key. aeads.aes_block key >>= aeads.gcm)
    pub deoxys : NewLaws 15 aeads.deoxysii

  Cipher_of :
      (cipher : Cipher Aead) (nonce_size : ℕ)
      → NewLaws nonce_size cipher.new
      → ((n : ℕ) → length (cipher.encode_nonce n) ≡ nonce_size)
      → cipher.overhead ≡ aeads.overhead
      → cipher.seal ≡ aeads.seal
      → cipher.unseal ≡ aeads.unseal
      → CipherLaws cipher
  Cipher_of cipher size laws sized overhead seal unseal = record {
    unseal-seal = λ key a n p ad h.
        ap (λ f. f a (cipher.encode_nonce n) (cipher.seal a (cipher.encode_nonce n) p ad) ad) unseal
        ∙ ap (λ f. aeads.unseal a (cipher.encode_nonce n) (f a (cipher.encode_nonce n) p ad) ad)
            seal
        ∙ (laws.made key a h).unseal-seal (cipher.encode_nonce n) p ad (sized n);
    length-seal = λ key a n p ad h.
        ap (λ f. length (f a (cipher.encode_nonce n) p ad)) seal
        ∙ (laws.made key a h).length-seal (cipher.encode_nonce n) p ad (sized n)
        ∙ ap (λ f. length p + f a) (sym overhead);
    new_total = laws.total;
  }

  chacha_poly-CipherLaws : AeadsLaws → CipherLaws (chacha_poly aeads)
  unfolding chacha_poly encode_chacha_poly
  chacha_poly-CipherLaws laws =
      Cipher_of (chacha_poly aeads) 12 laws.chacha (λ n. refl) refl refl refl

  aes_gcm-CipherLaws : AeadsLaws → CipherLaws (aes_gcm aeads)
  unfolding aes_gcm encode_aes_gcm
  aes_gcm-CipherLaws laws = Cipher_of (aes_gcm aeads) 12 laws.aes (λ n. refl) refl refl refl

  deoxys_ii-CipherLaws : AeadsLaws → CipherLaws (deoxys_ii aeads)
  unfolding deoxys_ii encode_deoxys_ii
  deoxys_ii-CipherLaws laws = Cipher_of (deoxys_ii aeads) 15 laws.deoxys (λ n. refl) refl refl refl

  -- Each of the three ciphers keeps the laws that a CipherState wants of its cipher, if the AEADs are
  -- what their packages say.
  pub Standard-CipherLaws :
      (cipher : Cipher Aead) → Standard aeads cipher → AeadsLaws → CipherLaws cipher
  Standard-CipherLaws cipher (Standard.is_chacha_poly e) laws =
      subst CipherLaws (sym e) (chacha_poly-CipherLaws laws)
  Standard-CipherLaws cipher (Standard.is_aes_gcm e) laws =
      subst CipherLaws (sym e) (aes_gcm-CipherLaws laws)
  Standard-CipherLaws cipher (Standard.is_deoxys_ii e) laws =
      subst CipherLaws (sym e) (deoxys_ii-CipherLaws laws)
