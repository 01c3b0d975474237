-- ===== src/CipherState/Rekeying.antt =====
-- Rekey and InitializeKey: a Rekey that fails, the generic one, a cipher's own one, and the lengths of
-- a key.
use nyquist.Base.{
  refl, panic, arith, ◌≢◌, ◌≤◌, ◌++◌, true, false, length, ok, err, ◌≡◌, Bytes, [], none, some,
}
use nyquist.Crypto.{Error, Cipher, CipherLaws, truncate_to_32_bytes_max, length-truncate}
use nyquist.CipherState.Invariant.{IsWf, aead_made}
use nyquist.CipherState.{
  CipherState, has_key, initialize_key, encrypt_with_ad, rekey, reset, maxnonce, zeroes,
}

module _ {Aead : Type 0} (cipher : Cipher Aead) where
  -- After a Rekey that failed the CipherState has no key, also if it had one before: what the next
  -- EncryptWithAd returns, without an error, is the plaintext.
  pub rekey_failure :
      (cs : CipherState Aead) (e : Error) (dst ad p : Bytes)
      → (rekey cipher cs).0 ≡ err e
      → encrypt_with_ad cipher dst ad p (rekey cipher cs).1 ≡ (ok (dst ++ p), (rekey cipher cs).1)
  unfolding rekey encrypt_with_ad
  rekey_failure cs e dst ad p h = ground arith

module _ {Aead : Type 0} (cipher : Cipher Aead) (laws : CipherLaws cipher) where
  -- The generic Rekey of a well-formed, keyed state succeeds: the new key is the first 32 bytes of 32 zero bytes
  -- sealed under the nonce 2^64 - 1, and the nonce and the size limit stay.
  pub generic_rekey :
      (a : Aead) (cs : CipherState Aead)
      → IsWf cipher cs
      → cs.aead ≡ some a
      → cipher.rekey ≡ none
      → let (r, cs') = rekey cipher cs in
        let key =
          truncate_to_32_bytes_max (cipher.seal a (cipher.encode_nonce maxnonce) zeroes []) in
        (r ≡ ok tt)
        × (has_key cs' ≡ true)
        × (cs'.k ≡ some key)
        × (cs'.n ≡ cs.n)
        × (cs'.max_message_size ≡ cs.max_message_size)
  unfolding rekey
  generic_rekey a cs wf key generic =
      let (old, was_made) = aead_made cipher cs a wf key in
      let sealed = cipher.seal a (cipher.encode_nonce maxnonce) zeroes [] in
      let long : 32 ≤ length sealed =
        omega (arith, laws.length-seal old a maxnonce zeroes [] was_made) in
      let size : length (truncate_to_32_bytes_max sealed) ≡ 32 = length-truncate sealed long in
      let made = laws.new_total (truncate_to_32_bytes_max sealed) size in ground (arith, made.1)

  -- InitializeKey with no key leaves the state unkeyed at nonce 0, with 32 bytes it leaves it keyed
  -- by them at nonce 0, and with any other number of bytes it panics.
  -- The size limit stays.
  pub initialize_key_outcomes :
      (key : Bytes) (cs : CipherState Aead)
      → (length key ≡ 0
          → (cs' : CipherState Aead) × (initialize_key cipher key cs ≡ ok cs')
            × (has_key cs' ≡ false)
            × (cs'.n ≡ 0)
            × (cs'.max_message_size ≡ cs.max_message_size))
        × (length key ≡ 32
            → (cs' : CipherState Aead) × (initialize_key cipher key cs ≡ ok cs')
              × (cs'.k ≡ some key)
              × (has_key cs' ≡ true)
              × (cs'.n ≡ 0)
              × (cs'.max_message_size ≡ cs.max_message_size))
        × (length key ≢ 0 → length key ≢ 32 → initialize_key cipher key cs ≡ panic)
  unfolding initialize_key
  initialize_key_outcomes key cs = (
    λ h. (record (reset cs) { n = 0 }, ground arith, ground arith, refl, ground arith),
    (λ h.
        let made = laws.new_total key h in
        (
          record (reset cs) {
            aead = some made.0;
            aead_overhead = cipher.overhead made.0;
            k = some key;
            n = 0;
          },
          ground (arith, made.1),
          refl,
          refl,
          refl,
          ground arith,
        )),
    λ h k. ground arith,
  )
