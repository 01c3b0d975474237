-- ===== src/SymmetricState/Errorless.antt =====
-- The methods of a SymmetricState whose signature has no error.
use nyquist.Base.{
  take, drop, if◌then◌else◌, ◌+◌, ℕ, Bool, true, false, List, [], ◌∷◌, Option, none, some, Bytes,
  Result, ok, err, panic, ◌==◌, length, ◌>>=◌,
}
use nyquist.Crypto.{Error, Cipher, Hash, truncate_to_32_bytes_max}
use nyquist.CipherState.{
  CipherState, new_cipher_state, set_key, initialize_key, initialized, encrypt_with_ad,
}
use nyquist.SymmetricState.{
  SymmetricState, read_outputs, hkdf_hash, initialize_cs, keyed_by, mix_key, keyed_and_hashed,
  mix_key_and_hash, hash_sealed, encrypt_with, encrypt_and_hash, split_keys, split_with, split,
}

abbrev pub Errorless : {A : Type 0} → Result Error A → Type 0
Errorless (ok a) = Unit
Errorless (err e) = ⊥
Errorless panic = Unit

pub Errorless-bind :
    {A B : Type 0} (r : Result Error A) (f : A → Result Error B)
    → Errorless r
    → ((a : A) → Errorless (f a))
    → Errorless (r >>= f)
Errorless-bind (ok a) f p q = q a
Errorless-bind (err e) f p q = p
Errorless-bind panic f p q = tt

module _ {Aead : Type 0} (cipher : Cipher Aead) (hash : Hash) where
  initialize_key-Errorless :
      (key : Bytes) (cs : CipherState Aead) → Errorless (initialize_key cipher key cs)
  unfolding initialize_key
  initialize_key-Errorless key cs = go (set_key cipher key cs).0 (set_key cipher key cs).1
    where
      go :
          (r : Result Error (Unit {0})) (cs' : CipherState Aead)
          → Errorless (initialized cipher (r, cs'))
      go (ok tt) cs' = tt
      go (err e) cs' = tt
      go panic cs' = tt

  initialize_cs-Errorless :
      (key : Bytes) (c : Option (CipherState Aead)) (ss : SymmetricState Aead)
      → Errorless (initialize_cs cipher hash key c ss)
  initialize_cs-Errorless key none ss = tt
  initialize_cs-Errorless key (some cs) ss =
      Errorless-bind (initialize_key cipher key cs) (λ cs'. ok (record ss { cs = some cs' }))
        (initialize_key-Errorless key cs) (λ cs'. tt)

  read_outputs-Errorless :
      (secret salt : Bytes) (offset : ℕ) (ns : List ℕ)
      → Errorless (read_outputs hash secret salt offset ns)
  read_outputs-Errorless secret salt offset [] = tt
  read_outputs-Errorless secret salt offset (n ∷ ns) =
      let cons : List Bytes → Result Error (List Bytes) =
        λ outputs. ok (take n (drop offset (hash.expand secret salt (offset + n))) ∷ outputs) in
      go (n == hash.size) (read_outputs hash secret salt (offset + n) ns >>= cons) (
        Errorless-bind (read_outputs hash secret salt (offset + n) ns) cons
          (read_outputs-Errorless secret salt (offset + n) ns) (λ outputs. tt))
    where
      go :
          (b : Bool) (r : Result Error (List Bytes))
          → Errorless r
          → Errorless (if b then r else panic)
      go true r p = p
      go false r p = tt

  keyed_by-Errorless :
      (outputs : List Bytes) (ss : SymmetricState Aead)
      → Errorless (keyed_by cipher hash outputs ss)
  keyed_by-Errorless [] ss = tt
  keyed_by-Errorless (ck ∷ []) ss = tt
  keyed_by-Errorless (ck ∷ k ∷ []) ss = initialize_cs-Errorless (truncate_to_32_bytes_max k) ss.cs _
  keyed_by-Errorless (ck ∷ k ∷ l ∷ rest) ss = tt

  keyed_and_hashed-Errorless :
      (outputs : List Bytes) (ss : SymmetricState Aead)
      → Errorless (keyed_and_hashed cipher hash outputs ss)
  keyed_and_hashed-Errorless [] ss = tt
  keyed_and_hashed-Errorless (ck ∷ []) ss = tt
  keyed_and_hashed-Errorless (ck ∷ h ∷ []) ss = tt
  keyed_and_hashed-Errorless (ck ∷ h ∷ k ∷ []) ss =
      initialize_cs-Errorless (truncate_to_32_bytes_max k) ss.cs _
  keyed_and_hashed-Errorless (ck ∷ h ∷ k ∷ l ∷ rest) ss = tt

  pub mix_key-Errorless :
      (input : Bytes) (ss : SymmetricState Aead) → Errorless (mix_key cipher hash input ss)
  unfolding mix_key
  mix_key-Errorless input ss =
      Errorless-bind (hkdf_hash hash input ss.ck (length ss.ck ∷ hash.size ∷ [])) _
        (read_outputs-Errorless input ss.ck 0 (length ss.ck ∷ hash.size ∷ []))
        (λ outputs. keyed_by-Errorless outputs ss)

  pub mix_key_and_hash-Errorless :
      (input : Bytes) (ss : SymmetricState Aead) → Errorless (mix_key_and_hash cipher hash input ss)
  unfolding mix_key_and_hash
  mix_key_and_hash-Errorless input ss =
      Errorless-bind (hkdf_hash hash input ss.ck (length ss.ck ∷ hash.size ∷ hash.size ∷ [])) _
        (read_outputs-Errorless input ss.ck 0 (length ss.ck ∷ hash.size ∷ hash.size ∷ []))
        (λ outputs. keyed_and_hashed-Errorless outputs ss)

  pub encrypt_and_hash-Errorless :
      (dst plaintext : Bytes) (ss : SymmetricState Aead)
      → Errorless (encrypt_and_hash cipher hash dst plaintext ss)
  unfolding encrypt_and_hash
  encrypt_and_hash-Errorless dst plaintext ss = go ss.cs
    where
      sealed :
          (r : Result Error Bytes) (cs' : CipherState Aead)
          → Errorless (hash_sealed cipher hash (r, cs') dst ss)
      sealed (ok out) cs' = tt
      sealed (err e) cs' = tt
      sealed panic cs' = tt

      go : (c : Option (CipherState Aead)) → Errorless (encrypt_with cipher hash c dst plaintext ss)
      go none = tt
      go (some cs) =
          sealed (encrypt_with_ad cipher dst ss.h plaintext cs).0
            (encrypt_with_ad cipher dst ss.h plaintext cs).1

  split_keys-Errorless :
      (outputs : List Bytes) (max : ℕ) → Errorless (split_keys cipher hash outputs max)
  split_keys-Errorless [] max = tt
  split_keys-Errorless (a ∷ []) max = tt
  split_keys-Errorless (a ∷ b ∷ []) max =
      Errorless-bind (initialize_key cipher (truncate_to_32_bytes_max a) (new_cipher_state max)) _
        (initialize_key-Errorless (truncate_to_32_bytes_max a) (new_cipher_state max))
        (λ c1.
          Errorless-bind (initialize_key cipher (truncate_to_32_bytes_max b) (new_cipher_state max))
            _ (initialize_key-Errorless (truncate_to_32_bytes_max b) (new_cipher_state max))
            (λ c2. tt))
  split_keys-Errorless (a ∷ b ∷ c ∷ rest) max = tt

  pub split-Errorless : (ss : SymmetricState Aead) → Errorless (split cipher hash ss)
  unfolding split
  split-Errorless ss = go ss.cs
    where
      go : (c : Option (CipherState Aead)) → Errorless (split_with cipher hash c ss.ck)
      go none = tt
      go (some cs) =
          Errorless-bind (hkdf_hash hash [] ss.ck (hash.size ∷ hash.size ∷ [])) _
            (read_outputs-Errorless [] ss.ck 0 (hash.size ∷ hash.size ∷ []))
            (λ outputs. split_keys-Errorless outputs cs.max_message_size)
