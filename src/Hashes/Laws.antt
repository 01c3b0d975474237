-- ===== src/Hashes/Laws.antt =====
-- What the packages of the digests document, and the interface's laws for hash/hash.go's hashes.
use nyquist.Base.{ℕ, ◌*◌, ◌≤◌, ◌≡◌, Bytes, refl, sym, subst, ap, ◌∙◌, length, arith}
use nyquist.Crypto.{Hash, HashLaws}
use nyquist.Hashes.{Digest, Digests, sha256, sha512, blake2s, blake2b}

module _ (digests : Digests) where
  -- A digest of so many bytes, of which HKDF reads out up to 255 times as many.
  pub record DigestLaws (size : ℕ) (d : Digest) : Type 0 where
    pub sized : d.size ≡ size
    pub length-sum : (b : Bytes) → length (d.sum b) ≡ size
    pub length-hkdf :
        (secret salt : Bytes) (n : ℕ) → n ≤ 255 * size → length (digests.hkdf d secret salt n) ≡ n

  pub record DigestsLaws : Type 0 where
    pub sha256 : DigestLaws 32 digests.sha256
    pub sha512 : DigestLaws 64 digests.sha512
    pub blake2s : DigestLaws 32 digests.blake2s
    pub blake2b : DigestLaws 64 digests.blake2b

  -- A hash of the package.
  pub data Standard (hash : Hash) : Type 0 where
    is_sha256 : hash ≡ sha256 digests → Standard hash
    is_sha512 : hash ≡ sha512 digests → Standard hash
    is_blake2s : hash ≡ blake2s digests → Standard hash
    is_blake2b : hash ≡ blake2b digests → Standard hash

  -- What the handshake wants of its hash.
  pub record Suitable (hash : Hash) : Type 0 where
    pub laws : HashLaws hash
    pub big : 32 ≤ hash.size

  Hash_of :
      (size : ℕ) (d : Digest) (hash : Hash)
      → DigestLaws size d
      → 32 ≤ size
      → hash.size ≡ d.size
      → hash.digest ≡ d.sum
      → hash.expand ≡ digests.hkdf d
      → Suitable hash
  Hash_of size d hash laws big s p q = record {
    laws = record {
      length-digest = λ b. ap (λ f. length (f b)) p ∙ laws.length-sum b ∙ sym (s ∙ laws.sized);
      length-expand = λ secret salt n few.
          ap (λ f. length (f secret salt n)) q
          ∙ laws.length-hkdf secret salt n (omega (arith, few, s, laws.sized));
    };
    big = omega (arith, big, s, laws.sized);
  }

  -- Each of the four hashes keeps the laws that a SymmetricState wants of its hash and has 32 bytes or
  -- more, if the digests and HKDF are what their packages say.
  pub Standard-Suitable : (hash : Hash) → Standard hash → DigestsLaws → Suitable hash
  unfolding sha256 sha512 blake2s blake2b
  Standard-Suitable hash (is_sha256 e) laws =
      subst Suitable (sym e)
        (Hash_of 32 digests.sha256 (sha256 digests) laws.sha256 (omega arith) refl refl refl)
  Standard-Suitable hash (is_sha512 e) laws =
      subst Suitable (sym e)
        (Hash_of 64 digests.sha512 (sha512 digests) laws.sha512 (omega arith) refl refl refl)
  Standard-Suitable hash (is_blake2s e) laws =
      subst Suitable (sym e)
        (Hash_of 32 digests.blake2s (blake2s digests) laws.blake2s (omega arith) refl refl refl)
  Standard-Suitable hash (is_blake2b e) laws =
      subst Suitable (sym e)
        (Hash_of 64 digests.blake2b (blake2b digests) laws.blake2b (omega arith) refl refl refl)
