-- ===== src/Ciphers/Nonces.antt =====
-- EncodeNonce of the three ciphers, and the nonces that a CipherState hands to the AEAD.
use nyquist.Base.{
  ℕ, zero, suc, ◌+◌, ◌*◌, ◌/◌, ◌%◌, ◌^◌, ◌<◌, ◌≡◌, ◌≢◌, List, [], ◌∷◌, ◌++◌, Bytes, refl, sym, ap,
  ◌∙◌, arith, drop, map, subst,
}
use nyquist.Crypto.{Cipher}
use nyquist.CipherState.{CipherState, maxnonce}
use nyquist.CipherState.Invariant.{IsWf, Call}
use nyquist.CipherState.Nonces.{AllSteady, Rising, sealed_all, sealed_all-Rising}
use nyquist.Ciphers.{
  Aeads, le_bytes, be_bytes, encode_chacha_poly, encode_aes_gcm, encode_deoxys_ii, chacha_poly,
  aes_gcm, deoxys_ii,
}

-- How many numbers so many bytes can hold, and the number that bytes hold.
abbrev capacity : ℕ → ℕ
capacity zero = 1
capacity (suc k) = 256 * capacity k

abbrev le_value : Bytes → ℕ
le_value [] = 0
le_value (b ∷ bs) = b + 256 * le_value bs

abbrev be_value : ℕ → Bytes → ℕ
be_value acc [] = acc
be_value acc (b ∷ bs) = be_value (256 * acc + b) bs

le_value-le_bytes : (k n : ℕ) → n < capacity k → le_value (le_bytes k n) ≡ n
le_value-le_bytes zero n h = omega arith
le_value-le_bytes (suc k) n h =
    let rest : le_value (le_bytes k (n / 256)) ≡ n / 256 =
      le_value-le_bytes k (n / 256) (omega arith) in
    omega arith

be_value-append :
    (acc b : ℕ) (bs : Bytes) → be_value acc (bs ++ (b ∷ [])) ≡ 256 * be_value acc bs + b
be_value-append acc b [] = refl
be_value-append acc b (c ∷ bs) = be_value-append (256 * acc + c) b bs

be_value-be_bytes : (k n : ℕ) → n < capacity k → be_value 0 (be_bytes k n) ≡ n
be_value-be_bytes zero n h = omega arith
be_value-be_bytes (suc k) n h =
    let rest : be_value 0 (be_bytes k (n / 256)) ≡ n / 256 =
      be_value-be_bytes k (n / 256) (omega arith) in
    omega (arith, be_value-append 0 (n % 256) (be_bytes k (n / 256)))

-- A cipher of the package.
pub data Standard {Block Aead : Type 0} (aeads : Aeads Block Aead) (cipher : Cipher Aead)
    : Type 0 where
  is_chacha_poly : cipher ≡ chacha_poly aeads → Standard aeads cipher
  is_aes_gcm : cipher ≡ aes_gcm aeads → Standard aeads cipher
  is_deoxys_ii : cipher ≡ deoxys_ii aeads → Standard aeads cipher

module _ {Block Aead : Type 0} (aeads : Aeads Block Aead) where
  -- The nonce that an encoding holds.
  decode : {cipher : Cipher Aead} → Standard aeads cipher → Bytes → ℕ
  decode (Standard.is_chacha_poly e) b = le_value (drop 4 b)
  decode (Standard.is_aes_gcm e) b = be_value 0 (drop 4 b)
  decode (Standard.is_deoxys_ii e) b = be_value 0 (drop 7 b)

  decode-encode_nonce :
      (cipher : Cipher Aead) (which : Standard aeads cipher) (n : ℕ)
      → n < 2 ^ 64
      → decode which (cipher.encode_nonce n) ≡ n
  unfolding decode chacha_poly aes_gcm deoxys_ii encode_chacha_poly encode_aes_gcm encode_deoxys_ii
  decode-encode_nonce cipher (Standard.is_chacha_poly e) n h =
      ap (λ (c : Cipher Aead). le_value (drop 4 (c.encode_nonce n))) e ∙ le_value-le_bytes 8 n h
  decode-encode_nonce cipher (Standard.is_aes_gcm e) n h =
      ap (λ (c : Cipher Aead). be_value 0 (drop 4 (c.encode_nonce n))) e ∙ be_value-be_bytes 8 n h
  decode-encode_nonce cipher (Standard.is_deoxys_ii e) n h =
      ap (λ (c : Cipher Aead). be_value 0 (drop 7 (c.encode_nonce n))) e ∙ be_value-be_bytes 8 n h

  -- No cipher of the package encodes two 64-bit nonces alike.
  pub encode_nonce_injective :
      (cipher : Cipher Aead) (m n : ℕ)
      → Standard aeads cipher
      → m < 2 ^ 64
      → n < 2 ^ 64
      → cipher.encode_nonce m ≡ cipher.encode_nonce n
      → m ≡ n
  encode_nonce_injective cipher m n which hm hn same =
      sym (decode-encode_nonce cipher which m hm)
      ∙ ap (decode which) same
      ∙ decode-encode_nonce cipher which n hn

-- A value that is not in a list, and a list with no value twice.
abbrev pub Absent : Bytes → List Bytes → Type 0
Absent b [] = Unit
Absent b (c ∷ bs) = (b ≢ c) × Absent b bs

abbrev pub Distinct : List Bytes → Type 0
Distinct [] = Unit
Distinct (b ∷ bs) = Absent b bs × Distinct bs

module _ {Block Aead : Type 0} (aeads : Aeads Block Aead) (cipher : Cipher Aead)
    (which : Standard aeads cipher) where
  absent :
      (n lo : ℕ) (ns : List ℕ)
      → n < lo
      → n < maxnonce
      → Rising lo ns
      → Absent (cipher.encode_nonce n) (map cipher.encode_nonce ns)
  absent n lo [] h top r = tt
  absent n lo (m ∷ ns) h top r = (
    λ same.
        let equal : n ≡ m =
          encode_nonce_injective aeads cipher n m which (omega arith) (omega (arith, r.1)) same in
        omega (arith, r.0),
    absent n (m + 1) ns (omega (arith, r.0)) top r.2,
  )

  encoded_Distinct : (lo : ℕ) (ns : List ℕ) → Rising lo ns → Distinct (map cipher.encode_nonce ns)
  encoded_Distinct lo [] r = tt
  encoded_Distinct lo (n ∷ ns) r =
      (absent n (n + 1) ns (omega arith) (omega (arith, r.1)) r.2, encoded_Distinct (n + 1) ns r.2)

  -- Under a cipher of the package, over any calls but InitializeKey and SetNonce on a well-formed
  -- CipherState, the nonces that EncryptWithAd hands to the AEAD's Seal are all different, and none
  -- is the encoding of 2^64 - 1.
  pub sealed_all-Distinct :
      (calls : List (Call cipher)) (cs : CipherState Aead)
      → IsWf cipher cs
      → AllSteady cipher calls
      → Distinct (sealed_all cipher calls cs)
        × Absent (cipher.encode_nonce maxnonce) (sealed_all cipher calls cs)
  sealed_all-Distinct calls cs wf steady =
      let (ns, encoded, rising) = sealed_all-Rising cipher calls cs wf steady in
      subst (λ l. Distinct l × Absent (cipher.encode_nonce maxnonce) l) (sym encoded)
        (encoded_Distinct cs.n ns rising, never cs.n ns rising)
    where
      never :
          (lo : ℕ) (ns : List ℕ)
          → Rising lo ns
          → Absent (cipher.encode_nonce maxnonce) (map cipher.encode_nonce ns)
      never lo [] r = tt
      never lo (m ∷ ns) r = (
        λ same.
            let equal : maxnonce ≡ m =
              encode_nonce_injective aeads cipher maxnonce m which (omega arith)
                (omega (arith, r.1)) same in
            omega (arith, r.1),
        never (m + 1) ns r.2,
      )
