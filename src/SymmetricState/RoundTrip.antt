-- ===== src/SymmetricState/RoundTrip.antt =====
-- EncryptAndHash and DecryptAndHash between two parties that hold the same SymmetricState.
use nyquist.Base.{
  ◌+◌, none, subst, drop-append, length, drop, ◌∙◌, ok-injective, ap, sym, Option, Result, ◌++◌,
  Bytes, panic, err, ok, some, [], refl, ◌≡◌,
}
use nyquist.Crypto.{Error, Cipher, CipherLaws, Hash, HashLaws}
use nyquist.CipherState.{overhead_of, CipherState, encrypt_with_ad, decrypt_with_ad}
use nyquist.CipherState.Invariant
use nyquist.CipherState.RoundTrip.{decrypt-encrypt, length-encrypt, encrypt_appends}
use nyquist.SymmetricState.{
  SymmetricState, encrypt_and_hash, decrypt_and_hash, encrypt_with, decrypt_with, hash_sealed,
  mix_hash,
}
use nyquist.SymmetricState.Invariant.{IsWf, CsIsWf}

module _ {Aead : Type 0} (cipher : Cipher Aead) (hash : Hash) where
  -- What EncryptAndHash did if it returned.
  pub record Sealed (dst plaintext out : Bytes) (ss ss' : SymmetricState Aead) : Type 0 where
    pub cs : CipherState Aead
    pub cs' : CipherState Aead
    pub ciphertext : Bytes
    pub held : ss.cs ≡ some cs
    pub appended : out ≡ dst ++ ciphertext
    pub encrypted : encrypt_with_ad cipher [] ss.h plaintext cs ≡ (ok ciphertext, cs')
    pub result : ss' ≡ mix_hash hash ciphertext (record ss { cs = some cs' })

  Sealed-ok :
      (dst plaintext out : Bytes) (cs : CipherState Aead) (ss ss' : SymmetricState Aead)
      → ss.cs ≡ some cs
      → (r : Result Error Bytes) (cs' : CipherState Aead)
      → encrypt_with_ad cipher dst ss.h plaintext cs ≡ (r, cs')
      → hash_sealed cipher hash (r, cs') dst ss ≡ ok (out, ss')
      → Sealed dst plaintext out ss ss'
  Sealed-ok dst plaintext out cs ss ss' held (ok o) cs' e h =
      let (c, split, plain) = encrypt_appends cipher dst ss.h plaintext o cs cs' e in
      record {
        cs = cs;
        cs' = cs';
        ciphertext = c;
        held = held;
        appended = sym (ap (λ (t : Bytes × SymmetricState Aead). t.0) (ok-injective h)) ∙ split;
        encrypted = plain;
        result =
            sym (ap (λ (t : Bytes × SymmetricState Aead). t.1) (ok-injective h))
            ∙ ap (λ b. mix_hash hash b (record ss { cs = some cs' }))
                (ap (drop (length dst)) split ∙ drop-append (length dst) dst c refl);
      }
  Sealed-ok dst plaintext out cs ss ss' held (err x) cs' e h = cc
  Sealed-ok dst plaintext out cs ss ss' held panic cs' e h = cc

  pub encrypt_and_hash-Sealed :
      (dst plaintext out : Bytes) (ss ss' : SymmetricState Aead)
      → encrypt_and_hash cipher hash dst plaintext ss ≡ ok (out, ss')
      → Sealed dst plaintext out ss ss'
  unfolding encrypt_and_hash
  encrypt_and_hash-Sealed dst plaintext out ss ss' h = go ss.cs refl h
    where
      go :
          (c : Option (CipherState Aead))
          → ss.cs ≡ c
          → encrypt_with cipher hash c dst plaintext ss ≡ ok (out, ss')
          → Sealed dst plaintext out ss ss'
      go none p q = cc
      go (some cs) p q = Sealed-ok dst plaintext out cs ss ss' p _ _ refl q

module _ {Aead : Type 0} (cipher : Cipher Aead) (hash : Hash) (claws : CipherLaws cipher)
    (hlaws : HashLaws hash) where
  CsIsWf_held :
      (ss : SymmetricState Aead) (cs : CipherState Aead)
      → ss.cs ≡ some cs
      → IsWf cipher hash ss
      → Invariant.IsWf cipher cs
  CsIsWf_held ss cs held wf = subst (CsIsWf cipher hash) held wf.cs

  opens :
      (dst plaintext c : Bytes) (ss : SymmetricState Aead) (cs cs' : CipherState Aead)
      → ss.cs ≡ some cs
      → decrypt_with_ad cipher dst ss.h c cs ≡ (ok (dst ++ plaintext), cs')
      → decrypt_and_hash cipher hash dst c ss
        ≡ (ok (dst ++ plaintext), mix_hash hash c (record ss { cs = some cs' }))
  unfolding decrypt_and_hash
  opens dst plaintext c ss cs cs' held e =
      ap (λ o. decrypt_with cipher hash o ss.h dst c (mix_hash hash c ss)) held
      ∙ ap
          (λ (t : Result Error Bytes × CipherState Aead).
            (t.0, record (mix_hash hash c ss) { cs = some t.1 }))
          e

  advanced-IsWf :
      (plaintext c : Bytes) (ss : SymmetricState Aead) (cs cs' : CipherState Aead)
      → IsWf cipher hash ss
      → Invariant.IsWf cipher cs
      → encrypt_with_ad cipher [] ss.h plaintext cs ≡ (ok c, cs')
      → IsWf cipher hash (mix_hash hash c (record ss { cs = some cs' }))
  advanced-IsWf plaintext c ss cs cs' wf wf_cs e = record {
    cs =
        subst (λ (t : Result Error Bytes × CipherState Aead). Invariant.IsWf cipher t.1) e
          (Invariant.encrypt-IsWf cipher [] ss.h plaintext cs wf_cs);
    ck = wf.ck;
    h = hlaws.length-digest _;
  }

  -- What a ciphertext is to another party that holds `ss`.
  pub record Delivered (dst plaintext out : Bytes) (ss ss' : SymmetricState Aead) : Type 0 where
    pub ciphertext : Bytes
    pub appended : out ≡ dst ++ ciphertext
    pub decrypted :
        (dst' : Bytes)
        → decrypt_and_hash cipher hash dst' ciphertext ss ≡ (ok (dst' ++ plaintext), ss')
    pub wf : IsWf cipher hash ss'
    pub cs : CipherState Aead
    pub held : ss.cs ≡ some cs
    pub size : length ciphertext ≡ length plaintext + overhead_of cipher cs.aead

  -- What one party encrypts and hashes, appending to `dst`, another one with the same SymmetricState
  -- decrypts and hashes to the same plaintext, behind any `dst` of its own, and both end with the
  -- same well-formed state. The ciphertext is longer than the plaintext by the AEAD's overhead.
  pub decrypt-encrypt_and_hash :
      (dst plaintext out : Bytes) (ss ss' : SymmetricState Aead)
      → IsWf cipher hash ss
      → encrypt_and_hash cipher hash dst plaintext ss ≡ ok (out, ss')
      → Delivered dst plaintext out ss ss'
  decrypt-encrypt_and_hash dst plaintext out ss ss' wf h =
      let s = encrypt_and_hash-Sealed cipher hash dst plaintext out ss ss' h in
      let wf_cs = CsIsWf_held ss s.cs s.held wf in
      record {
        ciphertext = s.ciphertext;
        appended = s.appended;
        decrypted = λ dst'.
            opens dst' plaintext s.ciphertext ss s.cs s.cs' s.held (
              decrypt-encrypt cipher claws dst' ss.h plaintext s.ciphertext s.cs s.cs' wf_cs
                s.encrypted)
            ∙ ap (λ t. (ok (dst' ++ plaintext), t)) (sym s.result);
        wf =
            subst (IsWf cipher hash) (sym s.result)
              (advanced-IsWf plaintext s.ciphertext ss s.cs s.cs' wf wf_cs s.encrypted);
        cs = s.cs;
        held = s.held;
        size = length-encrypt cipher claws ss.h plaintext s.ciphertext s.cs s.cs' wf_cs s.encrypted;
      }
