-- ===== src/CipherState/Invariant.antt =====
-- The invariant of a CipherState, and the operations of cipherstate.go as calls.
use nyquist.Base.{
  subst, [], ◌∷◌, List, Result, length, arith, ◌≤◌, Bytes, ℕ, ◌≡◌, Option, none, some, refl, ok,
  err, panic,
}
use nyquist.Crypto.{Error, Cipher}
use nyquist.CipherState.{
  CipherState, maxnonce, new_cipher_state, set_nonce, reset, set_key, initialize_key,
  encrypt_with_ad, decrypt_with_ad, rekey,
}

module _ {Aead : Type 0} (cipher : Cipher Aead) where
  -- What the fields `aead`, `k` and `aeadOverhead` say of one another.
  abbrev Keyed : Option Aead → Option Bytes → ℕ → Type 0
  Keyed none none overhead = Unit
  Keyed none (some key) overhead = ⊥
  Keyed (some a) none overhead = ⊥
  Keyed (some a) (some key) overhead =
      (length key ≡ 32) × (cipher.new key ≡ ok a) × (overhead ≡ cipher.overhead a)

  pub record IsWf (cs : CipherState Aead) : Type 0 where
    pub keyed : Keyed cs.aead cs.k cs.aead_overhead
    pub nonce : cs.n ≤ maxnonce

  -- The AEAD of a well-formed state was made of a key.
  pub aead_made :
      (cs : CipherState Aead) (a : Aead)
      → IsWf cs
      → cs.aead ≡ some a
      → (key : Bytes) × (cipher.new key ≡ ok a)
  aead_made cs a wf p = go cs.k (subst (λ x. Keyed x cs.k cs.aead_overhead) p wf.keyed)
    where
      go :
          (k : Option Bytes)
          → Keyed (some a) k cs.aead_overhead
          → (key : Bytes) × (cipher.new key ≡ ok a)
      go none h = absurd h
      go (some key) h = (key, h.1)

  -- Its overhead is that of the AEAD.
  pub overhead_made :
      (cs : CipherState Aead) (a : Aead)
      → IsWf cs
      → cs.aead ≡ some a
      → cs.aead_overhead ≡ cipher.overhead a
  overhead_made cs a wf p = go cs.k (subst (λ x. Keyed x cs.k cs.aead_overhead) p wf.keyed)
    where
      go :
          (k : Option Bytes)
          → Keyed (some a) k cs.aead_overhead
          → cs.aead_overhead ≡ cipher.overhead a
      go none h = absurd h
      go (some key) h = h.2

  pub new_cipher_state-IsWf : (max : ℕ) → IsWf (new_cipher_state max)
  unfolding new_cipher_state
  new_cipher_state-IsWf max = ground arith

  reset_Keyed :
      (cs : CipherState Aead)
      → IsWf cs
      → Keyed (reset cs).aead (reset cs).k (reset cs).aead_overhead
  unfolding reset
  reset_Keyed cs wf = ground arith

  pub reset-IsWf : (cs : CipherState Aead) → IsWf cs → IsWf (reset cs)
  unfolding reset
  reset-IsWf cs wf = ground arith

  pub set_nonce-IsWf :
      (nonce : ℕ) (cs : CipherState Aead) → nonce ≤ maxnonce → IsWf cs → IsWf (set_nonce nonce cs)
  unfolding set_nonce
  set_nonce-IsWf nonce cs h wf = ground arith

  pub set_key-IsWf :
      (key : Bytes) (cs : CipherState Aead) → IsWf cs → IsWf (set_key cipher key cs).1
  unfolding set_key
  set_key-IsWf key cs wf = ground arith

  pub encrypt-IsWf :
      (dst ad p : Bytes) (cs : CipherState Aead)
      → IsWf cs
      → IsWf (encrypt_with_ad cipher dst ad p cs).1
  unfolding encrypt_with_ad
  encrypt-IsWf dst ad p cs wf = ground arith

  pub decrypt-IsWf :
      (dst ad p : Bytes) (cs : CipherState Aead)
      → IsWf cs
      → IsWf (decrypt_with_ad cipher dst ad p cs).1
  unfolding decrypt_with_ad
  decrypt-IsWf dst ad p cs wf = ground arith

  pub rekey-IsWf : (cs : CipherState Aead) → IsWf cs → IsWf (rekey cipher cs).1
  unfolding rekey
  rekey-IsWf cs wf = ground arith

  pub initialize_key-IsWf :
      (key : Bytes) (cs cs' : CipherState Aead)
      → IsWf cs
      → initialize_key cipher key cs ≡ ok cs'
      → IsWf cs'
  unfolding initialize_key
  initialize_key-IsWf key cs cs' wf h = ground (arith, set_key-IsWf key cs wf)

  -- A method call of a client on a CipherState.
  pub data Call : Type 0 where
    initialize : Bytes → Call
    at_nonce : (n : ℕ) → n ≤ maxnonce → Call
    encrypt decrypt : Bytes → Bytes → Bytes → Call
    new_key : Call
    clear : Call

  abbrev or_same : Result Error (CipherState Aead) → CipherState Aead → CipherState Aead
  or_same (ok cs') cs = cs'
  or_same (err e) cs = cs
  or_same panic cs = cs

  -- The object after a call; a call that panics leaves no object to go on with.
  abbrev pub apply : Call → CipherState Aead → CipherState Aead
  apply (initialize key) cs = or_same (initialize_key cipher key cs) cs
  apply (at_nonce n h) cs = set_nonce n cs
  apply (encrypt dst ad p) cs = (encrypt_with_ad cipher dst ad p cs).1
  apply (decrypt dst ad c) cs = (decrypt_with_ad cipher dst ad c cs).1
  apply new_key cs = (rekey cipher cs).1
  apply clear cs = reset cs

  pub apply_all : List Call → CipherState Aead → CipherState Aead
  apply_all [] cs = cs
  apply_all (c ∷ calls) cs = apply_all calls (apply c cs)

  pub apply-IsWf : (c : Call) (cs : CipherState Aead) → IsWf cs → IsWf (apply c cs)
  apply-IsWf (initialize key) cs wf = go (initialize_key cipher key cs) refl
    where
      go :
          (r : Result Error (CipherState Aead))
          → initialize_key cipher key cs ≡ r
          → IsWf (or_same r cs)
      go (ok cs') p = initialize_key-IsWf key cs cs' wf p
      go (err e) p = wf
      go panic p = wf
  apply-IsWf (at_nonce n h) cs wf = set_nonce-IsWf n cs h wf
  apply-IsWf (encrypt dst ad p) cs wf = encrypt-IsWf dst ad p cs wf
  apply-IsWf (decrypt dst ad c) cs wf = decrypt-IsWf dst ad c cs wf
  apply-IsWf new_key cs wf = rekey-IsWf cs wf
  apply-IsWf clear cs wf = reset-IsWf cs wf

  apply_all-IsWf : (calls : List Call) (cs : CipherState Aead) → IsWf cs → IsWf (apply_all calls cs)
  unfolding apply_all
  apply_all-IsWf [] cs wf = wf
  apply_all-IsWf (c ∷ calls) cs wf = apply_all-IsWf calls (apply c cs) (apply-IsWf c cs wf)

  -- After any calls on a new CipherState it holds an AEAD exactly when it holds a key, the key has
  -- 32 bytes, the AEAD is the one that `New` makes of it with its own overhead, and the nonce fits
  -- 64 bits.
  pub calls-IsWf : (max : ℕ) (calls : List Call) → IsWf (apply_all calls (new_cipher_state max))
  calls-IsWf max calls = apply_all-IsWf calls (new_cipher_state max) (new_cipher_state-IsWf max)
