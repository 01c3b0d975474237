-- ===== src/SymmetricState/Invariant.antt =====
-- The invariant of a SymmetricState, and MixKey, MixKeyAndHash, InitializeSymmetric and Split on a
-- state that keeps it.
use nyquist.Base.{
  Bool, false, ◌*◌, leb→le, length-replicate, ◌-◌, replicate, length-append, leb, Bool-cases, inr,
  inl, zero, ==_iff, length-drop, ◌∙◌, arith, ◌==◌, length-take, ◌∷◌, [], refl, ◌+◌, drop, take,
  Bytes, ◌≤◌, length, Option, true, ℕ, ◌≡◌, ok, none, some,
}
use nyquist.Crypto.{Cipher, CipherLaws, Hash, HashLaws, truncate_to_32_bytes_max, length-truncate}
use nyquist.CipherState.{new_cipher_state, CipherState, has_key, initialize_key}
use nyquist.CipherState.Invariant
use nyquist.CipherState.Rekeying.{initialize_key_outcomes}
use nyquist.SymmetricState.{
  SymmetricState, initialize_cs, mix_key_and_hash, mix_hash, initialize_symmetric, initial_hash,
  new_symmetric_state, split, split_with, mix_key, hkdf_hash,
}

module _ {Aead : Type 0} (cipher : Cipher Aead) (hash : Hash) where
  abbrev pub CsIsWf : Option (CipherState Aead) → Type 0
  CsIsWf none = ⊥
  CsIsWf (some cs) = Invariant.IsWf cipher cs

  -- A CipherState at a nonce of `k` or less, with the size limit `max`, keyed or not.
  abbrev pub Within : ℕ → ℕ → Bool → Option (CipherState Aead) → Type 0
  Within k max b none = ⊥
  Within k max b (some cs) = (cs.n ≤ k) × (cs.max_message_size ≡ max) × (has_key cs ≡ b)

  -- A CipherState that InitializeKey has put in the place of another one.
  abbrev pub Renewed : Option (CipherState Aead) → Option (CipherState Aead) → Type 0
  Renewed old new = (k max : ℕ) (b : Bool) → Within k max b old → Within 0 max true new

  pub record IsWf (ss : SymmetricState Aead) : Type 0 where
    pub cs : CsIsWf ss.cs
    pub ck : length ss.ck ≡ hash.size
    pub h : length ss.h ≡ hash.size

module _ {Aead : Type 0} (cipher : Cipher Aead) (hash : Hash) (claws : CipherLaws cipher)
    (hlaws : HashLaws hash) (big : 32 ≤ hash.size) where
  -- `InitializeKey` with 32 bytes.
  rekeyed :
      (key : Bytes) (cs : CipherState Aead)
      → length key ≡ 32
      → Invariant.IsWf cipher cs
      → (cs' : CipherState Aead) × (initialize_key cipher key cs ≡ ok cs')
        × Invariant.IsWf cipher cs'
        × (has_key cs' ≡ true)
        × (cs'.n ≡ 0)
        × (cs'.max_message_size ≡ cs.max_message_size)
  rekeyed key cs size wf =
      let (cs', made, k, has, n, max) = (initialize_key_outcomes cipher claws key cs).1 size in
      (cs', made, Invariant.initialize_key-IsWf cipher key cs cs' wf made, has, n, max)

  length-initial : (name : Bytes) → length (initial_hash hash name) ≡ hash.size
  length-initial name = elim (Bool-cases (leb (length name) hash.size)) [
    | inl p ↦ rw p (
        omega (
          arith,
          length-append name (replicate (hash.size - length name) 0),
          length-replicate (hash.size - length name) (zero),
          leb→le (length name) hash.size p,
        ))
    | inr p ↦ rw p (hlaws.length-digest name)
  ]

  -- Each output of `hkdfHash` has the length that was asked for.
  abbrev piece : Bytes → Bytes → ℕ → ℕ → Bytes
  piece secret salt off n = take n (drop off (hash.expand secret salt (off + n)))

  length-piece :
      (secret salt : Bytes) (off n : ℕ)
      → off + n ≤ 255 * hash.size
      → length (piece secret salt off n) ≡ n
  length-piece secret salt off n few = length-take n _ (
      omega (
        arith,
        length-drop off (hash.expand secret salt (off + n)),
        hlaws.length-expand secret salt (off + n) few,
      ))

  same_size : hash.size == hash.size ≡ true
  same_size = (==_iff hash.size hash.size).1 refl

  -- Two and three outputs, the first over the chaining key.
  hkdf_two :
      (secret salt : Bytes) (n : ℕ)
      → n ≡ hash.size
      → hkdf_hash hash secret salt (n ∷ hash.size ∷ [])
        ≡ ok (piece secret salt 0 n ∷ piece secret salt (0 + n) hash.size ∷ [])
  hkdf_two secret salt n e = rw e (ground (arith, same_size))

  hkdf_three :
      (secret salt : Bytes) (n : ℕ)
      → n ≡ hash.size
      → hkdf_hash hash secret salt (n ∷ hash.size ∷ hash.size ∷ [])
        ≡ ok (
            piece secret salt 0 n
            ∷ piece secret salt (0 + n) hash.size
            ∷ piece secret salt (0 + n + hash.size) hash.size
            ∷ [])
  hkdf_three secret salt n e = rw e (ground (arith, same_size))

  -- A 32-byte key from an output.
  temp_key : Bytes → Bytes → ℕ → Bytes
  temp_key secret salt off = truncate_to_32_bytes_max (piece secret salt off hash.size)

  length-temp_key :
      (secret salt : Bytes) (off : ℕ) → off ≤ 2 * hash.size → length (temp_key secret salt off) ≡ 32
  unfolding temp_key
  length-temp_key secret salt off few =
      length-truncate (piece secret salt off hash.size)
        (omega (arith, length-piece secret salt off hash.size (omega (arith, few)), big))

  initialize_cs_total :
      (key : Bytes) (c : Option (CipherState Aead)) (ss : SymmetricState Aead)
      → length key ≡ 32
      → CsIsWf cipher hash c
      → (cs' : CipherState Aead) × (initialize_cs cipher hash key c ss
          ≡ ok (record ss { cs = some cs' }))
        × Invariant.IsWf cipher cs'
        × Renewed cipher hash c (some cs')
  initialize_cs_total key none ss size wf = absurd wf
  initialize_cs_total key (some c) ss size wf =
      let (cs', made, wf', has, n, max) = rekeyed key c size wf in
      (cs', rw made, wf', λ k limit b within. (omega (arith, n), max ∙ within.1, has))

  pub mix_key_renews :
      (input : Bytes) (ss : SymmetricState Aead)
      → IsWf cipher hash ss
      → (ss' : SymmetricState Aead) × (mix_key cipher hash input ss ≡ ok ss')
        × IsWf cipher hash ss'
        × (ss'.h ≡ ss.h)
        × Renewed cipher hash ss.cs ss'.cs
  unfolding mix_key temp_key
  mix_key_renews input ss wf =
      let ck = piece input ss.ck 0 (length ss.ck) in
      let (cs', made, wf', renewed) =
        initialize_cs_total (temp_key input ss.ck (0 + length ss.ck)) ss.cs (record ss { ck = ck })
          (length-temp_key input ss.ck (0 + length ss.ck) (omega (arith, wf.ck))) wf.cs in
      (
        record ss { ck = ck; cs = some cs' },
        rw (hkdf_two input ss.ck (length ss.ck) wf.ck) made,
        record {
          cs = wf';
          ck = length-piece input ss.ck 0 (length ss.ck) (omega (arith, wf.ck)) ∙ wf.ck;
          h = wf.h;
        },
        refl,
        renewed,
      )

  -- With a hash of 32 bytes or more, MixKey of a well-formed state does not panic, and leaves it
  -- well-formed, with the same transcript hash.
  pub mix_key_total :
      (input : Bytes) (ss : SymmetricState Aead)
      → IsWf cipher hash ss
      → (ss' : SymmetricState Aead) × (mix_key cipher hash input ss ≡ ok ss')
        × IsWf cipher hash ss'
        × (ss'.h ≡ ss.h)
  mix_key_total input ss wf =
      let (ss', made, wf', same, renewed) = mix_key_renews input ss wf in (ss', made, wf', same)

  pub mix_key_and_hash_renews :
      (input : Bytes) (ss : SymmetricState Aead)
      → IsWf cipher hash ss
      → (ss' : SymmetricState Aead) × (mix_key_and_hash cipher hash input ss ≡ ok ss')
        × IsWf cipher hash ss'
        × Renewed cipher hash ss.cs ss'.cs
  unfolding mix_key_and_hash temp_key
  mix_key_and_hash_renews input ss wf =
      let n = length ss.ck in
      let ck = piece input ss.ck 0 n in
      let mixed = mix_hash hash (piece input ss.ck (0 + n) hash.size) (record ss { ck = ck }) in
      let (cs', made, wf', renewed) =
        initialize_cs_total (temp_key input ss.ck (0 + n + hash.size)) ss.cs mixed
          (length-temp_key input ss.ck (0 + n + hash.size) (omega (arith, wf.ck))) wf.cs in
      (
        record mixed { cs = some cs' },
        rw (hkdf_three input ss.ck n wf.ck) made,
        record {
          cs = wf';
          ck = length-piece input ss.ck 0 n (omega (arith, wf.ck)) ∙ wf.ck;
          h = hlaws.length-digest _;
        },
        renewed,
      )

  -- With a hash of 32 bytes or more, MixKeyAndHash of a well-formed state does not panic, and leaves
  -- it well-formed.
  pub mix_key_and_hash_total :
      (input : Bytes) (ss : SymmetricState Aead)
      → IsWf cipher hash ss
      → (ss' : SymmetricState Aead) × (mix_key_and_hash cipher hash input ss ≡ ok ss')
        × IsWf cipher hash ss'
  mix_key_and_hash_total input ss wf =
      let (ss', made, wf', renewed) = mix_key_and_hash_renews input ss wf in (ss', made, wf')

  pub initialize_symmetric_starts :
      (name : Bytes) (max : ℕ)
      → (ss : SymmetricState Aead) × (initialize_symmetric cipher hash name
            (new_symmetric_state max)
          ≡ ok ss)
        × IsWf cipher hash ss
        × Within cipher hash 0 max false ss.cs
  unfolding initialize_symmetric new_symmetric_state new_cipher_state
  initialize_symmetric_starts name max =
      let (cs', made, has, n, m) =
        (initialize_key_outcomes cipher claws [] (new_cipher_state max)).0 refl in
      let wf =
        Invariant.initialize_key-IsWf cipher [] (new_cipher_state max) cs'
          (Invariant.new_cipher_state-IsWf cipher max) made in
      (
        record { cs = some cs'; ck = initial_hash hash name; h = initial_hash hash name },
        rw made,
        record { cs = wf; ck = length-initial name; h = length-initial name },
        (omega (arith, n), m, has),
      )

  -- With a hash of 32 bytes or more, InitializeSymmetric of a new state does not panic and makes a
  -- well-formed state, whatever the protocol name and the size limit.
  pub initialize_symmetric_total :
      (name : Bytes) (max : ℕ)
      → (ss : SymmetricState Aead) × (initialize_symmetric cipher hash name
            (new_symmetric_state max)
          ≡ ok ss)
        × IsWf cipher hash ss
  initialize_symmetric_total name max =
      let (ss, made, wf, within) = initialize_symmetric_starts name max in (ss, made, wf)

  pub mix_hash-IsWf :
      (input : Bytes) (ss : SymmetricState Aead)
      → IsWf cipher hash ss
      → IsWf cipher hash (mix_hash hash input ss)
  mix_hash-IsWf input ss wf = record { cs = wf.cs; ck = wf.ck; h = hlaws.length-digest _ }

  split_with_total :
      (c : Option (CipherState Aead)) (ck : Bytes)
      → CsIsWf cipher hash c
      → (c1 c2 : CipherState Aead) × (split_with cipher hash c ck ≡ ok (c1, c2))
        × (has_key c1 ≡ true)
        × (has_key c2 ≡ true)
        × (c1.n ≡ 0)
        × (c2.n ≡ 0)
        × Invariant.IsWf cipher c1
        × Invariant.IsWf cipher c2
  unfolding temp_key
  split_with_total none ck wf = absurd wf
  split_with_total (some c) ck wf =
      let fresh = new_cipher_state {Aead = Aead} c.max_message_size in
      let wf0 = Invariant.new_cipher_state-IsWf cipher c.max_message_size in
      let (c1, made1, w1, has1, n1, m1) =
        rekeyed (temp_key [] ck 0) fresh (length-temp_key [] ck 0 (omega arith)) wf0 in
      let (c2, made2, w2, has2, n2, m2) =
        rekeyed (temp_key [] ck (0 + hash.size)) fresh
          (length-temp_key [] ck (0 + hash.size) (omega arith)) wf0 in
      (c1, c2, rw (hkdf_two [] ck hash.size refl) (rw made1 (rw made2)), has1, has2, n1, n2, w1, w2)

  -- With a hash of 32 bytes or more, Split of a well-formed state gives two keyed,
  -- well-formed states at nonce 0.
  pub split_total :
      (ss : SymmetricState Aead)
      → IsWf cipher hash ss
      → (c1 c2 : CipherState Aead) × (split cipher hash ss ≡ ok (c1, c2))
        × (has_key c1 ≡ true)
        × (has_key c2 ≡ true)
        × (c1.n ≡ 0)
        × (c2.n ≡ 0)
        × Invariant.IsWf cipher c1
        × Invariant.IsWf cipher c2
  unfolding split
  split_total ss wf = split_with_total ss.cs ss.ck wf.cs
