-- ===== src/SymmetricState/Progress.antt =====
-- Calls on a SymmetricState that has nonces left for messages that fit.
use nyquist.Base.{
  Bool, true, is_some, sym, refl, ◌+◌, ◌%◌, ◌^◌, Result, ◌<◌, ◌≤◌, ◌≡◌, ℕ, some, none, Option,
  Bytes, ok, ap, ◌∙◌, arith, length, ◌++◌, Option-cases, inl, inr, drop, subst,
}
use nyquist.Pattern.Sizes.{tag_if}
use nyquist.Crypto.{Error, Cipher, CipherLaws, Hash, HashLaws}
use nyquist.CipherState.{has_key, CipherState, encrypt_with_ad, maxnonce}
use nyquist.CipherState.Invariant as CsInvariant
use nyquist.SymmetricState.{
  SymmetricState, encrypt_and_hash, encrypt_with, hash_sealed, mix_key, mix_key_and_hash, mix_hash,
}
use nyquist.SymmetricState.Invariant.{
  IsWf, CsIsWf, Within, mix_key_renews, mix_key_and_hash_renews, mix_hash-IsWf,
}

-- A size within a limit, where 0 is no limit.
abbrev pub Fits : ℕ → ℕ → Type 0
Fits max size = 0 < max → size ≤ max

module _ {Aead : Type 0} (cipher : Cipher Aead) where
  -- Each tag is of `tag` bytes.
  abbrev pub TagsAre : ℕ → Type 0
  TagsAre tag = (a : Aead) → cipher.overhead a ≡ tag

module _ {Aead : Type 0} (cipher : Cipher Aead) (claws : CipherLaws cipher) where
  pub encrypt_succeeds :
      (k max tag : ℕ) (b : Bool) (dst ad p : Bytes) (cs : CipherState Aead)
      → TagsAre cipher tag
      → CsInvariant.IsWf cipher cs
      → cs.n ≤ k
      → cs.max_message_size ≡ max
      → has_key cs ≡ b
      → k < maxnonce
      → Fits max (length p + tag_if b tag)
      → (out : Bytes) × (cs' : CipherState Aead) × (encrypt_with_ad cipher dst ad p cs
          ≡ (ok (dst ++ out), cs'))
        × CsInvariant.IsWf cipher cs'
        × (cs'.n ≤ k + 1)
        × (cs'.max_message_size ≡ max)
        × (has_key cs' ≡ b)
        × (length out ≡ length p + tag_if b tag)
  unfolding encrypt_with_ad
  encrypt_succeeds k max tag b dst ad p cs tags wf low limit keyed room fits =
      elim (Option-cases cs.aead) [
        | inl q ↦
            (p, cs, ground arith, wf, omega (arith, low), limit, keyed, ground (arith, keyed, q))
        | inr (a, q) ↦
            let (key, made) = CsInvariant.aead_made cipher cs a wf q in
            let tag_size = CsInvariant.overhead_made cipher cs a wf q in
            let has : true ≡ b = ap is_some (sym q) ∙ keyed in
            let fits' : Fits max (length p + tag) =
              subst (λ t. Fits max (length p + tag_if t tag)) (sym has) fits in
            let out = cipher.seal a (cipher.encode_nonce cs.n) p ad in
            let cs' = record cs { n = (cs.n + 1) % 2 ^ 64 } in
            let sealed : encrypt_with_ad cipher dst ad p cs ≡ (ok (dst ++ out), cs') =
              ground (arith, tags a, fits') in
            (
              out,
              cs',
              sealed,
              subst (λ (t : Result Error Bytes × CipherState Aead). CsInvariant.IsWf cipher t.1)
                  sealed (CsInvariant.encrypt-IsWf cipher dst ad p cs wf),
              omega (arith, low),
              limit,
              keyed,
              subst (λ t. length out ≡ length p + tag_if t tag) has
                  (omega (arith, tags a, claws.length-seal key a cs.n p ad made)),
            )
      ]

module _ {Aead : Type 0} (cipher : Cipher Aead) (hash : Hash) where
  -- A well-formed state that has encrypted at most `k` messages under its key.
  pub record Stocked (k max : ℕ) (b : Bool) (ss : SymmetricState Aead) : Type 0 where
    pub wf : IsWf cipher hash ss
    pub within : Within cipher hash k max b ss.cs

  Within-mono :
      (k l max : ℕ) (b : Bool) (c : Option (CipherState Aead))
      → k ≤ l
      → Within cipher hash k max b c
      → Within cipher hash l max b c
  Within-mono k l max b none h within = absurd within
  Within-mono k l max b (some cs) h within = (omega (arith, within.0, h), within.1, within.2)

  pub Stocked-mono :
      (k l max : ℕ) (b : Bool) (ss : SymmetricState Aead)
      → k ≤ l
      → Stocked k max b ss
      → Stocked l max b ss
  Stocked-mono k l max b ss h stock = record {
    wf = stock.wf;
    within = Within-mono k l max b ss.cs h stock.within;
  }

module _ {Aead : Type 0} (cipher : Cipher Aead) (hash : Hash) (claws : CipherLaws cipher)
    (hlaws : HashLaws hash) (big : 32 ≤ hash.size) where
  pub mix_hash-Stocked :
      (k max : ℕ) (keyed : Bool) (b : Bytes) (ss : SymmetricState Aead)
      → Stocked cipher hash k max keyed ss
      → Stocked cipher hash k max keyed (mix_hash hash b ss)
  mix_hash-Stocked k max keyed b ss stock = record {
    wf = mix_hash-IsWf cipher hash claws hlaws big b ss stock.wf;
    within = stock.within;
  }

  pub mix_key-Stocked :
      (k max : ℕ) (keyed : Bool) (b : Bytes) (ss : SymmetricState Aead)
      → Stocked cipher hash k max keyed ss
      → (ss' : SymmetricState Aead) × (mix_key cipher hash b ss ≡ ok ss')
        × Stocked cipher hash 0 max true ss'
  mix_key-Stocked k max keyed b ss stock =
      let (ss', made, wf, same, renewed) =
        mix_key_renews cipher hash claws hlaws big b ss stock.wf in
      (ss', made, record { wf = wf; within = renewed k max keyed stock.within })

  pub mix_key_and_hash-Stocked :
      (k max : ℕ) (keyed : Bool) (b : Bytes) (ss : SymmetricState Aead)
      → Stocked cipher hash k max keyed ss
      → (ss' : SymmetricState Aead) × (mix_key_and_hash cipher hash b ss ≡ ok ss')
        × Stocked cipher hash 0 max true ss'
  mix_key_and_hash-Stocked k max keyed b ss stock =
      let (ss', made, wf, renewed) =
        mix_key_and_hash_renews cipher hash claws hlaws big b ss stock.wf in
      (ss', made, record { wf = wf; within = renewed k max keyed stock.within })

  pub encrypt_and_hash-Stocked :
      (k max tag : ℕ) (b : Bool) (dst p : Bytes) (ss : SymmetricState Aead)
      → TagsAre cipher tag
      → k < maxnonce
      → Fits max (length p + tag_if b tag)
      → Stocked cipher hash k max b ss
      → (out : Bytes) × (ss' : SymmetricState Aead) × (encrypt_and_hash cipher hash dst p ss
          ≡ ok (dst ++ out, ss'))
        × Stocked cipher hash (k + 1) max b ss'
        × (length out ≡ length p + tag_if b tag)
  unfolding encrypt_and_hash
  encrypt_and_hash-Stocked k max tag b dst p ss tags room fits stock =
      go ss.cs refl stock.wf.cs stock.within
    where
      go :
          (c : Option (CipherState Aead))
          → ss.cs ≡ c
          → CsIsWf cipher hash c
          → Within cipher hash k max b c
          → (out : Bytes) × (ss' : SymmetricState Aead) × (encrypt_with cipher hash ss.cs dst p ss
              ≡ ok (dst ++ out, ss'))
            × Stocked cipher hash (k + 1) max b ss'
            × (length out ≡ length p + tag_if b tag)
      go none held wf within = absurd wf
      go (some cs) held wf (low, limit, keyed) =
          let (out, cs', sealed, wf', low', limit', keyed', size) =
            encrypt_succeeds cipher claws k max tag b dst ss.h p cs tags wf low limit keyed room
              fits in
          (
            out,
            mix_hash hash (drop (length dst) (dst ++ out)) (record ss { cs = some cs' }),
            ap (λ o. encrypt_with cipher hash o dst p ss) held
                ∙ ap (λ t. hash_sealed cipher hash t dst ss) sealed,
            record {
              wf = record { cs = wf'; ck = stock.wf.ck; h = hlaws.length-digest _ };
              within = (low', limit', keyed');
            },
            size,
          )
