-- ===== src/HandshakeState/Progress/Mixing.antt =====
-- The calls on `hs.ss` that a token makes, on a state with nonces left.
use nyquist.Base.{
  ◌+◌, ◌<◌, ◌≤◌, ◌≡◌, ℕ, Option, none, some, Bytes, Result, ok, refl, ap, ◌∙◌, arith, length, Bool,
  true, false, if◌then◌else◌, ◌++◌,
}
use nyquist.Base.Exec.{pure}
use nyquist.Pattern.{token_e}
use nyquist.Pattern.Sizes.{keyed_after, tag_if}
use nyquist.Crypto.{Error, CipherLaws, HashLaws, DhLaws}
use nyquist.CipherState.{maxnonce}
use nyquist.SymmetricState.{SymmetricState, mix_hash, mix_key}
use nyquist.SymmetricState.Progress.{
  Stocked, Stocked-mono, Fits, TagsAre, mix_hash-Stocked, mix_key-Stocked, encrypt_and_hash-Stocked,
}
use nyquist.HandshakeState.{Protocol}
use nyquist.HandshakeState.Tokens.{
  State, call_ss, on_ss, store_ss, mix_hash_call, mix_key_call, encrypt_call, encrypt_on, sealed,
}
use nyquist.HandshakeState.Progress.{SsStocked, Mixed}

module _ {Aead Keypair PublicKey Rng : Type 0} (pr : Protocol Aead Keypair PublicKey Rng)
    (claws : CipherLaws pr.cipher) (hlaws : HashLaws pr.hash) (dlaws : DhLaws pr.dh)
    (big : 32 ≤ pr.hash.size) where
  -- A call on `hs.ss` that succeeds on every stocked state.
  pub call-Mixed :
      (k max : ℕ) (b b' : Bool) (f : SymmetricState Aead → Result Error (SymmetricState Aead))
      (w : State pr)
      → ((ss : SymmetricState Aead)
          → Stocked pr.cipher pr.hash k max b ss
          → (ss' : SymmetricState Aead) × (f ss ≡ ok ss') × Stocked pr.cipher pr.hash k max b' ss')
      → SsStocked pr k max b w.ss
      → Mixed pr k max b' (call_ss f w) w
  call-Mixed k max b b' f w works stock = go w.ss refl stock
    where
      go :
          (o : Option (SymmetricState Aead))
          → w.ss ≡ o
          → SsStocked pr k max b o
          → Mixed pr k max b' (call_ss f w) w
      go none p q = absurd q
      go (some ss) p q =
          let (ss', made, stock') = works ss q in
          record {
            ss = ss';
            did = ap (λ o. on_ss f o w) p ∙ ap (λ x. store_ss x w) made;
            stock = stock';
          }

  pub mix_hash-Mixed :
      (k max : ℕ) (keyed : Bool) (b : Bytes) (w : State pr)
      → SsStocked pr k max keyed w.ss
      → Mixed pr k max keyed (mix_hash_call pr b w) w
  mix_hash-Mixed k max keyed b w =
      call-Mixed k max keyed keyed (λ ss. ok (mix_hash pr.hash b ss)) w
        λ ss q. (
          mix_hash pr.hash b ss,
          refl,
          mix_hash-Stocked pr.cipher pr.hash claws hlaws big k max keyed b ss q,
        )

  pub renewed :
      (k max : ℕ) (ss : SymmetricState Aead)
      → Stocked pr.cipher pr.hash 0 max true ss
      → Stocked pr.cipher pr.hash k max true ss
  renewed k max ss = Stocked-mono pr.cipher pr.hash 0 k max true ss (omega arith)

  pub mix_key-Mixed :
      (k max : ℕ) (keyed : Bool) (b : Bytes) (w : State pr)
      → SsStocked pr k max keyed w.ss
      → Mixed pr k max true (mix_key_call pr b w) w
  mix_key-Mixed k max keyed b w =
      call-Mixed k max keyed true (mix_key pr.cipher pr.hash b) w λ ss q.
        let (ss', made, stock) =
          mix_key-Stocked pr.cipher pr.hash claws hlaws big k max keyed b ss q in
        (ss', made, renewed k max ss' stock)

  same-Mixed :
      (k max : ℕ) (keyed : Bool) (w : State pr)
      → SsStocked pr k max keyed w.ss
      → Mixed pr k max keyed (ok tt, w) w
  same-Mixed k max keyed w stock = go w.ss refl stock
    where
      go :
          (o : Option (SymmetricState Aead))
          → w.ss ≡ o
          → SsStocked pr k max keyed o
          → Mixed pr k max keyed (ok tt, w) w
      go none p q = absurd q
      go (some ss) p q = record {
        ss = ss;
        did = ap (λ o. (ok tt, record w { ss = o })) p;
        stock = q;
      }

  pub mix_if-Mixed :
      (psk : Bool) (k max : ℕ) (keyed : Bool) (b : Bytes) (w : State pr)
      → SsStocked pr k max keyed w.ss
      → Mixed pr k max
          (keyed_after psk keyed token_e)
          ((if psk then mix_key_call pr b else pure tt) w)
          w
  mix_if-Mixed true k max keyed b w stock = mix_key-Mixed k max keyed b w stock
  mix_if-Mixed false k max keyed b w stock = same-Mixed k max keyed w stock

  -- EncryptAndHash of a message that fits.
  pub encrypt_succeeds :
      (k max tag : ℕ) (b : Bool) (dst p : Bytes) (w : State pr)
      → TagsAre pr.cipher tag
      → k < maxnonce
      → Fits max (length p + tag_if b tag)
      → SsStocked pr k max b w.ss
      → (out : Bytes) × (ss : SymmetricState Aead) × (encrypt_call pr dst p w
          ≡ (ok (dst ++ out), record w { ss = some ss }))
        × Stocked pr.cipher pr.hash (k + 1) max b ss
        × (length out ≡ length p + tag_if b tag)
  encrypt_succeeds k max tag b dst p w tags room fits stock = go w.ss refl stock
    where
      go :
          (o : Option (SymmetricState Aead))
          → w.ss ≡ o
          → SsStocked pr k max b o
          → (out : Bytes) × (ss : SymmetricState Aead) × (encrypt_call pr dst p w
              ≡ (ok (dst ++ out), record w { ss = some ss }))
            × Stocked pr.cipher pr.hash (k + 1) max b ss
            × (length out ≡ length p + tag_if b tag)
      go none there q = absurd q
      go (some ss) there q =
          let (out, ss', made, stock', size) =
            encrypt_and_hash-Stocked pr.cipher pr.hash claws hlaws big k max tag b dst p ss tags
              room fits q in
          (
            out,
            ss',
            ap (λ o. encrypt_on pr o dst p w) there ∙ ap (λ x. sealed pr x w) made,
            stock',
            size,
          )
