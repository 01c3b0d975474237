-- ===== src/HandshakeState/Progress/Tokens.antt =====
-- One token of WriteMessage's loop, from a writer that has what it takes.
use nyquist.Base.{
  Bool, false, ◌+◌, ◌<◌, ◌≤◌, ◌≡◌, ◌≢◌, ℕ, Option, none, some, Bytes, ok, refl, ap, ◌∙◌, arith,
  ◌++◌, length-append,
}
use nyquist.Base.Exec.{bind_same, pure, ◌>>◌}
use nyquist.Pattern.{
  Token, token_e, token_s, token_ee, token_es, token_se, token_ss, token_psk, token_invalid,
}
use nyquist.Pattern.Rules.{psk_weight}
use nyquist.Pattern.Sizes.{keyed_after, tag_if, token_length}
use nyquist.HandshakeState.Ready.{uses_psk}
use nyquist.Crypto.{DhSupplies, CipherLaws, HashLaws, DhLaws, Made}
use nyquist.CipherState.{maxnonce}
use nyquist.SymmetricState.{SymmetricState}
use nyquist.SymmetricState.Progress.{Stocked-mono, Fits, TagsAre}
use nyquist.HandshakeState.{Protocol, Held}
use nyquist.HandshakeState.Tokens.{
  State, Do, mix_hash_call, mix_if_psk, ensure_e, generated, write_s, on_write_token_e,
  on_write_token_s, on_token_ee, on_token_es, on_token_se, on_token_ss, on_token_psk,
}
use nyquist.HandshakeState.Messages.{write_token, quiet}
use nyquist.HandshakeState.Sync.{MadeHeld, Mirror, Readable}
use nyquist.HandshakeState.Progress.{SsStocked, Mixed, Equipped, TokenWritten}
use nyquist.HandshakeState.Progress.Handlers.{ee-Mixed, es-Mixed, se-Mixed, ss-Mixed, psk_succeeds}
use nyquist.HandshakeState.Progress.Mixing.{mix_hash-Mixed, mix_if-Mixed, encrypt_succeeds}

module _ {Aead Keypair PublicKey Rng : Type 0} (pr : Protocol Aead Keypair PublicKey Rng) where
  SsStocked-mono :
      (k l max : ℕ) (b : Bool) (o : Option (SymmetricState Aead))
      → k ≤ l
      → SsStocked pr k max b o
      → SsStocked pr l max b o
  SsStocked-mono k l max b none h stock = absurd stock
  SsStocked-mono k l max b (some ss) h stock = Stocked-mono pr.cipher pr.hash k l max b ss h stock

  -- A token that writes nothing.
  quiet-TokenWritten :
      (v : Token) (m : Do pr (Unit {0})) (dst : Bytes) (k max : ℕ) (b : Bool) (tag : ℕ)
      (w w' : State pr)
      → write_token pr v dst w ≡ quiet pr m dst w
      → token_length pr.dh.size tag b v ≡ 0
      → m w ≡ (ok tt, w')
      → SsStocked pr k max (keyed_after (uses_psk pr) b v) w'.ss
      → w'.psk_index ≡ w.psk_index + psk_weight v
      → TokenWritten pr v dst k max b tag w
  quiet-TokenWritten v m dst k max b tag w w' handler nothing did stock psks = record {
    out = dst;
    w' = w';
    wrote = handler ∙ bind_same m (λ _. pure dst) w w' tt did;
    stock = SsStocked-mono k (k + 1) max (keyed_after (uses_psk pr) b v) w'.ss (omega arith) stock;
    psk_index = psks;
    size = omega (arith, nothing);
  }

  mix-TokenWritten :
      (v : Token) (m : Do pr (Unit {0})) (dst : Bytes) (k max : ℕ) (b : Bool) (tag : ℕ)
      (w : State pr)
      → write_token pr v dst w ≡ quiet pr m dst w
      → token_length pr.dh.size tag b v ≡ 0
      → psk_weight v ≡ 0
      → Mixed pr k max (keyed_after (uses_psk pr) b v) (m w) w
      → TokenWritten pr v dst k max b tag w
  mix-TokenWritten v m dst k max b tag w handler nothing none_used mixed =
      quiet-TokenWritten v m dst k max b tag w (record w { ss = some mixed.ss }) handler nothing
        mixed.did mixed.stock (omega (arith, none_used))

  -- The keypair that `e` sends: the one that is there, or a new one.
  ensure_succeeds :
      (o : Option (Held Keypair)) (w : State pr)
      → DhSupplies pr.dh
      → w.e ≡ o
      → MadeHeld pr o
      → (held : Held Keypair) × (rng : Rng) × (ensure_e pr o w
          ≡ (ok held.pair, record w { e = some held; rng = rng }))
        × Made pr.dh held.pair
  ensure_succeeds none w supplies there made =
      let (kp, rng, new) = supplies.generates w.rng in
      (
        record { pair = kp; from_config = false },
        rng,
        ap (λ x. generated pr x w) new,
        Made.generated w.rng rng new,
      )
  ensure_succeeds (some held) w supplies there made =
      (held, w.rng, ap (λ o. (ok held.pair, record w { e = o })) there, made)

module _ {Aead Keypair PublicKey Rng : Type 0} (pr : Protocol Aead Keypair PublicKey Rng)
    (claws : CipherLaws pr.cipher) (hlaws : HashLaws pr.hash) (dlaws : DhLaws pr.dh)
    (big : 32 ≤ pr.hash.size) (supplies : DhSupplies pr.dh) (tag max : ℕ)
    (tags : TagsAre pr.cipher tag) where
  e_succeeds :
      (dst : Bytes) (k : ℕ) (keyed : Bool) (w : State pr)
      → MadeHeld pr w.e
      → SsStocked pr k max keyed w.ss
      → TokenWritten pr token_e dst k max keyed tag w
  unfolding write_token on_write_token_e
  e_succeeds dst k keyed w made stock =
      let (held, rng, ensured, is_made) = ensure_succeeds pr w.e w supplies refl made in
      let pk = pr.dh.public held.pair in
      let b = pr.dh.to_bytes pk in
      let w1 = record w { e = some held; rng = rng } in
      let hashed = mix_hash-Mixed pr claws hlaws dlaws big k max keyed b w1 stock in
      let w2 = record w1 { ss = some hashed.ss } in
      let mixed =
        mix_if-Mixed pr claws hlaws dlaws big (uses_psk pr) k max keyed b w2 hashed.stock in
      let w3 = record w2 { ss = some mixed.ss } in
      let sent : Do pr Bytes = λ hs.
        (ok (dst ++ b), record hs { status = record hs.status { local_ephemeral = some pk } }) in
      record {
        out = dst ++ b;
        w' = record w3 { status = record w3.status { local_ephemeral = some pk } };
        wrote =
            bind_same (ensure_e pr w.e)
              (λ kp.
                let e_bytes = pr.dh.to_bytes (pr.dh.public kp) in
                mix_hash_call pr e_bytes
                >> (mix_if_psk pr e_bytes >> λ hs. (
                  ok (dst ++ e_bytes),
                  record hs {
                    status = record hs.status { local_ephemeral = some (pr.dh.public kp) };
                  },
                )))
              w w1 held.pair ensured
            ∙ bind_same (mix_hash_call pr b) (λ _. mix_if_psk pr b >> sent) w1 w2 tt hashed.did
            ∙ bind_same (mix_if_psk pr b) (λ _. sent) w2 w3 tt mixed.did;
        stock =
            Stocked-mono pr.cipher pr.hash k (k + 1) max (keyed_after (uses_psk pr) keyed token_e)
              mixed.ss (omega arith) mixed.stock;
        psk_index = omega arith;
        size = omega (arith, length-append dst b, dlaws.length-to_bytes held.pair is_made);
      }

  s_succeeds :
      (dst : Bytes) (k : ℕ) (b : Bool) (w : State pr)
      → k < maxnonce
      → Fits max (pr.dh.size + tag_if b tag)
      → MadeHeld pr w.s
      → w.s ≢ none
      → SsStocked pr k max b w.ss
      → TokenWritten pr token_s dst k max b tag w
  unfolding write_token on_write_token_s
  s_succeeds dst k b w room fits made has stock = go w.s refl made has
    where
      go :
          (o : Option (Held Keypair))
          → w.s ≡ o
          → MadeHeld pr o
          → o ≢ none
          → TokenWritten pr token_s dst k max b tag w
      go none there made has = absurd (has refl)
      go (some held) there made has =
          let bytes = pr.dh.to_bytes (pr.dh.public held.pair) in
          let size = dlaws.length-to_bytes held.pair made in
          let (out, ss, sealed, stock', exact) =
            encrypt_succeeds pr claws hlaws dlaws big k max tag b dst bytes w tags room
              (λ limited. omega (arith, fits limited, size)) stock in
          record {
            out = dst ++ out;
            w' = record w { ss = some ss };
            wrote = ap (λ o. write_s pr o dst w) there ∙ sealed;
            stock = stock';
            psk_index = omega arith;
            size = omega (arith, length-append dst out, exact, size);
          }

  -- Each token that the pattern allows, of a writer that agrees with its reader.
  pub token_succeeds :
      (v : Token) (dst : Bytes) (k : ℕ) (b : Bool) (w r : State pr)
      → Mirror pr w r
      → Readable pr v w
      → Readable pr v r
      → Equipped pr v w
      → k < maxnonce
      → Fits max (token_length pr.dh.size tag b v)
      → SsStocked pr k max b w.ss
      → TokenWritten pr v dst k max b tag w
  unfolding write_token
  token_succeeds token_e dst k b w r mir own theirs has room fits stock =
      e_succeeds dst k b w mir.w_e stock
  token_succeeds token_s dst k b w r mir own theirs has room fits stock =
      s_succeeds dst k b w room fits mir.w_s has stock
  token_succeeds token_ee dst k b w r mir own theirs has room fits stock =
      mix-TokenWritten pr token_ee (on_token_ee pr) dst k max b tag w refl refl refl
        (ee-Mixed pr claws hlaws dlaws big k max b w r supplies mir own theirs stock)
  token_succeeds token_es dst k b w r mir own theirs has room fits stock =
      mix-TokenWritten pr token_es (on_token_es pr) dst k max b tag w refl refl refl
        (es-Mixed pr claws hlaws dlaws big k max b w r supplies mir own theirs stock)
  token_succeeds token_se dst k b w r mir own theirs has room fits stock =
      mix-TokenWritten pr token_se (on_token_se pr) dst k max b tag w refl refl refl
        (se-Mixed pr claws hlaws dlaws big k max b w r supplies mir own theirs stock)
  token_succeeds token_ss dst k b w r mir own theirs has room fits stock =
      mix-TokenWritten pr token_ss (on_token_ss pr) dst k max b tag w refl refl refl
        (ss-Mixed pr claws hlaws dlaws big k max b w r supplies mir own theirs stock)
  token_succeeds token_psk dst k b w r mir own theirs has room fits stock =
      let (w', did, stock', count) = psk_succeeds pr claws hlaws dlaws big k max b w has stock in
      quiet-TokenWritten pr token_psk (on_token_psk pr) dst k max b tag w w' refl refl did stock'
        count
  token_succeeds (token_invalid n) dst k b w r mir own theirs has room fits stock = absurd has
