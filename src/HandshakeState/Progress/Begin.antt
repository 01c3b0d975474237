-- ===== src/HandshakeState/Progress/Begin.antt =====
-- A handshake from NewHandshake to its end.
use nyquist.Base.{
  map, take, take-all, false, ◌+◌, ◌≤◌, ◌≡◌, ℕ, List, [], ◌∷◌, Bytes, ok, ap, ◌∙◌, sym, subst,
  arith, length, get_elem?, if◌then◌else◌, ok-injective,
}
use nyquist.Pattern.Validity.{is_valid}
use nyquist.Pattern.Rules.{pre_history, count_psks, history}
use nyquist.Pattern.Rules.Verdict.{is_valid-IsLawful}
use nyquist.Pattern.Rules.Progress.{before}
use nyquist.Pattern.Sizes.{message_lengths, is_keyed, keyed_messages, is_keyed-after_all}
use nyquist.HandshakeState.Ready.{uses_psk}
use nyquist.Crypto.{DhSupplies, CipherLaws, HashLaws, DhLaws}
use nyquist.SymmetricState.Progress.{Fits, Stocked-mono}
use nyquist.HandshakeState.{Protocol, HandshakeConfig, get_max_message_size}
use nyquist.HandshakeState.Tokens.{State}
use nyquist.HandshakeState.Start.{new_handshake}
use nyquist.HandshakeState.Ready.Works.{Sound, new_handshake_ready}
use nyquist.HandshakeState.Ready.Needs.{new_handshake_needs}
use nyquist.HandshakeState.Session.{transcript, run, Completed}
use nyquist.HandshakeState.Sync.Begin.{Fitting}
use nyquist.HandshakeState.Sync.Begun.{new_handshake_starts}
use nyquist.HandshakeState.Progress.{SsStocked}
use nyquist.HandshakeState.Progress.Needs.{lengths_from, length_at}
use nyquist.HandshakeState.Progress.Running.{run_completes}
use nyquist.HandshakeState.Progress.Provided.{AllFit-at, Provided, Started-OwnsStatics}

module _ {Aead Keypair PublicKey Rng : Type 0} (pr : Protocol Aead Keypair PublicKey Rng)
    (claws : CipherLaws pr.cipher) (hlaws : HashLaws pr.hash) (dlaws : DhLaws pr.dh)
    (big : 32 ≤ pr.hash.size) where
  new_handshake-SsStocked :
      (k : ℕ) (cfg : HandshakeConfig Keypair PublicKey Rng) (hs : State pr)
      → is_valid pr.pattern_of ≡ ok tt
      → new_handshake pr cfg ≡ ok hs
      → SsStocked pr k
          (get_max_message_size cfg.max_message_size)
          (is_keyed (uses_psk pr) (pre_history pr.pattern_of))
          hs.ss
  new_handshake-SsStocked k cfg hs valid p =
      let max = get_max_message_size cfg.max_message_size in
      let few = ((is_valid-IsLawful pr.pattern_of).0 valid).few_pre_messages in
      let keyed : keyed_messages (uses_psk pr) false (take 2 pr.pattern_of.pre_messages)
          ≡ is_keyed (uses_psk pr) (pre_history pr.pattern_of) =
        ap (keyed_messages (uses_psk pr) false) (take-all 2 pr.pattern_of.pre_messages few)
        ∙ sym (is_keyed-after_all (uses_psk pr) 0 pr.pattern_of.pre_messages []) in
      let (hs', q, sound) =
        new_handshake_ready pr claws hlaws big cfg (new_handshake_needs pr cfg hs p) in
      let (ss, there, stock) =
        subst (λ b. Sound pr max b hs) keyed
          (subst (Sound pr max _) (ok-injective (sym q ∙ p)) sound) in
      let b = is_keyed (uses_psk pr) (pre_history pr.pattern_of) in
      subst (SsStocked pr k max b) (sym there)
        (Stocked-mono pr.cipher pr.hash 0 k max b ss (omega arith) stock)

  -- The whole handshake and what is on the wire.
  both_complete :
      (tag : ℕ) (ci cr : HandshakeConfig Keypair PublicKey Rng) (w r : State pr)
      (payloads : List Bytes)
      → is_valid pr.pattern_of ≡ ok tt
      → DhSupplies pr.dh
      → Fitting pr ci cr
      → Provided pr tag ci cr payloads
      → new_handshake pr ci ≡ ok w
      → new_handshake pr cr ≡ ok r
      → Completed pr payloads (run pr payloads w r)
        × (map length (transcript pr payloads w r) ≡ lengths_from pr tag 0 payloads)
  both_complete tag ci cr w r [] valid supplies fit given p q =
      absurd (omega (arith, given.count, ((is_valid-IsLawful pr.pattern_of).0 valid).some_message))
  both_complete tag ci cr w r (payload ∷ payloads) valid supplies fit given p q =
      let max = get_max_message_size ci.max_message_size in
      let (both, first, second) =
        new_handshake_starts pr claws hlaws dlaws big ci cr w r valid fit p q in
      let needs = new_handshake_needs pr ci w p in
      let total = ((is_valid-IsLawful pr.pattern_of).0 valid).psks in
      let (completed, sizes) =
        run_completes pr claws hlaws dlaws big supplies tag max given.tags given.nonces payload
          payloads w r valid both
          (record {
            stock =
                subst
                  (λ n.
                    SsStocked pr (length (before pr.pattern_of n) + n) max
                      (is_keyed (uses_psk pr) (before pr.pattern_of n)) w.ss)
                  (sym first.index)
                  (new_handshake-SsStocked (length (pre_history pr.pattern_of) + 0) ci w valid p);
            psk_index = omega (arith, first.psk_index);
            psks =
                subst (λ c. count_psks (history pr.pattern_of) ≤ length c.pre_shared_keys)
                  (sym first.cfg_kept) (omega (arith, total, needs.count));
            limit = first.max;
            w_statics =
                Started-OwnsStatics pr ci cr ci w first
                  (ap (λ t. if t then ci.local_static else cr.local_static) fit.initiates)
                  given.statics;
            r_statics =
                Started-OwnsStatics pr ci cr cr r second
                  (ap (λ t. if t then ci.local_static else cr.local_static) fit.responds)
                  given.statics;
          })
          (omega (arith, first.index, given.count))
          (λ i msg x at at'.
            let here : i ≡ w.pattern_index + i = omega (arith, first.index) in
            subst (λ n. Fits max (length_at pr tag n msg (length x))) here
              (AllFit-at pr max tag 0 i i pr.pattern_of.messages (pre_history pr.pattern_of)
                (payload ∷ payloads) msg x (omega arith) given.sizes
                (ap (get_elem? pr.pattern_of.messages) here ∙ at) at')) in
      (completed, sizes ∙ ap (λ n. lengths_from pr tag n (payload ∷ payloads)) first.index)

  -- Let the pattern be valid, the primitives keep their laws, the hash be of 32 bytes or more, the DH
  -- function generate a keypair whenever it is asked and calculate a secret of any two keypairs it
  -- made, and NewHandshake make a state of each of two fitting configurations. Let each party that
  -- sends `s` have a static keypair, each tag be of `tag` bytes, the messages be within the size limit
  -- and the pattern have no more tokens and messages than there are nonces. If the parties then run
  -- the handshake with as many payloads as the pattern has messages, every WriteMessage and every
  -- ReadMessage succeeds, the payloads arrive in order, and both end with the status ErrDone, the same
  -- handshake hash and the same keyed cipher states at nonce 0.
  pub new_handshake_completes :
      (tag : ℕ) (ci cr : HandshakeConfig Keypair PublicKey Rng) (w r : State pr)
      (payloads : List Bytes)
      → is_valid pr.pattern_of ≡ ok tt
      → DhSupplies pr.dh
      → Fitting pr ci cr
      → Provided pr tag ci cr payloads
      → new_handshake pr ci ≡ ok w
      → new_handshake pr cr ≡ ok r
      → Completed pr payloads (run pr payloads w r)
  new_handshake_completes tag ci cr w r payloads valid supplies fit given p q =
      (both_complete tag ci cr w r payloads valid supplies fit given p q).0

  -- Let the pattern be valid, the primitives keep their laws, the hash be of 32 bytes or more, the DH
  -- function generate a keypair whenever it is asked and calculate a secret of any two keypairs it
  -- made, and NewHandshake make a state of each of two fitting configurations. Let each party that
  -- sends `s` have a static keypair, each tag be of `tag` bytes, the messages be within the size limit
  -- and the pattern have no more tokens and messages than there are nonces. If the parties then run
  -- the handshake with as many payloads as the pattern has messages, each message on the wire is
  -- exactly as long as the pattern says: the public keys' sizes, a tag for each static key that is
  -- sent after a key was agreed upon, the payload, and its tag if there is a key by then. There is a
  -- key after the first DH calculation or pre-shared key, and in a pattern with pre-shared keys after
  -- the first ephemeral key.
  pub length-transcript :
      (tag : ℕ) (ci cr : HandshakeConfig Keypair PublicKey Rng) (w r : State pr)
      (payloads : List Bytes)
      → is_valid pr.pattern_of ≡ ok tt
      → DhSupplies pr.dh
      → Fitting pr ci cr
      → Provided pr tag ci cr payloads
      → new_handshake pr ci ≡ ok w
      → new_handshake pr cr ≡ ok r
      → map length (transcript pr payloads w r)
        ≡ message_lengths
            (uses_psk pr)
            pr.dh.size
            tag
            0
            pr.pattern_of.messages
            (pre_history pr.pattern_of)
            (map length payloads)
  length-transcript tag ci cr w r payloads valid supplies fit given p q =
      (both_complete tag ci cr w r payloads valid supplies fit given p q).1
