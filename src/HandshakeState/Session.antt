-- ===== src/HandshakeState/Session.antt =====
-- A handshake as its users run it: the two parties call WriteMessage and ReadMessage in turns until
-- the messages of the pattern are through.
use nyquist.Base.{
  ◌+◌, ◌≡◌, ◌≤◌, ◌⊎◌, inl, inr, Option, some, List, [], ◌∷◌, Bytes, Result, ok, err, panic, refl,
  sym, ap, ◌∙◌, subst, arith, length,
}
use nyquist.Pattern.Validity.{is_valid}
use nyquist.Crypto.{Error, done, DhLaws, CipherLaws, HashLaws}
use nyquist.HandshakeState.{Protocol, HandshakeConfig}
use nyquist.Pattern.Rules.Verdict.{is_valid-IsLawful}
use nyquist.HandshakeState.Start.{new_handshake}
use nyquist.HandshakeState.Sync.Begin.{Fitting}
use nyquist.HandshakeState.Sync.Begun.{new_handshake-Partners}
use nyquist.HandshakeState.Tokens.{State}
use nyquist.HandshakeState.Messages.{write_message, read_message}
use nyquist.HandshakeState.Sync.Exchange.{Finished}
use nyquist.HandshakeState.Sync.Partners.{Partners, Delivered, write_message-Delivered}

-- Why a run stops before its end: a call of WriteMessage or of ReadMessage that did not succeed.
pub data Failure : Type 0 where
  write_failed read_failed : Failure

module _ {Aead Keypair PublicKey Rng : Type 0} (pr : Protocol Aead Keypair PublicKey Rng) where
  -- The payloads that arrived and the two states, the one whose turn is next first.
  abbrev pub Ran : Type 0
  Ran = Result Failure (List Bytes × State pr × State pr)

  abbrev pub arrived : Bytes → Ran → Ran
  arrived payload (ok (payloads, a, b)) = ok (payload ∷ payloads, a, b)
  arrived payload (err e) = err e
  arrived payload panic = panic

  abbrev pub received :
      (State pr → State pr → Ran) → State pr → Result Error (Bytes × Option Error) × State pr → Ran
  received next w (ok (payload, e), r) = arrived payload (next r w)
  received next w (err e, r) = err read_failed
  received next w (panic, r) = err read_failed

  abbrev pub sent :
      (State pr → State pr → Ran) → Result Error (Bytes × Option Error) × State pr → State pr → Ran
  sent next (ok (message, e), w) r = received next w (read_message pr [] message r)
  sent next (err e, w) r = err write_failed
  sent next (panic, w) r = err write_failed

  -- `w` writes the first payload, `r` reads the message and writes the second one, and so on.
  unfoldable pub run : List Bytes → State pr → State pr → Ran
  run [] w r = ok ([], w, r)
  run (payload ∷ payloads) w r = sent (run payloads) (write_message pr [] payload w) r

  abbrev pub on_wire :
      (State pr → State pr → List Bytes)
      → Result Error (Bytes × Option Error) × State pr
      → State pr
      → List Bytes
  on_wire next (ok (message, e), w) r = message ∷ next (read_message pr [] message r).1 w
  on_wire next (err e, w) r = []
  on_wire next (panic, w) r = []

  -- The messages of a run as they are sent.
  unfoldable pub transcript : List Bytes → State pr → State pr → List Bytes
  transcript [] w r = []
  transcript (payload ∷ payloads) w r =
      on_wire (transcript payloads) (write_message pr [] payload w) r

  -- The end of a run in which every write succeeded.
  pub record Completed (payloads : List Bytes) (ran : Ran) : Type 0 where
    pub a : State pr
    pub b : State pr
    pub all : ran ≡ ok (payloads, a, b)
    pub finished : Finished pr (some done) b a

  pub next-Completed :
      (payload : Bytes) (payloads : List Bytes) (ran : Ran)
      → Completed payloads ran
      → Completed (payload ∷ payloads) (arrived payload ran)
  next-Completed payload payloads ran c = record {
    a = c.a;
    b = c.b;
    all = ap (arrived payload) c.all;
    finished = c.finished;
  }

  arrived-Completed :
      (payload : Bytes) (payloads : List Bytes) (ran : Ran)
      → (ran ≡ err write_failed) ⊎ Completed payloads ran
      → (arrived payload ran ≡ err write_failed)
        ⊎ Completed (payload ∷ payloads) (arrived payload ran)
  arrived-Completed payload payloads ran (inl p) = inl (ap (arrived payload) p)
  arrived-Completed payload payloads ran (inr c) = inr (next-Completed payload payloads ran c)

module _ {Aead Keypair PublicKey Rng : Type 0} (pr : Protocol Aead Keypair PublicKey Rng)
    (claws : CipherLaws pr.cipher) (hlaws : HashLaws pr.hash) (dlaws : DhLaws pr.dh)
    (big : 32 ≤ pr.hash.size) where
  -- What one message does to the run.
  step_run :
      (next : State pr → State pr → Ran pr) (payload : Bytes) (w r : State pr)
      (x : Result Error (Bytes × Option Error)) (w' : State pr)
      → is_valid pr.pattern_of ≡ ok tt
      → Partners pr w r
      → write_message pr [] payload w ≡ (x, w')
      → (sent pr next (x, w') r ≡ err write_failed)
        ⊎ ((out : Bytes) × (e : Option Error) × (d : Delivered pr [] payload out e w w' r) × (sent
                pr next
                (x, w')
                r
              ≡ arrived pr payload (next d.r' w')))
  step_run next payload w r (ok (out, e)) w' valid both p =
      let d =
        write_message-Delivered pr claws hlaws dlaws big [] payload out e w w' r valid both p in
      inr (
        out,
        e,
        d,
        ap (λ m. received pr next w' (read_message pr [] m r)) d.appended
            ∙ ap (received pr next w') (d.reads []),
      )
  step_run next payload w r (err e) w' valid both p = inl refl
  step_run next payload w r panic w' valid both p = inl refl

  -- What is left of the handshake, from any two states that agree.
  run-Completed :
      (payload : Bytes) (payloads : List Bytes) (w r : State pr)
      → is_valid pr.pattern_of ≡ ok tt
      → Partners pr w r
      → w.pattern_index + length (payload ∷ payloads) ≡ length pr.pattern_of.messages
      → (run pr (payload ∷ payloads) w r ≡ err write_failed)
        ⊎ Completed pr (payload ∷ payloads) (run pr (payload ∷ payloads) w r)
  unfolding run
  run-Completed payload [] w r valid both count =
      elim (step_run (run pr []) payload w r _ _ valid both refl) [
        | inl p ↦ inl p
        | inr (out, e, d, p) ↦ elim d.outcome [
          | inl on ↦ absurd (omega (arith, count, on.more, d.advanced))
          | inr fin ↦ inr (record {
            a = d.r';
            b = (write_message pr [] payload w).1;
            all = p;
            finished =
                subst (λ x. Finished pr x (write_message pr [] payload w).1 d.r') fin.result fin;
          })
        ]
      ]
  run-Completed payload (second ∷ payloads) w r valid both count =
      elim (step_run (run pr (second ∷ payloads)) payload w r _ _ valid both refl) [
        | inl p ↦ inl p
        | inr (out, e, d, p) ↦ elim d.outcome [
          | inl on ↦
              subst
                (λ ran. (ran ≡ err write_failed) ⊎ Completed pr (payload ∷ second ∷ payloads) ran)
                (sym p)
                (arrived-Completed pr payload (second ∷ payloads)
                  (run pr (second ∷ payloads) d.r' (write_message pr [] payload w).1)
                  (run-Completed second payloads d.r' (write_message pr [] payload w).1 valid
                    on.next
                    (ap (λ n. n + length (second ∷ payloads)) (sym on.next.index)
                      ∙ omega (arith, count, d.advanced))))
          | inr fin ↦ absurd (omega (arith, count, fin.ended, d.advanced))
        ]
      ]

module _ {Aead Keypair PublicKey Rng : Type 0} (pr : Protocol Aead Keypair PublicKey Rng)
    (claws : CipherLaws pr.cipher) (hlaws : HashLaws pr.hash) (dlaws : DhLaws pr.dh)
    (big : 32 ≤ pr.hash.size) where
  -- Let the pattern be valid, the primitives keep their laws, the hash be of 32 bytes or more, and
  -- NewHandshake make a state of each of two fitting configurations. If the parties then run the
  -- handshake with as many payloads as the pattern has messages, either some WriteMessage does not
  -- succeed, or every payload arrives, in order, no ReadMessage fails, and both end with the status
  -- ErrDone, the same handshake hash and the same keyed cipher states at nonce 0.
  pub handshake-Completed :
      (ci cr : HandshakeConfig Keypair PublicKey Rng) (w r : State pr) (payloads : List Bytes)
      → is_valid pr.pattern_of ≡ ok tt
      → Fitting pr ci cr
      → new_handshake pr ci ≡ ok w
      → new_handshake pr cr ≡ ok r
      → length payloads ≡ length pr.pattern_of.messages
      → (run pr payloads w r ≡ err write_failed) ⊎ Completed pr payloads (run pr payloads w r)
  handshake-Completed ci cr w r [] valid fit p q count =
      absurd (omega (arith, count, ((is_valid-IsLawful pr.pattern_of).0 valid).some_message))
  handshake-Completed ci cr w r (payload ∷ payloads) valid fit p q count =
      let (both, first) = new_handshake-Partners pr claws hlaws dlaws big ci cr w r valid fit p q in
      run-Completed pr claws hlaws dlaws big payload payloads w r valid both
        (omega (arith, first, count))
