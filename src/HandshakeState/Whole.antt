-- ===== src/HandshakeState/Whole.antt =====
-- A session as its users see it: the handshake from NewHandshake to ErrDone, and the messages that the
-- parties exchange afterwards under the cipher states of their Status.
use nyquist.Base.{
  ◌≡◌, ◌≤◌, ◌⊎◌, inl, inr, Bool, Option, some, List, Bytes, ok, ok-injective, sym, ap, ◌∙◌, length,
  subst,
}
use nyquist.Pattern.Validity.{is_valid}
use nyquist.Crypto.{CipherLaws, HashLaws, DhLaws, done}
use nyquist.CipherState.{CipherState}
use nyquist.CipherState.RoundTrip.{Sends, Receives}
use nyquist.HandshakeState.{Protocol, HandshakeConfig}
use nyquist.HandshakeState.Tokens.{State}
use nyquist.HandshakeState.Start.{new_handshake}
use nyquist.HandshakeState.Sync.Begin.{Fitting}
use nyquist.HandshakeState.Sync.Exchange.{Finished}
use nyquist.HandshakeState.Session.{run, handshake-Completed}
use nyquist.HandshakeState.Transport.{pick, sent_after_handshake}

module _ {Aead Keypair PublicKey Rng : Type 0} (pr : Protocol Aead Keypair PublicKey Rng)
    (claws : CipherLaws pr.cipher) (hlaws : HashLaws pr.hash) (dlaws : DhLaws pr.dh)
    (big : 32 ≤ pr.hash.size) where
  -- Both parties hold the cipher states that one of them is known to hold.
  both_hold :
      (a b : State pr) (pair : CipherState Aead × Option (CipherState Aead))
      (fin : Finished pr (some done) b a)
      → (a.status.cipher_states ≡ some pair) ⊎ (b.status.cipher_states ≡ some pair)
      → (a.status.cipher_states ≡ some pair) × (b.status.cipher_states ≡ some pair)
  both_hold a b pair fin (inl p) = (p, fin.w_pair ∙ sym fin.r_pair ∙ p)
  both_hold a b pair fin (inr p) = (fin.r_pair ∙ sym fin.w_pair ∙ p, p)

  -- Let the pattern be valid, the primitives keep their laws, the hash be of 32 bytes or more, and
  -- NewHandshake make a state of each of two fitting configurations, and let the parties run the
  -- handshake, with as many payloads as the pattern has messages, without a call that fails. Then the
  -- payloads that arrived are the ones that were sent. Let one of the parties, whichever of the two,
  -- hold a pair of cipher states in its status, and encrypt any messages in a row under the first of
  -- the pair, or under the second. Then both parties hold that pair, and from it the messages are
  -- decrypted in their order to the same plaintexts, up to the same cipher state.
  pub whole_session :
      (ci cr : HandshakeConfig Keypair PublicKey Rng) (w r a b : State pr)
      (payloads payloads' : List Bytes) (which : Bool)
      (pair : CipherState Aead × Option (CipherState Aead)) (c c' : CipherState Aead)
      (msgs : List (Bytes × Bytes × Bytes))
      → is_valid pr.pattern_of ≡ ok tt
      → Fitting pr ci cr
      → new_handshake pr ci ≡ ok w
      → new_handshake pr cr ≡ ok r
      → length payloads ≡ length pr.pattern_of.messages
      → run pr payloads w r ≡ ok (payloads', a, b)
      → (a.status.cipher_states ≡ some pair) ⊎ (b.status.cipher_states ≡ some pair)
      → pick which pair ≡ some c
      → Sends pr.cipher c msgs c'
      → (payloads' ≡ payloads)
        × (a.status.cipher_states ≡ some pair)
        × (b.status.cipher_states ≡ some pair)
        × Receives pr.cipher c msgs c'
  whole_session ci cr w r a b payloads payloads' which pair c c' msgs valid fit p q count ran held
        mine sends =
      elim (handshake-Completed pr claws hlaws dlaws big ci cr w r payloads valid fit p q count) [
        | inl failed ↦ cc
        | inr over ↦
            let same = ok-injective (sym over.all ∙ ran) in
            let there : over.a ≡ a = ap (λ x. x.1) same in
            let here : over.b ≡ b = ap (λ x. x.2) same in
            let fin =
              subst (λ x. Finished pr (some done) b x) there
                (subst (λ x. Finished pr (some done) x over.a) here over.finished) in
            let (one, other) = both_hold a b pair fin held in
            (
              sym (ap (λ x. x.0) same),
              one,
              other,
              sent_after_handshake pr claws which (some done) b a pair pair c c c' msgs fin other
                  one mine mine sends,
            )
      ]
