-- ===== src/Protocols/Complete.antt =====
-- A handshake of one of the package's own protocols, from the configurations of its parties to its end.
use nyquist.Base.{◌≡◌, inl, inr, List, Bytes, ok, subst, sym, ℕ}
use nyquist.Crypto.{Dh, DhSupplies}
use nyquist.Dh.{Kind, curve25519, curve448, Curve, ReadFull, PublicKey, Keypair}
use nyquist.Dh.Laws.{CurveLaws, Fills}
use nyquist.Dh.Supplies.{NeverFails, x25519_and_x448-DhSupplies}
use nyquist.Ciphers.{Aeads}
use nyquist.Ciphers.Laws.{AeadsLaws, Standard-CipherLaws}
use nyquist.Hashes.{Digests}
use nyquist.Hashes.Laws.{DigestsLaws, Standard-Suitable}
use nyquist.HandshakeState.{HandshakeConfig}
use nyquist.HandshakeState.Tokens.{State}
use nyquist.HandshakeState.Start.{new_handshake}
use nyquist.HandshakeState.Ready.{IsReady}
use nyquist.HandshakeState.Ready.Needs.{new_handshake-IsReady}
use nyquist.HandshakeState.Sync.Begin.{Fitting}
use nyquist.HandshakeState.Session.{run, Completed}
use nyquist.HandshakeState.Progress.Provided.{Provided}
use nyquist.HandshakeState.Progress.Begin.{new_handshake_completes}
use nyquist.Protocols.{new_protocol}
use nyquist.Protocols.Registration.{at_start}
use nyquist.Protocols.Standard.{Own, StandardDh, StandardDh-DhLaws, new_protocol-IsStandard}

module _ {Block Aead Rng : Type 0} (curves : Kind → Curve) (read_full : ReadFull Rng)
    (aeads : Aeads Block Aead) (digests : Digests) (fills : Fills read_full)
    (never : NeverFails read_full) (short : CurveLaws 32 (curves curve25519))
    (long : CurveLaws 56 (curves curve448)) (alaws : AeadsLaws aeads)
    (glaws : DigestsLaws digests) where
  StandardDh-DhSupplies :
      (dh : Dh Keypair PublicKey Rng) → StandardDh curves read_full aeads digests dh → DhSupplies dh
  StandardDh-DhSupplies dh (inl e) =
      subst DhSupplies (sym e) (x25519_and_x448-DhSupplies curves read_full fills never).0
  StandardDh-DhSupplies dh (inr e) =
      subst DhSupplies (sym e) (x25519_and_x448-DhSupplies curves read_full fills never).1

  -- Let the third-party primitives do what their packages say, the source of entropy never fail, and
  -- NewProtocol, before any call of a Register function, return a protocol for some string. Let two
  -- configurations fit, each with the pre-shared keys and the public keys that the pattern wants
  -- beforehand and with a static keypair if its party sends one, the messages being within the size
  -- limit, each tag of `tag` bytes, and the pattern having no more tokens and messages than there are
  -- nonces. Then NewHandshake makes a state of each, and if the parties run the handshake with as
  -- many payloads as the pattern has messages, no WriteMessage and no ReadMessage fails, every payload
  -- arrives, in order, and both end with the status ErrDone, the same handshake hash and the same
  -- keyed cipher states at nonce 0.
  pub new_protocol_completes :
      (s : Bytes) (pr : Own curves read_full aeads digests) (tag : ℕ)
      (ci cr : HandshakeConfig Keypair PublicKey Rng) (payloads : List Bytes)
      → new_protocol (at_start curves read_full aeads digests) s ≡ ok pr
      → Fitting pr ci cr
      → IsReady pr ci
      → IsReady pr cr
      → Provided pr tag ci cr payloads
      → (w r : State pr) × (new_handshake pr ci ≡ ok w)
        × (new_handshake pr cr ≡ ok r)
        × Completed pr payloads (run pr payloads w r)
  new_protocol_completes s pr tag ci cr payloads found fit ready_i ready_r given =
      let is = new_protocol-IsStandard curves read_full aeads digests s pr found in
      let suitable = Standard-Suitable digests pr.hash is.hash glaws in
      let claws = Standard-CipherLaws aeads pr.cipher is.cipher alaws in
      let dlaws =
        StandardDh-DhLaws curves read_full aeads digests fills short long alaws glaws pr.dh is.dh in
      let (w, p) = (new_handshake-IsReady pr claws suitable.laws suitable.big ci).1 ready_i in
      let (r, q) = (new_handshake-IsReady pr claws suitable.laws suitable.big cr).1 ready_r in
      (
        w,
        r,
        p,
        q,
        new_handshake_completes pr claws suitable.laws dlaws suitable.big tag ci cr w r payloads
            is.pattern_of (StandardDh-DhSupplies pr.dh is.dh) fit given p q,
      )
