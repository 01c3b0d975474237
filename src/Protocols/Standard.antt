-- ===== src/Protocols/Standard.antt =====
-- The protocols that NewProtocol makes of the package's own patterns, DH functions, ciphers and hashes,
-- and their handshakes.
use nyquist.Base.{
  ◌≡◌, ◌⊎◌, inl, inr, List, Bytes, ok, err, refl, sym, subst, length, split, lookup-Named,
}
use nyquist.Pattern.{Pattern}
use nyquist.Crypto.{Cipher, Hash, Dh, DhLaws}
use nyquist.Dh.{Kind, curve25519, curve448, Curve, ReadFull, PublicKey, Keypair, x25519, functions}
use nyquist.Dh.X448.{x448}
use nyquist.Dh.Registry.{supported_dhs}
use nyquist.Dh.Laws.{CurveLaws, Fills, x25519_and_x448-DhLaws}
use nyquist.Ciphers.{Aeads, chacha_poly, aes_gcm, deoxys_ii, supported_ciphers}
use nyquist.Ciphers.Nonces.{Standard}
use nyquist.Ciphers.Laws.{AeadsLaws, Standard-CipherLaws}
use nyquist.Hashes.{Digests, sha256, sha512, blake2s, blake2b, supported_hashes}
use nyquist.Hashes.Laws as Hashes
use nyquist.Hashes.Laws.{DigestsLaws, Standard-Suitable}
use nyquist.HandshakeState.{Protocol, HandshakeConfig}
use nyquist.HandshakeState.Tokens.{State}
use nyquist.HandshakeState.Start.{new_handshake}
use nyquist.HandshakeState.Sync.Begin.{Fitting}
use nyquist.HandshakeState.Session.{run, write_failed, Completed, handshake-Completed}
use nyquist.Protocols.{new_protocol}
use nyquist.Protocols.Names.{Accepted, from_parts-Found}
use nyquist.Protocols.Registration.{at_start, at_start-IsNamed}

module _ {Block Aead Rng : Type 0} (curves : Kind → Curve) (read_full : ReadFull Rng)
    (aeads : Aeads Block Aead) (digests : Digests) where
  abbrev pub Own : Type 0
  Own = Protocol Aead Keypair PublicKey Rng

  -- A DH function of the package.
  abbrev pub StandardDh : Dh Keypair PublicKey Rng → Type 0
  StandardDh dh = (dh ≡ x25519 curves read_full) ⊎ (dh ≡ x448 curves read_full)

  -- What NewProtocol finds before any call of a Register function.
  pub record IsStandard (pr : Own) : Type 0 where
    pub pattern_of : Accepted pr.pattern_of
    pub dh : StandardDh pr.dh
    pub cipher : Standard aeads pr.cipher
    pub hash : Hashes.Standard digests pr.hash

  pub new_protocol-IsStandard :
      (s : Bytes) (pr : Own)
      → new_protocol (at_start curves read_full aeads digests) s ≡ ok pr
      → IsStandard pr
  unfolding new_protocol supported_dhs supported_ciphers supported_hashes x25519 x448 functions
      chacha_poly aes_gcm deoxys_ii sha256 sha512 blake2s blake2b
  new_protocol-IsStandard s pr p =
      let regs = at_start curves read_full aeads digests in
      let f = from_parts-Found regs (split b'_' s) pr p in
      let named = at_start-IsNamed curves read_full aeads digests in
      record {
        pattern_of =
            (lookup-Named (λ (pa : Pattern). pa.name) Accepted regs.patterns f.pattern_part
              pr.pattern_of named.patterns f.patterns).1;
        dh =
            (lookup-Named (λ (dh : Dh Keypair PublicKey Rng). dh.name) StandardDh regs.dhs f.dh_part
              pr.dh (refl, inl refl, (refl, inr refl, tt)) f.dhs).1;
        cipher =
            (lookup-Named (λ (c : Cipher Aead). c.name) (Standard aeads) regs.ciphers f.cipher_part
              pr.cipher
              (
                refl,
                Standard.is_chacha_poly refl,
                (refl, Standard.is_aes_gcm refl, (refl, Standard.is_deoxys_ii refl, tt)),
              )
              f.ciphers).1;
        hash =
            (lookup-Named (λ (h : Hash). h.name) (Hashes.Standard digests) regs.hashes f.hash_part
              pr.hash
              (
                refl,
                Hashes.Standard.is_sha256 refl,
                (
                  refl,
                  Hashes.Standard.is_sha512 refl,
                  (
                    refl,
                    Hashes.Standard.is_blake2s refl,
                    (refl, Hashes.Standard.is_blake2b refl, tt),
                  ),
                ),
              )
              f.hashes).1;
      }

  module _ (fills : Fills read_full) (short : CurveLaws 32 (curves curve25519))
      (long : CurveLaws 56 (curves curve448)) (alaws : AeadsLaws aeads)
      (glaws : DigestsLaws digests) where
    pub StandardDh-DhLaws : (dh : Dh Keypair PublicKey Rng) → StandardDh dh → DhLaws dh
    StandardDh-DhLaws dh (inl e) =
        subst DhLaws (sym e) (x25519_and_x448-DhLaws curves read_full fills short long).0
    StandardDh-DhLaws dh (inr e) =
        subst DhLaws (sym e) (x25519_and_x448-DhLaws curves read_full fills short long).1

    -- Let the third-party primitives do what their packages say, and NewProtocol, before any call of a
    -- Register function, return a protocol for some string. If NewHandshake makes a state of each of
    -- two fitting configurations, and the parties run the handshake with as many payloads as the
    -- pattern has messages, then either some WriteMessage does not succeed, or every payload arrives,
    -- in order, and both end with the status ErrDone, the same handshake hash and the same keyed
    -- cipher states at nonce 0.
    pub new_protocol-Completed :
        (s : Bytes) (pr : Own) (ci cr : HandshakeConfig Keypair PublicKey Rng) (w r : State pr)
        (payloads : List Bytes)
        → new_protocol (at_start curves read_full aeads digests) s ≡ ok pr
        → Fitting pr ci cr
        → new_handshake pr ci ≡ ok w
        → new_handshake pr cr ≡ ok r
        → length payloads ≡ length pr.pattern_of.messages
        → (run pr payloads w r ≡ err write_failed) ⊎ Completed pr payloads (run pr payloads w r)
    new_protocol-Completed s pr ci cr w r payloads found fit p q count =
        let is = new_protocol-IsStandard s pr found in
        let suitable = Standard-Suitable digests pr.hash is.hash glaws in
        handshake-Completed pr (Standard-CipherLaws aeads pr.cipher is.cipher alaws) suitable.laws
          (StandardDh-DhLaws pr.dh is.dh) suitable.big ci cr w r payloads is.pattern_of fit p q
          count
