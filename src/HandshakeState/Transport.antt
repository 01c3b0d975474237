-- ===== src/HandshakeState/Transport.antt =====
-- What the parties send after the handshake, under the cipher states that it leaves.
use nyquist.Base.{◌≡◌, Bool, true, false, Option, none, some, List, Bytes, sym, ap, ◌∙◌, subst}
use mathlib.Core.Option.{some-injective}
use nyquist.Crypto.{Error, CipherLaws}
use nyquist.CipherState.{CipherState}
use nyquist.CipherState.RoundTrip.{Sends, Receives, Sends-Receives}
use nyquist.HandshakeState.{Protocol}
use nyquist.HandshakeState.Tokens.{State}
use nyquist.HandshakeState.Sync.Exchange.{Finished, IsFresh, AreFresh}

-- One of `CipherStates`, the first or the second.
abbrev pub pick :
    {Aead : Type 0}
    → Bool
    → CipherState Aead × Option (CipherState Aead)
    → Option (CipherState Aead)
pick true (c1, c2) = some c1
pick false (c1, c2) = c2

module _ {Aead Keypair PublicKey Rng : Type 0} (pr : Protocol Aead Keypair PublicKey Rng)
    (claws : CipherLaws pr.cipher) where
  picked-IsFresh :
      (which : Bool) (c1 : CipherState Aead) (c2 : Option (CipherState Aead)) (c : CipherState Aead)
      → AreFresh pr (c1, c2)
      → pick which (c1, c2) ≡ some c
      → IsFresh pr c
  picked-IsFresh true c1 none c f p = subst (IsFresh pr) (some-injective _ _ p) f
  picked-IsFresh true c1 (some c2) c f p = subst (IsFresh pr) (some-injective _ _ p) f.0
  picked-IsFresh false c1 none c f p = cc
  picked-IsFresh false c1 (some c2) c f p = subst (IsFresh pr) (some-injective _ _ p) f.1

  -- Let two parties be done with a handshake, and each take the first, or each the second, of the
  -- cipher states in its status. Whatever messages one then encrypts in a row, the other decrypts in
  -- that order to the same plaintexts, and both end with the same cipher state.
  pub sent_after_handshake :
      (which : Bool) (e : Option Error) (w r : State pr)
      (pair pair' : CipherState Aead × Option (CipherState Aead)) (c d c' : CipherState Aead)
      (msgs : List (Bytes × Bytes × Bytes))
      → Finished pr e w r
      → w.status.cipher_states ≡ some pair
      → r.status.cipher_states ≡ some pair'
      → pick which pair ≡ some c
      → pick which pair' ≡ some d
      → Sends pr.cipher c msgs c'
      → Receives pr.cipher d msgs c'
  sent_after_handshake which e w r pair pair' c d c' msgs fin held_w held_r mine theirs sends =
      let one : fin.pair ≡ pair = some-injective _ _ (sym fin.w_pair ∙ held_w) in
      let other : fin.pair ≡ pair' = some-injective _ _ (sym fin.r_pair ∙ held_r) in
      let same : c ≡ d =
        some-injective _ _ (sym mine ∙ ap (pick which) (sym one ∙ other) ∙ theirs) in
      let fresh = picked-IsFresh which pair.0 pair.1 c (subst (AreFresh pr) one fin.fresh) mine in
      subst (λ x. Receives pr.cipher x msgs c') same (Sends-Receives pr.cipher claws fresh.wf sends)
