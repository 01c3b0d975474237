-- ===== src/HandshakeState/Sync.antt =====
-- Two handshake states that run one protocol against each other, the writer of a message and its
-- reader: what they share, and what each knows of the other's keys.
pub mod Calls
pub mod Steps
pub mod Keys
pub mod Ephemeral
pub mod Static
pub mod Delivery
pub mod Exchange
pub mod Message
pub mod Delivered
pub mod Partners
pub mod Turns
pub mod Prologue
pub mod PreMessages
pub mod Begin
pub mod Begun
use nyquist.Base.{
  ℕ, ◌≡◌, ◌≢◌, Bool, true, false, not, Option, none, some, Result, ok, Bytes, if◌then◌else◌,
}
use nyquist.Pattern.{Token, token_ee, token_es, token_se, token_ss}
use nyquist.Crypto.{Error, Made}
use nyquist.SymmetricState.{SymmetricState}
use nyquist.SymmetricState.Invariant
use nyquist.HandshakeState.{Protocol, HandshakeState, Held}
use nyquist.HandshakeState.Tokens.{State}

module _ {Aead Keypair PublicKey Rng : Type 0} (pr : Protocol Aead Keypair PublicKey Rng) where
  -- A public key that one party holds for the other is that of the other's keypair.
  abbrev pub Known : Option PublicKey → Option (Held Keypair) → Type 0
  Known none kp = Unit
  Known (some pk) none = ⊥
  Known (some pk) (some held) = pr.dh.public held.pair ≡ pk

  -- A keypair that has its private key.
  abbrev pub MadeHeld : Option (Held Keypair) → Type 0
  MadeHeld none = Unit
  MadeHeld (some held) = Made pr.dh held.pair

  abbrev pub SsIsWf : Option (SymmetricState Aead) → Type 0
  SsIsWf none = ⊥
  SsIsWf (some ss) = Invariant.IsWf pr.cipher pr.hash ss

  -- An observer that refuses no key.
  abbrev pub Accepts : Option (Token → PublicKey → Option Error) → Type 0
  Accepts none = Unit
  Accepts (some f) = (t : Token) (pk : PublicKey) → f t pk ≡ none

  pub record Mirror (w r : State pr) : Type 0 where
    pub ss : r.ss ≡ w.ss
    pub wf : SsIsWf w.ss
    pub psk_index : r.psk_index ≡ w.psk_index
    pub psks : r.cfg.pre_shared_keys ≡ w.cfg.pre_shared_keys
    pub roles : r.cfg.is_initiator ≡ not w.cfg.is_initiator
    pub w_e : MadeHeld w.e
    pub w_s : MadeHeld w.s
    pub r_e : MadeHeld r.e
    pub r_s : MadeHeld r.s
    pub w_re : Known w.re r.e
    pub w_rs : Known w.rs r.s
    pub r_re : Known r.re w.e
    pub r_rs : Known r.rs w.s
    pub accepts : Accepts r.cfg.observer

  -- The reader holds the writer's key that a DH calculation of the message takes.
  abbrev pub Readable : Token → State pr → Type 0
  Readable token_ee r = r.re ≢ none
  Readable token_es r = if r.cfg.is_initiator then r.rs ≢ none else r.re ≢ none
  Readable token_se r = if r.cfg.is_initiator then r.re ≢ none else r.rs ≢ none
  Readable token_ss r = r.rs ≢ none
  Readable v r = Unit
