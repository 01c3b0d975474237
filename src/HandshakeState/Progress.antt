-- ===== src/HandshakeState/Progress.antt =====
-- handshakestate.go: what a handshake needs so that no call of it fails.
pub mod Mixing
pub mod Handlers
pub mod Tokens
pub mod Loop
pub mod Writing
pub mod Needs
pub mod Running
pub mod Provided
pub mod Begin
use nyquist.Base.{
  Bool, ℕ, ◌+◌, ◌<◌, ◌≤◌, ◌≡◌, ◌≢◌, Option, none, some, Bytes, Result, ok, List, [], ◌∷◌, length,
}
use nyquist.Pattern.{Token, token_invalid, token_e, token_s, token_psk, Message}
use nyquist.Pattern.Rules.{psk_weight}
use nyquist.Pattern.Rules.Growth.{psks_of}
use nyquist.Pattern.Sizes.{keyed_after, token_length}
use nyquist.HandshakeState.Ready.{uses_psk}
use nyquist.Crypto.{Dh, Made, Error}
use nyquist.SymmetricState.{SymmetricState}
use nyquist.SymmetricState.Progress.{Stocked}
use nyquist.HandshakeState.{Protocol, Held}
use nyquist.HandshakeState.Tokens.{State}
use nyquist.HandshakeState.Messages.{write_token}

-- A sender of `s` has a static keypair.
abbrev pub SendsStatic {ℓ} : {A : Type ℓ} → Token → Option A → Type ℓ
SendsStatic token_s o = o ≢ none
SendsStatic v o = Unit

abbrev pub SendsStatics {ℓ} : {A : Type ℓ} → Message → Option A → Type ℓ
SendsStatics [] o = Unit
SendsStatics (v ∷ msg) o = SendsStatic v o × SendsStatics msg o

module _ {Aead Keypair PublicKey Rng : Type 0} (pr : Protocol Aead Keypair PublicKey Rng) where
  abbrev pub SsStocked : ℕ → ℕ → Bool → Option (SymmetricState Aead) → Type 0
  SsStocked k max b none = ⊥
  SsStocked k max b (some ss) = Stocked pr.cipher pr.hash k max b ss

  -- What a token takes of its writer, beside the other party's keys.
  abbrev pub Equipped : Token → State pr → Type 0
  Equipped token_s w = w.s ≢ none
  Equipped token_psk w = w.psk_index < length w.cfg.pre_shared_keys
  Equipped (token_invalid n) w = ⊥
  Equipped v w = Unit

  -- A handler that changed `hs.ss` only.
  pub record Mixed (k max : ℕ) (b : Bool) (x : Result Error (Unit {0}) × State pr) (w : State pr)
      : Type 0 where
    pub ss : SymmetricState Aead
    pub did : x ≡ (ok tt, record w { ss = some ss })
    pub stock : Stocked pr.cipher pr.hash k max b ss

  -- A token that was written, with what it used up.
  pub record TokenWritten (v : Token) (dst : Bytes) (k max : ℕ) (b : Bool) (tag : ℕ) (w : State pr)
      : Type 0 where
    pub out : Bytes
    pub w' : State pr
    pub wrote : write_token pr v dst w ≡ (ok out, w')
    pub stock : SsStocked (k + 1) max (keyed_after (uses_psk pr) b v) w'.ss
    pub psk_index : w'.psk_index ≡ w.psk_index + psk_weight v
    pub size : length out ≡ length dst + token_length pr.dh.size tag b v
