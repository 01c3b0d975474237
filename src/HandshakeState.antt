-- ===== src/HandshakeState.antt =====
-- handshakestate.go: the protocol, the configuration, the status and the state of a handshake. The
-- operations are in the modules below.
pub mod Tokens
pub mod Messages
pub mod Start
pub mod Sync
pub mod Errors
pub mod Session
pub mod Ready
pub mod Transport
pub mod Whole
pub mod Progress
pub mod Wiping
use nyquist.Base.{
  none, ℕ, zero, suc, ◌+◌, Bool, true, false, Option, some, List, [], ◌∷◌, Bytes, codes, Result, ok,
  err, panic, ℤ, pos, negsuc,
}
use nyquist.Base.Exec.{Exec}
use nyquist.Pattern.{Token, Pattern}
use nyquist.Crypto.{Error, Cipher, Hash, Dh}
use nyquist.CipherState.{CipherState}
use nyquist.SymmetricState.{SymmetricState}

-- `DefaultMaxMessageSize` and `PreSharedKeySize`
abbrev pub default_max_message_size : ℕ
default_max_message_size = 65535

abbrev pub pre_shared_key_size : ℕ
pre_shared_key_size = 32

-- `Protocol`, with every member set.
pub record Protocol (Aead Keypair PublicKey Rng : Type 0) : Type 0 where
  pub pattern_of : Pattern
  pub dh : Dh Keypair PublicKey Rng
  pub cipher : Cipher Aead
  pub hash : Hash

-- `HandshakeObserver`: what `OnPeerPublicKey` returns for a token and a key.
abbrev pub HandshakeObserver : Type 0 → Type 0
HandshakeObserver PublicKey = Token → PublicKey → Option Error

-- `HandshakeConfig` but for its protocol. An observer is a function of what it is shown; the
-- entropy source, `crypto/rand` where none is given, is a state of type `Rng`.
pub record HandshakeConfig (Keypair PublicKey Rng : Type 0) : Type 0 where
  pub prologue : Bytes
  pub local_static : Option Keypair
  pub local_ephemeral : Option Keypair
  pub remote_static : Option PublicKey
  pub remote_ephemeral : Option PublicKey
  pub pre_shared_keys : List Bytes
  pub observer : Option (HandshakeObserver PublicKey)
  pub rng : Rng
  pub max_message_size : ℤ
  pub is_initiator : Bool

-- `getMaxMessageSize`
unfoldable pub get_max_message_size : ℤ → ℕ
get_max_message_size (pos zero) = default_max_message_size
get_max_message_size (pos (suc n)) = suc n
get_max_message_size (negsuc n) = 0

-- `HandshakeStatus`. The second CipherState is `none` for a one-way pattern.
pub record HandshakeStatus (Aead PublicKey : Type 0) : Type 0 where
  pub error : Option Error
  pub local_ephemeral : Option PublicKey
  pub remote_static : Option PublicKey
  pub remote_ephemeral : Option PublicKey
  pub cipher_states : Option (CipherState Aead × Option (CipherState Aead))
  pub handshake_hash : Option Bytes

-- A keypair that the state points to, and whether it is the configuration's object.
pub record Held (Keypair : Type 0) : Type 0 where
  pub pair : Keypair
  pub from_config : Bool

-- `HandshakeState`. The members that never change are the protocol's (`dh`, `patterns`, `dhLen`) and
-- the configuration's (`isInitiator`). `ss` is `none` after `Reset`.
pub record HandshakeState (Aead Keypair PublicKey Rng : Type 0) : Type 0 where
  pub cfg : HandshakeConfig Keypair PublicKey Rng
  pub ss : Option (SymmetricState Aead)
  pub s : Option (Held Keypair)
  pub e : Option (Held Keypair)
  pub rs : Option PublicKey
  pub re : Option PublicKey
  pub status : HandshakeStatus Aead PublicKey
  pub pattern_index : ℕ
  pub psk_index : ℕ
  pub max_message_size : ℕ
  pub rng : Rng

-- `SymmetricState` and `GetStatus`
abbrev pub symmetric_state :
    {Aead Keypair PublicKey Rng : Type 0}
    → HandshakeState Aead Keypair PublicKey Rng
    → Option (SymmetricState Aead)
symmetric_state hs = hs.ss

abbrev pub get_status :
    {Aead Keypair PublicKey Rng : Type 0}
    → HandshakeState Aead Keypair PublicKey Rng
    → HandshakeStatus Aead PublicKey
get_status hs = hs.status

-- A method of a HandshakeState.
abbrev pub Method : Type 0 → Type 0 → Type 0 → Type 0 → Type 0 → Type 0
Method Aead Keypair PublicKey Rng A = Exec Error (HandshakeState Aead Keypair PublicKey Rng) A
