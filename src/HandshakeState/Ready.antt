-- ===== src/HandshakeState/Ready.antt =====
-- NewHandshake of handshakestate.go: the configurations that it takes.
pub mod Keys
pub mod Works
pub mod Needs
use nyquist.Base.{
  ℕ, ◌≤◌, ◌≡◌, ◌≢◌, ◌↔◌, Bool, true, false, not, Option, none, some, List, [], ◌∷◌, Bytes, Result,
  ok, err, refl, sym, ap, ◌∙◌, subst, arith, length, ltb, ◌==◌, ==_iff, if◌then◌else◌, Bool-cases,
  inl, inr,
}
use nyquist.HandshakeState.Sync.Begin.{Opened, new_handshake-Opened}
use nyquist.Base.Exec.{bind_ok, bind_same, pure, ◌>>◌}
use nyquist.Pattern.{
  Token, token_invalid, token_e, token_s, token_ee, token_es, token_se, token_ss, token_psk,
  Message,
}
use nyquist.Crypto.{Error, CipherLaws, HashLaws, missing_psk, bad_psk}
use nyquist.SymmetricState.{
  SymmetricState, mix_hash, mix_key, initialize_symmetric, new_symmetric_state,
}
use nyquist.SymmetricState.Invariant.{
  IsWf, mix_key_total, mix_hash-IsWf, initialize_symmetric_total,
}
use nyquist.HandshakeState.{Protocol, HandshakeConfig, get_max_message_size, pre_shared_key_size}
use nyquist.HandshakeState.Tokens.{
  State, mix_hash_call, mix_if_psk, mix_key_call, store_ss, on_ss, call_ss,
}
use nyquist.HandshakeState.Start.{
  SideKeys, side_keys, mix_e, mix_s, pre_token, pre_message, pre_messages, handle_pre_messages,
  initial_state, are_keys, made, started, new_handshake, protocol_string,
}

-- Pre-shared keys of 32 bytes.
abbrev pub ArePsks : List Bytes → Type 0
ArePsks [] = Unit
ArePsks (psk ∷ psks) = (length psk ≡ 32) × ArePsks psks

module _ {Aead Keypair PublicKey Rng : Type 0} (pr : Protocol Aead Keypair PublicKey Rng) where
  -- Whether the pattern has pre-shared keys.
  abbrev pub uses_psk : Bool
  uses_psk = ltb 0 pr.pattern_of.num_psks

  -- A key of the configuration that is set: one of its own (`true`) or the other party's.
  abbrev pub Holds : HandshakeConfig Keypair PublicKey Rng → Bool → Token → Type 0
  Holds cfg true token_e = (kp : Keypair) × (cfg.local_ephemeral ≡ some kp)
  Holds cfg true token_s = (kp : Keypair) × (cfg.local_static ≡ some kp)
  Holds cfg false token_e = (pk : PublicKey) × (cfg.remote_ephemeral ≡ some pk)
  Holds cfg false token_s = (pk : PublicKey) × (cfg.remote_static ≡ some pk)
  Holds cfg own _ = ⊥

  abbrev pub HoldsAll : HandshakeConfig Keypair PublicKey Rng → Bool → Message → Type 0
  HoldsAll cfg own [] = Unit
  HoldsAll cfg own (v ∷ msg) = Holds cfg own v × HoldsAll cfg own msg

  -- The keys of the pre-messages, of which the first is the initiator's and the second the
  -- responder's.
  abbrev pub HoldsKeys : HandshakeConfig Keypair PublicKey Rng → List Message → Type 0
  HoldsKeys cfg [] = Unit
  HoldsKeys cfg (first ∷ []) = HoldsAll cfg cfg.is_initiator first
  HoldsKeys cfg (first ∷ second ∷ _) =
      HoldsAll cfg cfg.is_initiator first × HoldsAll cfg (not cfg.is_initiator) second

  -- A party's public keys that its pre-message has, as the loop of NewHandshake finds them.
  abbrev pub HasKey : SideKeys PublicKey → Token → Type 0
  HasKey keys token_e = (pk : PublicKey) × (keys.e ≡ some pk)
  HasKey keys token_s = (pk : PublicKey) × (keys.s ≡ some pk)
  HasKey keys _ = ⊥

  abbrev pub HasKeys : SideKeys PublicKey → Message → Type 0
  HasKeys keys [] = Unit
  HasKeys keys (v ∷ msg) = HasKey keys v × HasKeys keys msg

  abbrev pub HaveKeys : List (SideKeys PublicKey) → List Message → Type 0
  HaveKeys [] msgs = Unit
  HaveKeys (keys ∷ sides) [] = Unit
  HaveKeys (keys ∷ sides) (msg ∷ msgs) = HasKeys keys msg × HaveKeys sides msgs

  -- What NewHandshake wants of a configuration.
  pub record IsReady (cfg : HandshakeConfig Keypair PublicKey Rng) : Type 0 where
    pub count : length cfg.pre_shared_keys ≡ pr.pattern_of.num_psks
    pub sizes : ArePsks cfg.pre_shared_keys
    pub keys : HoldsKeys cfg pr.pattern_of.pre_messages
