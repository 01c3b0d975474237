-- ===== src/HandshakeState/Start.antt =====
-- handshakestate.go: the protocol's name, NewHandshake and the pre-messages.
use nyquist.Base.{
  Bool, true, false, not, Option, none, some, List, [], ◌∷◌, Bytes, codes, Result, ok, err, panic,
  length, ◌==◌, if◌then◌else◌, join,
}
use nyquist.Base.Exec.{◌>>◌, pure}
use nyquist.Pattern.{Token, token_e, token_s, Message, Side, initiator, responder}
use nyquist.Crypto.{Error, key_not_set, invalid_pre_message_token, missing_psk, bad_psk}
use nyquist.SymmetricState.{SymmetricState, new_symmetric_state, initialize_symmetric, mix_hash}
use nyquist.HandshakeState.{
  Protocol, HandshakeConfig, Held, get_max_message_size, pre_shared_key_size,
}
use nyquist.HandshakeState.Tokens.{State, Do, mix_hash_call, mix_if_psk}

-- `Protocol.String` of a protocol with every member set.
unfoldable pub protocol_string :
    {Aead Keypair PublicKey Rng : Type 0} → Protocol Aead Keypair PublicKey Rng → Bytes
protocol_string pr =
    join b'_' (codes "Noise" ∷ pr.pattern_of.name ∷ pr.dh.name ∷ pr.cipher.name ∷ pr.hash.name ∷ [])

-- The public keys of one party, as the loop of `handlePreMessages` names them.
pub record SideKeys (PublicKey : Type 0) : Type 0 where
  pub s : Option PublicKey
  pub e : Option PublicKey
  pub side : Side

module _ {Aead Keypair PublicKey Rng : Type 0} (pr : Protocol Aead Keypair PublicKey Rng) where
  abbrev pub public_of : Option (Held Keypair) → Option PublicKey
  public_of none = none
  public_of (some held) = some (pr.dh.public held.pair)

  -- The keys of both parties, the initiator's first.
  unfoldable pub side_keys : State pr → List (SideKeys PublicKey)
  side_keys hs =
      let own_s = public_of hs.s in
      let own_e = public_of hs.e in
      if hs.cfg.is_initiator
      then record { s = own_s; e = own_e; side = initiator }
        ∷ record { s = hs.rs; e = hs.re; side = responder }
        ∷ []
      else record { s = hs.rs; e = hs.re; side = initiator }
        ∷ record { s = own_s; e = own_e; side = responder }
        ∷ []

  abbrev pub mix_e : Option PublicKey → Side → Do pr (Unit {0})
  mix_e none side hs = (err (key_not_set side token_e), hs)
  mix_e (some pk) side hs =
      (do mix_hash_call pr (pr.dh.to_bytes pk); mix_if_psk pr (pr.dh.to_bytes pk)) hs

  abbrev pub mix_s : Option PublicKey → Side → Do pr (Unit {0})
  mix_s none side hs = (err (key_not_set side token_s), hs)
  mix_s (some pk) side hs = mix_hash_call pr (pr.dh.to_bytes pk) hs

  unfoldable pub pre_token : SideKeys PublicKey → Token → Do pr (Unit {0})
  pre_token keys token_e = mix_e keys.e keys.side
  pre_token keys token_s = mix_s keys.s keys.side
  pre_token keys v = λ hs. (err (invalid_pre_message_token v), hs)

  unfoldable pub pre_message : SideKeys PublicKey → Message → Do pr (Unit {0})
  pre_message keys [] = pure tt
  pre_message keys (v ∷ msg) = do pre_token keys v; pre_message keys msg

  -- The loop over the parties, which ends with the pre-messages.
  unfoldable pub pre_messages : List (SideKeys PublicKey) → List Message → Do pr (Unit {0})
  pre_messages [] msgs = pure tt
  pre_messages (keys ∷ sides) [] = pure tt
  pre_messages (keys ∷ sides) (msg ∷ msgs) = do pre_message keys msg; pre_messages sides msgs

  -- `handlePreMessages`
  unfoldable pub handle_pre_messages : Do pr (Unit {0})
  unfolding side_keys pre_messages pre_message pre_token
  handle_pre_messages hs = pre_messages (side_keys hs) pr.pattern_of.pre_messages hs

  abbrev pub held : Option Keypair → Option (Held Keypair)
  held none = none
  held (some kp) = some (record { pair = kp; from_config = true })

  -- The literal of `NewHandshake`, around the SymmetricState that is given.
  unfoldable pub initial_state :
      HandshakeConfig Keypair PublicKey Rng → Option (SymmetricState Aead) → State pr
  unfolding get_max_message_size
  initial_state cfg ss = record {
    cfg = cfg;
    ss = ss;
    s = held cfg.local_static;
    e = held cfg.local_ephemeral;
    rs = cfg.remote_static;
    re = cfg.remote_ephemeral;
    status = record {
      error = none;
      local_ephemeral = public_of (held cfg.local_ephemeral);
      remote_static = cfg.remote_static;
      remote_ephemeral = cfg.remote_ephemeral;
      cipher_states = none;
      handshake_hash = none;
    };
    pattern_index = 0;
    psk_index = 0;
    max_message_size = get_max_message_size cfg.max_message_size;
    rng = cfg.rng;
  }

  abbrev pub are_keys : List Bytes → Bool
  are_keys [] = true
  are_keys (psk ∷ psks) = if length psk == pre_shared_key_size then are_keys psks else false

  abbrev pub made : Result Error (Unit {0}) × State pr → Result Error (State pr)
  made (ok _, hs) = ok hs
  made (err e, hs) = err e
  made (panic, hs) = panic

  unfoldable pub started :
      HandshakeConfig Keypair PublicKey Rng
      → Result Error (SymmetricState Aead)
      → Result Error (State pr)
  unfolding handle_pre_messages initial_state
  started cfg (ok ss) =
      made (handle_pre_messages (initial_state cfg (some (mix_hash pr.hash cfg.prologue ss))))
  started cfg (err e) = err e
  started cfg panic = panic

  -- `NewHandshake`
  unfoldable pub new_handshake : HandshakeConfig Keypair PublicKey Rng → Result Error (State pr)
  unfolding handle_pre_messages initial_state protocol_string
  new_handshake cfg =
      if not (pr.pattern_of.num_psks == length cfg.pre_shared_keys)
      then err missing_psk
      else if not (are_keys cfg.pre_shared_keys)
      then err bad_psk
      else started cfg (
          initialize_symmetric pr.cipher pr.hash (protocol_string pr)
            (new_symmetric_state (get_max_message_size cfg.max_message_size)))
