-- ===== src/Tests/Handshakes.antt =====
-- The one-way handshake N between two parties, the initiator with a fresh ephemeral key and the
-- responder with a static one.
use nyquist.Base.{
  inl, ℕ, ◌≡◌, none, some, [], ◌∷◌, Bytes, ok, replicate, refl, arith, true, false, zero, pos,
  Result, err,
}
use nyquist.Pattern.Validity.{
  is_valid, check_pre_messages, check_pre_message, check_pre_token, check_messages, check_token,
}
use nyquist.Pattern.OneWay.{n}
use nyquist.Crypto.{Made, Error, done, truncate_to_32_bytes_max}
use nyquist.CipherState.{encrypt_with_ad, initialize_key, new_cipher_state, set_key, reset}
use nyquist.SymmetricState.{
  SymmetricState, mix_key, encrypt_and_hash, split, initialize_symmetric, new_symmetric_state,
}
use nyquist.HandshakeState.{Protocol, get_max_message_size}
use nyquist.HandshakeState.Wiping.{IsWiped, done-IsWiped}
use nyquist.HandshakeState.Tokens.{State, on_write_token_e, on_token_es}
use nyquist.HandshakeState.Messages.{
  write_message, write_tokens, write_token, on_done, read_message,
}
use nyquist.HandshakeState.Messages as Messages
use nyquist.HandshakeState.Sync.{Mirror}
use nyquist.HandshakeState.Sync.Partners.{Partners, Delivered, write_message-Delivered}
use nyquist.Tests.Toy.{
  toy_cipher, toy_cipher-CipherLaws, toy_hash, toy_hash-HashLaws, toy_dh, toy_dh-DhLaws,
}
use nyquist.HandshakeState.Start.{
  new_handshake, handle_pre_messages, initial_state, pre_messages, pre_message, pre_token,
  side_keys, protocol_string, started,
}
use nyquist.HandshakeState.Sync.Begin.{Fitting}
use nyquist.HandshakeState.Sync.Begun.{new_handshake-Partners}
use nyquist.HandshakeState.Errors.Sticky.{error_stays}

abbrev pub toy : Protocol Bytes ℕ ℕ ℕ
toy = record { pattern_of = n; dh = toy_dh; cipher = toy_cipher; hash = toy_hash }

abbrev first_ss : SymmetricState Bytes
first_ss = record {
  cs = some (record { aead = none; k = none; n = 0; max_message_size = 65535; aead_overhead = 0 });
  ck = replicate 32 1;
  h = replicate 32 2;
}

abbrev pub sender : State toy
sender = record {
  cfg = record {
    prologue = [];
    local_static = none;
    local_ephemeral = none;
    remote_static = some 9;
    remote_ephemeral = none;
    pre_shared_keys = [];
    observer = none;
    rng = 4;
    max_message_size = pos zero;
    is_initiator = true;
  };
  ss = some first_ss;
  s = none;
  e = none;
  rs = some 9;
  re = none;
  status = record {
    error = none;
    local_ephemeral = none;
    remote_static = some 9;
    remote_ephemeral = none;
    cipher_states = none;
    handshake_hash = none;
  };
  pattern_index = 0;
  psk_index = 0;
  max_message_size = 65535;
  rng = 4;
}

abbrev pub receiver : State toy
receiver = record {
  cfg = record {
    prologue = [];
    local_static = some 9;
    local_ephemeral = none;
    remote_static = none;
    remote_ephemeral = none;
    pre_shared_keys = [];
    observer = none;
    rng = 6;
    max_message_size = pos zero;
    is_initiator = false;
  };
  ss = some first_ss;
  s = some (record { pair = 9; from_config = true });
  e = none;
  rs = none;
  re = none;
  status = record {
    error = none;
    local_ephemeral = none;
    remote_static = none;
    remote_ephemeral = none;
    cipher_states = none;
    handshake_hash = none;
  };
  pattern_index = 0;
  psk_index = 0;
  max_message_size = 65535;
  rng = 6;
}

pub n_valid : is_valid n ≡ ok tt
unfolding is_valid check_pre_messages check_pre_message check_pre_token check_messages check_token
n_valid = refl

sender-Mirror : Mirror toy sender receiver
sender-Mirror = record {
  ss = refl;
  wf = record { cs = record { keyed = tt; nonce = omega arith }; ck = refl; h = refl };
  psk_index = refl;
  psks = refl;
  roles = refl;
  w_e = tt;
  w_s = tt;
  r_e = tt;
  r_s = Made.parsed (9 ∷ []) refl;
  w_re = tt;
  w_rs = refl;
  r_re = tt;
  r_rs = tt;
  accepts = tt;
}

pub sender-Partners : Partners toy sender receiver
sender-Partners = record {
  mirror = sender-Mirror;
  accepts = tt;
  w_error = refl;
  r_error = refl;
  index = refl;
  max = refl;
  turn = refl;
  r_link = record { e = λ p. cc; s = λ p. cc };
  w_link = record { e = λ p. cc; s = λ p q. cc };
}

-- The state that the sender's call leaves.
sent_state : State toy
sent_state = (write_message toy [] (1 ∷ 2 ∷ []) sender).1

written :
    write_message toy [] (1 ∷ 2 ∷ []) sender ≡ (ok (4 ∷ 7 ∷ 1 ∷ 2 ∷ [], some done), sent_state)
unfolding sent_state write_message write_tokens write_token on_write_token_e on_token_es mix_key
    encrypt_and_hash encrypt_with_ad on_done split initialize_key Messages.reset new_cipher_state
    set_key reset truncate_to_32_bytes_max
written = refl

done-IsWiped_example : IsWiped toy sent_state
done-IsWiped_example =
    done-IsWiped toy [] (1 ∷ 2 ∷ []) (4 ∷ 7 ∷ 1 ∷ 2 ∷ []) sender sent_state (inl written)

write_message-Delivered_example :
    Delivered toy [] (1 ∷ 2 ∷ []) (4 ∷ 7 ∷ 1 ∷ 2 ∷ []) (some done) sender sent_state receiver
write_message-Delivered_example =
    write_message-Delivered toy toy_cipher-CipherLaws toy_hash-HashLaws toy_dh-DhLaws (omega arith)
      [] (1 ∷ 2 ∷ []) (4 ∷ 7 ∷ 1 ∷ 2 ∷ []) (some done) sender sent_state receiver n_valid
      sender-Partners written

-- The states that NewHandshake makes of the two configurations.
abbrev or_else : Result Error (State toy) → State toy → State toy
or_else (ok hs) default = hs
or_else _ default = default

unfoldable pub new_sender : State toy
new_sender = or_else (new_handshake toy sender.cfg) sender

unfoldable pub new_receiver : State toy
new_receiver = or_else (new_handshake toy receiver.cfg) receiver

pub sender_made : new_handshake toy sender.cfg ≡ ok new_sender
unfolding new_sender new_handshake started handle_pre_messages initial_state pre_messages
    pre_message pre_token side_keys protocol_string get_max_message_size initialize_symmetric
    new_symmetric_state initialize_key new_cipher_state set_key reset
sender_made = refl

pub receiver_made : new_handshake toy receiver.cfg ≡ ok new_receiver
unfolding new_receiver new_handshake started handle_pre_messages initial_state pre_messages
    pre_message pre_token side_keys protocol_string get_max_message_size initialize_symmetric
    new_symmetric_state initialize_key new_cipher_state set_key reset
receiver_made = refl

pub sender-Fitting : Fitting toy sender.cfg receiver.cfg
sender-Fitting = record {
  initiates = refl;
  responds = refl;
  prologue = refl;
  psks = refl;
  max = refl;
  i_e = tt;
  i_s = tt;
  r_e = tt;
  r_s = Made.parsed (9 ∷ []) refl;
  i_re = tt;
  i_rs = refl;
  r_re = tt;
  r_rs = tt;
  i_accepts = tt;
  r_accepts = tt;
}

new_handshake-Partners_example :
    Partners toy new_sender new_receiver × (new_sender.pattern_index ≡ 0)
new_handshake-Partners_example =
    new_handshake-Partners toy toy_cipher-CipherLaws toy_hash-HashLaws toy_dh-DhLaws (omega arith)
      sender.cfg receiver.cfg new_sender new_receiver n_valid sender-Fitting sender_made
      receiver_made

error_stays_example :
    (sent_state.status.error ≡ some done)
    × (write_message toy (5 ∷ []) (1 ∷ []) sent_state ≡ (err done, sent_state))
    × (read_message toy (5 ∷ []) (1 ∷ []) sent_state ≡ (err done, sent_state))
error_stays_example =
    error_stays toy [] (1 ∷ 2 ∷ []) (5 ∷ []) (1 ∷ []) sender sent_state
      (ok (4 ∷ 7 ∷ 1 ∷ 2 ∷ [], some done)) done (inl written) refl
