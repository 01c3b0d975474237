-- ===== src/Tests/Standards.antt =====
-- A handshake of Noise_N_25519_ChaChaPoly_SHA256 over toy primitives.
use nyquist.Base.{
  List, ◌∷◌, ◌≡◌, none, some, [], Bytes, codes, Result, ok, refl, arith, zero, pos, split, ℕ,
  replicate, length-replicate, err, ◌⊎◌, length, true, false, strip_prefix, atoi,
}
use nyquist.Crypto.{CipherLaws, Error}
use nyquist.Ciphers.{aes_gcm, chacha_poly, supported_ciphers}
use nyquist.Ciphers.Laws.{Standard-CipherLaws, AeadLaws, NewLaws, AeadsLaws}
use nyquist.Ciphers.Nonces.{Standard}
use nyquist.Hashes.{sha256, supported_hashes}
use nyquist.Hashes.Laws.{DigestLaws, DigestsLaws}
use nyquist.HandshakeState.Start.{
  new_handshake, handle_pre_messages, initial_state, pre_messages, pre_message, pre_token,
  side_keys, protocol_string, started,
}
use nyquist.HandshakeState.Session.{run, write_failed, Completed}
use nyquist.SymmetricState.{initialize_symmetric, new_symmetric_state}
use nyquist.CipherState.{initialize_key, new_cipher_state, set_key, reset}
use nyquist.Pattern.OneWay.{n}
use nyquist.Dh.{Keypair, PublicKey, x25519, public, functions, to_bytes, curve25519, curve448}
use nyquist.Pattern.Validity.{
  check_pre_token, check_pre_message, check_pre_messages, check_redundant, is_possible, check_token,
  check_tokens, missing, check_end, check_message, check_messages, is_valid,
}
use nyquist.Pattern.Psk.{
  append_psk, place_psk, apply_index, apply_modifiers, make_psk, must_make_psk,
}
use nyquist.Pattern.Registry.{register, built_in, register_all, init}
use nyquist.Dh.Registry.{supported_dhs}
use nyquist.HandshakeState.{HandshakeConfig, get_max_message_size}
use nyquist.HandshakeState.Tokens.{State}
use nyquist.HandshakeState.Sync.Begin.{Fitting}
use nyquist.Protocols.{new_protocol}
use nyquist.Protocols.Registration.{at_start}
use nyquist.Protocols.Standard.{Own, new_protocol-Completed}
use nyquist.Tests.Keys.{
  toy_curves, toy_read_full, toy_aeads, toy_digests, threes, threes-Made, toy_read_full-Fills,
  toy_curves-CurveLaws,
}

own : Own toy_curves toy_read_full toy_aeads toy_digests
own = record {
  pattern_of = n;
  dh = x25519 toy_curves toy_read_full;
  cipher = chacha_poly toy_aeads;
  hash = sha256 toy_digests;
}

toy_digest-DigestLaws :
    (size : ℕ)
    → DigestLaws toy_digests size (record { size = size; sum = λ b. replicate size (length b) })
toy_digest-DigestLaws size = record {
  sized = refl;
  length-sum = λ b. length-replicate size (length b);
  length-hkdf = λ secret salt n few. length-replicate n 5;
}

pub toy_digests-DigestsLaws : DigestsLaws toy_digests
toy_digests-DigestsLaws = record {
  sha256 = toy_digest-DigestLaws 32;
  sha512 = toy_digest-DigestLaws 64;
  blake2s = toy_digest-DigestLaws 32;
  blake2b = toy_digest-DigestLaws 64;
}

toy_AeadLaws : (nonce_size : ℕ) (a : Bytes) → AeadLaws toy_aeads nonce_size a
toy_AeadLaws nonce_size a = record {
  unseal-seal = λ nonce p ad h. refl;
  length-seal = λ nonce p ad h. omega arith;
}

toy_NewLaws : (nonce_size : ℕ) → NewLaws toy_aeads nonce_size ok
toy_NewLaws nonce_size = record {
  total = λ key h. (key, refl);
  made = λ key a h. toy_AeadLaws nonce_size a;
}

pub toy_aeads-AeadsLaws : AeadsLaws toy_aeads
toy_aeads-AeadsLaws = record {
  chacha = toy_NewLaws 12;
  aes = toy_NewLaws 12;
  deoxys = toy_NewLaws 15;
}

found :
    new_protocol
      (at_start toy_curves toy_read_full toy_aeads toy_digests)
      (codes "Noise_N_25519_ChaChaPoly_SHA256")
    ≡ ok own
unfolding own new_protocol split supported_dhs supported_ciphers supported_hashes init built_in
    register_all register check_pre_token check_pre_message check_pre_messages check_redundant
    is_possible check_token check_tokens missing check_end check_message check_messages is_valid
    append_psk place_psk apply_index apply_modifiers make_psk must_make_psk strip_prefix atoi
found = refl

abbrev initiator_cfg : HandshakeConfig Keypair PublicKey ℕ
initiator_cfg = record {
  prologue = [];
  local_static = none;
  local_ephemeral = none;
  remote_static = some (public threes);
  remote_ephemeral = none;
  pre_shared_keys = [];
  observer = none;
  rng = 4;
  max_message_size = pos zero;
  is_initiator = true;
}

abbrev responder_cfg : HandshakeConfig Keypair PublicKey ℕ
responder_cfg = record initiator_cfg {
  local_static = some threes;
  remote_static = none;
  is_initiator = false;
}

cfg-Fitting : Fitting own initiator_cfg responder_cfg
unfolding own x25519 functions public
cfg-Fitting = record {
  initiates = refl;
  responds = refl;
  prologue = refl;
  psks = refl;
  max = refl;
  i_e = tt;
  i_s = tt;
  r_e = tt;
  r_s = threes-Made;
  i_re = tt;
  i_rs = refl;
  r_re = tt;
  r_rs = tt;
  i_accepts = tt;
  r_accepts = tt;
}

-- The states that NewHandshake makes, beside a state for the case that it fails.
abbrev or_else : Result Error (State own) → State own → State own
or_else (ok hs) default = hs
or_else _ default = default

default_state : State own
default_state = initial_state own initiator_cfg none

initiator_state : State own
initiator_state = or_else (new_handshake own initiator_cfg) default_state

responder_state : State own
responder_state = or_else (new_handshake own responder_cfg) default_state

initiator_made : new_handshake own initiator_cfg ≡ ok initiator_state
unfolding initiator_state own new_handshake started handle_pre_messages initial_state pre_messages
    pre_message pre_token side_keys protocol_string get_max_message_size initialize_symmetric
    new_symmetric_state initialize_key new_cipher_state set_key reset x25519 functions chacha_poly
    sha256 public to_bytes
initiator_made = refl

responder_made : new_handshake own responder_cfg ≡ ok responder_state
unfolding responder_state own new_handshake started handle_pre_messages initial_state pre_messages
    pre_message pre_token side_keys protocol_string get_max_message_size initialize_symmetric
    new_symmetric_state initialize_key new_cipher_state set_key reset x25519 functions chacha_poly
    sha256 public to_bytes
responder_made = refl

abbrev greetings : List Bytes
greetings = (1 ∷ 2 ∷ 3 ∷ []) ∷ []

enough : length greetings ≡ length own.pattern_of.messages
unfolding own
enough = refl

new_protocol-Completed_example :
    (run own greetings initiator_state responder_state ≡ err write_failed)
    ⊎ Completed own greetings (run own greetings initiator_state responder_state)
new_protocol-Completed_example =
    new_protocol-Completed toy_curves toy_read_full toy_aeads toy_digests toy_read_full-Fills
      (toy_curves-CurveLaws curve25519 32) (toy_curves-CurveLaws curve448 56) toy_aeads-AeadsLaws
      toy_digests-DigestsLaws (codes "Noise_N_25519_ChaChaPoly_SHA256") own initiator_cfg
      responder_cfg initiator_state responder_state greetings found cfg-Fitting initiator_made
      responder_made enough

Standard-CipherLaws_example : CipherLaws (aes_gcm toy_aeads)
Standard-CipherLaws_example =
    Standard-CipherLaws toy_aeads (aes_gcm toy_aeads) (Standard.is_aes_gcm refl) toy_aeads-AeadsLaws
