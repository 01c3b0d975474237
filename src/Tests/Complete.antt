-- ===== src/Tests/Complete.antt =====
-- Handshakes of XXpsk3, of three messages, in which both parties send an ephemeral and a static key and
-- mix a pre-shared key, over toy primitives.
use nyquist.Base.{
  length, map, ◌⊎◌, ◌≢◌, err, List, ◌∷◌, ◌≡◌, ◌+◌, none, some, [], Bytes, codes, Result, ok, refl,
  arith, zero, pos, split, ℕ, replicate, true, false, strip_prefix, atoi,
}
use nyquist.Crypto.{mismatched_public_key, Made, Error, DhSupplies}
use nyquist.Pattern.{Pattern, token_e, token_s, token_ee, token_es, token_se, token_psk}
use nyquist.Pattern.Sizes.{message_lengths}
use nyquist.HandshakeState.Session.{transcript, run, Completed}
use nyquist.HandshakeState.Progress.Provided.{Provided}
use nyquist.HandshakeState.Progress.Begin.{length-transcript, new_handshake_completes}
use nyquist.Pattern.Validity.{
  check_pre_token, check_pre_message, check_pre_messages, check_redundant, is_possible, check_token,
  check_tokens, missing, check_end, check_message, check_messages, is_valid,
}
use nyquist.Pattern.Interactive.{xx}
use nyquist.Pattern.Psk.{
  append_psk, place_psk, apply_index, apply_modifiers, make_psk, must_make_psk,
}
use nyquist.Pattern.Registry.{register, built_in, register_all, init}
use nyquist.Dh.{
  public, agree, generate, Keypair, PublicKey, x25519, functions, curve25519, curve448,
}
use nyquist.Dh.X448.{x448}
use nyquist.Dh.Registry.{supported_dhs}
use nyquist.Dh.Supplies.{agree_kinds, NeverFails, x25519_and_x448-DhSupplies}
use nyquist.Ciphers.{chacha_poly, supported_ciphers}
use nyquist.Hashes.{sha256, supported_hashes}
use nyquist.SymmetricState.{initialize_symmetric, new_symmetric_state}
use nyquist.CipherState.{initialize_key, new_cipher_state, set_key, reset}
use nyquist.HandshakeState.{Protocol, HandshakeConfig, get_max_message_size}
use nyquist.HandshakeState.Tokens.{State}
use nyquist.HandshakeState.Start.{
  new_handshake, handle_pre_messages, initial_state, pre_messages, pre_message, pre_token,
  side_keys, protocol_string, started,
}
use nyquist.HandshakeState.Ready.{IsReady}
use nyquist.HandshakeState.Sync.Begin.{Fitting}
use nyquist.Protocols.{new_protocol}
use nyquist.Protocols.Registration.{at_start}
use nyquist.Protocols.Standard.{Own}
use nyquist.Protocols.Complete.{new_protocol_completes}
use nyquist.Tests.Toy.{
  toy_cipher, toy_hash, toy_dh, toy_cipher-CipherLaws, toy_hash-HashLaws, toy_dh-DhLaws,
}
use nyquist.Tests.Keys.{
  toy_curves, toy_read_full, toy_aeads, toy_digests, threes, threes-Made, toy_read_full-Fills,
  toy_curves-CurveLaws,
}
use nyquist.Tests.Standards.{toy_aeads-AeadsLaws, toy_digests-DigestsLaws}

abbrev xx_with_psk : Pattern
xx_with_psk = record {
  name = codes "XXpsk3";
  pre_messages = [];
  messages =
      (token_e ∷ [])
      ∷ (token_e ∷ token_ee ∷ token_s ∷ token_es ∷ [])
      ∷ (token_s ∷ token_se ∷ token_psk ∷ [])
      ∷ [];
  num_psks = 1;
  is_one_way = false;
}

xx_with_psk_valid : is_valid xx_with_psk ≡ ok tt
unfolding is_valid check_pre_messages check_pre_message check_pre_token check_messages check_token
    check_message check_tokens check_redundant is_possible missing check_end
xx_with_psk_valid = refl

abbrev greetings : List Bytes
greetings = [] ∷ (1 ∷ 2 ∷ []) ∷ (3 ∷ []) ∷ []

abbrev toy : Protocol Bytes ℕ ℕ ℕ
toy = record { pattern_of = xx_with_psk; dh = toy_dh; cipher = toy_cipher; hash = toy_hash }

abbrev initiator_cfg : HandshakeConfig ℕ ℕ ℕ
initiator_cfg = record {
  prologue = 8 ∷ [];
  local_static = some 5;
  local_ephemeral = none;
  remote_static = none;
  remote_ephemeral = none;
  pre_shared_keys = replicate 32 6 ∷ [];
  observer = none;
  rng = 4;
  max_message_size = pos zero;
  is_initiator = true;
}

abbrev responder_cfg : HandshakeConfig ℕ ℕ ℕ
responder_cfg = record initiator_cfg { local_static = some 9; rng = 70; is_initiator = false }

abbrev or_else : Result Error (State toy) → State toy → State toy
or_else (ok hs) default = hs
or_else _ default = default

initiator_state : State toy
initiator_state = or_else (new_handshake toy initiator_cfg) (initial_state toy initiator_cfg none)

responder_state : State toy
responder_state = or_else (new_handshake toy responder_cfg) (initial_state toy responder_cfg none)

initiator_made : new_handshake toy initiator_cfg ≡ ok initiator_state
unfolding initiator_state new_handshake started handle_pre_messages initial_state pre_messages
    pre_message pre_token side_keys protocol_string get_max_message_size initialize_symmetric
    new_symmetric_state initialize_key new_cipher_state set_key reset
initiator_made = refl

responder_made : new_handshake toy responder_cfg ≡ ok responder_state
unfolding responder_state new_handshake started handle_pre_messages initial_state pre_messages
    pre_message pre_token side_keys protocol_string get_max_message_size initialize_symmetric
    new_symmetric_state initialize_key new_cipher_state set_key reset
responder_made = refl

toy-Fitting : Fitting toy initiator_cfg responder_cfg
toy-Fitting = record {
  initiates = refl;
  responds = refl;
  prologue = refl;
  psks = refl;
  max = refl;
  i_e = tt;
  i_s = Made.parsed (5 ∷ []) refl;
  r_e = tt;
  r_s = Made.parsed (9 ∷ []) refl;
  i_re = tt;
  i_rs = tt;
  r_re = tt;
  r_rs = tt;
  i_accepts = tt;
  r_accepts = tt;
}

toy-Provided : Provided toy 1 initiator_cfg responder_cfg greetings
unfolding get_max_message_size
toy-Provided = record {
  tags = λ a. refl;
  nonces = omega arith;
  statics = ((tt, tt), ((tt, (tt, ((λ e. cc), (tt, tt)))), (((λ e. cc), (tt, (tt, tt))), tt)));
  count = refl;
  sizes = ((λ h. omega arith), ((λ h. omega arith), ((λ h. omega arith), tt)));
}

toy_dh-DhSupplies : DhSupplies toy_dh
toy_dh-DhSupplies = record {
  generates = λ rng. (rng, rng + 1, refl);
  agrees = λ a b ma mb. ((a + b) ∷ [], refl);
}

new_handshake_completes_example :
    Completed toy greetings (run toy greetings initiator_state responder_state)
new_handshake_completes_example =
    new_handshake_completes toy toy_cipher-CipherLaws toy_hash-HashLaws toy_dh-DhLaws (omega arith)
      1 initiator_cfg responder_cfg initiator_state responder_state greetings xx_with_psk_valid
      toy_dh-DhSupplies toy-Fitting toy-Provided initiator_made responder_made

length-transcript_example :
    map length (transcript toy greetings initiator_state responder_state)
    ≡ message_lengths true 1 1 0 xx_with_psk.messages [] (map length greetings)
length-transcript_example =
    length-transcript toy toy_cipher-CipherLaws toy_hash-HashLaws toy_dh-DhLaws (omega arith) 1
      initiator_cfg responder_cfg initiator_state responder_state greetings xx_with_psk_valid
      toy_dh-DhSupplies toy-Fitting toy-Provided initiator_made responder_made

-- Noise_XX_25519 with empty payloads: 32, 96 and 64 bytes.
xx_lengths : message_lengths false 32 16 0 xx.messages [] (0 ∷ 0 ∷ 0 ∷ []) ≡ 32 ∷ 96 ∷ 64 ∷ []
xx_lengths = refl

toy_read_full-NeverFails : NeverFails toy_read_full
toy_read_full-NeverFails n rng = (replicate n rng, rng + 1, refl)

x25519_and_x448-DhSupplies_example :
    DhSupplies (x25519 toy_curves toy_read_full) × DhSupplies (x448 toy_curves toy_read_full)
x25519_and_x448-DhSupplies_example =
    x25519_and_x448-DhSupplies toy_curves toy_read_full toy_read_full-Fills toy_read_full-NeverFails

own : Own toy_curves toy_read_full toy_aeads toy_digests
own = record {
  pattern_of = xx_with_psk;
  dh = x25519 toy_curves toy_read_full;
  cipher = chacha_poly toy_aeads;
  hash = sha256 toy_digests;
}

found :
    new_protocol
      (at_start toy_curves toy_read_full toy_aeads toy_digests)
      (codes "Noise_XXpsk3_25519_ChaChaPoly_SHA256")
    ≡ ok own
unfolding own new_protocol split supported_dhs supported_ciphers supported_hashes init built_in
    register_all register check_pre_token check_pre_message check_pre_messages check_redundant
    is_possible check_token check_tokens missing check_end check_message check_messages is_valid
    append_psk place_psk apply_index apply_modifiers make_psk must_make_psk strip_prefix atoi
found = refl

abbrev own_initiator : HandshakeConfig Keypair PublicKey ℕ
own_initiator = record {
  prologue = 8 ∷ [];
  local_static = some threes;
  local_ephemeral = none;
  remote_static = none;
  remote_ephemeral = none;
  pre_shared_keys = replicate 32 6 ∷ [];
  observer = none;
  rng = 4;
  max_message_size = pos zero;
  is_initiator = true;
}

abbrev own_responder : HandshakeConfig Keypair PublicKey ℕ
own_responder = record own_initiator { rng = 70; is_initiator = false }

own-Fitting : Fitting own own_initiator own_responder
unfolding own x25519 functions
own-Fitting = record {
  initiates = refl;
  responds = refl;
  prologue = refl;
  psks = refl;
  max = refl;
  i_e = tt;
  i_s = threes-Made;
  r_e = tt;
  r_s = threes-Made;
  i_re = tt;
  i_rs = tt;
  r_re = tt;
  r_rs = tt;
  i_accepts = tt;
  r_accepts = tt;
}

own_initiator-IsReady : IsReady own own_initiator
unfolding own initial_state side_keys
own_initiator-IsReady = record { count = refl; sizes = (refl, tt); keys = tt }

own_responder-IsReady : IsReady own own_responder
unfolding own initial_state side_keys
own_responder-IsReady = record { count = refl; sizes = (refl, tt); keys = tt }

own-Provided : Provided own 1 own_initiator own_responder greetings
unfolding own get_max_message_size x25519 functions chacha_poly
own-Provided = record {
  tags = λ a. refl;
  nonces = omega arith;
  statics = ((tt, tt), ((tt, (tt, ((λ e. cc), (tt, tt)))), (((λ e. cc), (tt, (tt, tt))), tt)));
  count = refl;
  sizes = ((λ h. omega arith), ((λ h. omega arith), ((λ h. omega arith), tt)));
}

new_protocol_completes_example :
    (w r : State own) × (new_handshake own own_initiator ≡ ok w)
    × (new_handshake own own_responder ≡ ok r)
    × Completed own greetings (run own greetings w r)
new_protocol_completes_example =
    new_protocol_completes toy_curves toy_read_full toy_aeads toy_digests toy_read_full-Fills
      toy_read_full-NeverFails (toy_curves-CurveLaws curve25519 32)
      (toy_curves-CurveLaws curve448 56) toy_aeads-AeadsLaws toy_digests-DigestsLaws
      (codes "Noise_XXpsk3_25519_ChaChaPoly_SHA256") own 1 own_initiator own_responder greetings
      found own-Fitting own_initiator-IsReady own_responder-IsReady own-Provided

-- The keypair of the other curve, and that the two do not agree.
abbrev threes_448 : Keypair
threes_448 = record {
  kind = curve448;
  raw_private_key = replicate 56 3;
  raw_public_key = replicate 56 3;
}

threes_448-Made : Made (functions toy_curves toy_read_full curve448) threes_448
unfolding functions generate
threes_448-Made = Made.generated 3 4 refl

agree_kinds_example :
    ((curve25519 ≡ curve448)
      × (secret : Bytes) × (agree toy_curves threes (some (public threes_448)) ≡ ok secret))
    ⊎ ((curve25519 ≢ curve448)
        × (agree toy_curves threes (some (public threes_448)) ≡ err mismatched_public_key))
agree_kinds_example =
    agree_kinds toy_curves toy_read_full toy_read_full-Fills curve25519 curve448 threes threes_448
      threes-Made threes_448-Made
