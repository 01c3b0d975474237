-- ===== src/Tests/Whole.antt =====
-- The handshake of the pattern N to its end, and a message after it.
use nyquist.Base.{none, some, true, inr, arith, ◌≡◌, [], ◌∷◌, List, Bytes, ok, refl, join}
use nyquist.Crypto.{truncate_to_32_bytes_max}
use nyquist.CipherState.{
  encrypt_with_ad, decrypt_with_ad, initialize_key, new_cipher_state, set_key, reset,
}
use nyquist.CipherState.RoundTrip.{Sends, Receives}
use nyquist.SymmetricState.{
  mix_key, encrypt_and_hash, decrypt_and_hash, split, initialize_symmetric, new_symmetric_state,
}
use nyquist.HandshakeState.{get_max_message_size}
use nyquist.HandshakeState.Tokens.{State, on_write_token_e, on_token_es, on_read_token_e}
use nyquist.HandshakeState.Messages.{
  write_message, read_message, write_tokens, write_token, on_done, read_tokens, read_token,
}
use nyquist.HandshakeState.Messages as Messages
use nyquist.HandshakeState.Start.{
  new_handshake, handle_pre_messages, initial_state, pre_messages, pre_message, pre_token,
  side_keys, protocol_string, started,
}
use nyquist.HandshakeState.Session.{Ran, run}
use nyquist.HandshakeState.Whole.{whole_session}
use nyquist.Tests.Toy.{toy_cipher, toy_cipher-CipherLaws, toy_hash-HashLaws, toy_dh-DhLaws}
use nyquist.Tests.Handshakes.{
  toy, sender, receiver, n_valid, new_sender, new_receiver, sender_made, receiver_made,
  sender-Fitting,
}
use nyquist.Tests.Transport.{session, sealed}

abbrev greetings : List Bytes
greetings = (1 ∷ 2 ∷ 3 ∷ []) ∷ []

-- The states at the end of the handshake.
abbrev ended : Ran toy → State toy × State toy
ended (ok (payloads, a, b)) = (a, b)
ended _ = (receiver, sender)

last : State toy × State toy
last = ended (run toy greetings new_sender new_receiver)

ran :
    (run toy greetings new_sender new_receiver ≡ ok (greetings, last.0, last.1))
    × (last.1.status.cipher_states ≡ some (session, none))
unfolding last run new_sender new_receiver write_message write_tokens write_token on_write_token_e
    on_token_es mix_key encrypt_and_hash encrypt_with_ad on_done split initialize_key Messages.reset
    new_cipher_state set_key reset truncate_to_32_bytes_max read_message read_tokens read_token
    on_read_token_e decrypt_and_hash decrypt_with_ad new_handshake started handle_pre_messages
    initial_state pre_messages pre_message pre_token side_keys protocol_string get_max_message_size
    initialize_symmetric new_symmetric_state join
ran = (refl, refl)

whole_session_example :
    (greetings ≡ greetings)
    × (last.0.status.cipher_states ≡ some (session, none))
    × (last.1.status.cipher_states ≡ some (session, none))
    × Receives toy_cipher session (([], 8 ∷ 9 ∷ [], 7 ∷ 8 ∷ 9 ∷ []) ∷ []) (record session { n = 1 })
whole_session_example =
    whole_session toy toy_cipher-CipherLaws toy_hash-HashLaws toy_dh-DhLaws (omega arith) sender.cfg
      receiver.cfg new_sender new_receiver last.0 last.1 greetings greetings true (session, none)
      session (record session { n = 1 }) (([], 8 ∷ 9 ∷ [], 7 ∷ 8 ∷ 9 ∷ []) ∷ []) n_valid
      sender-Fitting sender_made receiver_made refl ran.0 (inr ran.1) refl
      (Sends.send [] (8 ∷ 9 ∷ []) (7 ∷ 8 ∷ 9 ∷ []) sealed
        (Sends.finished (record session { n = 1 })))
