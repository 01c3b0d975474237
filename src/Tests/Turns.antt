-- ===== src/Tests/Turns.antt =====
-- Calls out of turn in a handshake of the pattern N.
use nyquist.Base.{◌≡◌, [], ◌∷◌, err, length, if◌then◌else◌, ℕ}
use nyquist.Crypto.{out_of_order, message_size}
use nyquist.HandshakeState.Messages.{write_message, read_message, oversized}
use nyquist.HandshakeState.Sync.Turns.{stopped, out_of_turn}
use nyquist.Tests.Handshakes.{sender-Partners, toy, sender, receiver}

out_of_turn_example :
    (write_message toy [] (1 ∷ []) receiver ≡ (err out_of_order, stopped toy out_of_order receiver))
    × (read_message toy [] (1 ∷ []) sender ≡ (
        if oversized sender.max_message_size (length {A = ℕ} (1 ∷ []))
        then (err message_size, stopped toy message_size sender)
        else (err out_of_order, stopped toy out_of_order sender)))
out_of_turn_example = out_of_turn toy [] (1 ∷ []) sender receiver sender-Partners
