-- ===== src/Tests/Transport.antt =====
-- What NewHandshake takes, and calls of EncryptWithAd and EncryptAndHash.
use nyquist.Base.{◌≡◌, ◌↔◌, some, [], ◌∷◌, Bytes, ok, panic, refl, arith, replicate}
use nyquist.CipherState.{CipherState, encrypt_with_ad}
use nyquist.SymmetricState.{SymmetricState, encrypt_and_hash}
use nyquist.SymmetricState.Panics.{Refuses, encrypt_and_hash-Refuses}
use nyquist.HandshakeState.Tokens.{State}
use nyquist.HandshakeState.Start.{new_handshake}
use nyquist.HandshakeState.Ready.{IsReady}
use nyquist.HandshakeState.Ready.Needs.{new_handshake-IsReady}
use nyquist.Tests.Toy.{toy_cipher, toy_cipher-CipherLaws, toy_hash, toy_hash-HashLaws}
use nyquist.Tests.Handshakes.{toy, sender}

new_handshake-IsReady_example :
    ((hs : State toy) × (new_handshake toy sender.cfg ≡ ok hs)) ↔ IsReady toy sender.cfg
new_handshake-IsReady_example =
    new_handshake-IsReady toy toy_cipher-CipherLaws toy_hash-HashLaws (omega arith) sender.cfg

abbrev pub session : CipherState Bytes
session = record {
  aead = some (replicate 32 5);
  k = some (replicate 32 5);
  n = 0;
  max_message_size = 65535;
  aead_overhead = 1;
}

pub sealed :
    encrypt_with_ad toy_cipher [] [] (8 ∷ 9 ∷ []) session
    ≡ (ok (7 ∷ 8 ∷ 9 ∷ []), record session { n = 1 })
unfolding encrypt_with_ad
sealed = refl

abbrev narrow : CipherState Bytes
narrow = record session { max_message_size = 2 }

abbrev narrow_ss : SymmetricState Bytes
narrow_ss = record { cs = some narrow; ck = replicate 32 1; h = replicate 32 2 }

encrypt_and_hash-Refuses_example :
    (encrypt_and_hash toy_cipher toy_hash [] (8 ∷ 9 ∷ []) narrow_ss ≡ panic)
    ↔ Refuses narrow (8 ∷ 9 ∷ [])
encrypt_and_hash-Refuses_example =
    encrypt_and_hash-Refuses toy_cipher toy_hash [] (8 ∷ 9 ∷ []) narrow_ss narrow refl
