-- ===== src/Tests/Texts.antt =====
-- The theorems on `psk` modifiers and on text in hexadecimal, at small inputs.
use nyquist.Base.{
  ℕ, ◌≡◌, ◌↔◌, ◌⊎◌, none, some, List, [], ◌∷◌, codes, ok, err, panic, refl, arith, length, split,
  map,
}
use nyquist.Pattern.{Pattern}
use nyquist.Pattern.Interactive.{nn}
use nyquist.Pattern.Psk.{make_psk}
use nyquist.Pattern.Psk.Reads.{Reads, with_psks, make_psk-Reads, make_psk_without_messages}
use nyquist.Vectors.{HexBuffer, HexError, marshal_text, unmarshal_text, bytes_of}
use nyquist.Vectors.RoundTrip.{
  AreBytes, lower, unmarshal_text-marshal_text, marshal_text-unmarshal_text,
}

-- NNpsk0+psk2
abbrev nn_both : Pattern
nn_both = with_psks nn (codes "psk0+psk2") (2 ∷ 0 ∷ [])

make_psk-Reads_example : (make_psk nn (codes "psk0+psk2") ≡ ok nn_both) ↔ (
    (js : List ℕ) × Reads (length nn.messages) (split b'+' (codes "psk0+psk2")) [] js
    × (nn_both ≡ with_psks nn (codes "psk0+psk2") js))
make_psk-Reads_example = make_psk-Reads nn (codes "psk0+psk2") nn_both (omega arith) refl

-- A pattern of no messages.
abbrev silent : Pattern
silent = record nn { messages = [] }

make_psk_without_messages_example : make_psk silent (codes "psk0") ≡ panic
make_psk_without_messages_example = make_psk_without_messages silent refl refl

abbrev some_bytes : HexBuffer
some_bytes = some (202 ∷ 254 ∷ 7 ∷ [])

unmarshal_text-marshal_text_example :
    (z : HexBuffer) × (unmarshal_text (marshal_text some_bytes) none ≡ (ok tt, z))
    × (bytes_of z ≡ 202 ∷ 254 ∷ 7 ∷ [])
    × ((z ≡ none) ↔ (bytes_of some_bytes ≡ []))
unmarshal_text-marshal_text_example =
    unmarshal_text-marshal_text some_bytes none (omega arith, (omega arith, (omega arith, tt)))

marshal_text-unmarshal_text_example :
    ((e : HexError) × (unmarshal_text (codes "CAfe07") some_bytes ≡ (err e, some_bytes)))
    ⊎ ((y : HexBuffer) × (unmarshal_text (codes "CAfe07") some_bytes ≡ (ok tt, y))
        × AreBytes (bytes_of y)
        × (marshal_text y ≡ map lower (codes "CAfe07")))
marshal_text-unmarshal_text_example = marshal_text-unmarshal_text (codes "CAfe07") some_bytes
