-- ===== src/Pattern/Sizes.antt =====
-- The sizes of the messages of a handshake, from its pattern alone.
use nyquist.Base.{ℕ, suc, ◌+◌, ◌≡◌, refl, ap, ◌∙◌, Bool, true, false, List, [], ◌∷◌, if◌then◌else◌}
use nyquist.Pattern.{
  Token, token_e, token_s, token_ee, token_es, token_se, token_ss, token_psk, token_invalid,
  Message, Side,
}
use nyquist.Pattern.Rules.{side_of}
use nyquist.Pattern.Rules.{History, after, after_all}

-- Whether there is a key after a token: each calculation and each `psk` makes one, and in a pattern
-- with pre-shared keys (`psk`) each `e` does.
abbrev pub keyed_after : Bool → Bool → Token → Bool
keyed_after psk b token_e = if psk then true else b
keyed_after psk b token_s = b
keyed_after psk b token_ee = true
keyed_after psk b token_es = true
keyed_after psk b token_se = true
keyed_after psk b token_ss = true
keyed_after psk b token_psk = true
keyed_after psk b (token_invalid n) = b

abbrev pub is_keyed : Bool → History → Bool
is_keyed psk [] = false
is_keyed psk ((by, v) ∷ h) = keyed_after psk (is_keyed psk h) v

-- The tag of an encryption.
abbrev pub tag_if : Bool → ℕ → ℕ
tag_if b tag = if b then tag else 0

-- What a token adds to its message, public keys being of `size` bytes.
abbrev pub token_length : ℕ → ℕ → Bool → Token → ℕ
token_length size tag b token_e = size
token_length size tag b token_s = size + tag_if b tag
token_length size tag b v = 0

-- A message after `h`, with a payload of `n` bytes.
abbrev pub message_length : Bool → ℕ → ℕ → Side → History → Message → ℕ → ℕ
message_length psk size tag side h [] n = n + tag_if (is_keyed psk h) tag
message_length psk size tag side h (v ∷ msg) n =
    token_length size tag (is_keyed psk h) v
    + message_length psk size tag side ((side, v) ∷ h) msg n

-- All messages from number `i` on, with payloads of these sizes.
abbrev pub message_lengths : Bool → ℕ → ℕ → ℕ → List Message → History → List ℕ → List ℕ
message_lengths psk size tag i [] h ns = []
message_lengths psk size tag i (msg ∷ msgs) h [] = []
message_lengths psk size tag i (msg ∷ msgs) h (n ∷ ns) =
    message_length psk size tag (side_of i) h msg n
    ∷ message_lengths psk size tag (suc i) msgs (after (side_of i) msg h) ns

pub message_lengths-nil :
    (psk : Bool) (size tag i : ℕ) (msgs : List Message) (h : History)
    → message_lengths psk size tag i msgs h [] ≡ []
message_lengths-nil psk size tag i [] h = refl
message_lengths-nil psk size tag i (msg ∷ msgs) h = refl

-- The key over whole messages.
abbrev pub keyed_message : Bool → Bool → Message → Bool
keyed_message psk b [] = b
keyed_message psk b (v ∷ msg) = keyed_message psk (keyed_after psk b v) msg

abbrev pub keyed_messages : Bool → Bool → List Message → Bool
keyed_messages psk b [] = b
keyed_messages psk b (msg ∷ msgs) = keyed_messages psk (keyed_message psk b msg) msgs

pub is_keyed-after :
    (psk : Bool) (side : Side) (msg : Message) (h : History)
    → is_keyed psk (after side msg h) ≡ keyed_message psk (is_keyed psk h) msg
is_keyed-after psk side [] h = refl
is_keyed-after psk side (v ∷ msg) h = is_keyed-after psk side msg ((side, v) ∷ h)

pub is_keyed-after_all :
    (psk : Bool) (i : ℕ) (msgs : List Message) (h : History)
    → is_keyed psk (after_all i msgs h) ≡ keyed_messages psk (is_keyed psk h) msgs
is_keyed-after_all psk i [] h = refl
is_keyed-after_all psk i (msg ∷ msgs) h =
    is_keyed-after_all psk (suc i) msgs (after (side_of i) msg h)
    ∙ ap (λ b. keyed_messages psk b msgs) (is_keyed-after psk (side_of i) msg h)
