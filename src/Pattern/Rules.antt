-- ===== src/Pattern/Rules.antt =====
-- The handshake pattern validity rules as predicates on what has been sent, independent of the
-- maps of pattern/validity.go.
pub mod Tokens
mod Decide
pub mod Verdict
pub mod Progress
pub mod Growth
pub mod Consequences
use nyquist.Base.{
  ℕ, zero, suc, ◌+◌, ◌≤◌, ◌≡◌, ◌≢◌, Bool, true, false, ◌&&◌, ◌||◌, List, [], ◌∷◌, length,
}
use nyquist.Pattern.{
  Token, token_invalid, token_e, token_s, token_ee, token_es, token_se, token_ss, token_psk,
  token_eq, Message, Pattern, Side, initiator, responder,
}

-- The tokens of a handshake with their senders, the latest first.
abbrev pub History : Type 0
History = List (Side × Token)

abbrev pub other : Side → Side
other initiator = responder
other responder = initiator

-- Who sends message number `i`: the parties alternate, and the initiator begins.
abbrev pub side_of : ℕ → Side
side_of zero = initiator
side_of (suc i) = other (side_of i)

abbrev pub side_eq : Side → Side → Bool
side_eq initiator initiator = true
side_eq responder responder = true
side_eq _ _ = false

-- Whether a party has sent, or a calculation of its message has been, `t`.
abbrev pub sent : Side → Token → History → Bool
sent side t [] = false
sent side t ((by, v) ∷ h) = (side_eq by side && token_eq v t) || sent side t h

abbrev pub either : Token → History → Bool
either t h = sent initiator t h || sent responder t h

abbrev dh_weight : Token → ℕ
dh_weight token_ee = 1
dh_weight token_es = 1
dh_weight token_se = 1
dh_weight token_ss = 1
dh_weight v = 0

abbrev pub psk_weight : Token → ℕ
psk_weight token_psk = 1
psk_weight v = 0

-- How many DH calculations, and how many `psk` tokens, there are.
abbrev pub count_dhs : History → ℕ
count_dhs [] = 0
count_dhs ((by, v) ∷ h) = count_dhs h + dh_weight v

abbrev pub count_psks : History → ℕ
count_psks [] = 0
count_psks ((by, v) ∷ h) = count_psks h + psk_weight v

abbrev pub Fresh : Token → History → Type 0
Fresh t h = either t h ≡ false

-- Rules 1 to 3: what a party may send after `h`.
abbrev pub Allowed : Side → Token → History → Type 0
Allowed side token_e h = sent side token_e h ≡ false
Allowed side token_s h = sent side token_s h ≡ false
Allowed side token_ee h =
    Fresh token_ee h × (sent initiator token_e h ≡ true) × (sent responder token_e h ≡ true)
Allowed side token_es h =
    Fresh token_es h × (sent initiator token_e h ≡ true) × (sent responder token_s h ≡ true)
Allowed side token_se h =
    Fresh token_se h × (sent initiator token_s h ≡ true) × (sent responder token_e h ≡ true)
Allowed side token_ss h =
    Fresh token_ss h × (sent initiator token_s h ≡ true) × (sent responder token_s h ≡ true)
Allowed side token_psk h = Unit
Allowed side (token_invalid n) h = ⊥

-- A pre-message holds public keys only.
abbrev pub PreAllowed : Side → Token → History → Type 0
PreAllowed side token_e h = sent side token_e h ≡ false
PreAllowed side token_s h = sent side token_s h ≡ false
PreAllowed side v h = ⊥

-- Rule 4 and the rule on pre-shared keys, at the end of a message.
abbrev pub Needs : Token → Token → History → Type 0
Needs done needed h = either done h ≡ true → either needed h ≡ true

abbrev pub StaticRule : Side → History → Type 0
StaticRule initiator h = Needs token_se token_ee h × Needs token_ss token_es h
StaticRule responder h = Needs token_es token_ee h × Needs token_ss token_se h

abbrev pub MayEncrypt : Side → History → Type 0
MayEncrypt side h = StaticRule side h × (either token_psk h ≡ true → sent side token_e h ≡ true)

-- The history after a message, and after all messages from number `i` on.
abbrev pub after : Side → Message → History → History
after side [] h = h
after side (v ∷ msg) h = after side msg ((side, v) ∷ h)

abbrev pub after_all : ℕ → List Message → History → History
after_all i [] h = h
after_all i (msg ∷ msgs) h = after_all (suc i) msgs (after (side_of i) msg h)

abbrev pub Each : (Side → Token → History → Type 0) → Side → Message → History → Type 0
Each P side [] h = Unit
Each P side (v ∷ msg) h = P side v h × Each P side msg ((side, v) ∷ h)

abbrev pub PreMessages : ℕ → List Message → History → Type 0
PreMessages i [] h = Unit
PreMessages i (msg ∷ msgs) h =
    Each PreAllowed (side_of i) msg h × PreMessages (suc i) msgs (after (side_of i) msg h)

abbrev pub Messages : ℕ → List Message → History → Type 0
Messages i [] h = Unit
Messages i (msg ∷ msgs) h =
    Each Allowed (side_of i) msg h
    × MayEncrypt (side_of i) (after (side_of i) msg h)
    × Messages (suc i) msgs (after (side_of i) msg h)

-- What the pre-messages leave, and the whole handshake.
abbrev pub pre_history : Pattern → History
pre_history pa = after_all 0 pa.pre_messages []

abbrev pub history : Pattern → History
history pa = after_all 0 pa.messages (pre_history pa)

pub record IsLawful (pa : Pattern) : Type 0 where
  pub few_pre_messages : length pa.pre_messages ≤ 2
  pub pre_tokens : PreMessages 0 pa.pre_messages []
  pub some_message : 1 ≤ length pa.messages
  pub one_way_single : pa.is_one_way ≡ true → length pa.messages ≡ 1
  pub tokens : Messages 0 pa.messages (pre_history pa)
  pub some_dh : 1 ≤ count_dhs (history pa)
  pub psks : count_psks (history pa) ≡ pa.num_psks
