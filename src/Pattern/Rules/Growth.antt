-- ===== src/Pattern/Rules/Growth.antt =====
-- How the history of a handshake grows, message by message.
use nyquist.Base.{
  ℕ, zero, suc, ◌+◌, ◌≤◌, ◌≡◌, ap, ◌∙◌, List, [], ◌∷◌, some, length, arith, get_elem?,
}
use nyquist.Pattern.{Message, Pattern, Side}
use nyquist.Pattern.Rules.{side_of}
use nyquist.Pattern.Rules.{History, after, after_all, psk_weight, count_psks, history, pre_history}
use nyquist.Pattern.Rules.Progress.{before, before_from, before_next}

-- How many `psk` tokens a message has.
abbrev pub psks_of : Message → ℕ
psks_of [] = 0
psks_of (v ∷ msg) = psk_weight v + psks_of msg

count_psks-after :
    (side : Side) (msg : Message) (h : History)
    → count_psks (after side msg h) ≡ count_psks h + psks_of msg
count_psks-after side [] h = omega arith
count_psks-after side (v ∷ msg) h = omega (arith, count_psks-after side msg ((side, v) ∷ h))

length-after :
    (side : Side) (msg : Message) (h : History) → length (after side msg h) ≡ length h + length msg
length-after side [] h = omega arith
length-after side (v ∷ msg) h = omega (arith, length-after side msg ((side, v) ∷ h))

-- A measure that no message makes smaller.
module _ (f : History → ℕ)
    (grows : (side : Side) (msg : Message) (h : History) → f h ≤ f (after side msg h)) where
  after_all-le : (i : ℕ) (msgs : List Message) (h : History) → f h ≤ f (after_all i msgs h)
  after_all-le i [] h = omega arith
  after_all-le i (msg ∷ msgs) h =
      omega (arith, grows (side_of i) msg h, after_all-le (suc i) msgs (after (side_of i) msg h))

  before_from-le :
      (i n : ℕ) (msgs : List Message) (h : History)
      → f (before_from i msgs n h) ≤ f (after_all i msgs h)
  before_from-le i zero msgs h = after_all-le i msgs h
  before_from-le i (suc n) [] h = omega arith
  before_from-le i (suc n) (msg ∷ msgs) h = before_from-le (suc i) n msgs (after (side_of i) msg h)

-- What message number `n` adds, and that the whole handshake has no less.
pub record Grown (pa : Pattern) (n : ℕ) (msg : Message) : Type 0 where
  pub tokens : length (before pa (n + 1)) ≡ length (before pa n) + length msg
  pub psks : count_psks (before pa (n + 1)) ≡ count_psks (before pa n) + psks_of msg
  pub tokens_within : length (before pa (n + 1)) ≤ length (history pa)
  pub psks_within : count_psks (before pa (n + 1)) ≤ count_psks (history pa)

pub before-Grown :
    (pa : Pattern) (n : ℕ) (msg : Message) → get_elem? pa.messages n ≡ some msg → Grown pa n msg
before-Grown pa n msg at = record {
  tokens = ap length (before_next pa n msg at) ∙ length-after (side_of n) msg (before pa n);
  psks = ap count_psks (before_next pa n msg at) ∙ count_psks-after (side_of n) msg (before pa n);
  tokens_within =
      before_from-le length (λ side m h. omega (arith, length-after side m h)) 0 (n + 1) pa.messages
        (pre_history pa);
  psks_within =
      before_from-le count_psks (λ side m h. omega (arith, count_psks-after side m h)) 0 (n + 1)
        pa.messages (pre_history pa);
}
