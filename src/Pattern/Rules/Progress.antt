-- ===== src/Pattern/Rules/Progress.antt =====
-- What has been sent before each message of a pattern, and what a valid one allows in that message.
use nyquist.Base.{
  ℕ, zero, suc, ◌+◌, ◌≡◌, refl, ap, ◌∙◌, subst, List, [], ◌∷◌, ok, some, arith, get_elem?,
}
use nyquist.Pattern.{Token, Message, Pattern, Side, initiator, responder}
use nyquist.Pattern.Validity.{is_valid}
use nyquist.Pattern.Rules.{side_of, other}
use nyquist.Pattern.Rules.{History, sent, Allowed, after, Each, Messages, pre_history}
use nyquist.Pattern.Rules.Verdict.{is_valid-IsLawful}

-- What the first `n` of the messages, of which the first is number `i`, leave.
abbrev pub before_from : ℕ → List Message → ℕ → History → History
before_from i msgs zero h = h
before_from i [] (suc n) h = h
before_from i (msg ∷ msgs) (suc n) h = before_from (suc i) msgs n (after (side_of i) msg h)

-- What was sent before message number `n`.
abbrev pub before : Pattern → ℕ → History
before pa n = before_from 0 pa.messages n (pre_history pa)

Allowed-from :
    (i n k : ℕ) (msgs : List Message) (h : History) (msg : Message)
    → k ≡ i + n
    → Messages i msgs h
    → get_elem? msgs n ≡ some msg
    → Each Allowed (side_of k) msg (before_from i msgs n h)
Allowed-from i n k [] h msg e p at = cc
Allowed-from i zero k (m ∷ msgs) h msg e p at =
    let same : m ≡ msg = cc in
    let here : i ≡ k = omega (arith, e) in
    subst (λ j. Each Allowed (side_of j) msg h) here
      (subst (λ x. Each Allowed (side_of i) x h) same p.0)
Allowed-from i (suc n) k (m ∷ msgs) h msg e p at =
    Allowed-from (suc i) n k msgs (after (side_of i) m h) msg (omega (arith, e)) p.2 at

next_from :
    (i n k : ℕ) (msgs : List Message) (h : History) (msg : Message)
    → k ≡ i + n
    → get_elem? msgs n ≡ some msg
    → before_from i msgs (suc n) h ≡ after (side_of k) msg (before_from i msgs n h)
next_from i n k [] h msg e at = cc
next_from i zero k (m ∷ msgs) h msg e at =
    let same : m ≡ msg = cc in
    let here : i ≡ k = omega (arith, e) in
    ap (λ x. after (side_of i) x h) same ∙ ap (λ j. after (side_of j) msg h) here
next_from i (suc n) k (m ∷ msgs) h msg e at =
    next_from (suc i) n k msgs (after (side_of i) m h) msg (omega (arith, e)) at

pub Allowed-at :
    (pa : Pattern) (n : ℕ) (msg : Message)
    → is_valid pa ≡ ok tt
    → get_elem? pa.messages n ≡ some msg
    → Each Allowed (side_of n) msg (before pa n)
Allowed-at pa n msg valid at =
    Allowed-from 0 n n pa.messages (pre_history pa) msg (omega arith)
      ((is_valid-IsLawful pa).0 valid).tokens at

pub before_next :
    (pa : Pattern) (n : ℕ) (msg : Message)
    → get_elem? pa.messages n ≡ some msg
    → before pa (n + 1) ≡ after (side_of n) msg (before pa n)
before_next pa n msg at =
    let one_more : n + 1 ≡ suc n = omega arith in
    ap (before pa) one_more ∙ next_from 0 n n pa.messages (pre_history pa) msg (omega arith) at

pub sent_cons-other :
    (side : Side) (t v : Token) (h : History)
    → sent (other side) t ((side, v) ∷ h) ≡ sent (other side) t h
sent_cons-other initiator t v h = refl
sent_cons-other responder t v h = refl

-- A message adds nothing to what the other party has sent.
pub sent_after-other :
    (side : Side) (t : Token) (msg : Message) (h : History)
    → sent (other side) t (after side msg h) ≡ sent (other side) t h
sent_after-other side t [] h = refl
sent_after-other initiator t (v ∷ msg) h = sent_after-other initiator t msg ((initiator, v) ∷ h)
sent_after-other responder t (v ∷ msg) h = sent_after-other responder t msg ((responder, v) ∷ h)

pub side_of_next : (n : ℕ) → side_of (n + 1) ≡ other (side_of n)
side_of_next n = let next : n + 1 ≡ suc n = omega arith in ap side_of next

pub other_twice : (side : Side) → other (other side) ≡ side
other_twice initiator = refl
other_twice responder = refl
