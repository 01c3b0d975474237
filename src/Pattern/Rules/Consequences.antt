-- ===== src/Pattern/Rules/Consequences.antt =====
-- Consequences of the rules at the points of a handshake.
use nyquist.Base.{
  inr, inl, ==_iff, Bool-cases, ap, ◌+◌, ◌≤◌, true, Bool, ℕ, suc, ◌≡◌, refl, false, ◌&&◌, List, [],
  ◌∷◌, ◌++◌, ok, arith, if◌then◌else◌,
}
use mathlib.Core.Path.{subst}
use nyquist.Pattern.{
  Token, initiator, responder, token_ee, token_es, token_se, token_ss, token_e, token_s, token_eq,
  token_invalid, Message, Pattern, Side,
}
use nyquist.Pattern.Validity.{is_valid}
use nyquist.Pattern.Rules.{side_of}
use nyquist.Pattern.Rules.{
  History, side_eq, sent, either, Allowed, PreAllowed, after, after_all, Each, PreMessages,
  Messages, history,
}
use nyquist.Pattern.Rules.Verdict.{is_valid-IsLawful}

-- Every token was allowed when it was sent.
abbrev Lawful : History → Type 0
Lawful [] = Unit
Lawful ((side, v) ∷ h) = Allowed side v h × Lawful h

PreAllowed-Allowed :
    (side : Side) (v : Token) (h : History) → PreAllowed side v h → Allowed side v h
PreAllowed-Allowed side token_e h p = p
PreAllowed-Allowed side token_s h p = p
PreAllowed-Allowed side _ h p = absurd p

pre_message-Lawful :
    (side : Side) (msg : Message) (h : History)
    → Each PreAllowed side msg h
    → Lawful h
    → Lawful (after side msg h)
pre_message-Lawful side [] h p law = law
pre_message-Lawful side (v ∷ msg) h p law =
    pre_message-Lawful side msg ((side, v) ∷ h) p.1 (PreAllowed-Allowed side v h p.0, law)

PreMessages-Lawful :
    (i : ℕ) (msgs : List Message) (h : History)
    → PreMessages i msgs h
    → Lawful h
    → Lawful (after_all i msgs h)
PreMessages-Lawful i [] h p law = law
PreMessages-Lawful i (msg ∷ msgs) h p law =
    PreMessages-Lawful (suc i) msgs (after (side_of i) msg h) p.1
      (pre_message-Lawful (side_of i) msg h p.0 law)

message-Lawful :
    (side : Side) (msg : Message) (h : History)
    → Each Allowed side msg h
    → Lawful h
    → Lawful (after side msg h)
message-Lawful side [] h p law = law
message-Lawful side (v ∷ msg) h p law = message-Lawful side msg ((side, v) ∷ h) p.1 (p.0, law)

Messages-Lawful :
    (i : ℕ) (msgs : List Message) (h : History)
    → Messages i msgs h
    → Lawful h
    → Lawful (after_all i msgs h)
Messages-Lawful i [] h p law = law
Messages-Lawful i (msg ∷ msgs) h p law =
    Messages-Lawful (suc i) msgs (after (side_of i) msg h) p.2
      (message-Lawful (side_of i) msg h p.0 law)

history-Lawful : (pa : Pattern) → is_valid pa ≡ ok tt → Lawful (history pa)
history-Lawful pa p =
    let law = (is_valid-IsLawful pa).0 p in
    Messages-Lawful 0 pa.messages _ law.tokens
      (PreMessages-Lawful 0 pa.pre_messages [] law.pre_tokens tt)

Lawful-append : (later before : History) → Lawful (later ++ before) → Lawful before
Lawful-append [] before law = law
Lawful-append (event ∷ later) before law = Lawful-append later before law.1

-- How often a party has sent `t`.
abbrev pub times : Side → Token → History → ℕ
times side t [] = 0
times side t ((by, v) ∷ h) =
    let before = times side t h in if side_eq by side && token_eq v t then suc before else before

unsent : (side : Side) (t : Token) (h : History) → sent side t h ≡ false → times side t h ≡ 0
unsent side t [] p = refl
unsent side t ((by, v) ∷ h) p = ground (arith, unsent side t h)

module _ (pa : Pattern) (valid : is_valid pa ≡ ok tt) where
  -- In a pattern that `IsValid` accepts, wherever a party sends a token `v`, what came before
  -- allows it: a public key was not sent by that party, a DH calculation was made by nobody and
  -- both its public keys were sent, by the parties whose keys they are.
  pub keys_before_dh :
      (later before : History) (side : Side) (v : Token)
      → history pa ≡ later ++ ((side, v) ∷ before)
      → Allowed side v before
  keys_before_dh later before side v split =
      (Lawful-append later ((side, v) ∷ before) (subst Lawful split (history-Lawful pa valid))).0

and_left : (a b : Bool) → a && b ≡ true → a ≡ true
and_left a b p = ground arith

and_right : (a b : Bool) → a && b ≡ true → b ≡ true
and_right a b p = ground arith

side_eq→eq : (a b : Side) → side_eq a b ≡ true → a ≡ b
side_eq→eq a b p = ground arith

token_eq→eq : (a b : Token) → token_eq a b ≡ true → a ≡ b
token_eq→eq (token_invalid m) (token_invalid n) p =
    ap token_invalid (omega (arith, (==_iff m n).0 p))
token_eq→eq a b p = ground arith

-- The event that a test finds is the one looked for.
at_event :
    (P : Side → Token → Type 0) (by side : Side) (v t : Token)
    → side_eq by side && token_eq v t ≡ true
    → P by v
    → P side t
at_event P by side v t p q =
    subst (P side) (token_eq→eq v t (and_right _ _ p))
      (subst (λ (a : Side). P a v) (side_eq→eq by side (and_left _ _ p)) q)

times_le_one :
    (side : Side) (t : Token)
    → ((h : History) → Allowed side t h → sent side t h ≡ false)
    → (h : History) → Lawful h
    → times side t h ≤ 1
times_le_one side t first [] law = omega arith
times_le_one side t first ((by, v) ∷ h) law = elim (Bool-cases (side_eq by side && token_eq v t)) [
  | inl p ↦ rw p (
      omega
        (arith, unsent side t h (first h (at_event (λ a b. Allowed a b h) by side v t p law.0))))
  | inr p ↦ rw p (times_le_one side t first h law.1)
]

-- How often anybody has made the calculation `t`.
abbrev pub total : Token → History → ℕ
total t h = times initiator t h + times responder t h

untaken : (t : Token) (h : History) → either t h ≡ false → total t h ≡ 0
untaken t h p =
    omega (arith, unsent initiator t h (ground arith), unsent responder t h (ground arith))

total_le_one :
    (t : Token)
    → ((side : Side) (h : History) → Allowed side t h → either t h ≡ false)
    → (h : History) → Lawful h
    → total t h ≤ 1
total_le_one t first [] law = omega arith
total_le_one t first ((by, v) ∷ h) law = elim (Bool-cases (token_eq v t)) [
  | inl p ↦
      let fresh : total t h ≡ 0 =
        untaken t h
          (first by h (subst (λ (b : Token). Allowed by b h) (token_eq→eq v t p) law.0)) in
      ground arith
  | inr p ↦ let before : total t h ≤ 1 = total_le_one t first h law.1 in ground arith
]

module _ (pa : Pattern) (valid : is_valid pa ≡ ok tt) where
  -- In a pattern that `IsValid` accepts, pre-messages included, no party sends its ephemeral or its
  -- static public key twice, and none of the four DH calculations is made twice by anybody.
  pub sent_once :
      (side : Side)
      → (times side token_e (history pa) ≤ 1)
        × (times side token_s (history pa) ≤ 1)
        × (total token_ee (history pa) ≤ 1)
        × (total token_es (history pa) ≤ 1)
        × (total token_se (history pa) ≤ 1)
        × (total token_ss (history pa) ≤ 1)
  sent_once side =
      let law = history-Lawful pa valid in
      (
        times_le_one side token_e (λ h p. p) (history pa) law,
        times_le_one side token_s (λ h p. p) (history pa) law,
        total_le_one token_ee (λ by h p. p.0) (history pa) law,
        total_le_one token_es (λ by h p. p.0) (history pa) law,
        total_le_one token_se (λ by h p. p.0) (history pa) law,
        total_le_one token_ss (λ by h p. p.0) (history pa) law,
      )
