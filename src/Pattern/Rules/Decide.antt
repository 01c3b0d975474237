-- ===== src/Pattern/Rules/Decide.antt =====
-- The loops of `is_valid`, each beside the rule that it checks.
use nyquist.Base.{
  subst, ℕ, suc, ◌≡◌, refl, sym, ◌↔◌, Option, none, some, Bool, true, false, not, ◌&&◌, List, [],
  ◌∷◌, Result, ok, err, panic, ◌>>=◌, ◌>>◌, arith, if◌then◌else◌,
}
use nyquist.Pattern.{
  Token, token_e, token_psk, token_ee, token_es, token_se, token_ss, Message, Side, initiator,
  responder, PatternError, payload_without_ephemeral,
}
use nyquist.Pattern.Validity.{
  Seen, get_side, check_pre_token, check_pre_message, check_pre_messages, check_token, check_tokens,
  check_end, check_message, check_messages, required, later, missing, check_missing, in_either, has,
}
use nyquist.Pattern.Rules.{
  History, Allowed, PreAllowed, MayEncrypt, after, after_all, Each, PreMessages, Messages, Needs,
  StaticRule, sent, either,
}
use nyquist.Pattern.Rules.Tokens.{
  get_side-side_of, Tracks, Agrees, check_pre_token-Agrees, check_token-Agrees, has-eq-sent,
}

-- One check after another: the second is reached only where the first rule holds.
Agrees-bind :
    (P Q : Type 0) (h k : History) (r : Result PatternError Seen)
    (f : Seen → Result PatternError Seen)
    → Agrees P h r
    → ((seen : Seen) → Tracks seen h → Agrees Q k (f seen))
    → Agrees (P × Q) k (r >>= f)
Agrees-bind P Q h k (ok seen) f (p, follows) next = go (f seen) (next seen follows)
  where
    go : (r : Result PatternError Seen) → Agrees Q k r → Agrees (P × Q) k r
    go (ok seen') (q, follows') = ((p, q), follows')
    go (err e) no_rule = λ pq. no_rule pq.1
    go panic no_rule = no_rule
Agrees-bind P Q h k (err e) f no_rule next = λ pq. no_rule pq.0
Agrees-bind P Q h k panic f no_rule next = no_rule

check_pre_message-Agrees :
    (side : Side) (msg : Message) (seen : Seen) (h : History)
    → Tracks seen h
    → Agrees (Each PreAllowed side msg h) (after side msg h) (check_pre_message side msg seen)
unfolding check_pre_message
check_pre_message-Agrees side [] seen h follows = (tt, follows)
check_pre_message-Agrees side (v ∷ msg) seen h follows =
    Agrees-bind _ _ _ _ (check_pre_token side v seen) (check_pre_message side msg)
      (check_pre_token-Agrees side v seen h follows)
      λ seen' follows'. check_pre_message-Agrees side msg seen' ((side, v) ∷ h) follows'

pub check_pre_messages-Agrees :
    (i : ℕ) (msgs : List Message) (seen : Seen) (h : History)
    → Tracks seen h
    → Agrees (PreMessages i msgs h) (after_all i msgs h) (check_pre_messages i msgs seen)
unfolding check_pre_messages
check_pre_messages-Agrees i [] seen h follows = (tt, follows)
check_pre_messages-Agrees i (msg ∷ msgs) seen h follows =
    subst
      (λ side.
        Agrees (Each PreAllowed side msg h × PreMessages (suc i) msgs (after side msg h))
          (after_all (suc i) msgs (after side msg h)) (check_pre_messages i (msg ∷ msgs) seen))
      (get_side-side_of i)
      (Agrees-bind _ _ _ _ (check_pre_message (get_side i) msg seen)
        (check_pre_messages (suc i) msgs) (check_pre_message-Agrees (get_side i) msg seen h follows)
        λ seen' follows'.
          check_pre_messages-Agrees (suc i) msgs seen' (after (get_side i) msg h) follows')

check_tokens-Agrees :
    (side : Side) (msg : Message) (seen : Seen) (h : History)
    → Tracks seen h
    → Agrees (Each Allowed side msg h) (after side msg h) (check_tokens side msg seen)
unfolding check_tokens
check_tokens-Agrees side [] seen h follows = (tt, follows)
check_tokens-Agrees side (v ∷ msg) seen h follows =
    Agrees-bind _ _ _ _ (check_token side v seen) (check_tokens side msg)
      (check_token-Agrees side v seen h follows)
      λ seen' follows'. check_tokens-Agrees side msg seen' ((side, v) ∷ h) follows'

-- One requirement, one assignment to `missingDH`.
required-Needs :
    (seen : Seen) (h : History) (a b : Token)
    → Tracks seen h
    → (required seen a b ≡ none) ↔ Needs a b h
required-Needs seen h a b follows = (
  λ p q. ground (arith, follows.init a, follows.resp a, follows.init b, follows.resp b),
  λ p. ground (arith, follows.init a, follows.resp a, follows.init b, follows.resp b),
)

later-none : (a b : Option Token) → (later a b ≡ none) ↔ ((a ≡ none) × (b ≡ none))
later-none a b = (λ p. ground arith, λ p. ground arith)

missing-StaticRule :
    (side : Side) (seen : Seen) (h : History)
    → Tracks seen h
    → (missing side seen ≡ none) ↔ StaticRule side h
unfolding missing
missing-StaticRule initiator seen h follows =
    let first = required-Needs seen h token_se token_ee follows in
    let second = required-Needs seen h token_ss token_es follows in
    let both = later-none (required seen token_se token_ee) (required seen token_ss token_es) in
    (λ p. (first.0 (both.0 p).0, second.0 (both.0 p).1), λ p. both.1 (first.1 p.0, second.1 p.1))
missing-StaticRule responder seen h follows =
    let first = required-Needs seen h token_es token_ee follows in
    let second = required-Needs seen h token_ss token_se follows in
    let both = later-none (required seen token_es token_ee) (required seen token_ss token_se) in
    (λ p. (first.0 (both.0 p).0, second.0 (both.0 p).1), λ p. both.1 (first.1 p.0, second.1 p.1))

-- The checks at the end of a message pass exactly when the party may encrypt.
check_end-Agrees :
    (side : Side) (seen : Seen) (h : History)
    → Tracks seen h
    → Agrees (MayEncrypt side h) h (do check_end side seen; ok seen)
unfolding check_end
check_end-Agrees side seen h follows =
    go (missing side seen) (in_either seen token_psk) (has side seen token_e)
      (missing-StaticRule side seen h follows)
      (ground (arith, follows.init token_psk, follows.resp token_psk))
      (has-eq-sent side token_e seen h follows)
  where
    go :
        (absent : Option Token) (psk e : Bool)
        → (absent ≡ none) ↔ StaticRule side h
        → psk ≡ either token_psk h
        → e ≡ sent side token_e h
        → Agrees (MayEncrypt side h) h (do
          (do
            check_missing side absent
            if psk && not e then err (payload_without_ephemeral side) else ok tt)
          ok seen)
    go (some t) psk e rule p q = λ may. cc (rule.1 may.0)
    go none true false rule p q = λ may. cc (may.1 (sym p))
    go none true true rule p q = ((rule.0 refl, λ x. sym q), follows)
    go none false e rule p q = ((rule.0 refl, λ x. cc), follows)

check_message-Agrees :
    (side : Side) (msg : Message) (seen : Seen) (h : History)
    → Tracks seen h
    → Agrees
        (Each Allowed side msg h × MayEncrypt side (after side msg h))
        (after side msg h)
        (check_message side msg seen)
unfolding check_message
check_message-Agrees side msg seen h follows =
    Agrees-bind _ _ _ _ (check_tokens side msg seen) (λ seen'. do check_end side seen'; ok seen')
      (check_tokens-Agrees side msg seen h follows)
      λ seen' follows'. check_end-Agrees side seen' (after side msg h) follows'

-- `Messages` is flat: its first two parts belong to one message.
regroup :
    (P Q R : Type 0) (h : History) (r : Result PatternError Seen)
    → Agrees ((P × Q) × R) h r
    → Agrees (P × Q × R) h r
regroup P Q R h (ok seen) (((p, q), r), follows) = ((p, q, r), follows)
regroup P Q R h (err e) no_rule = λ x. no_rule ((x.0, x.1), x.2)
regroup P Q R h panic no_rule = no_rule

pub check_messages-Agrees :
    (i : ℕ) (msgs : List Message) (seen : Seen) (h : History)
    → Tracks seen h
    → Agrees (Messages i msgs h) (after_all i msgs h) (check_messages i msgs seen)
unfolding check_messages
check_messages-Agrees i [] seen h follows = (tt, follows)
check_messages-Agrees i (msg ∷ msgs) seen h follows =
    subst
      (λ side.
        Agrees
          (Each Allowed side msg h
            × MayEncrypt side (after side msg h)
            × Messages (suc i) msgs (after side msg h))
          (after_all (suc i) msgs (after side msg h)) (check_messages i (msg ∷ msgs) seen))
      (get_side-side_of i)
      (regroup _ _ _ _ (check_messages i (msg ∷ msgs) seen) (
        Agrees-bind _ _ _ _ (check_message (get_side i) msg seen) (check_messages (suc i) msgs)
          (check_message-Agrees (get_side i) msg seen h follows)
          λ seen' follows'.
            check_messages-Agrees (suc i) msgs seen' (after (get_side i) msg h) follows'))
