-- ===== src/HandshakeState/Progress/Provided.antt =====
-- What two configurations and the payloads of a handshake need.
use nyquist.Base.{
  ◌+◌, ◌≤◌, ◌≡◌, ◌≢◌, ℕ, zero, suc, Option, none, some, List, [], ◌∷◌, Bytes, refl, ap, ◌∙◌, sym,
  subst, arith, length, get_elem?, if◌then◌else◌,
}
use nyquist.Pattern.{
  Message, Token, token_invalid, token_e, token_s, token_ee, token_es, token_se, token_ss,
  token_psk,
}
use nyquist.Pattern.Rules.{side_of}
use nyquist.Pattern.Rules.{History, after, pre_history, history}
use nyquist.Pattern.Rules.Progress.{before_from}
use nyquist.Pattern.Sizes.{message_length}
use nyquist.HandshakeState.Ready.{uses_psk}
use nyquist.CipherState.{maxnonce}
use nyquist.SymmetricState.Progress.{Fits, TagsAre}
use nyquist.HandshakeState.{Protocol, HandshakeConfig, get_max_message_size}
use nyquist.HandshakeState.Tokens.{State}
use nyquist.HandshakeState.Start.{held}
use nyquist.HandshakeState.Sync.Begun.{Started}
use nyquist.HandshakeState.Sync.Delivery.{is_initiator_side}
use nyquist.HandshakeState.Progress.{SendsStatic, SendsStatics}
use nyquist.HandshakeState.Progress.Needs.{OwnsStatics}

-- The sender of each message from number `i` on, `a` for the initiator, has what its `s` tokens want.
abbrev pub SendersHave {ℓ} : {A : Type ℓ} → ℕ → List Message → Option A → Option A → Type ℓ
SendersHave i [] a b = Unit
SendersHave i (msg ∷ msgs) a b =
    SendsStatics msg (if is_initiator_side (side_of i) then a else b) × SendersHave (suc i) msgs a b

SendersHave-at :
    {A : Type 0} (i n k : ℕ) (msgs : List Message) (a b : Option A) (msg : Message)
    → k ≡ i + n
    → SendersHave i msgs a b
    → get_elem? msgs n ≡ some msg
    → SendsStatics msg (if is_initiator_side (side_of k) then a else b)
SendersHave-at i n k [] a b msg e has at = cc
SendersHave-at i zero k (m ∷ msgs) a b msg e has at =
    let same : m ≡ msg = cc in
    let here : i ≡ k = omega (arith, e) in
    subst (λ j. SendsStatics msg (if is_initiator_side (side_of j) then a else b)) here
      (subst (λ x. SendsStatics x (if is_initiator_side (side_of i) then a else b)) same has.0)
SendersHave-at i (suc n) k (m ∷ msgs) a b msg e has at =
    SendersHave-at (suc i) n k msgs a b msg (omega (arith, e)) has.1 at

module _ {Aead Keypair PublicKey Rng : Type 0} (pr : Protocol Aead Keypair PublicKey Rng) where
  -- Each message from number `i` on is within the limit.
  abbrev pub AllFit : ℕ → ℕ → ℕ → List Message → History → List Bytes → Type 0
  AllFit max tag i [] h payloads = Unit
  AllFit max tag i (msg ∷ msgs) h [] = Unit
  AllFit max tag i (msg ∷ msgs) h (payload ∷ payloads) =
      Fits max (message_length (uses_psk pr) pr.dh.size tag (side_of i) h msg (length payload))
      × AllFit max tag (suc i) msgs (after (side_of i) msg h) payloads

  pub AllFit-at :
      (max tag i n k : ℕ) (msgs : List Message) (h : History) (payloads : List Bytes)
      (msg : Message) (payload : Bytes)
      → k ≡ i + n
      → AllFit max tag i msgs h payloads
      → get_elem? msgs n ≡ some msg
      → get_elem? payloads n ≡ some payload
      → Fits max (
          message_length
            (uses_psk pr)
            pr.dh.size
            tag
            (side_of k)
            (before_from i msgs n h)
            msg
            (length payload))
  AllFit-at max tag i n k [] h payloads msg payload e fit at p = cc
  AllFit-at max tag i n k (m ∷ msgs) h [] msg payload e fit at p = cc
  AllFit-at max tag i zero k (m ∷ msgs) h (x ∷ payloads) msg payload e fit at p =
      let first : m ≡ msg = cc in
      let second : x ≡ payload = cc in
      let here : i ≡ k = omega (arith, e) in
      let size : ℕ → Message → Bytes → ℕ =
        λ j y z. message_length (uses_psk pr) pr.dh.size tag (side_of j) h y (length z) in
      subst (λ j. Fits max (size j msg payload)) here
        (subst (λ y. Fits max (size i y payload)) first
          (subst (λ z. Fits max (size i m z)) second fit.0))
  AllFit-at max tag i (suc n) k (m ∷ msgs) h (x ∷ payloads) msg payload e fit at p =
      AllFit-at max tag (suc i) n k msgs (after (side_of i) m h) payloads msg payload
        (omega (arith, e)) fit.1 at p

  held-some : (o : Option Keypair) → o ≢ none → held pr o ≢ none
  held-some none p q = p refl
  held-some (some kp) p q = cc

  held-SendsStatic : (v : Token) (o : Option Keypair) → SendsStatic v o → SendsStatic v (held pr o)
  held-SendsStatic token_s o p = held-some o p
  held-SendsStatic token_e o p = tt
  held-SendsStatic token_ee o p = tt
  held-SendsStatic token_es o p = tt
  held-SendsStatic token_se o p = tt
  held-SendsStatic token_ss o p = tt
  held-SendsStatic token_psk o p = tt
  held-SendsStatic (token_invalid n) o p = tt

  held-SendsStatics :
      (msg : Message) (o : Option Keypair) → SendsStatics msg o → SendsStatics msg (held pr o)
  held-SendsStatics [] o p = tt
  held-SendsStatics (v ∷ msg) o p = (held-SendsStatic v o p.0, held-SendsStatics msg o p.1)

  -- What two configurations and the payloads of a handshake need so that every message is sent: a
  -- static keypair for each party that sends one, messages within the size limit, tags of `tag` bytes
  -- each, and a pattern of no more tokens and messages than there are nonces.
  pub record Provided (tag : ℕ) (ci cr : HandshakeConfig Keypair PublicKey Rng)
      (payloads : List Bytes) : Type 0 where
    pub tags : TagsAre pr.cipher tag
    pub nonces : length (history pr.pattern_of) + length pr.pattern_of.messages ≤ maxnonce
    pub statics : SendersHave 0 pr.pattern_of.messages ci.local_static cr.local_static
    pub count : length payloads ≡ length pr.pattern_of.messages
    pub sizes :
        AllFit
          (get_max_message_size ci.max_message_size)
          tag
          0
          pr.pattern_of.messages
          (pre_history pr.pattern_of)
          payloads

  -- A new state has the static keypair of its configuration.
  pub Started-OwnsStatics :
      (a b cfg : HandshakeConfig Keypair PublicKey Rng) (hs : State pr)
      → Started pr cfg hs
      → (if cfg.is_initiator then a.local_static else b.local_static) ≡ cfg.local_static
      → SendersHave 0 pr.pattern_of.messages a.local_static b.local_static
      → OwnsStatics pr hs
  Started-OwnsStatics a b cfg hs begun mine has n msg at turn =
      let role : is_initiator_side (side_of n) ≡ cfg.is_initiator =
        sym turn ∙ ap (λ c. c.is_initiator) begun.cfg_kept in
      subst (SendsStatics msg) (sym begun.s) (
        held-SendsStatics msg cfg.local_static (
          subst (SendsStatics msg)
            (ap (λ t. if t then a.local_static else b.local_static) role ∙ mine)
            (SendersHave-at 0 n n pr.pattern_of.messages a.local_static b.local_static msg
              (omega arith) has at)))
