-- ===== src/HandshakeState/Sync/PreMessages.antt =====
-- Each pre-message, mixed by both parties.
use nyquist.Base.{
  List, refl, ◌≡◌, ◌≤◌, Option, none, some, Result, ok, Bytes, ap, ◌∙◌, subst, [], ◌∷◌, ltb,
}
use nyquist.Base.Exec.{pure, ◌>>◌, bind_ok}
use nyquist.Pattern.{Token, token_e, token_s, Message, Side}
use nyquist.Crypto.{Error, DhLaws, CipherLaws, HashLaws}
use nyquist.SymmetricState.{SymmetricState, mix_hash}
use nyquist.HandshakeState.{Protocol}
use nyquist.HandshakeState.Tokens.{State, mix_hash_call, mix_if_psk}
use nyquist.HandshakeState.Start.{pre_messages, SideKeys, mix_e, mix_s, pre_token, pre_message}
use nyquist.HandshakeState.Sync.{SsIsWf}
use nyquist.HandshakeState.Sync.Calls.{call_same}
use nyquist.HandshakeState.Sync.Keys.{mix_hash_keeps, mix_if_same}
use nyquist.HandshakeState.Sync.Prologue.{
  Agree, SameKeys, PreStep, PreStep-trans, PreStep-IsWf, PreStep-same, same-PreStep,
}

module _ {Aead Keypair PublicKey Rng : Type 0} (pr : Protocol Aead Keypair PublicKey Rng)
    (claws : CipherLaws pr.cipher) (hlaws : HashLaws pr.hash) (dlaws : DhLaws pr.dh)
    (big : 32 ≤ pr.hash.size) where
  hash-PreStep :
      (b : Bytes) (w w' r r' : State pr)
      → SsIsWf pr w.ss
      → r.ss ≡ w.ss
      → mix_hash_call pr b w ≡ (ok tt, w')
      → mix_hash_call pr b r ≡ (ok tt, r')
      → PreStep pr w w' r r'
  hash-PreStep b w w' r r' wf same p q =
      same-PreStep pr (mix_hash_call pr b) w w' r r' wf
        (call_same pr (λ ss. ok (mix_hash pr.hash b ss)) w w' r
          (mix_hash_keeps pr claws hlaws dlaws big b) same p)
        q

  hash_and_psk-PreStep :
      (b : Bytes) (w w' r r' : State pr)
      → SsIsWf pr w.ss
      → r.ss ≡ w.ss
      → (do mix_hash_call pr b; mix_if_psk pr b) w ≡ (ok tt, w')
      → (do mix_hash_call pr b; mix_if_psk pr b) r ≡ (ok tt, r')
      → PreStep pr w w' r r'
  hash_and_psk-PreStep b w w' r r' wf same p q =
      let (_, w1, p1, p2) = bind_ok (mix_hash_call pr b) (λ _. mix_if_psk pr b) w w' tt p in
      let (_, r1, q1, q2) = bind_ok (mix_hash_call pr b) (λ _. mix_if_psk pr b) r r' tt q in
      let first = hash-PreStep b w w1 r r1 wf same p1 q1 in
      let wf1 = PreStep-IsWf pr w w1 r r1 first in
      let step =
        mix_if_same pr claws hlaws dlaws big (ltb 0 pr.pattern_of.num_psks) b w1 w' r1 wf1
          (PreStep-same pr w w1 r r1 first) p2 in
      PreStep-trans pr w w1 w' r r1 r' first
        (same-PreStep pr (mix_if_psk pr b) w1 w' r1 r' wf1 step q2)

  e-PreStep :
      (a b : Option PublicKey) (sa sb : Side) (w w' r r' : State pr)
      → Agree a b
      → SsIsWf pr w.ss
      → r.ss ≡ w.ss
      → mix_e pr a sa w ≡ (ok tt, w')
      → mix_e pr b sb r ≡ (ok tt, r')
      → PreStep pr w w' r r'
  e-PreStep none b sa sb w w' r r' agree wf same p q = cc
  e-PreStep (some x) none sa sb w w' r r' agree wf same p q = cc
  e-PreStep (some x) (some y) sa sb w w' r r' agree wf same p q =
      hash_and_psk-PreStep (pr.dh.to_bytes x) w w' r r' wf same p (
        ap (λ k. (do mix_hash_call pr (pr.dh.to_bytes k); mix_if_psk pr (pr.dh.to_bytes k)) r) agree
        ∙ q)

  s-PreStep :
      (a b : Option PublicKey) (sa sb : Side) (w w' r r' : State pr)
      → Agree a b
      → SsIsWf pr w.ss
      → r.ss ≡ w.ss
      → mix_s pr a sa w ≡ (ok tt, w')
      → mix_s pr b sb r ≡ (ok tt, r')
      → PreStep pr w w' r r'
  s-PreStep none b sa sb w w' r r' agree wf same p q = cc
  s-PreStep (some x) none sa sb w w' r r' agree wf same p q = cc
  s-PreStep (some x) (some y) sa sb w w' r r' agree wf same p q =
      hash-PreStep (pr.dh.to_bytes x) w w' r r' wf same p
        (ap (λ k. mix_hash_call pr (pr.dh.to_bytes k) r) agree ∙ q)

  token-PreStep :
      (v : Token) (ka kb : SideKeys PublicKey) (w w' r r' : State pr)
      → SameKeys pr ka kb
      → SsIsWf pr w.ss
      → r.ss ≡ w.ss
      → pre_token pr ka v w ≡ (ok tt, w')
      → pre_token pr kb v r ≡ (ok tt, r')
      → PreStep pr w w' r r'
  unfolding pre_token
  token-PreStep token_e ka kb w w' r r' keys wf same p q =
      e-PreStep ka.e kb.e ka.side kb.side w w' r r' keys.e wf same p q
  token-PreStep token_s ka kb w w' r r' keys wf same p q =
      s-PreStep ka.s kb.s ka.side kb.side w w' r r' keys.s wf same p q
  token-PreStep v ka kb w w' r r' keys wf same p q = cc

  none-PreStep :
      (w r : State pr) (o : Option (SymmetricState Aead))
      → w.ss ≡ o
      → SsIsWf pr o
      → r.ss ≡ w.ss
      → PreStep pr w w r r
  none-PreStep w r none p wf same = absurd wf
  none-PreStep w r (some ss) p wf same = record {
    ss' = ss;
    wf = wf;
    writer = ap (λ o. record w { ss = o }) p;
    reader = ap (λ o. record r { ss = o }) (same ∙ p);
  }

  message-PreStep :
      (msg : Message) (ka kb : SideKeys PublicKey) (w w' r r' : State pr)
      → SameKeys pr ka kb
      → SsIsWf pr w.ss
      → r.ss ≡ w.ss
      → pre_message pr ka msg w ≡ (ok tt, w')
      → pre_message pr kb msg r ≡ (ok tt, r')
      → PreStep pr w w' r r'
  unfolding pre_message
  message-PreStep [] ka kb w w' r r' keys wf same p q =
      let w_eq : w ≡ w' = ap (λ (t : Result Error (Unit {0}) × State pr). t.1) p in
      let r_eq : r ≡ r' = ap (λ (t : Result Error (Unit {0}) × State pr). t.1) q in
      subst (λ t. PreStep pr w t r r') w_eq
        (subst (λ t. PreStep pr w w r t) r_eq (none-PreStep w r w.ss refl wf same))
  message-PreStep (v ∷ msg) ka kb w w' r r' keys wf same p q =
      let (_, w1, p1, p2) = bind_ok (pre_token pr ka v) (λ _. pre_message pr ka msg) w w' tt p in
      let (_, r1, q1, q2) = bind_ok (pre_token pr kb v) (λ _. pre_message pr kb msg) r r' tt q in
      let first = token-PreStep v ka kb w w1 r r1 keys wf same p1 q1 in
      PreStep-trans pr w w1 w' r r1 r' first (
        message-PreStep msg ka kb w1 w' r1 r' keys (PreStep-IsWf pr w w1 r r1 first)
          (PreStep-same pr w w1 r r1 first) p2 q2)

  -- The loop over the parties.
  pub messages-PreStep :
      (msgs : List Message) (ia ra ib rb : SideKeys PublicKey) (w w' r r' : State pr)
      → SameKeys pr ia ib
      → SameKeys pr ra rb
      → SsIsWf pr w.ss
      → r.ss ≡ w.ss
      → pre_messages pr (ia ∷ ra ∷ []) msgs w ≡ (ok tt, w')
      → pre_messages pr (ib ∷ rb ∷ []) msgs r ≡ (ok tt, r')
      → PreStep pr w w' r r'
  unfolding pre_messages pre_message
  messages-PreStep [] ia ra ib rb w w' r r' ki kr wf same p q =
      message-PreStep [] ia ib w w' r r' ki wf same p q
  messages-PreStep (m ∷ msgs) ia ra ib rb w w' r r' ki kr wf same p q =
      let (_, w1, p1, p2) =
        bind_ok (pre_message pr ia m) (λ _. pre_messages pr (ra ∷ []) msgs) w w' tt p in
      let (_, r1, q1, q2) =
        bind_ok (pre_message pr ib m) (λ _. pre_messages pr (rb ∷ []) msgs) r r' tt q in
      let first = message-PreStep m ia ib w w1 r r1 ki wf same p1 q1 in
      PreStep-trans pr w w1 w' r r1 r' first (
        second msgs w1 r1 (PreStep-IsWf pr w w1 r r1 first) (PreStep-same pr w w1 r r1 first) p2 q2)
    where
      second :
          (msgs : List Message) (w1 r1 : State pr)
          → SsIsWf pr w1.ss
          → r1.ss ≡ w1.ss
          → pre_messages pr (ra ∷ []) msgs w1 ≡ (ok tt, w')
          → pre_messages pr (rb ∷ []) msgs r1 ≡ (ok tt, r')
          → PreStep pr w1 w' r1 r'
      second [] w1 r1 wf same p q = message-PreStep [] ra rb w1 w' r1 r' kr wf same p q
      second (m ∷ msgs) w1 r1 wf same p q =
          let (_, w2, p1, p2) = bind_ok (pre_message pr ra m) (λ _. pure tt) w1 w' tt p in
          let (_, r2, q1, q2) = bind_ok (pre_message pr rb m) (λ _. pure tt) r1 r' tt q in
          let first = message-PreStep m ra rb w1 w2 r1 r2 kr wf same p1 q1 in
          PreStep-trans pr w1 w2 w' r1 r2 r' first (
            message-PreStep [] ra rb w2 w' r2 r' kr (PreStep-IsWf pr w1 w2 r1 r2 first)
              (PreStep-same pr w1 w2 r1 r2 first) p2 q2)
