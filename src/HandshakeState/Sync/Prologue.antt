-- ===== src/HandshakeState/Sync/Prologue.antt =====
-- The pre-messages, mixed by both parties of a handshake.
use nyquist.Base.{
  ◌≡◌, ◌≢◌, true, Option, none, some, Result, ok, sym, ap, ◌∙◌, subst, [], ◌∷◌, arith,
}
use nyquist.Base.Exec.{bind_ok}
use nyquist.Pattern.{Token, token_e, token_s, Message, Side}
use nyquist.Pattern.Rules.{History, sent, after}
use nyquist.Crypto.{Error}
use nyquist.SymmetricState.{SymmetricState}
use nyquist.SymmetricState.Invariant
use nyquist.HandshakeState.{Protocol}
use nyquist.HandshakeState.Tokens.{State, Do}
use nyquist.HandshakeState.Start.{SideKeys, mix_e, mix_s, pre_token, pre_message}
use nyquist.HandshakeState.Sync.{SsIsWf}
use nyquist.HandshakeState.Sync.Calls.{SameStep}
use nyquist.HandshakeState.Sync.Steps.{held-IsWf}

-- Two keys that, if both are there, are one key.
abbrev pub Agree : {A : Type 0} → Option A → Option A → Type 0
Agree none b = Unit
Agree (some x) none = Unit
Agree (some x) (some y) = x ≡ y

module _ {Aead Keypair PublicKey Rng : Type 0} (pr : Protocol Aead Keypair PublicKey Rng) where
  -- The keys of one party, as two states see them.
  pub record SameKeys (a b : SideKeys PublicKey) : Type 0 where
    pub e : Agree a.e b.e
    pub s : Agree a.s b.s

  -- A state that sees the keys of a party sees those that the party has sent.
  pub record Has (side : Side) (h : History) (keys : SideKeys PublicKey) : Type 0 where
    pub e : sent side token_e h ≡ true → keys.e ≢ none
    pub s : sent side token_s h ≡ true → keys.s ≢ none

  mix_e_some :
      (o : Option PublicKey) (side : Side) (hs hs' : State pr)
      → mix_e pr o side hs ≡ (ok tt, hs')
      → o ≢ none
  mix_e_some none side hs hs' p = cc
  mix_e_some (some x) side hs hs' p = λ q. cc

  mix_s_some :
      (o : Option PublicKey) (side : Side) (hs hs' : State pr)
      → mix_s pr o side hs ≡ (ok tt, hs')
      → o ≢ none
  mix_s_some none side hs hs' p = cc
  mix_s_some (some x) side hs hs' p = λ q. cc

  Has-cons :
      (v : Token) (side : Side) (h : History) (keys : SideKeys PublicKey) (hs hs' : State pr)
      → Has side h keys
      → pre_token pr keys v hs ≡ (ok tt, hs')
      → Has side ((side, v) ∷ h) keys
  unfolding pre_token
  Has-cons token_e side h keys hs hs' has p = record {
    e = λ _. mix_e_some keys.e keys.side hs hs' p;
    s = λ q. has.s (ground (arith, q));
  }
  Has-cons token_s side h keys hs hs' has p = record {
    e = λ q. has.e (ground (arith, q));
    s = λ _. mix_s_some keys.s keys.side hs hs' p;
  }
  Has-cons v side h keys hs hs' has p = record {
    e = λ q. has.e (ground (arith, q));
    s = λ q. has.s (ground (arith, q));
  }

  pub Has-message :
      (msg : Message) (side : Side) (h : History) (keys : SideKeys PublicKey) (hs hs' : State pr)
      → Has side h keys
      → pre_message pr keys msg hs ≡ (ok tt, hs')
      → Has side (after side msg h) keys
  unfolding pre_message
  Has-message [] side h keys hs hs' has p = has
  Has-message (v ∷ msg) side h keys hs hs' has p =
      let (_, hs1, p1, p2) =
        bind_ok (pre_token pr keys v) (λ _. pre_message pr keys msg) hs hs' tt p in
      Has-message msg side ((side, v) ∷ h) keys hs1 hs' (Has-cons v side h keys hs hs1 has p1) p2

  -- Both states changed, in their SymmetricStates only, which are the same.
  pub record PreStep (w w' r r' : State pr) : Type 0 where
    pub ss' : SymmetricState Aead
    pub wf : Invariant.IsWf pr.cipher pr.hash ss'
    pub writer : w' ≡ record w { ss = some ss' }
    pub reader : r' ≡ record r { ss = some ss' }

  pub PreStep-trans : (a b c x y z : State pr) → PreStep a b x y → PreStep b c y z → PreStep a c x z
  PreStep-trans a b c x y z p q = record {
    ss' = q.ss';
    wf = q.wf;
    writer = q.writer ∙ ap (λ (t : State pr). record t { ss = some q.ss' }) p.writer;
    reader = q.reader ∙ ap (λ (t : State pr). record t { ss = some q.ss' }) p.reader;
  }

  pub PreStep-IsWf : (a b x y : State pr) → PreStep a b x y → SsIsWf pr b.ss
  PreStep-IsWf a b x y p =
      let held : b.ss ≡ some p.ss' = ap (λ (t : State pr). t.ss) p.writer in
      subst (SsIsWf pr) (sym held) p.wf

  pub PreStep-same : (a b x y : State pr) → PreStep a b x y → y.ss ≡ b.ss
  PreStep-same a b x y p =
      ap (λ (t : State pr). t.ss) p.reader ∙ sym (ap (λ (t : State pr). t.ss) p.writer)

  pub same-PreStep :
      (m : Do pr (Unit {0})) (w w' r r' : State pr)
      → SsIsWf pr w.ss
      → SameStep pr w w' r m
      → m r ≡ (ok tt, r')
      → PreStep w w' r r'
  same-PreStep m w w' r r' wf step q = record {
    ss' = step.ss';
    wf = step.wf (held-IsWf pr w step.ss step.held wf);
    writer = step.writer;
    reader = ap (λ (t : Result Error (Unit {0}) × State pr). t.1) (sym q ∙ step.reader);
  }
