-- ===== src/HandshakeState/Sync/Partners.antt =====
-- The two parties of a handshake whose pattern is valid, from message to message.
use nyquist.Base.{
  ◌<◌, length, ◌+◌, ◌≡◌, ◌≤◌, ◌⊎◌, inl, inr, Bool, not, Option, none, ok, Bytes, sym, ap, ◌∙◌,
  subst, ◌++◌, arith,
}
use nyquist.Pattern.{token_e, token_s, Side}
use nyquist.Pattern.Validity.{is_valid}
use nyquist.Pattern.Rules.{side_of}
use nyquist.Pattern.Rules.{History, after}
use nyquist.Pattern.Rules.Progress.{
  before, Allowed-at, before_next, other_twice, sent_after-other, side_of_next,
}
use nyquist.Pattern.Rules.{other}
use nyquist.Crypto.{Error, DhLaws, CipherLaws, HashLaws}
use nyquist.HandshakeState.{Protocol}
use nyquist.HandshakeState.Tokens.{State}
use nyquist.HandshakeState.Messages.{write_message, read_message, is_even}
use nyquist.HandshakeState.Sync.{Mirror, Accepts, SsIsWf}
use nyquist.HandshakeState.Sync.Delivery.{is_initiator_side, Linked}
use nyquist.HandshakeState.Sync.Exchange.{Finished}
use nyquist.HandshakeState.Sync.Message.{write_message-Written}
use nyquist.HandshakeState.Sync.Delivered.{Advanced, Continued, Written-MessageStep, even_side}

module _ {Aead Keypair PublicKey Rng : Type 0} (pr : Protocol Aead Keypair PublicKey Rng) where
  -- The party whose turn it is to write, and the other one, before a message.
  pub record Partners (w r : State pr) : Type 0 where
    pub mirror : Mirror pr w r
    pub accepts : Accepts pr w.cfg.observer
    pub w_error : w.status.error ≡ none
    pub r_error : r.status.error ≡ none
    pub index : r.pattern_index ≡ w.pattern_index
    pub max : r.max_message_size ≡ w.max_message_size
    pub turn : w.cfg.is_initiator ≡ is_initiator_side (side_of w.pattern_index)
    pub r_link : Linked pr (side_of w.pattern_index) (before pr.pattern_of w.pattern_index) r
    pub w_link :
        Linked pr (other (side_of w.pattern_index)) (before pr.pattern_of w.pattern_index) w

  -- The handshake goes on, the former reader's turn being next.
  pub record GoesOn (e : Option Error) (w w' r r' : State pr) : Type 0 where
    pub result : e ≡ none
    pub more : w'.pattern_index < length pr.pattern_of.messages
    pub next : Partners r' w'
    pub writer : Advanced pr w w'
    pub reader : Advanced pr r r'

  -- A message, the reader's state after it, and how the two parties stand then.
  pub record Delivered (dst payload out : Bytes) (e : Option Error) (w w' r : State pr)
      : Type 0 where
    pub message : Bytes
    pub appended : out ≡ dst ++ message
    pub r' : State pr
    pub reads : (dst' : Bytes) → read_message pr dst' message r ≡ (ok (dst' ++ payload, e), r')
    pub advanced : w'.pattern_index ≡ w.pattern_index + 1
    pub outcome : GoesOn e w w' r r' ⊎ Finished pr e w' r'

  pub not_flip : (a b : Bool) → b ≡ not a → a ≡ not b
  not_flip a b p = ground arith

  pub is_initiator-other :
      (side : Side) → is_initiator_side (other side) ≡ not (is_initiator_side side)
  is_initiator-other side = ground arith

  swapped : (w r : State pr) → Mirror pr w r → Accepts pr w.cfg.observer → Mirror pr r w
  swapped w r mir accepts = record {
    ss = sym mir.ss;
    wf = subst (SsIsWf pr) (sym mir.ss) mir.wf;
    psk_index = sym mir.psk_index;
    psks = sym mir.psks;
    roles = not_flip w.cfg.is_initiator r.cfg.is_initiator mir.roles;
    w_re = mir.r_re;
    w_rs = mir.r_rs;
    r_re = mir.w_re;
    r_rs = mir.w_rs;
    accepts = accepts;
    w_e = mir.r_e;
    w_s = mir.r_s;
    r_e = mir.w_e;
    r_s = mir.w_s;
  }

  Linked-other :
      (side : Side) (msg : _) (h : History) (a b : State pr)
      → Advanced pr a b
      → Linked pr (other side) h a
      → Linked pr (other side) (after side msg h) b
  Linked-other side msg h a b adv link = record {
    e = λ p. adv.re (link.e (sym (sent_after-other side token_e msg h) ∙ p));
    s = λ p. adv.rs (link.s (sym (sent_after-other side token_s msg h) ∙ p));
  }

  -- The parties change their turns.
  next_Partners :
      (msg : _) (e : Option Error) (w w' r r' : State pr)
      → Partners w r
      → before pr.pattern_of (w.pattern_index + 1)
        ≡ after (side_of w.pattern_index) msg (before pr.pattern_of w.pattern_index)
      → Continued pr e
          (side_of w.pattern_index)
          (after (side_of w.pattern_index) msg (before pr.pattern_of w.pattern_index))
          w
          w'
          r
          r'
      → Partners r' w'
  next_Partners msg e w w' r r' both next on =
      let n = w.pattern_index in
      let side = side_of n in
      let h = after side msg (before pr.pattern_of n) in
      let r_index : r'.pattern_index ≡ n + 1 = on.reader.index ∙ ap (λ i. i + 1) both.index in
      let r_side : side_of r'.pattern_index ≡ other side = ap side_of r_index ∙ side_of_next n in
      let r_before : before pr.pattern_of r'.pattern_index ≡ h =
        ap (before pr.pattern_of) r_index ∙ next in
      record {
        mirror =
            swapped w' r' on.mirror
              (subst (λ c. Accepts pr c.observer) (sym on.writer.cfg) both.accepts);
        accepts = on.mirror.accepts;
        w_error = on.reader.error ∙ both.r_error;
        r_error = on.writer.error ∙ both.w_error;
        index = on.writer.index ∙ sym r_index;
        max = on.writer.max ∙ sym both.max ∙ sym on.reader.max;
        turn =
            ap (λ c. c.is_initiator) on.reader.cfg
            ∙ both.mirror.roles
            ∙ ap not both.turn
            ∙ sym (is_initiator-other side)
            ∙ ap is_initiator_side (sym r_side);
        r_link =
            subst (λ s. Linked pr s (before pr.pattern_of r'.pattern_index) w') (sym r_side)
              (subst (λ t. Linked pr (other side) t w') (sym r_before)
                (Linked-other side msg (before pr.pattern_of n) w w' on.writer both.w_link));
        w_link =
            subst (λ s. Linked pr s (before pr.pattern_of r'.pattern_index) r')
              (sym (other_twice side) ∙ ap other (sym r_side))
              (subst (λ t. Linked pr side t r') (sym r_before) on.link);
      }

module _ {Aead Keypair PublicKey Rng : Type 0} (pr : Protocol Aead Keypair PublicKey Rng)
    (claws : CipherLaws pr.cipher) (hlaws : HashLaws pr.hash) (dlaws : DhLaws pr.dh)
    (big : 32 ≤ pr.hash.size) where
  -- Let the pattern be valid, the primitives keep their laws, the hash be of 32 bytes or more, and two
  -- parties agree, the first one's turn being next. If the first one's WriteMessage of `payload`
  -- returns `out` and `e`, then `out` is `dst` and a message, and ReadMessage of the other one takes
  -- that message, appends `payload` to whatever slice it is given and returns the same `e`. After it,
  -- one message of the pattern further, either `e` is nil, there are more messages and the two agree
  -- again with their turns changed; or all messages are sent, `e` is ErrDone, which is also the
  -- status of both, and both report the same handshake hash and the same cipher states, well-formed,
  -- keyed and at nonce 0.
  pub write_message-Delivered :
      (dst payload out : Bytes) (e : Option Error) (w w' r : State pr)
      → is_valid pr.pattern_of ≡ ok tt
      → Partners pr w r
      → write_message pr dst payload w ≡ (ok (out, e), w')
      → Delivered pr dst payload out e w w' r
  write_message-Delivered dst payload out e w w' r valid both p =
      let wr = write_message-Written pr dst payload out e w w' p in
      let n = w.pattern_index in
      let role : r.cfg.is_initiator ≡ not (is_initiator_side (side_of n)) =
        both.mirror.roles ∙ ap not both.turn in
      let step =
        Written-MessageStep pr claws hlaws dlaws big (side_of n) (before pr.pattern_of n) dst
          payload out e w w' r wr role
          (role ∙ ap not (even_side pr n) ∙ ap (λ i. not (is_even i)) (sym both.index)) both.r_link
          both.mirror both.r_error both.index both.max
          (Allowed-at pr.pattern_of n wr.msg valid wr.at) in
      record {
        message = step.message;
        appended = step.appended;
        r' = step.r';
        reads = step.reads;
        advanced = step.advanced;
        outcome = elim step.outcome [
          | inr fin ↦ inr fin
          | inl on ↦ inl (record {
            result = on.result;
            more = on.more;
            next =
                next_Partners pr wr.msg e w w' r step.r' both
                  (before_next pr.pattern_of n wr.msg wr.at) on;
            writer = on.writer;
            reader = on.reader;
          })
        ];
      }
