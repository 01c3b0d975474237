-- ===== src/HandshakeState/Sync/Delivery.antt =====
-- The tokens of a message: the writer's loop and the reader's.
use nyquist.Base.{
  arith, ◌≡◌, ◌≢◌, ◌≤◌, Bool, true, false, not, none, Result, ok, Bytes, if◌then◌else◌, refl, sym,
  ap, ◌∙◌, subst, ok-injective, [], ◌∷◌, ◌++◌,
}
use nyquist.Base.Exec.{bind_ok, bind_same}
use nyquist.Pattern.{
  Token, token_invalid, token_e, token_s, token_ee, token_es, token_se, token_ss, token_psk,
  Message, Side, initiator, responder,
}
use nyquist.Pattern.Rules.{History, sent, Allowed, Each, after}
use nyquist.Crypto.{Error, DhLaws, CipherLaws, HashLaws}
use mathlib.Core.List.{append-nil, append_assoc}
use nyquist.HandshakeState.{Protocol}
use nyquist.HandshakeState.Tokens.{
  State, on_token_ee, on_token_es, on_token_se, on_token_ss, on_token_psk,
}
use nyquist.HandshakeState.Messages.{write_token, read_token, write_tokens, read_tokens}
use nyquist.HandshakeState.Sync.{Mirror, Readable}
use nyquist.HandshakeState.Sync.Steps.{
  Frame, Frame-refl, Frame-trans, Learned, TokenStep, same_QuietStep, quiet-TokenStep, ee_step,
  es_step, se_step, ss_step,
}
use nyquist.HandshakeState.Sync.Keys.{psk_step}
use nyquist.HandshakeState.Sync.Ephemeral.{e_step}
use nyquist.HandshakeState.Sync.Static.{s_step}

abbrev pub is_initiator_side : Side → Bool
is_initiator_side initiator = true
is_initiator_side responder = false

module _ {Aead Keypair PublicKey Rng : Type 0} (pr : Protocol Aead Keypair PublicKey Rng) where
  -- A party holds the public keys that the other one, on `side`, has sent.
  pub record Linked (side : Side) (h : History) (r : State pr) : Type 0 where
    pub e : sent side token_e h ≡ true → r.re ≢ none
    pub s : sent side token_s h ≡ true → r.rs ≢ none

  pub Allowed-Readable :
      (v : Token) (side : Side) (h : History) (r : State pr)
      → r.cfg.is_initiator ≡ not (is_initiator_side side)
      → Linked side h r
      → Allowed side v h
      → Readable pr v r
  Allowed-Readable token_ee initiator h r role link p = link.e p.1
  Allowed-Readable token_ee responder h r role link p = link.e p.2
  Allowed-Readable token_es initiator h r role link p =
      subst (λ b. if b then r.rs ≢ none else r.re ≢ none) (sym role) (link.e p.1)
  Allowed-Readable token_es responder h r role link p =
      subst (λ b. if b then r.rs ≢ none else r.re ≢ none) (sym role) (link.s p.2)
  Allowed-Readable token_se initiator h r role link p =
      subst (λ b. if b then r.re ≢ none else r.rs ≢ none) (sym role) (link.s p.1)
  Allowed-Readable token_se responder h r role link p =
      subst (λ b. if b then r.re ≢ none else r.rs ≢ none) (sym role) (link.e p.2)
  Allowed-Readable token_ss initiator h r role link p = link.s p.1
  Allowed-Readable token_ss responder h r role link p = link.s p.2
  Allowed-Readable token_e side h r role link p = tt
  Allowed-Readable token_s side h r role link p = tt
  Allowed-Readable token_psk side h r role link p = tt
  Allowed-Readable (token_invalid n) side h r role link p = tt

  pub Linked-cons :
      (v : Token) (side : Side) (h : History) (r r' : State pr)
      → Linked side h r
      → Frame pr r r'
      → Learned pr v r'
      → Linked side ((side, v) ∷ h) r'
  Linked-cons token_e side h r r' link frame learned = record {
    e = λ _. learned;
    s = λ p. frame.rs (link.s (ground (arith, p)));
  }
  Linked-cons token_s side h r r' link frame learned = record {
    e = λ p. frame.re (link.e (ground (arith, p)));
    s = λ _. learned;
  }
  Linked-cons v side h r r' link frame learned = record {
    e = λ p. frame.re (link.e (ground (arith, p)));
    s = λ p. frame.rs (link.s (ground (arith, p)));
  }

  -- The loop of the writer appended `sent`, and that of the reader takes just that off its payload.
  pub record TokensStep (side : Side) (h : History) (msg : Message) (dst out : Bytes)
      (w w' r : State pr) : Type 0 where
    pub sent_bytes : Bytes
    pub appended : out ≡ dst ++ sent_bytes
    pub r' : State pr
    pub reads : (rest : Bytes) → read_tokens pr msg (sent_bytes ++ rest) r ≡ (ok rest, r')
    pub mirror : Mirror pr w' r'
    pub writer_frame : Frame pr w w'
    pub reader_frame : Frame pr r r'
    pub link : Linked side (after side msg h) r'

module _ {Aead Keypair PublicKey Rng : Type 0} (pr : Protocol Aead Keypair PublicKey Rng)
    (claws : CipherLaws pr.cipher) (hlaws : HashLaws pr.hash) (dlaws : DhLaws pr.dh)
    (big : 32 ≤ pr.hash.size) where
  pub token_step :
      (v : Token) (dst out : Bytes) (w w' r : State pr)
      → Mirror pr w r
      → Readable pr v r
      → write_token pr v dst w ≡ (ok out, w')
      → TokenStep pr v dst out w w' r
  unfolding write_token read_token
  token_step token_e dst out w w' r mir has h = e_step pr claws hlaws dlaws big dst out w w' r mir h
  token_step token_s dst out w w' r mir has h = s_step pr claws hlaws dlaws big dst out w w' r mir h
  token_step token_ee dst out w w' r mir has h =
      quiet-TokenStep pr token_ee (on_token_ee pr) dst out w w' r (λ p. refl) (λ r'. tt)
        (λ w1 p.
          same_QuietStep pr (on_token_ee pr) w w1 r mir
            (ee_step pr claws hlaws dlaws big w w1 r mir has p))
        h
  token_step token_es dst out w w' r mir has h =
      quiet-TokenStep pr token_es (on_token_es pr) dst out w w' r (λ p. refl) (λ r'. tt)
        (λ w1 p.
          same_QuietStep pr (on_token_es pr) w w1 r mir
            (es_step pr claws hlaws dlaws big w w1 r mir has p))
        h
  token_step token_se dst out w w' r mir has h =
      quiet-TokenStep pr token_se (on_token_se pr) dst out w w' r (λ p. refl) (λ r'. tt)
        (λ w1 p.
          same_QuietStep pr (on_token_se pr) w w1 r mir
            (se_step pr claws hlaws dlaws big w w1 r mir has p))
        h
  token_step token_ss dst out w w' r mir has h =
      quiet-TokenStep pr token_ss (on_token_ss pr) dst out w w' r (λ p. refl) (λ r'. tt)
        (λ w1 p.
          same_QuietStep pr (on_token_ss pr) w w1 r mir
            (ss_step pr claws hlaws dlaws big w w1 r mir has p))
        h
  token_step token_psk dst out w w' r mir has h =
      quiet-TokenStep pr token_psk (on_token_psk pr) dst out w w' r (λ p. refl) (λ r'. tt)
        (λ w1 p. psk_step pr claws hlaws dlaws big w w1 r mir p) h
  token_step (token_invalid n) dst out w w' r mir has h = cc

  -- If the pattern allows the tokens of a message and the writer's loop over them succeeds, then the
  -- reader's loop takes exactly what was written and leaves the rest of its payload.
  pub tokens_step :
      (side : Side) (msg : Message) (h : History) (dst out : Bytes) (w w' r : State pr)
      → r.cfg.is_initiator ≡ not (is_initiator_side side)
      → Linked pr side h r
      → Mirror pr w r
      → Each Allowed side msg h
      → write_tokens pr msg dst w ≡ (ok out, w')
      → TokensStep pr side h msg dst out w w' r
  unfolding write_tokens read_tokens
  tokens_step side [] h dst out w w' r role link mir ok_all p =
      let same : w ≡ w' = ap (λ (t : Result Error Bytes × State pr). t.1) p in
      record {
        sent_bytes = [];
        appended =
            sym (ok-injective (ap (λ (t : Result Error Bytes × State pr). t.0) p))
            ∙ sym (append-nil dst);
        r' = r;
        reads = λ rest. refl;
        mirror = subst (λ t. Mirror pr t r) same mir;
        writer_frame = subst (Frame pr w) same (Frame-refl pr w);
        reader_frame = Frame-refl pr r;
        link = link;
      }
  tokens_step side (v ∷ msg) h dst out w w' r role link mir ok_all p =
      let (out1, w1, p1, p2) =
        bind_ok (write_token pr v dst) (λ o. write_tokens pr msg o) w w' out p in
      let first =
        token_step v dst out1 w w1 r mir (Allowed-Readable pr v side h r role link ok_all.0) p1 in
      let rest =
        tokens_step side msg ((side, v) ∷ h) out1 out w1 w' first.r'
          (ap (λ c. c.is_initiator) first.reader_frame.cfg ∙ role)
          (Linked-cons pr v side h r first.r' link first.reader_frame first.learned) first.mirror
          ok_all.1 p2 in
      record {
        sent_bytes = first.sent ++ rest.sent_bytes;
        appended =
            rest.appended
            ∙ ap (λ b. b ++ rest.sent_bytes) first.appended
            ∙ append_assoc dst first.sent rest.sent_bytes;
        r' = rest.r';
        reads = λ tail.
            ap (λ b. read_tokens pr (v ∷ msg) b r) (append_assoc first.sent rest.sent_bytes tail)
            ∙ bind_same (read_token pr v (first.sent ++ (rest.sent_bytes ++ tail)))
                (λ o. read_tokens pr msg o) r first.r' (rest.sent_bytes ++ tail)
                (first.reads (rest.sent_bytes ++ tail))
            ∙ rest.reads tail;
        mirror = rest.mirror;
        writer_frame = Frame-trans pr w w1 w' first.writer_frame rest.writer_frame;
        reader_frame = Frame-trans pr r first.r' rest.r' first.reader_frame rest.reader_frame;
        link = rest.link;
      }
