-- ===== src/HandshakeState/Sync/Delivered.antt =====
-- ReadMessage of what WriteMessage of the other party returned.
use nyquist.Base.{
  ◌<◌, length-append, ◌-◌, ◌≤◌, inr, inl, refl, ℕ, ◌+◌, ◌≡◌, ◌≢◌, ◌⊎◌, Bool, false, not, Option,
  none, some, ok, Bytes, if◌then◌else◌, sym, ap, ◌∙◌, subst, ◌++◌, arith, length, get_elem?,
}
use nyquist.Pattern.{Message, Side}
use nyquist.Pattern.Rules.{side_of}
use nyquist.Pattern.Validity.{get_side}
use nyquist.Pattern.Rules.Tokens.{get_side-side_of}
use nyquist.Pattern.Rules.{after, Allowed, Each, History}
use nyquist.Crypto.{DhLaws, HashLaws, CipherLaws, Error, out_of_order, message_size}
use nyquist.HandshakeState.{Protocol}
use nyquist.HandshakeState.Tokens.{decrypt_call, State, fail}
use nyquist.HandshakeState.Messages.{
  on_done, read_tokens, read_message, read_unless, read_pattern, same, is_even, oversized,
}
use nyquist.HandshakeState.Sync.{Mirror}
use nyquist.HandshakeState.Sync.Steps.{Frame, same_Mirror}
use nyquist.HandshakeState.Sync.Delivery.{is_initiator_side, Linked, tokens_step}
use nyquist.HandshakeState.Sync.Exchange.{Finished, on_done_same}
use mathlib.Core.List.{append_assoc}
use nyquist.Base.Exec.{◌>>=◌, bind_same}
use nyquist.HandshakeState.Sync.Message.{Written}
use nyquist.HandshakeState.Sync.Static.{encrypt_Passed}

module _ {Aead Keypair PublicKey Rng : Type 0} (pr : Protocol Aead Keypair PublicKey Rng) where
  -- What a message that is not the last one leaves alone, and its place in the pattern.
  pub record Advanced (a b : State pr) : Type 0 where
    pub cfg : b.cfg ≡ a.cfg
    pub error : b.status.error ≡ a.status.error
    pub index : b.pattern_index ≡ a.pattern_index + 1
    pub max : b.max_message_size ≡ a.max_message_size
    pub s : b.s ≡ a.s
    pub re : a.re ≢ none → b.re ≢ none
    pub rs : a.rs ≢ none → b.rs ≢ none

  -- Both parties go on with the next message.
  pub record Continued (e : Option Error) (side : Side) (h : History) (w w' r r' : State pr)
      : Type 0 where
    pub result : e ≡ none
    pub more : w'.pattern_index < length pr.pattern_of.messages
    pub mirror : Mirror pr w' r'
    pub link : Linked pr side h r'
    pub writer : Advanced w w'
    pub reader : Advanced r r'

  -- A message from its writer to its reader, and what both return.
  pub record MessageStep (side : Side) (h : History) (dst payload out : Bytes) (e : Option Error)
      (w w' r : State pr) : Type 0 where
    pub message : Bytes
    pub appended : out ≡ dst ++ message
    pub r' : State pr
    pub reads : (dst' : Bytes) → read_message pr dst' message r ≡ (ok (dst' ++ payload, e), r')
    pub advanced : w'.pattern_index ≡ w.pattern_index + 1
    pub outcome : Continued e side h w w' r r' ⊎ Finished pr e w' r'

  pub even_side : (i : ℕ) → is_initiator_side (side_of i) ≡ is_even i
  even_side i =
      let even : is_initiator_side (get_side i) ≡ is_even i = ground arith in
      ap is_initiator_side (sym (get_side-side_of i)) ∙ even

  same-not : (a b : Bool) → a ≡ not b → not (same a (not b)) ≡ false
  same-not a b p = ground arith

  -- The tests of ReadMessage pass.
  read_start :
      (msg : Message) (dst message : Bytes) (r : State pr)
      → r.status.error ≡ none
      → oversized r.max_message_size (length message) ≡ false
      → r.cfg.is_initiator ≡ not (is_even r.pattern_index)
      → get_elem? pr.pattern_of.messages r.pattern_index ≡ some msg
      → read_message pr dst message r ≡ read_pattern pr (some msg) dst message r
  unfolding read_message
  read_start msg dst message r error fits turn at =
      ap (λ o. read_unless pr o dst message r) error
      ∙ ap
          (λ b.
            if b
            then fail message_size r
            else if not (same r.cfg.is_initiator (not (is_even r.pattern_index)))
            then fail out_of_order r
            else read_pattern pr (get_elem? pr.pattern_of.messages r.pattern_index) dst message r)
          fits
      ∙ ap
          (λ b.
            if b
            then fail out_of_order r
            else read_pattern pr (get_elem? pr.pattern_of.messages r.pattern_index) dst message r)
          (same-not r.cfg.is_initiator (is_even r.pattern_index) turn)
      ∙ ap (λ o. read_pattern pr o dst message r) at

  Frame-Advanced :
      (a b c b' : State pr) (ss : _)
      → Frame pr a b
      → c ≡ record b { ss = ss }
      → b' ≡ record c { pattern_index = c.pattern_index + 1 }
      → Advanced a b'
  Frame-Advanced a b c b' ss f p q =
      let both : b' ≡ record b { ss = ss; pattern_index = b.pattern_index + 1 } =
        q ∙ ap (λ (t : State pr). record t { pattern_index = t.pattern_index + 1 }) p in
      subst (Advanced a) (sym both) (record {
        cfg = f.cfg;
        error = f.error;
        index = ap (λ n. n + 1) f.index;
        max = f.max;
        s = f.s;
        re = f.re;
        rs = f.rs;
      })

  Linked-same :
      (side : Side) (h : History) (r r' : State pr)
      → r'.re ≡ r.re
      → r'.rs ≡ r.rs
      → Linked pr side h r
      → Linked pr side h r'
  Linked-same side h r r' p q link = record {
    e = λ x. subst (λ o. o ≢ none) (sym p) (link.e x);
    s = λ x. subst (λ o. o ≢ none) (sym q) (link.s x);
  }

module _ {Aead Keypair PublicKey Rng : Type 0} (pr : Protocol Aead Keypair PublicKey Rng)
    (claws : CipherLaws pr.cipher) (hlaws : HashLaws pr.hash) (dlaws : DhLaws pr.dh)
    (big : 32 ≤ pr.hash.size) where
  -- The reader's calls, once its tests have passed.
  read_rest :
      (msg : Message) (sent message payload dst : Bytes) (e : Option Error) (r r1 r2 r3 : State pr)
      → read_tokens pr msg (sent ++ message) r ≡ (ok message, r1)
      → decrypt_call pr dst message r1 ≡ (ok (dst ++ payload), r2)
      → on_done pr (dst ++ payload) r2 ≡ (ok (dst ++ payload, e), r3)
      → read_pattern pr (some msg) dst (sent ++ message) r ≡ (ok (dst ++ payload, e), r3)
  read_rest msg sent message payload dst e r r1 r2 r3 p q s =
      bind_same (read_tokens pr msg (sent ++ message))
        (λ rest. decrypt_call pr dst rest >>= λ o. on_done pr o) r r1 message p
      ∙ bind_same (decrypt_call pr dst message) (λ o. on_done pr o) r1 r2 (dst ++ payload) q
      ∙ s

  pub Written-MessageStep :
      (side : Side) (h : History) (dst payload out : Bytes) (e : Option Error) (w w' r : State pr)
      (wr : Written pr dst payload out e w w')
      → r.cfg.is_initiator ≡ not (is_initiator_side side)
      → r.cfg.is_initiator ≡ not (is_even r.pattern_index)
      → Linked pr side h r
      → Mirror pr w r
      → r.status.error ≡ none
      → r.pattern_index ≡ w.pattern_index
      → r.max_message_size ≡ w.max_message_size
      → Each Allowed side wr.msg h
      → MessageStep pr side (after side wr.msg h) dst payload out e w w' r
  Written-MessageStep side h dst payload out e w w' r wr role turn link mir error index max
        allowed =
      let ts =
        tokens_step pr claws hlaws dlaws big side wr.msg h dst wr.out1 w wr.w1 r role link mir
          allowed wr.tokens in
      let ps =
        encrypt_Passed pr claws hlaws dlaws big wr.out1 payload wr.out2 wr.w1 wr.w2 ts.r' ts.mirror
          wr.sealed in
      let r2 = record ts.r' { ss = some ps.ss' } in
      let mir2 : Mirror pr wr.w2 r2 =
        subst (λ t. Mirror pr t r2) (sym ps.writer)
          (same_Mirror pr wr.w1 ts.r' ps.ss' ts.mirror ps.wf) in
      let w2_index : wr.w2.pattern_index ≡ w.pattern_index =
        ap (λ (t : State pr). t.pattern_index) ps.writer ∙ ts.writer_frame.index in
      let w2_max : wr.w2.max_message_size ≡ w.max_message_size =
        ap (λ (t : State pr). t.max_message_size) ps.writer ∙ ts.writer_frame.max in
      let ds =
        on_done_same pr claws hlaws dlaws big wr.out2 out e wr.w2 w' r2 mir2
          (ts.reader_frame.index ∙ index ∙ sym w2_index) wr.finished in
      let message = ts.sent_bytes ++ ps.ciphertext in
      let whole : wr.out2 ≡ dst ++ message =
        ps.appended
        ∙ ap (λ b. b ++ ps.ciphertext) ts.appended
        ∙ append_assoc dst ts.sent_bytes ps.ciphertext in
      let size : length wr.out2 - length dst ≡ length message =
        omega (arith, length-append dst message, ap length whole) in
      let fits : oversized r.max_message_size (length message) ≡ false =
        ap (λ n. oversized n (length message)) (max ∙ sym w2_max)
        ∙ ap (λ n. oversized wr.w2.max_message_size n) (sym size)
        ∙ wr.fits in
      record {
        message = message;
        appended = ds.returned ∙ whole;
        r' = ds.r';
        reads = λ dst'.
            read_start pr wr.msg dst' message r error fits turn
              (ap (λ i. get_elem? pr.pattern_of.messages i) index ∙ wr.at)
            ∙ read_rest wr.msg ts.sent_bytes ps.ciphertext payload dst' e r ts.r' r2 ds.r'
                (ts.reads ps.ciphertext) (ps.opened dst') (ds.reads (dst' ++ payload));
        advanced = ds.advanced ∙ ap (λ n. n + 1) w2_index;
        outcome = elim ds.outcome [
          | inr fin ↦ inr fin
          | inl on ↦ inl (record {
            result = on.result;
            more = on.more;
            mirror = on.mirror;
            link =
                Linked-same pr side (after side wr.msg h) ts.r' ds.r'
                  (ap (λ (t : State pr). t.re) on.r_frame) (ap (λ (t : State pr). t.rs) on.r_frame)
                  ts.link;
            writer =
                Frame-Advanced pr w wr.w1 wr.w2 w' (some ps.ss') ts.writer_frame ps.writer
                  on.w_frame;
            reader =
                Frame-Advanced pr r ts.r' r2 ds.r' (some ps.ss') ts.reader_frame refl on.r_frame;
          })
        ];
      }
