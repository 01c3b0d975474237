-- ===== src/HandshakeState/Sync/Message.antt =====
-- WriteMessage taken apart: the tokens, the payload and onDone.
use nyquist.Base.{
  ◌-◌, ◌≡◌, Bool, true, false, not, Option, none, some, ok, Bytes, if◌then◌else◌, refl, arith,
  length, get_elem?,
}
use nyquist.Base.Exec.{◌>>=◌, bind_ok}
use nyquist.Pattern.{Message}
use nyquist.Crypto.{Error, out_of_order, message_size}
use nyquist.HandshakeState.{Protocol}
use nyquist.HandshakeState.Tokens.{State, encrypt_call, fail}
use nyquist.HandshakeState.Messages.{
  write_tokens, write_message, write_unless, write_pattern, on_done, same, is_even, oversized,
}

module _ {Aead Keypair PublicKey Rng : Type 0} (pr : Protocol Aead Keypair PublicKey Rng) where
  -- What WriteMessage did if it returned a message.
  pub record Written (dst payload out : Bytes) (e : Option Error) (w w' : State pr) : Type 0 where
    pub turn : w.cfg.is_initiator ≡ is_even w.pattern_index
    pub msg : Message
    pub at : get_elem? pr.pattern_of.messages w.pattern_index ≡ some msg
    pub out1 : Bytes
    pub w1 : State pr
    pub tokens : write_tokens pr msg dst w ≡ (ok out1, w1)
    pub out2 : Bytes
    pub w2 : State pr
    pub sealed : encrypt_call pr out1 payload w1 ≡ (ok out2, w2)
    pub fits : oversized w2.max_message_size (length out2 - length dst) ≡ false
    pub finished : on_done pr out2 w2 ≡ (ok (out, e), w')

  last_step :
      (big : Bool) (dst out : Bytes) (e : Option Error) (w2 w' : State pr)
      → (if big then fail message_size w2 else on_done pr dst w2) ≡ (ok (out, e), w')
      → (big ≡ false) × (on_done pr dst w2 ≡ (ok (out, e), w'))
  last_step true dst out e w2 w' p = cc
  last_step false dst out e w2 w' p = (refl, p)

  same→eq : (a b : Bool) → same a b ≡ true → a ≡ b
  same→eq a b p = ground arith

  -- The tests of WriteMessage, taken apart.
  open_turn :
      (b : Bool) (o : Option Message) (dst payload out : Bytes) (e : Option Error) (w w' : State pr)
      → (if not b then fail out_of_order w else write_pattern pr o dst payload w)
        ≡ (ok (out, e), w')
      → (b ≡ true) × (write_pattern pr o dst payload w ≡ (ok (out, e), w'))
  open_turn true o dst payload out e w w' p = (refl, p)
  open_turn false o dst payload out e w w' p = cc

  open_pattern :
      (o : Option Message) (dst payload out : Bytes) (e : Option Error) (w w' : State pr)
      → get_elem? pr.pattern_of.messages w.pattern_index ≡ o
      → w.cfg.is_initiator ≡ is_even w.pattern_index
      → write_pattern pr o dst payload w ≡ (ok (out, e), w')
      → Written dst payload out e w w'
  open_pattern none dst payload out e w w' at turn p = cc
  open_pattern (some msg) dst payload out e w w' at turn p =
      let (out1, w1, p1, q1) =
        bind_ok (write_tokens pr msg dst)
          (λ o. encrypt_call pr o payload >>= λ d hs.
            if oversized hs.max_message_size (length d - length dst)
            then fail message_size hs
            else on_done pr d hs)
          w w' (out, e) p in
      let (out2, w2, p2, q2) =
        bind_ok (encrypt_call pr out1 payload)
          (λ d hs.
            if oversized hs.max_message_size (length d - length dst)
            then fail message_size hs
            else on_done pr d hs)
          w1 w' (out, e) q1 in
      let (fits, finished) =
        last_step (oversized w2.max_message_size (length out2 - length dst)) out2 out e w2 w' q2 in
      record {
        turn = turn;
        msg = msg;
        at = at;
        out1 = out1;
        w1 = w1;
        tokens = p1;
        out2 = out2;
        w2 = w2;
        sealed = p2;
        fits = fits;
        finished = finished;
      }

  open_error :
      (o : Option Error) (dst payload out : Bytes) (e : Option Error) (w w' : State pr)
      → write_unless pr o dst payload w ≡ (ok (out, e), w')
      → Written dst payload out e w w'
  open_error (some x) dst payload out e w w' p = cc
  open_error none dst payload out e w w' p =
      let o = get_elem? pr.pattern_of.messages w.pattern_index in
      let (turn, q) =
        open_turn (same w.cfg.is_initiator (is_even w.pattern_index)) o dst payload out e w w' p in
      open_pattern o dst payload out e w w' refl
        (same→eq w.cfg.is_initiator (is_even w.pattern_index) turn) q

  pub write_message-Written :
      (dst payload out : Bytes) (e : Option Error) (w w' : State pr)
      → write_message pr dst payload w ≡ (ok (out, e), w')
      → Written dst payload out e w w'
  unfolding write_message
  write_message-Written dst payload out e w w' p =
      open_error w.status.error dst payload out e w w' p
