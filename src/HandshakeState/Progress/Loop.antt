-- ===== src/HandshakeState/Progress/Loop.antt =====
-- WriteMessage's loop over the tokens of a message, from a writer that has what they take.
use nyquist.Base.{
  ◌+◌, ◌≤◌, ◌≡◌, ℕ, Bytes, ok, refl, ap, ◌∙◌, sym, subst, arith, length, [], ◌∷◌, not,
}
use nyquist.Base.Exec.{bind_same}
use nyquist.Pattern.{
  Message, Token, token_e, token_s, token_ee, token_es, token_se, token_ss, token_psk,
  token_invalid, Side,
}
use nyquist.Pattern.Rules.{after, psk_weight, History, Allowed, Each}
use nyquist.Pattern.Rules.Progress.{sent_cons-other}
use nyquist.Pattern.Rules.{other}
use nyquist.Pattern.Sizes.{is_keyed, tag_if, message_length}
use nyquist.HandshakeState.Ready.{uses_psk}
use nyquist.Crypto.{DhSupplies, CipherLaws, HashLaws, DhLaws}
use nyquist.CipherState.{maxnonce}
use nyquist.SymmetricState.Progress.{Fits, TagsAre}
use nyquist.HandshakeState.{Protocol}
use nyquist.HandshakeState.Tokens.{State}
use nyquist.HandshakeState.Messages.{write_tokens, write_token}
use nyquist.HandshakeState.Sync.{Mirror, Readable}
use nyquist.HandshakeState.Sync.Steps.{Frame}
use nyquist.HandshakeState.Sync.Delivery.{
  is_initiator_side, Linked, Linked-cons, Allowed-Readable, token_step,
}
use nyquist.HandshakeState.Progress.{SsStocked, Equipped, SendsStatic, SendsStatics}
use nyquist.Pattern.Rules.Growth.{psks_of}
use nyquist.HandshakeState.Progress.Tokens.{token_succeeds}

module _ {Aead Keypair PublicKey Rng : Type 0} (pr : Protocol Aead Keypair PublicKey Rng) where
  -- The loop wrote a whole message, with what that used up. `n` bytes of payload would make the
  -- message as long as the pattern says.
  pub record LoopWritten (side : Side) (h : History) (msg : Message) (dst : Bytes) (k max tag : ℕ)
      (w : State pr) : Type 0 where
    pub out : Bytes
    pub w' : State pr
    pub wrote : write_tokens pr msg dst w ≡ (ok out, w')
    pub stock : SsStocked pr (k + length msg) max (is_keyed (uses_psk pr) (after side msg h)) w'.ss
    pub psk_index : w'.psk_index ≡ w.psk_index + psks_of msg
    pub size :
        (n : ℕ)
        → length out + (n + tag_if (is_keyed (uses_psk pr) (after side msg h)) tag)
          ≡ length dst + message_length (uses_psk pr) pr.dh.size tag side h msg n

  -- The writer holds the reader's key that a DH calculation of its message takes.
  own_Readable :
      (v : Token) (side : Side) (h : History) (w : State pr)
      → w.cfg.is_initiator ≡ not (is_initiator_side (other side))
      → Linked pr (other side) h w
      → Allowed side v h
      → Readable pr v w
  own_Readable token_ee side h w role link p =
      Allowed-Readable pr token_ee (other side) h w role link p
  own_Readable token_es side h w role link p =
      Allowed-Readable pr token_es (other side) h w role link p
  own_Readable token_se side h w role link p =
      Allowed-Readable pr token_se (other side) h w role link p
  own_Readable token_ss side h w role link p =
      Allowed-Readable pr token_ss (other side) h w role link p
  own_Readable token_e side h w role link p = tt
  own_Readable token_s side h w role link p = tt
  own_Readable token_psk side h w role link p = tt
  own_Readable (token_invalid n) side h w role link p = tt

  -- A token of the writer adds nothing to what its reader has sent.
  own_Linked :
      (v : Token) (side : Side) (h : History) (w w' : State pr)
      → Frame pr w w'
      → Linked pr (other side) h w
      → Linked pr (other side) ((side, v) ∷ h) w'
  own_Linked v side h w w' frame link = record {
    e = λ p. frame.re (link.e (sym (sent_cons-other side token_e v h) ∙ p));
    s = λ p. frame.rs (link.s (sym (sent_cons-other side token_s v h) ∙ p));
  }

  equipped :
      (v : Token) (side : Side) (h : History) (w : State pr)
      → Allowed side v h
      → SendsStatic v w.s
      → w.psk_index + psk_weight v ≤ length w.cfg.pre_shared_keys
      → Equipped pr v w
  equipped token_e side h w p has left = tt
  equipped token_s side h w p has left = has
  equipped token_ee side h w p has left = tt
  equipped token_es side h w p has left = tt
  equipped token_se side h w p has left = tt
  equipped token_ss side h w p has left = tt
  equipped token_psk side h w p has left = omega (arith, left)
  equipped (token_invalid n) side h w p has left = p

module _ {Aead Keypair PublicKey Rng : Type 0} (pr : Protocol Aead Keypair PublicKey Rng)
    (claws : CipherLaws pr.cipher) (hlaws : HashLaws pr.hash) (dlaws : DhLaws pr.dh)
    (big : 32 ≤ pr.hash.size) (supplies : DhSupplies pr.dh) (tag max : ℕ)
    (tags : TagsAre pr.cipher tag) where
  pub tokens_succeed :
      (side : Side) (msg : Message) (h : History) (dst : Bytes) (k n : ℕ) (w r : State pr)
      → r.cfg.is_initiator ≡ not (is_initiator_side side)
      → w.cfg.is_initiator ≡ not (is_initiator_side (other side))
      → Linked pr side h r
      → Linked pr (other side) h w
      → Mirror pr w r
      → Each Allowed side msg h
      → SendsStatics msg w.s
      → w.psk_index + psks_of msg ≤ length w.cfg.pre_shared_keys
      → k + length msg ≤ maxnonce
      → Fits max (message_length (uses_psk pr) pr.dh.size tag side h msg n)
      → SsStocked pr k max (is_keyed (uses_psk pr) h) w.ss
      → LoopWritten pr side h msg dst k max tag w
  unfolding write_tokens
  tokens_succeed side [] h dst k n w r r_role w_role r_link w_link mir allowed has left room fits
        stock =
      record {
        out = dst;
        w' = w;
        wrote = refl;
        stock = subst (λ i. SsStocked pr i max (is_keyed (uses_psk pr) h) w.ss) (omega arith) stock;
        psk_index = omega arith;
        size = λ n. refl;
      }
  tokens_succeed side (v ∷ msg) h dst k n w r r_role w_role r_link w_link mir allowed has left room
        fits stock =
      let psk = uses_psk pr in
      let b = is_keyed psk h in
      let theirs = Allowed-Readable pr v side h r r_role r_link allowed.0 in
      let first =
        token_succeeds pr claws hlaws dlaws big supplies tag max tags v dst k b w r mir
          (own_Readable pr v side h w w_role w_link allowed.0) theirs
          (equipped pr v side h w allowed.0 has.0 (omega (arith, left))) (omega (arith, room))
          (λ limited. omega (arith, fits limited)) stock in
      let step =
        token_step pr claws hlaws dlaws big v dst first.out w first.w' r mir theirs first.wrote in
      let rest =
        tokens_succeed side msg ((side, v) ∷ h) first.out (k + 1) n first.w' step.r'
          (ap (λ c. c.is_initiator) step.reader_frame.cfg ∙ r_role)
          (ap (λ c. c.is_initiator) step.writer_frame.cfg ∙ w_role)
          (Linked-cons pr v side h r step.r' r_link step.reader_frame step.learned)
          (own_Linked pr v side h w first.w' step.writer_frame w_link) step.mirror allowed.1
          (subst (SendsStatics msg) (sym step.writer_frame.s) has.1)
          (subst (λ c. first.w'.psk_index + psks_of msg ≤ length c.pre_shared_keys)
            (sym step.writer_frame.cfg) (omega (arith, left, first.psk_index)))
          (omega (arith, room)) (λ limited. omega (arith, fits limited)) first.stock in
      record {
        out = rest.out;
        w' = rest.w';
        wrote =
            bind_same (write_token pr v dst) (λ o. write_tokens pr msg o) w first.w' first.out
              first.wrote
            ∙ rest.wrote;
        stock =
            subst (λ i. SsStocked pr i max (is_keyed psk (after side (v ∷ msg) h)) rest.w'.ss)
              (omega arith) rest.stock;
        psk_index = omega (arith, rest.psk_index, first.psk_index);
        size = λ n. omega (arith, rest.size n, first.size);
      }
