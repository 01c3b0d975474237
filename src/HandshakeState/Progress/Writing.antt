-- ===== src/HandshakeState/Progress/Writing.antt =====
-- WriteMessage, of a party whose turn it is and that has what the message takes.
use nyquist.Base.{
  ◌+◌, ◌-◌, ◌<◌, ◌≤◌, ◌≡◌, ℕ, Bool, true, false, not, Option, none, some, Bytes, Result, ok, refl,
  ap, ◌∙◌, sym, subst, arith, length, ltb, ◌++◌, length-append, if◌then◌else◌, get_elem?,
}
use nyquist.Base.Exec.{bind_same, ◌>>=◌}
use nyquist.Pattern.{Side, Message}
use nyquist.Pattern.Validity.{is_valid}
use nyquist.Pattern.Rules.{side_of}
use nyquist.Pattern.Rules.Progress.{before, Allowed-at}
use nyquist.Pattern.Rules.{other}
use nyquist.Pattern.Sizes.{is_keyed, message_length}
use nyquist.Pattern.Rules.{History, after}
use nyquist.HandshakeState.Ready.{uses_psk}
use nyquist.Crypto.{
  DhSupplies, Error, CipherLaws, HashLaws, DhLaws, out_of_order, message_size, done,
}
use nyquist.CipherState.{maxnonce}
use nyquist.SymmetricState.{SymmetricState, split}
use nyquist.SymmetricState as Ss
use nyquist.SymmetricState.Invariant
use nyquist.SymmetricState.Progress.{Fits, TagsAre}
use nyquist.HandshakeState.{Protocol}
use nyquist.HandshakeState.Tokens.{State, fail, encrypt_call}
use nyquist.HandshakeState.Messages.{
  same, is_even, oversized, write_tokens, write_message, write_unless, write_pattern, on_done,
  split_on, finish, reset,
}
use nyquist.HandshakeState.Sync.Delivery.{is_initiator_side, tokens_step}
use nyquist.HandshakeState.Sync.Delivered.{even_side}
use nyquist.HandshakeState.Sync.Partners.{Partners, is_initiator-other, not_flip}
use nyquist.HandshakeState.Progress.{SsStocked, SendsStatics}
use nyquist.Pattern.Rules.Growth.{psks_of}
use nyquist.HandshakeState.Progress.Mixing.{encrypt_succeeds}
use nyquist.HandshakeState.Progress.Loop.{tokens_succeed}

module _ {Aead Keypair PublicKey Rng : Type 0} (pr : Protocol Aead Keypair PublicKey Rng) where
  -- WriteMessage returned a message, as long as the pattern says; if it was not the last one, this is
  -- what it used up.
  pub record MessageWritten (side : Side) (h : History) (msg : Message) (dst payload : Bytes)
      (k max tag : ℕ) (w : State pr) : Type 0 where
    pub out : Bytes
    pub e : Option Error
    pub w' : State pr
    pub wrote : write_message pr dst payload w ≡ (ok (out, e), w')
    pub size :
        length out
        ≡ length dst + message_length (uses_psk pr) pr.dh.size tag side h msg (length payload)
    pub stock :
        w'.pattern_index < length pr.pattern_of.messages
        → SsStocked pr (k + length msg + 1) max (is_keyed (uses_psk pr) (after side msg h)) w'.ss
    pub psk_index :
        w'.pattern_index < length pr.pattern_of.messages → w'.psk_index ≡ w.psk_index + psks_of msg

  same_refl : (a b : Bool) → a ≡ b → not (same a b) ≡ false
  same_refl a b p = ground arith

  small : (max size : ℕ) → Fits max size → oversized max size ≡ false
  small max size fits = ground (arith, fits)

  -- The tests of WriteMessage pass.
  write_start :
      (msg : Message) (dst payload : Bytes) (w : State pr)
      → w.status.error ≡ none
      → w.cfg.is_initiator ≡ is_even w.pattern_index
      → get_elem? pr.pattern_of.messages w.pattern_index ≡ some msg
      → write_message pr dst payload w ≡ write_pattern pr (some msg) dst payload w
  unfolding write_message
  write_start msg dst payload w error turn at =
      ap (λ o. write_unless pr o dst payload w) error
      ∙ ap
          (λ b.
            if b
            then fail out_of_order w
            else write_pattern pr (get_elem? pr.pattern_of.messages w.pattern_index) dst payload w)
          (same_refl w.cfg.is_initiator (is_even w.pattern_index) turn)
      ∙ ap (λ o. write_pattern pr o dst payload w) at

  -- The calls of WriteMessage, once its tests have passed.
  write_rest :
      (msg : Message) (dst payload out1 out2 out : Bytes) (e : Option Error) (w w1 w2 w' : State pr)
      → write_tokens pr msg dst w ≡ (ok out1, w1)
      → encrypt_call pr out1 payload w1 ≡ (ok out2, w2)
      → oversized w2.max_message_size (length out2 - length dst) ≡ false
      → on_done pr out2 w2 ≡ (ok (out, e), w')
      → write_pattern pr (some msg) dst payload w ≡ (ok (out, e), w')
  write_rest msg dst payload out1 out2 out e w w1 w2 w' p q fits ended =
      bind_same (write_tokens pr msg dst)
        (λ o. encrypt_call pr o payload >>= λ d hs.
          if oversized hs.max_message_size (length d - length dst)
          then fail message_size hs
          else on_done pr d hs)
        w w1 out1 p
      ∙ bind_same (encrypt_call pr out1 payload)
          (λ d hs.
            if oversized hs.max_message_size (length d - length dst)
            then fail message_size hs
            else on_done pr d hs)
          w1 w2 out2 q
      ∙ ap (λ b. if b then fail message_size w2 else on_done pr out2 w2) fits
      ∙ ended

  -- The end of a message that was not the last one leaves the state as it was, but for its index.
  pub record Ended (dst : Bytes) (w : State pr) : Type 0 where
    pub out : Bytes
    pub e : Option Error
    pub w' : State pr
    pub did : on_done pr dst w ≡ (ok (out, e), w')
    pub same_out : out ≡ dst
    pub ss : w'.pattern_index < length pr.pattern_of.messages → w'.ss ≡ w.ss
    pub psk_index : w'.pattern_index < length pr.pattern_of.messages → w'.psk_index ≡ w.psk_index

module _ {Aead Keypair PublicKey Rng : Type 0} (pr : Protocol Aead Keypair PublicKey Rng)
    (claws : CipherLaws pr.cipher) (hlaws : HashLaws pr.hash) (dlaws : DhLaws pr.dh)
    (big : 32 ≤ pr.hash.size) where
  on_done_succeeds :
      (k max : ℕ) (b : Bool) (dst : Bytes) (w : State pr)
      → SsStocked pr k max b w.ss
      → Ended pr dst w
  unfolding on_done reset
  on_done_succeeds k max b dst w stock =
      go (ltb (w.pattern_index + 1) (length pr.pattern_of.messages)) w.ss refl refl stock
    where
      next : State pr
      next = record w { pattern_index = w.pattern_index + 1 }

      ending : Bool → Option (SymmetricState Aead) → Result Error (Bytes × Option Error) × State pr
      ending more o = if more then (ok (dst, none), next) else split_on pr o dst next

      go :
          (more : Bool) (o : Option (SymmetricState Aead))
          → ltb (w.pattern_index + 1) (length pr.pattern_of.messages) ≡ more
          → w.ss ≡ o
          → SsStocked pr k max b o
          → Ended pr dst w
      go true o test held q = record {
        out = dst;
        e = none;
        w' = next;
        did = ap (λ b. ending b w.ss) test;
        same_out = refl;
        ss = λ _. refl;
        psk_index = λ _. refl;
      }
      go false none test held q = absurd q
      go false (some ss) test held q =
          let (c1, c2, made, k1, k2, n1, n2, wf1, wf2) =
            Invariant.split_total pr.cipher pr.hash claws hlaws big ss q.wf in
          let last = finish pr (ok (c1, c2)) (Ss.get_handshake_hash ss) dst next in
          record {
            out = dst;
            e = some done;
            w' = last.1;
            did =
                ap (λ b. ending b w.ss) test
                ∙ ap (ending false) held
                ∙ ap (λ x. finish pr x (Ss.get_handshake_hash ss) dst next) made;
            same_out = refl;
            ss = λ more. absurd (ground (arith, more, test));
            psk_index = λ more. absurd (ground (arith, more, test));
          }

module _ {Aead Keypair PublicKey Rng : Type 0} (pr : Protocol Aead Keypair PublicKey Rng)
    (claws : CipherLaws pr.cipher) (hlaws : HashLaws pr.hash) (dlaws : DhLaws pr.dh)
    (big : 32 ≤ pr.hash.size) (supplies : DhSupplies pr.dh) (tag max : ℕ)
    (tags : TagsAre pr.cipher tag) where
  pub write_message_succeeds :
      (msg : Message) (dst payload : Bytes) (k : ℕ) (w r : State pr)
      → is_valid pr.pattern_of ≡ ok tt
      → Partners pr w r
      → get_elem? pr.pattern_of.messages w.pattern_index ≡ some msg
      → SendsStatics msg w.s
      → w.psk_index + psks_of msg ≤ length w.cfg.pre_shared_keys
      → k + length msg < maxnonce
      → w.max_message_size ≡ max
      → Fits max (
          message_length
            (uses_psk pr)
            pr.dh.size
            tag
            (side_of w.pattern_index)
            (before pr.pattern_of w.pattern_index)
            msg
            (length payload))
      → SsStocked pr k max (is_keyed (uses_psk pr) (before pr.pattern_of w.pattern_index)) w.ss
      → MessageWritten pr
          (side_of w.pattern_index)
          (before pr.pattern_of w.pattern_index)
          msg
          dst
          payload
          k
          max
          tag
          w
  write_message_succeeds msg dst payload k w r valid both at has left room limit fits stock =
      let n = w.pattern_index in
      let side = side_of n in
      let h = before pr.pattern_of n in
      let keyed = is_keyed (uses_psk pr) (after side msg h) in
      let r_role : r.cfg.is_initiator ≡ not (is_initiator_side side) =
        both.mirror.roles ∙ ap not both.turn in
      let w_role : w.cfg.is_initiator ≡ not (is_initiator_side (other side)) =
        both.turn
        ∙ not_flip pr (is_initiator_side side) (is_initiator_side (other side))
            (is_initiator-other pr side) in
      let allowed = Allowed-at pr.pattern_of n msg valid at in
      let loop =
        tokens_succeed pr claws hlaws dlaws big supplies tag max tags side msg h dst k
          (length payload) w r r_role w_role both.r_link both.w_link both.mirror allowed has left
          (omega (arith, room)) fits stock in
      let w1 = loop.w' in
      let step =
        tokens_step pr claws hlaws dlaws big side msg h dst loop.out w w1 r r_role both.r_link
          both.mirror allowed loop.wrote in
      let whole = loop.size (length payload) in
      let longer : length dst ≤ length loop.out =
        omega (arith, ap length step.appended, length-append dst step.sent_bytes) in
      let (cipher, ss, sealed, stock2, size) =
        encrypt_succeeds pr claws hlaws dlaws big (k + length msg) max tag keyed loop.out payload w1
          tags room (λ limited. omega (arith, fits limited, whole, longer)) loop.stock in
      let w2 = record w1 { ss = some ss } in
      let out2 = loop.out ++ cipher in
      let total = length-append loop.out cipher in
      let ended =
        on_done_succeeds pr claws hlaws dlaws big (k + length msg + 1) max keyed out2 w2 stock2 in
      let w2_max : w2.max_message_size ≡ max = step.writer_frame.max ∙ limit in
      let within =
        ap (λ m. oversized m (length out2 - length dst)) w2_max
        ∙ small pr max (length out2 - length dst)
            (λ limited. omega (arith, fits limited, whole, total, size)) in
      record {
        out = ended.out;
        e = ended.e;
        w' = ended.w';
        wrote =
            write_start pr msg dst payload w both.w_error (both.turn ∙ even_side pr n) at
            ∙ write_rest pr msg dst payload loop.out out2 ended.out ended.e w w1 w2 ended.w'
                loop.wrote sealed within ended.did;
        size = omega (arith, ap length ended.same_out, whole, total, size);
        stock = λ more.
            subst (SsStocked pr (k + length msg + 1) max keyed) (sym (ended.ss more)) stock2;
        psk_index = λ more. ended.psk_index more ∙ loop.psk_index;
      }
