-- ===== src/HandshakeState/Progress/Needs.antt =====
-- What two parties have for the rest of a handshake, and how long its messages are.
use nyquist.Base.{
  drop, drop-at, map, suc, ◌+◌, ◌≤◌, ◌≡◌, ℕ, Option, some, List, [], ◌∷◌, Bytes, ap, ◌∙◌, sym,
  subst, arith, length, get_elem?,
}
use nyquist.Pattern.{Message}
use nyquist.Pattern.Rules.{side_of}
use nyquist.Pattern.Rules.{History, after, count_psks, history}
use nyquist.Pattern.Rules.Progress.{before, before_next}
use nyquist.Pattern.Rules.Growth.{before-Grown}
use nyquist.Pattern.Sizes.{message_lengths, is_keyed, message_length}
use nyquist.HandshakeState.Ready.{uses_psk}
use nyquist.Crypto.{Error}
use nyquist.SymmetricState.Progress.{Fits}
use nyquist.HandshakeState.{Protocol}
use nyquist.HandshakeState.Tokens.{State}
use nyquist.HandshakeState.Sync.Delivery.{is_initiator_side}
use nyquist.HandshakeState.Sync.Partners.{Partners, GoesOn}
use nyquist.HandshakeState.Progress.{SsStocked, SendsStatics}
use nyquist.HandshakeState.Progress.Writing.{MessageWritten}

module _ {Aead Keypair PublicKey Rng : Type 0} (pr : Protocol Aead Keypair PublicKey Rng) where
  -- A party has a static keypair if one of its messages has `s`.
  abbrev pub OwnsStatics : State pr → Type 0
  OwnsStatics a =
      (n : ℕ) (msg : Message)
      → get_elem? pr.pattern_of.messages n ≡ some msg
      → a.cfg.is_initiator ≡ is_initiator_side (side_of n)
      → SendsStatics msg a.s

  -- What two parties have for the rest of a handshake, before a message.
  pub record Supplied (max : ℕ) (w r : State pr) : Type 0 where
    pub stock :
        SsStocked pr
          (length (before pr.pattern_of w.pattern_index) + w.pattern_index)
          max
          (is_keyed (uses_psk pr) (before pr.pattern_of w.pattern_index))
          w.ss
    pub psk_index : w.psk_index ≤ count_psks (before pr.pattern_of w.pattern_index)
    pub psks : count_psks (history pr.pattern_of) ≤ length w.cfg.pre_shared_keys
    pub limit : w.max_message_size ≡ max
    pub w_statics : OwnsStatics w
    pub r_statics : OwnsStatics r

  -- How long message number `n` is with a payload of `size` bytes.
  abbrev pub length_at : ℕ → ℕ → Message → ℕ → ℕ
  length_at tag n msg size =
      message_length (uses_psk pr) pr.dh.size tag (side_of n) (before pr.pattern_of n) msg size

  -- The messages from number `n` on are within the limit.
  abbrev pub PayloadsFit : ℕ → ℕ → ℕ → List Bytes → Type 0
  PayloadsFit max tag n payloads =
      (i : ℕ) (msg : Message) (payload : Bytes)
      → get_elem? pr.pattern_of.messages (n + i) ≡ some msg
      → get_elem? payloads i ≡ some payload
      → Fits max (length_at tag (n + i) msg (length payload))

  -- How long the messages from number `n` on are with these payloads.
  abbrev pub lengths_from : ℕ → ℕ → List Bytes → List ℕ
  lengths_from tag n payloads =
      message_lengths (uses_psk pr) pr.dh.size tag n (drop n pr.pattern_of.messages)
        (before pr.pattern_of n) (map length payloads)

  pub lengths_from-cons :
      (tag n : ℕ) (msg : Message) (payload m : Bytes) (payloads messages : List Bytes)
      → get_elem? pr.pattern_of.messages n ≡ some msg
      → length m ≡ length_at tag n msg (length payload)
      → map length messages ≡ lengths_from tag (n + 1) payloads
      → map length (m ∷ messages) ≡ lengths_from tag n (payload ∷ payloads)
  lengths_from-cons tag n msg payload m payloads messages at size rest =
      let all : ℕ → List Message → History → List ℕ → List ℕ =
        message_lengths (uses_psk pr) pr.dh.size tag in
      let next : n + 1 ≡ suc n = omega arith in
      let ns = map length payloads in
      let tail =
        rest
        ∙ ap (λ h. all (n + 1) (drop (n + 1) pr.pattern_of.messages) h ns)
            (before_next pr.pattern_of n msg at)
        ∙ ap
            (λ i.
              all i (drop i pr.pattern_of.messages) (after (side_of n) msg (before pr.pattern_of n))
                ns)
            next in
      ap (λ x. x ∷ map length messages) size
      ∙ ap (λ xs. length_at tag n msg (length payload) ∷ xs) tail
      ∙ ap (λ msgs. all n msgs (before pr.pattern_of n) (length payload ∷ ns))
          (sym (drop-at n pr.pattern_of.messages msg at))

  -- Message number `n`, written by `w`.
  abbrev pub Written : ℕ → ℕ → Message → Bytes → State pr → Type 0
  Written max tag msg payload w =
      MessageWritten pr (side_of w.pattern_index) (before pr.pattern_of w.pattern_index) msg []
        payload (length (before pr.pattern_of w.pattern_index) + w.pattern_index) max tag w

  OwnsStatics-same : (a b : State pr) → b.cfg ≡ a.cfg → b.s ≡ a.s → OwnsStatics a → OwnsStatics b
  OwnsStatics-same a b p q owns n msg at turn =
      subst (SendsStatics msg) (sym q) (owns n msg at (sym (ap (λ c. c.is_initiator) p) ∙ turn))

  -- What is left after a message that was not the last one.
  pub next_Supplied :
      (msg : Message) (payload : Bytes) (e : Option Error) (max tag : ℕ) (w r r' : State pr)
      → get_elem? pr.pattern_of.messages w.pattern_index ≡ some msg
      → Partners pr w r
      → Supplied max w r
      → (m : Written max tag msg payload w) → GoesOn pr e w m.w' r r'
      → Supplied max r' m.w'
  next_Supplied msg payload e max tag w r r' at both has m on =
      let n = w.pattern_index in
      let grown = before-Grown pr.pattern_of n msg at in
      let index : r'.pattern_index ≡ n + 1 = sym on.next.index ∙ on.writer.index in
      let k : ℕ → ℕ = λ i. length (before pr.pattern_of i) + i in
      let counted : k n + length msg + 1 ≡ k (n + 1) = omega (arith, grown.tokens) in
      record {
        stock =
            subst
              (λ i. SsStocked pr (k i) max (is_keyed (uses_psk pr) (before pr.pattern_of i)) r'.ss)
              (sym index)
              (subst
                (SsStocked pr (k (n + 1)) max
                  (is_keyed (uses_psk pr) (before pr.pattern_of (n + 1))))
                on.next.mirror.ss
                (subst
                  (λ i.
                    SsStocked pr i max (is_keyed (uses_psk pr) (before pr.pattern_of (n + 1)))
                      m.w'.ss)
                  counted
                  (subst
                    (λ t.
                      SsStocked pr (k n + length msg + 1) max (is_keyed (uses_psk pr) t) m.w'.ss)
                    (sym (before_next pr.pattern_of n msg at)) (m.stock on.more))));
        psk_index =
            subst (λ i. r'.psk_index ≤ count_psks (before pr.pattern_of i)) (sym index)
              (omega
                (arith, grown.psks, has.psk_index, m.psk_index on.more, on.next.mirror.psk_index));
        psks =
            subst (λ l. count_psks (history pr.pattern_of) ≤ length l)
              (sym (ap (λ c. c.pre_shared_keys) on.reader.cfg ∙ both.mirror.psks)) has.psks;
        limit = on.reader.max ∙ both.max ∙ has.limit;
        w_statics = OwnsStatics-same r r' on.reader.cfg on.reader.s has.r_statics;
        r_statics = OwnsStatics-same w m.w' on.writer.cfg on.writer.s has.w_statics;
      }
