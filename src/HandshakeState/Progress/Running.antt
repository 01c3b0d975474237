-- ===== src/HandshakeState/Progress/Running.antt =====
-- A run of a handshake whose parties have what its messages take.
use nyquist.Base.{
  drop, map, suc, Result, ◌+◌, ◌<◌, ◌≤◌, ◌≡◌, ℕ, Option, some, List, [], ◌∷◌, Bytes, ok, refl, ap,
  ◌∙◌, sym, subst, arith, length, get_elem?, get_elem?_total, inl, inr,
}
use nyquist.Pattern.{Message}
use nyquist.Pattern.Validity.{is_valid}
use nyquist.Pattern.Rules.{history}
use nyquist.Pattern.Rules.Progress.{before}
use nyquist.Pattern.Rules.Growth.{before-Grown}
use nyquist.Pattern.Sizes.{message_lengths-nil}
use nyquist.HandshakeState.Ready.{uses_psk}
use nyquist.Crypto.{DhSupplies, Error, CipherLaws, HashLaws, DhLaws}
use nyquist.CipherState.{maxnonce}
use nyquist.SymmetricState.Progress.{Fits, TagsAre}
use nyquist.HandshakeState.{Protocol}
use nyquist.HandshakeState.Tokens.{State}
use nyquist.HandshakeState.Messages.{write_message, read_message}
use nyquist.HandshakeState.Session.{
  on_wire, transcript, run, Ran, Completed, sent, received, arrived, next-Completed,
}
use nyquist.HandshakeState.Sync.Exchange.{Finished}
use nyquist.HandshakeState.Sync.Partners.{Partners, Delivered, write_message-Delivered}
use nyquist.HandshakeState.Progress.Writing.{write_message_succeeds}
use nyquist.HandshakeState.Progress.Needs.{
  Supplied, length_at, PayloadsFit, lengths_from, lengths_from-cons, Written, next_Supplied,
}

module _ {Aead Keypair PublicKey Rng : Type 0} (pr : Protocol Aead Keypair PublicKey Rng)
    (claws : CipherLaws pr.cipher) (hlaws : HashLaws pr.hash) (dlaws : DhLaws pr.dh)
    (big : 32 ≤ pr.hash.size) (supplies : DhSupplies pr.dh) (tag max : ℕ)
    (tags : TagsAre pr.cipher tag)
    (few : length (history pr.pattern_of) + length pr.pattern_of.messages ≤ maxnonce) where
  -- The next WriteMessage succeeds.
  next-Written :
      (msg : Message) (payload : Bytes) (w r : State pr)
      → is_valid pr.pattern_of ≡ ok tt
      → Partners pr w r
      → Supplied pr max w r
      → get_elem? pr.pattern_of.messages w.pattern_index ≡ some msg
      → w.pattern_index < length pr.pattern_of.messages
      → Fits max (length_at pr tag w.pattern_index msg (length payload))
      → Written pr max tag msg payload w
  next-Written msg payload w r valid both has at more fits =
      let n = w.pattern_index in
      let grown = before-Grown pr.pattern_of n msg at in
      write_message_succeeds pr claws hlaws dlaws big supplies tag max tags msg [] payload
        (length (before pr.pattern_of n) + n) w r valid both at (has.w_statics n msg at both.turn)
        (omega (arith, has.psk_index, has.psks, grown.psks, grown.psks_within))
        (omega (arith, few, more, grown.tokens, grown.tokens_within)) has.limit fits has.stock

  -- A message that was written arrives.
  arrives :
      (next : State pr → State pr → Ran pr) (payload out : Bytes) (e : Option Error)
      (w w' r : State pr)
      → write_message pr [] payload w ≡ (ok (out, e), w')
      → (d : Delivered pr [] payload out e w w' r)
      → sent pr next (write_message pr [] payload w) r ≡ arrived pr payload (next d.r' w')
  arrives next payload out e w w' r wrote d =
      ap (λ x. sent pr next x r) wrote
      ∙ ap (λ m. received pr next w' (read_message pr [] m r)) d.appended
      ∙ ap (received pr next w') (d.reads [])

  -- The same on the wire.
  sends :
      (next : State pr → State pr → List Bytes) (payload out : Bytes) (e : Option Error)
      (w w' r : State pr)
      → write_message pr [] payload w ≡ (ok (out, e), w')
      → (d : Delivered pr [] payload out e w w' r)
      → on_wire pr next (write_message pr [] payload w) r ≡ out ∷ next d.r' w'
  sends next payload out e w w' r wrote d =
      ap (λ x. on_wire pr next x r) wrote
      ∙ ap (λ m. out ∷ next (read_message pr [] m r).1 w') d.appended
      ∙ ap (λ (t : Result Error (Bytes × Option Error) × State pr). out ∷ next t.1 w') (d.reads [])

  -- The next message, written and delivered.
  record Arrived (payload : Bytes) (payloads : List Bytes) (w r : State pr) : Type 0 where
    msg : Message
    at : get_elem? pr.pattern_of.messages w.pattern_index ≡ some msg
    m : Written pr max tag msg payload w
    size : length m.out ≡ length_at pr tag w.pattern_index msg (length payload)
    d : Delivered pr [] payload m.out m.e w m.w' r
    ran : run pr (payload ∷ payloads) w r ≡ arrived pr payload (run pr payloads d.r' m.w')
    wire : transcript pr (payload ∷ payloads) w r ≡ m.out ∷ transcript pr payloads d.r' m.w'

  step_Arrived :
      (payload : Bytes) (payloads : List Bytes) (w r : State pr)
      → is_valid pr.pattern_of ≡ ok tt
      → Partners pr w r
      → Supplied pr max w r
      → w.pattern_index < length pr.pattern_of.messages
      → PayloadsFit pr max tag w.pattern_index (payload ∷ payloads)
      → Arrived payload payloads w r
  unfolding run transcript
  step_Arrived payload payloads w r valid both has more fit =
      let (msg, at) = get_elem?_total pr.pattern_of.messages w.pattern_index more in
      let here : w.pattern_index + 0 ≡ w.pattern_index = omega arith in
      let m = next-Written msg payload w r valid both has at more (
        subst (λ i. Fits max (length_at pr tag i msg (length payload))) here
          (fit 0 msg payload (ap (get_elem? pr.pattern_of.messages) here ∙ at) refl)) in
      let d =
        write_message-Delivered pr claws hlaws dlaws big [] payload m.out m.e w m.w' r valid both
          m.wrote in
      record {
        msg = msg;
        at = at;
        m = m;
        size = omega (arith, m.size);
        d = d;
        ran = arrives (run pr payloads) payload m.out m.e w m.w' r m.wrote d;
        wire = sends (transcript pr payloads) payload m.out m.e w m.w' r m.wrote d;
      }

  -- What is left of the handshake completes, in messages of the right sizes.
  pub run_completes :
      (payload : Bytes) (payloads : List Bytes) (w r : State pr)
      → is_valid pr.pattern_of ≡ ok tt
      → Partners pr w r
      → Supplied pr max w r
      → w.pattern_index + length (payload ∷ payloads) ≡ length pr.pattern_of.messages
      → PayloadsFit pr max tag w.pattern_index (payload ∷ payloads)
      → Completed pr (payload ∷ payloads) (run pr (payload ∷ payloads) w r)
        × (map length (transcript pr (payload ∷ payloads) w r)
            ≡ lengths_from pr tag w.pattern_index (payload ∷ payloads))
  unfolding run transcript
  run_completes payload [] w r valid both has count fit =
      let a = step_Arrived payload [] w r valid both has (omega (arith, count)) fit in
      (
        subst (Completed pr (payload ∷ [])) (sym a.ran) (elim a.d.outcome [
          | inl on ↦ absurd (omega (arith, count, on.more, a.d.advanced))
          | inr fin ↦ record {
            a = a.d.r';
            b = a.m.w';
            all = refl;
            finished = subst (λ x. Finished pr x a.m.w' a.d.r') fin.result fin;
          }
        ]),
        ap (map length) a.wire
            ∙ lengths_from-cons pr tag w.pattern_index a.msg payload a.m.out []
                (transcript pr [] a.d.r' a.m.w') a.at a.size
                (sym (
                  message_lengths-nil (uses_psk pr) pr.dh.size tag (w.pattern_index + 1)
                    (drop (w.pattern_index + 1) pr.pattern_of.messages)
                    (before pr.pattern_of (w.pattern_index + 1)))),
      )
  run_completes payload (second ∷ payloads) w r valid both has count fit =
      let a =
        step_Arrived payload (second ∷ payloads) w r valid both has (omega (arith, count)) fit in
      elim a.d.outcome [
        | inr fin ↦ absurd (omega (arith, count, fin.ended, a.d.advanced))
        | inl on ↦
            let index : a.d.r'.pattern_index ≡ w.pattern_index + 1 =
              sym on.next.index ∙ on.writer.index in
            let (rest, sizes) =
              run_completes second payloads a.d.r' a.m.w' valid on.next
                (next_Supplied pr a.msg payload a.m.e max tag w r a.d.r' a.at both has a.m on)
                (omega (arith, count, index))
                (λ i msg' p at' q.
                  let later : w.pattern_index + suc i ≡ a.d.r'.pattern_index + i =
                    omega (arith, index) in
                  subst (λ j. Fits max (length_at pr tag j msg' (length p))) later
                    (fit (suc i) msg' p (ap (get_elem? pr.pattern_of.messages) later ∙ at') q)) in
            (
              subst (Completed pr (payload ∷ second ∷ payloads)) (sym a.ran) (
                  next-Completed pr payload (second ∷ payloads)
                    (run pr (second ∷ payloads) a.d.r' a.m.w') rest),
              ap (map length) a.wire
                  ∙ lengths_from-cons pr tag w.pattern_index a.msg payload a.m.out
                      (second ∷ payloads) (transcript pr (second ∷ payloads) a.d.r' a.m.w') a.at
                      a.size (sizes ∙ ap (λ n. lengths_from pr tag n (second ∷ payloads)) index),
            )
      ]
