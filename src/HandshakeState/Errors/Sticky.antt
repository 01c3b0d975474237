-- ===== src/HandshakeState/Errors/Sticky.antt =====
-- WriteMessage and ReadMessage as a whole, ErrDone included, and the calls after an error.
use nyquist.Base.{
  ◌⊎◌, inl, inr, ◌≡◌, Bool, true, false, not, Option, none, some, Bytes, Result, ok, err, panic,
  refl, ap, subst, if◌then◌else◌, length, ltb, get_elem?, ◌+◌, ◌-◌, ◌∙◌,
}
use nyquist.Base.Exec.{◌>>=◌}
use nyquist.Pattern.{Message}
use nyquist.Crypto.{Error, out_of_order, message_size}
use nyquist.CipherState.{CipherState}
use nyquist.SymmetricState.{SymmetricState, split}
use nyquist.SymmetricState.Errorless.{Errorless, split-Errorless}
use nyquist.SymmetricState as Ss
use nyquist.HandshakeState.{Protocol}
use nyquist.HandshakeState.Tokens.{State, Do, fail, encrypt_call, decrypt_call}
use nyquist.HandshakeState.Messages.{
  finish, split_on, on_done, write_tokens, read_tokens, same, is_even, oversized, write_pattern,
  write_unless, write_message, read_pattern, read_unless, read_message, reset,
}
use nyquist.HandshakeState.Errors.{ReportsAt, Always, encrypt_call-Always, decrypt_call-Always}
use nyquist.HandshakeState.Errors.Final.{write_tokens-Always, read_tokens-Always}

module _ {Aead Keypair PublicKey Rng : Type 0} (pr : Protocol Aead Keypair PublicKey Rng) where
  -- The error that WriteMessage or ReadMessage returned, alone or, as ErrDone, beside the slice.
  abbrev pub returned_error : Result Error (Bytes × Option Error) → Option Error
  returned_error (ok (out, e)) = e
  returned_error (err e) = some e
  returned_error panic = none

  -- If there is such an error, that is the status.
  abbrev Told : Result Error (Bytes × Option Error) × State pr → Type 0
  Told (ok (out, none), hs) = Unit
  Told (ok (out, some e), hs) = hs.status.error ≡ some e
  Told (err e, hs) = hs.status.error ≡ some e
  Told (panic, hs) = Unit

  -- A method of which this is so in every state.
  abbrev Tells : Do pr (Bytes × Option Error) → Type 0
  Tells m = (hs : State pr) → Told (m hs)

  Tells-bind :
      {A : Type 0} (m : Do pr A) (f : A → Do pr (Bytes × Option Error))
      → Always pr m
      → ((a : A) → Tells (f a))
      → Tells (m >>= f)
  Tells-bind {A} m f p q hs = go (m hs).0 (m hs).1 (p hs)
    where
      go :
          (r : Result Error A) (hs' : State pr)
          → ReportsAt pr (r, hs')
          → Told (elim r [ ok a ↦ f a hs' | err e ↦ (err e, hs') | panic ↦ (panic, hs') ])
      go (ok a) hs' s = q a hs'
      go (err e) hs' s = s
      go panic hs' s = tt

  Told-status :
      (r : Result Error (Bytes × Option Error)) (hs : State pr) (e : Error)
      → Told (r, hs)
      → returned_error r ≡ some e
      → hs.status.error ≡ some e
  Told-status (ok (out, none)) hs e t p = cc
  Told-status (ok (out, some x)) hs e t p = t ∙ p
  Told-status (err x) hs e t p = t ∙ p
  Told-status panic hs e t p = cc

  finish-Tells :
      (x : Result Error (CipherState Aead × CipherState Aead)) (h dst : Bytes)
      → Errorless x
      → Tells (finish pr x h dst)
  unfolding reset
  finish-Tells (ok (c1, c2)) h dst p = λ hs. refl
  finish-Tells (err e) h dst p = absurd p
  finish-Tells panic h dst p = λ hs. tt

  split_on-Tells : (o : Option (SymmetricState Aead)) (dst : Bytes) → Tells (split_on pr o dst)
  unfolding reset
  split_on-Tells none dst = λ hs. tt
  split_on-Tells (some ss) dst =
      finish-Tells (split pr.cipher pr.hash ss) (Ss.get_handshake_hash ss) dst
        (split-Errorless pr.cipher pr.hash ss)

  on_done-Tells : (dst : Bytes) → Tells (on_done pr dst)
  unfolding on_done reset
  on_done-Tells dst hs =
      let hs' = record hs { pattern_index = hs.pattern_index + 1 } in
      go (ltb hs'.pattern_index (length pr.pattern_of.messages)) hs'
    where
      go :
          (more : Bool) (hs' : State pr)
          → Told (if more then (ok (dst, none), hs') else split_on pr hs'.ss dst hs')
      go true hs' = tt
      go false hs' = split_on-Tells hs'.ss dst hs'

  fits-Tells :
      (big : Bool) (dst : Bytes) (hs : State pr)
      → Told (if big then fail message_size hs else on_done pr dst hs)
  fits-Tells true dst hs = refl
  fits-Tells false dst hs = on_done-Tells dst hs

  write_pattern-Tells :
      (o : Option Message) (dst payload : Bytes) → Tells (write_pattern pr o dst payload)
  write_pattern-Tells none dst payload = λ hs. tt
  write_pattern-Tells (some msg) dst payload =
      Tells-bind (write_tokens pr msg dst) _ (write_tokens-Always pr msg dst) (λ out.
        Tells-bind (encrypt_call pr out payload)
          (λ d hs.
            if oversized hs.max_message_size (length d - length dst)
            then fail message_size hs
            else on_done pr d hs)
          (encrypt_call-Always pr out payload)
          (λ d hs. fits-Tells (oversized hs.max_message_size (length d - length dst)) d hs))

  read_pattern-Tells :
      (o : Option Message) (dst payload : Bytes) → Tells (read_pattern pr o dst payload)
  read_pattern-Tells none dst payload = λ hs. tt
  read_pattern-Tells (some msg) dst payload =
      Tells-bind (read_tokens pr msg payload) _ (read_tokens-Always pr msg payload) (λ rest.
        Tells-bind (decrypt_call pr dst rest) (λ d. on_done pr d) (decrypt_call-Always pr dst rest)
          on_done-Tells)

  refused_write :
      (dst payload : Bytes) (hs : State pr) (e : Error)
      → hs.status.error ≡ some e
      → write_message pr dst payload hs ≡ (err e, hs)
  unfolding write_message
  refused_write dst payload hs e p = ap (λ o. write_unless pr o dst payload hs) p

  refused_read :
      (dst payload : Bytes) (hs : State pr) (e : Error)
      → hs.status.error ≡ some e
      → read_message pr dst payload hs ≡ (err e, hs)
  unfolding read_message
  refused_read dst payload hs e p = ap (λ o. read_unless pr o dst payload hs) p

  write_message-Tells : (dst payload : Bytes) → Tells (write_message pr dst payload)
  unfolding write_message
  write_message-Tells dst payload hs = go hs.status.error refl
    where
      go : (o : Option Error) → hs.status.error ≡ o → Told (write_unless pr o dst payload hs)
      go (some e) p = p
      go none p = turn (same hs.cfg.is_initiator (is_even hs.pattern_index))
        where
          turn :
              (b : Bool)
              → Told (
                  if not b
                  then fail out_of_order hs
                  else write_pattern pr
                      (get_elem? pr.pattern_of.messages hs.pattern_index)
                      dst
                      payload
                      hs)
          turn true =
              write_pattern-Tells (get_elem? pr.pattern_of.messages hs.pattern_index) dst payload hs
          turn false = refl

  read_message-Tells : (dst payload : Bytes) → Tells (read_message pr dst payload)
  unfolding read_message
  read_message-Tells dst payload hs = go hs.status.error refl
    where
      turn :
          (big b : Bool)
          → Told (
              if big
              then fail message_size hs
              else if not b
              then fail out_of_order hs
              else read_pattern pr
                  (get_elem? pr.pattern_of.messages hs.pattern_index)
                  dst
                  payload
                  hs)
      turn true b = refl
      turn false true =
          read_pattern-Tells (get_elem? pr.pattern_of.messages hs.pattern_index) dst payload hs
      turn false false = refl

      go : (o : Option Error) → hs.status.error ≡ o → Told (read_unless pr o dst payload hs)
      go (some e) p = p
      go none p =
          turn (oversized hs.max_message_size (length payload))
            (same hs.cfg.is_initiator (not (is_even hs.pattern_index)))

  -- If WriteMessage or ReadMessage of any state returns an error, be it ErrDone beside the slice or
  -- any error without one, the state that it leaves has that error as its status, and every later
  -- WriteMessage and ReadMessage returns the same error and changes nothing.
  pub error_stays :
      (dst payload dst' payload' : Bytes) (hs hs' : State pr)
      (r : Result Error (Bytes × Option Error)) (e : Error)
      → (write_message pr dst payload hs ≡ (r, hs')) ⊎ (read_message pr dst payload hs ≡ (r, hs'))
      → returned_error r ≡ some e
      → (hs'.status.error ≡ some e)
        × (write_message pr dst' payload' hs' ≡ (err e, hs'))
        × (read_message pr dst' payload' hs' ≡ (err e, hs'))
  error_stays dst payload dst' payload' hs hs' r e p returned =
      let told : Told (r, hs') = elim p [
        | inl q ↦ subst Told q (write_message-Tells dst payload hs)
        | inr q ↦ subst Told q (read_message-Tells dst payload hs)
      ] in
      let status = Told-status r hs' e told returned in
      (status, refused_write dst' payload' hs' e status, refused_read dst' payload' hs' e status)
