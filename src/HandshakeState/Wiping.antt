-- ===== src/HandshakeState/Wiping.antt =====
-- handshakestate.go: what is left of the secrets of a handshake that is over.
use nyquist.Base.{
  ◌+◌, ◌≡◌, ◌⊎◌, inl, inr, Bool, true, false, not, Option, none, some, Bytes, Result, ok, err,
  panic, refl, ap, subst, length, ltb, if◌then◌else◌, get_elem?,
}
use nyquist.Base.Exec.{bind_ok, ◌>>=◌}
use nyquist.Pattern.{Message}
use nyquist.Crypto.{Error, done, out_of_order, message_size}
use nyquist.CipherState.{CipherState}
use nyquist.SymmetricState.{SymmetricState, split}
use nyquist.SymmetricState as Ss
use nyquist.HandshakeState.{Protocol, Held, symmetric_state}
use nyquist.HandshakeState.Tokens.{State, decrypt_call, fail}
use nyquist.HandshakeState.Messages.{
  reset, drop_generated, finish, split_on, on_done, write_message, read_message, read_unless,
  read_pattern, read_tokens, same, is_even, oversized,
}
use nyquist.HandshakeState.Sync.Message.{write_message-Written}

module _ {Aead Keypair PublicKey Rng : Type 0} (pr : Protocol Aead Keypair PublicKey Rng) where
  -- A keypair that is the configuration's, or of which DropPrivate has taken the private key.
  abbrev pub IsDropped : Option (Held Keypair) → Type 0
  IsDropped none = Unit
  IsDropped (some held) =
      (held.from_config ≡ true) ⊎ ((kp : Keypair) × (held.pair ≡ pr.dh.drop_private kp))

  -- A state without a SymmetricState and without the private key of a keypair of its own.
  pub record IsWiped (hs : State pr) : Type 0 where
    pub ss : symmetric_state hs ≡ none
    pub s : IsDropped hs.s
    pub e : IsDropped hs.e

  drop_generated-IsDropped : (o : Option (Held Keypair)) → IsDropped (drop_generated pr o)
  drop_generated-IsDropped none = tt
  drop_generated-IsDropped (some held) = go held.from_config refl
    where
      go :
          (b : Bool)
          → held.from_config ≡ b
          → IsDropped
              (if b then some held else some (record held { pair = pr.dh.drop_private held.pair }))
      go true p = inl p
      go false p = inr (held.pair, refl)

  finish-IsWiped :
      (x : Result Error (CipherState Aead × CipherState Aead)) (h dst out : Bytes)
      (e : Option Error) (hs hs' : State pr)
      → finish pr x h dst hs ≡ (ok (out, e), hs')
      → IsWiped hs'
  unfolding reset
  finish-IsWiped (ok (c1, c2)) h dst out e hs hs' p =
      subst IsWiped (ap (λ (t : Result Error (Bytes × Option Error) × State pr). t.1) p)
        (record { ss = refl; s = drop_generated-IsDropped hs.s; e = drop_generated-IsDropped hs.e })
  finish-IsWiped (err x) h dst out e hs hs' p = cc
  finish-IsWiped panic h dst out e hs hs' p = cc

  split_on-IsWiped :
      (o : Option (SymmetricState Aead)) (dst out : Bytes) (e : Option Error) (hs hs' : State pr)
      → split_on pr o dst hs ≡ (ok (out, e), hs')
      → IsWiped hs'
  unfolding reset
  split_on-IsWiped none dst out e hs hs' p = cc
  split_on-IsWiped (some ss) dst out e hs hs' p =
      finish-IsWiped (split pr.cipher pr.hash ss) (Ss.get_handshake_hash ss) dst out e hs hs' p

  on_done-IsWiped :
      (dst out : Bytes) (x : Error) (hs hs' : State pr)
      → on_done pr dst hs ≡ (ok (out, some x), hs')
      → IsWiped hs'
  unfolding on_done
  on_done-IsWiped dst out x hs hs' p =
      go (ltb (hs.pattern_index + 1) (length pr.pattern_of.messages)) p
    where
      next : State pr
      next = record hs { pattern_index = hs.pattern_index + 1 }

      go :
          (more : Bool)
          → (if more then (ok (dst, none), next) else split_on pr next.ss dst next)
            ≡ (ok (out, some x), hs')
          → IsWiped hs'
      go true q = cc
      go false q = split_on-IsWiped next.ss dst out (some x) next hs' q

  read_pattern-IsWiped :
      (o : Option Message) (dst message out : Bytes) (x : Error) (hs hs' : State pr)
      → read_pattern pr o dst message hs ≡ (ok (out, some x), hs')
      → IsWiped hs'
  read_pattern-IsWiped none dst message out x hs hs' p = cc
  read_pattern-IsWiped (some msg) dst message out x hs hs' p =
      let (rest, hs1, p1, q1) =
        bind_ok (read_tokens pr msg message) (λ rest. decrypt_call pr dst rest >>= on_done pr) hs
          hs' (out, some x) p in
      let (dst', hs2, p2, q2) =
        bind_ok (decrypt_call pr dst rest) (on_done pr) hs1 hs' (out, some x) q1 in
      on_done-IsWiped dst' out x hs2 hs' q2

  read_unless-IsWiped :
      (o : Option Error) (big turn : Bool) (m : Option Message) (dst message out : Bytes)
      (x : Error) (hs hs' : State pr)
      → (if big
          then fail message_size hs
          else if turn
          then fail out_of_order hs
          else read_pattern pr m dst message hs)
        ≡ (ok (out, some x), hs')
      → IsWiped hs'
  read_unless-IsWiped o true turn m dst message out x hs hs' p = cc
  read_unless-IsWiped o false true m dst message out x hs hs' p = cc
  read_unless-IsWiped o false false m dst message out x hs hs' p =
      read_pattern-IsWiped m dst message out x hs hs' p

  -- If WriteMessage or ReadMessage returns ErrDone, then no secret of the handshake is left in the
  -- state: it has no SymmetricState, and each keypair that it still holds is either the
  -- configuration's own or one whose private key DropPrivate has taken.
  pub done-IsWiped :
      (dst b out : Bytes) (hs hs' : State pr)
      → (write_message pr dst b hs ≡ (ok (out, some done), hs'))
        ⊎ (read_message pr dst b hs ≡ (ok (out, some done), hs'))
      → IsWiped hs'
  unfolding read_message
  done-IsWiped dst b out hs hs' (inl p) =
      let wr = write_message-Written pr dst b out (some done) hs hs' p in
      on_done-IsWiped wr.out2 out done wr.w2 hs' wr.finished
  done-IsWiped dst b out hs hs' (inr p) = go hs.status.error p
    where
      go : (o : Option Error) → read_unless pr o dst b hs ≡ (ok (out, some done), hs') → IsWiped hs'
      go (some x) p = cc
      go none p =
          read_unless-IsWiped none (oversized hs.max_message_size (length b))
            (not (same hs.cfg.is_initiator (not (is_even hs.pattern_index))))
            (get_elem? pr.pattern_of.messages hs.pattern_index) dst b out done hs hs' p
