-- ===== src/HandshakeState/Sync/Turns.antt =====
-- The order of the calls: WriteMessage and ReadMessage out of turn.
use nyquist.Base.{
  ◌≡◌, Bool, true, not, none, some, Bytes, err, sym, ap, ◌∙◌, arith, length, get_elem?,
  if◌then◌else◌,
}
use nyquist.Crypto.{Error, message_size, out_of_order}
use nyquist.HandshakeState.{Protocol}
use nyquist.HandshakeState.Tokens.{State, fail}
use nyquist.HandshakeState.Messages.{
  write_message, read_message, write_unless, read_unless, write_pattern, read_pattern, oversized,
  is_even, same,
}
use nyquist.HandshakeState.Sync.Delivered.{even_side}
use nyquist.HandshakeState.Sync.Partners.{Partners}

module _ {Aead Keypair PublicKey Rng : Type 0} (pr : Protocol Aead Keypair PublicKey Rng) where
  abbrev pub stopped : Error → State pr → State pr
  stopped e hs = record hs { status = record hs.status { error = some e } }

  not-same : (a b : Bool) → a ≡ not b → not (same a b) ≡ true
  not-same a b p = ground arith

  same_other : (a b : Bool) → a ≡ b → not (same a (not b)) ≡ true
  same_other a b p = ground arith

  write_late :
      (dst payload : Bytes) (hs : State pr)
      → hs.status.error ≡ none
      → hs.cfg.is_initiator ≡ not (is_even hs.pattern_index)
      → write_message pr dst payload hs ≡ (err out_of_order, stopped out_of_order hs)
  unfolding write_message
  write_late dst payload hs fine role =
      ap (λ o. write_unless pr o dst payload hs) fine
      ∙ ap
          (λ b.
            if b
            then fail out_of_order hs
            else write_pattern pr (get_elem? pr.pattern_of.messages hs.pattern_index) dst payload
                hs)
          (not-same hs.cfg.is_initiator (is_even hs.pattern_index) role)

  read_early :
      (dst message : Bytes) (hs : State pr)
      → hs.status.error ≡ none
      → hs.cfg.is_initiator ≡ is_even hs.pattern_index
      → read_message pr dst message hs ≡ (
          if oversized hs.max_message_size (length message)
          then (err message_size, stopped message_size hs)
          else (err out_of_order, stopped out_of_order hs))
  unfolding read_message
  read_early dst message hs fine role =
      ap (λ o. read_unless pr o dst message hs) fine
      ∙ ap
          (λ b.
            if oversized hs.max_message_size (length message)
            then fail message_size hs
            else if b
            then fail out_of_order hs
            else read_pattern pr (get_elem? pr.pattern_of.messages hs.pattern_index) dst message hs)
          (same_other hs.cfg.is_initiator (is_even hs.pattern_index) role)

  -- Of two agreeing parties, the first one's turn being next: WriteMessage of the second one returns
  -- ErrOutOfOrder, and ReadMessage of the first one returns ErrMessageSize if the message is above
  -- the size limit and ErrOutOfOrder if not. The error is then the status, and nothing else changes.
  pub out_of_turn :
      (dst payload : Bytes) (w r : State pr)
      → Partners pr w r
      → (write_message pr dst payload r ≡ (err out_of_order, stopped out_of_order r))
        × (read_message pr dst payload w ≡ (
            if oversized w.max_message_size (length payload)
            then (err message_size, stopped message_size w)
            else (err out_of_order, stopped out_of_order w)))
  out_of_turn dst payload w r both =
      let turn : w.cfg.is_initiator ≡ is_even w.pattern_index =
        both.turn ∙ even_side pr w.pattern_index in
      (
        write_late dst payload r both.r_error
            (both.mirror.roles ∙ ap not turn ∙ ap (λ n. not (is_even n)) (sym both.index)),
        read_early dst payload w both.w_error turn,
      )
