-- ===== src/HandshakeState/Messages.antt =====
-- handshakestate.go: WriteMessage, ReadMessage, and the end of a handshake.
use nyquist.Base.{
  ℕ, ◌+◌, ◌-◌, ◌%◌, Bool, true, false, not, ◌&&◌, Option, none, some, [], ◌∷◌, Bytes, Result, ok,
  err, panic, length, ltb, ◌==◌, if◌then◌else◌, get_elem?,
}
use nyquist.Base.Exec.{◌>>=◌, ◌>>◌, pure, crash}
use nyquist.Pattern.{
  Token, token_invalid, token_e, token_s, token_ee, token_es, token_se, token_ss, token_psk,
  Message,
}
use nyquist.Crypto.{Error, out_of_order, done, message_size, invalid_token}
use nyquist.CipherState.{CipherState}
use nyquist.SymmetricState.{SymmetricState, split}
use nyquist.SymmetricState as Ss
use nyquist.HandshakeState.{Protocol, Held}
use nyquist.HandshakeState.Tokens.{
  fail, State, Do, encrypt_call, decrypt_call, on_write_token_e, on_read_token_e, on_write_token_s,
  on_read_token_s, on_token_ee, on_token_es, on_token_se, on_token_ss, on_token_psk,
}

abbrev pub same : Bool → Bool → Bool
same true b = b
same false b = not b

abbrev pub is_even : ℕ → Bool
is_even n = n % 2 == 0

-- `hs.maxMessageSize > 0 && size > hs.maxMessageSize`
abbrev pub oversized : ℕ → ℕ → Bool
oversized max size = ltb 0 max && ltb max size

module _ {Aead Keypair PublicKey Rng : Type 0} (pr : Protocol Aead Keypair PublicKey Rng) where
  -- `DropPrivate` of a keypair that is not the configuration's.
  abbrev pub drop_generated : Option (Held Keypair) → Option (Held Keypair)
  drop_generated none = none
  drop_generated (some held) =
      if held.from_config
      then some held
      else some (record held { pair = pr.dh.drop_private held.pair })

  -- `Reset`. The SymmetricState that is dropped keeps its hash in `handshake_hash` only.
  unfoldable pub reset : State pr → State pr
  reset hs = record hs { ss = none; s = drop_generated hs.s; e = drop_generated hs.e }

  abbrev pub one_way : Bool → CipherState Aead → Option (CipherState Aead)
  one_way true cs2 = none
  one_way false cs2 = some cs2

  -- A panic of `Split`, or of its call on the nil pointer, when `ErrDone` is already set.
  abbrev pub split_panics : Do pr (Bytes × Option Error)
  split_panics hs = (panic, record hs { status = record hs.status { error = some done } })

  abbrev pub finish :
      Result Error (CipherState Aead × CipherState Aead)
      → Bytes
      → Bytes
      → Do pr (Bytes × Option Error)
  unfolding reset
  finish (ok (cs1, cs2)) h dst hs = (
    ok (dst, some done),
    reset (record hs {
      status = record hs.status {
        error = some done;
        cipher_states = some (cs1, one_way pr.pattern_of.is_one_way cs2);
        handshake_hash = some h;
      };
    }),
  )
  finish (err e) h dst hs = (err e, hs)
  finish panic h dst hs = split_panics hs

  abbrev pub split_on : Option (SymmetricState Aead) → Bytes → Do pr (Bytes × Option Error)
  unfolding reset
  split_on none dst = split_panics
  split_on (some ss) dst = finish (split pr.cipher pr.hash ss) (Ss.get_handshake_hash ss) dst

  -- `onDone`. What WriteMessage and ReadMessage return is a slice and an error that is nil or, beside
  -- the slice, `ErrDone`.
  unfoldable pub on_done : Bytes → Do pr (Bytes × Option Error)
  unfolding reset
  on_done dst hs =
      let hs' = record hs { pattern_index = hs.pattern_index + 1 } in
      if ltb hs'.pattern_index (length pr.pattern_of.messages)
      then (ok (dst, none), hs')
      else split_on hs'.ss dst hs'

  -- A handler that writes and reads nothing.
  abbrev pub quiet : Do pr (Unit {0}) → Bytes → Do pr Bytes
  quiet m b = do m; pure b

  -- One iteration of the loops of WriteMessage and ReadMessage.
  unfoldable pub write_token : Token → Bytes → Do pr Bytes
  write_token token_e dst = on_write_token_e pr dst
  write_token token_s dst = on_write_token_s pr dst
  write_token token_ee dst = quiet (on_token_ee pr) dst
  write_token token_es dst = quiet (on_token_es pr) dst
  write_token token_se dst = quiet (on_token_se pr) dst
  write_token token_ss dst = quiet (on_token_ss pr) dst
  write_token token_psk dst = quiet (on_token_psk pr) dst
  write_token (token_invalid n) dst = fail (invalid_token (token_invalid n))

  unfoldable pub read_token : Token → Bytes → Do pr Bytes
  read_token token_e payload = on_read_token_e pr payload
  read_token token_s payload = on_read_token_s pr payload
  read_token token_ee payload = quiet (on_token_ee pr) payload
  read_token token_es payload = quiet (on_token_es pr) payload
  read_token token_se payload = quiet (on_token_se pr) payload
  read_token token_ss payload = quiet (on_token_ss pr) payload
  read_token token_psk payload = quiet (on_token_psk pr) payload
  read_token (token_invalid n) payload = fail (invalid_token (token_invalid n))

  unfoldable pub write_tokens : Message → Bytes → Do pr Bytes
  write_tokens [] dst = pure dst
  write_tokens (v ∷ msg) dst = do dst' ← write_token v dst; write_tokens msg dst'

  unfoldable pub read_tokens : Message → Bytes → Do pr Bytes
  read_tokens [] payload = pure payload
  read_tokens (v ∷ msg) payload = do payload' ← read_token v payload; read_tokens msg payload'

  abbrev pub write_pattern : Option Message → Bytes → Bytes → Do pr (Bytes × Option Error)
  write_pattern none dst payload = crash
  write_pattern (some msg) dst payload = do
    out ← write_tokens msg dst
    dst' ← encrypt_call pr out payload
    λ hs.
        if oversized hs.max_message_size (length dst' - length dst)
        then fail message_size hs
        else on_done dst' hs

  abbrev pub write_unless : Option Error → Bytes → Bytes → Do pr (Bytes × Option Error)
  write_unless (some e) dst payload hs = (err e, hs)
  write_unless none dst payload hs =
      if not (same hs.cfg.is_initiator (is_even hs.pattern_index))
      then fail out_of_order hs
      else write_pattern (get_elem? pr.pattern_of.messages hs.pattern_index) dst payload hs

  -- `WriteMessage`
  unfoldable pub write_message : Bytes → Bytes → Do pr (Bytes × Option Error)
  write_message dst payload hs = write_unless hs.status.error dst payload hs

  abbrev pub read_pattern : Option Message → Bytes → Bytes → Do pr (Bytes × Option Error)
  read_pattern none dst payload = crash
  read_pattern (some msg) dst payload = do
    rest ← read_tokens msg payload
    dst' ← decrypt_call pr dst rest
    on_done dst'

  abbrev pub read_unless : Option Error → Bytes → Bytes → Do pr (Bytes × Option Error)
  read_unless (some e) dst payload hs = (err e, hs)
  read_unless none dst payload hs =
      if oversized hs.max_message_size (length payload)
      then fail message_size hs
      else if not (same hs.cfg.is_initiator (not (is_even hs.pattern_index)))
      then fail out_of_order hs
      else read_pattern (get_elem? pr.pattern_of.messages hs.pattern_index) dst payload hs

  -- `ReadMessage`
  unfoldable pub read_message : Bytes → Bytes → Do pr (Bytes × Option Error)
  read_message dst payload hs = read_unless hs.status.error dst payload hs
