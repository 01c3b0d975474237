-- ===== src/Pattern/Validity.antt =====
-- pattern/validity.go: the check of a pattern against the handshake pattern validity rules.
use nyquist.Base.{
  ℕ, suc, ◌+◌, ◌%◌, Bool, true, false, not, ◌&&◌, ◌||◌, Option, none, some, List, [], ◌∷◌, Result,
  ok, err, ◌>>=◌, ◌>>◌, length, ltb, ◌==◌, if◌then◌else◌,
}
use nyquist.Pattern.{
  Token, token_invalid, token_e, token_s, token_ee, token_es, token_se, token_ss, token_psk,
  token_eq, Message, Pattern, Side, initiator, responder, PatternError, excessive_pre_messages,
  no_messages, excessive_messages, no_dh, psk_mismatch, redundant_pre_message, redundant_public_key,
  missing_dh, invalid_pre_message, redundant_dh, invalid_message_token, impossible_dh,
  payload_without_ephemeral,
}

-- The two maps `initTokens` and `respTokens`, and the counters of the second loop.
pub record Seen : Type 0 where
  pub init_tokens : Token → Bool
  pub resp_tokens : Token → Bool
  pub num_dhs : ℕ
  pub num_psks : ℕ

abbrev pub nothing_seen : Seen
nothing_seen = record {
  init_tokens = λ _. false;
  resp_tokens = λ _. false;
  num_dhs = 0;
  num_psks = 0;
}

-- `m[v] = true`
abbrev pub insert : Token → (Token → Bool) → Token → Bool
insert v m t = token_eq v t || m t

-- `getSide`
abbrev pub get_side : ℕ → Side
get_side idx = if idx % 2 == 0 then initiator else responder

-- `m[t]` for the map `m` of a side
abbrev pub has : Side → Seen → Token → Bool
has initiator seen t = seen.init_tokens t
has responder seen t = seen.resp_tokens t

abbrev pub mark : Side → Token → Seen → Seen
mark initiator v seen = record seen { init_tokens = insert v seen.init_tokens }
mark responder v seen = record seen { resp_tokens = insert v seen.resp_tokens }

abbrev pub in_either : Seen → Token → Bool
in_either seen t = seen.init_tokens t || seen.resp_tokens t

abbrev pub in_both : Seen → Token → Bool
in_both seen t = seen.init_tokens t && seen.resp_tokens t

-- One token of a pre-message.
unfoldable pub check_pre_token : Side → Token → Seen → Result PatternError Seen
check_pre_token side token_e seen =
    if has side seen token_e
    then err (redundant_pre_message side token_e)
    else ok (mark side token_e seen)
check_pre_token side token_s seen =
    if has side seen token_s
    then err (redundant_pre_message side token_s)
    else ok (mark side token_s seen)
check_pre_token side v seen = err (invalid_pre_message v)

unfoldable pub check_pre_message : Side → Message → Seen → Result PatternError Seen
check_pre_message side [] seen = ok seen
check_pre_message side (v ∷ msg) seen = do
  seen' ← check_pre_token side v seen
  check_pre_message side msg seen'

unfoldable pub check_pre_messages : ℕ → List Message → Seen → Result PatternError Seen
check_pre_messages i [] seen = ok seen
check_pre_messages i (msg ∷ msgs) seen = do
  seen' ← check_pre_message (get_side i) msg seen
  check_pre_messages (suc i) msgs seen'

-- The first `switch` of the second loop: what a token repeats, and the counters.
unfoldable pub check_redundant : Side → Token → Seen → Result PatternError Seen
check_redundant side token_e seen =
    if has side seen token_e then err (redundant_public_key side token_e) else ok seen
check_redundant side token_s seen =
    if has side seen token_s then err (redundant_public_key side token_s) else ok seen
check_redundant side token_psk seen = ok (record seen { num_psks = seen.num_psks + 1 })
check_redundant side (token_invalid n) seen = err (invalid_message_token (token_invalid n))
check_redundant side v seen =
    if in_either seen v
    then err (redundant_dh v)
    else ok (record seen { num_dhs = seen.num_dhs + 1 })

-- The second `switch`: whether both parties have the keys of a DH calculation.
unfoldable pub is_possible : Token → Seen → Bool
is_possible token_ee seen = in_both seen token_e
is_possible token_ss seen = in_both seen token_s
is_possible token_es seen = not (not (seen.init_tokens token_e) || not (seen.resp_tokens token_s))
is_possible token_se seen = not (not (seen.init_tokens token_s) || not (seen.resp_tokens token_e))
is_possible v seen = true

unfoldable pub check_token : Side → Token → Seen → Result PatternError Seen
unfolding check_redundant is_possible
check_token side v seen = do
  seen' ← check_redundant side v seen
  if is_possible v seen' then ok (mark side v seen') else err (impossible_dh v)

unfoldable pub check_tokens : Side → Message → Seen → Result PatternError Seen
check_tokens side [] seen = ok seen
check_tokens side (v ∷ msg) seen = do seen' ← check_token side v seen; check_tokens side msg seen'

-- `missingDH` after a message: the later assignment wins.
abbrev pub later : Option Token → Option Token → Option Token
later first none = first
later first (some t) = some t

abbrev pub required : Seen → Token → Token → Option Token
required seen done needed =
    if in_either seen done && not (in_either seen needed) then some needed else none

unfoldable pub missing : Side → Seen → Option Token
missing initiator seen = later (required seen token_se token_ee) (required seen token_ss token_es)
missing responder seen = later (required seen token_es token_ee) (required seen token_ss token_se)

abbrev pub check_missing : Side → Option Token → Result PatternError (Unit {0})
check_missing side none = ok tt
check_missing side (some t) = err (missing_dh side t)

-- The checks at the end of a message.
unfoldable pub check_end : Side → Seen → Result PatternError (Unit {0})
unfolding missing
check_end side seen = do
  check_missing side (missing side seen)
  if in_either seen token_psk && not (has side seen token_e)
      then err (payload_without_ephemeral side)
      else ok tt

unfoldable pub check_message : Side → Message → Seen → Result PatternError Seen
unfolding check_tokens check_end
check_message side msg seen = do seen' ← check_tokens side msg seen; check_end side seen'; ok seen'

unfoldable pub check_messages : ℕ → List Message → Seen → Result PatternError Seen
unfolding check_message
check_messages i [] seen = ok seen
check_messages i (msg ∷ msgs) seen = do
  seen' ← check_message (get_side i) msg seen
  check_messages (suc i) msgs seen'

-- `IsValid`
unfoldable pub is_valid : Pattern → Result PatternError (Unit {0})
is_valid pa = do
  pre ←
      if ltb 2 (length pa.pre_messages)
      then err excessive_pre_messages
      else check_pre_messages 0 pa.pre_messages nothing_seen
  if length pa.messages == 0 then err no_messages else ok tt
  if pa.is_one_way && not (length pa.messages == 1) then err excessive_messages else ok tt
  seen ← check_messages 0 pa.messages pre
  if seen.num_dhs == 0 then err no_dh else ok tt
  if not (seen.num_psks == pa.num_psks) then err psk_mismatch else ok tt
