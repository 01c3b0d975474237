-- ===== src/Pattern/Psk.antt =====
-- pattern/psk.go: `psk` modifiers.
pub mod Placed
pub mod Reads
use nyquist.Base.{
  ℕ, zero, suc, Bool, false, ◌||◌, Option, none, some, List, [], ◌∷◌, ◌++◌, Bytes, codes, ℤ, pos,
  negsuc, Result, ok, err, panic, ◌>>=◌, length, ltb, ◌==◌, if◌then◌else◌, split, strip_prefix,
  atoi,
}
use nyquist.Pattern.{
  token_psk, Message, Pattern, PatternError, template_has_psks, non_psk_modifier, bad_psk_index,
  redundant_psk, invalid_psk,
}

-- The messages so far, and the keys of the map `indexes`.
pub record Applied : Type 0 where
  pub messages : List Message
  pub indexes : List ℕ

-- `indexes[i]`
abbrev pub contains : ℕ → List ℕ → Bool
contains i [] = false
contains i (j ∷ js) = i == j || contains i js

-- `pa.messages[idx] = append(pa.messages[idx], Token_psk)`; out of range is a panic.
unfoldable pub append_psk : ℕ → List Message → Result PatternError (List Message)
append_psk idx [] = panic
append_psk zero (msg ∷ msgs) = ok ((msg ++ token_psk ∷ []) ∷ msgs)
append_psk (suc idx) (msg ∷ msgs) = do msgs' ← append_psk idx msgs; ok (msg ∷ msgs')

-- The `switch pskIndex`.
unfoldable pub place_psk : ℕ → List Message → Result PatternError (List Message)
unfolding append_psk
place_psk zero [] = panic
place_psk zero (msg ∷ msgs) = ok ((token_psk ∷ msg) ∷ msgs)
place_psk (suc idx) msgs = append_psk idx msgs

-- A parsed index against the map and the number of messages. A negative one is never in the map.
unfoldable pub apply_index : ℕ → Bytes → Option ℤ → Applied → Result PatternError Applied
apply_index count v none applied = err (bad_psk_index v)
apply_index count v (some (negsuc i)) applied = err (invalid_psk v)
apply_index count v (some (pos i)) applied =
    if contains i applied.indexes
    then err (redundant_psk v)
    else if ltb count i
    then err (invalid_psk v)
    else do
      msgs ← place_psk i applied.messages
      ok (record { messages = msgs; indexes = i ∷ applied.indexes })

abbrev apply_suffix : ℕ → Bytes → Option Bytes → Applied → Result PatternError Applied
unfolding apply_index
apply_suffix count v none applied = err (non_psk_modifier v)
apply_suffix count v (some suffix) applied = apply_index count suffix (atoi suffix) applied

-- The loop over the split modifier.
unfoldable pub apply_modifiers : ℕ → List Bytes → Applied → Result PatternError Applied
unfolding apply_index
apply_modifiers count [] applied = ok applied
apply_modifiers count (v ∷ vs) applied = do
  applied' ← apply_suffix count v (strip_prefix (codes "psk") v) applied
  apply_modifiers count vs applied'

-- `MakePSK`
unfoldable pub make_psk : Pattern → Bytes → Result PatternError Pattern
make_psk template modifier = if ltb 0 template.num_psks then err template_has_psks else do
  applied ←
      apply_modifiers (length template.messages) (split b'+' modifier)
        (record { messages = template.messages; indexes = [] })
  ok (record {
    name = template.name ++ modifier;
    pre_messages = template.pre_messages;
    messages = applied.messages;
    num_psks = length applied.indexes;
    is_one_way = template.is_one_way;
  })

abbrev or_panic : Result PatternError Pattern → Result PatternError Pattern
or_panic (ok pa) = ok pa
or_panic (err e) = panic
or_panic panic = panic

-- `mustMakePSK`
unfoldable pub must_make_psk : Pattern → Bytes → Result PatternError Pattern
unfolding make_psk apply_modifiers place_psk split strip_prefix atoi
must_make_psk template modifier = or_panic (make_psk template modifier)
