-- ===== src/Pattern/Registered.antt =====
-- pattern/pattern.go: what `init` leaves in the registry.
use nyquist.Base.{◌≡◌, [], ok, refl, Result, split, strip_prefix, atoi}
use nyquist.Pattern.{PatternError}
use nyquist.Pattern.Validity.{
  check_pre_token, check_pre_message, check_pre_messages, check_redundant, is_possible, check_token,
  check_tokens, missing, check_end, check_message, check_messages, is_valid,
}
use nyquist.Pattern.Psk.{
  append_psk, place_psk, apply_index, apply_modifiers, make_psk, must_make_psk,
}
use nyquist.Pattern.Registry.{Registry, register, built_in, register_all, init}

abbrev or_empty : Result PatternError Registry → Registry
or_empty (ok reg) = reg
or_empty _ = []

-- The registry that `init` fills.
abbrev pub at_init : Registry
at_init = or_empty init

-- `init` makes every PSK variant and registers every pattern of its list; it does not panic.
pub init_ok : init ≡ ok at_init
unfolding init built_in register_all register check_pre_token check_pre_message check_pre_messages
    check_redundant is_possible check_token check_tokens missing check_end check_message
    check_messages is_valid append_psk place_psk apply_index apply_modifiers make_psk must_make_psk
    split strip_prefix atoi
init_ok = refl
