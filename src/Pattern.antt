-- ===== src/Pattern.antt =====
-- pattern/pattern.go: tokens, messages and the pattern interface. The registry and the tables of
-- built-in patterns are in the modules below.
pub mod Validity
pub mod Rules
pub mod Sizes
pub mod Psk
pub mod OneWay
pub mod Interactive
pub mod Deferred
pub mod Registry
pub mod Registered
use nyquist.Base.{
  ℕ, zero, suc, ◌+◌, Bool, true, false, List, [], ◌∷◌, ◌++◌, Bytes, codes, ◌==◌, if◌then◌else◌,
}
use Prim.Native.Nat.{◌/◌, ◌%◌}

-- `Token`, a uint8. Every value with no name of its own is a `token_invalid`; 0 is `Token_invalid`.
pub data Token : Type 0 where
  token_invalid : ℕ → Token
  token_e token_s token_ee token_es token_se token_ss token_psk : Token

-- The decimal digits of `n`, least significant last: `%d` of the number that a uint8 holds.
abbrev digit : ℕ → ℕ
digit n = b'0' + n % 10

decimal : ℕ → Bytes
decimal n =
    if n / 100 == 0
    then (if n / 10 == 0 then digit n ∷ [] else digit (n / 10) ∷ digit n ∷ [])
    else digit (n / 100) ∷ digit (n / 10) ∷ digit n ∷ []

-- `Token.String`
unfoldable pub to_string : Token → Bytes
unfolding decimal
to_string token_e = codes "e"
to_string token_s = codes "s"
to_string token_ee = codes "ee"
to_string token_es = codes "es"
to_string token_se = codes "se"
to_string token_ss = codes "ss"
to_string token_psk = codes "psk"
to_string (token_invalid n) = codes "[invalid token: " ++ (decimal n ++ codes "]")

-- Equality of tokens, as a map's keys are compared.
abbrev pub token_eq : Token → Token → Bool
token_eq (token_invalid m) (token_invalid n) = m == n
token_eq token_e token_e = true
token_eq token_s token_s = true
token_eq token_ee token_ee = true
token_eq token_es token_es = true
token_eq token_se token_se = true
token_eq token_ss token_ss = true
token_eq token_psk token_psk = true
token_eq _ _ = false

abbrev pub Message : Type 0
Message = List Token

-- The interface `Pattern`: the answers of its five methods. `builtIn` has them as its fields.
pub record Pattern : Type 0 where
  pub name : Bytes
  pub pre_messages : List Message
  pub messages : List Message
  pub num_psks : ℕ
  pub is_one_way : Bool

pub data Side : Type 0 where
  initiator responder : Side

-- What `IsValid`, `MakePSK` and `Register` refuse, one constructor for each message text.
pub data PatternError : Type 0 where
  excessive_pre_messages no_messages excessive_messages no_dh psk_mismatch : PatternError
  redundant_pre_message redundant_public_key missing_dh : Side → Token → PatternError
  invalid_pre_message redundant_dh invalid_message_token impossible_dh : Token → PatternError
  payload_without_ephemeral : Side → PatternError
  template_has_psks : PatternError
  non_psk_modifier bad_psk_index redundant_psk invalid_psk : Bytes → PatternError
