-- ===== src/Vectors.antt =====
-- vectors/hexbuffer.go: byte slices as text in hexadecimal.
pub mod RoundTrip
pub mod Cases
use nyquist.Base.{
  ℕ, ◌+◌, ◌-◌, ◌*◌, ◌/◌, ◌%◌, Option, none, some, List, [], ◌∷◌, Bytes, Result, ok, err, panic, ltb,
  leb, ◌&&◌, if◌then◌else◌, is_some,
}
use nyquist.Base.Exec.{Exec}

-- encoding/hex's `InvalidByteError` and `ErrLength`
pub data HexError : Type 0 where
  invalid_byte : ℕ → HexError
  odd_length : HexError

-- `HexBuffer`, where `none` is the nil slice.
abbrev pub HexBuffer : Type 0
HexBuffer = Option Bytes

abbrev pub bytes_of : HexBuffer → Bytes
bytes_of none = []
bytes_of (some b) = b

-- `hex.EncodeToString`
abbrev pub hex_digit : ℕ → ℕ
hex_digit n = if ltb n 10 then b'0' + n else b'a' + (n - 10)

abbrev pub encode : Bytes → Bytes
encode [] = []
encode (b ∷ bs) = hex_digit (b / 16) ∷ hex_digit (b % 16) ∷ encode bs

-- `hex.DecodeString`: two digits at a time, and the first byte that is no digit is the error.
abbrev pub hex_value : ℕ → Option ℕ
hex_value c =
    if leb b'0' c && leb c b'9'
    then some (c - b'0')
    else if leb b'a' c && leb c b'f'
    then some (c - b'a' + 10)
    else if leb b'A' c && leb c b'F'
    then some (c - b'A' + 10)
    else none

abbrev pub prepend : ℕ → Result HexError Bytes → Result HexError Bytes
prepend b (ok bs) = ok (b ∷ bs)
prepend b (err e) = err e
prepend b panic = panic

abbrev pub pair : Option ℕ → Option ℕ → ℕ → ℕ → Result HexError Bytes → Result HexError Bytes
pair none low c d rest = err (invalid_byte c)
pair (some high) none c d rest = err (invalid_byte d)
pair (some high) (some low) c d rest = prepend (high * 16 + low) rest

abbrev pub decode : Bytes → Result HexError Bytes
decode [] = ok []
decode (c ∷ []) = if is_some (hex_value c) then err odd_length else err (invalid_byte c)
decode (c ∷ d ∷ s) = pair (hex_value c) (hex_value d) c d (decode s)

-- `MarshalText`
unfoldable pub marshal_text : HexBuffer → Bytes
marshal_text x = encode (bytes_of x)

-- `if len(b) == 0`
abbrev pub nil_if_empty : Bytes → HexBuffer
nil_if_empty [] = none
nil_if_empty (b ∷ bs) = some (b ∷ bs)

abbrev pub stored : Result HexError Bytes → Exec HexError HexBuffer (Unit {0})
stored (ok b) x = (ok tt, nil_if_empty b)
stored (err e) x = (err e, x)
stored panic x = (panic, x)

-- `UnmarshalText`
unfoldable pub unmarshal_text : Bytes → Exec HexError HexBuffer (Unit {0})
unmarshal_text text x = stored (decode text) x
