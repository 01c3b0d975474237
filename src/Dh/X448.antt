-- ===== src/Dh/X448.antt =====
-- dh/dh.go: its second half, the DH function 448, which is the code of the first half at 56 bytes.
use nyquist.Base.{ℕ, Bytes, Result}
use nyquist.Crypto.{Error, Dh}
use nyquist.Dh.{
  to_bytes, public, agree, drop_private, Kind, curve448, Curve, ReadFull, PublicKey, Keypair, name,
  size, parse_public, parse_private, generate,
}

abbrev pub name_448 : Bytes
name_448 = name curve448

abbrev pub size_448 : ℕ
size_448 = size curve448

module _ {Rng : Type 0} (curves : Kind → Curve) (read_full : ReadFull Rng) where
  unfoldable pub generate_448 : Rng → Result Error Keypair × Rng
  unfolding generate
  generate_448 = generate curves read_full curve448

  unfoldable pub parse_private_448 : Bytes → Result Error Keypair
  unfolding parse_private
  parse_private_448 = parse_private curves curve448

  unfoldable pub parse_public_448 : Bytes → Result Error PublicKey
  unfolding parse_public
  parse_public_448 = parse_public curve448

  -- `X448`
  unfoldable pub x448 : Dh Keypair PublicKey Rng
  unfolding generate_448 parse_private_448 parse_public_448
  x448 = record {
    name = name_448;
    size = size_448;
    generate = generate_448;
    parse_private = parse_private_448;
    parse_public = parse_public_448;
    to_bytes = to_bytes;
    public = public;
    agree = agree curves;
    drop_private = drop_private;
  }
