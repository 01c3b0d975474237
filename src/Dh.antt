-- ===== src/Dh.antt =====
-- dh/dh.go: the DH functions 25519 and 448. The file has its code twice, once for 32 bytes and once
-- for 56; here it is written once, for either `Kind` of key. The scalar multiplications are those of
-- third-party packages, and so is what `io.ReadFull` takes from the source of entropy.
pub mod X448
pub mod Laws
pub mod Supplies
pub mod Registry
use nyquist.Base.{
  ℕ, ◌≡◌, Bool, true, false, Option, none, some, Bytes, codes, Result, ok, err, panic, length,
  replicate, ◌==◌, if◌then◌else◌,
}
use nyquist.Base.Exec.{Exec}
use nyquist.Crypto.{Error, Dh, malformed_private_key, malformed_public_key, mismatched_public_key}

-- The dynamic type of a key: `*Keypair25519` and `*PublicKey25519`, or those of 448.
pub data Kind : Type 0 where
  curve25519 curve448 : Kind

abbrev pub kind_eq : Kind → Kind → Bool
kind_eq curve25519 curve25519 = true
kind_eq curve448 curve448 = true
kind_eq _ _ = false

-- `String` and `Size`
abbrev pub name : Kind → Bytes
name curve25519 = codes "25519"
name curve448 = codes "448"

abbrev pub size : Kind → ℕ
size curve25519 = 32
size curve448 = 56

-- `PublicKey25519` and `PublicKey448`: the raw bytes.
pub record PublicKey : Type 0 where
  pub kind : Kind
  pub raw_public_key : Bytes

-- `Keypair25519` and `Keypair448`
pub record Keypair : Type 0 where
  pub kind : Kind
  pub raw_private_key : Bytes
  pub raw_public_key : Bytes

-- `ScalarBaseMult` and `ScalarMult` of x25519 and x448, of a scalar and a point.
pub record Curve : Type 0 where
  pub scalar_base_mult : Bytes → Bytes
  pub scalar_mult : Bytes → Bytes → Bytes

-- What `io.ReadFull` reads into a buffer of so many bytes.
abbrev pub ReadFull : Type 0 → Type 0
ReadFull Rng = ℕ → Rng → Result Error Bytes × Rng

-- `MarshalBinary`
unfoldable pub marshal_private : Keypair → Bytes
marshal_private kp = kp.raw_private_key

unfoldable pub marshal_public : PublicKey → Bytes
marshal_public pk = pk.raw_public_key

-- `Bytes`
unfoldable pub to_bytes : PublicKey → Bytes
to_bytes pk = pk.raw_public_key

-- `Public`
unfoldable pub public : Keypair → PublicKey
public kp = record { kind = kp.kind; raw_public_key = kp.raw_public_key }

-- `DropPrivate`
unfoldable pub drop_private : Keypair → Keypair
drop_private kp = record kp { raw_private_key = replicate (length kp.raw_private_key) 0 }

-- `UnmarshalBinary` of a public key
unfoldable pub unmarshal_public : Bytes → Exec Error PublicKey (Unit {0})
unmarshal_public b pk =
    if length b == size pk.kind
    then (ok tt, record pk { raw_public_key = b })
    else (err malformed_public_key, pk)

abbrev parsed : {A : Type 0} → Result Error (Unit {0}) × A → Result Error A
parsed (ok _, a) = ok a
parsed (err e, a) = err e
parsed (panic, a) = panic

-- `ParsePublicKey`
unfoldable pub parse_public : Kind → Bytes → Result Error PublicKey
unfolding unmarshal_public
parse_public kind b =
    parsed (unmarshal_public b (record { kind = kind; raw_public_key = replicate (size kind) 0 }))

module _ (curves : Kind → Curve) where
  -- `UnmarshalBinary` of a keypair
  unfoldable pub unmarshal_private : Bytes → Exec Error Keypair (Unit {0})
  unmarshal_private b kp =
      if length b == size kp.kind
      then (
        ok tt,
        record kp { raw_private_key = b; raw_public_key = (curves kp.kind).scalar_base_mult b },
      )
      else (err malformed_private_key, kp)

  -- `ParsePrivateKey`
  unfoldable pub parse_private : Kind → Bytes → Result Error Keypair
  unfolding unmarshal_private
  parse_private kind b = parsed (
      unmarshal_private b (record {
        kind = kind;
        raw_private_key = replicate (size kind) 0;
        raw_public_key = replicate (size kind) 0;
      }))

  -- `DH`. The type assertion fails on a key of the other kind, and on nil.
  unfoldable pub agree : Keypair → Option PublicKey → Result Error Bytes
  agree kp none = err mismatched_public_key
  agree kp (some pk) =
      if kind_eq kp.kind pk.kind
      then ok ((curves kp.kind).scalar_mult kp.raw_private_key pk.raw_public_key)
      else err mismatched_public_key

module _ {Rng : Type 0} (curves : Kind → Curve) (read_full : ReadFull Rng) where
  abbrev read_key : Kind → Result Error Bytes × Rng → Result Error Keypair × Rng
  read_key kind (ok b, rng) = (
    ok (record {
      kind = kind;
      raw_private_key = b;
      raw_public_key = (curves kind).scalar_base_mult b;
    }),
    rng,
  )
  read_key kind (err e, rng) = (err e, rng)
  read_key kind (panic, rng) = (panic, rng)

  -- `GenerateKeypair`
  unfoldable pub generate : Kind → Rng → Result Error Keypair × Rng
  generate kind rng = read_key kind (read_full (size kind) rng)

  -- The methods of the interface, for a kind.
  unfoldable pub functions : Kind → Dh Keypair PublicKey Rng
  unfolding generate parse_private parse_public
  functions kind = record {
    name = name kind;
    size = size kind;
    generate = generate kind;
    parse_private = parse_private curves kind;
    parse_public = parse_public kind;
    to_bytes = to_bytes;
    public = public;
    agree = agree curves;
    drop_private = drop_private;
  }

  -- `X25519`
  unfoldable pub x25519 : Dh Keypair PublicKey Rng
  unfolding functions
  x25519 = functions curve25519
