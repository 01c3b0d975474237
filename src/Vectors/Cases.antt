-- ===== src/Vectors/Cases.antt =====
-- vectors/vectors.go: the test vectors. Their JSON form is encoding/json's.
use nyquist.Base.{Bool, List, Bytes}
use nyquist.Vectors.{HexBuffer}

pub record Message : Type 0 where
  pub payload : HexBuffer
  pub ciphertext : HexBuffer

pub record Vector : Type 0 where
  pub name : Bytes
  pub protocol_name : Bytes
  pub fail : Bool
  pub fallback : Bool
  pub fallback_pattern : Bytes
  pub init_prologue : HexBuffer
  pub init_psks : List HexBuffer
  pub init_static : HexBuffer
  pub init_ephemeral : HexBuffer
  pub init_remote_static : HexBuffer
  pub resp_prologue : HexBuffer
  pub resp_psks : List HexBuffer
  pub resp_static : HexBuffer
  pub resp_ephemeral : HexBuffer
  pub resp_remote_static : HexBuffer
  pub handshake_hash : HexBuffer
  pub messages : List Message

pub record File : Type 0 where
  pub vectors : List Vector
