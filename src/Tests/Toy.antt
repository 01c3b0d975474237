-- ===== src/Tests/Toy.antt =====
-- Primitives of no security that keep the laws: an AEAD that puts a byte in front, a hash that
-- counts, and a DH function on numbers that adds them.
use nyquist.Base.{
  ℕ, ◌+◌, ◌≡◌, Option, none, some, [], ◌∷◌, Bytes, Result, ok, err, length, replicate, refl, arith,
  length-replicate, ap,
}
use nyquist.Crypto.{external, Error, Cipher, CipherLaws, Hash, HashLaws, Dh, DhLaws}

abbrev toy_unseal : Bytes → Option Bytes
toy_unseal [] = none
toy_unseal (b ∷ bs) = some bs

abbrev pub toy_cipher : Cipher Bytes
toy_cipher = record {
  name = [];
  new = λ key. ok key;
  encode_nonce = λ n. n ∷ [];
  rekey = none;
  overhead = λ a. 1;
  seal = λ a nonce p ad. 7 ∷ p;
  unseal = λ a nonce c ad. toy_unseal c;
}

pub toy_cipher-CipherLaws : CipherLaws toy_cipher
toy_cipher-CipherLaws = record {
  unseal-seal = λ key a n p ad h. refl;
  length-seal = λ key a n p ad h. omega arith;
  new_total = λ key h. (key, refl);
}

abbrev pub toy_hash : Hash
toy_hash = record {
  name = [];
  size = 32;
  digest = λ b. replicate 32 (length b);
  expand = λ secret salt n. replicate n 5;
}

pub toy_hash-HashLaws : HashLaws toy_hash
toy_hash-HashLaws = record {
  length-digest = λ b. length-replicate 32 (length b);
  length-expand = λ secret salt n h. length-replicate n 5;
}

abbrev toy_parse : Bytes → Result Error ℕ
toy_parse (b ∷ []) = ok b
toy_parse _ = err (external 2)

abbrev toy_agree : ℕ → Option ℕ → Result Error Bytes
toy_agree a (some b) = ok ((a + b) ∷ [])
toy_agree a none = err (external 1)

abbrev pub toy_dh : Dh ℕ ℕ ℕ
toy_dh = record {
  name = [];
  size = 1;
  generate = λ rng. (ok rng, rng + 1);
  parse_private = toy_parse;
  parse_public = toy_parse;
  to_bytes = λ x. x ∷ [];
  public = λ x. x;
  agree = toy_agree;
  drop_private = λ x. 0;
}

pub toy_dh-DhLaws : DhLaws toy_dh
toy_dh-DhLaws = record {
  length-to_bytes = λ kp m. refl;
  parse-to_bytes = λ kp m. refl;
  agree_comm = λ a b ma mb. let e : a + b ≡ b + a = omega arith in ap (λ n. ok (n ∷ [])) e;
  agree_nil = λ a. (external 1, refl);
}
