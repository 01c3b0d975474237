-- ===== src/Tests/Keys.antt =====
-- The theorems on keys and nonces, with a curve on which multiplication adds, a source of entropy
-- that repeats a byte, and AEADs that put a byte in front.
use nyquist.Base.{
  ℕ, ◌+◌, ◌≡◌, ◌≢◌, ◌⊎◌, Option, none, some, List, [], ◌∷◌, Bytes, ok, err, length, replicate, refl,
  arith, length-replicate, ap,
}
use nyquist.Hashes.{Digest, Digests}
use nyquist.Crypto.{Made, DhLaws, malformed_public_key, malformed_private_key}
use nyquist.Dh.{
  Kind, curve25519, curve448, Curve, ReadFull, Keypair, PublicKey, size, to_bytes, marshal_private,
  parse_public, parse_private, x25519, functions, generate,
}
use nyquist.Dh.X448.{x448}
use nyquist.Dh.Laws.{
  CurveLaws, Fills, parse_outcomes, parse-marshal_private, x25519_and_x448-DhLaws,
}
use nyquist.CipherState.{CipherState, maxnonce}
use nyquist.CipherState.Invariant.{IsWf, Call}
use nyquist.CipherState.Nonces.{sealed_all}
use nyquist.Ciphers.{Aeads, chacha_poly}
use nyquist.Ciphers.Nonces.{Standard, Distinct, Absent, sealed_all-Distinct}

abbrev sum : Bytes → ℕ
sum [] = 0
sum (b ∷ bs) = b + sum bs

abbrev pub toy_curves : Kind → Curve
toy_curves kind = record { scalar_base_mult = λ k. k; scalar_mult = λ j k. (sum j + sum k) ∷ [] }

abbrev pub toy_read_full : ReadFull ℕ
toy_read_full n rng = (ok (replicate n rng), rng + 1)

pub toy_read_full-Fills : Fills toy_read_full
toy_read_full-Fills n rng rng' b p = ground (arith, length-replicate n rng)

pub toy_curves-CurveLaws : (kind : Kind) (n : ℕ) → CurveLaws n (toy_curves kind)
toy_curves-CurveLaws kind n = record {
  length-base = λ k h. h;
  mult_comm =
      λ j k hj hk. let e : sum j + sum k ≡ sum k + sum j = omega arith in ap (λ (m : ℕ). m ∷ []) e;
}

x25519_and_x448-DhLaws_example :
    DhLaws (x25519 toy_curves toy_read_full) × DhLaws (x448 toy_curves toy_read_full)
x25519_and_x448-DhLaws_example =
    x25519_and_x448-DhLaws toy_curves toy_read_full toy_read_full-Fills
      (toy_curves-CurveLaws curve25519 32) (toy_curves-CurveLaws curve448 56)

-- The keypair that GenerateKeypair makes of bytes of 3.
abbrev pub threes : Keypair
threes = record {
  kind = curve25519;
  raw_private_key = replicate 32 3;
  raw_public_key = replicate 32 3;
}

pub threes-Made : Made (functions toy_curves toy_read_full curve25519) threes
unfolding functions generate
threes-Made = Made.generated 3 4 refl

parse-marshal_private_example :
    parse_private toy_curves curve25519 (marshal_private threes) ≡ ok threes
parse-marshal_private_example =
    parse-marshal_private toy_curves toy_read_full toy_read_full-Fills curve25519 threes threes-Made

abbrev ones : Bytes
ones = replicate 56 1

parse_outcomes_example :
    ((length (ones) ≡ size curve448)
      × (pk : PublicKey) × (parse_public curve448 (ones) ≡ ok pk)
      × (to_bytes pk ≡ ones)
      × (kp : Keypair) × (parse_private toy_curves curve448 (ones) ≡ ok kp)
      × (marshal_private kp ≡ ones))
    ⊎ ((length (ones) ≢ size curve448)
        × (parse_public curve448 (ones) ≡ err malformed_public_key)
        × (parse_private toy_curves curve448 (ones) ≡ err malformed_private_key))
parse_outcomes_example = parse_outcomes toy_curves curve448 (ones)

abbrev toy_unseal : Bytes → Option Bytes
toy_unseal [] = none
toy_unseal (b ∷ bs) = some bs

abbrev pub toy_aeads : Aeads Bytes Bytes
toy_aeads = record {
  chacha20poly1305 = ok;
  aes_block = ok;
  gcm = ok;
  deoxysii = ok;
  overhead = λ a. 1;
  seal = λ a nonce p ad. 7 ∷ p;
  unseal = λ a nonce c ad. toy_unseal c;
}

abbrev toy_digest : ℕ → Digest
toy_digest size = record { size = size; sum = λ b. replicate size (length b) }

abbrev pub toy_digests : Digests
toy_digests = record {
  sha256 = toy_digest 32;
  sha512 = toy_digest 64;
  blake2s = toy_digest 32;
  blake2b = toy_digest 64;
  hkdf = λ digest secret salt n. replicate n 5;
}

abbrev test_nonce : ℕ
test_nonce = 258

abbrev test_key : Bytes
test_key = replicate 32 1

abbrev keyed_state : CipherState Bytes
keyed_state = record {
  aead = some test_key;
  k = some test_key;
  n = 3;
  max_message_size = 65535;
  aead_overhead = 1;
}

keyed_state-IsWf : IsWf (chacha_poly toy_aeads) keyed_state
unfolding chacha_poly
keyed_state-IsWf = record { keyed = (refl, refl, refl); nonce = omega arith }

abbrev test_calls : List (Call (chacha_poly toy_aeads))
test_calls =
    Call.encrypt [] [] (8 ∷ []) ∷ Call.decrypt [] [] (6 ∷ []) ∷ Call.encrypt [] [] (9 ∷ []) ∷ []

sealed_all-Distinct_example :
    Distinct (sealed_all (chacha_poly toy_aeads) test_calls keyed_state)
    × Absent
        ((chacha_poly toy_aeads).encode_nonce maxnonce)
        (sealed_all (chacha_poly toy_aeads) test_calls keyed_state)
sealed_all-Distinct_example =
    sealed_all-Distinct toy_aeads (chacha_poly toy_aeads) (Standard.is_chacha_poly refl) test_calls
      keyed_state keyed_state-IsWf (tt, (tt, (tt, tt)))
