-- ===== src/Tests/Names.antt =====
-- The theorems on the names of protocols, for N with the toy cipher, hash and DH function.
use nyquist.Base.{
  length, ap, arith, ◌≡◌, List, [], ◌∷◌, Bytes, codes, ok, refl, split, ℕ, ◌≢◌, some,
}
use nyquist.Pattern.Validity.{
  is_valid, check_pre_messages, check_pre_message, check_pre_token, check_messages, check_token,
}
use nyquist.Pattern.OneWay.{n}
use nyquist.Pattern.Registry
use nyquist.Pattern.Registry.Lookup.{from_string-register}
use nyquist.Crypto.{Cipher, Hash, Dh}
use nyquist.HandshakeState.{Protocol}
use nyquist.HandshakeState.Start.{protocol_string}
use nyquist.Protocols.{Registries, new_protocol}
use nyquist.Protocols.Names.{IsNamed, protocol_string-new_protocol, new_protocol-protocol_string}
use nyquist.Tests.Toy.{toy_cipher, toy_hash, toy_dh}
use nyquist.Tests.Handshakes.{n_valid}
use nyquist.Pattern.Registry.{init}
use nyquist.Dh.{PublicKey, Keypair}
use nyquist.Dh.X448.{x448}
use nyquist.Protocols.Registration.{Call, apply_all, at_start, registered-IsNamed}
use nyquist.Tests.Keys.{toy_digests, toy_curves, toy_read_full, toy_aeads}

abbrev named_cipher : Cipher Bytes
named_cipher = record toy_cipher { name = codes "ChaChaPoly" }

abbrev named_hash : Hash
named_hash = record toy_hash { name = codes "SHA256" }

abbrev named_dh : Dh ℕ ℕ ℕ
named_dh = record toy_dh { name = codes "25519" }

abbrev few : Registries Bytes ℕ ℕ ℕ
few = record {
  patterns = (codes "N", n) ∷ [];
  dhs = (codes "25519", named_dh) ∷ [];
  ciphers = (codes "ChaChaPoly", named_cipher) ∷ [];
  hashes = (codes "SHA256", named_hash) ∷ [];
}

abbrev named : Protocol Bytes ℕ ℕ ℕ
named = record { pattern_of = n; dh = named_dh; cipher = named_cipher; hash = named_hash }

few-IsNamed : IsNamed few
few-IsNamed = record {
  patterns = (refl, n_valid, tt);
  dhs = (refl, tt, tt);
  ciphers = (refl, tt, tt);
  hashes = (refl, tt, tt);
}

found : new_protocol few (codes "Noise_N_25519_ChaChaPoly_SHA256") ≡ ok named
unfolding new_protocol split
found = refl

protocol_string-new_protocol_example :
    (protocol_string named ≡ codes "Noise_N_25519_ChaChaPoly_SHA256")
    × (is_valid named.pattern_of ≡ ok tt)
protocol_string-new_protocol_example =
    protocol_string-new_protocol few (codes "Noise_N_25519_ChaChaPoly_SHA256") named few-IsNamed
      found

new_protocol-protocol_string_example : new_protocol few (protocol_string named) ≡ ok named
new_protocol-protocol_string_example = new_protocol-protocol_string few named (record {
  patterns = refl;
  dhs = refl;
  ciphers = refl;
  hashes = refl;
  plain = (
    (refl, tt),
    (
      (refl, (refl, (refl, (refl, (refl, tt))))),
      (
        (refl, (refl, (refl, (refl, (refl, (refl, (refl, (refl, (refl, (refl, tt)))))))))),
        ((refl, (refl, (refl, (refl, (refl, (refl, tt)))))), tt),
      ),
    ),
  );
})

-- A call of each Register function.
abbrev some_calls : List (Call Bytes Keypair PublicKey ℕ)
some_calls =
    Call.pattern_call n
    ∷ Call.cipher_call named_cipher
    ∷ Call.hash_call named_hash
    ∷ Call.dh_call (x448 toy_curves toy_read_full)
    ∷ []

registered-IsNamed_example :
    (init ≡ ok (at_start toy_curves toy_read_full toy_aeads toy_digests).patterns)
    × IsNamed (apply_all some_calls (at_start toy_curves toy_read_full toy_aeads toy_digests))
registered-IsNamed_example =
    registered-IsNamed toy_curves toy_read_full toy_aeads toy_digests some_calls

n_registered : Registry.register n [] ≡ ok ((codes "N", n) ∷ [])
unfolding Registry.register is_valid check_pre_messages check_pre_message check_pre_token
    check_messages check_token
n_registered = refl

other_name : codes "KK" ≢ codes "N"
other_name p = omega (arith, ap (length {A = ℕ}) p)

from_string-register_example :
    (Registry.from_string (codes "N") ((codes "N", n) ∷ []) ≡ some n)
    × (Registry.from_string (codes "KK") ((codes "N", n) ∷ [])
        ≡ Registry.from_string (codes "KK") [])
from_string-register_example =
    from_string-register n (codes "KK") [] ((codes "N", n) ∷ []) other_name n_registered
