-- ===== src/Tests/Ciphers.antt =====
-- The theorems on a CipherState and a SymmetricState, at concrete states.
use nyquist.Base.{
  List, ◌≡◌, ℕ, map, ◌≤◌, some, [], ◌∷◌, ◌++◌, Bytes, ok, err, replicate, refl, arith, true,
}
use nyquist.Crypto.{Cipher, invalid_key_size, truncate_to_32_bytes_max}
use nyquist.CipherState.{CipherState, has_key, encrypt_with_ad, rekey, new_cipher_state, zeroes}
use nyquist.CipherState.Invariant as Cs
use nyquist.CipherState.Invariant.{Call}
use nyquist.CipherState.RoundTrip.{Sends, Receives, Sends-Receives}
use nyquist.CipherState.Nonces.{Rising, sealed_all, sealed_all-Rising}
use nyquist.CipherState.Rekeying.{rekey_failure, generic_rekey}
use nyquist.SymmetricState.{SymmetricState, mix_key, split, encrypt_and_hash}
use nyquist.SymmetricState.Invariant as Ss
use nyquist.SymmetricState.RoundTrip.{Delivered, decrypt-encrypt_and_hash}
use nyquist.Tests.Toy.{toy_cipher, toy_cipher-CipherLaws, toy_hash, toy_hash-HashLaws}

abbrev test_key : Bytes
test_key = replicate 32 9

abbrev keyed_state : CipherState Bytes
keyed_state = record {
  aead = some test_key;
  k = some test_key;
  n = 3;
  max_message_size = 65535;
  aead_overhead = 1;
}

keyed_state-IsWf : Cs.IsWf toy_cipher keyed_state
keyed_state-IsWf = record { keyed = (refl, refl, refl); nonce = omega arith }

abbrev later_state : CipherState Bytes
later_state = record keyed_state { n = 4 }

encrypted :
    encrypt_with_ad toy_cipher [] (1 ∷ []) (8 ∷ 9 ∷ []) keyed_state
    ≡ (ok (7 ∷ 8 ∷ 9 ∷ []), later_state)
unfolding encrypt_with_ad
encrypted = refl

Sends-Receives_example :
    Receives toy_cipher keyed_state ((1 ∷ [], 8 ∷ 9 ∷ [], 7 ∷ 8 ∷ 9 ∷ []) ∷ []) later_state
Sends-Receives_example =
    Sends-Receives toy_cipher toy_cipher-CipherLaws keyed_state-IsWf
      (Sends.send (1 ∷ []) (8 ∷ 9 ∷ []) (7 ∷ 8 ∷ 9 ∷ []) encrypted (Sends.finished later_state))

abbrev test_calls : List (Call toy_cipher)
test_calls =
    Call.encrypt [] [] (8 ∷ [])
    ∷ Call.decrypt [] [] (7 ∷ 6 ∷ [])
    ∷ Call.new_key
    ∷ Call.encrypt [] [] (9 ∷ [])
    ∷ []

sealed_all-Rising_example :
    (ns : List ℕ) × (sealed_all toy_cipher test_calls keyed_state ≡ map toy_cipher.encode_nonce ns)
    × Rising 3 ns
sealed_all-Rising_example =
    sealed_all-Rising toy_cipher test_calls keyed_state keyed_state-IsWf (tt, (tt, (tt, (tt, tt))))

calls-IsWf_example :
    Cs.IsWf toy_cipher
      (Cs.apply_all toy_cipher (Call.initialize test_key ∷ test_calls) (new_cipher_state 65535))
calls-IsWf_example = Cs.calls-IsWf toy_cipher 65535 (Call.initialize test_key ∷ test_calls)

-- The toy cipher with a Rekey function of its own, which makes a new key of one byte or of 32.
abbrev short_cipher : Cipher Bytes
short_cipher = record toy_cipher { rekey = some (λ k. 1 ∷ []) }

abbrev fresh : Bytes
fresh = replicate 32 1

abbrev long_cipher : Cipher Bytes
long_cipher = record toy_cipher { rekey = some (λ k. fresh) }

keyed_rekey : (rekey short_cipher keyed_state).0 ≡ err invalid_key_size
unfolding rekey
keyed_rekey = refl

rekey_failure_example :
    encrypt_with_ad short_cipher [] [] (8 ∷ []) (rekey short_cipher keyed_state).1
    ≡ (ok ([] ++ (8 ∷ [])), (rekey short_cipher keyed_state).1)
rekey_failure_example =
    rekey_failure short_cipher keyed_state invalid_key_size [] [] (8 ∷ []) keyed_rekey

generic_rekey_example :
    let (r, cs') = rekey toy_cipher keyed_state in
    let key = truncate_to_32_bytes_max (7 ∷ zeroes) in
    (r ≡ ok tt)
    × (has_key cs' ≡ true)
    × (cs'.k ≡ some key)
    × (cs'.n ≡ 3)
    × (cs'.max_message_size ≡ 65535)
generic_rekey_example =
    generic_rekey toy_cipher toy_cipher-CipherLaws test_key keyed_state keyed_state-IsWf refl refl

abbrev test_ss : SymmetricState Bytes
test_ss = record { cs = some keyed_state; ck = replicate 32 1; h = replicate 32 2 }

test_ss-IsWf : Ss.IsWf toy_cipher toy_hash test_ss
test_ss-IsWf = record { cs = keyed_state-IsWf; ck = refl; h = refl }

long_enough : 32 ≤ 32
long_enough = omega arith

mix_key_total_example :
    (ss' : SymmetricState Bytes) × (mix_key toy_cipher toy_hash (4 ∷ []) test_ss ≡ ok ss')
    × Ss.IsWf toy_cipher toy_hash ss'
    × (ss'.h ≡ replicate 32 2)
mix_key_total_example =
    Ss.mix_key_total toy_cipher toy_hash toy_cipher-CipherLaws toy_hash-HashLaws long_enough
      (4 ∷ []) test_ss test_ss-IsWf

split_total_example :
    (c1 c2 : CipherState Bytes) × (split toy_cipher toy_hash test_ss ≡ ok (c1, c2))
    × (has_key c1 ≡ true)
    × (has_key c2 ≡ true)
    × (c1.n ≡ 0)
    × (c2.n ≡ 0)
    × Cs.IsWf toy_cipher c1
    × Cs.IsWf toy_cipher c2
split_total_example =
    Ss.split_total toy_cipher toy_hash toy_cipher-CipherLaws toy_hash-HashLaws long_enough test_ss
      test_ss-IsWf

abbrev mixed_ss : SymmetricState Bytes
mixed_ss = record { cs = some later_state; ck = replicate 32 1; h = replicate 32 34 }

hashed :
    encrypt_and_hash toy_cipher toy_hash (5 ∷ []) (8 ∷ []) test_ss ≡ ok (5 ∷ 7 ∷ 8 ∷ [], mixed_ss)
unfolding encrypt_and_hash encrypt_with_ad
hashed = refl

decrypt-encrypt_and_hash_example :
    Delivered toy_cipher toy_hash toy_cipher-CipherLaws toy_hash-HashLaws
      (5 ∷ [])
      (8 ∷ [])
      (5 ∷ 7 ∷ 8 ∷ [])
      test_ss
      mixed_ss
decrypt-encrypt_and_hash_example =
    decrypt-encrypt_and_hash toy_cipher toy_hash toy_cipher-CipherLaws toy_hash-HashLaws (5 ∷ [])
      (8 ∷ []) (5 ∷ 7 ∷ 8 ∷ []) test_ss mixed_ss test_ss-IsWf hashed
