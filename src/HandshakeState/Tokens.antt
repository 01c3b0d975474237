-- ===== src/HandshakeState/Tokens.antt =====
-- handshakestate.go: the handlers of the tokens.
use nyquist.Base.{
  none, ℕ, ◌+◌, false, Option, some, [], Bytes, Result, ok, err, panic, take, drop, length, ltb,
  if◌then◌else◌, get_elem?, ◌++◌,
}
use nyquist.Base.Exec.{◌>>=◌, ◌>>◌, pure, crash}
use nyquist.Pattern.{Token, token_e, token_s}
use nyquist.Crypto.{Error, truncated_e, truncated_s, missing_s}
use nyquist.CipherState.{CipherState, overhead_of}
use nyquist.SymmetricState.{
  SymmetricState, mix_hash, mix_key, mix_key_and_hash, encrypt_and_hash, decrypt_and_hash,
}
use nyquist.HandshakeState.{Protocol, HandshakeState, Held, Method}

module _ {Aead Keypair PublicKey Rng : Type 0} where
  -- `hs.status.Err = e`, after which every caller returns.
  abbrev pub fail : {A : Type 0} → Error → Method Aead Keypair PublicKey Rng A
  fail e hs = (err e, record hs { status = record hs.status { error = some e } })

  -- The assignment of a result and `hs.status.Err`, and the return if that is an error.
  abbrev pub or_fail : {A : Type 0} → Result Error A → Method Aead Keypair PublicKey Rng A
  or_fail (ok a) = pure a
  or_fail (err e) = fail e
  or_fail panic = crash

  abbrev pub store_ss :
      Result Error (SymmetricState Aead) → Method Aead Keypair PublicKey Rng (Unit {0})
  store_ss (ok ss) hs = (ok tt, record hs { ss = some ss })
  store_ss (err e) hs = (err e, hs)
  store_ss panic hs = (panic, hs)

  -- A method call on `hs.ss`, which panics if that is nil.
  abbrev pub on_ss :
      (SymmetricState Aead → Result Error (SymmetricState Aead))
      → Option (SymmetricState Aead)
      → Method Aead Keypair PublicKey Rng (Unit {0})
  on_ss f none = crash
  on_ss f (some ss) = store_ss (f ss)

  abbrev pub call_ss :
      (SymmetricState Aead → Result Error (SymmetricState Aead))
      → Method Aead Keypair PublicKey Rng (Unit {0})
  call_ss f hs = on_ss f hs.ss hs

module _ {Aead Keypair PublicKey Rng : Type 0} (pr : Protocol Aead Keypair PublicKey Rng) where
  abbrev pub State : Type 0
  State = HandshakeState Aead Keypair PublicKey Rng

  abbrev pub Do : Type 0 → Type 0
  Do A = Method Aead Keypair PublicKey Rng A

  abbrev pub mix_hash_call : Bytes → Do (Unit {0})
  mix_hash_call b = call_ss (λ ss. ok (mix_hash pr.hash b ss))

  abbrev pub mix_key_call : Bytes → Do (Unit {0})
  mix_key_call b = call_ss (mix_key pr.cipher pr.hash b)

  abbrev pub sealed : Result Error (Bytes × SymmetricState Aead) → Do Bytes
  sealed (ok (out, ss)) hs = (ok out, record hs { ss = some ss })
  sealed (err e) hs = (err e, hs)
  sealed panic hs = (panic, hs)

  abbrev pub encrypt_on : Option (SymmetricState Aead) → Bytes → Bytes → Do Bytes
  encrypt_on none dst plaintext = crash
  encrypt_on (some ss) dst plaintext = sealed (encrypt_and_hash pr.cipher pr.hash dst plaintext ss)

  -- `hs.ss.EncryptAndHash(dst, plaintext)`
  abbrev pub encrypt_call : Bytes → Bytes → Do Bytes
  encrypt_call dst plaintext hs = encrypt_on hs.ss dst plaintext hs

  abbrev pub opened : Result Error Bytes × SymmetricState Aead → Do Bytes
  opened (r, ss) hs = or_fail r (record hs { ss = some ss })

  abbrev pub decrypt_on : Option (SymmetricState Aead) → Bytes → Bytes → Do Bytes
  decrypt_on none dst ciphertext = crash
  decrypt_on (some ss) dst ciphertext =
      opened (decrypt_and_hash pr.cipher pr.hash dst ciphertext ss)

  -- `hs.ss.DecryptAndHash(dst, ciphertext)`, with its error as the status.
  abbrev pub decrypt_call : Bytes → Bytes → Do Bytes
  decrypt_call dst ciphertext hs = decrypt_on hs.ss dst ciphertext hs

  -- `if NumPSKs() > 0 { MixKey }`
  abbrev pub mix_if_psk : Bytes → Do (Unit {0})
  mix_if_psk b = if ltb 0 pr.pattern_of.num_psks then mix_key_call b else pure tt

  abbrev pub generated : Result Error Keypair × Rng → Do Keypair
  generated (ok kp, rng) hs =
      (ok kp, record hs { e = some (record { pair = kp; from_config = false }); rng = rng })
  generated (err x, rng) hs = fail x (record hs { e = none; rng = rng })
  generated (panic, rng) hs = (panic, hs)

  -- `hs.e`, generated if it is nil.
  abbrev pub ensure_e : Option (Held Keypair) → Do Keypair
  ensure_e none hs = generated (pr.dh.generate hs.rng) hs
  ensure_e (some held) hs = (ok held.pair, hs)

  -- `onWriteTokenE`
  unfoldable pub on_write_token_e : Bytes → Do Bytes
  on_write_token_e dst hs =
      (do
        kp ← ensure_e hs.e
        let e_bytes = pr.dh.to_bytes (pr.dh.public kp)
        mix_hash_call e_bytes
        mix_if_psk e_bytes
        λ hs'. (
          ok (dst ++ e_bytes),
          record hs' { status = record hs'.status { local_ephemeral = some (pr.dh.public kp) } },
        ))
        hs

  abbrev pub observed :
      Option (Token → PublicKey → Option Error) → Token → PublicKey → Do (Unit {0})
  observed none t pk = pure tt
  observed (some f) t pk = elim (f t pk) [ none ↦ pure tt | some e ↦ fail e ]

  -- `hs.re, hs.status.Err = hs.dh.ParsePublicKey(eBytes)` and `hs.status.RemoteEphemeral = hs.re`
  abbrev pub set_re : Result Error PublicKey → Do PublicKey
  set_re (ok pk) hs =
      (ok pk, record hs { re = some pk; status = record hs.status { remote_ephemeral = some pk } })
  set_re (err x) hs = fail x (record hs { re = none })
  set_re panic hs = (panic, hs)

  abbrev pub read_e : Bytes → Bytes → Do Bytes
  read_e e_bytes tail hs =
      (do
        pk ← set_re (pr.dh.parse_public e_bytes)
        observed hs.cfg.observer token_e pk
        mix_hash_call e_bytes
        mix_if_psk e_bytes
        pure tail)
        hs

  -- `onReadTokenE`
  unfoldable pub on_read_token_e : Bytes → Do Bytes
  on_read_token_e payload =
      if ltb (length payload) pr.dh.size
      then fail truncated_e
      else read_e (take pr.dh.size payload) (drop pr.dh.size payload)

  abbrev pub write_s : Option (Held Keypair) → Bytes → Do Bytes
  write_s none dst = fail missing_s
  write_s (some held) dst = encrypt_call dst (pr.dh.to_bytes (pr.dh.public held.pair))

  -- `onWriteTokenS`
  unfoldable pub on_write_token_s : Bytes → Do Bytes
  on_write_token_s dst hs = write_s hs.s dst hs

  abbrev pub cs_overhead : Option (CipherState Aead) → Do ℕ
  cs_overhead none = crash
  cs_overhead (some cs) = pure (overhead_of pr.cipher cs.aead)

  -- What the tag adds to an encrypted key: nothing if `hs.ss.cs` has no key.
  abbrev pub key_overhead : Option (SymmetricState Aead) → Do ℕ
  key_overhead none = crash
  key_overhead (some ss) = cs_overhead ss.cs

  abbrev pub set_rs : Result Error PublicKey → Do PublicKey
  set_rs (ok pk) hs =
      (ok pk, record hs { rs = some pk; status = record hs.status { remote_static = some pk } })
  set_rs (err x) hs = fail x (record hs { rs = none })
  set_rs panic hs = (panic, hs)

  abbrev pub read_s : Bytes → Bytes → Do Bytes
  read_s temp tail hs =
      (do
        s_bytes ← decrypt_call [] temp
        pk ← set_rs (pr.dh.parse_public s_bytes)
        observed hs.cfg.observer token_s pk
        pure tail)
        hs

  -- `onReadTokenS`
  unfoldable pub on_read_token_s : Bytes → Do Bytes
  on_read_token_s payload hs =
      (do
        overhead ← key_overhead hs.ss
        let temp_len = pr.dh.size + overhead
        if ltb (length payload) temp_len
            then fail truncated_s
            else read_s (take temp_len payload) (drop temp_len payload))
        hs

  -- A DH calculation and the MixKey of its result. The method call on a nil keypair panics.
  abbrev pub mix_dh : Option (Held Keypair) → Option PublicKey → Do (Unit {0})
  mix_dh none pk = crash
  mix_dh (some held) pk = do shared ← or_fail (pr.dh.agree held.pair pk); mix_key_call shared

  -- `onTokenEE`
  unfoldable pub on_token_ee : Do (Unit {0})
  on_token_ee hs = mix_dh hs.e hs.re hs

  -- `onTokenES`
  unfoldable pub on_token_es : Do (Unit {0})
  on_token_es hs = if hs.cfg.is_initiator then mix_dh hs.e hs.rs hs else mix_dh hs.s hs.re hs

  -- `onTokenSE`
  unfoldable pub on_token_se : Do (Unit {0})
  on_token_se hs = if hs.cfg.is_initiator then mix_dh hs.s hs.re hs else mix_dh hs.e hs.rs hs

  -- `onTokenSS`
  unfoldable pub on_token_ss : Do (Unit {0})
  on_token_ss hs = mix_dh hs.s hs.rs hs

  abbrev pub mix_psk : Option Bytes → Do (Unit {0})
  mix_psk none = crash
  mix_psk (some psk) = do
    call_ss (mix_key_and_hash pr.cipher pr.hash psk)
    λ hs. (ok tt, record hs { psk_index = hs.psk_index + 1 })

  -- `onTokenPsk`
  unfoldable pub on_token_psk : Do (Unit {0})
  on_token_psk hs = mix_psk (get_elem? hs.cfg.pre_shared_keys hs.psk_index) hs
