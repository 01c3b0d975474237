-- ===== src/HandshakeState/Errors.antt =====
-- The errors of WriteMessage and ReadMessage, and the status that they leave.
pub mod Final
pub mod Sticky
use nyquist.Base.{
  ◌≡◌, ◌≤◌, ℕ, Bool, true, false, not, Option, none, some, [], ◌∷◌, Bytes, Result, ok, err, panic,
  refl, sym, ap, ◌∙◌, subst, if◌then◌else◌, take, drop, length, ltb, get_elem?, ◌+◌, ◌-◌, ◌++◌,
}
use nyquist.Base.Exec.{◌>>=◌, ◌>>◌, pure, crash}
use nyquist.Pattern.{
  Token, token_invalid, token_e, token_s, token_ee, token_es, token_se, token_ss, token_psk,
  Message,
}
use nyquist.Crypto.{
  Error, done, truncated_e, truncated_s, out_of_order, message_size, missing_s, invalid_token,
}
use nyquist.CipherState.{CipherState}
use nyquist.SymmetricState.{
  SymmetricState, mix_hash, mix_key, mix_key_and_hash, encrypt_and_hash, decrypt_and_hash, split,
}
use nyquist.SymmetricState.Errorless.{
  Errorless, mix_key-Errorless, mix_key_and_hash-Errorless, encrypt_and_hash-Errorless,
  split-Errorless,
}
use nyquist.SymmetricState as Ss
use nyquist.HandshakeState.{Protocol, Held, HandshakeState, Method}
use nyquist.HandshakeState.Tokens.{
  State, Do, fail, or_fail, on_ss, call_ss, store_ss, mix_hash_call, mix_key_call, sealed,
  encrypt_on, encrypt_call, opened, decrypt_on, decrypt_call, mix_if_psk, generated, ensure_e,
  observed, set_re, read_e, write_s, cs_overhead, key_overhead, set_rs, read_s, mix_dh, mix_psk,
  on_write_token_e, on_read_token_e, on_write_token_s, on_read_token_s, on_token_ee, on_token_es,
  on_token_se, on_token_ss, on_token_psk,
}

module _ {Aead Keypair PublicKey Rng : Type 0} (pr : Protocol Aead Keypair PublicKey Rng) where
  -- If a method returned an error, that is the status.
  abbrev pub ReportsAt : {A : Type 0} → Result Error A × State pr → Type 0
  ReportsAt (ok a, hs) = Unit
  ReportsAt (err e, hs) = hs.status.error ≡ some e
  ReportsAt (panic, hs) = Unit

  -- A method that always does so.
  abbrev pub Always : {A : Type 0} → Do pr A → Type 0
  Always m = (hs : State pr) → ReportsAt (m hs)

  pub Always-bind :
      {A B : Type 0} (m : Do pr A) (f : A → Do pr B)
      → Always m
      → ((a : A) → Always (f a))
      → Always (m >>= f)
  Always-bind {A} {B} m f p q hs = go (m hs).0 (m hs).1 (p hs)
    where
      go :
          (r : Result Error A) (hs' : State pr)
          → ReportsAt (r, hs')
          → ReportsAt {A = B}
              (elim r [ ok a ↦ f a hs' | err e ↦ (err e, hs') | panic ↦ (panic, hs') ])
      go (ok a) hs' s = q a hs'
      go (err e) hs' s = s
      go panic hs' s = tt

  pub or_fail-Always : {A : Type 0} (r : Result Error A) → Always (or_fail r)
  or_fail-Always (ok a) hs = tt
  or_fail-Always (err e) hs = refl
  or_fail-Always panic hs = tt

  pub call_ss-Always :
      (f : SymmetricState Aead → Result Error (SymmetricState Aead))
      → ((ss : SymmetricState Aead) → Errorless (f ss))
      → Always (call_ss f)
  call_ss-Always f none_of hs = held hs.ss
    where
      stored : (r : Result Error (SymmetricState Aead)) → Errorless r → ReportsAt (store_ss r hs)
      stored (ok ss) p = tt
      stored (err e) p = absurd p
      stored panic p = tt

      held : (o : Option (SymmetricState Aead)) → ReportsAt (on_ss f o hs)
      held none = tt
      held (some ss) = stored (f ss) (none_of ss)

  pub mix_hash_call-Always : (b : Bytes) → Always (mix_hash_call pr b)
  mix_hash_call-Always b = call_ss-Always (λ ss. ok (mix_hash pr.hash b ss)) (λ ss. tt)

  pub mix_key_call-Always : (b : Bytes) → Always (mix_key_call pr b)
  mix_key_call-Always b =
      call_ss-Always (mix_key pr.cipher pr.hash b) (mix_key-Errorless pr.cipher pr.hash b)

  pub mix_if-Always : (psk : Bool) (b : Bytes) → Always (if psk then mix_key_call pr b else pure tt)
  mix_if-Always true b = mix_key_call-Always b
  mix_if-Always false b = λ hs. tt

  pub encrypt_call-Always : (dst plaintext : Bytes) → Always (encrypt_call pr dst plaintext)
  encrypt_call-Always dst plaintext hs = held hs.ss
    where
      done_with :
          (r : Result Error (Bytes × SymmetricState Aead))
          → Errorless r
          → ReportsAt (sealed pr r hs)
      done_with (ok (out, ss)) p = tt
      done_with (err e) p = absurd p
      done_with panic p = tt

      held : (o : Option (SymmetricState Aead)) → ReportsAt (encrypt_on pr o dst plaintext hs)
      held none = tt
      held (some ss) =
          done_with (encrypt_and_hash pr.cipher pr.hash dst plaintext ss)
            (encrypt_and_hash-Errorless pr.cipher pr.hash dst plaintext ss)

  pub decrypt_call-Always : (dst ciphertext : Bytes) → Always (decrypt_call pr dst ciphertext)
  decrypt_call-Always dst ciphertext hs = held hs.ss
    where
      held : (o : Option (SymmetricState Aead)) → ReportsAt (decrypt_on pr o dst ciphertext hs)
      held none = tt
      held (some ss) =
          let t = decrypt_and_hash pr.cipher pr.hash dst ciphertext ss in
          or_fail-Always t.0 (record hs { ss = some t.1 })

  pub observed-Always :
      (f : Option (Token → PublicKey → Option Error)) (t : Token) (pk : PublicKey)
      → Always (observed pr f t pk)
  observed-Always none t pk hs = tt
  observed-Always (some f) t pk hs = go (f t pk)
    where
      go :
          (o : Option Error)
          → ReportsAt ((elim o as (λ _. Do pr (Unit {0})) [ none ↦ pure tt | some e ↦ fail e ]) hs)
      go none = tt
      go (some e) = refl

  pub mix_dh-Always :
      (kp : Option (Held Keypair)) (pk : Option PublicKey) → Always (mix_dh pr kp pk)
  mix_dh-Always none pk = λ hs. tt
  mix_dh-Always (some held) pk =
      Always-bind (or_fail (pr.dh.agree held.pair pk)) (λ shared. mix_key_call pr shared)
        (or_fail-Always (pr.dh.agree held.pair pk)) mix_key_call-Always

  pub mix_psk-Always : (o : Option Bytes) → Always (mix_psk pr o)
  mix_psk-Always none = λ hs. tt
  mix_psk-Always (some psk) =
      Always-bind (call_ss (mix_key_and_hash pr.cipher pr.hash psk))
        (λ _ hs. (ok tt, record hs { psk_index = hs.psk_index + 1 }))
        (call_ss-Always (mix_key_and_hash pr.cipher pr.hash psk)
          (mix_key_and_hash-Errorless pr.cipher pr.hash psk))
        (λ _ hs. tt)
