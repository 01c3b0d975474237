-- ===== src/HandshakeState/Errors/Final.antt =====
-- The handlers of the tokens and the loops over them, and the errors that they store.
use nyquist.Base.{
  Bool, true, false, Option, none, some, [], ◌∷◌, Bytes, Result, ok, err, panic, refl,
  if◌then◌else◌, take, drop, length, ltb, get_elem?, ◌+◌, ◌++◌,
}
use nyquist.Base.Exec.{◌>>◌, pure}
use nyquist.Pattern.{
  Token, token_invalid, token_e, token_s, token_ee, token_es, token_se, token_ss, token_psk,
  Message,
}
use nyquist.Crypto.{Error, truncated_e, truncated_s}
use nyquist.CipherState.{CipherState}
use nyquist.SymmetricState.{SymmetricState}
use nyquist.HandshakeState.{Protocol, Held}
use nyquist.HandshakeState.Tokens.{
  State, Do, fail, mix_hash_call, decrypt_call, mix_if_psk, generated, ensure_e, observed, set_re,
  read_e, write_s, cs_overhead, key_overhead, set_rs, read_s, on_write_token_e, on_read_token_e,
  on_write_token_s, on_read_token_s, on_token_ee, on_token_es, on_token_se, on_token_ss,
  on_token_psk,
}
use nyquist.HandshakeState.Messages.{quiet, write_token, read_token, write_tokens, read_tokens}
use nyquist.HandshakeState.Errors.{
  ReportsAt, Always, Always-bind, mix_hash_call-Always, mix_if-Always, encrypt_call-Always,
  decrypt_call-Always, observed-Always, mix_dh-Always, mix_psk-Always,
}

module _ {Aead Keypair PublicKey Rng : Type 0} (pr : Protocol Aead Keypair PublicKey Rng) where
  mix_both-Always :
      {A : Type 0} (b : Bytes) (f : Do pr A)
      → Always pr f
      → Always pr (do mix_hash_call pr b; mix_if_psk pr b; f)
  mix_both-Always b f p =
      Always-bind pr (mix_hash_call pr b) (λ _. do mix_if_psk pr b; f) (mix_hash_call-Always pr b)
        (λ _.
          Always-bind pr (mix_if_psk pr b) (λ _. f)
            (mix_if-Always pr (ltb 0 pr.pattern_of.num_psks) b) (λ _. p))

  ensure_e-Always : (o : Option (Held Keypair)) → Always pr (ensure_e pr o)
  ensure_e-Always (some held) hs = tt
  ensure_e-Always none hs = go (pr.dh.generate hs.rng).0 (pr.dh.generate hs.rng).1
    where
      go : (r : Result Error Keypair) (rng : Rng) → ReportsAt pr (generated pr (r, rng) hs)
      go (ok kp) rng = tt
      go (err e) rng = refl
      go panic rng = tt

  -- The last step of onWriteTokenE.
  abbrev announce : Bytes → PublicKey → Do pr Bytes
  announce dst pk hs = (
    ok (dst ++ pr.dh.to_bytes pk),
    record hs { status = record hs.status { local_ephemeral = some pk } },
  )

  write_e-Always : (dst : Bytes) → Always pr (on_write_token_e pr dst)
  unfolding on_write_token_e
  write_e-Always dst hs =
      Always-bind pr (ensure_e pr hs.e) _ (ensure_e-Always hs.e)
        (λ kp.
          mix_both-Always (pr.dh.to_bytes (pr.dh.public kp)) (announce dst (pr.dh.public kp))
            (λ hs'. tt))
        hs

  set_re-Always : (r : Result Error PublicKey) → Always pr (set_re pr r)
  set_re-Always (ok pk) hs = tt
  set_re-Always (err e) hs = refl
  set_re-Always panic hs = tt

  set_rs-Always : (r : Result Error PublicKey) → Always pr (set_rs pr r)
  set_rs-Always (ok pk) hs = tt
  set_rs-Always (err e) hs = refl
  set_rs-Always panic hs = tt

  read_e-Always : (b tail : Bytes) → Always pr (read_e pr b tail)
  read_e-Always b tail hs =
      Always-bind pr (set_re pr (pr.dh.parse_public b)) _ (set_re-Always (pr.dh.parse_public b))
        (λ pk.
          Always-bind pr (observed pr hs.cfg.observer token_e pk) _
            (observed-Always pr hs.cfg.observer token_e pk)
            (λ _. mix_both-Always b (pure tail) (λ hs'. tt)))
        hs

  read_s-Always : (b tail : Bytes) → Always pr (read_s pr b tail)
  read_s-Always b tail hs =
      Always-bind pr (decrypt_call pr [] b) _ (decrypt_call-Always pr [] b)
        (λ x.
          Always-bind pr (set_rs pr (pr.dh.parse_public x)) _ (set_rs-Always (pr.dh.parse_public x))
            (λ pk.
              Always-bind pr (observed pr hs.cfg.observer token_s pk) (λ _. pure tail)
                (observed-Always pr hs.cfg.observer token_s pk) (λ _ hs'. tt)))
        hs

  pub if_fail-Always :
      {A : Type 0} (b : Bool) (e : Error) (m : Do pr A)
      → Always pr m
      → Always pr (if b then fail e else m)
  if_fail-Always true e m p = λ hs. refl
  if_fail-Always false e m p = p

  on_read_e-Always : (payload : Bytes) → Always pr (on_read_token_e pr payload)
  unfolding on_read_token_e
  on_read_e-Always payload =
      if_fail-Always (ltb (length payload) pr.dh.size) truncated_e _
        (read_e-Always (take pr.dh.size payload) (drop pr.dh.size payload))

  cs_overhead-Always : (c : Option (CipherState Aead)) → Always pr (cs_overhead pr c)
  cs_overhead-Always none hs = tt
  cs_overhead-Always (some cs) hs = tt

  key_overhead-Always : (o : Option (SymmetricState Aead)) → Always pr (key_overhead pr o)
  key_overhead-Always none = λ hs. tt
  key_overhead-Always (some ss) = cs_overhead-Always ss.cs

  on_read_s-Always : (payload : Bytes) → Always pr (on_read_token_s pr payload)
  unfolding on_read_token_s
  on_read_s-Always payload hs =
      Always-bind pr (key_overhead pr hs.ss) _ (key_overhead-Always hs.ss)
        (λ k.
          if_fail-Always (ltb (length payload) (pr.dh.size + k)) truncated_s _
            (read_s-Always (take (pr.dh.size + k) payload) (drop (pr.dh.size + k) payload)))
        hs

  write_s-Always : (o : Option (Held Keypair)) (dst : Bytes) → Always pr (write_s pr o dst)
  write_s-Always none dst = λ hs. refl
  write_s-Always (some held) dst = encrypt_call-Always pr dst _

  on_write_s-Always : (dst : Bytes) → Always pr (on_write_token_s pr dst)
  unfolding on_write_token_s
  on_write_s-Always dst hs = write_s-Always hs.s dst hs

  by_role-Always :
      {A : Type 0} (b : Bool) (m k : Do pr A)
      → Always pr m
      → Always pr k
      → (hs : State pr) → ReportsAt pr (if b then m hs else k hs)
  by_role-Always true m k p q hs = p hs
  by_role-Always false m k p q hs = q hs

  quiet-Always : (m : Do pr (Unit {0})) (b : Bytes) → Always pr m → Always pr (quiet pr m b)
  quiet-Always m b p = Always-bind pr m (λ _. pure b) p (λ _ hs. tt)

  ee-Always : Always pr (on_token_ee pr)
  unfolding on_token_ee
  ee-Always hs = mix_dh-Always pr hs.e hs.re hs

  ss-Always : Always pr (on_token_ss pr)
  unfolding on_token_ss
  ss-Always hs = mix_dh-Always pr hs.s hs.rs hs

  es-Always : Always pr (on_token_es pr)
  unfolding on_token_es
  es-Always hs =
      by_role-Always hs.cfg.is_initiator _ _ (mix_dh-Always pr hs.e hs.rs)
        (mix_dh-Always pr hs.s hs.re) hs

  se-Always : Always pr (on_token_se pr)
  unfolding on_token_se
  se-Always hs =
      by_role-Always hs.cfg.is_initiator _ _ (mix_dh-Always pr hs.s hs.re)
        (mix_dh-Always pr hs.e hs.rs) hs

  psk-Always : Always pr (on_token_psk pr)
  unfolding on_token_psk
  psk-Always hs = mix_psk-Always pr (get_elem? hs.cfg.pre_shared_keys hs.psk_index) hs

  write_token-Always : (v : Token) (dst : Bytes) → Always pr (write_token pr v dst)
  unfolding write_token
  write_token-Always token_e dst = write_e-Always dst
  write_token-Always token_s dst = on_write_s-Always dst
  write_token-Always token_ee dst = quiet-Always (on_token_ee pr) dst ee-Always
  write_token-Always token_es dst = quiet-Always (on_token_es pr) dst es-Always
  write_token-Always token_se dst = quiet-Always (on_token_se pr) dst se-Always
  write_token-Always token_ss dst = quiet-Always (on_token_ss pr) dst ss-Always
  write_token-Always token_psk dst = quiet-Always (on_token_psk pr) dst psk-Always
  write_token-Always (token_invalid n) dst = λ hs. refl

  read_token-Always : (v : Token) (payload : Bytes) → Always pr (read_token pr v payload)
  unfolding read_token
  read_token-Always token_e b = on_read_e-Always b
  read_token-Always token_s b = on_read_s-Always b
  read_token-Always token_ee b = quiet-Always (on_token_ee pr) b ee-Always
  read_token-Always token_es b = quiet-Always (on_token_es pr) b es-Always
  read_token-Always token_se b = quiet-Always (on_token_se pr) b se-Always
  read_token-Always token_ss b = quiet-Always (on_token_ss pr) b ss-Always
  read_token-Always token_psk b = quiet-Always (on_token_psk pr) b psk-Always
  read_token-Always (token_invalid n) b = λ hs. refl

  pub write_tokens-Always : (msg : Message) (dst : Bytes) → Always pr (write_tokens pr msg dst)
  unfolding write_tokens
  write_tokens-Always [] dst = λ hs. tt
  write_tokens-Always (v ∷ msg) dst =
      Always-bind pr (write_token pr v dst) _ (write_token-Always v dst) (write_tokens-Always msg)

  pub read_tokens-Always : (msg : Message) (b : Bytes) → Always pr (read_tokens pr msg b)
  unfolding read_tokens
  read_tokens-Always [] b = λ hs. tt
  read_tokens-Always (v ∷ msg) b =
      Always-bind pr (read_token pr v b) _ (read_token-Always v b) (read_tokens-Always msg)
