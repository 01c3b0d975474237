-- ===== src/HandshakeState/Sync/Static.antt =====
-- EncryptAndHash and DecryptAndHash of the two parties, and the token `s`.
use nyquist.Base.{
  subst, ap, arith, ◌∙◌, sym, Option, Result, ◌++◌, ℕ, ◌≡◌, panic, err, ok, some, none, [], refl,
  ok-injective, ◌+◌, ◌≤◌, ltb, if◌then◌else◌, Bytes, take, drop, length, take-append, drop-append,
  ge→ltb, length-append,
}
use mathlib.Core.Path.{ap₂}
use nyquist.Base.Exec.{◌>>=◌, ◌>>◌, pure, bind_same}
use nyquist.Pattern.{token_s}
use nyquist.Crypto.{Made, Error, truncated_s, DhLaws, CipherLaws, HashLaws}
use nyquist.CipherState.{overhead_of}
use nyquist.SymmetricState.{SymmetricState, encrypt_and_hash}
use nyquist.SymmetricState.Invariant
use nyquist.SymmetricState.RoundTrip.{decrypt-encrypt_and_hash}
use nyquist.HandshakeState.{Protocol, Held}
use nyquist.HandshakeState.Tokens.{
  State, fail, encrypt_call, decrypt_call, encrypt_on, decrypt_on, sealed, opened, observed,
  write_s, on_write_token_s, on_read_token_s, set_rs, read_s, key_overhead, cs_overhead,
}
use nyquist.HandshakeState.Messages.{read_token}
use nyquist.HandshakeState.Sync.{MadeHeld, Known, SsIsWf, Accepts, Mirror}
use nyquist.HandshakeState.Sync.Steps.{Frame, TokenStep}
use nyquist.HandshakeState.Sync.Keys.{observed-Accepts}

module _ {Aead Keypair PublicKey Rng : Type 0} (pr : Protocol Aead Keypair PublicKey Rng)
    (claws : CipherLaws pr.cipher) (hlaws : HashLaws pr.hash) (dlaws : DhLaws pr.dh)
    (big : 32 ≤ pr.hash.size) where
  -- A plaintext that the writer has sealed, as the reader with the same `hs.ss` opens it.
  pub record Passed (dst plaintext out : Bytes) (w w' r : State pr) : Type 0 where
    pub ciphertext : Bytes
    pub appended : out ≡ dst ++ ciphertext
    pub ss' : SymmetricState Aead
    pub wf : Invariant.IsWf pr.cipher pr.hash ss'
    pub writer : w' ≡ record w { ss = some ss' }
    pub opened :
        (dst' : Bytes)
        → decrypt_call pr dst' ciphertext r ≡ (ok (dst' ++ plaintext), record r { ss = some ss' })
    pub overhead : ℕ
    pub tag : key_overhead pr r.ss r ≡ (ok overhead, r)
    pub size : length ciphertext ≡ length plaintext + overhead

  sealed_Passed :
      (dst plaintext out : Bytes) (w w' r : State pr) (ss : SymmetricState Aead)
      → w.ss ≡ some ss
      → Invariant.IsWf pr.cipher pr.hash ss
      → r.ss ≡ some ss
      → (x : Result Error (Bytes × SymmetricState Aead))
      → encrypt_and_hash pr.cipher pr.hash dst plaintext ss ≡ x
      → sealed pr x w ≡ (ok out, w')
      → Passed dst plaintext out w w' r
  sealed_Passed dst plaintext out w w' r ss p wf same (ok (o, ss')) q h =
      let d = decrypt-encrypt_and_hash pr.cipher pr.hash claws hlaws dst plaintext o ss ss' wf q in
      record {
        ciphertext = d.ciphertext;
        appended =
            sym (ok-injective (ap (λ (t : Result Error Bytes × State pr). t.0) h)) ∙ d.appended;
        ss' = ss';
        wf = d.wf;
        writer = ap (λ (t : Result Error Bytes × State pr). t.1) (sym h);
        opened = λ dst'.
            ap (λ s. decrypt_on pr s dst' d.ciphertext r) same
            ∙ ap (λ t. opened pr t r) (d.decrypted dst');
        overhead = overhead_of pr.cipher d.cs.aead;
        tag = ap (λ s. key_overhead pr s r) same ∙ ap (λ c. cs_overhead pr c r) d.held;
        size = d.size;
      }
  sealed_Passed dst plaintext out w w' r ss p wf same (err e) q h = cc
  sealed_Passed dst plaintext out w w' r ss p wf same panic q h = cc

  pub encrypt_Passed :
      (dst plaintext out : Bytes) (w w' r : State pr)
      → Mirror pr w r
      → encrypt_call pr dst plaintext w ≡ (ok out, w')
      → Passed dst plaintext out w w' r
  encrypt_Passed dst plaintext out w w' r mir h = go w.ss refl mir.wf h
    where
      go :
          (o : Option (SymmetricState Aead))
          → w.ss ≡ o
          → SsIsWf pr o
          → encrypt_on pr o dst plaintext w ≡ (ok out, w')
          → Passed dst plaintext out w w' r
      go none p wf h = absurd wf
      go (some ss) p wf h = sealed_Passed dst plaintext out w w' r ss p wf (mir.ss ∙ p) _ refl h

  abbrev received : PublicKey → State pr → State pr
  received pk r = record r { rs = some pk; status = record r.status { remote_static = some pk } }

  -- onReadTokenS of a ciphertext and what follows it.
  read_s_ok :
      (c b rest : Bytes) (pk : PublicKey) (overhead : ℕ) (r : State pr) (ss' : SymmetricState Aead)
      → key_overhead pr r.ss r ≡ (ok overhead, r)
      → length c ≡ pr.dh.size + overhead
      → decrypt_call pr [] c r ≡ (ok b, record r { ss = some ss' })
      → pr.dh.parse_public b ≡ ok pk
      → Accepts pr r.cfg.observer
      → on_read_token_s pr (c ++ rest) r ≡ (ok rest, received pk (record r { ss = some ss' }))
  unfolding on_read_token_s
  read_s_ok c b rest pk overhead r ss' tag size dec parsed accepts =
      let n = pr.dh.size + overhead in
      let r1 = record r { ss = some ss' } in
      bind_same (key_overhead pr r.ss)
        (λ k.
          if ltb (length (c ++ rest)) (pr.dh.size + k)
          then fail truncated_s
          else read_s pr (take (pr.dh.size + k) (c ++ rest)) (drop (pr.dh.size + k) (c ++ rest)))
        r r overhead tag
      ∙ ap
          (λ t.
            (if t then fail truncated_s else read_s pr (take n (c ++ rest)) (drop n (c ++ rest))) r)
          (ge→ltb (length (c ++ rest)) n (omega (arith, length-append c rest, size)))
      ∙ ap₂ (λ x y. read_s pr x y r) (take-append n c rest size) (drop-append n c rest size)
      ∙ bind_same (decrypt_call pr [] c)
          (λ x. do
            pk ← set_rs pr (pr.dh.parse_public x)
            observed pr r.cfg.observer token_s pk
            pure rest)
          r r1 b dec
      ∙ bind_same (set_rs pr (pr.dh.parse_public b))
          (λ x. do observed pr r.cfg.observer token_s x; pure rest) r1 (received pk r1) pk
          (ap (λ x. set_rs pr x r1) parsed)
      ∙ bind_same (observed pr r.cfg.observer token_s pk) (λ _. pure rest) (received pk r1)
          (received pk r1) tt
          (observed-Accepts pr claws hlaws dlaws big r.cfg.observer token_s pk (received pk r1)
            accepts)

  pub s_step :
      (dst out : Bytes) (w w' r : State pr)
      → Mirror pr w r
      → on_write_token_s pr dst w ≡ (ok out, w')
      → TokenStep pr token_s dst out w w' r
  unfolding on_write_token_s read_token
  s_step dst out w w' r mir h = go w.s refl h
    where
      go :
          (o : Option (Held Keypair))
          → w.s ≡ o
          → write_s pr o dst w ≡ (ok out, w')
          → TokenStep pr token_s dst out w w' r
      go none p h = cc
      go (some held) p h =
          let kp = held.pair in
          let made : Made pr.dh kp = subst (MadeHeld pr) p mir.w_s in
          let pk = pr.dh.public kp in
          let b = pr.dh.to_bytes pk in
          let d = encrypt_Passed dst b out w w' r mir h in
          let r' = received pk (record r { ss = some d.ss' }) in
          record {
            sent = d.ciphertext;
            appended = d.appended;
            r' = r';
            reads = λ rest.
                read_s_ok d.ciphertext b rest pk d.overhead r d.ss' d.tag
                  (omega (arith, d.size, dlaws.length-to_bytes kp made)) (d.opened [])
                  (dlaws.parse-to_bytes kp made) mir.accepts;
            mirror =
                subst (λ t. Mirror pr t r') (sym d.writer)
                  (record {
                    ss = refl;
                    wf = d.wf;
                    psk_index = mir.psk_index;
                    psks = mir.psks;
                    roles = mir.roles;
                    w_re = mir.w_re;
                    w_rs = mir.w_rs;
                    r_re = mir.r_re;
                    r_rs = subst (Known pr (some pk)) (sym p) refl;
                    accepts = mir.accepts;
                    w_e = mir.w_e;
                    w_s = mir.w_s;
                    r_e = mir.r_e;
                    r_s = mir.r_s;
                  });
            writer_frame = subst (Frame pr w) (sym d.writer) (record {
              cfg = refl;
              error = refl;
              index = refl;
              max = refl;
              s = refl;
              re = λ x. x;
              rs = λ x. x;
            });
            reader_frame = record {
              cfg = refl;
              error = refl;
              index = refl;
              max = refl;
              s = refl;
              re = λ x. x;
              rs = λ x p. cc;
            };
            learned = λ p. cc;
          }
