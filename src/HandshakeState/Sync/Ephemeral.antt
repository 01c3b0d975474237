-- ===== src/HandshakeState/Sync/Ephemeral.antt =====
-- The token `e`, sent and received.
use nyquist.Base.{
  drop-append, Result, take-append, subst, length-append, sym, arith, ◌∙◌, ge→ltb, ap, refl, ◌≡◌,
  ◌++◌, ok, some, ok-injective, ◌≤◌, ltb, if◌then◌else◌, Bytes, take, drop, length,
}
use nyquist.Base.Exec.{◌>>◌, pure, bind_ok, bind_same}
use nyquist.Pattern.{token_e}
use nyquist.Crypto.{Made, Error, DhLaws, CipherLaws, HashLaws, truncated_e}
use nyquist.SymmetricState.{mix_hash}
use nyquist.SymmetricState.Invariant
use nyquist.HandshakeState.{Held, SymmetricState, Protocol}
use mathlib.Core.Path.{ap₂}
use nyquist.HandshakeState.Tokens.{
  fail, State, Do, mix_hash_call, mix_if_psk, ensure_e, observed, on_write_token_e, on_read_token_e,
  set_re, read_e,
}
use nyquist.HandshakeState.Messages.{read_token}
use nyquist.HandshakeState.Sync.{MadeHeld, SsIsWf, Accepts, Mirror}
use nyquist.HandshakeState.Sync.Calls.{call_same}
use nyquist.HandshakeState.Sync.Steps.{Frame, TokenStep, held-IsWf}
use nyquist.HandshakeState.Sync.Keys.{mix_hash_keeps, mix_if_same, ensured, observed-Accepts}

module _ {Aead Keypair PublicKey Rng : Type 0} (pr : Protocol Aead Keypair PublicKey Rng) where
  -- The writer's last step, which records the key and appends it.
  abbrev announced : Bytes → PublicKey → Do pr Bytes
  announced dst pk hs = (
    ok (dst ++ pr.dh.to_bytes pk),
    record hs { status = record hs.status { local_ephemeral = some pk } },
  )

  -- The reader's state with the key that it has parsed.
  abbrev received : PublicKey → State pr → State pr
  received pk r = record r { re = some pk; status = record r.status { remote_ephemeral = some pk } }

  -- The length test and the slices of onReadTokenE.
  read_e_slices :
      (b rest : Bytes) (r : State pr)
      → length b ≡ pr.dh.size
      → on_read_token_e pr (b ++ rest) r ≡ read_e pr b rest r
  unfolding on_read_token_e
  read_e_slices b rest r size =
      ap
        (λ t.
          (if t
              then fail truncated_e
              else read_e pr (take pr.dh.size (b ++ rest)) (drop pr.dh.size (b ++ rest)))
            r)
        (ge→ltb (length (b ++ rest)) pr.dh.size (omega (arith, length-append b rest, size)))
      ∙ ap₂ (λ x y. read_e pr x y r) (take-append pr.dh.size b rest size)
          (drop-append pr.dh.size b rest size)

module _ {Aead Keypair PublicKey Rng : Type 0} (pr : Protocol Aead Keypair PublicKey Rng)
    (claws : CipherLaws pr.cipher) (hlaws : HashLaws pr.hash) (dlaws : DhLaws pr.dh)
    (big : 32 ≤ pr.hash.size) where
  -- What is left of onReadTokenE when the payload is long enough.
  read_e_tail :
      (pk : PublicKey) (b rest : Bytes) (r r2 r3 : State pr)
      → pr.dh.parse_public b ≡ ok pk
      → Accepts pr r.cfg.observer
      → mix_hash_call pr b (received pr pk r) ≡ (ok tt, r2)
      → mix_if_psk pr b r2 ≡ (ok tt, r3)
      → read_e pr b rest r ≡ (ok rest, r3)
  read_e_tail pk b rest r r2 r3 parsed accepts hashed keyed =
      bind_same (set_re pr (pr.dh.parse_public b))
        (λ x. do
          observed pr r.cfg.observer token_e x
          mix_hash_call pr b
          mix_if_psk pr b
          pure rest)
        r (received pr pk r) pk (ap (λ x. set_re pr x r) parsed)
      ∙ bind_same (observed pr r.cfg.observer token_e pk)
          (λ _. do mix_hash_call pr b; mix_if_psk pr b; pure rest) (received pr pk r)
          (received pr pk r) tt
          (observed-Accepts pr claws hlaws dlaws big r.cfg.observer token_e pk (received pr pk r)
            accepts)
      ∙ bind_same (mix_hash_call pr b) (λ _. do mix_if_psk pr b; pure rest) (received pr pk r) r2 tt
          hashed
      ∙ bind_same (mix_if_psk pr b) (λ _. pure rest) r2 r3 tt keyed

  with_ss : SymmetricState Aead → State pr → State pr
  with_ss ss hs = record hs { ss = some ss }

  announce : PublicKey → State pr → State pr
  announce pk hs = record hs { status = record hs.status { local_ephemeral = some pk } }

  -- The two states once both parties have mixed the key.
  e_finish :
      (dst out : Bytes) (kp : Keypair) (held : Held Keypair) (rng : Rng) (ss' : SymmetricState Aead)
      (w w' r : State pr)
      → Mirror pr w r
      → MadeHeld pr (some held)
      → held.pair ≡ kp
      → Invariant.IsWf pr.cipher pr.hash ss'
      → w' ≡ announce (pr.dh.public kp) (record w { e = some held; rng = rng; ss = some ss' })
      → out ≡ dst ++ pr.dh.to_bytes (pr.dh.public kp)
      → ((rest : Bytes)
          → on_read_token_e pr (pr.dh.to_bytes (pr.dh.public kp) ++ rest) r
            ≡ (ok rest, with_ss ss' (received pr (pr.dh.public kp) r)))
      → TokenStep pr token_e dst out w w' r
  unfolding read_token with_ss announce
  e_finish dst out kp held rng ss' w w' r mir made paired wf writer appended reads =
      let r' = with_ss ss' (received pr (pr.dh.public kp) r) in
      record {
        sent = pr.dh.to_bytes (pr.dh.public kp);
        appended = appended;
        r' = r';
        reads = reads;
        mirror =
            subst (λ t. Mirror pr t r') (sym writer)
              (record {
                ss = refl;
                wf = wf;
                psk_index = mir.psk_index;
                psks = mir.psks;
                roles = mir.roles;
                w_re = mir.w_re;
                w_rs = mir.w_rs;
                r_re = ap pr.dh.public paired;
                r_rs = mir.r_rs;
                accepts = mir.accepts;
                w_e = made;
                w_s = mir.w_s;
                r_e = mir.r_e;
                r_s = mir.r_s;
              });
        writer_frame = subst (Frame pr w) (sym writer) (record {
          cfg = refl;
          error = refl;
          index = refl;
          max = refl;
          s = refl;
          re = λ x. x;
          rs = λ x. x;
        });
        reader_frame = record {
          cfg = refl;
          error = refl;
          index = refl;
          max = refl;
          s = refl;
          re = λ x p. cc;
          rs = λ x. x;
        };
        learned = λ p. cc;
      }

  pub e_step :
      (dst out : Bytes) (w w' r : State pr)
      → Mirror pr w r
      → on_write_token_e pr dst w ≡ (ok out, w')
      → TokenStep pr token_e dst out w w' r
  unfolding on_write_token_e read_token with_ss announce
  e_step dst out w w' r mir h =
      let after_key = λ (kp : Keypair). (do
        mix_hash_call pr (pr.dh.to_bytes (pr.dh.public kp))
        mix_if_psk pr (pr.dh.to_bytes (pr.dh.public kp))
        announced pr dst (pr.dh.public kp)) in
      let (kp, w1, p1, q1) = bind_ok (ensure_e pr w.e) after_key w w' out h in
      let pk = pr.dh.public kp in
      let b = pr.dh.to_bytes pk in
      let (held, rng, paired, w1_eq, made) =
        ensured pr claws hlaws dlaws big w.e kp w w1 refl mir.w_e p1 in
      let kp_made : Made pr.dh kp = subst (Made pr.dh) paired made in
      let (_, w2, p2, q2) =
        bind_ok (mix_hash_call pr b) (λ _. do mix_if_psk pr b; announced pr dst pk) w1 w' out q1 in
      let w1_ss : w1.ss ≡ w.ss = ap (λ (t : State pr). t.ss) w1_eq in
      let r1 = received pr pk r in
      let hashed =
        call_same pr (λ ss. ok (mix_hash pr.hash b ss)) w1 w2 r1
          (mix_hash_keeps pr claws hlaws dlaws big b) (mir.ss ∙ sym w1_ss) p2 in
      let (_, w3, p3, q3) = bind_ok (mix_if_psk pr b) (λ _. announced pr dst pk) w2 w' out q2 in
      let r2 = record r1 { ss = some hashed.ss' } in
      let w2_ss : w2.ss ≡ some hashed.ss' = ap (λ (t : State pr). t.ss) hashed.writer in
      let wf1 : Invariant.IsWf pr.cipher pr.hash hashed.ss =
        held-IsWf pr w1 hashed.ss hashed.held (subst (SsIsWf pr) (sym w1_ss) mir.wf) in
      let wf2 = hashed.wf wf1 in
      let keyed =
        mix_if_same pr claws hlaws dlaws big (ltb 0 pr.pattern_of.num_psks) b w2 w3 r2
          (subst (SsIsWf pr) (sym w2_ss) wf2) (sym w2_ss) p3 in
      let r3 = record r1 { ss = some keyed.ss' } in
      let wf3 =
        keyed.wf (held-IsWf pr w2 keyed.ss keyed.held (subst (SsIsWf pr) (sym w2_ss) wf2)) in
      e_finish dst out kp held rng keyed.ss' w w' r mir made paired wf3
        (ap (λ (t : Result Error Bytes × State pr). t.1) (sym q3)
          ∙ ap (announce pk) (
              keyed.writer
              ∙ ap (with_ss keyed.ss') (hashed.writer ∙ ap (with_ss hashed.ss') w1_eq)))
        (sym (ok-injective (ap (λ (t : Result Error Bytes × State pr). t.0) q3)))
        (λ rest.
          read_e_slices pr b rest r (dlaws.length-to_bytes kp kp_made)
          ∙ read_e_tail pk b rest r r2 r3 (dlaws.parse-to_bytes kp kp_made) mir.accepts
              hashed.reader keyed.reader)
