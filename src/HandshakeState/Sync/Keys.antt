-- ===== src/HandshakeState/Sync/Keys.antt =====
-- The tokens that send a public key, and the pre-shared keys.
use nyquist.Base.{
  panic, false, true, Result, Option, ◌∙◌, sym, ap, subst, ◌≡◌, err, ok, some, none, refl,
  ok-injective, get_elem?, ◌+◌, ◌≤◌, if◌then◌else◌, Bytes, Bool,
}
use nyquist.Base.Exec.{pure, bind_ok, bind_same}
use nyquist.Pattern.{Token}
use nyquist.Crypto.{Made, Error, DhLaws, CipherLaws, HashLaws}
use nyquist.SymmetricState.{SymmetricState, mix_key, mix_hash, mix_key_and_hash}
use nyquist.SymmetricState.Invariant
use nyquist.HandshakeState.{Protocol, Held}
use nyquist.HandshakeState.Tokens.{
  fail, State, Do, call_ss, mix_key_call, ensure_e, generated, observed, mix_psk, on_token_psk,
}
use nyquist.HandshakeState.Sync.{MadeHeld, SsIsWf, Accepts, Mirror}
use nyquist.HandshakeState.Sync.Calls.{SameStep, call_same, mix_key_keeps}
use nyquist.HandshakeState.Sync.Steps.{Frame, QuietStep, held-IsWf}

module _ {Aead Keypair PublicKey Rng : Type 0} (pr : Protocol Aead Keypair PublicKey Rng)
    (claws : CipherLaws pr.cipher) (hlaws : HashLaws pr.hash) (dlaws : DhLaws pr.dh)
    (big : 32 ≤ pr.hash.size) where
  mix_key_and_hash_keeps :
      (b : Bytes) (ss ss' : SymmetricState Aead)
      → mix_key_and_hash pr.cipher pr.hash b ss ≡ ok ss'
      → Invariant.IsWf pr.cipher pr.hash ss
      → Invariant.IsWf pr.cipher pr.hash ss'
  mix_key_and_hash_keeps b ss ss' h wf =
      let (ss1, made, wf1) =
        Invariant.mix_key_and_hash_total pr.cipher pr.hash claws hlaws big b ss wf in
      subst (Invariant.IsWf pr.cipher pr.hash) (ok-injective (sym made ∙ h)) wf1

  pub mix_hash_keeps :
      (b : Bytes) (ss ss' : SymmetricState Aead)
      → ◌≡◌ {A = Result Error (SymmetricState Aead)} (ok (mix_hash pr.hash b ss)) (ok ss')
      → Invariant.IsWf pr.cipher pr.hash ss
      → Invariant.IsWf pr.cipher pr.hash ss'
  mix_hash_keeps b ss ss' h wf =
      subst (Invariant.IsWf pr.cipher pr.hash) (ok-injective h)
        (Invariant.mix_hash-IsWf pr.cipher pr.hash claws hlaws big b ss wf)

  -- `psk`: both parties mix the same pre-shared key and count it.
  pub psk_step :
      (w w' r : State pr)
      → Mirror pr w r
      → on_token_psk pr w ≡ (ok tt, w')
      → QuietStep pr (on_token_psk pr) w w' r
  unfolding on_token_psk
  psk_step w w' r mir h = go (get_elem? w.cfg.pre_shared_keys w.psk_index) refl h
    where
      theirs :
          get_elem? r.cfg.pre_shared_keys r.psk_index ≡ get_elem? w.cfg.pre_shared_keys w.psk_index
      theirs =
          ap (λ l. get_elem? l r.psk_index) mir.psks
          ∙ ap (λ i. get_elem? w.cfg.pre_shared_keys i) mir.psk_index

      go :
          (o : Option Bytes)
          → get_elem? w.cfg.pre_shared_keys w.psk_index ≡ o
          → mix_psk pr o w ≡ (ok tt, w')
          → QuietStep pr (on_token_psk pr) w w' r
      go none p h = cc
      go (some psk) p h =
          let (_, w1, q1, q2) =
            bind_ok (call_ss (mix_key_and_hash pr.cipher pr.hash psk))
              (λ _ (hs : State pr). (ok tt, record hs { psk_index = hs.psk_index + 1 })) w w' tt
              h in
          let step =
            call_same pr (mix_key_and_hash pr.cipher pr.hash psk) w w1 r
              (mix_key_and_hash_keeps psk) mir.ss q1 in
          let r' = record r { ss = some step.ss'; psk_index = r.psk_index + 1 } in
          let writer : w' ≡ record w { ss = some step.ss'; psk_index = w.psk_index + 1 } =
            ap (λ (t : Result Error (Unit {0}) × State pr). t.1) (sym q2)
            ∙ ap (λ (t : State pr). record t { psk_index = t.psk_index + 1 }) step.writer in
          record {
            r' = r';
            reader =
                ap (λ o. mix_psk pr o r) (theirs ∙ p)
                ∙ bind_same (call_ss (mix_key_and_hash pr.cipher pr.hash psk))
                    (λ _ (hs : State pr). (ok tt, record hs { psk_index = hs.psk_index + 1 })) r
                    (record r { ss = some step.ss' }) tt step.reader;
            mirror =
                subst (λ t. Mirror pr t r') (sym writer)
                  (record {
                    ss = refl;
                    wf = step.wf (held-IsWf pr w step.ss step.held mir.wf);
                    psk_index = ap (λ n. n + 1) mir.psk_index;
                    psks = mir.psks;
                    roles = mir.roles;
                    w_re = mir.w_re;
                    w_rs = mir.w_rs;
                    r_re = mir.r_re;
                    r_rs = mir.r_rs;
                    accepts = mir.accepts;
                    w_e = mir.w_e;
                    w_s = mir.w_s;
                    r_e = mir.r_e;
                    r_s = mir.r_s;
                  });
            writer_frame = subst (Frame pr w) (sym writer) (record {
              cfg = refl;
              error = refl;
              index = refl;
              max = refl;
              s = refl;
              re = λ h. h;
              rs = λ h. h;
            });
            reader_frame = record {
              cfg = refl;
              error = refl;
              index = refl;
              max = refl;
              s = refl;
              re = λ h. h;
              rs = λ h. h;
            };
          }

  -- `mix_if_psk` in either case.
  pub mix_if_same :
      (psk : Bool) (b : Bytes) (w w' r : State pr)
      → SsIsWf pr w.ss
      → r.ss ≡ w.ss
      → (if psk then mix_key_call pr b else pure tt) w ≡ (ok tt, w')
      → SameStep pr w w' r (if psk then mix_key_call pr b else pure tt)
  mix_if_same true b w w' r wf same h =
      call_same pr (mix_key pr.cipher pr.hash b) w w' r (mix_key_keeps pr claws hlaws dlaws big b)
        same h
  mix_if_same false b w w' r wf same h = go w.ss refl wf
    where
      go :
          (o : Option (SymmetricState Aead)) → w.ss ≡ o → SsIsWf pr o → SameStep pr w w' r (pure tt)
      go none p q = absurd q
      go (some ss) p q = record {
        ss = ss;
        ss' = ss;
        held = p;
        writer =
            ap (λ (t : Result Error (Unit {0}) × State pr). t.1) (sym h)
            ∙ ap (λ o. record w { ss = o }) p;
        reader = ap (λ o. (ok tt, record r { ss = o })) (same ∙ p);
        wf = λ x. x;
      }

  -- `hs.e` before the writer sends it: the keypair that was there, or a new one.
  pub ensured :
      (o : Option (Held Keypair)) (kp : Keypair) (w w1 : State pr)
      → w.e ≡ o
      → MadeHeld pr o
      → ensure_e pr o w ≡ (ok kp, w1)
      → (held : Held Keypair) × (rng : Rng) × (held.pair ≡ kp)
        × (w1 ≡ record w { e = some held; rng = rng })
        × MadeHeld pr (some held)
  ensured (some held) kp w w1 p m h = (
    held,
    w.rng,
    ok-injective (ap (λ (t : Result Error Keypair × State pr). t.0) h),
    ap (λ (t : Result Error Keypair × State pr). t.1) (sym h) ∙ ap (λ o. record w { e = o }) p,
    m,
  )
  ensured none kp w w1 p m h = go (pr.dh.generate w.rng).0 (pr.dh.generate w.rng).1 refl h
    where
      go :
          (x : Result Error Keypair) (rng : Rng)
          → pr.dh.generate w.rng ≡ (x, rng)
          → generated pr (x, rng) w ≡ (ok kp, w1)
          → (held : Held Keypair) × (rng : Rng) × (held.pair ≡ kp)
            × (w1 ≡ record w { e = some held; rng = rng })
            × MadeHeld pr (some held)
      go (ok y) rng from h = (
        record { pair = y; from_config = false },
        rng,
        ok-injective (ap (λ (t : Result Error Keypair × State pr). t.0) h),
        ap (λ (t : Result Error Keypair × State pr). t.1) (sym h),
        Made.generated w.rng rng from,
      )
      go (err e) rng from h = cc
      go panic rng from h = cc

  pub observed-Accepts :
      (f : Option (Token → PublicKey → Option Error)) (t : Token) (pk : PublicKey) (r : State pr)
      → Accepts pr f
      → observed pr f t pk r ≡ (ok tt, r)
  observed-Accepts none t pk r a = refl
  observed-Accepts (some f) t pk r a =
      ap
        (λ (o : Option Error).
          (elim o as (λ _. Do pr (Unit {0})) [ none ↦ pure tt | some e ↦ fail e ]) r)
        (a t pk)
