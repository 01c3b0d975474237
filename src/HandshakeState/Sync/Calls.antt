-- ===== src/HandshakeState/Sync/Calls.antt =====
-- The parts of the handlers, on the writer's side and on the reader's.
use nyquist.Base.{
  ◌≤◌, ◌≡◌, ◌≢◌, Option, none, some, Result, ok, err, panic, Bytes, refl, sym, ap, ◌∙◌, subst,
  ok-injective,
}
use nyquist.Base.Exec.{bind_ok, bind_same}
use nyquist.Crypto.{Error, DhLaws, CipherLaws, HashLaws}
use nyquist.SymmetricState.{SymmetricState, mix_key}
use nyquist.SymmetricState.Invariant
use nyquist.HandshakeState.{Protocol, Held}
use nyquist.HandshakeState.Tokens.{
  State, Do, call_ss, on_ss, store_ss, mix_key_call, mix_dh, or_fail,
}
use nyquist.HandshakeState.Sync.{MadeHeld, Known}

module _ {Aead Keypair PublicKey Rng : Type 0} (pr : Protocol Aead Keypair PublicKey Rng) where
  -- A call on `hs.ss` that succeeds changes only `hs.ss`, by what the call made of it.
  call_ss_ok :
      (f : SymmetricState Aead → Result Error (SymmetricState Aead)) (w w' : State pr)
      → call_ss f w ≡ (ok tt, w')
      → (ss ss' : SymmetricState Aead) × (w.ss ≡ some ss)
        × (f ss ≡ ok ss')
        × (w' ≡ record w { ss = some ss' })
  call_ss_ok f w w' h = go w.ss refl h
    where
      stored :
          (ss : SymmetricState Aead) (r : Result Error (SymmetricState Aead))
          → w.ss ≡ some ss
          → f ss ≡ r
          → store_ss r w ≡ (ok tt, w')
          → (ss ss' : SymmetricState Aead) × (w.ss ≡ some ss)
            × (f ss ≡ ok ss')
            × (w' ≡ record w { ss = some ss' })
      stored ss (ok ss') p q h =
          (ss, ss', p, q, ap (λ (t : Result Error (Unit {0}) × State pr). t.1) (sym h))
      stored ss (err e) p q h = cc
      stored ss panic p q h = cc

      go :
          (o : Option (SymmetricState Aead))
          → w.ss ≡ o
          → on_ss f o w ≡ (ok tt, w')
          → (ss ss' : SymmetricState Aead) × (w.ss ≡ some ss)
            × (f ss ≡ ok ss')
            × (w' ≡ record w { ss = some ss' })
      go none p h = cc
      go (some ss) p h = stored ss (f ss) p refl h

  -- The same call on a state with the same `hs.ss` does the same.
  call_ss_same :
      (f : SymmetricState Aead → Result Error (SymmetricState Aead)) (r : State pr)
      (ss ss' : SymmetricState Aead)
      → r.ss ≡ some ss
      → f ss ≡ ok ss'
      → call_ss f r ≡ (ok tt, record r { ss = some ss' })
  call_ss_same f r ss ss' p q = ap (λ o. on_ss f o r) p ∙ ap (λ x. store_ss x r) q

  or_fail_ok :
      {A : Type 0} (x : Result Error A) (a : A) (w w' : State pr)
      → or_fail x w ≡ (ok a, w')
      → (x ≡ ok a) × (w' ≡ w)
  or_fail_ok {A} (ok y) a w w' h = (
    ap (λ (t : Result Error A × State pr). t.0) h,
    ap (λ (t : Result Error A × State pr). t.1) (sym h),
  )
  or_fail_ok (err e) a w w' h = cc
  or_fail_ok panic a w w' h = cc

  -- What a part of a handler of the writer did to `hs.ss`, and that a part of the reader's did the same.
  pub record SameStep (w w' r : State pr) (m : Do pr (Unit {0})) : Type 0 where
    pub ss : SymmetricState Aead
    pub ss' : SymmetricState Aead
    pub held : w.ss ≡ some ss
    pub writer : w' ≡ record w { ss = some ss' }
    pub reader : m r ≡ (ok tt, record r { ss = some ss' })
    pub wf : Invariant.IsWf pr.cipher pr.hash ss → Invariant.IsWf pr.cipher pr.hash ss'

  pub call_same :
      (f : SymmetricState Aead → Result Error (SymmetricState Aead)) (w w' r : State pr)
      → ((ss ss' : SymmetricState Aead)
          → f ss ≡ ok ss'
          → Invariant.IsWf pr.cipher pr.hash ss
          → Invariant.IsWf pr.cipher pr.hash ss')
      → r.ss ≡ w.ss
      → call_ss f w ≡ (ok tt, w')
      → SameStep w w' r (call_ss f)
  call_same f w w' r keeps same h =
      let (ss, ss', held, did, w_eq) = call_ss_ok f w w' h in
      record {
        ss = ss;
        ss' = ss';
        held = held;
        writer = w_eq;
        reader = call_ss_same f r ss ss' (same ∙ held) did;
        wf = keeps ss ss' did;
      }

module _ {Aead Keypair PublicKey Rng : Type 0} (pr : Protocol Aead Keypair PublicKey Rng)
    (claws : CipherLaws pr.cipher) (hlaws : HashLaws pr.hash) (dlaws : DhLaws pr.dh)
    (big : 32 ≤ pr.hash.size) where
  pub mix_key_keeps :
      (b : Bytes) (ss ss' : SymmetricState Aead)
      → mix_key pr.cipher pr.hash b ss ≡ ok ss'
      → Invariant.IsWf pr.cipher pr.hash ss
      → Invariant.IsWf pr.cipher pr.hash ss'
  mix_key_keeps b ss ss' h wf =
      let (ss1, made, wf1, _) = Invariant.mix_key_total pr.cipher pr.hash claws hlaws big b ss wf in
      subst (Invariant.IsWf pr.cipher pr.hash) (ok-injective (sym made ∙ h)) wf1

  -- A DH calculation of the writer that succeeds, and the reader's own.
  pub mix_dh_same :
      (kp_w kp_r : Option (Held Keypair)) (pk_w pk_r : Option PublicKey) (w w' r : State pr)
      → MadeHeld pr kp_w
      → MadeHeld pr kp_r
      → Known pr pk_w kp_r
      → Known pr pk_r kp_w
      → pk_r ≢ none
      → r.ss ≡ w.ss
      → mix_dh pr kp_w pk_w w ≡ (ok tt, w')
      → SameStep pr w w' r (mix_dh pr kp_r pk_r)
  mix_dh_same none kp_r pk_w pk_r w w' r mw mr kw kr has same h = cc
  mix_dh_same (some a) kp_r pk_w none w w' r mw mr kw kr has same h = absurd (has refl)
  mix_dh_same (some a) kp_r none (some y) w w' r mw mr kw kr has same h =
      let (b, w1, p, q) = bind_ok (or_fail (pr.dh.agree a.pair none)) (mix_key_call pr) w w' tt h in
      cc ((or_fail_ok pr _ b w w1 p).0, (dlaws.agree_nil a.pair).1)
  mix_dh_same (some a) none (some x) (some y) w w' r mw mr kw kr has same h = absurd kw
  mix_dh_same (some a) (some b) (some x) (some y) w w' r mw mr kw kr has same h =
      let (shared, w1, p, q) =
        bind_ok (or_fail (pr.dh.agree a.pair (some x))) (mix_key_call pr) w w' tt h in
      let (agreed, still) = or_fail_ok pr _ shared w w1 p in
      let step =
        call_same pr (mix_key pr.cipher pr.hash shared) w w' r (mix_key_keeps shared) same
          (subst (λ t. mix_key_call pr shared t ≡ (ok tt, w')) still q) in
      let theirs : pr.dh.agree b.pair (some y) ≡ ok shared =
        ap (λ t. pr.dh.agree b.pair (some t)) (sym kr)
        ∙ dlaws.agree_comm b.pair a.pair mr mw
        ∙ ap (λ t. pr.dh.agree a.pair (some t)) kw
        ∙ agreed in
      record {
        ss = step.ss;
        ss' = step.ss';
        held = step.held;
        writer = step.writer;
        wf = step.wf;
        reader =
            bind_same (or_fail (pr.dh.agree b.pair (some y))) (mix_key_call pr) r r shared
              (ap (λ x. or_fail x r) theirs)
            ∙ step.reader;
      }
