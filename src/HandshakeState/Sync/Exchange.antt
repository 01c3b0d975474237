-- ===== src/HandshakeState/Sync/Exchange.antt =====
-- The end of a message: onDone of the writer and of the reader.
use nyquist.Base.{
  ltb→lt, ◌<◌, ◌≤◌, arith, ◌+◌, ◌≡◌, ◌⊎◌, inl, inr, Bool, true, false, Option, none, some, Result,
  ok, err, panic, Bytes, if◌then◌else◌, refl, sym, ap, ◌∙◌, subst, ok-injective, length, ltb,
}
use nyquist.CipherState.Invariant as CsInvariant
use nyquist.SymmetricState.Invariant
use nyquist.Crypto.{CipherLaws, HashLaws, DhLaws, Error, done}
use nyquist.HandshakeState.Sync.Steps.{held-IsWf}
use nyquist.HandshakeState.Messages.{one_way, on_done, split_on, finish, reset}
use nyquist.CipherState.{has_key, CipherState}
use nyquist.SymmetricState.{SymmetricState, split}
use nyquist.SymmetricState as Ss
use nyquist.HandshakeState.{Protocol}
use nyquist.HandshakeState.Tokens.{State, Do}
use nyquist.HandshakeState.Sync.{Mirror}

module _ {Aead Keypair PublicKey Rng : Type 0} (pr : Protocol Aead Keypair PublicKey Rng) where
  -- A CipherState as a session starts with it.
  pub record IsFresh (cs : CipherState Aead) : Type 0 where
    pub wf : CsInvariant.IsWf pr.cipher cs
    pub keyed : has_key cs ≡ true
    pub nonce : cs.n ≡ 0

  -- The CipherStates of a session; the second one is nil in a one-way pattern.
  abbrev pub AreFresh : CipherState Aead × Option (CipherState Aead) → Type 0
  AreFresh (cs1, none) = IsFresh cs1
  AreFresh (cs1, some cs2) = IsFresh cs1 × IsFresh cs2

  -- What Split makes.
  abbrev BothFresh : Result Error (CipherState Aead × CipherState Aead) → Type 0
  BothFresh (ok (cs1, cs2)) = IsFresh cs1 × IsFresh cs2
  BothFresh (err e) = Unit
  BothFresh panic = Unit

  -- A handshake that is over: both hold the same cipher states and the same handshake hash.
  pub record Finished (e : Option Error) (w r : State pr) : Type 0 where
    pub result : e ≡ some done
    pub writer : w.status.error ≡ some done
    pub reader : r.status.error ≡ some done
    pub pair : CipherState Aead × Option (CipherState Aead)
    pub fresh : AreFresh pair
    pub w_pair : w.status.cipher_states ≡ some pair
    pub r_pair : r.status.cipher_states ≡ some pair
    pub hash : Bytes
    pub w_hash : w.status.handshake_hash ≡ some hash
    pub r_hash : r.status.handshake_hash ≡ some hash
    pub ended : length pr.pattern_of.messages ≤ w.pattern_index

  -- A handshake that goes on.
  pub record Onward (e : Option Error) (w w' r r' : State pr) : Type 0 where
    pub result : e ≡ none
    pub mirror : Mirror pr w' r'
    pub w_frame : w' ≡ record w { pattern_index = w.pattern_index + 1 }
    pub r_frame : r' ≡ record r { pattern_index = r.pattern_index + 1 }
    pub more : w'.pattern_index < length pr.pattern_of.messages

  pub record DoneStep (e : Option Error) (dst out : Bytes) (w w' r : State pr) : Type 0 where
    pub r' : State pr
    pub reads : (dst' : Bytes) → on_done pr dst' r ≡ (ok (dst', e), r')
    pub returned : out ≡ dst
    pub advanced : w'.pattern_index ≡ w.pattern_index + 1
    pub outcome : Onward e w w' r r' ⊎ Finished e w' r'

  advance : State pr → State pr
  advance hs = record hs { pattern_index = hs.pattern_index + 1 }

  -- `on_done` once the comparison is made.
  abbrev branch : Bool → Option (SymmetricState Aead) → Bytes → Do pr (Bytes × Option Error)
  unfolding reset
  branch more o dst hs = if more then (ok (dst, none), hs) else split_on pr o dst hs

  one_way_fresh :
      (b : Bool) (c1 c2 : CipherState Aead)
      → IsFresh c1
      → IsFresh c2
      → AreFresh (c1, one_way pr b c2)
  one_way_fresh true c1 c2 f1 f2 = f1
  one_way_fresh false c1 c2 f1 f2 = (f1, f2)

  finish_DoneStep :
      (x : Result Error (CipherState Aead × CipherState Aead)) (h dst out : Bytes)
      (e : Option Error) (w w' r : State pr)
      → BothFresh x
      → length pr.pattern_of.messages ≤ w.pattern_index
      → finish pr x h dst w ≡ (ok (out, e), w')
      → (r' : State pr) × ((dst' : Bytes) → finish pr x h dst' r ≡ (ok (dst', e), r'))
        × (out ≡ dst)
        × (w'.pattern_index ≡ w.pattern_index)
        × Finished e w' r'
  unfolding reset
  finish_DoneStep (ok (c1, c2)) h dst out e w w' r fresh last p =
      let made : some done ≡ e =
        ap (λ (t : Bytes × Option Error). t.1)
          (ok-injective (ap (λ (t : Result Error (Bytes × Option Error) × State pr). t.0) p)) in
      let w_eq = ap (λ (t : Result Error (Bytes × Option Error) × State pr). t.1) p in
      let r' = (finish pr (ok (c1, c2)) h dst r).1 in
      (
        r',
        λ dst'. ap (λ x. (ok (dst', x), r')) made,
        sym (
            ap (λ (t : Bytes × Option Error). t.0)
              (ok-injective (ap (λ (t : Result Error (Bytes × Option Error) × State pr). t.0) p))),
        ap (λ (t : State pr). t.pattern_index) (sym w_eq),
        record {
          ended =
              subst (λ (t : State pr). length pr.pattern_of.messages ≤ t.pattern_index) w_eq last;
          result = sym made;
          writer = ap (λ (t : State pr). t.status.error) (sym w_eq);
          reader = refl;
          pair = (c1, one_way pr pr.pattern_of.is_one_way c2);
          fresh = one_way_fresh pr.pattern_of.is_one_way c1 c2 fresh.0 fresh.1;
          w_pair = ap (λ (t : State pr). t.status.cipher_states) (sym w_eq);
          r_pair = refl;
          hash = h;
          w_hash = ap (λ (t : State pr). t.status.handshake_hash) (sym w_eq);
          r_hash = refl;
        },
      )
  finish_DoneStep (err x) h dst out e w w' r fresh last p = cc
  finish_DoneStep panic h dst out e w w' r fresh last p = cc

  advance-Mirror : (w r : State pr) → Mirror pr w r → Mirror pr (advance w) (advance r)
  unfolding advance
  advance-Mirror w r mir = record {
    ss = mir.ss;
    wf = mir.wf;
    psk_index = mir.psk_index;
    psks = mir.psks;
    roles = mir.roles;
    w_re = mir.w_re;
    w_rs = mir.w_rs;
    r_re = mir.r_re;
    r_rs = mir.r_rs;
    accepts = mir.accepts;
    w_e = mir.w_e;
    w_s = mir.w_s;
    r_e = mir.r_e;
    r_s = mir.r_s;
  }

module _ {Aead Keypair PublicKey Rng : Type 0} (pr : Protocol Aead Keypair PublicKey Rng)
    (claws : CipherLaws pr.cipher) (hlaws : HashLaws pr.hash) (dlaws : DhLaws pr.dh)
    (big : 32 ≤ pr.hash.size) where
  split-BothFresh :
      (ss : SymmetricState Aead)
      → Invariant.IsWf pr.cipher pr.hash ss
      → BothFresh pr (split pr.cipher pr.hash ss)
  split-BothFresh ss wf =
      let (c1, c2, made, k1, k2, n1, n2, wf1, wf2) =
        Invariant.split_total pr.cipher pr.hash claws hlaws big ss wf in
      subst (BothFresh pr) (sym made)
        (record { wf = wf1; keyed = k1; nonce = n1 }, record { wf = wf2; keyed = k2; nonce = n2 })

  branch_DoneStep :
      (more : Bool) (o : Option (SymmetricState Aead)) (dst out : Bytes) (e : Option Error)
      (w w' r : State pr)
      → Mirror pr w r
      → w.ss ≡ o
      → ltb (w.pattern_index + 1) (length pr.pattern_of.messages) ≡ more
      → branch pr more o dst (advance pr w) ≡ (ok (out, e), w')
      → (r' : State pr) × ((dst' : Bytes)
          → branch pr more o dst' (advance pr r) ≡ (ok (dst', e), r'))
        × (out ≡ dst)
        × (w'.pattern_index ≡ w.pattern_index + 1)
        × (Onward pr e w w' r r' ⊎ Finished pr e w' r')
  unfolding advance branch
  branch_DoneStep true o dst out e w w' r mir held count p =
      let made : none ≡ e =
        ap (λ (t : Bytes × Option Error). t.1)
          (ok-injective (ap (λ (t : Result Error (Bytes × Option Error) × State pr). t.0) p)) in
      let w_eq : advance pr w ≡ w' =
        ap (λ (t : Result Error (Bytes × Option Error) × State pr). t.1) p in
      (
        advance pr r,
        λ dst'. ap (λ x. (ok (dst', x), advance pr r)) made,
        sym (
            ap (λ (t : Bytes × Option Error). t.0)
              (ok-injective (ap (λ (t : Result Error (Bytes × Option Error) × State pr). t.0) p))),
        ap (λ (t : State pr). t.pattern_index) (sym w_eq),
        inl (record {
          more =
              subst (λ (t : State pr). t.pattern_index < length pr.pattern_of.messages) w_eq
                (ltb→lt (w.pattern_index + 1) (length pr.pattern_of.messages) count);
          result = sym made;
          mirror = subst (λ t. Mirror pr t (advance pr r)) w_eq (advance-Mirror pr w r mir);
          w_frame = sym w_eq;
          r_frame = refl;
        }),
      )
  branch_DoneStep false none dst out e w w' r mir held count p = cc
  branch_DoneStep false (some ss) dst out e w w' r mir held count p =
      let last : length pr.pattern_of.messages ≤ w.pattern_index + 1 = ground (arith, count) in
      let (r', reads, returned, stays, fin) =
        finish_DoneStep pr (split pr.cipher pr.hash ss) (Ss.get_handshake_hash ss) dst out e
          (advance pr w) w' (advance pr r) (split-BothFresh ss (held-IsWf pr w ss held mir.wf)) last
          p in
      (r', reads, returned, stays, inr fin)

  pub on_done_same :
      (dst out : Bytes) (e : Option Error) (w w' r : State pr)
      → Mirror pr w r
      → r.pattern_index ≡ w.pattern_index
      → on_done pr dst w ≡ (ok (out, e), w')
      → DoneStep pr e dst out w w' r
  unfolding on_done advance
  on_done_same dst out e w w' r mir index p =
      let more = ltb (w.pattern_index + 1) (length pr.pattern_of.messages) in
      let (r', reads, returned, advanced, outcome) =
        branch_DoneStep more w.ss dst out e w w' r mir refl refl p in
      record {
        r' = r';
        reads = λ dst'.
            ap
              (λ n.
                branch pr (ltb (n + 1) (length pr.pattern_of.messages)) r.ss dst' (advance pr r))
              index
            ∙ ap (λ o. branch pr more o dst' (advance pr r)) mir.ss
            ∙ reads dst';
        returned = returned;
        advanced = advanced;
        outcome = outcome;
      }
