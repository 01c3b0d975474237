-- ===== src/HandshakeState/Sync/Begun.antt =====
-- The two states that NewHandshake makes of configurations that fit each other.
use nyquist.Base.{
  ◌≡◌, ◌≤◌, true, false, not, Option, some, ok, refl, sym, ap, ◌∙◌, subst, [], ◌∷◌, ok-injective,
  if◌then◌else◌,
}
use nyquist.Pattern.{Side, initiator, responder}
use nyquist.Pattern.Validity.{is_valid}
use nyquist.Pattern.Rules.{pre_history}
use nyquist.Pattern.Rules.Verdict.{is_valid-IsLawful}
use nyquist.Crypto.{DhLaws, CipherLaws, HashLaws}
use nyquist.SymmetricState.{SymmetricState, mix_hash, initialize_symmetric, new_symmetric_state}
use nyquist.SymmetricState.Invariant
use nyquist.HandshakeState.{Protocol, HandshakeConfig, get_max_message_size}
use nyquist.HandshakeState.Tokens.{State}
use nyquist.HandshakeState.Start.{
  SideKeys, pre_messages, public_of, held, side_keys, handle_pre_messages, initial_state,
  new_handshake, protocol_string,
}
use nyquist.HandshakeState.Sync.Partners.{Partners}
use nyquist.HandshakeState.Sync.Prologue.{Has}
use nyquist.HandshakeState.Sync.PreMessages.{messages-PreStep}
use nyquist.HandshakeState.Sync.Begin.{
  Fitting, new_handshake-Opened, own_Agree, remote_Agree, Has-pre_messages,
}

module _ {Aead Keypair PublicKey Rng : Type 0} (pr : Protocol Aead Keypair PublicKey Rng) where
  abbrev own : HandshakeConfig Keypair PublicKey Rng → Side → SideKeys PublicKey
  own cfg side = record {
    s = public_of pr (held pr cfg.local_static);
    e = public_of pr (held pr cfg.local_ephemeral);
    side = side;
  }

  abbrev remote : HandshakeConfig Keypair PublicKey Rng → Side → SideKeys PublicKey
  remote cfg side = record { s = cfg.remote_static; e = cfg.remote_ephemeral; side = side }

  -- What NewHandshake leaves of its configuration.
  pub record Started (cfg : HandshakeConfig Keypair PublicKey Rng) (hs : State pr) : Type 0 where
    pub cfg_kept : hs.cfg ≡ cfg
    pub s : hs.s ≡ held pr cfg.local_static
    pub index : hs.pattern_index ≡ 0
    pub psk_index : hs.psk_index ≡ 0
    pub max : hs.max_message_size ≡ get_max_message_size cfg.max_message_size

  initial-Started :
      (cfg : HandshakeConfig Keypair PublicKey Rng) (old new : Option (SymmetricState Aead))
      (hs : State pr)
      → hs ≡ record (initial_state pr cfg old) { ss = new }
      → Started cfg hs
  unfolding initial_state
  initial-Started cfg old new hs p =
      subst (Started cfg) (sym p)
        (record { cfg_kept = refl; s = refl; index = refl; psk_index = refl; max = refl })

  initiator_handled :
      (cfg : HandshakeConfig Keypair PublicKey Rng) (ss : Option (SymmetricState Aead))
      → cfg.is_initiator ≡ true
      → handle_pre_messages pr (initial_state pr cfg ss)
        ≡ pre_messages pr
            (own cfg initiator ∷ remote cfg responder ∷ [])
            pr.pattern_of.pre_messages
            (initial_state pr cfg ss)
  unfolding handle_pre_messages side_keys initial_state
  initiator_handled cfg ss p =
      ap
        (λ b.
          pre_messages pr
            (if b
              then own cfg initiator ∷ remote cfg responder ∷ []
              else remote cfg initiator ∷ own cfg responder ∷ [])
            pr.pattern_of.pre_messages (initial_state pr cfg ss))
        p

  responder_handled :
      (cfg : HandshakeConfig Keypair PublicKey Rng) (ss : Option (SymmetricState Aead))
      → cfg.is_initiator ≡ false
      → handle_pre_messages pr (initial_state pr cfg ss)
        ≡ pre_messages pr
            (remote cfg initiator ∷ own cfg responder ∷ [])
            pr.pattern_of.pre_messages
            (initial_state pr cfg ss)
  unfolding handle_pre_messages side_keys initial_state
  responder_handled cfg ss p =
      ap
        (λ b.
          pre_messages pr
            (if b
              then own cfg initiator ∷ remote cfg responder ∷ []
              else remote cfg initiator ∷ own cfg responder ∷ [])
            pr.pattern_of.pre_messages (initial_state pr cfg ss))
        p

  -- The agreement of two new states with one SymmetricState.
  Fitting-Partners :
      (ci cr : HandshakeConfig Keypair PublicKey Rng) (ss : SymmetricState Aead)
      → Fitting pr ci cr
      → Invariant.IsWf pr.cipher pr.hash ss
      → Has pr initiator (pre_history pr.pattern_of) (remote cr initiator)
      → Has pr responder (pre_history pr.pattern_of) (remote ci responder)
      → Partners pr (initial_state pr ci (some ss)) (initial_state pr cr (some ss))
  unfolding initial_state
  Fitting-Partners ci cr ss fit wf has_i has_r = record {
    mirror = record {
      ss = refl;
      wf = wf;
      psk_index = refl;
      psks = fit.psks;
      roles = fit.responds ∙ ap not (sym fit.initiates);
      w_re = fit.i_re;
      w_rs = fit.i_rs;
      r_re = fit.r_re;
      r_rs = fit.r_rs;
      accepts = fit.r_accepts;
      w_e = fit.i_e;
      w_s = fit.i_s;
      r_e = fit.r_e;
      r_s = fit.r_s;
    };
    accepts = fit.i_accepts;
    w_error = refl;
    r_error = refl;
    index = refl;
    max = ap get_max_message_size fit.max;
    turn = fit.initiates;
    r_link = record { e = has_i.e; s = has_i.s };
    w_link = record { e = has_r.e; s = has_r.s };
  }

module _ {Aead Keypair PublicKey Rng : Type 0} (pr : Protocol Aead Keypair PublicKey Rng)
    (claws : CipherLaws pr.cipher) (hlaws : HashLaws pr.hash) (dlaws : DhLaws pr.dh)
    (big : 32 ≤ pr.hash.size) where
  pub new_handshake_starts :
      (ci cr : HandshakeConfig Keypair PublicKey Rng) (w r : State pr)
      → is_valid pr.pattern_of ≡ ok tt
      → Fitting pr ci cr
      → new_handshake pr ci ≡ ok w
      → new_handshake pr cr ≡ ok r
      → Partners pr w r × Started pr ci w × Started pr cr r
  unfolding initial_state
  new_handshake_starts ci cr w r valid fit p q =
      let oi = new_handshake-Opened pr ci w p in
      let or = new_handshake-Opened pr cr r q in
      let (ss0, made, wf0) =
        Invariant.initialize_symmetric_total pr.cipher pr.hash claws hlaws big (protocol_string pr)
          (get_max_message_size ci.max_message_size) in
      let i_ss : ss0 ≡ oi.ss = ok-injective (sym made ∙ oi.begun) in
      let r_ss : ss0 ≡ or.ss = ok-injective (
        sym made
        ∙ sym (
            ap
              (λ n.
                initialize_symmetric pr.cipher pr.hash (protocol_string pr)
                  (new_symmetric_state (get_max_message_size n)))
              fit.max)
        ∙ or.begun) in
      let ss1 = mix_hash pr.hash ci.prologue oi.ss in
      let both : mix_hash pr.hash cr.prologue or.ss ≡ ss1 =
        ap (λ b. mix_hash pr.hash b or.ss) fit.prologue
        ∙ ap (mix_hash pr.hash ci.prologue) (sym r_ss ∙ i_ss) in
      let wf1 =
        Invariant.mix_hash-IsWf pr.cipher pr.hash claws hlaws big ci.prologue oi.ss
          (subst (Invariant.IsWf pr.cipher pr.hash) i_ss wf0) in
      let w0 = initial_state pr ci (some ss1) in
      let r0 = initial_state pr cr (some ss1) in
      let w_did = sym (initiator_handled pr ci (some ss1) fit.initiates) ∙ oi.handled in
      let r_did =
        sym (responder_handled pr cr (some ss1) fit.responds)
        ∙ ap (λ s. handle_pre_messages pr (initial_state pr cr (some s))) (sym both)
        ∙ or.handled in
      let msgs = pr.pattern_of.pre_messages in
      let few = ((is_valid-IsLawful pr.pattern_of).0 valid).few_pre_messages in
      let step =
        messages-PreStep pr claws hlaws dlaws big msgs (own pr ci initiator)
          (remote pr ci responder) (remote pr cr initiator) (own pr cr responder) w0 w r0 r
          (record {
            e = own_Agree pr ci.local_ephemeral cr.remote_ephemeral fit.r_re;
            s = own_Agree pr ci.local_static cr.remote_static fit.r_rs;
          })
          (record {
            e = remote_Agree pr cr.local_ephemeral ci.remote_ephemeral fit.i_re;
            s = remote_Agree pr cr.local_static ci.remote_static fit.i_rs;
          })
          wf1 refl w_did r_did in
      let has_i = Has-pre_messages pr msgs _ _ r0 r few r_did in
      let has_r = Has-pre_messages pr msgs _ _ w0 w few w_did in
      (
        subst (λ t. Partners pr t r) (sym step.writer)
            (subst (λ t. Partners pr (record w0 { ss = some step.ss' }) t) (sym step.reader)
              (Fitting-Partners pr ci cr step.ss' fit step.wf has_i.0 has_r.1)),
        initial-Started pr ci (some ss1) (some step.ss') w step.writer,
        initial-Started pr cr (some ss1) (some step.ss') r step.reader,
      )

  -- Let the pattern be valid, the primitives keep their laws, the hash be of 32 bytes or more, and
  -- the configurations of an initiator and a responder fit: the same prologue, pre-shared keys and
  -- size limit, observers that refuse no key, keypairs that the DH function has made, and remote
  -- keys that are those of the other's keypairs. If NewHandshake makes a state of each, then the two
  -- agree before message 0, which is the initiator's to write.
  pub new_handshake-Partners :
      (ci cr : HandshakeConfig Keypair PublicKey Rng) (w r : State pr)
      → is_valid pr.pattern_of ≡ ok tt
      → Fitting pr ci cr
      → new_handshake pr ci ≡ ok w
      → new_handshake pr cr ≡ ok r
      → Partners pr w r × (w.pattern_index ≡ 0)
  new_handshake-Partners ci cr w r valid fit p q =
      let (both, first, second) = new_handshake_starts ci cr w r valid fit p q in
      (both, first.index)
