-- ===== src/HandshakeState/Sync/Steps.antt =====
-- One token: what the writer does with it and what the reader does with what was written.
use nyquist.Base.{
  ◌≡◌, ◌≢◌, ◌≤◌, Bool, true, false, not, Option, none, some, Result, ok, Bytes, if◌then◌else◌, refl,
  sym, ap, ◌∙◌, subst, ok-injective, [], ◌++◌,
}
use nyquist.Base.Exec.{pure, bind_ok, bind_same}
use nyquist.Pattern.{Token, token_e, token_s, token_ee, token_es, token_se, token_ss}
use nyquist.Crypto.{Error, DhLaws, CipherLaws, HashLaws}
use nyquist.SymmetricState.{SymmetricState}
use nyquist.SymmetricState.Invariant
use mathlib.Core.List.{append-nil}
use nyquist.HandshakeState.{Protocol, Held}
use nyquist.HandshakeState.Tokens.{
  State, Do, mix_dh, on_token_ee, on_token_es, on_token_se, on_token_ss,
}
use nyquist.HandshakeState.Messages.{read_token, quiet}
use nyquist.HandshakeState.Sync.{MadeHeld, Known, SsIsWf, Mirror, Readable}
use nyquist.HandshakeState.Sync.Calls.{SameStep, mix_dh_same}

module _ {Aead Keypair PublicKey Rng : Type 0} (pr : Protocol Aead Keypair PublicKey Rng) where
  -- What the tokens of a message leave alone, and that no key of the other party is forgotten.
  pub record Frame (a b : State pr) : Type 0 where
    pub cfg : b.cfg ≡ a.cfg
    pub error : b.status.error ≡ a.status.error
    pub index : b.pattern_index ≡ a.pattern_index
    pub max : b.max_message_size ≡ a.max_message_size
    pub s : b.s ≡ a.s
    pub re : a.re ≢ none → b.re ≢ none
    pub rs : a.rs ≢ none → b.rs ≢ none

  pub Frame-refl : (a : State pr) → Frame a a
  Frame-refl a = record {
    cfg = refl;
    error = refl;
    index = refl;
    max = refl;
    s = refl;
    re = λ h. h;
    rs = λ h. h;
  }

  pub Frame-trans : (a b c : State pr) → Frame a b → Frame b c → Frame a c
  Frame-trans a b c p q = record {
    cfg = q.cfg ∙ p.cfg;
    error = q.error ∙ p.error;
    index = q.index ∙ p.index;
    max = q.max ∙ p.max;
    s = q.s ∙ p.s;
    re = λ h. q.re (p.re h);
    rs = λ h. q.rs (p.rs h);
  }

  -- The reader now holds a key that the writer has sent.
  abbrev pub Learned : Token → State pr → Type 0
  Learned token_e r = r.re ≢ none
  Learned token_s r = r.rs ≢ none
  Learned v r = Unit

  -- The writer appended `sent`, the reader takes just that off its payload, and they agree again.
  pub record TokenStep (v : Token) (dst out : Bytes) (w w' r : State pr) : Type 0 where
    pub sent : Bytes
    pub appended : out ≡ dst ++ sent
    pub r' : State pr
    pub reads : (rest : Bytes) → read_token pr v (sent ++ rest) r ≡ (ok rest, r')
    pub mirror : Mirror pr w' r'
    pub writer_frame : Frame w w'
    pub reader_frame : Frame r r'
    pub learned : Learned v r'

  pub same_Mirror :
      (w r : State pr) (ss : SymmetricState Aead)
      → Mirror pr w r
      → Invariant.IsWf pr.cipher pr.hash ss
      → Mirror pr (record w { ss = some ss }) (record r { ss = some ss })
  same_Mirror w r ss mir wf = record {
    ss = refl;
    wf = wf;
    psk_index = mir.psk_index;
    psks = mir.psks;
    roles = mir.roles;
    w_re = mir.w_re;
    w_rs = mir.w_rs;
    r_re = mir.r_re;
    r_rs = mir.r_rs;
    accepts = mir.accepts;
    w_e = mir.w_e;
    w_s = mir.w_s;
    r_e = mir.r_e;
    r_s = mir.r_s;
  }

  pub held-IsWf :
      (w : State pr) (ss : SymmetricState Aead)
      → w.ss ≡ some ss
      → SsIsWf pr w.ss
      → Invariant.IsWf pr.cipher pr.hash ss
  held-IsWf w ss held wf = subst (SsIsWf pr) held wf

  -- A handler of both parties that writes and reads nothing.
  pub record QuietStep (m : Do pr (Unit {0})) (w w' r : State pr) : Type 0 where
    pub r' : State pr
    pub reader : m r ≡ (ok tt, r')
    pub mirror : Mirror pr w' r'
    pub writer_frame : Frame w w'
    pub reader_frame : Frame r r'

  pub same_QuietStep :
      (m : Do pr (Unit {0})) (w w' r : State pr)
      → Mirror pr w r
      → SameStep pr w w' r m
      → QuietStep m w w' r
  same_QuietStep m w w' r mir step =
      let r' = record r { ss = some step.ss' } in
      record {
        r' = r';
        reader = step.reader;
        mirror =
            subst (λ t. Mirror pr t r') (sym step.writer)
              (same_Mirror w r step.ss' mir (step.wf (held-IsWf w step.ss step.held mir.wf)));
        writer_frame = subst (Frame w) (sym step.writer) (record {
          cfg = refl;
          error = refl;
          index = refl;
          max = refl;
          s = refl;
          re = λ h. h;
          rs = λ h. h;
        });
        reader_frame = record {
          cfg = refl;
          error = refl;
          index = refl;
          max = refl;
          s = refl;
          re = λ h. h;
          rs = λ h. h;
        };
      }

  pub quiet-TokenStep :
      (v : Token) (m : Do pr (Unit {0})) (dst out : Bytes) (w w' r : State pr)
      → ((payload : Bytes) → read_token pr v payload r ≡ quiet pr m payload r)
      → ((r' : State pr) → Learned v r')
      → ((w1 : State pr) → m w ≡ (ok tt, w1) → QuietStep m w w1 r)
      → quiet pr m dst w ≡ (ok out, w')
      → TokenStep v dst out w w' r
  quiet-TokenStep v m dst out w w' r read learned steps h =
      let (_, w1, p, q) = bind_ok m (λ _. pure dst) w w' out h in
      let step = steps w1 p in
      let same : w1 ≡ w' = ap (λ (t : Result Error Bytes × State pr). t.1) q in
      record {
        sent = [];
        appended =
            sym (ok-injective (ap (λ (t : Result Error Bytes × State pr). t.0) q))
            ∙ sym (append-nil dst);
        r' = step.r';
        reads = λ rest. read rest ∙ bind_same m (λ _. pure rest) r step.r' tt step.reader;
        mirror = subst (λ t. Mirror pr t step.r') same step.mirror;
        writer_frame = subst (Frame w) same step.writer_frame;
        reader_frame = step.reader_frame;
        learned = learned step.r';
      }

module _ {Aead Keypair PublicKey Rng : Type 0} (pr : Protocol Aead Keypair PublicKey Rng)
    (claws : CipherLaws pr.cipher) (hlaws : HashLaws pr.hash) (dlaws : DhLaws pr.dh)
    (big : 32 ≤ pr.hash.size) where
  -- The DH tokens.
  pub ee_step :
      (w w' r : State pr)
      → Mirror pr w r
      → Readable pr token_ee r
      → on_token_ee pr w ≡ (ok tt, w')
      → SameStep pr w w' r (on_token_ee pr)
  unfolding on_token_ee
  ee_step w w' r mir has h =
      let step =
        mix_dh_same pr claws hlaws dlaws big w.e r.e w.re r.re w w' r mir.w_e mir.r_e mir.w_re
          mir.r_re has mir.ss h in
      record {
        ss = step.ss;
        ss' = step.ss';
        held = step.held;
        writer = step.writer;
        reader = step.reader;
        wf = step.wf;
      }

  pub ss_step :
      (w w' r : State pr)
      → Mirror pr w r
      → Readable pr token_ss r
      → on_token_ss pr w ≡ (ok tt, w')
      → SameStep pr w w' r (on_token_ss pr)
  unfolding on_token_ss
  ss_step w w' r mir has h =
      let step =
        mix_dh_same pr claws hlaws dlaws big w.s r.s w.rs r.rs w w' r mir.w_s mir.r_s mir.w_rs
          mir.r_rs has mir.ss h in
      record {
        ss = step.ss;
        ss' = step.ss';
        held = step.held;
        writer = step.writer;
        reader = step.reader;
        wf = step.wf;
      }

  -- The writer takes one branch of a test of its role, and the reader the other one.
  mixed_step :
      (ka kb kc kd : Option (Held Keypair)) (pa pb pc pd : Option PublicKey) (w w' r : State pr)
      (role : Bool)
      → MadeHeld pr ka
      → MadeHeld pr kb
      → MadeHeld pr kc
      → MadeHeld pr kd
      → Known pr pa kd
      → Known pr pd ka
      → Known pr pb kc
      → Known pr pc kb
      → (if not role then pc ≢ none else pd ≢ none)
      → r.ss ≡ w.ss
      → (if role then mix_dh pr ka pa w else mix_dh pr kb pb w) ≡ (ok tt, w')
      → SameStep pr w w' r (λ hs. if not role then mix_dh pr kc pc hs else mix_dh pr kd pd hs)
  mixed_step ka kb kc kd pa pb pc pd w w' r true ma mb mc md k1 k2 k3 k4 has same h =
      let step = mix_dh_same pr claws hlaws dlaws big ka kd pa pd w w' r ma md k1 k2 has same h in
      record {
        ss = step.ss;
        ss' = step.ss';
        held = step.held;
        writer = step.writer;
        reader = step.reader;
        wf = step.wf;
      }
  mixed_step ka kb kc kd pa pb pc pd w w' r false ma mb mc md k1 k2 k3 k4 has same h =
      let step = mix_dh_same pr claws hlaws dlaws big kb kc pb pc w w' r mb mc k3 k4 has same h in
      record {
        ss = step.ss;
        ss' = step.ss';
        held = step.held;
        writer = step.writer;
        reader = step.reader;
        wf = step.wf;
      }

  pub es_step :
      (w w' r : State pr)
      → Mirror pr w r
      → Readable pr token_es r
      → on_token_es pr w ≡ (ok tt, w')
      → SameStep pr w w' r (on_token_es pr)
  unfolding on_token_es
  es_step w w' r mir has h =
      let step =
        mixed_step w.e w.s r.e r.s w.rs w.re r.rs r.re w w' r w.cfg.is_initiator mir.w_e mir.w_s
          mir.r_e mir.r_s mir.w_rs mir.r_re mir.w_re mir.r_rs
          (subst (λ b. if b then r.rs ≢ none else r.re ≢ none) mir.roles has) mir.ss h in
      record {
        ss = step.ss;
        ss' = step.ss';
        held = step.held;
        writer = step.writer;
        wf = step.wf;
        reader =
            ap (λ b. if b then mix_dh pr r.e r.rs r else mix_dh pr r.s r.re r) mir.roles
            ∙ step.reader;
      }

  pub se_step :
      (w w' r : State pr)
      → Mirror pr w r
      → Readable pr token_se r
      → on_token_se pr w ≡ (ok tt, w')
      → SameStep pr w w' r (on_token_se pr)
  unfolding on_token_se
  se_step w w' r mir has h =
      let step =
        mixed_step w.s w.e r.s r.e w.re w.rs r.re r.rs w w' r w.cfg.is_initiator mir.w_s mir.w_e
          mir.r_s mir.r_e mir.w_re mir.r_rs mir.w_rs mir.r_re
          (subst (λ b. if b then r.re ≢ none else r.rs ≢ none) mir.roles has) mir.ss h in
      record {
        ss = step.ss;
        ss' = step.ss';
        held = step.held;
        writer = step.writer;
        wf = step.wf;
        reader =
            ap (λ b. if b then mix_dh pr r.s r.re r else mix_dh pr r.e r.rs r) mir.roles
            ∙ step.reader;
      }
