-- ===== src/HandshakeState/Sync/Begin.antt =====
-- NewHandshake of two parties whose configurations fit each other.
use nyquist.Base.{
  ◌≡◌, ◌≤◌, Bool, true, false, not, Option, none, some, Result, ok, err, panic, refl, sym, ap, ◌∙◌,
  List, [], ◌∷◌, arith, length, ◌==◌, if◌then◌else◌, ok-injective,
}
use nyquist.Pattern.{Token, token_e, token_s, Message, Side, initiator, responder}
use nyquist.Pattern.Rules.{History, sent, after, after_all}
use nyquist.Pattern.Rules.Progress.{sent_after-other}
use nyquist.Crypto.{Error, missing_psk, bad_psk}
use nyquist.SymmetricState.{SymmetricState, mix_hash, initialize_symmetric, new_symmetric_state}
use nyquist.HandshakeState.{Protocol, HandshakeConfig, get_max_message_size}
use nyquist.HandshakeState.Tokens.{State}
use nyquist.HandshakeState.Start.{
  SideKeys, pre_message, pre_messages, public_of, held, made, started, are_keys,
  handle_pre_messages, initial_state, new_handshake, protocol_string,
}
use nyquist.Base.Exec.{bind_ok}
use nyquist.HandshakeState.Sync.{MadeHeld, Known, Accepts}
use nyquist.HandshakeState.Sync.Prologue.{Agree, Has, Has-message}

module _ {Aead Keypair PublicKey Rng : Type 0} (pr : Protocol Aead Keypair PublicKey Rng) where
  -- Configurations of an initiator and a responder that share what they must, and where the keys
  -- that one holds for the other are the other's.
  pub record Fitting (ci cr : HandshakeConfig Keypair PublicKey Rng) : Type 0 where
    pub initiates : ci.is_initiator ≡ true
    pub responds : cr.is_initiator ≡ false
    pub prologue : cr.prologue ≡ ci.prologue
    pub psks : cr.pre_shared_keys ≡ ci.pre_shared_keys
    pub max : cr.max_message_size ≡ ci.max_message_size
    pub i_re : Known pr ci.remote_ephemeral (held pr cr.local_ephemeral)
    pub i_rs : Known pr ci.remote_static (held pr cr.local_static)
    pub r_re : Known pr cr.remote_ephemeral (held pr ci.local_ephemeral)
    pub r_rs : Known pr cr.remote_static (held pr ci.local_static)
    pub i_e : MadeHeld pr (held pr ci.local_ephemeral)
    pub i_s : MadeHeld pr (held pr ci.local_static)
    pub r_e : MadeHeld pr (held pr cr.local_ephemeral)
    pub r_s : MadeHeld pr (held pr cr.local_static)
    pub i_accepts : Accepts pr ci.observer
    pub r_accepts : Accepts pr cr.observer

  pub own_Agree :
      (kp : Option Keypair) (pk : Option PublicKey)
      → Known pr pk (held pr kp)
      → Agree (public_of pr (held pr kp)) pk
  own_Agree none pk k = tt
  own_Agree (some kp) none k = tt
  own_Agree (some kp) (some pk) k = k

  pub remote_Agree :
      (kp : Option Keypair) (pk : Option PublicKey)
      → Known pr pk (held pr kp)
      → Agree pk (public_of pr (held pr kp))
  remote_Agree kp none k = tt
  remote_Agree none (some pk) k = tt
  remote_Agree (some kp) (some pk) k = sym k

  -- What a new handshake is.
  pub record Opened (cfg : HandshakeConfig Keypair PublicKey Rng) (hs : State pr) : Type 0 where
    pub ss : SymmetricState Aead
    pub begun :
        initialize_symmetric pr.cipher pr.hash
          (protocol_string pr)
          (new_symmetric_state (get_max_message_size cfg.max_message_size))
        ≡ ok ss
    pub handled :
        handle_pre_messages pr (initial_state pr cfg (some (mix_hash pr.hash cfg.prologue ss)))
        ≡ (ok tt, hs)

  open_made :
      (t : Result Error (Unit {0}) × State pr) (hs : State pr) → made pr t ≡ ok hs → t ≡ (ok tt, hs)
  open_made (ok tt, hs0) hs p = ap (λ x. (ok tt, x)) (ok-injective p)
  open_made (err e, hs0) hs p = cc
  open_made (panic, hs0) hs p = cc

  open_started :
      (cfg : HandshakeConfig Keypair PublicKey Rng) (hs : State pr)
      (x : Result Error (SymmetricState Aead))
      → initialize_symmetric pr.cipher pr.hash
          (protocol_string pr)
          (new_symmetric_state (get_max_message_size cfg.max_message_size))
        ≡ x
      → started pr cfg x ≡ ok hs
      → Opened cfg hs
  unfolding started
  open_started cfg hs (ok ss) p q = record {
    ss = ss;
    begun = p;
    handled =
        open_made
          (handle_pre_messages pr (initial_state pr cfg (some (mix_hash pr.hash cfg.prologue ss))))
          hs q;
  }
  open_started cfg hs (err e) p q = cc
  open_started cfg hs panic p q = cc

  open_checks :
      (a b : Bool) (x : Result Error (State pr)) (hs : State pr)
      → (if not a then err missing_psk else if not b then err bad_psk else x) ≡ ok hs
      → x ≡ ok hs
  open_checks true true x hs p = p
  open_checks true false x hs p = cc
  open_checks false b x hs p = cc

  pub new_handshake-Opened :
      (cfg : HandshakeConfig Keypair PublicKey Rng) (hs : State pr)
      → new_handshake pr cfg ≡ ok hs
      → Opened cfg hs
  unfolding new_handshake
  new_handshake-Opened cfg hs p = open_started cfg hs _ refl (
      open_checks (pr.pattern_of.num_psks == length cfg.pre_shared_keys)
        (are_keys pr cfg.pre_shared_keys) _ hs p)

  Has-nothing : (side : Side) (keys : SideKeys PublicKey) → Has pr side [] keys
  Has-nothing side keys = record { e = λ p. cc; s = λ p. cc }

  Has-same :
      (side : Side) (h h' : History) (keys : SideKeys PublicKey)
      → ((t : Token) → sent side t h' ≡ sent side t h)
      → Has pr side h keys
      → Has pr side h' keys
  Has-same side h h' keys same has = record {
    e = λ p. has.e (sym (same token_e) ∙ p);
    s = λ p. has.s (sym (same token_s) ∙ p);
  }

  pub Has-pre_messages :
      (msgs : List Message) (ki kr : SideKeys PublicKey) (hs hs' : State pr)
      → length msgs ≤ 2
      → pre_messages pr (ki ∷ kr ∷ []) msgs hs ≡ (ok tt, hs')
      → Has pr initiator (after_all 0 msgs []) ki × Has pr responder (after_all 0 msgs []) kr
  unfolding pre_messages
  Has-pre_messages [] ki kr hs hs' few p = (Has-nothing initiator ki, Has-nothing responder kr)
  Has-pre_messages (m ∷ []) ki kr hs hs' few p =
      let (_, hs1, p1, p2) =
        bind_ok (pre_message pr ki m) (λ _. pre_messages pr (kr ∷ []) []) hs hs' tt p in
      (
        Has-message pr m initiator [] ki hs hs1 (Has-nothing initiator ki) p1,
        Has-same responder [] (after initiator m []) kr (λ t. sent_after-other initiator t m [])
            (Has-nothing responder kr),
      )
  Has-pre_messages (m ∷ n ∷ []) ki kr hs hs' few p =
      let (_, hs1, p1, p2) =
        bind_ok (pre_message pr ki m) (λ _. pre_messages pr (kr ∷ []) (n ∷ [])) hs hs' tt p in
      let (_, hs2, q1, q2) =
        bind_ok (pre_message pr kr n) (λ _. pre_messages pr [] []) hs1 hs' tt p2 in
      let h = after initiator m [] in
      (
        Has-same initiator h (after responder n h) ki (λ t. sent_after-other responder t n h)
            (Has-message pr m initiator [] ki hs hs1 (Has-nothing initiator ki) p1),
        Has-message pr n responder h kr hs1 hs2
            (Has-same responder [] h kr (λ t. sent_after-other initiator t m [])
              (Has-nothing responder kr))
            q1,
      )
  Has-pre_messages (m ∷ n ∷ l ∷ msgs) ki kr hs hs' few p = absurd (omega (arith, few))
