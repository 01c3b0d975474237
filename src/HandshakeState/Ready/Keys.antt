-- ===== src/HandshakeState/Ready/Keys.antt =====
-- The keys that the loop of handlePreMessages names, beside those of the configuration.
use nyquist.Base.{
  ◌≡◌, ◌↔◌, Bool, true, false, not, Option, none, some, List, [], ◌∷◌, refl, if◌then◌else◌,
}
use nyquist.Pattern.{Token, token_e, token_s, Message, Side, initiator, responder}
use nyquist.SymmetricState.{SymmetricState}
use nyquist.HandshakeState.{Protocol, HandshakeConfig}
use nyquist.HandshakeState.Start.{SideKeys, public_of, held, side_keys, initial_state}
use nyquist.HandshakeState.Ready.{Holds, HoldsAll, HoldsKeys, HasKey, HasKeys, HaveKeys}

module _ {Aead Keypair PublicKey Rng : Type 0} (pr : Protocol Aead Keypair PublicKey Rng)
    (cfg : HandshakeConfig Keypair PublicKey Rng) where
  -- The configuration's own keys, or the other party's.
  abbrev keys_of : Bool → Side → SideKeys PublicKey
  keys_of true side = record {
    s = public_of pr (held pr cfg.local_static);
    e = public_of pr (held pr cfg.local_ephemeral);
    side = side;
  }
  keys_of false side = record { s = cfg.remote_static; e = cfg.remote_ephemeral; side = side }

  public_iff :
      (o : Option Keypair)
      → ((pk : PublicKey) × (public_of pr (held pr o) ≡ some pk)) ↔ ((kp : Keypair) × (o ≡ some kp))
  public_iff none = (λ (pk, p). cc, λ (kp, p). cc)
  public_iff (some kp) = (λ h. (kp, refl), λ h. (pr.dh.public kp, refl))

  HasKey-Holds :
      (own : Bool) (side : Side) (v : Token) → HasKey pr (keys_of own side) v ↔ Holds pr cfg own v
  HasKey-Holds true side token_e = public_iff cfg.local_ephemeral
  HasKey-Holds true side token_s = public_iff cfg.local_static
  HasKey-Holds false side token_e = (λ h. h, λ h. h)
  HasKey-Holds false side token_s = (λ h. h, λ h. h)
  HasKey-Holds own side _ = (λ h. absurd h, λ h. absurd h)

  HasKeys-HoldsAll :
      (own : Bool) (side : Side) (msg : Message)
      → HasKeys pr (keys_of own side) msg ↔ HoldsAll pr cfg own msg
  HasKeys-HoldsAll own side [] = (λ h. tt, λ h. tt)
  HasKeys-HoldsAll own side (v ∷ msg) =
      let now = HasKey-Holds own side v in
      let later = HasKeys-HoldsAll own side msg in
      (λ (h, rest). (now.0 h, later.0 rest), λ (h, rest). (now.1 h, later.1 rest))

  sides_iff :
      (own : Bool) (msgs : List Message)
      → HaveKeys pr (keys_of own initiator ∷ keys_of (not own) responder ∷ []) msgs
        ↔ HoldsKeys pr (record cfg { is_initiator = own }) msgs
  sides_iff own [] = (λ h. tt, λ h. tt)
  sides_iff own (first ∷ []) =
      let one = HasKeys-HoldsAll own initiator first in (λ (h, rest). one.0 h, λ h. (one.1 h, tt))
  sides_iff own (first ∷ second ∷ rest) =
      let one = HasKeys-HoldsAll own initiator first in
      let two = HasKeys-HoldsAll (not own) responder second in
      (λ (h, (k, rest)). (one.0 h, two.0 k), λ (h, k). (one.1 h, (two.1 k, tt)))

  pub HaveKeys-HoldsKeys :
      (ss : Option (SymmetricState Aead)) (msgs : List Message)
      → HaveKeys pr (side_keys pr (initial_state pr cfg ss)) msgs ↔ HoldsKeys pr cfg msgs
  unfolding side_keys initial_state
  HaveKeys-HoldsKeys ss msgs = go cfg.is_initiator refl
    where
      go :
          (b : Bool)
          → cfg.is_initiator ≡ b
          → HaveKeys pr
              (if b
                then keys_of true initiator ∷ keys_of false responder ∷ []
                else keys_of false initiator ∷ keys_of true responder ∷ [])
              msgs
            ↔ HoldsKeys pr (record cfg { is_initiator = b }) msgs
      go true p = sides_iff true msgs
      go false p = sides_iff false msgs
