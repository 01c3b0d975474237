-- ===== src/HandshakeState/Ready/Needs.antt =====
-- What a configuration has if NewHandshake takes it.
use nyquist.Base.{
  ◌≤◌, ◌≡◌, ◌≢◌, ◌↔◌, Bool, true, false, not, Option, none, some, List, [], ◌∷◌, Bytes, ok, err,
  refl, sym, ap, ◌∙◌, length, ◌==◌, ==_iff, if◌then◌else◌, Bool-cases, inl, inr,
}
use nyquist.HandshakeState.Sync.Begin.{Opened, new_handshake-Opened}
use nyquist.Base.Exec.{bind_ok}
use nyquist.Pattern.{
  Token, token_invalid, token_e, token_s, token_ee, token_es, token_se, token_ss, token_psk,
  Message,
}
use nyquist.Crypto.{CipherLaws, HashLaws, missing_psk, bad_psk}
use nyquist.SymmetricState.{mix_hash, initialize_symmetric, new_symmetric_state}
use nyquist.HandshakeState.{Protocol, HandshakeConfig, get_max_message_size}
use nyquist.HandshakeState.Tokens.{State}
use nyquist.HandshakeState.Start.{
  SideKeys, side_keys, mix_e, mix_s, pre_token, pre_message, pre_messages, handle_pre_messages,
  initial_state, are_keys, started, new_handshake, protocol_string,
}
use nyquist.HandshakeState.Ready.Keys.{HaveKeys-HoldsKeys}
use nyquist.HandshakeState.Ready.{HasKey, HasKeys, HaveKeys, ArePsks, IsReady}
use nyquist.HandshakeState.Ready.Works.{new_handshake_ready}

module _ {Aead Keypair PublicKey Rng : Type 0} (pr : Protocol Aead Keypair PublicKey Rng) where
  ArePsks-are_keys : (psks : List Bytes) → are_keys pr psks ≡ true → ArePsks psks
  ArePsks-are_keys [] h = tt
  ArePsks-are_keys (psk ∷ psks) h = elim (Bool-cases (length psk == 32)) [
    | inl p ↦ (
      (==_iff (length psk) 32).0 p,
      ArePsks-are_keys psks (sym (ap (λ b. if b then are_keys pr psks else false) p) ∙ h),
    )
    | inr p ↦ absurd (false_or (sym (ap (λ b. if b then are_keys pr psks else false) p) ∙ h))
  ]
    where
      false_or : false ≡ true → ⊥
      false_or e = cc

  key_of : (o : Option PublicKey) → o ≢ none → (pk : PublicKey) × (o ≡ some pk)
  key_of none h = absurd (h refl)
  key_of (some pk) h = (pk, refl)

  pre_token_needs :
      (keys : SideKeys PublicKey) (v : Token) (hs hs' : State pr)
      → pre_token pr keys v hs ≡ (ok tt, hs')
      → HasKey pr keys v
  unfolding pre_token
  pre_token_needs keys token_e hs hs' p =
      key_of keys.e (λ e. cc (sym (ap (λ o. mix_e pr o keys.side hs) e) ∙ p))
  pre_token_needs keys token_s hs hs' p =
      key_of keys.s (λ e. cc (sym (ap (λ o. mix_s pr o keys.side hs) e) ∙ p))
  pre_token_needs keys token_ee hs hs' p = cc
  pre_token_needs keys token_es hs hs' p = cc
  pre_token_needs keys token_se hs hs' p = cc
  pre_token_needs keys token_ss hs hs' p = cc
  pre_token_needs keys token_psk hs hs' p = cc
  pre_token_needs keys (token_invalid n) hs hs' p = cc

  pre_message_needs :
      (keys : SideKeys PublicKey) (msg : Message) (hs hs' : State pr)
      → pre_message pr keys msg hs ≡ (ok tt, hs')
      → HasKeys pr keys msg
  unfolding pre_message
  pre_message_needs keys [] hs hs' p = tt
  pre_message_needs keys (v ∷ msg) hs hs' p =
      let (u, hs1, first, rest) =
        bind_ok (pre_token pr keys v) (λ _. pre_message pr keys msg) hs hs' tt p in
      (pre_token_needs keys v hs hs1 first, pre_message_needs keys msg hs1 hs' rest)

  pre_messages_need :
      (sides : List (SideKeys PublicKey)) (msgs : List Message) (hs hs' : State pr)
      → pre_messages pr sides msgs hs ≡ (ok tt, hs')
      → HaveKeys pr sides msgs
  unfolding pre_messages
  pre_messages_need [] msgs hs hs' p = tt
  pre_messages_need (keys ∷ sides) [] hs hs' p = tt
  pre_messages_need (keys ∷ sides) (msg ∷ msgs) hs hs' p =
      let (u, hs1, first, rest) =
        bind_ok (pre_message pr keys msg) (λ _. pre_messages pr sides msgs) hs hs' tt p in
      (pre_message_needs keys msg hs hs1 first, pre_messages_need sides msgs hs1 hs' rest)

  pub new_handshake_needs :
      (cfg : HandshakeConfig Keypair PublicKey Rng) (hs : State pr)
      → new_handshake pr cfg ≡ ok hs
      → IsReady pr cfg
  unfolding new_handshake handle_pre_messages initial_state side_keys
  new_handshake_needs cfg hs p =
      go (pr.pattern_of.num_psks == length cfg.pre_shared_keys) (are_keys pr cfg.pre_shared_keys)
        refl refl p
    where
      opened : Opened pr cfg hs
      opened = new_handshake-Opened pr cfg hs p

      go :
          (b c : Bool)
          → pr.pattern_of.num_psks == length cfg.pre_shared_keys ≡ b
          → are_keys pr cfg.pre_shared_keys ≡ c
          → (if not b
              then err missing_psk
              else if not c
              then err bad_psk
              else started pr cfg (
                  initialize_symmetric pr.cipher pr.hash
                    (protocol_string pr)
                    (new_symmetric_state (get_max_message_size cfg.max_message_size))))
            ≡ ok hs
          → IsReady pr cfg
      go true true e f h = record {
        count = sym ((==_iff pr.pattern_of.num_psks (length cfg.pre_shared_keys)).0 e);
        sizes = ArePsks-are_keys cfg.pre_shared_keys f;
        keys =
            let ss = some (mix_hash pr.hash cfg.prologue opened.ss) in
            (HaveKeys-HoldsKeys pr cfg ss pr.pattern_of.pre_messages).0 (
              pre_messages_need (side_keys pr (initial_state pr cfg ss)) pr.pattern_of.pre_messages
                (initial_state pr cfg ss) hs opened.handled);
      }
      go true false e f h = cc
      go false c e f h = cc

module _ {Aead Keypair PublicKey Rng : Type 0} (pr : Protocol Aead Keypair PublicKey Rng)
    (claws : CipherLaws pr.cipher) (hlaws : HashLaws pr.hash) (big : 32 ≤ pr.hash.size) where
  -- With a hash of 32 bytes or more and primitives that keep their laws, NewHandshake returns a state
  -- exactly if the configuration has as many pre-shared keys as the pattern says, of 32 bytes each, and
  -- every key of the pre-messages, of which the first is the initiator's and the second the
  -- responder's: a keypair of its own for its own, and a public key for the other party's.
  pub new_handshake-IsReady :
      (cfg : HandshakeConfig Keypair PublicKey Rng)
      → ((hs : State pr) × (new_handshake pr cfg ≡ ok hs)) ↔ IsReady pr cfg
  new_handshake-IsReady cfg = (
    λ (hs, p). new_handshake_needs pr cfg hs p,
    λ ready. let (hs, p, sound) = new_handshake_ready pr claws hlaws big cfg ready in (hs, p),
  )
