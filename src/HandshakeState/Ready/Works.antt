-- ===== src/HandshakeState/Ready/Works.antt =====
-- NewHandshake of a configuration that has what the pattern wants.
use nyquist.Base.{
  Bool, false, take, subst, arith, ℕ, ◌≤◌, ◌≡◌, true, not, some, List, [], ◌∷◌, Bytes, Result, ok,
  err, refl, sym, ap, ◌∙◌, length, ==_iff, if◌then◌else◌,
}
use nyquist.Base.Exec.{bind_same, pure, ◌>>◌}
use nyquist.Pattern.{Token, token_e, token_s, Message}
use nyquist.Pattern.Sizes.{keyed_after, keyed_message, keyed_messages}
use nyquist.Crypto.{Error, CipherLaws, HashLaws, missing_psk, bad_psk}
use nyquist.SymmetricState.{
  SymmetricState, mix_hash, mix_key, initialize_symmetric, new_symmetric_state,
}
use nyquist.SymmetricState.Invariant.{initialize_symmetric_starts}
use nyquist.SymmetricState.Progress.{Stocked, mix_hash-Stocked, mix_key-Stocked}
use nyquist.HandshakeState.{Protocol, HandshakeConfig, get_max_message_size}
use nyquist.HandshakeState.Tokens.{
  State, mix_hash_call, mix_if_psk, mix_key_call, store_ss, on_ss, call_ss,
}
use nyquist.HandshakeState.Start.{
  SideKeys, side_keys, mix_e, mix_s, pre_token, pre_message, pre_messages, handle_pre_messages,
  initial_state, are_keys, made, started, new_handshake, protocol_string,
}
use nyquist.HandshakeState.Ready.Keys.{HaveKeys-HoldsKeys}
use nyquist.HandshakeState.Ready.{HasKey, HasKeys, HaveKeys, ArePsks, IsReady, uses_psk}

module _ {Aead Keypair PublicKey Rng : Type 0} (pr : Protocol Aead Keypair PublicKey Rng) where
  -- A state whose SymmetricState is there, well-formed, with the size limit `max`, keyed or not,
  -- and has encrypted nothing yet.
  abbrev pub Sound : ℕ → Bool → State pr → Type 0
  Sound max b hs =
      (ss : SymmetricState Aead) × (hs.ss ≡ some ss) × Stocked pr.cipher pr.hash 0 max b ss

  are_keys-ArePsks : (psks : List Bytes) → ArePsks psks → are_keys pr psks ≡ true
  are_keys-ArePsks [] h = refl
  are_keys-ArePsks (psk ∷ psks) (size, rest) =
      ap (λ b. if b then are_keys pr psks else false) ((==_iff (length psk) 32).1 size)
      ∙ are_keys-ArePsks psks rest

  -- A method that returns no error and leaves a sound state.
  abbrev Works : ℕ → Bool → (State pr → Result Error (Unit {0}) × State pr) → State pr → Type 0
  Works max b m hs = (hs' : State pr) × (m hs ≡ (ok tt, hs')) × Sound max b hs'

  in_turn :
      (max : ℕ) (b b' : Bool) (m k : State pr → Result Error (Unit {0}) × State pr) (hs : State pr)
      → Works max b m hs
      → ((hs' : State pr) → Sound max b hs' → Works max b' k hs')
      → Works max b' (m >> k) hs
  in_turn max b b' m k hs (hs1, first, sound1) next =
      let (hs2, second, sound2) = next hs1 sound1 in
      (hs2, bind_same m (λ _. k) hs hs1 tt first ∙ second, sound2)

  call-Works :
      (max : ℕ) (b : Bool) (f : SymmetricState Aead → Result Error (SymmetricState Aead))
      (hs : State pr) (ss ss' : SymmetricState Aead)
      → hs.ss ≡ some ss
      → f ss ≡ ok ss'
      → Stocked pr.cipher pr.hash 0 max b ss'
      → Works max b (call_ss f) hs
  call-Works max b f hs ss ss' there made wf = (
    record hs { ss = some ss' },
    ap (λ o. on_ss f o hs) there ∙ ap (λ r. store_ss r hs) made,
    (ss', refl, wf),
  )

module _ {Aead Keypair PublicKey Rng : Type 0} (pr : Protocol Aead Keypair PublicKey Rng)
    (claws : CipherLaws pr.cipher) (hlaws : HashLaws pr.hash) (big : 32 ≤ pr.hash.size) where
  mix_hash-Works :
      (max : ℕ) (keyed : Bool) (b : Bytes) (hs : State pr)
      → Sound pr max keyed hs
      → Works pr max keyed (mix_hash_call pr b) hs
  mix_hash-Works max keyed b hs (ss, there, wf) =
      call-Works pr max keyed (λ s. ok (mix_hash pr.hash b s)) hs ss (mix_hash pr.hash b ss) there
        refl (mix_hash-Stocked pr.cipher pr.hash claws hlaws big 0 max keyed b ss wf)

  mix_if_psk-Works :
      (psk : Bool) (max : ℕ) (keyed : Bool) (b : Bytes) (hs : State pr)
      → Sound pr max keyed hs
      → Works pr max (keyed_after psk keyed token_e) (if psk then mix_key_call pr b else pure tt) hs
  mix_if_psk-Works true max keyed b hs (ss, there, wf) =
      let (ss', mixed, wf') =
        mix_key-Stocked pr.cipher pr.hash claws hlaws big 0 max keyed b ss wf in
      call-Works pr max true (mix_key pr.cipher pr.hash b) hs ss ss' there mixed wf'
  mix_if_psk-Works false max keyed b hs sound = (hs, refl, sound)

  pre_token-Works :
      (max : ℕ) (b : Bool) (keys : SideKeys PublicKey) (v : Token) (hs : State pr)
      → HasKey pr keys v
      → Sound pr max b hs
      → Works pr max (keyed_after (uses_psk pr) b v) (pre_token pr keys v) hs
  unfolding pre_token
  pre_token-Works max b keys token_e hs (pk, there) sound =
      let bytes = pr.dh.to_bytes pk in
      let (hs', works, sound') =
        in_turn pr max b (keyed_after (uses_psk pr) b token_e) (mix_hash_call pr bytes)
          (mix_if_psk pr bytes) hs (mix_hash-Works max b bytes hs sound)
          (mix_if_psk-Works (uses_psk pr) max b bytes) in
      (hs', ap (λ o. mix_e pr o keys.side hs) there ∙ works, sound')
  pre_token-Works max b keys token_s hs (pk, there) sound =
      let (hs', works, sound') = mix_hash-Works max b (pr.dh.to_bytes pk) hs sound in
      (hs', ap (λ o. mix_s pr o keys.side hs) there ∙ works, sound')
  pre_token-Works max b keys _ hs h sound = absurd h

  pre_message-Works :
      (max : ℕ) (b : Bool) (keys : SideKeys PublicKey) (msg : Message) (hs : State pr)
      → HasKeys pr keys msg
      → Sound pr max b hs
      → Works pr max (keyed_message (uses_psk pr) b msg) (pre_message pr keys msg) hs
  unfolding pre_message
  pre_message-Works max b keys [] hs h sound = (hs, refl, sound)
  pre_message-Works max b keys (v ∷ msg) hs (h, rest) sound =
      let b' = keyed_after (uses_psk pr) b v in
      in_turn pr max b' (keyed_message (uses_psk pr) b' msg) (pre_token pr keys v)
        (pre_message pr keys msg) hs (pre_token-Works max b keys v hs h sound)
        (λ hs'. pre_message-Works max b' keys msg hs' rest)

  pre_messages-Works :
      (max : ℕ) (b : Bool) (sides : List (SideKeys PublicKey)) (msgs : List Message) (hs : State pr)
      → HaveKeys pr sides msgs
      → Sound pr max b hs
      → Works pr max
          (keyed_messages (uses_psk pr) b (take (length sides) msgs))
          (pre_messages pr sides msgs)
          hs
  unfolding pre_messages
  pre_messages-Works max b [] msgs hs h sound = (hs, refl, sound)
  pre_messages-Works max b (keys ∷ sides) [] hs h sound = (hs, refl, sound)
  pre_messages-Works max b (keys ∷ sides) (msg ∷ msgs) hs (h, rest) sound =
      let b' = keyed_message (uses_psk pr) b msg in
      in_turn pr max b' (keyed_messages (uses_psk pr) b' (take (length sides) msgs))
        (pre_message pr keys msg) (pre_messages pr sides msgs) hs
        (pre_message-Works max b keys msg hs h sound)
        (λ hs'. pre_messages-Works max b' sides msgs hs' rest)

  length-side_keys : (hs : State pr) → length (side_keys pr hs) ≡ 2
  unfolding side_keys
  length-side_keys hs = ground arith

  pub new_handshake_ready :
      (cfg : HandshakeConfig Keypair PublicKey Rng)
      → IsReady pr cfg
      → (hs : State pr) × (new_handshake pr cfg ≡ ok hs)
        × Sound pr
            (get_max_message_size cfg.max_message_size)
            (keyed_messages (uses_psk pr) false (take 2 pr.pattern_of.pre_messages))
            hs
  unfolding new_handshake started handle_pre_messages initial_state side_keys
  new_handshake_ready cfg ready =
      let max = get_max_message_size cfg.max_message_size in
      let (ss, begun, wf, within) =
        initialize_symmetric_starts pr.cipher pr.hash claws hlaws big (protocol_string pr) max in
      let first = initial_state pr cfg (some (mix_hash pr.hash cfg.prologue ss)) in
      let (hs, works, sound) =
        pre_messages-Works max false (side_keys pr first) pr.pattern_of.pre_messages first
          ((HaveKeys-HoldsKeys pr cfg first.ss pr.pattern_of.pre_messages).1 ready.keys)
          (
            mix_hash pr.hash cfg.prologue ss,
            refl,
            mix_hash-Stocked pr.cipher pr.hash claws hlaws big 0 max false cfg.prologue ss
                (record { wf = wf; within = within }),
          ) in
      let begin =
        initialize_symmetric pr.cipher pr.hash (protocol_string pr)
          (new_symmetric_state (get_max_message_size cfg.max_message_size)) in
      (
        hs,
        ap
              (λ b.
                if not b
                then err missing_psk
                else if not (are_keys pr cfg.pre_shared_keys)
                then err bad_psk
                else started pr cfg begin)
              ((==_iff pr.pattern_of.num_psks (length cfg.pre_shared_keys)).1 (sym ready.count))
            ∙ ap (λ b. if not b then err bad_psk else started pr cfg begin)
                (are_keys-ArePsks pr cfg.pre_shared_keys ready.sizes)
            ∙ ap (started pr cfg) begun
            ∙ ap (made pr) works,
        subst
            (λ n.
              Sound pr max (keyed_messages (uses_psk pr) false (take n pr.pattern_of.pre_messages))
                hs)
            (length-side_keys first) sound,
      )
