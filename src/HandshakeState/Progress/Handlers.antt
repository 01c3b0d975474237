-- ===== src/HandshakeState/Progress/Handlers.antt =====
-- The handlers of the tokens, on a writer that has what they take.
use nyquist.Base.{
  get_elem?_total, ◌+◌, ◌<◌, ◌≤◌, ◌≡◌, ◌≢◌, ℕ, Option, none, some, Bytes, ok, refl, ap, ◌∙◌, sym,
  length, Bool, true, false, not, if◌then◌else◌,
}
use nyquist.Base.Exec.{bind_same}
use nyquist.Pattern.{token_ee, token_es, token_se, token_ss}
use nyquist.Crypto.{DhSupplies, CipherLaws, HashLaws, DhLaws}
use nyquist.SymmetricState.{mix_key_and_hash}
use nyquist.SymmetricState.Progress.{mix_key_and_hash-Stocked}
use nyquist.HandshakeState.{Protocol, Held}
use nyquist.HandshakeState.Tokens.{
  State, call_ss, mix_key_call, mix_dh, or_fail, mix_psk, on_token_ee, on_token_es, on_token_se,
  on_token_ss, on_token_psk,
}
use nyquist.HandshakeState.Sync.{MadeHeld, Known, Mirror, Readable}
use nyquist.HandshakeState.Progress.{SsStocked, Mixed}
use nyquist.HandshakeState.Progress.Mixing.{call-Mixed, mix_key-Mixed, renewed}

module _ {Aead Keypair PublicKey Rng : Type 0} (pr : Protocol Aead Keypair PublicKey Rng)
    (claws : CipherLaws pr.cipher) (hlaws : HashLaws pr.hash) (dlaws : DhLaws pr.dh)
    (big : 32 ≤ pr.hash.size) where
  -- A DH calculation with the other party's key.
  mix_dh-Mixed :
      (k max : ℕ) (keyed : Bool) (kp_w kp_r : Option (Held Keypair)) (pk_w pk_r : Option PublicKey)
      (w : State pr)
      → DhSupplies pr.dh
      → MadeHeld pr kp_w
      → MadeHeld pr kp_r
      → Known pr pk_w kp_r
      → Known pr pk_r kp_w
      → pk_w ≢ none
      → pk_r ≢ none
      → SsStocked pr k max keyed w.ss
      → Mixed pr k max true (mix_dh pr kp_w pk_w w) w
  mix_dh-Mixed k max keyed a b none y w supplies ma mb ka kb has_w has_r stock = absurd (has_w refl)
  mix_dh-Mixed k max keyed a b (some x) none w supplies ma mb ka kb has_w has_r stock =
      absurd (has_r refl)
  mix_dh-Mixed k max keyed a none (some x) (some y) w supplies ma mb ka kb has_w has_r stock =
      absurd ka
  mix_dh-Mixed k max keyed none (some b) (some x) (some y) w supplies ma mb ka kb has_w has_r
        stock =
      absurd kb
  mix_dh-Mixed k max keyed (some a) (some b) (some x) (some y) w supplies ma mb ka kb has_w has_r
        stock =
      let (secret, agreed) = supplies.agrees a.pair b.pair ma mb in
      let mixed = mix_key-Mixed pr claws hlaws dlaws big k max keyed secret w stock in
      record {
        ss = mixed.ss;
        did =
            bind_same (or_fail (pr.dh.agree a.pair (some x))) (mix_key_call pr) w w secret (
              ap (λ t. or_fail (pr.dh.agree a.pair (some t)) w) (sym ka)
              ∙ ap (λ t. or_fail t w) agreed)
            ∙ mixed.did;
        stock = mixed.stock;
      }

  -- Each DH token, of a writer and a reader who hold each other's keys.
  pub ee-Mixed :
      (k max : ℕ) (keyed : Bool) (w r : State pr)
      → DhSupplies pr.dh
      → Mirror pr w r
      → Readable pr token_ee w
      → Readable pr token_ee r
      → SsStocked pr k max keyed w.ss
      → Mixed pr k max true (on_token_ee pr w) w
  unfolding on_token_ee
  ee-Mixed k max keyed w r supplies mir =
      mix_dh-Mixed k max keyed w.e r.e w.re r.re w supplies mir.w_e mir.r_e mir.w_re mir.r_re

  pub ss-Mixed :
      (k max : ℕ) (keyed : Bool) (w r : State pr)
      → DhSupplies pr.dh
      → Mirror pr w r
      → Readable pr token_ss w
      → Readable pr token_ss r
      → SsStocked pr k max keyed w.ss
      → Mixed pr k max true (on_token_ss pr w) w
  unfolding on_token_ss
  ss-Mixed k max keyed w r supplies mir =
      mix_dh-Mixed k max keyed w.s r.s w.rs r.rs w supplies mir.w_s mir.r_s mir.w_rs mir.r_rs

  -- The branches of `es` and of `se` by the writer's role.
  branch-Mixed :
      (role other : Bool) (k max : ℕ) (keyed : Bool) (ka kb kc kd : Option (Held Keypair))
      (pa pb pc pd : Option PublicKey) (w : State pr)
      → DhSupplies pr.dh
      → other ≡ not role
      → MadeHeld pr ka
      → MadeHeld pr kb
      → MadeHeld pr kc
      → MadeHeld pr kd
      → Known pr pa kd
      → Known pr pd ka
      → Known pr pb kc
      → Known pr pc kb
      → (if role then pa ≢ none else pb ≢ none)
      → (if other then pc ≢ none else pd ≢ none)
      → SsStocked pr k max keyed w.ss
      → Mixed pr k max true (if role then mix_dh pr ka pa w else mix_dh pr kb pb w) w
  branch-Mixed true true k max keyed ka kb kc kd pa pb pc pd w supplies roles ma mb mc md k1 k2 k3
        k4 =
      cc
  branch-Mixed false false k max keyed ka kb kc kd pa pb pc pd w supplies roles ma mb mc md k1 k2 k3
        k4 =
      cc
  branch-Mixed true false k max keyed ka kb kc kd pa pb pc pd w supplies roles ma mb mc md k1 k2 k3
        k4 =
      mix_dh-Mixed k max keyed ka kd pa pd w supplies ma md k1 k2
  branch-Mixed false true k max keyed ka kb kc kd pa pb pc pd w supplies roles ma mb mc md k1 k2 k3
        k4 =
      mix_dh-Mixed k max keyed kb kc pb pc w supplies mb mc k3 k4

  pub es-Mixed :
      (k max : ℕ) (keyed : Bool) (w r : State pr)
      → DhSupplies pr.dh
      → Mirror pr w r
      → Readable pr token_es w
      → Readable pr token_es r
      → SsStocked pr k max keyed w.ss
      → Mixed pr k max true (on_token_es pr w) w
  unfolding on_token_es
  es-Mixed k max keyed w r supplies mir =
      branch-Mixed w.cfg.is_initiator r.cfg.is_initiator k max keyed w.e w.s r.e r.s w.rs w.re r.rs
        r.re w supplies mir.roles mir.w_e mir.w_s mir.r_e mir.r_s mir.w_rs mir.r_re mir.w_re
        mir.r_rs

  pub se-Mixed :
      (k max : ℕ) (keyed : Bool) (w r : State pr)
      → DhSupplies pr.dh
      → Mirror pr w r
      → Readable pr token_se w
      → Readable pr token_se r
      → SsStocked pr k max keyed w.ss
      → Mixed pr k max true (on_token_se pr w) w
  unfolding on_token_se
  se-Mixed k max keyed w r supplies mir =
      branch-Mixed w.cfg.is_initiator r.cfg.is_initiator k max keyed w.s w.e r.s r.e w.re w.rs r.re
        r.rs w supplies mir.roles mir.w_s mir.w_e mir.r_s mir.r_e mir.w_re mir.r_rs mir.w_rs
        mir.r_re

  mix_psk-Mixed :
      (k max : ℕ) (keyed : Bool) (psk : Bytes) (w : State pr)
      → SsStocked pr k max keyed w.ss
      → Mixed pr k max true (call_ss (mix_key_and_hash pr.cipher pr.hash psk) w) w
  mix_psk-Mixed k max keyed psk w =
      call-Mixed pr claws hlaws dlaws big k max keyed true (mix_key_and_hash pr.cipher pr.hash psk)
        w
        λ ss q.
          let (ss', made, stock) =
            mix_key_and_hash-Stocked pr.cipher pr.hash claws hlaws big k max keyed psk ss q in
          (ss', made, renewed pr claws hlaws dlaws big k max ss' stock)

  -- `psk` while a pre-shared key is left.
  pub psk_succeeds :
      (k max : ℕ) (keyed : Bool) (w : State pr)
      → w.psk_index < length w.cfg.pre_shared_keys
      → SsStocked pr k max keyed w.ss
      → (w' : State pr) × (on_token_psk pr w ≡ (ok tt, w'))
        × SsStocked pr k max true w'.ss
        × (w'.psk_index ≡ w.psk_index + 1)
  unfolding on_token_psk
  psk_succeeds k max keyed w left stock =
      let (psk, there) = get_elem?_total w.cfg.pre_shared_keys w.psk_index left in
      let mixed = mix_psk-Mixed k max keyed psk w stock in
      (
        record w { ss = some mixed.ss; psk_index = w.psk_index + 1 },
        ap (λ o. mix_psk pr o w) there
            ∙ bind_same (call_ss (mix_key_and_hash pr.cipher pr.hash psk))
                (λ _ (hs : State pr). (ok tt, record hs { psk_index = hs.psk_index + 1 })) w
                (record w { ss = some mixed.ss }) tt mixed.did,
        mixed.stock,
        refl,
      )
