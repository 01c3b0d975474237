-- ===== src/CipherState/Nonces.antt =====
-- The nonces that EncryptWithAd hands to the AEAD's Seal, over a sequence of calls.
use nyquist.Base.{
  refl, true, false, ok, err, panic, Bool, ◌≡◌, ◌+◌, arith, ◌<◌, ◌++◌, if◌then◌else◌, Bytes, ◌≤◌,
  Result, List, ℕ, [], ◌∷◌, map, ap, sym, ◌∙◌,
}
use mathlib.Core.List.{map-append}
use mathlib.Core.Path.{subst}
use nyquist.Crypto.{Error, Cipher}
use nyquist.CipherState.{
  CipherState, has_key, encrypt_with_ad, decrypt_with_ad, rekey, reset, maxnonce,
}
use nyquist.CipherState.Invariant.{
  apply-IsWf, IsWf, Call, initialize, at_nonce, encrypt, decrypt, new_key, clear, apply,
}

-- Numbers from `lo` on, below the reserved nonce, each above the one before it.
abbrev pub Rising : ℕ → List ℕ → Type 0
Rising lo [] = Unit
Rising lo (n ∷ ns) = (lo ≤ n) × (n < maxnonce) × Rising (n + 1) ns

module _ {Aead : Type 0} (cipher : Cipher Aead) where
  -- A call that sets no nonce: neither InitializeKey nor SetNonce.
  abbrev pub Steady : Call cipher → Type 0
  Steady (initialize key) = ⊥
  Steady (at_nonce n h) = ⊥
  Steady _ = Unit

  abbrev pub AllSteady : List (Call cipher) → Type 0
  AllSteady [] = Unit
  AllSteady (c ∷ calls) = Steady c × AllSteady calls

  -- The cipher whose Seal returns the nonce that it is given.
  abbrev watched : Cipher Aead
  watched = record cipher { seal = λ aead nonce plaintext ad. nonce }

  abbrev returned : Result Error Bytes → List Bytes
  returned (ok out) = out ∷ []
  returned _ = []

  -- The nonce that a call hands to the AEAD's Seal: what EncryptWithAd of a keyed state appends to an
  -- empty slice where Seal returns its nonce.
  abbrev pub sealed : Call cipher → CipherState Aead → List Bytes
  sealed (encrypt dst ad p) cs =
      if has_key cs then returned (encrypt_with_ad watched [] ad p cs).0 else []
  sealed _ cs = []

  -- All of them, over a sequence of calls.
  pub sealed_all : List (Call cipher) → CipherState Aead → List Bytes
  sealed_all [] cs = []
  sealed_all (c ∷ calls) cs = sealed c cs ++ sealed_all calls (apply cipher c cs)

  -- The numbers of these nonces: the state's own at each keyed call that succeeds.
  abbrev if_ok : Result Error Bytes → ℕ → List ℕ
  if_ok (ok c) n = n ∷ []
  if_ok _ n = []

  abbrev counted : Call cipher → CipherState Aead → List ℕ
  counted (encrypt dst ad p) cs =
      if has_key cs then if_ok (encrypt_with_ad cipher dst ad p cs).0 cs.n else []
  counted _ cs = []

  counted_all : List (Call cipher) → CipherState Aead → List ℕ
  counted_all [] cs = []
  counted_all (c ∷ calls) cs = counted c cs ++ counted_all calls (apply cipher c cs)

  sealed-counted :
      (c : Call cipher) (cs : CipherState Aead)
      → sealed c cs ≡ map cipher.encode_nonce (counted c cs)
  unfolding encrypt_with_ad
  sealed-counted (encrypt dst ad p) cs = ground arith
  sealed-counted (initialize key) cs = refl
  sealed-counted (at_nonce n h) cs = refl
  sealed-counted (decrypt dst ad c) cs = refl
  sealed-counted new_key cs = refl
  sealed-counted clear cs = refl

  sealed_all-counted :
      (calls : List (Call cipher)) (cs : CipherState Aead)
      → sealed_all calls cs ≡ map cipher.encode_nonce (counted_all calls cs)
  unfolding sealed_all counted_all
  sealed_all-counted [] cs = refl
  sealed_all-counted (c ∷ calls) cs =
      ap (λ l. l ++ sealed_all calls (apply cipher c cs)) (sealed-counted c cs)
      ∙ ap (λ l. map cipher.encode_nonce (counted c cs) ++ l)
          (sealed_all-counted calls (apply cipher c cs))
      ∙ sym (map-append cipher.encode_nonce (counted c cs) (counted_all calls (apply cipher c cs)))

  Rising-weaken : (lo hi : ℕ) (ns : List ℕ) → lo ≤ hi → Rising hi ns → Rising lo ns
  Rising-weaken lo hi [] h r = tt
  Rising-weaken lo hi (n ∷ ns) h r = (omega (arith, r.0), r.1, r.2)

  encrypt-n :
      (dst ad p out : Bytes) (cs : CipherState Aead)
      → IsWf cipher cs
      → has_key cs ≡ true
      → (encrypt_with_ad cipher dst ad p cs).0 ≡ ok out
      → (cs.n < maxnonce) × ((encrypt_with_ad cipher dst ad p cs).1.n ≡ cs.n + 1)
  unfolding encrypt_with_ad
  encrypt-n dst ad p out cs wf key h = ground (arith, wf.nonce)

  n-le-apply :
      (c : Call cipher) (cs : CipherState Aead)
      → IsWf cipher cs
      → Steady c
      → cs.n ≤ (apply cipher c cs).n
  unfolding encrypt_with_ad decrypt_with_ad rekey reset
  n-le-apply (encrypt dst ad p) cs wf st = ground (arith, wf.nonce)
  n-le-apply (decrypt dst ad c) cs wf st = ground (arith, wf.nonce)
  n-le-apply new_key cs wf st = ground arith
  n-le-apply clear cs wf st = ground arith
  n-le-apply _ cs wf st = absurd st

  Rising-counted :
      (c : Call cipher) (cs : CipherState Aead) (ns : List ℕ)
      → IsWf cipher cs
      → Steady c
      → Rising (apply cipher c cs).n ns
      → Rising cs.n (counted c cs ++ ns)
  Rising-counted (encrypt dst ad p) cs ns wf st r =
      go (has_key cs) refl (encrypt_with_ad cipher dst ad p cs).0 refl
    where
      go :
          (key : Bool)
          → has_key cs ≡ key
          → (res : Result Error Bytes) → (encrypt_with_ad cipher dst ad p cs).0 ≡ res
          → Rising cs.n ((if key then if_ok res cs.n else []) ++ ns)
      go true k (ok out) h =
          let (below, next) = encrypt-n dst ad p out cs wf k h in
          (omega arith, below, subst (λ m. Rising m ns) next r)
      go true k (err e) h = Rising-weaken _ _ ns (n-le-apply (encrypt dst ad p) cs wf st) r
      go true k panic h = Rising-weaken _ _ ns (n-le-apply (encrypt dst ad p) cs wf st) r
      go false k res h = Rising-weaken _ _ ns (n-le-apply (encrypt dst ad p) cs wf st) r
  Rising-counted (decrypt dst ad c) cs ns wf st r =
      Rising-weaken _ _ ns (n-le-apply (decrypt dst ad c) cs wf st) r
  Rising-counted new_key cs ns wf st r = Rising-weaken _ _ ns (n-le-apply new_key cs wf st) r
  Rising-counted clear cs ns wf st r = Rising-weaken _ _ ns (n-le-apply clear cs wf st) r
  Rising-counted _ cs ns wf st r = absurd st

  counted_all-Rising :
      (calls : List (Call cipher)) (cs : CipherState Aead)
      → IsWf cipher cs
      → AllSteady calls
      → Rising cs.n (counted_all calls cs)
  unfolding counted_all
  counted_all-Rising [] cs wf st = tt
  counted_all-Rising (c ∷ calls) cs wf st =
      Rising-counted c cs (counted_all calls (apply cipher c cs)) wf st.0
        (counted_all-Rising calls (apply cipher c cs) (apply-IsWf cipher c cs wf) st.1)

  -- From any well-formed state, over any calls but InitializeKey and SetNonce (failed ones, Rekey
  -- and Reset among them), the nonces that EncryptWithAd hands to Seal are the encodings of numbers
  -- that start at the state's nonce or above, strictly increase, and stay below the nonce 2^64 - 1
  -- that Rekey uses.
  pub sealed_all-Rising :
      (calls : List (Call cipher)) (cs : CipherState Aead)
      → IsWf cipher cs
      → AllSteady calls
      → (ns : List ℕ) × (sealed_all calls cs ≡ map cipher.encode_nonce ns) × Rising cs.n ns
  sealed_all-Rising calls cs wf st =
      (counted_all calls cs, sealed_all-counted calls cs, counted_all-Rising calls cs wf st)
