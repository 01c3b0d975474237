-- ===== src/Dh/Laws.antt =====
-- What is said of the curves and of the source of entropy, and the interface's laws for dh/dh.go.
use nyquist.Base.{
  ◌≢◌, ◌⊎◌, sym, ◌∙◌, if◌then◌else◌, true, some, ℕ, ◌≡◌, Bytes, Result, ok, err, panic, refl, ap,
  subst, length, ◌==◌, ==_iff, Bool-cases, inl, inr, arith, ok-injective,
}
use nyquist.Crypto.{
  malformed_private_key, malformed_public_key, mismatched_public_key, DhLaws, Error, Made,
}
use nyquist.Dh.X448.{generate_448, parse_private_448, parse_public_448, x448}
use nyquist.Dh.{
  curve25519, curve448, x25519, PublicKey, to_bytes, public, unmarshal_public, agree, kind_eq,
  marshal_private, parse_public, Kind, size, Keypair, Curve, ReadFull, unmarshal_private,
  parse_private, read_key, generate, functions,
}

-- Points and shared secrets have the size of the field, and both parties calculate one secret.
pub record CurveLaws (n : ℕ) (c : Curve) : Type 0 where
  pub length-base : (k : Bytes) → length k ≡ n → length (c.scalar_base_mult k) ≡ n
  pub mult_comm :
      (j k : Bytes)
      → length j ≡ n
      → length k ≡ n
      → c.scalar_mult j (c.scalar_base_mult k) ≡ c.scalar_mult k (c.scalar_base_mult j)

-- `io.ReadFull` returns without an error only if it has filled the buffer.
abbrev pub Fills : {Rng : Type 0} → ReadFull Rng → Type 0
Fills {Rng} read_full =
    (n : ℕ) (rng rng' : Rng) (b : Bytes) → read_full n rng ≡ (ok b, rng') → length b ≡ n

module _ (curves : Kind → Curve) where
  -- A keypair whose public key belongs to its private key.
  pub record IsKeypair (kind : Kind) (kp : Keypair) : Type 0 where
    pub kind_of : kp.kind ≡ kind
    pub private_size : length kp.raw_private_key ≡ size kind
    pub derived : kp.raw_public_key ≡ (curves kind).scalar_base_mult kp.raw_private_key

  parse_private-IsKeypair :
      (kind : Kind) (b : Bytes) (kp : Keypair)
      → parse_private curves kind b ≡ ok kp
      → IsKeypair kind kp
  unfolding parse_private unmarshal_private
  parse_private-IsKeypair kind b kp p = elim (Bool-cases (length b == size kind)) [
    | inl q ↦
        let whole : record {
          kind = kind;
          raw_private_key = b;
          raw_public_key = (curves kind).scalar_base_mult b;
        }
            ≡ kp =
          ground (arith, p) in
        subst (IsKeypair kind) whole (record {
          kind_of = refl;
          private_size = (==_iff (length b) (size kind)).0 q;
          derived = refl;
        })
    | inr q ↦ absurd (ground arith)
  ]

module _ {Rng : Type 0} (curves : Kind → Curve) (read_full : ReadFull Rng)
    (fills : Fills read_full) where
  generate-IsKeypair :
      (kind : Kind) (rng rng' : Rng) (kp : Keypair)
      → generate curves read_full kind rng ≡ (ok kp, rng')
      → IsKeypair curves kind kp
  unfolding generate
  generate-IsKeypair kind rng rng' kp p =
      go (read_full (size kind) rng).0 (read_full (size kind) rng).1 refl p
    where
      go :
          (r : Result Error Bytes) (rng1 : Rng)
          → read_full (size kind) rng ≡ (r, rng1)
          → read_key curves read_full kind (r, rng1) ≡ (ok kp, rng')
          → IsKeypair curves kind kp
      go (ok b) rng1 e q =
          subst (IsKeypair curves kind)
            (ok-injective (ap (λ (t : Result Error Keypair × Rng). t.0) q))
            (record {
              kind_of = refl;
              private_size = fills (size kind) rng rng1 b e;
              derived = refl;
            })
      go (err e) rng1 _ q = cc
      go panic rng1 _ q = cc

  pub Made-IsKeypair :
      (kind : Kind) (kp : Keypair)
      → Made (functions curves read_full kind) kp
      → IsKeypair curves kind kp
  unfolding functions
  Made-IsKeypair kind kp (Made.generated rng rng' p) = generate-IsKeypair kind rng rng' kp p
  Made-IsKeypair kind kp (Made.parsed b p) = parse_private-IsKeypair curves kind b kp p

parse_public_ok :
    (kind : Kind) (b : Bytes)
    → length b ≡ size kind
    → parse_public kind b ≡ ok (record { kind = kind; raw_public_key = b })
unfolding parse_public unmarshal_public
parse_public_ok kind b h = rw ((==_iff (length b) (size kind)).1 h) refl

-- ParsePublicKey takes exactly the byte strings of the key size, and Bytes of the key gives them
-- back; ParsePrivateKey takes exactly those too, and MarshalBinary of the keypair gives them back.
-- Any other length is the error for a malformed key of its sort.
pub parse_outcomes :
    (curves : Kind → Curve) (kind : Kind) (b : Bytes)
    → ((length b ≡ size kind)
        × (pk : PublicKey) × (parse_public kind b ≡ ok pk)
        × (to_bytes pk ≡ b)
        × (kp : Keypair) × (parse_private curves kind b ≡ ok kp)
        × (marshal_private kp ≡ b))
      ⊎ ((length b ≢ size kind)
          × (parse_public kind b ≡ err malformed_public_key)
          × (parse_private curves kind b ≡ err malformed_private_key))
unfolding parse_public unmarshal_public parse_private unmarshal_private to_bytes marshal_private
parse_outcomes curves kind b = elim (Bool-cases (length b == size kind)) [
  | inl q ↦ inl (
    (==_iff (length b) (size kind)).0 q,
    record { kind = kind; raw_public_key = b },
    rw q refl,
    refl,
    record { kind = kind; raw_private_key = b; raw_public_key = (curves kind).scalar_base_mult b },
    rw q refl,
    refl,
  )
  | inr q ↦ inr ((λ h. cc (q, (==_iff (length b) (size kind)).1 h)), rw q refl, rw q refl)
]

kind_eq_refl : (kind : Kind) → kind_eq kind kind ≡ true
kind_eq_refl curve25519 = refl
kind_eq_refl curve448 = refl

-- DH of a keypair and its partner's public key, once the type assertion has succeeded.
pub agree_same :
    (curves : Kind → Curve) (kind : Kind) (a b : Keypair)
    → IsKeypair curves kind a
    → IsKeypair curves kind b
    → agree curves a (some (public b))
      ≡ ok (
          (curves kind).scalar_mult a.raw_private_key
            ((curves kind).scalar_base_mult b.raw_private_key))
unfolding agree public
agree_same curves kind a b ka kb =
    ap
      (λ k.
        if kind_eq k b.kind
        then ok ((curves k).scalar_mult a.raw_private_key b.raw_public_key)
        else err mismatched_public_key)
      ka.kind_of
    ∙ ap
        (λ k.
          if kind_eq kind k
          then ok ((curves kind).scalar_mult a.raw_private_key b.raw_public_key)
          else err mismatched_public_key)
        kb.kind_of
    ∙ ap
        (λ t.
          if t
          then ok ((curves kind).scalar_mult a.raw_private_key b.raw_public_key)
          else err mismatched_public_key)
        (kind_eq_refl kind)
    ∙ ap (λ x. ok ((curves kind).scalar_mult a.raw_private_key x)) kb.derived

module _ {Rng : Type 0} (curves : Kind → Curve) (read_full : ReadFull Rng)
    (fills : Fills read_full) where
  -- If `io.ReadFull` fills its buffer, then ParsePrivateKey of what MarshalBinary gives of a keypair
  -- that GenerateKeypair or ParsePrivateKey returned is that keypair, its public key derived anew.
  pub parse-marshal_private :
      (kind : Kind) (kp : Keypair)
      → Made (functions curves read_full kind) kp
      → parse_private curves kind (marshal_private kp) ≡ ok kp
  unfolding parse_private unmarshal_private marshal_private
  parse-marshal_private kind kp m =
      let is = Made-IsKeypair curves read_full fills kind kp m in
      let k = kp.raw_private_key in
      let base = (curves kind).scalar_base_mult k in
      rw ((==_iff (length k) (size kind)).1 is.private_size) refl
      ∙ ap (λ x. ok (record { kind = x; raw_private_key = k; raw_public_key = base }))
          (sym is.kind_of)
      ∙ ap (λ x. ok (record { kind = kp.kind; raw_private_key = k; raw_public_key = x }))
          (sym is.derived)

  functions-DhLaws :
      (kind : Kind) → CurveLaws (size kind) (curves kind) → DhLaws (functions curves read_full kind)
  unfolding functions agree to_bytes public
  functions-DhLaws kind laws = record {
    length-to_bytes = λ kp m. public_size kp (Made-IsKeypair curves read_full fills kind kp m);
    parse-to_bytes = λ kp m.
        let is = Made-IsKeypair curves read_full fills kind kp m in
        parse_public_ok kind kp.raw_public_key (public_size kp is)
        ∙ ap (λ k. ok (record { kind = k; raw_public_key = kp.raw_public_key })) (sym is.kind_of);
    agree_comm = λ a b ma mb.
        let ia = Made-IsKeypair curves read_full fills kind a ma in
        let ib = Made-IsKeypair curves read_full fills kind b mb in
        agree_same curves kind a b ia ib
        ∙ ap ok (laws.mult_comm a.raw_private_key b.raw_private_key ia.private_size ib.private_size)
        ∙ sym (agree_same curves kind b a ib ia);
    agree_nil = λ a. (mismatched_public_key, refl);
  }
    where
      public_size : (kp : Keypair) → IsKeypair curves kind kp → length kp.raw_public_key ≡ size kind
      public_size kp is = ap length is.derived ∙ laws.length-base kp.raw_private_key is.private_size

  -- X25519 and X448 keep the laws that a handshake wants of its DH function, if `io.ReadFull` fills
  -- its buffer, base points' multiples have the field's size and the multiplications commute.
  pub x25519_and_x448-DhLaws :
      CurveLaws 32 (curves curve25519)
      → CurveLaws 56 (curves curve448)
      → DhLaws (x25519 curves read_full) × DhLaws (x448 curves read_full)
  unfolding x25519 x448 generate_448 parse_private_448 parse_public_448 functions
  x25519_and_x448-DhLaws short long =
      (functions-DhLaws curve25519 short, functions-DhLaws curve448 long)
