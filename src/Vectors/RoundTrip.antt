-- ===== src/Vectors/RoundTrip.antt =====
-- MarshalText and UnmarshalText of a HexBuffer, one after the other.
use nyquist.Base.{
  ℕ, ◌+◌, ◌*◌, ◌/◌, ◌%◌, ◌<◌, ◌≡◌, ◌≢◌, some, [], ◌∷◌, Bytes, Result, ok, err, panic, refl, sym, ap,
  ◌∙◌, arith, leb, inl, inr, subst, ok-injective, is_some, Bool, true, false, Option, none, map,
  ◌&&◌, ◌⊎◌, ◌↔◌, if◌then◌else◌,
}
use nyquist.Vectors.{
  HexError, invalid_byte, odd_length, HexBuffer, bytes_of, hex_digit, hex_value, encode, decode,
  pair, prepend, marshal_text, unmarshal_text, stored, nil_if_empty,
}

-- Bytes of eight bits.
abbrev pub AreBytes : Bytes → Type 0
AreBytes [] = Unit
AreBytes (b ∷ bs) = (b < 256) × AreBytes bs

hex_value-hex_digit : (n : ℕ) → n < 16 → hex_value (hex_digit n) ≡ some n
hex_value-hex_digit n h = ground arith

decode-encode : (bs : Bytes) → AreBytes bs → decode (encode bs) ≡ ok bs
decode-encode [] small = refl
decode-encode (b ∷ bs) (now, later) =
    let high = hex_digit (b / 16) in
    let low = hex_digit (b % 16) in
    ap (λ o. pair o (hex_value low) high low (decode (encode bs)))
      (hex_value-hex_digit (b / 16) (omega (arith, now)))
    ∙ ap (λ o. pair (some (b / 16)) o high low (decode (encode bs)))
        (hex_value-hex_digit (b % 16) (omega arith))
    ∙ ap (prepend (b / 16 * 16 + b % 16)) (decode-encode bs later)
    ∙ ap (λ n. ok (n ∷ bs)) (omega arith)

bytes_of-nil_if_empty : (b : Bytes) → bytes_of (nil_if_empty b) ≡ b
bytes_of-nil_if_empty [] = refl
bytes_of-nil_if_empty (c ∷ b) = refl

nil_if_empty_iff : (b : Bytes) → (nil_if_empty b ≡ none) ↔ (b ≡ [])
nil_if_empty_iff [] = (λ p. refl, λ p. refl)
nil_if_empty_iff (c ∷ b) = (λ p. cc, λ p. cc)

-- UnmarshalText of what MarshalText writes of a buffer of eight-bit bytes returns no error and stores
-- the same bytes in any buffer, and what it stores is the nil slice exactly if there are no bytes.
pub unmarshal_text-marshal_text :
    (x y : HexBuffer)
    → AreBytes (bytes_of x)
    → (z : HexBuffer) × (unmarshal_text (marshal_text x) y ≡ (ok tt, z))
      × (bytes_of z ≡ bytes_of x)
      × ((z ≡ none) ↔ (bytes_of x ≡ []))
unfolding unmarshal_text marshal_text
unmarshal_text-marshal_text x y small = (
  nil_if_empty (bytes_of x),
  ap (λ r. stored r y) (decode-encode (bytes_of x) small),
  bytes_of-nil_if_empty (bytes_of x),
  nil_if_empty_iff (bytes_of x),
)

-- A digit in lower case.
abbrev pub lower : ℕ → ℕ
lower c = if leb b'A' c && leb c b'F' then c + 32 else c

hex_value_inv : (c n : ℕ) → hex_value c ≡ some n → (n < 16) × (hex_digit n ≡ lower c)
hex_value_inv c n h = (ground arith, ground arith)

decode_inv : (s bs : Bytes) → decode s ≡ ok bs → AreBytes bs × (encode bs ≡ map lower s)
decode_inv [] bs p = subst (λ b. AreBytes b × (encode b ≡ [])) (ok-injective p) (tt, refl)
decode_inv (c ∷ []) bs p = absurd (go (is_some (hex_value c)) p)
  where
    go : (b : Bool) → (if b then err odd_length else err (invalid_byte c)) ≡ ok bs → ⊥
    go true q = cc
    go false q = cc
decode_inv (c ∷ d ∷ s) bs p =
    go (hex_value c) (hex_value d) (decode s) refl refl (λ t. decode_inv s t) p
  where
    go :
        (high low : Option ℕ) (rest : Result HexError Bytes)
        → hex_value c ≡ high
        → hex_value d ≡ low
        → ((t : Bytes) → rest ≡ ok t → AreBytes t × (encode t ≡ map lower s))
        → pair high low c d rest ≡ ok bs
        → AreBytes bs × (encode bs ≡ lower c ∷ lower d ∷ map lower s)
    go none low rest e f later q = cc
    go (some h) none rest e f later q = cc
    go (some h) (some l) (err x) e f later q = cc
    go (some h) (some l) panic e f later q = cc
    go (some h) (some l) (ok t) e f later q =
        let (small_h, digit_h) = hex_value_inv c h e in
        let (small_l, digit_l) = hex_value_inv d l f in
        let (small, same) = later t refl in
        let over : (h * 16 + l) / 16 ≡ h = omega (arith, small_l) in
        let under : (h * 16 + l) % 16 ≡ l = omega (arith, small_l) in
        subst (λ b. AreBytes b × (encode b ≡ lower c ∷ lower d ∷ map lower s)) (ok-injective q)
          (
            (omega (arith, small_h, small_l), small),
            ap (λ n. hex_digit n ∷ hex_digit ((h * 16 + l) % 16) ∷ encode t) over
                ∙ ap (λ n. hex_digit h ∷ hex_digit n ∷ encode t) under
                ∙ ap (λ n. n ∷ hex_digit l ∷ encode t) digit_h
                ∙ ap (λ n. lower c ∷ n ∷ encode t) digit_l
                ∙ ap (λ t'. lower c ∷ lower d ∷ t') same,
          )

decode_total : (s : Bytes) → decode s ≢ panic
decode_total [] p = cc
decode_total (c ∷ []) p = go (is_some (hex_value c)) p
  where
    go :
        (b : Bool)
        → if◌then◌else◌ {A = Result HexError Bytes} b (err odd_length) (err (invalid_byte c))
          ≢ panic
    go true q = cc
    go false q = cc
decode_total (c ∷ d ∷ s) p = go (hex_value c) (hex_value d) (decode s) (decode_total s) p
  where
    go :
        (high low : Option ℕ) (rest : Result HexError Bytes)
        → rest ≢ panic
        → pair high low c d rest ≢ panic
    go none low rest later q = cc
    go (some h) none rest later q = cc
    go (some h) (some l) (ok t) later q = cc
    go (some h) (some l) (err x) later q = cc
    go (some h) (some l) panic later q = later refl

-- UnmarshalText keeps the buffer if it returns an error. If it returns none, the buffer holds
-- eight-bit bytes, and MarshalText of it is the text in lower case.
pub marshal_text-unmarshal_text :
    (text : Bytes) (x : HexBuffer)
    → ((e : HexError) × (unmarshal_text text x ≡ (err e, x)))
      ⊎ ((y : HexBuffer) × (unmarshal_text text x ≡ (ok tt, y))
          × AreBytes (bytes_of y)
          × (marshal_text y ≡ map lower text))
unfolding unmarshal_text marshal_text
marshal_text-unmarshal_text text x = go (decode text) refl
  where
    go :
        (r : Result HexError Bytes)
        → decode text ≡ r
        → ((e : HexError) × (stored r x ≡ (err e, x)))
          ⊎ ((y : HexBuffer) × (stored r x ≡ (ok tt, y))
              × AreBytes (bytes_of y)
              × (encode (bytes_of y) ≡ map lower text))
    go (ok b) e =
        let (small, same) = decode_inv text b e in
        inr (
          nil_if_empty b,
          refl,
          subst AreBytes (sym (bytes_of-nil_if_empty b)) small,
          ap encode (bytes_of-nil_if_empty b) ∙ same,
        )
    go (err e) q = inl (e, refl)
    go panic q = absurd (decode_total text q)
