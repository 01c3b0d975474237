-- ===== src/Protocols/Names.antt =====
-- NewProtocol and the names of protocols.
use nyquist.Base.{
  ◌≡◌, Bool, true, false, Option, none, some, List, [], ◌∷◌, Bytes, codes, bytes_eq, Result, ok,
  err, refl, sym, ap, ◌∙◌, split, join, if◌then◌else◌, Named, lookup-Named, bytes_eq→eq, join-split,
  split-join, AllLack, lookup, ok-injective,
}
use nyquist.Pattern.{Pattern}
use nyquist.Pattern.Validity.{is_valid}
use nyquist.Crypto.{Error, Cipher, Hash, Dh}
use nyquist.HandshakeState.{Protocol}
use nyquist.HandshakeState.Start.{protocol_string}
use nyquist.Protocols.{Registries, assembled, from_parts, new_protocol}

-- A pattern that `IsValid` accepts.
abbrev pub Accepted : Pattern → Type 0
Accepted pa = is_valid pa ≡ ok tt

abbrev pub Whatever : {A : Type 0} → A → Type 0
Whatever a = Unit

module _ {Aead Keypair PublicKey Rng : Type 0} where
  -- Every registered object stands under its own name, and every pattern is valid.
  pub record IsNamed (regs : Registries Aead Keypair PublicKey Rng) : Type 0 where
    pub patterns : Named (λ (pa : Pattern). pa.name) Accepted regs.patterns
    pub dhs : Named (λ (dh : Dh Keypair PublicKey Rng). dh.name) Whatever regs.dhs
    pub ciphers : Named (λ (c : Cipher Aead). c.name) Whatever regs.ciphers
    pub hashes : Named (λ (h : Hash). h.name) Whatever regs.hashes

  assembled_parts :
      (pa : Option Pattern) (dh : Option (Dh Keypair PublicKey Rng)) (c : Option (Cipher Aead))
      (h : Option Hash) (pr : Protocol Aead Keypair PublicKey Rng)
      → assembled pa dh c h ≡ ok pr
      → (pa ≡ some pr.pattern_of) × (dh ≡ some pr.dh) × (c ≡ some pr.cipher) × (h ≡ some pr.hash)
  assembled_parts (some pa) (some dh) (some c) (some h) pr p =
      let e = ok-injective p in
      (
        ap (λ (t : Protocol Aead Keypair PublicKey Rng). some t.pattern_of) e,
        ap (λ (t : Protocol Aead Keypair PublicKey Rng). some t.dh) e,
        ap (λ (t : Protocol Aead Keypair PublicKey Rng). some t.cipher) e,
        ap (λ (t : Protocol Aead Keypair PublicKey Rng). some t.hash) e,
      )
  assembled_parts none dh c h pr p = cc
  assembled_parts (some pa) none c h pr p = cc
  assembled_parts (some pa) (some dh) none h pr p = cc
  assembled_parts (some pa) (some dh) (some c) none pr p = cc

  guarded :
      (b : Bool) (x : Result Error (Protocol Aead Keypair PublicKey Rng)) (e : Error)
      (pr : Protocol Aead Keypair PublicKey Rng)
      → (if b then x else err e) ≡ ok pr
      → (b ≡ true) × (x ≡ ok pr)
  guarded true x e pr p = (refl, p)
  guarded false x e pr p = cc

  -- What NewProtocol has found for the parts of a name.
  pub record Found (regs : Registries Aead Keypair PublicKey Rng) (parts : List Bytes)
      (pr : Protocol Aead Keypair PublicKey Rng) : Type 0 where
    pub pattern_part : Bytes
    pub dh_part : Bytes
    pub cipher_part : Bytes
    pub hash_part : Bytes
    pub whole : parts ≡ codes "Noise" ∷ pattern_part ∷ dh_part ∷ cipher_part ∷ hash_part ∷ []
    pub patterns : lookup pattern_part regs.patterns ≡ some pr.pattern_of
    pub dhs : lookup dh_part regs.dhs ≡ some pr.dh
    pub ciphers : lookup cipher_part regs.ciphers ≡ some pr.cipher
    pub hashes : lookup hash_part regs.hashes ≡ some pr.hash

  pub from_parts-Found :
      (regs : Registries Aead Keypair PublicKey Rng) (parts : List Bytes)
      (pr : Protocol Aead Keypair PublicKey Rng)
      → from_parts regs parts ≡ ok pr
      → Found regs parts pr
  from_parts-Found regs (prefix ∷ p1 ∷ p2 ∷ p3 ∷ p4 ∷ []) pr p =
      let (q, r) =
        guarded (bytes_eq prefix (codes "Noise"))
          (assembled (lookup p1 regs.patterns) (lookup p2 regs.dhs) (lookup p3 regs.ciphers)
            (lookup p4 regs.hashes))
          _ pr p in
      let (found1, found2, found3, found4) =
        assembled_parts (lookup p1 regs.patterns) (lookup p2 regs.dhs) (lookup p3 regs.ciphers)
          (lookup p4 regs.hashes) pr r in
      record {
        pattern_part = p1;
        dh_part = p2;
        cipher_part = p3;
        hash_part = p4;
        whole = ap (λ x. x ∷ p1 ∷ p2 ∷ p3 ∷ p4 ∷ []) (bytes_eq→eq prefix (codes "Noise") q);
        patterns = found1;
        dhs = found2;
        ciphers = found3;
        hashes = found4;
      }
  from_parts-Found regs [] pr p = cc
  from_parts-Found regs (a ∷ []) pr p = cc
  from_parts-Found regs (a ∷ b ∷ []) pr p = cc
  from_parts-Found regs (a ∷ b ∷ c ∷ []) pr p = cc
  from_parts-Found regs (a ∷ b ∷ c ∷ d ∷ []) pr p = cc
  from_parts-Found regs (a ∷ b ∷ c ∷ d ∷ e ∷ f ∷ rest) pr p = cc

  from_parts_named :
      (regs : Registries Aead Keypair PublicKey Rng) (parts : List Bytes)
      (pr : Protocol Aead Keypair PublicKey Rng)
      → IsNamed regs
      → from_parts regs parts ≡ ok pr
      → (protocol_string pr ≡ join b'_' parts) × Accepted pr.pattern_of
  unfolding protocol_string
  from_parts_named regs parts pr named p =
      let f = from_parts-Found regs parts pr p in
      let (same1, valid) =
        lookup-Named (λ (pa : Pattern). pa.name) Accepted regs.patterns f.pattern_part pr.pattern_of
          named.patterns f.patterns in
      let (same2, _) =
        lookup-Named (λ (dh : Dh Keypair PublicKey Rng). dh.name) Whatever regs.dhs f.dh_part pr.dh
          named.dhs f.dhs in
      let (same3, _) =
        lookup-Named (λ (c : Cipher Aead). c.name) Whatever regs.ciphers f.cipher_part pr.cipher
          named.ciphers f.ciphers in
      let (same4, _) =
        lookup-Named (λ (h : Hash). h.name) Whatever regs.hashes f.hash_part pr.hash named.hashes
          f.hashes in
      let named_by = λ (a b c d : Bytes). join b'_' (codes "Noise" ∷ a ∷ b ∷ c ∷ d ∷ []) in
      (
        ap (λ x. named_by x pr.dh.name pr.cipher.name pr.hash.name) same1
            ∙ ap (λ x. named_by f.pattern_part x pr.cipher.name pr.hash.name) same2
            ∙ ap (λ x. named_by f.pattern_part f.dh_part x pr.hash.name) same3
            ∙ ap (λ x. named_by f.pattern_part f.dh_part f.cipher_part x) same4
            ∙ ap (join b'_') (sym f.whole),
        valid,
      )

  -- If every registered object stands under its own name and every registered pattern is valid, then
  -- a protocol that NewProtocol returns for a string has that string as its name, and its pattern is
  -- valid.
  pub protocol_string-new_protocol :
      (regs : Registries Aead Keypair PublicKey Rng) (s : Bytes)
      (pr : Protocol Aead Keypair PublicKey Rng)
      → IsNamed regs
      → new_protocol regs s ≡ ok pr
      → (protocol_string pr ≡ s) × (is_valid pr.pattern_of ≡ ok tt)
  unfolding new_protocol
  protocol_string-new_protocol regs s pr named p =
      let (same, valid) = from_parts_named regs (split b'_' s) pr named p in
      (same ∙ join-split b'_' s, valid)

  -- The parts of a protocol are what the registries hold under their names, and no name has the
  -- separator in it.
  pub record IsRegistered (regs : Registries Aead Keypair PublicKey Rng)
      (pr : Protocol Aead Keypair PublicKey Rng) : Type 0 where
    pub patterns : lookup pr.pattern_of.name regs.patterns ≡ some pr.pattern_of
    pub dhs : lookup pr.dh.name regs.dhs ≡ some pr.dh
    pub ciphers : lookup pr.cipher.name regs.ciphers ≡ some pr.cipher
    pub hashes : lookup pr.hash.name regs.hashes ≡ some pr.hash
    pub plain : AllLack b'_' (pr.pattern_of.name ∷ pr.dh.name ∷ pr.cipher.name ∷ pr.hash.name ∷ [])

  -- NewProtocol of the name of a protocol whose parts are registered under their names, which have
  -- no underscore, returns that protocol.
  pub new_protocol-protocol_string :
      (regs : Registries Aead Keypair PublicKey Rng) (pr : Protocol Aead Keypair PublicKey Rng)
      → IsRegistered regs pr
      → new_protocol regs (protocol_string pr) ≡ ok pr
  unfolding new_protocol protocol_string
  new_protocol-protocol_string regs pr reg =
      ap (from_parts regs) (
        split-join b'_' (codes "Noise")
          (pr.pattern_of.name ∷ pr.dh.name ∷ pr.cipher.name ∷ pr.hash.name ∷ [])
          ((refl, (refl, (refl, (refl, (refl, tt))))), reg.plain))
      ∙ ap
          (λ o.
            assembled o (lookup pr.dh.name regs.dhs) (lookup pr.cipher.name regs.ciphers)
              (lookup pr.hash.name regs.hashes))
          reg.patterns
      ∙ ap
          (λ o.
            assembled (some pr.pattern_of) o (lookup pr.cipher.name regs.ciphers)
              (lookup pr.hash.name regs.hashes))
          reg.dhs
      ∙ ap (λ o. assembled (some pr.pattern_of) (some pr.dh) o (lookup pr.hash.name regs.hashes))
          reg.ciphers
      ∙ ap (λ o. assembled (some pr.pattern_of) (some pr.dh) (some pr.cipher) o) reg.hashes
