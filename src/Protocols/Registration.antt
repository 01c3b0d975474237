-- ===== src/Protocols/Registration.antt =====
-- The registries that the four packages start with, and their Register functions.
use nyquist.Base.{
  ◌≡◌, List, [], ◌∷◌, Result, ok, err, panic, ◌>>=◌, ◌>>◌, refl, subst, Named, ok-injective,
}
use nyquist.Pattern.{Pattern, PatternError}
use nyquist.Pattern.Validity.{is_valid}
use nyquist.Pattern.Registry
use nyquist.Pattern.Registered.{at_init, init_ok}
use nyquist.Pattern.Registry.{built_in, must, register_all, init}
use nyquist.Crypto.{Cipher, Hash, Dh}
use nyquist.Dh.{Kind, Curve, ReadFull, PublicKey, Keypair, x25519, functions}
use nyquist.Dh.X448.{x448}
use nyquist.Dh.Registry as Dhs
use nyquist.Dh.Registry.{supported_dhs}
use nyquist.Ciphers
use nyquist.Ciphers.{Aeads, chacha_poly, aes_gcm, deoxys_ii, supported_ciphers}
use nyquist.Hashes
use nyquist.Hashes.{Digests, sha256, sha512, blake2s, blake2b, supported_hashes}
use nyquist.Protocols.{Registries}
use nyquist.Protocols.Names.{Accepted, IsNamed}

abbrev PatternsNamed : Registry.Registry → Type 0
PatternsNamed reg = Named (λ (pa : Pattern). pa.name) Accepted reg

register-Named :
    (pa : Pattern) (reg reg' : Registry.Registry)
    → PatternsNamed reg
    → Registry.register pa reg ≡ ok reg'
    → PatternsNamed reg'
unfolding Registry.register
register-Named pa reg reg' named p = go (is_valid pa) refl p
  where
    go :
        (r : Result PatternError (Unit {0}))
        → is_valid pa ≡ r
        → (do r; ok ((pa.name, pa) ∷ reg)) ≡ ok reg'
        → PatternsNamed reg'
    go (ok tt) valid q = subst PatternsNamed (ok-injective q) (refl, valid, named)
    go (err e) valid q = cc
    go panic valid q = cc

register_all-Named :
    (list : List (Result PatternError Pattern)) (reg reg' : Registry.Registry)
    → PatternsNamed reg
    → register_all list reg ≡ ok reg'
    → PatternsNamed reg'
unfolding register_all
register_all-Named [] reg reg' named p = subst PatternsNamed (ok-injective p) named
register_all-Named (err e ∷ list) reg reg' named p = cc
register_all-Named (panic ∷ list) reg reg' named p = cc
register_all-Named (ok pa ∷ list) reg reg' named p =
    go (Registry.register pa reg) (λ reg1. register_all-Named list reg1 reg') refl p
  where
    go :
        (r : Result PatternError Registry.Registry)
        → ((reg1 : Registry.Registry)
            → PatternsNamed reg1
            → register_all list reg1 ≡ ok reg'
            → PatternsNamed reg')
        → Registry.register pa reg ≡ r
        → (do reg1 ← must r; register_all list reg1) ≡ ok reg'
        → PatternsNamed reg'
    go (ok reg1) rest made q = rest reg1 (register-Named pa reg reg1 named made) q
    go (err e) rest made q = cc
    go panic rest made q = cc

abbrev or_same : Result PatternError Registry.Registry → Registry.Registry → Registry.Registry
or_same (ok reg') reg = reg'
or_same (err e) reg = reg
or_same panic reg = reg

-- One call of a Register function.
pub data Call (Aead Keypair PublicKey Rng : Type 0) : Type 0 where
  pattern_call : Pattern → Call Aead Keypair PublicKey Rng
  dh_call : Dh Keypair PublicKey Rng → Call Aead Keypair PublicKey Rng
  cipher_call : Cipher Aead → Call Aead Keypair PublicKey Rng
  hash_call : Hash → Call Aead Keypair PublicKey Rng

module _ {Aead Keypair PublicKey Rng : Type 0} where
  -- The registries after a call. A pattern that is refused is not registered.
  abbrev pub apply :
      Call Aead Keypair PublicKey Rng
      → Registries Aead Keypair PublicKey Rng
      → Registries Aead Keypair PublicKey Rng
  apply (pattern_call pa) regs = record regs {
    patterns = or_same (Registry.register pa regs.patterns) regs.patterns;
  }
  apply (dh_call dh) regs = record regs { dhs = Dhs.register dh regs.dhs }
  apply (cipher_call cipher) regs = record regs { ciphers = Ciphers.register cipher regs.ciphers }
  apply (hash_call hash) regs = record regs { hashes = Hashes.register hash regs.hashes }

  pub apply_all :
      List (Call Aead Keypair PublicKey Rng)
      → Registries Aead Keypair PublicKey Rng
      → Registries Aead Keypair PublicKey Rng
  apply_all [] regs = regs
  apply_all (c ∷ calls) regs = apply_all calls (apply c regs)

  apply-IsNamed :
      (c : Call Aead Keypair PublicKey Rng) (regs : Registries Aead Keypair PublicKey Rng)
      → IsNamed regs
      → IsNamed (apply c regs)
  apply-IsNamed (pattern_call pa) regs named = record {
    patterns = go (Registry.register pa regs.patterns) refl;
    dhs = named.dhs;
    ciphers = named.ciphers;
    hashes = named.hashes;
  }
    where
      go :
          (r : Result PatternError Registry.Registry)
          → Registry.register pa regs.patterns ≡ r
          → PatternsNamed (or_same r regs.patterns)
      go (ok reg1) made = register-Named pa regs.patterns reg1 named.patterns made
      go (err e) made = named.patterns
      go panic made = named.patterns
  apply-IsNamed (dh_call dh) regs named = record {
    patterns = named.patterns;
    dhs = (refl, tt, named.dhs);
    ciphers = named.ciphers;
    hashes = named.hashes;
  }
  apply-IsNamed (cipher_call cipher) regs named = record {
    patterns = named.patterns;
    dhs = named.dhs;
    ciphers = (refl, tt, named.ciphers);
    hashes = named.hashes;
  }
  apply-IsNamed (hash_call hash) regs named = record {
    patterns = named.patterns;
    dhs = named.dhs;
    ciphers = named.ciphers;
    hashes = (refl, tt, named.hashes);
  }

  apply_all-IsNamed :
      (calls : List (Call Aead Keypair PublicKey Rng))
      (regs : Registries Aead Keypair PublicKey Rng)
      → IsNamed regs
      → IsNamed (apply_all calls regs)
  unfolding apply_all
  apply_all-IsNamed [] regs named = named
  apply_all-IsNamed (c ∷ calls) regs named =
      apply_all-IsNamed calls (apply c regs) (apply-IsNamed c regs named)

module _ {Block Aead Rng : Type 0} (curves : Kind → Curve) (read_full : ReadFull Rng)
    (aeads : Aeads Block Aead) (digests : Digests) where
  -- The package variables once `init` has registered the patterns.
  abbrev pub at_start : Registries Aead Keypair PublicKey Rng
  at_start = record {
    patterns = at_init;
    dhs = supported_dhs curves read_full;
    ciphers = supported_ciphers aeads;
    hashes = supported_hashes digests;
  }

  pub at_start-IsNamed : IsNamed at_start
  unfolding init supported_dhs supported_ciphers supported_hashes x25519 x448 functions chacha_poly
      aes_gcm deoxys_ii sha256 sha512 blake2s blake2b
  at_start-IsNamed = record {
    patterns = register_all-Named built_in [] at_init tt init_ok;
    dhs = (refl, tt, (refl, tt, tt));
    ciphers = (refl, tt, (refl, tt, (refl, tt, tt)));
    hashes = (refl, tt, (refl, tt, (refl, tt, (refl, tt, tt))));
  }

  -- `init` registers the patterns without a panic; and after it, and after any calls of the four
  -- Register functions, every pattern, DH function, cipher and hash that a registry holds stands
  -- there under its own name, and every pattern is valid.
  pub registered-IsNamed :
      (calls : List (Call Aead Keypair PublicKey Rng))
      → (init ≡ ok at_start.patterns) × IsNamed (apply_all calls at_start)
  registered-IsNamed calls = (init_ok, apply_all-IsNamed calls at_start at_start-IsNamed)
