-- ===== src/Pattern/Rules/Tokens.antt =====
-- The maps of pattern/validity.go beside the history, token by token.
use nyquist.Base.{
  ℕ, zero, suc, ◌+◌, ◌≡◌, refl, ap, sym, inl, inr, Bool, true, false, not, ◌&&◌, ◌||◌, [], ◌∷◌,
  Result, ok, err, panic, ◌>>=◌, arith, Bool-cases, if◌then◌else◌, ◌∙◌,
}
use nyquist.Pattern.{
  Token, token_invalid, token_e, token_s, token_ee, token_es, token_se, token_ss, token_psk,
  token_eq, Side, initiator, responder, PatternError, redundant_pre_message, redundant_public_key,
}
use nyquist.Pattern.Validity.{
  get_side, Seen, mark, has, in_either, nothing_seen, check_pre_token, check_token, is_possible,
}
use nyquist.Pattern.Rules.{
  side_of, other, History, sent, count_dhs, count_psks, Allowed, PreAllowed, either,
}

pub record Tracks (seen : Seen) (h : History) : Type 0 where
  pub init : (t : Token) → seen.init_tokens t ≡ sent initiator t h
  pub resp : (t : Token) → seen.resp_tokens t ≡ sent responder t h
  pub dhs : seen.num_dhs ≡ count_dhs h
  pub psks : seen.num_psks ≡ count_psks h

-- getSide by parity is the alternation of the parties.
pub get_side-side_of : (i : ℕ) → get_side i ≡ side_of i
get_side-side_of zero = refl
get_side-side_of (suc i) =
    let turned : get_side (suc i) ≡ other (get_side i) = ground arith in
    turned ∙ ap other (get_side-side_of i)

-- A check of a part of a pattern against the rule for it: it passes exactly when the rule holds.
abbrev pub Agrees : Type 0 → History → Result PatternError Seen → Type 0
Agrees P h (ok seen) = P × Tracks seen h
Agrees P h (err e) = ¬ P
Agrees P h panic = ⊥

pub nothing-Tracks : Tracks nothing_seen []
nothing-Tracks = record { init = λ t. refl; resp = λ t. refl; dhs = refl; psks = refl }

mark-Tracks :
    (side : Side) (v : Token) (seen : Seen) (h : History)
    → ((t : Token) → seen.init_tokens t ≡ sent initiator t h)
    → ((t : Token) → seen.resp_tokens t ≡ sent responder t h)
    → seen.num_dhs ≡ count_dhs ((side, v) ∷ h)
    → seen.num_psks ≡ count_psks ((side, v) ∷ h)
    → Tracks (mark side v seen) ((side, v) ∷ h)
mark-Tracks initiator v seen h init resp dhs psks = record {
  init = λ t. ap (λ b. token_eq v t || b) (init t);
  resp = resp;
  dhs = dhs;
  psks = psks;
}
mark-Tracks responder v seen h init resp dhs psks = record {
  init = init;
  resp = λ t. ap (λ b. token_eq v t || b) (resp t);
  dhs = dhs;
  psks = psks;
}

pub has-eq-sent :
    (side : Side) (t : Token) (seen : Seen) (h : History)
    → Tracks seen h
    → has side seen t ≡ sent side t h
has-eq-sent initiator t seen h follows = follows.init t
has-eq-sent responder t seen h follows = follows.resp t

module _ {P : Type 0} {h : History} {seen : Seen} (e : PatternError) where
  Agrees-if :
      (refused : Bool)
      → (refused ≡ true → ¬ P)
      → (refused ≡ false → P × Tracks seen h)
      → Agrees P h (if refused then err e else ok seen)
  Agrees-if true no_rule rule = no_rule refl
  Agrees-if false no_rule rule = rule refl

fresh_key :
    (side : Side) (v : Token) (e : PatternError) (seen : Seen) (h : History)
    → Tracks seen h
    → count_dhs ((side, v) ∷ h) ≡ count_dhs h
    → count_psks ((side, v) ∷ h) ≡ count_psks h
    → Agrees
        (sent side v h ≡ false)
        ((side, v) ∷ h)
        (if has side seen v then err e else ok (mark side v seen))
fresh_key side v e seen h follows dhs psks =
    Agrees-if e (has side seen v) (λ p q. cc (has-eq-sent side v seen h follows))
      λ p. (
        sym (has-eq-sent side v seen h follows) ∙ p,
        mark-Tracks side v seen h follows.init follows.resp (follows.dhs ∙ sym dhs)
            (follows.psks ∙ sym psks),
      )

pub check_pre_token-Agrees :
    (side : Side) (v : Token) (seen : Seen) (h : History)
    → Tracks seen h
    → Agrees (PreAllowed side v h) ((side, v) ∷ h) (check_pre_token side v seen)
unfolding check_pre_token
check_pre_token-Agrees side token_e seen h follows =
    fresh_key side token_e (redundant_pre_message side token_e) seen h follows (omega arith)
      (omega arith)
check_pre_token-Agrees side token_s seen h follows =
    fresh_key side token_s (redundant_pre_message side token_s) seen h follows (omega arith)
      (omega arith)
check_pre_token-Agrees side _ seen h follows = λ x. x

-- Two tests, the second on the state that the first one leaves.
module _ {P : Type 0} {h : History} {seen : Seen} (e f : PatternError) (possible : Seen → Bool)
    (update : Seen → Seen) where
  Agrees-two :
      (refused : Bool)
      → (refused ≡ true → ¬ P)
      → (possible seen ≡ false → ¬ P)
      → (refused ≡ false → possible seen ≡ true → P × Tracks (update seen) h)
      → Agrees P h (do
        seen' ← if refused then err e else ok seen
        if possible seen' then ok (update seen') else err f)
  Agrees-two true no_rule impossible rule = no_rule refl
  Agrees-two false no_rule impossible rule = elim (Bool-cases (possible seen)) [
    | inl p ↦ rw p (rule refl p)
    | inr p ↦ rw p (impossible p)
  ]

-- A DH calculation `v` with the initiator's key `a` and the responder's key `b`.
check_dh-Agrees :
    (side : Side) (v a b : Token) (e f : PatternError) (seen : Seen) (h : History)
    → Tracks seen h
    → count_dhs ((side, v) ∷ h) ≡ count_dhs h + 1
    → count_psks ((side, v) ∷ h) ≡ count_psks h
    → (possible : Seen → Bool)
    → (let counted = record seen { num_dhs = seen.num_dhs + 1 } in
        possible counted ≡ seen.init_tokens a && seen.resp_tokens b)
    → Agrees
        ((either v h ≡ false) × (sent initiator a h ≡ true) × (sent responder b h ≡ true))
        ((side, v) ∷ h)
        (do
          seen' ←
              if in_either seen v then err e else ok (record seen { num_dhs = seen.num_dhs + 1 })
          if possible seen' then ok (mark side v seen') else err f)
check_dh-Agrees side v a b e f seen h follows dhs psks possible keys =
    Agrees-two e f possible (mark side v) (in_either seen v)
      (λ p q. ground (arith, follows.init v, follows.resp v))
      (λ p q. ground (arith, follows.init a, follows.resp b, keys))
      λ p q. (
        (
          ground (arith, follows.init v, follows.resp v),
          ground (arith, follows.init a, follows.resp b, keys),
          ground (arith, follows.init a, follows.resp b, keys),
        ),
        mark-Tracks side v (record seen { num_dhs = seen.num_dhs + 1 }) h follows.init follows.resp
            (omega (arith, follows.dhs, dhs)) (omega (arith, follows.psks, psks)),
      )

both_not : (a b : Bool) → not (not a || not b) ≡ a && b
both_not a b = ground arith

pub check_token-Agrees :
    (side : Side) (v : Token) (seen : Seen) (h : History)
    → Tracks seen h
    → Agrees (Allowed side v h) ((side, v) ∷ h) (check_token side v seen)
unfolding check_token
check_token-Agrees side token_e seen h follows =
    ground (arith, fresh_key side token_e (redundant_public_key side token_e) seen h follows)
check_token-Agrees side token_s seen h follows =
    ground (arith, fresh_key side token_s (redundant_public_key side token_s) seen h follows)
check_token-Agrees side token_ee seen h follows =
    check_dh-Agrees side token_ee token_e token_e _ _ seen h follows (omega arith) (omega arith)
      (is_possible token_ee) refl
check_token-Agrees side token_es seen h follows =
    check_dh-Agrees side token_es token_e token_s _ _ seen h follows (omega arith) (omega arith)
      (is_possible token_es) (both_not _ _)
check_token-Agrees side token_se seen h follows =
    check_dh-Agrees side token_se token_s token_e _ _ seen h follows (omega arith) (omega arith)
      (is_possible token_se) (both_not _ _)
check_token-Agrees side token_ss seen h follows =
    check_dh-Agrees side token_ss token_s token_s _ _ seen h follows (omega arith) (omega arith)
      (is_possible token_ss) refl
check_token-Agrees side token_psk seen h follows = (
  tt,
  mark-Tracks side token_psk (record seen { num_psks = seen.num_psks + 1 }) h follows.init
      follows.resp (omega (arith, follows.dhs)) (omega (arith, follows.psks)),
)
check_token-Agrees side (token_invalid n) seen h follows = λ x. x
