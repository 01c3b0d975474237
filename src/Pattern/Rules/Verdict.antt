-- ===== src/Pattern/Rules/Verdict.antt =====
-- `is_valid` as a whole, beside the rules of a pattern.
use nyquist.Base.{
  ◌≤◌, ◌≡◌, refl, ◌↔◌, Bool, true, false, not, ◌&&◌, [], Result, ok, err, panic, ◌>>=◌, ◌>>◌, arith,
  if◌then◌else◌, length, ltb, ◌==◌,
}
use mathlib.Core.Path.{subst}
use nyquist.Pattern.{Pattern, PatternError, no_dh, psk_mismatch}
use nyquist.Pattern.Validity.{Seen, nothing_seen, is_valid}
use nyquist.Pattern.Rules.{History, history, pre_history, IsLawful, count_dhs, count_psks}
use nyquist.Pattern.Rules.Decide.{check_pre_messages-Agrees, check_messages-Agrees}
use nyquist.Pattern.Rules.Tokens.{Tracks, Agrees, nothing-Tracks}

-- A whole check against the rule for it.
abbrev Decides : Type 0 → Result PatternError (Unit {0}) → Type 0
Decides P (ok _) = P
Decides P (err e) = ¬ P
Decides P panic = ⊥

Decides-map :
    (P Q : Type 0) (r : Result PatternError (Unit {0}))
    → (P → Q)
    → (Q → P)
    → Decides P r
    → Decides Q r
Decides-map P Q (ok _) to from p = to p
Decides-map P Q (err e) to from no_rule = λ q. no_rule (from q)
Decides-map P Q panic to from no_rule = no_rule

module _ (P : Type 0) (e : PatternError) where
  Decides-if :
      (refused : Bool)
      → (refused ≡ true → ¬ P)
      → (refused ≡ false → P)
      → Decides P (if refused then err e else ok tt)
  Decides-if true no_rule rule = no_rule refl
  Decides-if false no_rule rule = rule refl

  Decides-guard :
      (Q : Type 0) (refused : Bool) (rest : Result PatternError (Unit {0}))
      → (refused ≡ true → ¬ P)
      → (refused ≡ false → P)
      → Decides Q rest
      → Decides (P × Q) (do (if refused then err e else ok tt); rest)
  Decides-guard Q true rest no_rule rule next = λ pq. no_rule refl pq.0
  Decides-guard Q false (ok _) no_rule rule next = (rule refl, next)
  Decides-guard Q false (err f) no_rule rule next = λ pq. next pq.1
  Decides-guard Q false panic no_rule rule next = next

  Agrees-guard :
      (Q : Type 0) (h : History) (refused : Bool) (r : Result PatternError Seen)
      → (refused ≡ true → ¬ P)
      → (refused ≡ false → P)
      → Agrees Q h r
      → Agrees (P × Q) h (if refused then err e else r)
  Agrees-guard Q h true r no_rule rule next = λ pq. no_rule refl pq.0
  Agrees-guard Q h false (ok seen) no_rule rule (q, follows) = ((rule refl, q), follows)
  Agrees-guard Q h false (err f) no_rule rule next = λ pq. next pq.1
  Agrees-guard Q h false panic no_rule rule next = next

Decides-bind :
    (P Q : Type 0) (h : History) (r : Result PatternError Seen)
    (f : Seen → Result PatternError (Unit {0}))
    → Agrees P h r
    → ((seen : Seen) → Tracks seen h → Decides Q (f seen))
    → Decides (P × Q) (r >>= f)
Decides-bind P Q h (ok seen) f (p, follows) next = go (f seen) (next seen follows)
  where
    go : (r : Result PatternError (Unit {0})) → Decides Q r → Decides (P × Q) r
    go (ok _) q = (p, q)
    go (err e) no_rule = λ pq. no_rule pq.1
    go panic no_rule = no_rule
Decides-bind P Q h (err e) f no_rule next = λ pq. no_rule pq.0
Decides-bind P Q h panic f no_rule next = no_rule

module _ (pa : Pattern) where
  -- What follows the second loop.
  totals-Decides :
      (seen : Seen)
      → Tracks seen (history pa)
      → Decides ((1 ≤ count_dhs (history pa)) × (count_psks (history pa) ≡ pa.num_psks)) (do
        if seen.num_dhs == 0 then err no_dh else ok tt
        if not (seen.num_psks == pa.num_psks) then err psk_mismatch else ok tt)
  totals-Decides seen follows =
      Decides-guard (1 ≤ count_dhs (history pa)) _ _ (seen.num_dhs == 0) _
        (λ p q. ground (arith, follows.dhs)) (λ p. ground (arith, follows.dhs))
        (Decides-if (count_psks (history pa) ≡ pa.num_psks) _ (not (seen.num_psks == pa.num_psks))
          (λ p q. ground (arith, follows.psks)) (λ p. ground (arith, follows.psks)))

  pub is_valid-Decides : Decides (IsLawful pa) (is_valid pa)
  unfolding is_valid
  is_valid-Decides =
      Decides-map _ _ (is_valid pa)
        (λ p. record {
          few_pre_messages = p.0.0;
          pre_tokens = p.0.1;
          some_message = p.1.0;
          one_way_single = p.1.1.0;
          tokens = p.1.1.1.0;
          some_dh = p.1.1.1.1.0;
          psks = p.1.1.1.1.1;
        })
        (λ law. (
          (law.few_pre_messages, law.pre_tokens),
          (law.some_message, (law.one_way_single, (law.tokens, (law.some_dh, law.psks)))),
        ))
        (Decides-bind _ _ (pre_history pa) _ _
          (Agrees-guard (length pa.pre_messages ≤ 2) _ _ _ (ltb 2 (length pa.pre_messages)) _
            (λ p q. ground arith) (λ p. ground arith)
            (check_pre_messages-Agrees 0 pa.pre_messages nothing_seen [] nothing-Tracks))
          λ pre follows.
            Decides-guard (1 ≤ length pa.messages) _ _ (length pa.messages == 0) _
              (λ p q. ground arith) (λ p. ground arith)
              (Decides-guard (pa.is_one_way ≡ true → length pa.messages ≡ 1) _ _
                (pa.is_one_way && not (length pa.messages == 1)) _ (λ p q. ground arith)
                (λ p q. ground arith)
                (Decides-bind _ _ (history pa) _ _
                  (check_messages-Agrees 0 pa.messages pre (pre_history pa) follows)
                  totals-Decides)))

-- `IsValid` accepts a pattern exactly when the pattern keeps every rule: at most two pre-messages of
-- fresh public keys, some message (exactly one if it is one-way), each token allowed after what was
-- sent before it, the conditions on encryption after each message, some DH calculation, and as many
-- `psk` tokens as `NumPSKs` says.
pub is_valid-IsLawful : (pa : Pattern) → (is_valid pa ≡ ok tt) ↔ IsLawful pa
is_valid-IsLawful pa = (
  λ p. subst (Decides (IsLawful pa)) p (is_valid-Decides pa),
  λ law. go (is_valid pa) (is_valid-Decides pa) law,
)
  where
    go : (r : Result PatternError (Unit {0})) → Decides (IsLawful pa) r → IsLawful pa → r ≡ ok tt
    go (ok tt) yes_rule law = refl
    go (err e) no_rule law = absurd (no_rule law)
    go panic no_rule law = absurd no_rule
