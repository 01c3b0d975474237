-- ===== src/Pattern/Psk/Placed.antt =====
-- MakePSK: where it puts the `psk` tokens.
use nyquist.Base.{
  ℕ, zero, suc, ◌+◌, ◌<◌, ◌≤◌, ◌≡◌, ◌≢◌, Bool, true, false, List, [], ◌∷◌, ◌++◌, Result, ok, err,
  panic, ◌>>=◌, refl, sym, ap, ◌∙◌, arith, length, ◌==◌, inl, inr, ==_iff, Bool-cases, ok-injective,
}
use nyquist.Pattern.{token_psk, Message, PatternError}
use nyquist.Pattern.Psk.{contains, append_psk, place_psk}

-- A `psk` token in front of the first message, and one after each message whose number, from 1, is
-- among the indexes.
abbrev pub front : Bool → List Message → List Message
front b [] = []
front true (msg ∷ msgs) = (token_psk ∷ msg) ∷ msgs
front false (msg ∷ msgs) = msg ∷ msgs

abbrev pub ended : Bool → Message → Message
ended true msg = msg ++ token_psk ∷ []
ended false msg = msg

abbrev pub tails : List ℕ → ℕ → List Message → List Message
tails is k [] = []
tails is k (msg ∷ msgs) = ended (contains k is) msg ∷ tails is (suc k) msgs

-- What `psk` modifiers of these indexes make of the messages of a template.
abbrev pub placed : List ℕ → List Message → List Message
placed is msgs = front (contains 0 is) (tails is 1 msgs)

contains_other : (k i : ℕ) (is : List ℕ) → k ≢ i → contains k (i ∷ is) ≡ contains k is
contains_other k i is h = elim (Bool-cases (k == i)) [
  | inl p ↦ absurd (h ((==_iff k i).0 p))
  | inr p ↦ rw p refl
]

contains_own : (k : ℕ) (is : List ℕ) → contains k (k ∷ is) ≡ true
contains_own k is = rw ((==_iff k k).1 refl) refl

tails_other :
    (k i : ℕ) (is : List ℕ) (msgs : List Message) → i < k → tails (i ∷ is) k msgs ≡ tails is k msgs
tails_other k i is [] h = refl
tails_other k i is (msg ∷ msgs) h =
    ap (λ b. ended b msg ∷ tails (i ∷ is) (suc k) msgs)
      (contains_other k i is (λ e. omega (arith, h, e)))
    ∙ ap (λ t. ended (contains k is) msg ∷ t) (tails_other (suc k) i is msgs (omega (arith, h)))

-- The step of the loop for an index from 1.
append_tails :
    (idx k i : ℕ) (is : List ℕ) (msgs : List Message)
    → idx + k ≡ i
    → contains i is ≡ false
    → idx < length msgs
    → append_psk idx (tails is k msgs) ≡ ok (tails (i ∷ is) k msgs)
unfolding append_psk
append_tails idx k i is [] e new few = absurd (omega (arith, few))
append_tails zero k i is (msg ∷ msgs) e new few =
    let same : k ≡ i = omega (arith, e) in
    ap (λ b. ok ((ended b msg ++ token_psk ∷ []) ∷ tails is (suc k) msgs))
      (ap (λ j. contains j is) same ∙ new)
    ∙ ap (λ t. ok ((msg ++ token_psk ∷ []) ∷ t))
        (sym (tails_other (suc k) i is msgs (omega (arith, same))))
    ∙ ap (λ b. ok (ended b msg ∷ tails (i ∷ is) (suc k) msgs))
        (sym (ap (λ j. contains j (i ∷ is)) same ∙ contains_own i is))
append_tails (suc idx) k i is (msg ∷ msgs) e new few =
    ap (λ r. do out ← r; ok (ended (contains k is) msg ∷ out))
      (append_tails idx (suc k) i is msgs (omega (arith, e)) new (omega (arith, few)))
    ∙ ap (λ b. ok (ended b msg ∷ tails (i ∷ is) (suc k) msgs))
        (sym (contains_other k i is (λ same. omega (arith, same, e))))

-- An append goes past the token in front.
append_front :
    (b : Bool) (idx : ℕ) (msgs out : List Message)
    → append_psk idx msgs ≡ ok out
    → append_psk idx (front b msgs) ≡ ok (front b out)
unfolding append_psk
append_front b idx [] out p = cc
append_front true zero (msg ∷ msgs) out p = ap (λ t. ok (front true t)) (ok-injective p)
append_front false zero (msg ∷ msgs) out p = ap (λ t. ok (front false t)) (ok-injective p)
append_front true (suc idx) (msg ∷ msgs) out p = go (append_psk idx msgs) p
  where
    go :
        (r : Result PatternError (List Message))
        → (do msgs' ← r; ok (msg ∷ msgs')) ≡ ok out
        → (do msgs' ← r; ok ((token_psk ∷ msg) ∷ msgs')) ≡ ok (front true out)
    go (ok msgs') q = ap (λ t. ok (front true t)) (ok-injective q)
    go (err e) q = cc
    go panic q = cc
append_front false (suc idx) (msg ∷ msgs) out p = go (append_psk idx msgs) p
  where
    go :
        (r : Result PatternError (List Message))
        → (do msgs' ← r; ok (msg ∷ msgs')) ≡ ok out
        → (do msgs' ← r; ok (msg ∷ msgs')) ≡ ok (front false out)
    go (ok msgs') q = ap (λ t. ok (front false t)) (ok-injective q)
    go (err e) q = cc
    go panic q = cc

-- The `switch`, for a new index in range.
pub place_placed :
    (i : ℕ) (is : List ℕ) (msgs : List Message)
    → 0 < length msgs
    → i ≤ length msgs
    → contains i is ≡ false
    → place_psk i (placed is msgs) ≡ ok (placed (i ∷ is) msgs)
unfolding place_psk
place_placed i is [] some_message few new = absurd (omega (arith, some_message))
place_placed zero is (msg ∷ msgs) some_message few new =
    ap (λ b. place_psk zero (front b (tails is 1 (msg ∷ msgs)))) new
    ∙ ap (λ t. ok (front true t)) (sym (tails_other 1 0 is (msg ∷ msgs) (omega arith)))
    ∙ ap (λ b. ok (front b (tails (0 ∷ is) 1 (msg ∷ msgs)))) (sym (contains_own 0 is))
place_placed (suc i) is (msg ∷ msgs) some_message few new =
    append_front (contains 0 is) i (tails is 1 (msg ∷ msgs)) _
      (append_tails i 1 (suc i) is (msg ∷ msgs) (omega arith) new (omega (arith, few)))
    ∙ ap (λ b. ok (front b (tails (suc i ∷ is) 1 (msg ∷ msgs))))
        (sym (contains_other 0 (suc i) is (λ e. omega (arith, e))))

-- No index leaves the messages as they are.
tails_none : (k : ℕ) (msgs : List Message) → tails [] k msgs ≡ msgs
tails_none k [] = refl
tails_none k (msg ∷ msgs) = ap (λ t. msg ∷ t) (tails_none (suc k) msgs)

pub placed_none : (msgs : List Message) → placed [] msgs ≡ msgs
placed_none msgs = ap (front false) (tails_none 1 msgs) ∙ same msgs
  where
    same : (msgs : List Message) → front false msgs ≡ msgs
    same [] = refl
    same (msg ∷ msgs) = refl
