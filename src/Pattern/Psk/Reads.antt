-- ===== src/Pattern/Psk/Reads.antt =====
-- MakePSK: which modifiers it accepts, and the pattern that it makes.
use nyquist.Base.{
  ℕ, ◌<◌, ◌≤◌, ◌≡◌, ◌↔◌, Bool, true, false, Option, none, some, List, [], ◌∷◌, ◌++◌, Bytes, codes,
  ℤ, pos, negsuc, Result, ok, err, panic, ◌>>=◌, refl, sym, ap, ◌∙◌, arith, length, ltb,
  if◌then◌else◌, split, strip_prefix, atoi, ok-injective, ge→ltb,
}
use nyquist.Pattern.{Message, Pattern, PatternError, redundant_psk, invalid_psk, template_has_psks}
use nyquist.Pattern.Psk.{
  Applied, contains, place_psk, apply_index, apply_suffix, apply_modifiers, make_psk,
}
use nyquist.Pattern.Psk.Placed.{placed, placed_none, place_placed}

-- A modifier: `psk` and a number.
pub record IsModifier (v : Bytes) (i : ℕ) : Type 0 where
  pub suffix : Bytes
  pub prefixed : strip_prefix (codes "psk") v ≡ some suffix
  pub number : atoi suffix ≡ some (pos i)

-- The modifiers as indexes, the latest first: none twice, and none above the number of messages.
pub data Reads (count : ℕ) : List Bytes → List ℕ → List ℕ → Type 0 where
  no_more : (is : List ℕ) → Reads count [] is is
  one_more :
      {v : Bytes} {vs : List Bytes} {is js : List ℕ} (i : ℕ)
      → IsModifier v i
      → contains i is ≡ false
      → i ≤ count
      → Reads count vs (i ∷ is) js
      → Reads count (v ∷ vs) is js

module _ (msgs : List Message) (some_message : 0 < length msgs) where
  -- The loop's state once it has read some indexes.
  abbrev at : List ℕ → Applied
  at is = record { messages = placed is msgs; indexes = is }

  -- The end of an iteration.
  abbrev put : ℕ → List ℕ → Result PatternError Applied
  put i is = do
    msgs' ← place_psk i (placed is msgs)
    ok (record { messages = msgs'; indexes = i ∷ is })

  put_ok :
      (i : ℕ) (is : List ℕ) → contains i is ≡ false → i ≤ length msgs → put i is ≡ ok (at (i ∷ is))
  put_ok i is new few =
      ap (λ r. do msgs' ← r; ok (record { messages = msgs'; indexes = i ∷ is }))
        (place_placed i is msgs some_message few new)

  index_ok :
      (v : Bytes) (i : ℕ) (is : List ℕ)
      → contains i is ≡ false
      → i ≤ length msgs
      → apply_index (length msgs) v (some (pos i)) (at is) ≡ ok (at (i ∷ is))
  unfolding apply_index
  index_ok v i is new few = rw new (rw (ge→ltb (length msgs) i few) (put_ok i is new few))

  -- One iteration that returns no error.
  index_inv :
      (v suffix : Bytes) (n : Option ℤ) (is : List ℕ) (next : Applied)
      → strip_prefix (codes "psk") v ≡ some suffix
      → atoi suffix ≡ n
      → apply_index (length msgs) suffix n (at is) ≡ ok next
      → (i : ℕ) × IsModifier v i
        × (contains i is ≡ false)
        × (i ≤ length msgs)
        × (next ≡ at (i ∷ is))
  unfolding apply_index
  index_inv v suffix none is next q r p = cc
  index_inv v suffix (some (negsuc i)) is next q r p = cc
  index_inv v suffix (some (pos i)) is next q r p =
      go (contains i is) (ltb (length msgs) i) refl refl p
    where
      go :
          (b c : Bool)
          → contains i is ≡ b
          → ltb (length msgs) i ≡ c
          → (if b
              then err (redundant_psk suffix)
              else if c
              then err (invalid_psk suffix)
              else put i is)
            ≡ ok next
          → (i : ℕ) × IsModifier v i
            × (contains i is ≡ false)
            × (i ≤ length msgs)
            × (next ≡ at (i ∷ is))
      go true c e f h = cc
      go false true e f h = cc
      go false false e f h =
          let few : i ≤ length msgs = ground (arith, f) in
          (
            i,
            record { suffix = suffix; prefixed = q; number = r },
            e,
            few,
            ok-injective (sym h ∙ put_ok i is e few),
          )

  suffix_inv :
      (v : Bytes) (o : Option Bytes) (is : List ℕ) (next : Applied)
      → strip_prefix (codes "psk") v ≡ o
      → apply_suffix (length msgs) v o (at is) ≡ ok next
      → (i : ℕ) × IsModifier v i
        × (contains i is ≡ false)
        × (i ≤ length msgs)
        × (next ≡ at (i ∷ is))
  unfolding apply_suffix apply_index
  suffix_inv v none is next q p = cc
  suffix_inv v (some suffix) is next q p = index_inv v suffix (atoi suffix) is next q refl p

  suffix_ok :
      (v : Bytes) (i : ℕ) (is : List ℕ)
      → IsModifier v i
      → contains i is ≡ false
      → i ≤ length msgs
      → apply_suffix (length msgs) v (strip_prefix (codes "psk") v) (at is) ≡ ok (at (i ∷ is))
  unfolding apply_suffix apply_index
  suffix_ok v i is m new few =
      ap (λ o. apply_suffix (length msgs) v o (at is)) m.prefixed
      ∙ ap (λ n. apply_index (length msgs) m.suffix n (at is)) m.number
      ∙ index_ok m.suffix i is new few

  modifiers_inv :
      (vs : List Bytes) (is : List ℕ) (applied : Applied)
      → apply_modifiers (length msgs) vs (at is) ≡ ok applied
      → (js : List ℕ) × Reads (length msgs) vs is js × (applied ≡ at js)
  unfolding apply_modifiers
  modifiers_inv [] is applied p = (is, Reads.no_more is, sym (ok-injective p))
  modifiers_inv (v ∷ vs) is applied p =
      go (apply_suffix (length msgs) v (strip_prefix (codes "psk") v) (at is)) refl
        (λ i. modifiers_inv vs (i ∷ is) applied) p
    where
      go :
          (r : Result PatternError Applied)
          → apply_suffix (length msgs) v (strip_prefix (codes "psk") v) (at is) ≡ r
          → ((i : ℕ)
              → apply_modifiers (length msgs) vs (at (i ∷ is)) ≡ ok applied
              → (js : List ℕ) × Reads (length msgs) vs (i ∷ is) js × (applied ≡ at js))
          → (do next ← r; apply_modifiers (length msgs) vs next) ≡ ok applied
          → (js : List ℕ) × Reads (length msgs) (v ∷ vs) is js × (applied ≡ at js)
      go (ok next) e rest q =
          let (i, m, new, few, same) = suffix_inv v (strip_prefix (codes "psk") v) is next refl e in
          let (js, reads, last) = rest i (ap (apply_modifiers (length msgs) vs) (sym same) ∙ q) in
          (js, Reads.one_more i m new few reads, last)
      go (err x) e rest q = cc
      go panic e rest q = cc

  modifiers_ok :
      (vs : List Bytes) (is js : List ℕ)
      → Reads (length msgs) vs is js
      → apply_modifiers (length msgs) vs (at is) ≡ ok (at js)
  unfolding apply_modifiers
  modifiers_ok vs is js (Reads.no_more _) = refl
  modifiers_ok vs is js (one_more {v} {vs = rest} i m new few reads) =
      ap (λ r. do next ← r; apply_modifiers (length msgs) rest next) (suffix_ok v i is m new few)
      ∙ modifiers_ok rest (i ∷ is) js reads

-- The pattern that MakePSK makes of a template for indexes.
abbrev pub with_psks : Pattern → Bytes → List ℕ → Pattern
with_psks template modifier js = record {
  name = template.name ++ modifier;
  pre_messages = template.pre_messages;
  messages = placed js template.messages;
  num_psks = length js;
  is_one_way = template.is_one_way;
}

-- What MakePSK makes of the loop's end.
abbrev finished : Pattern → Bytes → Applied → Pattern
finished template modifier applied = record {
  name = template.name ++ modifier;
  pre_messages = template.pre_messages;
  messages = applied.messages;
  num_psks = length applied.indexes;
  is_one_way = template.is_one_way;
}

begun :
    (template : Pattern) (modifier : Bytes) (some_message : 0 < length template.messages)
    → template.num_psks ≡ 0
    → make_psk template modifier ≡ (do
      applied ←
          apply_modifiers
            (length template.messages)
            (split b'+' modifier)
            (at template.messages some_message [])
      ok (finished template modifier applied))
unfolding make_psk
begun template modifier some_message none_yet =
    ap
      (λ n. if ltb 0 n then err template_has_psks else do
        applied ←
            apply_modifiers (length template.messages) (split b'+' modifier)
              (record { messages = template.messages; indexes = [] })
        ok (finished template modifier applied))
      none_yet
    ∙ ap
        (λ msgs. do
          applied ←
              apply_modifiers (length template.messages) (split b'+' modifier)
                (record { messages = msgs; indexes = [] })
          ok (finished template modifier applied))
        (sym (placed_none template.messages))

finished_inv :
    (template : Pattern) (modifier : Bytes) (pa : Pattern) (r : Result PatternError Applied)
    → (do applied ← r; ok (finished template modifier applied)) ≡ ok pa
    → (applied : Applied) × (r ≡ ok applied) × (pa ≡ finished template modifier applied)
finished_inv template modifier pa (ok applied) p = (applied, refl, sym (ok-injective p))
finished_inv template modifier pa (err e) p = cc
finished_inv template modifier pa panic p = cc

-- Let the template have a message and no pre-shared keys. MakePSK returns a pattern exactly when every
-- part of the modifier, between plus signs, is `psk` and a number that is not above the number of
-- messages, none twice. The pattern is then the template with one `psk` token for each number, in
-- front of the first message for 0 and at the end of message n for n, counted from 1; the modifier is
-- appended to its name, and NumPSKs is the number of those tokens.
pub make_psk-Reads :
    (template : Pattern) (modifier : Bytes) (pa : Pattern)
    → 0 < length template.messages
    → template.num_psks ≡ 0
    → (make_psk template modifier ≡ ok pa) ↔ (
        (js : List ℕ) × Reads (length template.messages) (split b'+' modifier) [] js
        × (pa ≡ with_psks template modifier js))
make_psk-Reads template modifier pa some_message none_yet = (
  λ p.
      let (applied, made, same) =
        finished_inv template modifier pa
          (apply_modifiers (length template.messages) (split b'+' modifier)
            (at template.messages some_message []))
          (sym (begun template modifier some_message none_yet) ∙ p) in
      let (js, reads, last) =
        modifiers_inv template.messages some_message (split b'+' modifier) [] applied made in
      (js, reads, same ∙ ap (finished template modifier) last),
  λ (js, reads, same).
      begun template modifier some_message none_yet
      ∙ ap (λ r. do applied ← r; ok (finished template modifier applied))
          (modifiers_ok template.messages some_message (split b'+' modifier) [] js reads)
      ∙ ap ok (sym same),
)

-- MakePSK of a template with no messages and no pre-shared keys panics at the modifier `psk0`.
pub make_psk_without_messages :
    (template : Pattern)
    → template.messages ≡ []
    → template.num_psks ≡ 0
    → make_psk template (codes "psk0") ≡ panic
unfolding make_psk apply_modifiers apply_index apply_suffix place_psk split strip_prefix atoi
make_psk_without_messages template none_there none_yet =
    ap
      (λ n. if ltb 0 n then err template_has_psks else do
        applied ←
            apply_modifiers (length template.messages) (split b'+' (codes "psk0"))
              (record { messages = template.messages; indexes = [] })
        ok (finished template (codes "psk0") applied))
      none_yet
    ∙ ap
        (λ msgs. do
          applied ←
              apply_modifiers (length msgs) (split b'+' (codes "psk0"))
                (record { messages = msgs; indexes = [] })
          ok (finished template (codes "psk0") applied))
        none_there
