-- ===== src/Base/Splitting.antt =====
-- `strings.Split` and `strings.Join`, one after the other.
use Prim.Native.Nat.{ℕ}
use mathlib.Core.Path.{◌≡◌, refl, sym, ap, ◌∙◌}
use mathlib.Core.Logic.{inl, inr}
use mathlib.Core.Bool.{Bool, true, false}
use mathlib.Core.List.{List, [], ◌∷◌, ◌++◌}
use nyquist.Base.Tests.{◌==◌, if◌then◌else◌, Bool-cases, ==_iff}
use nyquist.Base.Lists.{Bytes}
use nyquist.Base.Strings.{cons_head, split, join}

-- A string without the separator.
abbrev pub Lacks : ℕ → Bytes → Type 0
Lacks sep [] = Unit
Lacks sep (c ∷ s) = (c == sep ≡ false) × Lacks sep s

-- A list of strings, not empty.
abbrev AtLeastOne : List Bytes → Type 0
AtLeastOne [] = ⊥
AtLeastOne (part ∷ parts) = Unit

split-AtLeastOne : (sep : ℕ) (s : Bytes) → AtLeastOne (split sep s)
unfolding split
split-AtLeastOne sep [] = tt
split-AtLeastOne sep (c ∷ s) = go (c == sep) (split sep s)
  where
    go : (b : Bool) (parts : List Bytes) → AtLeastOne (if b then [] ∷ parts else cons_head c parts)
    go true parts = tt
    go false [] = tt
    go false (part ∷ parts) = tt

join-cons_head :
    (sep c : ℕ) (parts : List Bytes)
    → AtLeastOne parts
    → join sep (cons_head c parts) ≡ c ∷ join sep parts
unfolding join
join-cons_head sep c [] h = absurd h
join-cons_head sep c (part ∷ []) h = refl
join-cons_head sep c (part ∷ next ∷ parts) h = refl

join_nil :
    (sep : ℕ) (parts : List Bytes) → AtLeastOne parts → join sep ([] ∷ parts) ≡ sep ∷ join sep parts
unfolding join
join_nil sep [] h = absurd h
join_nil sep (part ∷ parts) h = refl

pub join-split : (sep : ℕ) (s : Bytes) → join sep (split sep s) ≡ s
unfolding split
join-split sep [] = unfold join in refl
join-split sep (c ∷ s) = elim (Bool-cases (c == sep)) [
  | inl p ↦
      ap (λ b. join sep (if b then [] ∷ split sep s else cons_head c (split sep s))) p
      ∙ join_nil sep (split sep s) (split-AtLeastOne sep s)
      ∙ ap (λ n. n ∷ join sep (split sep s)) (sym ((==_iff c sep).0 p))
      ∙ ap (λ l. c ∷ l) (join-split sep s)
  | inr p ↦
      ap (λ b. join sep (if b then [] ∷ split sep s else cons_head c (split sep s))) p
      ∙ join-cons_head sep c (split sep s) (split-AtLeastOne sep s)
      ∙ ap (λ l. c ∷ l) (join-split sep s)
]

-- One part, and one part before others.
split-Lacks : (sep : ℕ) (part : Bytes) → Lacks sep part → split sep part ≡ part ∷ []
unfolding split
split-Lacks sep [] h = refl
split-Lacks sep (c ∷ part) h =
    ap (λ b. if b then [] ∷ split sep part else cons_head c (split sep part)) h.0
    ∙ ap (cons_head c) (split-Lacks sep part h.1)

split-append :
    (sep : ℕ) (part rest : Bytes)
    → Lacks sep part
    → split sep (part ++ (sep ∷ rest)) ≡ part ∷ split sep rest
unfolding split
split-append sep [] rest h =
    ap (λ b. if b then [] ∷ split sep rest else cons_head sep (split sep rest))
      ((==_iff sep sep).1 refl)
split-append sep (c ∷ part) rest h =
    ap
      (λ b.
        if b
        then [] ∷ split sep (part ++ (sep ∷ rest))
        else cons_head c (split sep (part ++ (sep ∷ rest))))
      h.0
    ∙ ap (cons_head c) (split-append sep part rest h.1)

abbrev pub AllLack : ℕ → List Bytes → Type 0
AllLack sep [] = Unit
AllLack sep (part ∷ parts) = Lacks sep part × AllLack sep parts

pub split-join :
    (sep : ℕ) (part : Bytes) (parts : List Bytes)
    → AllLack sep (part ∷ parts)
    → split sep (join sep (part ∷ parts)) ≡ part ∷ parts
unfolding join
split-join sep part [] h = split-Lacks sep part h.0
split-join sep part (next ∷ parts) h =
    split-append sep part (join sep (next ∷ parts)) h.0
    ∙ ap (λ l. part ∷ l) (split-join sep next parts h.1)
