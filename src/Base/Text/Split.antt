-- ===== src/Base/Text/Split.antt =====
-- Laws of splitting and joining.
use Prim.Native.Nat.{ℕ}
use mathlib.Core.Path.{◌≡◌, refl, sym, ap, ◌∙◌}
use mathlib.Core.Logic.{inl, inr}
use mathlib.Core.Bool.{true, false}
use mathlib.Core.List.{List, [], ◌∷◌, ◌++◌, append_assoc}
use native.Mathlib.Omega.{arith}
use rout_wire.Base.Tests.{◌==◌, Bool-cases}
use rout_wire.Base.Lists.{All}
use rout_wire.Base.Bytes.{Bytes}
use rout_wire.Base.Text.{glue, split, split_by, join}

-- No byte is the separator.
abbrev pub Lacks : ℕ → Bytes → Type 0
Lacks sep = All (λ c. (c == sep) ≡ false)

-- A piece without the separator, up to a separator, comes off first.
pub split-piece :
    (sep : ℕ) (a s : Bytes) → Lacks sep a → split sep (a ++ (sep ∷ s)) ≡ a ∷ split sep s
unfolding split
split-piece sep [] s h = ground arith
split-piece sep (c ∷ a) s h = rw h.0 (ap (glue c) (split-piece sep a s h.1))

glue-Lacks :
    (sep c : ℕ) (pieces : List Bytes)
    → (c == sep) ≡ false
    → All (Lacks sep) pieces
    → All (Lacks sep) (glue c pieces)
unfolding glue
glue-Lacks sep c [] e h = ((e, tt), tt)
glue-Lacks sep c (x ∷ pieces) e h = ((e, h.0), h.1)

-- No piece holds the separator.
pub split-Lacks : (sep : ℕ) (s : Bytes) → All (Lacks sep) (split sep s)
unfolding split
split-Lacks sep [] = (tt, tt)
split-Lacks sep (c ∷ s) = elim (Bool-cases (c == sep)) [
  | inl e ↦ rw e (tt, split-Lacks sep s)
  | inr e ↦ rw e (glue-Lacks sep c (split sep s) e (split-Lacks sep s))
]

-- Lines that are joined and ended by the separator split into themselves and an empty rest.
pub split-join :
    (sep : ℕ) (x : Bytes) (xs : List Bytes)
    → All (Lacks sep) (x ∷ xs)
    → split sep (join (sep ∷ []) (x ∷ xs) ++ (sep ∷ [])) ≡ (x ∷ xs) ++ ([] ∷ [])
unfolding join split
split-join sep x [] h = split-piece sep x [] h.0
split-join sep x (y ∷ xs) h =
    ap (split sep) (append_assoc x (sep ∷ join (sep ∷ []) (y ∷ xs)) (sep ∷ []))
    ∙ split-piece sep x (join (sep ∷ []) (y ∷ xs) ++ (sep ∷ [])) h.0
    ∙ ap (◌∷◌ x) (split-join sep y xs h.1)

-- Put a text in front of the first piece.
abbrev pub prepend : Bytes → List Bytes → List Bytes
prepend part [] = part ∷ []
prepend part (x ∷ xs) = (part ++ x) ∷ xs

pub prepend-empty : (sep : ℕ) (s : Bytes) → prepend [] (split sep s) ≡ split sep s
unfolding split split_by
prepend-empty sep [] = refl
prepend-empty sep (c ∷ s) = elim (Bool-cases (c == sep)) [
  | inl e ↦ rw e refl
  | inr e ↦ rw e (step (split_by (λ b. b == sep) s))
]
  where
    step : (rest : List Bytes) → prepend [] (glue c rest) ≡ glue c rest
    step [] = unfold glue in refl
    step (x ∷ xs) = unfold glue in refl

pub split-separator :
    (sep c : ℕ) (s : Bytes) → (c == sep) ≡ true → split sep (c ∷ s) ≡ [] ∷ split sep s
unfolding split split_by
split-separator sep c s e = rw e refl

pub prepend-split :
    (sep c : ℕ) (part s : Bytes)
    → (c == sep) ≡ false
    → prepend part (split sep (c ∷ s)) ≡ prepend (part ++ (c ∷ [])) (split sep s)
unfolding split split_by
prepend-split sep c part s e = rw e (step (split_by (λ b. b == sep) s))
  where
    step : (rest : List Bytes) → prepend part (glue c rest) ≡ prepend (part ++ (c ∷ [])) rest
    step [] = unfold glue in refl
    step (x ∷ xs) = unfold glue in ap (λ (p : Bytes). p ∷ xs) (sym (append_assoc part (c ∷ []) x))
