-- ===== src/Base/Text/Trim.antt =====
-- Laws of trimming and lower case.
use Prim.Native.Nat.{ℕ}
use mathlib.Core.Path.{◌≡◌, refl, ap, ◌∙◌}
use mathlib.Core.Logic.{inl, inr}
use mathlib.Core.Bool.{Bool, false}
use mathlib.Core.List.{[], ◌∷◌}
use native.Mathlib.Omega.{arith}
use rout_wire.Base.Tests.{Bool-cases}
use rout_wire.Base.Lists.{All}
use rout_wire.Base.Bytes.{Bytes}
use rout_wire.Base.Text.{is_space, lower, to_lower, trim_left, attach, trim_right, trim, trim_space}

pub lower_idem : (c : ℕ) → lower (lower c) ≡ lower c
lower_idem c = ground arith

is_space-lower : (c : ℕ) → is_space (lower c) ≡ is_space c
is_space-lower c = ground arith

pub to_lower_idem : (s : Bytes) → to_lower (to_lower s) ≡ to_lower s
to_lower_idem [] = refl
to_lower_idem (c ∷ s) = cc (lower_idem c, to_lower_idem s)

trim_left-to_lower : (s : Bytes) → trim_left is_space (to_lower s) ≡ to_lower (trim_left is_space s)
unfolding trim_left
trim_left-to_lower [] = refl
trim_left-to_lower (c ∷ s) = ground (arith, is_space-lower c, trim_left-to_lower s)

attach-to_lower :
    (c : ℕ) (s : Bytes) → attach is_space (lower c) (to_lower s) ≡ to_lower (attach is_space c s)
unfolding attach
attach-to_lower c [] = ground (arith, is_space-lower c)
attach-to_lower c (d ∷ s) = refl

trim_right-to_lower :
    (s : Bytes) → trim_right is_space (to_lower s) ≡ to_lower (trim_right is_space s)
unfolding trim_right
trim_right-to_lower [] = refl
trim_right-to_lower (c ∷ s) =
    ap (attach is_space (lower c)) (trim_right-to_lower s)
    ∙ attach-to_lower c (trim_right is_space s)

pub trim_space-to_lower : (s : Bytes) → trim_space (to_lower s) ≡ to_lower (trim_space s)
unfolding trim_space
trim_space-to_lower s =
    ap (trim_right is_space) (trim_left-to_lower s) ∙ trim_right-to_lower (trim_left is_space s)

module _ (p : ℕ → Bool) where
  -- The text does not begin with a byte of the set.
  abbrev pub StartsClean : Bytes → Type 0
  StartsClean [] = Unit
  StartsClean (c ∷ s) = p c ≡ false

  trim_left-clean : (s : Bytes) → StartsClean (trim_left p s)
  unfolding trim_left
  trim_left-clean [] = tt
  trim_left-clean (c ∷ s) = elim (Bool-cases (p c)) [
    | inl e ↦ rw e (trim_left-clean s)
    | inr e ↦ rw e e
  ]

  trim_left-of_clean : (s : Bytes) → StartsClean s → trim_left p s ≡ s
  unfolding trim_left
  trim_left-of_clean [] h = refl
  trim_left-of_clean (c ∷ s) h = rw h

  attach-clean : (c : ℕ) (s : Bytes) → p c ≡ false → StartsClean (attach p c s)
  unfolding attach
  attach-clean c [] h = rw h h
  attach-clean c (d ∷ s) h = h

  trim_right-clean : (s : Bytes) → StartsClean s → StartsClean (trim_right p s)
  unfolding trim_right
  trim_right-clean [] h = tt
  trim_right-clean (c ∷ s) h = attach-clean c (trim_right p s) h

  attach_idem :
      (c : ℕ) (s : Bytes) → trim_right p s ≡ s → trim_right p (attach p c s) ≡ attach p c s
  unfolding trim_right
  attach_idem c [] h = ground arith
  attach_idem c (d ∷ s) h = ap (attach p c) h

  trim_right_idem : (s : Bytes) → trim_right p (trim_right p s) ≡ trim_right p s
  unfolding trim_right
  trim_right_idem [] = refl
  trim_right_idem (c ∷ s) = attach_idem c (trim_right p s) (trim_right_idem s)

  pub trim_idem : (s : Bytes) → trim p (trim p s) ≡ trim p s
  unfolding trim
  trim_idem s =
      ap (trim_right p) (
        trim_left-of_clean (trim_right p (trim_left p s))
          (trim_right-clean (trim_left p s) (trim_left-clean s)))
      ∙ trim_right_idem (trim_left p s)

pub trim_space_idem : (s : Bytes) → trim_space (trim_space s) ≡ trim_space s
unfolding trim_space
trim_space_idem = trim_idem is_space

-- Trimming keeps what holds of every byte.
module _ (P : ℕ → Type 0) (p : ℕ → Bool) where
  All-trim_left : (s : Bytes) → All P s → All P (trim_left p s)
  unfolding trim_left
  All-trim_left [] h = tt
  All-trim_left (c ∷ s) h = elim (Bool-cases (p c)) [
    | inl e ↦ rw e (All-trim_left s h.1)
    | inr e ↦ rw e h
  ]

  All-attach : (c : ℕ) (s : Bytes) → P c → All P s → All P (attach p c s)
  unfolding attach
  All-attach c [] h k = elim (Bool-cases (p c)) [ inl e ↦ rw e tt | inr e ↦ rw e (h, tt) ]
  All-attach c (d ∷ s) h k = (h, k)

  All-trim_right : (s : Bytes) → All P s → All P (trim_right p s)
  unfolding trim_right
  All-trim_right [] h = tt
  All-trim_right (c ∷ s) h = All-attach c (trim_right p s) h.0 (All-trim_right s h.1)

  pub All-trim : (s : Bytes) → All P s → All P (trim p s)
  unfolding trim
  All-trim s h = All-trim_right (trim_left p s) (All-trim_left s h)
