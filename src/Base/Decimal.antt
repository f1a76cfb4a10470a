-- ===== src/Base/Decimal.antt =====
-- strconv.FormatUint and FormatInt in base 10.
use Prim.Native.Nat.{ℕ, zero, suc, ◌+◌, ◌-◌, ◌*◌, ◌/◌, ◌%◌, ◌≤◌, ◌<◌, pred}
use mathlib.Core.Path.{◌≡◌, refl, ap, sym, ◌∙◌, subst}
use mathlib.Core.Logic.{inl, inr}
use mathlib.Core.List.{[], ◌∷◌, ◌++◌, tail-eq_of_cons-eq}
use native.Mathlib.Omega.{arith}
use rout_wire.Base.Tests.{ltb, if◌then◌else◌, Bool-cases}
use rout_wire.Base.Lists.{All, All-append, All-mono}
use rout_wire.Base.Bytes.{Bytes}
use rout_wire.Base.Int.{ℤ, pos, negsuc}

-- The digits of n, with fuel above n.
pub digits : ℕ → ℕ → Bytes
digits zero n = []
digits (suc f) n =
    let rest = digits f (n / 10) in if ltb n 10 then (48 + n) ∷ [] else rest ++ (48 + n % 10) ∷ []

unfoldable pub format_uint : ℕ → Bytes
unfolding digits
format_uint n = digits (suc n) n

unfoldable pub format_int : ℤ → Bytes
unfolding format_uint
format_int (pos n) = format_uint n
format_int (negsuc n) = 45 ∷ format_uint (suc n)

-- The number that a text of digits stands for, after `acc`.
value : ℕ → Bytes → ℕ
value acc [] = acc
value acc (c ∷ s) = value (acc * 10 + (c - 48)) s

value-append : (acc : ℕ) (s : Bytes) (c : ℕ) → value acc (s ++ c ∷ []) ≡ value acc s * 10 + (c - 48)
unfolding value
value-append acc [] c = refl
value-append acc (d ∷ s) c = value-append (acc * 10 + (d - 48)) s c

value-digits : (f n : ℕ) → n < f → value 0 (digits f n) ≡ n
unfolding value digits
value-digits zero n h = absurd (omega arith)
value-digits (suc f) n h = elim (Bool-cases (ltb n 10)) [
  | inl small ↦ rw small (omega arith)
  | inr large ↦
      rw (large, value-append 0 (digits f (n / 10)) (48 + n % 10))
        (ground (arith, value-digits f (n / 10) (ground arith)))
]

-- A digit, or a sign.
abbrev pub IsMark : ℕ → Type 0
IsMark c = 45 ≤ c

digits-IsMark : (f n : ℕ) → All (λ c. 48 ≤ c) (digits f n)
unfolding digits
digits-IsMark zero n = tt
digits-IsMark (suc f) n = elim (Bool-cases (ltb n 10)) [
  | inl small ↦ rw small (omega arith, tt)
  | inr large ↦ rw large (
      All-append (λ c. 48 ≤ c) (digits f (n / 10)) ((48 + n % 10) ∷ []) (digits-IsMark f (n / 10))
        (omega arith, tt))
]

pub format_uint-digits : (n : ℕ) → All (λ c. 48 ≤ c) (format_uint n)
unfolding format_uint
format_uint-digits n = digits-IsMark (suc n) n

pub format_uint-injective : (m n : ℕ) → format_uint m ≡ format_uint n → m ≡ n
unfolding format_uint
format_uint-injective m n h =
    sym (value-digits (suc m) m (omega arith))
    ∙ ap (value 0) h
    ∙ value-digits (suc n) n (omega arith)

minus_not_digits : (n : ℕ) (s : Bytes) → format_uint n ≡ 45 ∷ s → ⊥
minus_not_digits n s h = absurd (omega (arith, subst (All (λ c. 48 ≤ c)) h (format_uint-digits n)))

pub format_int-injective : (a b : ℤ) → format_int a ≡ format_int b → a ≡ b
unfolding format_int
format_int-injective (pos m) (pos n) h = ap pos (format_uint-injective m n h)
format_int-injective (pos m) (negsuc n) h = absurd (minus_not_digits m _ h)
format_int-injective (negsuc m) (pos n) h = absurd (minus_not_digits n _ (sym h))
format_int-injective (negsuc m) (negsuc n) h =
    ap negsuc (ap pred (format_uint-injective (suc m) (suc n) (tail-eq_of_cons-eq h)))

-- No byte of a printed number is NUL.
pub format_int-IsMark : (a : ℤ) → All IsMark (format_int a)
unfolding format_int
format_int-IsMark (pos n) = All-mono (λ c k. omega arith) (format_uint n) (format_uint-digits n)
format_int-IsMark (negsuc n) =
    (omega arith, All-mono (λ c k. omega arith) (format_uint (suc n)) (format_uint-digits (suc n)))

pub format_uint-IsMark : (n : ℕ) → All IsMark (format_uint n)
format_uint-IsMark n = All-mono (λ c k. omega arith) (format_uint n) (format_uint-digits n)
