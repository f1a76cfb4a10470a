-- ===== src/Base/Bits.antt =====
-- Masks and disjoint fields as arithmetic: `a & (2^k - 1)` and `(q * 2^k) | r` at every width k.
use Prim.Native.Nat.{
  ℕ, zero, suc, ◌+◌, ◌-◌, ◌*◌, ◌/◌, ◌%◌, ◌^◌, ◌≤◌, ◌<◌, min, max, digits, bitwise, bit_and, bit_or,
  bit_and-bitwise, bit_or-bitwise,
}
use mathlib.Core.Path.{◌≡◌, refl, ap}
use native.Mathlib.Omega.{arith}
use native.Mathlib.Nat.{pow-suc, one-le-pow}

-- Any two fuels that reach the number's top digit give one result.
enough_fuel :
    (low : ℕ → ℕ) (op : ℕ → ℕ → ℕ) (f g x y : ℕ)
    → x ≤ f
    → x ≤ g
    → digits low op f x y ≡ digits low op g x y
enough_fuel low op zero zero x y hf hg = refl
enough_fuel low op (suc f) (suc g) zero y hf hg = refl
enough_fuel low op (suc f) zero zero y hf hg = refl
enough_fuel low op zero (suc g) zero y hf hg = refl
enough_fuel low op (suc f) zero (suc x) y hf hg = absurd (omega arith)
enough_fuel low op zero (suc g) (suc x) y hf hg = absurd (omega arith)
enough_fuel low op (suc f) (suc g) (suc x) y hf hg =
    omega (arith, enough_fuel low op f g (suc x / 2) (y / 2) (omega arith) (omega arith))

lowest_digit :
    (low : ℕ → ℕ) (op : ℕ → ℕ → ℕ) (x y : ℕ)
    → bitwise low op (suc x) y ≡ bitwise low op (suc x / 2) (y / 2) * 2 + op (suc x % 2) (y % 2)
lowest_digit low op x y =
    omega (arith, enough_fuel low op x (suc x / 2) (suc x / 2) (y / 2) (omega arith) (omega arith))

and_digit : (x y : ℕ) → bit_and x y ≡ bit_and (x / 2) (y / 2) * 2 + min (x % 2) (y % 2)
and_digit zero y = simp bit_and-bitwise ((omega arith))
and_digit (suc x) y = simp bit_and-bitwise ((lowest_digit (λ n. 0) min x y))

or_digit : (x y : ℕ) → bit_or x y ≡ bit_or (x / 2) (y / 2) * 2 + max (x % 2) (y % 2)
or_digit zero y = simp bit_or-bitwise ((omega arith))
or_digit (suc x) y = simp bit_or-bitwise ((lowest_digit (λ n. n) max x y))

and_zero : (f x : ℕ) → x ≤ f → bit_and x 0 ≡ 0
and_zero f zero h = refl
and_zero zero (suc x) h = absurd (omega arith)
and_zero (suc f) (suc x) h =
    omega (arith, and_digit (suc x) 0, and_zero f (suc x / 2) (omega arith))

or_zero : (f x : ℕ) → x ≤ f → bit_or x 0 ≡ x
or_zero f zero h = refl
or_zero zero (suc x) h = absurd (omega arith)
or_zero (suc f) (suc x) h = omega (arith, or_digit (suc x) 0, or_zero f (suc x / 2) (omega arith))

double : (k q : ℕ) → q * 2 ^ suc k ≡ 2 * (q * 2 ^ k)
double k q = omega (arith, ap (λ (t : ℕ). q * t) (pow-suc 2 k))

-- Fields that do not overlap add up.
pub bit_or-fields : (k q r : ℕ) → r < 2 ^ k → bit_or (q * 2 ^ k) r ≡ q * 2 ^ k + r
bit_or-fields zero q r h = ground (arith, or_zero (q * 2 ^ 0) (q * 2 ^ 0))
bit_or-fields (suc k) q r h =
    ground (arith, or_digit (q * 2 ^ suc k) r, double k q, pow-suc 2 k, bit_or-fields k q (r / 2))

low_field : (k q r : ℕ) → r < 2 ^ k → bit_and (q * 2 ^ k + r) (2 ^ k - 1) ≡ r
low_field zero q r h = ground (arith, and_zero (q * 2 ^ 0 + r) (q * 2 ^ 0 + r))
low_field (suc k) q r h = ground (
  arith,
  and_digit (q * 2 ^ suc k + r) (2 ^ suc k - 1),
  double k q,
  pow-suc 2 k,
  one-le-pow k 2,
  low_field k q (r / 2),
)

-- A mask of k low bits takes the remainder by 2 ^ k.
pub bit_and-mask : (k x : ℕ) → bit_and x (2 ^ k - 1) ≡ x % 2 ^ k
bit_and-mask k x = ground (arith, one-le-pow k 2, low_field k (x / 2 ^ k) (x % 2 ^ k))
