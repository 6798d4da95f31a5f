-- ===== src/Base/Bits.antt =====
-- What `&` and `|` are on fields of bits, for every field width.
use Prim.Native.Nat.{ℕ, zero, suc, ◌+◌, ◌-◌, ◌*◌, ◌/◌, ◌%◌, ◌^◌, ◌<◌, ◌≤◌, min, max}
use Prim.Native.Nat.{bit_and, bit_or, digits, bit_and-bitwise, bit_or-bitwise}
use mathlib.Core.Path.{◌≡◌, refl, ap}
use native.Mathlib.Nat.{pow-suc, one-le-pow}
use native.Mathlib.Omega.{arith}

-- The fuel of the digit recursion does not matter once it reaches the first number.
module _ (z : ℕ → ℕ) (f : ℕ → ℕ → ℕ) where
  digits-fuel : (k l x y : ℕ) → x ≤ k → x ≤ l → digits z f k x y ≡ digits z f l x y
  digits-fuel zero zero x y p q = refl
  digits-fuel zero (suc l) zero y p q = refl
  digits-fuel zero (suc l) (suc x) y p q = absurd (omega arith)
  digits-fuel (suc k) zero zero y p q = refl
  digits-fuel (suc k) zero (suc x) y p q = absurd (omega arith)
  digits-fuel (suc k) (suc l) zero y p q = refl
  digits-fuel (suc k) (suc l) (suc x) y p q =
      rw (digits-fuel k l (suc x / 2) (y / 2) (omega arith) (omega arith))

-- One equation for the lowest bit.
pub bit_and-digit : (x y : ℕ) → bit_and x y ≡ bit_and (x / 2) (y / 2) * 2 + min (x % 2) (y % 2)
bit_and-digit zero y = omega (arith, bit_and-bitwise 0 y, bit_and-bitwise 0 (y / 2))
bit_and-digit (suc x) y = omega (
  arith,
  bit_and-bitwise (suc x) y,
  bit_and-bitwise (suc x / 2) (y / 2),
  digits-fuel (λ b. zero) min x (suc x / 2) (suc x / 2) (y / 2) (omega arith) (omega arith),
)

pub bit_or-digit : (x y : ℕ) → bit_or x y ≡ bit_or (x / 2) (y / 2) * 2 + max (x % 2) (y % 2)
bit_or-digit zero y = omega (arith, bit_or-bitwise 0 y, bit_or-bitwise 0 (y / 2))
bit_or-digit (suc x) y = omega (
  arith,
  bit_or-bitwise (suc x) y,
  bit_or-bitwise (suc x / 2) (y / 2),
  digits-fuel (λ b. b) max x (suc x / 2) (suc x / 2) (y / 2) (omega arith) (omega arith),
)

-- Laws at 0, by halving with a bound that falls.
and-zero-below : (n x : ℕ) → x ≤ n → bit_and x 0 ≡ 0
and-zero-below n zero h = refl
and-zero-below zero (suc x) h = absurd (omega arith)
and-zero-below (suc n) (suc x) h =
    omega (arith, bit_and-digit (suc x) 0, and-zero-below n (suc x / 2) (omega arith))

pub bit_and-zero : (x : ℕ) → bit_and x 0 ≡ 0
bit_and-zero x = and-zero-below x x (omega arith)

or-zero-below : (n x : ℕ) → x ≤ n → bit_or x 0 ≡ x
or-zero-below n zero h = refl
or-zero-below zero (suc x) h = absurd (omega arith)
or-zero-below (suc n) (suc x) h =
    omega (arith, bit_or-digit (suc x) 0, or-zero-below n (suc x / 2) (omega arith))

pub bit_or-zero : (x : ℕ) → bit_or x 0 ≡ x
bit_or-zero x = or-zero-below x x (omega arith)

pub zero-bit_or : (x : ℕ) → bit_or 0 x ≡ x
zero-bit_or x = bit_or-bitwise 0 x

mul-pow-suc : (q k : ℕ) → q * 2 ^ suc k ≡ 2 * (q * 2 ^ k)
mul-pow-suc q k = omega (arith, ap (λ (t : ℕ). q * t) (pow-suc 2 k))

-- `(q << k) | r` and `r | (q << k)` are sums when `r` has `k` bits at most.
pub bit_or_high_low : (k q r : ℕ) → r < 2 ^ k → bit_or (q * 2 ^ k) r ≡ q * 2 ^ k + r
bit_or_high_low zero q r h = ground (arith, bit_or-zero q)
bit_or_high_low (suc k) q r h = ground (
  arith,
  bit_or-digit (q * 2 ^ suc k) r,
  mul-pow-suc q k,
  bit_or_high_low k q (r / 2) (omega arith),
)

pub bit_or_low_high : (k q r : ℕ) → r < 2 ^ k → bit_or r (q * 2 ^ k) ≡ q * 2 ^ k + r
bit_or_low_high zero q r h = ground (arith, zero-bit_or q)
bit_or_low_high (suc k) q r h = ground (
  arith,
  bit_or-digit r (q * 2 ^ suc k),
  mul-pow-suc q k,
  bit_or_low_high k q (r / 2) (omega arith),
)

-- A mask that starts at bit `k` sees the high field only.
and-high-field :
    (k q r m : ℕ) → r < 2 ^ k → bit_and (q * 2 ^ k + r) (m * 2 ^ k) ≡ bit_and q m * 2 ^ k
and-high-field zero q r m h = ground arith
and-high-field (suc k) q r m h = ground (
  arith,
  bit_and-digit (q * 2 ^ suc k + r) (m * 2 ^ suc k),
  mul-pow-suc q k,
  mul-pow-suc m k,
  mul-pow-suc (bit_and q m) k,
  and-high-field k q (r / 2) m (omega arith),
)

pub bit_and_high : (k x m : ℕ) → bit_and x (m * 2 ^ k) ≡ bit_and (x / 2 ^ k) m * 2 ^ k
bit_and_high k x m = ground (arith, one-le-pow k 2, and-high-field k (x / 2 ^ k) (x % 2 ^ k) m)

-- A mask of `k` ones sees the low field only.
and-low-field : (k q r : ℕ) → r < 2 ^ k → bit_and (q * 2 ^ k + r) (2 ^ k - 1) ≡ r
and-low-field zero q r h = ground (arith, bit_and-zero (q + r))
and-low-field (suc k) q r h = ground (
  arith,
  bit_and-digit (q * 2 ^ suc k + r) (2 ^ suc k - 1),
  mul-pow-suc q k,
  pow-suc 2 k,
  one-le-pow k 2,
  and-low-field k q (r / 2) (omega arith),
)

pub bit_and_mask : (k x : ℕ) → bit_and x (2 ^ k - 1) ≡ x % 2 ^ k
bit_and_mask k x = ground (arith, one-le-pow k 2, and-low-field k (x / 2 ^ k) (x % 2 ^ k))

-- One bit.
pub bit_and_bit : (k x : ℕ) → bit_and x (2 ^ k) ≡ x / 2 ^ k % 2 * 2 ^ k
bit_and_bit k x =
    let e = bit_and_high k x 1 in let m = bit_and_mask 1 (x / 2 ^ k) in ground (arith, e, m)

-- A mask of `j` ones from bit `k` on.
pub bit_and_field : (k j x : ℕ) → bit_and x ((2 ^ j - 1) * 2 ^ k) ≡ x / 2 ^ k % 2 ^ j * 2 ^ k
bit_and_field k j x = rw (bit_and_high, bit_and_mask)
