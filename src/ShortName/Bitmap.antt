-- ===== src/ShortName/Bitmap.antt =====
-- The bits of a bitmap: `|` sets one and keeps the others.
use rust_fatfs.Base.{ℕ, zero, suc, ◌/◌, ◌%◌, ◌^◌, ◌≡◌, refl, sym, arith, bit_and, bit_or, max}
use rust_fatfs.Base.Bits.{bit_or-digit, bit_and_bit}
use native.Mathlib.Nat.{pow-suc, one-le-pow, div-div-eq-div-mul, mul_comm}

abbrev pub bit : ℕ → ℕ → ℕ
bit i x = x / 2 ^ i % 2

bit_next : (i x : ℕ) → bit (suc i) x ≡ bit i (x / 2)
bit_next i x = rw (pow-suc 2 i, mul_comm (2 ^ i) 2, sym (div-div-eq-div-mul x 2 (2 ^ i))) refl

pub bit-bit_or : (i x y : ℕ) → bit i (bit_or x y) ≡ max (bit i x) (bit i y)
bit-bit_or zero x y = omega (arith, bit_or-digit x y)
bit-bit_or (suc i) x y =
    let half : bit_or x y / 2 ≡ bit_or (x / 2) (y / 2) = omega (arith, bit_or-digit x y) in
    rw (bit_next i (bit_or x y), bit_next i x, bit_next i y, half) (bit-bit_or i (x / 2) (y / 2))

pub bit_and-bit : (i x : ℕ) → bit_and x (2 ^ i) ≡ 0 → bit i x ≡ 0
bit_and-bit i x h = ground (arith, bit_and_bit i x, one-le-pow i 2)

pub bit-pow : (i : ℕ) → bit i (2 ^ i) ≡ 1
bit-pow i = let pos = one-le-pow i 2 in grind arith
