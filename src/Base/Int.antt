-- ===== src/Base/Int.antt =====
-- `i64` values as integers, and the checked conversions on them.
use Prim.Native.Nat.{ℕ, suc, ◌+◌, ◌-◌, ◌^◌}
use mathlib.Core.Option.{Option, none, some}
use rust_fatfs.Base.Tests.{ltb, if◌then◌else◌}

-- `negsuc n` is -(n + 1).
pub data ℤ : Type 0 where
  pos : ℕ → ℤ
  negsuc : ℕ → ℤ

-- `checked_add` of a non-negative `i64` and an `i64`, then `try_from` into an unsigned type of
-- which `limit` is the first number out of range. `none` is every failure of the chain.
abbrev pub checked_offset : ℕ → ℕ → ℤ → Option ℕ
checked_offset limit n (pos x) =
    if ltb (n + x) (2 ^ 63) then (if ltb (n + x) limit then some (n + x) else none) else none
checked_offset limit n (negsuc x) =
    if ltb x n then (if ltb (n - suc x) limit then some (n - suc x) else none) else none
