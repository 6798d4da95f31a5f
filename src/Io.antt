-- ===== src/Io.antt =====
-- io.rs: the `Read`, `Write` and `Seek` traits, with the provided methods `read_exact` and
-- `write_all`, and the little-endian extensions. A buffer to read into is its length.
pub mod Codec
pub mod Contract
pub mod Words
pub mod Rounds
pub mod Roundtrip
pub mod Split
use rust_fatfs.Base.{ℕ, zero, suc, ◌+◌, ◌-◌, ◌*◌, ◌/◌, ◌%◌, List, [], ◌∷◌, ◌++◌, length, drop}
use rust_fatfs.Base.{true, false, ◌==◌, if◌then◌else◌}
use rust_fatfs.Base.Int.{ℤ}
use rust_fatfs.Base.Result.{unexpected_eof, write_zero, is_interrupted}
use rust_fatfs.Base.Result.{Result, ok, err, panic, stuck, M, pure, ◌>>=◌}

pub data SeekFrom : Type 0 where
  start : ℕ → SeekFrom
  end : ℤ → SeekFrom
  current : ℤ → SeekFrom

-- What a stream has to implement. `read n` returns the bytes read, at most `n`.
pub record Stream (S : Type 0) : Type 0 where
  pub read : ℕ → M S (List ℕ)
  pub write : List ℕ → M S ℕ
  pub seek : SeekFrom → M S ℕ

-- A loop moves a byte in each round that is not interrupted. The model goes through this many
-- interruptions of one call, and is `stuck` at the next.
abbrev pub interruptions : ℕ
interruptions = 8

unfoldable pub from_le_bytes : List ℕ → ℕ
from_le_bytes [] = 0
from_le_bytes (b ∷ bs) = b + 256 * from_le_bytes bs

unfoldable pub to_le_bytes : ℕ → ℕ → List ℕ
to_le_bytes zero n = []
to_le_bytes (suc k) n = (n % 256) ∷ to_le_bytes k (n / 256)

module _ {S : Type 0} (stream : Stream S) where
  -- One round of `read_exact` behind the call of `read`; `again` is the next round.
  unfoldable pub after_read :
      (ℕ → List ℕ → M S (List ℕ)) → ℕ → List ℕ → Result (List ℕ) × S → Result (List ℕ) × S
  unfolding is_interrupted
  after_read again n acc (ok [], s) = (err unexpected_eof, s)
  after_read again n acc (ok (b ∷ bs), s) = again (n - length (b ∷ bs)) (acc ++ (b ∷ bs)) s
  after_read again n acc (err e, s) = if is_interrupted e then again n acc s else (err e, s)
  after_read again n acc (panic, s) = (panic, s)
  after_read again n acc (stuck, s) = (stuck, s)

  unfoldable pub read_exact_loop : ℕ → ℕ → List ℕ → M S (List ℕ)
  unfolding after_read
  read_exact_loop zero n acc s = (stuck, s)
  read_exact_loop (suc fuel) n acc s = elim (n == 0) [
    | true ↦ (ok acc, s)
    | false ↦ after_read (read_exact_loop fuel) n acc (stream.read n s)
  ]

  unfoldable pub read_exact : ℕ → M S (List ℕ)
  unfolding read_exact_loop
  read_exact n = read_exact_loop (n + suc interruptions) n []

  -- One round of `write_all` behind the call of `write`.
  unfoldable pub after_write :
      (List ℕ → M S (Unit {0})) → List ℕ → Result ℕ × S → Result (Unit {0}) × S
  unfolding is_interrupted
  after_write again bs (ok zero, s) = (err write_zero, s)
  after_write again bs (ok (suc n), s) = again (drop (suc n) bs) s
  after_write again bs (err e, s) = if is_interrupted e then again bs s else (err e, s)
  after_write again bs (panic, s) = (panic, s)
  after_write again bs (stuck, s) = (stuck, s)

  unfoldable pub write_all_loop : ℕ → List ℕ → M S (Unit {0})
  unfolding after_write
  write_all_loop zero bs s = (stuck, s)
  write_all_loop (suc fuel) [] s = (ok tt, s)
  write_all_loop (suc fuel) (b ∷ bs) s =
      after_write (write_all_loop fuel) (b ∷ bs) (stream.write (b ∷ bs) s)

  unfoldable pub write_all : List ℕ → M S (Unit {0})
  unfolding write_all_loop
  write_all bs = write_all_loop (length bs + suc interruptions) bs

  unfoldable pub read_u8 : M S ℕ
  read_u8 = do buf ← read_exact 1; pure (from_le_bytes buf)

  unfoldable pub read_u16_le : M S ℕ
  read_u16_le = do buf ← read_exact 2; pure (from_le_bytes buf)

  unfoldable pub read_u32_le : M S ℕ
  read_u32_le = do buf ← read_exact 4; pure (from_le_bytes buf)

  unfoldable pub write_u8 : ℕ → M S (Unit {0})
  write_u8 n = write_all (n ∷ [])

  unfoldable pub write_u16_le : ℕ → M S (Unit {0})
  write_u16_le n = write_all (to_le_bytes 2 n)

  unfoldable pub write_u32_le : ℕ → M S (Unit {0})
  write_u32_le n = write_all (to_le_bytes 4 n)

  -- `seek(SeekFrom::Start(p))`
  abbrev pub seek_start : ℕ → M S ℕ
  seek_start p = stream.seek (start p)
