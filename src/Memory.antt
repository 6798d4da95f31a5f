-- ===== src/Memory.antt =====
-- A storage in memory, as the tests of the repository use one (`std::io::Cursor` behind
-- `StdIoWrapper` of io.rs), of a fixed length. A seek beyond the end is refused, as the documentation of
-- `Seek` asks. It shows that what the library assumes of a storage can be met.
use rust_fatfs.Base.{
  ℕ, zero, suc, ◌+◌, ◌-◌, ◌%◌, ◌^◌, ◌≤◌, ◌<◌, ◌≡◌, refl, ◌∙◌, ap, arith, ltb, if◌then◌else◌, List,
  [], ◌∷◌, Option, some, none, length, All, min, take, take-length,
}
use mathlib.Core.Path.{fun_ext}
use rust_fatfs.Base.Int.{checked_offset}
use rust_fatfs.Base.Result.{ok, err, unexpected_eof, invalid_input, M}
use rust_fatfs.Io.{Stream, SeekFrom, start, end, current, read_exact, write_all, seek_start}
use rust_fatfs.Io.Contract.{IsBytes, IsByte, slice, patch}
use rust_fatfs.Io.Rounds.{
  read_exact_whole, read_exact_short, read_done, write_all_whole, write_all_nothing,
}
use rust_fatfs.Disk.Chunks.{IsChunked, length-slice}

pub record Memory : Type 0 where
  pub cells : ℕ → ℕ
  pub at : ℕ

-- The bytes: a cell holds no more.
abbrev pub content : Memory → ℕ → ℕ
content m i = m.cells i % 256

abbrev pub moved : Memory → ℕ → Memory
moved m p = record m { at = p }

abbrev pub filled : Memory → List ℕ → Memory
filled m bs = record { cells = patch m.cells m.at bs; at = m.at + length bs }

patch-mod :
    (f : ℕ → ℕ) (p : ℕ) (bs : List ℕ) (i : ℕ)
    → All IsByte bs
    → patch f p bs i % 256 ≡ patch (λ x. f x % 256) p bs i
patch-mod f p [] i h = refl
patch-mod f p (b ∷ bs) i h = ground (arith, patch-mod f (p + 1) bs i h.1)

module _ (len : ℕ) where
  unfoldable pub read : ℕ → M Memory (List ℕ)
  read n m = let k = min n (len - m.at) in (ok (slice (content m) m.at k), moved m (m.at + k))

  unfoldable pub write : List ℕ → M Memory ℕ
  write bs m = let k = min (length bs) (len - m.at) in (ok k, filled m (take k bs))

  unfoldable pub target : SeekFrom → Memory → Option ℕ
  target (start p) m = some p
  target (end o) m = checked_offset (2 ^ 64) len o
  target (current o) m = checked_offset (2 ^ 64) m.at o

  unfoldable pub seek : SeekFrom → M Memory ℕ
  unfolding target
  seek from m = elim (target from m) [
    | none ↦ (err invalid_input, m)
    | some p ↦ if ltb len p then (err invalid_input, m) else (ok p, moved m p)
  ]

  unfoldable pub memory : Stream Memory
  unfolding read write seek
  memory = record { read = read; write = write; seek = seek }

  pub seek_in : (m : Memory) (p : ℕ) → p ≤ len → seek_start memory p m ≡ (ok p, moved m p)
  unfolding memory seek target
  seek_in m p h = ground arith

  pub seek_out : (m : Memory) (p : ℕ) → len < p → seek_start memory p m ≡ (err invalid_input, m)
  unfolding memory seek target
  seek_out m p h = ground arith

  pub read_in :
      (m : Memory) (n : ℕ)
      → m.at + n ≤ len
      → read_exact memory n m ≡ (ok (slice (content m) m.at n), moved m (m.at + n))
  unfolding read_exact memory read
  read_in m zero h = read_done memory 8 [] m ∙ ground arith
  read_in m (suc n) h =
      let e : min (suc n) (len - m.at) ≡ suc n = omega arith in
      read_exact_whole memory n (slice (content m) m.at (suc n)) m (moved m (m.at + suc n)) (rw e)
        (length-slice (content m) m.at (suc n))

  pub write_in :
      (m : Memory) (bs : List ℕ)
      → m.at + length bs ≤ len
      → write_all memory bs m ≡ (ok tt, filled m bs)
  unfolding memory write
  write_in m [] h = write_all_nothing memory m ∙ ground arith
  write_in m (b ∷ bs) h =
      let e : min (length (b ∷ bs)) (len - m.at) ≡ length (b ∷ bs) = omega arith in
      write_all_whole memory b bs m (filled m (b ∷ bs))
        (rw e (ap (λ t. (ok (length (b ∷ bs)), filled m t)) (take-length (b ∷ bs))))

  pub read_out :
      (m : Memory) (n : ℕ)
      → m.at ≤ len
      → len < m.at + n
      → (read_exact memory n m).0 ≡ err unexpected_eof
  unfolding read_exact memory read
  read_out m zero o h = absurd (omega arith)
  read_out m (suc n) o h =
      let k = len - m.at in
      let e : min (suc n) (len - m.at) ≡ k = omega arith in
      read_exact_short memory n (slice (content m) m.at k) m (moved m (m.at + k)) (rw e)
        (rw length-slice (omega arith))
        (λ r. let z : min r (len - (m.at + k)) ≡ 0 = omega arith in rw z (ground arith))

  pub content-filled :
      (m : Memory) (bs : List ℕ) → All IsByte bs → content (filled m bs) ≡ patch (content m) m.at bs
  content-filled m bs h = fun_ext λ i. patch-mod m.cells m.at bs i h

  -- The contract of a stream, and that of a single read.
  unfoldable pub is_bytes : IsBytes memory
  is_bytes = record {
    size = λ m. len;
    byte = content;
    pos = λ m. m.at;
    sought = moved;
    fetched = λ m n. moved m (m.at + n);
    stored = filled;
    byte_lt = λ m i. omega arith;
    seek_in = seek_in;
    seek_out = seek_out;
    read_in = read_in;
    read_out = read_out;
    write_in = λ m bs h q. write_in m bs h;
    size-sought = λ m p. refl;
    size-fetched = λ m n. refl;
    size-stored = λ m bs. refl;
    pos-sought = λ m p. refl;
    pos-fetched = λ m n. refl;
    pos-stored = λ m bs. refl;
    byte-sought = λ m p. refl;
    byte-fetched = λ m n. refl;
    byte-stored = λ m bs h q. content-filled m bs q;
  }

  pub read_whole :
      (m : Memory) (n : ℕ)
      → m.at + n ≤ len
      → memory.read n m ≡ (ok (slice (content m) m.at n), moved m (m.at + n))
  unfolding memory read
  read_whole m n h = let e : min n (len - m.at) ≡ n = omega arith in rw e

  unfoldable pub is_chunked : IsChunked is_bytes
  unfolding is_bytes
  is_chunked = record {
    chunk = λ m n. n;
    chunk_le = λ m n. omega arith;
    chunk_pos = λ m n h l. h;
    read_chunk = read_whole;
  }
