-- ===== src/Disk.antt =====
-- fs.rs: `DiskSlice`, a window on a storage that is written once for each mirror.
pub mod Chunks
pub mod Patch
pub mod Read
pub mod Write
pub mod Instance
pub mod Mirrors
use rust_fatfs.Base.{
  ℕ, zero, suc, ◌+◌, ◌-◌, ◌*◌, ◌/◌, ◌%◌, ◌^◌, ◌≤◌, ◌<◌, ◌≡◌, ◌≢◌, ◌⊎◌, inl, inr, refl, ◌∙◌, sym, ap,
  arith, bit_and, bit_or, Bool, true, false, ◌==◌, ltb, leb, if◌then◌else◌, Bool-cases,
  Option-cases, ◌&&◌, ◌||◌, not, List, [], ◌∷◌, ◌++◌, Option, some, none, length, All, ◌↔◌, min,
  max, map, take, drop, replicate,
}
use rust_fatfs.Base.Int.{checked_offset}
use rust_fatfs.Base.Result.{
  Error, io, other, IoError, invalid_input, Result, ok, err, panic, stuck, M, pure, fail, ◌>>=◌,
  ◌>>◌, and_then,
}
use rust_fatfs.Io.{Stream, SeekFrom, start, end, current, seek_start, write_all}

-- The fields that are set by `new` and never change.
pub record Window : Type 0 where
  pub begin : ℕ
  pub size : ℕ
  pub mirrors : ℕ

-- The rest of the struct.
pub record DiskSlice (S : Type 0) : Type 0 where
  pub offset : ℕ
  pub inner : S

-- `From<T> for Error<T>`: the error of a storage becomes `Error::Io`.
unfoldable pub into_io : Error → Error
into_io (io e) = io e
into_io _ = io other

-- A call on `inner`, with `?`.
unfoldable pub lift_result : {A : Type 0} → Result A → Result A
unfolding into_io
lift_result (ok a) = ok a
lift_result (err e) = err (into_io e)
lift_result panic = panic
lift_result stuck = stuck

module _ {S : Type 0} where
  unfoldable pub on_inner : {A : Type 0} → M S A → M (DiskSlice S) A
  unfolding lift_result
  on_inner m d = let (r, s) = m d.inner in (lift_result r, record d { inner = s })

  unfoldable pub skip : ℕ → DiskSlice S → DiskSlice S
  skip n d = record d { offset = d.offset + n }

  unfoldable pub new : S → DiskSlice S
  new inner = record { offset = 0; inner = inner }

module _ {S : Type 0} (storage : Stream S) (w : Window) where
  unfoldable pub read : ℕ → M (DiskSlice S) (List ℕ)
  unfolding on_inner skip
  read n d =
      let offset = w.begin + d.offset in
      let read_size = min n (w.size - d.offset) in
      (do
        on_inner (seek_start storage offset)
        bytes ← on_inner (storage.read read_size)
        λ d'. (ok bytes, skip (length bytes) d'))
        d

  -- `for i in 0..self.mirrors`, with `left` mirrors to go.
  unfoldable pub write_mirrors : ℕ → ℕ → ℕ → List ℕ → M S (Unit {0})
  write_mirrors zero i offset bytes = pure tt
  write_mirrors (suc left) i offset bytes = do
    seek_start storage (offset + i * w.size)
    write_all storage bytes
    write_mirrors left (i + 1) offset bytes

  unfoldable pub write : List ℕ → M (DiskSlice S) ℕ
  unfolding on_inner skip write_mirrors
  write buf d =
      let offset = w.begin + d.offset in
      let write_size = min (length buf) (w.size - d.offset) in
      if write_size == 0
      then (ok 0, d)
      else and_then (on_inner (write_mirrors w.mirrors 0 offset (take write_size buf)) d)
          (λ _ d'. (ok write_size, skip write_size d'))

  -- The new offset before it is compared with the size.
  unfoldable pub target : SeekFrom → DiskSlice S → Option ℕ
  target (current x) d = if ltb d.offset (2 ^ 63) then checked_offset (2 ^ 64) d.offset x else none
  target (start x) d = some x
  target (end o) d = if ltb w.size (2 ^ 63) then checked_offset (2 ^ 64) w.size o else none

  unfoldable pub seek : SeekFrom → M (DiskSlice S) ℕ
  unfolding target
  seek from d = elim (target from d) [
    | none ↦ (err invalid_input, d)
    | some new_offset ↦
        if ltb w.size new_offset
        then (err invalid_input, d)
        else (ok new_offset, record d { offset = new_offset })
  ]

  unfoldable pub stream : Stream (DiskSlice S)
  unfolding read write seek
  stream = record { read = read; write = write; seek = seek }

  unfoldable pub abs_pos : DiskSlice S → ℕ
  abs_pos d = w.begin + d.offset
