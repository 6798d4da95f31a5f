-- ===== src/File/Refinement.antt =====
-- A file, read through `read_exact`, as the array of its bytes.
use rust_fatfs.Base.{
  ℕ, zero, suc, ◌+◌, ◌-◌, ◌≤◌, ◌<◌, ◌≡◌, sym, ap, ◌∙◌, arith, List, [], ◌++◌, length, append-nil,
}
use rust_fatfs.Base.Result.{Result, ok}
use rust_fatfs.Io.{Stream, read_exact, read_exact_loop, interruptions}
use rust_fatfs.Io.Contract.{slice}
use rust_fatfs.Io.Rounds.{read_round, read_done}
use rust_fatfs.Disk.Chunks.{length-slice, slices_join}
use rust_fatfs.File.{Volume, Opened}
use rust_fatfs.File.Seek.{seek}
use rust_fatfs.File.Transfer.{read, write}
use rust_fatfs.File.Frozen.{Frozen}
use rust_fatfs.File.Content.{content, Tracks, Covers, read_content}

-- `File` as a stream.
abbrev pub file_stream : {S : Type 0} → Volume S → Stream (Opened S)
file_stream v = record { read = read v; write = write v; seek = seek v }

module _ {S : Type 0} (v : Volume S) (pos : 0 < v.cluster_size) (f : Frozen v) (first : ℕ) where
  read_loop :
      (fuel size n : ℕ) (acc : List ℕ) (o : Opened S)
      → f.Data first
      → Covers v pos f first size
      → Tracks v pos f first size o
      → n < fuel
      → o.file.offset + n ≤ size
      → (o' : Opened S) × (read_exact_loop (file_stream v) fuel n acc o
          ≡ (ok (acc ++ slice (content v pos f first) o.file.offset n), o'))
        × (o'.file.offset ≡ o.file.offset + n)
        × Tracks v pos f first size o'
  read_loop zero size n acc o d covers t more room = absurd (omega arith)
  read_loop (suc fuel) size zero acc o d covers t more room = (
    o,
    read_done (file_stream v) fuel acc o
        ∙ ap (λ (bs : List ℕ). let r : Result (List ℕ) = ok bs in (r, o)) (sym (append-nil acc)),
    omega arith,
    t,
  )
  read_loop (suc fuel) size (suc m) acc o d covers t more room =
      let n = suc m in
      let g = content v pos f first in
      let (k, (o', e, kpos, kle, at, t')) =
        read_content v pos f first size n o d covers t (omega arith) (omega arith) in
      let bytes = slice g o.file.offset k in
      let size_k : length bytes ≡ k = length-slice g o.file.offset k in
      let rest =
        read_loop fuel size (n - k) (acc ++ bytes) o' d covers t' (omega arith) (omega arith) in
      let round = read_round (file_stream v) fuel n acc bytes o o' e (omega arith) (omega arith) in
      (
        rest.0,
        round
            ∙ ap (λ (l : ℕ). read_exact_loop (file_stream v) fuel (n - l) (acc ++ bytes) o') size_k
            ∙ rest.1
            ∙ ap (λ (bs : List ℕ). let r : Result (List ℕ) = ok bs in (r, rest.0))
                (slices_join g o.file.offset o'.file.offset k n acc at kle),
        omega (arith, rest.2, at),
        rest.3,
      )

  -- A refinement: a file whose chain covers its size, on a file system that answers from fixed
  -- tables and bytes, is the array of bytes `content`. `read_exact` of `n` bytes that end within the
  -- size returns the `n` bytes from the offset on, across clusters and short reads of the storage,
  -- and leaves the offset behind them.
  pub read_exact-content :
      (size n : ℕ) (o : Opened S)
      → f.Data first
      → Covers v pos f first size
      → Tracks v pos f first size o
      → o.file.offset + n ≤ size
      → (o' : Opened S) × (read_exact (file_stream v) n o
          ≡ (ok (slice (content v pos f first) o.file.offset n), o'))
        × (o'.file.offset ≡ o.file.offset + n)
        × Tracks v pos f first size o'
  unfolding read_exact
  read_exact-content size n o d covers t room =
      read_loop (n + suc interruptions) size n [] o d covers t (omega arith) room
