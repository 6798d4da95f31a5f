-- ===== src/Io/Contract.antt =====
-- The contract of a stream that behaves as an array of bytes with a position: what the clients
-- of io.rs rely on, and what `DiskSlice` and the storage are proved to satisfy.
use rust_fatfs.Base.{ℕ, zero, suc, ◌+◌, ◌≤◌, ◌<◌, ◌≡◌, List, [], ◌∷◌, length, All}
use rust_fatfs.Base.{◌==◌, if◌then◌else◌}
use rust_fatfs.Base.Result.{ok, err, unexpected_eof, invalid_input}
use rust_fatfs.Io.{Stream, read_exact, write_all, seek_start}

-- `n` bytes from `p` on.
abbrev pub slice : (ℕ → ℕ) → ℕ → ℕ → List ℕ
slice f p zero = []
slice f p (suc n) = f p ∷ slice f (p + 1) n

-- The bytes `bs` put at `p`.
abbrev pub patch : (ℕ → ℕ) → ℕ → List ℕ → ℕ → ℕ
patch f p [] i = f i
patch f p (b ∷ bs) i = if p == i then b else patch f (p + 1) bs i

abbrev pub IsByte : ℕ → Type 0
IsByte b = b < 256

-- `sought`, `fetched` and `stored` are the states behind a seek, a read and a write that
-- succeed. They are known by size, position and bytes only.
pub record IsBytes {S : Type 0} (stream : Stream S) : Type 0 where
  pub size : S → ℕ
  pub byte : S → ℕ → ℕ
  pub pos : S → ℕ
  pub sought : S → ℕ → S
  pub fetched : S → ℕ → S
  pub stored : S → List ℕ → S
  pub byte_lt : (s : S) (i : ℕ) → byte s i < 256
  pub seek_in : (s : S) (p : ℕ) → p ≤ size s → seek_start stream p s ≡ (ok p, sought s p)
  pub seek_out : (s : S) (p : ℕ) → size s < p → seek_start stream p s ≡ (err invalid_input, s)
  pub read_in :
      (s : S) (n : ℕ)
      → pos s + n ≤ size s
      → read_exact stream n s ≡ (ok (slice (byte s) (pos s) n), fetched s n)
  pub read_out :
      (s : S) (n : ℕ)
      → pos s ≤ size s
      → size s < pos s + n
      → (read_exact stream n s).0 ≡ err unexpected_eof
  pub write_in :
      (s : S) (bs : List ℕ)
      → pos s + length bs ≤ size s
      → All IsByte bs
      → write_all stream bs s ≡ (ok tt, stored s bs)
  pub size-sought : (s : S) (p : ℕ) → size (sought s p) ≡ size s
  pub size-fetched : (s : S) (n : ℕ) → size (fetched s n) ≡ size s
  pub size-stored : (s : S) (bs : List ℕ) → size (stored s bs) ≡ size s
  pub pos-sought : (s : S) (p : ℕ) → pos (sought s p) ≡ p
  pub pos-fetched : (s : S) (n : ℕ) → pos (fetched s n) ≡ pos s + n
  pub pos-stored : (s : S) (bs : List ℕ) → pos (stored s bs) ≡ pos s + length bs
  pub byte-sought : (s : S) (p : ℕ) → byte (sought s p) ≡ byte s
  pub byte-fetched : (s : S) (n : ℕ) → byte (fetched s n) ≡ byte s
  pub byte-stored :
      (s : S) (bs : List ℕ)
      → pos s + length bs ≤ size s
      → All IsByte bs
      → byte (stored s bs) ≡ patch (byte s) (pos s) bs
