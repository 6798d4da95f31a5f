-- ===== src/Io/Words.antt =====
-- The little-endian extensions on a stream that meets the contract.
use rust_fatfs.Base.{ℕ, ◌+◌, ◌*◌, ◌/◌, ◌%◌, ◌≤◌, ◌≡◌, ◌∙◌, arith, List, [], ◌∷◌, length, All}
use rust_fatfs.Base.Result.{ok}
use rust_fatfs.Io.{
  Stream, from_le_bytes, to_le_bytes, read_u8, read_u16_le, read_u32_le, write_u16_le, write_u32_le,
}
use rust_fatfs.Io.Contract.{IsBytes, IsByte, patch}

-- The words at `p`.
abbrev pub word16 : (ℕ → ℕ) → ℕ → ℕ
word16 f p = f p + 256 * f (p + 1)

abbrev pub word32 : (ℕ → ℕ) → ℕ → ℕ
word32 f p = f p + 256 * f (p + 1) + 65536 * f (p + 1 + 1) + 16777216 * f (p + 1 + 1 + 1)

-- The little-endian bytes of a word.
abbrev pub bytes16 : ℕ → List ℕ
bytes16 n = (n % 256) ∷ (n / 256 % 256) ∷ []

abbrev pub bytes32 : ℕ → List ℕ
bytes32 n = (n % 256) ∷ (n / 256 % 256) ∷ (n / 256 / 256 % 256) ∷ (n / 256 / 256 / 256 % 256) ∷ []

module _ {S : Type 0} {stream : Stream S} (c : IsBytes stream) (s : S) where
  open c use {size, byte, pos, fetched, stored}

  pub read_u8_in : pos s + 1 ≤ size s → read_u8 stream s ≡ (ok (byte s (pos s)), fetched s 1)
  unfolding read_u8 from_le_bytes
  read_u8_in h = rw (c.read_in s 1 h) (ground arith)

  pub read_u16_in :
      pos s + 2 ≤ size s → read_u16_le stream s ≡ (ok (word16 (byte s) (pos s)), fetched s 2)
  unfolding read_u16_le from_le_bytes
  read_u16_in h = rw (c.read_in s 2 h) (ground arith)

  pub read_u32_in :
      pos s + 4 ≤ size s → read_u32_le stream s ≡ (ok (word32 (byte s) (pos s)), fetched s 4)
  unfolding read_u32_le from_le_bytes
  read_u32_in h = rw (c.read_in s 4 h) (ground arith)

  pub write_u16_in :
      (n : ℕ) → pos s + 2 ≤ size s → write_u16_le stream n s ≡ (ok tt, stored s (bytes16 n))
  unfolding write_u16_le to_le_bytes
  write_u16_in n h = c.write_in s _ (omega arith) (omega arith)

  pub write_u32_in :
      (n : ℕ) → pos s + 4 ≤ size s → write_u32_le stream n s ≡ (ok tt, stored s (bytes32 n))
  unfolding write_u32_le to_le_bytes
  write_u32_in n h = c.write_in s _ (omega arith) (omega arith)

-- The same behind a seek to `p`.
module _ {S : Type 0} {stream : Stream S} (c : IsBytes stream) (s : S) (p : ℕ) where
  open c use {size, byte, sought, fetched, stored}

  pub read_u8_at :
      p + 1 ≤ size s → read_u8 stream (sought s p) ≡ (ok (byte s p), fetched (sought s p) 1)
  read_u8_at h =
      read_u8_in c (sought s p) (omega (arith, c.size-sought s p, c.pos-sought s p))
      ∙ rw (c.byte-sought, c.pos-sought)

  pub read_u16_at :
      p + 2 ≤ size s
      → read_u16_le stream (sought s p) ≡ (ok (word16 (byte s) p), fetched (sought s p) 2)
  read_u16_at h =
      read_u16_in c (sought s p) (omega (arith, c.size-sought s p, c.pos-sought s p))
      ∙ rw (c.byte-sought, c.pos-sought)

  pub read_u32_at :
      p + 4 ≤ size s
      → read_u32_le stream (sought s p) ≡ (ok (word32 (byte s) p), fetched (sought s p) 4)
  read_u32_at h =
      read_u32_in c (sought s p) (omega (arith, c.size-sought s p, c.pos-sought s p))
      ∙ rw (c.byte-sought, c.pos-sought)

  pub write_u16_at :
      (n : ℕ)
      → p + 2 ≤ size s
      → write_u16_le stream n (sought s p) ≡ (ok tt, stored (sought s p) (bytes16 n))
  write_u16_at n h =
      write_u16_in c (sought s p) n (omega (arith, c.size-sought s p, c.pos-sought s p))

  pub write_u32_at :
      (n : ℕ)
      → p + 4 ≤ size s
      → write_u32_le stream n (sought s p) ≡ (ok tt, stored (sought s p) (bytes32 n))
  write_u32_at n h =
      write_u32_in c (sought s p) n (omega (arith, c.size-sought s p, c.pos-sought s p))

  pub byte-stored_at :
      (bs : List ℕ)
      → p + length bs ≤ size s
      → All IsByte bs
      → byte (stored (sought s p) bs) ≡ patch (byte s) p bs
  byte-stored_at bs h q =
      c.byte-stored (sought s p) bs (omega (arith, c.size-sought s p, c.pos-sought s p)) q
      ∙ rw (c.byte-sought, c.pos-sought)
