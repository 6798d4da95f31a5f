-- ===== src/Table/Fat16/Entry.antt =====
-- Reading and writing one FAT16 entry on a stream of bytes.
use rust_fatfs.Base.{ℕ, ◌+◌, ◌*◌, ◌%◌, ◌^◌, ◌≤◌, ◌<◌, ◌≡◌, ◌∙◌, arith, ◌==◌, if◌then◌else◌}
use rust_fatfs.Base.Result.{ok}
use rust_fatfs.Io.{Stream}
use rust_fatfs.Io.Contract.{IsBytes, patch}
use rust_fatfs.Io.Words.{word16, bytes16, read_u16_at, write_u16_at, byte-stored_at}
use rust_fatfs.FatType.{fat16}
use rust_fatfs.Table.Value.{FatValue}
use rust_fatfs.Table.Spec.{entry, IsStorable}
use rust_fatfs.Table.Fat16.{get, set, get_raw, set_raw, encode, decode}

-- An entry that can be stored is read back from its encoding.
decode-encode : (v : FatValue) → IsStorable fat16 v → (decode (encode v) ≡ v) × (encode v < 2 ^ 16)
unfolding decode encode
decode-encode v h = ground arith

-- The two bytes of an encoded value, and the other words, behind a write.
word16-patch :
    (f : ℕ → ℕ) (n m x : ℕ)
    → x < 2 ^ 16
    → word16 (patch f (n * 2) (bytes16 x)) (m * 2) ≡ (if n == m then x else word16 f (m * 2))
word16-patch f n m x h = ground arith

-- An entry behind the write of another or of its own.
pub entry-patch :
    (f : ℕ → ℕ) (n m : ℕ) (v : FatValue)
    → IsStorable fat16 v
    → entry fat16 (patch f (n * 2) (bytes16 (encode v))) m ≡ (if n == m then v else entry fat16 f m)
unfolding entry
entry-patch f n m v h =
    ground (arith, decode-encode v h, word16-patch f n m (encode v) (decode-encode v h).1)

module _ {S : Type 0} {fat : Stream S} (c : IsBytes fat) (s : S) (n : ℕ) where
  open c use {size, byte, sought, fetched, stored}

  -- The state behind the read of the entry.
  abbrev pub reread : S
  reread = fetched (sought s (n * 2)) 2

  pub size-reread : size reread ≡ size s
  size-reread = c.size-fetched _ 2 ∙ c.size-sought s (n * 2)

  pub byte-reread : byte reread ≡ byte s
  byte-reread = c.byte-fetched _ 2 ∙ c.byte-sought s (n * 2)

  pub get_in : n < 2 ^ 28 → n * 2 + 2 ≤ size s → get fat n s ≡ (ok (entry fat16 (byte s) n), reread)
  unfolding get get_raw entry
  get_in b h =
      let e : n * 2 % 2 ^ 32 ≡ n * 2 = omega arith in
      rw (e, c.seek_in s (n * 2) (omega arith), read_u16_at c s (n * 2) h)

  -- The state behind a write of the entry.
  abbrev pub written : FatValue → S
  written v = stored (sought s (n * 2)) (bytes16 (encode v))

  pub set_in :
      (v : FatValue)
      → n < 2 ^ 28
      → n * 2 + 2 ≤ size s
      → IsStorable fat16 v
      → set fat n v s ≡ (ok tt, written v)
  unfolding set set_raw
  set_in v b h q =
      let e : n * 2 % 2 ^ 32 ≡ n * 2 = omega arith in
      let k : encode v % 2 ^ 16 ≡ encode v = omega (arith, (decode-encode v q).1) in
      rw (e, k, c.seek_in s (n * 2) (omega arith), write_u16_at c s (n * 2) (encode v) h)

  pub byte-written :
      (v : FatValue)
      → n * 2 + 2 ≤ size s
      → byte (written v) ≡ patch (byte s) (n * 2) (bytes16 (encode v))
  byte-written v h = byte-stored_at c s (n * 2) _ h (omega arith)

  pub size-written : (v : FatValue) → size (written v) ≡ size s
  size-written v = c.size-stored _ _ ∙ c.size-sought s (n * 2)
