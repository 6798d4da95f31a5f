-- ===== src/Table/Fat12/Entry.antt =====
-- Reading and writing one FAT12 entry on a stream of bytes.
use rust_fatfs.Base.{ℕ, ◌+◌, ◌*◌, ◌/◌, ◌%◌, ◌^◌, ◌≤◌, ◌<◌, ◌≡◌, ◌∙◌, arith, ◌==◌, if◌then◌else◌}
use rust_fatfs.Base.Bits.{bit_and_mask, bit_and_field, bit_or_low_high, bit_or_high_low}
use rust_fatfs.Base.Result.{ok}
use rust_fatfs.Io.{Stream}
use rust_fatfs.Io.Contract.{IsBytes, patch}
use rust_fatfs.Io.Words.{word16, bytes16, read_u16_at, write_u16_at, byte-stored_at}
use rust_fatfs.FatType.{fat12}
use rust_fatfs.Table.Value.{FatValue}
use rust_fatfs.Table.Spec.{entry, IsStorable}
use rust_fatfs.Table.Fat12.{
  get, set, get_raw, set_raw, encode, decode, entry_of, repack, fat_offset,
}

-- An entry that can be stored is read back from its encoding.
decode-encode : (v : FatValue) → IsStorable fat12 v → (decode (encode v) ≡ v) × (encode v < 2 ^ 12)
unfolding decode encode
decode-encode v h = ground arith

-- The masks and shifts as arithmetic.
pub entry_of_sum : (n w : ℕ) → entry_of n w ≡ (if n % 2 == 0 then w % 4096 else w / 16)
unfolding entry_of
entry_of_sum n w = ground (arith, bit_and_mask 1 n, bit_and_mask 12 w)

repack_sum :
    (n w x : ℕ)
    → w < 2 ^ 16
    → x < 2 ^ 12
    → repack n w x ≡ (if n % 2 == 0 then w / 4096 * 4096 + x else x * 16 + w % 16)
unfolding repack
repack_sum n w x h k = ground (
  arith,
  bit_and_mask 1 n,
  bit_and_field 12 4 w,
  bit_or_high_low 12 (w / 4096) x,
  bit_and_mask 4 w,
  bit_or_low_high 4 x (w % 16),
)

abbrev pub offset : ℕ → ℕ
offset n = n + n / 2

-- The entry of `m` behind a write of the 16 bits at the offset of `n`, which it may share.
entry_of-patch :
    (f : ℕ → ℕ) (n m x : ℕ)
    → ((i : ℕ) → f i < 256)
    → x < 2 ^ 12
    → entry_of m
        (word16 (patch f (offset n) (bytes16 (repack n (word16 f (offset n)) x))) (offset m))
      ≡ (if n == m then x else entry_of m (word16 f (offset m)))
entry_of-patch f n m x hf h =
    let w = word16 f (offset n) in
    ground (
      arith,
      hf (offset n),
      hf (offset n + 1),
      hf (offset m),
      hf (offset m + 1),
      repack_sum n w x,
      entry_of_sum m (word16 (patch f (offset n) (bytes16 (repack n w x))) (offset m)),
      entry_of_sum m (word16 f (offset m)),
    )

-- An entry behind the write of another or of its own.
pub entry-patch :
    (f : ℕ → ℕ) (n m : ℕ) (v : FatValue)
    → ((i : ℕ) → f i < 256)
    → IsStorable fat12 v
    → entry fat12 (patch f (offset n) (bytes16 (repack n (word16 f (offset n)) (encode v)))) m
      ≡ (if n == m then v else entry fat12 f m)
unfolding entry
entry-patch f n m v hf h =
    let (e, b) = decode-encode v h in ground (arith, e, entry_of-patch f n m (encode v) hf b)

module _ {S : Type 0} {fat : Stream S} (c : IsBytes fat) (s : S) (n : ℕ) where
  open c use {size, byte, sought, fetched, stored}

  -- The state behind the read of the entry, in which `set` seeks for the second time.
  abbrev pub reread : S
  reread = fetched (sought s (offset n)) 2

  pub get_in :
      n < 2 ^ 28 → offset n + 2 ≤ size s → get fat n s ≡ (ok (entry fat12 (byte s) n), reread)
  unfolding get get_raw entry
  get_in b h =
      let e : fat_offset n ≡ offset n = omega arith in
      rw (e, c.seek_in s (offset n) (omega arith), read_u16_at c s (offset n) h)

  pub size-reread : size reread ≡ size s
  size-reread = c.size-fetched _ 2 ∙ c.size-sought s (offset n)

  pub byte-reread : byte reread ≡ byte s
  byte-reread = c.byte-fetched _ 2 ∙ c.byte-sought s (offset n)

  -- The state behind a write of the entry.
  abbrev pub written : FatValue → S
  written v =
      stored (sought reread (offset n)) (bytes16 (repack n (word16 (byte s) (offset n)) (encode v)))

  pub set_in :
      (v : FatValue) → n < 2 ^ 28 → offset n + 2 ≤ size s → set fat n v s ≡ (ok tt, written v)
  unfolding set set_raw
  set_in v b h =
      let e : fat_offset n ≡ offset n = omega arith in
      rw (
        e,
        c.seek_in s (offset n) (omega arith),
        read_u16_at c s (offset n) h,
        c.seek_in reread (offset n) (omega (arith, size-reread)),
        write_u16_at c reread (offset n) (repack n (word16 (byte s) (offset n)) (encode v))
            (omega (arith, size-reread)),
      )

  pub byte-written :
      (v : FatValue)
      → offset n + 2 ≤ size s
      → byte (written v)
        ≡ patch (byte s) (offset n) (bytes16 (repack n (word16 (byte s) (offset n)) (encode v)))
  byte-written v h =
      byte-stored_at c reread (offset n) _ (omega (arith, size-reread)) (omega arith)
      ∙ rw byte-reread

  pub size-written : (v : FatValue) → size (written v) ≡ size s
  size-written v = c.size-stored _ _ ∙ c.size-sought reread (offset n) ∙ size-reread
