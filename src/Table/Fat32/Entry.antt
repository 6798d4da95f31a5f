-- ===== src/Table/Fat32/Entry.antt =====
-- Reading and writing one FAT32 entry on a stream of bytes.
use rust_fatfs.Base.{
  ℕ, ◌+◌, ◌*◌, ◌/◌, ◌%◌, ◌^◌, ◌≤◌, ◌<◌, ◌≡◌, ◌∙◌, arith, bit_and, bit_or, false, ◌==◌,
  if◌then◌else◌,
}
use rust_fatfs.Base.Bits.{bit_and_mask, bit_and_field, bit_or_low_high}
use rust_fatfs.Base.Result.{ok}
use rust_fatfs.Io.{Stream}
use rust_fatfs.Io.Contract.{IsBytes, patch}
use rust_fatfs.Io.Words.{word32, bytes32, read_u32_at, write_u32_at, byte-stored_at}
use rust_fatfs.FatType.{fat32}
use rust_fatfs.Table.Value.{FatValue, free}
use rust_fatfs.Table.Spec.{entry, IsStorable}
use rust_fatfs.Table.Fat32.{is_special, get, set, get_raw, set_raw, encode, decode}

-- An entry that can be stored is read back from its encoding.
pub decode-encode :
    (n : ℕ) (v : FatValue)
    → n < 0x0FFF_FFF7
    → IsStorable fat32 v
    → (decode n (encode v) ≡ v) × (encode v < 2 ^ 28)
unfolding decode encode
decode-encode n v b h = ground arith

-- The 32 bits that `set` writes over `old`.
abbrev pub merged : ℕ → FatValue → ℕ
merged old v = bit_or (encode v) (bit_and old 0xF000_0000)

-- The four reserved bits stay, and the value takes the other 28.
pub merged_fields :
    (old : ℕ) (v : FatValue)
    → old < 2 ^ 32
    → IsStorable fat32 v
    → merged old v ≡ old / 2 ^ 28 * 2 ^ 28 + encode v
merged_fields old v b h =
    let lt = (decode-encode 0 v (omega arith) h).1 in
    rw (bit_and_field 28 4 old, bit_or_low_high 28 (old / 2 ^ 28 % 2 ^ 4) (encode v) lt)
      (omega arith)

pub word32-patch :
    (f : ℕ → ℕ) (n m x : ℕ)
    → x < 2 ^ 32
    → word32 (patch f (n * 4) (bytes32 x)) (m * 4) ≡ (if n == m then x else word32 f (m * 4))
word32-patch f n m x h = ground arith

pub word32_self :
    (f : ℕ → ℕ) (n x : ℕ) → x < 2 ^ 32 → word32 (patch f (n * 4) (bytes32 x)) (n * 4) ≡ x
word32_self f n x h = ground (arith, word32-patch f n n x h)

pub word32-lt : (f : ℕ → ℕ) (p : ℕ) → ((i : ℕ) → f i < 256) → word32 f p < 2 ^ 32
word32-lt f p h = omega (arith, h p, h (p + 1), h (p + 1 + 1), h (p + 1 + 1 + 1))

-- An entry behind the write of another or of its own.
pub entry-patch :
    (f : ℕ → ℕ) (n m : ℕ) (v : FatValue)
    → ((i : ℕ) → f i < 256)
    → m < 0x0FFF_FFF7
    → IsStorable fat32 v
    → entry fat32 (patch f (n * 4) (bytes32 (merged (word32 f (n * 4)) v))) m
      ≡ (if n == m then v else entry fat32 f m)
unfolding entry
entry-patch f n m v hf b h =
    let old = word32 f (n * 4) in
    ground (
      arith,
      decode-encode m v b h,
      merged_fields old v (word32-lt f (n * 4) hf) h,
      word32-lt f (n * 4) hf,
      bit_and_mask 28 (merged old v),
      word32-patch f n m (merged old v),
    )

module _ {S : Type 0} {fat : Stream S} (c : IsBytes fat) (s : S) (n : ℕ) where
  open c use {size, byte, sought, fetched, stored}

  -- The state behind the read of the entry, in which `set` seeks for the second time.
  abbrev pub reread : S
  reread = fetched (sought s (n * 4)) 4

  get_raw_in :
      n < 0x0FFF_FFF7
      → n * 4 + 4 ≤ size s
      → get_raw fat n s ≡ (ok (word32 (byte s) (n * 4)), reread)
  unfolding get_raw
  get_raw_in b h =
      let e : n * 4 % 2 ^ 32 ≡ n * 4 = omega arith in
      rw (e, c.seek_in s (n * 4) (omega arith), read_u32_at c s (n * 4) h)

  pub get_in :
      n < 0x0FFF_FFF7 → n * 4 + 4 ≤ size s → get fat n s ≡ (ok (entry fat32 (byte s) n), reread)
  unfolding get entry
  get_in b h = rw (get_raw_in b h)

  not_special : n < 0x0FFF_FFF7 → is_special n ≡ false
  unfolding is_special
  not_special b = ground arith

  pub size-reread : size reread ≡ size s
  size-reread = c.size-fetched _ 4 ∙ c.size-sought s (n * 4)

  pub byte-reread : byte reread ≡ byte s
  byte-reread = c.byte-fetched _ 4 ∙ c.byte-sought s (n * 4)

  -- The state behind a write of the entry.
  abbrev pub written : FatValue → S
  written v = stored (sought reread (n * 4)) (bytes32 (merged (word32 (byte s) (n * 4)) v))

  set_raw_in :
      (x : ℕ)
      → n < 0x0FFF_FFF7
      → n * 4 + 4 ≤ size s
      → set_raw fat n x reread ≡ (ok tt, stored (sought reread (n * 4)) (bytes32 x))
  unfolding set_raw
  set_raw_in x b h =
      let e : n * 4 % 2 ^ 32 ≡ n * 4 = omega arith in
      rw (
        e,
        c.seek_in reread (n * 4) (omega (arith, size-reread)),
        write_u32_at c reread (n * 4) x (omega (arith, size-reread)),
      )

  pub set_in :
      (v : FatValue) → n < 0x0FFF_FFF7 → n * 4 + 4 ≤ size s → set fat n v s ≡ (ok tt, written v)
  unfolding set
  set_in free b h = rw (get_raw_in b h, not_special b) (set_raw_in _ b h)
  set_in v b h = rw (get_raw_in b h) (set_raw_in _ b h)

  pub byte-written :
      (v : FatValue)
      → n * 4 + 4 ≤ size s
      → byte (written v) ≡ patch (byte s) (n * 4) (bytes32 (merged (word32 (byte s) (n * 4)) v))
  byte-written v h =
      byte-stored_at c reread (n * 4) _ (omega (arith, size-reread)) (omega arith) ∙ rw byte-reread

  pub size-written : (v : FatValue) → size (written v) ≡ size s
  size-written v = c.size-stored _ _ ∙ c.size-sought reread (n * 4) ∙ size-reread
