-- ===== src/Table/Fat32/Scan.antt =====
-- The scans of `Fat32` are the plain scans over its entries.
use rust_fatfs.Base.{ℕ, zero, suc, ◌+◌, ◌-◌, ◌*◌, ◌≤◌, ◌<◌, ◌≡◌, refl, arith, bit_and, ◌==◌}
use rust_fatfs.Base.Result.{ok}
use rust_fatfs.Io.{Stream}
use rust_fatfs.Io.Contract.{IsBytes}
use rust_fatfs.Io.Words.{word32, read_u32_in}
use rust_fatfs.FatType.{fat32}
use rust_fatfs.Table.Value.{is_free}
use rust_fatfs.Table.Spec.{entry, first_free, count_of_free, found}
use rust_fatfs.Table.Fat32.{decode, find_free, find_free_loop, count_free, count_free_loop}

is_free-decode : (n v : ℕ) → n < 0x0FFF_FFF7 → is_free (decode n v) ≡ (v == 0)
unfolding decode
is_free-decode n v h = ground arith

is_free-entry :
    (f : ℕ → ℕ) (n : ℕ)
    → n < 0x0FFF_FFF7
    → is_free (entry fat32 f n) ≡ (bit_and (word32 f (n * 4)) 0x0FFF_FFFF == 0)
unfolding entry
is_free-entry f n h = is_free-decode n (bit_and (word32 f (n * 4)) 0x0FFF_FFFF) h

module _ {S : Type 0} {fat : Stream S} (c : IsBytes fat) where
  open c use {size, byte, pos, sought, fetched}

  find_free_loop_lem :
      (left n : ℕ) (s : S) (f : ℕ → ℕ)
      → byte s ≡ f
      → pos s ≡ n * 4
      → (n + left) * 4 ≤ size s
      → n + left ≤ 0x0FFF_FFF7
      → let r = find_free_loop fat left n s in
        (r.0 ≡ found (first_free (entry fat32 f) left n)) × (byte r.1 ≡ f) × (size r.1 ≡ size s)
  unfolding find_free_loop first_free
  find_free_loop_lem zero n s f hb hp h l = (refl, hb, refl)
  find_free_loop_lem (suc left) n s f hb hp h l = ground (
    arith,
    read_u32_in c s (omega arith),
    is_free-entry f n,
    c.byte-fetched s 4,
    c.size-fetched s 4,
    c.pos-fetched s 4,
    find_free_loop_lem left (n + 1) (fetched s 4) f,
  )

  count_free_loop_lem :
      (left n k : ℕ) (s : S) (f : ℕ → ℕ)
      → byte s ≡ f
      → pos s ≡ n * 4
      → (n + left) * 4 ≤ size s
      → n + left ≤ 0x0FFF_FFF7
      → let r = count_free_loop fat left n k s in
        (r.0 ≡ ok (k + count_of_free (entry fat32 f) left n)) × (byte r.1 ≡ f) × (size r.1 ≡ size s)
  unfolding count_free_loop count_of_free
  count_free_loop_lem zero n k s f hb hp h l = (ground arith, hb, refl)
  count_free_loop_lem (suc left) n k s f hb hp h l = ground (
    arith,
    read_u32_in c s (omega arith),
    is_free-entry f n,
    c.byte-fetched s 4,
    c.size-fetched s 4,
    c.pos-fetched s 4,
    count_free_loop_lem left (n + 1) (k + 1) (fetched s 4) f,
    count_free_loop_lem left (n + 1) k (fetched s 4) f,
  )

  pub find_free_in :
      (a b : ℕ) (s : S)
      → a ≤ b
      → b ≤ 0x0FFF_FFF7
      → b * 4 ≤ size s
      → let r = find_free fat a b s in
        (r.0 ≡ found (first_free (entry fat32 (byte s)) (b - a) a))
        × (byte r.1 ≡ byte s)
        × (size r.1 ≡ size s)
  unfolding find_free
  find_free_in a b s h k l = ground (
    arith,
    c.seek_in s (a * 4),
    c.byte-sought s (a * 4),
    c.size-sought s (a * 4),
    c.pos-sought s (a * 4),
    find_free_loop_lem (b - a) a (sought s (a * 4)) (byte s),
  )

  pub count_free_in :
      (b : ℕ) (s : S)
      → 2 ≤ b
      → b ≤ 0x0FFF_FFF7
      → b * 4 ≤ size s
      → let r = count_free fat b s in
        (r.0 ≡ ok (count_of_free (entry fat32 (byte s)) (b - 2) 2))
        × (byte r.1 ≡ byte s)
        × (size r.1 ≡ size s)
  unfolding count_free
  count_free_in b s h l k = ground (
    arith,
    c.seek_in s 8,
    c.byte-sought s 8,
    c.size-sought s 8,
    c.pos-sought s 8,
    count_free_loop_lem (b - 2) 2 0 (sought s 8) (byte s),
  )
