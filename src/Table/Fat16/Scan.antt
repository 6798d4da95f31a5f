-- ===== src/Table/Fat16/Scan.antt =====
-- The scans of `Fat16` are the plain scans over its entries.
use rust_fatfs.Base.{ℕ, zero, suc, ◌+◌, ◌-◌, ◌*◌, ◌^◌, ◌≤◌, ◌≡◌, refl, arith, ◌==◌}
use rust_fatfs.Base.Result.{ok}
use rust_fatfs.Io.{Stream}
use rust_fatfs.Io.Contract.{IsBytes}
use rust_fatfs.Io.Words.{word16, read_u16_in}
use rust_fatfs.FatType.{fat16}
use rust_fatfs.Table.Value.{is_free}
use rust_fatfs.Table.Spec.{entry, first_free, count_of_free, found}
use rust_fatfs.Table.Fat16.{decode, find_free, find_free_loop, count_free, count_free_loop}

is_free-decode : (v : ℕ) → is_free (decode v) ≡ (v == 0)
unfolding decode
is_free-decode v = ground arith

is_free-entry : (f : ℕ → ℕ) (n : ℕ) → is_free (entry fat16 f n) ≡ (word16 f (n * 2) == 0)
unfolding entry
is_free-entry f n = is_free-decode (word16 f (n * 2))

module _ {S : Type 0} {fat : Stream S} (c : IsBytes fat) where
  open c use {size, byte, pos, sought, fetched}

  find_free_loop_lem :
      (left n : ℕ) (s : S) (f : ℕ → ℕ)
      → byte s ≡ f
      → pos s ≡ n * 2
      → (n + left) * 2 ≤ size s
      → let r = find_free_loop fat left n s in
        (r.0 ≡ found (first_free (entry fat16 f) left n)) × (byte r.1 ≡ f) × (size r.1 ≡ size s)
  unfolding find_free_loop first_free
  find_free_loop_lem zero n s f hb hp h = (refl, hb, refl)
  find_free_loop_lem (suc left) n s f hb hp h = ground (
    arith,
    read_u16_in c s (omega arith),
    is_free-entry f n,
    c.byte-fetched s 2,
    c.size-fetched s 2,
    c.pos-fetched s 2,
    find_free_loop_lem left (n + 1) (fetched s 2) f,
  )

  count_free_loop_lem :
      (left n k : ℕ) (s : S) (f : ℕ → ℕ)
      → byte s ≡ f
      → pos s ≡ n * 2
      → (n + left) * 2 ≤ size s
      → let r = count_free_loop fat left n k s in
        (r.0 ≡ ok (k + count_of_free (entry fat16 f) left n)) × (byte r.1 ≡ f) × (size r.1 ≡ size s)
  unfolding count_free_loop count_of_free
  count_free_loop_lem zero n k s f hb hp h = (ground arith, hb, refl)
  count_free_loop_lem (suc left) n k s f hb hp h = ground (
    arith,
    read_u16_in c s (omega arith),
    is_free-entry f n,
    c.byte-fetched s 2,
    c.size-fetched s 2,
    c.pos-fetched s 2,
    count_free_loop_lem left (n + 1) (k + 1) (fetched s 2) f,
    count_free_loop_lem left (n + 1) k (fetched s 2) f,
  )

  pub find_free_in :
      (a b : ℕ) (s : S)
      → a ≤ b
      → b ≤ 2 ^ 28
      → b * 2 ≤ size s
      → let r = find_free fat a b s in
        (r.0 ≡ found (first_free (entry fat16 (byte s)) (b - a) a))
        × (byte r.1 ≡ byte s)
        × (size r.1 ≡ size s)
  unfolding find_free
  find_free_in a b s h k l = ground (
    arith,
    c.seek_in s (a * 2),
    c.byte-sought s (a * 2),
    c.size-sought s (a * 2),
    c.pos-sought s (a * 2),
    find_free_loop_lem (b - a) a (sought s (a * 2)) (byte s),
  )

  pub count_free_in :
      (b : ℕ) (s : S)
      → 2 ≤ b
      → b * 2 ≤ size s
      → let r = count_free fat b s in
        (r.0 ≡ ok (count_of_free (entry fat16 (byte s)) (b - 2) 2))
        × (byte r.1 ≡ byte s)
        × (size r.1 ≡ size s)
  unfolding count_free
  count_free_in b s h k = ground (
    arith,
    c.seek_in s 4,
    c.byte-sought s 4,
    c.size-sought s 4,
    c.pos-sought s 4,
    count_free_loop_lem (b - 2) 2 0 (sought s 4) (byte s),
  )
