-- ===== src/Table/Instance.antt =====
-- Each of the three formats, on a stream of bytes, is a table.
use rust_fatfs.Base.{ℕ, ◌+◌, ◌-◌, ◌%◌, ◌^◌, ◌≤◌, ◌<◌, ◌≡◌, ap, arith, ◌==◌, if◌then◌else◌}
use rust_fatfs.Base.Result.{ok}
use rust_fatfs.FatType.{FatType, fat12, fat16, fat32}
use rust_fatfs.Io.{Stream}
use rust_fatfs.Io.Contract.{IsBytes}
use rust_fatfs.Table.{read_fat, write_fat, find_free_cluster, count_free_clusters}
use rust_fatfs.Table.Value.{FatValue}
use rust_fatfs.Table.Spec.{entry, capacity, IsStorable, first_free, count_of_free, found}
use rust_fatfs.Table.Interface.{IsTable}
use rust_fatfs.Table.Fat12.Entry as E12
use rust_fatfs.Table.Fat16.Entry as E16
use rust_fatfs.Table.Fat32.Entry as E32
use rust_fatfs.Table.Fat12.Scan as S12
use rust_fatfs.Table.Fat16.Scan as S16
use rust_fatfs.Table.Fat32.Scan as S32

module _ {S : Type 0} {fat : Stream S} (c : IsBytes fat) where
  open c use {size, byte}

  unfoldable pub got : FatType → S → ℕ → S
  got fat12 s n = E12.reread c s n
  got fat16 s n = E16.reread c s n
  got fat32 s n = E32.reread c s n

  unfoldable pub put : FatType → S → ℕ → FatValue → S
  put fat12 s n v = E12.written c s n v
  put fat16 s n v = E16.written c s n v
  put fat32 s n v = E32.written c s n v

  pub capacity_le : (t : FatType) (z : ℕ) → capacity t z ≤ 0x0FFF_FFF7
  unfolding capacity
  capacity_le t z = omega arith

  pub read_in :
      (t : FatType) (s : S) (n : ℕ)
      → n < capacity t (size s)
      → read_fat fat t n s ≡ (ok (entry t (byte s) n), got t s n)
  unfolding read_fat got capacity
  read_in fat12 s n h = E12.get_in c s n (omega arith) (omega arith)
  read_in fat16 s n h = E16.get_in c s n (omega arith) (omega arith)
  read_in fat32 s n h = E32.get_in c s n (omega arith) (omega arith)

  pub byte-got : (t : FatType) (s : S) (n : ℕ) → byte (got t s n) ≡ byte s
  unfolding got
  byte-got fat12 s n = E12.byte-reread c s n
  byte-got fat16 s n = E16.byte-reread c s n
  byte-got fat32 s n = E32.byte-reread c s n

  pub size-got : (t : FatType) (s : S) (n : ℕ) → size (got t s n) ≡ size s
  unfolding got
  size-got fat12 s n = E12.size-reread c s n
  size-got fat16 s n = E16.size-reread c s n
  size-got fat32 s n = E32.size-reread c s n

  pub write_in :
      (t : FatType) (s : S) (n : ℕ) (v : FatValue)
      → n < capacity t (size s)
      → IsStorable t v
      → write_fat fat t n v s ≡ (ok tt, put t s n v)
  unfolding write_fat put capacity
  write_in fat12 s n v h q = E12.set_in c s n v (omega arith) (omega arith)
  write_in fat16 s n v h q = E16.set_in c s n v (omega arith) (omega arith) q
  write_in fat32 s n v h q = E32.set_in c s n v (omega arith) (omega arith)

  pub size-put : (t : FatType) (s : S) (n : ℕ) (v : FatValue) → size (put t s n v) ≡ size s
  unfolding put
  size-put fat12 s n v = E12.size-written c s n v
  size-put fat16 s n v = E16.size-written c s n v
  size-put fat32 s n v = E32.size-written c s n v

  pub entry-put :
      (t : FatType) (s : S) (n m : ℕ) (v : FatValue)
      → n < capacity t (size s)
      → m < capacity t (size s)
      → IsStorable t v
      → entry t (byte (put t s n v)) m ≡ (if n == m then v else entry t (byte s) m)
  unfolding put capacity
  entry-put fat12 s n m v h k q =
      rw (E12.byte-written c s n v (omega arith)) (E12.entry-patch (byte s) n m v (c.byte_lt s) q)
  entry-put fat16 s n m v h k q =
      rw (E16.byte-written c s n v (omega arith)) (E16.entry-patch (byte s) n m v q)
  entry-put fat32 s n m v h k q =
      rw (E32.byte-written c s n v (omega arith))
        (E32.entry-patch (byte s) n m v (c.byte_lt s) (omega arith) q)

  pub find_in :
      (t : FatType) (s : S) (a b : ℕ)
      → a < b
      → b ≤ capacity t (size s)
      → let r = find_free_cluster fat t a b s in
        (r.0 ≡ found (first_free (entry t (byte s)) (b - a) a))
        × (byte r.1 ≡ byte s)
        × (size r.1 ≡ size s)
  unfolding find_free_cluster capacity
  find_in fat12 s a b h k = S12.find_free_in c a b s h (omega arith) (omega arith)
  find_in fat16 s a b h k = S16.find_free_in c a b s (omega arith) (omega arith) (omega arith)
  find_in fat32 s a b h k = S32.find_free_in c a b s (omega arith) (omega arith) (omega arith)

  pub count_in :
      (t : FatType) (s : S) (total : ℕ)
      → 0 < total
      → total + 2 ≤ capacity t (size s)
      → let r = count_free_clusters fat t total s in
        (r.0 ≡ ok (count_of_free (entry t (byte s)) total 2))
        × (byte r.1 ≡ byte s)
        × (size r.1 ≡ size s)
  unfolding count_free_clusters capacity
  count_in fat12 s total h k =
      let e : (total + 2) % 2 ^ 32 ≡ total + 2 = omega arith in
      let m : total + 2 - 2 ≡ total = omega arith in
      rw (e, m) (rw m at (S12.count_free_in c (total + 2) s (omega arith) (omega arith)))
  count_in fat16 s total h k =
      let e : (total + 2) % 2 ^ 32 ≡ total + 2 = omega arith in
      let m : total + 2 - 2 ≡ total = omega arith in
      rw (e, m) (rw m at (S16.count_free_in c (total + 2) s (omega arith) (omega arith)))
  count_in fat32 s total h k =
      let e : (total + 2) % 2 ^ 32 ≡ total + 2 = omega arith in
      let m : total + 2 - 2 ≡ total = omega arith in
      rw (e, m)
        (rw m at (S32.count_free_in c (total + 2) s (omega arith) (omega arith) (omega arith)))

  -- The contract of a table, filled.
  unfoldable pub is_table : (t : FatType) → IsTable t fat
  is_table t = record {
    limit = λ s. capacity t (size s);
    value = λ s. entry t (byte s);
    got = got t;
    put = put t;
    limit_le = λ s. capacity_le t (size s);
    read_in = read_in t;
    value-got = λ s n h. ap (entry t) (byte-got t s n);
    limit-got = λ s n. ap (capacity t) (size-got t s n);
    write_in = write_in t;
    value-put = entry-put t;
    limit-put = λ s n v. ap (capacity t) (size-put t s n v);
    find_in =
        λ s a b h k. let (e, f, z) = find_in t s a b h k in (e, ap (entry t) f, ap (capacity t) z);
    count_in = λ s total h k.
        let (e, f, z) = count_in t s total h k in (e, ap (entry t) f, ap (capacity t) z);
  }
