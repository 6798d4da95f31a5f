-- ===== src/Table/Roundtrip.antt =====
-- What `read_fat` answers behind `write_fat`, and what the scans answer, on a stream of bytes.
use rust_fatfs.Base.{
  ℕ, ◌+◌, ◌-◌, ◌*◌, ◌/◌, ◌^◌, ◌≤◌, ◌<◌, ◌≡◌, refl, ◌∙◌, ap, arith, ◌==◌, if◌then◌else◌,
}
use rust_fatfs.Base.Result.{ok}
use rust_fatfs.FatType.{FatType, fat32}
use rust_fatfs.Io.{Stream}
use rust_fatfs.Io.Contract.{IsBytes}
use rust_fatfs.Io.Words.{word32}
use rust_fatfs.Table.{read_fat, write_fat, find_free_cluster, count_free_clusters}
use rust_fatfs.Table.Value.{FatValue}
use rust_fatfs.Table.Spec.{entry, capacity, IsStorable, first_free, count_of_free, found}
use rust_fatfs.Table.Instance.{put, read_in, write_in, entry-put, size-put, find_in, count_in}
use rust_fatfs.Table.Fat32.Entry as E32

module _ {S : Type 0} {fat : Stream S} (c : IsBytes fat) where
  open c use {size, byte}

  -- In each format, on a stream of bytes: for two clusters that have an entry and a value that
  -- an entry can hold, `write_fat` succeeds, and `read_fat` then answers the value for the
  -- cluster written, and for any other what it held before.
  pub read_fat-write_fat :
      (t : FatType) (s : S) (n m : ℕ) (v : FatValue)
      → n < capacity t (size s)
      → m < capacity t (size s)
      → IsStorable t v
      → let out = write_fat fat t n v s in
        (out.0 ≡ ok tt)
        × ((read_fat fat t m out.1).0 ≡ ok (if n == m then v else entry t (byte s) m))
  read_fat-write_fat t s n m v h k q =
      let s' = put c t s n v in
      rw (write_in c t s n v h q)
        (refl, rw (read_in c t s' m (rw (size-put c t s n v) k), entry-put c t s n m v h k q))

  -- In each format, on a stream of bytes that has entries for the clusters from `a` up to `b`:
  -- `find_free` answers the first free one of them, or that there is no space if none is.
  pub find_free_cluster-first_free :
      (t : FatType) (s : S) (a b : ℕ)
      → a < b
      → b ≤ capacity t (size s)
      → (find_free_cluster fat t a b s).0 ≡ found (first_free (entry t (byte s)) (b - a) a)
  find_free_cluster-first_free t s a b h k = (find_in c t s a b h k).0

  -- In each format, on a stream of bytes with an entry for every data cluster, of which there is
  -- one at least: `count_free_clusters` answers the number of data clusters whose entry is free.
  pub count_free_clusters-count_of_free :
      (t : FatType) (s : S) (total : ℕ)
      → 0 < total
      → total + 2 ≤ capacity t (size s)
      → (count_free_clusters fat t total s).0 ≡ ok (count_of_free (entry t (byte s)) total 2)
  count_free_clusters-count_of_free t s total h k = (count_in c t s total h k).0

  -- A FAT32 write of a value that an entry can hold, to a cluster that has an entry, leaves the
  -- upper four bits of the entry's word as they were.
  pub write_fat-reserved_bits :
      (s : S) (n : ℕ) (v : FatValue)
      → n < capacity fat32 (size s)
      → IsStorable fat32 v
      → word32 (byte (write_fat fat fat32 n v s).1) (n * 4) / 2 ^ 28
        ≡ word32 (byte s) (n * 4) / 2 ^ 28
  unfolding put capacity
  write_fat-reserved_bits s n v h q =
      let f = byte s in
      let old = word32 f (n * 4) in
      let fields = E32.merged_fields old v (E32.word32-lt f (n * 4) (c.byte_lt s)) q in
      let (_, lt) = E32.decode-encode n v (omega arith) q in
      let fits : E32.merged old v < 2 ^ 32 =
        omega (arith, fields, lt, E32.word32-lt f (n * 4) (c.byte_lt s)) in
      rw (write_in c fat32 s n v h q, E32.byte-written c s n v (omega arith))
        (ap (λ (x : ℕ). x / 2 ^ 28) (E32.word32_self f n (E32.merged old v) fits)
          ∙ omega (arith, fields, lt))
