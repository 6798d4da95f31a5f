-- ===== src/Tests/Tables.antt =====
-- Runs of table.rs and of `DiskSlice` on a storage in memory, and the theorems there.
use rust_fatfs.Base.{
  ℕ, ◌/◌, ◌^◌, ◌≤◌, ◌<◌, ◌≡◌, ◌⊎◌, refl, arith, true, ◌==◌, if◌then◌else◌, [], ◌∷◌, some, none,
  length, ◌↔◌,
}
use rust_fatfs.Base.Result.{ok, err, stuck, not_enough_space, io, other}
use rust_fatfs.FatType.{
  fat12, fat16, fat32, from_clusters, from_clusters_iff, min_clusters, max_clusters,
}
use rust_fatfs.Io.{
  Stream, read_exact, write_all, read_u16_le, write_u16_le, from_le_bytes, to_le_bytes,
}
use rust_fatfs.Io.Contract.{IsBytes, patch}
use rust_fatfs.Io.Words.{word32}
use rust_fatfs.Memory
use rust_fatfs.Memory.{Memory, memory}
use rust_fatfs.Disk.{Window, DiskSlice, stream}
use rust_fatfs.Disk.Mirrors.{write_all-mirror}
use rust_fatfs.Disk.Write.{mirror}
use rust_fatfs.Disk.Read.{Fits}
use rust_fatfs.Disk.Instance.{is_bytes}
use rust_fatfs.Base.Result.{is_interrupted}
use rust_fatfs.Table.{
  read_fat, write_fat, find_free_cluster, count_free_clusters, alloc_cluster, next_of,
  get_next_cluster,
}
use rust_fatfs.Table.Value.{free, data_at, end_of_chain, is_free}
use rust_fatfs.Table.Fat16
use rust_fatfs.Table.Spec.{entry, capacity, first_free, count_of_free, found}
use rust_fatfs.Table.Interface.{IsTable}
use rust_fatfs.Table.Instance.{is_table}
use rust_fatfs.Table.Alloc.{alloc_cluster_outcome, allocated}
use rust_fatfs.Table.Roundtrip.{
  read_fat-write_fat, find_free_cluster-first_free, count_free_clusters-count_of_free,
  write_fat-reserved_bits,
}
use rust_fatfs.Chain.{free_chain, truncate, new, free_loop, ClusterIterator}
use rust_fatfs.Chain.Spec.{elem, IsChain}
use rust_fatfs.Chain.Free.{free_chain_lem, truncate_lem}
use rust_fatfs.Chain.Total.{free_chain_total, IsClosed}
use rust_fatfs.Chain.Loops.{free_loop-stuck}

-- 64 bytes. As a FAT16 table: entries 0 and 1 reserved, a chain 2, 3, and the rest free.
abbrev cells : ℕ → ℕ
cells i = patch (λ _. 0) 0 (0xF8 ∷ 0xFF ∷ 0xFF ∷ 0xFF ∷ 3 ∷ 0 ∷ 0xFF ∷ 0xFF ∷ []) i

abbrev disk : Memory
disk = record { cells = cells; at = 0 }

abbrev table16 : IsTable fat16 (memory 64)
table16 = is_table (Memory.is_bytes 64) fat16

alloc_run : (alloc_cluster (memory 64) fat16 (some 3) none 10 disk).0 ≡ ok 4
unfolding alloc_cluster memory read_fat Fat16.get_raw read_exact write_all from_le_bytes to_le_bytes
    read_u16_le write_u16_le
alloc_run = refl

alloc_cluster_outcome_example :
    let out = alloc_cluster (memory 64) fat16 (some 3) none 10 disk in
    ((r : ℕ) × (out.0 ≡ ok r)
      × (2 ≤ r)
      × (r < 12)
      × (is_free (table16.value disk r) ≡ true)
      × (table16.value out.1 4 ≡ allocated (table16.value disk) (some 3) r 4))
    ⊎ ((out.0 ≡ err not_enough_space)
        × (count_of_free (table16.value disk) 10 2 ≡ 0)
        × (table16.value out.1 4 ≡ table16.value disk 4))
unfolding is_table Memory.is_bytes capacity entry Fat16.decode
alloc_cluster_outcome_example =
    alloc_cluster_outcome table16 disk (some 3) none 10 4 tt (omega arith) (omega arith)
      (omega arith) (omega arith) (omega arith, refl)

free_chain_lem_example :
    let out = free_chain (memory 64) fat16 (new disk 2) in
    (out.0 ≡ ok 2)
    × (table16.value out.1.fat 3 ≡ (if elem 3 (2 ∷ 3 ∷ []) then free else table16.value disk 3))
unfolding is_table Memory.is_bytes capacity entry Fat16.decode IsChain next_of
free_chain_lem_example =
    free_chain_lem table16 (3 ∷ []) 2 disk 3 (refl, refl) (refl, (refl, tt)) (omega arith)
      (omega arith) (omega arith)

truncate_lem_example :
    let out = truncate (memory 64) fat16 (new disk 2) in
    (out.0 ≡ ok 1)
    × (table16.value out.1.fat 3
        ≡ (if 2 == 3 then end_of_chain else if elem 3 (3 ∷ []) then free else table16.value disk 3))
unfolding is_table Memory.is_bytes capacity entry Fat16.decode IsChain next_of
truncate_lem_example =
    truncate_lem table16 (3 ∷ []) 2 disk 3 (refl, refl) (refl, (refl, tt)) (omega arith)
      (omega arith) (omega arith)

-- Two mirrors of a FAT12 table of 9 bytes, from byte 16 on.
abbrev window : Window
window = record { begin = 16; size = 9; mirrors = 2 }

abbrev fat : Stream (DiskSlice Memory)
fat = stream (memory 64) window

abbrev empty : DiskSlice Memory
empty = record { offset = 0; inner = record { cells = λ _. 0; at = 0 } }

fits : Fits (Memory.is_bytes 64) window
unfolding Memory.is_bytes
fits m = omega arith

abbrev bytes : IsBytes fat
bytes = is_bytes (Memory.is_bytes 64) (Memory.is_chunked 64) window fits (omega arith)

read_fat-write_fat_example :
    let out = write_fat fat fat12 2 (data_at 3) empty in
    (out.0 ≡ ok tt)
    × ((read_fat fat fat12 3 out.1).0
        ≡ ok (if 2 == 3 then data_at 3 else entry fat12 (bytes.byte empty) 3))
unfolding is_bytes capacity
read_fat-write_fat_example =
    read_fat-write_fat bytes fat12 empty 2 3 (data_at 3) (omega arith) (omega arith) (omega arith)

find_free_cluster-first_free_example :
    (find_free_cluster fat fat12 2 5 empty).0
    ≡ found (first_free (entry fat12 (bytes.byte empty)) 3 2)
unfolding is_bytes capacity
find_free_cluster-first_free_example =
    find_free_cluster-first_free bytes fat12 empty 2 5 (omega arith) (omega arith)

count_free_clusters-count_of_free_example :
    (count_free_clusters fat fat12 3 empty).0
    ≡ ok (count_of_free (entry fat12 (bytes.byte empty)) 3 2)
unfolding is_bytes capacity
count_free_clusters-count_of_free_example =
    count_free_clusters-count_of_free bytes fat12 empty 3 (omega arith) (omega arith)

write_fat-reserved_bits_example :
    word32 (Memory.content (write_fat (memory 64) fat32 2 end_of_chain disk).1) 8 / 2 ^ 28
    ≡ word32 (Memory.content disk) 8 / 2 ^ 28
unfolding Memory.is_bytes capacity
write_fat-reserved_bits_example =
    write_fat-reserved_bits (Memory.is_bytes 64) disk 2 end_of_chain (omega arith) tt

write_all-mirror_example :
    let out = write_all fat (1 ∷ 2 ∷ []) empty in
    (out.0 ≡ ok tt)
    × (mirror (Memory.is_bytes 64) window out.1.inner 1 1
        ≡ patch (mirror (Memory.is_bytes 64) window empty.inner 1) 0 (1 ∷ 2 ∷ []) 1)
write_all-mirror_example =
    write_all-mirror (Memory.is_bytes 64) window empty (1 ∷ 2 ∷ []) 1 1 fits (omega arith)
      (omega arith) (omega arith) (omega arith)

-- Entries 2 and 3 name each other.
abbrev circle : Memory
circle = record { cells = λ i. if i == 4 then 3 else if i == 6 then 2 else 0; at = 0 }

circle-IsClosed : IsClosed (table16.value circle) (table16.limit circle)
unfolding is_table Memory.is_bytes capacity entry Fat16.decode next_of
circle-IsClosed n m h q = ground arith

free_chain_total_example :
    (r : ℕ) × (x : ClusterIterator Memory) × (free_chain (memory 64) fat16 (new circle 2)
      ≡ (ok r, x))
    × (x.cluster ≡ none)
unfolding is_table Memory.is_bytes capacity
free_chain_total_example = free_chain_total table16 2 circle (omega arith) circle-IsClosed

-- Every read fails, every write and seek succeeds.
abbrev broken : Stream (Unit {0})
broken = record {
  read = λ n s. (err (io other), s);
  write = λ bs s. (ok (length bs), s);
  seek = λ p s. (ok 0, s);
}

broken_write : (z : Unit {0}) → (write_fat broken fat16 2 free z).0 ≡ ok tt
unfolding write_fat Fat16.set write_u16_le write_all to_le_bytes
broken_write z = refl

free_loop-stuck_example : (free_loop broken fat16 1000 0 (new tt 2)).0 ≡ stuck
unfolding get_next_cluster Fat16.get_raw read_u16_le read_exact is_interrupted
free_loop-stuck_example = free_loop-stuck broken fat16 1000 0 2 tt (io other) refl broken_write

from_clusters_iff_example :
    (from_clusters 4085 ≡ fat16) ↔ ((min_clusters fat16 ≤ 4085) × (4085 ≤ max_clusters fat16))
from_clusters_iff_example = from_clusters_iff 4085 fat16 (omega arith)
