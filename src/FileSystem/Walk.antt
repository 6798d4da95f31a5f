-- ===== src/FileSystem/Walk.antt =====
-- fs.rs: `cluster_iter(cluster).next()` answers what the table on the storage says.
use rust_fatfs.Base.{ℕ, ◌+◌, ◌<◌, ◌≡◌, refl, ◌∙◌, if◌then◌else◌, ltb, Option, some, none}
use rust_fatfs.Base.Result.{ok}
use rust_fatfs.FatType.{FatType, fat12, fat16, fat32}
use rust_fatfs.Io.{Stream}
use rust_fatfs.Io.Contract.{IsBytes}
use rust_fatfs.Disk
use rust_fatfs.Disk.{DiskSlice, Window}
use rust_fatfs.Disk.Chunks.{IsChunked}
use rust_fatfs.Disk.Read.{Fits}
use rust_fatfs.Disk.Instance as Window
use rust_fatfs.Table.{get_next_cluster, next_of}
use rust_fatfs.Table.Value.{FatValue, free, data_at, bad, end_of_chain}
use rust_fatfs.Table.Spec.{entry, capacity}
use rust_fatfs.Table.Instance.{got, read_in}
use rust_fatfs.Boot.Geometry.{fat_slice}
use rust_fatfs.Chain
use rust_fatfs.FileSystem.{
  Mounted, FileSystem, fat_stream, with_cluster_iter, transpose, next_cluster,
}
use rust_fatfs.FileSystem.Reads.{get_next_cluster-carried}

-- The bytes of a window on the bytes of a storage.
abbrev pub window : Window → (ℕ → ℕ) → ℕ → ℕ
window w bytes x = if ltb x w.size then bytes (w.begin + x) else 0

-- The cluster that an entry leads to.
abbrev pub successor : FatValue → Option ℕ
successor (data_at n) = some n
successor free = none
successor bad = none
successor end_of_chain = none

next_of-successor : (value : FatValue) → next_of value ≡ successor value
unfolding next_of
next_of-successor (data_at n) = refl
next_of-successor free = refl
next_of-successor bad = refl
next_of-successor end_of_chain = refl

module _ {S : Type 0} {io : Stream S} (c : IsBytes io) (k : IsChunked c) (v : Mounted)
    (fits : Fits c (fat_slice v.bpb)) (one : 0 < (fat_slice v.bpb).mirrors) where
  abbrev table : IsBytes (Disk.stream io (fat_slice v.bpb))
  table = Window.is_bytes c k (fat_slice v.bpb) fits one

  storage-got :
      (t : FatType) (d : DiskSlice S) (n : ℕ) → c.byte (got table t d n).inner ≡ c.byte d.inner
  unfolding got Window.is_bytes
  storage-got fat12 d n = Window.storage-fetched c k (fat_slice v.bpb) fits one _ 2
  storage-got fat16 d n = Window.storage-fetched c k (fat_slice v.bpb) fits one _ 2
  storage-got fat32 d n = Window.storage-fetched c k (fat_slice v.bpb) fits one _ 4

  next_found :
      (n : ℕ) (o : Option ℕ) (fs : FileSystem S) (d : DiskSlice (FileSystem S))
      → get_next_cluster (fat_stream io v) v.fat_type n (Disk.new fs) ≡ (ok o, d)
      → next_cluster io v n fs ≡ (ok o, d.inner)
  unfolding next_cluster with_cluster_iter transpose Chain.next Chain.new Chain.advance Chain.answer
  next_found n none fs d e = rw e refl
  next_found n (some m) fs d e = rw e refl

  -- The next cluster is that of the entry on the storage, whose bytes stay as they are.
  pub next_cluster-entry :
      (n : ℕ) (fs : FileSystem S)
      → n < capacity v.fat_type (fat_slice v.bpb).size
      → let w = window (fat_slice v.bpb) (c.byte fs.disk) in
        (fs' : FileSystem S) × (next_cluster io v n fs
          ≡ (ok (successor (entry v.fat_type w n)), fs'))
        × (c.byte fs'.disk ≡ c.byte fs.disk)
  unfolding get_next_cluster Window.is_bytes Disk.new
  next_cluster-entry n fs h =
      let o = successor (entry v.fat_type (window (fat_slice v.bpb) (c.byte fs.disk)) n) in
      let d = Disk.new fs in
      let s = got table v.fat_type (Disk.new fs.disk) n in
      (
        record fs { disk = s.inner },
        next_found n o fs (record { offset = s.offset; inner = record fs { disk = s.inner } })
            (get_next_cluster-carried io v v.fat_type n d
              ∙ rw (read_in table v.fat_type (Disk.new fs.disk) n h, next_of-successor) refl),
        storage-got v.fat_type (Disk.new fs.disk) n,
      )
