-- ===== src/Tests/Files.antt =====
-- A file of six bytes in two clusters of four, and the theorems on file.rs there.
use rust_fatfs.Base.{
  ℕ, ◌+◌, ◌-◌, ◌*◌, ◌/◌, ◌≡◌, refl, arith, List, [], ◌∷◌, some, none, Option, true, false, length,
  if◌then◌else◌, ◌==◌, min,
}
use rust_fatfs.Base.Result.{ok, pure}
use rust_fatfs.FatType.{fat16}
use rust_fatfs.Memory
use rust_fatfs.Memory.{memory}
use rust_fatfs.Time.{DateTime}
use rust_fatfs.DirEntry.{default_file, contains}
use rust_fatfs.DirEntry.Editor.{DirEntryEditor}
use rust_fatfs.File.{Volume, Opened, size_of}
use rust_fatfs.File.Extents.{extents, places, total, last, link, extents-places}
use rust_fatfs.File.Valid.{IsValid, IsVolume, IsShort, AtMost}
use rust_fatfs.Disk.Chunks.{length-slice}

abbrev pub midnight : DateTime
midnight = record {
  date = record { year = 2020; month = 1; day = 1 };
  time = record { hour = 0; min = 0; sec = 0; millis = 0 };
}

abbrev link_of : ℕ → Option ℕ
link_of c = if c == 2 then some 5 else none

-- 64 bytes of storage, a table that chains cluster 2 to cluster 5, and no room.
abbrev volume : Volume Memory.Memory
volume = record {
  fat_type = fat16;
  cluster_size = 4;
  update_accessed_date = true;
  offset_from_cluster = λ c. c * 4;
  bytes_from_clusters = λ n. n * 4;
  clusters_from_bytes = λ n. (n + 4 - 1) / 4;
  next_cluster = λ c. pure (link_of c);
  alloc_cluster = λ prev zero. pure 6;
  truncate_cluster_chain = λ c. pure tt;
  free_cluster_chain = λ c. pure tt;
  set_dirty_flag = λ dirty. pure tt;
  disk = memory 64;
  flush_disk = pure tt;
  now = λ s. midnight;
  today = λ s. midnight.date;
}

read-IsShort : (n : ℕ) (s : Memory.Memory) → IsShort n (volume.disk.read n s).0
unfolding memory
read-IsShort n s = omega (arith, length-slice (Memory.content s) s.at (min n (64 - s.at)))

write-AtMost :
    (bytes : List ℕ) (s : Memory.Memory) → AtMost (length bytes) (volume.disk.write bytes s).0
unfolding memory
write-AtMost bytes s = omega arith

volume-IsVolume : IsVolume volume
volume-IsVolume = record {
  cluster_size_pos = omega arith;
  clusters_from_bytes-eq = λ n h. refl;
  bytes_from_clusters-eq = λ n h. refl;
  read_short = read-IsShort;
  write_short = write-AtMost;
}

abbrev pub editor : DirEntryEditor
editor = record {
  entry = record default_file { size = 6; first_cluster_lo = 2 };
  pos = 0;
  dirty = false;
}

abbrev opened : Opened Memory.Memory
opened = record {
  file = record { first_cluster = some 2; current_cluster = none; offset = 0; entry = some editor };
  fs = record { cells = λ i. i; at = 0 };
}

opened-IsValid : IsValid opened.file
unfolding size_of contains
opened-IsValid = record {
  size = 6;
  known = refl;
  within = omega arith;
  size_lt = omega arith;
  placed = refl;
}

extents-places_example :
    (extents volume 2 opened.file opened.fs
      ≡ ok (record { offset = 8; size = 4 }) ∷ ok (record { offset = 20; size = 2 }) ∷ [])
    × (total volume (places volume 6 2 (5 ∷ [])) ≡ 6)
unfolding size_of extents places total
extents-places_example =
    extents-places volume 2 6 2 opened.file opened.fs (5 ∷ []) refl refl (link refl (last refl))
      (omega arith) (omega arith)
