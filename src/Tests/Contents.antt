-- ===== src/Tests/Contents.antt =====
-- A file of 514 bytes in the clusters 2 and 5 of a FAT12 volume of seven sectors in memory.
use rust_fatfs.Base.{
  [], ◌∷◌, ℕ, zero, suc, ◌+◌, ◌/◌, ◌%◌, ◌<◌, ◌≡◌, refl, sym, ◌∙◌, arith, some, none, Option, ◌==◌,
  ltb, if◌then◌else◌,
}
use rust_fatfs.Base.Result.{ok, pure}
use rust_fatfs.Io.{read_exact}
use rust_fatfs.Io.Contract.{slice}
use rust_fatfs.Memory
use rust_fatfs.Memory.{memory, is_bytes, is_chunked}
use rust_fatfs.Boot.{
  total_clusters, total_sectors, first_data_sector, is_fat32, sectors_per_fat, root_dir_sectors,
  cluster_size,
}
use rust_fatfs.Boot.Geometry.{fat_slice, offset_from_cluster}
use rust_fatfs.Boot.Validate.{validate_bpb, is_power_of_two}
use rust_fatfs.Boot.Valid.{validate_bpb_lem}
use rust_fatfs.DirEntry.{contains}
use rust_fatfs.Table.{next_of}
use rust_fatfs.Table.Spec.{entry, capacity}
use rust_fatfs.Table.Fat12
use rust_fatfs.File.{Volume, Opened, size_of}
use rust_fatfs.File.Frozen.{Frozen}
use rust_fatfs.File.Content.{cluster_at, Tracks, Covers}
use rust_fatfs.File.Refinement.{file_stream}
use rust_fatfs.FileSystem.{Mounted, FileSystem}
use rust_fatfs.FileSystem.Opening.{volume}
use rust_fatfs.FileSystem.Contents.{
  IsIntact, file_byte, chain_at, IsCluster, link, frozen, cluster_pos, mounted_read_exact-content,
  Holds,
}
use rust_fatfs.Tests.Files.{editor}
use rust_fatfs.Tests.Mounts as Mounts

-- Entry 2 of the table is 5, and entry 5 ends the chain.
abbrev cells : ℕ → ℕ
cells i =
    if i == 515
    then 5
    else if i == 519
    then 0xF0
    else if i == 520
    then 0xFF
    else if ltb i 1024
    then 0
    else i

abbrev v : Mounted
v = record (Mounts.v) { bpb = record (Mounts.bpb) { total_sectors_16 = 7 }; total_clusters = 4 }

abbrev seven_sectors : Volume (FileSystem Memory.Memory)
seven_sectors = volume (memory 3584) (pure tt) Mounts.options v

abbrev bytes : ℕ → ℕ
bytes i = cells i % 256

validates : validate_bpb v.bpb ≡ ok tt
unfolding validate_bpb is_power_of_two is_fat32 total_sectors first_data_sector total_clusters
validates = refl

abbrev link_of : ℕ → Option ℕ
link_of n = if n == 2 then some 5 else none

links : (n : ℕ) → IsCluster v n → link v bytes n ≡ link_of n
unfolding entry fat_slice next_of total_clusters total_sectors Fat12.entry_of Fat12.decode
links zero h = absurd (omega arith)
links (suc zero) h = absurd (omega arith)
links (suc (suc zero)) h = refl
links (suc (suc (suc zero))) h = refl
links (suc (suc (suc (suc zero)))) h = refl
links (suc (suc (suc (suc (suc zero))))) h = refl
links (suc (suc (suc (suc (suc (suc n)))))) h = absurd (omega arith)

links_in : (n m : ℕ) → IsCluster v n → link v bytes n ≡ some m → IsCluster v m
unfolding total_clusters total_sectors
links_in n m h e = let target : link_of n ≡ some m = sym (links n h) ∙ e in ground arith

two : IsCluster v 2
unfolding total_clusters total_sectors
two = (omega arith, omega arith)

intact : IsIntact (is_bytes 3584) v bytes
unfolding is_bytes fat_slice capacity total_clusters total_sectors sectors_per_fat root_dir_sectors
intact = record {
  valid = (validate_bpb_lem v.bpb).0 validates;
  cluster_byte = omega arith;
  total_lt = omega arith;
  front_lt = omega arith;
  tables_in = λ s. omega arith;
  sectors_in = λ s. omega arith;
  some_table = omega arith;
  entries_in = omega arith;
  links_in = links_in;
}

abbrev pos : 0 < seven_sectors.cluster_size
pos = cluster_pos (is_bytes 3584) (is_chunked 3584) (pure tt) Mounts.options v bytes intact

abbrev table : Frozen seven_sectors
table = frozen (is_bytes 3584) (is_chunked 3584) (pure tt) Mounts.options v bytes intact

in_chain : (q : ℕ) → q < 2 → (c : ℕ) × (cluster_at seven_sectors pos table 2 q ≡ some c)
unfolding cluster_at frozen
in_chain zero h = (2, refl)
in_chain (suc zero) h = (5, links 2 two)
in_chain (suc (suc q)) h = absurd (omega arith)

covers : Covers seven_sectors pos table 2 514
unfolding volume cluster_size
covers i h = in_chain (i / 512) (omega arith)

-- Two bytes before the end of cluster 2.
abbrev opened : Opened (FileSystem Memory.Memory)
opened = record {
  file = record {
    first_cluster = some 2;
    current_cluster = some 2;
    offset = 510;
    entry = some (record editor { entry = record (editor.entry) { size = 514 } });
  };
  fs = record (Mounts.fs) { disk = record { cells = cells; at = 0 } };
}

opened-Tracks : Tracks seven_sectors pos table 2 514 opened
unfolding size_of contains frozen volume cluster_size cluster_at is_bytes
opened-Tracks = record {
  known = refl;
  within = omega arith;
  size_lt = omega arith;
  head = refl;
  current = refl;
  good = refl;
}

mounted_read_exact-content_example :
    (o' : Opened (FileSystem Memory.Memory)) × (read_exact (file_stream seven_sectors) 4 opened
      ≡ (ok (slice (file_byte v bytes 2) 510 4), o'))
    × (o'.file.offset ≡ 510 + 4)
    × Tracks seven_sectors pos table 2 514 o'
    × Holds (is_bytes 3584) (is_chunked 3584) (pure tt) Mounts.options v bytes intact o'.fs
unfolding frozen
mounted_read_exact-content_example =
    mounted_read_exact-content (is_bytes 3584) (is_chunked 3584) (pure tt) Mounts.options v bytes
      intact 2 514 4 opened two covers opened-Tracks (omega arith)

-- They are the last two bytes of cluster 2 and the first two of cluster 5.
last_bytes : slice (file_byte v bytes 2) 510 4 ≡ 254 ∷ 255 ∷ 0 ∷ 1 ∷ []
unfolding file_byte chain_at frozen volume cluster_size offset_from_cluster total_sectors
    sectors_per_fat root_dir_sectors first_data_sector entry
last_bytes = refl
