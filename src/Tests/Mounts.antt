-- ===== src/Tests/Mounts.antt =====
-- A FAT12 volume of 16 sectors in memory, mounted, and the theorems on fs.rs there.
use rust_fatfs.Base.{
  ℕ, ◌-◌, ◌≡◌, ◌≢◌, refl, arith, true, false, ◌==◌, if◌then◌else◌, List, length, some, none, min,
}
use rust_fatfs.Base.{◌∷◌, []}
use rust_fatfs.Base.Result.{ok, M, pure}
use rust_fatfs.Io.{Stream}
use rust_fatfs.Disk.Chunks.{length-slice}
use rust_fatfs.Memory
use rust_fatfs.Memory.{memory, is_bytes}
use rust_fatfs.Boot.{BiosParameterBlock, status_flags}
use rust_fatfs.Base.{replicate}
use rust_fatfs.Status.{decode}
use rust_fatfs.FatType.{fat12, fat32}
use rust_fatfs.Boot.Codec.{clean, read_common, read_fat32, read_last}
use rust_fatfs.Boot.Validate.{is_power_of_two}
use rust_fatfs.Disk.{lift_result}
use rust_fatfs.Io.{write_u8, write_all}
use rust_fatfs.Io.{read_exact, read_u8, read_u16_le, read_u32_le, from_le_bytes}
use rust_fatfs.DirEntry.{contains}
use rust_fatfs.File.{Opened, size_of}
use rust_fatfs.File.Valid.{IsShort, AtMost, IsValid}
use rust_fatfs.File.Transfer.{read, write}
use rust_fatfs.File.Seek.{seek}
use rust_fatfs.File.{truncate}
use rust_fatfs.Io.{start}
use rust_fatfs.File.Invariant.{here, next, reads, writes, seeks, truncates}
use rust_fatfs.FileSystem.{
  Mounted, FileSystem, FileSystemStats, stats, unmount_internal, set_dirty_flag,
}
use rust_fatfs.FileSystem.Mount.{new, IsMounted, new-IsMounted}
use rust_fatfs.FileSystem.Stats.{stats-stats}
use rust_fatfs.FileSystem.Flags.{unmount_internal-unmount_internal, set_dirty_flag-InSync, InSync}
use rust_fatfs.FileSystem.Opening.{FsOptions, IsModest, volume, mounted_Steps-IsValid}
use rust_fatfs.Tests.Files.{midnight, editor}

-- The bytes of the boot sector that are not 0: sectors of 512 bytes, one in a cluster, one reserved,
-- one table of one sector, 16 entries in the root directory, 16 sectors.
abbrev cells : ℕ → ℕ
cells i =
    if i == 12
    then 2
    else if i == 13
    then 1
    else if i == 14
    then 1
    else if i == 16
    then 1
    else if i == 17
    then 16
    else if i == 19
    then 16
    else if i == 21
    then 0xF8
    else if i == 22
    then 1
    else if i == 510
    then 0x55
    else if i == 511
    then 0xAA
    else 0

abbrev disk : Stream Memory.Memory
disk = memory 8192

abbrev image : Memory.Memory
image = record { cells = cells; at = 0 }

abbrev pub bpb : BiosParameterBlock
bpb = record {
  bytes_per_sector = 512;
  sectors_per_cluster = 1;
  reserved_sectors = 1;
  fats = 1;
  root_entries = 16;
  total_sectors_16 = 16;
  media = 0xF8;
  sectors_per_fat_16 = 1;
  sectors_per_track = 0;
  heads = 0;
  hidden_sectors = 0;
  total_sectors_32 = 0;
  sectors_per_fat_32 = 0;
  extended_flags = 0;
  fs_version = 0;
  root_dir_first_cluster = 0;
  fs_info_sector = 0;
  backup_boot_sector = 0;
  reserved_0 = replicate 12 0;
  drive_num = 0;
  reserved_1 = 0;
  ext_sig = 0;
  volume_id = 0;
  volume_label = replicate 11 0;
  fs_type_label = replicate 8 0;
}

abbrev pub v : Mounted
v = record { fat_type = fat12; bpb = bpb; total_clusters = 13 }

abbrev image1 : Memory.Memory
image1 = record image { at = 512 }

abbrev pub fs : FileSystem Memory.Memory
fs = record {
  disk = image1;
  fs_info = record { free_cluster_count = none; next_free_cluster = none; dirty = false };
  current_status_flags = record { dirty = false; io_error = false };
}

mounts : new disk image ≡ (ok (v, fs), image1)
unfolding new memory clean read_exact read_common read_u16_le read_u8 read_u32_le from_le_bytes
    read_last is_power_of_two
mounts = refl

-- A FAT32 volume of 70000 sectors, with an FSInfo sector that says 5 free clusters and hints at 7.
abbrev cells_32 : ℕ → ℕ
cells_32 i =
    if i == 12
    then 2
    else if i == 13
    then 1
    else if i == 14
    then 32
    else if i == 16
    then 1
    else if i == 32
    then 0x70
    else if i == 33
    then 0x11
    else if i == 34
    then 1
    else if i == 36
    then 0x30
    else if i == 37
    then 2
    else if i == 44
    then 2
    else if i == 48
    then 1
    else if i == 50
    then 6
    else if i == 510
    then 0x55
    else if i == 511
    then 0xAA
    else if i == 512
    then 0x52
    else if i == 513
    then 0x52
    else if i == 514
    then 0x61
    else if i == 515
    then 0x41
    else if i == 996
    then 0x72
    else if i == 997
    then 0x72
    else if i == 998
    then 0x41
    else if i == 999
    then 0x61
    else if i == 1000
    then 5
    else if i == 1004
    then 7
    else if i == 1022
    then 0x55
    else if i == 1023
    then 0xAA
    else 0

abbrev image_32 : Memory.Memory
image_32 = record { cells = cells_32; at = 0 }

abbrev bpb_32 : BiosParameterBlock
bpb_32 = record bpb {
  reserved_sectors = 32;
  root_entries = 0;
  total_sectors_16 = 0;
  media = 0;
  sectors_per_fat_16 = 0;
  total_sectors_32 = 70000;
  sectors_per_fat_32 = 0x230;
  root_dir_first_cluster = 2;
  fs_info_sector = 1;
  backup_boot_sector = 6;
}

abbrev v_32 : Mounted
v_32 = record { fat_type = fat32; bpb = bpb_32; total_clusters = 69408 }

abbrev fs_32 : FileSystem Memory.Memory
fs_32 = record {
  disk = record image_32 { at = 1024 };
  fs_info = record { free_cluster_count = some 5; next_free_cluster = some 7; dirty = false };
  current_status_flags = record { dirty = false; io_error = false };
}

mounts_32 : new disk image_32 ≡ (ok (v_32, fs_32), record image_32 { at = 1024 })
unfolding new memory clean read_exact read_common read_u16_le read_u8 read_u32_le from_le_bytes
    read_last is_power_of_two read_fat32
mounts_32 = refl

new-IsMounted_example : IsMounted v_32 fs_32 × (fs_32.disk ≡ record image_32 { at = 1024 })
new-IsMounted_example =
    new-IsMounted disk image_32 (record image_32 { at = 1024 }) v_32 fs_32 mounts_32

-- The count of the free clusters of a volume with one cluster, and the volume behind it.
abbrev small : Mounted
small = record v { total_clusters = 1 }

abbrev counted : FileSystem Memory.Memory
counted = (stats disk small fs).1

abbrev numbers : FileSystemStats
numbers = record { cluster_size = 512; total_clusters = 1; free_clusters = 1 }

counts : stats disk small fs ≡ (ok numbers, counted)
unfolding stats memory read_exact read_u16_le read_u8 from_le_bytes
counts = refl

stats-stats_example : stats disk small counted ≡ (ok numbers, counted)
stats-stats_example = stats-stats disk small fs counted counts

-- A volume in use, and behind its unmount.
abbrev used : FileSystem Memory.Memory
used = (set_dirty_flag disk v true fs).1

abbrev unmounted : FileSystem Memory.Memory
unmounted = (unmount_internal disk v used).1

unmounts : unmount_internal disk v used ≡ (ok tt, unmounted)
unfolding unmount_internal memory lift_result write_u8 write_all
unmounts = refl

unmount_internal-unmount_internal_example : unmount_internal disk v unmounted ≡ (ok tt, unmounted)
unmount_internal-unmount_internal_example =
    unmount_internal-unmount_internal disk v used unmounted unmounts

set_dirty_flag-InSync_example :
    (fs' : FileSystem Memory.Memory) × (set_dirty_flag disk v true fs ≡ (ok tt, fs'))
    × InSync (is_bytes 8192) v fs'
    × (fs'.current_status_flags.dirty ≡ true)
    × (fs'.current_status_flags.io_error ≡ false)
    × ((i : ℕ) → i ≢ 37 → (is_bytes 8192).byte fs'.disk i ≡ (is_bytes 8192).byte image1 i)
unfolding is_bytes decode status_flags
set_dirty_flag-InSync_example = set_dirty_flag-InSync (is_bytes 8192) v true fs (omega arith) refl

read-IsShort : (n : ℕ) (s : Memory.Memory) → IsShort n (disk.read n s).0
unfolding memory
read-IsShort n s = omega (arith, length-slice (Memory.content s) s.at (min n (8192 - s.at)))

write-AtMost : (bytes : List ℕ) (s : Memory.Memory) → AtMost (length bytes) (disk.write bytes s).0
unfolding memory
write-AtMost bytes s = omega arith

modest : IsModest disk
modest = record { read_short = read-IsShort; write_short = write-AtMost }

abbrev pub options : FsOptions Memory.Memory
options = record {
  update_accessed_date = true;
  get_current_date_time = λ s. midnight;
  get_current_date = λ s. midnight.date;
}

abbrev flush_disk : M Memory.Memory (Unit {0})
flush_disk = pure tt

abbrev opened : Opened (FileSystem Memory.Memory)
opened = record {
  file = record { first_cluster = some 2; current_cluster = none; offset = 0; entry = some editor };
  fs = fs;
}

opened-IsValid : IsValid opened.file
unfolding size_of contains
opened-IsValid = record {
  size = 6;
  known = refl;
  within = omega arith;
  size_lt = omega arith;
  placed = refl;
}

-- A write at the third byte, past the end, behind a read of one byte; then a truncation.
abbrev o1 : Opened (FileSystem Memory.Memory)
o1 = (seek (volume disk flush_disk options v) (start 2) opened).1

abbrev o2 : Opened (FileSystem Memory.Memory)
o2 = (read (volume disk flush_disk options v) 9 o1).1

abbrev o3 : Opened (FileSystem Memory.Memory)
o3 = (write (volume disk flush_disk options v) (7 ∷ 8 ∷ 9 ∷ []) o2).1

abbrev o4 : Opened (FileSystem Memory.Memory)
o4 = (truncate (volume disk flush_disk options v) o3).1

mounted_Steps-IsValid_example : IsValid o4.file
mounted_Steps-IsValid_example =
    mounted_Steps-IsValid disk flush_disk options modest image image1 v fs mounts (omega arith)
      opened-IsValid
      (next
        (next (next (next here (seeks (start 2) opened)) (reads 9 o1)) (writes (7 ∷ 8 ∷ 9 ∷ []) o2))
        (truncates o3))
