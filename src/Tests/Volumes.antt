-- ===== src/Tests/Volumes.antt =====
-- Runs of time.rs, of boot_sector.rs and of `FsInfoSector`, and the theorems there.
use rust_fatfs.Base.{
  ℕ, zero, suc, ◌+◌, ◌*◌, ◌^◌, ◌≤◌, ◌<◌, ◌≡◌, refl, arith, true, false, [], ◌∷◌, some, none, All,
  ◌↔◌, replicate,
}
use rust_fatfs.Base.Result.{ok, panic, ◌>>◌}
use rust_fatfs.FatType.{fat12, from_clusters, max_clusters, bits_per_fat_entry, is_fat32_type}
use rust_fatfs.Io.{seek_start}
use rust_fatfs.Io.Contract.{IsByte}
use rust_fatfs.Memory
use rust_fatfs.Memory.{memory}
use rust_fatfs.Time.{
  Date, Time, new_date, new_time, encode_date, decode_date, encode_time, decode_time,
}
use rust_fatfs.Time.Codec.{decode_date-encode_date, decode_time-encode_time}
use rust_fatfs.FsInfo
use rust_fatfs.FsInfo.{FsInfoSector}
use rust_fatfs.FsInfo.Codec.{deserialize-serialize}
use rust_fatfs.Boot.{
  BiosParameterBlock, BootSector, is_fat32, total_clusters, total_sectors, first_data_sector,
  bytes_from_sectors, cluster_size, mirroring_enabled, sectors_per_fat, root_dir_sectors,
}
use rust_fatfs.Boot.Codec.{clean, deserialize, serialize}
use rust_fatfs.Boot.Fields.{IsSized}
use rust_fatfs.Boot.Roundtrip.{IsBoot, deserialize-serialize_whole}
use rust_fatfs.Boot.Validate.{validate_bpb, is_power_of_two}
use rust_fatfs.Boot.Geometry.{fat_slice, offset_from_cluster}
use rust_fatfs.Boot.Regions.{cluster_regions, fat_slice-before_data}
use rust_fatfs.Boot.Sound.{IsSound, validate_bpb_iff}
use rust_fatfs.Boot.Valid.{IsValid, validate_bpb_lem}
use rust_fatfs.Boot.Layout.{
  try_fs_layout, determine_root_dir_sectors, determine_sectors_per_fat, accept_layout, reserved_for,
  FormatVolumeOptions, determine_fs_layout,
}
use rust_fatfs.Boot.Size.{try_fs_layout-fits}
use rust_fatfs.Boot.Narrow.{determine_fs_layout-panic}

abbrev new_year : Date
new_year = record { year = 2024; month = 2; day = 29 }

abbrev noon : Time
noon = record { hour = 12; min = 34; sec = 57; millis = 999 }

decode_date-encode_date_example :
    (encode_date new_year < 2 ^ 16) × (decode_date (encode_date new_year) ≡ new_year)
unfolding new_date
decode_date-encode_date_example = decode_date-encode_date 2024 2 29 new_year refl

decode_time-encode_time_example :
    ((encode_time noon).0 < 2 ^ 16)
    × ((encode_time noon).1 < 200)
    × (decode_time (encode_time noon).0 (encode_time noon).1 ≡ record noon { millis = 990 })
unfolding new_time
decode_time-encode_time_example = decode_time-encode_time 12 34 57 999 noon refl

abbrev disk : Memory.Memory
disk = record { cells = λ i. 0; at = 0 }

abbrev hints : FsInfoSector
hints = record { free_cluster_count = some 7; next_free_cluster = some 5; dirty = true }

deserialize-serialize_example :
    ((do
      seek_start (memory 2048) 512
      FsInfo.serialize (memory 2048) hints
      seek_start (memory 2048) 512
      FsInfo.deserialize (memory 2048))
      disk).0
    ≡ ok (record hints { dirty = false })
unfolding Memory.is_bytes
deserialize-serialize_example =
    deserialize-serialize (Memory.is_bytes 2048) disk 512 hints (omega arith)
      (omega arith, omega arith) (omega arith)

-- A floppy of 2880 sectors with one cluster for a sector.
abbrev floppy : BiosParameterBlock
floppy = record {
  bytes_per_sector = 512;
  sectors_per_cluster = 1;
  reserved_sectors = 1;
  fats = 2;
  root_entries = 224;
  total_sectors_16 = 2880;
  media = 0xF0;
  sectors_per_fat_16 = 9;
  sectors_per_track = 18;
  heads = 2;
  hidden_sectors = 0;
  total_sectors_32 = 0;
  sectors_per_fat_32 = 0;
  extended_flags = 0;
  fs_version = 0;
  root_dir_first_cluster = 0;
  fs_info_sector = 0;
  backup_boot_sector = 0;
  reserved_0 = replicate 12 0;
  drive_num = 0;
  reserved_1 = 0;
  ext_sig = 0x29;
  volume_id = 0x12345678;
  volume_label = replicate 11 0x41;
  fs_type_label = replicate 8 0x20;
}

abbrev boot : BootSector
boot = record {
  bootjmp = 0xEB ∷ 0x3C ∷ 0x90 ∷ [];
  oem_name = replicate 8 0x4D;
  bpb = floppy;
  boot_code = replicate 448 0;
  boot_sig = 0x55 ∷ 0xAA ∷ [];
}

floppy_run : validate_bpb floppy ≡ ok tt
unfolding validate_bpb is_power_of_two is_fat32 total_sectors first_data_sector total_clusters
floppy_run = refl

validate_bpb_iff_example : (validate_bpb floppy ≡ ok tt) ↔ IsSound floppy
unfolding total_sectors sectors_per_fat root_dir_sectors
validate_bpb_iff_example = validate_bpb_iff floppy (omega arith) (omega arith)

try_fs_layout_run : try_fs_layout 2880 512 1 fat12 14 2 ≡ ok (1, 9)
unfolding try_fs_layout determine_sectors_per_fat accept_layout reserved_for
try_fs_layout_run = refl

try_fs_layout-fits_example :
    (0 < 1)
    × (1 ≡ reserved_for fat12)
    × (1 + 14 + 9 * 2 < 2880)
    × (from_clusters 2847 ≡ fat12)
    × (2847 ≤ max_clusters fat12)
    × ((2847 + 2) * bits_per_fat_entry fat12 ≤ 9 * (512 * 8))
try_fs_layout-fits_example =
    try_fs_layout-fits 2880 512 1 fat12 14 2 1 9 (omega arith) (omega arith) (omega arith)
      (omega arith) try_fs_layout_run

abbrev narrow : FormatVolumeOptions
narrow = record {
  bytes_per_sector = 1024;
  total_sectors = none;
  bytes_per_cluster = some 512;
  fat_type = none;
  max_root_dir_entries = 512;
  fats = 2;
  media = 0xF8;
  sectors_per_track = 0x20;
  heads = 0x40;
  drive_num = none;
  volume_id = 0x12345678;
  volume_label = none;
}

determine_fs_layout-panic_example : determine_fs_layout narrow 2880 ≡ panic
unfolding determine_root_dir_sectors is_fat32_type
determine_fs_layout-panic_example =
    determine_fs_layout-panic narrow 2880 512 refl (omega arith) (omega arith)

bytes-IsByte : (n b : ℕ) → b < 256 → All IsByte (replicate n b)
bytes-IsByte zero b h = tt
bytes-IsByte (suc n) b h = (h, bytes-IsByte n b h)

floppy-IsSized : IsSized floppy
floppy-IsSized = record {
  bytes_per_sector = omega arith;
  sectors_per_cluster = omega arith;
  reserved_sectors = omega arith;
  fats = omega arith;
  root_entries = omega arith;
  total_sectors_16 = omega arith;
  media = omega arith;
  sectors_per_fat_16 = omega arith;
  sectors_per_track = omega arith;
  heads = omega arith;
  hidden_sectors = omega arith;
  total_sectors_32 = omega arith;
  sectors_per_fat_32 = omega arith;
  extended_flags = omega arith;
  fs_version = omega arith;
  root_dir_first_cluster = omega arith;
  fs_info_sector = omega arith;
  backup_boot_sector = omega arith;
  drive_num = omega arith;
  reserved_1 = omega arith;
  ext_sig = omega arith;
  volume_id = omega arith;
  reserved_0 = (refl, bytes-IsByte 12 0 (omega arith));
  volume_label = (refl, bytes-IsByte 11 0x41 (omega arith));
  fs_type_label = (refl, bytes-IsByte 8 0x20 (omega arith));
}

boot-IsBoot : IsBoot boot
unfolding is_fat32 clean
boot-IsBoot = record {
  bootjmp = (refl, (omega arith, (omega arith, (omega arith, tt))));
  oem_name = (refl, bytes-IsByte 8 0x4D (omega arith));
  sized = floppy-IsSized;
  plain = λ h. refl;
  cleaned = refl;
  boot_code = (refl, bytes-IsByte 448 0 (omega arith));
  short = λ h. refl;
  boot_sig = (refl, (omega arith, (omega arith, tt)));
}

deserialize-serialize_whole_example :
    ((do
      seek_start (memory 2048) 0
      serialize (memory 2048) boot
      seek_start (memory 2048) 0
      deserialize (memory 2048))
      disk).0
    ≡ ok boot
unfolding Memory.is_bytes
deserialize-serialize_whole_example =
    deserialize-serialize_whole (Memory.is_bytes 2048) boot boot-IsBoot disk 0 (omega arith)

floppy-IsValid : IsValid floppy
floppy-IsValid = (validate_bpb_lem floppy).0 floppy_run

-- The last data cluster.
cluster_regions_example :
    (offset_from_cluster floppy (2846 + 2) ≡ (1 + 2 * 9 + 14) * 512 + 2846 * cluster_size floppy)
    × (offset_from_cluster floppy (2846 + 2) + cluster_size floppy ≤ total_sectors floppy * 512)
unfolding total_sectors total_clusters first_data_sector sectors_per_fat root_dir_sectors
cluster_regions_example =
    cluster_regions floppy floppy-IsValid (omega arith) 2846 (omega arith) (omega arith)

fat_slice-before_data_example :
    ((fat_slice floppy).begin ≡ bytes_from_sectors floppy 1)
    × ((fat_slice floppy).begin + (fat_slice floppy).size * (fat_slice floppy).mirrors
        ≤ bytes_from_sectors floppy (first_data_sector floppy))
unfolding total_sectors mirroring_enabled sectors_per_fat root_dir_sectors
fat_slice-before_data_example =
    fat_slice-before_data floppy floppy-IsValid (omega arith) refl (omega arith)

-- Two tables of 2 ^ 31 sectors are 0 sectors in a `u32`.
abbrev wrapped : BiosParameterBlock
wrapped = record floppy {
  reserved_sectors = 32;
  root_entries = 0;
  total_sectors_16 = 0;
  sectors_per_fat_16 = 0;
  total_sectors_32 = 100000;
  sectors_per_fat_32 = 0x8000_0000;
}

wrapped_run : validate_bpb wrapped ≡ ok tt
unfolding validate_bpb is_power_of_two is_fat32 total_sectors first_data_sector total_clusters
wrapped_run = refl
