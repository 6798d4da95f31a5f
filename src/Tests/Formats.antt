-- ===== src/Tests/Formats.antt =====
-- A run of `format_boot_sector`, and the theorem on it there.
use rust_fatfs.Base.{◌≡◌, refl, arith, some, none}
use rust_fatfs.Base.Result.{ok}
use rust_fatfs.FatType.{fat12, from_clusters}
use rust_fatfs.Boot.{
  BootSector, total_clusters, first_data_sector, total_sectors, sectors_per_all_fats,
  root_dir_sectors,
}
use rust_fatfs.Boot.Layout.{
  FormatVolumeOptions, FsLayout, determine_fs_layout, select_layout, determine_root_dir_sectors,
  determine_bytes_per_cluster, try_fs_layout, determine_sectors_per_fat, accept_layout,
  reserved_for,
}
use rust_fatfs.Boot.Format.{
  format_boot_sector, format_bpb, accept_bpb, sectors_16, new_bpb, new_boot, fix_offsets,
}
use rust_fatfs.Boot.Validate.{validate}
use rust_fatfs.Boot.Formatted.{format_boot_sector-validate}

abbrev floppy_options : FormatVolumeOptions
floppy_options = record {
  bytes_per_sector = 512;
  total_sectors = none;
  bytes_per_cluster = none;
  fat_type = some fat12;
  max_root_dir_entries = 224;
  fats = 2;
  media = 0xF0;
  sectors_per_track = 18;
  heads = 2;
  drive_num = none;
  volume_id = 0x12345678;
  volume_label = none;
}

abbrev floppy_layout : FsLayout
floppy_layout = record {
  fat_type = fat12;
  reserved_sectors = 1;
  sectors_per_fat = 5;
  sectors_per_cluster = 2;
}

abbrev floppy_boot : BootSector
floppy_boot = fix_offsets (new_boot (new_bpb floppy_options 2880 floppy_layout 5 2880))

layout_run : determine_fs_layout floppy_options 2880 ≡ ok floppy_layout
unfolding determine_fs_layout select_layout determine_root_dir_sectors try_fs_layout
    determine_sectors_per_fat accept_layout reserved_for determine_bytes_per_cluster
layout_run = refl

bpb_run :
    format_bpb floppy_options 2880 ≡ ok (new_bpb floppy_options 2880 floppy_layout 5 2880, fat12)
unfolding format_bpb accept_bpb total_clusters first_data_sector total_sectors sectors_16 new_bpb
    sectors_per_all_fats root_dir_sectors
bpb_run = rw layout_run refl

format_run : format_boot_sector floppy_options 2880 ≡ ok (floppy_boot, fat12)
unfolding format_boot_sector
format_run = rw bpb_run refl

format_boot_sector-validate_example :
    (validate floppy_boot ≡ ok tt) × (from_clusters (total_clusters floppy_boot.bpb) ≡ fat12)
unfolding fix_offsets new_boot new_bpb
format_boot_sector-validate_example =
    format_boot_sector-validate floppy_options 2880 floppy_boot fat12 (omega arith) (9, refl)
      (omega arith) (omega arith) (omega arith) (omega arith) (omega arith) (λ x e. absurd (cc))
      format_run
