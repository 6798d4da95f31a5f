-- ===== src/Boot/Format.antt =====
-- boot_sector.rs: the boot sector of a new volume.
use rust_fatfs.Base.{
  ℕ, zero, suc, ◌+◌, ◌-◌, ◌/◌, ◌^◌, bit_and, ◌==◌, ltb, leb, if◌then◌else◌, not, List, [], ◌∷◌,
  ◌++◌, Option, some, none, replicate,
}
use rust_fatfs.Base.Result.{Result, ok, err, panic, stuck, invalid_input}
use rust_fatfs.FatType.{FatType, fat12, fat16, fat32, is_fat32_type, from_clusters}
use rust_fatfs.Boot.{BiosParameterBlock, BootSector, total_clusters}
use rust_fatfs.Boot.Layout.{FormatVolumeOptions, FsLayout, determine_fs_layout, same_type}

-- `unwrap_or`
unfoldable pub value_or {ℓ} : {A : Type ℓ} → Option A → A → A
value_or none x = x
value_or (some y) x = y

-- `b"NO NAME    "`
abbrev pub no_name : List ℕ
no_name = 78 ∷ 79 ∷ 32 ∷ 78 ∷ 65 ∷ 77 ∷ 69 ∷ 32 ∷ 32 ∷ 32 ∷ 32 ∷ []

-- `b"FAT12   "`, `b"FAT16   "` and `b"FAT32   "`
unfoldable pub type_label : FatType → List ℕ
type_label fat12 = 70 ∷ 65 ∷ 84 ∷ 49 ∷ 50 ∷ 32 ∷ 32 ∷ 32 ∷ []
type_label fat16 = 70 ∷ 65 ∷ 84 ∷ 49 ∷ 54 ∷ 32 ∷ 32 ∷ 32 ∷ []
type_label fat32 = 70 ∷ 65 ∷ 84 ∷ 51 ∷ 50 ∷ 32 ∷ 32 ∷ 32 ∷ []

unfoldable pub drive_of : FatType → ℕ
drive_of fat12 = 0
drive_of _ = 0x80

-- The block, with the two fields of 16 bits that were converted.
unfoldable pub new_bpb : FormatVolumeOptions → ℕ → FsLayout → ℕ → ℕ → BiosParameterBlock
unfolding value_or type_label drive_of is_fat32_type
new_bpb options total_sectors layout sectors_per_fat_16 total_sectors_16 =
    let big = is_fat32_type layout.fat_type in
    record {
      bytes_per_sector = options.bytes_per_sector;
      sectors_per_cluster = layout.sectors_per_cluster;
      reserved_sectors = layout.reserved_sectors;
      fats = options.fats;
      root_entries = if big then 0 else options.max_root_dir_entries;
      total_sectors_16 = total_sectors_16;
      media = options.media;
      sectors_per_fat_16 = sectors_per_fat_16;
      sectors_per_track = options.sectors_per_track;
      heads = options.heads;
      hidden_sectors = 0;
      total_sectors_32 = if total_sectors_16 == 0 then total_sectors else 0;
      sectors_per_fat_32 = if big then layout.sectors_per_fat else 0;
      extended_flags = 0;
      fs_version = 0;
      root_dir_first_cluster = if big then 2 else 0;
      fs_info_sector = if big then 1 else 0;
      backup_boot_sector = if big then 6 else 0;
      reserved_0 = replicate 12 0;
      drive_num = value_or options.drive_num (drive_of layout.fat_type);
      reserved_1 = 0;
      ext_sig = 0x29;
      volume_id = options.volume_id;
      volume_label = value_or options.volume_label no_name;
      fs_type_label = type_label layout.fat_type;
    }

-- `total_sectors.try_into().unwrap_or(0)`, or 0 for FAT32.
unfoldable pub sectors_16 : FatType → ℕ → ℕ
unfolding is_fat32_type
sectors_16 fat_type total_sectors =
    if is_fat32_type fat_type then 0 else if leb total_sectors 0xFFFF then total_sectors else 0

-- The check of the cluster count at the end.
unfoldable pub accept_bpb : FatType → BiosParameterBlock → Result (BiosParameterBlock × FatType)
unfolding same_type from_clusters total_clusters
accept_bpb fat_type bpb =
    if not (same_type (from_clusters (total_clusters bpb)) fat_type)
    then err invalid_input
    else ok (bpb, fat_type)

unfoldable pub bpb_with :
    FormatVolumeOptions → ℕ → Result FsLayout → Result (BiosParameterBlock × FatType)
unfolding new_bpb sectors_16 accept_bpb is_fat32_type
bpb_with options total_sectors (ok layout) =
    let total_sectors_16 = sectors_16 layout.fat_type total_sectors in
    if is_fat32_type layout.fat_type
    then accept_bpb layout.fat_type (new_bpb options total_sectors layout 0 total_sectors_16)
    else if ltb 0xFFFF layout.sectors_per_fat
    then err invalid_input
    else accept_bpb layout.fat_type
        (new_bpb options total_sectors layout layout.sectors_per_fat total_sectors_16)
bpb_with options total_sectors (err e) = err e
bpb_with options total_sectors panic = panic
bpb_with options total_sectors stuck = stuck

unfoldable pub format_bpb : FormatVolumeOptions → ℕ → Result (BiosParameterBlock × FatType)
unfolding bpb_with determine_fs_layout
format_bpb options total_sectors =
    bpb_with options total_sectors (determine_fs_layout options total_sectors)

-- The boot code, copied from mkfs.fat.
abbrev pub mkfs_code : List ℕ
mkfs_code =
    0x0E ∷ 0x1F ∷ 0xBE ∷ 0x77 ∷ 0x7C ∷ 0xAC ∷ 0x22 ∷ 0xC0 ∷ 0x74 ∷ 0x0B ∷ 0x56 ∷ 0xB4 ∷ 0x0E ∷ 0xBB
    ∷ 0x07 ∷ 0x00 ∷ 0xCD ∷ 0x10 ∷ 0x5E ∷ 0xEB ∷ 0xF0 ∷ 0x32 ∷ 0xE4 ∷ 0xCD ∷ 0x16 ∷ 0xCD ∷ 0x19
    ∷ 0xEB ∷ 0xFE ∷ 0x54 ∷ 0x68 ∷ 0x69 ∷ 0x73 ∷ 0x20 ∷ 0x69 ∷ 0x73 ∷ 0x20 ∷ 0x6E ∷ 0x6F ∷ 0x74
    ∷ 0x20 ∷ 0x61 ∷ 0x20 ∷ 0x62 ∷ 0x6F ∷ 0x6F ∷ 0x74 ∷ 0x61 ∷ 0x62 ∷ 0x6C ∷ 0x65 ∷ 0x20 ∷ 0x64
    ∷ 0x69 ∷ 0x73 ∷ 0x6B ∷ 0x2E ∷ 0x20 ∷ 0x20 ∷ 0x50 ∷ 0x6C ∷ 0x65 ∷ 0x61 ∷ 0x73 ∷ 0x65 ∷ 0x20
    ∷ 0x69 ∷ 0x6E ∷ 0x73 ∷ 0x65 ∷ 0x72 ∷ 0x74 ∷ 0x20 ∷ 0x61 ∷ 0x20 ∷ 0x62 ∷ 0x6F ∷ 0x6F ∷ 0x74
    ∷ 0x61 ∷ 0x62 ∷ 0x6C ∷ 0x65 ∷ 0x20 ∷ 0x66 ∷ 0x6C ∷ 0x6F ∷ 0x70 ∷ 0x70 ∷ 0x79 ∷ 0x20 ∷ 0x61
    ∷ 0x6E ∷ 0x64 ∷ 0x0D ∷ 0x0A ∷ 0x70 ∷ 0x72 ∷ 0x65 ∷ 0x73 ∷ 0x73 ∷ 0x20 ∷ 0x61 ∷ 0x6E ∷ 0x79
    ∷ 0x20 ∷ 0x6B ∷ 0x65 ∷ 0x79 ∷ 0x20 ∷ 0x74 ∷ 0x6F ∷ 0x20 ∷ 0x74 ∷ 0x72 ∷ 0x79 ∷ 0x20 ∷ 0x61
    ∷ 0x67 ∷ 0x61 ∷ 0x69 ∷ 0x6E ∷ 0x20 ∷ 0x2E ∷ 0x2E ∷ 0x2E ∷ 0x20 ∷ 0x0D ∷ 0x0A ∷ []

-- `list[i] = value`
unfoldable pub set_at : ℕ → ℕ → List ℕ → List ℕ
set_at i value [] = []
set_at zero value (x ∷ xs) = value ∷ xs
set_at (suc i) value (x ∷ xs) = x ∷ set_at i value xs

abbrev pub boot_code_offset : ℕ
boot_code_offset = 0x36 + 8

abbrev pub message_offset : ℕ
message_offset = 29

-- The fixes of the offsets for the formats that have the boot code elsewhere.
unfoldable pub fix_offsets : BootSector → BootSector
unfolding set_at
fix_offsets boot =
    let in_sector = boot_code_offset + message_offset + 0x7C00 in
    record boot {
      bootjmp = set_at 1 (boot_code_offset - 2) boot.bootjmp;
      boot_code = set_at 4 (in_sector / 2 ^ 8) (set_at 3 (bit_and in_sector 0xFF) boot.boot_code);
    }

-- `b"MSWIN4.1"` is the name.
unfoldable pub new_boot : BiosParameterBlock → BootSector
new_boot bpb = record {
  bootjmp = 0xEB ∷ 0x58 ∷ 0x90 ∷ [];
  oem_name = 77 ∷ 83 ∷ 87 ∷ 73 ∷ 78 ∷ 52 ∷ 46 ∷ 49 ∷ [];
  bpb = bpb;
  boot_code = mkfs_code ++ replicate 319 0;
  boot_sig = 0x55 ∷ 0xAA ∷ [];
}

unfoldable pub boot_with : Result (BiosParameterBlock × FatType) → Result (BootSector × FatType)
unfolding new_boot fix_offsets is_fat32_type
boot_with (ok (bpb, fat_type)) =
    ok (if is_fat32_type fat_type then new_boot bpb else fix_offsets (new_boot bpb), fat_type)
boot_with (err e) = err e
boot_with panic = panic
boot_with stuck = stuck

unfoldable pub format_boot_sector : FormatVolumeOptions → ℕ → Result (BootSector × FatType)
unfolding boot_with format_bpb
format_boot_sector options total_sectors = boot_with (format_bpb options total_sectors)
