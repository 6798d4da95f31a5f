-- ===== src/Boot/Fields.antt =====
-- boot_sector.rs: the fields of the BIOS parameter block as bytes.
use rust_fatfs.Base.{ℕ, ◌^◌, ◌<◌, ◌≡◌, if◌then◌else◌, List, [], ◌∷◌, ◌++◌, length, All, replicate}
use rust_fatfs.Io.Contract.{IsByte}
use rust_fatfs.Io.Words.{bytes16, bytes32}
use rust_fatfs.Boot.{BiosParameterBlock, is_fat32}

abbrev pub IsArray : ℕ → List ℕ → Type 0
IsArray n bs = (length bs ≡ n) × All IsByte bs

-- The fields have the widths of the source's struct.
pub record IsSized (bpb : BiosParameterBlock) : Type 0 where
  pub bytes_per_sector : bpb.bytes_per_sector < 2 ^ 16
  pub sectors_per_cluster : bpb.sectors_per_cluster < 2 ^ 8
  pub reserved_sectors : bpb.reserved_sectors < 2 ^ 16
  pub fats : bpb.fats < 2 ^ 8
  pub root_entries : bpb.root_entries < 2 ^ 16
  pub total_sectors_16 : bpb.total_sectors_16 < 2 ^ 16
  pub media : bpb.media < 2 ^ 8
  pub sectors_per_fat_16 : bpb.sectors_per_fat_16 < 2 ^ 16
  pub sectors_per_track : bpb.sectors_per_track < 2 ^ 16
  pub heads : bpb.heads < 2 ^ 16
  pub hidden_sectors : bpb.hidden_sectors < 2 ^ 32
  pub total_sectors_32 : bpb.total_sectors_32 < 2 ^ 32
  pub sectors_per_fat_32 : bpb.sectors_per_fat_32 < 2 ^ 32
  pub extended_flags : bpb.extended_flags < 2 ^ 16
  pub fs_version : bpb.fs_version < 2 ^ 16
  pub root_dir_first_cluster : bpb.root_dir_first_cluster < 2 ^ 32
  pub fs_info_sector : bpb.fs_info_sector < 2 ^ 16
  pub backup_boot_sector : bpb.backup_boot_sector < 2 ^ 16
  pub reserved_0 : IsArray 12 bpb.reserved_0
  pub drive_num : bpb.drive_num < 2 ^ 8
  pub reserved_1 : bpb.reserved_1 < 2 ^ 8
  pub ext_sig : bpb.ext_sig < 2 ^ 8
  pub volume_id : bpb.volume_id < 2 ^ 32
  pub volume_label : IsArray 11 bpb.volume_label
  pub fs_type_label : IsArray 8 bpb.fs_type_label

abbrev pub without_fat32 : BiosParameterBlock → BiosParameterBlock
without_fat32 bpb = record bpb {
  sectors_per_fat_32 = 0;
  extended_flags = 0;
  fs_version = 0;
  root_dir_first_cluster = 0;
  fs_info_sector = 0;
  backup_boot_sector = 0;
  reserved_0 = replicate 12 0;
}

-- The block with only the fields that every format has, and without those of FAT32.
abbrev pub common_part : BiosParameterBlock → BiosParameterBlock
common_part bpb = record (without_fat32 bpb) {
  drive_num = 0;
  reserved_1 = 0;
  ext_sig = 0;
  volume_id = 0;
  volume_label = replicate 11 0;
  fs_type_label = replicate 8 0;
}

abbrev pub bytes_common : BiosParameterBlock → List ℕ
bytes_common bpb =
    bytes16 bpb.bytes_per_sector
    ++ ((bpb.sectors_per_cluster ∷ [])
        ++ (bytes16 bpb.reserved_sectors
            ++ ((bpb.fats ∷ [])
                ++ (bytes16 bpb.root_entries
                    ++ (bytes16 bpb.total_sectors_16
                        ++ ((bpb.media ∷ [])
                            ++ (bytes16 bpb.sectors_per_fat_16
                                ++ (bytes16 bpb.sectors_per_track
                                    ++ (bytes16 bpb.heads
                                        ++ (bytes32 bpb.hidden_sectors
                                            ++ bytes32 bpb.total_sectors_32))))))))))

abbrev pub bytes_fat32 : BiosParameterBlock → List ℕ
bytes_fat32 bpb =
    bytes32 bpb.sectors_per_fat_32
    ++ (bytes16 bpb.extended_flags
        ++ (bytes16 bpb.fs_version
            ++ (bytes32 bpb.root_dir_first_cluster
                ++ (bytes16 bpb.fs_info_sector
                    ++ (bytes16 bpb.backup_boot_sector ++ bpb.reserved_0)))))

abbrev pub bytes_last : BiosParameterBlock → List ℕ
bytes_last bpb =
    (bpb.drive_num ∷ [])
    ++ ((bpb.reserved_1 ∷ [])
        ++ ((bpb.ext_sig ∷ [])
            ++ (bytes32 bpb.volume_id ++ (bpb.volume_label ++ bpb.fs_type_label))))

abbrev pub bytes_bpb : BiosParameterBlock → List ℕ
bytes_bpb bpb =
    bytes_common bpb ++ ((if is_fat32 bpb then bytes_fat32 bpb else []) ++ bytes_last bpb)
