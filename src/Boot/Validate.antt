-- ===== src/Boot/Validate.antt =====
-- boot_sector.rs: the `validate` functions. A block that only warns is not written.
use rust_fatfs.Base.{
  ℕ, ◌-◌, bit_and, Bool, false, ◌==◌, ltb, leb, if◌then◌else◌, ◌&&◌, ◌||◌, not, List, [], ◌∷◌,
}
use rust_fatfs.Base.Result.{Result, ok, err, panic, stuck, corrupted_file_system}
use rust_fatfs.FatType.{from_clusters, is_fat32_type}
use rust_fatfs.Boot.{
  BiosParameterBlock, BootSector, is_fat32, total_sectors, first_data_sector, total_clusters,
}

-- `if test { return Err(Error::CorruptedFileSystem) }`
unfoldable pub refuse : Bool → Result (Unit {0})
refuse test = if test then err corrupted_file_system else ok tt

-- The first `?`, then the rest.
infixr 5 ◌also◌
unfoldable pub ◌also◌ : Result (Unit {0}) → Result (Unit {0}) → Result (Unit {0})
ok _ also r = r
err e also r = err e
panic also r = panic
stuck also r = stuck

-- `is_power_of_two` of the standard library: one bit is set.
unfoldable pub is_power_of_two : ℕ → Bool
is_power_of_two n = not (n == 0) && (bit_and n (n - 1) == 0)

unfoldable pub validate_bytes_per_sector : BiosParameterBlock → Result (Unit {0})
unfolding ◌also◌ refuse
validate_bytes_per_sector bpb =
    refuse (not (is_power_of_two bpb.bytes_per_sector))
    also refuse (ltb bpb.bytes_per_sector 512 || ltb 4096 bpb.bytes_per_sector)

unfoldable pub validate_sectors_per_cluster : BiosParameterBlock → Result (Unit {0})
unfolding ◌also◌ refuse
validate_sectors_per_cluster bpb = refuse (not (is_power_of_two bpb.sectors_per_cluster))

unfoldable pub validate_reserved_sectors : BiosParameterBlock → Result (Unit {0})
unfolding ◌also◌ refuse
validate_reserved_sectors bpb =
    refuse (ltb bpb.reserved_sectors 1)
    also refuse (is_fat32 bpb && leb bpb.reserved_sectors bpb.backup_boot_sector)
    also refuse (is_fat32 bpb && leb bpb.reserved_sectors bpb.fs_info_sector)

unfoldable pub validate_fats : BiosParameterBlock → Result (Unit {0})
unfolding ◌also◌ refuse
validate_fats bpb = refuse (bpb.fats == 0)

unfoldable pub validate_root_entries : BiosParameterBlock → Result (Unit {0})
unfolding ◌also◌ refuse
validate_root_entries bpb =
    refuse (is_fat32 bpb && not (bpb.root_entries == 0))
    also refuse (not (is_fat32 bpb) && (bpb.root_entries == 0))

-- `(a == 0) == (b == 0)`
unfoldable pub both_or_none : ℕ → ℕ → Bool
both_or_none a b = if a == 0 then b == 0 else not (b == 0)

unfoldable pub validate_total_sectors : BiosParameterBlock → Result (Unit {0})
unfolding ◌also◌ refuse both_or_none
validate_total_sectors bpb =
    refuse (is_fat32 bpb && not (bpb.total_sectors_16 == 0))
    also refuse (both_or_none bpb.total_sectors_16 bpb.total_sectors_32)
    also refuse (leb (total_sectors bpb) (first_data_sector bpb))

unfoldable pub validate_sectors_per_fat : BiosParameterBlock → Result (Unit {0})
unfolding ◌also◌ refuse
validate_sectors_per_fat bpb = refuse (is_fat32 bpb && (bpb.sectors_per_fat_32 == 0))

-- `a != b` on Booleans.
unfoldable pub differ : Bool → Bool → Bool
differ a b = if a then not b else b

unfoldable pub validate_total_clusters : BiosParameterBlock → Result (Unit {0})
unfolding ◌also◌ refuse differ from_clusters is_fat32_type
validate_total_clusters bpb =
    let fat_type = from_clusters (total_clusters bpb) in
    refuse (differ (is_fat32 bpb) (is_fat32_type fat_type))
    also refuse (is_fat32_type fat_type && ltb 0x0FFF_FFFF (total_clusters bpb))

unfoldable pub validate_bpb : BiosParameterBlock → Result (Unit {0})
unfolding ◌also◌ refuse validate_bytes_per_sector validate_sectors_per_cluster
    validate_reserved_sectors validate_fats validate_root_entries validate_total_sectors
    validate_sectors_per_fat validate_total_clusters
validate_bpb bpb =
    refuse (not (bpb.fs_version == 0))
    also validate_bytes_per_sector bpb
    also validate_sectors_per_cluster bpb
    also validate_reserved_sectors bpb
    also validate_fats bpb
    also validate_root_entries bpb
    also validate_total_sectors bpb
    also validate_sectors_per_fat bpb
    also validate_total_clusters bpb

-- `self.boot_sig == [0x55, 0xAA]`
unfoldable pub is_signed : List ℕ → Bool
is_signed (a ∷ b ∷ []) = (a == 0x55) && (b == 0xAA)
is_signed _ = false

unfoldable pub validate : BootSector → Result (Unit {0})
unfolding ◌also◌ refuse is_signed validate_bpb
validate boot = refuse (not (is_signed boot.boot_sig)) also validate_bpb boot.bpb
