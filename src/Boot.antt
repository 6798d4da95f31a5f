-- ===== src/Boot.antt =====
-- boot_sector.rs: `BiosParameterBlock` and `BootSector`, and what is derived from their fields.
-- Sums and products of `u32` wrap around. The divisors are not 0 in a block that was validated.
pub mod Codec
pub mod Fields
pub mod Bpb
pub mod Roundtrip
pub mod Validate
pub mod Valid
pub mod Sound
pub mod Power
pub mod Layout
pub mod Size
pub mod Narrow
pub mod Format
pub mod Chosen
pub mod Block
pub mod Formatted
pub mod Geometry
pub mod Regions
use rust_fatfs.Base.{
  ℕ, zero, suc, ◌+◌, ◌-◌, ◌*◌, ◌/◌, ◌%◌, ◌^◌, ◌≤◌, ◌<◌, ◌≡◌, ◌≢◌, ◌⊎◌, inl, inr, refl, ◌∙◌, sym, ap,
  arith, bit_and, bit_or, Bool, true, false, ◌==◌, ltb, leb, if◌then◌else◌, Bool-cases, lt→ltb,
  ltb→lt, le→ltb, ltb→le, Option-cases, ◌&&◌, ◌||◌, not, List, [], ◌∷◌, ◌++◌, Option, some, none,
  length, All, ◌↔◌, min, max, map, take, drop, replicate, drop-length, take-length, length-append,
}
use rust_fatfs.Status.{FsStatusFlags, decode}

pub record BiosParameterBlock : Type 0 where
  pub bytes_per_sector : ℕ
  pub sectors_per_cluster : ℕ
  pub reserved_sectors : ℕ
  pub fats : ℕ
  pub root_entries : ℕ
  pub total_sectors_16 : ℕ
  pub media : ℕ
  pub sectors_per_fat_16 : ℕ
  pub sectors_per_track : ℕ
  pub heads : ℕ
  pub hidden_sectors : ℕ
  pub total_sectors_32 : ℕ
  pub sectors_per_fat_32 : ℕ
  pub extended_flags : ℕ
  pub fs_version : ℕ
  pub root_dir_first_cluster : ℕ
  pub fs_info_sector : ℕ
  pub backup_boot_sector : ℕ
  pub reserved_0 : List ℕ
  pub drive_num : ℕ
  pub reserved_1 : ℕ
  pub ext_sig : ℕ
  pub volume_id : ℕ
  pub volume_label : List ℕ
  pub fs_type_label : List ℕ

-- `DIR_ENTRY_SIZE` of dir_entry.rs.
abbrev pub dir_entry_size : ℕ
dir_entry_size = 32

unfoldable pub mirroring_enabled : BiosParameterBlock → Bool
mirroring_enabled bpb = bit_and bpb.extended_flags 0x80 == 0

unfoldable pub active_fat : BiosParameterBlock → ℕ
unfolding mirroring_enabled
active_fat bpb = if mirroring_enabled bpb then 0 else bit_and bpb.extended_flags 0x0F

unfoldable pub status_flags : BiosParameterBlock → FsStatusFlags
unfolding decode
status_flags bpb = decode bpb.reserved_1

unfoldable pub is_fat32 : BiosParameterBlock → Bool
is_fat32 bpb = bpb.sectors_per_fat_16 == 0

unfoldable pub sectors_per_fat : BiosParameterBlock → ℕ
unfolding is_fat32
sectors_per_fat bpb = if is_fat32 bpb then bpb.sectors_per_fat_32 else bpb.sectors_per_fat_16

unfoldable pub total_sectors : BiosParameterBlock → ℕ
total_sectors bpb = if bpb.total_sectors_16 == 0 then bpb.total_sectors_32 else bpb.total_sectors_16

unfoldable pub root_dir_sectors : BiosParameterBlock → ℕ
root_dir_sectors bpb =
    (bpb.root_entries * dir_entry_size + bpb.bytes_per_sector - 1) / bpb.bytes_per_sector

unfoldable pub sectors_per_all_fats : BiosParameterBlock → ℕ
unfolding sectors_per_fat
sectors_per_all_fats bpb = bpb.fats * sectors_per_fat bpb % 2 ^ 32

unfoldable pub first_data_sector : BiosParameterBlock → ℕ
unfolding root_dir_sectors sectors_per_all_fats
first_data_sector bpb =
    (bpb.reserved_sectors + sectors_per_all_fats bpb + root_dir_sectors bpb) % 2 ^ 32

unfoldable pub total_clusters : BiosParameterBlock → ℕ
unfolding total_sectors first_data_sector
total_clusters bpb =
    let data_sectors = (total_sectors bpb + 2 ^ 32 - first_data_sector bpb) % 2 ^ 32 in
    data_sectors / bpb.sectors_per_cluster

-- A `u64`, which holds the product of a `u32` and a `u16`.
unfoldable pub bytes_from_sectors : BiosParameterBlock → ℕ → ℕ
bytes_from_sectors bpb sectors = sectors * bpb.bytes_per_sector

unfoldable pub sectors_from_clusters : BiosParameterBlock → ℕ → ℕ
sectors_from_clusters bpb clusters = clusters * bpb.sectors_per_cluster % 2 ^ 32

unfoldable pub cluster_size : BiosParameterBlock → ℕ
cluster_size bpb = bpb.sectors_per_cluster * bpb.bytes_per_sector

unfoldable pub clusters_from_bytes : BiosParameterBlock → ℕ → ℕ
unfolding cluster_size
clusters_from_bytes bpb bytes =
    (bytes + cluster_size bpb + 2 ^ 64 - 1) % 2 ^ 64 / cluster_size bpb % 2 ^ 32

pub record BootSector : Type 0 where
  pub bootjmp : List ℕ
  pub oem_name : List ℕ
  pub bpb : BiosParameterBlock
  pub boot_code : List ℕ
  pub boot_sig : List ℕ
