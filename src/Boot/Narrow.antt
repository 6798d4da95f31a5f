-- ===== src/Boot/Narrow.antt =====
-- boot_sector.rs: what happens when a cluster is narrower than a sector.
use rust_fatfs.Base.{
  ℕ, ◌+◌, ◌/◌, ◌≤◌, ◌<◌, ◌≡◌, inl, inr, refl, arith, false, leb, Option-cases, List, [], ◌∷◌, some,
}
use rust_fatfs.Base.Result.{panic}
use rust_fatfs.FatType.{FatType, fat12, fat16, fat32, is_fat32_type}
use rust_fatfs.Boot.Layout.{
  accept_layout, try_fs_layout, reserved_for, determine_root_dir_sectors, FormatVolumeOptions,
  determine_fs_layout, layout_with, select_layout, allowed_fat_types,
}

try_fs_layout-panic :
    (total bps root fats : ℕ) (t : FatType)
    → reserved_for t + root + 8 < total
    → try_fs_layout total bps 0 t root fats ≡ panic
unfolding try_fs_layout accept_layout
try_fs_layout-panic total bps root fats t h =
    let small : leb total (reserved_for t + root + 8) ≡ false = ground arith in rw small refl

root_le :
    (n bps : ℕ) (t : FatType)
    → determine_root_dir_sectors n bps t ≤ determine_root_dir_sectors n bps fat16
unfolding determine_root_dir_sectors is_fat32_type
root_le n bps fat12 = omega arith
root_le n bps fat16 = omega arith
root_le n bps fat32 = omega arith

reserved_le : (t : FatType) → reserved_for t ≤ 8
unfolding reserved_for is_fat32_type
reserved_le t = ground arith

select_layout-panic :
    (o : FormatVolumeOptions) (total : ℕ) (t : FatType) (rest : List FatType)
    → determine_root_dir_sectors o.max_root_dir_entries o.bytes_per_sector fat16 + 16 < total
    → select_layout o total 0 (t ∷ rest) ≡ panic
unfolding select_layout
select_layout-panic o total t rest h =
    let a = root_le o.max_root_dir_entries o.bytes_per_sector t in
    let b = reserved_le t in
    rw
      (
        select_layout,
        try_fs_layout-panic total o.bytes_per_sector
            (determine_root_dir_sectors o.max_root_dir_entries o.bytes_per_sector t) o.fats t
            (omega arith),
      )
      refl

-- With a cluster size that is below the sector size, on a disk with room for the reserved sectors,
-- a root directory and 8 sectors: `determine_fs_layout` panics, since it divides by 0 sectors per
-- cluster.
pub determine_fs_layout-panic :
    (o : FormatVolumeOptions) (total b : ℕ)
    → o.bytes_per_cluster ≡ some b
    → b < o.bytes_per_sector
    → determine_root_dir_sectors o.max_root_dir_entries o.bytes_per_sector fat16 + 16 < total
    → determine_fs_layout o total ≡ panic
unfolding determine_fs_layout layout_with allowed_fat_types
determine_fs_layout-panic o total b e h k =
    let none_left : b / o.bytes_per_sector ≡ 0 = grind arith in
    rw (e, none_left)
      (elim (Option-cases o.fat_type) [
        | inl (t, q) ↦ rw q (select_layout-panic o total t [] k)
        | inr q ↦ rw q (select_layout-panic o total fat32 (fat16 ∷ fat12 ∷ []) k)
      ])
