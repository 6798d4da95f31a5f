-- ===== src/Boot/Regions.antt =====
-- fs.rs: the regions of a valid volume lie one behind the other.
use rust_fatfs.Base.{ℕ, ◌+◌, ◌-◌, ◌*◌, ◌/◌, ◌%◌, ◌^◌, ◌≤◌, ◌<◌, ◌≡◌, refl, arith, true}
use mathlib.Core.Path.{subst}
use native.Mathlib.Nat.{mul-le-mul_left, mul-le-mul_right, div-mul-le_self, one-le-pow}
use rust_fatfs.Boot.{
  BiosParameterBlock, mirroring_enabled, sectors_per_fat, total_sectors, root_dir_sectors,
  sectors_per_all_fats, first_data_sector, total_clusters, bytes_from_sectors,
  sectors_from_clusters, cluster_size,
}
use rust_fatfs.Boot.Valid.{IsValid, IsPower}
use rust_fatfs.Boot.Geometry.{from_sectors, fat_slice, sector_from_cluster, offset_from_cluster}

-- The data sectors of a cluster below the count.
cluster_room : (n spc left : ℕ) → n < left / spc → n * spc + spc ≤ left
cluster_room n spc left h =
    let whole = div-mul-le_self left spc in
    let next : (n + 1) * spc ≤ left / spc * spc = mul-le-mul_right spc (omega arith) in omega arith

pub power_pos : (n : ℕ) → IsPower n → 0 < n
power_pos n (k, e) = rw e (one-le-pow k 2 (omega arith))

left_of :
    (total first : ℕ)
    → first < total
    → total < 2 ^ 32
    → (total + 2 ^ 32 - first) % 2 ^ 32 ≡ total - first
left_of total first h k = omega arith

module _ (bpb : BiosParameterBlock) (valid : IsValid bpb) (small : total_sectors bpb < 2 ^ 32) where
  -- The first sector of a data cluster, and that its last is in the volume.
  sector_in :
      (n : ℕ)
      → n < total_clusters bpb
      → (sector_from_cluster bpb (n + 2) ≡ first_data_sector bpb + n * bpb.sectors_per_cluster)
        × (first_data_sector bpb + n * bpb.sectors_per_cluster + bpb.sectors_per_cluster
            ≤ total_sectors bpb)
  unfolding sector_from_cluster total_clusters sectors_from_clusters
  sector_in n h =
      let inside = valid.data_after in
      let left = left_of (total_sectors bpb) (first_data_sector bpb) inside small in
      let count : n < (total_sectors bpb - first_data_sector bpb) / bpb.sectors_per_cluster =
        subst (λ k. n < k / bpb.sectors_per_cluster) left h in
      let room = cluster_room n bpb.sectors_per_cluster _ count in
      let spc = power_pos bpb.sectors_per_cluster valid.cluster_power in
      let le : n * 1 ≤ n * bpb.sectors_per_cluster = mul-le-mul_left n spc in
      let number : (n + 2 + 2 ^ 32 - 2) % 2 ^ 32 ≡ n = omega arith in
      rw number (omega arith, omega arith)

  -- For a valid block of less than 2 ^ 32 sectors, whose reserved sectors, tables and root directory
  -- are less than 2 ^ 32 sectors too: the data clusters, from 2 to one past their count, lie one
  -- behind the other from the end of the root directory on, and each ends in the volume.
  pub cluster_regions :
      (n : ℕ)
      → n < total_clusters bpb
      → bpb.reserved_sectors + bpb.fats * sectors_per_fat bpb + root_dir_sectors bpb < 2 ^ 32
      → let at = offset_from_cluster bpb (n + 2) in
        (at
          ≡ (bpb.reserved_sectors + bpb.fats * sectors_per_fat bpb + root_dir_sectors bpb)
              * bpb.bytes_per_sector
            + n * cluster_size bpb)
        × (at + cluster_size bpb ≤ total_sectors bpb * bpb.bytes_per_sector)
  unfolding offset_from_cluster bytes_from_sectors cluster_size first_data_sector
      sectors_per_all_fats
  cluster_regions n h fit =
      let (here, ends) = sector_in n h in
      let flat : first_data_sector bpb
          ≡ bpb.reserved_sectors + bpb.fats * sectors_per_fat bpb + root_dir_sectors bpb =
        omega arith in
      let front = bpb.reserved_sectors + bpb.fats * sectors_per_fat bpb + root_dir_sectors bpb in
      let inside : front + n * bpb.sectors_per_cluster + bpb.sectors_per_cluster
          ≤ total_sectors bpb =
        omega arith in
      let scaled = mul-le-mul_right bpb.bytes_per_sector inside in
      rw (here, flat) (omega arith, omega arith)

  -- For a valid block whose reserved sectors, tables and root directory are less than 2 ^ 32
  -- sectors, with mirrored tables: the window of the tables starts behind the reserved sectors,
  -- and it and its mirrors end before the data.
  pub fat_slice-before_data :
      mirroring_enabled bpb ≡ true
      → bpb.reserved_sectors + bpb.fats * sectors_per_fat bpb + root_dir_sectors bpb < 2 ^ 32
      → let w = fat_slice bpb in
        (w.begin ≡ bytes_from_sectors bpb bpb.reserved_sectors)
        × (w.begin + w.size * w.mirrors ≤ bytes_from_sectors bpb (first_data_sector bpb))
  unfolding fat_slice from_sectors bytes_from_sectors first_data_sector sectors_per_all_fats
  fat_slice-before_data on fit =
      let flat : first_data_sector bpb
          ≡ bpb.reserved_sectors + bpb.fats * sectors_per_fat bpb + root_dir_sectors bpb =
        omega arith in
      let scaled : (bpb.reserved_sectors + bpb.fats * sectors_per_fat bpb) * bpb.bytes_per_sector
          ≤ first_data_sector bpb * bpb.bytes_per_sector =
        mul-le-mul_right bpb.bytes_per_sector (omega arith) in
      rw on (refl, omega arith)
