-- ===== src/Boot/Geometry.antt =====
-- fs.rs: where the tables and the clusters of a volume lie on its storage.
use rust_fatfs.Base.{ℕ, ◌+◌, ◌-◌, ◌*◌, ◌%◌, ◌^◌, if◌then◌else◌}
use rust_fatfs.Disk.{Window}
use rust_fatfs.Table.Value.{reserved_fat_entries}
use rust_fatfs.Boot.{
  BiosParameterBlock, mirroring_enabled, active_fat, sectors_per_fat, first_data_sector,
  bytes_from_sectors, sectors_from_clusters,
}

-- `DiskSlice::from_sectors`
unfoldable pub from_sectors : BiosParameterBlock → ℕ → ℕ → ℕ → Window
unfolding bytes_from_sectors
from_sectors bpb first_sector sector_count mirrors = record {
  begin = bytes_from_sectors bpb first_sector;
  size = bytes_from_sectors bpb sector_count;
  mirrors = mirrors;
}

unfoldable pub fat_slice : BiosParameterBlock → Window
unfolding from_sectors mirroring_enabled active_fat sectors_per_fat
fat_slice bpb =
    let size = sectors_per_fat bpb in
    if mirroring_enabled bpb
    then from_sectors bpb bpb.reserved_sectors size bpb.fats
    else from_sectors bpb ((bpb.reserved_sectors + active_fat bpb * size % 2 ^ 32) % 2 ^ 32) size 1

-- `FileSystem::sector_from_cluster`
unfoldable pub sector_from_cluster : BiosParameterBlock → ℕ → ℕ
unfolding first_data_sector sectors_from_clusters
sector_from_cluster bpb cluster =
    (first_data_sector bpb
      + sectors_from_clusters bpb ((cluster + 2 ^ 32 - reserved_fat_entries) % 2 ^ 32))
    % 2 ^ 32

-- `FileSystem::offset_from_cluster`
unfoldable pub offset_from_cluster : BiosParameterBlock → ℕ → ℕ
unfolding bytes_from_sectors sector_from_cluster
offset_from_cluster bpb cluster = bytes_from_sectors bpb (sector_from_cluster bpb cluster)

-- `FileSystem::bytes_from_clusters`
unfoldable pub bytes_from_clusters : BiosParameterBlock → ℕ → ℕ
unfolding bytes_from_sectors sectors_from_clusters
bytes_from_clusters bpb clusters = bytes_from_sectors bpb (sectors_from_clusters bpb clusters)
