-- ===== src/FileSystem/Format.antt =====
-- fs.rs: `format_volume`. The `debug_assert!` on the position of the storage is left out.
use rust_fatfs.Base.{
  ℕ, ◌+◌, ◌-◌, ◌/◌, ◌%◌, ◌^◌, ◌==◌, ltb, if◌then◌else◌, false, Option, some, none, List,
}
use rust_fatfs.Base.Int.{pos}
use rust_fatfs.Base.Result.{
  Result, ok, err, panic, stuck, M, pure, fail, fail_panic, invalid_input, ◌>>=◌, ◌>>◌,
}
use rust_fatfs.FatType.{FatType, is_fat32_type}
use rust_fatfs.Io.{Stream, end, current, seek_start}
use rust_fatfs.Disk
use rust_fatfs.Disk.{DiskSlice}
use rust_fatfs.Table.{alloc_cluster, format_fat}
use rust_fatfs.Table.Value.{reserved_fat_entries}
use rust_fatfs.FsInfo
use rust_fatfs.Boot.{
  BiosParameterBlock, BootSector, is_fat32, bytes_from_sectors, sectors_per_all_fats,
  sectors_per_fat, root_dir_sectors, total_clusters, sectors_from_clusters, cluster_size,
}
use rust_fatfs.Boot.Codec
use rust_fatfs.Boot.Validate.{validate}
use rust_fatfs.Boot.Layout.{FormatVolumeOptions}
use rust_fatfs.Boot.Format.{format_boot_sector}
use rust_fatfs.Boot.Geometry.{fat_slice}
use rust_fatfs.DirEntry.{new_file, attr_volume_id}
use rust_fatfs.DirEntry.Codec.{serialize_file}
use rust_fatfs.FileSystem.{write_zeros}

module _ {S : Type 0} (io : Stream S) where
  unfoldable write_zeros_until_end_of_sector : ℕ → M S (Unit {0})
  unfolding write_zeros
  write_zeros_until_end_of_sector bytes_per_sector = do
    p ← io.seek (current (pos 0))
    (let total_bytes_to_write = bytes_per_sector - p % bytes_per_sector in
        if total_bytes_to_write == bytes_per_sector
        then pure tt
        else write_zeros io total_bytes_to_write)

  -- `total_sectors_64 as u32`, if it fits.
  unfoldable as_u32 : ℕ → M S ℕ
  as_u32 total_sectors_64 =
      if ltb 0xFFFF_FFFF total_sectors_64 then fail invalid_input else pure total_sectors_64

  unfoldable sectors_of : FormatVolumeOptions → Option ℕ → M S ℕ
  unfolding as_u32
  sectors_of options (some total_sectors) = pure total_sectors
  sectors_of options none = do
    total_bytes ← io.seek (end (pos 0))
    (if options.bytes_per_sector == 0
        then fail_panic
        else (do seek_start io 0; as_u32 (total_bytes / options.bytes_per_sector)))

  -- `if boot.validate().is_err()`
  unfoldable accept_valid : Result (Unit {0}) → M S (Unit {0})
  accept_valid (ok u) s = (ok tt, s)
  accept_valid (err e) s = (err invalid_input, s)
  accept_valid panic s = (panic, s)
  accept_valid stuck s = (stuck, s)

  -- An operation on a `fat_slice` of the storage.
  unfoldable on_fat :
      {A : Type 0} → BiosParameterBlock → (Stream (DiskSlice S) → M (DiskSlice S) A) → M S A
  unfolding Disk.stream Disk.new fat_slice
  on_fat bpb act s = let r = act (Disk.stream io (fat_slice bpb)) (Disk.new s) in (r.0, r.1.inner)

  -- The FSInfo sector and the backup of the boot sector.
  unfoldable format_fat32 : BootSector → M S (Unit {0})
  unfolding bytes_from_sectors FsInfo.serialize write_zeros_until_end_of_sector Codec.serialize
  format_fat32 boot =
      let bpb = boot.bpb in
      do
        seek_start io (bytes_from_sectors bpb bpb.fs_info_sector)
        FsInfo.serialize io
            (record { free_cluster_count = none; next_free_cluster = none; dirty = false })
        write_zeros_until_end_of_sector bpb.bytes_per_sector
        seek_start io (bytes_from_sectors bpb bpb.backup_boot_sector)
        Codec.serialize io boot
        write_zeros_until_end_of_sector bpb.bytes_per_sector

  -- Zeros, and then the entries of the table.
  unfoldable format_tables : BiosParameterBlock → FatType → M S (Unit {0})
  unfolding bytes_from_sectors sectors_per_all_fats sectors_per_fat total_clusters write_zeros
      on_fat format_fat
  format_tables bpb fat_type = do
    seek_start io (bytes_from_sectors bpb bpb.reserved_sectors)
    write_zeros io (bytes_from_sectors bpb (sectors_per_all_fats bpb))
    on_fat bpb (λ fat.
        format_fat fat fat_type bpb.media (bytes_from_sectors bpb (sectors_per_fat bpb))
          (total_clusters bpb))

  unfoldable root_dir_pos : BiosParameterBlock → ℕ
  unfolding bytes_from_sectors sectors_per_all_fats
  root_dir_pos bpb =
      bytes_from_sectors bpb ((bpb.reserved_sectors + sectors_per_all_fats bpb) % 2 ^ 32)

  -- The first cluster of the root directory of FAT32, with the `assert!`.
  unfoldable format_root_cluster : BiosParameterBlock → FatType → M S (Unit {0})
  unfolding on_fat alloc_cluster sectors_per_all_fats root_dir_sectors sectors_from_clusters
      bytes_from_sectors cluster_size write_zeros
  format_root_cluster bpb fat_type = do
    root_dir_first_cluster ← on_fat bpb (λ fat. alloc_cluster fat fat_type none none 1)
    (if root_dir_first_cluster == bpb.root_dir_first_cluster then pure tt else fail_panic)
    seek_start io (
        bytes_from_sectors bpb (
          (bpb.reserved_sectors
            + sectors_per_all_fats bpb
            + root_dir_sectors bpb
            + sectors_from_clusters bpb
                ((root_dir_first_cluster + 2 ^ 32 - reserved_fat_entries) % 2 ^ 32))
          % 2 ^ 32))
    write_zeros io (cluster_size bpb)

  unfoldable format_root : BiosParameterBlock → FatType → M S (Unit {0})
  unfolding root_dir_pos bytes_from_sectors root_dir_sectors write_zeros format_root_cluster
      is_fat32_type
  format_root bpb fat_type = do
    seek_start io (root_dir_pos bpb)
    write_zeros io (bytes_from_sectors bpb (root_dir_sectors bpb))
    (if is_fat32_type fat_type then format_root_cluster bpb fat_type else pure tt)

  unfoldable write_label : BiosParameterBlock → Option (List ℕ) → M S (Unit {0})
  unfolding root_dir_pos new_file serialize_file
  write_label bpb none = pure tt
  write_label bpb (some volume_label) = do
    seek_start io (root_dir_pos bpb)
    serialize_file io (new_file volume_label attr_volume_id)

  unfoldable format_with : FormatVolumeOptions → BootSector × FatType → M S (Unit {0})
  unfolding accept_valid validate Codec.serialize write_zeros_until_end_of_sector is_fat32
      format_fat32 format_tables format_root write_label
  format_with options (boot, fat_type) = do
    accept_valid (validate boot)
    Codec.serialize io boot
    write_zeros_until_end_of_sector boot.bpb.bytes_per_sector
    (if is_fat32 boot.bpb then format_fat32 boot else pure tt)
    format_tables boot.bpb fat_type
    format_root boot.bpb fat_type
    write_label boot.bpb options.volume_label
    seek_start io 0
    pure tt

  unfoldable format_volume : FormatVolumeOptions → M S (Unit {0})
  unfolding sectors_of format_boot_sector format_with
  format_volume options = do
    total_sectors ← sectors_of options options.total_sectors
    boot ← (λ s. (format_boot_sector options total_sectors, s))
    format_with options boot
