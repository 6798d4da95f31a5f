-- ===== src/Boot/Codec.antt =====
-- boot_sector.rs: reading and writing the fields.
use rust_fatfs.Base.{◌==◌, if◌then◌else◌, ◌++◌, take, replicate}
use rust_fatfs.Base.Result.{M, pure, ◌>>=◌, ◌>>◌}
use rust_fatfs.Io.{
  Stream, read_exact, write_all, read_u8, read_u16_le, read_u32_le, write_u8, write_u16_le,
  write_u32_le,
}
use rust_fatfs.Boot.{BiosParameterBlock, BootSector, is_fat32}

-- `Self::default()`
abbrev pub default : BiosParameterBlock
default = record {
  bytes_per_sector = 0;
  sectors_per_cluster = 0;
  reserved_sectors = 0;
  fats = 0;
  root_entries = 0;
  total_sectors_16 = 0;
  media = 0;
  sectors_per_fat_16 = 0;
  sectors_per_track = 0;
  heads = 0;
  hidden_sectors = 0;
  total_sectors_32 = 0;
  sectors_per_fat_32 = 0;
  extended_flags = 0;
  fs_version = 0;
  root_dir_first_cluster = 0;
  fs_info_sector = 0;
  backup_boot_sector = 0;
  reserved_0 = replicate 12 0;
  drive_num = 0;
  reserved_1 = 0;
  ext_sig = 0;
  volume_id = 0;
  volume_label = replicate 11 0;
  fs_type_label = replicate 8 0;
}

-- The fields after `ext_sig` are cleaned unless it is 0x29.
unfoldable pub clean : BiosParameterBlock → BiosParameterBlock
clean bpb =
    if bpb.ext_sig == 0x29
    then bpb
    else record bpb { volume_id = 0; volume_label = replicate 11 0; fs_type_label = replicate 8 0 }

module _ {S : Type 0} (stream : Stream S) where
  -- The fields that every format has, over the defaults.
  unfoldable pub read_common : M S BiosParameterBlock
  read_common = do
    bytes_per_sector ← read_u16_le stream
    sectors_per_cluster ← read_u8 stream
    reserved_sectors ← read_u16_le stream
    fats ← read_u8 stream
    root_entries ← read_u16_le stream
    total_sectors_16 ← read_u16_le stream
    media ← read_u8 stream
    sectors_per_fat_16 ← read_u16_le stream
    sectors_per_track ← read_u16_le stream
    heads ← read_u16_le stream
    hidden_sectors ← read_u32_le stream
    total_sectors_32 ← read_u32_le stream
    pure (record default {
      bytes_per_sector = bytes_per_sector;
      sectors_per_cluster = sectors_per_cluster;
      reserved_sectors = reserved_sectors;
      fats = fats;
      root_entries = root_entries;
      total_sectors_16 = total_sectors_16;
      media = media;
      sectors_per_fat_16 = sectors_per_fat_16;
      sectors_per_track = sectors_per_track;
      heads = heads;
      hidden_sectors = hidden_sectors;
      total_sectors_32 = total_sectors_32;
    })

  -- `if bpb.is_fat32()`
  unfoldable pub read_fat32 : BiosParameterBlock → M S BiosParameterBlock
  read_fat32 bpb = do
    sectors_per_fat_32 ← read_u32_le stream
    extended_flags ← read_u16_le stream
    fs_version ← read_u16_le stream
    root_dir_first_cluster ← read_u32_le stream
    fs_info_sector ← read_u16_le stream
    backup_boot_sector ← read_u16_le stream
    reserved_0 ← read_exact stream 12
    pure (record bpb {
      sectors_per_fat_32 = sectors_per_fat_32;
      extended_flags = extended_flags;
      fs_version = fs_version;
      root_dir_first_cluster = root_dir_first_cluster;
      fs_info_sector = fs_info_sector;
      backup_boot_sector = backup_boot_sector;
      reserved_0 = reserved_0;
    })

  unfoldable pub read_last : BiosParameterBlock → M S BiosParameterBlock
  read_last bpb = do
    drive_num ← read_u8 stream
    reserved_1 ← read_u8 stream
    ext_sig ← read_u8 stream
    volume_id ← read_u32_le stream
    volume_label ← read_exact stream 11
    fs_type_label ← read_exact stream 8
    pure (record bpb {
      drive_num = drive_num;
      reserved_1 = reserved_1;
      ext_sig = ext_sig;
      volume_id = volume_id;
      volume_label = volume_label;
      fs_type_label = fs_type_label;
    })

  unfoldable pub deserialize_bpb : M S BiosParameterBlock
  unfolding is_fat32
  deserialize_bpb = do
    common ← read_common
    bpb ← (if is_fat32 common then read_fat32 common else pure common)
    bpb ← read_last bpb
    pure (clean bpb)

  unfoldable pub write_common : BiosParameterBlock → M S (Unit {0})
  write_common bpb = do
    write_u16_le stream bpb.bytes_per_sector
    write_u8 stream bpb.sectors_per_cluster
    write_u16_le stream bpb.reserved_sectors
    write_u8 stream bpb.fats
    write_u16_le stream bpb.root_entries
    write_u16_le stream bpb.total_sectors_16
    write_u8 stream bpb.media
    write_u16_le stream bpb.sectors_per_fat_16
    write_u16_le stream bpb.sectors_per_track
    write_u16_le stream bpb.heads
    write_u32_le stream bpb.hidden_sectors
    write_u32_le stream bpb.total_sectors_32

  unfoldable pub write_fat32 : BiosParameterBlock → M S (Unit {0})
  write_fat32 bpb = do
    write_u32_le stream bpb.sectors_per_fat_32
    write_u16_le stream bpb.extended_flags
    write_u16_le stream bpb.fs_version
    write_u32_le stream bpb.root_dir_first_cluster
    write_u16_le stream bpb.fs_info_sector
    write_u16_le stream bpb.backup_boot_sector
    write_all stream bpb.reserved_0

  unfoldable pub write_last : BiosParameterBlock → M S (Unit {0})
  write_last bpb = do
    write_u8 stream bpb.drive_num
    write_u8 stream bpb.reserved_1
    write_u8 stream bpb.ext_sig
    write_u32_le stream bpb.volume_id
    write_all stream bpb.volume_label
    write_all stream bpb.fs_type_label

  unfoldable pub serialize_bpb : BiosParameterBlock → M S (Unit {0})
  unfolding is_fat32 write_common write_fat32 write_last
  serialize_bpb bpb = do
    write_common bpb
    (if is_fat32 bpb then write_fat32 bpb else pure tt)
    write_last bpb

  -- The array of the boot code has 448 bytes, of which a FAT32 sector has 420.
  unfoldable pub deserialize : M S BootSector
  unfolding deserialize_bpb
  deserialize = do
    bootjmp ← read_exact stream 3
    oem_name ← read_exact stream 8
    bpb ← deserialize_bpb
    boot_code ←
        (if is_fat32 bpb
          then (do code ← read_exact stream 420; pure (code ++ replicate 28 0))
          else read_exact stream 448)
    boot_sig ← read_exact stream 2
    pure (record {
      bootjmp = bootjmp;
      oem_name = oem_name;
      bpb = bpb;
      boot_code = boot_code;
      boot_sig = boot_sig;
    })

  unfoldable pub serialize : BootSector → M S (Unit {0})
  unfolding serialize_bpb
  serialize boot = do
    write_all stream boot.bootjmp
    write_all stream boot.oem_name
    serialize_bpb boot.bpb
    write_all stream
        (if is_fat32 boot.bpb then take 420 boot.boot_code else take 448 boot.boot_code)
    write_all stream boot.boot_sig
