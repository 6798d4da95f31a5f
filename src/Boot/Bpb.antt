-- ===== src/Boot/Bpb.antt =====
-- boot_sector.rs: a BIOS parameter block that is written is read back.
use rust_fatfs.Base.{
  ℕ, ◌≡◌, inl, inr, refl, ap, false, if◌then◌else◌, Bool-cases, List, [], ◌++◌, replicate,
}
use rust_fatfs.Base.Result.{pure}
use rust_fatfs.Io.{Stream}
use rust_fatfs.Io.Contract.{IsBytes}
use rust_fatfs.Io.Codec.{
  Reads, Writes, Reads-bind, Reads-pure, Reads-u8, Reads-u16, Reads-u32, Reads-eq, Reads-last,
  Reads-exact, Writes-nothing, Writes-u8, Writes-u16, Writes-u32, Writes-write_all, Writes-then,
}
use rust_fatfs.Boot.{BiosParameterBlock, is_fat32}
use rust_fatfs.Boot.Codec.{
  clean, read_common, read_fat32, read_last, deserialize_bpb, write_common, write_fat32, write_last,
  serialize_bpb,
}
use rust_fatfs.Boot.Fields.{
  IsSized, without_fat32, common_part, bytes_common, bytes_fat32, bytes_last,
}

module _ {S : Type 0} {stream : Stream S} (c : IsBytes stream) (bpb : BiosParameterBlock)
    (z : IsSized bpb) where
  Writes-common : Writes c (write_common stream bpb) (bytes_common bpb)
  unfolding write_common
  Writes-common = Writes-then c (Writes-u16 c _) (
      Writes-then c (Writes-u8 c _ z.sectors_per_cluster) (
        Writes-then c (Writes-u16 c _) (
          Writes-then c (Writes-u8 c _ z.fats) (
            Writes-then c (Writes-u16 c _) (
              Writes-then c (Writes-u16 c _) (
                Writes-then c (Writes-u8 c _ z.media) (
                  Writes-then c (Writes-u16 c _) (
                    Writes-then c (Writes-u16 c _) (
                      Writes-then c (Writes-u16 c _)
                        (Writes-then c (Writes-u32 c _) (Writes-u32 c _)))))))))))

  Reads-common : Reads c (read_common stream) (bytes_common bpb) (common_part bpb)
  unfolding read_common
  Reads-common = Reads-bind c _ (Reads-u16 c _ z.bytes_per_sector) (
      Reads-bind c _ (Reads-u8 c _ z.sectors_per_cluster) (
        Reads-bind c _ (Reads-u16 c _ z.reserved_sectors) (
          Reads-bind c _ (Reads-u8 c _ z.fats) (
            Reads-bind c _ (Reads-u16 c _ z.root_entries) (
              Reads-bind c _ (Reads-u16 c _ z.total_sectors_16) (
                Reads-bind c _ (Reads-u8 c _ z.media) (
                  Reads-bind c _ (Reads-u16 c _ z.sectors_per_fat_16) (
                    Reads-bind c _ (Reads-u16 c _ z.sectors_per_track) (
                      Reads-bind c _ (Reads-u16 c _ z.heads) (
                        Reads-bind c _ (Reads-u32 c _ z.hidden_sectors) (
                          Reads-eq c
                            (Reads-bind c _ (Reads-u32 c _ z.total_sectors_32) (Reads-pure c _))
                            refl)))))))))))

  Writes-fat32 : Writes c (write_fat32 stream bpb) (bytes_fat32 bpb)
  unfolding write_fat32
  Writes-fat32 = Writes-then c (Writes-u32 c _) (
      Writes-then c (Writes-u16 c _) (
        Writes-then c (Writes-u16 c _) (
          Writes-then c (Writes-u32 c _) (
            Writes-then c (Writes-u16 c _)
              (Writes-then c (Writes-u16 c _) (Writes-write_all c _ z.reserved_0.1))))))

  Reads-fat32 :
      (old : BiosParameterBlock)
      → Reads c (read_fat32 stream old) (bytes_fat32 bpb) (record old {
        sectors_per_fat_32 = bpb.sectors_per_fat_32;
        extended_flags = bpb.extended_flags;
        fs_version = bpb.fs_version;
        root_dir_first_cluster = bpb.root_dir_first_cluster;
        fs_info_sector = bpb.fs_info_sector;
        backup_boot_sector = bpb.backup_boot_sector;
        reserved_0 = bpb.reserved_0;
      })
  unfolding read_fat32
  Reads-fat32 old = Reads-bind c _ (Reads-u32 c _ z.sectors_per_fat_32) (
      Reads-bind c _ (Reads-u16 c _ z.extended_flags) (
        Reads-bind c _ (Reads-u16 c _ z.fs_version) (
          Reads-bind c _ (Reads-u32 c _ z.root_dir_first_cluster) (
            Reads-bind c _ (Reads-u16 c _ z.fs_info_sector) (
              Reads-bind c _ (Reads-u16 c _ z.backup_boot_sector)
                (Reads-last c _ (Reads-exact c 12 bpb.reserved_0 z.reserved_0.0)))))))

  Writes-rest : Writes c (write_last stream bpb) (bytes_last bpb)
  unfolding write_last
  Writes-rest = Writes-then c (Writes-u8 c _ z.drive_num) (
      Writes-then c (Writes-u8 c _ z.reserved_1) (
        Writes-then c (Writes-u8 c _ z.ext_sig) (
          Writes-then c (Writes-u32 c _) (
            Writes-then c (Writes-write_all c _ z.volume_label.1)
              (Writes-write_all c _ z.fs_type_label.1)))))

  Reads-rest :
      (old : BiosParameterBlock)
      → Reads c (read_last stream old) (bytes_last bpb) (record old {
        drive_num = bpb.drive_num;
        reserved_1 = bpb.reserved_1;
        ext_sig = bpb.ext_sig;
        volume_id = bpb.volume_id;
        volume_label = bpb.volume_label;
        fs_type_label = bpb.fs_type_label;
      })
  unfolding read_last
  Reads-rest old = Reads-bind c _ (Reads-u8 c _ z.drive_num) (
      Reads-bind c _ (Reads-u8 c _ z.reserved_1) (
        Reads-bind c _ (Reads-u8 c _ z.ext_sig) (
          Reads-bind c _ (Reads-u32 c _ z.volume_id) (
            Reads-bind c _ (Reads-exact c 11 bpb.volume_label z.volume_label.0)
              (Reads-last c _ (Reads-exact c 8 bpb.fs_type_label z.fs_type_label.0))))))

  -- The block as it stands before the last part is read.
  abbrev middle_part : BiosParameterBlock
  middle_part = record bpb {
    drive_num = 0;
    reserved_1 = 0;
    ext_sig = 0;
    volume_id = 0;
    volume_label = replicate 11 0;
    fs_type_label = replicate 8 0;
  }

  abbrev bytes_middle : List ℕ
  bytes_middle = if is_fat32 bpb then bytes_fat32 bpb else []

  pub Writes-bpb :
      Writes c (serialize_bpb stream bpb) (bytes_common bpb ++ (bytes_middle ++ bytes_last bpb))
  unfolding serialize_bpb
  Writes-bpb = Writes-then c Writes-common (
      Writes-then c
        (elim (Bool-cases (is_fat32 bpb)) [
          | inl t ↦ rw t Writes-fat32
          | inr n ↦ rw n (Writes-nothing c)
        ])
        Writes-rest)

  module _ (plain : is_fat32 bpb ≡ false → without_fat32 bpb ≡ bpb)
      (cleaned : clean bpb ≡ bpb) where
    Reads-middle :
        Reads c
          (if is_fat32 (common_part bpb)
            then read_fat32 stream (common_part bpb)
            else pure (common_part bpb))
          bytes_middle
          middle_part
    unfolding is_fat32
    Reads-middle = elim (Bool-cases (is_fat32 bpb)) [
      | inl t ↦ rw t (Reads-fat32 (common_part bpb))
      | inr n ↦ rw n (
          Reads-eq c (Reads-pure c (common_part bpb)) (
            ap
              (λ (b : BiosParameterBlock). record b {
                drive_num = 0;
                reserved_1 = 0;
                ext_sig = 0;
                volume_id = 0;
                volume_label = replicate 11 0;
                fs_type_label = replicate 8 0;
              })
              (plain n)))
    ]

    pub Reads-bpb :
        Reads c (deserialize_bpb stream) (bytes_common bpb ++ (bytes_middle ++ bytes_last bpb)) bpb
    unfolding deserialize_bpb
    Reads-bpb =
        Reads-bind c _ Reads-common (
          Reads-bind c _ Reads-middle
            (Reads-eq c (Reads-last c _ (Reads-rest middle_part)) cleaned))
