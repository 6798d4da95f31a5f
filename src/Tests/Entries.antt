-- ===== src/Tests/Entries.antt =====
-- Entries of a directory, and the theorems on dir_entry.rs there.
use rust_fatfs.Base.{
  ℕ, zero, suc, ◌≡◌, refl, arith, true, false, List, [], ◌∷◌, some, All, replicate,
}
use rust_fatfs.Base.Result.{ok, ◌>>◌}
use rust_fatfs.FatType.{fat32, is_fat32_type}
use rust_fatfs.Io.{seek_start, read_exact, read_u8, read_u16_le, read_u32_le, from_le_bytes}
use rust_fatfs.Memory
use rust_fatfs.Memory.{memory}
use rust_fatfs.Time.{Date, Time, new_date, new_time}
use rust_fatfs.Io.Contract.{IsByte}
use rust_fatfs.DirEntry.{file}
use rust_fatfs.DirEntry.{
  DirLfnEntryData, lfn, contains, first_cluster, set_first_cluster, created, set_created,
  default_file, is_dir,
}
use rust_fatfs.DirEntry.Codec.{deserialize_rest, deserialize_file, deserialize, serialize}
use rust_fatfs.DirEntry.Bytes.{IsLfn, IsFile}
use rust_fatfs.DirEntry.Editor.{DirEntryEditor, flush, edit_size, edit_first_cluster}
use rust_fatfs.DirEntry.Flush.{Edit, size, cluster, edit, edits, flush-edits}
use rust_fatfs.DirEntry.Roundtrip.{deserialize-serialize_entry}
use rust_fatfs.DirEntry.Fields.{first_cluster-set_first_cluster, created-set_created}

abbrev blank : Memory.Memory
blank = record { cells = λ i. 0; at = 0 }

abbrev part : DirLfnEntryData
part = record {
  order = 0x41;
  name_0 = 0x61 ∷ 0x2E ∷ 0x74 ∷ 0x78 ∷ 0x74 ∷ [];
  attrs = 0x0F;
  entry_type = 0;
  checksum = 0x5A;
  name_1 = 0 ∷ 0xFFFF ∷ 0xFFFF ∷ 0xFFFF ∷ 0xFFFF ∷ 0xFFFF ∷ [];
  reserved_0 = 0;
  name_2 = 0xFFFF ∷ 0xFFFF ∷ [];
}

part-IsLfn : IsLfn part
unfolding contains
part-IsLfn = record {
  order = omega arith;
  name_0 = (refl, (omega arith, (omega arith, (omega arith, (omega arith, (omega arith, tt))))));
  attrs = omega arith;
  kind = refl;
  entry_type = omega arith;
  checksum = omega arith;
  name_1 = (
    refl,
    (omega arith, (omega arith, (omega arith, (omega arith, (omega arith, (omega arith, tt)))))),
  );
  reserved_0 = omega arith;
  name_2 = (refl, (omega arith, (omega arith, tt)));
}

deserialize-serialize_entry_example :
    ((do
      seek_start (memory 128) 64
      serialize (memory 128) (lfn part)
      seek_start (memory 128) 64
      deserialize (memory 128))
      blank).0
    ≡ ok (lfn part)
unfolding Memory.is_bytes
deserialize-serialize_entry_example =
    deserialize-serialize_entry (Memory.is_bytes 128) blank 64 (lfn part) part-IsLfn (omega arith)

first_cluster-set_first_cluster_example :
    first_cluster (set_first_cluster default_file (some 0x12345) fat32) fat32 ≡ some 0x12345
unfolding is_fat32_type
first_cluster-set_first_cluster_example =
    first_cluster-set_first_cluster default_file fat32 (some 0x12345) (omega arith, omega arith)

abbrev day : Date
day = record { year = 2024; month = 2; day = 29 }

abbrev hour : Time
hour = record { hour = 12; min = 34; sec = 57; millis = 999 }

created-set_created_example :
    created (set_created default_file (record { date = day; time = hour }))
    ≡ record { date = day; time = record hour { millis = 990 } }
unfolding new_date new_time
created-set_created_example =
    created-set_created default_file 2024 2 29 12 34 57 999 day hour refl refl

-- An editor at byte 64 of a storage of zeros, where the default entry stands.
abbrev start : DirEntryEditor
start = record { entry = default_file; pos = 64; dirty = false }

abbrev changes : List Edit
changes = size 5 ∷ cluster (some 3) fat32 ∷ size 7 ∷ []

changes_run : edits changes start ≡ record {
  entry = record default_file { first_cluster_lo = 3; size = 7 };
  pos = 64;
  dirty = true;
}
unfolding edits edit edit_size edit_first_cluster is_dir
changes_run = refl

start_run :
    ((do seek_start (memory 128) 64; deserialize (memory 128)) blank).0 ≡ ok (file default_file)
unfolding memory deserialize read_exact read_u8 read_u16_le read_u32_le from_le_bytes
    deserialize_rest deserialize_file
start_run = refl

zeros-IsByte : (n : ℕ) → All IsByte (replicate n 0)
zeros-IsByte zero = tt
zeros-IsByte (suc n) = (omega arith, zeros-IsByte n)

changed-IsFile : IsFile (edits changes start).entry
unfolding edits edit edit_size edit_first_cluster is_dir contains
changed-IsFile = record {
  name = (refl, zeros-IsByte 11);
  attrs = omega arith;
  kind = refl;
  reserved_0 = omega arith;
  create_time_0 = omega arith;
  create_time_1 = omega arith;
  create_date = omega arith;
  access_date = omega arith;
  first_cluster_hi = omega arith;
  modify_time = omega arith;
  modify_date = omega arith;
  first_cluster_lo = omega arith;
  size = omega arith;
}

flush-edits_example :
    ((do
      flush (memory 128) (edits changes start)
      seek_start (memory 128) 64
      deserialize (memory 128))
      blank).0
    ≡ ok (file (edits changes start).entry)
unfolding Memory.is_bytes
flush-edits_example =
    flush-edits (Memory.is_bytes 128) blank start changes (omega arith) changed-IsFile start_run
