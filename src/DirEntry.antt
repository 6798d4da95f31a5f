-- ===== src/DirEntry.antt =====
-- dir_entry.rs: the entries of a directory, 32 bytes each. Attributes are their bits, and a part of a
-- long name is a list of 16-bit units.
pub mod Codec
pub mod Bytes
pub mod Roundtrip
pub mod Fields
pub mod Editor
pub mod Flush
use rust_fatfs.Base.{
  ℕ, zero, suc, ◌+◌, ◌-◌, ◌*◌, ◌/◌, ◌%◌, ◌^◌, ◌≤◌, ◌<◌, ◌≡◌, ◌≢◌, ◌⊎◌, inl, inr, refl, ◌∙◌, sym, ap,
  arith, bit_and, bit_or, Bool, true, false, ◌==◌, ltb, leb, if◌then◌else◌, Bool-cases, lt→ltb,
  ltb→lt, le→ltb, ltb→le, Option-cases, ◌&&◌, ◌||◌, not, List, [], ◌∷◌, ◌++◌, Option, some, none,
  length, All, ◌↔◌, min, max, map, take, drop, replicate, drop-length, take-length, length-append,
}
use rust_fatfs.FatType.{FatType, is_fat32_type}
use rust_fatfs.Time.{Date, Time, DateTime, encode_date, encode_time, decode_date, decode_date_time}

abbrev pub attr_volume_id : ℕ
attr_volume_id = 0x08

abbrev pub attr_directory : ℕ
attr_directory = 0x10

abbrev pub attr_lfn : ℕ
attr_lfn = 0x0F

abbrev pub dir_entry_deleted_flag : ℕ
dir_entry_deleted_flag = 0xE5

-- `attrs.contains(flags)`
unfoldable pub contains : ℕ → ℕ → Bool
contains attrs flags = bit_and attrs flags == flags

pub record DirFileEntryData : Type 0 where
  pub name : List ℕ
  pub attrs : ℕ
  pub reserved_0 : ℕ
  pub create_time_0 : ℕ
  pub create_time_1 : ℕ
  pub create_date : ℕ
  pub access_date : ℕ
  pub first_cluster_hi : ℕ
  pub modify_time : ℕ
  pub modify_date : ℕ
  pub first_cluster_lo : ℕ
  pub size : ℕ

pub record DirLfnEntryData : Type 0 where
  pub order : ℕ
  pub name_0 : List ℕ
  pub attrs : ℕ
  pub entry_type : ℕ
  pub checksum : ℕ
  pub name_1 : List ℕ
  pub reserved_0 : ℕ
  pub name_2 : List ℕ

pub data DirEntryData : Type 0 where
  file : DirFileEntryData → DirEntryData
  lfn : DirLfnEntryData → DirEntryData

abbrev pub default_file : DirFileEntryData
default_file = record {
  name = replicate 11 0;
  attrs = 0;
  reserved_0 = 0;
  create_time_0 = 0;
  create_time_1 = 0;
  create_date = 0;
  access_date = 0;
  first_cluster_hi = 0;
  modify_time = 0;
  modify_date = 0;
  first_cluster_lo = 0;
  size = 0;
}

-- `DirFileEntryData::new`
unfoldable pub new_file : List ℕ → ℕ → DirFileEntryData
new_file name attrs = record default_file { name = name; attrs = attrs }

unfoldable pub renamed : DirFileEntryData → List ℕ → DirFileEntryData
renamed entry new_name = record entry { name = new_name }

unfoldable pub first_cluster : DirFileEntryData → FatType → Option ℕ
unfolding is_fat32_type
first_cluster entry fat_type =
    let hi = if is_fat32_type fat_type then entry.first_cluster_hi else 0 in
    let n = bit_or (hi * 2 ^ 16) entry.first_cluster_lo in if n == 0 then none else some n

unfoldable pub cluster_or_zero : Option ℕ → ℕ
cluster_or_zero none = 0
cluster_or_zero (some n) = n

unfoldable pub set_first_cluster : DirFileEntryData → Option ℕ → FatType → DirFileEntryData
unfolding is_fat32_type cluster_or_zero
set_first_cluster entry cluster fat_type =
    let n = cluster_or_zero cluster in
    record entry {
      first_cluster_hi =
          if is_fat32_type fat_type then n / 2 ^ 16 % 2 ^ 16 else entry.first_cluster_hi;
      first_cluster_lo = bit_and n 0xFFFF;
    }

unfoldable pub is_dir : DirFileEntryData → Bool
unfolding contains
is_dir entry = contains entry.attrs attr_directory

unfoldable pub is_volume : DirFileEntryData → Bool
unfolding contains
is_volume entry = contains entry.attrs attr_volume_id

-- `DirFileEntryData::size`
unfoldable pub file_size : DirFileEntryData → Option ℕ
unfolding is_dir
file_size entry = if is_dir entry then none else some entry.size

unfoldable pub created : DirFileEntryData → DateTime
created entry = decode_date_time entry.create_date entry.create_time_1 entry.create_time_0

unfoldable pub accessed : DirFileEntryData → Date
accessed entry = decode_date entry.access_date

unfoldable pub modified : DirFileEntryData → DateTime
modified entry = decode_date_time entry.modify_date entry.modify_time 0

unfoldable pub set_created : DirFileEntryData → DateTime → DirFileEntryData
set_created entry date_time =
    let encoded_time = encode_time date_time.time in
    record entry {
      create_date = encode_date date_time.date;
      create_time_1 = encoded_time.0;
      create_time_0 = encoded_time.1;
    }

unfoldable pub set_accessed : DirFileEntryData → Date → DirFileEntryData
set_accessed entry date = record entry { access_date = encode_date date }

unfoldable pub set_modified : DirFileEntryData → DateTime → DirFileEntryData
set_modified entry date_time = record entry {
  modify_date = encode_date date_time.date;
  modify_time = (encode_time date_time.time).0;
}
