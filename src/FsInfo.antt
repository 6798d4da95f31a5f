-- ===== src/FsInfo.antt =====
-- fs.rs: `FsInfoSector`, the hints of a FAT32 volume on its free clusters.
pub mod Codec
use rust_fatfs.Base.{
  ℕ, zero, suc, ◌+◌, ◌-◌, ◌*◌, ◌/◌, ◌%◌, ◌^◌, ◌≤◌, ◌<◌, ◌≡◌, ◌≢◌, ◌⊎◌, inl, inr, refl, ◌∙◌, sym, ap,
  arith, bit_and, bit_or, Bool, true, false, ◌==◌, ltb, leb, if◌then◌else◌, Bool-cases, lt→ltb,
  ltb→lt, le→ltb, ltb→le, Option-cases, ◌&&◌, ◌||◌, not, List, [], ◌∷◌, ◌++◌, Option, some, none,
  length, All, ◌↔◌, min, max, map, take, drop, replicate, drop-length, take-length, length-append,
}
use rust_fatfs.Base.Result.{Result, ok, err, M, pure, fail, corrupted_file_system, ◌>>=◌, ◌>>◌}
use rust_fatfs.Io.{Stream, read_exact, write_all, read_u32_le, write_u32_le}
use rust_fatfs.Table.Value.{reserved_fat_entries}

pub record FsInfoSector : Type 0 where
  pub free_cluster_count : Option ℕ
  pub next_free_cluster : Option ℕ
  pub dirty : Bool

abbrev pub lead_sig : ℕ
lead_sig = 0x4161_5252

abbrev pub struc_sig : ℕ
struc_sig = 0x6141_7272

abbrev pub trail_sig : ℕ
trail_sig = 0xAA55_0000

-- The two matches on a field: all ones for an unknown value.
unfoldable pub known_count : ℕ → Option ℕ
known_count n = if n == 0xFFFF_FFFF then none else some n

unfoldable pub known_cluster : ℕ → Option ℕ
known_cluster n = if n == 0xFFFF_FFFF then none else if n == 0 || n == 1 then none else some n

-- `unwrap_or(0xFFFF_FFFF)`
unfoldable pub field_of : Option ℕ → ℕ
field_of none = 0xFFFF_FFFF
field_of (some n) = n

module _ {S : Type 0} (stream : Stream S) where
  -- `if sig != expected { return Err(..) }`
  unfoldable pub expect : ℕ → ℕ → M S (Unit {0})
  expect sig expected = if sig == expected then pure tt else fail corrupted_file_system

  unfoldable pub deserialize : M S FsInfoSector
  unfolding expect known_count known_cluster
  deserialize = do
    lead ← read_u32_le stream
    expect lead lead_sig
    reserved ← read_exact stream 480
    struc ← read_u32_le stream
    expect struc struc_sig
    count ← read_u32_le stream
    next ← read_u32_le stream
    reserved2 ← read_exact stream 12
    trail ← read_u32_le stream
    expect trail trail_sig
    pure (record {
      free_cluster_count = known_count count;
      next_free_cluster = known_cluster next;
      dirty = false;
    })

  unfoldable pub serialize : FsInfoSector → M S (Unit {0})
  unfolding field_of
  serialize info = do
    write_u32_le stream lead_sig
    write_all stream (replicate 480 0)
    write_u32_le stream struc_sig
    write_u32_le stream (field_of info.free_cluster_count)
    write_u32_le stream (field_of info.next_free_cluster)
    write_all stream (replicate 12 0)
    write_u32_le stream trail_sig

-- The two tests of `validate_and_fix`, the second with `total_clusters + 2` for the bound.
unfoldable pub at_most : ℕ → Option ℕ → Option ℕ
at_most bound none = none
at_most bound (some n) = if ltb bound n then none else some n

unfoldable pub validate_and_fix : ℕ → FsInfoSector → FsInfoSector
unfolding at_most
validate_and_fix total_clusters info = record info {
  free_cluster_count = at_most total_clusters info.free_cluster_count;
  next_free_cluster =
      at_most ((total_clusters + reserved_fat_entries) % 2 ^ 32) info.next_free_cluster;
}

unfoldable pub map_free_clusters : (ℕ → ℕ) → FsInfoSector → FsInfoSector
map_free_clusters f info = elim info.free_cluster_count [
  | none ↦ info
  | some n ↦ record info { free_cluster_count = some (f n); dirty = true }
]

unfoldable pub set_next_free_cluster : ℕ → FsInfoSector → FsInfoSector
set_next_free_cluster cluster info = record info { next_free_cluster = some cluster; dirty = true }

unfoldable pub set_free_cluster_count : ℕ → FsInfoSector → FsInfoSector
set_free_cluster_count free_cluster_count info = record info {
  free_cluster_count = some free_cluster_count;
  dirty = true;
}
