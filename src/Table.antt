-- ===== src/Table.antt =====
-- table.rs: the functions over all three FAT formats.
pub mod Value
pub mod Fat12
pub mod Fat16
pub mod Fat32
pub mod Spec
pub mod Interface
pub mod Instance
pub mod Choice
pub mod Alloc
pub mod Roundtrip
use rust_fatfs.Base.{
  ℕ, zero, suc, ◌+◌, ◌-◌, ◌*◌, ◌/◌, ◌%◌, ◌^◌, ◌≤◌, ◌<◌, ◌≡◌, ◌≢◌, ◌⊎◌, inl, inr, refl, ◌∙◌, sym, ap,
  arith, bit_and, bit_or, Bool, true, false, ◌==◌, ltb, leb, if◌then◌else◌, Bool-cases, ◌&&◌, ◌||◌,
  not, List, [], ◌∷◌, ◌++◌, Option, some, none, length, All, ◌↔◌, min, max, map, take, drop,
  replicate,
}
use rust_fatfs.Base.Result.{Result, ok, err, panic, stuck, M, pure, ◌>>=◌, ◌>>◌, and_then}
use rust_fatfs.FatType.{FatType, fat12, fat16, fat32, bits_per_fat_entry}
use rust_fatfs.Status.{FsStatusFlags}
use rust_fatfs.Io.{Stream, write_u8, write_u16_le, write_u32_le}
use rust_fatfs.Table.Value.{FatValue, free, data_at, bad, end_of_chain, reserved_fat_entries}

unfoldable pub next_of : FatValue → Option ℕ
next_of (data_at n) = some n
next_of _ = none

-- `match hint`: where the search starts.
unfoldable pub start_of : Option ℕ → ℕ → ℕ
start_of none end_cluster = reserved_fat_entries
start_of (some n) end_cluster = if ltb n end_cluster then n else reserved_fat_entries

module _ {S : Type 0} (fat : Stream S) where
  unfoldable pub read_fat : FatType → ℕ → M S FatValue
  unfolding Fat12.get Fat16.get Fat32.get
  read_fat fat12 cluster = Fat12.get fat cluster
  read_fat fat16 cluster = Fat16.get fat cluster
  read_fat fat32 cluster = Fat32.get fat cluster

  unfoldable pub write_fat : FatType → ℕ → FatValue → M S (Unit {0})
  unfolding Fat12.set Fat16.set Fat32.set
  write_fat fat12 cluster value = Fat12.set fat cluster value
  write_fat fat16 cluster value = Fat16.set fat cluster value
  write_fat fat32 cluster value = Fat32.set fat cluster value

  unfoldable pub get_next_cluster : FatType → ℕ → M S (Option ℕ)
  unfolding read_fat next_of
  get_next_cluster fat_type cluster = do val ← read_fat fat_type cluster; pure (next_of val)

  unfoldable pub find_free_cluster : FatType → ℕ → ℕ → M S ℕ
  unfolding Fat12.find_free Fat16.find_free Fat32.find_free
  find_free_cluster fat12 start_cluster end_cluster = Fat12.find_free fat start_cluster end_cluster
  find_free_cluster fat16 start_cluster end_cluster = Fat16.find_free fat start_cluster end_cluster
  find_free_cluster fat32 start_cluster end_cluster = Fat32.find_free fat start_cluster end_cluster

  -- `match find_free_cluster(..)`: on an error the part before the start is searched.
  unfoldable pub search_again : FatType → ℕ → Result ℕ × S → Result ℕ × S
  unfolding find_free_cluster
  search_again fat_type start_cluster (err e, s) =
      if ltb reserved_fat_entries start_cluster
      then find_free_cluster fat_type reserved_fat_entries start_cluster s
      else (err e, s)
  search_again fat_type start_cluster (r, s) = (r, s)

  -- `if let Some(n) = prev_cluster`
  unfoldable pub link_from : FatType → Option ℕ → ℕ → M S (Unit {0})
  unfolding write_fat
  link_from fat_type none new_cluster = pure tt
  link_from fat_type (some n) new_cluster = write_fat fat_type n (data_at new_cluster)

  unfoldable pub alloc_cluster : FatType → Option ℕ → Option ℕ → ℕ → M S ℕ
  unfolding start_of search_again link_from find_free_cluster write_fat
  alloc_cluster fat_type prev_cluster hint total_clusters s =
      let end_cluster = (total_clusters + reserved_fat_entries) % 2 ^ 32 in
      let start_cluster = start_of hint end_cluster in
      and_then
        (search_again fat_type start_cluster
          (find_free_cluster fat_type start_cluster end_cluster s))
        (λ new_cluster. do
          write_fat fat_type new_cluster end_of_chain
          link_from fat_type prev_cluster new_cluster
          pure new_cluster)

  -- The raw second entry. FAT12 keeps no flags.
  unfoldable pub read_fat_flags : FatType → M S FsStatusFlags
  unfolding Fat16.get_raw Fat32.get_raw
  read_fat_flags fat12 = pure (record { dirty = false; io_error = false })
  read_fat_flags fat16 = do
    val ← Fat16.get_raw fat 1
    pure (record { dirty = bit_and val (2 ^ 15) == 0; io_error = bit_and val (2 ^ 14) == 0 })
  read_fat_flags fat32 = do
    val ← Fat32.get_raw fat 1
    pure (record { dirty = bit_and val (2 ^ 27) == 0; io_error = bit_and val (2 ^ 26) == 0 })

  unfoldable pub count_free_clusters : FatType → ℕ → M S ℕ
  unfolding Fat12.count_free Fat16.count_free Fat32.count_free
  count_free_clusters fat12 total_clusters =
      Fat12.count_free fat ((total_clusters + reserved_fat_entries) % 2 ^ 32)
  count_free_clusters fat16 total_clusters =
      Fat16.count_free fat ((total_clusters + reserved_fat_entries) % 2 ^ 32)
  count_free_clusters fat32 total_clusters =
      Fat32.count_free fat ((total_clusters + reserved_fat_entries) % 2 ^ 32)

  -- `for cluster in start..end { write_fat(.., value)? }`, with `left` clusters to go.
  unfoldable pub fill : FatType → FatValue → ℕ → ℕ → M S (Unit {0})
  unfolding write_fat
  fill fat_type value zero cluster = pure tt
  fill fat_type value (suc left) cluster = do
    write_fat fat_type cluster value
    fill fat_type value left (cluster + 1)

  -- The two reserved entries at the front of the table.
  unfoldable pub write_fat_id : FatType → ℕ → M S (Unit {0})
  write_fat_id fat12 media = do write_u8 fat media; write_u16_le fat 0xFFFF
  write_fat_id fat16 media = do write_u16_le fat (bit_or media 0xFF00); write_u16_le fat 0xFFFF
  write_fat_id fat32 media = do
    write_u32_le fat (bit_or media 0x0FFF_FF00)
    write_u32_le fat 0xFFFF_FFFF

  -- `bytes_per_fat` is a `u64`; the entry count is cast to `u32`. Below 0x0FFF_FFF0 entries the
  -- second loop has no rounds, so its guard is not written.
  unfoldable pub format_fat : FatType → ℕ → ℕ → ℕ → M S (Unit {0})
  unfolding write_fat_id fill bits_per_fat_entry
  format_fat fat_type media bytes_per_fat total_clusters =
      let start_cluster = (total_clusters + reserved_fat_entries) % 2 ^ 32 in
      let end_cluster = bytes_per_fat * 8 / bits_per_fat_entry fat_type % 2 ^ 32 in
      let end_bad_cluster = min 0x1000_0000 end_cluster in
      do
        write_fat_id fat_type media
        fill fat_type end_of_chain (end_cluster - start_cluster) start_cluster
        fill fat_type bad (end_bad_cluster - 0x0FFF_FFF0) 0x0FFF_FFF0
