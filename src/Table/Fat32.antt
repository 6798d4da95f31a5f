-- ===== src/Table/Fat32.antt =====
-- table.rs: `impl FatTrait for Fat32`. An entry has 28 bits; four more are reserved.
pub mod Entry
pub mod Scan
use rust_fatfs.Base.{ℕ, zero, suc, ◌+◌, ◌-◌, ◌*◌, ◌/◌, ◌%◌, ◌^◌, bit_and, bit_or}
use rust_fatfs.Base.{Bool, true, false, ◌&&◌, ltb, leb, ◌==◌, if◌then◌else◌}
use rust_fatfs.Base.Result.{
  Result, ok, err, panic, stuck, M, pure, not_enough_space, ◌>>=◌, ◌>>◌, and_then, fail_panic,
}
use rust_fatfs.Io.{
  Stream, seek_start, read_u8, read_u16_le, read_u32_le, write_u16_le, write_u32_le,
}
use rust_fatfs.Table.Value.{
  FatValue, free, data_at, bad, end_of_chain, reserved_fat_entries, is_free,
}

-- `(0x0FFF_FFF7..=0x0FFF_FFFF).contains(&cluster)`
unfoldable pub is_special : ℕ → Bool
is_special cluster = leb 0x0FFF_FFF7 cluster && leb cluster 0x0FFF_FFFF

unfoldable pub decode : ℕ → ℕ → FatValue
unfolding is_special
decode cluster val =
    if val == 0 && is_special cluster
    then bad
    else if val == 0
    then free
    else if val == 0x0FFF_FFF7
    then bad
    else if leb 0x0FFF_FFF8 val && leb val 0x0FFF_FFFF
    then end_of_chain
    else if is_special cluster
    then bad
    else data_at val

unfoldable pub encode : FatValue → ℕ
encode free = 0
encode bad = 0x0FFF_FFF7
encode end_of_chain = 0x0FFF_FFFF
encode (data_at n) = n

module _ {S : Type 0} (fat : Stream S) where
  unfoldable pub get_raw : ℕ → M S ℕ
  get_raw cluster = do seek_start fat (cluster * 4 % 2 ^ 32); read_u32_le fat

  unfoldable pub get : ℕ → M S FatValue
  unfolding get_raw decode
  get cluster = do val ← get_raw cluster; pure (decode cluster (bit_and val 0x0FFF_FFFF))

  unfoldable pub set_raw : ℕ → ℕ → M S (Unit {0})
  set_raw cluster raw_value = do seek_start fat (cluster * 4 % 2 ^ 32); write_u32_le fat raw_value

  -- The reserved bits are read first and kept. A special cluster number is never set free.
  unfoldable pub set : ℕ → FatValue → M S (Unit {0})
  unfolding get_raw set_raw encode is_special
  set cluster value = do
    val ← get_raw cluster
    (if is_free value && is_special cluster
        then fail_panic
        else set_raw cluster (bit_or (encode value) (bit_and val 0xF000_0000)))

  -- The first argument is the number of clusters left, `end_cluster - cluster`.
  unfoldable pub find_free_loop : ℕ → ℕ → M S ℕ
  find_free_loop zero cluster s = (err not_enough_space, s)
  find_free_loop (suc left) cluster s = and_then (read_u32_le fat s) (λ val s'.
      elim (bit_and val 0x0FFF_FFFF == 0) [
        | true ↦ (ok cluster, s')
        | false ↦ find_free_loop left (cluster + 1) s'
      ])

  unfoldable pub find_free : ℕ → ℕ → M S ℕ
  unfolding find_free_loop
  find_free start_cluster end_cluster = do
    seek_start fat (start_cluster * 4 % 2 ^ 32)
    find_free_loop (end_cluster - start_cluster) start_cluster

  unfoldable pub count_free_loop : ℕ → ℕ → ℕ → M S ℕ
  count_free_loop zero cluster count = pure count
  count_free_loop (suc left) cluster count = do
    val ← read_u32_le fat
    count_free_loop left (cluster + 1) (if bit_and val 0x0FFF_FFFF == 0 then count + 1 else count)

  unfoldable pub count_free : ℕ → M S ℕ
  unfolding count_free_loop
  count_free end_cluster = do
    seek_start fat (reserved_fat_entries * 4)
    count_free_loop (end_cluster - reserved_fat_entries) reserved_fat_entries 0
