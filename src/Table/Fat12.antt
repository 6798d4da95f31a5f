-- ===== src/Table/Fat12.antt =====
-- table.rs: `impl FatTrait for Fat12`. Two entries share three bytes.
pub mod Entry
pub mod Scan
use rust_fatfs.Base.{ℕ, zero, suc, ◌+◌, ◌-◌, ◌*◌, ◌/◌, ◌%◌, ◌^◌, bit_and, bit_or}
use rust_fatfs.Base.{Bool, true, false, ◌&&◌, ltb, leb, ◌==◌, if◌then◌else◌}
use rust_fatfs.Base.Result.{
  Result, ok, err, panic, stuck, M, pure, not_enough_space, ◌>>=◌, ◌>>◌, and_then, fail_panic,
}
use rust_fatfs.Io.{
  Stream, seek_start, read_u8, read_u16_le, read_u32_le, write_u16_le, write_u32_le,
}
use rust_fatfs.Table.Value.{
  FatValue, free, data_at, bad, end_of_chain, reserved_fat_entries, is_free,
}

-- `match cluster & 1`: the entry of `cluster` in the 16 bits that are read for it.
unfoldable pub entry_of : ℕ → ℕ → ℕ
entry_of cluster packed_val =
    if bit_and cluster 1 == 0 then bit_and packed_val 0x0FFF else packed_val / 2 ^ 4

unfoldable pub decode : ℕ → FatValue
decode val =
    if val == 0
    then free
    else if val == 0xFF7
    then bad
    else if leb 0xFF8 val && leb val 0xFFF
    then end_of_chain
    else data_at val

unfoldable pub encode : FatValue → ℕ
encode free = 0
encode bad = 0xFF7
encode end_of_chain = 0xFFF
encode (data_at n) = n

-- The 16 bits that replace `old_packed`.
unfoldable pub repack : ℕ → ℕ → ℕ → ℕ
repack cluster old_packed raw_val =
    if bit_and cluster 1 == 0
    then bit_or (bit_and old_packed 0xF000) (raw_val % 2 ^ 16)
    else bit_or (bit_and old_packed 0x000F) (raw_val % 2 ^ 16 * 2 ^ 4 % 2 ^ 16)

-- `fat_offset`, a `u32`.
abbrev pub fat_offset : ℕ → ℕ
fat_offset cluster = (cluster + cluster / 2) % 2 ^ 32

-- The rounds of the loop of `find_free` until the wrapping `cluster` meets `end_cluster`.
abbrev pub rounds : ℕ → ℕ → ℕ
rounds start_cluster end_cluster = (end_cluster + 2 ^ 32 - start_cluster - 1) % 2 ^ 32 + 1

-- What `count_free` tests for 0: for an odd cluster, the byte just read over the four bits left.
unfoldable pub count_val : ℕ → ℕ → ℕ → ℕ
count_val cluster packed_val prev_packed_val =
    if bit_and cluster 1 == 0
    then bit_and packed_val 0x0FFF
    else bit_or (packed_val * 2 ^ 8 % 2 ^ 16) (prev_packed_val / 2 ^ 12)

module _ {S : Type 0} (fat : Stream S) where
  unfoldable pub get_raw : ℕ → M S ℕ
  unfolding entry_of
  get_raw cluster = do
    seek_start fat (fat_offset cluster)
    packed_val ← read_u16_le fat
    pure (entry_of cluster packed_val)

  unfoldable pub get : ℕ → M S FatValue
  unfolding get_raw decode
  get cluster = do val ← get_raw cluster; pure (decode val)

  unfoldable pub set_raw : ℕ → ℕ → M S (Unit {0})
  unfolding repack
  set_raw cluster raw_val = do
    seek_start fat (fat_offset cluster)
    old_packed ← read_u16_le fat
    seek_start fat (fat_offset cluster)
    write_u16_le fat (repack cluster old_packed raw_val)

  unfoldable pub set : ℕ → FatValue → M S (Unit {0})
  unfolding set_raw encode
  set cluster value = set_raw cluster (encode value)

  -- The packed value of the next cluster: new bits are read, and for an odd one the high byte
  -- of `packed_val` is kept.
  unfoldable pub next_packed : ℕ → ℕ → M S ℕ
  next_packed cluster packed_val =
      if bit_and cluster 1 == 0
      then read_u16_le fat
      else (read_u8 fat >>= λ next_byte.
          pure (bit_or (packed_val / 2 ^ 8) (next_byte * 2 ^ 8 % 2 ^ 16)))

  unfoldable pub find_free_loop : ℕ → ℕ → ℕ → ℕ → M S ℕ
  unfolding entry_of next_packed
  find_free_loop zero cluster packed_val end_cluster s = (stuck, s)
  find_free_loop (suc fuel) cluster packed_val end_cluster s =
      elim (entry_of cluster packed_val == 0) [
        | true ↦ (ok cluster, s)
        | false ↦ elim ((cluster + 1) % 2 ^ 32 == end_cluster) [
          | true ↦ (err not_enough_space, s)
          | false ↦
              and_then (next_packed ((cluster + 1) % 2 ^ 32) packed_val s) (λ packed_val'.
                find_free_loop fuel ((cluster + 1) % 2 ^ 32) packed_val' end_cluster)
        ]
      ]

  unfoldable pub find_free : ℕ → ℕ → M S ℕ
  unfolding find_free_loop
  find_free start_cluster end_cluster = do
    seek_start fat (fat_offset start_cluster)
    packed_val ← read_u16_le fat
    find_free_loop (rounds start_cluster end_cluster) start_cluster packed_val end_cluster

  -- What the loop of `count_free` reads for `cluster`.
  unfoldable pub count_read : ℕ → M S ℕ
  count_read cluster = if bit_and cluster 1 == 0 then read_u16_le fat else read_u8 fat

  -- The first argument is the number of clusters left, `end_cluster - cluster`.
  unfoldable pub count_free_loop : ℕ → ℕ → ℕ → ℕ → M S ℕ
  unfolding count_read count_val
  count_free_loop zero cluster prev_packed_val count = pure count
  count_free_loop (suc left) cluster prev_packed_val count = do
    packed_val ← count_read cluster
    count_free_loop left (cluster + 1) packed_val
        (if count_val cluster packed_val prev_packed_val == 0 then count + 1 else count)

  unfoldable pub count_free : ℕ → M S ℕ
  unfolding count_free_loop
  count_free end_cluster = do
    seek_start fat (reserved_fat_entries * 3 / 2)
    count_free_loop (end_cluster - reserved_fat_entries) reserved_fat_entries 0 0
