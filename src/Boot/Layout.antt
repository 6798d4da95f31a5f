-- ===== src/Boot/Layout.antt =====
-- boot_sector.rs: the layout of a new volume.
use rust_fatfs.Base.{
  ℕ, zero, suc, ◌+◌, ◌-◌, ◌*◌, ◌/◌, ◌%◌, ◌^◌, Bool, true, false, ◌==◌, ltb, leb, if◌then◌else◌, not,
  List, [], ◌∷◌, Option, some, none,
}
use rust_fatfs.Base.Result.{Result, ok, err, panic, stuck, invalid_input}
use rust_fatfs.FatType.{
  FatType, fat12, fat16, fat32, is_fat32_type, from_clusters, bits_per_fat_entry, max_clusters,
}
use rust_fatfs.Boot.{dir_entry_size}

abbrev pub bits_per_byte : ℕ
bits_per_byte = 8

abbrev pub kb : ℕ
kb = 1024

abbrev pub mb : ℕ
mb = 1024 * 1024

abbrev pub gb : ℕ
gb = 1024 * 1024 * 1024

unfoldable pub estimate_fat_type : ℕ → FatType
estimate_fat_type total_bytes =
    if ltb total_bytes (4200 * kb)
    then fat12
    else if ltb total_bytes (512 * mb)
    then fat16
    else fat32

-- `u64::next_power_of_two`: the first of `n` doublings of `p` that reaches `x`.
unfoldable pub power_from : ℕ → ℕ → ℕ → ℕ
power_from zero p x = 0
power_from (suc n) p x = let rest = power_from n (2 * p) x in if leb x p then p else rest

abbrev pub next_power_of_two : ℕ → ℕ
next_power_of_two x = power_from 64 1 x

abbrev pub max_cluster_size : ℕ
max_cluster_size = 32 * kb

-- `match fat_type`
unfoldable pub wanted_bytes_per_cluster : FatType → ℕ → ℕ
unfolding power_from
wanted_bytes_per_cluster fat12 total_bytes = next_power_of_two total_bytes / mb * 512 % 2 ^ 32
wanted_bytes_per_cluster fat16 total_bytes =
    if leb total_bytes (16 * mb)
    then kb
    else if leb total_bytes (128 * mb)
    then 2 * kb
    else next_power_of_two total_bytes / (64 * mb) % 2 ^ 32 * kb % 2 ^ 32
wanted_bytes_per_cluster fat32 total_bytes =
    if leb total_bytes (260 * mb)
    then 512
    else if leb total_bytes (8 * gb)
    then 4 * kb
    else next_power_of_two total_bytes / (2 * gb) % 2 ^ 32 * kb % 2 ^ 32

-- `x.clamp(low, high)`, which panics if `high < low`.
unfoldable pub clamp : ℕ → ℕ → ℕ → Result ℕ
clamp x low high =
    if ltb high low then panic else ok (if ltb x low then low else if ltb high x then high else x)

unfoldable pub determine_bytes_per_cluster : ℕ → ℕ → Option FatType → Result ℕ
unfolding clamp wanted_bytes_per_cluster estimate_fat_type
determine_bytes_per_cluster total_bytes bytes_per_sector none =
    clamp (wanted_bytes_per_cluster (estimate_fat_type total_bytes) total_bytes) bytes_per_sector
      max_cluster_size
determine_bytes_per_cluster total_bytes bytes_per_sector (some fat_type) =
    clamp (wanted_bytes_per_cluster fat_type total_bytes) bytes_per_sector max_cluster_size

-- `t2` is not 0 where `bits_per_cluster` holds an entry.
unfoldable pub determine_sectors_per_fat : ℕ → ℕ → ℕ → FatType → ℕ → ℕ → ℕ → ℕ
unfolding bits_per_fat_entry
determine_sectors_per_fat total_sectors bytes_per_sector sectors_per_cluster fat_type
      reserved_sectors root_dir_sectors fats =
    let t0 = total_sectors - reserved_sectors - root_dir_sectors in
    let t1 = t0 + 2 * sectors_per_cluster in
    let bits_per_cluster = sectors_per_cluster * bytes_per_sector * bits_per_byte in
    let t2 = bits_per_cluster / bits_per_fat_entry fat_type + fats in (t1 + t2 - 1) / t2 % 2 ^ 32

unfoldable pub reserved_for : FatType → ℕ
reserved_for fat_type = if is_fat32_type fat_type then 8 else 1

-- `==` of the derived `PartialEq`.
unfoldable pub same_type : FatType → FatType → Bool
same_type fat12 fat12 = true
same_type fat16 fat16 = true
same_type fat32 fat32 = true
same_type _ _ = false

-- The rest of `try_fs_layout`, with the number of data sectors. A division by 0 panics.
unfoldable pub accept_layout : ℕ → FatType → ℕ → ℕ → ℕ → Result (ℕ × ℕ)
unfolding same_type from_clusters max_clusters
accept_layout sectors_per_cluster fat_type data_sectors reserved_sectors sectors_per_fat =
    let total_clusters = data_sectors / sectors_per_cluster in
    if sectors_per_cluster == 0
    then panic
    else if not (same_type fat_type (from_clusters total_clusters))
    then err invalid_input
    else if ltb (max_clusters fat_type) total_clusters
    then err invalid_input
    else ok (reserved_sectors, sectors_per_fat)

unfoldable pub try_fs_layout : ℕ → ℕ → ℕ → FatType → ℕ → ℕ → Result (ℕ × ℕ)
unfolding accept_layout determine_sectors_per_fat reserved_for is_fat32_type
try_fs_layout total_sectors bytes_per_sector sectors_per_cluster fat_type root_dir_sectors fats =
    let reserved_sectors = reserved_for fat_type in
    if leb total_sectors (reserved_sectors + root_dir_sectors + 8)
    then err invalid_input
    else let sectors_per_fat =
        determine_sectors_per_fat total_sectors bytes_per_sector sectors_per_cluster fat_type
          reserved_sectors root_dir_sectors fats in
      let data_sectors =
        (total_sectors
          - reserved_sectors
          - root_dir_sectors
          + 2 ^ 32
          - sectors_per_fat * fats % 2 ^ 32)
        % 2 ^ 32 in
      accept_layout sectors_per_cluster fat_type data_sectors reserved_sectors sectors_per_fat

unfoldable pub determine_root_dir_sectors : ℕ → ℕ → FatType → ℕ
unfolding is_fat32_type
determine_root_dir_sectors root_dir_entries bytes_per_sector fat_type =
    if is_fat32_type fat_type
    then 0
    else (root_dir_entries * dir_entry_size + bytes_per_sector - 1) / bytes_per_sector

pub record FormatVolumeOptions : Type 0 where
  pub bytes_per_sector : ℕ
  pub total_sectors : Option ℕ
  pub bytes_per_cluster : Option ℕ
  pub fat_type : Option FatType
  pub max_root_dir_entries : ℕ
  pub fats : ℕ
  pub media : ℕ
  pub sectors_per_track : ℕ
  pub heads : ℕ
  pub drive_num : Option ℕ
  pub volume_id : ℕ
  pub volume_label : Option (List ℕ)

pub record FsLayout : Type 0 where
  pub fat_type : FatType
  pub reserved_sectors : ℕ
  pub sectors_per_fat : ℕ
  pub sectors_per_cluster : ℕ

-- `for &fat_type in allowed_fat_types`: the first type whose layout is accepted.
unfoldable pub select_layout : FormatVolumeOptions → ℕ → ℕ → List FatType → Result FsLayout
select_layout options total_sectors sectors_per_cluster [] = err invalid_input
select_layout options total_sectors sectors_per_cluster (fat_type ∷ rest) =
    let again = select_layout options total_sectors sectors_per_cluster rest in
    let root_dir_sectors =
      determine_root_dir_sectors options.max_root_dir_entries options.bytes_per_sector fat_type in
    elim (try_fs_layout total_sectors options.bytes_per_sector sectors_per_cluster fat_type
      root_dir_sectors options.fats) [
        | ok (reserved_sectors, sectors_per_fat) ↦ ok (record {
          fat_type = fat_type;
          reserved_sectors = reserved_sectors;
          sectors_per_fat = sectors_per_fat;
          sectors_per_cluster = sectors_per_cluster;
        })
        | err _ ↦ again
        | panic ↦ panic
        | stuck ↦ stuck
      ]

unfoldable pub allowed_fat_types : Option FatType → List FatType
allowed_fat_types none = fat32 ∷ fat16 ∷ fat12 ∷ []
allowed_fat_types (some fat_type) = fat_type ∷ []

-- The conversion of the sectors of a cluster to a `u8`, then the loop.
unfoldable pub layout_with : FormatVolumeOptions → ℕ → Result ℕ → Result FsLayout
unfolding select_layout allowed_fat_types
layout_with options total_sectors (ok bytes_per_cluster) =
    let sectors_per_cluster = bytes_per_cluster / options.bytes_per_sector in
    if ltb 255 sectors_per_cluster
    then err invalid_input
    else select_layout options total_sectors sectors_per_cluster
        (allowed_fat_types options.fat_type)
layout_with options total_sectors (err e) = err e
layout_with options total_sectors panic = panic
layout_with options total_sectors stuck = stuck

unfoldable pub determine_fs_layout : FormatVolumeOptions → ℕ → Result FsLayout
unfolding layout_with determine_bytes_per_cluster
determine_fs_layout options total_sectors =
    layout_with options total_sectors (elim options.bytes_per_cluster [
      | some bytes_per_cluster ↦ ok bytes_per_cluster
      | none ↦
          determine_bytes_per_cluster (total_sectors * options.bytes_per_sector)
            options.bytes_per_sector options.fat_type
    ])
