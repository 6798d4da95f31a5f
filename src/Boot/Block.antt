-- ===== src/Boot/Block.antt =====
-- boot_sector.rs: the derived values of the block of a new volume.
use rust_fatfs.Base.{
  ℕ, zero, suc, ◌+◌, ◌-◌, ◌*◌, ◌/◌, ◌^◌, ◌≤◌, ◌<◌, ◌≡◌, inl, inr, refl, ◌∙◌, ap, arith, Bool, true,
  false, Bool-cases, ◌↔◌,
}
use rust_fatfs.FatType.{FatType, is_fat32_type, from_clusters, max_clusters, bits_per_fat_entry}
use rust_fatfs.Boot.{
  BiosParameterBlock, total_clusters, is_fat32, total_sectors, first_data_sector, root_dir_sectors,
  sectors_per_all_fats, sectors_per_fat,
}
use rust_fatfs.Boot.Layout.{FormatVolumeOptions, FsLayout, determine_root_dir_sectors, reserved_for}
use rust_fatfs.Boot.Format.{new_bpb, sectors_16}
use rust_fatfs.Boot.Valid.{FormatRules}
use rust_fatfs.Boot.Chosen.{bpb_of}

pub entry_bits : (t : FatType) → 0 < bits_per_fat_entry t
unfolding bits_per_fat_entry
entry_bits t = ground arith

pub reserved_pos : (t : FatType) → 0 < reserved_for t
unfolding reserved_for is_fat32_type
reserved_pos t = ground arith

pub spf_pos : (clusters bits f sector : ℕ) → 0 < bits → (clusters + 2) * bits ≤ f * sector → 0 < f
spf_pos clusters bits zero sector b h = grind arith
spf_pos clusters bits (suc f) sector b h = omega arith

pub total_of :
    (o : FormatVolumeOptions) (total : ℕ) (l : FsLayout) → total_sectors (bpb_of o total l) ≡ total
unfolding total_sectors new_bpb sectors_16
total_of o total l = ground arith

pub format_of :
    (o : FormatVolumeOptions) (total : ℕ) (l : FsLayout)
    → 0 < l.sectors_per_fat
    → is_fat32 (bpb_of o total l) ≡ is_fat32_type l.fat_type
unfolding is_fat32 new_bpb
format_of o total l h = ground arith

pub no_root : (bps : ℕ) → 0 < bps → (0 + bps - 1) / bps ≡ 0
no_root bps h = grind arith

pub root_of :
    (o : FormatVolumeOptions) (total : ℕ) (l : FsLayout)
    → 0 < o.bytes_per_sector
    → root_dir_sectors (bpb_of o total l)
      ≡ determine_root_dir_sectors o.max_root_dir_entries o.bytes_per_sector l.fat_type
unfolding root_dir_sectors new_bpb determine_root_dir_sectors
root_of o total l h = elim (Bool-cases (is_fat32_type l.fat_type)) [
  | inl y ↦ rw y (no_root o.bytes_per_sector h)
  | inr n ↦ rw n refl
]

pub tables_of :
    (o : FormatVolumeOptions) (total : ℕ) (l : FsLayout)
    → 0 < l.sectors_per_fat
    → sectors_per_fat (bpb_of o total l) ≡ l.sectors_per_fat
unfolding sectors_per_fat new_bpb is_fat32
tables_of o total l h = ground arith

pub first_of :
    (o : FormatVolumeOptions) (total : ℕ) (l : FsLayout)
    → 0 < o.bytes_per_sector
    → 0 < l.sectors_per_fat
    → l.reserved_sectors
        + determine_root_dir_sectors o.max_root_dir_entries o.bytes_per_sector l.fat_type
        + l.sectors_per_fat * o.fats
      < 2 ^ 32
    → first_data_sector (bpb_of o total l)
      ≡ l.reserved_sectors
        + determine_root_dir_sectors o.max_root_dir_entries o.bytes_per_sector l.fat_type
        + l.sectors_per_fat * o.fats
unfolding first_data_sector sectors_per_all_fats new_bpb
first_of o total l h k small = rw (root_of o total l h, tables_of o total l k) (omega arith)

pub clusters_of :
    (o : FormatVolumeOptions) (total : ℕ) (l : FsLayout)
    → total < 2 ^ 32
    → 0 < o.bytes_per_sector
    → 0 < l.sectors_per_fat
    → l.reserved_sectors
        + determine_root_dir_sectors o.max_root_dir_entries o.bytes_per_sector l.fat_type
        + l.sectors_per_fat * o.fats
      < total
    → total_clusters (bpb_of o total l)
      ≡ (total
          - l.reserved_sectors
          - determine_root_dir_sectors o.max_root_dir_entries o.bytes_per_sector l.fat_type
          - l.sectors_per_fat * o.fats)
        / l.sectors_per_cluster
unfolding total_clusters new_bpb
clusters_of o total l a h k inside =
    let first = first_of o total l h k (omega arith) in
    let all = total_of o total l in ap (λ (n : ℕ). n / l.sectors_per_cluster) (omega arith)

pub FormatRules_lem :
    (b : Bool) (bpb : BiosParameterBlock)
    → (b ≡ true → FormatRules (total_clusters bpb) true bpb)
    → (b ≡ false → FormatRules (total_clusters bpb) false bpb)
    → FormatRules (total_clusters bpb) b bpb
FormatRules_lem true bpb h k = h refl
FormatRules_lem false bpb h k = k refl

pub fat32_range :
    (n : ℕ) (t : FatType)
    → is_fat32_type t ≡ true
    → from_clusters n ≡ t
    → n ≤ max_clusters t
    → (65525 ≤ n) × (n ≤ 0x0FFF_FFFF)
unfolding is_fat32_type from_clusters max_clusters
fat32_range n t y same few = ground arith

pub small_range : (n : ℕ) (t : FatType) → is_fat32_type t ≡ false → from_clusters n ≡ t → n < 65525
unfolding is_fat32_type from_clusters
small_range n t y same = ground arith

pub one_total_of :
    (o : FormatVolumeOptions) (total : ℕ) (l : FsLayout)
    → 0 < total
    → ((bpb_of o total l).total_sectors_16 ≡ 0) ↔ (0 < (bpb_of o total l).total_sectors_32)
unfolding new_bpb sectors_16
one_total_of o total l h = ground arith

pub rules :
    (o : FormatVolumeOptions) (total : ℕ) (l : FsLayout)
    → l.reserved_sectors ≡ reserved_for l.fat_type
    → 0 < l.sectors_per_fat
    → 0 < o.max_root_dir_entries
    → total_clusters (bpb_of o total l) ≤ max_clusters l.fat_type
    → from_clusters (total_clusters (bpb_of o total l)) ≡ l.fat_type
    → FormatRules (total_clusters (bpb_of o total l)) (is_fat32_type l.fat_type) (bpb_of o total l)
unfolding new_bpb reserved_for sectors_16
rules o total l er pos root few same =
    FormatRules_lem (is_fat32_type l.fat_type) (bpb_of o total l)
      (λ y.
        let (low, high) = fat32_range _ l.fat_type y same few in
        let eight : l.reserved_sectors ≡ 8 = er ∙ rw y refl in
        (rw y (omega arith), rw y (omega arith), rw y refl, rw y refl, rw y pos, low, high))
      (λ n. (rw n root, small_range _ l.fat_type n same))
