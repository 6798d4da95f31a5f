-- ===== src/FatType.antt =====
-- fs.rs: `FatType`, and the cluster counts that tell the types apart.
use rust_fatfs.Base.{ℕ, ◌-◌, ◌≤◌, ◌≡◌, Bool, true, false, ltb, if◌then◌else◌, ◌↔◌, arith}

pub data FatType : Type 0 where
  fat12 fat16 fat32 : FatType

-- `==` of the derived `PartialEq`.
unfoldable pub is_fat32_type : FatType → Bool
is_fat32_type fat32 = true
is_fat32_type _ = false

abbrev pub fat16_min_clusters : ℕ
fat16_min_clusters = 4085

abbrev pub fat32_min_clusters : ℕ
fat32_min_clusters = 65525

abbrev pub fat32_max_clusters : ℕ
fat32_max_clusters = 0x0FFF_FFF4

unfoldable pub from_clusters : ℕ → FatType
from_clusters total_clusters =
    if ltb total_clusters fat16_min_clusters
    then fat12
    else if ltb total_clusters fat32_min_clusters
    then fat16
    else fat32

unfoldable pub bits_per_fat_entry : FatType → ℕ
bits_per_fat_entry fat12 = 12
bits_per_fat_entry fat16 = 16
bits_per_fat_entry fat32 = 32

unfoldable pub min_clusters : FatType → ℕ
min_clusters fat12 = 0
min_clusters fat16 = fat16_min_clusters
min_clusters fat32 = fat32_min_clusters

unfoldable pub max_clusters : FatType → ℕ
max_clusters fat12 = fat16_min_clusters - 1
max_clusters fat16 = fat32_min_clusters - 1
max_clusters fat32 = fat32_max_clusters

-- Up to the FAT32 limit, the type that a cluster count selects is the one whose range holds it.
pub from_clusters_iff :
    (n : ℕ) (t : FatType)
    → n ≤ fat32_max_clusters
    → (from_clusters n ≡ t) ↔ ((min_clusters t ≤ n) × (n ≤ max_clusters t))
unfolding from_clusters min_clusters max_clusters
from_clusters_iff n t h = ground arith
