-- ===== src/Boot/Valid.antt =====
-- boot_sector.rs: what the checks of a BIOS parameter block accept.
use rust_fatfs.Base.{
  ℕ, zero, suc, ◌-◌, ◌/◌, ◌%◌, ◌^◌, ◌≤◌, ◌<◌, ◌≡◌, inl, inr, refl, ◌∙◌, sym, arith, bit_and, Bool,
  true, false, ◌==◌, Bool-cases, ◌↔◌,
}
use rust_fatfs.Base.Bits.{bit_and-digit, bit_and_mask}
use native.Mathlib.Nat.{pow-suc, one-le-pow}
use rust_fatfs.Base.Result.{ok}
use rust_fatfs.FatType.{from_clusters, is_fat32_type}
use rust_fatfs.Boot.{BiosParameterBlock, is_fat32, total_sectors, first_data_sector, total_clusters}
use rust_fatfs.Boot.Validate.{
  refuse, ◌also◌, is_power_of_two, validate_bpb, validate_bytes_per_sector,
  validate_sectors_per_cluster, validate_reserved_sectors, validate_fats, validate_root_entries,
  validate_total_sectors, validate_sectors_per_fat, validate_total_clusters, both_or_none, differ,
}

abbrev pub IsPower : ℕ → Type 0
IsPower n = (k : ℕ) × (n ≡ 2 ^ k)

-- The rules on a block of so many clusters that depend on its format.
abbrev pub FormatRules : ℕ → Bool → BiosParameterBlock → Type 0
FormatRules clusters true bpb =
    (bpb.backup_boot_sector < bpb.reserved_sectors)
    × (bpb.fs_info_sector < bpb.reserved_sectors)
    × (bpb.root_entries ≡ 0)
    × (bpb.total_sectors_16 ≡ 0)
    × (0 < bpb.sectors_per_fat_32)
    × (65525 ≤ clusters)
    × (clusters ≤ 0x0FFF_FFFF)
FormatRules clusters false bpb = (0 < bpb.root_entries) × (clusters < 65525)

-- The rules on a block as the code checks them, with sums of sectors in 32 bits.
pub record IsValid (bpb : BiosParameterBlock) : Type 0 where
  pub fs_version : bpb.fs_version ≡ 0
  pub sector_power : IsPower bpb.bytes_per_sector
  pub sector_min : 512 ≤ bpb.bytes_per_sector
  pub sector_max : bpb.bytes_per_sector ≤ 4096
  pub cluster_power : IsPower bpb.sectors_per_cluster
  pub reserved : 0 < bpb.reserved_sectors
  pub fats : 0 < bpb.fats
  pub one_total : (bpb.total_sectors_16 ≡ 0) ↔ (0 < bpb.total_sectors_32)
  pub data_after : first_data_sector bpb < total_sectors bpb
  pub format : FormatRules (total_clusters bpb) (is_fat32 bpb) bpb

and-self_below : (b x : ℕ) → x ≤ b → bit_and x x ≡ x
and-self_below zero x h = let e : x ≡ 0 = omega arith in rw e refl
and-self_below (suc b) zero h = refl
and-self_below (suc b) (suc x) h =
    omega (arith, bit_and-digit (suc x) (suc x), and-self_below b (suc x / 2) (omega arith))

IsPower-below : (b n : ℕ) → n ≤ b → 0 < n → bit_and n (n - 1) ≡ 0 → IsPower n
IsPower-below zero n h p e = absurd (omega arith)
IsPower-below (suc b) n h p e =
    let d = bit_and-digit n (n - 1) in
    elim (Bool-cases (n % 2 == 0)) [
      | inl t ↦
          let half : (n - 1) / 2 ≡ n / 2 - 1 = ground arith in
          let low : bit_and (n / 2) (n / 2 - 1) ≡ 0 = rw (sym half) (ground arith) in
          let (k, q) = IsPower-below b (n / 2) (omega arith) (ground arith) low in
          (suc k, ground (arith, pow-suc 2 k))
      | inr o ↦
          let same : (n - 1) / 2 ≡ n / 2 = ground arith in
          let self = and-self_below n (n / 2) (omega arith) in
          let low : bit_and (n / 2) (n / 2) ≡ 0 = ground arith in (0, ground arith)
    ]

mod_self : (y : ℕ) → 0 < y → y % y ≡ 0
mod_self y h = grind arith

one_bit : (n : ℕ) → 0 < n → bit_and n (n - 1) ≡ 0 → is_power_of_two n ≡ true
unfolding is_power_of_two
one_bit n h e = ground arith

is_power_of_two_iff : (n : ℕ) → (is_power_of_two n ≡ true) ↔ IsPower n
unfolding is_power_of_two
is_power_of_two_iff n = (
  λ h. IsPower-below n n (omega arith) (ground arith) (ground arith),
  λ (k, e).
      let p : 0 < 2 ^ k = one-le-pow k 2 (omega arith) in
      rw e (one_bit (2 ^ k) p (bit_and_mask k (2 ^ k) ∙ mod_self (2 ^ k) p)),
)

checked :
    (bpb : BiosParameterBlock)
    → validate_bpb bpb ≡ ok tt
    → (is_power_of_two bpb.bytes_per_sector ≡ true)
      × (is_power_of_two bpb.sectors_per_cluster ≡ true)
      × (IsPower bpb.bytes_per_sector → IsPower bpb.sectors_per_cluster → IsValid bpb)
unfolding validate_bpb ◌also◌ refuse validate_bytes_per_sector validate_sectors_per_cluster
    validate_reserved_sectors validate_fats validate_root_entries validate_total_sectors
    validate_sectors_per_fat validate_total_clusters both_or_none differ from_clusters is_fat32_type
checked bpb h = ground arith

accepted :
    (bpb : BiosParameterBlock)
    → IsValid bpb
    → is_power_of_two bpb.bytes_per_sector ≡ true
    → is_power_of_two bpb.sectors_per_cluster ≡ true
    → validate_bpb bpb ≡ ok tt
unfolding validate_bpb ◌also◌ refuse validate_bytes_per_sector validate_sectors_per_cluster
    validate_reserved_sectors validate_fats validate_root_entries validate_total_sectors
    validate_sectors_per_fat validate_total_clusters both_or_none differ from_clusters is_fat32_type
accepted bpb v p q = ground arith

pub validate_bpb_lem : (bpb : BiosParameterBlock) → (validate_bpb bpb ≡ ok tt) ↔ IsValid bpb
validate_bpb_lem bpb = (
  λ h.
      let (p, q, r) = checked bpb h in
      r ((is_power_of_two_iff bpb.bytes_per_sector).0 p)
        ((is_power_of_two_iff bpb.sectors_per_cluster).0 q),
  λ v.
      accepted bpb v ((is_power_of_two_iff bpb.bytes_per_sector).1 v.sector_power)
        ((is_power_of_two_iff bpb.sectors_per_cluster).1 v.cluster_power),
)
