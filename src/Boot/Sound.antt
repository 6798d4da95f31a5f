-- ===== src/Boot/Sound.antt =====
-- boot_sector.rs: what `validate` of a block accepts, without the wrap-around of its sums.
use rust_fatfs.Base.{ℕ, ◌+◌, ◌-◌, ◌*◌, ◌/◌, ◌%◌, ◌^◌, ◌≤◌, ◌<◌, ◌≡◌, sym, ap, arith, ◌↔◌}
use mathlib.Core.Path.{subst}
use rust_fatfs.Base.Result.{ok}
use rust_fatfs.Boot.{
  BiosParameterBlock, is_fat32, sectors_per_fat, total_sectors, root_dir_sectors,
  sectors_per_all_fats, first_data_sector, total_clusters,
}
use rust_fatfs.Boot.Validate.{validate_bpb}
use rust_fatfs.Boot.Valid.{IsValid, IsPower, FormatRules, validate_bpb_lem}

-- The sectors before the data, and the clusters behind them.
abbrev pub front : BiosParameterBlock → ℕ
front bpb = bpb.reserved_sectors + bpb.fats * sectors_per_fat bpb + root_dir_sectors bpb

abbrev pub clusters : BiosParameterBlock → ℕ
clusters bpb = (total_sectors bpb - front bpb) / bpb.sectors_per_cluster

-- The rules on a block.
pub record IsSound (bpb : BiosParameterBlock) : Type 0 where
  pub fs_version : bpb.fs_version ≡ 0
  pub sector_power : IsPower bpb.bytes_per_sector
  pub sector_min : 512 ≤ bpb.bytes_per_sector
  pub sector_max : bpb.bytes_per_sector ≤ 4096
  pub cluster_power : IsPower bpb.sectors_per_cluster
  pub reserved : 0 < bpb.reserved_sectors
  pub fats : 0 < bpb.fats
  pub one_total : (bpb.total_sectors_16 ≡ 0) ↔ (0 < bpb.total_sectors_32)
  pub data_after : front bpb < total_sectors bpb
  pub format : FormatRules (clusters bpb) (is_fat32 bpb) bpb

module _ (bpb : BiosParameterBlock) (small : total_sectors bpb < 2 ^ 32)
    (fit : front bpb < 2 ^ 32) where
  first-front : first_data_sector bpb ≡ front bpb
  unfolding first_data_sector sectors_per_all_fats
  first-front = omega arith

  total_clusters-clusters : front bpb < total_sectors bpb → total_clusters bpb ≡ clusters bpb
  unfolding total_clusters
  total_clusters-clusters h =
      let first = first-front in
      let left : (total_sectors bpb + 2 ^ 32 - first_data_sector bpb) % 2 ^ 32
          ≡ total_sectors bpb - front bpb =
        omega arith in
      ap (λ k. k / bpb.sectors_per_cluster) left

  to_sound : IsValid bpb → IsSound bpb
  to_sound v =
      let first = first-front in
      let after = v.data_after in
      let before : front bpb < total_sectors bpb = omega arith in
      record {
        fs_version = v.fs_version;
        sector_power = v.sector_power;
        sector_min = v.sector_min;
        sector_max = v.sector_max;
        cluster_power = v.cluster_power;
        reserved = v.reserved;
        fats = v.fats;
        one_total = v.one_total;
        data_after = before;
        format =
            subst (λ k. FormatRules k (is_fat32 bpb) bpb) (total_clusters-clusters before) v.format;
      }

  from_sound : IsSound bpb → IsValid bpb
  from_sound v =
      let first = first-front in
      let after = v.data_after in
      record {
        fs_version = v.fs_version;
        sector_power = v.sector_power;
        sector_min = v.sector_min;
        sector_max = v.sector_max;
        cluster_power = v.cluster_power;
        reserved = v.reserved;
        fats = v.fats;
        one_total = v.one_total;
        data_after = omega arith;
        format =
            subst (λ k. FormatRules k (is_fat32 bpb) bpb) (sym (total_clusters-clusters after))
              v.format;
      }

  -- A block of less than 2 ^ 32 sectors, whose reserved sectors, tables and root directory add up to
  -- less than 2 ^ 32 sectors, passes validation exactly if it meets the rules of the format: its
  -- sizes are powers of two in their ranges, it has reserved sectors, a table and one count of
  -- sectors, data come behind the root directory, and the fields that depend on the format are those
  -- of the format that the number of clusters in the data selects.
  pub validate_bpb_iff : (validate_bpb bpb ≡ ok tt) ↔ IsSound bpb
  validate_bpb_iff =
      (λ h. to_sound ((validate_bpb_lem bpb).0 h), λ v. (validate_bpb_lem bpb).1 (from_sound v))
