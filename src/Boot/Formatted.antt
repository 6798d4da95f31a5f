-- ===== src/Boot/Formatted.antt =====
-- boot_sector.rs: the boot sector of a new volume meets the rules of its format.
use rust_fatfs.Base.{
  some, ℕ, ◌^◌, ◌≤◌, ◌<◌, ◌≡◌, refl, ◌∙◌, sym, ap, arith, Bool, true, false, if◌then◌else◌,
}
use rust_fatfs.Base.Result.{Result, ok, err, panic, stuck}
use rust_fatfs.FatType.{FatType, is_fat32_type, from_clusters}
use rust_fatfs.Boot.{BiosParameterBlock, BootSector, total_clusters}
use rust_fatfs.Boot.Layout.{FormatVolumeOptions, FsLayout, determine_fs_layout}
use rust_fatfs.Boot.Size.{try_fs_layout-fits}
use rust_fatfs.Boot.Format.{
  format_boot_sector, boot_with, new_boot, fix_offsets, format_bpb, new_bpb,
}
use rust_fatfs.Boot.Validate.{validate_bpb, validate, is_signed}
use rust_fatfs.Boot.Valid.{validate_bpb_lem, IsValid, IsPower}
use rust_fatfs.Boot.Chosen.{IsLayout, bpb_of, chosen, bpb_with_ok, ok-injective}
use rust_fatfs.Boot.Power.{quotient-IsPower}
use rust_fatfs.Boot.Block.{
  entry_bits, reserved_pos, spf_pos, total_of, format_of, first_of, clusters_of, one_total_of,
  rules,
}

-- The rules for a block of a chosen layout.
valid :
    (o : FormatVolumeOptions) (total : ℕ) (l : FsLayout)
    → total < 2 ^ 32
    → IsPower o.bytes_per_sector
    → 512 ≤ o.bytes_per_sector
    → o.bytes_per_sector ≤ 4096
    → 0 < o.fats
    → o.fats ≤ 2
    → 0 < o.max_root_dir_entries
    → IsLayout o total l
    → from_clusters (total_clusters (bpb_of o total l)) ≡ l.fat_type
    → IsValid (bpb_of o total l)
unfolding new_bpb
valid o total l a p b c d e g lay same =
    let ch = lay.tried in
    let q = lay.small in
    let (pos, er, inside, type, few, table) =
      try_fs_layout-fits total o.bytes_per_sector l.sectors_per_cluster l.fat_type _ o.fats
        l.reserved_sectors l.sectors_per_fat a b q e ch in
    let from_bytes = lay.sectors in
    let sp : IsPower l.sectors_per_cluster =
      rw from_bytes (quotient-IsPower lay.bytes o.bytes_per_sector lay.shifted p (omega arith)) in
    let spf = spf_pos _ _ _ _ (entry_bits l.fat_type) table in
    let first = first_of o total l (omega arith) spf (omega arith) in
    let all = total_of o total l in
    record {
      fs_version = refl;
      sector_power = p;
      sector_min = b;
      sector_max = c;
      cluster_power = sp;
      reserved = rw er (reserved_pos l.fat_type);
      fats = d;
      one_total = one_total_of o total l (omega arith);
      data_after = omega arith;
      format = rw (format_of o total l spf) (
          rules o total l er spf g (rw (clusters_of o total l a (omega arith) spf inside) few)
            same);
    }

format_bpb-validate :
    (o : FormatVolumeOptions) (total : ℕ) (bpb : BiosParameterBlock) (t : FatType)
    → total < 2 ^ 32
    → IsPower o.bytes_per_sector
    → 512 ≤ o.bytes_per_sector
    → o.bytes_per_sector ≤ 4096
    → 0 < o.fats
    → o.fats ≤ 2
    → 0 < o.max_root_dir_entries
    → ((x : ℕ) → o.bytes_per_cluster ≡ some x → IsPower x)
    → format_bpb o total ≡ ok (bpb, t)
    → (validate_bpb bpb ≡ ok tt) × (from_clusters (total_clusters bpb) ≡ t)
unfolding format_bpb
format_bpb-validate o total bpb t a p b c d e g sp h =
    let (l, el, eb, et, same) = bpb_with_ok o total (determine_fs_layout o total) bpb t h in
    let v = valid o total l a p b c d e g (chosen o total l p sp el) same in
    rw (sym eb) ((validate_bpb_lem (bpb_of o total l)).1 v, same ∙ et)

abbrev fixed : Bool → BiosParameterBlock → BootSector
fixed big bpb = if big then new_boot bpb else fix_offsets (new_boot bpb)

fixed_parts :
    (big : Bool) (bpb : BiosParameterBlock)
    → ((fixed big bpb).bpb ≡ bpb) × (is_signed (fixed big bpb).boot_sig ≡ true)
unfolding new_boot fix_offsets is_signed
fixed_parts true bpb = (refl, refl)
fixed_parts false bpb = (refl, refl)

boot_with_ok :
    (r : Result (BiosParameterBlock × FatType)) (boot : BootSector) (t : FatType)
    → boot_with r ≡ ok (boot, t)
    → (r ≡ ok (boot.bpb, t)) × (is_signed boot.boot_sig ≡ true)
unfolding boot_with
boot_with_ok (ok (bpb, u)) boot t h =
    let made = fixed (is_fat32_type u) bpb in
    let e = ok-injective (made, u) (boot, t) h in
    let same : made ≡ boot = ap (λ p. p.0) e in
    let type : u ≡ t = ap (λ p. p.1) e in
    let (inner, sig) = fixed_parts (is_fat32_type u) bpb in
    let block : boot.bpb ≡ bpb = ap (λ (x : BootSector). x.bpb) (sym same) ∙ inner in
    (rw (block, type) refl, ap (λ (x : BootSector). is_signed x.boot_sig) (sym same) ∙ sig)
boot_with_ok (err e) boot t h = ground arith
boot_with_ok panic boot t h = ground arith
boot_with_ok stuck boot t h = ground arith

-- The boot sector that `format_boot_sector` makes for a disk of less than 2 ^ 32 sectors passes
-- `validate`, and its cluster count selects the FAT type that is answered with it. The sector size
-- is to be a power of two from 512 to 4096, and the cluster size too if the options have one; there
-- are to be one or two tables and a root directory that is not empty. The other cluster sizes are
-- computed, and are powers of two.
pub format_boot_sector-validate :
    (o : FormatVolumeOptions) (total : ℕ) (boot : BootSector) (t : FatType)
    → total < 2 ^ 32
    → IsPower o.bytes_per_sector
    → 512 ≤ o.bytes_per_sector
    → o.bytes_per_sector ≤ 4096
    → 0 < o.fats
    → o.fats ≤ 2
    → 0 < o.max_root_dir_entries
    → ((x : ℕ) → o.bytes_per_cluster ≡ some x → IsPower x)
    → format_boot_sector o total ≡ ok (boot, t)
    → (validate boot ≡ ok tt) × (from_clusters (total_clusters boot.bpb) ≡ t)
unfolding format_boot_sector validate
format_boot_sector-validate o total boot t a p b c d e g sp h =
    let (made, sig) = boot_with_ok (format_bpb o total) boot t h in
    let (v, same) = format_bpb-validate o total boot.bpb t a p b c d e g sp made in
    (rw (sig, v) refl, same)
