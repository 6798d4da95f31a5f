-- ===== src/FileSystem/Mount.antt =====
-- fs.rs: `FileSystem::new`, and what a mounted volume starts with. The `debug_assert!` on the
-- position of the storage is left out.
use rust_fatfs.Base.{
  sym, ℕ, ◌+◌, ◌%◌, ◌^◌, ◌≤◌, ◌≡◌, refl, arith, Bool, true, false, if◌then◌else◌, Option, some,
  none,
}
use rust_fatfs.Base.Result.{ok, M, pure, ◌>>=◌, ◌>>◌}
use rust_fatfs.FatType.{from_clusters, is_fat32_type}
use rust_fatfs.Io.{Stream, seek_start}
use rust_fatfs.FsInfo
use rust_fatfs.FsInfo.{FsInfoSector, validate_and_fix, at_most}
use rust_fatfs.Boot.{
  BiosParameterBlock, BootSector, status_flags, bytes_from_sectors, total_clusters,
}
use rust_fatfs.Boot.Codec
use rust_fatfs.Boot.Validate.{validate, refuse, ◌also◌}
use rust_fatfs.Boot.Valid.{IsValid, validate_bpb_lem}
use rust_fatfs.Io.{read_u32_le, read_exact}
use rust_fatfs.Base.{ap, ◌∙◌, Bool-cases, inl, inr}
use rust_fatfs.Base.Outcome.{Leaves, and_then-Leaves}
use mathlib.Core.Path.{subst}
use rust_fatfs.FileSystem.{Mounted, FileSystem}

-- `FsInfoSector::default()`
abbrev default_info : FsInfoSector
default_info = record { free_cluster_count = none; next_free_cluster = none; dirty = false }

-- The count is dropped if the volume was not unmounted.
unfoldable drop_count : Bool → FsInfoSector → FsInfoSector
drop_count true info = record info { free_cluster_count = none }
drop_count false info = info

unfoldable mounted : BiosParameterBlock → Mounted
unfolding total_clusters from_clusters
mounted bpb = record {
  fat_type = from_clusters (total_clusters bpb);
  bpb = bpb;
  total_clusters = total_clusters bpb;
}

unfoldable fix_info : BiosParameterBlock → FsInfoSector → FsInfoSector
unfolding drop_count validate_and_fix status_flags total_clusters
fix_info bpb info = validate_and_fix (total_clusters bpb) (drop_count (status_flags bpb).dirty info)

module _ {S : Type 0} (io : Stream S) where
  -- The FSInfo sector of a FAT32 volume.
  unfoldable read_info : BiosParameterBlock → M S FsInfoSector
  unfolding from_clusters is_fat32_type bytes_from_sectors FsInfo.deserialize
  read_info bpb =
      if is_fat32_type (from_clusters (total_clusters bpb))
      then (do seek_start io (bytes_from_sectors bpb bpb.fs_info_sector); FsInfo.deserialize io)
      else pure default_info

  unfoldable mount_with : BootSector → M S (Mounted × FileSystem S)
  unfolding read_info mounted fix_info status_flags validate
  mount_with boot = do
    (λ s. (validate boot, s))
    info ← read_info boot.bpb
    (λ s. (
      ok (
        mounted boot.bpb,
        record {
          disk = s;
          fs_info = fix_info boot.bpb info;
          current_status_flags = status_flags boot.bpb;
        },
      ),
      s,
    ))

  -- `FileSystem::new`
  unfoldable pub new : M S (Mounted × FileSystem S)
  unfolding Codec.deserialize mount_with
  new = do boot ← Codec.deserialize io; mount_with boot

-- What holds of a volume behind its mount.
pub record IsMounted {S : Type 0} (v : Mounted) (fs : FileSystem S) : Type 0 where
  pub valid : IsValid v.bpb
  pub type_of : v.fat_type ≡ from_clusters v.total_clusters
  pub clusters : v.total_clusters ≡ total_clusters v.bpb
  pub count : (n : ℕ) → fs.fs_info.free_cluster_count ≡ some n → n ≤ v.total_clusters
  pub hint :
      (n : ℕ)
      → fs.fs_info.next_free_cluster ≡ some n
      → (2 ≤ n) × (n ≤ (v.total_clusters + 2) % 2 ^ 32)
  pub no_count_if_dirty : (status_flags v.bpb).dirty ≡ true → fs.fs_info.free_cluster_count ≡ none
  pub flags : fs.current_status_flags ≡ status_flags v.bpb
  pub clean_info : fs.fs_info.dirty ≡ false

-- An FSInfo sector as it is read: it has no change to be written, and hints at no reserved entry.
pub record IsRead (info : FsInfoSector) : Type 0 where
  pub clean : info.dirty ≡ false
  pub hint : (n : ℕ) → info.next_free_cluster ≡ some n → 2 ≤ n

fix_info-clean :
    (bpb : BiosParameterBlock) (info : FsInfoSector) → (fix_info bpb info).dirty ≡ info.dirty
unfolding fix_info drop_count validate_and_fix
fix_info-clean bpb info = ground arith

known_cluster_ge : (word n : ℕ) → FsInfo.known_cluster word ≡ some n → 2 ≤ n
unfolding FsInfo.known_cluster
known_cluster_ge word n e = ground arith

at_most-some : (bound : ℕ) (o : Option ℕ) (n : ℕ) → at_most bound o ≡ some n → o ≡ some n
unfolding at_most
at_most-some bound none n e = absurd (cc)
at_most-some bound (some k) n e = ground arith

drop_count-hint :
    (dirty : Bool) (info : FsInfoSector)
    → (drop_count dirty info).next_free_cluster ≡ info.next_free_cluster
unfolding drop_count
drop_count-hint true info = refl
drop_count-hint false info = refl

drop_count-none :
    (dirty : Bool) (info : FsInfoSector)
    → dirty ≡ true
    → (drop_count dirty info).free_cluster_count ≡ none
unfolding drop_count
drop_count-none true info e = refl
drop_count-none false info e = absurd (cc)

at_most_le : (bound : ℕ) (o : Option ℕ) (n : ℕ) → at_most bound o ≡ some n → n ≤ bound
unfolding at_most
at_most_le bound none n e = absurd (cc)
at_most_le bound (some k) n e = ground arith

module _ {S : Type 0} (io : Stream S) where
  deserialize-IsRead : (s : S) → Leaves (λ info _. IsRead info) (FsInfo.deserialize io s)
  unfolding FsInfo.deserialize
  deserialize-IsRead s = and_then-Leaves _ (read_u32_le io s) _ (λ x1 s1 e1.
      (and_then-Leaves _ (FsInfo.expect io x1 FsInfo.lead_sig s1) _ (λ x2 s2 e2.
        (and_then-Leaves _ (read_exact io 480 s2) _ (λ x3 s3 e3.
          (and_then-Leaves _ (read_u32_le io s3) _ (λ x4 s4 e4.
            (and_then-Leaves _ (FsInfo.expect io x4 FsInfo.struc_sig s4) _ (λ x5 s5 e5.
              (and_then-Leaves _ (read_u32_le io s5) _ (λ x6 s6 e6.
                (and_then-Leaves _ (read_u32_le io s6) _ (λ x7 s7 e7.
                  (and_then-Leaves _ (read_exact io 12 s7) _ (λ x8 s8 e8.
                    (and_then-Leaves _ (read_u32_le io s8) _ (λ x9 s9 e9.
                      (and_then-Leaves _ (FsInfo.expect io x9 FsInfo.trail_sig s9) _ (λ x10 s10 e10.
                        record { clean = refl; hint = known_cluster_ge x7 })))))))))))))))))))

  read_info-IsRead :
      (bpb : BiosParameterBlock) (s : S) → Leaves (λ info _. IsRead info) (read_info io bpb s)
  unfolding read_info
  read_info-IsRead bpb s = elim (Bool-cases (is_fat32_type (from_clusters (total_clusters bpb)))) [
    | inl t ↦ rw t (
        and_then-Leaves _ (seek_start io (bytes_from_sectors bpb bpb.fs_info_sector) s) _
          (λ p s1 e. deserialize-IsRead s1))
    | inr n ↦ rw n (record { clean = refl; hint = λ k e. absurd (cc) })
  ]

  validate-IsValid : (boot : BootSector) → validate boot ≡ ok tt → IsValid boot.bpb
  unfolding validate ◌also◌ refuse
  validate-IsValid boot e = (validate_bpb_lem boot.bpb).0 (ground (arith, e))

  mounted-IsMounted :
      (bpb : BiosParameterBlock) (info : FsInfoSector) (s : S)
      → IsValid bpb
      → IsRead info
      → IsMounted (mounted bpb) (record {
        disk = s;
        fs_info = fix_info bpb info;
        current_status_flags = status_flags bpb;
      })
  unfolding mounted fix_info validate_and_fix
  mounted-IsMounted bpb info s valid is_read = record {
    valid = valid;
    type_of = refl;
    clusters = refl;
    count = at_most_le (total_clusters bpb) _;
    hint = λ n e. (
      is_read.hint n (
          sym (drop_count-hint (status_flags bpb).dirty info)
          ∙ at_most-some ((total_clusters bpb + 2) % 2 ^ 32) _ n e),
      at_most_le ((total_clusters bpb + 2) % 2 ^ 32) _ n e,
    );
    no_count_if_dirty = λ e. ap (at_most (total_clusters bpb)) (drop_count-none _ info e);
    flags = refl;
    clean_info = fix_info-clean bpb info ∙ is_read.clean;
  }

  new-Leaves : (s : S) → Leaves (λ r s'. IsMounted r.0 r.1 × (r.1.disk ≡ s')) (new io s)
  unfolding new mount_with
  new-Leaves s = and_then-Leaves _ (Codec.deserialize io s) _ (λ boot s1 e1.
      and_then-Leaves _ (validate boot, s1) _
        (λ u s2 e2. and_then-Leaves _ (read_info io boot.bpb s2) _ (λ info s3 e3. (
          mounted-IsMounted boot.bpb info s3 (validate-IsValid boot (ap (λ p. p.0) e2))
              (subst (Leaves (λ info _. IsRead info)) e3 (read_info-IsRead boot.bpb s2)),
          refl,
        ))))

  -- On every storage: a volume whose mount succeeds has a boot sector that meets the rules of
  -- validation and the format that its cluster count selects. A count of free clusters is at most the number of clusters, and there is
  -- none if the boot sector says that the volume was not unmounted; a hint is no reserved entry and
  -- at most the number of clusters and 2 in 32 bits, which is one past the last cluster. Nothing is
  -- to be written, and the storage is as the mount left it.
  pub new-IsMounted :
      (s s' : S) (v : Mounted) (fs : FileSystem S)
      → new io s ≡ (ok (v, fs), s')
      → IsMounted v fs × (fs.disk ≡ s')
  new-IsMounted s s' v fs e =
      subst (Leaves (λ r s'. IsMounted r.0 r.1 × (r.1.disk ≡ s'))) e (new-Leaves s)
