-- ===== src/FileSystem/Stats.antt =====
-- fs.rs: `stats` counts once, and `unmount_internal` writes once.
use rust_fatfs.Base.{arith, ℕ, sym, ap, ◌∙◌, ◌≡◌, refl, Option, some, none}
use rust_fatfs.Base.Result.{ok}
use rust_fatfs.Base.Outcome.{and_then-ok, ok-parts}
use rust_fatfs.Io.{Stream}
use rust_fatfs.FsInfo.{set_free_cluster_count}
use rust_fatfs.Base.Result.{pure, ◌>>◌}
use rust_fatfs.Boot.{cluster_size}
use rust_fatfs.Table.{count_free_clusters}
use rust_fatfs.FileSystem.{
  Mounted, FileSystem, FileSystemStats, known_or_count, recalc_free_clusters, stats, with_fat,
  fat_stream, modify_info,
}

module _ {S : Type 0} (io : Stream S) (v : Mounted) where
  recalc-known :
      (fs fs' : FileSystem S) {n : ℕ}
      → recalc_free_clusters io v fs ≡ (ok n, fs')
      → fs'.fs_info.free_cluster_count ≡ some n
  unfolding recalc_free_clusters set_free_cluster_count
  recalc-known fs fs' e =
      let (k, (fs1, first, rest)) =
        and_then-ok
          (with_fat io v (count_free_clusters (fat_stream io v) v.fat_type v.total_clusters) fs)
          (λ k. do modify_info (set_free_cluster_count k); pure k) e in
      let (same, moved) = ok-parts rest in rw (sym moved, sym same) refl

  known_or_count-known :
      (count : Option ℕ) (fs fs' : FileSystem S) {n : ℕ}
      → fs.fs_info.free_cluster_count ≡ count
      → known_or_count io v count fs ≡ (ok n, fs')
      → fs'.fs_info.free_cluster_count ≡ some n
  unfolding known_or_count
  known_or_count-known none fs fs' known e = recalc-known fs fs' e
  known_or_count-known (some k) fs fs' known e = ground (arith, known, e)

  -- On every storage: when `stats` has returned numbers, the next call returns the same numbers and
  -- touches neither the storage nor any field.
  pub stats-stats :
      (fs fs' : FileSystem S) {numbers : FileSystemStats}
      → stats io v fs ≡ (ok numbers, fs')
      → stats io v fs' ≡ (ok numbers, fs')
  unfolding stats known_or_count
  stats-stats fs fs' e =
      let (n, (fs1, first, rest)) =
        and_then-ok (known_or_count io v fs.fs_info.free_cluster_count fs)
          (λ free_clusters. pure (record {
            cluster_size = cluster_size v.bpb;
            total_clusters = v.total_clusters;
            free_clusters = free_clusters;
          }))
          e in
      let known = known_or_count-known fs.fs_info.free_cluster_count fs fs1 refl first in
      let (same, moved) = ok-parts rest in
      let again : stats io v fs1 ≡ (ok _, fs1) = rw known refl in
      ap (stats io v) (sym moved) ∙ again ∙ rest
