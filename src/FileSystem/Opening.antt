-- ===== src/FileSystem/Opening.antt =====
-- fs.rs: the operations of `FileSystem` that file.rs calls, and the laws that files rely on.
use rust_fatfs.Base.{ℕ, ◌+◌, ◌-◌, ◌*◌, ◌/◌, ◌%◌, ◌^◌, ◌≤◌, ◌<◌, ◌≡◌, arith, Bool, List, length}
use rust_fatfs.Base.{Bool-cases, inl, inr, ltb}
use native.Mathlib.Nat.{mul-le-mul_left, mul-le-mul_right, div-mul-le_self}
use rust_fatfs.FileSystem.Mount.{new, new-IsMounted}
use rust_fatfs.File.{Opened}
use rust_fatfs.File.Invariant.{Steps, Steps-IsValid}
use rust_fatfs.File.Valid.{IsValid}
use rust_fatfs.Boot.Regions.{power_pos}
use rust_fatfs.Base.Result.{M, ok}
use rust_fatfs.Io.{Stream}
use rust_fatfs.Time.{DateTime, Date}
use rust_fatfs.Boot.{
  BiosParameterBlock, cluster_size, clusters_from_bytes, sectors_from_clusters, bytes_from_sectors,
}
use rust_fatfs.Boot.Geometry.{offset_from_cluster, bytes_from_clusters}
use rust_fatfs.Boot.Valid as Valid
use rust_fatfs.File.{Volume}
use rust_fatfs.File.Valid.{IsVolume, IsShort, AtMost}
use rust_fatfs.FileSystem.{
  Mounted, FileSystem, on_storage, next_cluster, alloc_cluster, truncate_cluster_chain,
  free_cluster_chain, set_dirty_flag,
}

-- The time provider is outside code, which answers by a state of its own.
pub record FsOptions (S : Type 0) : Type 0 where
  pub update_accessed_date : Bool
  pub get_current_date_time : S → DateTime
  pub get_current_date : S → Date

module _ {S : Type 0} (io : Stream S) (flush : M S (Unit {0})) (options : FsOptions S)
    (v : Mounted) where
  unfoldable pub volume : Volume (FileSystem S)
  unfolding cluster_size offset_from_cluster bytes_from_clusters clusters_from_bytes next_cluster
      alloc_cluster truncate_cluster_chain free_cluster_chain set_dirty_flag
  volume = record {
    fat_type = v.fat_type;
    cluster_size = cluster_size v.bpb;
    update_accessed_date = options.update_accessed_date;
    offset_from_cluster = offset_from_cluster v.bpb;
    bytes_from_clusters = bytes_from_clusters v.bpb;
    clusters_from_bytes = clusters_from_bytes v.bpb;
    next_cluster = next_cluster io v;
    alloc_cluster = alloc_cluster io v;
    truncate_cluster_chain = truncate_cluster_chain io v;
    free_cluster_chain = free_cluster_chain io v;
    set_dirty_flag = set_dirty_flag io v;
    disk = record {
      read = λ n. on_storage (io.read n);
      write = λ bytes. on_storage (io.write bytes);
      seek = λ pos. on_storage (io.seek pos);
    };
    flush_disk = on_storage flush;
    now = λ fs. options.get_current_date_time fs.disk;
    today = λ fs. options.get_current_date fs.disk;
  }

div_wrapped :
    (n c : ℕ)
    → n < 2 ^ 32
    → 0 < c
    → c < 2 ^ 63
    → (n + c + 2 ^ 64 - 1) % 2 ^ 64 / c % 2 ^ 32 ≡ (n + c - 1) / c
div_wrapped n c h pos le =
    let inside : (n + c + 2 ^ 64 - 1) % 2 ^ 64 ≡ n + c - 1 = omega arith in
    let q = (n + c - 1) / c in
    let whole : q * c ≤ n + c - 1 = div-mul-le_self (n + c - 1) c in
    elim (Bool-cases (ltb q (2 ^ 32))) [
      | inl t ↦ let small : q < 2 ^ 32 = ground arith in rw inside (omega arith)
      | inr f ↦
          let many : 2 ^ 32 * c ≤ q * c = mul-le-mul_right c (ground arith) in absurd (omega arith)
    ]

-- Clusters and bytes of a valid block, without the wrap-around.
module _ (bpb : BiosParameterBlock) (valid : Valid.IsValid bpb)
    (byte : bpb.sectors_per_cluster < 256) where
  pub cluster_size_pos : 0 < cluster_size bpb
  unfolding cluster_size
  cluster_size_pos =
      let some_sectors = power_pos bpb.sectors_per_cluster valid.cluster_power in
      let least : 1 * bpb.bytes_per_sector ≤ bpb.sectors_per_cluster * bpb.bytes_per_sector =
        mul-le-mul_right bpb.bytes_per_sector some_sectors in
      omega (arith, valid.sector_min)

  cluster_size_lt : cluster_size bpb < 2 ^ 63
  unfolding cluster_size
  cluster_size_lt =
      let most : bpb.sectors_per_cluster * bpb.bytes_per_sector ≤ 255 * bpb.bytes_per_sector =
        mul-le-mul_right bpb.bytes_per_sector (omega arith) in
      omega (arith, valid.sector_max)

  clusters_from_bytes-eq :
      (n : ℕ)
      → n < 2 ^ 32
      → clusters_from_bytes bpb n ≡ (n + cluster_size bpb - 1) / cluster_size bpb
  unfolding clusters_from_bytes
  clusters_from_bytes-eq n h = div_wrapped n (cluster_size bpb) h cluster_size_pos cluster_size_lt

  bytes_from_clusters-eq :
      (n : ℕ) → n * cluster_size bpb < 2 ^ 32 → bytes_from_clusters bpb n ≡ n * cluster_size bpb
  unfolding bytes_from_clusters bytes_from_sectors sectors_from_clusters cluster_size
  bytes_from_clusters-eq n h =
      let more : n * bpb.sectors_per_cluster * 1
          ≤ n * bpb.sectors_per_cluster * bpb.bytes_per_sector =
        mul-le-mul_left (n * bpb.sectors_per_cluster) (omega (arith, valid.sector_min)) in
      let inside : n * bpb.sectors_per_cluster % 2 ^ 32 ≡ n * bpb.sectors_per_cluster =
        omega arith in
      rw inside (omega arith)

-- A storage whose transfers are no longer than what is asked for.
pub record IsModest {S : Type 0} (io : Stream S) : Type 0 where
  pub read_short : (n : ℕ) (s : S) → IsShort n (io.read n s).0
  pub write_short : (bytes : List ℕ) (s : S) → AtMost (length bytes) (io.write bytes s).0

-- A mounted file system with a valid boot sector, whose clusters are at most 255 sectors, on a
-- storage whose transfers are no longer than what is asked for, keeps the laws that open files rely
-- on: clusters are not empty, and bytes and clusters are converted without loss below 2 ^ 32.
pub volume-IsVolume :
    {S : Type 0} (io : Stream S) (flush : M S (Unit {0})) (options : FsOptions S) (v : Mounted)
    → Valid.IsValid v.bpb
    → v.bpb.sectors_per_cluster < 256
    → IsModest io
    → IsVolume (volume io flush options v)
unfolding volume
volume-IsVolume io flush options v valid byte modest = record {
  cluster_size_pos = cluster_size_pos v.bpb valid byte;
  clusters_from_bytes-eq = clusters_from_bytes-eq v.bpb valid byte;
  bytes_from_clusters-eq = bytes_from_clusters-eq v.bpb valid byte;
  read_short = λ n fs. modest.read_short n fs.disk;
  write_short = λ bytes fs. modest.write_short bytes fs.disk;
}

-- From a mount on: on such a storage, when `new` has returned a volume, reads, writes, seeks and
-- truncations of a file of known size on it, in any order and with any outcomes, keep the file's
-- offset within its size and its current cluster unset exactly at offset 0.
pub mounted_Steps-IsValid :
    {S : Type 0} (io : Stream S) (flush : M S (Unit {0})) (options : FsOptions S)
    → IsModest io
    → (s s' : S) (v : Mounted) (fs : FileSystem S) → new io s ≡ (ok (v, fs), s')
    → v.bpb.sectors_per_cluster < 256
    → {o p : Opened (FileSystem S)} → IsValid o.file
    → Steps (volume io flush options v) o p
    → IsValid p.file
mounted_Steps-IsValid io flush options modest s s' v fs e byte z steps =
    let (is_mounted, _) = new-IsMounted io s s' v fs e in
    Steps-IsValid (volume io flush options v)
      (volume-IsVolume io flush options v is_mounted.valid byte modest) z steps
