-- ===== src/FileSystem.antt =====
-- fs.rs: `FileSystem`, a mounted volume: its storage, the hints on free clusters and the flags that
-- the boot sector has on the storage.
pub mod Mount
pub mod Flags
pub mod Stats
pub mod Opening
pub mod Format
pub mod Reads
pub mod Walk
pub mod Contents
use rust_fatfs.Base.{
  ℕ, zero, suc, ◌+◌, ◌-◌, ◌*◌, ◌/◌, ◌%◌, ◌^◌, Bool, true, false, ◌==◌, ltb, if◌then◌else◌, ◌&&◌,
  ◌||◌, not, List, [], ◌∷◌, Option, some, none, min, replicate,
}
use rust_fatfs.Base.Result.{Result, ok, err, panic, stuck, M, pure, ◌>>=◌, ◌>>◌, and_then}
use rust_fatfs.FatType.{FatType, is_fat32_type}
use rust_fatfs.Status.{FsStatusFlags, encode}
use rust_fatfs.Io.{Stream, seek_start, write_all, write_u8}
use rust_fatfs.Disk
use rust_fatfs.Disk.{DiskSlice, lift_result}
use rust_fatfs.Table
use rust_fatfs.Table.{read_fat_flags, count_free_clusters}
use rust_fatfs.Chain
use rust_fatfs.Chain.{ClusterIterator, free_chain}
use rust_fatfs.FsInfo.{
  FsInfoSector, serialize, map_free_clusters, set_next_free_cluster, set_free_cluster_count,
}
use rust_fatfs.Boot.{BiosParameterBlock, status_flags, bytes_from_sectors, cluster_size}
use rust_fatfs.Boot.Geometry.{fat_slice, offset_from_cluster}

-- The fields that never change after the mount. `first_data_sector` and `root_dir_sectors` are
-- functions of `bpb`, and are computed where they are used.
pub record Mounted : Type 0 where
  pub fat_type : FatType
  pub bpb : BiosParameterBlock
  pub total_clusters : ℕ

-- The cells of the struct.
pub record FileSystem (S : Type 0) : Type 0 where
  pub disk : S
  pub fs_info : FsInfoSector
  pub current_status_flags : FsStatusFlags

pub record FileSystemStats : Type 0 where
  pub cluster_size : ℕ
  pub total_clusters : ℕ
  pub free_clusters : ℕ

-- The `==` of the derived `Eq`.
unfoldable pub same_bool : Bool → Bool → Bool
same_bool true b = b
same_bool false b = not b

unfoldable pub same_flags : FsStatusFlags → FsStatusFlags → Bool
unfolding same_bool
same_flags a b = same_bool a.dirty b.dirty && same_bool a.io_error b.io_error

-- `flags.dirty |= dirty`, on the flags read from the boot sector.
unfoldable pub flags_with : BiosParameterBlock → Bool → FsStatusFlags
unfolding status_flags
flags_with bpb dirty = let flags = status_flags bpb in record flags { dirty = flags.dirty || dirty }

-- Where the byte of the flags lies in the boot sector.
unfoldable pub flags_offset : FatType → ℕ
unfolding is_fat32_type
flags_offset fat_type = if is_fat32_type fat_type then 0x041 else 0x025

module _ {S : Type 0} where
  -- `self.disk.borrow_mut()`
  abbrev pub on_storage : {A : Type 0} → M S A → M (FileSystem S) A
  on_storage act fs = let r = act fs.disk in (r.0, record fs { disk = r.1 })

  -- With `?` where the function returns `Error`.
  abbrev pub with_io : {A : Type 0} → M (FileSystem S) A → M (FileSystem S) A
  with_io act fs = let r = act fs in (lift_result r.0, r.1)

  abbrev pub modify_info : (FsInfoSector → FsInfoSector) → M (FileSystem S) (Unit {0})
  modify_info f fs = (ok tt, record fs { fs_info = f fs.fs_info })

  abbrev pub set_current_flags : FsStatusFlags → M (FileSystem S) (Unit {0})
  set_current_flags flags fs = (ok tt, record fs { current_status_flags = flags })

module _ {S : Type 0} (io : Stream S) where
  -- `while len > 0`. A round takes a byte at least.
  unfoldable pub write_zeros_loop : ℕ → ℕ → M S (Unit {0})
  write_zeros_loop zero len s = (stuck, s)
  write_zeros_loop (suc fuel) len s = elim (len == 0) [
    | true ↦ (ok tt, s)
    | false ↦
        let write_size = min len 512 in
        and_then (write_all io (replicate write_size 0) s)
          (λ _. write_zeros_loop fuel (len - write_size))
  ]

  unfoldable pub write_zeros : ℕ → M S (Unit {0})
  unfolding write_zeros_loop
  write_zeros len = write_zeros_loop (suc len) len

  module _ (v : Mounted) where
    unfoldable pub set_dirty_flag : Bool → M (FileSystem S) (Unit {0})
    unfolding flags_with same_flags flags_offset encode
    set_dirty_flag dirty fs =
        let flags = flags_with v.bpb dirty in
        if same_flags flags fs.current_status_flags
        then (ok tt, fs)
        else (do
          on_storage (seek_start io (flags_offset v.fat_type))
          on_storage (write_u8 io (encode flags))
          set_current_flags flags)
            fs

    -- `FsIoAdapter::write`
    unfoldable pub adapter_write : List ℕ → M (FileSystem S) ℕ
    unfolding set_dirty_flag
    adapter_write buf = do
      size ← on_storage (io.write buf)
      (if ltb 0 size then set_dirty_flag true else pure tt)
      pure size

    -- `FsIoAdapter`
    unfoldable pub adapter : Stream (FileSystem S)
    unfolding adapter_write
    adapter = record {
      read = λ n. on_storage (io.read n);
      write = adapter_write;
      seek = λ pos. on_storage (io.seek pos);
    }

    -- The stream of `self.fat_slice()`.
    unfoldable pub fat_stream : Stream (DiskSlice (FileSystem S))
    unfolding adapter fat_slice Disk.stream
    fat_stream = Disk.stream adapter (fat_slice v.bpb)

    -- An operation on a new `self.fat_slice()`.
    unfoldable pub with_fat : {A : Type 0} → M (DiskSlice (FileSystem S)) A → M (FileSystem S) A
    unfolding Disk.new
    with_fat act fs = let r = act (Disk.new fs) in (r.0, r.1.inner)

    -- `cluster_iter`, and an operation on it.
    unfoldable pub with_cluster_iter :
        {A : Type 0} → ℕ → M (ClusterIterator (DiskSlice (FileSystem S))) A → M (FileSystem S) A
    unfolding Chain.new Disk.new
    with_cluster_iter cluster act fs =
        let r = act (Chain.new (Disk.new fs) cluster) in (r.0, r.1.fat.inner)

    -- What `next()` answers, the error out of the option as the callers take it.
    unfoldable pub transpose : Option (Result ℕ) → Result (Option ℕ)
    transpose none = ok none
    transpose (some (ok n)) = ok (some n)
    transpose (some (err e)) = err e
    transpose (some panic) = panic
    transpose (some stuck) = stuck

    -- `cluster_iter(cluster).next()`
    unfoldable pub next_cluster : ℕ → M (FileSystem S) (Option ℕ)
    unfolding with_cluster_iter transpose Chain.next fat_stream
    next_cluster cluster =
        with_cluster_iter cluster
          (λ it. let r = Chain.next fat_stream v.fat_type it in (transpose r.0, r.1))

    -- `|n| n + num_free`
    unfoldable pub more_free : ℕ → FsInfoSector → FsInfoSector
    unfolding map_free_clusters
    more_free num_free = map_free_clusters (λ n. (n + num_free) % 2 ^ 32)

    unfoldable pub truncate_cluster_chain : ℕ → M (FileSystem S) (Unit {0})
    unfolding with_cluster_iter Chain.truncate fat_stream more_free
    truncate_cluster_chain cluster = do
      num_free ← with_cluster_iter cluster (Chain.truncate fat_stream v.fat_type)
      modify_info (more_free num_free)

    unfoldable pub free_cluster_chain : ℕ → M (FileSystem S) (Unit {0})
    unfolding with_cluster_iter free_chain fat_stream more_free
    free_cluster_chain cluster = do
      num_free ← with_cluster_iter cluster (free_chain fat_stream v.fat_type)
      modify_info (more_free num_free)

    -- `if zero`
    unfoldable pub zero_cluster : Bool → ℕ → M (FileSystem S) (Unit {0})
    unfolding write_zeros offset_from_cluster cluster_size
    zero_cluster false cluster = pure tt
    zero_cluster true cluster = do
      with_io (on_storage (seek_start io (offset_from_cluster v.bpb cluster)))
      with_io (on_storage (write_zeros (cluster_size v.bpb)))

    -- The hint moves behind the cluster, and the count falls by one.
    unfoldable pub one_taken : ℕ → FsInfoSector → FsInfoSector
    unfolding map_free_clusters set_next_free_cluster
    one_taken cluster info =
        map_free_clusters (λ n. (n + 2 ^ 32 - 1) % 2 ^ 32)
          (set_next_free_cluster ((cluster + 1) % 2 ^ 32) info)

    unfoldable pub alloc_cluster : Option ℕ → Bool → M (FileSystem S) ℕ
    unfolding with_fat Table.alloc_cluster fat_stream zero_cluster one_taken
    alloc_cluster prev_cluster zeroed fs =
        let hint = fs.fs_info.next_free_cluster in
        (do
          cluster ←
              with_fat
                (Table.alloc_cluster fat_stream v.fat_type prev_cluster hint v.total_clusters)
          zero_cluster zeroed cluster
          modify_info (one_taken cluster)
          pure cluster)
          fs

    unfoldable pub read_status_flags : M (FileSystem S) FsStatusFlags
    unfolding with_fat read_fat_flags fat_stream status_flags
    read_status_flags = do
      fat_status ← with_fat (read_fat_flags fat_stream v.fat_type)
      pure (record {
        dirty = (status_flags v.bpb).dirty || fat_status.dirty;
        io_error = (status_flags v.bpb).io_error || fat_status.io_error;
      })

    unfoldable pub recalc_free_clusters : M (FileSystem S) ℕ
    unfolding with_fat count_free_clusters fat_stream set_free_cluster_count
    recalc_free_clusters = do
      free_cluster_count ← with_fat (count_free_clusters fat_stream v.fat_type v.total_clusters)
      modify_info (set_free_cluster_count free_cluster_count)
      pure free_cluster_count

    -- `if let Some(n) = free_clusters_option`
    unfoldable pub known_or_count : Option ℕ → M (FileSystem S) ℕ
    unfolding recalc_free_clusters
    known_or_count (some n) = pure n
    known_or_count none = recalc_free_clusters

    unfoldable pub stats : M (FileSystem S) FileSystemStats
    unfolding known_or_count cluster_size
    stats fs =
        (do
          free_clusters ← known_or_count fs.fs_info.free_cluster_count
          pure (record {
            cluster_size = cluster_size v.bpb;
            total_clusters = v.total_clusters;
            free_clusters = free_clusters;
          }))
          fs

    unfoldable pub flush_fs_info : M (FileSystem S) (Unit {0})
    unfolding is_fat32_type bytes_from_sectors serialize
    flush_fs_info fs =
        if is_fat32_type v.fat_type && fs.fs_info.dirty
        then (do
          with_io (on_storage (seek_start io (bytes_from_sectors v.bpb v.bpb.fs_info_sector)))
          with_io (on_storage (serialize io fs.fs_info))
          modify_info (λ info. record info { dirty = false }))
            fs
        else (ok tt, fs)

    -- `unmount` and the `drop` behind it.
    unfoldable pub unmount_internal : M (FileSystem S) (Unit {0})
    unfolding flush_fs_info set_dirty_flag
    unmount_internal = do flush_fs_info; with_io (set_dirty_flag false)
