-- ===== src/File/Transfer.antt =====
-- file.rs: `read` and `write`. A buffer to read into is its length.
use rust_fatfs.Base.{
  ℕ, zero, suc, ◌+◌, ◌-◌, ◌%◌, ◌^◌, true, ◌==◌, ltb, if◌then◌else◌, List, [], ◌∷◌, Option, some,
  none, length, min, take,
}
use rust_fatfs.Base.Result.{ok, panic, M, pure, ◌>>=◌, ◌>>◌}
use rust_fatfs.Io.{seek_start}
use rust_fatfs.DirEntry.Editor.{DirEntryEditor, edit_size, edit_accessed, edit_modified}
use rust_fatfs.File.{
  Volume, File, Opened, on_fs, on_disk, modify_file, size_of, is_dir_entry, edit_entry,
  bytes_left_in_file, set_first_cluster, max_file_size,
}

-- `unwrap_or`
abbrev pub value_or : ℕ → Option ℕ → ℕ
value_or d none = d
value_or d (some n) = n

module _ {S : Type 0} (v : Volume S) where
  -- The cluster behind the current one, the first one at the start of the file.
  unfoldable pub cluster_after : Option ℕ → M (Opened S) (Option ℕ)
  cluster_after none o = (ok o.file.first_cluster, o)
  cluster_after (some n) o = on_fs (v.next_cluster n) o

  unfoldable pub cluster_to_read : M (Opened S) (Option ℕ)
  unfolding cluster_after
  cluster_to_read o =
      if o.file.offset % v.cluster_size == 0
      then cluster_after o.file.current_cluster o
      else (ok o.file.current_cluster, o)

  unfoldable pub bytes_left_in_cluster : File → ℕ
  bytes_left_in_cluster file = v.cluster_size - file.offset % v.cluster_size

  unfoldable pub read_size : ℕ → File → ℕ
  unfolding bytes_left_in_cluster bytes_left_in_file
  read_size n file =
      let in_cluster = bytes_left_in_cluster file in
      min (min n in_cluster) (value_or in_cluster (bytes_left_in_file file))

  unfoldable pub move_to : ℕ → ℕ → File → File
  move_to cluster count file = record file {
    offset = (file.offset + count) % 2 ^ 32;
    current_cluster = some cluster;
  }

  -- `if self.fs.options.update_accessed_date`
  unfoldable pub update_accessed : Opened S → Opened S
  unfolding edit_accessed
  update_accessed o =
      if v.update_accessed_date
      then record o {
        file = record (o.file) { entry = edit_entry (edit_accessed (v.today o.fs)) o.file.entry };
      }
      else o

  -- Behind the read of the storage.
  unfoldable pub finish_read : ℕ → List ℕ → M (Opened S) (List ℕ)
  unfolding move_to update_accessed
  finish_read cluster [] o = (ok [], o)
  finish_read cluster (b ∷ bytes) o = (
    ok (b ∷ bytes),
    update_accessed (record o { file = move_to cluster (length (b ∷ bytes)) o.file }),
  )

  unfoldable pub read_from : ℕ → ℕ → M (Opened S) (List ℕ)
  read_from n cluster o =
      let count = read_size n o.file in
      if count == 0
      then (ok [], o)
      else (do
        on_disk (seek_start v.disk (v.offset_from_cluster cluster + o.file.offset % v.cluster_size))
        bytes ← on_disk (v.disk.read count)
        finish_read cluster bytes)
          o

  unfoldable pub read_at : ℕ → Option ℕ → M (Opened S) (List ℕ)
  unfolding read_from
  read_at n none = pure []
  read_at n (some cluster) = read_from n cluster

  -- `Read::read`
  unfoldable pub read : ℕ → M (Opened S) (List ℕ)
  unfolding cluster_to_read read_at
  read n = do cluster ← cluster_to_read; read_at n cluster

  unfoldable pub write_size : List ℕ → File → ℕ
  unfolding bytes_left_in_cluster
  write_size buf file =
      min (min (length buf) (bytes_left_in_cluster file))
        ((max_file_size + 2 ^ 32 - file.offset) % 2 ^ 32)

  -- `if self.first_cluster.is_none() { self.set_first_cluster(new_cluster); }`
  unfoldable pub start_at : Option ℕ → ℕ → File → File
  unfolding set_first_cluster
  start_at none new_cluster file = set_first_cluster v new_cluster file
  start_at (some n) new_cluster file = file

  unfoldable pub start_chain : ℕ → File → File
  unfolding start_at
  start_chain new_cluster file = start_at file.first_cluster new_cluster file

  unfoldable pub cluster_or_new : Option ℕ → M (Opened S) ℕ
  unfolding start_chain
  cluster_or_new (some n) o = (ok n, o)
  cluster_or_new none o =
      (do
        new_cluster ← on_fs (v.alloc_cluster o.file.current_cluster (is_dir_entry o.file.entry))
        modify_file (start_chain new_cluster)
        pure new_cluster)
        o

  unfoldable pub current_or_panic : Option ℕ → M (Opened S) ℕ
  current_or_panic (some n) o = (ok n, o)
  current_or_panic none o = (panic, o)

  unfoldable pub cluster_to_write : M (Opened S) ℕ
  unfolding cluster_after cluster_or_new current_or_panic
  cluster_to_write o =
      if o.file.offset % v.cluster_size == 0
      then (do next ← cluster_after o.file.current_cluster; cluster_or_new next) o
      else current_or_panic o.file.current_cluster o

  -- `size().map_or(false, |s| offset > s)`
  unfoldable pub grow_known : Option ℕ → ℕ → DirEntryEditor → DirEntryEditor
  unfolding edit_size
  grow_known none offset e = e
  grow_known (some s) offset e = if ltb s offset then edit_size offset e else e

  unfoldable pub grow : ℕ → DirEntryEditor → DirEntryEditor
  unfolding grow_known
  grow offset e = grow_known (size_of (some e)) offset e

  unfoldable pub update_dir_entry_after_write : Opened S → Opened S
  unfolding grow edit_modified
  update_dir_entry_after_write o = record o {
    file = record (o.file) {
      entry = edit_entry (λ e. grow o.file.offset (edit_modified (v.now o.fs) e)) o.file.entry;
    };
  }

  -- Behind the write to the storage.
  unfoldable pub finish_write : ℕ → ℕ → M (Opened S) ℕ
  unfolding move_to update_dir_entry_after_write
  finish_write cluster zero o = (ok 0, o)
  finish_write cluster (suc n) o = (
    ok (suc n),
    update_dir_entry_after_write (record o { file = move_to cluster (suc n) o.file }),
  )

  unfoldable pub write_to : List ℕ → ℕ → ℕ → M (Opened S) ℕ
  unfolding finish_write
  write_to buf count cluster o =
      (do
        on_disk (seek_start v.disk (v.offset_from_cluster cluster + o.file.offset % v.cluster_size))
        written ← on_disk (v.disk.write (take count buf))
        finish_write cluster written)
        o

  -- `Write::write`
  unfoldable pub write : List ℕ → M (Opened S) ℕ
  unfolding write_size cluster_to_write write_to
  write buf o =
      let count = write_size buf o.file in
      if count == 0
      then (ok 0, o)
      else (do
        on_disk (v.set_dirty_flag true)
        cluster ← cluster_to_write
        write_to buf count cluster)
          o
