-- ===== src/File/Seek.antt =====
-- file.rs: `seek`.
use rust_fatfs.Base.{ℕ, zero, suc, ◌+◌, ◌-◌, ◌%◌, ◌^◌, ◌==◌, ltb, if◌then◌else◌, Option, some, none}
use rust_fatfs.Base.Int.{checked_offset}
use rust_fatfs.Base.Result.{Result, ok, err, panic, stuck, invalid_input, M, pure, ◌>>=◌, ◌>>◌}
use rust_fatfs.Io.{SeekFrom, start, end, current}
use rust_fatfs.File.{Volume, File, Opened, on_fs, modify_file, size_of}

-- The new offset as a `u32`, before it is compared with the size.
unfoldable pub seek_target : SeekFrom → File → Option ℕ
unfolding size_of
seek_target (current x) file = checked_offset (2 ^ 32) file.offset x
seek_target (start x) file = if ltb x (2 ^ 32) then some x else none
seek_target (end o) file = elim (size_of file.entry) [
  | none ↦ none
  | some s ↦ checked_offset (2 ^ 32) s o
]

-- A seek past the end of a file of known size goes to its end.
unfoldable pub clamp_to : Option ℕ → ℕ → ℕ
clamp_to none new_offset = new_offset
clamp_to (some size) new_offset = if ltb size new_offset then size else new_offset

unfoldable pub place : ℕ → Option ℕ → File → File
place offset cluster file = record file { offset = offset; current_cluster = cluster }

module _ {S : Type 0} (v : Volume S) where
  -- `for i in 0..clusters_to_skip`, with `left` clusters to go: the cluster that is reached, and the
  -- offset, another one if the chain ends before.
  unfoldable pub skip_next :
      (ℕ → M (Opened S) (ℕ × ℕ)) → ℕ → ℕ → Result (Option ℕ) × Opened S → Result (ℕ × ℕ) × Opened S
  skip_next again i cluster (ok (some n), o) = again n o
  skip_next again i cluster (ok none, o) = (ok (cluster, v.bytes_from_clusters (i + 1) % 2 ^ 32), o)
  skip_next again i cluster (err e, o) = (err e, o)
  skip_next again i cluster (panic, o) = (panic, o)
  skip_next again i cluster (stuck, o) = (stuck, o)

  unfoldable pub skip_clusters : ℕ → ℕ → ℕ → ℕ → M (Opened S) (ℕ × ℕ)
  unfolding skip_next
  skip_clusters zero i new_offset cluster o = (ok (cluster, new_offset), o)
  skip_clusters (suc left) i new_offset cluster o =
      skip_next (skip_clusters left (i + 1) new_offset) i cluster (on_fs (v.next_cluster cluster) o)

  unfoldable pub seek_chain : Option ℕ → ℕ → ℕ → M (Opened S) ℕ
  unfolding skip_clusters place
  seek_chain none new_offset new_in_clusters = do modify_file (place 0 none); pure 0
  seek_chain (some first_cluster) new_offset new_in_clusters = do
    (cluster, offset) ← skip_clusters (new_in_clusters - 1) 0 new_offset first_cluster
    modify_file (place offset (some cluster))
    pure offset

  -- The offset is not the old one.
  unfoldable pub seek_to : ℕ → M (Opened S) ℕ
  unfolding seek_chain place
  seek_to new_offset o =
      let new_in_clusters = v.clusters_from_bytes new_offset in
      let old_in_clusters = v.clusters_from_bytes o.file.offset in
      if new_offset == 0
      then (ok 0, record o { file = place 0 none o.file })
      else if new_in_clusters == old_in_clusters
      then (ok new_offset, record o { file = place new_offset o.file.current_cluster o.file })
      else seek_chain o.file.first_cluster new_offset new_in_clusters o

  unfoldable pub seek_at : Option ℕ → M (Opened S) ℕ
  unfolding clamp_to seek_to
  seek_at none o = (err invalid_input, o)
  seek_at (some target) o =
      let new_offset = clamp_to (size_of o.file.entry) target in
      if new_offset == o.file.offset then (ok o.file.offset, o) else seek_to new_offset o

  -- `Seek::seek`
  unfoldable pub seek : SeekFrom → M (Opened S) ℕ
  unfolding seek_target seek_at
  seek pos o = seek_at (seek_target pos o.file) o
