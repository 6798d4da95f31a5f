-- ===== src/File.antt =====
-- file.rs: `File`, over the operations of the file system that it calls.
pub mod Seek
pub mod Transfer
pub mod Extents
pub mod Valid
pub mod Entry
pub mod Reading
pub mod Writing
pub mod Seeking
pub mod Invariant
pub mod Frozen
pub mod Content
pub mod Refinement
use rust_fatfs.Base.{
  ℕ, zero, suc, ◌+◌, ◌-◌, ◌*◌, ◌/◌, ◌%◌, ◌^◌, ◌≤◌, ◌<◌, ◌≡◌, ◌≢◌, ◌⊎◌, inl, inr, refl, ◌∙◌, sym, ap,
  arith, bit_and, bit_or, Bool, true, false, ◌==◌, ltb, leb, if◌then◌else◌, Bool-cases, lt→ltb,
  ltb→lt, le→ltb, ltb→le, Option-cases, ◌&&◌, ◌||◌, not, List, [], ◌∷◌, ◌++◌, Option, some, none,
  length, All, ◌↔◌, min, max, map, take, drop, replicate, drop-length, take-length, length-append,
}
use rust_fatfs.Base.Result.{
  Result, ok, err, panic, stuck, M, pure, fail_panic, and_then, ◌>>=◌, ◌>>◌,
}
use rust_fatfs.FatType.{FatType}
use rust_fatfs.Time.{Date, DateTime}
use rust_fatfs.Io.{Stream}
use rust_fatfs.Disk.{lift_result}
use rust_fatfs.DirEntry.{DirFileEntryData, is_dir, file_size}
use rust_fatfs.DirEntry.Editor.{
  DirEntryEditor, flush, edit_first_cluster, edit_size, edit_created, edit_accessed, edit_modified,
}

-- What a file calls of its file system: `next_cluster n` is `cluster_iter(n).next()`, `disk` the
-- storage, `now` and `today` the time provider.
pub record Volume (S : Type 0) : Type 0 where
  pub fat_type : FatType
  pub cluster_size : ℕ
  pub update_accessed_date : Bool
  pub offset_from_cluster : ℕ → ℕ
  pub bytes_from_clusters : ℕ → ℕ
  pub clusters_from_bytes : ℕ → ℕ
  pub next_cluster : ℕ → M S (Option ℕ)
  pub alloc_cluster : Option ℕ → Bool → M S ℕ
  pub truncate_cluster_chain : ℕ → M S (Unit {0})
  pub free_cluster_chain : ℕ → M S (Unit {0})
  pub set_dirty_flag : Bool → M S (Unit {0})
  pub disk : Stream S
  pub flush_disk : M S (Unit {0})
  pub now : S → DateTime
  pub today : S → Date

abbrev pub max_file_size : ℕ
max_file_size = 0xFFFF_FFFF

pub record File : Type 0 where
  pub first_cluster : Option ℕ
  pub current_cluster : Option ℕ
  pub offset : ℕ
  pub entry : Option DirEntryEditor

-- A file and the file system that it refers to.
pub record Opened (S : Type 0) : Type 0 where
  pub file : File
  pub fs : S

unfoldable pub new_file_at : Option ℕ → Option DirEntryEditor → File
new_file_at first_cluster entry = record {
  first_cluster = first_cluster;
  current_cluster = none;
  offset = 0;
  entry = entry;
}

-- `self.size()`, `self.is_dir()` and `self.is_root_dir()`, on the entry.
unfoldable pub size_of : Option DirEntryEditor → Option ℕ
unfolding file_size
size_of none = none
size_of (some e) = file_size e.entry

unfoldable pub is_dir_entry : Option DirEntryEditor → Bool
unfolding is_dir
is_dir_entry none = true
is_dir_entry (some e) = is_dir e.entry

unfoldable pub is_root_dir : File → Bool
is_root_dir file = elim file.entry [ none ↦ true | some e ↦ false ]

-- `if let Some(ref mut e) = self.entry`
abbrev pub edit_entry :
    (DirEntryEditor → DirEntryEditor) → Option DirEntryEditor → Option DirEntryEditor
edit_entry f none = none
edit_entry f (some e) = some (f e)

unfoldable pub set_file_created : DateTime → File → File
unfolding edit_created
set_file_created date_time file = record file {
  entry = edit_entry (edit_created date_time) file.entry;
}

unfoldable pub set_file_accessed : Date → File → File
unfolding edit_accessed
set_file_accessed date file = record file { entry = edit_entry (edit_accessed date) file.entry }

unfoldable pub set_file_modified : DateTime → File → File
unfolding edit_modified
set_file_modified date_time file = record file {
  entry = edit_entry (edit_modified date_time) file.entry;
}

-- `usize` arithmetic on `u32` values: the subtraction wraps around.
unfoldable pub left_of : Option ℕ → ℕ → Option ℕ
left_of none offset = none
left_of (some s) offset = some ((s + 2 ^ 32 - offset) % 2 ^ 32)

unfoldable pub bytes_left_in_file : File → Option ℕ
unfolding left_of
bytes_left_in_file file = left_of (size_of file.entry) file.offset

module _ {S : Type 0} where
  abbrev pub on_fs : {A : Type 0} → M S A → M (Opened S) A
  on_fs m o = let r = m o.fs in (r.0, record o { fs = r.1 })

  -- A call on the storage, with `?`.
  abbrev pub on_disk : {A : Type 0} → M S A → M (Opened S) A
  on_disk m o = let r = m o.fs in (lift_result r.0, record o { fs = r.1 })

  abbrev pub modify_file : (File → File) → M (Opened S) (Unit {0})
  modify_file f o = (ok tt, record o { file = f o.file })

  module _ (v : Volume S) where
    unfoldable pub set_first_cluster : ℕ → File → File
    unfolding edit_first_cluster
    set_first_cluster cluster file = record file {
      first_cluster = some cluster;
      entry = edit_entry (edit_first_cluster (some cluster) v.fat_type) file.entry;
    }

    -- The position after the previous cluster where the offset lies between clusters.
    unfoldable pub abs_pos : File → Option ℕ
    abs_pos file = elim file.current_cluster [
      | none ↦ none
      | some n ↦
          let in_cluster = file.offset % v.cluster_size in
          some (v.offset_from_cluster n + (if in_cluster == 0 then v.cluster_size else in_cluster))
    ]

    -- `truncate` on the entry: the size, and no first cluster for an empty file.
    unfoldable pub truncate_entry : ℕ → DirEntryEditor → DirEntryEditor
    unfolding edit_size edit_first_cluster
    truncate_entry offset e =
        let sized = edit_size offset e in
        if offset == 0 then edit_first_cluster none v.fat_type sized else sized

    unfoldable pub truncate_chain : Option ℕ → Option ℕ → M (Opened S) (Unit {0})
    truncate_chain (some current_cluster) first_cluster =
        on_fs (v.truncate_cluster_chain current_cluster)
    truncate_chain none (some n) = do
      on_fs (v.free_cluster_chain n)
      modify_file (λ file. record file { first_cluster = none })
    truncate_chain none none = pure tt

    unfoldable pub truncate_with : Option DirEntryEditor → M (Opened S) (Unit {0})
    unfolding truncate_entry truncate_chain
    truncate_with none o = (panic, o)
    truncate_with (some e) o =
        truncate_chain o.file.current_cluster o.file.first_cluster
          (record o { file = record (o.file) { entry = some (truncate_entry o.file.offset e) } })

    unfoldable pub truncate : M (Opened S) (Unit {0})
    unfolding truncate_with
    truncate o = truncate_with o.file.entry o

    unfoldable pub flush_dir_entry : M (Opened S) (Unit {0})
    unfolding flush
    flush_dir_entry o = elim o.file.entry [
      | none ↦ (ok tt, o)
      | some e ↦
          (do e' ← on_disk (flush v.disk e); modify_file (λ file. record file { entry = some e' }))
            o
    ]

    unfoldable pub flush_file : M (Opened S) (Unit {0})
    unfolding flush_dir_entry
    flush_file = do flush_dir_entry; on_disk v.flush_disk
