-- ===== src/DirEntry/Editor.antt =====
-- dir_entry.rs: `DirEntryEditor`, an entry with its place on the disk and a mark of change.
use rust_fatfs.Base.{ℕ, Bool, true, false, ◌==◌, if◌then◌else◌, ◌&&◌, Option, some, none}
use rust_fatfs.Base.Result.{M, pure, ◌>>◌}
use rust_fatfs.FatType.{FatType}
use rust_fatfs.Io.{Stream, seek_start}
use rust_fatfs.Time.{Date, DateTime}
use rust_fatfs.DirEntry.{
  DirFileEntryData, first_cluster, set_first_cluster, file_size, created, set_created, accessed,
  set_accessed, modified, set_modified,
}
use rust_fatfs.DirEntry.Codec.{serialize_file}

pub record DirEntryEditor : Type 0 where
  pub entry : DirFileEntryData
  pub pos : ℕ
  pub dirty : Bool

unfoldable pub new_editor : DirFileEntryData → ℕ → DirEntryEditor
new_editor entry pos = record { entry = entry; pos = pos; dirty = false }

-- `==` of the derived `PartialEq`.
unfoldable pub same_cluster : Option ℕ → Option ℕ → Bool
same_cluster none none = true
same_cluster (some m) (some n) = m == n
same_cluster _ _ = false

unfoldable pub same_date : Date → Date → Bool
same_date a b = (a.year == b.year) && (a.month == b.month) && (a.day == b.day)

unfoldable pub same_date_time : DateTime → DateTime → Bool
unfolding same_date
same_date_time a b =
    same_date a.date b.date
    && (a.time.hour == b.time.hour)
    && (a.time.min == b.time.min)
    && (a.time.sec == b.time.sec)
    && (a.time.millis == b.time.millis)

-- `if value != old { .. self.dirty = true }`
unfoldable pub change : Bool → DirFileEntryData → DirEntryEditor → DirEntryEditor
change same entry editor = if same then editor else record editor { entry = entry; dirty = true }

unfoldable pub edit_first_cluster : Option ℕ → FatType → DirEntryEditor → DirEntryEditor
unfolding change same_cluster first_cluster set_first_cluster
edit_first_cluster cluster fat_type editor =
    change (same_cluster cluster (first_cluster editor.entry fat_type))
      (set_first_cluster editor.entry cluster fat_type) editor

-- `match self.data.size()`: the size of a directory is not set.
unfoldable pub edit_known_size : Option ℕ → ℕ → DirEntryEditor → DirEntryEditor
unfolding change
edit_known_size none size editor = editor
edit_known_size (some n) size editor =
    change (size == n) (record (editor.entry) { size = size }) editor

unfoldable pub edit_size : ℕ → DirEntryEditor → DirEntryEditor
unfolding edit_known_size file_size
edit_size size editor = edit_known_size (file_size editor.entry) size editor

unfoldable pub edit_created : DateTime → DirEntryEditor → DirEntryEditor
unfolding change same_date_time created set_created
edit_created date_time editor =
    change (same_date_time date_time (created editor.entry)) (set_created editor.entry date_time)
      editor

unfoldable pub edit_accessed : Date → DirEntryEditor → DirEntryEditor
unfolding change same_date accessed set_accessed
edit_accessed date editor =
    change (same_date date (accessed editor.entry)) (set_accessed editor.entry date) editor

unfoldable pub edit_modified : DateTime → DirEntryEditor → DirEntryEditor
unfolding change same_date_time modified set_modified
edit_modified date_time editor =
    change (same_date_time date_time (modified editor.entry)) (set_modified editor.entry date_time)
      editor

-- `flush`, with the editor that it leaves; on an error that is the old one.
unfoldable pub flush : {S : Type 0} → Stream S → DirEntryEditor → M S DirEntryEditor
flush stream editor =
    if editor.dirty
    then (do
      seek_start stream editor.pos
      serialize_file stream editor.entry
      pure (record editor { dirty = false }))
    else pure editor
