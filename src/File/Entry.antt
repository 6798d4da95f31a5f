-- ===== src/File/Entry.antt =====
-- What a change of an entry leaves of its size.
use rust_fatfs.Base.{
  ℕ, ◌≡◌, ◌∙◌, ap, refl, arith, Option, some, none, Bool, true, false, if◌then◌else◌, ◌==◌,
  Bool-cases, ltb, inl, inr,
}
use rust_fatfs.FatType.{FatType}
use rust_fatfs.Time.{Date, DateTime}
use rust_fatfs.DirEntry.{DirFileEntryData, file_size, set_first_cluster, set_modified, set_accessed}
use rust_fatfs.DirEntry.Editor.{
  DirEntryEditor, change, edit_first_cluster, edit_size, edit_known_size, edit_accessed,
  edit_modified,
}
use rust_fatfs.File.{Volume, truncate_entry}
use rust_fatfs.File.Transfer.{grow, grow_known}
use rust_fatfs.File.{size_of}

size-change :
    (same : Bool) (entry : DirFileEntryData) (e : DirEntryEditor)
    → file_size entry ≡ file_size e.entry
    → file_size (change same entry e).entry ≡ file_size e.entry
unfolding change
size-change true entry e h = refl
size-change false entry e h = h

pub size-edit_first_cluster :
    (c : Option ℕ) (t : FatType) (e : DirEntryEditor)
    → size_of (some (edit_first_cluster c t e)) ≡ size_of (some e)
unfolding edit_first_cluster size_of set_first_cluster
size-edit_first_cluster c t e = size-change _ _ e refl

pub size-edit_modified :
    (d : DateTime) (e : DirEntryEditor) → size_of (some (edit_modified d e)) ≡ size_of (some e)
unfolding edit_modified size_of set_modified
size-edit_modified d e = size-change _ _ e refl

pub size-edit_accessed :
    (d : Date) (e : DirEntryEditor) → size_of (some (edit_accessed d e)) ≡ size_of (some e)
unfolding edit_accessed size_of set_accessed
size-edit_accessed d e = size-change _ _ e refl

-- The size of a file is what was set; a directory has none.
unfoldable pub resize : ℕ → Option ℕ → Option ℕ
resize n none = none
resize n (some s) = some n

pub size-edit_size :
    (n : ℕ) (e : DirEntryEditor) → size_of (some (edit_size n e)) ≡ resize n (size_of (some e))
unfolding edit_size edit_known_size change size_of file_size resize
size-edit_size n e = ground arith

module _ {S : Type 0} (v : Volume S) where
  pub size-truncate_entry :
      (n : ℕ) (e : DirEntryEditor)
      → size_of (some (truncate_entry v n e)) ≡ resize n (size_of (some e))
  unfolding truncate_entry
  size-truncate_entry n e = elim (Bool-cases (n == 0)) [
    | inl empty ↦
        rw empty (size-edit_first_cluster none v.fat_type (edit_size n e) ∙ size-edit_size n e)
    | inr kept ↦ rw kept (size-edit_size n e)
  ]

  -- The larger of the size and the offset.
  pub size-grow :
      (n : ℕ) (e : DirEntryEditor) (s : ℕ)
      → size_of (some e) ≡ some s
      → size_of (some (grow v n e)) ≡ some (if ltb s n then n else s)
  unfolding grow grow_known resize
  size-grow n e s h = elim (Bool-cases (ltb s n)) [
    | inl more ↦ rw (h, more) (size-edit_size n e ∙ ap (resize n) h)
    | inr less ↦ rw (h, less) h
  ]
