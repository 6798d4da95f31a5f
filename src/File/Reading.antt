-- ===== src/File/Reading.antt =====
-- A read keeps an open file valid, whatever the file system answers.
use rust_fatfs.Base.{
  ℕ, ◌+◌, ◌%◌, ◌≤◌, ◌<◌, ◌≡◌, ◌∙◌, arith, List, [], ◌∷◌, length, Option, some, none, ◌==◌,
  Bool-cases, inl, inr,
}
use rust_fatfs.DirEntry.Editor.{DirEntryEditor}
use rust_fatfs.File.{
  Volume, File, Opened, on_disk, size_of, edit_entry, bytes_left_in_file, left_of,
}
use rust_fatfs.File.Transfer.{
  cluster_after, cluster_to_read, read_size, move_to, update_accessed, finish_read, read_from,
  read_at, read,
}
use rust_fatfs.File.Entry.{size-edit_accessed}
use rust_fatfs.Io.{seek_start}
use rust_fatfs.File.Valid.{lifted-IsShort, IsValid, IsVolume, and_then-keeps}

-- A read does not pass the end of the file.
read_size-le :
    {S : Type 0} (v : Volume S) (n : ℕ) (file : File) (z : IsValid file)
    → file.offset + read_size v n file ≤ z.size
unfolding read_size bytes_left_in_file left_of
read_size-le v n file z = let a = z.within in let b = z.size_lt in rw (z.known) (omega arith)

pub edit_entry_known :
    (f : DirEntryEditor → DirEntryEditor) (entry : Option DirEntryEditor) (s : ℕ)
    → ((e : DirEntryEditor) → size_of (some (f e)) ≡ size_of (some e))
    → size_of entry ≡ some s
    → size_of (edit_entry f entry) ≡ some s
edit_entry_known f none s same h = h
edit_entry_known f (some e) s same h = same e ∙ h

module _ {S : Type 0} (v : Volume S) (laws : IsVolume v) where
  update_accessed-IsValid : (o : Opened S) → IsValid o.file → IsValid (update_accessed v o).file
  unfolding update_accessed
  update_accessed-IsValid o z = elim (Bool-cases v.update_accessed_date) [
    | inl on ↦ rw on (record {
      size = z.size;
      known = edit_entry_known _ o.file.entry z.size (size-edit_accessed (v.today o.fs)) z.known;
      within = z.within;
      size_lt = z.size_lt;
      placed = z.placed;
    })
    | inr off ↦ rw off z
  ]

  pub move_to-IsValid :
      (cluster k : ℕ) (file : File) (z : IsValid file)
      → 0 < k
      → file.offset + k ≤ z.size
      → IsValid (move_to v cluster k file)
  unfolding move_to
  move_to-IsValid cluster k file z pos h = record {
    size = z.size;
    known = z.known;
    within = let a = z.size_lt in omega arith;
    size_lt = z.size_lt;
    placed = let a = z.size_lt in omega arith;
  }

  finish_read-IsValid :
      (cluster : ℕ) (bytes : List ℕ) (o : Opened S) (z : IsValid o.file)
      → o.file.offset + length bytes ≤ z.size
      → IsValid (finish_read v cluster bytes o).1.file
  unfolding finish_read
  finish_read-IsValid cluster [] o z h = z
  finish_read-IsValid cluster (b ∷ bytes) o z h =
      update_accessed-IsValid (record o { file = move_to v cluster (length (b ∷ bytes)) o.file })
        (move_to-IsValid cluster (length (b ∷ bytes)) o.file z (omega arith) h)

  read_from-IsValid :
      (n cluster : ℕ) (o : Opened S) → IsValid o.file → IsValid (read_from v n cluster o).1.file
  unfolding read_from
  read_from-IsValid n cluster o z = elim (Bool-cases (read_size v n o.file == 0)) [
    | inl nothing ↦ rw nothing z
    | inr some_left ↦ rw some_left (
        let k = read_size v n o.file in
        let at = v.offset_from_cluster cluster + o.file.offset % v.cluster_size in
        let sought : Opened S = record o { fs = (seek_start v.disk at o.fs).1 } in
        and_then-keeps {S = Opened S} (λ o'. IsValid o'.file) (on_disk (seek_start v.disk at) o) _ z
          (λ p e.
            and_then-keeps {S = Opened S} (λ o'. IsValid o'.file) (on_disk (v.disk.read k) sought) _
              z
              (λ bytes got.
                let short =
                  lifted-IsShort k (v.disk.read k sought.fs).0 bytes (laws.read_short k sought.fs)
                    got in
                let room = read_size-le v n o.file z in
                finish_read-IsValid cluster bytes _ z (omega arith))))
  ]

  read_at-IsValid :
      (n : ℕ) (c : Option ℕ) (o : Opened S) → IsValid o.file → IsValid (read_at v n c o).1.file
  unfolding read_at
  read_at-IsValid n none o z = z
  read_at-IsValid n (some cluster) o z = read_from-IsValid n cluster o z

  -- The cluster is found without a change of the file.
  cluster_to_read_file : (o : Opened S) → (cluster_to_read v o).1.file ≡ o.file
  unfolding cluster_to_read cluster_after
  cluster_to_read_file o = ground arith

  -- A read keeps the file valid, on every outcome.
  pub read-IsValid : (n : ℕ) (o : Opened S) → IsValid o.file → IsValid (read v n o).1.file
  unfolding read read_at
  read-IsValid n o z =
      let z' : IsValid (cluster_to_read v o).1.file = rw (cluster_to_read_file o) z in
      and_then-keeps {S = Opened S} (λ o'. IsValid o'.file) (cluster_to_read v o) (read_at v n) z'
        (λ c e. read_at-IsValid n c _ z')
