-- ===== src/File/Writing.antt =====
-- A write keeps an open file valid, whatever the file system answers.
use rust_fatfs.Base.{
  ℕ, zero, suc, ◌+◌, ◌%◌, ◌^◌, ◌≤◌, ◌<◌, ◌≡◌, refl, sym, ◌∙◌, arith, List, length, Option, some,
  none, true, if◌then◌else◌, ◌==◌, Bool-cases, ltb, inl, inr, take, length-take,
}
use mathlib.Core.Path.{subst}
use rust_fatfs.Time.{DateTime}
use rust_fatfs.DirEntry.Editor.{DirEntryEditor, edit_modified}
use rust_fatfs.File.{
  Volume, File, Opened, on_fs, on_disk, size_of, is_dir_entry, set_first_cluster, edit_entry,
}
use rust_fatfs.File.Transfer.{
  cluster_after, write_size, start_at, start_chain, cluster_or_new, current_or_panic,
  cluster_to_write, grow, finish_write, write_to, write,
}
use rust_fatfs.File.Entry.{size-edit_first_cluster, size-edit_modified, size-grow}
use rust_fatfs.Io.{seek_start}
use rust_fatfs.File.Valid.{lifted-AtMost, IsValid, IsVolume, and_then-keeps}
use rust_fatfs.File.Reading.{edit_entry_known}

-- A write does not pass the largest size.
write_size-le :
    {S : Type 0} (v : Volume S) (bytes : List ℕ) (file : File)
    → IsValid file
    → file.offset + write_size v bytes file < 2 ^ 32
unfolding write_size
write_size-le v bytes file z = let a = z.within in let b = z.size_lt in omega arith

module _ {S : Type 0} (v : Volume S) (laws : IsVolume v) where
  set_first_cluster-IsValid :
      (cluster : ℕ) (file : File) → IsValid file → IsValid (set_first_cluster v cluster file)
  unfolding set_first_cluster
  set_first_cluster-IsValid cluster file z = record {
    size = z.size;
    known =
        edit_entry_known _ file.entry z.size (size-edit_first_cluster (some cluster) v.fat_type)
          z.known;
    within = z.within;
    size_lt = z.size_lt;
    placed = z.placed;
  }

  -- A valid file at the same offset.
  abbrev IsValidAt : ℕ → Opened S → Type 0
  IsValidAt offset o = IsValid o.file × (o.file.offset ≡ offset)

  start_at-IsValidAt :
      (first : Option ℕ) (cluster offset : ℕ) (o : Opened S)
      → IsValidAt offset o
      → IsValidAt offset (record o { file = start_at v first cluster o.file })
  unfolding start_at set_first_cluster
  start_at-IsValidAt none cluster offset o z = (set_first_cluster-IsValid cluster o.file z.0, z.1)
  start_at-IsValidAt (some n) cluster offset o z = z

  start_chain-IsValidAt :
      (cluster offset : ℕ) (o : Opened S)
      → IsValidAt offset o
      → IsValidAt offset (record o { file = start_chain v cluster o.file })
  unfolding start_chain
  start_chain-IsValidAt cluster offset o z =
      start_at-IsValidAt o.file.first_cluster cluster offset o z

  cluster_or_new-IsValidAt :
      (c : Option ℕ) (offset : ℕ) (o : Opened S)
      → IsValidAt offset o
      → IsValidAt offset (cluster_or_new v c o).1
  unfolding cluster_or_new
  cluster_or_new-IsValidAt (some n) offset o z = z
  cluster_or_new-IsValidAt none offset o z =
      and_then-keeps {S = Opened S} (IsValidAt offset)
        (on_fs (v.alloc_cluster o.file.current_cluster (is_dir_entry o.file.entry)) o) _ z
        (λ cluster e.
          start_chain-IsValidAt cluster offset
            (record o {
              fs = (v.alloc_cluster o.file.current_cluster (is_dir_entry o.file.entry) o.fs).1;
            })
            z)

  cluster_after_file : (c : Option ℕ) (o : Opened S) → (cluster_after v c o).1.file ≡ o.file
  unfolding cluster_after
  cluster_after_file none o = refl
  cluster_after_file (some n) o = refl

  current_or_panic_file : (c : Option ℕ) (o : Opened S) → (current_or_panic v c o).1.file ≡ o.file
  unfolding current_or_panic
  current_or_panic_file none o = refl
  current_or_panic_file (some n) o = refl

  cluster_to_write-IsValidAt :
      (offset : ℕ) (o : Opened S) → IsValidAt offset o → IsValidAt offset (cluster_to_write v o).1
  unfolding cluster_to_write current_or_panic
  cluster_to_write-IsValidAt offset o z = elim (Bool-cases (o.file.offset % v.cluster_size == 0)) [
    | inl boundary ↦
        let z' : IsValidAt offset (cluster_after v o.file.current_cluster o).1 =
          subst (λ f. IsValid f × (f.offset ≡ offset))
            (sym (cluster_after_file o.file.current_cluster o)) z in
        rw boundary (
          and_then-keeps {S = Opened S} (IsValidAt offset)
            (cluster_after v o.file.current_cluster o) _ z'
            (λ c e. cluster_or_new-IsValidAt c offset _ z'))
    | inr inside ↦ rw inside (
        subst (λ f. IsValid f × (f.offset ≡ offset))
          (sym (current_or_panic_file o.file.current_cluster o)) z)
  ]

  grown :
      (n s : ℕ) (d : DateTime) (entry : Option DirEntryEditor)
      → size_of entry ≡ some s
      → size_of (edit_entry (λ e. grow v n (edit_modified d e)) entry)
        ≡ some (if ltb s n then n else s)
  grown n s d none h = absurd (unfold size_of in (let h' : none ≡ some s = h in cc))
  grown n s d (some e) h = size-grow v n (edit_modified d e) s (size-edit_modified d e ∙ h)

  finish_write-IsValid :
      (cluster written : ℕ) (o : Opened S)
      → IsValid o.file
      → o.file.offset + written < 2 ^ 32
      → IsValid (finish_write v cluster written o).1.file
  unfolding finish_write
  finish_write-IsValid cluster zero o z h = z
  finish_write-IsValid cluster (suc n) o z h =
      let n' = (o.file.offset + suc n) % 2 ^ 32 in
      let same : n' ≡ o.file.offset + suc n = omega arith in
      record {
        size = if ltb z.size n' then n' else z.size;
        known = grown n' z.size (v.now o.fs) o.file.entry z.known;
        within = ground arith;
        size_lt = let a = z.size_lt in ground arith;
        placed = omega (arith, same);
      }

  write_to-IsValid :
      (bytes : List ℕ) (count cluster offset : ℕ) (o : Opened S)
      → IsValidAt offset o
      → count ≤ length bytes
      → offset + count < 2 ^ 32
      → IsValid (write_to v bytes count cluster o).1.file
  unfolding write_to
  write_to-IsValid bytes count cluster offset o z few h =
      let at = v.offset_from_cluster cluster + o.file.offset % v.cluster_size in
      let sought : Opened S = record o { fs = (seek_start v.disk at o.fs).1 } in
      and_then-keeps {S = Opened S} (λ o'. IsValid o'.file) (on_disk (seek_start v.disk at) o) _ z.0
        (λ p e.
          and_then-keeps {S = Opened S} (λ o'. IsValid o'.file)
            (on_disk (v.disk.write (take count bytes)) sought) _ z.0
            (λ written done.
              let short =
                lifted-AtMost (length (take count bytes))
                  (v.disk.write (take count bytes) sought.fs).0 written
                  (laws.write_short (take count bytes) sought.fs) done in
              finish_write-IsValid cluster written _ z.0
                (omega (arith, length-take count bytes few))))

  -- A write keeps the file valid, on every outcome.
  pub write-IsValid :
      (bytes : List ℕ) (o : Opened S) → IsValid o.file → IsValid (write v bytes o).1.file
  unfolding write
  write-IsValid bytes o z = elim (Bool-cases (write_size v bytes o.file == 0)) [
    | inl nothing ↦ rw nothing z
    | inr some_room ↦
        let count = write_size v bytes o.file in
        let offset = o.file.offset in
        let dirtied : Opened S = record o { fs = (v.set_dirty_flag true o.fs).1 } in
        let found = cluster_to_write-IsValidAt offset dirtied (z, refl) in
        rw some_room (
          and_then-keeps {S = Opened S} (λ o'. IsValid o'.file) (on_disk (v.set_dirty_flag true) o)
            _ z
            (λ u e.
              and_then-keeps {S = Opened S} (λ o'. IsValid o'.file) (cluster_to_write v dirtied) _
                found.0
                (λ cluster e'.
                  write_to-IsValid bytes count cluster offset _ found (omega arith)
                    (write_size-le v bytes o.file z))))
  ]
