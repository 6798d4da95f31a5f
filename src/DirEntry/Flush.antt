-- ===== src/DirEntry/Flush.antt =====
-- dir_entry.rs: what a flush leaves on the disk.
use rust_fatfs.Base.{
  ℕ, ◌+◌, ◌≤◌, ◌≡◌, inl, inr, refl, ◌∙◌, sym, arith, Bool, true, false, Bool-cases, List, [], ◌∷◌,
  Option, some, none,
}
use mathlib.Core.Path.{subst}
use rust_fatfs.Base.Result.{ok, ◌>>◌}
use rust_fatfs.FatType.{FatType}
use rust_fatfs.Io.{Stream, seek_start}
use rust_fatfs.Io.Contract.{IsBytes}
use rust_fatfs.Io.Codec.{At, At-patch}
use rust_fatfs.Time.{Date, DateTime}
use rust_fatfs.DirEntry.{DirFileEntryData, file, file_size}
use rust_fatfs.DirEntry.Codec.{deserialize, serialize, serialize_file}
use rust_fatfs.DirEntry.Bytes.{IsFile, bytes_file}
use rust_fatfs.DirEntry.Roundtrip.{Reads-entry, Writes-entry, length-bytes_entry}
use rust_fatfs.DirEntry.Editor.{
  DirEntryEditor, change, edit_first_cluster, edit_size, edit_known_size, edit_created,
  edit_accessed, edit_modified, flush,
}

-- The changes that an editor is asked for.
pub data Edit : Type 0 where
  cluster : Option ℕ → FatType → Edit
  size : ℕ → Edit
  created modified : DateTime → Edit
  accessed : Date → Edit

unfoldable pub edit : Edit → DirEntryEditor → DirEntryEditor
edit (cluster c t) e = edit_first_cluster c t e
edit (size n) e = edit_size n e
edit (created d) e = edit_created d e
edit (modified d) e = edit_modified d e
edit (accessed d) e = edit_accessed d e

unfoldable pub edits : List Edit → DirEntryEditor → DirEntryEditor
edits [] e = e
edits (x ∷ xs) e = edits xs (edit x e)

-- A clean editor has an entry with `P`, and the place of the entry is `p`.
abbrev IsSynced : (DirFileEntryData → Type 0) → ℕ → DirEntryEditor → Type 0
IsSynced P p e = (e.dirty ≡ false → P e.entry) × (e.pos ≡ p)

change-IsSynced :
    (P : DirFileEntryData → Type 0) (p : ℕ) (same : Bool) (d : DirFileEntryData)
    (e : DirEntryEditor)
    → IsSynced P p e
    → IsSynced P p (change same d e)
unfolding change
change-IsSynced P p true d e h = h
change-IsSynced P p false d e h = (λ q. absurd (ground arith), h.1)

size-IsSynced :
    (P : DirFileEntryData → Type 0) (p : ℕ) (known : Option ℕ) (n : ℕ) (e : DirEntryEditor)
    → IsSynced P p e
    → IsSynced P p (edit_known_size known n e)
unfolding edit_known_size
size-IsSynced P p none n e h = h
size-IsSynced P p (some k) n e h = change-IsSynced P p _ _ e h

edit-IsSynced :
    (P : DirFileEntryData → Type 0) (p : ℕ) (x : Edit) (e : DirEntryEditor)
    → IsSynced P p e
    → IsSynced P p (edit x e)
unfolding edit edit_first_cluster edit_size edit_created edit_modified edit_accessed
edit-IsSynced P p (cluster c t) e h = change-IsSynced P p _ _ e h
edit-IsSynced P p (size n) e h = size-IsSynced P p (file_size e.entry) n e h
edit-IsSynced P p (created d) e h = change-IsSynced P p _ _ e h
edit-IsSynced P p (modified d) e h = change-IsSynced P p _ _ e h
edit-IsSynced P p (accessed d) e h = change-IsSynced P p _ _ e h

edits-IsSynced :
    (P : DirFileEntryData → Type 0) (p : ℕ) (xs : List Edit) (e : DirEntryEditor)
    → IsSynced P p e
    → IsSynced P p (edits xs e)
unfolding edits
edits-IsSynced P p [] e h = h
edits-IsSynced P p (x ∷ xs) e h = edits-IsSynced P p xs (edit x e) (edit-IsSynced P p x e h)

module _ {S : Type 0} {stream : Stream S} (c : IsBytes stream) where
  write_file :
      (d : DirFileEntryData) (s : S) → serialize stream (file d) s ≡ serialize_file stream d s
  unfolding serialize
  write_file d s = refl

  -- A dirty editor's entry is written and read back.
  flush_dirty :
      (s : S) (e : DirEntryEditor)
      → e.pos + 32 ≤ c.size s
      → IsFile e.entry
      → e.dirty ≡ true
      → ((do flush stream e; seek_start stream e.pos; deserialize stream) s).0 ≡ ok (file e.entry)
  unfolding flush
  flush_dirty s e room z t =
      let p = e.pos in
      let d = e.entry in
      let size = length-bytes_entry c (file d) z in
      let a = c.sought s p in
      let za = c.size-sought s p in
      let pa = c.pos-sought s p in
      let (b, eb, zb, pb, bb) = (Writes-entry c (file d) z).run a (omega arith) in
      let wrote : serialize_file stream d a ≡ (ok tt, b) = sym (write_file d a) ∙ eb in
      let r = c.sought b p in
      let zr = c.size-sought b p in
      let pr = c.pos-sought b p in
      let at : At (c.byte r) (c.pos r) (bytes_file d) =
        rw (c.byte-sought b p, bb, pr, pa) (At-patch (c.byte a) p (bytes_file d)) in
      let (y, ey, sy, py, by) = (Reads-entry c (file d) z).run r (omega arith) at in
      rw (t, c.seek_in s p (omega arith), wrote, c.seek_in b p (omega arith), ey) refl

  -- On a stream of bytes with room for 32 bytes at the entry's place, from which the entry that an
  -- editor starts with can be read: behind any sequence of changes and a flush, the entry that the
  -- editor ends with can be read there, if its fields have their widths.
  pub flush-edits :
      (s : S) (e : DirEntryEditor) (xs : List Edit)
      → e.pos + 32 ≤ c.size s
      → IsFile (edits xs e).entry
      → ((do seek_start stream e.pos; deserialize stream) s).0 ≡ ok (file e.entry)
      → ((do flush stream (edits xs e); seek_start stream e.pos; deserialize stream) s).0
        ≡ ok (file (edits xs e).entry)
  unfolding flush
  flush-edits s e xs room z h =
      let (clean, place) =
        edits-IsSynced (λ d. ((do seek_start stream e.pos; deserialize stream) s).0 ≡ ok (file d))
          e.pos xs e (λ q. h, refl) in
      elim (Bool-cases (edits xs e).dirty) [
        | inl t ↦
            subst
              (λ p.
                ((do flush stream (edits xs e); seek_start stream p; deserialize stream) s).0
                ≡ ok (file (edits xs e).entry))
              place (flush_dirty s (edits xs e) (omega arith) z t)
        | inr n ↦ rw n (clean n)
      ]
