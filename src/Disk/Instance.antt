-- ===== src/Disk/Instance.antt =====
-- A window whose mirrors lie in the storage is itself a stream of bytes, those of one copy.
use rust_fatfs.Base.{
  ℕ, suc, ◌+◌, ◌*◌, ◌≤◌, ◌<◌, ◌≡◌, inl, inr, refl, ◌∙◌, arith, ltb, leb, if◌then◌else◌, Bool-cases,
  List, [], ◌∷◌, length, All,
}
use mathlib.Core.Path.{fun_ext}
use rust_fatfs.Base.Result.{ok, err, unexpected_eof, invalid_input}
use rust_fatfs.Io.{Stream, read_exact, write_all, seek_start, interruptions}
use rust_fatfs.Io.Contract.{IsBytes, IsByte, slice, patch}
use rust_fatfs.Disk.{Window, DiskSlice, stream, seek, target}
use rust_fatfs.Disk.Chunks.{IsChunked}
use rust_fatfs.Disk.Patch.{patch_at, patch_above}
use rust_fatfs.Disk.Read.{Fits, bytes, read_exact_loop_in, read_exact_loop_out}
use rust_fatfs.Disk.Write.{wrote, write_all_in, mirror-wrote, mirror}

module _ {S : Type 0} {storage : Stream S} (c : IsBytes storage) (k : IsChunked c)
    (w : Window) where
  abbrev pub view : DiskSlice S → ℕ → ℕ
  view = bytes c k w

  abbrev pub moved : DiskSlice S → ℕ → DiskSlice S
  moved d p = record d { offset = p }

  module _ (fits : Fits c w) (one : 0 < w.mirrors) where
    -- Behind a read: the window reached, or, where the read does not succeed, any that is right.
    unfoldable pub fetched : DiskSlice S → ℕ → DiskSlice S
    fetched d n =
        if leb (d.offset + n) w.size
        then (read_exact (stream storage w) n d).1
        else moved d (d.offset + n)

    unfoldable pub stored : DiskSlice S → List ℕ → DiskSlice S
    unfolding wrote
    stored d bs =
        if leb (d.offset + length bs) w.size
        then wrote c w fits d bs
        else moved d (d.offset + length bs)

    pub view_lt : (d : DiskSlice S) (i : ℕ) → view d i < 256
    view_lt d i = ground (arith, c.byte_lt d.inner (w.begin + i))

    pub seek_in :
        (d : DiskSlice S) (p : ℕ)
        → p ≤ w.size
        → seek_start (stream storage w) p d ≡ (ok p, moved d p)
    unfolding stream seek target
    seek_in d p h = ground arith

    pub seek_out :
        (d : DiskSlice S) (p : ℕ)
        → w.size < p
        → seek_start (stream storage w) p d ≡ (err invalid_input, d)
    unfolding stream seek target
    seek_out d p h = ground arith

    -- The facts that a read within the window has.
    pub fetched_lem :
        (d : DiskSlice S) (n : ℕ)
        → d.offset + n ≤ w.size
        → (read_exact (stream storage w) n d ≡ (ok (slice (view d) d.offset n), fetched d n))
          × ((fetched d n).offset ≡ d.offset + n)
          × (view (fetched d n) ≡ view d)
          × (c.byte (fetched d n).inner ≡ c.byte d.inner)
    unfolding read_exact fetched
    fetched_lem d n h =
        ground
          (arith, read_exact_loop_in c k w fits one (n + suc interruptions) n [] d (omega arith) h)

    pub read_out :
        (d : DiskSlice S) (n : ℕ)
        → d.offset ≤ w.size
        → w.size < d.offset + n
        → (read_exact (stream storage w) n d).0 ≡ err unexpected_eof
    unfolding read_exact
    read_out d n o h =
        read_exact_loop_out c k w fits one (n + suc interruptions) n [] d (omega arith) o h

    pub offset-fetched : (d : DiskSlice S) (n : ℕ) → (fetched d n).offset ≡ d.offset + n
    unfolding fetched
    offset-fetched d n = elim (Bool-cases (leb (d.offset + n) w.size)) [
      | inl y ↦ unfold fetched in (fetched_lem d n (ground arith)).1
      | inr z ↦ ground arith
    ]

    -- A read changes no byte of the storage.
    pub storage-fetched : (d : DiskSlice S) (n : ℕ) → c.byte (fetched d n).inner ≡ c.byte d.inner
    unfolding fetched
    storage-fetched d n = elim (Bool-cases (leb (d.offset + n) w.size)) [
      | inl y ↦ unfold fetched in (fetched_lem d n (ground arith)).3
      | inr z ↦ ground arith
    ]

    pub view-fetched : (d : DiskSlice S) (n : ℕ) → view (fetched d n) ≡ view d
    unfolding fetched
    view-fetched d n = elim (Bool-cases (leb (d.offset + n) w.size)) [
      | inl y ↦ unfold fetched in (fetched_lem d n (ground arith)).2
      | inr z ↦ rw z
    ]

    pub write_in :
        (d : DiskSlice S) (bs : List ℕ)
        → d.offset + length bs ≤ w.size
        → All IsByte bs
        → write_all (stream storage w) bs d ≡ (ok tt, stored d bs)
    unfolding stored
    write_in d bs h q = write_all_in c w fits d bs h q ∙ ground arith

    pub offset-stored :
        (d : DiskSlice S) (bs : List ℕ) → (stored d bs).offset ≡ d.offset + length bs
    unfolding stored wrote
    offset-stored d [] = ground arith
    offset-stored d (b ∷ bs) = ground arith

    pub view-stored :
        (d : DiskSlice S) (bs : List ℕ)
        → d.offset + length bs ≤ w.size
        → All IsByte bs
        → view (stored d bs) ≡ patch (view d) d.offset bs
    unfolding stored
    view-stored d bs h q = fun_ext λ x. elim (Bool-cases (ltb x w.size)) [
      | inl y ↦
          let z : w.begin + 0 * w.size + x ≡ w.begin + x = omega arith in
          ground (
            arith,
            mirror-wrote c w fits d bs 0 x h q one,
            patch_at (mirror c w d.inner 0) (view d) d.offset bs x,
          )
      | inr z ↦ ground (arith, patch_above (view d) d.offset bs x)
    ]

    unfoldable pub is_bytes : IsBytes (stream storage w)
    is_bytes = record {
      size = λ d. w.size;
      byte = view;
      pos = λ d. d.offset;
      sought = moved;
      fetched = fetched;
      stored = stored;
      byte_lt = view_lt;
      seek_in = seek_in;
      seek_out = seek_out;
      read_in = λ d n h. (fetched_lem d n h).0;
      read_out = read_out;
      write_in = write_in;
      size-sought = λ d p. refl;
      size-fetched = λ d n. refl;
      size-stored = λ d bs. refl;
      pos-sought = λ d p. refl;
      pos-fetched = offset-fetched;
      pos-stored = offset-stored;
      byte-sought = λ d p. refl;
      byte-fetched = view-fetched;
      byte-stored = view-stored;
    }
