-- ===== src/Disk/Write.antt =====
-- Writing through a window: all mirrors get the bytes, and nothing else changes in them.
use rust_fatfs.Base.{
  ℕ, zero, suc, ◌+◌, ◌-◌, ◌*◌, ◌≤◌, ◌<◌, ◌≡◌, inl, inr, refl, ◌∙◌, ap, arith, ◌==◌, ltb, leb,
  if◌then◌else◌, Bool-cases, ◌&&◌, List, [], ◌∷◌, length, All, min, take-length,
}
use rust_fatfs.Base.Result.{ok}
use rust_fatfs.Io.{Stream, write_all}
use rust_fatfs.Io.Rounds.{write_all_whole, write_all_nothing}
use rust_fatfs.Io.Contract.{IsBytes, IsByte, patch}
use rust_fatfs.Io.Words.{byte-stored_at}
use rust_fatfs.Disk.{Window, DiskSlice, write, stream, on_inner, lift_result, skip, write_mirrors}
use rust_fatfs.Disk.Patch.{patch_at, patch_below, patch_above, patch-shift, rows_apart, rows_le}
use rust_fatfs.Disk.Read.{Fits}

module _ {S : Type 0} {storage : Stream S} (c : IsBytes storage) (w : Window) where
  -- Byte `x` of mirror `j`.
  abbrev pub mirror : S → ℕ → ℕ → ℕ
  mirror s j x = c.byte s (w.begin + j * w.size + x)

  -- The storage behind the write of one mirror.
  abbrev once : S → ℕ → ℕ → List ℕ → S
  once s i off bs = c.stored (c.sought s (w.begin + off + i * w.size)) bs

  module _ (fits : Fits c w) (off : ℕ) (bs : List ℕ) (inside : off + length bs ≤ w.size) where
    room : (s : S) (i : ℕ) → i < w.mirrors → w.begin + off + i * w.size + length bs ≤ c.size s
    room s i h = omega (arith, fits s, rows_le i w.mirrors w.size h)

    -- One mirror: its own bytes, and those of another.
    mirror-once :
        (s : S) (i j x : ℕ)
        → i < w.mirrors
        → x < w.size
        → All IsByte bs
        → mirror (once s i off bs) j x
          ≡ (if i == j then patch (mirror s j) off bs x else mirror s j x)
    mirror-once s i j x h lt by =
        let e = byte-stored_at c s (w.begin + off + i * w.size) bs (room s i h) by in
        elim (Bool-cases (i == j)) [
          | inl q ↦
              let ij : i ≡ j = ground arith in
              let a : w.begin + off + i * w.size ≡ w.begin + j * w.size + off = ground arith in
              ap (λ (f : ℕ → ℕ). f (w.begin + j * w.size + x)) e
              ∙ rw (q, a) (patch-shift (c.byte s) (w.begin + j * w.size) off bs x)
          | inr q ↦ ground (
            arith,
            e,
            rows_apart i j w.size x,
            rows_apart j i w.size (off + length bs - 1),
            patch_below (c.byte s) (w.begin + off + i * w.size) bs (w.begin + j * w.size + x),
            patch_above (c.byte s) (w.begin + off + i * w.size) bs (w.begin + j * w.size + x),
          )
        ]

    write_once :
        (s : S) (i : ℕ)
        → i < w.mirrors
        → All IsByte bs
        → write_all storage bs (c.sought s (w.begin + off + i * w.size)) ≡ (ok tt, once s i off bs)
    write_once s i h q =
        let p = w.begin + off + i * w.size in
        c.write_in (c.sought s p) bs
          (omega (arith, room s i h, c.size-sought s p, c.pos-sought s p)) q

    write_mirrors_lem :
        (left i : ℕ) (s : S) (j x : ℕ)
        → i + left ≤ w.mirrors
        → All IsByte bs
        → x < w.size
        → let r = write_mirrors storage w left i (w.begin + off) bs s in
          (r.0 ≡ ok tt)
          × (mirror r.1 j x
              ≡ (if leb i j && ltb j (i + left) then patch (mirror s j) off bs x else mirror s j x))
    unfolding write_mirrors
    write_mirrors_lem zero i s j x h q lt = (refl, ground arith)
    write_mirrors_lem (suc left) i s j x h q lt =
        let s' = once s i off bs in
        let (r, m) = write_mirrors_lem left (i + 1) s' j x (omega arith) q lt in
        rw
          (
            c.seek_in s (w.begin + off + i * w.size) (omega (arith, room s i (omega arith))),
            write_once s i (omega arith) q,
          )
          (
            r,
            m
                ∙ ground (
                  arith,
                  mirror-once s i j x (omega arith) lt q,
                  patch_at (mirror s' j) (mirror s j) off bs x,
                ),
          )

  module _ (fits : Fits c w) where
    -- The window behind a write that has room.
    unfoldable pub wrote : DiskSlice S → List ℕ → DiskSlice S
    wrote d [] = d
    wrote d (b ∷ bs) = record {
      offset = d.offset + length (b ∷ bs);
      inner = (write_mirrors storage w w.mirrors 0 (w.begin + d.offset) (b ∷ bs) d.inner).1;
    }

    write_lem :
        (d : DiskSlice S) (b : ℕ) (bs : List ℕ)
        → d.offset + length (b ∷ bs) ≤ w.size
        → All IsByte (b ∷ bs)
        → write storage w (b ∷ bs) d ≡ (ok (length (b ∷ bs)), wrote d (b ∷ bs))
    unfolding write wrote on_inner lift_result skip
    write_lem d b bs h q =
        let n = length (b ∷ bs) in
        let m : min n (w.size - d.offset) ≡ n = omega arith in
        let (r, _) =
          write_mirrors_lem fits d.offset (b ∷ bs) h w.mirrors 0 d.inner 0 0 (omega arith) q
            (omega arith) in
        rw (m, take-length (b ∷ bs)) (ground (arith, r))

    -- `write_all` within the window succeeds and moves it on by the bytes.
    pub write_all_in :
        (d : DiskSlice S) (bs : List ℕ)
        → d.offset + length bs ≤ w.size
        → All IsByte bs
        → write_all (stream storage w) bs d ≡ (ok tt, wrote d bs)
    unfolding stream wrote
    write_all_in d [] h q = write_all_nothing (stream storage w) d
    write_all_in d (b ∷ bs) h q =
        write_all_whole (stream storage w) b bs d (wrote d (b ∷ bs)) (write_lem d b bs h q)

    -- Byte `x` of each mirror behind it.
    pub mirror-wrote :
        (d : DiskSlice S) (bs : List ℕ) (j x : ℕ)
        → d.offset + length bs ≤ w.size
        → All IsByte bs
        → j < w.mirrors
        → x < w.size
        → mirror (wrote d bs).inner j x ≡ patch (mirror d.inner j) d.offset bs x
    unfolding wrote
    mirror-wrote d [] j x h q hj hx = refl
    mirror-wrote d (b ∷ bs) j x h q hj hx = ground (
      arith,
      write_mirrors_lem fits d.offset (b ∷ bs) h w.mirrors 0 d.inner j x (omega arith) q hx,
    )
