-- ===== src/FileSystem/Flags.antt =====
-- fs.rs: `set_dirty_flag` on a storage of bytes, and `unmount_internal`, which writes once.
use rust_fatfs.Base.{
  ◌||◌, ℕ, ◌+◌, ◌≤◌, ◌<◌, ◌≡◌, ◌≢◌, inl, inr, refl, sym, ap, ◌∙◌, arith, Bool, true, false,
  Bool-cases, [], ◌∷◌, length, ◌&&◌,
}
use rust_fatfs.Base.Result.{Result, ok, err, panic, stuck}
use rust_fatfs.Base.Outcome.{Leaves, and_then-Leaves, Leaves-map}
use rust_fatfs.FatType.{fat12, fat16, fat32, FatType, is_fat32_type}
use rust_fatfs.Status.{FsStatusFlags, encode, decode}
use rust_fatfs.Io.{Stream, seek_start, write_u8}
use rust_fatfs.Io.Contract.{IsBytes, patch}
use rust_fatfs.Disk.{lift_result}
use mathlib.Core.Path.{subst}
use rust_fatfs.FsInfo.{serialize}
use rust_fatfs.Boot.{status_flags, bytes_from_sectors}
use rust_fatfs.FileSystem.{
  Mounted, FileSystem, same_bool, same_flags, flags_with, flags_offset, set_dirty_flag,
  flush_fs_info, unmount_internal, on_storage, with_io,
}

flags-eq :
    (d i d' i' : Bool)
    → same_flags (record { dirty = d; io_error = i }) (record { dirty = d'; io_error = i' }) ≡ true
    → ◌≡◌ {A = FsStatusFlags}
        (record { dirty = d; io_error = i })
        (record { dirty = d'; io_error = i' })
unfolding same_flags same_bool
flags-eq d i d' i' e =
    let p : d ≡ d' = ground arith in let q : i ≡ i' = ground arith in rw (p, q) refl

same_flags-eq : (a b : FsStatusFlags) → same_flags a b ≡ true → a ≡ b
same_flags-eq a b = flags-eq a.dirty a.io_error b.dirty b.io_error

same_flags_refl : (a : FsStatusFlags) → same_flags a a ≡ true
unfolding same_flags same_bool
same_flags_refl a = ground arith

decode-encoded :
    (d i : Bool)
    → decode (encode (record { dirty = d; io_error = i })) ≡ record { dirty = d; io_error = i }
unfolding decode encode
decode-encoded true true = refl
decode-encoded true false = refl
decode-encoded false true = refl
decode-encoded false false = refl

decode-encode : (a : FsStatusFlags) → decode (encode a) ≡ a
decode-encode a = decode-encoded a.dirty a.io_error

encode_lt : (a : FsStatusFlags) → encode a < 256
unfolding encode
encode_lt a = ground arith

patch_here : (f : ℕ → ℕ) (p b : ℕ) → patch f p (b ∷ []) p ≡ b
patch_here f p b = ground arith

patch_other : (f : ℕ → ℕ) (p b i : ℕ) → i ≢ p → patch f p (b ∷ []) i ≡ f i
patch_other f p b i away = ground (arith, λ (e : p ≡ i). away (sym e))

lifted-Leaves :
    {S : Type 0} (P : S → Type 0) (r : Result (Unit {0}) × S)
    → Leaves (λ _. P) r
    → Leaves {A = Unit {0}} (λ _. P) (lift_result r.0, r.1)
unfolding lift_result
lifted-Leaves P (ok u, s) h = h
lifted-Leaves P (err e, s) h = tt
lifted-Leaves P (panic, s) h = tt
lifted-Leaves P (stuck, s) h = tt

offset_le : (t : FatType) → flags_offset t ≤ 0x041
unfolding flags_offset is_fat32_type
offset_le t = ground arith

module _ {S : Type 0} (io : Stream S) (v : Mounted) where
  -- Behind a call that returns, the flags are those of the boot sector and the new one.
  set_dirty_flag-flags :
      (d : Bool) (fs : FileSystem S)
      → Leaves
          (λ _ fs'. (fs'.current_status_flags ≡ flags_with v.bpb d) × (fs'.fs_info ≡ fs.fs_info))
          (set_dirty_flag io v d fs)
  unfolding set_dirty_flag
  set_dirty_flag-flags d fs =
      elim (Bool-cases (same_flags (flags_with v.bpb d) fs.current_status_flags)) [
        | inl t ↦ rw t (sym (same_flags-eq _ _ t), refl)
        | inr n ↦ rw n (
            and_then-Leaves _ (on_storage (seek_start io (flags_offset v.fat_type)) fs) _
              (λ p fs1 e.
                and_then-Leaves _ (on_storage (write_u8 io (encode (flags_with v.bpb d))) fs1) _
                  (λ u fs2 e2.
                    (refl, ap (λ p. p.1.fs_info) (sym e2) ∙ ap (λ p. p.1.fs_info) (sym e)))))
      ]

  flush_fs_info-clean :
      (fs : FileSystem S)
      → Leaves
          (λ _ fs'. (is_fat32_type v.fat_type && fs'.fs_info.dirty) ≡ false)
          (flush_fs_info io v fs)
  unfolding flush_fs_info
  flush_fs_info-clean fs = elim (Bool-cases (is_fat32_type v.fat_type && fs.fs_info.dirty)) [
    | inl t ↦ rw t (
        and_then-Leaves _
          (with_io (on_storage (seek_start io (bytes_from_sectors v.bpb v.bpb.fs_info_sector))) fs)
          _
          (λ p fs1 e.
            and_then-Leaves _ (with_io (on_storage (serialize io fs.fs_info)) fs1) _
              (λ u fs2 e2. ground arith)))
    | inr n ↦ rw n n
  ]

  -- The flags and the sector are as they are to be.
  abbrev Settled : FileSystem S → Type 0
  Settled fs =
      (fs.current_status_flags ≡ flags_with v.bpb false)
      × ((is_fat32_type v.fat_type && fs.fs_info.dirty) ≡ false)

  unmount_internal-Settled : (fs : FileSystem S) → Leaves (λ _. Settled) (unmount_internal io v fs)
  unfolding unmount_internal
  unmount_internal-Settled fs = and_then-Leaves _ (flush_fs_info io v fs) _ (λ u fs1 e.
      let clean : (is_fat32_type v.fat_type && fs1.fs_info.dirty) ≡ false =
        subst (Leaves (λ _ fs'. (is_fat32_type v.fat_type && fs'.fs_info.dirty) ≡ false)) e
          (flush_fs_info-clean fs) in
      lifted-Leaves Settled (set_dirty_flag io v false fs1) (
        Leaves-map (set_dirty_flag io v false fs1)
          (λ u fs2 h. (h.0, ap (λ i. is_fat32_type v.fat_type && i.dirty) h.1 ∙ clean))
          (set_dirty_flag-flags false fs1)))

  set_dirty_flag-same :
      (d : Bool) (fs : FileSystem S)
      → fs.current_status_flags ≡ flags_with v.bpb d
      → set_dirty_flag io v d fs ≡ (ok tt, fs)
  unfolding set_dirty_flag
  set_dirty_flag-same d fs h =
      let t : same_flags (flags_with v.bpb d) fs.current_status_flags ≡ true =
        ap (λ flags. same_flags (flags_with v.bpb d) flags) h
        ∙ same_flags_refl (flags_with v.bpb d) in
      rw t refl

  flush_fs_info-same :
      (fs : FileSystem S)
      → (is_fat32_type v.fat_type && fs.fs_info.dirty) ≡ false
      → flush_fs_info io v fs ≡ (ok tt, fs)
  unfolding flush_fs_info
  flush_fs_info-same fs h = rw h refl

  -- On every storage: when an unmount has returned without an error, the one that `drop` does behind
  -- it touches neither the storage nor any field.
  pub unmount_internal-unmount_internal :
      (fs fs' : FileSystem S)
      → unmount_internal io v fs ≡ (ok tt, fs')
      → unmount_internal io v fs' ≡ (ok tt, fs')
  unfolding unmount_internal lift_result
  unmount_internal-unmount_internal fs fs' e =
      let (flags, clean) : Settled fs' =
        subst (Leaves (λ _. Settled)) e (unmount_internal-Settled fs) in
      rw (flush_fs_info-same fs' clean, set_dirty_flag-same false fs' flags) refl

-- Where the format has the byte of the flags, in the boot sector.
abbrev pub flags_at : FatType → ℕ
flags_at fat12 = 37
flags_at fat16 = 37
flags_at fat32 = 65

offset-flags_at : (t : FatType) → flags_offset t ≡ flags_at t
unfolding flags_offset is_fat32_type
offset-flags_at fat12 = refl
offset-flags_at fat16 = refl
offset-flags_at fat32 = refl

-- On a storage that is an array of bytes.
module _ {S : Type 0} {io : Stream S} (c : IsBytes io) (v : Mounted) where
  -- The byte of the flags holds the flags that the file system takes it to hold.
  abbrev pub InSync : FileSystem S → Type 0
  InSync fs = decode (c.byte fs.disk (flags_at v.fat_type)) ≡ fs.current_status_flags

  -- On a storage of bytes that holds the boot sector's flags at byte 65 for FAT32 and at byte 37 for
  -- the others, with the file system's idea of them true: setting the dirty flag to `d` succeeds.
  -- Behind it the byte and the file system's idea say that the volume is dirty exactly if it was so
  -- at the mount or `d` is true, and keep the other flag of the mount; no other byte changes.
  pub set_dirty_flag-InSync :
      (d : Bool) (fs : FileSystem S)
      → 0x042 ≤ c.size fs.disk
      → InSync fs
      → (fs' : FileSystem S) × (set_dirty_flag io v d fs ≡ (ok tt, fs'))
        × InSync fs'
        × (fs'.current_status_flags.dirty ≡ ((status_flags v.bpb).dirty || d))
        × (fs'.current_status_flags.io_error ≡ (status_flags v.bpb).io_error)
        × ((i : ℕ) → i ≢ flags_at v.fat_type → c.byte fs'.disk i ≡ c.byte fs.disk i)
  unfolding set_dirty_flag write_u8 flags_with
  set_dirty_flag-InSync d fs room sync =
      let p = flags_offset v.fat_type in
      let place : p ≡ flags_at v.fat_type = offset-flags_at v.fat_type in
      let flags = flags_with v.bpb d in
      let byte = encode flags in
      let low = offset_le v.fat_type in
      elim (Bool-cases (same_flags flags fs.current_status_flags)) [
        | inl t ↦ (
          fs,
          set_dirty_flag-same io v d fs (sym (same_flags-eq _ _ t)),
          sync,
          ap (λ (x : FsStatusFlags). x.dirty) (sym (same_flags-eq flags fs.current_status_flags t)),
          ap (λ (x : FsStatusFlags). x.io_error)
              (sym (same_flags-eq flags fs.current_status_flags t)),
          λ i away. refl,
        )
        | inr n ↦
            let s1 = c.sought fs.disk p in
            let room1 : c.pos s1 + length (byte ∷ []) ≤ c.size s1 =
              omega (arith, c.pos-sought fs.disk p, c.size-sought fs.disk p) in
            let s2 = c.stored s1 (byte ∷ []) in
            let bytes : c.byte s2 ≡ patch (c.byte fs.disk) p (byte ∷ []) =
              c.byte-stored s1 (byte ∷ []) room1 (encode_lt flags, tt)
              ∙ rw (c.pos-sought, c.byte-sought) refl in
            (
              record fs { disk = s2; current_status_flags = flags },
              rw
                  (
                    n,
                    c.seek_in fs.disk p (omega arith),
                    c.write_in s1 (byte ∷ []) room1 (encode_lt flags, tt),
                  )
                  refl,
              ap (λ i. decode (c.byte s2 i)) (sym place)
                  ∙ ap (λ f. decode (f p)) bytes
                  ∙ ap decode (patch_here (c.byte fs.disk) p byte)
                  ∙ decode-encode flags,
              refl,
              refl,
              λ i away.
                  ap (λ f. f i) bytes
                  ∙ patch_other (c.byte fs.disk) p byte i (λ e. away (e ∙ place)),
            )
      ]
