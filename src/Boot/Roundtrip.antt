-- ===== src/Boot/Roundtrip.antt =====
-- boot_sector.rs: a boot sector that is written is read back.
use rust_fatfs.Base.{
  ℕ, zero, suc, ◌+◌, ◌≤◌, ◌≡◌, inl, inr, refl, ap, arith, true, false, if◌then◌else◌, Bool-cases,
  List, [], ◌∷◌, ◌++◌, length, All, take, replicate, take-length, length-append,
}
use mathlib.Core.Path.{subst}
use rust_fatfs.Base.Result.{ok, ◌>>=◌, ◌>>◌, pure}
use rust_fatfs.Io.{Stream, seek_start, read_exact}
use rust_fatfs.Io.Contract.{IsBytes, IsByte}
use rust_fatfs.Io.Codec.{
  Reads, Writes, Reads-bind, Reads-eq, Reads-last, Reads-exact, Writes-write_all, Writes-then,
  read-write,
}
use rust_fatfs.Boot.{BootSector, is_fat32}
use rust_fatfs.Boot.Codec.{clean, deserialize, serialize}
use rust_fatfs.Boot.Fields.{IsArray, IsSized, without_fat32, bytes_bpb}
use rust_fatfs.Boot.Bpb.{Reads-bpb, Writes-bpb}

length-take : (n : ℕ) (xs : List ℕ) → n ≤ length xs → length (take n xs) ≡ n
length-take zero xs h = refl
length-take (suc n) [] h = absurd (omega arith)
length-take (suc n) (x ∷ xs) h = ap suc (length-take n xs (omega arith))

All-take : (n : ℕ) (xs : List ℕ) → All IsByte xs → All IsByte (take n xs)
All-take zero xs h = tt
All-take (suc n) [] h = tt
All-take (suc n) (x ∷ xs) h = (h.0, All-take n xs h.1)

-- A boot sector as the source can hold and write it: of the struct's widths; without FAT32 the
-- FAT32 fields are the defaults, and with it the boot code ends in 28 zeros; unless `ext_sig` is
-- 0x29 the fields after it are clean.
pub record IsBoot (boot : BootSector) : Type 0 where
  pub bootjmp : IsArray 3 boot.bootjmp
  pub oem_name : IsArray 8 boot.oem_name
  pub sized : IsSized boot.bpb
  pub plain : is_fat32 boot.bpb ≡ false → without_fat32 boot.bpb ≡ boot.bpb
  pub cleaned : clean boot.bpb ≡ boot.bpb
  pub boot_code : IsArray 448 boot.boot_code
  pub short : is_fat32 boot.bpb ≡ true → take 420 boot.boot_code ++ replicate 28 0 ≡ boot.boot_code
  pub boot_sig : IsArray 2 boot.boot_sig

abbrev code_of : BootSector → List ℕ
code_of boot = if is_fat32 boot.bpb then take 420 boot.boot_code else take 448 boot.boot_code

abbrev bytes_boot : BootSector → List ℕ
bytes_boot boot =
    boot.bootjmp ++ (boot.oem_name ++ (bytes_bpb boot.bpb ++ (code_of boot ++ boot.boot_sig)))

module _ {S : Type 0} {stream : Stream S} (c : IsBytes stream) (boot : BootSector)
    (z : IsBoot boot) where
  code-IsByte : All IsByte (code_of boot)
  code-IsByte = elim (Bool-cases (is_fat32 boot.bpb)) [
    | inl t ↦ rw t (All-take 420 boot.boot_code z.boot_code.1)
    | inr n ↦ rw n (All-take 448 boot.boot_code z.boot_code.1)
  ]

  Writes-boot : Writes c (serialize stream boot) (bytes_boot boot)
  unfolding serialize
  Writes-boot = Writes-then c (Writes-write_all c _ z.bootjmp.1) (
      Writes-then c (Writes-write_all c _ z.oem_name.1) (
        Writes-then c (Writes-bpb c boot.bpb z.sized)
          (Writes-then c (Writes-write_all c _ code-IsByte) (Writes-write_all c _ z.boot_sig.1))))

  Reads-code :
      Reads c
        (if is_fat32 boot.bpb
          then (do code ← read_exact stream 420; pure (code ++ replicate 28 0))
          else read_exact stream 448)
        (code_of boot)
        boot.boot_code
  Reads-code =
      let size = z.boot_code.0 in
      elim (Bool-cases (is_fat32 boot.bpb)) [
        | inl t ↦ rw t (
            Reads-eq c
              (Reads-last c _ (
                Reads-exact c 420 (take 420 boot.boot_code)
                  (length-take 420 boot.boot_code (omega arith))))
              (z.short t))
        | inr n ↦ rw n (
            Reads-eq c
              (Reads-exact c 448 (take 448 boot.boot_code)
                (length-take 448 boot.boot_code (omega arith)))
              (subst (λ k. take k boot.boot_code ≡ boot.boot_code) size
                (take-length boot.boot_code)))
      ]

  Reads-boot : Reads c (deserialize stream) (bytes_boot boot) boot
  unfolding deserialize
  Reads-boot = Reads-bind c _ (Reads-exact c 3 boot.bootjmp z.bootjmp.0) (
      Reads-bind c _ (Reads-exact c 8 boot.oem_name z.oem_name.0) (
        Reads-bind c _ (Reads-bpb c boot.bpb z.sized z.plain z.cleaned) (
          Reads-bind c _ Reads-code (Reads-last c _ (Reads-exact c 2 boot.boot_sig z.boot_sig.0)))))

  -- The bytes of a boot sector are 512.
  length-bytes_boot : length (bytes_boot boot) ≡ 512
  length-bytes_boot =
      let jmp = z.bootjmp.0 in
      let oem = z.oem_name.0 in
      let reserved = z.sized.reserved_0.0 in
      let label = z.sized.volume_label.0 in
      let type = z.sized.fs_type_label.0 in
      let sig = z.boot_sig.0 in
      let code = z.boot_code.0 in
      let short = length-take 420 boot.boot_code (omega arith) in
      let long = length-take 448 boot.boot_code (omega arith) in
      elim (Bool-cases (is_fat32 boot.bpb)) [
        | inl t ↦ rw t (simp length-append (omega arith))
        | inr n ↦ rw n (simp length-append (omega arith))
      ]

  -- On a stream of bytes with room for a sector at the position: a boot sector with fields of
  -- their widths, which has defaults where its format has no field, is written there and read back.
  pub deserialize-serialize_whole :
      (s : S) (p : ℕ)
      → p + 512 ≤ c.size s
      → ((do seek_start stream p; serialize stream boot; seek_start stream p; deserialize stream)
          s).0
        ≡ ok boot
  deserialize-serialize_whole s p room =
      let e = length-bytes_boot in read-write c s p Reads-boot Writes-boot (omega arith)
