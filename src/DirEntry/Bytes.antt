-- ===== src/DirEntry/Bytes.antt =====
-- dir_entry.rs: the bytes of an entry.
use rust_fatfs.Base.{
  ℕ, ◌+◌, ◌*◌, ◌/◌, ◌%◌, ◌^◌, ◌<◌, ◌≡◌, refl, ◌∙◌, arith, bit_and, true, false, List, [], ◌∷◌, ◌++◌,
  length, All,
}
use rust_fatfs.Base.Bits.{bit_and_mask}
use rust_fatfs.Io.Contract.{IsByte}
use rust_fatfs.Io.Words.{bytes16, bytes32}
use rust_fatfs.DirEntry.{
  DirFileEntryData, DirLfnEntryData, DirEntryData, file, lfn, contains, attr_lfn,
}
use rust_fatfs.DirEntry.Codec.{units}

abbrev pub IsUnit16 : ℕ → Type 0
IsUnit16 n = n < 2 ^ 16

abbrev pub IsUnits : ℕ → List ℕ → Type 0
IsUnits n us = (length us ≡ n) × All IsUnit16 us

-- A file's entry with fields of their widths, whose attributes do not say that it is a name's.
pub record IsFile (e : DirFileEntryData) : Type 0 where
  pub name : (length e.name ≡ 11) × All IsByte e.name
  pub attrs : e.attrs < 64
  pub kind : contains e.attrs attr_lfn ≡ false
  pub reserved_0 : e.reserved_0 < 2 ^ 8
  pub create_time_0 : e.create_time_0 < 2 ^ 8
  pub create_time_1 : e.create_time_1 < 2 ^ 16
  pub create_date : e.create_date < 2 ^ 16
  pub access_date : e.access_date < 2 ^ 16
  pub first_cluster_hi : e.first_cluster_hi < 2 ^ 16
  pub modify_time : e.modify_time < 2 ^ 16
  pub modify_date : e.modify_date < 2 ^ 16
  pub first_cluster_lo : e.first_cluster_lo < 2 ^ 16
  pub size : e.size < 2 ^ 32

-- A part of a long name.
pub record IsLfn (e : DirLfnEntryData) : Type 0 where
  pub order : e.order < 2 ^ 8
  pub name_0 : IsUnits 5 e.name_0
  pub attrs : e.attrs < 64
  pub kind : contains e.attrs attr_lfn ≡ true
  pub entry_type : e.entry_type < 2 ^ 8
  pub checksum : e.checksum < 2 ^ 8
  pub name_1 : IsUnits 6 e.name_1
  pub reserved_0 : e.reserved_0 < 2 ^ 16
  pub name_2 : IsUnits 2 e.name_2

abbrev pub IsEntry : DirEntryData → Type 0
IsEntry (file e) = IsFile e
IsEntry (lfn e) = IsLfn e

abbrev pub bytes_units : List ℕ → List ℕ
bytes_units [] = []
bytes_units (u ∷ us) = bytes16 u ++ bytes_units us

pub units-bytes_units : (us : List ℕ) → All IsUnit16 us → units (bytes_units us) ≡ us
unfolding units
units-bytes_units [] h = refl
units-bytes_units (u ∷ us) h =
    let e : u % 256 + 256 * (u / 256 % 256) ≡ u = omega (arith, h.0) in
    rw (e, units-bytes_units us h.1) refl

pub length-bytes_units : (us : List ℕ) → length (bytes_units us) ≡ 2 * length us
length-bytes_units [] = refl
length-bytes_units (u ∷ us) = omega (arith, length-bytes_units us)

abbrev pub bytes_file : DirFileEntryData → List ℕ
bytes_file e =
    e.name
    ++ ((e.attrs ∷ [])
        ++ ((e.reserved_0 ∷ [])
            ++ ((e.create_time_0 ∷ [])
                ++ (bytes16 e.create_time_1
                    ++ (bytes16 e.create_date
                        ++ (bytes16 e.access_date
                            ++ (bytes16 e.first_cluster_hi
                                ++ (bytes16 e.modify_time
                                    ++ (bytes16 e.modify_date
                                        ++ (bytes16 e.first_cluster_lo ++ bytes32 e.size))))))))))

abbrev pub bytes_lfn : DirLfnEntryData → List ℕ
bytes_lfn e =
    (e.order ∷ [])
    ++ (bytes_units e.name_0
        ++ ((e.attrs ∷ [])
            ++ ((e.entry_type ∷ [])
                ++ ((e.checksum ∷ [])
                    ++ (bytes_units e.name_1 ++ (bytes16 e.reserved_0 ++ bytes_units e.name_2))))))

abbrev pub bytes_entry : DirEntryData → List ℕ
bytes_entry (file e) = bytes_file e
bytes_entry (lfn e) = bytes_lfn e

pub named_bits : (n : ℕ) → n < 64 → bit_and n 0x3F ≡ n
named_bits n h = bit_and_mask 6 n ∙ omega arith
