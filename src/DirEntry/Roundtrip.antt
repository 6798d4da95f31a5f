-- ===== src/DirEntry/Roundtrip.antt =====
-- dir_entry.rs: an entry that is written is read back.
use rust_fatfs.Base.{
  ℕ, zero, suc, ◌+◌, ◌≤◌, ◌≡◌, refl, ◌∙◌, ap, arith, List, [], ◌∷◌, ◌++◌, length, length-append,
}
use rust_fatfs.Base.Result.{ok, ◌>>=◌, ◌>>◌}
use rust_fatfs.Io.{Stream, seek_start, read_exact}
use rust_fatfs.Io.Contract.{IsBytes}
use rust_fatfs.Io.Words.{bytes16, bytes32}
use rust_fatfs.Io.Codec.{
  At-take, Reads, Writes, Reads-bind, Reads-pure, Reads-u8, Reads-u16, Reads-u32, Reads-exact,
  Reads-eq, Reads-last, Writes-nothing, Writes-u8, Writes-u16, Writes-u32, Writes-write_all,
  Writes-then, read-write,
}
use rust_fatfs.DirEntry.{DirFileEntryData, DirLfnEntryData, DirEntryData, file, lfn, default_file}
use rust_fatfs.DirEntry.Codec.{
  units, first_byte, or_missing, read_units, write_units, deserialize_lfn, deserialize_file,
  deserialize_rest, deserialize, serialize_file, serialize_lfn, serialize,
}
use rust_fatfs.DirEntry.Bytes.{
  IsUnits, IsFile, IsLfn, IsEntry, bytes_units, units-bytes_units, length-bytes_units, bytes_entry,
  named_bits,
}

module _ {S : Type 0} {stream : Stream S} (c : IsBytes stream) where
  Writes-units : (us : List ℕ) → Writes c (write_units stream us) (bytes_units us)
  unfolding write_units
  Writes-units [] = Writes-nothing c
  Writes-units (u ∷ us) = Writes-then c (Writes-u16 c u) (Writes-units us)

  Reads-units :
      (n : ℕ) (us : List ℕ) → IsUnits n us → Reads c (read_units stream n) (bytes_units us) us
  unfolding read_units
  Reads-units zero [] h = Reads-pure c []
  Reads-units zero (u ∷ us) h = absurd (omega (arith, h.0))
  Reads-units (suc n) [] h = absurd (omega (arith, h.0))
  Reads-units (suc n) (u ∷ us) h =
      Reads-bind c _ (Reads-u16 c u h.1.0)
        (Reads-last c _ (Reads-units n us (omega (arith, h.0), h.1.1)))

  pub Writes-entry : (e : DirEntryData) → IsEntry e → Writes c (serialize stream e) (bytes_entry e)
  unfolding serialize serialize_file serialize_lfn
  Writes-entry (file e) z = Writes-then c (Writes-write_all c _ z.name.1) (
      Writes-then c (Writes-u8 c _ (omega (arith, z.attrs))) (
        Writes-then c (Writes-u8 c _ z.reserved_0) (
          Writes-then c (Writes-u8 c _ z.create_time_0) (
            Writes-then c (Writes-u16 c _) (
              Writes-then c (Writes-u16 c _) (
                Writes-then c (Writes-u16 c _) (
                  Writes-then c (Writes-u16 c _) (
                    Writes-then c (Writes-u16 c _) (
                      Writes-then c (Writes-u16 c _)
                        (Writes-then c (Writes-u16 c _) (Writes-u32 c _)))))))))))
  Writes-entry (lfn e) z = Writes-then c (Writes-u8 c _ z.order) (
      Writes-then c (Writes-units e.name_0) (
        Writes-then c (Writes-u8 c _ (omega (arith, z.attrs))) (
          Writes-then c (Writes-u8 c _ z.entry_type) (
            Writes-then c (Writes-u8 c _ z.checksum) (
              Writes-then c (Writes-units e.name_1)
                (Writes-then c (Writes-u16 c _) (Writes-units e.name_2)))))))

  -- Behind a name that is there, the rest is read.
  Reads-name :
      (name ys : List ℕ) (e : DirEntryData)
      → length name ≡ 11
      → Reads c (deserialize_rest stream name) ys e
      → Reads c (deserialize stream) (name ++ ys) e
  unfolding deserialize
  Reads-name name ys e h r = record {
    run = λ s room at.
        let first = Reads-exact c 11 name h in
        let fits = length-append name ys in
        let (z, ez, sz, pz, bz) =
          first.run s (omega arith) (At-take (c.byte s) (c.pos s) name ys at) in
        let (y, ey, sy, py, by) = (Reads-bind c (deserialize_rest stream) first r).run s room at in
        let same : or_missing (deserialize_rest stream) (file default_file) (read_exact stream 11 s)
            ≡ (read_exact stream 11 >>= deserialize_rest stream) s =
          rw ez refl in
        (y, same ∙ ey, sy, py, by);
  }

  Reads-file :
      (e : DirFileEntryData)
      → IsFile e
      → Reads c
          (deserialize_file stream e.name e.attrs)
          ((e.reserved_0 ∷ [])
            ++ ((e.create_time_0 ∷ [])
                ++ (bytes16 e.create_time_1
                    ++ (bytes16 e.create_date
                        ++ (bytes16 e.access_date
                            ++ (bytes16 e.first_cluster_hi
                                ++ (bytes16 e.modify_time
                                    ++ (bytes16 e.modify_date
                                        ++ (bytes16 e.first_cluster_lo ++ bytes32 e.size)))))))))
          (file e)
  unfolding deserialize_file
  Reads-file e z = Reads-bind c _ (Reads-u8 c _ z.reserved_0) (
      Reads-bind c _ (Reads-u8 c _ z.create_time_0) (
        Reads-bind c _ (Reads-u16 c _ z.create_time_1) (
          Reads-bind c _ (Reads-u16 c _ z.create_date) (
            Reads-bind c _ (Reads-u16 c _ z.access_date) (
              Reads-bind c _ (Reads-u16 c _ z.first_cluster_hi) (
                Reads-bind c _ (Reads-u16 c _ z.modify_time) (
                  Reads-bind c _ (Reads-u16 c _ z.modify_date) (
                    Reads-bind c _ (Reads-u16 c _ z.first_cluster_lo)
                      (Reads-last c _ (Reads-u32 c _ z.size))))))))))

  Reads-lfn :
      (e : DirLfnEntryData)
      → IsLfn e
      → Reads c
          (deserialize_lfn stream (e.order ∷ bytes_units e.name_0) e.attrs)
          ((e.entry_type ∷ [])
            ++ ((e.checksum ∷ [])
                ++ (bytes_units e.name_1 ++ (bytes16 e.reserved_0 ++ bytes_units e.name_2))))
          (lfn e)
  unfolding deserialize_lfn first_byte
  Reads-lfn e z =
      let own : (λ (us : List ℕ). lfn (record e { name_0 = us })) (units (bytes_units e.name_0))
          ≡ lfn e =
        ap (λ (us : List ℕ). lfn (record e { name_0 = us }))
          (units-bytes_units e.name_0 z.name_0.1) in
      Reads-bind c _ (Reads-u8 c _ z.entry_type) (
        Reads-bind c _ (Reads-u8 c _ z.checksum) (
          Reads-bind c _ (Reads-units 6 e.name_1 z.name_1) (
            Reads-bind c _ (Reads-u16 c _ z.reserved_0)
              (Reads-eq c (Reads-last c _ (Reads-units 2 e.name_2 z.name_2)) own))))

  pub Reads-entry : (e : DirEntryData) → IsEntry e → Reads c (deserialize stream) (bytes_entry e) e
  unfolding deserialize_rest
  Reads-entry (file e) z = Reads-name e.name _ (file e) z.name.0 (
      Reads-bind c _ (Reads-u8 c _ (omega (arith, z.attrs)))
        (rw (named_bits e.attrs z.attrs, z.kind) (Reads-file e z)))
  Reads-entry (lfn e) z =
      Reads-name (e.order ∷ bytes_units e.name_0) _ (lfn e)
        (omega (arith, length-bytes_units e.name_0, z.name_0.0))
        (Reads-bind c _ (Reads-u8 c _ (omega (arith, z.attrs)))
          (rw (named_bits e.attrs z.attrs, z.kind) (Reads-lfn e z)))

  pub length-bytes_entry : (e : DirEntryData) → IsEntry e → length (bytes_entry e) ≡ 32
  length-bytes_entry (file e) z = let name = z.name.0 in simp length-append (omega arith)
  length-bytes_entry (lfn e) z =
      let a = z.name_0.0 in
      let b = z.name_1.0 in
      let d = z.name_2.0 in
      let x = length-bytes_units e.name_0 in
      let y = length-bytes_units e.name_1 in
      let w = length-bytes_units e.name_2 in simp length-append (omega arith)

  -- On a stream of bytes with room for 32 bytes at the position: an entry of either kind, whose
  -- fields have their widths and whose attributes say its kind, is written there and read back.
  pub deserialize-serialize_entry :
      (s : S) (p : ℕ) (e : DirEntryData)
      → IsEntry e
      → p + 32 ≤ c.size s
      → ((do seek_start stream p; serialize stream e; seek_start stream p; deserialize stream) s).0
        ≡ ok e
  deserialize-serialize_entry s p e z room =
      let size = length-bytes_entry e z in
      read-write c s p (Reads-entry e z) (Writes-entry e z) (omega arith)
