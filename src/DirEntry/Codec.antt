-- ===== src/DirEntry/Codec.antt =====
-- dir_entry.rs: reading and writing an entry.
use rust_fatfs.Base.{ℕ, zero, suc, ◌+◌, ◌*◌, bit_and, if◌then◌else◌, List, [], ◌∷◌, drop}
use rust_fatfs.Base.Result.{M, Result, ok, err, panic, stuck, unexpected_eof, pure, ◌>>=◌, ◌>>◌}
use rust_fatfs.Io.{
  Stream, read_exact, write_all, read_u8, read_u16_le, read_u32_le, write_u8, write_u16_le,
  write_u32_le,
}
use rust_fatfs.DirEntry.{
  DirFileEntryData, DirLfnEntryData, DirEntryData, file, lfn, default_file, contains, attr_lfn,
}

-- The units in `name[1..].chunks_exact(2)`.
unfoldable pub units : List ℕ → List ℕ
units (a ∷ b ∷ rest) = (a + 256 * b) ∷ units rest
units _ = []

-- `name[0]`
unfoldable pub first_byte : List ℕ → ℕ
first_byte [] = 0
first_byte (b ∷ _) = b

-- `rdr.read_exact(&mut name)` with the end of the file caught: there the answer is `missing`.
unfoldable pub or_missing {ℓ} :
    {S : Type ℓ} {A : Type 0} → (List ℕ → S → Result A × S) → A → Result (List ℕ) × S → Result A × S
or_missing rest missing (ok name, s) = rest name s
or_missing rest missing (err unexpected_eof, s) = (ok missing, s)
or_missing rest missing (err e, s) = (err e, s)
or_missing rest missing (panic, s) = (panic, s)
or_missing rest missing (stuck, s) = (stuck, s)

module _ {S : Type 0} (stream : Stream S) where
  -- `for x in &mut data.name { *x = rdr.read_u16_le()? }` for `n` units.
  unfoldable pub read_units : ℕ → M S (List ℕ)
  read_units zero = pure []
  read_units (suc n) = do x ← read_u16_le stream; rest ← read_units n; pure (x ∷ rest)

  -- `for ch in &self.name { wrt.write_u16_le(*ch)? }`
  unfoldable pub write_units : List ℕ → M S (Unit {0})
  write_units [] = pure tt
  write_units (ch ∷ rest) = do write_u16_le stream ch; write_units rest

  unfoldable pub deserialize_lfn : List ℕ → ℕ → M S DirEntryData
  unfolding first_byte units read_units
  deserialize_lfn name attrs = do
    entry_type ← read_u8 stream
    checksum ← read_u8 stream
    name_1 ← read_units 6
    reserved_0 ← read_u16_le stream
    name_2 ← read_units 2
    pure (
        lfn (record {
          order = first_byte name;
          name_0 = units (drop 1 name);
          attrs = attrs;
          entry_type = entry_type;
          checksum = checksum;
          name_1 = name_1;
          reserved_0 = reserved_0;
          name_2 = name_2;
        }))

  unfoldable pub deserialize_file : List ℕ → ℕ → M S DirEntryData
  deserialize_file name attrs = do
    reserved_0 ← read_u8 stream
    create_time_0 ← read_u8 stream
    create_time_1 ← read_u16_le stream
    create_date ← read_u16_le stream
    access_date ← read_u16_le stream
    first_cluster_hi ← read_u16_le stream
    modify_time ← read_u16_le stream
    modify_date ← read_u16_le stream
    first_cluster_lo ← read_u16_le stream
    size ← read_u32_le stream
    pure (
        file (record {
          name = name;
          attrs = attrs;
          reserved_0 = reserved_0;
          create_time_0 = create_time_0;
          create_time_1 = create_time_1;
          create_date = create_date;
          access_date = access_date;
          first_cluster_hi = first_cluster_hi;
          modify_time = modify_time;
          modify_date = modify_date;
          first_cluster_lo = first_cluster_lo;
          size = size;
        }))

  -- `from_bits_truncate` keeps the six bits that have a name.
  unfoldable pub deserialize_rest : List ℕ → M S DirEntryData
  unfolding contains
  deserialize_rest name = do
    bits ← read_u8 stream
    (let attrs = bit_and bits 0x3F in
        if contains attrs attr_lfn then deserialize_lfn name attrs else deserialize_file name attrs)

  unfoldable pub deserialize : M S DirEntryData
  unfolding or_missing
  deserialize s = or_missing deserialize_rest (file default_file) (read_exact stream 11 s)

  unfoldable pub serialize_file : DirFileEntryData → M S (Unit {0})
  serialize_file e = do
    write_all stream e.name
    write_u8 stream e.attrs
    write_u8 stream e.reserved_0
    write_u8 stream e.create_time_0
    write_u16_le stream e.create_time_1
    write_u16_le stream e.create_date
    write_u16_le stream e.access_date
    write_u16_le stream e.first_cluster_hi
    write_u16_le stream e.modify_time
    write_u16_le stream e.modify_date
    write_u16_le stream e.first_cluster_lo
    write_u32_le stream e.size

  unfoldable pub serialize_lfn : DirLfnEntryData → M S (Unit {0})
  unfolding write_units
  serialize_lfn e = do
    write_u8 stream e.order
    write_units e.name_0
    write_u8 stream e.attrs
    write_u8 stream e.entry_type
    write_u8 stream e.checksum
    write_units e.name_1
    write_u16_le stream e.reserved_0
    write_units e.name_2

  unfoldable pub serialize : DirEntryData → M S (Unit {0})
  unfolding serialize_file serialize_lfn
  serialize (file e) = serialize_file e
  serialize (lfn e) = serialize_lfn e
