-- ===== src/Lfn.antt =====
-- dir.rs: the long name of an entry, split into entries of thirteen 16-bit units when it is written and
-- put together when it is read. The buffer is that of the `alloc` build, a vector.
pub mod Parts
pub mod Loop
pub mod Roundtrip
pub mod Names
pub mod Stored
pub mod Buffer
pub mod Complete
use rust_fatfs.Base.{
  ℕ, zero, suc, ◌+◌, ◌-◌, ◌*◌, ◌/◌, ◌%◌, ◌^◌, ◌≤◌, ◌<◌, ◌≡◌, ◌≢◌, ◌⊎◌, inl, inr, refl, ◌∙◌, sym, ap,
  arith, bit_and, bit_or, Bool, true, false, ◌==◌, ltb, leb, if◌then◌else◌, Bool-cases, lt→ltb,
  ltb→lt, le→ltb, ltb→le, Option-cases, ◌&&◌, ◌||◌, not, List, [], ◌∷◌, ◌++◌, Option, some, none,
  length, All, ◌↔◌, min, max, map, take, drop, replicate, drop-length, take-length, length-append,
}
use rust_fatfs.Base.Result.{Result, ok, err, panic, stuck, Error}
use rust_fatfs.DirEntry.{DirLfnEntryData, attr_lfn}

abbrev pub lfn_part_len : ℕ
lfn_part_len = 13

abbrev pub lfn_padding : ℕ
lfn_padding = 0xFFFF

abbrev pub lfn_entry_last_flag : ℕ
lfn_entry_last_flag = 0x40

abbrev pub max_long_name_len : ℕ
max_long_name_len = 255

abbrev pub max_long_dir_entries : ℕ
max_long_dir_entries = (max_long_name_len + lfn_part_len - 1) / lfn_part_len

-- The loop over the bytes of the short name, in wrapping `u8` arithmetic.
unfoldable pub checksum_loop : ℕ → List ℕ → ℕ
checksum_loop chksum [] = chksum
checksum_loop chksum (b ∷ rest) = checksum_loop ((chksum * 2 ^ 7 % 256 + chksum / 2 + b) % 256) rest

unfoldable pub lfn_checksum : List ℕ → ℕ
unfolding checksum_loop
lfn_checksum short_name = checksum_loop 0 short_name

-- `DirLfnEntryData::new`
unfoldable pub new_lfn : ℕ → ℕ → DirLfnEntryData
new_lfn order checksum = record {
  order = order;
  name_0 = replicate 5 0;
  attrs = attr_lfn;
  entry_type = 0;
  checksum = checksum;
  name_1 = replicate 6 0;
  reserved_0 = 0;
  name_2 = replicate 2 0;
}

unfoldable pub copy_name_from_slice : DirLfnEntryData → List ℕ → DirLfnEntryData
copy_name_from_slice entry lfn_part = record entry {
  name_0 = take 5 lfn_part;
  name_1 = take 6 (drop 5 lfn_part);
  name_2 = take 2 (drop 11 lfn_part);
}

-- The thirteen units that `copy_name_to_slice` writes.
unfoldable pub name_units : DirLfnEntryData → List ℕ
name_units entry = entry.name_0 ++ (entry.name_1 ++ entry.name_2)

-- `iter().rposition`
unfoldable pub rposition : (ℕ → Bool) → List ℕ → Option ℕ
rposition p [] = none
rposition p (x ∷ xs) = elim (rposition p xs) [
  | some i ↦ some (i + 1)
  | none ↦ if p x then some 0 else none
]

-- `map_or(0, |n| n + 1)`
unfoldable pub end_of : Option ℕ → ℕ
end_of none = 0
end_of (some n) = n + 1

-- `Vec::resize` with zeros
unfoldable pub set_len : List ℕ → ℕ → List ℕ
set_len units len = take len units ++ replicate (len - length units) 0

pub record LongNameBuilder : Type 0 where
  pub buf : List ℕ
  pub chksum : ℕ
  pub index : ℕ

unfoldable pub new_builder : LongNameBuilder
new_builder = record { buf = []; chksum = 0; index = 0 }

unfoldable pub clear : LongNameBuilder → LongNameBuilder
clear b = record b { buf = []; index = 0 }

unfoldable pub is_name_unit : ℕ → Bool
is_name_unit c = not (c == 0xFFFF) && not (c == 0)

unfoldable pub truncate : LongNameBuilder → LongNameBuilder
unfolding set_len rposition end_of is_name_unit
truncate b = record b { buf = set_len b.buf (end_of (rposition is_name_unit b.buf)) }

unfoldable pub is_empty : LongNameBuilder → Bool
is_empty b = b.index == 0

unfoldable pub into_buf : LongNameBuilder → List ℕ
unfolding truncate is_empty clear
into_buf b =
    if b.index == 1 then (truncate b).buf else if not (is_empty b) then (clear b).buf else b.buf

-- The last two lines of `process`: the slice of the buffer is out of range where it panics.
unfoldable pub copy_name_to_slice : LongNameBuilder → ℕ → DirLfnEntryData → Result LongNameBuilder
unfolding name_units
copy_name_to_slice b pos entry =
    if ltb (length b.buf) (pos + 13)
    then panic
    else ok (record b { buf = take pos b.buf ++ (name_units entry ++ drop (pos + 13) b.buf) })

unfoldable pub process : LongNameBuilder → DirLfnEntryData → Result LongNameBuilder
unfolding set_len clear
process b entry =
    let is_last = not (bit_and entry.order lfn_entry_last_flag == 0) in
    let index = bit_and entry.order 0x1F in
    let pos = lfn_part_len * (index - 1) in
    if index == 0 || ltb max_long_dir_entries index
    then ok (clear b)
    else if is_last
    then copy_name_to_slice
        (record b {
          index = index;
          chksum = entry.checksum;
          buf = set_len b.buf (index * lfn_part_len);
        })
        pos entry
    else if b.index == 0 || (not (index == b.index - 1) || not (entry.checksum == b.chksum))
    then ok (clear b)
    else copy_name_to_slice (record b { index = b.index - 1 }) pos entry

unfoldable pub validate_chksum : LongNameBuilder → List ℕ → LongNameBuilder
unfolding is_empty lfn_checksum clear
validate_chksum b short_name =
    if is_empty b then b else if not (lfn_checksum short_name == b.chksum) then clear b else b

-- `name_parts_iter`, `chunks(13).rev()`, is the part of the name that it has not taken yet.
pub record LfnEntriesGenerator : Type 0 where
  pub name_parts_iter : List ℕ
  pub checksum : ℕ
  pub index : ℕ
  pub num : ℕ
  pub ended : Bool

unfoldable pub new_generator : List ℕ → ℕ → LfnEntriesGenerator
new_generator name_utf16 checksum = record {
  name_parts_iter = name_utf16;
  checksum = checksum;
  index = 0;
  num = (length name_utf16 + lfn_part_len - 1) / lfn_part_len;
  ended = false;
}

-- Where the last chunk of thirteen starts, the first that `chunks(13).rev()` takes.
unfoldable pub last_chunk : List ℕ → ℕ
last_chunk units =
    let rem = length units % lfn_part_len in length units - (if rem == 0 then lfn_part_len else rem)

-- The part, a zero after it if it is short, and padding.
unfoldable pub pad_part : List ℕ → List ℕ
pad_part name_part =
    if ltb (length name_part) lfn_part_len
    then name_part ++ (0 ∷ replicate (lfn_part_len - length name_part - 1) lfn_padding)
    else name_part

unfoldable pub make_entry : LfnEntriesGenerator → List ℕ → DirLfnEntryData
unfolding pad_part new_lfn copy_name_from_slice
make_entry g name_part =
    let lfn_index = (g.num - g.index) % 256 in
    let order = if g.index == 0 then bit_or lfn_index lfn_entry_last_flag else lfn_index in
    copy_name_from_slice (new_lfn order g.checksum) (pad_part name_part)

-- `LfnEntriesGenerator::next`
unfoldable pub next : LfnEntriesGenerator → Option DirLfnEntryData × LfnEntriesGenerator
unfolding last_chunk make_entry
next g =
    let at = last_chunk g.name_parts_iter in
    if g.ended
    then (none, g)
    else if length g.name_parts_iter == 0
    then (none, record g { ended = true })
    else (
      some (make_entry g (drop at g.name_parts_iter)),
      record g { name_parts_iter = take at g.name_parts_iter; index = g.index + 1 },
    )

-- `for lfn_entry in lfn_iter`, with fuel.
unfoldable pub collect_entries : ℕ → LfnEntriesGenerator → List DirLfnEntryData
collect_entries zero g = []
collect_entries (suc fuel) g =
    let r = next g in elim r.0 [ none ↦ [] | some entry ↦ entry ∷ collect_entries fuel r.1 ]

-- The units of all parts have been taken after as many rounds, and one finds the end.
unfoldable pub lfn_entries : List ℕ → ℕ → List DirLfnEntryData
unfolding collect_entries new_generator
lfn_entries name_utf16 checksum =
    let g = new_generator name_utf16 checksum in collect_entries (g.num + 1) g

-- `DirIter::read_dir_entry` hands each long name entry to the builder.
unfoldable pub process_all : LongNameBuilder → List DirLfnEntryData → Result LongNameBuilder
process_all b [] = ok b
process_all b (entry ∷ rest) = elim (process b entry) [
  | ok b' ↦ process_all b' rest
  | err e ↦ err e
  | panic ↦ panic
  | stuck ↦ stuck
]
