-- ===== src/Lfn/Buffer.antt =====
-- The buffer of the builder: no entry, however corrupted, makes `process` write out of its bounds.
use rust_fatfs.Base.{
  ℕ, ◌+◌, ◌-◌, ◌*◌, ◌≤◌, ◌≡◌, refl, ◌∙◌, arith, List, [], ◌∷◌, ◌++◌, length, take, drop,
  length-append, length-take, length-drop, ltb, Bool-cases, le→ltb, inl, inr, ◌==◌, All, bit_and,
  false, ◌||◌, not,
}
use rust_fatfs.Base.Result.{ok}
use rust_fatfs.DirEntry.{DirLfnEntryData}
use rust_fatfs.Lfn.{
  LongNameBuilder, clear, copy_name_to_slice, process, process_all, name_units, set_len,
}
use rust_fatfs.Lfn.Roundtrip.{length-set_len}
use rust_fatfs.Lfn.Loop.{process_all_round, process_all_end}

pub record IsValid (b : LongNameBuilder) : Type 0 where
  pub index_small : b.index ≤ 20
  pub buf_long : 13 * b.index ≤ length b.buf
  pub buf_short : length b.buf ≤ 260
  pub buf_fresh : b.index ≡ 0 → b.buf ≡ []

-- The parts of an entry that was read from a directory.
abbrev pub HasParts : DirLfnEntryData → Type 0
HasParts entry = length (name_units entry) ≡ 13

copy-IsValid :
    (b : LongNameBuilder) (pos : ℕ) (entry : DirLfnEntryData)
    → HasParts entry
    → b.index ≤ 20
    → 1 ≤ b.index
    → 13 * b.index ≤ length b.buf
    → length b.buf ≤ 260
    → pos + 13 ≤ length b.buf
    → (b' : LongNameBuilder) × (copy_name_to_slice b pos entry ≡ ok b') × IsValid b'
unfolding copy_name_to_slice
copy-IsValid b pos entry parts i j l m h =
    let buf' = take pos b.buf ++ (name_units entry ++ drop (pos + 13) b.buf) in
    let size : length buf' ≡ length b.buf = omega (
      arith,
      length-append (take pos b.buf) (name_units entry ++ drop (pos + 13) b.buf),
      length-append (name_units entry) (drop (pos + 13) b.buf),
      length-take pos b.buf (omega arith),
      length-drop (pos + 13) b.buf,
    ) in
    (
      record b { buf = buf' },
      rw (le→ltb (length b.buf) (pos + 13) h) refl,
      record {
        index_small = i;
        buf_long = omega arith;
        buf_short = omega arith;
        buf_fresh = λ e. absurd (omega arith);
      },
    )

index_bounds : (i : ℕ) → (i == 0 || ltb 20 i) ≡ false → (1 ≤ i) × (i ≤ 20)
index_bounds i h = ground arith

next_bounds :
    (x i c d : ℕ) → (x == 0 || (not (i == x - 1) || not (c == d))) ≡ false → (i ≡ x - 1) × (1 ≤ x)
next_bounds x i c d h = ground arith

process-IsValid :
    (b : LongNameBuilder) (entry : DirLfnEntryData)
    → HasParts entry
    → IsValid b
    → (b' : LongNameBuilder) × (process b entry ≡ ok b') × IsValid b'
unfolding process
process-IsValid b entry parts v =
    let i = bit_and entry.order 0x1F in
    let cleared : IsValid (clear b) = record {
      index_small = omega arith;
      buf_long = omega arith;
      buf_short = omega arith;
      buf_fresh = λ e. refl;
    } in
    elim (Bool-cases (i == 0 || ltb 20 i)) [
      | inl bad ↦ rw bad (clear b, refl, cleared)
      | inr good ↦ rw good (elim (Bool-cases (not (bit_and entry.order 0x40 == 0))) [
        | inl last ↦ rw last (
            let bounds = index_bounds i good in
            let size = length-set_len b.buf (i * 13) in
            copy-IsValid
              (record { index = i; chksum = entry.checksum; buf = set_len b.buf (i * 13) })
              (13 * (i - 1)) entry parts bounds.1 bounds.0 (omega (arith, size))
              (omega (arith, size)) (omega (arith, size)))
        | inr other ↦
            rw other
              (elim (Bool-cases
                (b.index == 0 || (not (i == b.index - 1) || not (entry.checksum == b.chksum)))) [
                  | inl bad ↦ rw bad (clear b, refl, cleared)
                  | inr next ↦ rw next (
                      let bounds = index_bounds i good in
                      let same = next_bounds b.index i entry.checksum b.chksum next in
                      copy-IsValid (record b { index = b.index - 1 }) (13 * (i - 1)) entry parts
                        (omega arith) (omega arith) (omega arith) v.buf_short (omega arith))
                ])
      ])
    ]

-- From any builder whose index fits its buffer, a new one among them, any sequence of entries is
-- processed without an index out of range, and the buffer keeps to 260 units, so that the array of
-- the build without `alloc` holds it.
pub process_all-IsValid :
    (b : LongNameBuilder) (entries : List DirLfnEntryData)
    → All HasParts entries
    → IsValid b
    → (b' : LongNameBuilder) × (process_all b entries ≡ ok b') × IsValid b'
process_all-IsValid b [] parts v = (b, process_all_end b, v)
process_all-IsValid b (entry ∷ rest) parts v =
    let one = process-IsValid b entry parts.0 v in
    let all = process_all-IsValid one.0 rest parts.1 one.2 in
    (all.0, process_all_round b one.0 entry rest one.1 ∙ all.1, all.2)
