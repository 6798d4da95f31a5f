-- ===== src/Lfn/Roundtrip.antt =====
-- A long name that is written as entries and read back.
use rust_fatfs.Base.{
  ℕ, zero, suc, ◌+◌, ◌-◌, ◌*◌, ◌/◌, ◌≤◌, ◌<◌, ◌≡◌, refl, sym, ap, ◌∙◌, arith, List, [], ◌∷◌, ◌++◌,
  length, take, drop, replicate, length-append, length-replicate, length-take, length-drop,
  append-nil, append_assoc, take-append-drop, take-append_eq, ltb, Bool-cases, inl, inr, bit_or,
  true, some, none,
}
use rust_fatfs.Base.Result.{ok}
use rust_fatfs.DirEntry.{DirLfnEntryData}
use rust_fatfs.Lfn.{
  LongNameBuilder, process, process_all, next, make_entry, last_chunk, pad_part, name_units,
  new_lfn, new_generator, lfn_entries, lfn_checksum, set_len, validate_chksum, into_buf, rposition,
  is_name_unit, end_of, lfn_padding,
}
use rust_fatfs.Lfn.Parts.{
  name_units-copy_name_from_slice, length-pad_part, pad_part_lem, order_first, padding,
}
use rust_fatfs.Lfn.Loop.{
  building, generating, copy_name_to_slice_lem, collect_entries_round, process_all_round,
  process_all-collect_entries,
}

resized : (n : ℕ) (xs : List ℕ) → length (take n xs) + (n - length xs) ≡ n
resized zero xs = omega arith
resized (suc n) [] = omega arith
resized (suc n) (x ∷ xs) = omega (arith, resized n xs)

pub length-set_len : (xs : List ℕ) (n : ℕ) → length (set_len xs n) ≡ n
unfolding set_len
length-set_len xs n = omega (
  arith,
  resized n xs,
  length-append (take n xs) (replicate (n - length xs) 0),
  length-replicate (n - length xs) (let z : ℕ = 0 in z),
)

process_first :
    (b : LongNameBuilder) (c k : ℕ) (entry : DirLfnEntryData)
    → k < 20
    → entry.order ≡ bit_or (suc k) 0x40
    → entry.checksum ≡ c
    → process b entry
      ≡ ok (building (take (13 * k) (set_len b.buf (suc k * 13)) ++ name_units entry) c (suc k))
unfolding process
process_first b c k entry small order sum =
    let bits = order_first (suc k) (omega arith) in
    let front = set_len b.buf (suc k * 13) in
    let copy =
      copy_name_to_slice_lem front [] c (suc k) (13 * k) entry
        (omega (arith, length-set_len b.buf (suc k * 13))) in
    rw (order, sum, bits.0, bits.1)
      (ground (arith, copy, append-nil front, append-nil (name_units entry)))

last_chunk_first :
    (v : List ℕ) (k : ℕ) → 13 * k < length v → length v ≤ 13 * suc k → last_chunk v ≡ 13 * k
unfolding last_chunk
last_chunk_first v k h l = ground arith

make_entry_first :
    (part : List ℕ) (v : List ℕ) (c k : ℕ)
    → length part ≤ 13
    → k < 20
    → (name_units (make_entry (generating v c 0 (suc k)) part) ≡ pad_part part)
      × ((make_entry (generating v c 0 (suc k)) part).order ≡ bit_or (suc k) 0x40)
      × ((make_entry (generating v c 0 (suc k)) part).checksum ≡ c)
unfolding make_entry
make_entry_first part v c k full small = ground (
  arith,
  name_units-copy_name_from_slice (new_lfn (bit_or (suc k) 0x40) c) (pad_part part)
      (length-pad_part part full),
)

next_first :
    (v : List ℕ) (c k : ℕ)
    → 13 * k < length v
    → length v ≤ 13 * suc k
    → next (generating v c 0 (suc k)) ≡ (
      some (make_entry (generating v c 0 (suc k)) (drop (13 * k) v)),
      generating (take (13 * k) v) c 1 (suc k),
    )
unfolding next
next_first v c k h l = rw (last_chunk_first v k h l) (ground arith)

-- All entries of a name, whatever the builder held before.
pub process_all-lfn_entries :
    (b : LongNameBuilder) (v : List ℕ) (c k : ℕ)
    → 13 * k < length v
    → length v ≤ 13 * suc k
    → k < 20
    → process_all b (lfn_entries v c) ≡ ok (building (v ++ padding (length v - 13 * k)) c 1)
unfolding lfn_entries new_generator
process_all-lfn_entries b v c k h l small =
    let part = drop (13 * k) v in
    let size : length part ≡ length v - 13 * k = length-drop (13 * k) v in
    let entry = make_entry (generating v c 0 (suc k)) part in
    let fields = make_entry_first part v c k (omega arith) small in
    let front = take (13 * k) (set_len b.buf (suc k * 13)) in
    let count : (length v + 13 - 1) / 13 ≡ suc k = omega arith in
    let rest =
      process_all-collect_entries k 1 (take (13 * k) v) front (pad_part part) c
        (length-take (13 * k) v (omega arith))
        (length-take (13 * k) (set_len b.buf (suc k * 13))
          (omega (arith, length-set_len b.buf (suc k * 13))))
        (omega arith) (omega arith) in
    let n : k + 1 ≡ suc k = omega arith in
    let m : suc k + 1 ≡ suc (suc k) = omega arith in
    let whole : take (13 * k) v ++ pad_part part ≡ v ++ padding (length v - 13 * k) =
      ap (λ t. take (13 * k) v ++ t) (pad_part_lem part)
      ∙ sym (append_assoc (take (13 * k) v) part (padding (length part)))
      ∙ ap (λ t. t ++ padding (length part)) (take-append-drop (13 * k) v)
      ∙ ap (λ t. v ++ padding t) size in
    rw (count, m)
      (ap (process_all b) (collect_entries_round (suc k) _ _ entry (next_first v c k h l))
        ∙ process_all_round b _ entry _ (process_first b c k entry small fields.1 fields.2)
        ∙ rw (fields.0, sym whole) (rw n at rest))

-- Padding is no part of the name.
rposition-lfn_padding : (n : ℕ) → rposition is_name_unit (replicate n lfn_padding) ≡ none
unfolding rposition is_name_unit
rposition-lfn_padding zero = refl
rposition-lfn_padding (suc n) = rw (rposition, rposition-lfn_padding n) refl

pub rposition-padding : (n : ℕ) → rposition is_name_unit (padding n) ≡ none
unfolding padding rposition is_name_unit
rposition-padding n = elim (Bool-cases (ltb n 13)) [
  | inl short ↦ rw short (rw (rposition, rposition-lfn_padding (12 - n)) refl)
  | inr full ↦ rw full refl
]

rposition_name :
    (name pad : List ℕ) (x : ℕ)
    → is_name_unit x ≡ true
    → rposition is_name_unit pad ≡ none
    → rposition is_name_unit (name ++ (x ∷ pad)) ≡ some (length name)
unfolding rposition
rposition_name [] pad x h none_left = rw (none_left, h) refl
rposition_name (y ∷ name) pad x h none_left =
    rw (rposition_name name pad x h none_left) (ap some (omega arith))

-- A buffer that is cut to the end of its name.
set_len_prefix : (xs ys : List ℕ) (n : ℕ) → n ≡ length xs → set_len (xs ++ ys) n ≡ xs
unfolding set_len
set_len_prefix xs ys n h =
    let none_added : n - length (xs ++ ys) ≡ 0 = omega (arith, length-append xs ys) in
    rw (take-append_eq n xs ys h, none_added) (append-nil xs)

pub validate_chksum_same :
    (b : LongNameBuilder) (short_name : List ℕ)
    → lfn_checksum short_name ≡ b.chksum
    → validate_chksum b short_name ≡ b
unfolding validate_chksum
validate_chksum_same b short_name h = ground arith

truncated :
    (name : List ℕ) (x p c : ℕ)
    → is_name_unit x ≡ true
    → into_buf (building ((name ++ (x ∷ [])) ++ padding p) c 1) ≡ name ++ (x ∷ [])
unfolding into_buf end_of
truncated name x p c h =
    let whole = append_assoc name (x ∷ []) (padding p) in
    let last : rposition is_name_unit ((name ++ (x ∷ [])) ++ padding p) ≡ some (length name) =
      rw whole (rposition_name name (padding p) x h (rposition-padding p)) in
    rw last (
      set_len_prefix (name ++ (x ∷ [])) (padding p) (length name + 1)
        (sym (length-append name (x ∷ []))))

-- A name of 1 to 255 units of which the last is neither 0 nor 0xFFFF: the entries that the
-- generator makes for it, given to the builder in their order, are taken without a panic whatever
-- the builder held before, and the buffer that remains after the checksum is compared is the name.
pub into_buf-lfn_entries :
    (b : LongNameBuilder) (name : List ℕ) (x : ℕ) (short_name : List ℕ)
    → length name < 255
    → is_name_unit x ≡ true
    → (b' : LongNameBuilder) × (process_all b
          (lfn_entries (name ++ (x ∷ [])) (lfn_checksum short_name))
        ≡ ok b')
      × (into_buf (validate_chksum b' short_name) ≡ name ++ (x ∷ []))
into_buf-lfn_entries b name x short_name small h =
    let v = name ++ (x ∷ []) in
    let k = length name / 13 in
    let size : length v ≡ length name + 1 = length-append name (x ∷ []) in
    let c = lfn_checksum short_name in
    let p = length v - 13 * k in
    (
      building (v ++ padding p) c 1,
      process_all-lfn_entries b v c k (omega arith) (omega arith) (omega arith),
      rw (validate_chksum_same (building (v ++ padding p) c 1) short_name refl)
          (truncated name x p c h),
    )
