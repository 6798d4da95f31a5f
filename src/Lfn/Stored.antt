-- ===== src/Lfn/Stored.antt =====
-- What becomes of an accepted name when it is stored and read back.
use rust_fatfs.Base.{
  ℕ, ◌+◌, ◌-◌, ◌*◌, ◌/◌, ◌≤◌, ◌<◌, ◌≡◌, ◌≢◌, refl, arith, List, [], ◌∷◌, ◌++◌, length,
  length-append, append_assoc, All, true, none,
}
use rust_fatfs.Base.Result.{ok}
use rust_fatfs.Lfn.{
  LongNameBuilder, process_all, lfn_entries, lfn_checksum, validate_chksum, into_buf, rposition,
  is_name_unit, end_of,
}
use rust_fatfs.Lfn.Parts.{padding}
use rust_fatfs.Lfn.Loop.{building}
use rust_fatfs.Lfn.Roundtrip.{
  into_buf-lfn_entries, process_all-lfn_entries, validate_chksum_same, length-set_len,
  rposition-padding,
}
use rust_fatfs.Lfn.Names.{validate_long_name, encode_utf16, IsNameChar, validate_long_name-All}

All-last : (P : ℕ → Type 0) (name : List ℕ) (x : ℕ) → All P (name ++ (x ∷ [])) → P x
All-last P [] x h = h.0
All-last P (y ∷ name) x h = All-last P name x h.1

is_name_unit_lem : (x : ℕ) → 0 < x → x ≢ 0xFFFF → is_name_unit x ≡ true
unfolding is_name_unit
is_name_unit_lem x h k = ground arith

-- An accepted name whose last character is not U+FFFF: its UTF-16 units, made into entries for any
-- short name and given to any builder, are read back as the characters of the name.
pub into_buf-encode_utf16 :
    (b : LongNameBuilder) (name : List ℕ) (x : ℕ) (short_name : List ℕ)
    → validate_long_name (name ++ (x ∷ [])) ≡ ok tt
    → x ≢ 0xFFFF
    → (b' : LongNameBuilder) × (process_all b
          (lfn_entries (encode_utf16 (name ++ (x ∷ []))) (lfn_checksum short_name))
        ≡ ok b')
      × (into_buf (validate_chksum b' short_name) ≡ name ++ (x ∷ []))
into_buf-encode_utf16 b name x short_name valid k =
    let v = validate_long_name-All (name ++ (x ∷ [])) valid in
    let last = All-last IsNameChar name x v.3 in
    rw v.2 (
      into_buf-lfn_entries b name x short_name (omega (arith, length-append name (x ∷ [])))
        (is_name_unit_lem x last.0 k))

rposition-none :
    (name pad : List ℕ)
    → rposition is_name_unit pad ≡ none
    → end_of (rposition is_name_unit (name ++ pad)) ≤ length name
unfolding rposition end_of
rposition-none [] pad h = rw h (omega arith)
rposition-none (x ∷ name) pad h = ground (arith, rposition-none name pad h)

length-truncated :
    (name : List ℕ) (p c : ℕ)
    → length (into_buf (building ((name ++ (0xFFFF ∷ [])) ++ padding p) c 1)) ≤ length name
unfolding into_buf
length-truncated name p c =
    let whole = append_assoc name (0xFFFF ∷ []) (padding p) in
    let buf = (name ++ (0xFFFF ∷ [])) ++ padding p in
    let cut : end_of (rposition is_name_unit buf) ≤ length name = rw whole (
      rposition-none name (0xFFFF ∷ padding p)
        (rw (rposition, rposition-padding p, is_name_unit) refl)) in
    omega (arith, cut, length-set_len buf (end_of (rposition is_name_unit buf)))

-- An accepted name that ends in U+FFFF, the padding: it is stored, and what is read back is shorter.
pub length-into_buf_lt :
    (b : LongNameBuilder) (name short_name : List ℕ)
    → validate_long_name (name ++ (0xFFFF ∷ [])) ≡ ok tt
    → (b' : LongNameBuilder) × (process_all b
          (lfn_entries (encode_utf16 (name ++ (0xFFFF ∷ []))) (lfn_checksum short_name))
        ≡ ok b')
      × (length (into_buf (validate_chksum b' short_name)) < length (name ++ (0xFFFF ∷ [])))
length-into_buf_lt b name short_name valid =
    let name' = name ++ (0xFFFF ∷ []) in
    let v = validate_long_name-All (name ++ (0xFFFF ∷ [])) valid in
    let size : length name' ≡ length name + 1 = length-append name (0xFFFF ∷ []) in
    let c = lfn_checksum short_name in
    let k = length name / 13 in
    let p = length name' - 13 * k in
    let b' = building (name' ++ padding p) c 1 in
    (
      b',
      rw v.2 (process_all-lfn_entries b name' c k (omega arith) (omega arith) (omega arith)),
      rw (validate_chksum_same b' short_name refl) (omega (arith, size, length-truncated name p c)),
    )
