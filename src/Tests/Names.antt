-- ===== src/Tests/Names.antt =====
-- Names of entries, and the theorems on names there.
use rust_fatfs.Base.{
  sym, ◌∙◌, ℕ, ◌≡◌, ◌≢◌, ◌<◌, ◌≤◌, refl, arith, true, false, List, [], ◌∷◌, ◌++◌, All, length,
}
use rust_fatfs.Base.Result.{ok}
use rust_fatfs.Lfn.{
  LongNameBuilder, new_builder, lfn_entries, lfn_checksum, process_all, validate_chksum, into_buf,
  is_name_unit, name_units, new_lfn,
}
use rust_fatfs.Lfn.Roundtrip.{into_buf-lfn_entries}
use rust_fatfs.Lfn.Buffer.{IsValid, process_all-IsValid}
use rust_fatfs.Lfn.Complete.{EndsRun, into_buf-EndsRun}
use rust_fatfs.Lfn.Names.{validate_long_name, validate_long_name-All, encode_utf16, IsNameChar}
use rust_fatfs.Lfn.Stored.{into_buf-encode_utf16, length-into_buf_lt}
use rust_fatfs.ShortName.{
  ShortNameGenerator, get, list_eq, to_digit, new_short_name_generator, new_short_name, as_bytes,
}
use rust_fatfs.ShortName.Generator.{
  generate, add_all, add_existing, short_name_loop, check_for_exact_match,
  check_for_long_prefix_collision, check_for_short_prefix_collision, numbered, first_unset, mark,
}
use rust_fatfs.ShortName.Prefixed.{IsShaped}
use rust_fatfs.ShortName.Unused.{generate_unused}
use rust_fatfs.ShortName.Start.{short_name_loop_ends}

-- "a.txt" and "A       TXT"
abbrev name : List ℕ
name = b'a' ∷ b'.' ∷ b't' ∷ b'x' ∷ []

abbrev short : List ℕ
short = b'A' ∷ b' ' ∷ b' ' ∷ b' ' ∷ b' ' ∷ b' ' ∷ b' ' ∷ b' ' ∷ b'T' ∷ b'X' ∷ b'T' ∷ []

short_name_bytes : as_bytes (new_short_name short) ≡ b'A' ∷ b'.' ∷ b'T' ∷ b'X' ∷ b'T' ∷ []
unfolding as_bytes new_short_name
short_name_bytes = refl

stored_name :
    (b' : LongNameBuilder) × (process_all new_builder
        (lfn_entries (name ++ (b't' ∷ [])) (lfn_checksum short))
      ≡ ok b')
    × (into_buf (validate_chksum b' short) ≡ name ++ (b't' ∷ []))
unfolding is_name_unit
stored_name = into_buf-lfn_entries new_builder name b't' short (omega arith) refl

into_buf-encode_utf16_example :
    (b' : LongNameBuilder) × (process_all new_builder
        (lfn_entries (encode_utf16 (name ++ (b't' ∷ []))) (lfn_checksum short))
      ≡ ok b')
    × (into_buf (validate_chksum b' short) ≡ name ++ (b't' ∷ []))
unfolding validate_long_name
into_buf-encode_utf16_example = into_buf-encode_utf16 new_builder name b't' short refl (omega arith)

length-into_buf_lt_example :
    (b' : LongNameBuilder) × (process_all new_builder
        (lfn_entries (encode_utf16 (name ++ (0xFFFF ∷ []))) (lfn_checksum short))
      ≡ ok b')
    × (length (into_buf (validate_chksum b' short)) < length (name ++ (0xFFFF ∷ [])))
unfolding validate_long_name
length-into_buf_lt_example = length-into_buf_lt new_builder name short refl

validate_long_name-All_example :
    (1 ≤ length name) × (length name ≤ 255) × (encode_utf16 name ≡ name) × All IsNameChar name
unfolding validate_long_name
validate_long_name-All_example = validate_long_name-All name refl

new_builder-IsValid : IsValid new_builder
unfolding new_builder
new_builder-IsValid = record {
  index_small = omega arith;
  buf_long = omega arith;
  buf_short = omega arith;
  buf_fresh = λ h. refl;
}

-- Corrupted: the first entry of a sequence has index 2 and the next has index 2 again.
process_all-IsValid_example :
    (b' : LongNameBuilder) × (process_all new_builder (new_lfn 0x42 7 ∷ new_lfn 2 7 ∷ []) ≡ ok b')
    × IsValid b'
unfolding new_lfn name_units
process_all-IsValid_example =
    process_all-IsValid new_builder (new_lfn 0x42 7 ∷ new_lfn 2 7 ∷ []) (refl, (refl, tt))
      new_builder-IsValid

into_buf-EndsRun_example :
    EndsRun (lfn_checksum short) 1 (lfn_entries (name ++ (b't' ∷ [])) (lfn_checksum short))
into_buf-EndsRun_example =
    let (b, e, got) = stored_name in
    into_buf-EndsRun (lfn_entries (name ++ (b't' ∷ [])) (lfn_checksum short)) b short e
      (λ z. absurd (let z' = sym got ∙ z in cc))

abbrev existing : List (List ℕ)
existing =
    short ∷ (b'A' ∷ b'~' ∷ b'1' ∷ b' ' ∷ b' ' ∷ b' ' ∷ b' ' ∷ b' ' ∷ b'T' ∷ b'X' ∷ b'T' ∷ []) ∷ []

abbrev started : ShortNameGenerator
started = record {
  chksum = 0x1234;
  long_prefix_bitmap = 0;
  prefix_chksum_bitmap = 0;
  name_fits = true;
  lossy_conv = false;
  exact_match = false;
  basename_len = 1;
  short_name = short;
}

started-IsShaped : IsShaped started
started-IsShaped = record { size = refl; base = omega arith; sum = omega arith }

abbrev second : List ℕ
second = b'A' ∷ b'~' ∷ b'2' ∷ b' ' ∷ b' ' ∷ b' ' ∷ b' ' ∷ b' ' ∷ b'T' ∷ b'X' ∷ b'T' ∷ []

generate_unused_example : All (λ e. e ≢ second) existing
unfolding generate add_all add_existing check_for_exact_match check_for_long_prefix_collision
    check_for_short_prefix_collision get list_eq numbered first_unset mark to_digit
generate_unused_example = generate_unused started existing second started-IsShaped refl

short_name_loop_ends_example :
    (g : ShortNameGenerator) × (new_short_name_generator (name ++ (b't' ∷ [])) ≡ ok g)
    × ((short_name : List ℕ) × (short_name_loop 1 g existing ≡ ok short_name)
        × All (λ e. e ≢ short_name) existing)
short_name_loop_ends_example =
    short_name_loop_ends b'a' (b'.' ∷ b't' ∷ b'x' ∷ b't' ∷ []) existing 1 (omega arith)
      (omega arith) (omega arith)
