-- ===== src/ShortName/Generator.antt =====
-- dir.rs: the collisions of a short name with those that a directory has, and the name that is chosen.
use rust_fatfs.Base.{
  ℕ, zero, suc, ◌+◌, ◌-◌, ◌/◌, ◌%◌, ◌^◌, bit_and, bit_or, Bool, true, false, ◌==◌, ltb,
  if◌then◌else◌, ◌&&◌, not, List, [], ◌∷◌, ◌++◌, Option, some, none, length, min, take, drop,
  replicate,
}
use rust_fatfs.Base.Result.{Result, ok, err, panic, stuck, already_exists}
use rust_fatfs.ShortName.{
  ShortNameGenerator, get, list_eq, to_digit, from_str_radix_16, sfn_padding,
}

abbrev pub long_prefix_len : ShortNameGenerator → ℕ
long_prefix_len g = min 6 g.basename_len

abbrev pub short_prefix_len : ShortNameGenerator → ℕ
short_prefix_len g = min 2 g.basename_len

-- `self.long_prefix_bitmap |= 1 << num_suffix`, if the parts of the name match.
unfoldable pub mark : Option ℕ → Bool → ℕ → ℕ
mark none matches bitmap = bitmap
mark (some num_suffix) matches bitmap = if matches then bit_or bitmap (2 ^ num_suffix) else bitmap

unfoldable pub check_for_long_prefix_collision : ShortNameGenerator → List ℕ → ShortNameGenerator
check_for_long_prefix_collision g short_name =
    let n = long_prefix_len g in
    let num_suffix = to_digit (get short_name (n + 1)) in
    let long_prefix_matches = list_eq (take n short_name) (take n g.short_name) in
    let ext_matches = list_eq (drop 8 short_name) (drop 8 g.short_name) in
    if get short_name n == b'~'
    then record g {
      long_prefix_bitmap =
          mark num_suffix (long_prefix_matches && ext_matches) g.long_prefix_bitmap;
    }
    else g

unfoldable pub option_is : ℕ → Option ℕ → Bool
option_is x none = false
option_is x (some y) = y == x

unfoldable pub check_for_short_prefix_collision : ShortNameGenerator → List ℕ → ShortNameGenerator
check_for_short_prefix_collision g short_name =
    let n = short_prefix_len g in
    let num_suffix = to_digit (get short_name (n + 4 + 1)) in
    let short_prefix_matches = list_eq (take n short_name) (take n g.short_name) in
    let ext_matches = list_eq (drop 8 short_name) (drop 8 g.short_name) in
    let chksum_matches = option_is g.chksum (from_str_radix_16 (take 4 (drop n short_name))) in
    if get short_name (n + 4) == b'~'
    then record g {
      prefix_chksum_bitmap =
          mark num_suffix (short_prefix_matches && ext_matches && chksum_matches)
            g.prefix_chksum_bitmap;
    }
    else g

unfoldable pub check_for_exact_match : ShortNameGenerator → List ℕ → ShortNameGenerator
check_for_exact_match g short_name =
    if list_eq short_name g.short_name then record g { exact_match = true } else g

unfoldable pub add_existing : ShortNameGenerator → List ℕ → ShortNameGenerator
add_existing g short_name =
    let g1 = check_for_exact_match g short_name in
    let g2 = check_for_long_prefix_collision g1 short_name in
    check_for_short_prefix_collision g2 short_name

-- `find_entry` adds the short name of every entry of the directory.
unfoldable pub add_all : ShortNameGenerator → List (List ℕ) → ShortNameGenerator
add_all g [] = g
add_all g (short_name ∷ rest) = add_all (add_existing g short_name) rest

unfoldable pub hex_digit : ℕ → ℕ
hex_digit d = if ltb d 10 then b'0' + d else b'A' + (d - 10)

unfoldable pub u16_to_hex : ℕ → List ℕ
unfolding hex_digit
u16_to_hex x =
    hex_digit (x / 2 ^ 12 % 16)
    ∷ hex_digit (x / 2 ^ 8 % 16)
    ∷ hex_digit (x / 2 ^ 4 % 16)
    ∷ hex_digit (x % 16)
    ∷ []

-- The prefix, with the checksum or without.
unfoldable pub prefix : ShortNameGenerator → Bool → List ℕ
unfolding u16_to_hex
prefix g true = take (short_prefix_len g) g.short_name ++ u16_to_hex g.chksum
prefix g false = take (long_prefix_len g) g.short_name

unfoldable pub build_prefixed_name : ShortNameGenerator → ℕ → Bool → List ℕ
unfolding prefix
build_prefixed_name g num with_chksum =
    let start = prefix g with_chksum in
    start
    ++ (b'~' ∷ (b'0' + num) ∷ (replicate (6 - length start) sfn_padding ++ drop 8 g.short_name))

-- `for i in ..` with a test of bit `i`: the first that is not set, in so many rounds.
unfoldable pub first_unset : ℕ → ℕ → ℕ → Option ℕ
first_unset zero i bitmap = none
first_unset (suc rounds) i bitmap =
    let rest = first_unset rounds (i + 1) bitmap in
    if bit_and bitmap (2 ^ i) == 0 then some i else rest

-- The numbers that are left, of the form with the long prefix and of the one with the checksum.
unfoldable pub numbered : ShortNameGenerator → Option ℕ → Option ℕ → Result (List ℕ)
unfolding build_prefixed_name
numbered g (some i) checked = ok (build_prefixed_name g i false)
numbered g none (some i) = ok (build_prefixed_name g i true)
numbered g none none = err already_exists

unfoldable pub generate : ShortNameGenerator → Result (List ℕ)
generate g =
    if not g.lossy_conv && g.name_fits && not g.exact_match
    then ok g.short_name
    else numbered g (first_unset 4 1 g.long_prefix_bitmap) (first_unset 9 1 g.prefix_chksum_bitmap)

unfoldable pub next_iteration : ShortNameGenerator → ShortNameGenerator
next_iteration g = record g {
  chksum = (g.chksum + 1) % 2 ^ 16;
  long_prefix_bitmap = 0;
  prefix_chksum_bitmap = 0;
}

-- The loop of `check_for_existence` over a directory in which the name was not found, with fuel:
-- every round reads the directory again.
unfoldable pub short_name_loop : ℕ → ShortNameGenerator → List (List ℕ) → Result (List ℕ)
short_name_loop zero g existing = stuck
short_name_loop (suc fuel) g existing =
    let g' = add_all g existing in
    elim (generate g') [
      | ok name ↦ ok name
      | err e ↦ short_name_loop fuel (next_iteration g') existing
      | panic ↦ panic
      | stuck ↦ stuck
    ]
