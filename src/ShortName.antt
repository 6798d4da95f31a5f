-- ===== src/ShortName.antt =====
-- dir.rs and dir_entry.rs: short names of eight and three bytes. `ShortName` is a stored name with its
-- dot, and `ShortNameGenerator` makes the short name of a new entry. A long name is the list of its
-- characters' code points, and an index into it counts characters.
pub mod Generator
pub mod Bitmap
pub mod Prefixed
pub mod Collision
pub mod Unused
pub mod Weight
pub mod Loop
pub mod Start
use rust_fatfs.Base.{
  ℕ, zero, suc, ◌+◌, ◌-◌, ◌*◌, ◌/◌, ◌%◌, ◌^◌, ◌≤◌, ◌<◌, ◌≡◌, ◌≢◌, ◌⊎◌, inl, inr, refl, ◌∙◌, sym, ap,
  arith, bit_and, bit_or, Bool, true, false, ◌==◌, ltb, leb, if◌then◌else◌, Bool-cases, lt→ltb,
  ltb→lt, le→ltb, ltb→le, Option-cases, ◌&&◌, ◌||◌, not, List, [], ◌∷◌, ◌++◌, Option, some, none,
  length, All, ◌↔◌, min, max, map, take, drop, replicate, drop-length, take-length, length-append,
}
use rust_fatfs.Base.Result.{Result, ok, err, panic, Error, already_exists}
use rust_fatfs.Lfn.{rposition, end_of}
use rust_fatfs.Lfn.Names.{len_utf8}

abbrev pub sfn_padding : ℕ
sfn_padding = b' '

abbrev pub sfn_size : ℕ
sfn_size = 11

pub record ShortName : Type 0 where
  pub name : List ℕ
  pub len : ℕ

-- FAT writes 0x05 for 0xE5 in the first place.
unfoldable pub fix_e5 : List ℕ → List ℕ
fix_e5 [] = []
fix_e5 (c ∷ name) = (if c == 0x05 then 0xE5 else c) ∷ name

-- `ShortName::new`
unfoldable pub new_short_name : List ℕ → ShortName
unfolding rposition end_of fix_e5
new_short_name raw_name =
    let name_len = end_of (rposition (λ x. not (x == sfn_padding)) (take 8 raw_name)) in
    let ext_len = end_of (rposition (λ x. not (x == sfn_padding)) (take 3 (drop 8 raw_name))) in
    let base = take name_len raw_name in
    let name = if ltb 0 ext_len then base ++ (b'.' ∷ take ext_len (drop 8 raw_name)) else base in
    let total_len = if ltb 0 ext_len then name_len + 1 + ext_len else name_len in
    record { name = fix_e5 (name ++ replicate (12 - length name) sfn_padding); len = total_len }

unfoldable pub as_bytes : ShortName → List ℕ
as_bytes short_name = take short_name.len short_name.name

unfoldable pub list_eq : List ℕ → List ℕ → Bool
list_eq [] [] = true
list_eq [] (y ∷ ys) = false
list_eq (x ∷ xs) [] = false
list_eq (x ∷ xs) (y ∷ ys) = x == y && list_eq xs ys

unfoldable pub flat_map : (ℕ → List ℕ) → List ℕ → List ℕ
flat_map f [] = []
flat_map f (x ∷ xs) = f x ++ flat_map f xs

-- The converter of the OEM code page and the conversion to upper case are arguments.
unfoldable pub eq_ignore_case : (ℕ → ℕ) → (ℕ → List ℕ) → ShortName → List ℕ → Bool
unfolding as_bytes list_eq flat_map
eq_ignore_case decode char_to_uppercase short_name name =
    list_eq (flat_map char_to_uppercase (map decode (as_bytes short_name)))
      (flat_map char_to_uppercase name)

pub record ShortNameGenerator : Type 0 where
  pub chksum : ℕ
  pub long_prefix_bitmap : ℕ
  pub prefix_chksum_bitmap : ℕ
  pub name_fits : Bool
  pub lossy_conv : Bool
  pub exact_match : Bool
  pub basename_len : ℕ
  pub short_name : List ℕ

abbrev between : ℕ → ℕ → ℕ → Bool
between lo hi c = leb lo c && leb c hi

unfoldable pub is_sfn_char : ℕ → Bool
is_sfn_char c =
    between b'A' b'Z' c
    || between b'a' b'z' c
    || between b'0' b'9' c
    || c == b'!'
    || c == b'#'
    || c == b'$'
    || c == b'%'
    || c == b'&'
    || c == b'\''
    || c == b'('
    || c == b')'
    || c == b'-'
    || c == b'@'
    || c == b'^'
    || c == b'_'
    || c == b'`'
    || c == b'{'
    || c == b'}'
    || c == b'~'

unfoldable pub to_ascii_uppercase : ℕ → ℕ
to_ascii_uppercase c = if between b'a' b'z' c then c - 32 else c

-- The loop of `copy_short_name_part` over the source: the bytes written so far, in a destination of
-- `size` bytes, and the flag of a lossy conversion.
unfoldable pub copy_short_name_part : ℕ → List ℕ → Bool → List ℕ → List ℕ × Bool × Bool
unfolding is_sfn_char to_ascii_uppercase
copy_short_name_part size dst lossy_conv [] = (dst, true, lossy_conv)
copy_short_name_part size dst lossy_conv (c ∷ src) =
    let is_full = length dst == size in
    let is_stripped = c == b' ' || c == b'.' in
    let fixed_c = if is_sfn_char c then c else b'_' in
    let rest =
      copy_short_name_part size
        (if is_stripped then dst else dst ++ (to_ascii_uppercase fixed_c ∷ []))
        (if is_stripped then true else lossy_conv || not (fixed_c == c)) src in
    if is_full then (dst, false, lossy_conv) else rest

-- The BSD checksum, in wrapping `u16` arithmetic.
unfoldable pub checksum_loop : ℕ → List ℕ → ℕ
checksum_loop chksum [] = chksum
checksum_loop chksum (c ∷ name) =
    checksum_loop ((chksum / 2 + chksum * 2 ^ 15 % 2 ^ 16 + c % 2 ^ 16) % 2 ^ 16) name

unfoldable pub checksum : List ℕ → ℕ
unfolding checksum_loop
checksum name = checksum_loop 0 name

unfoldable pub padded : ℕ → List ℕ → List ℕ
padded size part = part ++ replicate (size - length part) sfn_padding

-- The name without an extension, or with the one that starts at `dot_index + 1`.
unfoldable pub from_parts : List ℕ → Option ℕ → ShortNameGenerator
unfolding copy_short_name_part checksum padded
from_parts name none =
    let base = copy_short_name_part 8 [] false name in
    record {
      chksum = checksum name;
      long_prefix_bitmap = 0;
      prefix_chksum_bitmap = 0;
      name_fits = base.1;
      lossy_conv = base.2;
      exact_match = false;
      basename_len = length base.0;
      short_name = padded 8 base.0 ++ replicate 3 sfn_padding;
    }
from_parts name (some dot_index) =
    let base = copy_short_name_part 8 [] false (take dot_index name) in
    let ext = copy_short_name_part 3 [] false (drop (dot_index + 1) name) in
    record {
      chksum = checksum name;
      long_prefix_bitmap = 0;
      prefix_chksum_bitmap = 0;
      name_fits = base.1 && ext.1;
      lossy_conv = base.2 || ext.2;
      exact_match = false;
      basename_len = length base.0;
      short_name = padded 8 base.0 ++ padded 3 ext.0;
    }

abbrev after_first : Option ℕ → Option ℕ
after_first none = none
after_first (some index) = some (index + 1)

-- `ShortNameGenerator::new`. The slice `name[1..]` panics if the name is empty, or if its first
-- character takes more than a byte.
unfoldable pub new_short_name_generator : List ℕ → Result ShortNameGenerator
unfolding len_utf8 rposition from_parts
new_short_name_generator [] = panic
new_short_name_generator (c ∷ name) =
    if len_utf8 c == 1
    then ok (from_parts (c ∷ name) (after_first (rposition (λ x. x == b'.') name)))
    else panic

unfoldable pub generate_dot : List ℕ
generate_dot = b'.' ∷ replicate 10 sfn_padding

unfoldable pub generate_dotdot : List ℕ
generate_dotdot = b'.' ∷ b'.' ∷ replicate 9 sfn_padding

-- An index into a name; it is always in range here.
unfoldable pub get : List ℕ → ℕ → ℕ
get [] i = 0
get (x ∷ xs) zero = x
get (x ∷ xs) (suc i) = get xs i

-- `char::to_digit(10)`
unfoldable pub to_digit : ℕ → Option ℕ
to_digit c = if between b'0' b'9' c then some (c - b'0') else none

-- `char::to_digit(16)`
unfoldable pub to_hex_digit : ℕ → Option ℕ
to_hex_digit c =
    if between b'0' b'9' c
    then some (c - b'0')
    else if between b'A' b'F' c
    then some (c - b'A' + 10)
    else if between b'a' b'f' c
    then some (c - b'a' + 10)
    else none

unfoldable pub hex_value : ℕ → List ℕ → Option ℕ
unfolding to_hex_digit
hex_value acc [] = some acc
hex_value acc (c ∷ rest) = elim (to_hex_digit c) [
  | none ↦ none
  | some d ↦ hex_value (acc * 16 + d) rest
]

-- `u16::from_str_radix(s, 16)` on four bytes: a sign `+` may stand before the digits. Bytes that
-- are not UTF-8 are no digits either.
unfoldable pub from_str_radix_16 : List ℕ → Option ℕ
unfolding hex_value
from_str_radix_16 [] = none
from_str_radix_16 (c ∷ rest) =
    if c == b'+' && not (length rest == 0) then hex_value 0 rest else hex_value 0 (c ∷ rest)
