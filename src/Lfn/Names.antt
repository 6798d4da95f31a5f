-- ===== src/Lfn/Names.antt =====
-- dir.rs: `validate_long_name`, on a name as the list of its characters' code points.
use rust_fatfs.Base.{
  ℕ, ◌+◌, ◌-◌, ◌/◌, ◌%◌, ◌≤◌, ◌<◌, ◌≡◌, ◌≢◌, refl, arith, List, [], ◌∷◌, length, ltb, leb,
  Bool-cases, inl, inr, ◌==◌, if◌then◌else◌, All, Bool, true, ◌||◌, ◌&&◌,
}
use rust_fatfs.Base.Result.{
  Result, ok, err, invalid_file_name_length, unsupported_file_name_character,
}
use rust_fatfs.Lfn.{max_long_name_len}

-- `str::len`: the bytes of the text in UTF-8.
unfoldable pub len_utf8 : ℕ → ℕ
len_utf8 c = if ltb c 0x80 then 1 else if ltb c 0x800 then 2 else if ltb c 0x10000 then 3 else 4

unfoldable pub str_len : List ℕ → ℕ
unfolding len_utf8
str_len [] = 0
str_len (c ∷ name) = len_utf8 c + str_len name

-- `str::encode_utf16`
unfoldable pub encode_utf16 : List ℕ → List ℕ
encode_utf16 [] = []
encode_utf16 (c ∷ name) =
    let rest = encode_utf16 name in
    if ltb c 0x10000
    then c ∷ rest
    else (0xD800 + (c - 0x10000) / 0x400) ∷ (0xDC00 + (c - 0x10000) % 0x400) ∷ rest

abbrev between : ℕ → ℕ → ℕ → Bool
between lo hi c = leb lo c && leb c hi

-- The characters that the `match` names one by one.
unfoldable pub is_listed : ℕ → Bool
is_listed c =
    c == b'$'
    || c == b'%'
    || c == b'\''
    || c == b'-'
    || c == b'_'
    || c == b'@'
    || c == b'~'
    || c == b'`'
    || c == b'!'
    || c == b'('
    || c == b')'
    || c == b'{'
    || c == b'}'
    || c == b'.'
    || c == b' '
    || c == b'+'
    || c == b','
    || c == b';'
    || c == b'='
    || c == b'['
    || c == b']'
    || c == b'^'
    || c == b'#'
    || c == b'&'

unfoldable pub is_name_char : ℕ → Bool
unfolding is_listed
is_name_char c =
    between b'a' b'z' c
    || between b'A' b'Z' c
    || between b'0' b'9' c
    || between 0x80 0xFFFF c
    || is_listed c

unfoldable pub validate_chars : List ℕ → Result (Unit {0})
unfolding is_name_char
validate_chars [] = ok tt
validate_chars (c ∷ name) =
    let rest = validate_chars name in
    if is_name_char c then rest else err unsupported_file_name_character

unfoldable pub validate_long_name : List ℕ → Result (Unit {0})
unfolding str_len validate_chars
validate_long_name name =
    if length name == 0
    then err invalid_file_name_length
    else if ltb max_long_name_len (str_len name)
    then err invalid_file_name_length
    else validate_chars name

is_name_char_bounds : (c : ℕ) → is_name_char c ≡ true → (0 < c) × (c < 0x10000) × (c ≢ b'/')
unfolding is_name_char
is_name_char_bounds c h = ground arith

length-le-str_len : (name : List ℕ) → length name ≤ str_len name
unfolding str_len len_utf8
length-le-str_len [] = omega arith
length-le-str_len (c ∷ name) = ground (arith, length-le-str_len name)

-- Neither 0, which ends a name, nor past 16 bits, nor a separator of paths.
abbrev pub IsNameChar : ℕ → Type 0
IsNameChar c = (0 < c) × (c < 0x10000) × (c ≢ b'/')

validate_chars-All : (name : List ℕ) → validate_chars name ≡ ok tt → All IsNameChar name
unfolding validate_chars
validate_chars-All [] h = tt
validate_chars-All (c ∷ name) h = elim (Bool-cases (is_name_char c)) [
  | inl good ↦ (is_name_char_bounds c good, validate_chars-All name (rw good at h))
  | inr bad ↦ absurd (ground (arith, h))
]

encode_utf16-All : (name : List ℕ) → All IsNameChar name → encode_utf16 name ≡ name
unfolding encode_utf16
encode_utf16-All [] h = refl
encode_utf16-All (c ∷ name) h = ground (arith, encode_utf16-All name h.1, h.0.1)

-- A name that is accepted has 1 to 255 characters, each of them one 16-bit unit that is not 0 and
-- no separator of paths, and its encoding is those units.
pub validate_long_name-All :
    (name : List ℕ)
    → validate_long_name name ≡ ok tt
    → (1 ≤ length name) × (length name ≤ 255) × (encode_utf16 name ≡ name) × All IsNameChar name
unfolding validate_long_name
validate_long_name-All name h =
    let chars : validate_chars name ≡ ok tt = ground arith in
    let all = validate_chars-All name chars in
    (ground arith, ground (arith, length-le-str_len name), encode_utf16-All name all, all)
