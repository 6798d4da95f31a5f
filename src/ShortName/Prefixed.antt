-- ===== src/ShortName/Prefixed.antt =====
-- The parts of a name that is made of a prefix, `~`, a digit and the extension.
use rust_fatfs.Base.{
  ℕ, zero, suc, ◌+◌, ◌-◌, ◌*◌, ◌/◌, ◌%◌, ◌^◌, ◌≤◌, ◌<◌, ◌≡◌, refl, sym, ap, ◌∙◌, arith, List, [],
  ◌∷◌, ◌++◌, length, take, drop, replicate, length-append, length-replicate, length-take,
  append_assoc, take-append_ge, drop-append_eq, true, false, Bool, some, none, Option, ◌==◌,
}
use rust_fatfs.ShortName.{
  ShortNameGenerator, get, list_eq, to_digit, from_str_radix_16, sfn_padding, hex_value,
  to_hex_digit,
}
use rust_fatfs.ShortName.Generator.{
  prefix, build_prefixed_name, u16_to_hex, hex_digit, long_prefix_len, short_prefix_len,
}

pub list_eq_refl : (xs : List ℕ) → list_eq xs xs ≡ true
unfolding list_eq
list_eq_refl [] = refl
list_eq_refl (x ∷ xs) = ground (arith, list_eq_refl xs)

pub list_eq_sound : (xs ys : List ℕ) → list_eq xs ys ≡ true → xs ≡ ys
unfolding list_eq
list_eq_sound [] [] h = refl
list_eq_sound [] (y ∷ ys) h = cc
list_eq_sound (x ∷ xs) [] h = cc
list_eq_sound (x ∷ xs) (y ∷ ys) h = ground (arith, list_eq_sound xs ys)

pub get-append : (n : ℕ) (xs ys : List ℕ) (y : ℕ) → n ≡ length xs → get (xs ++ (y ∷ ys)) n ≡ y
unfolding get
get-append zero [] ys y h = refl
get-append (suc n) [] ys y h = absurd (omega arith)
get-append zero (x ∷ xs) ys y h = absurd (omega arith)
get-append (suc n) (x ∷ xs) ys y h = get-append n xs ys y (omega arith)

pub to_digit_lem : (num : ℕ) → num < 10 → to_digit (b'0' + num) ≡ some num
unfolding to_digit
to_digit_lem num h = ground arith

hex_digit_lem : (d : ℕ) → d < 16 → to_hex_digit (hex_digit d) ≡ some d
unfolding to_hex_digit hex_digit
hex_digit_lem d h = ground arith

hex_value_digit :
    (acc d : ℕ) (rest : List ℕ)
    → d < 16
    → hex_value acc (hex_digit d ∷ rest) ≡ hex_value (acc * 16 + d) rest
unfolding hex_value
hex_value_digit acc d rest h =
    ap (λ (r : Option ℕ). elim r [ none ↦ none | some v ↦ hex_value (acc * 16 + v) rest ])
      (hex_digit_lem d h)

hex_digit_ne : (d : ℕ) → d < 16 → (hex_digit d == b'+') ≡ false
unfolding hex_digit
hex_digit_ne d h = ground arith

pub from_str_radix_16-u16_to_hex : (x : ℕ) → x < 2 ^ 16 → from_str_radix_16 (u16_to_hex x) ≡ some x
unfolding from_str_radix_16 u16_to_hex
from_str_radix_16-u16_to_hex x h =
    let a = x / 2 ^ 12 % 16 in
    let b = x / 2 ^ 8 % 16 in
    let c = x / 2 ^ 4 % 16 in
    let d = x % 16 in
    rw (hex_digit_ne a (omega arith)) (
      hex_value_digit 0 a (hex_digit b ∷ hex_digit c ∷ hex_digit d ∷ []) (omega arith)
      ∙ hex_value_digit (0 * 16 + a) b (hex_digit c ∷ hex_digit d ∷ []) (omega arith)
      ∙ hex_value_digit ((0 * 16 + a) * 16 + b) c (hex_digit d ∷ []) (omega arith)
      ∙ hex_value_digit (((0 * 16 + a) * 16 + b) * 16 + c) d [] (omega arith)
      ∙ ap some (omega arith))

-- What `new` gives: eight bytes and three, of which the base takes the first `basename_len`.
pub record IsShaped (g : ShortNameGenerator) : Type 0 where
  pub size : length g.short_name ≡ 11
  pub base : g.basename_len ≤ 8
  pub sum : g.chksum < 2 ^ 16

module _ (g : ShortNameGenerator) (z : IsShaped g) where
  pub length-long : length (prefix g false) ≡ long_prefix_len g
  unfolding prefix
  length-long = let s = z.size in length-take (long_prefix_len g) g.short_name (omega arith)

  pub length-short : length (prefix g true) ≡ short_prefix_len g + 4
  unfolding prefix u16_to_hex
  length-short =
      let s = z.size in
      omega (
        arith,
        length-append (take (short_prefix_len g) g.short_name) (u16_to_hex g.chksum),
        length-take (short_prefix_len g) g.short_name (omega arith),
      )

  pub length-start : length (take (short_prefix_len g) g.short_name) ≡ short_prefix_len g
  length-start = let s = z.size in length-take (short_prefix_len g) g.short_name (omega arith)

  pub checksum_part :
      (num : ℕ)
      → take 4 (drop (short_prefix_len g) (build_prefixed_name g num true)) ≡ u16_to_hex g.chksum
  unfolding build_prefixed_name prefix u16_to_hex
  checksum_part num =
      let n = short_prefix_len g in
      let start = take n g.short_name in
      let hex = u16_to_hex g.chksum in
      let rest =
        b'~'
        ∷ (b'0' + num)
        ∷ (replicate (6 - length (start ++ hex)) sfn_padding ++ drop 8 g.short_name) in
      ap (λ t. take 4 (drop n t)) (append_assoc start hex rest)
      ∙ ap (take 4) (drop-append_eq n start (hex ++ rest) (sym length-start))

  module _ (num : ℕ) (with_chksum : Bool) (small : length (prefix g with_chksum) ≤ 6) where
    pub get_tilde :
        get (build_prefixed_name g num with_chksum) (length (prefix g with_chksum)) ≡ b'~'
    unfolding build_prefixed_name
    get_tilde = get-append _ (prefix g with_chksum) _ b'~' refl

    pub get_number :
        get (build_prefixed_name g num with_chksum) (length (prefix g with_chksum) + 1) ≡ b'0' + num
    unfolding build_prefixed_name
    get_number =
        let start = prefix g with_chksum in
        let rest = replicate (6 - length start) sfn_padding ++ drop 8 g.short_name in
        ap (λ t. get t (length start + 1))
          (sym (append_assoc start (b'~' ∷ []) ((b'0' + num) ∷ rest)))
        ∙ get-append (length start + 1) (start ++ (b'~' ∷ [])) rest (b'0' + num)
            (sym (length-append start (b'~' ∷ [])))

    pub drop_extension : drop 8 (build_prefixed_name g num with_chksum) ≡ drop 8 g.short_name
    unfolding build_prefixed_name
    drop_extension =
        let start = prefix g with_chksum in
        let pad = replicate (6 - length start) sfn_padding in
        let head = b'~' ∷ (b'0' + num) ∷ pad in
        ap (drop 8) (sym (append_assoc start head (drop 8 g.short_name)))
        ∙ drop-append_eq 8 (start ++ head) (drop 8 g.short_name) (
            omega
              (arith, length-append start head, length-replicate (6 - length start) sfn_padding))

    pub take-prefix :
        (n : ℕ)
        → n ≤ length (prefix g with_chksum)
        → take n (build_prefixed_name g num with_chksum) ≡ take n (prefix g with_chksum)
    unfolding build_prefixed_name
    take-prefix n h = take-append_ge n (prefix g with_chksum) _ h
