-- ===== src/ShortName/Collision.antt =====
-- A name of the directory that the generator could choose is marked when it is added.
use rust_fatfs.Base.{
  ℕ, ◌+◌, ◌^◌, ◌≤◌, ◌<◌, ◌≡◌, refl, sym, ap, ◌∙◌, arith, List, length, take, drop, take-append_eq,
  take-length, true, false, Bool, some, none, Option, if◌then◌else◌,
}
use rust_fatfs.ShortName.{ShortNameGenerator, get}
use rust_fatfs.ShortName.Generator.{
  prefix, build_prefixed_name, u16_to_hex, long_prefix_len, short_prefix_len, mark, option_is,
  check_for_exact_match, check_for_long_prefix_collision, check_for_short_prefix_collision,
  add_existing,
}
use rust_fatfs.ShortName.Bitmap.{bit, bit-bit_or, bit-pow}
use rust_fatfs.ShortName.Prefixed.{
  IsShaped, list_eq_refl, to_digit_lem, from_str_radix_16-u16_to_hex, length-long, length-short,
  length-start, checksum_part, get_tilde, get_number, drop_extension, take-prefix,
}

-- What a step of adding a name keeps: the parts that names are made of, and all marks.
pub record Keeps (g g' : ShortNameGenerator) : Type 0 where
  pub name : g'.short_name ≡ g.short_name
  pub base : g'.basename_len ≡ g.basename_len
  pub sum : g'.chksum ≡ g.chksum
  pub lossy : g'.lossy_conv ≡ g.lossy_conv
  pub fits : g'.name_fits ≡ g.name_fits
  pub long : (i : ℕ) → bit i g.long_prefix_bitmap ≤ bit i g'.long_prefix_bitmap
  pub short : (i : ℕ) → bit i g.prefix_chksum_bitmap ≤ bit i g'.prefix_chksum_bitmap
  pub exact : g.exact_match ≡ true → g'.exact_match ≡ true

pub Keeps-refl : (g : ShortNameGenerator) → Keeps g g
Keeps-refl g = record {
  name = refl;
  base = refl;
  sum = refl;
  lossy = refl;
  fits = refl;
  long = λ i. omega arith;
  short = λ i. omega arith;
  exact = λ h. h;
}

pub Keeps-trans : {g h k : ShortNameGenerator} → Keeps g h → Keeps h k → Keeps g k
Keeps-trans p q = record {
  name = q.name ∙ p.name;
  base = q.base ∙ p.base;
  sum = q.sum ∙ p.sum;
  lossy = q.lossy ∙ p.lossy;
  fits = q.fits ∙ p.fits;
  long = λ i. omega (arith, p.long i, q.long i);
  short = λ i. omega (arith, p.short i, q.short i);
  exact = λ h. q.exact (p.exact h);
}

pub build_prefixed_name_same :
    {g g' : ShortNameGenerator}
    → Keeps g g'
    → (num : ℕ) (with_chksum : Bool)
    → build_prefixed_name g' num with_chksum ≡ build_prefixed_name g num with_chksum
unfolding build_prefixed_name prefix
build_prefixed_name_same s num true = rw (s.name, s.base, s.sum) refl
build_prefixed_name_same s num false = rw (s.name, s.base) refl

bit-mark :
    (i : ℕ) (num_suffix : Option ℕ) (matches : Bool) (bitmap : ℕ)
    → bit i bitmap ≤ bit i (mark num_suffix matches bitmap)
unfolding mark
bit-mark i none matches bitmap = omega arith
bit-mark i (some num) true bitmap = omega (arith, bit-bit_or i bitmap (2 ^ num))
bit-mark i (some num) false bitmap = omega arith

-- A step under a test, and the three things that a step changes.
Keeps-if : (b : Bool) (g g' : ShortNameGenerator) → Keeps g g' → Keeps g (if b then g' else g)
Keeps-if true g g' k = k
Keeps-if false g g' k = Keeps-refl g

pub exact-Keeps : (g : ShortNameGenerator) (e : List ℕ) → Keeps g (check_for_exact_match g e)
unfolding check_for_exact_match
exact-Keeps g e = Keeps-if _ g _ (record {
  name = refl;
  base = refl;
  sum = refl;
  lossy = refl;
  fits = refl;
  long = λ i. omega arith;
  short = λ i. omega arith;
  exact = λ h. refl;
})

pub long-Keeps :
    (g : ShortNameGenerator) (e : List ℕ) → Keeps g (check_for_long_prefix_collision g e)
unfolding check_for_long_prefix_collision
long-Keeps g e = Keeps-if _ g _ (record {
  name = refl;
  base = refl;
  sum = refl;
  lossy = refl;
  fits = refl;
  long = λ i. bit-mark i _ _ g.long_prefix_bitmap;
  short = λ i. omega arith;
  exact = λ h. h;
})

pub short-Keeps :
    (g : ShortNameGenerator) (e : List ℕ) → Keeps g (check_for_short_prefix_collision g e)
unfolding check_for_short_prefix_collision
short-Keeps g e = Keeps-if _ g _ (record {
  name = refl;
  base = refl;
  sum = refl;
  lossy = refl;
  fits = refl;
  long = λ i. omega arith;
  short = λ i. bit-mark i _ _ g.prefix_chksum_bitmap;
  exact = λ h. h;
})

pub add_existing-Keeps : (g : ShortNameGenerator) (e : List ℕ) → Keeps g (add_existing g e)
unfolding add_existing
add_existing-Keeps g e =
    Keeps-trans (exact-Keeps g e) (Keeps-trans (long-Keeps _ e) (short-Keeps _ e))

pub Keeps-IsShaped : {g g' : ShortNameGenerator} → Keeps g g' → IsShaped g → IsShaped g'
Keeps-IsShaped k z = record {
  size = ap length k.name ∙ z.size;
  base = rw k.base z.base;
  sum = rw k.sum z.sum;
}

bit-mark_self : (num bitmap : ℕ) → bit num (mark (some num) true bitmap) ≡ 1
unfolding mark
bit-mark_self num bitmap = omega (arith, bit-bit_or num bitmap (2 ^ num), bit-pow num)

take_all : (n : ℕ) (xs : List ℕ) → length xs ≡ n → take n xs ≡ xs
take_all n xs h = rw (sym h) (take-length xs)

module _ (g : ShortNameGenerator) (z : IsShaped g) (num : ℕ) (small : num < 10) where
  pub marked_long :
      bit num
        (check_for_long_prefix_collision g (build_prefixed_name g num false)).long_prefix_bitmap
      ≡ 1
  unfolding check_for_long_prefix_collision prefix
  marked_long =
      let e = build_prefixed_name g num false in
      let size = length-long g z in
      let fits : length (prefix g false) ≤ 6 = rw size (omega arith) in
      let tilde : get e (long_prefix_len g) ≡ b'~' = rw size at (get_tilde g z num false fits) in
      let digit : get e (long_prefix_len g + 1) ≡ b'0' + num =
        rw size at (get_number g z num false fits) in
      let start : take (long_prefix_len g) e ≡ take (long_prefix_len g) g.short_name =
        take-prefix g z num false fits (long_prefix_len g) (omega arith)
        ∙ take_all (long_prefix_len g) (prefix g false) size in
      rw
        (
          tilde,
          digit,
          to_digit_lem num small,
          start,
          drop_extension g z num false fits,
          list_eq_refl (take (long_prefix_len g) g.short_name),
          list_eq_refl (drop 8 g.short_name),
        )
        (bit-mark_self num g.long_prefix_bitmap)

  pub marked_short :
      bit num
        (check_for_short_prefix_collision g (build_prefixed_name g num true)).prefix_chksum_bitmap
      ≡ 1
  unfolding check_for_short_prefix_collision option_is prefix
  marked_short =
      let e = build_prefixed_name g num true in
      let size = length-short g z in
      let n = short_prefix_len g in
      let fits : length (prefix g true) ≤ 6 = rw size (omega arith) in
      let tilde : get e (n + 4) ≡ b'~' = rw size at (get_tilde g z num true fits) in
      let digit : get e (n + 4 + 1) ≡ b'0' + num = rw size at (get_number g z num true fits) in
      let start : take n e ≡ take n g.short_name =
        take-prefix g z num true fits n (omega arith)
        ∙ take-append_eq n (take n g.short_name) (u16_to_hex g.chksum) (sym (length-start g z)) in
      let sum : take 4 (drop n e) ≡ u16_to_hex g.chksum = checksum_part g z num in
      rw
        (
          tilde,
          digit,
          to_digit_lem num small,
          start,
          drop_extension g z num true fits,
          sum,
          from_str_radix_16-u16_to_hex g.chksum z.sum,
          list_eq_refl (take n g.short_name),
          list_eq_refl (drop 8 g.short_name),
        )
        (ground (arith, bit-mark_self num g.prefix_chksum_bitmap))

pub exact_marked :
    (g : ShortNameGenerator) (e : List ℕ)
    → e ≡ g.short_name
    → (check_for_exact_match g e).exact_match ≡ true
unfolding check_for_exact_match
exact_marked g e h = rw (h, list_eq_refl g.short_name) refl
