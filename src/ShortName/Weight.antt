-- ===== src/ShortName/Weight.antt =====
-- How many names a bitmap with all its digits marked stands for.
use rust_fatfs.Base.{
  min, ℕ, zero, suc, ◌+◌, ◌^◌, ◌≤◌, ◌<◌, ◌≡◌, refl, ap, ◌∙◌, arith, bit_and, bit_or, List, [], ◌∷◌,
  take, drop, true, false, Bool, Bool-cases, inl, inr, some, none, Option, ◌==◌, if◌then◌else◌,
  ◌&&◌,
}
use rust_fatfs.ShortName.{ShortNameGenerator, from_str_radix_16, to_digit, get, list_eq}
use rust_fatfs.ShortName.Generator.{
  mark, option_is, short_prefix_len, check_for_exact_match, check_for_long_prefix_collision,
  check_for_short_prefix_collision, add_existing, add_all, first_unset,
}
use rust_fatfs.ShortName.Bitmap.{bit, bit-bit_or}
use rust_fatfs.ShortName.Collision.{Keeps-trans, exact-Keeps, long-Keeps, add_existing-Keeps}
use rust_fatfs.Base.Bits.{bit_and_bit}

-- The bits `i`, `i + 1`, .. that are set, `rounds` of them.
pub weight : ℕ → ℕ → ℕ → ℕ
weight zero i bitmap = 0
weight (suc rounds) i bitmap = bit i bitmap + weight rounds (i + 1) bitmap

weight-bit_or :
    (rounds i x y : ℕ) → weight rounds i (bit_or x y) ≤ weight rounds i x + weight rounds i y
unfolding weight
weight-bit_or zero i x y = omega arith
weight-bit_or (suc rounds) i x y = omega (arith, bit-bit_or i x y, weight-bit_or rounds (i + 1) x y)

weight-pow : (num : ℕ) → num < 10 → weight 9 1 (2 ^ num) ≤ 1
unfolding weight
weight-pow zero h = omega arith
weight-pow (suc zero) h = omega arith
weight-pow (suc (suc zero)) h = omega arith
weight-pow (suc (suc (suc zero))) h = omega arith
weight-pow (suc (suc (suc (suc zero)))) h = omega arith
weight-pow (suc (suc (suc (suc (suc zero))))) h = omega arith
weight-pow (suc (suc (suc (suc (suc (suc zero)))))) h = omega arith
weight-pow (suc (suc (suc (suc (suc (suc (suc zero))))))) h = omega arith
weight-pow (suc (suc (suc (suc (suc (suc (suc (suc zero)))))))) h = omega arith
weight-pow (suc (suc (suc (suc (suc (suc (suc (suc (suc zero))))))))) h = omega arith
weight-pow (suc (suc (suc (suc (suc (suc (suc (suc (suc (suc num)))))))))) h = absurd (omega arith)

to_digit-lt : (c num : ℕ) → to_digit c ≡ some num → num < 10
unfolding to_digit
to_digit-lt c num h = ground arith

-- One name sets one bit at most, and none if it does not match.
weight-mark :
    (num_suffix : Option ℕ) (matches : Bool) (bitmap : ℕ)
    → ((num : ℕ) → num_suffix ≡ some num → num < 10)
    → weight 9 1 (mark num_suffix matches bitmap) ≤ weight 9 1 bitmap + (if matches then 1 else 0)
unfolding mark
weight-mark none true bitmap h = omega arith
weight-mark none false bitmap h = omega arith
weight-mark (some num) true bitmap h =
    omega (arith, weight-bit_or 9 1 bitmap (2 ^ num), weight-pow num (h num refl))
weight-mark (some num) false bitmap h = omega arith

-- All bits are set where no free number is found.
pub first_unset-none :
    (rounds i bitmap : ℕ) → first_unset rounds i bitmap ≡ none → weight rounds i bitmap ≡ rounds
unfolding first_unset weight
first_unset-none zero i bitmap h = refl
first_unset-none (suc rounds) i bitmap h = elim (Bool-cases (bit_and bitmap (2 ^ i) == 0)) [
  | inl free ↦ absurd (let h' : some i ≡ none = rw free at h in cc)
  | inr taken ↦
      let rest = first_unset-none rounds (i + 1) bitmap (rw taken at h) in
      ground (arith, rest, taken, bit_and_bit i bitmap)
]

unfoldable pub has_sum : ℕ → ℕ → List ℕ → ℕ
has_sum n chksum e = if option_is chksum (from_str_radix_16 (take 4 (drop n e))) then 1 else 0

unfoldable pub count : ℕ → ℕ → List (List ℕ) → ℕ
count n chksum [] = 0
count n chksum (e ∷ es) = has_sum n chksum e + count n chksum es

has_sum_same : {n n' c c' : ℕ} (e : List ℕ) → n ≡ n' → c ≡ c' → has_sum n c e ≡ has_sum n' c' e
has_sum_same e p q = rw (p, q) refl

pub count_same :
    {n n' c c' : ℕ} (es : List (List ℕ)) → n ≡ n' → c ≡ c' → count n c es ≡ count n' c' es
count_same es p q = rw (p, q) refl

and-le : (a b c : Bool) → (if a && b && c then 1 else 0) ≤ (if c then 1 else 0)
and-le true true c = omega arith
and-le false b c = ground arith
and-le true false c = ground arith

weight-short :
    (g : ShortNameGenerator) (e : List ℕ)
    → weight 9 1 (check_for_short_prefix_collision g e).prefix_chksum_bitmap
      ≤ weight 9 1 g.prefix_chksum_bitmap + has_sum (short_prefix_len g) g.chksum e
unfolding check_for_short_prefix_collision has_sum
weight-short g e = elim (Bool-cases (get e (short_prefix_len g + 4) == b'~')) [
  | inl tilde ↦ rw tilde (
      let n = short_prefix_len g in
      let digit = get e (n + 4 + 1) in
      let start = list_eq (take n e) (take n g.short_name) in
      let ext = list_eq (drop 8 e) (drop 8 g.short_name) in
      let sum = option_is g.chksum (from_str_radix_16 (take 4 (drop n e))) in
      omega (
        arith,
        weight-mark (to_digit digit) (start && ext && sum) g.prefix_chksum_bitmap
            (to_digit-lt digit),
        and-le start ext sum,
      ))
  | inr other ↦ rw other (omega arith)
]

exact_same :
    (g : ShortNameGenerator) (e : List ℕ)
    → (check_for_exact_match g e).prefix_chksum_bitmap ≡ g.prefix_chksum_bitmap
unfolding check_for_exact_match
exact_same g e = ground arith

long_same :
    (g : ShortNameGenerator) (e : List ℕ)
    → (check_for_long_prefix_collision g e).prefix_chksum_bitmap ≡ g.prefix_chksum_bitmap
unfolding check_for_long_prefix_collision
long_same g e = ground arith

weight-add_existing :
    (g : ShortNameGenerator) (e : List ℕ)
    → weight 9 1 (add_existing g e).prefix_chksum_bitmap
      ≤ weight 9 1 g.prefix_chksum_bitmap + has_sum (short_prefix_len g) g.chksum e
unfolding add_existing
weight-add_existing g e =
    let g1 = check_for_exact_match g e in
    let g2 = check_for_long_prefix_collision g1 e in
    let k = Keeps-trans (exact-Keeps g e) (long-Keeps g1 e) in
    let step = weight-short g2 e in
    let same : g2.prefix_chksum_bitmap ≡ g.prefix_chksum_bitmap = long_same g1 e ∙ exact_same g e in
    let sum = has_sum_same e (ap (min 2) k.base) k.sum in
    omega (arith, step, sum, ap (weight 9 1) same)

pub weight-add_all :
    (g : ShortNameGenerator) (es : List (List ℕ))
    → weight 9 1 (add_all g es).prefix_chksum_bitmap
      ≤ weight 9 1 g.prefix_chksum_bitmap + count (short_prefix_len g) g.chksum es
unfolding add_all count
weight-add_all g [] = omega arith
weight-add_all g (e ∷ es) =
    let k = add_existing-Keeps g e in
    let rest = weight-add_all (add_existing g e) es in
    let sum = count_same es (ap (min 2) k.base) k.sum in
    omega (arith, rest, sum, weight-add_existing g e)

pub weight-zero : weight 9 1 0 ≡ 0
unfolding weight
weight-zero = refl
