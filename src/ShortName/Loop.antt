-- ===== src/ShortName/Loop.antt =====
-- `check_for_existence` finds a free short name after boundedly many rounds.
use rust_fatfs.Base.{
  ℕ, min, zero, suc, ◌+◌, ◌-◌, ◌*◌, ◌%◌, ◌^◌, ◌≤◌, ◌<◌, ◌≡◌, ◌≢◌, refl, ap, ◌∙◌, arith, List, [],
  ◌∷◌, take, drop, length, Bool-cases, inl, inr, some, none, Option, ◌==◌, ltb, if◌then◌else◌, ◌&&◌,
  not, All, ◌⊎◌,
}
use rust_fatfs.Base.Result.{ok, err, Error}
use rust_fatfs.ShortName.{ShortNameGenerator, from_str_radix_16}
use rust_fatfs.ShortName.Generator.{
  short_prefix_len, option_is, add_all, first_unset, numbered, generate, next_iteration,
  short_name_loop,
}
use rust_fatfs.ShortName.Prefixed.{IsShaped}
use rust_fatfs.ShortName.Collision.{Keeps-IsShaped}
use rust_fatfs.ShortName.Unused.{add_all-Keeps, generate_unused}
use rust_fatfs.ShortName.Weight.{
  weight, has_sum, count, first_unset-none, weight-add_all, weight-zero,
}

-- The names with one of the checksums `chksum`, `chksum + 1`, .., `rounds` of them.
counts : ℕ → ℕ → ℕ → List (List ℕ) → ℕ
counts n zero chksum es = 0
counts n (suc rounds) chksum es = count n chksum es + counts n rounds ((chksum + 1) % 2 ^ 16) es

-- The same for a single name with the number `value` in it.
hits : ℕ → ℕ → ℕ → ℕ
hits zero chksum value = 0
hits (suc rounds) chksum value =
    (if value == chksum then 1 else 0) + hits rounds ((chksum + 1) % 2 ^ 16) value

hits_lem :
    (rounds chksum value : ℕ)
    → chksum < 2 ^ 16
    → rounds ≤ 2 ^ 16
    → hits rounds chksum value
      ≡ (if ltb value (2 ^ 16) && ltb ((value + 2 ^ 16 - chksum) % 2 ^ 16) rounds then 1 else 0)
unfolding hits
hits_lem zero chksum value h l = ground arith
hits_lem (suc rounds) chksum value h l =
    let rest = hits_lem rounds ((chksum + 1) % 2 ^ 16) value (omega arith) (omega arith) in
    ground (arith, rest)

hits_in : Option ℕ → ℕ → ℕ → ℕ
hits_in none rounds chksum = 0
hits_in (some value) rounds chksum = hits rounds chksum value

hits_in-le :
    (o : Option ℕ) (rounds chksum : ℕ)
    → chksum < 2 ^ 16
    → rounds ≤ 2 ^ 16
    → hits_in o rounds chksum ≤ 1
unfolding hits_in
hits_in-le none rounds chksum h l = omega arith
hits_in-le (some value) rounds chksum h l = ground (arith, hits_lem rounds chksum value h l)

if_hit :
    (o : Option ℕ) (rounds chksum : ℕ)
    → (if option_is chksum o then 1 else 0) + hits_in o rounds ((chksum + 1) % 2 ^ 16)
      ≡ hits_in o (suc rounds) chksum
unfolding hits_in hits option_is
if_hit none rounds chksum = refl
if_hit (some value) rounds chksum = refl

hits_in_zero : (o : Option ℕ) (chksum : ℕ) → hits_in o 0 chksum ≡ 0
unfolding hits_in hits
hits_in_zero none chksum = refl
hits_in_zero (some value) chksum = refl

has_sum_lem :
    (n chksum : ℕ) (e : List ℕ)
    → has_sum n chksum e
      ≡ (if option_is chksum (from_str_radix_16 (take 4 (drop n e))) then 1 else 0)
unfolding has_sum
has_sum_lem n chksum e = refl

counts-nil : (n rounds chksum : ℕ) → counts n rounds chksum [] ≡ 0
unfolding counts count
counts-nil n zero chksum = refl
counts-nil n (suc rounds) chksum = omega (arith, counts-nil n rounds ((chksum + 1) % 2 ^ 16))

counts-cons :
    (n rounds chksum : ℕ) (e : List ℕ) (es : List (List ℕ))
    → counts n rounds chksum (e ∷ es)
      ≡ hits_in (from_str_radix_16 (take 4 (drop n e))) rounds chksum + counts n rounds chksum es
unfolding counts count
counts-cons n zero chksum e es =
    omega (arith, hits_in_zero (from_str_radix_16 (take 4 (drop n e))) chksum)
counts-cons n (suc rounds) chksum e es = omega (
  arith,
  counts-cons n rounds ((chksum + 1) % 2 ^ 16) e es,
  has_sum_lem n chksum e,
  if_hit (from_str_radix_16 (take 4 (drop n e))) rounds chksum,
)

-- A name has one number at most, so it is in one round at most.
counts-le :
    (n rounds chksum : ℕ) (es : List (List ℕ))
    → chksum < 2 ^ 16
    → rounds ≤ 2 ^ 16
    → counts n rounds chksum es ≤ length es
counts-le n rounds chksum [] h l = omega (arith, counts-nil n rounds chksum)
counts-le n rounds chksum (e ∷ es) h l = omega (
  arith,
  counts-cons n rounds chksum e es,
  hits_in-le (from_str_radix_16 (take 4 (drop n e))) rounds chksum h l,
  counts-le n rounds chksum es h l,
)

numbered_cases :
    (g : ShortNameGenerator) (o p : Option ℕ)
    → ((name : List ℕ) × (numbered g o p ≡ ok name))
      ⊎ ((p ≡ none) × ((e : Error) × (numbered g o p ≡ err e)))
unfolding numbered
numbered_cases g (some i) p = inl (_, refl)
numbered_cases g none (some i) = inl (_, refl)
numbered_cases g none none = inr (refl, (_, refl))

-- A round fails only if nine names have its checksum.
generate_cases :
    (g : ShortNameGenerator)
    → ((name : List ℕ) × (generate g ≡ ok name))
      ⊎ ((weight 9 1 g.prefix_chksum_bitmap ≡ 9) × ((e : Error) × (generate g ≡ err e)))
unfolding generate
generate_cases g = elim (Bool-cases (not g.lossy_conv && g.name_fits && not g.exact_match)) [
  | inl plain ↦ rw plain (inl (g.short_name, refl))
  | inr other ↦
      rw other
        (elim (numbered_cases g (first_unset 4 1 g.long_prefix_bitmap)
          (first_unset 9 1 g.prefix_chksum_bitmap)) [
            | inl found ↦ inl found
            | inr failed ↦ inr (first_unset-none 9 1 g.prefix_chksum_bitmap failed.0, failed.1)
          ])
]

loop_round :
    (fuel : ℕ) (g : ShortNameGenerator) (existing : List (List ℕ)) (e : Error)
    → generate (add_all g existing) ≡ err e
    → short_name_loop (suc fuel) g existing
      ≡ short_name_loop fuel (next_iteration (add_all g existing)) existing
unfolding short_name_loop
loop_round fuel g existing e h = rw (short_name_loop, h) refl

loop_found :
    (fuel : ℕ) (g : ShortNameGenerator) (existing : List (List ℕ)) (name : List ℕ)
    → generate (add_all g existing) ≡ ok name
    → short_name_loop (suc fuel) g existing ≡ ok name
unfolding short_name_loop
loop_found fuel g existing name h = rw (short_name_loop, h) refl

next_iteration-IsShaped : (g : ShortNameGenerator) → IsShaped g → IsShaped (next_iteration g)
unfolding next_iteration
next_iteration-IsShaped g z = record { size = z.size; base = z.base; sum = omega arith }

next_iteration_fresh : (g : ShortNameGenerator) → (next_iteration g).prefix_chksum_bitmap ≡ 0
unfolding next_iteration
next_iteration_fresh g = refl

counts_same :
    {n n' c c' : ℕ} (fuel : ℕ) (es : List (List ℕ))
    → n ≡ n'
    → c ≡ c'
    → counts n fuel c es ≡ counts n' fuel c' es
counts_same fuel es p q = rw (p, q) refl

counts_round :
    (n fuel chksum : ℕ) (es : List (List ℕ))
    → counts n (suc fuel) chksum es ≡ count n chksum es + counts n fuel ((chksum + 1) % 2 ^ 16) es
unfolding counts
counts_round n fuel chksum es = refl

-- With fewer names than nine for each round, some round has a free name.
loop_counts :
    (fuel : ℕ) (g : ShortNameGenerator) (existing : List (List ℕ))
    → IsShaped g
    → g.prefix_chksum_bitmap ≡ 0
    → counts (short_prefix_len g) fuel g.chksum existing < 9 * fuel
    → (name : List ℕ) × (short_name_loop fuel g existing ≡ ok name) × All (λ e. e ≢ name) existing
unfolding counts next_iteration
loop_counts zero g existing z fresh few = absurd (omega arith)
loop_counts (suc fuel) g existing z fresh few =
    let g' = add_all g existing in
    elim (generate_cases g') [
      | inl (name, found) ↦
          (name, loop_found fuel g existing name found, generate_unused g existing name z found)
      | inr (full, (e, failed)) ↦
          let k = add_all-Keeps g existing in
          let nine = weight-add_all g existing in
          let empty : weight 9 1 g.prefix_chksum_bitmap ≡ 0 = ap (weight 9 1) fresh ∙ weight-zero in
          let same : short_prefix_len g' ≡ short_prefix_len g = ap (min 2) k.base in
          let left = counts_same fuel existing same (ap (λ (c : ℕ). (c + 1) % 2 ^ 16) k.sum) in
          let rest =
            loop_counts fuel (next_iteration g') existing
              (next_iteration-IsShaped g' (Keeps-IsShaped k z)) (next_iteration_fresh g')
              (omega (arith, left, counts_round (short_prefix_len g) fuel g.chksum existing)) in
          (rest.0, loop_round fuel g existing e failed ∙ rest.1, rest.2)
    ]

-- Progress of the search for a short name in a directory that does not have the long name: from a
-- generator as `new` makes it, with a name of 11 bytes and no marks, over `existing` short names,
-- `fuel` rounds are enough as soon as nine of them outnumber the names, up to the 65536 checksums
-- that there are. The loop then ends with a name, and no entry has it.
pub short_name_loop_found :
    (fuel : ℕ) (g : ShortNameGenerator) (existing : List (List ℕ))
    → IsShaped g
    → g.prefix_chksum_bitmap ≡ 0
    → fuel ≤ 2 ^ 16
    → length existing < 9 * fuel
    → (name : List ℕ) × (short_name_loop fuel g existing ≡ ok name) × All (λ e. e ≢ name) existing
short_name_loop_found fuel g existing z fresh small few =
    let below = counts-le (short_prefix_len g) fuel g.chksum existing z.sum small in
    loop_counts fuel g existing z fresh (omega arith)
