-- ===== src/Boot/Power.antt =====
-- boot_sector.rs: the cluster size of a new volume is a power of two.
use rust_fatfs.Base.{
  Bool, true, false, ℕ, zero, suc, ◌+◌, ◌*◌, ◌/◌, ◌%◌, ◌^◌, ◌<◌, ◌≡◌, ◌⊎◌, inl, inr, refl, sym, ap,
  ◌∙◌, arith, ltb, leb, Bool-cases, Option, some, none, if◌then◌else◌,
}
use native.Mathlib.Nat.{
  pow-suc, one-le-pow, div-div-eq-div-mul, mod-eq_of_lt, mod-lt, div-add-mod',
  mul-add-mod_self_right,
}
use rust_fatfs.Base.Outcome.{Gives}
use rust_fatfs.FatType.{FatType, fat12, fat16, fat32}
use rust_fatfs.Boot.Layout.{
  power_from, next_power_of_two, wanted_bytes_per_cluster, clamp, determine_bytes_per_cluster, mb,
  gb, estimate_fat_type, max_cluster_size,
}
use rust_fatfs.Boot.Valid.{IsPower}

-- A power of two, or 0 where it has been shifted or cut away.
abbrev pub IsShifted : ℕ → Type 0
IsShifted n = (n ≡ 0) ⊎ IsPower n

half-IsShifted : (n : ℕ) → IsShifted n → IsShifted (n / 2)
half-IsShifted n (inl z) = inl (omega arith)
half-IsShifted n (inr (zero, e)) = inl (omega arith)
half-IsShifted n (inr (suc k, e)) = inr (k, ground (arith, pow-suc 2 k))

double-IsShifted : (n : ℕ) → IsShifted n → IsShifted (n * 2)
double-IsShifted n (inl z) = inl (omega arith)
double-IsShifted n (inr (k, e)) = inr (suc k, ground (arith, pow-suc 2 k))

div-IsShifted : (j n : ℕ) → IsShifted n → IsShifted (n / 2 ^ j)
div-IsShifted zero n h = let e : n / 2 ^ 0 ≡ n = omega arith in rw e h
div-IsShifted (suc j) n h =
    let e : n / 2 ^ suc j ≡ n / 2 ^ j / 2 =
      ap (λ m. n / m) (pow-suc 2 j) ∙ sym (div-div-eq-div-mul n (2 ^ j) 2) in
    rw e (half-IsShifted (n / 2 ^ j) (div-IsShifted j n h))

mul-IsShifted : (j n : ℕ) → IsShifted n → IsShifted (n * 2 ^ j)
mul-IsShifted zero n h = let e : n * 2 ^ 0 ≡ n = omega arith in rw e h
mul-IsShifted (suc j) n h =
    let e : n * 2 ^ suc j ≡ n * 2 ^ j * 2 = omega (arith, ap (λ m. n * m) (pow-suc 2 j)) in
    rw e (double-IsShifted (n * 2 ^ j) (mul-IsShifted j n h))

double-mod : (a b : ℕ) → 0 < b → a * 2 % (b * 2) ≡ a % b * 2
double-mod a b pos =
    let small = mod-lt a pos in
    let parts : a * 2 ≡ a / b * (b * 2) + a % b * 2 = omega (arith, div-add-mod' a b) in
    ap (λ n. n % (b * 2)) parts
    ∙ mul-add-mod_self_right (a / b) (b * 2) (a % b * 2)
    ∙ mod-eq_of_lt (omega arith)

power_mod : (j k : ℕ) → IsShifted (2 ^ k % 2 ^ j)
power_mod zero k = inl (omega arith)
power_mod (suc j) zero =
    let pos = one-le-pow j 2 (omega arith) in inr (0, mod-eq_of_lt (omega (arith, pow-suc 2 j)))
power_mod (suc j) (suc k) =
    let e : 2 ^ suc k % 2 ^ suc j ≡ 2 ^ k % 2 ^ j * 2 =
      rw (pow-suc 2 k, pow-suc 2 j) (double-mod (2 ^ k) (2 ^ j) (one-le-pow j 2 (omega arith))) in
    rw e (double-IsShifted (2 ^ k % 2 ^ j) (power_mod j k))

mod-IsShifted : (j n : ℕ) → IsShifted n → IsShifted (n % 2 ^ j)
mod-IsShifted j n (inl z) =
    let pos = one-le-pow j 2 (omega arith) in let e : n % 2 ^ j ≡ 0 = grind arith in inl e
mod-IsShifted j n (inr (k, e)) = rw e (power_mod j k)

power_from-IsShifted : (n p x : ℕ) → IsPower p → IsShifted (power_from n p x)
unfolding power_from
power_from-IsShifted zero p x h = inl refl
power_from-IsShifted (suc n) p x (k, e) = elim (Bool-cases (leb x p)) [
  | inl t ↦ rw t (inr (k, e))
  | inr f ↦ rw f (power_from-IsShifted n (2 * p) x (suc k, omega (arith, pow-suc 2 k)))
]

if-IsShifted :
    (test : Bool) {a b : ℕ} → IsShifted a → IsShifted b → IsShifted (if test then a else b)
if-IsShifted true h k = h
if-IsShifted false h k = k

scaled-IsShifted : (j p : ℕ) → IsShifted p → IsShifted (p / 2 ^ j % 2 ^ 32 * 2 ^ 10 % 2 ^ 32)
scaled-IsShifted j p h =
    mod-IsShifted 32 (p / 2 ^ j % 2 ^ 32 * 2 ^ 10)
      (mul-IsShifted 10 (p / 2 ^ j % 2 ^ 32) (mod-IsShifted 32 (p / 2 ^ j) (div-IsShifted j p h)))

next-IsShifted : (x : ℕ) → IsShifted (next_power_of_two x)
next-IsShifted x = power_from-IsShifted 64 1 x (0, refl)

wanted-IsShifted : (t : FatType) (total : ℕ) → IsShifted (wanted_bytes_per_cluster t total)
unfolding wanted_bytes_per_cluster
wanted-IsShifted fat12 total = mod-IsShifted 32 (next_power_of_two total / 2 ^ 20 * 2 ^ 9) (
    mul-IsShifted 9 (next_power_of_two total / 2 ^ 20)
      (div-IsShifted 20 (next_power_of_two total) (next-IsShifted total)))
wanted-IsShifted fat16 total = if-IsShifted (leb total (16 * mb)) (inr (10, refl)) (
    if-IsShifted (leb total (128 * mb)) (inr (11, refl))
      (scaled-IsShifted 26 (next_power_of_two total) (next-IsShifted total)))
wanted-IsShifted fat32 total = if-IsShifted (leb total (260 * mb)) (inr (9, refl)) (
    if-IsShifted (leb total (8 * gb)) (inr (12, refl))
      (scaled-IsShifted 31 (next_power_of_two total) (next-IsShifted total)))

clamp-IsShifted :
    (x low high : ℕ)
    → IsShifted x
    → IsShifted low
    → IsShifted high
    → Gives IsShifted (clamp x low high)
unfolding clamp
clamp-IsShifted x low high hx hl hh = elim (Bool-cases (ltb high low)) [
  | inl t ↦ rw t tt
  | inr f ↦ rw f (elim (Bool-cases (ltb x low)) [
    | inl t ↦ rw t hl
    | inr g ↦ rw g (elim (Bool-cases (ltb high x)) [ inl t ↦ rw t hh | inr k ↦ rw k hx ])
  ])
]

pub determine-IsShifted :
    (total bps : ℕ) (t : Option FatType)
    → IsPower bps
    → Gives IsShifted (determine_bytes_per_cluster total bps t)
unfolding determine_bytes_per_cluster
determine-IsShifted total bps none h =
    clamp-IsShifted _ bps max_cluster_size (wanted-IsShifted (estimate_fat_type total) total)
      (inr h) (inr (15, refl))
determine-IsShifted total bps (some t) h =
    clamp-IsShifted _ bps max_cluster_size (wanted-IsShifted t total) (inr h) (inr (15, refl))

-- The sectors of a cluster.
pub quotient-IsPower : (b bps : ℕ) → IsShifted b → IsPower bps → 0 < b / bps → IsPower (b / bps)
quotient-IsPower b bps h (j, e) some_sectors =
    let q : IsShifted (b / bps) = rw e (div-IsShifted j b h) in
    elim q [ inl z ↦ absurd (omega arith) | inr p ↦ p ]
