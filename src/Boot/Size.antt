-- ===== src/Boot/Size.antt =====
-- boot_sector.rs: the size that a new volume's table gets.
use rust_fatfs.Base.{
  ℕ, zero, suc, ◌+◌, ◌-◌, ◌*◌, ◌/◌, ◌%◌, ◌^◌, ◌≤◌, ◌<◌, ◌≡◌, refl, inl, inr, sym, arith, Bool,
  false, ltb, leb, if◌then◌else◌, Bool-cases, ltb→lt, ltb→le,
}
use native.Mathlib.Nat.{mul-le-mul_left, mul-le-mul_right, le_of_mul-le-mul_left, div-mul-le_self}
use rust_fatfs.Base.Result.{Result, ok, err, invalid_input}
use rust_fatfs.FatType.{FatType, from_clusters, bits_per_fat_entry, max_clusters}
use rust_fatfs.Boot.Layout.{
  determine_sectors_per_fat, accept_layout, try_fs_layout, reserved_for, same_type,
}

table_fits :
    (spc bps bits q f left clusters : ℕ)
    → 0 < spc
    → q * bits ≤ spc * bps * 8
    → left + 2 * spc ≤ f * q
    → clusters * spc ≤ left
    → (clusters + 2) * bits ≤ f * (bps * 8)
table_fits spc bps bits q f left clusters a b c d =
    let whole : clusters * spc + 2 * spc ≤ f * q = omega arith in
    let s1 : (clusters * spc + 2 * spc) * bits ≤ f * q * bits = mul-le-mul_right bits whole in
    let s2 : f * (q * bits) ≤ f * (spc * bps * 8) = mul-le-mul_left f b in
    let scaled : spc * ((clusters + 2) * bits) ≤ spc * (f * (bps * 8)) = omega arith in
    le_of_mul-le-mul_left {k = spc} scaled a

-- The table's entries, as a part of the sectors of its cluster.
entries_min :
    (spc bps bits : ℕ) → 512 ≤ bps → 0 < bits → bits ≤ 32 → 128 * spc ≤ spc * bps * 8 / bits
entries_min spc bps bits a b c = grind arith

-- The rounded quotient.
ceil_ge : (x y : ℕ) → 0 < y → x ≤ (x + y - 1) / y * y
ceil_ge x y h = grind arith

ceil_lt : (x y : ℕ) → 0 < y → (x + y - 1) / y * y < x + y
ceil_lt x y h = grind arith

-- What the tables take leaves data sectors.
room :
    (t0 spc q fats f : ℕ)
    → 0 < spc
    → 128 * spc ≤ q
    → fats ≤ 2
    → 3 ≤ t0
    → f * (q + fats) < t0 + 2 * spc + (q + fats)
    → f * fats < t0
room t0 spc q fats zero a b c d e = omega arith
room t0 spc q fats (suc zero) a b c d e = omega arith
room t0 spc q fats (suc (suc g)) a b c d e = grind arith

-- The quotient stays below 2 ^ 32.
quotient_lt : (t1 t2 : ℕ) → 128 ≤ t2 → t1 < 2 ^ 32 + 512 → (t1 + t2 - 1) / t2 < 2 ^ 32
quotient_lt t1 t2 h k =
    let u = ceil_lt t1 t2 (omega arith) in
    let big = (t1 + t2 - 1) / t2 in
    elim (Bool-cases (ltb big (2 ^ 32))) [
      | inl l ↦ ltb→lt _ _ l
      | inr g ↦
          let le = ltb→le big (2 ^ 32) g in
          let scaled : 2 ^ 32 * t2 ≤ big * t2 = mul-le-mul_right t2 le in absurd (omega arith)
    ]

entry_bits : (t : FatType) → (0 < bits_per_fat_entry t) × (bits_per_fat_entry t ≤ 32)
unfolding bits_per_fat_entry
entry_bits t = ground arith

-- The size covers the data sectors with two clusters more, and its copies leave room.
sectors_per_fat_lem :
    (total bps spc : ℕ) (t : FatType) (r root fats : ℕ)
    → total < 2 ^ 32
    → 512 ≤ bps
    → 0 < spc
    → spc < 256
    → fats ≤ 2
    → r + root + 8 < total
    → let f = determine_sectors_per_fat total bps spc t r root fats in
      (f * fats < total - r - root)
      × (total - r - root + 2 * spc ≤ f * (spc * bps * 8 / bits_per_fat_entry t + fats))
unfolding determine_sectors_per_fat
sectors_per_fat_lem total bps spc t r root fats a b c d e h =
    let bits = entry_bits t in
    let q = spc * bps * 8 / bits_per_fat_entry t in
    let q_min = entries_min spc bps (bits_per_fat_entry t) b bits.0 bits.1 in
    let t0 = total - r - root in
    let t1 = t0 + 2 * spc in
    let t2 = q + fats in
    let small = quotient_lt t1 t2 (omega arith) (omega arith) in
    let exact : (t1 + t2 - 1) / t2 % 2 ^ 32 ≡ (t1 + t2 - 1) / t2 = omega arith in
    rw exact (
      room t0 spc q fats ((t1 + t2 - 1) / t2) c q_min e (omega arith) (ceil_lt t1 t2 (omega arith)),
      ceil_ge t1 t2 (omega arith),
    )

accepted :
    (spc : ℕ) (t : FatType) (left reserved size r f : ℕ)
    → accept_layout spc t left reserved size ≡ ok (r, f)
    → (0 < spc)
      × (reserved ≡ r)
      × (size ≡ f)
      × (from_clusters (left / spc) ≡ t)
      × (left / spc ≤ max_clusters t)
unfolding accept_layout same_type
accepted spc t left reserved size r f h = ground arith

if-ok :
    {A : Type 0} (test : Bool) (rest : Result A) (x : A)
    → (if test then err invalid_input else rest) ≡ ok x
    → (test ≡ false) × (rest ≡ ok x)
if-ok test rest x h = ground arith

-- A layout that is accepted for a disk of less than 2 ^ 32 sectors, each of 512 bytes at least, with
-- clusters of 255 sectors at most and at most two tables: a cluster is not empty; the reserved
-- sectors are those of the format; they, the root directory and the tables leave data sectors in
-- the disk; these are a number of clusters that the format is for; and each table has an entry for
-- every cluster and the two reserved ones.
pub try_fs_layout-fits :
    (total bps spc : ℕ) (t : FatType) (root fats r f : ℕ)
    → total < 2 ^ 32
    → 512 ≤ bps
    → spc < 256
    → fats ≤ 2
    → try_fs_layout total bps spc t root fats ≡ ok (r, f)
    → let clusters = (total - r - root - f * fats) / spc in
      (0 < spc)
      × (r ≡ reserved_for t)
      × (r + root + f * fats < total)
      × (from_clusters clusters ≡ t)
      × (clusters ≤ max_clusters t)
      × ((clusters + 2) * bits_per_fat_entry t ≤ f * (bps * 8))
unfolding try_fs_layout
try_fs_layout-fits total bps spc t root fats r f a b d e h =
    let r0 = reserved_for t in
    let size = determine_sectors_per_fat total bps spc t r0 root fats in
    let left = (total - r0 - root + 2 ^ 32 - size * fats % 2 ^ 32) % 2 ^ 32 in
    let (big, rest) =
      if-ok (leb total (r0 + root + 8)) (accept_layout spc t left r0 size) (r, f) h in
    let (pos, er, ef, type, few) = accepted spc t left r0 size r f rest in
    let over : r0 + root + 8 < total = ground arith in
    let (inside, covers) = sectors_per_fat_lem total bps spc t r0 root fats a b pos d e over in
    let plain : left ≡ total - r0 - root - size * fats = omega arith in
    let q = spc * bps * 8 / bits_per_fat_entry t in
    let fits : left + 2 * spc ≤ size * q = omega arith in
    let table =
      table_fits spc bps (bits_per_fat_entry t) q size left (left / spc) pos (div-mul-le_self _ _)
        fits (div-mul-le_self _ _) in
    rw (sym er, sym ef, sym plain) (pos, refl, omega arith, type, few, table)
