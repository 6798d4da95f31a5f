-- ===== src/Lfn/Parts.antt =====
-- Parts of thirteen units: what an entry keeps of one, and the order that it carries.
use rust_fatfs.Base.{
  ℕ, suc, ◌-◌, ◌≤◌, ◌<◌, ◌≡◌, refl, sym, ap, arith, List, [], ◌∷◌, ◌++◌, length, replicate,
  length-append, length-replicate, append-nil, ltb, Bool-cases, ltb→lt, ltb→le, inl, inr,
  if◌then◌else◌, bit_and, bit_or,
}
use rust_fatfs.Base.Bits.{bit_and_bit, bit_and_mask, bit_or_low_high}
use rust_fatfs.DirEntry.{DirLfnEntryData}
use rust_fatfs.Lfn.{copy_name_from_slice, name_units, pad_part, lfn_padding}

-- The three fields of a name hold the whole part.
pub name_units-copy_name_from_slice :
    (entry : DirLfnEntryData) (part : List ℕ)
    → length part ≡ 13
    → name_units (copy_name_from_slice entry part) ≡ part
unfolding name_units copy_name_from_slice
name_units-copy_name_from_slice entry (a ∷ b ∷ c ∷ d ∷ e ∷ f ∷ g ∷ h ∷ i ∷ j ∷ k ∷ l ∷ m ∷ []) p =
    refl
name_units-copy_name_from_slice entry _ p = ground arith

-- What follows the units of a part.
unfoldable pub padding : ℕ → List ℕ
padding n = if ltb n 13 then 0 ∷ replicate (12 - n) lfn_padding else []

sub_sub_one : (n : ℕ) → 13 - n - 1 ≡ 12 - n
sub_sub_one n = omega arith

pub pad_part_lem : (part : List ℕ) → pad_part part ≡ part ++ padding (length part)
unfolding pad_part padding
pad_part_lem part = elim (Bool-cases (ltb (length part) 13)) [
  | inl short ↦ rw (short, sub_sub_one (length part)) refl
  | inr full ↦ rw full (sym (append-nil part))
]

pub length-pad_part : (part : List ℕ) → length part ≤ 13 → length (pad_part part) ≡ 13
unfolding pad_part
length-pad_part part h = elim (Bool-cases (ltb (length part) 13)) [
  | inl short ↦
      rw
        (
          short,
          length-append part (0 ∷ replicate (13 - length part - 1) lfn_padding),
          ap suc (length-replicate (13 - length part - 1) lfn_padding),
        )
        (omega (arith, ltb→lt (length part) 13 short))
  | inr full ↦ rw full (omega (arith, ltb→le (length part) 13 full))
]

pub order_first :
    (k : ℕ) → k < 32 → (bit_and (bit_or k 0x40) 0x40 ≡ 64) × (bit_and (bit_or k 0x40) 0x1F ≡ k)
order_first k h =
    ground
      (arith, bit_or_low_high 6 1 k, bit_and_bit 6 (bit_or k 0x40), bit_and_mask 5 (bit_or k 0x40))

pub order_middle : (k : ℕ) → k < 32 → (bit_and k 0x40 ≡ 0) × (bit_and k 0x1F ≡ k)
order_middle k h = (omega (arith, bit_and_bit 6 k), omega (arith, bit_and_mask 5 k))
