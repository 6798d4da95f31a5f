-- ===== src/DirEntry/Fields.antt =====
-- dir_entry.rs: the fields of an entry that are set and got in packed form.
use rust_fatfs.Base.{
  ℕ, ◌*◌, ◌/◌, ◌%◌, ◌^◌, ◌<◌, ◌≡◌, inl, inr, refl, ◌∙◌, arith, bit_and, bit_or, if◌then◌else◌,
  Bool-cases, Option, some, none, min,
}
use rust_fatfs.Base.Bits.{bit_and_mask, bit_or_high_low}
use rust_fatfs.Base.Result.{ok}
use rust_fatfs.FatType.{FatType, is_fat32_type}
use rust_fatfs.Time.{Date, Time, new_date, new_time, decode_date_time}
use rust_fatfs.Time.Codec.{decode_date-encode_date, decode_time-encode_time}
use rust_fatfs.DirEntry.{DirFileEntryData, first_cluster, set_first_cluster, created, set_created}

-- A cluster that an entry can name: a data cluster of 32 bits for FAT32, of 16 for the others.
abbrev pub IsCluster : FatType → Option ℕ → Type 0
IsCluster t none = Unit
IsCluster t (some n) = (0 < n) × (n < (if is_fat32_type t then 2 ^ 32 else 2 ^ 16))

joined : (n : ℕ) → n < 2 ^ 32 → bit_or (n / 2 ^ 16 % 2 ^ 16 * 2 ^ 16) (bit_and n 0xFFFF) ≡ n
joined n h =
    rw (bit_and_mask 16 n)
      (bit_or_high_low 16 (n / 2 ^ 16 % 2 ^ 16) (n % 2 ^ 16) (omega arith) ∙ omega arith)

low_only : (n : ℕ) → n < 2 ^ 16 → bit_or (0 * 2 ^ 16) (bit_and n 0xFFFF) ≡ n
low_only n h =
    rw (bit_and_mask 16 n) (bit_or_high_low 16 0 (n % 2 ^ 16) (omega arith) ∙ omega arith)

-- The first cluster that is set in an entry, none or one that the format can name, is got from it.
pub first_cluster-set_first_cluster :
    (e : DirFileEntryData) (t : FatType) (o : Option ℕ)
    → IsCluster t o
    → first_cluster (set_first_cluster e o t) t ≡ o
unfolding first_cluster set_first_cluster
first_cluster-set_first_cluster e t none h = elim (Bool-cases (is_fat32_type t)) [
  | inl y ↦ rw y refl
  | inr n ↦ rw n refl
]
first_cluster-set_first_cluster e t (some k) h = elim (Bool-cases (is_fat32_type t)) [
  | inl y ↦ let (pos, lt) = rw y at h in rw (y, joined k lt) (ground arith)
  | inr n ↦ let (pos, lt) = rw n at h in rw (n, low_only k lt) (ground arith)
]

-- The date and time of creation that are set in an entry, which are those that `Date::new` and
-- `Time::new` accept, are got from it with the milliseconds rounded down to a multiple of 10.
pub created-set_created :
    (e : DirFileEntryData) (y m d h min s ms : ℕ) (date : Date) (time : Time)
    → new_date y m d ≡ ok date
    → new_time h min s ms ≡ ok time
    → created (set_created e (record { date = date; time = time }))
      ≡ record { date = date; time = record time { millis = time.millis / 10 * 10 } }
unfolding created set_created decode_date_time
created-set_created e y m d h min s ms date time p q =
    let (a, b) = decode_date-encode_date y m d date p in
    let (u, v, w) = decode_time-encode_time h min s ms time q in rw (b, w) refl
