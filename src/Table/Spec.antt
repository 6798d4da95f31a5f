-- ===== src/Table/Spec.antt =====
-- What a table means, read off its bytes: the value of each entry, and plain scans over them.
use rust_fatfs.Base.{
  ℕ, zero, suc, ◌+◌, ◌*◌, ◌/◌, ◌<◌, ◌≡◌, refl, bit_and, if◌then◌else◌, Option, some, none, min,
}
use rust_fatfs.Base.Result.{Result, ok, err, not_enough_space}
use rust_fatfs.FatType.{FatType, fat12, fat16, fat32, bits_per_fat_entry}
use rust_fatfs.Io.Words.{word16, word32}
use rust_fatfs.Table.Value.{FatValue, free, data_at, bad, end_of_chain, is_free}
use rust_fatfs.Table.Fat12
use rust_fatfs.Table.Fat16
use rust_fatfs.Table.Fat32

unfoldable pub entry : FatType → (ℕ → ℕ) → ℕ → FatValue
entry fat12 f n = Fat12.decode (Fat12.entry_of n (word16 f (n + n / 2)))
entry fat16 f n = Fat16.decode (word16 f (n * 2))
entry fat32 f n = Fat32.decode n (bit_and (word32 f (n * 4)) 0x0FFF_FFFF)

-- The number that marks a bad cluster; larger ones end a chain.
abbrev pub bad_mark : FatType → ℕ
bad_mark fat12 = 0xFF7
bad_mark fat16 = 0xFFF7
bad_mark fat32 = 0x0FFF_FFF7

-- The values that an entry can hold.
abbrev pub IsStorable : FatType → FatValue → Type 0
IsStorable t (data_at n) = (0 < n) × (n < bad_mark t)
IsStorable t free = Unit
IsStorable t bad = Unit
IsStorable t end_of_chain = Unit

-- The entries of a table of `size` bytes. No cluster number reaches the FAT32 mark.
unfoldable pub capacity : FatType → ℕ → ℕ
unfolding bits_per_fat_entry
capacity t size = min (size * 8 / bits_per_fat_entry t) 0x0FFF_FFF7

-- The first free one of the `left` clusters from `cluster` on.
unfoldable pub first_free : (ℕ → FatValue) → ℕ → ℕ → Option ℕ
first_free e zero cluster = none
first_free e (suc left) cluster =
    if is_free (e cluster) then some cluster else first_free e left (cluster + 1)

pub first_free-zero : (e : ℕ → FatValue) (n : ℕ) → first_free e 0 n ≡ none
unfolding first_free
first_free-zero e n = refl

pub first_free-suc :
    (e : ℕ → FatValue) (left n : ℕ)
    → first_free e (suc left) n ≡ (if is_free (e n) then some n else first_free e left (n + 1))
unfolding first_free
first_free-suc e left n = refl

-- How many of them are free.
unfoldable pub count_of_free : (ℕ → FatValue) → ℕ → ℕ → ℕ
count_of_free e zero cluster = 0
count_of_free e (suc left) cluster =
    (if is_free (e cluster) then 1 else 0) + count_of_free e left (cluster + 1)

-- The answer of `find_free`.
abbrev pub found : Option ℕ → Result ℕ
found none = err not_enough_space
found (some n) = ok n
