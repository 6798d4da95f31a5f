-- ===== src/Table/Value.antt =====
-- table.rs: the value of an entry.
use rust_fatfs.Base.{ℕ, Bool, true, false}

pub data FatValue : Type 0 where
  free : FatValue
  data_at : ℕ → FatValue
  bad end_of_chain : FatValue

abbrev pub reserved_fat_entries : ℕ
reserved_fat_entries = 2

-- `== FatValue::Free`
abbrev pub is_free : FatValue → Bool
is_free free = true
is_free _ = false
