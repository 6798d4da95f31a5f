-- ===== src/Table/Interface.antt =====
-- What the clients of a table (allocation, chains) rely on: entries that are read and written one
-- at a time, and scans over them.
use rust_fatfs.Base.{ℕ, ◌+◌, ◌-◌, ◌≤◌, ◌<◌, ◌≡◌, ◌==◌, if◌then◌else◌}
use rust_fatfs.Base.Result.{ok}
use rust_fatfs.FatType.{FatType}
use rust_fatfs.Io.{Stream}
use rust_fatfs.Table.{read_fat, write_fat, find_free_cluster, count_free_clusters}
use rust_fatfs.Table.Value.{FatValue}
use rust_fatfs.Table.Spec.{IsStorable, first_free, count_of_free, found}

-- `got` and `put` are the states behind a read and a write of an entry. Clusters below `limit`
-- have an entry.
pub record IsTable {S : Type 0} (t : FatType) (fat : Stream S) : Type 0 where
  pub limit : S → ℕ
  pub value : S → ℕ → FatValue
  pub got : S → ℕ → S
  pub put : S → ℕ → FatValue → S
  pub limit_le : (s : S) → limit s ≤ 0x0FFF_FFF7
  pub read_in : (s : S) (n : ℕ) → n < limit s → read_fat fat t n s ≡ (ok (value s n), got s n)
  pub value-got : (s : S) (n : ℕ) → n < limit s → value (got s n) ≡ value s
  pub limit-got : (s : S) (n : ℕ) → limit (got s n) ≡ limit s
  pub write_in :
      (s : S) (n : ℕ) (v : FatValue)
      → n < limit s
      → IsStorable t v
      → write_fat fat t n v s ≡ (ok tt, put s n v)
  pub value-put :
      (s : S) (n m : ℕ) (v : FatValue)
      → n < limit s
      → m < limit s
      → IsStorable t v
      → value (put s n v) m ≡ (if n == m then v else value s m)
  pub limit-put : (s : S) (n : ℕ) (v : FatValue) → limit (put s n v) ≡ limit s
  pub find_in :
      (s : S) (a b : ℕ)
      → a < b
      → b ≤ limit s
      → let r = find_free_cluster fat t a b s in
        (r.0 ≡ found (first_free (value s) (b - a) a))
        × (value r.1 ≡ value s)
        × (limit r.1 ≡ limit s)
  pub count_in :
      (s : S) (total : ℕ)
      → 0 < total
      → total + 2 ≤ limit s
      → let r = count_free_clusters fat t total s in
        (r.0 ≡ ok (count_of_free (value s) total 2)) × (value r.1 ≡ value s) × (limit r.1 ≡ limit s)
