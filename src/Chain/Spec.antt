-- ===== src/Chain/Spec.antt =====
-- A chain of clusters in a table, as a list.
use rust_fatfs.Base.{ℕ, ◌<◌, ◌≡◌, Bool, true, false, ◌==◌, if◌then◌else◌, List, [], ◌∷◌, some, none}
use rust_fatfs.Table.Value.{FatValue}
use rust_fatfs.Table.{next_of}

-- `rest` are the clusters that follow `n`.
unfoldable pub IsChain : (ℕ → FatValue) → ℕ → List ℕ → Type 0
IsChain e n [] = next_of (e n) ≡ none
IsChain e n (m ∷ rest) = (next_of (e n) ≡ some m) × IsChain e m rest

abbrev pub elem : ℕ → List ℕ → Bool
elem n [] = false
elem n (m ∷ ms) = if n == m then true else elem n ms

-- No cluster twice.
abbrev pub IsSimple : List ℕ → Type 0
IsSimple [] = Unit
IsSimple (m ∷ ms) = (elem m ms ≡ false) × IsSimple ms

abbrev pub AllBelow : ℕ → List ℕ → Type 0
AllBelow limit [] = Unit
AllBelow limit (m ∷ ms) = (m < limit) × AllBelow limit ms
