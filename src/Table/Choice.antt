-- ===== src/Table/Choice.antt =====
-- What the plain scan answers, and which cluster an allocation takes.
use rust_fatfs.Base.{
  ℕ, zero, suc, ◌+◌, ◌-◌, ◌≤◌, ◌<◌, ◌≡◌, inl, inr, arith, true, false, ◌==◌, ltb, if◌then◌else◌,
  Bool-cases, Option, some, none,
}
use rust_fatfs.Table.Value.{FatValue, is_free}
use rust_fatfs.Table.Spec.{first_free}
use rust_fatfs.Table.{start_of}

-- The scan answers a free cluster of its range, and all before it are taken.
pub first_free-eq_some :
    (e : ℕ → FatValue) (left n r : ℕ)
    → first_free e left n ≡ some r
    → (n ≤ r)
      × (r < n + left)
      × (is_free (e r) ≡ true)
      × ((m : ℕ) → n ≤ m → m < r → is_free (e m) ≡ false)
unfolding first_free
first_free-eq_some e zero n r h = cc
first_free-eq_some e (suc left) n r h = elim (Bool-cases (is_free (e n))) [
  | inl y ↦
      let q : n ≡ r = ground arith in
      (omega arith, omega arith, ground arith, λ m a b. absurd (omega arith))
  | inr z ↦
      let ih = first_free-eq_some e left (n + 1) r (ground arith) in
      (
        omega arith,
        omega arith,
        ih.2,
        λ m a b. elim (Bool-cases (m == n)) [
          | inl q ↦ ground arith
          | inr q ↦ ih.3 m (ground arith) b
        ],
      )
]

-- It answers nothing exactly when no cluster of the range is free.
pub first_free-eq_none :
    (e : ℕ → FatValue) (left n : ℕ)
    → first_free e left n ≡ none
    → (m : ℕ) → n ≤ m
    → m < n + left
    → is_free (e m) ≡ false
unfolding first_free
first_free-eq_none e zero n h m a b = absurd (omega arith)
first_free-eq_none e (suc left) n h m a b = elim (Bool-cases (m == n)) [
  | inl q ↦ ground arith
  | inr q ↦ first_free-eq_none e left (n + 1) (ground arith) m (ground arith) (omega arith)
]

-- The search from the hint on, then before it.
unfoldable pub choice : (ℕ → FatValue) → Option ℕ → ℕ → Option ℕ
unfolding first_free start_of
choice e hint end =
    let start = start_of hint end in
    elim (first_free e (end - start) start) [
      | some n ↦ some n
      | none ↦ if ltb 2 start then first_free e (start - 2) 2 else none
    ]

-- A hint is a cluster number, not one of the two reserved entries.
abbrev pub IsHint : Option ℕ → Type 0
IsHint none = Unit
IsHint (some n) = 2 ≤ n

pub start_of_bounds :
    (hint : Option ℕ) (end : ℕ)
    → IsHint hint
    → 2 < end
    → (2 ≤ start_of hint end) × (start_of hint end < end)
unfolding start_of
start_of_bounds hint end h l = ground arith

-- The choice is a free cluster in the range of the data clusters.
pub choice-eq_some :
    (e : ℕ → FatValue) (hint : Option ℕ) (end r : ℕ)
    → IsHint hint
    → 2 < end
    → choice e hint end ≡ some r
    → (2 ≤ r) × (r < end) × (is_free (e r) ≡ true)
unfolding choice
choice-eq_some e hint end r h l q =
    let a = start_of hint end in
    ground (
      arith,
      start_of_bounds hint end h l,
      first_free-eq_some e (end - a) a r,
      first_free-eq_some e (a - 2) 2 r,
    )

-- There is none only if no data cluster is free.
pub choice-eq_none :
    (e : ℕ → FatValue) (hint : Option ℕ) (end : ℕ)
    → IsHint hint
    → 2 < end
    → choice e hint end ≡ none
    → (m : ℕ) → 2 ≤ m
    → m < end
    → is_free (e m) ≡ false
unfolding choice
choice-eq_none e hint end h l q m a b =
    let s = start_of hint end in
    ground (
      arith,
      start_of_bounds hint end h l,
      first_free-eq_none e (end - s) s (ground arith) m,
      first_free-eq_none e (s - 2) 2 (ground arith) m,
    )
