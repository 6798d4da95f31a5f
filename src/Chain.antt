-- ===== src/Chain.antt =====
-- table.rs: `ClusterIterator`, which walks, truncates and frees a chain of clusters.
pub mod Spec
pub mod Free
pub mod Total
pub mod Loops
use rust_fatfs.Base.{
  ℕ, zero, suc, ◌+◌, ◌-◌, ◌*◌, ◌/◌, ◌%◌, ◌^◌, ◌≤◌, ◌<◌, ◌≡◌, ◌≢◌, ◌⊎◌, inl, inr, refl, ◌∙◌, sym, ap,
  arith, bit_and, bit_or, Bool, true, false, ◌==◌, ltb, leb, if◌then◌else◌, Bool-cases,
  Option-cases, ◌&&◌, ◌||◌, not, List, [], ◌∷◌, ◌++◌, Option, some, none, length, All, ◌↔◌, min,
  max, map, take, drop, replicate,
}
use rust_fatfs.Base.Result.{Error, Result, ok, err, panic, stuck, M, pure, ◌>>=◌, ◌>>◌, and_then}
use rust_fatfs.FatType.{FatType}
use rust_fatfs.Io.{Stream}
use rust_fatfs.Table.{get_next_cluster, write_fat}
use rust_fatfs.Table.Value.{FatValue, free, end_of_chain}

pub record ClusterIterator (S : Type 0) : Type 0 where
  pub fat : S
  pub cluster : Option ℕ
  -- The field `err` of the source.
  pub failed : Bool

-- The rounds of `free` that the model runs. A table has fewer clusters.
abbrev pub chain_fuel : ℕ
chain_fuel = 2 ^ 28

unfoldable pub answer : Result (Option ℕ) → Option (Result ℕ)
answer (ok (some n)) = some (ok n)
answer (ok none) = none
answer (err e) = some (err e)
answer panic = some panic
answer stuck = some stuck

module _ {S : Type 0} where
  -- `self.next();`: what `next` answers is dropped, an error too. A panic goes on.
  unfoldable pub dropped :
      Option (Result ℕ) × ClusterIterator S → Result (Unit {0}) × ClusterIterator S
  dropped (some panic, it) = (panic, it)
  dropped (some stuck, it) = (stuck, it)
  dropped (_, it) = (ok tt, it)

  unfoldable pub new : S → ℕ → ClusterIterator S
  new fat cluster = record { fat = fat; cluster = some cluster; failed = false }

  -- What `next` makes of the answer of `get_next_cluster`, with the cluster that it was on.
  unfoldable pub advance : ℕ → Result (Option ℕ) × S → ClusterIterator S
  advance n (ok next_cluster, s) = record { fat = s; cluster = next_cluster; failed = false }
  advance n (_, s) = record { fat = s; cluster = some n; failed = true }

  module _ (stream : Stream S) (fat_type : FatType) where
    -- `Iterator::next`. The second part is `self` behind the call.
    unfoldable pub next : ClusterIterator S → Option (Result ℕ) × ClusterIterator S
    unfolding advance answer get_next_cluster
    next it = elim it.failed [
      | true ↦ (none, it)
      | false ↦ elim it.cluster [
        | none ↦ (none, it)
        | some n ↦ let r = get_next_cluster stream fat_type n it.fat in (answer r.0, advance n r)
      ]
    ]

    -- `write_fat(self.fat.borrow_mut(), ..)`
    unfoldable pub write_through :
        ℕ → FatValue → ClusterIterator S → Result (Unit {0}) × ClusterIterator S
    unfolding write_fat
    write_through n value it =
        let (r, s) = write_fat stream fat_type n value it.fat in (r, record it { fat = s })

    -- `while let Some(n) = self.cluster { self.next(); .. }`
    unfoldable pub free_loop : ℕ → ℕ → M (ClusterIterator S) ℕ
    unfolding next dropped write_through
    free_loop zero num_free it = (stuck, it)
    free_loop (suc fuel) num_free it = elim it.cluster [
      | none ↦ (ok num_free, it)
      | some n ↦
          and_then (dropped (next it))
            (λ _ moved. and_then (write_through n free moved) (λ _. free_loop fuel (num_free + 1)))
    ]

    unfoldable pub free_chain : M (ClusterIterator S) ℕ
    unfolding free_loop
    free_chain = free_loop chain_fuel 0

    unfoldable pub truncate : M (ClusterIterator S) ℕ
    unfolding next dropped write_through
    truncate it = elim it.cluster [
      | none ↦ (ok 0, it)
      | some n ↦
          and_then (dropped (next it))
            (λ _ moved. and_then (write_through n end_of_chain moved) (λ _. free_chain))
    ]
