-- ===== src/Chain/Total.antt =====
-- `free` ends on every table that names no cluster outside itself, chains in circles included.
use rust_fatfs.Base.{
  ℕ, zero, suc, ◌+◌, ◌≤◌, ◌<◌, ◌≡◌, inl, inr, refl, sym, arith, false, ◌==◌, ltb, if◌then◌else◌,
  Option-cases, some, none,
}
use rust_fatfs.Base.Result.{ok}
use rust_fatfs.FatType.{FatType}
use rust_fatfs.Io.{Stream}
use rust_fatfs.Table.{next_of}
use rust_fatfs.Table.Value.{FatValue, free, is_free}
use rust_fatfs.Table.Interface.{IsTable}
use mathlib.Core.Path.{subst}
use rust_fatfs.Chain.{ClusterIterator, free_loop, free_chain, new, chain_fuel}
use rust_fatfs.Chain.Free.{at, cleared, free_step, free_done, limit-cleared, value-cleared}

-- The entries below `l` that are not free: each round of `free` but the last clears one.
taken : (ℕ → FatValue) → ℕ → ℕ
taken e zero = 0
taken e (suc l) = (if is_free (e l) then 0 else 1) + taken e l

taken_le : (e : ℕ → FatValue) (l : ℕ) → taken e l ≤ l
unfolding taken
taken_le e zero = omega arith
taken_le e (suc l) = ground (arith, taken_le e l)

taken-cleared :
    (e f : ℕ → FatValue) (n l : ℕ)
    → ((x : ℕ) → x < l → f x ≡ (if n == x then free else e x))
    → taken e l ≡ taken f l + (if ltb n l then (if is_free (e n) then 0 else 1) else 0)
unfolding taken
taken-cleared e f n zero h = ground arith
taken-cleared e f n (suc l) h =
    let ih = taken-cleared e f n l (λ x k. h x (omega arith)) in
    let here = h l (omega arith) in ground arith

next_of-is_free : (v : FatValue) (m : ℕ) → next_of v ≡ some m → is_free v ≡ false
unfolding next_of
next_of-is_free v m h = ground arith

-- No entry below `l` names a cluster from `l` on.
abbrev pub IsClosed : (ℕ → FatValue) → ℕ → Type 0
IsClosed e l = (n m : ℕ) → n < l → next_of (e n) ≡ some m → m < l

IsClosed-cleared :
    (e f : ℕ → FatValue) (n l : ℕ)
    → ((x : ℕ) → x < l → f x ≡ (if n == x then free else e x))
    → IsClosed e l
    → IsClosed f l
unfolding next_of
IsClosed-cleared e f n l h c k m lt q = ground (arith, h k lt, c k m lt)

module _ {S : Type 0} {t : FatType} {fat : Stream S} (c : IsTable t fat) where
  open c use {limit, value}

  free_loop_total :
      (fuel n k : ℕ) (s : S)
      → n < limit s
      → IsClosed (value s) (limit s)
      → taken (value s) (limit s) + 1 < fuel
      → (r : ℕ) × (x : ClusterIterator S) × (free_loop fat t fuel k (at c s (some n)) ≡ (ok r, x))
        × (x.cluster ≡ none)
  free_loop_total zero n k s h q l = absurd (omega arith)
  free_loop_total (suc zero) n k s h q l = absurd (omega arith)
  free_loop_total (suc (suc fuel)) n k s h q l =
      let s' = cleared c s n in
      elim (Option-cases (next_of (value s n))) [
        | inr e ↦ (
          k + 1,
          at c s' none,
          rw (free_step c (suc fuel) k s n h, e) (free_done c fuel (k + 1) s'),
          refl,
        )
        | inl (m, e) ↦
            let v : (x : ℕ) → x < limit s → value s' x ≡ (if n == x then free else value s x) =
              λ x lt. value-cleared c s n x h lt in
            let closed =
              subst (IsClosed (value s')) (sym (limit-cleared c s n))
                (IsClosed-cleared (value s) (value s') n (limit s) v q) in
            let bound : taken (value s') (limit s') + 1 < suc fuel = rw limit-cleared (
              ground (
                arith,
                taken-cleared (value s) (value s') n (limit s) v,
                next_of-is_free (value s n) m e,
              )) in
            let (r, x, p, z) =
              free_loop_total (suc fuel) m (k + 1) s' (rw limit-cleared (q n m h e)) closed bound in
            (r, x, rw (free_step c (suc fuel) k s n h, e) p, z)
      ]

  -- On a table that names no cluster outside itself, `free` from a cluster of the table returns
  -- a count and leaves the iterator at its end, whether or not the chain runs in a circle.
  pub free_chain_total :
      (n : ℕ) (s : S)
      → n < limit s
      → IsClosed (value s) (limit s)
      → (r : ℕ) × (x : ClusterIterator S) × (free_chain fat t (new s n) ≡ (ok r, x))
        × (x.cluster ≡ none)
  unfolding free_chain new
  free_chain_total n s h q =
      free_loop_total chain_fuel n 0 s h q
        (omega (arith, taken_le (value s) (limit s), c.limit_le s))
