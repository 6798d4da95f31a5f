-- ===== src/Chain/Loops.antt =====
-- Where the loop of `free` does not end.
use rust_fatfs.Base.{ℕ, zero, suc, ◌+◌, ◌≡◌, refl, arith, true, some}
use rust_fatfs.Base.Result.{Error, ok, err, stuck}
use rust_fatfs.FatType.{FatType}
use rust_fatfs.Io.{Stream}
use rust_fatfs.Table.{get_next_cluster, write_fat}
use rust_fatfs.Table.Value.{free}
use rust_fatfs.Chain.{free_loop, next, write_through, new}

module _ {S : Type 0} (stream : Stream S) (t : FatType) where
  -- Once `next` has recorded an error the cluster stays, and it is freed in every round.
  failed_loop :
      (fuel k n : ℕ) (s : S)
      → ((z : S) → (write_fat stream t n free z).0 ≡ ok tt)
      → (free_loop stream t fuel k (record { fat = s; cluster = some n; failed = true })).0 ≡ stuck
  unfolding free_loop next write_through
  failed_loop zero k n s w = refl
  failed_loop (suc fuel) k n s w =
      ground (arith, w s, failed_loop fuel (k + 1) n (write_fat stream t n free s).1 w)

  -- If reading the entry of the first cluster answers an error, but freeing it succeeds in every
  -- state, the loop of `free` runs out of any amount of fuel: the source loops for ever.
  pub free_loop-stuck :
      (fuel k n : ℕ) (s : S) (e : Error)
      → (get_next_cluster stream t n s).0 ≡ err e
      → ((z : S) → (write_fat stream t n free z).0 ≡ ok tt)
      → (free_loop stream t fuel k (new s n)).0 ≡ stuck
  unfolding free_loop next write_through new
  free_loop-stuck zero k n s e r w = refl
  free_loop-stuck (suc fuel) k n s e r w =
      let s' = (get_next_cluster stream t n s).1 in
      ground (arith, w s', failed_loop fuel (k + 1) n (write_fat stream t n free s').1 w)
