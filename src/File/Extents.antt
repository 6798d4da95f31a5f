-- ===== src/File/Extents.antt =====
-- file.rs: `extents`, the places of a file's data, with the fuel of the walk along its chain.
use rust_fatfs.Base.{
  ℕ, zero, suc, ◌+◌, ◌-◌, ◌*◌, ◌≤◌, ◌<◌, ◌≡◌, refl, ap, arith, List, [], ◌∷◌, Option, some, none,
  length, map, min,
}
use rust_fatfs.Base.Result.{Result, ok, err, panic, stuck}
use rust_fatfs.File.{Volume, File, size_of}

pub record Extent : Type 0 where
  pub offset : ℕ
  pub size : ℕ

module _ {S : Type 0} (v : Volume S) where
  -- The closure of `map`, with the bytes that are left.
  unfoldable pub extent_of : ℕ → ℕ → Extent
  extent_of bytes_left cluster = record {
    offset = v.offset_from_cluster cluster;
    size = min v.cluster_size bytes_left;
  }

  -- The items of the iterator up to its end. An error is its last item.
  unfoldable pub extents_next :
      (ℕ → S → List (Result Extent)) → Result (Option ℕ) × S → List (Result Extent)
  extents_next again (ok (some n), s) = again n s
  extents_next again (ok none, s) = []
  extents_next again (err e, s) = err e ∷ []
  extents_next again (panic, s) = panic ∷ []
  extents_next again (stuck, s) = stuck ∷ []

  unfoldable pub extents_from : ℕ → ℕ → ℕ → S → List (Result Extent)
  unfolding extent_of extents_next
  extents_from zero bytes_left cluster s = stuck ∷ []
  extents_from (suc fuel) bytes_left cluster s =
      let extent = extent_of bytes_left cluster in
      ok extent
      ∷ extents_next (extents_from fuel (bytes_left - extent.size)) (v.next_cluster cluster s)

  unfoldable pub extents_of : ℕ → Option ℕ → Option ℕ → S → List (Result Extent)
  unfolding extents_from
  extents_of fuel (some bytes_left) (some first) s = extents_from fuel bytes_left first s
  extents_of fuel (some bytes_left) none s = []
  extents_of fuel none first_cluster s = []

  unfoldable pub extents : ℕ → File → S → List (Result Extent)
  unfolding extents_of size_of
  extents fuel file s = extents_of fuel (size_of file.entry) file.first_cluster s

-- A chain of clusters, as the file system answers it.
pub data Chained {S : Type 0} (v : Volume S) : S → ℕ → List ℕ → Type 0 where
  last : {s s' : S} {c : ℕ} → v.next_cluster c s ≡ (ok none, s') → Chained v s c []
  link :
      {s s' : S} {c d : ℕ} {rest : List ℕ}
      → v.next_cluster c s ≡ (ok (some d), s')
      → Chained v s' d rest
      → Chained v s c (d ∷ rest)

module _ {S : Type 0} (v : Volume S) where
  unfoldable pub places : ℕ → ℕ → List ℕ → List Extent
  places bytes_left c [] =
      record { offset = v.offset_from_cluster c; size = min v.cluster_size bytes_left } ∷ []
  places bytes_left c (d ∷ rest) =
      record { offset = v.offset_from_cluster c; size = min v.cluster_size bytes_left }
      ∷ places (bytes_left - v.cluster_size) d rest

  unfoldable pub total : List Extent → ℕ
  total [] = 0
  total (e ∷ es) = e.size + total es

  extents_from_lem :
      (fuel bytes_left c : ℕ) {s : S} {rest : List ℕ}
      → length rest < fuel
      → Chained v s c rest
      → extents_from v fuel bytes_left c s ≡ map ok (places bytes_left c rest)
  unfolding extents_from extents_next extent_of places
  extents_from_lem zero bytes_left c h chain = absurd (omega arith)
  extents_from_lem (suc fuel) bytes_left c h (last e) = rw e refl
  extents_from_lem (suc fuel) bytes_left c h (link {d} e chain) =
      let taken : bytes_left - min v.cluster_size bytes_left ≡ bytes_left - v.cluster_size =
        omega arith in
      rw (e, taken)
        (ap (λ t. ok (extent_of v bytes_left c) ∷ t)
          (extents_from_lem fuel (bytes_left - v.cluster_size) d (omega arith) chain))

  total-places :
      (bytes_left c : ℕ) (rest : List ℕ)
      → total (places bytes_left c rest) ≡ min bytes_left (v.cluster_size * suc (length rest))
  unfolding places total
  total-places bytes_left c [] = omega arith
  total-places bytes_left c (d ∷ rest) =
      omega (arith, total-places (bytes_left - v.cluster_size) d rest)

  -- For a file of `size` bytes with a chain of clusters `first ∷ rest`, with a round of fuel for each
  -- cluster: the extents are the places of the clusters in the order of the chain, without an error,
  -- and if the chain is long enough for the size, they add up to the size of the file.
  pub extents-places :
      (fuel size first : ℕ) (file : File) (s : S) (rest : List ℕ)
      → size_of file.entry ≡ some size
      → file.first_cluster ≡ some first
      → Chained v s first rest
      → length rest < fuel
      → size ≤ v.cluster_size * suc (length rest)
      → (extents v fuel file s ≡ map ok (places size first rest))
        × (total (places size first rest) ≡ size)
  unfolding extents extents_of
  extents-places fuel size first file s rest known head chain more long = (
    rw (known, head) (extents_from_lem fuel size first more chain),
    omega (arith, total-places size first rest),
  )
