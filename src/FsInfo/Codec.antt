-- ===== src/FsInfo/Codec.antt =====
-- fs.rs: the FSInfo sector, written and read back.
use rust_fatfs.Base.{
  ℕ, zero, suc, ◌+◌, ◌^◌, ◌≤◌, ◌<◌, ◌≡◌, refl, arith, false, List, ◌++◌, Option, some, none, All,
  replicate,
}
use rust_fatfs.Base.Result.{ok, ◌>>◌}
use rust_fatfs.Io.{Stream, seek_start}
use rust_fatfs.Io.Contract.{IsBytes, IsByte}
use rust_fatfs.Io.Words.{bytes32}
use rust_fatfs.Io.Codec.{
  Reads, Writes, Reads-bind, Reads-pure, Reads-u32, Reads-read_exact, Writes-u32, Writes-write_all,
  Writes-then, Reads-eq, read-write,
}
use rust_fatfs.FsInfo.{
  FsInfoSector, deserialize, serialize, field_of, known_count, known_cluster, lead_sig, struc_sig,
  trail_sig,
}

-- A count and a cluster that the sector can hold: numbers of 32 bits that do not stand for an
-- unknown value, and no reserved cluster.
abbrev pub IsCount : Option ℕ → Type 0
IsCount none = Unit
IsCount (some n) = n < 0xFFFF_FFFF

abbrev pub IsCluster : Option ℕ → Type 0
IsCluster none = Unit
IsCluster (some n) = (2 ≤ n) × (n < 0xFFFF_FFFF)

known_count-field_of : (o : Option ℕ) → IsCount o → known_count (field_of o) ≡ o
unfolding known_count field_of
known_count-field_of none h = refl
known_count-field_of (some n) h = ground arith

known_cluster-field_of : (o : Option ℕ) → IsCluster o → known_cluster (field_of o) ≡ o
unfolding known_cluster field_of
known_cluster-field_of none h = refl
known_cluster-field_of (some n) h = ground arith

fields :
    (info : FsInfoSector)
    → IsCount info.free_cluster_count
    → IsCluster info.next_free_cluster
    → record {
      free_cluster_count = known_count (field_of info.free_cluster_count);
      next_free_cluster = known_cluster (field_of info.next_free_cluster);
      dirty = false;
    }
      ≡ record info { dirty = false }
fields info h k =
    rw
      (
        known_count-field_of info.free_cluster_count h,
        known_cluster-field_of info.next_free_cluster k,
      )
      refl

count-word : (o : Option ℕ) → IsCount o → field_of o < 2 ^ 32
unfolding field_of
count-word none h = omega arith
count-word (some n) h = omega arith

cluster-word : (o : Option ℕ) → IsCluster o → field_of o < 2 ^ 32
unfolding field_of
cluster-word none h = omega arith
cluster-word (some n) h = omega arith

zeros-IsByte : (n : ℕ) → All IsByte (replicate n 0)
zeros-IsByte zero = tt
zeros-IsByte (suc n) = (omega arith, zeros-IsByte n)

-- The 512 bytes of the sector.
abbrev pub sector : FsInfoSector → List ℕ
sector info =
    bytes32 lead_sig
    ++ (replicate 480 0
        ++ (bytes32 struc_sig
            ++ (bytes32 (field_of info.free_cluster_count)
                ++ (bytes32 (field_of info.next_free_cluster)
                    ++ (replicate 12 0 ++ bytes32 trail_sig)))))

module _ {S : Type 0} {stream : Stream S} (c : IsBytes stream) where
  pub Writes-serialize : (info : FsInfoSector) → Writes c (serialize stream info) (sector info)
  unfolding serialize
  Writes-serialize info = Writes-then c (Writes-u32 c _) (
      Writes-then c (Writes-write_all c _ (zeros-IsByte 480)) (
        Writes-then c (Writes-u32 c _) (
          Writes-then c (Writes-u32 c _) (
            Writes-then c (Writes-u32 c _)
              (Writes-then c (Writes-write_all c _ (zeros-IsByte 12)) (Writes-u32 c _))))))

  pub Reads-deserialize :
      (info : FsInfoSector)
      → IsCount info.free_cluster_count
      → IsCluster info.next_free_cluster
      → Reads c (deserialize stream) (sector info) (record info { dirty = false })
  unfolding deserialize
  Reads-deserialize info h k = Reads-bind c _ (Reads-u32 c lead_sig (omega arith)) (
      Reads-bind c _ (Reads-read_exact c (replicate 480 0)) (
        Reads-bind c _ (Reads-u32 c struc_sig (omega arith)) (
          Reads-bind c _ (Reads-u32 c _ (count-word _ h)) (
            Reads-bind c _ (Reads-u32 c _ (cluster-word _ k)) (
              Reads-bind c _ (Reads-read_exact c (replicate 12 0)) (
                Reads-bind c _ (Reads-u32 c trail_sig (omega arith))
                  (Reads-eq c (Reads-pure c _) (fields info h k))))))))

  -- On a stream of bytes with room for a sector at the position: an FSInfo sector whose count and
  -- cluster are unknown or storable is written there and read back with the same hints, and clean.
  pub deserialize-serialize :
      (s : S) (p : ℕ) (info : FsInfoSector)
      → IsCount info.free_cluster_count
      → IsCluster info.next_free_cluster
      → p + 512 ≤ c.size s
      → ((do seek_start stream p; serialize stream info; seek_start stream p; deserialize stream)
          s).0
        ≡ ok (record info { dirty = false })
  deserialize-serialize s p info h k room =
      read-write c s p (Reads-deserialize info h k) (Writes-serialize info) room
