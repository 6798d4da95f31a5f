-- ===== src/FileSystem/Contents.antt =====
-- fs.rs, file.rs: the files of a mounted volume whose storage nothing else changes.
use rust_fatfs.Base.{
  zero, suc, ◌/◌, ◌%◌, ap, sym, none, ℕ, ◌+◌, ◌-◌, ◌*◌, ◌^◌, ◌≤◌, ◌<◌, ◌≡◌, refl, ◌∙◌, arith,
  Option, some,
}
use mathlib.Core.Path.{subst}
use rust_fatfs.Base.Result.{ok, M}
use rust_fatfs.Io.{Stream, seek_start, read_exact}
use rust_fatfs.Io.Contract.{IsBytes, slice}
use rust_fatfs.Disk.Chunks.{IsChunked}
use rust_fatfs.Disk.Read.{Fits}
use rust_fatfs.Table.Spec.{entry, capacity}
use rust_fatfs.Boot.{BiosParameterBlock, total_sectors, total_clusters, cluster_size}
use rust_fatfs.Boot.Geometry.{fat_slice, offset_from_cluster}
use rust_fatfs.Boot.Regions.{cluster_regions}
use rust_fatfs.Boot.Sound.{front}
use rust_fatfs.Boot.Valid.{IsValid}
use rust_fatfs.File.{Opened}
use rust_fatfs.File.Frozen.{Frozen, slice_eq}
use rust_fatfs.File.Content.{content, cluster_at, cluster_at-Data, Tracks, Covers}
use rust_fatfs.File.Refinement.{file_stream, read_exact-content}
use rust_fatfs.FileSystem.{Mounted, FileSystem}
use rust_fatfs.FileSystem.Opening.{FsOptions, volume, cluster_size_pos}
use rust_fatfs.FileSystem.Walk.{window, successor, next_cluster-entry}

-- The next cluster, read off the bytes of a storage.
abbrev pub link : Mounted → (ℕ → ℕ) → ℕ → Option ℕ
link v bytes n = successor (entry v.fat_type (window (fat_slice v.bpb) bytes) n)

-- Where a cluster lies on the storage.
abbrev pub place : BiosParameterBlock → ℕ → ℕ
place bpb n = front bpb * bpb.bytes_per_sector + (n - 2) * cluster_size bpb

-- The clusters of a chain, in order.
unfoldable pub chain_at : Mounted → (ℕ → ℕ) → ℕ → ℕ → Option ℕ
chain_at v bytes first zero = some first
chain_at v bytes first (suc k) = elim (chain_at v bytes first k) [
  | none ↦ none
  | some n ↦ link v bytes n
]

abbrev byte_of : Mounted → (ℕ → ℕ) → Option ℕ → ℕ → ℕ
byte_of v bytes none x = 0
byte_of v bytes (some n) x = bytes (place v.bpb n + x)

-- The bytes of a file, read off the bytes of the storage.
unfoldable pub file_byte : Mounted → (ℕ → ℕ) → ℕ → ℕ → ℕ
file_byte v bytes first i =
    byte_of v bytes (chain_at v bytes first (i / cluster_size v.bpb)) (i % cluster_size v.bpb)

abbrev pub IsCluster : Mounted → ℕ → Type 0
IsCluster v n = (2 ≤ n) × (n < total_clusters v.bpb + 2)

-- A volume on a storage of these bytes: its block is valid and does not wrap around, the storage
-- holds its sectors and tables, the table has an entry for each cluster, and no entry of a cluster
-- leads out of the volume.
pub record IsIntact {S : Type 0} {io : Stream S} (c : IsBytes io) (v : Mounted) (bytes : ℕ → ℕ)
    : Type 0 where
  pub valid : IsValid v.bpb
  pub cluster_byte : v.bpb.sectors_per_cluster < 256
  pub total_lt : total_sectors v.bpb < 2 ^ 32
  pub front_lt : front v.bpb < 2 ^ 32
  pub tables_in : Fits c (fat_slice v.bpb)
  pub sectors_in : (s : S) → total_sectors v.bpb * v.bpb.bytes_per_sector ≤ c.size s
  pub some_table : 0 < (fat_slice v.bpb).mirrors
  pub entries_in : total_clusters v.bpb + 2 ≤ capacity v.fat_type (fat_slice v.bpb).size
  pub links_in : (n m : ℕ) → IsCluster v n → link v bytes n ≡ some m → IsCluster v m

module _ {S : Type 0} {io : Stream S} (c : IsBytes io) (k : IsChunked c) (flush : M S (Unit {0}))
    (options : FsOptions S) (v : Mounted) (bytes : ℕ → ℕ) (intact : IsIntact c v bytes) where
  abbrev pub Holds : FileSystem S → Type 0
  Holds fs = c.byte fs.disk ≡ bytes

  cluster_in :
      (n : ℕ)
      → IsCluster v n
      → (s : S) → offset_from_cluster v.bpb n + cluster_size v.bpb ≤ c.size s
  cluster_in n h s =
      let same : n - 2 + 2 ≡ n = omega arith in
      let region =
        cluster_regions v.bpb intact.valid intact.total_lt (n - 2) (omega arith) intact.front_lt in
      let ends =
        subst
          (λ m.
            offset_from_cluster v.bpb m + cluster_size v.bpb
            ≤ total_sectors v.bpb * v.bpb.bytes_per_sector)
          same region.1 in
      let room = intact.sectors_in s in omega arith

  pub walk :
      (fs : FileSystem S) (n : ℕ)
      → Holds fs
      → IsCluster v n
      → (fs' : FileSystem S) × ((volume io flush options v).next_cluster n fs
          ≡ (ok (link v bytes n), fs'))
        × Holds fs'
  unfolding volume
  walk fs n h q =
      let (fs', e, kept) =
        next_cluster-entry c k v intact.tables_in intact.some_table n fs
          (let a = intact.entries_in in omega arith) in
      (fs', e ∙ rw h refl, kept ∙ h)

  pub fetch :
      (fs : FileSystem S) (n x len : ℕ)
      → Holds fs
      → IsCluster v n
      → 0 < len
      → x + len ≤ (volume io flush options v).cluster_size
      → let w = volume io flush options v in
        (q : ℕ) × ((s1 : FileSystem S) × (seek_start w.disk (w.offset_from_cluster n + x) fs
            ≡ (ok q, s1))
          × ((got : ℕ) × ((s2 : FileSystem S) × (w.disk.read len s1
                  ≡ (ok (slice bytes (w.offset_from_cluster n + x) got), s2))
                × (0 < got)
                × (got ≤ len)
                × Holds s2)))
  unfolding volume
  fetch fs n x len h q some_asked inside =
      let p = offset_from_cluster v.bpb n + x in
      let t = c.sought fs.disk p in
      let room = cluster_in n q fs.disk in
      let at = c.pos-sought fs.disk p in
      let size = c.size-sought fs.disk p in
      let got = k.chunk t len in
      (
        p,
        (
          record fs { disk = t },
          rw (c.seek_in fs.disk p (omega arith)) refl,
          (
            got,
            (
              record fs { disk = c.fetched t got },
              rw (k.read_chunk t len (omega arith), at, c.byte-sought, h) refl,
              k.chunk_pos t len some_asked (omega arith),
              k.chunk_le t len,
              c.byte-fetched t got ∙ c.byte-sought fs.disk p ∙ h,
            ),
          ),
        ),
      )

  -- Such a volume answers from its table and its bytes.
  unfoldable pub frozen : Frozen (volume io flush options v)
  frozen = record {
    Good = Holds;
    Data = IsCluster v;
    link = link v bytes;
    byte = bytes;
    walk = walk;
    linked = intact.links_in;
    fetch = fetch;
  }

  pub cluster_pos : 0 < (volume io flush options v).cluster_size
  unfolding volume
  cluster_pos = cluster_size_pos v.bpb intact.valid intact.cluster_byte

  place_lem : (n : ℕ) → IsCluster v n → offset_from_cluster v.bpb n ≡ place v.bpb n
  place_lem n h =
      let same : n - 2 + 2 ≡ n = omega arith in
      let region =
        cluster_regions v.bpb intact.valid intact.total_lt (n - 2) (omega arith) intact.front_lt in
      subst (λ m. offset_from_cluster v.bpb m ≡ place v.bpb n) same region.0

  module _ (first : ℕ) where
    cluster_at-chain_at :
        (q : ℕ)
        → cluster_at (volume io flush options v) cluster_pos frozen first q
          ≡ chain_at v bytes first q
    unfolding cluster_at chain_at frozen
    cluster_at-chain_at zero = refl
    cluster_at-chain_at (suc q) = rw (cluster_at-chain_at q) refl

    content-file_byte :
        (size i : ℕ)
        → IsCluster v first
        → Covers (volume io flush options v) cluster_pos frozen first size
        → i < size
        → content (volume io flush options v) cluster_pos frozen first i ≡ file_byte v bytes first i
    unfolding content file_byte frozen volume
    content-file_byte size i d covers less =
        let (n, e) = covers i less in
        let e' : chain_at v bytes first (i / cluster_size v.bpb) ≡ some n =
          sym (cluster_at-chain_at (i / cluster_size v.bpb)) ∙ e in
        let inside =
          cluster_at-Data (volume io flush options v) cluster_pos frozen first d
            (i / cluster_size v.bpb) n e in
        rw (e, e') (ap (λ p. bytes (p + i % cluster_size v.bpb)) (place_lem n inside))

  -- A refinement. On a storage of bytes that may read short, for a volume that is intact: its block
  -- is valid and its sums of sectors are less than 2 ^ 32, the storage holds its sectors and tables,
  -- the table has an entry for each cluster, and none of these leads out of the volume. A file whose
  -- chain in the table covers its size is the array of the bytes that the storage has in the clusters
  -- of the chain: `read_exact` of `n` bytes that end within the size returns the `n` bytes from the
  -- offset on, across clusters, leaves the offset behind them, and the bytes of the storage as they
  -- are.
  pub mounted_read_exact-content :
      (first size n : ℕ) (o : Opened (FileSystem S))
      → IsCluster v first
      → Covers (volume io flush options v) cluster_pos frozen first size
      → Tracks (volume io flush options v) cluster_pos frozen first size o
      → o.file.offset + n ≤ size
      → (o' : Opened (FileSystem S)) × (read_exact (file_stream (volume io flush options v)) n o
          ≡ (ok (slice (file_byte v bytes first) o.file.offset n), o'))
        × (o'.file.offset ≡ o.file.offset + n)
        × Tracks (volume io flush options v) cluster_pos frozen first size o'
        × Holds o'.fs
  unfolding frozen
  mounted_read_exact-content first size n o d covers t room =
      let (o', e, at, t') =
        read_exact-content (volume io flush options v) cluster_pos frozen first size n o d covers t
          room in
      let read : slice (content (volume io flush options v) cluster_pos frozen first) o.file.offset
            n
          ≡ slice (file_byte v bytes first) o.file.offset n =
        slice_eq _ _ o.file.offset o.file.offset n
          (λ x l. content-file_byte first size (o.file.offset + x) d covers (omega arith)) in
      (o', rw read at e, at, t', t'.good)
