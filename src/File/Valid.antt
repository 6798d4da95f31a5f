-- ===== src/File/Valid.antt =====
-- What holds of an open file between two calls, and what the calls of the file system keep to.
use rust_fatfs.Base.{
  ℕ, ◌+◌, ◌-◌, ◌*◌, ◌/◌, ◌^◌, ◌≤◌, ◌<◌, ◌≡◌, refl, arith, List, length, Option, some, none,
}
use rust_fatfs.Base.Result.{Result, ok, err, panic, stuck, M, and_then}
use rust_fatfs.Disk.{lift_result}
use rust_fatfs.File.{Volume, File, size_of}

-- The current cluster is none exactly at the start of the file.
abbrev pub Placed : Option ℕ → ℕ → Type 0
Placed none n = n ≡ 0
Placed (some c) n = 0 < n

-- A file whose size is known, which a directory's is not.
pub record IsValid (file : File) : Type 0 where
  pub size : ℕ
  pub known : size_of file.entry ≡ some size
  pub within : file.offset ≤ size
  pub size_lt : size < 2 ^ 32
  pub placed : Placed file.current_cluster file.offset

-- A transfer of at most as many bytes as were asked for.
abbrev pub IsShort : ℕ → Result (List ℕ) → Type 0
IsShort n (ok bytes) = length bytes ≤ n
IsShort n _ = Unit

abbrev pub AtMost : ℕ → Result ℕ → Type 0
AtMost n (ok m) = m ≤ n
AtMost n _ = Unit

pub record IsVolume {S : Type 0} (v : Volume S) : Type 0 where
  pub cluster_size_pos : 0 < v.cluster_size
  pub clusters_from_bytes-eq :
      (n : ℕ) → n < 2 ^ 32 → v.clusters_from_bytes n ≡ (n + v.cluster_size - 1) / v.cluster_size
  pub bytes_from_clusters-eq :
      (n : ℕ) → n * v.cluster_size < 2 ^ 32 → v.bytes_from_clusters n ≡ n * v.cluster_size
  pub read_short : (n : ℕ) (s : S) → IsShort n (v.disk.read n s).0
  pub write_short : (bytes : List ℕ) (s : S) → AtMost (length bytes) (v.disk.write bytes s).0

-- What is kept by the parts of a sequence is kept by the sequence.
pub and_then-keeps :
    {A B S : Type 0} (P : S → Type 0) (r : Result A × S) (f : A → M S B)
    → P r.1
    → ((a : A) → r.0 ≡ ok a → P (f a r.1).1)
    → P (and_then r f).1
and_then-keeps P (ok a, s) f here next = next a refl
and_then-keeps P (err e, s) f here next = here
and_then-keeps P (panic, s) f here next = here
and_then-keeps P (stuck, s) f here next = here

pub lifted-IsShort :
    (n : ℕ) (r : Result (List ℕ)) (bytes : List ℕ)
    → IsShort n r
    → lift_result r ≡ ok bytes
    → length bytes ≤ n
unfolding lift_result
lifted-IsShort n (ok bs) bytes h e = ground (arith, h, e)
lifted-IsShort n (err e') bytes h e = absurd (cc)
lifted-IsShort n panic bytes h e = absurd (cc)
lifted-IsShort n stuck bytes h e = absurd (cc)

pub lifted-AtMost : (n : ℕ) (r : Result ℕ) (m : ℕ) → AtMost n r → lift_result r ≡ ok m → m ≤ n
unfolding lift_result
lifted-AtMost n (ok k) m h e = ground (arith, h, e)
lifted-AtMost n (err e') m h e = absurd (cc)
lifted-AtMost n panic m h e = absurd (cc)
lifted-AtMost n stuck m h e = absurd (cc)
