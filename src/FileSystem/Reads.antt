-- ===== src/FileSystem/Reads.antt =====
-- fs.rs: reads of the table through `FsIoAdapter` are reads of the table on the storage.
use rust_fatfs.Base.{
  ℕ, zero, suc, ◌+◌, ◌-◌, ◌≡◌, bit_and, min, ◌*◌, ◌%◌, ◌^◌, refl, ap, ◌∙◌, Bool-cases, inl, inr,
  ltb, ◌==◌, List, [], ◌∷◌, ◌++◌, length,
}
use mathlib.Core.Path.{fun_ext}
use rust_fatfs.Base.Result.{Result, ok, err, panic, stuck, M, and_then, ◌>>=◌, pure, is_interrupted}
use rust_fatfs.FatType.{FatType, fat12, fat16, fat32}
use rust_fatfs.Io.{
  Stream, seek_start, read_exact, read_exact_loop, after_read, read_u16_le, read_u32_le,
  interruptions, from_le_bytes,
}
use rust_fatfs.Disk
use rust_fatfs.Disk.{DiskSlice, Window}
use rust_fatfs.Table.{read_fat, get_next_cluster, next_of}
use rust_fatfs.Table.Fat12
use rust_fatfs.Table.Fat16
use rust_fatfs.Table.Fat32
use rust_fatfs.Boot.Geometry.{fat_slice}
use rust_fatfs.FileSystem.{Mounted, FileSystem, adapter, fat_stream}

module _ {S : Type 0} where
  -- The window on the storage in a window on the file system, and back.
  abbrev pub inner_of : DiskSlice (FileSystem S) → DiskSlice S
  inner_of d = record { offset = d.offset; inner = d.inner.disk }

  abbrev pub with_inner : DiskSlice (FileSystem S) → DiskSlice S → DiskSlice (FileSystem S)
  with_inner d s = record { offset = s.offset; inner = record (d.inner) { disk = s.inner } }

  abbrev pub carried :
      {A : Type 0}
      → DiskSlice (FileSystem S)
      → Result A × DiskSlice S
      → Result A × DiskSlice (FileSystem S)
  carried d r = (r.0, with_inner d r.1)

  carried-bind :
      {A B : Type 0} (d : DiskSlice (FileSystem S)) (r : Result A × DiskSlice S)
      (f : A → M (DiskSlice S) B)
      → and_then (carried d r) (λ a d2. carried d2 (f a (inner_of d2))) ≡ carried d (and_then r f)
  carried-bind d (ok a, s) f = refl
  carried-bind d (err e, s) f = refl
  carried-bind d (panic, s) f = refl
  carried-bind d (stuck, s) f = refl

  bind-carried :
      {A B : Type 0} (d : DiskSlice (FileSystem S)) (r' : Result A × DiskSlice (FileSystem S))
      (r : Result A × DiskSlice S) (f' : A → M (DiskSlice (FileSystem S)) B)
      (f : A → M (DiskSlice S) B)
      → r' ≡ carried d r
      → ((a : A) (d2 : DiskSlice (FileSystem S)) → f' a d2 ≡ carried d2 (f a (inner_of d2)))
      → and_then r' f' ≡ carried d (and_then r f)
  bind-carried d r' r f' f e h =
      ap (λ x. and_then x f') e
      ∙ ap (λ g. and_then (carried d r) g) (fun_ext (λ a. fun_ext (λ d2. h a d2)))
      ∙ carried-bind d r f

  -- The one is the other, on the window within.
  abbrev pub Carries : {A : Type 0} → M (DiskSlice (FileSystem S)) A → M (DiskSlice S) A → Type 0
  Carries m' m = (d : DiskSlice (FileSystem S)) → m' d ≡ carried d (m (inner_of d))

  then-carried :
      {A B : Type 0} (m' : M (DiskSlice (FileSystem S)) A) (m : M (DiskSlice S) A)
      (f' : A → M (DiskSlice (FileSystem S)) B) (f : A → M (DiskSlice S) B)
      → Carries m' m
      → ((a : A) → Carries (f' a) (f a))
      → Carries (m' >>= f') (m >>= f)
  then-carried m' m f' f h k d = bind-carried d (m' d) (m (inner_of d)) f' f (h d) k

  map-carried :
      {A B : Type 0} (m' : M (DiskSlice (FileSystem S)) A) (m : M (DiskSlice S) A) (g : A → B)
      → Carries m' m
      → Carries (m' >>= λ a. pure (g a)) (m >>= λ a. pure (g a))
  map-carried m' m g h = then-carried m' m (λ a. pure (g a)) (λ a. pure (g a)) h (λ a d2. refl)

module _ {S : Type 0} (io : Stream S) (v : Mounted) where
  abbrev pub on_storage_stream : Stream (DiskSlice S)
  on_storage_stream = Disk.stream io (fat_slice v.bpb)

  read-carried : (n : ℕ) → Carries ((fat_stream io v).read n) (on_storage_stream.read n)
  unfolding fat_stream Disk.stream Disk.read Disk.on_inner Disk.skip adapter
  read-carried n d =
      let w = fat_slice v.bpb in
      let m = min n (w.size - d.offset) in
      then-carried (Disk.on_inner (seek_start (adapter io v) (w.begin + d.offset)))
        (Disk.on_inner (seek_start io (w.begin + d.offset)))
        (λ p. Disk.on_inner ((adapter io v).read m) >>= λ bytes d3.
          (ok bytes, Disk.skip (length bytes) d3))
        (λ p. Disk.on_inner (io.read m) >>= λ bytes d3. (ok bytes, Disk.skip (length bytes) d3))
        (λ d2. refl)
        (λ p.
          then-carried (Disk.on_inner ((adapter io v).read m)) (Disk.on_inner (io.read m))
            (λ bytes d3. (ok bytes, Disk.skip (length bytes) d3))
            (λ bytes d3. (ok bytes, Disk.skip (length bytes) d3)) (λ d2. refl) (λ bytes d2. refl))
        d

  seek-carried :
      (p : ℕ) (d : DiskSlice (FileSystem S))
      → seek_start (fat_stream io v) p d ≡ carried d (seek_start on_storage_stream p (inner_of d))
  unfolding fat_stream Disk.stream Disk.seek Disk.target
  seek-carried p d = elim (Bool-cases (ltb (fat_slice v.bpb).size p)) [
    | inl t ↦ rw t refl
    | inr f ↦ rw f refl
  ]

  after_read-carried :
      (again' : ℕ → List ℕ → M (DiskSlice (FileSystem S)) (List ℕ))
      (again : ℕ → List ℕ → M (DiskSlice S) (List ℕ)) (n : ℕ) (acc : List ℕ)
      (d : DiskSlice (FileSystem S)) (r : Result (List ℕ) × DiskSlice S)
      → ((m : ℕ) (bs : List ℕ) (d2 : DiskSlice (FileSystem S))
          → again' m bs d2 ≡ carried d2 (again m bs (inner_of d2)))
      → after_read (fat_stream io v) again' n acc (carried d r)
        ≡ carried d (after_read on_storage_stream again n acc r)
  unfolding after_read
  after_read-carried again' again n acc d (ok [], s) h = refl
  after_read-carried again' again n acc d (ok (b ∷ bs), s) h =
      h (n - length (b ∷ bs)) (acc ++ (b ∷ bs)) (with_inner d s)
  after_read-carried again' again n acc d (err e, s) h = elim (Bool-cases (is_interrupted e)) [
    | inl t ↦ rw t (h n acc (with_inner d s))
    | inr f ↦ rw f refl
  ]
  after_read-carried again' again n acc d (panic, s) h = refl
  after_read-carried again' again n acc d (stuck, s) h = refl

  loop-carried :
      (fuel n : ℕ) (acc : List ℕ) (d : DiskSlice (FileSystem S))
      → read_exact_loop (fat_stream io v) fuel n acc d
        ≡ carried d (read_exact_loop on_storage_stream fuel n acc (inner_of d))
  unfolding read_exact_loop
  loop-carried zero n acc d = refl
  loop-carried (suc fuel) n acc d = elim (Bool-cases (n == 0)) [
    | inl t ↦ rw (read_exact_loop, t) refl
    | inr f ↦
        rw (read_exact_loop, f)
          (ap (after_read (fat_stream io v) (read_exact_loop (fat_stream io v) fuel) n acc)
              (read-carried n d)
            ∙ after_read-carried (read_exact_loop (fat_stream io v) fuel)
                (read_exact_loop on_storage_stream fuel) n acc d
                (on_storage_stream.read n (inner_of d)) (loop-carried fuel))
  ]

  read_exact-carried :
      (n : ℕ) → Carries (read_exact (fat_stream io v) n) (read_exact on_storage_stream n)
  unfolding read_exact
  read_exact-carried n d = loop-carried (n + suc interruptions) n [] d

  u16-carried : Carries (read_u16_le (fat_stream io v)) (read_u16_le on_storage_stream)
  unfolding read_u16_le
  u16-carried =
      map-carried (read_exact (fat_stream io v) 2) (read_exact on_storage_stream 2) from_le_bytes
        (read_exact-carried 2)

  u32-carried : Carries (read_u32_le (fat_stream io v)) (read_u32_le on_storage_stream)
  unfolding read_u32_le
  u32-carried =
      map-carried (read_exact (fat_stream io v) 4) (read_exact on_storage_stream 4) from_le_bytes
        (read_exact-carried 4)

  -- A seek, and what is read behind it.
  sought-carried :
      {A : Type 0} (p : ℕ) (m' : M (DiskSlice (FileSystem S)) A) (m : M (DiskSlice S) A)
      → Carries m' m
      → Carries
          (seek_start (fat_stream io v) p >>= λ q. m')
          (seek_start on_storage_stream p >>= λ q. m)
  sought-carried p m' m h =
      then-carried (seek_start (fat_stream io v) p) (seek_start on_storage_stream p) (λ q. m')
        (λ q. m) (seek-carried p) (λ q. h)

  read_fat-carried :
      (t : FatType) (n : ℕ)
      → Carries (read_fat (fat_stream io v) t n) (read_fat on_storage_stream t n)
  unfolding read_fat Fat12.get Fat12.get_raw Fat16.get Fat16.get_raw Fat32.get Fat32.get_raw
  read_fat-carried fat12 n =
      map-carried (Fat12.get_raw (fat_stream io v) n) (Fat12.get_raw on_storage_stream n)
        Fat12.decode
        (sought-carried (Fat12.fat_offset n)
          (read_u16_le (fat_stream io v) >>= λ x. pure (Fat12.entry_of n x))
          (read_u16_le on_storage_stream >>= λ x. pure (Fat12.entry_of n x))
          (map-carried (read_u16_le (fat_stream io v)) (read_u16_le on_storage_stream)
            (Fat12.entry_of n) u16-carried))
  read_fat-carried fat16 n =
      map-carried (Fat16.get_raw (fat_stream io v) n) (Fat16.get_raw on_storage_stream n)
        Fat16.decode
        (sought-carried (n * 2 % 2 ^ 32) (read_u16_le (fat_stream io v))
          (read_u16_le on_storage_stream) u16-carried)
  read_fat-carried fat32 n =
      map-carried (Fat32.get_raw (fat_stream io v) n) (Fat32.get_raw on_storage_stream n)
        (λ x. Fat32.decode n (bit_and x 0x0FFF_FFFF))
        (sought-carried (n * 4 % 2 ^ 32) (read_u32_le (fat_stream io v))
          (read_u32_le on_storage_stream) u32-carried)

  pub get_next_cluster-carried :
      (t : FatType) (n : ℕ)
      → Carries (get_next_cluster (fat_stream io v) t n) (get_next_cluster on_storage_stream t n)
  unfolding get_next_cluster
  get_next_cluster-carried t n =
      map-carried (read_fat (fat_stream io v) t n) (read_fat on_storage_stream t n) next_of
        (read_fat-carried t n)
