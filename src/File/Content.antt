-- ===== src/File/Content.antt =====
-- A file on a file system that nothing else changes, as an array of bytes.
use rust_fatfs.Base.{
  ℕ, zero, suc, ◌+◌, ◌/◌, ◌%◌, ◌^◌, ◌≤◌, ◌<◌, ◌≡◌, refl, sym, ap, ◌∙◌, arith, List, Option, some,
  none, false, ◌==◌, ==→eq, Bool-cases, Option-cases, inl, inr,
}
use mathlib.Core.Path.{subst}
use native.Mathlib.Nat.{zero-div}
use rust_fatfs.Base.Result.{Result, ok, M, and_then}
use rust_fatfs.Io.{seek_start}
use rust_fatfs.Io.Contract.{slice}
use rust_fatfs.Disk.{lift_result}
use rust_fatfs.Disk.Chunks.{length-slice}
use rust_fatfs.File.{Volume, File, Opened, on_disk, size_of, left_of, bytes_left_in_file}
use rust_fatfs.File.Transfer.{
  cluster_after, cluster_to_read, read_size, move_to, update_accessed, finish_read, read_from,
  read_at, read,
}
use rust_fatfs.File.Entry.{size-edit_accessed}
use rust_fatfs.File.Reading.{edit_entry_known}
use rust_fatfs.File.Frozen.{Frozen, div_inside, mod_inside, div_next, div_same, slice_eq}

module _ {S : Type 0} (v : Volume S) (pos : 0 < v.cluster_size) (f : Frozen v) (first : ℕ) where
  -- The chain from the first cluster on.
  unfoldable pub cluster_at : ℕ → Option ℕ
  cluster_at zero = some first
  cluster_at (suc k) = elim (cluster_at k) [ none ↦ none | some c ↦ f.link c ]

  abbrev byte_in : Option ℕ → ℕ → ℕ
  byte_in none x = 0
  byte_in (some c) x = f.byte (v.offset_from_cluster c + x)

  -- The bytes of the file, one after the other along its chain.
  unfoldable pub content : ℕ → ℕ
  content i = byte_in (cluster_at (i / v.cluster_size)) (i % v.cluster_size)

  -- The current cluster at an offset: the one that has the byte before it.
  abbrev pub before : ℕ → Option ℕ
  before zero = none
  before (suc n) = cluster_at (n / v.cluster_size)

  pub record Tracks (size : ℕ) (o : Opened S) : Type 0 where
    pub known : size_of o.file.entry ≡ some size
    pub within : o.file.offset ≤ size
    pub size_lt : size < 2 ^ 32
    pub head : o.file.first_cluster ≡ some first
    pub current : o.file.current_cluster ≡ before o.file.offset
    pub good : f.Good o.fs

  -- The chain is long enough for the size.
  abbrev pub Covers : ℕ → Type 0
  Covers size = (i : ℕ) → i < size → (c : ℕ) × (cluster_at (i / v.cluster_size) ≡ some c)

  pub cluster_at-Data : f.Data first → (k c : ℕ) → cluster_at k ≡ some c → f.Data c
  unfolding cluster_at
  cluster_at-Data d zero c h = let e : first ≡ c = cc in subst f.Data e d
  cluster_at-Data d (suc k) c h = elim (Option-cases (cluster_at k)) [
    | inl (p, e) ↦ f.linked p c (cluster_at-Data d k p e) (rw e at h)
    | inr e ↦ absurd (let h' : none ≡ some c = rw e at h in cc)
  ]

  -- Bytes that lie in one cluster.
  slice-content :
      (c i k : ℕ)
      → cluster_at (i / v.cluster_size) ≡ some c
      → i % v.cluster_size + k ≤ v.cluster_size
      → slice f.byte (v.offset_from_cluster c + i % v.cluster_size) k ≡ slice content i k
  unfolding content
  slice-content c i k h l =
      slice_eq f.byte content (v.offset_from_cluster c + i % v.cluster_size) i k (λ x less.
        rw
          (
            div_inside i v.cluster_size x pos (omega arith),
            mod_inside i v.cluster_size x pos (omega arith),
            h,
          )
          (ap f.byte (omega arith)))

  before_inside : (n : ℕ) → 0 < n % v.cluster_size → before n ≡ cluster_at (n / v.cluster_size)
  before_inside zero h = absurd (grind arith)
  before_inside (suc m) h = ap cluster_at (sym (div_same m v.cluster_size pos h))

  after_boundary :
      (n c : ℕ) (current : Option ℕ) (o : Opened S)
      → f.Data first
      → current ≡ before n
      → o.file.first_cluster ≡ some first
      → f.Good o.fs
      → n % v.cluster_size ≡ 0
      → cluster_at (n / v.cluster_size) ≡ some c
      → (s' : S) × (cluster_after v current o ≡ (ok (some c), record o { fs = s' })) × f.Good s'
  unfolding cluster_after cluster_at
  after_boundary zero c current o d same head good h here =
      let zeroth : some first ≡ some c = rw (zero-div v.cluster_size) at here in
      (o.fs, rw (same, head, zeroth) refl, good)
  after_boundary (suc m) c current o d same head good h here =
      let here' : cluster_at (suc (m / v.cluster_size)) ≡ some c =
        rw (div_next m v.cluster_size pos h) at here in
      elim (Option-cases (cluster_at (m / v.cluster_size))) [
        | inl (p, e) ↦
            let w = f.walk o.fs p good (cluster_at-Data d (m / v.cluster_size) p e) in
            let link : f.link p ≡ some c = rw (cluster_at, e) at here' in
            (
              w.0,
              rw (same ∙ e) (
                  ap (λ r. let o' : Opened S = record o { fs = r.1 } in (r.0, o')) w.1
                  ∙ rw link refl),
              w.2,
            )
        | inr e ↦ absurd (let h' : none ≡ some c = rw (cluster_at, e) at here' in cc)
      ]

  -- The cluster of the next byte is found, and nothing but the file system's state changes.
  found :
      (size : ℕ) (o : Opened S) (t : Tracks size o)
      → f.Data first
      → o.file.offset < size
      → Covers size
      → (c : ℕ) × (cluster_at (o.file.offset / v.cluster_size) ≡ some c)
        × ((s' : S) × (cluster_to_read v o ≡ (ok (some c), record o { fs = s' })) × f.Good s')
  unfolding cluster_to_read
  found size o t d less covers =
      let (c, here) = covers o.file.offset less in
      elim (Bool-cases (o.file.offset % v.cluster_size == 0)) [
        | inl boundary ↦ (
          c,
          here,
          rw boundary (
              after_boundary o.file.offset c o.file.current_cluster o d t.current t.head t.good
                (==→eq _ 0 boundary) here),
        )
        | inr inside ↦ (
          c,
          here,
          (
            o.fs,
            rw inside (
                let same : o.file.current_cluster ≡ some c =
                  t.current ∙ before_inside o.file.offset (ground arith) ∙ here in
                rw same refl),
            t.good,
          ),
        )
      ]

  update_accessed_offset : (o : Opened S) → (update_accessed v o).file.offset ≡ o.file.offset
  unfolding update_accessed
  update_accessed_offset o = ground arith

  update_accessed-Tracks :
      (size : ℕ) (o : Opened S) → Tracks size o → Tracks size (update_accessed v o)
  unfolding update_accessed
  update_accessed-Tracks size o t = elim (Bool-cases v.update_accessed_date) [
    | inl on ↦ rw on (record {
      known = edit_entry_known _ o.file.entry size (size-edit_accessed (v.today o.fs)) t.known;
      within = t.within;
      size_lt = t.size_lt;
      head = t.head;
      current = t.current;
      good = t.good;
    })
    | inr off ↦ rw off t
  ]

  move_to-Tracks :
      (size c j : ℕ) (o : Opened S) (s' : S)
      → Tracks size o
      → f.Good s'
      → cluster_at (o.file.offset / v.cluster_size) ≡ some c
      → o.file.offset + suc j ≤ size
      → o.file.offset % v.cluster_size + suc j ≤ v.cluster_size
      → Tracks size (record { file = move_to v c (suc j) o.file; fs = s' })
  unfolding move_to
  move_to-Tracks size c j o s' t good here room inside =
      let offset = o.file.offset in
      let small = t.size_lt in
      let same : (offset + suc j) % 2 ^ 32 ≡ suc (offset + j) = omega arith in
      record {
        known = t.known;
        within = omega arith;
        size_lt = t.size_lt;
        head = t.head;
        current =
            sym here
            ∙ ap cluster_at (sym (div_inside offset v.cluster_size j pos (omega arith)))
            ∙ ap before (sym same);
        good = good;
      }

  move_to_offset :
      (c j : ℕ) (file : File)
      → file.offset + suc j < 2 ^ 32
      → (move_to v c (suc j) file).offset ≡ file.offset + suc j
  unfolding move_to
  move_to_offset c j file h = omega arith

  -- What a read of `n` bytes is on such a file.
  abbrev pub Reads : ℕ → ℕ → Opened S → Type 0
  Reads size n o =
      (k : ℕ) × ((o' : Opened S) × (read v n o ≡ (ok (slice content o.file.offset k), o'))
        × (0 < k)
        × (k ≤ n)
        × (o'.file.offset ≡ o.file.offset + k)
        × Tracks size o')

  -- The bytes of one call on the storage.
  read_size_bounds :
      (size n : ℕ) (o : Opened S)
      → Tracks size o
      → 0 < n
      → o.file.offset < size
      → (0 < read_size v n o.file)
        × (read_size v n o.file ≤ n)
        × (o.file.offset + read_size v n o.file ≤ size)
        × (o.file.offset % v.cluster_size + read_size v n o.file ≤ v.cluster_size)
  unfolding read_size left_of bytes_left_in_file
  read_size_bounds size n o t some_asked less =
      let small = t.size_lt in
      let inside : o.file.offset % v.cluster_size < v.cluster_size = grind arith in
      rw t.known (omega arith, omega arith, omega arith, omega arith)

  read_from_lem :
      (n c q : ℕ) (o : Opened S) (s1 s2 : S) (bytes : List ℕ)
      → 0 < read_size v n o.file
      → seek_start v.disk (v.offset_from_cluster c + o.file.offset % v.cluster_size) o.fs
        ≡ (ok q, s1)
      → v.disk.read (read_size v n o.file) s1 ≡ (ok bytes, s2)
      → read_from v n c o ≡ finish_read v c bytes (record o { fs = s2 })
  unfolding read_from lift_result
  read_from_lem n c q o s1 s2 bytes some_room sought got =
      let test : (read_size v n o.file == 0) ≡ false = ground arith in
      rw test (
        ap (λ r. and_then (lift_result r.0, record o { fs = r.1 }) rest) sought
        ∙ ap (λ r. and_then (lift_result r.0, record o { fs = r.1 }) (finish_read v c)) got)
    where
      rest : ℕ → M (Opened S) (List ℕ)
      rest p o' = and_then (on_disk (v.disk.read (read_size v n o.file)) o') (finish_read v c)

  finish_read_lem :
      (c j p : ℕ) (g : ℕ → ℕ) (o : Opened S)
      → finish_read v c (slice g p (suc j)) o ≡ (
        ok (slice g p (suc j)),
        update_accessed v (record o { file = move_to v c (suc j) o.file }),
      )
  unfolding finish_read
  finish_read_lem c j p g o = rw (length-slice g (p + 1) j) refl

  read_found :
      (n c : ℕ) (o : Opened S) (s' : S)
      → cluster_to_read v o ≡ (ok (some c), record o { fs = s' })
      → read v n o ≡ read_from v n c (record o { fs = s' })
  unfolding read read_at
  read_found n c o s' step = ap (λ r. and_then r (read_at v n)) step

  read_finished :
      (size n c k : ℕ) (o : Opened S) (s' : S)
      → Tracks size o
      → f.Good s'
      → cluster_at (o.file.offset / v.cluster_size) ≡ some c
      → 0 < k
      → k ≤ n
      → o.file.offset + k ≤ size
      → o.file.offset % v.cluster_size + k ≤ v.cluster_size
      → read v n o
        ≡ finish_read v c
            (slice f.byte (v.offset_from_cluster c + o.file.offset % v.cluster_size) k)
            (record o { fs = s' })
      → Reads size n o
  read_finished size n c zero o s' t good here kpos kle room inside e = absurd (omega arith)
  read_finished size n c (suc j) o s' t good here kpos kle room inside e =
      let p = v.offset_from_cluster c + o.file.offset % v.cluster_size in
      let moved : Opened S = record { file = move_to v c (suc j) o.file; fs = s' } in
      (
        suc j,
        (
          update_accessed v moved,
          e
              ∙ finish_read_lem c j p f.byte (record o { fs = s' })
              ∙ ap
                  (λ (bytes : List ℕ).
                    let r : Result (List ℕ) = ok bytes in (r, update_accessed v moved))
                  (slice-content c o.file.offset (suc j) here inside),
          kpos,
          kle,
          update_accessed_offset moved
              ∙ move_to_offset c j o.file (let a = t.size_lt in omega arith),
          update_accessed-Tracks size moved (move_to-Tracks size c j o s' t good here room inside),
        ),
      )

  -- In a file whose chain covers its size, on a file system that answers from fixed tables and
  -- bytes: a read of at least a byte before the end returns at least a byte and no more than were
  -- asked for; they are the bytes of the file at its offset, which moves behind them.
  pub read_content :
      (size n : ℕ) (o : Opened S)
      → f.Data first
      → Covers size
      → Tracks size o
      → 0 < n
      → o.file.offset < size
      → Reads size n o
  read_content size n o d covers t some_asked less =
      let (c, here, (s', step, good)) = found size o t d less covers in
      let bounds = read_size_bounds size n o t some_asked less in
      let p = v.offset_from_cluster c + o.file.offset % v.cluster_size in
      let (q, (s1, sought, (k, (s2, got, kpos, kle, good2)))) =
        f.fetch s' c (o.file.offset % v.cluster_size) (read_size v n o.file) good
          (cluster_at-Data d (o.file.offset / v.cluster_size) c here) bounds.0 bounds.3 in
      read_finished size n c k o s2 t good2 here kpos (omega arith) (omega arith) (omega arith) (
        read_found n c o s' step
        ∙ read_from_lem n c q (record o { fs = s' }) s1 s2 (slice f.byte p k) bounds.0 sought got)
