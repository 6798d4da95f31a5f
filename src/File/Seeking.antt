-- ===== src/File/Seeking.antt =====
-- A seek and a truncation keep an open file valid, and a seek ends within the file.
use rust_fatfs.Base.{
  ℕ, zero, suc, ◌+◌, ◌-◌, ◌*◌, ◌/◌, ◌%◌, ◌^◌, ◌≤◌, ◌<◌, ◌≡◌, refl, sym, ◌∙◌, arith, Option, some,
  none, ◌==◌, ==→eq, Bool-cases, inl, inr,
}
use mathlib.Core.Path.{subst}
use rust_fatfs.Base.Result.{Result, ok, err, panic, stuck, M}
use rust_fatfs.DirEntry.Editor.{DirEntryEditor}
use rust_fatfs.File.{Volume, File, Opened, on_fs, size_of, truncate, truncate_chain, truncate_with}
use rust_fatfs.File.Entry.{size-truncate_entry, resize}
use rust_fatfs.File.Valid.{Placed, IsValid, IsVolume, and_then-keeps}
use native.Mathlib.Nat.{div-mul-le_self, lt-div-mul-add}
use rust_fatfs.Io.{SeekFrom}
use rust_fatfs.File.Seek.{
  seek_target, clamp_to, place, skip_next, skip_clusters, seek_chain, seek_to, seek_at, seek,
}

resized : (n s : ℕ) (size : Option ℕ) → size ≡ some s → resize n size ≡ some n
unfolding resize
resized n s none h = absurd (cc)
resized n s (some t) h = refl

-- A count of clusters that is rounded up.
rounded_up :
    (q n c : ℕ)
    → 0 < c
    → q * c ≤ n + c - 1
    → n + c - 1 < q * c + c
    → (n ≡ 0 → q ≡ 0) × (0 < n → (0 < q) × ((q - 1) * c < n))
rounded_up zero n c pos low high = (λ h. refl, λ h. absurd (omega arith))
rounded_up (suc q) n c pos low high =
    let e : suc q - 1 ≡ q = omega arith in
    (λ h. absurd (omega arith), λ h. (omega arith, rw e (omega arith)))

module _ {S : Type 0} (v : Volume S) (laws : IsVolume v) where
  truncate_chain-IsValid :
      (c first : Option ℕ) (o : Opened S)
      → IsValid o.file
      → IsValid (truncate_chain v c first o).1.file
  unfolding truncate_chain
  truncate_chain-IsValid (some n) first o z = z
  truncate_chain-IsValid none none o z = z
  truncate_chain-IsValid none (some n) o z =
      and_then-keeps {S = Opened S} (λ o'. IsValid o'.file) (on_fs (v.free_cluster_chain n) o) _ z
        (λ u e. record {
          size = z.size;
          known = z.known;
          within = z.within;
          size_lt = z.size_lt;
          placed = z.placed;
        })

  truncate_with-IsValid :
      (entry : Option DirEntryEditor) (o : Opened S) (s : ℕ)
      → size_of entry ≡ some s
      → IsValid o.file
      → IsValid (truncate_with v entry o).1.file
  unfolding truncate_with
  truncate_with-IsValid none o s known z = z
  truncate_with-IsValid (some e) o s known z =
      truncate_chain-IsValid o.file.current_cluster o.file.first_cluster _ (record {
        size = o.file.offset;
        known =
            size-truncate_entry v o.file.offset e
            ∙ resized o.file.offset s (size_of (some e)) known;
        within = omega arith;
        size_lt = let a = z.within in let b = z.size_lt in omega arith;
        placed = z.placed;
      })

  -- A truncation keeps the file valid, on every outcome.
  pub truncate-IsValid : (o : Opened S) → IsValid o.file → IsValid (truncate v o).1.file
  unfolding truncate
  truncate-IsValid o z = truncate_with-IsValid o.file.entry o z.size z.known z

  -- The offset that a seek along the chain ends at, and the file that it leaves alone.
  abbrev Reaches : File → ℕ → Result (ℕ × ℕ) × Opened S → Type 0
  Reaches file new_offset r =
      (r.1.file ≡ file)
      × ((c offset : ℕ) → r.0 ≡ ok (c, offset) → (0 < offset) × (offset ≤ new_offset))

  skip_next-Reaches :
      (again : ℕ → M (Opened S) (ℕ × ℕ)) (i cluster new_offset : ℕ) (file : File)
      → (r : Result (Option ℕ) × Opened S) → r.1.file ≡ file
      → ((n : ℕ) → Reaches file new_offset (again n r.1))
      → (0 < v.bytes_from_clusters (i + 1) % 2 ^ 32)
        × (v.bytes_from_clusters (i + 1) % 2 ^ 32 ≤ new_offset)
      → Reaches file new_offset (skip_next v again i cluster r)
  unfolding skip_next
  skip_next-Reaches again i cluster new_offset file (ok (some n), o) same more stop = more n
  skip_next-Reaches again i cluster new_offset file (ok none, o) same more stop =
      (same, λ c offset e. ground (arith, e, stop))
  skip_next-Reaches again i cluster new_offset file (err e', o) same more stop =
      (same, λ c offset e. absurd (cc))
  skip_next-Reaches again i cluster new_offset file (panic, o) same more stop =
      (same, λ c offset e. absurd (cc))
  skip_next-Reaches again i cluster new_offset file (stuck, o) same more stop =
      (same, λ c offset e. absurd (cc))

  skip_clusters-Reaches :
      (left i new_offset cluster : ℕ) (o : Opened S)
      → (i + left) * v.cluster_size < new_offset
      → new_offset < 2 ^ 32
      → Reaches o.file new_offset (skip_clusters v left i new_offset cluster o)
  unfolding skip_clusters
  skip_clusters-Reaches zero i new_offset cluster o h l = (refl, λ c offset e. ground (arith, e, h))
  skip_clusters-Reaches (suc left) i new_offset cluster o h l =
      let pos = laws.cluster_size_pos in
      let less : (i + 1) * v.cluster_size < new_offset = omega arith in
      let bytes = laws.bytes_from_clusters-eq (i + 1) (omega arith) in
      skip_next-Reaches (skip_clusters v left (i + 1) new_offset) i cluster new_offset o.file
        (on_fs (v.next_cluster cluster) o) refl
        (λ n.
          skip_clusters-Reaches left (i + 1) new_offset n
            (record o { fs = (v.next_cluster cluster o.fs).1 }) (omega arith) l)
        (omega (arith, bytes), omega (arith, bytes))

  clusters_rounded_up :
      (n : ℕ)
      → n < 2 ^ 32
      → (n ≡ 0 → v.clusters_from_bytes n ≡ 0)
        × (0 < n
            → (0 < v.clusters_from_bytes n) × ((v.clusters_from_bytes n - 1) * v.cluster_size < n))
  clusters_rounded_up n small = rw (laws.clusters_from_bytes-eq n small) (
      rounded_up ((n + v.cluster_size - 1) / v.cluster_size) n v.cluster_size laws.cluster_size_pos
        (div-mul-le_self (n + v.cluster_size - 1) v.cluster_size)
        (lt-div-mul-add laws.cluster_size_pos))

  place-IsValid :
      (offset : ℕ) (c : Option ℕ) (file : File) (z : IsValid file)
      → offset ≤ z.size
      → Placed c offset
      → IsValid (place offset c file)
  unfolding place
  place-IsValid offset c file z h p = record {
    size = z.size;
    known = z.known;
    within = h;
    size_lt = z.size_lt;
    placed = p;
  }

  seek_chain-IsValid :
      (first : Option ℕ) (new_offset n : ℕ) (o : Opened S) (z : IsValid o.file)
      → new_offset ≤ z.size
      → (n - 1) * v.cluster_size < new_offset
      → IsValid (seek_chain v first new_offset n o).1.file
  unfolding seek_chain
  seek_chain-IsValid none new_offset n o z h l = place-IsValid 0 none o.file z (omega arith) refl
  seek_chain-IsValid (some first) new_offset n o z h l =
      let r = skip_clusters v (n - 1) 0 new_offset first o in
      let reach =
        skip_clusters-Reaches (n - 1) 0 new_offset first o (omega arith)
          (let a = z.size_lt in omega arith) in
      let z' : (y : IsValid r.1.file) × (new_offset ≤ y.size) =
        subst (λ f. (y : IsValid f) × (new_offset ≤ y.size)) (sym reach.0) (z, h) in
      and_then-keeps {S = Opened S} (λ o'. IsValid o'.file) r _ z'.0
        (λ a e.
          let found = reach.1 a.0 a.1 e in
          place-IsValid a.1 (some a.0) r.1.file z'.0 (let more = z'.1 in omega arith) found.0)

  same_cluster-Placed :
      (c : Option ℕ) (offset new_offset : ℕ)
      → Placed c offset
      → offset < 2 ^ 32
      → new_offset < 2 ^ 32
      → 0 < new_offset
      → v.clusters_from_bytes new_offset ≡ v.clusters_from_bytes offset
      → Placed c new_offset
  same_cluster-Placed (some n) offset new_offset p l l' pos same = pos
  same_cluster-Placed none offset new_offset p l l' pos same =
      let old = (clusters_rounded_up offset l).0 p in
      let new = (clusters_rounded_up new_offset l').1 pos in absurd (omega arith)

  seek_to-IsValid :
      (new_offset : ℕ) (o : Opened S) (z : IsValid o.file)
      → new_offset ≤ z.size
      → IsValid (seek_to v new_offset o).1.file
  unfolding seek_to
  seek_to-IsValid new_offset o z h =
      let small = z.size_lt in
      let in_file = z.within in
      elim (Bool-cases (new_offset == 0)) [
        | inl start_of_file ↦ rw start_of_file (place-IsValid 0 none o.file z (omega arith) refl)
        | inr later ↦
            let pos : 0 < new_offset = ground arith in
            rw later
              (elim (Bool-cases
                (v.clusters_from_bytes new_offset == v.clusters_from_bytes o.file.offset)) [
                  | inl same ↦ rw same (
                      place-IsValid new_offset o.file.current_cluster o.file z h (
                        same_cluster-Placed o.file.current_cluster o.file.offset new_offset z.placed
                          (omega arith) (omega arith) pos (==→eq _ _ same)))
                  | inr other ↦ rw other (
                      seek_chain-IsValid o.file.first_cluster new_offset
                        (v.clusters_from_bytes new_offset) o z h
                        ((clusters_rounded_up new_offset (omega arith)).1 pos).1)
                ])
      ]

  clamp_to-le : (size : Option ℕ) (s n : ℕ) → size ≡ some s → clamp_to size n ≤ s
  unfolding clamp_to
  clamp_to-le none s n h = absurd (cc)
  clamp_to-le (some t) s n h = ground arith

  seek_target_cases :
      (target : Option ℕ) (o : Opened S) → IsValid o.file → IsValid (seek_at v target o).1.file
  unfolding seek_at
  seek_target_cases none o z = z
  seek_target_cases (some target) o z =
      elim (Bool-cases (clamp_to (size_of o.file.entry) target == o.file.offset)) [
        | inl same ↦ rw same z
        | inr moved ↦
            rw moved
              (seek_to-IsValid _ o z (clamp_to-le (size_of o.file.entry) z.size target z.known))
      ]

  -- A seek keeps the file valid, on every outcome.
  pub seek-IsValid :
      (pos : SeekFrom) (o : Opened S) → IsValid o.file → IsValid (seek v pos o).1.file
  unfolding seek
  seek-IsValid pos o z = seek_target_cases (seek_target pos o.file) o z
