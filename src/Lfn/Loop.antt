-- ===== src/Lfn/Loop.antt =====
-- The builder puts together what the generator takes apart: the parts after the first.
use rust_fatfs.Base.{
  ℕ, zero, suc, ◌+◌, ◌*◌, ◌≤◌, ◌<◌, ◌≡◌, refl, sym, ap, ◌∙◌, arith, List, [], ◌∷◌, ◌++◌, length,
  take, drop, length-append, length-take, length-drop, append-nil, append_assoc, take-append-drop,
  take-append_ge, drop-append_eq, le→ltb, false, true, some, none,
}
use rust_fatfs.Base.Result.{ok}
use rust_fatfs.DirEntry.{DirLfnEntryData}
use rust_fatfs.Lfn.{
  LongNameBuilder, LfnEntriesGenerator, copy_name_to_slice, process, process_all, next, make_entry,
  collect_entries, last_chunk, name_units, new_lfn,
}
use rust_fatfs.Lfn.Parts.{name_units-copy_name_from_slice, pad_part_lem, order_middle}

abbrev pub building : List ℕ → ℕ → ℕ → LongNameBuilder
building buf chksum index = record { buf = buf; chksum = chksum; index = index }

abbrev pub generating : List ℕ → ℕ → ℕ → ℕ → LfnEntriesGenerator
generating units checksum index num = record {
  name_parts_iter = units;
  checksum = checksum;
  index = index;
  num = num;
  ended = false;
}

-- The copy replaces the last thirteen units of what stands before the parts that are done.
pub copy_name_to_slice_lem :
    (front R : List ℕ) (c i pos : ℕ) (entry : DirLfnEntryData)
    → length front ≡ pos + 13
    → copy_name_to_slice (building (front ++ R) c i) pos entry
      ≡ ok (building (take pos front ++ (name_units entry ++ R)) c i)
unfolding copy_name_to_slice
copy_name_to_slice_lem front R c i pos entry h =
    rw
      (
        le→ltb (length (front ++ R)) (pos + 13) (omega (arith, length-append front R)),
        take-append_ge pos front R (omega arith),
        drop-append_eq (pos + 13) front R (sym h),
      )
      refl

pub process_middle :
    (front R : List ℕ) (c k : ℕ) (entry : DirLfnEntryData)
    → length front ≡ 13 * suc k
    → k < 20
    → entry.order ≡ suc k
    → entry.checksum ≡ c
    → process (building (front ++ R) c (suc (suc k))) entry
      ≡ ok (building (take (13 * k) front ++ (name_units entry ++ R)) c (suc k))
unfolding process
process_middle front R c k entry h small order sum =
    let bits = order_middle (suc k) (omega arith) in
    rw (order, sum, bits.0, bits.1)
      (ground (arith, copy_name_to_slice_lem front R c (suc k) (13 * k) entry (omega arith)))

pub last_chunk_full : (v : List ℕ) (k : ℕ) → length v ≡ 13 * suc k → last_chunk v ≡ 13 * k
unfolding last_chunk
last_chunk_full v k h = ground arith

make_entry_middle :
    (part : List ℕ) (v : List ℕ) (c i k : ℕ)
    → length part ≡ 13
    → 1 ≤ i
    → k < 20
    → (name_units (make_entry (generating v c i (suc k + i)) part) ≡ part)
      × ((make_entry (generating v c i (suc k + i)) part).order ≡ suc k)
      × ((make_entry (generating v c i (suc k + i)) part).checksum ≡ c)
unfolding make_entry
make_entry_middle part v c i k full later small = ground (
  arith,
  pad_part_lem part,
  append-nil part,
  name_units-copy_name_from_slice (new_lfn (suc k) c) part full,
)

next_middle :
    (v : List ℕ) (c i k : ℕ)
    → length v ≡ 13 * suc k
    → next (generating v c i (suc k + i)) ≡ (
      some (make_entry (generating v c i (suc k + i)) (drop (13 * k) v)),
      generating (take (13 * k) v) c (i + 1) (suc k + i),
    )
unfolding next
next_middle v c i k h = rw (last_chunk_full v k h, h) (ground arith)

next_empty :
    (c i n : ℕ) → next (generating [] c i n) ≡ (none, record (generating [] c i n) { ended = true })
unfolding next
next_empty c i n = refl

pub process_all_end : (b : LongNameBuilder) → process_all b [] ≡ ok b
unfolding process_all
process_all_end b = refl

-- One round of the two loops.
pub collect_entries_round :
    (fuel : ℕ) (g g' : LfnEntriesGenerator) (entry : DirLfnEntryData)
    → next g ≡ (some entry, g')
    → collect_entries (suc fuel) g ≡ entry ∷ collect_entries fuel g'
unfolding collect_entries
collect_entries_round fuel g g' entry h =
    ap (λ r. elim r.0 [ none ↦ [] | some e ↦ e ∷ collect_entries fuel r.1 ]) h

collect_entries_end : (fuel c i n : ℕ) → collect_entries (suc fuel) (generating [] c i n) ≡ []
unfolding collect_entries
collect_entries_end fuel c i n = rw (collect_entries, next_empty c i n) refl

pub process_all_round :
    (b b' : LongNameBuilder) (entry : DirLfnEntryData) (rest : List DirLfnEntryData)
    → process b entry ≡ ok b'
    → process_all b (entry ∷ rest) ≡ process_all b' rest
unfolding process_all
process_all_round b b' entry rest h = rw (process_all, h) refl

-- The rounds that are left, after a round that wrote a part.
pub process_all-collect_entries :
    (k i : ℕ) (v front R : List ℕ) (c : ℕ)
    → length v ≡ 13 * k
    → length front ≡ 13 * k
    → 1 ≤ i
    → k + i ≤ 20
    → process_all
        (building (front ++ R) c (suc k))
        (collect_entries (suc k) (generating v c i (k + i)))
      ≡ ok (building (v ++ R) c 1)
process_all-collect_entries zero i [] [] R c p q later small =
    ap (process_all (building R c 1)) (collect_entries_end 0 c i (0 + i))
    ∙ process_all_end (building R c 1)
process_all-collect_entries zero i (x ∷ v) front R c p q later small = absurd (omega arith)
process_all-collect_entries zero i [] (x ∷ front) R c p q later small = absurd (omega arith)
process_all-collect_entries (suc k) i v front R c p q later small =
    let part = drop (13 * k) v in
    let full : length part ≡ 13 = omega (arith, length-drop (13 * k) v) in
    let entry = make_entry (generating v c i (suc k + i)) part in
    let fields = make_entry_middle part v c i k full later (omega arith) in
    let rest =
      process_all-collect_entries k (i + 1) (take (13 * k) v) (take (13 * k) front) (part ++ R) c
        (length-take (13 * k) v (omega arith)) (length-take (13 * k) front (omega arith))
        (omega arith) (omega arith) in
    let n : k + (i + 1) ≡ suc k + i = omega arith in
    let whole : take (13 * k) v ++ (part ++ R) ≡ v ++ R =
      sym (append_assoc (take (13 * k) v) part R)
      ∙ ap (λ t. t ++ R) (take-append-drop (13 * k) v) in
    ap (process_all (building (front ++ R) c (suc (suc k))))
      (collect_entries_round (suc k) _ _ entry (next_middle v c i k p))
    ∙ process_all_round (building (front ++ R) c (suc (suc k))) _ entry _
        (process_middle front R c k entry q (omega arith) fields.1 fields.2)
    ∙ rw (fields.0, sym n, sym whole) rest
