-- ===== src/Lfn/Complete.antt =====
-- dir.rs: the entries that a long name is taken from.
use rust_fatfs.Base.{
  ℕ, suc, ◌+◌, ◌-◌, ◌*◌, ◌≤◌, ◌≡◌, ◌≢◌, refl, arith, List, [], ◌∷◌, ◌++◌, length, append_assoc,
  append-nil, ltb, Bool-cases, inl, inr, ◌==◌, bit_and, true, false, ◌||◌, not,
}
use mathlib.Core.Path.{subst}
use rust_fatfs.Base.Result.{Result, ok, err, panic, stuck}
use rust_fatfs.Base.Outcome.{Gives}
use rust_fatfs.DirEntry.{DirLfnEntryData}
use rust_fatfs.Lfn.{
  LongNameBuilder, new_builder, clear, copy_name_to_slice, process, process_all, validate_chksum,
  into_buf, lfn_checksum, set_len,
}

-- The entries end with those of a long name down to the one of index `k`, all with the checksum `c`:
-- the first of them has the mark of a last part, and the index falls by one from entry to entry.
pub data EndsRun (c : ℕ) : ℕ → List DirLfnEntryData → Type 0 where
  starts :
      (earlier : List DirLfnEntryData) (e : DirLfnEntryData)
      → bit_and e.order 0x40 ≢ 0
      → e.checksum ≡ c
      → EndsRun c (bit_and e.order 0x1F) (earlier ++ (e ∷ []))
  follows :
      {k : ℕ} {earlier : List DirLfnEntryData} (e : DirLfnEntryData)
      → EndsRun c (suc k) earlier
      → bit_and e.order 0x40 ≡ 0
      → bit_and e.order 0x1F ≡ k
      → e.checksum ≡ c
      → EndsRun c k (earlier ++ (e ∷ []))

-- A builder that has taken `seen`: the run that it is in, or nothing.
pub record Traces (seen : List DirLfnEntryData) (b : LongNameBuilder) : Type 0 where
  pub empty : b.index ≡ 0 → b.buf ≡ []
  pub run : b.index ≢ 0 → EndsRun b.chksum b.index seen

clear-Traces : (seen : List DirLfnEntryData) (b : LongNameBuilder) → Traces seen (clear b)
unfolding clear
clear-Traces seen b = record { empty = λ e. refl; run = λ n. absurd (n refl) }

copy-Traces :
    (seen : List DirLfnEntryData) (b : LongNameBuilder) (pos : ℕ) (e : DirLfnEntryData)
    → 1 ≤ b.index
    → EndsRun b.chksum b.index seen
    → Gives (Traces seen) (copy_name_to_slice b pos e)
unfolding copy_name_to_slice
copy-Traces seen b pos e some_index run = elim (Bool-cases (ltb (length b.buf) (pos + 13))) [
  | inl out ↦ rw out tt
  | inr room ↦ rw room (record { empty = λ z. absurd (omega arith); run = λ n. run })
]

is_first :
    (i order : ℕ)
    → (i == 0 || ltb 20 i) ≡ false
    → not (bit_and order 0x40 == 0) ≡ true
    → (1 ≤ i) × (bit_and order 0x40 ≢ 0)
is_first i order h k = (ground (arith, h), λ e. ground (arith, k, e))

is_next :
    (x i c d order : ℕ)
    → (i == 0 || ltb 20 i) ≡ false
    → not (bit_and order 0x40 == 0) ≡ false
    → (x == 0 || (not (i == x - 1) || not (c == d))) ≡ false
    → (i ≡ x - 1) × (1 ≤ x - 1) × (c ≡ d) × (bit_and order 0x40 ≡ 0)
is_next x i c d order g m h =
    (ground (arith, h), ground (arith, g, h), ground (arith, h), ground (arith, m))

process-Traces :
    (seen : List DirLfnEntryData) (b : LongNameBuilder) (e : DirLfnEntryData)
    → Traces seen b
    → Gives (Traces (seen ++ (e ∷ []))) (process b e)
unfolding process
process-Traces seen b e t =
    let i = bit_and e.order 0x1F in
    elim (Bool-cases (i == 0 || ltb 20 i)) [
      | inl bad ↦ rw bad (clear-Traces (seen ++ (e ∷ [])) b)
      | inr good ↦ rw good (elim (Bool-cases (not (bit_and e.order 0x40 == 0))) [
        | inl last ↦ rw last (
            let (some_index, mark) = is_first i e.order good last in
            copy-Traces (seen ++ (e ∷ []))
              (record { index = i; chksum = e.checksum; buf = set_len b.buf (i * 13) })
              (13 * (i - 1)) e some_index (starts seen e mark refl))
        | inr other ↦
            rw other
              (elim (Bool-cases
                (b.index == 0 || (not (i == b.index - 1) || not (e.checksum == b.chksum)))) [
                  | inl bad ↦ rw bad (clear-Traces (seen ++ (e ∷ [])) b)
                  | inr next ↦ rw next (
                      let (down, some_index, sum, plain) =
                        is_next b.index i e.checksum b.chksum e.order good other next in
                      let above : b.index ≡ suc (b.index - 1) = omega arith in
                      let run : EndsRun b.chksum (suc (b.index - 1)) seen =
                        subst (λ k. EndsRun b.chksum k seen) above
                          (t.run (λ z. absurd (omega arith))) in
                      copy-Traces (seen ++ (e ∷ [])) (record b { index = b.index - 1 })
                        (13 * (i - 1)) e some_index (follows e run plain down sum))
                ])
      ])
    ]

-- What `process_all` makes of the outcome of an entry.
after_entry-Gives :
    (P Q : LongNameBuilder → Type 0) (again : LongNameBuilder → Result LongNameBuilder)
    (r : Result LongNameBuilder)
    → Gives P r
    → ((b : LongNameBuilder) → P b → Gives Q (again b))
    → Gives Q (elim r [ ok b ↦ again b | err x ↦ err x | panic ↦ panic | stuck ↦ stuck ])
after_entry-Gives P Q again (ok b) h next = next b h
after_entry-Gives P Q again (err x) h next = tt
after_entry-Gives P Q again panic h next = tt
after_entry-Gives P Q again stuck h next = tt

process_all-Traces :
    (seen entries : List DirLfnEntryData) (b : LongNameBuilder)
    → Traces seen b
    → Gives (Traces (seen ++ entries)) (process_all b entries)
unfolding process_all
process_all-Traces seen [] b t = rw (append-nil seen) t
process_all-Traces seen (e ∷ rest) b t =
    after_entry-Gives (Traces (seen ++ (e ∷ []))) (Traces (seen ++ (e ∷ rest)))
      (λ b'. process_all b' rest) (process b e) (process-Traces seen b e t)
      (λ b' t'.
        subst (λ l. Gives (Traces l) (process_all b' rest)) (append_assoc seen (e ∷ []) rest)
          (process_all-Traces (seen ++ (e ∷ [])) rest b' t'))

taken :
    (b : LongNameBuilder) (short_name : List ℕ)
    → (b.index ≡ 0 → b.buf ≡ [])
    → into_buf (validate_chksum b short_name) ≢ []
    → (b.index ≡ 1) × (b.chksum ≡ lfn_checksum short_name)
unfolding into_buf validate_chksum
taken b short_name empty h = ground (arith, empty)

-- A new builder that has been given any entries gives a long name, one that is not empty, only if the
-- last of these entries are a complete long name: they begin with one that has the mark of a last
-- part, their indices fall by one down to 1, and all have the checksum of the short name.
pub into_buf-EndsRun :
    (entries : List DirLfnEntryData) (b : LongNameBuilder) (short_name : List ℕ)
    → process_all new_builder entries ≡ ok b
    → into_buf (validate_chksum b short_name) ≢ []
    → EndsRun (lfn_checksum short_name) 1 entries
unfolding new_builder
into_buf-EndsRun entries b short_name e h =
    let t : Traces entries b = subst (Gives (Traces entries)) e (
      process_all-Traces [] entries new_builder
        (record { empty = λ z. refl; run = λ n. absurd (n refl) })) in
    let (one, sum) = taken b short_name t.empty h in
    subst (λ k. EndsRun k 1 entries) sum
      (subst (λ k. EndsRun b.chksum k entries) one (t.run (λ z. absurd (omega arith))))
