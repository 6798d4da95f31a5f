-- ===== src/Table/Fat12/Scan.antt =====
-- The scans of `Fat12`, which carry bits from one entry to the next, are the plain scans.
use rust_fatfs.Base.{
  ℕ, zero, suc, ◌+◌, ◌-◌, ◌/◌, ◌%◌, ◌^◌, ◌≤◌, ◌<◌, ◌≡◌, ◌⊎◌, refl, arith, true, false, ◌==◌,
  if◌then◌else◌,
}
use rust_fatfs.Base.Bits.{bit_and_mask, bit_or_high_low, bit_or_low_high}
use rust_fatfs.Base.Result.{ok, err, not_enough_space}
use rust_fatfs.Io.{Stream}
use rust_fatfs.Io.Contract.{IsBytes}
use rust_fatfs.Io.Words.{word16, read_u16_in, read_u8_in, read_u16_at}
use rust_fatfs.FatType.{fat12}
use rust_fatfs.Table.Value.{is_free}
use rust_fatfs.Table.Spec.{entry, first_free, first_free-zero, first_free-suc, count_of_free, found}
use rust_fatfs.Table.Fat12.{
  decode, entry_of, count_val, count_read, next_packed, find_free, find_free_loop, count_free,
  count_free_loop, rounds, fat_offset,
}
use rust_fatfs.Table.Fat12.Entry.{offset, entry_of_sum}

is_free-entry :
    (f : ℕ → ℕ) (n : ℕ) → is_free (entry fat12 f n) ≡ (entry_of n (word16 f (offset n)) == 0)
unfolding entry decode
is_free-entry f n = ground arith

module _ (f : ℕ → ℕ) (hf : (i : ℕ) → f i < 256) where
  -- `count_free` tests another number than the entry, which is 0 together with it.
  is_free-count :
      (n prev : ℕ)
      → (n % 2 ≡ 0) ⊎ (prev / 4096 ≡ f (offset n) / 16)
      → is_free (entry fat12 f n)
        ≡ (count_val n (if n % 2 == 0 then word16 f (offset n) else f (offset n + 1)) prev == 0)
  unfolding count_val
  is_free-count n prev h = ground (
    arith,
    is_free-entry f n,
    entry_of_sum n (word16 f (offset n)),
    hf (offset n),
    hf (offset n + 1),
    bit_and_mask 1 n,
    bit_and_mask 12 (word16 f (offset n)),
    bit_or_high_low 8 (f (offset n + 1)) (prev / 4096),
  )

module _ {S : Type 0} {fat : Stream S} (c : IsBytes fat) where
  open c use {size, byte, pos, sought, fetched}

  -- The bytes that are read to get from the cluster before `n` to `n`.
  abbrev step : ℕ → ℕ
  step n = if n % 2 == 0 then 2 else 1

  next_packed_lem :
      (n : ℕ) (s : S) (f : ℕ → ℕ)
      → byte s ≡ f
      → pos s ≡ offset n + 2
      → offset (n + 1) + 2 ≤ size s
      → next_packed fat (n + 1) (word16 f (offset n)) s
        ≡ (ok (word16 f (offset (n + 1))), fetched s (step (n + 1)))
  unfolding next_packed
  next_packed_lem n s f hb hp h =
      let hf : (i : ℕ) → f i < 256 = λ i. rw (← hb) (c.byte_lt s i) in
      ground (
        arith,
        hf (offset n),
        hf (offset n + 1),
        hf (offset n + 2),
        read_u16_in c s,
        read_u8_in c s,
        bit_and_mask 1 (n + 1),
        bit_or_low_high 8 (f (offset n + 2)) (f (offset n + 1)),
      )

  -- One round of `find_free`.
  module _ (fuel n p e : ℕ) (s : S) where
    loop_free : (entry_of n p == 0) ≡ true → find_free_loop fat (suc fuel) n p e s ≡ (ok n, s)
    unfolding find_free_loop
    loop_free h = ground arith

    loop_end :
        (entry_of n p == 0) ≡ false
        → n + 1 ≡ e
        → e ≤ 2 ^ 28
        → find_free_loop fat (suc fuel) n p e s ≡ (err not_enough_space, s)
    unfolding find_free_loop
    loop_end h k l = ground arith

    loop_more :
        (p' : ℕ) (s' : S)
        → (entry_of n p == 0) ≡ false
        → n + 1 < e
        → e ≤ 2 ^ 28
        → next_packed fat (n + 1) p s ≡ (ok p', s')
        → find_free_loop fat (suc fuel) n p e s ≡ find_free_loop fat fuel (n + 1) p' e s'
    unfolding find_free_loop
    loop_more p' s' h k l q = let v : (n + 1) % 2 ^ 32 ≡ n + 1 = omega arith in ground arith

  find_free_loop_lem :
      (left n e : ℕ) (s : S) (f : ℕ → ℕ)
      → byte s ≡ f
      → pos s ≡ offset n + 2
      → e ≡ n + suc left
      → e ≤ 2 ^ 28
      → offset (n + left) + 2 ≤ size s
      → let r = find_free_loop fat (suc left) n (word16 f (offset n)) e s in
        (r.0 ≡ found (first_free (entry fat12 f) (suc left) n))
        × (byte r.1 ≡ f)
        × (size r.1 ≡ size s)
  find_free_loop_lem zero n e s f hb hp q l h = ground (
    arith,
    is_free-entry f n,
    loop_free 0 n (word16 f (offset n)) e s,
    loop_end 0 n (word16 f (offset n)) e s,
    first_free-suc (entry fat12 f) 0 n,
    first_free-zero (entry fat12 f) (n + 1),
  )
  find_free_loop_lem (suc left) n e s f hb hp q l h =
      let p = word16 f (offset n) in
      let p' = word16 f (offset (n + 1)) in
      let s' = fetched s (step (n + 1)) in
      ground (
        arith,
        is_free-entry f n,
        loop_free (suc left) n p e s,
        loop_more (suc left) n p e s p' s',
        next_packed_lem n s f hb hp (omega arith),
        first_free-suc (entry fat12 f) (suc left) n,
        c.byte-fetched s (step (n + 1)),
        c.size-fetched s (step (n + 1)),
        c.pos-fetched s (step (n + 1)),
        find_free_loop_lem left (n + 1) e s' f,
      )

  pub find_free_in :
      (a b : ℕ) (s : S)
      → a < b
      → b ≤ 2 ^ 28
      → offset (b - 1) + 2 ≤ size s
      → let r = find_free fat a b s in
        (r.0 ≡ found (first_free (entry fat12 (byte s)) (b - a) a))
        × (byte r.1 ≡ byte s)
        × (size r.1 ≡ size s)
  unfolding find_free
  find_free_in a b s h k l =
      let t = fetched (sought s (offset a)) 2 in
      let e : fat_offset a ≡ offset a = omega arith in
      let n : rounds a b ≡ suc (b - a - 1) = omega arith in
      let m : b - a ≡ suc (b - a - 1) = omega arith in
      rw (e, n, m, c.seek_in s (offset a) (omega arith), read_u16_at c s (offset a) (omega arith))
        (ground (
          arith,
          c.byte-sought s (offset a),
          c.size-sought s (offset a),
          c.pos-sought s (offset a),
          c.byte-fetched (sought s (offset a)) 2,
          c.size-fetched (sought s (offset a)) 2,
          c.pos-fetched (sought s (offset a)) 2,
          find_free_loop_lem (b - a - 1) a b t (byte s),
        ))

  -- One round of `count_free`: where it stands and what it keeps of the bytes before.
  module _ (left n prev k : ℕ) (s : S) (f : ℕ → ℕ) where
    count_step :
        byte s ≡ f
        → pos s ≡ offset n + n % 2
        → (n % 2 ≡ 0) ⊎ (prev / 4096 ≡ f (offset n) / 16)
        → offset n + 2 ≤ size s
        → let x = if n % 2 == 0 then word16 f (offset n) else f (offset n + 1) in
          count_free_loop fat (suc left) n prev k s
          ≡ count_free_loop fat left
              (n + 1)
              x
              (if is_free (entry fat12 f n) then k + 1 else k)
              (fetched s (step n))
    unfolding count_free_loop count_read
    count_step hb hp q h =
        let hf : (i : ℕ) → f i < 256 = λ i. rw (← hb) (c.byte_lt s i) in
        ground
          (arith, is_free-count f hf n prev q, bit_and_mask 1 n, read_u16_in c s, read_u8_in c s)

  count_free_loop_lem :
      (left n prev k : ℕ) (s : S) (f : ℕ → ℕ)
      → byte s ≡ f
      → pos s ≡ offset n + n % 2
      → (n % 2 ≡ 0) ⊎ (prev / 4096 ≡ f (offset n) / 16)
      → offset (n + left - 1) + 2 ≤ size s
      → let r = count_free_loop fat left n prev k s in
        (r.0 ≡ ok (k + count_of_free (entry fat12 f) left n)) × (byte r.1 ≡ f) × (size r.1 ≡ size s)
  unfolding count_of_free
  count_free_loop_lem zero n prev k s f hb hp q h =
      unfold count_free_loop in (ground arith, hb, refl)
  count_free_loop_lem (suc left) n prev k s f hb hp q h =
      let hf : (i : ℕ) → f i < 256 = λ i. rw (← hb) (c.byte_lt s i) in
      let x = if n % 2 == 0 then word16 f (offset n) else f (offset n + 1) in
      ground (
        arith,
        hf (offset n),
        count_step left n prev k s f hb hp q (omega arith),
        c.byte-fetched s (step n),
        c.size-fetched s (step n),
        c.pos-fetched s (step n),
        count_free_loop_lem left (n + 1) x (k + 1) (fetched s (step n)) f,
        count_free_loop_lem left (n + 1) x k (fetched s (step n)) f,
      )

  pub count_free_in :
      (b : ℕ) (s : S)
      → 2 < b
      → offset (b - 1) + 2 ≤ size s
      → let r = count_free fat b s in
        (r.0 ≡ ok (count_of_free (entry fat12 (byte s)) (b - 2) 2))
        × (byte r.1 ≡ byte s)
        × (size r.1 ≡ size s)
  unfolding count_free
  count_free_in b s h k = ground (
    arith,
    c.seek_in s 3,
    c.byte-sought s 3,
    c.size-sought s 3,
    c.pos-sought s 3,
    count_free_loop_lem (b - 2) 2 0 0 (sought s 3) (byte s),
  )
