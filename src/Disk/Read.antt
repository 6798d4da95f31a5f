-- ===== src/Disk/Read.antt =====
-- Reading through a window that lies in the storage.
use rust_fatfs.Base.{
  ℕ, zero, suc, ◌+◌, ◌-◌, ◌*◌, ◌≤◌, ◌<◌, ◌≡◌, inl, inr, refl, ◌∙◌, sym, ap, arith, ltb,
  if◌then◌else◌, Bool-cases, lt→ltb, ltb→lt, List, ◌++◌, length, min,
}
use rust_fatfs.Base.Result.{ok, err, unexpected_eof}
use rust_fatfs.Io.{Stream, read_exact_loop}
use rust_fatfs.Io.Contract.{IsBytes, slice}
use mathlib.Core.List.{append-nil, append_assoc}
use rust_fatfs.Io.Rounds.{read_round, read_end, read_done}
use rust_fatfs.Disk.{Window, DiskSlice, read, stream, on_inner, skip}
use rust_fatfs.Disk.Chunks.{IsChunked, length-slice, slice-add, slice-shift}

-- Every mirror lies in the storage.
abbrev pub Fits : {S : Type 0} {storage : Stream S} → IsBytes storage → Window → Type 0
Fits {S} c w = (s : S) → w.begin + w.mirrors * w.size ≤ c.size s

module _ {S : Type 0} {storage : Stream S} (c : IsBytes storage) (k : IsChunked c)
    (w : Window) where
  -- The bytes of the first copy.
  abbrev pub bytes : DiskSlice S → ℕ → ℕ
  bytes d x = if ltb x w.size then c.byte d.inner (w.begin + x) else 0

  -- How many bytes one `read` delivers, and the state behind it.
  abbrev got_len : DiskSlice S → ℕ → ℕ
  got_len d n = k.chunk (c.sought d.inner (w.begin + d.offset)) (min n (w.size - d.offset))

  abbrev behind : DiskSlice S → ℕ → DiskSlice S
  behind d n = record {
    offset = d.offset + got_len d n;
    inner = c.fetched (c.sought d.inner (w.begin + d.offset)) (got_len d n);
  }

  module _ (fits : Fits c w) (one : 0 < w.mirrors) where
    in_storage : (s : S) → w.begin + w.size ≤ c.size s
    in_storage s = grind (arith, fits s)

    slice-bytes :
        (d : DiskSlice S) (n : ℕ)
        → d.offset + n ≤ w.size
        → slice (c.byte d.inner) (w.begin + d.offset) n ≡ slice (bytes d) d.offset n
    slice-bytes d n h =
        slice-shift (c.byte d.inner) (bytes d) w.begin d.offset n
          (λ x l. ground (arith, lt→ltb x w.size))

    read_lem :
        (d : DiskSlice S) (n : ℕ)
        → d.offset ≤ w.size
        → (read storage w n d ≡ (ok (slice (bytes d) d.offset (got_len d n)), behind d n))
          × (got_len d n ≤ n)
          × (d.offset + got_len d n ≤ w.size)
    unfolding read on_inner skip
    read_lem d n h =
        let p = w.begin + d.offset in
        let t = c.sought d.inner p in
        let m = min n (w.size - d.offset) in
        let fit : c.pos t + m ≤ c.size t =
          omega (arith, in_storage d.inner, c.pos-sought d.inner p, c.size-sought d.inner p) in
        let le = k.chunk_le t m in
        let e : slice (c.byte t) (c.pos t) (got_len d n) ≡ slice (bytes d) d.offset (got_len d n) =
          rw (c.byte-sought, c.pos-sought) (slice-bytes d (got_len d n) (omega arith)) in
        (
          rw (
            c.seek_in d.inner p (omega (arith, in_storage d.inner)),
            k.read_chunk t m fit,
            length-slice,
            e,
          ),
          omega arith,
          omega arith,
        )

    byte-behind : (d : DiskSlice S) (n : ℕ) → bytes (behind d n) ≡ bytes d
    byte-behind d n =
        ap {B = ℕ → ℕ} (λ f x. if ltb x w.size then f (w.begin + x) else 0)
          (c.byte-fetched _ _ ∙ c.byte-sought d.inner (w.begin + d.offset))

    got_len_pos : (d : DiskSlice S) (n : ℕ) → 0 < n → d.offset < w.size → 0 < got_len d n
    got_len_pos d n h l =
        let p = w.begin + d.offset in
        k.chunk_pos (c.sought d.inner p) (min n (w.size - d.offset)) (omega arith)
          (omega (arith, in_storage d.inner, c.pos-sought d.inner p, c.size-sought d.inner p))

    -- The rounds of `read_exact` on a buffer that the window can fill.
    pub read_exact_loop_in :
        (fuel n : ℕ) (acc : List ℕ) (d : DiskSlice S)
        → n < fuel
        → d.offset + n ≤ w.size
        → let r = read_exact_loop (stream storage w) fuel n acc d in
          (r.0 ≡ ok (acc ++ slice (bytes d) d.offset n))
          × (r.1.offset ≡ d.offset + n)
          × (bytes r.1 ≡ bytes d)
          × (c.byte r.1.inner ≡ c.byte d.inner)
    unfolding stream
    read_exact_loop_in zero n acc d h l = absurd (omega arith)
    read_exact_loop_in (suc fuel) zero acc d h l =
        rw (read_done (stream storage w) fuel acc d)
          (ap ok (sym (append-nil acc)), omega arith, refl, refl)
    read_exact_loop_in (suc fuel) (suc n) acc d h l =
        let g = got_len d (suc n) in
        let (e, le, in_w) = read_lem d (suc n) (omega arith) in
        let here = slice (bytes d) d.offset g in
        let more = got_len_pos d (suc n) (omega arith) (omega arith) in
        let len : length here ≡ g = length-slice (bytes d) d.offset g in
        let (r, o, b, kept) =
          read_exact_loop_in fuel (suc n - g) (acc ++ here) (behind d (suc n)) (omega arith)
            (omega arith) in
        let all : here ++ slice (bytes d) (d.offset + g) (suc n - g)
            ≡ slice (bytes d) d.offset (suc n) =
          slice-add (bytes d) d.offset g (suc n - g)
          ∙ ap (slice (bytes d) d.offset) {y = suc n} (omega arith) in
        let bb = byte-behind d (suc n) in
        rw
          (
            read_round (stream storage w) fuel (suc n) acc here d (behind d (suc n)) e (omega arith)
                (rw len more),
            len,
          )
          (
            r ∙ ap ok (rw bb (append_assoc acc here _ ∙ ap (λ t. acc ++ t) all)),
            o ∙ omega arith,
            b ∙ bb,
            kept ∙ c.byte-fetched _ g ∙ c.byte-sought d.inner (w.begin + d.offset),
          )

    -- On a buffer that it cannot fill, `read_exact` fails at the end of the window.
    pub read_exact_loop_out :
        (fuel n : ℕ) (acc : List ℕ) (d : DiskSlice S)
        → n < fuel
        → d.offset ≤ w.size
        → w.size < d.offset + n
        → (read_exact_loop (stream storage w) fuel n acc d).0 ≡ err unexpected_eof
    unfolding stream
    read_exact_loop_out zero n acc d h o l = absurd (omega arith)
    read_exact_loop_out (suc fuel) zero acc d h o l = absurd (omega arith)
    read_exact_loop_out (suc fuel) (suc n) acc d h o l =
        let g = got_len d (suc n) in
        let (e, le, in_w) = read_lem d (suc n) o in
        let here = slice (bytes d) d.offset g in
        let len : length here ≡ g = length-slice (bytes d) d.offset g in
        elim (Bool-cases (ltb 0 g)) [
          | inl more ↦
              rw
                (
                  read_round (stream storage w) fuel (suc n) acc here d (behind d (suc n)) e
                      (omega arith) (rw len (ltb→lt 0 g more)),
                  len,
                )
                (read_exact_loop_out fuel (suc n - g) (acc ++ here) (behind d (suc n))
                  (ground arith) (omega arith) (omega arith))
          | inr none_left ↦
              let z : g ≡ 0 = ground arith in
              ap (λ (q : _). q.0)
                (read_end (stream storage w) fuel (suc n) acc d (behind d (suc n)) (e ∙ rw z)
                  (omega arith))
        ]
