-- ===== src/Time/Codec.antt =====
-- time.rs: the packed words of a date and a time against their fields.
use rust_fatfs.Base.{ℕ, ◌+◌, ◌-◌, ◌*◌, ◌/◌, ◌%◌, ◌^◌, ◌≤◌, ◌<◌, ◌≡◌, refl, ◌∙◌, sym, arith, bit_or}
use rust_fatfs.Base.Bits.{bit_and_mask, bit_or_high_low}
use rust_fatfs.Base.Result.{ok}
use rust_fatfs.Time.{
  Date, Time, new_date, new_time, decode_date, encode_date, decode_time, encode_time, min_year,
  max_year,
}

pub encode_date_sum :
    (y m d : ℕ)
    → min_year ≤ y
    → y ≤ max_year
    → m < 16
    → d < 32
    → encode_date (record { year = y; month = m; day = d }) ≡ (y - min_year) * 512 + m * 32 + d
unfolding encode_date
encode_date_sum y m d h k hm hd =
    let a : bit_or ((y - min_year) * 2 ^ 9) (m * 2 ^ 5) ≡ (y - min_year) * 2 ^ 9 + m * 2 ^ 5 =
      bit_or_high_low 9 (y - min_year) (m * 2 ^ 5) (omega arith) in
    let b : bit_or (((y - min_year) * 16 + m) * 2 ^ 5) d ≡ ((y - min_year) * 16 + m) * 2 ^ 5 + d =
      bit_or_high_low 5 ((y - min_year) * 16 + m) d (omega arith) in
    let p : (y + 2 ^ 16 - min_year) % 2 ^ 16 * 2 ^ 9 % 2 ^ 16 ≡ (y - min_year) * 2 ^ 9 =
      omega arith in
    let q : m * 2 ^ 5 % 2 ^ 16 ≡ m * 2 ^ 5 = omega arith in
    let r : (y - min_year) * 2 ^ 9 + m * 2 ^ 5 ≡ ((y - min_year) * 16 + m) * 2 ^ 5 = omega arith in
    rw (p, q, a, r, b) (omega arith)

new_date-ok :
    (y m d : ℕ) (date : Date)
    → new_date y m d ≡ ok date
    → (record { year = y; month = m; day = d } ≡ date)
      × (min_year ≤ y)
      × (y ≤ max_year)
      × (m ≤ 12)
      × (d ≤ 31)
unfolding new_date
new_date-ok y m d date h = ground arith

-- A date that `Date::new` accepts is packed into a word of 16 bits, which unpacks to that date.
pub decode_date-encode_date :
    (y m d : ℕ) (date : Date)
    → new_date y m d ≡ ok date
    → (encode_date date < 2 ^ 16) × (decode_date (encode_date date) ≡ date)
unfolding decode_date
decode_date-encode_date y m d date h =
    let (e, a, b, c, k) = new_date-ok y m d date h in
    let w = encode_date_sum y m d a b (omega arith) (omega arith) in
    let f = (y - min_year) * 512 + m * 32 + d in
    let year : f / 2 ^ 9 + min_year ≡ y = omega arith in
    let month : f / 2 ^ 5 % 2 ^ 4 ≡ m = omega arith in
    let day : f % 2 ^ 5 ≡ d = omega arith in
    rw (sym e, w, bit_and_mask 4 (f / 2 ^ 5), bit_and_mask 5 f, year, month, day)
      (omega arith, refl)

-- Every word of 16 bits is the packing of the date that it unpacks to, valid or not.
pub encode_date-decode_date : (w : ℕ) → w < 2 ^ 16 → encode_date (decode_date w) ≡ w
unfolding decode_date
encode_date-decode_date w h =
    rw (bit_and_mask 4 (w / 2 ^ 5), bit_and_mask 5 w)
      (encode_date_sum (w / 2 ^ 9 + min_year) (w / 2 ^ 5 % 2 ^ 4) (w % 2 ^ 5) (omega arith)
          (omega arith) (omega arith) (omega arith)
        ∙ omega arith)

pub encode_time_sum :
    (h m s ms : ℕ)
    → h < 32
    → m < 64
    → s < 64
    → ms < 1000
    → encode_time (record { hour = h; min = m; sec = s; millis = ms })
      ≡ (h * 2048 + m * 32 + s / 2, ms / 10 + s % 2 * 100)
unfolding encode_time
encode_time_sum h m s ms a b c d =
    let x : bit_or (h * 2 ^ 11) (m * 2 ^ 5) ≡ h * 2 ^ 11 + m * 2 ^ 5 =
      bit_or_high_low 11 h (m * 2 ^ 5) (omega arith) in
    let y : bit_or ((h * 64 + m) * 2 ^ 5) (s / 2) ≡ (h * 64 + m) * 2 ^ 5 + s / 2 =
      bit_or_high_low 5 (h * 64 + m) (s / 2) (omega arith) in
    let p : h * 2 ^ 11 % 2 ^ 16 ≡ h * 2 ^ 11 = omega arith in
    let q : m * 2 ^ 5 % 2 ^ 16 ≡ m * 2 ^ 5 = omega arith in
    let r : h * 2 ^ 11 + m * 2 ^ 5 ≡ (h * 64 + m) * 2 ^ 5 = omega arith in
    let low : (ms / 10 + s % 2 * 100) % 2 ^ 16 % 2 ^ 8 ≡ ms / 10 + s % 2 * 100 = omega arith in
    let high : (h * 64 + m) * 2 ^ 5 + s / 2 ≡ h * 2048 + m * 32 + s / 2 = omega arith in
    rw (p, q, x, r, y, low, high) refl

new_time-ok :
    (h m s ms : ℕ) (time : Time)
    → new_time h m s ms ≡ ok time
    → (record { hour = h; min = m; sec = s; millis = ms } ≡ time)
      × (h ≤ 23)
      × (m ≤ 59)
      × (s ≤ 59)
      × (ms ≤ 999)
unfolding new_time
new_time-ok h m s ms time q = ground arith

-- A time that `Time::new` accepts is packed into a word of 16 bits and a byte below 200, which
-- unpack to that time with the milliseconds rounded down to a multiple of 10.
pub decode_time-encode_time :
    (h m s ms : ℕ) (time : Time)
    → new_time h m s ms ≡ ok time
    → let w = encode_time time in
      (w.0 < 2 ^ 16)
      × (w.1 < 200)
      × (decode_time w.0 w.1 ≡ record time { millis = time.millis / 10 * 10 })
unfolding decode_time
decode_time-encode_time h m s ms time q =
    let (e, a, b, c, d) = new_time-ok h m s ms time q in
    let w = encode_time_sum h m s ms (omega arith) (omega arith) (omega arith) (omega arith) in
    let f = h * 2048 + m * 32 + s / 2 in
    let g = ms / 10 + s % 2 * 100 in
    let hour : f / 2 ^ 11 ≡ h = omega arith in
    let min : f / 2 ^ 5 % 2 ^ 6 ≡ m = omega arith in
    let sec : f % 2 ^ 5 * 2 + g / 100 ≡ s = omega arith in
    let millis : g % 100 ≡ ms / 10 = omega arith in
    rw (sym e, w, bit_and_mask 6 (f / 2 ^ 5), bit_and_mask 5 f, hour, min, sec, millis)
      (omega arith, omega arith, refl)

-- A word of 16 bits and a byte below 200 are the packing of the time that they unpack to.
pub encode_time-decode_time :
    (w r : ℕ) → w < 2 ^ 16 → r < 200 → encode_time (decode_time w r) ≡ (w, r)
unfolding decode_time
encode_time-decode_time w r a b =
    let high : w / 2 ^ 11 * 2048 + w / 2 ^ 5 % 2 ^ 6 * 32 + (w % 2 ^ 5 * 2 + r / 100) / 2 ≡ w =
      omega arith in
    let low : r % 100 * 10 / 10 + (w % 2 ^ 5 * 2 + r / 100) % 2 * 100 ≡ r = omega arith in
    rw (bit_and_mask 6 (w / 2 ^ 5), bit_and_mask 5 w)
      (encode_time_sum (w / 2 ^ 11) (w / 2 ^ 5 % 2 ^ 6) (w % 2 ^ 5 * 2 + r / 100) (r % 100 * 10)
          (omega arith) (omega arith) (omega arith) (omega arith)
        ∙ rw (high, low) refl)
