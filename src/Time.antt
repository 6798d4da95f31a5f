-- ===== src/Time.antt =====
-- time.rs: the dates and times of directory entries.
pub mod Codec
use rust_fatfs.Base.{ℕ, ◌+◌, ◌-◌, ◌*◌, ◌/◌, ◌%◌, ◌^◌, bit_and, bit_or}
use rust_fatfs.Base.{Bool, true, false, ◌&&◌, leb, if◌then◌else◌}
use rust_fatfs.Base.Result.{Result, ok, panic}

abbrev pub min_year : ℕ
min_year = 1980

abbrev pub max_year : ℕ
max_year = 2107

abbrev pub min_month : ℕ
min_month = 1

abbrev pub max_month : ℕ
max_month = 12

abbrev pub min_day : ℕ
min_day = 1

abbrev pub max_day : ℕ
max_day = 31

pub record Date : Type 0 where
  pub year : ℕ
  pub month : ℕ
  pub day : ℕ

pub record Time : Type 0 where
  pub hour : ℕ
  pub min : ℕ
  pub sec : ℕ
  pub millis : ℕ

pub record DateTime : Type 0 where
  pub date : Date
  pub time : Time

-- `Date::new`: the three assertions.
unfoldable pub new_date : ℕ → ℕ → ℕ → Result Date
new_date year month day =
    if leb min_year year && leb year max_year
    then if leb min_month month && leb month max_month
      then if leb min_day day && leb day max_day
        then ok (record { year = year; month = month; day = day })
        else panic
      else panic
    else panic

-- `Date::decode`
unfoldable pub decode_date : ℕ → Date
decode_date dos_date = record {
  year = dos_date / 2 ^ 9 + min_year;
  month = bit_and (dos_date / 2 ^ 5) 0xF;
  day = bit_and dos_date 0x1F;
}

-- `Date::encode`, on a `u16`: the difference and the shifts wrap around.
unfoldable pub encode_date : Date → ℕ
encode_date d =
    bit_or
      (bit_or ((d.year + 2 ^ 16 - min_year) % 2 ^ 16 * 2 ^ 9 % 2 ^ 16) (d.month * 2 ^ 5 % 2 ^ 16))
      d.day

-- `Time::new`
unfoldable pub new_time : ℕ → ℕ → ℕ → ℕ → Result Time
new_time hour min sec millis =
    if leb hour 23
    then if leb min 59
      then if leb sec 59
        then if leb millis 999
          then ok (record { hour = hour; min = min; sec = sec; millis = millis })
          else panic
        else panic
      else panic
    else panic

-- `Time::decode`
unfoldable pub decode_time : ℕ → ℕ → Time
decode_time dos_time dos_time_hi_res = record {
  hour = dos_time / 2 ^ 11;
  min = bit_and (dos_time / 2 ^ 5) 0x3F;
  sec = bit_and dos_time 0x1F * 2 + dos_time_hi_res / 100;
  millis = dos_time_hi_res % 100 * 10;
}

-- `Time::encode`: a `u16` and a `u8`.
unfoldable pub encode_time : Time → ℕ × ℕ
encode_time t = (
  bit_or (bit_or (t.hour * 2 ^ 11 % 2 ^ 16) (t.min * 2 ^ 5 % 2 ^ 16)) (t.sec / 2),
  (t.millis / 10 + t.sec % 2 * 100) % 2 ^ 16 % 2 ^ 8,
)

-- `DateTime::decode`
unfoldable pub decode_date_time : ℕ → ℕ → ℕ → DateTime
unfolding decode_date decode_time
decode_date_time dos_date dos_time dos_time_hi_res = record {
  date = decode_date dos_date;
  time = decode_time dos_time dos_time_hi_res;
}
