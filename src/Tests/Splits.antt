-- ===== src/Tests/Splits.antt =====
-- A storage in memory that moves three bytes in a call at most, and the theorem on io.rs there.
use rust_fatfs.Base.{
  ℕ, ◌+◌, ◌-◌, ◌≤◌, ◌<◌, ◌≡◌, refl, arith, List, [], ◌∷◌, length, All, min, take, take-length, ap,
  ◌∙◌, sym,
}
use rust_fatfs.Base.Result.{ok, ◌>>◌}
use rust_fatfs.Io.{Stream, read_exact, write_all, seek_start}
use rust_fatfs.Io.Contract.{IsByte, patch}
use rust_fatfs.Io.Split.{IsStorage, read_exact-write_all}
use rust_fatfs.Memory
use rust_fatfs.Memory.{memory}

abbrev slow : Stream Memory.Memory
slow = record {
  read = λ n. (memory 64).read (min n 3);
  write = λ bs. (memory 64).write (take 3 bs);
  seek = (memory 64).seek;
}

take_three : (bs : List ℕ) → take (length (take 3 bs)) bs ≡ take 3 bs
take_three [] = refl
take_three (a ∷ []) = refl
take_three (a ∷ b ∷ []) = refl
take_three (a ∷ b ∷ c ∷ rest) = refl

length-take_three :
    (bs : List ℕ) → 0 < length bs → (0 < length (take 3 bs)) × (length (take 3 bs) ≤ length bs)
length-take_three [] h = absurd (omega arith)
length-take_three (a ∷ []) h = (omega arith, omega arith)
length-take_three (a ∷ b ∷ []) h = (omega arith, omega arith)
length-take_three (a ∷ b ∷ c ∷ rest) h = (omega arith, omega arith)

All-take_three : (bs : List ℕ) → All IsByte bs → All IsByte (take 3 bs)
All-take_three [] h = h
All-take_three (a ∷ []) h = h
All-take_three (a ∷ b ∷ []) h = h
All-take_three (a ∷ b ∷ c ∷ rest) h = (h.0, (h.1.0, (h.1.1.0, tt)))

unfoldable slow-IsStorage : IsStorage slow
unfolding memory Memory.read Memory.write
slow-IsStorage = record {
  size = λ s. 64;
  byte = Memory.content;
  pos = λ s. s.at;
  seek_in = λ s p h. (Memory.moved s p, Memory.seek_in 64 s p h, refl, refl, refl);
  read_some = λ s n h room.
      let whole : min (min n 3) (64 - s.at) ≡ min n 3 = omega arith in
      (
        min n 3,
        (
          Memory.moved s (s.at + min n 3),
          rw whole refl,
          omega arith,
          omega arith,
          refl,
          refl,
          refl,
        ),
      );
  write_some = λ s bs some_bytes room bytes.
      let cs = take 3 bs in
      let (pos, le) = length-take_three bs some_bytes in
      let whole : min (length cs) (64 - s.at) ≡ length cs = omega arith in
      (
        length cs,
        (
          Memory.filled s cs,
          rw (whole, take-length) refl,
          pos,
          le,
          refl,
          refl,
          Memory.content-filled 64 s cs (All-take_three bs bytes)
              ∙ ap (patch (Memory.content s) s.at) (sym (take_three bs)),
        ),
      );
}

abbrev image : Memory.Memory
image = record { cells = λ i. 0; at = 0 }

read_exact-write_all_example :
    ((do
      seek_start slow 8
      write_all slow (1 ∷ 2 ∷ 3 ∷ 4 ∷ 5 ∷ 6 ∷ 7 ∷ [])
      seek_start slow 8
      read_exact slow 7)
      image).0
    ≡ ok (1 ∷ 2 ∷ 3 ∷ 4 ∷ 5 ∷ 6 ∷ 7 ∷ [])
unfolding slow-IsStorage
read_exact-write_all_example =
    read_exact-write_all slow-IsStorage image 8 (1 ∷ 2 ∷ 3 ∷ 4 ∷ 5 ∷ 6 ∷ 7 ∷ []) (omega arith)
      (omega arith)
