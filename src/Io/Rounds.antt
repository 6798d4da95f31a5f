-- ===== src/Io/Rounds.antt =====
-- Single rounds of `read_exact` and `write_all`.
use rust_fatfs.Base.{
  ℕ, suc, ◌+◌, ◌-◌, ◌<◌, ◌≡◌, refl, ap, arith, List, [], ◌∷◌, ◌++◌, length, drop, drop-length,
}
use rust_fatfs.Base.Result.{ok, err, unexpected_eof}
use rust_fatfs.Io.{
  Stream, read_exact, read_exact_loop, after_read, write_all, write_all_loop, after_write,
  interruptions,
}

module _ {S : Type 0} (stream : Stream S) where
  pub read_round :
      (fuel n : ℕ) (acc bs : List ℕ) (s s' : S)
      → stream.read n s ≡ (ok bs, s')
      → 0 < n
      → 0 < length bs
      → read_exact_loop stream (suc fuel) n acc s
        ≡ read_exact_loop stream fuel (n - length bs) (acc ++ bs) s'
  unfolding read_exact_loop after_read
  read_round fuel n acc [] s s' e h k = absurd (omega arith)
  read_round fuel n acc (b ∷ bs) s s' e h k = ground arith

  pub read_end :
      (fuel n : ℕ) (acc : List ℕ) (s s' : S)
      → stream.read n s ≡ (ok [], s')
      → 0 < n
      → read_exact_loop stream (suc fuel) n acc s ≡ (err unexpected_eof, s')
  unfolding read_exact_loop after_read
  read_end fuel n acc s s' e h = ground arith

  pub read_done :
      (fuel : ℕ) (acc : List ℕ) (s : S) → read_exact_loop stream (suc fuel) 0 acc s ≡ (ok acc, s)
  unfolding read_exact_loop
  read_done fuel acc s = refl

  write_done : (fuel : ℕ) (s : S) → write_all_loop stream (suc fuel) [] s ≡ (ok tt, s)
  unfolding write_all_loop
  write_done fuel s = refl

  write_nothing :
      (fuel : ℕ) (bs : List ℕ) (s : S)
      → bs ≡ []
      → write_all_loop stream (suc fuel) bs s ≡ (ok tt, s)
  write_nothing fuel bs s e = rw e (write_done fuel s)

  -- A `write` that takes the whole buffer.
  write_round :
      (fuel b : ℕ) (bs : List ℕ) (s s' : S)
      → stream.write (b ∷ bs) s ≡ (ok (length (b ∷ bs)), s')
      → write_all_loop stream (suc (suc fuel)) (b ∷ bs) s ≡ (ok tt, s')
  unfolding write_all_loop after_write
  write_round fuel b bs s s' e = rw e (write_nothing fuel (drop (length bs) bs) s' (drop-length bs))

  -- A `read` that fills the whole buffer.
  pub read_exact_whole :
      (n : ℕ) (bs : List ℕ) (s s' : S)
      → stream.read (suc n) s ≡ (ok bs, s')
      → length bs ≡ suc n
      → read_exact stream (suc n) s ≡ (ok bs, s')
  unfolding read_exact
  read_exact_whole n bs s s' e l =
      let f : suc n + suc interruptions ≡ suc (suc (n + 8)) = omega arith in
      let z : suc n - length bs ≡ 0 = omega arith in
      rw (f, read_round (suc (n + 8)) (suc n) [] bs s s' e (omega arith) (omega arith), z)
        (read_done (n + 8) bs s')

  -- A `read` that comes up short, at the end of the stream.
  pub read_exact_short :
      (n : ℕ) (bs : List ℕ) (s s' : S)
      → stream.read (suc n) s ≡ (ok bs, s')
      → length bs < suc n
      → ((r : ℕ) → stream.read r s' ≡ (ok [], s'))
      → (read_exact stream (suc n) s).0 ≡ err unexpected_eof
  unfolding read_exact
  read_exact_short n bs s s' e l z =
      let f : suc n + suc interruptions ≡ suc (suc (n + 8)) = omega arith in rw f (go bs e l)
    where
      go :
          (cs : List ℕ)
          → stream.read (suc n) s ≡ (ok cs, s')
          → length cs < suc n
          → (read_exact_loop stream (suc (suc (n + 8))) (suc n) [] s).0 ≡ err unexpected_eof
      go [] q l = ap (λ (x : _). x.0) (read_end (suc (n + 8)) (suc n) [] s s' q (omega arith))
      go (c ∷ cs) q l =
          rw (read_round (suc (n + 8)) (suc n) [] (c ∷ cs) s s' q (omega arith) (omega arith)) (
            ap (λ (x : _). x.0)
              (read_end (n + 8) (suc n - length (c ∷ cs)) (c ∷ cs) s' s' (z _) (omega arith)))

  pub write_all_whole :
      (b : ℕ) (bs : List ℕ) (s s' : S)
      → stream.write (b ∷ bs) s ≡ (ok (length (b ∷ bs)), s')
      → write_all stream (b ∷ bs) s ≡ (ok tt, s')
  unfolding write_all
  write_all_whole b bs s s' e =
      let f : length (b ∷ bs) + suc interruptions ≡ suc (suc (length bs + 8)) = omega arith in
      rw f (write_round (length bs + 8) b bs s s' e)

  pub write_all_nothing : (s : S) → write_all stream [] s ≡ (ok tt, s)
  unfolding write_all
  write_all_nothing s = write_done 8 s
