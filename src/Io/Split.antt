-- ===== src/Io/Split.antt =====
-- io.rs: `read_exact` and `write_all` on a storage that moves a part of what is asked for in a call.
use rust_fatfs.Base.{
  ℕ, zero, suc, ◌+◌, ◌-◌, ◌≤◌, ◌<◌, ◌≡◌, refl, sym, ap, ◌∙◌, arith, List, [], ◌∷◌, ◌++◌, length,
  All, take, drop, append-nil, length-drop, Bool-cases, inl, inr, ◌==◌, ==→eq,
}
use rust_fatfs.Base.Result.{Result, ok, ◌>>◌}
use rust_fatfs.Io.{
  Stream, read_exact, read_exact_loop, write_all, write_all_loop, after_write, seek_start,
  interruptions,
}
use rust_fatfs.Io.Contract.{IsByte, slice, patch}
use rust_fatfs.Io.Rounds.{read_round, read_done}
use rust_fatfs.Io.Roundtrip.{slice-patch}
use rust_fatfs.Disk.Chunks.{length-slice, slices_join}
use rust_fatfs.Disk.Patch.{patch_at, patch_below}
use mathlib.Core.Path.{fun_ext}

-- An array of bytes with a position. A call of `read` or `write` within it moves at least a byte and
-- at most what it is asked for.
pub record IsStorage {S : Type 0} (stream : Stream S) : Type 0 where
  pub size : S → ℕ
  pub byte : S → ℕ → ℕ
  pub pos : S → ℕ
  pub seek_in :
      (s : S) (p : ℕ)
      → p ≤ size s
      → (s' : S) × (seek_start stream p s ≡ (ok p, s'))
        × (size s' ≡ size s)
        × (pos s' ≡ p)
        × (byte s' ≡ byte s)
  pub read_some :
      (s : S) (n : ℕ)
      → 0 < n
      → pos s + n ≤ size s
      → (k : ℕ) × ((s' : S) × (stream.read n s ≡ (ok (slice (byte s) (pos s) k), s'))
          × (0 < k)
          × (k ≤ n)
          × (size s' ≡ size s)
          × (pos s' ≡ pos s + k)
          × (byte s' ≡ byte s))
  pub write_some :
      (s : S) (bs : List ℕ)
      → 0 < length bs
      → pos s + length bs ≤ size s
      → All IsByte bs
      → (k : ℕ) × ((s' : S) × (stream.write bs s ≡ (ok k, s'))
          × (0 < k)
          × (k ≤ length bs)
          × (size s' ≡ size s)
          × (pos s' ≡ pos s + k)
          × (byte s' ≡ patch (byte s) (pos s) (take k bs)))

patch_rest :
    (f : ℕ → ℕ) (p k : ℕ) (bs : List ℕ) (x : ℕ)
    → k ≤ length bs
    → patch (patch f p (take k bs)) (p + k) (drop k bs) x ≡ patch f p bs x
patch_rest f p zero bs x h = ap (λ q. patch f q bs x) (omega arith)
patch_rest f p (suc k) [] x h = absurd (omega arith)
patch_rest f p (suc k) (b ∷ bs) x h = elim (Bool-cases (p == x)) [
  | inl here ↦
      let at : p ≡ x = ==→eq p x here in
      patch_below (patch f p (b ∷ take k bs)) (p + suc k) (drop k bs) x (omega arith) ∙ rw here refl
  | inr away ↦
      let next : p + suc k ≡ p + 1 + k = omega arith in
      patch_at (patch f p (b ∷ take k bs)) (patch f (p + 1) (take k bs)) (p + suc k) (drop k bs) x
        (rw away refl)
      ∙ ap (λ q. patch (patch f (p + 1) (take k bs)) q (drop k bs) x) next
      ∙ patch_rest f (p + 1) k bs x (omega arith)
      ∙ rw away refl
]

All-drop : (k : ℕ) (bs : List ℕ) → All IsByte bs → All IsByte (drop k bs)
All-drop zero bs h = h
All-drop (suc k) [] h = h
All-drop (suc k) (b ∷ bs) h = All-drop k bs h.1

write_round :
    {S : Type 0} (stream : Stream S) (fuel b : ℕ) (bs : List ℕ) (k : ℕ) (s s1 : S)
    → 0 < k
    → stream.write (b ∷ bs) s ≡ (ok k, s1)
    → write_all_loop stream (suc fuel) (b ∷ bs) s ≡ write_all_loop stream fuel (drop k (b ∷ bs)) s1
unfolding write_all_loop after_write
write_round stream fuel b bs zero s s1 some_bytes e = absurd (omega arith)
write_round stream fuel b bs (suc k) s s1 some_bytes e = rw e refl

module _ {S : Type 0} {stream : Stream S} (c : IsStorage stream) where
  open c use {size, byte, pos}

  read_loop :
      (fuel n : ℕ) (acc : List ℕ) (s : S)
      → n < fuel
      → pos s + n ≤ size s
      → (s' : S) × (read_exact_loop stream fuel n acc s
          ≡ (ok (acc ++ slice (byte s) (pos s) n), s'))
  read_loop zero n acc s more room = absurd (omega arith)
  read_loop (suc fuel) zero acc s more room = (
    s,
    read_done stream fuel acc s
        ∙ ap (λ (bs : List ℕ). let r : Result (List ℕ) = ok bs in (r, s)) (sym (append-nil acc)),
  )
  read_loop (suc fuel) (suc m) acc s more room =
      let n = suc m in
      let (k, (s1, e, some_bytes, le, sz, at, same)) = c.read_some s n (omega arith) room in
      let bytes = slice (byte s) (pos s) k in
      let size_k : length bytes ≡ k = length-slice (byte s) (pos s) k in
      let (s', rest) = read_loop fuel (n - k) (acc ++ bytes) s1 (omega arith) (omega arith) in
      (
        s',
        read_round stream fuel n acc bytes s s1 e (omega arith) (omega arith)
            ∙ ap (λ (l : ℕ). read_exact_loop stream fuel (n - l) (acc ++ bytes) s1) size_k
            ∙ rest
            ∙ ap (λ (bs : List ℕ). let r : Result (List ℕ) = ok bs in (r, s'))
                (ap (λ f. (acc ++ bytes) ++ slice f (pos s1) (n - k)) same
                  ∙ slices_join (byte s) (pos s) (pos s1) k n acc at le),
      )

  write_loop :
      (fuel : ℕ) (bs : List ℕ) (s : S)
      → length bs < fuel
      → pos s + length bs ≤ size s
      → All IsByte bs
      → (s' : S) × (write_all_loop stream fuel bs s ≡ (ok tt, s'))
        × (size s' ≡ size s)
        × (byte s' ≡ patch (byte s) (pos s) bs)
  unfolding write_all_loop after_write
  write_loop zero bs s more room bytes = absurd (omega arith)
  write_loop (suc fuel) [] s more room bytes = (s, refl, refl, refl)
  write_loop (suc fuel) (b ∷ bs) s more room bytes =
      let (k, (s1, e, some_bytes, le, sz, at, put)) =
        c.write_some s (b ∷ bs) (omega arith) room bytes in
      let (s', rest, sz', put') =
        write_loop fuel (drop k (b ∷ bs)) s1 (omega (arith, length-drop k (b ∷ bs)))
          (omega (arith, length-drop k (b ∷ bs))) (All-drop k (b ∷ bs) bytes) in
      (
        s',
        write_round stream fuel b bs k s s1 some_bytes e ∙ rest,
        sz' ∙ sz,
        put'
            ∙ ap (λ f. patch f (pos s1) (drop k (b ∷ bs))) put
            ∙ ap (λ q. patch (patch (byte s) (pos s) (take k (b ∷ bs))) q (drop k (b ∷ bs))) at
            ∙ fun_ext (λ x. patch_rest (byte s) (pos s) k (b ∷ bs) x le),
      )

  -- On every storage that moves at least a byte in a call within it, however few it moves: bytes that
  -- fit behind a position and are written there by `write_all` are read back by `read_exact`.
  pub read_exact-write_all :
      (s : S) (p : ℕ) (bs : List ℕ)
      → p + length bs ≤ size s
      → All IsByte bs
      → ((do
        seek_start stream p
        write_all stream bs
        seek_start stream p
        read_exact stream (length bs))
          s).0
        ≡ ok bs
  unfolding write_all read_exact
  read_exact-write_all s p bs room bytes =
      let (s1, e1, sz1, at1, same1) = c.seek_in s p (omega arith) in
      let (s2, e2, sz2, put) =
        write_loop (length bs + suc interruptions) bs s1 (omega arith) (omega arith) bytes in
      let (s3, e3, sz3, at3, same3) = c.seek_in s2 p (omega arith) in
      let (s4, e4) =
        read_loop (length bs + suc interruptions) (length bs) [] s3 (omega arith) (omega arith) in
      rw (e1, e2, e3, e4)
        (ap ok (
          ap (λ f. slice f (pos s3) (length bs)) (same3 ∙ put)
          ∙ ap (λ q. slice (patch (byte s1) (pos s1) bs) q (length bs)) (at3 ∙ sym at1)
          ∙ slice-patch (byte s1) (pos s1) bs))
