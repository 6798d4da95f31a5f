-- ===== src/Disk/Chunks.antt =====
-- What a window needs to know of the storage below it, besides the contract of a stream: how a
-- single `read` behaves. It may deliver fewer bytes than asked, but not none.
use rust_fatfs.Base.{
  ap, ◌∙◌, ◌-◌, List, append_assoc, ℕ, zero, suc, ◌+◌, ◌≤◌, ◌<◌, ◌≡◌, refl, ap, arith, ◌∷◌, ◌++◌,
  length,
}
use native.Mathlib.Nat.{add-zero, zero-add}
use rust_fatfs.Base.Result.{ok}
use rust_fatfs.Io.{Stream}
use rust_fatfs.Io.Contract.{IsBytes, slice}

pub record IsChunked {S : Type 0} {storage : Stream S} (c : IsBytes storage) : Type 0 where
  pub chunk : S → ℕ → ℕ
  pub chunk_le : (s : S) (n : ℕ) → chunk s n ≤ n
  pub chunk_pos : (s : S) (n : ℕ) → 0 < n → c.pos s + n ≤ c.size s → 0 < chunk s n
  pub read_chunk :
      (s : S) (n : ℕ)
      → c.pos s + n ≤ c.size s
      → storage.read n s ≡ (ok (slice (c.byte s) (c.pos s) (chunk s n)), c.fetched s (chunk s n))

module _ (f : ℕ → ℕ) where
  pub length-slice : (p n : ℕ) → length (slice f p n) ≡ n
  length-slice p zero = refl
  length-slice p (suc n) = ap suc (length-slice (p + 1) n)

  pub slice-add : (p k n : ℕ) → slice f p k ++ slice f (p + k) n ≡ slice f p (k + n)
  slice-add p zero n = rw (add-zero, zero-add)
  slice-add p (suc k) n =
      let e : p + suc k ≡ p + 1 + k = omega arith in
      let m : suc k + n ≡ suc (k + n) = omega arith in
      rw (e, m) (ap (λ t. f p ∷ t) (slice-add (p + 1) k n))

-- A window on the bytes from `b` on.
pub slice-shift :
    (f g : ℕ → ℕ) (b p n : ℕ)
    → ((x : ℕ) → x < p + n → g x ≡ f (b + x))
    → slice f (b + p) n ≡ slice g p n
slice-shift f g b p zero h = refl
slice-shift f g b p (suc n) h =
    let e : b + p + 1 ≡ b + (p + 1) = omega arith in
    rw (e, slice-shift f g b (p + 1) n (λ x l. h x (omega arith)), h p (omega arith))

-- What has been read, and what comes behind it.
pub slices_join :
    (g : ℕ → ℕ) (p q k n : ℕ) (acc : List ℕ)
    → q ≡ p + k
    → k ≤ n
    → (acc ++ slice g p k) ++ slice g q (n - k) ≡ acc ++ slice g p n
slices_join g p q k n acc at le =
    let whole : k + (n - k) ≡ n = omega arith in
    append_assoc acc (slice g p k) (slice g q (n - k))
    ∙ ap (λ t. acc ++ t) (rw at (slice-add g p k (n - k) ∙ ap (slice g p) whole))
