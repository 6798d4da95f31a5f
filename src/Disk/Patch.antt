-- ===== src/Disk/Patch.antt =====
-- Where bytes that are put over others can be seen.
use rust_fatfs.Base.{ℕ, ◌+◌, ◌*◌, ◌≤◌, ◌<◌, ◌≡◌, refl, arith, List, [], ◌∷◌, length}
use rust_fatfs.Io.Contract.{patch}

pub patch_at :
    (f g : ℕ → ℕ) (p : ℕ) (bs : List ℕ) (x : ℕ) → f x ≡ g x → patch f p bs x ≡ patch g p bs x
patch_at f g p [] x h = h
patch_at f g p (b ∷ bs) x h = ground (arith, patch_at f g (p + 1) bs x h)

pub patch_below : (f : ℕ → ℕ) (p : ℕ) (bs : List ℕ) (x : ℕ) → x < p → patch f p bs x ≡ f x
patch_below f p [] x h = refl
patch_below f p (b ∷ bs) x h = ground (arith, patch_below f (p + 1) bs x)

pub patch_above :
    (f : ℕ → ℕ) (p : ℕ) (bs : List ℕ) (x : ℕ) → p + length bs ≤ x → patch f p bs x ≡ f x
patch_above f p [] x h = refl
patch_above f p (b ∷ bs) x h = ground (arith, patch_above f (p + 1) bs x)

pub patch-shift :
    (f : ℕ → ℕ) (a p : ℕ) (bs : List ℕ) (x : ℕ)
    → patch f (a + p) bs (a + x) ≡ patch (λ y. f (a + y)) p bs x
patch-shift f a p [] x = refl
patch-shift f a p (b ∷ bs) x =
    let e : a + p + 1 ≡ a + (p + 1) = omega arith in
    rw e (rw (patch-shift f a (p + 1) bs x) (ground arith))

pub rows_apart : (i j size x : ℕ) → j < i → x < size → j * size + x < i * size
rows_apart i j size x h k = grind arith

pub rows_le : (i m size : ℕ) → i < m → i * size + size ≤ m * size
rows_le i m size h = grind arith
