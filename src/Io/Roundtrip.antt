-- ===== src/Io/Roundtrip.antt =====
-- Bytes that have been put into an array, and are taken from there.
use rust_fatfs.Base.{ℕ, zero, suc, ◌+◌, ◌≤◌, ◌<◌, ◌≡◌, refl, ◌∙◌, ap, arith, List, [], ◌∷◌, length}
use rust_fatfs.Io.Contract.{slice, patch}

patch-head : (f : ℕ → ℕ) (p : ℕ) (bs : List ℕ) (i : ℕ) → i < p → patch f p bs i ≡ f i
patch-head f p [] i h = refl
patch-head f p (b ∷ bs) i h = ground (arith, patch-head f (p + 1) bs i)

slice_agree : (f g : ℕ → ℕ) (p n : ℕ) → ((i : ℕ) → p ≤ i → f i ≡ g i) → slice f p n ≡ slice g p n
slice_agree f g p zero h = refl
slice_agree f g p (suc n) h =
    rw (h p (omega arith))
      (ap (λ t. g p ∷ t) (slice_agree f g (p + 1) n (λ i l. h i (omega arith))))

pub slice-patch : (f : ℕ → ℕ) (p : ℕ) (bs : List ℕ) → slice (patch f p bs) p (length bs) ≡ bs
slice-patch f p [] = refl
slice-patch f p (b ∷ bs) =
    let here : patch f p (b ∷ bs) p ≡ b = ground arith in
    rw here (
      ap (λ t. b ∷ t)
        (slice_agree (patch f p (b ∷ bs)) (patch f (p + 1) bs) (p + 1) (length bs)
            (λ i l. ground arith)
          ∙ slice-patch f (p + 1) bs))
