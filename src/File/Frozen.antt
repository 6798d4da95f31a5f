-- ===== src/File/Frozen.antt =====
-- A file system that nothing changes, and the arithmetic of offsets in clusters.
use rust_fatfs.Base.{
  ℕ, zero, suc, ◌+◌, ◌*◌, ◌/◌, ◌%◌, ◌≤◌, ◌<◌, ◌≡◌, refl, sym, ap, ◌∙◌, arith, ◌∷◌, Option, some,
}
use native.Mathlib.Nat.{div-mul-le_self, lt-div-mul-add, div-add-mod'}
use rust_fatfs.Base.Result.{ok}
use rust_fatfs.Io.{seek_start}
use rust_fatfs.Io.Contract.{slice}
use rust_fatfs.File.{Volume}

div_eq : (n c q : ℕ) → 0 < c → q * c ≤ n → n < q * c + c → n / c ≡ q
div_eq n c q pos low high =
    let a = div-mul-le_self n c in
    let b = lt-div-mul-add {a = n} pos in between_products (n / c) q n c a b low high
  where
    between_products : (p q n c : ℕ) → p * c ≤ n → n < p * c + c → q * c ≤ n → n < q * c + c → p ≡ q
    between_products p q n c a b d e = grind arith

-- Within a cluster.
pub div_inside : (n c j : ℕ) → 0 < c → n % c + j < c → (n + j) / c ≡ n / c
div_inside n c j pos h =
    div_eq (n + j) c (n / c) pos (omega (arith, div-add-mod' n c)) (omega (arith, div-add-mod' n c))

pub mod_inside : (n c j : ℕ) → 0 < c → n % c + j < c → (n + j) % c ≡ n % c + j
mod_inside n c j pos h = omega (
  arith,
  div-add-mod' n c,
  div-add-mod' (n + j) c,
  ap (λ (t : ℕ). t * c) (div_inside n c j pos h),
)

-- From one cluster to the next.
div_product : (q m c : ℕ) → 0 < c → q * c ≡ suc m → suc (m / c) ≡ q
div_product zero m c pos h = absurd (omega arith)
div_product (suc q) m c pos h = ap suc (div_eq m c q pos (omega arith) (omega arith))

pub div_next : (m c : ℕ) → 0 < c → suc m % c ≡ 0 → suc m / c ≡ suc (m / c)
div_next m c pos h = sym (div_product (suc m / c) m c pos (omega (arith, div-add-mod' (suc m) c)))

pub div_same : (m c : ℕ) → 0 < c → 0 < suc m % c → suc m / c ≡ m / c
div_same m c pos h = sym (
    div_eq m c (suc m / c) pos (omega (arith, div-add-mod' (suc m) c))
      (let b = lt-div-mul-add {a = suc m} pos in omega arith))

pub slice_eq :
    (f g : ℕ → ℕ) (p q n : ℕ)
    → ((x : ℕ) → x < n → f (p + x) ≡ g (q + x))
    → slice f p n ≡ slice g q n
slice_eq f g p q zero h = refl
slice_eq f g p q (suc n) h =
    let head = h 0 (omega arith) in
    let tail =
      slice_eq f g (p + 1) (q + 1) n
        (λ x l. ap f (omega arith) ∙ h (x + 1) (omega arith) ∙ ap g (omega arith)) in
    rw tail (ap (λ (t : ℕ). t ∷ slice g (q + 1) n) (ap f (omega arith) ∙ head ∙ ap g (omega arith)))

-- A file system that answers from fixed tables and bytes: `link` is the next cluster, `Data` holds
-- of the clusters of the files, `byte` is what the storage has. `Good` states are kept.
pub record Frozen {S : Type 0} (v : Volume S) : Type 1 where
  pub Good : S → Type 0
  pub Data : ℕ → Type 0
  pub link : ℕ → Option ℕ
  pub byte : ℕ → ℕ
  pub walk :
      (s : S) (c : ℕ)
      → Good s
      → Data c
      → (s' : S) × (v.next_cluster c s ≡ (ok (link c), s')) × Good s'
  pub linked : (c d : ℕ) → Data c → link c ≡ some d → Data d
  pub fetch :
      (s : S) (c x n : ℕ)
      → Good s
      → Data c
      → 0 < n
      → x + n ≤ v.cluster_size
      → (q : ℕ) × ((s1 : S) × (seek_start v.disk (v.offset_from_cluster c + x) s ≡ (ok q, s1))
          × ((k : ℕ) × ((s2 : S) × (v.disk.read n s1
                  ≡ (ok (slice byte (v.offset_from_cluster c + x) k), s2))
                × (0 < k)
                × (k ≤ n)
                × Good s2)))
