-- ===== src/ShortName/Unused.antt =====
-- The short name that is generated for a new entry is used by no entry of the directory.
use rust_fatfs.Base.{
  ℕ, zero, suc, ◌+◌, ◌^◌, ◌≤◌, ◌<◌, ◌≡◌, ◌≢◌, refl, sym, ◌∙◌, arith, bit_and, List, [], ◌∷◌, true,
  false, Bool-cases, ==→eq, inl, inr, some, none, Option, ◌==◌, ◌&&◌, not, All,
}
use mathlib.Core.Path.{subst}
use rust_fatfs.Base.Result.{ok}
use rust_fatfs.ShortName.{ShortNameGenerator}
use rust_fatfs.ShortName.Generator.{
  build_prefixed_name, check_for_exact_match, check_for_long_prefix_collision,
  check_for_short_prefix_collision, add_existing, add_all, first_unset, numbered, generate,
}
use rust_fatfs.ShortName.Bitmap.{bit, bit_and-bit}
use rust_fatfs.ShortName.Prefixed.{IsShaped}
use rust_fatfs.ShortName.Collision.{
  Keeps, Keeps-refl, Keeps-trans, Keeps-IsShaped, add_existing-Keeps, exact-Keeps, long-Keeps,
  short-Keeps, build_prefixed_name_same, marked_long, marked_short, exact_marked,
}

-- A generator that has seen the name `e`.
pub record Marks (g : ShortNameGenerator) (e : List ℕ) : Type 0 where
  pub exact : e ≡ g.short_name → g.exact_match ≡ true
  pub long :
      (num : ℕ) → num < 10 → e ≡ build_prefixed_name g num false → bit num g.long_prefix_bitmap ≡ 1
  pub short :
      (num : ℕ) → num < 10 → e ≡ build_prefixed_name g num true → bit num g.prefix_chksum_bitmap ≡ 1

Keeps-Marks : {g g' : ShortNameGenerator} (e : List ℕ) → Keeps g g' → Marks g e → Marks g' e
Keeps-Marks e k m = record {
  exact = λ h. k.exact (m.exact (h ∙ k.name));
  long = λ num small h.
      let old = m.long num small (h ∙ build_prefixed_name_same k num false) in
      omega (arith, k.long num, old);
  short = λ num small h.
      let old = m.short num small (h ∙ build_prefixed_name_same k num true) in
      omega (arith, k.short num, old);
}

add_existing-Marks : (g : ShortNameGenerator) (e : List ℕ) → IsShaped g → Marks (add_existing g e) e
unfolding add_existing
add_existing-Marks g e z =
    let g1 = check_for_exact_match g e in
    let g2 = check_for_long_prefix_collision g1 e in
    let k1 = exact-Keeps g e in
    let k2 = long-Keeps g1 e in
    let k3 = short-Keeps g2 e in
    let k = Keeps-trans k1 (Keeps-trans k2 k3) in
    record {
      exact = λ h. k3.exact (k2.exact (exact_marked g e (h ∙ k.name)));
      long = λ num small h.
          let same : e ≡ build_prefixed_name g1 num false =
            h ∙ build_prefixed_name_same (Keeps-trans k2 k3) num false in
          let marked =
            subst (λ t. bit num (check_for_long_prefix_collision g1 t).long_prefix_bitmap ≡ 1)
              (sym same) (marked_long g1 (Keeps-IsShaped k1 z) num small) in
          omega (arith, k3.long num, marked);
      short = λ num small h.
          let same : e ≡ build_prefixed_name g2 num true =
            h ∙ build_prefixed_name_same k3 num true in
          subst (λ t. bit num (check_for_short_prefix_collision g2 t).prefix_chksum_bitmap ≡ 1)
            (sym same) (marked_short g2 (Keeps-IsShaped (Keeps-trans k1 k2) z) num small);
    }

pub add_all-Keeps : (g : ShortNameGenerator) (es : List (List ℕ)) → Keeps g (add_all g es)
unfolding add_all
add_all-Keeps g [] = Keeps-refl g
add_all-Keeps g (e ∷ es) =
    Keeps-trans (add_existing-Keeps g e) (add_all-Keeps (add_existing g e) es)

add_all-Marks :
    (g : ShortNameGenerator) (es : List (List ℕ)) → IsShaped g → All (Marks (add_all g es)) es
unfolding add_all
add_all-Marks g [] z = tt
add_all-Marks g (e ∷ es) z =
    let g' = add_existing g e in
    let k = add_existing-Keeps g e in
    (
      Keeps-Marks e (add_all-Keeps g' es) (add_existing-Marks g e z),
      add_all-Marks g' es (Keeps-IsShaped k z),
    )

-- The number that is found is in the range of the loop, and its bit is not set.
pub first_unset-some :
    (rounds i bitmap num : ℕ)
    → first_unset rounds i bitmap ≡ some num
    → (i ≤ num) × (num < i + rounds) × (bit num bitmap ≡ 0)
unfolding first_unset
first_unset-some zero i bitmap num h = absurd (cc)
first_unset-some (suc rounds) i bitmap num h = elim (Bool-cases (bit_and bitmap (2 ^ i) == 0)) [
  | inl free ↦
      let same : some i ≡ some num = rw free at h in
      let unset = bit_and-bit i bitmap (==→eq (bit_and bitmap (2 ^ i)) 0 free) in
      ground (arith, same, unset)
  | inr taken ↦
      let rest = first_unset-some rounds (i + 1) bitmap num (rw taken at h) in
      (omega arith, omega arith, rest.2)
]

-- What `generate` gives is the name itself, unmatched, or a numbered one that has no mark.
numbered_ne :
    (g : ShortNameGenerator) (s e : List ℕ) (o p : Option ℕ)
    → first_unset 4 1 g.long_prefix_bitmap ≡ o
    → first_unset 9 1 g.prefix_chksum_bitmap ≡ p
    → numbered g o p ≡ ok s
    → Marks g e
    → e ≢ s
unfolding numbered
numbered_ne g s e (some i) p ho hp h m same =
    let free = first_unset-some 4 1 g.long_prefix_bitmap i ho in
    let name : build_prefixed_name g i false ≡ s = cc in
    let marked = m.long i (omega arith) (same ∙ sym name) in absurd (omega arith)
numbered_ne g s e none (some i) ho hp h m same =
    let free = first_unset-some 9 1 g.prefix_chksum_bitmap i hp in
    let name : build_prefixed_name g i true ≡ s = cc in
    let marked = m.short i (omega arith) (same ∙ sym name) in absurd (omega arith)
numbered_ne g s e none none ho hp h m same = cc

generate_ne : (g : ShortNameGenerator) (s e : List ℕ) → generate g ≡ ok s → Marks g e → e ≢ s
unfolding generate
generate_ne g s e h m = elim (Bool-cases (not g.lossy_conv && g.name_fits && not g.exact_match)) [
  | inl plain ↦ λ same.
      let name : g.short_name ≡ s = (let h' : ok g.short_name ≡ ok s = rw plain at h in cc) in
      let exact = m.exact (same ∙ sym name) in absurd (ground arith)
  | inr other ↦ numbered_ne g s e _ _ refl refl (rw other at h) m
]

All-map :
    {A : Type 0} (P Q : A → Type 0) (f : (a : A) → P a → Q a) (xs : List A) → All P xs → All Q xs
All-map P Q f [] h = tt
All-map P Q f (x ∷ xs) h = (f x h.0, All-map P Q f xs h.1)

-- From any state of the generator with a name of 11 bytes: once it has been given the short names
-- of a directory, the name that it generates, if it generates one, is none of them.
pub generate_unused :
    (g : ShortNameGenerator) (existing : List (List ℕ)) (name : List ℕ)
    → IsShaped g
    → generate (add_all g existing) ≡ ok name
    → All (λ e. e ≢ name) existing
generate_unused g existing name z h =
    All-map (Marks (add_all g existing)) (λ e. e ≢ name)
      (λ e m. generate_ne (add_all g existing) name e h m) existing (add_all-Marks g existing z)
