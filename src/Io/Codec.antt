-- ===== src/Io/Codec.antt =====
-- Sequences of fields on a stream of bytes: what `deserialize` and `serialize` functions are made
-- of. A reader takes bytes to a value; a writer puts bytes; a sequence of either takes or puts the
-- bytes of its parts one after the other.
use rust_fatfs.Base.{
  ℕ, suc, ◌+◌, ◌^◌, ◌≤◌, ◌<◌, ◌≡◌, inl, inr, refl, ◌∙◌, arith, ◌==◌, Bool-cases, List, [], ◌∷◌,
  ◌++◌, length, All, length-append,
}
use mathlib.Core.Path.{fun_ext, subst}
use rust_fatfs.Base.Result.{ok, M, pure, ◌>>=◌, ◌>>◌}
use rust_fatfs.Io.{
  Stream, read_exact, write_all, read_u8, read_u16_le, read_u32_le, write_u8, write_u16_le,
  write_u32_le, seek_start, from_le_bytes, to_le_bytes,
}
use rust_fatfs.Io.Contract.{IsBytes, IsByte, patch, slice}
use rust_fatfs.Io.Words.{bytes16, bytes32}
use rust_fatfs.Disk.Patch.{patch_at, patch_below}

-- The bytes `bs` stand from `p` on.
abbrev pub At : (ℕ → ℕ) → ℕ → List ℕ → Type 0
At f p [] = Unit
At f p (b ∷ bs) = (f p ≡ b) × At f (p + 1) bs

pub At-take : (f : ℕ → ℕ) (p : ℕ) (xs ys : List ℕ) → At f p (xs ++ ys) → At f p xs
At-take f p [] ys h = tt
At-take f p (x ∷ xs) ys h = (h.0, At-take f (p + 1) xs ys h.1)

At-drop : (f : ℕ → ℕ) (p : ℕ) (xs ys : List ℕ) → At f p (xs ++ ys) → At f (p + length xs) ys
At-drop f p [] ys h = let e : p + 0 ≡ p = omega arith in rw e h
At-drop f p (x ∷ xs) ys h =
    let e : p + suc (length xs) ≡ p + 1 + length xs = omega arith in
    rw e (At-drop f (p + 1) xs ys h.1)

At-agree :
    (f g : ℕ → ℕ) (p : ℕ) (bs : List ℕ) → ((i : ℕ) → p ≤ i → g i ≡ f i) → At f p bs → At g p bs
At-agree f g p [] e h = tt
At-agree f g p (b ∷ bs) e h =
    (e p (omega arith) ∙ h.0, At-agree f g (p + 1) bs (λ i l. e i (omega arith)) h.1)

pub At-patch : (f : ℕ → ℕ) (p : ℕ) (bs : List ℕ) → At (patch f p bs) p bs
At-patch f p [] = tt
At-patch f p (b ∷ bs) = (
  ground arith,
  At-agree (patch f (p + 1) bs) (patch f p (b ∷ bs)) (p + 1) bs (λ i l. ground arith)
      (At-patch f (p + 1) bs),
)

patch-append :
    (f : ℕ → ℕ) (p : ℕ) (xs ys : List ℕ) (i : ℕ)
    → patch (patch f p xs) (p + length xs) ys i ≡ patch f p (xs ++ ys) i
patch-append f p [] ys i = let e : p + 0 ≡ p = omega arith in rw e refl
patch-append f p (x ∷ xs) ys i =
    let g = patch f p (x ∷ xs) in
    let e : p + suc (length xs) ≡ p + 1 + length xs = omega arith in
    rw e (elim (Bool-cases (p == i)) [
      | inl t ↦ rw t (patch_below g (p + 1 + length xs) ys i (ground arith) ∙ rw t refl)
      | inr n ↦ rw n (
          patch_at g (patch f (p + 1) xs) (p + 1 + length xs) ys i (rw n refl)
          ∙ patch-append f (p + 1) xs ys i)
    ])

slice-At : (f : ℕ → ℕ) (p : ℕ) (bs : List ℕ) → At f p bs → slice f p (length bs) ≡ bs
slice-At f p [] h = refl
slice-At f p (b ∷ bs) h = rw (h.0, slice-At f (p + 1) bs h.1) refl

All-append : (xs ys : List ℕ) → All IsByte xs → All IsByte ys → All IsByte (xs ++ ys)
All-append [] ys h k = k
All-append (x ∷ xs) ys h k = (h.0, All-append xs ys h.1 k)

module _ {S : Type 0} {stream : Stream S} (c : IsBytes stream) where
  open c use {size, pos, byte}

  -- Where the bytes `bs` stand next, `m` answers `a` and goes past them.
  pub record Reads {A : Type 0} (m : M S A) (bs : List ℕ) (a : A) : Type 0 where
    pub run :
        (s : S)
        → pos s + length bs ≤ size s
        → At (byte s) (pos s) bs
        → (z : S) × (m s ≡ (ok a, z))
          × (size z ≡ size s)
          × (pos z ≡ pos s + length bs)
          × (byte z ≡ byte s)

  -- `m` puts the bytes `bs` at the position and goes past them.
  pub record Writes (m : M S (Unit {0})) (bs : List ℕ) : Type 0 where
    pub run :
        (s : S)
        → pos s + length bs ≤ size s
        → (z : S) × (m s ≡ (ok tt, z))
          × (size z ≡ size s)
          × (pos z ≡ pos s + length bs)
          × (byte z ≡ patch (byte s) (pos s) bs)

  pub Reads-pure : {A : Type 0} (a : A) → Reads (pure a) [] a
  Reads-pure a = record { run = λ s h q. (s, refl, refl, omega arith, refl) }

  pub Reads-bind :
      {A B : Type 0} {m : M S A} {xs ys : List ℕ} {a : A} {b : B} (k : A → M S B)
      → Reads m xs a
      → Reads (k a) ys b
      → Reads (m >>= k) (xs ++ ys) b
  Reads-bind {xs = xs} {ys = ys} k r q = record {
    run = λ s h at.
        let e = length-append xs ys in
        let (z, ez, sz, pz, bz) = r.run s (omega arith) (At-take (byte s) (pos s) xs ys at) in
        let next : At (byte z) (pos z) ys = rw (bz, pz) (At-drop (byte s) (pos s) xs ys at) in
        let (y, ey, sy, py, by) = q.run z (omega arith) next in
        (y, rw (ez, ey) refl, sy ∙ sz, omega arith, by ∙ bz);
  }

  pub Writes-then :
      {m k : M S (Unit {0})} {xs ys : List ℕ}
      → Writes m xs
      → Writes k ys
      → Writes (m >> k) (xs ++ ys)
  Writes-then {xs = xs} {ys = ys} w v = record {
    run = λ s h.
        let e = length-append xs ys in
        let (z, ez, sz, pz, bz) = w.run s (omega arith) in
        let (y, ey, sy, py, by) = v.run z (omega arith) in
        (
          y,
          rw (ez, ey) refl,
          sy ∙ sz,
          omega arith,
          by ∙ rw (bz, pz) (fun_ext λ i. patch-append (byte s) (pos s) xs ys i),
        );
  }

  pub Reads-read_exact : (bs : List ℕ) → Reads (read_exact stream (length bs)) bs bs
  Reads-read_exact bs = record {
    run = λ s h at. (
      c.fetched s (length bs),
      rw (c.read_in s (length bs) h, slice-At (byte s) (pos s) bs at) refl,
      c.size-fetched s _,
      c.pos-fetched s _,
      c.byte-fetched s _,
    );
  }

  pub Reads-exact : (n : ℕ) (bs : List ℕ) → length bs ≡ n → Reads (read_exact stream n) bs bs
  Reads-exact n bs e = subst (λ k. Reads (read_exact stream k) bs bs) e (Reads-read_exact bs)

  pub Writes-write_all : (bs : List ℕ) → All IsByte bs → Writes (write_all stream bs) bs
  Writes-write_all bs q = record {
    run = λ s h. (
      c.stored s bs,
      c.write_in s bs h q,
      c.size-stored s bs,
      c.pos-stored s bs,
      c.byte-stored s bs h q,
    );
  }

  pub Reads-eq :
      {A : Type 0} {m : M S A} {bs : List ℕ} {a b : A} → Reads m bs a → a ≡ b → Reads m bs b
  Reads-eq {m = m} {bs = bs} r e = subst (λ x. Reads m bs x) e r

  pub Reads-u8 : (n : ℕ) → n < 256 → Reads (read_u8 stream) (n ∷ []) n
  unfolding read_u8 from_le_bytes
  Reads-u8 n h = Reads-eq (Reads-bind _ (Reads-read_exact (n ∷ [])) (Reads-pure _)) (omega arith)

  pub Reads-u16 : (n : ℕ) → n < 2 ^ 16 → Reads (read_u16_le stream) (bytes16 n) n
  unfolding read_u16_le from_le_bytes
  Reads-u16 n h =
      Reads-eq (Reads-bind _ (Reads-read_exact (bytes16 n)) (Reads-pure _)) (omega arith)

  pub Reads-u32 : (n : ℕ) → n < 2 ^ 32 → Reads (read_u32_le stream) (bytes32 n) n
  unfolding read_u32_le from_le_bytes
  Reads-u32 n h =
      Reads-eq (Reads-bind _ (Reads-read_exact (bytes32 n)) (Reads-pure _)) (omega arith)

  pub Writes-u8 : (n : ℕ) → n < 256 → Writes (write_u8 stream n) (n ∷ [])
  unfolding write_u8
  Writes-u8 n h = Writes-write_all (n ∷ []) (h, tt)

  pub Writes-u16 : (n : ℕ) → Writes (write_u16_le stream n) (bytes16 n)
  unfolding write_u16_le to_le_bytes
  Writes-u16 n = Writes-write_all (bytes16 n) (omega arith, (omega arith, tt))

  pub Writes-u32 : (n : ℕ) → Writes (write_u32_le stream n) (bytes32 n)
  unfolding write_u32_le to_le_bytes
  Writes-u32 n =
      Writes-write_all (bytes32 n) (omega arith, (omega arith, (omega arith, (omega arith, tt))))

  -- What is written is read back.
  pub read-write :
      {A : Type 0} {m : M S A} {w : M S (Unit {0})} {bs : List ℕ} {a : A} (s : S) (p : ℕ)
      → Reads m bs a
      → Writes w bs
      → p + length bs ≤ size s
      → ((do seek_start stream p; w; seek_start stream p; m) s).0 ≡ ok a
  read-write {bs = bs} s p r w h =
      let a = c.sought s p in
      let za : size a ≡ size s = c.size-sought s p in
      let pa = c.pos-sought s p in
      let (b, eb, zb, pb, bb) = w.run a (omega arith) in
      let d = c.sought b p in
      let zd = c.size-sought b p in
      let pd = c.pos-sought b p in
      let at : At (byte d) (pos d) bs =
        rw (c.byte-sought b p, bb, pd, pa) (At-patch (byte a) p bs) in
      let (y, ey, sy, py, by) = r.run d (omega arith) at in
      rw (c.seek_in s p (omega arith), eb, c.seek_in b p (omega arith), ey) refl

  -- The last part of a reader, whose value is a function of what it answers.
  pub Reads-last :
      {A B : Type 0} {m : M S A} {bs : List ℕ} {a : A} (f : A → B)
      → Reads m bs a
      → Reads (m >>= λ x. pure (f x)) bs (f a)
  Reads-last f r = record {
    run = λ s h at. let (z, e, sz, pz, bz) = r.run s h at in (z, rw e refl, sz, pz, bz);
  }

  pub Writes-nothing : Writes (pure tt) []
  Writes-nothing = record { run = λ s h. (s, refl, refl, omega arith, refl) }
