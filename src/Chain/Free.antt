-- ===== src/Chain/Free.antt =====
-- `free` and `truncate` on a chain that does not run in a circle.
use rust_fatfs.Base.{
  ℕ, zero, suc, ◌+◌, ◌-◌, ◌^◌, ◌≤◌, ◌<◌, ◌≡◌, refl, ◌∙◌, sym, ap, arith, true, false, ◌==◌,
  if◌then◌else◌, List, [], ◌∷◌, Option, some, none, length,
}
use rust_fatfs.Base.Result.{ok}
use rust_fatfs.FatType.{FatType}
use rust_fatfs.Io.{Stream}
use rust_fatfs.Table.{get_next_cluster, next_of}
use rust_fatfs.Table.Value.{FatValue, free, end_of_chain}
use rust_fatfs.Table.Interface.{IsTable}
use rust_fatfs.Table.Spec.{IsStorable}
use rust_fatfs.Chain.{
  dropped, answer, ClusterIterator, free_loop, free_chain, truncate, next, write_through, new,
  chain_fuel,
}
use rust_fatfs.Chain.Spec.{IsChain, IsSimple, AllBelow, elem}
use mathlib.Core.Path.{subst}

AllBelow-elem : (l x : ℕ) (xs : List ℕ) → elem x xs ≡ true → AllBelow l xs → x < l
AllBelow-elem l x [] h a = cc
AllBelow-elem l x (y ∷ ys) h (a, b) =
    ground (arith, λ (q : elem x ys ≡ true). AllBelow-elem l x ys q b)

IsChain-nil : (e : ℕ → FatValue) (n : ℕ) → IsChain e n [] → next_of (e n) ≡ none
unfolding IsChain
IsChain-nil e n h = h

IsChain-cons :
    (e : ℕ → FatValue) (n m : ℕ) (rest : List ℕ)
    → IsChain e n (m ∷ rest)
    → (next_of (e n) ≡ some m) × IsChain e m rest
unfolding IsChain
IsChain-cons e n m rest h = h

-- A chain is a matter of its own clusters only.
IsChain-agree :
    (e f : ℕ → FatValue) (n : ℕ) (rest : List ℕ)
    → ((x : ℕ) → elem x (n ∷ rest) ≡ true → f x ≡ e x)
    → IsChain e n rest
    → IsChain f n rest
unfolding IsChain
IsChain-agree e f n [] h c = rw (h n (ground arith)) c
IsChain-agree e f n (m ∷ rest) h (c, d) =
    (rw (h n (ground arith)) c, IsChain-agree e f m rest (λ x q. h x (ground arith)) d)

module _ {S : Type 0} {t : FatType} {fat : Stream S} (c : IsTable t fat) where
  open c use {limit, value, got, put}

  -- An iterator that has met no error.
  abbrev pub at : S → Option ℕ → ClusterIterator S
  at s o = record { fat = s; cluster = o; failed = false }

  dropped_ok : (o : Option ℕ) (it : ClusterIterator S) → dropped (answer (ok o), it) ≡ (ok tt, it)
  unfolding dropped answer
  dropped_ok none it = refl
  dropped_ok (some n) it = refl

  next_in :
      (s : S) (n : ℕ)
      → n < limit s
      → dropped (next fat t (at s (some n))) ≡ (ok tt, at (got s n) (next_of (value s n)))
  unfolding next get_next_cluster
  next_in s n h = rw (c.read_in s n h) (dropped_ok (next_of (value s n)) _)

  write_through_in :
      (s : S) (o : Option ℕ) (n : ℕ) (v : FatValue)
      → n < limit s
      → IsStorable t v
      → write_through fat t n v (at s o) ≡ (ok tt, at (put s n v) o)
  unfolding write_through
  write_through_in s o n v h q = rw (c.write_in s n v h q)

  -- The table behind one round.
  abbrev pub cleared : S → ℕ → S
  cleared s n = put (got s n) n free

  pub free_step :
      (fuel k : ℕ) (s : S) (n : ℕ)
      → n < limit s
      → free_loop fat t (suc fuel) k (at s (some n))
        ≡ free_loop fat t fuel (k + 1) (at (cleared s n) (next_of (value s n)))
  unfolding free_loop
  free_step fuel k s n h =
      rw (
        next_in s n h,
        write_through_in (got s n) (next_of (value s n)) n free (rw c.limit-got h) tt,
      )

  pub free_done :
      (fuel k : ℕ) (s : S) → free_loop fat t (suc fuel) k (at s none) ≡ (ok k, at s none)
  unfolding free_loop
  free_done fuel k s = refl

  pub limit-cleared : (s : S) (n : ℕ) → limit (cleared s n) ≡ limit s
  limit-cleared s n = c.limit-put _ _ _ ∙ c.limit-got s n

  pub value-cleared :
      (s : S) (n x : ℕ)
      → n < limit s
      → x < limit s
      → value (cleared s n) x ≡ (if n == x then free else value s x)
  value-cleared s n x h k =
      c.value-put (got s n) n x free (rw c.limit-got h) (rw c.limit-got k) tt
      ∙ rw (c.value-got s n h)

  free_loop_lem :
      (rest : List ℕ) (n fuel k : ℕ) (s : S) (x : ℕ)
      → IsChain (value s) n rest
      → IsSimple (n ∷ rest)
      → AllBelow (limit s) (n ∷ rest)
      → length rest + 2 ≤ fuel
      → x < limit s
      → let out = free_loop fat t fuel k (at s (some n)) in
        (out.0 ≡ ok (k + 1 + length rest))
        × (value out.1.fat x ≡ (if elem x (n ∷ rest) then free else value s x))
        × (limit out.1.fat ≡ limit s)
  unfolding IsChain
  free_loop_lem rest n zero k s x h q a l hx = absurd (omega arith)
  free_loop_lem rest n (suc zero) k s x h q a l hx = absurd (omega arith)
  free_loop_lem [] n (suc (suc fuel)) k s x h q a l hx =
      rw (free_step (suc fuel) k s n a.0, h, free_done fuel (k + 1) (cleared s n))
        (ground (arith, value-cleared s n x a.0 hx, limit-cleared s n))
  free_loop_lem (m ∷ rest) n (suc (suc fuel)) k s x (h, d) q a l hx =
      let s' = cleared s n in
      let agree : (y : ℕ) → elem y (m ∷ rest) ≡ true → value s' y ≡ value s y = λ y e.
        ground (arith, value-cleared s n y a.0 (AllBelow-elem (limit s) y (m ∷ rest) e a.1)) in
      let d' = IsChain-agree (value s) (value s') m rest agree d in
      let a' = subst (λ l. AllBelow l (m ∷ rest)) (sym (limit-cleared s n)) a.1 in
      rw (free_step (suc fuel) k s n a.0, h)
        (ground (
          arith,
          value-cleared s n x a.0 hx,
          limit-cleared s n,
          free_loop_lem rest m (suc fuel) (k + 1) s' x d' q.1 a',
        ))

  -- For a chain of distinct clusters, all in the table and fewer than 2 ^ 28: `free` from its first
  -- cluster returns their number, and of any entry of the table exactly the chain's are then free,
  -- while the others keep their values.
  pub free_chain_lem :
      (rest : List ℕ) (n : ℕ) (s : S) (x : ℕ)
      → IsChain (value s) n rest
      → IsSimple (n ∷ rest)
      → AllBelow (limit s) (n ∷ rest)
      → length rest + 2 ≤ chain_fuel
      → x < limit s
      → let out = free_chain fat t (new s n) in
        (out.0 ≡ ok (length (n ∷ rest)))
        × (value out.1.fat x ≡ (if elem x (n ∷ rest) then free else value s x))
  unfolding free_chain new
  free_chain_lem rest n s x h q a l hx =
      let (r, v, z) = free_loop_lem rest n chain_fuel 0 s x h q a l hx in
      (r ∙ ap ok (omega arith), v)

  -- The table behind the end mark that `truncate` writes.
  abbrev cut : S → ℕ → S
  cut s n = put (got s n) n end_of_chain

  limit-cut : (s : S) (n : ℕ) → limit (cut s n) ≡ limit s
  limit-cut s n = c.limit-put _ _ _ ∙ c.limit-got s n

  value-cut :
      (s : S) (n x : ℕ)
      → n < limit s
      → x < limit s
      → value (cut s n) x ≡ (if n == x then end_of_chain else value s x)
  value-cut s n x h k =
      c.value-put (got s n) n x end_of_chain (rw c.limit-got h) (rw c.limit-got k) tt
      ∙ rw (c.value-got s n h)

  truncate_step :
      (s : S) (n : ℕ)
      → n < limit s
      → truncate fat t (new s n) ≡ free_chain fat t (at (cut s n) (next_of (value s n)))
  unfolding truncate new
  truncate_step s n h = rw (
    next_in s n h,
    write_through_in (got s n) (next_of (value s n)) n end_of_chain (rw c.limit-got h) tt,
  )

  free_chain_done : (s : S) → free_chain fat t (at s none) ≡ (ok 0, at s none)
  unfolding free_chain
  free_chain_done s = free_done (2 ^ 28 - 1) 0 s

  -- For a chain of distinct clusters, all in the table and fewer than 2 ^ 28: `truncate` at its
  -- first cluster returns the number of the others, and then the first is the end of a chain, the
  -- others are free and any other entry of the table keeps its value.
  pub truncate_lem :
      (rest : List ℕ) (n : ℕ) (s : S) (x : ℕ)
      → IsChain (value s) n rest
      → IsSimple (n ∷ rest)
      → AllBelow (limit s) (n ∷ rest)
      → length rest + 2 ≤ chain_fuel
      → x < limit s
      → let out = truncate fat t (new s n) in
        (out.0 ≡ ok (length rest))
        × (value out.1.fat x
            ≡ (if n == x then end_of_chain else if elem x rest then free else value s x))
  unfolding new
  truncate_lem [] n s x h q a l hx =
      rw (truncate_step s n a.0, IsChain-nil (value s) n h)
        (rw (free_chain_done (cut s n)) (refl, value-cut s n x a.0 hx))
  truncate_lem (m ∷ rest) n s x h q a l hx =
      let (step, d) = IsChain-cons (value s) n m rest h in
      let s' = cut s n in
      let agree : (y : ℕ) → elem y (m ∷ rest) ≡ true → value s' y ≡ value s y =
        λ y e. ground (arith, value-cut s n y a.0 (AllBelow-elem (limit s) y (m ∷ rest) e a.1)) in
      let d' = IsChain-agree (value s) (value s') m rest agree d in
      let a' = subst (λ l. AllBelow l (m ∷ rest)) (sym (limit-cut s n)) a.1 in
      rw (truncate_step s n a.0, step)
        (ground
          (arith, value-cut s n x a.0 hx, limit-cut s n, free_chain_lem rest m s' x d' q.1 a'))
