-- ===== src/Table/Alloc.antt =====
-- `alloc_cluster` over any table: the cluster taken, and the table behind it.
use rust_fatfs.Base.{
  ℕ, zero, suc, ◌+◌, ◌%◌, ◌^◌, ◌≤◌, ◌<◌, ◌≡◌, ◌⊎◌, inl, inr, refl, ap, arith, true, false, ◌==◌,
  if◌then◌else◌, Option-cases, Option, some, none,
}
use rust_fatfs.Base.Result.{ok, err, not_enough_space}
use rust_fatfs.FatType.{FatType}
use rust_fatfs.Io.{Stream}
use rust_fatfs.Table.{alloc_cluster, find_free_cluster, search_again, start_of, link_from}
use rust_fatfs.Table.Value.{FatValue, is_free, data_at, end_of_chain}
use rust_fatfs.Table.Spec.{found, IsStorable, bad_mark, count_of_free}
use rust_fatfs.Table.Interface.{IsTable}
use rust_fatfs.Table.Choice.{choice, IsHint, start_of_bounds, choice-eq_some, choice-eq_none}

count_of_free-zero :
    (e : ℕ → FatValue) (left n : ℕ)
    → ((m : ℕ) → n ≤ m → m < n + left → is_free (e m) ≡ false)
    → count_of_free e left n ≡ 0
unfolding count_of_free
count_of_free-zero e zero n h = refl
count_of_free-zero e (suc left) n h =
    let here = h n (omega arith) (omega arith) in
    let ih = count_of_free-zero e left (n + 1) (λ m a b. h m (omega arith) (omega arith)) in
    ground arith

-- The cluster that the new one is linked from, if there is one, is taken.
abbrev pub IsPrev : (ℕ → FatValue) → ℕ → Option ℕ → Type 0
IsPrev e limit none = Unit
IsPrev e limit (some p) = (p < limit) × (is_free (e p) ≡ false)

-- The value of cluster `m` behind an allocation of `r`.
abbrev pub allocated : (ℕ → FatValue) → Option ℕ → ℕ → ℕ → FatValue
allocated e none r m = if r == m then end_of_chain else e m
allocated e (some p) r m = if p == m then data_at r else if r == m then end_of_chain else e m

module _ {S : Type 0} {t : FatType} {fat : Stream S} (c : IsTable t fat) where
  open c use {limit, value, put}

  search_lem :
      (s : S) (hint : Option ℕ) (end : ℕ)
      → IsHint hint
      → 2 < end
      → end ≤ limit s
      → let a = start_of hint end in
        let r = search_again fat t a (find_free_cluster fat t a end s) in
        (r.0 ≡ found (choice (value s) hint end)) × (value r.1 ≡ value s) × (limit r.1 ≡ limit s)
  unfolding search_again choice
  search_lem s hint end h l k =
      let a = start_of hint end in
      ground (
        arith,
        start_of_bounds hint end h l,
        c.find_in s a end,
        c.find_in (find_free_cluster fat t a end s).1 2 a,
      )

  link_lem :
      (s : S) (prev : Option ℕ) (r m : ℕ)
      → IsStorable t (data_at r)
      → r < limit s
      → m < limit s
      → IsPrev (value s) (limit s) prev
      → is_free (value s r) ≡ true
      → let out = link_from fat t prev r (put s r end_of_chain) in
        (out.0 ≡ ok tt) × (limit out.1 ≡ limit s) × (value out.1 m ≡ allocated (value s) prev r m)
  unfolding link_from
  link_lem s none r m q h k p f =
      ground (arith, c.limit-put s r end_of_chain, c.value-put s r m end_of_chain)
  link_lem s (some p) r m q h k w f =
      let s' = put s r end_of_chain in
      ground (
        arith,
        c.limit-put s r end_of_chain,
        c.value-put s r m end_of_chain,
        c.write_in s' p (data_at r),
        c.limit-put s' p (data_at r),
        c.value-put s' p m (data_at r),
      )

  -- Behind a search that chose `r`.
  alloc_some :
      (s : S) (prev hint : Option ℕ) (total r m : ℕ)
      → IsHint hint
      → 0 < total
      → total + 2 ≤ limit s
      → total + 2 ≤ bad_mark t
      → m < limit s
      → IsPrev (value s) (limit s) prev
      → choice (value s) hint (total + 2) ≡ some r
      → let out = alloc_cluster fat t prev hint total s in
        (out.0 ≡ ok r) × (limit out.1 ≡ limit s) × (value out.1 m ≡ allocated (value s) prev r m)
  unfolding alloc_cluster
  alloc_some s prev hint total r m h z k b hm hp q =
      let e : (total + 2) % 2 ^ 32 ≡ total + 2 = omega (arith, c.limit_le s) in
      let a = start_of hint (total + 2) in
      let s' = (search_again fat t a (find_free_cluster fat t a (total + 2) s)).1 in
      let (lo, hi, f) = choice-eq_some (value s) hint (total + 2) r h (omega arith) q in
      rw e (
        ground (
          arith,
          search_lem s hint (total + 2) h (omega arith) k,
          c.write_in s' r end_of_chain,
          link_lem s' prev r m (omega arith),
        ))

  alloc_none :
      (s : S) (prev hint : Option ℕ) (total : ℕ)
      → IsHint hint
      → 0 < total
      → total + 2 ≤ limit s
      → choice (value s) hint (total + 2) ≡ none
      → let out = alloc_cluster fat t prev hint total s in
        (out.0 ≡ err not_enough_space) × (value out.1 ≡ value s) × (limit out.1 ≡ limit s)
  unfolding alloc_cluster
  alloc_none s prev hint total h z k q =
      let e : (total + 2) % 2 ^ 32 ≡ total + 2 = omega (arith, c.limit_le s) in
      rw e (ground (arith, search_lem s hint (total + 2) h (omega arith) k))

  -- On a volume of at least one data cluster whose table holds and can name them all, with a
  -- hint that is no reserved entry and a previous cluster that is taken: either a free data
  -- cluster is returned, marked as the end of a chain and linked from the previous one, while
  -- any other entry stays; or there is no space, no data cluster is free, and every entry stays.
  pub alloc_cluster_outcome :
      (s : S) (prev hint : Option ℕ) (total m : ℕ)
      → IsHint hint
      → 0 < total
      → total + 2 ≤ limit s
      → total + 2 ≤ bad_mark t
      → m < limit s
      → IsPrev (value s) (limit s) prev
      → let out = alloc_cluster fat t prev hint total s in
        ((r : ℕ) × (out.0 ≡ ok r)
          × (2 ≤ r)
          × (r < total + 2)
          × (is_free (value s r) ≡ true)
          × (value out.1 m ≡ allocated (value s) prev r m))
        ⊎ ((out.0 ≡ err not_enough_space)
            × (count_of_free (value s) total 2 ≡ 0)
            × (value out.1 m ≡ value s m))
  alloc_cluster_outcome s prev hint total m h z k b hm hp =
      elim (Option-cases (choice (value s) hint (total + 2))) [
        | inl (r, q) ↦
            let (lo, hi, f) = choice-eq_some (value s) hint (total + 2) r h (omega arith) q in
            let (o, l, v) = alloc_some s prev hint total r m h z k b hm hp q in
            inl (r, o, lo, hi, f, v)
        | inr q ↦
            let (o, v, l) = alloc_none s prev hint total h z k q in
            inr (
              o,
              count_of_free-zero (value s) total 2 (λ i a w.
                  choice-eq_none (value s) hint (total + 2) h (omega arith) q i a (omega arith)),
              ap (λ (e : ℕ → FatValue). e m) v,
            )
      ]
