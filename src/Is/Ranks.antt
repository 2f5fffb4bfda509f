-- ===== src/Is/Ranks.antt =====
-- is.c: `rank` leaves, for each value, the number of keys that are not above it.
use mathlib.Core.Path.{subst}
use baseliner_docker.Base.{
  ℕ, zero, suc, ◌+◌, ◌-◌, ◌*◌, ◌/◌, ◌<◌, ◌≤◌, ltb, ◌==◌, if◌then◌else◌, ◌≡◌, refl, sym, ap, ap₂,
  ◌∙◌, ◌⊎◌, arith, inl, inr,
}
use baseliner_docker.Is.Loops.{Array, upd, for_loop, for_loop_inv, bit, span}
use baseliner_docker.Is.Ranking.{
  clear, tally, add_before, Sorting, start_of, rank_bucket, Ranks, rank_keys,
}
use baseliner_docker.Is.Counting.{
  below, equal, within, below-suc, below_none, below_bucket, bucket_bounds, bucket_unique, lt_cases,
}
use baseliner_docker.Is.Tallies.{suc-times, count_keys_lem, accumulate_lem}
use baseliner_docker.Is.Buckets.{upd_other, Scattered, sort_keys-Scattered}

module _ (size buckets n : ℕ) (key : Array) (s : 0 < size)
    (small : (i : ℕ) → i < n → key i / size < buckets) (t : Sorting)
    (h : Scattered size buckets n key s small n t) where
  pub start_lem :
      (i : ℕ)
      → i < buckets
      → (start_of t.bucket_ptrs i ≡ below key n (i * size))
        × (t.bucket_ptrs i ≡ below key n (i * size) + within key size n i)
  start_lem zero l = (sym (below_none key n) ∙ ap (below key n) (omega arith), h.ptrs zero l)
  start_lem (suc i) l = (
    h.ptrs i (omega arith)
        ∙ sym (below_bucket key size n i s)
        ∙ ap (below key n) (sym (suc-times i size)),
    h.ptrs (suc i) l,
  )

  module _ (i : ℕ) (l : i < buckets) (buff : Array) where
    abbrev k1 : ℕ
    k1 = i * size

    abbrev m : ℕ
    m = start_of t.bucket_ptrs i

    abbrev cleared : Array
    cleared = for_loop size k1 clear buff

    abbrev tallied : Array
    tallied = for_loop (t.bucket_ptrs i - m) m (λ k b. tally (t.key_buff2 k) b) cleared

    abbrev Outside : ℕ → Type 0
    Outside v = (v < k1) ⊎ (k1 + size ≤ v)

    cleared_in : (v : ℕ) → k1 ≤ v → v < k1 + size → cleared v ≡ 0
    cleared_in v a u =
        for_loop_inv (λ k (b : Array). v < k → b v ≡ 0) clear size k1 (k1 + size) buff refl
          (λ p. absurd (omega arith)) (λ k b c d p q. ground (arith, p)) u

    cleared_out : (v : ℕ) → Outside v → cleared v ≡ buff v
    cleared_out v o =
        for_loop_inv (λ k (b : Array). b v ≡ buff v) clear size k1 (k1 + size) buff refl refl
          (λ k b c d p. elim o [ inl x ↦ ground arith | inr x ↦ ground arith ])

    places : m + (t.bucket_ptrs i - m) ≡ t.bucket_ptrs i
    places = omega (arith, (start_lem i l).0, (start_lem i l).1)

    -- The keys in the places of the bucket.
    belongs : (k : ℕ) → m ≤ k → k < t.bucket_ptrs i → t.key_buff2 k / size ≡ i
    belongs k a u =
        h.own i k l (omega (arith, (start_lem i l).0)) (omega (arith, (start_lem i l).1))

    in_range : (v : ℕ) → v / size ≡ i → (k1 ≤ v) × (v < k1 + size)
    in_range v e = omega (arith, bucket_bounds v size s, ap (λ q. q * size) e)

    tallied_in : (v : ℕ) → k1 ≤ v → v < k1 + size → tallied v ≡ equal key n v
    unfolding span
    tallied_in v a u =
        for_loop_inv (λ k (b : Array). b v ≡ span (λ x. t.key_buff2 x == v) m (k - m))
          (λ k b. tally (t.key_buff2 k) b) (t.bucket_ptrs i - m) m (t.bucket_ptrs i) cleared places
          (cleared_in v a u ∙ ap (span (λ x. t.key_buff2 x == v) m) none_yet)
          (λ k b c d p. one_more k b c p)
        ∙ all_here
      where
        none_yet : 0 ≡ m - m
        none_yet = omega arith

        one_more :
            (k : ℕ) (b : Array)
            → m ≤ k
            → b v ≡ span (λ x. t.key_buff2 x == v) m (k - m)
            → tally (t.key_buff2 k) b v ≡ span (λ x. t.key_buff2 x == v) m (suc k - m)
        one_more k b c p =
            let e : suc k - m ≡ suc (k - m) = omega arith in
            let at : m + (k - m) ≡ k = omega arith in
            counted k b p
            ∙ ap (λ j. span (λ x. t.key_buff2 x == v) m (k - m) + bit (t.key_buff2 j == v)) (sym at)
            ∙ ap (span (λ x. t.key_buff2 x == v) m) (sym e)
          where
            counted :
                (k : ℕ) (b : Array)
                → b v ≡ span (λ x. t.key_buff2 x == v) m (k - m)
                → tally (t.key_buff2 k) b v
                  ≡ span (λ x. t.key_buff2 x == v) m (k - m) + bit (t.key_buff2 k == v)
            counted k b p = ground arith

        all_here : span (λ x. t.key_buff2 x == v) m (t.bucket_ptrs i - m) ≡ equal key n v
        all_here =
            let e = bucket_unique v size i s a u in
            let f = start_lem i l in
            ap₂ (λ x y. span (λ z. t.key_buff2 z == v) x y) f.0 (omega (arith, f.0, f.1))
            ∙ subst
                (λ j.
                  span (λ z. t.key_buff2 z == v) (below key n (j * size)) (within key size n j)
                  ≡ equal key n v)
                e (h.counts v (subst (λ j. j < buckets) (sym e) l))

    apart :
        (v : ℕ)
        → Outside v
        → (k : ℕ) → m ≤ k
        → k < t.bucket_ptrs i
        → (v < t.key_buff2 k) ⊎ (t.key_buff2 k < v)
    apart v o k c d =
        let r = in_range (t.key_buff2 k) (belongs k c d) in
        elim o [ inl x ↦ inl (omega arith) | inr x ↦ inr (omega arith) ]

    tallied_out : (v : ℕ) → Outside v → tallied v ≡ buff v
    tallied_out v o =
        for_loop_inv (λ k (b : Array). b v ≡ buff v) (λ k b. tally (t.key_buff2 k) b)
          (t.bucket_ptrs i - m) m (t.bucket_ptrs i) cleared places (cleared_out v o)
          (λ k b c d p. upd_other b (t.key_buff2 k) (b (t.key_buff2 k) + 1) v (apart v o k c d) ∙ p)

    abbrev summed : Array
    summed = for_loop (size - 1) (k1 + 1) add_before (upd tallied k1 (tallied k1 + m))

    -- The values of the bucket that have been summed up, and those that have not.
    summed_in : (v : ℕ) → k1 ≤ v → v < k1 + size → summed v ≡ below key n (suc v)
    summed_in v a u =
        (for_loop_inv
          (λ k (b : Array).
            (w : ℕ)
            → k1 ≤ w
            → w < k1 + size
            → b w ≡ (if ltb w k then below key n (suc w) else equal key n w))
          add_before (size - 1) (k1 + 1) (k1 + size) (upd tallied k1 (tallied k1 + m)) (omega arith)
          (λ w c d. first w c d) (λ k b c d p w e f. next k b c d p w e f) v a u)
        ∙ (ground arith)
      where
        first :
            (w : ℕ)
            → k1 ≤ w
            → w < k1 + size
            → upd tallied k1 (tallied k1 + m) w
              ≡ (if ltb w (k1 + 1) then below key n (suc w) else equal key n w)
        first w c d = ground (arith, tallied_in w c d, (start_lem i l).0, below-suc key n w)

        next :
            (k : ℕ) (b : Array)
            → k1 + 1 ≤ k
            → k < k1 + size
            → ((w : ℕ)
                → k1 ≤ w
                → w < k1 + size
                → b w ≡ (if ltb w k then below key n (suc w) else equal key n w))
            → (w : ℕ) → k1 ≤ w
            → w < k1 + size
            → add_before k b w ≡ (if ltb w (suc k) then below key n (suc w) else equal key n w)
        next zero b c d p w e f = absurd (omega arith)
        next (suc k) b c d p w e f =
            let back : suc k - 1 ≡ k = omega arith in
            ground (arith, p w e f, p k (omega arith) (omega arith), ap b back, below-suc key n w)

    summed_out : (v : ℕ) → Outside v → summed v ≡ buff v
    summed_out v o =
        for_loop_inv (λ k (b : Array). b v ≡ buff v) add_before (size - 1) (k1 + 1) (k1 + size)
          (upd tallied k1 (tallied k1 + m)) (omega arith)
          (elim o [
            | inl x ↦ upd_other tallied k1 (tallied k1 + m) v (inl x) ∙ tallied_out v (inl x)
            | inr x ↦
                upd_other tallied k1 (tallied k1 + m) v (inr (omega arith)) ∙ tallied_out v (inr x)
          ])
          (λ k b c d p. elim o [
            | inl x ↦ upd_other b k (b k + b (k - 1)) v (inl (omega arith)) ∙ p
            | inr x ↦ upd_other b k (b k + b (k - 1)) v (inr (omega arith)) ∙ p
          ])

  -- The ranks behind the loop over the buckets.
  pub ranks_lem :
      (buff : Array) (v : ℕ)
      → v < buckets * size
      → for_loop buckets 0 (λ i b. rank_bucket size t i b) buff v ≡ below key n (suc v)
  unfolding rank_bucket
  ranks_lem buff v l =
      for_loop_inv (λ i (b : Array). (w : ℕ) → w < i * size → b w ≡ below key n (suc w))
        (λ i b. rank_bucket size t i b) buckets 0 buckets buff (omega arith)
        (λ w c. absurd (omega arith))
        (λ i b c d p w e. next i b d p w (omega (arith, e, suc-times i size))) v l
    where
      next :
          (i : ℕ) (b : Array)
          → i < buckets
          → ((w : ℕ) → w < i * size → b w ≡ below key n (suc w))
          → (w : ℕ) → w < i * size + size
          → rank_bucket size t i b w ≡ below key n (suc w)
      next i b d p w e = elim (lt_cases w (i * size)) [
        | inl c ↦ summed_out i d b w (inl c) ∙ p w c
        | inr (inl c) ↦ summed_in i d b w (omega arith) e
        | inr (inr c) ↦ summed_in i d b w (omega arith) e
      ]

-- What `rank` leaves: the keys in their buckets, and the ranks.
module _ (size buckets n : ℕ) (key : Array) (s : 0 < size)
    (small : (i : ℕ) → i < n → key i / size < buckets) where
  pub rank_keys-Scattered :
      (work : Array) (r : Ranks)
      → Scattered size buckets n key s small n (rank_keys size buckets n key work r).sorting
  unfolding rank_keys
  rank_keys-Scattered work r = sort_keys-Scattered size buckets n key s small _ (
      accumulate_lem size buckets n key s small _ r.sorting.bucket_ptrs
        (count_keys_lem size buckets n key s small work))

  -- `rank` leaves in `key_buff1`, for each value below MAX_KEY, the number of keys that are not above
  -- the value, whatever the arrays held before, if all keys lie in a bucket.
  pub rank_keys_lem :
      (work : Array) (r : Ranks) (v : ℕ)
      → v < buckets * size
      → (rank_keys size buckets n key work r).key_buff1 v ≡ below key n (suc v)
  unfolding rank_keys
  rank_keys_lem work r v l =
      ranks_lem size buckets n key s small (rank_keys size buckets n key work r).sorting
        (rank_keys-Scattered work r) r.key_buff1 v l
