-- ===== src/Is/Sorted.antt =====
-- is.c: `full_verify` puts the keys in order.
use baseliner_docker.Base.{
  ℕ, zero, suc, ◌+◌, ◌-◌, ◌*◌, ◌/◌, ◌<◌, ◌≤◌, true, ltb, if◌then◌else◌, ◌≡◌, refl, arith, inl, inr,
  ==_iff,
}
use baseliner_docker.Is.Loops.{Array, for_loop, for_loop_inv}
use baseliner_docker.Is.Ranking.{Ranks, rank_keys, place_keys, out_of_sort, full_verify}
use baseliner_docker.Is.Counting.{
  below, below-suc, below_mono, below_none, below_all, bucket_bounds, lt_cases, steps,
}
use baseliner_docker.Is.Ranks.{rank_keys-Scattered, rank_keys_lem}
use baseliner_docker.Is.Places.{place_keys-Placed, done_all}

-- The position of a value in order.
find :
    (key : Array) (n m x : ℕ)
    → x < below key n m
    → (v : ℕ) × (v < m) × (below key n v ≤ x) × (x < below key n (suc v))
find key n zero x h = absurd (omega (arith, below_none key n))
find key n (suc m) x h = elim (lt_cases x (below key n m)) [
  | inl c ↦ (let r = find key n m x c in (r.0, omega (arith, r.1), r.2, r.3))
  | inr (inl e) ↦ (m, omega arith, omega arith, h)
  | inr (inr c) ↦ (m, omega arith, omega arith, h)
]

-- An array that holds each value where the number of smaller keys says: it is the keys in order.
abbrev pub InOrder : Array → ℕ → ℕ → Array → Type 0
InOrder key n limit keys =
    (x : ℕ)
    → x < n
    → (v : ℕ) × (keys x ≡ v) × (v < limit) × (below key n v ≤ x) × (x < below key n (suc v))

out_of_sort_lem :
    (n : ℕ) (keys : Array)
    → ((x : ℕ) → 0 < x → x < n → keys (x - 1) ≤ keys x)
    → out_of_sort n keys ≡ 0
unfolding out_of_sort
out_of_sort_lem zero keys h = unfold for_loop in refl
out_of_sort_lem (suc n) keys h =
    for_loop_inv (λ i (j : ℕ). j ≡ 0) (λ i j. if ltb (keys i) (keys (i - 1)) then j + 1 else j)
      (suc n - 1) 1 (suc n) 0 (omega arith) refl
      (λ i j a u e. ground (arith, h i (omega arith) (omega arith)))

InOrder-le :
    (key : Array) (n limit : ℕ) (keys : Array)
    → InOrder key n limit keys
    → (x : ℕ) → 0 < x
    → x < n
    → keys (x - 1) ≤ keys x
InOrder-le key n limit keys h x a u =
    let p = h (x - 1) (omega arith) in
    let q = h x u in
    elim (lt_cases (keys x) (keys (x - 1))) [
      | inl c ↦
          let m = below_mono key n (suc q.0) p.0 (omega (arith, p.1, q.1)) in
          absurd (omega (arith, m, p.3, q.4))
      | inr (inl e) ↦ omega (arith, e)
      | inr (inr c) ↦ omega arith
    ]

module _ (size buckets n : ℕ) (key : Array) (s : 0 < size)
    (small : (i : ℕ) → i < n → key i / size < buckets) where
  keys_below : (i : ℕ) → i < n → key i < buckets * size
  keys_below i l =
      omega (arith, bucket_bounds (key i) size s, steps (key i / size) buckets size (small i l))

  place_keys-InOrder :
      (work : Array) (r : Ranks) (keys : Array)
      → InOrder key n
          (buckets * size)
          (place_keys buckets (rank_keys size buckets n key work r) keys)
  unfolding place_keys
  place_keys-InOrder work r keys x l =
      let k = rank_keys size buckets n key work r in
      let q =
        place_keys-Placed size buckets n key s small k.sorting
          (rank_keys-Scattered size buckets n key s small work r)
          (record { ranks = k.key_buff1; key_array = keys })
          (rank_keys_lem size buckets n key s small work r) in
      let all = below_all key n (buckets * size) keys_below in
      let f = find key n (buckets * size) x (omega (arith, all)) in
      let d =
        done_all size buckets n key s small k.sorting
          (rank_keys-Scattered size buckets n key s small work r) f.0 f.1 in
      (
        f.0,
        q.keys f.0 x f.1 (omega (arith, q.ranks f.0 f.1, d, f.2, below-suc key n f.0)) f.3,
        f.1,
        f.2,
        f.3,
      )

  -- `rank` and then `full_verify`, on n keys that lie in the buckets, whatever the arrays hold before:
  -- each place of `key_array` holds the value below which there are no more keys than the number of
  -- the place, and up to which there are more; so it holds the keys in order, each as often as before,
  -- and `passed_verification` is counted up.
  pub full_verify_lem :
      (work : Array) (r : Ranks) (keys : Array)
      → let f = full_verify buckets n (rank_keys size buckets n key work r) keys in
        InOrder key n (buckets * size) f.0 × (f.1 ≡ true)
  unfolding full_verify
  full_verify_lem work r keys =
      let o = place_keys-InOrder work r keys in
      let z = out_of_sort_lem n _ (InOrder-le key n (buckets * size) _ o) in (o, (==_iff _ 0).1 z)
