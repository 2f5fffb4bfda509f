-- ===== src/Is/Places.antt =====
-- is.c: `full_verify` puts each key behind the smaller ones.
use mathlib.Core.Path.{subst}
use baseliner_docker.Base.{
  ℕ, zero, suc, ◌+◌, ◌-◌, ◌*◌, ◌/◌, ◌<◌, ◌≤◌, Bool, true, false, ltb, ◌==◌, if◌then◌else◌, ◌≡◌,
  refl, sym, ap, ◌∙◌, ◌⊎◌, arith, inl, inr, Bool-cases, ==_iff,
}
use baseliner_docker.Is.Loops.{Array, upd, for_loop, for_loop_inv, bit, span}
use baseliner_docker.Is.Ranking.{Sorting, start_of, Placing, place_key, place_bucket}
use baseliner_docker.Is.Counting.{
  below, equal, within, below-suc, below_mono, below_none, below_bucket, bucket_bounds, lt_cases,
  steps,
}
use baseliner_docker.Is.Tallies.{suc-times}
use baseliner_docker.Is.Buckets.{Scattered}
use baseliner_docker.Is.Ranks.{start_lem}

quotient_lt : (v size b : ℕ) → 0 < size → v < b * size → v / size < b
quotient_lt v size b s l = elim (lt_cases (v / size) b) [
  | inl c ↦ c
  | inr (inl e) ↦ absurd (omega (arith, (bucket_bounds v size s).0, ap (λ q. q * size) e))
  | inr (inr c) ↦ absurd (omega (arith, (bucket_bounds v size s).0, steps b (v / size) size c))
]

span_mono : (p : ℕ → Bool) (i j : ℕ) → i ≤ j → span p 0 i ≤ span p 0 j
unfolding span
span_mono p i zero h = omega (arith, ap (span p 0) (zero_of i h))
  where
    zero_of : (i : ℕ) → i ≤ 0 → i ≡ 0
    zero_of i h = omega arith
span_mono p i (suc j) h = elim (lt_cases i (suc j)) [
  | inl l ↦ omega (arith, span_mono p i j (omega arith))
  | inr (inl e) ↦ omega (arith, ap (span p 0) e)
  | inr (inr l) ↦ absurd (omega arith)
]

span-append : (p : ℕ → Bool) (a b : ℕ) → span p 0 (a + b) ≡ span p 0 a + span p a b
unfolding span
span-append p a zero = let e : a + 0 ≡ a = omega arith in omega (arith, ap (span p 0) e)
span-append p a (suc b) =
    let e : a + suc b ≡ suc (a + b) = omega arith in
    let z : 0 + (a + b) ≡ a + b = omega arith in
    ap (span p 0) e ∙ omega (arith, span-append p a b, ap (λ k. bit (p k)) z)

span_none :
    (p : ℕ → Bool) (first n : ℕ)
    → ((k : ℕ) → first ≤ k → k < first + n → p k ≡ false)
    → span p first n ≡ 0
unfolding span
span_none p first zero h = refl
span_none p first (suc n) h = omega (
  arith,
  span_none p first n (λ k l u. h k l (omega arith)),
  ap bit (h (first + n) (omega arith) (omega arith)),
)

module _ (size buckets n : ℕ) (key : Array) (s : 0 < size)
    (small : (i : ℕ) → i < n → key i / size < buckets) (t : Sorting)
    (h : Scattered size buckets n key s small n t) where
  abbrev done : ℕ → ℕ → ℕ
  done k v = span (λ x. t.key_buff2 x == v) 0 k

  others :
      (j v : ℕ)
      → j < buckets
      → (v / size < j) ⊎ (j < v / size)
      → span (λ x. t.key_buff2 x == v) (below key n (j * size)) (within key size n j) ≡ 0
  others j v l d = span_none _ _ _ (λ k a u. apart (t.key_buff2 k) (h.own j k l a u))
    where
      apart : (w : ℕ) → w / size ≡ j → (w == v) ≡ false
      apart w e = elim (Bool-cases (w == v)) [
        | inr c ↦ c
        | inl c ↦
            let q = ap (λ x. x / size) ((==_iff w v).0 c) in
            absurd (elim d [ inl x ↦ omega (arith, q, e) | inr x ↦ omega (arith, q, e) ])
      ]

  -- The keys of the buckets before the j-th.
  done_buckets :
      (j v : ℕ)
      → j ≤ buckets
      → done (below key n (j * size)) v ≡ (if ltb (v / size) j then equal key n v else 0)
  unfolding span
  done_buckets zero v l =
      let z : 0 * size ≡ 0 = omega arith in
      ap (λ k. done k v) (ap (below key n) z ∙ below_none key n) ∙ ground arith
  done_buckets (suc j) v l =
      ap (λ k. done k v) (ap (below key n) (suc-times j size) ∙ below_bucket key size n j s)
      ∙ span-append (λ x. t.key_buff2 x == v) (below key n (j * size)) (within key size n j)
      ∙ elim (lt_cases (v / size) j) [
        | inl c ↦ ground (arith, done_buckets j v (omega arith), others j v l (inl c))
        | inr (inl e) ↦ ground (
          arith,
          done_buckets j v (omega arith),
          subst
              (λ d.
                span (λ x. t.key_buff2 x == v) (below key n (d * size)) (within key size n d)
                ≡ equal key n v)
              e (h.counts v (omega arith)),
        )
        | inr (inr c) ↦ ground (arith, done_buckets j v (omega arith), others j v l (inr c))
      ]

  -- The keys that have been placed, by their number: the ranks are lowered by it.
  pub record Placed (k : ℕ) (p : Placing) : Type 0 where
    pub ranks : (v : ℕ) → v < buckets * size → p.ranks v + done k v ≡ below key n (suc v)
    pub keys :
        (v x : ℕ) → v < buckets * size → p.ranks v ≤ x → x < below key n (suc v) → p.key_array x ≡ v

  module _ (j k : ℕ) (l : j < buckets) (from : below key n (j * size) ≤ k)
      (upto : k < below key n (j * size) + within key size n j) (p : Placing) (r : Placed k p) where
    abbrev v0 : ℕ
    v0 = t.key_buff2 k

    abbrev next : ℕ
    next = below key n (suc j * size)

    inside : suc k ≤ next
    inside = omega (arith, ap (below key n) (suc-times j size), below_bucket key size n j s)

    -- No more keys are placed than there are.
    placed_le : (i v : ℕ) → i ≤ next → done i v ≤ equal key n v
    placed_le i v e =
        let d = done_buckets (suc j) v l in
        let m = span_mono (λ x. t.key_buff2 x == v) i next e in ground (arith, d, m)

    one_more : (v : ℕ) → done (suc k) v ≡ done k v + bit (v0 == v)
    unfolding span
    one_more v = let z : 0 + k ≡ k = omega arith in ap (λ i. done k v + bit (t.key_buff2 i == v)) z

    bounded : v0 < buckets * size
    bounded =
        let o = h.own j k l from upto in
        let b = bucket_bounds v0 size s in
        omega (arith, b.1, ap (λ q. q * size) o, steps j buckets size l)

    -- Where the rank of a value stands.
    rank_ge : (v : ℕ) → v < buckets * size → below key n v ≤ p.ranks v
    rank_ge v b =
        omega (arith, r.ranks v b, placed_le k v (omega (arith, inside)), below-suc key n v)

    rank_pos : below key n v0 < p.ranks v0
    rank_pos =
        let same : (v0 == v0) ≡ true = ground arith in
        omega (
          arith,
          r.ranks v0 bounded,
          placed_le (suc k) v0 inside,
          below-suc key n v0,
          one_more v0,
          ap bit same,
        )

    rank_le : p.ranks v0 ≤ below key n (suc v0)
    rank_le = omega (arith, r.ranks v0 bounded)

    place_key-Placed : Placed (suc k) (place_key v0 p)
    unfolding place_key
    place_key-Placed = record {
      ranks = λ v b. ground (arith, r.ranks v b, one_more v, rank_pos);
      keys = λ v x b a u. keys_step v x b a u;
    }
      where
        own_value :
            (x : ℕ)
            → upd p.ranks v0 (p.ranks v0 - 1) v0 ≤ x
            → x < below key n (suc v0)
            → upd p.key_array (p.ranks v0 - 1) v0 x ≡ v0
        own_value x a u = ground (arith, rank_pos, r.keys v0 x bounded)

        keys_step :
            (v x : ℕ)
            → v < buckets * size
            → upd p.ranks v0 (p.ranks v0 - 1) v ≤ x
            → x < below key n (suc v)
            → upd p.key_array (p.ranks v0 - 1) v0 x ≡ v
        keys_step v x b a u = elim (lt_cases v v0) [
          | inl c ↦
              let q = below_mono key n (suc v) v0 c in ground (arith, q, rank_pos, r.keys v x b)
          | inr (inl e) ↦
              subst
                (λ w.
                  upd p.ranks v0 (p.ranks v0 - 1) w ≤ x
                  → x < below key n (suc w)
                  → upd p.key_array (p.ranks v0 - 1) v0 x ≡ w)
                (sym e) (own_value x) a u
          | inr (inr c) ↦
              let q = below_mono key n (suc v0) v c in
              ground (arith, q, rank_le, rank_pos, rank_ge v b, r.keys v x b)
        ]

  place_bucket-Placed :
      (j : ℕ) (p : Placing)
      → j < buckets
      → Placed (below key n (j * size)) p
      → Placed (below key n (suc j * size)) (place_bucket t j p)
  unfolding place_bucket
  place_bucket-Placed j p l r =
      let e = start_lem size buckets n key s small t h j l in
      let f = ap (below key n) (suc-times j size) ∙ below_bucket key size n j s in
      for_loop_inv Placed (λ i q. place_key (t.key_buff2 i) q)
        (t.bucket_ptrs j - start_of t.bucket_ptrs j) (start_of t.bucket_ptrs j)
        (below key n (suc j * size)) p (omega (arith, e.0, e.1, f))
        (subst (λ k. Placed k p) (sym e.0) r)
        (λ k q a u c. place_key-Placed j k l (omega (arith, e.0)) (omega (arith, f)) q c)

  pub place_keys-Placed :
      (p : Placing)
      → ((v : ℕ) → v < buckets * size → p.ranks v ≡ below key n (suc v))
      → Placed (below key n (buckets * size)) (for_loop buckets 0 (λ j q. place_bucket t j q) p)
  unfolding span
  place_keys-Placed p e =
      for_loop_inv (λ j q. Placed (below key n (j * size)) q) (λ j q. place_bucket t j q) buckets 0
        buckets p (omega arith) (subst (λ k. Placed k p) (sym nothing) (start p e))
        (λ j q a l c. place_bucket-Placed j q l c)
    where
      nothing : below key n (0 * size) ≡ 0
      nothing = let z : 0 * size ≡ 0 = omega arith in ap (below key n) z ∙ below_none key n

      start :
          (p : Placing)
          → ((v : ℕ) → v < buckets * size → p.ranks v ≡ below key n (suc v))
          → Placed 0 p
      start p e = record {
        ranks = λ v b. none_done v ∙ e v b;
        keys = λ v x b a u. absurd (omega (arith, e v b));
      }
        where
          none_done : (v : ℕ) → p.ranks v + done 0 v ≡ p.ranks v
          none_done v = omega arith

  pub done_all :
      (v : ℕ) → v < buckets * size → done (below key n (buckets * size)) v ≡ equal key n v
  done_all v l =
      let b = quotient_lt v size buckets s l in
      let d = done_buckets buckets v (omega arith) in ground (arith, b, d)
