-- ===== src/Is/Buckets.antt =====
-- is.c: `rank` sorts the keys into their buckets.
use mathlib.Core.Path.{subst}
use baseliner_docker.Base.{
  ℕ, zero, suc, ◌+◌, ◌*◌, ◌/◌, ◌<◌, ◌≤◌, Bool, false, ◌==◌, ◌≡◌, refl, sym, ap, ◌∙◌, arith, inl,
  inr, Bool-cases, ==_iff, ◌⊎◌, ap₂, ◌≢◌,
}
use baseliner_docker.Is.Loops.{Array, upd, for_loop_inv, bit, span}
use baseliner_docker.Is.Ranking.{Sorting, sort_key, sort_keys}
use baseliner_docker.Is.Counting.{below, equal, within, below_mono, below_bucket, steps, lt_cases}

zero_of : (i : ℕ) → i ≤ 0 → i ≡ 0
zero_of i h = omega arith

-- Counts depend on the values in the range alone.
pub span_ext :
    (p q : ℕ → Bool) (first n : ℕ)
    → ((k : ℕ) → first ≤ k → k < first + n → p k ≡ q k)
    → span p first n ≡ span q first n
unfolding span
span_ext p q first zero h = refl
span_ext p q first (suc n) h =
    ap₂ (λ (x : ℕ) b. x + bit b) (span_ext p q first n (λ k l u. h k l (omega arith)))
      (h (first + n) (omega arith) (omega arith))

pub upd_other : (a : Array) (k v j : ℕ) → (j < k) ⊎ (k < j) → upd a k v j ≡ a j
upd_other a k v j (inl h) = ground arith
upd_other a k v j (inr h) = ground arith

module _ (size buckets n : ℕ) (key : Array) (s : 0 < size)
    (small : (i : ℕ) → i < n → key i / size < buckets) where
  -- Where bucket b starts.
  abbrev pub base : ℕ → ℕ
  base b = below key n (b * size)

  pub within_mono : (b i j : ℕ) → i ≤ j → within key size i b ≤ within key size j b
  unfolding span
  within_mono b i zero h = omega (arith, ap (λ k. within key size k b) (zero_of i h))
  within_mono b i (suc j) h = elim (lt_cases i (suc j)) [
    | inl p ↦ omega (arith, within_mono b i j (omega arith))
    | inr (inl e) ↦ omega (arith, ap (λ k. within key size k b) e)
    | inr (inr p) ↦ absurd (omega arith)
  ]

  -- The keys moved so far.
  pub record Scattered (i : ℕ) (t : Sorting) : Type 0 where
    pub ptrs : (b : ℕ) → b < buckets → t.bucket_ptrs b ≡ base b + within key size i b
    pub counts :
        (v : ℕ)
        → v / size < buckets
        → span (λ k. t.key_buff2 k == v) (base (v / size)) (within key size i (v / size))
          ≡ equal key i v
    pub own :
        (b k : ℕ)
        → b < buckets
        → base b ≤ k
        → k < base b + within key size i b
        → t.key_buff2 k / size ≡ b

  module _ (i : ℕ) (t : Sorting) (h : Scattered i t) (p : i < n) where
    abbrev b0 : ℕ
    b0 = key i / size

    -- There is room for the key in its bucket.
    in_bucket : base b0 + within key size i b0 < below key n (b0 * size + size)
    unfolding span
    in_bucket =
        let one : within key size (suc i) b0 ≡ within key size i b0 + 1 = ground arith in
        omega (arith, one, within_mono b0 (suc i) n p, below_bucket key size n b0 s)

    before_bucket : (b : ℕ) → b < b0 → base b + within key size i b ≤ base b0
    before_bucket b l = omega (
      arith,
      within_mono b i n (omega arith),
      below_bucket key size n b s,
      below_mono key n (b * size + size) (b0 * size) (steps b b0 size l),
    )

    after_bucket : (b : ℕ) → b0 < b → base b0 + within key size i b0 < base b
    after_bucket b l =
        omega (arith, in_bucket, below_mono key n (b0 * size + size) (b * size) (steps b0 b size l))

    here : t.bucket_ptrs b0 ≡ base b0 + within key size i b0
    here = h.ptrs b0 (small i p)

    abbrev moved : Sorting
    moved = record {
      key_buff2 = upd t.key_buff2 (t.bucket_ptrs b0) (key i);
      bucket_ptrs = upd t.bucket_ptrs b0 (t.bucket_ptrs b0 + 1);
    }

    -- The places of the buckets that were filled before keep their keys.
    kept :
        (b k : ℕ)
        → base b ≤ k
        → k < base b + within key size i b
        → moved.key_buff2 k ≡ t.key_buff2 k
    kept b k l u = upd_other t.key_buff2 (t.bucket_ptrs b0) (key i) k (elim (lt_cases b b0) [
      | inl c ↦ inl (omega (arith, before_bucket b c, here))
      | inr (inl e) ↦ inl (omega (arith, here, ap (λ d. base d + within key size i d) e))
      | inr (inr c) ↦ inr (omega (arith, after_bucket b c, here))
    ])

    newcomer : moved.key_buff2 (base b0 + within key size i b0) ≡ key i
    newcomer = ground (arith, here)

    grown : within key size (suc i) b0 ≡ suc (within key size i b0)
    unfolding span
    grown = ground arith

    unchanged : (b : ℕ) → b0 ≢ b → within key size (suc i) b ≡ within key size i b
    unfolding span
    unchanged b e = ground arith

    counts_here :
        (v : ℕ)
        → b0 ≡ v / size
        → span (λ k. moved.key_buff2 k == v) (base b0) (within key size (suc i) b0)
          ≡ equal key (suc i) v
    unfolding span
    counts_here v e =
        ap (span (λ k. moved.key_buff2 k == v) (base b0)) grown
        ∙ ap₂ (λ (x : ℕ) y. x + bit (y == v))
            (span_ext (λ k. moved.key_buff2 k == v) (λ k. t.key_buff2 k == v) (base b0)
                (within key size i b0) (λ k l u. ap (λ x. x == v) (kept b0 k l u))
              ∙ ap (λ b. span (λ k. t.key_buff2 k == v) (base b) (within key size i b)) e
              ∙ h.counts v (subst (λ b. b < buckets) e (small i p)))
            (newcomer ∙ ap key (omega arith))

    other_key : (v : ℕ) → b0 ≢ v / size → bit (key (0 + i) == v) ≡ 0
    other_key v e = elim (Bool-cases (key (0 + i) == v)) [
      | inl c ↦
          absurd
            (e (ap (λ x. x / size) (sym (ap key (omega arith)) ∙ (==_iff (key (0 + i)) v).0 c)))
      | inr c ↦ rw c refl
    ]

    counts_there :
        (v : ℕ)
        → v / size < buckets
        → b0 ≢ v / size
        → span (λ k. moved.key_buff2 k == v) (base (v / size)) (within key size (suc i) (v / size))
          ≡ equal key (suc i) v
    unfolding span
    counts_there v l e =
        ap (span (λ k. moved.key_buff2 k == v) (base (v / size))) (unchanged (v / size) e)
        ∙ span_ext (λ k. moved.key_buff2 k == v) (λ k. t.key_buff2 k == v) (base (v / size))
            (within key size i (v / size)) (λ k a u. ap (λ x. x == v) (kept (v / size) k a u))
        ∙ h.counts v l
        ∙ omega (arith, other_key v e)

    own_step :
        (b k : ℕ)
        → b < buckets
        → base b ≤ k
        → k < base b + within key size (suc i) b
        → moved.key_buff2 k / size ≡ b
    own_step b k l a u = elim (Bool-cases (b0 == b)) [
      | inr e ↦
          let r = unchanged b (λ q. false_of b q e) in
          ap (λ x. x / size) (kept b k a (omega (arith, r))) ∙ h.own b k l a (omega (arith, r))
      | inl e ↦
          let q = (==_iff b0 b).0 e in
          let r = ap (λ d. base d + within key size i d) q in
          let g = grown ∙ ap (λ d. suc (within key size i d)) q in
          let g' = ap (λ d. within key size (suc i) d) q in
          elim (lt_cases k (base b + within key size i b)) [
            | inl c ↦ ap (λ x. x / size) (kept b k a c) ∙ h.own b k l a c
            | inr (inl c) ↦ ap (λ x. x / size) (ap moved.key_buff2 (c ∙ sym r) ∙ newcomer) ∙ q
            | inr (inr c) ↦ absurd (omega (arith, g, g'))
          ]
    ]
      where
        false_of : (b : ℕ) → b0 ≡ b → (b0 == b) ≡ false → ⊥
        false_of b q e = ground arith

    sort_key-Scattered : Scattered (suc i) (sort_key size (key i) t)
    unfolding sort_key
    sort_key-Scattered = record {
      ptrs = λ b l. ptrs_step b l;
      counts = λ v l. counts_step v l;
      own = own_step;
    }
      where
        ptrs_step : (b : ℕ) → b < buckets → moved.bucket_ptrs b ≡ base b + within key size (suc i) b
        ptrs_step b l = elim (Bool-cases (b0 == b)) [
          | inl e ↦
              let q = (==_iff b0 b).0 e in
              subst (λ d. moved.bucket_ptrs d ≡ base d + within key size (suc i) d) q
                (ground (arith, here, grown))
          | inr e ↦ ground (arith, h.ptrs b l, unchanged b (λ q. false_again b q e))
        ]
          where
            false_again : (b : ℕ) → b0 ≡ b → (b0 == b) ≡ false → ⊥
            false_again b q e = ground arith

        counts_step :
            (v : ℕ)
            → v / size < buckets
            → span
                (λ k. moved.key_buff2 k == v)
                (base (v / size))
                (within key size (suc i) (v / size))
              ≡ equal key (suc i) v
        counts_step v l = elim (Bool-cases (b0 == v / size)) [
          | inl e ↦
              let q = (==_iff b0 (v / size)).0 e in
              subst
                (λ d.
                  span (λ k. moved.key_buff2 k == v) (base d) (within key size (suc i) d)
                  ≡ equal key (suc i) v)
                q (counts_here v q)
          | inr e ↦ counts_there v l (λ q. differs q e)
        ]
          where
            differs : b0 ≡ v / size → (b0 == v / size) ≡ false → ⊥
            differs q e = ground arith

  -- All keys are moved to their buckets.
  pub sort_keys-Scattered :
      (t : Sorting)
      → ((b : ℕ) → b < buckets → t.bucket_ptrs b ≡ base b)
      → Scattered n (sort_keys size n key t)
  unfolding sort_keys span
  sort_keys-Scattered t e =
      for_loop_inv Scattered (λ i u. sort_key size (key i) u) n 0 n t (omega arith) (start t e)
        (λ i u l p h. sort_key-Scattered i u h p)
    where
      start : (t : Sorting) → ((b : ℕ) → b < buckets → t.bucket_ptrs b ≡ base b) → Scattered 0 t
      start t e = record {
        ptrs = λ b l. e b l ∙ omega arith;
        counts = λ v l. refl;
        own = λ b k l a u. absurd (omega arith);
      }
