-- ===== src/Is/Tallies.antt =====
-- is.c: the counts of `rank` by bucket, and where its buckets start.
use baseliner_docker.Base.{
  ℕ, zero, suc, ◌+◌, ◌-◌, ◌*◌, ◌/◌, ◌<◌, ◌≤◌, ◌==◌, ◌≡◌, sym, ap, ◌∙◌, arith, inl, inr, Bool-cases,
  ap₂,
}
use baseliner_docker.Is.Loops.{Array, upd, for_loop, for_loop_inv, span}
use baseliner_docker.Is.Ranking.{clear, tally, add_previous, count_keys, accumulate}
use baseliner_docker.Is.Counting.{below, within, below_none, below_bucket}

pub suc-times : (i size : ℕ) → suc i * size ≡ i * size + size
suc-times i size = grind arith

module _ (size buckets n : ℕ) (key : Array) (s : 0 < size)
    (small : (i : ℕ) → i < n → key i / size < buckets) where
  -- What the first loop counts.
  pub count_keys_lem :
      (work : Array) (b : ℕ)
      → b < buckets
      → count_keys size buckets n key work b ≡ within key size n b
  unfolding count_keys span
  count_keys_lem work b h =
      for_loop_inv (λ i (w : Array). w b ≡ within key size i b) (λ i w. tally (key i / size) w) n 0
        n (for_loop buckets 0 clear work) (omega arith)
        (for_loop_inv (λ i (w : Array). b < i → w b ≡ 0) clear buckets 0 buckets work (omega arith)
          (λ l. absurd (omega arith)) (λ i w l u p q. ground (arith, p)) h)
        (λ i w l u p. ground arith)

  pub accumulate_lem :
      (work ptrs : Array)
      → ((b : ℕ) → b < buckets → work b ≡ within key size n b)
      → (b : ℕ) → b < buckets
      → accumulate buckets work ptrs b ≡ below key n (b * size)
  unfolding accumulate
  accumulate_lem work ptrs w b h =
      for_loop_inv (λ i (p : Array). (c : ℕ) → c < i → p c ≡ below key n (c * size))
        (add_previous work) (buckets - 1) 1 buckets (upd ptrs 0 0) (omega arith)
        (λ c p. ground (arith, below_none key n)) (λ i p l u q c r. step i p c l u q r) b h
    where
      step :
          (i : ℕ) (p : Array) (c : ℕ)
          → 1 ≤ i
          → i < buckets
          → ((d : ℕ) → d < i → p d ≡ below key n (d * size))
          → c < suc i
          → add_previous work i p c ≡ below key n (c * size)
      step zero p c l u q r = absurd (omega arith)
      step (suc i) p c l u q r = elim (Bool-cases (c == suc i)) [
        | inl e ↦
            let back : suc i - 1 ≡ i = omega arith in
            let same : suc i ≡ c = ground arith in
            rw e (
              ap₂ (λ (x : ℕ) y. x + y) (ap p back ∙ q i (omega arith))
                (ap work back ∙ w i (omega arith))
              ∙ sym (below_bucket key size n i s)
              ∙ ap (below key n) (sym (suc-times i size))
              ∙ ap (λ d. below key n (d * size)) same)
        | inr e ↦ rw e (q c (ground arith))
      ]
