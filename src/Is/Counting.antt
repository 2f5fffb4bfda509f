-- ===== src/Is/Counting.antt =====
-- is.c: how many keys there are below a value, with a value, and in a bucket.
use Prim.Native.Nat.{compare, Ordering}
use Prim.Native.Nat.Ordering.{lt, eq, gt}
use baseliner_docker.Base.{
  ℕ, zero, suc, ◌+◌, ◌*◌, ◌/◌, ◌<◌, ◌≤◌, ltb, ◌==◌, ◌≡◌, refl, ap, arith, inl, inr, ◌⊎◌,
}
use baseliner_docker.Is.Loops.{Array, bit, span}

pub lt_cases : (a b : ℕ) → (a < b) ⊎ (a ≡ b) ⊎ (b < a)
lt_cases a b = three (compare a b) refl
  where
    three : (o : Ordering) → compare a b ≡ o → (a < b) ⊎ (a ≡ b) ⊎ (b < a)
    three lt e = inl (ground arith)
    three eq e = inr (inl (ground arith))
    three gt e = inr (inr (ground arith))

quotient_le : (k s : ℕ) → 0 < s → k / s * s ≤ k
quotient_le k s h = grind arith

lt_quotient : (k s : ℕ) → 0 < s → k < k / s * s + s
lt_quotient k s h = grind arith

pub steps : (c b s : ℕ) → c < b → c * s + s ≤ b * s
steps c b s h = grind arith

pub bucket_bounds : (k s : ℕ) → 0 < s → (k / s * s ≤ k) × (k < k / s * s + s)
bucket_bounds k s h = (quotient_le k s h, lt_quotient k s h)

pub bucket_unique : (k s b : ℕ) → 0 < s → b * s ≤ k → k < b * s + s → k / s ≡ b
bucket_unique k s b h l u = elim (lt_cases (k / s) b) [
  | inl p ↦ absurd (omega (arith, lt_quotient k s h, steps (k / s) b s p))
  | inr (inl e) ↦ e
  | inr (inr p) ↦ absurd (omega (arith, quotient_le k s h, steps b (k / s) s p))
]

bit_bucket : (k s b : ℕ) → 0 < s → bit (ltb k (b * s + s)) ≡ bit (ltb k (b * s)) + bit (k / s == b)
bit_bucket k s b h = elim (lt_cases (k / s) b) [
  | inl p ↦ ground (arith, lt_quotient k s h, steps (k / s) b s p)
  | inr (inl e) ↦ ground (arith, quotient_le k s h, lt_quotient k s h, ap (λ q. q * s) e)
  | inr (inr p) ↦ ground (arith, quotient_le k s h, steps b (k / s) s p)
]

module _ (key : Array) where
  -- Of the first n keys, those below v, those equal to v, and those of bucket b.
  abbrev pub below : ℕ → ℕ → ℕ
  below n v = span (λ i. ltb (key i) v) 0 n

  abbrev pub equal : ℕ → ℕ → ℕ
  equal n v = span (λ i. key i == v) 0 n

  abbrev pub within : ℕ → ℕ → ℕ → ℕ
  within size n b = span (λ i. key i / size == b) 0 n

  pub below-suc : (n v : ℕ) → below n (suc v) ≡ below n v + equal n v
  unfolding span
  below-suc zero v = omega arith
  below-suc (suc n) v = ground (arith, below-suc n v)

  pub below_mono : (n u v : ℕ) → u ≤ v → below n u ≤ below n v
  unfolding span
  below_mono zero u v h = omega arith
  below_mono (suc n) u v h = ground (arith, below_mono n u v h)

  pub below_grows : (n u v : ℕ) → u ≤ v → below n v + below (suc n) u ≤ below (suc n) v + below n u
  unfolding span
  below_grows n u v h = ground arith

  pub below_none : (n : ℕ) → below n 0 ≡ 0
  unfolding span
  below_none zero = refl
  below_none (suc n) = ground (arith, below_none n)

  pub below_all : (n v : ℕ) → ((i : ℕ) → i < n → key i < v) → below n v ≡ n
  unfolding span
  below_all zero v h = refl
  below_all (suc n) v h =
      ground (arith, below_all n v (λ i p. h i (omega arith)), h n (omega arith))

  pub below_bucket :
      (size n b : ℕ) → 0 < size → below n (b * size + size) ≡ below n (b * size) + within size n b
  unfolding span
  below_bucket size zero b h = omega arith
  below_bucket size (suc n) b h =
      omega (arith, below_bucket size n b h, bit_bucket (key (0 + n)) size b h)
