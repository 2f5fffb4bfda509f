-- ===== src/Is/Loops.antt =====
-- is.c: counted loops over arrays. An array is a function of the index.
use mathlib.Core.Path.{subst}
use baseliner_docker.Base.{
  ℕ, zero, suc, ◌+◌, ◌<◌, ◌≤◌, Bool, true, false, ◌==◌, if◌then◌else◌, ◌≡◌, arith,
}

abbrev pub Array : Type 0
Array = ℕ → ℕ

-- `a[k] = v`
abbrev pub upd : Array → ℕ → ℕ → Array
upd a k v j = if j == k then v else a j

-- `for (i = first; i < first + n; i++)`
unfoldable pub for_loop {ℓ} : {S : Type ℓ} → ℕ → ℕ → (ℕ → S → S) → S → S
for_loop zero first body s = s
for_loop (suc n) first body s = for_loop n (suc first) body (body first s)

-- An invariant of the loop holds behind it.
pub for_loop_inv {ℓ κ} :
    {S : Type ℓ} (P : ℕ → S → Type κ) (body : ℕ → S → S) (n first last : ℕ) (s : S)
    → first + n ≡ last
    → P first s
    → ((i : ℕ) (t : S) → first ≤ i → i < last → P i t → P (suc i) (body i t))
    → P last (for_loop n first body s)
unfolding for_loop
for_loop_inv P body zero first last s e p keep = subst (λ k. P k s) (omega (arith, e)) p
for_loop_inv P body (suc n) first last s e p keep =
    for_loop_inv P body n (suc first) last (body first s) (omega (arith, e))
      (keep first s (omega arith) (omega (arith, e)) p) (λ i t a b q. keep i t (omega arith) b q)

-- How many of the n indices from `first` on pass the test.
abbrev pub bit : Bool → ℕ
bit true = 1
bit false = 0

unfoldable pub span : (ℕ → Bool) → ℕ → ℕ → ℕ
span p first zero = 0
span p first (suc n) = span p first n + bit (p (first + n))
