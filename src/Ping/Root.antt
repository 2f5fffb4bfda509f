-- ===== src/Ping/Root.antt =====
-- ping_common.c: the square root by Newton's steps (`llsqrt`).
use baseliner_docker.Base.{
  ℕ, zero, suc, ◌+◌, ◌-◌, ◌*◌, ◌/◌, ◌<◌, ◌≤◌, ltb, ltb→lt, lt→ltb, if◌then◌else◌, ◌≡◌, refl, ap,
  ◌∙◌, Option, none, some, arith, Bool-cases, inl, inr, ℤ, pos, negsuc, ◌^◌,
}

-- The loop; a is below 2^63 - 1, so that x + a/x does not wrap. `none` is a loop that is still running.
unfoldable pub newton : ℕ → ℕ → ℕ → ℕ → Option ℕ
newton zero a prev x = none
newton (suc fuel) a prev x =
    let rest = newton fuel a x ((x + a / x) / 2) in if ltb x prev then rest else some x

abbrev pub max_long_long : ℕ
max_long_long = 2 ^ 63 - 1

unfoldable pub llsqrt : ℕ → ℤ → Option ℤ
llsqrt fuel (pos a) =
    if ltb 0 a
    then elim (newton fuel a max_long_long a) [ none ↦ none | some x ↦ some (pos x) ]
    else some (pos a)
llsqrt fuel (negsuc b) = some (negsuc b)

square_add : (x d : ℕ) → (x + d) * (x + d) ≡ x * x + 2 * (x * d) + d * d
square_add x d = grind arith

times_le : (x m n : ℕ) → m ≤ n → x * m ≤ x * n
times_le x m n h = grind arith

quotient_le : (a x : ℕ) → 0 < x → x * (a / x) ≤ a
quotient_le a x h = grind arith

lt_quotient : (a x : ℕ) → 0 < x → a < x * (a / x) + x
lt_quotient a x h = grind arith

spread : (x q : ℕ) → x * (q + 1) ≡ x * q + x
spread x q = grind arith

spread_two : (x d : ℕ) → x * (x + 2 * d) ≡ x * x + 2 * (x * d)
spread_two x d = grind arith

spread_by : (x d : ℕ) → x * (x + d) ≡ x * x + x * d
spread_by x d = grind arith

large : (d f : ℕ) → (d + f + d) * f ≡ 2 * (d * f) + f * f
large d f = grind arith

above_small : (a s x d : ℕ) → 0 < x → s * s ≤ a → s ≡ x + d → 2 * s ≤ x + a / x
above_small a s x d h r e = elim (Bool-cases (ltb (x + a / x) (2 * s))) [
  | inr c ↦ ground arith
  | inl c ↦
      let q = a / x in
      let l = ltb→lt _ _ c in
      absurd (
        omega (
          arith,
          times_le x (q + 1) (x + 2 * d) (omega (arith, l, e)),
          spread x q,
          spread_two x d,
          lt_quotient a x h,
          square_add x d,
          ap (λ t. t * t) e,
          r,
        ))
]

above_large : (a s x d : ℕ) → 0 < x → s * s ≤ a → x ≡ s + d → 2 * s ≤ x + a / x
above_large a s x d h r e = elim (Bool-cases (ltb (x + a / x) (2 * s))) [
  | inr c ↦ ground arith
  | inl c ↦
      let q = a / x in
      let l = ltb→lt _ _ c in
      let f = s - d in
      let k : s ≡ d + f = omega (arith, l, e) in
      absurd (
        omega (
          arith,
          times_le x (q + 1) f (omega (arith, l, e)),
          spread x q,
          ap (λ t. t * f) (e ∙ ap (λ t. t + d) k),
          large d f,
          lt_quotient a x h,
          square_add d f,
          ap (λ t. t * t) k,
          r,
        ))
]

-- A step does not go below the root.
above_root : (a s x : ℕ) → 0 < x → s * s ≤ a → s ≤ (x + a / x) / 2
above_root a s x h r = elim (Bool-cases (ltb x s)) [
  | inl c ↦
      let l = ltb→lt _ _ c in
      let k : s ≡ x + (s - x) = omega arith in omega (arith, above_small a s x (s - x) h r k)
  | inr c ↦
      let l : s ≤ x = ground arith in
      let k : x ≡ s + (x - s) = omega arith in omega (arith, above_large a s x (x - s) h r k)
]

-- The root of a, but n where a is one below the square of n.
abbrev pub IsRoot : ℕ → ℕ → Type 0
IsRoot a r = (r * r ≤ a + 1) × (a < (r + 1) * (r + 1))

-- No root is above x.
abbrev Bounds : ℕ → ℕ → Type 0
Bounds a x = (s : ℕ) → s * s ≤ a → s ≤ x

above_square : (a x : ℕ) → Bounds a x → a < (x + 1) * (x + 1)
above_square a x b = elim (Bool-cases (ltb a ((x + 1) * (x + 1)))) [
  | inl c ↦ ltb→lt _ _ c
  | inr c ↦ let l = b (x + 1) (ground arith) in absurd (omega arith)
]

quotient_near : (a p : ℕ) → 0 < p → Bounds a p → a / p ≤ p + 2
quotient_near a p h b = elim (Bool-cases (ltb (p + 2) (a / p))) [
  | inr c ↦ ground arith
  | inl c ↦
      let l = ltb→lt _ _ c in
      absurd (
        omega (
          arith,
          l,
          times_le p (p + 3) (a / p) (omega (arith, l)),
          quotient_le a p h,
          above_square a p b,
          square_add p 1,
          spread_by p 3,
        ))
]

last_below : (a p x : ℕ) → 0 < p → Bounds a p → x ≡ (p + a / p) / 2 → p ≤ x → x * x ≤ a + 1
last_below a p x h b e l =
    let q = a / p in
    let near = quotient_near a p h b in
    let below = quotient_le a p h in
    let above : p ≤ q = omega (arith, e, l) in
    elim (Bool-cases (ltb p x)) [
      | inr c ↦
          let k : x ≡ p = ground arith in
          omega (arith, ap (λ t. t * t) k, times_le p p q above, below)
      | inl c ↦
          let g = ltb→lt _ _ c in
          let k : x ≡ p + 1 = omega (arith, e, g, near) in
          omega (
            arith,
            ap (λ t. t * t) k,
            times_le p (p + 2) q (omega (arith, e, g)),
            below,
            square_add p 1,
            spread_by p 2,
          )
    ]

newton_lem :
    (fuel a prev x : ℕ)
    → 0 < a
    → 0 < x
    → 0 < fuel
    → (x < prev → x < fuel)
    → (prev ≤ x → IsRoot a x)
    → Bounds a x
    → (r : ℕ) × (newton fuel a prev x ≡ some r) × IsRoot a r
unfolding newton
newton_lem zero a prev x g h f m l b = absurd (omega arith)
newton_lem (suc fuel) a prev x g h f m l b = elim (Bool-cases (ltb x prev)) [
  | inr c ↦ (x, rw (newton, c) refl, l (ground arith))
  | inl c ↦
      let y = (x + a / x) / 2 in
      let k = m (ltb→lt _ _ c) in
      let up : Bounds a y = λ s r. above_root a s x h r in
      let (r, e, i) =
        newton_lem fuel a x y g (up 1 (omega arith)) (omega arith) (λ j. omega (arith, j, k))
          (λ j. (last_below a x y h b refl j, above_square a y up)) up in
      (r, rw (newton, c) e, i)
]

le_square : (s : ℕ) → s ≤ s * s
le_square zero = omega arith
le_square (suc s) = grind arith

-- For 0 < a < 2^63 - 1, llsqrt ends with at most a + 1 tests of its loop, and returns some r with
-- r*r <= a + 1 and a < (r + 1)^2: the root rounded down, or n where a is n*n - 1.
pub llsqrt_lem :
    (fuel a : ℕ)
    → 0 < a
    → a < max_long_long
    → a < fuel
    → (r : ℕ) × (llsqrt fuel (pos a) ≡ some (pos r)) × IsRoot a r
unfolding llsqrt
llsqrt_lem fuel a h l f =
    let (r, e, i) =
      newton_lem fuel a max_long_long a h h (omega arith) (λ j. f) (λ j. absurd (omega arith))
        (λ s k. omega (arith, le_square s, k)) in
    (r, rw (lt→ltb 0 a h, e) refl, i)
