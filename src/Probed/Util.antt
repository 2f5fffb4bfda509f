-- ===== src/Probed/Util.antt =====
-- SLANG-probed/util.c: differences and comparisons of times. The fields of a timespec are integers
-- without bound; the program's times are far from the limits of `long`.
use baseliner_docker.Base.{
  ◌≡◌, arith, ℤ, pos, negsuc, ◌+ℤ◌, ◌-ℤ◌, ◌≤ℤ◌, ◌<ℤ◌, ltb_ℤ, ltb→lt, lt→ltb, sym, if◌then◌else◌,
  Bool, true, false, int_laws, Bool-cases, inl, inr,
}
use baseliner_docker.Clock.{Timespec, IsNormal, giga, nanos, nanos_parts}

abbrev ts : ℤ → ℤ → Timespec
ts s n = record { sec = s; nsec = n }

-- `diff_ts`: the difference, and whether it is negative.
unfoldable pub diff_ts : Timespec → Timespec → Timespec × Bool
diff_ts a b =
    if ltb_ℤ b.sec a.sec
    then (if ltb_ℤ b.nsec a.nsec
        then (ts (a.sec -ℤ b.sec) (a.nsec -ℤ b.nsec), false)
        else if ltb_ℤ a.nsec b.nsec
        then (ts (a.sec -ℤ b.sec -ℤ pos 1) (pos giga +ℤ a.nsec -ℤ b.nsec), false)
        else (ts (a.sec -ℤ b.sec) (pos 0), false))
    else if ltb_ℤ a.sec b.sec
    then (if ltb_ℤ b.nsec a.nsec
        then (ts (b.sec -ℤ a.sec -ℤ pos 1) (b.nsec +ℤ pos giga -ℤ a.nsec), true)
        else if ltb_ℤ a.nsec b.nsec
        then (ts (b.sec -ℤ a.sec) (b.nsec -ℤ a.nsec), true)
        else (ts (b.sec -ℤ a.sec) (pos 0), true))
    else if ltb_ℤ b.nsec a.nsec
    then (ts (pos 0) (a.nsec -ℤ b.nsec), false)
    else if ltb_ℤ a.nsec b.nsec
    then (ts (pos 0) (b.nsec -ℤ a.nsec), true)
    else (ts (pos 0) (pos 0), false)

-- `cmp_ts`
unfoldable pub cmp_ts : Timespec → Timespec → ℤ
cmp_ts a b =
    if ltb_ℤ a.sec b.sec
    then negsuc 0
    else if ltb_ℤ b.sec a.sec
    then pos 1
    else if ltb_ℤ a.nsec b.nsec
    then negsuc 0
    else if ltb_ℤ b.nsec a.nsec
    then pos 1
    else pos 0

-- The difference d of a and b, with its sign.
pub record Differs (a b : Timespec) (d : Timespec × Bool) : Type 0 where
  pub normal : IsNormal d.0
  pub nonneg : pos 0 ≤ℤ d.0.sec
  pub value : nanos d.0 ≡ (if d.1 then nanos b -ℤ nanos a else nanos a -ℤ nanos b)
  pub sign : d.1 ≡ ltb_ℤ (nanos a) (nanos b)

lt_of_test : (x y : ℤ) → ltb_ℤ x y ≡ true → x <ℤ y
lt_of_test x y h = ltb→lt _ _ h

le_of_test : (x y : ℤ) → ltb_ℤ x y ≡ false → y ≤ℤ x
le_of_test x y h = ground arith

test_of_lt : (x y : ℤ) → x <ℤ y → ltb_ℤ x y ≡ true
test_of_lt x y h = lt→ltb _ _ h

test_of_le : (x y : ℤ) → y ≤ℤ x → ltb_ℤ x y ≡ false
test_of_le x y h = ground arith

forward :
    (a b r : Timespec)
    → IsNormal r
    → pos 0 ≤ℤ r.sec
    → nanos r ≡ nanos a -ℤ nanos b
    → nanos b ≤ℤ nanos a
    → Differs a b (r, false)
forward a b r n p e h = record {
  normal = n;
  nonneg = p;
  value = e;
  sign = sym (test_of_le (nanos a) (nanos b) h);
}

backward :
    (a b r : Timespec)
    → IsNormal r
    → pos 0 ≤ℤ r.sec
    → nanos r ≡ nanos b -ℤ nanos a
    → nanos a <ℤ nanos b
    → Differs a b (r, true)
backward a b r n p e h = record {
  normal = n;
  nonneg = p;
  value = e;
  sign = sym (test_of_lt (nanos a) (nanos b) h);
}

ruleset nano_laws = (int_laws, nanos_parts)

-- For times with nanoseconds of one second, `diff_ts` returns the distance of the two times, with
-- nanoseconds of one second, and says exactly if the first time is the earlier one.
pub diff_ts-Differs : (a b : Timespec) → IsNormal a → IsNormal b → Differs a b (diff_ts a b)
unfolding diff_ts
diff_ts-Differs a b na nb = elim (Bool-cases (ltb_ℤ b.sec a.sec)) [
  | inl p ↦
      let p' = lt_of_test b.sec a.sec p in
      elim (Bool-cases (ltb_ℤ b.nsec a.nsec)) [
        | inl q ↦
            let q' = lt_of_test b.nsec a.nsec q in
            rw (p, q)
              (forward a b (ts (a.sec -ℤ b.sec) (a.nsec -ℤ b.nsec))
                (record { low = omega int_laws; high = omega int_laws }) (omega int_laws)
                (omega nano_laws) (omega nano_laws))
        | inr q ↦
            let q' = le_of_test b.nsec a.nsec q in
            elim (Bool-cases (ltb_ℤ a.nsec b.nsec)) [
              | inl w ↦
                  let w' = lt_of_test a.nsec b.nsec w in
                  rw (p, q, w)
                    (forward a b (ts (a.sec -ℤ b.sec -ℤ pos 1) (pos giga +ℤ a.nsec -ℤ b.nsec))
                      (record { low = omega int_laws; high = omega int_laws }) (omega int_laws)
                      (omega nano_laws) (omega nano_laws))
              | inr w ↦
                  let w' = le_of_test a.nsec b.nsec w in
                  rw (p, q, w)
                    (forward a b (ts (a.sec -ℤ b.sec) (pos 0))
                      (record { low = omega int_laws; high = omega int_laws }) (omega int_laws)
                      (omega nano_laws) (omega nano_laws))
            ]
      ]
  | inr p ↦
      let p' = le_of_test b.sec a.sec p in
      elim (Bool-cases (ltb_ℤ a.sec b.sec)) [
        | inl o ↦
            let o' = lt_of_test a.sec b.sec o in
            elim (Bool-cases (ltb_ℤ b.nsec a.nsec)) [
              | inl q ↦
                  let q' = lt_of_test b.nsec a.nsec q in
                  rw (p, o, q)
                    (backward a b (ts (b.sec -ℤ a.sec -ℤ pos 1) (b.nsec +ℤ pos giga -ℤ a.nsec))
                      (record { low = omega int_laws; high = omega int_laws }) (omega int_laws)
                      (omega nano_laws) (omega nano_laws))
              | inr q ↦
                  let q' = le_of_test b.nsec a.nsec q in
                  elim (Bool-cases (ltb_ℤ a.nsec b.nsec)) [
                    | inl w ↦
                        let w' = lt_of_test a.nsec b.nsec w in
                        rw (p, o, q, w)
                          (backward a b (ts (b.sec -ℤ a.sec) (b.nsec -ℤ a.nsec))
                            (record { low = omega int_laws; high = omega int_laws })
                            (omega int_laws) (omega nano_laws) (omega nano_laws))
                    | inr w ↦
                        let w' = le_of_test a.nsec b.nsec w in
                        rw (p, o, q, w)
                          (backward a b (ts (b.sec -ℤ a.sec) (pos 0))
                            (record { low = omega int_laws; high = omega int_laws })
                            (omega int_laws) (omega nano_laws) (omega nano_laws))
                  ]
            ]
        | inr o ↦
            let o' = le_of_test a.sec b.sec o in
            elim (Bool-cases (ltb_ℤ b.nsec a.nsec)) [
              | inl q ↦
                  let q' = lt_of_test b.nsec a.nsec q in
                  rw (p, o, q)
                    (forward a b (ts (pos 0) (a.nsec -ℤ b.nsec))
                      (record { low = omega int_laws; high = omega int_laws }) (omega int_laws)
                      (omega nano_laws) (omega nano_laws))
              | inr q ↦
                  let q' = le_of_test b.nsec a.nsec q in
                  elim (Bool-cases (ltb_ℤ a.nsec b.nsec)) [
                    | inl w ↦
                        let w' = lt_of_test a.nsec b.nsec w in
                        rw (p, o, q, w)
                          (backward a b (ts (pos 0) (b.nsec -ℤ a.nsec))
                            (record { low = omega int_laws; high = omega int_laws })
                            (omega int_laws) (omega nano_laws) (omega nano_laws))
                    | inr w ↦
                        let w' = le_of_test a.nsec b.nsec w in
                        rw (p, o, q, w)
                          (forward a b (ts (pos 0) (pos 0))
                            (record { low = omega int_laws; high = omega int_laws })
                            (omega int_laws) (omega nano_laws) (omega nano_laws))
                  ]
            ]
      ]
]

-- -1, 0 or 1 as x is less than y, equal to it, or greater.
abbrev pub sign_of : ℤ → ℤ → ℤ
sign_of x y = if ltb_ℤ x y then negsuc 0 else if ltb_ℤ y x then pos 1 else pos 0

sign_less : (x y : ℤ) → x <ℤ y → negsuc 0 ≡ sign_of x y
sign_less x y h = rw (test_of_lt x y h)

sign_more : (x y : ℤ) → y <ℤ x → pos 1 ≡ sign_of x y
sign_more x y h = rw (test_of_le x y (omega arith), test_of_lt y x h)

sign_same : (x y : ℤ) → x ≤ℤ y → y ≤ℤ x → pos 0 ≡ sign_of x y
sign_same x y h k = rw (test_of_le x y k, test_of_le y x h)

-- For times with nanoseconds of one second, `cmp_ts` is -1, 0 or 1 as the first time is earlier than
-- the second, the same, or later.
cmp_ts_lem : (a b : Timespec) → IsNormal a → IsNormal b → cmp_ts a b ≡ sign_of (nanos a) (nanos b)
unfolding cmp_ts
cmp_ts_lem a b na nb = elim (Bool-cases (ltb_ℤ a.sec b.sec)) [
  | inl p ↦
      let p' = lt_of_test a.sec b.sec p in rw p (sign_less (nanos a) (nanos b) (omega nano_laws))
  | inr p ↦
      let p' = le_of_test a.sec b.sec p in
      elim (Bool-cases (ltb_ℤ b.sec a.sec)) [
        | inl q ↦
            let q' = lt_of_test b.sec a.sec q in
            rw (p, q) (sign_more (nanos a) (nanos b) (omega nano_laws))
        | inr q ↦
            let q' = le_of_test b.sec a.sec q in
            elim (Bool-cases (ltb_ℤ a.nsec b.nsec)) [
              | inl o ↦
                  let o' = lt_of_test a.nsec b.nsec o in
                  rw (p, q, o) (sign_less (nanos a) (nanos b) (omega nano_laws))
              | inr o ↦
                  let o' = le_of_test a.nsec b.nsec o in
                  elim (Bool-cases (ltb_ℤ b.nsec a.nsec)) [
                    | inl w ↦
                        let w' = lt_of_test b.nsec a.nsec w in
                        rw (p, q, o, w) (sign_more (nanos a) (nanos b) (omega nano_laws))
                    | inr w ↦
                        let w' = le_of_test b.nsec a.nsec w in
                        rw (p, q, o, w)
                          (sign_same (nanos a) (nanos b) (omega nano_laws) (omega nano_laws))
                  ]
            ]
      ]
]
