-- ===== src/Ninfod/Ending.antt =====
-- When `compare_dnsname` ends.
use baseliner_docker.Base.{
  ℕ, zero, suc, ◌+◌, ◌-◌, ◌<◌, ◌≤◌, Bool, true, false, not, ◌&&◌, ◌||◌, if◌then◌else◌, ◌==◌, ltb,
  List, [], ◌∷◌, some, length, take, drop, ℤ, pos, negsuc, ◌+ℤ◌, ltb_ℤ, leb_ℤ, eqb_ℤ, arith, ◌≡◌,
  refl, Bool-cases, inl, inr, if_rule, length-take, ap, ap₂,
}
use baseliner_docker.Ninfod.Compare.{
  byte_at, signed_char, same_bytes, memcmp, Compared, answer, fault, unfinished, Turned, goes,
  invalid, outside, match_labels, stepped, position, moved, Next, stops, moves, advance, continue,
  compare_labels, round, compare_loop, last_is_zero, compare_dnsname,
}

abbrev pub Ascii : List ℕ → Type 0
Ascii [] = Unit
Ascii (b ∷ rest) = (b < 128) × Ascii rest

byte_at-Ascii :
    (s : List ℕ) (i : ℕ) → Ascii s → i < length s → (x : ℕ) × (byte_at s i ≡ some x) × (x < 128)
unfolding byte_at
byte_at-Ascii [] i a h = absurd (omega arith)
byte_at-Ascii (b ∷ rest) zero a h = (b, refl, a.0)
byte_at-Ascii (b ∷ rest) (suc i) a h = byte_at-Ascii rest i a.1 (omega arith)

-- A round ends with an answer, or goes on behind the label of the subject.
abbrev Ahead : List ℕ → List ℕ → ℕ → Next → Type 0
Ahead s n i (stops (answer r)) = Unit
Ahead s n i (stops _) = ⊥
Ahead s n i (moves i' j' done retcode) = (i < i') × (i' ≤ length s)

pub sum_of_pos : (i a : ℕ) → pos i +ℤ pos a +ℤ pos 1 ≡ pos (i + a + 1)
unfolding ◌+ℤ◌
sum_of_pos i a = ground arith

stepped_pos : (i a : ℕ) → stepped i (pos a) ≡ some (i + a + 1)
unfolding stepped
stepped_pos i a = ap position (sum_of_pos i a)

pub advance_pos :
    (i j a b : ℕ) (done : Bool) (retcode : ℤ)
    → advance i j (pos a) (pos b) (goes done retcode)
      ≡ moves (i + a + 1) (if done then j else j + b + 1) done retcode
unfolding advance
advance_pos i j a b true retcode = ap (λ o. moved o (some j) true retcode) (stepped_pos i a)
advance_pos i j a b false retcode =
    ap₂ (λ o p. moved o p false retcode) (stepped_pos i a) (stepped_pos j b)

-- The same of what is to be done at two labels.
abbrev Inside : Turned → Type 0
Inside outside = ⊥
Inside _ = Unit

advance-Ahead :
    (s n : List ℕ) (i j a b : ℕ) (t : Turned)
    → i + a + 1 ≤ length s
    → Inside t
    → Ahead s n i (advance i j (pos a) (pos b) t)
unfolding advance
advance-Ahead s n i j a b invalid l h = tt
advance-Ahead s n i j a b outside l h = h
advance-Ahead s n i j a b (goes done retcode) l h =
    rw (advance_pos i j a b done retcode) (omega arith)

pub length-drop : (k : ℕ) (s : List ℕ) → length (drop k s) ≡ length s - k
length-drop zero s = omega arith
length-drop (suc k) [] = omega arith
length-drop (suc k) (b ∷ rest) = omega (arith, length-drop k rest)

pub memcmp-inside :
    (s n : List ℕ) (k l a : ℕ)
    → k + a ≤ length s
    → l + a ≤ length n
    → memcmp (drop k s) (drop l n) a ≡ some (same_bytes (take a (drop k s)) (take a (drop l n)))
unfolding memcmp
memcmp-inside s n k l a p q =
    ground
      (arith, length-take a (drop k s), length-take a (drop l n), length-drop k s, length-drop l n)

match_labels-Inside :
    (s n : List ℕ) (i j a b : ℕ) (retcode : ℤ)
    → i + a + 1 ≤ length s
    → j + b + 1 ≤ length n
    → Inside (match_labels s n i j (pos a) (pos b) retcode)
unfolding match_labels
match_labels-Inside s n i j a b retcode p q =
    if_rule Inside (b + 0 == 0)
      (if_rule Inside (j + 1 == length n) tt (if_rule Inside (j + 2 == length n) tt tt))
      (elim (Bool-cases (a + 0 == b + 0)) [
        | inr c ↦ rw c tt
        | inl c ↦
            let m = memcmp-inside s n (i + 1) (j + 1) a (omega arith) (ground (arith, c)) in
            let nonneg : ltb_ℤ (pos a) (pos 0) ≡ false = ground arith in
            rw (c, m, nonneg)
              (if_rule Inside (same_bytes (take a (drop (i + 1) s)) (take a (drop (j + 1) n))) tt
                tt)
      ])

compare_labels-Ahead :
    (s n : List ℕ) (i j a b : ℕ) (done : Bool) (retcode : ℤ)
    → Ahead s n i (compare_labels s n i j done retcode (pos a) (pos b))
unfolding compare_labels
compare_labels-Ahead s n i j a b done retcode =
    if_rule (Ahead s n i) (leb_ℤ (pos 64) (pos a) || leb_ℤ (pos 64) (pos b)) tt
      (elim (Bool-cases (
        ltb_ℤ (pos (length s)) (pos i +ℤ pos a +ℤ pos 1)
        || ltb_ℤ (pos (length n)) (pos j +ℤ pos b +ℤ pos 1))) [
          | inl c ↦ rw c tt
          | inr c ↦
              let p = c in
              rw c (
                if_rule (Ahead s n i) (eqb_ℤ (pos a) (pos 0))
                  (if_rule (Ahead s n i) (i + 1 == length s) tt
                    (if_rule (Ahead s n i) (i + 2 == length s) tt tt))
                  (advance-Ahead s n i j a b _ (ground (arith, c, sum_of_pos i a)) (
                    if_rule Inside done tt (
                      match_labels-Inside s n i j a b retcode (ground (arith, c, sum_of_pos i a))
                        (ground (arith, c, sum_of_pos j b))))))
        ])

pub signed_char_pos : (x : ℕ) → x < 128 → signed_char x ≡ pos x
signed_char_pos x h = ground arith

round-Ahead :
    (s n : List ℕ) (i j : ℕ) (done : Bool) (retcode : ℤ)
    → Ascii s
    → Ascii n
    → Ahead s n i (round s n i j done retcode)
unfolding round
round-Ahead s n i j done retcode p q = elim (Bool-cases (ltb i (length s) && ltb j (length n))) [
  | inr c ↦ rw c tt
  | inl c ↦
      let (x, ex, hx) = byte_at-Ascii s i p (ground (arith, c)) in
      let (y, ey, hy) = byte_at-Ascii n j q (ground (arith, c)) in
      rw (c, ex, ey, signed_char_pos x hx, signed_char_pos y hy)
        (compare_labels-Ahead s n i j x y done retcode)
]

total_next :
    (fuel : ℕ) (s n : List ℕ) (i : ℕ) (r : Next)
    → Ahead s n i r
    → ((i' j' : ℕ) (done : Bool) (retcode : ℤ)
        → i < i'
        → i' ≤ length s
        → (r' : ℤ) × (compare_loop fuel s n i' j' done retcode ≡ answer r'))
    → (r' : ℤ) × (continue (λ i' j' done retcode. compare_loop fuel s n i' j' done retcode) r
        ≡ answer r')
total_next fuel s n i (stops (answer r)) h k = (r, refl)
total_next fuel s n i (stops fault) h k = absurd h
total_next fuel s n i (stops unfinished) h k = absurd h
total_next fuel s n i (moves i' j' done retcode) h k = k i' j' done retcode h.0 h.1

compare_loop-total :
    (fuel : ℕ) (s n : List ℕ) (i j : ℕ) (done : Bool) (retcode : ℤ)
    → Ascii s
    → Ascii n
    → i ≤ length s
    → length s < fuel + i
    → (r : ℤ) × (compare_loop fuel s n i j done retcode ≡ answer r)
unfolding compare_loop
compare_loop-total zero s n i j done retcode p q b l = absurd (omega arith)
compare_loop-total (suc fuel) s n i j done retcode p q b l =
    total_next fuel s n i (round s n i j done retcode) (round-Ahead s n i j done retcode p q)
      λ i' j' done' retcode' h k.
        compare_loop-total fuel s n i' j' done' retcode' p q k (omega arith)

-- On names of bytes below 128, compare_dnsname reads no byte outside of them and returns, within a
-- round for each byte of the subject and one more.
pub compare_dnsname-total :
    (fuel : ℕ) (s n : List ℕ)
    → Ascii s
    → Ascii n
    → length s < fuel
    → (r : ℤ) × (compare_dnsname fuel s n ≡ answer r)
unfolding compare_dnsname
compare_dnsname-total fuel s n p q l =
    if_rule Answers (ltb (length s) 1 || ltb (length n) 1) (negsuc 0, refl)
      (if_rule Answers (same_bytes s n) (pos 0, refl)
        (if_rule Answers (not (last_is_zero s) || not (last_is_zero n)) (negsuc 0, refl)
          (compare_loop-total fuel s n 0 0 false (pos 0) p q (omega arith) (omega arith))))
  where
    Answers : Compared → Type 0
    Answers c = (r : ℤ) × (c ≡ answer r)
