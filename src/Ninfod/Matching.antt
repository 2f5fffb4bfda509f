-- ===== src/Ninfod/Matching.antt =====
-- What `compare_dnsname` finds on well-formed names.
use baseliner_docker.Base.{
  ℕ, zero, suc, ◌+◌, ◌<◌, Bool, true, false, ◌||◌, if◌then◌else◌, ◌==◌, ltb, List, [], ◌∷◌, ◌++◌,
  length, take, drop, ℤ, pos, ltb_ℤ, eqb_ℤ, arith, ◌≡◌, refl, Bool-cases, inl, inr, length-append,
  ap, ap₂, ◌∙◌, sym, ==_iff,
}
use baseliner_docker.Ninfod.Compare.{
  same_bytes, answer, goes, match_labels, continue, compare_loop, last_is_zero, compare_dnsname,
}
use baseliner_docker.Ninfod.Ending.{length-drop, memcmp-inside}
use baseliner_docker.Ninfod.Rounds.{
  dns_name, AllLabels, matched, take-append, At, At-length, first, behind, At-name, behind_label,
  inside_label, same_bytes-length, round_end, round_label,
}

-- Once `done` is set the rest of the subject is only passed over.
done_loop :
    (fuel : ℕ) (s n : List ℕ) (i j y : ℕ) (nr : List ℕ) (g : Bool) (ls : List (List ℕ))
    (retcode : ℤ)
    → AllLabels ls
    → drop i s ≡ dns_name g ls
    → At n j y nr
    → length ls < fuel
    → compare_loop fuel s n i j true retcode ≡ answer retcode
unfolding compare_loop
done_loop zero s n i j y nr g ls retcode a e b f = absurd (omega arith)
done_loop (suc fuel) s n i j y nr g [] retcode a e b f =
    ap (continue (λ i' j' d r. compare_loop fuel s n i' j' d r))
      (round_end s n i j y nr g true retcode e b)
done_loop (suc fuel) s n i j y nr g (l ∷ ls) retcode a e b f =
    ap (continue (λ i' j' d r. compare_loop fuel s n i' j' d r))
      (round_label s n i j y nr l ls g true true retcode retcode a e b refl)
    ∙ done_loop fuel s n (i + length l + 1) j y nr g ls retcode a.2
        (behind_label s i l (dns_name g ls) e) b (omega (arith, f))

-- The name of the node is at its end.
match_end :
    (s n : List ℕ) (i j : ℕ) (a : ℤ) (f : Bool) (retcode : ℤ)
    → drop j n ≡ dns_name f []
    → match_labels s n i j a (pos 0) retcode ≡ goes true (if f then retcode else pos 1)
unfolding match_labels behind first
match_end s n i j a true retcode e =
    let l = At-length n j 0 [] (At-name n j true [] tt e) in
    let k : (j + 1 == length n) ≡ true = ground (arith, l) in rw k
match_end s n i j a false retcode e =
    let l = At-length n j 0 (0 ∷ []) (At-name n j false [] tt e) in
    let k : (j + 1 == length n) ≡ false = ground (arith, l) in
    let k' : (j + 2 == length n) ≡ true = ground (arith, l) in rw (k, k')

match_both :
    (s n : List ℕ) (i j : ℕ) (l m u v : List ℕ) (retcode : ℤ)
    → 0 < length m
    → drop i s ≡ length l ∷ (l ++ u)
    → drop j n ≡ length m ∷ (m ++ v)
    → match_labels s n i j (pos (length l)) (pos (length m)) retcode
      ≡ (if same_bytes l m then goes false retcode else goes true (pos 1))
unfolding match_labels
match_both s n i j l m u v retcode h e e' =
    let some_label : eqb_ℤ (pos (length m)) (pos 0) ≡ false = ground arith in
    let nonneg : ltb_ℤ (pos (length l)) (pos 0) ≡ false = ground arith in
    elim (Bool-cases (length l == length m)) [
      | inr c ↦
          let k : eqb_ℤ (pos (length l)) (pos (length m)) ≡ false = ground (arith, c) in
          rw (some_label, k, same_bytes-length l m c)
      | inl c ↦
          let k : eqb_ℤ (pos (length l)) (pos (length m)) ≡ true = ground (arith, c) in
          let q : length l ≡ length m = (==_iff (length l) (length m)).0 c in
          let ls = ap length e in
          let ln = ap length e' in
          let inside =
            memcmp-inside s n (i + 1) (j + 1) (length l)
              (ground (arith, length-drop i s, ls, length-append l u))
              (ground (arith, length-drop j n, ln, length-append m v, q)) in
          let x : take (length l) (drop (i + 1) s) ≡ l =
            ap (take (length l)) (inside_label s i l u e) ∙ take-append l u in
          let y : take (length l) (drop (j + 1) n) ≡ m =
            ap₂ take q (inside_label n j m v e') ∙ take-append m v in
          rw (some_label, k, inside, nonneg, x, y)
    ]

matching_loop :
    (fuel : ℕ) (s n : List ℕ) (i j : ℕ) (g f : Bool) (ls ms : List (List ℕ))
    → AllLabels ls
    → AllLabels ms
    → drop i s ≡ dns_name g ls
    → drop j n ≡ dns_name f ms
    → length ls < fuel
    → compare_loop fuel s n i j false (pos 0) ≡ answer (matched f ls ms)
unfolding compare_loop first
matching_loop zero s n i j g f ls ms a b e e' h = absurd (omega arith)
matching_loop (suc fuel) s n i j g f [] ms a b e e' h =
    ap (continue (λ i' j' d r. compare_loop fuel s n i' j' d r))
      (round_end s n i j (first ms) (behind f ms) g false (pos 0) e (At-name n j f ms b e'))
matching_loop (suc fuel) s n i j g f (l ∷ ls) [] a b e e' h =
    ap (continue (λ i' j' d r. compare_loop fuel s n i' j' d r)) (
      round_label s n i j 0 (behind f []) l ls g false true (pos 0) (if f then pos 0 else pos 1) a e
        (At-name n j f [] b e') (match_end s n i j (pos (length l)) f (pos 0) e'))
    ∙ done_loop fuel s n (i + length l + 1) j 0 (behind f []) g ls _ a.2
        (behind_label s i l (dns_name g ls) e) (At-name n j f [] b e') (omega (arith, h))
matching_loop (suc fuel) s n i j g f (l ∷ ls) (m ∷ ms) a b e e' h =
    let there = At-name n j f (m ∷ ms) b e' in
    let both = match_both s n i j l m (dns_name g ls) (dns_name f ms) (pos 0) b.0 e e' in
    let rest = behind_label s i l (dns_name g ls) e in
    elim (Bool-cases (same_bytes l m)) [
      | inl c ↦
          ap (continue (λ i' j' d r. compare_loop fuel s n i' j' d r)) (
            round_label s n i j (length m) (behind f (m ∷ ms)) l ls g false false (pos 0) (pos 0) a
              e there (both ∙ rw c))
          ∙ matching_loop fuel s n (i + length l + 1) (j + length m + 1) g f ls ms a.2 b.2 rest
              (behind_label n j m (dns_name f ms) e') (omega (arith, h))
          ∙ rw c
      | inr c ↦
          ap (continue (λ i' j' d r. compare_loop fuel s n i' j' d r)) (
            round_label s n i j (length m) (behind f (m ∷ ms)) l ls g false true (pos 0) (pos 1) a e
              there (both ∙ rw c))
          ∙ done_loop fuel s n (i + length l + 1) j (length m) (behind f (m ∷ ms)) g ls (pos 1) a.2
              rest there (omega (arith, h))
          ∙ rw c
    ]

pub same_bytes_refl : (l : List ℕ) → same_bytes l l ≡ true
unfolding same_bytes
same_bytes_refl [] = refl
same_bytes_refl (x ∷ l) = ground (arith, same_bytes_refl l)

same_bytes_eq : (l m : List ℕ) → same_bytes l m ≡ true → l ≡ m
unfolding same_bytes
same_bytes_eq [] [] h = refl
same_bytes_eq [] (y ∷ m) h = cc
same_bytes_eq (x ∷ l) [] h = cc
same_bytes_eq (x ∷ l) (y ∷ m) h = ground (arith, same_bytes_eq l m)

matched_self : (g : Bool) (ls : List (List ℕ)) → matched g ls ls ≡ pos 0
matched_self g [] = refl
matched_self g (l ∷ ls) = rw (same_bytes_refl l) (matched_self g ls)

last_is_zero-cons : (x : ℕ) (s : List ℕ) → 0 < length s → last_is_zero (x ∷ s) ≡ last_is_zero s
unfolding last_is_zero
last_is_zero-cons x [] h = absurd (omega arith)
last_is_zero-cons x (y ∷ s) h = refl

last_is_zero-append : (l w : List ℕ) → 0 < length w → last_is_zero (l ++ w) ≡ last_is_zero w
last_is_zero-append [] w h = refl
last_is_zero-append (x ∷ l) w h =
    last_is_zero-cons x (l ++ w) (omega (arith, length-append l w)) ∙ last_is_zero-append l w h

pub length-dns_name : (g : Bool) (ls : List (List ℕ)) → 0 < length (dns_name g ls)
length-dns_name true [] = omega arith
length-dns_name false [] = omega arith
length-dns_name g (l ∷ ls) = omega arith

last_is_zero-dns_name : (g : Bool) (ls : List (List ℕ)) → last_is_zero (dns_name g ls) ≡ true
unfolding last_is_zero
last_is_zero-dns_name true [] = refl
last_is_zero-dns_name false [] = refl
last_is_zero-dns_name g (l ∷ ls) =
    let w = dns_name g ls in
    last_is_zero-cons (length l) (l ++ w) (omega (arith, length-append l w, length-dns_name g ls))
    ∙ last_is_zero-append l w (length-dns_name g ls)
    ∙ last_is_zero-dns_name g ls

-- On two names of labels of 1 to 63 bytes, with a round for each label of the subject and one more,
-- compare_dnsname returns 0 if the labels of the subject are the first ones of the node, or if those of
-- the node are the first ones of the subject and the node's name is fully qualified, and 1 otherwise.
pub compare_dnsname-dns_name :
    (fuel : ℕ) (g f : Bool) (ls ms : List (List ℕ))
    → AllLabels ls
    → AllLabels ms
    → length ls < fuel
    → compare_dnsname fuel (dns_name g ls) (dns_name f ms) ≡ answer (matched f ls ms)
unfolding compare_dnsname
compare_dnsname-dns_name fuel g f ls ms a b h =
    let s = dns_name g ls in
    let n = dns_name f ms in
    let long : (ltb (length s) 1 || ltb (length n) 1) ≡ false =
      ground (arith, length-dns_name g ls, length-dns_name f ms) in
    let loop = matching_loop fuel s n 0 0 g f ls ms a b refl refl h in
    elim (Bool-cases (same_bytes s n)) [
      | inr c ↦ rw (long, c, last_is_zero-dns_name g ls, last_is_zero-dns_name f ms) loop
      | inl c ↦
          let e = same_bytes_eq s n c in
          rw (long, c)
            (sym (ap answer (matched_self g ls))
              ∙ sym (matching_loop fuel s n 0 0 g g ls ls a a refl (sym e) h)
              ∙ loop)
    ]
