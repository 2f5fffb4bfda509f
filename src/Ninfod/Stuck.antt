-- ===== src/Ninfod/Stuck.antt =====
-- When `compare_dnsname` does not end.
use baseliner_docker.Base.{
  ℕ, zero, suc, ◌+◌, ◌<◌, ◌≤◌, Bool, true, false, ◌&&◌, ◌||◌, if◌then◌else◌, ltb, List, ◌∷◌, some,
  length, ℤ, pos, negsuc, ◌+ℤ◌, ltb_ℤ, leb_ℤ, eqb_ℤ, arith, ◌≡◌, refl, ap, ◌∙◌,
}
use baseliner_docker.Ninfod.Compare.{
  byte_at, signed_char, same_bytes, unfinished, goes, match_labels, stepped, moves, advance,
  continue, compare_labels, round, compare_loop, last_is_zero, compare_dnsname,
}
use baseliner_docker.Ninfod.Ending.{sum_of_pos}

-- A subject that starts with a length byte of 255, which is the char -1.
module _ (s n : List ℕ) (y : ℕ) (first : byte_at s 0 ≡ some 255) (label : byte_at n 0 ≡ some y)
    (long : 0 < length s) (fits : y + 1 ≤ length n) (some_label : 0 < y) (short : y < 64) where
  round_turns :
      (done : Bool) (retcode : ℤ)
      → round s n 0 0 done retcode
        ≡ advance 0 0
            (negsuc 0)
            (pos y)
            (if done then goes true retcode else match_labels s n 0 0 (negsuc 0) (pos y) retcode)
  unfolding round compare_labels ◌+ℤ◌
  round_turns done retcode =
      let inside : (ltb 0 (length s) && ltb 0 (length n)) ≡ true = ground arith in
      let y_char : signed_char y ≡ pos y = ground arith in
      let y_short : leb_ℤ (pos 64) (pos y) ≡ false = ground arith in
      let fits_there : ltb_ℤ (pos (length n)) (pos 0 +ℤ pos y +ℤ pos 1) ≡ false =
        ground (arith, sum_of_pos 0 y) in
      let here : ltb_ℤ (pos (length s)) (pos 0 +ℤ negsuc 0 +ℤ pos 1) ≡ false = ground arith in
      rw (inside, first, label, y_char, y_short, fits_there, here)

  match_first : (retcode : ℤ) → match_labels s n 0 0 (negsuc 0) (pos y) retcode ≡ goes true (pos 1)
  unfolding match_labels
  match_first retcode =
      let some_there : eqb_ℤ (pos y) (pos 0) ≡ false = ground arith in
      let differ : eqb_ℤ (negsuc 0) (pos y) ≡ false = ground arith in rw (some_there, differ)

  round_stays :
      (done : Bool) (retcode : ℤ)
      → round s n 0 0 done retcode ≡ moves 0 0 true (if done then retcode else pos 1)
  unfolding advance stepped ◌+ℤ◌
  round_stays true retcode = round_turns true retcode
  round_stays false retcode =
      round_turns false retcode ∙ ap (advance 0 0 (negsuc 0) (pos y)) (match_first retcode)

  compare_loop_stuck :
      (fuel : ℕ) (done : Bool) (retcode : ℤ) → compare_loop fuel s n 0 0 done retcode ≡ unfinished
  unfolding compare_loop
  compare_loop_stuck zero done retcode = refl
  compare_loop_stuck (suc fuel) done retcode =
      ap (continue (λ i j d r. compare_loop fuel s n i j d r)) (round_stays done retcode)
      ∙ compare_loop_stuck fuel true (if done then retcode else pos 1)

-- A subject whose first byte is 255 and whose last byte is 0, against a name of the node that starts
-- with a label of 1 to 63 bytes, has that label within it and ends with 0: compare_dnsname never returns,
-- whatever the fuel.
pub compare_dnsname_stuck :
    (fuel : ℕ) (rest n : List ℕ) (y : ℕ)
    → last_is_zero (255 ∷ rest) ≡ true
    → last_is_zero (y ∷ n) ≡ true
    → 0 < y
    → y < 64
    → y ≤ length n
    → compare_dnsname fuel (255 ∷ rest) (y ∷ n) ≡ unfinished
unfolding compare_dnsname byte_at same_bytes
compare_dnsname_stuck fuel rest n y p q some_label short fits =
    let differ : same_bytes (255 ∷ rest) (y ∷ n) ≡ false = ground arith in
    let long : (ltb (suc (length rest)) 1 || ltb (suc (length n)) 1) ≡ false = ground arith in
    rw (long, differ, p, q)
      (compare_loop_stuck (255 ∷ rest) (y ∷ n) y refl refl (omega arith) (omega arith) some_label
        short fuel false (pos 0))
