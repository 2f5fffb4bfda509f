-- ===== src/Ninfod/Rounds.antt =====
-- A round of `compare_dnsname` on well-formed names.
use baseliner_docker.Base.{
  ℕ, zero, suc, ◌+◌, ◌<◌, ◌≤◌, Bool, true, false, ◌&&◌, ◌||◌, if◌then◌else◌, ◌==◌, ltb, List, [],
  ◌∷◌, ◌++◌, some, length, take, drop, ℤ, pos, negsuc, ◌+ℤ◌, ltb_ℤ, leb_ℤ, eqb_ℤ, arith, ◌≡◌, refl,
  length-append, ap, ◌∙◌, sym,
}
use baseliner_docker.Ninfod.Compare.{
  byte_at, signed_char, same_bytes, answer, goes, match_labels, stops, moves, advance,
  compare_labels, round,
}
use baseliner_docker.Ninfod.Ending.{length-drop, signed_char_pos, sum_of_pos, advance_pos}

-- A name in the form of DNS: its labels, each behind its length, and one 0 if it is fully qualified,
-- or two.
abbrev pub zeros : Bool → List ℕ
zeros true = 0 ∷ []
zeros false = 0 ∷ 0 ∷ []

abbrev pub dns_name : Bool → List (List ℕ) → List ℕ
dns_name fqdn [] = zeros fqdn
dns_name fqdn (l ∷ ls) = length l ∷ (l ++ dns_name fqdn ls)

abbrev pub AllLabels : List (List ℕ) → Type 0
AllLabels [] = Unit
AllLabels (l ∷ ls) = (0 < length l) × (length l < 64) × AllLabels ls

-- The subject matches a name that it is the beginning of, and one that is its beginning if that is
-- fully qualified.
abbrev pub matched : Bool → List (List ℕ) → List (List ℕ) → ℤ
matched fqdn [] ms = pos 0
matched fqdn (l ∷ ls) [] = if fqdn then pos 0 else pos 1
matched fqdn (l ∷ ls) (m ∷ ms) = if same_bytes l m then matched fqdn ls ms else pos 1

byte_at-drop : (i : ℕ) (s rest : List ℕ) (x : ℕ) → drop i s ≡ x ∷ rest → byte_at s i ≡ some x
unfolding byte_at
byte_at-drop zero [] rest x e = cc
byte_at-drop zero (b ∷ s) rest x e = cc
byte_at-drop (suc i) [] rest x e = cc
byte_at-drop (suc i) (b ∷ s) rest x e = byte_at-drop i s rest x e

drop_nil : (k : ℕ) → drop {A = ℕ} k [] ≡ []
drop_nil zero = refl
drop_nil (suc k) = refl

drop_more : (i k : ℕ) (s : List ℕ) → drop (i + k) s ≡ drop k (drop i s)
drop_more zero k s = let z : 0 + k ≡ k = omega arith in ap (λ t. drop t s) z
drop_more (suc i) k [] = drop_nil (suc i + k) ∙ sym (drop_nil k)
drop_more (suc i) k (b ∷ s) =
    let z : suc i + k ≡ suc (i + k) = omega arith in ap (λ t. drop t (b ∷ s)) z ∙ drop_more i k s

drop-append : (l w : List ℕ) → drop (length l) (l ++ w) ≡ w
drop-append [] w = refl
drop-append (x ∷ l) w = drop-append l w

pub take-append : (l w : List ℕ) → take (length l) (l ++ w) ≡ l
take-append [] w = refl
take-append (x ∷ l) w = ap (λ t. x ∷ t) (take-append l w)

-- A rest of a name that starts with a length.
pub record At (s : List ℕ) (i x : ℕ) (rest : List ℕ) : Type 0 where
  here : drop i s ≡ x ∷ rest
  small : x < 64
  fits : x ≤ length rest

pub At-length :
    (s : List ℕ) (i x : ℕ) (rest : List ℕ) → At s i x rest → i + suc (length rest) ≡ length s
At-length s i x rest a = ground (arith, length-drop i s, ap length a.here)

module _ (s n : List ℕ) (i j x y : ℕ) (sr nr : List ℕ) (at : At s i x sr) (bt : At n j y nr)
    (done : Bool) (retcode : ℤ) where
  round_at : round s n i j done retcode ≡ (
      if eqb_ℤ (pos x) (pos 0)
      then if i + 1 == length s
        then stops (answer retcode)
        else if i + 2 == length s
        then stops (answer retcode)
        else stops (answer (negsuc 0))
      else advance i j
          (pos x)
          (pos y)
          (if done then goes true retcode else match_labels s n i j (pos x) (pos y) retcode))
  unfolding round compare_labels
  round_at =
      let ls = At-length s i x sr at in
      let ln = At-length n j y nr bt in
      let inside : (ltb i (length s) && ltb j (length n)) ≡ true = ground (arith, ls, ln) in
      let xs : signed_char x ≡ pos x = signed_char_pos x (omega (arith, at.small)) in
      let ys : signed_char y ≡ pos y = signed_char_pos y (omega (arith, bt.small)) in
      let short : (leb_ℤ (pos 64) (pos x) || leb_ℤ (pos 64) (pos y)) ≡ false =
        ground (arith, at.small, bt.small) in
      let fit : (ltb_ℤ (pos (length s)) (pos i +ℤ pos x +ℤ pos 1)
            || ltb_ℤ (pos (length n)) (pos j +ℤ pos y +ℤ pos 1))
          ≡ false =
        ground (arith, sum_of_pos i x, sum_of_pos j y, ls, ln, at.fits, bt.fits) in
      rw (inside, byte_at-drop i s sr x at.here, byte_at-drop j n nr y bt.here, xs, ys, short, fit)

unfoldable pub first : List (List ℕ) → ℕ
first [] = 0
first (l ∷ ls) = length l

unfoldable pub behind : Bool → List (List ℕ) → List ℕ
behind true [] = []
behind false [] = 0 ∷ []
behind fqdn (l ∷ ls) = l ++ dns_name fqdn ls

pub At-name :
    (s : List ℕ) (i : ℕ) (fqdn : Bool) (ls : List (List ℕ))
    → AllLabels ls
    → drop i s ≡ dns_name fqdn ls
    → At s i (first ls) (behind fqdn ls)
unfolding first behind
At-name s i true [] a e = record { here = e; small = omega arith; fits = omega arith }
At-name s i false [] a e = record { here = e; small = omega arith; fits = omega arith }
At-name s i fqdn (l ∷ ls) a e = record {
  here = e;
  small = a.1;
  fits = omega (arith, length-append l (dns_name fqdn ls));
}

-- Behind a label stands the rest of the name.
pub behind_label :
    (s : List ℕ) (i : ℕ) (l rest : List ℕ)
    → drop i s ≡ length l ∷ (l ++ rest)
    → drop (i + length l + 1) s ≡ rest
behind_label s i l rest e =
    let k : i + length l + 1 ≡ i + suc (length l) = omega arith in
    ap (λ t. drop t s) k
    ∙ drop_more i (suc (length l)) s
    ∙ ap (drop (suc (length l))) e
    ∙ drop-append l rest

pub inside_label :
    (s : List ℕ) (i : ℕ) (l rest : List ℕ)
    → drop i s ≡ length l ∷ (l ++ rest)
    → drop (i + 1) s ≡ l ++ rest
inside_label s i l rest e = drop_more i 1 s ∙ ap (drop 1) e

pub same_bytes-length : (l m : List ℕ) → (length l == length m) ≡ false → same_bytes l m ≡ false
unfolding same_bytes
same_bytes-length [] [] h = cc
same_bytes-length [] (y ∷ m) h = refl
same_bytes-length (x ∷ l) [] h = refl
same_bytes-length (x ∷ l) (y ∷ m) h = ground (arith, same_bytes-length l m)

-- A subject that ends here.
pub round_end :
    (s n : List ℕ) (i j y : ℕ) (nr : List ℕ) (g : Bool) (done : Bool) (retcode : ℤ)
    → drop i s ≡ dns_name g []
    → At n j y nr
    → round s n i j done retcode ≡ stops (answer retcode)
unfolding first behind
round_end s n i j y nr true done retcode e b =
    let a = At-name s i true [] tt e in
    let l = At-length s i 0 [] a in
    let k : (i + 1 == length s) ≡ true = ground (arith, l) in
    round_at s n i j 0 y [] nr a b done retcode ∙ rw k
round_end s n i j y nr false done retcode e b =
    let a = At-name s i false [] tt e in
    let l = At-length s i 0 (0 ∷ []) a in
    let k : (i + 1 == length s) ≡ false = ground (arith, l) in
    let k' : (i + 2 == length s) ≡ true = ground (arith, l) in
    round_at s n i j 0 y (0 ∷ []) nr a b done retcode ∙ rw (k, k')

-- A round at a label of the subject.
pub round_label :
    (s n : List ℕ) (i j y : ℕ) (nr l : List ℕ) (ls : List (List ℕ)) (g done done' : Bool)
    (retcode retcode' : ℤ)
    → AllLabels (l ∷ ls)
    → drop i s ≡ dns_name g (l ∷ ls)
    → At n j y nr
    → (if done then goes true retcode else match_labels s n i j (pos (length l)) (pos y) retcode)
      ≡ goes done' retcode'
    → round s n i j done retcode
      ≡ moves (i + length l + 1) (if done' then j else j + y + 1) done' retcode'
unfolding first behind
round_label s n i j y nr l ls g done done' retcode retcode' a e b t =
    let some_label : eqb_ℤ (pos (length l)) (pos 0) ≡ false = ground (arith, a) in
    round_at s n i j (length l) y _ nr (At-name s i g (l ∷ ls) a e) b done retcode
    ∙ rw some_label
        (ap (advance i j (pos (length l)) (pos y)) t ∙ advance_pos i j (length l) y done' retcode')
