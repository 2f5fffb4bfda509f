-- ===== src/Ninfod/Compare.antt =====
-- ninfod_name.c: the comparison of a subject with the name of the node (`compare_dnsname`). A char is
-- signed, as on x86; a pointer is a position. A read outside of the two names is a fault.
use baseliner_docker.Base.{
  ℕ, zero, suc, ◌+◌, ◌-◌, Bool, true, false, not, ◌&&◌, ◌||◌, if◌then◌else◌, ◌==◌, ltb, List, [],
  ◌∷◌, Option, none, some, length, take, drop, ℤ, pos, negsuc, pos_part, ◌+ℤ◌, ltb_ℤ, leb_ℤ, eqb_ℤ,
}

unfoldable pub byte_at : List ℕ → ℕ → Option ℕ
byte_at [] i = none
byte_at (b ∷ rest) zero = some b
byte_at (b ∷ rest) (suc i) = byte_at rest i

abbrev pub signed_char : ℕ → ℤ
signed_char b = if ltb b 128 then pos b else negsuc (255 - b)

unfoldable pub same_bytes : List ℕ → List ℕ → Bool
same_bytes [] [] = true
same_bytes [] (y ∷ ys) = false
same_bytes (x ∷ xs) [] = false
same_bytes (x ∷ xs) (y ∷ ys) = (x == y) && same_bytes xs ys

-- `memcmp` of `n` bytes at positions of two names; `none` is a read outside of them.
unfoldable pub memcmp : List ℕ → List ℕ → ℕ → Option Bool
memcmp s t n =
    let x = take n s in
    let y = take n t in if (length x == n) && (length y == n) then some (same_bytes x y) else none

pub data Compared : Type 0 where
  answer : ℤ → Compared
  fault unfinished : Compared

-- What becomes of `done` and `retcode`.
pub data Turned : Type 0 where
  goes : Bool → ℤ → Turned
  invalid outside : Turned

-- The labels at `i` and `j`, of the lengths `a` and `b`, while `done` is 0.
unfoldable pub match_labels : List ℕ → List ℕ → ℕ → ℕ → ℤ → ℤ → ℤ → Turned
match_labels s n i j a b retcode =
    if eqb_ℤ b (pos 0)
    then if j + 1 == length n
      then goes true retcode
      else if j + 2 == length n
      then goes true (pos 1)
      else invalid
    else if not (eqb_ℤ a b)
    then goes true (pos 1)
    else elim (memcmp (drop (i + 1) s) (drop (j + 1) n) (pos_part a)) [
      | none ↦ outside
      | some same ↦
          if ltb_ℤ a (pos 0)
          then outside
          else if same
          then goes false retcode
          else goes true (pos 1)
    ]

-- `s += *s + 1`; there is no position before the name.
abbrev pub position : ℤ → Option ℕ
position (pos k) = some k
position (negsuc k) = none

unfoldable pub stepped : ℕ → ℤ → Option ℕ
stepped i a = position (pos i +ℤ a +ℤ pos 1)

-- A round of the loop ends the function, or goes on from new positions.
pub data Next : Type 0 where
  stops : Compared → Next
  moves : ℕ → ℕ → Bool → ℤ → Next

abbrev pub moved : Option ℕ → Option ℕ → Bool → ℤ → Next
moved (some i) (some j) done retcode = moves i j done retcode
moved (some i) none done retcode = stops fault
moved none j done retcode = stops fault

-- `s += *s + 1; n += done ? 0 : *n + 1`
unfoldable pub advance : ℕ → ℕ → ℤ → ℤ → Turned → Next
advance i j a b invalid = stops (answer (negsuc 0))
advance i j a b outside = stops fault
advance i j a b (goes done retcode) =
    moved (stepped i a) (if done then some j else stepped j b) done retcode

-- A round at labels of the lengths `a` and `b`.
unfoldable pub compare_labels : List ℕ → List ℕ → ℕ → ℕ → Bool → ℤ → ℤ → ℤ → Next
compare_labels s n i j done retcode a b =
    if leb_ℤ (pos 64) a || leb_ℤ (pos 64) b
    then stops (answer (negsuc 0))
    else if ltb_ℤ (pos (length s)) (pos i +ℤ a +ℤ pos 1)
        || ltb_ℤ (pos (length n)) (pos j +ℤ b +ℤ pos 1)
    then stops (answer (negsuc 0))
    else if eqb_ℤ a (pos 0)
    then if i + 1 == length s
      then stops (answer retcode)
      else if i + 2 == length s
      then stops (answer retcode)
      else stops (answer (negsuc 0))
    else advance i j a b (if done then goes true retcode else match_labels s n i j a b retcode)

unfoldable pub round : List ℕ → List ℕ → ℕ → ℕ → Bool → ℤ → Next
round s n i j done retcode =
    if not (ltb i (length s) && ltb j (length n))
    then stops (answer retcode)
    else elim (byte_at s i) [
      | none ↦ stops fault
      | some x ↦ elim (byte_at n j) [
        | none ↦ stops fault
        | some y ↦ compare_labels s n i j done retcode (signed_char x) (signed_char y)
      ]
    ]

abbrev pub continue : (ℕ → ℕ → Bool → ℤ → Compared) → Next → Compared
continue loop (stops c) = c
continue loop (moves i j done retcode) = loop i j done retcode

unfoldable pub compare_loop : ℕ → List ℕ → List ℕ → ℕ → ℕ → Bool → ℤ → Compared
compare_loop zero s n i j done retcode = unfinished
compare_loop (suc fuel) s n i j done retcode =
    continue (λ i' j' done' retcode'. compare_loop fuel s n i' j' done' retcode')
      (round s n i j done retcode)

unfoldable pub last_is_zero : List ℕ → Bool
last_is_zero [] = false
last_is_zero (b ∷ []) = b == 0
last_is_zero (b ∷ c ∷ rest) = last_is_zero (c ∷ rest)

-- `compare_dnsname`; the loop runs on fuel.
unfoldable pub compare_dnsname : ℕ → List ℕ → List ℕ → Compared
compare_dnsname fuel s n =
    if ltb (length s) 1 || ltb (length n) 1
    then answer (negsuc 0)
    else if same_bytes s n
    then answer (pos 0)
    else if not (last_is_zero s) || not (last_is_zero n)
    then answer (negsuc 0)
    else compare_loop fuel s n 0 0 false (pos 0)
