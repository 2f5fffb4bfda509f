-- ===== src/Ninfod/Encode.antt =====
-- ninfod_name.c: the name of the node in the form of DNS (`encode_dnsname`). A name is the list of its
-- bytes before the final 0; the characters are those of the locale C.
use baseliner_docker.Base.{
  ℕ, zero, suc, ◌+◌, Bool, true, not, ◌&&◌, ◌||◌, if◌then◌else◌, ◌==◌, ltb, leb, List, [], ◌∷◌,
  ◌++◌, length, ℤ, pos, ltb_ℤ,
}
use baseliner_docker.Ninfod.Rounds.{zeros}

abbrev is_between : ℕ → ℕ → ℕ → Bool
is_between low high c = leb low c && leb c high

unfoldable pub is_upper : ℕ → Bool
is_upper c = is_between b'A' b'Z' c

unfoldable pub is_alpha : ℕ → Bool
unfolding is_upper
is_alpha c = is_upper c || is_between b'a' b'z' c

unfoldable pub is_digit : ℕ → Bool
is_digit c = is_between b'0' b'9' c

unfoldable pub to_lower : ℕ → ℕ
unfolding is_upper
to_lower c = if is_upper c then c + 32 else c

unfoldable pub lower_all : List ℕ → List ℕ
lower_all [] = []
lower_all (c ∷ l) = to_lower c ∷ lower_all l

-- The label up to the next dot, and what starts with that dot.
unfoldable pub label_of : List ℕ → List ℕ × List ℕ
label_of [] = ([], [])
label_of (c ∷ name) =
    let (l, rest) = label_of name in if c == b'.' then ([], c ∷ name) else (c ∷ l, rest)

-- The tests of the characters of a label of `llen` bytes, from the one at `ii` on.
unfoldable pub chars_ok : ℕ → ℕ → List ℕ → Bool
chars_ok ii llen [] = true
chars_ok ii llen (c ∷ l) =
    ltb c 128
    && (if (ii == 0) || (ii + 1 == llen)
        then is_alpha c || is_digit c
        else (is_alpha c || is_digit c) || (c == b'-'))
    && chars_ok (ii + 1) llen l

pub data Labels : Type 0 where
  labels : List ℕ → ℤ → Labels
  refused unfinished : Labels

-- Behind a label the name has ended, or there is a dot.
unfoldable pub behind_label : List ℕ → List ℕ → ℤ → (List ℕ → Labels) → Labels
behind_label [] out fqdn next = labels out fqdn
behind_label (dot ∷ name) out fqdn next = next name

-- The loop; `out` are the bytes written, as many as `i`.
unfoldable pub encode_loop : ℕ → List ℕ → ℤ → List ℕ → Labels
encode_loop zero name fqdn out = unfinished
encode_loop (suc fuel) name fqdn out =
    let (l, rest) = label_of name in
    let out' = out ++ length l ∷ lower_all l in
    let next = λ (name' : List ℕ). encode_loop fuel name' fqdn out' in
    if length l == 0
    then if not (length rest == 0)
      then refused
      else if ltb_ℤ fqdn (pos 0)
      then refused
      else labels out (pos 1)
    else if leb 64 (length l)
    then refused
    else if not (chars_ok 0 (length l) l)
    then refused
    else behind_label rest out' fqdn next

pub data Encoded : Type 0 where
  returned : List ℕ → Encoded
  failed running : Encoded

-- The last bytes, one if the name is fully qualified or else two.
unfoldable pub end_name : ℕ → Labels → Encoded
end_name buflen unfinished = running
end_name buflen refused = failed
end_name buflen (labels out fqdn) =
    let full = ltb_ℤ (pos 0) fqdn in
    if ltb buflen (length out + 1 + (if full then 0 else 1))
    then failed
    else returned (out ++ zeros full)

unfoldable pub encode_dnsname : ℕ → List ℕ → ℕ → ℤ → Encoded
encode_dnsname fuel name buflen fqdn =
    if length name == 0
    then returned []
    else if ltb 255 (length name) || ltb buflen (length name + 1)
    then failed
    else end_name buflen (encode_loop fuel name fqdn [])
