-- ===== src/Ninfod/Encoding.antt =====
-- What `encode_dnsname` makes of a name of valid labels.
use baseliner_docker.Base.{
  ℕ, zero, suc, ◌+◌, ◌<◌, ◌≤◌, Bool, true, false, ◌||◌, if◌then◌else◌, ◌==◌, ltb, leb, List, [],
  ◌∷◌, ◌++◌, length, ℤ, pos, ltb_ℤ, arith, ◌≡◌, refl, ◌∙◌, ap, length-append, append_assoc,
  append-nil, sym,
}
use baseliner_docker.Ninfod.Rounds.{dns_name, zeros}
use baseliner_docker.Ninfod.Encode.{
  is_upper, is_alpha, is_digit, lower_all, label_of, chars_ok, labels, behind_label, encode_loop,
  returned, end_name, encode_dnsname,
}

-- Behind a label: the others, each behind a dot, and a last dot if the name is fully qualified.
abbrev pub dots : Bool → List (List ℕ) → List ℕ
dots true [] = b'.' ∷ []
dots false [] = []
dots fqdn (l ∷ ls) = b'.' ∷ (l ++ dots fqdn ls)

abbrev pub IsLabel : List ℕ → Type 0
IsLabel l = (0 < length l) × (length l < 64) × (chars_ok 0 (length l) l ≡ true)

abbrev pub AllValid : List (List ℕ) → Type 0
AllValid [] = Unit
AllValid (l ∷ ls) = IsLabel l × AllValid ls

abbrev pub lower_labels : List (List ℕ) → List (List ℕ)
lower_labels [] = []
lower_labels (l ∷ ls) = lower_all l ∷ lower_labels ls

abbrev body : List (List ℕ) → List ℕ
body [] = []
body (l ∷ ls) = length l ∷ (lower_all l ++ body ls)

abbrev NoDot : List ℕ → Type 0
NoDot [] = Unit
NoDot (c ∷ l) = ((c == b'.') ≡ false) × NoDot l

dot_is_no_char : (c : ℕ) → (is_alpha c || is_digit c) ≡ true → (c == b'.') ≡ false
unfolding is_alpha is_digit is_upper
dot_is_no_char c h = ground (arith, h)

chars_ok-NoDot : (ii n : ℕ) (l : List ℕ) → chars_ok ii n l ≡ true → NoDot l
unfolding chars_ok
chars_ok-NoDot ii n [] h = tt
chars_ok-NoDot ii n (c ∷ l) h =
    (ground (arith, h, dot_is_no_char c), chars_ok-NoDot (ii + 1) n l (ground (arith, h)))

label_of-append : (l w : List ℕ) → NoDot l → label_of w ≡ ([], w) → label_of (l ++ w) ≡ (l, w)
unfolding label_of
label_of-append [] w d e = e
label_of-append (c ∷ l) w d e = rw (label_of-append l w d.1 e, d.0) refl

pub length-lower_all : (l : List ℕ) → length (lower_all l) ≡ length l
unfolding lower_all
length-lower_all [] = refl
length-lower_all (c ∷ l) = ap suc (length-lower_all l)

body-zeros :
    (fqdn : Bool) (ls : List (List ℕ)) → body ls ++ zeros fqdn ≡ dns_name fqdn (lower_labels ls)
body-zeros fqdn [] = refl
body-zeros fqdn (l ∷ ls) =
    rw (append_assoc (lower_all l) (body ls) (zeros fqdn), body-zeros fqdn ls, length-lower_all l)

-- A round at a valid label.
encode_label :
    (fuel : ℕ) (l w : List ℕ) (fqdn : ℤ) (out : List ℕ)
    → IsLabel l
    → label_of w ≡ ([], w)
    → encode_loop (suc fuel) (l ++ w) fqdn out
      ≡ behind_label w
          (out ++ length l ∷ lower_all l)
          fqdn
          (λ name'. encode_loop fuel name' fqdn (out ++ length l ∷ lower_all l))
unfolding encode_loop
encode_label fuel l w fqdn out v e =
    let q = label_of-append l w (chars_ok-NoDot 0 (length l) l v.2) e in
    let some_label : (length l == 0) ≡ false = ground (arith, v.0) in
    let short : leb 64 (length l) ≡ false = ground (arith, v.1) in
    rw (q, some_label, short, v.2) refl

encode_labels :
    (fuel : ℕ) (fqdn : Bool) (l : List ℕ) (ls : List (List ℕ)) (out : List ℕ)
    → IsLabel l
    → AllValid ls
    → suc (length ls) < fuel
    → encode_loop fuel (l ++ dots fqdn ls) (pos 0) out
      ≡ labels (out ++ body (l ∷ ls)) (if fqdn then pos 1 else pos 0)
unfolding encode_loop label_of behind_label
encode_labels zero fqdn l ls out v a h = absurd (omega arith)
encode_labels (suc zero) fqdn l ls out v a h = absurd (omega arith)
encode_labels (suc (suc fuel)) true l [] out v a h =
    encode_label (suc fuel) l (dots true []) (pos 0) out v refl
    ∙ ap (λ t. labels (out ++ length l ∷ t) (pos 1)) (sym (append-nil (lower_all l)))
encode_labels (suc fuel) false l [] out v a h =
    encode_label fuel l [] (pos 0) out v refl
    ∙ ap (λ t. labels (out ++ length l ∷ t) (pos 0)) (sym (append-nil (lower_all l)))
encode_labels (suc fuel) fqdn l (m ∷ ls) out v a h =
    encode_label fuel l (dots fqdn (m ∷ ls)) (pos 0) out v refl
    ∙ encode_labels fuel fqdn m ls (out ++ length l ∷ lower_all l) a.0 a.1 (omega (arith, h))
    ∙ ap (λ t. labels t (if fqdn then pos 1 else pos 0))
        (append_assoc out (length l ∷ lower_all l) (body (m ∷ ls)))

length-body :
    (fqdn : Bool) (l : List ℕ) (ls : List (List ℕ))
    → length (body (l ∷ ls)) ≡ length (l ++ dots fqdn ls) + (if fqdn then 0 else 1)
length-body true l [] =
    ground
      (arith, length-append l (dots true []), length-append (lower_all l) [], length-lower_all l)
length-body false l [] =
    ground
      (arith, length-append l (dots false []), length-append (lower_all l) [], length-lower_all l)
length-body fqdn l (m ∷ ls) = ground (
  arith,
  length-append l (dots fqdn (m ∷ ls)),
  length-append (lower_all l) (body (m ∷ ls)),
  length-lower_all l,
  length-body fqdn m ls,
)

length-zeros : (fqdn : Bool) → length (zeros fqdn) ≡ suc (if fqdn then 0 else 1)
length-zeros true = refl
length-zeros false = refl

pub length-dns_name-lower_labels :
    (fqdn : Bool) (l : List ℕ) (ls : List (List ℕ))
    → length (dns_name fqdn (lower_labels (l ∷ ls))) ≤ length (l ++ dots fqdn ls) + 3
length-dns_name-lower_labels fqdn l ls =
    let q = body-zeros fqdn (l ∷ ls) in
    ground (
      arith,
      length-body fqdn l ls,
      length-zeros fqdn,
      ap length q,
      length-append (body (l ∷ ls)) (zeros fqdn),
    )

pub length-dots : (fqdn : Bool) (ls : List (List ℕ)) → length ls ≤ length (dots fqdn ls)
length-dots fqdn [] = omega arith
length-dots fqdn (l ∷ ls) = omega (arith, length-dots fqdn ls, length-append l (dots fqdn ls))

above_zero : (fqdn : Bool) → ltb_ℤ (pos 0) (if fqdn then pos 1 else pos 0) ≡ fqdn
above_zero true = refl
above_zero false = refl

-- A name of valid labels with dots between them, 255 bytes at most, becomes the name in the form of DNS
-- with its labels in lower case, if the buffer has room for it: fully qualified, with a single 0, if a
-- dot stands at its end, and else with two. The loop ends within a round for each label and one more.
pub encode_dnsname-dns_name :
    (fuel : ℕ) (fqdn : Bool) (l : List ℕ) (ls : List (List ℕ)) (buflen : ℕ)
    → AllValid (l ∷ ls)
    → length (l ++ dots fqdn ls) ≤ 255
    → length (dns_name fqdn (lower_labels (l ∷ ls))) ≤ buflen
    → suc (length ls) < fuel
    → encode_dnsname fuel (l ++ dots fqdn ls) buflen (pos 0)
      ≡ returned (dns_name fqdn (lower_labels (l ∷ ls)))
unfolding encode_dnsname end_name
encode_dnsname-dns_name fuel fqdn l ls buflen v short room h =
    let size = length-body fqdn l ls in
    let q = body-zeros fqdn (l ∷ ls) in
    let k = length-append (body (l ∷ ls)) (zeros fqdn) in
    let room' : length (body (l ∷ ls)) + length (zeros fqdn) ≤ buflen =
      omega (arith, room, ap length q, k) in
    let z = length-zeros fqdn in
    let some_byte : (length (l ++ dots fqdn ls) == 0) ≡ false =
      ground (arith, length-append l (dots fqdn ls), v.0.0) in
    let fit : (ltb 255 (length (l ++ dots fqdn ls)) || ltb buflen (length (l ++ dots fqdn ls) + 1))
        ≡ false =
      ground (arith, short, room', size, z) in
    let fit' : ltb buflen (length (body (l ∷ ls)) + 1 + (if fqdn then 0 else 1)) ≡ false =
      ground (arith, room', z) in
    rw (some_byte, fit, encode_labels fuel fqdn l ls [] v.0 v.1 h, above_zero fqdn, fit')
      (ap returned q)
