-- ===== src/Tftp/Decoding.antt =====
-- What a file holds into which bytes from the wire have been written (`write_behind` of
-- iputils-ns/tftpsubs.c), whatever bytes these are.
use mathlib.Core.List.{reverse_aux, reverse-reverse}
use baseliner_docker.Base.{
  ℕ, List, [], ◌∷◌, Option, none, some, Bool, true, false, ◌≡◌, refl, ap, ◌∙◌, ◌==◌, ==_iff, arith,
  Bool-cases, inl, inr, if◌then◌else◌,
}
use baseliner_docker.Tftp.Stream.{Sink}
use baseliner_docker.Tftp.Buffers.{put_char, put_all, is_char, lf, cr, nul}
use baseliner_docker.Tftp.Netascii.{sink, contents, put_char-plain}
use baseliner_docker.Tftp.Storage.{stored}

-- cr,lf -> lf and cr,nul -> cr, any other byte as it is; the first argument tells whether a cr has been
-- read and waits for the byte behind it.
abbrev pub decode : Bool → List ℕ → List ℕ
decode false [] = []
decode true [] = cr ∷ []
decode waits (c ∷ r) =
    let rest = decode (c == cr) r in
    let own = if c == cr then rest else c ∷ rest in
    if waits then (if c == lf then c ∷ rest else if c == nul then cr ∷ rest else cr ∷ own) else own

abbrev pub decoded : Bool → List ℕ → List ℕ
decoded true got = decode false got
decoded false got = got

abbrev with_cr : Bool → List ℕ → List ℕ
with_cr true b = cr ∷ b
with_cr false b = b

put_char-behind :
    (pc : Option ℕ) (c : ℕ) (b : List ℕ)
    → is_char pc cr ≡ true
    → put_char pc c (sink (cr ∷ b))
      ≡ (if c == lf then sink (c ∷ b) else if c == nul then sink (cr ∷ b) else sink (c ∷ cr ∷ b))
unfolding put_char
put_char-behind pc c b h = rw h

-- What is written of the bytes behind `c`, with `d` before them.
abbrev Behind : ℕ → List ℕ → Type 0
Behind c r =
    (d : List ℕ)
    → (put_all (some c) r (sink (with_cr (c == cr) d))).1
      ≡ sink (reverse_aux (decode (c == cr) r) d)

next :
    (pc : Option ℕ) (c : ℕ) (r : List ℕ) (s : Sink) (b d l : List ℕ)
    → Behind c r
    → put_char pc c s ≡ sink (with_cr (c == cr) d)
    → reverse_aux (decode (c == cr) r) d ≡ reverse_aux l b
    → (put_all pc (c ∷ r) s).1 ≡ sink (reverse_aux l b)
unfolding put_all
next pc c r s b d l ih e k = ap (λ f. (put_all (some c) r f).1) e ∙ ih d ∙ ap sink k

at_char :
    (waits : Bool) (pc : Option ℕ) (c : ℕ) (r b : List ℕ)
    → Behind c r
    → is_char pc cr ≡ waits
    → (put_all pc (c ∷ r) (sink (with_cr waits b))).1 ≡ sink (reverse_aux (decode waits (c ∷ r)) b)
at_char false pc c r b ih h = elim (Bool-cases (c == cr)) [
  | inl e ↦
      next pc c r (sink b) b b (decode false (c ∷ r)) ih
        (put_char-plain pc c b h ∙ rw e (ap (λ x. sink (x ∷ b)) ((==_iff c cr).0 e))) (rw e)
  | inr e ↦
      next pc c r (sink b) b (c ∷ b) (decode false (c ∷ r)) ih (put_char-plain pc c b h ∙ rw e)
        (rw e)
]
at_char true pc c r b ih h = elim (Bool-cases (c == lf)) [
  | inl e ↦
      let k : (c == cr) ≡ false = ground (arith, e) in
      next pc c r (sink (cr ∷ b)) b (c ∷ b) (decode true (c ∷ r)) ih
        (put_char-behind pc c b h ∙ rw (e, k)) (rw (e, k))
  | inr e ↦ elim (Bool-cases (c == nul)) [
    | inl f ↦
        let k : (c == cr) ≡ false = ground (arith, f) in
        next pc c r (sink (cr ∷ b)) b (cr ∷ b) (decode true (c ∷ r)) ih
          (put_char-behind pc c b h ∙ rw (e, f, k)) (rw (e, f, k))
    | inr f ↦ elim (Bool-cases (c == cr)) [
      | inl g ↦
          next pc c r (sink (cr ∷ b)) b (cr ∷ b) (decode true (c ∷ r)) ih
            (put_char-behind pc c b h
              ∙ rw (e, f, g) (ap (λ x. sink (x ∷ cr ∷ b)) ((==_iff c cr).0 g)))
            (rw (e, f, g))
      | inr g ↦
          next pc c r (sink (cr ∷ b)) b (c ∷ cr ∷ b) (decode true (c ∷ r)) ih
            (put_char-behind pc c b h ∙ rw (e, f, g)) (rw (e, f, g))
    ]
  ]
]

put_all-decode :
    (waits : Bool) (got : List ℕ) (pc : Option ℕ) (b : List ℕ)
    → is_char pc cr ≡ waits
    → (put_all pc got (sink (with_cr waits b))).1 ≡ sink (reverse_aux (decode waits got) b)
put_all-decode true [] pc b h = unfold put_all in refl
put_all-decode false [] pc b h = unfold put_all in refl
put_all-decode waits (c ∷ r) pc b h =
    at_char waits pc c r b (λ d. put_all-decode (c == cr) r (some c) d refl) h

-- A file, empty at the start, holds what the bytes written to it decode to.
pub contents-decoded :
    (convert : Bool) (got : List ℕ) → contents (stored convert got).1 ≡ decoded convert got
contents-decoded true got =
    ap contents (put_all-decode false got none [] refl) ∙ reverse-reverse (decode false got)
contents-decoded false got = reverse-reverse got
