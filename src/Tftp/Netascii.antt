-- ===== src/Tftp/Netascii.antt =====
-- Netascii, as the comments of tftpsubs.c describe it, against the two conversion loops: `encode` is
-- the wire form of a text, and `contents` what has been written to a file.
use mathlib.Core.List.{reverse_aux}
use baseliner_docker.Base.{
  ℕ, zero, suc, ◌≤◌, ◌<◌, List, [], ◌∷◌, ◌++◌, Option, some, Bool, true, false, ◌≡◌, refl, arith,
  length, ◌==◌, if◌then◌else◌,
}
use baseliner_docker.Tftp.Stream.{Source, Sink}
use baseliner_docker.Tftp.Buffers.{Filled, fill, put_char, put_all, is_char, lf, cr, nul}

-- lf -> cr,lf and cr -> cr,nul
abbrev pub encode_char : ℕ → List ℕ
encode_char c = if c == lf then cr ∷ lf ∷ [] else if c == cr then cr ∷ nul ∷ [] else c ∷ []

abbrev pub encode : List ℕ → List ℕ
encode [] = []
encode (c ∷ r) = encode_char c ++ encode r

-- The second byte of a pair that a full buffer has cut.
abbrev pub pending : Bool → Option ℕ → List ℕ
pending false pc = []
pending true pc = (if is_char pc lf then lf else nul) ∷ []

abbrev pub source : List ℕ → Source
source r = record { rest = r; broken = false }

-- What is still to be sent: the pending byte, then the encoding of the rest of the file.
abbrev pub remaining : Filled → List ℕ
remaining r = pending r.newline r.prevchar ++ encode r.file.rest

pub record Fills (n : ℕ) (todo : List ℕ) (r : Filled) : Type 0 where
  pub whole : r.out ++ remaining r ≡ todo
  pub bounded : length r.out ≤ n
  -- a short buffer ends the file
  pub short : length r.out < n → remaining r ≡ []
  pub intact : r.file.broken ≡ false

pub fill-Fills :
    (n : ℕ) (nl : Bool) (pc : Option ℕ) (r : List ℕ)
    → Fills n (pending nl pc ++ encode r) (fill n nl pc (source r))
unfolding fill
fill-Fills zero nl pc r = record {
  whole = refl;
  bounded = omega arith;
  short = λ h. absurd (omega arith);
  intact = refl;
}
fill-Fills (suc n) true pc r = ground (arith, fill-Fills n false pc r)
fill-Fills (suc n) false pc [] = record {
  whole = refl;
  bounded = omega arith;
  short = λ h. refl;
  intact = refl;
}
fill-Fills (suc n) false pc (c ∷ r) =
    ground (arith, fill-Fills n true (some c) r, fill-Fills n false pc r)

abbrev pub sink : List ℕ → Sink
sink before = record { before = before; after = []; full = false }

-- The bytes of a file, in order.
abbrev pub contents : Sink → List ℕ
contents f = reverse_aux f.before f.after

pub put_all-append :
    (pc : Option ℕ) (xs ys : List ℕ) (f : Sink)
    → put_all pc (xs ++ ys) f ≡ put_all (put_all pc xs f).0 ys (put_all pc xs f).1
unfolding put_all
put_all-append pc [] ys f = refl
put_all-append pc (x ∷ xs) ys f = put_all-append (some x) xs ys (put_char pc x f)

-- Nothing written, or a last byte that is no lone CR.
abbrev pub NoCr : Option ℕ → Type 0
NoCr pc = is_char pc cr ≡ false

pub put_char-plain :
    (pc : Option ℕ) (c : ℕ) (b : List ℕ) → NoCr pc → put_char pc c (sink b) ≡ sink (c ∷ b)
unfolding put_char
put_char-plain pc c b h = rw h

put_char-pair :
    (c : ℕ) (b : List ℕ)
    → (put_char (some cr) lf (sink (c ∷ b)) ≡ sink (lf ∷ b))
      × (put_char (some cr) nul (sink (c ∷ b)) ≡ sink (c ∷ b))
unfolding put_char
put_char-pair c b = (refl, refl)

put_all-encode_char :
    (pc : Option ℕ) (c : ℕ) (b : List ℕ)
    → NoCr pc
    → (put_all pc (encode_char c) (sink b)).1 ≡ sink (c ∷ b)
      × NoCr (put_all pc (encode_char c) (sink b)).0
unfolding put_all
put_all-encode_char pc c b h =
    ground (arith, put_char-plain pc c b h, put_char-plain pc cr b h, put_char-pair cr b)

-- After a last byte that is no lone CR, writing the wire form of a text puts the text behind what the
-- file holds, and the last byte then is no lone CR.
pub put_all-encode :
    (xs : List ℕ) (pc : Option ℕ) (b : List ℕ)
    → NoCr pc
    → ((put_all pc (encode xs) (sink b)).1 ≡ sink (reverse_aux xs b))
      × NoCr (put_all pc (encode xs) (sink b)).0
put_all-encode [] pc b h = unfold put_all in (refl, h)
put_all-encode (x ∷ xs) pc b h =
    let step = put_all-encode_char pc x b h in
    rw (put_all-append pc (encode_char x) (encode xs) (sink b), step.0)
      (put_all-encode xs (put_all pc (encode_char x) (sink b)).0 (x ∷ b) step.1)
