-- ===== src/Dc/Choosing.antt =====
-- extbuild.c: the loops of `MultiWayMerge` over the chunks find the smallest record in memory.
use mathlib.Core.Path.{subst}
use baseliner_docker.Base.{
  ℕ, ◌+◌, ◌<◌, ◌≤◌, List, [], ◌∷◌, ◌++◌, false, ltb, ltb→lt, ◌≡◌, refl, sym, ap, ◌∙◌, ◌⊎◌, arith,
  inl, inr, Bool-cases, some, drop, length, length-append, append_assoc, append-nil,
}
use baseliner_docker.Dc.Row.{Row, key_comp, IsKey, key_value, key_comp_lem}
use baseliner_docker.Dc.Insert.{Ordering-cases, lt_of_compare, gt_of_compare, eq_of_compare}
use baseliner_docker.Dc.Chunks.{Chunk, offer, first_ready, lower, lowest, choose}

-- A property of all chunks.
abbrev pub AllChunks : (Chunk → Type 0) → List Chunk → Type 0
AllChunks P [] = Unit
AllChunks P (c ∷ cs) = P c × AllChunks P cs

pub AllChunks-append :
    (P : Chunk → Type 0) (xs ys : List Chunk)
    → AllChunks P xs
    → AllChunks P ys
    → AllChunks P (xs ++ ys)
AllChunks-append P [] ys p q = q
AllChunks-append P (x ∷ xs) ys p q = (p.0, AllChunks-append P xs ys p.1 q)

pub AllChunks-split :
    (P : Chunk → Type 0) (xs ys : List Chunk)
    → AllChunks P (xs ++ ys)
    → AllChunks P xs × AllChunks P ys
AllChunks-split P [] ys p = (tt, p)
AllChunks-split P (x ∷ xs) ys p = let q = AllChunks-split P xs ys p.1 in ((p.0, q.0), q.1)

pub AllChunks-map :
    (P Q : Chunk → Type 0)
    → ((c : Chunk) → P c → Q c)
    → (cs : List Chunk) → AllChunks P cs
    → AllChunks Q cs
AllChunks-map P Q f [] p = tt
AllChunks-map P Q f (c ∷ cs) p = (f c p.0, AllChunks-map P Q f cs p.1)

-- The row is the offer of the k-th chunk.
pub record Chosen (all : List Chunk) (m : Row) (k : ℕ) : Type 0 where
  pub left : List Chunk
  pub chunk : Chunk
  pub right : List Chunk
  pub whole : all ≡ left ++ chunk ∷ right
  pub index : length left ≡ k
  pub nonempty : 0 < chunk.cur_sub_chunk
  pub offered : offer chunk ≡ m

-- What a chunk has in memory has a key of nv words, and one that is not below k.
abbrev pub Offers : ℕ → Chunk → Type 0
Offers nv c = 0 < c.cur_sub_chunk → IsKey nv (offer c).dims

abbrev pub AtLeast : ℕ → ℕ → Chunk → Type 0
AtLeast nv k c = 0 < c.cur_sub_chunk → k ≤ key_value nv (offer c).dims

module _ (nv : ℕ) (all : List Chunk) where
  -- The choice among the chunks before some chunk.
  pub record Best (pre : List Chunk) (b : Row × ℕ) : Type 0 where
    pub chosen : Chosen all b.0 b.1
    pub key : IsKey nv b.0.dims
    pub low : AllChunks (AtLeast nv (key_value nv b.0.dims)) pre

  module _ (pre : List Chunk) (c : Chunk) (cs : List Chunk) (whole : all ≡ pre ++ c ∷ cs) (m : Row)
      (k : ℕ) (b : Best pre (m, k)) (f : Offers nv c) where
    keep : AtLeast nv (key_value nv m.dims) c → Best (pre ++ c ∷ []) (m, k)
    keep h = record {
      chosen = b.chosen;
      key = b.key;
      low = AllChunks-append _ pre (c ∷ []) b.low (h, tt);
    }

    replace :
        0 < c.cur_sub_chunk
        → key_value nv (offer c).dims < key_value nv m.dims
        → Best (pre ++ c ∷ []) (offer c, length pre)
    replace p h = record {
      chosen = record {
        left = pre;
        chunk = c;
        right = cs;
        whole = whole;
        index = refl;
        nonempty = p;
        offered = refl;
      };
      key = f p;
      low =
          AllChunks-append _ pre (c ∷ [])
            (AllChunks-map _ _ (λ d q r. omega (arith, q r)) pre b.low) ((λ q. omega arith), tt);
    }

    lower-Best : Best (pre ++ c ∷ []) (lower nv (length pre) c (m, k))
    unfolding lower
    lower-Best = elim (Bool-cases (ltb 0 c.cur_sub_chunk)) [
      | inr e ↦ rw (lower, e) (keep (λ p. absurd (ground arith)))
      | inl e ↦
          let p = ltb→lt _ _ e in
          let same = key_comp_lem nv (offer c).dims m.dims (f p) b.key in
          elim (Ordering-cases (key_comp (offer c).dims m.dims nv)) [
            | inl o ↦ rw (lower, e, o) (replace p (lt_of_compare _ _ (sym same ∙ o)))
            | inr (inl o) ↦
                rw (lower, e, o) (keep (λ q. omega (arith, eq_of_compare _ _ (sym same ∙ o))))
            | inr (inr o) ↦
                rw (lower, e, o) (keep (λ q. omega (arith, gt_of_compare _ _ (sym same ∙ o))))
          ]
    ]

  lowest-Best :
      (pre cs : List Chunk) (i : ℕ) (b : Row × ℕ)
      → all ≡ pre ++ cs
      → length pre ≡ i
      → Best pre b
      → AllChunks (Offers nv) cs
      → Best all (lowest nv i cs b)
  unfolding lowest
  lowest-Best pre [] i b w e h f = subst (λ l. Best l b) (sym (w ∙ append-nil pre)) h
  lowest-Best pre (c ∷ cs) i (m, k) w e h f =
      lowest-Best (pre ++ c ∷ []) cs (i + 1) _ (w ∙ sym (append_assoc pre (c ∷ []) cs))
        (length-append pre (c ∷ []) ∙ omega (arith, e))
        (subst (λ j. Best (pre ++ c ∷ []) (lower nv j c (m, k))) e
          (lower-Best pre c cs w m k h f.0))
        f.1

-- The first chunk with a record in memory.
record Found (i : ℕ) (cs : List Chunk) : Type 0 where
  left : List Chunk
  chunk : Chunk
  right : List Chunk
  whole : cs ≡ left ++ chunk ∷ right
  found : first_ready i cs ≡ some (offer chunk, i + length left)
  nonempty : 0 < chunk.cur_sub_chunk
  empty : AllChunks (λ d. d.cur_sub_chunk ≡ 0) left

first_ready-Found : (i : ℕ) (cs : List Chunk) → AllChunks (λ c. c.cur_sub_chunk ≡ 0) cs ⊎ Found i cs
unfolding first_ready
first_ready-Found i [] = inl tt
first_ready-Found i (c ∷ cs) = elim (Bool-cases (ltb 0 c.cur_sub_chunk)) [
  | inl e ↦ inr (record {
    left = [];
    chunk = c;
    right = cs;
    whole = refl;
    found = rw (first_ready, e) (ap (λ j. some (offer c, j)) (omega arith));
    nonempty = ltb→lt _ _ e;
    empty = tt;
  })
  | inr e ↦ later i c cs e (first_ready-Found (i + 1) cs)
]
  where
    later :
        (i : ℕ) (c : Chunk) (cs : List Chunk)
        → ltb 0 c.cur_sub_chunk ≡ false
        → AllChunks (λ d. d.cur_sub_chunk ≡ 0) cs ⊎ Found (i + 1) cs
        → AllChunks (λ d. d.cur_sub_chunk ≡ 0) (c ∷ cs) ⊎ Found i (c ∷ cs)
    later i c cs e (inl z) = inl (ground arith, z)
    later i c cs e (inr r) = inr (record {
      left = c ∷ r.left;
      chunk = r.chunk;
      right = r.right;
      whole = ap (λ l. c ∷ l) r.whole;
      found = rw (first_ready, e) (r.found ∙ ap (λ j. some (offer r.chunk, j)) (omega arith));
      nonempty = r.nonempty;
      empty = (ground arith, r.empty);
    })

drop-length : (xs ys : List Chunk) → drop (length xs) (xs ++ ys) ≡ ys
drop-length [] ys = refl
drop-length (x ∷ xs) ys = drop-length xs ys

-- Both loops: the row chosen is the least of those in memory, if there is one.
pub choose-Best :
    (nv : ℕ) (cs : List Chunk) (old : Row × ℕ)
    → AllChunks (Offers nv) cs
    → AllChunks (λ c. c.cur_sub_chunk ≡ 0) cs ⊎ Best nv cs cs (choose nv cs old)
unfolding choose
choose-Best nv cs old f = elim (first_ready-Found 0 cs) [ inl z ↦ inl z | inr r ↦ inr (start r) ]
  where
    start : (r : Found 0 cs) → Best nv cs cs (choose nv cs old)
    start r =
        let parts =
          AllChunks-split (Offers nv) r.left (r.chunk ∷ r.right)
            (subst (AllChunks (Offers nv)) r.whole f) in
        let j : 0 + length r.left ≡ length r.left = omega arith in
        let here : drop (length r.left) cs ≡ r.chunk ∷ r.right =
          ap (drop (length r.left)) r.whole ∙ drop-length r.left (r.chunk ∷ r.right) in
        rw (choose, r.found, j, here)
          (lowest-Best nv cs r.left (r.chunk ∷ r.right) (length r.left) _ r.whole refl
            (record {
              chosen = record {
                left = r.left;
                chunk = r.chunk;
                right = r.right;
                whole = r.whole;
                index = refl;
                nonempty = r.nonempty;
                offered = refl;
              };
              key = parts.1.0 r.nonempty;
              low = AllChunks-map _ _ (λ d z p. absurd (omega arith)) r.left r.empty;
            })
            parts.1)
