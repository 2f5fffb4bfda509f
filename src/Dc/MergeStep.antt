-- ===== src/Dc/MergeStep.antt =====
-- extbuild.c: one round of `MultiWayMerge` takes the least row that is left, and no other.
use mathlib.Core.Path.{subst}
use baseliner_docker.Base.{
  ℕ, zero, suc, ◌^◌, ◌<◌, List, [], ◌∷◌, ◌++◌, ◌≡◌, refl, sym, ap, ap₂, ◌∙◌, ◌⊎◌, arith, inl, inr,
  some, length,
}
use baseliner_docker.Dc.Row.{Row, key_value}
use baseliner_docker.Dc.Insert.{AllAbove, IsSorted}
use baseliner_docker.Dc.Aggregate.{IsRow, AllRows}
use baseliner_docker.Dc.Chunks.{Chunk, offer, forward, refill_at}
use baseliner_docker.Dc.Reading.{pending, slice, rest}
use baseliner_docker.Dc.Choosing.{AllChunks, AllChunks-append, AllChunks-split, AtLeast, Offers}
use baseliner_docker.Dc.Pending.{
  pend, pend-append, Good, pending-forward, forward-Kept, refill_here, refill_skip,
}
use baseliner_docker.Dc.Absorb.{AllFrom, AllFrom-append, AllFrom-mono}

pub AllRows-append :
    (nv nm : ℕ) (xs ys : List Row) → AllRows nv nm xs → AllRows nv nm ys → AllRows nv nm (xs ++ ys)
AllRows-append nv nm [] ys p q = q
AllRows-append nv nm (x ∷ xs) ys p q = (p.0, AllRows-append nv nm xs ys p.1 q)

zero_or : (n : ℕ) → (n ≡ 0) ⊎ (0 < n)
zero_or zero = inl refl
zero_or (suc n) = inr (omega arith)

pub AllFrom-above : (nv k : ℕ) (xs : List Row) → AllAbove nv k xs → AllFrom nv k xs
AllFrom-above nv k [] h = tt
AllFrom-above nv k (x ∷ xs) h = (omega (arith, h.0.1), AllFrom-above nv k xs h.1)

-- A row moved to the front.
pub AllFrom-front :
    (nv k : ℕ) (xs : List Row) (m : Row) (ys : List Row)
    → AllFrom nv k (xs ++ m ∷ ys)
    → AllFrom nv k (m ∷ (xs ++ ys))
AllFrom-front nv k [] m ys h = h
AllFrom-front nv k (x ∷ xs) m ys h = let r = AllFrom-front nv k xs m ys h.1 in (r.0, (h.0, r.1))

module _ (size : ℕ) (file : List Row) (nv nm : ℕ) where
  module _ (c : Chunk) (g : Good size file nv nm c) where
    -- Nothing is left of a chunk that has nothing in memory.
    pub nothing_left : c.cur_sub_chunk ≡ 0 → pending file c ≡ []
    nothing_left e = elim g.ready [
      | inl p ↦ absurd (omega arith)
      | inr z ↦ ap₂ (λ n k. slice c.sub_chunk c.pos_sub_chunk n ++ rest_of k) e z
    ]
      where
        rest_of : ℕ → List Row
        rest_of k = rest file (record c { cur_chunk_num = k })

    -- What it offers has the form of a row.
    module _ (small : size < 2 ^ 32) (p : 0 < c.cur_sub_chunk) where
      whole : pending file c ≡ offer c ∷ pending file (forward c)
      whole = pending-forward size file nv nm c g.kept small p

      in_order : IsSorted nv (offer c ∷ pending file (forward c))
      in_order = subst (IsSorted nv) whole g.sorted

      good_rows : AllRows nv nm (offer c ∷ pending file (forward c))
      good_rows = subst (AllRows nv nm) whole g.are_rows

    pub Good-Offers : size < 2 ^ 32 → Offers nv c
    Good-Offers small p = (good_rows small p).0.0

    -- All that is left of a chunk comes after the row chosen.
    Good-AllFrom : (k : ℕ) → size < 2 ^ 32 → AtLeast nv k c → AllFrom nv k (pending file c)
    Good-AllFrom k small h = elim (zero_or c.cur_sub_chunk) [
      | inl e ↦ subst (AllFrom nv k) (sym (nothing_left e)) tt
      | inr p ↦ subst (AllFrom nv k) (sym (whole small p)) (
        h p,
        AllFrom-mono nv k _ (pending file (forward c)) (h p)
            (AllFrom-above nv _ _ (in_order small p).1),
      )
    ]

    -- The chunk after a step forward, read again where it has to be.
    refilled_here :
        (right : List Chunk)
        → size < 2 ^ 32
        → 0 < size
        → 0 < c.cur_sub_chunk
        → (d : Chunk) × (refill_at size file 0 (forward c ∷ right) ≡ some (d ∷ right))
          × Good size file nv nm d
          × (pending file d ≡ pending file (forward c))
    refilled_here right small q p =
        let r =
          refill_here size file nv nm (forward c) (forward-Kept size file nv nm c g.kept small p)
            right q in
        (
          r.0,
          r.1,
          record {
            kept = r.2.kept;
            ready = r.2.ready;
            sorted = subst (IsSorted nv) (sym r.2.same) (in_order small p).2;
            are_rows = subst (AllRows nv nm) (sym r.2.same) (good_rows small p).1;
          },
          r.2.same,
        )

  all_rows : (cs : List Chunk) → AllChunks (Good size file nv nm) cs → AllRows nv nm (pend file cs)
  all_rows [] g = tt
  all_rows (c ∷ cs) g = AllRows-append nv nm (pending file c) _ g.0.are_rows (all_rows cs g.1)

  all_from :
      (k : ℕ) (cs : List Chunk)
      → size < 2 ^ 32
      → AllChunks (Good size file nv nm) cs
      → AllChunks (AtLeast nv k) cs
      → AllFrom nv k (pend file cs)
  all_from k [] small g h = tt
  all_from k (c ∷ cs) small g h =
      AllFrom-append nv k (pending file c) _ (Good-AllFrom c g.0 k small h.0)
        (all_from k cs small g.1 h.1)

  pub all_nothing :
      (cs : List Chunk)
      → AllChunks (Good size file nv nm) cs
      → AllChunks (λ c. c.cur_sub_chunk ≡ 0) cs
      → pend file cs ≡ []
  all_nothing [] g z = refl
  all_nothing (c ∷ cs) g z = ap₂ (λ x y. x ++ y) (nothing_left c g.0 z.0) (all_nothing cs g.1 z.1)

  -- A round: the chunk c between others offers the least row.
  module _ (left : List Chunk) (c : Chunk) (right : List Chunk) (small : size < 2 ^ 32)
      (q : 0 < size) (p : 0 < c.cur_sub_chunk)
      (g : AllChunks (Good size file nv nm) (left ++ c ∷ right)) where
    abbrev pub others : List Row
    others = pend file left ++ (pending file (forward c) ++ pend file right)

    pub pend-others :
        pend file (left ++ c ∷ right)
        ≡ pend file left ++ offer c ∷ (pending file (forward c) ++ pend file right)
    pend-others =
        pend-append file left (c ∷ right)
        ∙ ap (λ l. pend file left ++ (l ++ pend file right))
            (whole c (AllChunks-split _ left (c ∷ right) g).1.0 small p)

    pub others-rows : IsRow nv nm (offer c) × AllRows nv nm others × AllRows nv nm (pend file left)
    others-rows =
        let s = AllChunks-split _ left (c ∷ right) g in
        let r = good_rows c s.1.0 small p in
        (
          r.0,
          AllRows-append nv nm (pend file left) _ (all_rows left s.0)
              (AllRows-append nv nm (pending file (forward c)) _ r.1 (all_rows right s.1.1)),
          all_rows left s.0,
        )

    pub others-AllFrom :
        AllChunks (AtLeast nv (key_value nv (offer c).dims)) (left ++ c ∷ right)
        → AllFrom nv (key_value nv (offer c).dims) others
    others-AllFrom h =
        (AllFrom-front nv _ (pend file left) (offer c) (pending file (forward c) ++ pend file right)
          (subst (AllFrom nv (key_value nv (offer c).dims)) pend-others
            (all_from _ (left ++ c ∷ right) small g h))).1

    pub others-refill :
        (ds : List Chunk) × (refill_at size file (length left) (left ++ forward c ∷ right)
          ≡ some ds)
        × AllChunks (Good size file nv nm) ds
        × (pend file ds ≡ others)
    others-refill =
        let s = AllChunks-split _ left (c ∷ right) g in
        let r = refilled_here c s.1.0 right small q p in
        (
          left ++ r.0 ∷ right,
          refill_skip size file nv nm left (forward c ∷ right) (r.0 ∷ right) r.1,
          AllChunks-append _ left (r.0 ∷ right) s.0 (r.2, s.1.1),
          pend-append file left (r.0 ∷ right)
              ∙ ap (λ l. pend file left ++ (l ++ pend file right)) r.3,
        )
