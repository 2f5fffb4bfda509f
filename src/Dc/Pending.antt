-- ===== src/Dc/Pending.antt =====
-- extbuild.c: the records that `MultiWayMerge` has still to take, in memory and on the file.
use mathlib.Core.Path.{subst}
use baseliner_docker.Base.{
  ℕ, zero, suc, ◌+◌, ◌-◌, ◌%◌, ◌^◌, ◌<◌, ◌≤◌, List, [], ◌∷◌, ◌++◌, true, false, ltb, ◌==◌, ◌≡◌,
  refl, sym, ap, ◌∙◌, arith, inl, inr, Bool-cases, some, length, length-append, append_assoc,
  ltb→lt, drop, length-take, pos_part, ◌⊎◌,
}
use baseliner_docker.Dc.Row.{Row}
use baseliner_docker.Dc.Tree.{u32}
use baseliner_docker.Dc.Insert.{IsSorted}
use baseliner_docker.Dc.Aggregate.{AllRows}
use baseliner_docker.Dc.Chunks.{
  Chunk, offer, forward, forward_at, refill_at, read_sub_chunk, num_empty_bufs, num_empty_runs,
  all_empty,
}
use baseliner_docker.Dc.Reading.{
  slice, rest, pending, OnFile, Kept, Ready, read_sub_chunk-Reread, length-drop,
}
use baseliner_docker.Dc.Choosing.{AllChunks}

abbrev pub pend : List Row → List Chunk → List Row
pend file [] = []
pend file (c ∷ cs) = pending file c ++ pend file cs

pub pend-append :
    (file : List Row) (xs ys : List Chunk) → pend file (xs ++ ys) ≡ pend file xs ++ pend file ys
pend-append file [] ys = refl
pend-append file (x ∷ xs) ys =
    ap (λ l. pending file x ++ l) (pend-append file xs ys)
    ∙ sym (append_assoc (pending file x) (pend file xs) (pend file ys))

length-slice : (area : ℕ → Row) (k n : ℕ) → length (slice area k n) ≡ n
length-slice area k zero = refl
length-slice area k (suc n) = ap suc (length-slice area (suc k) n)

pub length-rest :
    (file : List Row) (c : Chunk) → OnFile file c → length (rest file c) ≡ c.cur_chunk_num
length-rest file c f =
    let o = pos_part c.chunk_offset in
    let t = length-take c.cur_chunk_num (drop o file) in
    elim f.within [ inl p ↦ omega (arith, t, length-drop o file) | inr e ↦ omega (arith, t) ]

length-pending :
    (file : List Row) (c : Chunk)
    → OnFile file c
    → length (pending file c) ≡ c.cur_sub_chunk + c.cur_chunk_num
length-pending file c f = omega (
  arith,
  length-append (slice c.sub_chunk c.pos_sub_chunk c.cur_sub_chunk) (rest file c),
  length-rest file c f,
  length-slice c.sub_chunk c.pos_sub_chunk c.cur_sub_chunk,
)

-- `numEmptyBufs` and `numEmptyRuns` count no more than the chunks, and all of them if nothing is left.
record Emptied (cs : List Chunk) (n : ℕ) : Type 0 where
  bufs : num_empty_bufs cs ≤ length cs
  runs : num_empty_runs cs ≤ length cs
  none_left : n ≡ 0 → (num_empty_bufs cs ≡ length cs) × (num_empty_runs cs ≡ length cs)
  some_left : 0 < n → num_empty_bufs cs + num_empty_runs cs < length cs + length cs

count_empty :
    (file : List Row) (cs : List Chunk)
    → AllChunks (OnFile file) cs
    → Emptied cs (length (pend file cs))
unfolding num_empty_bufs num_empty_runs
count_empty file [] f = record {
  bufs = omega arith;
  runs = omega arith;
  none_left = λ e. (refl, refl);
  some_left = λ h. h;
}
count_empty file (c ∷ cs) f =
    let ih = count_empty file cs f.1 in
    let n = length-append (pending file c) (pend file cs) in
    let k = length-pending file c f.0 in
    record {
      bufs = ground (arith, ih.bufs);
      runs = ground (arith, ih.runs);
      none_left = λ e.
          (let l = ih.none_left (omega (arith, e)) in (ground (arith, l.0), ground (arith, l.1)));
      some_left = λ h. (ground (arith, ih.bufs, ih.runs, ih.some_left, n, k));
    }

-- The test that ends the loop.
pub all_empty_lem :
    (file : List Row) (cs : List Chunk)
    → AllChunks (OnFile file) cs
    → ((all_empty cs ≡ true) × (length (pend file cs) ≡ 0))
      ⊎ ((all_empty cs ≡ false) × (0 < length (pend file cs)))
unfolding all_empty
all_empty_lem file cs f =
    let e = count_empty file cs f in
    elim (Bool-cases (length (pend file cs) == 0)) [
      | inl z ↦ (let l = e.none_left (ground arith) in inl (ground (arith, l.0, l.1), ground arith))
      | inr z ↦
          (let l = e.some_left (ground arith) in
            inr (ground (arith, l, e.bufs, e.runs), ground arith))
    ]

-- A chunk in the loop: its records are sorted.
module _ (size : ℕ) (file : List Row) (nv nm : ℕ) where
  pub record Good (c : Chunk) : Type 0 where
    pub kept : Kept size file c
    pub ready : Ready c
    pub sorted : IsSorted nv (pending file c)
    pub are_rows : AllRows nv nm (pending file c)

  pub IsSorted-tail : (x : Row) (xs : List Row) → IsSorted nv (x ∷ xs) → IsSorted nv xs
  IsSorted-tail x xs h = h.2

  module _ (c : Chunk) (k : Kept size file c) where
    abbrev stepped : Chunk
    stepped = record c { cur_sub_chunk = c.cur_sub_chunk - 1; pos_sub_chunk = suc c.pos_sub_chunk }

    forward_lem : size < 2 ^ 32 → 0 < c.cur_sub_chunk → forward c ≡ stepped
    unfolding forward
    forward_lem s h =
        let some_left : (c.cur_sub_chunk == 0) ≡ false = ground arith in
        let e : (c.pos_sub_chunk + 1) % u32 ≡ suc c.pos_sub_chunk = omega (arith, k.slots) in
        rw (forward, some_left)
          (ap (λ p. record c { cur_sub_chunk = c.cur_sub_chunk - 1; pos_sub_chunk = p }) e)

    -- A step forward takes the offered row.
    pub pending-forward :
        size < 2 ^ 32 → 0 < c.cur_sub_chunk → pending file c ≡ offer c ∷ pending file (forward c)
    pending-forward s h =
        let e : c.cur_sub_chunk ≡ suc (c.cur_sub_chunk - 1) = omega arith in
        ap (λ n. slice c.sub_chunk c.pos_sub_chunk n ++ rest file c) e
        ∙ ap (λ d. offer c ∷ pending file d) (sym (forward_lem s h))

    pub forward-Kept : size < 2 ^ 32 → 0 < c.cur_sub_chunk → Kept size file (forward c)
    forward-Kept s h = subst (Kept size file) (sym (forward_lem s h)) (record {
      on_file = record { place = k.on_file.place; within = k.on_file.within };
      slots = omega (arith, k.slots);
    })

    -- What `ReadSubChunk` leaves where the chunk has to be read again.
    pub record Refilled (d : Chunk) : Type 0 where
      pub kept : Kept size file d
      pub ready : Ready d
      pub same : pending file d ≡ pending file c

    none_in_memory : c.cur_sub_chunk ≡ 0 → pending file c ≡ rest file c
    none_in_memory e = ap (λ n. slice c.sub_chunk c.pos_sub_chunk n ++ rest file c) e

    reread :
        c.cur_sub_chunk ≡ 0
        → 0 < size
        → (d : Chunk) × (read_sub_chunk size file c ≡ some d) × Refilled d
    unfolding read_sub_chunk
    reread e h = elim (Bool-cases (ltb 0 c.cur_chunk_num)) [
      | inl m ↦
          let r = read_sub_chunk-Reread size file c k.on_file h (ltb→lt _ _ m) in
          (
            r.0,
            r.1,
            record { kept = r.2.kept; ready = r.2.ready; same = r.2.same ∙ sym (none_in_memory e) },
          )
      | inr m ↦ (
        c,
        rw (read_sub_chunk, m) refl,
        record { kept = k; ready = inr (ground arith); same = refl },
      )
    ]

    pub refill_here :
        (cs : List Chunk)
        → 0 < size
        → (d : Chunk) × (refill_at size file 0 (c ∷ cs) ≡ some (d ∷ cs)) × Refilled d
    unfolding refill_at
    refill_here cs h = elim (Bool-cases (c.cur_sub_chunk == 0)) [
      | inl e ↦ let r = reread (ground arith) h in (r.0, rw (refill_at, e, r.1) refl, r.2)
      | inr e ↦
          (c, rw (refill_at, e) refl, record { kept = k; ready = inl (ground arith); same = refl })
    ]

  pub refill_skip :
      (xs ys zs : List Chunk)
      → refill_at size file 0 ys ≡ some zs
      → refill_at size file (length xs) (xs ++ ys) ≡ some (xs ++ zs)
  unfolding refill_at
  refill_skip [] ys zs e = e
  refill_skip (x ∷ xs) ys zs e = rw (refill_at, refill_skip xs ys zs e) refl

pub forward_skip :
    (xs : List Chunk) (c : Chunk) (ys : List Chunk)
    → forward_at (length xs) (xs ++ c ∷ ys) ≡ xs ++ forward c ∷ ys
unfolding forward_at
forward_skip [] c ys = refl
forward_skip (x ∷ xs) c ys = ap (λ l. x ∷ l) (forward_skip xs c ys)
