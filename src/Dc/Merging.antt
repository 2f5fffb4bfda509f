-- ===== src/Dc/Merging.antt =====
-- extbuild.c: `MultiWayMerge` writes the view of all records of the chunks.
use mathlib.Core.Path.{subst}
use baseliner_docker.Base.{
  ℕ, ◌+◌, ◌/◌, ◌^◌, ◌<◌, ◌≤◌, List, [], ◌∷◌, ◌++◌, true, false, ◌==◌, ◌≡◌, refl, sym, ap, ap₂, ◌∙◌,
  arith, inl, some, length, length-append, pos, pos_part,
}
use baseliner_docker.Dc.Row.{Row}
use baseliner_docker.Dc.Insert.{IsSorted}
use baseliner_docker.Dc.Aggregate.{merge_all, aggregate, AllRows}
use baseliner_docker.Dc.Chunks.{Chunk, read_all}
use baseliner_docker.Dc.Reading.{rest, OnFile, read_sub_chunk-Reread}
use baseliner_docker.Dc.Choosing.{AllChunks}
use baseliner_docker.Dc.Pending.{pend, length-rest, Good}
use baseliner_docker.Dc.MergeLoop.{Merge, ended, merge_result, sub_chunk_size, multi_way_merge}
use baseliner_docker.Dc.Absorb.{emit_all}
use baseliner_docker.Dc.Rounds.{merge_loop_lem}

-- A sorted run on the file, of which nothing has been read.
pub record Run (nv nm : ℕ) (file : List Row) (c : Chunk) : Type 0 where
  pub place : c.chunk_offset ≡ pos (pos_part c.chunk_offset)
  pub within : pos_part c.chunk_offset + c.cur_chunk_num ≤ length file
  pub nonempty : 0 < c.cur_chunk_num
  pub sorted : IsSorted nv (rest file c)
  pub are_rows : AllRows nv nm (rest file c)

-- The records of the runs.
abbrev pub runs : List Row → List Chunk → List Row
runs file [] = []
runs file (c ∷ cs) = rest file c ++ runs file cs

module _ (size : ℕ) (file : List Row) (nv nm : ℕ) (q : 0 < size) where
  read_all_lem :
      (cs : List Chunk)
      → AllChunks (Run nv nm file) cs
      → (ds : List Chunk) × (read_all size file cs ≡ some ds)
        × AllChunks (Good size file nv nm) ds
        × (pend file ds ≡ runs file cs)
  unfolding read_all
  read_all_lem [] r = ([], refl, tt, refl)
  read_all_lem (c ∷ cs) r =
      let ih = read_all_lem cs r.1 in
      let f : OnFile file c = record { place = λ p. r.0.place; within = inl r.0.within } in
      let d = read_sub_chunk-Reread size file c f q r.0.nonempty in
      (
        d.0 ∷ ih.0,
        rw (read_all, d.1, ih.1) refl,
        (
          record {
            kept = d.2.kept;
            ready = d.2.ready;
            sorted = subst (IsSorted nv) (sym d.2.same) r.0.sorted;
            are_rows = subst (AllRows nv nm) (sym d.2.same) r.0.are_rows;
          },
          ih.2,
        ),
        ap₂ (λ x y. x ++ y) d.2.same ih.3,
      )

  runs_left : (cs : List Chunk) → AllChunks (Run nv nm file) cs → length cs ≤ length (runs file cs)
  runs_left [] r = omega arith
  runs_left (c ∷ cs) r = omega (
    arith,
    runs_left cs r.1,
    length-append (rest file c) (runs file cs),
    r.0.nonempty,
    length-rest file c (record { place = λ p. r.0.place; within = inl r.0.within }),
  )

quotient_small : (m n s : ℕ) → m < 2 ^ 32 → m / n / s < 2 ^ 32
quotient_small m n s h = grind arith

-- If a part of each run fits into the memory, and the fuel allows a round for each record,
-- `MultiWayMerge` ends by its return, and has written the view of all records of the runs, a row at a
-- time, as far as the writes succeed.
pub multi_way_merge_lem :
    (fuel memory_limit rec_size nv nm : ℕ) (file : List Row) (raw : Merge)
    → AllChunks (Run nv nm file) raw.chunks
    → 0 < length raw.chunks
    → memory_limit < 2 ^ 32
    → 0 < sub_chunk_size memory_limit (length raw.chunks) rec_size
    → length (runs file raw.chunks) ≤ fuel
    → multi_way_merge fuel memory_limit rec_size nv nm file raw
      ≡ merge_result
          (record raw.out { n_view_rows = 0 })
          (ended (
            emit_all (aggregate nv nm (runs file raw.chunks)) (record raw.out { n_view_rows = 0 })))
unfolding multi_way_merge aggregate
multi_way_merge_lem fuel memory_limit rec_size nv nm file raw r l w q f =
    let o = record raw.out { n_view_rows = 0 } in
    let size = sub_chunk_size memory_limit (length raw.chunks) rec_size in
    let a = read_all_lem size file nv nm q raw.chunks r in
    let n = runs_left size file nv nm q raw.chunks r in
    let nonzero : (size == 0) ≡ false = ground arith in
    rw (multi_way_merge, nonzero, a.1)
      (ap (merge_result o) (
        merge_loop_lem size file nv nm q
          (quotient_small memory_limit (length raw.chunks) rec_size w) fuel
          (record raw { chunks = a.0; first_one = true; out = o }) a.2 (inl refl)
          (omega (arith, ap length a.3)) (omega (arith, ap length a.3))
        ∙ ap (λ rs. ended (emit_all (merge_all nv nm rs []) o)) a.3))
