-- ===== src/Dc/Forming.antt =====
-- extbuild.c: the invariant of the loop of `RunFormation`.
use mathlib.Core.Path.{subst}
use baseliner_docker.Base.{
  ℕ, ◌+◌, ◌*◌, ◌<◌, ◌≤◌, List, [], ◌∷◌, ◌++◌, false, ◌≡◌, sym, ap, ap₂, ◌∙◌, arith, length,
  length-append,
}
use baseliner_docker.Dc.Row.{Row, IsKey}
use baseliner_docker.Dc.Tree.{tree_insert}
use baseliner_docker.Dc.Inorder.{rows, merge_row}
use baseliner_docker.Dc.Insert.{IsSorted, rows-tree_insert}
use baseliner_docker.Dc.Order.{tree_insert-IsSorted}
use baseliner_docker.Dc.Pool.{Pool, tree_insert-Pool}
use baseliner_docker.Dc.Aggregate.{
  merge_all, IsRow, AllRows, merge_row-AllRows, merge_all-append, merge_all-AllRows,
  merge_all_insert,
}
use baseliner_docker.Dc.Chunks.{Chunk}
use baseliner_docker.Dc.Reading.{rest}
use baseliner_docker.Dc.Choosing.{AllChunks}
use baseliner_docker.Dc.MergeStep.{AllRows-append}
use baseliner_docker.Dc.Merging.{Run, runs}
use baseliner_docker.Dc.Formation.{Former}
use baseliner_docker.Dc.Runs.{tree_insert-Fixed, length-merge_row}

module _ (nv nm memory limit room : ℕ) where
  -- The rows read so far are in the runs and in the tree. The runs are full, but for the one in the
  -- tree; `room` is what the file of chunks holds at most.
  pub record Forming (done : List Row) (f : Former) : Type 0 where
    pub pool : Pool f.tree
    pub memory_limit : f.tree.memory_limit ≡ memory
    pub nodes : f.tree.n_nodes_limit ≡ limit
    pub dims : f.tree.nd ≡ nv
    pub measures : f.tree.nm ≡ nm
    pub sorted : IsSorted nv (rows f.tree.root)
    pub are_rows : AllRows nv nm (rows f.tree.root)
    pub in_runs : AllChunks (Run nv nm f.file_of_chunks.written) f.chunks
    pub offset : f.chunk_offset ≡ length f.file_of_chunks.written
    pub same :
        merge_all nv nm (runs f.file_of_chunks.written f.chunks ++ rows f.tree.root) []
        ≡ merge_all nv nm done []
    pub fewer :
        length (runs f.file_of_chunks.written f.chunks) + length (rows f.tree.root) ≤ length done
    pub full : length f.chunks * limit + length (rows f.tree.root) ≤ length done
    pub short : length f.file_of_chunks.written + length (rows f.tree.root) ≤ length done
    pub whole : f.file_of_chunks.room + length f.file_of_chunks.written ≡ room

  pub runs-AllRows :
      (file : List Row) (cs : List Chunk)
      → AllChunks (Run nv nm file) cs
      → AllRows nv nm (runs file cs)
  runs-AllRows file [] r = tt
  runs-AllRows file (c ∷ cs) r =
      AllRows-append nv nm (rest file c) _ r.0.are_rows (runs-AllRows file cs r.1)

  -- A row goes into the tree.
  pub insert-Forming :
      (done : List Row) (f : Former) (r : Row)
      → IsRow nv nm r
      → f.tree.memory_is_full ≡ false
      → Forming done f
      → Forming (done ++ r ∷ []) (record f { tree = tree_insert f.tree r })
        × (0 < length (rows (tree_insert f.tree r).root))
  insert-Forming done f r p not_full h =
      let key = subst (λ d. IsKey d r.dims) (sym h.dims) p.0 in
      let ordered = subst (λ d. IsSorted d (rows f.tree.root)) (sym h.dims) h.sorted in
      let file = f.file_of_chunks.written in
      let fixed = tree_insert-Fixed f.tree r in
      let now : rows (tree_insert f.tree r).root ≡ merge_row nv nm r (rows f.tree.root) =
        rows-tree_insert f.tree r key ordered
        ∙ ap₂ (λ d m. merge_row d m r (rows f.tree.root)) h.dims h.measures in
      let n = length-merge_row nv nm r (rows f.tree.root) in
      let more = length-append done (r ∷ []) in
      let before = merge_all nv nm (runs file f.chunks) [] in
      let rows_before =
        merge_all-AllRows nv nm (runs file f.chunks) [] (runs-AllRows file f.chunks h.in_runs) tt in
      (
        record {
          pool = tree_insert-Pool f.tree r h.pool not_full;
          memory_limit = fixed.limit ∙ h.memory_limit;
          nodes = fixed.nodes ∙ h.nodes;
          dims = fixed.dims ∙ h.dims;
          measures = fixed.measures ∙ h.measures;
          sorted =
              subst (λ d. IsSorted d (rows (tree_insert f.tree r).root)) h.dims
                (tree_insert-IsSorted f.tree r key ordered);
          are_rows = subst (AllRows nv nm) (sym now) (merge_row-AllRows nv nm r _ p h.are_rows);
          in_runs = h.in_runs;
          offset = h.offset;
          same =
              ap (λ l. merge_all nv nm (runs file f.chunks ++ l) []) now
              ∙ merge_all-append nv nm (runs file f.chunks) _ []
              ∙ merge_all_insert nv nm r (rows f.tree.root) before p h.are_rows rows_before
              ∙ ap (merge_row nv nm r)
                  (sym (merge_all-append nv nm (runs file f.chunks) (rows f.tree.root) []) ∙ h.same)
              ∙ unfold merge_all in (sym (merge_all-append nv nm done (r ∷ []) []));
          fewer = omega (arith, h.fewer, n.1, ap length now, more);
          full = omega (arith, h.full, n.1, ap length now, more);
          short = omega (arith, h.short, n.1, ap length now, more);
          whole = h.whole;
        },
        omega (arith, n.0, ap length now),
      )
