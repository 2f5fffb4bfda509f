-- ===== src/Dc/Formation.antt =====
-- extbuild.c: `RunFormation`, which inserts the rows into the tree and writes the tree to
-- `fileOfChunks` as a sorted run whenever the pool is full; and the part of `ComputeGivenGroupbys`
-- that makes one view. Sizes and offsets in the files count records: the nodes of a tree lie in the
-- pool, so that count*outRecSize does not wrap.
use baseliner_docker.Base.{
  ℕ, zero, suc, ◌+◌, ◌-◌, ◌%◌, List, [], ◌∷◌, ◌++◌, Bool, leb, ◌==◌, ◌||◌, if◌then◌else◌, length,
  take, pos,
}
use baseliner_docker.Dc.Row.{Row}
use baseliner_docker.Dc.Tree.{RbTree, tree_insert, initialize_tree, u32}
use baseliner_docker.Dc.Disk.{View, Disk, write_chunk_to_disk, write_view_to_disk_cs}
use baseliner_docker.Dc.Chunks.{Chunk}
use baseliner_docker.Dc.MergeLoop.{
  Out, Merge, Status, adc_ok, adc_write_failed, adc_internal_error, exit_1, unfinished,
  multi_way_merge,
}

abbrev pub max_num_of_chunks : ℕ
max_num_of_chunks = 1024

abbrev pub word_at : List ℕ → ℕ → ℕ
word_at [] i = 0
word_at (x ∷ xs) zero = x
word_at (x ∷ xs) (suc i) = word_at xs i

abbrev pub selected : List ℕ → List ℕ → List ℕ
selected dims [] = []
selected dims (i ∷ ix) = word_at dims (i - 1) ∷ selected dims ix

-- `SelectToView`; the selection counts from 1, and has nv entries.
unfoldable pub select_to_view : List ℕ → ℕ → Row → Row
select_to_view selection nm r = record {
  measures = take nm r.measures;
  dims = selected r.dims selection;
}

-- The rows that go into the view.
abbrev pub select_all : List ℕ → ℕ → List Row → List Row
select_all selection nm [] = []
select_all selection nm (r ∷ rs) = select_to_view selection nm r ∷ select_all selection nm rs

-- What `RunFormation` works on: `numberOfChunks` is the length of the list of chunks.
pub record Former : Type 0 where
  pub tree : RbTree
  pub chunks : List Chunk
  pub chunk_offset : ℕ
  pub file_of_chunks : Disk

-- `WriteChunkToDisk` writes to `fileOfChunks` and touches no view.
abbrev pub on_disk : Disk → View
on_disk d = record { nm = 0; m_sums = []; checksums = []; ordern = 0; disk = d }

-- `header` is sizeof(struct treeNode), and `old` what `chunksParams` holds before.
module _ (header : ℕ) (old : ℕ → Chunk) (selection : List ℕ) (nv nm : ℕ) where
  unfoldable pub add_chunk : Former → Former
  add_chunk f = record f {
    chunks =
        f.chunks
        ++ record (old (length f.chunks)) {
          cur_chunk_num = f.tree.count;
          chunk_offset = pos f.chunk_offset;
        }
          ∷ [];
  }

  unfoldable pub save_chunk : Former → Bool × Former
  save_chunk f =
      let w = write_chunk_to_disk f.tree.root (on_disk f.file_of_chunks) in
      (w.0, record f { chunk_offset = f.chunk_offset + f.tree.count; file_of_chunks = w.1.disk })

  -- The body of the loop over the rows.
  unfoldable pub full_chunk : Former → Status × Former
  full_chunk f =
      let a = add_chunk f in
      let w = save_chunk a in
      if leb max_num_of_chunks (length a.chunks)
      then (adc_internal_error, a)
      else if w.0
      then (adc_ok, record w.1 { tree = initialize_tree header w.1.tree nv nm })
      else (adc_write_failed, w.1)

  unfoldable pub form_row : Row → Former → Status × Former
  form_row r f =
      let g = record f { tree = tree_insert f.tree (select_to_view selection nm r) } in
      if g.tree.memory_is_full then full_chunk g else (adc_ok, g)

  unfoldable pub form_rows : List Row → Former → Status × Former
  form_rows [] f = (adc_ok, f)
  form_rows (r ∷ rs) f =
      let s = form_row r f in
      elim s.0 [
        | adc_ok ↦ form_rows rs s.1
        | adc_write_failed ↦ s
        | adc_internal_error ↦ s
        | exit_1 ↦ s
        | unfinished ↦ s
      ]

  -- Behind the loop: what is in the tree becomes the last run, if there are others.
  unfoldable pub last_chunk : Former → Status × Former
  last_chunk f =
      let w = save_chunk (add_chunk f) in
      if (length f.chunks == 0) || (f.tree.count == 0)
      then (adc_ok, f)
      else if w.0
      then (adc_ok, w.1)
      else (adc_write_failed, w.1)

  unfoldable pub run_formation : List Row → Former → Status × Former
  run_formation rows f =
      let s =
        form_rows rows
          (record f { tree = initialize_tree header f.tree nv nm; chunk_offset = 0 }) in
      elim s.0 [
        | adc_ok ↦ last_chunk s.1
        | adc_write_failed ↦ s
        | adc_internal_error ↦ s
        | exit_1 ↦ s
        | unfinished ↦ s
      ]

  -- The view is in the tree.
  unfoldable pub write_tree : Former → Out → Status × Out
  write_tree f o =
      let w = write_view_to_disk_cs f.tree.root (record o.view { ordern = 0 }) in
      (
        if w.0 then adc_ok else adc_write_failed,
        record o {
          n_view_rows = f.tree.count;
          total_of_view_rows = (o.total_of_view_rows + f.tree.count) % u32;
          view = w.1;
        },
      )

  -- `ComputeGivenGroupbys`, for one view; `raw` has what the buffers of `MultiWayMerge` hold before.
  unfoldable pub compute_view : ℕ → ℕ → List Row → Former → Merge → Status × Out
  compute_view fuel rec_size rows f raw =
      let s = run_formation rows f in
      let m =
        multi_way_merge fuel f.tree.memory_limit rec_size nv nm s.1.file_of_chunks.written
          (record raw { chunks = s.1.chunks }) in
      elim s.0 [
        | adc_ok ↦ if length s.1.chunks == 0 then write_tree s.1 raw.out else m
        | adc_write_failed ↦ (adc_write_failed, raw.out)
        | adc_internal_error ↦ (adc_internal_error, raw.out)
        | exit_1 ↦ (exit_1, raw.out)
        | unfinished ↦ (unfinished, raw.out)
      ]
