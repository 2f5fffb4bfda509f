-- ===== src/Dc/Groupby.antt =====
-- extbuild.c: the view that `ComputeGivenGroupbys` makes, in the tree or through the file of chunks.
use mathlib.Core.Path.{subst}
use baseliner_docker.Base.{
  ℕ, ◌+◌, ◌*◌, ◌/◌, ◌%◌, ◌^◌, ◌<◌, ◌≤◌, List, [], ◌++◌, Bool, true, false, ◌==◌, ◌≡◌, refl, sym, ap,
  ap₂, ◌∙◌, ◌⊎◌, arith, inl, inr, Bool-cases, if◌then◌else◌, length, take_of_length_le,
}
use baseliner_docker.Dc.Row.{Row}
use baseliner_docker.Dc.Tree.{initialize_tree, u32}
use baseliner_docker.Dc.Inorder.{rows}
use baseliner_docker.Dc.Disk.{View, write_view_to_disk_cs}
use baseliner_docker.Dc.Written.{Writes, traversals_write}
use baseliner_docker.Dc.Aggregate.{aggregate, AllRows}
use baseliner_docker.Dc.Chunks.{Chunk}
use baseliner_docker.Dc.Absorb.{emit_all}
use baseliner_docker.Dc.Merging.{runs, multi_way_merge_lem}
use baseliner_docker.Dc.MergeLoop.{
  Out, Merge, Status, adc_ok, adc_write_failed, adc_internal_error, exit_1, unfinished, ended,
  merge_result, sub_chunk_size, multi_way_merge,
}
use baseliner_docker.Dc.Formation.{
  Former, select_all, max_num_of_chunks, run_formation, write_tree, compute_view,
}
use baseliner_docker.Dc.External.{
  Emits, emit_all-Emits, length-merge_all, length-select_all, InRuns, Formed, run_formation-Formed,
}

-- A number of runs, all but the last full, for which the merge has no room.
abbrev pub TooManyRuns : ℕ → ℕ → ℕ → ℕ → Type 0
TooManyRuns limit memory rec_size n = (k : ℕ) × (k * limit ≤ n + limit) × (memory < k * rec_size)

-- What the return codes say of a view with these rows: `old` is the file of the view before, `room`
-- and `space` are what the files of chunks and of the view take.
module _ (limit memory rec_size room space : ℕ) (before : List Row) (n : ℕ) (view : List Row) where
  abbrev pub Computed : Status × Out → Type 0
  Computed (adc_ok, o) = (o.view.disk.written ≡ before ++ view) × (o.n_view_rows ≡ length view)
  Computed (adc_write_failed, o) = (room < n) ⊎ (space < length view)
  Computed (adc_internal_error, o) =
      (max_num_of_chunks * limit ≤ n) ⊎ TooManyRuns limit memory rec_size n
  Computed (exit_1, o) = ⊥
  Computed (unfinished, o) = ⊥

  small_quotient :
      (k : ℕ) → 0 < k → 0 < rec_size → memory / k / rec_size ≡ 0 → memory < k * rec_size
  small_quotient k p q h = grind arith

  write_tree-Computed :
      (header : ℕ) (old : ℕ → Chunk) (selection : List ℕ) (nv nm : ℕ) (f : Former) (o : Out)
      → rows f.tree.root ≡ view
      → f.tree.count ≡ length view
      → o.view.disk.written ≡ before
      → o.view.disk.room ≡ space
      → Computed (write_tree header old selection nv nm f o)
  unfolding write_tree
  write_tree-Computed header old selection nv nm f o e c b s =
      written (write_view_to_disk_cs f.tree.root v) (traversals_write f.tree.root v).1
    where
      v : View
      v = record o.view { ordern = 0 }

      written :
          (w : Bool × View)
          → Writes (rows f.tree.root) o.view.disk.written o.view.disk.room w
          → Computed (
            if w.0 then adc_ok else adc_write_failed,
            record o {
              n_view_rows = f.tree.count;
              total_of_view_rows = (o.total_of_view_rows + f.tree.count) % u32;
              view = w.1;
            },
          )
      written (true, u) h = (
        h.1
            ∙ ap₂ (λ x y. x ++ y) b
                (take_of_length_le o.view.disk.room (rows f.tree.root) (ground (arith, h.0)) ∙ e),
        c,
      )
      written (false, u) h = inr (ground (arith, h.0, ap length e))

  merge_result-Computed :
      (o : Out) (w : Bool × Out)
      → Emits view o w
      → o.view.disk.written ≡ before
      → o.view.disk.room ≡ space
      → o.n_view_rows ≡ 0
      → length view < 2 ^ 32
      → Computed (merge_result o (ended w))
  unfolding merge_result
  merge_result-Computed o (true, u) h b s z l = (h.0 ∙ ap (λ x. x ++ view) b, omega (arith, h.1))
  merge_result-Computed o (false, u) h b s z l = inr (omega arith)

length-aggregate : (nv nm : ℕ) (rs : List Row) → length (aggregate nv nm rs) ≤ length rs
unfolding aggregate
length-aggregate nv nm rs = omega (arith, length-merge_all nv nm rs [])

no_memory :
    (fuel memory_limit rec_size nv nm : ℕ) (file : List Row) (raw : Merge)
    → (sub_chunk_size memory_limit (length raw.chunks) rec_size == 0) ≡ true
    → multi_way_merge fuel memory_limit rec_size nv nm file raw
      ≡ (adc_internal_error, record raw.out { n_view_rows = 0 })
unfolding multi_way_merge
no_memory fuel memory_limit rec_size nv nm file raw e = rw (multi_way_merge, e) refl

module _ (header : ℕ) (old : ℕ → Chunk) (selection : List ℕ) (nv nm fuel rec_size : ℕ) where
  -- `ComputeGivenGroupbys` for one view, where a node fits into the pool, the rows have the form that
  -- the view wants, no chunk is there yet, and the fuel allows a round for each row: it returns ADC_OK
  -- when the view is on its file and nViewRows is its number of rows; ADC_WRITE_FAILED only if the rows
  -- do not fit into the file of chunks, or the view not into its file; ADC_INTERNAL_ERROR only if the
  -- rows fill 1024 chunks, or a number of runs has no room in memory for a record of each; and it
  -- neither exits nor goes on for ever. The view is that of all rows, whether or not they fit into
  -- memory.
  pub compute_view-Computed :
      (rs : List Row) (f : Former) (raw : Merge)
      → AllRows nv nm (select_all selection nm rs)
      → f.chunks ≡ []
      → f.file_of_chunks.written ≡ []
      → f.tree.memory_limit < 2 ^ 32
      → 0 < (initialize_tree header f.tree nv nm).tree_node_size
      → 0 < (initialize_tree header f.tree nv nm).n_nodes_limit
      → 0 < rec_size
      → length rs < 2 ^ 32
      → length rs ≤ fuel
      → Computed
          (initialize_tree header f.tree nv nm).n_nodes_limit
          f.tree.memory_limit
          rec_size
          f.file_of_chunks.room
          raw.out.view.disk.room
          raw.out.view.disk.written
          (length rs)
          (aggregate nv nm (select_all selection nm rs))
          (compute_view header old selection nv nm fuel rec_size rs f raw)
  unfolding compute_view
  compute_view-Computed rs f raw a fc fw w sized roomy rp small enough =
      next (run_formation header old selection nv nm rs f) (
        run_formation-Formed header old selection nv nm f.tree f.file_of_chunks.room w sized roomy
          rs f a refl fc fw refl)
    where
      done : List Row
      done = select_all selection nm rs

      same_length : length done ≡ length rs
      same_length = length-select_all header old selection nv nm rs

      limit : ℕ
      limit = (initialize_tree header f.tree nv nm).n_nodes_limit

      Ends : Status × Out → Type 0
      Ends =
          Computed limit f.tree.memory_limit rec_size f.file_of_chunks.room raw.out.view.disk.room
            raw.out.view.disk.written (length rs) (aggregate nv nm (select_all selection nm rs))

      start : Out
      start = record raw.out { n_view_rows = 0 }

      merged : Former → Status × Out
      merged g =
          multi_way_merge fuel f.tree.memory_limit rec_size nv nm g.file_of_chunks.written
            (record raw { chunks = g.chunks })

      no_room_for :
          (g : Former)
          → InRuns header old selection nv nm limit done g
          → (sub_chunk_size f.tree.memory_limit (length g.chunks) rec_size == 0) ≡ true
          → Ends (merged g)
      no_room_for g k e =
          subst Ends
            (sym (
              no_memory fuel f.tree.memory_limit rec_size nv nm g.file_of_chunks.written
                (record raw { chunks = g.chunks }) e))
            (inr (
              length g.chunks,
              omega (arith, k.number, same_length),
              small_quotient limit f.tree.memory_limit rec_size f.file_of_chunks.room
                  raw.out.view.disk.room raw.out.view.disk.written (length rs) done
                  (length g.chunks) k.some_chunks rp (ground arith),
            ))

      room_for :
          (g : Former)
          → InRuns header old selection nv nm limit done g
          → 0 < sub_chunk_size f.tree.memory_limit (length g.chunks) rec_size
          → Ends (merged g)
      room_for g k e =
          subst Ends
            (sym (
              multi_way_merge_lem fuel f.tree.memory_limit rec_size nv nm g.file_of_chunks.written
                (record raw { chunks = g.chunks }) k.in_runs k.some_chunks w e
                (omega (arith, k.fewer, same_length))))
            (merge_result-Computed limit f.tree.memory_limit rec_size f.file_of_chunks.room
              raw.out.view.disk.room raw.out.view.disk.written (length rs)
              (aggregate nv nm (select_all selection nm rs)) start _
              (subst
                (λ v.
                  Emits v start
                    (emit_all (aggregate nv nm (runs g.file_of_chunks.written g.chunks)) start))
                k.view
                (emit_all-Emits (aggregate nv nm (runs g.file_of_chunks.written g.chunks)) start
                  (omega arith)))
              refl refl refl (omega (arith, length-aggregate nv nm done, same_length)))

      next :
          (s : Status × Former)
          → Formed header old selection nv nm f.tree f.file_of_chunks.room w sized roomy done s
          → Ends (elim s.0 [
            | adc_ok ↦
                if length s.1.chunks == 0
                then write_tree header old selection nv nm s.1 raw.out
                else merged s.1
            | adc_write_failed ↦ (adc_write_failed, raw.out)
            | adc_internal_error ↦ (adc_internal_error, raw.out)
            | exit_1 ↦ (exit_1, raw.out)
            | unfinished ↦ (unfinished, raw.out)
          ])
      next (adc_ok, g) (inl k) =
          subst
            (λ b. Ends (if b then write_tree header old selection nv nm g raw.out else merged g))
            (sym (ap (λ cs. length cs == 0) k.no_chunks))
            (write_tree-Computed limit f.tree.memory_limit rec_size _ _ _ (length rs) _ header old
              selection nv nm g raw.out k.view k.number refl refl)
      next (adc_ok, g) (inr k) =
          let some_runs : (length g.chunks == 0) ≡ false = ground (arith, k.some_chunks) in
          subst
            (λ b. Ends (if b then write_tree header old selection nv nm g raw.out else merged g))
            (sym some_runs)
            (elim (Bool-cases
              (sub_chunk_size f.tree.memory_limit (length g.chunks) rec_size == 0)) [
                | inl e ↦ no_room_for g k e
                | inr e ↦ room_for g k (ground arith)
              ])
      next (adc_write_failed, g) k = inl (omega (arith, same_length, k))
      next (adc_internal_error, g) k = inl (omega (arith, same_length, k))
      next (exit_1, g) k = k
      next (unfinished, g) k = k
