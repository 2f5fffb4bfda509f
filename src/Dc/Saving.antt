-- ===== src/Dc/Saving.antt =====
-- extbuild.c: `RunFormation` closes a run, and ends.
use mathlib.Core.Path.{subst}
use baseliner_docker.Base.{
  ℕ, suc, ◌+◌, ◌*◌, ◌/◌, ◌^◌, ◌<◌, ◌≤◌, List, [], ◌∷◌, ◌++◌, Bool, true, false, leb, ◌≡◌, refl, sym,
  ap, ◌∙◌, arith, inl, inr, Bool-cases, if◌then◌else◌, length, length-append, pos, append_assoc,
  append-nil,
}
use baseliner_docker.Dc.Row.{Row}
use baseliner_docker.Dc.Tree.{RbTree, tree_insert, initialize_tree}
use baseliner_docker.Dc.Inorder.{rows}
use baseliner_docker.Dc.Pool.{initialize_tree-Pool}
use baseliner_docker.Dc.Aggregate.{merge_all, IsRow, AllRows}
use baseliner_docker.Dc.Chunks.{Chunk}
use baseliner_docker.Dc.Choosing.{AllChunks}
use baseliner_docker.Dc.Merging.{Run, runs}
use baseliner_docker.Dc.MergeLoop.{
  Status, adc_ok, adc_write_failed, adc_internal_error, exit_1, unfinished,
}
use baseliner_docker.Dc.Formation.{
  Former, select_to_view, select_all, add_chunk, full_chunk, form_row, form_rows, max_num_of_chunks,
}
use baseliner_docker.Dc.Forming.{Forming, insert-Forming}
use baseliner_docker.Dc.Saved.{saved, Saves, saved-Saves}

suc-times : (k l : ℕ) → suc k * l ≡ k * l + l
suc-times k l = grind arith

module _ (header : ℕ) (old : ℕ → Chunk) (selection : List ℕ) (nv nm : ℕ) where
  -- `InitializeTree` lays the pool out anew in the same way.
  module _ (t t' : RbTree) (e : t'.memory_limit ≡ t.memory_limit) where
    abbrev init : RbTree → RbTree
    init u = initialize_tree header u nv nm

    init_again :
        ((init t').n_nodes_limit ≡ (init t).n_nodes_limit)
        × ((init t').tree_node_size ≡ (init t).tree_node_size)
    unfolding initialize_tree
    init_again = (ap (λ m. m / (init t).tree_node_size) e, refl)

  -- How the loop goes on: the run is saved and the tree is empty, or an error with its cause.
  module _ (t : RbTree) (room : ℕ) (words : t.memory_limit < 2 ^ 32)
      (sized : 0 < (initialize_tree header t nv nm).tree_node_size)
      (roomy : 0 < (initialize_tree header t nv nm).n_nodes_limit) where
    abbrev limit : ℕ
    limit = (initialize_tree header t nv nm).n_nodes_limit

    abbrev pub Forms : List Row → Former → Type 0
    Forms done f = Forming nv nm t.memory_limit limit room done f × (f.tree.memory_is_full ≡ false)

    abbrev pub Going : List Row → Status × Former → Type 0
    Going done (adc_ok, f) = Forms done f
    Going done (adc_write_failed, f) = room < length done
    Going done (adc_internal_error, f) = max_num_of_chunks * limit ≤ length done
    Going done (exit_1, f) = ⊥
    Going done (unfinished, f) = ⊥

    -- An empty tree behind the runs.
    pub anew :
        (done : List Row) (f : Former)
        → f.tree.memory_limit ≡ t.memory_limit
        → AllChunks (Run nv nm f.file_of_chunks.written) f.chunks
        → f.chunk_offset ≡ length f.file_of_chunks.written
        → merge_all nv nm (runs f.file_of_chunks.written f.chunks) [] ≡ merge_all nv nm done []
        → length (runs f.file_of_chunks.written f.chunks) ≤ length done
        → length f.chunks * limit ≤ length done
        → length f.file_of_chunks.written ≤ length done
        → f.file_of_chunks.room + length f.file_of_chunks.written ≡ room
        → Forms done (record f { tree = initialize_tree header f.tree nv nm })
    unfolding initialize_tree
    anew done f m r o s n k l w =
        let again = init_again t f.tree m in
        (
          record {
            pool =
                initialize_tree-Pool header f.tree nv nm (omega (arith, m)) (omega (arith, again.1))
                  (omega (arith, again.0));
            memory_limit = m;
            nodes = again.0;
            dims = refl;
            measures = refl;
            sorted = tt;
            are_rows = tt;
            in_runs = r;
            offset = o;
            same = ap (λ l. merge_all nv nm l []) (append-nil _) ∙ s;
            fewer = omega (arith, n);
            full = omega (arith, k);
            short = omega (arith, l);
            whole = w;
          },
          refl,
        )

    too_many : (k l n : ℕ) → 1024 ≤ k + 1 → k * l + l ≤ n → 1024 * l ≤ n
    too_many k l n h e = grind arith

    -- After the write of a full run.
    closed :
        (done : List Row) (f : Former) (w : Bool × Former)
        → Forming nv nm t.memory_limit limit room done f
        → length (rows f.tree.root) ≡ limit
        → Saves header old selection nv nm f w
        → Going done (
            if w.0
            then (adc_ok, record w.1 { tree = initialize_tree header w.1.tree nv nm })
            else (adc_write_failed, w.1))
    closed done f (true, g) h e s =
        anew done g (ap (λ u. u.memory_limit) s.tree ∙ h.memory_limit) s.in_runs s.offset
          (ap (λ l. merge_all nv nm l []) s.same ∙ h.same)
          (omega (
            arith,
            h.fewer,
            ap length s.same,
            length-append (runs f.file_of_chunks.written f.chunks) (rows f.tree.root),
          ))
          (omega
            (arith, h.full, ap (λ k. k * limit) s.number, suc-times (length f.chunks) limit, e))
          (omega (
            arith,
            h.short,
            ap length s.written,
            length-append f.file_of_chunks.written (rows f.tree.root),
          ))
          (omega (
            arith,
            h.whole,
            s.room,
            ap length s.written,
            length-append f.file_of_chunks.written (rows f.tree.root),
          ))
    closed done f (false, g) h e s = omega (arith, h.short, h.whole, s)

    full_chunk-Going :
        (done : List Row) (f : Former)
        → Forming nv nm t.memory_limit limit room done f
        → f.tree.memory_is_full ≡ true
        → 0 < length (rows f.tree.root)
        → Going done (full_chunk header old selection nv nm f)
    unfolding full_chunk add_chunk
    full_chunk-Going done f h b p =
        let all_taken : f.tree.free_node_counter ≡ 0 = ground (arith, h.pool.fullness, b) in
        let e : length (rows f.tree.root) ≡ limit =
          omega (arith, h.pool.nodes, h.pool.taken, h.nodes) in
        let a = add_chunk header old selection nv nm f in
        let n = length-append f.chunks (
          record (old (length f.chunks)) {
            cur_chunk_num = f.tree.count;
            chunk_offset = pos f.chunk_offset;
          }
          ∷ []) in
        elim (Bool-cases (leb max_num_of_chunks (length a.chunks))) [
          | inl c ↦
              rw (full_chunk, c)
                (too_many (length f.chunks) limit (length done) (ground arith)
                  (omega (arith, h.full, e)))
          | inr c ↦
              rw (full_chunk, c)
                (closed done f (saved header old selection nv nm f) h e
                  (saved-Saves header old selection nv nm t.memory_limit limit room done f h p))
        ]

    form_row-Going :
        (done : List Row) (f : Former) (r : Row)
        → IsRow nv nm (select_to_view selection nm r)
        → Forms done f
        → Going
            (done ++ select_to_view selection nm r ∷ [])
            (form_row header old selection nv nm r f)
    unfolding form_row
    form_row-Going done f r p h =
        let r' = select_to_view selection nm r in
        let g = record f { tree = tree_insert f.tree r' } in
        let k = insert-Forming nv nm t.memory_limit limit room done f r' p h.1 h.0 in
        branch (done ++ r' ∷ []) g k.0 k.1 g.tree.memory_is_full refl
      where
        branch :
            (now : List Row) (g : Former)
            → Forming nv nm t.memory_limit limit room now g
            → 0 < length (rows g.tree.root)
            → (b : Bool) → g.tree.memory_is_full ≡ b
            → Going now (if b then full_chunk header old selection nv nm g else (adc_ok, g))
        branch now g k p true e = full_chunk-Going now g k e p
        branch now g k p false e = (k, e)

    pub form_rows-Going :
        (rs done : List Row) (f : Former)
        → AllRows nv nm (select_all selection nm rs)
        → Forms done f
        → Going (done ++ select_all selection nm rs) (form_rows header old selection nv nm rs f)
    unfolding form_rows
    form_rows-Going [] done f p h = subst (λ l. Forms l f) (sym (append-nil done)) h
    form_rows-Going (r ∷ rs) done f p h =
        next (form_row header old selection nv nm r f) (form_row-Going done f r p.0 h) (λ g k.
          subst (λ l. Going l (form_rows header old selection nv nm rs g))
            (append_assoc done (select_to_view selection nm r ∷ []) (select_all selection nm rs))
            (form_rows-Going rs (done ++ select_to_view selection nm r ∷ []) g p.1 k))
      where
        longer :
            length (done ++ select_to_view selection nm r ∷ [])
            ≤ length (done ++ select_to_view selection nm r ∷ select_all selection nm rs)
        longer = omega (
          arith,
          length-append done (select_to_view selection nm r ∷ []),
          length-append done (select_to_view selection nm r ∷ select_all selection nm rs),
        )

        next :
            (s : Status × Former)
            → Going (done ++ select_to_view selection nm r ∷ []) s
            → ((g : Former)
                → Forms (done ++ select_to_view selection nm r ∷ []) g
                → Going
                    (done ++ select_to_view selection nm r ∷ select_all selection nm rs)
                    (form_rows header old selection nv nm rs g))
            → Going (done ++ select_to_view selection nm r ∷ select_all selection nm rs) (elim s.0 [
              | adc_ok ↦ form_rows header old selection nv nm rs s.1
              | adc_write_failed ↦ s
              | adc_internal_error ↦ s
              | exit_1 ↦ s
              | unfinished ↦ s
            ])
        next (adc_ok, g) k f = f g k
        next (adc_write_failed, g) k f = omega (arith, longer, k)
        next (adc_internal_error, g) k f = omega (arith, longer, k)
        next (exit_1, g) k f = k
        next (unfinished, g) k f = k
