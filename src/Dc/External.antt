-- ===== src/Dc/External.antt =====
-- extbuild.c: what `RunFormation` leaves, in the tree or in the file of chunks.
use mathlib.Core.Path.{subst}
use baseliner_docker.Base.{
  ℕ, suc, ◌+◌, ◌-◌, ◌*◌, ◌%◌, ◌^◌, ◌<◌, ◌≤◌, List, [], ◌∷◌, ◌++◌, Bool, true, false, ◌==◌, ◌≡◌,
  refl, sym, ap, ◌∙◌, ◌⊎◌, arith, inl, inr, Bool-cases, if◌then◌else◌, length, length-append,
  append_assoc, append-nil,
}
use baseliner_docker.Dc.Row.{Row, key_value}
use baseliner_docker.Dc.Tree.{RbTree, initialize_tree, u32}
use baseliner_docker.Dc.Inorder.{rows, merge_row}
use baseliner_docker.Dc.Insert.{IsSorted}
use baseliner_docker.Dc.Disk.{View, sum_measures}
use baseliner_docker.Dc.Written.{some_room, no_room}
use baseliner_docker.Dc.Aggregate.{merge_all, aggregate, AllRows}
use baseliner_docker.Dc.Chunks.{Chunk}
use baseliner_docker.Dc.Choosing.{AllChunks}
use baseliner_docker.Dc.MergeStep.{AllFrom-above}
use baseliner_docker.Dc.Absorb.{emit_all, then_emit, merge_all-below}
use baseliner_docker.Dc.Rounds.{length_zero}
use baseliner_docker.Dc.Merging.{Run, runs}
use baseliner_docker.Dc.MergeLoop.{
  Out, emit, counted, Status, adc_ok, adc_write_failed, adc_internal_error, exit_1, unfinished,
}
use baseliner_docker.Dc.Formation.{
  Former, select_all, form_rows, last_chunk, max_num_of_chunks, run_formation,
}
use baseliner_docker.Dc.Runs.{length-merge_row}
use baseliner_docker.Dc.Forming.{Forming}
use baseliner_docker.Dc.Saved.{saved, Saves, saved-Saves}
use baseliner_docker.Dc.Saving.{Forms, Going, form_rows-Going, anew}

-- Sorted rows are their own view.
merge_all_sorted :
    (nv nm : ℕ) (xs : List Row) → IsSorted nv xs → AllRows nv nm xs → merge_all nv nm xs [] ≡ xs
unfolding merge_all merge_row
merge_all_sorted nv nm [] h a = refl
merge_all_sorted nv nm (x ∷ []) h a = refl
merge_all_sorted nv nm (x ∷ y ∷ xs) h a =
    merge_all-below nv nm (y ∷ xs) x y [] a.1 a.0 h.1.0.1
      (omega arith, AllFrom-above nv (key_value nv y.dims) xs h.2.1)
    ∙ ap (λ l. x ∷ l) (merge_all_sorted nv nm (y ∷ xs) h.2 a.1)

pub length-merge_all :
    (nv nm : ℕ) (xs l : List Row) → length (merge_all nv nm xs l) ≤ length xs + length l
unfolding merge_all
length-merge_all nv nm [] l = omega arith
length-merge_all nv nm (x ∷ xs) l =
    omega (arith, length-merge_all nv nm xs (merge_row nv nm x l), (length-merge_row nv nm x l).1)

-- A view written a row at a time, with its number of rows.
abbrev pub Emits : List Row → Out → Bool × Out → Type 0
Emits rs o (true, u) =
    (u.view.disk.written ≡ o.view.disk.written ++ rs)
    × (u.n_view_rows ≡ (o.n_view_rows + length rs) % u32)
Emits rs o (false, u) = o.view.disk.room < length rs

pub emit_all-Emits : (rs : List Row) (o : Out) → o.n_view_rows < u32 → Emits rs o (emit_all rs o)
unfolding emit_all emit sum_measures
emit_all-Emits [] o n = (sym (append-nil o.view.disk.written), omega arith)
emit_all-Emits (r ∷ rs) o n = elim (Bool-cases (o.view.disk.room == 0)) [
  | inl e ↦
      subst (λ w. Emits (r ∷ rs) o (then_emit (counted r o w) (λ u. emit_all rs u)))
        (sym (no_room r o.view (ground arith))) (ground arith)
  | inr e ↦
      subst (λ w. Emits (r ∷ rs) o (then_emit (counted r o w) (λ u. emit_all rs u)))
        (sym (some_room r o.view (o.view.disk.room - 1) (ground arith)))
        (onward (emit_all rs _) (emit_all-Emits rs (counted r o (true, wrote)).1 (omega arith)))
]
  where
    wrote : View
    wrote = record o.view {
      disk = record { written = o.view.disk.written ++ r ∷ []; room = o.view.disk.room - 1 };
    }

    onward : (t : Bool × Out) → Emits rs (counted r o (true, wrote)).1 t → Emits (r ∷ rs) o t
    onward (true, u) k = (k.0 ∙ append_assoc o.view.disk.written (r ∷ []) rs, omega (arith, k.1))
    onward (false, u) k = omega arith

module _ (header : ℕ) (old : ℕ → Chunk) (selection : List ℕ) (nv nm : ℕ) where
  pub length-select_all : (rs : List Row) → length (select_all selection nm rs) ≡ length rs
  length-select_all [] = refl
  length-select_all (r ∷ rs) = ap suc (length-select_all rs)

  -- All rows are in the tree, or all in the runs.
  pub record InTree (done : List Row) (f : Former) : Type 0 where
    pub no_chunks : f.chunks ≡ []
    pub view : rows f.tree.root ≡ aggregate nv nm done
    pub number : f.tree.count ≡ length (aggregate nv nm done)

  pub record InRuns (limit : ℕ) (done : List Row) (f : Former) : Type 0 where
    pub some_chunks : 0 < length f.chunks
    pub in_runs : AllChunks (Run nv nm f.file_of_chunks.written) f.chunks
    pub view : aggregate nv nm (runs f.file_of_chunks.written f.chunks) ≡ aggregate nv nm done
    pub fewer : length (runs f.file_of_chunks.written f.chunks) ≤ length done
    pub number : length f.chunks * limit ≤ length done + limit

  module _ (t : RbTree) (room : ℕ) (words : t.memory_limit < 2 ^ 32)
      (sized : 0 < (initialize_tree header t nv nm).tree_node_size)
      (roomy : 0 < (initialize_tree header t nv nm).n_nodes_limit) where
    abbrev limit : ℕ
    limit = (initialize_tree header t nv nm).n_nodes_limit

    abbrev pub Formed : List Row → Status × Former → Type 0
    Formed done (adc_ok, f) = InTree done f ⊎ InRuns limit done f
    Formed done (adc_write_failed, f) = room < length done
    Formed done (adc_internal_error, f) = max_num_of_chunks * limit ≤ length done
    Formed done (exit_1, f) = ⊥
    Formed done (unfinished, f) = ⊥

    times_suc : (k l : ℕ) → suc k * l ≡ k * l + l
    times_suc k l = grind arith

    no_chunks_lem :
        (done : List Row) (f : Former)
        → Forming nv nm t.memory_limit limit room done f
        → (cs : List Chunk) → f.chunks ≡ cs
        → length cs ≡ 0
        → InTree done f
    unfolding aggregate
    no_chunks_lem done f h (c ∷ cs) e z = absurd (omega (arith, z))
    no_chunks_lem done f h [] e z =
        let view =
          sym (merge_all_sorted nv nm (rows f.tree.root) h.sorted h.are_rows)
          ∙ ap (λ cs. merge_all nv nm (runs f.file_of_chunks.written cs ++ rows f.tree.root) [])
              (sym e)
          ∙ h.same in
        record { no_chunks = e; view = view; number = omega (arith, h.pool.nodes, ap length view) }

    last_chunk-Formed :
        (done : List Row) (f : Former)
        → Forms header old selection nv nm t room words sized roomy done f
        → Formed done (last_chunk header old selection nv nm f)
    unfolding last_chunk aggregate
    last_chunk-Formed done f h = elim (Bool-cases (length f.chunks == 0)) [
      | inl e ↦ rw (last_chunk, e) (inl (no_chunks_lem done f h.0 f.chunks refl (ground arith)))
      | inr e ↦ elim (Bool-cases (f.tree.count == 0)) [
        | inl z ↦
            rw (last_chunk, e, z)
              (inr (record {
                some_chunks = ground arith;
                in_runs = h.0.in_runs;
                view = nothing (ground (arith, h.0.pool.nodes, z));
                fewer = omega (arith, h.0.fewer);
                number = omega (arith, h.0.full);
              }))
        | inr z ↦
            rw (last_chunk, e, z)
              (written (saved header old selection nv nm f) (
                saved-Saves header old selection nv nm t.memory_limit limit room done f h.0
                  (ground (arith, h.0.pool.nodes, z))))
      ]
    ]
      where
        nothing :
            length (rows f.tree.root) ≡ 0
            → merge_all nv nm (runs f.file_of_chunks.written f.chunks) [] ≡ merge_all nv nm done []
        nothing e =
            ap (λ l. merge_all nv nm l [])
              (sym (append-nil _)
                ∙ ap (λ l. runs f.file_of_chunks.written f.chunks ++ l) (sym (length_zero _ e)))
            ∙ h.0.same

        written :
            (w : Bool × Former)
            → Saves header old selection nv nm f w
            → Formed done (if w.0 then (adc_ok, w.1) else (adc_write_failed, w.1))
        written (true, g) s = inr (record {
          some_chunks = omega (arith, s.number);
          in_runs = s.in_runs;
          view = ap (λ l. merge_all nv nm l []) s.same ∙ h.0.same;
          fewer = omega (
            arith,
            h.0.fewer,
            ap length s.same,
            length-append (runs f.file_of_chunks.written f.chunks) (rows f.tree.root),
          );
          number =
              omega
                (arith, h.0.full, ap (λ k. k * limit) s.number, times_suc (length f.chunks) limit);
        })
        written (false, g) s = omega (arith, h.0.short, h.0.whole, s)

    fresh :
        (f : Former)
        → f.tree ≡ t
        → f.chunks ≡ []
        → f.file_of_chunks.written ≡ []
        → f.file_of_chunks.room ≡ room
        → Forms header old selection nv nm t room words sized roomy []
            (record f { tree = initialize_tree header f.tree nv nm; chunk_offset = 0 })
    fresh f ft fc fw fr =
        anew header old selection nv nm t room words sized roomy [] (record f { chunk_offset = 0 })
          (ap (λ u. u.memory_limit) ft)
          (subst (AllChunks (Run nv nm f.file_of_chunks.written)) (sym fc) tt) (ap length (sym fw))
          (ap (λ cs. merge_all nv nm (runs f.file_of_chunks.written cs) []) fc)
          (omega (arith, ap (λ cs. length (runs f.file_of_chunks.written cs)) fc))
          (omega (arith, ap (λ cs. length cs * limit) fc)) (omega (arith, ap length fw))
          (omega (arith, fr, ap length fw))

    pub run_formation-Formed :
        (rs : List Row) (f : Former)
        → AllRows nv nm (select_all selection nm rs)
        → f.tree ≡ t
        → f.chunks ≡ []
        → f.file_of_chunks.written ≡ []
        → f.file_of_chunks.room ≡ room
        → Formed (select_all selection nm rs) (run_formation header old selection nv nm rs f)
    unfolding run_formation
    run_formation-Formed rs f a ft fc fw fr = next (form_rows header old selection nv nm rs start) (
        form_rows-Going header old selection nv nm t room words sized roomy rs [] start a
          (fresh f ft fc fw fr))
      where
        start : Former
        start = record f { tree = initialize_tree header f.tree nv nm; chunk_offset = 0 }

        next :
            (s : Status × Former)
            → Going header old selection nv nm t room words sized roomy
                (select_all selection nm rs)
                s
            → Formed (select_all selection nm rs) (elim s.0 [
              | adc_ok ↦ last_chunk header old selection nv nm s.1
              | adc_write_failed ↦ s
              | adc_internal_error ↦ s
              | exit_1 ↦ s
              | unfinished ↦ s
            ])
        next (adc_ok, g) k = last_chunk-Formed (select_all selection nm rs) g k
        next (adc_write_failed, g) k = k
        next (adc_internal_error, g) k = k
        next (exit_1, g) k = k
        next (unfinished, g) k = k
