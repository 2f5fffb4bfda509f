-- ===== src/Dc/ExternalTests.antt =====
-- A view of the DC benchmark whose rows do not fit into memory, at concrete inputs.
use baseliner_docker.Base.{ℕ, List, [], ◌∷◌, ◌≡◌, refl, arith, false, true, pos, ◌+ℤ◌}
use baseliner_docker.Dc.Row.{key_value, Row, add_measures, key_comp}
use baseliner_docker.Dc.Tree.{
  RbTree, leaf, tree_insert, initialize_tree, place, new_tree_node, descend, rebalance, zip,
}
use baseliner_docker.Dc.Disk.{
  write_chunk_to_disk, traverse, visit_chunk, write_to_file, sum_measures,
}
use baseliner_docker.Dc.Pool.{Pool, initialize_tree-Pool, tree_insert-Pool}
use baseliner_docker.Dc.Aggregate.{AllRows, aggregate}
use baseliner_docker.Dc.Chunks.{
  Chunk, read_all, read_sub_chunk, seek_and_read, read_records, choose, first_ready, lowest, lower,
  forward_at, forward, refill_at, all_empty, num_empty_bufs, num_empty_runs,
}
use baseliner_docker.Dc.MergeLoop.{
  ended, Merge, multi_way_merge, merge_loop, round, settle, take_in, emit, merge_result, add_checks,
}
use baseliner_docker.Dc.Formation.{
  Former, compute_view, select_all, select_to_view, run_formation, form_rows, form_row, full_chunk,
  add_chunk, save_chunk, last_chunk, write_tree,
}
use baseliner_docker.Dc.Choosing.{AllChunks}
use baseliner_docker.Dc.Absorb.{emit_all}
use baseliner_docker.Dc.Merging.{Run, runs, multi_way_merge_lem}
use baseliner_docker.Dc.Groupby.{Computed, compute_view-Computed}

abbrev row : ℕ → ℕ → ℕ → Row
row m a b = record { measures = m ∷ []; dims = a ∷ b ∷ [] }

abbrev input : List Row
input = row 1 0 5 ∷ row 2 1 5 ∷ row 3 1 4 ∷ row 4 0 7 ∷ row 5 0 4 ∷ []

-- A pool of two nodes of 32 bytes.
abbrev tree : RbTree
tree = record {
  root = leaf;
  count = 0;
  tree_node_size = 0;
  node_data_size = 0;
  memory_limit = 64;
  memaddr = 0;
  memory_is_full = false;
  free_node_counter = 0;
  n_nodes_limit = 0;
  nd = 0;
  nm = 0;
}

abbrev chunk : ℕ → Chunk
chunk i = record {
  cur_chunk_num = 0;
  chunk_offset = pos 0;
  pos_sub_chunk = 9;
  cur_sub_chunk = 7;
  sub_chunk = λ k. row 0 0 0;
}

abbrev former : Former
former = record {
  tree = tree;
  chunks = [];
  chunk_offset = 0;
  file_of_chunks = record { written = []; room = 9 };
}

abbrev buffers : Merge
buffers = record {
  chunks = [];
  first_one = true;
  output = row 0 0 0;
  best = (row 0 0 0, 0);
  out = record {
    n_view_rows = 0;
    total_of_view_rows = 3;
    view = record {
      nm = 1;
      m_sums = 0 ∷ [];
      checksums = 0 ∷ [];
      ordern = 0;
      disk = record { written = []; room = 9 };
    };
  };
}

-- The second dimension alone.
abbrev dims : List ℕ
dims = 2 ∷ []

input-AllRows : AllRows 1 1 (select_all dims 1 input)
unfolding select_to_view
input-AllRows = ground arith

compute_view_example :
    Computed 2 64 12 9 9 [] 5
      (aggregate 1 1 (select_all dims 1 input))
      (compute_view 24 chunk dims 1 1 5 12 input former buffers)
unfolding initialize_tree
compute_view_example =
    compute_view-Computed 24 chunk dims 1 1 5 12 input former buffers input-AllRows refl refl
      (omega arith) (omega arith) (omega arith) (omega arith) (omega arith) (omega arith)

-- Three runs, merged.
merged :
    (compute_view 24 chunk dims 1 1 5 12 input former buffers).1.view.disk.written
    ≡ record { measures = 8 ∷ []; dims = 4 ∷ [] }
      ∷ record { measures = 3 ∷ []; dims = 5 ∷ [] }
      ∷ record { measures = 4 ∷ []; dims = 7 ∷ [] }
      ∷ []
unfolding compute_view run_formation form_rows form_row full_chunk add_chunk save_chunk last_chunk
    write_tree select_to_view initialize_tree tree_insert place new_tree_node descend rebalance zip
    write_chunk_to_disk traverse visit_chunk write_to_file multi_way_merge read_all read_sub_chunk
    seek_and_read read_records merge_loop round settle choose first_ready lowest lower forward_at
    forward refill_at all_empty num_empty_bufs num_empty_runs take_in emit merge_result sum_measures
    add_checks add_measures key_comp ◌+ℤ◌
merged = refl

-- A pool is laid out, and two insertions stay within it.
laid : RbTree
laid = initialize_tree 24 tree 1 1

laid-Pool : Pool laid
unfolding laid initialize_tree
laid-Pool = initialize_tree-Pool 24 tree 1 1 (omega arith) (omega arith) (omega arith)

laid_open : laid.memory_is_full ≡ false
unfolding laid initialize_tree
laid_open = refl

Pool-example : Pool (tree_insert laid (record { measures = 1 ∷ []; dims = 5 ∷ [] }))
Pool-example =
    tree_insert-Pool laid (record { measures = 1 ∷ []; dims = 5 ∷ [] }) laid-Pool laid_open

-- Two runs on the file, of one row and of two, and a memory that holds a record of each.
abbrev file : List Row
file =
    record { measures = 3 ∷ []; dims = 5 ∷ [] }
    ∷ record { measures = 8 ∷ []; dims = 4 ∷ [] }
    ∷ record { measures = 4 ∷ []; dims = 5 ∷ [] }
    ∷ []

abbrev loaded : Merge
loaded = record buffers {
  chunks =
      record (chunk 0) { cur_chunk_num = 1 }
      ∷ record (chunk 1) { cur_chunk_num = 2; chunk_offset = pos 1 }
      ∷ [];
}

loaded-AllChunks : AllChunks (Run 1 1 file) loaded.chunks
unfolding key_value
loaded-AllChunks = (
  record {
    place = refl;
    within = omega arith;
    nonempty = omega arith;
    sorted = ground arith;
    are_rows = ground arith;
  },
  (
    record {
      place = refl;
      within = omega arith;
      nonempty = omega arith;
      sorted = ground arith;
      are_rows = ground arith;
    },
    tt,
  ),
)

multi_way_merge_example :
    multi_way_merge 3 24 12 1 1 file loaded
    ≡ merge_result
        (record loaded.out { n_view_rows = 0 })
        (ended (
          emit_all
            (aggregate 1 1 (runs file loaded.chunks))
            (record loaded.out { n_view_rows = 0 })))
multi_way_merge_example =
    multi_way_merge_lem 3 24 12 1 1 file loaded loaded-AllChunks (omega arith) (omega arith)
      (omega arith) (omega arith)
