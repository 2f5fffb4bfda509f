-- ===== src/Dc/Runs.antt =====
-- extbuild.c: `RunFormation` leaves sorted runs that hold the same view as the rows read.
use mathlib.Core.Path.{subst}
use baseliner_docker.Base.{
  ℕ, zero, suc, ◌+◌, ◌-◌, ◌<◌, ◌≤◌, List, [], ◌∷◌, ◌++◌, true, false, ◌==◌, ◌≡◌, refl, sym, ap, ap₂,
  ◌∙◌, arith, inl, inr, Bool-cases, length, length-append, take, drop, pos, pos_part, append_assoc,
  append-nil, take_of_length_le,
}
use baseliner_docker.Dc.Row.{Row, key_comp}
use baseliner_docker.Dc.Tree.{
  RbTree, Spot, fresh, present, new_tree_node, place, tree_insert, descend,
}
use baseliner_docker.Dc.Inorder.{merge_row}
use baseliner_docker.Dc.Insert.{IsSorted, Ordering-cases}
use baseliner_docker.Dc.Disk.{View, visit_chunk, visit_all}
use baseliner_docker.Dc.Written.{some_room, no_room}
use baseliner_docker.Dc.Aggregate.{AllRows}
use baseliner_docker.Dc.Chunks.{Chunk}
use baseliner_docker.Dc.Reading.{rest}
use baseliner_docker.Dc.Choosing.{AllChunks}
use baseliner_docker.Dc.Merging.{Run, runs}

-- A run is written whole if there is room, and otherwise the write fails.
pub chunk_written :
    (xs : List Row) (v : View)
    → length xs ≤ v.disk.room
    → visit_all visit_chunk xs v ≡ (
      true,
      record v { disk = record { written = v.disk.written ++ xs; room = v.disk.room - length xs } },
    )
unfolding visit_chunk
chunk_written [] v h =
    ap₂ (λ (w : List Row) (r : ℕ). (true, record v { disk = record { written = w; room = r } }))
      (sym (append-nil v.disk.written)) (omega arith)
chunk_written (x ∷ xs) v h = rw (some_room x v (v.disk.room - 1) (omega arith)) (
    chunk_written xs _ (omega arith)
    ∙ ap₂ (λ (w : List Row) (r : ℕ). (true, record v { disk = record { written = w; room = r } }))
        (append_assoc v.disk.written (x ∷ []) xs) (omega arith))

pub chunk_failed :
    (xs : List Row) (v : View) → v.disk.room < length xs → (visit_all visit_chunk xs v).0 ≡ false
unfolding visit_chunk
chunk_failed [] v h = absurd (omega arith)
chunk_failed (x ∷ xs) v h = elim (Bool-cases (v.disk.room == 0)) [
  | inl e ↦ rw (no_room x v (ground arith)) refl
  | inr e ↦ rw (some_room x v (v.disk.room - 1) (ground arith)) (chunk_failed xs _ (ground arith))
]

-- `TreeInsert` changes neither the sizes nor the limits.
pub record Fixed (t u : RbTree) : Type 0 where
  pub limit : u.memory_limit ≡ t.memory_limit
  pub size : u.tree_node_size ≡ t.tree_node_size
  pub nodes : u.n_nodes_limit ≡ t.n_nodes_limit
  pub dims : u.nd ≡ t.nd
  pub measures : u.nm ≡ t.nm

pub tree_insert-Fixed : (t : RbTree) (r : Row) → Fixed t (tree_insert t r)
unfolding tree_insert place new_tree_node
tree_insert-Fixed t r = placed (descend t.nd r t.root [])
  where
    placed : (s : Spot) → Fixed t (place t r s)
    placed (fresh []) = record {
      limit = refl;
      size = refl;
      nodes = refl;
      dims = refl;
      measures = refl;
    }
    placed (fresh (f ∷ path)) = record {
      limit = refl;
      size = refl;
      nodes = refl;
      dims = refl;
      measures = refl;
    }
    placed (present path c l x s) = record {
      limit = refl;
      size = refl;
      nodes = refl;
      dims = refl;
      measures = refl;
    }

pub length-merge_row :
    (nd nm : ℕ) (r : Row) (l : List Row)
    → (0 < length (merge_row nd nm r l)) × (length (merge_row nd nm r l) ≤ suc (length l))
unfolding merge_row
length-merge_row nd nm r [] = omega arith
length-merge_row nd nm r (x ∷ xs) = elim (Ordering-cases (key_comp r.dims x.dims nd)) [
  | inl e ↦ rw (merge_row, e) (omega arith)
  | inr (inl e) ↦ rw (merge_row, e) (omega arith)
  | inr (inr e) ↦ rw (merge_row, e) (omega (arith, (length-merge_row nd nm r xs).1))
]

take-drop-append :
    (n o : ℕ) (file more : List Row)
    → o + n ≤ length file
    → take n (drop o (file ++ more)) ≡ take n (drop o file)
take-drop-append zero zero file more h = refl
take-drop-append (suc n) zero [] more h = absurd (omega arith)
take-drop-append (suc n) zero (x ∷ file) more h =
    ap (λ l. x ∷ l) (take-drop-append n zero file more (omega arith))
take-drop-append n (suc o) [] more h = absurd (omega arith)
take-drop-append n (suc o) (x ∷ file) more h = take-drop-append n o file more (omega arith)

drop_here : (file more : List Row) → drop (length file) (file ++ more) ≡ more
drop_here [] more = refl
drop_here (x ∷ file) more = drop_here file more

module _ (nv nm : ℕ) (file more : List Row) where
  -- The runs that are on the file stay as they are when it grows.
  pub Run-grown :
      (c : Chunk)
      → Run nv nm file c
      → Run nv nm (file ++ more) c × (rest (file ++ more) c ≡ rest file c)
  Run-grown c r =
      let e = take-drop-append c.cur_chunk_num (pos_part c.chunk_offset) file more r.within in
      (
        record {
          place = r.place;
          within = omega (arith, r.within, length-append file more);
          nonempty = r.nonempty;
          sorted = subst (IsSorted nv) (sym e) r.sorted;
          are_rows = subst (AllRows nv nm) (sym e) r.are_rows;
        },
        e,
      )

  pub runs_grown :
      (cs : List Chunk) → AllChunks (Run nv nm file) cs → runs (file ++ more) cs ≡ runs file cs
  runs_grown [] r = refl
  runs_grown (c ∷ cs) r = ap₂ (λ x y. x ++ y) (Run-grown c r.0).1 (runs_grown cs r.1)

  -- A new run at the end of the file.
  module _ (c : Chunk) (at : c.chunk_offset ≡ pos (length file))
      (n : c.cur_chunk_num ≡ length more) where
    pub new_rest : rest (file ++ more) c ≡ more
    new_rest =
        ap₂ (λ k z. take k (drop (pos_part z) (file ++ more))) n at
        ∙ ap (take (length more)) (drop_here file more)
        ∙ take_of_length_le (length more) more (omega arith)

    pub new_Run :
        0 < length more → IsSorted nv more → AllRows nv nm more → Run nv nm (file ++ more) c
    new_Run h s r = record {
      place = at ∙ ap pos (sym (ap pos_part at));
      within = omega (arith, ap pos_part at, n, length-append file more);
      nonempty = omega (arith, n);
      sorted = subst (IsSorted nv) (sym new_rest) s;
      are_rows = subst (AllRows nv nm) (sym new_rest) r;
    }

pub runs-append :
    (file : List Row) (xs ys : List Chunk) → runs file (xs ++ ys) ≡ runs file xs ++ runs file ys
runs-append file [] ys = refl
runs-append file (x ∷ xs) ys =
    ap (λ l. rest file x ++ l) (runs-append file xs ys)
    ∙ sym (append_assoc (rest file x) (runs file xs) (runs file ys))
