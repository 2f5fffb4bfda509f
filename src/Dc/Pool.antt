-- ===== src/Dc/Pool.antt =====
-- rbt.c: the pool of nodes that `InitializeTree` lays out in `memPool` and NEW_TREE_NODE takes from.
use baseliner_docker.Base.{
  ℕ, ◌+◌, ◌*◌, ◌/◌, ◌%◌, ◌^◌, ◌<◌, ◌≤◌, List, [], ◌∷◌, ◌++◌, false, ◌==◌, ◌≡◌, refl, sym, ap, ◌∙◌,
  arith, length, length-append, inl, inr,
}
use baseliner_docker.Dc.Row.{Row, key_comp}
use baseliner_docker.Dc.Tree.{
  Color, Tree, leaf, node, left, right, Frame, frame, zip, blacken, rebalance, Spot, fresh, present,
  descend, RbTree, new_tree_node, place, tree_insert, initialize_tree, u32,
}
use baseliner_docker.Dc.Inorder.{rows, before, after, rows-zip, rows-rebalance, rows-blacken}
use baseliner_docker.Dc.Insert.{Ordering-cases}

-- The nodes taken and the nodes left are those of the pool, which lies within the memory; memaddr is
-- where the next node goes; the tree holds the nodes taken.
pub record Pool (t : RbTree) : Type 0 where
  pub nodes : length (rows t.root) ≡ t.count
  pub taken : t.count + t.free_node_counter ≡ t.n_nodes_limit
  pub here : t.memaddr ≡ t.count * t.tree_node_size
  pub within : t.n_nodes_limit * t.tree_node_size ≤ t.memory_limit
  pub words : t.memory_limit < 2 ^ 32
  pub sized : 0 < t.tree_node_size
  pub fullness : t.memory_is_full ≡ (t.free_node_counter == 0)

abbrev Counts : ℕ → Spot → Type 0
Counts n (fresh path) = length (rows (zip path leaf)) ≡ n
Counts n (present path c l x s) = length (rows (zip path (node c l x s))) ≡ n

descend-Counts :
    (nd n : ℕ) (r : Row) (t : Tree) (path : List Frame)
    → length (rows (zip path t)) ≡ n
    → Counts n (descend nd r t path)
unfolding descend zip
descend-Counts nd n r leaf path h = h
descend-Counts nd n r (node c l x t) path h = elim (Ordering-cases (key_comp r.dims x.dims nd)) [
  | inl e ↦ rw (descend, e) (descend-Counts nd n r l (frame c x left t ∷ path) h)
  | inr (inl e) ↦ rw (descend, e) h
  | inr (inr e) ↦ rw (descend, e) (descend-Counts nd n r t (frame c x right l ∷ path) h)
]

length-rows-zip :
    (f : List Frame) (c : Color) (l : Tree) (x : Row) (r : Tree)
    → length (rows (zip f (node c l x r)))
      ≡ length (before f) + length (rows l) + 1 + length (rows r) + length (after f)
length-rows-zip f c l x r =
    ap length (rows-zip f (node c l x r))
    ∙ omega (
      arith,
      length-append (before f) ((rows l ++ x ∷ rows r) ++ after f),
      length-append (rows l ++ x ∷ rows r) (after f),
      length-append (rows l) (x ∷ rows r),
    )

-- A node is put below the path: the tree has one row more.
rows_below :
    (n : ℕ) (f : Frame) (path : List Frame) (r : Row)
    → length (rows (zip (f ∷ path) leaf)) ≡ n
    → length (rows (blacken (rebalance (f ∷ path) leaf r leaf))) ≡ n + 1
rows_below n f path r h =
    ap length
      (rows-blacken (rebalance (f ∷ path) leaf r leaf) ∙ rows-rebalance (f ∷ path) leaf r leaf)
    ∙ omega (
      arith,
      h,
      ap length (rows-zip (f ∷ path) leaf),
      length-append (before (f ∷ path)) (r ∷ after (f ∷ path)),
      length-append (before (f ∷ path)) (after (f ∷ path)),
    )

-- The same rows but for the measures of one.
rows_at :
    (n : ℕ) (path : List Frame) (c : Color) (l s : Tree) (x y : Row)
    → length (rows (zip path (node c l x s))) ≡ n
    → length (rows (zip path (node c l y s))) ≡ n
rows_at n path c l s x y h = length-rows-zip path c l y s ∙ sym (length-rows-zip path c l x s) ∙ h

slots : (k n size : ℕ) → k < n → k * size + size ≤ n * size
slots k n size h = grind arith

suc-times : (k size : ℕ) → (k + 1) * size ≡ k * size + size
suc-times k size = grind arith

new_tree_node-Pool :
    (t : RbTree) (root : Tree)
    → Pool t
    → t.memory_is_full ≡ false
    → length (rows root) ≡ t.count + 1
    → Pool (record (new_tree_node t) { root = root })
unfolding new_tree_node
new_tree_node-Pool t root p f h =
    let room : 0 < t.free_node_counter = ground arith in
    let fits = slots t.count t.n_nodes_limit t.tree_node_size (omega arith) in
    let small : t.n_nodes_limit ≤ t.n_nodes_limit * t.tree_node_size = grind arith in
    let e : (t.count + 1) % u32 ≡ t.count + 1 = omega arith in
    record {
      nodes = h ∙ omega arith;
      taken = omega arith;
      here = omega (arith, suc-times t.count t.tree_node_size, ap (λ k. k * t.tree_node_size) e);
      within = p.within;
      words = p.words;
      sized = p.sized;
      fullness = ground arith;
    }

place-Pool :
    (t : RbTree) (r : Row) (sp : Spot)
    → Pool t
    → t.memory_is_full ≡ false
    → Counts t.count sp
    → Pool (place t r sp)
unfolding place
place-Pool t r (fresh []) p f h = new_tree_node-Pool t _ p f (unfold zip in (omega (arith, h)))
place-Pool t r (fresh (g ∷ path)) p f h = new_tree_node-Pool t _ p f (rows_below t.count g path r h)
place-Pool t r (present path c l x s) p f h = record {
  nodes = rows_at t.count path c l s x _ h;
  taken = p.taken;
  here = p.here;
  within = p.within;
  words = p.words;
  sized = p.sized;
  fullness = p.fullness;
}

-- While the pool is not full, `TreeInsert` keeps the pool in order: `count` is the number of nodes of
-- the tree and, with `freeNodeCounter`, that of the nodes of the pool, which lies within the memory;
-- `memaddr` is behind the nodes taken; and `memoryIsFull` says whether none is left.
pub tree_insert-Pool :
    (t : RbTree) (r : Row) → Pool t → t.memory_is_full ≡ false → Pool (tree_insert t r)
unfolding tree_insert
tree_insert-Pool t r p f =
    place-Pool t r _ p f (descend-Counts t.nd t.count r t.root [] (unfold zip in p.nodes))

quotient_fits : (a b : ℕ) → a / b * b ≤ a
quotient_fits a b = grind arith

-- `InitializeTree` lays out a pool in order, if a node fits into the memory.
pub initialize_tree-Pool :
    (header : ℕ) (t : RbTree) (nd nm : ℕ)
    → t.memory_limit < 2 ^ 32
    → 0 < (initialize_tree header t nd nm).tree_node_size
    → 0 < (initialize_tree header t nd nm).n_nodes_limit
    → Pool (initialize_tree header t nd nm)
unfolding initialize_tree
initialize_tree-Pool header t nd nm w s l = record {
  nodes = refl;
  taken = omega arith;
  here = omega arith;
  within = quotient_fits _ _;
  words = w;
  sized = s;
  fullness = ground arith;
}
