-- ===== src/Dc/Tests.antt =====
-- The tree of the DC benchmark at concrete inputs: keys of two words, one measure.
use baseliner_docker.Base.{ℕ, ◌+◌, ◌<◌, ◌≤◌, ◌^◌, [], ◌∷◌, ◌≡◌, refl, arith, length, false}
use baseliner_docker.Dc.Row.{Row, IsKey, key_comp, key_value}
use baseliner_docker.Dc.Tree.{
  RbTree, Tree, leaf, node, black, red, tree_insert, descend, place, rebalance,
}
use baseliner_docker.Dc.Inorder.{rows, merge_row}
use baseliner_docker.Dc.Insert.{IsSorted, rows-tree_insert}
use baseliner_docker.Dc.Balance.{SomeHeight}
use baseliner_docker.Dc.Height.{tree_insert-Balanced, path_fits, path_of, max_tree_height, size}
use baseliner_docker.Dc.Disk.{View}

abbrev row : ℕ → ℕ → ℕ → Row
row m a b = record { measures = m ∷ []; dims = a ∷ b ∷ [] }

abbrev three : Tree
three = node black (node red leaf (row 1 0 5) leaf) (row 2 1 0) (node red leaf (row 3 1 7) leaf)

abbrev tree : RbTree
tree = record {
  root = three;
  count = 3;
  tree_node_size = 40;
  node_data_size = 16;
  memory_limit = 400;
  memaddr = 120;
  memory_is_full = false;
  free_node_counter = 7;
  n_nodes_limit = 10;
  nd = 2;
  nm = 1;
}

new-IsKey : IsKey 2 (1 ∷ 9 ∷ [])
new-IsKey = (omega arith, (omega arith, tt))

old-IsKey : IsKey 2 (1 ∷ 7 ∷ [])
old-IsKey = (omega arith, (omega arith, tt))

three-IsSorted : IsSorted 2 (rows three)
unfolding key_value
three-IsSorted = ground arith

rows_example : rows (tree_insert tree (row 4 1 9)).root ≡ merge_row 2 1 (row 4 1 9) (rows three)
rows_example = rows-tree_insert tree (row 4 1 9) new-IsKey three-IsSorted

-- The uncle is red: both are painted, and the root stays black.
painted :
    (tree_insert tree (row 4 1 9)).root
    ≡ node black
        (node black leaf (row 1 0 5) leaf)
        (row 2 1 0)
        (node black leaf (row 3 1 7) (node red leaf (row 4 1 9) leaf))
unfolding tree_insert place descend key_comp rebalance
painted = refl

three-SomeHeight : SomeHeight three
three-SomeHeight = (1, ground arith)

balanced_example : SomeHeight (tree_insert tree (row 4 1 9)).root
balanced_example = tree_insert-Balanced tree (row 4 1 9) three-SomeHeight

three_is_small : size three + 1 < 2 ^ 32
three_is_small = omega arith

path_example : 1 + length (path_of (descend 2 (row 4 1 9) three [])) ≤ max_tree_height
path_example = path_fits tree (row 4 1 9) three-SomeHeight three_is_small

-- There is room for two rows.
abbrev view : View
view = record {
  nm = 1;
  m_sums = 0 ∷ [];
  checksums = 0 ∷ [];
  ordern = 0;
  disk = record { written = []; room = 2 };
}
