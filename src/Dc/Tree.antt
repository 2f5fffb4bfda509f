-- ===== src/Dc/Tree.antt =====
-- rbt.c: the tree and `TreeInsert`. The array `nodes` of pointers to the nodes on the way down, with
-- the directions `drcts`, is a path: for each node passed, what it holds besides the child that was
-- entered. A pointer to a node is modelled by the node, and NULL by `leaf`.
use Prim.Native.Nat.Ordering.{lt, eq, gt}
use baseliner_docker.Base.{
  ℕ, ◌+◌, ◌-◌, ◌*◌, ◌/◌, ◌%◌, ◌^◌, List, [], ◌∷◌, Bool, true, false, ◌==◌, if◌then◌else◌,
}
use baseliner_docker.Dc.Row.{Row, key_comp, add_measures}

pub data Color : Type 0 where
  black red : Color

pub data Tree : Type 0 where
  leaf : Tree
  node : Color → Tree → Row → Tree → Tree

-- drcts: 0 and 1
pub data Direction : Type 0 where
  left right : Direction

-- An entry of `nodes` and `drcts`: the child that was entered is missing.
pub data Frame : Type 0 where
  frame : Color → Row → Direction → Tree → Frame

-- The subtree with `t` put back below a node of the path.
abbrev pub plug : Frame → Tree → Tree
plug (frame c x left other) t = node c t x other
plug (frame c x right other) t = node c other x t

-- The whole tree.
unfoldable pub zip : List Frame → Tree → Tree
zip [] t = t
zip (f ∷ fs) t = zip fs (plug f t)

-- Where the first loop of `TreeInsert` ends: at a null child, or at a node with the key.
pub data Spot : Type 0 where
  fresh : List Frame → Spot
  present : List Frame → Color → Tree → Row → Tree → Spot

unfoldable pub descend : ℕ → Row → Tree → List Frame → Spot
descend nd r leaf path = fresh path
descend nd r (node c l x t) path = elim (key_comp r.dims x.dims nd) [
  | lt ↦ descend nd r l (frame c x left t ∷ path)
  | gt ↦ descend nd r t (frame c x right l ∷ path)
  | eq ↦ present path c l x t
]

-- `yNd != NULL && yNd->clr == RED`
abbrev pub is_red : Tree → Bool
is_red leaf = false
is_red (node red l x r) = true
is_red (node black l x r) = false

abbrev pub blacken : Tree → Tree
blacken leaf = leaf
blacken (node c l x r) = node black l x r

-- The rotations below the grandparent: the parent `px`, red, with sibling subtree `po`, and the
-- grandparent `gx` with the uncle `u`; the node itself is (l, x, r).
abbrev pub rotate : Direction → Direction → Tree → Row → Tree → Row → Tree → Row → Tree → Tree
rotate left left l x r px po gx u = node black (node red l x r) px (node red po gx u)
rotate left right l x r px po gx u = node black (node red po px l) x (node red r gx u)
rotate right right l x r px po gx u = node black (node red u gx po) px (node red l x r)
rotate right left l x r px po gx u = node black (node red u gx l) x (node red r px po)

-- The second loop of `TreeInsert`, from the node (c, l, x, r) at the end of the path up. The node is
-- red: it is the new one, or a grandparent that has just been painted.
unfoldable pub rebalance : List Frame → Tree → Row → Tree → Tree
rebalance [] l x r = node red l x r
rebalance (p ∷ []) l x r = plug p (node red l x r)
rebalance (frame black px pd po ∷ g ∷ path) l x r =
    zip (frame black px pd po ∷ g ∷ path) (node red l x r)
rebalance (frame red px pd po ∷ frame gc gx left u ∷ path) l x r =
    let up = rebalance path (blacken (plug (frame red px pd po) (node red l x r))) gx (blacken u) in
    if is_red u then up else zip path (rotate left pd l x r px po gx u)
rebalance (frame red px pd po ∷ frame gc gx right u ∷ path) l x r =
    let up = rebalance path (blacken u) gx (blacken (plug (frame red px pd po) (node red l x r))) in
    if is_red u then up else zip path (rotate right pd l x r px po gx u)

-- The struct RBTree, but for the memory that it points to; `root` is `root.left`.
pub record RbTree : Type 0 where
  pub root : Tree
  pub count : ℕ
  pub tree_node_size : ℕ
  pub node_data_size : ℕ
  pub memory_limit : ℕ
  pub memaddr : ℕ
  pub memory_is_full : Bool
  pub free_node_counter : ℕ
  pub n_nodes_limit : ℕ
  pub nd : ℕ
  pub nm : ℕ

abbrev pub u32 : ℕ
u32 = 2 ^ 32

-- `tree->count++` and NEW_TREE_NODE
unfoldable pub new_tree_node : RbTree → RbTree
new_tree_node t =
    let free = (t.free_node_counter + u32 - 1) % u32 in
    record t {
      count = (t.count + 1) % u32;
      memaddr = (t.memaddr + t.tree_node_size) % u32;
      free_node_counter = free;
      memory_is_full = if free == 0 then true else t.memory_is_full;
    }

unfoldable pub place : RbTree → Row → Spot → RbTree
place t r (fresh []) = record (new_tree_node t) { root = node black leaf r leaf }
place t r (fresh (f ∷ path)) = record (new_tree_node t) {
  root = blacken (rebalance (f ∷ path) leaf r leaf);
}
place t r (present path c l x s) = record t {
  root = zip path (node c l (record x { measures = add_measures t.nm x.measures r.measures }) s);
}

-- `TreeInsert`; it always returns 0.
unfoldable pub tree_insert : RbTree → Row → RbTree
tree_insert t r = place t r (descend t.nd r t.root [])

-- `InitializeTree`; the sizes are computed in 32 bits. `header` is sizeof(struct treeNode).
unfoldable pub initialize_tree : ℕ → RbTree → ℕ → ℕ → RbTree
initialize_tree header t nd nm =
    let size = (header + 4 * ((nd + u32 - 1) % u32) + 8 * nm) % u32 in
    let size' = if size % 8 == 0 then size else (size + 4) % u32 in
    record t {
      root = leaf;
      count = 0;
      memaddr = 0;
      tree_node_size = size';
      memory_is_full = false;
      node_data_size = (4 * nd + 8 * nm) % u32;
      n_nodes_limit = t.memory_limit / size';
      free_node_counter = t.memory_limit / size';
      nd = nd;
      nm = nm;
    }
