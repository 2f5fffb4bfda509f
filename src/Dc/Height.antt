-- ===== src/Dc/Height.antt =====
-- `TreeInsert` keeps the tree balanced, and its path fits the arrays of MAX_TREE_HEIGHT entries.
use Prim.Native.Nat.{max}
use baseliner_docker.Base.{
  ℕ, zero, suc, ◌+◌, ◌*◌, ◌^◌, ◌<◌, ◌≤◌, List, [], ◌∷◌, ◌≡◌, refl, arith, inl, inr, length, dec_lt,
}
use baseliner_docker.Dc.Row.{Row, key_comp, add_measures}
use baseliner_docker.Dc.Tree.{
  Color, black, red, Tree, leaf, node, left, right, Frame, frame, Spot, fresh, present, descend,
  RbTree, place, tree_insert,
}
use baseliner_docker.Dc.Insert.{Ordering-cases}
use baseliner_docker.Dc.Balance.{
  IsBlack, Balanced, BlackTop, Around, SomeHeight, Fits, zip-Balanced, rebalance-Balanced,
}

-- Where the way down ends, the path wants what stands there.
abbrev Lands : Spot → Type 0
Lands (fresh path) = Around 0 path
Lands (present path c l x s) =
    (h : ℕ) × Around h path × Balanced h (node c l x s) × Fits path (node c l x s)

descend-Lands :
    (nd : ℕ) (r : Row) (t : Tree) (path : List Frame) (h : ℕ)
    → Around h path
    → Balanced h t
    → Fits path t
    → Lands (descend nd r t path)
unfolding descend
descend-Lands nd r leaf path zero a b f = a
descend-Lands nd r leaf path (suc h) a b f = absurd (omega arith)
descend-Lands nd r (node red l x t) path h a b f =
    elim (Ordering-cases (key_comp r.dims x.dims nd)) [
      | inl e ↦
          rw (descend, e)
            (descend-Lands nd r l (frame red x left t ∷ path) h (b.1, b.3, top path f, a) b.0 b.2)
      | inr (inl e) ↦ rw (descend, e) (h, a, b, f)
      | inr (inr e) ↦
          rw (descend, e)
            (descend-Lands nd r t (frame red x right l ∷ path) h (b.0, b.2, top path f, a) b.1 b.3)
    ]
  where
    top : (fs : List Frame) → Fits fs (node red l x t) → BlackTop fs
    top [] g = tt
    top (frame black y d o ∷ fs) g = tt
    top (frame red y d o ∷ fs) g = elim g [ ]
descend-Lands nd r (node black l x t) path zero a b f = elim b [ ]
descend-Lands nd r (node black l x t) path (suc h) a b f =
    elim (Ordering-cases (key_comp r.dims x.dims nd)) [
      | inl e ↦
          rw (descend, e) (descend-Lands nd r l (frame black x left t ∷ path) h (b.1, a) b.0 tt)
      | inr (inl e) ↦ rw (descend, e) (suc h, a, b, f)
      | inr (inr e) ↦
          rw (descend, e) (descend-Lands nd r t (frame black x right l ∷ path) h (b.0, a) b.1 tt)
    ]

-- A row in another's place changes neither.
same_shape :
    (h : ℕ) (c : Color) (l : Tree) (x y : Row) (s : Tree)
    → Balanced h (node c l x s)
    → Balanced h (node c l y s)
same_shape h red l x y s b = b
same_shape (suc h) black l x y s b = b
same_shape zero black l x y s b = b

same_fit :
    (fs : List Frame) (c : Color) (l : Tree) (x y : Row) (s : Tree)
    → Fits fs (node c l x s)
    → Fits fs (node c l y s)
same_fit [] c l x y s f = f
same_fit (frame black z d o ∷ fs) c l x y s f = f
same_fit (frame red z d o ∷ fs) black l x y s f = f
same_fit (frame red z d o ∷ fs) red l x y s f = f

place-Balanced : (t : RbTree) (r : Row) (sp : Spot) → Lands sp → SomeHeight (place t r sp).root
unfolding place
place-Balanced t r (fresh []) a = (1, (refl, refl))
place-Balanced t r (fresh (f ∷ path)) a =
    rebalance-Balanced (f ∷ path) 0 leaf r leaf a
      (record { left_fits = refl; right_fits = refl; left_black = tt; right_black = tt })
place-Balanced t r (present path c l x s) (h, a, b, f) =
    zip-Balanced path h
      (node c l (record x { measures = add_measures t.nm x.measures r.measures }) s) a
      (same_shape h c l x _ s b) (same_fit path c l x _ s f)

-- `TreeInsert` keeps the red-black invariant: no red node has a red child, and every way down passes
-- the same number of black nodes.
pub tree_insert-Balanced :
    (t : RbTree) (r : Row) → SomeHeight t.root → SomeHeight (tree_insert t r).root
unfolding tree_insert
tree_insert-Balanced t r (h, b) =
    place-Balanced t r (descend t.nd r t.root []) (descend-Lands t.nd r t.root [] h tt b tt)

abbrev pub size : Tree → ℕ
size leaf = 0
size (node c l x r) = suc (size l + size r)

abbrev pub height : Tree → ℕ
height leaf = 0
height (node c l x r) = suc (max (height l) (height r))

abbrev pow2 : ℕ → ℕ
pow2 zero = 1
pow2 (suc n) = 2 * pow2 n

pow2_mono : (k h : ℕ) → k ≤ h → pow2 k ≤ pow2 h
pow2_mono zero zero p = omega arith
pow2_mono zero (suc h) p = omega (arith, pow2_mono zero h (omega arith))
pow2_mono (suc k) zero p = absurd (omega arith)
pow2_mono (suc k) (suc h) p = omega (arith, pow2_mono k h (omega arith))

pow2-le-size : (t : Tree) (h : ℕ) → Balanced h t → pow2 h ≤ size t + 1
pow2-le-size leaf zero b = omega arith
pow2-le-size leaf (suc h) b = absurd (omega arith)
pow2-le-size (node red l x r) h b = omega (arith, pow2-le-size l h b.0)
pow2-le-size (node black l x r) zero b = elim b [ ]
pow2-le-size (node black l x r) (suc h) b =
    omega (arith, pow2-le-size l h b.0, pow2-le-size r h b.1)

-- One more for a red root.
abbrev red_root : Tree → ℕ
red_root leaf = 0
red_root (node black l x r) = 0
red_root (node red l x r) = 1

red_root_of_IsBlack : (t : Tree) → IsBlack t → red_root t ≡ 0
red_root_of_IsBlack leaf b = refl
red_root_of_IsBlack (node black l x r) b = refl
red_root_of_IsBlack (node red l x r) b = elim b [ ]

red_root_le : (t : Tree) → red_root t ≤ 1
red_root_le leaf = omega arith
red_root_le (node black l x r) = omega arith
red_root_le (node red l x r) = omega arith

height-le : (t : Tree) (h : ℕ) → Balanced h t → height t ≤ 2 * h + red_root t
height-le leaf h b = omega arith
height-le (node red l x r) h b = omega (
  arith,
  height-le l h b.0,
  height-le r h b.1,
  red_root_of_IsBlack l b.2,
  red_root_of_IsBlack r b.3,
)
height-le (node black l x r) zero b = elim b [ ]
height-le (node black l x r) (suc h) b =
    omega (arith, height-le l h b.0, height-le r h b.1, red_root_le l, red_root_le r)

-- The path to the spot, which `nodes` and `drcts` hold behind their first entry.
abbrev pub path_of : Spot → List Frame
path_of (fresh path) = path
path_of (present path c l x s) = path

path-le-height :
    (nd : ℕ) (r : Row) (t : Tree) (path : List Frame)
    → length (path_of (descend nd r t path)) ≤ length path + height t
unfolding descend
path-le-height nd r leaf path = omega arith
path-le-height nd r (node c l x t) path = elim (Ordering-cases (key_comp r.dims x.dims nd)) [
  | inl e ↦ rw (descend, e) (omega (arith, path-le-height nd r l (frame c x left t ∷ path)))
  | inr (inl e) ↦ rw (descend, e) (omega arith)
  | inr (inr e) ↦ rw (descend, e) (omega (arith, path-le-height nd r t (frame c x right l ∷ path)))
]

abbrev pub max_tree_height : ℕ
max_tree_height = 64

-- In a balanced tree of fewer than 2^32 - 1 nodes the way down of `TreeInsert`, with the entry for
-- the header, takes at most MAX_TREE_HEIGHT entries of `nodes` and `drcts`.
pub path_fits :
    (t : RbTree) (r : Row)
    → SomeHeight t.root
    → size t.root + 1 < 2 ^ 32
    → 1 + length (path_of (descend t.nd r t.root [])) ≤ max_tree_height
path_fits t r (h, b) few = elim (dec_lt h 32) [
  | yes p ↦ omega (arith, path-le-height t.nd r t.root [], height-le t.root h b, red_root_le t.root)
  | no p ↦ absurd (omega (arith, pow2_mono 32 h (omega arith), pow2-le-size t.root h b))
]
