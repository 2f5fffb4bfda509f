-- ===== src/Dc/Inorder.antt =====
-- The rows of the tree in order: `TreeInsert` inserts into a sorted list of rows, where a row with a
-- key that is there is added to the row that holds it.
use Prim.Native.Nat.Ordering.{lt, eq, gt}
use baseliner_docker.Base.{
  ℕ, List, [], ◌∷◌, ◌++◌, ◌≡◌, refl, sym, append_assoc, append-nil, if_rule,
}
use baseliner_docker.Dc.Row.{Row, key_comp, add_measures}
use baseliner_docker.Dc.Tree.{
  black, red, Tree, leaf, node, Direction, left, right, Frame, frame, plug, zip, is_red, blacken,
  rotate, rebalance,
}

abbrev pub rows : Tree → List Row
rows leaf = []
rows (node c l x r) = rows l ++ x ∷ rows r

-- The specification: insertion into a sorted list.
module _ (nd nm : ℕ) where
  unfoldable pub merge_row : Row → List Row → List Row
  merge_row r [] = r ∷ []
  merge_row r (x ∷ xs) =
      let rest = merge_row r xs in
      elim (key_comp r.dims x.dims nd) [
        | lt ↦ r ∷ x ∷ xs
        | eq ↦ record x { measures = add_measures nm x.measures r.measures } ∷ xs
        | gt ↦ x ∷ rest
      ]

-- The rows to the left and to the right of the hole of a path.
abbrev pub before : List Frame → List Row
before [] = []
before (frame c x left t ∷ fs) = before fs
before (frame c x right t ∷ fs) = before fs ++ (rows t ++ (x ∷ []))

abbrev pub after : List Frame → List Row
after [] = []
after (frame c x left t ∷ fs) = x ∷ (rows t ++ after fs)
after (frame c x right t ∷ fs) = after fs

pub rows-zip : (fs : List Frame) (t : Tree) → rows (zip fs t) ≡ before fs ++ (rows t ++ after fs)
unfolding zip
rows-zip [] t = sym (append-nil (rows t))
rows-zip (frame c x left u ∷ fs) t = simp (rows-zip fs, append_assoc)
rows-zip (frame c x right u ∷ fs) t = simp (rows-zip fs, append_assoc)

pub rows-blacken : (t : Tree) → rows (blacken t) ≡ rows t
rows-blacken leaf = refl
rows-blacken (node c l x r) = refl

rows-rotate :
    (gd pd : Direction) (l : Tree) (x : Row) (r : Tree) (px : Row) (po : Tree) (gx : Row) (u : Tree)
    → rows (rotate gd pd l x r px po gx u)
      ≡ rows (plug (frame black gx gd u) (plug (frame red px pd po) (node red l x r)))
rows-rotate left left l x r px po gx u = simp append_assoc
rows-rotate left right l x r px po gx u = simp append_assoc
rows-rotate right right l x r px po gx u = simp append_assoc
rows-rotate right left l x r px po gx u = simp append_assoc

-- Neither the colours nor the rotations change the order of the rows.
pub rows-rebalance :
    (fs : List Frame) (l : Tree) (x : Row) (r : Tree)
    → rows (rebalance fs l x r) ≡ before fs ++ (rows (node red l x r) ++ after fs)
unfolding rebalance
rows-rebalance [] l x r = sym (append-nil _)
rows-rebalance (p ∷ []) l x r = unfold zip in (rows-zip (p ∷ []) (node red l x r))
rows-rebalance (frame black px pd po ∷ g ∷ fs) l x r =
    rows-zip (frame black px pd po ∷ g ∷ fs) (node red l x r)
rows-rebalance (frame red px left po ∷ frame gc gx left u ∷ fs) l x r =
    if_rule
      (λ t.
        rows t
        ≡ before (frame red px left po ∷ frame gc gx left u ∷ fs)
          ++ (rows (node red l x r) ++ after (frame red px left po ∷ frame gc gx left u ∷ fs)))
      (is_red u)
      (simp (
        rows-rebalance fs (blacken (node red (node red l x r) px po)) gx (blacken u),
        rows-blacken,
        append_assoc,
      ))
      (simp (rows-zip fs, rows-rotate, append_assoc))
rows-rebalance (frame red px right po ∷ frame gc gx left u ∷ fs) l x r =
    if_rule
      (λ t.
        rows t
        ≡ before (frame red px right po ∷ frame gc gx left u ∷ fs)
          ++ (rows (node red l x r) ++ after (frame red px right po ∷ frame gc gx left u ∷ fs)))
      (is_red u)
      (simp (
        rows-rebalance fs (blacken (node red po px (node red l x r))) gx (blacken u),
        rows-blacken,
        append_assoc,
      ))
      (simp (rows-zip fs, rows-rotate, append_assoc))
rows-rebalance (frame red px left po ∷ frame gc gx right u ∷ fs) l x r =
    if_rule
      (λ t.
        rows t
        ≡ before (frame red px left po ∷ frame gc gx right u ∷ fs)
          ++ (rows (node red l x r) ++ after (frame red px left po ∷ frame gc gx right u ∷ fs)))
      (is_red u)
      (simp (
        rows-rebalance fs (blacken u) gx (blacken (node red (node red l x r) px po)),
        rows-blacken,
        append_assoc,
      ))
      (simp (rows-zip fs, rows-rotate, append_assoc))
rows-rebalance (frame red px right po ∷ frame gc gx right u ∷ fs) l x r =
    if_rule
      (λ t.
        rows t
        ≡ before (frame red px right po ∷ frame gc gx right u ∷ fs)
          ++ (rows (node red l x r) ++ after (frame red px right po ∷ frame gc gx right u ∷ fs)))
      (is_red u)
      (simp (
        rows-rebalance fs (blacken u) gx (blacken (node red po px (node red l x r))),
        rows-blacken,
        append_assoc,
      ))
      (simp (rows-zip fs, rows-rotate, append_assoc))
