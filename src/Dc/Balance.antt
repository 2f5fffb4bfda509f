-- ===== src/Dc/Balance.antt =====
-- The red-black invariant of rbt.c: no red node has a red child, and all ways down pass as many black
-- nodes. `TreeInsert` keeps it, and it bounds the path that `nodes` and `drcts` hold.
use baseliner_docker.Base.{ℕ, zero, suc, List, [], ◌∷◌, true, false, ◌≡◌, Bool-cases, inl, inr}
use baseliner_docker.Dc.Row.{Row}
use baseliner_docker.Dc.Tree.{
  black, red, Tree, leaf, node, Direction, left, right, Frame, frame, zip, is_red, blacken, rotate,
  rebalance,
}

abbrev pub IsBlack : Tree → Type 0
IsBlack leaf = Unit
IsBlack (node black l x r) = Unit
IsBlack (node red l x r) = ⊥

-- Balanced with h black nodes on each way down.
abbrev pub Balanced : ℕ → Tree → Type 0
Balanced h leaf = h ≡ 0
Balanced h (node red l x r) = Balanced h l × Balanced h r × IsBlack l × IsBlack r
Balanced zero (node black l x r) = ⊥
Balanced (suc h) (node black l x r) = Balanced h l × Balanced h r

-- The colour of the node that a path ends below is black.
abbrev pub BlackTop : List Frame → Type 0
BlackTop [] = Unit
BlackTop (frame black x d o ∷ fs) = Unit
BlackTop (frame red x d o ∷ fs) = ⊥

-- A path whose hole wants a tree with h black nodes on each way down.
abbrev pub Around : ℕ → List Frame → Type 0
Around h [] = Unit
Around h (frame red x d o ∷ fs) = Balanced h o × IsBlack o × BlackTop fs × Around h fs
Around h (frame black x d o ∷ fs) = Balanced h o × Around (suc h) fs

abbrev pub SomeHeight : Tree → Type 0
SomeHeight t = (h : ℕ) × Balanced h t

-- A tree that may stand at the hole: a red one only below a black node.
abbrev pub Fits : List Frame → Tree → Type 0
Fits [] t = Unit
Fits (frame black x d o ∷ fs) t = Unit
Fits (frame red x d o ∷ fs) t = IsBlack t

pub Fits-of_BlackTop : (fs : List Frame) (t : Tree) → BlackTop fs → Fits fs t
Fits-of_BlackTop [] t b = tt
Fits-of_BlackTop (frame black x d o ∷ fs) t b = tt
Fits-of_BlackTop (frame red x d o ∷ fs) t b = elim b [ ]

pub Fits-of_IsBlack : (fs : List Frame) (t : Tree) → IsBlack t → Fits fs t
Fits-of_IsBlack [] t b = tt
Fits-of_IsBlack (frame black x d o ∷ fs) t b = tt
Fits-of_IsBlack (frame red x d o ∷ fs) t b = b

pub zip-Balanced :
    (fs : List Frame) (h : ℕ) (t : Tree)
    → Around h fs
    → Balanced h t
    → Fits fs t
    → SomeHeight (zip fs t)
unfolding zip
zip-Balanced [] h t a b f = (h, b)
zip-Balanced (frame black x left o ∷ fs) h t a b f =
    zip-Balanced fs (suc h) (node black t x o) a.1 (b, a.0) (Fits-of_IsBlack fs _ tt)
zip-Balanced (frame black x right o ∷ fs) h t a b f =
    zip-Balanced fs (suc h) (node black o x t) a.1 (a.0, b) (Fits-of_IsBlack fs _ tt)
zip-Balanced (frame red x left o ∷ fs) h t a b f =
    zip-Balanced fs h (node red t x o) a.3 (b, a.0, f, a.1) (Fits-of_BlackTop fs _ a.2)
zip-Balanced (frame red x right o ∷ fs) h t a b f =
    zip-Balanced fs h (node red o x t) a.3 (a.0, b, a.1, f) (Fits-of_BlackTop fs _ a.2)

blacken-Balanced : (h : ℕ) (t : Tree) → Balanced h t → SomeHeight (blacken t)
blacken-Balanced h leaf b = (h, b)
blacken-Balanced h (node red l x r) b = (suc h, (b.0, b.1))
blacken-Balanced (suc h) (node black l x r) b = (suc h, b)
blacken-Balanced zero (node black l x r) b = elim b [ ]

blacken_red :
    (h : ℕ) (t : Tree)
    → is_red t ≡ true
    → Balanced h t
    → Balanced (suc h) (blacken t) × IsBlack (blacken t)
blacken_red h leaf e b = cc
blacken_red h (node black l x r) e b = cc
blacken_red h (node red l x r) e b = ((b.0, b.1), tt)

IsBlack-of_not_red : (t : Tree) → is_red t ≡ false → IsBlack t
IsBlack-of_not_red leaf e = tt
IsBlack-of_not_red (node black l x r) e = tt
IsBlack-of_not_red (node red l x r) e = cc

-- The subtrees of the red node at the end of the path.
pub record Kids (h : ℕ) (l r : Tree) : Type 0 where
  pub left_fits : Balanced h l
  pub right_fits : Balanced h r
  pub left_black : IsBlack l
  pub right_black : IsBlack r

rotate-Balanced :
    (gd pd : Direction) (h : ℕ) (l : Tree) (x : Row) (r : Tree) (px : Row) (po : Tree) (gx : Row)
    (u : Tree)
    → Kids h l r
    → Balanced h po × IsBlack po
    → Balanced h u × IsBlack u
    → Balanced (suc h) (rotate gd pd l x r px po gx u) × IsBlack (rotate gd pd l x r px po gx u)
rotate-Balanced left left h l x r px po gx u k p q =
    (((k.left_fits, k.right_fits, k.left_black, k.right_black), (p.0, q.0, p.1, q.1)), tt)
rotate-Balanced left right h l x r px po gx u k p q =
    (((p.0, k.left_fits, p.1, k.left_black), (k.right_fits, q.0, k.right_black, q.1)), tt)
rotate-Balanced right right h l x r px po gx u k p q =
    (((q.0, p.0, q.1, p.1), (k.left_fits, k.right_fits, k.left_black, k.right_black)), tt)
rotate-Balanced right left h l x r px po gx u k p q =
    (((q.0, k.left_fits, q.1, k.left_black), (k.right_fits, p.0, k.right_black, p.1)), tt)

rotated :
    (fs : List Frame) (h : ℕ) (t : Tree)
    → Around (suc h) fs
    → Balanced (suc h) t × IsBlack t
    → SomeHeight (blacken (zip fs t))
rotated fs h t a b =
    let z = zip-Balanced fs (suc h) t a b.0 (Fits-of_IsBlack fs t b.1) in blacken-Balanced z.0 _ z.1

pub rebalance-Balanced :
    (fs : List Frame) (h : ℕ) (l : Tree) (x : Row) (r : Tree)
    → Around h fs
    → Kids h l r
    → SomeHeight (blacken (rebalance fs l x r))
unfolding rebalance
rebalance-Balanced [] h l x r a k = (suc h, (k.left_fits, k.right_fits))
rebalance-Balanced (frame black px left po ∷ []) h l x r a k =
    (suc h, ((k.left_fits, k.right_fits, k.left_black, k.right_black), a.0))
rebalance-Balanced (frame black px right po ∷ []) h l x r a k =
    (suc h, (a.0, (k.left_fits, k.right_fits, k.left_black, k.right_black)))
rebalance-Balanced (frame red px left po ∷ []) h l x r a k =
    (suc h, ((k.left_fits, k.right_fits, k.left_black, k.right_black), a.0))
rebalance-Balanced (frame red px right po ∷ []) h l x r a k =
    (suc h, (a.0, (k.left_fits, k.right_fits, k.left_black, k.right_black)))
rebalance-Balanced (frame black px pd po ∷ g ∷ fs) h l x r a k =
    let z =
      zip-Balanced (frame black px pd po ∷ g ∷ fs) h (node red l x r) a
        (k.left_fits, k.right_fits, k.left_black, k.right_black) tt in
    blacken-Balanced z.0 _ z.1
rebalance-Balanced (frame red px pd po ∷ frame red gx gd u ∷ fs) h l x r a k = elim a.2 [ ]
rebalance-Balanced (frame red px left po ∷ frame black gx left u ∷ fs) h l x r a k =
    elim (Bool-cases (is_red u)) [
      | inl e ↦ rw e (
          let w = blacken_red h u e a.3.0 in
          rebalance-Balanced fs (suc h) (node black (node red l x r) px po) gx (blacken u) a.3.1
            (record {
              left_fits = ((k.left_fits, k.right_fits, k.left_black, k.right_black), a.0);
              right_fits = w.0;
              left_black = tt;
              right_black = w.1;
            }))
      | inr e ↦ rw e (
          rotated fs h (rotate left left l x r px po gx u) a.3.1 (
            rotate-Balanced left left h l x r px po gx u k (a.0, a.1)
              (a.3.0, IsBlack-of_not_red u e)))
    ]
rebalance-Balanced (frame red px right po ∷ frame black gx left u ∷ fs) h l x r a k =
    elim (Bool-cases (is_red u)) [
      | inl e ↦ rw e (
          let w = blacken_red h u e a.3.0 in
          rebalance-Balanced fs (suc h) (node black po px (node red l x r)) gx (blacken u) a.3.1
            (record {
              left_fits = (a.0, (k.left_fits, k.right_fits, k.left_black, k.right_black));
              right_fits = w.0;
              left_black = tt;
              right_black = w.1;
            }))
      | inr e ↦ rw e (
          rotated fs h (rotate left right l x r px po gx u) a.3.1 (
            rotate-Balanced left right h l x r px po gx u k (a.0, a.1)
              (a.3.0, IsBlack-of_not_red u e)))
    ]
rebalance-Balanced (frame red px left po ∷ frame black gx right u ∷ fs) h l x r a k =
    elim (Bool-cases (is_red u)) [
      | inl e ↦ rw e (
          let w = blacken_red h u e a.3.0 in
          rebalance-Balanced fs (suc h) (blacken u) gx (node black (node red l x r) px po) a.3.1
            (record {
              left_fits = w.0;
              right_fits = ((k.left_fits, k.right_fits, k.left_black, k.right_black), a.0);
              left_black = w.1;
              right_black = tt;
            }))
      | inr e ↦ rw e (
          rotated fs h (rotate right left l x r px po gx u) a.3.1 (
            rotate-Balanced right left h l x r px po gx u k (a.0, a.1)
              (a.3.0, IsBlack-of_not_red u e)))
    ]
rebalance-Balanced (frame red px right po ∷ frame black gx right u ∷ fs) h l x r a k =
    elim (Bool-cases (is_red u)) [
      | inl e ↦ rw e (
          let w = blacken_red h u e a.3.0 in
          rebalance-Balanced fs (suc h) (blacken u) gx (node black po px (node red l x r)) a.3.1
            (record {
              left_fits = w.0;
              right_fits = (a.0, (k.left_fits, k.right_fits, k.left_black, k.right_black));
              left_black = w.1;
              right_black = tt;
            }))
      | inr e ↦ rw e (
          rotated fs h (rotate right right l x r px po gx u) a.3.1 (
            rotate-Balanced right right h l x r px po gx u k (a.0, a.1)
              (a.3.0, IsBlack-of_not_red u e)))
    ]
