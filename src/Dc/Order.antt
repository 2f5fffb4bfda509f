-- ===== src/Dc/Order.antt =====
-- The order of the rows is an invariant of `TreeInsert`.
use mathlib.Core.Path.{subst}
use baseliner_docker.Base.{ℕ, ◌<◌, List, [], ◌∷◌, sym, ◌∙◌, inl, inr}
use baseliner_docker.Dc.Row.{Row, key_comp, IsKey, key_value, key_comp_lem}
use baseliner_docker.Dc.Tree.{RbTree, tree_insert}
use baseliner_docker.Dc.Inorder.{rows, merge_row}
use baseliner_docker.Dc.Insert.{
  AllAbove, AllAbove-mono, IsSorted, Ordering-cases, lt_of_compare, gt_of_compare, rows-tree_insert,
}

module _ (nd nm : ℕ) (r : Row) (rk : IsKey nd r.dims) where
  merge_row-AllAbove :
      (k : ℕ) (xs : List Row)
      → k < key_value nd r.dims
      → AllAbove nd k xs
      → AllAbove nd k (merge_row nd nm r xs)
  unfolding merge_row
  merge_row-AllAbove k [] h a = ((rk, h), tt)
  merge_row-AllAbove k (x ∷ xs) h a = elim (Ordering-cases (key_comp r.dims x.dims nd)) [
    | inl e ↦ rw (merge_row, e) ((rk, h), a)
    | inr (inl e) ↦ rw (merge_row, e) a
    | inr (inr e) ↦ rw (merge_row, e) (a.0, merge_row-AllAbove k xs h a.1)
  ]

  pub merge_row-IsSorted : (xs : List Row) → IsSorted nd xs → IsSorted nd (merge_row nd nm r xs)
  unfolding merge_row
  merge_row-IsSorted [] h = (rk, tt, tt)
  merge_row-IsSorted (x ∷ xs) h = elim (Ordering-cases (key_comp r.dims x.dims nd)) [
    | inl e ↦
        let less = lt_of_compare _ _ (sym (key_comp_lem nd r.dims x.dims rk h.0) ∙ e) in
        rw (merge_row, e) (rk, ((h.0, less), AllAbove-mono nd _ _ xs less h.1), h)
    | inr (inl e) ↦ rw (merge_row, e) h
    | inr (inr e) ↦
        let more = gt_of_compare _ _ (sym (key_comp_lem nd r.dims x.dims rk h.0) ∙ e) in
        rw (merge_row, e) (h.0, merge_row-AllAbove _ xs more h.1, merge_row-IsSorted xs h.2)
  ]

-- `TreeInsert` keeps the rows of the tree in strictly increasing order of their keys.
pub tree_insert-IsSorted :
    (t : RbTree) (r : Row)
    → IsKey t.nd r.dims
    → IsSorted t.nd (rows t.root)
    → IsSorted t.nd (rows (tree_insert t r).root)
tree_insert-IsSorted t r rk h =
    subst (IsSorted t.nd) (sym (rows-tree_insert t r rk h))
      (merge_row-IsSorted t.nd t.nm r rk (rows t.root) h)
