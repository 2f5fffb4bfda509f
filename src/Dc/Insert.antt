-- ===== src/Dc/Insert.antt =====
-- `TreeInsert` on a tree in order is insertion into the sorted list of its rows.
use mathlib.Core.Path.{subst}
use Prim.Native.Nat.Ordering.{lt, eq, gt}
use Prim.Native.Nat.{Ordering, compare}
use baseliner_docker.Base.{
  ℕ, ◌<◌, List, [], ◌∷◌, ◌++◌, ◌≡◌, refl, sym, ap, ◌∙◌, append_assoc, append-nil, arith, inl, inr,
  ◌⊎◌,
}
use baseliner_docker.Dc.Row.{
  Row, key_comp, add_measures, IsKey, key_value, key_comp_lem, compare_of_lt, compare_of_gt,
}
use baseliner_docker.Dc.Tree.{
  Tree, leaf, node, left, right, Frame, frame, Spot, fresh, present, descend, rebalance, RbTree,
  place, tree_insert,
}
use baseliner_docker.Dc.Inorder.{
  rows, merge_row, before, after, rows-zip, rows-rebalance, rows-blacken,
}

pub Ordering-cases : (o : Ordering) → (o ≡ lt) ⊎ (o ≡ eq) ⊎ (o ≡ gt)
Ordering-cases lt = inl refl
Ordering-cases eq = inr (inl refl)
Ordering-cases gt = inr (inr refl)

pub lt_of_compare : (a b : ℕ) → compare a b ≡ lt → a < b
lt_of_compare a b h = ground arith

pub eq_of_compare : (a b : ℕ) → compare a b ≡ eq → a ≡ b
eq_of_compare a b h = ground arith

pub gt_of_compare : (a b : ℕ) → compare a b ≡ gt → b < a
gt_of_compare a b h = ground arith

-- Keys of nd words, all below or all above the number k.
module _ (nd : ℕ) (k : ℕ) where
  abbrev pub AllBelow : List Row → Type 0
  AllBelow [] = Unit
  AllBelow (x ∷ xs) = (IsKey nd x.dims × (key_value nd x.dims < k)) × AllBelow xs

  abbrev pub AllAbove : List Row → Type 0
  AllAbove [] = Unit
  AllAbove (x ∷ xs) = (IsKey nd x.dims × (k < key_value nd x.dims)) × AllAbove xs

  AllBelow-append : (xs ys : List Row) → AllBelow xs → AllBelow ys → AllBelow (xs ++ ys)
  AllBelow-append [] ys p q = q
  AllBelow-append (x ∷ xs) ys p q = (p.0, AllBelow-append xs ys p.1 q)

  AllAbove-append : (xs ys : List Row) → AllAbove xs → AllAbove ys → AllAbove (xs ++ ys)
  AllAbove-append [] ys p q = q
  AllAbove-append (x ∷ xs) ys p q = (p.0, AllAbove-append xs ys p.1 q)

  AllAbove-split : (xs ys : List Row) → AllAbove (xs ++ ys) → AllAbove xs × AllAbove ys
  AllAbove-split [] ys p = (tt, p)
  AllAbove-split (x ∷ xs) ys p = ((p.0, (AllAbove-split xs ys p.1).0), (AllAbove-split xs ys p.1).1)

AllBelow-mono : (nd j k : ℕ) (xs : List Row) → j < k → AllBelow nd j xs → AllBelow nd k xs
AllBelow-mono nd j k [] h p = tt
AllBelow-mono nd j k (x ∷ xs) h p = ((p.0.0, omega arith), AllBelow-mono nd j k xs h p.1)

pub AllAbove-mono : (nd j k : ℕ) (xs : List Row) → k < j → AllAbove nd j xs → AllAbove nd k xs
AllAbove-mono nd j k [] h p = tt
AllAbove-mono nd j k (x ∷ xs) h p = ((p.0.0, omega arith), AllAbove-mono nd j k xs h p.1)

-- Sorted by key, with keys of nd words.
abbrev pub IsSorted : ℕ → List Row → Type 0
IsSorted nd [] = Unit
IsSorted nd (x ∷ xs) = IsKey nd x.dims × AllAbove nd (key_value nd x.dims) xs × IsSorted nd xs

-- A sorted list around one of its rows.
record Around (nd : ℕ) (xs : List Row) (x : Row) (ys : List Row) : Type 0 where
  key : IsKey nd x.dims
  below : AllBelow nd (key_value nd x.dims) xs
  above : AllAbove nd (key_value nd x.dims) ys
  sorted_left : IsSorted nd xs
  sorted_right : IsSorted nd ys

IsSorted-split :
    (nd : ℕ) (xs : List Row) (x : Row) (ys : List Row)
    → IsSorted nd (xs ++ x ∷ ys)
    → Around nd xs x ys
IsSorted-split nd [] x ys h = record {
  key = h.0;
  below = tt;
  above = h.1;
  sorted_left = tt;
  sorted_right = h.2;
}
IsSorted-split nd (z ∷ xs) x ys h =
    let a = IsSorted-split nd xs x ys h.2 in
    let up = AllAbove-split nd (key_value nd z.dims) xs (x ∷ ys) h.1 in
    record {
      key = a.key;
      below = ((h.0, up.1.0.1), a.below);
      above = a.above;
      sorted_left = (h.0, up.0, a.sorted_left);
      sorted_right = a.sorted_right;
    }

regroup :
    (b l : List Row) (x : Row) (s a : List Row)
    → b ++ ((l ++ x ∷ s) ++ a) ≡ (b ++ l) ++ (x ∷ (s ++ a))
regroup b l x s a = simp append_assoc

module _ (nd nm : ℕ) (r : Row) (rk : IsKey nd r.dims) where
  comp :
      (x : Row)
      → IsKey nd x.dims
      → key_comp r.dims x.dims nd ≡ compare (key_value nd r.dims) (key_value nd x.dims)
  comp x xk = key_comp_lem nd r.dims x.dims rk xk

  merge_row-below :
      (xs ys : List Row)
      → AllBelow nd (key_value nd r.dims) xs
      → merge_row nd nm r (xs ++ ys) ≡ xs ++ merge_row nd nm r ys
  unfolding merge_row
  merge_row-below [] ys h = refl
  merge_row-below (x ∷ xs) ys h =
      rw (merge_row, comp x h.0.0, compare_of_gt _ _ h.0.1)
        (ap (λ l. x ∷ l) (merge_row-below xs ys h.1))

  merge_row-above :
      (ys : List Row) → AllAbove nd (key_value nd r.dims) ys → merge_row nd nm r ys ≡ r ∷ ys
  unfolding merge_row
  merge_row-above [] h = refl
  merge_row-above (y ∷ ys) h = rw (merge_row, comp y h.0.0, compare_of_lt _ _ h.0.1)

  merge_row-same :
      (x : Row) (ys : List Row)
      → key_comp r.dims x.dims nd ≡ eq
      → merge_row nd nm r (x ∷ ys)
        ≡ record x { measures = add_measures nm x.measures r.measures } ∷ ys
  unfolding merge_row
  merge_row-same x ys h = rw (merge_row, h)

  -- Where the way down ends, and what is on both sides of it.
  record Fresh (all : List Row) (path : List Frame) : Type 0 where
    below : AllBelow nd (key_value nd r.dims) (before path)
    above : AllAbove nd (key_value nd r.dims) (after path)
    whole : before path ++ after path ≡ all

  record Present (all : List Row) (path : List Frame) (l : Tree) (x : Row) (s : Tree) : Type 0 where
    below : AllBelow nd (key_value nd r.dims) (before path ++ rows l)
    same : key_comp r.dims x.dims nd ≡ eq
    whole : before path ++ ((rows l ++ x ∷ rows s) ++ after path) ≡ all

  abbrev Ends : List Row → Spot → Type 0
  Ends all (fresh path) = Fresh all path
  Ends all (present path c l x s) = Present all path l x s

  descend-Ends :
      (t : Tree) (path : List Frame)
      → IsSorted nd (rows t)
      → AllBelow nd (key_value nd r.dims) (before path)
      → AllAbove nd (key_value nd r.dims) (after path)
      → Ends (before path ++ (rows t ++ after path)) (descend nd r t path)
  unfolding descend
  descend-Ends leaf path h b a = record { below = b; above = a; whole = refl }
  descend-Ends (node c l x t) path h b a =
      let p = IsSorted-split nd (rows l) x (rows t) h in
      elim (Ordering-cases (key_comp r.dims x.dims nd)) [
        | inl e ↦
            let less = lt_of_compare _ _ (sym (comp x p.key) ∙ e) in
            rw (descend, e)
              (subst (λ w. Ends w (descend nd r l (frame c x left t ∷ path))) (simp append_assoc)
                (descend-Ends l (frame c x left t ∷ path) p.sorted_left b (
                  (p.key, less),
                  AllAbove-append nd _ (rows t) (after path)
                      (AllAbove-mono nd _ _ (rows t) less p.above) a,
                )))
        | inr (inl e) ↦
            rw (descend, e)
              (record {
                below = AllBelow-append nd _ (before path) (rows l) b (
                    subst (λ k. AllBelow nd k (rows l))
                      (sym (eq_of_compare _ _ (sym (comp x p.key) ∙ e))) p.below);
                same = e;
                whole = refl;
              })
        | inr (inr e) ↦
            let more = gt_of_compare _ _ (sym (comp x p.key) ∙ e) in
            rw (descend, e)
              (subst (λ w. Ends w (descend nd r t (frame c x right l ∷ path))) (simp append_assoc)
                (descend-Ends t (frame c x right l ∷ path) p.sorted_right
                  (AllBelow-append nd _ (before path) (rows l ++ (x ∷ [])) b (
                    AllBelow-append nd _ (rows l) (x ∷ [])
                      (AllBelow-mono nd _ _ (rows l) more p.below) ((p.key, more), tt)))
                  a))
      ]

  place-rows :
      (t : RbTree) (all : List Row) (sp : Spot)
      → t.nd ≡ nd
      → t.nm ≡ nm
      → Ends all sp
      → rows (place t r sp).root ≡ merge_row nd nm r all
  unfolding place
  place-rows t all (fresh []) en em e =
      subst (λ l. r ∷ [] ≡ merge_row nd nm r l) e.whole (unfold merge_row in refl)
  place-rows t all (fresh (f ∷ path)) en em e =
      rows-blacken (rebalance (f ∷ path) leaf r leaf)
      ∙ rows-rebalance (f ∷ path) leaf r leaf
      ∙ ap (λ l. before (f ∷ path) ++ l) (sym (merge_row-above (after (f ∷ path)) e.above))
      ∙ sym (merge_row-below (before (f ∷ path)) (after (f ∷ path)) e.below)
      ∙ ap (merge_row nd nm r) e.whole
  place-rows t all (present path c l x s) en em e =
      rows-zip path (node c l (record x { measures = add_measures t.nm x.measures r.measures }) s)
      ∙ regroup (before path) (rows l)
          (record x { measures = add_measures t.nm x.measures r.measures }) (rows s) (after path)
      ∙ ap (λ y. (before path ++ rows l) ++ (y ∷ (rows s ++ after path)))
          (ap (λ m. record x { measures = add_measures m x.measures r.measures }) em)
      ∙ ap (λ k. (before path ++ rows l) ++ k)
          (sym (merge_row-same x (rows s ++ after path) e.same))
      ∙ sym (merge_row-below (before path ++ rows l) (x ∷ (rows s ++ after path)) e.below)
      ∙ ap (merge_row nd nm r)
          (sym (regroup (before path) (rows l) x (rows s) (after path)) ∙ e.whole)

-- `TreeInsert` on a tree whose rows are in order, with keys of nd words of 32 bits, leaves the rows of
-- the sorted list into which the row is inserted: it stands at its place, or its measures are added
-- to those of the row with the same key.
pub rows-tree_insert :
    (t : RbTree) (r : Row)
    → IsKey t.nd r.dims
    → IsSorted t.nd (rows t.root)
    → rows (tree_insert t r).root ≡ merge_row t.nd t.nm r (rows t.root)
unfolding tree_insert
rows-tree_insert t r rk h =
    place-rows t.nd t.nm r rk t _ (descend t.nd r t.root []) refl refl
      (descend-Ends t.nd t.nm r rk t.root [] h tt tt)
    ∙ ap (merge_row t.nd t.nm r) (append-nil (rows t.root))
