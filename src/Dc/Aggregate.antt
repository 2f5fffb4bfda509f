-- ===== src/Dc/Aggregate.antt =====
-- What extbuild.c computes: a view holds one row for each key, in order, whose measures are the sums
-- of those of the rows with the key. Rows are added one at a time, and the order does not matter.
use Prim.Native.Nat.Ordering.{eq}
use Prim.Native.Nat.{compare}
use baseliner_docker.Base.{
  ℕ, zero, suc, List, [], ◌∷◌, ◌++◌, ◌≡◌, refl, sym, ap, ap₂, ◌∙◌, arith, length, inl, inr,
}
use baseliner_docker.Dc.Row.{Row, key_comp, add_measures, IsKey, key_value, key_comp_lem}
use baseliner_docker.Dc.Inorder.{merge_row}
use baseliner_docker.Dc.Insert.{Ordering-cases}

module _ (nd nm : ℕ) where
  -- The rows of a list are added to the rows of a view.
  unfoldable pub merge_all : List Row → List Row → List Row
  merge_all [] view = view
  merge_all (r ∷ rows) view = merge_all rows (merge_row nd nm r view)

  -- The view of the rows.
  unfoldable pub aggregate : List Row → List Row
  aggregate rows = merge_all rows []

  -- A row of nd dimensions, words of 32 bits, and nm measures.
  abbrev pub IsRow : Row → Type 0
  IsRow r = IsKey nd r.dims × (length r.measures ≡ nm)

  abbrev pub AllRows : List Row → Type 0
  AllRows [] = Unit
  AllRows (r ∷ rs) = IsRow r × AllRows rs

add_measures_comm :
    (n : ℕ) (a b : List ℕ) → length a ≡ n → length b ≡ n → add_measures n a b ≡ add_measures n b a
unfolding add_measures
add_measures_comm zero [] [] p q = refl
add_measures_comm zero [] (y ∷ b) p q = absurd (omega (arith, p, q))
add_measures_comm zero (x ∷ a) b p q = absurd (omega (arith, p))
add_measures_comm (suc n) [] b p q = absurd (omega (arith, p))
add_measures_comm (suc n) (x ∷ a) [] p q = absurd (omega (arith, q))
add_measures_comm (suc n) (x ∷ a) (y ∷ b) p q =
    ap₂ (λ (h : ℕ) t. h ∷ t) (omega arith)
      (add_measures_comm n a b (omega (arith, p)) (omega (arith, q)))

add_measures-right_comm :
    (n : ℕ) (x a b : List ℕ)
    → add_measures n (add_measures n x a) b ≡ add_measures n (add_measures n x b) a
unfolding add_measures
add_measures-right_comm zero x a b = refl
add_measures-right_comm (suc n) [] a b = refl
add_measures-right_comm (suc n) (x ∷ xs) [] [] = refl
add_measures-right_comm (suc n) (x ∷ xs) [] (b ∷ bs) = refl
add_measures-right_comm (suc n) (x ∷ xs) (a ∷ as') [] = refl
add_measures-right_comm (suc n) (x ∷ xs) (a ∷ as') (b ∷ bs) =
    ap₂ (λ (h : ℕ) t. h ∷ t) (omega arith) (add_measures-right_comm n xs as' bs)

add_measures_assoc :
    (n : ℕ) (x a b : List ℕ)
    → length a ≡ n
    → length b ≡ n
    → add_measures n (add_measures n x a) b ≡ add_measures n x (add_measures n a b)
unfolding add_measures
add_measures_assoc zero x a b p q = refl
add_measures_assoc (suc n) [] a b p q = refl
add_measures_assoc (suc n) (x ∷ xs) [] b p q = absurd (omega (arith, p))
add_measures_assoc (suc n) (x ∷ xs) (a ∷ as') [] p q = absurd (omega (arith, q))
add_measures_assoc (suc n) (x ∷ xs) (a ∷ as') (b ∷ bs) p q =
    ap₂ (λ (h : ℕ) t. h ∷ t) (omega arith)
      (add_measures_assoc n xs as' bs (omega (arith, p)) (omega (arith, q)))

pub length-add_measures : (n : ℕ) (a b : List ℕ) → length (add_measures n a b) ≡ length a
unfolding add_measures
length-add_measures zero a b = refl
length-add_measures (suc n) [] b = refl
length-add_measures (suc n) (x ∷ a) [] = refl
length-add_measures (suc n) (x ∷ a) (y ∷ b) = ap suc (length-add_measures n a b)

-- The words of a key are determined by its number.
key_value-inj : (n : ℕ) (a b : List ℕ) → IsKey n a → IsKey n b → key_comp a b n ≡ eq → a ≡ b
unfolding key_comp
key_value-inj zero [] [] p q h = refl
key_value-inj zero [] (y ∷ b) p q h = elim q [ ]
key_value-inj zero (x ∷ a) b p q h = elim p [ ]
key_value-inj (suc n) [] b p q h = elim p [ ]
key_value-inj (suc n) (x ∷ a) [] p q h = elim q [ ]
key_value-inj (suc n) (x ∷ a) (y ∷ b) p q h = ground (arith, key_value-inj n a b p.1 q.1)

module _ (nd nm : ℕ) where
  abbrev plus : Row → Row → Row
  plus x r = record x { measures = add_measures nm x.measures r.measures }

  pub merge_row-AllRows :
      (r : Row) (l : List Row)
      → IsRow nd nm r
      → AllRows nd nm l
      → AllRows nd nm (merge_row nd nm r l)
  unfolding merge_row
  merge_row-AllRows r [] p q = (p, tt)
  merge_row-AllRows r (x ∷ xs) p q = elim (Ordering-cases (key_comp r.dims x.dims nd)) [
    | inl e ↦ rw (merge_row, e) (p, q)
    | inr (inl e) ↦
        rw (merge_row, e) ((q.0.0, length-add_measures nm x.measures r.measures ∙ q.0.1), q.1)
    | inr (inr e) ↦ rw (merge_row, e) (q.0, merge_row-AllRows r xs p q.1)
  ]

  comp :
      (r x : Row)
      → IsRow nd nm r
      → IsRow nd nm x
      → key_comp r.dims x.dims nd ≡ compare (key_value nd r.dims) (key_value nd x.dims)
  comp r x p q = key_comp_lem nd r.dims x.dims p.0 q.0

  plus_comm :
      (r s : Row)
      → IsRow nd nm r
      → IsRow nd nm s
      → key_comp r.dims s.dims nd ≡ eq
      → plus r s ≡ plus s r
  plus_comm r s p q h =
      ap₂ (λ m d. record { measures = m; dims = d })
        (add_measures_comm nm r.measures s.measures p.1 q.1)
        (key_value-inj nd r.dims s.dims p.0 q.0 h)

  pub merge_row-merge_row :
      (r s : Row) (l : List Row)
      → IsRow nd nm r
      → IsRow nd nm s
      → AllRows nd nm l
      → merge_row nd nm r (merge_row nd nm s l) ≡ merge_row nd nm s (merge_row nd nm r l)
  unfolding merge_row
  merge_row-merge_row r s [] p q a = ground (arith, comp r s p q, comp s r q p, plus_comm r s p q)
  merge_row-merge_row r s (x ∷ xs) p q a = ground (
    arith,
    comp r s p q,
    comp s r q p,
    plus_comm r s p q,
    comp r x p a.0,
    comp s x q a.0,
    merge_row-merge_row r s xs p q a.1,
    add_measures-right_comm nm x.measures r.measures s.measures,
  )

  plus_assoc : (x r s : Row) → IsRow nd nm r → IsRow nd nm s → plus (plus x r) s ≡ plus x (plus r s)
  plus_assoc x r s p q =
      ap (λ m. record { measures = m; dims = x.dims })
        (add_measures_assoc nm x.measures r.measures s.measures p.1 q.1)

  plus-IsRow : (x r : Row) → IsRow nd nm x → IsRow nd nm (plus x r)
  plus-IsRow x r p = (p.0, length-add_measures nm x.measures r.measures ∙ p.1)

  -- Two rows with the same key may be added before they are inserted.
  merge_row-plus :
      (x r : Row) (l : List Row)
      → IsRow nd nm x
      → IsRow nd nm r
      → AllRows nd nm l
      → key_comp r.dims x.dims nd ≡ eq
      → merge_row nd nm (plus x r) l ≡ merge_row nd nm r (merge_row nd nm x l)
  unfolding merge_row
  merge_row-plus x r [] p q a h = rw (merge_row, h) refl
  merge_row-plus x r (y ∷ l) p q a h = ground (
    arith,
    comp r x q p,
    comp r y q a.0,
    comp x y p a.0,
    plus_assoc y x r p q,
    merge_row-plus x r l p q a.1 h,
  )

  pub merge_all-AllRows :
      (rs l : List Row) → AllRows nd nm rs → AllRows nd nm l → AllRows nd nm (merge_all nd nm rs l)
  unfolding merge_all
  merge_all-AllRows [] l p q = q
  merge_all-AllRows (r ∷ rs) l p q = merge_all-AllRows rs _ p.1 (merge_row-AllRows r l p.0 q)

  pub merge_all-merge_row :
      (rs : List Row) (r : Row) (l : List Row)
      → AllRows nd nm rs
      → IsRow nd nm r
      → AllRows nd nm l
      → merge_all nd nm rs (merge_row nd nm r l) ≡ merge_row nd nm r (merge_all nd nm rs l)
  unfolding merge_all
  merge_all-merge_row [] r l p q a = refl
  merge_all-merge_row (s ∷ rs) r l p q a =
      ap (merge_all nd nm rs) (merge_row-merge_row s r l p.0 q a)
      ∙ merge_all-merge_row rs r _ p.1 q (merge_row-AllRows s l p.0 a)

  pub merge_all-append :
      (xs ys l : List Row)
      → merge_all nd nm (xs ++ ys) l ≡ merge_all nd nm ys (merge_all nd nm xs l)
  unfolding merge_all
  merge_all-append [] ys l = refl
  merge_all-append (x ∷ xs) ys l = merge_all-append xs ys _

  -- A row may be taken out of the middle.
  pub merge_all_middle :
      (xs : List Row) (m : Row) (ys l : List Row)
      → AllRows nd nm xs
      → IsRow nd nm m
      → AllRows nd nm l
      → merge_all nd nm (xs ++ m ∷ ys) l ≡ merge_all nd nm (xs ++ ys) (merge_row nd nm m l)
  unfolding merge_all
  merge_all_middle xs m ys l p q a =
      merge_all-append xs (m ∷ ys) l
      ∙ ap (merge_all nd nm ys) (sym (merge_all-merge_row xs m l p q a))
      ∙ sym (merge_all-append xs ys _)

  -- A row inserted into some rows may be inserted into the view they are added to.
  pub merge_all_insert :
      (r : Row) (rs l : List Row)
      → IsRow nd nm r
      → AllRows nd nm rs
      → AllRows nd nm l
      → merge_all nd nm (merge_row nd nm r rs) l ≡ merge_row nd nm r (merge_all nd nm rs l)
  unfolding merge_all merge_row
  merge_all_insert r [] l p q a = refl
  merge_all_insert r (x ∷ xs) l p q a = elim (Ordering-cases (key_comp r.dims x.dims nd)) [
    | inl e ↦ rw (merge_row, e) (merge_all-merge_row (x ∷ xs) r l q p a)
    | inr (inl e) ↦
        rw (merge_row, e)
          (ap (merge_all nd nm xs) (merge_row-plus x r l q.0 p a e)
            ∙ merge_all-merge_row xs r _ q.1 p (merge_row-AllRows x l q.0 a))
    | inr (inr e) ↦ rw (merge_row, e) (merge_all_insert r xs _ p q.1 (merge_row-AllRows x l q.0 a))
  ]

  merge_all_nested :
      (rs bs l : List Row)
      → AllRows nd nm rs
      → AllRows nd nm bs
      → AllRows nd nm l
      → merge_all nd nm (merge_all nd nm rs bs) l ≡ merge_all nd nm rs (merge_all nd nm bs l)
  unfolding merge_all
  merge_all_nested [] bs l p q a = refl
  merge_all_nested (r ∷ rs) bs l p q a =
      merge_all_nested rs _ l p.1 (merge_row-AllRows r bs p.0 q) a
      ∙ ap (merge_all nd nm rs) (merge_all_insert r bs l p.0 q a)

  -- Rows may be aggregated before they are added to a view.
  pub merge_all-aggregate :
      (rs l : List Row)
      → AllRows nd nm rs
      → AllRows nd nm l
      → merge_all nd nm (aggregate nd nm rs) l ≡ merge_all nd nm rs l
  unfolding aggregate merge_all
  merge_all-aggregate rs l p a = merge_all_nested rs [] l p tt a
