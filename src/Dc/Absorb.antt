-- ===== src/Dc/Absorb.antt =====
-- extbuild.c: what `MultiWayMerge` does with one row, and the rows that it writes.
use Prim.Native.Nat.{compare}
use Prim.Native.Nat.Ordering.{lt, eq, gt}
use mathlib.Core.Path.{subst}
use baseliner_docker.Base.{
  ℕ, ◌<◌, ◌≤◌, List, [], ◌∷◌, ◌++◌, Bool, true, false, ◌≡◌, refl, sym, ap, ◌∙◌, ◌⊎◌, arith, inl,
  inr, if◌then◌else◌,
}
use baseliner_docker.Dc.Row.{Row, key_comp, add_measures, key_value, key_comp_lem, compare_of_gt}
use baseliner_docker.Dc.Inorder.{merge_row}
use baseliner_docker.Dc.Insert.{Ordering-cases, lt_of_compare, gt_of_compare, eq_of_compare}
use baseliner_docker.Dc.Aggregate.{merge_all, IsRow, AllRows, length-add_measures}
use baseliner_docker.Dc.MergeLoop.{Out, emit, Merge, take_in}

-- The rows are written and counted one after the other, until a write fails.
abbrev pub then_emit : Bool × Out → (Out → Bool × Out) → Bool × Out
then_emit (true, o) k = k o
then_emit (false, o) k = (false, o)

unfoldable pub emit_all : List Row → Out → Bool × Out
emit_all [] o = (true, o)
emit_all (r ∷ rs) o = then_emit (emit r o) (λ u. emit_all rs u)

pub emit_one : (r : Row) (o : Out) → emit_all (r ∷ []) o ≡ emit r o
unfolding emit_all
emit_one r o = last (emit r o)
  where
    last : (w : Bool × Out) → then_emit w (λ u. (true, u)) ≡ w
    last (true, u) = refl
    last (false, u) = refl

compare_same : (b a : ℕ) → b ≡ a → compare b a ≡ eq
compare_same b a h = ground arith

-- Rows whose keys are at least k, or above it.
abbrev pub AllFrom : ℕ → ℕ → List Row → Type 0
AllFrom nv k [] = Unit
AllFrom nv k (x ∷ xs) = (k ≤ key_value nv x.dims) × AllFrom nv k xs

pub AllFrom-append :
    (nv k : ℕ) (xs ys : List Row) → AllFrom nv k xs → AllFrom nv k ys → AllFrom nv k (xs ++ ys)
AllFrom-append nv k [] ys p q = q
AllFrom-append nv k (x ∷ xs) ys p q = (p.0, AllFrom-append nv k xs ys p.1 q)

pub AllFrom-mono : (nv j k : ℕ) (xs : List Row) → j ≤ k → AllFrom nv k xs → AllFrom nv j xs
AllFrom-mono nv j k [] h p = tt
AllFrom-mono nv j k (x ∷ xs) h p = (omega (arith, p.0), AllFrom-mono nv j k xs h p.1)

module _ (nv nm : ℕ) where
  -- A row below all of them stays where it is.
  pub merge_all-below :
      (rs : List Row) (o m : Row) (l : List Row)
      → AllRows nv nm rs
      → IsRow nv nm o
      → key_value nv o.dims < key_value nv m.dims
      → AllFrom nv (key_value nv m.dims) rs
      → merge_all nv nm rs (o ∷ l) ≡ o ∷ merge_all nv nm rs l
  unfolding merge_all merge_row
  merge_all-below [] o m l a p h f = refl
  merge_all-below (r ∷ rs) o m l a p h f =
      let e : key_comp r.dims o.dims nv ≡ gt =
        key_comp_lem nv r.dims o.dims a.0.0 p.0 ∙ compare_of_gt _ _ (omega (arith, f.0)) in
      rw (merge_row, e) (merge_all-below rs o m (merge_row nv nm r l) a.1 p h f.1)

  -- The row in the output buffer, if there is one.
  abbrev pub held : Merge → List Row
  held st = if st.first_one then [] else st.output ∷ []

  -- The row in the buffer is no larger than those to come.
  pub record Holds (st : Merge) (rs : List Row) : Type 0 where
    pub first : st.first_one ≡ false
    pub is_row : IsRow nv nm st.output
    pub low : AllFrom nv (key_value nv st.output.dims) rs

  abbrev pub Starts : Merge → List Row → Type 0
  Starts st rs = (st.first_one ≡ true) ⊎ Holds st rs

  -- What will be written if the rows are merged into what is held.
  abbrev pub will_write : Merge → List Row → Bool × Out
  will_write st rs = emit_all (merge_all nv nm rs (held st)) st.out

  -- The result of `take_in`: what will be written stays the same.
  pub record Taken (st : Merge) (m : Row) (rs : List Row) (t : Bool × Merge) : Type 0 where
    pub ok :
        t.0 ≡ true
        → Holds t.1 rs
          × (will_write t.1 rs ≡ emit_all (merge_all nv nm rs (merge_row nv nm m (held st))) st.out)
    pub failed :
        t.0 ≡ false
        → (false, t.1.out) ≡ emit_all (merge_all nv nm rs (merge_row nv nm m (held st))) st.out

  module _ (m : Row) (rs : List Row) (mr : IsRow nv nm m) (ar : AllRows nv nm rs)
      (fr : AllFrom nv (key_value nv m.dims) rs) where
    take_first : (st : Merge) → st.first_one ≡ true → Taken st m rs (take_in nv nm m st)
    unfolding take_in merge_row
    take_first st e =
        rw (take_in, e)
          (record {
            ok = λ h. (record { first = refl; is_row = mr; low = fr }, refl);
            failed = λ h. cc;
          })

    onto_same :
        (o : Row)
        → IsRow nv nm o
        → key_comp o.dims m.dims nv ≡ eq
        → merge_row nv nm m (o ∷ [])
          ≡ record o { measures = add_measures nm o.measures m.measures } ∷ []
    unfolding merge_row
    onto_same o p e =
        let k = eq_of_compare _ _ (sym (key_comp_lem nv o.dims m.dims p.0 mr.0) ∙ e) in
        let f : key_comp m.dims o.dims nv ≡ eq =
          key_comp_lem nv m.dims o.dims mr.0 p.0 ∙ compare_same _ _ (sym k) in
        rw (merge_row, f) refl

    onto_next :
        (o : Row)
        → IsRow nv nm o
        → key_comp o.dims m.dims nv ≡ lt
        → merge_row nv nm m (o ∷ []) ≡ o ∷ m ∷ []
    unfolding merge_row
    onto_next o p e =
        let k = lt_of_compare _ _ (sym (key_comp_lem nv o.dims m.dims p.0 mr.0) ∙ e) in
        let f : key_comp m.dims o.dims nv ≡ gt =
          key_comp_lem nv m.dims o.dims mr.0 p.0 ∙ compare_of_gt _ _ k in
        rw (merge_row, f) refl

    abbrev summed : Merge → Merge
    summed st = record st {
      output = record st.output { measures = add_measures nm st.output.measures m.measures };
    }

    take_in_same :
        (st : Merge)
        → st.first_one ≡ false
        → key_comp st.output.dims m.dims nv ≡ eq
        → take_in nv nm m st ≡ (true, summed st)
    unfolding take_in
    take_in_same st f e = ground arith

    take_same :
        (st : Merge)
        → Holds st (m ∷ rs)
        → key_comp st.output.dims m.dims nv ≡ eq
        → Taken st m rs (take_in nv nm m st)
    take_same st h e = subst (Taken st m rs) (sym (take_in_same st h.first e)) (record {
      ok = λ p. (
        record {
          first = h.first;
          is_row = (h.is_row.0, length-add_measures nm _ m.measures ∙ h.is_row.1);
          low = h.low.1;
        },
        rw h.first (
            ap (λ l. emit_all (merge_all nv nm rs l) st.out)
              (sym (onto_same st.output h.is_row e))),
      );
      failed = λ p. cc;
    })

    -- What is written if the next row has a larger key.
    write_next :
        (st : Merge)
        → Holds st (m ∷ rs)
        → key_comp st.output.dims m.dims nv ≡ lt
        → emit_all (merge_all nv nm rs (merge_row nv nm m (st.output ∷ []))) st.out
          ≡ then_emit (emit st.output st.out) (λ u. emit_all (merge_all nv nm rs (m ∷ [])) u)
    unfolding emit_all
    write_next st h e =
        let k =
          lt_of_compare _ _ (sym (key_comp_lem nv st.output.dims m.dims h.is_row.0 mr.0) ∙ e) in
        ap (λ l. emit_all (merge_all nv nm rs l) st.out) (onto_next st.output h.is_row e)
        ∙ ap (λ l. emit_all l st.out) (merge_all-below rs st.output m (m ∷ []) ar h.is_row k fr)

    -- The row in the buffer is written, and the new one takes its place if that went well.
    swapped : (st : Merge) → Bool × Out → Bool × Merge
    swapped st w = (w.0, record st { out = w.1; output = if w.0 then m else st.output })

    swapped-Taken :
        (st : Merge) (w : Bool × Out)
        → st.first_one ≡ false
        → emit_all (merge_all nv nm rs (merge_row nv nm m (st.output ∷ []))) st.out
          ≡ then_emit w (λ u. emit_all (merge_all nv nm rs (m ∷ [])) u)
        → Taken st m rs (swapped st w)
    unfolding swapped
    swapped-Taken st (true, o) f h = record {
      ok = λ p. (record { first = f; is_row = mr; low = fr }, rw f (sym h));
      failed = λ p. cc;
    }
    swapped-Taken st (false, o) f h = record { ok = λ p. cc; failed = λ p. rw f (sym h) }

    take_in_next :
        (st : Merge)
        → st.first_one ≡ false
        → key_comp st.output.dims m.dims nv ≡ lt
        → take_in nv nm m st ≡ swapped st (emit st.output st.out)
    unfolding take_in swapped
    take_in_next st f e = ground arith

    take_next :
        (st : Merge)
        → Holds st (m ∷ rs)
        → key_comp st.output.dims m.dims nv ≡ lt
        → Taken st m rs (take_in nv nm m st)
    take_next st h e =
        subst (Taken st m rs) (sym (take_in_next st h.first e))
          (swapped-Taken st (emit st.output st.out) h.first (write_next st h e))

    -- A row that is not above those to come.
    pub take_in-Taken : (st : Merge) → Starts st (m ∷ rs) → Taken st m rs (take_in nv nm m st)
    take_in-Taken st (inl f) = take_first st f
    take_in-Taken st (inr h) = elim (Ordering-cases (key_comp st.output.dims m.dims nv)) [
      | inl e ↦ take_next st h e
      | inr (inl e) ↦ take_same st h e
      | inr (inr e) ↦
          let k =
            gt_of_compare _ _ (sym (key_comp_lem nv st.output.dims m.dims h.is_row.0 mr.0) ∙ e) in
          absurd (omega (arith, h.low.0))
    ]
