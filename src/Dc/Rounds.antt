-- ===== src/Dc/Rounds.antt =====
-- extbuild.c: the rounds of `MultiWayMerge`.
use mathlib.Core.Path.{subst}
use baseliner_docker.Base.{
  ℕ, zero, suc, ◌^◌, ◌<◌, ◌≤◌, List, [], ◌∷◌, ◌++◌, Bool, true, false, ◌≡◌, refl, sym, ap, ◌∙◌, ◌⊎◌,
  arith, inl, inr, length, if◌then◌else◌,
}
use baseliner_docker.Dc.Row.{Row, key_value}
use baseliner_docker.Dc.Inorder.{merge_row}
use baseliner_docker.Dc.Aggregate.{merge_all, AllRows, merge_all_middle}
use baseliner_docker.Dc.Chunks.{Chunk, offer, forward, forward_at, choose}
use baseliner_docker.Dc.Reading.{pending, OnFile}
use baseliner_docker.Dc.Choosing.{
  AllChunks, AllChunks-append, AllChunks-split, AllChunks-map, AtLeast, Best, choose-Best,
}
use baseliner_docker.Dc.Pending.{pend, pend-append, Good, forward-Kept, forward_skip, all_empty_lem}
use baseliner_docker.Dc.MergeLoop.{Merge, emit, take_in, Ended, ended, merge_loop, settle, round}
use baseliner_docker.Dc.Absorb.{
  emit_all, emit_one, Holds, Starts, held, will_write, Taken, take_in-Taken,
}
use baseliner_docker.Dc.MergeStep.{
  AllFrom-front, all_nothing, Good-Offers, others, pend-others, others-rows, others-AllFrom,
  others-refill,
}

pub length_zero : (xs : List Row) → length xs ≡ 0 → xs ≡ []
length_zero [] e = refl
length_zero (x ∷ xs) e = absurd (omega (arith, e))

length_middle :
    (xs : List Row) (m : Row) (ys : List Row) → length (xs ++ m ∷ ys) ≡ suc (length (xs ++ ys))
length_middle [] m ys = refl
length_middle (x ∷ xs) m ys = ap suc (length_middle xs m ys)

module _ (size : ℕ) (file : List Row) (nv nm : ℕ) (q : 0 < size) (small : size < 2 ^ 32) where
  held-AllRows : (st : Merge) (rs : List Row) → Starts nv nm st rs → AllRows nv nm (held nv nm st)
  held-AllRows st rs (inl e) = rw e tt
  held-AllRows st rs (inr h) = rw h.first (h.is_row, tt)

  -- What a round leaves to do: nothing, or the loop again with one row less.
  record Again (st u : Merge) : Type 0 where
    good : AllChunks (Good size file nv nm) u.chunks
    starts : Starts nv nm u (pend file u.chunks)
    fewer : length (pend file st.chunks) ≡ suc (length (pend file u.chunks))
    left : 0 < length (pend file u.chunks)
    same : will_write nv nm u (pend file u.chunks) ≡ will_write nv nm st (pend file st.chunks)

  abbrev Round : Merge → ((Merge → Ended) → Ended) → Type 0
  Round st r =
      ((again : Merge → Ended) → r again ≡ ended (will_write nv nm st (pend file st.chunks)))
      ⊎ ((u : Merge) × ((again : Merge → Ended) → r again ≡ again u) × Again st u)

  -- The last row is in the buffer.
  final :
      (u : Merge) {rs : List Row}
      → Holds nv nm u rs
      → rs ≡ []
      → emit u.output u.out ≡ will_write nv nm u rs
  unfolding merge_all
  final u {rs} h e =
      sym (emit_one u.output u.out)
      ∙ ap (λ b. emit_all (if b then [] else u.output ∷ []) u.out) (sym h.first)
      ∙ ap (will_write nv nm u) (sym e)

  module _ (st : Merge) (left : List Chunk) (c : Chunk) (right : List Chunk)
      (p : 0 < c.cur_sub_chunk) (g : AllChunks (Good size file nv nm) (left ++ c ∷ right))
      (w : st.chunks ≡ left ++ c ∷ right) where
    abbrev after : List Row
    after = others size file nv nm left c right small q p g

    -- What will be written after the round is what would have been written before.
    moved :
        Starts nv nm st (pend file st.chunks)
        → will_write nv nm st (pend file st.chunks)
          ≡ emit_all (merge_all nv nm after (merge_row nv nm (offer c) (held nv nm st))) st.out
    moved h =
        let r = others-rows size file nv nm left c right small q p g in
        ap (λ rs. emit_all (merge_all nv nm rs (held nv nm st)) st.out)
          (ap (pend file) w ∙ pend-others size file nv nm left c right small q p g)
        ∙ ap (λ l. emit_all l st.out)
            (merge_all_middle nv nm (pend file left) (offer c) _ (held nv nm st) r.2 r.0
              (held-AllRows st _ h))

    settle-Round :
        (t : Bool × Merge)
        → Starts nv nm st (pend file st.chunks)
        → Taken nv nm st (offer c) after t
        → Round st (settle size file nv nm (left ++ forward c ∷ right) (length left) t)
    unfolding settle
    settle-Round (false, u) h k = inl (λ again. ap ended (k.failed refl ∙ sym (moved h)))
    settle-Round (true, u) h k = elim (all_empty_lem file (left ++ forward c ∷ right) on_file) [
      | inl e ↦ inl (λ again. rw e.0 (ap ended (final u (k.ok refl).0 (empty e.1) ∙ told)))
      | inr e ↦
          let r = others-refill size file nv nm left c right small q p g in
          inr (
            record u { chunks = r.0 },
            λ again. rw (e.0, r.1) refl,
            record {
              good = r.2;
              starts = subst (Starts nv nm (record u { chunks = r.0 })) (sym r.3) (
                  inr (record {
                    first = (k.ok refl).0.first;
                    is_row = (k.ok refl).0.is_row;
                    low = (k.ok refl).0.low;
                  }));
              fewer = one_less ∙ ap (λ l. suc (length l)) (sym r.3);
              left = omega (arith, e.1, ap length r.3, ap length forwarded);
              same = ap (will_write nv nm u) r.3 ∙ told;
            },
          )
    ]
      where
        forwarded : pend file (left ++ forward c ∷ right) ≡ after
        forwarded = pend-append file left (forward c ∷ right)

        one_less : length (pend file st.chunks) ≡ suc (length after)
        one_less =
            ap length (ap (pend file) w ∙ pend-others size file nv nm left c right small q p g)
            ∙ length_middle (pend file left) (offer c) _

        empty : length (pend file (left ++ forward c ∷ right)) ≡ 0 → after ≡ []
        empty e = length_zero after (omega (arith, e, ap length forwarded))

        on_file : AllChunks (OnFile file) (left ++ forward c ∷ right)
        on_file =
            let s = AllChunks-split _ left (c ∷ right) g in
            AllChunks-append _ left (forward c ∷ right)
              (AllChunks-map _ _ (λ d (h : Good size file nv nm d). h.kept.on_file) left s.0)
              (
                (forward-Kept size file nv nm c s.1.0.kept small p).on_file,
                AllChunks-map _ _ (λ d (h : Good size file nv nm d). h.kept.on_file) right s.1.1,
              )

        told : will_write nv nm u after ≡ will_write nv nm st (pend file st.chunks)
        told = (k.ok refl).1 ∙ sym (moved h)

  other_chunks :
      (st : Merge) (cs : List Chunk) (best : Row × ℕ) (xs : List Row) (m : Row) (ys : List Row)
      → Starts nv nm st (xs ++ m ∷ ys)
      → Starts nv nm (record st { chunks = cs; best = best }) (m ∷ (xs ++ ys))
  other_chunks st cs best xs m ys (inl e) = inl e
  other_chunks st cs best xs m ys (inr h) =
      inr (record { first = h.first; is_row = h.is_row; low = AllFrom-front nv _ xs m ys h.low })

  -- A round of the loop, where rows are left.
  round-Round :
      (st : Merge)
      → AllChunks (Good size file nv nm) st.chunks
      → Starts nv nm st (pend file st.chunks)
      → 0 < length (pend file st.chunks)
      → Round st (round size file nv nm st)
  unfolding round
  round-Round st g h l =
      elim (choose-Best nv st.chunks st.best
        (AllChunks-map _ _ (λ c k. Good-Offers size file nv nm c k small) st.chunks g)) [
          | inl z ↦ absurd (omega (arith, ap length (all_nothing size file nv nm st.chunks g z)))
          | inr b ↦ chosen b
        ]
    where
      settled : List Chunk → ℕ → Row → (Merge → Ended) → Ended
      settled cs k m again =
          settle size file nv nm cs k
            (take_in nv nm m (record st { chunks = cs; best = choose nv st.chunks st.best })) again

      chosen :
          Best nv st.chunks st.chunks (choose nv st.chunks st.best)
          → Round st (round size file nv nm st)
      chosen b =
          let c = b.chosen in
          let g' = subst (AllChunks (Good size file nv nm)) c.whole g in
          let r = others-rows size file nv nm c.left c.chunk c.right small q c.nonempty g' in
          let low =
            subst (λ m. AllChunks (AtLeast nv (key_value nv m.dims)) (c.left ++ c.chunk ∷ c.right))
              (sym c.offered)
              (subst (AllChunks (AtLeast nv (key_value nv (choose nv st.chunks st.best).0.dims)))
                c.whole b.low) in
          let u : Merge = record st {
            chunks = c.left ++ forward c.chunk ∷ c.right;
            best = choose nv st.chunks st.best;
          } in
          let k =
            take_in-Taken nv nm (offer c.chunk)
              (after st c.left c.chunk c.right c.nonempty g' c.whole) r.0 r.1
              (others-AllFrom size file nv nm c.left c.chunk c.right small q c.nonempty g' low) u
              (other_chunks st u.chunks u.best (pend file c.left) (offer c.chunk)
                (pending file (forward c.chunk) ++ pend file c.right)
                (subst (Starts nv nm st)
                  (ap (pend file) c.whole
                    ∙ pend-others size file nv nm c.left c.chunk c.right small q c.nonempty g')
                  h)) in
          let e : forward_at (choose nv st.chunks st.best).1 st.chunks
              ≡ c.left ++ forward c.chunk ∷ c.right =
            ap (λ j. forward_at j st.chunks) (sym c.index)
            ∙ ap (forward_at (length c.left)) c.whole
            ∙ forward_skip c.left c.chunk c.right in
          subst
            (λ cs.
              Round st (settled cs (choose nv st.chunks st.best).1 (choose nv st.chunks st.best).0))
            (sym e)
            (subst (λ j. Round st (settled u.chunks j (choose nv st.chunks st.best).0)) c.index
              (subst (λ m. Round st (settled u.chunks (length c.left) m)) c.offered
                (settle-Round st c.left c.chunk c.right c.nonempty g' c.whole
                  (take_in nv nm (offer c.chunk) u) h (record { ok = k.ok; failed = k.failed }))))

  -- The loop: with fuel for each row it ends, and has written the view of the rows.
  pub merge_loop_lem :
      (fuel : ℕ) (st : Merge)
      → AllChunks (Good size file nv nm) st.chunks
      → Starts nv nm st (pend file st.chunks)
      → 0 < length (pend file st.chunks)
      → length (pend file st.chunks) ≤ fuel
      → merge_loop size file nv nm fuel st ≡ ended (will_write nv nm st (pend file st.chunks))
  unfolding merge_loop
  merge_loop_lem zero st g h l f = absurd (omega arith)
  merge_loop_lem (suc fuel) st g h l f = elim (round-Round st g h l) [
    | inl e ↦ e _
    | inr r ↦
        r.1 _
        ∙ merge_loop_lem fuel r.0 r.2.good r.2.starts r.2.left (omega (arith, r.2.fewer))
        ∙ ap ended r.2.same
  ]
