-- ===== src/Dc/MergeLoop.antt =====
-- extbuild.c: `MultiWayMerge`, which merges the sorted chunks into the view.
use Prim.Native.Nat.Ordering.{lt, eq, gt}
use baseliner_docker.Base.{
  ℕ, zero, suc, ◌+◌, ◌-◌, ◌*◌, ◌/◌, ◌%◌, ◌^◌, List, [], ◌∷◌, Bool, true, false, ltb, ◌==◌,
  if◌then◌else◌, none, some, length,
}
use baseliner_docker.Dc.Row.{Row, key_comp, add_measures}
use baseliner_docker.Dc.Tree.{u32}
use baseliner_docker.Dc.Disk.{View, measbound, write_to_file, sum_measures}
use baseliner_docker.Dc.Chunks.{Chunk, choose, forward_at, refill_at, all_empty, read_all}

-- `nViewRows`, `totalOfViewRows` and the view
pub record Out : Type 0 where
  pub n_view_rows : ℕ
  pub total_of_view_rows : ℕ
  pub view : View

-- `nViewRows*m%measbound` as a word: the product of 64 bits is signed, and so is the remainder.
abbrev pub signed_rem : ℕ → ℕ
signed_rem p =
    if ltb p (2 ^ 63) then p % measbound else (2 ^ 64 - (2 ^ 64 - p) % measbound) % 2 ^ 64

unfoldable pub add_checks : ℕ → ℕ → List ℕ → List ℕ → List ℕ
add_checks n zero cs ms = cs
add_checks n (suc k) [] ms = []
add_checks n (suc k) (c ∷ cs) [] = c ∷ cs
add_checks n (suc k) (c ∷ cs) (m ∷ ms) =
    ((c + signed_rem (n * m % 2 ^ 64)) % 2 ^ 64) ∷ add_checks n k cs ms

-- The row of `outputBuffer` is written and counted; ADC_WRITE_FAILED is false.
abbrev pub counted : Row → Out → Bool × View → Bool × Out
counted r o (true, v) =
    let n = (o.n_view_rows + 1) % u32 in
    let w = sum_measures r v in
    (
      true,
      record o {
        n_view_rows = n;
        view = record w { checksums = add_checks n w.nm w.checksums r.measures };
      },
    )
counted r o (false, v) = (false, record o { view = v })

unfoldable pub emit : Row → Out → Bool × Out
emit r o = counted r o (write_to_file r o.view)

pub record Merge : Type 0 where
  pub chunks : List Chunk
  pub first_one : Bool
  pub output : Row
  pub best : Row × ℕ
  pub out : Out

-- The row goes into the output buffer; the row that is there is written if its key is another.
unfoldable pub take_in : ℕ → ℕ → Row → Merge → Bool × Merge
take_in nv nm r st =
    let w = emit st.output st.out in
    if st.first_one
    then (true, record st { output = r; first_one = false })
    else elim (key_comp st.output.dims r.dims nv) [
      | eq ↦ (
        true,
        record st {
          output = record st.output { measures = add_measures nm st.output.measures r.measures };
        },
      )
      | lt ↦ (w.0, record st { out = w.1; output = if w.0 then r else st.output })
      | gt ↦ (w.0, record st { out = w.1; output = if w.0 then r else st.output })
    ]

-- How the loop ends: at a return or behind it, in exit(1), or not with this fuel.
pub data Ended : Type 0 where
  ended : Bool × Out → Ended
  exited : Ended
  running : Ended

-- `while(1)`, and the last row behind it.
module _ (size : ℕ) (file : List Row) (nv nm : ℕ) where
  -- A round; `again` is what the loop does after it. false is ADC_WRITE_FAILED.
  unfoldable pub settle : List Chunk → ℕ → Bool × Merge → (Merge → Ended) → Ended
  settle cs k (false, st) again = ended (false, st.out)
  settle cs k (true, st) again =
      if all_empty cs then ended (emit st.output st.out) else elim (refill_at size file k cs) [
        | none ↦ exited
        | some ds ↦ again (record st { chunks = ds })
      ]

  unfoldable pub round : Merge → (Merge → Ended) → Ended
  round st again =
      let best = choose nv st.chunks st.best in
      let cs = forward_at best.1 st.chunks in
      settle cs best.1 (take_in nv nm best.0 (record st { chunks = cs; best = best })) again

  unfoldable pub merge_loop : ℕ → Merge → Ended
  merge_loop zero st = running
  merge_loop (suc fuel) st = round st (λ u. merge_loop fuel u)

-- ADC_OK, ADC_WRITE_FAILED, ADC_INTERNAL_ERROR, and what ends in no code.
pub data Status : Type 0 where
  adc_ok adc_write_failed adc_internal_error exit_1 unfinished : Status

unfoldable pub merge_result : Out → Ended → Status × Out
merge_result old (ended (true, o)) =
    (adc_ok, record o { total_of_view_rows = (o.total_of_view_rows + o.n_view_rows) % u32 })
merge_result old (ended (false, o)) = (adc_write_failed, o)
merge_result old exited = (exit_1, old)
merge_result old running = (unfinished, old)

abbrev pub sub_chunk_size : ℕ → ℕ → ℕ → ℕ
sub_chunk_size memory_limit number rec_size = memory_limit / number / rec_size

-- `MultiWayMerge`, with the records of `fileOfChunks`; `raw` has what the buffers hold before.
unfoldable pub multi_way_merge : ℕ → ℕ → ℕ → ℕ → ℕ → List Row → Merge → Status × Out
multi_way_merge fuel memory_limit rec_size nv nm file raw =
    let o = record raw.out { n_view_rows = 0 } in
    let size = sub_chunk_size memory_limit (length raw.chunks) rec_size in
    let start = λ (cs : List Chunk). record raw { chunks = cs; first_one = true; out = o } in
    let chunks = read_all size file raw.chunks in
    if size == 0 then (adc_internal_error, o) else elim chunks [
      | none ↦ (exit_1, o)
      | some cs ↦ merge_result o (merge_loop size file nv nm fuel (start cs))
    ]
