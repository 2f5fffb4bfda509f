-- ===== src/Dc/Saved.antt =====
-- extbuild.c: what `RunFormation` does when it saves a run.
use mathlib.Core.Path.{subst}
use baseliner_docker.Base.{
  ℕ, suc, ◌+◌, ◌-◌, ◌<◌, ◌≤◌, List, [], ◌∷◌, ◌++◌, Bool, true, false, leb, ◌≡◌, refl, sym, ap, ap₂,
  ◌∙◌, arith, inl, inr, Bool-cases, length, length-append, pos, append-nil,
}
use baseliner_docker.Dc.Row.{Row}
use baseliner_docker.Dc.Inorder.{rows}
use baseliner_docker.Dc.Disk.{View, visit_chunk, visit_all, write_chunk_to_disk}
use baseliner_docker.Dc.Written.{traverse-rows}
use baseliner_docker.Dc.Chunks.{Chunk}
use baseliner_docker.Dc.Reading.{rest}
use baseliner_docker.Dc.Choosing.{AllChunks, AllChunks-append, AllChunks-map}
use baseliner_docker.Dc.Merging.{Run, runs}
use baseliner_docker.Dc.Formation.{Former, add_chunk, save_chunk, on_disk}
use baseliner_docker.Dc.Runs.{
  chunk_written, chunk_failed, Run-grown, runs_grown, new_rest, new_Run, runs-append,
}
use baseliner_docker.Dc.Forming.{Forming}

module _ (header : ℕ) (old : ℕ → Chunk) (selection : List ℕ) (nv nm : ℕ) where
  abbrev pub saved : Former → Bool × Former
  saved f = save_chunk header old selection nv nm (add_chunk header old selection nv nm f)

  -- The former after a run has been written.
  pub record Saved (f h : Former) : Type 0 where
    pub tree : h.tree ≡ f.tree
    pub written : h.file_of_chunks.written ≡ f.file_of_chunks.written ++ rows f.tree.root
    pub room : h.file_of_chunks.room + length (rows f.tree.root) ≡ f.file_of_chunks.room
    pub offset : h.chunk_offset ≡ length h.file_of_chunks.written
    pub number : length h.chunks ≡ suc (length f.chunks)
    pub in_runs : AllChunks (Run nv nm h.file_of_chunks.written) h.chunks
    pub same :
        runs h.file_of_chunks.written h.chunks
        ≡ runs f.file_of_chunks.written f.chunks ++ rows f.tree.root

  abbrev pub Saves : Former → Bool × Former → Type 0
  Saves f (true, h) = Saved f h
  Saves f (false, h) = f.file_of_chunks.room < length (rows f.tree.root)

  module _ (memory limit room : ℕ) (done : List Row) where
    Saved-of :
        (f : Former)
        → Forming nv nm memory limit room done f
        → 0 < length (rows f.tree.root)
        → length (rows f.tree.root) ≤ f.file_of_chunks.room
        → Saved f (record (add_chunk header old selection nv nm f) {
          chunk_offset = f.chunk_offset + f.tree.count;
          file_of_chunks = record {
            written = f.file_of_chunks.written ++ rows f.tree.root;
            room = f.file_of_chunks.room - length (rows f.tree.root);
          };
        })
    unfolding add_chunk
    Saved-of f h p r =
        let file = f.file_of_chunks.written in
        let more = rows f.tree.root in
        let c : Chunk = record (old (length f.chunks)) {
          cur_chunk_num = f.tree.count;
          chunk_offset = pos f.chunk_offset;
        } in
        let at = ap pos h.offset in
        let n = sym h.pool.nodes in
        record {
          tree = refl;
          written = refl;
          room = omega arith;
          offset = omega (arith, h.offset, h.pool.nodes, length-append file more);
          number = omega (arith, length-append f.chunks (c ∷ []));
          in_runs =
              AllChunks-append _ f.chunks (c ∷ [])
                (AllChunks-map _ _ (λ d k. (Run-grown nv nm file more d k).0) f.chunks h.in_runs)
                (new_Run nv nm file more c at n p h.sorted h.are_rows, tt);
          same =
              runs-append (file ++ more) f.chunks (c ∷ [])
              ∙ ap₂ (λ x y. x ++ y) (runs_grown nv nm file more f.chunks h.in_runs)
                  (append-nil (rest (file ++ more) c) ∙ new_rest nv nm file more c at n);
        }

    wrap : Former → Bool × View → Bool × Former
    wrap f w = (
      w.0,
      record (add_chunk header old selection nv nm f) {
        chunk_offset = f.chunk_offset + f.tree.count;
        file_of_chunks = w.1.disk;
      },
    )

    saved-wrap :
        (f : Former)
        → saved f ≡ wrap f (visit_all visit_chunk (rows f.tree.root) (on_disk f.file_of_chunks))
    unfolding save_chunk add_chunk write_chunk_to_disk wrap
    saved-wrap f = ap (wrap f) (traverse-rows visit_chunk f.tree.root (on_disk f.file_of_chunks))

    Saves-failed :
        (f : Former) (w : Bool × View)
        → w.0 ≡ false
        → f.file_of_chunks.room < length (rows f.tree.root)
        → Saves f (wrap f w)
    unfolding wrap
    Saves-failed f (true, v) e h = cc
    Saves-failed f (false, v) e h = h

    -- Writing a run.
    pub saved-Saves :
        (f : Former)
        → Forming nv nm memory limit room done f
        → 0 < length (rows f.tree.root)
        → Saves f (saved f)
    unfolding wrap
    saved-Saves f h p =
        let v = on_disk f.file_of_chunks in
        subst (Saves f) (sym (saved-wrap f))
          (elim (Bool-cases (leb (length (rows f.tree.root)) f.file_of_chunks.room)) [
            | inl e ↦
                subst (λ w. Saves f (wrap f w))
                  (sym (chunk_written (rows f.tree.root) v (ground arith)))
                  (Saved-of f h p (ground arith))
            | inr e ↦
                Saves-failed f (visit_all visit_chunk (rows f.tree.root) v)
                  (chunk_failed (rows f.tree.root) v (ground arith)) (ground arith)
          ])
