-- ===== src/Dc/Chunks.antt =====
-- extbuild.c: the sorted runs of `fileOfChunks` and the parts of them that are in memory. Sizes and
-- offsets count records. `multiChunkBuffer` is divided among the chunks, regSubChunkSize records to
-- each; the part of a chunk stands with the chunk.
use Prim.Native.Nat.Ordering.{lt, eq, gt}
use baseliner_docker.Base.{
  ℕ, zero, suc, ◌+◌, ◌-◌, ◌%◌, List, [], ◌∷◌, Bool, ltb, leb, ◌==◌, ◌&&◌, if◌then◌else◌, Option,
  none, some, drop, length, ℤ, pos, negsuc, ◌+ℤ◌,
}
use baseliner_docker.Dc.Row.{Row, key_comp}
use baseliner_docker.Dc.Tree.{u32}

-- struct chunks
pub record Chunk : Type 0 where
  pub cur_chunk_num : ℕ
  pub chunk_offset : ℤ
  pub pos_sub_chunk : ℕ
  pub cur_sub_chunk : ℕ
  pub sub_chunk : ℕ → Row

abbrev pub get_or : List Row → ℕ → Row → Row
get_or [] i r = r
get_or (x ∷ xs) zero r = x
get_or (x ∷ xs) (suc i) r = get_or xs i r

-- n records of the file, from the o-th on, are read to the places from k on; past the end of the file
-- nothing is read.
unfoldable pub read_records : List Row → ℕ → ℕ → ℕ → (ℕ → Row) → ℕ → Row
read_records file o k n area i =
    if leb k i && ltb i (k + n) then get_or (drop o file) (i - k) (area i) else area i

-- `SeekAndReadNextSubChunk`; fseek fails at a negative offset, and then the program exits.
unfoldable pub seek_and_read : List Row → ℕ → ℕ → ℤ → Chunk → Option Chunk
seek_and_read file k n (pos o) c =
    some (record c { sub_chunk = read_records file o k n c.sub_chunk })
seek_and_read file k n (negsuc o) c = none

-- `ReadSubChunk`, with regSubChunkSize
unfoldable pub read_sub_chunk : ℕ → List Row → Chunk → Option Chunk
read_sub_chunk size file c =
    if ltb 0 c.cur_chunk_num
    then (if ltb c.cur_chunk_num size
        then elim (seek_and_read file (size - c.cur_chunk_num) c.cur_chunk_num c.chunk_offset c) [
          | none ↦ none
          | some d ↦ some (record d {
            pos_sub_chunk = size - c.cur_chunk_num;
            cur_sub_chunk = c.cur_chunk_num;
            cur_chunk_num = 0;
            chunk_offset = negsuc 0;
          })
        ]
        else elim (seek_and_read file 0 size c.chunk_offset c) [
          | none ↦ none
          | some d ↦ some (record d {
            pos_sub_chunk = 0;
            cur_sub_chunk = size;
            cur_chunk_num = c.cur_chunk_num - size;
            chunk_offset = c.chunk_offset +ℤ pos size;
          })
        ])
    else some c

-- The record that a chunk offers.
abbrev pub offer : Chunk → Row
offer c = c.sub_chunk c.pos_sub_chunk

-- The first loop over the chunks: the first that has a record in memory.
unfoldable pub first_ready : ℕ → List Chunk → Option (Row × ℕ)
first_ready i [] = none
first_ready i (c ∷ cs) =
    let rest = first_ready (i + 1) cs in if ltb 0 c.cur_sub_chunk then some (offer c, i) else rest

-- The second loop: a record that comes before the smallest so far takes its place.
unfoldable pub lower : ℕ → ℕ → Chunk → Row × ℕ → Row × ℕ
lower nv i c (m, k) =
    if ltb 0 c.cur_sub_chunk
    then elim (key_comp (offer c).dims m.dims nv) [ lt ↦ (offer c, i) | eq ↦ (m, k) | gt ↦ (m, k) ]
    else (m, k)

unfoldable pub lowest : ℕ → ℕ → List Chunk → Row × ℕ → Row × ℕ
lowest nv i [] best = best
lowest nv i (c ∷ cs) best = lowest nv (i + 1) cs (lower nv i c best)

-- `min_r_buf` and `min_r_chunk` after both loops.
unfoldable pub choose : ℕ → List Chunk → Row × ℕ → Row × ℕ
choose nv cs old = elim (first_ready 0 cs) [
  | none ↦ lowest nv old.1 (drop old.1 cs) old
  | some best ↦ lowest nv best.1 (drop best.1 cs) best
]

-- "Step forward"
unfoldable pub forward : Chunk → Chunk
forward c = if c.cur_sub_chunk == 0 then c else record c {
  cur_sub_chunk = c.cur_sub_chunk - 1;
  pos_sub_chunk = (c.pos_sub_chunk + 1) % u32;
}

unfoldable pub forward_at : ℕ → List Chunk → List Chunk
forward_at k [] = []
forward_at zero (c ∷ cs) = forward c ∷ cs
forward_at (suc k) (c ∷ cs) = c ∷ forward_at k cs

-- The chunk is read again if nothing of it is in memory.
unfoldable pub refill_at : ℕ → List Row → ℕ → List Chunk → Option (List Chunk)
refill_at size file k [] = some []
refill_at size file zero (c ∷ cs) =
    if c.cur_sub_chunk == 0
    then elim (read_sub_chunk size file c) [ none ↦ none | some d ↦ some (d ∷ cs) ]
    else some (c ∷ cs)
refill_at size file (suc k) (c ∷ cs) = elim (refill_at size file k cs) [
  | none ↦ none
  | some ds ↦ some (c ∷ ds)
]

-- `numEmptyBufs` and `numEmptyRuns`
unfoldable pub num_empty_bufs : List Chunk → ℕ
num_empty_bufs [] = 0
num_empty_bufs (c ∷ cs) =
    let rest = num_empty_bufs cs in if c.cur_sub_chunk == 0 then rest + 1 else rest

unfoldable pub num_empty_runs : List Chunk → ℕ
num_empty_runs [] = 0
num_empty_runs (c ∷ cs) =
    let rest = num_empty_runs cs in if c.cur_chunk_num == 0 then rest + 1 else rest

unfoldable pub all_empty : List Chunk → Bool
all_empty cs = (num_empty_bufs cs == length cs) && (num_empty_runs cs == length cs)

-- The loop that reads the first part of each chunk.
unfoldable pub read_all : ℕ → List Row → List Chunk → Option (List Chunk)
read_all size file [] = some []
read_all size file (c ∷ cs) =
    let rest = read_all size file cs in
    elim (read_sub_chunk size file c) [
      | none ↦ none
      | some d ↦ elim rest [ none ↦ none | some ds ↦ some (d ∷ ds) ]
    ]
