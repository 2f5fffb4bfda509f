-- ===== src/Dc/Reading.antt =====
-- extbuild.c: `ReadSubChunk` brings the next records of a chunk into memory and loses none.
use mathlib.Core.Path.{subst}
use baseliner_docker.Base.{
  ℕ, zero, suc, ◌+◌, ◌-◌, ◌<◌, ◌≤◌, List, [], ◌∷◌, ◌++◌, true, false, ltb, leb, ltb→lt, lt→ltb,
  ◌&&◌, ◌≡◌, refl, sym, ap, ap₂, ◌∙◌, arith, inl, inr, Bool-cases, some, take, drop, length, ℤ, pos,
  negsuc, ◌+ℤ◌, pos_part, ◌⊎◌, append-nil, drop_of_length_le, take_of_length_le, int_laws, neg_part,
}
use baseliner_docker.Dc.Row.{Row}
use baseliner_docker.Dc.Chunks.{Chunk, get_or, read_records, seek_and_read, read_sub_chunk}

-- The records at n places from k on.
abbrev pub slice : (ℕ → Row) → ℕ → ℕ → List Row
slice area k zero = []
slice area k (suc n) = area k ∷ slice area (suc k) n

-- The records of a chunk that are still on the file, and all that it still has.
abbrev pub rest : List Row → Chunk → List Row
rest file c = take c.cur_chunk_num (drop (pos_part c.chunk_offset) file)

abbrev pub pending : List Row → Chunk → List Row
pending file c = slice c.sub_chunk c.pos_sub_chunk c.cur_sub_chunk ++ rest file c

-- What is on the file is where the chunk says.
pub record OnFile (file : List Row) (c : Chunk) : Type 0 where
  pub place : 0 < c.cur_chunk_num → c.chunk_offset ≡ pos (pos_part c.chunk_offset)
  pub within : pos_part c.chunk_offset + c.cur_chunk_num ≤ length file ⊎ (c.cur_chunk_num ≡ 0)

-- Its part in memory ends where its share of the buffer ends.
pub record Kept (size : ℕ) (file : List Row) (c : Chunk) : Type 0 where
  pub on_file : OnFile file c
  pub slots : c.pos_sub_chunk + c.cur_sub_chunk ≡ size

-- It has a record in memory, or none at all.
abbrev pub Ready : Chunk → Type 0
Ready c = (0 < c.cur_sub_chunk) ⊎ (c.cur_chunk_num ≡ 0)

slice-take :
    (area : ℕ → Row) (k n : ℕ) (xs : List Row)
    → n ≤ length xs
    → ((i : ℕ) → i < n → area (k + i) ≡ get_or xs i (area (k + i)))
    → slice area k n ≡ take n xs
slice-take area k zero xs h f = refl
slice-take area k (suc n) [] h f = absurd (omega arith)
slice-take area k (suc n) (x ∷ xs) h f =
    ap₂ (λ (y : Row) ys. y ∷ ys) (subst (λ j. area j ≡ x) (omega arith) (f 0 (omega arith)))
      (slice-take area (suc k) n xs (omega arith)
        (λ i p. subst (λ j. area j ≡ get_or xs i (area j)) (omega arith) (f (suc i) (omega arith))))

drop-drop : (a b : ℕ) (xs : List Row) → drop (a + b) xs ≡ drop b (drop a xs)
drop-drop zero b xs = ap (λ k. drop k xs) (omega arith)
drop-drop (suc a) b [] =
    drop_of_length_le (suc a + b) [] (omega arith) ∙ sym (drop_of_length_le b [] (omega arith))
drop-drop (suc a) b (x ∷ xs) =
    let e : suc a + b ≡ suc (a + b) = omega arith in ap (λ k. drop k (x ∷ xs)) e ∙ drop-drop a b xs

take-add : (a b : ℕ) (xs : List Row) → take a xs ++ take b (drop a xs) ≡ take (a + b) xs
take-add zero b xs = ap (λ k. take k xs) (omega arith)
take-add (suc a) b [] =
    take_of_length_le b [] (omega arith) ∙ sym (take_of_length_le (suc a + b) [] (omega arith))
take-add (suc a) b (x ∷ xs) =
    let e : suc a + b ≡ suc (a + b) = omega arith in
    ap (λ r. x ∷ r) (take-add a b xs) ∙ ap (λ k. take k (x ∷ xs)) (sym e)

pub length-drop : (a : ℕ) (xs : List Row) → length (drop a xs) ≡ length xs - a
length-drop zero xs = omega arith
length-drop (suc a) [] = omega arith
length-drop (suc a) (x ∷ xs) = omega (arith, length-drop a xs)

-- get_or past nothing: the record read is that of the file whatever was there.
get_or_in : (xs : List Row) (i : ℕ) (r s : Row) → i < length xs → get_or xs i r ≡ get_or xs i s
get_or_in [] i r s h = absurd (omega arith)
get_or_in (x ∷ xs) zero r s h = refl
get_or_in (x ∷ xs) (suc i) r s h = get_or_in xs i r s (omega arith)

read_one :
    (file : List Row) (o k n : ℕ) (area : ℕ → Row) (i : ℕ)
    → i < length (drop o file)
    → i < n
    → read_records file o k n area (k + i)
      ≡ get_or (drop o file) i (read_records file o k n area (k + i))
unfolding read_records
read_one file o k n area i h p =
    let there : (leb k (k + i) && ltb (k + i) (k + n)) ≡ true = ground arith in
    let back : k + i - k ≡ i = omega arith in
    rw (there, back) (get_or_in (drop o file) i (area (k + i)) _ h)

slice-read_records :
    (file : List Row) (o k n : ℕ) (area : ℕ → Row)
    → o + n ≤ length file
    → slice (read_records file o k n area) k n ≡ take n (drop o file)
unfolding read_records
slice-read_records file o k n area h =
    slice-take (read_records file o k n area) k n (drop o file) (omega (arith, length-drop o file))
      (λ i p. read_one file o k n area i (omega (arith, length-drop o file)) p)

-- A read from the file, of n records.
seek_lem :
    (file : List Row) (k n : ℕ) (c : Chunk)
    → c.chunk_offset ≡ pos (pos_part c.chunk_offset)
    → seek_and_read file k n c.chunk_offset c
      ≡ some (record c { sub_chunk = read_records file (pos_part c.chunk_offset) k n c.sub_chunk })
unfolding seek_and_read
seek_lem file k n c h = step c.chunk_offset h
  where
    step :
        (z : ℤ)
        → z ≡ pos (pos_part z)
        → seek_and_read file k n z c
          ≡ some (record c { sub_chunk = read_records file (pos_part z) k n c.sub_chunk })
    step (pos o) e = refl
    step (negsuc o) e = cc

-- The chunk after a read.
pub record Reread (size : ℕ) (file : List Row) (c : Chunk) (d : Chunk) : Type 0 where
  pub kept : Kept size file d
  pub ready : Ready d
  pub same : pending file d ≡ rest file c

fits :
    (file : List Row) (c : Chunk)
    → OnFile file c
    → 0 < c.cur_chunk_num
    → pos_part c.chunk_offset + c.cur_chunk_num ≤ length file
fits file c f h = elim f.within [ inl p ↦ p | inr e ↦ absurd (omega arith) ]

not_ltb : (a b : ℕ) → b ≤ a → ltb a b ≡ false
not_ltb a b h = ground arith

onward : (z : ℤ) (n : ℕ) → z ≡ pos (pos_part z) → z +ℤ pos n ≡ pos (pos_part z + n)
onward z n h = omega (int_laws, ap neg_part h)

read_last :
    (size : ℕ) (file : List Row) (c : Chunk)
    → OnFile file c
    → 0 < c.cur_chunk_num
    → c.cur_chunk_num < size
    → (d : Chunk) × (read_sub_chunk size file c ≡ some d) × Reread size file c d
unfolding read_sub_chunk
read_last size file c f h l =
    let n = c.cur_chunk_num in
    let o = pos_part c.chunk_offset in
    let k = size - n in
    let d : Chunk = record {
      cur_chunk_num = 0;
      chunk_offset = negsuc 0;
      pos_sub_chunk = k;
      cur_sub_chunk = n;
      sub_chunk = read_records file o k n c.sub_chunk;
    } in
    (
      d,
      rw (lt→ltb 0 n h, lt→ltb n size l, seek_lem file k n c (f.place h)) refl,
      record {
        kept = record {
          on_file = record { place = λ p. absurd (omega arith); within = inr refl };
          slots = omega arith;
        };
        ready = inr refl;
        same = append-nil _ ∙ slice-read_records file o k n c.sub_chunk (fits file c f h);
      },
    )

read_part :
    (size : ℕ) (file : List Row) (c : Chunk)
    → OnFile file c
    → 0 < size
    → size ≤ c.cur_chunk_num
    → (d : Chunk) × (read_sub_chunk size file c ≡ some d) × Reread size file c d
unfolding read_sub_chunk
read_part size file c f h l =
    let n = c.cur_chunk_num in
    let o = pos_part c.chunk_offset in
    let d : Chunk = record {
      cur_chunk_num = n - size;
      chunk_offset = c.chunk_offset +ℤ pos size;
      pos_sub_chunk = 0;
      cur_sub_chunk = size;
      sub_chunk = read_records file o 0 size c.sub_chunk;
    } in
    let more : 0 < n = omega arith in
    let e = onward c.chunk_offset size (f.place more) in
    let all = fits file c f more in
    (
      d,
      rw (lt→ltb 0 n more, not_ltb n size l, seek_lem file 0 size c (f.place more)) refl,
      record {
        kept = record {
          on_file = record {
            place = λ p. e ∙ ap pos (sym (ap pos_part e));
            within = inl (omega (arith, ap pos_part e));
          };
          slots = omega arith;
        };
        ready = inl h;
        same =
            ap₂ (λ xs q. xs ++ take (n - size) (drop q file))
              (slice-read_records file o 0 size c.sub_chunk (omega (arith, all))) (ap pos_part e)
            ∙ ap (λ ys. take size (drop o file) ++ take (n - size) ys) (drop-drop o size file)
            ∙ take-add size (n - size) (drop o file)
            ∙ ap (λ k. take k (drop o file)) (omega arith);
      },
    )

-- `ReadSubChunk` on a chunk of which nothing is in memory.
pub read_sub_chunk-Reread :
    (size : ℕ) (file : List Row) (c : Chunk)
    → OnFile file c
    → 0 < size
    → 0 < c.cur_chunk_num
    → (d : Chunk) × (read_sub_chunk size file c ≡ some d) × Reread size file c d
read_sub_chunk-Reread size file c f h l = elim (Bool-cases (ltb c.cur_chunk_num size)) [
  | inl e ↦ read_last size file c f l (ltb→lt _ _ e)
  | inr e ↦ read_part size file c f h (ground arith)
]
