-- ===== src/Tftp/Buffers.antt =====
-- tftpsubs.c: the two packet buffers, read-ahead, write-behind, and the netascii conversion. The
-- file's static variables are the record `Bfs`; an `int` that is only ever 0 or 1 is a Bool.
use baseliner_docker.Base.{
  ℕ, zero, suc, List, [], ◌∷◌, Option, none, some, Bool, true, false, not, ◌||◌, ℤ, pos, negsuc,
  pos_part, length, eqb_ℤ, ltb_ℤ, leb_ℤ, ◌==◌, if◌then◌else◌, take,
}
use baseliner_docker.Tftp.Stream.{Source, Sink, getc, read, putc, seek_back, write}

abbrev pub segsize : ℕ
segsize = 512

abbrev pub lf : ℕ
lf = 10

abbrev pub cr : ℕ
cr = 13

abbrev pub nul : ℕ
nul = 0

-- `struct bf`: the counter, and the data bytes that were last put into `buf`.
pub record Buf : Type 0 where
  pub counter : ℤ
  pub bytes : List ℕ

abbrev pub bf_alloc : ℤ
bf_alloc = negsuc 2

abbrev pub bf_free : ℤ
bf_free = negsuc 1

pub record Bfs : Type 0 where
  pub buf0 : Buf
  pub buf1 : Buf
  pub nextone : Bool
  pub current : Bool
  pub newline : Bool
  -- `none` is the initial -1
  pub prevchar : Option ℕ

-- `bfs[i]`
abbrev pub bf : Bool → Bfs → Buf
bf false s = s.buf0
bf true s = s.buf1

abbrev pub set_bf : Bool → Buf → Bfs → Bfs
set_bf false b s = record s { buf0 = b }
set_bf true b s = record s { buf1 = b }

abbrev pub set_counter : Bool → ℤ → Bfs → Bfs
set_counter i n s = set_bf i (record (bf i s) { counter = n }) s

abbrev pub is_free : Buf → Bool
is_free b = eqb_ℤ b.counter bf_free

-- `rw_init(x)`: 0 for write-behind, 1 for read-ahead.
unfoldable pub rw_init : Bool → Bfs → Bfs
rw_init x s = record (set_counter true bf_free (set_counter false bf_alloc s)) {
  newline = false;
  prevchar = none;
  current = false;
  nextone = x;
}

-- What the conversion loop of `read_ahead` leaves behind.
pub record Filled : Type 0 where
  pub out : List ℕ
  pub newline : Bool
  pub prevchar : Option ℕ
  pub file : Source

abbrev pub is_char : Option ℕ → ℕ → Bool
is_char none c = false
is_char (some p) c = p == c

abbrev push_front : ℕ → Filled → Filled
push_front c r = record r { out = c ∷ r.out }

-- The `for` loop of `read_ahead`, by the rounds that are left.
unfoldable pub fill : ℕ → Bool → Option ℕ → Source → Filled
unfolding getc
fill zero nl pc f = record { out = []; newline = nl; prevchar = pc; file = f }
fill (suc n) true pc f = push_front (if is_char pc lf then lf else nul) (fill n false pc f)
fill (suc n) false pc f = elim (getc f) [
  | none ↦ record { out = []; newline = false; prevchar = pc; file = f }
  | some (c, g) ↦
      let special = c == lf || c == cr in
      push_front (if special then cr else c) (fill n special (if special then some c else pc) g)
]

-- What `read_ahead` puts into a free buffer, and what else it changes.
pub record Refill : Type 0 where
  pub buf : Buf
  pub newline : Bool
  pub prevchar : Option ℕ
  pub file : Source

abbrev loaded : Bfs → ℤ × List ℕ × Source → Refill
loaded s (n, bytes, g) = record {
  buf = record { counter = n; bytes = bytes };
  newline = s.newline;
  prevchar = s.prevchar;
  file = g;
}

abbrev converted : Filled → Refill
converted r = record {
  buf = record { counter = pos (length r.out); bytes = r.out };
  newline = r.newline;
  prevchar = r.prevchar;
  file = r.file;
}

unfoldable pub refill : Bool → Bfs → Source → Refill
unfolding read fill
refill convert s f =
    if not convert
    then loaded s (read segsize f)
    else converted (fill segsize s.newline s.prevchar f)

unfoldable pub read_ahead : Bool → Bfs → Source → Bfs × Source
read_ahead convert s f = if not (is_free (bf s.nextone s)) then (s, f) else (
  record (set_bf s.nextone (refill convert s f).buf s) {
    nextone = not s.nextone;
    newline = (refill convert s f).newline;
    prevchar = (refill convert s f).prevchar;
  },
  (refill convert s f).file,
)

-- `readit`: the value returned is the counter; `*dpp` is the buffer `current` of the new state.
unfoldable pub readit : Bool → Bfs → Source → ℤ × Bfs × Source
unfolding read_ahead
readit convert s f =
    let s1 = record (set_counter s.current bf_free s) { current = not s.current } in
    let (s2, g) = if is_free (bf s1.current s1) then read_ahead convert s1 f else (s1, f) in
    ((bf s1.current s2).counter, s2, g)

-- One round of the `while (ct--)` loop of `write_behind`.
unfoldable pub put_char : Option ℕ → ℕ → Sink → Sink
unfolding putc seek_back
put_char pc c f =
    if is_char pc cr
    then (if c == lf then putc c (seek_back f) else if c == nul then f else putc c f)
    else putc c f

unfoldable pub put_all : Option ℕ → List ℕ → Sink → Option ℕ × Sink
unfolding put_char
put_all pc [] f = (pc, f)
put_all pc (c ∷ r) f = put_all (some c) r (put_char pc c f)

-- The bytes of a buffer that its counter covers.
abbrev pub filled : Buf → List ℕ
filled b = take (pos_part b.counter) b.bytes

-- What `write_behind` writes of a buffer: its result, `prevchar` and the file.
unfoldable pub flush : Bool → Buf → Option ℕ → Sink → ℤ × Option ℕ × Sink
flush convert b pc f =
    if leb_ℤ b.counter (pos 0)
    then (negsuc 0, pc, f)
    else if not convert
    then ((write (filled b) f).0, pc, (write (filled b) f).1)
    else (b.counter, (put_all pc (filled b) f).0, (put_all pc (filled b) f).1)

unfoldable pub write_behind : Bool → Bfs → Sink → ℤ × Bfs × Sink
write_behind convert s f =
    let b = bf s.nextone s in
    let r = flush convert b s.prevchar f in
    if ltb_ℤ b.counter (negsuc 0) then (pos 0, s, f) else (
      r.0,
      record (set_counter s.nextone bf_free s) { nextone = not s.nextone; prevchar = r.1 },
      r.2,
    )

-- `writeit`: the value returned is `ct`; `*dpp` is the buffer `current` of the new state.
unfoldable pub writeit : Bool → ℤ → Bfs → Sink → ℤ × Bfs × Sink
writeit convert ct s f =
    let s1 = record (set_counter s.current ct s) { current = not s.current } in
    let r : ℤ × Bfs × Sink =
      if not (is_free (bf s1.current s1)) then write_behind convert s1 f else (pos 0, s1, f) in
    (ct, set_counter (r.1).current bf_alloc r.1, r.2)
