-- ===== src/Tftp/Ahead.antt =====
-- The read side of tftpsubs.c: how `read_ahead` fills the free buffer, for both modes. `todo` is what
-- the client has not yet been given, in wire form.
use mathlib.Core.Path.{subst}
use baseliner_docker.Base.{
  ℕ, ◌≤◌, ◌<◌, List, [], ◌++◌, Option, Bool, true, false, not, ◌≡◌, refl, sym, arith, length, pos,
  take, drop, take-append-drop, length-take, drop_of_length_le,
}
use baseliner_docker.Tftp.Stream.{Source, read}
use baseliner_docker.Tftp.Buffers.{
  Buf, Bfs, bf, bf_free, set_bf, segsize, Refill, refill, read_ahead,
}
use baseliner_docker.Tftp.Netascii.{encode, pending, source, fill-Fills}

-- The wire form of a file, by mode.
abbrev pub wire : Bool → List ℕ → List ℕ
wire true xs = encode xs
wire false xs = xs

-- What no buffer holds yet.
abbrev pub unread : Bool → Bfs → Source → List ℕ
unread true s f = pending s.newline s.prevchar ++ encode f.rest
unread false s f = f.rest

-- A buffer that holds a block, which is short only if nothing comes after it.
pub record Holds (b : Buf) (after : List ℕ) : Type 0 where
  pub counted : b.counter ≡ pos (length b.bytes)
  pub bounded : length b.bytes ≤ segsize
  pub short : length b.bytes < segsize → after ≡ []

-- The buffer in use is the client's, and the other one is free and next to be filled.
pub record Opened (convert : Bool) (todo : List ℕ) (s : Bfs) (f : Source) : Type 0 where
  pub turn : s.nextone ≡ not s.current
  pub free : (bf (not s.current) s).counter ≡ bf_free
  pub rest : unread convert s f ≡ todo
  pub intact : f.broken ≡ false

-- The buffer in use is the client's, and the other one holds the block after it.
pub record Loaded (convert : Bool) (todo : List ℕ) (s : Bfs) (f : Source) : Type 0 where
  pub turn : s.nextone ≡ s.current
  pub holds : Holds (bf (not s.current) s) (unread convert s f)
  pub rest : (bf (not s.current) s).bytes ++ unread convert s f ≡ todo
  pub intact : f.broken ≡ false

read-Holds :
    (r : List ℕ)
    → Holds
        (record { counter = pos (length (take segsize r)); bytes = take segsize r })
        (drop segsize r)
read-Holds r = record {
  counted = refl;
  bounded = omega (arith, length-take segsize r);
  short = λ h. drop_of_length_le segsize r (omega (arith, length-take segsize r));
}

abbrev left_in : Bool → Refill → List ℕ
left_in true r = pending r.newline r.prevchar ++ encode r.file.rest
left_in false r = r.file.rest

pub record Refills (convert : Bool) (todo : List ℕ) (r : Refill) : Type 0 where
  pub holds : Holds r.buf (left_in convert r)
  pub rest : r.buf.bytes ++ left_in convert r ≡ todo
  pub intact : r.file.broken ≡ false

refill-octet : (s : Bfs) (r : List ℕ) → Refills false r (refill false s (source r))
unfolding refill read
refill-octet s r = record { holds = read-Holds r; rest = take-append-drop segsize r; intact = refl }

refill-netascii :
    (s : Bfs) (r : List ℕ)
    → Refills true (pending s.newline s.prevchar ++ encode r) (refill true s (source r))
unfolding refill
refill-netascii s r =
    let h = fill-Fills segsize s.newline s.prevchar r in
    record {
      holds = record { counted = refl; bounded = h.bounded; short = h.short };
      rest = h.whole;
      intact = h.intact;
    }

source-eta : (f : Source) → f.broken ≡ false → f ≡ source f.rest
source-eta f h = λ i. record { rest = f.rest; broken = h i }

pub refill-Refills :
    (convert : Bool) (s : Bfs) (f : Source)
    → f.broken ≡ false
    → Refills convert (unread convert s f) (refill convert s f)
refill-Refills true s f h =
    subst (λ g. Refills true (unread true s g) (refill true s g)) (sym (source-eta f h))
      (refill-netascii s f.rest)
refill-Refills false s f h =
    subst (λ g. Refills false (unread false s g) (refill false s g)) (sym (source-eta f h))
      (refill-octet s f.rest)

read_ahead-free :
    (convert : Bool) (s : Bfs) (f : Source)
    → (bf s.nextone s).counter ≡ bf_free
    → read_ahead convert s f ≡ (
      record (set_bf s.nextone (refill convert s f).buf s) {
        nextone = not s.nextone;
        newline = (refill convert s f).newline;
        prevchar = (refill convert s f).prevchar;
      },
      (refill convert s f).file,
    )
unfolding read_ahead
read_ahead-free convert s f h = rw h

-- The state between two calls: the buffers, which of them is in use, and the conversion flags.
abbrev pub at : Bool → Bool → Buf → Buf → Bool → Option ℕ → Bfs
at turn c b0 b1 nl pc = record {
  buf0 = b0;
  buf1 = b1;
  nextone = turn;
  current = c;
  newline = nl;
  prevchar = pc;
}

abbrev Ahead : Bool → List ℕ → Bfs → Bfs × Source → Type 0
Ahead convert todo s (s', f') =
    Loaded convert todo s' f' × (s'.current ≡ s.current) × (bf s.current s' ≡ bf s.current s)

read_ahead-at :
    (convert c : Bool) (todo : List ℕ) (b0 b1 : Buf) (nl : Bool) (pc : Option ℕ) (f : Source)
    → (bf (not c) (at (not c) c b0 b1 nl pc)).counter ≡ bf_free
    → Refills convert todo (refill convert (at (not c) c b0 b1 nl pc) f)
    → Ahead convert todo
        (at (not c) c b0 b1 nl pc)
        (read_ahead convert (at (not c) c b0 b1 nl pc) f)
read_ahead-at true true todo b0 b1 nl pc f h r =
    rw (read_ahead-free true (at false true b0 b1 nl pc) f h)
      (record { turn = refl; holds = r.holds; rest = r.rest; intact = r.intact }, refl, refl)
read_ahead-at true false todo b0 b1 nl pc f h r =
    rw (read_ahead-free true (at true false b0 b1 nl pc) f h)
      (record { turn = refl; holds = r.holds; rest = r.rest; intact = r.intact }, refl, refl)
read_ahead-at false true todo b0 b1 nl pc f h r =
    rw (read_ahead-free false (at false true b0 b1 nl pc) f h)
      (record { turn = refl; holds = r.holds; rest = r.rest; intact = r.intact }, refl, refl)
read_ahead-at false false todo b0 b1 nl pc f h r =
    rw (read_ahead-free false (at true false b0 b1 nl pc) f h)
      (record { turn = refl; holds = r.holds; rest = r.rest; intact = r.intact }, refl, refl)

pub turn-eta :
    (s : Bfs) {n : Bool} → s.nextone ≡ n → s ≡ at n s.current s.buf0 s.buf1 s.newline s.prevchar
turn-eta s h = λ i. record s { nextone = h i }

pub read_ahead-Opened :
    (convert : Bool) (todo : List ℕ) (s : Bfs) (f : Source)
    → Opened convert todo s f
    → Ahead convert todo s (read_ahead convert s f)
read_ahead-Opened convert todo s f o =
    subst
      (λ t.
        (bf (not s.current) t).counter ≡ bf_free
        → Refills convert todo (refill convert t f)
        → Ahead convert todo t (read_ahead convert t f))
      (sym (turn-eta s o.turn))
      (read_ahead-at convert s.current todo s.buf0 s.buf1 s.newline s.prevchar f) o.free
      (subst (λ l. Refills convert l (refill convert s f)) o.rest
        (refill-Refills convert s f o.intact))
