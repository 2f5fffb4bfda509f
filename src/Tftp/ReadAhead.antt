-- ===== src/Tftp/ReadAhead.antt =====
-- The read side of tftpsubs.c: what `readit` hands out, for both modes.
use mathlib.Core.Path.{subst}
use baseliner_docker.Base.{
  ℕ, List, ◌++◌, Option, none, Bool, true, false, not, ◌≡◌, refl, sym, arith, ℤ, pos,
}
use baseliner_docker.Tftp.Stream.{Source}
use baseliner_docker.Tftp.Buffers.{Buf, Bfs, bf, bf_free, is_free, read_ahead, readit, rw_init}
use baseliner_docker.Tftp.Netascii.{source}
use baseliner_docker.Tftp.Ahead.{wire, unread, Holds, Opened, Loaded, refill-Refills, at, turn-eta}

-- What `readit` hands out: the next block of what was left, in the buffer then in use; a short block
-- is the last, and the other buffer is free.
pub record Gives (convert : Bool) (todo : List ℕ) (n : ℤ) (s : Bfs) (f : Source) : Type 0 where
  pub holds : Holds (bf s.current s) (unread convert s f)
  pub count : n ≡ (bf s.current s).counter
  pub rest : (bf s.current s).bytes ++ unread convert s f ≡ todo
  pub opened : Opened convert (unread convert s f) s f

abbrev Given : Bool → List ℕ → ℤ × Bfs × Source → Type 0
Given convert todo (n, s, f) = Gives convert todo n s f

not_free : (b : Buf) (n : ℕ) → b.counter ≡ pos n → is_free b ≡ false
not_free b n h = rw h (ground arith)

readit-at :
    (convert c : Bool) (b0 b1 : Buf) (nl : Bool) (pc : Option ℕ) (f : Source)
    → Loaded convert
        ((bf (not c) (at c c b0 b1 nl pc)).bytes ++ unread convert (at c c b0 b1 nl pc) f)
        (at c c b0 b1 nl pc)
        f
    → Given convert
        ((bf (not c) (at c c b0 b1 nl pc)).bytes ++ unread convert (at c c b0 b1 nl pc) f)
        (readit convert (at c c b0 b1 nl pc) f)
unfolding readit
readit-at true true b0 b1 nl pc f l = rw (not_free b0 _ l.holds.counted) (record {
  holds = l.holds;
  count = refl;
  rest = refl;
  opened = record { turn = refl; free = refl; rest = refl; intact = l.intact };
})
readit-at true false b0 b1 nl pc f l = rw (not_free b1 _ l.holds.counted) (record {
  holds = l.holds;
  count = refl;
  rest = refl;
  opened = record { turn = refl; free = refl; rest = refl; intact = l.intact };
})
readit-at false true b0 b1 nl pc f l = rw (not_free b0 _ l.holds.counted) (record {
  holds = l.holds;
  count = refl;
  rest = refl;
  opened = record { turn = refl; free = refl; rest = refl; intact = l.intact };
})
readit-at false false b0 b1 nl pc f l = rw (not_free b1 _ l.holds.counted) (record {
  holds = l.holds;
  count = refl;
  rest = refl;
  opened = record { turn = refl; free = refl; rest = refl; intact = l.intact };
})

pub readit-Loaded :
    (convert : Bool) (todo : List ℕ) (s : Bfs) (f : Source)
    → Loaded convert todo s f
    → Given convert todo (readit convert s f)
readit-Loaded convert todo s f l =
    subst (λ t. Given convert t (readit convert s f)) l.rest
      (subst
        (λ t.
          Loaded convert ((bf (not s.current) t).bytes ++ unread convert t f) t f
          → Given convert ((bf (not s.current) t).bytes ++ unread convert t f) (readit convert t f))
        (sym (turn-eta s l.turn)) (readit-at convert s.current s.buf0 s.buf1 s.newline s.prevchar f)
        (subst (λ t. Loaded convert t s f) (sym l.rest) l))

abbrev first_state : Bfs → Bfs
first_state s =
    at true true (record { counter = bf_free; bytes = s.buf0.bytes })
      (record { counter = bf_free; bytes = s.buf1.bytes }) false none

-- The first call after `r_init`.
pub readit-rw_init :
    (convert : Bool) (s : Bfs) (r : List ℕ)
    → Given convert (wire convert r) (readit convert (rw_init true s) (source r))
unfolding readit rw_init
readit-rw_init true s r =
    let h = refill-Refills true (first_state s) (source r) refl in
    record {
      holds = h.holds;
      count = refl;
      rest = h.rest;
      opened = record { turn = refl; free = refl; rest = refl; intact = h.intact };
    }
readit-rw_init false s r =
    let h = refill-Refills false (first_state s) (source r) refl in
    record {
      holds = h.holds;
      count = refl;
      rest = h.rest;
      opened = record { turn = refl; free = refl; rest = refl; intact = h.intact };
    }

-- With both buffers full `read_ahead` does nothing.
pub read_ahead-Loaded :
    (convert : Bool) (todo : List ℕ) (s : Bfs) (f : Source)
    → Loaded convert todo s f
    → s.current ≡ s.nextone
    → (n : ℕ) → (bf s.nextone s).counter ≡ pos n
    → read_ahead convert s f ≡ (s, f)
unfolding read_ahead
read_ahead-Loaded convert todo s f l e n h = rw (not_free (bf s.nextone s) n h)
