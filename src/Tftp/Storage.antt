-- ===== src/Tftp/Storage.antt =====
-- What `recvfile` leaves in the file, against a receiver without buffers.
use mathlib.Core.Path.{subst, subst₂}
use mathlib.Core.List.{reverse_aux, reverse_aux-append, reverse-reverse}
use baseliner_docker.Base.{
  ℕ, suc, List, [], ◌∷◌, ◌++◌, Bool, true, false, not, ◌≡◌, refl, ap, Option, none, sym, ◌∙◌, arith,
  length, append-nil, ℤ, pos, negsuc, ltb_ℤ, leb_ℤ, take_of_length_le,
}
use baseliner_docker.Tftp.Stream.{Sink, putc, write, put_bytes}
use baseliner_docker.Tftp.Buffers.{
  Buf, Bfs, bf, flush, rw_init, writeit, write_behind, put_all, bf_alloc, bf_free,
}
use baseliner_docker.Tftp.Netascii.{sink, contents, put_all-append, put_all-encode}
use baseliner_docker.Tftp.Ahead.{at, turn-eta, wire}
use baseliner_docker.Tftp.Receiver.{deposit}

-- The last character and the file after these bytes have been taken from the wire.
abbrev pub stored : Bool → List ℕ → Option ℕ × Sink
stored true got = put_all none got (sink [])
stored false got = (none, sink (reverse_aux got []))

-- In the wait: the buffer in use is the packet's, the other one has been written.
pub record Idle (convert : Bool) (got : List ℕ) (b : Bfs) (f : Sink) : Type 0 where
  pub turn : b.nextone ≡ b.current
  pub mine : (bf b.current b).counter ≡ bf_alloc
  pub free : (bf (not b.current) b).counter ≡ bf_free
  pub file : (b.prevchar, f) ≡ stored convert got

-- After `writeit`: the other buffer holds a block to be written.
pub record Behind (convert : Bool) (got bytes : List ℕ) (b : Bfs) (f : Sink) : Type 0 where
  pub turn : b.nextone ≡ not b.current
  pub mine : (bf b.current b).counter ≡ bf_alloc
  pub holds : bf (not b.current) b ≡ record { counter = pos (length bytes); bytes = bytes }
  pub file : (b.prevchar, f) ≡ stored convert got

put_bytes-sink : (xs b : List ℕ) → put_bytes xs (sink b) ≡ sink (reverse_aux xs b)
unfolding put_bytes putc
put_bytes-sink [] b = refl
put_bytes-sink (x ∷ xs) b = put_bytes-sink xs (x ∷ b)

stored-append :
    (got bytes : List ℕ)
    → put_all (stored true got).0 bytes (stored true got).1 ≡ stored true (got ++ bytes)
stored-append got bytes = sym (put_all-append none got bytes (sink []))

write-stored :
    (got bytes : List ℕ) → (write bytes (stored false got).1).1 ≡ (stored false (got ++ bytes)).1
unfolding write
write-stored got bytes =
    put_bytes-sink bytes (reverse_aux got []) ∙ ap sink (sym (reverse_aux-append got bytes []))

-- What has been stored of the wire form of a text is the text.
pub contents-stored :
    (convert : Bool) (text : List ℕ) → contents (stored convert (wire convert text)).1 ≡ text
contents-stored true text = rw ((put_all-encode text none [] refl).0) (reverse-reverse text)
contents-stored false text = reverse-reverse text

abbrev pub block : List ℕ → Buf
block bytes = record { counter = pos (length bytes); bytes = bytes }

some_bytes : (k : ℕ) → leb_ℤ (pos (suc k)) (pos 0) ≡ false
some_bytes k = ground arith

no_flag : (k : ℕ) → ltb_ℤ (pos k) (negsuc 0) ≡ false
no_flag k = ground arith

flush-stored :
    (convert : Bool) (got bytes : List ℕ)
    → (let (n, pc, g) = flush convert (block bytes) (stored convert got).0 (stored convert got).1 in
        (pc, g))
      ≡ stored convert (got ++ bytes)
unfolding flush
flush-stored convert got [] = ap (stored convert) (sym (append-nil got))
flush-stored true got (x ∷ xs) =
    rw (some_bytes (length xs), take_of_length_le (length xs) xs (omega arith))
      (stored-append got (x ∷ xs))
flush-stored false got (x ∷ xs) =
    rw (some_bytes (length xs), take_of_length_le (length xs) xs (omega arith))
      (ap (λ f. (none, f)) (write-stored got (x ∷ xs)))

unfoldable pub Written : Bool → List ℕ → ℤ × Bfs × Sink → Type 0
Written convert got (n, b, f) = Idle convert got b f

write_behind-at :
    (convert c : Bool) (got bytes : List ℕ) (b0 b1 : Buf) (nl : Bool)
    → (bf c (at (not c) c b0 b1 nl none)).counter ≡ bf_alloc
    → bf (not c) (at (not c) c b0 b1 nl none) ≡ block bytes
    → Written convert
        (got ++ bytes)
        (write_behind convert (at (not c) c b0 b1 nl (stored convert got).0) (stored convert got).1)
unfolding write_behind Written
write_behind-at convert true got bytes b0 b1 nl a h =
    rw (h, no_flag (length bytes))
      (record { turn = refl; mine = a; free = refl; file = flush-stored convert got bytes })
write_behind-at convert false got bytes b0 b1 nl a h =
    rw (h, no_flag (length bytes))
      (record { turn = refl; mine = a; free = refl; file = flush-stored convert got bytes })

state-eta :
    (b : Bfs) {n : Bool} {pc : Option ℕ}
    → b.nextone ≡ n
    → b.prevchar ≡ pc
    → b ≡ at n b.current b.buf0 b.buf1 b.newline pc
state-eta b h k = λ i. record b { nextone = h i; prevchar = k i }

mine-at :
    (c : Bool) (b : Bfs) (n : Bool)
    → (bf c b).counter ≡ bf_alloc
    → (bf c (at n c b.buf0 b.buf1 b.newline none)).counter ≡ bf_alloc
mine-at true b n h = h
mine-at false b n h = h

holds-at :
    (c : Bool) (b : Bfs) (n : Bool) (bytes : List ℕ)
    → bf (not c) b ≡ block bytes
    → bf (not c) (at n c b.buf0 b.buf1 b.newline none) ≡ block bytes
holds-at true b n bytes h = h
holds-at false b n bytes h = h

pub write_behind-Behind :
    (convert : Bool) (got bytes : List ℕ) (b : Bfs) (f : Sink)
    → Behind convert got bytes b f
    → Written convert (got ++ bytes) (write_behind convert b f)
write_behind-Behind convert got bytes b f h =
    subst₂ (λ s g. Written convert (got ++ bytes) (write_behind convert s g))
      (sym (state-eta b h.turn (ap (λ t. t.0) h.file))) (sym (ap (λ t. t.1) h.file))
      (write_behind-at convert b.current got bytes b.buf0 b.buf1 b.newline
        (mine-at b.current b (not b.current) h.mine)
        (holds-at b.current b (not b.current) bytes h.holds))

pub write_behind-Idle :
    (convert : Bool) (got : List ℕ) (b : Bfs) (f : Sink)
    → Idle convert got b f
    → write_behind convert b f ≡ (pos 0, b, f)
unfolding write_behind
write_behind-Idle convert got b f h = rw (ap (λ c. (bf c b).counter) h.turn ∙ h.mine)

writeit-at :
    (convert c : Bool) (got bytes : List ℕ) (b0 b1 : Buf) (nl : Bool) (pc : Option ℕ) (f : Sink)
    → Idle convert got (at c c b0 b1 nl pc) f
    → (let (n, b', f') =
          writeit convert (pos (length bytes)) (deposit bytes (at c c b0 b1 nl pc)) f in
        Behind convert got bytes b' f')
unfolding writeit
writeit-at convert true got bytes b0 b1 nl pc f h =
    rw h.free (record { turn = refl; mine = refl; holds = refl; file = h.file })
writeit-at convert false got bytes b0 b1 nl pc f h =
    rw h.free (record { turn = refl; mine = refl; holds = refl; file = h.file })

pub writeit-Idle :
    (convert : Bool) (got bytes : List ℕ) (b : Bfs) (f : Sink)
    → Idle convert got b f
    → (let (n, b', f') = writeit convert (pos (length bytes)) (deposit bytes b) f in
        Behind convert got bytes b' f')
writeit-Idle convert got bytes b f h =
    subst
      (λ t.
        Idle convert got t f
        → (let (n, b', f') = writeit convert (pos (length bytes)) (deposit bytes t) f in
            Behind convert got bytes b' f'))
      (sym (turn-eta b h.turn))
      (writeit-at convert b.current got bytes b.buf0 b.buf1 b.newline b.prevchar f) h

-- A packet that is not taken changes only the data of the buffer in use.
deposit-at :
    (convert c : Bool) (got bytes : List ℕ) (b0 b1 : Buf) (nl : Bool) (pc : Option ℕ) (f : Sink)
    → Idle convert got (at c c b0 b1 nl pc) f
    → Idle convert got (deposit bytes (at c c b0 b1 nl pc)) f
deposit-at convert true got bytes b0 b1 nl pc f h = record {
  turn = refl;
  mine = h.mine;
  free = h.free;
  file = h.file;
}
deposit-at convert false got bytes b0 b1 nl pc f h = record {
  turn = refl;
  mine = h.mine;
  free = h.free;
  file = h.file;
}

pub deposit-Idle :
    (convert : Bool) (got bytes : List ℕ) (b : Bfs) (f : Sink)
    → Idle convert got b f
    → Idle convert got (deposit bytes b) f
deposit-Idle convert got bytes b f h =
    subst (λ t. Idle convert got t f → Idle convert got (deposit bytes t) f)
      (sym (turn-eta b h.turn))
      (deposit-at convert b.current got bytes b.buf0 b.buf1 b.newline b.prevchar f) h

pub rw_init-Idle : (convert : Bool) (b : Bfs) → Idle convert [] (rw_init false b) (sink [])
unfolding rw_init
rw_init-Idle true b =
    unfold put_all in (record { turn = refl; mine = refl; free = refl; file = refl })
rw_init-Idle false b = record { turn = refl; mine = refl; free = refl; file = refl }
