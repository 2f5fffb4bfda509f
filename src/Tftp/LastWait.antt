-- ===== src/Tftp/LastWait.antt =====
-- tftpd.c: the last wait of `recvfile`, which sends the final acknowledgement once more or not. It
-- looks at the header in the buffer `dp`, so the headers that the two buffers hold are followed here
-- through a session.
use mathlib.Core.Path.{subst}
use baseliner_docker.Base.{
  ℕ, ◌+◌, ◌%◌, ◌^◌, List, [], ◌∷◌, ◌++◌, Bool, true, false, not, ◌&&◌, ℤ, pos, negsuc, eqb_ℤ, leb_ℤ,
  ltb_ℤ, leb, ◌==◌, if◌then◌else◌, ◌-ℤ◌, ◌≡◌, refl, ap, sym, ◌∙◌, arith, Bool-cases, inl, inr,
  if_rule,
}
use baseliner_docker.Tftp.Stream.{Sink}
use baseliner_docker.Tftp.Buffers.{
  Bfs, Buf, bf, set_bf, is_free, set_counter, segsize, rw_init, writeit, write_behind,
}
use baseliner_docker.Tftp.Sender.{
  Status, waiting, finished, aborted, quit, signed16, error_op, maxtimeout, rexmtval,
}
use baseliner_docker.Tftp.Receiver.{
  data_op, Event, packet, recv_failed, alarm, Receiver, send_ack, next_ack, enter, start, finish,
  deposit, on_block, on_packet, on_alarm, handle, dispatch, step, run,
}

-- `th_opcode` and the 16 bits of `th_block`, in the order of the host.
pub record Head : Type 0 where
  pub th_opcode : ℕ
  pub th_block : ℕ

-- The headers that the two buffers hold.
pub record Heads : Type 0 where
  pub head0 : Head
  pub head1 : Head

abbrev pub head_of : Bool → Heads → Head
head_of false h = h.head0
head_of true h = h.head1

abbrev pub set_head : Bool → Head → Heads → Heads
set_head false d h = record h { head0 = d }
set_head true d h = record h { head1 = d }

-- The buffers are static.
abbrev pub no_heads : Heads
no_heads = record {
  head0 = record { th_opcode = 0; th_block = 0 };
  head1 = record { th_opcode = 0; th_block = 0 };
}

-- `recv` writes the header too.
unfoldable pub take_head : Status → Event → Bool → Heads → Heads
take_head waiting (packet op blk n bytes) current h =
    set_head current (record { th_opcode = op; th_block = blk }) h
take_head waiting recv_failed current h = h
take_head waiting alarm current h = h
take_head finished e current h = h
take_head aborted e current h = h
take_head quit e current h = h

unfoldable pub heads : Bool → Receiver → Heads → List (Event × Bool) → Heads
heads convert s h [] = h
heads convert s h ((e, ok) ∷ es) =
    heads convert (step convert s (e, ok)) (take_head s.status e s.bfs.current h) es

-- The end of `recvfile`, where `recv` returns `n`; a timeout exits by `justquit`.
unfoldable pub last_wait : ℤ → Heads → Receiver → Receiver
last_wait n h s =
    let dp = head_of s.bfs.current h in
    if leb_ℤ (pos 4) n && (dp.th_opcode == data_op && eqb_ℤ (pos s.block) (signed16 dp.th_block))
    then record s { acks = s.acks ++ ((s.block % 2 ^ 16, false) ∷ []) }
    else s

set_bf-current : (i : Bool) (b : Buf) (s : Bfs) → (set_bf i b s).current ≡ s.current
set_bf-current false b s = refl
set_bf-current true b s = refl

write_behind-current :
    (convert : Bool) (s : Bfs) (f : Sink) → (write_behind convert s f).1.current ≡ s.current
unfolding write_behind
write_behind-current convert s f =
    if_rule {A = ℤ × Bfs × Sink} (λ r. r.1.current ≡ s.current)
      (ltb_ℤ (bf s.nextone s).counter (negsuc 0)) refl (set_bf-current s.nextone _ s)

writeit-current :
    (convert : Bool) (n : ℤ) (s : Bfs) (f : Sink)
    → (writeit convert n s f).1.current ≡ not s.current
unfolding writeit
writeit-current convert n s f =
    let s1 = record (set_counter s.current n s) { current = not s.current } in
    set_bf-current _ _ _
    ∙ if_rule {A = ℤ × Bfs × Sink} (λ r. r.1.current ≡ not s.current)
        (not (is_free (bf s1.current s1))) (write_behind-current convert s1 f) refl

other_head :
    (c : Bool) (d : Head) (h : Heads) → head_of (not c) (set_head c d h) ≡ head_of (not c) h
other_head false d h = refl
other_head true d h = refl

head_behind : (c : Bool) (d : Head) (h : Heads) → head_of (not (not c)) (set_head c d h) ≡ d
head_behind false d h = refl
head_behind true d h = refl

-- A header that is not that of the given block.
abbrev Stale : ℕ → Head → Type 0
Stale block d = (d.th_opcode == data_op && eqb_ℤ (pos block) (signed16 d.th_block)) ≡ false

-- The buffer that is not in use holds an older block, and so does the one in use after the loop.
abbrev Held : Status → Heads → Receiver → Type 0
Held waiting h s = Stale s.block (head_of (not s.bfs.current) h)
Held finished h s = Stale s.block (head_of s.bfs.current h)
Held aborted h s = Unit
Held quit h s = Unit

abbrev Keeps : Heads → Receiver → Type 0
Keeps h s = Held s.status h s

send_ack-Keeps :
    (convert ok : Bool) (h : Heads) (s : Receiver)
    → Held waiting h s
    → Keeps h (send_ack convert ok s)
unfolding send_ack
send_ack-Keeps convert true h s a = rw (write_behind-current convert s.bfs s.file) a
send_ack-Keeps convert false h s a = tt

finish-Keeps :
    (convert : Bool) (h : Heads) (s : Receiver) → Held finished h s → Keeps h (finish convert s)
unfolding finish
finish-Keeps convert h s a = rw (write_behind-current convert s.bfs s.file) a

later : (block : ℕ) (z : ℤ) → eqb_ℤ z (pos block) ≡ true → eqb_ℤ (pos (block + 1)) z ≡ false
later block z e = ground (arith, e)

and_false : (b : Bool) → (b && false) ≡ false
and_false true = refl
and_false false = refl

on_block-Keeps :
    (convert ok : Bool) (n : ℤ) (bytes : List ℕ) (op blk : ℕ) (h : Heads) (s : Receiver)
    → Held waiting h s
    → eqb_ℤ (signed16 blk) (pos s.block) ≡ true
    → Keeps
        (set_head s.bfs.current (record { th_opcode = op; th_block = blk }) h)
        (on_block convert ok n bytes s)
unfolding on_block next_ack
on_block-Keeps convert ok n bytes op blk h s a e =
    let d : Head = record { th_opcode = op; th_block = blk } in
    let h' = set_head s.bfs.current d h in
    let w = writeit convert n (deposit bytes s.bfs) s.file in
    let c : w.1.current ≡ not s.bfs.current =
      writeit-current convert n (deposit bytes s.bfs) s.file
      ∙ ap not (set_bf-current s.bfs.current _ s.bfs) in
    let s' = record s { confirmed = true; bfs = w.1; file = w.2 } in
    let q : head_of (not w.1.current) h' ≡ d =
      ap (λ i. head_of (not i) h') c ∙ head_behind s.bfs.current d h in
    let q' : head_of w.1.current h' ≡ head_of (not s.bfs.current) h =
      ap (λ i. head_of i h') c ∙ other_head s.bfs.current d h in
    let new =
      ap (λ t. op == data_op && t) (later s.block (signed16 blk) e) ∙ and_false (op == data_op) in
    if_rule (Keeps h') (not (eqb_ℤ w.0 n)) tt (
      if_rule (Keeps h') (eqb_ℤ w.0 (pos segsize))
        (send_ack-Keeps convert ok h' (record s' { timeout = 0; block = s.block + 1 })
          (subst (Stale (s.block + 1)) (sym q) new))
        (finish-Keeps convert h' s' (subst (Stale s.block) (sym q') a)))

module _ (convert ok : Bool) (h : Heads) (s : Receiver) (w : s.status ≡ waiting)
    (a : Held waiting h s) where
  deposit-Keeps :
      (bytes : List ℕ) (d : Head)
      → Held waiting (set_head s.bfs.current d h) (record s { bfs = deposit bytes s.bfs })
  deposit-Keeps bytes d =
      subst (Stale s.block)
        (sym (
          ap (λ i. head_of (not i) (set_head s.bfs.current d h))
            (set_bf-current s.bfs.current _ s.bfs)
          ∙ other_head s.bfs.current d h))
        a

  on_packet-Keeps :
      (op blk : ℕ) (n : ℤ) (bytes : List ℕ)
      → Keeps
          (set_head s.bfs.current (record { th_opcode = op; th_block = blk }) h)
          (on_packet convert ok op blk n bytes s)
  unfolding on_packet
  on_packet-Keeps op blk n bytes =
      let h' = set_head s.bfs.current (record { th_opcode = op; th_block = blk }) h in
      let s' = record s { bfs = deposit bytes s.bfs } in
      let still = deposit-Keeps bytes (record { th_opcode = op; th_block = blk }) in
      let kept : Keeps h' s' = subst (λ st. Held st h' s') (sym w) still in
      if_rule (Keeps h') (op == error_op) tt (
        if_rule (Keeps h') (op == data_op)
          (elim (Bool-cases (eqb_ℤ (signed16 blk) (pos s.block))) [
            | inl c ↦ rw c (on_block-Keeps convert ok n bytes op blk h s a c)
            | inr c ↦ rw c (
                if_rule (Keeps h') (eqb_ℤ (signed16 blk) (pos s.block -ℤ pos 1))
                  (send_ack-Keeps convert ok h' s' still) kept)
          ])
          kept)

  on_alarm-Keeps : Keeps h (on_alarm convert ok s)
  unfolding on_alarm
  on_alarm-Keeps = if_rule (Keeps h) (leb maxtimeout (s.timeout + rexmtval)) tt (
      send_ack-Keeps convert ok h (record s { confirmed = false; timeout = s.timeout + rexmtval })
        a)

  handle-Keeps : (e : Event) → Keeps (take_head waiting e s.bfs.current h) (handle convert ok e s)
  unfolding handle take_head
  handle-Keeps (packet op blk n bytes) = on_packet-Keeps op blk n bytes
  handle-Keeps recv_failed = tt
  handle-Keeps alarm = on_alarm-Keeps

dispatch-Keeps :
    (convert ok : Bool) (st : Status) (e : Event) (h : Heads) (s : Receiver)
    → s.status ≡ st
    → Held st h s
    → Keeps (take_head st e s.bfs.current h) (dispatch convert st (e, ok) s)
unfolding dispatch take_head
dispatch-Keeps convert ok waiting e h s w a = handle-Keeps convert ok h s w a e
dispatch-Keeps convert ok finished e h s w a = subst (λ st. Held st h s) (sym w) a
dispatch-Keeps convert ok aborted e h s w a = subst (λ st. Held st h s) (sym w) a
dispatch-Keeps convert ok quit e h s w a = subst (λ st. Held st h s) (sym w) a

run-Keeps :
    (convert : Bool) (es : List (Event × Bool)) (h : Heads) (s : Receiver)
    → Keeps h s
    → Keeps (heads convert s h es) (run convert s es)
unfolding heads run step
run-Keeps convert [] h s a = a
run-Keeps convert ((e, ok) ∷ es) h s a =
    run-Keeps convert es _ _ (dispatch-Keeps convert ok s.status e h s refl a)

none_held : (i : Bool) → Stale 1 (head_of i no_heads)
none_held false = refl
none_held true = refl

start-Keeps : (convert ok : Bool) (b : Bfs) (f : Sink) → Keeps no_heads (start convert ok b f)
unfolding start next_ack
start-Keeps convert ok b f =
    send_ack-Keeps convert ok no_heads (record (enter b f) { timeout = 0; block = 1 })
      (none_held (not (rw_init false b).current))

-- Whatever the client, the network and the clock did until the loop of `recvfile` ended, and whatever
-- `recv` returns in the last wait, the final acknowledgement is not sent once more: `dp` holds the
-- header of an older block, or none.
pub last_wait-run :
    (convert ok : Bool) (b : Bfs) (f : Sink) (es : List (Event × Bool)) (n : ℤ)
    → let s = run convert (start convert ok b f) es in
      s.status ≡ finished → last_wait n (heads convert (start convert ok b f) no_heads es) s ≡ s
unfolding last_wait
last_wait-run convert ok b f es n w =
    let s = run convert (start convert ok b f) es in
    let h = heads convert (start convert ok b f) no_heads es in
    let k : Stale s.block (head_of s.bfs.current h) =
      subst (λ st. Held st h s) w
        (run-Keeps convert es no_heads (start convert ok b f) (start-Keeps convert ok b f)) in
    rw (ap (λ t. leb_ℤ (pos 4) n && t) k ∙ and_false (leb_ℤ (pos 4) n)) refl
