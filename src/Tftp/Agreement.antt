-- ===== src/Tftp/Agreement.antt =====
-- Each event keeps `recvfile` in agreement with a receiver that appends the blocks in order.
use mathlib.Core.Path.{subst}
use baseliner_docker.Base.{
  ℕ, ◌+◌, List, ◌++◌, Bool, true, false, ◌≡◌, refl, ap, sym, arith, length, ◌==◌, if◌then◌else◌, ℤ,
  pos, eqb_ℤ, ◌-ℤ◌, leb, Bool-cases, inl, inr, if_rule₂, ◌⊎◌,
}
use baseliner_docker.Tftp.Stream.{Sink}
use baseliner_docker.Tftp.Buffers.{Bfs, segsize, writeit}
use baseliner_docker.Tftp.Sender.{
  Status, waiting, finished, aborted, quit, signed16, error_op, rexmtval, maxtimeout,
}
use baseliner_docker.Tftp.Receiver.{
  data_op, Receiver, send_ack, next_ack, finish, deposit, on_block, on_packet, on_alarm,
}
use baseliner_docker.Tftp.Storage.{
  stored, Idle, Behind, Written, write_behind-Behind, write_behind-Idle, writeit-Idle, deposit-Idle,
}
use baseliner_docker.Tftp.Appending.{View, answer, take_block, packet_at, view_packet, view_alarm}

abbrev pub FileAt : Bool → List ℕ → Receiver → Status → Type 0
FileAt convert got s waiting = Idle convert got s.bfs s.file
FileAt convert got s finished = s.file ≡ (stored convert got).1
FileAt convert got s aborted = Unit
FileAt convert got s quit = Unit

pub record Agrees (convert : Bool) (v : View) (s : Receiver) : Type 0 where
  pub next : s.block ≡ v.next
  pub waited : s.timeout ≡ v.timeout
  pub status : s.status ≡ v.status
  pub file : FileAt convert v.got s v.status

pub send_ack-Idle :
    (convert ok : Bool) (v : View) (s : Receiver)
    → s.block ≡ v.next
    → s.timeout ≡ v.timeout
    → Idle convert v.got s.bfs s.file
    → Agrees convert (answer ok v) (send_ack convert ok s)
unfolding send_ack
send_ack-Idle convert true v s n t h = record {
  next = n;
  waited = t;
  status = refl;
  file = rw (write_behind-Idle convert v.got s.bfs s.file h) h;
}
send_ack-Idle convert false v s n t h = record { next = n; waited = t; status = refl; file = tt }

send_ack-Behind :
    (convert ok : Bool) (got bytes : List ℕ) (v : View) (s : Receiver)
    → s.block ≡ v.next
    → s.timeout ≡ v.timeout
    → v.got ≡ got ++ bytes
    → Behind convert got bytes s.bfs s.file
    → Agrees convert (answer ok v) (send_ack convert ok s)
unfolding send_ack Written
send_ack-Behind convert true got bytes v s n t e h = record {
  next = n;
  waited = t;
  status = refl;
  file = rw e (write_behind-Behind convert got bytes s.bfs s.file h);
}
send_ack-Behind convert false got bytes v s n t e h = record {
  next = n;
  waited = t;
  status = refl;
  file = tt;
}

finish-Behind :
    (convert : Bool) (got bytes : List ℕ) (v : View) (s : Receiver)
    → s.block ≡ v.next
    → s.timeout ≡ v.timeout
    → Behind convert got bytes s.bfs s.file
    → Agrees convert (record v { got = got ++ bytes; status = finished }) (finish convert s)
unfolding finish Written
finish-Behind convert got bytes v s n t h = record {
  next = n;
  waited = t;
  status = refl;
  file = ap (λ p. p.1) (write_behind-Behind convert got bytes s.bfs s.file h).file;
}

next_ack-Behind :
    (convert ok : Bool) (got bytes : List ℕ) (v : View) (s : Receiver)
    → s.block + 1 ≡ v.next
    → v.timeout ≡ 0
    → v.got ≡ got ++ bytes
    → Behind convert got bytes s.bfs s.file
    → Agrees convert (answer ok v) (next_ack convert ok s)
unfolding next_ack
next_ack-Behind convert ok got bytes v s n t e h =
    send_ack-Behind convert ok got bytes v (record s { timeout = 0; block = s.block + 1 }) n (sym t)
      e h

same_size : (k : ℕ) → eqb_ℤ (pos k) (pos k) ≡ true
same_size k = ground arith

eqb_pos : (a b : ℕ) → eqb_ℤ (pos a) (pos b) ≡ (a == b)
eqb_pos a b = ground arith

writeit-count : (convert : Bool) (n : ℤ) (b : Bfs) (f : Sink) → (writeit convert n b f).0 ≡ n
unfolding writeit
writeit-count convert n b f = refl

on_block-Agrees :
    (convert ok : Bool) (bytes : List ℕ) (v : View) (s : Receiver)
    → s.block ≡ v.next
    → s.timeout ≡ v.timeout
    → Idle convert v.got s.bfs s.file
    → Agrees convert (take_block ok bytes v) (on_block convert ok (pos (length bytes)) bytes s)
unfolding on_block
on_block-Agrees convert ok bytes v s n t h =
    rw
      (
        writeit-count convert (pos (length bytes)) (deposit bytes s.bfs) s.file,
        same_size (length bytes),
        eqb_pos (length bytes) segsize,
      )
      (split (Bool-cases (length bytes == segsize)))
  where
    b :
        Behind convert v.got bytes
          (writeit convert (pos (length bytes)) (deposit bytes s.bfs) s.file).1
          (writeit convert (pos (length bytes)) (deposit bytes s.bfs) s.file).2
    b = writeit-Idle convert v.got bytes s.bfs s.file h

    s' : Receiver
    s' = record s {
      confirmed = true;
      bfs = (writeit convert (pos (length bytes)) (deposit bytes s.bfs) s.file).1;
      file = (writeit convert (pos (length bytes)) (deposit bytes s.bfs) s.file).2;
    }

    split :
        ((length bytes == segsize) ≡ true) ⊎ ((length bytes == segsize) ≡ false)
        → Agrees convert
            (take_block ok bytes v)
            (if length bytes == segsize then next_ack convert ok s' else finish convert s')
    split (inl e) = rw e (
        next_ack-Behind convert ok v.got bytes
          (record v { next = v.next + 1; got = v.got ++ bytes; timeout = 0 }) s'
          (ap (λ (k : ℕ). k + 1) n) refl refl b)
    split (inr e) = rw e (finish-Behind convert v.got bytes v s' n t b)

pub on_packet-Agrees :
    (convert ok : Bool) (op blk : ℕ) (bytes : List ℕ) (v : View) (s : Receiver)
    → v.status ≡ waiting
    → Agrees convert v s
    → Agrees convert
        (view_packet ok op blk bytes v)
        (on_packet convert ok op blk (pos (length bytes)) bytes s)
unfolding on_packet
on_packet-Agrees convert ok op blk bytes v s w a =
    subst
      (λ k.
        Agrees convert (packet_at k ok op blk bytes v)
          (on_packet convert ok op blk (pos (length bytes)) bytes s))
      a.next
      (if_rule₂ (Agrees convert) (op == error_op)
        (record { next = a.next; waited = a.waited; status = refl; file = tt })
        (if_rule₂ (Agrees convert) (op == data_op)
          (if_rule₂ (Agrees convert) (eqb_ℤ (signed16 blk) (pos s.block))
            (on_block-Agrees convert ok bytes v s a.next a.waited idle)
            (if_rule₂ (Agrees convert) (eqb_ℤ (signed16 blk) (pos s.block -ℤ pos 1))
              (send_ack-Idle convert ok v (record s { bfs = deposit bytes s.bfs }) a.next a.waited
                still)
              kept))
          kept))
  where
    idle : Idle convert v.got s.bfs s.file
    idle = subst (λ st. FileAt convert v.got s st) w a.file

    still : Idle convert v.got (deposit bytes s.bfs) s.file
    still = deposit-Idle convert v.got bytes s.bfs s.file idle

    kept : Agrees convert v (record s { bfs = deposit bytes s.bfs })
    kept = record {
      next = a.next;
      waited = a.waited;
      status = a.status;
      file =
          subst (λ st. FileAt convert v.got (record s { bfs = deposit bytes s.bfs }) st) (sym w)
            still;
    }

pub on_alarm-Agrees :
    (convert ok : Bool) (v : View) (s : Receiver)
    → v.status ≡ waiting
    → Agrees convert v s
    → Agrees convert (view_alarm ok v) (on_alarm convert ok s)
unfolding on_alarm
on_alarm-Agrees convert ok v s w a = rw a.waited (
    if_rule₂ (Agrees convert) (leb maxtimeout (v.timeout + rexmtval))
      (record { next = a.next; waited = refl; status = refl; file = tt })
      (send_ack-Idle convert ok (record v { timeout = v.timeout + rexmtval })
        (record s { confirmed = false; timeout = v.timeout + rexmtval }) a.next refl
        (subst (λ st. FileAt convert v.got s st) w a.file)))
