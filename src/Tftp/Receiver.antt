-- ===== src/Tftp/Receiver.antt =====
-- tftpd.c: `recvfile` with its timer, as a machine that runs from one event to the next, up to the
-- final acknowledgement; the last wait is in `LastWait`.
use baseliner_docker.Base.{
  ℕ, ◌+◌, ◌-◌, ◌%◌, ◌^◌, List, [], ◌∷◌, ◌++◌, Bool, true, false, not, ℤ, pos, eqb_ℤ, leb, ◌==◌,
  if◌then◌else◌, ◌-ℤ◌,
}
use baseliner_docker.Tftp.Stream.{Sink}
use baseliner_docker.Tftp.Buffers.{Bfs, bf, set_bf, segsize, rw_init, writeit, write_behind}
use baseliner_docker.Tftp.Sender.{
  Status, waiting, finished, aborted, quit, signed16, error_op, rexmtval, maxtimeout,
}

abbrev pub data_op : ℕ
data_op = 3

pub data Event : Type 0 where
  -- `recv` returned n bytes: `th_opcode`, the 16 bits of `th_block`, n - 4, and the data
  packet : ℕ → ℕ → ℤ → List ℕ → Event
  recv_failed : Event
  -- SIGALRM during the wait
  alarm : Event

pub record Receiver : Type 0 where
  pub bfs : Bfs
  pub file : Sink
  pub block : ℕ
  pub timeout : ℕ
  pub confirmed : Bool
  pub status : Status
  -- the block numbers acknowledged so far, and whether with MSG_CONFIRM
  pub acks : List (ℕ × Bool)

-- `send_ack:` up to the wait; the buffer holds the number of the block before `block`.
unfoldable pub send_ack : Bool → Bool → Receiver → Receiver
send_ack convert ok s =
    if ok
    then (record s {
      acks = s.acks ++ (((s.block - 1) % 2 ^ 16, s.confirmed) ∷ []);
      confirmed = false;
      bfs = (write_behind convert s.bfs s.file).1;
      file = (write_behind convert s.bfs s.file).2;
      status = waiting;
    })
    else (record s { status = aborted })

-- The head of the `do` loop.
unfoldable pub next_ack : Bool → Bool → Receiver → Receiver
next_ack convert ok s = send_ack convert ok (record s { timeout = 0; block = s.block + 1 })

abbrev pub enter : Bfs → Sink → Receiver
enter b f = record {
  bfs = rw_init false b;
  file = f;
  block = 0;
  timeout = 0;
  confirmed = false;
  status = waiting;
  acks = [];
}

-- `recvfile` up to the first wait.
unfoldable pub start : Bool → Bool → Bfs → Sink → Receiver
start convert ok b f = next_ack convert ok (enter b f)

-- After the loop: flush, close, and the final acknowledgement, whose outcome is not looked at.
unfoldable pub finish : Bool → Receiver → Receiver
finish convert s = record s {
  bfs = (write_behind convert s.bfs s.file).1;
  file = (write_behind convert s.bfs s.file).2;
  acks = s.acks ++ ((s.block % 2 ^ 16, s.confirmed) ∷ []);
  status = finished;
}

-- `recv` writes the data into the buffer in use.
abbrev pub deposit : List ℕ → Bfs → Bfs
deposit bytes b = set_bf b.current (record (bf b.current b) { bytes = bytes }) b

-- The expected block is there: `writeit`, its test, and the test of the loop.
unfoldable pub on_block : Bool → Bool → ℤ → List ℕ → Receiver → Receiver
on_block convert ok n bytes s =
    let (size, b, f) = writeit convert n (deposit bytes s.bfs) s.file in
    let s' = record s { confirmed = true; bfs = b; file = f } in
    if not (eqb_ℤ size n)
    then record s' { status = aborted }
    else if eqb_ℤ size (pos segsize)
    then next_ack convert ok s'
    else finish convert s'

unfoldable pub on_packet : Bool → Bool → ℕ → ℕ → ℤ → List ℕ → Receiver → Receiver
on_packet convert ok op blk n bytes s =
    if op == error_op
    then record s { status = aborted }
    else if op == data_op
    then (if eqb_ℤ (signed16 blk) (pos s.block)
        then on_block convert ok n bytes s
        else if eqb_ℤ (signed16 blk) (pos s.block -ℤ pos 1)
        then send_ack convert ok (record s { bfs = deposit bytes s.bfs })
        else record s { bfs = deposit bytes s.bfs })
    else record s { bfs = deposit bytes s.bfs }

-- `timer`, which jumps back to the `send`.
unfoldable pub on_alarm : Bool → Bool → Receiver → Receiver
on_alarm convert ok s =
    let s' = record s { confirmed = false; timeout = s.timeout + rexmtval } in
    if leb maxtimeout s'.timeout then record s' { status = quit } else send_ack convert ok s'

unfoldable pub handle : Bool → Bool → Event → Receiver → Receiver
handle convert ok (packet op blk n bytes) s = on_packet convert ok op blk n bytes s
handle convert ok recv_failed s = record s { status = aborted }
handle convert ok alarm s = on_alarm convert ok s

unfoldable pub dispatch : Bool → Status → Event × Bool → Receiver → Receiver
dispatch convert waiting (e, ok) s = handle convert ok e s
dispatch convert finished e s = s
dispatch convert aborted e s = s
dispatch convert quit e s = s

unfoldable pub step : Bool → Receiver → Event × Bool → Receiver
step convert s e = dispatch convert s.status e s

-- `recvfile` over the events of a session.
unfoldable pub run : Bool → Receiver → List (Event × Bool) → Receiver
run convert s [] = s
run convert s (e ∷ r) = run convert (step convert s e) r
