-- ===== src/Tftp/Sender.antt =====
-- tftpd.c: `sendfile` with its timer, as a machine that runs from one event to the next. An event is
-- what ends a wait in `recv`; it also says whether the `send` that answers it (if any) succeeds.
use Prim.Native.Nat.{ℕ}
use baseliner_docker.Base.{
  ◌+◌, ◌%◌, ◌^◌, List, [], ◌∷◌, ◌++◌, Bool, true, false, ℤ, pos, eqb_ℤ, ltb_ℤ, ltb, leb, ◌==◌,
  if◌then◌else◌, sub_ℕ, ◌-ℤ◌,
}
use baseliner_docker.Tftp.Stream.{Source}
use baseliner_docker.Tftp.Buffers.{Bfs, bf, segsize, rw_init, readit, read_ahead}

-- The opcodes of tftp.h that the loops test.
abbrev pub ack_op : ℕ
ack_op = 4

abbrev pub error_op : ℕ
error_op = 5

-- TIMEOUT and 5*TIMEOUT, in seconds
abbrev pub rexmtval : ℕ
rexmtval = 5

abbrev pub maxtimeout : ℕ
maxtimeout = 25

-- The value of a `short` that holds these 16 bits.
abbrev pub signed16 : ℕ → ℤ
signed16 w = if ltb (w % 2 ^ 16) (2 ^ 15) then pos (w % 2 ^ 16) else sub_ℕ (w % 2 ^ 16) (2 ^ 16)

-- A DATA packet: the block number as it stands on the wire, and the data.
pub record Packet : Type 0 where
  pub block : ℕ
  pub bytes : List ℕ
  -- sent with MSG_CONFIRM
  pub confirm : Bool

pub data Event : Type 0 where
  -- `recv` returned: `th_opcode` and the 16 bits of `th_block` of the reply, in host order
  packet : ℕ → ℕ → Event
  recv_failed : Event
  -- SIGALRM during the wait
  alarm : Event

pub data Status : Type 0 where
  -- in `recv`
  waiting : Status
  -- left the loop by its test
  finished : Status
  -- `goto abort`
  aborted : Status
  -- `exit(1)` in `timer`
  quit : Status

pub record Sender : Type 0 where
  pub bfs : Bfs
  pub file : Source
  pub block : ℕ
  pub size : ℤ
  pub timeout : ℕ
  pub confirmed : Bool
  pub status : Status
  -- the packets sent so far
  pub sent : List Packet

-- `send_data:` up to the wait.
unfoldable pub send_data : Bool → Bool → Sender → Sender
send_data convert ok s =
    if ok
    then (record s {
      sent =
          s.sent
          ++ (record {
            block = s.block % 2 ^ 16;
            bytes = (bf s.bfs.current s.bfs).bytes;
            confirm = s.confirmed;
          }
              ∷ []);
      confirmed = false;
      bfs = (read_ahead convert s.bfs s.file).0;
      file = (read_ahead convert s.bfs s.file).1;
      status = waiting;
    })
    else (record s { status = aborted })

-- The head of the `do` loop.
unfoldable pub next_block : Bool → Bool → Sender → Sender
next_block convert ok s =
    let (n, b, f) = readit convert s.bfs s.file in
    let s' = record s { size = n; bfs = b; file = f } in
    if ltb_ℤ n (pos 0)
    then record s' { status = aborted }
    else send_data convert ok (record s' { timeout = 0 })

-- `sendfile` when it enters its loop.
abbrev pub enter : Bfs → Source → Sender
enter b f = record {
  bfs = rw_init true b;
  file = f;
  block = 1;
  size = pos 0;
  timeout = 0;
  confirmed = false;
  status = waiting;
  sent = [];
}

-- `sendfile` up to the first wait.
unfoldable pub start : Bool → Bool → Bfs → Source → Sender
start convert ok b f = next_block convert ok (enter b f)

-- The block is acknowledged: `block++` and the test of the loop.
unfoldable pub acked : Bool → Bool → Sender → Sender
acked convert ok s =
    let s' = record s { confirmed = true; block = s.block + 1 } in
    if eqb_ℤ s.size (pos segsize) then next_block convert ok s' else record s' { status = finished }

unfoldable pub on_packet : Bool → Bool → ℕ → ℕ → Sender → Sender
on_packet convert ok op blk s =
    if op == error_op
    then record s { status = aborted }
    else if op == ack_op
    then (if eqb_ℤ (signed16 blk) (pos s.block)
        then acked convert ok s
        else if eqb_ℤ (signed16 blk) (pos s.block -ℤ pos 1)
        then send_data convert ok s
        else s)
    else s

-- `timer`, which jumps back to the `send`.
unfoldable pub on_alarm : Bool → Bool → Sender → Sender
on_alarm convert ok s =
    let s' = record s { confirmed = false; timeout = s.timeout + rexmtval } in
    if leb maxtimeout s'.timeout then record s' { status = quit } else send_data convert ok s'

unfoldable pub handle : Bool → Bool → Event → Sender → Sender
handle convert ok (packet op blk) s = on_packet convert ok op blk s
handle convert ok recv_failed s = record s { status = aborted }
handle convert ok alarm s = on_alarm convert ok s

unfoldable pub dispatch : Bool → Status → Event × Bool → Sender → Sender
dispatch convert waiting (e, ok) s = handle convert ok e s
dispatch convert finished e s = s
dispatch convert aborted e s = s
dispatch convert quit e s = s

unfoldable pub step : Bool → Sender → Event × Bool → Sender
step convert s e = dispatch convert s.status e s

-- The whole of `sendfile` over the events of a session.
unfoldable pub run : Bool → Sender → List (Event × Bool) → Sender
run convert s [] = s
run convert s (e ∷ r) = run convert (step convert s e) r
