-- ===== src/Tftp/Appending.antt =====
-- The specification of `recvfile` (iputils-ns/tftpd.c): a receiver that has no buffers and appends the
-- data of the blocks in order, over the same events.
use baseliner_docker.Base.{
  ℕ, ◌+◌, List, [], ◌∷◌, ◌++◌, Bool, ◌≡◌, length, ◌==◌, if◌then◌else◌, pos, eqb_ℤ, ◌-ℤ◌, leb,
}
use baseliner_docker.Tftp.Buffers.{segsize}
use baseliner_docker.Tftp.Sender.{
  Status, waiting, finished, aborted, quit, signed16, error_op, rexmtval, maxtimeout,
}
use baseliner_docker.Tftp.Receiver.{data_op, Event, packet, recv_failed, alarm}

-- The specification: the block awaited, the bytes taken, the seconds waited, and the status.
pub record View : Type 0 where
  pub next : ℕ
  pub got : List ℕ
  pub timeout : ℕ
  pub status : Status

abbrev pub answer : Bool → View → View
answer ok v = record v { status = if ok then waiting else aborted }

abbrev pub take_block : Bool → List ℕ → View → View
take_block ok bytes v =
    if length bytes == segsize
    then (answer ok (record v { next = v.next + 1; got = v.got ++ bytes; timeout = 0 }))
    else (record v { got = v.got ++ bytes; status = finished })

abbrev pub packet_at : ℕ → Bool → ℕ → ℕ → List ℕ → View → View
packet_at next ok op blk bytes v =
    if op == error_op
    then record v { status = aborted }
    else if op == data_op
    then (if eqb_ℤ (signed16 blk) (pos next)
        then take_block ok bytes v
        else if eqb_ℤ (signed16 blk) (pos next -ℤ pos 1)
        then answer ok v
        else v)
    else v

abbrev pub view_packet : Bool → ℕ → ℕ → List ℕ → View → View
view_packet ok op blk bytes v = packet_at v.next ok op blk bytes v

abbrev pub view_alarm : Bool → View → View
view_alarm ok v =
    let v' = record v { timeout = v.timeout + rexmtval } in
    if leb maxtimeout v'.timeout then record v' { status = quit } else answer ok v'

abbrev pub view_dispatch : Status → Event × Bool → View → View
view_dispatch waiting (packet op blk n bytes, ok) v = view_packet ok op blk bytes v
view_dispatch waiting (recv_failed, ok) v = record v { status = aborted }
view_dispatch waiting (alarm, ok) v = view_alarm ok v
view_dispatch finished e v = v
view_dispatch aborted e v = v
view_dispatch quit e v = v

abbrev pub view_run : View → List (Event × Bool) → View
view_run v [] = v
view_run v (e ∷ es) = view_run (view_dispatch v.status e v) es

-- A packet of at least four bytes.
abbrev pub IsWhole : Event → Type 0
IsWhole (packet op blk n bytes) = n ≡ pos (length bytes)
IsWhole recv_failed = Unit
IsWhole alarm = Unit

abbrev pub AllWhole : List (Event × Bool) → Type 0
AllWhole [] = Unit
AllWhole ((e, ok) ∷ es) = IsWhole e × AllWhole es

abbrev pub view_start : Bool → View
view_start ok = record { next = 1; got = []; timeout = 0; status = if ok then waiting else aborted }
