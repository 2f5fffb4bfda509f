-- ===== src/Tftp/Reception.antt =====
-- `recvfile` refines a receiver that appends the blocks in order and has no buffers.
use mathlib.Core.Path.{subst}
use baseliner_docker.Base.{ℕ, List, [], ◌∷◌, Bool, ◌≡◌, refl, ap, sym, ◌∙◌}
use baseliner_docker.Tftp.Buffers.{Bfs}
use baseliner_docker.Tftp.Stream.{Sink}
use baseliner_docker.Tftp.Netascii.{sink, contents}
use baseliner_docker.Tftp.Ahead.{wire}
use baseliner_docker.Tftp.Sender.{Status, waiting, finished, aborted, quit}
use baseliner_docker.Tftp.Receiver.{
  Event, packet, recv_failed, alarm, Receiver, next_ack, enter, start, handle, dispatch, step, run,
}
use baseliner_docker.Tftp.Storage.{stored, rw_init-Idle, contents-stored}
use baseliner_docker.Tftp.Decoding.{decoded, contents-decoded}
use baseliner_docker.Tftp.Appending.{View, view_dispatch, view_run, IsWhole, AllWhole, view_start}
use baseliner_docker.Tftp.Agreement.{
  FileAt, Agrees, send_ack-Idle, on_packet-Agrees, on_alarm-Agrees,
}

dispatch-Agrees :
    (convert : Bool) (st : Status) (e : Event × Bool) (v : View) (s : Receiver)
    → IsWhole e.0
    → v.status ≡ st
    → Agrees convert v s
    → Agrees convert (view_dispatch st e v) (dispatch convert st e s)
unfolding dispatch handle
dispatch-Agrees convert waiting (packet op blk n bytes, ok) v s i w a =
    rw i (on_packet-Agrees convert ok op blk bytes v s w a)
dispatch-Agrees convert waiting (recv_failed, ok) v s i w a = record {
  next = a.next;
  waited = a.waited;
  status = refl;
  file = tt;
}
dispatch-Agrees convert waiting (alarm, ok) v s i w a = on_alarm-Agrees convert ok v s w a
dispatch-Agrees convert finished e v s i w a = a
dispatch-Agrees convert aborted e v s i w a = a
dispatch-Agrees convert quit e v s i w a = a

run-Agrees :
    (convert : Bool) (es : List (Event × Bool)) (v : View) (s : Receiver)
    → AllWhole es
    → Agrees convert v s
    → Agrees convert (view_run v es) (run convert s es)
unfolding run step
run-Agrees convert [] v s i a = a
run-Agrees convert ((e, ok) ∷ es) v s i a = run-Agrees convert es _ _ i.1 (
    subst (λ st. Agrees convert (view_dispatch v.status (e, ok) v) (dispatch convert st (e, ok) s))
      (sym a.status) (dispatch-Agrees convert v.status (e, ok) v s i.0 refl a))

start-Agrees :
    (convert ok : Bool) (b : Bfs) → Agrees convert (view_start ok) (start convert ok b (sink []))
unfolding start next_ack
start-Agrees convert ok b =
    send_ack-Idle convert ok (view_start ok) (record (enter b (sink [])) { timeout = 0; block = 1 })
      refl refl (rw_init-Idle convert b)

-- What the file holds while `recvfile` waits for a block, and when it has ended with the last one.
abbrev pub Stores : Bool → List ℕ → Sink → Status → Type 0
Stores convert got f waiting = contents f ≡ decoded convert got
Stores convert got f finished = contents f ≡ decoded convert got
Stores convert got f aborted = Unit
Stores convert got f quit = Unit

FileAt-Stores :
    (convert : Bool) (got : List ℕ) (s : Receiver) (st : Status)
    → FileAt convert got s st
    → Stores convert got s.file st
FileAt-Stores convert got s waiting h = ap (λ p. contents p.1) h.file ∙ contents-decoded convert got
FileAt-Stores convert got s finished h = ap contents h ∙ contents-decoded convert got
FileAt-Stores convert got s aborted h = h
FileAt-Stores convert got s quit h = h

-- `recvfile` into an empty file that can be written, whatever the client, the network and the clock
-- do (packets shorter than four bytes aside), awaits the same block, has waited as long and stands as
-- the receiver does that has no buffers and only appends the data of the blocks in order. While it
-- waits, and when it has ended with the last block, the file holds all the bytes appended, decoded
-- from netascii, or as they are in octet mode.
pub recvfile_refines :
    (convert ok : Bool) (b : Bfs) (es : List (Event × Bool))
    → AllWhole es
    → let v = view_run (view_start ok) es in
      let s = run convert (start convert ok b (sink [])) es in
      (s.block ≡ v.next)
      × (s.timeout ≡ v.timeout)
      × (s.status ≡ v.status)
      × Stores convert v.got s.file v.status
recvfile_refines convert ok b es i =
    let s = run convert (start convert ok b (sink [])) es in
    let a =
      run-Agrees convert es (view_start ok) (start convert ok b (sink [])) i
        (start-Agrees convert ok b) in
    (a.next, a.waited, a.status, FileAt-Stores convert _ s _ a.file)

-- If the blocks that the client sent in order are the wire form of a text, and the loop of `recvfile`
-- has ended with the last of them, then the file, empty at the start, holds the text (netascii or
-- octet), whatever else was received and whatever alarms there were (packets shorter than four bytes
-- aside).
pub recvfile_stores :
    (convert ok : Bool) (b : Bfs) (text : List ℕ) (es : List (Event × Bool))
    → AllWhole es
    → (view_run (view_start ok) es).status ≡ finished
    → (view_run (view_start ok) es).got ≡ wire convert text
    → contents (run convert (start convert ok b (sink [])) es).file ≡ text
recvfile_stores convert ok b text es i f g =
    let a =
      run-Agrees convert es (view_start ok) (start convert ok b (sink [])) i
        (start-Agrees convert ok b) in
    ap contents (
      subst
        (λ st.
          FileAt convert (view_run (view_start ok) es).got
            (run convert (start convert ok b (sink [])) es) st)
        f a.file
      ∙ ap (λ t. (stored convert t).1) g)
    ∙ contents-stored convert text
