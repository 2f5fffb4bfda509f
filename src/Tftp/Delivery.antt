-- ===== src/Tftp/Delivery.antt =====
-- What a client that takes the blocks in order, each once, receives from `sendfile`.
use mathlib.Core.Path.{subst}
use baseliner_docker.Base.{
  ℕ, ◌+◌, List, [], ◌∷◌, ◌++◌, Bool, true, false, ◌≡◌, refl, ap, sym, ◌∙◌, ◌==◌, append-nil, pos,
  eqb_ℤ, ◌-ℤ◌, leb, Bool-cases, if_rule, inl, inr,
}
use baseliner_docker.Tftp.Buffers.{Bfs, segsize}
use baseliner_docker.Tftp.Netascii.{source}
use baseliner_docker.Tftp.Ahead.{wire}
use baseliner_docker.Tftp.ReadAhead.{readit-Loaded, readit-rw_init}
use baseliner_docker.Tftp.Sender.{
  Event, packet, recv_failed, alarm, Status, waiting, finished, aborted, quit, Sender, maxtimeout,
  rexmtval, signed16, ack_op, error_op, enter, start, acked, on_packet, on_alarm, handle, dispatch,
  step, run,
}
use baseliner_docker.Tftp.Waiting.{
  received, Waits, Part, GoodAt, Good, Part-of, send_data-Waits, next_block-Given, short_size,
}

acked-Waits :
    (convert ok : Bool) (text : List ℕ) (s : Sender)
    → Waits convert text s
    → Good convert text (acked convert ok s)
unfolding acked
acked-Waits convert ok text s h = elim (Bool-cases (eqb_ℤ s.size (pos segsize))) [
  | inl full ↦ rw full (
      next_block-Given convert ok text h.todo (record s { confirmed = true; block = s.block + 1 })
        (readit-Loaded convert h.todo s.bfs s.file h.loaded) h.log)
  | inr last ↦ rw last (
      ap (λ st. st.1) h.log.1
      ∙ sym (append-nil h.log.0)
      ∙ ap (λ t. h.log.0 ++ t)
          (sym
            (h.holds.short (short_size s.size _ (h.sized ∙ h.holds.counted) h.holds.bounded last)))
      ∙ h.log.2)
]

on_packet-Waits :
    (convert ok : Bool) (op blk : ℕ) (text : List ℕ) (s : Sender)
    → s.status ≡ waiting
    → Waits convert text s
    → Good convert text (on_packet convert ok op blk s)
unfolding on_packet
on_packet-Waits convert ok op blk text s e h =
    if_rule (Good convert text) (op == error_op) (Part-of convert text s _ _ h.log) (
      if_rule (Good convert text) (op == ack_op)
        (if_rule (Good convert text) (eqb_ℤ (signed16 blk) (pos s.block))
          (acked-Waits convert ok text s h)
          (if_rule (Good convert text) (eqb_ℤ (signed16 blk) (pos s.block -ℤ pos 1))
            (send_data-Waits convert ok text s h) still))
        still)
  where
    still : Good convert text s
    still = subst (λ t. GoodAt convert text s t) (sym e) h

on_alarm-Waits :
    (convert ok : Bool) (text : List ℕ) (s : Sender)
    → Waits convert text s
    → Good convert text (on_alarm convert ok s)
unfolding on_alarm
on_alarm-Waits convert ok text s h = elim (Bool-cases (leb maxtimeout (s.timeout + rexmtval))) [
  | inl over ↦ rw over (Part-of convert text s _ _ h.log)
  | inr more ↦ rw more (
      send_data-Waits convert ok text
        (record s { confirmed = false; timeout = s.timeout + rexmtval })
        (record {
          todo = h.todo;
          holds = h.holds;
          sized = h.sized;
          loaded = h.loaded;
          log = h.log;
        }))
]

dispatch-Good :
    (convert : Bool) (st : Status) (e : Event × Bool) (text : List ℕ) (s : Sender)
    → s.status ≡ st
    → GoodAt convert text s st
    → Good convert text (dispatch convert st e s)
unfolding dispatch handle
dispatch-Good convert waiting (packet op blk, ok) text s q h =
    on_packet-Waits convert ok op blk text s q h
dispatch-Good convert waiting (recv_failed, ok) text s q h = Part-of convert text s _ _ h.log
dispatch-Good convert waiting (alarm, ok) text s q h = on_alarm-Waits convert ok text s h
dispatch-Good convert finished e text s q h = subst (λ t. GoodAt convert text s t) (sym q) h
dispatch-Good convert aborted e text s q h = subst (λ t. GoodAt convert text s t) (sym q) h
dispatch-Good convert quit e text s q h = subst (λ t. GoodAt convert text s t) (sym q) h

run-Good :
    (convert : Bool) (text : List ℕ) (s : Sender) (es : List (Event × Bool))
    → Good convert text s
    → Good convert text (run convert s es)
unfolding run step
run-Good convert text s [] h = h
run-Good convert text s (e ∷ es) h =
    run-Good convert text (step convert s e) es (dispatch-Good convert s.status e text s refl h)

start-Good :
    (convert ok : Bool) (b : Bfs) (text : List ℕ)
    → Good convert text (start convert ok b (source text))
unfolding start
start-Good convert ok b text =
    next_block-Given convert ok text (wire convert text) (enter b (source text))
      (readit-rw_init convert b text) ([], refl, refl)

GoodAt-finished :
    (convert : Bool) (text : List ℕ) (s : Sender) (st : Status)
    → GoodAt convert text s st
    → st ≡ finished
    → (received s.sent).1 ≡ wire convert text
GoodAt-finished convert text s waiting h e = cc
GoodAt-finished convert text s finished h e = h
GoodAt-finished convert text s aborted h e = cc
GoodAt-finished convert text s quit h e = cc

GoodAt-Part :
    (convert : Bool) (text : List ℕ) (s : Sender) (st : Status)
    → GoodAt convert text s st
    → Part convert text s
GoodAt-Part convert text s waiting h = Part-of convert text s _ _ h.log
GoodAt-Part convert text s finished h = ([], append-nil _ ∙ h)
GoodAt-Part convert text s aborted h = h
GoodAt-Part convert text s quit h = h

-- `sendfile` on a file that can be read, whatever the client, the network and the clock do: the
-- bytes that a client has which takes each block once and in order are always a prefix of the wire
-- form of the file (netascii or octet).
pub sendfile_sends_prefix :
    (convert ok : Bool) (b : Bfs) (text : List ℕ) (es : List (Event × Bool))
    → Part convert text (run convert (start convert ok b (source text)) es)
sendfile_sends_prefix convert ok b text es =
    GoodAt-Part convert text _ _
      (run-Good convert text (start convert ok b (source text)) es (start-Good convert ok b text))

-- When `sendfile` on a file that can be read has left its loop by its own test, after whatever replies,
-- losses and alarms, a client that takes each block once and in order has the whole wire form of the
-- file (netascii or octet).
pub sendfile_delivers :
    (convert ok : Bool) (b : Bfs) (text : List ℕ) (es : List (Event × Bool))
    → (run convert (start convert ok b (source text)) es).status ≡ finished
    → (received (run convert (start convert ok b (source text)) es).sent).1 ≡ wire convert text
sendfile_delivers convert ok b text es e =
    GoodAt-finished convert text _ _
      (run-Good convert text (start convert ok b (source text)) es (start-Good convert ok b text)) e
