-- ===== src/Tftp/Completion.antt =====
-- When `sendfile` ends: a client that acknowledges each block in turn gets the whole file, up to the
-- length at which the block number no longer fits the `short` that holds the acknowledged one.
use mathlib.Core.Path.{subst}
use baseliner_docker.Base.{
  ℕ, zero, suc, ◌+◌, ◌-◌, ◌*◌, ◌/◌, ◌^◌, ◌≤◌, ◌<◌, List, [], ◌∷◌, ◌++◌, Bool, true, false, ◌≡◌,
  refl, ◌≢◌, ap, sym, ◌∙◌, arith, length, ◌==◌, ℤ, pos, eqb_ℤ, ◌-ℤ◌, leb, Bool-cases, inl, inr,
  length-append, ◌⊎◌, if_rule,
}
use baseliner_docker.Tftp.Buffers.{Bfs, bf, segsize, readit, read_ahead}
use baseliner_docker.Tftp.Netascii.{source}
use baseliner_docker.Tftp.Ahead.{wire, unread, read_ahead-Opened}
use baseliner_docker.Tftp.ReadAhead.{Gives, readit-Loaded, readit-rw_init}
use baseliner_docker.Tftp.Sender.{
  Event, packet, recv_failed, alarm, Status, waiting, finished, aborted, quit, Sender, signed16,
  ack_op, error_op, maxtimeout, rexmtval, send_data, next_block, enter, start, acked, on_packet,
  on_alarm, handle, dispatch, step, run,
}
use baseliner_docker.Tftp.Waiting.{Waits, Starts, Remains, send_data-Waits_new, nonneg}

-- In the wait for block `k`, with `left` bytes not yet acknowledged.
record Ready (convert : Bool) (text : List ℕ) (k left : ℕ) (s : Sender) : Type 0 where
  idle : s.status ≡ waiting
  turn : s.block ≡ k
  waits : Waits convert text s
  amount : length (bf s.bfs.current s.bfs).bytes + length waits.todo ≡ left

send_data-Ready :
    (convert : Bool) (text : List ℕ) (s : Sender) (h : Starts convert text s)
    → Ready convert text s.block
        (length (bf s.bfs.current s.bfs).bytes + length h.todo)
        (send_data convert true s)
unfolding send_data send_data-Waits_new
send_data-Ready convert text s h = record {
  idle = refl;
  turn = refl;
  waits = send_data-Waits_new convert text s h;
  amount = ap (λ (n : ℕ). n + length h.todo) (ap (λ b. length b.bytes) same);
}
  where
    same :
        bf (read_ahead convert s.bfs s.file).0.current (read_ahead convert s.bfs s.file).0
        ≡ bf s.bfs.current s.bfs
    same =
        let a = read_ahead-Opened convert h.todo s.bfs s.file h.opened in
        ap (λ c. bf c (read_ahead convert s.bfs s.file).0) a.1 ∙ a.2

next_block-Ready :
    (convert : Bool) (text todo : List ℕ) (s : Sender)
    → (let (n, b, f) = readit convert s.bfs s.file in Gives convert todo n b f)
    → Remains convert text s s.block todo
    → Ready convert text s.block (length todo) (next_block convert true s)
unfolding next_block
next_block-Ready convert text todo s g l = rw (nonneg _ _ (g.count ∙ g.holds.counted)) (
    subst (λ n. Ready convert text s.block n (send_data convert true given))
      (sym (length-append _ _) ∙ ap length g.rest) (send_data-Ready convert text given starts))
  where
    given : Sender
    given = record s {
      size = (readit convert s.bfs s.file).0;
      bfs = (readit convert s.bfs s.file).1;
      file = (readit convert s.bfs s.file).2;
      timeout = 0;
    }

    starts : Starts convert text given
    starts = record {
      todo = unread convert (readit convert s.bfs s.file).1 (readit convert s.bfs s.file).2;
      holds = g.holds;
      sized = g.count;
      opened = g.opened;
      log = (l.0, l.1, ap (λ t. l.0 ++ t) g.rest ∙ l.2);
    }

full_size :
    (n : ℤ) (a t left : ℕ)
    → n ≡ pos a
    → eqb_ℤ n (pos segsize) ≡ true
    → a + t ≡ left
    → left ≡ segsize + t
full_size n a t left e f h = ground arith

ack_matches : (k j : ℕ) → j ≡ k → k < 2 ^ 15 → eqb_ℤ (signed16 k) (pos j) ≡ true
ack_matches k j e h = ground arith

-- After the acknowledgement the loop ends with a short block, or goes on.
acked-Ready :
    (convert : Bool) (text : List ℕ) (k left : ℕ) (s : Sender)
    → Ready convert text k left s
    → ((acked convert true s).status ≡ finished)
      ⊎ ((segsize ≤ left) × Ready convert text (k + 1) (left - segsize) (acked convert true s))
unfolding acked
acked-Ready convert text k left s r = elim (Bool-cases (eqb_ℤ s.size (pos segsize))) [
  | inr last ↦ rw last (inl refl)
  | inl full ↦ rw full (inr (omega (arith, many full), next full))
]
  where
    many : eqb_ℤ s.size (pos segsize) ≡ true → left ≡ segsize + length r.waits.todo
    many full =
        full_size s.size (length (bf s.bfs.current s.bfs).bytes) (length r.waits.todo) left
          (r.waits.sized ∙ r.waits.holds.counted) full r.amount

    after : Sender
    after = record s { confirmed = true; block = s.block + 1 }

    next :
        eqb_ℤ s.size (pos segsize) ≡ true
        → Ready convert text (k + 1) (left - segsize) (next_block convert true after)
    next full =
        subst (λ j. Ready convert text j (left - segsize) (next_block convert true after))
          (ap (λ (j : ℕ). j + 1) r.turn)
          (subst (λ n. Ready convert text (s.block + 1) n (next_block convert true after))
            (omega (arith, many full))
            (next_block-Ready convert text r.waits.todo after
              (readit-Loaded convert r.waits.todo s.bfs s.file r.waits.loaded) r.waits.log))

abbrev pub acks : ℕ → ℕ → List (Event × Bool)
acks k zero = []
acks k (suc m) = (packet ack_op k, true) ∷ acks (k + 1) m

on_packet-ack :
    (convert : Bool) (k : ℕ) (s : Sender)
    → s.block ≡ k
    → k < 2 ^ 15
    → on_packet convert true ack_op k s ≡ acked convert true s
unfolding on_packet
on_packet-ack convert k s e h = rw (ack_matches k s.block e h)

step-ack :
    (convert : Bool) (k : ℕ) (s : Sender)
    → s.status ≡ waiting
    → s.block ≡ k
    → k < 2 ^ 15
    → step convert s (packet ack_op k, true) ≡ acked convert true s
unfolding step dispatch handle
step-ack convert k s w e h =
    ap (λ st. dispatch convert st (packet ack_op k, true) s) w ∙ on_packet-ack convert k s e h

step-finished :
    (convert : Bool) (s : Sender) (e : Event × Bool) → s.status ≡ finished → step convert s e ≡ s
unfolding step dispatch
step-finished convert s e h = ap (λ st. dispatch convert st e s) h

run-finished :
    (convert : Bool) (s : Sender) (es : List (Event × Bool))
    → s.status ≡ finished
    → (run convert s es).status ≡ finished
unfolding run
run-finished convert s [] h = h
run-finished convert s (e ∷ es) h =
    rw (run, step-finished convert s e h) (run-finished convert s es h)

run-Ready :
    (convert : Bool) (text : List ℕ) (m k left : ℕ) (s : Sender)
    → Ready convert text k left s
    → left < segsize * suc m
    → k + m < 2 ^ 15
    → (run convert s (acks k (suc m))).status ≡ finished
unfolding run
run-Ready convert text zero k left s r few small =
    rw (step-ack convert k s r.idle r.turn (omega arith))
      (elim (acked-Ready convert text k left s r) [ inl e ↦ e | inr (q, _) ↦ absurd (omega arith) ])
run-Ready convert text (suc m) k left s r few small =
    rw (run, step-ack convert k s r.idle r.turn (omega arith))
      (elim (acked-Ready convert text k left s r) [
        | inl e ↦ run-finished convert (acked convert true s) (acks (k + 1) (suc m)) e
        | inr (q, r') ↦
            run-Ready convert text m (k + 1) (left - segsize) (acked convert true s) r'
              (omega arith) (omega arith)
      ])

-- Block numbers from 2^15 on are never acknowledged: `th_block` is a `short`.
ack_never_matches : (blk j : ℕ) → 2 ^ 15 ≤ j → eqb_ℤ (signed16 blk) (pos j) ≡ false
ack_never_matches blk j h = ground arith

Stuck : ℕ → Sender → Type 0
Stuck j s = (s.block ≡ j) × (s.status ≢ finished)

send_data-Stuck :
    (convert ok : Bool) (j : ℕ) (s : Sender) → Stuck j s → Stuck j (send_data convert ok s)
unfolding send_data Stuck
send_data-Stuck convert true j s h = (h.0, λ e. cc)
send_data-Stuck convert false j s h = (h.0, λ e. cc)

dispatch-Stuck :
    (convert : Bool) (st : Status) (e : Event × Bool) (j : ℕ) (s : Sender)
    → 2 ^ 15 ≤ j
    → Stuck j s
    → Stuck j (dispatch convert st e s)
unfolding dispatch handle on_packet on_alarm Stuck
dispatch-Stuck convert waiting (packet op blk, ok) j s b h =
    rw (ack_never_matches blk s.block (omega (arith, h.0))) (
      if_rule (Stuck j) (op == error_op) (h.0, λ e. cc)
        (if_rule (Stuck j) (op == ack_op)
          (if_rule (Stuck j) (eqb_ℤ (signed16 blk) (pos s.block -ℤ pos 1))
            (send_data-Stuck convert ok j s h) h)
          h))
dispatch-Stuck convert waiting (recv_failed, ok) j s b h = (h.0, λ e. cc)
dispatch-Stuck convert waiting (alarm, ok) j s b h =
    if_rule (Stuck j) (leb maxtimeout (s.timeout + rexmtval)) (h.0, λ e. cc)
      (send_data-Stuck convert ok j (record s { confirmed = false; timeout = s.timeout + rexmtval })
        h)
dispatch-Stuck convert finished e j s b h = h
dispatch-Stuck convert aborted e j s b h = h
dispatch-Stuck convert quit e j s b h = h

run-Stuck :
    (convert : Bool) (es : List (Event × Bool)) (j : ℕ) (s : Sender)
    → 2 ^ 15 ≤ j
    → Stuck j s
    → Stuck j (run convert s es)
unfolding run step
run-Stuck convert [] j s b h = h
run-Stuck convert (e ∷ es) j s b h =
    run-Stuck convert es j (step convert s e) b (dispatch-Stuck convert s.status e j s b h)

-- Once `sendfile` waits for block 32768 or a later one, no sequence of replies and alarms makes it
-- go on to another block or end by its own test: the acknowledged number is a signed 16-bit value.
pub sendfile_stuck :
    (convert : Bool) (s : Sender) (es : List (Event × Bool))
    → s.status ≡ waiting
    → 2 ^ 15 ≤ s.block
    → ((run convert s es).block ≡ s.block) × ((run convert s es).status ≢ finished)
unfolding Stuck
sendfile_stuck convert s es w b = run-Stuck convert es s.block s b (refl, λ e. cc)

-- If no packet is lost, each `send` succeeds and the wire form of the file is shorter than 32767
-- full blocks, `sendfile` ends by its own test when the client has acknowledged blocks 1, 2, ... up
-- to the first that is not full.
pub sendfile_completes :
    (convert : Bool) (b : Bfs) (text : List ℕ)
    → length (wire convert text) < segsize * 32767
    → (run convert
        (start convert true b (source text))
        (acks 1 (suc (length (wire convert text) / segsize)))).status
      ≡ finished
unfolding start
sendfile_completes convert b text h =
    run-Ready convert text (length (wire convert text) / segsize) 1 (length (wire convert text)) _
      (next_block-Ready convert text (wire convert text) (enter b (source text))
        (readit-rw_init convert b text) ([], refl, refl))
      (omega arith) (omega arith)
