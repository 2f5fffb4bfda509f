-- ===== src/Tftp/Tests.antt =====
-- Sessions of tftpd at concrete inputs.
use baseliner_docker.Base.{
  some, Option, ◌++◌, ℕ, ◌*◌, ◌/◌, ◌<◌, ◌≤◌, ◌^◌, suc, List, [], ◌∷◌, Bool, true, false, ◌≡◌, ◌≢◌,
  refl, ◌-ℤ◌, none, pos, length, arith, zero, ◌∙◌,
}
use baseliner_docker.Tftp.Buffers.{Bfs, segsize, put_all, readit, rw_init, refill}
use baseliner_docker.Tftp.Netascii.{encode, source, sink, contents, NoCr, put_all-encode}
use baseliner_docker.Tftp.Ahead.{wire}
use baseliner_docker.Tftp.Sender
use baseliner_docker.Tftp.Sender.{Status, finished, waiting}
use baseliner_docker.Tftp.Waiting.{Part, received}
use baseliner_docker.Tftp.Delivery.{sendfile_sends_prefix, sendfile_delivers}
use baseliner_docker.Tftp.Completion.{acks, sendfile_completes, sendfile_stuck}
use baseliner_docker.Tftp.Receiver
use baseliner_docker.Tftp.Appending.{view_run, view_start, AllWhole}
use baseliner_docker.Tftp.LastWait.{last_wait, heads, no_heads, last_wait-run}
use baseliner_docker.Tftp.Reception.{Stores, recvfile_refines, recvfile_stores}
use mathlib.Core.List.{reverse_aux}
use baseliner_docker.Tftp.Dispatch.{
  Answer, serve, tftp, skip_string, string_at, lower_all, same_string, find_format, answer, request,
  serve-request, Serves, Serves-serve,
}
use baseliner_docker.Tftp.Request.{
  Opcode, rrq, wrq, StatResult, found, System, validate_access, climbs, climbs_from, full_name, up,
  dot, slash, eaccess, validate_access-up,
}

abbrev idle : Bfs
idle = record {
  buf0 = record { counter = pos 0; bytes = [] };
  buf1 = record { counter = pos 0; bytes = [] };
  nextone = false;
  current = false;
  newline = false;
  prevchar = none;
}

-- "a", a line feed, "b", a carriage return
abbrev text : List ℕ
text = 97 ∷ 10 ∷ 98 ∷ 13 ∷ []

-- The first packet is lost, an old acknowledgement comes, then the right one.
abbrev replies : List (Sender.Event × Bool)
replies = (Sender.alarm, true) ∷ (Sender.packet 4 0, true) ∷ (Sender.packet 4 1, true) ∷ []

sends_prefix_example :
    Part true text (Sender.run true (Sender.start true true idle (source text)) replies)
sends_prefix_example = sendfile_sends_prefix true true idle text replies

ends : (Sender.run true (Sender.start true true idle (source text)) replies).status ≡ finished
unfolding Sender.run Sender.start Sender.step Sender.dispatch Sender.next_block readit rw_init
    refill Sender.send_data Sender.handle Sender.on_alarm Sender.on_packet ◌-ℤ◌ Sender.acked
ends = refl

delivers_example :
    (received (Sender.run true (Sender.start true true idle (source text)) replies).sent).1
    ≡ wire true text
delivers_example = sendfile_delivers true true idle text replies ends

text_is_short : length (wire true text) < segsize * 32767
text_is_short = omega arith

completes_example :
    (Sender.run true
      (Sender.start true true idle (source text))
      (acks 1 (suc (length (wire true text) / segsize)))).status
    ≡ finished
completes_example = sendfile_completes true idle text text_is_short

abbrev late : Sender.Sender
late = record (Sender.enter idle (source text)) { block = 32768; size = pos 512 }

late_block : 2 ^ 15 ≤ late.block
late_block = omega arith

stuck_example :
    ((Sender.run false late ((Sender.packet 4 32768, true) ∷ [])).block ≡ 32768)
    × ((Sender.run false late ((Sender.packet 4 32768, true) ∷ [])).status ≢ finished)
stuck_example = sendfile_stuck false late ((Sender.packet 4 32768, true) ∷ []) refl late_block

nothing_before : NoCr none
nothing_before = refl

encode_example :
    ((put_all none (encode text) (sink [])).1 ≡ sink (reverse_aux text []))
    × NoCr (put_all none (encode text) (sink [])).0
encode_example = put_all-encode text none [] nothing_before

-- A repeated block, an alarm, and the block.
abbrev packets : List (Receiver.Event × Bool)
packets =
    (Receiver.packet 3 0 (pos 1) (9 ∷ []), true)
    ∷ (Receiver.alarm, true)
    ∷ (Receiver.packet 3 1 (pos 6) (97 ∷ 13 ∷ 10 ∷ 98 ∷ 13 ∷ 0 ∷ []), true)
    ∷ []

whole : AllWhole packets
whole = (refl, (tt, (refl, tt)))

refines_example :
    ((Receiver.run true (Receiver.start true true idle (sink [])) packets).block
      ≡ (view_run (view_start true) packets).next)
    × ((Receiver.run true (Receiver.start true true idle (sink [])) packets).timeout
        ≡ (view_run (view_start true) packets).timeout)
    × ((Receiver.run true (Receiver.start true true idle (sink [])) packets).status
        ≡ (view_run (view_start true) packets).status)
    × Stores true
        (view_run (view_start true) packets).got
        (Receiver.run true (Receiver.start true true idle (sink [])) packets).file
        (view_run (view_start true) packets).status
refines_example = recvfile_refines true true idle packets whole

view_ends : (view_run (view_start true) packets).status ≡ finished
unfolding ◌-ℤ◌
view_ends = refl

view_got : (view_run (view_start true) packets).got ≡ wire true text
unfolding ◌-ℤ◌
view_got = refl

stores_example :
    contents (Receiver.run true (Receiver.start true true idle (sink [])) packets).file ≡ text
stores_example = recvfile_stores true true idle text packets whole view_ends view_got

-- The session ends; the last wait looks at the other buffer, which has had no header yet.
receiver_ends :
    (Receiver.run true (Receiver.start true true idle (sink [])) packets).status ≡ finished
receiver_ends = (recvfile_refines true true idle packets whole).2 ∙ view_ends

last_wait_example :
    last_wait
      (pos 10)
      (heads true (Receiver.start true true idle (sink [])) no_heads packets)
      (Receiver.run true (Receiver.start true true idle (sink [])) packets)
    ≡ Receiver.run true (Receiver.start true true idle (sink [])) packets
last_wait_example = last_wait-run true true idle (sink []) packets (pos 10) receiver_ends

-- One file, which others may read but not write.
abbrev one_file : List ℕ → StatResult
one_file path = found true false

abbrev no_error : List ℕ → Opcode → Option ℕ
no_error path op = none

abbrev server : System
server = record { dir = some (47 ∷ 115 ∷ []); stat = one_file; open_file = no_error }

up_example :
    (validate_access server ((97 ∷ []) ++ (up ++ (98 ∷ []))) rrq ≡ eaccess)
    × (validate_access server (dot ∷ 98 ∷ []) rrq ≡ eaccess)
up_example = validate_access-up server rrq (97 ∷ []) (98 ∷ [])

-- The name "/..", for the parent of the directory served.
parent_granted : validate_access server (slash ∷ dot ∷ dot ∷ []) rrq ≡ 0
unfolding validate_access climbs climbs_from full_name
parent_granted = refl

not_writable : validate_access server (97 ∷ 98 ∷ []) wrq ≡ eaccess
unfolding validate_access climbs climbs_from full_name
not_writable = refl

-- A write request for the file "ab" in the mode "Octet", of 11 bytes, with other bytes behind it.
abbrev written : List ℕ
written = 79 ∷ 99 ∷ 116 ∷ 101 ∷ 116 ∷ []

abbrev memory : List ℕ → ℕ → ℕ
memory [] i = 120
memory (c ∷ cs) zero = c
memory (c ∷ cs) (suc i) = memory cs i

abbrev packet : ℕ → ℕ
packet = memory (request wrq (97 ∷ 98 ∷ []) written)

serve-request_example :
    serve server packet 11 ≡ answer server wrq (97 ∷ 98 ∷ []) (find_format (lower_all written))
serve-request_example =
    serve-request server packet (97 ∷ 98 ∷ []) written (omega arith) (omega arith) wrq
      (ground arith)

refused : serve server packet 11 ≡ Answer.nak eaccess
unfolding serve tftp skip_string string_at lower_all same_string find_format answer validate_access
    climbs climbs_from full_name
refused = refl

Serves-example : Serves server (serve server packet 11)
Serves-example = Serves-serve server packet 11
