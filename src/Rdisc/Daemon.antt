-- ===== src/Rdisc/Daemon.antt =====
-- rdisc.c: the daemon (`timer`, `finish`, `graceful_finish`, the end of `main`), as a host. The
-- interfaces that `initifs` finds come with the signal; the sending of solicitations is a count. The
-- signals are blocked while a packet is handled.
use baseliner_docker.Base.{
  ℕ, ◌+◌, Bool, true, false, not, ◌&&◌, if◌then◌else◌, ◌==◌, ltb, List, [], ◌∷◌, none, some, ℤ, pos,
  ◌-ℤ◌, ltb_ℤ, leb_ℤ,
}
use baseliner_docker.Rdisc.Table.{Host, age_table, discard_table}
use baseliner_docker.Rdisc.Packet.{Iface, Setup, pr_pack}

abbrev pub timer_interval : ℕ
timer_interval = 3

abbrev pub getifconf_timer : ℕ
getifconf_timer = 30

abbrev pub max_solicitations : ℕ
max_solicitations = 3

abbrev pub solicitation_interval : ℕ
solicitation_interval = 3

pub record Daemon : Type 0 where
  pub host : Host
  pub ifaces : List Iface
  pub nreceived : ℕ
  pub ntransmitted : ℕ
  pub forever : Bool
  pub solicit : Bool
  pub left_until_getifconf : ℤ
  pub left_until_solicit : ℤ

-- A read outside of a packet is a fault.
pub data Status : Type 0 where
  running : Daemon → Status
  exited : ℕ → Host → Status
  fault : Status

-- The part of `timer` that looks for the interfaces.
unfoldable pub getifconf : List Iface → Daemon → Daemon
getifconf ifaces d =
    let left = d.left_until_getifconf -ℤ pos timer_interval in
    if ltb_ℤ left (pos 0)
    then record d { ifaces = ifaces; left_until_getifconf = pos getifconf_timer }
    else record d { left_until_getifconf = left }

-- The part that solicits; the Boolean is `exit(5)`.
unfoldable pub solicitation : Daemon → Daemon × Bool
solicitation d =
    let left = d.left_until_solicit -ℤ pos timer_interval in
    let sent = record d { left_until_solicit = left; ntransmitted = d.ntransmitted + 1 } in
    if d.solicit && leb_ℤ left (pos 0)
    then if ltb sent.ntransmitted max_solicitations
      then (record sent { left_until_solicit = pos solicitation_interval }, false)
      else (record sent { solicit = false }, not d.forever && (d.nreceived == 0))
    else (record d { left_until_solicit = left }, false)

unfoldable pub timer : Setup → List Iface → Daemon → Status
timer setup ifaces d =
    let (d', exits) = solicitation (getifconf ifaces d) in
    if exits
    then exited 5 d'.host
    else running (record d' { host = age_table setup.best_preference timer_interval d'.host })

-- `pr_pack`, with the counter; behind the first advertisement the daemon runs on for ever.
unfoldable pub receive : Setup → List ℕ → Daemon → Status
receive setup buf d = elim (pr_pack setup d.ifaces buf d.host) [
  | none ↦ fault
  | some none ↦ running d
  | some (some h) ↦ running (record d { host = h; nreceived = d.nreceived + 1; forever = true })
]

unfoldable pub finish : Daemon → Status
finish d = exited 0 d.host

unfoldable pub graceful_finish : Daemon → Status
graceful_finish d = exited 0 (discard_table d.host)

-- The signals, with the interfaces that are found, and the packets, with what malloc finds.
pub data Event : Type 0 where
  sigint sigterm : Event
  sighup sigalrm : List Iface → Event
  packet : List ℕ → (ℕ → Bool) → Event

unfoldable pub handle : Bool → Event → Daemon → Status
handle best_preference sigint d = finish d
handle best_preference sigterm d = graceful_finish d
handle best_preference (sighup ifaces) d = running (record d { ifaces = ifaces })
handle best_preference (sigalrm ifaces) d =
    timer (record { best_preference = best_preference; room = λ i. true }) ifaces d
handle best_preference (packet buf room) d =
    receive (record { best_preference = best_preference; room = room }) buf d

unfoldable pub run : Bool → List Event → Status → Status
run best_preference [] s = s
run best_preference (e ∷ events) (running d) =
    run best_preference events (handle best_preference e d)
run best_preference (e ∷ events) (exited code h) = exited code h
run best_preference (e ∷ events) fault = fault

-- `main` before its loop, by the options `-s` and `-f`; then `timer` is called.
unfoldable pub start : Bool → Bool → List Iface → Daemon
start solicit forever ifaces = record {
  host = record { table = []; calls = [] };
  ifaces = ifaces;
  nreceived = 0;
  ntransmitted = 0;
  forever = not (solicit && not forever);
  solicit = solicit;
  left_until_getifconf = pos 0;
  left_until_solicit = pos 0;
}

unfoldable pub main : Bool → Bool → Bool → List Iface → List Event → Status
main best_preference solicit forever ifaces events =
    run best_preference (sigalrm ifaces ∷ events) (running (start solicit forever ifaces))
