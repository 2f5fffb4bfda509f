-- ===== src/Rdisc/Tests.antt =====
-- rdisc at concrete inputs.
use baseliner_docker.Base.{
  ℕ, true, false, if◌then◌else◌, List, [], ◌∷◌, ◌++◌, some, arith, ◌≡◌, refl, pos, negsuc, ◌-ℤ◌,
}
use baseliner_docker.Rdisc.Table.{
  Host, siocaddrt, siocdelrt, find_router, max_from, walk, on_router, add_if, del_if, add_best,
  add_own, del_own, del_lower, update_routes, record_at, record_router, age, age_table,
}
use baseliner_docker.Rdisc.Walks.{installed}
use baseliner_docker.Rdisc.Packet.{
  Iface, Setup, is_directly_connected, byte, in_cksum, take_addrs, advertisement, pr_pack,
}
use baseliner_docker.Rdisc.Advertise.{advertise, pr_pack-advertise}
use baseliner_docker.Ping.Checksum.{sum_words}
use baseliner_docker.Rdisc.Daemon.{
  receive, Daemon, Event, packet, sigalrm, sigterm, running, exited, start, main, handle, receive,
  run, timer, getifconf, solicitation,
}
use baseliner_docker.Rdisc.Life.{Ends, empty_Good, main-Ends, handle-main}
use baseliner_docker.Rdisc.Spec.{Change, advertised, passed, changed, specified, view, view-changed}

abbrev empty : Host
empty = record { table = []; calls = [] }

-- The better router takes the place of the first, and gives it back when it is withdrawn.
taken_and_given_back :
    (record_router true true 2
      (pos 7)
      0
      (record_router true true 2 (pos 7) 1800 (record_router true true 1 (pos 5) 1800 empty))).calls
    ≡ siocaddrt 1 ∷ siocdelrt 2 ∷ siocdelrt 1 ∷ siocaddrt 2 ∷ siocaddrt 1 ∷ []
unfolding record_router record_at update_routes add_best add_own del_own del_lower walk on_router
    add_if del_if max_from find_router
taken_and_given_back = refl

-- Time passes until the better router is gone.
given_back :
    (age_table true 4
      (record_router true true 2 (pos 7) 4 (record_router true true 1 (pos 5) 1800 empty))).calls
    ≡ siocaddrt 1 ∷ siocdelrt 2 ∷ siocdelrt 1 ∷ siocaddrt 2 ∷ siocaddrt 1 ∷ []
unfolding age_table age record_router record_at update_routes add_best add_own del_own del_lower
    walk on_router add_if del_if max_from find_router ◌-ℤ◌
given_back = refl

abbrev header : List ℕ
header = 69 ∷ 0 ∷ 0 ∷ 0 ∷ 0 ∷ 0 ∷ 0 ∷ 0 ∷ 0 ∷ 0 ∷ 0 ∷ 0 ∷ 0 ∷ 0 ∷ 0 ∷ 0 ∷ 0 ∷ 0 ∷ 0 ∷ 0 ∷ []

-- 10.0.0.1 on 10.0.0.2/24
abbrev ifaces : List Iface
ifaces = record { netmask = 16777215; remoteaddr = 33554442 } ∷ []

abbrev setup : Setup
setup = record { best_preference = true; room = λ i. true }

pr_pack-advertise_example :
    pr_pack setup ifaces (header ++ advertise 16777226 (negsuc 4) 1800) empty
    ≡ some (
        some (
          if is_directly_connected ifaces 16777226
          then record_router true true 16777226 (negsuc 4) 1800 empty
          else empty))
pr_pack-advertise_example =
    pr_pack-advertise setup ifaces 69
      (0 ∷ 0 ∷ 0 ∷ 0 ∷ 0 ∷ 0 ∷ 0 ∷ 0 ∷ 0 ∷ 0 ∷ 0 ∷ 0 ∷ 0 ∷ 0 ∷ 0 ∷ 0 ∷ 0 ∷ 0 ∷ 0 ∷ []) 16777226
      (negsuc 4) 1800 empty refl (omega arith) (omega arith) (omega arith) (omega arith)

connected : is_directly_connected ifaces 16777226 ≡ true
unfolding is_directly_connected
connected = refl

abbrev events : List Event
events =
    packet (header ++ advertise 16777226 (pos 5) 1800) (λ i. true)
    ∷ packet (header ++ advertise 33554442 (pos 7) 4) (λ i. true)
    ∷ sigalrm ifaces
    ∷ sigalrm ifaces
    ∷ []

main-Ends_example : Ends true (main true true false ifaces events)
main-Ends_example =
    main-Ends true true false ifaces events (omega arith, (omega arith, (tt, (tt, tt))))

abbrev changes : List Change
changes = advertised true 1 (pos 5) 1800 ∷ advertised true 2 (pos 7) 4 ∷ passed 3 ∷ passed 3 ∷ []

view-changed_example : view (changed true changes empty) ≡ specified changes (view empty)
view-changed_example = view-changed true changes empty (empty_Good true)

-- Without an answer to three solicitations the program exits.
no_answer : main true true false ifaces (sigalrm ifaces ∷ sigalrm ifaces ∷ []) ≡ exited 5 empty
unfolding main start run handle timer getifconf solicitation ◌-ℤ◌ age_table walk max_from
no_answer = refl

-- A route is there, and SIGTERM takes it out.
abbrev one : List Event
one = packet (header ++ advertise 16777226 (pos 5) 1800) (λ i. true) ∷ []

abbrev waiting : Daemon
waiting = record {
  host = record {
    table =
        record {
          router = 16777226;
          preference = pos 5;
          remaining_time = pos 1800;
          in_kernel = true;
        }
        ∷ [];
    calls = siocaddrt 16777226 ∷ [];
  };
  ifaces = ifaces;
  nreceived = 1;
  ntransmitted = 0;
  forever = true;
  solicit = false;
  left_until_getifconf = pos 30;
  left_until_solicit = negsuc 2;
}

waits : main true false false ifaces one ≡ running waiting
unfolding main start run handle timer getifconf solicitation ◌-ℤ◌ age_table walk max_from receive
    pr_pack advertisement take_addrs byte in_cksum advertise sum_words is_directly_connected
    record_router record_at update_routes add_best add_own del_own del_lower on_router add_if del_if
    find_router
waits = refl

handle-main_example :
    (h : Host) × (handle true sigterm waiting ≡ exited 0 h)
    × ((a : ℕ) → installed h.calls a ≡ false)
handle-main_example = handle-main true false false ifaces one waiting (omega arith, tt) waits
