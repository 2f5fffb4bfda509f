-- ===== src/Rdisc/Life.antt =====
-- Over a run of rdisc the routes in the kernel are those of the best routers in the table.
use mathlib.Core.Path.{subst}
use mathlib.Core.Option.{none-ne-some}
use baseliner_docker.Base.{
  ℕ, ◌+◌, ◌<◌, ◌≤◌, Bool, true, false, ◌&&◌, ltb, leb_ℤ, List, [], ◌∷◌, Option, none, some, arith,
  ◌≡◌, refl, Bool-cases, inl, inr, ◌∙◌, pos, ◌-ℤ◌, length, if_rule,
}
use baseliner_docker.Rdisc.Table.{Host, Entry, find_router, max_preference, discard_table}
use baseliner_docker.Rdisc.Walks.{installed, Alternates, flag-absent}
use baseliner_docker.Rdisc.Lookup.{flag-find_router, find_router-none}
use baseliner_docker.Rdisc.Sound.{Sound, discard_table-Sound}
use baseliner_docker.Rdisc.Best.{wanted, Good}
use baseliner_docker.Rdisc.Routes.{record_router-Good}
use baseliner_docker.Rdisc.Aging.{age_table-Good, discard_table-none}
use baseliner_docker.Rdisc.Packet.{Iface}
use baseliner_docker.Rdisc.Reading.{Taken, pr_pack-Gives}
use baseliner_docker.Rdisc.Daemon.{
  Daemon, Status, running, exited, fault, Event, sigint, sigterm, sighup, sigalrm, packet,
  getifconf, solicitation, timer, receive, finish, graceful_finish, handle, run, start, main,
  max_solicitations,
}

pub record Inv (best : Bool) (d : Daemon) : Type 0 where
  pub good : Good best d.host
  pub sent : d.ntransmitted ≤ max_solicitations
  pub soliciting : d.solicit ≡ true → d.ntransmitted < max_solicitations

abbrev pub Holds : Bool → Status → Type 0
Holds best (running d) = Inv best d
Holds best (exited code h) = Good best h
Holds best fault = ⊥

pub empty_Good : (best : Bool) → Good best (record { table = []; calls = [] })
unfolding find_router
empty_Good best = record {
  sound = record { unique = tt; routes = λ a. refl; alternates = tt };
  flags = λ a {tp} e. absurd (none-ne-some tp e);
}

Good-empty : (best : Bool) (h : Host) → h.table ≡ [] → Sound h → Good best h
unfolding find_router
Good-empty best h e s = record {
  sound = s;
  flags = λ a {tp} f. absurd (none-ne-some tp (rw e at f));
}

discard_table-Good : (best : Bool) (h : Host) → Good best h → Good best (discard_table h)
discard_table-Good best h g =
    Good-empty best (discard_table h) (discard_table-none h) (discard_table-Sound h g.sound)

getifconf-Inv :
    (best : Bool) (ifaces : List Iface) (d : Daemon) → Inv best d → Inv best (getifconf ifaces d)
unfolding getifconf
getifconf-Inv best ifaces d i =
    if_rule (Inv best) _ (record { good = i.good; sent = i.sent; soliciting = i.soliciting })
      (record { good = i.good; sent = i.sent; soliciting = i.soliciting })

solicitation-Inv : (best : Bool) (d : Daemon) → Inv best d → Inv best (solicitation d).0
unfolding solicitation
solicitation-Inv best d i =
    elim (Bool-cases (d.solicit && leb_ℤ (d.left_until_solicit -ℤ pos 3) (pos 0))) [
      | inr c ↦ rw c (record { good = i.good; sent = i.sent; soliciting = i.soliciting })
      | inl c ↦ elim (Bool-cases (ltb (d.ntransmitted + 1) 3)) [
        | inl l ↦
            rw (c, l)
              (record {
                good = i.good;
                sent = ground (arith, l);
                soliciting = λ s. ground (arith, l);
              })
        | inr l ↦
            rw (c, l)
              (record {
                good = i.good;
                sent = ground (arith, i.soliciting, c);
                soliciting = λ s. ground (arith, s);
              })
      ]
    ]

timer-Holds :
    (best : Bool) (room : ℕ → Bool) (ifaces : List Iface) (d : Daemon)
    → Inv best d
    → Holds best (timer (record { best_preference = best; room = room }) ifaces d)
unfolding timer
timer-Holds best room ifaces d i =
    let j = solicitation-Inv best (getifconf ifaces d) (getifconf-Inv best ifaces d i) in
    if_rule (Holds best) (solicitation (getifconf ifaces d)).1 j.good
      (record { good = age_table-Good best 3 _ j.good; sent = j.sent; soliciting = j.soliciting })

abbrev pub HasBytes : Event → Type 0
HasBytes (packet buf room) = 0 < length buf
HasBytes _ = Unit

abbrev pub AllHaveBytes : List Event → Type 0
AllHaveBytes [] = Unit
AllHaveBytes (e ∷ events) = HasBytes e × AllHaveBytes events

receive-Holds :
    (best : Bool) (room : ℕ → Bool) (buf : List ℕ) (d : Daemon)
    → 0 < length buf
    → Inv best d
    → Holds best (receive (record { best_preference = best; room = room }) buf d)
unfolding receive
receive-Holds best room buf d l i =
    let (o, e, g) =
      pr_pack-Gives (record { best_preference = best; room = room }) d.ifaces buf (Good best)
        (record_router-Good best) d.host l i.good in
    rw (e, receive) (taken o g)
  where
    taken :
        (o : Option Host)
        → Taken (Good best) o
        → Holds best (elim o [
          | none ↦ running d
          | some h ↦ running (record d { host = h; nreceived = d.nreceived + 1; forever = true })
        ])
    taken none g = i
    taken (some h) g = record { good = g; sent = i.sent; soliciting = i.soliciting }

pub handle-Holds :
    (best : Bool) (e : Event) (d : Daemon) → HasBytes e → Inv best d → Holds best (handle best e d)
unfolding handle finish graceful_finish
handle-Holds best sigint d b i = i.good
handle-Holds best sigterm d b i = discard_table-Good best d.host i.good
handle-Holds best (sighup ifaces) d b i = record {
  good = i.good;
  sent = i.sent;
  soliciting = i.soliciting;
}
handle-Holds best (sigalrm ifaces) d b i = timer-Holds best _ ifaces d i
handle-Holds best (packet buf room) d b i = receive-Holds best room buf d b i

run-Holds :
    (best : Bool) (events : List Event) (s : Status)
    → AllHaveBytes events
    → Holds best s
    → Holds best (run best events s)
unfolding run
run-Holds best [] s b h = h
run-Holds best (e ∷ events) (running d) b h =
    run-Holds best events (handle best e d) b.1 (handle-Holds best e d b.0 h)
run-Holds best (e ∷ events) (exited code d) b h = h
run-Holds best (e ∷ events) fault b h = h

pub main-Holds :
    (best solicit forever : Bool) (ifaces : List Iface) (events : List Event)
    → AllHaveBytes events
    → Holds best (main best solicit forever ifaces events)
unfolding main start
main-Holds best solicit forever ifaces events b =
    run-Holds best (sigalrm ifaces ∷ events) _ (tt, b)
      (record { good = empty_Good best; sent = omega arith; soliciting = λ s. omega arith })

-- Which routes should be there, by the table.
abbrev pub should : Bool → Host → ℕ → Bool
should best h a = elim (find_router a h.table) [
  | none ↦ false
  | some tp ↦ wanted best (max_preference h.table) tp
]

-- The routes in the kernel are those that should be there, and no call was in vain.
abbrev pub BestRoutes : Bool → Host → Type 0
BestRoutes best h = ((a : ℕ) → installed h.calls a ≡ should best h a) × Alternates h.calls

Good-should :
    (best : Bool) (h : Host) (a : ℕ) (o : Option Entry)
    → Good best h
    → find_router a h.table ≡ o
    → installed h.calls a
      ≡ (elim o [ none ↦ false | some tp ↦ wanted best (max_preference h.table) tp ])
Good-should best h a none g e =
    g.sound.routes a ∙ flag-absent a h.table (find_router-none a h.table e)
Good-should best h a (some tp) g e = g.sound.routes a ∙ flag-find_router a h.table e ∙ g.flags a e

Good-BestRoutes : (best : Bool) (h : Host) → Good best h → BestRoutes best h
Good-BestRoutes best h g =
    (λ a. Good-should best h a (find_router a h.table) g refl, g.sound.alternates)

abbrev pub Ends : Bool → Status → Type 0
Ends best (running d) = BestRoutes best d.host × (d.ntransmitted ≤ max_solicitations)
Ends best (exited code h) = BestRoutes best h
Ends best fault = ⊥

Holds-Ends : (best : Bool) (s : Status) → Holds best s → Ends best s
Holds-Ends best (running d) i = (Good-BestRoutes best d.host i.good, i.sent)
Holds-Ends best (exited code h) g = Good-BestRoutes best h g
Holds-Ends best fault f = f

-- Whatever packets, each of a byte at least, and signals come, rdisc reads no byte outside of a packet,
-- solicits three times at most, and the routes that it has in the kernel are those of the eligible
-- routers in its table, with best_preference of those with the greatest preference; it adds no route
-- that it has there, and deletes none that it has not.
pub main-Ends :
    (best solicit forever : Bool) (ifaces : List Iface) (events : List Event)
    → AllHaveBytes events
    → Ends best (main best solicit forever ifaces events)
main-Ends best solicit forever ifaces events b =
    Holds-Ends best _ (main-Holds best solicit forever ifaces events b)

-- On SIGTERM a running rdisc exits with all its routes taken out of the kernel.
pub handle-main :
    (best solicit forever : Bool) (ifaces : List Iface) (events : List Event) (d : Daemon)
    → AllHaveBytes events
    → main best solicit forever ifaces events ≡ running d
    → (h : Host) × (handle best sigterm d ≡ exited 0 h) × ((a : ℕ) → installed h.calls a ≡ false)
unfolding handle graceful_finish
handle-main best solicit forever ifaces events d b e =
    let i = subst (Holds best) e (main-Holds best solicit forever ifaces events b) in
    let s = discard_table-Sound d.host i.good.sound in
    (discard_table d.host, refl, λ a. s.routes a ∙ rw (discard_table-none d.host))
