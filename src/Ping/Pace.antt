-- ===== src/Ping/Pace.antt =====
-- ping_common.c: when the next probe is sent (`pinger`) and how long ping waits behind the last one
-- (`__schedule_exit`). Times are milliseconds unless said otherwise. A `long` is an integer without
-- bound; the tokens, their limit and what is returned for them are narrowed to an `int`. What is printed
-- is left out.
use baseliner_docker.Base.{
  ℕ, ◌+◌, ◌-◌, ◌/◌, ◌%◌, ◌^◌, List, [], ◌∷◌, Bool, false, not, ◌&&◌, ◌||◌, ◌==◌, leb, ltb, ℤ, pos,
  negsuc, ◌+ℤ◌, ◌-ℤ◌, ◌*ℤ◌, quot_ℤ, ltb_ℤ, leb_ℤ, eqb_ℤ, if◌then◌else◌,
}
use baseliner_docker.Clock.{Timespec}
use baseliner_docker.Ping.Flight.{in_flight, advance_ntransmitted}
use baseliner_docker.Ping.Stats.{Options, Stats, to_int, update_interval, clear_next}

abbrev pub min_interval : ℤ
min_interval = pos 10

-- SCHINT
abbrev pub schint : ℤ → ℤ
schint a = if leb_ℤ a min_interval then min_interval else a

-- The variables of `pinger`; `oom_count` and `tokens` are static.
pub record Pacer : Type 0 where
  pub stats : Stats
  pub tokens : ℤ
  pub oom_count : ℕ
  pub cur_time : Timespec
  pub confirm_flag : Bool
  pub exiting : Bool
  pub npackets : ℕ
  -- `deadline` is not 0
  pub deadline : Bool
  pub preload : ℤ
  pub lingertime : ℤ

-- The milliseconds since the last probe.
abbrev pub elapsed : Timespec → Timespec → ℤ
elapsed tv cur = (tv.sec -ℤ cur.sec) *ℤ pos 1000 +ℤ quot_ℤ (tv.nsec -ℤ cur.nsec) 1_000_000

pub data Gate : Type 0 where
  wait : ℤ → Gate
  pass : Pacer → Gate

abbrev pub min_ℤ : ℤ → ℤ → ℤ
min_ℤ a b = if ltb_ℤ b a then b else a

-- The tokens behind `ntokens += tokens` and its limit.
abbrev pub filled_up : Timespec → Pacer → ℤ
filled_up tv p = min_ℤ (elapsed tv p.cur_time +ℤ p.tokens) (to_int (p.stats.interval *ℤ p.preload))

-- `Check that packets < rate*time + preload`; `tv` is the clock.
unfoldable pub gate : Timespec → Pacer → Gate
gate tv p =
    if eqb_ℤ p.cur_time.sec (pos 0)
    then pass
        (record p { cur_time = tv; tokens = to_int (p.stats.interval *ℤ (p.preload -ℤ pos 1)) })
    else if eqb_ℤ p.stats.interval (pos 0)
        && ltb_ℤ (elapsed tv p.cur_time) min_interval
        && leb_ℤ p.preload (in_flight p.stats.flight)
    then wait (to_int (min_interval -ℤ elapsed tv p.cur_time))
    else if ltb_ℤ (filled_up tv p) p.stats.interval
    then wait (to_int (p.stats.interval -ℤ filled_up tv p))
    else pass (record p { cur_time = tv; tokens = to_int (filled_up tv p -ℤ p.stats.interval) })

-- What `send_probe` does.
pub data Attempt : Type 0 where
  sent : Attempt
  -- a positive result
  fatal : Attempt
  -- ENOBUFS or ENOMEM
  no_buffers : Attempt
  -- EAGAIN
  again : Attempt
  -- another error: the result of `receive_error_msg`, and whether `errno` is then EINVAL, or 0
  refused : ℤ → Bool → Bool → Attempt

pub data Sent : Type 0 where
  returned : ℤ → Pacer → Sent
  aborted : Sent
  -- each attempt was followed by `goto resend`
  resending : Pacer → Sent

abbrev pub attempted : Pacer → Pacer
attempted p = record p { stats = clear_next p.stats }

abbrev pub transmitted : Pacer → Pacer
transmitted p = record p { stats = record p.stats { flight = advance_ntransmitted p.stats.flight } }

-- `hard_local_error`
unfoldable pub hard_local_error : Pacer → Sent
hard_local_error p = returned (schint p.stats.interval) (record (transmitted p) { tokens = pos 0 })

-- The slowdown where there is no memory: `rtt_addend`, and `update_interval` in adaptive mode.
unfoldable pub slow_down : Options → Pacer → Pacer
slow_down o p =
    let s = record p.stats {
      rtt_addend =
          p.stats.rtt_addend
          +ℤ (if ltb_ℤ p.stats.rtt (pos 400_000) then quot_ℤ p.stats.rtt 8 else pos 50_000);
    } in
    record p {
      tokens = pos 0;
      oom_count = p.oom_count + 1;
      stats = if o.adaptive then update_interval o s else s;
    }

abbrev pub nores_interval : Pacer → ℤ
nores_interval p = min_ℤ (schint (quot_ℤ p.stats.interval 2)) (pos 500)

unfoldable pub out_of_memory : Options → Pacer → Sent
out_of_memory o p =
    let q = slow_down o p in
    if ltb_ℤ (pos q.oom_count *ℤ nores_interval q) q.lingertime
    then returned (nores_interval q) q
    else hard_local_error q

-- From `resend:` on; each attempt clears the bit of the next number first.
unfoldable pub send_probes : Options → List Attempt → Pacer → Sent
send_probes o [] p = resending p
send_probes o (sent ∷ tries) p =
    returned (to_int (p.stats.interval -ℤ p.tokens))
      (record (transmitted (attempted p)) { oom_count = 0 })
send_probes o (fatal ∷ tries) p = aborted
send_probes o (no_buffers ∷ tries) p = out_of_memory o (attempted p)
send_probes o (again ∷ tries) p =
    returned min_interval (record (attempted p) { tokens = to_int (p.tokens +ℤ p.stats.interval) })
send_probes o (refused i einval zero_errno ∷ tries) p =
    let q = attempted p in
    let old = send_probes o tries (record q { confirm_flag = false }) in
    let once_more = send_probes o tries q in
    if ltb_ℤ (pos 0) i
    then hard_local_error q
    else if eqb_ℤ i (pos 0) && p.confirm_flag && einval
    then old
    else if zero_errno
    then once_more
    else hard_local_error q

abbrev send_behind : Options → List Attempt → Pacer → Gate → Sent
send_behind o tries p (wait n) = returned n p
send_behind o tries p (pass q) = send_probes o tries q

abbrev pub sent_enough : Pacer → Bool
sent_enough p =
    p.exiting
    || (not (p.npackets == 0) && leb p.npackets p.stats.flight.ntransmitted && not p.deadline)

-- `pinger`: the value returned and the new state.
unfoldable pub pinger : Options → List Attempt → Timespec → Pacer → Sent
pinger o tries tv p =
    if sent_enough p then returned (pos 1000) p else send_behind o tries p (gate tv p)

abbrev pub to_u64 : ℤ → ℕ
to_u64 (pos n) = n % 2 ^ 64
to_u64 (negsuc n) = 2 ^ 64 - 1 - n % 2 ^ 64

abbrev pub max_ℕ : ℕ → ℕ → ℕ
max_ℕ a b = if ltb a b then b else a

-- `__schedule_exit`, for a call with `waittime` 0 or not: the value returned, and `waittime`, in
-- microseconds, for which the timer is set.
unfoldable pub schedule_exit : ℤ → Pacer → ℕ → ℤ × ℕ
schedule_exit next p waittime =
    let w =
      if not (p.stats.flight.nreceived == 0)
      then max_ℕ (to_u64 (pos 2 *ℤ p.stats.tmax)) (to_u64 (pos 1000 *ℤ p.stats.interval))
      else to_u64 (p.lingertime *ℤ pos 1000) in
    if not (waittime == 0)
    then (next, waittime)
    else (if ltb_ℤ next (pos 0) || ltb (to_u64 next) (w / 1000) then pos (w / 1000) else next, w)
