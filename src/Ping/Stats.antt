-- ===== src/Ping/Stats.antt =====
-- ping_common.c: `gather_statistics`, with `tvsub` of ping.h and `update_interval`. What is printed
-- is left out, and so is what `send_probe` (ping.c, ping6_common.c) does but for the table; sums are those of `unsigned long long`, other numbers are integers without bound.
use baseliner_docker.Base.{
  ℕ, ◌+◌, ◌-◌, ◌*◌, ◌%◌, ◌^◌, Bool, true, not, ◌&&◌, leb, ltb, if◌then◌else◌, ℤ, pos, negsuc, ◌+ℤ◌,
  ◌-ℤ◌, ◌*ℤ◌, quot_ℤ, sub_ℕ, ltb_ℤ, eqb_ℤ, pos_part,
}
use baseliner_docker.Clock.{Timespec, giga, nanos}
use baseliner_docker.Ping.Table.{Bitmap, rcvd_set, rcvd_clear, rcvd_test}
use baseliner_docker.Ping.Flight.{Flight, acknowledge}

-- `tvsub`
unfoldable pub tvsub : Timespec → Timespec → Timespec
tvsub out in_ =
    let n = out.nsec -ℤ in_.nsec in
    if ltb_ℤ n (pos 0)
    then (record { sec = out.sec -ℤ pos 1 -ℤ in_.sec; nsec = n +ℤ pos giga })
    else (record { sec = out.sec -ℤ in_.sec; nsec = n })

-- Conversion of a long to an int.
abbrev pub to_int : ℤ → ℤ
to_int (pos n) = if ltb (n % 2 ^ 32) (2 ^ 31) then pos (n % 2 ^ 32) else sub_ℕ (n % 2 ^ 32) (2 ^ 32)
to_int (negsuc n) =
    if ltb (n % 2 ^ 32) (2 ^ 31) then negsuc (n % 2 ^ 32) else pos (2 ^ 32 - 1 - n % 2 ^ 32)

pub record Options : Type 0 where
  pub timing : Bool
  pub adaptive : Bool
  pub quiet : Bool
  pub flood : Bool
  pub datalen : ℕ
  -- `uid` is not 0
  pub is_user : Bool
  pub confirm_flag : ℕ

pub record Stats : Type 0 where
  pub flight : Flight
  pub table : Bitmap
  pub nrepeats : ℕ
  pub nchecksum : ℕ
  pub tmin : ℤ
  pub tmax : ℤ
  pub tsum : ℕ
  pub tsum2 : ℕ
  pub rtt : ℤ
  pub rtt_addend : ℤ
  pub interval : ℤ
  pub confirm : ℕ
  -- options & F_LATENCY
  pub latency : Bool

abbrev pub min_user_interval : ℤ
min_user_interval = pos 200

-- `update_interval`
unfoldable pub update_interval : Options → Stats → Stats
update_interval o s =
    let est = if eqb_ℤ s.rtt (pos 0) then s.interval *ℤ pos 1000 else to_int (quot_ℤ s.rtt 8) in
    let next = quot_ℤ (est +ℤ s.rtt_addend +ℤ pos 500) 1000 in
    record s {
      interval = if o.is_user && ltb_ℤ next min_user_interval then min_user_interval else next;
    }

-- The trip time and F_LATENCY after `restamp:`; `now` is what `clock_gettime` returns there.
unfoldable pub trip : Bool → Timespec → Timespec → Timespec → ℤ × Bool
trip latency tv sent now =
    let first = nanos (tvsub tv sent) in
    let again = nanos (tvsub now sent) in
    if not (ltb_ℤ first (pos 0))
    then (first, latency)
    else if latency
    then (pos 0, true)
    else (if ltb_ℤ again (pos 0) then pos 0 else again, true)

-- The sums and extremes with one more trip time, which is not negative.
unfoldable pub add_trip : Options → ℤ → Stats → Stats
add_trip o t s =
    let s' = record s {
      tsum = (s.tsum + pos_part t) % 2 ^ 64;
      tsum2 = (s.tsum2 + pos_part t * pos_part t) % 2 ^ 64;
      tmin = if ltb_ℤ t s.tmin then t else s.tmin;
      tmax = if ltb_ℤ s.tmax t then t else s.tmax;
      rtt = if eqb_ℤ s.rtt (pos 0) then t *ℤ pos 8 else s.rtt +ℤ (t -ℤ quot_ℤ s.rtt 8);
    } in
    if o.adaptive then update_interval o s' else s'

-- `if (timing && cc >= 8+sizeof(struct timespec))`
unfoldable pub time_reply : Options → ℕ → Bool → Timespec → Timespec → Timespec → Stats → Stats
time_reply o cc csfailed tv sent now s =
    if o.timing && leb 24 cc
    then (let (t, l) = trip s.latency tv sent now in
        let s' = record s { latency = l } in if csfailed then s' else add_trip o t s')
    else s

-- What each attempt of `send_probe` does first, before it sends anything: `rcvd_clear(ntransmitted+1)`.
unfoldable pub clear_next : Stats → Stats
clear_next s = record s { table = rcvd_clear (s.flight.ntransmitted + 1) s.table }

abbrev count_received : Flight → Flight
count_received f = record f { nreceived = f.nreceived + 1 }

abbrev discount_received : Flight → Flight
discount_received f = record f { nreceived = f.nreceived - 1 }

-- The counters behind the timing.
unfoldable pub classify : ℕ → Bool → Stats → Stats
classify seq csfailed s =
    if csfailed
    then (record s { nchecksum = s.nchecksum + 1; flight = discount_received s.flight })
    else if rcvd_test seq s.table
    then (record s { nrepeats = s.nrepeats + 1; flight = discount_received s.flight })
    else (record s { table = rcvd_set seq s.table })

-- `gather_statistics`: the new state and the value returned.
unfoldable pub gather_statistics :
    Options → ℕ → ℕ → Bool → Timespec → Timespec → Timespec → Stats → Stats × ℕ
gather_statistics o cc seq csfailed tv sent now s =
    let f = count_received s.flight in
    let s1 = record s { flight = if csfailed then f else acknowledge seq f } in
    let s2 = classify seq csfailed (time_reply o cc csfailed tv sent now s1) in
    (
      record s2 { confirm = o.confirm_flag },
      if o.quiet then 1 else if o.flood then 0 else if ltb cc (o.datalen + 8) then 1 else 0,
    )
